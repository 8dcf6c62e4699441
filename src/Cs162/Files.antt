-- ===== src/Cs162/Files.antt =====
-- `handle_files_request` of CS162-httpserver.c: one connection, from the request to the response.
pub mod Answers
pub mod Paths
pub mod Refines
use cloudcomputing_lab2_http.Prelude.{
  ℕ, Bool, true, false, Option, none, some, [], ◌∷◌, ◌++◌, ◌==◌, if◌then◌else◌,
}
use cloudcomputing_lab2_http.Cstr.{Bytes, codes, strstr}
use cloudcomputing_lab2_http.Os.{Io, ◌>>=◌, ◌>>◌, close, stat}
use cloudcomputing_lab2_http.Libhttp.Request.{HttpRequest}
use cloudcomputing_lab2_http.Libhttp.Receive.{http_request_parse}
use cloudcomputing_lab2_http.Libhttp.Response.{
  http_start_response, http_send_header, http_end_headers,
}
use cloudcomputing_lab2_http.Cs162.Sending.{serve_file}
use cloudcomputing_lab2_http.Cs162.Links.{Site}
use cloudcomputing_lab2_http.Cs162.Directory.{serve_directory}

-- A status with no body, for the three errors: in the code only its close stands apart for 404.
unfoldable pub send_status : ℕ → ℕ → Io (Unit {0})
send_status fd status_code = do
  http_start_response fd status_code
  http_send_header fd (codes "Content-Type") (codes "text/html")
  http_end_headers fd
  close (some fd)

-- S_ISDIR(sb.st_mode), which is read where `stat` succeeded.
abbrev pub is_directory : Site → Bytes → Bool
is_directory site path = elim (site.listing path) [ none ↦ false | some entries ↦ true ]

abbrev pub starts_with_slash : Bytes → Bool
starts_with_slash [] = false
starts_with_slash (c ∷ path) = c == b'/'

module _ (site : Site) where
  -- The branches on the path, by whether `stat` succeeded, which it does on directories too.
  unfoldable pub serve_found : ℕ → Bytes → Bool → Io (Unit {0})
  serve_found fd path exist =
      if is_directory site path
      then (serve_directory site fd path >> close (some fd))
      else if exist
      then (serve_file site.fuel fd path >> close (some fd))
      else send_status fd 404

  unfoldable pub serve_path : ℕ → Bytes → Io (Unit {0})
  unfolding serve_found
  serve_path fd path = stat path >>= serve_found fd path

  unfoldable pub files_route : ℕ → HttpRequest → Io (Unit {0})
  unfolding serve_path send_status
  files_route fd request = elim (strstr request.path (codes "..")) [
    | some i ↦ send_status fd 403
    | none ↦ serve_path fd (codes "./" ++ request.path)
  ]

  abbrev pub files_respond : ℕ → Option HttpRequest → Io (Unit {0})
  files_respond fd none = send_status fd 400
  files_respond fd (some request) =
      if starts_with_slash request.path then files_route fd request else send_status fd 400

  unfoldable pub handle_files_request : (ℕ → Bool) → ℕ → Io (Unit {0})
  unfolding files_route
  handle_files_request alloc fd = http_request_parse alloc fd >>= files_respond fd
