-- ===== src/Cs162/Directory.antt =====
-- `serve_directory` of CS162-httpserver.c.
pub mod Sends
use cloudcomputing_lab2_http.Prelude.{
  ℕ, ◌+◌, Bool, true, false, none, some, List, [], ◌∷◌, if◌then◌else◌, length,
}
use cloudcomputing_lab2_http.Result.{null_pointer}
use cloudcomputing_lab2_http.Cstr.{Bytes, codes, strcmp_eq}
use cloudcomputing_lab2_http.Os.{Io, pure, fail, lift, ◌>>=◌, ◌>>◌, open_file, close}
use cloudcomputing_lab2_http.Libhttp.Response.{
  http_start_response, http_send_header, http_end_headers, http_format_index,
}
use cloudcomputing_lab2_http.Libhttp.Mime.{http_get_mime_type}
use cloudcomputing_lab2_http.Cs162.Sending.{http_send_file, http_send_string}
use cloudcomputing_lab2_http.Cs162.Links.{Site, directory_text}

-- The first loop: whether "index.html" is among the entries.
unfoldable pub has_index : List Bytes → Bool
has_index [] = false
has_index (d_name ∷ entries) =
    let rest = has_index entries in if strcmp_eq d_name (codes "index.html") then true else rest

-- The body of the first loop for that entry.
unfoldable pub send_index : ℕ → ℕ → Bytes → Io (Unit {0})
send_index fuel fd path =
    lift (http_format_index (length path + length (codes "/index.html") + 1) path) >>= λ full_path.
    open_file full_path >>= λ src_fd. http_send_file fuel fd src_fd >>= λ status. close src_fd

module _ (site : Site) where
  unfoldable pub send_links : ℕ → Bytes → List Bytes → Io (Unit {0})
  send_links fd path entries = lift (directory_text site path entries) >>= λ send_buffer.
      http_send_string fd send_buffer >>= λ status. pure tt

  -- What follows the headers. `readdir` of NULL is a read through it.
  unfoldable pub directory_body : ℕ → Bytes → Io (Unit {0})
  unfolding has_index send_index send_links
  directory_body fd path = elim (site.listing path) [
    | none ↦ fail null_pointer
    | some entries ↦
        if has_index entries then send_index site.fuel fd path else send_links fd path entries
  ]

  unfoldable pub serve_directory : ℕ → Bytes → Io (Unit {0})
  unfolding directory_body
  serve_directory fd path = do
    http_start_response fd 200
    http_send_header fd (codes "Content-Type") (http_get_mime_type (codes ".html"))
    http_end_headers fd
    directory_body fd path
