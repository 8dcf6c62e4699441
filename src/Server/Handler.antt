-- ===== src/Server/Handler.antt =====
-- `handle_request` of httpserver.c: one connection, from the request to the response.
pub mod Answers
pub mod Files
pub mod Sizes
pub mod Serving
pub mod Names
pub mod Routing
pub mod Checks
pub mod Lost
pub mod Lists
pub mod Misses
pub mod Replies
pub mod Uploads
pub mod Posts
pub mod Queries
pub mod Asks
pub mod Races
pub mod Pipelines
pub mod Hangups
use cloudcomputing_lab2_http.Prelude.{
  ℕ, Bool, false, ◌&&◌, Option, none, some, [], ◌∷◌, ◌++◌, leb, ◌==◌, if◌then◌else◌,
}
use cloudcomputing_lab2_http.Result.{Result, ok, fault, uninitialised}
use cloudcomputing_lab2_http.Cstr.{Bytes, codes, strcmp_eq, strncmp_eq, strstr, string_at}
use cloudcomputing_lab2_http.Os.{Io, lift, ◌>>=◌, ◌>>◌, close, open_file, stat}
use cloudcomputing_lab2_http.Map.{
  ApiRequest, unset, initapi_request, parse_query_string, parse_param, read_api_type,
}
use cloudcomputing_lab2_http.Libhttp.Request.{HttpRequest}
use cloudcomputing_lab2_http.Libhttp.Receive.{http_request_parse}
use cloudcomputing_lab2_http.Libhttp.Response.{
  http_start_response, http_send_header, http_end_headers,
}
use cloudcomputing_lab2_http.Libhttp.Url.{normalize_url}
use cloudcomputing_lab2_http.Server.Send.{http_send_file, serve_file}
use cloudcomputing_lab2_http.Server.Api.{list, check, upload, param_at}
use cloudcomputing_lab2_http.Server.Api.Cjson.{Json}

abbrev pub html_type : Bytes
html_type = codes "text/html"

-- A status with no body, as for 400 and 403.
unfoldable pub refuse : ℕ → ℕ → Io (Unit {0})
refuse fd status_code = do
  http_start_response fd status_code
  http_send_header fd (codes "Content-Type") html_type
  http_end_headers fd
  close (some fd)

-- The page of the 404 responses, and the end of the connection.
unfoldable pub send_page : ℕ → ℕ → Io (Unit {0})
send_page fuel fd = do
  src_fd ← open_file (codes "404.html")
  status ← http_send_file fuel fd src_fd
  close src_fd
  close (some fd)

-- The 404 response with its page.
unfoldable pub not_found : ℕ → ℕ → Io (Unit {0})
unfolding send_page
not_found fuel fd = do
  http_start_response fd 404
  http_send_header fd (codes "Content-Type") html_type
  http_end_headers fd
  send_page fuel fd

-- The name of the file: "./" and the path, without repeated slashes, and the index for the root.
unfoldable pub file_name : Bytes → Result Bytes
file_name path = elim (normalize_url (codes "./" ++ (path ++ 0 ∷ []))) [
  | fault e ↦ fault e
  | ok block ↦ elim (string_at block 0) [
    | fault e ↦ fault e
    | ok name ↦ ok (if strcmp_eq name (codes "./") then codes "./index.html" else name)
  ]
]

unfoldable pub handle_file : ℕ → ℕ → Bytes → Io (Unit {0})
unfolding not_found
handle_file fuel fd path = lift (file_name path) >>= λ name. stat name >>= λ exist.
    if exist then (serve_file fuel fd name >> close (some fd)) else not_found fuel fd

-- strcmp(request->params[0].param, "id") == 0 && strcmp(request->params[1].param, "name") == 0
unfoldable pub has_id_and_name : ApiRequest → Result Bool
has_id_and_name request = elim (param_at request 0) [
  | fault e ↦ fault e
  | ok p ↦
      let second : Result Bool = (elim (param_at request 1) [
        | fault e ↦ fault e
        | ok q ↦ ok (strcmp_eq q.param (codes "name"))
      ]) in
      if strcmp_eq p.param (codes "id") then second else ok false
]

-- `request->content`, which is not set if the request has no length.
unfoldable pub content_of : HttpRequest → Result Bytes
content_of request = elim request.content [ none ↦ fault uninitialised | some s ↦ ok s ]

-- The parameters of the environment: the JSON library, which allocations succeed, whether the data
-- file can be written, what the stack held, and the rounds given to the loop of `http_send_file`.
pub record Setting : Type 1 where
  pub json : Json
  pub alloc : ℕ → Bool
  pub writable : Bool
  pub stack : Bytes
  pub old_count : ℕ
  pub fuel : ℕ

abbrev pub head_is : Bytes → ℕ → Bool
head_is [] c = false
head_is (d ∷ s) c = d == c

module _ (S : Setting) where
  -- The API request that the path gives.
  unfoldable pub api_request_of : Bytes → Result ApiRequest
  api_request_of path = parse_query_string path (initapi_request (unset S.old_count))

  -- After `list` the function goes on to its end, and answers on the closed descriptor.
  unfoldable pub get_api : ℕ → Bytes → Io (Unit {0})
  unfolding not_found
  get_api fd path = lift (api_request_of path) >>= λ api_request.
      lift (read_api_type api_request.api_type) >>= λ api_type.
      if strcmp_eq api_type (codes "list")
      then (list S.fuel fd >> not_found S.fuel fd)
      else if strcmp_eq api_type (codes "check")
      then (let named =
            (lift (has_id_and_name api_request) >>= λ named.
            if named
            then (check S.json S.fuel S.stack fd api_request >> close (some fd))
            else not_found S.fuel fd) in
          if api_request.count == 2 then named else not_found S.fuel fd)
      else not_found S.fuel fd

  unfoldable pub post_api : ℕ → HttpRequest → Io (Unit {0})
  unfolding not_found
  post_api fd request = lift (api_request_of request.path) >>= λ api_request.
      lift (read_api_type api_request.api_type) >>= λ api_type.
      if strcmp_eq api_type (codes "upload")
      then (lift (content_of request) >>= λ content.
          lift (parse_param content api_request) >>= λ api_request'.
          let named =
            (lift (has_id_and_name api_request') >>= λ named.
            if named
            then upload S.json S.writable S.stack fd api_request'
            else not_found S.fuel fd) in
          if leb 2 api_request'.count then named else not_found S.fuel fd)
      else not_found S.fuel fd

  -- What is done with a request that was parsed.
  unfoldable pub route : ℕ → HttpRequest → Io (Unit {0})
  unfolding get_api post_api handle_file refuse
  route fd request = elim (strstr request.path (codes "..")) [
    | some i ↦ refuse fd 403
    | none ↦
        let api = strncmp_eq request.path (codes "/api") 4 in
        if strcmp_eq request.method (codes "GET")
        then (if api then get_api fd request.path else handle_file S.fuel fd request.path)
        else if strcmp_eq request.method (codes "POST") && api
        then post_api fd request
        else not_found S.fuel fd
  ]

  -- The guards on what was parsed: a request, with a path from the root.
  abbrev pub respond : ℕ → Option HttpRequest → Io (Unit {0})
  respond fd none = refuse fd 400
  respond fd (some request) = if head_is request.path b'/' then route fd request else refuse fd 400

  unfoldable pub handle_request : ℕ → Io (Unit {0})
  handle_request fd = http_request_parse S.alloc fd >>= respond fd
