-- ===== src/Cs162/Files/Answers.antt =====
-- The contract of `handle_files_request`: one response for each request, and the world behind it.
use cloudcomputing_lab2_http.Prelude.{
  ℕ, ◌^◌, ◌<◌, ◌≡◌, refl, ◌≢◌, Option, none, some, List, ◌++◌, arith, if◌then◌else◌, length, All,
  false,
}
use cloudcomputing_lab2_http.Cstr.{Bytes, codes, strstr}
use cloudcomputing_lab2_http.Cstr.Search.{Lacks}
use cloudcomputing_lab2_http.Os.{World, Grant, closed, socket, update, lookup, has_directory}
use cloudcomputing_lab2_http.Libhttp.Request.{HttpRequest}
use cloudcomputing_lab2_http.Server.Send.Delivery.{Accepting, sending}
use cloudcomputing_lab2_http.Server.Handler.Answers.{head}
use cloudcomputing_lab2_http.Server.Handler.Serving.{file_head}
use cloudcomputing_lab2_http.Cs162.Links.{Site}
use cloudcomputing_lab2_http.Cs162.Links.Text.{IsSized, has_parent, links, closing}
use cloudcomputing_lab2_http.Cs162.Directory.{has_index}
use cloudcomputing_lab2_http.Cs162.Directory.Sends.{html}
use cloudcomputing_lab2_http.Cs162.Files.{starts_with_slash}

abbrev pub Files : Type 0
Files = List (Bytes × Bytes)

-- The page of a directory; none where the program does not survive.
abbrev pub directory_page : Files → Bytes → List Bytes → Option Bytes
directory_page files path entries =
    if has_index entries
    then lookup (path ++ codes "/index.html") files
    else if has_parent entries
    then none
    else some (links path entries ++ closing)

abbrev pub under_head : Option Bytes → Option Bytes
under_head none = none
under_head (some page) = some (head 200 html ++ page)

-- The response to a path, by what the path is.
abbrev pub path_response : Option (List Bytes) → Option Bytes → Files → Bytes → Option Bytes
path_response (some entries) contents files path = under_head (directory_page files path entries)
path_response none (some contents) files path = some (file_head path (length contents) ++ contents)
path_response none none files path = some (head 404 html)

abbrev pub response_from : Option ℕ → Option Bytes → Option Bytes
response_from (some dots) served = some (head 403 html)
response_from none served = served

-- The response to what was parsed.
abbrev pub response : Site → Files → Option HttpRequest → Option Bytes
response site files none = some (head 400 html)
response site files (some request) =
    let path = codes "./" ++ request.path in
    if starts_with_slash request.path
    then response_from (strstr request.path (codes ".."))
        (path_response (site.listing path) (lookup path files) files path)
    else some (head 400 html)

-- Files and directories that can be served: blocks have the size asked for, names hold no NUL, what
-- is no directory for `opendir` is none for `stat`, and
-- every file is below 2^31 bytes and the rounds of the loop.
pub record IsSite (site : Site) (files : Files) (directories : List Bytes) : Type 0 where
  pub sized : IsSized site.fresh
  pub listed : (path : Bytes) → site.listing path ≡ none → has_directory path directories ≡ false
  pub named :
      (path : Bytes) (entries : List Bytes)
      → site.listing path ≡ some entries
      → All (Lacks 0) entries
  pub short :
      (path contents : Bytes)
      → lookup path files ≡ some contents
      → (length contents < site.fuel) × (length contents < 2 ^ 31)

-- The text went out on the connection, which is closed. The other descriptors, the files and the count of calls on closed descriptors are as before. Later calls of `write` do not
-- fail either.
pub record Replies (w : World) (fd : ℕ) (text : Bytes) (w' : World) : Type 0 where
  pub delivered : w'.sent ≡ update w.sent fd (w.sent fd ++ text)
  pub hung_up : w'.fds fd ≡ closed
  pub others : (j : ℕ) → j ≢ fd → w'.fds j ≡ w.fds j
  pub same_files : w'.files ≡ w.files
  pub same_misuses : w'.misuses ≡ w.misuses
  pub still_accepting : Accepting w'.grants

-- A response and the close of its connection.
pub plain-Replies :
    (w : World) (fd : ℕ) (input text : Bytes) (gs : List Grant)
    → Accepting gs
    → Replies w fd text
        (record (sending w fd text gs) { fds = update (update w.fds fd (socket input)) fd closed })
plain-Replies w fd input text gs a = record {
  delivered = refl;
  hung_up = ground arith;
  others = λ j n. ground arith;
  same_files = refl;
  same_misuses = refl;
  still_accepting = a;
}
