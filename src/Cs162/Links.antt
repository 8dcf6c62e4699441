-- ===== src/Cs162/Links.antt =====
-- The text that `serve_directory` of CS162-httpserver.c makes of a directory's entries.
pub mod Text
use cloudcomputing_lab2_http.Prelude.{ℕ, ◌+◌, ◌*◌, Option, List, [], ◌∷◌, if◌then◌else◌, length}
use cloudcomputing_lab2_http.Result.{Result, ok, ◌>>=◌}
use cloudcomputing_lab2_http.Cstr.{Bytes, codes, strcmp_eq, string_at}
use cloudcomputing_lab2_http.Libhttp.Response.{http_format_href}
use cloudcomputing_lab2_http.Cs162.Sending.{join_string}

-- The parameters of the environment: the entries that `readdir` gives for a path, in order, if it
-- is a directory; what a new block of a size holds; and the rounds given to the loop that sends a
-- file.
pub record Site : Type 0 where
  pub listing : Bytes → Option (List Bytes)
  pub fresh : ℕ → Bytes
  pub fuel : ℕ

-- The link to an entry, in a block of the length that the code computes.
unfoldable pub entry_link : Bytes → Bytes → Result Bytes
entry_link path dir_name =
    let base = length (codes "<a href=\"//\"></a><br/>") in
    if strcmp_eq dir_name (codes "..")
    then http_format_href (base + length (codes "..") + length (codes "") * 2 + 1) (codes "..")
        dir_name
    else http_format_href (base + length path + length dir_name * 2 + 1) path dir_name

module _ (site : Site) where
  -- The string in the block that `join_string` returns.
  unfoldable pub joined : Bytes → Bytes → Result Bytes
  joined str1 str2 =
      join_string str1 str2 (site.fresh (length str1 + length str2 + 1)) >>= λ r. string_at r.0 0

  -- The second loop.
  unfoldable pub link_loop : Bytes → List Bytes → Bytes → Result Bytes
  unfolding entry_link joined
  link_loop path [] send_buffer = ok send_buffer
  link_loop path (dir_name ∷ entries) send_buffer = entry_link path dir_name >>= λ file_name_buffer.
      joined send_buffer file_name_buffer >>= λ longer. link_loop path entries longer

  -- The second loop, and the end of the text behind it.
  unfoldable pub directory_text : Bytes → List Bytes → Result Bytes
  unfolding link_loop
  directory_text path entries = link_loop path entries [] >>= λ send_buffer.
      joined send_buffer (codes "</center></body></html>")
