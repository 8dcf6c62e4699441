-- ===== src/Libhttp/Response.antt =====
-- The writers of libhttp.c: the status line, headers, and the two text builders.
use cloudcomputing_lab2_http.Prelude.{
  ℕ, ◌+◌, ◌-◌, ◌*◌, ◌≡◌, ◌++◌, arith, ltb, ◌==◌, if◌then◌else◌, length, take, length-append,
  take-all,
}
use cloudcomputing_lab2_http.Result.{Result, ok, fault, overflow}
use cloudcomputing_lab2_http.Cstr.{Bytes, codes, decimal}
use cloudcomputing_lab2_http.Os.{Io, dprintf}

unfoldable pub http_get_response_message : ℕ → Bytes
http_get_response_message status_code =
    if status_code == 100
    then codes "Continue"
    else if status_code == 200
    then codes "OK"
    else if status_code == 301
    then codes "Moved Permanently"
    else if status_code == 302
    then codes "Found"
    else if status_code == 304
    then codes "Not Modified"
    else if status_code == 400
    then codes "Bad Request"
    else if status_code == 401
    then codes "Unauthorized"
    else if status_code == 403
    then codes "Forbidden"
    else if status_code == 404
    then codes "Not Found"
    else if status_code == 405
    then codes "Method Not Allowed"
    else codes "Internal Server Error"

-- The text of the status line, and of a header.
abbrev pub status_line : ℕ → Bytes
status_line status_code =
    codes "HTTP/1.0 "
    ++ (decimal status_code
        ++ (codes " " ++ (http_get_response_message status_code ++ codes "\r\n")))

abbrev pub header_line : Bytes → Bytes → Bytes
header_line key value = key ++ (codes ": " ++ (value ++ codes "\r\n"))

unfoldable pub http_start_response : ℕ → ℕ → Io (Unit {0})
http_start_response fd status_code = dprintf fd (status_line status_code)

unfoldable pub http_send_header : ℕ → Bytes → Bytes → Io (Unit {0})
http_send_header fd key value = dprintf fd (header_line key value)

unfoldable pub http_end_headers : ℕ → Io (Unit {0})
http_end_headers fd = dprintf fd (codes "\r\n")

-- snprintf(buffer, length, …) of a text, into a buffer with room for `room` bytes: it writes
-- `length` bytes at most, the NUL among them.
unfoldable pub snprintf : ℕ → ℕ → Bytes → Result Bytes
snprintf room length_arg text =
    let written = take (length_arg - 1) text in
    if ltb (length written) room then ok written else fault overflow

abbrev pub href_text : Bytes → Bytes → Bytes
href_text path filename =
    codes "<a href=\"/"
    ++ (path ++ (codes "/" ++ (filename ++ (codes "\">" ++ (filename ++ codes "</a><br/>")))))

unfoldable pub http_format_href : ℕ → Bytes → Bytes → Result Bytes
unfolding snprintf
http_format_href room path filename =
    snprintf room
      (length (codes "<a href=\"//\"></a><br/>") + length path + length filename * 2 + 1)
      (href_text path filename)

unfoldable pub http_format_index : ℕ → Bytes → Result Bytes
unfolding snprintf
http_format_index room path =
    snprintf room (length path + length (codes "/index.html") + 1) (path ++ codes "/index.html")

length-href_text :
    (path filename : Bytes)
    → length (href_text path filename) ≡ 22 + length path + length filename * 2
length-href_text path filename = omega (
  arith,
  length-append {0} path
      (codes "/" ++ (filename ++ (codes "\">" ++ (filename ++ codes "</a><br/>")))),
  length-append {0} filename (codes "\">" ++ (filename ++ codes "</a><br/>")),
  length-append {0} filename (codes "</a><br/>"),
)

-- `http_format_href` cuts nothing off, and needs room for the length that its callers ask `malloc`
-- for, and no more.
pub http_format_href_lem :
    (room : ℕ) (path filename : Bytes)
    → http_format_href room path filename ≡ (
        if ltb (22 + length path + length filename * 2) room
        then ok (href_text path filename)
        else fault overflow)
unfolding http_format_href
http_format_href_lem room path filename = ground (
  arith,
  length-href_text path filename,
  take-all (href_text path filename)
      (length (codes "<a href=\"//\"></a><br/>") + length path + length filename * 2 + 1 - 1),
)

-- So does `http_format_index`.
pub http_format_index_lem :
    (room : ℕ) (path : Bytes)
    → http_format_index room path
      ≡ (if ltb (length path + 11) room then ok (path ++ codes "/index.html") else fault overflow)
unfolding http_format_index
http_format_index_lem room path = ground (
  arith,
  length-append path (codes "/index.html"),
  take-all (path ++ codes "/index.html") (length path + length (codes "/index.html") + 1 - 1),
)
