-- ===== src/Cs162/Sending.antt =====
-- The functions of CS162-httpserver.c whose text is that of httpserver.c.
use cloudcomputing_lab2_http.Prelude.{ℕ, ℤ}
use cloudcomputing_lab2_http.Result.{Result}
use cloudcomputing_lab2_http.Cstr.{Bytes}
use cloudcomputing_lab2_http.Os.{Fd, Io}
use cloudcomputing_lab2_http.Server.Send
use cloudcomputing_lab2_http.Server.Text

abbrev pub get_file_size : Fd → Io ℤ
get_file_size = Send.get_file_size

-- `fuel` bounds the rounds of the loop.
abbrev pub http_send_file : ℕ → ℕ → Fd → Io Send.Status
http_send_file = Send.http_send_file

abbrev pub http_send_string : ℕ → Bytes → Io Send.Status
http_send_string = Send.http_send_string

abbrev pub http_send_data : ℕ → Bytes → Io Send.Status
http_send_data = Send.http_send_data

-- The last argument is the new block, with what it held before.
abbrev pub join_string : Bytes → Bytes → Bytes → Result (Bytes × ℕ)
join_string = Text.join_string

abbrev pub serve_file : ℕ → ℕ → Bytes → Io (Unit {0})
serve_file = Send.serve_file
