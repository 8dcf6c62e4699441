-- ===== src/Server/Send.antt =====
-- The functions of httpserver.c that send data.
pub mod Delivery
pub mod Files
use cloudcomputing_lab2_http.Prelude.{
  ℕ, zero, suc, ◌+◌, Option, none, some, [], ◌∷◌, length, drop, ℤ, pos, negsuc, to_int,
}
use cloudcomputing_lab2_http.Result.{Result, out_of_bounds, out_of_fuel}
use cloudcomputing_lab2_http.Cstr.{Bytes, codes, decimal, strcpy}
use cloudcomputing_lab2_http.Os.{
  ◌>>◌, Fd, Io, pure, fail, lift, ◌>>=◌, read, write, close, open_file, lseek, seek_cur, seek_end,
  seek_set,
}
use cloudcomputing_lab2_http.Libhttp.Response.{
  http_start_response, http_send_header, http_end_headers,
}
use cloudcomputing_lab2_http.Libhttp.Mime.{http_get_mime_type}

-- The `int` that the sending functions return: 0, or a number below 0.
pub data Status : Type 0 where
  done failed : Status

-- `while (size > 0)`: every round sends a byte at least, so as many rounds as bytes are enough.
unfoldable pub send_loop : ℕ → ℕ → Bytes → Io Status
send_loop fuel fd [] = pure done
send_loop zero fd (c ∷ s) = fail out_of_fuel
send_loop (suc fuel) fd (c ∷ s) = write fd (c ∷ s) >>= λ bytes_sent. elim bytes_sent [
  | none ↦ pure failed
  | some n ↦ send_loop fuel fd (drop n (c ∷ s))
]

-- The list is `data` up to `size`.
unfoldable pub http_send_data : ℕ → Bytes → Io Status
unfolding send_loop
http_send_data fd bytes = send_loop (length bytes) fd bytes

unfoldable pub http_send_string : ℕ → Bytes → Io Status
http_send_string fd text = http_send_data fd text

abbrev pub buf_size : ℕ
buf_size = 4096

-- One round sends what one `read` gave. The result -1 of `read` is passed on as a `size_t`, which
-- is more than the buffer holds.
unfoldable pub file_loop : ℕ → ℕ → Fd → Io Status
file_loop zero dst_fd src_fd = fail out_of_fuel
file_loop (suc fuel) dst_fd src_fd = read src_fd buf_size >>= λ bytes_read. elim bytes_read [
  | none ↦ fail out_of_bounds
  | some [] ↦ pure done
  | some (c ∷ s) ↦ http_send_data dst_fd (c ∷ s) >>= λ status. elim status [
    | failed ↦ pure failed
    | done ↦ file_loop fuel dst_fd src_fd
  ]
]

-- `fuel` bounds the rounds of the loop.
unfoldable pub http_send_file : ℕ → ℕ → Fd → Io Status
unfolding file_loop
http_send_file fuel dst_fd src_fd = file_loop fuel dst_fd src_fd

-- An offset of `lseek` as an `int`.
abbrev pub offset_int : Option ℕ → ℤ
offset_int none = negsuc 0
offset_int (some n) = to_int n

unfoldable pub get_file_size : Fd → Io ℤ
get_file_size fd = do
  saved_pos ← lseek fd seek_cur
  file_size ← lseek fd seek_end
  restored ← lseek fd (seek_set (offset_int saved_pos))
  pure (offset_int file_size)

-- `%d`
unfoldable pub print_int : ℤ → Bytes
print_int (pos n) = decimal n
print_int (negsuc n) = b'-' ∷ decimal (n + 1)

abbrev pub max_file_size : ℕ
max_file_size = 100

-- sprintf(file_size, "%d", value) into a block of `max_file_size` bytes.
unfoldable pub sprintf_size : ℤ → Result Bytes
sprintf_size value = strcpy max_file_size (print_int value)

-- The part of `serve_file` from behind `open`.
unfoldable pub serve_opened : ℕ → ℕ → Fd → Io (Unit {0})
serve_opened fuel fd src_fd = do
  size ← get_file_size src_fd
  file_size ← lift (sprintf_size size)
  http_send_header fd (codes "Content-Length") file_size
  http_end_headers fd
  status ← http_send_file fuel fd src_fd
  close src_fd

unfoldable pub serve_file : ℕ → ℕ → Bytes → Io (Unit {0})
unfolding serve_opened
serve_file fuel fd path = do
  http_start_response fd 200
  http_send_header fd (codes "Content-Type") (http_get_mime_type path)
  src_fd ← open_file path
  serve_opened fuel fd src_fd
