-- ===== src/Libhttp/Receive.antt =====
-- `http_request_parse` of libhttp.c: one `read` of a connection, parsed.
use cloudcomputing_lab2_http.Prelude.{ℕ, ◌+◌, Bool, Option, none, some, if◌then◌else◌}
use cloudcomputing_lab2_http.Result.{exit, overflow}
use cloudcomputing_lab2_http.Cstr.{cstr}
use cloudcomputing_lab2_http.Os.{Io, fail, lift, ◌>>=◌, read}
use cloudcomputing_lab2_http.Libhttp.Request.{HttpRequest, http_request_string_parse}

abbrev pub libhttp_request_max_size : ℕ
libhttp_request_max_size = 8192

-- ENOBUFS of the system.
abbrev pub enobufs : ℕ
enobufs = 105

unfoldable pub http_fatal_error : {A : Type 0} → Io A
http_fatal_error = fail (exit enobufs)

-- The NUL goes behind the bytes that were read: at index -1 if `read` failed. The function has no
-- `return` statement; its value is that of the last call, which the compiled code leaves in place.
unfoldable pub http_request_parse : (ℕ → Bool) → ℕ → Io (Option HttpRequest)
unfolding http_fatal_error
http_request_parse alloc fd =
    if alloc (libhttp_request_max_size + 1)
    then (read (some fd) libhttp_request_max_size >>= λ bytes_read. elim bytes_read [
      | none ↦ fail overflow
      | some bytes ↦ lift (http_request_string_parse alloc (cstr bytes))
    ])
    else http_fatal_error
