-- ===== src/Server/Proxy/Dial.antt =====
-- `handle_proxy_request` of httpserver.c up to its two threads: the connection to the target.
pub mod Unreachable
use cloudcomputing_lab2_http.Prelude.{ℕ, ◌+◌, ◌%◌, ◌^◌, Bool, Option, none, some, if◌then◌else◌}
use cloudcomputing_lab2_http.Result.{exit}
use cloudcomputing_lab2_http.Cstr.{codes}
use cloudcomputing_lab2_http.Os.{Io, pure, fail, ◌>>=◌, ◌>>◌, close, open_socket}
use cloudcomputing_lab2_http.Libhttp.Receive.{http_request_parse}
use cloudcomputing_lab2_http.Libhttp.Response.{
  http_start_response, http_send_header, http_end_headers,
}

-- What the system answers to `socket` and to `connect`, and `errno` behind a failure.
pub record Upstream : Type 0 where
  pub has_socket : Bool
  pub connects : Bool
  pub errno : ℕ

-- The response where the target does not answer. The request is read, and not used.
unfoldable pub refuse_proxy : (ℕ → Bool) → ℕ → ℕ → Io (Unit {0})
refuse_proxy alloc fd target_fd = do
  request ← http_request_parse alloc fd
  http_start_response fd 502
  http_send_header fd (codes "Content-Type") (codes "text/html")
  http_end_headers fd
  close (some target_fd)
  close (some fd)

-- With the socket of the target: its descriptor and the number of the request, from the counter `id`,
-- which goes on; none where the function returned.
unfoldable pub connect_target : (ℕ → Bool) → Bool → ℕ → ℕ → ℕ → Io (Option (ℕ × ℕ) × ℕ)
unfolding refuse_proxy
connect_target alloc connects id fd target_fd =
    if connects
    then pure (some (target_fd, id), (id + 1) % 2 ^ 64)
    else (refuse_proxy alloc fd target_fd >> pure (none, id))

unfoldable pub dial : (ℕ → Bool) → Upstream → ℕ → ℕ → Io (Option (ℕ × ℕ) × ℕ)
unfolding connect_target
dial alloc upstream id fd = open_socket upstream.has_socket >>= λ target. elim target [
  | none ↦ close (some fd) >> fail (exit upstream.errno)
  | some target_fd ↦ connect_target alloc upstream.connects id fd target_fd
]

-- What the function does behind its threads.
unfoldable pub hang_up : ℕ → ℕ → Io (Unit {0})
hang_up fd target_fd = close (some fd) >> close (some target_fd)
