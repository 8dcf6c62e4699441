-- ===== src/Cs162/Proxy.antt =====
-- The proxy of CS162-httpserver.c. Its threads are those of httpserver.c; in front of them stands the
-- name of the target.
use cloudcomputing_lab2_http.Prelude.{ℕ, ◌≡◌, refl, Bool, true, Option, none, some, if◌then◌else◌}
use cloudcomputing_lab2_http.Result.{exit}
use cloudcomputing_lab2_http.Os.{Io, World, fail, ◌>>=◌, ◌>>◌, close, open_socket}
use cloudcomputing_lab2_http.Server.Proxy
use cloudcomputing_lab2_http.Server.Proxy.Dial.{Upstream, connect_target, dial}

-- The text is that of httpserver.c.
abbrev pub relay_message : ℕ → ℕ → ℕ → Io Bool
relay_message = Proxy.relay_message

-- ENXIO of the system.
abbrev pub enxio : ℕ
enxio = 6

-- Behind the socket of the target: `host_found` says whether gethostbyname2 knows the name.
unfoldable pub connect_host : (ℕ → Bool) → Bool → Bool → ℕ → ℕ → ℕ → Io (Option (ℕ × ℕ) × ℕ)
connect_host alloc host_found connects id fd target_fd =
    if host_found
    then connect_target alloc connects id fd target_fd
    else (close (some target_fd) >> (close (some fd) >> fail (exit enxio)))

unfoldable pub dial_host : (ℕ → Bool) → Bool → Upstream → ℕ → ℕ → Io (Option (ℕ × ℕ) × ℕ)
unfolding connect_host
dial_host alloc host_found upstream id fd = open_socket upstream.has_socket >>= λ target.
    elim target [
      | none ↦ close (some fd) >> fail (exit upstream.errno)
      | some target_fd ↦ connect_host alloc host_found upstream.connects id fd target_fd
    ]

-- With a name that is known, the program reaches its target, and fails to, as httpserver.c does, in
-- every world.
pub dial_host-dial :
    (alloc : ℕ → Bool) (upstream : Upstream) (id fd : ℕ) (w : World)
    → dial_host alloc true upstream id fd w ≡ dial alloc upstream id fd w
unfolding dial_host dial
dial_host-dial alloc upstream id fd w = refl
