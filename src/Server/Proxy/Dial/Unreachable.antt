-- ===== src/Server/Proxy/Dial/Unreachable.antt =====
-- The client of a proxy whose target does not answer.
use cloudcomputing_lab2_http.Os.Slots.{slot-closed}
use cloudcomputing_lab2_http.Server.Send.Delivery.{Accepting}
use mathlib.Core.Path.{fun_ext}
use cloudcomputing_lab2_http.Prelude.{
  ℕ, ◌≤◌, ◌<◌, ◌≡◌, refl, ap, ◌∙◌, ◌≢◌, Bool, true, false, Option, none, some, [], arith, length,
  ltb, inl, inr, sym, ◌==◌, ==_iff, Bool-cases,
}
use cloudcomputing_lab2_http.Result.{ok}
use cloudcomputing_lab2_http.Cstr.{Bytes}
use cloudcomputing_lab2_http.Cstr.Search.{Lacks}
use cloudcomputing_lab2_http.Os.{
  World, closed, socket, update, pure, close, open_socket, ◌>>◌, slot, table_size, Descriptor,
}
use cloudcomputing_lab2_http.Libhttp.Request.{HttpRequest, http_request_string_parse}
use cloudcomputing_lab2_http.Libhttp.Receive.{http_request_parse}
use cloudcomputing_lab2_http.Server.Send.Files.{update-here}
use cloudcomputing_lab2_http.Server.Handler.{html_type}
use cloudcomputing_lab2_http.Server.Handler.Answers.{put, step, head, head_then, close-socket}
use cloudcomputing_lab2_http.Server.Handler.Names.{drained, receive_lem}
use cloudcomputing_lab2_http.Server.Proxy.Dial.{Upstream, refuse_proxy, connect_target, dial}

-- The world with the target's socket opened.
abbrev pub dialled : World → World
dialled w = record w { fds = update w.fds (slot w) (socket []) }

-- The client is closed behind the response. The number of the target's socket is free again.
abbrev pub refused_world : World → ℕ → World
refused_world w fd = record (put w fd (head 502 html_type)) { fds = update w.fds fd closed }

given_back :
    (f : ℕ → Descriptor) (n fd : ℕ) (a b : Descriptor)
    → f n ≡ closed
    → update (update (update (update f n a) fd b) n closed) fd closed ≡ update f fd closed
given_back f n fd a b h = fun_ext λ j. elim (Bool-cases (j == fd)) [
  | inl e ↦ rw e
  | inr e ↦ elim (Bool-cases (j == n)) [
    | inl e' ↦ let there : f j ≡ closed = ap f ((==_iff j n).0 e') ∙ h in rw (e, e') (sym there)
    | inr e' ↦ rw (e, e')
  ]
]

refuse_proxy_lem :
    (alloc : ℕ → Bool) (w : World) (fd target_fd : ℕ) (input : Bytes) (parsed : Option HttpRequest)
    → alloc 8193 ≡ true
    → w.fds fd ≡ socket input
    → w.fds target_fd ≡ socket []
    → fd ≢ target_fd
    → Accepting w.grants
    → length input ≤ 8192
    → Lacks 0 input
    → http_request_string_parse alloc input ≡ ok parsed
    → refuse_proxy alloc fd target_fd w
      ≡ ok (
        tt,
        record (put w fd (head 502 html_type)) {
          fds = update (update (update w.fds fd (socket [])) target_fd closed) fd closed;
        },
      )
unfolding refuse_proxy
refuse_proxy_lem alloc w fd target_fd input parsed a o t n g l z p =
    let d = drained w fd in
    let w1 = put d fd (head 502 html_type) in
    let rest = (close (some target_fd) >> close (some fd)) in
    let w2 = record w1 { fds = update w1.fds target_fd closed } in
    step (http_request_parse alloc fd) _ w d parsed (receive_lem alloc w fd input a o l z ∙ rw p)
    ∙ head_then rest d fd 502 html_type [] (update-here w.fds fd (socket [])) g
    ∙ step (close (some target_fd)) (λ _. close (some fd)) w1 w2 tt
        (close-socket w1 target_fd [] (ground arith))
    ∙ close-socket w2 fd [] (ground arith)

open_socket-given :
    (w : World) (b : Bool)
    → b ≡ true
    → slot w < table_size
    → open_socket b w ≡ ok (some (slot w), dialled w)
unfolding open_socket
open_socket-given w b e h =
    let room : ltb (slot w) table_size ≡ true = ground arith in rw (e, room, open_socket) refl

connect_target-refused :
    (alloc : ℕ → Bool) (b : Bool) (id fd target_fd : ℕ)
    → b ≡ false
    → connect_target alloc b id fd target_fd ≡ (refuse_proxy alloc fd target_fd >> pure (none, id))
unfolding connect_target
connect_target-refused alloc b id fd target_fd e = rw e refl

-- A target that does not answer, a number left for its socket, no write that fails, and a client whose
-- bytes fit the buffer, hold no NUL and do not make the parser fault: the client gets the status 502 with no body
-- whatever it asked for; both descriptors are closed, and the counter does not move.
pub dial-unreachable :
    (alloc : ℕ → Bool) (upstream : Upstream) (id : ℕ) (w : World) (fd : ℕ) (input : Bytes)
    (parsed : Option HttpRequest)
    → upstream.has_socket ≡ true
    → upstream.connects ≡ false
    → alloc 8193 ≡ true
    → w.fds fd ≡ socket input
    → slot w < table_size
    → Accepting w.grants
    → length input ≤ 8192
    → Lacks 0 input
    → http_request_string_parse alloc input ≡ ok parsed
    → dial alloc upstream id fd w ≡ ok ((none, id), refused_world w fd)
unfolding dial
dial-unreachable alloc upstream id w fd input parsed s c a o room g l z p =
    let d = dialled w in
    let sent =
      refuse_proxy_lem alloc d fd (slot w) input parsed a (ground (arith, o, slot-closed w room))
        (update-here w.fds (slot w) (socket [])) (ground (arith, o, slot-closed w room)) g l z p in
    step (open_socket upstream.has_socket) _ w d (some (slot w))
      (open_socket-given w upstream.has_socket s room)
    ∙ ap (λ act. act d) (connect_target-refused alloc upstream.connects id fd (slot w) c)
    ∙ step (refuse_proxy alloc fd (slot w)) (λ _. pure (none, id)) d _ tt sent
    ∙ ap (λ f. ok ((none, id), record (put w fd (head 502 html_type)) { fds = f }))
        (given_back w.fds (slot w) fd (socket []) (socket []) (slot-closed w room))
