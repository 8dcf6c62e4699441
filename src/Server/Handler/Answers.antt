-- ===== src/Server/Handler/Answers.antt =====
-- The responses that the handler sends, as explicit worlds.
use cloudcomputing_lab2_http.Prelude.{
  ℕ, ◌≡◌, ap, ◌∙◌, some, ◌++◌, append_assoc, refl, List, [], ◌∷◌,
}
use cloudcomputing_lab2_http.Result.{ok}
use cloudcomputing_lab2_http.Cstr.{Bytes, codes}
use cloudcomputing_lab2_http.Os.{
  closed, socket, file, World, Io, ◌>>=◌, ◌>>◌, close, dprintf, update, Grant, accepts, refuses,
}
use cloudcomputing_lab2_http.Libhttp.Response.{
  http_start_response, http_send_header, http_end_headers, status_line, header_line,
}
use cloudcomputing_lab2_http.Server.Send.Delivery.{
  sending, sending_twice, Accepting, TakesText, Accepting-TakesText,
}
use cloudcomputing_lab2_http.Server.Handler.{refuse, html_type}

-- The world after a text went out by `dprintf`.
abbrev pub put : World → ℕ → Bytes → World
put w fd text = sending w fd text w.grants

dprintf-put :
    (w : World) (fd : ℕ) (text input : Bytes)
    → w.fds fd ≡ socket input
    → TakesText w.grants
    → dprintf fd text w ≡ ok (tt, put w fd text)
unfolding dprintf
dprintf-put w fd text input o t = go w.grants refl t
  where
    go :
        (gs : List Grant)
        → w.grants ≡ gs
        → TakesText gs
        → dprintf fd text w ≡ ok (tt, put w fd text)
    go [] e t = rw (o, e)
    go (accepts n ∷ gs) e t = rw (o, e)
    go (refuses ∷ gs) e t = absurd t

-- A status line, one header and the end of the headers.
abbrev pub head : ℕ → Bytes → Bytes
head status_code content_type =
    status_line status_code ++ (header_line (codes "Content-Type") content_type ++ codes "\r\n")

-- The descriptor is closed, and the bytes went out.
abbrev pub hung_up : World → ℕ → Bytes → World
hung_up w fd text = record (put w fd text) { fds = update w.fds fd closed }

-- The first action of a block, by its result.
pub step :
    {A B : Type 0} (m : Io A) (f : A → Io B) (w w' : World) (a : A)
    → m w ≡ ok (a, w')
    → (m >>= f) w ≡ f a w'
step m f w w' a e = rw (e, ◌>>=◌)

pub dprintf_then :
    {B : Type 0} (rest : Io B) (w : World) (fd : ℕ) (text input : Bytes)
    → w.fds fd ≡ socket input
    → TakesText w.grants
    → (dprintf fd text >> rest) w ≡ rest (put w fd text)
dprintf_then rest w fd text input o t =
    step (dprintf fd text) (λ _. rest) w (put w fd text) tt (dprintf-put w fd text input o t)

pub put_twice : (w : World) (fd : ℕ) (a b : Bytes) → put (put w fd a) fd b ≡ put w fd (a ++ b)
put_twice w fd a b = sending_twice w fd a b w.grants w.grants

-- The three calls that write a head, before whatever follows.
pub head_then :
    {B : Type 0} (rest : Io B) (w : World) (fd status_code : ℕ) (content_type input : Bytes)
    → w.fds fd ≡ socket input
    → Accepting w.grants
    → (http_start_response fd status_code
          >> (http_send_header fd (codes "Content-Type") content_type
              >> (http_end_headers fd >> rest)))
        w
      ≡ rest (put w fd (head status_code content_type))
unfolding http_start_response http_send_header http_end_headers
head_then rest w fd status_code content_type input o a =
    let t = Accepting-TakesText w.grants a in
    let l = status_line status_code in
    let h = header_line (codes "Content-Type") content_type in
    let n = codes "\r\n" in
    dprintf_then (dprintf fd h >> (dprintf fd n >> rest)) w fd l input o t
    ∙ dprintf_then (dprintf fd n >> rest) (put w fd l) fd h input o t
    ∙ dprintf_then rest (put (put w fd l) fd h) fd n input o t
    ∙ ap rest (
        ap (λ v. put v fd n) (put_twice w fd l h)
        ∙ put_twice w fd (l ++ h) n
        ∙ ap (put w fd) (append_assoc l h n))

pub close-socket :
    (w : World) (fd : ℕ) (input : Bytes)
    → w.fds fd ≡ socket input
    → close (some fd) w ≡ ok (tt, record w { fds = update w.fds fd closed })
unfolding close
close-socket w fd input o = rw o

pub close-file :
    (w : World) (fd : ℕ) (contents : Bytes) (at : ℕ)
    → w.fds fd ≡ file contents at
    → close (some fd) w ≡ ok (tt, record w { fds = update w.fds fd closed })
unfolding close
close-file w fd contents at o = rw o

-- `close` leaves the sent bytes and counts no misuse.
pub refuse_lem :
    (w : World) (fd status_code : ℕ) (input : Bytes)
    → w.fds fd ≡ socket input
    → Accepting w.grants
    → refuse fd status_code w ≡ ok (tt, hung_up w fd (head status_code html_type))
unfolding refuse
refuse_lem w fd status_code input o a =
    head_then (close (some fd)) w fd status_code html_type input o a
    ∙ close-socket (put w fd (head status_code html_type)) fd input o
