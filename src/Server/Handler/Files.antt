-- ===== src/Server/Handler/Files.antt =====
-- Files on a connection: opened, sent and closed.
use cloudcomputing_lab2_http.Os.Slots.{slot-closed}
use cloudcomputing_lab2_http.Prelude.{
  ℕ, ◌<◌, ◌≡◌, ap, ◌∙◌, some, List, ◌++◌, arith, length, sym, refl, true, ltb,
}
use cloudcomputing_lab2_http.Result.{ok}
use cloudcomputing_lab2_http.Cstr.{Bytes, codes}
use cloudcomputing_lab2_http.Os.{
  Descriptor, closed, socket, file, World, Grant, Io, ◌>>=◌, ◌>>◌, close, open_file, lookup, update,
  slot, table_size,
}
use cloudcomputing_lab2_http.Server.Send.{done, http_send_file}
use cloudcomputing_lab2_http.Server.Send.Delivery.{
  Accepting, sending, sending_twice, update_twice, update_self,
}
use cloudcomputing_lab2_http.Server.Send.Files.{serving, http_send_file-sends, update-here}
use cloudcomputing_lab2_http.Server.Handler.{send_page, not_found, html_type}
use cloudcomputing_lab2_http.Server.Handler.Answers.{
  put, step, head, head_then, close-file, close-socket,
}

-- A connection that can be answered: an open socket, a number left for one more descriptor, and no
-- write that fails.
pub record IsReady (w : World) (fd : ℕ) (input : Bytes) : Type 0 where
  pub is_open : w.fds fd ≡ socket input
  pub room : slot w < table_size
  pub accepting : Accepting w.grants

-- The world with a file opened.
abbrev pub opened : World → Bytes → World
opened w contents = record w { fds = update w.fds (slot w) (file contents 0) }

-- The world after a file was opened, went out and was closed: no descriptor changed.
abbrev pub after_file : World → ℕ → Bytes → List Grant → World
after_file w fd text gs = sending w fd text gs

pub slot-shut : (w : World) → slot w < table_size → update w.fds (slot w) closed ≡ w.fds
slot-shut w h = ap (update w.fds (slot w)) (sym (slot-closed w h)) ∙ update_self w.fds (slot w)

-- A number that was given and closed again is as it was.
pub reclosed :
    (w : World) (d : Descriptor)
    → slot w < table_size
    → update (update w.fds (slot w) d) (slot w) closed ≡ w.fds
reclosed w d h = update_twice w.fds (slot w) d closed ∙ slot-shut w h

pub open_file-found :
    (w : World) (path contents : Bytes)
    → lookup path w.files ≡ some contents
    → slot w < table_size
    → open_file path w ≡ ok (some (slot w), opened w contents)
unfolding open_file
open_file-found w path contents e h =
    let room : ltb (slot w) table_size ≡ true = ground arith in rw (e, room, open_file) refl

pub opened-open :
    (w : World) (fd : ℕ) (input : Bytes) (d : Descriptor)
    → w.fds fd ≡ socket input
    → slot w < table_size
    → update w.fds (slot w) d fd ≡ socket input
opened-open w fd input d o h = ground (arith, slot-closed w h)

-- The file at position `at` on a descriptor, sent and closed, before whatever follows.
pub send_close_then :
    {B : Type 0} (rest : Io B) (fuel : ℕ) (w : World) (fd src : ℕ) (input contents : Bytes)
    → w.fds fd ≡ socket input
    → w.fds src ≡ file contents 0
    → Accepting w.grants
    → length contents < fuel
    → (gs : List Grant) × ((http_send_file fuel fd (some src) >>= λ status.
            (close (some src) >> rest))
          w
        ≡ rest (record (sending w fd contents gs) { fds = update w.fds src closed }))
      × Accepting gs
send_close_then rest fuel w fd src input contents o s a h =
    let (gs, e, a') =
      http_send_file-sends fuel w fd src input contents 0 o s (omega arith) (omega arith) a in
    let w' = serving w fd src contents (length contents) contents gs in
    (
      gs,
      step (http_send_file fuel fd (some src)) (λ status. (close (some src) >> rest)) w w' done e
          ∙ step (close (some src)) (λ _. rest) w' _ tt
              (close-file w' src contents (length contents)
                (update-here w.fds src (file contents (length contents))))
          ∙ ap (λ f. rest (record (sending w fd contents gs) { fds = f }))
              (update_twice w.fds src (file contents (length contents)) closed),
      a',
    )

-- A file opened, sent and closed, before whatever follows.
pub file_then :
    {B : Type 0} (rest : Io B) (fuel : ℕ) (w : World) (fd : ℕ) (input path contents : Bytes)
    → IsReady w fd input
    → lookup path w.files ≡ some contents
    → length contents < fuel
    → (gs : List Grant) × ((open_file path >>= λ src_fd.
            (http_send_file fuel fd src_fd >>= λ status. (close src_fd >> rest)))
          w
        ≡ rest (after_file w fd contents gs))
      × Accepting gs
file_then rest fuel w fd input path contents r e h =
    let (gs, sent, a) =
      send_close_then rest fuel (opened w contents) fd (slot w) input contents
        (opened-open w fd input (file contents 0) r.is_open r.room)
        (update-here w.fds (slot w) (file contents 0)) r.accepting h in
    (
      gs,
      step (open_file path)
            (λ src_fd. (http_send_file fuel fd src_fd >>= λ status. (close src_fd >> rest))) w
            (opened w contents) (some (slot w)) (open_file-found w path contents e r.room)
          ∙ sent
          ∙ ap (λ f. rest (record (after_file w fd contents gs) { fds = f }))
              (reclosed w (file contents 0) r.room),
      a,
    )

-- The world after a response with a file, its connection closed.
abbrev pub answered : World → ℕ → Bytes → List Grant → World
answered w fd text gs = record (sending w fd text gs) { fds = update w.fds fd closed }

-- The 404 response: its head and the page, once and in order. The page's descriptor and the
-- connection are closed; nothing else changed, and no call was made on a closed descriptor.
pub not_found_lem :
    (fuel : ℕ) (w : World) (fd : ℕ) (input page : Bytes)
    → IsReady w fd input
    → lookup (codes "404.html") w.files ≡ some page
    → length page < fuel
    → (gs : List Grant) × (not_found fuel fd w
        ≡ ok (tt, answered w fd (head 404 html_type ++ page) gs))
      × Accepting gs
unfolding not_found
not_found_lem fuel w fd input page r e h =
    let w' = put w fd (head 404 html_type) in
    let r' : IsReady w' fd input = record {
      is_open = r.is_open;
      room = r.room;
      accepting = r.accepting;
    } in
    let (gs, sent, a) =
      file_then (close (some fd)) fuel w' fd input (codes "404.html") page r' e h in
    (
      gs,
      head_then (send_page fuel fd) w fd 404 html_type input r.is_open r.accepting
          ∙ sent
          ∙ close-socket (after_file w' fd page gs) fd input r.is_open
          ∙ ap (λ v. ok (tt, record v { fds = update w.fds fd closed }))
              (sending_twice w fd (head 404 html_type) page w.grants gs),
      a,
    )
