-- ===== src/Server/Handler/Lost.antt =====
-- The 404 response of httpserver.c on a connection that is closed already.
use cloudcomputing_lab2_http.Os.Slots.{slot-closed}
use cloudcomputing_lab2_http.Prelude.{
  ℕ, zero, suc, ◌+◌, ◌<◌, ◌≡◌, ap, ◌∙◌, ◌≢◌, none, some, ◌∷◌, arith, length, take, ◌≤◌, inl, inr,
  Bool-cases, ==_iff, ◌==◌, subst,
}
use cloudcomputing_lab2_http.Result.{ok}
use cloudcomputing_lab2_http.Cstr.{Bytes, codes}
use cloudcomputing_lab2_http.Os.{
  closed, file, World, Io, lookup, open_file, close, read, write, dprintf, update, misuse, ◌>>◌,
  slot, table_size, Descriptor, ◌>>=◌,
}
use cloudcomputing_lab2_http.Libhttp.Response.{
  status_line, header_line, http_start_response, http_send_header, http_end_headers,
}
use cloudcomputing_lab2_http.Server.Send.{failed, http_send_data, http_send_file, buf_size}
use cloudcomputing_lab2_http.Server.Send.Delivery.{update_twice}
use cloudcomputing_lab2_http.Server.Send.Files.{update-here}
use cloudcomputing_lab2_http.Server.Handler.{html_type, send_page, not_found}
use cloudcomputing_lab2_http.Server.Handler.Answers.{step, close-file}
use cloudcomputing_lab2_http.Server.Handler.Files.{opened, open_file-found, slot-shut}
use cloudcomputing_lab2_http.Server.Handler.Checks.{close-closed}

dprintf-closed :
    (w : World) (fd : ℕ) (text : Bytes) → w.fds fd ≡ closed → dprintf fd text w ≡ ok (tt, misuse w)
unfolding dprintf
dprintf-closed w fd text c = rw c

write-closed :
    (w : World) (fd : ℕ) (bytes : Bytes)
    → w.fds fd ≡ closed
    → write fd bytes w ≡ ok (none, misuse w)
unfolding write
write-closed w fd bytes c = rw c

send-closed :
    (w : World) (fd c : ℕ) (s : Bytes)
    → w.fds fd ≡ closed
    → http_send_data fd (c ∷ s) w ≡ ok (failed, misuse w)
unfolding http_send_data
send-closed w fd c s o = step (write fd (c ∷ s)) _ w (misuse w) none (write-closed w fd (c ∷ s) o)

dprintf_closed_then :
    {B : Type 0} (rest : Io B) (w : World) (fd : ℕ) (text : Bytes)
    → w.fds fd ≡ closed
    → (dprintf fd text >> rest) w ≡ rest (misuse w)
dprintf_closed_then rest w fd text c =
    step (dprintf fd text) (λ _. rest) w (misuse w) tt (dprintf-closed w fd text c)

-- The world after a 404 response on a closed descriptor, by the calls on one.
abbrev pub lost : World → ℕ → World
lost w n = record w { misuses = w.misuses + n }

read-some :
    (w : World) (src c : ℕ) (s : Bytes)
    → w.fds src ≡ file (c ∷ s) 0
    → read (some src) buf_size w
      ≡ ok (
        some (c ∷ take 4095 s),
        record w { fds = update w.fds src (file (c ∷ s) (length (c ∷ take 4095 s))) },
      )
unfolding read
read-some w src c s e =
    let z : 0 + length (c ∷ take 4095 s) ≡ length (c ∷ take 4095 s) = omega arith in rw (e, z)

send_file-closed :
    (fuel : ℕ) (w : World) (fd src c : ℕ) (s : Bytes)
    → w.fds fd ≡ closed
    → w.fds src ≡ file (c ∷ s) 0
    → fd ≢ src
    → http_send_file (suc fuel) fd (some src) w
      ≡ ok (
        failed,
        misuse (record w { fds = update w.fds src (file (c ∷ s) (length (c ∷ take 4095 s))) }),
      )
unfolding http_send_file
send_file-closed fuel w fd src c s o e n =
    let w1 = record w { fds = update w.fds src (file (c ∷ s) (length (c ∷ take 4095 s))) } in
    step (read (some src) buf_size) _ w w1 (some (c ∷ take 4095 s)) (read-some w src c s e)
    ∙ step (http_send_data fd (c ∷ take 4095 s)) _ w1 (misuse w1) failed
        (send-closed w1 fd c (take 4095 s) (ground arith))

update_thrice :
    {A : Type 0} (f : ℕ → A) (k : ℕ) (a b c : A)
    → update (update (update f k a) k b) k c ≡ update f k c
update_thrice f k a b c = update_twice (update f k a) k b c ∙ update_twice f k a c

-- The page is open for reading only.
send_file-own :
    (fuel : ℕ) (w : World) (src c : ℕ) (s : Bytes)
    → w.fds src ≡ file (c ∷ s) 0
    → http_send_file (suc fuel) src (some src) w
      ≡ ok (failed, record w { fds = update w.fds src (file (c ∷ s) (length (c ∷ take 4095 s))) })
unfolding http_send_file http_send_data write
send_file-own fuel w src c s e =
    let at = file (c ∷ s) (length (c ∷ take 4095 s)) in
    let w1 = record w { fds = update w.fds src at } in
    step (read (some src) buf_size) _ w w1 (some (c ∷ take 4095 s)) (read-some w src c s e)
    ∙ step (http_send_data src (c ∷ take 4095 s)) _ w1 w1 failed
        (step (write src (c ∷ take 4095 s)) _ w1 w1 none (rw (update-here w.fds src at)))

module _ (fuel : ℕ) (w : World) (c : ℕ) (s : Bytes)
    (page : lookup (codes "404.html") w.files ≡ some (c ∷ s)) (room : slot w < table_size) where
  abbrev w3 : World
  w3 = misuse (misuse (misuse w))

  abbrev w4 : World
  w4 = opened w3 (c ∷ s)

  abbrev at : Descriptor
  at = file (c ∷ s) (length (c ∷ take 4095 s))

  abbrev w5 : World
  w5 = record w4 { fds = update w4.fds (slot w) at }

  -- The head, and the page opened.
  head_lost :
      (fd : ℕ)
      → w.fds fd ≡ closed
      → not_found (suc fuel) fd w
        ≡ (http_send_file (suc fuel) fd (some (slot w)) >>= λ status.
              (close (some (slot w)) >> close (some fd)))
            w4
  unfolding not_found send_page http_start_response http_send_header http_end_headers
  head_lost fd o =
      dprintf_closed_then _ w fd (status_line 404) o
      ∙ dprintf_closed_then _ (misuse w) fd (header_line (codes "Content-Type") html_type) o
      ∙ dprintf_closed_then (send_page (suc fuel) fd) (misuse (misuse w)) fd (codes "\r\n") o
      ∙ step (open_file (codes "404.html")) _ w3 w4 (some (slot w))
          (open_file-found w3 (codes "404.html") (c ∷ s) page room)

  own_number : not_found (suc fuel) (slot w) w ≡ ok (tt, lost w 4)
  own_number =
      head_lost (slot w) (slot-closed w room)
      ∙ step (http_send_file (suc fuel) (slot w) (some (slot w))) _ w4 w5 failed
          (send_file-own fuel w4 (slot w) c s (update-here w.fds (slot w) (file (c ∷ s) 0)))
      ∙ step (close (some (slot w))) _ w5 _ tt (
          close-file w5 (slot w) (c ∷ s) (length (c ∷ take 4095 s))
            (update-here w4.fds (slot w) at))
      ∙ close-closed _ (slot w) (update-here w5.fds (slot w) closed)
      ∙ ap (λ f. ok (tt, record w { fds = f; misuses = w.misuses + 1 + 1 + 1 + 1 }))
          (update_thrice w.fds (slot w) _ _ closed ∙ slot-shut w room)
      ∙ ap (λ m. ok (tt, record w { misuses = m })) (omega arith)

  other_number :
      (fd : ℕ) → w.fds fd ≡ closed → fd ≢ slot w → not_found (suc fuel) fd w ≡ ok (tt, lost w 5)
  other_number fd o n =
      head_lost fd o
      ∙ step (http_send_file (suc fuel) fd (some (slot w))) _ w4 (misuse w5) failed (
          send_file-closed fuel w4 fd (slot w) c s (ground (arith, n, o))
            (update-here w.fds (slot w) (file (c ∷ s) 0)) n)
      ∙ step (close (some (slot w))) _ (misuse w5) _ tt (
          close-file (misuse w5) (slot w) (c ∷ s) (length (c ∷ take 4095 s))
            (update-here w4.fds (slot w) at))
      ∙ close-closed _ fd (ground (arith, n, o))
      ∙ ap (λ f. ok (tt, record w { fds = f; misuses = w.misuses + 1 + 1 + 1 + 1 + 1 }))
          (update_thrice w.fds (slot w) _ _ closed ∙ slot-shut w room)
      ∙ ap (λ m. ok (tt, record w { misuses = m })) (omega arith)

-- `not_found` on a closed descriptor: no byte goes out. The page may be given the very number; then
-- one call less misuses it.
pub not_found-closed :
    (fuel : ℕ) (w : World) (fd c : ℕ) (s : Bytes)
    → w.fds fd ≡ closed
    → lookup (codes "404.html") w.files ≡ some (c ∷ s)
    → slot w < table_size
    → 0 < fuel
    → (n : ℕ) × (4 ≤ n) × (n ≤ 5) × (not_found fuel fd w ≡ ok (tt, lost w n))
not_found-closed zero w fd c s o e n h = absurd (omega arith)
not_found-closed (suc fuel) w fd c s o e room h = elim (Bool-cases (fd == slot w)) [
  | inl same ↦
      let own = own_number fuel w c s e room in
      let number : slot w ≡ fd = ground (arith, ==_iff fd (slot w)) in
      (
        4,
        omega arith,
        omega arith,
        subst (λ d. not_found (suc fuel) d w ≡ ok (tt, lost w 4)) number own,
      )
  | inr other ↦ (5, omega arith, omega arith, other_number fuel w c s e room fd o (ground arith))
]
