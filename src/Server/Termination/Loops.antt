-- ===== src/Server/Termination/Loops.antt =====
-- The loops that send end: `send_loop` since every write that does not fail takes a byte at least,
-- `file_loop` since every round reads a byte at least.
use cloudcomputing_lab2_http.Prelude.{
  ℕ, zero, suc, ◌+◌, ◌≤◌, ◌<◌, ◌≡◌, refl, sym, ap, subst, ◌⊎◌, inl, inr, Option, none, some, List,
  [], ◌∷◌, arith, length, drop, length-drop,
}
use cloudcomputing_lab2_http.Result.{ok}
use cloudcomputing_lab2_http.Cstr.{Bytes}
use cloudcomputing_lab2_http.Os.{
  Descriptor, closed, socket, file, Grant, accepts, refuses, World, Fd, Io, pure, ◌>>=◌, update,
  misuse, read, write,
}
use cloudcomputing_lab2_http.Os.Keeps.{Gives, gives, faults, Keeps, Any, Keeps-pure, Keeps-bind}
use cloudcomputing_lab2_http.Server.Send.{
  Status, done, failed, send_loop, http_send_data, buf_size, file_loop, http_send_file,
}
use cloudcomputing_lab2_http.Server.Handler.Answers.{step}
use cloudcomputing_lab2_http.Server.Termination.{
  left, size, left_le, NoLoop, Below, read_cases, Below-update, Below-same, out_of_bounds_ne,
}

-- A write that does not fail takes a byte of a text that is not empty.
abbrev Takes : Option ℕ → Type 0
Takes none = Unit
Takes (some n) = 1 ≤ n

-- Sending keeps every predicate of the descriptors and the files.
module _ (fd : ℕ) (P : World → Type 0)
    (same : (w w' : World) → w'.fds ≡ w.fds → w'.files ≡ w.files → P w → P w') where
  write-Takes : (c : ℕ) (s : Bytes) → Keeps NoLoop P P Takes (write fd (c ∷ s))
  unfolding write
  write-Takes c s = record { at = λ w p. go w p (w.fds fd) w.grants refl refl }
    where
      go :
          (w : World)
          → P w
          → (v : Descriptor) (gs : List Grant) → w.fds fd ≡ v
          → w.grants ≡ gs
          → Gives NoLoop P Takes (write fd (c ∷ s) w)
      go w p closed gs e g = rw e (gives tt (same w (misuse w) refl refl p))
      go w p (socket input) [] e g = rw (e, g) (gives (omega arith) (same w _ refl refl p))
      go w p (socket input) (accepts k ∷ gs) e g =
          rw (e, g) (gives (ground arith) (same w _ refl refl p))
      go w p (socket input) (refuses ∷ gs) e g = rw (e, g) (gives tt (same w _ refl refl p))
      go w p (file contents at) gs e g = rw e (gives tt p)

  send_loop-NoLoop :
      (fuel : ℕ) (bytes : Bytes)
      → length bytes ≤ fuel
      → Keeps NoLoop P P Any (send_loop fuel fd bytes)
  unfolding send_loop
  send_loop-NoLoop fuel [] h = Keeps-pure done tt
  send_loop-NoLoop zero (c ∷ s) h = absurd (omega arith)
  send_loop-NoLoop (suc fuel) (c ∷ s) h =
      Keeps-bind (write fd (c ∷ s)) _ (write-Takes c s) (next (send_loop-NoLoop fuel))
    where
      next :
          ((bytes : Bytes) → length bytes ≤ fuel → Keeps NoLoop P P Any (send_loop fuel fd bytes))
          → (bytes_sent : Option ℕ) → Takes bytes_sent
          → Keeps NoLoop P P Any (elim bytes_sent as (λ _. Io Status) [
            | none ↦ pure failed
            | some n ↦ send_loop fuel fd (drop n (c ∷ s))
          ])
      next later none takes = Keeps-pure failed tt
      next later (some n) takes =
          later (drop n (c ∷ s)) (omega (arith, takes, length-drop {0} n (c ∷ s)))

  pub send_data-NoLoop : (bytes : Bytes) → Keeps NoLoop P P Any (http_send_data fd bytes)
  unfolding http_send_data
  send_data-NoLoop bytes = send_loop-NoLoop (length bytes) bytes (omega arith)

module _ (fuel fd : ℕ) where
  -- In a round, fewer bytes are left than rounds.
  abbrev Reading : ℕ → ℕ → World → Type 0
  Reading rounds d w = Below fuel w × (left (w.fds d) < rounds)

  Reading-same :
      (rounds d : ℕ) (w w' : World)
      → w'.fds ≡ w.fds
      → w'.files ≡ w.files
      → Reading rounds d w
      → Reading rounds d w'
  Reading-same rounds d w w' f g (p, l) =
      (Below-same fuel w w' f g p, ground (arith, l, ap (λ fds. fds d) f))

  status_then :
      {M F : World → Type 0} (status : Status) (k : Io Status)
      → ((w : World) → M w → F w)
      → Keeps NoLoop M F Any k
      → Keeps NoLoop M F Any (elim status as (λ _. Io Status) [ failed ↦ pure failed | done ↦ k ])
  status_then failed k over calm = record { at = λ w p. gives tt (over w p) }
  status_then done k over calm = calm

  round :
      (rounds d : ℕ) (bytes : Bytes)
      → Keeps NoLoop (Reading rounds d) (Below fuel) Any (file_loop rounds fd (some d))
      → (w : World) → Below fuel w
      → (length bytes + left (w.fds d) ≤ rounds)
      → Gives NoLoop (Below fuel) Any (
          (elim bytes as (λ _. Io Status) [
            | [] ↦ pure done
            | c ∷ s ↦ http_send_data fd (c ∷ s) >>= λ status. elim status [
              | failed ↦ pure failed
              | done ↦ file_loop rounds fd (some d)
            ]
          ])
            w)
  round rounds d [] calm w p h = gives tt p
  round rounds d (c ∷ s) calm w p h =
      (Keeps-bind (http_send_data fd (c ∷ s)) _
          (send_data-NoLoop fd (Reading rounds d) (Reading-same rounds d) (c ∷ s))
          (λ status _. status_then status (file_loop rounds fd (some d)) (λ w p. p.0) calm)).at
        w (p, omega arith)

  file_loop-NoLoop :
      (rounds d : ℕ)
      → Keeps NoLoop (Reading rounds d) (Below fuel) Any (file_loop rounds fd (some d))
  unfolding file_loop
  file_loop-NoLoop zero d = record { at = λ w p. absurd (omega (arith, p.1)) }
  file_loop-NoLoop (suc rounds) d = record {
    at = λ w p. go (file_loop-NoLoop rounds d) w p (read_cases w d buf_size);
  }
    where
      go :
          Keeps NoLoop (Reading rounds d) (Below fuel) Any (file_loop rounds fd (some d))
          → (w : World) → Reading (suc rounds) d w
          → (read (some d) buf_size w ≡ ok (none, misuse w))
            ⊎ ((bytes : Bytes) × (v : Descriptor) × (read (some d) buf_size w
                  ≡ ok (some bytes, record w { fds = update w.fds d v }))
                × (size v ≤ size (w.fds d))
                × (length bytes + left v ≤ left (w.fds d)))
          → Gives NoLoop (Below fuel) Any (file_loop (suc rounds) fd (some d) w)
      go calm w p (inl e) =
          subst (λ r. Gives NoLoop (Below fuel) Any r)
            (sym (step (read (some d) buf_size) _ w (misuse w) none e)) (faults out_of_bounds_ne)
      go calm w p (inr (bytes, v, e, small, less)) =
          let w1 = record w { fds = update w.fds d v } in
          let below =
            Below-update fuel w d v w.misuses w.grants (omega (arith, p.0.descriptors d)) p.0 in
          subst (λ r. Gives NoLoop (Below fuel) Any r)
            (sym (step (read (some d) buf_size) _ w w1 (some bytes) e))
            (round rounds d bytes calm w1 below (ground (arith, p.1, less)))

  -- Of a file that was not opened nothing is read.
  unopened-NoLoop :
      (rounds : ℕ) (w : World)
      → 0 < rounds
      → Gives NoLoop (Below fuel) Any (file_loop rounds fd none w)
  unfolding file_loop read
  unopened-NoLoop zero w h = absurd (omega arith)
  unopened-NoLoop (suc rounds) w h = faults out_of_bounds_ne

  pub send_file-NoLoop :
      (src : Fd) → Keeps NoLoop (Below fuel) (Below fuel) Any (http_send_file fuel fd src)
  unfolding http_send_file
  send_file-NoLoop (some d) = record {
    at = λ w p.
        (file_loop-NoLoop fuel d).at w (p, omega (arith, p.descriptors d, left_le (w.fds d)));
  }
  send_file-NoLoop none = record {
    at = λ w p. unopened-NoLoop fuel w (omega (arith, p.descriptors 0));
  }
