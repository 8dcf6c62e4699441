-- ===== src/Server/Send/Files.antt =====
-- A file is sent whole.
pub mod Partial
use mathlib.Core.Path.{ap₂}
use cloudcomputing_lab2_http.Prelude.{
  ℕ, zero, suc, ◌+◌, ◌≤◌, ◌<◌, ◌≡◌, refl, sym, ap, ◌∙◌, none, some, List, [], ◌∷◌, ◌++◌, arith,
  length, take, drop, length-take, length-drop, take-all, take-append-drop-length, take-eq-nil,
  drop-drop,
}
use cloudcomputing_lab2_http.Result.{out_of_bounds, ok, fault}
use cloudcomputing_lab2_http.Cstr.{Bytes}
use cloudcomputing_lab2_http.Os.{Descriptor, socket, file, World, Grant, read, update}
use cloudcomputing_lab2_http.Server.Send.{done, http_send_data, file_loop, http_send_file, buf_size}
use cloudcomputing_lab2_http.Server.Send.Delivery.{
  Accepting, sending, sending_twice, sending_nil, update_twice, http_send_data-Ends,
}

-- The world after `bytes` went out through `dst`, and `src` was read up to `at`.
abbrev pub serving : World → ℕ → ℕ → Bytes → ℕ → Bytes → List Grant → World
serving w dst src contents at bytes gs = record (sending w dst bytes gs) {
  fds = update w.fds src (file contents at);
}

serving_twice :
    (w : World) (dst src : ℕ) (contents : Bytes) (at at' : ℕ) (a b : Bytes) (gs hs : List Grant)
    → serving (serving w dst src contents at a gs) dst src contents at' b hs
      ≡ serving w dst src contents at' (a ++ b) hs
serving_twice w dst src contents at at' a b gs hs = λ i. record (sending_twice w dst a b gs hs i) {
  fds = update_twice w.fds src (file contents at) (file contents at') i;
}

-- One round: what `read` gives, and the world behind it.
reading :
    (w : World) (src : ℕ) (contents : Bytes) (at n : ℕ)
    → w.fds src ≡ file contents at
    → read (some src) n w
      ≡ ok (
        some (take n (drop at contents)),
        record w {
          fds = update w.fds src (file contents (at + length (take n (drop at contents))));
        },
      )
unfolding read
reading w src contents at n e = rw e

round-end :
    (fuel : ℕ) (w w' : World) (dst src : ℕ)
    → read (some src) buf_size w ≡ ok (some [], w')
    → file_loop (suc fuel) dst (some src) w ≡ ok (done, w')
unfolding file_loop
round-end fuel w w' dst src e = ground arith

round-more :
    (fuel : ℕ) (w w' w'' : World) (dst src c : ℕ) (bytes : Bytes)
    → read (some src) buf_size w ≡ ok (some (c ∷ bytes), w')
    → http_send_data dst (c ∷ bytes) w' ≡ ok (done, w'')
    → file_loop (suc fuel) dst (some src) w ≡ file_loop fuel dst (some src) w''
unfolding file_loop
round-more fuel w w' w'' dst src c bytes e e' = ground arith

pub sent_whole :
    (w : World) (fd : ℕ) (bytes input : Bytes)
    → w.fds fd ≡ socket input
    → Accepting w.grants
    → (gs : List Grant) × (http_send_data fd bytes w ≡ ok (done, sending w fd bytes gs))
      × Accepting gs
sent_whole w fd bytes input o a =
    let r = http_send_data-Ends w fd bytes input o in
    let (d, l) = r.accepting a in
    (
      r.left,
      r.returned
          ∙ ap₂ (λ st b. ok (st, sending w fd b r.left)) d
              (take-all bytes r.count (omega (arith, r.all_sent d))),
      l,
    )

-- A change of the file's descriptor leaves the socket's alone.
pub update-socket :
    (fds : ℕ → Descriptor) (dst src : ℕ) (input contents : Bytes) (at : ℕ) (d : Descriptor)
    → fds dst ≡ socket input
    → fds src ≡ file contents at
    → update fds src d dst ≡ socket input
update-socket fds dst src input contents at d o s = ground arith

pub update-here : {A : Type 0} (f : ℕ → A) (k : ℕ) (v : A) → update f k v k ≡ v
update-here f k v = ground arith

file_loop-sends :
    (fuel : ℕ) (w : World) (dst src : ℕ) (input contents : Bytes) (at : ℕ)
    → w.fds dst ≡ socket input
    → w.fds src ≡ file contents at
    → at ≤ length contents
    → length contents < fuel + at
    → Accepting w.grants
    → (gs : List Grant) × (file_loop fuel dst (some src) w
        ≡ ok (done, serving w dst src contents (length contents) (drop at contents) gs))
      × Accepting gs
file_loop-sends zero w dst src input contents at d s m h a = absurd (omega arith)
file_loop-sends (suc fuel) w dst src input contents at d s m h a =
    go (take buf_size (drop at contents)) refl
      (λ w' at'. file_loop-sends fuel w' dst src input contents at')
  where
    next : Bytes → World
    next bytes = record w { fds = update w.fds src (file contents (at + length bytes)) }

    open_still : (n : ℕ) → update w.fds src (file contents n) dst ≡ socket input
    open_still n = update-socket w.fds dst src input contents at (file contents n) d s

    go :
        (bytes : Bytes)
        → take buf_size (drop at contents) ≡ bytes
        → ((w' : World) (at' : ℕ)
            → w'.fds dst ≡ socket input
            → w'.fds src ≡ file contents at'
            → at' ≤ length contents
            → length contents < fuel + at'
            → Accepting w'.grants
            → (gs : List Grant) × (file_loop fuel dst (some src) w'
                ≡ ok (done, serving w' dst src contents (length contents) (drop at' contents) gs))
              × Accepting gs)
        → (gs : List Grant) × (file_loop (suc fuel) dst (some src) w
            ≡ ok (done, serving w dst src contents (length contents) (drop at contents) gs))
          × Accepting gs
    go [] e ih =
        let none_left = take-eq-nil 4095 (drop at contents) e in
        let ends : at + 0 ≡ length contents =
          omega (arith, length-drop {0} at contents, ap (length {A = ℕ}) none_left) in
        (
          w.grants,
          round-end fuel w (next []) dst src (rw e at (reading w src contents at buf_size s))
              ∙ rw (none_left, ends)
                  (λ i. ok (
                    done,
                    record (sym (sending_nil w dst w.grants) i) {
                      fds = update w.fds src (file contents (length contents));
                    },
                  )),
          a,
        )
    go (c ∷ bytes) e ih =
        let at' = at + length (c ∷ bytes) in
        let (gs, sent, a') =
          sent_whole (next (c ∷ bytes)) dst (c ∷ bytes) input (open_still at') a in
        let (hs, rest, a'') =
          ih (serving w dst src contents at' (c ∷ bytes) gs) at' (open_still at')
            (update-here w.fds src (file contents at'))
            (omega (
              arith,
              ap (length {A = ℕ}) e,
              length-take {0} 4096 (drop at contents),
              length-drop {0} at contents,
            ))
            (omega arith) a' in
        (
          hs,
          round-more fuel w (next (c ∷ bytes)) _ dst src c bytes
                (rw e at (reading w src contents at buf_size s)) sent
              ∙ rest
              ∙ ap (λ x. ok (done, x))
                  (serving_twice w dst src contents at' (length contents) (c ∷ bytes)
                    (drop at' contents) gs hs)
              ∙ ap (λ b. ok (done, serving w dst src contents (length contents) b hs))
                  (rw (← drop-drop contents at (length (c ∷ bytes)) at' refl)
                    (rw e at (take-append-drop-length 4096 (drop at contents)))),
          a'',
        )

-- `http_send_file` from a file to an open socket, with no failing `write` and as many rounds as
-- bytes and one more: it returns 0; what was left of the file went out, once and in order; the
-- file is read to its end. No other descriptor and no file changed.
pub http_send_file-sends :
    (fuel : ℕ) (w : World) (dst src : ℕ) (input contents : Bytes) (at : ℕ)
    → w.fds dst ≡ socket input
    → w.fds src ≡ file contents at
    → at ≤ length contents
    → length contents < fuel + at
    → Accepting w.grants
    → (gs : List Grant) × (http_send_file fuel dst (some src) w
        ≡ ok (done, serving w dst src contents (length contents) (drop at contents) gs))
      × Accepting gs
unfolding http_send_file
http_send_file-sends = file_loop-sends

-- With the result -1 of `open` the loop reads behind the end of its buffer.
pub http_send_file-not_open :
    (fuel : ℕ) (w : World) (dst : ℕ) → http_send_file (suc fuel) dst none w ≡ fault out_of_bounds
unfolding http_send_file read
http_send_file-not_open fuel w dst = refl
