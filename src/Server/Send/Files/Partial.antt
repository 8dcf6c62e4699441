-- ===== src/Server/Send/Files/Partial.antt =====
-- `http_send_file` of httpserver.c where writes may fail.
use cloudcomputing_lab2_http.Prelude.{
  ℕ, zero, suc, ◌+◌, ◌≤◌, ◌<◌, ◌≡◌, refl, sym, ap, ◌∙◌, some, List, [], ◌∷◌, ◌++◌, append_assoc,
  arith, length, take, drop, take-append-drop, length-take, length-drop, take-all,
  take-append-drop-length, take-eq-nil, drop-drop,
}
use cloudcomputing_lab2_http.Result.{Result, ok}
use cloudcomputing_lab2_http.Cstr.{Bytes}
use cloudcomputing_lab2_http.Os.{closed, socket, file, World, Grant, ◌>>=◌, read, close, update}
use cloudcomputing_lab2_http.Server.Send.{
  Status, done, failed, http_send_data, file_loop, http_send_file, buf_size,
}
use cloudcomputing_lab2_http.Server.Send.Delivery.{
  http_send_data-Ends, sending, sending_nil, update_twice,
}
use cloudcomputing_lab2_http.Server.Handler.Answers.{step, close-file}
use cloudcomputing_lab2_http.Server.Send.Files.{
  serving, serving_twice, reading, round-end, round-more, update-socket, update-here,
}

-- A start of a text.
abbrev pub IsStart : Bytes → Bytes → Type 0
IsStart text whole = (rest : Bytes) × (whole ≡ text ++ rest)

-- How the loop ended: a start of what was left of the file went out.
record Stops (w : World) (dst src : ℕ) (contents : Bytes) (at : ℕ) (r : Result (Status × World))
    : Type 0 where
  pub status : Status
  pub text : Bytes
  pub left : List Grant
  pub place : ℕ
  pub returned : r ≡ ok (status, serving w dst src contents place text left)
  pub is_start : IsStart text (drop at contents)
  pub whole : status ≡ done → text ≡ drop at contents

round-stop :
    (fuel : ℕ) (w w' w'' : World) (dst src c : ℕ) (bytes : Bytes)
    → read (some src) buf_size w ≡ ok (some (c ∷ bytes), w')
    → http_send_data dst (c ∷ bytes) w' ≡ ok (failed, w'')
    → file_loop (suc fuel) dst (some src) w ≡ ok (failed, w'')
unfolding file_loop
round-stop fuel w w' w'' dst src c bytes e e' = ground arith

file_loop-Stops :
    (fuel : ℕ) (w : World) (dst src : ℕ) (input contents : Bytes) (at : ℕ)
    → w.fds dst ≡ socket input
    → w.fds src ≡ file contents at
    → at ≤ length contents
    → length contents < fuel + at
    → Stops w dst src contents at (file_loop fuel dst (some src) w)
file_loop-Stops zero w dst src input contents at d s m h = absurd (omega arith)
file_loop-Stops (suc fuel) w dst src input contents at d s m h =
    go (take buf_size (drop at contents)) refl
      (λ w' at'. file_loop-Stops fuel w' dst src input contents at')
  where
    next : Bytes → World
    next bytes = record w { fds = update w.fds src (file contents (at + length bytes)) }

    open_still : (n : ℕ) → update w.fds src (file contents n) dst ≡ socket input
    open_still n = update-socket w.fds dst src input contents at (file contents n) d s

    -- What the loop read, and what is behind it.
    split :
        (bytes : Bytes)
        → take buf_size (drop at contents) ≡ bytes
        → drop at contents ≡ bytes ++ drop (at + length bytes) contents
    split bytes e = sym (
        rw (← drop-drop contents at (length bytes) (at + length bytes) refl)
          (rw e at (take-append-drop-length 4096 (drop at contents))))

    after_data :
        (c : ℕ) (bytes : Bytes)
        → take buf_size (drop at contents) ≡ c ∷ bytes
        → (status : Status) (count : ℕ) (left : List Grant)
        → http_send_data dst (c ∷ bytes) (next (c ∷ bytes))
          ≡ ok (status, sending (next (c ∷ bytes)) dst (take count (c ∷ bytes)) left)
        → (status ≡ done → count ≡ length (c ∷ bytes))
        → (done ≡ status
            → Stops
                (serving w dst src contents (at + length (c ∷ bytes)) (c ∷ bytes) left)
                dst
                src
                contents
                (at + length (c ∷ bytes))
                (file_loop fuel dst
                  (some src)
                  (serving w dst src contents (at + length (c ∷ bytes)) (c ∷ bytes) left)))
        → Stops w dst src contents at (file_loop (suc fuel) dst (some src) w)
    after_data c bytes e failed count left sent all ih = record {
      status = failed;
      text = take count (c ∷ bytes);
      left = left;
      place = at + length (c ∷ bytes);
      returned =
          round-stop fuel w (next (c ∷ bytes)) _ dst src c bytes
            (rw e at (reading w src contents at buf_size s)) sent;
      is_start = (
        drop count (c ∷ bytes) ++ drop (at + length (c ∷ bytes)) contents,
        split (c ∷ bytes) e
            ∙ ap (λ b. b ++ drop (at + length (c ∷ bytes)) contents)
                (sym (take-append-drop count (c ∷ bytes)))
            ∙ append_assoc (take count (c ∷ bytes)) (drop count (c ∷ bytes))
                (drop (at + length (c ∷ bytes)) contents),
      );
      whole = λ q. ground arith;
    }
    after_data c bytes e done count left sent all ih =
        let r = ih refl in
        record {
          status = r.status;
          text = (c ∷ bytes) ++ r.text;
          left = r.left;
          place = r.place;
          returned =
              round-more fuel w (next (c ∷ bytes)) (sending (next (c ∷ bytes)) dst (c ∷ bytes) left)
                dst src c bytes (rw e at (reading w src contents at buf_size s))
                (sent
                  ∙ ap (λ b. ok (done, sending (next (c ∷ bytes)) dst b left))
                      (take-all (c ∷ bytes) count (omega (arith, all refl))))
              ∙ r.returned
              ∙ ap (λ x. ok (r.status, x))
                  (serving_twice w dst src contents (at + length (c ∷ bytes)) r.place (c ∷ bytes)
                    r.text left r.left);
          is_start = (
            r.is_start.0,
            split (c ∷ bytes) e
                ∙ ap (λ t. (c ∷ bytes) ++ t) r.is_start.1
                ∙ sym (append_assoc (c ∷ bytes) r.text r.is_start.0),
          );
          whole = λ q. ap (λ t. (c ∷ bytes) ++ t) (r.whole q) ∙ sym (split (c ∷ bytes) e);
        }

    go :
        (bytes : Bytes)
        → take buf_size (drop at contents) ≡ bytes
        → ((w' : World) (at' : ℕ)
            → w'.fds dst ≡ socket input
            → w'.fds src ≡ file contents at'
            → at' ≤ length contents
            → length contents < fuel + at'
            → Stops w' dst src contents at' (file_loop fuel dst (some src) w'))
        → Stops w dst src contents at (file_loop (suc fuel) dst (some src) w)
    go [] e ih =
        let none_left = take-eq-nil 4095 (drop at contents) e in
        record {
          status = done;
          text = [];
          left = w.grants;
          place = at + 0;
          returned =
              round-end fuel w (next []) dst src (rw e at (reading w src contents at buf_size s))
              ∙ (λ i. ok (
                done,
                record (sym (sending_nil w dst w.grants) i) {
                  fds = update w.fds src (file contents (at + 0));
                },
              ));
          is_start = (drop at contents, refl);
          whole = λ q. sym none_left;
        }
    go (c ∷ bytes) e ih =
        let at' = at + length (c ∷ bytes) in
        let r = http_send_data-Ends (next (c ∷ bytes)) dst (c ∷ bytes) input (open_still at') in
        after_data c bytes e r.status r.count r.left r.returned r.all_sent (λ q.
          ih (serving w dst src contents at' (c ∷ bytes) r.left) at' (open_still at')
            (update-here w.fds src (file contents at'))
            (omega (
              arith,
              ap (length {A = ℕ}) e,
              length-take {0} 4096 (drop at contents),
              length-drop {0} at contents,
            ))
            (omega arith))

-- A file sent to an open socket and closed, whatever the writes do: a start of it goes out, and only
-- its own descriptor and the text of the socket change.
pub send_close-Stops :
    (fuel : ℕ) (w : World) (fd src : ℕ) (input contents : Bytes)
    → w.fds fd ≡ socket input
    → w.fds src ≡ file contents 0
    → length contents < fuel
    → (text : Bytes) × (gs : List Grant) × IsStart text contents
      × ((http_send_file fuel fd (some src) >>= λ status. close (some src)) w
          ≡ ok (tt, record (sending w fd text gs) { fds = update w.fds src closed }))
unfolding http_send_file
send_close-Stops fuel w fd src input contents o s h =
    let r = file_loop-Stops fuel w fd src input contents 0 o s (omega arith) (omega arith) in
    let w' = serving w fd src contents r.place r.text r.left in
    (
      r.text,
      r.left,
      r.is_start,
      step (http_send_file fuel fd (some src)) (λ status. close (some src)) w w' r.status r.returned
          ∙ close-file w' src contents r.place (update-here w.fds src (file contents r.place))
          ∙ ap (λ f. ok (tt, record (sending w fd r.text r.left) { fds = f }))
              (update_twice w.fds src (file contents r.place) closed),
    )
