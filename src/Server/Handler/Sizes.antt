-- ===== src/Server/Handler/Sizes.antt =====
-- The size of a file, and its text, as httpserver.c prints it.
use native.Mathlib.Nat.{pow-suc, pow-zero}
use cloudcomputing_lab2_http.Prelude.{
  ℕ, zero, suc, ◌+◌, ◌/◌, ◌%◌, ◌^◌, ◌≤◌, ◌<◌, ◌≡◌, refl, ap, ◌∙◌, Option, some, [], ◌∷◌, arith,
  length, to_int, to_int-pos,
}
use cloudcomputing_lab2_http.Result.{ok}
use cloudcomputing_lab2_http.Cstr.{Bytes, decimal, decimal_from, strcpy}
use cloudcomputing_lab2_http.Os.{
  target, file, World, pure, ◌>>=◌, update, lseek, Whence, seek_cur, seek_end, seek_set,
}
use cloudcomputing_lab2_http.Server.Send.{get_file_size, sprintf_size, print_int, offset_int}
use cloudcomputing_lab2_http.Server.Send.Delivery.{update_twice, update_self}
use cloudcomputing_lab2_http.Server.Send.Files.{update-here}
use cloudcomputing_lab2_http.Server.Handler.Answers.{step}

length-decimal_from :
    (f n k : ℕ) (acc : Bytes)
    → n < f
    → n < 10 ^ suc k
    → length (decimal_from f n acc) ≤ suc k + length acc
unfolding decimal_from
length-decimal_from zero n k acc h l = elim h [ ]
length-decimal_from (suc f) n zero acc h l = ground (arith, pow-suc 10 0, pow-zero 10)
length-decimal_from (suc f) n (suc k) acc h l =
    ground (arith, pow-suc 10 (suc k), length-decimal_from f (n / 10) k ((b'0' + n % 10) ∷ acc))

length-decimal : (n k : ℕ) → n < 10 ^ suc k → length (decimal n) ≤ suc k
unfolding decimal
length-decimal n k h = omega (arith, length-decimal_from (suc n) n k [] (omega arith) h)

-- The descriptor moved in its file.
moved : World → ℕ → Bytes → ℕ → World
moved w fd contents at = record w { fds = update w.fds fd (file contents at) }

lseek-file :
    (w : World) (fd : ℕ) (whence : Whence) (contents : Bytes) (at at' : ℕ)
    → w.fds fd ≡ file contents at
    → target whence (length contents) at ≡ some at'
    → lseek (some fd) whence w ≡ ok (some at', moved w fd contents at')
unfolding lseek moved
lseek-file w fd whence contents at at' e t = rw (e, lseek) (ground arith)

-- The size of a file that is open at its start, which the position is put back to.
pub get_file_size-start :
    (w : World) (fd : ℕ) (contents : Bytes)
    → w.fds fd ≡ file contents 0
    → get_file_size (some fd) w ≡ ok (to_int (length contents), w)
unfolding get_file_size moved to_int
get_file_size-start w fd contents e =
    let n = length contents in
    let w1 = moved w fd contents 0 in
    let w2 = moved w1 fd contents n in
    let rest = λ (saved_pos : Option ℕ).
      (lseek (some fd) seek_end >>= λ file_size.
      (lseek (some fd) (seek_set (offset_int saved_pos)) >>= λ restored.
      pure (offset_int file_size))) in
    let rest' = λ (file_size : Option ℕ).
      (lseek (some fd) (seek_set (offset_int (some 0))) >>= λ restored.
      pure (offset_int file_size)) in
    step (lseek (some fd) seek_cur) rest w w1 (some 0)
      (lseek-file w fd seek_cur contents 0 0 e refl)
    ∙ step (lseek (some fd) seek_end) rest' w1 w2 (some n)
        (lseek-file w1 fd seek_end contents 0 n (update-here w.fds fd (file contents 0)) refl)
    ∙ step (lseek (some fd) (seek_set (offset_int (some 0))))
        (λ restored. pure (offset_int (some n))) w2 (moved w2 fd contents 0) (some 0)
        (lseek-file w2 fd (seek_set (offset_int (some 0))) contents n 0
          (update-here w1.fds fd (file contents n)) refl)
    ∙ ap (λ f. ok (to_int n, record w { fds = f }))
        (update_twice w1.fds fd (file contents n) (file contents 0)
          ∙ update_twice w.fds fd (file contents 0) (file contents 0)
          ∙ rw (← e) (update_self w.fds fd))

pub sprintf_size-small : (n : ℕ) → n < 2 ^ 31 → sprintf_size (to_int n) ≡ ok (decimal n)
unfolding sprintf_size print_int strcpy
sprintf_size-small n h = rw (to_int-pos n h) (ground (arith, length-decimal n 9))
