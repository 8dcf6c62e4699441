-- ===== src/Server/Isolation/Loops.antt =====
-- The loops that send keep a connection apart.
use cloudcomputing_lab2_http.Prelude.{ℕ, zero, suc, Bool, [], ◌∷◌, length, drop}
use cloudcomputing_lab2_http.Cstr.{Bytes}
use cloudcomputing_lab2_http.Os.{World, Fd, Io, pure, ◌>>=◌, read, write}
use cloudcomputing_lab2_http.Os.Keeps.{Keeps, Any, Keeps-pure, Keeps-fail, Keeps-Option, Keeps-bind}
use cloudcomputing_lab2_http.Server.Send.{
  Status, done, failed, send_loop, http_send_data, buf_size, file_loop, http_send_file,
}
use cloudcomputing_lab2_http.Server.Rules.{AreOwn}
use cloudcomputing_lab2_http.Server.Isolation.{IsOwn, AnyFault, Apart, Keeps-write, Keeps-read}

module _ (start : World) (fd : ℕ) (may : Bytes → Bool) where
  abbrev Steady : Io Status → Type 0
  Steady m = Keeps (AnyFault start fd may) (Apart start fd may) (Apart start fd may) Any m

  send_loop-Steady : (fuel : ℕ) (bytes : Bytes) → Steady (send_loop fuel fd bytes)
  unfolding send_loop
  send_loop-Steady fuel [] = Keeps-pure done tt
  send_loop-Steady zero (c ∷ s) = Keeps-fail _ tt
  send_loop-Steady (suc fuel) (c ∷ s) =
      Keeps-bind (write fd (c ∷ s)) _ (Keeps-write start fd may (c ∷ s)) (λ bytes_sent _.
        Keeps-Option bytes_sent _ _ (Keeps-pure failed tt)
          (λ n _. send_loop-Steady fuel (drop n (c ∷ s))))

  pub send_data-Steady : (bytes : Bytes) → Steady (http_send_data fd bytes)
  unfolding http_send_data
  send_data-Steady bytes = send_loop-Steady (length bytes) bytes

  file_loop-Steady :
      (fuel : ℕ) (src : Fd) → AreOwn (IsOwn start fd may) src → Steady (file_loop fuel fd src)
  unfolding file_loop
  file_loop-Steady zero src own = Keeps-fail _ tt
  file_loop-Steady (suc fuel) src own =
      Keeps-bind (read src buf_size) _ (Keeps-read start fd may src buf_size own) (λ bytes_read _.
        Keeps-Option bytes_read _ _ (Keeps-fail _ tt)
          (λ bytes _. round bytes (file_loop-Steady fuel src own)))
    where
      status_then :
          (status : Status) (k : Io Status)
          → Steady k
          → Steady (elim status as (λ _. Io Status) [ failed ↦ pure failed | done ↦ k ])
      status_then failed k calm = Keeps-pure failed tt
      status_then done k calm = calm

      round :
          (bytes : Bytes)
          → Steady (file_loop fuel fd src)
          → Steady (elim bytes as (λ _. Io Status) [
            | [] ↦ pure done
            | c ∷ s ↦ http_send_data fd (c ∷ s) >>= λ status. elim status [
              | failed ↦ pure failed
              | done ↦ file_loop fuel fd src
            ]
          ])
      round [] calm = Keeps-pure done tt
      round (c ∷ s) calm =
          Keeps-bind (http_send_data fd (c ∷ s)) _ (send_data-Steady (c ∷ s))
            (λ status _. status_then status (file_loop fuel fd src) calm)

  pub send_file-Steady :
      (fuel : ℕ) (src : Fd) → AreOwn (IsOwn start fd may) src → Steady (http_send_file fuel fd src)
  unfolding http_send_file
  send_file-Steady fuel src own = file_loop-Steady fuel src own
