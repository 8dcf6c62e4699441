-- ===== src/Server/Rules.antt =====
-- What a predicate of the world needs for every function of the handler to keep it: rules for the
-- calls of the system and for the two loops of httpserver.c that send.
pub mod Finishes
pub mod Sending
pub mod Handlers
pub mod Requests
use cloudcomputing_lab2_http.Prelude.{ℕ, ◌≡◌, ap, ◌∙◌, ◌≢◌, none, some}
use cloudcomputing_lab2_http.Result.{Result, Fault, ok, fault, out_of_fuel}
use cloudcomputing_lab2_http.Cstr.{Bytes}
use cloudcomputing_lab2_http.Os.{
  World, Fd, Io, lift, dprintf, read, close, open_file, stat, lseek, Whence, save_file,
}
use cloudcomputing_lab2_http.Os.Keeps.{Keeps, Any, Keeps-lift, Keeps-over}
use cloudcomputing_lab2_http.Server.Api.{data_path}
use cloudcomputing_lab2_http.Server.Send.{http_send_data, http_send_file}

abbrev pub AreOwn : (ℕ → Type 0) → Fd → Type 0
AreOwn IsOwn none = Unit
AreOwn IsOwn (some d) = IsOwn d

-- The faults with `E`, the predicate `P`, what is left of it behind the saving of the data file, and
-- the descriptors that the handler of `fd` may use.
pub record Rules (fd fuel : ℕ) : Type 1 where
  pub E : Fault → Type 0
  pub P : World → Type 0
  pub F : World → Type 0
  pub IsOwn : ℕ → Type 0
  pub own : IsOwn fd
  pub faulty : (e : Fault) → e ≢ out_of_fuel → E e
  pub over : (w : World) → P w → F w
  pub on_dprintf : (text : Bytes) → Keeps E P P Any (dprintf fd text)
  pub on_read : (d : Fd) (n : ℕ) → AreOwn IsOwn d → Keeps E P P Any (read d n)
  pub on_close : (d : Fd) → AreOwn IsOwn d → Keeps E P P Any (close d)
  pub on_open_file : (path : Bytes) → Keeps E P P (AreOwn IsOwn) (open_file path)
  pub on_stat : (path : Bytes) → Keeps E P P Any (stat path)
  pub on_lseek : (d : Fd) (whence : Whence) → AreOwn IsOwn d → Keeps E P P Any (lseek d whence)
  pub on_send_data : (bytes : Bytes) → Keeps E P P Any (http_send_data fd bytes)
  pub on_send_file : (src : Fd) → AreOwn IsOwn src → Keeps E P P Any (http_send_file fuel fd src)

module _ {fd fuel : ℕ} (R : Rules fd fuel) where
  abbrev pub Calm : {A : Type 0} → Io A → Type 0
  Calm m = Keeps R.E R.P R.P Any m

  -- With the weaker predicate at the end.
  abbrev pub Mild : {A : Type 0} → Io A → Type 0
  Mild m = Keeps R.E R.P R.F Any m

  -- The data file may be saved, at the end.
  abbrev pub Saves : Type 0
  Saves = (text : Bytes) → Mild (save_file data_path text)

  pub mild : {A : Type 0} (m : Io A) → Calm m → Mild m
  mild m calm = Keeps-over R.over m calm

  -- A computation that never runs out of fuel.
  pub lifted :
      {A : Type 0} (r : Result A)
      → r ≢ fault out_of_fuel
      → Keeps R.E R.P R.P (λ a. r ≡ ok a) (lift r)
  lifted r n = Keeps-lift r (λ e same. R.faulty e (λ loop. n (same ∙ ap fault loop)))
