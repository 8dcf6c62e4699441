-- ===== src/Server/Termination/Requests.antt =====
-- `handle_request` of httpserver.c ends, with the fuel of its setting.
use cloudcomputing_lab2_http.Prelude.{ℕ, ◌≢◌, Option, none, some, arith}
use cloudcomputing_lab2_http.Result.{Result, fault, out_of_fuel}
use cloudcomputing_lab2_http.Os.{World, save_file}
use cloudcomputing_lab2_http.Os.Keeps.{Gives, gives, faults}
use cloudcomputing_lab2_http.Server.Handler.{Setting, handle_request}
use cloudcomputing_lab2_http.Server.Rules.{Rules, AreOwn, Saves}
use cloudcomputing_lab2_http.Server.Rules.Requests.{handle_request-Mild}
use cloudcomputing_lab2_http.Server.Termination.{
  IsBelow, NoLoop, Below, Below-same, Below-read, Below-dprintf, Below-close, Below-open_file,
  Below-stat, Below-lseek,
}
use cloudcomputing_lab2_http.Server.Termination.Loops.{send_data-NoLoop, send_file-NoLoop}

all_own : (d : Option ℕ) → AreOwn (λ _. Unit) d
all_own none = tt
all_own (some d) = tt

-- The loops end while all is below the fuel; nothing is asked of what an upload saves at the end.
abbrev rules : (fd fuel : ℕ) → Rules fd fuel
rules fd fuel = record {
  E = NoLoop;
  P = Below fuel;
  F = λ _. Unit;
  IsOwn = λ _. Unit;
  own = tt;
  faulty = λ e n. n;
  over = λ w p. tt;
  on_dprintf = Below-dprintf fuel fd;
  on_read = λ d n own. Below-read fuel d n;
  on_close = λ d own. Below-close fuel d;
  on_open_file = λ path. Below-open_file fuel path all_own;
  on_stat = Below-stat fuel;
  on_lseek = λ d whence own. Below-lseek fuel d whence;
  on_send_data = send_data-NoLoop fd (Below fuel) (Below-same fuel);
  on_send_file = λ src own. send_file-NoLoop fuel fd src;
}

saved : (fd fuel : ℕ) → Saves (rules fd fuel)
unfolding save_file
saved fd fuel text = record { at = λ w p. gives tt tt }

ended :
    {A : Type 0} {F : World → Type 0} {Q : A → Type 0} {r : Result (A × World)}
    → Gives NoLoop F Q r
    → r ≢ fault out_of_fuel
ended (gives q p) h = ground arith
ended (faults n) h = ground (arith, n)

-- If what was sent to the server, and every file, is smaller than the fuel of the setting, then
-- `handle_request` never runs out of fuel, on any descriptor and for every JSON library: its loops
-- end, so it returns, or the program ends in one of the faults that the model names.
pub handle_request-ends :
    (S : Setting) (w : World) (fd : ℕ)
    → IsBelow S.fuel w
    → handle_request S fd w ≢ fault out_of_fuel
handle_request-ends S w fd p =
    ended ((handle_request-Mild S (rules fd S.fuel) (saved fd S.fuel)).at w p)
