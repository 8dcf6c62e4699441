-- ===== src/Program/Main.antt =====
-- `main` of httpserver.c, and its handler of SIGINT.
use cloudcomputing_lab2_http.Prelude.{ℕ, ◌≡◌, Option, some, List, ℤ, All, Bool, none, if◌then◌else◌}
use cloudcomputing_lab2_http.Result.{Result, ok, exit, ◌>>=◌}
use cloudcomputing_lab2_http.Cstr.{Bytes}
use cloudcomputing_lab2_http.Os.{Io, fail, close, ◌>>◌}
use cloudcomputing_lab2_http.Program.Options.{RequestHandler, read_options, default_options}
use cloudcomputing_lab2_http.Program.Options.Written.{
  Choice, IsChoice, written, chosen_all, read_options-written,
}
use cloudcomputing_lab2_http.Program.Accept.Starts.{
  Listens, arriving, id_behind, serve_forever-arriving,
}
use cloudcomputing_lab2_http.Program.Accept.{Network, Accepting, unset, serve_forever}

-- What `main` leaves running: the directory that it changed to, `none` if it stays where it was
-- started, and the handler for each client.
pub record Program : Type 0 where
  pub directory : Option Bytes
  pub request_handler : Option RequestHandler
  pub serving : Accepting

-- chdir(server_files_directory), by whether the system enters a directory. NULL is refused, and the
-- source does not read the result.
unfoldable changed_to : (Bytes → Bool) → Option Bytes → Option Bytes
changed_to enters none = none
changed_to enters (some directory) = if enters directory then some directory else none

-- `network` says what the system answers for the port that was chosen.
unfoldable main : List Bytes → (Bytes → Bool) → (ℤ → Network) → Result Program
main args enters network = read_options args >>= λ o.
    serve_forever (network o.server_port) >>= λ serving. ok (record {
      directory = changed_to enters o.server_files_directory;
      request_handler = o.request_handler;
      serving = serving;
    })

-- `server_fd` is the socket of `serve_forever`. Its close is tested for a message only.
unfoldable pub signal_callback_handler : ℕ → Io (Unit {0})
signal_callback_handler server_fd = close (some server_fd) >> fail (exit 0)

-- From a command line that is written as `Written` says to the threads: every client that arrives at
-- the port that was chosen last gets one thread, in the order of the arrivals. The server stays where
-- it was started if the directory that was chosen last cannot be entered.
main-written :
    (cs : List Choice) (enters : Bytes → Bool) (network : ℤ → Network) (m : ℕ) (clients : List ℕ)
    → All IsChoice cs
    → Listens (network (chosen_all cs default_options).server_port) m
    → (network (chosen_all cs default_options).server_port).arrivals ≡ arriving clients
    → main (written cs) enters network
      ≡ ok (record {
        directory = changed_to enters (chosen_all cs default_options).server_files_directory;
        request_handler = (chosen_all cs default_options).request_handler;
        serving = record { thread_id = id_behind clients unset; started = clients };
      })
unfolding main
main-written cs enters network m clients h l e = rw (
  read_options-written cs h,
  serve_forever-arriving (network (chosen_all cs default_options).server_port) m clients l e,
)
