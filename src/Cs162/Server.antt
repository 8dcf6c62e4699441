-- ===== src/Cs162/Server.antt =====
-- `serve_forever` and `main` of CS162-httpserver.c, built as BASICSERVER: one client after another. The
-- other variants of the loop are empty in the source.
use cloudcomputing_lab2_http.Prelude.{
  ℕ, Bool, ◌&&◌, Option, none, some, List, [], ◌∷◌, if◌then◌else◌, ℤ,
}
use cloudcomputing_lab2_http.Result.{Result, ok, fault, exit, null_pointer}
use cloudcomputing_lab2_http.Cstr.{Bytes}
use cloudcomputing_lab2_http.Os.{Fd, Io, pure, fail, lift, ◌>>=◌, ◌>>◌, accept}
use cloudcomputing_lab2_http.Program.Options.{RequestHandler, Options}
use cloudcomputing_lab2_http.Cs162.Options.{read_file_options}

-- The results of the calls in front of the loop, -1 being `none` and `false`; what `errno` is behind
-- a failure; and what each round of `accept` meets: a client that sends some bytes, or a failure.
pub record Network : Type 0 where
  pub socket_number : Option ℕ
  pub option_set : Bool
  pub bound : Bool
  pub listening : Bool
  pub errno : ℕ
  pub arrivals : List (Option Bytes)

unfoldable pub start_listening : Network → Result ℕ
start_listening n = elim n.socket_number [
  | none ↦ fault (exit n.errno)
  | some socket_number ↦
      if n.option_set && n.bound && n.listening then ok socket_number else fault (exit n.errno)
]

module _ (request_handler : ℕ → Io (Unit {0})) where
  -- One round behind `accept`: a failure is skipped.
  abbrev pub serve_accepted : Fd → Io (Unit {0})
  serve_accepted none = pure tt
  serve_accepted (some client_socket_number) = request_handler client_socket_number

  -- `while (1)`, up to the arrivals that are looked at.
  unfoldable pub accept_loop : List (Option Bytes) → Io (Unit {0})
  accept_loop [] = pure tt
  accept_loop (arrival ∷ later) =
      accept arrival >>= λ client. (serve_accepted client >> accept_loop later)

  unfoldable pub serve_forever : Network → Io (Unit {0})
  unfolding start_listening accept_loop
  serve_forever n = lift (start_listening n) >>= λ socket_number. accept_loop n.arrivals

-- The handler that was chosen; to call none is to call NULL.
abbrev pub chosen_handler :
    (RequestHandler → ℕ → Io (Unit {0})) → Option RequestHandler → ℕ → Io (Unit {0})
chosen_handler handlers none fd = fail null_pointer
chosen_handler handlers (some h) fd = handlers h fd

-- `handlers` are the two handlers of requests, behind the change of the directory that each of the
-- options asks for.
unfoldable pub main :
    (Options → RequestHandler → ℕ → Io (Unit {0})) → List Bytes → (ℤ → Network) → Io (Unit {0})
unfolding serve_forever
main handlers args network = lift (read_file_options args) >>= λ o.
    serve_forever (chosen_handler (handlers o) o.request_handler) (network o.server_port)
