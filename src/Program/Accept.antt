-- ===== src/Program/Accept.antt =====
-- `serve_forever` of httpserver.c. What the system answers to each call is an argument.
pub mod Starts
use cloudcomputing_lab2_http.Prelude.{
  ℕ, zero, suc, Bool, true, false, Option, none, some, List, [], ◌∷◌, ◌++◌,
}
use cloudcomputing_lab2_http.Result.{
  Result, ok, fault, exit, uninitialised, invalid_argument, ◌>>=◌,
}

-- What one round meets: `accept` fails, or gives a client, for which `pthread_create` may fail.
pub data Arrival : Type 0 where
  refused : Arrival
  accepted : (client_socket_number : ℕ) (created : Bool) → Arrival

-- The results of the calls, -1 being `none` and `false`, and what `errno` is behind a failure.
pub record Network : Type 0 where
  pub socket_number : Option ℕ
  pub option_set : Bool
  pub bound : Bool
  pub listening : Bool
  pub errno : ℕ
  pub arrivals : List Arrival

-- The variable `thread_id`.
pub data ThreadId : Type 0 where
  unset joinable detached : ThreadId

-- The clients for which a thread runs the handler, in order of their start.
pub record Accepting : Type 0 where
  pub thread_id : ThreadId
  pub started : List ℕ

-- if (call == -1) { perror(…); exit(errno); }
unfoldable pub require : Bool → ℕ → Result (Unit {0})
require true errno = ok tt
require false errno = fault (exit errno)

-- `free` of a number: of NULL it does nothing.
unfoldable pub free_number : ℕ → Result (Unit {0})
free_number zero = ok tt
free_number (suc n) = fault invalid_argument

unfoldable pub pthread_detach : Accepting → Result Accepting
pthread_detach s = elim s.thread_id [
  | unset ↦ fault uninitialised
  | detached ↦ fault invalid_argument
  | joinable ↦ ok (record s { thread_id = detached })
]

-- One round. The number -1 is freed as a pointer where `accept` fails.
unfoldable pub accept_round : Arrival → Accepting → Result Accepting
unfolding free_number pthread_detach
accept_round refused s = fault invalid_argument
accept_round (accepted client true) s =
    pthread_detach (record { thread_id = joinable; started = s.started ++ client ∷ [] })
accept_round (accepted client false) s = free_number client >>= λ freed. pthread_detach s

-- `while (1)`, up to the arrivals that are looked at.
unfoldable pub accept_loop : List Arrival → Accepting → Result Accepting
unfolding accept_round
accept_loop [] s = ok s
accept_loop (a ∷ later) s = accept_round a s >>= accept_loop later

-- The calls in front of the loop.
unfoldable pub start_listening : Network → Result ℕ
unfolding require
start_listening n = elim n.socket_number [
  | none ↦ fault (exit n.errno)
  | some socket_number ↦ require n.option_set n.errno >>= λ _.
      require n.bound n.errno >>= λ _. require n.listening n.errno >>= λ _. ok socket_number
]

unfoldable pub serve_forever : Network → Result Accepting
unfolding start_listening accept_loop
serve_forever n = start_listening n >>= λ socket_number.
    accept_loop n.arrivals (record { thread_id = unset; started = [] })
