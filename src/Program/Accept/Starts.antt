-- ===== src/Program/Accept/Starts.antt =====
-- Which clients get a thread, and which arrivals end the server.
use cloudcomputing_lab2_http.Prelude.{
  ℕ, suc, ◌≡◌, refl, ◌∙◌, ◌⊎◌, inl, inr, true, false, some, List, [], ◌∷◌, ◌++◌, append-nil,
  append_assoc,
}
use cloudcomputing_lab2_http.Result.{ok, fault, invalid_argument}
use cloudcomputing_lab2_http.Program.Accept.{
  Arrival, refused, accepted, Network, ThreadId, unset, detached, Accepting, accept_loop,
  start_listening, serve_forever,
}

-- The arrivals of clients for which a thread could be created.
abbrev pub arriving : List ℕ → List Arrival
arriving [] = []
arriving (client ∷ clients) = accepted client true ∷ arriving clients

-- The calls in front of the loop succeed.
pub record Listens (n : Network) (socket_number : ℕ) : Type 0 where
  pub opened : n.socket_number ≡ some socket_number
  pub reusable : n.option_set ≡ true
  pub bound : n.bound ≡ true
  pub listening : n.listening ≡ true

-- The variable behind a number of rounds.
abbrev pub id_behind : List ℕ → ThreadId → ThreadId
id_behind [] t = t
id_behind (client ∷ clients) t = detached

id_behind-detached : (clients : List ℕ) → id_behind clients detached ≡ detached
id_behind-detached [] = refl
id_behind-detached (client ∷ clients) = refl

accept_loop-arriving :
    (clients : List ℕ) (later : List Arrival) (s : Accepting)
    → accept_loop (arriving clients ++ later) s
      ≡ accept_loop later
          (record { thread_id = id_behind clients s.thread_id; started = s.started ++ clients })
unfolding accept_loop
accept_loop-arriving [] later s = rw (append-nil s.started)
accept_loop-arriving (client ∷ clients) later s =
    accept_loop-arriving clients later
      (record { thread_id = detached; started = s.started ++ client ∷ [] })
    ∙ rw (id_behind-detached clients, append_assoc s.started (client ∷ []) clients)

start_listening_lem : (n : Network) (m : ℕ) → Listens n m → start_listening n ≡ ok m
unfolding start_listening
start_listening_lem n m l = rw (l.opened, l.reusable, l.bound, l.listening)

-- Where the calls in front of the loop succeed, and every arrival is a client for which a thread can
-- be created: each client gets one thread, in the order of the arrivals, whatever their number.
pub serve_forever-arriving :
    (n : Network) (m : ℕ) (clients : List ℕ)
    → Listens n m
    → n.arrivals ≡ arriving clients
    → serve_forever n ≡ ok (record { thread_id = id_behind clients unset; started = clients })
unfolding serve_forever
serve_forever-arriving n m clients l e =
    rw (start_listening_lem n m l, e, ← append-nil (arriving clients))
      (accept_loop-arriving clients [] (record { thread_id = unset; started = [] }))

-- The first `accept` that fails, behind any clients that were started, ends the server: the number -1
-- is given to `free`. So does a client other than 0 for which no thread can be created.
pub serve_forever-refused :
    (n : Network) (m : ℕ) (clients : List ℕ) (bad : Arrival) (later : List Arrival)
    → Listens n m
    → n.arrivals ≡ arriving clients ++ bad ∷ later
    → (bad ≡ refused) ⊎ ((client : ℕ) × (bad ≡ accepted (suc client) false))
    → serve_forever n ≡ fault invalid_argument
unfolding serve_forever accept_loop
serve_forever-refused n m clients bad later l e (inl r) =
    rw (start_listening_lem n m l, e)
      (accept_loop-arriving clients (bad ∷ later) (record { thread_id = unset; started = [] })
        ∙ rw r)
serve_forever-refused n m clients bad later l e (inr (client, r)) =
    rw (start_listening_lem n m l, e)
      (accept_loop-arriving clients (bad ∷ later) (record { thread_id = unset; started = [] })
        ∙ rw r)
