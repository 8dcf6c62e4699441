-- ===== src/Wq/Threads.antt =====
-- The threads that call `wq_push` and `wq_pop`: the mutex, the condition variable, and every order
-- of their steps.
use cloudcomputing_lab2_http.Prelude.{
  ℕ, ◌≡◌, ◌≢◌, Bool, true, false, Option, none, some, List, [], ◌∷◌, ◌++◌,
}
use cloudcomputing_lab2_http.Result.{ok}
use cloudcomputing_lab2_http.Os.{update}
use cloudcomputing_lab2_http.Wq.{UtList, Wq, wq_init, wq_push, wq_pop}

-- Where a thread is.
pub data Pc : Type 0 where
  outside : Pc
  push_lock : (client_socket_fd : ℕ) → Pc  -- before pthread_mutex_lock of wq_push
  push_in : (client_socket_fd : ℕ) → Pc  -- holds the mutex
  push_added : Pc  -- before pthread_cond_broadcast
  push_out : Pc  -- before pthread_mutex_unlock
  pop_lock : Pc  -- before pthread_mutex_lock of wq_pop
  pop_test : Pc  -- at the test of the loop
  pop_wait : Pc  -- asleep in pthread_cond_wait
  pop_wake : Pc  -- awake in pthread_cond_wait, before it locks again
  pop_out : (client_socket_fd : ℕ) → Pc  -- before pthread_mutex_unlock

-- The thread is between the lock and the unlock.
abbrev pub inside : Pc → Bool
inside (push_in fd) = true
inside push_added = true
inside push_out = true
inside pop_test = true
inside (pop_out fd) = true
inside _ = false

abbrev pub awake : Pc → Pc
awake pop_wait = pop_wake
awake pc = pc

-- `pushed` and `popped` record what went in and what came out, in order.
pub record System (U : UtList) : Type 0 where
  pub queue : Wq U
  pub owner : Option ℕ
  pub threads : ℕ → Pc
  pub pushed : List ℕ
  pub popped : List ℕ

module _ (U : UtList) where
  -- One step of the thread `t`.
  pub data Step (s : System U) (t : ℕ) : System U → Type 0 where
    call_push :
        (fd : ℕ)
        → s.threads t ≡ outside
        → Step s t (record s { threads = update s.threads t (push_lock fd) })
    call_pop : s.threads t ≡ outside → Step s t (record s { threads = update s.threads t pop_lock })
    lock_push :
        (fd : ℕ)
        → s.threads t ≡ push_lock fd
        → s.owner ≡ none
        → Step s t (record s { owner = some t; threads = update s.threads t (push_in fd) })
    add :
        (fd : ℕ) (q : Wq U)
        → s.threads t ≡ push_in fd
        → wq_push U fd s.queue ≡ ok q
        → Step s t (record s {
          queue = q;
          threads = update s.threads t push_added;
          pushed = s.pushed ++ fd ∷ [];
        })
    broadcast :
        s.threads t ≡ push_added
        → Step s t (record s { threads = update (λ u. awake (s.threads u)) t push_out })
    unlock_push :
        s.threads t ≡ push_out
        → Step s t (record s { owner = none; threads = update s.threads t outside })
    lock_pop :
        s.threads t ≡ pop_lock
        → s.owner ≡ none
        → Step s t (record s { owner = some t; threads = update s.threads t pop_test })
    wait :
        s.threads t ≡ pop_test
        → s.queue.size ≡ 0
        → Step s t (record s { owner = none; threads = update s.threads t pop_wait })
    wake_spuriously :
        s.threads t ≡ pop_wait → Step s t (record s { threads = update s.threads t pop_wake })
    lock_again :
        s.threads t ≡ pop_wake
        → s.owner ≡ none
        → Step s t (record s { owner = some t; threads = update s.threads t pop_test })
    remove :
        (fd : ℕ) (q : Wq U)
        → s.threads t ≡ pop_test
        → s.queue.size ≢ 0
        → wq_pop U s.queue ≡ ok (fd, q)
        → Step s t (record s {
          queue = q;
          threads = update s.threads t (pop_out fd);
          popped = s.popped ++ fd ∷ [];
        })
    unlock_pop :
        (fd : ℕ)
        → s.threads t ≡ pop_out fd
        → Step s t (record s { owner = none; threads = update s.threads t outside })

  abbrev pub starting : System U
  starting = record {
    queue = wq_init U;
    owner = none;
    threads = λ t. outside;
    pushed = [];
    popped = [];
  }

  -- The states that some order of steps leads to.
  pub data Reaches : System U → Type 0 where
    starts : Reaches starting
    goes : {s s' : System U} (t : ℕ) → Reaches s → Step s t s' → Reaches s'
