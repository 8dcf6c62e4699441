-- ===== src/Wq/Sound.antt =====
-- What holds of the queue in every order of the threads' steps.
use cloudcomputing_lab2_http.Prelude.{
  ℕ, ◌-◌, ◌≡◌, refl, sym, subst, ◌∙◌, ◌≢◌, true, false, Option, none, some, List, [], ◌∷◌, ◌++◌,
  append_assoc, arith, length, length-append,
}
use cloudcomputing_lab2_http.Result.{Result, ok, fault}
use cloudcomputing_lab2_http.Os.{update}
use cloudcomputing_lab2_http.Wq.{UtList, Documented, Wq, wq_push, wq_pop}
use cloudcomputing_lab2_http.Wq.Threads.{
  Pc, outside, push_lock, push_in, push_added, push_out, pop_lock, pop_test, pop_wait, pop_wake,
  pop_out, inside, awake, System, Step, call_push, call_pop, lock_push, add, broadcast, unlock_push,
  lock_pop, wait, wake_spuriously, lock_again, remove, unlock_pop, Reaches, starts, goes,
}

-- The threads between lock and unlock are the owner.
abbrev pub IsExclusive : Option ℕ → (ℕ → Pc) → Type 0
IsExclusive owner threads = (u : ℕ) → inside (threads u) ≡ true → owner ≡ some u

awake-inside : (pc : Pc) → inside (awake pc) ≡ inside pc
awake-inside pop_wait = refl
awake-inside outside = refl
awake-inside (push_lock fd) = refl
awake-inside (push_in fd) = refl
awake-inside push_added = refl
awake-inside push_out = refl
awake-inside pop_lock = refl
awake-inside pop_test = refl
awake-inside pop_wake = refl
awake-inside (pop_out fd) = refl

module _ (owner : Option ℕ) (threads : ℕ → Pc) (t : ℕ) (x : IsExclusive owner threads) where
  -- A step that leaves the mutex alone, and does not get inside without it.
  stays : (pc : Pc) → (inside pc ≡ true → owner ≡ some t) → IsExclusive owner (update threads t pc)
  stays pc allowed u h = ground (arith, x u)

  acquires : (pc : Pc) → owner ≡ none → IsExclusive (some t) (update threads t pc)
  acquires pc o u h = ground (arith, x u)

  releases :
      (pc : Pc)
      → inside (threads t) ≡ true
      → inside pc ≡ false
      → IsExclusive none (update threads t pc)
  releases pc i n u h = ground (arith, x u, x t)

module _ {U : UtList} where
  Step-IsExclusive :
      (t : ℕ) {s s' : System U}
      → Step U s t s'
      → IsExclusive s.owner s.threads
      → IsExclusive s'.owner s'.threads
  Step-IsExclusive t {s = s} (call_push fd p) x =
      stays s.owner s.threads t x (push_lock fd) (λ h. ground arith)
  Step-IsExclusive t {s = s} (call_pop p) x =
      stays s.owner s.threads t x pop_lock (λ h. ground arith)
  Step-IsExclusive t {s = s} (lock_push fd p o) x = acquires s.owner s.threads t x (push_in fd) o
  Step-IsExclusive t {s = s} (add fd q p e) x =
      stays s.owner s.threads t x push_added (λ _. x t (rw p))
  Step-IsExclusive t {s = s} (broadcast p) x =
      stays s.owner (λ u. awake (s.threads u)) t (λ u h. x u (sym (awake-inside (s.threads u)) ∙ h))
        push_out (λ _. x t (rw p))
  Step-IsExclusive t {s = s} (unlock_push p) x = releases s.owner s.threads t x outside (rw p) refl
  Step-IsExclusive t {s = s} (lock_pop p o) x = acquires s.owner s.threads t x pop_test o
  Step-IsExclusive t {s = s} (wait p z) x = releases s.owner s.threads t x pop_wait (rw p) refl
  Step-IsExclusive t {s = s} (wake_spuriously p) x =
      stays s.owner s.threads t x pop_wake (λ h. ground arith)
  Step-IsExclusive t {s = s} (lock_again p o) x = acquires s.owner s.threads t x pop_test o
  Step-IsExclusive t {s = s} (remove fd q p z e) x =
      stays s.owner s.threads t x (pop_out fd) (λ _. x t (rw p))
  Step-IsExclusive t {s = s} (unlock_pop fd p) x =
      releases s.owner s.threads t x outside (rw p) refl

  module _ (D : Documented U) where
    -- The size is the number of items, and what went in is what came out and what is still there.
    abbrev pub IsQueue : Wq U → List ℕ → List ℕ → Type 0
    IsQueue q pushed popped =
        (q.size ≡ length (D.contents q.head)) × (pushed ≡ popped ++ D.contents q.head)

    wq_push-IsQueue :
        (q q' : Wq U) (pushed popped : List ℕ) (fd : ℕ)
        → wq_push U fd q ≡ ok q'
        → IsQueue q pushed popped
        → IsQueue q' (pushed ++ fd ∷ []) popped
    unfolding wq_push
    wq_push-IsQueue q q' pushed popped fd e (n, o) = ground (
      arith,
      D.contents-append q.head fd,
      length-append (D.contents q.head) (fd ∷ []),
      append_assoc popped (D.contents q.head) (fd ∷ []),
    )

    -- The oldest item comes out, with no fault.
    abbrev pub Leaves : List ℕ → List ℕ → Result (ℕ × Wq U) → Type 0
    Leaves pushed popped (ok (fd, q)) = IsQueue q pushed (popped ++ fd ∷ [])
    Leaves pushed popped (fault reason) = ⊥

    wq_pop_lem :
        (q : Wq U) (fd : ℕ) (fds : List ℕ)
        → D.contents q.head ≡ fd ∷ fds
        → wq_pop U q ≡ ok (fd, record { size = q.size - 1; head = U.delete_first q.head })
    unfolding wq_pop
    wq_pop_lem q fd fds e =
        let is_first : U.first q.head ≡ some fd = D.first-contents q.head ∙ rw e in ground arith

    -- `head` is not NULL where the size is not 0.
    wq_pop-Leaves :
        (q : Wq U) (pushed popped fds : List ℕ)
        → D.contents q.head ≡ fds
        → q.size ≢ 0
        → IsQueue q pushed popped
        → Leaves pushed popped (wq_pop U q)
    wq_pop-Leaves q pushed popped [] e z (n, o) = absurd (z (n ∙ rw e))
    wq_pop-Leaves q pushed popped (fd ∷ fds) e z (n, o) =
        let e' = D.contents-delete_first q.head fd fds e in
        let left : IsQueue (record { size = q.size - 1; head = U.delete_first q.head }) pushed
            (popped ++ fd ∷ []) =
          (ground arith, o ∙ rw (e, e') (sym (append_assoc popped (fd ∷ []) fds))) in
        subst (Leaves pushed popped) (sym (wq_pop_lem q fd fds e)) left

    Step-IsQueue :
        (t : ℕ) {s s' : System U}
        → Step U s t s'
        → IsQueue s.queue s.pushed s.popped
        → IsQueue s'.queue s'.pushed s'.popped
    Step-IsQueue t (call_push fd p) i = i
    Step-IsQueue t (call_pop p) i = i
    Step-IsQueue t (lock_push fd p o) i = i
    Step-IsQueue t {s = s} (add fd q p e) i = wq_push-IsQueue s.queue q s.pushed s.popped fd e i
    Step-IsQueue t (broadcast p) i = i
    Step-IsQueue t (unlock_push p) i = i
    Step-IsQueue t (lock_pop p o) i = i
    Step-IsQueue t (wait p z) i = i
    Step-IsQueue t (wake_spuriously p) i = i
    Step-IsQueue t (lock_again p o) i = i
    Step-IsQueue t {s = s} (remove fd q p z e) i =
        subst (Leaves s.pushed s.popped) e
          (wq_pop-Leaves s.queue s.pushed s.popped (D.contents s.queue.head) refl z i)
    Step-IsQueue t (unlock_pop fd p) i = i

    -- In every state that some order of the threads' steps reaches, if the list macros do what they
    -- document: at most one thread is between lock and unlock, the one that owns the mutex; the size
    -- is the number of items; and the clients that were pushed are the ones that were popped followed
    -- by the ones in the queue, in the same order. So none is lost, doubled or overtaken.
    pub Reaches-IsQueue :
        {s : System U}
        → Reaches U s
        → IsExclusive s.owner s.threads × IsQueue s.queue s.pushed s.popped
    Reaches-IsQueue starts = (λ u h. ground arith, (rw D.contents-null, rw D.contents-null))
    Reaches-IsQueue (goes t r st) =
        let (x, i) = Reaches-IsQueue r in (Step-IsExclusive t st x, Step-IsQueue t st i)

    -- In every state that is reached, if the size is not 0 then the part of `wq_pop` behind its loop
    -- does not follow a NULL pointer: it takes the oldest client that was pushed and not popped.
    pub Reaches-pop :
        {s : System U}
        → Reaches U s
        → s.queue.size ≢ 0
        → (fd : ℕ) × (fds : List ℕ) × (s.pushed ≡ s.popped ++ fd ∷ fds)
          × (wq_pop U s.queue
              ≡ ok (fd, record { size = s.queue.size - 1; head = U.delete_first s.queue.head }))
    Reaches-pop {s = s} r z = oldest (D.contents s.queue.head) refl
      where
        oldest :
            (fds : List ℕ)
            → D.contents s.queue.head ≡ fds
            → (fd : ℕ) × (fds : List ℕ) × (s.pushed ≡ s.popped ++ fd ∷ fds)
              × (wq_pop U s.queue
                  ≡ ok (fd, record { size = s.queue.size - 1; head = U.delete_first s.queue.head }))
        oldest [] e = absurd (z ((Reaches-IsQueue r).1.0 ∙ rw e))
        oldest (fd ∷ fds) e = (fd, fds, (Reaches-IsQueue r).1.1 ∙ rw e, wq_pop_lem s.queue fd fds e)
