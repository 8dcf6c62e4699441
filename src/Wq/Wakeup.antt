-- ===== src/Wq/Wakeup.antt =====
-- No wakeup is lost: who sleeps in `wq_pop` has nothing to take.
use cloudcomputing_lab2_http.Prelude.{
  ℕ, ◌≡◌, refl, ap, ◌∙◌, ◌≢◌, ◌⊎◌, inl, inr, Bool, true, false, Option, none, some, arith,
}
use cloudcomputing_lab2_http.Os.{update}
use cloudcomputing_lab2_http.Wq.{UtList, Documented}
use cloudcomputing_lab2_http.Wq.Threads.{
  Pc, outside, push_lock, push_in, push_added, push_out, pop_lock, pop_test, pop_wait, pop_wake,
  pop_out, awake, System, Step, call_push, call_pop, lock_push, add, broadcast, unlock_push,
  lock_pop, wait, wake_spuriously, lock_again, remove, unlock_pop, Reaches, starts, goes,
}
use cloudcomputing_lab2_http.Wq.Sound.{IsExclusive, Reaches-IsQueue}

awake-wait : (pc : Pc) → awake pc ≢ pop_wait
awake-wait pop_wait = ground arith
awake-wait outside = ground arith
awake-wait (push_lock fd) = ground arith
awake-wait (push_in fd) = ground arith
awake-wait push_added = ground arith
awake-wait push_out = ground arith
awake-wait pop_lock = ground arith
awake-wait pop_test = ground arith
awake-wait pop_wake = ground arith
awake-wait (pop_out fd) = ground arith

abbrev pub is_added : Pc → Bool
is_added push_added = true
is_added _ = false

-- The thread that holds the mutex is about to wake all sleepers.
abbrev pub announcing : Option ℕ → (ℕ → Pc) → Bool
announcing none threads = false
announcing (some v) threads = is_added (threads v)

-- Every thread that sleeps has nothing to take, or is about to be woken.
abbrev pub IsAwake : ℕ → Option ℕ → (ℕ → Pc) → Type 0
IsAwake size owner threads =
    (u : ℕ) → threads u ≡ pop_wait → (size ≡ 0) ⊎ (announcing owner threads ≡ true)

announcing-update :
    (owner : Option ℕ) (threads : ℕ → Pc) (t : ℕ) (pc : Pc)
    → is_added (threads t) ≡ false
    → is_added pc ≡ false
    → announcing owner (update threads t pc) ≡ announcing owner threads
announcing-update none threads t pc n n' = refl
announcing-update (some v) threads t pc n n' = ground arith

asleep-update :
    (threads : ℕ → Pc) (t : ℕ) (pc : Pc) (u : ℕ)
    → pc ≢ pop_wait
    → update threads t pc u ≡ pop_wait
    → threads u ≡ pop_wait
asleep-update threads t pc u a h = ground arith

module _ (size : ℕ) (owner : Option ℕ) (threads : ℕ → Pc) (t : ℕ)
    (w : IsAwake size owner threads) where
  -- A step outside of the mutex, by a thread that is not about to wake the others.
  apart :
      (pc pc' : Pc)
      → threads t ≡ pc
      → is_added pc ≡ false
      → pc' ≢ pop_wait
      → is_added pc' ≡ false
      → IsAwake size owner (update threads t pc')
  apart pc pc' p n a n' u h = elim (w u (asleep-update threads t pc' u a h)) [
    | inl z ↦ inl z
    | inr e ↦ inr (announcing-update owner threads t pc' (ap is_added p ∙ n) n' ∙ e)
  ]

  -- A step that takes the mutex.
  locks : (pc : Pc) → owner ≡ none → pc ≢ pop_wait → IsAwake size (some t) (update threads t pc)
  locks pc e a u h = ground (arith, w u)

  -- A sleeper while a thread holds the mutex that has woken all, or has added nothing.
  empty :
      (pc : Pc) (u : ℕ)
      → threads t ≡ pc
      → is_added pc ≡ false
      → owner ≡ some t
      → threads u ≡ pop_wait
      → size ≡ 0
  empty pc u p n o h = ground (arith, w u h)

  unlocks :
      (pc : Pc)
      → threads t ≡ pc
      → is_added pc ≡ false
      → owner ≡ some t
      → IsAwake size none (update threads t outside)
  unlocks pc p n o u h = ground (arith, empty pc u p n o)

module _ {U : UtList} where
  Step-IsAwake :
      (t : ℕ) {s s' : System U}
      → Step U s t s'
      → IsExclusive s.owner s.threads
      → IsAwake s.queue.size s.owner s.threads
      → IsAwake s'.queue.size s'.owner s'.threads
  Step-IsAwake t {s = s} (call_push fd p) x w =
      apart s.queue.size s.owner s.threads t w outside (push_lock fd) p refl (λ e. ground arith)
        refl
  Step-IsAwake t {s = s} (call_pop p) x w =
      apart s.queue.size s.owner s.threads t w outside pop_lock p refl (λ e. ground arith) refl
  Step-IsAwake t {s = s} (wake_spuriously p) x w =
      apart s.queue.size s.owner s.threads t w pop_wait pop_wake p refl (λ e. ground arith) refl
  Step-IsAwake t {s = s} (lock_push fd p o) x w =
      locks s.queue.size s.owner s.threads t w (push_in fd) o (λ e. ground arith)
  Step-IsAwake t {s = s} (lock_pop p o) x w =
      locks s.queue.size s.owner s.threads t w pop_test o (λ e. ground arith)
  Step-IsAwake t {s = s} (lock_again p o) x w =
      locks s.queue.size s.owner s.threads t w pop_test o (λ e. ground arith)
  Step-IsAwake t {s = s} (add fd q p e) x w =
      λ u h. let o : s.owner ≡ some t = x t (rw p) in inr (rw o (ground arith))
  Step-IsAwake t {s = s} (broadcast p) x w = λ u h. ground (arith, awake-wait (s.threads u))
  Step-IsAwake t {s = s} (unlock_push p) x w =
      unlocks s.queue.size s.owner s.threads t w push_out p refl (x t (rw p))
  Step-IsAwake t {s = s} (wait p z) x w = λ u h. inl z
  Step-IsAwake t {s = s} (remove fd q p z e) x w = λ u h.
      absurd
        (z (empty s.queue.size s.owner s.threads t w pop_test u p refl (x t (rw p)) (ground arith)))
  Step-IsAwake t {s = s} (unlock_pop fd p) x w =
      unlocks s.queue.size s.owner s.threads t w (pop_out fd) p refl (x t (rw p))

  -- In every state that some order of the threads' steps reaches, spurious wakeups included, if the
  -- list macros do what they document: a thread that sleeps in `wq_pop` finds the queue empty, or
  -- the thread that holds the mutex has added an item and is about to wake every sleeper.
  pub Reaches-IsAwake :
      (D : Documented U) {s : System U} → Reaches U s → IsAwake s.queue.size s.owner s.threads
  Reaches-IsAwake D starts = λ u h. inl refl
  Reaches-IsAwake D (goes t r st) = Step-IsAwake t st (Reaches-IsQueue D r).0 (Reaches-IsAwake D r)
