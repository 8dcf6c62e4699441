-- ===== src/Sudoku/Pool/Wakeup.antt =====
-- The sleepers of the pool: nobody sleeps without a worker that will wake it.
use cloudcomputing_lab2_http.Prelude.{
  ℕ, ◌≤◌, ◌≡◌, refl, subst, ◌≢◌, ◌⊎◌, inl, inr, Bool, true, Option, none, some, List, [], ◌∷◌, ◌++◌,
  arith,
}
use cloudcomputing_lab2_http.Cstr.{Bytes}
use cloudcomputing_lab2_http.Os.{update}
use cloudcomputing_lab2_http.Sudoku.Queue.{push, size}
use cloudcomputing_lab2_http.Sudoku.Tasks.{Task, Action, receive_filename}
use cloudcomputing_lab2_http.Sudoku.Pool.{
  Worker, testing, popping, running, printing, sleeping, over, notified, MainThread, active, asleep,
  System, Step, main_passes, main_sleeps, main_wakes, main_submits, main_ends, goes_on, leaves,
  takes, yields, computes, sleeps, wakes, prints, max_queue_size, Reaches, starts, goes,
}
use cloudcomputing_lab2_http.Sudoku.Pool.Held.{holding}
use cloudcomputing_lab2_http.Sudoku.Pool.Order.{IsOrdered, Reaches-IsOrdered, try_pop-none}

-- The number that a worker sleeps for.
abbrev pub sleeps_for : Worker → Option ℕ
sleeps_for (sleeping n message) = some n
sleeps_for _ = none

-- A worker that has a task.
abbrev pub AtWork : (ℕ → Worker) → Type 0
AtWork threads = (t : ℕ) × (i : ℕ) × (holding (threads t) ≡ some i)

-- No worker sleeps through its turn, and the main thread sleeps only while the queue is full or a
-- worker has a task.
pub record IsAwake (s : System) : Type 0 where
  pub turns : (t i : ℕ) → sleeps_for (s.threads t) ≡ some i → s.current_task ≢ i
  pub fed : s.main_thread ≡ asleep → (max_queue_size ≤ size s.work_queue) ⊎ AtWork s.threads

notified-awake : (worker : Worker) → sleeps_for (notified worker) ≡ none
notified-awake testing = refl
notified-awake popping = refl
notified-awake (running task) = refl
notified-awake (printing n message) = refl
notified-awake (sleeping n message) = refl
notified-awake over = refl

AtWork-update :
    (threads : ℕ → Worker) (t : ℕ) (worker : Worker)
    → holding worker ≡ holding (threads t)
    → AtWork threads
    → AtWork (update threads t worker)
AtWork-update threads t worker e (u, i, h) = (u, i, ground (arith, e, h))

module _ {s : System} (x : IsAwake s) where
  turns-update :
      (t : ℕ) (worker : Worker)
      → ((i : ℕ) → sleeps_for worker ≡ some i → s.current_task ≢ i)
      → (u i : ℕ) → sleeps_for (update s.threads t worker u) ≡ some i
      → s.current_task ≢ i
  turns-update t worker turn u i h = ground (arith, x.turns u i, turn i)

  -- A step of a worker that leaves the task that it has.
  stays :
      (t : ℕ) (worker : Worker)
      → holding worker ≡ holding (s.threads t)
      → ((i : ℕ) → sleeps_for worker ≡ some i → s.current_task ≢ i)
      → IsAwake (record s { threads = update s.threads t worker })
  stays t worker e turn = record {
    turns = turns-update t worker turn;
    fed = λ a. (elim (x.fed a) [
      | inl l ↦ inl l
      | inr w ↦ inr (AtWork-update s.threads t worker e w)
    ]);
  }

  acts :
      (done : Bool) (queue : List Task) (main_thread : MainThread) (actions : List Action)
      → (main_thread ≡ asleep → (max_queue_size ≤ size queue) ⊎ AtWork s.threads)
      → IsAwake (record s {
        done = done;
        work_queue = queue;
        main_thread = main_thread;
        actions = actions;
      })
  acts done queue main_thread actions f = record { turns = x.turns; fed = f }

Step-IsAwake : (t : ℕ) {s s' : System} → Step s t s' → IsAwake s → IsAwake s'
unfolding push
Step-IsAwake t {s = s} (main_passes later a e l) x =
    acts x s.done s.work_queue s.main_thread later (λ z. ground arith)
Step-IsAwake t {s = s} (main_sleeps later a e l) x =
    acts x s.done s.work_queue asleep s.actions (λ _. inl l)
Step-IsAwake t {s = s} (main_wakes a) x =
    acts x s.done s.work_queue active s.actions (λ z. ground arith)
Step-IsAwake t {s = s} (main_submits task later a e) x =
    acts x s.done (s.work_queue ++ (task ∷ [])) s.main_thread later (λ z. ground arith)
Step-IsAwake t {s = s} (main_ends a e) x = acts x true s.work_queue s.main_thread s.actions x.fed
Step-IsAwake t {s = s} (goes_on p d) x = stays x t popping (rw p) (λ i h. ground arith)
Step-IsAwake t {s = s} (leaves p d) x = stays x t over (rw p) (λ i h. ground arith)
Step-IsAwake t {s = s} (takes task later p e) x = record {
  turns = turns-update x t (running task) (λ i h. ground arith);
  fed = λ _. inr (t, task.task_num, ground arith);
}
Step-IsAwake t {s = s} (yields later p e) x =
    acts (stays x t testing (rw p) (λ i h. ground arith)) s.done later s.main_thread s.actions (
      subst
        (λ q.
          s.main_thread ≡ asleep → (max_queue_size ≤ size q) ⊎ AtWork (update s.threads t testing))
        (try_pop-none s.work_queue later e) (stays x t testing (rw p) (λ i h. ground arith)).fed)
Step-IsAwake t {s = s} (computes task result p) x =
    stays x t (printing task.task_num result) (rw p) (λ i h. ground arith)
Step-IsAwake t {s = s} (sleeps i message p c) x =
    stays x t (sleeping i message) (rw p) (λ j h. ground (arith, c))
Step-IsAwake t {s = s} (wakes i message p) x =
    stays x t (printing i message) (rw p) (λ j h. ground arith)
Step-IsAwake t {s = s} (prints i message p c) x = record {
  turns = λ u j h. ground (arith, notified-awake (s.threads u));
  fed = λ a. ground arith;
}

Reaches-IsAwake :
    (thread_count : ℕ) (actions : List Action) {s : System}
    → Reaches thread_count actions s
    → IsAwake s
Reaches-IsAwake thread_count actions starts = record {
  turns = λ t i e. ground arith;
  fed = λ a. ground arith;
}
Reaches-IsAwake thread_count actions (goes t r step) =
    Step-IsAwake t step (Reaches-IsAwake thread_count actions r)

sleeps-holding : (worker : Worker) (i : ℕ) → sleeps_for worker ≡ some i → holding worker ≡ some i
sleeps-holding (sleeping n message) i e = e
sleeps-holding testing i e = e
sleeps-holding popping i e = e
sleeps-holding (running task) i e = ground arith
sleeps-holding (printing n message) i e = ground arith
sleeps-holding over i e = e

not_asleep :
    (worker : Worker) (current : ℕ)
    → holding worker ≡ some current
    → ((i : ℕ) → sleeps_for worker ≡ some i → current ≢ i)
    → sleeps_for worker ≡ none
not_asleep (sleeping n message) current e turn = ground (arith, turn n)
not_asleep testing current e turn = refl
not_asleep popping current e turn = refl
not_asleep (running task) current e turn = refl
not_asleep (printing n message) current e turn = refl
not_asleep over current e turn = refl

-- A worker with the task whose turn it is, that is not asleep.
abbrev pub HasNext : System → Type 0
HasNext s =
    (t : ℕ) × (holding (s.threads t) ≡ some s.current_task) × (sleeps_for (s.threads t) ≡ none)

-- If a worker has a task, a worker has the next one, and is awake.
next_lem : {s : System} (taken : ℕ) → IsOrdered s taken → IsAwake s → AtWork s.threads → HasNext s
next_lem {s = s} taken x a (t, i, e) =
    let (l, h) = x.at_work.bounded t i e in
    let (u, e') = x.at_work.held s.current_task (omega arith) (omega (arith, l, h)) in
    (u, e', not_asleep (s.threads u) s.current_task e' (a.turns u))

-- The tasks of the words of the input, in every order of the threads' steps, with any number of
-- workers: while a worker sleeps in print_task, the task whose turn it is is with a worker that does
-- not sleep; and while the main thread sleeps in split_file, the queue is full or a task is with a
-- worker that does not sleep, whose turn it is to print and to wake all the others.
pub Reaches-awake :
    (thread_count : ℕ) (files : List (Bytes × Bytes)) (paths : List Bytes) {s : System}
    → Reaches thread_count (receive_filename files 0 paths) s
    → ((t i : ℕ) → sleeps_for (s.threads t) ≡ some i → HasNext s)
      × (s.main_thread ≡ asleep → (max_queue_size ≤ size s.work_queue) ⊎ HasNext s)
Reaches-awake thread_count files paths {s = s} r =
    let (n, x) = Reaches-IsOrdered thread_count files paths r in
    let a = Reaches-IsAwake thread_count (receive_filename files 0 paths) r in
    (
      λ t i e. next_lem n x a (t, i, sleeps-holding (s.threads t) i e),
      λ m. (elim (a.fed m) [ inl l ↦ inl l | inr w ↦ inr (next_lem n x a w) ]),
    )
