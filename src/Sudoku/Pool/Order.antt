-- ===== src/Sudoku/Pool/Order.antt =====
-- What holds of the pool in every order of the threads' steps.
use cloudcomputing_lab2_http.Prelude.{
  ℕ, zero, suc, ◌+◌, ◌-◌, ◌≤◌, ◌≡◌, refl, sym, ap, subst, ◌∙◌, ◌≢◌, Bool, true, none, some, List,
  [], ◌∷◌, ◌++◌, append_assoc, arith, ltb, if◌then◌else◌,
}
use std.Path.{ap₂}
use cloudcomputing_lab2_http.Cstr.{Bytes}
use cloudcomputing_lab2_http.Os.{update}
use cloudcomputing_lab2_http.Sudoku.Queue.{push, try_pop}
use cloudcomputing_lab2_http.Sudoku.Tasks.{Task, Action, receive_filename}
use cloudcomputing_lab2_http.Sudoku.Tasks.Chunks.{
  tasks_of, numbered, all_groups, receive_filename-submits,
}
use cloudcomputing_lab2_http.Sudoku.Pool.{
  Worker, testing, popping, running, printing, sleeping, over, notified, MainThread, active, asleep,
  System, Step, main_passes, main_sleeps, main_wakes, main_submits, main_ends, goes_on, leaves,
  takes, yields, computes, sleeps, wakes, prints, starting, Reaches, starts, goes,
}
use cloudcomputing_lab2_http.Sudoku.Pool.Held.{
  IsHeld, holding, notified-IsHeld, keeps, gains, loses,
}

-- Tasks that are numbered from `n` without a gap.
unfoldable pub Consecutive : ℕ → List Task → Type 0
Consecutive n [] = Unit
Consecutive n (task ∷ tasks) = (task.task_num ≡ n) × Consecutive (n + 1) tasks

-- 1, 2, …, n
unfoldable pub count : ℕ → List ℕ
count zero = []
count (suc n) = count n ++ (suc n ∷ [])

-- The numbers of the tasks that were printed, in order.
unfoldable pub printed_numbers : List (ℕ × Bytes) → List ℕ
printed_numbers [] = []
printed_numbers ((n, message) ∷ output) = n ∷ printed_numbers output

-- `taken` tasks left the queue.
pub record IsOrdered (s : System) (taken : ℕ) : Type 0 where
  pub positive : 1 ≤ s.current_task
  pub behind : s.current_task ≤ taken + 1
  pub in_order : printed_numbers s.output ≡ count (s.current_task - 1)
  pub queued : Consecutive (taken + 1) (s.work_queue ++ tasks_of s.actions)
  pub at_work : IsHeld s.current_task taken s.threads

numbered-Consecutive : (n : ℕ) (gs : List (List Bytes)) → Consecutive n (numbered n gs)
unfolding Consecutive numbered
numbered-Consecutive n [] = tt
numbered-Consecutive n (g ∷ gs) = (refl, numbered-Consecutive (n + 1) gs)

printed-append :
    (output : List (ℕ × Bytes)) (n : ℕ) (message : Bytes)
    → printed_numbers (output ++ ((n, message) ∷ [])) ≡ printed_numbers output ++ (n ∷ [])
unfolding printed_numbers
printed-append [] n message = refl
printed-append ((m, text) ∷ output) n message = ap (λ ms. m ∷ ms) (printed-append output n message)

count-last : (n : ℕ) → 1 ≤ n → count (n - 1) ++ (n ∷ []) ≡ count (n + 1 - 1)
unfolding count
count-last zero h = absurd (omega arith)
count-last (suc n) h =
    let e : suc n + 1 - 1 ≡ suc n = omega arith in
    let e' : suc n - 1 ≡ n = omega arith in rw (e, e')

pub try_pop-some :
    (queue : List Task) (task : Task) (later : List Task)
    → try_pop queue ≡ (some task, later)
    → queue ≡ task ∷ later
unfolding try_pop
try_pop-some [] task later e = ground arith
try_pop-some (front ∷ rest) task later e = ground arith

pub try_pop-none : (queue later : List Task) → try_pop queue ≡ (none, later) → queue ≡ later
unfolding try_pop
try_pop-none [] later e = ground arith
try_pop-none (front ∷ rest) later e = ground arith

starting-IsOrdered :
    (thread_count : ℕ) (actions : List Action)
    → Consecutive 1 (tasks_of actions)
    → IsOrdered (starting thread_count actions) 0
unfolding count printed_numbers
starting-IsOrdered thread_count actions c =
    let idle : (t i : ℕ) → holding (if ltb t thread_count then testing else over) ≢ some i =
      λ t i e. ground arith in
    record {
      positive = omega arith;
      behind = omega arith;
      in_order = refl;
      queued = c;
      at_work = record {
        held = λ i l h. absurd (omega (arith, l, h));
        bounded = λ t i e. absurd (idle t i e);
        unique = λ t u i e e'. absurd (idle t i e);
      };
    }

module _ {s : System} {n : ℕ} (x : IsOrdered s n) where
  -- A step of the worker `t` that neither takes nor prints a task.
  stays :
      (t : ℕ) (worker : Worker)
      → holding worker ≡ holding (s.threads t)
      → IsOrdered (record s { threads = update s.threads t worker }) n
  stays t worker e = record {
    positive = x.positive;
    behind = x.behind;
    in_order = x.in_order;
    queued = x.queued;
    at_work = keeps s.current_task n s.threads t worker x.at_work e;
  }

  -- A step of the main thread; the tasks that are queued or will be are the same.
  acts :
      (done : Bool) (queue : List Task) (main_thread : MainThread) (actions : List Action)
      → s.work_queue ++ tasks_of s.actions ≡ queue ++ tasks_of actions
      → IsOrdered
          (record s {
            done = done;
            work_queue = queue;
            main_thread = main_thread;
            actions = actions;
          })
          n
  acts done queue main_thread actions e = record {
    positive = x.positive;
    behind = x.behind;
    in_order = x.in_order;
    queued = subst (Consecutive (n + 1)) e x.queued;
    at_work = x.at_work;
  }

  pop_lem :
      (t : ℕ) (task : Task) (later : List Task)
      → s.threads t ≡ popping
      → s.work_queue ≡ task ∷ later
      → IsOrdered
          (record s { work_queue = later; threads = update s.threads t (running task) })
          (n + 1)
  unfolding Consecutive
  pop_lem t task later p e =
      let (number, others) =
        subst (λ q. Consecutive (n + 1) (q ++ tasks_of s.actions)) e x.queued in
      record {
        positive = x.positive;
        behind = ground (arith, x.behind);
        in_order = x.in_order;
        queued = others;
        at_work =
            gains s.current_task n s.threads t (running task) x.at_work (rw p) (ap some number)
              x.behind;
      }

  print_lem :
      (t i : ℕ) (message : Bytes)
      → s.threads t ≡ printing i message
      → s.current_task ≡ i
      → IsOrdered
          (record s {
            threads = update (λ u. notified (s.threads u)) t testing;
            current_task = s.current_task + 1;
            output = s.output ++ ((i, message) ∷ []);
            main_thread = active;
          })
          n
  print_lem t i message p c =
      let mine : holding (s.threads t) ≡ some s.current_task = rw (p, c) in
      record {
        positive = omega (arith, x.positive);
        behind = (let h = (x.at_work.bounded t s.current_task mine).1 in omega (arith, h));
        in_order =
            printed-append s.output i message
            ∙ ap₂ (λ ns k. ns ++ (k ∷ [])) x.in_order (sym c)
            ∙ count-last s.current_task x.positive;
        queued = x.queued;
        at_work =
            loses s.current_task n (λ u. notified (s.threads u)) t testing
              (notified-IsHeld s.current_task n s.threads x.at_work) (rw (p, c)) refl;
      }

Step-IsOrdered :
    (t : ℕ) {s s' : System} (n : ℕ) → Step s t s' → IsOrdered s n → (taken : ℕ) × IsOrdered s' taken
unfolding push tasks_of
Step-IsOrdered t {s = s} n (main_passes later a e l) x = (
  n,
  acts x s.done s.work_queue s.main_thread later
      (ap (λ actions. s.work_queue ++ tasks_of actions) e),
)
Step-IsOrdered t {s = s} n (main_sleeps later a e l) x =
    (n, acts x s.done s.work_queue asleep s.actions refl)
Step-IsOrdered t {s = s} n (main_wakes a) x = (n, acts x s.done s.work_queue active s.actions refl)
Step-IsOrdered t {s = s} n (main_submits task later a e) x = (
  n,
  acts x s.done (s.work_queue ++ (task ∷ [])) s.main_thread later (
      ap (λ actions. s.work_queue ++ tasks_of actions) e
      ∙ sym (append_assoc s.work_queue (task ∷ []) (tasks_of later))),
)
Step-IsOrdered t {s = s} n (main_ends a e) x =
    (n, acts x true s.work_queue s.main_thread s.actions refl)
Step-IsOrdered t {s = s} n (goes_on p d) x = (n, stays x t popping (rw p))
Step-IsOrdered t {s = s} n (leaves p d) x = (n, stays x t over (rw p))
Step-IsOrdered t {s = s} n (takes task later p e) x =
    (n + 1, pop_lem x t task later p (try_pop-some s.work_queue task later e))
Step-IsOrdered t {s = s} n (yields later p e) x = (
  n,
  acts (stays x t testing (rw p)) s.done later s.main_thread s.actions
      (ap (λ q. q ++ tasks_of s.actions) (try_pop-none s.work_queue later e)),
)
Step-IsOrdered t {s = s} n (computes task result p) x =
    (n, stays x t (printing task.task_num result) (rw p))
Step-IsOrdered t {s = s} n (sleeps i message p c) x = (n, stays x t (sleeping i message) (rw p))
Step-IsOrdered t {s = s} n (wakes i message p) x = (n, stays x t (printing i message) (rw p))
Step-IsOrdered t {s = s} n (prints i message p c) x = (n, print_lem x t i message p c)

-- The tasks of the words of the input, in every order of the threads' steps, with any number of
-- workers and whatever the tasks compute: what was printed are the results of the tasks 1, 2, … up to
-- the one before `current_task`, in this order and each once; each task from `current_task` to the
-- last one that was taken from the queue is with one worker, and no other is; and the queue with what
-- is still to be submitted are the tasks behind, in order.
pub Reaches-IsOrdered :
    (thread_count : ℕ) (files : List (Bytes × Bytes)) (paths : List Bytes) {s : System}
    → Reaches thread_count (receive_filename files 0 paths) s
    → (taken : ℕ) × IsOrdered s taken
Reaches-IsOrdered thread_count files paths starts = (
  0,
  starting-IsOrdered thread_count (receive_filename files 0 paths) (
      subst (Consecutive 1) (sym (receive_filename-submits files 0 paths))
        (numbered-Consecutive 1 (all_groups files paths))),
)
Reaches-IsOrdered thread_count files paths (goes t r step) =
    let (n, x) = Reaches-IsOrdered thread_count files paths r in Step-IsOrdered t n step x
