-- ===== src/Sudoku/Pool.antt =====
-- `thread_pool` of thread_pool.cc with the main thread of main.cc and `print_task`: the workers, the
-- mutex `mtx` with its condition variable `cv`, and every order of the threads' steps.
pub mod Held
pub mod Order
pub mod Wakeup
pub mod Size
use cloudcomputing_lab2_http.Prelude.{
  ℕ, ◌+◌, ◌≤◌, ◌<◌, ◌≡◌, ◌≢◌, Bool, true, false, none, some, List, [], ◌∷◌, ◌++◌, ltb,
  if◌then◌else◌,
}
use cloudcomputing_lab2_http.Cstr.{Bytes}
use cloudcomputing_lab2_http.Os.{update}
use cloudcomputing_lab2_http.Sudoku.Queue.{push, try_pop, size}
use cloudcomputing_lab2_http.Sudoku.Tasks.{Task, Action, waits, submits}

abbrev pub max_queue_size : ℕ
max_queue_size = 100

-- Where a worker is.
pub data Worker : Type 0 where
  testing : Worker  -- at the test of `while(!done)`
  popping : Worker  -- before try_pop
  running : (task : Task) → Worker  -- in the call of the task, up to print_task
  printing : (task_num : ℕ) (message : Bytes) → Worker  -- in print_task, at the test of cv.wait
  sleeping : (task_num : ℕ) (message : Bytes) → Worker  -- asleep in cv.wait
  over : Worker

-- Where the main thread is, before the next of its actions.
pub data MainThread : Type 0 where
  active : MainThread
  asleep : MainThread  -- in cv.wait of split_file

-- cv.notify_all
abbrev pub notified : Worker → Worker
notified (sleeping n message) = printing n message
notified worker = worker

-- `output` holds what was printed, with the numbers of the tasks; `actions` is what the main thread
-- has still to do.
pub record System : Type 0 where
  pub done : Bool
  pub work_queue : List Task
  pub threads : ℕ → Worker
  pub current_task : ℕ
  pub output : List (ℕ × Bytes)
  pub main_thread : MainThread
  pub actions : List Action

-- One step of a thread; `t` is the worker, if it is one. Between a test of a wait and the sleep, and
-- between the test and the end of print_task, `mtx` is held, so each of these is one step.
pub data Step (s : System) (t : ℕ) : System → Type 0 where
  main_passes :
      (later : List Action)
      → s.main_thread ≡ active
      → s.actions ≡ waits ∷ later
      → size s.work_queue < max_queue_size
      → Step s t (record s { actions = later })
  main_sleeps :
      (later : List Action)
      → s.main_thread ≡ active
      → s.actions ≡ waits ∷ later
      → max_queue_size ≤ size s.work_queue
      → Step s t (record s { main_thread = asleep })
  main_wakes : s.main_thread ≡ asleep → Step s t (record s { main_thread = active })
  main_submits :
      (new_task : Task) (later : List Action)
      → s.main_thread ≡ active
      → s.actions ≡ submits new_task ∷ later
      → Step s t (record s { work_queue = push new_task s.work_queue; actions = later })
  main_ends : s.main_thread ≡ active → s.actions ≡ [] → Step s t (record s { done = true })
  goes_on :
      s.threads t ≡ testing
      → s.done ≡ false
      → Step s t (record s { threads = update s.threads t popping })
  leaves :
      s.threads t ≡ testing
      → s.done ≡ true
      → Step s t (record s { threads = update s.threads t over })
  takes :
      (task : Task) (later : List Task)
      → s.threads t ≡ popping
      → try_pop s.work_queue ≡ (some task, later)
      → Step s t (record s { work_queue = later; threads = update s.threads t (running task) })
  yields :
      (later : List Task)
      → s.threads t ≡ popping
      → try_pop s.work_queue ≡ (none, later)
      → Step s t (record s { work_queue = later; threads = update s.threads t testing })
  computes :
      (task : Task) (result_data : Bytes)
      → s.threads t ≡ running task
      → Step s t (record s { threads = update s.threads t (printing task.task_num result_data) })
  sleeps :
      (task_num : ℕ) (message : Bytes)
      → s.threads t ≡ printing task_num message
      → s.current_task ≢ task_num
      → Step s t (record s { threads = update s.threads t (sleeping task_num message) })
  wakes :
      (task_num : ℕ) (message : Bytes)
      → s.threads t ≡ sleeping task_num message
      → Step s t (record s { threads = update s.threads t (printing task_num message) })
  prints :
      (task_num : ℕ) (message : Bytes)
      → s.threads t ≡ printing task_num message
      → s.current_task ≡ task_num
      → Step s t (record s {
        threads = update (λ u. notified (s.threads u)) t testing;
        current_task = s.current_task + 1;
        output = s.output ++ ((task_num, message) ∷ []);
        main_thread = active;
      })

-- `thread_count` workers, and a main thread with its actions.
abbrev pub starting : ℕ → List Action → System
starting thread_count actions = record {
  done = false;
  work_queue = [];
  threads = λ t. if ltb t thread_count then testing else over;
  current_task = 1;
  output = [];
  main_thread = active;
  actions = actions;
}

-- The states that some order of steps leads to.
pub data Reaches (thread_count : ℕ) (actions : List Action) : System → Type 0 where
  starts : Reaches thread_count actions (starting thread_count actions)
  goes :
      {s s' : System} (t : ℕ)
      → Reaches thread_count actions s
      → Step s t s'
      → Reaches thread_count actions s'
