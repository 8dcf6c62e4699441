-- ===== src/Tests/SudokuRuns.antt =====
-- The sudoku pool at a concrete input.
use cloudcomputing_lab2_http.Prelude.{
  ℕ, ◌≤◌, ◌<◌, ◌≡◌, refl, sym, subst, ◌⊎◌, true, some, List, [], ◌∷◌, ◌++◌, arith, length, pos,
}
use cloudcomputing_lab2_http.Cstr.{Bytes, codes, strcmp_eq}
use cloudcomputing_lab2_http.Os.{update, lookup}
use cloudcomputing_lab2_http.Sudoku.Queue.{push, try_pop, size}
use cloudcomputing_lab2_http.Sudoku.Tasks.{
  Task, Action, waits, submits, lines_of, split_loop, split_file, receive_filename,
}
use cloudcomputing_lab2_http.Sudoku.Tasks.Chunks.{
  tasks_of, numbered, all_groups, receive_filename-submits,
}
use cloudcomputing_lab2_http.Sudoku.Pool.{
  popping, running, printing, sleeping, active, asleep, System, main_passes, main_submits,
  main_ends, goes_on, takes, sleeps, computes, max_queue_size, starting, Reaches, starts, goes,
}
use cloudcomputing_lab2_http.Sudoku.Solving.{Solver}
use cloudcomputing_lab2_http.Prelude.{pos, true, length}
use cloudcomputing_lab2_http.Sudoku.Pool.Order.{IsOrdered, Reaches-IsOrdered}
use cloudcomputing_lab2_http.Sudoku.Pool.Wakeup.{HasNext, sleeps_for, Reaches-awake}
use cloudcomputing_lab2_http.Sudoku.Pool.Size.{Reaches-size}

-- One file with two puzzles, asked for twice, and a word with no file.
abbrev files : List (Bytes × Bytes)
files = (codes "a", codes "1\n2") ∷ []

abbrev paths : List Bytes
paths = codes "a" ∷ codes "b" ∷ codes "a" ∷ []

abbrev first_task : Task
first_task = record { task_num = 1; task_data = codes "1\n2\n" }

abbrev second_task : Task
second_task = record { task_num = 2; task_data = codes "1\n2\n" }

abbrev one_file : Task → List Action
one_file task = waits ∷ waits ∷ waits ∷ submits task ∷ []

abbrev actions : List Action
actions = one_file first_task ++ one_file second_task

actions_run : receive_filename files 0 paths ≡ actions
unfolding receive_filename split_file split_loop lines_of lookup strcmp_eq
actions_run = refl

receive_filename-submits_example :
    tasks_of (receive_filename files 0 paths) ≡ numbered 1 (all_groups files paths)
receive_filename-submits_example = receive_filename-submits files 0 paths

abbrev row : Bytes
row = codes "12\n"

-- Both tasks are submitted; the first worker has the first one, and the second sleeps with the other.
abbrev at_work : System
at_work = record {
  done = true;
  work_queue = [];
  threads =
      update
        (update
          (update
            (update (update (update (starting 2 actions).threads 0 popping) 0 (running first_task))
              1 popping)
            1 (running second_task))
          1 (printing 2 row))
        1 (sleeping 2 row);
  current_task = 1;
  output = [];
  main_thread = active;
  actions = [];
}

-- A file read, from any state in which it is next.
file_read :
    (todo later : List Action) (s : System) (task : Task)
    → Reaches 2 todo s
    → s.main_thread ≡ active
    → s.actions ≡ one_file task ++ later
    → size s.work_queue < max_queue_size
    → Reaches 2 todo (record s { work_queue = push task s.work_queue; actions = later })
file_read todo later s task r a e l =
    goes 0
      (goes 0 (goes 0 (goes 0 r (main_passes _ a e l)) (main_passes _ a refl l))
        (main_passes _ a refl l))
      (main_submits task later a refl)

both_read :
    Reaches 2 actions
      (record (starting 2 actions) { work_queue = first_task ∷ second_task ∷ []; actions = [] })
unfolding push size
both_read =
    file_read actions []
      (record (starting 2 actions) { work_queue = first_task ∷ []; actions = one_file second_task })
      second_task
      (file_read actions (one_file second_task) (starting 2 actions) first_task starts refl refl
        (omega arith))
      refl refl (omega arith)

reached : Reaches 2 actions at_work
unfolding try_pop
reached =
    goes 1
      (goes 1
        (goes 1
          (goes 1
            (goes 1
              (goes 0 (goes 0 both_read (goes_on refl refl))
                (takes first_task (second_task ∷ []) refl refl))
              (goes_on refl refl))
            (main_ends refl refl))
          (takes second_task [] refl refl))
        (computes second_task row refl))
      (sleeps 2 row refl (ground arith))

received : Reaches 2 (receive_filename files 0 paths) at_work
received = subst (λ todo. Reaches 2 todo at_work) (sym actions_run) reached

Reaches-IsOrdered_example : (taken : ℕ) × IsOrdered at_work taken
Reaches-IsOrdered_example = Reaches-IsOrdered 2 files paths received

Reaches-awake_example :
    ((t i : ℕ) → sleeps_for (at_work.threads t) ≡ some i → HasNext at_work)
    × (active ≡ asleep → (max_queue_size ≤ size at_work.work_queue) ⊎ HasNext at_work)
Reaches-awake_example = Reaches-awake 2 files paths received

Reaches-size_example : size at_work.work_queue ≤ max_queue_size
Reaches-size_example = Reaches-size 2 files paths received

-- A solver that answers yes to puzzles that start with '1', and whose cells are the puzzle's length.
abbrev solver : Solver
solver = record {
  State = Bytes;
  cells = 2;
  init_neighbors = λ s. [];
  input = λ puzzle s. puzzle;
  init_cache = λ s. s;
  solve_sudoku_dancing_links = λ s. (strcmp_eq s (codes "12"), s);
  solved = λ s. strcmp_eq s (codes "12");
  board = λ s i. pos (length s);
}

-- A puzzle, a line that is too short, and a puzzle without a solution.
abbrev solving : Task
solving = record { task_num = 1; task_data = codes "12\n1\n345" }
