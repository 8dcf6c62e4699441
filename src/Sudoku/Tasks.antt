-- ===== src/Sudoku/Tasks.antt =====
-- The tasks of main.cc: how the files of puzzles are cut into them, and what a task computes.
pub mod Chunks
use cloudcomputing_lab2_http.Prelude.{
  ℕ, ◌+◌, Option, none, some, List, [], ◌∷◌, ◌++◌, leb, ◌==◌, if◌then◌else◌,
}
use cloudcomputing_lab2_http.Cstr.{Bytes, codes}
use cloudcomputing_lab2_http.Os.{lookup}

-- `struct task` before its call; the number is an `int`, and stays below 2^31 tasks.
pub record Task : Type 0 where
  pub task_num : ℕ
  pub task_data : Bytes

-- What the main thread does to the pool: it waits until the queue has space, or submits.
pub data Action : Type 0 where
  waits : Action
  submits : (new_task : Task) → Action

abbrev pub lines_per_chunk : ℕ
lines_per_chunk = 5000

add_to_line : ℕ → List Bytes → List Bytes
add_to_line c [] = (c ∷ []) ∷ []
add_to_line c (line ∷ lines) = (c ∷ line) ∷ lines

-- The lines that `std::getline` gives: a last one without a newline counts if it is not empty.
unfoldable pub lines_of : Bytes → List Bytes
unfolding add_to_line
lines_of [] = []
lines_of (c ∷ s) = let later = lines_of s in if c == b'\n' then [] ∷ later else add_to_line c later

-- What is behind the loop: the lines that are left, if any.
abbrev pub last_chunk : Bytes → ℕ → List Action × ℕ
last_chunk [] task_num = ([], task_num)
last_chunk (c ∷ s) task_num =
    (waits ∷ submits (record { task_num = task_num + 1; task_data = c ∷ s }) ∷ [], task_num + 1)

-- The loop over the lines: the actions, and the number of the last task.
unfoldable pub split_loop : ℕ → Bytes → ℕ → List Bytes → List Action × ℕ
split_loop line_count chunk task_num [] = last_chunk chunk task_num
split_loop line_count chunk task_num (line ∷ lines) =
    let chunk' = chunk ++ (line ++ codes "\n") in
    let full = split_loop 0 [] (task_num + 1) lines in
    let not_full = split_loop (line_count + 1) chunk' task_num lines in
    if leb lines_per_chunk (line_count + 1)
    then (submits (record { task_num = task_num + 1; task_data = chunk' }) ∷ waits ∷ full.0, full.1)
    else (waits ∷ not_full.0, not_full.1)

-- `split_file` on the contents, or NULL for a file that cannot be opened.
unfoldable pub split_file : Option Bytes → ℕ → List Action × ℕ
unfolding split_loop lines_of
split_file none task_num = ([], task_num)
split_file (some contents) task_num = split_loop 0 [] task_num (lines_of contents)

-- `receive_filename` on the words of the input; the number of the tasks goes on from file to file.
unfoldable pub receive_filename : List (Bytes × Bytes) → ℕ → List Bytes → List Action
unfolding split_file
receive_filename files task_num [] = []
receive_filename files task_num (path ∷ paths) =
    let first = split_file (lookup path files) task_num in
    first.0 ++ receive_filename files first.1 paths
