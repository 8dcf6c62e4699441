-- ===== src/Sudoku/Solving.antt =====
-- What a task computes: `task::operator()` of main.cc, over the calls of the solver.
use cloudcomputing_lab2_http.Prelude.{
  ℕ, zero, suc, ◌+◌, Bool, true, false, ◌&&◌, List, [], ◌∷◌, ◌++◌, ltb, leb, ◌==◌, if◌then◌else◌,
  length, ℤ,
}
use cloudcomputing_lab2_http.Result.{Result, ok, fault, assertion, ◌>>=◌}
use cloudcomputing_lab2_http.Cstr.{Bytes, codes}
use cloudcomputing_lab2_http.Server.Send.{print_int}
use cloudcomputing_lab2_http.Sudoku.Tasks.{Task, lines_of}

-- The names of sudoku.h that a task uses, over the memory of the solver. `cells` is the constant N.
pub record Solver : Type 1 where
  pub State : Type 0
  pub cells : ℕ
  pub init_neighbors : State → State
  pub input : Bytes → State → State
  pub init_cache : State → State
  pub solve_sudoku_dancing_links : State → Bool × State
  pub solved : State → Bool
  pub board : State → ℕ → ℤ

-- The text that `strcpy` takes from a line.
unfoldable pub c_str : Bytes → Bytes
c_str [] = []
c_str (c ∷ line) = let later = c_str line in if c == 0 then [] else c ∷ later

-- sizeof(puzzle)
abbrev pub puzzle_size : ℕ
puzzle_size = 128

module _ (S : Solver) where
  -- What is printed for a puzzle at once, and the memory behind it.
  abbrev pub checked : Bytes → Bool × S.State → Result (Bytes × S.State)
  checked puzzle (false, s) = ok (codes "No: " ++ puzzle, s)
  checked puzzle (true, s) = if S.solved s then ok ([], s) else fault assertion

  unfoldable pub solve_line : Bytes → S.State → Result (Bytes × S.State)
  solve_line line s =
      let puzzle = c_str line in
      if ltb (length line) puzzle_size && leb S.cells (length puzzle)
      then checked puzzle (S.solve_sudoku_dancing_links (S.init_cache (S.input puzzle s)))
      else ok ([], s)

  -- `n` cells from the cell `i` on.
  unfoldable pub cells_text : ℕ → ℕ → S.State → Bytes
  cells_text zero i s = []
  cells_text (suc n) i s = print_int (S.board s i) ++ cells_text n (i + 1) s

  -- The loop over the lines, from what was printed and what was computed.
  unfoldable pub line_loop :
      List Bytes → S.State → Bytes → Bytes → Result (S.State × (Bytes × Bytes))
  unfolding solve_line
  line_loop [] s printed result_data = ok (s, (printed, result_data))
  line_loop (line ∷ lines) s printed result_data = solve_line line s >>= λ (text, s').
      line_loop lines s' (printed ++ text) (result_data ++ (cells_text 81 0 s' ++ codes "\n"))

  -- The call of a task up to print_task: the memory, what was printed, and `result_data`.
  unfoldable pub task_call : Task → S.State → Result (S.State × (Bytes × Bytes))
  unfolding line_loop
  task_call task s = line_loop (lines_of task.task_data) (S.init_neighbors s) [] []
