-- ===== src/Sudoku/Queue.antt =====
-- `threadsafe_queue` of threadsafe_queue.cc. Each operation holds the mutex from its first to its last
-- line, so it is one step; the `std::queue` is a list, the oldest item first.
use cloudcomputing_lab2_http.Prelude.{
  ℕ, Bool, true, false, Option, none, some, List, [], ◌∷◌, ◌++◌, length,
}

module _ {A : Type 0} where
  unfoldable pub push : A → List A → List A
  push new_value data_queue = data_queue ++ (new_value ∷ [])

  -- Both overloads: nothing is NULL, or `false`.
  unfoldable pub try_pop : List A → Option A × List A
  try_pop [] = (none, [])
  try_pop (front ∷ later) = (some front, later)

  -- Both overloads; none while the caller sleeps, since the queue is empty.
  unfoldable pub wait_and_pop : List A → Option (A × List A)
  wait_and_pop [] = none
  wait_and_pop (front ∷ later) = some (front, later)

  unfoldable pub empty : List A → Bool
  empty [] = true
  empty (front ∷ later) = false

  unfoldable pub size : List A → ℕ
  size data_queue = length data_queue
