-- ===== src/Sudoku/Pool/Held.antt =====
-- The tasks that the workers hold.
use cloudcomputing_lab2_http.Prelude.{
  ℕ, ◌+◌, ◌≤◌, ◌≡◌, refl, sym, ◌∙◌, inl, inr, Option, none, some, arith, leb, leb→le, Bool-cases,
}
use cloudcomputing_lab2_http.Os.{update}
use cloudcomputing_lab2_http.Sudoku.Pool.{
  Worker, testing, popping, running, printing, sleeping, over, notified,
}

-- The number of the task that a worker has taken and not yet printed.
abbrev pub holding : Worker → Option ℕ
holding (running task) = some task.task_num
holding (printing n message) = some n
holding (sleeping n message) = some n
holding testing = none
holding popping = none
holding over = none

-- Each task from `current` up to `taken` is held by one worker, and no other task is held.
pub record IsHeld (current taken : ℕ) (threads : ℕ → Worker) : Type 0 where
  pub held : (i : ℕ) → current ≤ i → i ≤ taken → (t : ℕ) × (holding (threads t) ≡ some i)
  pub bounded : (t i : ℕ) → holding (threads t) ≡ some i → (current ≤ i) × (i ≤ taken)
  pub unique : (t u i : ℕ) → holding (threads t) ≡ some i → holding (threads u) ≡ some i → t ≡ u

notified-holding : (worker : Worker) → holding (notified worker) ≡ holding worker
notified-holding testing = refl
notified-holding popping = refl
notified-holding (running task) = refl
notified-holding (printing n message) = refl
notified-holding (sleeping n message) = refl
notified-holding over = refl

-- Workers that hold the same tasks.
same-IsHeld :
    (current taken : ℕ) (threads threads' : ℕ → Worker)
    → ((t : ℕ) → holding (threads' t) ≡ holding (threads t))
    → IsHeld current taken threads
    → IsHeld current taken threads'
same-IsHeld current taken threads threads' same x = record {
  held = λ i l h. (let (t, e) = x.held i l h in (t, same t ∙ e));
  bounded = λ t i e. x.bounded t i (sym (same t) ∙ e);
  unique = λ t u i e e'. x.unique t u i (sym (same t) ∙ e) (sym (same u) ∙ e');
}

pub notified-IsHeld :
    (current taken : ℕ) (threads : ℕ → Worker)
    → IsHeld current taken threads
    → IsHeld current taken (λ t. notified (threads t))
notified-IsHeld current taken threads =
    same-IsHeld current taken threads (λ t. notified (threads t))
      (λ t. notified-holding (threads t))

module _ (current taken : ℕ) (threads : ℕ → Worker) (t : ℕ) (worker : Worker)
    (x : IsHeld current taken threads) where
  -- A step of the worker `t` that leaves what it holds.
  pub keeps : holding worker ≡ holding (threads t) → IsHeld current taken (update threads t worker)
  keeps e = same-IsHeld current taken threads (update threads t worker) (λ u. ground (arith, e)) x

  pub gains :
      holding (threads t) ≡ none
      → holding worker ≡ some (taken + 1)
      → current ≤ taken + 1
      → IsHeld current (taken + 1) (update threads t worker)
  gains n e l = record {
    held = λ i c h. (elim (Bool-cases (leb i taken)) [
      | inl y ↦ (let (u, e') = x.held i c (leb→le i taken y) in (u, ground (arith, e', n)))
      | inr y ↦ (t, ground (arith, e))
    ]);
    bounded = λ u i e'. ground (arith, x.bounded u i, e);
    unique = λ u v i a b. ground (arith, x.unique u v i, x.bounded u i, x.bounded v i, e);
  }

  pub loses :
      holding (threads t) ≡ some current
      → holding worker ≡ none
      → IsHeld (current + 1) taken (update threads t worker)
  loses n e = record {
    held = λ i c h. (let (u, e') = x.held i (omega arith) h in (u, ground (arith, e', n)));
    bounded = λ u i e'. ground (arith, x.bounded u i, x.unique u t i, e, n);
    unique = λ u v i a b. ground (arith, x.unique u v i, e);
  }
