-- ===== src/Sudoku/Pool/Size.antt =====
-- The bound on the queue of the pool.
use cloudcomputing_lab2_http.Prelude.{
  ℕ, ◌+◌, ◌≤◌, ◌<◌, ◌≡◌, refl, ap, subst, inl, inr, Bool, true, false, Option, none, some, List, [],
  ◌∷◌, ◌++◌, arith, leb, Bool-cases, length, length-append,
}
use cloudcomputing_lab2_http.Cstr.{Bytes, codes}
use cloudcomputing_lab2_http.Os.{lookup}
use cloudcomputing_lab2_http.Sudoku.Queue.{push, size}
use cloudcomputing_lab2_http.Sudoku.Tasks.{
  Task, Action, waits, submits, lines_per_chunk, lines_of, last_chunk, split_loop, split_file,
  receive_filename,
}
use cloudcomputing_lab2_http.Sudoku.Pool.{
  System, Step, main_passes, main_sleeps, main_wakes, main_submits, main_ends, goes_on, leaves,
  takes, yields, computes, sleeps, wakes, prints, max_queue_size, Reaches, starts, goes,
}
use cloudcomputing_lab2_http.Sudoku.Pool.Order.{try_pop-some, try_pop-none}

-- Between two submissions there is a wait; `free` says whether one is behind the last submission.
unfoldable pub Paced : Bool → List Action → Type 0
Paced free [] = Unit
Paced free (waits ∷ actions) = Paced true actions
Paced free (submits task ∷ actions) = (free ≡ true) × Paced false actions

Paced-append :
    (free : Bool) (a b : List Action)
    → Paced free a
    → Paced false b
    → Paced true b
    → Paced free (a ++ b)
unfolding Paced
Paced-append true [] b p f t = t
Paced-append false [] b p f t = f
Paced-append free (waits ∷ a) b p f t = Paced-append true a b p f t
Paced-append free (submits task ∷ a) b (e, p) f t = (e, Paced-append false a b p f t)

last_chunk-Paced : (free : Bool) (chunk : Bytes) (k : ℕ) → Paced free (last_chunk chunk k).0
unfolding Paced
last_chunk-Paced free [] k = tt
last_chunk-Paced free (c ∷ s) k = (refl, tt)

split_loop-Paced :
    (free : Bool) (n : ℕ) (chunk : Bytes) (k : ℕ) (lines : List Bytes)
    → (1 ≤ n → free ≡ true)
    → Paced free (split_loop n chunk k lines).0
unfolding split_loop Paced
split_loop-Paced free n chunk k [] h = last_chunk-Paced free chunk k
split_loop-Paced free n chunk k (line ∷ lines) h = elim (Bool-cases (leb lines_per_chunk (n + 1))) [
  | inl full ↦
      rw full (h (ground (arith, full)), split_loop-Paced true 0 [] (k + 1) lines (λ _. refl))
  | inr less ↦
      rw less (split_loop-Paced true (n + 1) (chunk ++ (line ++ codes "\n")) k lines (λ _. refl))
]

split_file-Paced :
    (free : Bool) (contents : Option Bytes) (k : ℕ) → Paced free (split_file contents k).0
unfolding split_file Paced
split_file-Paced free none k = tt
split_file-Paced free (some contents) k =
    split_loop-Paced free 0 [] k (lines_of contents) (λ h. absurd (omega (arith, h)))

receive_filename-Paced :
    (files : List (Bytes × Bytes)) (free : Bool) (k : ℕ) (paths : List Bytes)
    → Paced free (receive_filename files k paths)
unfolding receive_filename Paced
receive_filename-Paced files free k [] = tt
receive_filename-Paced files free k (path ∷ paths) =
    let first = split_file (lookup path files) k in
    Paced-append free first.0 (receive_filename files first.1 paths)
      (split_file-Paced free (lookup path files) k)
      (receive_filename-Paced files false first.1 paths)
      (receive_filename-Paced files true first.1 paths)

-- The queue is within its bound, with one place left where a wait is behind the last submission.
pub record IsBounded (queue : List Task) (actions : List Action) : Type 0 where
  pub free : Bool
  pub paced : Paced free actions
  pub room : free ≡ true → size queue < max_queue_size
  pub bound : size queue ≤ max_queue_size

Step-IsBounded :
    (t : ℕ) {s s' : System}
    → Step s t s'
    → IsBounded s.work_queue s.actions
    → IsBounded s'.work_queue s'.actions
unfolding push Paced size
Step-IsBounded t {s = s} (main_passes later a e l) x = record {
  free = true;
  paced = subst (Paced x.free) e x.paced;
  room = λ _. l;
  bound = x.bound;
}
Step-IsBounded t {s = s} (main_submits task later a e) x =
    let (f, p) = subst (Paced x.free) e x.paced in
    let more = length-append s.work_queue (task ∷ []) in
    record {
      free = false;
      paced = p;
      room = λ z. ground arith;
      bound = (let r = x.room f in omega (arith, more, r));
    }
Step-IsBounded t {s = s} (takes task later p e) x =
    let less = ap length (try_pop-some s.work_queue task later e) in
    record {
      free = x.free;
      paced = x.paced;
      room = λ z. (let r = x.room z in omega (arith, less, r));
      bound = (let b = x.bound in omega (arith, less, b));
    }
Step-IsBounded t {s = s} (yields later p e) x =
    let same = ap length (try_pop-none s.work_queue later e) in
    record {
      free = x.free;
      paced = x.paced;
      room = λ z. (let r = x.room z in omega (arith, same, r));
      bound = (let b = x.bound in omega (arith, same, b));
    }
Step-IsBounded t (main_sleeps later a e l) x = x
Step-IsBounded t {s = s} (main_wakes a) x = x
Step-IsBounded t {s = s} (main_ends a e) x = x
Step-IsBounded t {s = s} (goes_on p d) x = x
Step-IsBounded t {s = s} (leaves p d) x = x
Step-IsBounded t {s = s} (computes task result p) x = x
Step-IsBounded t {s = s} (sleeps i message p c) x = x
Step-IsBounded t {s = s} (wakes i message p) x = x
Step-IsBounded t {s = s} (prints i message p c) x = x

Reaches-IsBounded :
    (thread_count : ℕ) (files : List (Bytes × Bytes)) (paths : List Bytes) {s : System}
    → Reaches thread_count (receive_filename files 0 paths) s
    → IsBounded s.work_queue s.actions
unfolding size
Reaches-IsBounded thread_count files paths starts = record {
  free = true;
  paced = receive_filename-Paced files true 0 paths;
  room = λ _. omega arith;
  bound = omega arith;
}
Reaches-IsBounded thread_count files paths (goes t r step) =
    Step-IsBounded t step (Reaches-IsBounded thread_count files paths r)

-- The tasks of the words of the input, in every order of the threads' steps: the queue never holds
-- more than 100 tasks.
pub Reaches-size :
    (thread_count : ℕ) (files : List (Bytes × Bytes)) (paths : List Bytes) {s : System}
    → Reaches thread_count (receive_filename files 0 paths) s
    → size s.work_queue ≤ max_queue_size
Reaches-size thread_count files paths r = (Reaches-IsBounded thread_count files paths r).bound
