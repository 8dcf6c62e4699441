-- ===== src/Sudoku/Tasks/Chunks.antt =====
-- The tasks that the files of puzzles are cut into.
use std.Path.{ap₂}
use cloudcomputing_lab2_http.Prelude.{
  ℕ, zero, suc, ◌+◌, ◌≤◌, ◌<◌, ◌≡◌, refl, sym, ap, subst, ◌∙◌, inl, inr, Option, none, some, List,
  [], ◌∷◌, ◌++◌, append-nil, append_assoc, arith, leb, leb→le, Bool-cases, length, take, drop,
  length-append, take-all, drop-past, take-exact,
}
use cloudcomputing_lab2_http.Cstr.{Bytes, codes}
use cloudcomputing_lab2_http.Os.{lookup}
use cloudcomputing_lab2_http.Sudoku.Tasks.{
  Task, Action, waits, submits, lines_per_chunk, lines_of, last_chunk, split_loop, split_file,
  receive_filename,
}

-- The tasks that are submitted, in order.
unfoldable pub tasks_of : List Action → List Task
tasks_of [] = []
tasks_of (waits ∷ actions) = tasks_of actions
tasks_of (submits new_task ∷ actions) = new_task ∷ tasks_of actions

-- The lines, each with its newline.
unfoldable pub text_of : List Bytes → Bytes
text_of [] = []
text_of (line ∷ lines) = (line ++ codes "\n") ++ text_of lines

-- The lines in groups of 5000, the last one with what is left.
unfoldable pub groups : ℕ → List Bytes → List (List Bytes)
groups zero lines = []
groups (suc fuel) [] = []
groups (suc fuel) (line ∷ lines) =
    take lines_per_chunk (line ∷ lines) ∷ groups fuel (drop lines_per_chunk (line ∷ lines))

-- Tasks with the texts of the groups, numbered from `n`.
unfoldable pub numbered : ℕ → List (List Bytes) → List Task
numbered n [] = []
numbered n (group ∷ later) =
    record { task_num = n; task_data = text_of group } ∷ numbered (n + 1) later

text-append : (a b : List Bytes) → text_of (a ++ b) ≡ text_of a ++ text_of b
unfolding text_of
text-append [] b = refl
text-append (line ∷ a) b =
    ap (λ t. (line ++ codes "\n") ++ t) (text-append a b)
    ∙ sym (append_assoc (line ++ codes "\n") (text_of a) (text_of b))

text-last :
    (a : List Bytes) (line : Bytes) → text_of (a ++ (line ∷ [])) ≡ text_of a ++ (line ++ codes "\n")
unfolding text_of
text-last a line = rw (text-append a (line ∷ []), append-nil)

-- What a part of `split_file` gives, if it cuts the groups behind the task `k`.
abbrev pub Cuts : List Action × ℕ → ℕ → List (List Bytes) → Type 0
Cuts cut k gs = (tasks_of cut.0 ≡ numbered (k + 1) gs) × (cut.1 ≡ k + length gs)

Cuts-full :
    (cut : List Action × ℕ) (k : ℕ) (group : List Bytes) (gs : List (List Bytes)) (chunk : Bytes)
    → chunk ≡ text_of group
    → Cuts cut (k + 1) gs
    → Cuts
        (submits (record { task_num = k + 1; task_data = chunk }) ∷ waits ∷ cut.0, cut.1)
        k
        (group ∷ gs)
unfolding tasks_of numbered
Cuts-full cut k group gs chunk t (e, n) =
    (ap₂ (λ d ts. record { task_num = k + 1; task_data = d } ∷ ts) t e, n ∙ omega arith)

drop-all : (lines : List Bytes) (n : ℕ) → length lines ≤ n → drop n lines ≡ []
drop-all [] zero h = refl
drop-all [] (suc n) h = refl
drop-all (line ∷ lines) zero h = absurd (omega arith)
drop-all (line ∷ lines) (suc n) h = drop-all lines n (omega arith)

groups-nil : (fuel : ℕ) → groups fuel [] ≡ []
unfolding groups
groups-nil zero = refl
groups-nil (suc fuel) = refl

groups-short :
    (fuel : ℕ) (line : Bytes) (left : List Bytes)
    → length (line ∷ left) < lines_per_chunk
    → groups (suc fuel) (line ∷ left) ≡ (line ∷ left) ∷ []
unfolding groups
groups-short fuel line left h =
    rw (take-all left 4999 (omega arith), drop-all left 4999 (omega arith), groups-nil fuel)

groups-full :
    (fuel : ℕ) (group lines : List Bytes)
    → length group ≡ lines_per_chunk
    → groups (suc fuel) (group ++ lines) ≡ group ∷ groups fuel lines
unfolding groups
groups-full fuel [] lines h = absurd (omega arith)
groups-full fuel (line ∷ group) lines h =
    rw (take-exact 4999 group lines (omega arith), drop-past group lines 4999 0 (omega arith))

-- The end of a file, with the lines that are left.
last_chunk_lem :
    (fuel : ℕ) (left : List Bytes) (k : ℕ)
    → length left < lines_per_chunk
    → length left ≤ fuel
    → Cuts (last_chunk (text_of left) k) k (groups fuel left)
unfolding text_of tasks_of numbered
last_chunk_lem fuel [] k h f = rw (groups-nil fuel) (refl, omega arith)
last_chunk_lem zero (line ∷ left) k h f = absurd (omega arith)
last_chunk_lem (suc fuel) ([] ∷ left) k h f = rw (groups-short fuel [] left h) (refl, omega arith)
last_chunk_lem (suc fuel) ((c ∷ line) ∷ left) k h f =
    rw (groups-short fuel (c ∷ line) left h) (refl, omega arith)

split_loop_lem :
    (fuel n : ℕ) (chunk : Bytes) (left : List Bytes) (k : ℕ) (lines : List Bytes)
    → n ≡ length left
    → chunk ≡ text_of left
    → n < lines_per_chunk
    → length left + length lines ≤ fuel
    → Cuts (split_loop n chunk k lines) k (groups fuel (left ++ lines))
unfolding split_loop tasks_of text_of
split_loop_lem fuel n chunk left k [] e t h f =
    rw (t, append-nil) (last_chunk_lem fuel left k (omega arith) (omega arith))
split_loop_lem zero n chunk left k (line ∷ lines) e t h f = absurd (omega arith)
split_loop_lem (suc fuel) n chunk left k (line ∷ lines) e t h f =
    let left' = left ++ (line ∷ []) in
    let more : length left' ≡ n + 1 = length-append left (line ∷ []) ∙ omega (arith, e) in
    let text : chunk ++ (line ++ codes "\n") ≡ text_of left' =
      ap (λ c. c ++ (line ++ codes "\n")) t ∙ sym (text-last left line) in
    let same : left' ++ lines ≡ left ++ line ∷ lines = append_assoc left (line ∷ []) lines in
    elim (Bool-cases (leb lines_per_chunk (n + 1))) [
      | inl full ↦
          let exact : length left' ≡ lines_per_chunk =
            ground (arith, leb→le lines_per_chunk (n + 1) full, more) in
          let rest =
            split_loop_lem fuel 0 [] [] (k + 1) lines refl refl (omega arith) (omega (arith, f)) in
          let cut = split_loop 0 [] (k + 1) lines in
          rw full (
            subst
              (Cuts
                (
                  submits (record { task_num = k + 1; task_data = chunk ++ (line ++ codes "\n") })
                      ∷ waits
                      ∷ cut.0,
                  cut.1,
                )
                k)
              (sym (groups-full fuel left' lines exact) ∙ ap (groups (suc fuel)) same)
              (Cuts-full (split_loop 0 [] (k + 1) lines) k left' (groups fuel lines) _ text rest))
      | inr less ↦
          let rest =
            split_loop_lem (suc fuel) (n + 1) (chunk ++ (line ++ codes "\n")) left' k lines
              (sym more) text (ground arith) (omega (arith, more, f)) in
          let cut = split_loop (n + 1) (chunk ++ (line ++ codes "\n")) k lines in
          rw less (subst (Cuts (waits ∷ cut.0, cut.1) k) (ap (groups (suc fuel)) same) rest)
    ]

-- The groups of the lines of a file; a file that cannot be opened has none.
abbrev pub file_groups : Option Bytes → List (List Bytes)
file_groups none = []
file_groups (some contents) = groups (length (lines_of contents)) (lines_of contents)

abbrev pub all_groups : List (Bytes × Bytes) → List Bytes → List (List Bytes)
all_groups files [] = []
all_groups files (path ∷ paths) = file_groups (lookup path files) ++ all_groups files paths

split_file_lem :
    (contents : Option Bytes) (k : ℕ) → Cuts (split_file contents k) k (file_groups contents)
unfolding split_file tasks_of numbered text_of
split_file_lem none k = (refl, omega arith)
split_file_lem (some contents) k =
    split_loop_lem (length (lines_of contents)) 0 [] [] k (lines_of contents) refl refl
      (omega arith) (omega arith)

tasks-append : (a b : List Action) → tasks_of (a ++ b) ≡ tasks_of a ++ tasks_of b
unfolding tasks_of
tasks-append [] b = refl
tasks-append (waits ∷ a) b = tasks-append a b
tasks-append (submits t ∷ a) b = ap (λ ts. t ∷ ts) (tasks-append a b)

numbered-append :
    (n : ℕ) (a b : List (List Bytes))
    → numbered n (a ++ b) ≡ numbered n a ++ numbered (n + length a) b
unfolding numbered
numbered-append n [] b = ap (λ m. numbered m b) (omega arith)
numbered-append n (g ∷ a) b =
    let m : n + 1 + length a ≡ n + suc (length a) = omega arith in
    ap (λ ts. record { task_num = n; task_data = text_of g } ∷ ts)
      (numbered-append (n + 1) a b ∙ ap (λ i. numbered (n + 1) a ++ numbered i b) m)

-- Whatever the files and the words of the input are: the tasks that are submitted are the lines of the
-- files that exist, in the order of the words, in groups of 5000 with a shorter last one for each file,
-- every line with its newline, and the tasks are numbered without a gap over all files.
pub receive_filename-submits :
    (files : List (Bytes × Bytes)) (k : ℕ) (paths : List Bytes)
    → tasks_of (receive_filename files k paths) ≡ numbered (k + 1) (all_groups files paths)
unfolding receive_filename tasks_of numbered
receive_filename-submits files k [] = refl
receive_filename-submits files k (path ∷ paths) =
    let first = split_file (lookup path files) k in
    let gs = file_groups (lookup path files) in
    let (cut, last) = split_file_lem (lookup path files) k in
    let next : first.1 + 1 ≡ k + 1 + length gs = ap (λ n. n + 1) last ∙ omega arith in
    tasks-append first.0 (receive_filename files first.1 paths)
    ∙ ap₂ (λ a b. a ++ b) cut
        (receive_filename-submits files first.1 paths
          ∙ ap (λ n. numbered n (all_groups files paths)) next)
    ∙ sym (numbered-append (k + 1) gs (all_groups files paths))
