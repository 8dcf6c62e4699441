-- ===== src/Server/Send/Delivery.antt =====
-- What the sending loops deliver, whatever share of the bytes each `write` takes.
use mathlib.Core.Path.{fun_ext}
use cloudcomputing_lab2_http.Prelude.{
  ℕ, zero, suc, ◌+◌, ◌≤◌, ◌≡◌, refl, sym, ap, ◌∙◌, inl, inr, Option, none, some, List, [], ◌∷◌,
  ◌++◌, append-nil, append_assoc, arith, ◌==◌, if◌then◌else◌, ==_iff, Bool-cases, length, take,
  drop, length-drop, take-all, take-take-drop,
}
use cloudcomputing_lab2_http.Result.{Result, ok}
use cloudcomputing_lab2_http.Cstr.{Bytes}
use cloudcomputing_lab2_http.Os.{socket, World, Grant, accepts, refuses, granted, write, update}
use cloudcomputing_lab2_http.Server.Send.{Status, done, failed, send_loop, http_send_data}

pub update_twice :
    {A : Type 0} (f : ℕ → A) (k : ℕ) (v v' : A) → update (update f k v) k v' ≡ update f k v'
update_twice f k v v' = fun_ext λ j. elim (Bool-cases (j == k)) [ inl e ↦ rw e | inr e ↦ rw e ]

pub update_self : {A : Type 0} (f : ℕ → A) (k : ℕ) → update f k (f k) ≡ f
update_self f k =
    fun_ext λ j. elim (Bool-cases (j == k)) [
      | inl e ↦ rw e (ap f (sym ((==_iff j k).0 e)))
      | inr e ↦ rw e
    ]

-- No `write` of the schedule fails.
abbrev pub Accepting : List Grant → Type 0
Accepting [] = Unit
Accepting (accepts n ∷ gs) = Accepting gs
Accepting (refuses ∷ gs) = ⊥

-- The next write does not fail, so that a text of `dprintf` goes out.
abbrev pub TakesText : List Grant → Type 0
TakesText [] = Unit
TakesText (accepts n ∷ gs) = Unit
TakesText (refuses ∷ gs) = ⊥

pub Accepting-TakesText : (gs : List Grant) → Accepting gs → TakesText gs
Accepting-TakesText [] a = tt
Accepting-TakesText (accepts n ∷ gs) a = tt
Accepting-TakesText (refuses ∷ gs) a = a

-- The world after `bytes` went out through `fd`, with what is left of the schedule.
abbrev pub sending : World → ℕ → Bytes → List Grant → World
sending w fd bytes gs = record w { sent = update w.sent fd (w.sent fd ++ bytes); grants = gs }

pub sending_twice :
    (w : World) (fd : ℕ) (a b : Bytes) (gs hs : List Grant)
    → sending (sending w fd a gs) fd b hs ≡ sending w fd (a ++ b) hs
sending_twice w fd a b gs hs =
    let e : (w.sent fd ++ a) ++ b ≡ w.sent fd ++ (a ++ b) = append_assoc (w.sent fd) a b in
    let here : (if fd == fd then w.sent fd ++ a else w.sent fd) ≡ w.sent fd ++ a = ground arith in
    λ i. record w {
      sent =
          ((ap (λ x. update (update w.sent fd (w.sent fd ++ a)) fd (x ++ b)) here
              ∙ update_twice w.sent fd (w.sent fd ++ a) ((w.sent fd ++ a) ++ b)
              ∙ ap (update w.sent fd) e)
            i);
      grants = hs;
    }

pub sending_nil :
    (w : World) (fd : ℕ) (gs : List Grant) → sending w fd [] gs ≡ record w { grants = gs }
sending_nil w fd gs = λ i. record w {
  sent = ((ap (update w.sent fd) (append-nil (w.sent fd)) ∙ update_self w.sent fd) i);
  grants = gs;
}

-- How one `write` ended.
data Writes (w : World) (fd : ℕ) (bytes : Bytes) (r : Result (Option ℕ × World)) : Type 0 where
  taken :
      (n : ℕ) (left : List Grant)
      → r ≡ ok (some n, sending w fd (take n bytes) left)
      → 1 ≤ n
      → n ≤ length bytes
      → (Accepting w.grants → Accepting left)
      → Writes w fd bytes r
  refused :
      (left : List Grant)
      → r ≡ ok (none, sending w fd [] left)
      → ¬ Accepting w.grants
      → Writes w fd bytes r

write_in-Writes :
    (w : World) (fd c : ℕ) (s input : Bytes) (gs : List Grant)
    → w.fds fd ≡ socket input
    → w.grants ≡ gs
    → Writes w fd (c ∷ s) (write fd (c ∷ s) w)
unfolding write
write_in-Writes w fd c s input [] o e =
    taken (length (c ∷ s)) [] (rw (o, e, take-all (c ∷ s) (length (c ∷ s)) (omega arith)))
      (omega arith) (omega arith) (λ _. tt)
write_in-Writes w fd c s input (accepts k ∷ gs) o e =
    taken (granted k (length (c ∷ s))) gs (rw (o, e)) (ground arith) (ground arith) (λ a. rw e at a)
write_in-Writes w fd c s input (refuses ∷ gs) o e =
    refused gs (rw (o, e, sending_nil w fd gs)) (λ a. rw e at a)

-- How the loop ended: `count` bytes went out.
pub record Ends (w : World) (fd : ℕ) (bytes : Bytes) (r : Result (Status × World)) : Type 0 where
  pub status : Status
  pub count : ℕ
  pub left : List Grant
  pub returned : r ≡ ok (status, sending w fd (take count bytes) left)
  pub within : count ≤ length bytes
  pub all_sent : status ≡ done → count ≡ length bytes
  pub accepting : Accepting w.grants → (status ≡ done) × Accepting left

send_loop-taken :
    (fuel : ℕ) (w : World) (fd c : ℕ) (s : Bytes) (n : ℕ) (w' : World)
    → write fd (c ∷ s) w ≡ ok (some n, w')
    → send_loop (suc fuel) fd (c ∷ s) w ≡ send_loop fuel fd (drop n (c ∷ s)) w'
unfolding send_loop
send_loop-taken fuel w fd c s n w' e = ground arith

send_loop-Ends :
    (fuel : ℕ) (w : World) (fd : ℕ) (bytes input : Bytes)
    → w.fds fd ≡ socket input
    → length bytes ≤ fuel
    → Ends w fd bytes (send_loop fuel fd bytes w)
unfolding send_loop
send_loop-Ends fuel w fd [] input o h = record {
  status = done;
  count = 0;
  left = w.grants;
  returned = rw (sending_nil w fd w.grants);
  within = omega arith;
  all_sent = λ _. refl;
  accepting = λ a. (refl, a);
}
send_loop-Ends zero w fd (c ∷ s) input o h = elim h [ ]
send_loop-Ends (suc fuel) w fd (c ∷ s) input o h =
    go (write_in-Writes w fd c s input w.grants o refl)
      (λ w' bytes. send_loop-Ends fuel w' fd bytes input)
  where
    go :
        Writes w fd (c ∷ s) (write fd (c ∷ s) w)
        → ((w' : World) (bytes : Bytes)
            → w'.fds fd ≡ socket input
            → length bytes ≤ fuel
            → Ends w' fd bytes (send_loop fuel fd bytes w'))
        → Ends w fd (c ∷ s) (send_loop (suc fuel) fd (c ∷ s) w)
    go (refused left e never) ih = record {
      status = failed;
      count = 0;
      left = left;
      returned = ground arith;
      within = omega arith;
      all_sent = λ q. cc;
      accepting = λ a. absurd (never a);
    }
    go (taken n left e one most keep) ih =
        let r =
          ih (sending w fd (take n (c ∷ s)) left) (drop n (c ∷ s)) o
            (omega (arith, length-drop {0} n (c ∷ s))) in
        record {
          status = r.status;
          count = n + r.count;
          left = r.left;
          returned =
              (send_loop-taken fuel w fd c s n _ e
                ∙ r.returned
                ∙ ap (λ x. ok (r.status, x))
                    (sending_twice w fd (take n (c ∷ s)) (take r.count (drop n (c ∷ s))) left r.left
                      ∙ ap (λ b. sending w fd b r.left)
                          (take-take-drop (c ∷ s) n r.count (n + r.count) refl)));
          within = omega (arith, r.within, length-drop {0} n (c ∷ s));
          all_sent = λ q. omega (arith, r.all_sent q, length-drop {0} n (c ∷ s));
          accepting = λ a. r.accepting (keep a);
        }

-- `http_send_data` on an open socket returns, whatever the writes do. What went out is the start
-- of the data, and all of it if the result is 0, which it is if no write fails.
pub http_send_data-Ends :
    (w : World) (fd : ℕ) (bytes input : Bytes)
    → w.fds fd ≡ socket input
    → Ends w fd bytes (http_send_data fd bytes w)
unfolding http_send_data
http_send_data-Ends w fd bytes input o =
    send_loop-Ends (length bytes) w fd bytes input o (omega arith)
