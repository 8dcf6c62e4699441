-- ===== src/Os/Slots.antt =====
-- The numbers that the system gives to descriptors.
use cloudcomputing_lab2_http.Prelude.{
  ℕ, zero, suc, ◌+◌, ◌≤◌, ◌<◌, ◌≡◌, refl, ap, inl, inr, true, false, arith, ◌==◌, ==_iff,
  Bool-cases,
}
use cloudcomputing_lab2_http.Cstr.{Bytes}
use cloudcomputing_lab2_http.Os.{
  Descriptor, closed, socket, file, World, update, table_size, is_closed, first_closed, lowest,
  slot,
}

is_closed-closed : (d : Descriptor) → is_closed d ≡ true → d ≡ closed
is_closed-closed closed e = refl
is_closed-closed (socket input) e = absurd (ground arith)
is_closed-closed (file contents at) e = absurd (ground arith)

first_closed-closed :
    (k : ℕ) (fds : ℕ → Descriptor) (i : ℕ)
    → first_closed k fds i < i + k
    → fds (first_closed k fds i) ≡ closed
unfolding first_closed
first_closed-closed zero fds i h = absurd (omega (arith, h))
first_closed-closed (suc k) fds i h = elim (Bool-cases (is_closed (fds i))) [
  | inl e ↦ rw (e, first_closed) (is_closed-closed (fds i) e)
  | inr e ↦
      let h' : first_closed k fds (i + 1) < i + suc k = rw (e, first_closed) at h in
      rw (e, first_closed) (first_closed-closed k fds (i + 1) (omega (arith, h')))
]

first_closed-socket :
    (k : ℕ) (fds : ℕ → Descriptor) (fd : ℕ) (input rest : Bytes) (i : ℕ)
    → fds fd ≡ socket input
    → first_closed k (update fds fd (socket rest)) i ≡ first_closed k fds i
unfolding first_closed
first_closed-socket zero fds fd input rest i o = refl
first_closed-socket (suc k) fds fd input rest i o = elim (Bool-cases (i == fd)) [
  | inl e ↦
      let open_there : is_closed (fds i) ≡ false = ground (arith, ==_iff i fd) in
      rw (e, open_there, first_closed) (first_closed-socket k fds fd input rest (i + 1) o)
  | inr e ↦ elim (Bool-cases (is_closed (fds i))) [
    | inl c ↦ rw (e, c, first_closed) refl
    | inr c ↦ rw (e, c, first_closed) (first_closed-socket k fds fd input rest (i + 1) o)
  ]
]

first_closed-from : (k : ℕ) (fds : ℕ → Descriptor) (i : ℕ) → i ≤ first_closed k fds i
unfolding first_closed
first_closed-from zero fds i = omega arith
first_closed-from (suc k) fds i = elim (Bool-cases (is_closed (fds i))) [
  | inl c ↦ rw (c, first_closed) (omega arith)
  | inr c ↦ rw (c, first_closed) (omega (arith, first_closed-from k fds (i + 1)))
]

first_closed-close :
    (k : ℕ) (fds : ℕ → Descriptor) (fd i : ℕ)
    → first_closed k (update fds fd closed) i ≤ first_closed k fds i
unfolding first_closed
first_closed-close zero fds fd i = omega arith
first_closed-close (suc k) fds fd i = elim (Bool-cases (i == fd)) [
  | inl e ↦ rw (e, first_closed) (first_closed-from (suc k) fds i)
  | inr e ↦ elim (Bool-cases (is_closed (fds i))) [
    | inl c ↦ rw (e, c, first_closed) (omega arith)
    | inr c ↦ rw (e, c, first_closed) (first_closed-close k fds fd (i + 1))
  ]
]

first_closed-first :
    (k : ℕ) (fds : ℕ → Descriptor) (i : ℕ) → fds i ≡ closed → first_closed (suc k) fds i ≡ i
unfolding first_closed
first_closed-first k fds i h =
    let there : is_closed (fds i) ≡ true = ap is_closed h in rw (there, first_closed) refl

-- Where the first number is not open there is one to give.
pub slot-first : (fds : ℕ → Descriptor) → fds 0 ≡ closed → lowest fds < table_size
unfolding lowest
slot-first fds h = omega (arith, first_closed-first 1023 fds 0 h)

-- A number is left behind a close if there was one before it.
pub slot-close :
    (w : World) (fd : ℕ) → slot w < table_size → lowest (update w.fds fd closed) < table_size
unfolding lowest
slot-close w fd h = omega (arith, first_closed-close table_size w.fds fd 0, h)

-- A number that the system gives was not open.
pub slot-closed : (w : World) → slot w < table_size → w.fds (slot w) ≡ closed
unfolding lowest
slot-closed w h = first_closed-closed table_size w.fds 0 h

-- Reading from a socket changes no number that the system would give.
pub slot-socket :
    (w : World) (fd : ℕ) (input rest : Bytes)
    → w.fds fd ≡ socket input
    → lowest (update w.fds fd (socket rest)) ≡ slot w
unfolding lowest
slot-socket w fd input rest o = first_closed-socket table_size w.fds fd input rest 0 o
