-- ===== src/Server/Text.antt =====
-- The string functions of httpserver.c.
use cloudcomputing_lab2_http.Prelude.{
  ℕ, zero, suc, ◌+◌, ◌<◌, ◌≡◌, refl, ap, Bool, not, ◌||◌, [], ◌∷◌, ◌++◌, append_assoc, arith, ltb,
  ◌==◌, if◌then◌else◌, length, length-append, set-append,
}
use cloudcomputing_lab2_http.Result.{Result, ok, ◌>>=◌}
use cloudcomputing_lab2_http.Cstr.{Bytes, string_at}
use cloudcomputing_lab2_http.Cstr.Compact.{store, compact, compacted, compact_lem, Runs}
use cloudcomputing_lab2_http.Cstr.Search.{Lacks}

abbrev blank : ℕ → Bool
blank c = c == b' ' || c == b'\n' || c == b'\r' || c == b'\t'

abbrev kept : Unit {0} → ℕ → Bool
kept u c = not (blank c)

abbrev same : Unit {0} → ℕ → Unit {0}
same u c = u

abbrev below : ℕ → ℕ → ℕ → Bool
below len i c = ltb i len

-- On the block of a string, the NUL included: the block that it leaves. `len` is computed first.
unfoldable pub remove_spaces_and_newlines : Bytes → Result Bytes
unfolding compact
remove_spaces_and_newlines str =
    string_at str 0 >>= λ s. compact kept same (below (length s)) (length str) str 0 0 tt

-- The text without spaces, tabs and line ends.
unfoldable pub without_blanks : Bytes → Bytes
without_blanks [] = []
without_blanks (c ∷ s) = let rest = without_blanks s in if blank c then rest else c ∷ rest

pub string_at_start : (s rest : Bytes) → Lacks 0 s → string_at (s ++ 0 ∷ rest) 0 ≡ ok s
unfolding string_at
string_at_start [] rest h = refl
string_at_start (c ∷ s) rest h = ground (arith, string_at_start s rest h.1)

runs : (s : Bytes) (i len : ℕ) → i + length s ≡ len → Runs kept same (below len) i s
runs [] i len h = ground arith
runs (c ∷ s) i len h = (ground arith, runs s (i + 1) len (omega arith))

compacted-without_blanks :
    (len : ℕ) (s : Bytes) → compacted kept same (below len) tt s ≡ without_blanks s
unfolding compacted without_blanks
compacted-without_blanks len [] = refl
compacted-without_blanks len (c ∷ s) = ground (arith, compacted-without_blanks len s)

-- The loop of `removeSpacesAndNewlines` stays inside the block of a string, and leaves in it the
-- text without spaces, tabs and line ends.
pub remove_spaces_and_newlines_lem :
    (s tail : Bytes)
    → Lacks 0 s
    → (junk : Bytes) × (remove_spaces_and_newlines (s ++ 0 ∷ tail)
        ≡ ok (without_blanks s ++ 0 ∷ junk))
unfolding remove_spaces_and_newlines
remove_spaces_and_newlines_lem s tail h =
    let (junk, e) =
      compact_lem kept same (below (length s)) tt s tail (length (s ++ 0 ∷ tail))
        (omega (arith, length-append {0} s (0 ∷ tail))) (runs s 0 (length s) (omega arith)) in
    (junk, rw (string_at_start s tail h, ← compacted-without_blanks (length s) s) e)

-- `for(; (*p = *str); p++, str++);` from offset `p` of a block: the block and `p` behind the loop.
unfoldable pub copy_loop : Bytes → Bytes → ℕ → Result (Bytes × ℕ)
unfolding store
copy_loop [] block p = store block p 0 >>= λ b. ok (b, p)
copy_loop (c ∷ str) block p = store block p c >>= λ b. copy_loop str b (p + 1)

-- `ret` is the new block, of `strlen(str1) + strlen(str2) + 1` bytes, with what it held before.
unfoldable pub join_string : Bytes → Bytes → Bytes → Result (Bytes × ℕ)
unfolding copy_loop
join_string str1 str2 ret = copy_loop str1 ret 0 >>= λ r. copy_loop str2 r.0 r.1

copy_loop-splits :
    (str front old rest : Bytes) (last p : ℕ)
    → length old ≡ length str
    → p ≡ length front
    → copy_loop str (front ++ (old ++ last ∷ rest)) p
      ≡ ok (front ++ (str ++ 0 ∷ rest), p + length str)
unfolding copy_loop
copy_loop-splits [] front [] rest last p e q =
    ground (arith, length-append front (last ∷ rest), set-append front rest last 0)
copy_loop-splits [] front (o ∷ old) rest last p e q = absurd (omega arith)
copy_loop-splits (c ∷ str) front [] rest last p e q = absurd (omega arith)
copy_loop-splits (c ∷ str) front (o ∷ old) rest last p e q = ground (
  arith,
  length-append front (o ∷ (old ++ last ∷ rest)),
  set-append front (old ++ last ∷ rest) o c,
  append_assoc front (c ∷ []) (old ++ last ∷ rest),
  append_assoc front (c ∷ []) (str ++ 0 ∷ rest),
  length-append front (c ∷ []),
  copy_loop-splits str (front ++ c ∷ []) old rest last (p + 1),
)

split_block :
    (xs : Bytes) (n : ℕ)
    → n < length xs
    → (old : Bytes) × (last : ℕ) × (rest : Bytes) × (xs ≡ old ++ last ∷ rest) × (length old ≡ n)
split_block [] n h = elim h [ ]
split_block (x ∷ xs) zero h = ([], x, xs, refl, refl)
split_block (x ∷ xs) (suc n) h =
    let (old, last, rest, e, l) = split_block xs n (omega arith) in
    (x ∷ old, last, rest, ap (λ t. x ∷ t) e, ap suc l)

empty : (xs : Bytes) → length xs ≡ 0 → xs ≡ []
empty [] h = refl
empty (x ∷ xs) h = absurd (omega arith)

-- `join_string` stays inside the block that it asks for, whatever the block held, and leaves both
-- strings in it, one behind the other with a NUL at the end; the size is the sum of their lengths.
pub join_string_lem :
    (str1 str2 ret : Bytes)
    → length ret ≡ length str1 + length str2 + 1
    → join_string str1 str2 ret ≡ ok (str1 ++ (str2 ++ 0 ∷ []), length str1 + length str2)
unfolding join_string
join_string_lem str1 str2 ret h =
    let (old, last, rest, e, l) = split_block ret (length str1) (omega arith) in
    let m : length rest ≡ length str2 =
      omega (arith, ap (length {A = ℕ}) e, length-append {0} old (last ∷ rest)) in
    let (old', last', rest', e', l') = split_block (0 ∷ rest) (length str2) (omega arith) in
    let m' : length rest' ≡ 0 =
      omega (arith, ap (length {A = ℕ}) e', length-append {0} old' (last' ∷ rest')) in
    ground (
      arith,
      empty rest' m',
      copy_loop-splits str1 [] old rest last 0,
      copy_loop-splits str2 str1 old' rest' last' (length str1),
    )
