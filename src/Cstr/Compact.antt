-- ===== src/Cstr/Compact.antt =====
-- The loop that drops bytes from a string in place: a reading and a writing pointer run over the
-- block, and a NUL goes behind what was written. Two functions of the program are this loop.
use cloudcomputing_lab2_http.Prelude.{
  ℕ, zero, suc, ◌+◌, ◌<◌, ◌≡◌, refl, inl, inr, Bool, true, false, none, some, [], ◌∷◌, ◌++◌,
  append_assoc, arith, ltb, if◌then◌else◌, Bool-cases, length, get_elem?, set, length-append,
  get_elem?-append, set-append,
}
use cloudcomputing_lab2_http.Result.{Result, ok, fault, ◌>>=◌, overflow, out_of_bounds, out_of_fuel}
use cloudcomputing_lab2_http.Cstr.{Bytes}

-- mem[i] = v
unfoldable pub store : Bytes → ℕ → ℕ → Result Bytes
store mem i v = if ltb i (length mem) then ok (set mem i v) else fault overflow

module _ {S : Type 0} (keep : S → ℕ → Bool) (next : S → ℕ → S) (more : ℕ → ℕ → Bool) where
  -- `more src mem[src]` is the loop's test, `keep` says whether the byte is copied, and `next` is
  -- the change of the loop's other variable.
  unfoldable pub compact : ℕ → Bytes → ℕ → ℕ → S → Result Bytes
  unfolding store
  compact zero mem src dest s = fault out_of_fuel
  compact (suc fuel) mem src dest s = elim (get_elem? mem src) [
    | none ↦ fault out_of_bounds
    | some c ↦
        let copy = store mem dest c >>= λ m. compact fuel m (src + 1) (dest + 1) (next s c) in
        let skip = compact fuel mem (src + 1) dest (next s c) in
        let body = if keep s c then copy else skip in if more src c then body else store mem dest 0
  ]

  -- The bytes that stay.
  unfoldable pub compacted : S → Bytes → Bytes
  compacted s [] = []
  compacted s (c ∷ r) = let later = compacted (next s c) r in if keep s c then c ∷ later else later

  -- The loop's test passes on the string, and fails on the NUL behind it.
  abbrev pub Runs : ℕ → Bytes → Type 0
  Runs src [] = more src 0 ≡ false
  Runs src (c ∷ r) = (more src c ≡ true) × Runs (src + 1) r

  -- What lies between the two pointers after a byte was copied down over it.
  abbrev shifted : Bytes → ℕ → Bytes
  shifted [] c = []
  shifted (m ∷ mid) c = mid ++ c ∷ []

  length-shifted : (mid : Bytes) (c : ℕ) → length (shifted mid c) ≡ length mid
  length-shifted [] c = refl
  length-shifted (m ∷ mid) c = omega (arith, length-append {0} mid (c ∷ []))

  store-shifted :
      (out mid : Bytes) (c : ℕ) (rest : Bytes) (v : ℕ)
      → store (out ++ (mid ++ c ∷ rest)) (length out) v ≡ ok (out ++ v ∷ (shifted mid c ++ rest))
  unfolding store
  store-shifted out [] c rest v =
      ground (arith, length-append out (c ∷ rest), set-append out rest c v)
  store-shifted out (m ∷ mid) c rest v = ground (
    arith,
    length-append out (m ∷ (mid ++ c ∷ rest)),
    set-append out (mid ++ c ∷ rest) m v,
    append_assoc mid (c ∷ []) rest,
  )

  get_elem?-front :
      (out mid : Bytes) (c : ℕ) (rest : Bytes) (src : ℕ)
      → src ≡ length out + length mid
      → get_elem? (out ++ (mid ++ c ∷ rest)) src ≡ some c
  get_elem?-front out mid c rest src e =
      let e' : length (out ++ mid) ≡ src = omega (arith, length-append {0} out mid) in
      rw (← append_assoc out mid (c ∷ rest), ← e') (get_elem?-append (out ++ mid) rest c)

  compact-compacted :
      (rest out mid tail : Bytes) (s : S) (fuel src : ℕ)
      → length rest < fuel
      → src ≡ length out + length mid
      → Runs src rest
      → (junk : Bytes) × (compact fuel (out ++ (mid ++ (rest ++ 0 ∷ tail))) src (length out) s
          ≡ ok (out ++ (compacted s rest ++ 0 ∷ junk)))
  unfolding compact compacted
  compact-compacted rest out mid tail s zero src h e r = elim h [ ]
  compact-compacted [] out mid tail s (suc fuel) src h e r = (
    shifted mid 0 ++ tail,
    ground (arith, get_elem?-front out mid 0 tail src e, store-shifted out mid 0 tail 0),
  )
  compact-compacted (c ∷ rest) out mid tail s (suc fuel) src h e r = elim (Bool-cases (keep s c)) [
    | inl k ↦
        let (junk, eq) =
          compact-compacted rest (out ++ c ∷ []) (shifted mid c) tail (next s c) fuel (src + 1)
            (omega arith) (omega (arith, length-append {0} out (c ∷ []), length-shifted mid c))
            r.1 in
        (
          junk,
          ground (
            arith,
            get_elem?-front out mid c (rest ++ 0 ∷ tail) src e,
            store-shifted out mid c (rest ++ 0 ∷ tail) c,
            append_assoc out (c ∷ []) (shifted mid c ++ (rest ++ 0 ∷ tail)),
            append_assoc out (c ∷ []) (compacted (next s c) rest ++ 0 ∷ junk),
            length-append out (c ∷ []),
          ),
        )
    | inr k ↦
        let (junk, eq) =
          compact-compacted rest out (mid ++ c ∷ []) tail (next s c) fuel (src + 1) (omega arith)
            (omega (arith, length-append {0} mid (c ∷ []))) r.1 in
        (
          junk,
          ground (
            arith,
            get_elem?-front out mid c (rest ++ 0 ∷ tail) src e,
            append_assoc mid (c ∷ []) (rest ++ 0 ∷ tail),
          ),
        )
  ]

  -- From the start of a block that holds the string: the block then holds the bytes that stay.
  pub compact_lem :
      (s : S) (str tail : Bytes) (fuel : ℕ)
      → length str < fuel
      → Runs 0 str
      → (junk : Bytes) × (compact fuel (str ++ 0 ∷ tail) 0 0 s ≡ ok (compacted s str ++ 0 ∷ junk))
  compact_lem s str tail fuel h r = compact-compacted str [] [] tail s fuel 0 h (omega arith) r
