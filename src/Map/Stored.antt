-- ===== src/Map/Stored.antt =====
-- What the parsing loops leave in the array, as a function of the fields of the string.
pub mod Query
use cloudcomputing_lab2_http.Prelude.{
  ℕ, zero, suc, ◌+◌, ◌≤◌, ◌<◌, ◌≡◌, refl, ap, ◌∙◌, inl, inr, Bool, true, false, ◌&&◌, Option, none,
  some, List, [], ◌∷◌, ◌++◌, append-nil, append_assoc, arith, ltb, if◌then◌else◌, ltb→lt,
  Bool-cases, Option-cases, length, set, take, drop, length-append, take-all, take-exact,
}
use cloudcomputing_lab2_http.Result.{ok, fault, overflow}
use cloudcomputing_lab2_http.Cstr.{Bytes, strchr, strcpy}
use cloudcomputing_lab2_http.Map.{
  put_pair, KeyValuePair, ApiType, ApiRequest, max_params, max_param_length, max_value_length,
  store_pair, parse_param,
}
use cloudcomputing_lab2_http.Map.Fields.{fields, store_all, parse_pairs-store_all}

-- `n` elements: `ps` in order, then elements that were not written.
abbrev pub padded : ℕ → List KeyValuePair → List (Option KeyValuePair)
padded zero ps = []
padded (suc n) [] = none ∷ padded n []
padded (suc n) (p ∷ ps) = some p ∷ padded n ps

-- The array after `ps` was written to it, in order.
abbrev pub array : List KeyValuePair → List (Option KeyValuePair)
array ps = padded max_params ps

-- The request that holds the pairs `ps` and nothing else.
abbrev pub holding : ApiType → List KeyValuePair → ApiRequest
holding t ps = record { api_type = t; params = array ps; count = length ps }

-- A field as a pair: what stands before its first '=', and what stands behind.
unfoldable pub pair_of : Bytes → Option KeyValuePair
pair_of field = elim (strchr field b'=') [
  | none ↦ none
  | some i ↦ some (record { param = take i field; value = drop (suc i) field })
]

abbrev pub push_pair : Option KeyValuePair → List KeyValuePair → List KeyValuePair
push_pair none ps = ps
push_pair (some p) ps = p ∷ ps

abbrev pub pairs : List Bytes → List KeyValuePair
pairs [] = []
pairs (f ∷ fs) = push_pair (pair_of f) (pairs fs)

-- Both strings of a pair fit their arrays, with their NULs.
abbrev pub fits : KeyValuePair → Bool
fits p = ltb (length p.param) max_param_length && ltb (length p.value) max_value_length

abbrev pub all_fit : List KeyValuePair → Bool
all_fit [] = true
all_fit (p ∷ ps) = fits p && all_fit ps

-- The first ten of the old pairs and the new ones.
abbrev pub kept : List KeyValuePair → List KeyValuePair → List KeyValuePair
kept ps qs = take max_params (ps ++ qs)

pub length-padded : (n : ℕ) (ps : List KeyValuePair) → length (padded n ps) ≡ n
length-padded zero ps = refl
length-padded (suc n) [] = ap suc (length-padded n [])
length-padded (suc n) (p ∷ ps) = ap suc (length-padded n ps)

set-padded :
    (n : ℕ) (ps : List KeyValuePair) (p : KeyValuePair)
    → length ps < n
    → set (padded n ps) (length ps) (some p) ≡ padded n (ps ++ p ∷ [])
set-padded zero ps p h = elim h [ ]
set-padded (suc n) [] p h = refl
set-padded (suc n) (q ∷ ps) p h = rw (set-padded n ps p (omega arith))

pub all_fit-append : (ps qs : List KeyValuePair) → all_fit (ps ++ qs) ≡ (all_fit ps && all_fit qs)
all_fit-append [] qs = refl
all_fit-append (p ∷ ps) qs = ground (arith, all_fit-append ps qs)

take-append-suc :
    (n : ℕ) (ps qs : List KeyValuePair) (p : KeyValuePair)
    → length ps < n
    → fits p ≡ false
    → all_fit (take n (ps ++ p ∷ qs)) ≡ false
take-append-suc zero ps qs p h f = elim h [ ]
take-append-suc (suc n) [] qs p h f = ground arith
take-append-suc (suc n) (r ∷ ps) qs p h f =
    ground (arith, take-append-suc n ps qs p (omega arith) f)

put_pair-holding :
    (p : KeyValuePair) (t : ApiType) (ps : List KeyValuePair)
    → length ps < 10
    → put_pair p (holding t ps) ≡ ok (holding t (ps ++ p ∷ []))
unfolding put_pair
put_pair-holding p t ps h =
    ground (arith, length-padded 10 ps, set-padded 10 ps p h, length-append ps (p ∷ []))

store_pair-none :
    (x : Bytes) (request : ApiRequest) → pair_of x ≡ none → store_pair x request ≡ ok request
unfolding store_pair pair_of
store_pair-none x request e = ground arith

store_pair-some :
    (x : Bytes) (request : ApiRequest) (p : KeyValuePair)
    → pair_of x ≡ some p
    → store_pair x request ≡ (if fits p then put_pair p request else fault overflow)
unfolding store_pair pair_of strcpy
store_pair-some x request p e = elim (Option-cases (strchr x b'=')) [
  | inl n ↦ ground arith
  | inr (i, n) ↦ ground arith
]

store_all-holding :
    (fs : List Bytes) (t : ApiType) (ps : List KeyValuePair)
    → length ps ≤ 10
    → all_fit ps ≡ true
    → store_all fs (holding t ps) ≡ (
        if all_fit (kept ps (pairs fs))
        then ok (holding t (kept ps (pairs fs)))
        else fault overflow)
unfolding store_all
store_all-holding [] t ps h f = rw (append-nil, take-all ps 10 h, f)
store_all-holding (x ∷ fs) t ps h f = elim (Bool-cases (ltb (length ps) 10)) [
  | inl room ↦ elim (Option-cases (pair_of x)) [
    | inl e ↦ rw (room, e, store_pair-none x (holding t ps) e) (store_all-holding fs t ps h f)
    | inr (p, e) ↦
        rw (room, e, store_pair-some x (holding t ps) p e)
          (elim (Bool-cases (fits p)) [
            | inl ok_p ↦
                rw (ok_p, put_pair-holding p t ps (ltb→lt _ _ room))
                  (rw (append_assoc ps (p ∷ []) (pairs fs)) at (
                    store_all-holding fs t (ps ++ p ∷ [])
                      (omega (arith, length-append {0} ps (p ∷ []), ltb→lt (length ps) 10 room))
                      (ground (arith, all_fit-append ps (p ∷ [])))))
            | inr bad ↦ rw (bad, take-append-suc 10 ps (pairs fs) p (ltb→lt _ _ room) bad)
          ])
  ]
  | inr full ↦ rw full (rw (take-exact 10 ps (push_pair (pair_of x) (pairs fs)) (ground arith), f))
]

-- `parseParam` on any string, and a request that holds `ps`: the pairs of the fields go behind
-- `ps`, up to ten pairs in all; one that does not fit its arrays overflows them.
pub parse_param-holding :
    (s : Bytes) (t : ApiType) (ps : List KeyValuePair)
    → length ps ≤ 10
    → all_fit ps ≡ true
    → parse_param s (holding t ps) ≡ (
        if all_fit (kept ps (pairs (fields s)))
        then ok (holding t (kept ps (pairs (fields s))))
        else fault overflow)
unfolding parse_param
parse_param-holding s t ps h f =
    parse_pairs-store_all (length s + 1) s (holding t ps) (omega arith)
    ∙ store_all-holding (fields s) t ps h f
