-- ===== src/Map/Fields.antt =====
-- The loops over `strtok`, against the list of the fields of a string: its non-empty pieces
-- between '&' signs.
use cloudcomputing_lab2_http.Prelude.{
  ℕ, zero, suc, ◌+◌, ◌<◌, ◌≡◌, refl, inl, inr, Bool, not, none, some, List, [], ◌∷◌, arith, ltb,
  ◌==◌, if◌then◌else◌, Option-cases, length, drop, length-drop,
}
use mathlib.Core.Path.{fun_ext}
use cloudcomputing_lab2_http.Result.{Result, ok, ◌>>=◌}
use cloudcomputing_lab2_http.Cstr.{Bytes, strtok, span}
use cloudcomputing_lab2_http.Map.{ApiRequest, store_pair, parse_pairs, max_params}

-- All pieces, the empty ones too. There is one at least.
pub data Pieces : Type 0 where
  pieces : Bytes → List Bytes → Pieces

abbrev pub add_byte : ℕ → Pieces → Pieces
add_byte c (pieces p ps) = pieces (c ∷ p) ps

abbrev pub new_piece : Pieces → Pieces
new_piece (pieces p ps) = pieces [] (p ∷ ps)

unfoldable pub split : ℕ → Bytes → Pieces
split d [] = pieces [] []
split d (c ∷ s) = let r = split d s in if c == d then new_piece r else add_byte c r

abbrev pub keep : Bytes → List Bytes → List Bytes
keep [] ps = ps
keep (c ∷ p) ps = (c ∷ p) ∷ ps

abbrev pub keep_all : List Bytes → List Bytes
keep_all [] = []
keep_all (p ∷ ps) = keep p (keep_all ps)

abbrev pub keep_pieces : Pieces → List Bytes
keep_pieces (pieces p ps) = keep p (keep_all ps)

unfoldable pub fields : Bytes → List Bytes
unfolding split
fields s = keep_pieces (split b'&' s)

-- The loop over a list of tokens.
unfoldable pub store_all : List Bytes → ApiRequest → Result ApiRequest
store_all [] request = ok request
store_all (token ∷ tokens) request =
    if ltb request.count max_params
    then (store_pair token request >>= store_all tokens)
    else ok request

abbrev not_amp : ℕ → Bool
not_amp x = not (x == b'&')

abbrev after : Bytes → List Bytes
after [] = []
after (c ∷ b) = keep_pieces (split b'&' b)

abbrev head_piece : Pieces → Bytes
head_piece (pieces p ps) = p

abbrev tail_pieces : Pieces → List Bytes
tail_pieces (pieces p ps) = keep_all ps

split-span :
    (s : Bytes)
    → (head_piece (split b'&' s) ≡ (span not_amp s).0)
      × (tail_pieces (split b'&' s) ≡ after (span not_amp s).1)
unfolding split span
split-span [] = (refl, refl)
split-span (c ∷ s) = ground (arith, split-span s)

length-span : (p : ℕ → Bool) (s : Bytes) → length (span p s).0 + length (span p s).1 ≡ length s
unfolding span
length-span p [] = omega arith
length-span p (c ∷ s) = ground (arith, length-span p s)

strtok-none : (s : Bytes) → strtok s b'&' ≡ none → fields s ≡ []
unfolding strtok fields
strtok-none [] h = refl
strtok-none (c ∷ s) h = ground (arith, strtok-none s)

after-drop : (b : Bytes) → after b ≡ fields (drop 1 b)
unfolding fields
after-drop [] = refl
after-drop (c ∷ b) = refl

strtok-some :
    (s token rest : Bytes)
    → strtok s b'&' ≡ some (token, rest)
    → (fields s ≡ token ∷ fields rest) × (length rest < length s)
unfolding strtok fields span split
strtok-some [] token rest h = cc
strtok-some (c ∷ s) token rest h = ground (
  arith,
  strtok-some s token rest,
  split-span s,
  length-span not_amp s,
  after-drop (span not_amp s).1,
  length-drop 1 (span not_amp s).1,
)

pub parse_pairs-store_all :
    (fuel : ℕ) (s : Bytes) (request : ApiRequest)
    → length s < fuel
    → parse_pairs fuel s request ≡ store_all (fields s) request
unfolding parse_pairs store_all
parse_pairs-store_all zero s request h = elim h [ ]
parse_pairs-store_all (suc fuel) s request h = elim (Option-cases (strtok s b'&')) [
  | inl e ↦ ground (arith, strtok-none s e)
  | inr ((token, rest), e) ↦
      let (f, l) = strtok-some s token rest e in
      rw f (rw (← fun_ext (λ r. parse_pairs-store_all fuel rest r (omega arith))) (ground arith))
]
