-- ===== src/Cstr.antt =====
-- C strings, and the functions of string.h, stdlib.h and stdio.h that the program calls.
-- A C string is the list of its bytes before the NUL. Pointers into a string are offsets.
pub mod Search
pub mod Equal
pub mod Compact
pub mod Number
use Prim.Native.Char.{code}
use cloudcomputing_lab2_http.Prelude.{
  ℕ, zero, suc, ◌+◌, ◌/◌, ◌%◌, String, Bool, true, false, ◌&&◌, not, Option, none, some, List, [],
  ◌∷◌, ltb, leb, ◌==◌, if◌then◌else◌, length, take, drop,
}
use cloudcomputing_lab2_http.Result.{Result, ok, fault, overflow, out_of_bounds}

abbrev pub Bytes : Type 0
Bytes = List ℕ

-- A literal of the source. Every literal that the model uses is ASCII.
abbrev pub codes : String → Bytes
codes String.[] = []
codes (String.◌∷◌ c s) = code c ∷ codes s

-- The bytes before the first NUL.
unfoldable pub cstr : Bytes → Bytes
cstr [] = []
cstr (c ∷ s) = if c == 0 then [] else c ∷ cstr s

-- The string at an offset of a block of memory. Its read runs to a NUL, and a block without one
-- behind the offset is read behind its end.
unfoldable pub string_at : Bytes → ℕ → Result Bytes
string_at [] i = fault out_of_bounds
string_at (c ∷ m) zero =
    if c == 0 then ok [] else elim (string_at m zero) [ ok s ↦ ok (c ∷ s) | fault e ↦ fault e ]
string_at (c ∷ m) (suc i) = string_at m i

-- strcmp(s, t) == 0
unfoldable pub strcmp_eq : Bytes → Bytes → Bool
strcmp_eq [] [] = true
strcmp_eq [] (d ∷ t) = false
strcmp_eq (c ∷ s) [] = false
strcmp_eq (c ∷ s) (d ∷ t) = c == d && strcmp_eq s t

-- strncmp(s, t, n) == 0
unfoldable pub strncmp_eq : Bytes → Bytes → ℕ → Bool
unfolding strcmp_eq
strncmp_eq s t n = strcmp_eq (take n s) (take n t)

-- The offset of the first `c`.
unfoldable pub strchr : Bytes → ℕ → Option ℕ
strchr [] c = none
strchr (d ∷ s) c =
    if d == c then some 0 else elim (strchr s c) [ none ↦ none | some i ↦ some (suc i) ]

-- The offset of the last `c`.
unfoldable pub strrchr : Bytes → ℕ → Option ℕ
strrchr [] c = none
strrchr (d ∷ s) c = elim (strrchr s c) [
  | none ↦ if d == c then some 0 else none
  | some i ↦ some (suc i)
]

unfoldable pub starts_with : Bytes → Bytes → Bool
starts_with s [] = true
starts_with [] (d ∷ t) = false
starts_with (c ∷ s) (d ∷ t) = c == d && starts_with s t

-- The offset of the first occurrence of a needle.
unfoldable pub strstr : Bytes → Bytes → Option ℕ
unfolding starts_with
strstr [] t = if starts_with [] t then some 0 else none
strstr (c ∷ s) t =
    if starts_with (c ∷ s) t
    then some 0
    else elim (strstr s t) [ none ↦ none | some i ↦ some (suc i) ]

-- strcpy into an array of `size` bytes: the string and its NUL have to fit.
unfoldable pub strcpy : ℕ → Bytes → Result Bytes
strcpy size s = if ltb (length s) size then ok s else fault overflow

-- The longest prefix whose bytes pass a test, and what follows it.
unfoldable pub span : (ℕ → Bool) → Bytes → Bytes × Bytes
span p [] = ([], [])
span p (c ∷ s) = let (a, b) = span p s in if p c then (c ∷ a, b) else ([], c ∷ s)

abbrev pub is_digit : ℕ → Bool
is_digit c = leb b'0' c && leb c b'9'

-- `%d` of a number that is not negative: digits from the lowest, on fuel.
unfoldable pub decimal_from : ℕ → ℕ → Bytes → Bytes
decimal_from zero n acc = acc
decimal_from (suc f) n acc =
    let rest = decimal_from f (n / 10) ((b'0' + n % 10) ∷ acc) in
    if ltb n 10 then (b'0' + n) ∷ acc else rest

unfoldable pub decimal : ℕ → Bytes
unfolding decimal_from
decimal n = decimal_from (suc n) n []

-- strtok(s, delimiter) on the part of the string that is left: the delimiters in front are
-- skipped; the token runs to the next delimiter, behind which the next call goes on.
unfoldable pub strtok : Bytes → ℕ → Option (Bytes × Bytes)
unfolding span
strtok [] d = none
strtok (c ∷ s) d =
    let skipped = strtok s d in
    let (a, b) = span (λ x. not (x == d)) (c ∷ s) in if c == d then skipped else some (a, drop 1 b)
