-- ===== src/Cstr/Number.antt =====
-- `atoi`, and the numbers that it reads back.
use cloudcomputing_lab2_http.Prelude.{
  ℕ, zero, suc, ◌+◌, ◌-◌, ◌*◌, ◌/◌, ◌%◌, ◌^◌, ◌<◌, ◌≡◌, ◌∙◌, Bool, true, false, ◌&&◌, ◌||◌, [], ◌∷◌,
  arith, ltb, leb, ◌==◌, if◌then◌else◌, ℤ, pos, negsuc,
}
use cloudcomputing_lab2_http.Result.{Result, ok, fault, out_of_range}
use cloudcomputing_lab2_http.Cstr.{Bytes, is_digit, decimal, decimal_from}

abbrev is_space : ℕ → Bool
is_space c = c == 32 || (leb 9 c && leb c 13)

-- The number of the digits in front.
unfoldable pub digits_value : Bytes → ℕ → ℕ
digits_value [] n = n
digits_value (c ∷ s) n =
    let more = digits_value s (n * 10 + (c - b'0')) in if is_digit c then more else n

-- The int with a sign and an absolute value.
unfoldable pub signed : Bool → ℕ → Result ℤ
signed false n = if ltb n (2 ^ 31) then ok (pos n) else fault out_of_range
signed true n =
    if n == 0
    then ok (pos 0)
    else if leb n (2 ^ 31)
    then ok (negsuc (n - 1))
    else fault out_of_range

-- Behind the spaces.
unfoldable pub atoi_signed : Bytes → Result ℤ
unfolding digits_value signed
atoi_signed [] = ok (pos 0)
atoi_signed (c ∷ s) =
    if c == b'-'
    then signed true (digits_value s 0)
    else if c == b'+'
    then signed false (digits_value s 0)
    else signed false (digits_value (c ∷ s) 0)

unfoldable pub atoi : Bytes → Result ℤ
unfolding atoi_signed
atoi [] = ok (pos 0)
atoi (c ∷ s) = let skipped = atoi s in if is_space c then skipped else atoi_signed (c ∷ s)

digits_value-decimal_from :
    (f n : ℕ) (acc : Bytes) → n < f → digits_value (decimal_from f n acc) 0 ≡ digits_value acc n
unfolding decimal_from digits_value
digits_value-decimal_from zero n acc h = elim h [ ]
digits_value-decimal_from (suc f) n acc h =
    ground (arith, digits_value-decimal_from f (n / 10) ((b'0' + n % 10) ∷ acc))

abbrev first_digit : Bytes → Bool
first_digit [] = false
first_digit (c ∷ s) = is_digit c

first_digit-decimal_from :
    (f n : ℕ) (acc : Bytes) → n < f → first_digit (decimal_from f n acc) ≡ true
unfolding decimal_from
first_digit-decimal_from zero n acc h = elim h [ ]
first_digit-decimal_from (suc f) n acc h =
    ground (arith, first_digit-decimal_from f (n / 10) ((b'0' + n % 10) ∷ acc))

atoi-first_digit : (s : Bytes) → first_digit s ≡ true → atoi s ≡ signed false (digits_value s 0)
unfolding atoi
atoi-first_digit [] h = absurd (ground arith)
atoi-first_digit (c ∷ s) h = ground arith

-- A number of an int, written in decimal, is read back.
pub atoi-decimal : (n : ℕ) → n < 2 ^ 31 → atoi (decimal n) ≡ ok (pos n)
unfolding decimal signed digits_value
atoi-decimal n h =
    atoi-first_digit (decimal n) (first_digit-decimal_from (suc n) n [] (omega arith))
    ∙ rw (digits_value-decimal_from (suc n) n [] (omega arith)) (ground arith)
