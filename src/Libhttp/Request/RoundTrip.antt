-- ===== src/Libhttp/Request/RoundTrip.antt =====
-- A request that a client writes is read back.
use cloudcomputing_lab2_http.Prelude.{
  ℕ, zero, suc, ◌+◌, ◌-◌, ◌/◌, ◌%◌, ◌<◌, ◌≡◌, refl, ◌∙◌, Bool, true, false, none, some, [], ◌∷◌,
  ◌++◌, append_assoc, arith, length, take, drop-past,
}
use cloudcomputing_lab2_http.Cstr.{strstr, Bytes, is_digit, decimal, decimal_from}
use cloudcomputing_lab2_http.Cstr.Search.{IsClear, strstr-IsClear, Lacks, span-append}
use cloudcomputing_lab2_http.Libhttp.Request.{
  read_content, is_upper, in_path, read_headers, read_version, read_path, read_space, after_path,
  after_method, http_request_string_parse, content_length_from, size_t_mod, content_length_key,
  blank_line,
}
use cloudcomputing_lab2_http.Result.{ok, fault, overflow}
use cloudcomputing_lab2_http.Libhttp.Request.Sound.{IsField}

-- The text does not start with a digit.
abbrev pub StopsDigits : Bytes → Type 0
StopsDigits [] = Unit
StopsDigits (c ∷ s) = is_digit c ≡ false

content_length_from_stop : (s : Bytes) (n : ℕ) → StopsDigits s → content_length_from s n ≡ n
unfolding content_length_from
content_length_from_stop [] n h = refl
content_length_from_stop (c ∷ s) n h = rw h

content_length_from-decimal_from :
    (f n : ℕ) (acc rest : Bytes)
    → n < f
    → n < size_t_mod
    → content_length_from (decimal_from f n acc ++ rest) 0 ≡ content_length_from (acc ++ rest) n
unfolding decimal_from content_length_from
content_length_from-decimal_from zero n acc rest h k = elim h [ ]
content_length_from-decimal_from (suc f) n acc rest h k =
    ground (arith, content_length_from-decimal_from f (n / 10) ((b'0' + n % 10) ∷ acc) rest)

-- The loop over the digits reads what `%d` prints.
pub content_length_from-decimal :
    (n : ℕ) (rest : Bytes)
    → n < size_t_mod
    → StopsDigits rest
    → content_length_from (decimal n ++ rest) 0 ≡ n
unfolding decimal
content_length_from-decimal n rest k h =
    content_length_from-decimal_from (suc n) n [] rest (omega arith) k
    ∙ content_length_from_stop rest n h

-- The request line that a client writes.
abbrev pub request_line : Bytes → Bytes → Bytes → Bytes → Bytes
request_line method path version rest = method ++ b' ' ∷ (path ++ b' ' ∷ (version ++ b'\n' ∷ rest))

-- The header and the blank line, with other headers before and behind.
abbrev pub with_content : Bytes → ℕ → Bytes → Bytes → Bytes
with_content headers n more body =
    headers ++ (content_length_key ++ (decimal n ++ (more ++ (blank_line ++ body))))

-- The parts of a request that a client wrote, in the form that the parser reads back: `headers`
-- and `more` are other header lines, and neither holds what the parser looks for.
pub record IsWritten (method path version headers : Bytes) (n : ℕ) (more body : Bytes)
    : Type 0 where
  pub method_ok : IsField is_upper method
  pub path_ok : IsField in_path path
  pub version_ok : Lacks b'\n' version
  pub stops : StopsDigits (more ++ (blank_line ++ body))
  pub no_key :
      IsClear content_length_key headers
        (content_length_key ++ (decimal n ++ (more ++ (blank_line ++ body))))
  pub no_blank :
      IsClear blank_line
        (headers ++ (content_length_key ++ (decimal n ++ more)))
        (blank_line ++ body)

module _ (alloc : ℕ → Bool) (allocates : (n : ℕ) → alloc n ≡ true) where
  read_version-line :
      (method path version rest : Bytes)
      → Lacks b'\n' version
      → read_version alloc method path (version ++ b'\n' ∷ rest)
        ≡ read_headers alloc method path rest
  unfolding read_version
  read_version-line method path [] rest l = refl
  read_version-line method path (c ∷ v) rest l =
      ground (arith, read_version-line method path v rest l.1)

  parse-request_line :
      (method path version rest : Bytes)
      → IsField is_upper method
      → IsField in_path path
      → Lacks b'\n' version
      → http_request_string_parse alloc (request_line method path version rest)
        ≡ read_headers alloc method path rest
  unfolding http_request_string_parse after_method read_space read_path after_path
  parse-request_line [] path version rest m p l = absurd (m.0 refl)
  parse-request_line (c ∷ method) [] version rest m p l = absurd (p.0 refl)
  parse-request_line (c ∷ method) (d ∷ path) version rest m p l = ground (
    arith,
    allocates (length (c ∷ method) + 1),
    allocates (length (d ∷ path) + 1),
    span-append is_upper (c ∷ method) b' ' (d ∷ path ++ b' ' ∷ (version ++ b'\n' ∷ rest)) m.1,
    span-append in_path (d ∷ path) b' ' (version ++ b'\n' ∷ rest) p.1,
    read_version-line (c ∷ method) (d ∷ path) (b' ' ∷ version) rest,
  )

  read_headers-with_content :
      (method path headers : Bytes) (n : ℕ) (more body : Bytes)
      → n < size_t_mod
      → StopsDigits (more ++ (blank_line ++ body))
      → IsClear content_length_key headers
          (content_length_key ++ (decimal n ++ (more ++ (blank_line ++ body))))
      → IsClear blank_line
          (headers ++ (content_length_key ++ (decimal n ++ more)))
          (blank_line ++ body)
      → read_headers alloc method path (with_content headers n more body)
        ≡ read_content alloc method path body n
  unfolding read_headers
  read_headers-with_content method path headers n more body k d c b =
      let announced = decimal n ++ (more ++ (blank_line ++ body)) in
      let front = headers ++ (content_length_key ++ (decimal n ++ more)) in
      let e : front ++ (blank_line ++ body) ≡ with_content headers n more body =
        simp append_assoc in
      let found = rw e at (strstr-IsClear blank_line front body b) in
      let behind =
        rw e at (drop-past front (blank_line ++ body) (length front + 4) 4 (omega arith)) in
      ground (
        arith,
        strstr-IsClear content_length_key headers announced c,
        found,
        behind,
        drop-past headers (content_length_key ++ announced) (length headers + 16) 16,
        content_length_from-decimal n (more ++ (blank_line ++ body)) k d,
      )

  parse-with_content :
      (method path version headers : Bytes) (n : ℕ) (more body : Bytes)
      → IsWritten method path version headers n more body
      → n < size_t_mod
      → http_request_string_parse alloc
          (request_line method path version (with_content headers n more body))
        ≡ read_content alloc method path body n
  parse-with_content method path version headers n more body w k =
      parse-request_line method path version _ w.method_ok w.path_ok w.version_ok
      ∙ read_headers-with_content method path headers n more body k w.stops w.no_key w.no_blank

  -- A request with a Content-Length below 2^64 - 1 is read back: its method, its path, the length,
  -- and as many bytes of the body as the length says.
  pub http_request_string_parse-with_content :
      (method path version headers : Bytes) (n : ℕ) (more body : Bytes)
      → IsWritten method path version headers n more body
      → n + 1 < size_t_mod
      → http_request_string_parse alloc
          (request_line method path version (with_content headers n more body))
        ≡ ok (
            some (record {
              method = method;
              path = path;
              content = some (take n body);
              content_length = some n;
            }))
  http_request_string_parse-with_content method path version headers n more body w k =
      parse-with_content method path version headers n more body w (omega arith)
      ∙ unfold read_content in ground (arith, allocates ((n + 1) % size_t_mod))

  -- The Content-Length 2^64 - 1 wraps the size of the block to 0, and the copy overflows it.
  pub http_request_string_parse-overflow :
      (method path version headers more body : Bytes)
      → IsWritten method path version headers (size_t_mod - 1) more body
      → http_request_string_parse alloc
          (request_line method path version (with_content headers (size_t_mod - 1) more body))
        ≡ fault overflow
  http_request_string_parse-overflow method path version headers more body w =
      parse-with_content method path version headers (size_t_mod - 1) more body w (omega arith)
      ∙ unfold read_content in ground (arith, allocates 0)

  -- A request with no Content-Length is read back, with no content.
  pub http_request_string_parse-no_content :
      (method path version rest : Bytes)
      → IsField is_upper method
      → IsField in_path path
      → Lacks b'\n' version
      → strstr rest content_length_key ≡ none
      → http_request_string_parse alloc (request_line method path version rest)
        ≡ ok (some (record { method = method; path = path; content = none; content_length = none }))
  http_request_string_parse-no_content method path version rest m p l h =
      parse-request_line method path version rest m p l
      ∙ unfold read_headers in rw (h, read_headers)
