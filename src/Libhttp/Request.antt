-- ===== src/Libhttp/Request.antt =====
-- `http_request_string_parse` of libhttp.c. The buffer is a C string: the list holds no NUL.
-- Whether `malloc` gives a block is the parameter `alloc`, by the size asked for.
pub mod Sound
pub mod RoundTrip
use cloudcomputing_lab2_http.Prelude.{
  ℕ, ◌+◌, ◌-◌, ◌*◌, ◌%◌, ◌^◌, Bool, not, ◌&&◌, Option, none, some, [], ◌∷◌, ltb, leb, ◌==◌,
  if◌then◌else◌, length, take, drop,
}
use cloudcomputing_lab2_http.Result.{Result, ok, fault, overflow, null_pointer}
use cloudcomputing_lab2_http.Cstr.{Bytes, codes, span, strstr, is_digit}

-- `content` and `content_length` are `none` while they were never written.
pub record HttpRequest : Type 0 where
  pub method : Bytes
  pub path : Bytes
  pub content : Option Bytes
  pub content_length : Option ℕ

-- The values of a `size_t`.
abbrev pub size_t_mod : ℕ
size_t_mod = 2 ^ 64

abbrev pub is_upper : ℕ → Bool
is_upper c = leb b'A' c && leb c b'Z'

abbrev pub in_path : ℕ → Bool
in_path c = not (c == b' ') && not (c == b'\n')

abbrev pub in_line : ℕ → Bool
in_line c = not (c == b'\n')

abbrev pub content_length_key : Bytes
content_length_key = codes "Content-Length: "

abbrev pub blank_line : Bytes
blank_line = codes "\r\n\r\n"

-- The loop over the digits of the header's value, in a `size_t`.
unfoldable pub content_length_from : Bytes → ℕ → ℕ
content_length_from [] n = n
content_length_from (c ∷ s) n =
    let next = content_length_from s ((n * 10 + (c - b'0')) % size_t_mod) in
    if is_digit c then next else n

module _ (alloc : ℕ → Bool) where
  -- `strncpy` writes as many bytes as it is told, and a NUL goes behind them.
  unfoldable pub read_content : Bytes → Bytes → Bytes → ℕ → Result (Option HttpRequest)
  read_content method path content_start content_length =
      let size = (content_length + 1) % size_t_mod in
      if not (alloc size)
      then ok none
      else if ltb content_length size
      then ok (
          some (record {
            method = method;
            path = path;
            content = some (take content_length content_start);
            content_length = some content_length;
          }))
      else fault overflow

  -- What follows the request line.
  unfoldable pub read_headers : Bytes → Bytes → Bytes → Result (Option HttpRequest)
  unfolding read_content
  read_headers method path read_start = elim (strstr read_start content_length_key) [
    | none ↦
        ok (some (record { method = method; path = path; content = none; content_length = none }))
    | some i ↦
        let content_length = content_length_from (drop (i + 16) read_start) 0 in
        elim (strstr read_start blank_line) [
          | none ↦ ok none
          | some j ↦ read_content method path (drop (j + 4) read_start) content_length
        ]
  ]

  -- The rest of the request line, from behind the path.
  unfoldable pub read_version : Bytes → Bytes → Bytes → Result (Option HttpRequest)
  unfolding read_headers
  read_version method path [] = ok none
  read_version method path (c ∷ s) =
      let next = read_version method path s in
      if c == b'\n' then read_headers method path s else next

  -- The copy of a piece of the buffer to a block of its own.
  abbrev pub copied : Bytes → Result (Option HttpRequest) → Result (Option HttpRequest)
  copied piece next = if alloc (length piece + 1) then next else fault null_pointer

  -- `if (read_size == 0) break;`, then the copy of the path.
  unfoldable pub after_path : Bytes → Bytes → Bytes → Result (Option HttpRequest)
  unfolding read_version
  after_path method [] s = ok none
  after_path method (c ∷ path) s = copied (c ∷ path) (read_version method (c ∷ path) s)

  unfoldable pub read_path : Bytes → Bytes → Result (Option HttpRequest)
  unfolding after_path
  read_path method s = let (path, s') = span in_path s in after_path method path s'

  unfoldable pub read_space : Bytes → Bytes → Result (Option HttpRequest)
  unfolding read_path
  read_space method [] = ok none
  read_space method (c ∷ s) = if c == b' ' then read_path method s else ok none

  unfoldable pub after_method : Bytes → Bytes → Result (Option HttpRequest)
  unfolding read_space
  after_method [] s = ok none
  after_method (c ∷ method) s = copied (c ∷ method) (read_space (c ∷ method) s)

  unfoldable pub http_request_string_parse : Bytes → Result (Option HttpRequest)
  unfolding after_method
  http_request_string_parse read_buffer =
      let (method, s) = span is_upper read_buffer in after_method method s
