-- ===== src/Libhttp/Request/Sound.antt =====
-- What an accepted request says of the buffer.
use cloudcomputing_lab2_http.Prelude.{
  ℕ, ◌+◌, ◌≤◌, ◌≡◌, refl, ◌≢◌, inl, inr, Bool, true, Option, none, some, [], ◌∷◌, ◌++◌, arith, ◌==◌,
  ==_iff, Bool-cases, Option-cases, length, drop, length-take, All, All-split,
}
use cloudcomputing_lab2_http.Result.{ok}
use cloudcomputing_lab2_http.Cstr.{Bytes, span, strstr}
use cloudcomputing_lab2_http.Cstr.Search.{Lacks}
use cloudcomputing_lab2_http.Libhttp.Request.{
  after_path, after_method, HttpRequest, is_upper, in_path, read_content, read_headers,
  read_version, read_path, read_space, http_request_string_parse, content_length_from,
  content_length_key, blank_line,
}

-- The bytes of a field: one at least, each of the kind.
abbrev pub IsField : (ℕ → Bool) → Bytes → Type 0
IsField p s = (s ≢ []) × All (λ c. p c ≡ true) s

-- Content and its announced length: both are there or neither, and the content is no longer.
abbrev pub Fits : Option Bytes → Option ℕ → Type 0
Fits none none = Unit
Fits (some s) (some n) = length s ≤ n
Fits _ _ = ⊥

-- The request is what the buffer starts with.
pub record Describes (read_buffer : Bytes) (r : HttpRequest) : Type 0 where
  pub rest : Bytes
  pub starts : read_buffer ≡ r.method ++ b' ' ∷ (r.path ++ rest)
  pub method_ok : IsField is_upper r.method
  pub path_ok : IsField in_path r.path
  pub content_fits : Fits r.content r.content_length

span-splits :
    (p : ℕ → Bool) (s : Bytes)
    → ((span p s).0 ++ (span p s).1 ≡ s) × All (λ c. p c ≡ true) (span p s).0
unfolding span
span-splits p [] = (refl, tt)
span-splits p (c ∷ s) = ground (arith, span-splits p s)

-- A request with the method and path at hand.
abbrev Has : Bytes → Bytes → HttpRequest → Type 0
Has method path r = (r.method ≡ method) × (r.path ≡ path) × Fits r.content r.content_length

module _ (alloc : ℕ → Bool) where
  read_content-Has :
      (method path s : Bytes) (n : ℕ) (r : HttpRequest)
      → read_content alloc method path s n ≡ ok (some r)
      → Has method path r
  unfolding read_content
  read_content-Has method path s n r h = ground (arith, length-take n s)

  read_headers-Has :
      (method path s : Bytes) (r : HttpRequest)
      → read_headers alloc method path s ≡ ok (some r)
      → Has method path r
  unfolding read_headers
  read_headers-Has method path s r h = elim (Option-cases (strstr s content_length_key)) [
    | inl e ↦ ground arith
    | inr (i, e) ↦ elim (Option-cases (strstr s blank_line)) [
      | inl e' ↦ ground arith
      | inr (j, e') ↦ ground (
        arith,
        read_content-Has method path (drop (j + 4) s) (content_length_from (drop (i + 16) s) 0) r,
      )
    ]
  ]

  read_version-Has :
      (method path s : Bytes) (r : HttpRequest)
      → read_version alloc method path s ≡ ok (some r)
      → Has method path r
  unfolding read_version
  read_version-Has method path [] r h = cc
  read_version-Has method path (c ∷ s) r h =
      ground (arith, read_headers-Has method path s r, read_version-Has method path s r)

  after_path-Has :
      (method path s : Bytes) (r : HttpRequest)
      → All (λ c. in_path c ≡ true) path
      → after_path alloc method path s ≡ ok (some r)
      → Has method path r × IsField in_path path
  unfolding after_path
  after_path-Has method [] s r a h = cc
  after_path-Has method (c ∷ path) s r a h = elim (Bool-cases (alloc (length (c ∷ path) + 1))) [
    | inl e ↦ (read_version-Has method (c ∷ path) s r (rw e at h), ((λ n. cc), a))
    | inr e ↦ absurd (ground arith)
  ]

  read_path-Describes :
      (method s : Bytes) (r : HttpRequest)
      → IsField is_upper method
      → read_path alloc method s ≡ ok (some r)
      → Describes (method ++ b' ' ∷ s) r
  unfolding read_path
  read_path-Describes method s r m h =
      let (e, a) = span-splits in_path s in
      let (has, f) = after_path-Has method (span in_path s).0 (span in_path s).1 r a h in
      record {
        rest = (span in_path s).1;
        starts = rw (has.0, has.1, e);
        method_ok = rw has.0 m;
        path_ok = rw has.1 f;
        content_fits = has.2;
      }

  after_method-Describes :
      (method s : Bytes) (r : HttpRequest)
      → All (λ c. is_upper c ≡ true) method
      → after_method alloc method s ≡ ok (some r)
      → Describes (method ++ s) r
  unfolding after_method read_space
  after_method-Describes [] s r a h = cc
  after_method-Describes (c ∷ method) [] r a h = absurd (ground arith)
  after_method-Describes (c ∷ method) (d ∷ s) r a h =
      elim (Bool-cases (alloc (length (c ∷ method) + 1))) [
        | inl e ↦ elim (Bool-cases (d == b' ')) [
          | inl sp ↦
              rw ((==_iff d b' ').0 sp)
                (read_path-Describes (c ∷ method) s r ((λ n. cc), a) (ground arith))
          | inr sp ↦ absurd (ground arith)
        ]
        | inr e ↦ absurd (ground arith)
      ]

  -- An accepted buffer starts with the method, a space and the path. The method is one or more
  -- capitals, the path one or more bytes without a space or a newline. A content is stored exactly
  -- if a length is, and is no longer than it.
  pub http_request_string_parse-Describes :
      (read_buffer : Bytes) (r : HttpRequest)
      → http_request_string_parse alloc read_buffer ≡ ok (some r)
      → Describes read_buffer r
  unfolding http_request_string_parse
  http_request_string_parse-Describes read_buffer r h =
      let (e, a) = span-splits is_upper read_buffer in
      rw e at
        (after_method-Describes (span is_upper read_buffer).0 (span is_upper read_buffer).1 r a h)

-- The path of a buffer without NUL has none.
pub path-Lacks :
    (input : Bytes) (r : HttpRequest) → Describes input r → Lacks 0 input → Lacks 0 r.path
path-Lacks input r d h =
    let nz = λ (c : ℕ). c ≢ 0 in
    let zeros : Lacks 0 (r.method ++ b' ' ∷ (r.path ++ d.rest)) = rw (← d.starts) h in
    (All-split nz r.path d.rest (All-split nz r.method (b' ' ∷ (r.path ++ d.rest)) zeros).1.1).0
