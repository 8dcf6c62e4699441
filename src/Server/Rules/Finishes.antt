-- ===== src/Server/Rules/Finishes.antt =====
-- The functions without a system call never run out of fuel, whatever they are given.
use cloudcomputing_lab2_http.Prelude.{
  ℕ, zero, suc, ◌+◌, ◌≡◌, refl, sym, ap, ◌∙◌, ◌≢◌, ◌⊎◌, inl, inr, Bool, Option, List, [], ◌∷◌, ◌++◌,
  arith, Option-cases, length, take, drop, ℤ,
}
use cloudcomputing_lab2_http.Result.{Result, ok, fault, overflow, exit, out_of_fuel}
use cloudcomputing_lab2_http.Cstr.{Bytes, codes, strchr, strcpy, string_at, span}
use cloudcomputing_lab2_http.Cstr.Search.{Lacks}
use cloudcomputing_lab2_http.Map.{
  ApiRequest, points, unset, initapi_request, parse_query_string, parse_param, read_api_type,
  store_pair, put_pair,
}
use cloudcomputing_lab2_http.Map.Fields.{fields, store_all, parse_pairs-store_all}
use cloudcomputing_lab2_http.Libhttp.Request.{
  HttpRequest, is_upper, in_path, http_request_string_parse, read_content, read_headers,
  read_version, after_path, read_path, read_space, after_method,
}
use cloudcomputing_lab2_http.Libhttp.Url.{squeezed, normalize_url, normalize_url-block}
use cloudcomputing_lab2_http.Server.Send.{sprintf_size, print_int, max_file_size}
use cloudcomputing_lab2_http.Server.Text.{
  without_blanks, remove_spaces_and_newlines, remove_spaces_and_newlines_lem,
}
use cloudcomputing_lab2_http.Server.Api.{param_at, find_item, is_match, value_is, compact_text}
use cloudcomputing_lab2_http.Server.Api.Cjson.{Json}
use cloudcomputing_lab2_http.Server.Handler.{
  Setting, file_name, has_id_and_name, content_of, api_request_of,
}

abbrev pub Finishes : {A : Type 0} → Result A → Type 0
Finishes r = r ≢ fault out_of_fuel

pub overflow_ne : overflow ≢ out_of_fuel
overflow_ne h = ground arith

pub exit_ne : (n : ℕ) → exit n ≢ out_of_fuel
exit_ne n h = ground arith

strcpy-Finishes : (size : ℕ) (s : Bytes) → Finishes (strcpy size s)
unfolding strcpy
strcpy-Finishes size s h = ground arith

pub sprintf_size-Finishes : (size : ℤ) → Finishes (sprintf_size size)
unfolding sprintf_size
sprintf_size-Finishes size = strcpy-Finishes max_file_size (print_int size)

pub string_at-Finishes : (m : Bytes) (i : ℕ) → Finishes (string_at m i)
unfolding string_at
string_at-Finishes [] i h = ground arith
string_at-Finishes (c ∷ m) zero h = ground (arith, string_at-Finishes m zero)
string_at-Finishes (c ∷ m) (suc i) h = string_at-Finishes m i h

module _ (alloc : ℕ → Bool) where
  read_content-Finishes :
      (method path s : Bytes) (n : ℕ) → Finishes (read_content alloc method path s n)
  unfolding read_content
  read_content-Finishes method path s n h = ground arith

  read_headers-Finishes : (method path s : Bytes) → Finishes (read_headers alloc method path s)
  unfolding read_headers
  read_headers-Finishes method path s h = grind (arith, read_content-Finishes)

  read_version-Finishes : (method path s : Bytes) → Finishes (read_version alloc method path s)
  unfolding read_version
  read_version-Finishes method path [] h = ground arith
  read_version-Finishes method path (c ∷ s) h =
      ground (arith, read_headers-Finishes method path s, read_version-Finishes method path s)

  after_path-Finishes : (method path s : Bytes) → Finishes (after_path alloc method path s)
  unfolding after_path
  after_path-Finishes method [] s h = ground arith
  after_path-Finishes method (c ∷ path) s h =
      ground (arith, read_version-Finishes method (c ∷ path) s)

  read_space-Finishes : (method s : Bytes) → Finishes (read_space alloc method s)
  unfolding read_space read_path
  read_space-Finishes method [] h = ground arith
  read_space-Finishes method (c ∷ s) h =
      ground (arith, after_path-Finishes method (span in_path s).0 (span in_path s).1)

  after_method-Finishes : (method s : Bytes) → Finishes (after_method alloc method s)
  unfolding after_method
  after_method-Finishes [] s h = ground arith
  after_method-Finishes (c ∷ method) s h = ground (arith, read_space-Finishes (c ∷ method) s)

  pub http_request_string_parse-Finishes :
      (s : Bytes) → Finishes (http_request_string_parse alloc s)
  unfolding http_request_string_parse
  http_request_string_parse-Finishes s =
      after_method-Finishes (span is_upper s).0 (span is_upper s).1

read_api_type-Finishes : (s : Bytes) (i : ℕ) → Finishes (read_api_type (points (string_at s i)))
unfolding read_api_type
read_api_type-Finishes s i = string_at-Finishes s i

store_pair-Finishes : (token : Bytes) (request : ApiRequest) → Finishes (store_pair token request)
unfolding store_pair put_pair strcpy
store_pair-Finishes token request h = ground arith

store_all-Finishes :
    (tokens : List Bytes) (request : ApiRequest) → Finishes (store_all tokens request)
unfolding store_all
store_all-Finishes [] request h = ground arith
store_all-Finishes (token ∷ tokens) request h =
    grind (arith, store_all-Finishes tokens, store_pair-Finishes token request)

store_pair-keeps :
    (token : Bytes) (request later : ApiRequest)
    → store_pair token request ≡ ok later
    → later.api_type ≡ request.api_type
unfolding store_pair put_pair strcpy
store_pair-keeps token request later h = ground arith

store_all-keeps :
    (tokens : List Bytes) (request later : ApiRequest)
    → store_all tokens request ≡ ok later
    → later.api_type ≡ request.api_type
unfolding store_all
store_all-keeps [] request later h = ground arith
store_all-keeps (token ∷ tokens) request later h =
    grind (arith, store_all-keeps tokens, store_pair-keeps token request)

pub parse_param-Finishes : (s : Bytes) (request : ApiRequest) → Finishes (parse_param s request)
unfolding parse_param
parse_param-Finishes s request =
    rw (parse_pairs-store_all (length s + 1) s request (omega arith))
      (store_all-Finishes (fields s) request)

pub param_at-Finishes : (request : ApiRequest) (i : ℕ) → Finishes (param_at request i)
unfolding param_at
param_at-Finishes request i h = ground arith

pub has_id_and_name-Finishes : (request : ApiRequest) → Finishes (has_id_and_name request)
unfolding has_id_and_name
has_id_and_name-Finishes request h =
    ground (arith, param_at-Finishes request 0, param_at-Finishes request 1)

pub content_of-Finishes : (request : HttpRequest) → Finishes (content_of request)
unfolding content_of
content_of-Finishes request h = ground arith

-- A block with a NUL in it starts with a string.
block_starts : (a b : Bytes) → (s tail : Bytes) × (a ++ 0 ∷ b ≡ s ++ 0 ∷ tail) × Lacks 0 s
block_starts [] b = ([], b, refl, tt)
block_starts (zero ∷ a) b = ([], a ++ 0 ∷ b, refl, tt)
block_starts (suc c ∷ a) b =
    let (s, tail, e, l) = block_starts a b in
    (suc c ∷ s, tail, ap (λ t. suc c ∷ t) e, (λ h. ground arith, l))

module _ (J : Json) where
  value_is-Finishes : (member : Option J.Node) (text : Bytes) → Finishes (value_is J member text)
  unfolding value_is
  value_is-Finishes member text h = ground arith

  is_match-Finishes : (id name : Bytes) (item : J.Node) → Finishes (is_match J id name item)
  unfolding is_match
  is_match-Finishes id name item h = ground (
    arith,
    value_is-Finishes (J.get_object_item item (codes "id")) id,
    value_is-Finishes (J.get_object_item item (codes "name")) name,
  )

  pub find_item-Finishes :
      (id name : Bytes) (i : ℕ) (items : List J.Node) → Finishes (find_item J id name i items)
  unfolding find_item
  find_item-Finishes id name i [] h = ground arith
  find_item-Finishes id name i (item ∷ items) h =
      ground (arith, is_match-Finishes id name item, find_item-Finishes id name (i + 1) items)

  pub compact_text-Finishes : (item : J.Node) → Finishes (compact_text J item)
  unfolding compact_text
  compact_text-Finishes item h =
      let (s, tail, e, l) = block_starts (J.print item) [] in
      let (junk, run) = remove_spaces_and_newlines_lem s tail l in
      let blocked : remove_spaces_and_newlines (J.print item ++ 0 ∷ [])
          ≡ ok (without_blanks s ++ 0 ∷ junk) =
        ap remove_spaces_and_newlines e ∙ run in
      ground (arith, blocked, string_at-Finishes (without_blanks s ++ 0 ∷ junk) 0)

pub file_name-Finishes : (path : Bytes) → Finishes (file_name path)
unfolding file_name
file_name-Finishes path h =
    let (s, tail, e, l) = block_starts (codes "./" ++ path) [] in
    let (junk, run) = normalize_url-block s tail l in
    let blocked : normalize_url (codes "./" ++ (path ++ 0 ∷ [])) ≡ ok (squeezed s ++ 0 ∷ junk) =
      ap normalize_url e ∙ run in
    ground (arith, blocked, string_at-Finishes (squeezed s ++ 0 ∷ junk) 0)

module _ (S : Setting) (path : Bytes) where
  abbrev pointed : Bytes → ApiRequest
  pointed block = record (initapi_request (unset S.old_count)) {
    api_type = points (string_at block 5);
  }

  -- Both outcomes of the search for the question mark.
  api_request_of_cases :
      (block : Bytes) × ((api_request_of S path ≡ ok (pointed block))
        ⊎ ((tokens : List Bytes) × (api_request_of S path ≡ store_all tokens (pointed block))))
  unfolding api_request_of parse_query_string
  api_request_of_cases = elim (Option-cases (strchr path b'?')) [
    | inl e ↦ (path ++ 0 ∷ [], inl (ground (arith, e)))
    | inr (i, e) ↦
        let rest = drop (suc i) path in
        (
          take i path ++ 0 ∷ (rest ++ 0 ∷ []),
          inr (
            fields rest,
            ground (
              arith,
              e,
              parse_pairs-store_all (length rest + 1) rest
                  (pointed (take i path ++ 0 ∷ (rest ++ 0 ∷ []))) (omega arith),
            ),
          ),
        )
  ]

  pub api_request_of-Finishes : Finishes (api_request_of S path)
  api_request_of-Finishes h =
      let (block, cases) = api_request_of_cases in
      elim cases [
        | inl e ↦ ground (arith, e)
        | inr (tokens, e) ↦ store_all-Finishes tokens (pointed block) (sym e ∙ h)
      ]

  pub api_type-Finishes :
      (request : ApiRequest)
      → api_request_of S path ≡ ok request
      → Finishes (read_api_type request.api_type)
  api_type-Finishes request done h =
      let (block, cases) = api_request_of_cases in
      elim cases [
        | inl e ↦ named block (ground (arith, e, done))
        | inr (tokens, e) ↦
            named block (store_all-keeps tokens (pointed block) request (sym e ∙ done))
      ]
    where
      named : (block : Bytes) → request.api_type ≡ points (string_at block 5) → ⊥
      named block same = read_api_type-Finishes block 5 (ap read_api_type (sym same) ∙ h)
