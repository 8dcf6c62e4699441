-- ===== src/Map/Stored/Query.antt =====
-- `parseQueryString` and `getValue` on the query strings that a client writes.
use cloudcomputing_lab2_http.Prelude.{
  ℕ, zero, suc, ◌+◌, ◌≤◌, ◌<◌, ◌≡◌, refl, sym, ap, ◌∙◌, ◌≢◌, true, Option, none, some, List, [],
  ◌∷◌, ◌++◌, map, append-nil, append_assoc, arith, if◌then◌else◌, length, get_elem?, drop,
  length-append, take-append, take-all, drop-suc-append, All,
}
use cloudcomputing_lab2_http.Result.{ok, fault, overflow}
use cloudcomputing_lab2_http.Cstr.{Bytes, codes, strcmp_eq, string_at}
use cloudcomputing_lab2_http.Cstr.Search.{Lacks, strchr-append}
use cloudcomputing_lab2_http.Map.{
  null, KeyValuePair, ApiType, points, parse_query_string, initapi_request, unset, get_value,
  get_value_from,
}
use cloudcomputing_lab2_http.Map.Fields.{
  fields, parse_pairs-store_all, Pieces, pieces, split, keep, keep_all,
}
use cloudcomputing_lab2_http.Map.Stored.{
  holding, pairs, pair_of, all_fit, kept, padded, store_all-holding,
}

-- The string at an offset of a block that starts with a whole string.
pub string_at-cstr :
    (s rest : Bytes) (n : ℕ)
    → Lacks 0 s
    → n ≤ length s
    → string_at (s ++ 0 ∷ rest) n ≡ ok (drop n s)
unfolding string_at
string_at-cstr [] rest zero z h = refl
string_at-cstr [] rest (suc n) z h = absurd (omega arith)
string_at-cstr (c ∷ s) rest zero z h = ground (arith, string_at-cstr s rest zero z.1 (omega arith))
string_at-cstr (c ∷ s) rest (suc n) z h = string_at-cstr s rest n z.1 (omega arith)

-- A query string with a '?': what stands behind it is parsed as parameters.
pub parse_query_string-holding :
    (path query : Bytes) (t : ApiType) (ps : List KeyValuePair)
    → Lacks b'?' path
    → length ps ≤ 10
    → all_fit ps ≡ true
    → (let t' = points (string_at (path ++ 0 ∷ (query ++ 0 ∷ [])) 5) in
        let qs = kept ps (pairs (fields query)) in
        parse_query_string (path ++ b'?' ∷ query) (holding t ps)
        ≡ (if all_fit qs then ok (holding t' qs) else fault overflow))
unfolding parse_query_string
parse_query_string-holding path query t ps l h f =
    let t' = points (string_at (path ++ 0 ∷ (query ++ 0 ∷ [])) 5) in
    ground (
      arith,
      strchr-append path query b'?' l,
      drop-suc-append path b'?' query,
      take-append path (b'?' ∷ query),
      parse_pairs-store_all (length query + 1) query (holding t' ps),
      store_all-holding (fields query) t' ps h f,
    )

-- The text of a pair, and of a list of pairs, as a client writes them.
abbrev pub field : KeyValuePair → Bytes
field p = p.param ++ b'=' ∷ p.value

abbrev pub render_tail : List KeyValuePair → Bytes
render_tail [] = []
render_tail (p ∷ ps) = b'&' ∷ (field p ++ render_tail ps)

abbrev pub render : List KeyValuePair → Bytes
render [] = []
render (p ∷ ps) = field p ++ render_tail ps

-- No separator stands where it would be read as one.
pub record IsPlain (p : KeyValuePair) : Type 0 where
  pub no_eq : Lacks b'=' p.param
  pub no_amp : Lacks b'&' (field p)

split-append :
    (a s : Bytes) (p : Bytes) (ps : List Bytes)
    → Lacks b'&' a
    → split b'&' s ≡ pieces p ps
    → split b'&' (a ++ s) ≡ pieces (a ++ p) ps
unfolding split
split-append [] s p ps l e = e
split-append (c ∷ a) s p ps l e = ground (arith, split-append a s p ps l.1 e)

Pieces-cases : (r : Pieces) → (p : Bytes) × (ps : List Bytes) × (r ≡ pieces p ps)
Pieces-cases (pieces p ps) = (p, ps, refl)

keep-field : (p : KeyValuePair) (fs : List Bytes) → keep (field p) fs ≡ field p ∷ fs
keep-field p fs = go p.param
  where
    go : (k : Bytes) → keep (k ++ b'=' ∷ p.value) fs ≡ (k ++ b'=' ∷ p.value) ∷ fs
    go [] = refl
    go (c ∷ k) = refl

fields-last : (p : KeyValuePair) → Lacks b'&' (field p) → fields (field p) ≡ field p ∷ []
unfolding fields split
fields-last p l =
    let e = rw append-nil at (split-append (field p) [] [] [] l refl) in rw e (keep-field p [])

fields-next :
    (p : KeyValuePair) (rest : Bytes)
    → Lacks b'&' (field p)
    → fields (field p ++ b'&' ∷ rest) ≡ field p ∷ fields rest
unfolding fields split Pieces-cases
fields-next p rest l =
    let (q, qs, e) = Pieces-cases (split b'&' rest) in
    let e' = rw append-nil at (split-append (field p) (b'&' ∷ rest) [] (q ∷ qs) l (rw e)) in
    rw (e, e') (keep-field p (keep q (keep_all qs)))

pub fields-render : (ps : List KeyValuePair) → All IsPlain ps → fields (render ps) ≡ map field ps
fields-render [] h = unfold fields split in refl
fields-render (p ∷ []) h = rw append-nil (fields-last p h.0.no_amp)
fields-render (p ∷ q ∷ ps) h =
    fields-next p (render (q ∷ ps)) h.0.no_amp
    ∙ ap (λ fs. field p ∷ fs) (fields-render (q ∷ ps) h.1)

pair_of-field : (p : KeyValuePair) → Lacks b'=' p.param → pair_of (field p) ≡ some p
unfolding pair_of
pair_of-field p l = rw (
  strchr-append p.param p.value b'=' l,
  take-append p.param (b'=' ∷ p.value),
  drop-suc-append p.param b'=' p.value,
  pair_of,
)

pub pairs-render : (ps : List KeyValuePair) → All IsPlain ps → pairs (map field ps) ≡ ps
pairs-render [] h = refl
pairs-render (p ∷ ps) h = rw (pair_of-field p h.0.no_eq, pairs-render ps h.1)

prefix : (c : ℕ) (s : Bytes) → c ≢ b'/' → c < b'a' → Lacks c s → Lacks c (codes "/api/" ++ s)
prefix c s ne h l =
    (λ e. ne (sym e), (omega arith, (omega arith, (omega arith, (λ e. ne (sym e), l)))))

-- The pairs of a query that a client wrote arrive as they are, in order, and the API type is what
-- stands between "/api/" and the '?'.
pub parse_query_string-render :
    (api_type : Bytes) (ps : List KeyValuePair) (n : ℕ)
    → Lacks b'?' api_type
    → Lacks 0 api_type
    → All IsPlain ps
    → length ps ≤ 10
    → all_fit ps ≡ true
    → parse_query_string
        (codes "/api/" ++ (api_type ++ b'?' ∷ render ps))
        (initapi_request (unset n))
      ≡ ok (holding (points (ok api_type)) ps)
unfolding initapi_request
parse_query_string-render api_type ps n l z h b f = rw (
  parse_query_string-holding (codes "/api/" ++ api_type) (render ps) null []
      (prefix b'?' api_type (omega arith) (omega arith) l) (omega arith) refl,
  string_at-cstr (codes "/api/" ++ api_type) (render ps ++ 0 ∷ []) 5
      (prefix 0 api_type (omega arith) (omega arith) z) (omega arith),
  fields-render ps h,
  pairs-render ps h,
  take-all ps 10 b,
  f,
)

-- The value of the first pair with the name.
abbrev pub find_value : Bytes → List KeyValuePair → Option Bytes
find_value name [] = none
find_value name (p ∷ ps) = if strcmp_eq p.param name then some p.value else find_value name ps

get_elem?-padded :
    (n : ℕ) (done ps : List KeyValuePair) (p : KeyValuePair)
    → length done < n
    → get_elem? (padded n (done ++ p ∷ ps)) (length done) ≡ some (some p)
get_elem?-padded zero done ps p h = elim h [ ]
get_elem?-padded (suc n) [] ps p h = refl
get_elem?-padded (suc n) (q ∷ done) ps p h = get_elem?-padded n done ps p (omega arith)

get_value_from-array :
    (done ps : List KeyValuePair) (name : Bytes) (t : ApiType) (m : ℕ)
    → length (done ++ ps) ≤ 10
    → get_value_from
        (length ps)
        (length done)
        name
        (record { api_type = t; params = padded 10 (done ++ ps); count = m })
      ≡ ok (find_value name ps)
unfolding get_value_from
get_value_from-array done [] name t m h = refl
get_value_from-array done (p ∷ ps) name t m h = ground (
  arith,
  get_elem?-padded 10 done ps p (omega (arith, length-append {0} done (p ∷ ps))),
  length-append done (p ∷ []),
  append_assoc done (p ∷ []) ps,
  get_value_from-array (done ++ p ∷ []) ps name t m,
)

-- `getValue` finds the first pair with the name, and is NULL exactly if there is none.
pub get_value-holding :
    (ps : List KeyValuePair) (name : Bytes) (t : ApiType)
    → length ps ≤ 10
    → get_value name (holding t ps) ≡ ok (find_value name ps)
unfolding get_value
get_value-holding ps name t h = get_value_from-array [] ps name t (length ps) h
