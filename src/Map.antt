-- ===== src/Map.antt =====
-- map.c and map.h: the parameters of an API request.
pub mod Fields
pub mod Stored
use cloudcomputing_lab2_http.Prelude.{
  ℕ, zero, suc, ◌+◌, Option, none, some, List, [], ◌∷◌, ◌++◌, ltb, if◌then◌else◌, length, get_elem?,
  set, take, drop, replicate,
}
use cloudcomputing_lab2_http.Result.{
  Result, ok, fault, ◌>>=◌, overflow, uninitialised, null_pointer, out_of_bounds, out_of_fuel,
}
use cloudcomputing_lab2_http.Cstr.{Bytes, strchr, strcmp_eq, strcpy, string_at, strtok}

abbrev pub max_params : ℕ
max_params = 10

abbrev pub max_param_length : ℕ
max_param_length = 10

abbrev pub max_value_length : ℕ
max_value_length = 20

pub record KeyValuePair : Type 0 where
  pub param : Bytes
  pub value : Bytes

-- `char *api_type`: NULL, or a pointer into the query string. The bytes that it shows are taken
-- when it is made, since nothing writes to the query string afterwards; reading it may be a fault.
pub data ApiType : Type 0 where
  null : ApiType
  points : Result Bytes → ApiType

-- `params` is the array: an element that was not written yet is `none`.
pub record ApiRequest : Type 0 where
  pub api_type : ApiType
  pub params : List (Option KeyValuePair)
  pub count : ℕ

-- Reading the string behind `api_type`.
unfoldable pub read_api_type : ApiType → Result Bytes
read_api_type null = fault null_pointer
read_api_type (points s) = s

-- `struct apiRequest api_request;` on the stack, before its initialisation.
abbrev pub unset : ℕ → ApiRequest
unset n = record { api_type = null; params = replicate max_params none; count = n }

unfoldable pub initapi_request : ApiRequest → ApiRequest
initapi_request request = record request { count = 0; api_type = null }

-- `params[count]` is written, and `count` grows.
unfoldable pub put_pair : KeyValuePair → ApiRequest → Result ApiRequest
put_pair pair request =
    if ltb request.count (length request.params)
    then ok (record request {
      params = set request.params request.count (some pair);
      count = request.count + 1;
    })
    else fault overflow

-- The body of the loops over tokens: a token with no '=' is skipped, any other is copied to
-- `params[count]`.
unfoldable pub store_pair : Bytes → ApiRequest → Result ApiRequest
unfolding put_pair
store_pair token request = elim (strchr token b'=') [
  | none ↦ ok request
  | some i ↦ strcpy max_param_length (take i token) >>= λ param.
      strcpy max_value_length (drop (suc i) token) >>= λ value.
      put_pair (record { param = param; value = value }) request
]

-- `while (param != NULL && request->count < MAX_PARAMS)`, where `rest` is what `strtok` has not
-- read yet.
unfoldable pub parse_pairs : ℕ → Bytes → ApiRequest → Result ApiRequest
parse_pairs zero rest request = fault out_of_fuel
parse_pairs (suc fuel) rest request = elim (strtok rest b'&') [
  | none ↦ ok request
  | some (token, rest') ↦
      if ltb request.count max_params
      then (store_pair token request >>= parse_pairs fuel rest')
      else ok request
]

-- Every round of the loop reads a byte at least.
unfoldable pub parse_param : Bytes → ApiRequest → Result ApiRequest
parse_param param_string request = parse_pairs (length param_string + 1) param_string request

-- The query string is a block that ends in a NUL; the '?' in it is overwritten by a NUL.
unfoldable pub parse_query_string : Bytes → ApiRequest → Result ApiRequest
parse_query_string query_string request = elim (strchr query_string b'?') [
  | none ↦ ok (record request { api_type = points (string_at (query_string ++ 0 ∷ []) 5) })
  | some i ↦
      let query_start = drop (suc i) query_string in
      let block = take i query_string ++ 0 ∷ (query_start ++ 0 ∷ []) in
      parse_pairs (length query_start + 1) query_start
        (record request { api_type = points (string_at block 5) })
]

-- The loop of `getValue`, from index `i` with `n` rounds left.
unfoldable pub get_value_from : ℕ → ℕ → Bytes → ApiRequest → Result (Option Bytes)
get_value_from zero i param request = ok none
get_value_from (suc n) i param request = elim (get_elem? request.params i) [
  | none ↦ fault out_of_bounds
  | some none ↦ fault uninitialised
  | some (some pair) ↦
      let next = get_value_from n (i + 1) param request in
      if strcmp_eq pair.param param then ok (some pair.value) else next
]

unfoldable pub get_value : Bytes → ApiRequest → Result (Option Bytes)
get_value param request = get_value_from request.count 0 param request
