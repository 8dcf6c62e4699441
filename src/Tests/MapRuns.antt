-- ===== src/Tests/MapRuns.antt =====
-- map.c at concrete query strings.
use cloudcomputing_lab2_http.Prelude.{String, ◌≡◌, refl, List, [], ◌∷◌, arith, if◌then◌else◌}
use cloudcomputing_lab2_http.Result.{ok, fault, overflow, out_of_bounds}
use cloudcomputing_lab2_http.Cstr.{codes, strchr, strcpy, string_at, strtok}
use cloudcomputing_lab2_http.Map.{
  KeyValuePair, null, points, unset, initapi_request, parse_pairs, store_pair, parse_param,
  parse_query_string,
}
use cloudcomputing_lab2_http.Map.Fields.{fields}
use cloudcomputing_lab2_http.Map.Stored.{holding, pairs, all_fit, kept, parse_param-holding}
use cloudcomputing_lab2_http.Map.Stored.Query.{parse_query_string-render}

abbrev pair : String → String → KeyValuePair
pair k v = record { param = codes k; value = codes v }

abbrev id_name : List KeyValuePair
id_name = pair "id" "1" ∷ pair "name" "Foo" ∷ []

-- A run of the parser as the program calls it.
parse_run :
    parse_query_string (codes "/api/check?id=1&&x&name=Foo") (initapi_request (unset 7))
    ≡ ok (holding (points (ok (codes "check"))) id_name)
unfolding parse_query_string parse_pairs store_pair initapi_request strchr strcpy string_at strtok
parse_run = refl

-- A parameter of ten bytes does not fit.
overflow_run : parse_param (codes "0123456789=1") (holding null []) ≡ fault overflow
unfolding parse_param parse_pairs store_pair strchr strcpy strtok
overflow_run = refl

-- "/api" has no fifth byte.
short_run :
    parse_query_string (codes "/api") (initapi_request (unset 0))
    ≡ ok (holding (points (fault out_of_bounds)) [])
unfolding parse_query_string initapi_request strchr string_at
short_run = refl

parse_param-holding_example : parse_param (codes "extra=x&y") (holding null id_name) ≡ (
    if all_fit (kept id_name (pairs (fields (codes "extra=x&y"))))
    then ok (holding null (kept id_name (pairs (fields (codes "extra=x&y")))))
    else fault overflow)
parse_param-holding_example =
    parse_param-holding (codes "extra=x&y") null id_name (omega arith) refl

parse_query_string-render_example :
    parse_query_string (codes "/api/check?id=1&name=Foo") (initapi_request (unset 3))
    ≡ ok (holding (points (ok (codes "check"))) id_name)
parse_query_string-render_example =
    parse_query_string-render (codes "check") id_name 3 (omega arith) (omega arith)
      (
        record { no_eq = omega arith; no_amp = omega arith },
        (record { no_eq = omega arith; no_amp = omega arith }, tt),
      )
      (omega arith) refl
