-- ===== src/Server/Handler/Queries.antt =====
-- Checks and lists from the bytes that a client writes to the response, through the parser of requests,
-- the routing, the parser of query strings, and `check` and `list` of httpserver.c.
use cloudcomputing_lab2_http.Prelude.{
  ℕ, ◌^◌, ◌≤◌, ◌<◌, ◌≡◌, refl, true, none, some, List, [], ◌∷◌, ◌++◌, arith, length, drop,
  replicate, All, take,
}
use cloudcomputing_lab2_http.Result.{ok}
use cloudcomputing_lab2_http.Cstr.{Bytes, codes, strcmp_eq, strncmp_eq, strstr, string_at}
use cloudcomputing_lab2_http.Cstr.Search.{Lacks}
use cloudcomputing_lab2_http.Os.{World, Grant, lookup, misuse}
use cloudcomputing_lab2_http.Map.{KeyValuePair, points, read_api_type}
use cloudcomputing_lab2_http.Map.Stored.{holding, all_fit}
use cloudcomputing_lab2_http.Map.Stored.Query.{render, IsPlain, parse_query_string-render}
use cloudcomputing_lab2_http.Libhttp.Request.{
  HttpRequest, http_request_string_parse, in_path, content_length_key,
}
use cloudcomputing_lab2_http.Libhttp.Request.RoundTrip.{
  request_line, http_request_string_parse-no_content,
}
use cloudcomputing_lab2_http.Libhttp.Request.Sound.{IsField}
use cloudcomputing_lab2_http.Server.Api.{buffer_size, data_path, json_type, param_at}
use cloudcomputing_lab2_http.Server.Api.Lookup.{HasBoth, is_asked, first_from}
use cloudcomputing_lab2_http.Server.Send.Delivery.{Accepting}
use cloudcomputing_lab2_http.Server.Handler.{
  Setting, api_request_of, has_id_and_name, handle_request,
}
use cloudcomputing_lab2_http.Server.Handler.Answers.{head, hung_up}
use cloudcomputing_lab2_http.Server.Handler.Names.{drained}
use cloudcomputing_lab2_http.Server.Handler.Routing.{Arrives}
use cloudcomputing_lab2_http.Server.Handler.Checks.{found_head, handle_request-check}
use cloudcomputing_lab2_http.Server.Handler.Files.{answered}
use cloudcomputing_lab2_http.Server.Handler.Lost.{lost}
use cloudcomputing_lab2_http.Server.Handler.Lists.{list_text, handle_request-list}
use cloudcomputing_lab2_http.Map.{initapi_request, parse_query_string}
use cloudcomputing_lab2_http.Cstr.{strchr}
use cloudcomputing_lab2_http.Server.Handler.Misses.{handle_request-check_missing}

-- The parameters of a check.
abbrev pub both_of : Bytes → Bytes → List KeyValuePair
both_of id name =
    record { param = codes "id"; value = id } ∷ record { param = codes "name"; value = name } ∷ []

-- "/api/check?id=…&name=…"
abbrev pub query_of : Bytes → Bytes → Bytes
query_of id name = codes "/api/" ++ (codes "check" ++ b'?' ∷ render (both_of id name))

-- What a client wrote: a GET for the query, with any other headers, and values that arrive whole.
pub record IsQuery (id name version headers : Bytes) : Type 0 where
  pub path_ok : IsField in_path (query_of id name)
  pub version_ok : Lacks b'\n' version
  pub no_content : strstr headers content_length_key ≡ none
  pub no_dots : strstr (query_of id name) (codes "..") ≡ none
  pub plain : All IsPlain (both_of id name)
  pub fit : all_fit (both_of id name) ≡ true

-- The request that the bytes are read as.
abbrev pub asking : Bytes → Bytes → HttpRequest
asking id name = record {
  method = codes "GET";
  path = query_of id name;
  content = none;
  content_length = none;
}

module _ (S : Setting) (all : (n : ℕ) → S.alloc n ≡ true) (fd : ℕ) (id name version headers : Bytes)
    (q : IsQuery id name version headers) where
  abbrev bytes : Bytes
  bytes = request_line (codes "GET") (query_of id name) version headers

  query_parses : http_request_string_parse S.alloc bytes ≡ ok (some (asking id name))
  query_parses =
      http_request_string_parse-no_content S.alloc all (codes "GET") (query_of id name) version
        headers (ground arith) q.path_ok q.version_ok q.no_content

  query_request :
      api_request_of S (query_of id name)
      ≡ ok (holding (points (ok (codes "check"))) (both_of id name))
  unfolding api_request_of
  query_request =
      parse_query_string-render (codes "check") (both_of id name) S.old_count (omega arith)
        (omega arith) q.plain (omega arith) q.fit

  -- A client that writes a GET for "/api/check" with the parameters id and name in its query, with any
  -- headers but a Content-Length, on a connection as in `Arrives`: if no value holds a separator and
  -- both fit the arrays of the parameters, the data file exists with 1024 bytes at most, the text of
  -- the buffer parses to an array of which every item has both members as strings, and an item has the
  -- two values that the client wrote, then the status 200 with no header and no body is all that goes
  -- out. The descriptor of the data file is closed, and the connection twice.
  pub handle_request-found :
      (w : World) (contents text : Bytes) (json item : S.json.Node) (k : ℕ)
      → Arrives S w fd bytes
      → lookup data_path w.files ≡ some contents
      → length contents ≤ buffer_size
      → string_at (take buffer_size (contents ++ drop (length contents) S.stack)) 0 ≡ ok text
      → S.json.parse text ≡ some json
      → All (HasBoth S.json) (S.json.items json)
      → first_from S.json (is_asked S.json id name) 0 (S.json.items json) ≡ some (k, item)
      → handle_request S fd w ≡ ok (tt, misuse (hung_up (drained w fd) fd found_head))
  unfolding strstr strcmp_eq strncmp_eq read_api_type has_id_and_name param_at
  handle_request-found w contents text json item k arrives e small t p both found =
      handle_request-check S w fd bytes (asking id name)
        (holding (points (ok (codes "check"))) (both_of id name)) (codes "check") contents text json
        item (record { param = codes "id"; value = id })
        (record { param = codes "name"; value = name }) k arrives query_parses refl q.no_dots refl
        refl query_request refl refl refl refl refl refl refl e small t p both found

  -- The same request, if no item has the two values, and the page of the 404 responses exists: the
  -- status 404, the content type "application/json" and the whole page go out, once and in order. All
  -- that was opened is closed again, and the connection is closed twice: one call on a closed
  -- descriptor.
  pub handle_request-unknown :
      (w : World) (contents text page : Bytes) (json : S.json.Node)
      → Arrives S w fd bytes
      → lookup data_path w.files ≡ some contents
      → length contents ≤ buffer_size
      → string_at (take buffer_size (contents ++ drop (length contents) S.stack)) 0 ≡ ok text
      → S.json.parse text ≡ some json
      → All (HasBoth S.json) (S.json.items json)
      → first_from S.json (is_asked S.json id name) 0 (S.json.items json) ≡ none
      → lookup (codes "404.html") w.files ≡ some page
      → length page < S.fuel
      → (gs : List Grant) × (handle_request S fd w
          ≡ ok (tt, misuse (answered (drained w fd) fd (head 404 json_type ++ page) gs)))
        × Accepting gs
  unfolding strstr strcmp_eq strncmp_eq read_api_type has_id_and_name param_at
  handle_request-unknown w contents text page json arrives e small t p both found pe long =
      handle_request-check_missing S w fd bytes (asking id name)
        (holding (points (ok (codes "check"))) (both_of id name)) (codes "check") contents text page
        json (record { param = codes "id"; value = id })
        (record { param = codes "name"; value = name }) arrives query_parses refl q.no_dots refl
        refl query_request refl refl refl refl refl refl refl e small t p both found pe long

module _ (S : Setting) where
  list_request :
      api_request_of S (codes "/api/list")
      ≡ ok (record {
        api_type = points (string_at (codes "/api/list" ++ 0 ∷ []) 5);
        params = replicate 10 none;
        count = 0;
      })
  unfolding api_request_of parse_query_string strchr initapi_request string_at
  list_request = refl

  -- A client that writes a GET for "/api/list", with any headers but a Content-Length, on a connection
  -- as in `Arrives`, if the data file exists and is below 2^31 bytes, and the page of the 404 responses
  -- exists and is not empty: the status 200, the content type "application/json", the size, and the
  -- whole data file go out, once and in order, and both descriptors are closed. Then the handler runs
  -- the 404 response on the closed connection: no byte of it goes out and the page is closed again, but
  -- four or five calls are made on a closed descriptor.
  pub handle_request-listed :
      (w : World) (fd : ℕ) (version headers contents : Bytes) (c : ℕ) (page : Bytes)
      → ((n : ℕ) → S.alloc n ≡ true)
      → Lacks b'\n' version
      → strstr headers content_length_key ≡ none
      → Arrives S w fd (request_line (codes "GET") (codes "/api/list") version headers)
      → lookup data_path w.files ≡ some contents
      → length contents < S.fuel
      → length contents < 2 ^ 31
      → lookup (codes "404.html") w.files ≡ some (c ∷ page)
      → (gs : List Grant) × (n : ℕ) × (4 ≤ n)
        × (n ≤ 5)
        × (handle_request S fd w
            ≡ ok (tt, lost (answered (drained w fd) fd (list_text contents) gs) n))
        × Accepting gs
  unfolding strstr strcmp_eq strncmp_eq read_api_type string_at
  handle_request-listed w fd version headers contents c page all v h arrives e long small p =
      let path = codes "/api/list" in
      let parses =
        http_request_string_parse-no_content S.alloc all (codes "GET") path version headers
          (ground arith) (ground arith) v h in
      handle_request-list S w fd (request_line (codes "GET") path version headers)
        (record { method = codes "GET"; path = path; content = none; content_length = none })
        (record {
          api_type = points (string_at (path ++ 0 ∷ []) 5);
          params = replicate 10 none;
          count = 0;
        })
        (codes "list") contents c page arrives parses refl refl refl refl list_request refl refl e
        long small p
