-- ===== src/Server/Handler/Checks.antt =====
-- The requests "/api/check" of httpserver.c.
use cloudcomputing_lab2_http.Prelude.{
  ℕ, ◌+◌, ◌≤◌, ◌≡◌, refl, ap, ◌∙◌, true, false, Option, none, some, [], ◌++◌, arith, ◌==◌, length,
  drop, take-all, All, take, ◌<◌,
}
use cloudcomputing_lab2_http.Result.{ok}
use cloudcomputing_lab2_http.Cstr.{Bytes, codes, strcmp_eq, string_at}
use cloudcomputing_lab2_http.Os.{
  closed, socket, file, World, Io, pure, lift, lookup, open_file, close, read, update, misuse,
  ◌>>=◌, ◌>>◌, slot, table_size,
}
use cloudcomputing_lab2_http.Map.{ApiRequest, KeyValuePair}
use cloudcomputing_lab2_http.Libhttp.Response.{status_line, http_start_response, http_end_headers}
use cloudcomputing_lab2_http.Server.Api.{
  buffer_size, data_path, param_at, read_json, find_item, check, check_found, check_missing, parsed,
}
use cloudcomputing_lab2_http.Server.Api.Cjson.{Json}
use cloudcomputing_lab2_http.Server.Api.Lookup.{HasBoth, is_asked, first_from, find_item_lem}
use cloudcomputing_lab2_http.Server.Send.Delivery.{update_twice, Accepting, Accepting-TakesText}
use cloudcomputing_lab2_http.Server.Send.Files.{update-here}
use cloudcomputing_lab2_http.Map.{read_api_type}
use cloudcomputing_lab2_http.Cstr.{strstr, strncmp_eq}
use cloudcomputing_lab2_http.Libhttp.Request.{HttpRequest, http_request_string_parse}
use cloudcomputing_lab2_http.Server.Handler.{
  Setting, head_is, api_request_of, has_id_and_name, get_api, route, handle_request,
}
use cloudcomputing_lab2_http.Server.Handler.Names.{drained}
use cloudcomputing_lab2_http.Server.Handler.Routing.{Arrives, drained-IsReady, routed}
use cloudcomputing_lab2_http.Server.Handler.Answers.{
  put, put_twice, step, dprintf_then, close-socket, close-file, hung_up,
}
use cloudcomputing_lab2_http.Server.Handler.Files.{opened, open_file-found, reclosed}

read-whole :
    (w : World) (fd n : ℕ) (contents : Bytes)
    → w.fds fd ≡ file contents 0
    → length contents ≤ n
    → read (some fd) n w
      ≡ ok (some contents, record w { fds = update w.fds fd (file contents (length contents)) })
unfolding read
read-whole w fd n contents o h =
    let z : 0 + length contents ≡ length contents = omega arith in rw (o, take-all contents n h, z)

-- The answer of a search that found the item.
abbrev pub found_head : Bytes
found_head = status_line 200 ++ codes "\r\n"

check_found_lem :
    (w : World) (fd : ℕ) (input : Bytes)
    → w.fds fd ≡ socket input
    → Accepting w.grants
    → check_found fd w ≡ ok (tt, hung_up w fd found_head)
unfolding check_found http_start_response http_end_headers
check_found_lem w fd input o a =
    let t = Accepting-TakesText w.grants a in
    dprintf_then (http_end_headers fd >> close (some fd)) w fd (status_line 200) input o t
    ∙ dprintf_then (close (some fd)) (put w fd (status_line 200)) fd (codes "\r\n") input o t
    ∙ ap (close (some fd)) (put_twice w fd (status_line 200) (codes "\r\n"))
    ∙ close-socket (put w fd found_head) fd input o

module _ (J : Json) where
  pub read_json_lem :
      (stack : Bytes) (w : World) (contents text : Bytes) (json : J.Node)
      → lookup data_path w.files ≡ some contents
      → length contents ≤ buffer_size
      → string_at (take buffer_size (contents ++ drop (length contents) stack)) 0 ≡ ok text
      → J.parse text ≡ some json
      → slot w < table_size
      → read_json J stack w ≡ ok (some ((slot w), json), w)
  unfolding read_json
  read_json_lem stack w contents text json e small t p room =
      let fd = (slot w) in
      let w1 = opened w contents in
      let closing = λ (v : World). record v {
        fds = update (update v.fds fd (file contents (length contents))) fd closed;
      } in
      let w2 = record w1 { fds = update w1.fds fd (file contents (length contents)) } in
      let finish = λ (bytes : Bytes).
        (lift (string_at (take buffer_size (bytes ++ drop (length bytes) stack)) 0) >>= λ text.
        pure (parsed J fd (J.parse text))) in
      step (open_file data_path) _ w w1 (some fd) (open_file-found w data_path contents e room)
      ∙ step (read (some fd) buffer_size) _ w1 w2 (some contents)
          (read-whole w1 fd buffer_size contents (update-here w.fds fd (file contents 0)) small)
      ∙ step (close (some fd)) (λ _. finish contents) w2 _ tt
          (close-file w2 fd contents (length contents)
            (update-here w1.fds fd (file contents (length contents))))
      ∙ step (lift (string_at (take buffer_size (contents ++ drop (length contents) stack)) 0))
          (λ text. pure (parsed J fd (J.parse text))) (closing w1) (closing w1) text (rw t)
      ∙ rw p (
          ap (λ f. ok (some (fd, json), record w1 { fds = f }))
            (update_twice w1.fds fd (file contents (length contents)) closed
              ∙ reclosed w (file contents 0) room))

  -- `check` from behind its search, whatever that gave.
  abbrev pub after_search : ℕ → ℕ → ℕ → Option (ℕ × J.Node) → Io (Unit {0})
  after_search fuel fd src_fd none = check_missing fuel fd src_fd
  after_search fuel fd src_fd (some item) = check_found fd

  pub check_lem :
      (fuel : ℕ) (stack : Bytes) (w : World) (fd : ℕ) (request : ApiRequest) (contents text : Bytes)
      (json : J.Node) (id name : KeyValuePair) (found : Option (ℕ × J.Node))
      → lookup data_path w.files ≡ some contents
      → length contents ≤ buffer_size
      → string_at (take buffer_size (contents ++ drop (length contents) stack)) 0 ≡ ok text
      → J.parse text ≡ some json
      → param_at request 0 ≡ ok id
      → param_at request 1 ≡ ok name
      → All (HasBoth J) (J.items json)
      → first_from J (is_asked J id.value name.value) 0 (J.items json) ≡ found
      → slot w < table_size
      → check J fuel stack fd request w ≡ after_search fuel fd (slot w) found w
  unfolding check
  check_lem fuel stack w fd request contents text json id name found e small t p i n both f room =
      step (read_json J stack) _ w w (some ((slot w), json))
        (read_json_lem stack w contents text json e small t p room)
      ∙ step (lift (param_at request 0)) _ w w id (rw i)
      ∙ step (lift (param_at request 1)) _ w w name (rw n)
      ∙ step (lift (find_item J id.value name.value 0 (J.items json))) _ w w found
          (rw (find_item_lem J id.value name.value 0 (J.items json) both, f))
      ∙ searched found
    where
      searched :
          (found : Option (ℕ × J.Node))
          → (elim found as (λ x. Io (Unit {0})) [
            | some (i, item) ↦ check_found fd
            | none ↦ check_missing fuel fd (slot w)
          ])
              w
            ≡ after_search fuel fd (slot w) found w
      searched none = refl
      searched (some (i, item)) = refl

pub close-closed : (w : World) (fd : ℕ) → w.fds fd ≡ closed → close (some fd) w ≡ ok (tt, misuse w)
unfolding close
close-closed w fd e = rw e

module _ (S : Setting) where
  pub get_api-check :
      (fd : ℕ) (path : Bytes) (request : ApiRequest) (api_type : Bytes)
      → api_request_of S path ≡ ok request
      → read_api_type request.api_type ≡ ok api_type
      → strcmp_eq api_type (codes "list") ≡ false
      → strcmp_eq api_type (codes "check") ≡ true
      → (request.count == 2) ≡ true
      → has_id_and_name request ≡ ok true
      → (w : World)
      → get_api S fd path w ≡ (check S.json S.fuel S.stack fd request >> close (some fd)) w
  unfolding get_api
  get_api-check fd path request api_type q a l c two named w =
      step (lift (api_request_of S path)) _ w w request (rw q)
      ∙ step (lift (read_api_type request.api_type)) _ w w api_type (rw a)
      ∙ rw (l, c, two) (step (lift (has_id_and_name request)) _ w w true (rw named))

  pub route-api :
      (fd : ℕ) (r : HttpRequest)
      → strstr r.path (codes "..") ≡ none
      → strcmp_eq r.method (codes "GET") ≡ true
      → strncmp_eq r.path (codes "/api") 4 ≡ true
      → route S fd r ≡ get_api S fd r.path
  unfolding route
  route-api fd r dots get api = ground arith

  -- A GET under "/api", under the conditions of `Arrives`, of the type "check" with two parameters
  -- "id" and "name", if the data file exists with 1024 bytes at most, the text of the buffer parses to
  -- an array, every item has both members as strings, and an item has the two values: the status 200
  -- with no header and no body is all that is sent, and the descriptor of the data file is closed. The
  -- connection is closed, and then closed a second time: one call on a closed descriptor.
  pub handle_request-check :
      (w : World) (fd : ℕ) (input : Bytes) (r : HttpRequest) (request : ApiRequest)
      (api_type contents text : Bytes) (json item : S.json.Node) (id name : KeyValuePair) (k : ℕ)
      → Arrives S w fd input
      → http_request_string_parse S.alloc input ≡ ok (some r)
      → head_is r.path b'/' ≡ true
      → strstr r.path (codes "..") ≡ none
      → strcmp_eq r.method (codes "GET") ≡ true
      → strncmp_eq r.path (codes "/api") 4 ≡ true
      → api_request_of S r.path ≡ ok request
      → read_api_type request.api_type ≡ ok api_type
      → strcmp_eq api_type (codes "list") ≡ false
      → strcmp_eq api_type (codes "check") ≡ true
      → (request.count == 2) ≡ true
      → has_id_and_name request ≡ ok true
      → param_at request 0 ≡ ok id
      → param_at request 1 ≡ ok name
      → lookup data_path w.files ≡ some contents
      → length contents ≤ buffer_size
      → string_at (take buffer_size (contents ++ drop (length contents) S.stack)) 0 ≡ ok text
      → S.json.parse text ≡ some json
      → All (HasBoth S.json) (S.json.items json)
      → first_from S.json (is_asked S.json id.value name.value) 0 (S.json.items json)
        ≡ some (k, item)
      → handle_request S fd w ≡ ok (tt, misuse (hung_up (drained w fd) fd found_head))
  handle_request-check w fd input r request api_type contents text json item id name k arrives
        parses h dots get api q a l c two named i n e small t p both found =
      let d = drained w fd in
      let w' = hung_up d fd found_head in
      let ready = drained-IsReady S w fd input arrives in
      let checked =
        check_lem S.json S.fuel S.stack d fd request contents text json id name (some (k, item)) e
          small t p i n both found ready.room
        ∙ check_found_lem d fd [] ready.is_open ready.accepting in
      routed S w fd input arrives r parses h
      ∙ ap (λ act. act d) (route-api fd r dots get api)
      ∙ get_api-check fd r.path request api_type q a l c two named d
      ∙ step (check S.json S.fuel S.stack fd request) (λ _. close (some fd)) d w' tt checked
      ∙ close-closed w' fd (update-here d.fds fd closed)
