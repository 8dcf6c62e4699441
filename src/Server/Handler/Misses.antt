-- ===== src/Server/Handler/Misses.antt =====
-- The requests "/api/check" of httpserver.c whose item is not in the data file.
use cloudcomputing_lab2_http.Prelude.{
  ℕ, ◌≤◌, ◌<◌, ◌≡◌, ap, ◌∙◌, true, false, none, some, List, [], ◌++◌, ◌==◌, length, drop, All, take,
}
use cloudcomputing_lab2_http.Result.{ok}
use cloudcomputing_lab2_http.Cstr.{Bytes, codes, strcmp_eq, string_at, strstr, strncmp_eq}
use cloudcomputing_lab2_http.Os.{
  closed, file, World, Grant, lookup, open_file, close, update, misuse, slot,
}
use cloudcomputing_lab2_http.Map.{ApiRequest, KeyValuePair, read_api_type}
use cloudcomputing_lab2_http.Libhttp.Request.{HttpRequest, http_request_string_parse}
use cloudcomputing_lab2_http.Server.Api.{
  buffer_size, data_path, json_type, param_at, check, check_missing,
}
use cloudcomputing_lab2_http.Server.Api.Lookup.{HasBoth, is_asked, first_from}
use cloudcomputing_lab2_http.Server.Send.Delivery.{Accepting, sending, sending_twice}
use cloudcomputing_lab2_http.Server.Send.Files.{update-here}
use cloudcomputing_lab2_http.Server.Handler.{
  Setting, head_is, api_request_of, has_id_and_name, handle_request,
}
use cloudcomputing_lab2_http.Server.Handler.Names.{drained}
use cloudcomputing_lab2_http.Server.Handler.Routing.{Arrives, drained-IsReady, routed}
use cloudcomputing_lab2_http.Server.Handler.Answers.{put, step, head, head_then, close-socket}
use cloudcomputing_lab2_http.Server.Handler.Files.{
  IsReady, opened, open_file-found, opened-open, answered, send_close_then, reclosed,
}
use cloudcomputing_lab2_http.Server.Handler.Checks.{
  check_lem, close-closed, get_api-check, route-api,
}

-- The page gets the number `slot w`, which the data file had, so that the second close of the data
-- file's descriptor closes the page.
check_missing_lem :
    (fuel : ℕ) (w : World) (fd : ℕ) (input page : Bytes)
    → IsReady w fd input
    → lookup (codes "404.html") w.files ≡ some page
    → length page < fuel
    → (gs : List Grant) × (check_missing fuel fd (slot w) w
        ≡ ok (tt, answered w fd (head 404 json_type ++ page) gs))
      × Accepting gs
unfolding check_missing
check_missing_lem fuel w fd input page r e h =
    let w1 = put w fd (head 404 json_type) in
    let w2 = opened w1 page in
    let o = opened-open w fd input (file page 0) r.is_open r.room in
    let at = update-here w.fds (slot w) (file page 0) in
    let (gs, sent, a) =
      send_close_then (close (some fd)) fuel w2 fd (slot w) input page o at r.accepting h in
    (
      gs,
      head_then _ w fd 404 json_type input r.is_open r.accepting
          ∙ step (open_file (codes "404.html")) _ w1 w2 (some (slot w))
              (open_file-found w1 (codes "404.html") page e r.room)
          ∙ sent
          ∙ ap (λ f. close (some fd) (record (sending w1 fd page gs) { fds = f }))
              (reclosed w (file page 0) r.room)
          ∙ close-socket (sending w1 fd page gs) fd input r.is_open
          ∙ ap (λ v. ok (tt, record v { fds = update w.fds fd closed }))
              (sending_twice w fd (head 404 json_type) page w.grants gs),
      a,
    )

module _ (S : Setting) where
  -- A GET under "/api", under the conditions of `Arrives`, of the type "check" with two parameters
  -- "id" and "name", if the data file exists with 1024 bytes at most, the text of the buffer parses to
  -- an array, every item has both members as strings, no item has the two values, and the page of the
  -- 404 responses exists: the status 404, the content type "application/json" and the whole page go
  -- out, once and in order. All that was opened is closed again, the page by the second close of the
  -- data file's number, which it was given; the connection is closed twice, one call on a closed
  -- descriptor.
  pub handle_request-check_missing :
      (w : World) (fd : ℕ) (input : Bytes) (r : HttpRequest) (request : ApiRequest)
      (api_type contents text page : Bytes) (json : S.json.Node) (id name : KeyValuePair)
      → Arrives S w fd input
      → http_request_string_parse S.alloc input ≡ ok (some r)
      → head_is r.path b'/' ≡ true
      → strstr r.path (codes "..") ≡ none
      → strcmp_eq r.method (codes "GET") ≡ true
      → strncmp_eq r.path (codes "/api") 4 ≡ true
      → api_request_of S r.path ≡ ok request
      → read_api_type request.api_type ≡ ok api_type
      → strcmp_eq api_type (codes "list") ≡ false
      → strcmp_eq api_type (codes "check") ≡ true
      → (request.count == 2) ≡ true
      → has_id_and_name request ≡ ok true
      → param_at request 0 ≡ ok id
      → param_at request 1 ≡ ok name
      → lookup data_path w.files ≡ some contents
      → length contents ≤ buffer_size
      → string_at (take buffer_size (contents ++ drop (length contents) S.stack)) 0 ≡ ok text
      → S.json.parse text ≡ some json
      → All (HasBoth S.json) (S.json.items json)
      → first_from S.json (is_asked S.json id.value name.value) 0 (S.json.items json) ≡ none
      → lookup (codes "404.html") w.files ≡ some page
      → length page < S.fuel
      → (gs : List Grant) × (handle_request S fd w
          ≡ ok (tt, misuse (answered (drained w fd) fd (head 404 json_type ++ page) gs)))
        × Accepting gs
  handle_request-check_missing w fd input r request api_type contents text page json id name arrives
        parses h dots get api q a l c two named i n e small t p both found pe long =
      let d = drained w fd in
      let ready = drained-IsReady S w fd input arrives in
      let (gs, sent, accepting) = check_missing_lem S.fuel d fd [] page ready pe long in
      let w' = answered d fd (head 404 json_type ++ page) gs in
      (
        gs,
        routed S w fd input arrives r parses h
            ∙ ap (λ act. act d) (route-api S fd r dots get api)
            ∙ get_api-check S fd r.path request api_type q a l c two named d
            ∙ step (check S.json S.fuel S.stack fd request) (λ _. close (some fd)) d w' tt
                (check_lem S.json S.fuel S.stack d fd request contents text json id name none e
                    small t p i n both found ready.room
                  ∙ sent)
            ∙ close-closed w' fd (update-here d.fds fd closed),
        accepting,
      )
