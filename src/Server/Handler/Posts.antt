-- ===== src/Server/Handler/Posts.antt =====
-- An upload from the bytes that a client writes to the data file, through the parser of requests, the
-- routing, the parser of parameters and `upload` of httpserver.c.
use cloudcomputing_lab2_http.Prelude.{
  ℕ, ◌+◌, ◌^◌, ◌≤◌, ◌<◌, ◌≡◌, refl, ap, ◌∙◌, true, some, List, [], ◌∷◌, ◌++◌, arith, leb,
  if◌then◌else◌, length, drop, take-all, All, take,
}
use cloudcomputing_lab2_http.Result.{ok}
use cloudcomputing_lab2_http.Cstr.{Bytes, codes, strcmp_eq, strncmp_eq, strstr, strchr, string_at}
use cloudcomputing_lab2_http.Cstr.Search.{Lacks}
use cloudcomputing_lab2_http.Os.{World, Grant, lift, lookup, insert}
use cloudcomputing_lab2_http.Map.{
  ApiRequest, ApiType, KeyValuePair, points, initapi_request, parse_query_string, parse_param,
  read_api_type,
}
use cloudcomputing_lab2_http.Map.Stored.{holding, all_fit, parse_param-holding}
use cloudcomputing_lab2_http.Map.Stored.Query.{render, IsPlain, fields-render, pairs-render}
use cloudcomputing_lab2_http.Libhttp.Request.{HttpRequest, http_request_string_parse, size_t_mod}
use cloudcomputing_lab2_http.Libhttp.Request.RoundTrip.{
  request_line, with_content, IsWritten, http_request_string_parse-with_content,
}
use cloudcomputing_lab2_http.Server.Api.{
  buffer_size, data_path, succeeded, with_extra, param_at, upload,
}
use cloudcomputing_lab2_http.Server.Api.Lookup.{HasBoth, is_asked, first_from}
use cloudcomputing_lab2_http.Server.Send.Delivery.{Accepting}
use cloudcomputing_lab2_http.Server.Handler.{
  Setting, api_request_of, content_of, has_id_and_name, post_api, route, handle_request,
}
use cloudcomputing_lab2_http.Server.Handler.Answers.{step}
use cloudcomputing_lab2_http.Server.Handler.Names.{drained}
use cloudcomputing_lab2_http.Server.Handler.Routing.{Arrives, drained-IsReady, routed}
use cloudcomputing_lab2_http.Server.Handler.Replies.{json_response, replied, text_of}
use cloudcomputing_lab2_http.Server.Handler.Uploads.{upload-saves}

-- The content that a client wrote is read back as its pairs.
pub parse_param-render :
    (t : ApiType) (ps : List KeyValuePair)
    → All IsPlain ps
    → length ps ≤ 10
    → all_fit ps ≡ true
    → parse_param (render ps) (holding t []) ≡ ok (holding t ps)
parse_param-render t ps h b f = rw (
  parse_param-holding (render ps) t [] (omega arith) refl,
  fields-render ps h,
  pairs-render ps h,
  take-all ps 10 b,
  f,
)

abbrev pub upload_path : Bytes
upload_path = codes "/api/upload"

-- The parameters of an upload with an extra text.
abbrev pub form : Bytes → Bytes → Bytes → List KeyValuePair
form id name extra =
    record { param = codes "id"; value = id }
    ∷ record { param = codes "name"; value = name }
    ∷ record { param = codes "extra"; value = extra }
    ∷ []

-- The request with the form as its content.
abbrev pub posted : List KeyValuePair → HttpRequest
posted ps = record {
  method = codes "POST";
  path = upload_path;
  content = some (render ps);
  content_length = some (length (render ps));
}

-- The parameters of the content, as the handler gets them.
abbrev pub parameters : List KeyValuePair → ApiRequest
parameters ps = holding (points (ok (codes "upload"))) ps

module _ (S : Setting) (fd : ℕ) where
  upload_request : api_request_of S upload_path ≡ ok (holding (points (ok (codes "upload"))) [])
  unfolding api_request_of parse_query_string strchr initapi_request string_at
  upload_request = refl

  route-posted : (ps : List KeyValuePair) → route S fd (posted ps) ≡ post_api S fd (posted ps)
  unfolding route strstr strcmp_eq strncmp_eq
  route-posted ps = refl

  post_api-posted :
      (ps : List KeyValuePair)
      → All IsPlain ps
      → length ps ≤ 10
      → all_fit ps ≡ true
      → leb 2 (length ps) ≡ true
      → has_id_and_name (parameters ps) ≡ ok true
      → (w : World)
      → post_api S fd (posted ps) w ≡ upload S.json S.writable S.stack fd (parameters ps) w
  unfolding post_api read_api_type content_of strcmp_eq
  post_api-posted ps plain few fit two named w =
      step (lift (api_request_of S upload_path)) _ w w (parameters []) (rw upload_request)
      ∙ step (lift (parse_param (render ps) (parameters []))) _ w w (parameters ps)
          (rw (parse_param-render (points (ok (codes "upload"))) ps plain few fit))
      ∙ rw two (step (lift (has_id_and_name (parameters ps))) _ w w true (rw named))

  -- A written POST reaches `upload` with the parameters of its content.
  pub handle_request-posted :
      (w : World) (version headers more : Bytes) (ps : List KeyValuePair)
      → ((n : ℕ) → S.alloc n ≡ true)
      → IsWritten (codes "POST") upload_path version headers (length (render ps)) more (render ps)
      → length (render ps) + 1 < size_t_mod
      → Arrives S w fd (
          request_line
            (codes "POST")
            upload_path
            version
            (with_content headers (length (render ps)) more (render ps)))
      → All IsPlain ps
      → length ps ≤ 10
      → all_fit ps ≡ true
      → leb 2 (length ps) ≡ true
      → has_id_and_name (parameters ps) ≡ ok true
      → handle_request S fd w ≡ upload S.json S.writable S.stack fd (parameters ps) (drained w fd)
  handle_request-posted w version headers more ps all written small arrives plain few fit two
        named =
      let body = render ps in
      let input =
        request_line (codes "POST") upload_path version
          (with_content headers (length body) more body) in
      let parses : http_request_string_parse S.alloc input ≡ ok (some (posted ps)) =
        http_request_string_parse-with_content S.alloc all (codes "POST") upload_path version
          headers (length body) more body written small
        ∙ ap (λ content. ok (some (record (posted ps) { content = some content })))
            (take-all body (length body) (omega arith)) in
      routed S w fd input arrives (posted ps) parses refl
      ∙ ap (λ act. act (drained w fd)) (route-posted ps)
      ∙ post_api-posted ps plain few fit two named (drained w fd)

  -- A client that writes a POST for "/api/upload" with the parameters id, name and extra as its
  -- content, on a connection as in `Arrives`: if no value holds a separator and all fit the arrays of
  -- the parameters, and the data file is as for an upload that finds its item, then exactly the
  -- response 200 with the item goes out, the connection is closed, once, and the data file, if it can
  -- be written, holds the array with the item's member "extra" set to the value that the client wrote;
  -- no other file changes.
  pub handle_request-upload :
      (w : World) (version headers more id name extra : Bytes) (contents text : Bytes)
      (json : S.json.Node) (k : ℕ) (item : S.json.Node)
      → ((n : ℕ) → S.alloc n ≡ true)
      → IsWritten
          (codes "POST")
          upload_path
          version
          headers
          (length (render (form id name extra)))
          more
          (render (form id name extra))
      → length (render (form id name extra)) + 1 < size_t_mod
      → Arrives S w fd (
          request_line (codes "POST") upload_path version (
            with_content headers
              (length (render (form id name extra)))
              more
              (render (form id name extra))))
      → All IsPlain (form id name extra)
      → all_fit (form id name extra) ≡ true
      → lookup data_path w.files ≡ some contents
      → length contents ≤ buffer_size
      → string_at (take buffer_size (contents ++ drop (length contents) S.stack)) 0 ≡ ok text
      → S.json.parse text ≡ some json
      → All (HasBoth S.json) (S.json.items json)
      → first_from S.json (is_asked S.json id name) 0 (S.json.items json) ≡ some (k, item)
      → Lacks 0 (S.json.print (succeeded S.json (with_extra S.json item extra)))
      → length (text_of S.json (succeeded S.json (with_extra S.json item extra))) < 2 ^ 31
      → Lacks 0 (S.json.print (S.json.replace_item json k (with_extra S.json item extra)))
      → (gs : List Grant) × (handle_request S fd w
          ≡ ok (
            tt,
            record (replied
                (drained w fd)
                fd
                (json_response 200
                  (text_of S.json (succeeded S.json (with_extra S.json item extra))))
                gs) {
                  files =
                      if S.writable
                      then insert data_path
                          (text_of S.json
                            (S.json.replace_item json k (with_extra S.json item extra)))
                          w.files
                      else w.files;
                },
          ))
        × Accepting gs
  unfolding param_at has_id_and_name strcmp_eq
  handle_request-upload w version headers more id name extra contents text json k item all written
        small arrives plain fit e short t p both found clear length_ok clear' =
      let ps = form id name extra in
      let body = render ps in
      let d = drained w fd in
      let input =
        request_line (codes "POST") upload_path version
          (with_content headers (length body) more body) in
      let (gs, run, accepting) =
        upload-saves S.json S.writable S.stack d fd [] (parameters ps) contents text json
          (record { param = codes "id"; value = id })
          (record { param = codes "name"; value = name })
          (record { param = codes "extra"; value = extra }) k item
          (drained-IsReady S w fd input arrives) e short t p refl refl refl refl refl both found
          clear length_ok clear' in
      (
        gs,
        handle_request-posted w version headers more ps all written small arrives plain
              (omega arith) fit refl refl
            ∙ run,
        accepting,
      )
