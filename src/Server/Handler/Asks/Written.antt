-- ===== src/Server/Handler/Asks/Written.antt =====
-- The same uploads from the bytes that a client writes.
use cloudcomputing_lab2_http.Prelude.{
  ℕ, ◌+◌, ◌^◌, ◌≤◌, ◌<◌, ◌≡◌, refl, ◌∙◌, true, none, some, List, [], ◌++◌, arith, length, drop, All,
  take,
}
use cloudcomputing_lab2_http.Result.{ok}
use cloudcomputing_lab2_http.Cstr.{Bytes, codes, strcmp_eq, string_at}
use cloudcomputing_lab2_http.Cstr.Search.{Lacks}
use cloudcomputing_lab2_http.Os.{World, Grant, lookup}
use cloudcomputing_lab2_http.Map.Stored.{all_fit}
use cloudcomputing_lab2_http.Map.Stored.Query.{render, IsPlain}
use cloudcomputing_lab2_http.Libhttp.Request.{size_t_mod}
use cloudcomputing_lab2_http.Libhttp.Request.RoundTrip.{request_line, with_content, IsWritten}
use cloudcomputing_lab2_http.Server.Api.{buffer_size, data_path, param_at}
use cloudcomputing_lab2_http.Server.Api.Lookup.{HasBoth, is_asked, first_from}
use cloudcomputing_lab2_http.Server.Send.Delivery.{Accepting}
use cloudcomputing_lab2_http.Server.Handler.{Setting, has_id_and_name, handle_request}
use cloudcomputing_lab2_http.Server.Handler.Names.{drained}
use cloudcomputing_lab2_http.Server.Handler.Routing.{Arrives, drained-IsReady}
use cloudcomputing_lab2_http.Server.Handler.Replies.{json_response, replied, text_of}
use cloudcomputing_lab2_http.Server.Handler.Posts.{
  form, upload_path, parameters, handle_request-posted,
}
use cloudcomputing_lab2_http.Server.Handler.Uploads.{upload-behind_read}
use cloudcomputing_lab2_http.Server.Handler.Asks.{answer_node, upload_three-missing}

module _ (S : Setting) (fd : ℕ) where
  -- The same with the parameter extra as well, where no item has the id and the name: exactly the
  -- response 404 with the three values goes out, the connection is closed once, and no file changes.
  pub handle_request-upload_missing :
      (w : World) (version headers more id name extra : Bytes) (contents text : Bytes)
      (json : S.json.Node)
      → ((n : ℕ) → S.alloc n ≡ true)
      → IsWritten
          (codes "POST")
          upload_path
          version
          headers
          (length (render (form id name extra)))
          more
          (render (form id name extra))
      → length (render (form id name extra)) + 1 < size_t_mod
      → Arrives S w fd (
          request_line (codes "POST") upload_path version (
            with_content headers
              (length (render (form id name extra)))
              more
              (render (form id name extra))))
      → All IsPlain (form id name extra)
      → all_fit (form id name extra) ≡ true
      → lookup data_path w.files ≡ some contents
      → length contents ≤ buffer_size
      → string_at (take buffer_size (contents ++ drop (length contents) S.stack)) 0 ≡ ok text
      → S.json.parse text ≡ some json
      → All (HasBoth S.json) (S.json.items json)
      → first_from S.json (is_asked S.json id name) 0 (S.json.items json) ≡ none
      → Lacks 0 (S.json.print (answer_node S.json (form id name extra) none))
      → length (text_of S.json (answer_node S.json (form id name extra) none)) < 2 ^ 31
      → (gs : List Grant) × (handle_request S fd w
          ≡ ok (
            tt,
            replied
                (drained w fd)
                fd
                (json_response 404 (text_of S.json (answer_node S.json (form id name extra) none)))
                gs,
          ))
        × Accepting gs
  unfolding param_at has_id_and_name strcmp_eq
  handle_request-upload_missing w version headers more id name extra contents text json all written
        small arrives plain fit e short t p both f clear length_ok =
      let ps = form id name extra in
      let body = render ps in
      let d = drained w fd in
      let ready =
        drained-IsReady S w fd
          (request_line (codes "POST") upload_path version
            (with_content headers (length body) more body))
          arrives in
      let (gs, run, accepting) =
        upload_three-missing S.json d fd [] (parameters ps) json
          (record { param = codes "id"; value = id })
          (record { param = codes "name"; value = name }) ready.is_open ready.accepting refl refl
          both S.writable (record { param = codes "extra"; value = extra }) refl f clear
          length_ok in
      (
        gs,
        handle_request-posted S fd w version headers more ps all written small arrives plain
              (omega arith) fit refl refl
            ∙ upload-behind_read S.json S.writable S.stack d fd (parameters ps) contents text json
                (record { param = codes "extra"; value = extra }) e short t p refl refl refl
                ready.room
            ∙ run,
        accepting,
      )
