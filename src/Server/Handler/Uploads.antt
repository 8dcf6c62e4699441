-- ===== src/Server/Handler/Uploads.antt =====
-- `upload` of httpserver.c where it changes the data file.
use cloudcomputing_lab2_http.Prelude.{
  ℕ, ◌^◌, ◌≤◌, ◌<◌, ◌≡◌, refl, ◌∙◌, Bool, true, false, some, List, ◌++◌, arith, ◌==◌, if◌then◌else◌,
  length, drop, All, take,
}
use cloudcomputing_lab2_http.Result.{ok}
use cloudcomputing_lab2_http.Cstr.{Bytes, codes, strcmp_eq, string_at}
use cloudcomputing_lab2_http.Os.{
  socket, World, Grant, pure, lift, lookup, insert, save_file, slot, table_size,
}
use cloudcomputing_lab2_http.Map.{ApiRequest, KeyValuePair}
use cloudcomputing_lab2_http.Server.Api.{
  buffer_size, data_path, param_at, read_json, find_item, compact_text, send_json, succeeded,
  with_extra, upload, upload_three,
}
use cloudcomputing_lab2_http.Server.Api.Cjson.{Json}
use cloudcomputing_lab2_http.Server.Api.Lookup.{HasBoth, is_asked, first_from, find_item_lem}
use cloudcomputing_lab2_http.Server.Send.Delivery.{Accepting}
use cloudcomputing_lab2_http.Cstr.Search.{Lacks}
use cloudcomputing_lab2_http.Server.Handler.Answers.{step}
use cloudcomputing_lab2_http.Server.Handler.Files.{IsReady}
use cloudcomputing_lab2_http.Server.Handler.Checks.{read_json_lem}
use cloudcomputing_lab2_http.Server.Handler.Replies.{
  json_response, replied, text_of, compact_text_lem, send_json_lem,
}

saving :
    (writable : Bool) (w : World) (text : Bytes)
    → (if writable then save_file data_path text else pure tt) w
      ≡ ok (tt, record w { files = if writable then insert data_path text w.files else w.files })
unfolding save_file
saving true w text = refl
saving false w text = refl

module _ (J : Json) where
  -- `upload` of three parameters where the search succeeds.
  pub upload_three_lem :
      (writable : Bool) (w : World) (fd : ℕ) (input : Bytes) (request : ApiRequest) (json : J.Node)
      (id name extra : KeyValuePair) (k : ℕ) (item : J.Node)
      → w.fds fd ≡ socket input
      → Accepting w.grants
      → param_at request 0 ≡ ok id
      → param_at request 1 ≡ ok name
      → param_at request 2 ≡ ok extra
      → All (HasBoth J) (J.items json)
      → first_from J (is_asked J id.value name.value) 0 (J.items json) ≡ some (k, item)
      → Lacks 0 (J.print (succeeded J (with_extra J item extra.value)))
      → length (text_of J (succeeded J (with_extra J item extra.value))) < 2 ^ 31
      → Lacks 0 (J.print (J.replace_item json k (with_extra J item extra.value)))
      → (gs : List Grant) × (upload_three J writable fd request json w
          ≡ ok (
            tt,
            record (replied w fd
                (json_response 200 (text_of J (succeeded J (with_extra J item extra.value))))
                gs) {
                  files =
                      if writable
                      then insert data_path
                          (text_of J (J.replace_item json k (with_extra J item extra.value)))
                          w.files
                      else w.files;
                },
          ))
        × Accepting gs
  unfolding upload_three save_file
  upload_three_lem writable w fd input request json id name extra k item o a i n x both found h
        small h' =
      let item' = with_extra J item extra.value in
      let saved = J.replace_item json k item' in
      let (gs, sent, a') = send_json_lem J w fd 200 input (succeeded J item') o a h small in
      let w' = replied w fd (json_response 200 (text_of J (succeeded J item'))) gs in
      (
        gs,
        step (lift (param_at request 0)) _ w w id (rw i)
            ∙ step (lift (param_at request 1)) _ w w name (rw n)
            ∙ step (lift (param_at request 2)) _ w w extra (rw x)
            ∙ step (lift (find_item J id.value name.value 0 (J.items json))) _ w w (some (k, item))
                (rw (find_item_lem J id.value name.value 0 (J.items json) both, found))
            ∙ step (send_json J fd 200 (succeeded J item')) _ w w' tt sent
            ∙ step (lift (compact_text J saved)) _ w' w' (text_of J saved)
                (rw (compact_text_lem J saved h'))
            ∙ saving writable w' (text_of J saved),
        a',
      )

  -- The parameters and the data file of an upload are read before anything is changed.
  pub upload-behind_read :
      (writable : Bool) (stack : Bytes) (w : World) (fd : ℕ) (request : ApiRequest)
      (contents text : Bytes) (json : J.Node) (extra : KeyValuePair)
      → lookup data_path w.files ≡ some contents
      → length contents ≤ buffer_size
      → string_at (take buffer_size (contents ++ drop (length contents) stack)) 0 ≡ ok text
      → J.parse text ≡ some json
      → request.count ≡ 3
      → param_at request 2 ≡ ok extra
      → strcmp_eq extra.param (codes "extra") ≡ true
      → slot w < table_size
      → upload J writable stack fd request w ≡ upload_three J writable fd request json w
  unfolding upload
  upload-behind_read writable stack w fd request contents text json extra e small t p three x named
        room =
      let not_two : (request.count == 2) ≡ false = ground (arith, three) in
      let is_three : (request.count == 3) ≡ true = ground (arith, three) in
      step (read_json J stack) _ w w (some ((slot w), json))
        (read_json_lem J stack w contents text json e small t p room)
      ∙ rw (not_two, is_three) (step (lift (param_at request 2)) _ w w extra (rw x) ∙ rw named refl)

  -- An upload on a connection that can be answered, with the three parameters id, name and "extra", if
  -- the data file exists with 1024 bytes at most, the text of the buffer parses to an array, every item
  -- has both members as strings, an item has the two values, and the two texts that are printed hold no
  -- NUL: the status 200, the size and the text of the item with its member "extra" set and the member
  -- "success", without blanks, go out, once and in order, and the connection is closed, once. If the
  -- file can be written, it then holds the text of the array with that item replaced, without blanks,
  -- and no other file changes; otherwise all files are as they were, though the answer was a success.
  pub upload-saves :
      (writable : Bool) (stack : Bytes) (w : World) (fd : ℕ) (input : Bytes) (request : ApiRequest)
      (contents text : Bytes) (json : J.Node) (id name extra : KeyValuePair) (k : ℕ) (item : J.Node)
      → IsReady w fd input
      → lookup data_path w.files ≡ some contents
      → length contents ≤ buffer_size
      → string_at (take buffer_size (contents ++ drop (length contents) stack)) 0 ≡ ok text
      → J.parse text ≡ some json
      → request.count ≡ 3
      → param_at request 0 ≡ ok id
      → param_at request 1 ≡ ok name
      → param_at request 2 ≡ ok extra
      → strcmp_eq extra.param (codes "extra") ≡ true
      → All (HasBoth J) (J.items json)
      → first_from J (is_asked J id.value name.value) 0 (J.items json) ≡ some (k, item)
      → Lacks 0 (J.print (succeeded J (with_extra J item extra.value)))
      → length (text_of J (succeeded J (with_extra J item extra.value))) < 2 ^ 31
      → Lacks 0 (J.print (J.replace_item json k (with_extra J item extra.value)))
      → (gs : List Grant) × (upload J writable stack fd request w
          ≡ ok (
            tt,
            record (replied w fd
                (json_response 200 (text_of J (succeeded J (with_extra J item extra.value))))
                gs) {
                  files =
                      if writable
                      then insert data_path
                          (text_of J (J.replace_item json k (with_extra J item extra.value)))
                          w.files
                      else w.files;
                },
          ))
        × Accepting gs
  upload-saves writable stack w fd input request contents text json id name extra k item r e small t
        p three i n x named both found h short h' =
      let o = r.is_open in
      let (gs, sent, a) =
        upload_three_lem writable w fd input request json id name extra k item o r.accepting i n x
          both found h short h' in
      (
        gs,
        upload-behind_read writable stack w fd request contents text json extra e small t p three x
              named r.room
            ∙ sent,
        a,
      )
