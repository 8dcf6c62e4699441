-- ===== src/Server/Handler/Races.antt =====
-- Two uploads at once: what is lost between the reading and the writing of the data file by `upload` of
-- httpserver.c, which takes no lock.
use cloudcomputing_lab2_http.Prelude.{
  ℕ, ◌^◌, ◌≤◌, ◌<◌, ◌≡◌, refl, sym, ◌∙◌, ◌≢◌, inl, inr, true, some, List, [], ◌∷◌, ◌++◌, arith,
  Bool-cases, length, drop, All, take,
}
use cloudcomputing_lab2_http.Result.{ok}
use cloudcomputing_lab2_http.Cstr.{Bytes, codes, strcmp_eq, string_at}
use cloudcomputing_lab2_http.Cstr.Equal.{strcmp_eq_iff}
use cloudcomputing_lab2_http.Cstr.Search.{Lacks}
use cloudcomputing_lab2_http.Os.{World, closed, lookup, insert}
use cloudcomputing_lab2_http.Map.{ApiRequest, KeyValuePair}
use cloudcomputing_lab2_http.Server.Api.{
  buffer_size, data_path, param_at, succeeded, with_extra, upload, upload_three,
}
use cloudcomputing_lab2_http.Server.Api.Lookup.{HasBoth, is_asked, first_from}
use cloudcomputing_lab2_http.Server.Send.Delivery.{Accepting}
use cloudcomputing_lab2_http.Server.Handler.{Setting, handle_request}
use cloudcomputing_lab2_http.Server.Handler.Files.{IsReady}
use cloudcomputing_lab2_http.Server.Handler.Replies.{text_of}
use cloudcomputing_lab2_http.Server.Handler.Uploads.{upload_three_lem, upload-behind_read}
use cloudcomputing_lab2_http.Server.Isolation.Requests.{handle_request-isolated}

strcmp_eq-same : (s : Bytes) → strcmp_eq s s ≡ true
strcmp_eq-same s = (strcmp_eq_iff s s).1 refl

lookup-insert :
    (path contents : Bytes) (files : List (Bytes × Bytes))
    → lookup path (insert path contents files) ≡ some contents
unfolding lookup insert
lookup-insert path contents [] = rw (strcmp_eq-same path) refl
lookup-insert path contents ((name, old) ∷ files) = elim (Bool-cases (strcmp_eq name path)) [
  | inl e ↦ rw e (rw e refl)
  | inr e ↦ rw e (rw e (lookup-insert path contents files))
]

-- An upload on `fd` that reads the data file, and then, before it writes it, a whole request on another
-- connection `other`, whatever that client sent and whatever it changed: under the conditions on the
-- first request and on the data file for an upload that finds its item, with a file that can be written
-- and connections that still take bytes, the first upload goes on from what it read and returns, and
-- the data file then holds the array that it read at first with its own item replaced, whatever the
-- request on `other` had written.
pub upload-overwrites :
    (S : Setting) (w w2 : World) (fd other : ℕ) (input : Bytes) (request : ApiRequest)
    (contents text : Bytes) (json : S.json.Node) (id name extra : KeyValuePair) (k : ℕ)
    (item : S.json.Node)
    → IsReady w fd input
    → lookup data_path w.files ≡ some contents
    → length contents ≤ buffer_size
    → string_at (take buffer_size (contents ++ drop (length contents) S.stack)) 0 ≡ ok text
    → S.json.parse text ≡ some json
    → request.count ≡ 3
    → param_at request 0 ≡ ok id
    → param_at request 1 ≡ ok name
    → param_at request 2 ≡ ok extra
    → strcmp_eq extra.param (codes "extra") ≡ true
    → All (HasBoth S.json) (S.json.items json)
    → first_from S.json (is_asked S.json id.value name.value) 0 (S.json.items json) ≡ some (k, item)
    → Lacks 0 (S.json.print (succeeded S.json (with_extra S.json item extra.value)))
    → length (text_of S.json (succeeded S.json (with_extra S.json item extra.value))) < 2 ^ 31
    → Lacks 0 (S.json.print (S.json.replace_item json k (with_extra S.json item extra.value)))
    → other ≢ fd
    → handle_request S other w ≡ ok (tt, w2)
    → Accepting w2.grants
    → (upload S.json true S.stack fd request w ≡ upload_three S.json true fd request json w)
      × ((w3 : World) × (upload_three S.json true fd request json w2 ≡ ok (tt, w3))
          × (lookup data_path w3.files
              ≡ some (
                  text_of S.json
                    (S.json.replace_item json k (with_extra S.json item extra.value)))))
upload-overwrites S w w2 fd other input request contents text json id name extra k item r e small t
      p three i n x named both found h short h' apart run accepting =
    let saved = text_of S.json (S.json.replace_item json k (with_extra S.json item extra.value)) in
    let open_there : w.fds fd ≢ closed = ground (arith, r.is_open) in
    let differs : fd ≢ other = λ same. apart (sym same) in
    let same = ((handle_request-isolated S w w2 other run).others fd open_there differs).0 in
    let (gs, sent, _) =
      upload_three_lem S.json true w2 fd input request json id name extra k item (same ∙ r.is_open)
        accepting i n x both found h short h' in
    (
      upload-behind_read S.json true S.stack w fd request contents text json extra e small t p three
          x named r.room,
      (_, sent, lookup-insert data_path saved w2.files),
    )
