-- ===== src/Server/Handler/Asks.antt =====
-- The uploads of httpserver.c that change no file: two parameters, or an item that is not there.
pub mod Written
use cloudcomputing_lab2_http.Prelude.{
  ℕ, ◌^◌, ◌<◌, ◌≡◌, ◌∙◌, Bool, Option, none, some, List, [], ◌∷◌, length, All,
}
use cloudcomputing_lab2_http.Result.{ok}
use cloudcomputing_lab2_http.Cstr.{Bytes}
use cloudcomputing_lab2_http.Cstr.Search.{Lacks}
use cloudcomputing_lab2_http.Os.{World, Grant, socket, lift, misuse}
use cloudcomputing_lab2_http.Map.{ApiRequest, KeyValuePair}
use cloudcomputing_lab2_http.Server.Api.{
  param_at, find_item, missing_object, succeeded, field, upload_three,
}
use cloudcomputing_lab2_http.Server.Api.Cjson.{Json}
use cloudcomputing_lab2_http.Server.Api.Lookup.{HasBoth, is_asked, first_from, find_item_lem}
use cloudcomputing_lab2_http.Server.Send.Delivery.{Accepting}
use cloudcomputing_lab2_http.Server.Handler.Answers.{step}
use cloudcomputing_lab2_http.Server.Handler.Replies.{json_response, replied, text_of, send_json_lem}

module _ (J : Json) where
  -- What is answered, by whether the item was found.
  abbrev pub answer_code : Option (ℕ × J.Node) → ℕ
  answer_code none = 404
  answer_code (some (k, item)) = 200

  abbrev pub answer_node : List KeyValuePair → Option (ℕ × J.Node) → J.Node
  answer_node ps none = missing_object J ps J.create_object
  answer_node ps (some (k, item)) = succeeded J item

  -- The 404 response of two parameters closes the connection once more.
  abbrev pub closed_again : Option (ℕ × J.Node) → World → World
  closed_again none w = misuse w
  closed_again (some (k, item)) w = w

  module _ (w : World) (fd : ℕ) (input : Bytes) (request : ApiRequest) (json : J.Node)
      (id name : KeyValuePair) (o : w.fds fd ≡ socket input) (a : Accepting w.grants)
      (i : param_at request 0 ≡ ok id) (n : param_at request 1 ≡ ok name)
      (both : All (HasBoth J) (J.items json)) where
    upload_three-missing :
        (writable : Bool) (extra : KeyValuePair)
        → param_at request 2 ≡ ok extra
        → first_from J (is_asked J id.value name.value) 0 (J.items json) ≡ none
        → Lacks 0 (
            J.print (
              answer_node
                (field J "id" id ∷ field J "name" name ∷ field J "extra" extra ∷ [])
                none))
        → length (
            text_of J (
              answer_node
                (field J "id" id ∷ field J "name" name ∷ field J "extra" extra ∷ [])
                none))
          < 2 ^ 31
        → (gs : List Grant) × (upload_three J writable fd request json w
            ≡ ok (
              tt,
              replied w fd
                  (json_response 404 (
                    text_of J (
                      answer_node
                        (field J "id" id ∷ field J "name" name ∷ field J "extra" extra ∷ [])
                        none)))
                  gs,
            ))
          × Accepting gs
    unfolding upload_three
    upload_three-missing writable extra x f h small =
        let node =
          answer_node (field J "id" id ∷ field J "name" name ∷ field J "extra" extra ∷ []) none in
        let (gs, sent, a') = send_json_lem J w fd 404 input node o a h small in
        (
          gs,
          step (lift (param_at request 0)) _ w w id (rw i)
              ∙ step (lift (param_at request 1)) _ w w name (rw n)
              ∙ step (lift (param_at request 2)) _ w w extra (rw x)
              ∙ step (lift (find_item J id.value name.value 0 (J.items json))) _ w w none
                  (rw (find_item_lem J id.value name.value 0 (J.items json) both, f))
              ∙ sent,
          a',
        )
