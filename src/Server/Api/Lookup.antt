-- ===== src/Server/Api/Lookup.antt =====
-- The search of `check` and `upload` through the array of the data file.
use cloudcomputing_lab2_http.Prelude.{
  ℕ, ◌+◌, ◌≡◌, refl, Bool, false, ◌&&◌, Option, none, some, List, [], ◌∷◌, arith, if◌then◌else◌,
  All,
}
use cloudcomputing_lab2_http.Result.{ok}
use cloudcomputing_lab2_http.Cstr.{Bytes, codes, strcmp_eq}
use cloudcomputing_lab2_http.Server.Api.{value_is, is_match, find_item}
use cloudcomputing_lab2_http.Server.Api.Cjson.{Json}

module _ (J : Json) where
  -- The text of a member.
  abbrev pub member : J.Node → Bytes → Option Bytes
  member item key = elim (J.get_object_item item key) [
    | none ↦ none
    | some node ↦ J.valuestring node
  ]

  -- The item has both members, as strings.
  abbrev pub HasBoth : J.Node → Type 0
  HasBoth item =
      ((id : Bytes) × (member item (codes "id") ≡ some id))
      × ((name : Bytes) × (member item (codes "name") ≡ some name))

  abbrev pub is_text : Option Bytes → Bytes → Bool
  is_text none text = false
  is_text (some s) text = strcmp_eq s text

  -- The item is the one that the request asks for.
  abbrev pub is_asked : Bytes → Bytes → J.Node → Bool
  is_asked id name item =
      is_text (member item (codes "id")) id && is_text (member item (codes "name")) name

  -- The first element that passes, with its index counted from `i`.
  abbrev pub first_from : (J.Node → Bool) → ℕ → List J.Node → Option (ℕ × J.Node)
  first_from p i [] = none
  first_from p i (item ∷ items) = if p item then some (i, item) else first_from p (i + 1) items

  value_is_lem :
      (item : J.Node) (key text s : Bytes)
      → member item key ≡ some s
      → value_is J (J.get_object_item item key) text ≡ ok (strcmp_eq s text)
  unfolding value_is
  value_is_lem item key text s e = ground arith

  is_match_lem :
      (id name : Bytes) (item : J.Node)
      → HasBoth item
      → is_match J id name item ≡ ok (is_asked id name item)
  unfolding is_match
  is_match_lem id name item ((s, e), (t, e')) =
      ground
        (arith, value_is_lem item (codes "id") id s e, value_is_lem item (codes "name") name t e')

  -- If every item has an id and a name that are strings, the loop returns without following a NULL
  -- pointer: the first item with both texts of the request, and its index counted from `i`, or
  -- nothing exactly if no item has both.
  pub find_item_lem :
      (id name : Bytes) (i : ℕ) (items : List J.Node)
      → All HasBoth items
      → find_item J id name i items ≡ ok (first_from (is_asked id name) i items)
  unfolding find_item
  find_item_lem id name i [] h = refl
  find_item_lem id name i (item ∷ items) h =
      ground (arith, is_match_lem id name item h.0, find_item_lem id name (i + 1) items h.1)
