-- ===== src/Server/Api/Cjson.antt =====
-- The calls of the JSON library, which is a copy of another project: a parameter.
use cloudcomputing_lab2_http.Prelude.{ℕ, Option, List}
use cloudcomputing_lab2_http.Cstr.{Bytes}

-- A node is a value with all that hangs below it. A call that changes a node gives the new one.
pub record Json : Type 1 where
  pub Node : Type 0
  -- cJSON_Parse, NULL being `none`
  pub parse : Bytes → Option Node
  -- the children that cJSON_ArrayForEach visits, in order
  pub items : Node → List Node
  -- cJSON_GetObjectItem, and the field valuestring
  pub get_object_item : Node → Bytes → Option Node
  pub valuestring : Node → Option Bytes
  -- cJSON_AddStringToObject
  pub add_string_to_object : Node → Bytes → Bytes → Node
  -- cJSON_SetValuestring on the member with the name
  pub set_valuestring : Node → Bytes → Bytes → Node
  -- cJSON_CreateObject, cJSON_Duplicate and cJSON_Print
  pub create_object : Node
  pub duplicate : Node → Node
  pub print : Node → Bytes
  -- the array after a change of the child with the index
  pub replace_item : Node → ℕ → Node → Node
