-- ===== src/Server/Api.antt =====
-- The handlers of API requests: `list`, `check` and `upload` of httpserver.c.
pub mod Cjson
pub mod Lookup
use cloudcomputing_lab2_http.Prelude.{
  ℕ, ◌+◌, String, Bool, true, false, Option, none, some, List, [], ◌∷◌, ◌++◌, ◌==◌, if◌then◌else◌,
  length, get_elem?, drop, to_int, take,
}
use cloudcomputing_lab2_http.Result.{Result, ok, fault, null_pointer, out_of_bounds, uninitialised}
use cloudcomputing_lab2_http.Cstr.{Bytes, codes, strcmp_eq, string_at}
use cloudcomputing_lab2_http.Os.{Io, pure, lift, ◌>>=◌, ◌>>◌, read, close, open_file, save_file}
use cloudcomputing_lab2_http.Map.{KeyValuePair, ApiRequest}
use cloudcomputing_lab2_http.Libhttp.Response.{
  http_start_response, http_send_header, http_end_headers,
}
use cloudcomputing_lab2_http.Server.Text.{remove_spaces_and_newlines}
use cloudcomputing_lab2_http.Server.Send.{
  http_send_file, http_send_string, get_file_size, sprintf_size,
}
use Cjson.{Json}

abbrev pub data_path : Bytes
data_path = codes "./data.json"

abbrev pub json_type : Bytes
json_type = codes "application/json"

-- `char buffer[1024]`
abbrev pub buffer_size : ℕ
buffer_size = 1024

unfoldable pub list : ℕ → ℕ → Io (Unit {0})
list fuel fd = do
  http_start_response fd 200
  http_send_header fd (codes "Content-Type") json_type
  src_fd ← open_file data_path
  size ← get_file_size src_fd
  file_size ← lift (sprintf_size size)
  http_send_header fd (codes "Content-Length") file_size
  http_end_headers fd
  status ← http_send_file fuel fd src_fd
  close (some fd)
  close src_fd

-- request->params[i], read.
unfoldable pub param_at : ApiRequest → ℕ → Result KeyValuePair
param_at request i = elim (get_elem? request.params i) [
  | none ↦ fault out_of_bounds
  | some none ↦ fault uninitialised
  | some (some pair) ↦ ok pair
]

unfoldable pub check_found : ℕ → Io (Unit {0})
check_found fd = do http_start_response fd 200; http_end_headers fd; close (some fd)

-- `src_fd` was closed above, and is closed once more here, which is what closes `src_fd2` if that was
-- given the same number.
unfoldable pub check_missing : ℕ → ℕ → ℕ → Io (Unit {0})
check_missing fuel fd src_fd = do
  http_start_response fd 404
  http_send_header fd (codes "Content-Type") json_type
  http_end_headers fd
  src_fd2 ← open_file (codes "404.html")
  status ← http_send_file fuel fd src_fd2
  close (some src_fd)
  close (some fd)

module _ (J : Json) where
  open J use {
    Node, parse, items, get_object_item, valuestring, add_string_to_object, set_valuestring,
    create_object, duplicate, print, replace_item,
  }

  -- strcmp(node->valuestring, text) == 0, where `node` may be NULL, and its string too.
  unfoldable pub value_is : Option Node → Bytes → Result Bool
  value_is none text = fault null_pointer
  value_is (some node) text = elim (valuestring node) [
    | none ↦ fault null_pointer
    | some s ↦ ok (strcmp_eq s text)
  ]

  -- The test of the loops, whose second half is read only if the first passes.
  unfoldable pub is_match : Bytes → Bytes → Node → Result Bool
  unfolding value_is
  is_match id name item = elim (value_is (get_object_item item (codes "id")) id) [
    | fault e ↦ fault e
    | ok false ↦ ok false
    | ok true ↦ value_is (get_object_item item (codes "name")) name
  ]

  -- `cJSON_ArrayForEach` up to the first item that passes the test: its index, and the item.
  unfoldable pub find_item : Bytes → Bytes → ℕ → List Node → Result (Option (ℕ × Node))
  unfolding is_match
  find_item id name i [] = ok none
  find_item id name i (item ∷ later) = elim (is_match id name item) [
    | fault e ↦ fault e
    | ok true ↦ ok (some (i, item))
    | ok false ↦ find_item id name (i + 1) later
  ]

  abbrev pub parsed : ℕ → Option Node → Option (ℕ × Node)
  parsed fd none = none
  parsed fd (some json) = some (fd, json)

  -- The data file, opened, read and closed, with the number of its descriptor; `stack` is what the buffer held before. Behind the bytes
  -- that were read the text runs on to the first NUL. NULL stands for each of the early returns.
  unfoldable pub read_json : Bytes → Io (Option (ℕ × Node))
  read_json stack = open_file data_path >>= λ src_fd. elim src_fd [
    | none ↦ pure none
    | some fd ↦ read (some fd) buffer_size >>= λ bytes_read. elim bytes_read [
      | none ↦ close (some fd) >> pure none
      | some bytes ↦
          close (some fd)
          >> (lift (string_at (take buffer_size (bytes ++ drop (length bytes) stack)) 0) >>= λ text.
              pure (parsed fd (parse text)))
    ]
  ]

  -- The text of an object as it is sent: without blanks, up to its NUL.
  unfoldable pub compact_text : Node → Result Bytes
  compact_text node = elim (remove_spaces_and_newlines (print node ++ 0 ∷ [])) [
    | ok block ↦ string_at block 0
    | fault e ↦ fault e
  ]

  -- `request->params[0].value` and `request->params[1].value` are the id and the name.
  unfoldable pub check : ℕ → Bytes → ℕ → ApiRequest → Io (Unit {0})
  unfolding check_found check_missing
  check fuel stack fd request = read_json stack >>= λ opened. elim opened [
    | none ↦ pure tt
    | some (src_fd, json) ↦ lift (param_at request 0) >>= λ id.
        lift (param_at request 1) >>= λ name.
        lift (find_item id.value name.value 0 (items json)) >>= λ found. elim found [
          | some (i, item) ↦ check_found fd
          | none ↦ check_missing fuel fd src_fd
        ]
  ]

  -- The response that holds an object's text, and the end of the connection.
  unfoldable pub send_json : ℕ → ℕ → Node → Io (Unit {0})
  send_json fd status_code node = do
    text ← lift (compact_text node)
    http_start_response fd status_code
    http_send_header fd (codes "Content-Type") json_type
    file_size ← lift (sprintf_size (to_int (length text)))
    http_send_header fd (codes "Content-Length") file_size
    http_end_headers fd
    status ← http_send_string fd text
    close (some fd)

  -- The object of the 404 responses.
  abbrev pub missing_object : List KeyValuePair → Node → Node
  missing_object [] node = add_string_to_object node (codes "success") (codes "false")
  missing_object (p ∷ ps) node = missing_object ps (add_string_to_object node p.param p.value)

  abbrev pub succeeded : Node → Node
  succeeded item = add_string_to_object (duplicate item) (codes "success") (codes "true")

  abbrev pub field : String → KeyValuePair → KeyValuePair
  field key p = record { param = codes key; value = p.value }

  -- The branch of two parameters. The 404 response closes the client, and the end of the function
  -- closes it once more.
  unfoldable pub upload_two : ℕ → ApiRequest → Node → Io (Unit {0})
  unfolding send_json
  upload_two fd request json = lift (param_at request 0) >>= λ id.
      lift (param_at request 1) >>= λ name.
      lift (find_item id.value name.value 0 (items json)) >>= λ found. elim found [
        | some (i, item) ↦ send_json fd 200 (succeeded item)
        | none ↦
            send_json fd 404 (missing_object (field "id" id ∷ field "name" name ∷ []) create_object)
            >> close (some fd)
      ]

  -- The item with its member "extra" set to the text.
  abbrev pub with_extra : Node → Bytes → Node
  with_extra item extra = elim (get_object_item item (codes "extra")) [
    | none ↦ add_string_to_object item (codes "extra") extra
    | some extra_item ↦ set_valuestring item (codes "extra") extra
  ]

  -- The branch of three parameters; `writable` says whether `fopen` gives a file.
  unfoldable pub upload_three : Bool → ℕ → ApiRequest → Node → Io (Unit {0})
  unfolding send_json
  upload_three writable fd request json = lift (param_at request 0) >>= λ id.
      lift (param_at request 1) >>= λ name. lift (param_at request 2) >>= λ extra.
      lift (find_item id.value name.value 0 (items json)) >>= λ found. elim found [
        | none ↦ send_json fd 404 (
            missing_object (field "id" id ∷ field "name" name ∷ field "extra" extra ∷ [])
              create_object)
        | some (i, item) ↦
            let item' = with_extra item extra.value in
            send_json fd 200 (succeeded item')
            >> (lift (compact_text (replace_item json i item')) >>= λ text.
                if writable then save_file data_path text else pure tt)
      ]

  -- Every other count ends the connection with no response.
  unfoldable pub upload : Bool → Bytes → ℕ → ApiRequest → Io (Unit {0})
  unfolding upload_two upload_three
  upload writable stack fd request = read_json stack >>= λ opened. elim opened [
    | none ↦ pure tt
    | some (src_fd, json) ↦
        let three =
          (lift (param_at request 2) >>= λ extra.
          if strcmp_eq extra.param (codes "extra")
          then upload_three writable fd request json
          else close (some fd)) in
        if request.count == 2
        then upload_two fd request json
        else if request.count == 3
        then three
        else close (some fd)
  ]
