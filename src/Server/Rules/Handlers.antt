-- ===== src/Server/Rules/Handlers.antt =====
-- The handlers of API requests, from the rules.
use cloudcomputing_lab2_http.Prelude.{
  ℕ, Bool, Option, none, some, ◌++◌, ◌==◌, length, drop, to_int, take,
}
use cloudcomputing_lab2_http.Cstr.{Bytes, codes, strcmp_eq, string_at}
use cloudcomputing_lab2_http.Os.{
  World, Fd, Io, pure, lift, ◌>>=◌, ◌>>◌, read, close, open_file, save_file,
}
use cloudcomputing_lab2_http.Os.Keeps.{
  Keeps, Any, Keeps-pure, Keeps-if, Keeps-Option, Keeps-bind, Keeps-then, Keeps-over,
}
use cloudcomputing_lab2_http.Map.{ApiRequest, KeyValuePair}
use cloudcomputing_lab2_http.Server.Send.{
  http_send_file, http_send_string, get_file_size, sprintf_size,
}
use cloudcomputing_lab2_http.Server.Api.{
  data_path, json_type, buffer_size, list, param_at, check_found, check_missing, find_item, parsed,
  read_json, compact_text, check, send_json, upload_two, upload_three, upload, succeeded,
  with_extra,
}
use cloudcomputing_lab2_http.Server.Api.Cjson.{Json}
use cloudcomputing_lab2_http.Server.Rules.{Rules, AreOwn, Calm, Mild, Saves, mild, lifted}
use cloudcomputing_lab2_http.Server.Rules.Finishes.{
  sprintf_size-Finishes, string_at-Finishes, param_at-Finishes, find_item-Finishes,
  compact_text-Finishes,
}
use cloudcomputing_lab2_http.Server.Rules.Sending.{
  head-Calm, start_response-Calm, send_header-Calm, end_headers-Calm, send_string-Calm,
  get_file_size-Calm,
}

module _ {fd fuel : ℕ} (R : Rules fd fuel) where
  pub hang_up-Calm : Calm R (close (some fd))
  hang_up-Calm = R.on_close (some fd) R.own

  pub list-Calm : Calm R (list fuel fd)
  unfolding list
  list-Calm = Keeps-then _ _ (start_response-Calm R 200) (
      Keeps-then _ _ (send_header-Calm R (codes "Content-Type") json_type) (
        Keeps-bind (open_file data_path) _ (R.on_open_file data_path) (λ src own.
          Keeps-bind (get_file_size src) _ (get_file_size-Calm R src own) (λ size _.
            Keeps-bind (lift (sprintf_size size)) _
              (lifted R (sprintf_size size) (sprintf_size-Finishes size))
              (λ file_size _.
                Keeps-then _ _ (send_header-Calm R (codes "Content-Length") file_size) (
                  Keeps-then _ _ (end_headers-Calm R) (
                    Keeps-bind (http_send_file fuel fd src) _ (R.on_send_file src own)
                      (λ status _. Keeps-then _ _ hang_up-Calm (R.on_close src own)))))))))

  check_found-Calm : Calm R (check_found fd)
  unfolding check_found
  check_found-Calm =
      Keeps-then _ _ (start_response-Calm R 200) (Keeps-then _ _ (end_headers-Calm R) hang_up-Calm)

  check_missing-Calm : (src : ℕ) → R.IsOwn src → Calm R (check_missing fuel fd src)
  unfolding check_missing
  check_missing-Calm src own = head-Calm R 404 json_type _ (
      Keeps-bind (open_file (codes "404.html")) _ (R.on_open_file (codes "404.html"))
        (λ src_fd2 own2.
          Keeps-bind (http_send_file fuel fd src_fd2) _ (R.on_send_file src_fd2 own2)
            (λ status _. Keeps-then _ _ (R.on_close (some src) own) hang_up-Calm)))

  module _ (J : Json) where
    OwnNode : Option (ℕ × J.Node) → Type 0
    OwnNode none = Unit
    OwnNode (some (d, json)) = R.IsOwn d

    read_json-Own : (stack : Bytes) → Keeps R.E R.P R.P OwnNode (read_json J stack)
    unfolding read_json OwnNode
    read_json-Own stack =
        Keeps-bind (open_file data_path) _ (R.on_open_file data_path)
          (λ src_fd own. opened src_fd own)
      where
        parsed-Own : (d : ℕ) (node : Option J.Node) → R.IsOwn d → OwnNode (parsed J d node)
        parsed-Own d none own = tt
        parsed-Own d (some json) own = own

        opened :
            (src_fd : Fd)
            → AreOwn R.IsOwn src_fd
            → Keeps R.E R.P R.P OwnNode (elim src_fd as (λ _. Io (Option (ℕ × J.Node))) [
              | none ↦ pure none
              | some d ↦ read (some d) buffer_size >>= λ bytes_read. elim bytes_read [
                | none ↦ close (some d) >> pure none
                | some bytes ↦
                    close (some d)
                    >> (lift (string_at (take buffer_size (bytes ++ drop (length bytes) stack)) 0)
                        >>= λ text. pure (parsed J d (J.parse text)))
              ]
            ])
        opened none own = Keeps-pure none tt
        opened (some d) own =
            Keeps-bind (read (some d) buffer_size) _ (R.on_read (some d) buffer_size own)
              (λ bytes_read _.
                Keeps-Option bytes_read _ _
                  (Keeps-then _ _ (R.on_close (some d) own) (Keeps-pure none tt))
                  (λ bytes _. Keeps-then _ _ (R.on_close (some d) own) (
                    Keeps-bind _ _
                      (lifted R
                        (string_at (take buffer_size (bytes ++ drop (length bytes) stack)) 0)
                        (string_at-Finishes (take buffer_size (bytes ++ drop (length bytes) stack))
                          0))
                      (λ text _. Keeps-pure _ (parsed-Own d (J.parse text) own)))))

    -- With any weaker predicate at the end.
    module _ (G : World → Type 0) (to : (w : World) → R.P w → G w) where
      abbrev Toward : Io (Unit {0}) → Type 0
      Toward m = Keeps R.E R.P G Any m

      found_lem :
          (found : Option (ℕ × J.Node)) (m : Io (Unit {0})) (k : ℕ → J.Node → Io (Unit {0}))
          → Toward m
          → ((i : ℕ) (item : J.Node) → Toward (k i item))
          → Toward (elim found as (λ _. Io (Unit {0})) [ none ↦ m | some (i, item) ↦ k i item ])
      found_lem none m k cm ck = cm
      found_lem (some (i, item)) m k cm ck = ck i item

      -- The data file read, before whatever follows.
      read_then :
          (stack : Bytes) (k : ℕ → J.Node → Io (Unit {0}))
          → ((d : ℕ) (json : J.Node) → R.IsOwn d → Toward (k d json))
          → Toward (
              read_json J stack >>= λ opened. elim opened as (λ _. Io (Unit {0})) [
                | none ↦ pure tt
                | some (d, json) ↦ k d json
              ])
      unfolding OwnNode
      read_then stack k calm =
          Keeps-bind (read_json J stack) _ (read_json-Own stack) (λ opened own. go opened own)
        where
          go :
              (opened : Option (ℕ × J.Node))
              → OwnNode opened
              → Toward (elim opened as (λ _. Io (Unit {0})) [
                | none ↦ pure tt
                | some (d, json) ↦ k d json
              ])
          go none own = Keeps-over to (pure tt) (Keeps-pure tt tt)
          go (some (d, json)) own = calm d json own

    -- The search for the item that the request names, before whatever follows.
    search_then :
        (request : ApiRequest) (json : J.Node) (m : KeyValuePair → KeyValuePair → Io (Unit {0}))
        (k : ℕ → J.Node → Io (Unit {0}))
        → ((id name : KeyValuePair) → Calm R (m id name))
        → ((i : ℕ) (item : J.Node) → Calm R (k i item))
        → Calm R (
            lift (param_at request 0) >>= λ id. lift (param_at request 1) >>= λ name.
            lift (find_item J id.value name.value 0 (J.items json)) >>= λ found.
            elim found as (λ _. Io (Unit {0})) [ none ↦ m id name | some (i, item) ↦ k i item ])
    search_then request json m k cm ck =
        Keeps-bind _ _ (lifted R (param_at request 0) (param_at-Finishes request 0)) (λ id _.
          Keeps-bind _ _ (lifted R (param_at request 1) (param_at-Finishes request 1)) (λ name _.
            Keeps-bind _ _
              (lifted R (find_item J id.value name.value 0 (J.items json))
                (find_item-Finishes J id.value name.value 0 (J.items json)))
              (λ found _. found_lem R.P (λ w p. p) found (m id name) k (cm id name) ck)))

    pub check-Calm : (stack : Bytes) (request : ApiRequest) → Calm R (check J fuel stack fd request)
    unfolding check
    check-Calm stack request =
        read_then R.P (λ w p. p) stack _
          (λ d json own.
            search_then request json (λ _ _. check_missing fuel fd d) (λ _ _. check_found fd)
              (λ _ _. check_missing-Calm d own) (λ _ _. check_found-Calm))

    send_json-Calm : (status_code : ℕ) (node : J.Node) → Calm R (send_json J fd status_code node)
    unfolding send_json
    send_json-Calm status_code node =
        Keeps-bind _ _ (lifted R (compact_text J node) (compact_text-Finishes J node)) (λ text _.
          Keeps-then _ _ (start_response-Calm R status_code) (
            Keeps-then _ _ (send_header-Calm R (codes "Content-Type") json_type) (
              Keeps-bind _ _
                (lifted R (sprintf_size (to_int (length text)))
                  (sprintf_size-Finishes (to_int (length text))))
                (λ file_size _.
                  Keeps-then _ _ (send_header-Calm R (codes "Content-Length") file_size) (
                    Keeps-then _ _ (end_headers-Calm R) (
                      Keeps-bind (http_send_string fd text) _ (send_string-Calm R text)
                        (λ status _. hang_up-Calm)))))))

    upload_two-Calm : (request : ApiRequest) (json : J.Node) → Calm R (upload_two J fd request json)
    unfolding upload_two
    upload_two-Calm request json =
        search_then request json _ _ (λ id name. Keeps-then _ _ (send_json-Calm 404 _) hang_up-Calm)
          (λ i item. send_json-Calm 200 (succeeded J item))

    upload_three-Mild :
        (writable : Bool) (request : ApiRequest) (json : J.Node)
        → Saves R
        → Mild R (upload_three J writable fd request json)
    unfolding upload_three
    upload_three-Mild writable request json saves =
        Keeps-bind _ _ (lifted R (param_at request 0) (param_at-Finishes request 0)) (λ id _.
          Keeps-bind _ _ (lifted R (param_at request 1) (param_at-Finishes request 1)) (λ name _.
            Keeps-bind _ _ (lifted R (param_at request 2) (param_at-Finishes request 2)) (λ extra _.
              Keeps-bind _ _
                (lifted R (find_item J id.value name.value 0 (J.items json))
                  (find_item-Finishes J id.value name.value 0 (J.items json)))
                (λ found _.
                  found_lem R.F R.over found _ _ (mild R _ (send_json-Calm 404 _)) (λ i item.
                    Keeps-then _ _
                      (send_json-Calm 200 (succeeded J (with_extra J item extra.value)))
                      (Keeps-bind _ _
                        (lifted R
                          (compact_text J (J.replace_item json i (with_extra J item extra.value)))
                          (compact_text-Finishes J
                            (J.replace_item json i (with_extra J item extra.value))))
                        (λ text _.
                          Keeps-if writable (save_file data_path text) (pure tt) (λ _. saves text)
                            (mild R (pure tt) (Keeps-pure tt tt)))))))))

    pub upload-Mild :
        (writable : Bool) (stack : Bytes) (request : ApiRequest)
        → Saves R
        → Mild R (upload J writable stack fd request)
    unfolding upload
    upload-Mild writable stack request saves = read_then R.F R.over stack _ (λ d json own.
        Keeps-if (request.count == 2) (upload_two J fd request json) _
          (λ _. mild R _ (upload_two-Calm request json))
          (Keeps-if (request.count == 3) _ (close (some fd))
            (λ _.
              Keeps-bind _ _ (lifted R (param_at request 2) (param_at-Finishes request 2))
                (λ extra _.
                  Keeps-if (strcmp_eq extra.param (codes "extra"))
                    (upload_three J writable fd request json) (close (some fd))
                    (λ _. upload_three-Mild writable request json saves) (mild R _ hang_up-Calm)))
            (mild R _ hang_up-Calm)))
