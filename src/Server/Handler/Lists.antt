-- ===== src/Server/Handler/Lists.antt =====
-- The requests "/api/list" of httpserver.c, which are answered twice.
use cloudcomputing_lab2_http.Os.Slots.{slot-close, slot-closed}
use mathlib.Core.Path.{fun_ext}
use cloudcomputing_lab2_http.Prelude.{
  ℕ, ◌^◌, ◌<◌, ◌≡◌, ap, ◌∙◌, ◌≢◌, inl, inr, true, none, some, List, [], ◌∷◌, ◌++◌, arith, ◌==◌,
  Bool-cases, length, to_int, ◌≤◌,
}
use cloudcomputing_lab2_http.Result.{ok}
use cloudcomputing_lab2_http.Cstr.{Bytes, codes, decimal, strcmp_eq, strncmp_eq, strstr}
use cloudcomputing_lab2_http.Os.{
  closed, socket, file, World, Grant, lift, lookup, open_file, close, update, ◌>>=◌, ◌>>◌, slot,
}
use cloudcomputing_lab2_http.Libhttp.Response.{
  status_line, header_line, http_start_response, http_send_header, http_end_headers,
}
use cloudcomputing_lab2_http.Server.Send.{done, http_send_file, get_file_size, sprintf_size}
use cloudcomputing_lab2_http.Server.Send.Delivery.{
  Accepting, sending, sending_twice, Accepting-TakesText,
}
use cloudcomputing_lab2_http.Server.Send.Files.{serving, http_send_file-sends, update-here}
use cloudcomputing_lab2_http.Server.Api.{data_path, json_type, list}
use cloudcomputing_lab2_http.Map.{ApiRequest, read_api_type}
use cloudcomputing_lab2_http.Libhttp.Request.{HttpRequest, http_request_string_parse}
use cloudcomputing_lab2_http.Server.Handler.Names.{drained}
use cloudcomputing_lab2_http.Server.Handler.Routing.{Arrives, drained-IsReady, routed}
use cloudcomputing_lab2_http.Server.Handler.{
  Setting, head_is, api_request_of, get_api, handle_request, not_found,
}
use cloudcomputing_lab2_http.Server.Handler.Answers.{
  put, step, dprintf_then, close-socket, close-file,
}
use cloudcomputing_lab2_http.Server.Handler.Files.{
  IsReady, answered, opened, open_file-found, opened-open, slot-shut,
}
use cloudcomputing_lab2_http.Server.Handler.Checks.{route-api}
use cloudcomputing_lab2_http.Server.Handler.Sizes.{get_file_size-start, sprintf_size-small}
use cloudcomputing_lab2_http.Server.Handler.Lost.{lost, not_found-closed}

-- The response of `list`.
abbrev pub list_text : Bytes → Bytes
list_text contents =
    status_line 200
    ++ (header_line (codes "Content-Type") json_type
        ++ (header_line (codes "Content-Length") (decimal (length contents))
            ++ (codes "\r\n" ++ contents)))

-- The file sent, and then both closed, the client first.
send_close_both :
    (fuel : ℕ) (w : World) (fd src : ℕ) (input contents : Bytes)
    → w.fds fd ≡ socket input
    → w.fds src ≡ file contents 0
    → fd ≢ src
    → Accepting w.grants
    → length contents < fuel
    → (gs : List Grant) × ((http_send_file fuel fd (some src) >>= λ status.
            (close (some fd) >> close (some src)))
          w
        ≡ ok (
          tt,
          record (sending w fd contents gs) {
            fds =
                update
                  (update (update w.fds src (file contents (length contents))) fd closed)
                  src
                  closed;
          },
        ))
      × Accepting gs
send_close_both fuel w fd src input contents o s n a h =
    let (gs, e, a') =
      http_send_file-sends fuel w fd src input contents 0 o s (omega arith) (omega arith) a in
    let w1 = serving w fd src contents (length contents) contents gs in
    let w2 = record w1 { fds = update w1.fds fd closed } in
    (
      gs,
      step (http_send_file fuel fd (some src)) (λ status. (close (some fd) >> close (some src))) w
            w1 done e
          ∙ step (close (some fd)) (λ _. close (some src)) w1 w2 tt
              (close-socket w1 fd input (ground arith))
          ∙ close-file w2 src contents (length contents) (ground arith),
      a',
    )

update_around :
    {A : Type 0} (f : ℕ → A) (k n : ℕ) (a b c : A)
    → update (update (update (update f n a) n b) k c) n c ≡ update (update f n c) k c
update_around f k n a b c = fun_ext λ j. elim (Bool-cases (j == k)) [
  | inl e ↦ elim (Bool-cases (j == n)) [ inl e' ↦ rw (e, e') | inr e' ↦ rw (e, e') ]
  | inr e ↦ elim (Bool-cases (j == n)) [ inl e' ↦ rw (e, e') | inr e' ↦ rw (e, e') ]
]

-- `list` on an open data file.
list_lem :
    (fuel : ℕ) (w : World) (fd : ℕ) (input contents : Bytes)
    → IsReady w fd input
    → lookup data_path w.files ≡ some contents
    → length contents < fuel
    → length contents < 2 ^ 31
    → (gs : List Grant) × (list fuel fd w ≡ ok (tt, answered w fd (list_text contents) gs))
      × Accepting gs
unfolding list http_start_response http_send_header http_end_headers
list_lem fuel w fd input contents r e h small =
    let l = status_line 200 in
    let t = Accepting-TakesText w.grants r.accepting in
    let m = header_line (codes "Content-Type") json_type in
    let c = header_line (codes "Content-Length") (decimal (length contents)) in
    let n = codes "\r\n" in
    let w2 = put (put w fd l) fd m in
    let w3 = opened w2 contents in
    let w5 = put (put w3 fd c) fd n in
    let o = opened-open w fd input (file contents 0) r.is_open r.room in
    let at = update-here w.fds (slot w) (file contents 0) in
    let (gs, sent, a) =
      send_close_both fuel w5 fd (slot w) input contents o at
        (ground (arith, r.is_open, slot-closed w r.room)) r.accepting h in
    (
      gs,
      dprintf_then _ w fd l input r.is_open t
          ∙ dprintf_then _ (put w fd l) fd m input r.is_open t
          ∙ step (open_file data_path) _ w2 w3 (some (slot w))
              (open_file-found w2 data_path contents e r.room)
          ∙ step (get_file_size (some (slot w))) _ w3 w3 (to_int (length contents))
              (get_file_size-start w3 (slot w) contents at)
          ∙ step (lift (sprintf_size (to_int (length contents)))) _ w3 w3
              (decimal (length contents)) (rw (sprintf_size-small (length contents) small))
          ∙ dprintf_then _ w3 fd c input o t
          ∙ dprintf_then _ (put w3 fd c) fd n input o t
          ∙ sent
          ∙ ap (λ f. ok (tt, record (sending (put (put w2 fd c) fd n) fd contents gs) { fds = f }))
              (update_around w.fds fd (slot w) (file contents 0) (file contents (length contents))
                  closed
                ∙ ap (λ f. update f fd closed) (slot-shut w r.room))
          ∙ ap (λ v. ok (tt, record v { fds = update w.fds fd closed }))
              (sending_twice (put w2 fd c) fd n contents w.grants gs
                ∙ sending_twice w2 fd c (n ++ contents) w.grants gs
                ∙ sending_twice (put w fd l) fd m (c ++ (n ++ contents)) w.grants gs
                ∙ sending_twice w fd l (m ++ (c ++ (n ++ contents))) w.grants gs),
      a,
    )

module _ (S : Setting) where
  get_api-list :
      (fd : ℕ) (path : Bytes) (request : ApiRequest) (api_type : Bytes)
      → api_request_of S path ≡ ok request
      → read_api_type request.api_type ≡ ok api_type
      → strcmp_eq api_type (codes "list") ≡ true
      → (w : World) → get_api S fd path w ≡ (list S.fuel fd >> not_found S.fuel fd) w
  unfolding get_api
  get_api-list fd path request api_type q a l w =
      step (lift (api_request_of S path)) _ w w request (rw q)
      ∙ step (lift (read_api_type request.api_type)) _ w w api_type (rw a)
      ∙ rw l

  -- A GET under "/api", under the conditions of `Arrives`, of the type "list", if the data file exists
  -- and is below 2^31 bytes, and the page of the 404 responses exists and is not empty: the status 200,
  -- the content type "application/json", the size, and the whole data file go out, once and in order,
  -- and both descriptors are closed. Then the handler runs the 404 response on the closed connection.
  -- No byte of it goes out, the page is closed again, and five calls are made on a closed descriptor,
  -- or four if the page is given the number of the connection.
  pub handle_request-list :
      (w : World) (fd : ℕ) (input : Bytes) (r : HttpRequest) (request : ApiRequest)
      (api_type contents : Bytes) (c : ℕ) (page : Bytes)
      → Arrives S w fd input
      → http_request_string_parse S.alloc input ≡ ok (some r)
      → head_is r.path b'/' ≡ true
      → strstr r.path (codes "..") ≡ none
      → strcmp_eq r.method (codes "GET") ≡ true
      → strncmp_eq r.path (codes "/api") 4 ≡ true
      → api_request_of S r.path ≡ ok request
      → read_api_type request.api_type ≡ ok api_type
      → strcmp_eq api_type (codes "list") ≡ true
      → lookup data_path w.files ≡ some contents
      → length contents < S.fuel
      → length contents < 2 ^ 31
      → lookup (codes "404.html") w.files ≡ some (c ∷ page)
      → (gs : List Grant) × (n : ℕ) × (4 ≤ n)
        × (n ≤ 5)
        × (handle_request S fd w
            ≡ ok (tt, lost (answered (drained w fd) fd (list_text contents) gs) n))
        × Accepting gs
  handle_request-list w fd input r request api_type contents c page arrives parses h dots get api q
        a l e long small p =
      let d = drained w fd in
      let ready = drained-IsReady S w fd input arrives in
      let (gs, sent, accepting) = list_lem S.fuel d fd [] contents ready e long small in
      let w' = answered d fd (list_text contents) gs in
      let (n, least, most, again) =
        not_found-closed S.fuel w' fd c page (update-here d.fds fd closed) p
          (slot-close d fd ready.room) (omega (arith, long)) in
      (
        gs,
        n,
        least,
        most,
        routed S w fd input arrives r parses h
            ∙ ap (λ act. act d) (route-api S fd r dots get api)
            ∙ get_api-list fd r.path request api_type q a l d
            ∙ step (list S.fuel fd) (λ _. not_found S.fuel fd) d w' tt sent
            ∙ again,
        accepting,
      )
