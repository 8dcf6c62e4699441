-- ===== src/Server/Handler/Routing.antt =====
-- What `handle_request` answers, from the bytes that arrived on the connection.
use cloudcomputing_lab2_http.Os.Slots.{slot-socket}
use cloudcomputing_lab2_http.Prelude.{
  ℕ, ◌^◌, ◌≤◌, ◌<◌, ◌≡◌, ap, ◌∙◌, true, false, ◌&&◌, Option, none, some, List, [], ◌++◌, arith,
  length,
}
use cloudcomputing_lab2_http.Result.{ok}
use cloudcomputing_lab2_http.Cstr.{Bytes, codes, strcmp_eq, strncmp_eq, strstr}
use cloudcomputing_lab2_http.Cstr.Search.{Lacks}
use cloudcomputing_lab2_http.Os.{socket, World, Grant, lookup, has_directory}
use cloudcomputing_lab2_http.Libhttp.Request.{HttpRequest, http_request_string_parse}
use cloudcomputing_lab2_http.Libhttp.Request.Sound.{path-Lacks, http_request_string_parse-Describes}
use cloudcomputing_lab2_http.Libhttp.Receive.{http_request_parse}
use cloudcomputing_lab2_http.Server.Send.Delivery.{Accepting}
use cloudcomputing_lab2_http.Server.Send.Files.{update-here}
use cloudcomputing_lab2_http.Server.Handler.{
  Setting, head_is, respond, refuse, not_found, handle_file, route, handle_request, html_type,
}
use cloudcomputing_lab2_http.Server.Handler.Answers.{step, head, refuse_lem, hung_up}
use cloudcomputing_lab2_http.Server.Handler.Files.{IsReady, answered, not_found_lem}
use cloudcomputing_lab2_http.Server.Handler.Serving.{file_head}
use cloudcomputing_lab2_http.Server.Handler.Names.{
  drained, name_of, receive_lem, handle_file-found, handle_file-missing,
}

-- Bytes without a NUL, 8192 at most, that arrived whole on a connection that can be answered; the
-- block that they are read to is allocated.
pub record Arrives (S : Setting) (w : World) (fd : ℕ) (input : Bytes) : Type 0 where
  pub buffer : S.alloc 8193 ≡ true
  pub ready : IsReady w fd input
  pub fits : length input ≤ 8192
  pub no_nul : Lacks 0 input

-- The branches of `route`, each by its conditions.
module _ (S : Setting) (fd : ℕ) (r : HttpRequest) where
  route-dots : (i : ℕ) → strstr r.path (codes "..") ≡ some i → route S fd r ≡ refuse fd 403
  unfolding route
  route-dots i e = ground arith

  pub route-file :
      strstr r.path (codes "..") ≡ none
      → strcmp_eq r.method (codes "GET") ≡ true
      → strncmp_eq r.path (codes "/api") 4 ≡ false
      → route S fd r ≡ handle_file S.fuel fd r.path
  unfolding route
  route-file dots get api = ground arith

  route-neither :
      strstr r.path (codes "..") ≡ none
      → strcmp_eq r.method (codes "GET") ≡ false
      → (strcmp_eq r.method (codes "POST") && strncmp_eq r.path (codes "/api") 4) ≡ false
      → route S fd r ≡ not_found S.fuel fd
  unfolding route
  route-neither dots get post = ground arith

module _ (S : Setting) (w : World) (fd : ℕ) (input : Bytes) (arrives : Arrives S w fd input) where
  pub drained-IsReady : IsReady (drained w fd) fd []
  drained-IsReady = record {
    is_open = update-here w.fds fd (socket []);
    room =
        (let same = slot-socket w fd input [] arrives.ready.is_open in
          let room = arrives.ready.room in omega (arith, same, room));
    accepting = arrives.ready.accepting;
  }

  -- What the connection's bytes lead to.
  pub parsed_then :
      (parsed : Option HttpRequest)
      → http_request_string_parse S.alloc input ≡ ok parsed
      → handle_request S fd w ≡ respond S fd parsed (drained w fd)
  unfolding handle_request
  parsed_then parsed e =
      let received =
        receive_lem S.alloc w fd input arrives.buffer arrives.ready.is_open arrives.fits
          arrives.no_nul in
      step (http_request_parse S.alloc fd) (respond S fd) w (drained w fd) parsed (received ∙ rw e)

  -- Bytes that the parser refuses, on a connection that can be answered, with the buffer allocated,
  -- no NUL and 8192 bytes at most: `handle_request` reads them all, sends the status 400 with no
  -- body, and closes the connection. Nothing else changes, no call is made on a closed descriptor.
  pub handle_request-malformed :
      http_request_string_parse S.alloc input ≡ ok none
      → handle_request S fd w ≡ ok (tt, hung_up (drained w fd) fd (head 400 html_type))
  handle_request-malformed e =
      parsed_then none e
      ∙ refuse_lem (drained w fd) fd 400 [] drained-IsReady.is_open drained-IsReady.accepting

  module _ (r : HttpRequest) (parses : http_request_string_parse S.alloc input ≡ ok (some r)) where
    pub routed : head_is r.path b'/' ≡ true → handle_request S fd w ≡ route S fd r (drained w fd)
    routed h = parsed_then (some r) parses ∙ rw h

    path_clear : Lacks 0 r.path
    path_clear =
        path-Lacks input r (http_request_string_parse-Describes S.alloc input r parses)
          arrives.no_nul

    -- A request whose path starts with a slash and holds two dots in a row, under the conditions of
    -- `Arrives`: whatever the method, the status 403 with no body is all that is sent, no file is
    -- opened, and the connection is closed.
    pub handle_request-traversal :
        (i : ℕ)
        → head_is r.path b'/' ≡ true
        → strstr r.path (codes "..") ≡ some i
        → handle_request S fd w ≡ ok (tt, hung_up (drained w fd) fd (head 403 html_type))
    handle_request-traversal i h e =
        routed h
        ∙ ap (λ act. act (drained w fd)) (route-dots S fd r i e)
        ∙ refuse_lem (drained w fd) fd 403 [] drained-IsReady.is_open drained-IsReady.accepting

    -- A GET for a path from the root, without two dots in a row and not under "/api", under the
    -- conditions of `Arrives`: if the file of the normalised name exists and is below 2^31 bytes, the
    -- response is the status 200, the content type of the name, the size, and the whole file, once
    -- and in order. It ends for every schedule of partial writes with no failing one; the file and
    -- the connection are closed, and no call is made on a closed descriptor.
    pub handle_request-file :
        (contents : Bytes)
        → head_is r.path b'/' ≡ true
        → strstr r.path (codes "..") ≡ none
        → strcmp_eq r.method (codes "GET") ≡ true
        → strncmp_eq r.path (codes "/api") 4 ≡ false
        → lookup (name_of r.path) w.files ≡ some contents
        → length contents < S.fuel
        → length contents < 2 ^ 31
        → (gs : List Grant) × (handle_request S fd w
            ≡ ok (
              tt,
              answered
                  (drained w fd)
                  fd
                  (file_head (name_of r.path) (length contents) ++ contents)
                  gs,
            ))
          × Accepting gs
    handle_request-file contents h dots get api e long small =
        let (gs, sent, a) =
          handle_file-found S.fuel (drained w fd) fd [] r.path contents drained-IsReady path_clear e
            long small in
        (gs, routed h ∙ ap (λ act. act (drained w fd)) (route-file S fd r dots get api) ∙ sent, a)

    -- The same GET if neither a file nor a directory of the normalised name exists and the page of the
    -- 404 responses does: the status 404 and the whole page, once and in order; the page's descriptor and the
    -- connection are closed, and no call is made on a closed descriptor.
    pub handle_request-missing :
        (page : Bytes)
        → head_is r.path b'/' ≡ true
        → strstr r.path (codes "..") ≡ none
        → strcmp_eq r.method (codes "GET") ≡ true
        → strncmp_eq r.path (codes "/api") 4 ≡ false
        → lookup (name_of r.path) w.files ≡ none
        → has_directory (name_of r.path) w.directories ≡ false
        → lookup (codes "404.html") w.files ≡ some page
        → length page < S.fuel
        → (gs : List Grant) × (handle_request S fd w
            ≡ ok (tt, answered (drained w fd) fd (head 404 html_type ++ page) gs))
          × Accepting gs
    handle_request-missing page h dots get api e none_there p long =
        let (gs, sent, a) =
          handle_file-missing S.fuel (drained w fd) fd [] r.path page drained-IsReady path_clear e
            none_there p long in
        (gs, routed h ∙ ap (λ act. act (drained w fd)) (route-file S fd r dots get api) ∙ sent, a)

    -- A method that is neither GET nor POST, or a POST outside "/api", for a path from the root
    -- without two dots in a row, under the conditions of `Arrives`: the status 404 and its page, and
    -- both descriptors closed.
    pub handle_request-method :
        (page : Bytes)
        → head_is r.path b'/' ≡ true
        → strstr r.path (codes "..") ≡ none
        → strcmp_eq r.method (codes "GET") ≡ false
        → (strcmp_eq r.method (codes "POST") && strncmp_eq r.path (codes "/api") 4) ≡ false
        → lookup (codes "404.html") w.files ≡ some page
        → length page < S.fuel
        → (gs : List Grant) × (handle_request S fd w
            ≡ ok (tt, answered (drained w fd) fd (head 404 html_type ++ page) gs))
          × Accepting gs
    handle_request-method page h dots get post p long =
        let (gs, sent, a) = not_found_lem S.fuel (drained w fd) fd [] page drained-IsReady p long in
        (
          gs,
          routed h ∙ ap (λ act. act (drained w fd)) (route-neither S fd r dots get post) ∙ sent,
          a,
        )
