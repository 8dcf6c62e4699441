-- ===== src/Server/Handler/Hangups.antt =====
-- A client that hangs up while httpserver.c sends it a file.
use cloudcomputing_lab2_http.Os.Slots.{slot-socket}
use cloudcomputing_lab2_http.Server.Send.Delivery.{TakesText}
use cloudcomputing_lab2_http.Prelude.{
  ℕ, ◌^◌, ◌≤◌, ◌<◌, ◌≡◌, ap, ◌∙◌, true, false, none, some, List, [], ◌++◌, length, arith,
}
use cloudcomputing_lab2_http.Result.{ok}
use cloudcomputing_lab2_http.Cstr.{Bytes, codes, decimal, strcmp_eq, strncmp_eq, strstr}
use cloudcomputing_lab2_http.Cstr.Search.{Lacks}
use cloudcomputing_lab2_http.Os.{World, Grant, socket, file, lookup, slot, table_size}
use cloudcomputing_lab2_http.Libhttp.Mime.{http_get_mime_type}
use cloudcomputing_lab2_http.Libhttp.Response.{status_line, header_line}
use cloudcomputing_lab2_http.Libhttp.Receive.{http_request_parse}
use cloudcomputing_lab2_http.Libhttp.Request.{HttpRequest, http_request_string_parse}
use cloudcomputing_lab2_http.Libhttp.Request.Sound.{path-Lacks, http_request_string_parse-Describes}
use cloudcomputing_lab2_http.Server.Send.{serve_file}
use cloudcomputing_lab2_http.Server.Send.Files.{update-here}
use cloudcomputing_lab2_http.Server.Send.Files.Partial.{IsStart, send_close-Stops}
use cloudcomputing_lab2_http.Server.Handler.{Setting, head_is, respond, handle_request}
use cloudcomputing_lab2_http.Server.Handler.Answers.{put, step}
use cloudcomputing_lab2_http.Server.Handler.Files.{answered, after_file, opened, opened-open}
use cloudcomputing_lab2_http.Server.Handler.Serving.{file_head, serve_opened-text, serve_file-text}
use cloudcomputing_lab2_http.Server.Handler.Names.{drained, name_of, receive_lem, handle_file-text}
use cloudcomputing_lab2_http.Server.Handler.Routing.{route-file}

serve_file-Stops :
    (fuel : ℕ) (w : World) (fd : ℕ) (input path contents : Bytes)
    → w.fds fd ≡ socket input
    → slot w < table_size
    → TakesText w.grants
    → lookup path w.files ≡ some contents
    → length contents < fuel
    → length contents < 2 ^ 31
    → (text : Bytes) × (gs : List Grant) × IsStart text contents
      × (serve_file fuel fd path w
          ≡ ok (tt, after_file w fd (file_head path (length contents) ++ text) gs))
serve_file-Stops fuel w fd input path contents o room t e h small =
    let m = header_line (codes "Content-Type") (http_get_mime_type path) in
    let c = header_line (codes "Content-Length") (decimal (length contents)) in
    let w1 = opened (put (put w fd (status_line 200)) fd m) contents in
    let w2 = put (put w1 fd c) fd (codes "\r\n") in
    let still = opened-open w fd input (file contents 0) o room in
    let here = update-here w.fds (slot w) (file contents 0) in
    let (text, gs, start, sent) =
      send_close-Stops fuel w2 fd (slot w) input contents still here h in
    (
      text,
      gs,
      start,
      serve_file-text fuel w fd input path contents text gs o room t e
          (serve_opened-text fuel w1 fd (slot w) input contents text gs still here t small sent),
    )

-- A GET for an existing file, as for the whole response, but with any schedule of writes of which the
-- first does not fail, so that the client takes the head: a client that takes a part of the file, or
-- goes away, does not stop the server. `handle_request` returns; the head and a
-- start of the file went out, once and in order; the file and the connection are closed, nothing
-- else changes, and no call is made on a closed descriptor.
pub handle_request-hangup :
    (S : Setting) (w : World) (fd : ℕ) (input contents : Bytes) (r : HttpRequest)
    → S.alloc 8193 ≡ true
    → w.fds fd ≡ socket input
    → slot w < table_size
    → TakesText w.grants
    → length input ≤ 8192
    → Lacks 0 input
    → http_request_string_parse S.alloc input ≡ ok (some r)
    → head_is r.path b'/' ≡ true
    → strstr r.path (codes "..") ≡ none
    → strcmp_eq r.method (codes "GET") ≡ true
    → strncmp_eq r.path (codes "/api") 4 ≡ false
    → lookup (name_of r.path) w.files ≡ some contents
    → length contents < S.fuel
    → length contents < 2 ^ 31
    → (text : Bytes) × (gs : List Grant) × IsStart text contents
      × (handle_request S fd w
          ≡ ok (
            tt,
            answered (drained w fd) fd (file_head (name_of r.path) (length contents) ++ text) gs,
          ))
unfolding handle_request
handle_request-hangup S w fd input contents r buffer o room t fits no_nul parses slash dots get api
      e long small =
    let d = drained w fd in
    let here = update-here w.fds fd (socket []) in
    let clear =
      path-Lacks input r (http_request_string_parse-Describes S.alloc input r parses) no_nul in
    let (text, gs, start, sent) =
      serve_file-Stops S.fuel d fd [] (name_of r.path) contents here
        (omega (arith, slot-socket w fd input [] o, room)) t e long small in
    (
      text,
      gs,
      start,
      step (http_request_parse S.alloc fd) (respond S fd) w d (some r)
            (receive_lem S.alloc w fd input buffer o fits no_nul ∙ rw parses)
          ∙ rw slash (
              ap (λ act. act d) (route-file S fd r dots get api)
              ∙ handle_file-text S.fuel d fd [] r.path contents
                  (file_head (name_of r.path) (length contents) ++ text) gs here clear e sent),
    )
