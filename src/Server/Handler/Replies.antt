-- ===== src/Server/Handler/Replies.antt =====
-- The responses of httpserver.c that hold the text of an object.
use cloudcomputing_lab2_http.Prelude.{
  ℕ, ◌^◌, ◌<◌, ◌≡◌, ap, ◌∙◌, some, List, [], ◌∷◌, ◌++◌, arith, length, to_int,
}
use cloudcomputing_lab2_http.Result.{ok}
use cloudcomputing_lab2_http.Cstr.{Bytes, codes, decimal}
use cloudcomputing_lab2_http.Os.{closed, socket, World, Grant, lift, close, update}
use cloudcomputing_lab2_http.Libhttp.Response.{
  status_line, header_line, http_start_response, http_send_header, http_end_headers,
}
use cloudcomputing_lab2_http.Server.Text.{
  without_blanks, remove_spaces_and_newlines_lem, string_at_start,
}
use cloudcomputing_lab2_http.Server.Api.{json_type, compact_text, send_json}
use cloudcomputing_lab2_http.Server.Api.Cjson.{Json}
use cloudcomputing_lab2_http.Server.Send.{done, http_send_string, sprintf_size}
use cloudcomputing_lab2_http.Server.Send.Delivery.{
  Accepting, sending, sending_twice, Accepting-TakesText,
}
use cloudcomputing_lab2_http.Server.Send.Files.{sent_whole}
use cloudcomputing_lab2_http.Cstr.Search.{Lacks}
use cloudcomputing_lab2_http.Server.Handler.Answers.{put, step, dprintf_then, close-socket}
use cloudcomputing_lab2_http.Server.Handler.Sizes.{sprintf_size-small}

http_send_string_lem :
    (w : World) (fd : ℕ) (text input : Bytes)
    → w.fds fd ≡ socket input
    → Accepting w.grants
    → (gs : List Grant) × (http_send_string fd text w ≡ ok (done, sending w fd text gs))
      × Accepting gs
unfolding http_send_string
http_send_string_lem = sent_whole

without_blanks-Lacks : (s : Bytes) → Lacks 0 s → Lacks 0 (without_blanks s)
unfolding without_blanks
without_blanks-Lacks [] h = tt
without_blanks-Lacks (c ∷ s) h = ground (arith, without_blanks-Lacks s h.1)

-- A response with a text.
abbrev pub json_response : ℕ → Bytes → Bytes
json_response status_code text =
    status_line status_code
    ++ (header_line (codes "Content-Type") json_type
        ++ (header_line (codes "Content-Length") (decimal (length text)) ++ (codes "\r\n" ++ text)))

-- The world behind it, with the connection closed.
abbrev pub replied : World → ℕ → Bytes → List Grant → World
replied w fd bytes gs = record (sending w fd bytes gs) { fds = update w.fds fd closed }

module _ (J : Json) where
  -- The text of an object as it goes out.
  abbrev pub text_of : J.Node → Bytes
  text_of node = without_blanks (J.print node)

  pub compact_text_lem :
      (node : J.Node) → Lacks 0 (J.print node) → compact_text J node ≡ ok (text_of node)
  unfolding compact_text
  compact_text_lem node h =
      let (junk, e) = remove_spaces_and_newlines_lem (J.print node) [] h in
      rw (e, compact_text)
        (string_at_start (text_of node) junk (without_blanks-Lacks (J.print node) h))

  pub send_json_lem :
      (w : World) (fd status_code : ℕ) (input : Bytes) (node : J.Node)
      → w.fds fd ≡ socket input
      → Accepting w.grants
      → Lacks 0 (J.print node)
      → length (text_of node) < 2 ^ 31
      → (gs : List Grant) × (send_json J fd status_code node w
          ≡ ok (tt, replied w fd (json_response status_code (text_of node)) gs))
        × Accepting gs
  unfolding send_json http_start_response http_send_header http_end_headers
  send_json_lem w fd status_code input node o a h small =
      let t = Accepting-TakesText w.grants a in
      let text = text_of node in
      let l = status_line status_code in
      let m = header_line (codes "Content-Type") json_type in
      let c = header_line (codes "Content-Length") (decimal (length text)) in
      let n = codes "\r\n" in
      let w1 = put w fd l in
      let w2 = put w1 fd m in
      let w3 = put w2 fd c in
      let (gs, sent, a') = http_send_string_lem (put w3 fd n) fd text input o a in
      (
        gs,
        step (lift (compact_text J node)) _ w w text (rw (compact_text_lem node h))
            ∙ dprintf_then _ w fd l input o t
            ∙ dprintf_then _ w1 fd m input o t
            ∙ step (lift (sprintf_size (to_int (length text)))) _ w2 w2 (decimal (length text))
                (rw (sprintf_size-small (length text) small))
            ∙ dprintf_then _ w2 fd c input o t
            ∙ dprintf_then _ w3 fd n input o t
            ∙ step (http_send_string fd text) (λ _. close (some fd)) (put w3 fd n)
                (sending (put w3 fd n) fd text gs) done sent
            ∙ close-socket (sending (put w3 fd n) fd text gs) fd input o
            ∙ ap (λ v. ok (tt, record v { fds = update w.fds fd closed }))
                (sending_twice w3 fd n text w.grants gs
                  ∙ sending_twice w2 fd c (n ++ text) w.grants gs
                  ∙ sending_twice w1 fd m (c ++ (n ++ text)) w.grants gs
                  ∙ sending_twice w fd l (m ++ (c ++ (n ++ text))) w.grants gs),
        a',
      )
