-- ===== src/Server/Handler/Serving.antt =====
-- `serve_file` of httpserver.c, and the requests that it answers.
use cloudcomputing_lab2_http.Prelude.{
  ℕ, ◌^◌, ◌<◌, ◌≡◌, ap, ◌∙◌, some, List, ◌++◌, append_assoc, arith, length, to_int,
}
use cloudcomputing_lab2_http.Result.{ok}
use cloudcomputing_lab2_http.Cstr.{Bytes, codes, decimal}
use cloudcomputing_lab2_http.Os.{
  closed, socket, file, World, Grant, lift, ◌>>=◌, ◌>>◌, close, open_file, lookup, dprintf, update,
  slot, table_size,
}
use cloudcomputing_lab2_http.Libhttp.Mime.{http_get_mime_type}
use cloudcomputing_lab2_http.Libhttp.Response.{
  http_start_response, http_send_header, http_end_headers, status_line, header_line,
}
use cloudcomputing_lab2_http.Server.Send.{
  serve_opened, done, http_send_file, get_file_size, sprintf_size, serve_file,
}
use cloudcomputing_lab2_http.Server.Send.Delivery.{
  Accepting, sending, sending_twice, update_twice, TakesText, Accepting-TakesText,
}
use cloudcomputing_lab2_http.Server.Send.Files.{serving, http_send_file-sends, update-here}
use cloudcomputing_lab2_http.Server.Handler.Answers.{put, step, dprintf_then, close-file}
use cloudcomputing_lab2_http.Server.Handler.Files.{
  IsReady, opened, after_file, open_file-found, opened-open, reclosed,
}
use cloudcomputing_lab2_http.Server.Handler.Sizes.{get_file_size-start, sprintf_size-small}

-- The head of a file's response.
abbrev pub file_head : Bytes → ℕ → Bytes
file_head path size =
    status_line 200
    ++ (header_line (codes "Content-Type") (http_get_mime_type path)
        ++ (header_line (codes "Content-Length") (decimal size) ++ codes "\r\n"))

-- A file sent and closed.
pub send_close :
    (fuel : ℕ) (w : World) (fd src : ℕ) (input contents : Bytes)
    → w.fds fd ≡ socket input
    → w.fds src ≡ file contents 0
    → Accepting w.grants
    → length contents < fuel
    → (gs : List Grant) × ((http_send_file fuel fd (some src) >>= λ status. close (some src)) w
        ≡ ok (tt, record (sending w fd contents gs) { fds = update w.fds src closed }))
      × Accepting gs
send_close fuel w fd src input contents o s a h =
    let (gs, e, a') =
      http_send_file-sends fuel w fd src input contents 0 o s (omega arith) (omega arith) a in
    let w' = serving w fd src contents (length contents) contents gs in
    (
      gs,
      step (http_send_file fuel fd (some src)) (λ status. close (some src)) w w' done e
          ∙ close-file w' src contents (length contents)
              (update-here w.fds src (file contents (length contents)))
          ∙ ap (λ f. ok (tt, record (sending w fd contents gs) { fds = f }))
              (update_twice w.fds src (file contents (length contents)) closed),
      a',
    )

-- The size and the file, for any start of it that goes out.
pub serve_opened-text :
    (fuel : ℕ) (w : World) (fd src : ℕ) (input contents text : Bytes) (gs : List Grant)
    → w.fds fd ≡ socket input
    → w.fds src ≡ file contents 0
    → TakesText w.grants
    → length contents < 2 ^ 31
    → (http_send_file fuel fd (some src) >>= λ status. close (some src)) (
        put
          (put w fd (header_line (codes "Content-Length") (decimal (length contents))))
          fd
          (codes "\r\n"))
      ≡ ok (
        tt,
        record (sending
            (put
              (put w fd (header_line (codes "Content-Length") (decimal (length contents))))
              fd
              (codes "\r\n"))
            fd
            text
            gs) { fds = update w.fds src closed },
      )
    → serve_opened fuel fd (some src) w
      ≡ ok (
        tt,
        record (sending w fd
            (header_line (codes "Content-Length") (decimal (length contents))
              ++ (codes "\r\n" ++ text))
            gs) { fds = update w.fds src closed },
      )
unfolding serve_opened http_send_header http_end_headers
serve_opened-text fuel w fd src input contents text gs o s t small sent =
    let h' = header_line (codes "Content-Length") (decimal (length contents)) in
    let n = codes "\r\n" in
    let tail = (http_send_file fuel fd (some src) >>= λ status. close (some src)) in
    let texts = λ (file_size : Bytes).
      (dprintf fd (header_line (codes "Content-Length") file_size) >> (dprintf fd n >> tail)) in
    step (get_file_size (some src)) (λ size. (lift (sprintf_size size) >>= texts)) w w
      (to_int (length contents)) (get_file_size-start w src contents s)
    ∙ step (lift (sprintf_size (to_int (length contents)))) texts w w (decimal (length contents))
        (rw (sprintf_size-small (length contents) small))
    ∙ dprintf_then (dprintf fd n >> tail) w fd h' input o t
    ∙ dprintf_then tail (put w fd h') fd n input o t
    ∙ sent
    ∙ ap (λ v. ok (tt, record v { fds = update w.fds src closed }))
        (sending_twice (put w fd h') fd n text w.grants gs
          ∙ sending_twice w fd h' (n ++ text) w.grants gs)

serve_opened_lem :
    (fuel : ℕ) (w : World) (fd src : ℕ) (input contents : Bytes)
    → w.fds fd ≡ socket input
    → w.fds src ≡ file contents 0
    → Accepting w.grants
    → length contents < fuel
    → length contents < 2 ^ 31
    → (gs : List Grant) × (serve_opened fuel fd (some src) w
        ≡ ok (
          tt,
          record (sending w fd
              (header_line (codes "Content-Length") (decimal (length contents))
                ++ (codes "\r\n" ++ contents))
              gs) { fds = update w.fds src closed },
        ))
      × Accepting gs
serve_opened_lem fuel w fd src input contents o s a h small =
    let h' = header_line (codes "Content-Length") (decimal (length contents)) in
    let w' = put (put w fd h') fd (codes "\r\n") in
    let (gs, sent, a') = send_close fuel w' fd src input contents o s a h in
    (
      gs,
      serve_opened-text fuel w fd src input contents contents gs o s
          (Accepting-TakesText w.grants a) small sent,
      a',
    )

-- The response of a file, for any start of the file that goes out.
pub serve_file-text :
    (fuel : ℕ) (w : World) (fd : ℕ) (input path contents text : Bytes) (gs : List Grant)
    → w.fds fd ≡ socket input
    → slot w < table_size
    → TakesText w.grants
    → lookup path w.files ≡ some contents
    → serve_opened fuel fd (some (slot w)) (
        opened
          (put
            (put w fd (status_line 200))
            fd
            (header_line (codes "Content-Type") (http_get_mime_type path)))
          contents)
      ≡ ok (
        tt,
        record (sending
            (opened
              (put
                (put w fd (status_line 200))
                fd
                (header_line (codes "Content-Type") (http_get_mime_type path)))
              contents)
            fd
            (header_line (codes "Content-Length") (decimal (length contents))
              ++ (codes "\r\n" ++ text))
            gs) { fds = update (update w.fds (slot w) (file contents 0)) (slot w) closed },
      )
    → serve_file fuel fd path w
      ≡ ok (tt, after_file w fd (file_head path (length contents) ++ text) gs)
unfolding serve_file http_start_response http_send_header
serve_file-text fuel w fd input path contents text gs o room t e sent =
    let l = status_line 200 in
    let m = header_line (codes "Content-Type") (http_get_mime_type path) in
    let c = header_line (codes "Content-Length") (decimal (length contents)) in
    let body = (open_file path >>= λ src_fd. serve_opened fuel fd src_fd) in
    let w' = put (put w fd l) fd m in
    dprintf_then (dprintf fd m >> body) w fd l input o t
    ∙ dprintf_then body (put w fd l) fd m input o t
    ∙ step (open_file path) (λ src_fd. serve_opened fuel fd src_fd) w' (opened w' contents)
        (some (slot w)) (open_file-found w' path contents e room)
    ∙ sent
    ∙ ap (λ f. ok (tt, record (sending w' fd (c ++ (codes "\r\n" ++ text)) gs) { fds = f }))
        (reclosed w (file contents 0) room)
    ∙ ap (λ v. ok (tt, v))
        (sending_twice (put w fd l) fd m (c ++ (codes "\r\n" ++ text)) w.grants gs
          ∙ sending_twice w fd l (m ++ (c ++ (codes "\r\n" ++ text))) w.grants gs
          ∙ ap (λ b. sending w fd b gs) (simp append_assoc))

-- `serve_file` on a file below 2^31 bytes: the status 200, the content type of its name, its size
-- in decimal, and the whole file, once and in order. The file's descriptor is closed again.
pub serve_file_lem :
    (fuel : ℕ) (w : World) (fd : ℕ) (input path contents : Bytes)
    → IsReady w fd input
    → lookup path w.files ≡ some contents
    → length contents < fuel
    → length contents < 2 ^ 31
    → (gs : List Grant) × (serve_file fuel fd path w
        ≡ ok (tt, after_file w fd (file_head path (length contents) ++ contents) gs))
      × Accepting gs
serve_file_lem fuel w fd input path contents r e h small =
    let m = header_line (codes "Content-Type") (http_get_mime_type path) in
    let w' = put (put w fd (status_line 200)) fd m in
    let (gs, sent, a) =
      serve_opened_lem fuel (opened w' contents) fd (slot w) input contents
        (opened-open w fd input (file contents 0) r.is_open r.room)
        (update-here w.fds (slot w) (file contents 0)) r.accepting h small in
    (
      gs,
      serve_file-text fuel w fd input path contents contents gs r.is_open r.room
          (Accepting-TakesText w.grants r.accepting) e sent,
      a,
    )
