-- ===== src/Server/Rules/Sending.antt =====
-- Every function that sends, from the rules.
use cloudcomputing_lab2_http.Prelude.{ℕ, ◌+◌, Bool, some}
use cloudcomputing_lab2_http.Result.{exit, overflow}
use cloudcomputing_lab2_http.Cstr.{Bytes, codes, cstr}
use cloudcomputing_lab2_http.Os.{
  Fd, Io, fail, lift, ◌>>◌, read, open_file, lseek, seek_cur, seek_end, seek_set,
}
use cloudcomputing_lab2_http.Os.Keeps.{
  Keeps-pure, Keeps-fail, Keeps-if, Keeps-Option, Keeps-bind, Keeps-then, Keeps-Any,
}
use cloudcomputing_lab2_http.Libhttp.Response.{
  http_start_response, http_send_header, http_end_headers, status_line, header_line,
}
use cloudcomputing_lab2_http.Libhttp.Receive.{http_request_parse, libhttp_request_max_size, enobufs}
use cloudcomputing_lab2_http.Libhttp.Request.{http_request_string_parse}
use cloudcomputing_lab2_http.Libhttp.Mime.{http_get_mime_type}
use cloudcomputing_lab2_http.Server.Send.{
  http_send_file, http_send_string, offset_int, get_file_size, sprintf_size, serve_opened,
  serve_file,
}
use cloudcomputing_lab2_http.Server.Rules.{Rules, AreOwn, Calm, lifted}
use cloudcomputing_lab2_http.Server.Rules.Finishes.{
  sprintf_size-Finishes, http_request_string_parse-Finishes, overflow_ne, exit_ne,
}

module _ {fd fuel : ℕ} (R : Rules fd fuel) where
  pub start_response-Calm : (status_code : ℕ) → Calm R (http_start_response fd status_code)
  unfolding http_start_response
  start_response-Calm status_code = R.on_dprintf (status_line status_code)

  pub send_header-Calm : (key value : Bytes) → Calm R (http_send_header fd key value)
  unfolding http_send_header
  send_header-Calm key value = R.on_dprintf (header_line key value)

  pub end_headers-Calm : Calm R (http_end_headers fd)
  unfolding http_end_headers
  end_headers-Calm = R.on_dprintf (codes "\r\n")

  pub send_string-Calm : (text : Bytes) → Calm R (http_send_string fd text)
  unfolding http_send_string
  send_string-Calm text = R.on_send_data text

  pub get_file_size-Calm : (src : Fd) → AreOwn R.IsOwn src → Calm R (get_file_size src)
  unfolding get_file_size
  get_file_size-Calm src own =
      Keeps-bind (lseek src seek_cur) _ (R.on_lseek src seek_cur own) (λ saved _.
        Keeps-bind (lseek src seek_end) _ (R.on_lseek src seek_end own) (λ size _.
          Keeps-bind (lseek src (seek_set (offset_int saved))) _
            (R.on_lseek src (seek_set (offset_int saved)) own)
            (λ restored _. Keeps-pure (offset_int size) tt)))

  -- A head of a response, before whatever follows.
  pub head-Calm :
      {A : Type 0} (status_code : ℕ) (content_type : Bytes) (rest : Io A)
      → Calm R rest
      → Calm R (
          http_start_response fd status_code
          >> (http_send_header fd (codes "Content-Type") content_type
              >> (http_end_headers fd >> rest)))
  head-Calm status_code content_type rest calm = Keeps-then _ _ (start_response-Calm status_code) (
      Keeps-then _ _ (send_header-Calm (codes "Content-Type") content_type)
        (Keeps-then _ rest end_headers-Calm calm))

  serve_opened-Calm : (src : Fd) → AreOwn R.IsOwn src → Calm R (serve_opened fuel fd src)
  unfolding serve_opened
  serve_opened-Calm src own =
      Keeps-bind (get_file_size src) _ (get_file_size-Calm src own) (λ size _.
        Keeps-bind (lift (sprintf_size size)) _
          (lifted R (sprintf_size size) (sprintf_size-Finishes size))
          (λ file_size _. Keeps-then _ _ (send_header-Calm (codes "Content-Length") file_size) (
            Keeps-then _ _ end_headers-Calm (
              Keeps-bind (http_send_file fuel fd src) _ (R.on_send_file src own)
                (λ status _. R.on_close src own)))))

  pub serve_file-Calm : (path : Bytes) → Calm R (serve_file fuel fd path)
  unfolding serve_file
  serve_file-Calm path = Keeps-then _ _ (start_response-Calm 200) (
      Keeps-then _ _ (send_header-Calm (codes "Content-Type") (http_get_mime_type path)) (
        Keeps-bind (open_file path) _ (R.on_open_file path) (λ src own. serve_opened-Calm src own)))

  pub request_parse-Calm : (alloc : ℕ → Bool) → Calm R (http_request_parse alloc fd)
  unfolding http_request_parse
  request_parse-Calm alloc =
      Keeps-if (alloc (libhttp_request_max_size + 1)) _ (fail (exit enobufs))
        (λ _.
          Keeps-bind (read (some fd) libhttp_request_max_size) _
            (R.on_read (some fd) libhttp_request_max_size R.own)
            (λ bytes_read _.
              Keeps-Option bytes_read (fail overflow) _
                (Keeps-fail overflow (R.faulty overflow overflow_ne))
                (λ bytes _. Keeps-Any _ (
                  lifted R (http_request_string_parse alloc (cstr bytes))
                    (http_request_string_parse-Finishes alloc (cstr bytes))))))
        (Keeps-fail (exit enobufs) (R.faulty (exit enobufs) (exit_ne enobufs)))
