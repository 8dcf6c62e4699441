-- ===== src/Server/Rules/Requests.antt =====
-- handle_request of httpserver.c, from the rules.
use cloudcomputing_lab2_http.Prelude.{
  ℕ, ◌≡◌, refl, true, ◌&&◌, Option, none, some, arith, leb, ◌==◌, if◌then◌else◌,
}
use cloudcomputing_lab2_http.Cstr.{Bytes, codes, strcmp_eq, strncmp_eq, strstr}
use cloudcomputing_lab2_http.Os.{lift, ◌>>=◌, ◌>>◌, close, open_file, stat}
use cloudcomputing_lab2_http.Os.Keeps.{Keeps-if, Keeps-Option, Keeps-bind, Keeps-then}
use cloudcomputing_lab2_http.Map.{ApiRequest, read_api_type, parse_param}
use cloudcomputing_lab2_http.Libhttp.Receive.{http_request_parse}
use cloudcomputing_lab2_http.Libhttp.Request.{HttpRequest}
use cloudcomputing_lab2_http.Server.Send.{http_send_file}
use cloudcomputing_lab2_http.Server.Api.{check, upload}
use cloudcomputing_lab2_http.Server.Handler.{
  html_type, refuse, send_page, not_found, file_name, handle_file, has_id_and_name, content_of,
  Setting, head_is, api_request_of, get_api, post_api, route, respond, handle_request,
}
use cloudcomputing_lab2_http.Server.Rules.{Rules, Calm, Mild, Saves, mild, lifted}
use cloudcomputing_lab2_http.Server.Rules.Finishes.{
  file_name-Finishes, api_request_of-Finishes, api_type-Finishes, has_id_and_name-Finishes,
  content_of-Finishes, parse_param-Finishes,
}
use cloudcomputing_lab2_http.Server.Rules.Sending.{head-Calm, serve_file-Calm, request_parse-Calm}
use cloudcomputing_lab2_http.Server.Rules.Handlers.{
  hang_up-Calm, list-Calm, check-Calm, upload-Mild,
}

module _ {fd fuel : ℕ} (R : Rules fd fuel) where
  refuse-Calm : (status_code : ℕ) → Calm R (refuse fd status_code)
  unfolding refuse
  refuse-Calm status_code = head-Calm R status_code html_type (close (some fd)) (hang_up-Calm R)

  send_page-Calm : Calm R (send_page fuel fd)
  unfolding send_page
  send_page-Calm =
      Keeps-bind (open_file (codes "404.html")) _ (R.on_open_file (codes "404.html")) (λ src own.
        Keeps-bind (http_send_file fuel fd src) _ (R.on_send_file src own)
          (λ status _. Keeps-then _ _ (R.on_close src own) (hang_up-Calm R)))

  not_found-Calm : Calm R (not_found fuel fd)
  unfolding not_found
  not_found-Calm = head-Calm R 404 html_type (send_page fuel fd) send_page-Calm

  handle_file-Calm : (path : Bytes) → Calm R (handle_file fuel fd path)
  unfolding handle_file
  handle_file-Calm path =
      Keeps-bind _ _ (lifted R (file_name path) (file_name-Finishes path)) (λ name _.
        Keeps-bind (stat name) _ (R.on_stat name) (λ exist _.
          Keeps-if exist _ (not_found fuel fd)
            (λ _. Keeps-then _ _ (serve_file-Calm R name) (hang_up-Calm R)) not_found-Calm))

module _ (S : Setting) {fd : ℕ} (R : Rules fd S.fuel) where
  missing : Calm R (not_found S.fuel fd)
  missing = not_found-Calm R

  get_api-Calm : (path : Bytes) → Calm R (get_api S fd path)
  unfolding get_api
  get_api-Calm path =
      Keeps-bind _ _ (lifted R (api_request_of S path) (api_request_of-Finishes S path))
        (λ request done.
          Keeps-bind _ _
            (lifted R (read_api_type request.api_type) (api_type-Finishes S path request done))
            (λ api_type _.
              Keeps-if (strcmp_eq api_type (codes "list")) _ _
                (λ _. Keeps-then _ _ (list-Calm R) missing)
                (Keeps-if (strcmp_eq api_type (codes "check")) _ (not_found S.fuel fd)
                  (λ _.
                    Keeps-if (request.count == 2) _ (not_found S.fuel fd) (λ _. named request)
                      missing)
                  missing)))
    where
      named :
          (request : ApiRequest)
          → Calm R (
              lift (has_id_and_name request) >>= λ named.
              if named
              then (check S.json S.fuel S.stack fd request >> close (some fd))
              else not_found S.fuel fd)
      named request =
          Keeps-bind _ _ (lifted R (has_id_and_name request) (has_id_and_name-Finishes request))
            (λ named _.
              Keeps-if named _ (not_found S.fuel fd)
                (λ _. Keeps-then _ _ (check-Calm R S.json S.stack request) (hang_up-Calm R))
                missing)

  post_api-Mild : (request : HttpRequest) → Saves R → Mild R (post_api S fd request)
  unfolding post_api
  post_api-Mild request saves =
      Keeps-bind _ _
        (lifted R (api_request_of S request.path) (api_request_of-Finishes S request.path))
        (λ first done.
          Keeps-bind _ _
            (lifted R (read_api_type first.api_type) (api_type-Finishes S request.path first done))
            (λ api_type _.
              Keeps-if (strcmp_eq api_type (codes "upload")) _ (not_found S.fuel fd)
                (λ _.
                  Keeps-bind _ _ (lifted R (content_of request) (content_of-Finishes request))
                    (λ content _.
                      Keeps-bind _ _
                        (lifted R (parse_param content first) (parse_param-Finishes content first))
                        (λ second _.
                          Keeps-if (leb 2 second.count) _ (not_found S.fuel fd) (λ _. named second)
                            (mild R _ missing))))
                (mild R _ missing)))
    where
      named :
          (request : ApiRequest)
          → Mild R (
              lift (has_id_and_name request) >>= λ named.
              if named then upload S.json S.writable S.stack fd request else not_found S.fuel fd)
      named request =
          Keeps-bind _ _ (lifted R (has_id_and_name request) (has_id_and_name-Finishes request))
            (λ named _.
              Keeps-if named (upload S.json S.writable S.stack fd request) (not_found S.fuel fd)
                (λ _. upload-Mild R S.json S.writable S.stack request saves) (mild R _ missing))

  -- A POST may save the data file.
  route-Mild :
      (r : HttpRequest)
      → (strcmp_eq r.method (codes "POST") ≡ true → Saves R)
      → Mild R (route S fd r)
  unfolding route
  route-Mild r saves =
      Keeps-Option (strstr r.path (codes "..")) _ (λ i. refuse fd 403)
        (Keeps-if (strcmp_eq r.method (codes "GET")) _ _
          (λ _. mild R _ (
            Keeps-if (strncmp_eq r.path (codes "/api") 4) (get_api S fd r.path)
              (handle_file S.fuel fd r.path) (λ _. get_api-Calm r.path)
              (handle_file-Calm R r.path)))
          (Keeps-if (strcmp_eq r.method (codes "POST") && strncmp_eq r.path (codes "/api") 4)
            (post_api S fd r) (not_found S.fuel fd)
            (λ posted. post_api-Mild r (saves (ground arith))) (mild R _ missing)))
        (λ i _. mild R _ (refuse-Calm R 403))

  pub respond-Mild :
      (parsed : Option HttpRequest)
      → ((r : HttpRequest) → parsed ≡ some r → strcmp_eq r.method (codes "POST") ≡ true → Saves R)
      → Mild R (respond S fd parsed)
  respond-Mild none saves = mild R _ (refuse-Calm R 400)
  respond-Mild (some r) saves =
      Keeps-if (head_is r.path b'/') (route S fd r) (refuse fd 400)
        (λ _. route-Mild r (saves r refl)) (mild R _ (refuse-Calm R 400))

  pub handle_request-Mild : Saves R → Mild R (handle_request S fd)
  unfolding handle_request
  handle_request-Mild saves =
      Keeps-bind (http_request_parse S.alloc fd) _ (request_parse-Calm R S.alloc)
        (λ parsed _. respond-Mild parsed (λ r _ _. saves))
