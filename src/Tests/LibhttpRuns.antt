-- ===== src/Tests/LibhttpRuns.antt =====
-- libhttp.c at concrete requests, texts and paths.
use cloudcomputing_lab2_http.Prelude.{
  ℕ, ◌-◌, ◌≡◌, refl, Bool, true, none, some, [], ◌∷◌, ◌++◌, arith,
}
use cloudcomputing_lab2_http.Result.{ok, fault, overflow}
use cloudcomputing_lab2_http.Cstr.{
  Bytes, codes, strstr, span, decimal, strcmp_eq, strrchr, starts_with,
}
use cloudcomputing_lab2_http.Libhttp.Request.{
  HttpRequest, http_request_string_parse, content_length_from, size_t_mod, content_length_key,
}
use cloudcomputing_lab2_http.Libhttp.Request.Sound.{Describes, http_request_string_parse-Describes}
use cloudcomputing_lab2_http.Libhttp.Request.RoundTrip.{
  IsWritten, request_line, with_content, http_request_string_parse-with_content,
  http_request_string_parse-overflow,
}
use cloudcomputing_lab2_http.Libhttp.Mime.{http_get_mime_type}
use cloudcomputing_lab2_http.Libhttp.Url.{normalize_url, Collapses, normalize_url_lem}

abbrev always : ℕ → Bool
always n = true

abbrev post : Bytes
post = codes "POST /api/upload HTTP/1.1\r\nHost: x\r\nContent-Length: 4\r\n\r\nid=1&"

abbrev posted : HttpRequest
posted = record {
  method = codes "POST";
  path = codes "/api/upload";
  content = some (codes "id=1");
  content_length = some 4;
}

post_run : http_request_string_parse always post ≡ ok (some posted)
unfolding http_request_string_parse content_length_from strstr span
post_run = refl

-- No path, and a length with no blank line behind it.
refused_runs :
    (http_request_string_parse always (codes "GET  HTTP/1.1\r\n") ≡ ok none)
    × (http_request_string_parse always (codes "get / HTTP/1.1\r\n") ≡ ok none)
    × (http_request_string_parse always (codes "GET / HTTP/1.1\r\nContent-Length: 4\r\n") ≡ ok none)
unfolding http_request_string_parse content_length_from strstr span
refused_runs = (refl, refl, refl)

mime_runs :
    (http_get_mime_type (codes ".//index.html") ≡ codes "text/html")
    × (http_get_mime_type (codes ".//data.json") ≡ codes "application/json")
    × (http_get_mime_type (codes "./README") ≡ codes "text/plain")
unfolding http_get_mime_type strrchr strcmp_eq
mime_runs = (refl, refl, refl)

http_request_string_parse-Describes_example : Describes post posted
http_request_string_parse-Describes_example =
    http_request_string_parse-Describes always post posted post_run

abbrev host : Bytes
host = codes "Host: x\r\n"

abbrev Written : ℕ → Bytes → Type 0
Written n body = IsWritten (codes "POST") (codes "/api/upload") (codes "HTTP/1.1\r") host n [] body

four-Written : Written 4 (codes "id=1&")
unfolding starts_with decimal
four-Written = record {
  method_ok = ground arith;
  path_ok = ground arith;
  version_ok = omega arith;
  stops = refl;
  no_key = ground arith;
  no_blank = ground arith;
}

largest-Written : Written (size_t_mod - 1) (codes "id=1")
unfolding starts_with decimal
largest-Written = record {
  method_ok = ground arith;
  path_ok = ground arith;
  version_ok = omega arith;
  stops = refl;
  no_key = ground arith;
  no_blank = ground arith;
}

http_request_string_parse-with_content_example :
    http_request_string_parse always (
      request_line
        (codes "POST")
        (codes "/api/upload")
        (codes "HTTP/1.1\r")
        (with_content host 4 [] (codes "id=1&")))
    ≡ ok (some posted)
http_request_string_parse-with_content_example =
    http_request_string_parse-with_content always (λ _. refl) (codes "POST") (codes "/api/upload")
      (codes "HTTP/1.1\r") host 4 [] (codes "id=1&") four-Written (omega arith)

http_request_string_parse-overflow_example :
    http_request_string_parse always (
      request_line
        (codes "POST")
        (codes "/api/upload")
        (codes "HTTP/1.1\r")
        (with_content host (size_t_mod - 1) [] (codes "id=1")))
    ≡ fault overflow
http_request_string_parse-overflow_example =
    http_request_string_parse-overflow always (λ _. refl) (codes "POST") (codes "/api/upload")
      (codes "HTTP/1.1\r") host [] (codes "id=1") largest-Written

host_no_length : strstr (codes "Host: x\r\n\r\n") content_length_key ≡ none
unfolding strstr
host_no_length = refl

normalize_url_lem_example :
    (url junk again : Bytes) × (normalize_url (codes ".//test//x" ++ 0 ∷ []) ≡ ok (url ++ 0 ∷ junk))
    × Collapses (codes ".//test//x") url
    × (normalize_url (url ++ 0 ∷ []) ≡ ok (url ++ 0 ∷ again))
normalize_url_lem_example = normalize_url_lem (codes ".//test//x") (omega arith)
