-- ===== src/Tests/AskRuns.antt =====
-- The uploads of httpserver.c that change no file, and requests behind a first, at concrete inputs.
use cloudcomputing_lab2_http.Os.Slots.{slot-first}
use cloudcomputing_lab2_http.Prelude.{none, ◌≡◌, refl, List, [], ◌∷◌, ◌++◌, arith}
use cloudcomputing_lab2_http.Result.{ok}
use cloudcomputing_lab2_http.Cstr.{Bytes, codes, decimal, strstr, strcmp_eq, string_at}
use cloudcomputing_lab2_http.Os.{World, Grant, lookup}
use cloudcomputing_lab2_http.Map.Stored.Query.{render}
use cloudcomputing_lab2_http.Libhttp.Request.RoundTrip.{request_line, with_content}
use cloudcomputing_lab2_http.Server.Api.{data_path}
use cloudcomputing_lab2_http.Server.Text.{without_blanks}
use cloudcomputing_lab2_http.Server.Send.Delivery.{Accepting}
use cloudcomputing_lab2_http.Server.Handler.{handle_request}
use cloudcomputing_lab2_http.Server.Handler.Names.{drained}
use cloudcomputing_lab2_http.Server.Handler.Routing.{Arrives}
use cloudcomputing_lab2_http.Server.Handler.Replies.{json_response, replied, text_of}
use cloudcomputing_lab2_http.Server.Handler.Posts.{upload_path}
use cloudcomputing_lab2_http.Server.Handler.Queries.{both_of}
use cloudcomputing_lab2_http.Server.Handler.Asks.Written.{handle_request-upload_missing}
use cloudcomputing_lab2_http.Libhttp.Request.{content_length_key}
use cloudcomputing_lab2_http.Server.Handler.Pipelines.{received, handle_request-first_only}
use cloudcomputing_lab2_http.Tests.HandlerRuns.{texts, setting}
use cloudcomputing_lab2_http.Tests.WrittenRuns.{
  seven, version, wrote, host, upload_input, body-Written,
}

abbrev body2 : Bytes
body2 = render (both_of seven seven)

abbrev asking_input : Bytes
asking_input = request_line (codes "POST") upload_path version (with_content host 11 [] body2)

-- The data file holds another item.
abbrev elsewhere : World
elsewhere = record (wrote upload_input) { files = (data_path, codes "8") ∷ [] }

elsewhere-Arrives : Arrives setting elsewhere 4 upload_input
unfolding decimal
elsewhere-Arrives = record {
  buffer = refl;
  ready = record { is_open = refl; room = slot-first _ refl; accepting = tt };
  fits = omega arith;
  no_nul = omega arith;
}

handle_request-upload_missing_example :
    (gs : List Grant) × (handle_request setting 4 elsewhere
      ≡ ok (
        tt,
        replied
            (drained elsewhere 4)
            4
            (json_response 404 (text_of texts (codes "id7name7extraa bsuccessfalse")))
            gs,
      ))
    × Accepting gs
unfolding lookup strcmp_eq string_at without_blanks
handle_request-upload_missing_example =
    handle_request-upload_missing setting 4 elsewhere version host [] seven seven (codes "a b")
      (codes "8") (codes "8") (codes "8") (λ _. refl) body-Written (omega arith) elsewhere-Arrives
      (
        record { no_eq = omega arith; no_amp = omega arith },
        (
          record { no_eq = omega arith; no_amp = omega arith },
          (record { no_eq = omega arith; no_amp = omega arith }, tt),
        ),
      )
      refl refl (omega arith) refl refl (((codes "8", refl), (codes "8", refl)), tt) refl
      (omega arith) (omega arith)

-- The three requests of pipeline-test.c.
abbrev example_headers : Bytes
example_headers = codes "Host: example.com\r\n\r\n"

abbrev later_requests : Bytes
later_requests =
    request_line (codes "GET") (codes "/") version example_headers
    ++ request_line (codes "GET") (codes "/test/test.html") version example_headers

abbrev three_requests : Bytes
three_requests =
    request_line (codes "GET") (codes "/test/test.html") version (example_headers ++ later_requests)

three-Arrives : Arrives setting (received (wrote []) 4 three_requests) 4 three_requests
three-Arrives = record {
  buffer = refl;
  ready = record { is_open = refl; room = slot-first _ refl; accepting = tt };
  fits = omega arith;
  no_nul = omega arith;
}

no_length : strstr (example_headers ++ later_requests) content_length_key ≡ none
unfolding strstr
no_length = refl

handle_request-first_only_example :
    handle_request setting 4 (received (wrote []) 4 three_requests)
    ≡ handle_request setting 4 (
        received
          (wrote [])
          4
          (request_line (codes "GET") (codes "/test/test.html") version example_headers))
handle_request-first_only_example =
    handle_request-first_only setting 4 (wrote []) (codes "GET") (codes "/test/test.html") version
      example_headers later_requests (λ _. refl) (ground arith) (ground arith) (omega arith)
      no_length three-Arrives
