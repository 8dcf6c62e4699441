-- ===== src/Tests/WrittenRuns.antt =====
-- Checks, lists and uploads of httpserver.c from the written bytes, at concrete inputs.
use cloudcomputing_lab2_http.Os.Slots.{slot-first}
use cloudcomputing_lab2_http.Prelude.{◌≡◌, refl, List, [], ◌∷◌, ◌++◌, arith, ℕ, ◌≤◌}
use cloudcomputing_lab2_http.Result.{ok}
use cloudcomputing_lab2_http.Cstr.{Bytes, codes, starts_with, decimal, strstr, strcmp_eq, string_at}
use cloudcomputing_lab2_http.Os.{World, Grant, closed, socket, lookup, insert, update, misuse}
use cloudcomputing_lab2_http.Map.Stored.Query.{render}
use cloudcomputing_lab2_http.Libhttp.Request.RoundTrip.{request_line, with_content, IsWritten}
use cloudcomputing_lab2_http.Server.Api.{data_path, json_type}
use cloudcomputing_lab2_http.Server.Text.{without_blanks}
use cloudcomputing_lab2_http.Server.Send.Delivery.{Accepting}
use cloudcomputing_lab2_http.Server.Handler.{handle_request}
use cloudcomputing_lab2_http.Server.Handler.Answers.{head, hung_up}
use cloudcomputing_lab2_http.Server.Handler.Names.{drained}
use cloudcomputing_lab2_http.Server.Handler.Routing.{Arrives}
use cloudcomputing_lab2_http.Server.Handler.Checks.{found_head}
use cloudcomputing_lab2_http.Server.Handler.Replies.{json_response, replied, text_of}
use cloudcomputing_lab2_http.Server.Handler.Queries.{
  IsQuery, query_of, handle_request-found, handle_request-unknown,
}
use cloudcomputing_lab2_http.Server.Handler.Posts.{form, upload_path, handle_request-upload}
use cloudcomputing_lab2_http.Server.Handler.Files.{answered}
use cloudcomputing_lab2_http.Server.Handler.Lost.{lost}
use cloudcomputing_lab2_http.Server.Handler.Lists.{list_text}
use cloudcomputing_lab2_http.Server.Handler.Queries.{handle_request-listed}
use cloudcomputing_lab2_http.Tests.HandlerRuns.{texts, setting}

-- The data file is "7", an array of one item whose id and name are "7".
abbrev pub seven : Bytes
seven = codes "7"

abbrev pub version : Bytes
version = codes "HTTP/1.1\r"

abbrev pub written : Bytes
written = request_line (codes "GET") (query_of seven seven) version (codes "\r\n")

abbrev pub wrote : Bytes → World
wrote input = record {
  fds = update (λ _. closed) 4 (socket input);
  sent = λ _. [];
  files = (data_path, seven) ∷ [];
  directories = [];
  grants = [];
  misuses = 0;
}

pub seven-IsQuery : IsQuery seven seven version (codes "\r\n")
unfolding strstr
seven-IsQuery = record {
  path_ok = ground arith;
  version_ok = omega arith;
  no_content = refl;
  no_dots = refl;
  plain = (
    record { no_eq = omega arith; no_amp = omega arith },
    (record { no_eq = omega arith; no_amp = omega arith }, tt),
  );
  fit = refl;
}

pub written-Arrives : Arrives setting (wrote written) 4 written
written-Arrives = record {
  buffer = refl;
  ready = record { is_open = refl; room = slot-first _ refl; accepting = tt };
  fits = omega arith;
  no_nul = omega arith;
}

handle_request-found_example :
    handle_request setting 4 (wrote written)
    ≡ ok (tt, misuse (hung_up (drained (wrote written) 4) 4 found_head))
unfolding lookup strcmp_eq string_at
handle_request-found_example =
    handle_request-found setting (λ _. refl) 4 seven seven version (codes "\r\n") seven-IsQuery
      (wrote written) seven seven seven seven 0 written-Arrives refl (omega arith) refl refl
      (((seven, refl), (seven, refl)), tt) refl

-- The data file holds another item.
abbrev unknown : World
unknown = record (wrote written) {
  files = (data_path, codes "8") ∷ (codes "404.html", codes "no") ∷ [];
}

unknown-Arrives : Arrives setting unknown 4 written
unknown-Arrives = record {
  buffer = refl;
  ready = record { is_open = refl; room = slot-first _ refl; accepting = tt };
  fits = omega arith;
  no_nul = omega arith;
}

handle_request-unknown_example :
    (gs : List Grant) × (handle_request setting 4 unknown
      ≡ ok (tt, misuse (answered (drained unknown 4) 4 (head 404 json_type ++ codes "no") gs)))
    × Accepting gs
unfolding lookup strcmp_eq string_at
handle_request-unknown_example =
    handle_request-unknown setting (λ _. refl) 4 seven seven version (codes "\r\n") seven-IsQuery
      unknown (codes "8") (codes "8") (codes "no") (codes "8") unknown-Arrives refl (omega arith)
      refl refl (((codes "8", refl), (codes "8", refl)), tt) refl refl (omega arith)

abbrev pub body : Bytes
body = render (form seven seven (codes "a b"))

abbrev pub host : Bytes
host = codes "Host: x\r\n"

abbrev pub upload_input : Bytes
upload_input = request_line (codes "POST") upload_path version (with_content host 21 [] body)

pub body-Written : IsWritten (codes "POST") upload_path version host 21 [] body
unfolding starts_with decimal
body-Written = record {
  method_ok = ground arith;
  path_ok = ground arith;
  version_ok = omega arith;
  stops = refl;
  no_key = ground arith;
  no_blank = ground arith;
}

upload-Arrives : Arrives setting (wrote upload_input) 4 upload_input
unfolding decimal
upload-Arrives = record {
  buffer = refl;
  ready = record { is_open = refl; room = slot-first _ refl; accepting = tt };
  fits = omega arith;
  no_nul = omega arith;
}

handle_request-upload_example :
    (gs : List Grant) × (handle_request setting 4 (wrote upload_input)
      ≡ ok (
        tt,
        record (replied
            (drained (wrote upload_input) 4)
            4
            (json_response 200 (text_of texts (codes "a bsuccesstrue")))
            gs) {
              files = insert data_path (text_of texts (codes "a b")) (wrote upload_input).files;
            },
      ))
    × Accepting gs
unfolding lookup strcmp_eq string_at without_blanks
handle_request-upload_example =
    handle_request-upload setting 4 (wrote upload_input) version host [] seven seven (codes "a b")
      seven seven seven 0 seven (λ _. refl) body-Written (omega arith) upload-Arrives
      (
        record { no_eq = omega arith; no_amp = omega arith },
        (
          record { no_eq = omega arith; no_amp = omega arith },
          (record { no_eq = omega arith; no_amp = omega arith }, tt),
        ),
      )
      refl refl (omega arith) refl refl (((seven, refl), (seven, refl)), tt) refl (omega arith)
      (omega arith) (omega arith)

abbrev listing_input : Bytes
listing_input = request_line (codes "GET") (codes "/api/list") version (codes "\r\n")

abbrev listing : World
listing = record (wrote listing_input) {
  files = (data_path, codes "[7]") ∷ (codes "404.html", codes "no") ∷ [];
}

listing-Arrives : Arrives setting listing 4 listing_input
listing-Arrives = record {
  buffer = refl;
  ready = record { is_open = refl; room = slot-first _ refl; accepting = tt };
  fits = omega arith;
  no_nul = omega arith;
}

handle_request-listed_example :
    (gs : List Grant) × (n : ℕ) × (4 ≤ n)
    × (n ≤ 5)
    × (handle_request setting 4 listing
        ≡ ok (tt, lost (answered (drained listing 4) 4 (list_text (codes "[7]")) gs) n))
    × Accepting gs
unfolding lookup strcmp_eq strstr
handle_request-listed_example =
    handle_request-listed setting listing 4 version (codes "\r\n") (codes "[7]") b'n' (codes "o")
      (λ _. refl) (omega arith) refl listing-Arrives refl (omega arith) (omega arith) refl
