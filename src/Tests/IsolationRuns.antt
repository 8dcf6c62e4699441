-- ===== src/Tests/IsolationRuns.antt =====
-- One connection apart from the others, and two uploads at once, at concrete inputs.
use cloudcomputing_lab2_http.Os.Slots.{slot-first}
use cloudcomputing_lab2_http.Prelude.{
  ◌≢◌, ◌≡◌, refl, sym, ◌∙◌, true, false, none, some, List, [], ◌∷◌, ap, arith, replicate,
}
use cloudcomputing_lab2_http.Result.{fault, out_of_fuel}
use cloudcomputing_lab2_http.Server.Handler.{Setting}
use cloudcomputing_lab2_http.Server.Termination.{IsBelow}
use cloudcomputing_lab2_http.Server.Termination.Requests.{handle_request-ends}
use cloudcomputing_lab2_http.Result.{ok}
use cloudcomputing_lab2_http.Cstr.{Bytes, codes, decimal, span, strstr, strcmp_eq, string_at}
use cloudcomputing_lab2_http.Os.{World, Grant, closed, socket, lookup, insert, update, misuse}
use cloudcomputing_lab2_http.Map.{ApiRequest, KeyValuePair, points}
use cloudcomputing_lab2_http.Libhttp.Request.{http_request_string_parse}
use cloudcomputing_lab2_http.Server.Api.{data_path, param_at, upload, upload_three}
use cloudcomputing_lab2_http.Server.Text.{without_blanks}
use cloudcomputing_lab2_http.Server.Send.Delivery.{Accepting}
use cloudcomputing_lab2_http.Server.Handler.{handle_request}
use cloudcomputing_lab2_http.Server.Handler.Answers.{hung_up}
use cloudcomputing_lab2_http.Server.Handler.Names.{drained}
use cloudcomputing_lab2_http.Server.Handler.Files.{IsReady}
use cloudcomputing_lab2_http.Server.Handler.Routing.{Arrives}
use cloudcomputing_lab2_http.Server.Handler.Checks.{found_head}
use cloudcomputing_lab2_http.Server.Handler.Replies.{json_response, replied, text_of}
use cloudcomputing_lab2_http.Server.Handler.Queries.{query_of, handle_request-found}
use cloudcomputing_lab2_http.Server.Handler.Posts.{handle_request-upload}
use cloudcomputing_lab2_http.Server.Handler.Races.{upload-overwrites}
use cloudcomputing_lab2_http.Server.Isolation.Requests.{handle_request-saves_nothing}
use cloudcomputing_lab2_http.Tests.HandlerRuns.{texts, setting, plain}
use cloudcomputing_lab2_http.Tests.WrittenRuns.{
  seven, version, host, written, wrote, seven-IsQuery, written-Arrives, upload_input, body-Written,
}

-- Two clients, on the descriptors 4 and 5.
abbrev both : World
both = record (wrote []) {
  fds = update (update (λ _. closed) 4 (socket [])) 5 (socket upload_input);
}

-- The upload on 5 finds that the one on 4 has read the data file.
abbrev between : World
between = both

between-Arrives : Arrives setting between 5 upload_input
unfolding decimal
between-Arrives = record {
  buffer = refl;
  ready = record { is_open = refl; room = slot-first _ refl; accepting = tt };
  fits = omega arith;
  no_nul = omega arith;
}

abbrev behind : List Grant → World
behind gs =
    record (replied (drained between 5) 5
      (json_response 200 (text_of texts (codes "a bsuccesstrue"))) gs) {
        files = insert data_path (text_of texts (codes "a b")) between.files;
      }

second : (gs : List Grant) × (handle_request setting 5 between ≡ ok (tt, behind gs)) × Accepting gs
unfolding lookup strcmp_eq string_at without_blanks
second =
    handle_request-upload setting 5 between version host [] seven seven (codes "a b") seven seven
      seven 0 seven (λ _. refl) body-Written (omega arith) between-Arrives
      (
        record { no_eq = omega arith; no_amp = omega arith },
        (
          record { no_eq = omega arith; no_amp = omega arith },
          (record { no_eq = omega arith; no_amp = omega arith }, tt),
        ),
      )
      refl refl (omega arith) refl refl (((seven, refl), (seven, refl)), tt) refl (omega arith)
      (omega arith) (omega arith)

checked :
    handle_request setting 4 (wrote written)
    ≡ ok (tt, misuse (hung_up (drained (wrote written) 4) 4 found_head))
unfolding lookup strcmp_eq string_at
checked =
    handle_request-found setting (λ _. refl) 4 seven seven version (codes "\r\n") seven-IsQuery
      (wrote written) seven seven seven seven 0 written-Arrives refl (omega arith) refl refl
      (((seven, refl), (seven, refl)), tt) refl

written_parses :
    http_request_string_parse setting.alloc written
    ≡ ok (some (plain (codes "GET") (query_of seven seven)))
unfolding http_request_string_parse span strstr
written_parses = refl

is_get : strcmp_eq (codes "GET") (codes "POST") ≡ false
unfolding strcmp_eq
is_get = refl

handle_request-saves_nothing_example :
    lookup data_path (misuse (hung_up (drained (wrote written) 4) 4 found_head)).files
    ≡ lookup data_path (wrote written).files
unfolding strcmp_eq
handle_request-saves_nothing_example =
    handle_request-saves_nothing setting (wrote written)
      (misuse (hung_up (drained (wrote written) 4) 4 found_head)) 4 written
      (some (plain (codes "GET") (query_of seven seven))) written-Arrives written_parses
      (λ r is.
        (let get : plain (codes "GET") (query_of seven seven) ≡ r = cc in
          ap (λ q. strcmp_eq q.method (codes "POST")) (sym get) ∙ is_get))
      checked data_path

abbrev pair : Bytes → Bytes → KeyValuePair
pair key value = record { param = key; value = value }

abbrev request : ApiRequest
request = record {
  api_type = points (ok (codes "upload"));
  params =
      some (pair (codes "id") seven)
      ∷ some (pair (codes "name") seven)
      ∷ some (pair (codes "extra") (codes "c"))
      ∷ replicate 7 none;
  count = 3;
}

both-IsReady : IsReady both 4 []
both-IsReady = record { is_open = refl; room = slot-first _ refl; accepting = tt }

-- What the second upload stored, "ab", is gone.
upload-overwrites_example :
    (upload texts true setting.stack 4 request both
      ≡ upload_three texts true 4 request seven between)
    × ((w3 : World) × (upload_three texts true 4 request seven (behind second.0) ≡ ok (tt, w3))
        × (lookup data_path w3.files ≡ some (text_of texts (codes "c"))))
unfolding lookup strcmp_eq string_at param_at without_blanks
upload-overwrites_example =
    upload-overwrites setting both (behind second.0) 4 5 [] request seven seven seven
      (pair (codes "id") seven) (pair (codes "name") seven) (pair (codes "extra") (codes "c")) 0
      seven both-IsReady refl (omega arith) refl refl refl refl refl refl refl
      (((seven, refl), (seven, refl)), tt) refl (omega arith) (omega arith) (omega arith)
      (omega arith) second.1 second.2

-- More fuel than there are bytes.
abbrev fuelled : Setting
fuelled = record setting { fuel = 300 }

wrote-IsBelow : IsBelow 300 (wrote upload_input)
unfolding lookup strcmp_eq decimal
wrote-IsBelow = record { descriptors = λ d. ground arith; contents = λ path text e. ground arith }

handle_request-ends_example : handle_request fuelled 4 (wrote upload_input) ≢ fault out_of_fuel
handle_request-ends_example = handle_request-ends fuelled (wrote upload_input) 4 wrote-IsBelow
