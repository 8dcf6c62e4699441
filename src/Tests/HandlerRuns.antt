-- ===== src/Tests/HandlerRuns.antt =====
-- `handle_request` of httpserver.c at concrete inputs.
use cloudcomputing_lab2_http.Os.Slots.{slot-first}
use cloudcomputing_lab2_http.Prelude.{true, none, some, List, [], ◌∷◌, ◌++◌, ◌≡◌, refl, arith}
use cloudcomputing_lab2_http.Result.{ok}
use cloudcomputing_lab2_http.Cstr.{Bytes, codes, span, strstr, strcmp_eq, strncmp_eq}
use cloudcomputing_lab2_http.Os.{
  World, closed, socket, Grant, accepts, update, lookup, has_directory,
}
use cloudcomputing_lab2_http.Libhttp.Url.{squeezed}
use cloudcomputing_lab2_http.Server.Send.Delivery.{Accepting}
use cloudcomputing_lab2_http.Libhttp.Request.{HttpRequest, http_request_string_parse}
use cloudcomputing_lab2_http.Server.Api.Cjson.{Json}
use cloudcomputing_lab2_http.Server.Handler.{Setting, handle_request, html_type}
use cloudcomputing_lab2_http.Server.Handler.Answers.{head, hung_up}
use cloudcomputing_lab2_http.Server.Handler.Files.{answered}
use cloudcomputing_lab2_http.Server.Handler.Serving.{file_head}
use cloudcomputing_lab2_http.Server.Handler.Names.{drained}
use cloudcomputing_lab2_http.Os.{refuses}
use cloudcomputing_lab2_http.Server.Send.Files.Partial.{IsStart}
use cloudcomputing_lab2_http.Server.Handler.Hangups.{handle_request-hangup}
use cloudcomputing_lab2_http.Server.Handler.Routing.{
  Arrives, handle_request-malformed, handle_request-traversal, handle_request-file,
  handle_request-missing, handle_request-method,
}

-- A library with one kind of node, a text.
abbrev pub texts : Json
texts = record {
  Node = Bytes;
  parse = λ text. some text;
  items = λ node. node ∷ [];
  get_object_item = λ node key. some node;
  valuestring = λ node. some node;
  add_string_to_object = λ node key text. node ++ (key ++ text);
  set_valuestring = λ node key text. text;
  create_object = [];
  duplicate = λ node. node;
  print = λ node. node;
  replace_item = λ node i item. item;
}

abbrev pub setting : Setting
setting = record {
  json = texts;
  alloc = λ n. true;
  writable = true;
  stack = 0 ∷ 0 ∷ [];
  old_count = 7;
  fuel = 9;
}

-- Descriptor 4 is a client that sent the bytes; the second write takes one byte only.
abbrev arrived : Bytes → World
arrived input = record {
  fds = update (λ _. closed) 4 (socket input);
  sent = λ _. [];
  files = (codes "404.html", codes "lost") ∷ (codes "./a/b.txt", codes "hello") ∷ [];
  directories = [];
  grants = accepts 9 ∷ accepts 1 ∷ [];
  misuses = 0;
}

-- A request with no headers.
abbrev pub asked : Bytes → Bytes → Bytes
asked method path = method ++ b' ' ∷ (path ++ codes " HTTP/1.1\r\n\r\n")

abbrev pub plain : Bytes → Bytes → HttpRequest
plain method path = record { method = method; path = path; content = none; content_length = none }

malformed-Arrives : Arrives setting (arrived (codes "get /")) 4 (codes "get /")
malformed-Arrives = record {
  buffer = refl;
  ready = record { is_open = refl; room = slot-first _ refl; accepting = tt };
  fits = omega arith;
  no_nul = omega arith;
}

handle_request-malformed_example :
    handle_request setting 4 (arrived (codes "get /"))
    ≡ ok (tt, hung_up (drained (arrived (codes "get /")) 4) 4 (head 400 html_type))
unfolding http_request_string_parse span
handle_request-malformed_example =
    handle_request-malformed setting (arrived (codes "get /")) 4 (codes "get /") malformed-Arrives
      refl

abbrev climbing : Bytes
climbing = asked (codes "GET") (codes "/../x")

climbing-Arrives : Arrives setting (arrived climbing) 4 climbing
climbing-Arrives = record {
  buffer = refl;
  ready = record { is_open = refl; room = slot-first _ refl; accepting = tt };
  fits = omega arith;
  no_nul = omega arith;
}

climbing_parses :
    http_request_string_parse setting.alloc climbing
    ≡ ok (some (plain (codes "GET") (codes "/../x")))
unfolding http_request_string_parse span strstr
climbing_parses = refl

abbrev found : Bytes
found = asked (codes "GET") (codes "/a//b.txt")

found-Arrives : Arrives setting (arrived found) 4 found
found-Arrives = record {
  buffer = refl;
  ready = record { is_open = refl; room = slot-first _ refl; accepting = tt };
  fits = omega arith;
  no_nul = omega arith;
}

found_parses :
    http_request_string_parse setting.alloc found
    ≡ ok (some (plain (codes "GET") (codes "/a//b.txt")))
unfolding http_request_string_parse span strstr
found_parses = refl

abbrev lost : Bytes
lost = asked (codes "GET") (codes "/b")

lost-Arrives : Arrives setting (arrived lost) 4 lost
lost-Arrives = record {
  buffer = refl;
  ready = record { is_open = refl; room = slot-first _ refl; accepting = tt };
  fits = omega arith;
  no_nul = omega arith;
}

lost_parses :
    http_request_string_parse setting.alloc lost ≡ ok (some (plain (codes "GET") (codes "/b")))
unfolding http_request_string_parse span strstr
lost_parses = refl

abbrev putting : Bytes
putting = asked (codes "PUT") (codes "/a")

putting-Arrives : Arrives setting (arrived putting) 4 putting
putting-Arrives = record {
  buffer = refl;
  ready = record { is_open = refl; room = slot-first _ refl; accepting = tt };
  fits = omega arith;
  no_nul = omega arith;
}

putting_parses :
    http_request_string_parse setting.alloc putting ≡ ok (some (plain (codes "PUT") (codes "/a")))
unfolding http_request_string_parse span strstr
putting_parses = refl

handle_request-traversal_example :
    handle_request setting 4 (arrived climbing)
    ≡ ok (tt, hung_up (drained (arrived climbing) 4) 4 (head 403 html_type))
unfolding strstr
handle_request-traversal_example =
    handle_request-traversal setting (arrived climbing) 4 climbing climbing-Arrives
      (plain (codes "GET") (codes "/../x")) climbing_parses 1 refl refl

handle_request-file_example :
    (gs : List Grant) × (handle_request setting 4 (arrived found)
      ≡ ok (
        tt,
        answered
            (drained (arrived found) 4)
            4
            (file_head (codes "./a/b.txt") 5 ++ codes "hello")
            gs,
      ))
    × Accepting gs
unfolding strstr squeezed lookup strcmp_eq strncmp_eq
handle_request-file_example =
    handle_request-file setting (arrived found) 4 found found-Arrives
      (plain (codes "GET") (codes "/a//b.txt")) found_parses (codes "hello") refl refl refl refl
      refl (omega arith) (omega arith)

handle_request-missing_example :
    (gs : List Grant) × (handle_request setting 4 (arrived lost)
      ≡ ok (tt, answered (drained (arrived lost) 4) 4 (head 404 html_type ++ codes "lost") gs))
    × Accepting gs
unfolding strstr squeezed lookup strcmp_eq strncmp_eq has_directory
handle_request-missing_example =
    handle_request-missing setting (arrived lost) 4 lost lost-Arrives
      (plain (codes "GET") (codes "/b")) lost_parses (codes "lost") refl refl refl refl refl refl
      refl (omega arith)

handle_request-method_example :
    (gs : List Grant) × (handle_request setting 4 (arrived putting)
      ≡ ok (tt, answered (drained (arrived putting) 4) 4 (head 404 html_type ++ codes "lost") gs))
    × Accepting gs
unfolding strstr squeezed lookup strcmp_eq strncmp_eq
handle_request-method_example =
    handle_request-method setting (arrived putting) 4 putting putting-Arrives
      (plain (codes "PUT") (codes "/a")) putting_parses (codes "lost") refl refl refl refl refl
      (omega arith)

-- The client takes two bytes of the file and goes away.
abbrev leaving : World
leaving = record (arrived found) { grants = accepts 2 ∷ refuses ∷ [] }

handle_request-hangup_example :
    (text : Bytes) × (gs : List Grant) × IsStart text (codes "hello")
    × (handle_request setting 4 leaving
        ≡ ok (tt, answered (drained leaving 4) 4 (file_head (codes "./a/b.txt") 5 ++ text) gs))
unfolding strstr squeezed lookup strcmp_eq strncmp_eq
handle_request-hangup_example =
    handle_request-hangup setting leaving 4 found (codes "hello")
      (plain (codes "GET") (codes "/a//b.txt")) refl refl (slot-first _ refl) tt (omega arith)
      (omega arith) found_parses refl refl refl refl refl (omega arith) (omega arith)
