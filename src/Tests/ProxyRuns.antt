-- ===== src/Tests/ProxyRuns.antt =====
-- The proxy at a concrete input.
use cloudcomputing_lab2_http.Os.Slots.{slot-first}
use cloudcomputing_lab2_http.Prelude.{◌≡◌, refl, true, false, none, [], ◌∷◌, arith}
use cloudcomputing_lab2_http.Result.{ok}
use cloudcomputing_lab2_http.Cstr.{Bytes, codes}
use cloudcomputing_lab2_http.Os.{World, closed, socket, accepts, update}
use cloudcomputing_lab2_http.Cstr.{span}
use cloudcomputing_lab2_http.Libhttp.Request.{http_request_string_parse}
use cloudcomputing_lab2_http.Server.Proxy.Dial.{Upstream, dial}
use cloudcomputing_lab2_http.Server.Proxy.Dial.Unreachable.{refused_world, dial-unreachable}

-- Descriptor 4 is the client, which sent the bytes.
abbrev asked : Bytes → World
asked input = record {
  fds = update (λ _. closed) 4 (socket input);
  sent = λ _. [];
  files = [];
  directories = [];
  grants = accepts 1 ∷ [];
  misuses = 0;
}

abbrev refusing : Upstream
refusing = record { has_socket = true; connects = false; errno = 111 }

abbrev garbage : Bytes
garbage = codes "?"

garbage_parses : http_request_string_parse (λ n. true) garbage ≡ ok none
unfolding http_request_string_parse span
garbage_parses = refl

dial-unreachable_example :
    dial (λ n. true) refusing 7 4 (asked garbage) ≡ ok ((none, 7), refused_world (asked garbage) 4)
dial-unreachable_example =
    dial-unreachable (λ n. true) refusing 7 (asked garbage) 4 garbage none refl refl refl refl
      (slot-first _ refl) tt (omega arith) (omega arith) garbage_parses
