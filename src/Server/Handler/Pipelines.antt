-- ===== src/Server/Handler/Pipelines.antt =====
-- Several requests that a client writes at once, as pipeline-test.c does.
use cloudcomputing_lab2_http.Os.Slots.{slot-socket}
use cloudcomputing_lab2_http.Prelude.{
  ℕ, ◌≡◌, refl, sym, ap, subst, ◌∙◌, ◌≢◌, true, none, some, [], ◌∷◌, ◌++◌, append_assoc, arith,
  length, length-append, All-split,
}
use cloudcomputing_lab2_http.Cstr.{Bytes, starts_with, strstr}
use cloudcomputing_lab2_http.Cstr.Search.{Lacks}
use cloudcomputing_lab2_http.Os.{World, socket, update, lowest}
use cloudcomputing_lab2_http.Libhttp.Request.{is_upper, in_path, content_length_key}
use cloudcomputing_lab2_http.Libhttp.Request.RoundTrip.{
  request_line, http_request_string_parse-no_content,
}
use cloudcomputing_lab2_http.Libhttp.Request.Sound.{IsField}
use cloudcomputing_lab2_http.Server.Send.Delivery.{update_twice}
use cloudcomputing_lab2_http.Server.Send.Files.{update-here}
use cloudcomputing_lab2_http.Server.Handler.{Setting, respond, handle_request}
use cloudcomputing_lab2_http.Server.Handler.Names.{drained}
use cloudcomputing_lab2_http.Server.Handler.Routing.{Arrives, parsed_then}

starts_with-append : (s t more : Bytes) → starts_with s t ≡ true → starts_with (s ++ more) t ≡ true
unfolding starts_with
starts_with-append s [] more h = ground arith
starts_with-append [] (d ∷ t) more h = ground arith
starts_with-append (c ∷ s) (d ∷ t) more h = ground (arith, starts_with-append s t more)

-- A text that is not in the whole is not in its front.
strstr-front : (s more t : Bytes) → strstr (s ++ more) t ≡ none → strstr s t ≡ none
unfolding strstr starts_with
strstr-front [] [] t h = h
strstr-front [] (c ∷ more) [] h = ground arith
strstr-front [] (c ∷ more) (d ∷ t) h = refl
strstr-front (c ∷ s) more t h =
    ground (arith, starts_with-append (c ∷ s) t more, strstr-front s more t)

request_line-append :
    (method path version headers more : Bytes)
    → request_line method path version (headers ++ more)
      ≡ request_line method path version headers ++ more
request_line-append method path version headers more = ground (
  arith,
  append_assoc version (b'\n' ∷ headers) more,
  append_assoc path (b' ' ∷ (version ++ b'\n' ∷ headers)) more,
  append_assoc method (b' ' ∷ (path ++ b' ' ∷ (version ++ b'\n' ∷ headers))) more,
)

-- The connection with other bytes that have arrived.
abbrev pub received : World → ℕ → Bytes → World
received w fd input = record w { fds = update w.fds fd (socket input) }

drained-received :
    (w : World) (fd : ℕ) (input : Bytes) → drained (received w fd input) fd ≡ drained w fd
drained-received w fd input =
    ap (λ fds. record w { fds = fds }) (update_twice w.fds fd (socket input) (socket []))

module _ (S : Setting) (fd : ℕ) where
  received-Arrives :
      (w : World) (method path version headers more : Bytes)
      → Arrives S
          (received w fd (request_line method path version (headers ++ more)))
          fd
          (request_line method path version (headers ++ more))
      → Arrives S
          (received w fd (request_line method path version headers))
          fd
          (request_line method path version headers)
  received-Arrives w method path version headers more a =
      let first = request_line method path version headers in
      let both = request_line method path version (headers ++ more) in
      let w' = received w fd both in
      let e = request_line-append method path version headers more in
      record {
        buffer = a.buffer;
        ready = record {
          is_open = update-here w.fds fd (socket first);
          room =
              (let here = slot-socket w' fd both first (update-here w.fds fd (socket both)) in
                let again = ap lowest (update_twice w.fds fd (socket both) (socket first)) in
                let room = a.ready.room in omega (arith, here, again, room));
          accepting = a.ready.accepting;
        };
        fits = omega (arith, a.fits, ap (length {A = ℕ}) e, length-append {0} first more);
        no_nul = (All-split (λ d. d ≢ 0) first more (subst (λ s. Lacks 0 s) e a.no_nul)).0;
      }

  -- A client that writes a request without a Content-Length, and then any other bytes, such as further
  -- requests without one, on a connection as in `Arrives`: `handle_request` does exactly what it does
  -- if the first request comes alone. Nothing that is behind it is answered, or has any other effect.
  pub handle_request-first_only :
      (w : World) (method path version headers more : Bytes)
      → ((n : ℕ) → S.alloc n ≡ true)
      → IsField is_upper method
      → IsField in_path path
      → Lacks b'\n' version
      → strstr (headers ++ more) content_length_key ≡ none
      → Arrives S
          (received w fd (request_line method path version (headers ++ more)))
          fd
          (request_line method path version (headers ++ more))
      → handle_request S fd (received w fd (request_line method path version (headers ++ more)))
        ≡ handle_request S fd (received w fd (request_line method path version headers))
  handle_request-first_only w method path version headers more all m p v h a =
      let both = request_line method path version (headers ++ more) in
      let first = request_line method path version headers in
      let parsed =
        some (record { method = method; path = path; content = none; content_length = none }) in
      parsed_then S (received w fd both) fd both a parsed (
        http_request_string_parse-no_content S.alloc all method path version (headers ++ more) m p v
          h)
      ∙ ap (respond S fd parsed) (drained-received w fd both ∙ sym (drained-received w fd first))
      ∙ sym (
          parsed_then S (received w fd first) fd first
            (received-Arrives w method path version headers more a) parsed
            (http_request_string_parse-no_content S.alloc all method path version headers m p v
              (strstr-front headers more content_length_key h)))
