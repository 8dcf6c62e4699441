-- ===== src/Server/Isolation/Requests.antt =====
-- `handle_request` of httpserver.c keeps a connection apart from the others.
use cloudcomputing_lab2_http.Prelude.{ℕ, ◌≡◌, refl, sym, subst, ◌∙◌, inl, Bool, false, Option, some}
use cloudcomputing_lab2_http.Result.{Result, ok}
use cloudcomputing_lab2_http.Cstr.{Bytes, codes, strcmp_eq}
use cloudcomputing_lab2_http.Os.{World, Io, lookup}
use cloudcomputing_lab2_http.Os.Keeps.{Gives, gives, faults, Any}
use cloudcomputing_lab2_http.Libhttp.Request.{HttpRequest, http_request_string_parse}
use cloudcomputing_lab2_http.Server.Api.{data_path}
use cloudcomputing_lab2_http.Server.Handler.{Setting, respond, handle_request}
use cloudcomputing_lab2_http.Server.Handler.Names.{drained}
use cloudcomputing_lab2_http.Server.Handler.Routing.{Arrives, parsed_then}
use cloudcomputing_lab2_http.Server.Rules.{Rules, Mild}
use cloudcomputing_lab2_http.Server.Rules.Requests.{respond-Mild, handle_request-Mild}
use cloudcomputing_lab2_http.Server.Isolation.{
  IsApart, AnyFault, IsOwn, Apart, start-Apart, Keeps-dprintf, Keeps-read, Keeps-close,
  Keeps-open_file, Keeps-stat, Keeps-lseek, Keeps-save_file,
}
use cloudcomputing_lab2_http.Server.Isolation.Loops.{send_data-Steady, send_file-Steady}

-- Being apart is kept by every rule, for any fuel.
abbrev rules : World → (fd fuel : ℕ) → (Bytes → Bool) → Rules fd fuel
rules start fd fuel may = record {
  E = AnyFault start fd may;
  P = Apart start fd may;
  F = Apart start fd may;
  IsOwn = IsOwn start fd may;
  own = inl refl;
  faulty = λ e n. tt;
  over = λ w x. x;
  on_dprintf = Keeps-dprintf start fd may;
  on_read = Keeps-read start fd may;
  on_close = Keeps-close start fd may;
  on_open_file = Keeps-open_file start fd may;
  on_stat = Keeps-stat start fd may;
  on_lseek = Keeps-lseek start fd may;
  on_send_data = send_data-Steady start fd may;
  on_send_file = send_file-Steady start fd may fuel;
}

-- What a run that returned leaves alone.
returned-Apart :
    (start w' : World) (fd fuel : ℕ) (may : Bytes → Bool) (m : Io (Unit {0}))
    → Mild (rules start fd fuel may) m
    → m start ≡ ok (tt, w')
    → IsApart start fd may w'
returned-Apart start w' fd fuel may m calm e =
    go (m start) e (calm.at start (start-Apart start fd may))
  where
    go :
        (r : Result (Unit {0} × World))
        → r ≡ ok (tt, w')
        → Gives (AnyFault start fd may) (Apart start fd may) Any r
        → IsApart start fd may w'
    go r e (gives {w = w} q x) = (let same : w ≡ w' = cc in subst (IsApart start fd may) same x)
    go r e (faults h) = cc

-- Every run of `handle_request` that returns, whatever the client sent, on every world and for every
-- JSON library: the other descriptors that were open, and what was sent through them, are as
-- before; what was sent to the client before is still there, in front of what was added; and every
-- file other than the data file has the contents that it had, or is still missing.
pub handle_request-isolated :
    (S : Setting) (w w' : World) (fd : ℕ)
    → handle_request S fd w ≡ ok (tt, w')
    → IsApart w fd (λ path. strcmp_eq data_path path) w'
handle_request-isolated S w w' fd e =
    let may = λ (path : Bytes). strcmp_eq data_path path in
    let saves = λ (text : Bytes). Keeps-save_file w fd may data_path text (λ path h. h) in
    returned-Apart w w' fd S.fuel may (handle_request S fd)
      (handle_request-Mild S (rules w fd S.fuel may) saves) e

-- Every run of `handle_request` that returns, under the conditions of `Arrives`: if the bytes of the
-- client are no request or one with another method than POST, every file has the contents that it
-- had, or is still missing, the data file included.
pub handle_request-saves_nothing :
    (S : Setting) (w w' : World) (fd : ℕ) (input : Bytes) (parsed : Option HttpRequest)
    → Arrives S w fd input
    → http_request_string_parse S.alloc input ≡ ok parsed
    → ((r : HttpRequest) → parsed ≡ some r → strcmp_eq r.method (codes "POST") ≡ false)
    → handle_request S fd w ≡ ok (tt, w')
    → (path : Bytes) → lookup path w'.files ≡ lookup path w.files
handle_request-saves_nothing S w w' fd input parsed arrives parses other e path =
    let d = drained w fd in
    let R = rules d fd S.fuel (λ _. false) in
    let calm = respond-Mild S R parsed (λ r is post. (let n = other r is in cc)) in
    (returned-Apart d w' fd S.fuel (λ _. false) (respond S fd parsed) calm
        (sym (parsed_then S w fd input arrives parsed parses) ∙ e)).kept
      path refl
