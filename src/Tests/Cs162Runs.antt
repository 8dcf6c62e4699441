-- ===== src/Tests/Cs162Runs.antt =====
-- CS162-httpserver.c at concrete inputs.
use cloudcomputing_lab2_http.Prelude.{
  ℕ, ◌^◌, ◌<◌, ◌≡◌, refl, subst, ◌≢◌, ◌⊎◌, inl, inr, true, false, none, some, List, [], ◌∷◌, ◌++◌,
  arith, if◌then◌else◌, Bool-cases, length, replicate, length-replicate, All,
}
use cloudcomputing_lab2_http.Result.{ok, fault, overflow}
use cloudcomputing_lab2_http.Cstr.{Bytes, codes, span, strstr, strcmp_eq}
use cloudcomputing_lab2_http.Os.{World, closed, socket, accepts, update, lookup, has_directory}
use cloudcomputing_lab2_http.Libhttp.Request.{http_request_string_parse}
use cloudcomputing_lab2_http.Server.Handler.Answers.{head}
use cloudcomputing_lab2_http.Cs162.Links.{Site}
use cloudcomputing_lab2_http.Cs162.Links.Text.{links, closing}
use cloudcomputing_lab2_http.Cs162.Directory.{serve_directory, has_index}
use cloudcomputing_lab2_http.Cs162.Directory.Sends.{html, serve_directory-parent}
use cloudcomputing_lab2_http.Cs162.Files.Answers.{response, IsSite}
use cloudcomputing_lab2_http.Tests.HandlerRuns.{asked, plain}

abbrev pub zeros : ℕ → Bytes
zeros n = replicate n 0

length-zeros : (n : ℕ) → length (zeros n) ≡ n
length-zeros n = length-replicate n 0

-- One directory with the entries, at the paths "./d" and ".//d".
abbrev pub site_of : List Bytes → Site
site_of entries = record {
  listing = λ path. if strcmp_eq path (codes ".//d") then some entries else none;
  fresh = zeros;
  fuel = 9;
}

abbrev pub one_file : List (Bytes × Bytes)
one_file = (codes ".//a.txt", codes "hello") ∷ []

abbrev arrived : Bytes → World
arrived input = record {
  fds = update (λ _. closed) 4 (socket input);
  sent = λ _. [];
  files = one_file;
  directories = [];
  grants = accepts 2 ∷ [];
  misuses = 0;
}

abbrev pub only_a : Site
only_a = site_of (codes "a" ∷ [])

pub only_a-IsSite : IsSite only_a one_file []
unfolding lookup has_directory
only_a-IsSite = record {
  sized = length-zeros;
  listed = λ path e. refl;
  named = λ path entries e. named path entries e (Bool-cases (strcmp_eq path (codes ".//d")));
  short = λ path contents e. short path contents e (Bool-cases (strcmp_eq (codes ".//a.txt") path));
}
  where
    named :
        (path : Bytes) (entries : List Bytes)
        → only_a.listing path ≡ some entries
        → (strcmp_eq path (codes ".//d") ≡ true) ⊎ (strcmp_eq path (codes ".//d") ≡ false)
        → All (All (λ d. d ≢ 0)) entries
    named path entries e (inl h) =
        let listed : codes "a" ∷ [] ≡ entries = ground arith in
        subst (All (All (λ d. d ≢ 0))) listed ((omega arith, tt), tt)
    named path entries e (inr h) = absurd (ground arith)

    short :
        (path contents : Bytes)
        → lookup path one_file ≡ some contents
        → (strcmp_eq (codes ".//a.txt") path ≡ true) ⊎ (strcmp_eq (codes ".//a.txt") path ≡ false)
        → (length contents < 9) × (length contents < 2 ^ 31)
    short path contents e (inl h) = ground arith
    short path contents e (inr h) = absurd (ground arith)

-- A request for the directory, whose page has one link.
abbrev pub directory_asked : Bytes
directory_asked = asked (codes "GET") (codes "/d")

abbrev pub directory_reply : Bytes
directory_reply = head 200 html ++ (links (codes ".//d") (codes "a" ∷ []) ++ closing)

pub directory_parses :
    http_request_string_parse (λ n. true) directory_asked
    ≡ ok (some (plain (codes "GET") (codes "/d")))
unfolding http_request_string_parse span strstr
directory_parses = refl

pub directory_response :
    response only_a one_file (some (plain (codes "GET") (codes "/d"))) ≡ some directory_reply
unfolding strstr strcmp_eq has_index
directory_response = refl

serve_directory-parent_example :
    serve_directory (site_of (codes "." ∷ codes ".." ∷ [])) 4 (codes ".//d") (arrived [])
    ≡ fault overflow
unfolding strcmp_eq has_index
serve_directory-parent_example =
    serve_directory-parent (site_of (codes "." ∷ codes ".." ∷ [])) (arrived []) 4 [] (codes ".//d")
      (codes "." ∷ codes ".." ∷ []) refl tt length-zeros (omega arith)
      ((omega arith, tt), ((omega arith, (omega arith, tt)), tt)) refl refl refl
