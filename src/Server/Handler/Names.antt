-- ===== src/Server/Handler/Names.antt =====
-- The bytes that arrive, the name of the file that a path gives, and the answer to it.
use cloudcomputing_lab2_http.Prelude.{
  ℕ, zero, suc, ◌^◌, ◌≤◌, ◌<◌, ◌≡◌, refl, ◌∙◌, Bool, true, false, none, some, List, [], ◌∷◌, ◌++◌,
  arith, if◌then◌else◌, length, drop, take-all,
}
use cloudcomputing_lab2_http.Result.{ok}
use cloudcomputing_lab2_http.Cstr.{Bytes, codes, cstr, strcmp_eq}
use cloudcomputing_lab2_http.Cstr.Search.{Lacks}
use cloudcomputing_lab2_http.Os.{
  socket, World, Grant, lift, ◌>>=◌, ◌>>◌, close, lookup, stat, update, read, has_directory,
}
use cloudcomputing_lab2_http.Map.Stored.Query.{string_at-cstr}
use cloudcomputing_lab2_http.Libhttp.Request.{http_request_string_parse}
use cloudcomputing_lab2_http.Libhttp.Receive.{http_request_parse}
use cloudcomputing_lab2_http.Libhttp.Url.{squeezed, normalize_url-squeezed, squeezed-Lacks}
use cloudcomputing_lab2_http.Server.Send.{serve_file}
use cloudcomputing_lab2_http.Server.Send.Delivery.{Accepting}
use cloudcomputing_lab2_http.Server.Handler.{not_found, file_name, handle_file, html_type}
use cloudcomputing_lab2_http.Server.Handler.Answers.{step, head, close-socket}
use cloudcomputing_lab2_http.Server.Handler.Files.{IsReady, after_file, answered, not_found_lem}
use cloudcomputing_lab2_http.Server.Handler.Serving.{file_head, serve_file_lem}

-- The world after the connection's bytes were read.
abbrev pub drained : World → ℕ → World
drained w fd = record w { fds = update w.fds fd (socket []) }

cstr-Lacks : (s : Bytes) → Lacks 0 s → cstr s ≡ s
unfolding cstr
cstr-Lacks [] h = refl
cstr-Lacks (c ∷ s) h = ground (arith, cstr-Lacks s h.1)

drop-all : (s : Bytes) (n : ℕ) → length s ≤ n → drop n s ≡ []
drop-all [] zero h = refl
drop-all [] (suc n) h = refl
drop-all (c ∷ s) zero h = absurd (omega arith)
drop-all (c ∷ s) (suc n) h = drop-all s n (omega arith)

read-socket :
    (w : World) (fd n : ℕ) (input : Bytes)
    → w.fds fd ≡ socket input
    → length input ≤ n
    → read (some fd) n w ≡ ok (some input, drained w fd)
unfolding read
read-socket w fd n input o h = rw (o, take-all input n h, drop-all input n h)

-- A request that fits the buffer is read whole and parsed.
pub receive_lem :
    (alloc : ℕ → Bool) (w : World) (fd : ℕ) (input : Bytes)
    → alloc 8193 ≡ true
    → w.fds fd ≡ socket input
    → length input ≤ 8192
    → Lacks 0 input
    → http_request_parse alloc fd w ≡ lift (http_request_string_parse alloc input) (drained w fd)
unfolding http_request_parse
receive_lem alloc w fd input a o h z =
    ground (arith, a, read-socket w fd 8192 input o h, cstr-Lacks input z)

-- The name that `handle_request` makes of a path.
abbrev pub name_of : Bytes → Bytes
name_of path =
    let name = squeezed (codes "./" ++ path) in
    if strcmp_eq name (codes "./") then codes "./index.html" else name

file_name_lem : (path : Bytes) → Lacks 0 path → file_name path ≡ ok (name_of path)
unfolding file_name
file_name_lem path z =
    let z' : Lacks 0 (codes "./" ++ path) = (omega arith, (omega arith, z)) in
    let (junk, e) = normalize_url-squeezed (codes "./" ++ path) z' in
    ground (
      arith,
      e,
      string_at-cstr (squeezed (codes "./" ++ path)) junk 0 (squeezed-Lacks (codes "./" ++ path) z')
          (omega arith),
    )

pub handle_file-text :
    (fuel : ℕ) (w : World) (fd : ℕ) (input path contents text : Bytes) (gs : List Grant)
    → w.fds fd ≡ socket input
    → Lacks 0 path
    → lookup (name_of path) w.files ≡ some contents
    → serve_file fuel fd (name_of path) w ≡ ok (tt, after_file w fd text gs)
    → handle_file fuel fd path w ≡ ok (tt, answered w fd text gs)
unfolding handle_file stat
handle_file-text fuel w fd input path contents text gs o z e sent =
    let name = name_of path in
    let serve = (serve_file fuel fd name >> close (some fd)) in
    step (lift (file_name path))
      (λ n.
        (stat n >>= λ exist.
        if exist then (serve_file fuel fd n >> close (some fd)) else not_found fuel fd))
      w w name (rw (file_name_lem path z))
    ∙ step (stat name) (λ exist. if exist then serve else not_found fuel fd) w w true (rw (e, stat))
    ∙ step (serve_file fuel fd name) (λ _. close (some fd)) w (after_file w fd text gs) tt sent
    ∙ close-socket (after_file w fd text gs) fd input o

pub handle_file-found :
    (fuel : ℕ) (w : World) (fd : ℕ) (input path contents : Bytes)
    → IsReady w fd input
    → Lacks 0 path
    → lookup (name_of path) w.files ≡ some contents
    → length contents < fuel
    → length contents < 2 ^ 31
    → (gs : List Grant) × (handle_file fuel fd path w
        ≡ ok (tt, answered w fd (file_head (name_of path) (length contents) ++ contents) gs))
      × Accepting gs
handle_file-found fuel w fd input path contents r z e h small =
    let name = name_of path in
    let (gs, sent, a) = serve_file_lem fuel w fd input name contents r e h small in
    let text = file_head name (length contents) ++ contents in
    (gs, handle_file-text fuel w fd input path contents text gs r.is_open z e sent, a)

pub handle_file-missing :
    (fuel : ℕ) (w : World) (fd : ℕ) (input path page : Bytes)
    → IsReady w fd input
    → Lacks 0 path
    → lookup (name_of path) w.files ≡ none
    → has_directory (name_of path) w.directories ≡ false
    → lookup (codes "404.html") w.files ≡ some page
    → length page < fuel
    → (gs : List Grant) × (handle_file fuel fd path w
        ≡ ok (tt, answered w fd (head 404 html_type ++ page) gs))
      × Accepting gs
unfolding handle_file stat
handle_file-missing fuel w fd input path page r z e none_there p h =
    let name = name_of path in
    let (gs, sent, a) = not_found_lem fuel w fd input page r p h in
    (
      gs,
      step (lift (file_name path))
            (λ n.
              (stat n >>= λ exist.
              if exist then (serve_file fuel fd n >> close (some fd)) else not_found fuel fd))
            w w name (rw (file_name_lem path z))
          ∙ step (stat name)
              (λ exist.
                if exist then (serve_file fuel fd name >> close (some fd)) else not_found fuel fd)
              w w false (rw (e, none_there, stat) refl)
          ∙ sent,
      a,
    )
