-- ===== src/Cs162/Files/Paths.antt =====
-- What `serve_path` sends for each kind of path.
use cloudcomputing_lab2_http.Prelude.{
  ℕ, ◌≡◌, sym, ap, subst, ◌∙◌, inl, inr, Bool, true, false, Option, none, some, List, [], ◌++◌,
  arith, Bool-cases, Option-cases, length,
}
use cloudcomputing_lab2_http.Result.{Result, ok}
use cloudcomputing_lab2_http.Cstr.{Bytes, codes}
use cloudcomputing_lab2_http.Cstr.Search.{Lacks}
use cloudcomputing_lab2_http.Os.{
  World, Grant, Io, closed, socket, update, lookup, stat, close, ◌>>◌, has_directory,
}
use cloudcomputing_lab2_http.Server.Send.Delivery.{Accepting, sending}
use cloudcomputing_lab2_http.Server.Handler.{refuse}
use cloudcomputing_lab2_http.Server.Handler.Answers.{step, head, refuse_lem, hung_up, close-socket}
use cloudcomputing_lab2_http.Server.Handler.Files.{IsReady}
use cloudcomputing_lab2_http.Server.Handler.Serving.{file_head, serve_file_lem}
use cloudcomputing_lab2_http.Server.Handler.Names.{drained}
use cloudcomputing_lab2_http.Cs162.Sending.{serve_file}
use cloudcomputing_lab2_http.Cs162.Links.{Site}
use cloudcomputing_lab2_http.Cs162.Links.Text.{has_parent, links, closing}
use cloudcomputing_lab2_http.Cs162.Directory.{has_index, serve_directory}
use cloudcomputing_lab2_http.Cs162.Directory.Sends.{
  html, serve_directory-index, serve_directory-links,
}
use cloudcomputing_lab2_http.Cs162.Files.{send_status, serve_found, serve_path}
use cloudcomputing_lab2_http.Cs162.Files.Answers.{
  Files, under_head, directory_page, path_response, IsSite, Replies, plain-Replies,
}

send_status_lem :
    (w : World) (fd status_code : ℕ) (input : Bytes)
    → w.fds fd ≡ socket input
    → Accepting w.grants
    → send_status fd status_code w ≡ ok (tt, hung_up w fd (head status_code html))
unfolding send_status refuse
send_status_lem = refuse_lem

-- An action ends in a world with the response.
abbrev pub Answering : World → ℕ → Bytes → Result (Unit {0} × World) → Type 0
Answering w fd text r = (w' : World) × (r ≡ ok (tt, w')) × Replies w fd text w'

-- What a page of a directory is made of.
index_page :
    (files : Files) (path text : Bytes) (entries : List Bytes)
    → has_index entries ≡ true
    → under_head (directory_page files path entries) ≡ some text
    → (contents : Bytes) × (lookup (path ++ codes "/index.html") files ≡ some contents)
      × (head 200 html ++ contents ≡ text)
index_page files path text entries i e =
    elim (Option-cases (lookup (path ++ codes "/index.html") files)) [
      | inl none_there ↦ absurd (ground arith)
      | inr (contents, there) ↦ (contents, there, ground arith)
    ]

links_page :
    (files : Files) (path text : Bytes) (entries : List Bytes)
    → has_index entries ≡ false
    → under_head (directory_page files path entries) ≡ some text
    → (has_parent entries ≡ false) × (head 200 html ++ (links path entries ++ closing) ≡ text)
links_page files path text entries n e = elim (Bool-cases (has_parent entries)) [
  | inl parent ↦ absurd (ground arith)
  | inr other ↦ (other, ground arith)
]

module _ (site : Site) (w : World) (fd : ℕ) (ready : IsReady (drained w fd) fd [])
    (ok_site : IsSite site w.files w.directories) where
  pub status_Answering :
      (status_code : ℕ)
      → Answering w fd (head status_code html) (send_status fd status_code (drained w fd))
  status_Answering status_code = (
    hung_up (drained w fd) fd (head status_code html),
    send_status_lem (drained w fd) fd status_code [] ready.is_open ready.accepting,
    plain-Replies w fd [] (head status_code html) w.grants ready.accepting,
  )

  -- What `stat` says.
  abbrev seen : Bytes → Option Bytes → Bool
  seen path none = has_directory path w.directories
  seen path (some contents) = true

  stat_then :
      (path : Bytes) (found : Option Bytes)
      → lookup path w.files ≡ found
      → serve_path site fd path (drained w fd)
        ≡ serve_found site fd path (seen path found) (drained w fd)
  unfolding serve_path stat
  stat_then path none e =
      step (stat path) (serve_found site fd path) (drained w fd) (drained w fd)
        (has_directory path w.directories) (rw (e, stat))
  stat_then path (some contents) e =
      step (stat path) (serve_found site fd path) (drained w fd) (drained w fd) true (rw (e, stat))

  found-directory :
      (path : Bytes) (entries : List Bytes) (exist : Bool)
      → site.listing path ≡ some entries
      → serve_found site fd path exist ≡ (serve_directory site fd path >> close (some fd))
  unfolding serve_found
  found-directory path entries exist l = ground arith

  found-file :
      (path : Bytes)
      → site.listing path ≡ none
      → serve_found site fd path true ≡ (serve_file site.fuel fd path >> close (some fd))
  unfolding serve_found
  found-file path l = ground arith

  found-missing :
      (path : Bytes)
      → site.listing path ≡ none
      → serve_found site fd path false ≡ send_status fd 404
  unfolding serve_found
  found-missing path l = ground arith

  -- The close behind a response that was sent with a descriptor opened, and with none.
  then_close :
      (act : Io (Unit {0})) (text : Bytes) (gs : List Grant)
      → act (drained w fd) ≡ ok (tt, sending (drained w fd) fd text gs)
      → Accepting gs
      → Answering w fd text ((act >> close (some fd)) (drained w fd))
  then_close act text gs e a =
      let d = drained w fd in
      let d' = sending d fd text gs in
      (
        record d' { fds = update d'.fds fd closed },
        step act (λ _. close (some fd)) d d' tt e ∙ close-socket d' fd [] ready.is_open,
        plain-Replies w fd [] text gs a,
      )

  directory_Answering :
      (path text : Bytes) (entries : List Bytes)
      → Lacks 0 path
      → site.listing path ≡ some entries
      → path_response (some entries) none w.files path ≡ some text
      → Answering w fd text ((serve_directory site fd path >> close (some fd)) (drained w fd))
  directory_Answering path text entries p l e = elim (Bool-cases (has_index entries)) [
    | inl i ↦
        let (contents, there, t) = index_page w.files path text entries i e in
        let (gs, sent, a) =
          serve_directory-index site (drained w fd) fd [] path contents entries ready l i there
            (ok_site.short (path ++ codes "/index.html") contents there).0 in
        subst
          (λ x. Answering w fd x ((serve_directory site fd path >> close (some fd)) (drained w fd)))
          t (then_close (serve_directory site fd path) (head 200 html ++ contents) gs sent a)
    | inr n ↦
        let (other, t) = links_page w.files path text entries n e in
        let (gs, sent, a) =
          serve_directory-links site (drained w fd) fd [] path entries ready ok_site.sized p
            (ok_site.named path entries l) l n other in
        subst
          (λ x. Answering w fd x ((serve_directory site fd path >> close (some fd)) (drained w fd)))
          t
          (then_close (serve_directory site fd path)
            (head 200 html ++ (links path entries ++ closing)) gs sent a)
  ]

  file_Answering :
      (path contents : Bytes)
      → lookup path w.files ≡ some contents
      → Answering w fd
          (file_head path (length contents) ++ contents)
          ((serve_file site.fuel fd path >> close (some fd)) (drained w fd))
  file_Answering path contents e =
      let (l, b) = ok_site.short path contents e in
      let (gs, sent, a) = serve_file_lem site.fuel (drained w fd) fd [] path contents ready e l b in
      then_close (serve_file site.fuel fd path) (file_head path (length contents) ++ contents) gs
        sent a

  -- An action that is another one, by an equation.
  pub same_Answering :
      (text : Bytes) (act act' : Io (Unit {0}))
      → act (drained w fd) ≡ act' (drained w fd)
      → Answering w fd text (act' (drained w fd))
      → Answering w fd text (act (drained w fd))
  same_Answering text act act' e = subst (Answering w fd text) (sym e)

  pub serve_path-Answering :
      (path text : Bytes) (found : Option Bytes) (listed : Option (List Bytes))
      → Lacks 0 path
      → lookup path w.files ≡ found
      → site.listing path ≡ listed
      → path_response listed found w.files path ≡ some text
      → Answering w fd text (serve_path site fd path (drained w fd))
  serve_path-Answering path text found (some entries) p f l e =
      same_Answering text (serve_path site fd path)
        (serve_directory site fd path >> close (some fd))
        (stat_then path found f
          ∙ ap (λ act. act (drained w fd)) (found-directory path entries (seen path found) l))
        (directory_Answering path text entries p l e)
  serve_path-Answering path text (some contents) none p f l e =
      same_Answering text (serve_path site fd path)
        (serve_file site.fuel fd path >> close (some fd))
        (stat_then path (some contents) f ∙ ap (λ act. act (drained w fd)) (found-file path l))
        (subst
          (λ x. Answering w fd x ((serve_file site.fuel fd path >> close (some fd)) (drained w fd)))
          (ground arith) (file_Answering path contents f))
  serve_path-Answering path text none none p f l e =
      same_Answering text (serve_path site fd path) (send_status fd 404)
        (stat_then path none f
          ∙ rw (ok_site.listed path l) (ap (λ act. act (drained w fd)) (found-missing path l)))
        (subst (λ x. Answering w fd x (send_status fd 404 (drained w fd))) (ground arith)
          (status_Answering 404))
