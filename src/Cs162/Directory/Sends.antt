-- ===== src/Cs162/Directory/Sends.antt =====
-- What `serve_directory` sends.
use cloudcomputing_lab2_http.Prelude.{
  ℕ, ◌+◌, ◌<◌, ◌≡◌, refl, ap, ◌∙◌, true, false, some, List, ◌++◌, arith, length, All,
}
use cloudcomputing_lab2_http.Result.{ok, fault, overflow}
use cloudcomputing_lab2_http.Cstr.{Bytes, codes, strcmp_eq, strrchr}
use cloudcomputing_lab2_http.Cstr.Search.{Lacks}
use cloudcomputing_lab2_http.Os.{World, Grant, file, socket, pure, lift, lookup, open_file, slot}
use cloudcomputing_lab2_http.Libhttp.Mime.{http_get_mime_type}
use cloudcomputing_lab2_http.Libhttp.Response.{http_format_index, http_format_index_lem}
use cloudcomputing_lab2_http.Server.Send.{done, http_send_data, http_send_string}
use cloudcomputing_lab2_http.Server.Send.Delivery.{Accepting, sending, sending_twice}
use cloudcomputing_lab2_http.Server.Send.Files.{sent_whole, update-here}
use cloudcomputing_lab2_http.Server.Handler.Answers.{put, step, head, head_then}
use cloudcomputing_lab2_http.Server.Handler.Files.{
  IsReady, opened, after_file, open_file-found, opened-open, reclosed,
}
use cloudcomputing_lab2_http.Server.Handler.Serving.{send_close}
use cloudcomputing_lab2_http.Cs162.Links.{Site, directory_text}
use cloudcomputing_lab2_http.Cs162.Links.Text.{
  IsSized, has_parent, links, closing, directory_text_lem,
}
use cloudcomputing_lab2_http.Cs162.Directory.{
  has_index, send_index, send_links, directory_body, serve_directory,
}

abbrev pub html : Bytes
html = codes "text/html"

mime_html : http_get_mime_type (codes ".html") ≡ html
unfolding http_get_mime_type strrchr strcmp_eq
mime_html = refl

format_index :
    (path : Bytes)
    → http_format_index (length path + length (codes "/index.html") + 1) path
      ≡ ok (path ++ codes "/index.html")
format_index path =
    rw (http_format_index_lem (length path + length (codes "/index.html") + 1) path) (ground arith)

send_index_lem :
    (fuel : ℕ) (w : World) (fd : ℕ) (input path contents : Bytes)
    → IsReady w fd input
    → lookup (path ++ codes "/index.html") w.files ≡ some contents
    → length contents < fuel
    → (gs : List Grant) × (send_index fuel fd path w ≡ ok (tt, after_file w fd contents gs))
      × Accepting gs
unfolding send_index
send_index_lem fuel w fd input path contents r e h =
    let name = path ++ codes "/index.html" in
    let (gs, sent, a) =
      send_close fuel (opened w contents) fd (slot w) input contents
        (opened-open w fd input (file contents 0) r.is_open r.room)
        (update-here w.fds (slot w) (file contents 0)) r.accepting h in
    (
      gs,
      step (lift (http_format_index (length path + length (codes "/index.html") + 1) path)) _ w w
            name (rw (format_index path))
          ∙ step (open_file name) _ w (opened w contents) (some (slot w))
              (open_file-found w name contents e r.room)
          ∙ sent
          ∙ ap (λ f. ok (tt, record (after_file w fd contents gs) { fds = f }))
              (reclosed w (file contents 0) r.room),
      a,
    )

module _ (site : Site) where
  serve_directory-body :
      (w : World) (fd : ℕ) (input path : Bytes)
      → w.fds fd ≡ socket input
      → Accepting w.grants
      → serve_directory site fd path w ≡ directory_body site fd path (put w fd (head 200 html))
  unfolding serve_directory
  serve_directory-body w fd input path o a =
      rw mime_html (head_then (directory_body site fd path) w fd 200 html input o a)

  directory_body-index :
      (fd : ℕ) (path : Bytes) (entries : List Bytes)
      → site.listing path ≡ some entries
      → has_index entries ≡ true
      → directory_body site fd path ≡ send_index site.fuel fd path
  unfolding directory_body
  directory_body-index fd path entries l h = ground arith

  directory_body-links :
      (fd : ℕ) (path : Bytes) (entries : List Bytes)
      → site.listing path ≡ some entries
      → has_index entries ≡ false
      → directory_body site fd path ≡ send_links site fd path entries
  unfolding directory_body
  directory_body-links fd path entries l h = ground arith

  -- A directory with an index: the status 200 and the index, whose descriptor is closed.
  pub serve_directory-index :
      (w : World) (fd : ℕ) (input path contents : Bytes) (entries : List Bytes)
      → IsReady w fd input
      → site.listing path ≡ some entries
      → has_index entries ≡ true
      → lookup (path ++ codes "/index.html") w.files ≡ some contents
      → length contents < site.fuel
      → (gs : List Grant) × (serve_directory site fd path w
          ≡ ok (tt, after_file w fd (head 200 html ++ contents) gs))
        × Accepting gs
  serve_directory-index w fd input path contents entries r l i e h =
      let w' = put w fd (head 200 html) in
      let r' : IsReady w' fd input = record {
        is_open = r.is_open;
        room = r.room;
        accepting = r.accepting;
      } in
      let (gs, sent, a) = send_index_lem site.fuel w' fd input path contents r' e h in
      (
        gs,
        serve_directory-body w fd input path r.is_open r.accepting
            ∙ ap (λ act. act w') (directory_body-index fd path entries l i)
            ∙ sent
            ∙ ap (λ v. ok (tt, v)) (sending_twice w fd (head 200 html) contents w.grants gs),
        a,
      )

  -- A directory with neither an index nor its parent among the entries: the status 200, and a link
  -- to each entry.
  pub serve_directory-links :
      (w : World) (fd : ℕ) (input path : Bytes) (entries : List Bytes)
      → IsReady w fd input
      → IsSized site.fresh
      → Lacks 0 path
      → All (Lacks 0) entries
      → site.listing path ≡ some entries
      → has_index entries ≡ false
      → has_parent entries ≡ false
      → (gs : List Grant) × (serve_directory site fd path w
          ≡ ok (tt, sending w fd (head 200 html ++ (links path entries ++ closing)) gs))
        × Accepting gs
  unfolding send_links http_send_string
  serve_directory-links w fd input path entries r sized p es l i n =
      let w' = put w fd (head 200 html) in
      let text = links path entries ++ closing in
      let (gs, sent, a) = sent_whole w' fd text input r.is_open r.accepting in
      (
        gs,
        serve_directory-body w fd input path r.is_open r.accepting
            ∙ ap (λ act. act w') (directory_body-links fd path entries l i)
            ∙ step (lift (directory_text site path entries)) _ w' w' text
                (rw (directory_text_lem site sized path entries p es, n))
            ∙ step (http_send_data fd text) (λ status. pure tt) w' (sending w' fd text gs) done sent
            ∙ ap (λ v. ok (tt, v)) (sending_twice w fd (head 200 html) text w.grants gs),
        a,
      )

  -- A directory that lists its parent and no index, on a connection on which no write fails: a write behind the end of a block, after the head
  -- of the response was sent.
  pub serve_directory-parent :
      (w : World) (fd : ℕ) (input path : Bytes) (entries : List Bytes)
      → w.fds fd ≡ socket input
      → Accepting w.grants
      → IsSized site.fresh
      → Lacks 0 path
      → All (Lacks 0) entries
      → site.listing path ≡ some entries
      → has_index entries ≡ false
      → has_parent entries ≡ true
      → serve_directory site fd path w ≡ fault overflow
  unfolding send_links
  serve_directory-parent w fd input path entries o a sized p es l i n =
      serve_directory-body w fd input path o a
      ∙ ap (λ act. act (put w fd (head 200 html))) (directory_body-links fd path entries l i)
      ∙ rw (directory_text_lem site sized path entries p es, n)
