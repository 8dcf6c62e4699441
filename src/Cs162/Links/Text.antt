-- ===== src/Cs162/Links/Text.antt =====
-- What the text of a directory is, and the block that is too small for the parent's link.
use cloudcomputing_lab2_http.Prelude.{
  ℕ, ◌+◌, ◌*◌, ◌≡◌, ◌≢◌, inl, inr, Bool, true, false, ◌||◌, List, [], ◌∷◌, ◌++◌, append-nil,
  append_assoc, arith, if◌then◌else◌, Bool-cases, length, All, All-append,
}
use cloudcomputing_lab2_http.Result.{ok, fault, overflow}
use cloudcomputing_lab2_http.Cstr.{Bytes, codes, strcmp_eq}
use cloudcomputing_lab2_http.Cstr.Equal.{strcmp_eq_iff}
use cloudcomputing_lab2_http.Cstr.Search.{Lacks}
use cloudcomputing_lab2_http.Libhttp.Response.{href_text, http_format_href_lem}
use cloudcomputing_lab2_http.Server.Text.{join_string_lem, string_at_start}
use cloudcomputing_lab2_http.Cs162.Links.{Site, entry_link, joined, link_loop, directory_text}

-- Whether ".." is among the entries.
abbrev pub has_parent : List Bytes → Bool
has_parent [] = false
has_parent (d_name ∷ entries) = strcmp_eq d_name (codes "..") || has_parent entries

-- The links to all entries, in order.
abbrev pub links : Bytes → List Bytes → Bytes
links path [] = []
links path (d_name ∷ entries) = href_text path d_name ++ links path entries

abbrev pub closing : Bytes
closing = codes "</center></body></html>"

-- Blocks have the size that was asked for.
abbrev pub IsSized : (ℕ → Bytes) → Type 0
IsSized fresh = (n : ℕ) → length (fresh n) ≡ n

entry_link_lem :
    (path d_name : Bytes)
    → strcmp_eq d_name (codes "..") ≡ false
    → entry_link path d_name ≡ ok (href_text path d_name)
unfolding entry_link
entry_link_lem path d_name h =
    rw (h, http_format_href_lem (22 + length path + length d_name * 2 + 1) path d_name)
      (ground arith)

-- The block for the link to the parent holds 25 bytes, and its text with the NUL has 29.
entry_link-parent :
    (path d_name : Bytes)
    → strcmp_eq d_name (codes "..") ≡ true
    → entry_link path d_name ≡ fault overflow
unfolding entry_link
entry_link-parent path d_name h =
    let e : d_name ≡ codes ".." = (strcmp_eq_iff d_name (codes "..")).0 h in
    rw h (rw e (http_format_href_lem 25 (codes "..") (codes "..")))

href_text-Lacks :
    (path d_name : Bytes) → Lacks 0 path → Lacks 0 d_name → Lacks 0 (href_text path d_name)
href_text-Lacks path d_name p d =
    let nz = λ (c : ℕ). c ≢ 0 in
    let tail : Lacks 0 (d_name ++ codes "</a><br/>") =
      All-append nz d_name (codes "</a><br/>") d (omega arith) in
    let back : Lacks 0 (d_name ++ (codes "\">" ++ (d_name ++ codes "</a><br/>"))) =
      All-append nz d_name (codes "\">" ++ (d_name ++ codes "</a><br/>")) d
        (All-append nz (codes "\">") (d_name ++ codes "</a><br/>") (omega arith) tail) in
    All-append nz (codes "<a href=\"/")
      (path ++ (codes "/" ++ (d_name ++ (codes "\">" ++ (d_name ++ codes "</a><br/>")))))
      (omega arith)
      (All-append nz path (codes "/" ++ (d_name ++ (codes "\">" ++ (d_name ++ codes "</a><br/>"))))
        p
        (All-append nz (codes "/") (d_name ++ (codes "\">" ++ (d_name ++ codes "</a><br/>")))
          (omega arith) back))

module _ (site : Site) (sized : IsSized site.fresh) where
  joined_lem : (a b : Bytes) → Lacks 0 a → Lacks 0 b → joined site a b ≡ ok (a ++ b)
  unfolding joined
  joined_lem a b p q =
      rw
        (
          join_string_lem a b (site.fresh (length a + length b + 1))
              (sized (length a + length b + 1)),
          ← append_assoc a b (0 ∷ []),
        )
        (string_at_start (a ++ b) [] (All-append (λ c. c ≢ 0) a b p q))

  link_loop_lem :
      (path : Bytes) (entries : List Bytes) (send_buffer : Bytes)
      → Lacks 0 path
      → All (Lacks 0) entries
      → Lacks 0 send_buffer
      → link_loop site path entries send_buffer
        ≡ (if has_parent entries then fault overflow else ok (send_buffer ++ links path entries))
  unfolding link_loop
  link_loop_lem path [] send_buffer p es b = rw (append-nil send_buffer)
  link_loop_lem path (d_name ∷ entries) send_buffer p es b =
      elim (Bool-cases (strcmp_eq d_name (codes ".."))) [
        | inl parent ↦ rw (entry_link-parent path d_name parent, parent)
        | inr other ↦
            let text = href_text path d_name in
            let t = href_text-Lacks path d_name p es.0 in
            rw (entry_link_lem path d_name other, other, joined_lem send_buffer text b t)
              (rw (
                link_loop_lem path entries (send_buffer ++ text) p es.1
                    (All-append (λ c. c ≢ 0) send_buffer text b t),
                append_assoc send_buffer text (links path entries),
              ))
      ]

  links-Lacks :
      (path : Bytes) (entries : List Bytes)
      → Lacks 0 path
      → All (Lacks 0) entries
      → Lacks 0 (links path entries)
  links-Lacks path [] p es = tt
  links-Lacks path (d_name ∷ entries) p es =
      All-append (λ c. c ≢ 0) (href_text path d_name) (links path entries)
        (href_text-Lacks path d_name p es.0) (links-Lacks path entries p es.1)

  -- The text of a directory, with names and a path without NUL: the links to all entries, in order,
  -- and the end of the page, in blocks that are large enough. If ".." is among the entries, its link
  -- is written behind the end of its block.
  pub directory_text_lem :
      (path : Bytes) (entries : List Bytes)
      → Lacks 0 path
      → All (Lacks 0) entries
      → directory_text site path entries
        ≡ (if has_parent entries then fault overflow else ok (links path entries ++ closing))
  unfolding directory_text
  directory_text_lem path entries p es = elim (Bool-cases (has_parent entries)) [
    | inl parent ↦ rw (link_loop_lem path entries [] p es tt, parent)
    | inr other ↦
        rw (link_loop_lem path entries [] p es tt, other)
          (joined_lem (links path entries) closing (links-Lacks path entries p es) (omega arith))
  ]
