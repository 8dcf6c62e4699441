-- ===== src/Server/Isolation.antt =====
-- One connection apart from the others: what a handler of httpserver.c leaves alone.
pub mod Loops
pub mod Requests
use cloudcomputing_lab2_http.Os.Slots.{slot-closed}
use cloudcomputing_lab2_http.Prelude.{
  ℕ, ◌+◌, ◌<◌, ◌≡◌, refl, sym, ap, ◌∙◌, ◌≢◌, ◌⊎◌, inl, inr, Bool, false, Option, none, some, List,
  [], ◌∷◌, ◌++◌, append-nil, append_assoc, arith, if◌then◌else◌, Bool-cases, length, take, drop,
  pos, negsuc, ltb, ◌==◌, ==_iff,
}
use cloudcomputing_lab2_http.Cstr.{Bytes, strcmp_eq}
use cloudcomputing_lab2_http.Cstr.Equal.{strcmp_eq_iff}
use cloudcomputing_lab2_http.Os.{
  Descriptor, closed, socket, file, Grant, accepts, refuses, Fd, World, lookup, insert, open_file,
  stat, close, read, write, dprintf, lseek, Whence, seek_cur, seek_end, seek_set, granted,
  save_file, update, slot, table_size, has_directory,
}
use cloudcomputing_lab2_http.Server.Send.Files.{update-here}
use cloudcomputing_lab2_http.Result.{Fault}
use cloudcomputing_lab2_http.Server.Rules.{AreOwn}
use cloudcomputing_lab2_http.Os.Keeps.{Gives, gives, Keeps, Any, faults}

-- `w` is behind `start` for a handler of `fd` that may change the files with `may`: the other
-- descriptors that were open and what was sent through them are the same, what was sent through
-- `fd` is still there, in front, and the other files are the same.
pub record IsApart (start : World) (fd : ℕ) (may : Bytes → Bool) (w : World) : Type 0 where
  pub others :
      (j : ℕ) → start.fds j ≢ closed → j ≢ fd → (w.fds j ≡ start.fds j) × (w.sent j ≡ start.sent j)
  pub appended : (text : Bytes) × (w.sent fd ≡ start.sent fd ++ text)
  pub kept : (path : Bytes) → may path ≡ false → lookup path w.files ≡ lookup path start.files

lookup-insert_ne :
    (path key contents : Bytes) (files : List (Bytes × Bytes))
    → strcmp_eq key path ≡ false
    → lookup path (insert key contents files) ≡ lookup path files
unfolding lookup insert
lookup-insert_ne path key contents [] h = rw h
lookup-insert_ne path key contents ((name, old) ∷ files) h =
    elim (Bool-cases (strcmp_eq name key)) [
      | inl e ↦
          let same : name ≡ key = (strcmp_eq_iff name key).0 e in
          let ne : strcmp_eq name path ≡ false = rw same h in rw (e, ne)
      | inr e ↦ rw e (
          ap (λ found. if strcmp_eq name path then some old else found)
            (lookup-insert_ne path key contents files h))
    ]

module _ (start : World) (fd : ℕ) (may : Bytes → Bool) where
  -- A descriptor that the handler may use: the connection's, or one that it opened.
  abbrev pub IsOwn : ℕ → Type 0
  IsOwn d = (d ≡ fd) ⊎ (start.fds d ≡ closed)

  -- Nothing is said of a fault.
  abbrev pub AnyFault : Fault → Type 0
  AnyFault e = Unit

  abbrev pub Apart : World → Type 0
  Apart = IsApart start fd may

  start-Apart : Apart start
  start-Apart = record {
    others = λ j h n. (refl, refl);
    appended = ([], sym (append-nil (start.sent fd)));
    kept = λ path h. refl;
  }

  -- A change of a descriptor of one's own, and of values that are not looked at.
  fds_change :
      (w : World) (d : ℕ) (v : Descriptor) (misuses : ℕ) (grants : List Grant)
      → IsOwn d
      → Apart w
      → Apart (record w { fds = update w.fds d v; misuses = misuses; grants = grants })
  fds_change w d v misuses grants own x = record {
    others = λ j h n. (ground (arith, x.others j h n, own), (x.others j h n).1);
    appended = x.appended;
    kept = x.kept;
  }

  same_fds :
      (w : World) (misuses : ℕ) (grants : List Grant)
      → Apart w
      → Apart (record w { misuses = misuses; grants = grants })
  same_fds w misuses grants x = record { others = x.others; appended = x.appended; kept = x.kept }

  sent_change :
      (w : World) (text : Bytes) (grants : List Grant)
      → Apart w
      → Apart (record w { sent = update w.sent fd (w.sent fd ++ text); grants = grants })
  sent_change w text grants x = record {
    others = λ j h n. ((x.others j h n).0, ground (arith, x.others j h n));
    appended =
        (let (t, e) = x.appended in
          (
            t ++ text,
            update-here w.sent fd (w.sent fd ++ text)
                ∙ ap (λ s. s ++ text) e
                ∙ append_assoc (start.sent fd) t text,
          ));
    kept = x.kept;
  }

  pub Keeps-dprintf : (text : Bytes) → Keeps AnyFault Apart Apart Any (dprintf fd text)
  unfolding dprintf
  Keeps-dprintf text = record { at = λ w x. go w x (w.fds fd) w.grants refl refl }
    where
      go :
          (w : World)
          → Apart w
          → (d : Descriptor) (grants : List Grant) → w.fds fd ≡ d
          → w.grants ≡ grants
          → Gives AnyFault Apart Any (dprintf fd text w)
      go w x closed gs e g = rw e (gives tt (same_fds w (w.misuses + 1) w.grants x))
      go w x (socket input) [] e g = rw (e, g) (gives tt (sent_change w text [] x))
      go w x (socket input) (accepts k ∷ gs) e g =
          rw (e, g) (gives tt (sent_change w text (accepts k ∷ gs) x))
      go w x (socket input) (refuses ∷ gs) e g = rw (e, g) (gives tt (same_fds w w.misuses gs x))
      go w x (file contents at) gs e g = rw e (gives tt x)

  pub Keeps-write : (bytes : Bytes) → Keeps AnyFault Apart Apart Any (write fd bytes)
  unfolding write
  Keeps-write bytes = record { at = λ w x. go w x (w.fds fd) w.grants refl refl }
    where
      go :
          (w : World)
          → Apart w
          → (d : Descriptor) (grants : List Grant) → w.fds fd ≡ d
          → w.grants ≡ grants
          → Gives AnyFault Apart Any (write fd bytes w)
      go w x closed gs e g = rw e (gives tt (same_fds w (w.misuses + 1) w.grants x))
      go w x (socket input) [] e g = rw (e, g) (gives tt (sent_change w bytes [] x))
      go w x (socket input) (accepts k ∷ gs) e g =
          rw (e, g) (gives tt (sent_change w (take (granted k (length bytes)) bytes) gs x))
      go w x (socket input) (refuses ∷ gs) e g = rw (e, g) (gives tt (same_fds w w.misuses gs x))
      go w x (file contents at) gs e g = rw e (gives tt x)

  pub Keeps-read : (d : Fd) (n : ℕ) → AreOwn IsOwn d → Keeps AnyFault Apart Apart Any (read d n)
  unfolding read
  Keeps-read none n own = record { at = λ w x. gives tt (same_fds w (w.misuses + 1) w.grants x) }
  Keeps-read (some d) n own = record { at = λ w x. go w x (w.fds d) refl }
    where
      go :
          (w : World)
          → Apart w
          → (v : Descriptor) → w.fds d ≡ v
          → Gives AnyFault Apart Any (read (some d) n w)
      go w x closed e = rw e (gives tt (same_fds w (w.misuses + 1) w.grants x))
      go w x (socket input) e =
          rw e (gives tt (fds_change w d (socket (drop n input)) w.misuses w.grants own x))
      go w x (file contents at) e = rw e (
          gives tt (
            fds_change w d (file contents (at + length (take n (drop at contents)))) w.misuses
              w.grants own x))

  pub Keeps-close : (d : Fd) → AreOwn IsOwn d → Keeps AnyFault Apart Apart Any (close d)
  unfolding close
  Keeps-close none own = record { at = λ w x. gives tt (same_fds w (w.misuses + 1) w.grants x) }
  Keeps-close (some d) own = record { at = λ w x. go w x (w.fds d) refl }
    where
      shut : (w : World) → Apart w → Apart (record w { fds = update w.fds d closed })
      shut w x = fds_change w d closed w.misuses w.grants own x

      go :
          (w : World)
          → Apart w
          → (v : Descriptor) → w.fds d ≡ v
          → Gives AnyFault Apart Any (close (some d) w)
      go w x closed e = rw e (gives tt (same_fds w (w.misuses + 1) w.grants x))
      go w x (socket input) e = rw e (gives tt (shut w x))
      go w x (file contents at) e = rw e (gives tt (shut w x))

  -- A number that the system gives was not open at the start, or is the connection's.
  slot-IsOwn : (w : World) → Apart w → slot w < table_size → IsOwn (slot w)
  slot-IsOwn w x room = elim (Bool-cases (slot w == fd)) [
    | inl e ↦ inl ((==_iff (slot w) fd).0 e)
    | inr e ↦ go (start.fds (slot w)) refl (ground (arith, ==_iff (slot w) fd))
  ]
    where
      go : (v : Descriptor) → start.fds (slot w) ≡ v → slot w ≢ fd → IsOwn (slot w)
      go closed s n = inr s
      go (socket input) s n =
          let same = (x.others (slot w) (ground (arith, s)) n).0 in
          absurd (ground (arith, s, same, slot-closed w room))
      go (file contents at) s n =
          let same = (x.others (slot w) (ground (arith, s)) n).0 in
          absurd (ground (arith, s, same, slot-closed w room))

  pub Keeps-open_file : (path : Bytes) → Keeps AnyFault Apart Apart (AreOwn IsOwn) (open_file path)
  unfolding open_file
  Keeps-open_file path = record { at = λ w x. go w x (lookup path w.files) refl }
    where
      go :
          (w : World)
          → Apart w
          → (found : Option Bytes) → lookup path w.files ≡ found
          → Gives AnyFault Apart (AreOwn IsOwn) (open_file path w)
      go w x none e = elim (Bool-cases (has_directory path w.directories)) [
        | inl there ↦ rw (e, there, open_file) (faults tt)
        | inr none_there ↦ rw (e, none_there, open_file) (gives tt x)
      ]
      go w x (some contents) e = elim (Bool-cases (ltb (slot w) table_size)) [
        | inl room ↦
            let own = slot-IsOwn w x (ground arith) in
            rw (e, room, open_file)
              (gives own (fds_change w (slot w) (file contents 0) w.misuses w.grants own x))
        | inr full ↦ rw (e, full, open_file) (gives tt x)
      ]

  pub Keeps-stat : (path : Bytes) → Keeps AnyFault Apart Apart Any (stat path)
  unfolding stat
  Keeps-stat path = record { at = λ w x. go w x (lookup path w.files) refl }
    where
      go :
          (w : World)
          → Apart w
          → (found : Option Bytes) → lookup path w.files ≡ found
          → Gives AnyFault Apart Any (stat path w)
      go w x none e = rw (e, stat) (gives tt x)
      go w x (some contents) e = rw (e, stat) (gives tt x)

  pub Keeps-lseek :
      (d : Fd) (whence : Whence) → AreOwn IsOwn d → Keeps AnyFault Apart Apart Any (lseek d whence)
  unfolding lseek
  Keeps-lseek none whence own = record {
    at = λ w x. gives tt (same_fds w (w.misuses + 1) w.grants x);
  }
  Keeps-lseek (some d) whence own = record { at = λ w x. go w x whence (w.fds d) refl }
    where
      moved :
          (w : World)
          → Apart w
          → (contents : Bytes) (at : ℕ)
          → Apart (record w { fds = update w.fds d (file contents at) })
      moved w x contents at = fds_change w d (file contents at) w.misuses w.grants own x

      go :
          (w : World)
          → Apart w
          → (whence : Whence) (v : Descriptor) → w.fds d ≡ v
          → Gives AnyFault Apart Any (lseek (some d) whence w)
      go w x whence closed e = rw e (gives tt (same_fds w (w.misuses + 1) w.grants x))
      go w x whence (socket input) e = rw e (gives tt x)
      go w x seek_cur (file contents at) e = rw e (gives tt (moved w x contents at))
      go w x seek_end (file contents at) e = rw e (gives tt (moved w x contents (length contents)))
      go w x (seek_set (pos p)) (file contents at) e = rw e (gives tt (moved w x contents p))
      go w x (seek_set (negsuc p)) (file contents at) e = rw e (gives tt x)

  pub Keeps-save_file :
      (path contents : Bytes)
      → ((other : Bytes) → may other ≡ false → strcmp_eq path other ≡ false)
      → Keeps AnyFault Apart Apart Any (save_file path contents)
  unfolding save_file
  Keeps-save_file path contents allowed = record {
    at = λ w x. gives tt (record {
      others = x.others;
      appended = x.appended;
      kept = λ other h.
          lookup-insert_ne other path contents w.files (allowed other h) ∙ x.kept other h;
    });
  }
