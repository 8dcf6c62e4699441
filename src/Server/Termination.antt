-- ===== src/Server/Termination.antt =====
-- `handle_request` of httpserver.c ends: the fuel of the model is enough.
pub mod Loops
pub mod Requests
use cloudcomputing_lab2_http.Prelude.{
  ℕ, ◌+◌, ◌≤◌, ◌<◌, ◌≡◌, refl, sym, ap, ◌∙◌, ◌≢◌, ◌⊎◌, inl, inr, Option, none, some, List, arith,
  length, take, drop, length-take, length-drop, pos, negsuc, Bool-cases, ltb, [], ◌∷◌,
}
use cloudcomputing_lab2_http.Result.{Fault, ok, out_of_fuel, out_of_bounds}
use cloudcomputing_lab2_http.Cstr.{Bytes}
use cloudcomputing_lab2_http.Os.{
  Descriptor, closed, socket, file, World, Fd, Grant, update, misuse, lookup, read, close,
  open_file, stat, lseek, Whence, seek_cur, seek_end, seek_set, dprintf, slot, accepts, refuses,
  has_directory, table_size,
}
use cloudcomputing_lab2_http.Os.Keeps.{Gives, gives, Keeps, Any, faults}

-- How many bytes a descriptor holds in all, and how many are behind its position.
abbrev pub size : Descriptor → ℕ
size closed = 0
size (socket input) = length input
size (file contents at) = length contents

abbrev pub left : Descriptor → ℕ
left closed = 0
left (socket input) = length input
left (file contents at) = length (drop at contents)

-- Every descriptor and every file holds fewer bytes than the fuel.
pub record IsBelow (fuel : ℕ) (w : World) : Type 0 where
  pub descriptors : (d : ℕ) → size (w.fds d) < fuel
  pub contents : (path text : Bytes) → lookup path w.files ≡ some text → length text < fuel

pub out_of_bounds_ne : out_of_bounds ≢ out_of_fuel
out_of_bounds_ne = λ e. absurd (ground arith)

abbrev pub NoLoop : Fault → Type 0
NoLoop e = e ≢ out_of_fuel

left_le : (v : Descriptor) → left v ≤ size v
left_le closed = omega arith
left_le (socket input) = omega arith
left_le (file contents at) = omega (arith, length-drop {0} at contents)

-- What `read` does on a descriptor that is open: it gives bytes that are no longer left.
pub read_cases :
    (w : World) (d n : ℕ)
    → (read (some d) n w ≡ ok (none, misuse w))
      ⊎ ((bytes : Bytes) × (v : Descriptor) × (read (some d) n w
            ≡ ok (some bytes, record w { fds = update w.fds d v }))
          × (size v ≤ size (w.fds d))
          × (length bytes + left v ≤ left (w.fds d)))
unfolding read
read_cases w d n = go (w.fds d) refl
  where
    go :
        (v : Descriptor)
        → w.fds d ≡ v
        → (read (some d) n w ≡ ok (none, misuse w))
          ⊎ ((bytes : Bytes) × (v' : Descriptor) × (read (some d) n w
                ≡ ok (some bytes, record w { fds = update w.fds d v' }))
              × (size v' ≤ size v)
              × (length bytes + left v' ≤ left v))
    go closed e = inl (rw e refl)
    go (socket input) e = inr (
      take n input,
      socket (drop n input),
      rw e refl,
      omega (arith, length-drop {0} n input),
      omega (arith, length-drop {0} n input, length-take {0} n input),
    )
    go (file contents at) e =
        let bytes = take n (drop at contents) in
        inr (
          bytes,
          file contents (at + length bytes),
          rw e refl,
          omega arith,
          omega (
            arith,
            length-drop {0} (at + length bytes) contents,
            length-drop {0} at contents,
            length-take {0} n (drop at contents),
          ),
        )

module _ (fuel : ℕ) where
  abbrev pub Below : World → Type 0
  Below = IsBelow fuel

  pub Below-update :
      (w : World) (d : ℕ) (v : Descriptor) (misuses : ℕ) (grants : List Grant)
      → size v < fuel
      → Below w
      → Below (record w { fds = update w.fds d v; misuses = misuses; grants = grants })
  Below-update w d v misuses grants small p = record {
    descriptors = λ j. ground (arith, p.descriptors j);
    contents = p.contents;
  }

  -- The predicate does not look at what was sent.
  pub Below-same : (w w' : World) → w'.fds ≡ w.fds → w'.files ≡ w.files → Below w → Below w'
  Below-same w w' f g p = record {
    descriptors = λ j. ground (arith, p.descriptors j, ap (λ fds. fds j) f);
    contents = λ path text e. p.contents path text (ap (lookup path) (sym g) ∙ e);
  }

  pub Below-read : (d : Fd) (n : ℕ) → Keeps NoLoop Below Below Any (read d n)
  unfolding read
  Below-read none n = record { at = λ w p. gives tt (Below-same w (misuse w) refl refl p) }
  Below-read (some d) n = record {
    at = λ w p. elim (read_cases w d n) [
      | inl e ↦ rw e (gives tt (Below-same w (misuse w) refl refl p))
      | inr (bytes, v, e, small, less) ↦
          rw e (gives tt (Below-update w d v w.misuses w.grants (omega (arith, p.descriptors d)) p))
    ];
  }

  pub Below-dprintf : (fd : ℕ) (text : Bytes) → Keeps NoLoop Below Below Any (dprintf fd text)
  unfolding dprintf
  Below-dprintf fd text = record { at = λ w p. go w p (w.fds fd) w.grants refl refl }
    where
      go :
          (w : World)
          → Below w
          → (v : Descriptor) (grants : List Grant) → w.fds fd ≡ v
          → w.grants ≡ grants
          → Gives NoLoop Below Any (dprintf fd text w)
      go w p closed gs e g = rw e (gives tt (Below-same w (misuse w) refl refl p))
      go w p (socket input) [] e g = rw (e, g) (gives tt (Below-same w _ refl refl p))
      go w p (socket input) (accepts k ∷ gs) e g = rw (e, g) (gives tt (Below-same w _ refl refl p))
      go w p (socket input) (refuses ∷ gs) e g = rw (e, g) (gives tt (Below-same w _ refl refl p))
      go w p (file contents at) gs e g = rw e (gives tt p)

  pub Below-close : (d : Fd) → Keeps NoLoop Below Below Any (close d)
  unfolding close
  Below-close none = record { at = λ w p. gives tt (Below-same w (misuse w) refl refl p) }
  Below-close (some d) = record { at = λ w p. go w p (w.fds d) refl }
    where
      shut : (w : World) → Below w → Below (record w { fds = update w.fds d closed })
      shut w p = Below-update w d closed w.misuses w.grants (omega (arith, p.descriptors d)) p

      go :
          (w : World)
          → Below w
          → (v : Descriptor) → w.fds d ≡ v
          → Gives NoLoop Below Any (close (some d) w)
      go w p closed e = rw e (gives tt (Below-same w (misuse w) refl refl p))
      go w p (socket input) e = rw e (gives tt (shut w p))
      go w p (file contents at) e = rw e (gives tt (shut w p))

  pub Below-open_file :
      {Q : Fd → Type 0} (path : Bytes)
      → ((d : Fd) → Q d)
      → Keeps NoLoop Below Below Q (open_file path)
  unfolding open_file
  Below-open_file {Q = Q} path all = record { at = λ w p. go w p (lookup path w.files) refl }
    where
      go :
          (w : World)
          → Below w
          → (found : Option Bytes) → lookup path w.files ≡ found
          → Gives NoLoop Below Q (open_file path w)
      go w p none e = elim (Bool-cases (has_directory path w.directories)) [
        | inl there ↦ rw (e, there, open_file) (faults (λ q. out_of_bounds_ne q))
        | inr none_there ↦ rw (e, none_there, open_file) (gives (all none) p)
      ]
      go w p (some contents) e = elim (Bool-cases (ltb (slot w) table_size)) [
        | inl room ↦
            rw (e, room, open_file)
              (gives (all (some (slot w))) (
                Below-update w (slot w) (file contents 0) w.misuses w.grants
                  (p.contents path contents e) p))
        | inr full ↦ rw (e, full, open_file) (gives (all none) p)
      ]

  pub Below-stat : (path : Bytes) → Keeps NoLoop Below Below Any (stat path)
  unfolding stat
  Below-stat path = record { at = λ w p. go w p (lookup path w.files) refl }
    where
      go :
          (w : World)
          → Below w
          → (found : Option Bytes) → lookup path w.files ≡ found
          → Gives NoLoop Below Any (stat path w)
      go w p none e = rw (e, stat) (gives tt p)
      go w p (some contents) e = rw (e, stat) (gives tt p)

  pub Below-lseek : (d : Fd) (whence : Whence) → Keeps NoLoop Below Below Any (lseek d whence)
  unfolding lseek
  Below-lseek none whence = record { at = λ w p. gives tt (Below-same w (misuse w) refl refl p) }
  Below-lseek (some d) whence = record { at = λ w p. go w p whence (w.fds d) refl }
    where
      moved :
          (w : World)
          → Below w
          → (contents : Bytes) (at : ℕ) → length contents < fuel
          → Below (record w { fds = update w.fds d (file contents at) })
      moved w p contents at small = Below-update w d (file contents at) w.misuses w.grants small p

      held :
          (w : World)
          → Below w
          → (contents : Bytes) (at : ℕ) → w.fds d ≡ file contents at
          → length contents < fuel
      held w p contents at e = ground (arith, p.descriptors d, ap size e)

      go :
          (w : World)
          → Below w
          → (whence : Whence) (v : Descriptor) → w.fds d ≡ v
          → Gives NoLoop Below Any (lseek (some d) whence w)
      go w p whence closed e = rw e (gives tt (Below-same w (misuse w) refl refl p))
      go w p whence (socket input) e = rw e (gives tt p)
      go w p seek_cur (file contents at) e =
          rw e (gives tt (moved w p contents at (held w p contents at e)))
      go w p seek_end (file contents at) e =
          rw e (gives tt (moved w p contents (length contents) (held w p contents at e)))
      go w p (seek_set (pos q)) (file contents at) e =
          rw e (gives tt (moved w p contents q (held w p contents at e)))
      go w p (seek_set (negsuc q)) (file contents at) e = rw e (gives tt p)
