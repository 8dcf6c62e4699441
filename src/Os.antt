-- ===== src/Os.antt =====
-- The operating system as the program sees it: descriptors, the bytes that were sent through them,
-- and files. The environment decides how much each `write` takes, by the schedule `grants`.
pub mod Keeps
pub mod Slots
use cloudcomputing_lab2_http.Prelude.{
  ℕ, ◌+◌, min, Bool, true, false, Option, none, some, List, [], ◌∷◌, ◌++◌, ltb, ◌==◌, if◌then◌else◌,
  length, take, drop, ℤ, pos, negsuc, zero, suc,
}
use cloudcomputing_lab2_http.Result.{Result, ok, fault, Fault, out_of_bounds}
use cloudcomputing_lab2_http.Cstr.{Bytes, strcmp_eq}

-- A socket holds what the peer sends before it ends its side and the program has not read yet: `read`
-- waits for it, and gives no byte only when all of it was read.
pub data Descriptor : Type 0 where
  closed : Descriptor
  socket : Bytes → Descriptor
  file : Bytes → ℕ → Descriptor

-- How the next `write` ends: it takes some bytes, or it fails.
pub data Grant : Type 0 where
  accepts : ℕ → Grant
  refuses : Grant

-- The result of `open`, -1 being `none`.
abbrev pub Fd : Type 0
Fd = Option ℕ

-- A call on a descriptor that is not open fails, and is counted in `misuses`.
pub record World : Type 0 where
  pub fds : ℕ → Descriptor
  pub sent : ℕ → Bytes
  pub files : List (Bytes × Bytes)
  pub directories : List Bytes
  pub grants : List Grant
  pub misuses : ℕ

abbrev pub update : {A : Type 0} → (ℕ → A) → ℕ → A → ℕ → A
update f k v j = if j == k then v else f j

-- How many descriptors a process may have.
abbrev pub table_size : ℕ
table_size = 1024

abbrev is_closed : Descriptor → Bool
is_closed closed = true
is_closed (socket input) = false
is_closed (file contents at) = false

first_closed : ℕ → (ℕ → Descriptor) → ℕ → ℕ
first_closed zero fds i = i
first_closed (suc k) fds i = elim (is_closed (fds i)) [
  | true ↦ i
  | false ↦ first_closed k fds (i + 1)
]

-- The lowest number that is not open, which is what the system gives.
unfoldable pub lowest : (ℕ → Descriptor) → ℕ
unfolding first_closed
lowest fds = first_closed table_size fds 0

abbrev pub slot : World → ℕ
slot w = lowest w.fds

abbrev pub Io : Type 0 → Type 0
Io A = World → Result (A × World)

abbrev pub pure : {A : Type 0} → A → Io A
pure a w = ok (a, w)

abbrev pub fail : {A : Type 0} → Fault → Io A
fail e w = fault e

infixl 5 ◌>>=◌ ◌>>◌
abbrev pub ◌>>=◌ : {A B : Type 0} → Io A → (A → Io B) → Io B
◌>>=◌ m f w = elim (m w) [ ok (a, w') ↦ f a w' | fault e ↦ fault e ]

abbrev pub ◌>>◌ : {B : Type 0} → Io (Unit {0}) → Io B → Io B
m >> k = m >>= λ _. k

abbrev pub lift : {A : Type 0} → Result A → Io A
lift (ok a) w = ok (a, w)
lift (fault e) w = fault e

abbrev pub misuse : World → World
misuse w = record w { misuses = w.misuses + 1 }

unfoldable pub lookup : Bytes → List (Bytes × Bytes) → Option Bytes
lookup path [] = none
lookup path ((name, contents) ∷ fs) = if strcmp_eq name path then some contents else lookup path fs

unfoldable pub has_directory : Bytes → List Bytes → Bool
has_directory path [] = false
has_directory path (name ∷ names) =
    let rest = has_directory path names in if strcmp_eq name path then true else rest

-- A new descriptor, or -1 if the process has no number left.
abbrev pub give : Descriptor → Io Fd
give d w =
    if ltb (slot w) table_size
    then ok (some (slot w), record w { fds = update w.fds (slot w) d })
    else ok (none, w)

-- open(path, O_RDONLY). A directory is opened too, and `read` of it gives -1, which httpserver.c passes
-- on as a size: the run is not followed further.
unfoldable pub open_file : Bytes → Io Fd
open_file path w = elim (lookup path w.files) [
  | none ↦ if has_directory path w.directories then fault out_of_bounds else ok (none, w)
  | some contents ↦ give (file contents 0) w
]

-- stat(path, &sb) == 0, for a file and for a directory.
unfoldable pub stat : Bytes → Io Bool
stat path w = elim (lookup path w.files) [
  | none ↦ ok (has_directory path w.directories, w)
  | some contents ↦ ok (true, w)
]

close_in : Descriptor → ℕ → World → World
close_in closed fd w = misuse w
close_in (socket input) fd w = record w { fds = update w.fds fd closed }
close_in (file contents at) fd w = record w { fds = update w.fds fd closed }

unfoldable pub close : Fd → Io (Unit {0})
unfolding close_in
close none w = ok (tt, misuse w)
close (some fd) w = ok (tt, close_in (w.fds fd) fd w)

read_in : Descriptor → ℕ → ℕ → World → Result (Option Bytes × World)
read_in closed fd n w = ok (none, misuse w)
read_in (socket input) fd n w =
    ok (some (take n input), record w { fds = update w.fds fd (socket (drop n input)) })
read_in (file contents at) fd n w =
    let bytes = take n (drop at contents) in
    ok (some bytes, record w { fds = update w.fds fd (file contents (at + length bytes)) })

-- read(fd, buf, n): the bytes that it puts into the buffer, or -1.
unfoldable pub read : Fd → ℕ → Io (Option Bytes)
unfolding read_in
read none n w = ok (none, misuse w)
read (some fd) n w = read_in (w.fds fd) fd n w

-- As many bytes as the schedule says, but one at least and no more than there are.
abbrev pub granted : ℕ → ℕ → ℕ
granted k size = if ltb k 1 then min 1 size else min k size

write_in : Descriptor → List Grant → ℕ → Bytes → World → Result (Option ℕ × World)
write_in (socket input) [] fd bytes w =
    ok (some (length bytes), record w { sent = update w.sent fd (w.sent fd ++ bytes) })
write_in (socket input) (accepts k ∷ gs) fd bytes w =
    let n = granted k (length bytes) in
    ok (some n, record w { sent = update w.sent fd (w.sent fd ++ take n bytes); grants = gs })
write_in (socket input) (refuses ∷ gs) fd bytes w = ok (none, record w { grants = gs })
write_in (file contents at) gs fd bytes w = ok (none, w)
write_in closed gs fd bytes w = ok (none, misuse w)

-- write(fd, buf, n) on the `n` bytes of the buffer: how many were taken, or -1.
unfoldable pub write : ℕ → Bytes → Io (Option ℕ)
unfolding write_in
write fd bytes w = write_in (w.fds fd) w.grants fd bytes w

dprintf_in : Descriptor → List Grant → ℕ → Bytes → World → World
dprintf_in closed gs fd text w = misuse w
dprintf_in (socket input) (refuses ∷ gs) fd text w = record w { grants = gs }
dprintf_in (socket input) (accepts k ∷ gs) fd text w = record w {
  sent = update w.sent fd (w.sent fd ++ text);
}
dprintf_in (socket input) [] fd text w = record w { sent = update w.sent fd (w.sent fd ++ text) }
dprintf_in (file contents at) gs fd text w = w

-- dprintf(fd, format, …), by the text that the format gives; the source ignores its result. If the
-- next write fails nothing goes out, else the library writes until all of the text went out.
unfoldable pub dprintf : ℕ → Bytes → Io (Unit {0})
unfolding dprintf_in
dprintf fd text w = ok (tt, dprintf_in (w.fds fd) w.grants fd text w)

-- lseek(fd, 0, SEEK_CUR), lseek(fd, 0, SEEK_END) and lseek(fd, offset, SEEK_SET)
pub data Whence : Type 0 where
  seek_cur seek_end : Whence
  seek_set : ℤ → Whence

-- The new position in a file of a size, which an offset below 0 does not give.
abbrev pub target : Whence → ℕ → ℕ → Option ℕ
target seek_cur size at = some at
target seek_end size at = some size
target (seek_set (pos p)) size at = some p
target (seek_set (negsuc p)) size at = none

seek_in : Descriptor → ℕ → Whence → World → Result (Option ℕ × World)
seek_in closed fd whence w = ok (none, misuse w)
seek_in (socket input) fd whence w = ok (none, w)
seek_in (file contents at) fd whence w = elim (target whence (length contents) at) [
  | none ↦ ok (none, w)
  | some at' ↦ ok (some at', record w { fds = update w.fds fd (file contents at') })
]

-- The offset that it returns, or -1.
unfoldable pub lseek : Fd → Whence → Io (Option ℕ)
unfolding seek_in
lseek none whence w = ok (none, misuse w)
lseek (some fd) whence w = seek_in (w.fds fd) fd whence w

unfoldable pub insert : Bytes → Bytes → List (Bytes × Bytes) → List (Bytes × Bytes)
insert path contents [] = (path, contents) ∷ []
insert path contents ((name, old) ∷ fs) =
    if strcmp_eq name path then (name, contents) ∷ fs else (name, old) ∷ insert path contents fs

-- fopen(path, "w"), fwrite and fclose: the file holds the bytes and nothing else.
unfoldable pub save_file : Bytes → Bytes → Io (Unit {0})
unfolding insert
save_file path contents w = ok (tt, record w { files = insert path contents w.files })

-- accept(…): the descriptor of a client, by what the client sends, or -1.
unfoldable pub accept : Option Bytes → Io Fd
accept none w = ok (none, w)
accept (some input) w = give (socket input) w

-- socket(PF_INET, SOCK_STREAM, 0), by whether the system gives one.
unfoldable pub open_socket : Bool → Io Fd
open_socket false w = ok (none, w)
open_socket true w = give (socket []) w
