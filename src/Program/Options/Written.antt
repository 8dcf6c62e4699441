-- ===== src/Program/Options/Written.antt =====
-- Options that are written as arguments are read back.
use cloudcomputing_lab2_http.Prelude.{
  ℕ, ◌^◌, ◌<◌, ◌≡◌, refl, some, List, [], ◌∷◌, ◌++◌, arith, take-append, ℤ, pos, drop-suc-append,
  All,
}
use cloudcomputing_lab2_http.Result.{ok}
use cloudcomputing_lab2_http.Cstr.{Bytes, codes, decimal, strcmp_eq}
use cloudcomputing_lab2_http.Cstr.Number.{atoi, atoi-decimal}
use cloudcomputing_lab2_http.Cstr.Search.{Lacks, strchr-append, strchr-Lacks}
use cloudcomputing_lab2_http.Program.Options.{
  handles_files, handles_proxy, Options, kind_of, set_proxy, set_option, option_loop,
  default_options, read_options,
}

-- What an operator may ask for.
pub data Choice : Type 0 where
  files : Bytes → Choice
  proxy : (address : Bytes) (port : ℕ) → Choice
  proxy_without_port : (address : Bytes) → Choice
  port : ℕ → Choice
  threads : ℕ → Choice
  ip : Bytes → Choice

abbrev pub IsInt : ℕ → Type 0
IsInt n = n < 2 ^ 31

-- Numbers of an int, one thread at least, and addresses without a colon.
abbrev pub IsChoice : Choice → Type 0
IsChoice (files directory) = Unit
IsChoice (proxy address n) = Lacks b':' address × IsInt n
IsChoice (proxy_without_port address) = Lacks b':' address
IsChoice (port n) = IsInt n
IsChoice (threads n) = (0 < n) × IsInt n
IsChoice (ip address) = Unit

abbrev pub name : Choice → Bytes
name (files directory) = codes "--files"
name (proxy address n) = codes "--proxy"
name (proxy_without_port address) = codes "--proxy"
name (port n) = codes "--port"
name (threads n) = codes "--threads"
name (ip address) = codes "--ip"

abbrev pub value : Choice → Bytes
value (files directory) = directory
value (proxy address n) = address ++ b':' ∷ decimal n
value (proxy_without_port address) = address
value (port n) = decimal n
value (threads n) = decimal n
value (ip address) = address

-- What it means. The address of "--ip" has no effect.
abbrev pub chosen : Choice → Options → Options
chosen (files directory) o = record o {
  request_handler = some handles_files;
  server_files_directory = some directory;
}
chosen (proxy address n) o = record o {
  request_handler = some handles_proxy;
  server_proxy_address = some address;
  server_proxy_port = pos n;
}
chosen (proxy_without_port address) o = record o {
  request_handler = some handles_proxy;
  server_proxy_address = some address;
  server_proxy_port = pos 80;
}
chosen (port n) o = record o { server_port = pos n }
chosen (threads n) o = record o { num_threads = pos n }
chosen (ip address) o = o

abbrev pub written : List Choice → List Bytes
written [] = []
written (c ∷ cs) = name c ∷ value c ∷ written cs

abbrev pub chosen_all : List Choice → Options → Options
chosen_all [] o = o
chosen_all (c ∷ cs) o = chosen_all cs (chosen c o)

set_proxy-colon :
    (address rest : Bytes) (o : Options) (n : ℤ)
    → Lacks b':' address
    → atoi rest ≡ ok n
    → set_proxy (address ++ b':' ∷ rest) o
      ≡ ok (record o {
        request_handler = some handles_proxy;
        server_proxy_address = some address;
        server_proxy_port = n;
      })
unfolding set_proxy
set_proxy-colon address rest o n l e = ground (
  arith,
  strchr-append address rest b':' l,
  take-append address (b':' ∷ rest),
  drop-suc-append address b':' rest,
)

set_choice :
    (c : Choice) (o : Options)
    → IsChoice c
    → set_option (kind_of (name c)) (value c) o ≡ ok (chosen c o)
unfolding set_option kind_of strcmp_eq
set_choice (files directory) o h = refl
set_choice (proxy address n) o h =
    set_proxy-colon address (decimal n) o (pos n) h.0 (atoi-decimal n h.1)
set_choice (proxy_without_port address) o h = ground (arith, strchr-Lacks address b':' h)
set_choice (port n) o h = ground (arith, atoi-decimal n h)
set_choice (threads n) o h = ground (arith, atoi-decimal n h.1)
set_choice (ip address) o h = refl

option_loop-written :
    (cs : List Choice) (o : Options)
    → All IsChoice cs
    → option_loop kind_of (written cs) o ≡ ok (chosen_all cs o)
unfolding option_loop
option_loop-written [] o h = refl
option_loop-written (c ∷ cs) o h = rw (set_choice c o h.0) (option_loop-written cs (chosen c o) h.1)

-- Any list of choices, written as arguments, is read back: each takes effect in order over the
-- defaults, a later one over an earlier one. Numbers are those of an int, a number of threads is not
-- 0, an address of a proxy has no colon, and its port is 80 if none is written.
pub read_options-written :
    (cs : List Choice)
    → All IsChoice cs
    → read_options (written cs) ≡ ok (chosen_all cs default_options)
unfolding read_options
read_options-written cs h = option_loop-written cs default_options h

-- The address of a proxy with a scheme, as the README writes it: the scheme is taken for the address,
-- and the port is 0, whatever follows.
pub read_options-scheme :
    (scheme rest : Bytes)
    → Lacks b':' scheme
    → read_options (codes "--proxy" ∷ (scheme ++ b':' ∷ b'/' ∷ rest) ∷ [])
      ≡ ok (record default_options {
        request_handler = some handles_proxy;
        server_proxy_address = some scheme;
        server_proxy_port = pos 0;
      })
unfolding read_options atoi set_option strcmp_eq
read_options-scheme scheme rest l =
    rw (set_proxy-colon scheme (b'/' ∷ rest) default_options (pos 0) l refl)
