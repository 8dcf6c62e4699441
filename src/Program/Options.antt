-- ===== src/Program/Options.antt =====
-- The command line, as `main` of httpserver.c reads it.
pub mod Written
pub mod Selected
use cloudcomputing_lab2_http.Prelude.{
  ◌+◌, Bool, false, Option, none, some, List, [], ◌∷◌, ltb, if◌then◌else◌, take, drop, ℤ, pos,
  negsuc,
}
use cloudcomputing_lab2_http.Result.{Result, ok, fault, exit, ◌>>=◌}
use cloudcomputing_lab2_http.Cstr.{Bytes, codes, strcmp_eq, strchr}
use cloudcomputing_lab2_http.Cstr.Number.{atoi}

pub data Kind : Type 0 where
  files_option proxy_option port_option threads_option ip_option help_option unknown_option : Kind

pub data RequestHandler : Type 0 where
  handles_files handles_proxy : RequestHandler

-- The variables that the options set, NULL being `none`.
pub record Options : Type 0 where
  pub request_handler : Option RequestHandler
  pub server_files_directory : Option Bytes
  pub server_proxy_address : Option Bytes
  pub server_proxy_port : ℤ
  pub server_port : ℤ
  pub num_threads : ℤ

-- exit(EXIT_SUCCESS), which is 0.
unfoldable pub exit_with_usage : {A : Type 0} → Result A
exit_with_usage = fault (exit 0)

unfoldable pub kind_of : Bytes → Kind
kind_of arg =
    if strcmp_eq (codes "--files") arg
    then files_option
    else if strcmp_eq (codes "--proxy") arg
    then proxy_option
    else if strcmp_eq (codes "--port") arg
    then port_option
    else if strcmp_eq (codes "--threads") arg
    then threads_option
    else if strcmp_eq (codes "--help") arg
    then help_option
    else if strcmp_eq (codes "--ip") arg
    then ip_option
    else unknown_option

-- The address before the first colon, and the port behind it.
unfoldable pub set_proxy : Bytes → Options → Result Options
set_proxy proxy_target o = elim (strchr proxy_target b':') [
  | none ↦ ok (record o {
    request_handler = some handles_proxy;
    server_proxy_address = some proxy_target;
    server_proxy_port = pos 80;
  })
  | some i ↦ elim (atoi (drop (i + 1) proxy_target)) [
    | fault e ↦ fault e
    | ok port ↦ ok (record o {
      request_handler = some handles_proxy;
      server_proxy_address = some (take i proxy_target);
      server_proxy_port = port;
    })
  ]
]

abbrev is_positive : ℤ → Bool
is_positive (pos n) = ltb 0 n
is_positive (negsuc n) = false

unfoldable pub set_threads : Bytes → Options → Result Options
unfolding exit_with_usage
set_threads num_threads_str o = elim (atoi num_threads_str) [
  | fault e ↦ fault e
  | ok n ↦ if is_positive n then ok (record o { num_threads = n }) else exit_with_usage
]

unfoldable pub set_port : Bytes → Options → Result Options
set_port server_port_string o = elim (atoi server_port_string) [
  | fault e ↦ fault e
  | ok n ↦ ok (record o { server_port = n })
]

-- An option with the argument behind it. The one of "--ip" is read and not used.
unfoldable pub set_option : Kind → Bytes → Options → Result Options
unfolding set_proxy set_threads set_port exit_with_usage
set_option files_option value o =
    ok (record o { request_handler = some handles_files; server_files_directory = some value })
set_option proxy_option value o = set_proxy value o
set_option port_option value o = set_port value o
set_option threads_option value o = set_threads value o
set_option ip_option value o = ok o
set_option help_option value o = exit_with_usage
set_option unknown_option value o = exit_with_usage

-- An option behind which there is no argument: `argv` ends in NULL.
unfoldable pub last_option : Kind → Options → Result Options
unfolding exit_with_usage
last_option ip_option o = ok o
last_option _ o = exit_with_usage

-- The loop over the arguments, with the names of the options. Every option that goes on takes two.
unfoldable pub option_loop : (Bytes → Kind) → List Bytes → Options → Result Options
unfolding set_option last_option
option_loop names [] o = ok o
option_loop names (arg ∷ []) o = last_option (names arg) o
option_loop names (arg ∷ value ∷ args) o = set_option (names arg) value o >>= option_loop names args

-- The settings before the loop. `num_threads` and the port of the proxy are 0 from the start.
abbrev pub default_options : Options
default_options = record {
  request_handler = some handles_files;
  server_files_directory = some (codes "static");
  server_proxy_address = none;
  server_proxy_port = pos 0;
  server_port = pos 8080;
  num_threads = pos 0;
}

-- The options from the arguments behind the program's name.
unfoldable pub read_options : List Bytes → Result Options
unfolding option_loop kind_of
read_options args = option_loop kind_of args default_options
