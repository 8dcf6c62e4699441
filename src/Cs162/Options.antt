-- ===== src/Cs162/Options.antt =====
-- The command line, as `main` of CS162-httpserver.c reads it: the loop is that of httpserver.c, but for
-- the names of the options, the settings before it and the test behind it.
use cloudcomputing_lab2_http.Prelude.{
  ◌≡◌, refl, true, not, ◌&&◌, none, List, arith, if◌then◌else◌, pos,
}
use cloudcomputing_lab2_http.Result.{Result, ok, fault, ◌>>=◌}
use cloudcomputing_lab2_http.Cstr.{Bytes, codes, strcmp_eq}
use cloudcomputing_lab2_http.Program.Options.{
  Kind, files_option, proxy_option, port_option, threads_option, help_option, unknown_option,
  Options, exit_with_usage, option_loop,
}
use cloudcomputing_lab2_http.Program.Options.Selected.{is_set, selected, option_loop-selected}

unfoldable pub option_of : Bytes → Kind
option_of arg =
    if strcmp_eq (codes "--files") arg
    then files_option
    else if strcmp_eq (codes "--proxy") arg
    then proxy_option
    else if strcmp_eq (codes "--port") arg
    then port_option
    else if strcmp_eq (codes "--num-threads") arg
    then threads_option
    else if strcmp_eq (codes "--help") arg
    then help_option
    else unknown_option

-- The settings before the loop: nothing is served yet.
abbrev pub unset_options : Options
unset_options = record {
  request_handler = none;
  server_files_directory = none;
  server_proxy_address = none;
  server_proxy_port = pos 0;
  server_port = pos 8000;
  num_threads = pos 0;
}

-- `if (server_files_directory == NULL && server_proxy_hostname == NULL)`
unfoldable pub check_options : Options → Result Options
check_options o =
    if not (is_set o.server_files_directory) && not (is_set o.server_proxy_address)
    then exit_with_usage
    else ok o

unfoldable pub read_file_options : List Bytes → Result Options
unfolding option_of check_options
read_file_options args = option_loop option_of args unset_options >>= check_options

check_options-selected :
    (o o' : Options)
    → check_options o ≡ ok o'
    → selected o ≡ true
    → is_set o'.request_handler ≡ true
unfolding check_options exit_with_usage
check_options-selected o o' e s = ground arith

-- Whatever the arguments are, `main` that goes on to serve has a handler of requests, and does not
-- call NULL.
pub read_file_options-selected :
    (args : List Bytes) (o : Options)
    → read_file_options args ≡ ok o
    → is_set o.request_handler ≡ true
unfolding read_file_options
read_file_options-selected args o e = go (option_loop option_of args unset_options) refl e
  where
    go :
        (r : Result Options)
        → option_loop option_of args unset_options ≡ r
        → (r >>= check_options) ≡ ok o
        → is_set o.request_handler ≡ true
    go (ok o1) h e =
        check_options-selected o1 o e (option_loop-selected option_of args unset_options o1 h refl)
    go (fault reason) h e = absurd (ground arith)
