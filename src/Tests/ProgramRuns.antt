-- ===== src/Tests/ProgramRuns.antt =====
-- The programs' command lines and loops at concrete inputs.
use cloudcomputing_lab2_http.Prelude.{◌≡◌, refl, inl, true, some, List, [], ◌∷◌, arith, ℤ, pos, All}
use cloudcomputing_lab2_http.Result.{ok, fault, invalid_argument}
use cloudcomputing_lab2_http.Cstr.{codes, strcmp_eq}
use cloudcomputing_lab2_http.Program.Options.{
  Options, handles_files, default_options, read_options, option_loop,
}
use cloudcomputing_lab2_http.Program.Options.Written.{
  Choice, IsChoice, files, proxy, port, threads, ip, written, chosen_all, read_options-written,
}
use cloudcomputing_lab2_http.Program.Accept.{refused, accepted, Network, serve_forever}
use cloudcomputing_lab2_http.Program.Accept.Starts.{arriving, Listens, serve_forever-refused}
use cloudcomputing_lab2_http.Cs162.Options.{read_file_options, unset_options}

abbrev choices : List Choice
choices =
    port 80 ∷ proxy (codes "up") 81 ∷ ip (codes "1.2.3.4") ∷ threads 8 ∷ files (codes "d") ∷ []

choices-IsChoice : All IsChoice choices
choices-IsChoice = (
  omega arith,
  (((omega arith, (omega arith, tt)), omega arith), (tt, ((omega arith, omega arith), (tt, tt)))),
)

read_options-written_example :
    read_options (written choices) ≡ ok (chosen_all choices default_options)
read_options-written_example = read_options-written choices choices-IsChoice

-- The system gives the socket 3, and two clients arrive.
abbrev two_clients : ℤ → Network
two_clients port_number = record {
  socket_number = some 3;
  option_set = true;
  bound = true;
  listening = true;
  errno = 0;
  arrivals = arriving (4 ∷ 5 ∷ []);
}

abbrev all_set : Listens (two_clients (pos 80)) 3
all_set = record { opened = refl; reusable = refl; bound = refl; listening = refl }

abbrev one_failure : Network
one_failure = record (two_clients (pos 80)) {
  arrivals = accepted 4 true ∷ refused ∷ accepted 5 true ∷ [];
}

serve_forever-refused_example : serve_forever one_failure ≡ fault invalid_argument
serve_forever-refused_example =
    serve_forever-refused one_failure 3 (4 ∷ []) refused (accepted 5 true ∷ [])
      (record { opened = refl; reusable = refl; bound = refl; listening = refl }) refl (inl refl)

abbrev only_files : Options
only_files = record unset_options {
  request_handler = some handles_files;
  server_files_directory = some (codes "d");
}

only_files_run : read_file_options (codes "--files" ∷ codes "d" ∷ []) ≡ ok only_files
unfolding read_file_options strcmp_eq option_loop
only_files_run = refl
