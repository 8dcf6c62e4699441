-- ===== src/Program/Options/Selected.antt =====
-- The options that choose what is served choose the handler of requests too.
use cloudcomputing_lab2_http.Prelude.{
  ◌≡◌, refl, Bool, true, false, not, ◌&&◌, ◌||◌, Option, none, some, List, [], ◌∷◌, arith,
}
use cloudcomputing_lab2_http.Result.{Result, ok, fault, ◌>>=◌}
use cloudcomputing_lab2_http.Cstr.{Bytes}
use cloudcomputing_lab2_http.Program.Options.{
  Kind, files_option, proxy_option, port_option, threads_option, ip_option, help_option,
  unknown_option, Options, set_proxy, set_option, last_option, option_loop,
}

abbrev pub is_set {ℓ} : {A : Type ℓ} → Option A → Bool
is_set none = false
is_set (some a) = true

-- A handler, or nothing to serve.
abbrev pub selected : Options → Bool
selected o =
    is_set o.request_handler
    || (not (is_set o.server_files_directory) && not (is_set o.server_proxy_address))

set_option-selected :
    (k : Kind) (v : Bytes) (o o' : Options)
    → set_option k v o ≡ ok o'
    → selected o ≡ true
    → selected o' ≡ true
unfolding set_option set_proxy
set_option-selected files_option v o o' e s = ground arith
set_option-selected proxy_option v o o' e s = ground arith
set_option-selected port_option v o o' e s = ground arith
set_option-selected threads_option v o o' e s = ground arith
set_option-selected ip_option v o o' e s = ground arith
set_option-selected help_option v o o' e s = ground arith
set_option-selected unknown_option v o o' e s = ground arith

last_option-selected :
    (k : Kind) (o o' : Options) → last_option k o ≡ ok o' → selected o ≡ true → selected o' ≡ true
unfolding last_option
last_option-selected ip_option o o' e s = ground arith
last_option-selected files_option o o' e s = ground arith
last_option-selected proxy_option o o' e s = ground arith
last_option-selected port_option o o' e s = ground arith
last_option-selected threads_option o o' e s = ground arith
last_option-selected help_option o o' e s = ground arith
last_option-selected unknown_option o o' e s = ground arith

pub option_loop-selected :
    (names : Bytes → Kind) (args : List Bytes) (o o' : Options)
    → option_loop names args o ≡ ok o'
    → selected o ≡ true
    → selected o' ≡ true
unfolding option_loop
option_loop-selected names [] o o' e s = ground arith
option_loop-selected names (arg ∷ []) o o' e s = last_option-selected (names arg) o o' e s
option_loop-selected names (arg ∷ v ∷ args) o o' e s =
    go (set_option (names arg) v o) refl e (option_loop-selected names args)
  where
    go :
        (r : Result Options)
        → set_option (names arg) v o ≡ r
        → (r >>= option_loop names args) ≡ ok o'
        → ((o1 o2 : Options)
            → option_loop names args o1 ≡ ok o2
            → selected o1 ≡ true
            → selected o2 ≡ true)
        → selected o' ≡ true
    go (ok o1) h e ih = ih o1 o' e (set_option-selected (names arg) v o o1 h s)
    go (fault reason) h e ih = absurd (ground arith)
