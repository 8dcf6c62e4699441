-- ===== src/Server/Proxy.antt =====
-- The proxy of httpserver.c: the loop that passes bytes between the client and the target.
pub mod Dial
use cloudcomputing_lab2_http.Prelude.{ℕ, zero, suc, Bool, true, Option, none, some, [], ◌∷◌}
use cloudcomputing_lab2_http.Result.{uninitialised, out_of_fuel}
use cloudcomputing_lab2_http.Os.{Io, pure, fail, ◌>>=◌, read}
use cloudcomputing_lab2_http.Server.Send.{Status, done, failed, http_send_data}

-- `sizeof(buffer) - 1`
abbrev pub relay_size : ℕ
relay_size = 4095

-- The loop of `relay_message`, for a peer that ends its side some time, as `Os` has it: until then
-- `read` waits. It gives the last `write_ret`, where `none` is the variable not yet set.
unfoldable pub relay_loop : ℕ → ℕ → ℕ → Option Status → Io (Option Status)
relay_loop zero read_fd write_fd write_ret = fail out_of_fuel
relay_loop (suc fuel) read_fd write_fd write_ret = read (some read_fd) relay_size >>= λ read_ret.
    elim read_ret [
      | none ↦ pure write_ret
      | some [] ↦ pure write_ret
      | some (c ∷ buffer) ↦ http_send_data write_fd (c ∷ buffer) >>= λ status. elim status [
        | failed ↦ pure (some failed)
        | done ↦ relay_loop fuel read_fd write_fd (some done)
      ]
    ]

-- Behind the loop `write_ret` is read for the log. The result is the flag `finished`.
unfoldable pub relay_message : ℕ → ℕ → ℕ → Io Bool
relay_message fuel read_fd write_fd = relay_loop fuel read_fd write_fd none >>= λ write_ret.
    elim write_ret [ none ↦ fail uninitialised | some status ↦ pure true ]
