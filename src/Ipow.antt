-- ===== src/Ipow.antt =====
-- utils.c, `ipow`: the power by repeated squaring, on 32-bit words.
pub mod Correct
mod Tests
use mathlib.Core.Logic.{dite}
use mathlib.Core.WellFounded.{Acc}
use tcp_client_server.Prelude.{ℕ, ◌*◌, ◌/◌, ◌%◌, ◌^◌, ◌<◌, arith, dec_lt, ◌==◌, if◌then◌else◌}
use tcp_client_server.Prelude.Order.{lt_wf}

pub halves : (e : ℕ) → 0 < e → e / 2 < e
halves e h = omega arith

-- `while (exp != 0) …`: `exp & 1` is `exp % 2` and `exp >>= 1` is `exp / 2`. The product of an `int`
-- and a `uint32_t` is a `uint32_t`, so both variables are words modulo 2 ^ 32.
unfoldable pub ipow_loop : ℕ → (exp : ℕ) → ℕ → Acc ◌<◌ exp → ℕ
ipow_loop base exp base_to_exp (Acc.intro _ smaller) =
    dite (dec_lt 0 exp)
      (λ more.
        ipow_loop (base * base % 2 ^ 32) (exp / 2)
          (if exp % 2 == 0 then base_to_exp else base_to_exp * base % 2 ^ 32)
          (smaller _ (halves exp more)))
      (λ _. base_to_exp)

unfoldable pub ipow : ℕ → ℕ → ℕ
unfolding ipow_loop lt_wf dec_lt
ipow base exp = ipow_loop base exp 1 (lt_wf.apply exp)
