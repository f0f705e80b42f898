-- ===== src/Ipow/Correct.antt =====
-- `ipow` is the power modulo 2 ^ 32.
use mathlib.Core.Logic.{dif_pos, dif_neg}
use mathlib.Core.WellFounded.{Acc}
use native.Mathlib.Nat.{div-add-mod, mul-add-mod_self_left, pow-zero, pow-suc, mul_comm, mul_assoc}
use tcp_client_server.Prelude.{
  ℕ, zero, suc, ◌+◌, ◌*◌, ◌/◌, ◌%◌, ◌^◌, ◌<◌, ◌≡◌, sym, ap, ◌∙◌, inl, inr, arith, dec_lt, ◌==◌,
  if◌then◌else◌, Bool-cases,
}
use tcp_client_server.Prelude.Order.{lt_wf}
use native.Mathlib.Bridge.{le_prop}
use tcp_client_server.Ipow.{ipow_loop, ipow}

module _ (m : ℕ) where
  mul-mod_first : (a b : ℕ) → a % m * b % m ≡ a * b % m
  mul-mod_first a b =
      sym (mul-add-mod_self_left m (a / m * b) (a % m * b))
      ∙ ap (λ t. t % m) (omega (arith, ap (λ (t : ℕ). t * b) (div-add-mod a m)))

  mul-mod_second : (a b : ℕ) → a * (b % m) % m ≡ a * b % m
  mul-mod_second a b = rw (mul_comm a (b % m), mul-mod_first b a) (rw (mul_comm b a))

  pow-mod_base : (a n : ℕ) → (a % m) ^ n % m ≡ a ^ n % m
  pow-mod_base a zero = rw (pow-zero (a % m), pow-zero a)
  pow-mod_base a (suc n) =
      ap (λ t. t % m) (pow-suc (a % m) n)
      ∙ mul-mod_second ((a % m) ^ n) a
      ∙ sym (mul-mod_first ((a % m) ^ n) a)
      ∙ ap (λ t. t * a % m) (pow-mod_base a n)
      ∙ mul-mod_first (a ^ n) a
      ∙ ap (λ t. t % m) (sym (pow-suc a n))

square-pow : (b k : ℕ) → (b * b) ^ k ≡ b ^ (k + k)
square-pow b zero = pow-zero (b * b) ∙ sym (pow-zero b) ∙ ap (λ t. b ^ t) (omega arith)
square-pow b (suc k) =
    pow-suc (b * b) k
    ∙ ap (λ t. t * (b * b)) (square-pow b k)
    ∙ sym (mul_assoc (b ^ (k + k)) b b)
    ∙ ap (λ t. t * b) (sym (pow-suc b (k + k)))
    ∙ sym (pow-suc b (suc (k + k)))
    ∙ ap (λ t. b ^ t) (omega arith)

pow_even : (b e : ℕ) → e % 2 ≡ 0 → (b * b) ^ (e / 2) ≡ b ^ e
pow_even b e h = square-pow b (e / 2) ∙ ap (λ t. b ^ t) (omega arith)

pow_odd : (b e : ℕ) → e % 2 ≡ 1 → b * (b * b) ^ (e / 2) ≡ b ^ e
pow_odd b e h =
    mul_comm b ((b * b) ^ (e / 2))
    ∙ ap (λ t. t * b) (square-pow b (e / 2))
    ∙ sym (pow-suc b (e / 2 + e / 2))
    ∙ ap (λ t. b ^ t) (omega arith)

-- One round keeps `base_to_exp * base ^ exp` modulo 2 ^ 32.
round_keeps :
    (b e acc : ℕ)
    → (if e % 2 == 0 then acc else acc * b % 2 ^ 32) * (b * b % 2 ^ 32) ^ (e / 2) % 2 ^ 32
      ≡ acc * b ^ e % 2 ^ 32
round_keeps b e acc = elim (Bool-cases (e % 2 == 0)) [
  | inl even ↦ rw even (squares acc ∙ ap (λ t. acc * t % 2 ^ 32) (pow_even b e (ground arith)))
  | inr odd ↦ rw odd (
      squares (acc * b % 2 ^ 32)
      ∙ mul-mod_first (2 ^ 32) (acc * b) ((b * b) ^ (e / 2))
      ∙ ap (λ t. t % 2 ^ 32) (mul_assoc acc b ((b * b) ^ (e / 2)))
      ∙ ap (λ t. acc * t % 2 ^ 32) (pow_odd b e (ground arith)))
]
  where
    squares : (x : ℕ) → x * (b * b % 2 ^ 32) ^ (e / 2) % 2 ^ 32 ≡ x * (b * b) ^ (e / 2) % 2 ^ 32
    squares x =
        sym (mul-mod_second (2 ^ 32) x ((b * b % 2 ^ 32) ^ (e / 2)))
        ∙ ap (λ t. x * t % 2 ^ 32) (pow-mod_base (2 ^ 32) (b * b) (e / 2))
        ∙ mul-mod_second (2 ^ 32) x ((b * b) ^ (e / 2))

round_small : (b e acc : ℕ) → acc < 2 ^ 32 → (if e % 2 == 0 then acc else acc * b % 2 ^ 32) < 2 ^ 32
round_small b e acc h = ground arith

ipow_loop_lem :
    (b e acc : ℕ) (w : Acc ◌<◌ e) → acc < 2 ^ 32 → ipow_loop b e acc w ≡ acc * b ^ e % 2 ^ 32
unfolding ipow_loop
ipow_loop_lem b e acc (Acc.intro _ smaller) h = elim (dec_lt 0 e) [
  | yes p ↦ rw (dif_pos _ le_prop p) (
      ipow_loop_lem (b * b % 2 ^ 32) (e / 2) _ (smaller (e / 2) _) (round_small b e acc h)
      ∙ round_keeps b e acc)
  | no np ↦ rw (dif_neg _ np) (let z : e ≡ 0 = omega arith in rw (z, pow-zero b) (omega arith))
]

-- `ipow` returns `base ^ exp` modulo 2 ^ 32, whatever the base and the exponent.
pub ipow-eq-pow : (base exp : ℕ) → ipow base exp ≡ base ^ exp % 2 ^ 32
unfolding ipow
ipow-eq-pow base exp =
    ipow_loop_lem base exp 1 (lt_wf.apply exp) (omega arith) ∙ ap (λ t. t % 2 ^ 32) (omega arith)
