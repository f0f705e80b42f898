-- ===== src/Server/Events/Weight.antt =====
-- How much work the entries of a poll vector still mean for the loop of `process_ready_fds`.
use tcp_client_server.Prelude.{
  ℕ, zero, suc, ◌+◌, ◌≤◌, ◌≡◌, refl, inl, inr, true, false, List, [], ◌∷◌, ◌++◌, some, arith,
  if◌then◌else◌, Bool-cases, drop, length, erase_idx, get_elem?,
}
use tcp_client_server.PollVec.{PollFd}
use tcp_client_server.Server.Events.{is_ready}

-- An entry that is ready may add another, so it counts twice.
unfoldable pub weight : List PollFd → ℕ
weight [] = 0
weight (p ∷ ps) = if is_ready p then 2 + weight ps else 1 + weight ps

-- What is left of the entries from an index on.
abbrev pub left_from : List PollFd → ℕ → ℕ
left_from xs i = weight (drop i xs)

pub weight-ready :
    (xs : List PollFd) (i : ℕ) (p : PollFd)
    → get_elem? xs i ≡ some p
    → is_ready p ≡ true
    → left_from xs i ≡ 2 + left_from xs (suc i)
unfolding weight
weight-ready [] i p e r = cc
weight-ready (x ∷ xs) zero p e r = let q : x ≡ p = cc in rw (q, r) refl
weight-ready (x ∷ xs) (suc i) p e r = weight-ready xs i p e r

pub weight-idle :
    (xs : List PollFd) (i : ℕ) (p : PollFd)
    → get_elem? xs i ≡ some p
    → is_ready p ≡ false
    → left_from xs i ≡ 1 + left_from xs (suc i)
unfolding weight
weight-idle [] i p e r = cc
weight-idle (x ∷ xs) zero p e r = let q : x ≡ p = cc in rw (q, r) refl
weight-idle (x ∷ xs) (suc i) p e r = weight-idle xs i p e r

pub weight-le : (xs : List PollFd) → weight xs ≤ length xs + length xs
unfolding weight
weight-le [] = omega arith
weight-le (p ∷ ps) = elim (Bool-cases (is_ready p)) [
  | inl e ↦ rw e (omega (arith, weight-le ps))
  | inr e ↦ rw e (omega (arith, weight-le ps))
]

pub weight-drop : (xs : List PollFd) (i : ℕ) → left_from xs i ≤ weight xs
unfolding weight
weight-drop xs zero = omega arith
weight-drop [] (suc i) = omega arith
weight-drop (p ∷ ps) (suc i) = elim (Bool-cases (is_ready p)) [
  | inl e ↦ rw e (omega (arith, weight-drop ps i))
  | inr e ↦ rw e (omega (arith, weight-drop ps i))
]

pub weight-append :
    (xs : List PollFd) (i : ℕ) (p : PollFd)
    → is_ready p ≡ false
    → left_from (xs ++ p ∷ []) i ≤ left_from xs i + 1
unfolding weight
weight-append [] zero p r = rw r (omega arith)
weight-append [] (suc zero) p r = omega arith
weight-append [] (suc (suc i)) p r = omega arith
weight-append (x ∷ xs) zero p r = elim (Bool-cases (is_ready x)) [
  | inl e ↦ rw e (omega (arith, weight-append xs zero p r))
  | inr e ↦ rw e (omega (arith, weight-append xs zero p r))
]
weight-append (x ∷ xs) (suc i) p r = weight-append xs i p r

pub drop-erase_idx : (xs : List PollFd) (i : ℕ) → drop i (erase_idx xs i) ≡ drop (suc i) xs
unfolding erase_idx
drop-erase_idx [] zero = refl
drop-erase_idx [] (suc i) = refl
drop-erase_idx (x ∷ xs) zero = refl
drop-erase_idx (x ∷ xs) (suc i) = drop-erase_idx xs i
