-- ===== src/Prelude/Array.antt =====
-- C arrays as the list of the cells written so far: writing at the end, and the loop that closes a gap.
use Prim.Native.Nat.{ℕ, zero, suc, ◌+◌, ◌≤◌, ◌<◌}
use mathlib.Core.Path.{◌≡◌, refl, ap, ◌∙◌}
use mathlib.Core.List.{List, [], ◌∷◌, ◌++◌}
use mathlib.Core.Option.{none, some}
use native.Mathlib.Omega.{arith}
use tcp_client_server.Prelude.Lists.{length, get_elem?, set, take}

module _ {ℓ} {A : Type ℓ} where
  -- `a[i] = v`, where `i` is a written cell or the first one not written yet.
  unfoldable pub store : List A → ℕ → A → List A
  store [] zero v = v ∷ []
  store [] (suc i) v = []
  store (x ∷ xs) zero v = v ∷ xs
  store (x ∷ xs) (suc i) v = x ∷ store xs i v

  -- `a[i] = a[i + 1]`
  unfoldable pub move_down : List A → ℕ → List A
  move_down xs i = elim (get_elem? xs (suc i)) [ none ↦ xs | some x ↦ set xs i x ]

  -- `k` rounds of `a[i] = a[i + 1]; ++i`
  unfoldable pub shift_down : ℕ → ℕ → List A → List A
  shift_down zero i xs = xs
  shift_down (suc k) i xs = shift_down k (suc i) (move_down xs i)

  -- The list without its entry `i`.
  unfoldable pub erase_idx : List A → ℕ → List A
  erase_idx [] i = []
  erase_idx (x ∷ xs) zero = xs
  erase_idx (x ∷ xs) (suc i) = x ∷ erase_idx xs i

  pub take-store :
      (xs : List A) (n : ℕ) (v : A)
      → n ≤ length xs
      → take (suc n) (store xs n v) ≡ take n xs ++ v ∷ []
  unfolding store
  take-store [] zero v h = refl
  take-store [] (suc n) v h = absurd (omega arith)
  take-store (x ∷ xs) zero v h = refl
  take-store (x ∷ xs) (suc n) v h = ap (◌∷◌ x) (take-store xs n v (omega arith))

  pub length-store-le :
      (xs : List A) (n : ℕ) (v : A)
      → n ≤ length xs
      → (suc n ≤ length (store xs n v)) × (length (store xs n v) ≤ length xs + 1)
  unfolding store
  length-store-le [] zero v h = omega arith
  length-store-le [] (suc n) v h = absurd (omega arith)
  length-store-le (x ∷ xs) zero v h = omega arith
  length-store-le (x ∷ xs) (suc n) v h = omega (arith, length-store-le xs n v)

  pub length-store_written :
      (xs : List A) (n : ℕ) (v : A) → n < length xs → length (store xs n v) ≡ length xs
  unfolding store
  length-store_written [] n v h = absurd (omega arith)
  length-store_written (x ∷ xs) zero v h = refl
  length-store_written (x ∷ xs) (suc n) v h = ap suc (length-store_written xs n v (omega arith))

  move_down-suc : (x : A) (xs : List A) (i : ℕ) → move_down (x ∷ xs) (suc i) ≡ x ∷ move_down xs i
  unfolding move_down
  move_down-suc x xs i = ground arith

  length-move_down : (xs : List A) (i : ℕ) → length (move_down xs i) ≡ length xs
  unfolding move_down
  length-move_down [] i = refl
  length-move_down (x ∷ []) zero = refl
  length-move_down (x ∷ y ∷ xs) zero = refl
  length-move_down (x ∷ xs) (suc i) =
      ap length (move_down-suc x xs i) ∙ ap suc (length-move_down xs i)

  pub length-shift_down : (k i : ℕ) (xs : List A) → length (shift_down k i xs) ≡ length xs
  unfolding shift_down
  length-shift_down zero i xs = refl
  length-shift_down (suc k) i xs =
      length-shift_down k (suc i) (move_down xs i) ∙ length-move_down xs i

  shift_down-suc :
      (k i : ℕ) (x : A) (xs : List A) → shift_down k (suc i) (x ∷ xs) ≡ x ∷ shift_down k i xs
  unfolding shift_down
  shift_down-suc zero i x xs = refl
  shift_down-suc (suc k) i x xs =
      ap (shift_down k (suc (suc i))) (move_down-suc x xs i)
      ∙ shift_down-suc k (suc i) x (move_down xs i)

  take-shift_down-zero :
      (k : ℕ) (x : A) (xs : List A) → k ≤ length xs → take k (shift_down k 0 (x ∷ xs)) ≡ take k xs
  unfolding shift_down move_down
  take-shift_down-zero zero x xs h = refl
  take-shift_down-zero (suc k) x [] h = absurd (omega arith)
  take-shift_down-zero (suc k) x (y ∷ xs) h =
      ap (take (suc k)) (shift_down-suc k 0 y (y ∷ xs))
      ∙ ap (◌∷◌ y) (take-shift_down-zero k y xs (omega arith))

  -- Closing the gap at `i` in the first `suc n` cells leaves those cells without the entry `i`.
  pub take-shift_down :
      (k i n : ℕ) (xs : List A)
      → i + k ≡ n
      → suc n ≤ length xs
      → take n (shift_down k i xs) ≡ erase_idx (take (suc n) xs) i
  unfolding erase_idx
  take-shift_down k i n [] e h = absurd (omega arith)
  take-shift_down k zero n (x ∷ xs) e h =
      let e' : k ≡ n = omega arith in rw (← e') (take-shift_down-zero k x xs (omega arith))
  take-shift_down k (suc i) zero (x ∷ xs) e h = absurd (omega arith)
  take-shift_down k (suc i) (suc n) (x ∷ xs) e h =
      ap (take (suc n)) (shift_down-suc k i x xs)
      ∙ ap (◌∷◌ x) (take-shift_down k i n xs (omega arith) (omega arith))

  pub take_all : (xs : List A) (n : ℕ) → length xs ≤ n → take n xs ≡ xs
  take_all [] zero h = refl
  take_all [] (suc n) h = refl
  take_all (x ∷ xs) zero h = absurd (omega arith)
  take_all (x ∷ xs) (suc n) h = ap (◌∷◌ x) (take_all xs n (omega arith))

  pub take-append : (xs ys : List A) (n : ℕ) → length xs ≡ n → take n (xs ++ ys) ≡ xs
  take-append [] ys zero e = refl
  take-append [] ys (suc n) e = absurd (omega arith)
  take-append (x ∷ xs) ys zero e = absurd (omega arith)
  take-append (x ∷ xs) ys (suc n) e = ap (◌∷◌ x) (take-append xs ys n (omega arith))

  pub length-erase_idx :
      (xs : List A) (i : ℕ) → i < length xs → length (erase_idx xs i) + 1 ≡ length xs
  unfolding erase_idx
  length-erase_idx [] i h = absurd (omega arith)
  length-erase_idx (x ∷ xs) zero h = omega arith
  length-erase_idx (x ∷ xs) (suc i) h = omega (arith, length-erase_idx xs i)

  pub get_elem?-take :
      (n : ℕ) (xs : List A) (i : ℕ) → i < n → get_elem? (take n xs) i ≡ get_elem? xs i
  get_elem?-take zero xs i h = absurd (omega arith)
  get_elem?-take (suc n) [] i h = refl
  get_elem?-take (suc n) (x ∷ xs) zero h = refl
  get_elem?-take (suc n) (x ∷ xs) (suc i) h = get_elem?-take n xs i (omega arith)

  pub get_elem?-beyond : (xs : List A) (i : ℕ) → length xs ≤ i → get_elem? xs i ≡ none
  get_elem?-beyond [] i h = refl
  get_elem?-beyond (x ∷ xs) zero h = absurd (omega arith)
  get_elem?-beyond (x ∷ xs) (suc i) h = get_elem?-beyond xs i (omega arith)

  pub get_elem?-within : (xs : List A) (i : ℕ) → i < length xs → (x : A) × (get_elem? xs i ≡ some x)
  get_elem?-within [] i h = absurd (omega arith)
  get_elem?-within (x ∷ xs) zero h = (x, refl)
  get_elem?-within (x ∷ xs) (suc i) h = get_elem?-within xs i (omega arith)

  -- What was appended last is taken away by the index that it has.
  pub erase_idx-append_last :
      (xs : List A) (x : A) (n : ℕ) → length xs ≡ n → erase_idx (xs ++ x ∷ []) n ≡ xs
  unfolding erase_idx
  erase_idx-append_last [] x zero e = refl
  erase_idx-append_last [] x (suc n) e = absurd (omega arith)
  erase_idx-append_last (y ∷ xs) x zero e = absurd (omega arith)
  erase_idx-append_last (y ∷ xs) x (suc n) e =
      ap (◌∷◌ y) (erase_idx-append_last xs x n (omega arith))

  pub get_elem?-append_last :
      (xs : List A) (x : A) (n : ℕ) → length xs ≡ n → get_elem? (xs ++ x ∷ []) n ≡ some x
  get_elem?-append_last [] x zero e = refl
  get_elem?-append_last [] x (suc n) e = absurd (omega arith)
  get_elem?-append_last (y ∷ xs) x zero e = absurd (omega arith)
  get_elem?-append_last (y ∷ xs) x (suc n) e = get_elem?-append_last xs x n (omega arith)
