-- ===== src/Prelude/Search.antt =====
-- The loop over an array that stops at the first cell it applies to, and what it keeps of the cells.
use Prim.Native.Nat.{ℕ, zero, suc}
use mathlib.Core.Path.{◌≡◌, refl, ap}
use mathlib.Core.List.{List, [], ◌∷◌, ◌++◌, map}
use mathlib.Core.Logic.{◌⊎◌, inl, inr}
use mathlib.Core.Option.{Option, none, some}
use tcp_client_server.Prelude.Lists.{get_elem?, set}

-- `for (i = 0; i < n; ++i) if (…) { …; return r; }`: the body answers at the first cell it applies to,
-- with the result and the cell as it leaves it.
module _ {ℓ κ} {A : Type ℓ} {R : Type κ} where
  unfoldable pub for_first : (ℕ → A → Option (R × A)) → ℕ → List A → Option (R × List A)
  for_first body i [] = none
  for_first body i (x ∷ xs) =
      let rest = for_first body (suc i) xs in
      elim (body i x) [
        | some (r, x') ↦ some (r, x' ∷ xs)
        | none ↦ elim rest [ none ↦ none | some (r, xs') ↦ some (r, x ∷ xs') ]
      ]

  -- `for_first` on `xs` from index `i`: the first cell that the body applies to, the result, and the
  -- cells after it.
  pub data FirstHit (body : ℕ → A → Option (R × A)) : ℕ → List A → R → List A → Type (ℓ ⊔ κ) where
    here :
        {i : ℕ} {x x' : A} {xs : List A} {r : R}
        → body i x ≡ some (r, x')
        → FirstHit body i (x ∷ xs) r (x' ∷ xs)
    there :
        {i : ℕ} {x : A} {xs ys : List A} {r : R}
        → body i x ≡ none
        → FirstHit body (suc i) xs r ys
        → FirstHit body i (x ∷ xs) r (x ∷ ys)

  abbrev pub Missed : (ℕ → A → Option (R × A)) → ℕ → List A → Type (ℓ ⊔ κ)
  Missed body i [] = Unit
  Missed body i (x ∷ xs) = (body i x ≡ none) × Missed body (suc i) xs

  abbrev pub Outcome : (ℕ → A → Option (R × A)) → ℕ → List A → Option (R × List A) → Type (ℓ ⊔ κ)
  Outcome body i xs none = Missed body i xs
  Outcome body i xs (some (r, ys)) = FirstHit body i xs r ys

  -- The loop stops at the first cell that the body applies to, or passes all.
  pub for_first-Outcome :
      (body : ℕ → A → Option (R × A)) (i : ℕ) (xs : List A)
      → Outcome body i xs (for_first body i xs)
  unfolding for_first
  for_first-Outcome body i [] = tt
  for_first-Outcome body i (x ∷ xs) =
      at_head (body i x) refl (for_first body (suc i) xs) (for_first-Outcome body (suc i) xs)
    where
      at_head :
          (o : Option (R × A))
          → body i x ≡ o
          → (rest : Option (R × List A)) → Outcome body (suc i) xs rest
          → Outcome body i (x ∷ xs) (elim o [
            | some (r, x') ↦ some (r, x' ∷ xs)
            | none ↦ elim rest [ none ↦ none | some (r, xs') ↦ some (r, x ∷ xs') ]
          ])
      at_head (some (r, x')) e rest h = here e
      at_head none e none h = (e, h)
      at_head none e (some (r, xs')) h = there e h

  pub for_first_cases :
      (body : ℕ → A → Option (R × A)) (i : ℕ) (xs : List A)
      → ((for_first body i xs ≡ none) × Missed body i xs)
        ⊎ ((r : R) × (ys : List A) × (for_first body i xs ≡ some (r, ys)) × FirstHit body i xs r ys)
  for_first_cases body i xs = sort (for_first body i xs) refl (for_first-Outcome body i xs)
    where
      sort :
          (o : Option (R × List A))
          → for_first body i xs ≡ o
          → Outcome body i xs o
          → ((for_first body i xs ≡ none) × Missed body i xs)
            ⊎ ((r : R) × (ys : List A) × (for_first body i xs ≡ some (r, ys))
                × FirstHit body i xs r ys)
      sort none e h = inl (e, h)
      sort (some (r, ys)) e h = inr (r, ys, e, h)

module _ {ℓ} {A : Type ℓ} where
  abbrev pub All {κ} : (A → Type κ) → List A → Type κ
  All P [] = Unit
  All P (x ∷ xs) = P x × All P xs

  pub All-append {κ} : (P : A → Type κ) (xs ys : List A) → All P xs → All P ys → All P (xs ++ ys)
  All-append P [] ys h k = k
  All-append P (x ∷ xs) ys h k = (h.0, All-append P xs ys h.1 k)

  pub All-set {κ} :
      (P : A → Type κ) (xs : List A) (i : ℕ) (v : A) → All P xs → P v → All P (set xs i v)
  All-set P [] i v h p = tt
  All-set P (x ∷ xs) zero v h p = (p, h.1)
  All-set P (x ∷ xs) (suc i) v h p = (h.0, All-set P xs i v h.1 p)

  pub All-get_elem? {κ} :
      (P : A → Type κ) (xs : List A) (i : ℕ) {v : A} → get_elem? xs i ≡ some v → All P xs → P v
  All-get_elem? P [] i e h = cc
  All-get_elem? P (x ∷ xs) zero {v} e h = let q : x ≡ v = cc in rw (← q) h.0
  All-get_elem? P (x ∷ xs) (suc i) e h = All-get_elem? P xs i e h.1

  pub map-set_same {κ} :
      {B : Type κ} (f : A → B) (xs : List A) (i : ℕ) {c : A} (v : A)
      → get_elem? xs i ≡ some c
      → f v ≡ f c
      → map f (set xs i v) ≡ map f xs
  map-set_same f [] i v e h = refl
  map-set_same f (x ∷ xs) zero v e h = cc
  map-set_same f (x ∷ xs) (suc i) v e h = ap (◌∷◌ (f x)) (map-set_same f xs i v e h)

module _ {ℓ κ} {A : Type ℓ} {R : Type κ} {body : ℕ → A → Option (R × A)} where
  -- What the body keeps in a cell, the loop keeps in all.
  pub FirstHit-All {μ} :
      (P : A → Type μ)
      → ((i : ℕ) (x x' : A) (r : R) → body i x ≡ some (r, x') → P x → P x')
      → {i : ℕ} {xs ys : List A} {r : R} → FirstHit body i xs r ys
      → All P xs
      → All P ys
  FirstHit-All P keep (here {i = i} {x = x} {x' = x'} {r = r} e) h = (keep i x x' r e h.0, h.1)
  FirstHit-All P keep (there e hit) h = (h.0, FirstHit-All P keep hit h.1)

  -- A view of the cells that the body does not change.
  pub FirstHit-map {μ} :
      {B : Type μ} (f : A → B)
      → ((i : ℕ) (x x' : A) (r : R) → body i x ≡ some (r, x') → f x' ≡ f x)
      → {i : ℕ} {xs ys : List A} {r : R} → FirstHit body i xs r ys
      → map f ys ≡ map f xs
  FirstHit-map f same (here {i = i} {x = x} {x' = x'} {xs = xs} {r = r} e) =
      ap (λ b. b ∷ map f xs) (same i x x' r e)
  FirstHit-map f same (there {x = x} e hit) = ap (◌∷◌ (f x)) (FirstHit-map f same hit)
