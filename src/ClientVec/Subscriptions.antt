-- ===== src/ClientVec/Subscriptions.antt =====
-- The topics and options of a client as a finite map: subscribing updates it, unsubscribing takes a
-- topic out.
use tcp_client_server.Prelude.{
  ℕ, zero, suc, ◌+◌, ◌-◌, ◌<◌, ◌≡◌, ◌⊎◌, refl, ap, ◌∙◌, inl, inr, Bool, true, false, List, [], ◌∷◌,
  ◌++◌, Option, none, some, arith, if◌then◌else◌, Bool-cases, length, set, erase_idx,
  take-shift_down, take_all, Text, str_eq, str_eq_iff,
}
use tcp_client_server.ClientVec.{Client, SfOption}
use tcp_client_server.ClientVec.Topics.{find_topic, remove_at}

-- The option under which a topic is subscribed, if it is.
unfoldable pub option_of : List Text → List SfOption → Text → Option SfOption
option_of [] os t = none
option_of (s ∷ ss) [] t = none
option_of (s ∷ ss) (o ∷ os) t = if str_eq s t then some o else option_of ss os t

abbrev pub subscription : Client → Text → Option SfOption
subscription c t = option_of c.topics c.options t

-- Each topic stands in the list once.
unfoldable pub has : Text → List Text → Bool
has t [] = false
has t (s ∷ ss) = if str_eq s t then true else has t ss

abbrev pub Distinct : List Text → Type 0
Distinct [] = Unit
Distinct (t ∷ ts) = (has t ts ≡ false) × Distinct ts

-- The topic stands at index `j`, and not before.
abbrev pub FindsAt : Text → ℕ → List Text → Type 0
FindsAt t j [] = ⊥
FindsAt t zero (s ∷ ss) = str_eq s t ≡ true
FindsAt t (suc j) (s ∷ ss) = (str_eq s t ≡ false) × FindsAt t j ss

-- What the search for a topic from index `i` on comes to: its first index, or its absence.
pub find_topic_cases :
    (t : Text) (i : ℕ) (ts : List Text)
    → ((find_topic t i ts ≡ none) × (has t ts ≡ false))
      ⊎ ((j : ℕ) × (find_topic t i ts ≡ some (i + j)) × (j < length ts) × FindsAt t j ts)
unfolding find_topic has
find_topic_cases t i [] = inl (refl, refl)
find_topic_cases t i (s ∷ ss) = elim (Bool-cases (str_eq s t)) [
  | inl found ↦ inr (0, rw found (ap some (omega arith)), omega arith, found)
  | inr other ↦ elim (find_topic_cases t (suc i) ss) [
    | inl (e, h) ↦ inl (rw (other, e), rw (other, h))
    | inr (j, e, l, h) ↦ inr (suc j, rw (other, e) (ap some (omega arith)), omega arith, (other, h))
  ]
]

pub option_of-set :
    (t u : Text) (o : SfOption) (j : ℕ) (ts : List Text) (os : List SfOption)
    → FindsAt t j ts
    → length os ≡ length ts
    → option_of ts (set os j o) u ≡ (if str_eq t u then some o else option_of ts os u)
unfolding option_of
option_of-set t u o j [] os h e = absurd h
option_of-set t u o j (s ∷ ss) [] h e = absurd (omega arith)
option_of-set t u o zero (s ∷ ss) (p ∷ ps) h e =
    ground (arith, str_eq_iff s t, str_eq_iff s u, str_eq_iff t u)
option_of-set t u o (suc j) (s ∷ ss) (p ∷ ps) h e = ground (
  arith,
  str_eq_iff s t,
  str_eq_iff s u,
  str_eq_iff t u,
  option_of-set t u o j ss ps h.1 (omega arith),
)

pub option_of-append :
    (t u : Text) (o : SfOption) (ts : List Text) (os : List SfOption)
    → has t ts ≡ false
    → length os ≡ length ts
    → option_of (ts ++ t ∷ []) (os ++ o ∷ []) u ≡ (if str_eq t u then some o else option_of ts os u)
unfolding option_of has
option_of-append t u o [] [] h e = refl
option_of-append t u o [] (p ∷ ps) h e = absurd (omega arith)
option_of-append t u o (s ∷ ss) [] h e = absurd (omega arith)
option_of-append t u o (s ∷ ss) (p ∷ ps) h e = ground (
  arith,
  str_eq_iff s t,
  str_eq_iff s u,
  str_eq_iff t u,
  option_of-append t u o ss ps (ground arith) (omega arith),
)

pub option_of-absent :
    (t u : Text) (ts : List Text) (os : List SfOption)
    → has t ts ≡ false
    → str_eq t u ≡ true
    → option_of ts os u ≡ none
unfolding option_of has
option_of-absent t u [] os h e = refl
option_of-absent t u (s ∷ ss) [] h e = refl
option_of-absent t u (s ∷ ss) (o ∷ os) h e =
    ground (arith, str_eq_iff s t, str_eq_iff s u, str_eq_iff t u, option_of-absent t u ss os)

has-cong : (s t : Text) (ts : List Text) → str_eq s t ≡ true → has s ts ≡ has t ts
has-cong s t ts e = ap (λ x. has x ts) ((str_eq_iff s t).0 e)

pub option_of-erase_idx :
    (t u : Text) (j : ℕ) (ts : List Text) (os : List SfOption)
    → FindsAt t j ts
    → Distinct ts
    → length os ≡ length ts
    → option_of (erase_idx ts j) (erase_idx os j) u
      ≡ (if str_eq t u then none else option_of ts os u)
unfolding option_of erase_idx
option_of-erase_idx t u j [] os h d e = absurd h
option_of-erase_idx t u j (s ∷ ss) [] h d e = absurd (omega arith)
option_of-erase_idx t u zero (s ∷ ss) (p ∷ ps) h d e =
    ground (arith, str_eq_iff s t, str_eq_iff s u, str_eq_iff t u, option_of-absent s u ss ps d.0)
option_of-erase_idx t u (suc j) (s ∷ ss) (p ∷ ps) h d e = ground (
  arith,
  str_eq_iff s t,
  str_eq_iff s u,
  str_eq_iff t u,
  option_of-erase_idx t u j ss ps h.1 d.1 (omega arith),
)

pub remove_at-erase_idx {ℓ} :
    {A : Type ℓ} (xs : List A) (j : ℕ) → j < length xs → remove_at xs j ≡ erase_idx xs j
unfolding remove_at
remove_at-erase_idx xs j h =
    let e : suc (length xs - 1) ≡ length xs = omega arith in
    take-shift_down (length xs - 1 - j) j (length xs - 1) xs (omega arith) (omega arith)
    ∙ ap (λ ys. erase_idx ys j) (take_all xs (suc (length xs - 1)) (omega arith))

has-append :
    (t s : Text) (ts : List Text) → has t (ts ++ s ∷ []) ≡ (if has t ts then true else str_eq s t)
unfolding has
has-append t s [] = ground arith
has-append t s (r ∷ rs) = ground (arith, has-append t s rs)

pub Distinct-append :
    (t : Text) (ts : List Text) → has t ts ≡ false → Distinct ts → Distinct (ts ++ t ∷ [])
unfolding has
Distinct-append t [] h d = (refl, tt)
Distinct-append t (s ∷ ss) h d = (
  ground (arith, has-append s t ss, str_eq_iff s t, str_eq_iff t s),
  Distinct-append t ss (ground arith) d.1,
)

has-erase_idx :
    (t : Text) (j : ℕ) (ts : List Text) → has t ts ≡ false → has t (erase_idx ts j) ≡ false
unfolding has erase_idx
has-erase_idx t j [] h = refl
has-erase_idx t zero (s ∷ ss) h = ground arith
has-erase_idx t (suc j) (s ∷ ss) h = ground (arith, has-erase_idx t j ss)

pub Distinct-erase_idx : (j : ℕ) (ts : List Text) → Distinct ts → Distinct (erase_idx ts j)
unfolding erase_idx
Distinct-erase_idx j [] d = tt
Distinct-erase_idx zero (s ∷ ss) d = d.1
Distinct-erase_idx (suc j) (s ∷ ss) d = (has-erase_idx s j ss d.0, Distinct-erase_idx j ss d.1)

pub option_of-found :
    (t : Text) (j : ℕ) (ts : List Text) (os : List SfOption)
    → FindsAt t j ts
    → length os ≡ length ts
    → (o : SfOption) × (option_of ts os t ≡ some o)
unfolding option_of
option_of-found t j [] os h e = absurd h
option_of-found t j (s ∷ ss) [] h e = absurd (omega arith)
option_of-found t zero (s ∷ ss) (p ∷ ps) h e = (p, rw h)
option_of-found t (suc j) (s ∷ ss) (p ∷ ps) h e =
    let (o, q) = option_of-found t j ss ps h.1 (omega arith) in (o, rw h.0 q)
