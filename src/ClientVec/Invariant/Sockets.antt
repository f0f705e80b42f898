-- ===== src/ClientVec/Invariant/Sockets.antt =====
-- Lists of descriptors in which no open one, that is, no nonnegative one, stands twice.
use tcp_client_server.Prelude.{
  ◌≡◌, ap, Bool, true, false, List, [], ◌∷◌, ◌++◌, ◌||◌, ◌&&◌, not, arith,
}
use tcp_client_server.Prelude.Int.{ℤ, eq_ℤ, eq_ℤ_iff, is_neg}

unfoldable pub has_socket : ℤ → List ℤ → Bool
has_socket f [] = false
has_socket f (g ∷ gs) = eq_ℤ g f || has_socket f gs

abbrev pub DistinctSockets : List ℤ → Type 0
DistinctSockets [] = Unit
DistinctSockets (f ∷ fs) = ((is_neg f || not (has_socket f fs)) ≡ true) × DistinctSockets fs

-- One entry `f` is replaced by `g`.
pub data Swap (f g : ℤ) : List ℤ → List ℤ → Type 0 where
  first : {fs : List ℤ} → Swap f g (f ∷ fs) (g ∷ fs)
  later : {h : ℤ} {fs gs : List ℤ} → Swap f g fs gs → Swap f g (h ∷ fs) (h ∷ gs)

has_socket-Swap :
    (h : ℤ) {f g : ℤ} {fs gs : List ℤ}
    → Swap f g fs gs
    → has_socket h fs ≡ false
    → eq_ℤ g h ≡ false
    → has_socket h gs ≡ false
unfolding has_socket
has_socket-Swap h first out other = ground arith
has_socket-Swap h (later s) out other = ground (arith, has_socket-Swap h s)

-- An entry is closed.
pub Swap-neg :
    {f g : ℤ} {fs gs : List ℤ}
    → is_neg g ≡ true
    → Swap f g fs gs
    → DistinctSockets fs
    → DistinctSockets gs
unfolding has_socket
Swap-neg n first d = (ground arith, d.1)
Swap-neg {g = g} n (later {h = h} s) d =
    (ground (arith, has_socket-Swap h s, eq_ℤ_iff g h), Swap-neg n s d.1)

-- An entry is replaced by one that is in no other place.
pub Swap-fresh :
    {f g : ℤ} {fs gs : List ℤ}
    → has_socket g fs ≡ false
    → Swap f g fs gs
    → DistinctSockets fs
    → DistinctSockets gs
unfolding has_socket
Swap-fresh out first d = (ground arith, d.1)
Swap-fresh {g = g} out (later {h = h} s) d = (
  ground (arith, has_socket-Swap h s, eq_ℤ_iff g h, eq_ℤ_iff h g),
  Swap-fresh (ground arith) s d.1,
)

pub has_socket-append :
    (f g : ℤ) (fs : List ℤ) → has_socket f (fs ++ g ∷ []) ≡ (has_socket f fs || eq_ℤ g f)
unfolding has_socket
has_socket-append f g [] = ground arith
has_socket-append f g (h ∷ hs) = ground (arith, has_socket-append f g hs)

pub DistinctSockets-append :
    (f : ℤ) (fs : List ℤ)
    → has_socket f fs ≡ false
    → DistinctSockets fs
    → DistinctSockets (fs ++ f ∷ [])
unfolding has_socket
DistinctSockets-append f [] out d = (ground arith, tt)
DistinctSockets-append f (g ∷ gs) out d = (
  ground (arith, has_socket-append g f gs, eq_ℤ_iff f g, eq_ℤ_iff g f),
  DistinctSockets-append f gs (ground arith) d.1,
)

-- An entry is replaced by itself.
pub Swap-same : {f g : ℤ} {fs gs : List ℤ} → g ≡ f → Swap f g fs gs → gs ≡ fs
Swap-same e (first {fs = fs}) = ap (λ x. x ∷ fs) e
Swap-same e (later {h = h} s) = ap (◌∷◌ h) (Swap-same e s)

-- A socket in the place of one that is closed.
pub Swap-opened :
    (h : ℤ) {f g : ℤ} {fs gs : List ℤ}
    → is_neg f ≡ true
    → is_neg h ≡ false
    → Swap f g fs gs
    → has_socket h gs ≡ (has_socket h fs || eq_ℤ g h)
unfolding has_socket
Swap-opened h {f = f} {g = g} n p first = ground (arith, eq_ℤ_iff f h, eq_ℤ_iff g h)
Swap-opened h n p (later s) = ground (arith, Swap-opened h n p s)

pub Swap-member : {f g : ℤ} {fs gs : List ℤ} → Swap f g fs gs → has_socket f fs ≡ true
unfolding has_socket
Swap-member {f = f} first = ground (arith, eq_ℤ_iff f f)
Swap-member (later s) = ground (arith, Swap-member s)

-- A closed socket in the place of an open one.
pub Swap-closed :
    (h : ℤ) {f g : ℤ} {fs gs : List ℤ}
    → is_neg f ≡ false
    → is_neg g ≡ true
    → is_neg h ≡ false
    → DistinctSockets fs
    → Swap f g fs gs
    → has_socket h gs ≡ (has_socket h fs && not (eq_ℤ f h))
unfolding has_socket
Swap-closed h {f = f} {g = g} nf ng nh d first = ground (arith, eq_ℤ_iff f h, eq_ℤ_iff g h, d.0)
Swap-closed h {f = f} nf ng nh d (later {h = k} s) =
    ground
      (arith, Swap-closed h nf ng nh d.1 s, Swap-member s, eq_ℤ_iff f h, eq_ℤ_iff k h, eq_ℤ_iff k f)
