-- ===== src/Server/Descriptors/Polled.antt =====
-- The descriptors of a poll vector.
use tcp_client_server.Prelude.{
  ℕ, zero, suc, ◌≡◌, refl, ap, true, false, ◌&&◌, not, List, [], ◌∷◌, ◌++◌, some, map, arith,
  get_elem?, erase_idx,
}
use tcp_client_server.Prelude.Int.{ℤ, eq_ℤ, eq_ℤ_iff}
use tcp_client_server.PollVec.{PollFd, PollVec, contents}
use tcp_client_server.ClientVec.Invariant.Sockets.{has_socket, has_socket-append}

abbrev pub fds_of : List PollFd → List ℤ
fds_of = map (λ p. p.fd)

abbrev pub fds : PollVec → List ℤ
fds v = fds_of (contents v)

-- No descriptor stands twice.
abbrev pub Apart : List ℤ → Type 0
Apart [] = Unit
Apart (f ∷ fs) = (has_socket f fs ≡ false) × Apart fs

pub has_socket-get_elem? :
    (ps : List PollFd) (i : ℕ) (p : PollFd)
    → get_elem? ps i ≡ some p
    → has_socket p.fd (fds_of ps) ≡ true
unfolding has_socket
has_socket-get_elem? [] i p e = cc
has_socket-get_elem? (x ∷ xs) zero p e =
    let q : x ≡ p = cc in rw q (ground (arith, eq_ℤ_iff p.fd p.fd))
has_socket-get_elem? (x ∷ xs) (suc i) p e = ground (arith, has_socket-get_elem? xs i p e)

pub has_socket-erase_idx :
    (f : ℤ) (ps : List PollFd) (i : ℕ) (p : PollFd)
    → Apart (fds_of ps)
    → get_elem? ps i ≡ some p
    → has_socket f (fds_of (erase_idx ps i)) ≡ (has_socket f (fds_of ps) && not (eq_ℤ p.fd f))
unfolding has_socket erase_idx
has_socket-erase_idx f [] i p d e = cc
has_socket-erase_idx f (x ∷ xs) zero p d e =
    let q : x ≡ p = cc in let h = d.0 in ground (arith, ap (λ y. y.fd) q, eq_ℤ_iff x.fd f)
has_socket-erase_idx f (x ∷ xs) (suc i) p d e =
    let h = d.0 in
    ground (
      arith,
      has_socket-erase_idx f xs i p d.1 e,
      has_socket-get_elem? xs i p e,
      eq_ℤ_iff x.fd f,
      eq_ℤ_iff p.fd f,
    )

pub Apart-erase_idx :
    (ps : List PollFd) (i : ℕ) (p : PollFd)
    → Apart (fds_of ps)
    → get_elem? ps i ≡ some p
    → Apart (fds_of (erase_idx ps i))
unfolding erase_idx
Apart-erase_idx [] i p d e = cc
Apart-erase_idx (x ∷ xs) zero p d e = d.1
Apart-erase_idx (x ∷ xs) (suc i) p d e = (
  let h = d.0 in ground (arith, has_socket-erase_idx x.fd xs i p d.1 e),
  Apart-erase_idx xs i p d.1 e,
)

pub Apart-append : (f : ℤ) (fs : List ℤ) → has_socket f fs ≡ false → Apart fs → Apart (fs ++ f ∷ [])
unfolding has_socket
Apart-append f [] out d = (refl, tt)
Apart-append f (g ∷ gs) out d = (
  let h = d.0 in ground (arith, has_socket-append g f gs, eq_ℤ_iff f g, eq_ℤ_iff g f),
  Apart-append f gs (ground arith) d.1,
)

-- The first entry stays the first when another is taken out, or one is added.
pub first-erase_idx :
    (g : ℤ) (ps : List PollFd) (i : ℕ) (p : PollFd)
    → get_elem? (fds_of ps) 0 ≡ some g
    → get_elem? ps i ≡ some p
    → eq_ℤ p.fd g ≡ false
    → get_elem? (fds_of (erase_idx ps i)) 0 ≡ some g
unfolding erase_idx
first-erase_idx g [] i p h e n = cc
first-erase_idx g (x ∷ xs) zero p h e n =
    let q : x ≡ p = cc in ground (arith, h, n, ap (λ y. y.fd) q, eq_ℤ_iff x.fd g)
first-erase_idx g (x ∷ xs) (suc i) p h e n = h

pub first-append :
    (g f : ℤ) (fs : List ℤ) → get_elem? fs 0 ≡ some g → get_elem? (fs ++ f ∷ []) 0 ≡ some g
first-append g f [] h = cc
first-append g f (x ∷ xs) h = h
