-- ===== src/Inet/Polling.antt =====
-- `poll` writes only to the events that it reports.
use tcp_client_server.Prelude.{
  ℕ, zero, suc, ◌≡◌, refl, ap, List, [], ◌∷◌, Option, none, some, take, length, arith, true, ◌==◌,
  ◌%◌, get_elem?,
}
use mathlib.Core.Option
use tcp_client_server.Os.{Os}
use tcp_client_server.PollVec.{PollFd, PollVec, contents, cells}
use tcp_client_server.PollVec.Invariant as poll
use tcp_client_server.PollVec.Invariant.{HasCells}
use tcp_client_server.Server.Descriptors.Polled.{fds, fds_of}
use tcp_client_server.Inet.{Inet, with_revents, poll_fds, stdin_ready, is_pollin}
use tcp_client_server.Prelude.Int.{pos}

length-with_revents : (ps : List PollFd) (es : List ℕ) → length (with_revents ps es) ≡ length ps
unfolding with_revents
length-with_revents [] es = refl
length-with_revents (p ∷ ps) [] = refl
length-with_revents (p ∷ ps) (e ∷ es) = ap suc (length-with_revents ps es)

fds-with_revents :
    (n : ℕ) (ps : List PollFd) (es : List ℕ)
    → fds_of (take n (with_revents ps es)) ≡ fds_of (take n ps)
unfolding with_revents
fds-with_revents n [] es = refl
fds-with_revents n (p ∷ ps) [] = refl
fds-with_revents zero (p ∷ ps) (e ∷ es) = refl
fds-with_revents (suc n) (p ∷ ps) (e ∷ es) = ap (◌∷◌ p.fd) (fds-with_revents n ps es)

HasCells-with_revents :
    (pfds : Option (List PollFd)) (es : List ℕ) (n c : ℕ)
    → HasCells pfds n c
    → HasCells (Option.map (λ ps. with_revents ps es) pfds) n c
HasCells-with_revents none es n c h = h
HasCells-with_revents (some ps) es n c h = omega (arith, length-with_revents ps es)

fds-cells :
    (pfds : Option (List PollFd)) (es : List ℕ) (n : ℕ)
    → fds_of (take n (cells (Option.map (λ ps. with_revents ps es) pfds)))
      ≡ fds_of (take n (cells pfds))
fds-cells none es n = refl
fds-cells (some ps) es n = fds-with_revents n ps es

-- The first entry is the standard input, and `poll` reports that it has something to read.
first_ready :
    (pfds : Option (List PollFd)) (n e : ℕ) (es : List ℕ)
    → get_elem? (fds_of (take n (cells pfds))) 0 ≡ some (pos 0)
    → (e % 2 == 1) ≡ true
    → (p : PollFd) × (get_elem?
          (take n (cells (Option.map (λ ps. with_revents ps (take n (e ∷ es))) pfds)))
          0
        ≡ some p)
      × (p.fd ≡ pos 0)
      × (p.revents ≡ e)
unfolding with_revents
first_ready none zero e es h odd = cc
first_ready none (suc n) e es h odd = cc
first_ready (some []) zero e es h odd = cc
first_ready (some []) (suc n) e es h odd = cc
first_ready (some (p ∷ ps)) zero e es h odd = cc
first_ready (some (p ∷ ps)) (suc n) e es h odd =
    (record p { revents = e }, refl, ground (arith, h), refl)

module _ (os : Os) (inet : Inet os) where
  open os use {World}

  pub poll_fds-IsValid :
      (v : PollVec) (w : os.World)
      → poll.IsValid v
      → poll.IsValid (poll_fds os inet v w).1 × (fds (poll_fds os inet v w).1 ≡ fds v)
  unfolding poll_fds
  poll_fds-IsValid v w valid = (
    record {
      has_cells = HasCells-with_revents v.pfds _ v.nfds v.capacity valid.has_cells;
      has_room = valid.has_room;
      fits = valid.fits;
    },
    fds-cells v.pfds _ v.nfds,
  )

  pub stdin_ready_lem :
      (v : PollVec) (w : World) (e : ℕ) (es : List ℕ)
      → get_elem? (fds v) 0 ≡ some (pos 0)
      → (inet.poll (contents v) w).1 ≡ e ∷ es
      → (e % 2 == 1) ≡ true
      → stdin_ready (poll_fds os inet v w).1 ≡ true
  unfolding stdin_ready poll_fds is_pollin
  stdin_ready_lem v w e es first polled odd =
      let (p, at, stdin, revents) = first_ready v.pfds v.nfds e es first odd in
      rw polled (rw at (ground (arith, stdin, revents, odd)))

  take-with_revents :
      (n : ℕ) (ps : List PollFd) (es : List ℕ)
      → take n (with_revents ps (take n es)) ≡ with_revents (take n ps) es
  unfolding with_revents
  take-with_revents zero ps es = refl
  take-with_revents (suc n) [] es = refl
  take-with_revents (suc n) (p ∷ ps) [] = refl
  take-with_revents (suc n) (p ∷ ps) (e ∷ es) =
      ap (◌∷◌ (record p { revents = e })) (take-with_revents n ps es)

  cells-with_revents :
      (pfds : Option (List PollFd)) (n : ℕ) (es : List ℕ)
      → take n (cells (Option.map (λ ps. with_revents ps (take n es)) pfds))
        ≡ with_revents (take n (cells pfds)) es
  unfolding with_revents
  cells-with_revents none zero es = refl
  cells-with_revents none (suc n) es = refl
  cells-with_revents (some ps) n es = take-with_revents n ps es

  pub contents-poll_fds :
      (v : PollVec) (w : World)
      → contents (poll_fds os inet v w).1 ≡ with_revents (contents v) (inet.poll (contents v) w).1
  unfolding poll_fds
  contents-poll_fds v w = cells-with_revents v.pfds v.nfds (inet.poll (contents v) w).1
