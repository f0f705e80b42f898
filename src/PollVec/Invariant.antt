-- ===== src/PollVec/Invariant.antt =====
-- The poll vector stays inside its memory, and its size never wraps.
use tcp_client_server.Prelude.{
  ℕ, ◌+◌, ◌-◌, ◌*◌, ◌≤◌, ◌<◌, ◌≡◌, ◌⊎◌, refl, inl, inr, List, Option, none, some, arith, ◌==◌,
  Bool-cases, Option-cases, length, store, shift_down, length-store-le, length-store_written,
  length-shift_down,
}
use mathlib.Core.Option
use tcp_client_server.Prelude.Int.{ℤ}
use tcp_client_server.Os.{Os, mul_size, realloc_factor}
use tcp_client_server.Os.Laws.{ReallocLimit, ptrdiff_max, size_in_limit}
use tcp_client_server.PollVec.{PollFd, PollVec, sizeof_pollfd, grow, append_fd}

-- The cells in use have been written, and all written cells lie in the array.
abbrev pub HasCells : Option (List PollFd) → ℕ → ℕ → Type 0
HasCells none nfds capacity = ⊥
HasCells (some ps) nfds capacity = (nfds ≤ length ps) × (length ps ≤ capacity)

pub record IsValid (v : PollVec) : Type 0 where
  pub has_cells : HasCells v.pfds v.nfds v.capacity
  pub has_room : 0 < v.capacity
  pub fits : sizeof_pollfd * v.capacity ≤ ptrdiff_max

-- A property of the vector behind a pointer, if there is one.
abbrev pub Behind {ℓ} : (PollVec → Type ℓ) → Option PollVec → Type ℓ
Behind P none = Unit
Behind P (some v) = P v

-- As `IsValid`, with room for one more entry.
abbrev pub HasRoom : PollVec → Type 0
HasRoom v = IsValid v × (v.nfds < v.capacity)

HasCells-store :
    (pfds : Option (List PollFd)) (n c : ℕ) (p : PollFd)
    → HasCells pfds n c
    → n < c
    → HasCells (Option.map (λ ps. store ps n p) pfds) (n + 1) c
HasCells-store none n c p h hn = h
HasCells-store (some ps) n c p h hn = elim (dec_length ps n h.0) [
  | inl e ↦ omega (arith, length-store-le ps n p)
  | inr l ↦ omega (arith, length-store-le ps n p, length-store_written ps n p l)
]
  where
    dec_length : (ps : List PollFd) (n : ℕ) → n ≤ length ps → (length ps ≡ n) ⊎ (n < length ps)
    dec_length ps n h = grind arith

pub HasCells-shift :
    (pfds : Option (List PollFd)) (k i n c : ℕ)
    → HasCells pfds n c
    → HasCells (Option.map (shift_down k i) pfds) (n - 1) c
HasCells-shift none k i n c h = h
HasCells-shift (some ps) k i n c h = omega (arith, length-shift_down k i ps)

pub append_fd-IsValid :
    (v : PollVec) (fd : ℤ) (fd_events : ℕ) → HasRoom v → IsValid (append_fd v fd fd_events)
unfolding append_fd
append_fd-IsValid v fd fd_events (valid, room) = record {
  has_cells = HasCells-store v.pfds v.nfds v.capacity _ valid.has_cells room;
  has_room = valid.has_room;
  fits = valid.fits;
}

nfds-le-capacity : (pfds : Option (List PollFd)) (n c : ℕ) → HasCells pfds n c → n ≤ c
nfds-le-capacity none n c h = absurd h
nfds-le-capacity (some ps) n c h = omega arith

-- What `grow` gives back: nothing, or the same entries with room for one more.
abbrev pub Grown : PollVec → Option PollVec → Type 0
Grown v none = v.nfds ≡ v.capacity
Grown v (some v') = HasRoom v' × (v'.pfds ≡ v.pfds) × (v'.nfds ≡ v.nfds)

double_capacity :
    (v : PollVec)
    → v.nfds ≡ v.capacity
    → IsValid v
    → mul_size (mul_size sizeof_pollfd v.capacity) realloc_factor ≤ ptrdiff_max
    → IsValid (record v { capacity = mul_size v.capacity realloc_factor })
      × (v.nfds < mul_size v.capacity realloc_factor)
double_capacity v e valid h = (
  record { has_cells = wider v.pfds valid.has_cells; has_room = omega arith; fits = omega arith },
  omega arith,
)
  where
    wider :
        (pfds : Option (List PollFd))
        → HasCells pfds v.nfds v.capacity
        → HasCells pfds v.nfds (mul_size v.capacity realloc_factor)
    wider none h = h
    wider (some ps) h = omega arith

module _ (os : Os) (limit : ReallocLimit os) where
  pub grow-Grown : (v : PollVec) (w : os.World) → IsValid v → Grown v (grow os v w).0
  unfolding grow
  grow-Grown v w valid = elim (Bool-cases (v.nfds == v.capacity)) [
    | inl full ↦ elim (Option-cases (os.realloc size w).0) [
      | inl e ↦ rw (full, e) (ground arith)
      | inr (a, e) ↦
          rw (full, e)
            (double_capacity v (ground arith) valid (size_in_limit os limit size w e), refl, refl)
    ]
    | inr free ↦ rw free (
      (valid, ground (arith, nfds-le-capacity v.pfds v.nfds v.capacity valid.has_cells)),
      refl,
      refl,
    )
  ]
    where
      size : ℕ
      size = mul_size (mul_size sizeof_pollfd v.capacity) realloc_factor
