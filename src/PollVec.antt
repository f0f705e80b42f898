-- ===== src/PollVec.antt =====
-- poll_vec.h and poll_vec.c: the growing vector of `struct pollfd`. A pointer to the vector is an
-- `Option`, with `none` for NULL; a function that writes through it returns the vector it leaves.
pub mod Invariant
pub mod Contents
pub mod Quiet
mod Tests
use tcp_client_server.Prelude.{
  ℕ, suc, ◌+◌, ◌-◌, List, [], ◌∷◌, Option, none, some, leb, ◌==◌, if◌then◌else◌, take, get_elem?,
  store, shift_down,
}
use mathlib.Core.Option
use tcp_client_server.Prelude.Int.{ℤ}
use tcp_client_server.Errors.{
  Err, ok, poll_vec_input_is_not_null, poll_vec_input_is_null, poll_vec_failed_allocation,
  poll_vec_failed_realloc, poll_vec_input_fd_idx_out_of_bound,
}
use tcp_client_server.Os.{Os, mul_size, realloc_factor}

-- `struct pollfd`, where a set of events is its bit mask.
pub record PollFd : Type 0 where
  pub fd : ℤ
  pub events : ℕ
  pub revents : ℕ

-- `poll_vec_t`. The array is the list of the cells written so far, at most `capacity` of them, of
-- which the first `nfds` are in use; `none` is a NULL array.
pub record PollVec : Type 0 where
  pub pfds : Option (List PollFd)
  pub nfds : ℕ
  pub capacity : ℕ

abbrev pub sizeof_poll_vec : ℕ
sizeof_poll_vec = 24

abbrev pub sizeof_pollfd : ℕ
sizeof_pollfd = 8

abbrev pub cells : Option (List PollFd) → List PollFd
cells none = []
cells (some xs) = xs

-- The entries in use.
abbrev pub contents : PollVec → List PollFd
contents v = take v.nfds (cells v.pfds)

-- The new entry is written behind those in use.
unfoldable pub append_fd : PollVec → ℤ → ℕ → PollVec
append_fd v fd fd_events = record v {
  pfds =
      Option.map (λ ps. store ps v.nfds (record { fd = fd; events = fd_events; revents = 0 }))
        v.pfds;
  nfds = v.nfds + 1;
}

module _ (os : Os) where
  open os use {World, malloc, realloc, close}

  -- If the array cannot be allocated, the structure stays behind the pointer with a NULL array.
  unfoldable pub create_poll_vec :
      Option (Option PollVec) → ℕ → World → Err × Option (Option PollVec) × World
  create_poll_vec none init_nfds w = (poll_vec_input_is_not_null, none, w)
  create_poll_vec (some (some v)) init_nfds w = (poll_vec_input_is_not_null, some (some v), w)
  create_poll_vec (some none) init_nfds w =
      let (vec, w₁) = malloc sizeof_poll_vec w in
      let (array, w₂) = malloc (mul_size sizeof_pollfd init_nfds) w₁ in
      elim vec [
        | none ↦ (poll_vec_failed_allocation, some none, w₁)
        | some _ ↦ elim array [
          | none ↦ (
            poll_vec_failed_allocation,
            some (some (record { pfds = none; nfds = 0; capacity = init_nfds })),
            w₂,
          )
          | some _ ↦
              (ok, some (some (record { pfds = some []; nfds = 0; capacity = init_nfds })), w₂)
        ]
      ]

  -- `for (iter = 0; iter < nfds; ++iter) close(pfds[iter].fd)`
  unfoldable pub close_all : List PollFd → World → World
  close_all [] w = w
  close_all (p ∷ ps) w = close_all ps (close p.fd w)

  unfoldable pub free_poll_vec :
      Option (Option PollVec) → World → Err × Option (Option PollVec) × World
  free_poll_vec none w = (poll_vec_input_is_null, none, w)
  free_poll_vec (some none) w = (poll_vec_input_is_null, some none, w)
  free_poll_vec (some (some v)) w = (ok, some none, close_all (contents v) w)

  -- Adds memory for new entries when all cells are taken; `none` if there is no more.
  unfoldable pub grow : PollVec → World → Option PollVec × World
  grow v w =
      let (array, w₁) = realloc (mul_size (mul_size sizeof_pollfd v.capacity) realloc_factor) w in
      if v.nfds == v.capacity
      then elim array [
        | none ↦ (none, w₁)
        | some _ ↦ (some (record v { capacity = mul_size v.capacity realloc_factor }), w₁)
      ]
      else (some v, w)

  unfoldable pub poll_vec_add_fd : Option PollVec → ℤ → ℕ → World → Err × Option PollVec × World
  poll_vec_add_fd none fd fd_events w = (poll_vec_input_is_null, none, w)
  poll_vec_add_fd (some v) fd fd_events w =
      let (grown, w₁) = grow v w in
      elim grown [
        | none ↦ (poll_vec_failed_realloc, some v, w₁)
        | some v' ↦ (ok, some (append_fd v' fd fd_events), w₁)
      ]

  -- `close(vec->pfds[fd_idx].fd)`
  unfoldable pub close_at : List PollFd → ℕ → World → World
  close_at ps i w = elim (get_elem? ps i) [ none ↦ w | some p ↦ close p.fd w ]

  -- The loop runs from `fd_idx` to `nfds - 1`, which is that many rounds.
  unfoldable pub poll_vec_remove_fd : Option PollVec → ℕ → World → Err × Option PollVec × World
  poll_vec_remove_fd none fd_idx w = (poll_vec_input_is_null, none, w)
  poll_vec_remove_fd (some v) fd_idx w =
      if leb v.nfds fd_idx then (poll_vec_input_fd_idx_out_of_bound, some v, w) else (
        ok,
        some (record v {
          pfds = Option.map (shift_down (v.nfds - 1 - fd_idx) fd_idx) v.pfds;
          nfds = v.nfds - 1;
        }),
        close_at (cells v.pfds) fd_idx w,
      )
