-- ===== src/PollVec/Quiet.antt =====
-- Adding a descriptor keeps what its calls of the system keep.
use tcp_client_server.Prelude.{ℕ, inl, inr, some, ◌==◌, Bool-cases, Option-cases}
use tcp_client_server.Prelude.Int.{ℤ}
use tcp_client_server.Os.{Os, mul_size, realloc_factor}
use tcp_client_server.Os.Quiet.{Quiet}
use tcp_client_server.PollVec.{PollVec, sizeof_pollfd, grow, poll_vec_add_fd}

module _ (os : Os) (P : os.World → Type 0) (quiet : Quiet os P) where
  open os use {World}

  grow-Quiet : (v : PollVec) (w : World) → P w → P (grow os v w).1
  unfolding grow
  grow-Quiet v w h =
      let h₁ = quiet.after_realloc size w h in
      elim (Bool-cases (v.nfds == v.capacity)) [
        | inr q ↦ rw (q, grow) h
        | inl q ↦ elim (Option-cases (os.realloc size w).0) [
          | inl e ↦ rw (q, e, grow) h₁
          | inr (_, e) ↦ rw (q, e, grow) h₁
        ]
      ]
    where
      size : ℕ
      size = mul_size (mul_size sizeof_pollfd v.capacity) realloc_factor

  pub poll_vec_add_fd-Quiet :
      (v : PollVec) (fd : ℤ) (fd_events : ℕ) (w : World)
      → P w
      → P (poll_vec_add_fd os (some v) fd fd_events w).2
  unfolding poll_vec_add_fd
  poll_vec_add_fd-Quiet v fd fd_events w h =
      let h₁ = grow-Quiet v w h in
      elim (Option-cases (grow os v w).0) [
        | inl e ↦ rw (e, poll_vec_add_fd) h₁
        | inr (_, e) ↦ rw (e, poll_vec_add_fd) h₁
      ]
