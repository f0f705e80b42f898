-- ===== src/Subscriber/Setup/Polling.antt =====
-- The poll vector that `init_client` makes.
use tcp_client_server.Prelude.{
  ℕ, ◌≡◌, refl, ◌⊎◌, inl, inr, false, List, [], ◌∷◌, Option, none, some, arith, Option-cases, store,
}
use tcp_client_server.Prelude.Int.{ℤ, pos}
use tcp_client_server.Errors.{ok}
use tcp_client_server.Os.{Os}
use tcp_client_server.Os.Quiet.{Quiet}
use tcp_client_server.PollVec.{
  PollFd, PollVec, contents, create_poll_vec, poll_vec_add_fd, grow, append_fd,
}
use tcp_client_server.PollVec.Invariant as poll
use tcp_client_server.PollVec.Contents.{entry}
use tcp_client_server.Inet.{Inet, add_or_free}
use tcp_client_server.Server.Handlers.{is_ok}
use tcp_client_server.Subscriber.Setup.{init_client_poll_vec}

-- What is polled from the start: the standard input, and the socket in both directions.
abbrev pub session_entries : ℤ → List PollFd
session_entries fd = entry (pos 0) 1 ∷ entry fd 5 ∷ []

module _ (os : Os) (inet : Inet os) (P : os.World → Type 0) (quiet : Quiet os P) where
  open os use {World}

  abbrev empty_vec : PollVec
  empty_vec = record { pfds = some []; nfds = 0; capacity = 2 }

  create_poll_vec_lem :
      (w : World)
      → P w
      → let r = create_poll_vec os (some none) 2 w in
        P r.2 × ((is_ok r.0 ≡ false) ⊎ ((r.0 ≡ ok) × (r.1 ≡ some (some empty_vec))))
  unfolding create_poll_vec
  create_poll_vec_lem w h =
      let h₁ = quiet.after_malloc 24 w h in
      let w₁ : World = (os.malloc 24 w).1 in
      let h₂ = quiet.after_malloc 16 w₁ h₁ in
      elim (Option-cases (os.malloc 24 w).0) [
        | inl e ↦ rw (e, create_poll_vec) (h₁, inl refl)
        | inr (_, e) ↦ elim (Option-cases (os.malloc 16 w₁).0) [
          | inl e' ↦ rw (e, e', create_poll_vec) (h₂, inl refl)
          | inr (_, e') ↦ rw (e, e', create_poll_vec) (h₂, inr (refl, refl))
        ]
      ]

  abbrev with_entries : List PollFd → ℕ → PollVec
  with_entries ps n = record { pfds = some ps; nfds = n; capacity = 2 }

  add_first :
      (fd : ℤ) (w : World)
      → add_or_free os fd 1 (some empty_vec) w ≡ (some (with_entries (entry fd 1 ∷ []) 1), w)
  unfolding add_or_free poll_vec_add_fd grow append_fd store
  add_first fd w = refl

  add_second :
      (p : PollFd) (fd : ℤ) (w : World)
      → add_or_free os fd 5 (some (with_entries (p ∷ []) 1)) w
        ≡ (some (with_entries (p ∷ entry fd 5 ∷ []) 2), w)
  unfolding add_or_free poll_vec_add_fd grow append_fd store
  add_second p fd w = refl

  -- What making the poll vector may come to.
  abbrev pub Polls : ℤ → Option PollVec × World → Type 0
  Polls fd (o, w) =
      P w
      × ((o ≡ none)
          ⊎ ((v : PollVec) × (o ≡ some v) × poll.IsValid v × (contents v ≡ session_entries fd)))

  pub init_client_poll_vec-Polls :
      (fd : ℤ) (w : World) → P w → Polls fd (init_client_poll_vec os inet fd w)
  unfolding init_client_poll_vec
  init_client_poll_vec-Polls fd w h =
      let (h₁, how) = create_poll_vec_lem w h in
      elim how [
        | inl e ↦ rw (e, init_client_poll_vec) (h₁, inl refl)
        | inr (e, e') ↦
            rw (e, e', add_first, e', add_first, add_second, init_client_poll_vec)
              (h₁, inr (_, refl, omega arith, refl))
      ]
