-- ===== src/Server/Setup/Buffers.antt =====
-- The allocations of `init_server`, and the poll vector that it makes.
use tcp_client_server.Prelude.{
  ℕ, ◌≡◌, ◌⊎◌, refl, inl, inr, Bool, true, false, List, [], ◌∷◌, Option, none, some, arith,
  Bool-cases, Option-cases, store,
}
use tcp_client_server.Prelude.Int.{ℤ, pos}
use tcp_client_server.Errors.{Err, ok}
use tcp_client_server.Os.{Os}
use tcp_client_server.Os.Quiet.{Quiet}
use tcp_client_server.PollVec.{
  PollFd, PollVec, contents, create_poll_vec, poll_vec_add_fd, grow, append_fd,
}
use tcp_client_server.PollVec.Invariant as poll
use tcp_client_server.PollVec.Contents.{entry}
use tcp_client_server.ClientVec.{ClientVec, malloc_all, create_clients_vec}
use tcp_client_server.ClientVec.Quiet.{malloc_all-Quiet}
use tcp_client_server.ClientVec.Invariant.{IsValid}
use tcp_client_server.Server.Handlers.{is_ok}
use tcp_client_server.Inet.{add_or_free}
use tcp_client_server.Server.Setup.{
  init_server_buffers, init_server_poll_vec, init_clients, init_nfds,
}

-- What is polled from the start: the standard input and the two sockets.
abbrev pub first_entries : ℤ → ℤ → List PollFd
first_entries udp_socket tcp_socket = entry (pos 0) 1 ∷ entry udp_socket 1 ∷ entry tcp_socket 1 ∷ []

module _ (os : Os) (P : os.World → Type 0) (quiet : Quiet os P) where
  open os use {World}

  pub init_server_buffers-Quiet : (w : World) → P w → P (init_server_buffers os w).1
  unfolding init_server_buffers
  init_server_buffers-Quiet w h =
      let sizes : List ℕ = 8096 ∷ 10 ∷ 2050 ∷ 2050 ∷ [] in
      let h₁ = malloc_all-Quiet os P quiet sizes w h in
      elim (Bool-cases (malloc_all os sizes w).0) [
        | inl e ↦ rw (e, init_server_buffers) (quiet.after_malloc _ _ h₁)
        | inr e ↦ rw (e, init_server_buffers) h₁
      ]

  -- What making the poll vector may come to.
  abbrev pub Polls : ℤ → ℤ → Option PollVec × World → Type 0
  Polls udp_socket tcp_socket (o, w) =
      P w
      × ((o ≡ none)
          ⊎ ((v : PollVec) × (o ≡ some v)
              × poll.IsValid v
              × (contents v ≡ first_entries udp_socket tcp_socket)))

  abbrev empty_vec : PollVec
  empty_vec = record { pfds = some []; nfds = 0; capacity = init_nfds }

  abbrev pub Creates : Err × Option (Option PollVec) × World → Type 0
  Creates r = P r.2 × ((is_ok r.0 ≡ false) ⊎ ((r.0 ≡ ok) × (r.1 ≡ some (some empty_vec))))

  pub create_poll_vec-Creates :
      (w : World) → P w → Creates (create_poll_vec os (some none) init_nfds w)
  unfolding create_poll_vec
  create_poll_vec-Creates w h =
      let h₁ = quiet.after_malloc 24 w h in
      let w₁ : World = (os.malloc 24 w).1 in
      let h₂ = quiet.after_malloc 80 w₁ h₁ in
      elim (Option-cases (os.malloc 24 w).0) [
        | inl e ↦ rw (e, create_poll_vec) (h₁, inl refl)
        | inr (_, e) ↦ elim (Option-cases (os.malloc 80 w₁).0) [
          | inl e' ↦ rw (e, e', create_poll_vec) (h₂, inl refl)
          | inr (_, e') ↦ rw (e, e', create_poll_vec) (h₂, inr (refl, refl))
        ]
      ]

  abbrev with_entries : List PollFd → ℕ → PollVec
  with_entries ps n = record { pfds = some ps; nfds = n; capacity = init_nfds }

  pub add_first :
      (fd : ℤ) (w : World)
      → add_or_free os fd 1 (some empty_vec) w ≡ (some (with_entries (entry fd 1 ∷ []) 1), w)
  unfolding add_or_free poll_vec_add_fd grow append_fd store
  add_first fd w = refl

  add_second :
      (p : PollFd) (fd : ℤ) (w : World)
      → add_or_free os fd 1 (some (with_entries (p ∷ []) 1)) w
        ≡ (some (with_entries (p ∷ entry fd 1 ∷ []) 2), w)
  unfolding add_or_free poll_vec_add_fd grow append_fd store
  add_second p fd w = refl

  add_third :
      (p q : PollFd) (fd : ℤ) (w : World)
      → add_or_free os fd 1 (some (with_entries (p ∷ q ∷ []) 2)) w
        ≡ (some (with_entries (p ∷ q ∷ entry fd 1 ∷ []) 3), w)
  unfolding add_or_free poll_vec_add_fd grow append_fd store
  add_third p q fd w = refl

  pub init_server_poll_vec-Polls :
      (udp_socket tcp_socket : ℤ) (w : World)
      → P w
      → Polls udp_socket tcp_socket (init_server_poll_vec os udp_socket tcp_socket w)
  unfolding init_server_poll_vec
  init_server_poll_vec-Polls udp_socket tcp_socket w h =
      let (h₁, how) = create_poll_vec-Creates w h in
      elim how [
        | inl e ↦ rw (e, init_server_poll_vec) (h₁, inl refl)
        | inr (e, e') ↦
            rw
              (
                e, e', add_first, e', add_first, add_second, e', add_first, add_second, add_third,
                init_server_poll_vec,
              )
              (h₁, inr (_, refl, omega arith, refl))
      ]

  -- The same for the table of clients.
  abbrev pub Tables : Bool × Option (Option ClientVec) × World → Type 0
  Tables (b, o, w) =
      P w
      × ((b ≡ false)
          ⊎ ((b ≡ true) × (o ≡ some (some (record { entities = []; capacity = init_clients })))))

  pub create_clients_vec-Tables :
      (w : World)
      → P w
      → let (e, o, w') = create_clients_vec os (some none) init_clients w in Tables (is_ok e, o, w')
  unfolding create_clients_vec
  create_clients_vec-Tables w h =
      let h₁ = quiet.after_malloc 24 w h in
      let w₁ : World = (os.malloc 24 w).1 in
      let h₂ = quiet.after_malloc 800 w₁ h₁ in
      elim (Option-cases (os.malloc 24 w).0) [
        | inl e ↦ rw (e, create_clients_vec) (h₁, inl refl)
        | inr (_, e) ↦ elim (Option-cases (os.malloc 800 w₁).0) [
          | inl e' ↦ rw (e, e', create_clients_vec) (h₂, inl refl)
          | inr (_, e') ↦ rw (e, e', create_clients_vec) (h₂, inr (refl, refl))
        ]
      ]

pub no_clients-IsValid : IsValid (record { entities = []; capacity = init_clients })
no_clients-IsValid = omega arith
