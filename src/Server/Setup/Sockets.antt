-- ===== src/Server/Setup/Sockets.antt =====
-- Making the two sockets of the server: which descriptors are open after it, on every branch.
use tcp_client_server.Prelude.{
  ℕ, ◌≡◌, refl, ap, ◌∙◌, inl, inr, Bool, true, false, ◌||◌, ◌&&◌, not, Bool-cases,
}
use tcp_client_server.Prelude.Int.{ℤ, pos, eq_ℤ, is_neg}
use tcp_client_server.Os.{Os}
use tcp_client_server.Inet.{Inet, Sockets, sock_stream, sock_dgram}
use tcp_client_server.Server.Events.{Net}
use tcp_client_server.Server.Descriptors.{Descriptors, SameOpen}
use tcp_client_server.Server.Setup.{init_server_udp_socket, init_server_tcp_socket, any_addr}

module _ (os : Os) (net : Net os) (d : Descriptors os net) where
  -- A descriptor is open that was not.
  pub record Opened (fd : ℤ) (w w' : os.World) : Type 0 where
    pub open_fd : is_neg fd ≡ false
    pub fresh : d.is_open fd w ≡ false
    pub one_more : (f : ℤ) → d.is_open f w' ≡ (d.is_open f w || eq_ℤ fd f)

  -- How making a socket may end: with the socket and the result 0, with a negative result and no socket, or
  -- with a negative result and a socket that stays open.
  pub data Makes (w : os.World) : ℤ × ℤ × os.World → Type 0 where
    made : {fd : ℤ} {w' : os.World} → Opened fd w w' → Makes w (pos 0, fd, w')
    no_socket :
        {r fd : ℤ} {w' : os.World} → is_neg r ≡ true → SameOpen os net d w w' → Makes w (r, fd, w')
    left_open : {r fd : ℤ} {w' : os.World} → is_neg r ≡ true → Opened fd w w' → Makes w (r, fd, w')

module _ (os : Os) (net : Net os) (d : Descriptors os net) (inet : Inet os)
    (laws : Sockets os net d inet) where
  open os use {World}

  pub new_socket :
      (type : ℕ) (w w' : World)
      → is_neg (inet.socket type w).0 ≡ false
      → SameOpen os net d (inet.socket type w).1 w'
      → Opened os net d (inet.socket type w).0 w w'
  new_socket type w w' n same = record {
    open_fd = n;
    fresh = laws.socket_fresh type w n;
    one_more = λ f.
        same f
        ∙ laws.open-socket f type w
        ∙ ap (λ b. d.is_open f w || (not b && eq_ℤ (inet.socket type w).0 f)) n;
  }

  pub failed_socket :
      (type : ℕ) (w : World)
      → is_neg (inet.socket type w).0 ≡ true
      → SameOpen os net d w (inet.socket type w).1
  failed_socket type w n f = laws.open-socket f type w ∙ rw n (or_false (d.is_open f w))
    where
      or_false : (b : Bool) → (b || false) ≡ b
      or_false true = refl
      or_false false = refl

  pub init_server_udp_socket-Makes :
      (hport : ℕ) (w : World) → Makes os net d w (init_server_udp_socket os inet hport w)
  unfolding init_server_udp_socket
  init_server_udp_socket-Makes hport w = elim (Bool-cases (is_neg fd)) [
    | inl n ↦ rw (n, init_server_udp_socket) (no_socket n (failed_socket sock_dgram w n))
    | inr n ↦ elim (Bool-cases (is_neg (inet.bind fd (any_addr hport) w₁).0)) [
      | inl b ↦
          rw (n, b, init_server_udp_socket)
            (left_open refl (new_socket sock_dgram w _ n (λ f. laws.open-bind f fd _ w₁)))
      | inr b ↦
          rw (n, b, init_server_udp_socket)
            (made (new_socket sock_dgram w _ n (λ f. laws.open-bind f fd _ w₁)))
    ]
  ]
    where
      fd : ℤ
      fd = (inet.socket sock_dgram w).0

      w₁ : World
      w₁ = (inet.socket sock_dgram w).1

  pub init_server_tcp_socket-Makes :
      (hport : ℕ) (w : World) → Makes os net d w (init_server_tcp_socket os inet hport w)
  unfolding init_server_tcp_socket
  init_server_tcp_socket-Makes hport w = elim (Bool-cases (is_neg fd)) [
    | inl n ↦ rw (n, init_server_tcp_socket) (no_socket n (failed_socket sock_stream w n))
    | inr n ↦ elim (Bool-cases (is_neg (inet.setsockopt fd w₁).0)) [
      | inl a ↦
          rw (n, a, init_server_tcp_socket) (left_open refl (new_socket sock_stream w _ n set))
      | inr a ↦ elim (Bool-cases (is_neg (inet.bind fd (any_addr hport) w₂).0)) [
        | inl b ↦
            rw (n, a, b, init_server_tcp_socket)
              (left_open refl (new_socket sock_stream w _ n bound))
        | inr b ↦ elim (Bool-cases (is_neg (inet.listen fd 10 w₃).0)) [
          | inl c ↦
              rw (n, a, b, c, init_server_tcp_socket)
                (left_open refl (new_socket sock_stream w _ n listening))
          | inr c ↦
              rw (n, a, b, c, init_server_tcp_socket)
                (made (new_socket sock_stream w _ n listening))
        ]
      ]
    ]
  ]
    where
      fd : ℤ
      fd = (inet.socket sock_stream w).0

      w₁ : World
      w₁ = (inet.socket sock_stream w).1

      w₂ : World
      w₂ = (inet.setsockopt fd w₁).1

      w₃ : World
      w₃ = (inet.bind fd (any_addr hport) w₂).1

      set : SameOpen os net d w₁ w₂
      set f = laws.open-setsockopt f fd w₁

      bound : SameOpen os net d w₁ w₃
      bound f = laws.open-bind f fd _ w₂ ∙ set f

      listening : SameOpen os net d w₁ (inet.listen fd 10 w₃).1
      listening f = laws.open-listen f fd 10 w₃ ∙ bound f
