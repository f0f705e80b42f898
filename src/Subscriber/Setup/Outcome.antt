-- ===== src/Subscriber/Setup/Outcome.antt =====
-- `init_client` on every branch: which descriptors are open then.
use tcp_client_server.Prelude.{
  ℕ, ◌≡◌, refl, ap, ◌∙◌, inl, inr, Bool, true, false, ◌||◌, ◌&&◌, not, [], ◌∷◌, Option, none, some,
  arith, ◌==◌, Bool-cases, Option-cases, ==_iff, Text,
}
use tcp_client_server.Prelude.Int.{ℤ, pos, eq_ℤ, eq_ℤ_iff, is_neg}
use tcp_client_server.Errors.{
  Err, ok, invalid_port_number, client_failed_allocation, client_failed_tcp, client_failed_poll_vec,
}
use tcp_client_server.Os.{Os}
use tcp_client_server.PollVec.Invariant as poll
use tcp_client_server.ClientVec.Quiet.{malloc_all-Quiet}
use tcp_client_server.Tcp.{TcpMsg, memory_of, sizeof_tcp_msg, send_tcp_msg}
use tcp_client_server.Tcp.Quiet.{send_tcp_msg-Quiet}
use tcp_client_server.Udp.{SockAddr}
use tcp_client_server.Inet.{Inet, Sockets, sock_stream, htons, af_inet}
use tcp_client_server.Server.Events.{Net}
use tcp_client_server.Server.Handlers.{is_ok}
use tcp_client_server.Server.Descriptors.{Descriptors, SameOpen, SameOpen-Quiet}
use tcp_client_server.Server.Setup.Sockets.{
  Opened, Makes, made, no_socket, left_open, new_socket, failed_socket,
}
use tcp_client_server.Server.Setup.{empty_msg, zeroed}
use tcp_client_server.Subscriber.Setup.{
  Session, id_msg, init_client_tcp_socket, init_client_poll_vec, init_client_buffers,
  connect_client, init_client,
}
use tcp_client_server.Server.Descriptors.Polled.{fds}
use tcp_client_server.Subscriber.Setup.Polling.{init_client_poll_vec-Polls}

module _ (os : Os) (net : Net os) (d : Descriptors os net) (inet : Inet os)
    (laws : Sockets os net d inet) where
  open os use {World}
  open d use {is_open}

  -- What was open before, but for the standard input.
  abbrev pub open_before : World → ℤ → Bool
  open_before w f = is_open f w && not (eq_ℤ (pos 0) f)

  -- A client in its main loop: it polls the standard input and its socket, and no other descriptor is open
  -- than these and those that are kept for other purposes.
  pub record Joined (kept : ℤ → Bool) (c : Session) (w : World) : Type 0 where
    pub poll_valid : poll.IsValid c.poll_vec
    pub polled : fds c.poll_vec ≡ pos 0 ∷ c.subscriber.tcp_socket ∷ []
    pub socket_open : is_neg c.subscriber.tcp_socket ≡ false
    pub all_open :
        (f : ℤ) → is_open f w ≡ (eq_ℤ (pos 0) f || (eq_ℤ c.subscriber.tcp_socket f || kept f))
    pub stdin_not_kept : kept (pos 0) ≡ false
    pub socket_not_kept : kept c.subscriber.tcp_socket ≡ false

  -- How `init_client` may end.
  pub data Starts (id : Text) (hport : ℕ) (w : World) : Err × Option Session × World → Type 0 where
    started :
        {c : Session} {w' : World}
        → Joined (open_before w) c w'
        → c.id ≡ id
        → Starts id hport w (ok, some c, w')
    bad_port : hport ≡ 0 → Starts id hport w (invalid_port_number, none, w)
    no_memory :
        {w' : World}
        → SameOpen os net d w w'
        → Starts id hport w (client_failed_allocation, none, w')
    not_connected :
        {w' : World} → SameOpen os net d w w' → Starts id hport w (client_failed_tcp, none, w')
    socket_left_open :
        {fd : ℤ} {w' : World}
        → Opened os net d fd w w'
        → Starts id hport w (client_failed_tcp, none, w')
    no_poll_vec :
        {w' : World} → SameOpen os net d w w' → Starts id hport w (client_failed_poll_vec, none, w')

  init_client_tcp_socket-Makes :
      (id : Text) (m : TcpMsg) (ip : Text) (hport : ℕ) (w : World)
      → let (r, fd, m', w') = init_client_tcp_socket os inet id m ip hport w in
        Makes os net d w (r, fd, w')
  unfolding init_client_tcp_socket
  init_client_tcp_socket-Makes id m ip hport w = elim (Bool-cases (is_neg fd)) [
    | inl n ↦
        rw (n, init_client_tcp_socket)
          (no_socket n (failed_socket os net d inet laws sock_stream w n))
    | inr n ↦ elim (Bool-cases (is_neg (inet.setsockopt fd w₁).0)) [
      | inl a ↦ rw (n, a, init_client_tcp_socket) (left_open refl (made_socket n _ set))
      | inr a ↦ elim (Bool-cases (is_neg (inet.connect fd addr w₂).0)) [
        | inl b ↦ rw (n, a, b, init_client_tcp_socket) (left_open refl (made_socket n _ connected))
        | inr b ↦
            elim (Bool-cases
              (is_ok (send_tcp_msg os fd (some (memory_of (id_msg id m))) sizeof_tcp_msg w₃).0)) [
                | inl s ↦ rw (n, a, b, s, init_client_tcp_socket) (made (made_socket n _ sent))
                | inr s ↦
                    rw (n, a, b, s, init_client_tcp_socket) (left_open refl (made_socket n _ sent))
              ]
      ]
    ]
  ]
    where
      fd : ℤ
      fd = (inet.socket sock_stream w).0

      w₁ : World
      w₁ = (inet.socket sock_stream w).1

      w₂ : World
      w₂ = (inet.setsockopt fd w₁).1

      addr : SockAddr
      addr = record { sin_family = af_inet; sin_port = htons hport; sin_addr = inet.inet_addr ip }

      w₃ : World
      w₃ = (inet.connect fd addr w₂).1

      made_socket :
          is_neg fd ≡ false → (w' : World) → SameOpen os net d w₁ w' → Opened os net d fd w w'
      made_socket n w' same = new_socket os net d inet laws sock_stream w w' n same

      set : SameOpen os net d w₁ w₂
      set f = laws.open-setsockopt f fd w₁

      connected : SameOpen os net d w₁ w₃
      connected f = laws.open-connect f fd addr w₂ ∙ set f

      sent :
          SameOpen os net d w₁
            (send_tcp_msg os fd (some (memory_of (id_msg id m))) sizeof_tcp_msg w₃).1
      sent =
          send_tcp_msg-Quiet os (SameOpen os net d w₁) (SameOpen-Quiet os net d w₁) fd _
            sizeof_tcp_msg w₃ connected

  connect_client-Starts :
      (id ip : Text) (hport : ℕ) (w w₁ : World)
      → is_open (pos 0) w ≡ true
      → SameOpen os net d w w₁
      → Starts id hport w (connect_client os inet id ip hport w₁)
  unfolding connect_client
  connect_client-Starts id ip hport w w₁ stdin_open same =
      from (init_client_tcp_socket os inet id empty_msg ip hport w₁)
        (init_client_tcp_socket-Makes id empty_msg ip hport w₁)
    where
      opened : (fd : ℤ) (w₂ : World) → Opened os net d fd w₁ w₂ → Opened os net d fd w w₂
      opened fd w₂ o = record {
        open_fd = o.open_fd;
        fresh = ground (arith, o.fresh, same fd);
        one_more = λ f. o.one_more f ∙ ap (λ b. b || eq_ℤ fd f) (same f);
      }

      from :
          (r : ℤ × ℤ × TcpMsg × World)
          → Makes os net d w₁ (r.0, r.1, r.3)
          → Starts id hport w (
              let (poll_vec, w₂) = init_client_poll_vec os inet r.1 r.3 in
              elim (is_neg r.0) [
                | true ↦ (client_failed_tcp, none, r.3)
                | false ↦ elim poll_vec [
                  | none ↦ (client_failed_poll_vec, none, os.close r.1 w₂)
                  | some v ↦ (
                    ok,
                    some (record {
                      subscriber = record { tcp_socket = r.1; cmd = zeroed 128; send_msg = r.2 };
                      id = id;
                      poll_vec = v;
                      recv_msg = empty_msg;
                    }),
                    w₂,
                  )
                ]
              ])
      from (a, fd, m, w₂) (no_socket n same') = rw n (not_connected (λ f. same' f ∙ same f))
      from (a, fd, m, w₂) (left_open n o) = rw n (socket_left_open (opened fd w₂ o))
      from (a, fd, m, w₂) (made o') =
          let o = opened fd w₂ o' in
          let (same₃, how) =
            init_client_poll_vec-Polls os inet (SameOpen os net d w₂) (SameOpen-Quiet os net d w₂)
              fd w₂ (λ f. refl) in
          let w₃ : World = (init_client_poll_vec os inet fd w₂).1 in
          elim how [
            | inl e ↦ rw e (
                no_poll_vec (λ f.
                  rw (d.open-close f fd w₃, same₃ f, o.one_more f)
                    (ground (arith, o.fresh, eq_ℤ_iff fd f))))
            | inr (v, e, valid, polls) ↦ rw e (
                started
                  (record {
                    poll_valid = valid;
                    polled = rw polls refl;
                    socket_open = o.open_fd;
                    all_open = λ f.
                        rw (same₃ f, o.one_more f)
                          (ground (arith, stdin_open, eq_ℤ_iff (pos 0) f, eq_ℤ_iff fd f));
                    stdin_not_kept = ground arith;
                    socket_not_kept = ground (arith, o.fresh);
                  })
                  refl)
          ]

  -- When the standard input is open, and the calls open and close descriptors as documented: `init_client`
  -- with a pointer to NULL, an id and an address returns OK only with a client that has the id and polls the
  -- standard input and a new socket, and has opened no other descriptor. It returns INVALID_PORT_NUMBER, before
  -- it does anything, only for port 0. For any other error the pointer stays NULL and the same descriptors are
  -- open as before, but CLIENT_FAILED_TCP may leave one new socket open.
  pub init_client-Starts :
      (id ip : Text) (hport : ℕ) (w : World)
      → is_open (pos 0) w ≡ true
      → Starts id hport w (init_client os inet none (some id) (some ip) hport w)
  unfolding init_client init_client_buffers
  init_client-Starts id ip hport w stdin_open =
      let same₁ : SameOpen os net d w w₁ = λ f. d.open-malloc f 64 w in
      let same₂ : SameOpen os net d w w₂ = λ f. d.open-malloc f 10 w₁ ∙ same₁ f in
      let same₃ =
        malloc_all-Quiet os (SameOpen os net d w) (SameOpen-Quiet os net d w)
          (128 ∷ 2050 ∷ 2050 ∷ []) w₂ same₂ in
      elim (Bool-cases (hport == 0)) [
        | inl z ↦ rw (z, init_client) (bad_port ((==_iff hport 0).0 z))
        | inr z ↦ elim (Option-cases (os.malloc 64 w).0) [
          | inl e ↦ rw (z, e, init_client) (no_memory same₁)
          | inr (_, e) ↦ elim (Option-cases (os.malloc 10 w₁).0) [
            | inl e' ↦ rw (z, e, e', init_client) (no_memory same₂)
            | inr (_, e') ↦ elim (Bool-cases (init_client_buffers os inet w₂).0) [
              | inr b ↦ rw (z, e, e', b, init_client) (no_memory same₃)
              | inl b ↦
                  rw (z, e, e', b, init_client)
                    (connect_client-Starts id ip hport w _ stdin_open same₃)
            ]
          ]
        ]
      ]
    where
      w₁ : World
      w₁ = (os.malloc 64 w).1

      w₂ : World
      w₂ = (os.malloc 10 w₁).1
