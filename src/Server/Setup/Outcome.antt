-- ===== src/Server/Setup/Outcome.antt =====
-- `init_server` on every branch: the server that it leaves, and which descriptors are open then.
use tcp_client_server.Prelude.{
  ℕ, ◌≡◌, refl, ap, ◌∙◌, inl, inr, Bool, true, false, ◌||◌, ◌&&◌, not, [], Option, none, some,
  arith, ◌==◌, Bool-cases, Option-cases, ==_iff,
}
use tcp_client_server.Prelude.Int.{ℤ, pos, eq_ℤ, eq_ℤ_iff, is_neg}
use tcp_client_server.Errors.{
  Err, ok, invalid_port_number, server_failed_allocation, server_failed_udp, server_failed_tcp,
  server_failed_poll_vec, server_failed_clients_vec,
}
use tcp_client_server.Os.{Os}
use tcp_client_server.PollVec.{PollVec, contents, free_poll_vec, close_all}
use tcp_client_server.PollVec.Invariant as poll
use tcp_client_server.ClientVec.{create_clients_vec}
use tcp_client_server.ClientVec.Invariant.Sockets.{has_socket}
use tcp_client_server.Udp.{Doubles, SockAddr}
use tcp_client_server.Inet.{Inet, Sockets}
use tcp_client_server.Server.{Server}
use tcp_client_server.Server.Events.{Net}
use tcp_client_server.Server.Descriptors.{Descriptors, SameOpen, SameOpen-Quiet, Tied}
use tcp_client_server.Server.Setup.{
  Node, init_server_buffers, init_server_tcp_socket, init_server_poll_vec, init_server_vectors,
  init_server, fresh_server, init_clients,
}
use tcp_client_server.Server.Setup.Sockets.{
  Opened, Makes, made, no_socket, left_open, init_server_udp_socket-Makes,
  init_server_tcp_socket-Makes,
}
use tcp_client_server.Server.Setup.Buffers.{
  first_entries, init_server_buffers-Quiet, init_server_poll_vec-Polls, create_clients_vec-Tables,
  no_clients-IsValid,
}

module _ (os : Os) (net : Net os) (d : Descriptors os net) (inet : Inet os)
    (laws : Sockets os net d inet) (doubles : Doubles) where
  open os use {World}
  open d use {is_open}

  -- What was open before, but for the standard input.
  abbrev pub open_before : World → ℤ → Bool
  open_before w f = is_open f w && not (eq_ℤ (pos 0) f)

  -- A server that has just started: all is tied, there are no clients and no messages, and it polls its
  -- three descriptors for input.
  pub record Started (w : World) (n : Node doubles) (w' : World) : Type 0 where
    pub tied :
        Tied os net d doubles (open_before w) n.udp_socket n.tcp_socket n.server n.poll_vec w'
    pub polls : contents n.poll_vec ≡ first_entries n.udp_socket n.tcp_socket
    pub no_clients : n.server.clients.entities ≡ []
    pub no_messages : n.server.udp_msgs ≡ []

  -- How `init_server` may end.
  pub data Starts (hport : ℕ) (w : World) : Err × Option (Node doubles) × World → Type 0 where
    started : {n : Node doubles} {w' : World} → Started w n w' → Starts hport w (ok, some n, w')
    bad_port : hport ≡ 0 → Starts hport w (invalid_port_number, none, w)
    no_memory :
        {w' : World} → SameOpen os net d w w' → Starts hport w (server_failed_allocation, none, w')
    no_udp : {w' : World} → SameOpen os net d w w' → Starts hport w (server_failed_udp, none, w')
    udp_left_open :
        {fd : ℤ} {w' : World}
        → Opened os net d fd w w'
        → Starts hport w (server_failed_udp, none, w')
    no_tcp : {w' : World} → SameOpen os net d w w' → Starts hport w (server_failed_tcp, none, w')
    tcp_left_open :
        {fd : ℤ} {w' : World}
        → Opened os net d fd w w'
        → Starts hport w (server_failed_tcp, none, w')
    no_poll_vec :
        {w' : World} → SameOpen os net d w w' → Starts hport w (server_failed_poll_vec, none, w')
    -- The standard input is closed with the poll vector.
    no_clients_vec :
        {w' : World}
        → ((f : ℤ) → is_open f w' ≡ open_before w f)
        → Starts hport w (server_failed_clients_vec, none, w')

  -- With both sockets made.
  module _ (hport : ℕ) (w : World) (stdin_open : is_open (pos 0) w ≡ true) (udp tcp : ℤ)
      (w₁ : World) (udp_new : is_open udp w ≡ false) (tcp_new : is_open tcp w ≡ false)
      (distinct : eq_ℤ udp tcp ≡ false)
      (opens : (f : ℤ) → is_open f w₁ ≡ ((is_open f w || eq_ℤ udp f) || eq_ℤ tcp f)) where
    closes_both :
        (w₂ : World)
        → SameOpen os net d w₁ w₂
        → SameOpen os net d w (os.close tcp (os.close udp w₂))
    closes_both w₂ same f =
        rw (d.open-close f tcp (os.close udp w₂), d.open-close f udp w₂, same f, opens f)
          (ground (arith, eq_ℤ_iff udp f, eq_ℤ_iff tcp f))

    frees :
        (v : PollVec) (w₃ : World)
        → contents v ≡ first_entries udp tcp
        → SameOpen os net d w w₃
        → (f : ℤ) → is_open f (free_poll_vec os (some (some v)) w₃).2 ≡ open_before w f
    unfolding free_poll_vec close_all
    frees v w₃ e same f = rw e (
        rw
          (
            d.open-close f tcp (os.close udp (os.close (pos 0) w₃)),
            d.open-close f udp (os.close (pos 0) w₃),
            d.open-close f (pos 0) w₃,
            same f,
          )
          (ground (arith, eq_ℤ_iff udp f, eq_ℤ_iff tcp f)))

    starts :
        (s : Server doubles) (v : PollVec) (w₂ : World)
        → s.clients ≡ record { entities = []; capacity = init_clients }
        → poll.IsValid v
        → contents v ≡ first_entries udp tcp
        → SameOpen os net d w₁ w₂
        → Tied os net d doubles (open_before w) udp tcp s v w₂
    unfolding has_socket
    starts s v w₂ none_yet valid e same = record {
      clients_valid = rw none_yet no_clients-IsValid;
      poll_valid = valid;
      apart = rw e (
          (
            ground (arith, eq_ℤ_iff udp (pos 0), eq_ℤ_iff tcp (pos 0)),
            (ground (arith, eq_ℤ_iff udp tcp, eq_ℤ_iff tcp udp), (refl, tt)),
          ));
      all_open = λ f.
          rw (e, same f, opens f)
            (ground (arith, eq_ℤ_iff (pos 0) f, eq_ℤ_iff udp f, eq_ℤ_iff tcp f));
      kept_apart =
          rw e (λ f h. ground (arith, h, eq_ℤ_iff (pos 0) f, eq_ℤ_iff udp f, eq_ℤ_iff tcp f));
      stdin_first = rw e refl;
      stdin_polled = rw e refl;
      udp_polled = rw e (ground (arith, eq_ℤ_iff udp udp));
      tcp_polled = rw e (ground (arith, eq_ℤ_iff tcp tcp));
      clients_polled =
          rw (e, none_yet)
            (λ f n. ground (arith, eq_ℤ_iff (pos 0) f, eq_ℤ_iff udp f, eq_ℤ_iff tcp f));
    }

    vectors :
        (junk : SockAddr) (base : ℕ)
        → Starts hport w (init_server_vectors doubles os inet junk base udp tcp w₁)
    unfolding init_server_vectors fresh_server
    vectors junk base =
        let (same₂, how) =
          init_server_poll_vec-Polls os (SameOpen os net d w₁) (SameOpen-Quiet os net d w₁) udp tcp
            w₁ (λ f. refl) in
        let (same₃, how') =
          create_clients_vec-Tables os (SameOpen os net d w₁) (SameOpen-Quiet os net d w₁) w₂
            same₂ in
        elim how [
          | inl e ↦ rw (e, init_server_vectors) (no_poll_vec (closes_both w₂ same₂))
          | inr (v, e, valid, polls) ↦ elim how' [
            | inl q ↦
                rw (e, q, init_server_vectors)
                  (no_clients_vec (frees v _ polls (closes_both w₃ same₃)))
            | inr (q, q') ↦
                rw (e, q, q', init_server_vectors)
                  (started (record {
                    tied = starts _ v w₃ refl valid polls same₃;
                    polls = polls;
                    no_clients = refl;
                    no_messages = refl;
                  }))
          ]
        ]
      where
        w₂ : World
        w₂ = (init_server_poll_vec os udp tcp w₁).1

        w₃ : World
        w₃ = (create_clients_vec os (some none) init_clients w₂).2

  module _ (junk : SockAddr) (hport : ℕ) (w : World) (stdin_open : is_open (pos 0) w ≡ true) where
    -- With the UDP socket made.
    from_tcp :
        (base : ℕ) (udp : ℤ) (w₁ : World) (r : ℤ × ℤ × World)
        → Opened os net d udp w w₁
        → Makes os net d w₁ r
        → Starts hport w (elim (is_neg r.0) [
          | true ↦ (server_failed_tcp, none, os.close udp r.2)
          | false ↦ init_server_vectors doubles os inet junk base udp r.1 r.2
        ])
    from_tcp base udp w₁ r o (made {fd = tcp} o') =
        vectors hport w stdin_open udp tcp _ o.fresh (ground (arith, o'.fresh, o.one_more tcp))
          (ground (arith, o'.fresh, o.one_more tcp))
          (λ f. o'.one_more f ∙ ap (λ b. b || eq_ℤ tcp f) (o.one_more f)) junk base
    from_tcp base udp w₁ r o (no_socket n same) = rw n (
        no_tcp (λ f.
          rw (d.open-close f udp _, same f, o.one_more f)
            (ground (arith, o.fresh, eq_ℤ_iff udp f))))
    from_tcp base udp w₁ r o (left_open {fd = fd} n o') = rw n (
        tcp_left_open (record {
          open_fd = o'.open_fd;
          fresh = ground (arith, o'.fresh, o.one_more fd);
          one_more = λ f.
              rw (d.open-close f udp _, o'.one_more f, o.one_more f)
                (ground (
                  arith,
                  o.fresh,
                  o'.fresh,
                  o.one_more fd,
                  eq_ℤ_iff udp f,
                  eq_ℤ_iff fd f,
                  eq_ℤ_iff udp fd,
                ));
        }))

    -- With the memory for the server.
    from_udp :
        (base : ℕ) (w₁ : World) (r : ℤ × ℤ × World)
        → SameOpen os net d w w₁
        → Makes os net d w₁ r
        → Starts hport w (
            let (tcp_done, tcp_socket, w₃) = init_server_tcp_socket os inet hport r.2 in
            elim (is_neg r.0) [
              | true ↦ (server_failed_udp, none, r.2)
              | false ↦ elim (is_neg tcp_done) [
                | true ↦ (server_failed_tcp, none, os.close r.1 w₃)
                | false ↦ init_server_vectors doubles os inet junk base r.1 tcp_socket w₃
              ]
            ])
    from_udp base w₁ r same (made {fd = udp} o) =
        from_tcp base udp r.2 _
          (record {
            open_fd = o.open_fd;
            fresh = ground (arith, same udp, o.fresh);
            one_more = λ f. o.one_more f ∙ ap (λ b. b || eq_ℤ udp f) (same f);
          })
          (init_server_tcp_socket-Makes os net d inet laws hport r.2)
    from_udp base w₁ r same (no_socket n same') = rw n (no_udp (λ f. same' f ∙ same f))
    from_udp base w₁ r same (left_open {fd = udp} n o) = rw n (
        udp_left_open (record {
          open_fd = o.open_fd;
          fresh = ground (arith, same udp, o.fresh);
          one_more = λ f. o.one_more f ∙ ap (λ b. b || eq_ℤ udp f) (same f);
        }))

    -- When the standard input is open, and the calls open and close descriptors as documented: `init_server`
    -- with a pointer to NULL returns OK only with a server that polls the standard input and two new sockets,
    -- has no clients and no messages yet, a valid table of clients and a valid poll vector, and has opened
    -- no other descriptor. It returns INVALID_PORT_NUMBER, before it does anything, only for port 0. For any other
    -- error the pointer stays NULL, and the open descriptors are those from before, but for these:
    -- SERVER_FAILED_UDP and SERVER_FAILED_TCP may leave one new socket open, and SERVER_FAILED_CLIENTS_VEC
    -- closes the standard input.
    pub init_server-Starts : Starts hport w (init_server doubles os inet junk none hport w)
    unfolding init_server
    init_server-Starts =
        let same₁ : SameOpen os net d w w₁ = λ f. d.open-malloc f 128 w in
        let same₂ : SameOpen os net d w w₂ =
          init_server_buffers-Quiet os (SameOpen os net d w) (SameOpen-Quiet os net d w) w₁ same₁ in
        elim (Bool-cases (hport == 0)) [
          | inl z ↦ rw (z, init_server) (bad_port ((==_iff hport 0).0 z))
          | inr z ↦ elim (Option-cases (os.malloc 128 w).0) [
            | inl e ↦ rw (z, e, init_server) (no_memory same₁)
            | inr (_, e) ↦ elim (Option-cases (init_server_buffers os w₁).0) [
              | inl b ↦ rw (z, e, b, init_server) (no_memory same₂)
              | inr (base, b) ↦
                  rw (z, e, b, init_server)
                    (from_udp base w₂ _ same₂
                      (init_server_udp_socket-Makes os net d inet laws hport w₂))
            ]
          ]
        ]
      where
        w₁ : World
        w₁ = (os.malloc 128 w).1

        w₂ : World
        w₂ = (init_server_buffers os w₁).1
