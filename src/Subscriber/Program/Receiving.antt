-- ===== src/Subscriber/Program/Receiving.antt =====
-- What the subscriber does when its socket is ready, and that it ends when the server has gone.
use tcp_client_server.Prelude.{
  ℕ, suc, ◌<◌, ◌≡◌, refl, ap, ◌∙◌, inl, inr, Bool, true, false, List, [], ◌∷◌, some, ◌==◌, ◌%◌,
  arith, length, length-append,
}
use tcp_client_server.Prelude.Int.{ℤ, pos, is_neg, is_nonpos}
use tcp_client_server.Errors.{Err, ok_with_exit, tcp_failed_send_recv}
use tcp_client_server.Os.{Os}
use tcp_client_server.Os.Laws.{Streams}
use tcp_client_server.PollVec.{PollFd, contents}
use tcp_client_server.Tcp.{memory_of, sizeof_tcp_msg, recv_tcp_msg}
use tcp_client_server.Tcp.Recv.{recv_tcp_msg-Receives}
use tcp_client_server.Inet.{Inet, Sockets, poll_fds, is_pollin, stdin_ready, with_revents}
use tcp_client_server.Inet.Polling.{contents-poll_fds}
use tcp_client_server.Server.Events.{Net}
use tcp_client_server.Server.Handlers.{is_ok}
use tcp_client_server.Server.Descriptors.{Descriptors}
use tcp_client_server.Server.Descriptors.Polled.{fds, fds_of}
use tcp_client_server.Server.Program.{exit_code_green}
use tcp_client_server.Subscriber.Setup.{Session, free_client}
use tcp_client_server.Subscriber.Setup.Outcome.{Joined}
use tcp_client_server.Subscriber.Program.{
  wait_for_ready_fds, get_cmd_line, process_ready_fds, Turn, again, breaks, after_ready, on_cmd,
  main_turn, no_cmd, Course, exited, main_loop,
}
use tcp_client_server.Subscriber.Program.Turns.{wait-Joined, ready-Joined, free_client-OnlyKept}

two_entries :
    (ps : List PollFd) (s : ℤ)
    → fds_of ps ≡ pos 0 ∷ s ∷ []
    → (p : PollFd) × (q : PollFd) × (ps ≡ p ∷ q ∷ []) × (p.fd ≡ pos 0)
two_entries [] s e = cc
two_entries (p ∷ []) s e = cc
two_entries (p ∷ q ∷ []) s e = (p, q, refl, cc)
two_entries (p ∷ q ∷ r ∷ rest) s e = cc

module _ (os : Os) (net : Net os) (inet : Inet os) where
  open os use {World}

  -- The subscriber waits, and only its socket is ready.
  pub record Arrives (c : Session) (w : World) : Type 0 where
    pub two_polled : fds c.poll_vec ≡ pos 0 ∷ c.subscriber.tcp_socket ∷ []
    pub positive : is_nonpos (inet.poll (contents c.poll_vec) w).0 ≡ false
    pub stdin_event : ℕ
    pub socket_event : ℕ
    pub polled : (inet.poll (contents c.poll_vec) w).1 ≡ stdin_event ∷ socket_event ∷ []
    pub stdin_idle : (stdin_event % 2 == 1) ≡ false
    pub socket_ready : (socket_event % 2 == 1) ≡ true

  pub reported :
      (c : Session) (w : World)
      → Arrives c w
      → (stdin_ready (poll_fds os inet c.poll_vec w).1 ≡ false)
        × (is_pollin (poll_fds os inet c.poll_vec w).1 1 ≡ true)
  unfolding stdin_ready is_pollin with_revents poll_fds
  reported c w arrives =
      let (p, q, two, stdin) =
        two_entries (contents c.poll_vec) c.subscriber.tcp_socket arrives.two_polled in
      let now : contents (poll_fds os inet c.poll_vec w).1
          ≡ record p { revents = arrives.stdin_event }
            ∷ record q { revents = arrives.socket_event }
            ∷ [] =
        contents-poll_fds os inet c.poll_vec w
        ∙ ap (with_revents (contents c.poll_vec)) arrives.polled
        ∙ ap (λ ps. with_revents ps (arrives.stdin_event ∷ arrives.socket_event ∷ [])) two in
      (rw now (ground (arith, stdin, arrives.stdin_idle)), rw now arrives.socket_ready)

  -- The wait does not fail.
  pub waits :
      (c : Session) (w : World)
      → is_nonpos (inet.poll (contents c.poll_vec) w).0 ≡ false
      → is_ok (wait_for_ready_fds os inet c w).0 ≡ true
  unfolding wait_for_ready_fds poll_fds
  waits c w positive = rw positive refl

  no_line :
      (c : Session) (w : World)
      → stdin_ready c.poll_vec ≡ false
      → get_cmd_line os inet c w ≡ (no_cmd, c, w)
  unfolding get_cmd_line
  no_line c w idle = rw (idle, get_cmd_line) refl

  waited_no_line :
      (c : Session) (w : World)
      → Arrives c w
      → get_cmd_line os inet (wait_for_ready_fds os inet c w).1 (wait_for_ready_fds os inet c w).2
        ≡ (no_cmd, (wait_for_ready_fds os inet c w).1, (wait_for_ready_fds os inet c w).2)
  unfolding wait_for_ready_fds
  waited_no_line c w arrives = no_line (wait_for_ready_fds os inet c w).1 _ (reported c w arrives).0

  -- The turn handles the socket.
  pub handles :
      (c : Session) (w : World)
      → Arrives c w
      → main_turn os net inet c w
        ≡ after_ready os net inet (
            process_ready_fds os net
              (wait_for_ready_fds os inet c w).1
              (wait_for_ready_fds os inet c w).2)
  unfolding main_turn on_cmd
  handles c w arrives =
      rw (waits c w arrives.positive, main_turn)
        (ap (λ r. on_cmd os net inet r.0 r.1 r.2) (waited_no_line c w arrives))

module _ (os : Os) (net : Net os) (d : Descriptors os net) (inet : Inet os)
    (laws : Sockets os net d inet) (streams : Streams os) where
  open os use {World}
  open streams use {incoming}

  -- The server has gone: no whole message can come any more.
  broken_off :
      (fd : ℤ) (buf : List ℕ) (w : World)
      → is_neg fd ≡ false
      → length (incoming fd w) < sizeof_tcp_msg
      → (recv_tcp_msg os fd (some buf) sizeof_tcp_msg w).0 ≡ tcp_failed_send_recv
  broken_off fd buf w open_fd short =
      let (bytes, done, stored, came) =
        recv_tcp_msg-Receives os streams fd buf sizeof_tcp_msg w open_fd (omega arith) in
      elim done [
        | inr (failed, _) ↦ failed
        | inl (_, whole) ↦ absurd (
            omega (
              arith,
              whole,
              short,
              ap length came,
              length-append bytes (incoming fd (recv_tcp_msg os fd (some buf) sizeof_tcp_msg w).2),
            ))
      ]

  ends_session :
      (c : Session) (w : World)
      → is_pollin c.poll_vec 1 ≡ true
      → is_neg c.subscriber.tcp_socket ≡ false
      → length (incoming c.subscriber.tcp_socket w) < sizeof_tcp_msg
      → (process_ready_fds os net c w).0 ≡ ok_with_exit
  unfolding process_ready_fds
  ends_session c w ready open_fd short =
      let e = broken_off c.subscriber.tcp_socket (memory_of c.recv_msg) w open_fd short in
      rw (ready, e, process_ready_fds) (rw e refl)

  breaks_off :
      (e : Err) (c : Session) (w : World)
      → e ≡ ok_with_exit
      → after_ready os net inet (e, c, w) ≡ breaks c w
  unfolding after_ready
  breaks_off e c w q = rw q refl

  -- On a socket that works as a stream, and with calls that open and close descriptors as documented: when a
  -- subscriber is in its main loop, its socket alone is ready, and no whole message is left in the stream, as
  -- when the server has closed the connection, then the program ends in this turn with EXIT_CODE_GREEN and
  -- closes its socket and the standard input, however many bytes of a message have come.
  pub main_loop-server_gone :
      (kept : ℤ → Bool) (turns : ℕ) (c : Session) (w : World)
      → Joined os net d inet laws kept c w
      → Arrives os net inet c w
      → length (incoming c.subscriber.tcp_socket (inet.poll (contents c.poll_vec) w).2)
        < sizeof_tcp_msg
      → (w' : World) × (main_loop os net inet (suc turns) c w ≡ exited exit_code_green w')
        × ((f : ℤ) → d.is_open f w' ≡ kept f)
  unfolding main_loop
  main_loop-server_gone kept turns c w joined arrives short = (
    (free_client os inet (some c₂) w₂).2,
    ap (after_turn turns) (handles os net inet c w arrives ∙ breaks_off _ c₂ w₂ ended),
    free_client-OnlyKept os net d inet laws kept c₂ w₂
        (ready-Joined os net d inet laws kept c₁ w₁ joined₁),
  )
    where
      c₁ : Session
      c₁ = (wait_for_ready_fds os inet c w).1

      w₁ : World
      w₁ = (wait_for_ready_fds os inet c w).2

      c₂ : Session
      c₂ = (process_ready_fds os net c₁ w₁).1

      w₂ : World
      w₂ = (process_ready_fds os net c₁ w₁).2

      joined₁ : Joined os net d inet laws kept c₁ w₁
      joined₁ = wait-Joined os net d inet laws kept c w joined

      ended : (process_ready_fds os net c₁ w₁).0 ≡ ok_with_exit
      ended =
          unfold wait_for_ready_fds poll_fds in
          ends_session c₁ w₁ (reported os net inet c w arrives).1 joined₁.socket_open short

      after_turn : ℕ → Turn os net inet → Course os net inet
      after_turn turns t = elim t [
        | breaks c' w' ↦ exited exit_code_green (free_client os inet (some c') w').2
        | again c' w' ↦ main_loop os net inet turns c' w'
      ]
