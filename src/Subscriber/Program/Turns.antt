-- ===== src/Subscriber/Program/Turns.antt =====
-- The main loop of the subscriber: what holds in every turn and at the end, and when it ends.
use tcp_client_server.Prelude.{
  ℕ, zero, suc, ◌≡◌, refl, sym, ap, ◌∙◌, inl, inr, Bool, [], ◌∷◌, Option, some, arith, Bool-cases,
  Option-cases, Text, c_string,
}
use tcp_client_server.Prelude.Int.{ℤ, pos, eq_ℤ_iff}
use tcp_client_server.Errors.{Err, debug_msg}
use tcp_client_server.Os.{Os}
use tcp_client_server.Os.Quiet.{Quiet}
use tcp_client_server.PollVec.{contents, free_poll_vec}
use tcp_client_server.PollVec.Invariant as poll
use tcp_client_server.Tcp.{memory_of, sizeof_tcp_msg, recv_tcp_msg}
use tcp_client_server.Tcp.Quiet.{send_tcp_msg-Quiet, recv_tcp_msg-Quiet}
use tcp_client_server.Inet.{Inet, Sockets, poll_fds, is_pollin, stdin_ready}
use tcp_client_server.Inet.Polling.{poll_fds-IsValid}
use tcp_client_server.Server.Events.{Net}
use tcp_client_server.Server.Handlers.{is_ok}
use tcp_client_server.Server.Descriptors.{Descriptors, SameOpen, SameOpen-Quiet}
use tcp_client_server.Server.Descriptors.Polled.{fds}
use tcp_client_server.Server.Program.{exit_code_green}
use tcp_client_server.Server.Program.Turns.{close_all_lem}
use tcp_client_server.ClientVec.Invariant.Sockets.{has_socket}
use tcp_client_server.Subscriber.{
  Subscriber, process_subscribe_cmd, process_unsubscribe_cmd, strtok_r,
}
use tcp_client_server.Subscriber.Program.{
  CmdLine, subscribe, unsubscribe, exit, no_cmd, subscriber_after, wait_for_ready_fds, get_cmd_line,
  process_ready_fds, Turn, again, breaks, after_cmd, after_ready, on_cmd, main_turn, Course, exited,
  subscribing, undefined, main_loop, subscribed_text, unsubscribed_text, is_exit,
}
use tcp_client_server.Subscriber.Setup.Outcome.{Joined}
use tcp_client_server.Subscriber.Setup.{Session, free_client}

module _ (os : Os) (P : os.World → Type 0) (quiet : Quiet os P) where
  open os use {World}

  -- A command keeps the socket, and what its calls of the system keep.
  abbrev Sends : Subscriber → Err × Option Subscriber × World → Type 0
  Sends c (e, o, w) = ((subscriber_after c o).tcp_socket ≡ c.tcp_socket) × P w

  process_subscribe_cmd-Sends :
      (c : Subscriber) (w : World) → P w → Sends c (process_subscribe_cmd os (some c) w)
  unfolding process_subscribe_cmd
  process_subscribe_cmd-Sends c w h = elim (Option-cases (strtok_r (c_string c.cmd)).0) [
    | inl e ↦ rw (e, process_subscribe_cmd) (refl, h)
    | inr (cmd, e) ↦ elim (Option-cases (strtok_r (strtok_r (c_string c.cmd)).1).0) [
      | inl e' ↦ rw (e, e', process_subscribe_cmd) (refl, h)
      | inr (topic, e') ↦
          rw (e, e', process_subscribe_cmd)
            (refl, send_tcp_msg-Quiet os P quiet c.tcp_socket _ sizeof_tcp_msg w h)
    ]
  ]

  process_unsubscribe_cmd-Sends :
      (c : Subscriber) (w : World) → P w → Sends c (process_unsubscribe_cmd os (some c) w)
  unfolding process_unsubscribe_cmd
  process_unsubscribe_cmd-Sends c w h = elim (Option-cases (strtok_r (c_string c.cmd)).0) [
    | inl e ↦ rw (e, process_unsubscribe_cmd) (refl, h)
    | inr (cmd, e) ↦ elim (Option-cases (strtok_r (strtok_r (c_string c.cmd)).1).0) [
      | inl e' ↦ rw (e, e', process_unsubscribe_cmd) (refl, h)
      | inr (topic, e') ↦
          rw (e, e', process_unsubscribe_cmd)
            (refl, send_tcp_msg-Quiet os P quiet c.tcp_socket _ sizeof_tcp_msg w h)
    ]
  ]

module _ (os : Os) (net : Net os) (d : Descriptors os net) (inet : Inet os)
    (laws : Sockets os net d inet) (kept : ℤ → Bool) where
  open os use {World}

  abbrev JoinedNow : Session → World → Type 0
  JoinedNow = Joined os net d inet laws kept

  -- The socket and the polled descriptors are those from before.
  moved :
      (c c' : Session) (w w' : World)
      → JoinedNow c w
      → poll.IsValid c'.poll_vec
      → fds c'.poll_vec ≡ fds c.poll_vec
      → c'.subscriber.tcp_socket ≡ c.subscriber.tcp_socket
      → SameOpen os net d w w'
      → JoinedNow c' w'
  moved c c' w w' joined valid same socket opens = record {
    poll_valid = valid;
    polled = same ∙ joined.polled ∙ ap (λ f. pos 0 ∷ f ∷ []) (sym socket);
    socket_open = rw socket joined.socket_open;
    all_open = λ f. rw socket (opens f ∙ joined.all_open f);
    stdin_not_kept = joined.stdin_not_kept;
    socket_not_kept = rw socket joined.socket_not_kept;
  }

  pub free_client-OnlyKept :
      (c : Session) (w : World)
      → JoinedNow c w
      → (f : ℤ) → d.is_open f (free_client os inet (some c) w).2 ≡ kept f
  unfolding free_client free_poll_vec has_socket
  free_client-OnlyKept c w joined f =
      close_all_lem os net d f (contents c.poll_vec) w
      ∙ rw (joined.polled, joined.all_open f)
          (ground (
            arith,
            joined.stdin_not_kept,
            joined.socket_not_kept,
            eq_ℤ_iff (pos 0) f,
            eq_ℤ_iff c.subscriber.tcp_socket f,
          ))

  pub wait-Joined :
      (c : Session) (w : World)
      → JoinedNow c w
      → JoinedNow (wait_for_ready_fds os inet c w).1 (wait_for_ready_fds os inet c w).2
  unfolding wait_for_ready_fds poll_fds
  wait-Joined c w joined =
      let (valid, same) = poll_fds-IsValid os inet c.poll_vec w joined.poll_valid in
      moved c _ w _ joined valid same refl (λ f. laws.open-poll f (contents c.poll_vec) w)

  line-Joined :
      (c : Session) (w : World)
      → JoinedNow c w
      → JoinedNow (get_cmd_line os inet c w).1 (get_cmd_line os inet c w).2
  unfolding get_cmd_line
  line-Joined c w joined =
      let opens : SameOpen os net d w (inet.fgets 128 w).1 = λ f. laws.open-fgets f 128 w in
      elim (Bool-cases (stdin_ready c.poll_vec)) [
        | inr e ↦ rw (e, get_cmd_line) joined
        | inl e ↦ elim (Option-cases (inet.fgets 128 w).0) [
          | inl q ↦ rw (e, q, get_cmd_line) (moved c c w _ joined joined.poll_valid refl refl opens)
          | inr (bytes, q) ↦
              rw (e, q, get_cmd_line) (moved c _ w _ joined joined.poll_valid refl refl opens)
        ]
      ]

  pub ready-Joined :
      (c : Session) (w : World)
      → JoinedNow c w
      → JoinedNow (process_ready_fds os net c w).1 (process_ready_fds os net c w).2
  unfolding process_ready_fds
  ready-Joined c w joined =
      let received =
        recv_tcp_msg-Quiet os (SameOpen os net d w) (SameOpen-Quiet os net d w)
          c.subscriber.tcp_socket (some (memory_of c.recv_msg)) sizeof_tcp_msg w (λ f. refl) in
      elim (Bool-cases (is_pollin c.poll_vec 1)) [
        | inr e ↦ rw (e, process_ready_fds) joined
        | inl e ↦
            elim (Bool-cases (
              is_ok
                (recv_tcp_msg os c.subscriber.tcp_socket (some (memory_of c.recv_msg))
                  sizeof_tcp_msg w).0)) [
                    | inr q ↦
                        rw (e, q, process_ready_fds)
                          (moved c _ w _ joined joined.poll_valid refl refl received)
                    | inl q ↦
                        rw (e, q, process_ready_fds)
                          (moved c _ w _ joined joined.poll_valid refl refl
                            (λ f. d.open-printf f _ _ ∙ received f))
                  ]
      ]

  -- What holds after a turn.
  abbrev TurnJoined : Turn os net inet → Type 0
  TurnJoined (again c w) = JoinedNow c w
  TurnJoined (breaks c w) = JoinedNow c w

  after_cmd-TurnJoined :
      (c : Session) (text : Text) (w : World) (r : Err × Option Subscriber × World)
      → JoinedNow c w
      → Sends os (SameOpen os net d w) (SameOpen-Quiet os net d w) c.subscriber r
      → TurnJoined (after_cmd os net inet c text r)
  unfolding after_cmd
  after_cmd-TurnJoined c text w (e, o, w') joined (socket, opens) = elim (Bool-cases (is_ok e)) [
    | inl q ↦
        rw (q, after_cmd)
          (moved c _ w _ joined joined.poll_valid refl socket
            (λ f. d.open-printf f text w' ∙ opens f))
    | inr q ↦
        rw (q, after_cmd)
          (moved c _ w _ joined joined.poll_valid refl socket
            (λ f. d.open-fprintf f (debug_msg e) w' ∙ opens f))
  ]

  after_ready-TurnJoined :
      (e : Err) (c : Session) (w : World)
      → JoinedNow c w
      → TurnJoined (after_ready os net inet (e, c, w))
  unfolding after_ready
  after_ready-TurnJoined e c w joined = elim (Bool-cases (is_exit os net inet e)) [
    | inl q ↦ rw (q, after_ready) joined
    | inr q ↦ elim (Bool-cases (is_ok e)) [
      | inl q' ↦ rw (q, q', after_ready) joined
      | inr q' ↦
          rw (q, q', after_ready)
            (moved c c w _ joined joined.poll_valid refl refl
              (λ f. d.open-fprintf f (debug_msg e) w))
    ]
  ]

  on_cmd-TurnJoined :
      (cmd : CmdLine) (c : Session) (w : World)
      → JoinedNow c w
      → TurnJoined (on_cmd os net inet cmd c w)
  unfolding on_cmd
  on_cmd-TurnJoined exit c w joined = joined
  on_cmd-TurnJoined subscribe c w joined = after_cmd-TurnJoined c subscribed_text w _ joined (
      process_subscribe_cmd-Sends os (SameOpen os net d w) (SameOpen-Quiet os net d w) c.subscriber
        w (λ f. refl))
  on_cmd-TurnJoined unsubscribe c w joined = after_cmd-TurnJoined c unsubscribed_text w _ joined (
      process_unsubscribe_cmd-Sends os (SameOpen os net d w) (SameOpen-Quiet os net d w)
        c.subscriber w (λ f. refl))
  on_cmd-TurnJoined no_cmd c w joined = after_ready-TurnJoined _ _ _ (ready-Joined c w joined)

  main_turn-TurnJoined :
      (c : Session) (w : World) → JoinedNow c w → TurnJoined (main_turn os net inet c w)
  unfolding main_turn
  main_turn-TurnJoined c w joined =
      let joined₁ = wait-Joined c w joined in
      let joined₂ = line-Joined c₁ w₁ joined₁ in
      elim (Bool-cases (is_ok (wait_for_ready_fds os inet c w).0)) [
        | inl e ↦ rw (e, main_turn) (on_cmd-TurnJoined _ _ _ joined₂)
        | inr e ↦
            rw (e, main_turn)
              (moved c₁ c₁ w₁ _ joined₁ joined₁.poll_valid refl refl (λ f. d.open-fprintf f _ w₁))
      ]
    where
      c₁ : Session
      c₁ = (wait_for_ready_fds os inet c w).1

      w₁ : World
      w₁ = (wait_for_ready_fds os inet c w).2

  -- What holds of a run of the main loop: nothing is open but what is kept when it has ended.
  abbrev pub LoopSafe : Course os net inet → Type 0
  LoopSafe (exited code w) = (code ≡ exit_code_green) × ((f : ℤ) → d.is_open f w ≡ kept f)
  LoopSafe (subscribing c w) = JoinedNow c w
  LoopSafe undefined = ⊥

  pub main_loop-LoopSafe :
      (turns : ℕ) (c : Session) (w : World)
      → JoinedNow c w
      → LoopSafe (main_loop os net inet turns c w)
  unfolding main_loop
  main_loop-LoopSafe zero c w joined = joined
  main_loop-LoopSafe (suc turns) c w joined =
      after_turn (λ c' w' joined'. main_loop-LoopSafe turns c' w' joined')
        (main_turn os net inet c w) (main_turn-TurnJoined c w joined)
    where
      after_turn :
          ((c' : Session) (w' : World)
            → JoinedNow c' w'
            → LoopSafe (main_loop os net inet turns c' w'))
          → (t : Turn os net inet) → TurnJoined t
          → LoopSafe (elim t [
            | breaks c' w' ↦ exited exit_code_green (free_client os inet (some c') w').2
            | again c' w' ↦ main_loop os net inet turns c' w'
          ])
      after_turn more (breaks c' w') h = (refl, free_client-OnlyKept c' w' h)
      after_turn more (again c' w') h = more c' w' h
