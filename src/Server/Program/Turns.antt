-- ===== src/Server/Program/Turns.antt =====
-- The main loop of the server: what holds in every turn, and when it ends.
use tcp_client_server.Prelude.{
  ℕ, zero, suc, ◌≡◌, refl, ◌∙◌, inl, inr, Bool, true, false, ◌||◌, ◌&&◌, not, List, [], ◌∷◌, some,
  arith, ◌==◌, Bool-cases, Option-cases,
}
use tcp_client_server.Prelude.Int.{ℤ, pos, eq_ℤ}
use tcp_client_server.Errors.{Err, debug_msg}
use tcp_client_server.Os.{Os}
use tcp_client_server.Os.Laws.{ReallocLimit}
use tcp_client_server.PollVec.{PollFd, PollVec, contents, close_all, free_poll_vec}
use tcp_client_server.ClientVec.Invariant.Sockets.{has_socket}
use tcp_client_server.ClientVec.Invariant.{IsValid}
use tcp_client_server.Udp.{Doubles}
use tcp_client_server.Inet.{Inet, Sockets, poll_fds, stdin_ready}
use tcp_client_server.Inet.Polling.{poll_fds-IsValid}
use tcp_client_server.Server.Events.{Net, Run, returned, undefined, out_of_fuel}
use tcp_client_server.Server.Handlers.{is_ok}
use tcp_client_server.Server.Descriptors.{Descriptors, Tied, Accounted}
use tcp_client_server.Server.Descriptors.Polled.{fds_of}
use tcp_client_server.Server.Descriptors.Connections.{steady, same_fds, accounted}
use tcp_client_server.Server.Descriptors.Loop.{Served, process_ready_fds-Served}
use tcp_client_server.Server.Setup.{Node, free_server}
use tcp_client_server.Server.Program.{
  wait_for_ready_fds, check_if_exit, Turn, again, breaks, undefined_turn, no_fuel, after_events,
  main_turn, Course, exited, serving, stuck, starved, main_loop, exit_code_green,
}

module _ (os : Os) (net : Net os) (d : Descriptors os net) where
  open os use {World}

  pub close_all_lem :
      (f : ℤ) (ps : List PollFd) (w : World)
      → d.is_open f (close_all os ps w) ≡ (d.is_open f w && not (has_socket f (fds_of ps)))
  unfolding close_all has_socket
  close_all_lem f [] w = ground arith
  close_all_lem f (p ∷ ps) w =
      ground (arith, close_all_lem f ps (os.close p.fd w), d.open-close f p.fd w)

module _ (os : Os) (limit : ReallocLimit os) (net : Net os) (d : Descriptors os net)
    (inet : Inet os) (laws : Sockets os net d inet) (doubles : Doubles) (kept : ℤ → Bool) where
  open os use {World}

  -- All is tied, for a server with its fields.
  abbrev pub TiedNode : Node doubles → World → Type 0
  TiedNode n w = Tied os net d doubles kept n.udp_socket n.tcp_socket n.server n.poll_vec w

  -- Nothing is open but what is kept.
  abbrev pub OnlyKept : World → Type 0
  OnlyKept w = (f : ℤ) → d.is_open f w ≡ kept f

  -- No more than one other descriptor is open.
  pub record AlmostOnlyKept (w : World) : Type 0 where
    pub extra : ℤ
    pub kept_or_extra : (f : ℤ) → d.is_open f w ≡ true → (kept f || eq_ℤ extra f) ≡ true

  pub free_server-OnlyKept :
      (n : Node doubles) (w : World)
      → TiedNode n w
      → OnlyKept (free_server doubles os inet (some n) w).2
  unfolding free_server free_poll_vec
  free_server-OnlyKept n w tied f =
      close_all_lem os net d f (contents n.poll_vec) w
      ∙ ground (arith, tied.all_open f, tied.kept_apart f)

  free_server-Almost :
      (n : Node doubles) (w : World)
      → Accounted os net d kept n.poll_vec w
      → AlmostOnlyKept (free_server doubles os inet (some n) w).2
  unfolding free_server free_poll_vec
  free_server-Almost n w acc = record {
    extra = acc.extra;
    kept_or_extra =
        λ f h. ground (arith, h, close_all_lem os net d f (contents n.poll_vec) w, acc.accounts f);
  }

  pub wait-Tied :
      (n : Node doubles) (w : World)
      → TiedNode n w
      → TiedNode
          (wait_for_ready_fds doubles os net inet n w).1
          (wait_for_ready_fds doubles os net inet n w).2
  unfolding wait_for_ready_fds poll_fds
  wait-Tied n w tied =
      let (valid, same) = poll_fds-IsValid os inet n.poll_vec w tied.poll_valid in
      let tied₁ =
        steady os net d doubles kept n.udp_socket n.tcp_socket n.server n.poll_vec w tied n.server
          (inet.poll (contents n.poll_vec) w).2 tied.clients_valid refl
          (λ f. laws.open-poll f (contents n.poll_vec) w) in
      same_fds os net d doubles kept n.udp_socket n.tcp_socket n.server n.poll_vec _ tied₁
        (poll_fds os inet n.poll_vec w).1 valid same

  pub check-Tied :
      (n : Node doubles) (w : World)
      → TiedNode n w
      → TiedNode (check_if_exit doubles os net inet n w).1 (check_if_exit doubles os net inet n w).2
  unfolding check_if_exit
  check-Tied n w tied =
      let tied₁ =
        steady os net d doubles kept n.udp_socket n.tcp_socket n.server n.poll_vec w tied n.server
          (inet.fgets 10 w).1 tied.clients_valid refl (λ f. laws.open-fgets f 10 w) in
      elim (Bool-cases (stdin_ready n.poll_vec)) [
        | inr e ↦ rw (e, check_if_exit) tied
        | inl e ↦ elim (Option-cases (inet.fgets 10 w).0) [
          | inl q ↦ rw (e, q, check_if_exit) tied₁
          | inr (bytes, q) ↦ rw (e, q, check_if_exit) tied₁
        ]
      ]

  -- What holds after a turn.
  abbrev TurnSafe : Turn doubles os net inet → Type 0
  TurnSafe (again n w) = TiedNode n w
  TurnSafe (breaks n w) = IsValid n.server.clients × Accounted os net d kept n.poll_vec w
  TurnSafe undefined_turn = Unit
  TurnSafe no_fuel = ⊥

  -- What holds of a run of the main loop.
  abbrev pub CourseSafe : Course doubles os net inet → Type 0
  CourseSafe (exited code w) = (code ≡ exit_code_green) × AlmostOnlyKept w
  CourseSafe (serving n w) = TiedNode n w
  CourseSafe stuck = Unit
  CourseSafe starved = ⊥

  debug-Accounted :
      (v : PollVec) (e : Err) (w : World)
      → Accounted os net d kept v w
      → Accounted os net d kept v (os.fprintf_stderr (debug_msg e) w)
  debug-Accounted v e w acc = record {
    extra = acc.extra;
    accounts = λ f h. acc.accounts f (ground (arith, h, d.open-fprintf f (debug_msg e) w));
  }

  now-Accounted :
      (n : Node doubles) (w : World) → TiedNode n w → Accounted os net d kept n.poll_vec w
  now-Accounted n w tied =
      accounted os net d doubles kept n.udp_socket n.tcp_socket n.server n.poll_vec w tied

  after_events-TurnSafe :
      (n : Node doubles) (r : Run doubles os net)
      → Served os limit net d doubles kept n.udp_socket n.tcp_socket r
      → TurnSafe (after_events doubles os net inet n r)
  unfolding after_events
  after_events-TurnSafe n (returned e s v w) (valid, acc, tied) = elim (Bool-cases (is_ok e)) [
    | inl q ↦ rw (q, after_events) (tied q)
    | inr q ↦ rw (q, after_events) (valid, debug-Accounted v e w acc)
  ]
  after_events-TurnSafe n undefined h = tt
  after_events-TurnSafe n out_of_fuel h = h

  main_turn-TurnSafe :
      ((fd : ℤ) (n : ℕ) (u : World) → eq_ℤ (net.recvfrom fd n u).0 (pos 0) ≡ false)
      → (n : Node doubles) (w : World) → TiedNode n w
      → TurnSafe (main_turn doubles os net inet n w)
  unfolding main_turn
  main_turn-TurnSafe no_empty n w tied =
      let tied₁ = wait-Tied n w tied in
      let tied₂ = check-Tied n₁ w₁ tied₁ in
      elim (Bool-cases (is_ok (wait_for_ready_fds doubles os net inet n w).0)) [
        | inr e ↦
            rw (e, main_turn)
              (tied₁.clients_valid, debug-Accounted n₁.poll_vec _ w₁ (now-Accounted n₁ w₁ tied₁))
        | inl e ↦ elim (Bool-cases ((check_if_exit doubles os net inet n₁ w₁).0 == 1)) [
          | inl q ↦ rw (e, q, main_turn) (tied₂.clients_valid, now-Accounted n₂ _ tied₂)
          | inr q ↦
              rw (e, q, main_turn)
                (after_events-TurnSafe _ _ (
                  process_ready_fds-Served os limit net d doubles kept _ _ (no_empty _) _ _ _
                    tied₂))
        ]
      ]
    where
      n₁ : Node doubles
      n₁ = (wait_for_ready_fds doubles os net inet n w).1

      w₁ : World
      w₁ = (wait_for_ready_fds doubles os net inet n w).2

      n₂ : Node doubles
      n₂ = (check_if_exit doubles os net inet n₁ w₁).1

      w₂ : World
      w₂ = (check_if_exit doubles os net inet n₁ w₁).2

  -- After each turn of the main loop all is tied, and when the loop has ended, no more than one
  -- descriptor is open beside those that are kept.
  pub main_loop-CourseSafe :
      ((fd : ℤ) (n : ℕ) (u : World) → eq_ℤ (net.recvfrom fd n u).0 (pos 0) ≡ false)
      → (turns : ℕ) (n : Node doubles) (w : World) → TiedNode n w
      → CourseSafe (main_loop doubles os net inet turns n w)
  unfolding main_loop
  main_loop-CourseSafe no_empty zero n w tied = tied
  main_loop-CourseSafe no_empty (suc turns) n w tied =
      after_turn (λ n' w' tied'. main_loop-CourseSafe no_empty turns n' w' tied')
        (main_turn doubles os net inet n w) (main_turn-TurnSafe no_empty n w tied)
    where
      after_turn :
          ((n' : Node doubles) (w' : World)
            → TiedNode n' w'
            → CourseSafe (main_loop doubles os net inet turns n' w'))
          → (t : Turn doubles os net inet) → TurnSafe t
          → CourseSafe (elim t [
            | undefined_turn ↦ stuck
            | no_fuel ↦ starved
            | breaks n' w' ↦ exited exit_code_green (free_server doubles os inet (some n') w').2
            | again n' w' ↦ main_loop doubles os net inet turns n' w'
          ])
      after_turn more undefined_turn h = tt
      after_turn more no_fuel h = h
      after_turn more (breaks n' w') h = (refl, free_server-Almost n' w' h.1)
      after_turn more (again n' w') h = more n' w' h
