-- ===== src/Server/Program/Exit.antt =====
-- The command `exit` ends the program of the server.
use tcp_client_server.Prelude.{
  ℕ, suc, ◌≡◌, refl, Bool, true, false, List, [], ◌∷◌, ◌++◌, some, arith, ◌==◌, ◌%◌, drop, length,
  Text,
}
use tcp_client_server.Prelude.Int.{ℤ, is_nonpos}
use tcp_client_server.Os.{Os}
use tcp_client_server.Os.Laws.{ReallocLimit}
use tcp_client_server.PollVec.{contents}
use tcp_client_server.Udp.{Doubles}
use tcp_client_server.Inet.{Inet, Sockets, poll_fds, starts_with, stdin_ready}
use tcp_client_server.Server.Events.{Net}
use tcp_client_server.Server.Handlers.{is_ok}
use tcp_client_server.Server.Descriptors.{Descriptors}
use tcp_client_server.Server.Setup.{Node}
use tcp_client_server.Server.Program.{
  wait_for_ready_fds, check_if_exit, exit_cmd, main_turn, exited, main_loop, exit_code_green,
}
use tcp_client_server.Server.Program.Turns.{
  TiedNode, OnlyKept, free_server-OnlyKept, wait-Tied, check-Tied,
}
use tcp_client_server.Inet.Polling.{stdin_ready_lem}

module _ (os : Os) (limit : ReallocLimit os) (net : Net os) (d : Descriptors os net)
    (inet : Inet os) (laws : Sockets os net d inet) (doubles : Doubles) where
  open os use {World}

  waits :
      (n : Node doubles) (w : World)
      → is_nonpos (inet.poll (contents n.poll_vec) w).0 ≡ false
      → is_ok (wait_for_ready_fds doubles os net inet n w).0 ≡ true
  unfolding wait_for_ready_fds poll_fds
  waits n w positive = rw positive refl

  starts_with-append :
      (word bytes rest : Text)
      → starts_with word bytes ≡ true
      → starts_with word (bytes ++ rest) ≡ true
  unfolding starts_with
  starts_with-append [] bytes rest h = refl
  starts_with-append (b ∷ bs) [] rest h = cc
  starts_with-append (b ∷ bs) (c ∷ cs) rest h = ground (arith, h, starts_with-append bs cs rest)

  checks :
      (n : Node doubles) (w : World) (bytes : List ℕ)
      → stdin_ready n.poll_vec ≡ true
      → (inet.fgets 10 w).0 ≡ some bytes
      → starts_with exit_cmd bytes ≡ true
      → ((check_if_exit doubles os net inet n w).0 == 1) ≡ true
  unfolding check_if_exit
  checks n w bytes ready typed exits =
      rw
        (
          ready,
          typed,
          starts_with-append exit_cmd bytes (drop (length bytes) n.cmd) exits,
          check_if_exit,
        )
        refl

  -- When the server is in its main loop with all tied, `poll` reports that the standard input and whatever
  -- else is ready, and the line read from it starts with `exit`, the program ends in this turn with
  -- EXIT_CODE_GREEN, and closes all descriptors but those that are kept for other purposes.
  pub main_loop-exit_cmd :
      (kept : ℤ → Bool) (turns : ℕ) (n : Node doubles) (w : World) (e : ℕ) (es : List ℕ)
      (bytes : List ℕ)
      → TiedNode os limit net d inet laws doubles kept n w
      → let (r, revents, w₁) = inet.poll (contents n.poll_vec) w in
        is_nonpos r ≡ false
        → revents ≡ e ∷ es
        → (e % 2 == 1) ≡ true
        → (inet.fgets 10 w₁).0 ≡ some bytes
        → starts_with exit_cmd bytes ≡ true
        → (w' : World) × (main_loop doubles os net inet (suc turns) n w ≡ exited exit_code_green w')
          × OnlyKept os limit net d inet laws doubles kept w'
  unfolding main_loop main_turn
  main_loop-exit_cmd kept turns n w e es bytes tied positive polled odd typed exits =
      let waited = waits n w positive in
      let checked = checked_exit in
      rw (waited, checked, main_loop, main_turn)
        (
          _,
          refl,
          free_server-OnlyKept os limit net d inet laws doubles kept _ _ (
              check-Tied os limit net d inet laws doubles kept n₁ w₁
                (wait-Tied os limit net d inet laws doubles kept n w tied)),
        )
    where
      n₁ : Node doubles
      n₁ = (wait_for_ready_fds doubles os net inet n w).1

      w₁ : World
      w₁ = (wait_for_ready_fds doubles os net inet n w).2

      checked_exit : ((check_if_exit doubles os net inet n₁ w₁).0 == 1) ≡ true
      checked_exit =
          unfold wait_for_ready_fds poll_fds in
          checks n₁ w₁ bytes (stdin_ready_lem os inet n.poll_vec w e es tied.stdin_first polled odd)
            typed exits
