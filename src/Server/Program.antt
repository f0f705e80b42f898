-- ===== src/Server/Program.antt =====
-- server.c: the program of the server, with `wait_for_ready_fds` and `check_if_exit` of server_utils.c.
pub mod Turns
pub mod Exit
pub mod Whole
mod Tests
use tcp_client_server.Prelude.{
  ℕ, zero, suc, ◌+◌, ◌-◌, ◌%◌, ◌^◌, Bool, true, false, List, [], ◌∷◌, ◌++◌, Option, none, some,
  drop, length, get_elem?, if◌then◌else◌, Text, ◌==◌,
}
use tcp_client_server.Prelude.Int.{ℤ, pos, negsuc, eq_ℤ, is_nonpos}
use tcp_client_server.Errors.{Err, ok, debug_msg, poll_failed_timed_out}
use tcp_client_server.Os.{Os}
use tcp_client_server.PollVec.{PollVec, contents}
use tcp_client_server.Udp.{Doubles, SockAddr}
use tcp_client_server.Inet.{Inet, poll_fds, is_pollin, starts_with, stdin_ready}
use tcp_client_server.Subscriber.{atoi}
use tcp_client_server.Server.Events.{Net, Run, returned, undefined, out_of_fuel, process_ready_fds}
use tcp_client_server.Server.Handlers.{is_ok}
use tcp_client_server.Server.Setup.{Node, init_server, free_server, max_cmd_len}

-- `exit`
abbrev pub exit_cmd : Text
exit_cmd = 101 ∷ 120 ∷ 105 ∷ 116 ∷ []

-- `EXIT_CODE_GREEN` and `EXIT_CODE_RED`
abbrev pub exit_code_green : ℤ
exit_code_green = pos 0

abbrev pub exit_code_red : ℤ
exit_code_red = negsuc 1

-- `(uint16_t)n`
abbrev pub to_uint16 : ℤ → ℕ
to_uint16 (pos n) = n % 2 ^ 16
to_uint16 (negsuc n) = 2 ^ 16 - 1 - n % 2 ^ 16

module _ (doubles : Doubles) (os : Os) (net : Net os) (inet : Inet os) where
  open os use {World, fprintf_stderr}
  open inet use {fgets}

  unfoldable pub wait_for_ready_fds : Node doubles → World → Err × Node doubles × World
  wait_for_ready_fds n w =
      let (r, v, w₁) = poll_fds os inet n.poll_vec w in
      (if is_nonpos r then poll_failed_timed_out else ok, record n { poll_vec = v }, w₁)

  unfoldable pub check_if_exit : Node doubles → World → ℕ × Node doubles × World
  check_if_exit n w =
      let (line, w₁) = fgets max_cmd_len w in
      elim (stdin_ready n.poll_vec) [
        | false ↦ (0, n, w)
        | true ↦ elim line [
          | none ↦ (0, n, w₁)
          | some bytes ↦
              let cmd = bytes ++ drop (length bytes) n.cmd in
              (if starts_with exit_cmd cmd then 1 else 0, record n { cmd = cmd }, w₁)
        ]
      ]

  -- How a turn of the main loop ends: with another turn or with `break`, or not at all, where the source
  -- would follow a pointer that leads nowhere or the fuel of `process_ready_fds` would not be enough.
  pub data Turn : Type 0 where
    again : Node doubles → World → Turn
    breaks : Node doubles → World → Turn
    undefined_turn no_fuel : Turn

  -- What `process_ready_fds` comes to.
  unfoldable pub after_events : Node doubles → Run doubles os net → Turn
  after_events n (returned e s v w) =
      if is_ok e
      then again (record n { server = s; poll_vec = v }) w
      else breaks (record n { server = s; poll_vec = v }) (fprintf_stderr (debug_msg e) w)
  after_events n undefined = undefined_turn
  after_events n out_of_fuel = no_fuel

  unfoldable pub main_turn : Node doubles → World → Turn
  main_turn n w =
      let (e, n₁, w₁) = wait_for_ready_fds n w in
      let (exits, n₂, w₂) = check_if_exit n₁ w₁ in
      let run =
        process_ready_fds doubles os net n₂.udp_socket n₂.tcp_socket n₂.server n₂.poll_vec w₂ in
      elim (is_ok e) [
        | false ↦ breaks n₁ (fprintf_stderr (debug_msg e) w₁)
        | true ↦ elim (exits == 1) [ true ↦ breaks n₂ w₂ | false ↦ after_events n₂ run ]
      ]

  -- A run of the program: it has exited with a code, or is still in its loop after all the turns that it was
  -- given, or did not end as its turn did not.
  pub data Course : Type 0 where
    exited : ℤ → World → Course
    serving : Node doubles → World → Course
    stuck starved : Course

  unfoldable pub main_loop : ℕ → Node doubles → World → Course
  main_loop zero n w = serving n w
  main_loop (suc turns) n w = elim (main_turn n w) [
    | undefined_turn ↦ stuck
    | no_fuel ↦ starved
    | breaks n' w' ↦ exited exit_code_green (free_server doubles os inet (some n') w').2
    | again n' w' ↦ main_loop turns n' w'
  ]

  -- `main` with so many turns of its endless loop; the arguments are those behind the name of the program.
  unfoldable pub main : SockAddr → ℕ → List Text → World → Course
  main junk turns [] w = exited exit_code_red (fprintf_stderr "[SERVER] Wrong cmdline input." w)
  main junk turns (port ∷ _ ∷ _) w =
      exited exit_code_red (fprintf_stderr "[SERVER] Wrong cmdline input." w)
  main junk turns (port ∷ []) w =
      let (e, n, w₁) = init_server doubles os inet junk none (to_uint16 (atoi port)) w in
      elim (is_ok e) [
        | false ↦ exited exit_code_red (fprintf_stderr (debug_msg e) w₁)
        | true ↦ elim n [ none ↦ stuck | some n' ↦ main_loop turns n' w₁ ]
      ]
