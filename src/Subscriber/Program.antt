-- ===== src/Subscriber/Program.antt =====
-- subscriber.c: the program of the subscriber, with the functions of subscriber_utils.c that its main loop
-- calls.
pub mod Turns
pub mod Whole
pub mod Lines
pub mod Receiving
pub mod Printing
pub mod Sample
mod Tests
use tcp_client_server.Prelude.{
  ℕ, zero, suc, ◌+◌, ◌%◌, ◌^◌, ◌==◌, Bool, true, false, List, [], ◌∷◌, ◌++◌, Option, none, some,
  drop, length, if◌then◌else◌, Text, c_string,
}
use tcp_client_server.Prelude.Int.{ℤ, pos, negsuc, is_neg, is_nonpos}
use tcp_client_server.Errors.{
  Err, ok, ok_with_exit, debug_msg, poll_failed_timed_out, client_input_is_not_null,
  client_input_is_null, client_input_connect_is_null, invalid_port_number, client_failed_allocation,
  client_failed_tcp, client_failed_poll_vec, tcp_failed_send_recv,
}
use tcp_client_server.Os.{Os}
use tcp_client_server.PollVec.{PollVec, create_poll_vec, free_poll_vec}
use tcp_client_server.ClientVec.{malloc_all, max_id_client_len}
use tcp_client_server.Tcp.{TcpMsg, memory_of, sizeof_tcp_msg, send_tcp_msg, recv_tcp_msg}
use tcp_client_server.Inet.{
  Inet, sock_stream, af_inet, pollin, htons, poll_fds, is_pollin, starts_with, stdin_fileno,
  stdin_ready, behind, add_or_free,
}
use tcp_client_server.Server.Printing.{overwrite}
use tcp_client_server.Server.Handlers.{is_ok, subscribe_word, unsubscribe_word}
use tcp_client_server.Server.Events.{Net, message_in, client_events}
use tcp_client_server.Server.Setup.{zeroed, empty_msg}
use tcp_client_server.Server.Program.{exit_cmd, exit_code_green, exit_code_red, to_uint16}
use tcp_client_server.Subscriber.{Subscriber, atoi, process_subscribe_cmd, process_unsubscribe_cmd}
use tcp_client_server.Subscriber.Setup.{Session, max_client_cmd_len, init_client, free_client}

-- `cmd_line_t`, with `no_cmd` for `NONE`.
pub data CmdLine : Type 0 where
  subscribe unsubscribe exit no_cmd : CmdLine

-- The fields of a client after a call that takes a pointer to it.
abbrev pub subscriber_after : Subscriber → Option Subscriber → Subscriber
subscriber_after c none = c
subscriber_after c (some c') = c'

-- Which command a line is.
unfoldable pub cmd_line : List ℕ → CmdLine
cmd_line cmd =
    if starts_with subscribe_word cmd
    then subscribe
    else if starts_with unsubscribe_word cmd
    then unsubscribe
    else if starts_with exit_cmd cmd
    then exit
    else no_cmd

-- `Subscribed to topic.` and `Unsubscribed from topic.`, with a line feed.
abbrev pub subscribed_text : Text
subscribed_text =
    83 ∷ 117 ∷ 98 ∷ 115 ∷ 99 ∷ 114 ∷ 105 ∷ 98 ∷ 101 ∷ 100 ∷ 32 ∷ 116 ∷ 111 ∷ 32 ∷ 116 ∷ 111 ∷ 112
    ∷ 105 ∷ 99 ∷ 46 ∷ 10 ∷ []

abbrev pub unsubscribed_text : Text
unsubscribed_text =
    85 ∷ 110 ∷ 115 ∷ 117 ∷ 98 ∷ 115 ∷ 99 ∷ 114 ∷ 105 ∷ 98 ∷ 101 ∷ 100 ∷ 32 ∷ 102 ∷ 114 ∷ 111 ∷ 109
    ∷ 32 ∷ 116 ∷ 111 ∷ 112 ∷ 105 ∷ 99 ∷ 46 ∷ 10 ∷ []

module _ (os : Os) (inet : Inet os) where
  open os use {World}
  open inet use {fgets}

  unfoldable pub wait_for_ready_fds : Session → World → Err × Session × World
  wait_for_ready_fds c w =
      let (r, v, w₁) = poll_fds os inet c.poll_vec w in
      (if is_nonpos r then poll_failed_timed_out else ok, record c { poll_vec = v }, w₁)

  unfoldable pub get_cmd_line : Session → World → CmdLine × Session × World
  get_cmd_line c w =
      let (line, w₁) = fgets max_client_cmd_len w in
      elim (stdin_ready c.poll_vec) [
        | false ↦ (no_cmd, c, w)
        | true ↦ elim line [
          | none ↦ (no_cmd, c, w₁)
          | some bytes ↦
              let cmd = bytes ++ drop (length bytes) c.subscriber.cmd in
              (cmd_line cmd, record c { subscriber = record c.subscriber { cmd = cmd } }, w₁)
        ]
      ]

module _ (os : Os) (net : Net os) where
  open os use {World}
  open net use {printf}

  -- The error as the function returns it: `OK_WITH_EXIT` if the server closed the connection.
  abbrev pub or_exit : Err → Err
  or_exit tcp_failed_send_recv = ok_with_exit
  or_exit e = e

  unfoldable pub process_ready_fds : Session → World → Err × Session × World
  process_ready_fds c w =
      let (e, buf, w₁) =
        recv_tcp_msg os c.subscriber.tcp_socket (some (memory_of c.recv_msg)) sizeof_tcp_msg w in
      let c₁ = record c { recv_msg = message_in buf c.recv_msg } in
      elim (is_pollin c.poll_vec 1) [
        | false ↦ (ok, c, w)
        | true ↦ elim (is_ok e) [
          | false ↦ (or_exit e, c₁, w₁)
          | true ↦ (ok, c₁, printf (c_string c₁.recv_msg.bytes ++ 10 ∷ []) w₁)
        ]
      ]

module _ (os : Os) (net : Net os) (inet : Inet os) where
  open os use {World, fprintf_stderr}
  open net use {printf}

  -- How a turn of the main loop ends: with another turn or with `break`.
  pub data Turn : Type 0 where
    again breaks : Session → World → Turn

  -- A command was sent: the text is printed, or the error.
  unfoldable pub after_cmd : Session → Text → Err × Option Subscriber × World → Turn
  after_cmd c text (e, sub, w) =
      let c' = record c { subscriber = subscriber_after c.subscriber sub } in
      if is_ok e then again c' (printf text w) else again c' (fprintf_stderr (debug_msg e) w)

  -- `err == OK_WITH_EXIT`
  abbrev pub is_exit : Err → Bool
  is_exit ok_with_exit = true
  is_exit _ = false

  unfoldable pub after_ready : Err × Session × World → Turn
  after_ready (e, c, w) =
      if is_exit e
      then breaks c w
      else if is_ok e
      then again c w
      else breaks c (fprintf_stderr (debug_msg e) w)

  unfoldable pub on_cmd : CmdLine → Session → World → Turn
  on_cmd exit c w = breaks c w
  on_cmd subscribe c w =
      after_cmd c subscribed_text (process_subscribe_cmd os (some c.subscriber) w)
  on_cmd unsubscribe c w =
      after_cmd c unsubscribed_text (process_unsubscribe_cmd os (some c.subscriber) w)
  on_cmd no_cmd c w = after_ready (process_ready_fds os net c w)

  unfoldable pub main_turn : Session → World → Turn
  main_turn c w =
      let (e, c₁, w₁) = wait_for_ready_fds os inet c w in
      let (cmd, c₂, w₂) = get_cmd_line os inet c₁ w₁ in
      elim (is_ok e) [
        | false ↦ breaks c₁ (fprintf_stderr (debug_msg e) w₁)
        | true ↦ on_cmd cmd c₂ w₂
      ]

  -- A run of the program: it has exited with a code, or is still in its loop after all the turns that it was
  -- given.
  pub data Course : Type 0 where
    exited : ℤ → World → Course
    subscribing : Session → World → Course
    undefined : Course

  unfoldable pub main_loop : ℕ → Session → World → Course
  main_loop zero c w = subscribing c w
  main_loop (suc turns) c w = elim (main_turn c w) [
    | breaks c' w' ↦ exited exit_code_green (free_client os inet (some c') w').2
    | again c' w' ↦ main_loop turns c' w'
  ]

  -- After `init_client`.
  unfoldable pub started : ℕ → Err × Option Session × World → Course
  started turns (e, c, w) = elim (is_ok e) [
    | false ↦ exited exit_code_red (fprintf_stderr (debug_msg e) w)
    | true ↦ elim c [ none ↦ undefined | some c' ↦ main_loop turns c' w ]
  ]

  -- `main` with so many turns of its endless loop; the arguments are those behind the name of the program.
  unfoldable pub main : ℕ → List Text → World → Course
  main turns (id ∷ ip ∷ port ∷ []) w =
      started turns (init_client os inet none (some id) (some ip) (to_uint16 (atoi port)) w)
  main turns _ w = exited exit_code_red (fprintf_stderr "[CLIENT] Wrong cmdline input." w)
