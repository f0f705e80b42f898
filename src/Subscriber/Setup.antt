-- ===== src/Subscriber/Setup.antt =====
-- subscriber_utils.c, `init_client` and `free_client`: how the subscriber comes to be, and how it ends.
pub mod Polling
pub mod Outcome
use tcp_client_server.Prelude.{
  ℕ, zero, suc, ◌+◌, ◌%◌, ◌^◌, ◌==◌, Bool, true, false, List, [], ◌∷◌, ◌++◌, Option, none, some,
  drop, length, if◌then◌else◌, Text, c_string,
}
use tcp_client_server.Prelude.Int.{ℤ, pos, negsuc, is_neg, is_nonpos}
use tcp_client_server.Errors.{
  Err, ok, ok_with_exit, debug_msg, poll_failed_timed_out, client_input_is_not_null,
  client_input_is_null, client_input_connect_is_null, invalid_port_number, client_failed_allocation,
  client_failed_tcp, client_failed_poll_vec, tcp_failed_send_recv,
}
use tcp_client_server.Os.{Os}
use tcp_client_server.PollVec.{PollVec, create_poll_vec, free_poll_vec}
use tcp_client_server.ClientVec.{malloc_all, max_id_client_len}
use tcp_client_server.Tcp.{TcpMsg, memory_of, sizeof_tcp_msg, send_tcp_msg, recv_tcp_msg}
use tcp_client_server.Inet.{
  Inet, sock_stream, af_inet, pollin, htons, poll_fds, is_pollin, starts_with, stdin_fileno,
  stdin_ready, behind, add_or_free,
}
use tcp_client_server.Server.Printing.{overwrite}
use tcp_client_server.Server.Handlers.{is_ok, subscribe_word, unsubscribe_word}
use tcp_client_server.Server.Events.{Net, message_in, client_events}
use tcp_client_server.Server.Setup.{zeroed, empty_msg}
use tcp_client_server.Server.Program.{exit_cmd, exit_code_green, exit_code_red, to_uint16}
use tcp_client_server.Subscriber.{Subscriber, atoi, process_subscribe_cmd, process_unsubscribe_cmd}

abbrev pub max_client_cmd_len : ℕ
max_client_cmd_len = 128

abbrev pub sizeof_client_s : ℕ
sizeof_client_s = 64

-- `client_t`: the fields of `Subscriber`, and the others.
pub record Session : Type 0 where
  pub subscriber : Subscriber
  pub id : Text
  pub poll_vec : PollVec
  pub recv_msg : TcpMsg

-- The message with the id.
unfoldable pub id_msg : Text → TcpMsg → TcpMsg
id_msg id m = record { len = (length id + 1) % 2 ^ 16; bytes = overwrite m.bytes 0 (id ++ 0 ∷ []) }

module _ (os : Os) (inet : Inet os) where
  open os use {World, malloc, close, fprintf_stderr}
  open inet use {socket, setsockopt, connect, inet_addr, fgets}

  -- The result, and what is in `client->tcp_socket` and `client->send_msg` then.
  unfoldable pub init_client_tcp_socket : Text → TcpMsg → Text → ℕ → World → ℤ × ℤ × TcpMsg × World
  init_client_tcp_socket id m ip hport w =
      let (fd, w₁) = socket sock_stream w in
      let (set, w₂) = setsockopt fd w₁ in
      let (connected, w₃) =
        connect fd
          (record { sin_family = af_inet; sin_port = htons hport; sin_addr = inet_addr ip }) w₂ in
      let m' = id_msg id m in
      let (e, w₄) = send_tcp_msg os fd (some (memory_of m')) sizeof_tcp_msg w₃ in
      if is_neg fd
      then (fd, fd, m, w₁)
      else if is_neg set
      then (negsuc 0, fd, m, w₂)
      else if is_neg connected
      then (negsuc 0, fd, m, w₃)
      else if is_ok e
      then (pos 0, fd, m', w₄)
      else (negsuc 0, fd, m', w₄)

  -- `none` is a result of -1.
  unfoldable pub init_client_poll_vec : ℤ → World → Option PollVec × World
  init_client_poll_vec tcp_socket w =
      let (e, vec, w₁) = create_poll_vec os (some none) 2 w in
      let (vec₁, w₂) = add_or_free os stdin_fileno pollin (behind vec) w₁ in
      let (vec₂, w₃) = add_or_free os tcp_socket client_events vec₁ w₂ in
      elim (is_ok e) [
        | false ↦ (none, w₁)
        | true ↦ elim vec₁ [ none ↦ (none, w₂) | some _ ↦ (vec₂, w₃) ]
      ]

  -- The buffers `cmd`, `send_msg` and `recv_msg`, in this order.
  unfoldable pub init_client_buffers : World → Bool × World
  init_client_buffers w =
      malloc_all os (max_client_cmd_len ∷ sizeof_tcp_msg ∷ sizeof_tcp_msg ∷ []) w

  -- With the memory for the client. The id is copied by `strcpy` into `max_id_client_len` bytes with no
  -- check of its length; here it is copied whole.
  unfoldable pub connect_client : Text → Text → ℕ → World → Err × Option Session × World
  connect_client id ip hport w =
      let (done, fd, m, w₁) = init_client_tcp_socket id empty_msg ip hport w in
      let (poll_vec, w₂) = init_client_poll_vec fd w₁ in
      elim (is_neg done) [
        | true ↦ (client_failed_tcp, none, w₁)
        | false ↦ elim poll_vec [
          | none ↦ (client_failed_poll_vec, none, close fd w₂)
          | some v ↦ (
            ok,
            some (record {
              subscriber = record {
                tcp_socket = fd;
                cmd = zeroed max_client_cmd_len;
                send_msg = m;
              };
              id = id;
              poll_vec = v;
              recv_msg = empty_msg;
            }),
            w₂,
          )
        ]
      ]

  -- The pointer is `*client`, with `none` for NULL, as for `id` and `ip`.
  unfoldable pub init_client :
      Option Session → Option Text → Option Text → ℕ → World → Err × Option Session × World
  init_client (some c) id ip hport w = (client_input_is_not_null, some c, w)
  init_client none none ip hport w = (client_input_connect_is_null, none, w)
  init_client none (some id) none hport w = (client_input_connect_is_null, none, w)
  init_client none (some id) (some ip) hport w =
      let (block, w₁) = malloc sizeof_client_s w in
      let (id_block, w₂) = malloc max_id_client_len w₁ in
      let (done, w₃) = init_client_buffers w₂ in
      elim (hport == 0) [
        | true ↦ (invalid_port_number, none, w)
        | false ↦ elim block [
          | none ↦ (client_failed_allocation, none, w₁)
          | some _ ↦ elim id_block [
            | none ↦ (client_failed_allocation, none, w₂)
            | some _ ↦ elim done [
              | false ↦ (client_failed_allocation, none, w₃)
              | true ↦ connect_client id ip hport w₃
            ]
          ]
        ]
      ]

  -- What it frees is not part of the state; the descriptors in the poll vector are closed.
  unfoldable pub free_client : Option Session → World → Err × Option Session × World
  free_client none w = (client_input_is_null, none, w)
  free_client (some c) w = (ok, none, (free_poll_vec os (some (some c.poll_vec)) w).2)
