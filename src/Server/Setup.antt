-- ===== src/Server/Setup.antt =====
-- server_utils.c, `init_server` and `free_server`: how the server comes to be, and how it ends.
pub mod Sockets
pub mod Buffers
pub mod Outcome
mod Tests
use tcp_client_server.Prelude.{
  ℕ, zero, suc, ◌*◌, ◌%◌, ◌^◌, ◌==◌, Bool, true, false, List, [], ◌∷◌, Option, none, some,
  if◌then◌else◌,
}
use tcp_client_server.Prelude.Int.{ℤ, pos, negsuc, is_neg}
use tcp_client_server.Errors.{
  Err, ok, server_input_is_not_null, invalid_port_number, server_failed_allocation,
  server_failed_udp, server_failed_tcp, server_failed_poll_vec, server_failed_clients_vec,
  server_input_is_null,
}
use tcp_client_server.Os.{Os, mul_size}
use tcp_client_server.PollVec.{PollVec, create_poll_vec, poll_vec_add_fd, free_poll_vec}
use tcp_client_server.ClientVec.{ClientVec, max_id_client_len, malloc_all, create_clients_vec}
use tcp_client_server.Tcp.{TcpMsg, sizeof_tcp_msg, max_tcp_msg_buf_len}
use tcp_client_server.Udp.{Doubles, SockAddr}
use tcp_client_server.Inet.{
  Inet, sock_stream, sock_dgram, af_inet, pollin, htons, add_or_free, behind, stdin_fileno,
}
use tcp_client_server.Server.{Server}
use tcp_client_server.Server.Events.{max_server_buflen}
use tcp_client_server.Server.Handlers.{is_ok, sizeof_udp_type}

abbrev pub max_listen_socket : ℕ
max_listen_socket = 10

abbrev pub init_nfds : ℕ
init_nfds = 10

abbrev pub init_clients : ℕ
init_clients = 10

abbrev pub init_udp_msgs_len : ℕ
init_udp_msgs_len = 20

abbrev pub max_cmd_len : ℕ
max_cmd_len = 10

abbrev pub sizeof_server : ℕ
sizeof_server = 128

-- The bytes that `memset(…, 0, n)` leaves.
unfoldable pub zeroed : ℕ → List ℕ
zeroed zero = []
zeroed (suc n) = 0 ∷ zeroed n

unfoldable pub empty_msg : TcpMsg
unfolding zeroed
empty_msg = record { len = 0; bytes = zeroed max_tcp_msg_buf_len }

-- `server_t`: the fields of `Server`, and those that only the program itself uses.
pub record Node (doubles : Doubles) : Type 0 where
  pub server : Server doubles
  pub poll_vec : PollVec
  pub udp_socket : ℤ
  pub tcp_socket : ℤ
  pub cmd : List ℕ

-- `INADDR_ANY` with a port.
abbrev pub any_addr : ℕ → SockAddr
any_addr hport = record { sin_family = af_inet; sin_port = htons hport; sin_addr = 0 }

module _ (os : Os) (inet : Inet os) where
  open os use {World, malloc, close}
  open inet use {socket, setsockopt, bind, listen}

  -- The result, and what is in `server->udp_socket` then.
  unfoldable pub init_server_udp_socket : ℕ → World → ℤ × ℤ × World
  init_server_udp_socket hport w =
      let (fd, w₁) = socket sock_dgram w in
      let (bound, w₂) = bind fd (any_addr hport) w₁ in
      if is_neg fd
      then (fd, fd, w₁)
      else if is_neg bound
      then (negsuc 0, fd, w₂)
      else (pos 0, fd, w₂)

  unfoldable pub init_server_tcp_socket : ℕ → World → ℤ × ℤ × World
  init_server_tcp_socket hport w =
      let (fd, w₁) = socket sock_stream w in
      let (set, w₂) = setsockopt fd w₁ in
      let (bound, w₃) = bind fd (any_addr hport) w₂ in
      let (listening, w₄) = listen fd max_listen_socket w₃ in
      if is_neg fd
      then (fd, fd, w₁)
      else if is_neg set
      then (negsuc 0, fd, w₂)
      else if is_neg bound
      then (negsuc 0, fd, w₃)
      else if is_neg listening
      then (negsuc 0, fd, w₄)
      else (pos 0, fd, w₄)

module _ (os : Os) where
  open os use {World, malloc, close}

  unfoldable pub init_server_poll_vec : ℤ → ℤ → World → Option PollVec × World
  init_server_poll_vec udp_socket tcp_socket w =
      let (e, vec, w₁) = create_poll_vec os (some none) init_nfds w in
      let (vec₁, w₂) = add_or_free os stdin_fileno pollin (behind vec) w₁ in
      let (vec₂, w₃) = add_or_free os udp_socket pollin vec₁ w₂ in
      let (vec₃, w₄) = add_or_free os tcp_socket pollin vec₂ w₃ in
      elim (is_ok e) [
        | false ↦ (none, w₁)
        | true ↦ elim vec₁ [
          | none ↦ (none, w₂)
          | some _ ↦ elim vec₂ [ none ↦ (none, w₃) | some _ ↦ (vec₃, w₄) ]
        ]
      ]

  -- The address of the array of messages, or `none` for a result of -1. The buffers are allocated in
  -- the order `buf`, `cmd`, `send_msg`, `recv_msg`, `udp_msgs`.
  unfoldable pub init_server_buffers : World → Option ℕ × World
  init_server_buffers w =
      let (done, w₁) =
        malloc_all os (max_server_buflen ∷ max_cmd_len ∷ sizeof_tcp_msg ∷ sizeof_tcp_msg ∷ []) w in
      let (udp_msgs, w₂) = malloc (mul_size sizeof_udp_type init_udp_msgs_len) w₁ in
      if done then (udp_msgs, w₂) else (none, w₁)

module _ (doubles : Doubles) where
  -- The server with its buffers cleared. Its `udp_addr_client` is not initialised, and holds `junk`.
  unfoldable pub fresh_server : ℕ → ClientVec → SockAddr → Server doubles
  fresh_server udp_msgs clients junk = record {
    clients = clients;
    udp_msgs = [];
    udp_msgs_base = udp_msgs;
    udp_msgs_capacity = init_udp_msgs_len;
    udp_addr_client = junk;
    buf = zeroed max_server_buflen;
    send_msg = empty_msg;
    recv_msg = empty_msg;
  }

module _ (doubles : Doubles) (os : Os) (inet : Inet os) where
  open os use {World, malloc, close}

  -- From the poll vector on, with both sockets made.
  unfoldable pub init_server_vectors :
      SockAddr → ℕ → ℤ → ℤ → World → Err × Option (Node doubles) × World
  init_server_vectors junk udp_msgs udp_socket tcp_socket w =
      let (poll_vec, w₁) = init_server_poll_vec os udp_socket tcp_socket w in
      let (e, clients, w₂) = create_clients_vec os (some none) init_clients w₁ in
      let w₃ = close tcp_socket (close udp_socket w₂) in
      elim poll_vec [
        | none ↦ (server_failed_poll_vec, none, close tcp_socket (close udp_socket w₁))
        | some v ↦ elim (is_ok e) [
          | false ↦ (server_failed_clients_vec, none, (free_poll_vec os (some (some v)) w₃).2)
          | true ↦ elim (behind clients) [
            | none ↦ (server_failed_clients_vec, none, w₂)
            | some c ↦ (
              ok,
              some (record {
                server = fresh_server doubles udp_msgs c junk;
                poll_vec = v;
                udp_socket = udp_socket;
                tcp_socket = tcp_socket;
                cmd = zeroed max_cmd_len;
              }),
              w₂,
            )
          ]
        ]
      ]

  -- The pointer is `*server`, with `none` for NULL.
  unfoldable pub init_server :
      SockAddr → Option (Node doubles) → ℕ → World → Err × Option (Node doubles) × World
  init_server junk (some n) hport w = (server_input_is_not_null, some n, w)
  init_server junk none hport w =
      let (block, w₁) = malloc sizeof_server w in
      let (udp_msgs, w₂) = init_server_buffers os w₁ in
      let (udp_done, udp_socket, w₃) = init_server_udp_socket os inet hport w₂ in
      let (tcp_done, tcp_socket, w₄) = init_server_tcp_socket os inet hport w₃ in
      elim (hport == 0) [
        | true ↦ (invalid_port_number, none, w)
        | false ↦ elim block [
          | none ↦ (server_failed_allocation, none, w₁)
          | some _ ↦ elim udp_msgs [
            | none ↦ (server_failed_allocation, none, w₂)
            | some base ↦ elim (is_neg udp_done) [
              | true ↦ (server_failed_udp, none, w₃)
              | false ↦ elim (is_neg tcp_done) [
                | true ↦ (server_failed_tcp, none, close udp_socket w₄)
                | false ↦ init_server_vectors junk base udp_socket tcp_socket w₄
              ]
            ]
          ]
        ]
      ]

  -- What it frees is not part of the state; the descriptors in the poll vector are closed.
  unfoldable pub free_server : Option (Node doubles) → World → Err × Option (Node doubles) × World
  free_server none w = (server_input_is_null, none, w)
  free_server (some n) w = (ok, none, (free_poll_vec os (some (some n.poll_vec)) w).2)
