-- ===== src/Server/Events.antt =====
-- server_utils.c, `process_ready_fds`: what the server does for the descriptors that `poll` found ready.
-- The poll vector is a state beside the rest of the server, as the handlers of messages have no part in
-- it.
pub mod Weight
pub mod Rounds
pub mod Fuel
mod Tests
use tcp_client_server.Prelude.{
  ℕ, zero, suc, ◌+◌, ◌-◌, ◌*◌, ◌%◌, Bool, true, false, List, [], ◌∷◌, ◌++◌, Option, none, some,
  ◌==◌, ltb, if◌then◌else◌, drop, length, get_elem?, Text, c_string,
}
use tcp_client_server.Prelude.Int.{ℤ, pos, eq_ℤ, is_nonpos}
use tcp_client_server.Errors.{
  Err, ok, debug_msg, server_failed_accept_tcp, server_could_not_connect_new_client,
}
use tcp_client_server.Os.{Os}
use tcp_client_server.PollVec.{PollFd, PollVec, contents, poll_vec_add_fd, poll_vec_remove_fd}
use tcp_client_server.ClientVec.{ClientVec, register_new_client, close_active_client, get_client_id}
use tcp_client_server.Tcp.{TcpMsg, memory_of, sizeof_tcp_msg, recv_tcp_msg}
use tcp_client_server.Udp.{Doubles, SockAddr, byte_at}
use tcp_client_server.Server.{Server}
use tcp_client_server.Server.Printing.{decimal, inet_ntoa, ntohs}
use tcp_client_server.Server.Handlers.{
  is_ok, vec_after, process_server_tcp_msg, add_server_udp_msg, transmit_topic_to_clients,
  retransmit_topics_to_client,
}

-- The calls that only the server makes.
pub record Net (os : Os) : Type 1 where
  -- The new descriptor and the address of the other side.
  pub accept : ℤ → os.World → ℤ × SockAddr × os.World
  -- The number of bytes, the bytes stored from the start of the buffer, and the sender's address.
  pub recvfrom : ℤ → ℕ → os.World → ℤ × List ℕ × SockAddr × os.World
  pub printf : Text → os.World → os.World

abbrev pub max_server_buflen : ℕ
max_server_buflen = 8096

-- `(revents & POLLIN) != 0`, where `POLLIN` is 1.
abbrev pub is_ready : PollFd → Bool
is_ready p = p.revents % 2 == 1

-- `POLLIN | POLLOUT`
abbrev pub client_events : ℕ
client_events = 5

-- The message that lies in the memory of a `tcp_msg_t`.
unfoldable pub message_in : Option (List ℕ) → TcpMsg → TcpMsg
message_in none m = m
message_in (some buf) m = record { len = byte_at buf 0 + byte_at buf 1 * 256; bytes = drop 2 buf }

-- A vector behind a pointer that is not NULL, before a call and after it.
abbrev pub poll_vec_after : PollVec → Option PollVec → PollVec
poll_vec_after v none = v
poll_vec_after v (some v') = v'

-- How a round of the loop ends: the loop goes on at an index, or the function returns.
pub data Turn : Type 0 where
  goes_on : ℕ → Turn
  returns : Err → Turn

-- `return err` for an error.
abbrev pub unless_error : Err → ℕ → Turn
unless_error e iter = if is_ok e then goes_on iter else returns e

module _ (doubles : Doubles) (os : Os) (net : Net os) where
  open os use {World, fprintf_stderr}
  open net use {accept, recvfrom, printf}

  -- `none` where the source would follow a pointer that leads nowhere.
  abbrev pub Round : Type 0
  Round = Option (Turn × Server doubles × PollVec × World)

  -- `debug_msg(err)`, if there is an error.
  abbrev pub report : Err → World → World
  report e w = if is_ok e then w else fprintf_stderr (debug_msg e) w

  -- A datagram is stored and sent on; one without bytes removes the socket.
  unfoldable pub on_udp : ℤ → Server doubles → PollVec → ℕ → World → Round
  on_udp udp_socket s v iter w =
      let (udp_bytes, bytes, addr, w₁) = recvfrom udp_socket max_server_buflen w in
      let s₁ = record s { buf = bytes ++ drop (length bytes) s.buf; udp_addr_client = addr } in
      let (e, vec, w₂) = poll_vec_remove_fd os (some v) iter w₁ in
      let (e', s₂, w₃) = add_server_udp_msg doubles os s₁ w₁ in
      let sent = transmit_topic_to_clients doubles os s₂ w₃ in
      elim (eq_ℤ udp_bytes (pos 0)) [
        | true ↦ some (unless_error e iter, s₁, poll_vec_after v vec, w₂)
        | false ↦ elim (is_ok e') [
          | false ↦ some (returns e', s₂, v, w₃)
          | true ↦ elim sent [
            | none ↦ none
            | some (e'', s₃, w₄) ↦ some (unless_error e'' (suc iter), s₃, v, w₄)
          ]
        ]
      ]

  -- A client that has sent its id is registered or turned away.
  unfoldable pub on_id : SockAddr → ℤ → Server doubles → PollVec → ℕ → World → Round
  on_id addr fd s v iter w =
      let id = c_string s.recv_msg.bytes in
      let (e, vec, w₁) = register_new_client os (some s.clients) id fd w in
      let s₁ = record s { clients = vec_after s.clients vec } in
      let (_, vec', w₂) = poll_vec_remove_fd os (some v) (v.nfds - 1) w₁ in
      let w₃ =
        printf
          (78
            ∷ 101
            ∷ 119
            ∷ 32
            ∷ 99
            ∷ 108
            ∷ 105
            ∷ 101
            ∷ 110
            ∷ 116
            ∷ 32
            ∷ (id
                ++ 32
                  ∷ 99
                  ∷ 111
                  ∷ 110
                  ∷ 110
                  ∷ 101
                  ∷ 99
                  ∷ 116
                  ∷ 101
                  ∷ 100
                  ∷ 32
                  ∷ 102
                  ∷ 114
                  ∷ 111
                  ∷ 109
                  ∷ 32
                  ∷ (inet_ntoa addr.sin_addr
                      ++ 58 ∷ (decimal (ntohs addr.sin_port) ++ 46 ∷ 10 ∷ []))))
          w₁ in
      elim (is_ok e) [
        | false ↦ some (
          goes_on (suc iter),
          s₁,
          poll_vec_after v vec',
          printf
              (67
                ∷ 108
                ∷ 105
                ∷ 101
                ∷ 110
                ∷ 116
                ∷ 32
                ∷ (id
                    ++ 32 ∷ 97 ∷ 108 ∷ 114 ∷ 101 ∷ 97 ∷ 100 ∷ 121 ∷ 32 ∷ 99 ∷ 111 ∷ 110 ∷ 110 ∷ 101
                      ∷ 99 ∷ 116 ∷ 101 ∷ 100 ∷ 46 ∷ 10 ∷ []))
              w₂,
        )
        | true ↦ elim (retransmit_topics_to_client doubles os s₁ fd w₃) [
          | none ↦ none
          | some (e', s₂, w₄) ↦ some (goes_on (suc iter), s₂, v, report e' w₄)
        ]
      ]

  unfoldable pub on_accept : ℤ → Server doubles → PollVec → ℕ → World → Round
  on_accept tcp_socket s v iter w =
      let (fd, addr, w₁) = accept tcp_socket w in
      let (e, vec, w₂) = poll_vec_add_fd os (some v) fd client_events w₁ in
      let v₁ = poll_vec_after v vec in
      let (e', buf, w₃) = recv_tcp_msg os fd (some (memory_of s.recv_msg)) sizeof_tcp_msg w₂ in
      let s₁ = record s { recv_msg = message_in buf s.recv_msg } in
      elim (is_nonpos fd) [
        | true ↦ some (returns server_failed_accept_tcp, s, v, w₁)
        | false ↦ elim (is_ok e) [
          | false ↦ some (returns e, s, v₁, w₂)
          | true ↦ elim (is_ok e') [
            | false ↦ some (returns server_could_not_connect_new_client, s₁, v₁, w₃)
            | true ↦ on_id addr fd s₁ v₁ iter w₃
          ]
        ]
      ]

  -- A client whose message cannot be received is closed.
  unfoldable pub on_closed : ℤ → Server doubles → PollVec → ℕ → World → Round
  on_closed fd s v iter w =
      let (e, vec, idx) = close_active_client (some s.clients) fd in
      let s₁ = record s { clients = vec_after s.clients vec } in
      let (_, vec', w₁) = poll_vec_remove_fd os (some v) iter w in
      let i : ℕ = elim idx [ none ↦ 0 | some i ↦ i ] in
      let id = get_client_id (some s₁.clients) i in
      elim (is_ok e) [
        | false ↦ some (goes_on (suc iter), s₁, v, report e w)
        | true ↦ some (
          goes_on iter,
          s₁,
          poll_vec_after v vec',
          printf
              (67
                ∷ 108
                ∷ 105
                ∷ 101
                ∷ 110
                ∷ 116
                ∷ 32
                ∷ (id
                    ++ 32 ∷ 100 ∷ 105 ∷ 115 ∷ 99 ∷ 111 ∷ 110 ∷ 110 ∷ 101 ∷ 99 ∷ 116 ∷ 101 ∷ 100 ∷ 46
                      ∷ 10 ∷ []))
              w₁,
        )
      ]

  unfoldable pub on_client : ℤ → Server doubles → PollVec → ℕ → World → Round
  on_client fd s v iter w =
      let (e, buf, w₁) = recv_tcp_msg os fd (some (memory_of s.recv_msg)) sizeof_tcp_msg w in
      let s₁ = record s { recv_msg = message_in buf s.recv_msg } in
      let (e', s₂, w₂) = process_server_tcp_msg doubles os s₁ fd w₁ in
      elim (is_ok e) [
        | false ↦ on_closed fd s₁ v iter w₁
        | true ↦ some (goes_on (suc iter), s₂, v, report e' w₂)
      ]

  unfoldable pub on_ready : ℤ → ℤ → PollFd → Server doubles → PollVec → ℕ → World → Round
  on_ready udp_socket tcp_socket p s v iter w =
      if eq_ℤ p.fd udp_socket
      then on_udp udp_socket s v iter w
      else if eq_ℤ p.fd tcp_socket
      then on_accept tcp_socket s v iter w
      else on_client p.fd s v iter w

  pub data Run : Type 0 where
    returned : Err → Server doubles → PollVec → World → Run
    undefined out_of_fuel : Run

  -- The loop from index `iter` on.
  unfoldable pub ready_loop : ℤ → ℤ → ℕ → ℕ → Server doubles → PollVec → World → Run
  ready_loop udp_socket tcp_socket zero iter s v w = out_of_fuel
  ready_loop udp_socket tcp_socket (suc fuel) iter s v w = elim (get_elem? (contents v) iter) [
    | none ↦ returned ok s v w
    | some p ↦ elim (is_ready p) [
      | false ↦ ready_loop udp_socket tcp_socket fuel (suc iter) s v w
      | true ↦ elim (on_ready udp_socket tcp_socket p s v iter w) [
        | none ↦ undefined
        | some (returns e, s', v', w') ↦ returned e s' v' w'
        | some (goes_on iter', s', v', w') ↦ ready_loop udp_socket tcp_socket fuel iter' s' v' w'
      ]
    ]
  ]

  -- Each entry takes a round, and one more for each that a new connection adds.
  unfoldable pub process_ready_fds : ℤ → ℤ → Server doubles → PollVec → World → Run
  process_ready_fds udp_socket tcp_socket s v w =
      ready_loop udp_socket tcp_socket (v.nfds + v.nfds + 1) 1 s v w
