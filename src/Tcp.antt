-- ===== src/Tcp.antt =====
-- tcp_type.h and tcp_type.c: the packed message, and sending and receiving a fixed number of bytes.
pub mod Send
pub mod Recv
pub mod Quiet
mod Tests
use mathlib.Core.Logic.{dite}
use mathlib.Core.WellFounded.{Acc}
use tcp_client_server.Prelude.{
  ℕ, ◌+◌, ◌-◌, ◌*◌, ◌/◌, ◌%◌, ◌<◌, List, [], ◌∷◌, ◌++◌, Option, none, some, arith, dec_lt, ◌==◌,
  length, take, drop, if◌then◌else◌,
}
use tcp_client_server.Prelude.Int.{ℤ, pos_part, is_neg}
use tcp_client_server.Prelude.Order.{lt_wf}
use tcp_client_server.Errors.{
  Err, ok, tcp_input_socket_invalid, tcp_input_buf_is_null, tcp_input_buf_len_is_zero,
  tcp_failed_send_recv,
}
use tcp_client_server.Os.{Os}

abbrev pub max_tcp_msg_buf_len : ℕ
max_tcp_msg_buf_len = 2048

-- `tcp_msg_t`: a `uint16_t` and an array of `max_tcp_msg_buf_len` bytes.
pub record TcpMsg : Type 0 where
  pub len : ℕ
  pub bytes : List ℕ

-- The structure is packed, and a `uint16_t` is stored with its low byte first.
abbrev pub sizeof_tcp_msg : ℕ
sizeof_tcp_msg = 2 + max_tcp_msg_buf_len

unfoldable pub memory_of : TcpMsg → List ℕ
memory_of m = (m.len % 256) ∷ (m.len / 256 % 256) ∷ m.bytes

pub shrinks : (left k : ℕ) → 0 < left → 0 < k → left - k < left
shrinks left k h p = omega arith

module _ (os : Os) where
  open os use {World, send, recv}

  -- `while (bytes_send < buf_len)`, where `left` is `buf_len - bytes_send` and `rest` is the memory from
  -- `buf + bytes_send` on.
  unfoldable pub send_loop : ℤ → (left : ℕ) → List ℕ → World → Acc ◌<◌ left → Err × World
  send_loop tcp_socket left rest w (Acc.intro _ smaller) =
      dite (dec_lt 0 left)
        (λ more.
          let (tcp_bytes, w₁) = send tcp_socket (take left rest) w in
          dite (dec_lt 0 (pos_part tcp_bytes))
            (λ some_sent.
              send_loop tcp_socket (left - pos_part tcp_bytes) (drop (pos_part tcp_bytes) rest) w₁
                (smaller _ (shrinks left (pos_part tcp_bytes) more some_sent)))
            (λ _. (tcp_failed_send_recv, w₁)))
        (λ _. (ok, w))

  unfoldable pub send_tcp_msg : ℤ → Option (List ℕ) → ℕ → World → Err × World
  send_tcp_msg tcp_socket none buf_len w =
      if is_neg tcp_socket then (tcp_input_socket_invalid, w) else (tcp_input_buf_is_null, w)
  send_tcp_msg tcp_socket (some buf) buf_len w =
      if is_neg tcp_socket
      then (tcp_input_socket_invalid, w)
      else if buf_len == 0
      then (tcp_input_buf_len_is_zero, w)
      else send_loop tcp_socket buf_len buf w (lt_wf.apply buf_len)

  -- `while (bytes_send < buf_len)`, where `left` is `buf_len - bytes_send` and `got` is what has been
  -- stored from `buf` on, `bytes_send` bytes.
  unfoldable pub recv_loop : ℤ → (left : ℕ) → List ℕ → World → Acc ◌<◌ left → Err × List ℕ × World
  recv_loop tcp_socket left got w (Acc.intro _ smaller) =
      dite (dec_lt 0 left)
        (λ more.
          let (tcp_bytes, bytes, w₁) = recv tcp_socket left w in
          dite (dec_lt 0 (pos_part tcp_bytes))
            (λ some_got.
              recv_loop tcp_socket (left - pos_part tcp_bytes) (got ++ bytes) w₁
                (smaller _ (shrinks left (pos_part tcp_bytes) more some_got)))
            (λ _. (tcp_failed_send_recv, got, w₁)))
        (λ _. (ok, got, w))

  -- The memory behind `buf` is the list, and the function leaves it with what was stored over its start.
  unfoldable pub recv_tcp_msg : ℤ → Option (List ℕ) → ℕ → World → Err × Option (List ℕ) × World
  recv_tcp_msg tcp_socket none buf_len w =
      if is_neg tcp_socket
      then (tcp_input_socket_invalid, none, w)
      else (tcp_input_buf_is_null, none, w)
  recv_tcp_msg tcp_socket (some buf) buf_len w =
      if is_neg tcp_socket
      then (tcp_input_socket_invalid, some buf, w)
      else if buf_len == 0
      then (tcp_input_buf_len_is_zero, some buf, w)
      else let (e, got, w₁) = recv_loop tcp_socket buf_len [] w (lt_wf.apply buf_len) in
        (e, some (got ++ drop (length got) buf), w₁)
