-- ===== src/Server/Printing.antt =====
-- server_utils.c, `pack_topic_to_tcp_msg`: a message as the text that subscribers print.
use tcp_client_server.Prelude.{
  ℕ, zero, suc, ◌+◌, ◌-◌, ◌*◌, ◌/◌, ◌%◌, ◌^◌, List, [], ◌∷◌, ◌++◌, Option, none, some, ◌==◌,
  if◌then◌else◌, take, drop, length, Text, c_string,
}
use tcp_client_server.Prelude.Int.{ℤ, pos, negsuc}
use tcp_client_server.Errors.{Err, ok, udp_unknown_data_type}
use tcp_client_server.Tcp.{TcpMsg, max_tcp_msg_buf_len}
use tcp_client_server.Udp.{Doubles, SockAddr, UdpData, UdpMsg, int, short_real, float, string}

-- `%u`, for numbers of at most `places` digits.
unfoldable pub digits : ℕ → ℕ → Text → Text
digits zero n acc = acc
digits (suc places) n acc =
    let rest = digits places (n / 10) ((48 + n % 10) ∷ acc) in
    if n / 10 == 0 then (48 + n % 10) ∷ acc else rest

-- A number below 2 ^ 32 has at most ten digits.
unfoldable pub decimal : ℕ → Text
decimal n = digits 10 n []

-- `%d`
unfoldable pub signed_decimal : ℤ → Text
signed_decimal (pos n) = decimal n
signed_decimal (negsuc n) = 45 ∷ decimal (n + 1)

-- `inet_ntoa`: the bytes of the address in the order of memory, with dots.
unfoldable pub inet_ntoa : ℕ → Text
inet_ntoa a =
    decimal (a % 256)
    ++ 46 ∷ decimal (a / 256 % 256)
    ++ 46 ∷ decimal (a / 2 ^ 16 % 256)
    ++ 46 ∷ decimal (a / 2 ^ 24 % 256)

abbrev pub ntohs : ℕ → ℕ
ntohs p = p % 256 * 256 + p / 256 % 256

-- Bytes stored into a buffer from an offset on.
unfoldable pub overwrite : List ℕ → ℕ → List ℕ → List ℕ
overwrite buf offset bytes = take offset buf ++ bytes ++ drop (offset + length bytes) buf

-- `snprintf(buf + offset, size, …)` of a text, for a `size` that is not 0.
unfoldable pub snprintf_at : List ℕ → ℕ → ℕ → Text → List ℕ
snprintf_at buf offset size text = overwrite buf offset (take (size - 1) text ++ 0 ∷ [])

-- "%s:%hu - %s -"
unfoldable pub head_text : SockAddr → Text → Text
head_text addr topic =
    inet_ntoa addr.sin_addr
    ++ 58 ∷ decimal (ntohs addr.sin_port)
    ++ 32 ∷ 45 ∷ 32 ∷ topic
    ++ 32 ∷ 45 ∷ []

module _ (doubles : Doubles) where
  -- What the `switch` on the type prints; `none` is its default. The `union` holds the member of the type
  -- in each message that was parsed.
  unfoldable pub data_text : ℕ → UdpData doubles → Option Text
  data_text zero (int n) = some (32 ∷ 73 ∷ 78 ∷ 84 ∷ 32 ∷ 45 ∷ 32 ∷ signed_decimal n)
  data_text (suc zero) (short_real x) = some (
      32
      ∷ 83
      ∷ 72
      ∷ 79
      ∷ 82
      ∷ 84
      ∷ 95
      ∷ 82
      ∷ 69
      ∷ 65
      ∷ 76
      ∷ 32
      ∷ 45
      ∷ 32
      ∷ doubles.print_two_places x)
  data_text (suc (suc zero)) (float x) =
      some (32 ∷ 70 ∷ 76 ∷ 79 ∷ 65 ∷ 84 ∷ 32 ∷ 45 ∷ 32 ∷ doubles.print x)
  data_text (suc (suc (suc zero))) (string bytes) =
      some (32 ∷ 83 ∷ 84 ∷ 82 ∷ 73 ∷ 78 ∷ 71 ∷ 32 ∷ 45 ∷ 32 ∷ c_string bytes)
  data_text _ _ = none

  -- `len` is a `uint16_t`.
  unfoldable pub pack_topic_to_tcp_msg : TcpMsg → UdpMsg doubles → Err × TcpMsg
  pack_topic_to_tcp_msg send_msg msg =
      let head = head_text msg.addr (c_string msg.topic) in
      let len₁ = length head % 2 ^ 16 in
      let data₁ = snprintf_at send_msg.bytes 0 max_tcp_msg_buf_len head in
      elim (data_text msg.udp_type msg.udp_data) [
        | none ↦ (udp_unknown_data_type, record { len = len₁; bytes = data₁ })
        | some text ↦ (
          ok,
          record {
            len = (len₁ + length text) % 2 ^ 16;
            bytes = snprintf_at data₁ len₁ (max_tcp_msg_buf_len - len₁) text;
          },
        )
      ]
