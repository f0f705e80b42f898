-- ===== src/Udp.antt =====
-- udp_type.h and udp_type.c: a message about a topic, parsed from a datagram.
-- The arithmetic on `double` is a parameter.
pub mod Bytes
pub mod Packet
mod Tests
use tcp_client_server.Prelude.{
  ℕ, zero, suc, ◌+◌, ◌-◌, ◌*◌, ◌^◌, List, [], ◌∷◌, Option, none, some, ◌==◌, ltb, if◌then◌else◌,
  get_elem?, take, drop,
}
use tcp_client_server.Prelude.Int.{ℤ, pos, negsuc}
use tcp_client_server.Errors.{
  Err, ok, udp_input_var_is_null, udp_input_buf_is_null, udp_unknown_data_type,
}
use tcp_client_server.Ipow.{ipow}

abbrev pub max_topic_len : ℕ
max_topic_len = 51

abbrev pub max_string_len : ℕ
max_string_len = 1501

-- `double`: `1.0 * n`, `x / n`, `x * -1.0`, and what `printf` writes for it with `%.2f` and `%f`.
pub record Doubles : Type 1 where
  pub Double : Type 0
  pub from_nat : ℕ → Double
  pub divide : Double → ℕ → Double
  pub negate : Double → Double
  pub print_two_places : Double → List ℕ
  pub print : Double → List ℕ

-- The parts of a `struct sockaddr_in` that the program uses.
pub record SockAddr : Type 0 where
  pub sin_family : ℕ
  pub sin_port : ℕ
  pub sin_addr : ℕ

-- The byte at an offset of a buffer, which is long enough for all that are read.
abbrev pub byte_at : List ℕ → ℕ → ℕ
byte_at buf i = elim (get_elem? buf i) [ none ↦ 0 | some b ↦ b ]

-- `ntohs(*(uint16_t *)buf)` and `ntohl(*(uint32_t *)buf)`
abbrev pub ntohs_at : List ℕ → ℕ
ntohs_at buf = byte_at buf 0 * 256 + byte_at buf 1

abbrev pub ntohl_at : List ℕ → ℕ
ntohl_at buf = byte_at buf 0 * 2 ^ 24 + byte_at buf 1 * 2 ^ 16 + byte_at buf 2 * 256 + byte_at buf 3

-- A `uint32_t` as an `int32_t`.
unfoldable pub int32_of : ℕ → ℤ
int32_of u = if ltb u (2 ^ 31) then pos u else negsuc (2 ^ 32 - 1 - u)

-- `x *= -1` on an `int32_t`, which wraps around at the least number.
unfoldable pub negate_int32 : ℤ → ℤ
negate_int32 (pos zero) = pos zero
negate_int32 (pos (suc n)) = negsuc n
negate_int32 (negsuc n) = if n == 2 ^ 31 - 1 then negsuc n else pos (n + 1)

module _ (doubles : Doubles) where
  open doubles use {Double, from_nat, divide, negate}

  -- `udp_data_t`
  pub data UdpData : Type 0 where
    int : ℤ → UdpData
    short_real : Double → UdpData
    float : Double → UdpData
    string : List ℕ → UdpData

  -- `udp_type_t`. `udp_type` is the field `type`, a number that need not be one of `udp_data_type_t`.
  pub record UdpMsg : Type 0 where
    pub addr : SockAddr
    pub topic : List ℕ
    pub udp_type : ℕ
    pub udp_data : UdpData

  unfoldable pub parse_udp_int_type : List ℕ → UdpData
  parse_udp_int_type buf =
      let u = int32_of (ntohl_at (drop 1 buf)) in
      if byte_at buf 0 == 0 then int u else int (negate_int32 u)

  unfoldable pub parse_udp_short_real_type : List ℕ → UdpData
  parse_udp_short_real_type buf = short_real (divide (from_nat (ntohs_at buf)) 100)

  unfoldable pub parse_udp_float_type : List ℕ → UdpData
  parse_udp_float_type buf =
      let x = divide (from_nat (ntohl_at (drop 1 buf))) (ipow 10 (byte_at buf 5)) in
      if byte_at buf 0 == 0 then float x else float (negate x)

  unfoldable pub parse_udp_string_type : List ℕ → UdpData
  parse_udp_string_type buf = string (take max_string_len buf)

  -- The `switch` on the type; `none` is its default.
  unfoldable pub parse_data : ℕ → List ℕ → Option UdpData
  parse_data zero buf = some (parse_udp_int_type buf)
  parse_data (suc zero) buf = some (parse_udp_short_real_type buf)
  parse_data (suc (suc zero)) buf = some (parse_udp_float_type buf)
  parse_data (suc (suc (suc zero))) buf = some (parse_udp_string_type buf)
  parse_data (suc (suc (suc (suc n)))) buf = none

  -- The message behind the pointer is overwritten up to its type when the type is unknown.
  unfoldable pub parse_udp_type_from :
      Option UdpMsg → Option SockAddr → Option (List ℕ) → Err × Option UdpMsg
  parse_udp_type_from none addr buf = (udp_input_var_is_null, none)
  parse_udp_type_from (some m) none buf = (udp_input_buf_is_null, some m)
  parse_udp_type_from (some m) (some a) none = (udp_input_buf_is_null, some m)
  parse_udp_type_from (some m) (some a) (some buf) =
      let type_byte = byte_at buf (max_topic_len - 1) in
      let m' = record m { addr = a; topic = take max_topic_len buf; udp_type = type_byte } in
      elim (parse_data type_byte (drop max_topic_len buf)) [
        | none ↦ (udp_unknown_data_type, some m')
        | some d ↦ (ok, some (record m' { udp_data = d }))
      ]
