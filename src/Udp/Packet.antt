-- ===== src/Udp/Packet.antt =====
-- Datagrams as the senders write them: what `parse_udp_type_from` reads in them.
use tcp_client_server.Prelude.{
  ℕ, zero, suc, ◌-◌, ◌/◌, ◌%◌, ◌^◌, ◌≤◌, ◌<◌, ◌≡◌, refl, ap, ap₂, ◌∙◌, List, [], ◌∷◌, ◌++◌, Option,
  none, some, arith, ◌==◌, ◌&&◌, not, if◌then◌else◌, take, drop, length, Text, IsText, c_string,
  c_string-append, append-nil, append_assoc,
}
use tcp_client_server.Prelude.Int.{ℤ, pos, negsuc}
use tcp_client_server.Errors.{Err, ok, udp_unknown_data_type}
use tcp_client_server.Ipow.Correct.{ipow-eq-pow}
use tcp_client_server.Udp.{
  max_string_len, Doubles, SockAddr, byte_at, ntohs_at, int32_of, negate_int32, UdpData, UdpMsg,
  int, short_real, float, string, parse_udp_int_type, parse_udp_short_real_type,
  parse_udp_float_type, parse_udp_string_type, parse_data, parse_udp_type_from,
}
use tcp_client_server.Udp.Bytes.{
  zeros, packet, htonl_bytes, ntohl-htonl, c_string-take, length-topic_field, drop-append_one,
  take-append_one, get_elem?-append,
}

-- What a sender writes about a topic.
pub data Datum : Type 0 where
  an_int : (sign n : ℕ) → Datum
  a_short_real : (n : ℕ) → Datum
  a_float : (sign n power : ℕ) → Datum
  a_string : Text → Datum

abbrev pub type_of : Datum → ℕ
type_of (an_int sign n) = 0
type_of (a_short_real n) = 1
type_of (a_float sign n power) = 2
type_of (a_string s) = 3

-- The bytes of the data, in front of whatever the buffer still holds.
abbrev pub payload_of : Datum → List ℕ → List ℕ
payload_of (an_int sign n) rest = sign ∷ htonl_bytes n ++ rest
payload_of (a_short_real n) rest = n / 256 ∷ n % 256 ∷ rest
payload_of (a_float sign n power) rest = sign ∷ htonl_bytes n ++ power ∷ rest
payload_of (a_string s) rest = s ++ 0 ∷ rest

-- Numbers in their words, an int not below -(2 ^ 31 - 1), and strings that fit with their NUL.
abbrev pub InRange : Datum → Type 0
InRange (an_int sign n) = n < 2 ^ 31
InRange (a_short_real n) = n < 2 ^ 16
InRange (a_float sign n power) = n < 2 ^ 32
InRange (a_string s) = IsText s × (length s < max_string_len)

abbrev pub minus : ℕ → ℤ
minus zero = pos zero
minus (suc n) = negsuc n

-- What a reader must find: the sign and the magnitude, hundredths, a decimal point moved by `power`
-- (modulo 2 ^ 32), or the text.
abbrev pub Reads : (doubles : Doubles) → Datum → UdpData doubles → Type 0
Reads doubles (an_int sign n) d = d ≡ int (if sign == 0 then pos n else minus n)
Reads doubles (a_short_real n) d = d ≡ short_real (doubles.divide (doubles.from_nat n) 100)
Reads doubles (a_float sign n power) d =
    let x = doubles.divide (doubles.from_nat n) (10 ^ power % 2 ^ 32) in
    d ≡ float (if sign == 0 then x else doubles.negate x)
Reads doubles (a_string s) d = (bytes : List ℕ) × (d ≡ string bytes) × (c_string bytes ≡ s)

-- The topic as `strcmp` sees it: a topic of 50 bytes runs into the byte of the type.
abbrev pub topic_seen : Text → ℕ → Text
topic_seen t ty = if length t == 50 && not (ty == 0) then t ++ ty ∷ [] else t

c_string-last :
    (t : Text) (ty : ℕ) → IsText t → c_string (t ++ ty ∷ []) ≡ (if ty == 0 then t else t ++ ty ∷ [])
unfolding c_string
c_string-last [] ty h = ground arith
c_string-last (b ∷ bs) ty h = ground (arith, c_string-last bs ty h.1)

c_string-field :
    (t : Text) (gap ty : ℕ)
    → IsText t
    → c_string ((t ++ zeros gap) ++ ty ∷ [])
      ≡ (if gap == 0 && not (ty == 0) then t ++ ty ∷ [] else t)
c_string-field t zero ty h = rw (append-nil t) (c_string-last t ty h ∙ ground arith)
c_string-field t (suc gap) ty h =
    rw (append_assoc t (zeros (suc gap)) (ty ∷ []))
      (c_string-append t (zeros gap ++ ty ∷ []) h ∙ ground arith)

topic_read :
    (t : Text) (ty : ℕ)
    → IsText t
    → length t ≤ 50
    → c_string ((t ++ zeros (50 - length t)) ++ ty ∷ []) ≡ topic_seen t ty
topic_read t ty h l = c_string-field t (50 - length t) ty h ∙ ground arith

int32_of_small : (n : ℕ) → n < 2 ^ 31 → int32_of n ≡ pos n
unfolding int32_of
int32_of_small n h = ground arith

negate_int32-pos : (n : ℕ) → negate_int32 (pos n) ≡ minus n
unfolding negate_int32
negate_int32-pos zero = refl
negate_int32-pos (suc n) = refl

ntohs-bytes : (n : ℕ) (rest : List ℕ) → n < 2 ^ 16 → ntohs_at (n / 256 ∷ n % 256 ∷ rest) ≡ n
ntohs-bytes n rest h = omega arith

module _ (doubles : Doubles) where
  int_read :
      (sign n : ℕ) (rest : List ℕ)
      → n < 2 ^ 31
      → Reads doubles (an_int sign n) (parse_udp_int_type doubles (sign ∷ htonl_bytes n ++ rest))
  unfolding parse_udp_int_type
  int_read sign n rest h =
      ap (λ u. if sign == 0 then int (int32_of u) else int (negate_int32 (int32_of u)))
        (ntohl-htonl n rest (omega arith))
      ∙ rw (int32_of_small n h, negate_int32-pos n) (ground arith)

  float_read :
      (sign n power : ℕ) (rest : List ℕ)
      → n < 2 ^ 32
      → Reads doubles
          (a_float sign n power)
          (parse_udp_float_type doubles (sign ∷ htonl_bytes n ++ power ∷ rest))
  unfolding parse_udp_float_type
  float_read sign n power rest h =
      ap₂
        (λ u p.
          if sign == 0
          then float (doubles.divide (doubles.from_nat u) p)
          else float (doubles.negate (doubles.divide (doubles.from_nat u) p)))
        (ntohl-htonl n (power ∷ rest) h) (ipow-eq-pow 10 power)
      ∙ ground arith

  string_read :
      (s : Text) (rest : List ℕ)
      → IsText s
      → length s < max_string_len
      → c_string (take max_string_len (s ++ 0 ∷ rest)) ≡ s
  string_read s rest h l = c_string-take max_string_len s rest h l

  parse_data-Reads :
      (d : Datum) (rest : List ℕ)
      → InRange d
      → (x : UdpData doubles) × (parse_data doubles (type_of d) (payload_of d rest) ≡ some x)
        × Reads doubles d x
  unfolding parse_data parse_udp_short_real_type parse_udp_string_type
  parse_data-Reads (an_int sign n) rest h = (_, refl, int_read sign n rest h)
  parse_data-Reads (a_short_real n) rest h = (
    _,
    refl,
    ap (λ u. short_real (doubles.divide (doubles.from_nat u) 100)) (ntohs-bytes n rest h),
  )
  parse_data-Reads (a_float sign n power) rest h = (_, refl, float_read sign n power rest h)
  parse_data-Reads (a_string s) rest h =
      (_, refl, (take max_string_len (s ++ 0 ∷ rest), refl, string_read s rest h.0 h.1))

  parse_buf :
      (m : UdpMsg doubles) (a : SockAddr) (buf topic : List ℕ) (ty : ℕ) (p : List ℕ)
      (x : UdpData doubles)
      → byte_at buf 50 ≡ ty
      → take 51 buf ≡ topic
      → drop 51 buf ≡ p
      → parse_data doubles ty p ≡ some x
      → parse_udp_type_from doubles (some m) (some a) (some buf)
        ≡ (ok, some (record { addr = a; topic = topic; udp_type = ty; udp_data = x }))
  unfolding parse_udp_type_from
  parse_buf m a buf topic ty p x b f d e =
      ap₂ (λ i q. parsed m a i (take 51 buf) (parse_data doubles i q)) b d
      ∙ ap₂ (λ u o. parsed m a ty u o) f e
    where
      parsed :
          UdpMsg doubles
          → SockAddr
          → ℕ
          → List ℕ
          → Option (UdpData doubles)
          → Err × Option (UdpMsg doubles)
      parsed m a i u none =
          (udp_unknown_data_type, some (record m { addr = a; topic = u; udp_type = i }))
      parsed m a i u (some d) =
          (ok, some (record { addr = a; topic = u; udp_type = i; udp_data = d }))

  -- A datagram with a topic of at most 50 bytes, none of them 0, and data in range is parsed without an
  -- error, whatever else the buffer holds: the message has the sender's address, the type, and the
  -- data that the sender wrote. Its topic is the sender's, unless that has 50 bytes and the type is not
  -- INT: then the byte of the type is read as one more byte of the topic.
  pub parse_udp_type_from-packet :
      (m : UdpMsg doubles) (a : SockAddr) (t : Text) (d : Datum) (rest : List ℕ)
      → IsText t
      → length t ≤ 50
      → InRange d
      → (m' : UdpMsg doubles) × (parse_udp_type_from doubles
            (some m)
            (some a)
            (some (packet t (type_of d) (payload_of d rest)))
          ≡ (ok, some m'))
        × (m'.addr ≡ a)
        × (m'.udp_type ≡ type_of d)
        × (c_string m'.topic ≡ topic_seen t (type_of d))
        × Reads doubles d m'.udp_data
  unfolding parse_udp_type_from
  parse_udp_type_from-packet m a t d rest h l r =
      let field : List ℕ = t ++ zeros (50 - length t) in
      let n : length field ≡ 50 = length-topic_field t l in
      let (x, e, reads) = parse_data-Reads d rest r in
      let ty : ℕ = type_of d in
      let p : List ℕ = payload_of d rest in
      (
        record { addr = a; topic = field ++ ty ∷ []; udp_type = ty; udp_data = x },
        parse_buf m a (packet t ty p) (field ++ ty ∷ []) ty p x
            (ap (λ o. elim o [ none ↦ 0 | some b ↦ b ]) (get_elem?-append 50 field ty p n))
            (take-append_one 50 field ty p n) (drop-append_one 50 field ty p n) e,
        refl,
        refl,
        topic_read t ty h l,
        reads,
      )
