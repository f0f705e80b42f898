-- ===== src/Udp/Tests.antt =====
-- Parsed datagrams, and the theorem at a concrete one.
use tcp_client_server.Prelude.{ℕ, ◌≡◌, refl, [], ◌∷◌, ◌++◌, some, arith, Text, c_string}
use tcp_client_server.Prelude.Int.{pos}
use tcp_client_server.Errors.{ok}
use tcp_client_server.Udp.{Doubles, SockAddr, UdpMsg, int, parse_udp_type_from}
use tcp_client_server.Udp.Bytes.{packet, zeros}
use tcp_client_server.Udp.Packet.{
  payload_of, a_float, topic_seen, Reads, parse_udp_type_from-packet,
}

-- The operations on `double` as a history of what was computed.
pub data History : Type 0 where
  exact : ℕ → History
  quotient : History → ℕ → History
  opposite : History → History

abbrev pub histories : Doubles
histories = record {
  Double = History;
  from_nat = exact;
  divide = quotient;
  negate = opposite;
  print_two_places = λ x. [];
  print = λ x. [];
}

abbrev pub an_address : SockAddr
an_address = record { sin_family = 2; sin_port = 36895; sin_addr = 16777343 }

abbrev pub blank : UdpMsg histories
blank = record { addr = an_address; topic = zeros 51; udp_type = 0; udp_data = int (pos 0) }

abbrev a_topic : Text
a_topic = 97 ∷ 98 ∷ []

-- A topic of 50 bytes.
abbrev long_topic : ℕ → Text
long_topic ℕ.zero = []
long_topic (ℕ.suc n) = 97 ∷ long_topic n

parse_udp_type_from-packet_example :
    (m' : UdpMsg histories) × (parse_udp_type_from histories
        (some blank)
        (some an_address)
        (some (packet a_topic 2 (payload_of (a_float 1 1234 2) [])))
      ≡ (ok, some m'))
    × (m'.addr ≡ an_address)
    × (m'.udp_type ≡ 2)
    × (c_string m'.topic ≡ topic_seen a_topic 2)
    × Reads histories (a_float 1 1234 2) m'.udp_data
parse_udp_type_from-packet_example =
    parse_udp_type_from-packet histories blank an_address a_topic (a_float 1 1234 2) []
      ((λ e. absurd (omega arith)), ((λ e. absurd (omega arith)), tt)) (omega arith) (omega arith)

seen_with_type : topic_seen (long_topic 50) 3 ≡ long_topic 50 ++ 3 ∷ []
seen_with_type = refl
