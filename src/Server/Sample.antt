-- ===== src/Server/Sample.antt =====
-- A message and what it prints, for running the code on concrete inputs.
use tcp_client_server.Prelude.{
  ℕ, ◌≡◌, refl, Bool, true, ◌&&◌, not, List, [], ◌∷◌, some, ◌==◌, arith, replicate, Text, IsText,
}
use tcp_client_server.Prelude.Int.{pos}
use tcp_client_server.Tcp.{TcpMsg}
use tcp_client_server.Udp.{Doubles, SockAddr, UdpMsg, int}
use tcp_client_server.Server.Printing.{data_text, signed_decimal, decimal, digits}

abbrev pub no_doubles : Doubles
no_doubles = record {
  Double = ℕ;
  from_nat = λ n. n;
  divide = λ x n. x;
  negate = λ x. x;
  print_two_places = λ x. [];
  print = λ x. [];
}

abbrev pub an_address : SockAddr
an_address = record { sin_family = 2; sin_port = 36895; sin_addr = 16777343 }

abbrev pub a_message : UdpMsg no_doubles
a_message = record {
  addr = an_address;
  topic = 97 ∷ 98 ∷ 0 ∷ [];
  udp_type = 0;
  udp_data = int (pos 12);
}

abbrev pub twelve : Text
twelve = 32 ∷ 73 ∷ 78 ∷ 84 ∷ 32 ∷ 45 ∷ 32 ∷ 49 ∷ 50 ∷ []

pub twelve_text : data_text no_doubles 0 (int (pos 12)) ≡ some twelve
unfolding data_text signed_decimal decimal digits
twelve_text = refl

pub twelve-IsText : IsText twelve
twelve-IsText = all_nonzero twelve refl
  where
    nonzero : List ℕ → Bool
    nonzero [] = true
    nonzero (b ∷ bs) = not (b == 0) && nonzero bs

    all_nonzero : (s : Text) → nonzero s ≡ true → IsText s
    all_nonzero [] e = tt
    all_nonzero (b ∷ bs) e = ((λ z. ground arith), all_nonzero bs (ground arith))

abbrev pub full_buffer : TcpMsg
full_buffer = record { len = 0; bytes = replicate 2048 0 }
