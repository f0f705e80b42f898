-- ===== src/Subscriber/Tests.antt =====
-- The commands of a subscriber at concrete lines.
use tcp_client_server.Prelude.{ℕ, ◌≡◌, refl, List, [], ◌∷◌, ◌++◌, some, arith, Text, c_string}
use tcp_client_server.Prelude.Int.{ℤ, pos}
use tcp_client_server.Os.Script.{script_os, idle_machine, Machine}
use tcp_client_server.ClientVec.Topics.{unsubscribe_client_from_topic}
use tcp_client_server.Tcp.{TcpMsg}
use tcp_client_server.Server.{Server}
use tcp_client_server.Server.Handlers.{vec_after, process_server_tcp_msg}
use tcp_client_server.Subscriber.{Subscriber, process_unsubscribe_cmd, send_request}
use tcp_client_server.Subscriber.Lines.{
  IsWord, unsubscribe_line, process_unsubscribe_cmd-process_server_tcp_msg,
}
use tcp_client_server.Server.Sample.{no_doubles}

abbrev a_topic : Text
a_topic = 97 ∷ 98 ∷ []

abbrev one : Text
one = 49 ∷ []

abbrev typing : List ℕ → Subscriber
typing line = record {
  tcp_socket = pos 3;
  cmd = line ++ 0 ∷ 7 ∷ [];
  send_msg = record { len = 0; bytes = [] };
}

unsubscribe_typed : c_string (typing (unsubscribe_line a_topic)).cmd ≡ unsubscribe_line a_topic
unfolding c_string
unsubscribe_typed = refl

a_topic-IsWord : IsWord a_topic
a_topic-IsWord = ((λ e. absurd (omega arith)), refl, ((λ e. absurd (omega arith)), refl, tt))

process_unsubscribe_cmd-process_server_tcp_msg_example :
    (m : TcpMsg) × (process_unsubscribe_cmd script_os
        (some (typing (unsubscribe_line a_topic)))
        idle_machine
      ≡ send_request script_os (typing (unsubscribe_line a_topic)) m idle_machine)
    × ((s : Server no_doubles) (fd : ℤ) (w' : Machine)
        → s.recv_msg ≡ m
        → process_server_tcp_msg no_doubles script_os s fd w' ≡ (
            let (e, v) = unsubscribe_client_from_topic (some s.clients) fd a_topic in
            (e, record s { clients = vec_after s.clients v }, w')))
process_unsubscribe_cmd-process_server_tcp_msg_example =
    process_unsubscribe_cmd-process_server_tcp_msg no_doubles script_os script_os
      (typing (unsubscribe_line a_topic)) idle_machine a_topic unsubscribe_typed a_topic-IsWord
