-- ===== src/Server/Tests.antt =====
-- A server with one message and one client, and the theorems about it.
use tcp_client_server.Prelude.{◌≡◌, ◌⊎◌, refl, [], ◌∷◌, some, arith, Text, c_string, ◌++◌, length}
use tcp_client_server.Prelude.Int.{pos, negsuc}
use tcp_client_server.Errors.{Err, ok, clients_vec_failed_realloc}
use tcp_client_server.Os.Script.{script_os, script_limit, idle_machine, Machine}
use tcp_client_server.ClientVec.{Client, MsgPtr, active, dead, sf}
use tcp_client_server.ClientVec.Subscriptions.{has}
use tcp_client_server.ClientVec.Wellformed.{IsWellformed}
use tcp_client_server.Tcp.{TcpMsg}
use tcp_client_server.Server.{Server}
use tcp_client_server.Server.Printing.{head_text, data_text, pack_topic_to_tcp_msg}
use tcp_client_server.Server.Packing.{pack_topic_to_tcp_msg-c_string}
use tcp_client_server.Server.Handlers.{
  transmit_topic_to_clients, retransmit_topics_to_client, add_server_udp_msg,
}
use tcp_client_server.ClientVec.Invariant.{IsValid}
use tcp_client_server.ClientVec.Invariant.Sockets.{has_socket}
use tcp_client_server.Server.Safety.{Kept, transmissions-IsValid}
use tcp_client_server.Server.Delivery.{AllDelivered}
use tcp_client_server.Server.Transmission.{transmit_topic_to_clients-AllDelivered}
use tcp_client_server.Server.Store.{Follows, add_server_udp_msg-Follows}
use tcp_client_server.Server.Sample.{
  no_doubles, an_address, a_message, twelve, twelve_text, twelve-IsText,
}

abbrev a_topic : Text
a_topic = 97 ∷ 98 ∷ []

abbrev a_pointer : MsgPtr
a_pointer = record { base = 4096; index = 0 }

abbrev absent : Client
absent = record {
  id = 67 ∷ 49 ∷ [];
  status = dead;
  options = sf ∷ [];
  fd = negsuc 0;
  topics = a_topic ∷ [];
  topic_capacity = 10;
  ready_msgs = [];
  ready_msgs_capacity = 10;
}

-- The client is back on the socket 5.
abbrev returned : Client
returned = record absent { status = active; fd = pos 5; ready_msgs = a_pointer ∷ [] }

abbrev server_with : Client → Server no_doubles
server_with c = record {
  clients = record { entities = c ∷ []; capacity = 10 };
  udp_msgs = a_message ∷ [];
  udp_msgs_base = 4096;
  udp_msgs_capacity = 20;
  udp_addr_client = an_address;
  buf = 97 ∷ 98 ∷ 0 ∷ [];
  send_msg = record { len = 0; bytes = [] };
  recv_msg = record { len = 0; bytes = [] };
}

absent-IsWellformed : IsWellformed absent
unfolding has
absent-IsWellformed = record {
  paired = refl;
  distinct = (refl, tt);
  topics_fit = omega arith;
  queue_fits = omega arith;
}

packed : (pack_topic_to_tcp_msg no_doubles (record { len = 0; bytes = [] }) a_message).0 ≡ ok
unfolding pack_topic_to_tcp_msg data_text
packed = refl

transmit_topic_to_clients-AllDelivered_example :
    (e : Err) × (s' : Server no_doubles) × (w' : Machine) × (transmit_topic_to_clients no_doubles
        script_os
        (server_with absent)
        idle_machine
      ≡ some (e, s', w'))
    × (s'.udp_msgs ≡ a_message ∷ [])
    × (((e ≡ ok)
          × AllDelivered (c_string (97 ∷ 98 ∷ 0 ∷ [])) a_pointer (absent ∷ []) s'.clients.entities)
        ⊎ (e ≡ clients_vec_failed_realloc))
transmit_topic_to_clients-AllDelivered_example =
    transmit_topic_to_clients-AllDelivered no_doubles script_os (server_with absent) idle_machine
      a_message refl packed (absent-IsWellformed, tt)

-- The array is full, and the script gives another address.
abbrev full : Server no_doubles
full = record (server_with absent) { udp_msgs_base = 1; udp_msgs_capacity = 1 }

add_server_udp_msg-Follows_example :
    Follows no_doubles full (add_server_udp_msg no_doubles script_os full idle_machine).1
add_server_udp_msg-Follows_example =
    add_server_udp_msg-Follows no_doubles script_os full idle_machine

pack_topic_to_tcp_msg-c_string_example :
    (let whole = head_text an_address (c_string (97 ∷ 98 ∷ 0 ∷ [])) ++ twelve in
      (b' : TcpMsg) × (pack_topic_to_tcp_msg no_doubles (record { len = 0; bytes = [] }) a_message
        ≡ (ok, b'))
      × (c_string b'.bytes ≡ whole)
      × (b'.len ≡ length whole))
pack_topic_to_tcp_msg-c_string_example =
    pack_topic_to_tcp_msg-c_string no_doubles (record { len = 0; bytes = [] }) a_message twelve
      twelve_text (omega arith) twelve-IsText (omega arith)

absent_table-IsValid : IsValid (server_with absent).clients
unfolding has has_socket
absent_table-IsValid = record {
  wellformed = (absent-IsWellformed, tt);
  linked = (refl, tt);
  ids_distinct = (refl, tt);
  sockets_distinct = (refl, tt);
  in_array = omega arith;
  has_room = omega arith;
  small = omega arith;
}

transmissions-IsValid_example :
    Kept no_doubles script_os script_limit
      (transmit_topic_to_clients no_doubles script_os (server_with absent) idle_machine)
    × Kept no_doubles script_os script_limit
        (retransmit_topics_to_client no_doubles script_os (server_with absent) (pos 5) idle_machine)
transmissions-IsValid_example =
    transmissions-IsValid no_doubles script_os script_limit (server_with absent) (pos 5)
      idle_machine absent_table-IsValid
