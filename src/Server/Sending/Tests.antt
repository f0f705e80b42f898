-- ===== src/Server/Sending/Tests.antt =====
-- What the sockets get, at a client who waits and one who has gone.
use tcp_client_server.Prelude.{
  ℕ, ◌≡◌, refl, List, [], ◌∷◌, some, arith, length-replicate, true, false, str_eq, c_string,
}
use tcp_client_server.Prelude.Int.{pos, negsuc}
use tcp_client_server.Errors.{Err}
use tcp_client_server.Os.Post.{Post, post_os, post_streams, post_separate}
use tcp_client_server.ClientVec.{Client, active, dead, sf, MsgPtr}
use tcp_client_server.ClientVec.Invariant.{IsValid}
use tcp_client_server.ClientVec.Invariant.Sockets.{has_socket}
use tcp_client_server.ClientVec.Subscriptions.{has, option_of}
use tcp_client_server.Server.{Server}
use tcp_client_server.Server.Printing.{pack_topic_to_tcp_msg}
use tcp_client_server.Server.Handlers.{transmit_topic_to_clients}
use tcp_client_server.Server.Sample.{
  no_doubles, an_address, a_message, twelve, twelve_text, full_buffer,
}
use tcp_client_server.Server.Hearing.{listens}
use tcp_client_server.Server.Sending.{HearsIf, transmit_topic_to_clients-Hears}

abbrev waiting : Client
waiting = record {
  id = 67 ∷ 49 ∷ [];
  status = active;
  options = sf ∷ [];
  fd = pos 5;
  topics = (97 ∷ 98 ∷ []) ∷ [];
  topic_capacity = 10;
  ready_msgs = [];
  ready_msgs_capacity = 10;
}

abbrev gone : Client
gone = record waiting { id = 67 ∷ 50 ∷ []; status = dead; fd = negsuc 0 }

abbrev serving_both : Server no_doubles
serving_both = record {
  clients = record { entities = gone ∷ waiting ∷ []; capacity = 10 };
  udp_msgs = a_message ∷ [];
  udp_msgs_base = 4096;
  udp_msgs_capacity = 20;
  udp_addr_client = an_address;
  buf = [];
  send_msg = full_buffer;
  recv_msg = full_buffer;
}

serving_both-IsValid : IsValid serving_both.clients
unfolding has has_socket str_eq
serving_both-IsValid = record {
  wellformed = (
    record {
      paired = refl;
      distinct = (refl, tt);
      topics_fit = omega arith;
      queue_fits = omega arith;
    },
    (
      record {
        paired = refl;
        distinct = (refl, tt);
        topics_fit = omega arith;
        queue_fits = omega arith;
      },
      tt,
    ),
  );
  linked = (refl, (refl, tt));
  ids_distinct = (refl, (refl, tt));
  sockets_distinct = (refl, (refl, tt));
  in_array = omega arith;
  has_room = omega arith;
  small = omega arith;
}

nobody_else : listens (pos 6) (97 ∷ 98 ∷ []) serving_both.clients.entities ≡ false
unfolding listens option_of str_eq
nobody_else = refl

transmit_topic_to_clients-Hears_example :
    (e : Err) × (s' : Server no_doubles) × (w' : Post) × (transmit_topic_to_clients no_doubles
        post_os serving_both
        (record { sent = [] })
      ≡ some (e, s', w'))
    × HearsIf post_os post_streams post_separate
        (pack_topic_to_tcp_msg no_doubles full_buffer a_message).1
        (pos 5)
        (record { sent = [] })
        true
        (e, s'.clients, w')
unfolding listens option_of str_eq c_string
transmit_topic_to_clients-Hears_example =
    transmit_topic_to_clients-Hears no_doubles post_os post_streams post_separate serving_both
      (record { sent = [] }) a_message twelve (pos 5) refl twelve_text (omega arith)
      (length-replicate {A = ℕ} 2048 0) serving_both-IsValid refl

-- The client is back, and a message is in its queue.
abbrev back : Server no_doubles
back = record serving_both {
  clients = record {
    entities = gone ∷ record waiting { ready_msgs = record { base = 4096; index = 0 } ∷ [] } ∷ [];
    capacity = 10;
  };
}

abbrev its_queue : List MsgPtr
its_queue = record { base = 4096; index = 0 } ∷ []
