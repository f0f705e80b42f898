-- ===== src/ClientVec/Tests.antt =====
-- Runs of the table of clients, and its theorems at concrete inputs.
use tcp_client_server.Prelude.{
  ◌≡◌, refl, false, [], ◌∷◌, none, some, arith, Text, for_first, set, get_elem?,
}
use tcp_client_server.Prelude.Int.{pos, negsuc}
use tcp_client_server.Errors.{ok}
use tcp_client_server.Os.Script.{script_os, script_limit, idle_machine, allocate}
use tcp_client_server.ClientVec.{
  Client, ClientVec, MsgPtr, active, dead, sf, no_sf, create_clients_vec, register_new_client,
  close_active_client, get_client_id, grow_entities, add_client, malloc_all, new_client, reconnect,
  disconnect,
}
use tcp_client_server.ClientVec.Topics.{
  subscribe_client_to_topic, unsubscribe_client_from_topic, on_socket, add_topic, grow_topics,
  append_topic, find_topic, push_msg,
}
use tcp_client_server.ClientVec.Lookup.{back_on}
use tcp_client_server.ClientVec.Wellformed.{IsWellformed}
use tcp_client_server.ClientVec.Removal.{Queues, push_msg-Queues}
use tcp_client_server.ClientVec.Invariant.{IsValid}
use tcp_client_server.ClientVec.Invariant.Sockets.{has_socket}
use tcp_client_server.ClientVec.Invariant.Reach.{Step, Reach, start, then_step, Reach-IsValid}
use tcp_client_server.ClientVec.Subscribers.{SubscribesOn, UnsubscribesOn}
use tcp_client_server.ClientVec.Requests.{
  subscribe_client_to_topic-SubscribesOn, unsubscribe_client_from_topic-UnsubscribesOn,
}
use tcp_client_server.ClientVec.Connections.{Closes, close_active_client-Closes, register-close}

-- An id and a topic of two letters each.
abbrev an_id : Text
an_id = 67 ∷ 49 ∷ []

abbrev a_topic : Text
a_topic = 97 ∷ 98 ∷ []

abbrev empty_vec : ClientVec
empty_vec = record { entities = []; capacity = 10 }

abbrev fresh_client : Client
fresh_client = record {
  id = an_id;
  status = active;
  options = [];
  fd = pos 5;
  topics = [];
  topic_capacity = 10;
  ready_msgs = [];
  ready_msgs_capacity = 10;
}

abbrev subscriber : Client
subscriber = record fresh_client { topics = a_topic ∷ []; options = sf ∷ [] }

abbrev gone_client : Client
gone_client = record subscriber { status = dead; fd = negsuc 0 }

abbrev vec_of : Client → ClientVec
vec_of c = record { entities = c ∷ []; capacity = 10 }

abbrev a_pointer : MsgPtr
a_pointer = record { base = 4096; index = 0 }

created :
    create_clients_vec script_os (some none) 10 idle_machine
    ≡ (ok, some (some empty_vec), record idle_machine { next_address = 4098 })
unfolding create_clients_vec allocate
created = refl

registered :
    (register_new_client script_os (some empty_vec) an_id (pos 5) idle_machine).1
    ≡ some (vec_of fresh_client)
unfolding register_new_client grow_entities add_client malloc_all new_client reconnect for_first
    allocate
registered = refl

subscribed_to :
    (subscribe_client_to_topic script_os
      (some (vec_of fresh_client))
      (pos 5)
      a_topic
      sf
      idle_machine).1
    ≡ some (vec_of subscriber)
unfolding subscribe_client_to_topic on_socket add_topic grow_topics append_topic find_topic
    for_first allocate
subscribed_to = refl

closed_run :
    close_active_client (some (vec_of subscriber)) (pos 5) ≡ (ok, some (vec_of gone_client), some 0)
unfolding close_active_client disconnect for_first
closed_run = refl

no_socket_yet : has_socket (pos 5) [] ≡ false
unfolding has_socket
no_socket_yet = refl

reached_subscriber : Reach script_os empty_vec (vec_of subscriber)
reached_subscriber =
    then_step
      (then_step start (Step.registers an_id (pos 5) idle_machine refl no_socket_yet registered))
      (Step.subscribes (pos 5) a_topic sf idle_machine subscribed_to)

subscriber-IsValid : IsValid (vec_of subscriber)
subscriber-IsValid =
    Reach-IsValid script_os script_limit 10 idle_machine
      (record idle_machine { next_address = 4098 }) empty_vec (vec_of subscriber) (omega arith)
      (omega arith) created reached_subscriber

close_active_client-Closes_example :
    Closes (vec_of subscriber) (pos 5) (close_active_client (some (vec_of subscriber)) (pos 5))
close_active_client-Closes_example =
    close_active_client-Closes (vec_of subscriber) (pos 5) subscriber-IsValid

register-close_example :
    (c : Client) × (get_elem? (subscriber ∷ []) 0 ≡ some c)
    × (c.fd ≡ pos 5)
    × (c.status ≡ active)
    × (get_client_id (some (vec_of gone_client)) 0 ≡ c.id)
    × (register_new_client script_os (some (vec_of gone_client)) c.id (pos 7) idle_machine ≡ (
      ok,
      some (record (vec_of subscriber) { entities = set (subscriber ∷ []) 0 (back_on (pos 7) c) }),
      idle_machine,
    ))
register-close_example =
    register-close script_os (vec_of subscriber) (vec_of gone_client) (pos 5) (pos 7) 0 idle_machine
      subscriber-IsValid closed_run

subscribe_client_to_topic-SubscribesOn_example :
    SubscribesOn script_os (vec_of subscriber) (pos 5) a_topic no_sf idle_machine (
      subscribe_client_to_topic script_os
        (some (vec_of subscriber))
        (pos 5)
        a_topic
        no_sf
        idle_machine)
subscribe_client_to_topic-SubscribesOn_example =
    subscribe_client_to_topic-SubscribesOn script_os script_limit (vec_of subscriber) (pos 5)
      a_topic no_sf idle_machine (subscriber-IsValid.wellformed)

unsubscribe_client_from_topic-UnsubscribesOn_example :
    UnsubscribesOn
      (vec_of subscriber)
      (pos 5)
      a_topic
      (unsubscribe_client_from_topic (some (vec_of subscriber)) (pos 5) a_topic)
unsubscribe_client_from_topic-UnsubscribesOn_example =
    unsubscribe_client_from_topic-UnsubscribesOn (vec_of subscriber) (pos 5) a_topic
      (subscriber-IsValid.wellformed)

gone_client-IsWellformed : IsWellformed gone_client
gone_client-IsWellformed =
    let h = subscriber-IsValid.wellformed.0 in
    record {
      paired = h.paired;
      distinct = h.distinct;
      topics_fit = h.topics_fit;
      queue_fits = h.queue_fits;
    }

push_msg-Queues_example :
    Queues gone_client a_pointer
      (push_msg script_os a_pointer gone_client idle_machine).0
      (push_msg script_os a_pointer gone_client idle_machine).1
push_msg-Queues_example =
    push_msg-Queues script_os script_limit gone_client a_pointer idle_machine
      gone_client-IsWellformed
