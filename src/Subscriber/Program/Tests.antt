-- ===== src/Subscriber/Program/Tests.antt =====
-- The program of the subscriber on a machine where commands are typed and the server sends.
use tcp_client_server.Prelude.{◌≡◌, refl, [], ◌∷◌, ◌++◌, none, some, arith, Text}
use tcp_client_server.Prelude.Int.{ℤ}
use tcp_client_server.Os.Desk.{Desk, desk_os, empty_desk, among, desk_streams}
use tcp_client_server.ClientVec.Topics.{unsubscribe_client_from_topic}
use tcp_client_server.Tcp.{TcpMsg}
use tcp_client_server.Inet.Desk.{desk_inet, desk_sockets}
use tcp_client_server.Server.{Server}
use tcp_client_server.Server.Handlers.{vec_after, process_server_tcp_msg}
use tcp_client_server.Server.Descriptors.Desk.{no_doubles, desk_net, desk_descriptors, standard}
use tcp_client_server.Server.Program.{exit_code_green}
use tcp_client_server.Subscriber.{send_request}
use tcp_client_server.Subscriber.Lines.{IsWord, subscribe_line, unsubscribe_line}
use tcp_client_server.Subscriber.Setup.{init_client}
use tcp_client_server.Subscriber.Setup.Outcome.{Joined, Starts, init_client-Starts}
use tcp_client_server.Subscriber.Program.{
  main, main_loop, main_turn, exited, after_cmd, unsubscribed_text,
}
use tcp_client_server.Subscriber.Program.Lines.{
  after_reading, main_turn-unsubscribe_client_from_topic,
}
use tcp_client_server.Subscriber.Program.Receiving.{main_loop-server_gone}
use tcp_client_server.Subscriber.Program.Sample.{an_id, a_session, joined_desk}
use tcp_client_server.Subscriber.Program.Whole.{SubscriberSafe, main-SubscriberSafe}

abbrev an_ip : Text
an_ip = 49 ∷ 46 ∷ 49 ∷ 46 ∷ 49 ∷ 46 ∷ 49 ∷ []

abbrev a_port : Text
a_port = 56 ∷ 48 ∷ 56 ∷ 48 ∷ []

abbrev a_word : Text
a_word = 97 ∷ 98 ∷ []

abbrev a_number : Text
a_number = 49 ∷ []

a_word-IsWord : IsWord a_word
a_word-IsWord = ((λ e. absurd (omega arith)), refl, ((λ e. absurd (omega arith)), refl, tt))

-- In the first turn the standard input is ready, with a command; in the second the socket, where the
-- stream has ended.
abbrev typing_desk : Desk
typing_desk = record empty_desk {
  ready = (1 ∷ 0 ∷ []) ∷ (0 ∷ 1 ∷ []) ∷ [];
  typed = (subscribe_line a_word a_number ++ 0 ∷ []) ∷ [];
}

init_client-Starts_example :
    Starts desk_os desk_net desk_descriptors desk_inet desk_sockets an_id 8080 typing_desk
      (init_client desk_os desk_inet none (some an_id) (some an_ip) 8080 typing_desk)
unfolding desk_descriptors among
init_client-Starts_example =
    init_client-Starts desk_os desk_net desk_descriptors desk_inet desk_sockets an_id an_ip 8080
      typing_desk refl

main-SubscriberSafe_example :
    SubscriberSafe desk_os desk_net desk_descriptors desk_inet desk_sockets typing_desk
      (main desk_os desk_net desk_inet 2 (an_id ∷ an_ip ∷ a_port ∷ []) typing_desk)
unfolding desk_descriptors among
main-SubscriberSafe_example =
    main-SubscriberSafe desk_os desk_net desk_descriptors desk_inet desk_sockets 2
      (an_id ∷ an_ip ∷ a_port ∷ []) typing_desk refl

abbrev subscribing_desk : Desk
subscribing_desk =
    joined_desk ((1 ∷ 1 ∷ []) ∷ []) ((subscribe_line a_word a_number ++ 0 ∷ []) ∷ []) []

abbrev unsubscribing_desk : Desk
unsubscribing_desk = joined_desk ((1 ∷ 1 ∷ []) ∷ []) ((unsubscribe_line a_word ++ 0 ∷ []) ∷ []) []

main_turn-unsubscribe_client_from_topic_example :
    let (c', w') =
      after_reading desk_os desk_net desk_inet a_session unsubscribing_desk
        (unsubscribe_line a_word ++ 0 ∷ []) in
    (m : TcpMsg) × (main_turn desk_os desk_net desk_inet a_session unsubscribing_desk
      ≡ after_cmd desk_os desk_net desk_inet c' unsubscribed_text
          (send_request desk_os c'.subscriber m w'))
    × ((s : Server no_doubles) (fd : ℤ) (u : Desk)
        → s.recv_msg ≡ m
        → process_server_tcp_msg no_doubles desk_os s fd u ≡ (
            let (e, v) = unsubscribe_client_from_topic (some s.clients) fd a_word in
            (e, record s { clients = vec_after s.clients v }, u)))
main_turn-unsubscribe_client_from_topic_example =
    main_turn-unsubscribe_client_from_topic no_doubles desk_os desk_os desk_net desk_inet a_session
      unsubscribing_desk a_word []
      (record {
        first_stdin = refl;
        positive = refl;
        event = 1;
        events = 1 ∷ [];
        polled = refl;
        pollin = refl;
        read = refl;
      })
      a_word-IsWord

-- Two bytes of a message have come when the server goes.
abbrev leaving_desk : Desk
leaving_desk = joined_desk ((0 ∷ 17 ∷ []) ∷ []) [] (7 ∷ 0 ∷ [])

leaving-Joined :
    Joined desk_os desk_net desk_descriptors desk_inet desk_sockets standard a_session leaving_desk
unfolding desk_descriptors among
leaving-Joined = record {
  poll_valid = omega arith;
  polled = refl;
  socket_open = refl;
  all_open = λ f. ground arith;
  stdin_not_kept = refl;
  socket_not_kept = refl;
}

main_loop-server_gone_example :
    (w' : Desk) × (main_loop desk_os desk_net desk_inet 5 a_session leaving_desk
      ≡ exited exit_code_green w')
    × ((f : ℤ) → desk_descriptors.is_open f w' ≡ standard f)
unfolding desk_streams
main_loop-server_gone_example =
    main_loop-server_gone desk_os desk_net desk_descriptors desk_inet desk_sockets desk_streams
      standard 4 a_session leaving_desk leaving-Joined
      (record {
        two_polled = refl;
        positive = refl;
        stdin_event = 0;
        socket_event = 17;
        polled = refl;
        stdin_idle = refl;
        socket_ready = refl;
      })
      (omega arith)
