-- ===== src/Subscriber/Program/Printing/Tests.antt =====
-- A message on its way from the server to the terminal of a subscriber.
use tcp_client_server.Prelude.{
  ℕ, ◌≡◌, refl, true, List, [], ◌∷◌, ◌++◌, some, arith, c_string, length-replicate, dec_lt,
}
use tcp_client_server.Prelude.Int.{pos}
use tcp_client_server.Os.Script.{idle_machine}
use tcp_client_server.Os.Desk.{Desk, desk_os, desk_streams}
use tcp_client_server.Tcp.{recv_tcp_msg, recv_loop, memory_of, sizeof_tcp_msg}
use tcp_client_server.Inet.Desk.{desk_inet}
use tcp_client_server.Server.Handlers.{is_ok}
use tcp_client_server.Server.Descriptors.Desk.{no_doubles, desk_net, an_address}
use tcp_client_server.Subscriber.Setup.{Session}
use tcp_client_server.Subscriber.Program.{main_turn, again}
use tcp_client_server.Prelude.Order.{lt_wf}
use tcp_client_server.Server.Printing.{
  pack_topic_to_tcp_msg, data_text, head_text, snprintf_at, overwrite, inet_ntoa, signed_decimal,
  decimal, digits,
}
use tcp_client_server.Subscriber.Program.Printing.{main_turn-pack_topic_to_tcp_msg}
use tcp_client_server.Server.Sample.{a_message, twelve, twelve_text, twelve-IsText, full_buffer}
use tcp_client_server.Subscriber.Program.Sample.{a_session, joined_desk}

-- A message that the server has packed, in one piece.
abbrev packed : List ℕ
packed = memory_of (pack_topic_to_tcp_msg no_doubles full_buffer a_message).1

abbrev printing_desk : Desk
printing_desk = record (joined_desk ((0 ∷ 1 ∷ []) ∷ []) [] []) {
  machine = record idle_machine { chunk = 4096; arriving = packed ++ [] };
}

abbrev printing_session : Session
printing_session = record a_session { recv_msg = full_buffer }

came_whole :
    is_ok
      (recv_tcp_msg desk_os
        (pos 3)
        (some (memory_of full_buffer))
        sizeof_tcp_msg
        (record printing_desk { ready = [] })).0
    ≡ true
unfolding recv_tcp_msg recv_loop lt_wf dec_lt memory_of pack_topic_to_tcp_msg data_text head_text
    snprintf_at overwrite inet_ntoa signed_decimal decimal digits c_string
came_whole = refl

main_turn-pack_topic_to_tcp_msg_example :
    (c' : Session) × (w' : Desk) × (main_turn desk_os desk_net desk_inet printing_session
        printing_desk
      ≡ again c' (
          desk_net.printf
            ((head_text an_address (c_string (97 ∷ 98 ∷ 0 ∷ [])) ++ twelve) ++ 10 ∷ [])
            w'))
    × (desk_streams.incoming (pos 3) w' ≡ [])
unfolding desk_streams
main_turn-pack_topic_to_tcp_msg_example =
    main_turn-pack_topic_to_tcp_msg desk_os desk_net desk_streams no_doubles desk_inet
      printing_session printing_desk full_buffer a_message twelve []
      (record {
        two_polled = refl;
        positive = refl;
        stdin_event = 0;
        socket_event = 1;
        polled = refl;
        stdin_idle = refl;
        socket_ready = refl;
      })
      refl (length-replicate {A = ℕ} 2048 0) (length-replicate {A = ℕ} 2048 0) twelve_text
      (omega arith) twelve-IsText (omega arith) refl came_whole
