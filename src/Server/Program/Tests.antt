-- ===== src/Server/Program/Tests.antt =====
-- The program of the server on a machine where a connection waits and then `exit` is typed.
use tcp_client_server.Prelude.{ℕ, ◌≡◌, refl, ◌∷◌, [], ◌++◌, List, Text}
use tcp_client_server.Prelude.Int.{pos}
use tcp_client_server.Os.Desk.{Desk, desk_os, desk_limit, empty_desk, among}
use tcp_client_server.Inet.Desk.{desk_inet, desk_sockets}
use tcp_client_server.Inet.{starts_with}
use tcp_client_server.Server.Descriptors.Desk.{
  no_doubles, an_address, desk_net, desk_descriptors, desk, a_server, polled, standard, desk-Tied,
}
use tcp_client_server.Server.Program.{main, main_loop, exited, exit_cmd, exit_code_green}
use tcp_client_server.Server.Program.Turns.{OnlyKept, TiedNode}
use tcp_client_server.Server.Program.Exit.{main_loop-exit_cmd}
use tcp_client_server.Server.Program.Whole.{MainSafe, main-MainSafe}
use tcp_client_server.Server.Setup.{Node}
use tcp_client_server.Server.Descriptors.Connections.{steady}

abbrev a_port : Text
a_port = 56 ∷ 48 ∷ 56 ∷ 48 ∷ []

-- In the first turn the listening socket is ready, in the second the standard input.
abbrev busy_desk : Desk
busy_desk = record empty_desk {
  waiting = 1;
  ready = (0 ∷ 0 ∷ 1 ∷ []) ∷ (1 ∷ 0 ∷ 0 ∷ []) ∷ [];
  typed = (exit_cmd ++ 10 ∷ 0 ∷ []) ∷ [];
}

main-MainSafe_example :
    MainSafe desk_os desk_limit desk_net desk_descriptors desk_inet desk_sockets no_doubles
      busy_desk
      (main no_doubles desk_os desk_net desk_inet an_address 2 (a_port ∷ []) busy_desk)
unfolding desk_descriptors among
main-MainSafe_example =
    main-MainSafe desk_os desk_limit desk_net desk_descriptors desk_inet desk_sockets no_doubles
      (λ fd n u. refl) an_address 2 (a_port ∷ []) busy_desk refl

abbrev a_node : Node no_doubles
a_node = record {
  server = a_server;
  poll_vec = polled;
  udp_socket = pos 3;
  tcp_socket = pos 4;
  cmd = [];
}

abbrev exit_line : List ℕ
exit_line = exit_cmd ++ 10 ∷ 0 ∷ []

abbrev exiting : Desk
exiting = record desk { ready = (1 ∷ 1 ∷ 1 ∷ []) ∷ []; typed = exit_line ∷ [] }

exiting-Tied :
    TiedNode desk_os desk_limit desk_net desk_descriptors desk_inet desk_sockets no_doubles standard
      a_node exiting
unfolding desk_descriptors
exiting-Tied =
    steady desk_os desk_net desk_descriptors no_doubles standard (pos 3) (pos 4) a_server polled
      desk desk-Tied a_server exiting desk-Tied.clients_valid refl (λ f. refl)

main_loop-exit_cmd_example :
    (w' : Desk) × (main_loop no_doubles desk_os desk_net desk_inet 4 a_node exiting
      ≡ exited exit_code_green w')
    × OnlyKept desk_os desk_limit desk_net desk_descriptors desk_inet desk_sockets no_doubles
        standard w'
unfolding starts_with
main_loop-exit_cmd_example =
    main_loop-exit_cmd desk_os desk_limit desk_net desk_descriptors desk_inet desk_sockets
      no_doubles standard 3 a_node exiting 1 (1 ∷ 1 ∷ []) exit_line exiting-Tied refl refl refl refl
      refl
