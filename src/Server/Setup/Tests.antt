-- ===== src/Server/Setup/Tests.antt =====
-- A server that starts on a machine where all calls succeed.
use tcp_client_server.Os.Desk.{desk_os, empty_desk, among}
use tcp_client_server.Inet.Desk.{desk_inet, desk_sockets}
use tcp_client_server.Prelude.{none, refl}
use tcp_client_server.Server.Descriptors.Desk.{no_doubles, an_address, desk_net, desk_descriptors}
use tcp_client_server.Server.Setup.{init_server}
use tcp_client_server.Server.Setup.Outcome.{Starts, init_server-Starts}

init_server-Starts_example :
    Starts desk_os desk_net desk_descriptors desk_inet desk_sockets no_doubles 8080 empty_desk
      (init_server no_doubles desk_os desk_inet an_address none 8080 empty_desk)
unfolding desk_descriptors among
init_server-Starts_example =
    init_server-Starts desk_os desk_net desk_descriptors desk_inet desk_sockets no_doubles
      an_address 8080 empty_desk refl
