-- ===== src/Server/Descriptors/Tests.antt =====
-- A server with a waiting connection, on a machine that keeps count of the open descriptors.
use tcp_client_server.Prelude.{refl}
use tcp_client_server.Prelude.Int.{pos}
use tcp_client_server.Os.Desk.{desk_os, desk_limit}
use tcp_client_server.Server.Events.{process_ready_fds}
use tcp_client_server.Server.Descriptors.Loop.{Served, process_ready_fds-Served}
use tcp_client_server.Server.Descriptors.Desk.{
  no_doubles, desk_net, desk_descriptors, desk, a_server, polled, standard, desk-Tied,
}

process_ready_fds-Served_example :
    Served desk_os desk_limit desk_net desk_descriptors no_doubles standard
      (pos 3)
      (pos 4)
      (process_ready_fds no_doubles desk_os desk_net (pos 3) (pos 4) a_server polled desk)
process_ready_fds-Served_example =
    process_ready_fds-Served desk_os desk_limit desk_net desk_descriptors no_doubles standard
      (pos 3) (pos 4) (λ n u. refl) a_server polled desk desk-Tied
