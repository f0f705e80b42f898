-- ===== src/Server/Events/Tests.antt =====
-- A server whose listening socket is ready, and the theorem about it.
use tcp_client_server.Prelude.{[], ◌∷◌, some}
use tcp_client_server.Prelude.Int.{pos}
use tcp_client_server.Os.Script.{script_os}
use tcp_client_server.PollVec.{PollVec}
use tcp_client_server.Udp.{SockAddr}
use tcp_client_server.Server.{Server}
use tcp_client_server.Server.Events.{Net}
use tcp_client_server.Server.Sample.{no_doubles}

abbrev an_address : SockAddr
an_address = record { sin_family = 2; sin_port = 36895; sin_addr = 16777343 }

abbrev script_net : Net script_os
script_net = record {
  accept = λ fd w. (pos 7, an_address, w);
  recvfrom = λ fd n w. (pos 0, [], an_address, w);
  printf = λ text w. w;
}

abbrev a_server : Server no_doubles
a_server = record {
  clients = record { entities = []; capacity = 10 };
  udp_msgs = [];
  udp_msgs_base = 4096;
  udp_msgs_capacity = 20;
  udp_addr_client = an_address;
  buf = [];
  send_msg = record { len = 0; bytes = [] };
  recv_msg = record { len = 0; bytes = [] };
}

-- The standard input, the socket for datagrams and the listening socket.
abbrev polled : PollVec
polled = record {
  pfds = some (
      record { fd = pos 0; events = 1; revents = 0 }
      ∷ record { fd = pos 3; events = 1; revents = 1 }
      ∷ record { fd = pos 4; events = 1; revents = 1 }
      ∷ []);
  nfds = 3;
  capacity = 3;
}
