-- ===== src/Subscriber/Program/Sample.antt =====
-- A subscriber in its main loop, on the machine `Os.Desk`.
use tcp_client_server.Prelude.{ℕ, List, [], ◌∷◌, some, Text}
use tcp_client_server.Prelude.Int.{pos}
use tcp_client_server.Os.Script.{idle_machine}
use tcp_client_server.Os.Desk.{Desk}
use tcp_client_server.PollVec.{PollVec}
use tcp_client_server.Subscriber.Setup.{Session}

abbrev pub an_id : Text
an_id = 67 ∷ 49 ∷ []

abbrev pub polled : PollVec
polled = record {
  pfds = some (
      record { fd = pos 0; events = 1; revents = 0 }
      ∷ record { fd = pos 3; events = 5; revents = 0 }
      ∷ []);
  nfds = 2;
  capacity = 10;
}

abbrev pub a_session : Session
a_session = record {
  subscriber = record {
    tcp_socket = pos 3;
    cmd = 7 ∷ 7 ∷ [];
    send_msg = record { len = 0; bytes = [] };
  };
  id = an_id;
  poll_vec = polled;
  recv_msg = record { len = 0; bytes = [] };
}

abbrev pub joined_desk : List (List ℕ) → List (List ℕ) → List ℕ → Desk
joined_desk ready typed arriving = record {
  machine = record idle_machine { arriving = arriving };
  opened = pos 0 ∷ pos 1 ∷ pos 2 ∷ pos 3 ∷ [];
  waiting = 0;
  typed = typed;
  ready = ready;
}
