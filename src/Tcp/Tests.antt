-- ===== src/Tcp/Tests.antt =====
-- Runs of the framing functions, and their theorems at concrete inputs.
use tcp_client_server.Prelude.{ℕ, ◌≡◌, refl, List, [], ◌∷◌, ◌++◌, some, arith, replicate, dec_lt}
use tcp_client_server.Prelude.Int.{pos, negsuc}
use tcp_client_server.Prelude.Order.{lt_wf}
use tcp_client_server.Errors.{ok, tcp_failed_send_recv, tcp_input_socket_invalid}
use tcp_client_server.Os.Script.{Machine, script_os, script_streams, idle_machine}
use tcp_client_server.Tcp.{
  TcpMsg, sizeof_tcp_msg, memory_of, send_tcp_msg, send_loop, recv_tcp_msg, recv_loop,
}
use tcp_client_server.Tcp.Send.{Sends, send_tcp_msg-Sends}
use tcp_client_server.Tcp.Recv.{Receives, recv_tcp_msg-Receives, recv_tcp_msg_framed}

abbrev five : List ℕ
five = 1 ∷ 2 ∷ 3 ∷ 4 ∷ 5 ∷ []

-- Three bytes go out, then two.
send_in_pieces :
    send_tcp_msg script_os (pos 4) (some five) 5 idle_machine
    ≡ (ok, record idle_machine { outgoing = five })
unfolding send_tcp_msg send_loop lt_wf dec_lt
send_in_pieces = refl

send_dead :
    send_tcp_msg script_os (negsuc 0) (some five) 5 idle_machine
    ≡ (tcp_input_socket_invalid, idle_machine)
unfolding send_tcp_msg
send_dead = refl

-- The stream ends after two of three bytes.
recv_cut :
    recv_tcp_msg script_os
      (pos 4)
      (some (9 ∷ 9 ∷ 9 ∷ []))
      3
      (record idle_machine { arriving = 1 ∷ 2 ∷ [] })
    ≡ (tcp_failed_send_recv, some (1 ∷ 2 ∷ 9 ∷ []), idle_machine)
unfolding recv_tcp_msg recv_loop lt_wf dec_lt
recv_cut = refl

send_tcp_msg-Sends_example :
    Sends script_os script_streams
      (pos 4)
      five
      idle_machine
      (send_tcp_msg script_os (pos 4) (some five) 5 idle_machine)
send_tcp_msg-Sends_example =
    send_tcp_msg-Sends script_os script_streams (pos 4) five idle_machine refl (omega arith)

recv_tcp_msg-Receives_example :
    Receives script_os script_streams
      (pos 4)
      (9 ∷ 9 ∷ 9 ∷ [])
      3
      (record idle_machine { arriving = 1 ∷ 2 ∷ [] })
      (recv_tcp_msg script_os
        (pos 4)
        (some (9 ∷ 9 ∷ 9 ∷ []))
        3
        (record idle_machine { arriving = 1 ∷ 2 ∷ [] }))
recv_tcp_msg-Receives_example =
    recv_tcp_msg-Receives script_os script_streams (pos 4) (9 ∷ 9 ∷ 9 ∷ []) 3
      (record idle_machine { arriving = 1 ∷ 2 ∷ [] }) refl (omega arith)

-- A message, with the start of the next one behind it, in pieces of 1000 bytes.
abbrev hello : TcpMsg
hello = record { len = 3; bytes = 104 ∷ 105 ∷ replicate 2046 0 }

abbrev busy_machine : Machine
busy_machine = record idle_machine { chunk = 1000; arriving = 3 ∷ 0 ∷ hello.bytes ++ 7 ∷ 8 ∷ [] }

hello_arrives :
    recv_tcp_msg script_os (pos 4) (some (replicate 2050 1)) sizeof_tcp_msg busy_machine
    ≡ (ok, some (memory_of hello), record busy_machine { arriving = 7 ∷ 8 ∷ [] })
unfolding recv_tcp_msg recv_loop lt_wf dec_lt memory_of
hello_arrives = refl

recv_tcp_msg_framed_example :
    (memory_of hello ≡ memory_of hello) × (◌≡◌ {A = List ℕ} (7 ∷ 8 ∷ []) (7 ∷ 8 ∷ []))
unfolding memory_of script_streams
recv_tcp_msg_framed_example =
    recv_tcp_msg_framed script_os script_streams (pos 4) (replicate 2050 1) (memory_of hello) hello
      (7 ∷ 8 ∷ []) busy_machine (record busy_machine { arriving = 7 ∷ 8 ∷ [] }) refl refl refl refl
      hello_arrives
