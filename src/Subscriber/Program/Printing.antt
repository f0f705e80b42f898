-- ===== src/Subscriber/Program/Printing.antt =====
-- What the subscriber prints of a message that the server has packed.
mod Tests
use tcp_client_server.Prelude.{
  ℕ, ◌≤◌, ◌<◌, ◌≡◌, refl, sym, ap, ◌∙◌, inl, inr, true, false, List, [], ◌∷◌, ◌++◌, Option, some,
  arith, drop, length, Text, IsText, c_string,
}
use tcp_client_server.Prelude.Int.{is_neg}
use tcp_client_server.Errors.{Err, ok}
use tcp_client_server.Os.{Os}
use tcp_client_server.Os.Laws.{Streams}
use tcp_client_server.PollVec.{contents}
use tcp_client_server.Tcp.{TcpMsg, memory_of, sizeof_tcp_msg, max_tcp_msg_buf_len, recv_tcp_msg}
use tcp_client_server.Tcp.Recv.{recv_tcp_msg_framed, recv_tcp_msg-Receives}
use tcp_client_server.Udp.{Doubles, UdpMsg}
use tcp_client_server.Inet.{Inet, poll_fds, is_pollin}
use tcp_client_server.Server.Events.{Net, message_in}
use tcp_client_server.Server.Handlers.{is_ok}
use tcp_client_server.Server.Printing.{head_text, data_text, pack_topic_to_tcp_msg}
use tcp_client_server.Server.Packing.{pack_topic_to_tcp_msg-c_string, length-packed}
use tcp_client_server.Subscriber.Setup.{Session}
use tcp_client_server.Subscriber.Program.{
  wait_for_ready_fds, process_ready_fds, again, after_ready, main_turn,
}
use tcp_client_server.Subscriber.Program.Receiving.{Arrives, reported, handles}

module _ (os : Os) (net : Net os) (streams : Streams os) where
  open os use {World}
  open streams use {incoming}

  -- A whole message that is received is printed as a line.
  prints :
      (c : Session) (w : World) (m : TcpMsg) (behind : List ℕ)
      → is_pollin c.poll_vec 1 ≡ true
      → is_neg c.subscriber.tcp_socket ≡ false
      → length c.recv_msg.bytes ≡ max_tcp_msg_buf_len
      → length m.bytes ≡ max_tcp_msg_buf_len
      → incoming c.subscriber.tcp_socket w ≡ memory_of m ++ behind
      → is_ok
          (recv_tcp_msg os c.subscriber.tcp_socket (some (memory_of c.recv_msg)) sizeof_tcp_msg w).0
        ≡ true
      → (c' : Session) × (w' : World) × (process_ready_fds os net c w
          ≡ (ok, c', net.printf (c_string m.bytes ++ 10 ∷ []) w'))
        × (incoming c.subscriber.tcp_socket w' ≡ behind)
  unfolding process_ready_fds
  prints c w m behind ready open_fd size full starts received = (
    record c { recv_msg = message_in result.1 c.recv_msg },
    result.2,
    rw (ready, received, process_ready_fds)
        (ap
          (λ t. (
            ok,
            record c { recv_msg = message_in result.1 c.recv_msg },
            net.printf (c_string t ++ 10 ∷ []) result.2,
          ))
          (ap (λ b. (message_in b c.recv_msg).bytes) whole.0 ∙ bytes_lem)),
    whole.1,
  )
    where
      result : Err × Option (List ℕ) × World
      result =
          recv_tcp_msg os c.subscriber.tcp_socket (some (memory_of c.recv_msg)) sizeof_tcp_msg w

      memory_size : length (memory_of c.recv_msg) ≡ sizeof_tcp_msg
      memory_size = unfold memory_of in omega arith

      bytes_lem : (message_in (some (memory_of m)) c.recv_msg).bytes ≡ m.bytes
      bytes_lem = unfold message_in memory_of in refl

      whole : (result.1 ≡ some (memory_of m)) × (incoming c.subscriber.tcp_socket result.2 ≡ behind)
      whole =
          let (bytes, done, stored, came) =
            recv_tcp_msg-Receives os streams c.subscriber.tcp_socket (memory_of c.recv_msg)
              sizeof_tcp_msg w open_fd (omega arith) in
          elim done [
            | inr (failed, _) ↦ absurd (cc (sym received ∙ ap is_ok failed))
            | inl (fine, _) ↦
                let buf = bytes ++ drop (length bytes) (memory_of c.recv_msg) in
                let (held, after) =
                  recv_tcp_msg_framed os streams c.subscriber.tcp_socket (memory_of c.recv_msg) buf
                    m behind w result.2 open_fd memory_size full starts
                    (ap (λ e. (e, result.1, result.2)) fine ∙ ap (λ b. (ok, b, result.2)) stored) in
                (stored ∙ ap (λ b. some b) held, after)
          ]

  -- The same behind `poll`.
  waited_prints :
      (inet : Inet os) (c : Session) (w : World) (m : TcpMsg) (behind : List ℕ)
      → Arrives os net inet c w
      → is_neg c.subscriber.tcp_socket ≡ false
      → length c.recv_msg.bytes ≡ max_tcp_msg_buf_len
      → length m.bytes ≡ max_tcp_msg_buf_len
      → incoming c.subscriber.tcp_socket (inet.poll (contents c.poll_vec) w).2
        ≡ memory_of m ++ behind
      → is_ok
          (recv_tcp_msg os c.subscriber.tcp_socket
            (some (memory_of c.recv_msg))
            sizeof_tcp_msg
            (inet.poll (contents c.poll_vec) w).2).0
        ≡ true
      → (c' : Session) × (w' : World) × (process_ready_fds os net
            (wait_for_ready_fds os inet c w).1
            (wait_for_ready_fds os inet c w).2
          ≡ (ok, c', net.printf (c_string m.bytes ++ 10 ∷ []) w'))
        × (incoming c.subscriber.tcp_socket w' ≡ behind)
  unfolding wait_for_ready_fds poll_fds
  waited_prints inet c w m behind arrives open_fd size full starts received =
      prints (wait_for_ready_fds os inet c w).1 (wait_for_ready_fds os inet c w).2 m behind
        (reported os net inet c w arrives).1 open_fd size full starts received

  goes_on :
      (inet : Inet os) (c : Session) (w : World) → after_ready os net inet (ok, c, w) ≡ again c w
  unfolding after_ready
  goes_on inet c w = refl

  -- For a subscriber whose socket is polled behind the standard input and alone is ready, and whose buffer has its
  -- size, on a socket that works as a stream: when the server has packed a message with
  -- `pack_topic_to_tcp_msg` into a buffer of its size, the data of the message print as a text without a NUL
  -- and of fewer than 1900 bytes, its topic field has at most 51 bytes, and the packed message is the next in
  -- the stream and comes whole, then the turn prints the address of the sender, the topic and the text of the
  -- data, and a line feed, the stream goes on behind the message, and the main loop goes on.
  pub main_turn-pack_topic_to_tcp_msg :
      (doubles : Doubles) (inet : Inet os) (c : Session) (w : World) (b : TcpMsg)
      (m : UdpMsg doubles)
      → (text : Text) (behind : List ℕ) → Arrives os net inet c w
      → is_neg c.subscriber.tcp_socket ≡ false
      → length c.recv_msg.bytes ≡ max_tcp_msg_buf_len
      → length b.bytes ≡ max_tcp_msg_buf_len
      → data_text doubles m.udp_type m.udp_data ≡ some text
      → length m.topic ≤ 51
      → IsText text
      → length text < 1900
      → incoming c.subscriber.tcp_socket (inet.poll (contents c.poll_vec) w).2
        ≡ memory_of (pack_topic_to_tcp_msg doubles b m).1 ++ behind
      → is_ok
          (recv_tcp_msg os c.subscriber.tcp_socket
            (some (memory_of c.recv_msg))
            sizeof_tcp_msg
            (inet.poll (contents c.poll_vec) w).2).0
        ≡ true
      → (c' : Session) × (w' : World) × (main_turn os net inet c w
          ≡ again c' (net.printf ((head_text m.addr (c_string m.topic) ++ text) ++ 10 ∷ []) w'))
        × (incoming c.subscriber.tcp_socket w' ≡ behind)
  main_turn-pack_topic_to_tcp_msg doubles inet c w b m text behind arrives open_fd size full e l p k
        starts received =
      let (b', packs, reads, _) = pack_topic_to_tcp_msg-c_string doubles b m text e l p k in
      let (c', w', printed, rest) =
        waited_prints inet c w (pack_topic_to_tcp_msg doubles b m).1 behind arrives open_fd size
          (length-packed doubles b m text e l full) starts received in
      (
        c',
        w',
        handles os net inet c w arrives
            ∙ ap (after_ready os net inet) printed
            ∙ goes_on inet c' _
            ∙ ap (λ t. again c' (net.printf (t ++ 10 ∷ []) w'))
                (ap (λ r. c_string r.1.bytes) packs ∙ reads),
        rest,
      )
