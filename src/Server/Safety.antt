-- ===== src/Server/Safety.antt =====
-- The handlers of messages keep the table of clients valid.
use tcp_client_server.Prelude.{
  ℕ, zero, suc, ◌+◌, ◌≡◌, refl, inl, inr, Option, none, some, if◌then◌else◌, Bool-cases,
  Option-cases, get_elem?, drop, length, ◌-◌, Text, str_eq, c_string, ◌==◌,
}
use tcp_client_server.Prelude.Int.{ℤ}
use tcp_client_server.Errors.{Err}
use tcp_client_server.Os.{Os}
use tcp_client_server.Os.Laws.{ReallocLimit}
use tcp_client_server.ClientVec.{Client, ClientVec, MsgPtr, SfOption, sf, no_sf, is_active}
use tcp_client_server.ClientVec.Invariant.{IsValid, Behind}
use tcp_client_server.ClientVec.Invariant.Steps.{
  subscribe_client_to_topic-IsValid, unsubscribe_client_from_topic-IsValid,
  add_topic_msg_for_client-IsValid,
}
use tcp_client_server.Tcp.{TcpMsg}
use tcp_client_server.Udp.{Doubles, UdpMsg}
use tcp_client_server.Server.{Server}
use tcp_client_server.Server.Printing.{pack_topic_to_tcp_msg}
use tcp_client_server.Server.Queues.{queue_after-IsValid}
use tcp_client_server.Server.Handlers.{
  is_ok, vec_after, last_byte, subscribe_word, unsubscribe_word, process_server_tcp_msg, option_for,
  transmit_to, transmit_loop, transmit_topic_to_clients, retransmit_topics_to_client, queue_on,
  send_queue,
}

vec_after-IsValid :
    (v : ClientVec) (o : Option ClientVec) → IsValid v → Behind IsValid o → IsValid (vec_after v o)
vec_after-IsValid v none h k = h
vec_after-IsValid v (some v') h k = k

module _ (doubles : Doubles) (os : Os) (limit : ReallocLimit os) where
  open os use {World}

  pub process_server_tcp_msg-IsValid :
      (s : Server doubles) (client_fd : ℤ) (w : World)
      → IsValid s.clients
      → IsValid (process_server_tcp_msg doubles os s client_fd w).1.clients
  unfolding process_server_tcp_msg
  process_server_tcp_msg-IsValid s client_fd w valid =
      elim (Bool-cases (str_eq cmd subscribe_word)) [
        | inl q ↦
            rw (q, process_server_tcp_msg)
              (vec_after-IsValid s.clients _ valid (
                subscribe_client_to_topic-IsValid os limit s.clients client_fd topic option w
                  valid))
        | inr q ↦ elim (Bool-cases (str_eq cmd unsubscribe_word)) [
          | inl r ↦
              rw (q, r, process_server_tcp_msg)
                (vec_after-IsValid s.clients _ valid
                  (unsubscribe_client_from_topic-IsValid s.clients client_fd topic valid))
          | inr r ↦ rw (q, r, process_server_tcp_msg) valid
        ]
      ]
    where
      cmd : Text
      cmd = c_string s.recv_msg.bytes

      topic : Text
      topic = c_string (drop (length cmd + 1) s.recv_msg.bytes)

      option : SfOption
      option = if last_byte s.recv_msg == 0 then no_sf else sf

  -- The table is valid in the state that a handler returns, if it does.
  abbrev pub Kept : Option (Err × Server doubles × World) → Type 0
  Kept none = Unit
  Kept (some (e, s, w)) = IsValid s.clients

  transmit_to-IsValid :
      (m : TcpMsg) (p : MsgPtr) (i : ℕ) (c : Client) (o : SfOption) (v : ClientVec) (w : World)
      → IsValid v
      → IsValid (transmit_to os m p i c o v w).1
  unfolding transmit_to
  transmit_to-IsValid m p i c no_sf v w valid = elim (Bool-cases (is_active c.status)) [
    | inl q ↦ rw (q, transmit_to) valid
    | inr q ↦ rw (q, transmit_to) valid
  ]
  transmit_to-IsValid m p i c sf v w valid = elim (Bool-cases (is_active c.status)) [
    | inl q ↦ rw (q, transmit_to) valid
    | inr q ↦
        rw (q, transmit_to)
          (vec_after-IsValid v _ valid (add_topic_msg_for_client-IsValid os limit v p i w valid))
  ]

  transmit_loop-IsValid :
      (m : TcpMsg) (t : Text) (p : MsgPtr) (left i : ℕ) (v : ClientVec) (w : World)
      → IsValid v
      → IsValid (transmit_loop os m t p left i v w).1
  unfolding transmit_loop
  transmit_loop-IsValid m t p zero i v w valid = valid
  transmit_loop-IsValid m t p (suc left) i v w valid =
      elim (Option-cases (get_elem? v.entities i)) [
        | inl e ↦ rw (e, transmit_loop) valid
        | inr (c, e) ↦ elim (Option-cases (option_for t c)) [
          | inl q ↦ rw (e, q, transmit_loop) (transmit_loop-IsValid m t p left (suc i) v w valid)
          | inr (o, q) ↦
              let r = transmit_to os m p i c o v w in
              let valid' = transmit_to-IsValid m p i c o v w valid in
              elim (Bool-cases (is_ok r.0)) [
                | inl k ↦
                    rw (e, q, k, transmit_loop)
                      (transmit_loop-IsValid m t p left (suc i) r.1 r.2 valid')
                | inr k ↦ rw (e, q, k, transmit_loop) valid'
              ]
        ]
      ]

  after_transmission :
      (s : Server doubles) (w : World) (o : Option (UdpMsg doubles))
      → get_elem? s.udp_msgs (length s.udp_msgs - 1) ≡ o
      → IsValid s.clients
      → Kept (transmit_topic_to_clients doubles os s w)
  unfolding transmit_topic_to_clients
  after_transmission s w none e valid = rw (e, transmit_topic_to_clients) tt
  after_transmission s w (some m) e valid =
      elim (Bool-cases (is_ok (pack_topic_to_tcp_msg doubles s.send_msg m).0)) [
        | inl q ↦
            rw (e, q, transmit_topic_to_clients)
              (transmit_loop-IsValid (pack_topic_to_tcp_msg doubles s.send_msg m).1
                (c_string m.topic) _ (length s.clients.entities) 0 s.clients w valid)
        | inr q ↦ rw (e, q, transmit_topic_to_clients) valid
      ]

  after_retransmission :
      (s : Server doubles) (fd : ℤ) (w : World)
      → IsValid s.clients
      → Kept (retransmit_topics_to_client doubles os s fd w)
  unfolding retransmit_topics_to_client
  after_retransmission s fd w valid = elim (Option-cases (queue_on fd s.clients.entities)) [
    | inl e ↦ rw (e, retransmit_topics_to_client) valid
    | inr (queue, e) ↦
        elim (Option-cases (send_queue doubles os s fd queue (length queue) s.send_msg w)) [
          | inl q ↦ rw (e, q, retransmit_topics_to_client) tt
          | inr ((how, m, w'), q) ↦
              rw (e, q, retransmit_topics_to_client) (queue_after-IsValid fd how s.clients valid)
        ]
  ]

  -- With a realloc that refuses sizes beyond PTRDIFF_MAX: when `transmit_topic_to_clients` and
  -- `retransmit_topics_to_client` return, with an error or without, they leave the table of clients valid
  -- if it was, whatever `send` answers.
  pub transmissions-IsValid :
      (s : Server doubles) (fd : ℤ) (w : World)
      → IsValid s.clients
      → Kept (transmit_topic_to_clients doubles os s w)
        × Kept (retransmit_topics_to_client doubles os s fd w)
  transmissions-IsValid s fd w valid =
      (after_transmission s w _ refl valid, after_retransmission s fd w valid)
