-- ===== src/Server/Frame.antt =====
-- What the handlers of messages leave alone: the sockets of the clients, and all that their calls of the
-- system keep.
use tcp_client_server.Prelude.{
  ℕ, zero, suc, ◌+◌, ◌-◌, ◌≡◌, refl, ◌∙◌, inl, inr, List, Option, none, some, ◌==◌, if◌then◌else◌,
  Bool-cases, Option-cases, get_elem?, length, drop, Text, str_eq, c_string, arith,
}
use tcp_client_server.Prelude.Int.{ℤ}
use tcp_client_server.Errors.{Err}
use tcp_client_server.Os.{Os, mul_size, realloc_factor}
use tcp_client_server.Os.Quiet.{Quiet}
use tcp_client_server.ClientVec.{Client, ClientVec, MsgPtr, SfOption, sf, no_sf, is_active}
use tcp_client_server.ClientVec.Invariant.{Behind, sockets}
use tcp_client_server.ClientVec.Quiet.{
  subscribe_client_to_topic-Quiet, add_topic_msg_for_client-Quiet,
}
use tcp_client_server.ClientVec.Connected.{
  SameSockets, subscribe_client_to_topic-SameSockets, unsubscribe_client_from_topic-SameSockets,
  add_topic_msg_for_client-SameSockets,
}
use tcp_client_server.Tcp.{TcpMsg, memory_of, sizeof_tcp_msg, send_tcp_msg}
use tcp_client_server.Tcp.Quiet.{send_tcp_msg-Quiet}
use tcp_client_server.Udp.{Doubles}
use tcp_client_server.Server.{Server}
use tcp_client_server.Server.Printing.{pack_topic_to_tcp_msg}
use tcp_client_server.Server.Queues.{cut_queue-map}
use tcp_client_server.Server.Handlers.{
  is_ok, vec_after, last_byte, subscribe_word, unsubscribe_word, process_server_tcp_msg, option_for,
  transmit_to, transmit_loop, transmit_topic_to_clients, retransmit_topics_to_client, queue_on,
  send_queue, send_or_debug, queued, QueueEnd, queue_after, cut_queue, grow_udp_msgs, store_udp_msg,
  add_server_udp_msg, sizeof_udp_type,
}

vec_after-SameSockets :
    (v : ClientVec) (o : Option ClientVec)
    → Behind (SameSockets v) o
    → SameSockets v (vec_after v o)
vec_after-SameSockets v none h = refl
vec_after-SameSockets v (some v') h = h

queue_after-SameSockets :
    (fd : ℤ) (how : QueueEnd) (cs : List Client) → sockets (queue_after fd how cs).1 ≡ sockets cs
unfolding queue_after
queue_after-SameSockets fd QueueEnd.drained cs = cut_queue-map (λ c. c.fd) (λ n c. refl) fd 0 cs
queue_after-SameSockets fd (QueueEnd.broken n) cs =
    cut_queue-map (λ c. c.fd) (λ n c. refl) fd 0 (cut_queue fd n cs)
    ∙ cut_queue-map (λ c. c.fd) (λ n c. refl) fd n cs
queue_after-SameSockets fd (QueueEnd.unpacked e n) cs =
    cut_queue-map (λ c. c.fd) (λ n c. refl) fd n cs

module _ (doubles : Doubles) (os : Os) (P : os.World → Type 0) (quiet : Quiet os P) where
  open os use {World}

  -- What a handler leaves alone, if it returns.
  pub record Framed (s : Server doubles) (s' : Server doubles) (w' : World) : Type 0 where
    pub quiet_world : P w'
    pub same_sockets : SameSockets s.clients s'.clients

  abbrev pub FramedIf : Server doubles → Option (Err × Server doubles × World) → Type 0
  FramedIf s none = Unit
  FramedIf s (some (e, s', w')) = Framed s s' w'

  send_or_debug-Quiet : (fd : ℤ) (m : TcpMsg) (w : World) → P w → P (send_or_debug os fd m w).1
  unfolding send_or_debug
  send_or_debug-Quiet fd m w h =
      let h₁ = send_tcp_msg-Quiet os P quiet fd (some (memory_of m)) sizeof_tcp_msg w h in
      elim (Bool-cases (is_ok (send_tcp_msg os fd (some (memory_of m)) sizeof_tcp_msg w).0)) [
        | inl q ↦ rw (q, send_or_debug) h₁
        | inr q ↦ rw (q, send_or_debug) (quiet.after_fprintf _ _ h₁)
      ]

  transmit_to_lem :
      (m : TcpMsg) (p : MsgPtr) (i : ℕ) (c : Client) (o : SfOption) (v : ClientVec) (w : World)
      → P w
      → SameSockets v (transmit_to os m p i c o v w).1 × P (transmit_to os m p i c o v w).2
  unfolding transmit_to
  transmit_to_lem m p i c no_sf v w h = elim (Bool-cases (is_active c.status)) [
    | inl q ↦ rw (q, transmit_to) (refl, send_or_debug-Quiet c.fd m w h)
    | inr q ↦ rw (q, transmit_to) (refl, h)
  ]
  transmit_to_lem m p i c sf v w h = elim (Bool-cases (is_active c.status)) [
    | inl q ↦ rw (q, transmit_to) (refl, send_or_debug-Quiet c.fd m w h)
    | inr q ↦
        rw (q, transmit_to)
          (
            vec_after-SameSockets v _ (add_topic_msg_for_client-SameSockets os v p i w),
            add_topic_msg_for_client-Quiet os P quiet v p i w h,
          )
  ]

  transmit_loop_lem :
      (m : TcpMsg) (t : Text) (p : MsgPtr) (left i : ℕ) (v : ClientVec) (w : World)
      → P w
      → SameSockets v (transmit_loop os m t p left i v w).1
        × P (transmit_loop os m t p left i v w).2
  unfolding transmit_loop
  transmit_loop_lem m t p zero i v w h = (refl, h)
  transmit_loop_lem m t p (suc left) i v w h = elim (Option-cases (get_elem? v.entities i)) [
    | inl e ↦ rw (e, transmit_loop) (refl, h)
    | inr (c, e) ↦ elim (Option-cases (option_for t c)) [
      | inl q ↦ rw (e, q, transmit_loop) (transmit_loop_lem m t p left (suc i) v w h)
      | inr (o, q) ↦
          let r = transmit_to os m p i c o v w in
          let (same, h₁) = transmit_to_lem m p i c o v w h in
          elim (Bool-cases (is_ok r.0)) [
            | inl k ↦
                let (same', h₂) = transmit_loop_lem m t p left (suc i) r.1 r.2 h₁ in
                rw (e, q, k, transmit_loop) (same' ∙ same, h₂)
            | inr k ↦ rw (e, q, k, transmit_loop) (same, h₁)
          ]
    ]
  ]

  pub transmit_topic_to_clients-FramedIf :
      (s : Server doubles) (w : World) → P w → FramedIf s (transmit_topic_to_clients doubles os s w)
  unfolding transmit_topic_to_clients
  transmit_topic_to_clients-FramedIf s w h =
      elim (Option-cases (get_elem? s.udp_msgs (length s.udp_msgs - 1))) [
        | inl e ↦ rw (e, transmit_topic_to_clients) tt
        | inr (m, e) ↦
            let r =
              transmit_loop_lem (pack_topic_to_tcp_msg doubles s.send_msg m).1 (c_string m.topic)
                (record { base = s.udp_msgs_base; index = length s.udp_msgs - 1 })
                (length s.clients.entities) 0 s.clients w h in
            elim (Bool-cases (is_ok (pack_topic_to_tcp_msg doubles s.send_msg m).0)) [
              | inl q ↦
                  rw (e, q, transmit_topic_to_clients)
                    (record { quiet_world = r.1; same_sockets = r.0 })
              | inr q ↦
                  rw (e, q, transmit_topic_to_clients)
                    (record { quiet_world = h; same_sockets = refl })
            ]
      ]

  -- The state of the system after a loop that returns.
  abbrev AfterLoop : Option (QueueEnd × TcpMsg × World) → Type 0
  AfterLoop none = Unit
  AfterLoop (some (how, m, w)) = P w

  send_queue-Quiet :
      (s : Server doubles) (fd : ℤ) (queue : List MsgPtr) (left : ℕ) (m : TcpMsg) (w : World)
      → P w
      → AfterLoop (send_queue doubles os s fd queue left m w)
  unfolding send_queue
  send_queue-Quiet s fd queue zero m w h = h
  send_queue-Quiet s fd queue (suc left) m w h = elim (Option-cases (queued doubles s queue left)) [
    | inl e ↦ rw (e, send_queue) tt
    | inr (u, e) ↦
        let msg = (pack_topic_to_tcp_msg doubles m u).1 in
        let h₁ = send_or_debug-Quiet fd msg w h in
        elim (Bool-cases (is_ok (pack_topic_to_tcp_msg doubles m u).0)) [
          | inr q ↦ rw (e, q, send_queue) h
          | inl q ↦ elim (Bool-cases (is_ok (send_or_debug os fd msg w).0)) [
            | inl k ↦
                rw (e, q, k, send_queue)
                  (send_queue-Quiet s fd queue left msg (send_or_debug os fd msg w).1 h₁)
            | inr k ↦ rw (e, q, k, send_queue) h₁
          ]
        ]
  ]

  pub retransmit_topics_to_client-FramedIf :
      (s : Server doubles) (fd : ℤ) (w : World)
      → P w
      → FramedIf s (retransmit_topics_to_client doubles os s fd w)
  unfolding retransmit_topics_to_client
  retransmit_topics_to_client-FramedIf s fd w h =
      elim (Option-cases (queue_on fd s.clients.entities)) [
        | inl e ↦
            rw (e, retransmit_topics_to_client) (record { quiet_world = h; same_sockets = refl })
        | inr (queue, e) ↦
            let r = send_queue-Quiet s fd queue (length queue) s.send_msg w h in
            elim (Option-cases (send_queue doubles os s fd queue (length queue) s.send_msg w)) [
              | inl q ↦ rw (e, q, retransmit_topics_to_client) tt
              | inr ((how, m, w'), q) ↦
                  rw (e, q, retransmit_topics_to_client)
                    (record {
                      quiet_world = rw q at r;
                      same_sockets = queue_after-SameSockets fd how s.clients.entities;
                    })
            ]
      ]

  pub process_server_tcp_msg-Framed :
      (s : Server doubles) (fd : ℤ) (w : World)
      → P w
      → Framed s
          (process_server_tcp_msg doubles os s fd w).1
          (process_server_tcp_msg doubles os s fd w).2
  unfolding process_server_tcp_msg
  process_server_tcp_msg-Framed s fd w h = elim (Bool-cases (str_eq cmd subscribe_word)) [
    | inl q ↦
        rw (q, process_server_tcp_msg)
          (record {
            quiet_world = subscribe_client_to_topic-Quiet os P quiet s.clients fd topic option w h;
            same_sockets =
                vec_after-SameSockets s.clients _
                  (subscribe_client_to_topic-SameSockets os s.clients fd topic option w);
          })
    | inr q ↦ elim (Bool-cases (str_eq cmd unsubscribe_word)) [
      | inl r ↦
          rw (q, r, process_server_tcp_msg)
            (record {
              quiet_world = h;
              same_sockets =
                  vec_after-SameSockets s.clients _
                    (unsubscribe_client_from_topic-SameSockets s.clients fd topic);
            })
      | inr r ↦ rw (q, r, process_server_tcp_msg) (record { quiet_world = h; same_sockets = refl })
    ]
  ]
    where
      cmd : Text
      cmd = c_string s.recv_msg.bytes

      topic : Text
      topic = c_string (drop (length cmd + 1) s.recv_msg.bytes)

      option : SfOption
      option = if last_byte s.recv_msg == 0 then no_sf else sf

  stored : (s : Server doubles) → (store_udp_msg doubles s).1.clients ≡ s.clients
  unfolding store_udp_msg
  stored s = ground arith

  grown :
      (s : Server doubles) (w : World) (s' : Server doubles)
      → (grow_udp_msgs doubles os s w).0 ≡ some s'
      → s'.clients ≡ s.clients
  unfolding grow_udp_msgs
  grown s w s' e = ground arith

  grow_udp_msgs-Quiet : (s : Server doubles) (w : World) → P w → P (grow_udp_msgs doubles os s w).1
  unfolding grow_udp_msgs
  grow_udp_msgs-Quiet s w h =
      let h₁ = quiet.after_realloc size w h in
      elim (Bool-cases (length s.udp_msgs == s.udp_msgs_capacity)) [
        | inr q ↦ rw (q, grow_udp_msgs) h
        | inl q ↦ elim (Option-cases (os.realloc size w).0) [
          | inl e ↦ rw (q, e, grow_udp_msgs) h₁
          | inr (base, e) ↦ rw (q, e, grow_udp_msgs) h₁
        ]
      ]
    where
      size : ℕ
      size = mul_size (mul_size sizeof_udp_type s.udp_msgs_capacity) realloc_factor

  -- Storing a datagram leaves the whole table alone.
  pub add_server_udp_msg-Quiet :
      (s : Server doubles) (w : World)
      → P w
      → ((add_server_udp_msg doubles os s w).1.clients ≡ s.clients)
        × P (add_server_udp_msg doubles os s w).2
  unfolding add_server_udp_msg
  add_server_udp_msg-Quiet s w h =
      let h₁ = grow_udp_msgs-Quiet s w h in
      elim (Option-cases (grow_udp_msgs doubles os s w).0) [
        | inl e ↦ rw (e, add_server_udp_msg) (refl, h₁)
        | inr (s', e) ↦ rw (e, add_server_udp_msg) (stored s' ∙ grown s w s' e, h₁)
      ]
