-- ===== src/Server/Sending.antt =====
-- server_utils.c, `transmit_topic_to_clients`: what goes on the streams of the sockets.
mod Tests
use tcp_client_server.Prelude.{
  ℕ, suc, ◌-◌, ◌<◌, ◌≤◌, ◌≡◌, ◌⊎◌, refl, sym, ap, ◌∙◌, inl, inr, Bool, true, false, ◌||◌, ◌&&◌,
  List, [], ◌∷◌, ◌++◌, none, some, Option, arith, Option-cases, Bool-cases, length, length-append,
  get_elem?, All, append_assoc, Text, c_string, not,
}
use tcp_client_server.Prelude.Int.{ℤ, is_neg, eq_ℤ, eq_ℤ_iff}
use tcp_client_server.Errors.{Err, ok, clients_vec_failed_realloc}
use Prim.Native.String.{String}
use tcp_client_server.Os.{Os}
use tcp_client_server.Os.Laws.{Streams, Separate}
use tcp_client_server.ClientVec.{
  Client, ClientVec, MsgPtr, SfOption, sf, no_sf, active, dead, is_active,
}
use tcp_client_server.ClientVec.Invariant.{sockets, IsValid, IsLinkedClient}
use tcp_client_server.ClientVec.Invariant.Sockets.{DistinctSockets, has_socket}
use tcp_client_server.ClientVec.Subscriptions.{subscription}
use tcp_client_server.ClientVec.Wellformed.{IsWellformed}
use tcp_client_server.ClientVec.Quiet.{add_topic_msg_for_client_keeps}
use tcp_client_server.ClientVec.Lookup.{Status-cases}
use tcp_client_server.Tcp.{TcpMsg, memory_of, sizeof_tcp_msg, max_tcp_msg_buf_len, send_tcp_msg}
use tcp_client_server.Tcp.Send.{Sends, send_tcp_msg-Sends}
use tcp_client_server.Tcp.Quiet.{send_tcp_msg_keeps}
use tcp_client_server.Udp.{Doubles, UdpMsg}
use tcp_client_server.Server.{Server}
use tcp_client_server.Server.Printing.{pack_topic_to_tcp_msg, data_text}
use tcp_client_server.Server.Packing.{pack_topic_to_tcp_msg-ok, length-packed}
use tcp_client_server.Server.Delivery.{option_for-subscription, get_elem?-middle}
use tcp_client_server.Server.Handlers.{
  is_ok, vec_after, send_or_debug, option_for, transmit_to, transmit_loop,
  transmit_topic_to_clients,
}
use tcp_client_server.Server.Transmission.{
  Ends, One, round-Ends, transmit_to_active, transmit_to_dead, transmit_to_stored, pass, act,
  one_behind, one_longer,
}
use tcp_client_server.Server.Hearing.{
  Hears, silent, listens, subscribed, listens-has_socket, send_or_debug-Hears, both,
}

module _ (os : Os) (streams : Streams os) (separate : Separate os streams) (m : TcpMsg)
    (g : ℤ) where
  open os use {World}
  open streams use {sent}

  abbrev Hearing : World → World → Bool → Type 0
  Hearing = Hears os streams separate m g

  -- A round for a client who has the topic.
  round-Hears :
      (v : ClientVec) (w : World) (p : MsgPtr) (n : ℕ) (c : Client) (o : SfOption) (t : Text)
      → IsLinkedClient c
      → length m.bytes ≡ max_tcp_msg_buf_len
      → Hearing w (transmit_to os m p n c o v w).2 (is_active c.status && eq_ℤ c.fd g)
  round-Hears v w p n c o t linked l = elim (Status-cases c.status) [
    | inl a ↦
        rw (transmit_to_active os m t p v w n c o a)
          (rw a (send_or_debug-Hears os streams separate m g c.fd w (open_socket a linked) l))
    | inr d ↦ rw (ap (λ k. is_active k && eq_ℤ c.fd g) d) (to_dead o d)
  ]
    where
      open_socket : c.status ≡ active → IsLinkedClient c → is_neg c.fd ≡ false
      open_socket a linked = rw a at linked

      to_dead : (o : SfOption) → c.status ≡ dead → Hearing w (transmit_to os m p n c o v w).2 false
      to_dead no_sf d = rw (transmit_to_dead os m t p v w n c d) (silent refl)
      to_dead sf d = rw (transmit_to_stored os m t p v w n c d) (
          silent (
            add_topic_msg_for_client_keeps os (λ u. sent g u ≡ sent g w)
              (λ size u h. separate.sent-realloc g size u ∙ h) v p n w refl))

  -- How a round or the loop ends: with what the socket hears, or without memory.
  abbrev pub HearsIf : World → Bool → Err × ClientVec × World → Type 0
  HearsIf w b (e, v, w') = ((e ≡ ok) × Hearing w w' b) ⊎ (e ≡ clients_vec_failed_realloc)

  module _ (t : Text) (p : MsgPtr) (open_fd : is_neg g ≡ false)
      (full : length m.bytes ≡ max_tcp_msg_buf_len) where
    -- The socket of a client is in no later entry.
    once :
        (c : Client) (rest : List Client)
        → DistinctSockets (sockets (c ∷ rest))
        → ((is_active c.status && eq_ℤ c.fd g) && listens g t rest) ≡ false
    once c rest distinct = elim (Bool-cases (eq_ℤ c.fd g)) [
      | inr q ↦ ground (arith, q)
      | inl q ↦
          let same : c.fd ≡ g = (eq_ℤ_iff c.fd g).0 q in
          let d = distinct.0 in
          ground (arith, q, listens-has_socket g t rest, rw same at d, open_fd)
    ]

    listens_not :
        (c : Client) (rest : List Client)
        → subscription c t ≡ none
        → listens g t (c ∷ rest) ≡ listens g t rest
    unfolding listens
    listens_not c rest q = rw q (ground arith)

    listens_also :
        (c : Client) (rest : List Client) (o : SfOption)
        → subscription c t ≡ some o
        → listens g t (c ∷ rest) ≡ ((is_active c.status && eq_ℤ c.fd g) || listens g t rest)
    unfolding listens
    listens_also c rest o q = rw q (ground arith)

    join :
        (w w₁ : World) (a b : Bool) (r : Err × ClientVec × World)
        → Hearing w w₁ a
        → HearsIf w₁ b r
        → (a && b) ≡ false
        → HearsIf w (a || b) r
    join w w₁ a b (e, v, w') x (inr q) apart = inr q
    join w w₁ a b (e, v, w') x (inl (q, y)) apart =
        inl (q, both os streams separate m g w w₁ w' a b x y apart)

    loop-Hears :
        (v : ClientVec) (w : World) (xs rest : List Client) (n : ℕ)
        → v.entities ≡ xs ++ rest
        → length xs ≡ n
        → All IsWellformed rest
        → All IsLinkedClient rest
        → DistinctSockets (sockets rest)
        → HearsIf w (listens g t rest) (transmit_loop os m t p (length rest) n v w)
    unfolding transmit_loop
    loop-Hears v w xs [] n e l h k d = inl (refl, unfold listens in silent refl)
    loop-Hears v w xs (c ∷ rest) n e l h k d = elim (Option-cases (subscription c t)) [
      | inl q ↦
          rw (listens_not c rest q, pass os m t p v w xs rest c n e l h.0 q)
            (loop-Hears v w (xs ++ c ∷ []) rest (suc n) (one_behind os m t p xs rest c e)
              (one_longer os m t p xs n c l) h.1 k.1 d.1)
      | inr (o, q) ↦
          rw (listens_also c rest o q, act os m t p v w xs rest c n e l h.0 o q)
            (after_round (transmit_to os m p n c o v w)
              (round-Ends os m t p v w xs rest c n o e l q) (round-Hears v w p n c o t k.0 full)
              (λ v' w' c' f.
                loop-Hears v' w' (xs ++ c' ∷ []) rest (suc n) (one_behind os m t p xs rest c' f)
                  (one_longer os m t p xs n c' l) h.1 k.1 d.1))
    ]
      where
        after_round :
            (r : Err × ClientVec × World)
            → Ends os (One os m t p xs c rest) r
            → Hearing w r.2 (is_active c.status && eq_ℤ c.fd g)
            → ((v' : ClientVec) (w' : World) (c' : Client)
                → v'.entities ≡ xs ++ c' ∷ rest
                → HearsIf w'
                    (listens g t rest)
                    (transmit_loop os m t p (length rest) (suc n) v' w'))
            → HearsIf w
                ((is_active c.status && eq_ℤ c.fd g) || listens g t rest)
                (elim (is_ok r.0) [
                  | true ↦ transmit_loop os m t p (length rest) (suc n) r.1 r.2
                  | false ↦ r
                ])
        after_round (e', v', w') (inr q) x again = rw q (inr q)
        after_round (e', v', w') (inl (q, ys, f, (c', f', _))) x again = rw q (
            join w w' _ (listens g t rest) (transmit_loop os m t p (length rest) (suc n) v' w') x
              (again v' w' c' (f ∙ f')) (once c rest d))

module _ (doubles : Doubles) (os : Os) (streams : Streams os) (separate : Separate os streams) where
  open os use {World}

  -- On sockets that are streams of their own: when the table of clients is valid, the last message of the
  -- server has data that can be printed and a topic field of at most 51 bytes, and the buffer has its size, then
  -- `transmit_topic_to_clients` returns OK, or memory for a queue ran out. If it returns OK, the socket of an
  -- active client with the topic has got the packed message once, whole or, where sending failed, a proper
  -- prefix of it, and any other socket has got nothing.
  pub transmit_topic_to_clients-Hears :
      (s : Server doubles) (w : World) (m : UdpMsg doubles) (text : Text) (g : ℤ)
      → get_elem? s.udp_msgs (length s.udp_msgs - 1) ≡ some m
      → data_text doubles m.udp_type m.udp_data ≡ some text
      → length m.topic ≤ 51
      → length s.send_msg.bytes ≡ max_tcp_msg_buf_len
      → IsValid s.clients
      → is_neg g ≡ false
      → (e : Err) × (s' : Server doubles) × (w' : World) × (transmit_topic_to_clients doubles os s w
          ≡ some (e, s', w'))
        × HearsIf os streams separate
            (pack_topic_to_tcp_msg doubles s.send_msg m).1
            g
            w
            (listens g (c_string m.topic) s.clients.entities)
            (e, s'.clients, w')
  unfolding transmit_topic_to_clients
  transmit_topic_to_clients-Hears s w m text g found e l full valid open_fd = (
    r.0,
    record s { clients = r.1; send_msg = msg },
    r.2,
    rw (found, pack_topic_to_tcp_msg-ok doubles s.send_msg m text e, transmit_topic_to_clients)
        refl,
    loop-Hears os streams separate msg g (c_string m.topic) ptr open_fd
        (length-packed doubles s.send_msg m text e l full) s.clients w [] s.clients.entities 0 refl
        refl valid.wellformed valid.linked valid.sockets_distinct,
  )
    where
      msg : TcpMsg
      msg = (pack_topic_to_tcp_msg doubles s.send_msg m).1

      ptr : MsgPtr
      ptr = record { base = s.udp_msgs_base; index = length s.udp_msgs - 1 }

      r : Err × ClientVec × World
      r = transmit_loop os msg (c_string m.topic) ptr (length s.clients.entities) 0 s.clients w
