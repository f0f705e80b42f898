-- ===== src/Server/Transmission.antt =====
-- server_utils.c, `transmit_topic_to_clients`: which clients get a message in their queue.
use tcp_client_server.Prelude.{
  ℕ, suc, ◌-◌, ◌≡◌, ◌⊎◌, refl, sym, ap, ap₂, ◌∙◌, inl, inr, true, false, List, [], ◌∷◌, ◌++◌, none,
  some, arith, Option-cases, length, length-append, set, get_elem?, All, append_assoc, Text,
  c_string,
}
use tcp_client_server.Errors.{Err, ok, clients_vec_failed_realloc}
use tcp_client_server.Os.{Os}
use tcp_client_server.ClientVec.{Client, ClientVec, MsgPtr, SfOption, sf, no_sf, active, dead}
use tcp_client_server.ClientVec.Topics.{add_topic_msg_for_client}
use tcp_client_server.ClientVec.Subscriptions.{subscription}
use tcp_client_server.ClientVec.Wellformed.{IsWellformed}
use tcp_client_server.Tcp.{TcpMsg}
use tcp_client_server.Udp.{Doubles, UdpMsg}
use tcp_client_server.Server.{Server}
use tcp_client_server.Server.Printing.{pack_topic_to_tcp_msg}
use tcp_client_server.Server.Handlers.{
  is_ok, vec_after, send_or_debug, transmit_to, transmit_loop, transmit_topic_to_clients,
}
use tcp_client_server.ClientVec.Lookup.{Status-cases}
use tcp_client_server.Server.Delivery.{
  Delivered, AllDelivered, none_left, one_more, option_for-subscription, get_elem?-middle,
  set-middle, push_msg_cases,
}

module _ (os : Os) where
  open os use {World}

  -- How one round, or the whole loop, ends: with the clients `ys`, for which `P` holds, or without memory.
  abbrev pub Ends {ℓ} : (List Client → Type ℓ) → Err × ClientVec × World → Type ℓ
  Ends P (e, v, w) =
      ((e ≡ ok) × (ys : List Client) × (v.entities ≡ ys) × P ys) ⊎ (e ≡ clients_vec_failed_realloc)

  module _ (m : TcpMsg) (t : Text) (p : MsgPtr) where
    abbrev pub One : List Client → Client → List Client → List Client → Type 0
    One xs c rest ys = (c' : Client) × (ys ≡ xs ++ c' ∷ rest) × Delivered t p c c'

    queue_at :
        (v : ClientVec) (w : World) (xs rest : List Client) (c : Client) (n : ℕ)
        → v.entities ≡ xs ++ c ∷ rest
        → length xs ≡ n
        → c.status ≡ dead
        → subscription c t ≡ some sf
        → (let (e, v', w₁) = add_topic_msg_for_client os (some v) p n w in
            Ends (One xs c rest) (e, vec_after v v', w₁))
    unfolding add_topic_msg_for_client
    queue_at v w xs rest c n e l d h =
        let found : get_elem? v.entities n ≡ some c =
          ap (λ cs. get_elem? cs n) e ∙ get_elem?-middle xs c rest n l in
        rw (found, add_topic_msg_for_client)
          (elim (push_msg_cases os p c w) [
            | inl q ↦ inr q
            | inr (q, (capacity, r)) ↦ inl (
              q,
              _,
              refl,
              (
                _,
                ap₂ (λ cs c'. set cs n c') e r ∙ set-middle xs c _ rest n l,
                Delivered.queued capacity d h,
              ),
            )
          ])

    pub transmit_to_active :
        (v : ClientVec) (w : World) (n : ℕ) (c : Client) (o : SfOption)
        → c.status ≡ active
        → transmit_to os m p n c o v w ≡ (ok, v, (send_or_debug os c.fd m w).1)
    unfolding transmit_to
    transmit_to_active v w n c no_sf a = rw (a, transmit_to) refl
    transmit_to_active v w n c sf a = rw (a, transmit_to) refl

    pub transmit_to_dead :
        (v : ClientVec) (w : World) (n : ℕ) (c : Client)
        → c.status ≡ dead
        → transmit_to os m p n c no_sf v w ≡ (ok, v, w)
    unfolding transmit_to
    transmit_to_dead v w n c d = rw (d, transmit_to) refl

    pub transmit_to_stored :
        (v : ClientVec) (w : World) (n : ℕ) (c : Client)
        → c.status ≡ dead
        → transmit_to os m p n c sf v w ≡ (
            let (e, v', w₁) = add_topic_msg_for_client os (some v) p n w in (e, vec_after v v', w₁))
    unfolding transmit_to
    transmit_to_stored v w n c d = rw (d, transmit_to) refl

    pub round-Ends :
        (v : ClientVec) (w : World) (xs rest : List Client) (c : Client) (n : ℕ) (o : SfOption)
        → v.entities ≡ xs ++ c ∷ rest
        → length xs ≡ n
        → subscription c t ≡ some o
        → Ends (One xs c rest) (transmit_to os m p n c o v w)
    round-Ends v w xs rest c n o e l h = elim (Status-cases c.status) [
      | inl a ↦
          rw (transmit_to_active v w n c o a) (inl (refl, _, refl, (c, e, Delivered.to_active a)))
      | inr d ↦ by_option o d h
    ]
      where
        by_option :
            (o : SfOption)
            → c.status ≡ dead
            → subscription c t ≡ some o
            → Ends (One xs c rest) (transmit_to os m p n c o v w)
        by_option no_sf d h =
            rw (transmit_to_dead v w n c d)
              (inl (refl, _, refl, (c, e, Delivered.not_stored (inr h))))
        by_option sf d h = rw (transmit_to_stored v w n c d) (queue_at v w xs rest c n e l d h)

    extended :
        (xs rest : List Client) (c c' : Client) (r : Err × ClientVec × World)
        → Delivered t p c c'
        → Ends
            (λ ys. (zs : List Client) × (ys ≡ (xs ++ c' ∷ []) ++ zs) × AllDelivered t p rest zs)
            r
        → Ends (λ ys. (zs : List Client) × (ys ≡ xs ++ zs) × AllDelivered t p (c ∷ rest) zs) r
    extended xs rest c c' (e, v, w) d (inr q) = inr q
    extended xs rest c c' (e, v, w) d (inl (q, ys, r, (zs, g, k))) =
        inl (q, ys, r, (c' ∷ zs, g ∙ append_assoc xs (c' ∷ []) zs, one_more d k))

    pub one_longer :
        (xs : List Client) (n : ℕ) (c' : Client) → length xs ≡ n → length (xs ++ c' ∷ []) ≡ suc n
    one_longer xs n c' l = omega (arith, length-append xs (c' ∷ []))

    pub one_behind :
        (xs rest : List Client) (c' : Client) {cs : List Client}
        → cs ≡ xs ++ c' ∷ rest
        → cs ≡ (xs ++ c' ∷ []) ++ rest
    one_behind xs rest c' q = q ∙ sym (append_assoc xs (c' ∷ []) rest)

    module _ (v : ClientVec) (w : World) (xs rest : List Client) (c : Client) (n : ℕ)
        (e : v.entities ≡ xs ++ c ∷ rest) (l : length xs ≡ n) (h : IsWellformed c) where
      found : get_elem? v.entities n ≡ some c
      found = ap (λ cs. get_elem? cs n) e ∙ get_elem?-middle xs c rest n l

      pub pass :
          subscription c t ≡ none
          → transmit_loop os m t p (suc (length rest)) n v w
            ≡ transmit_loop os m t p (length rest) (suc n) v w
      unfolding transmit_loop
      pass q = rw (found, option_for-subscription t c h ∙ q, transmit_loop) refl

      pub act :
          (o : SfOption)
          → subscription c t ≡ some o
          → transmit_loop os m t p (suc (length rest)) n v w ≡ (
              let (e, v', w₁) = transmit_to os m p n c o v w in
              elim (is_ok e) [
                | true ↦ transmit_loop os m t p (length rest) (suc n) v' w₁
                | false ↦ (e, v', w₁)
              ])
      unfolding transmit_loop
      act o q = rw (found, option_for-subscription t c h ∙ q, transmit_loop) refl

    loop-Ends :
        (v : ClientVec) (w : World) (xs rest : List Client) (n : ℕ)
        → v.entities ≡ xs ++ rest
        → length xs ≡ n
        → All IsWellformed rest
        → Ends
            (λ ys. (zs : List Client) × (ys ≡ xs ++ zs) × AllDelivered t p rest zs)
            (transmit_loop os m t p (length rest) n v w)
    unfolding transmit_loop
    loop-Ends v w xs [] n e l h = inl (refl, _, refl, ([], e, none_left))
    loop-Ends v w xs (c ∷ rest) n e l h = elim (Option-cases (subscription c t)) [
      | inl q ↦ rw (pass v w xs rest c n e l h.0 q) (
          extended xs rest c c (transmit_loop os m t p (length rest) (suc n) v w)
            (Delivered.not_stored (inl q))
            (loop-Ends v w (xs ++ c ∷ []) rest (suc n) (one_behind xs rest c e)
              (one_longer xs n c l) h.1))
      | inr (o, q) ↦ rw (act v w xs rest c n e l h.0 o q) (
          after_round
            (λ v' w' c' k.
              loop-Ends v' w' (xs ++ c' ∷ []) rest (suc n) (one_behind xs rest c' k)
                (one_longer xs n c' l) h.1)
            (transmit_to os m p n c o v w) (round-Ends v w xs rest c n o e l q))
    ]
      where
        after_round :
            ((v' : ClientVec) (w' : World) (c' : Client)
              → v'.entities ≡ xs ++ c' ∷ rest
              → Ends
                  (λ ys.
                    (zs : List Client) × (ys ≡ (xs ++ c' ∷ []) ++ zs) × AllDelivered t p rest zs)
                  (transmit_loop os m t p (length rest) (suc n) v' w'))
            → (r : Err × ClientVec × World) → Ends (One xs c rest) r
            → Ends
                (λ ys. (zs : List Client) × (ys ≡ xs ++ zs) × AllDelivered t p (c ∷ rest) zs)
                (elim (is_ok r.0) [
                  | true ↦ transmit_loop os m t p (length rest) (suc n) r.1 r.2
                  | false ↦ r
                ])
        after_round again (e', v', w') (inr q) = rw q (inr q)
        after_round again (e', v', w') (inl (q, ys, r, (c', g, d))) = rw q (
            extended xs rest c c' (transmit_loop os m t p (length rest) (suc n) v' w') d
              (again v' w' c' (r ∙ g)))

module _ (doubles : Doubles) (os : Os) where
  open os use {World}

  -- When the last message of the server is one that can be packed, and its clients are well formed,
  -- `transmit_topic_to_clients` ends in one of two ways. Either it returns OK, each dead client that has the
  -- message's topic with store-and-forward has the pointer to the message behind its queue, and all other
  -- clients are as they were; or memory for a queue ran out.
  pub transmit_topic_to_clients-AllDelivered :
      (s : Server doubles) (w : World) (m : UdpMsg doubles)
      → get_elem? s.udp_msgs (length s.udp_msgs - 1) ≡ some m
      → (pack_topic_to_tcp_msg doubles s.send_msg m).0 ≡ ok
      → All IsWellformed s.clients.entities
      → (e : Err) × (s' : Server doubles) × (w' : World) × (transmit_topic_to_clients doubles os s w
          ≡ some (e, s', w'))
        × (s'.udp_msgs ≡ s.udp_msgs)
        × (((e ≡ ok)
              × AllDelivered
                  (c_string m.topic)
                  (record { base = s.udp_msgs_base; index = length s.udp_msgs - 1 })
                  s.clients.entities
                  s'.clients.entities)
            ⊎ (e ≡ clients_vec_failed_realloc))
  unfolding transmit_topic_to_clients
  transmit_topic_to_clients-AllDelivered s w m found packed h = (
    r.0,
    record s { clients = r.1; send_msg = msg },
    r.2,
    rw (found, packed, transmit_topic_to_clients) refl,
    refl,
    ends (loop-Ends os msg (c_string m.topic) ptr s.clients w [] s.clients.entities 0 refl refl h),
  )
    where
      msg : TcpMsg
      msg = (pack_topic_to_tcp_msg doubles s.send_msg m).1

      ptr : MsgPtr
      ptr = record { base = s.udp_msgs_base; index = length s.udp_msgs - 1 }

      r : Err × ClientVec × World
      r = transmit_loop os msg (c_string m.topic) ptr (length s.clients.entities) 0 s.clients w

      ends :
          Ends os
            (λ ys.
              (zs : List Client) × (ys ≡ zs)
              × AllDelivered (c_string m.topic) ptr s.clients.entities zs)
            r
          → ((r.0 ≡ ok) × AllDelivered (c_string m.topic) ptr s.clients.entities r.1.entities)
            ⊎ (r.0 ≡ clients_vec_failed_realloc)
      ends (inl (q, ys, k, (zs, g, d))) = inl (q, rw (k, g) d)
      ends (inr q) = inr q
