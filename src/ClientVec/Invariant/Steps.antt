-- ===== src/ClientVec/Invariant/Steps.antt =====
-- Each call keeps the table of clients valid, so it is valid in every state that calls lead to.
use tcp_client_server.Prelude.{
  ℕ, ◌≡◌, ◌⊎◌, refl, ap, inl, inr, List, Option, none, some, arith, set, get_elem?, for_first,
  All-set, All-get_elem?, map-set_same, FirstHit, FirstHit-map, for_first_cases, Text, Bool-cases,
  Option-cases, length-set,
}
use tcp_client_server.Prelude.Int.{ℤ, is_neg}
use tcp_client_server.Errors.{Err}
use tcp_client_server.Os.{Os}
use tcp_client_server.Os.Laws.{ReallocLimit}
use tcp_client_server.ClientVec.{
  Client, ClientVec, SfOption, MsgPtr, disconnect, close_active_client,
}
use tcp_client_server.ClientVec.Topics.{
  on_socket, remove_topic, add_topic, grow_topics, append_topic, push_msg,
  unsubscribe_client_from_topic, subscribe_client_to_topic, add_topic_msg_for_client,
}
use tcp_client_server.ClientVec.Wellformed.{IsWellformed, add_topic-Subscribes}
use tcp_client_server.ClientVec.Removal.{remove_topic-Unsubscribes, push_msg-Queues}
use tcp_client_server.ClientVec.Invariant.{
  IsLinkedClient, IsValid, Behind, sockets, hit-IsValid, FirstHit-Swap, disconnect_keeps,
}
use tcp_client_server.ClientVec.Invariant.Sockets.{DistinctSockets, Swap-neg, Swap-same}

module _ (v : ClientVec) (client_fd : ℤ) (valid : IsValid v) where
  close_hit :
      {ys : List Client} {r : Err × Option ℕ}
      → FirstHit (disconnect client_fd) 0 v.entities r ys
      → IsValid (record v { entities = ys })
  close_hit {ys} {r} hit = hit-IsValid v keeps_id keeps_form keeps_link valid hit distinct
    where
      keeps_id :
          (i : ℕ) (x x' : Client) (r : Err × Option ℕ)
          → disconnect client_fd i x ≡ some (r, x')
          → x'.id ≡ x.id
      keeps_id i x x' r e = ground (arith, disconnect_keeps client_fd i x x' r e)

      keeps_form :
          (i : ℕ) (x x' : Client) (r : Err × Option ℕ)
          → disconnect client_fd i x ≡ some (r, x')
          → IsWellformed x
          → IsWellformed x'
      keeps_form i x x' r e h = elim (disconnect_keeps client_fd i x x' r e) [
        | inl q ↦ rw q h
        | inr q ↦ rw q (record {
          paired = h.paired;
          distinct = h.distinct;
          topics_fit = h.topics_fit;
          queue_fits = h.queue_fits;
        })
      ]

      keeps_link :
          (i : ℕ) (x x' : Client) (r : Err × Option ℕ)
          → disconnect client_fd i x ≡ some (r, x')
          → IsLinkedClient x
          → IsLinkedClient x'
      keeps_link i x x' r e h = elim (disconnect_keeps client_fd i x x' r e) [
        | inl q ↦ rw q h
        | inr q ↦ rw q refl
      ]

      distinct : DistinctSockets (sockets ys)
      distinct =
          let (j, x, x', e, s) = FirstHit-Swap hit in
          elim (disconnect_keeps client_fd j x x' r e) [
            | inl q ↦ rw (Swap-same (ap (λ c. c.fd) q) s) valid.sockets_distinct
            | inr q ↦ Swap-neg (ap (λ c. is_neg c.fd) q) s valid.sockets_distinct
          ]

  pub close_active_client-IsValid : Behind IsValid (close_active_client (some v) client_fd).1
  unfolding close_active_client
  close_active_client-IsValid = elim (Bool-cases (is_neg client_fd)) [
    | inl n ↦ rw n valid
    | inr p ↦ elim (for_first_cases (disconnect client_fd) 0 v.entities) [
      | inl (e, _) ↦ rw (p, e) valid
      | inr (r, ys, e, hit) ↦ rw (p, e) (close_hit hit)
    ]
  ]

-- A loop that acts on the client of a socket, and keeps its id, status, socket and form.
module _ {ℓ} {R : Type ℓ} (v : ClientVec) (client_fd : ℤ) (act : Client → R × Client) where
  acted :
      (i : ℕ) (x x' : Client) (r : R) → on_socket client_fd act i x ≡ some (r, x') → (act x).1 ≡ x'
  unfolding on_socket
  acted i x x' r e = ground arith

  act_hit :
      ((c : Client) → IsWellformed c → IsWellformed (act c).1)
      → ((c : Client)
          → ((act c).1.id ≡ c.id) × ((act c).1.status ≡ c.status) × ((act c).1.fd ≡ c.fd))
      → IsValid v
      → {ys : List Client} {r : R} → FirstHit (on_socket client_fd act) 0 v.entities r ys
      → IsValid (record v { entities = ys })
  act_hit form same valid {ys} hit =
      hit-IsValid v (λ i x x' r e. rw (← acted i x x' r e) (same x).0)
        (λ i x x' r e h. rw (← acted i x x' r e) (form x h))
        (λ i x x' r e h. rw (← acted i x x' r e, (same x).1, (same x).2) h) valid hit
        (rw sockets_same valid.sockets_distinct)
    where
      socket_same :
          (i : ℕ) (x x' : Client) (r : R)
          → on_socket client_fd act i x ≡ some (r, x')
          → x'.fd ≡ x.fd
      socket_same i x x' r e = rw (← acted i x x' r e) (same x).2

      sockets_same : sockets ys ≡ sockets v.entities
      sockets_same = FirstHit-map (λ c. c.fd) socket_same hit

  act-IsValid :
      ((c : Client) → IsWellformed c → IsWellformed (act c).1)
      → ((c : Client)
          → ((act c).1.id ≡ c.id) × ((act c).1.status ≡ c.status) × ((act c).1.fd ≡ c.fd))
      → IsValid v
      → (for_first (on_socket client_fd act) 0 v.entities ≡ none)
        ⊎ ((r : R) × (ys : List Client) × (for_first (on_socket client_fd act) 0 v.entities
              ≡ some (r, ys))
            × IsValid (record v { entities = ys }))
  act-IsValid form same valid = elim (for_first_cases (on_socket client_fd act) 0 v.entities) [
    | inl (e, _) ↦ inl e
    | inr (r, ys, e, hit) ↦ inr (r, ys, e, act_hit form same valid hit)
  ]

remove_topic_same :
    (t : Text) (c : Client)
    → ((remove_topic t c).1.id ≡ c.id)
      × ((remove_topic t c).1.status ≡ c.status)
      × ((remove_topic t c).1.fd ≡ c.fd)
unfolding remove_topic
remove_topic_same t c = ground arith

pub unsubscribe_client_from_topic-IsValid :
    (v : ClientVec) (client_fd : ℤ) (topic : Text)
    → IsValid v
    → Behind IsValid (unsubscribe_client_from_topic (some v) client_fd topic).1
unfolding unsubscribe_client_from_topic
unsubscribe_client_from_topic-IsValid v client_fd topic valid =
    elim (Bool-cases (is_neg client_fd)) [
      | inl n ↦ rw n valid
      | inr p ↦
          elim (act-IsValid v client_fd (remove_topic topic)
            (λ c h. (remove_topic-Unsubscribes c topic h).0) (remove_topic_same topic) valid) [
              | inl e ↦ rw (p, e) valid
              | inr (r, ys, e, valid') ↦ rw (p, e) valid'
            ]
    ]

module _ (os : Os) where
  open os use {World}

  add_topic_same :
      (w : World) (t : Text) (o : SfOption) (c : Client)
      → ((add_topic os w t o c).1.id ≡ c.id)
        × ((add_topic os w t o c).1.status ≡ c.status)
        × ((add_topic os w t o c).1.fd ≡ c.fd)
  unfolding add_topic grow_topics append_topic
  add_topic_same w t o c = ground arith

module _ (os : Os) (limit : ReallocLimit os) where
  open os use {World}

  pub subscribe_client_to_topic-IsValid :
      (v : ClientVec) (client_fd : ℤ) (topic : Text) (option : SfOption) (w : World)
      → IsValid v
      → Behind IsValid (subscribe_client_to_topic os (some v) client_fd topic option w).1
  unfolding subscribe_client_to_topic
  subscribe_client_to_topic-IsValid v client_fd topic option w valid =
      elim (Bool-cases (is_neg client_fd)) [
        | inl n ↦ rw n valid
        | inr p ↦
            elim (act-IsValid v client_fd (add_topic os w topic option)
              (λ c h. (add_topic-Subscribes os limit c topic option w h).0)
              (add_topic_same os w topic option) valid) [
                | inl e ↦ rw (p, e) valid
                | inr (r, ys, e, valid') ↦ rw (p, e) valid'
              ]
      ]

  pub add_topic_msg_for_client-IsValid :
      (v : ClientVec) (udp_msg : MsgPtr) (client_idx : ℕ) (w : World)
      → IsValid v
      → Behind IsValid (add_topic_msg_for_client os (some v) udp_msg client_idx w).1
  unfolding add_topic_msg_for_client
  add_topic_msg_for_client-IsValid v udp_msg client_idx w valid =
      elim (Option-cases (get_elem? v.entities client_idx)) [
        | inl e ↦ rw (e, add_topic_msg_for_client) valid
        | inr (c, e) ↦ rw (e, add_topic_msg_for_client) (replaced c e)
      ]
    where
      replaced :
          (c : Client)
          → get_elem? v.entities client_idx ≡ some c
          → IsValid (record v { entities = set v.entities client_idx (push_msg os udp_msg c w).1 })
      replaced c e =
          let h : IsWellformed c =
            All-get_elem? IsWellformed v.entities client_idx e valid.wellformed in
          let k = push_msg-Queues os limit c udp_msg w h in
          let link : IsLinkedClient c =
            All-get_elem? IsLinkedClient v.entities client_idx e valid.linked in
          record {
            wellformed = All-set IsWellformed v.entities client_idx _ valid.wellformed k.wellformed;
            linked =
                All-set IsLinkedClient v.entities client_idx (push_msg os udp_msg c w).1
                  valid.linked (rw (k.same_status, k.same_fd) link);
            ids_distinct =
                rw
                  (map-set_same (λ c. c.id) v.entities client_idx (push_msg os udp_msg c w).1 e
                    k.same_id)
                  valid.ids_distinct;
            sockets_distinct =
                rw
                  (map-set_same (λ c. c.fd) v.entities client_idx (push_msg os udp_msg c w).1 e
                    k.same_fd)
                  valid.sockets_distinct;
            in_array = omega (arith, length-set v.entities client_idx (push_msg os udp_msg c w).1);
            has_room = valid.has_room;
            small = valid.small;
          }
