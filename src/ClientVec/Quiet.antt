-- ===== src/ClientVec/Quiet.antt =====
-- The calls on the table of clients keep what their calls of the system keep; those that do not connect or
-- disconnect a client keep the sockets.
use tcp_client_server.Prelude.{
  ℕ, ◌+◌, inl, inr, List, [], ◌∷◌, some, ◌==◌, Bool-cases, Option-cases, Text, length, for_first,
  for_first_cases, FirstHit, get_elem?, arith,
}
use tcp_client_server.Prelude.Int.{ℤ, is_neg}
use tcp_client_server.Errors.{Err}
use tcp_client_server.Os.{Os, mul_size, realloc_factor}
use tcp_client_server.Os.Quiet.{Quiet}
use tcp_client_server.ClientVec.{
  Client, ClientVec, SfOption, MsgPtr, malloc_all, grow_entities, add_client, register_new_client,
  reconnect, sizeof_client, sizeof_pointer,
}
use tcp_client_server.ClientVec.Topics.{
  find_topic, grow_topics, append_topic, add_topic, subscribe_client_to_topic, grow_ready_msgs,
  push_msg, add_topic_msg_for_client, on_socket,
}

-- Queueing a message for a client calls only `realloc`.
module _ (os : Os) (P : os.World → Type 0)
    (keeps : (size : ℕ) (w : os.World) → P w → P (os.realloc size w).1) where
  open os use {World}

  grow_ready_msgs_keeps : (c : Client) (w : World) → P w → P (grow_ready_msgs os c w).1
  unfolding grow_ready_msgs
  grow_ready_msgs_keeps c w h =
      let h₁ = keeps size w h in
      elim (Bool-cases (length c.ready_msgs == c.ready_msgs_capacity)) [
        | inr q ↦ rw (q, grow_ready_msgs) h
        | inl q ↦ elim (Option-cases (os.realloc size w).0) [
          | inl e ↦ rw (q, e, grow_ready_msgs) h₁
          | inr (_, e) ↦ rw (q, e, grow_ready_msgs) h₁
        ]
      ]
    where
      size : ℕ
      size = mul_size (mul_size sizeof_pointer c.ready_msgs_capacity) realloc_factor

  push_msg_keeps : (p : MsgPtr) (c : Client) (w : World) → P w → P (push_msg os p c w).2
  unfolding push_msg
  push_msg_keeps p c w h =
      let h₁ = grow_ready_msgs_keeps c w h in
      elim (Option-cases (grow_ready_msgs os c w).0) [
        | inl e ↦ rw (e, push_msg) h₁
        | inr (_, e) ↦ rw (e, push_msg) h₁
      ]

  pub add_topic_msg_for_client_keeps :
      (v : ClientVec) (p : MsgPtr) (i : ℕ) (w : World)
      → P w
      → P (add_topic_msg_for_client os (some v) p i w).2
  unfolding add_topic_msg_for_client
  add_topic_msg_for_client_keeps v p i w h = elim (Option-cases (get_elem? v.entities i)) [
    | inl e ↦ rw (e, add_topic_msg_for_client) h
    | inr (c, e) ↦ rw (e, add_topic_msg_for_client) (push_msg_keeps p c w h)
  ]

module _ (os : Os) (P : os.World → Type 0) (quiet : Quiet os P) where
  open os use {World}

  pub malloc_all-Quiet : (sizes : List ℕ) (w : World) → P w → P (malloc_all os sizes w).1
  unfolding malloc_all
  malloc_all-Quiet [] w h = h
  malloc_all-Quiet (size ∷ sizes) w h =
      let h₁ = quiet.after_malloc size w h in
      elim (Option-cases (os.malloc size w).0) [
        | inl e ↦ rw (e, malloc_all) h₁
        | inr (_, e) ↦ rw (e, malloc_all) (malloc_all-Quiet sizes _ h₁)
      ]

  grow_entities-Quiet : (v : ClientVec) (w : World) → P w → P (grow_entities os v w).1
  unfolding grow_entities
  grow_entities-Quiet v w h =
      let h₁ = quiet.after_realloc size w h in
      elim (Bool-cases (length v.entities == v.capacity)) [
        | inr q ↦ rw (q, grow_entities) h
        | inl q ↦ elim (Option-cases (os.realloc size w).0) [
          | inl e ↦ rw (q, e, grow_entities) h₁
          | inr (_, e) ↦ rw (q, e, grow_entities) h₁
        ]
      ]
    where
      size : ℕ
      size = mul_size (mul_size sizeof_client v.capacity) realloc_factor

  add_client-Quiet :
      (v : ClientVec) (id : Text) (fd : ℤ) (w : World) → P w → P (add_client os v id fd w).2
  unfolding add_client
  add_client-Quiet v id fd w h =
      let sizes : List ℕ = 10 ∷ 80 ∷ 40 ∷ 80 ∷ [] in
      let h₁ = malloc_all-Quiet sizes w h in
      elim (Bool-cases (malloc_all os sizes w).0) [
        | inl e ↦ rw (e, add_client) h₁
        | inr e ↦ rw (e, add_client) h₁
      ]

  pub register_new_client-Quiet :
      (v : ClientVec) (id : Text) (fd : ℤ) (w : World)
      → P w
      → P (register_new_client os (some v) id fd w).2
  unfolding register_new_client
  register_new_client-Quiet v id fd w h =
      let h₁ = grow_entities-Quiet v w h in
      elim (Option-cases (for_first (reconnect id fd) 0 v.entities)) [
        | inr (_, e) ↦ rw (e, register_new_client) h
        | inl e ↦ elim (Option-cases (grow_entities os v w).0) [
          | inl g ↦ rw (e, g, register_new_client) h₁
          | inr (v', g) ↦ rw (e, g, register_new_client) (add_client-Quiet v' id fd _ h₁)
        ]
      ]

  append_topic-Quiet :
      (t : Text) (o : SfOption) (c : Client) (w : World) → P w → P (append_topic os t o c w).0.1
  unfolding append_topic
  append_topic-Quiet t o c w h =
      let h₁ = quiet.after_malloc (length t + 1) w h in
      elim (Option-cases (os.malloc (length t + 1) w).0) [
        | inl e ↦ rw (e, append_topic) h₁
        | inr (_, e) ↦ rw (e, append_topic) h₁
      ]

  grow_topics-Quiet : (c : Client) (w : World) → P w → P (grow_topics os c w).1
  unfolding grow_topics
  grow_topics-Quiet c w h =
      let h₁ = quiet.after_realloc size w h in
      let w₁ : World = (os.realloc size w).1 in
      let h₂ = quiet.after_realloc size' w₁ h₁ in
      elim (Bool-cases (length c.topics == c.topic_capacity)) [
        | inr q ↦ rw (q, grow_topics) h
        | inl q ↦ elim (Option-cases (os.realloc size w).0) [
          | inl e ↦ rw (q, e, grow_topics) h₁
          | inr (_, e) ↦ elim (Option-cases (os.realloc size' w₁).0) [
            | inl e' ↦ rw (q, e, e', grow_topics) h₂
            | inr (_, e') ↦ rw (q, e, e', grow_topics) h₂
          ]
        ]
      ]
    where
      size : ℕ
      size = mul_size (mul_size sizeof_pointer c.topic_capacity) realloc_factor

      size' : ℕ
      size' = mul_size (mul_size 4 c.topic_capacity) realloc_factor

  add_topic-Quiet :
      (w : World) (t : Text) (o : SfOption) (c : Client) → P w → P (add_topic os w t o c).0.1
  unfolding add_topic
  add_topic-Quiet w t o c h =
      let h₁ = grow_topics-Quiet c w h in
      elim (Option-cases (find_topic t 0 c.topics)) [
        | inr (_, e) ↦ rw (e, add_topic) h
        | inl e ↦ elim (Option-cases (grow_topics os c w).0) [
          | inl g ↦ rw (e, g, add_topic) h₁
          | inr (c', g) ↦ rw (e, g, add_topic) (append_topic-Quiet t o c' _ h₁)
        ]
      ]

  on_socket-Quiet :
      (fd : ℤ) (t : Text) (o : SfOption) (w : World) {i : ℕ} {xs ys : List Client} {r : Err × World}
      → P w
      → FirstHit (on_socket fd (add_topic os w t o)) i xs r ys
      → P r.1
  unfolding on_socket
  on_socket-Quiet fd t o w h (FirstHit.here {x = x} {r = r} e) =
      ground (arith, add_topic-Quiet w t o x h)
  on_socket-Quiet fd t o w h (FirstHit.there e hit) = on_socket-Quiet fd t o w h hit

  pub subscribe_client_to_topic-Quiet :
      (v : ClientVec) (fd : ℤ) (t : Text) (o : SfOption) (w : World)
      → P w
      → P (subscribe_client_to_topic os (some v) fd t o w).2
  unfolding subscribe_client_to_topic
  subscribe_client_to_topic-Quiet v fd t o w h = elim (Bool-cases (is_neg fd)) [
    | inl n ↦ rw (n, subscribe_client_to_topic) h
    | inr n ↦ elim (for_first_cases (on_socket fd (add_topic os w t o)) 0 v.entities) [
      | inl (e, _) ↦ rw (n, e, subscribe_client_to_topic) h
      | inr (r, ys, e, hit) ↦ rw (n, e, subscribe_client_to_topic) (on_socket-Quiet fd t o w h hit)
    ]
  ]

  pub add_topic_msg_for_client-Quiet :
      (v : ClientVec) (p : MsgPtr) (i : ℕ) (w : World)
      → P w
      → P (add_topic_msg_for_client os (some v) p i w).2
  add_topic_msg_for_client-Quiet = add_topic_msg_for_client_keeps os P quiet.after_realloc
