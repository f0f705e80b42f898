-- ===== src/ClientVec/Topics.antt =====
-- client_vec.c: the topics of a client, and its queue of messages to send later.
use tcp_client_server.Prelude.{
  ℕ, suc, ◌+◌, ◌-◌, List, [], ◌∷◌, ◌++◌, Option, none, some, ◌==◌, if◌then◌else◌, length, take, set,
  get_elem?, shift_down, for_first, Text, str_eq,
}
use tcp_client_server.Prelude.Int.{ℤ, eq_ℤ, is_neg}
use tcp_client_server.Errors.{
  Err, ok, clients_vec_input_is_null, clients_vec_input_fd_idx_invalid,
  clients_vec_client_not_found, clients_vec_cound_not_add_a_topic, clients_vec_cound_not_find_topic,
  clients_vec_index_out_of_bound, clients_vec_failed_realloc,
}
use tcp_client_server.Os.{Os, mul_size, realloc_factor}
use tcp_client_server.ClientVec.{Client, ClientVec, SfOption, MsgPtr, sizeof_pointer, sizeof_option}

-- The index of the first entry that `strcmp` finds equal, counted from `iter`.
unfoldable pub find_topic : Text → ℕ → List Text → Option ℕ
find_topic topic iter [] = none
find_topic topic iter (t ∷ ts) =
    let rest = find_topic topic (suc iter) ts in if str_eq t topic then some iter else rest

-- Closes the gap at `iter` in an array and takes one off its length.
unfoldable pub remove_at {ℓ} : {A : Type ℓ} → List A → ℕ → List A
remove_at xs iter = take (length xs - 1) (shift_down (length xs - 1 - iter) iter xs)

-- What `unsubscribe_client_from_topic` does to the client that it finds.
unfoldable pub remove_topic : Text → Client → Err × Client
remove_topic client_topic c = elim (find_topic client_topic 0 c.topics) [
  | none ↦ (clients_vec_cound_not_find_topic, c)
  | some iter ↦
      (ok, record c { topics = remove_at c.topics iter; options = remove_at c.options iter })
]

-- A loop body that applies `act` to the client on the socket.
unfoldable pub on_socket {ℓ} :
    {R : Type ℓ} → ℤ → (Client → R × Client) → ℕ → Client → Option (R × Client)
on_socket client_fd act iter c = if eq_ℤ c.fd client_fd then some (act c) else none

unfoldable pub unsubscribe_client_from_topic : Option ClientVec → ℤ → Text → Err × Option ClientVec
unsubscribe_client_from_topic none client_fd client_topic = (clients_vec_input_is_null, none)
unsubscribe_client_from_topic (some v) client_fd client_topic =
    if is_neg client_fd
    then (clients_vec_input_fd_idx_invalid, some v)
    else elim (for_first (on_socket client_fd (remove_topic client_topic)) 0 v.entities) [
      | none ↦ (clients_vec_client_not_found, some v)
      | some (e, entities') ↦ (e, some (record v { entities = entities' }))
    ]

module _ (os : Os) where
  open os use {World, malloc, realloc}

  -- Adds memory for new topics when all cells are taken; `none` if there is no more.
  unfoldable pub grow_topics : Client → World → Option Client × World
  grow_topics c w =
      let (array, w₁) =
        realloc (mul_size (mul_size sizeof_pointer c.topic_capacity) realloc_factor) w in
      let (array', w₂) =
        realloc (mul_size (mul_size sizeof_option c.topic_capacity) realloc_factor) w₁ in
      if length c.topics == c.topic_capacity
      then elim array [
        | none ↦ (none, w₁)
        | some _ ↦ elim array' [
          | none ↦ (none, w₂)
          | some _ ↦
              (some (record c { topic_capacity = mul_size c.topic_capacity realloc_factor }), w₂)
        ]
      ]
      else (some c, w)

  unfoldable pub append_topic : Text → SfOption → Client → World → (Err × World) × Client
  append_topic client_topic client_sf c w =
      let (copy, w₁) = malloc (length client_topic + 1) w in
      elim copy [
        | none ↦ ((clients_vec_cound_not_add_a_topic, w₁), c)
        | some _ ↦ (
          (ok, w₁),
          record c {
            topics = c.topics ++ client_topic ∷ [];
            options = c.options ++ client_sf ∷ [];
          },
        )
      ]

  -- What `subscribe_client_to_topic` does to the client that it finds.
  unfoldable pub add_topic : World → Text → SfOption → Client → (Err × World) × Client
  add_topic w client_topic client_sf c =
      let (grown, w₁) = grow_topics c w in
      elim (find_topic client_topic 0 c.topics) [
        | some iter ↦ ((ok, w), record c { options = set c.options iter client_sf })
        | none ↦ elim grown [
          | none ↦ ((clients_vec_cound_not_add_a_topic, w₁), c)
          | some c' ↦ append_topic client_topic client_sf c' w₁
        ]
      ]

  unfoldable pub subscribe_client_to_topic :
      Option ClientVec → ℤ → Text → SfOption → World → Err × Option ClientVec × World
  subscribe_client_to_topic none client_fd client_topic client_sf w =
      (clients_vec_input_is_null, none, w)
  subscribe_client_to_topic (some v) client_fd client_topic client_sf w =
      if is_neg client_fd
      then (clients_vec_input_fd_idx_invalid, some v, w)
      else elim (for_first (on_socket client_fd (add_topic w client_topic client_sf)) 0
          v.entities) [
            | none ↦ (clients_vec_client_not_found, some v, w)
            | some ((e, w₁), entities') ↦ (e, some (record v { entities = entities' }), w₁)
          ]

  -- Adds memory for the queue when all cells are taken; `none` if there is no more.
  unfoldable pub grow_ready_msgs : Client → World → Option Client × World
  grow_ready_msgs c w =
      let (array, w₁) =
        realloc (mul_size (mul_size sizeof_pointer c.ready_msgs_capacity) realloc_factor) w in
      if length c.ready_msgs == c.ready_msgs_capacity
      then elim array [
        | none ↦ (none, w₁)
        | some _ ↦ (
          some (record c { ready_msgs_capacity = mul_size c.ready_msgs_capacity realloc_factor }),
          w₁,
        )
      ]
      else (some c, w)

  unfoldable pub push_msg : MsgPtr → Client → World → Err × Client × World
  push_msg udp_msg c w =
      let (grown, w₁) = grow_ready_msgs c w in
      elim grown [
        | none ↦ (clients_vec_failed_realloc, c, w₁)
        | some c' ↦ (ok, record c' { ready_msgs = c'.ready_msgs ++ udp_msg ∷ [] }, w₁)
      ]

  unfoldable pub add_topic_msg_for_client :
      Option ClientVec → MsgPtr → ℕ → World → Err × Option ClientVec × World
  add_topic_msg_for_client none udp_msg client_idx w = (clients_vec_input_is_null, none, w)
  add_topic_msg_for_client (some v) udp_msg client_idx w = elim (get_elem? v.entities client_idx) [
    | none ↦ (clients_vec_index_out_of_bound, some v, w)
    | some c ↦
        let (e, c', w₁) = push_msg udp_msg c w in
        (e, some (record v { entities = set v.entities client_idx c' }), w₁)
  ]
