-- ===== src/ClientVec/Removal.antt =====
-- Taking a topic from a client, and putting a message in its queue.
use tcp_client_server.Prelude.{
  ℕ, ◌+◌, ◌≡◌, ◌⊎◌, refl, inl, inr, [], ◌∷◌, ◌++◌, Option, none, some, arith, ◌==◌, if◌then◌else◌,
  Bool-cases, Option-cases, length, length-append, zero-add, Text, str_eq, str_eq_refl,
  length-erase_idx,
}
use tcp_client_server.Errors.{Err, ok, clients_vec_cound_not_find_topic, clients_vec_failed_realloc}
use tcp_client_server.Os.{Os, mul_size, realloc_factor}
use tcp_client_server.Os.Laws.{ReallocLimit, size_in_limit}
use tcp_client_server.ClientVec.{Client, SfOption, MsgPtr, sizeof_pointer}
use tcp_client_server.ClientVec.Topics.{remove_topic, grow_ready_msgs, push_msg}
use tcp_client_server.ClientVec.Subscriptions.{
  subscription, find_topic_cases, option_of-absent, option_of-found, option_of-erase_idx,
  remove_at-erase_idx, Distinct-erase_idx,
}
use tcp_client_server.ClientVec.Wellformed.{Fits, IsWellformed, Keeps, doubled}

-- What `remove_topic` may do: the client had the topic and loses it, or had it not and stays the same.
abbrev pub Unsubscribes : Client → Text → Err × Client → Type 0
Unsubscribes c t (e, c') =
    IsWellformed c'
    × Keeps c c'
    × (((o : SfOption) × (e ≡ ok)
          × (subscription c t ≡ some o)
          × ((u : Text) → subscription c' u ≡ (if str_eq t u then none else subscription c u)))
        ⊎ ((e ≡ clients_vec_cound_not_find_topic) × (subscription c t ≡ none) × (c' ≡ c)))

pub remove_topic-Unsubscribes :
    (c : Client) (t : Text) → IsWellformed c → Unsubscribes c t (remove_topic t c)
unfolding remove_topic
remove_topic-Unsubscribes c t h = elim (find_topic_cases t 0 c.topics) [
  | inl (e, absent) ↦
      rw (e, remove_topic)
        (
          h,
          (refl, refl, refl, refl, refl),
          inr (refl, option_of-absent t t c.topics c.options absent (str_eq_refl t), refl),
        )
  | inr (j, e, l, at) ↦
      let (o, had) = option_of-found t j c.topics c.options at h.paired in
      rw
        (
          e,
          remove_topic,
          zero-add j,
          remove_at-erase_idx c.topics j l,
          remove_at-erase_idx c.options j (omega (arith, h.paired)),
        )
        (
          record {
            paired = omega (
              arith,
              h.paired,
              length-erase_idx c.topics j l,
              length-erase_idx c.options j (omega (arith, h.paired)),
            );
            distinct = Distinct-erase_idx j c.topics h.distinct;
            topics_fit = omega (arith, length-erase_idx c.topics j l);
            queue_fits = h.queue_fits;
          },
          (refl, refl, refl, refl, refl),
          inl (
            o,
            refl,
            had,
            λ u. option_of-erase_idx t u j c.topics c.options at h.distinct h.paired,
          ),
        )
]

-- What `push_msg` may do: the message is the last of the queue, or memory ran out and the client is the
-- same.
pub record Queues (c : Client) (p : MsgPtr) (e : Err) (c' : Client) : Type 0 where
  pub wellformed : IsWellformed c'
  pub same_id : c'.id ≡ c.id
  pub same_status : c'.status ≡ c.status
  pub same_fd : c'.fd ≡ c.fd
  pub same_topics : c'.topics ≡ c.topics
  pub same_options : c'.options ≡ c.options
  pub outcome :
      ((e ≡ ok) × (c'.ready_msgs ≡ c.ready_msgs ++ p ∷ []))
      ⊎ ((e ≡ clients_vec_failed_realloc) × (c' ≡ c))

module _ (os : Os) (limit : ReallocLimit os) where
  open os use {World}

  abbrev RoomyQueue : Client → Option Client → Type 0
  RoomyQueue c none = Unit
  RoomyQueue c (some c') =
      (n : ℕ) × (c' ≡ record c { ready_msgs_capacity = n }) × Fits (length c.ready_msgs + 1) n

  grow_ready_msgs-RoomyQueue :
      (c : Client) (w : World) → IsWellformed c → RoomyQueue c (grow_ready_msgs os c w).0
  unfolding grow_ready_msgs
  grow_ready_msgs-RoomyQueue c w h =
      elim (Bool-cases (length c.ready_msgs == c.ready_msgs_capacity)) [
        | inr room ↦ rw room (c.ready_msgs_capacity, refl, ground arith)
        | inl full ↦ elim (Option-cases (os.realloc size w).0) [
          | inl e ↦ rw (full, e) tt
          | inr (a, e) ↦
              rw (full, e)
                (
                  mul_size c.ready_msgs_capacity realloc_factor,
                  refl,
                  let q : length c.ready_msgs ≡ c.ready_msgs_capacity = ground arith in
                      let k : Fits c.ready_msgs_capacity c.ready_msgs_capacity = omega arith in
                      rw q (doubled c.ready_msgs_capacity k (size_in_limit os limit size w e)),
                )
        ]
      ]
    where
      size : ℕ
      size = mul_size (mul_size sizeof_pointer c.ready_msgs_capacity) realloc_factor

  queue_grown :
      (c : Client) (p : MsgPtr) (w : World) (g : Option Client)
      → IsWellformed c
      → RoomyQueue c g
      → (let r : Err × Client × World = elim g [
        | none ↦ (clients_vec_failed_realloc, c, w)
        | some c' ↦ (ok, record c' { ready_msgs = c'.ready_msgs ++ p ∷ [] }, w)
      ] in
          Queues c p r.0 r.1)
  queue_grown c p w none h r = record {
    wellformed = h;
    same_id = refl;
    same_status = refl;
    same_fd = refl;
    same_topics = refl;
    same_options = refl;
    outcome = inr (refl, refl);
  }
  queue_grown c p w (some c') h (n, e, f) = rw e (record {
    wellformed = record {
      paired = h.paired;
      distinct = h.distinct;
      topics_fit = h.topics_fit;
      queue_fits = omega (arith, length-append c.ready_msgs (p ∷ []));
    };
    same_id = refl;
    same_status = refl;
    same_fd = refl;
    same_topics = refl;
    same_options = refl;
    outcome = inl (refl, refl);
  })

  -- With a realloc that refuses sizes beyond PTRDIFF_MAX, putting a message in the queue of a well-formed
  -- client leaves it well formed, with its id, status, socket, topics and options: either the message is
  -- the last of the queue, behind those before, or memory ran out and the client is the same.
  pub push_msg-Queues :
      (c : Client) (p : MsgPtr) (w : World)
      → IsWellformed c
      → Queues c p (push_msg os p c w).0 (push_msg os p c w).1
  unfolding push_msg
  push_msg-Queues c p w h =
      queue_grown c p (grow_ready_msgs os c w).1 (grow_ready_msgs os c w).0 h
        (grow_ready_msgs-RoomyQueue c w h)
