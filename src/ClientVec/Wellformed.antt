-- ===== src/ClientVec/Wellformed.antt =====
-- A client's record stays well formed, and its topics are the map that its commands describe.
use tcp_client_server.Prelude.{
  ℕ, ◌+◌, ◌*◌, ◌≤◌, ◌<◌, ◌≡◌, ◌⊎◌, refl, ◌∙◌, inl, inr, false, [], ◌∷◌, Option, none, some, arith,
  ◌==◌, if◌then◌else◌, Bool-cases, Option-cases, length, length-append, zero-add, Text, str_eq,
  length-set,
}
use tcp_client_server.Prelude.Int.{ℤ}
use tcp_client_server.Errors.{Err, ok, clients_vec_cound_not_add_a_topic}
use tcp_client_server.Os.{Os, mul_size, realloc_factor}
use tcp_client_server.Os.Laws.{ReallocLimit, ptrdiff_max, size_in_limit}
use tcp_client_server.ClientVec.{Client, SfOption, sizeof_pointer, sizeof_option, new_client}
use tcp_client_server.ClientVec.Topics.{grow_topics, append_topic, add_topic}
use tcp_client_server.ClientVec.Subscriptions.{
  subscription, Distinct, has, find_topic_cases, option_of-set, option_of-append, Distinct-append,
}

-- An array of pointers with `n` cells in use, of `capacity`.
pub record Fits (n capacity : ℕ) : Type 0 where
  pub in_array : n ≤ capacity
  pub has_room : 0 < capacity
  pub small : sizeof_pointer * capacity ≤ ptrdiff_max

pub record IsWellformed (c : Client) : Type 0 where
  pub paired : length c.options ≡ length c.topics
  pub distinct : Distinct c.topics
  pub topics_fit : Fits (length c.topics) c.topic_capacity
  pub queue_fits : Fits (length c.ready_msgs) c.ready_msgs_capacity

-- All but the topics, the options and their capacity.
abbrev pub Keeps : Client → Client → Type 0
Keeps c c' =
    (c'.id ≡ c.id)
    × (c'.status ≡ c.status)
    × (c'.fd ≡ c.fd)
    × (c'.ready_msgs ≡ c.ready_msgs)
    × (c'.ready_msgs_capacity ≡ c.ready_msgs_capacity)

pub doubled :
    (capacity : ℕ)
    → Fits capacity capacity
    → mul_size (mul_size sizeof_pointer capacity) realloc_factor ≤ ptrdiff_max
    → Fits (capacity + 1) (mul_size capacity realloc_factor)
doubled capacity f h = omega arith

pub new_client-IsWellformed : (id : Text) (fd : ℤ) → IsWellformed (new_client id fd)
unfolding new_client
new_client-IsWellformed id fd = omega arith

module _ (os : Os) (limit : ReallocLimit os) where
  open os use {World}

  -- What `grow_topics` gives back: the same client, with room for one more topic.
  abbrev Roomy : Client → Option Client → Type 0
  Roomy c none = Unit
  Roomy c (some c') =
      (n : ℕ) × (c' ≡ record c { topic_capacity = n }) × Fits (length c.topics + 1) n

  grow_topics-Roomy : (c : Client) (w : World) → IsWellformed c → Roomy c (grow_topics os c w).0
  unfolding grow_topics
  grow_topics-Roomy c w h = elim (Bool-cases (length c.topics == c.topic_capacity)) [
    | inr room ↦ rw room (c.topic_capacity, refl, ground arith)
    | inl full ↦ elim (Option-cases (os.realloc size w).0) [
      | inl e ↦ rw (full, e) tt
      | inr (a, e) ↦ elim (Option-cases (os.realloc size' (os.realloc size w).1).0) [
        | inl e' ↦ rw (full, e, e') tt
        | inr (a', e') ↦
            rw (full, e, e')
              (
                mul_size c.topic_capacity realloc_factor,
                refl,
                let q : length c.topics ≡ c.topic_capacity = ground arith in
                    let k : Fits c.topic_capacity c.topic_capacity = omega arith in
                    rw q (doubled c.topic_capacity k (size_in_limit os limit size w e)),
              )
      ]
    ]
  ]
    where
      size : ℕ
      size = mul_size (mul_size sizeof_pointer c.topic_capacity) realloc_factor

      size' : ℕ
      size' = mul_size (mul_size sizeof_option c.topic_capacity) realloc_factor

  -- What `add_topic` may do: the client takes the topic under the option, in place of any other option
  -- that it had for it, or memory ran out and the topics are as they were.
  abbrev pub Subscribes : Client → Text → SfOption → (Err × World) × Client → Type 0
  Subscribes c t o ((e, w), c') =
      IsWellformed c'
      × Keeps c c'
      × (((e ≡ ok)
            × ((u : Text) → subscription c' u ≡ (if str_eq t u then some o else subscription c u)))
          ⊎ ((e ≡ clients_vec_cound_not_add_a_topic)
              × ((u : Text) → subscription c' u ≡ subscription c u)))

  append_topic-Subscribes :
      (c : Client) (n : ℕ) (t : Text) (o : SfOption) (w : World)
      → IsWellformed c
      → Fits (length c.topics + 1) n
      → has t c.topics ≡ false
      → Subscribes c t o (append_topic os t o (record c { topic_capacity = n }) w)
  unfolding append_topic
  append_topic-Subscribes c n t o w h f absent =
      elim (Option-cases (os.malloc (length t + 1) w).0) [
        | inl e ↦
            rw (e, append_topic)
              (
                record {
                  paired = h.paired;
                  distinct = h.distinct;
                  topics_fit = omega arith;
                  queue_fits = h.queue_fits;
                },
                (refl, refl, refl, refl, refl),
                inr (refl, λ u. refl),
              )
        | inr (a, e) ↦
            rw (e, append_topic)
              (
                record {
                  paired = omega (
                    arith,
                    h.paired,
                    length-append c.options (o ∷ []),
                    length-append c.topics (t ∷ []),
                  );
                  distinct = Distinct-append t c.topics absent h.distinct;
                  topics_fit = omega (arith, length-append c.topics (t ∷ []));
                  queue_fits = h.queue_fits;
                },
                (refl, refl, refl, refl, refl),
                inl (refl, λ u. option_of-append t u o c.topics c.options absent h.paired),
              )
      ]

  pub add_topic-Subscribes :
      (c : Client) (t : Text) (o : SfOption) (w : World)
      → IsWellformed c
      → Subscribes c t o (add_topic os w t o c)
  unfolding add_topic
  add_topic-Subscribes c t o w h = elim (find_topic_cases t 0 c.topics) [
    | inr (j, e, l, at) ↦
        rw (e, add_topic)
          (
            record {
              paired = length-set c.options (0 + j) o ∙ h.paired;
              distinct = h.distinct;
              topics_fit = h.topics_fit;
              queue_fits = h.queue_fits;
            },
            (refl, refl, refl, refl, refl),
            inl (refl, λ u. rw zero-add (option_of-set t u o j c.topics c.options at h.paired)),
          )
    | inl (e, absent) ↦
        rw (e, add_topic) (after_growing (grow_topics os c w).0 (grow_topics-Roomy c w h) absent)
  ]
    where
      after_growing :
          (g : Option Client)
          → Roomy c g
          → has t c.topics ≡ false
          → Subscribes c t o (elim g [
            | none ↦ ((clients_vec_cound_not_add_a_topic, (grow_topics os c w).1), c)
            | some c' ↦ append_topic os t o c' (grow_topics os c w).1
          ])
      after_growing none r absent = (h, (refl, refl, refl, refl, refl), inr (refl, λ u. refl))
      after_growing (some c') (n, e, f) absent =
          rw e (append_topic-Subscribes c n t o (grow_topics os c w).1 h f absent)
