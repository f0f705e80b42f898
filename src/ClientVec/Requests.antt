-- ===== src/ClientVec/Requests.antt =====
-- What the requests of clients change in the map from sockets and topics to options.
use tcp_client_server.Prelude.{
  ◌≡◌, ap, ◌∙◌, inl, inr, List, some, arith, Bool-cases, for_first_cases, All, Text, str_eq,
}
use tcp_client_server.Prelude.Int.{ℤ, is_neg}
use tcp_client_server.Errors.{Err}
use tcp_client_server.Os.{Os}
use tcp_client_server.Os.Laws.{ReallocLimit}
use tcp_client_server.ClientVec.{Client, ClientVec, SfOption}
use tcp_client_server.ClientVec.Topics.{
  on_socket, remove_topic, add_topic, grow_topics, append_topic, unsubscribe_client_from_topic,
  subscribe_client_to_topic,
}
use tcp_client_server.ClientVec.Subscriptions.{subscription}
use tcp_client_server.ClientVec.Wellformed.{IsWellformed, add_topic-Subscribes}
use tcp_client_server.ClientVec.Removal.{remove_topic-Unsubscribes}
use tcp_client_server.ClientVec.Subscribers.{
  Acted, hit-Acted, missed, SubscribesOn, UnsubscribesOn, no_socket, nobody, takes, out_of_memory,
  leaves, not_subscribed, at_entry, same_entry, at_socket,
}

remove_topic_fd : (t : Text) (c : Client) → (remove_topic t c).1.fd ≡ c.fd
unfolding remove_topic
remove_topic_fd t c = ground arith

-- In a table of well-formed clients, `unsubscribe_client_from_topic` takes the topic from the client on
-- the socket if it has it, and reports that it has not otherwise; for a negative descriptor or one
-- without a client it reports an error and changes nothing. No other entry of the map from sockets and
-- topics to options changes.
pub unsubscribe_client_from_topic-UnsubscribesOn :
    (v : ClientVec) (fd : ℤ) (t : Text)
    → All IsWellformed v.entities
    → UnsubscribesOn v fd t (unsubscribe_client_from_topic (some v) fd t)
unfolding unsubscribe_client_from_topic
unsubscribe_client_from_topic-UnsubscribesOn v fd t h = elim (Bool-cases (is_neg fd)) [
  | inl n ↦ rw (n, unsubscribe_client_from_topic) (no_socket n)
  | inr p ↦ elim (for_first_cases (on_socket fd (remove_topic t)) 0 v.entities) [
    | inl (e, m) ↦
        rw (p, e, unsubscribe_client_from_topic)
          (nobody (missed fd (remove_topic t) (remove_topic_fd t) 0 v.entities m))
    | inr (r, ys, e, hit) ↦
        rw (p, e, unsubscribe_client_from_topic)
          (left r ys (hit-Acted fd (remove_topic t) (remove_topic_fd t) IsWellformed hit h))
  ]
]
  where
    left :
        (r : Err) (ys : List Client)
        → Acted fd (remove_topic t) (remove_topic_fd t) IsWellformed v.entities ys r
        → UnsubscribesOn v fd t (r, some (record v { entities = ys }))
    left r ys a =
        let (_, _, ends) = remove_topic-Unsubscribes a.client t a.fits in
        elim ends [
          | inl (o, e, had, now) ↦
              rw (a.answer, e)
                (leaves ys o (a.before t ∙ had) (λ f u.
                  at_entry fd f (str_eq t u) _ _ _ _ _ (a.after f u) (now u)
                    (at_socket v.entities fd f u _ (a.before u))))
          | inr (e, had, now) ↦
              rw (a.answer, e)
                (not_subscribed ys a.there (a.before t ∙ had) (λ f u.
                  same_entry fd f _ _ _ _ (a.after f u) (ap (λ c. subscription c u) now)
                    (at_socket v.entities fd f u _ (a.before u))))
        ]

module _ (os : Os) (limit : ReallocLimit os) where
  open os use {World}

  add_topic_fd :
      (w : World) (t : Text) (o : SfOption) (c : Client) → (add_topic os w t o c).1.fd ≡ c.fd
  unfolding add_topic grow_topics append_topic
  add_topic_fd w t o c = ground arith

  -- With a realloc that refuses sizes beyond PTRDIFF_MAX, in a table of well-formed clients:
  -- `subscribe_client_to_topic` gives the client on the socket the topic under the option, or runs out
  -- of memory and leaves all topics as they were; for a negative descriptor or one without a client it
  -- reports an error and changes nothing. No other entry of the map from sockets and topics to options
  -- changes.
  pub subscribe_client_to_topic-SubscribesOn :
      (v : ClientVec) (fd : ℤ) (t : Text) (o : SfOption) (w : World)
      → All IsWellformed v.entities
      → SubscribesOn os v fd t o w (subscribe_client_to_topic os (some v) fd t o w)
  unfolding subscribe_client_to_topic
  subscribe_client_to_topic-SubscribesOn v fd t o w h = elim (Bool-cases (is_neg fd)) [
    | inl n ↦ rw (n, subscribe_client_to_topic) (no_socket n)
    | inr p ↦ elim (for_first_cases (on_socket fd (add_topic os w t o)) 0 v.entities) [
      | inl (e, m) ↦
          rw (p, e, subscribe_client_to_topic)
            (nobody (missed fd (add_topic os w t o) (add_topic_fd w t o) 0 v.entities m))
      | inr (r, ys, e, hit) ↦
          rw (p, e, subscribe_client_to_topic)
            (taken r ys (hit-Acted fd (add_topic os w t o) (add_topic_fd w t o) IsWellformed hit h))
    ]
  ]
    where
      taken :
          (r : Err × World) (ys : List Client)
          → Acted fd (add_topic os w t o) (add_topic_fd w t o) IsWellformed v.entities ys r
          → SubscribesOn os v fd t o w (r.0, some (record v { entities = ys }), r.1)
      taken r ys a =
          let (_, _, ends) = add_topic-Subscribes os limit a.client t o w a.fits in
          elim ends [
            | inl (e, now) ↦
                rw (a.answer, e)
                  (takes ys (add_topic os w t o a.client).0.1 a.there (λ f u.
                    at_entry fd f (str_eq t u) _ _ _ _ _ (a.after f u) (now u)
                      (at_socket v.entities fd f u _ (a.before u))))
            | inr (e, now) ↦
                rw (a.answer, e)
                  (out_of_memory ys (add_topic os w t o a.client).0.1 a.there (λ f u.
                    same_entry fd f _ _ _ _ (a.after f u) (now u)
                      (at_socket v.entities fd f u _ (a.before u))))
          ]
