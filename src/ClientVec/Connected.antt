-- ===== src/ClientVec/Connected.antt =====
-- Which sockets the table of clients has after each call.
use mathlib.Core.List.{map-append}
use tcp_client_server.Prelude.{
  ℕ, zero, suc, ◌≡◌, ◌≢◌, ◌⊎◌, refl, ap, inl, inr, true, false, ◌||◌, ◌&&◌, not, List, [], ◌∷◌,
  Option, none, some, Bool-cases, Option-cases, Text, for_first_cases, FirstHit, FirstHit-map,
  map-set_same, get_elem?, set, arith, All,
}
use tcp_client_server.Prelude.Int.{ℤ, eq_ℤ, is_neg}
use tcp_client_server.Errors.{Err, ok, client_vec_client_already_connected}
use tcp_client_server.Os.{Os}
use tcp_client_server.ClientVec.{
  Client, ClientVec, SfOption, MsgPtr, malloc_all, grow_entities, add_client, register_new_client,
  reconnect, close_active_client, new_client,
}
use tcp_client_server.ClientVec.Topics.{
  add_topic, grow_topics, append_topic, subscribe_client_to_topic, push_msg, grow_ready_msgs,
  add_topic_msg_for_client, on_socket, remove_topic, unsubscribe_client_from_topic,
}
use tcp_client_server.ClientVec.Connections.{gone, Closes, close_active_client-Closes}
use tcp_client_server.ClientVec.Lookup.{back_on}
use tcp_client_server.ClientVec.Invariant.{IsValid, IsLinkedClient, Behind, sockets}
use tcp_client_server.ClientVec.Invariant.Sockets.{
  has_socket, has_socket-append, Swap, first, later, Swap-opened, Swap-closed, Swap-member,
}

-- The sockets are those of another table.
abbrev pub SameSockets : ClientVec → ClientVec → Type 0
SameSockets v v' = sockets v'.entities ≡ sockets v.entities

module _ {ℓ} {R : Type ℓ} (fd : ℤ) (act : Client → R × Client)
    (same : (c : Client) → (act c).1.fd ≡ c.fd) where
  on_socket_same :
      (i : ℕ) (x x' : Client) (r : R) → on_socket fd act i x ≡ some (r, x') → x'.fd ≡ x.fd
  unfolding on_socket
  on_socket_same i x x' r e = ground (arith, same x)

  hit_same :
      {xs ys : List Client} {r : R}
      → FirstHit (on_socket fd act) 0 xs r ys
      → sockets ys ≡ sockets xs
  hit_same hit = FirstHit-map (λ c. c.fd) on_socket_same hit

remove_topic_same : (t : Text) (c : Client) → (remove_topic t c).1.fd ≡ c.fd
unfolding remove_topic
remove_topic_same t c = ground arith

pub unsubscribe_client_from_topic-SameSockets :
    (v : ClientVec) (fd : ℤ) (t : Text)
    → Behind (SameSockets v) (unsubscribe_client_from_topic (some v) fd t).1
unfolding unsubscribe_client_from_topic
unsubscribe_client_from_topic-SameSockets v fd t = elim (Bool-cases (is_neg fd)) [
  | inl n ↦ rw (n, unsubscribe_client_from_topic) refl
  | inr n ↦ elim (for_first_cases (on_socket fd (remove_topic t)) 0 v.entities) [
    | inl (e, _) ↦ rw (n, e, unsubscribe_client_from_topic) refl
    | inr (r, ys, e, hit) ↦
        rw (n, e, unsubscribe_client_from_topic)
          (hit_same fd (remove_topic t) (remove_topic_same t) hit)
  ]
]

module _ (os : Os) where
  open os use {World}

  add_topic_same :
      (w : World) (t : Text) (o : SfOption) (c : Client) → (add_topic os w t o c).1.fd ≡ c.fd
  unfolding add_topic grow_topics append_topic
  add_topic_same w t o c = ground arith

  pub subscribe_client_to_topic-SameSockets :
      (v : ClientVec) (fd : ℤ) (t : Text) (o : SfOption) (w : World)
      → Behind (SameSockets v) (subscribe_client_to_topic os (some v) fd t o w).1
  unfolding subscribe_client_to_topic
  subscribe_client_to_topic-SameSockets v fd t o w = elim (Bool-cases (is_neg fd)) [
    | inl n ↦ rw (n, subscribe_client_to_topic) refl
    | inr n ↦ elim (for_first_cases (on_socket fd (add_topic os w t o)) 0 v.entities) [
      | inl (e, _) ↦ rw (n, e, subscribe_client_to_topic) refl
      | inr (r, ys, e, hit) ↦
          rw (n, e, subscribe_client_to_topic)
            (hit_same fd (add_topic os w t o) (add_topic_same w t o) hit)
    ]
  ]

  push_msg_same : (p : MsgPtr) (c : Client) (w : World) → (push_msg os p c w).1.fd ≡ c.fd
  unfolding push_msg grow_ready_msgs
  push_msg_same p c w = ground arith

  pub add_topic_msg_for_client-SameSockets :
      (v : ClientVec) (p : MsgPtr) (i : ℕ) (w : World)
      → Behind (SameSockets v) (add_topic_msg_for_client os (some v) p i w).1
  unfolding add_topic_msg_for_client
  add_topic_msg_for_client-SameSockets v p i w = elim (Option-cases (get_elem? v.entities i)) [
    | inl e ↦ rw (e, add_topic_msg_for_client) refl
    | inr (c, e) ↦
        rw (e, add_topic_msg_for_client)
          (map-set_same (λ c. c.fd) v.entities i (push_msg os p c w).1 e (push_msg_same p c w))
  ]

-- The open sockets, with one more or one less.
abbrev pub Connects : ℤ → ClientVec → ClientVec → Type 0
Connects fd v v' =
    (f : ℤ)
    → is_neg f ≡ false
    → has_socket f (sockets v'.entities) ≡ (has_socket f (sockets v.entities) || eq_ℤ fd f)

abbrev pub Disconnects : ℤ → ClientVec → ClientVec → Type 0
Disconnects fd v v' =
    (f : ℤ)
    → is_neg f ≡ false
    → has_socket f (sockets v'.entities) ≡ (has_socket f (sockets v.entities) && not (eq_ℤ fd f))

set-Swap :
    (xs : List Client) (i : ℕ) (c d : Client)
    → get_elem? xs i ≡ some c
    → Swap c.fd d.fd (sockets xs) (sockets (set xs i d))
set-Swap [] i c d e = cc
set-Swap (x ∷ xs) zero c d e = let q : x ≡ c = cc in rw q first
set-Swap (x ∷ xs) (suc i) c d e = later (set-Swap xs i c d e)

-- `close_active_client` on a descriptor that is not negative takes just this socket from a valid table, or
-- reports an error, for a descriptor that no client has, and changes nothing.
pub close_active_client-Disconnects :
    (v : ClientVec) (fd : ℤ)
    → IsValid v
    → is_neg fd ≡ false
    → ((v' : ClientVec) × ((close_active_client (some v) fd).0 ≡ ok)
        × ((close_active_client (some v) fd).1 ≡ some v')
        × (has_socket fd (sockets v.entities) ≡ true)
        × Disconnects fd v v')
      ⊎ ((has_socket fd (sockets v.entities) ≡ false)
          × ((e : Err) × (e ≢ ok) × (close_active_client (some v) fd ≡ (e, some v, none))))
close_active_client-Disconnects v fd valid p =
    from (close_active_client (some v) fd) (close_active_client-Closes v fd valid)
  where
    from :
        (r : Err × Option ClientVec × Option ℕ)
        → Closes v fd r
        → ((v' : ClientVec) × (r.0 ≡ ok)
            × (r.1 ≡ some v')
            × (has_socket fd (sockets v.entities) ≡ true)
            × Disconnects fd v v')
          ⊎ ((has_socket fd (sockets v.entities) ≡ false)
              × ((e : Err) × (e ≢ ok) × (r ≡ (e, some v, none))))
    from r (Closes.no_socket n) = cc
    from r (Closes.nobody h) = inr (h, (_, (λ q. cc), refl))
    from r (Closes.closed i c e q s) = inl (
      record v { entities = set v.entities i (gone c) },
      refl,
      refl,
      rw (← q) (Swap-member (set-Swap v.entities i c (gone c) e)),
      λ f nf. rw (← q) (
          Swap-closed f (rw q p) refl nf valid.sockets_distinct
            (set-Swap v.entities i c (gone c) e)),
    )

-- What the search of `register_new_client` does to the sockets.
reconnect-sockets :
    (id : Text) (fd : ℤ) {i : ℕ} {xs ys : List Client} {r : Err}
    → All IsLinkedClient xs
    → FirstHit (reconnect id fd) i xs r ys
    → ((r ≡ ok) × ((n : ℤ) × (is_neg n ≡ true) × Swap n fd (sockets xs) (sockets ys)))
      ⊎ ((r ≡ client_vec_client_already_connected) × (sockets ys ≡ sockets xs))
reconnect-sockets id fd link (FirstHit.here {x = x} {x' = x'} {xs = xs} {r = r} e) =
    elim (reconnected id fd _ x x' r link.0 e) [
      | inl (a, n, q) ↦ inl (a, (x.fd, n, rw q first))
      | inr (a, q) ↦ inr (a, ap (λ f. f ∷ sockets xs) (ap (λ c. c.fd) q))
    ]
  where
    reconnected :
        (id : Text) (fd : ℤ) (i : ℕ) (x x' : Client) (r : Err)
        → IsLinkedClient x
        → reconnect id fd i x ≡ some (r, x')
        → ((r ≡ ok) × (is_neg x.fd ≡ true) × (x' ≡ back_on fd x))
          ⊎ ((r ≡ client_vec_client_already_connected) × (x' ≡ x))
    reconnected id fd i x x' r link e = unfold reconnect in ground arith
reconnect-sockets id fd link (FirstHit.there {x = x} e hit) =
    elim (reconnect-sockets id fd link.1 hit) [
      | inl (a, (n, p, s)) ↦ inl (a, (n, p, later s))
      | inr (a, q) ↦ inr (a, ap (◌∷◌ x.fd) q)
    ]

module _ (os : Os) where
  open os use {World}

  -- What `register_new_client` may do to the sockets of a table: it adds the new one and returns OK, or
  -- returns an error and changes none.
  abbrev pub ConnectsOrNot : ClientVec → ℤ → Err × Option ClientVec × World → Type 0
  ConnectsOrNot v fd (e, o, w) =
      (v' : ClientVec) × (o ≡ some v')
      × (((e ≡ ok) × Connects fd v v') ⊎ ((e ≢ ok) × SameSockets v v'))

  added :
      (v v' : ClientVec) (id : Text) (fd : ℤ) (w : World)
      → v'.entities ≡ v.entities
      → ConnectsOrNot v fd (add_client os v' id fd w)
  unfolding add_client new_client
  added v v' id fd w same = elim (Bool-cases (malloc_all os sizes w).0) [
    | inl e ↦
        rw (e, add_client)
          (
            _,
            refl,
            inl (refl, λ f nf. rw (same, map-append) (has_socket-append f fd (sockets v.entities))),
          )
    | inr e ↦ rw (e, add_client) (_, refl, inr ((λ q. cc), ap sockets same))
  ]
    where
      sizes : List ℕ
      sizes = 10 ∷ 80 ∷ 40 ∷ 80 ∷ []

  grown :
      (v : ClientVec) (w : World) (v' : ClientVec)
      → (grow_entities os v w).0 ≡ some v'
      → v'.entities ≡ v.entities
  unfolding grow_entities
  grown v w v' e = ground arith

  pub register_new_client-ConnectsOrNot :
      (v : ClientVec) (id : Text) (fd : ℤ) (w : World)
      → IsValid v
      → ConnectsOrNot v fd (register_new_client os (some v) id fd w)
  unfolding register_new_client
  register_new_client-ConnectsOrNot v id fd w valid =
      elim (for_first_cases (reconnect id fd) 0 v.entities) [
        | inr (r, ys, e, hit) ↦ elim (reconnect-sockets id fd valid.linked hit) [
          | inl (a, (n, p, s)) ↦
              rw (e, register_new_client) (_, refl, inl (a, λ f nf. Swap-opened f p nf s))
          | inr (a, q) ↦ rw (e, register_new_client) (_, refl, inr ((λ b. cc), q))
        ]
        | inl (e, _) ↦ elim (Option-cases (grow_entities os v w).0) [
          | inl g ↦ rw (e, g, register_new_client) (_, refl, inr ((λ b. cc), refl))
          | inr (v', g) ↦ rw (e, g, register_new_client) (added v v' id fd _ (grown v w v' g))
        ]
      ]
