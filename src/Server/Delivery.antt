-- ===== src/Server/Delivery.antt =====
-- A message in the queues of the clients that store it.
use tcp_client_server.Prelude.{
  ℕ, zero, suc, ◌≡◌, ◌⊎◌, refl, sym, ap, inl, inr, false, List, [], ◌∷◌, ◌++◌, none, some, arith,
  ◌==◌, Bool-cases, Option-cases, length, set, get_elem?, zero-add, Text, str_eq_refl,
}
use tcp_client_server.Errors.{ok, clients_vec_failed_realloc}
use tcp_client_server.Os.{Os, mul_size, realloc_factor}
use tcp_client_server.ClientVec.{Client, MsgPtr, SfOption, sf, no_sf, active, dead}
use tcp_client_server.ClientVec.Topics.{grow_ready_msgs, push_msg}
use tcp_client_server.ClientVec.Subscriptions.{
  option_of, subscription, has, FindsAt, find_topic_cases, option_of-absent,
}
use tcp_client_server.ClientVec.Wellformed.{IsWellformed}
use tcp_client_server.Server.Handlers.{option_for}

-- Before and after: a dead client that has the topic with store-and-forward has the message behind its
-- queue, perhaps in a larger array, and any other client is the same.
pub data Delivered (t : Text) (p : MsgPtr) : Client → Client → Type 0 where
  queued :
      {c : Client} (capacity : ℕ)
      → c.status ≡ dead
      → subscription c t ≡ some sf
      → Delivered t p c
          (record c { ready_msgs = c.ready_msgs ++ p ∷ []; ready_msgs_capacity = capacity })
  to_active : {c : Client} → c.status ≡ active → Delivered t p c c
  not_stored :
      {c : Client} → (subscription c t ≡ none) ⊎ (subscription c t ≡ some no_sf) → Delivered t p c c

pub data AllDelivered (t : Text) (p : MsgPtr) : List Client → List Client → Type 0 where
  none_left : AllDelivered t p [] []
  one_more :
      {c c' : Client} {cs cs' : List Client}
      → Delivered t p c c'
      → AllDelivered t p cs cs'
      → AllDelivered t p (c ∷ cs) (c' ∷ cs')

option_at :
    (t : Text) (j : ℕ) (ts : List Text) (os : List SfOption)
    → FindsAt t j ts
    → length os ≡ length ts
    → get_elem? os j ≡ option_of ts os t
unfolding option_of
option_at t j [] os h e = absurd h
option_at t j (s ∷ ss) [] h e = absurd (omega arith)
option_at t zero (s ∷ ss) (o ∷ os) h e = rw h refl
option_at t (suc j) (s ∷ ss) (o ∷ os) h e = rw h.0 (option_at t j ss os h.1 (omega arith))

-- The option that the loop finds is the one of the client's subscription.
pub option_for-subscription :
    (t : Text) (c : Client) → IsWellformed c → option_for t c ≡ subscription c t
unfolding option_for
option_for-subscription t c h = elim (find_topic_cases t 0 c.topics) [
  | inl (e, absent) ↦ rw (e, option_for) (sym (absent_topic absent))
  | inr (j, e, l, at) ↦
      rw (e, option_for, zero-add j) (option_at t j c.topics c.options at h.paired)
]
  where
    absent_topic : has t c.topics ≡ false → subscription c t ≡ none
    absent_topic absent = option_of-absent t t c.topics c.options absent (str_eq_refl t)

pub get_elem?-middle :
    (xs : List Client) (c : Client) (ys : List Client) (n : ℕ)
    → length xs ≡ n
    → get_elem? (xs ++ c ∷ ys) n ≡ some c
get_elem?-middle [] c ys zero e = refl
get_elem?-middle [] c ys (suc n) e = absurd (omega arith)
get_elem?-middle (x ∷ xs) c ys zero e = absurd (omega arith)
get_elem?-middle (x ∷ xs) c ys (suc n) e = get_elem?-middle xs c ys n (omega arith)

pub set-middle :
    (xs : List Client) (c c' : Client) (ys : List Client) (n : ℕ)
    → length xs ≡ n
    → set (xs ++ c ∷ ys) n c' ≡ xs ++ c' ∷ ys
set-middle [] c c' ys zero e = refl
set-middle [] c c' ys (suc n) e = absurd (omega arith)
set-middle (x ∷ xs) c c' ys zero e = absurd (omega arith)
set-middle (x ∷ xs) c c' ys (suc n) e = ap (◌∷◌ x) (set-middle xs c c' ys n (omega arith))

module _ (os : Os) where
  open os use {World}

  grow_ready_msgs_cases :
      (c : Client) (w : World)
      → ((grow_ready_msgs os c w).0 ≡ none)
        ⊎ ((capacity : ℕ) × ((grow_ready_msgs os c w).0
              ≡ some (record c { ready_msgs_capacity = capacity })))
  unfolding grow_ready_msgs
  grow_ready_msgs_cases c w = elim (Bool-cases (length c.ready_msgs == c.ready_msgs_capacity)) [
    | inr room ↦ inr (c.ready_msgs_capacity, rw room refl)
    | inl full ↦ elim (Option-cases (os.realloc size w).0) [
      | inl e ↦ inl (rw (full, e) refl)
      | inr (a, e) ↦ inr (mul_size c.ready_msgs_capacity realloc_factor, rw (full, e) refl)
    ]
  ]
    where
      size : ℕ
      size = mul_size (mul_size 8 c.ready_msgs_capacity) realloc_factor

  pub push_msg_cases :
      (p : MsgPtr) (c : Client) (w : World)
      → ((push_msg os p c w).0 ≡ clients_vec_failed_realloc)
        ⊎ (((push_msg os p c w).0 ≡ ok)
            × ((capacity : ℕ) × ((push_msg os p c w).1 ≡ record c {
              ready_msgs = c.ready_msgs ++ p ∷ [];
              ready_msgs_capacity = capacity;
            })))
  unfolding push_msg
  push_msg_cases p c w = elim (grow_ready_msgs_cases c w) [
    | inl e ↦ inl (rw (e, push_msg) refl)
    | inr (capacity, e) ↦ inr (rw (e, push_msg) refl, (capacity, rw (e, push_msg) refl))
  ]
