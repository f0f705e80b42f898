-- ===== src/ClientVec/Subscribers.antt =====
-- The topics of all clients, by their sockets: subscribing and unsubscribing change one entry of a map
-- from sockets and topics to options.
use tcp_client_server.Prelude.{
  ℕ, suc, ◌≡◌, refl, sym, ap, ◌∙◌, inl, inr, Bool, true, false, List, [], ◌∷◌, Option, none, some,
  ◌&&◌, arith, if◌then◌else◌, Bool-cases, FirstHit, Missed, All, Text, str_eq,
}
use tcp_client_server.Prelude.Int.{ℤ, eq_ℤ, eq_ℤ_iff, is_neg}
use tcp_client_server.Errors.{
  Err, ok, clients_vec_input_fd_idx_invalid, clients_vec_client_not_found,
  clients_vec_cound_not_add_a_topic, clients_vec_cound_not_find_topic,
}
use tcp_client_server.Os.{Os}
use tcp_client_server.ClientVec.{Client, ClientVec, SfOption}
use tcp_client_server.ClientVec.Topics.{on_socket}
use tcp_client_server.ClientVec.Subscriptions.{subscription}
use tcp_client_server.ClientVec.Invariant.{sockets}
use tcp_client_server.ClientVec.Invariant.Sockets.{has_socket}

-- The option under which the first client on a socket has a topic.
unfoldable pub subscribed : List Client → ℤ → Text → Option SfOption
subscribed [] fd t = none
subscribed (c ∷ cs) fd t = if eq_ℤ c.fd fd then subscription c t else subscribed cs fd t

found_test {ℓ} :
    {A : Type ℓ} (a fd f : ℤ) (x y z : A)
    → eq_ℤ a fd ≡ true
    → (if eq_ℤ a f then x else z) ≡ (if eq_ℤ fd f then x else (if eq_ℤ a f then y else z))
found_test a fd f x y z e = ground (arith, eq_ℤ_iff a fd)

other_test {ℓ} :
    {A : Type ℓ} (a fd f : ℤ) (x y z : A)
    → eq_ℤ a fd ≡ false
    → (if eq_ℤ a f then x else (if eq_ℤ fd f then y else z))
      ≡ (if eq_ℤ fd f then y else (if eq_ℤ a f then x else z))
other_test a fd f x y z e = ground (arith, eq_ℤ_iff a fd, eq_ℤ_iff a f, eq_ℤ_iff fd f)

module _ {ℓ} {R : Type ℓ} (fd : ℤ) (act : Client → R × Client)
    (same_fd : (c : Client) → (act c).1.fd ≡ c.fd) where
  -- The client `c` on the socket was acted on, with the result `r`; `xs` became `ys`.
  pub record Acted {κ} (P : Client → Type κ) (xs ys : List Client) (r : R) : Type (ℓ ⊔ κ) where
    pub client : Client
    pub fits : P client
    pub answer : r ≡ (act client).0
    pub there : has_socket fd (sockets xs) ≡ true
    pub before : (u : Text) → subscribed xs fd u ≡ subscription client u
    pub after :
        (f : ℤ) (u : Text)
        → subscribed ys f u
          ≡ (if eq_ℤ fd f then subscription (act client).1 u else subscribed xs f u)

  acted :
      (i : ℕ) (x x' : Client) (r : R)
      → on_socket fd act i x ≡ some (r, x')
      → (eq_ℤ x.fd fd ≡ true) × (r ≡ (act x).0) × (x' ≡ (act x).1)
  unfolding on_socket
  acted i x x' r e = ground arith

  other : (i : ℕ) (x : Client) → on_socket fd act i x ≡ none → eq_ℤ x.fd fd ≡ false
  unfolding on_socket
  other i x e = ground arith

  pub hit-Acted {κ} :
      (P : Client → Type κ) {i : ℕ} {xs ys : List Client} {r : R}
      → FirstHit (on_socket fd act) i xs r ys
      → All P xs
      → Acted P xs ys r
  unfolding subscribed has_socket
  hit-Acted P (FirstHit.here {i = i} {x = x} {x' = x'} {xs = xs} {r = r} e) h =
      let (q, a, b) = acted i x x' r e in
      record {
        client = x;
        fits = h.0;
        answer = a;
        there = rw q refl;
        before = λ u. rw q refl;
        after = λ f u. rw (b, same_fd x) (found_test x.fd fd f _ _ _ q);
      }
  hit-Acted P (FirstHit.there {i = i} {x = x} {xs = xs} {ys = ys} e hit) h =
      let k = hit-Acted P hit h.1 in
      let q = other i x e in
      record {
        client = k.client;
        fits = k.fits;
        answer = k.answer;
        there = rw (q, k.there) refl;
        before = λ u. rw q (k.before u);
        after = λ f u. rw (k.after f u) (other_test x.fd fd f _ _ _ q);
      }

  pub missed :
      (i : ℕ) (xs : List Client)
      → Missed (on_socket fd act) i xs
      → has_socket fd (sockets xs) ≡ false
  unfolding has_socket
  missed i [] m = refl
  missed i (x ∷ xs) m = rw (other i x m.0) (missed (suc i) xs m.1)

-- What `subscribe_client_to_topic` may do: the client on the socket has the topic under the option,
-- memory ran out, or no client is there. No other entry changes.
module _ (os : Os) where
  open os use {World}

  pub data SubscribesOn (v : ClientVec) (fd : ℤ) (t : Text) (o : SfOption) (w : World)
      : Err × Option ClientVec × World → Type 0 where
    no_socket :
        is_neg fd ≡ true → SubscribesOn v fd t o w (clients_vec_input_fd_idx_invalid, some v, w)
    nobody :
        has_socket fd (sockets v.entities) ≡ false
        → SubscribesOn v fd t o w (clients_vec_client_not_found, some v, w)
    takes :
        (ys : List Client) (w' : World)
        → has_socket fd (sockets v.entities) ≡ true
        → ((f : ℤ) (u : Text)
            → subscribed ys f u
              ≡ (if eq_ℤ fd f && str_eq t u then some o else subscribed v.entities f u))
        → SubscribesOn v fd t o w (ok, some (record v { entities = ys }), w')
    out_of_memory :
        (ys : List Client) (w' : World)
        → has_socket fd (sockets v.entities) ≡ true
        → ((f : ℤ) (u : Text) → subscribed ys f u ≡ subscribed v.entities f u)
        → SubscribesOn v fd t o w
            (clients_vec_cound_not_add_a_topic, some (record v { entities = ys }), w')

-- The same for `unsubscribe_client_from_topic`.
pub data UnsubscribesOn (v : ClientVec) (fd : ℤ) (t : Text) : Err × Option ClientVec → Type 0 where
  no_socket : is_neg fd ≡ true → UnsubscribesOn v fd t (clients_vec_input_fd_idx_invalid, some v)
  nobody :
      has_socket fd (sockets v.entities) ≡ false
      → UnsubscribesOn v fd t (clients_vec_client_not_found, some v)
  leaves :
      (ys : List Client) (o : SfOption)
      → subscribed v.entities fd t ≡ some o
      → ((f : ℤ) (u : Text)
          → subscribed ys f u
            ≡ (if eq_ℤ fd f && str_eq t u then none else subscribed v.entities f u))
      → UnsubscribesOn v fd t (ok, some (record v { entities = ys }))
  not_subscribed :
      (ys : List Client)
      → has_socket fd (sockets v.entities) ≡ true
      → subscribed v.entities fd t ≡ none
      → ((f : ℤ) (u : Text) → subscribed ys f u ≡ subscribed v.entities f u)
      → UnsubscribesOn v fd t (clients_vec_cound_not_find_topic, some (record v { entities = ys }))

-- An entry of the map of all clients, from the client's own map.
pub at_entry {ℓ} :
    {A : Type ℓ} (fd f : ℤ) (b : Bool) (x y own own_old old : A)
    → x ≡ (if eq_ℤ fd f then own else old)
    → own ≡ (if b then y else own_old)
    → (eq_ℤ fd f ≡ true → old ≡ own_old)
    → x ≡ (if eq_ℤ fd f && b then y else old)
at_entry fd f b x y own own_old old p q r = elim (Bool-cases (eq_ℤ fd f)) [
  | inl e ↦ let z = r e in ground arith
  | inr e ↦ ground arith
]

pub same_entry {ℓ} :
    {A : Type ℓ} (fd f : ℤ) (x own own_old old : A)
    → x ≡ (if eq_ℤ fd f then own else old)
    → own ≡ own_old
    → (eq_ℤ fd f ≡ true → old ≡ own_old)
    → x ≡ old
same_entry fd f x own own_old old p q r = elim (Bool-cases (eq_ℤ fd f)) [
  | inl e ↦ let z = r e in ground arith
  | inr e ↦ ground arith
]

pub at_socket :
    (xs : List Client) (fd f : ℤ) (u : Text) (o : Option SfOption)
    → subscribed xs fd u ≡ o
    → eq_ℤ fd f ≡ true
    → subscribed xs f u ≡ o
at_socket xs fd f u o e q = ap (λ g. subscribed xs g u) (sym ((eq_ℤ_iff fd f).0 q)) ∙ e
