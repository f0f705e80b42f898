-- ===== src/ClientVec/Connections.antt =====
-- A client that leaves and comes back: `close_active_client`, `get_client_id` and
-- `register_new_client` on the table of clients.
use tcp_client_server.Prelude.{
  ℕ, zero, suc, ◌+◌, ◌≡◌, refl, ap, ◌∙◌, inl, inr, true, false, List, [], ◌∷◌, Option, none, some,
  arith, Bool-cases, for_first, for_first_cases, FirstHit, Missed, All, Text, str_eq, str_eq_iff,
  str_eq_refl, set, get_elem?, zero-add,
}
use tcp_client_server.Prelude.Int.{ℤ, negsuc, eq_ℤ_iff, is_neg}
use tcp_client_server.Errors.{
  Err, ok, clients_vec_input_fd_idx_invalid, clients_vec_close_client_not_found,
}
use tcp_client_server.Os.{Os}
use tcp_client_server.ClientVec.{
  active, dead, Client, ClientVec, reconnect, disconnect, close_active_client, get_client_id,
  register_new_client,
}
use tcp_client_server.ClientVec.Lookup.{back_on}
use tcp_client_server.ClientVec.Subscriptions.{Distinct, has}
use tcp_client_server.ClientVec.Invariant.{IsValid, IsLinkedClient, ids, sockets}
use tcp_client_server.ClientVec.Invariant.Sockets.{has_socket}

-- A client without a connection: all but its socket and status is kept.
abbrev pub gone : Client → Client
gone c = record c { status = dead; fd = negsuc 0 }

-- What `close_active_client` may do in a valid table.
pub data Closes (v : ClientVec) (fd : ℤ) : Err × Option ClientVec × Option ℕ → Type 0 where
  no_socket : is_neg fd ≡ true → Closes v fd (clients_vec_input_fd_idx_invalid, some v, none)
  nobody :
      has_socket fd (sockets v.entities) ≡ false
      → Closes v fd (clients_vec_close_client_not_found, some v, none)
  closed :
      (i : ℕ) (c : Client)
      → get_elem? v.entities i ≡ some c
      → c.fd ≡ fd
      → c.status ≡ active
      → Closes v fd (ok, some (record v { entities = set v.entities i (gone c) }), some i)

-- The client on the socket, at index `k` from `i` on, is gone.
abbrev Gone : ℤ → ℕ → List Client → List Client → Err × Option ℕ → Type 0
Gone fd i xs ys r =
    (k : ℕ) × (c : Client) × (get_elem? xs k ≡ some c)
    × (c.fd ≡ fd)
    × (c.status ≡ active)
    × (r ≡ (ok, some (i + k)))
    × (ys ≡ set xs k (gone c))

hit_here :
    (fd : ℤ) (i : ℕ) (x x' : Client) (r : Err × Option ℕ)
    → is_neg fd ≡ false
    → IsLinkedClient x
    → disconnect fd i x ≡ some (r, x')
    → (x.fd ≡ fd) × (x.status ≡ active) × (r ≡ (ok, some i)) × (x' ≡ gone x)
unfolding disconnect
hit_here fd i x x' r p link e = ground (arith, eq_ℤ_iff x.fd fd)

hit-Gone :
    (fd : ℤ) {i : ℕ} {xs ys : List Client} {r : Err × Option ℕ}
    → is_neg fd ≡ false
    → All IsLinkedClient xs
    → FirstHit (disconnect fd) i xs r ys
    → Gone fd i xs ys r
hit-Gone fd p link (FirstHit.here {i = i} {x = x} {x' = x'} {xs = xs} {r = r} e) =
    let (a, b, c, d) = hit_here fd i x x' r p link.0 e in
    (0, x, refl, a, b, c ∙ ap (λ j. (ok, some j)) (omega arith), ap (λ y. y ∷ xs) d)
hit-Gone fd p link (FirstHit.there {i = i} {x = x} {r = r} e hit) =
    let (k, c, a, b, s, q, d) = hit-Gone fd p link.1 hit in
    (suc k, c, a, b, s, q ∙ ap (λ j. (ok, some j)) (omega arith), ap (◌∷◌ x) d)

missed :
    (fd : ℤ) (i : ℕ) (xs : List Client)
    → Missed (disconnect fd) i xs
    → has_socket fd (sockets xs) ≡ false
unfolding has_socket disconnect
missed fd i [] m = refl
missed fd i (x ∷ xs) m = let h = missed fd (suc i) xs m.1 in let e = m.0 in ground arith

-- In a valid table, `close_active_client` finds the client on an open socket, keeps everything of it but
-- the socket and the status, writes its index, and leaves the other clients as they were. For a
-- negative descriptor or one without a client it reports an error and changes nothing; the error
-- for a client that is dead already is never reported.
pub close_active_client-Closes :
    (v : ClientVec) (fd : ℤ) → IsValid v → Closes v fd (close_active_client (some v) fd)
unfolding close_active_client
close_active_client-Closes v fd valid = elim (Bool-cases (is_neg fd)) [
  | inl n ↦ rw (n, close_active_client) (no_socket n)
  | inr p ↦ elim (for_first_cases (disconnect fd) 0 v.entities) [
    | inl (e, m) ↦ rw (p, e, close_active_client) (nobody (missed fd 0 v.entities m))
    | inr (r, ys, e, hit) ↦
        rw (p, e, close_active_client) (found r ys (hit-Gone fd p valid.linked hit))
  ]
]
  where
    found :
        (r : Err × Option ℕ) (ys : List Client)
        → Gone fd 0 v.entities ys r
        → Closes v fd (r.0, some (record v { entities = ys }), r.1)
    found r ys (k, c, a, b, s, q, d) = rw (q, d, zero-add k) (closed k c a b s)

not_the_id :
    (ys : List Client) (k : ℕ) (c : Client) (id : Text)
    → has id (ids ys) ≡ false
    → get_elem? ys k ≡ some c
    → str_eq id c.id ≡ false
unfolding has
not_the_id [] k c id h e = cc
not_the_id (y ∷ ys) zero c id h e =
    let q : y ≡ c = cc in ground (arith, ap (λ z. z.id) q, str_eq_iff y.id id, str_eq_iff id c.id)
not_the_id (y ∷ ys) (suc k) c id h e = not_the_id ys k c id (ground arith) e

-- The search for the id of a client that is gone finds it again, and not another client before it.
reconnect-gone :
    (xs : List Client) (i k : ℕ) (c : Client) (fd : ℤ)
    → Distinct (ids xs)
    → get_elem? xs k ≡ some c
    → for_first (reconnect c.id fd) i (set xs k (gone c)) ≡ some (ok, set xs k (back_on fd c))
unfolding for_first reconnect has
reconnect-gone [] i k c fd d e = cc
reconnect-gone (x ∷ xs) i zero c fd d e = rw (str_eq_refl c.id, for_first, reconnect) refl
reconnect-gone (x ∷ xs) i (suc k) c fd d e =
    rw (other, reconnect-gone xs (suc i) k c fd d.1 e, for_first, reconnect) refl
  where
    other : str_eq x.id c.id ≡ false
    other = not_the_id xs k c x.id d.0 e

get_elem?-set :
    (xs : List Client) (i : ℕ) (c d : Client)
    → get_elem? xs i ≡ some c
    → get_elem? (set xs i d) i ≡ some d
get_elem?-set [] i c d e = cc
get_elem?-set (x ∷ xs) zero c d e = refl
get_elem?-set (x ∷ xs) (suc i) c d e = get_elem?-set xs i c d e

module _ (os : Os) where
  open os use {World}

  -- When `close_active_client` has closed the connection at index `i` of a valid table, `get_client_id`
  -- at that index is the id of a client that was active on the socket, and `register_new_client` with
  -- this id on any new socket brings the same client back, with its topics, options and queue: the
  -- table is the one before, but for the socket.
  pub register-close :
      (v v' : ClientVec) (fd fd' : ℤ) (i : ℕ) (w : World)
      → IsValid v
      → close_active_client (some v) fd ≡ (ok, some v', some i)
      → (c : Client) × (get_elem? v.entities i ≡ some c)
        × (c.fd ≡ fd)
        × (c.status ≡ active)
        × (get_client_id (some v') i ≡ c.id)
        × (register_new_client os (some v') c.id fd' w
            ≡ (ok, some (record v { entities = set v.entities i (back_on fd' c) }), w))
  unfolding get_client_id register_new_client
  register-close v v' fd fd' i w valid e =
      inverted (close_active_client (some v) fd) (close_active_client-Closes v fd valid) e
    where
      Restored : ClientVec → Type 0
      Restored v' =
          (c : Client) × (get_elem? v.entities i ≡ some c)
          × (c.fd ≡ fd)
          × (c.status ≡ active)
          × (get_client_id (some v') i ≡ c.id)
          × (register_new_client os (some v') c.id fd' w
              ≡ (ok, some (record v { entities = set v.entities i (back_on fd' c) }), w))

      restored :
          (c : Client)
          → get_elem? v.entities i ≡ some c
          → c.fd ≡ fd
          → c.status ≡ active
          → Restored (record v { entities = set v.entities i (gone c) })
      restored c q a b = (
        c,
        q,
        a,
        b,
        rw (get_elem?-set v.entities i c (gone c) q, get_client_id) refl,
        rw (reconnect-gone v.entities 0 i c fd' valid.ids_distinct q, register_new_client) refl,
      )

      inverted :
          (r : Err × Option ClientVec × Option ℕ)
          → Closes v fd r
          → r ≡ (ok, some v', some i)
          → Restored v'
      inverted r (no_socket n) e = cc
      inverted r (nobody n) e = cc
      inverted r (closed k c q a b) e =
          let same_vec : record v { entities = set v.entities k (gone c) } ≡ v' = cc in
          let same_idx : k ≡ i = cc in rw (← same_vec, same_idx) (restored c (rw same_idx at q) a b)
