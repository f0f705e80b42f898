-- ===== src/ClientVec/Invariant.antt =====
-- The table of clients: what holds of it after any calls. No id and no open socket stands in it twice,
-- the dead clients are those without a socket, and all arrays are large enough.
pub mod Sockets
pub mod Register
pub mod Steps
pub mod Reach
use tcp_client_server.Prelude.{
  ℕ, ◌+◌, ◌*◌, ◌≤◌, ◌<◌, ◌≡◌, ◌⊎◌, refl, sym, ap, ◌∙◌, inl, inr, true, false, List, [], ◌∷◌, ◌++◌,
  Option, none, some, arith, map, length, for_first, All, FirstHit, FirstHit-All, FirstHit-map,
  for_first-Outcome, Outcome, length-map, Text, str_eq,
}
use tcp_client_server.Prelude.Int.{ℤ, negsuc, eq_ℤ, is_neg}
use tcp_client_server.Errors.{Err}
use tcp_client_server.Os.{Os}
use tcp_client_server.Os.Laws.{ReallocLimit, ptrdiff_max}
use tcp_client_server.ClientVec.{
  Status, active, dead, Client, ClientVec, sizeof_client, reconnect, disconnect,
  close_active_client,
}
use tcp_client_server.ClientVec.Topics.{on_socket}
use tcp_client_server.ClientVec.Subscriptions.{Distinct}
use tcp_client_server.ClientVec.Wellformed.{IsWellformed}
use Sockets.{DistinctSockets, has_socket, Swap, first, later, Swap-neg, Swap-fresh}

-- An active client has a socket, and a dead one has -1 in its place.
abbrev pub IsLinked : Status → ℤ → Type 0
IsLinked active fd = is_neg fd ≡ false
IsLinked dead fd = fd ≡ negsuc 0

abbrev pub IsLinkedClient : Client → Type 0
IsLinkedClient c = IsLinked c.status c.fd

abbrev pub ids : List Client → List Text
ids = map (λ c. c.id)

abbrev pub sockets : List Client → List ℤ
sockets = map (λ c. c.fd)

pub record IsValid (v : ClientVec) : Type 0 where
  pub wellformed : All IsWellformed v.entities
  pub linked : All IsLinkedClient v.entities
  pub ids_distinct : Distinct (ids v.entities)
  pub sockets_distinct : DistinctSockets (sockets v.entities)
  pub in_array : length v.entities ≤ v.capacity
  pub has_room : 0 < v.capacity
  pub small : sizeof_client * v.capacity ≤ ptrdiff_max

-- A property of the table behind a pointer, if there is one.
abbrev pub Behind {ℓ} : (ClientVec → Type ℓ) → Option ClientVec → Type ℓ
Behind P none = Unit
Behind P (some v) = P v

module _ {ℓ} {R : Type ℓ} {body : ℕ → Client → Option (R × Client)} where
  -- The client that the loop stopped at, before and after, and its place among the sockets.
  pub FirstHit-Swap :
      {i : ℕ} {xs ys : List Client} {r : R}
      → FirstHit body i xs r ys
      → (j : ℕ) × (x : Client) × (x' : Client) × (body j x ≡ some (r, x'))
        × Swap x.fd x'.fd (sockets xs) (sockets ys)
  FirstHit-Swap (FirstHit.here {i = i} {x = x} {x' = x'} e) = (i, x, x', e, first)
  FirstHit-Swap (FirstHit.there e hit) =
      let (j, x, x', q, s) = FirstHit-Swap hit in (j, x, x', q, later s)

  -- A loop that keeps ids, well-formedness and the link of status and socket keeps the table valid, if
  -- the sockets stay distinct.
  pub hit-IsValid :
      (v : ClientVec)
      → ((i : ℕ) (x x' : Client) (r : R) → body i x ≡ some (r, x') → x'.id ≡ x.id)
      → ((i : ℕ) (x x' : Client) (r : R)
          → body i x ≡ some (r, x')
          → IsWellformed x
          → IsWellformed x')
      → ((i : ℕ) (x x' : Client) (r : R)
          → body i x ≡ some (r, x')
          → IsLinkedClient x
          → IsLinkedClient x')
      → IsValid v
      → {ys : List Client} {r : R} → FirstHit body 0 v.entities r ys
      → DistinctSockets (sockets ys)
      → IsValid (record v { entities = ys })
  hit-IsValid v same_id keep link valid {ys} hit distinct = record {
    wellformed = FirstHit-All IsWellformed keep hit valid.wellformed;
    linked = FirstHit-All IsLinkedClient link hit valid.linked;
    ids_distinct = rw same valid.ids_distinct;
    sockets_distinct = distinct;
    in_array = omega (
      arith,
      ap length same,
      length-map ys (λ c. c.id),
      length-map v.entities (λ c. c.id),
      valid.in_array,
    );
    has_room = valid.has_room;
    small = valid.small;
  }
    where
      same : ids ys ≡ ids v.entities
      same = FirstHit-map (λ c. c.id) same_id hit

-- What the body of `close_active_client` leaves of a client.
disconnect_keeps :
    (fd : ℤ) (i : ℕ) (x x' : Client) (r : Err × Option ℕ)
    → disconnect fd i x ≡ some (r, x')
    → (x' ≡ x) ⊎ (x' ≡ record x { status = dead; fd = negsuc 0 })
unfolding disconnect
disconnect_keeps fd i x x' r e = ground arith
