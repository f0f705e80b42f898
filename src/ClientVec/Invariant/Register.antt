-- ===== src/ClientVec/Invariant/Register.antt =====
-- `register_new_client` keeps the table of clients valid, if the new socket is open and in no other
-- client's hands.
use mathlib.Core.List.{map-append}
use tcp_client_server.Prelude.{
  ℕ, suc, ◌+◌, ◌*◌, ◌≤◌, ◌<◌, ◌≡◌, ◌⊎◌, refl, ap, inl, inr, false, List, [], ◌∷◌, ◌++◌, none, some,
  arith, length, All-append, FirstHit, Missed, for_first_cases, length-append, Text, Bool-cases,
  Option-cases, ◌==◌,
}
use tcp_client_server.Prelude.Int.{ℤ, is_neg}
use tcp_client_server.Errors.{Err}
use tcp_client_server.Os.{Os, mul_size, realloc_factor}
use tcp_client_server.Os.Laws.{ReallocLimit, ptrdiff_max, size_in_limit}
use tcp_client_server.ClientVec.{
  Client, ClientVec, sizeof_client, reconnect, new_client, grow_entities, add_client, malloc_all,
  register_new_client,
}
use tcp_client_server.ClientVec.Lookup.{back_on}
use tcp_client_server.ClientVec.Subscriptions.{Distinct-append, has}
use tcp_client_server.ClientVec.Wellformed.{IsWellformed, new_client-IsWellformed}
use tcp_client_server.ClientVec.Invariant.{
  IsLinkedClient, IsValid, Behind, ids, sockets, hit-IsValid, FirstHit-Swap,
}
use tcp_client_server.ClientVec.Invariant.Sockets.{
  DistinctSockets, has_socket, Swap-fresh, Swap-same, DistinctSockets-append,
}

reconnect_keeps :
    (id : Text) (fd : ℤ) (i : ℕ) (x x' : Client) (r : Err)
    → reconnect id fd i x ≡ some (r, x')
    → (x' ≡ x) ⊎ (x' ≡ back_on fd x)
unfolding reconnect
reconnect_keeps id fd i x x' r e = ground arith

unknown_id :
    (id : Text) (fd : ℤ) (i : ℕ) (xs : List Client)
    → Missed (reconnect id fd) i xs
    → has id (ids xs) ≡ false
unfolding has reconnect
unknown_id id fd i [] h = refl
unknown_id id fd i (x ∷ xs) h = ground (arith, unknown_id id fd (suc i) xs h.1)

module _ (v : ClientVec) (id : Text) (fd : ℤ) (valid : IsValid v) (open_fd : is_neg fd ≡ false)
    (fresh : has_socket fd (sockets v.entities) ≡ false) where
  reconnect_hit :
      {ys : List Client} {r : Err}
      → FirstHit (reconnect id fd) 0 v.entities r ys
      → IsValid (record v { entities = ys })
  reconnect_hit {ys} {r} hit = hit-IsValid v keeps_id keeps_form keeps_link valid hit distinct
    where
      keeps_id :
          (i : ℕ) (x x' : Client) (r : Err) → reconnect id fd i x ≡ some (r, x') → x'.id ≡ x.id
      keeps_id i x x' r e = ground (arith, reconnect_keeps id fd i x x' r e)

      keeps_form :
          (i : ℕ) (x x' : Client) (r : Err)
          → reconnect id fd i x ≡ some (r, x')
          → IsWellformed x
          → IsWellformed x'
      keeps_form i x x' r e h = elim (reconnect_keeps id fd i x x' r e) [
        | inl q ↦ rw q h
        | inr q ↦ rw q (record {
          paired = h.paired;
          distinct = h.distinct;
          topics_fit = h.topics_fit;
          queue_fits = h.queue_fits;
        })
      ]

      keeps_link :
          (i : ℕ) (x x' : Client) (r : Err)
          → reconnect id fd i x ≡ some (r, x')
          → IsLinkedClient x
          → IsLinkedClient x'
      keeps_link i x x' r e h = elim (reconnect_keeps id fd i x x' r e) [
        | inl q ↦ rw q h
        | inr q ↦ rw q open_fd
      ]

      distinct : DistinctSockets (sockets ys)
      distinct =
          let (j, x, x', e, s) = FirstHit-Swap hit in
          elim (reconnect_keeps id fd j x x' r e) [
            | inl q ↦ rw (Swap-same (ap (λ c. c.fd) q) s) valid.sockets_distinct
            | inr q ↦
                let q' : x'.fd ≡ fd = ap (λ c. c.fd) q in
                Swap-fresh (rw q' fresh) s valid.sockets_distinct
          ]

  appended :
      (capacity : ℕ)
      → Missed (reconnect id fd) 0 v.entities
      → length v.entities + 1 ≤ capacity
      → sizeof_client * capacity ≤ ptrdiff_max
      → IsValid (record { entities = v.entities ++ new_client id fd ∷ []; capacity = capacity })
  unfolding new_client
  appended capacity missed room small = record {
    wellformed =
        All-append IsWellformed v.entities _ valid.wellformed (new_client-IsWellformed id fd, tt);
    linked = All-append IsLinkedClient v.entities _ valid.linked (open_fd, tt);
    ids_distinct = rw map-append (
        Distinct-append id (ids v.entities) (unknown_id id fd 0 v.entities missed)
          valid.ids_distinct);
    sockets_distinct =
        rw map-append (DistinctSockets-append fd (sockets v.entities) fresh valid.sockets_distinct);
    in_array = omega (arith, length-append v.entities (new_client id fd ∷ []));
    has_room = omega arith;
    small = small;
  }

  wider :
      (capacity : ℕ)
      → length v.entities ≤ capacity
      → 0 < capacity
      → sizeof_client * capacity ≤ ptrdiff_max
      → IsValid (record v { capacity = capacity })
  wider capacity room pos small = record {
    wellformed = valid.wellformed;
    linked = valid.linked;
    ids_distinct = valid.ids_distinct;
    sockets_distinct = valid.sockets_distinct;
    in_array = room;
    has_room = pos;
    small = small;
  }

  module _ (os : Os) (limit : ReallocLimit os) where
    grow_entities_fits :
        (w : os.World)
        → ((grow_entities os v w).0 ≡ none)
          ⊎ ((capacity : ℕ) × ((grow_entities os v w).0 ≡ some (record v { capacity = capacity }))
              × (length v.entities + 1 ≤ capacity)
              × (sizeof_client * capacity ≤ ptrdiff_max))
    unfolding grow_entities
    grow_entities_fits w = elim (Bool-cases (length v.entities == v.capacity)) [
      | inl full ↦ elim (Option-cases (os.realloc size w).0) [
        | inl e ↦ inl (rw (full, e))
        | inr (a, e) ↦
            let s : size ≤ ptrdiff_max = size_in_limit os limit size w e in
            let f : length v.entities ≡ v.capacity = ground arith in
            inr (
              mul_size v.capacity realloc_factor,
              rw (full, e),
              omega (arith, valid.small, valid.has_room),
              omega (arith, valid.small),
            )
      ]
      | inr room ↦ inr (v.capacity, rw room, ground (arith, valid.in_array), valid.small)
    ]
      where
        size : ℕ
        size = mul_size (mul_size sizeof_client v.capacity) realloc_factor

    add_client-IsValid :
        (capacity : ℕ) (w : os.World)
        → Missed (reconnect id fd) 0 v.entities
        → length v.entities + 1 ≤ capacity
        → sizeof_client * capacity ≤ ptrdiff_max
        → Behind IsValid (add_client os (record v { capacity = capacity }) id fd w).1
    unfolding add_client
    add_client-IsValid capacity w missed room small =
        elim (Bool-cases (malloc_all os (10 ∷ 80 ∷ 40 ∷ 80 ∷ []) w).0) [
          | inl done ↦ rw (done, add_client) (appended capacity missed room small)
          | inr failed ↦ rw (failed, add_client) (wider capacity (omega arith) (omega arith) small)
        ]

    pub register_new_client-IsValid :
        (w : os.World) → Behind IsValid (register_new_client os (some v) id fd w).1
    unfolding register_new_client
    register_new_client-IsValid w = elim (for_first_cases (reconnect id fd) 0 v.entities) [
      | inr (r, ys, e, hit) ↦ rw (e, register_new_client) (reconnect_hit hit)
      | inl (e, missed) ↦ elim (grow_entities_fits w) [
        | inl g ↦ rw (e, g, register_new_client) valid
        | inr (capacity, g, room, small) ↦
            rw (e, g, register_new_client)
              (add_client-IsValid capacity (grow_entities os v w).1 missed room small)
      ]
    ]
