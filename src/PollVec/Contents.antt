-- ===== src/PollVec/Contents.antt =====
-- The poll vector as the list of its entries: adding appends, removing takes one entry out and
-- closes its descriptor.
use tcp_client_server.Prelude.{
  ℕ, suc, ◌+◌, ◌-◌, ◌≤◌, ◌<◌, ◌≡◌, ◌⊎◌, refl, sym, ◌∙◌, ap, inl, inr, false, List, [], ◌∷◌, ◌++◌,
  Option, none, some, arith, leb, Bool-cases, length, take, get_elem?, store, shift_down, erase_idx,
  take-store, take-shift_down, length-take, get_elem?-take, get_elem?-beyond, get_elem?-within,
  erase_idx-append_last, get_elem?-append_last, add-one, ap₂, length-append,
}
use mathlib.Core.Option
use tcp_client_server.Prelude.Int.{ℤ}
use tcp_client_server.Errors.{Err, ok, poll_vec_failed_realloc, poll_vec_input_fd_idx_out_of_bound}
use tcp_client_server.Os.{Os}
use tcp_client_server.Os.Laws.{ReallocLimit}
use tcp_client_server.PollVec.{
  PollFd, PollVec, cells, contents, grow, append_fd, close_at, poll_vec_add_fd, poll_vec_remove_fd,
}
use tcp_client_server.PollVec.Invariant.{
  HasCells, IsValid, Grown, append_fd-IsValid, grow-Grown, HasCells-shift,
}

length-cells : (pfds : Option (List PollFd)) (n c : ℕ) → HasCells pfds n c → n ≤ length (cells pfds)
length-cells none n c h = absurd h
length-cells (some ps) n c h = h.0

pub length-contents : (v : PollVec) → IsValid v → length (contents v) ≡ v.nfds
length-contents v valid = omega (
  arith,
  length-take v.nfds (cells v.pfds),
  length-cells v.pfds v.nfds v.capacity valid.has_cells,
)

abbrev pub entry : ℤ → ℕ → PollFd
entry fd fd_events = record { fd = fd; events = fd_events; revents = 0 }

store_contents :
    (pfds : Option (List PollFd)) (n c : ℕ) (p : PollFd)
    → HasCells pfds n c
    → take (n + 1) (cells (Option.map (λ ps. store ps n p) pfds)) ≡ take n (cells pfds) ++ p ∷ []
store_contents none n c p h = absurd h
store_contents (some ps) n c p h = rw add-one (take-store ps n p h.0)

contents-append_fd :
    (v : PollVec) (fd : ℤ) (fd_events : ℕ)
    → IsValid v
    → contents (append_fd v fd fd_events) ≡ contents v ++ entry fd fd_events ∷ []
unfolding append_fd
contents-append_fd v fd fd_events valid = store_contents v.pfds v.nfds v.capacity _ valid.has_cells

shift_contents :
    (pfds : Option (List PollFd)) (n c i : ℕ)
    → HasCells pfds n c
    → i < n
    → take (n - 1) (cells (Option.map (shift_down (n - 1 - i) i) pfds))
      ≡ erase_idx (take n (cells pfds)) i
shift_contents none n c i h l = absurd h
shift_contents (some ps) n c i h l =
    let e : suc (n - 1) ≡ n = omega arith in
    take-shift_down (n - 1 - i) i (n - 1) ps (omega arith) (omega arith)
    ∙ ap (λ k. erase_idx (take k ps) i) e

module _ (os : Os) where
  open os use {World}

  -- What `poll_vec_add_fd` may leave: the entries with the new one behind them, in a valid vector, or,
  -- only if the vector was full, an error and the vector as it was.
  abbrev pub Adds : PollVec → ℤ → ℕ → Err × Option PollVec × World → Type 0
  Adds v fd fd_events (e, vec, w) =
      ((v' : PollVec) × (e ≡ ok)
        × (vec ≡ some v')
        × IsValid v'
        × (contents v' ≡ contents v ++ entry fd fd_events ∷ []))
      ⊎ ((e ≡ poll_vec_failed_realloc) × (vec ≡ some v) × (v.nfds ≡ v.capacity))

  abbrev pub Removes : PollVec → ℕ → World → Err × Option PollVec × World → Type 0
  Removes v i w r =
      ((p : PollFd) × (v' : PollVec) × (get_elem? (contents v) i ≡ some p)
        × (r ≡ (ok, some v', os.close p.fd w))
        × IsValid v'
        × (contents v' ≡ erase_idx (contents v) i))
      ⊎ ((get_elem? (contents v) i ≡ none) × (r ≡ (poll_vec_input_fd_idx_out_of_bound, some v, w)))

  added_with_room :
      (v : PollVec) (fd : ℤ) (fd_events : ℕ) (w : World) (g : Option PollVec)
      → Grown v g
      → Adds v fd fd_events (elim g [
        | none ↦ (poll_vec_failed_realloc, some v, w)
        | some v' ↦ (ok, some (append_fd v' fd fd_events), w)
      ])
  added_with_room v fd fd_events w none full = inr (refl, refl, full)
  added_with_room v fd fd_events w (some v') (room, same, used) = inl (
    append_fd v' fd fd_events,
    refl,
    refl,
    append_fd-IsValid v' fd fd_events room,
    contents-append_fd v' fd fd_events room.0
        ∙ ap₂ (λ ps n. take n (cells ps) ++ entry fd fd_events ∷ []) same used,
  )

  -- With a realloc that refuses sizes beyond PTRDIFF_MAX, adding to a valid poll vector either
  -- returns OK and leaves a valid vector whose entries are the old ones, in order, and then the new
  -- one with no returned events, or returns POLL_VEC_FAILED_REALLOC and leaves the vector as it was,
  -- which happens only to a full one.
  pub poll_vec_add_fd-Adds :
      ReallocLimit os
      → (v : PollVec) (fd : ℤ) (fd_events : ℕ) (w : World) → IsValid v
      → Adds v fd fd_events (poll_vec_add_fd os (some v) fd fd_events w)
  unfolding poll_vec_add_fd
  poll_vec_add_fd-Adds limit v fd fd_events w valid =
      added_with_room v fd fd_events (grow os v w).1 (grow os v w).0 (grow-Grown os limit v w valid)

  within-Removes :
      (v : PollVec) (i : ℕ) (w : World) (p : PollFd)
      → IsValid v
      → i < v.nfds
      → get_elem? (contents v) i ≡ some p
      → Removes v i w (poll_vec_remove_fd os (some v) i w)
  unfolding poll_vec_remove_fd close_at
  within-Removes v i w p valid l e =
      let g : leb v.nfds i ≡ false = ground arith in
      let at : get_elem? (cells v.pfds) i ≡ some p =
        sym (get_elem?-take v.nfds (cells v.pfds) i l) ∙ e in
      rw (g, at, close_at)
        (inl (
          p,
          record v { pfds = Option.map (shift_down (v.nfds - 1 - i) i) v.pfds; nfds = v.nfds - 1 },
          e,
          refl,
          record {
            has_cells = HasCells-shift v.pfds _ i v.nfds v.capacity valid.has_cells;
            has_room = valid.has_room;
            fits = valid.fits;
          },
          shift_contents v.pfds v.nfds v.capacity i valid.has_cells l,
        ))

  -- Removing at an index of a valid poll vector that is in use returns OK, closes the descriptor that
  -- stands there and no other, and leaves a valid vector with the other entries in order; at any other
  -- index it returns POLL_VEC_INPUT_FD_IDX_OUT_OF_BOUND and leaves all as it was.
  pub poll_vec_remove_fd-Removes :
      (v : PollVec) (i : ℕ) (w : World)
      → IsValid v
      → Removes v i w (poll_vec_remove_fd os (some v) i w)
  unfolding poll_vec_remove_fd
  poll_vec_remove_fd-Removes v i w valid = elim (Bool-cases (leb v.nfds i)) [
    | inl beyond ↦
        rw beyond
          (inr (get_elem?-beyond (contents v) i (ground (arith, length-contents v valid)), refl))
    | inr within ↦
        let l : i < v.nfds = ground arith in
        let (p, e) = get_elem?-within (contents v) i (omega (arith, length-contents v valid)) in
        within-Removes v i w p valid l e
  ]

  pub removed_last :
      (v v' : PollVec) (fd : ℤ) (fd_events : ℕ) (w : World)
      → IsValid v'
      → contents v' ≡ contents v ++ entry fd fd_events ∷ []
      → (v'' : PollVec) × (poll_vec_remove_fd os (some v') (v'.nfds - 1) w
          ≡ (ok, some v'', os.close fd w))
        × IsValid v''
        × (contents v'' ≡ contents v)
  removed_last v v' fd fd_events w valid' c =
      elim (poll_vec_remove_fd-Removes v' (v'.nfds - 1) w valid') [
        | inl (p, v'', at, r, valid'', c'') ↦
            let q : p ≡ entry fd fd_events = cc (at, last) in (v'', rw q at r, valid'', c'' ∙ gone)
        | inr (out, _) ↦ cc (out, last)
      ]
    where
      used : length (contents v) ≡ v'.nfds - 1
      used = omega (
        arith,
        length-contents v' valid',
        ap length c,
        length-append (contents v) (entry fd fd_events ∷ []),
      )

      last : get_elem? (contents v') (v'.nfds - 1) ≡ some (entry fd fd_events)
      last = rw c (get_elem?-append_last (contents v) (entry fd fd_events) (v'.nfds - 1) used)

      gone : erase_idx (contents v') (v'.nfds - 1) ≡ contents v
      gone = rw c (erase_idx-append_last (contents v) (entry fd fd_events) (v'.nfds - 1) used)

  -- The server adds the descriptor of a new connection and, when it turns the client away, removes
  -- the last entry: if the first call returned OK, this leaves the entries that were there before,
  -- in a valid vector, and closes just the new descriptor.
  pub remove-add_last :
      ReallocLimit os
      → (v v' : PollVec) (fd : ℤ) (fd_events : ℕ) (w w₁ w₂ : World) → IsValid v
      → poll_vec_add_fd os (some v) fd fd_events w ≡ (ok, some v', w₁)
      → (v'' : PollVec) × (poll_vec_remove_fd os (some v') (v'.nfds - 1) w₂
          ≡ (ok, some v'', os.close fd w₂))
        × IsValid v''
        × (contents v'' ≡ contents v)
  remove-add_last limit v v' fd fd_events w w₁ w₂ valid e =
      elim (rw e at (poll_vec_add_fd-Adds limit v fd fd_events w valid)) [
        | inl (u, _, same, valid', c) ↦
            let q : u ≡ v' = cc in removed_last v v' fd fd_events w₂ (rw q at valid') (rw q at c)
        | inr (no_ok, _, _) ↦ cc
      ]
