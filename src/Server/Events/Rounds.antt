-- ===== src/Server/Events/Rounds.antt =====
-- Each round of `process_ready_fds` keeps the poll vector valid, and leaves less to do.
use tcp_client_server.Prelude.{
  ℕ, suc, ◌-◌, ◌<◌, ◌≡◌, refl, ap, ◌∙◌, inl, inr, Bool, true, false, [], ◌∷◌, ◌++◌, Option, none,
  some, arith, Bool-cases, drop, get_elem?, c_string,
}
use tcp_client_server.Prelude.Int.{ℤ, pos, eq_ℤ, is_nonpos}
use tcp_client_server.Errors.{Err, server_could_not_connect_new_client}
use tcp_client_server.Os.{Os}
use tcp_client_server.Os.Laws.{ReallocLimit}
use tcp_client_server.PollVec.{PollFd, PollVec, contents, poll_vec_add_fd, poll_vec_remove_fd}
use tcp_client_server.PollVec.Invariant.{IsValid}
use tcp_client_server.PollVec.Contents.{
  Removes, poll_vec_add_fd-Adds, poll_vec_remove_fd-Removes, removed_last, entry,
}
use tcp_client_server.ClientVec.{close_active_client, register_new_client}
use tcp_client_server.Tcp.{memory_of, sizeof_tcp_msg, recv_tcp_msg}
use tcp_client_server.Udp.{Doubles, SockAddr}
use tcp_client_server.Server.{Server}
use tcp_client_server.Server.Handlers.{is_ok}
use tcp_client_server.Server.Events.{
  Net, is_ready, poll_vec_after, goes_on, returns, unless_error, Round, client_events, on_udp,
  on_id, on_accept, on_closed, on_client, on_ready,
}
use tcp_client_server.Server.Events.Weight.{
  weight, left_from, weight-ready, weight-append, drop-erase_idx,
}

module _ (doubles : Doubles) (os : Os) (limit : ReallocLimit os) (net : Net os) where
  open os use {World}

  -- After a round the poll vector is valid, and less is left if the loop goes on.
  abbrev pub Progress : ℕ → Round doubles os net → Type 0
  Progress n none = Unit
  Progress n (some (goes_on i, s, v, w)) = IsValid v × (left_from (contents v) i < n)
  Progress n (some (returns e, s, v, w)) = IsValid v

  unless_error-Progress :
      (n : ℕ) (e : Err) (i : ℕ) (s : Server doubles) (v : PollVec) (w : World)
      → IsValid v
      → left_from (contents v) i < n
      → Progress n (some (unless_error e i, s, v, w))
  unless_error-Progress n e i s v w h k = elim (Bool-cases (is_ok e)) [
    | inl q ↦ rw q (h, k)
    | inr q ↦ rw q h
  ]

  removal_leaves :
      (v : PollVec) (i : ℕ) (p : PollFd) (w : World) (r : Err × Option PollVec × World)
      → get_elem? (contents v) i ≡ some p
      → is_ready p ≡ true
      → Removes os v i w r
      → IsValid (poll_vec_after v r.1)
        × (left_from (contents (poll_vec_after v r.1)) i < left_from (contents v) i)
  removal_leaves v i p w r at ready (inl (q, v', e, f, valid', c)) = rw f (
    valid',
    omega (
      arith,
      ap weight (ap (drop i) c ∙ drop-erase_idx (contents v) i),
      weight-ready (contents v) i p at ready,
    ),
  )
  removal_leaves v i p w r at ready (inr (out, f)) = cc (at, out)

  module _ (v : PollVec) (i : ℕ) (p : PollFd) (valid : IsValid v)
      (at : get_elem? (contents v) i ≡ some p) (ready : is_ready p ≡ true) where
    abbrev Good : Round doubles os net → Type 0
    Good r = Progress (left_from (contents v) i) r

    next_entry : left_from (contents v) (suc i) < left_from (contents v) i
    next_entry = omega (arith, weight-ready (contents v) i p at ready)

    by_error :
        (e : Err) (s : Server doubles) (w : World) → Good (some (unless_error e (suc i), s, v, w))
    by_error e s w = unless_error-Progress _ e (suc i) s v w valid next_entry

    sent_on :
        (sent : Option (Err × Server doubles × World))
        → Good (elim sent [ none ↦ none | some (e, s, w) ↦ some (unless_error e (suc i), s, v, w) ])
    sent_on none = tt
    sent_on (some (e, s, w)) = by_error e s w

    stored_first :
        (a : Err × Server doubles × World) (sent : Option (Err × Server doubles × World))
        → Good (elim (is_ok a.0) [
          | false ↦ some (returns a.0, a.1, v, a.2)
          | true ↦ elim sent [
            | none ↦ none
            | some (e, s, w) ↦ some (unless_error e (suc i), s, v, w)
          ]
        ])
    stored_first a sent = elim (Bool-cases (is_ok a.0)) [
      | inl q ↦ rw q (sent_on sent)
      | inr q ↦ rw q valid
    ]

    on_udp-Progress :
        (udp_socket : ℤ) (s : Server doubles) (w : World)
        → Good (on_udp doubles os net udp_socket s v i w)
    unfolding on_udp
    on_udp-Progress udp_socket s w =
        elim (Bool-cases (eq_ℤ (net.recvfrom udp_socket 8096 w).0 (pos 0))) [
          | inl z ↦
              rw (z, on_udp)
                (let (valid', less) =
                    removal_leaves v i p w₁ _ at ready
                      (poll_vec_remove_fd-Removes os v i w₁ valid) in
                  unless_error-Progress _ _ i _ _ _ valid' less)
          | inr z ↦ rw (z, on_udp) (stored_first _ _)
        ]
      where
        w₁ : World
        w₁ = (net.recvfrom udp_socket 8096 w).3

    on_closed-Progress :
        (fd : ℤ) (s : Server doubles) (w : World) → Good (on_closed doubles os net fd s v i w)
    unfolding on_closed
    on_closed-Progress fd s w =
        elim (Bool-cases (is_ok (close_active_client (some s.clients) fd).0)) [
          | inl q ↦
              rw (q, on_closed)
                (removal_leaves v i p w _ at ready (poll_vec_remove_fd-Removes os v i w valid))
          | inr q ↦ rw (q, on_closed) (valid, next_entry)
        ]

    on_client-Progress :
        (fd : ℤ) (s : Server doubles) (w : World) → Good (on_client doubles os net fd s v i w)
    unfolding on_client
    on_client-Progress fd s w =
        elim (Bool-cases
          (is_ok (recv_tcp_msg os fd (some (memory_of s.recv_msg)) sizeof_tcp_msg w).0)) [
            | inl q ↦ rw (q, on_client) (valid, next_entry)
            | inr q ↦ rw (q, on_client) (on_closed-Progress fd _ _)
          ]

    -- With the new descriptor behind the entries.
    module _ (v₁ : PollVec) (fd : ℤ) (valid₁ : IsValid v₁)
        (longer : contents v₁ ≡ contents v ++ entry fd client_events ∷ []) where
      after_adding : left_from (contents v₁) (suc i) < left_from (contents v) i
      after_adding = omega (
        arith,
        ap (λ xs. left_from xs (suc i)) longer,
        weight-append (contents v) (suc i) (entry fd client_events) refl,
        weight-ready (contents v) i p at ready,
      )

      retransmitted :
          (o : Option (Err × Server doubles × World)) (report : Err → World → World)
          → Good
              (elim o [ none ↦ none | some (e, s, w) ↦ some (goes_on (suc i), s, v₁, report e w) ])
      retransmitted none report = tt
      retransmitted (some (e, s, w)) report = (valid₁, after_adding)

      turned_away :
          (w : World)
          → (let v₂ = poll_vec_after v₁ (poll_vec_remove_fd os (some v₁) (v₁.nfds - 1) w).1 in
              IsValid v₂ × (left_from (contents v₂) (suc i) < left_from (contents v) i))
      turned_away w =
          let (v₂, r, valid₂, same) = removed_last os v v₁ fd client_events w valid₁ longer in
          rw r (valid₂, omega (arith, ap (λ xs. left_from xs (suc i)) same, next_entry))

      on_id-Progress :
          (addr : SockAddr) (s : Server doubles) (w : World)
          → Good (on_id doubles os net addr fd s v₁ i w)
      unfolding on_id
      on_id-Progress addr s w =
          elim (Bool-cases
            (is_ok (register_new_client os (some s.clients) (c_string s.recv_msg.bytes) fd w).0)) [
              | inl q ↦ rw (q, on_id) (retransmitted _ _)
              | inr q ↦ rw (q, on_id) (turned_away _)
            ]

      received :
          (b : Bool) (addr : SockAddr) (s : Server doubles) (w : World)
          → Good (elim b [
            | false ↦ some (returns server_could_not_connect_new_client, s, v₁, w)
            | true ↦ on_id doubles os net addr fd s v₁ i w
          ])
      received false addr s w = valid₁
      received true addr s w = on_id-Progress addr s w

    on_accept-Progress :
        (tcp_socket : ℤ) (s : Server doubles) (w : World)
        → Good (on_accept doubles os net tcp_socket s v i w)
    unfolding on_accept
    on_accept-Progress tcp_socket s w = elim (Bool-cases (is_nonpos fd)) [
      | inl bad ↦ rw (bad, on_accept) valid
      | inr good ↦ elim (poll_vec_add_fd-Adds os limit v fd client_events w₁ valid) [
        | inr (e, f, _) ↦ rw (good, e, on_accept) (rw f valid)
        | inl (v', e, f, valid', c) ↦
            rw (good, e, on_accept)
              (received (poll_vec_after v vec) fd (rw f valid') (rw f c) _ _ _ _)
      ]
    ]
      where
        fd : ℤ
        fd = (net.accept tcp_socket w).0

        w₁ : World
        w₁ = (net.accept tcp_socket w).2

        vec : Option PollVec
        vec = (poll_vec_add_fd os (some v) fd client_events w₁).1

    pub on_ready-Progress :
        (udp_socket tcp_socket : ℤ) (s : Server doubles) (w : World)
        → Good (on_ready doubles os net udp_socket tcp_socket p s v i w)
    unfolding on_ready
    on_ready-Progress udp_socket tcp_socket s w = elim (Bool-cases (eq_ℤ p.fd udp_socket)) [
      | inl q ↦ rw (q, on_ready) (on_udp-Progress udp_socket s w)
      | inr q ↦ elim (Bool-cases (eq_ℤ p.fd tcp_socket)) [
        | inl r ↦ rw (q, r, on_ready) (on_accept-Progress tcp_socket s w)
        | inr r ↦ rw (q, r, on_ready) (on_client-Progress p.fd s w)
      ]
    ]
