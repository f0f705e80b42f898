-- ===== src/Server/Descriptors/Accepting.antt =====
-- Accepting a connection in `process_ready_fds` keeps what ties clients, poll vector and open descriptors; and
-- so each round does.
use tcp_client_server.Prelude.{
  ℕ, suc, ◌≡◌, ◌≢◌, refl, ap, ◌∙◌, inl, inr, Bool, true, false, ◌||◌, ◌&&◌, not, [], ◌∷◌, ◌++◌,
  Option, none, some, arith, Bool-cases, get_elem?, c_string, Text,
}
use tcp_client_server.Prelude.Int.{ℤ, pos, eq_ℤ, is_neg, is_nonpos}
use tcp_client_server.Errors.{Err, ok, server_could_not_connect_new_client}
use tcp_client_server.Os.{Os}
use tcp_client_server.Os.Laws.{ReallocLimit}
use tcp_client_server.PollVec.{PollFd, PollVec, contents, poll_vec_add_fd}
use tcp_client_server.PollVec.Invariant as poll
use tcp_client_server.PollVec.Quiet.{poll_vec_add_fd-Quiet}
use tcp_client_server.PollVec.Contents.{poll_vec_add_fd-Adds, removed_last, entry}
use tcp_client_server.ClientVec.{register_new_client}
use tcp_client_server.ClientVec.Invariant.{IsValid}
use tcp_client_server.ClientVec.Invariant.Register.{register_new_client-IsValid}
use tcp_client_server.ClientVec.Connected.{register_new_client-ConnectsOrNot}
use tcp_client_server.ClientVec.Quiet.{register_new_client-Quiet}
use tcp_client_server.Tcp.{memory_of, sizeof_tcp_msg, recv_tcp_msg}
use tcp_client_server.Tcp.Quiet.{recv_tcp_msg-Quiet}
use tcp_client_server.Udp.{Doubles, SockAddr}
use tcp_client_server.Server.{Server}
use tcp_client_server.Server.Handlers.{is_ok, retransmit_topics_to_client}
use tcp_client_server.Server.Safety.{Kept, transmissions-IsValid}
use tcp_client_server.Server.Frame.{FramedIf, retransmit_topics_to_client-FramedIf}
use tcp_client_server.Server.Events.{
  Net, poll_vec_after, goes_on, returns, Round, report, client_events, on_id, on_accept, on_ready,
  message_in,
}
use tcp_client_server.Server.Descriptors.{Descriptors, SameOpen, SameOpen-Quiet, Accounted}
use tcp_client_server.Server.Descriptors.Polled.{has_socket-get_elem?}
use tcp_client_server.Server.Descriptors.Connections.{no_client, arrived, turned_away, one_more}
use tcp_client_server.Server.Descriptors.Rounds as rounds

module _ (os : Os) (limit : ReallocLimit os) (net : Net os) (d : Descriptors os net)
    (doubles : Doubles) (kept : ℤ → Bool) (udp_socket tcp_socket : ℤ) where
  open os use {World}

  abbrev TiedNow : Server doubles → PollVec → World → Type 0
  TiedNow = rounds.TiedNow os limit net d doubles kept udp_socket tcp_socket

  abbrev Safe : Round doubles os net → Type 0
  Safe = rounds.Safe os limit net d doubles kept udp_socket tcp_socket

  retransmitted :
      (s : Server doubles) (v : PollVec) (w : World) (i : ℕ) (fd : ℤ)
      → TiedNow s v w
      → Safe (elim (retransmit_topics_to_client doubles os s fd w) [
        | none ↦ none
        | some (e, s', w') ↦ some (goes_on (suc i), s', v, report doubles os net e w')
      ])
  retransmitted s v w i fd tied =
      ended (retransmit_topics_to_client doubles os s fd w)
        (transmissions-IsValid doubles os limit s fd w tied.clients_valid).1
        (retransmit_topics_to_client-FramedIf doubles os (SameOpen os net d w)
          (SameOpen-Quiet os net d w) s fd w (λ f. refl))
    where
      ended :
          (o : Option (Err × Server doubles × World))
          → Kept doubles os limit o
          → FramedIf doubles os (SameOpen os net d w) (SameOpen-Quiet os net d w) s o
          → Safe (elim o [
            | none ↦ none
            | some (e, s', w') ↦ some (goes_on (suc i), s', v, report doubles os net e w')
          ])
      ended none valid framed = tt
      ended (some (e, s', w')) valid framed =
          rounds.keep os limit net d doubles kept udp_socket tcp_socket s v w i tied s' _ valid
            framed.same_sockets
            (λ f.
              rounds.report-SameOpen os limit net d doubles kept udp_socket tcp_socket e w' f
              ∙ framed.quiet_world f)

  module _ (s : Server doubles) (v v₁ : PollVec) (w w₁ : World) (i : ℕ) (fd : ℤ)
      (tied : TiedNow s v w) (n : is_neg fd ≡ false) (fresh : d.is_open fd w ≡ false)
      (opens : (f : ℤ) → d.is_open f w₁ ≡ (d.is_open f w || eq_ℤ fd f)) (valid₁ : poll.IsValid v₁)
      (longer : contents v₁ ≡ contents v ++ entry fd client_events ∷ []) where
    on_id-Safe :
        (addr : SockAddr) (w₂ : World)
        → SameOpen os net d w₁ w₂
        → Safe (on_id doubles os net addr fd s v₁ i w₂)
    unfolding on_id
    on_id-Safe addr w₂ same =
        let (v', o, how) =
          register_new_client-ConnectsOrNot os s.clients id fd w₂ tied.clients_valid in
        let valid' : IsValid v' = rw o at (
          register_new_client-IsValid s.clients id fd tied.clients_valid n
            (no_client os net d doubles kept udp_socket tcp_socket s v w tied fd w₁ fresh opens n)
            os limit w₂) in
        elim how [
          | inl (q, connects) ↦
              rw (q, on_id)
                (rw o (
                  retransmitted _ v₁ _ i fd (
                    arrived os net d doubles kept udp_socket tcp_socket s v w tied fd w₁ fresh opens
                      _ v₁ _ valid' connects valid₁ longer
                      (λ f. d.open-printf f _ _ ∙ registered f))))
          | inr (bad, same_sockets) ↦
              let (v₂, r, valid₂, e) =
                removed_last os v v₁ fd client_events
                  (register_new_client os (some s.clients) id fd w₂).2 valid₁ longer in
              rw (not_ok _ bad, on_id)
                (rw (o, r)
                  (turned_away os net d doubles kept udp_socket tcp_socket s v w tied fd w₁ fresh
                    opens _ v₂ _ _ valid' same_sockets valid₂ e registered
                    (λ f. d.open-printf f _ _)))
        ]
      where
        id : Text
        id = c_string s.recv_msg.bytes

        not_ok : (e : Err) → e ≢ ok → is_ok e ≡ false
        not_ok e bad = ground (arith, bad)

        registered : SameOpen os net d w₁ (register_new_client os (some s.clients) id fd w₂).2
        registered =
            register_new_client-Quiet os (SameOpen os net d w₁) (SameOpen-Quiet os net d w₁)
              s.clients id fd w₂ same

    received :
        (b : Bool) (addr : SockAddr) (w₂ : World)
        → SameOpen os net d w₁ w₂
        → Safe (elim b [
          | false ↦ some (returns server_could_not_connect_new_client, s, v₁, w₂)
          | true ↦ on_id doubles os net addr fd s v₁ i w₂
        ])
    received false addr w₂ same = (
      refl,
      tied.clients_valid,
      record {
        extra = fd;
        accounts = λ f h. ground (
          arith,
          h,
          same f,
          opens f,
          tied.all_open f,
          one_more os net d doubles kept udp_socket tcp_socket s v w tied fd w₁ fresh opens f v₁
              longer,
        );
      },
    )
    received true addr w₂ same = on_id-Safe addr w₂ same

  on_accept-Safe :
      (s : Server doubles) (v : PollVec) (w : World) (i : ℕ)
      → TiedNow s v w
      → Safe (on_accept doubles os net tcp_socket s v i w)
  unfolding on_accept
  on_accept-Safe s v w i tied = elim (Bool-cases (is_nonpos fd)) [
    | inl bad ↦ rw (bad, on_accept) (refl, tied.clients_valid, not_added v w₁ refl (λ f. refl))
    | inr good ↦ elim (poll_vec_add_fd-Adds os limit v fd client_events w₁ tied.poll_valid) [
      | inr (e, f, _) ↦
          rw (good, e, on_accept)
            (
              ap is_ok e,
              tied.clients_valid,
              not_added _ _ (rw f refl) (
                  poll_vec_add_fd-Quiet os (SameOpen os net d w₁) (SameOpen-Quiet os net d w₁) v fd
                    client_events w₁ (λ f. refl)),
            )
      | inl (v', e, f, valid', c) ↦
          let n : is_neg fd ≡ false = positive fd good in
          rw (good, e, on_accept)
            (received s₁ v (poll_vec_after v vec) w w₁ i fd
              (rounds.keep os limit net d doubles kept udp_socket tcp_socket s v w i tied s₁ w
                tied.clients_valid refl (λ f. refl))
              n (d.accept_fresh tcp_socket w n)
              (λ f.
                d.open-accept f tcp_socket w ∙ ap (λ b. d.is_open f w || (not b && eq_ℤ fd f)) n)
              (rw f valid') (rw f c) _ _ _
              (recv_tcp_msg-Quiet os (SameOpen os net d w₁) (SameOpen-Quiet os net d w₁) fd _
                sizeof_tcp_msg _
                (poll_vec_add_fd-Quiet os (SameOpen os net d w₁) (SameOpen-Quiet os net d w₁) v fd
                  client_events w₁ (λ f. refl))))
    ]
  ]
    where
      fd : ℤ
      fd = (net.accept tcp_socket w).0

      w₁ : World
      w₁ = (net.accept tcp_socket w).2

      vec : Option PollVec
      vec = (poll_vec_add_fd os (some v) fd client_events w₁).1

      w₂ : World
      w₂ = (poll_vec_add_fd os (some v) fd client_events w₁).2

      s₁ : Server doubles
      s₁ = record s {
        recv_msg =
            message_in (recv_tcp_msg os fd (some (memory_of s.recv_msg)) sizeof_tcp_msg w₂).1
              s.recv_msg;
      }

      -- The descriptor could not be added to the poll vector.
      not_added :
          (v' : PollVec) (w' : World)
          → v' ≡ v
          → SameOpen os net d w₁ w'
          → Accounted os net d kept v' w'
      not_added v' w' q same = rw q (record {
        extra = fd;
        accounts = λ f h. ground (arith, h, same f, d.open-accept f tcp_socket w, tied.all_open f);
      })

      positive : (a : ℤ) → is_nonpos a ≡ false → is_neg a ≡ false
      positive a h = ground arith

  pub on_ready-Safe :
      (s : Server doubles) (v : PollVec) (w : World) (i : ℕ) (p : PollFd)
      → ((n : ℕ) (u : World) → eq_ℤ (net.recvfrom udp_socket n u).0 (pos 0) ≡ false)
      → get_elem? (contents v) i ≡ some p
      → TiedNow s v w
      → Safe (on_ready doubles os net udp_socket tcp_socket p s v i w)
  unfolding on_ready
  on_ready-Safe s v w i p no_empty at tied = elim (Bool-cases (eq_ℤ p.fd udp_socket)) [
    | inl q ↦
        rw (q, on_ready)
          (rounds.on_udp-Safe os limit net d doubles kept udp_socket tcp_socket s v w i no_empty
            tied)
    | inr q ↦ elim (Bool-cases (eq_ℤ p.fd tcp_socket)) [
      | inl r ↦ rw (q, r, on_ready) (on_accept-Safe s v w i tied)
      | inr r ↦
          rw (q, r, on_ready)
            (rounds.on_client-Safe os limit net d doubles kept udp_socket tcp_socket s v w i p at
              tied
              (d.open-is_neg p.fd w
                (ground (arith, tied.all_open p.fd, has_socket-get_elem? (contents v) i p at))))
    ]
  ]
