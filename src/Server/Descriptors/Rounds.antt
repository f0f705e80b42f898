-- ===== src/Server/Descriptors/Rounds.antt =====
-- Each round of `process_ready_fds` keeps what ties clients, poll vector and open descriptors.
use tcp_client_server.Prelude.{
  ℕ, suc, ◌≡◌, ◌≢◌, refl, ap, ◌∙◌, inl, inr, Bool, true, false, List, Option, none, some, arith,
  Bool-cases, get_elem?,
}
use tcp_client_server.Prelude.Int.{ℤ, pos, eq_ℤ, is_neg}
use tcp_client_server.Errors.{Err, ok}
use tcp_client_server.Os.{Os}
use tcp_client_server.Os.Laws.{ReallocLimit}
use tcp_client_server.PollVec.{PollFd, PollVec, contents}
use tcp_client_server.PollVec.Contents.{poll_vec_remove_fd-Removes}
use tcp_client_server.ClientVec.{close_active_client}
use tcp_client_server.ClientVec.Invariant.{IsValid, sockets}
use tcp_client_server.ClientVec.Invariant.Steps.{close_active_client-IsValid}
use tcp_client_server.ClientVec.Connected.{SameSockets, close_active_client-Disconnects}
use tcp_client_server.Tcp.{memory_of, sizeof_tcp_msg, recv_tcp_msg}
use tcp_client_server.Tcp.Quiet.{recv_tcp_msg-Quiet}
use tcp_client_server.Udp.{Doubles}
use tcp_client_server.Server.{Server}
use tcp_client_server.Server.Handlers.{is_ok, add_server_udp_msg, transmit_topic_to_clients}
use tcp_client_server.Server.Safety.{Kept, process_server_tcp_msg-IsValid, transmissions-IsValid}
use tcp_client_server.Server.Frame.{
  FramedIf, process_server_tcp_msg-Framed, add_server_udp_msg-Quiet,
  transmit_topic_to_clients-FramedIf,
}
use tcp_client_server.Server.Events.{
  Net, goes_on, returns, unless_error, Round, report, on_udp, on_closed, on_client, message_in,
}
use tcp_client_server.Server.Descriptors.{Descriptors, SameOpen, SameOpen-Quiet, Tied, Accounted}
use tcp_client_server.Server.Descriptors.Connections.{steady, departed, accounted}

module _ (os : Os) (limit : ReallocLimit os) (net : Net os) (d : Descriptors os net)
    (doubles : Doubles) (kept : ℤ → Bool) (udp_socket tcp_socket : ℤ) where
  open os use {World}

  abbrev pub TiedNow : Server doubles → PollVec → World → Type 0
  TiedNow = Tied os net d doubles kept udp_socket tcp_socket

  -- After a round all is tied, if the loop goes on; if it does not, the table of clients is valid, and the
  -- open descriptors are accounted for.
  abbrev pub Safe : Round doubles os net → Type 0
  Safe none = Unit
  Safe (some (goes_on i, s, v, w)) = TiedNow s v w
  Safe (some (returns e, s, v, w)) =
      (is_ok e ≡ false) × IsValid s.clients × Accounted os net d kept v w

  pub report-SameOpen : (e : Err) (w : World) → SameOpen os net d w (report doubles os net e w)
  report-SameOpen e w f = elim (Bool-cases (is_ok e)) [
    | inl q ↦ rw q refl
    | inr q ↦ rw q (d.open-fprintf f _ w)
  ]

  unless_error-Safe :
      (e : Err) (i : ℕ) (s : Server doubles) (v : PollVec) (w : World)
      → TiedNow s v w
      → Safe (some (unless_error e i, s, v, w))
  unless_error-Safe e i s v w tied = elim (Bool-cases (is_ok e)) [
    | inl q ↦ rw q tied
    | inr q ↦
        rw q
          (q, tied.clients_valid, accounted os net d doubles kept udp_socket tcp_socket s v w tied)
  ]

  module _ (s : Server doubles) (v : PollVec) (w : World) (i : ℕ) (tied : TiedNow s v w) where
    pub keep :
        (s' : Server doubles) (w' : World)
        → IsValid s'.clients
        → SameSockets s.clients s'.clients
        → SameOpen os net d w w'
        → TiedNow s' v w'
    keep = steady os net d doubles kept udp_socket tcp_socket s v w tied

    sent_on :
        (sent : Option (Err × Server doubles × World))
        → Kept doubles os limit sent
        → FramedIf doubles os (SameOpen os net d w) (SameOpen-Quiet os net d w) s sent
        → Safe (elim sent [
          | none ↦ none
          | some (e, s', w') ↦ some (unless_error e (suc i), s', v, w')
        ])
    sent_on none valid framed = tt
    sent_on (some (e, s', w')) valid framed =
        unless_error-Safe e (suc i) s' v w'
          (keep s' w' valid framed.same_sockets framed.quiet_world)

    transmitted : Safe (elim (transmit_topic_to_clients doubles os s w) [
      | none ↦ none
      | some (e, s', w') ↦ some (unless_error e (suc i), s', v, w')
    ])
    transmitted =
        sent_on _ (transmissions-IsValid doubles os limit s (pos 0) w tied.clients_valid).0 (
          transmit_topic_to_clients-FramedIf doubles os (SameOpen os net d w)
            (SameOpen-Quiet os net d w) s w (λ f. refl))

  stored :
      (s : Server doubles) (v : PollVec) (w : World) (i : ℕ)
      → TiedNow s v w
      → Safe (
          let (e, s₁, w₁) = add_server_udp_msg doubles os s w in
          let sent = transmit_topic_to_clients doubles os s₁ w₁ in
          elim (is_ok e) [
            | false ↦ some (returns e, s₁, v, w₁)
            | true ↦ elim sent [
              | none ↦ none
              | some (e', s', w') ↦ some (unless_error e' (suc i), s', v, w')
            ]
          ])
  stored s v w i tied =
      let (same, opens) =
        add_server_udp_msg-Quiet doubles os (SameOpen os net d w) (SameOpen-Quiet os net d w) s w
          (λ f. refl) in
      let valid : IsValid (add_server_udp_msg doubles os s w).1.clients =
        rw same tied.clients_valid in
      let tied₁ = keep s v w i tied _ _ valid (ap (λ c. sockets c.entities) same) opens in
      elim (Bool-cases (is_ok (add_server_udp_msg doubles os s w).0)) [
        | inl q ↦ rw q (transmitted _ v _ i tied₁)
        | inr q ↦ rw q (q, valid, accounted os net d doubles kept udp_socket tcp_socket _ v _ tied₁)
      ]

  pub on_udp-Safe :
      (s : Server doubles) (v : PollVec) (w : World) (i : ℕ)
      → ((n : ℕ) (u : World) → eq_ℤ (net.recvfrom udp_socket n u).0 (pos 0) ≡ false)
      → TiedNow s v w
      → Safe (on_udp doubles os net udp_socket s v i w)
  unfolding on_udp
  on_udp-Safe s v w i no_empty tied =
      rw (no_empty 8096 w, on_udp)
        (stored _ v _ i (
          keep s v w i tied _ _ tied.clients_valid refl (λ f. d.open-recvfrom f udp_socket 8096 w)))

  on_closed-Safe :
      (s : Server doubles) (v : PollVec) (w : World) (i : ℕ) (p : PollFd)
      → get_elem? (contents v) i ≡ some p
      → TiedNow s v w
      → is_neg p.fd ≡ false
      → Safe (on_closed doubles os net p.fd s v i w)
  unfolding on_closed
  on_closed-Safe s v w i p at tied n =
      elim (close_active_client-Disconnects s.clients p.fd tied.clients_valid n) [
        | inr (_, (e, bad, q)) ↦
            let code : (close_active_client (some s.clients) p.fd).0 ≡ e = ap (λ r. r.0) q in
            let same : (close_active_client (some s.clients) p.fd).1 ≡ some s.clients =
              ap (λ r. r.1) q in
            rw (code, not_ok e bad, same, on_closed)
              (keep s v w i tied s _ tied.clients_valid refl (report-SameOpen _ w))
        | inl (v', q, q', member, disconnects) ↦
            elim (poll_vec_remove_fd-Removes os v i w tied.poll_valid) [
              | inr (out, _) ↦ cc (at, out)
              | inl (p', u, at', r, valid, e) ↦
                  let same : p' ≡ p = cc (at, at') in
                  rw (q, q', r, same, on_closed)
                    (departed os net d doubles kept udp_socket tcp_socket s v w tied
                      (record s { clients = v' }) u i p w _ at n
                      (rw q' at (close_active_client-IsValid s.clients p.fd tied.clients_valid))
                      member disconnects valid e (λ f. refl) (λ f. d.open-printf f _ _))
            ]
      ]
    where
      not_ok : (e : Err) → e ≢ ok → is_ok e ≡ false
      not_ok e bad = ground (arith, bad)

  pub on_client-Safe :
      (s : Server doubles) (v : PollVec) (w : World) (i : ℕ) (p : PollFd)
      → get_elem? (contents v) i ≡ some p
      → TiedNow s v w
      → is_neg p.fd ≡ false
      → Safe (on_client doubles os net p.fd s v i w)
  unfolding on_client
  on_client-Safe s v w i p at tied n = elim (Bool-cases (is_ok r.0)) [
    | inl q ↦
        let framed =
          process_server_tcp_msg-Framed doubles os (SameOpen os net d w₁)
            (SameOpen-Quiet os net d w₁) s₁ p.fd w₁ (λ f. refl) in
        rw (q, on_client)
          (keep s₁ v w₁ i tied₁ _ _
            (process_server_tcp_msg-IsValid doubles os limit s₁ p.fd w₁ tied.clients_valid)
            framed.same_sockets (λ f. report-SameOpen _ _ f ∙ framed.quiet_world f))
    | inr q ↦ rw (q, on_client) (on_closed-Safe s₁ v w₁ i p at tied₁ n)
  ]
    where
      r : Err × Option (List ℕ) × World
      r = recv_tcp_msg os p.fd (some (memory_of s.recv_msg)) sizeof_tcp_msg w

      w₁ : World
      w₁ = r.2

      s₁ : Server doubles
      s₁ = record s { recv_msg = message_in r.1 s.recv_msg }

      tied₁ : TiedNow s₁ v w₁
      tied₁ = keep s v w i tied s₁ w₁ tied.clients_valid refl (
          recv_tcp_msg-Quiet os (SameOpen os net d w) (SameOpen-Quiet os net d w) p.fd _
            sizeof_tcp_msg w (λ f. refl))
