-- ===== src/Server/Descriptors/Loop.antt =====
-- `process_ready_fds` keeps what ties clients, poll vector and open descriptors.
use tcp_client_server.Prelude.{
  ℕ, zero, suc, ◌+◌, ◌≡◌, inl, inr, Bool, true, false, none, some, Bool-cases, Option-cases,
  get_elem?,
}
use tcp_client_server.Prelude.Int.{ℤ, pos, eq_ℤ}
use tcp_client_server.Os.{Os}
use tcp_client_server.Os.Laws.{ReallocLimit}
use tcp_client_server.PollVec.{PollVec, contents}
use tcp_client_server.ClientVec.Invariant.{IsValid}
use tcp_client_server.Udp.{Doubles}
use tcp_client_server.Server.{Server}
use tcp_client_server.Server.Handlers.{is_ok}
use tcp_client_server.Server.Events.{
  Net, is_ready, goes_on, returns, Round, on_ready, Run, returned, undefined, out_of_fuel,
  ready_loop, process_ready_fds,
}
use tcp_client_server.Server.Events.Fuel.{Finished, process_ready_fds-Finished}
use tcp_client_server.Server.Descriptors.{Descriptors, Tied, Accounted}
use tcp_client_server.Server.Descriptors.Rounds.{Safe}
use tcp_client_server.Server.Descriptors.Accepting.{on_ready-Safe}
use tcp_client_server.Server.Descriptors.Connections.{accounted}

module _ (os : Os) (limit : ReallocLimit os) (net : Net os) (d : Descriptors os net)
    (doubles : Doubles) (kept : ℤ → Bool) (udp_socket tcp_socket : ℤ) where
  open os use {World}

  abbrev TiedNow : Server doubles → PollVec → World → Type 0
  TiedNow = Tied os net d doubles kept udp_socket tcp_socket

  -- How the loop may end: with a valid table of clients, and with all tied if it returns OK.
  abbrev pub ServedIf : Run doubles os net → Type 0
  ServedIf (returned e s v w) =
      IsValid s.clients × Accounted os net d kept v w × (is_ok e ≡ true → TiedNow s v w)
  ServedIf undefined = Unit
  ServedIf out_of_fuel = Unit

  -- The loop does end, unless it would follow a pointer that leads nowhere.
  abbrev pub Served : Run doubles os net → Type 0
  Served (returned e s v w) =
      IsValid s.clients × Accounted os net d kept v w × (is_ok e ≡ true → TiedNow s v w)
  Served undefined = Unit
  Served out_of_fuel = ⊥

  ready_loop-ServedIf :
      ((n : ℕ) (u : World) → eq_ℤ (net.recvfrom udp_socket n u).0 (pos 0) ≡ false)
      → (fuel i : ℕ) (s : Server doubles) (v : PollVec) (w : World) → TiedNow s v w
      → ServedIf (ready_loop doubles os net udp_socket tcp_socket fuel i s v w)
  unfolding ready_loop
  ready_loop-ServedIf no_empty zero i s v w tied = tt
  ready_loop-ServedIf no_empty (suc fuel) i s v w tied =
      elim (Option-cases (get_elem? (contents v) i)) [
        | inl e ↦
            rw (e, ready_loop)
              (
                tied.clients_valid,
                accounted os net d doubles kept udp_socket tcp_socket s v w tied,
                λ _. tied,
              )
        | inr (p, e) ↦ elim (Bool-cases (is_ready p)) [
          | inr idle ↦
              rw (e, idle, ready_loop) (ready_loop-ServedIf no_empty fuel (suc i) s v w tied)
          | inl ready ↦
              rw (e, ready, ready_loop)
                (after_round
                  (λ i' s' v' w' tied'. ready_loop-ServedIf no_empty fuel i' s' v' w' tied')
                  (on_ready doubles os net udp_socket tcp_socket p s v i w)
                  (on_ready-Safe os limit net d doubles kept udp_socket tcp_socket s v w i p
                    no_empty e tied))
        ]
      ]
    where
      after_round :
          ((i' : ℕ) (s' : Server doubles) (v' : PollVec) (w' : World)
            → TiedNow s' v' w'
            → ServedIf (ready_loop doubles os net udp_socket tcp_socket fuel i' s' v' w'))
          → (r : Round doubles os net) → Safe os limit net d doubles kept udp_socket tcp_socket r
          → ServedIf (elim r [
            | none ↦ undefined
            | some (returns e, s', v', w') ↦ returned e s' v' w'
            | some (goes_on i', s', v', w') ↦
                ready_loop doubles os net udp_socket tcp_socket fuel i' s' v' w'
          ])
      after_round again none h = tt
      after_round again (some (returns e, s', v', w')) h = (h.1, h.2, λ q. cc (q, h.0))
      after_round again (some (goes_on i', s', v', w')) h = again i' s' v' w' h

  -- With a realloc that refuses sizes beyond PTRDIFF_MAX, with calls that open and close descriptors as
  -- documented, and if no empty datagram arrives: when the table of clients and the poll vector are valid,
  -- no descriptor is polled twice, the standard input is polled first, the open descriptors are those polled
  -- and some that are kept for other purposes, and the clients have just the sockets that are polled beside
  -- the standard input and the two sockets of the server, then `process_ready_fds` ends with a valid table of
  -- clients, with all of this again if it returns OK, and otherwise with at most one descriptor open that is
  -- neither polled nor kept, whoever connects, sends and disconnects; unless it stops where the source would
  -- follow a pointer that leads nowhere.
  pub process_ready_fds-Served :
      ((n : ℕ) (u : World) → eq_ℤ (net.recvfrom udp_socket n u).0 (pos 0) ≡ false)
      → (s : Server doubles) (v : PollVec) (w : World) → TiedNow s v w
      → Served (process_ready_fds doubles os net udp_socket tcp_socket s v w)
  unfolding process_ready_fds
  process_ready_fds-Served no_empty s v w tied =
      both (ready_loop doubles os net udp_socket tcp_socket (v.nfds + v.nfds + 1) 1 s v w)
        (process_ready_fds-Finished doubles os limit net udp_socket tcp_socket s v w
          tied.poll_valid)
        (ready_loop-ServedIf no_empty (v.nfds + v.nfds + 1) 1 s v w tied)
    where
      both : (r : Run doubles os net) → Finished doubles os limit net r → ServedIf r → Served r
      both (returned e s v w) finished served = served
      both undefined finished served = tt
      both out_of_fuel finished served = finished
