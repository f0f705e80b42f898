-- ===== src/Server/Events/Fuel.antt =====
-- The loop of `process_ready_fds` ends: each round takes something from what is left to do.
use tcp_client_server.Prelude.{
  ℕ, zero, suc, ◌+◌, ◌<◌, inl, inr, none, some, arith, Bool-cases, Option-cases, get_elem?,
}
use tcp_client_server.Prelude.Int.{ℤ}
use tcp_client_server.Os.{Os}
use tcp_client_server.Os.Laws.{ReallocLimit}
use tcp_client_server.PollVec.{PollVec, contents}
use tcp_client_server.PollVec.Invariant.{IsValid}
use tcp_client_server.PollVec.Contents.{length-contents}
use tcp_client_server.Udp.{Doubles}
use tcp_client_server.Server.{Server}
use tcp_client_server.Server.Events.{
  Net, is_ready, goes_on, returns, Round, on_ready, Run, returned, undefined, out_of_fuel,
  ready_loop, process_ready_fds,
}
use tcp_client_server.Server.Events.Weight.{left_from, weight-idle, weight-le, weight-drop}
use tcp_client_server.Server.Events.Rounds.{Progress, on_ready-Progress}

module _ (doubles : Doubles) (os : Os) (limit : ReallocLimit os) (net : Net os) where
  open os use {World}

  -- The loop did not run out of fuel, and the poll vector that it leaves is valid.
  abbrev pub Finished : Run doubles os net → Type 0
  Finished (returned e s v w) = IsValid v
  Finished undefined = Unit
  Finished out_of_fuel = ⊥

  ready_loop-Finished :
      (udp_socket tcp_socket : ℤ) (fuel i : ℕ) (s : Server doubles) (v : PollVec) (w : World)
      → IsValid v
      → left_from (contents v) i < fuel
      → Finished (ready_loop doubles os net udp_socket tcp_socket fuel i s v w)
  unfolding ready_loop
  ready_loop-Finished udp_socket tcp_socket zero i s v w valid h = absurd (omega arith)
  ready_loop-Finished udp_socket tcp_socket (suc fuel) i s v w valid h =
      elim (Option-cases (get_elem? (contents v) i)) [
        | inl e ↦ rw (e, ready_loop) valid
        | inr (p, e) ↦ elim (Bool-cases (is_ready p)) [
          | inr idle ↦
              rw (e, idle, ready_loop)
                (ready_loop-Finished udp_socket tcp_socket fuel (suc i) s v w valid
                  (omega (arith, weight-idle (contents v) i p e idle)))
          | inl ready ↦
              rw (e, ready, ready_loop)
                (after_round
                  (λ i' s' v' w' valid' less.
                    ready_loop-Finished udp_socket tcp_socket fuel i' s' v' w' valid' (omega arith))
                  (on_ready doubles os net udp_socket tcp_socket p s v i w)
                  (on_ready-Progress doubles os limit net v i p valid e ready udp_socket tcp_socket
                    s w))
        ]
      ]
    where
      after_round :
          ((i' : ℕ) (s' : Server doubles) (v' : PollVec) (w' : World)
            → IsValid v'
            → left_from (contents v') i' < left_from (contents v) i
            → Finished (ready_loop doubles os net udp_socket tcp_socket fuel i' s' v' w'))
          → (r : Round doubles os net) → Progress doubles os limit net (left_from (contents v) i) r
          → Finished (elim r [
            | none ↦ undefined
            | some (returns e, s', v', w') ↦ returned e s' v' w'
            | some (goes_on i', s', v', w') ↦
                ready_loop doubles os net udp_socket tcp_socket fuel i' s' v' w'
          ])
      after_round again none h = tt
      after_round again (some (returns e, s', v', w')) h = h
      after_round again (some (goes_on i', s', v', w')) h = again i' s' v' w' h.0 h.1

  pub process_ready_fds-Finished :
      (udp_socket tcp_socket : ℤ) (s : Server doubles) (v : PollVec) (w : World)
      → IsValid v
      → Finished (process_ready_fds doubles os net udp_socket tcp_socket s v w)
  unfolding process_ready_fds
  process_ready_fds-Finished udp_socket tcp_socket s v w valid =
      ready_loop-Finished udp_socket tcp_socket (v.nfds + v.nfds + 1) 1 s v w valid
        (omega (arith, weight-drop (contents v) 1, weight-le (contents v), length-contents v valid))
