-- ===== src/ClientVec/Invariant/Reach.antt =====
-- The table of clients over its life: created empty, and changed by the calls of the server.
use tcp_client_server.Prelude.{ℕ, ◌*◌, ◌≤◌, ◌<◌, ◌≡◌, false, [], none, some, arith, Text}
use tcp_client_server.Prelude.Int.{ℤ, is_neg}
use tcp_client_server.Errors.{ok}
use tcp_client_server.Os.{Os}
use tcp_client_server.Os.Laws.{ReallocLimit, ptrdiff_max}
use tcp_client_server.ClientVec.{
  ClientVec, SfOption, MsgPtr, sizeof_client, create_clients_vec, close_active_client,
  register_new_client,
}
use tcp_client_server.ClientVec.Topics.{
  unsubscribe_client_from_topic, subscribe_client_to_topic, add_topic_msg_for_client,
}
use tcp_client_server.ClientVec.Invariant.{IsValid, sockets}
use tcp_client_server.ClientVec.Invariant.Sockets.{has_socket}
use tcp_client_server.ClientVec.Invariant.Register.{register_new_client-IsValid}
use tcp_client_server.ClientVec.Invariant.Steps.{
  close_active_client-IsValid, unsubscribe_client_from_topic-IsValid,
  subscribe_client_to_topic-IsValid, add_topic_msg_for_client-IsValid,
}

module _ (os : Os) where
  open os use {World}

  -- One call on the table. The kernel gives a new connection a socket that no open one has.
  pub data Step (v v' : ClientVec) : Type 0 where
    registers :
        (id : Text) (fd : ℤ) (w : World)
        → is_neg fd ≡ false
        → has_socket fd (sockets v.entities) ≡ false
        → (register_new_client os (some v) id fd w).1 ≡ some v'
        → Step v v'
    closes : (fd : ℤ) → (close_active_client (some v) fd).1 ≡ some v' → Step v v'
    subscribes :
        (fd : ℤ) (topic : Text) (option : SfOption) (w : World)
        → (subscribe_client_to_topic os (some v) fd topic option w).1 ≡ some v'
        → Step v v'
    unsubscribes :
        (fd : ℤ) (topic : Text)
        → (unsubscribe_client_from_topic (some v) fd topic).1 ≡ some v'
        → Step v v'
    queues :
        (udp_msg : MsgPtr) (client_idx : ℕ) (w : World)
        → (add_topic_msg_for_client os (some v) udp_msg client_idx w).1 ≡ some v'
        → Step v v'

  pub data Reach (v : ClientVec) : ClientVec → Type 0 where
    start : Reach v v
    then_step : {u v' : ClientVec} → Reach v u → Step u v' → Reach v v'

module _ (os : Os) (limit : ReallocLimit os) where
  pub Step-IsValid : (v v' : ClientVec) → Step os v v' → IsValid v → IsValid v'
  Step-IsValid v v' (registers id fd w open_fd fresh e) valid =
      rw e at (register_new_client-IsValid v id fd valid open_fd fresh os limit w)
  Step-IsValid v v' (closes fd e) valid = rw e at (close_active_client-IsValid v fd valid)
  Step-IsValid v v' (subscribes fd topic option w e) valid =
      rw e at (subscribe_client_to_topic-IsValid os limit v fd topic option w valid)
  Step-IsValid v v' (unsubscribes fd topic e) valid =
      rw e at (unsubscribe_client_from_topic-IsValid v fd topic valid)
  Step-IsValid v v' (queues udp_msg client_idx w e) valid =
      rw e at (add_topic_msg_for_client-IsValid os limit v udp_msg client_idx w valid)

  Reach-keeps : {v v' : ClientVec} → Reach os v v' → IsValid v → IsValid v'
  Reach-keeps start valid = valid
  Reach-keeps (then_step {u = u} {v' = v'} r s) valid = Step-IsValid u v' s (Reach-keeps r valid)

  created :
      (init_clients : ℕ) (w w' : os.World) (v : ClientVec)
      → 0 < init_clients
      → sizeof_client * init_clients ≤ ptrdiff_max
      → create_clients_vec os (some none) init_clients w ≡ (ok, some (some v), w')
      → IsValid v
  unfolding create_clients_vec
  created init_clients w w' v pos small e = rw same (record {
    wellformed = tt;
    linked = tt;
    ids_distinct = tt;
    sockets_distinct = tt;
    in_array = omega arith;
    has_room = pos;
    small = small;
  })
    where
      same : v ≡ record { entities = []; capacity = init_clients }
      same = ground arith

  pub Reach-IsValid :
      (init_clients : ℕ) (w w' : os.World) (v v' : ClientVec)
      → 0 < init_clients
      → sizeof_client * init_clients ≤ ptrdiff_max
      → create_clients_vec os (some none) init_clients w ≡ (ok, some (some v), w')
      → Reach os v v'
      → IsValid v'
  Reach-IsValid init_clients w w' v v' pos small e r =
      Reach-keeps r (created init_clients w w' v pos small e)
