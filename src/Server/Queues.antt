-- ===== src/Server/Queues.antt =====
-- Cutting the queue of a client, as after a retransmission, keeps the table of clients valid.
use tcp_client_server.Prelude.{
  ℕ, ◌≡◌, refl, inl, inr, List, arith, Bool-cases, take, length, length-take, length-map, map, ap,
  All, [], ◌∷◌,
}
use tcp_client_server.Prelude.Int.{ℤ, eq_ℤ}
use tcp_client_server.ClientVec.{Client, ClientVec}
use tcp_client_server.ClientVec.Invariant.{IsValid, IsLinkedClient}
use tcp_client_server.ClientVec.Wellformed.{IsWellformed}
use tcp_client_server.Server.Handlers.{QueueEnd, queue_after, cut_queue}

cut_queue-All {κ} :
    (P : Client → Type κ)
    → ((n : ℕ) (c : Client) → P c → P (record c { ready_msgs = take n c.ready_msgs }))
    → (fd : ℤ) (n : ℕ) (cs : List Client) → All P cs
    → All P (cut_queue fd n cs)
unfolding cut_queue
cut_queue-All P keep fd n [] h = tt
cut_queue-All P keep fd n (c ∷ cs) h = elim (Bool-cases (eq_ℤ c.fd fd)) [
  | inl e ↦ rw (e, cut_queue) (keep n c h.0, h.1)
  | inr e ↦ rw (e, cut_queue) (h.0, cut_queue-All P keep fd n cs h.1)
]

pub cut_queue-map {κ} :
    {B : Type κ} (f : Client → B)
    → ((n : ℕ) (c : Client) → f (record c { ready_msgs = take n c.ready_msgs }) ≡ f c)
    → (fd : ℤ) (n : ℕ) (cs : List Client) → map f (cut_queue fd n cs) ≡ map f cs
unfolding cut_queue
cut_queue-map f same fd n [] = refl
cut_queue-map f same fd n (c ∷ cs) = elim (Bool-cases (eq_ℤ c.fd fd)) [
  | inl e ↦ rw (e, cut_queue) (ap (λ b. b ∷ map f cs) (same n c))
  | inr e ↦ rw (e, cut_queue) (ap (◌∷◌ (f c)) (cut_queue-map f same fd n cs))
]

cut-IsWellformed :
    (n : ℕ) (c : Client)
    → IsWellformed c
    → IsWellformed (record c { ready_msgs = take n c.ready_msgs })
cut-IsWellformed n c h = record {
  paired = h.paired;
  distinct = h.distinct;
  topics_fit = h.topics_fit;
  queue_fits = omega (arith, length-take n c.ready_msgs, h.queue_fits);
}

cut_queue-IsValid :
    (fd : ℤ) (n : ℕ) (v : ClientVec)
    → IsValid v
    → IsValid (record v { entities = cut_queue fd n v.entities })
cut_queue-IsValid fd n v valid = record {
  wellformed = cut_queue-All IsWellformed cut-IsWellformed fd n v.entities valid.wellformed;
  linked = cut_queue-All IsLinkedClient (λ n c h. h) fd n v.entities valid.linked;
  ids_distinct = rw (cut_queue-map (λ c. c.id) (λ n c. refl) fd n v.entities) valid.ids_distinct;
  sockets_distinct =
      rw (cut_queue-map (λ c. c.fd) (λ n c. refl) fd n v.entities) valid.sockets_distinct;
  in_array = omega (
    arith,
    ap length (cut_queue-map (λ c. c.id) (λ n c. refl) fd n v.entities),
    length-map v.entities (λ c. c.id),
    length-map (cut_queue fd n v.entities) (λ c. c.id),
    valid.in_array,
  );
  has_room = valid.has_room;
  small = valid.small;
}

pub queue_after-IsValid :
    (fd : ℤ) (how : QueueEnd) (v : ClientVec)
    → IsValid v
    → IsValid (record v { entities = (queue_after fd how v.entities).1 })
unfolding queue_after
queue_after-IsValid fd QueueEnd.drained v valid = cut_queue-IsValid fd 0 v valid
queue_after-IsValid fd (QueueEnd.broken n) v valid =
    cut_queue-IsValid fd 0 (record v { entities = cut_queue fd n v.entities })
      (cut_queue-IsValid fd n v valid)
queue_after-IsValid fd (QueueEnd.unpacked e n) v valid = cut_queue-IsValid fd n v valid
