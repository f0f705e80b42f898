-- ===== src/Server/Retransmission.antt =====
-- server_utils.c, `retransmit_topics_to_client`: what becomes of the queue of a client that is back.
use tcp_client_server.Prelude.{
  ℕ, ◌<◌, ◌≡◌, ◌⊎◌, refl, ap, inl, inr, false, List, [], ◌∷◌, some, Bool-cases, length,
}
use tcp_client_server.Prelude.Int.{ℤ, eq_ℤ}
use tcp_client_server.Errors.{ok}
use tcp_client_server.Os.{Os}
use tcp_client_server.ClientVec.{Client, MsgPtr}
use tcp_client_server.Udp.{Doubles, UdpMsg}
use tcp_client_server.Server.{Server}
use tcp_client_server.Server.Printing.{data_text}
use tcp_client_server.Server.Handlers.{
  queued, QueueEnd, drained, broken, queue_on, cut_queue, queue_after,
}

-- The queues of the clients on other sockets are kept, and the one on the socket is empty.
abbrev pub Emptied : ℤ → List Client → List Client → Type 0
Emptied fd xs ys =
    (queue_on fd ys ≡ some [])
    × ((f : ℤ) → eq_ℤ fd f ≡ false → queue_on f ys ≡ queue_on f xs)
    × (length ys ≡ length xs)

-- Cutting the queue first to some length makes no difference.
cut_queue-twice :
    (fd : ℤ) (n : ℕ) (xs : List Client) → cut_queue fd 0 (cut_queue fd n xs) ≡ cut_queue fd 0 xs
unfolding cut_queue
cut_queue-twice fd n [] = refl
cut_queue-twice fd n (c ∷ cs) = elim (Bool-cases (eq_ℤ c.fd fd)) [
  | inl found ↦ rw (found, cut_queue, found) refl
  | inr other ↦ rw (other, cut_queue, other, cut_queue-twice fd n cs) refl
]

-- Both ways in which the loop ends leave the queue empty.
pub queue_after_end :
    (fd : ℤ) (cs : List Client) (how : QueueEnd)
    → (how ≡ drained) ⊎ ((n : ℕ) × (how ≡ broken n))
    → queue_after fd how cs ≡ (ok, cut_queue fd 0 cs)
unfolding queue_after
queue_after_end fd cs how (inl e) = rw e refl
queue_after_end fd cs how (inr (n, e)) = rw e (ap (λ ds. (ok, ds)) (cut_queue-twice fd n cs))

module _ (doubles : Doubles) where
  -- Every pointer of the queue leads to a message with data that can be printed.
  abbrev pub Ready : Server doubles → List MsgPtr → Type 0
  Ready s queue =
      (i : ℕ)
      → i < length queue
      → (m : UdpMsg doubles) × (text : List ℕ) × (queued doubles s queue i ≡ some m)
        × (data_text doubles m.udp_type m.udp_data ≡ some text)
