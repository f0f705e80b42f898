-- ===== src/Server/Resending.antt =====
-- server_utils.c, `retransmit_topics_to_client`: what a client that is back gets on its socket.
use tcp_client_server.Prelude.{
  ℕ, zero, suc, ◌<◌, ◌≤◌, ◌≡◌, ◌⊎◌, List, [], ◌++◌, none, some, length, take,
}
use tcp_client_server.Prelude.Int.{ℤ}
use tcp_client_server.Os.{Os}
use tcp_client_server.Os.Laws.{Streams, Separate}
use tcp_client_server.ClientVec.{MsgPtr}
use tcp_client_server.Tcp.{TcpMsg, memory_of}
use tcp_client_server.Udp.{Doubles, UdpMsg}
use tcp_client_server.Server.{Server}
use tcp_client_server.Server.Printing.{data_text, pack_topic_to_tcp_msg}
use tcp_client_server.Server.Handlers.{queued}

module _ (doubles : Doubles) where
  -- Every pointer of the queue leads to a message that can be packed.
  abbrev pub Packable : Server doubles → List MsgPtr → Type 0
  Packable s queue =
      (i : ℕ)
      → i < length queue
      → (m : UdpMsg doubles) × (text : List ℕ) × (queued doubles s queue i ≡ some m)
        × (data_text doubles m.udp_type m.udp_data ≡ some text)
        × (length m.topic ≤ 51)

  -- The packed messages of the first `left` entries of the queue, the last of them first. Each is packed into
  -- the buffer that the one before it was in.
  unfoldable pub resent : Server doubles → List MsgPtr → ℕ → TcpMsg → List ℕ
  resent s queue zero b = []
  resent s queue (suc left) b = elim (queued doubles s queue left) [
    | none ↦ []
    | some m ↦
        let b' = (pack_topic_to_tcp_msg doubles b m).1 in memory_of b' ++ resent s queue left b'
  ]

module _ (doubles : Doubles) (os : Os) (streams : Streams os) (separate : Separate os streams) where
  open os use {World}
  open streams use {sent}

  -- All the bytes have gone out, or a proper prefix of them.
  abbrev pub GoneOut : ℤ → List ℕ → World → World → Type 0
  GoneOut fd bytes w w' =
      (sent fd w' ≡ sent fd w ++ bytes)
      ⊎ ((k : ℕ) × (k < length bytes) × (sent fd w' ≡ sent fd w ++ take k bytes))
