-- ===== src/Server.antt =====
-- server_utils.h and server_utils.c: what the server keeps, and what it does with a message.
-- The server is the one that `init_server` leaves, with no pointer NULL. A pointer to a message is the
-- address of the array with an index, and is followed in the array that the server has now.
pub mod Printing
pub mod Handlers
pub mod Text
pub mod Packing
pub mod Store
pub mod Delivery
pub mod Transmission
pub mod Hearing
pub mod Sending
pub mod Sample
pub mod Retransmission
pub mod Resending
pub mod Queues
pub mod Safety
pub mod Frame
pub mod Descriptors
pub mod Setup
pub mod Program
pub mod Events
mod Tests
use tcp_client_server.Prelude.{
  ℕ, ◌+◌, ◌-◌, ◌*◌, ◌/◌, ◌%◌, ◌^◌, List, [], ◌∷◌, Option, none, some, ◌==◌, if◌then◌else◌,
  get_elem?,
}
use tcp_client_server.Prelude.Int.{ℤ}
use tcp_client_server.ClientVec.{ClientVec, MsgPtr}
use tcp_client_server.Tcp.{TcpMsg}
use tcp_client_server.Udp.{Doubles, SockAddr, UdpMsg}

module _ (doubles : Doubles) where
  -- The fields of `server_t` that the handlers of messages use. `udp_msgs_len` is the length of the
  -- list, and `udp_msgs_base` the address of the array.
  pub record Server : Type 0 where
    pub clients : ClientVec
    pub udp_msgs : List (UdpMsg doubles)
    pub udp_msgs_base : ℕ
    pub udp_msgs_capacity : ℕ
    pub udp_addr_client : SockAddr
    pub buf : List ℕ
    pub send_msg : TcpMsg
    pub recv_msg : TcpMsg

  -- The message behind a pointer, or `none` if the pointer does not lead into the array.
  unfoldable pub load : Server → MsgPtr → Option (UdpMsg doubles)
  load s p = if p.base == s.udp_msgs_base then get_elem? s.udp_msgs p.index else none
