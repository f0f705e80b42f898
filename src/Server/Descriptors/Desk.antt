-- ===== src/Server/Descriptors/Desk.antt =====
-- The calls of the server on a machine that keeps count of the open descriptors.
use tcp_client_server.Prelude.{
  zero, ℕ, suc, ◌≡◌, refl, Bool, true, false, ◌||◌, ◌&&◌, not, [], ◌∷◌, some, arith,
}
use tcp_client_server.Prelude.Int.{ℤ, pos, negsuc, eq_ℤ, eq_ℤ_iff, is_neg}
use tcp_client_server.Os.Desk.{Desk, desk_os, empty_desk, among, among-without, next, next_is_new}
use tcp_client_server.PollVec.{PollVec}
use tcp_client_server.ClientVec.Invariant.Sockets.{has_socket}
use tcp_client_server.Udp.{SockAddr}
use tcp_client_server.Server.{Server}
use tcp_client_server.Server.Events.{Net}
pub use tcp_client_server.Server.Sample.{no_doubles, an_address}
use tcp_client_server.Server.Descriptors.{Descriptors, Tied}

abbrev pub accepted : Desk → ℕ → ℤ × SockAddr × Desk
accepted w zero = (negsuc 0, an_address, w)
accepted w (suc n) = (
  pos (next w.opened),
  an_address,
  record w { waiting = n; opened = pos (next w.opened) ∷ w.opened },
)

abbrev pub desk_net : Net desk_os
desk_net = record {
  accept = λ fd w. accepted w w.waiting;
  recvfrom = λ fd n w. (pos 51, [], an_address, w);
  printf = λ text w. w;
}

abbrev pub is_open : ℤ → Desk → Bool
is_open f w = not (is_neg f) && among f w.opened

pub accepted_fresh :
    (w : Desk) (n : ℕ) → is_neg (accepted w n).0 ≡ false → is_open (accepted w n).0 w ≡ false
accepted_fresh w zero h = cc
accepted_fresh w (suc n) h = next_is_new w.opened

pub open-accepted :
    (f : ℤ) (w : Desk) (n : ℕ)
    → is_open f (accepted w n).2
      ≡ (is_open f w || (not (is_neg (accepted w n).0) && eq_ℤ (accepted w n).0 f))
unfolding among
open-accepted f w zero = ground arith
open-accepted f w (suc n) = ground (arith, eq_ℤ_iff (pos (next w.opened)) f)

pub open-is_neg : (f : ℤ) (w : Desk) → is_open f w ≡ true → is_neg f ≡ false
open-is_neg f w h = ground arith

pub open-close :
    (f fd : ℤ) (w : Desk) → is_open f (desk_os.close fd w) ≡ (is_open f w && not (eq_ℤ fd f))
open-close f fd w = ground (arith, among-without f fd w.opened)

unfoldable pub desk_descriptors : Descriptors desk_os desk_net
desk_descriptors = record {
  is_open = is_open;
  open-is_neg = open-is_neg;
  open-close = open-close;
  accept_fresh = λ l w h. accepted_fresh w w.waiting h;
  open-accept = λ f l w. open-accepted f w w.waiting;
  open-recvfrom = λ f fd n w. refl;
  open-printf = λ f text w. refl;
  open-malloc = λ f n w. refl;
  open-realloc = λ f n w. refl;
  open-send = λ f fd bytes w. refl;
  open-recv = λ f fd n w. refl;
  open-fprintf = λ f text w. refl;
}

-- A connection waits, and its client sends an id and nothing more.
abbrev pub desk : Desk
desk = record empty_desk { opened = pos 0 ∷ pos 1 ∷ pos 2 ∷ pos 3 ∷ pos 4 ∷ []; waiting = 1 }

abbrev pub a_server : Server no_doubles
a_server = record {
  clients = record { entities = []; capacity = 10 };
  udp_msgs = [];
  udp_msgs_base = 4096;
  udp_msgs_capacity = 20;
  udp_addr_client = an_address;
  buf = [];
  send_msg = record { len = 0; bytes = [] };
  recv_msg = record { len = 0; bytes = [] };
}

abbrev pub polled : PollVec
polled = record {
  pfds = some (
      record { fd = pos 0; events = 1; revents = 0 }
      ∷ record { fd = pos 3; events = 1; revents = 1 }
      ∷ record { fd = pos 4; events = 1; revents = 1 }
      ∷ []);
  nfds = 3;
  capacity = 10;
}

abbrev pub standard : ℤ → Bool
standard f = eq_ℤ (pos 1) f || eq_ℤ (pos 2) f

pub desk-Tied :
    Tied desk_os desk_net desk_descriptors no_doubles standard (pos 3) (pos 4) a_server polled desk
unfolding desk_descriptors among has_socket
desk-Tied = record {
  clients_valid = omega arith;
  poll_valid = omega arith;
  apart = (refl, (refl, (refl, tt)));
  all_open = λ f. ground arith;
  kept_apart = λ f h. ground arith;
  stdin_first = refl;
  stdin_polled = refl;
  udp_polled = refl;
  tcp_polled = refl;
  clients_polled = λ f n. ground arith;
}
