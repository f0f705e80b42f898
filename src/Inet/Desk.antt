-- ===== src/Inet/Desk.antt =====
-- The socket calls, `poll` and `fgets` on a machine that keeps count of the open descriptors.
use tcp_client_server.Prelude.{ℕ, ◌≡◌, refl, ◌||◌, List, [], ◌∷◌, Option, none, some, arith, length}
use tcp_client_server.Prelude.Int.{ℤ, pos, negsuc, eq_ℤ, eq_ℤ_iff}
use tcp_client_server.Os.Desk.{Desk, desk_os, among, next, next_is_new}
use tcp_client_server.Server.Descriptors.Desk.{desk_net, is_open, desk_descriptors}
use tcp_client_server.Inet.{Inet, Sockets}

abbrev polled : Desk → List (List ℕ) → ℤ × List ℕ × Desk
polled w [] = (negsuc 0, [], w)
polled w (events ∷ rest) = (pos (length events), events, record w { ready = rest })

abbrev typed : Desk → List (List ℕ) → Option (List ℕ) × Desk
typed w [] = (none, w)
typed w (line ∷ rest) = (some line, record w { typed = rest })

abbrev pub desk_inet : Inet desk_os
desk_inet = record {
  socket = λ type w. (pos (next w.opened), record w { opened = pos (next w.opened) ∷ w.opened });
  setsockopt = λ fd w. (pos 0, w);
  bind = λ fd addr w. (pos 0, w);
  listen = λ fd n w. (pos 0, w);
  connect = λ fd addr w. (pos 0, w);
  inet_addr = λ text. 16777343;
  poll = λ ps w. polled w w.ready;
  fgets = λ n w. typed w w.typed;
}

open-socket :
    (f : ℤ) (w : Desk)
    → is_open f (record w { opened = pos (next w.opened) ∷ w.opened })
      ≡ (is_open f w || eq_ℤ (pos (next w.opened)) f)
unfolding among
open-socket f w = ground (arith, eq_ℤ_iff (pos (next w.opened)) f)

open-polled :
    (f : ℤ) (w : Desk) (events : List (List ℕ)) → is_open f (polled w events).2 ≡ is_open f w
open-polled f w [] = refl
open-polled f w (e ∷ es) = refl

open-typed : (f : ℤ) (w : Desk) (lines : List (List ℕ)) → is_open f (typed w lines).1 ≡ is_open f w
open-typed f w [] = refl
open-typed f w (l ∷ ls) = refl

pub desk_sockets : Sockets desk_os desk_net desk_descriptors desk_inet
unfolding desk_descriptors
desk_sockets = record {
  socket_fresh = λ type w h. next_is_new w.opened;
  open-socket = λ f type w. open-socket f w;
  open-setsockopt = λ f fd w. refl;
  open-bind = λ f fd addr w. refl;
  open-listen = λ f fd n w. refl;
  open-connect = λ f fd addr w. refl;
  open-poll = λ f ps w. open-polled f w w.ready;
  open-fgets = λ f n w. open-typed f w w.typed;
}
