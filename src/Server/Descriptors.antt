-- ===== src/Server/Descriptors.antt =====
-- Which descriptors are open while the server runs, and what they have to do with the poll vector and the
-- table of clients.
pub mod Polled
pub mod Connections
pub mod Rounds
pub mod Accepting
pub mod Loop
pub mod Desk
mod Tests
use Prim.Native.String.{String}
use tcp_client_server.Prelude.{
  ℕ, ◌≡◌, ◌∙◌, Bool, true, false, ◌||◌, ◌&&◌, not, List, Text, get_elem?, some,
}
use tcp_client_server.Prelude.Int.{ℤ, pos, eq_ℤ, is_neg}
use tcp_client_server.Os.{Os}
use tcp_client_server.Os.Quiet.{Quiet}
use tcp_client_server.PollVec.{PollVec, contents}
use tcp_client_server.PollVec.Invariant as poll
use tcp_client_server.ClientVec.Invariant.{IsValid, sockets}
use tcp_client_server.ClientVec.Invariant.Sockets.{has_socket}
use tcp_client_server.Udp.{Doubles}
use tcp_client_server.Server.{Server}
use tcp_client_server.Server.Events.{Net}
use Polled.{fds, Apart}

-- close(2) and accept(2): a descriptor is not negative, `close` takes one from those that are open, and
-- `accept` gives one that was not open. The other calls open and close none.
pub record Descriptors (os : Os) (net : Net os) : Type 0 where
  pub is_open : ℤ → os.World → Bool
  pub open-is_neg : (f : ℤ) (w : os.World) → is_open f w ≡ true → is_neg f ≡ false
  pub open-close :
      (f fd : ℤ) (w : os.World) → is_open f (os.close fd w) ≡ (is_open f w && not (eq_ℤ fd f))
  pub accept_fresh :
      (l : ℤ) (w : os.World)
      → is_neg (net.accept l w).0 ≡ false
      → is_open (net.accept l w).0 w ≡ false
  pub open-accept :
      (f l : ℤ) (w : os.World)
      → is_open f (net.accept l w).2
        ≡ (is_open f w || (not (is_neg (net.accept l w).0) && eq_ℤ (net.accept l w).0 f))
  pub open-recvfrom :
      (f fd : ℤ) (n : ℕ) (w : os.World) → is_open f (net.recvfrom fd n w).3 ≡ is_open f w
  pub open-printf :
      (f : ℤ) (text : Text) (w : os.World) → is_open f (net.printf text w) ≡ is_open f w
  pub open-malloc : (f : ℤ) (n : ℕ) (w : os.World) → is_open f (os.malloc n w).1 ≡ is_open f w
  pub open-realloc : (f : ℤ) (n : ℕ) (w : os.World) → is_open f (os.realloc n w).1 ≡ is_open f w
  pub open-send :
      (f fd : ℤ) (bytes : List ℕ) (w : os.World) → is_open f (os.send fd bytes w).1 ≡ is_open f w
  pub open-recv : (f fd : ℤ) (n : ℕ) (w : os.World) → is_open f (os.recv fd n w).2 ≡ is_open f w
  pub open-fprintf :
      (f : ℤ) (text : String) (w : os.World) → is_open f (os.fprintf_stderr text w) ≡ is_open f w

-- The standard input and the sockets of the server itself.
abbrev pub own : ℤ → ℤ → ℤ → Bool
own udp_socket tcp_socket f = eq_ℤ (pos 0) f || (eq_ℤ udp_socket f || eq_ℤ tcp_socket f)

module _ (os : Os) (net : Net os) (fd : Descriptors os net) where
  -- The same descriptors are open.
  abbrev pub SameOpen : os.World → os.World → Type 0
  SameOpen w w' = (f : ℤ) → fd.is_open f w' ≡ fd.is_open f w

  pub SameOpen-Quiet : (w : os.World) → Quiet os (SameOpen w)
  SameOpen-Quiet w = record {
    after_malloc = λ n u h f. fd.open-malloc f n u ∙ h f;
    after_realloc = λ n u h f. fd.open-realloc f n u ∙ h f;
    after_send = λ g bytes u h f. fd.open-send f g bytes u ∙ h f;
    after_recv = λ g n u h f. fd.open-recv f g n u ∙ h f;
    after_fprintf = λ text u h f. fd.open-fprintf f text u ∙ h f;
  }

  -- The descriptors `kept` are open for other purposes, such as the standard output.
  pub record Tied (doubles : Doubles) (kept : ℤ → Bool) (udp_socket tcp_socket : ℤ)
      (s : Server doubles) (v : PollVec) (w : os.World) : Type 0 where
    pub clients_valid : IsValid s.clients
    pub poll_valid : poll.IsValid v
    -- No descriptor is polled twice.
    pub apart : Apart (fds v)
    -- The open descriptors are those that are polled and those that are kept.
    pub all_open : (f : ℤ) → fd.is_open f w ≡ (has_socket f (fds v) || kept f)
    pub kept_apart : (f : ℤ) → has_socket f (fds v) ≡ true → kept f ≡ false
    pub stdin_first : get_elem? (fds v) 0 ≡ some (pos 0)
    pub stdin_polled : has_socket (pos 0) (fds v) ≡ true
    pub udp_polled : has_socket udp_socket (fds v) ≡ true
    pub tcp_polled : has_socket tcp_socket (fds v) ≡ true
    -- The clients have just the sockets that are polled beside the server's own descriptors.
    pub clients_polled :
        (f : ℤ)
        → is_neg f ≡ false
        → has_socket f (sockets s.clients.entities)
          ≡ (has_socket f (fds v) && not (own udp_socket tcp_socket f))

  -- Each open descriptor is polled, or kept, or one that could not be polled.
  pub record Accounted (kept : ℤ → Bool) (v : PollVec) (w : os.World) : Type 0 where
    pub extra : ℤ
    pub accounts :
        (f : ℤ) → fd.is_open f w ≡ true → (has_socket f (fds v) || (kept f || eq_ℤ extra f)) ≡ true
