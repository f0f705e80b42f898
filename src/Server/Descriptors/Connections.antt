-- ===== src/Server/Descriptors/Connections.antt =====
-- What ties clients, poll vector and open descriptors is kept when a client comes, is turned away, or goes.
use mathlib.Core.List.{map-append}
use tcp_client_server.Prelude.{
  ℕ, ◌≡◌, refl, ◌∙◌, ap, Bool, true, false, ◌||◌, ◌&&◌, not, [], ◌∷◌, ◌++◌, some, arith, get_elem?,
  erase_idx,
}
use tcp_client_server.Prelude.Int.{ℤ, pos, eq_ℤ, eq_ℤ_iff, is_neg}
use tcp_client_server.Os.{Os}
use tcp_client_server.PollVec.{PollFd, PollVec, contents}
use tcp_client_server.PollVec.Invariant as poll
use tcp_client_server.PollVec.Contents.{entry}
use tcp_client_server.ClientVec.Invariant.{IsValid, sockets}
use tcp_client_server.ClientVec.Invariant.Sockets.{has_socket, has_socket-append}
use tcp_client_server.ClientVec.Connected.{SameSockets, Connects, Disconnects}
use tcp_client_server.Udp.{Doubles}
use tcp_client_server.Server.{Server}
use tcp_client_server.Server.Events.{Net, client_events}
use tcp_client_server.Server.Descriptors.{Descriptors, own, SameOpen, Tied, Accounted}
use tcp_client_server.Server.Descriptors.Polled.{
  fds, fds_of, has_socket-get_elem?, has_socket-erase_idx, Apart-erase_idx, Apart-append,
  first-erase_idx, first-append,
}

module _ (os : Os) (net : Net os) (d : Descriptors os net) (doubles : Doubles) (kept : ℤ → Bool)
    (udp_socket tcp_socket : ℤ) (s : Server doubles) (v : PollVec) (w : os.World)
    (tied : Tied os net d doubles kept udp_socket tcp_socket s v w) where
  open os use {World}

  abbrev TiedNow : Server doubles → PollVec → World → Type 0
  TiedNow = Tied os net d doubles kept udp_socket tcp_socket

  -- Neither sockets nor descriptors change.
  pub steady :
      (s' : Server doubles) (w' : World)
      → IsValid s'.clients
      → SameSockets s.clients s'.clients
      → SameOpen os net d w w'
      → TiedNow s' v w'
  steady s' w' valid same opens = record {
    clients_valid = valid;
    poll_valid = tied.poll_valid;
    apart = tied.apart;
    all_open = λ f. opens f ∙ tied.all_open f;
    kept_apart = tied.kept_apart;
    stdin_first = tied.stdin_first;
    stdin_polled = tied.stdin_polled;
    udp_polled = tied.udp_polled;
    tcp_polled = tied.tcp_polled;
    clients_polled = λ f n. ap (has_socket f) same ∙ tied.clients_polled f n;
  }

  -- With another poll vector for the same descriptors.
  pub same_fds : (v' : PollVec) → poll.IsValid v' → fds v' ≡ fds v → TiedNow s v' w
  same_fds v' valid e = record {
    clients_valid = tied.clients_valid;
    poll_valid = valid;
    apart = rw e tied.apart;
    all_open = rw e tied.all_open;
    kept_apart = rw e tied.kept_apart;
    stdin_first = rw e tied.stdin_first;
    stdin_polled = rw e tied.stdin_polled;
    udp_polled = rw e tied.udp_polled;
    tcp_polled = rw e tied.tcp_polled;
    clients_polled = rw e tied.clients_polled;
  }

  pub accounted : Accounted os net d kept v w
  accounted = record { extra = pos 0; accounts = λ f h. ground (arith, h, tied.all_open f) }

  -- A new connection.
  module _ (fd : ℤ) (w₁ : World) (fresh : d.is_open fd w ≡ false)
      (opens : (f : ℤ) → d.is_open f w₁ ≡ (d.is_open f w || eq_ℤ fd f)) where
    not_polled : has_socket fd (fds v) ≡ false
    not_polled = ground (arith, tied.all_open fd)

    pub no_client : is_neg fd ≡ false → has_socket fd (sockets s.clients.entities) ≡ false
    no_client n = ground (arith, tied.clients_polled fd n, not_polled)

    not_own : own udp_socket tcp_socket fd ≡ false
    not_own = ground (
      arith,
      not_polled,
      tied.stdin_polled,
      tied.udp_polled,
      tied.tcp_polled,
      eq_ℤ_iff (pos 0) fd,
      eq_ℤ_iff udp_socket fd,
      eq_ℤ_iff tcp_socket fd,
    )

    pub one_more :
        (f : ℤ) (v₁ : PollVec)
        → contents v₁ ≡ contents v ++ entry fd client_events ∷ []
        → has_socket f (fds v₁) ≡ (has_socket f (fds v) || eq_ℤ fd f)
    one_more f v₁ e =
        ap (λ ps. has_socket f (fds_of ps)) e ∙ rw map-append (has_socket-append f fd (fds v))

    pub arrived :
        (s' : Server doubles) (v₁ : PollVec) (w' : World)
        → IsValid s'.clients
        → Connects fd s.clients s'.clients
        → poll.IsValid v₁
        → contents v₁ ≡ contents v ++ entry fd client_events ∷ []
        → SameOpen os net d w₁ w'
        → TiedNow s' v₁ w'
    arrived s' v₁ w' valid connects valid₁ e same = record {
      clients_valid = valid;
      poll_valid = valid₁;
      apart = rw (e, map-append) (Apart-append fd (fds v) not_polled tied.apart);
      all_open = λ f. ground (arith, same f, opens f, tied.all_open f, one_more f v₁ e);
      kept_apart = λ f h.
          ground (arith, one_more f v₁ e, tied.kept_apart f, eq_ℤ_iff fd f, tied.all_open fd);
      stdin_first = rw (e, map-append) (first-append (pos 0) fd (fds v) tied.stdin_first);
      stdin_polled = ground (arith, one_more (pos 0) v₁ e, tied.stdin_polled);
      udp_polled = ground (arith, one_more udp_socket v₁ e, tied.udp_polled);
      tcp_polled = ground (arith, one_more tcp_socket v₁ e, tied.tcp_polled);
      clients_polled = λ f n. arrived_clients f (eq_ℤ fd f) refl n;
    }
      where
        arrived_clients :
            (f : ℤ) (b : Bool)
            → eq_ℤ fd f ≡ b
            → is_neg f ≡ false
            → has_socket f (sockets s'.clients.entities)
              ≡ (has_socket f (fds v₁) && not (own udp_socket tcp_socket f))
        arrived_clients f true q n =
            let g : fd ≡ f = (eq_ℤ_iff fd f).0 q in
            let o : own udp_socket tcp_socket f ≡ false = rw g at not_own in
            rw (connects f n, one_more f v₁ e, o, q) (ground (arith, tied.clients_polled f n))
        arrived_clients f false q n =
            rw (connects f n, one_more f v₁ e, q) (ground (arith, tied.clients_polled f n))

    pub turned_away :
        (s' : Server doubles) (v₂ : PollVec) (w' w'' : World)
        → IsValid s'.clients
        → SameSockets s.clients s'.clients
        → poll.IsValid v₂
        → contents v₂ ≡ contents v
        → SameOpen os net d w₁ w'
        → SameOpen os net d (os.close fd w') w''
        → TiedNow s' v₂ w''
    turned_away s' v₂ w' w'' valid same valid₂ e opens' closes = record {
      clients_valid = valid;
      poll_valid = valid₂;
      apart = rw e tied.apart;
      all_open = λ f.
          rw (e, closes f, d.open-close f fd w', opens' f, opens f, tied.all_open f)
            (closed_again f);
      kept_apart = rw e tied.kept_apart;
      stdin_first = rw e tied.stdin_first;
      stdin_polled = rw e tied.stdin_polled;
      udp_polled = rw e tied.udp_polled;
      tcp_polled = rw e tied.tcp_polled;
      clients_polled = rw e (λ f n. ap (has_socket f) same ∙ tied.clients_polled f n);
    }
      where
        closed_again :
            (f : ℤ)
            → (((has_socket f (fds v) || kept f) || eq_ℤ fd f) && not (eq_ℤ fd f))
              ≡ (has_socket f (fds v) || kept f)
        closed_again f = ground (arith, eq_ℤ_iff fd f, tied.all_open fd)

  -- A client has gone, and its entry is taken out of the poll vector.
  pub departed :
      (s' : Server doubles) (v' : PollVec) (i : ℕ) (p : PollFd) (w' w'' : World)
      → get_elem? (contents v) i ≡ some p
      → is_neg p.fd ≡ false
      → IsValid s'.clients
      → has_socket p.fd (sockets s.clients.entities) ≡ true
      → Disconnects p.fd s.clients s'.clients
      → poll.IsValid v'
      → contents v' ≡ erase_idx (contents v) i
      → SameOpen os net d w w'
      → SameOpen os net d (os.close p.fd w') w''
      → TiedNow s' v' w''
  departed s' v' i p w' w'' at n valid member disconnects valid' e opens closes = record {
    clients_valid = valid;
    poll_valid = valid';
    apart = rw e (Apart-erase_idx (contents v) i p tied.apart at);
    all_open = λ f.
        rw (closes f, d.open-close f p.fd w', opens f, tied.all_open f, one_less f)
          (ground (arith, eq_ℤ_iff p.fd f, tied.kept_apart p.fd polled));
    kept_apart = λ f h. tied.kept_apart f (ground (arith, one_less f));
    stdin_first = rw e (
        first-erase_idx (pos 0) (contents v) i p tied.stdin_first at
          (ground (arith, not_own, eq_ℤ_iff p.fd (pos 0))));
    stdin_polled =
        still_polled (pos 0) tied.stdin_polled (ground (arith, not_own, eq_ℤ_iff p.fd (pos 0)));
    udp_polled =
        still_polled udp_socket tied.udp_polled (ground (arith, not_own, eq_ℤ_iff p.fd udp_socket));
    tcp_polled =
        still_polled tcp_socket tied.tcp_polled (ground (arith, not_own, eq_ℤ_iff p.fd tcp_socket));
    clients_polled =
        λ f nf. rw (disconnects f nf, one_less f, tied.clients_polled f nf) (ground arith);
  }
    where
      polled : has_socket p.fd (fds v) ≡ true
      polled = has_socket-get_elem? (contents v) i p at

      one_less : (f : ℤ) → has_socket f (fds v') ≡ (has_socket f (fds v) && not (eq_ℤ p.fd f))
      one_less f = rw e (has_socket-erase_idx f (contents v) i p tied.apart at)

      not_own : own udp_socket tcp_socket p.fd ≡ false
      not_own = ground (arith, tied.clients_polled p.fd n)

      still_polled :
          (f : ℤ) → has_socket f (fds v) ≡ true → eq_ℤ p.fd f ≡ false → has_socket f (fds v') ≡ true
      still_polled f h q = rw (one_less f, h, q) refl
