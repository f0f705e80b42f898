-- ===== src/Os/Desk.antt =====
-- A scripted machine that keeps count of the open descriptors, for running the programs whole.
use tcp_client_server.Prelude.{
  ℕ, suc, ◌≤◌, ◌≡◌, refl, Bool, false, ◌&&◌, ◌||◌, not, List, [], ◌∷◌, arith, leb, if◌then◌else◌,
}
use tcp_client_server.Prelude.Int.{ℤ, pos, negsuc, eq_ℤ, eq_ℤ_iff}
use tcp_client_server.Os.{Os}
use tcp_client_server.Os.Laws.{ReallocLimit, Streams}
use tcp_client_server.Os.Script.{Machine, idle_machine, script_os, script_limit, script_streams}

-- `waiting` connections are to be accepted; `typed` are the lines to be read, and `ready` the events
-- that the calls of `poll` report.
pub record Desk : Type 0 where
  pub machine : Machine
  pub opened : List ℤ
  pub waiting : ℕ
  pub typed : List (List ℕ)
  pub ready : List (List ℕ)

unfoldable pub among : ℤ → List ℤ → Bool
among f [] = false
among f (g ∷ gs) = eq_ℤ g f || among f gs

unfoldable pub without : ℤ → List ℤ → List ℤ
without f [] = []
without f (g ∷ gs) = let rest = without f gs in if eq_ℤ f g then rest else g ∷ rest

pub among-without :
    (g f : ℤ) (fs : List ℤ) → among g (without f fs) ≡ (among g fs && not (eq_ℤ f g))
unfolding among without
among-without g f [] = refl
among-without g f (h ∷ hs) =
    ground (arith, among-without g f hs, eq_ℤ_iff f h, eq_ℤ_iff h g, eq_ℤ_iff f g)

-- One more than all in the list.
unfoldable pub next : List ℤ → ℕ
next [] = 0
next (pos n ∷ fs) = let m = next fs in if leb m n then suc n else m
next (negsuc n ∷ fs) = next fs

next_beyond : (n : ℕ) (fs : List ℤ) → next fs ≤ n → among (pos n) fs ≡ false
unfolding next among
next_beyond n [] h = refl
next_beyond n (pos m ∷ fs) h = ground (arith, next_beyond n fs)
next_beyond n (negsuc m ∷ fs) h = next_beyond n fs h

pub next_is_new : (fs : List ℤ) → among (pos (next fs)) fs ≡ false
next_is_new fs = next_beyond (next fs) fs (omega arith)

abbrev pub desk_os : Os
desk_os = record {
  World = Desk;
  malloc = λ n w. let (p, m) = script_os.malloc n w.machine in (p, record w { machine = m });
  realloc = λ n w. let (p, m) = script_os.realloc n w.machine in (p, record w { machine = m });
  close = λ fd w. record w { opened = without fd w.opened };
  send =
      λ fd bytes w. let (n, m) = script_os.send fd bytes w.machine in (n, record w { machine = m });
  recv = λ fd n w.
      let (k, bytes, m) = script_os.recv fd n w.machine in (k, bytes, record w { machine = m });
  fprintf_stderr = λ text w. record w { machine = script_os.fprintf_stderr text w.machine };
}

-- The standard descriptors are open.
abbrev pub empty_desk : Desk
empty_desk = record {
  machine = idle_machine;
  opened = pos 0 ∷ pos 1 ∷ pos 2 ∷ [];
  waiting = 0;
  typed = [];
  ready = [];
}

unfoldable pub desk_streams : Streams desk_os
unfolding script_streams
desk_streams = record {
  sent = λ fd w. w.machine.outgoing;
  incoming = λ fd w. w.machine.arriving;
  send-le = λ fd bytes w. script_streams.send-le fd bytes w.machine;
  sent-send = λ fd bytes w. refl;
  length-recv = λ fd n w. refl;
  recv-le = λ fd n w. script_streams.recv-le fd n w.machine;
  incoming-recv = λ fd n w. script_streams.incoming-recv fd n w.machine;
}

pub desk_limit : ReallocLimit desk_os
desk_limit = record { refuses = λ n w h. script_limit.refuses n w.machine h }
