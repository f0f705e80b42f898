-- ===== src/Server/Program/Whole.antt =====
-- The program of the server from its start on: what holds after any number of turns.
use tcp_client_server.Prelude.{
  ℕ, ◌≡◌, ◌⊎◌, refl, inl, inr, true, false, ◌||◌, List, [], ◌∷◌, Option, none, some, arith, Text,
}
use tcp_client_server.Prelude.Int.{ℤ, pos, eq_ℤ}
use tcp_client_server.Errors.{Err, debug_msg}
use tcp_client_server.Os.{Os}
use tcp_client_server.Os.Laws.{ReallocLimit}
use tcp_client_server.Udp.{Doubles, SockAddr}
use tcp_client_server.Inet.{Inet, Sockets}
use tcp_client_server.Subscriber.{atoi}
use tcp_client_server.Server.Events.{Net}
use tcp_client_server.Server.Handlers.{is_ok}
use tcp_client_server.Server.Descriptors.{Descriptors, SameOpen}
use tcp_client_server.Server.Setup.{Node, init_server}
use tcp_client_server.Server.Setup.Outcome.{open_before, Starts, init_server-Starts}
use tcp_client_server.Server.Program.{
  Course, exited, serving, stuck, starved, main_loop, main, exit_code_green, exit_code_red,
  to_uint16,
}
use tcp_client_server.Server.Program.Turns.{TiedNode, CourseSafe, main_loop-CourseSafe}
use tcp_client_server.Server.Setup.Sockets.{Opened}

module _ (os : Os) (limit : ReallocLimit os) (net : Net os) (d : Descriptors os net)
    (inet : Inet os) (laws : Sockets os net d inet) (doubles : Doubles) where
  open os use {World}

  -- No more than one descriptor is open that was not open before.
  pub record AtMostOneMore (w w' : World) : Type 0 where
    pub extra : ℤ
    pub no_other : (f : ℤ) → d.is_open f w' ≡ true → (d.is_open f w || eq_ℤ extra f) ≡ true

  -- What holds of a run of the program.
  abbrev pub MainSafe : World → Course doubles os net inet → Type 0
  MainSafe w (exited code w') =
      ((code ≡ exit_code_green) ⊎ (code ≡ exit_code_red)) × AtMostOneMore w w'
  MainSafe w (serving n w') =
      TiedNode os limit net d inet laws doubles (open_before os net d inet laws doubles w) n w'
  MainSafe w stuck = Unit
  MainSafe w starved = ⊥

  from_loop :
      (w : World) (c : Course doubles os net inet)
      → CourseSafe os limit net d inet laws doubles (open_before os net d inet laws doubles w) c
      → MainSafe w c
  from_loop w (exited code w') (green, almost) = (
    inl green,
    record { extra = almost.extra; no_other = λ f h. ground (arith, almost.kept_or_extra f h) },
  )
  from_loop w (serving n w') tied = tied
  from_loop w stuck h = tt
  from_loop w starved h = h

  -- An error of `init_server` leaves no more than one descriptor open.
  failed :
      (w : World) (e : Err) (w' : World)
      → AtMostOneMore w w'
      → MainSafe w (exited exit_code_red (os.fprintf_stderr (debug_msg e) w'))
  failed w e w' h = (
    inr refl,
    record {
      extra = h.extra;
      no_other = λ f k. h.no_other f (ground (arith, k, d.open-fprintf f (debug_msg e) w'));
    },
  )

  same_as_before : (w w' : World) → SameOpen os net d w w' → AtMostOneMore w w'
  same_as_before w w' same = record { extra = pos 0; no_other = λ f h. ground (arith, h, same f) }

  one-Opened : (fd : ℤ) (w w' : World) → Opened os net d fd w w' → AtMostOneMore w w'
  one-Opened fd w w' o = record { extra = fd; no_other = λ f h. ground (arith, h, o.one_more f) }

  after_init :
      ((fd : ℤ) (n : ℕ) (u : World) → eq_ℤ (net.recvfrom fd n u).0 (pos 0) ≡ false)
      → (hport turns : ℕ) (w : World) (r : Err × Option (Node doubles) × World)
      → Starts os net d inet laws doubles hport w r
      → MainSafe w (elim (is_ok r.0) [
        | false ↦ exited exit_code_red (os.fprintf_stderr (debug_msg r.0) r.2)
        | true ↦ elim r.1 [ none ↦ stuck | some n' ↦ main_loop doubles os net inet turns n' r.2 ]
      ])
  after_init no_empty hport turns w r (Starts.started {n = n} {w' = w'} s) =
      from_loop w _
        (main_loop-CourseSafe os limit net d inet laws doubles _ no_empty turns n w' s.tied)
  after_init no_empty hport turns w r (Starts.bad_port z) =
      failed w _ _ (same_as_before w w (λ f. refl))
  after_init no_empty hport turns w r (Starts.no_memory same) =
      failed w _ _ (same_as_before w _ same)
  after_init no_empty hport turns w r (Starts.no_udp same) = failed w _ _ (same_as_before w _ same)
  after_init no_empty hport turns w r (Starts.udp_left_open {fd = fd} o) =
      failed w _ _ (one-Opened fd w _ o)
  after_init no_empty hport turns w r (Starts.no_tcp same) = failed w _ _ (same_as_before w _ same)
  after_init no_empty hport turns w r (Starts.tcp_left_open {fd = fd} o) =
      failed w _ _ (one-Opened fd w _ o)
  after_init no_empty hport turns w r (Starts.no_poll_vec same) =
      failed w _ _ (same_as_before w _ same)
  after_init no_empty hport turns w r (Starts.no_clients_vec {w' = w'} closed) =
      failed w _ _ (record { extra = pos 0; no_other = λ f h. ground (arith, h, closed f) })

  wrong_arguments :
      (w : World)
      → MainSafe w (exited exit_code_red (os.fprintf_stderr "[SERVER] Wrong cmdline input." w))
  wrong_arguments w = (
    inr refl,
    record {
      extra = pos 0;
      no_other = λ f h. ground (arith, h, d.open-fprintf f "[SERVER] Wrong cmdline input." w);
    },
  )

  -- With a realloc that refuses sizes beyond PTRDIFF_MAX, with calls that open and close descriptors as
  -- documented, with the standard input open at the start, and if no empty datagram arrives: for any
  -- arguments, and after any number of turns of the main loop, the program of the server either has exited
  -- with EXIT_CODE_GREEN or EXIT_CODE_RED and has left no more than one descriptor open that was not open
  -- before; or it is serving, with a valid table of clients, a valid poll vector that polls the standard
  -- input first and no descriptor twice, with no descriptor open but those polled and those from before,
  -- and with just the sockets of its clients polled beside its own; or it has come to where the source would
  -- follow a pointer that leads nowhere.
  pub main-MainSafe :
      ((fd : ℤ) (n : ℕ) (u : World) → eq_ℤ (net.recvfrom fd n u).0 (pos 0) ≡ false)
      → (junk : SockAddr) (turns : ℕ) (arguments : List Text) (w : World)
      → d.is_open (pos 0) w ≡ true
      → MainSafe w (main doubles os net inet junk turns arguments w)
  unfolding main
  main-MainSafe no_empty junk turns [] w stdin_open = wrong_arguments w
  main-MainSafe no_empty junk turns (port ∷ []) w stdin_open =
      after_init no_empty hport turns w (init_server doubles os inet junk none hport w)
        (init_server-Starts os net d inet laws doubles junk hport w stdin_open)
    where
      hport : ℕ
      hport = to_uint16 (atoi port)
  main-MainSafe no_empty junk turns (port ∷ more ∷ rest) w stdin_open = wrong_arguments w
