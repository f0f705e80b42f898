-- ===== src/Subscriber/Program/Whole.antt =====
-- The program of the subscriber from its start on: what holds after any number of turns.
use tcp_client_server.Prelude.{
  ℕ, ◌≡◌, refl, ◌⊎◌, inl, inr, true, ◌||◌, List, [], ◌∷◌, Option, arith, Text,
}
use tcp_client_server.Prelude.Int.{ℤ, pos, eq_ℤ}
use tcp_client_server.Errors.{Err}
use tcp_client_server.Os.{Os}
use tcp_client_server.Inet.{Inet, Sockets}
use tcp_client_server.Server.Events.{Net}
use tcp_client_server.Server.Descriptors.{Descriptors, SameOpen}
use tcp_client_server.Server.Program.{exit_code_green, exit_code_red, to_uint16}
use tcp_client_server.Subscriber.{atoi}
use tcp_client_server.Subscriber.Program.{Course, exited, subscribing, undefined, started, main}
use tcp_client_server.Subscriber.Setup.Outcome.{Joined, open_before, Starts, init_client-Starts}
use Prim.Native.String.{String}
use tcp_client_server.Subscriber.Setup.{Session}
use tcp_client_server.Subscriber.Program.Turns.{LoopSafe, main_loop-LoopSafe}

module _ (os : Os) (net : Net os) (d : Descriptors os net) (inet : Inet os)
    (laws : Sockets os net d inet) where
  open os use {World}
  open d use {is_open}

  -- What holds of a run of the program.
  abbrev pub SubscriberSafe : World → Course os net inet → Type 0
  SubscriberSafe w (exited code w') =
      ((code ≡ exit_code_green) × ((f : ℤ) → is_open f w' ≡ open_before os net d inet laws w f))
      ⊎ ((code ≡ exit_code_red)
          × ((extra : ℤ) × ((f : ℤ) → is_open f w' ≡ true → (is_open f w || eq_ℤ extra f) ≡ true)))
  SubscriberSafe w (subscribing c w') =
      Joined os net d inet laws (open_before os net d inet laws w) c w'
  SubscriberSafe w undefined = ⊥

  from_loop :
      (w : World) (r : Course os net inet)
      → LoopSafe os net d inet laws (open_before os net d inet laws w) r
      → SubscriberSafe w r
  from_loop w (exited code w') h = inl h
  from_loop w (subscribing c w') h = h
  from_loop w undefined h = h

  failed :
      (w w' : World) (text : String) (extra : ℤ)
      → ((f : ℤ) → is_open f w' ≡ true → (is_open f w || eq_ℤ extra f) ≡ true)
      → SubscriberSafe w (exited exit_code_red (os.fprintf_stderr text w'))
  failed w w' text extra h =
      inr (refl, (extra, λ f k. h f (ground (arith, k, d.open-fprintf f text w'))))

  same_as_before :
      (w w' : World) (text : String)
      → SameOpen os net d w w'
      → SubscriberSafe w (exited exit_code_red (os.fprintf_stderr text w'))
  same_as_before w w' text same = failed w w' text (pos 0) (λ f h. ground (arith, h, same f))

  started-SubscriberSafe :
      (id : Text) (hport turns : ℕ) (w : World) (r : Err × Option Session × World)
      → Starts os net d inet laws id hport w r
      → SubscriberSafe w (started os net inet turns r)
  unfolding started
  started-SubscriberSafe id hport turns w r (Starts.started {c = c} {w' = w'} joined same) =
      from_loop w _ (main_loop-LoopSafe os net d inet laws _ turns c w' joined)
  started-SubscriberSafe id hport turns w r (Starts.bad_port z) = same_as_before w w _ (λ f. refl)
  started-SubscriberSafe id hport turns w r (Starts.no_memory same) = same_as_before w _ _ same
  started-SubscriberSafe id hport turns w r (Starts.not_connected same) = same_as_before w _ _ same
  started-SubscriberSafe id hport turns w r (Starts.socket_left_open {fd = fd} {w' = w'} o) =
      failed w w' _ fd (λ f h. ground (arith, h, o.one_more f))
  started-SubscriberSafe id hport turns w r (Starts.no_poll_vec same) = same_as_before w _ _ same

  -- With calls that open and close descriptors as documented, and with the standard input open at the start:
  -- for any arguments, and after any number of turns of the main loop, the program of the subscriber either
  -- has exited with EXIT_CODE_GREEN and closed all that it had opened and the standard input; or has exited
  -- with EXIT_CODE_RED, before its loop, and has left no more than one descriptor open that was not open
  -- before; or is in its loop, polls the standard input and its socket, and has no other descriptor open than
  -- these and those from before.
  pub main-SubscriberSafe :
      (turns : ℕ) (arguments : List Text) (w : World)
      → is_open (pos 0) w ≡ true
      → SubscriberSafe w (main os net inet turns arguments w)
  unfolding main
  main-SubscriberSafe turns (id ∷ ip ∷ port ∷ []) w stdin_open =
      started-SubscriberSafe id (to_uint16 (atoi port)) turns w _
        (init_client-Starts os net d inet laws id ip (to_uint16 (atoi port)) w stdin_open)
  main-SubscriberSafe turns [] w stdin_open = same_as_before w w _ (λ f. refl)
  main-SubscriberSafe turns (id ∷ []) w stdin_open = same_as_before w w _ (λ f. refl)
  main-SubscriberSafe turns (id ∷ ip ∷ []) w stdin_open = same_as_before w w _ (λ f. refl)
  main-SubscriberSafe turns (id ∷ ip ∷ port ∷ more ∷ rest) w stdin_open =
      same_as_before w w _ (λ f. refl)
