-- ===== src/Subscriber/Program/Lines.antt =====
-- A line that is typed while the subscriber runs, from the standard input to the table of the server.
use tcp_client_server.Prelude.{
  ℕ, ◌≡◌, refl, ap, ◌∙◌, true, false, List, [], ◌∷◌, ◌++◌, some, ◌==◌, ◌%◌, arith, append_assoc,
  drop, length, Text, IsText, c_string, c_string-append, get_elem?,
}
use tcp_client_server.Prelude.Int.{ℤ, pos, is_nonpos}
use tcp_client_server.Os.{Os}
use tcp_client_server.PollVec.{contents}
use tcp_client_server.ClientVec.Topics.{unsubscribe_client_from_topic}
use tcp_client_server.Tcp.{TcpMsg}
use tcp_client_server.Udp.{Doubles}
use tcp_client_server.Inet.{Inet, poll_fds, starts_with, stdin_ready}
use tcp_client_server.Server.{Server}
use tcp_client_server.Server.Events.{Net}
use tcp_client_server.Server.Text.{IsText-append}
use tcp_client_server.Server.Handlers.{unsubscribe_word, vec_after, process_server_tcp_msg}
use tcp_client_server.Inet.Polling.{stdin_ready_lem}
use tcp_client_server.Subscriber.{send_request}
use tcp_client_server.Subscriber.Lines.{
  IsWord, Plain-IsText, IsWord-Plain, unsubscribe_line,
  process_unsubscribe_cmd-process_server_tcp_msg,
}
use tcp_client_server.Subscriber.Setup.{Session}
use tcp_client_server.Subscriber.Program.{
  CmdLine, unsubscribe, cmd_line, wait_for_ready_fds, get_cmd_line, after_cmd, on_cmd, main_turn,
  unsubscribed_text,
}
use tcp_client_server.Server.Descriptors.Polled.{fds}
use tcp_client_server.Subscriber.Program.Receiving.{waits}

-- What is read of a line, whatever the buffer held.
typed_line : (line more old : List ℕ) → IsText line → c_string ((line ++ 0 ∷ more) ++ old) ≡ line
typed_line line more old h =
    ap c_string (append_assoc line (0 ∷ more) old) ∙ c_string-append line (more ++ old) h

word-IsText : (t : Text) → IsWord t → IsText t
word-IsText t h = Plain-IsText t (IsWord-Plain t h)

unsubscribe_line-IsText : (t : Text) → IsWord t → IsText (unsubscribe_line t)
unsubscribe_line-IsText t ht =
    IsText-append unsubscribe_word (t ++ 10 ∷ []) 32 (omega arith) (omega arith)
      (IsText-append t [] 10 (word-IsText t ht) (omega arith) tt)

module _ (os : Os) (net : Net os) (inet : Inet os) where
  open os use {World}

  -- The subscriber waits, and what it reads from the standard input are some bytes.
  pub record Types (c : Session) (w : World) (bytes : List ℕ) : Type 0 where
    pub first_stdin : get_elem? (fds c.poll_vec) 0 ≡ some (pos 0)
    pub positive : is_nonpos (inet.poll (contents c.poll_vec) w).0 ≡ false
    pub event : ℕ
    pub events : List ℕ
    pub polled : (inet.poll (contents c.poll_vec) w).1 ≡ event ∷ events
    pub pollin : (event % 2 == 1) ≡ true
    pub read : (inet.fgets 128 (inet.poll (contents c.poll_vec) w).2).0 ≡ some bytes

  -- The client with the line in its buffer, and the state of the system then.
  abbrev pub after_reading : Session → World → List ℕ → Session × World
  after_reading c w bytes = (
    record c {
      subscriber = record c.subscriber { cmd = bytes ++ drop (length bytes) c.subscriber.cmd };
      poll_vec = (poll_fds os inet c.poll_vec w).1;
    },
    (inet.fgets 128 (inet.poll (contents c.poll_vec) w).2).1,
  )

  line_read :
      (c : Session) (w : World) (bytes : List ℕ) (k : CmdLine)
      → stdin_ready c.poll_vec ≡ true
      → (inet.fgets 128 w).0 ≡ some bytes
      → cmd_line (bytes ++ drop (length bytes) c.subscriber.cmd) ≡ k
      → get_cmd_line os inet c w ≡ (
        k,
        record c {
          subscriber = record c.subscriber { cmd = bytes ++ drop (length bytes) c.subscriber.cmd };
        },
        (inet.fgets 128 w).1,
      )
  unfolding get_cmd_line
  line_read c w bytes k ready read e = rw (ready, read, get_cmd_line) (rw e refl)

  waited_line :
      (c : Session) (w : World) (bytes : List ℕ) (k : CmdLine)
      → Types c w bytes
      → cmd_line (bytes ++ drop (length bytes) c.subscriber.cmd) ≡ k
      → get_cmd_line os inet (wait_for_ready_fds os inet c w).1 (wait_for_ready_fds os inet c w).2
        ≡ (k, (after_reading c w bytes).0, (after_reading c w bytes).1)
  unfolding wait_for_ready_fds poll_fds
  waited_line c w bytes k types e =
      line_read (wait_for_ready_fds os inet c w).1 _ bytes k
        (stdin_ready_lem os inet c.poll_vec w types.event types.events types.first_stdin
          types.polled types.pollin)
        types.read e

  reads :
      (c : Session) (w : World) (bytes : List ℕ) (k : CmdLine)
      → Types c w bytes
      → cmd_line (bytes ++ drop (length bytes) c.subscriber.cmd) ≡ k
      → main_turn os net inet c w
        ≡ on_cmd os net inet k (after_reading c w bytes).0 (after_reading c w bytes).1
  unfolding main_turn
  reads c w bytes k types e =
      rw (waits os net inet c w types.positive, main_turn)
        (ap (λ r. on_cmd os net inet r.0 r.1 r.2) (waited_line c w bytes k types e))

module _ (doubles : Doubles) (os os' : Os) (net : Net os) (inet : Inet os) where
  -- The same for `unsubscribe` and a topic: the server comes to `unsubscribe_client_from_topic` with just this
  -- topic.
  pub main_turn-unsubscribe_client_from_topic :
      (c : Session) (w : os.World) (t : Text) (more : List ℕ)
      → Types os net inet c w (unsubscribe_line t ++ 0 ∷ more)
      → IsWord t
      → let (c', w') = after_reading os net inet c w (unsubscribe_line t ++ 0 ∷ more) in
        (m : TcpMsg) × (main_turn os net inet c w
          ≡ after_cmd os net inet c' unsubscribed_text (send_request os c'.subscriber m w'))
        × ((s : Server doubles) (fd : ℤ) (u : os'.World)
            → s.recv_msg ≡ m
            → process_server_tcp_msg doubles os' s fd u ≡ (
                let (e, v) = unsubscribe_client_from_topic (some s.clients) fd t in
                (e, record s { clients = vec_after s.clients v }, u)))
  unfolding on_cmd
  main_turn-unsubscribe_client_from_topic c w t more types ht =
      let bytes : List ℕ = unsubscribe_line t ++ 0 ∷ more in
      let (c', w') = after_reading os net inet c w bytes in
      let (m, sends, served) =
        process_unsubscribe_cmd-process_server_tcp_msg doubles os os' c'.subscriber w' t
          (typed_line (unsubscribe_line t) more (drop (length bytes) c.subscriber.cmd)
            (unsubscribe_line-IsText t ht))
          ht in
      (
        m,
        reads os net inet c w bytes unsubscribe types (unsubscribe_line_lem t _)
            ∙ ap (after_cmd os net inet c' unsubscribed_text) sends,
        served,
      )
    where
      unsubscribe_line_lem :
          (t : Text) (rest : List ℕ)
          → cmd_line ((unsubscribe_line t ++ 0 ∷ more) ++ rest) ≡ unsubscribe
      unsubscribe_line_lem t rest = unfold cmd_line starts_with in refl
