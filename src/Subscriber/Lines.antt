-- ===== src/Subscriber/Lines.antt =====
-- A line that a user types, and what it comes to at the server.
use tcp_client_server.Prelude.{
  ℕ, ◌≡◌, ◌≢◌, refl, ap, ◌∙◌, true, false, List, [], ◌∷◌, ◌++◌, Option, none, some, Text, IsText,
  c_string,
}
use tcp_client_server.Prelude.Int.{ℤ}
use tcp_client_server.Errors.{Err, input_wrong_format}
use tcp_client_server.Os.{Os}
use tcp_client_server.ClientVec.Topics.{unsubscribe_client_from_topic}
use tcp_client_server.Tcp.{TcpMsg}
use tcp_client_server.Udp.{Doubles}
use tcp_client_server.Server.{Server}
use tcp_client_server.Server.Handlers.{
  subscribe_word, unsubscribe_word, vec_after, process_server_tcp_msg,
}
use tcp_client_server.Subscriber.{
  Subscriber, is_separator, skip_separators, word, strtok_r, unsubscribe_msg,
  process_unsubscribe_cmd, send_request,
}
use tcp_client_server.Subscriber.Commands.{unsubscribe_msg-bytes, read_unsubscribe}

-- No NUL, space or line feed.
abbrev pub Plain : Text → Type 0
Plain [] = Unit
Plain (b ∷ bs) = (b ≢ 0) × (is_separator b ≡ false) × Plain bs

abbrev pub IsWord : Text → Type 0
IsWord [] = ⊥
IsWord (b ∷ bs) = Plain (b ∷ bs)

pub Plain-IsText : (s : Text) → Plain s → IsText s
Plain-IsText [] h = tt
Plain-IsText (b ∷ bs) h = (h.0, Plain-IsText bs h.2)

pub IsWord-Plain : (s : Text) → IsWord s → Plain s
IsWord-Plain [] h = absurd h
IsWord-Plain (b ∷ bs) h = h

word-append :
    (s rest : Text) (b : ℕ) → Plain s → is_separator b ≡ true → word (s ++ b ∷ rest) ≡ (s, rest)
unfolding word
word-append [] rest b h e = rw e refl
word-append (c ∷ cs) rest b h e = rw (h.1, word-append cs rest b h.2 e) refl

skip_separators_lem :
    (b : ℕ) (bs : Text) → is_separator b ≡ false → skip_separators (b ∷ bs) ≡ b ∷ bs
unfolding skip_separators
skip_separators_lem b bs h = rw h refl

-- A word and a separator in front of the rest.
strtok_r-append :
    (s rest : Text) (b : ℕ)
    → IsWord s
    → is_separator b ≡ true
    → strtok_r (s ++ b ∷ rest) ≡ (some s, rest)
unfolding strtok_r
strtok_r-append [] rest b h e = absurd h
strtok_r-append (c ∷ cs) rest b h e =
    rw (skip_separators_lem c (cs ++ b ∷ rest) h.1, strtok_r)
      (ap (λ p. (some p.0, p.1)) (word-append (c ∷ cs) rest b h e))

Plain-append : (s t : Text) (b : ℕ) → Plain s → IsText t → b ≢ 0 → IsText (s ++ b ∷ t)
Plain-append [] t b h k n = (n, k)
Plain-append (c ∷ cs) t b h k n = (h.0, Plain-append cs t b h.2 k n)

unsubscribe_first :
    (rest : Text) → strtok_r (unsubscribe_word ++ 32 ∷ rest) ≡ (some unsubscribe_word, rest)
unfolding strtok_r skip_separators word
unsubscribe_first rest = refl

-- A line with a name of a command, a topic and a number, in a buffer that was longer before.
abbrev pub subscribe_line : Text → Text → List ℕ
subscribe_line t k = subscribe_word ++ 32 ∷ (t ++ 32 ∷ (k ++ 10 ∷ []))

abbrev pub unsubscribe_line : Text → List ℕ
unsubscribe_line t = unsubscribe_word ++ 32 ∷ (t ++ 10 ∷ [])

module _ (os : Os) where
  open os use {World}

  send_unsubscribe :
      (c : Subscriber) (w : World) (t : Text)
      → c_string c.cmd ≡ unsubscribe_line t
      → IsWord t
      → process_unsubscribe_cmd os (some c) w
        ≡ send_request os c (unsubscribe_msg unsubscribe_word t c.send_msg) w
  unfolding process_unsubscribe_cmd
  send_unsubscribe c w t e ht =
      ap from_words (ap strtok_r e ∙ unsubscribe_first (t ++ 10 ∷ []))
      ∙ ap from_topic (strtok_r-append t [] 10 ht refl)
    where
      Words : Type 0
      Words = Option Text × Text

      from_words : Words → Err × Option Subscriber × World
      from_words p = elim p.0 [
        | none ↦ (input_wrong_format, some c, w)
        | some cmd' ↦ elim (strtok_r p.1).0 [
          | none ↦ (input_wrong_format, some c, w)
          | some topic' ↦ send_request os c (unsubscribe_msg cmd' topic' c.send_msg) w
        ]
      ]

      from_topic : Words → Err × Option Subscriber × World
      from_topic q = elim q.0 [
        | none ↦ (input_wrong_format, some c, w)
        | some topic' ↦ send_request os c (unsubscribe_msg unsubscribe_word topic' c.send_msg) w
      ]

module _ (doubles : Doubles) (os os' : Os) where
  -- The same for `unsubscribe` and a topic: the server comes to `unsubscribe_client_from_topic` with just
  -- this topic.
  pub process_unsubscribe_cmd-process_server_tcp_msg :
      (c : Subscriber) (w : os.World) (t : Text)
      → c_string c.cmd ≡ unsubscribe_line t
      → IsWord t
      → (m : TcpMsg) × (process_unsubscribe_cmd os (some c) w ≡ send_request os c m w)
        × ((s : Server doubles) (fd : ℤ) (w' : os'.World)
            → s.recv_msg ≡ m
            → process_server_tcp_msg doubles os' s fd w' ≡ (
                let (e, v) = unsubscribe_client_from_topic (some s.clients) fd t in
                (e, record s { clients = vec_after s.clients v }, w')))
  process_unsubscribe_cmd-process_server_tcp_msg c w t e ht =
      let (rest, q) = unsubscribe_msg-bytes t c.send_msg in
      (
        unsubscribe_msg unsubscribe_word t c.send_msg,
        send_unsubscribe os c w t e ht,
        λ s fd w' r.
            read_unsubscribe doubles os' s fd w' t rest (Plain-IsText t (IsWord-Plain t ht))
              (ap (λ x. x.bytes) r ∙ q),
      )
