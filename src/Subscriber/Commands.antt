-- ===== src/Subscriber/Commands.antt =====
-- What the server makes of the commands of a subscriber.
use tcp_client_server.Prelude.{
  ℕ, zero, suc, ◌+◌, ◌-◌, ◌%◌, ◌^◌, ◌<◌, ◌≡◌, refl, ap, ap₂, ◌∙◌, List, [], ◌∷◌, ◌++◌, some, ◌==◌,
  arith, append_assoc, if◌then◌else◌, length, length-append, drop, Text, IsText, c_string,
  c_string-append, str_eq,
}
use tcp_client_server.Prelude.Int.{ℤ}
use tcp_client_server.Errors.{Err, server_unknown_command}
use tcp_client_server.Os.{Os}
use tcp_client_server.ClientVec.{sf, no_sf}
use tcp_client_server.ClientVec.Topics.{subscribe_client_to_topic, unsubscribe_client_from_topic}
use tcp_client_server.Tcp.{TcpMsg}
use tcp_client_server.Udp.{Doubles, byte_at}
use tcp_client_server.Server.{Server}
use tcp_client_server.Server.Printing.{overwrite}
use tcp_client_server.Server.Text.{overwrite-append}
use tcp_client_server.Server.Handlers.{
  subscribe_word, unsubscribe_word, last_byte, vec_after, process_server_tcp_msg,
}
use tcp_client_server.Subscriber.{subscribe_msg, unsubscribe_msg}

regroup : (t : Text) (o : ℕ) (rest : List ℕ) → ((t ++ 0 ∷ []) ++ o ∷ []) ++ rest ≡ t ++ 0 ∷ o ∷ rest
regroup t o rest = append_assoc (t ++ 0 ∷ []) (o ∷ []) rest ∙ append_assoc t (0 ∷ []) (o ∷ rest)

-- A word with its NUL, written over the start of a buffer, then a second one behind it.
two_words :
    (cmd t : Text) (buf : List ℕ) (n : ℕ)
    → length cmd + 1 ≡ n
    → (rest : List ℕ) × (overwrite (overwrite buf 0 (cmd ++ 0 ∷ [])) n (t ++ 0 ∷ [])
        ≡ ((cmd ++ 0 ∷ []) ++ (t ++ 0 ∷ [])) ++ rest)
unfolding overwrite
two_words cmd t buf n e = (
  _,
  overwrite-append (cmd ++ 0 ∷ []) (drop (0 + length (cmd ++ 0 ∷ [])) buf) (t ++ 0 ∷ []) n
      (length-append cmd (0 ∷ []) ∙ omega arith),
)

-- A subscribe message holds its words and the byte, and its length is theirs.
pub subscribe_msg-bytes :
    (t : Text) (o : ℕ) (m : TcpMsg)
    → length t < 2000
    → (rest : List ℕ) × ((subscribe_msg subscribe_word t o m).bytes
        ≡ subscribe_word ++ 0 ∷ (t ++ 0 ∷ o ∷ rest))
unfolding subscribe_msg
subscribe_msg-bytes t o m h =
    let (rest, e) = two_words subscribe_word t m.bytes 10 (omega arith) in
    let words : List ℕ = (subscribe_word ++ 0 ∷ []) ++ (t ++ 0 ∷ []) in
    (
      drop (10 + (length t + 1) % 2 ^ 16 + 1) (words ++ rest),
      ap (λ xs. overwrite xs (10 + (length t + 1) % 2 ^ 16) (o ∷ [])) e
          ∙ overwrite-append words rest (o ∷ []) (10 + (length t + 1) % 2 ^ 16)
              (omega (arith, length-append t (0 ∷ [])))
          ∙ ap (λ xs. subscribe_word ++ 0 ∷ xs) (regroup t o _),
    )

pub unsubscribe_msg-bytes :
    (t : Text) (m : TcpMsg)
    → (rest : List ℕ) × ((unsubscribe_msg unsubscribe_word t m).bytes
        ≡ unsubscribe_word ++ 0 ∷ (t ++ 0 ∷ rest))
unfolding unsubscribe_msg
unsubscribe_msg-bytes t m =
    let (rest, e) = two_words unsubscribe_word t m.bytes 12 (omega arith) in
    (rest, e ∙ ap (λ xs. unsubscribe_word ++ 0 ∷ xs) (append_assoc t (0 ∷ []) rest))

byte_behind :
    (t : Text) (o : ℕ) (rest : List ℕ) (n : ℕ)
    → length t + 1 ≡ n
    → byte_at (t ++ 0 ∷ o ∷ rest) n ≡ o
byte_behind [] o rest zero e = absurd (omega arith)
byte_behind [] o rest (suc zero) e = refl
byte_behind [] o rest (suc (suc n)) e = absurd (omega arith)
byte_behind (b ∷ bs) o rest zero e = absurd (omega arith)
byte_behind (b ∷ bs) o rest (suc n) e = byte_behind bs o rest n (omega arith)

last_byte_read :
    (m : TcpMsg) (t : Text) (o : ℕ) (rest : List ℕ)
    → m.bytes ≡ subscribe_word ++ 0 ∷ (t ++ 0 ∷ o ∷ rest)
    → m.len ≡ length t + 12
    → last_byte m ≡ o
unfolding last_byte
last_byte_read m t o rest e l =
    not_empty ∙ ap₂ byte_at e (ap (λ n. n - 1) l) ∙ byte_at_words (length t + 12 - 1) (omega arith)
  where
    not_empty : last_byte m ≡ byte_at m.bytes (m.len - 1)
    not_empty = ground arith

    byte_at_words :
        (n : ℕ) → length t + 11 ≡ n → byte_at (subscribe_word ++ 0 ∷ (t ++ 0 ∷ o ∷ rest)) n ≡ o
    byte_at_words n q =
        let far : n ≡ suc (suc (suc (suc (suc (suc (suc (suc (suc (suc (length t + 1)))))))))) =
          omega arith in
        ap (byte_at (subscribe_word ++ 0 ∷ (t ++ 0 ∷ o ∷ rest))) far
        ∙ byte_behind t o rest (length t + 1) refl

module _ (doubles : Doubles) (os : Os) where
  open os use {World}

  -- What the server does for a command, a topic and a last byte.
  abbrev handle : Server doubles → ℤ → World → Text → Text → ℕ → Err × Server doubles × World
  handle s fd w cmd topic o =
      let option = if o == 0 then no_sf else sf in
      let (e, v, w₁) = subscribe_client_to_topic os (some s.clients) fd topic option w in
      let (e', v') = unsubscribe_client_from_topic (some s.clients) fd topic in
      if str_eq cmd subscribe_word
      then (e, record s { clients = vec_after s.clients v }, w₁)
      else if str_eq cmd unsubscribe_word
      then (e', record s { clients = vec_after s.clients v' }, w)
      else (server_unknown_command, s, w)

  read_words :
      (s : Server doubles) (fd : ℤ) (w : World) (cmd t : Text) (o : ℕ)
      → c_string s.recv_msg.bytes ≡ cmd
      → c_string (drop (length cmd + 1) s.recv_msg.bytes) ≡ t
      → last_byte s.recv_msg ≡ o
      → process_server_tcp_msg doubles os s fd w ≡ handle s fd w cmd t o
  unfolding process_server_tcp_msg
  read_words s fd w cmd t o e q r =
      ap
        (λ c.
          handle s fd w c (c_string (drop (length c + 1) s.recv_msg.bytes)) (last_byte s.recv_msg))
        e
      ∙ ap₂ (handle s fd w cmd) q r

  -- The server reads the words and the byte back, whatever else is in the buffer.
  pub read_subscribe :
      (s : Server doubles) (fd : ℤ) (w : World) (t : Text) (o : ℕ) (rest : List ℕ)
      → IsText t
      → s.recv_msg.bytes ≡ subscribe_word ++ 0 ∷ (t ++ 0 ∷ o ∷ rest)
      → s.recv_msg.len ≡ length t + 12
      → process_server_tcp_msg doubles os s fd w ≡ (
          let option = if o == 0 then no_sf else sf in
          let (e, v, w₁) = subscribe_client_to_topic os (some s.clients) fd t option w in
          (e, record s { clients = vec_after s.clients v }, w₁))
  unfolding c_string str_eq
  read_subscribe s fd w t o rest h e l =
      read_words s fd w subscribe_word t o (ap c_string e)
        (ap (λ b. c_string (drop 10 b)) e ∙ c_string-append t (o ∷ rest) h)
        (last_byte_read s.recv_msg t o rest e l)

  pub read_unsubscribe :
      (s : Server doubles) (fd : ℤ) (w : World) (t : Text) (rest : List ℕ)
      → IsText t
      → s.recv_msg.bytes ≡ unsubscribe_word ++ 0 ∷ (t ++ 0 ∷ rest)
      → process_server_tcp_msg doubles os s fd w ≡ (
          let (e, v) = unsubscribe_client_from_topic (some s.clients) fd t in
          (e, record s { clients = vec_after s.clients v }, w))
  unfolding c_string str_eq
  read_unsubscribe s fd w t rest h e =
      read_words s fd w unsubscribe_word t (last_byte s.recv_msg) (ap c_string e)
        (ap (λ b. c_string (drop 12 b)) e ∙ c_string-append t rest h) refl
