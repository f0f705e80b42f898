-- ===== src/Server/Packing.antt =====
-- server_utils.c, `pack_topic_to_tcp_msg`: what a subscriber prints of a message.
use tcp_client_server.Prelude.{
  ℕ, ◌+◌, ◌-◌, ◌/◌, ◌%◌, ◌^◌, ◌<◌, ◌≤◌, ◌≡◌, ◌≢◌, refl, sym, ap, ◌∙◌, List, [], ◌∷◌, ◌++◌, some,
  drop, length, length-append, take_all, append_assoc, arith, Text, IsText, c_string,
  c_string-append, length-take, length-drop, take,
}
use tcp_client_server.Errors.{ok}
use tcp_client_server.Tcp.{TcpMsg, max_tcp_msg_buf_len}
use tcp_client_server.Udp.{Doubles, SockAddr, UdpMsg}
use tcp_client_server.Server.Printing.{
  inet_ntoa, ntohs, overwrite, snprintf_at, head_text, data_text, pack_topic_to_tcp_msg,
}
use tcp_client_server.Server.Text.{
  decimal-IsText, length-decimal, IsText-append, c_string-IsText, length-c_string, overwrite-append,
}

inet_ntoa-IsText : (a : ℕ) → IsText (inet_ntoa a)
unfolding inet_ntoa
inet_ntoa-IsText a =
    IsText-append _ _ 46
      (IsText-append _ _ 46
        (IsText-append _ _ 46 (decimal-IsText (a % 256)) (omega arith)
          (decimal-IsText (a / 256 % 256)))
        (omega arith) (decimal-IsText (a / 2 ^ 16 % 256)))
      (omega arith) (decimal-IsText (a / 2 ^ 24 % 256))

length-join :
    (s t : Text) (b m n : ℕ) → length s ≤ m → length t ≤ n → length (s ++ b ∷ t) ≤ m + 1 + n
length-join s t b m n h k = omega (arith, length-append s (b ∷ t))

length-inet_ntoa : (a : ℕ) → length (inet_ntoa a) ≤ 43
unfolding inet_ntoa
length-inet_ntoa a =
    length-join _ _ 46 32 10
      (length-join _ _ 46 21 10
        (length-join _ _ 46 10 10 (length-decimal (a % 256)) (length-decimal (a / 256 % 256)))
        (length-decimal (a / 2 ^ 16 % 256)))
      (length-decimal (a / 2 ^ 24 % 256))

head_text-IsText : (addr : SockAddr) (topic : Text) → IsText topic → IsText (head_text addr topic)
unfolding head_text
head_text-IsText addr topic h =
    IsText-append _ (45 ∷ []) 32
      (IsText-append _ (45 ∷ 32 ∷ topic) 32
        (IsText-append _ _ 58 (inet_ntoa-IsText addr.sin_addr) (omega arith)
          (decimal-IsText (ntohs addr.sin_port)))
        (omega arith)
        (IsText-append (45 ∷ []) topic 32 (nonzero 45 (omega arith), tt) (omega arith) h))
      (omega arith) (nonzero 45 (omega arith), tt)
  where
    nonzero : (b : ℕ) → 0 < b → b ≢ 0
    nonzero b p e = absurd (omega arith)

length-head_text :
    (addr : SockAddr) (topic : Text) → length topic ≤ 51 → length (head_text addr topic) ≤ 110
unfolding head_text
length-head_text addr topic h =
    length-join _ (45 ∷ []) 32 108 1
      (length-join _ (45 ∷ 32 ∷ topic) 32 54 53
        (length-join _ _ 58 43 10 (length-inet_ntoa addr.sin_addr)
          (length-decimal (ntohs addr.sin_port)))
        (omega arith))
      (omega arith)

snprintf_at_fits :
    (buf : List ℕ) (offset size : ℕ) (text : Text)
    → length text < size
    → snprintf_at buf offset size text ≡ overwrite buf offset (text ++ 0 ∷ [])
unfolding snprintf_at
snprintf_at_fits buf offset size text h =
    ap (λ t. overwrite buf offset (t ++ 0 ∷ [])) (take_all text (size - 1) (omega arith))

overwrite_start :
    (buf bytes : List ℕ) → overwrite buf 0 bytes ≡ bytes ++ drop (0 + length bytes) buf
unfolding overwrite
overwrite_start buf bytes = refl

-- A text written over the start of a buffer, and another over its NUL.
two_texts :
    (buf : List ℕ) (head text : Text) (size size' : ℕ)
    → length head < size
    → length text < size'
    → IsText (head ++ text)
    → c_string (snprintf_at (snprintf_at buf 0 size head) (length head) size' text) ≡ head ++ text
two_texts buf head text size size' h k p =
    ap (λ b. c_string (snprintf_at b (length head) size' text))
      (snprintf_at_fits buf 0 size head h
        ∙ overwrite_start buf (head ++ 0 ∷ [])
        ∙ append_assoc head (0 ∷ []) rest)
    ∙ ap c_string (
        snprintf_at_fits (head ++ 0 ∷ rest) (length head) size' text k
        ∙ overwrite-append head (0 ∷ rest) (text ++ 0 ∷ []) (length head) refl
        ∙ ap (λ xs. xs ++ drop (length head + length (text ++ 0 ∷ [])) (head ++ 0 ∷ rest))
            (sym (append_assoc head text (0 ∷ [])))
        ∙ append_assoc (head ++ text) (0 ∷ []) _)
    ∙ c_string-append (head ++ text) _ p
  where
    rest : List ℕ
    rest = drop (0 + length (head ++ 0 ∷ [])) buf

joined-IsText : (s t : Text) → IsText s → IsText t → IsText (s ++ t)
joined-IsText [] t h k = k
joined-IsText (b ∷ bs) t h k = (h.0, joined-IsText bs t h.1 k)

length-overwrite :
    (buf bytes : List ℕ) (offset : ℕ)
    → offset + length bytes ≤ length buf
    → length (overwrite buf offset bytes) ≡ length buf
unfolding overwrite
length-overwrite buf bytes offset h = omega (
  arith,
  length-append (take offset buf ++ bytes) (drop (offset + length bytes) buf),
  length-append (take offset buf) bytes,
  length-take offset buf,
  length-drop (offset + length bytes) buf,
)

length-snprintf_at :
    (buf : List ℕ) (offset size : ℕ) (text : Text)
    → 0 < size
    → offset + size ≤ length buf
    → length (snprintf_at buf offset size text) ≡ length buf
unfolding snprintf_at
length-snprintf_at buf offset size text p h =
    length-overwrite buf (take (size - 1) text ++ 0 ∷ []) offset
      (omega (arith, length-append (take (size - 1) text) (0 ∷ []), length-take (size - 1) text))

module _ (doubles : Doubles) where
  -- For a message whose topic field has its 51 bytes or fewer, and whose data print as a text without a
  -- NUL and of fewer than 1900 bytes: `pack_topic_to_tcp_msg` returns OK, the C string in the packed message
  -- is the sender's address and the topic followed by the text of the data, whole, whatever the buffer
  -- held, and the length in the message is the length of that string.
  pub pack_topic_to_tcp_msg-c_string :
      (b : TcpMsg) (m : UdpMsg doubles) (text : Text)
      → data_text doubles m.udp_type m.udp_data ≡ some text
      → length m.topic ≤ 51
      → IsText text
      → length text < 1900
      → (let whole = head_text m.addr (c_string m.topic) ++ text in
          (b' : TcpMsg) × (pack_topic_to_tcp_msg doubles b m ≡ (ok, b'))
          × (c_string b'.bytes ≡ whole)
          × (b'.len ≡ length whole))
  unfolding pack_topic_to_tcp_msg
  pack_topic_to_tcp_msg-c_string b m text e l p k = (
    record {
      len = (len₁ + length text) % 2 ^ 16;
      bytes =
          snprintf_at (snprintf_at b.bytes 0 max_tcp_msg_buf_len head) len₁
            (max_tcp_msg_buf_len - len₁) text;
    },
    rw (e, pack_topic_to_tcp_msg) refl,
    ap
          (λ n. c_string (
            snprintf_at (snprintf_at b.bytes 0 max_tcp_msg_buf_len head) n (max_tcp_msg_buf_len - n)
              text))
          len₁_lem
        ∙ two_texts b.bytes head text max_tcp_msg_buf_len (max_tcp_msg_buf_len - length head)
            (omega (arith, short)) (omega (arith, short))
            (joined-IsText head text (head_text-IsText m.addr _ (c_string-IsText m.topic)) p),
    omega (arith, length-append head text, short),
  )
    where
      head : Text
      head = head_text m.addr (c_string m.topic)

      len₁ : ℕ
      len₁ = length head % 2 ^ 16

      short : length head ≤ 110
      short = length-head_text m.addr (c_string m.topic) (omega (arith, length-c_string m.topic))

      len₁_lem : len₁ ≡ length head
      len₁_lem = omega (arith, short)

  pub pack_topic_to_tcp_msg-ok :
      (b : TcpMsg) (m : UdpMsg doubles) (text : Text)
      → data_text doubles m.udp_type m.udp_data ≡ some text
      → (pack_topic_to_tcp_msg doubles b m).0 ≡ ok
  unfolding pack_topic_to_tcp_msg
  pack_topic_to_tcp_msg-ok b m text e = rw (e, pack_topic_to_tcp_msg) refl

  -- A packed message still fills its buffer.
  pub length-packed :
      (b : TcpMsg) (m : UdpMsg doubles) (text : Text)
      → data_text doubles m.udp_type m.udp_data ≡ some text
      → length m.topic ≤ 51
      → length b.bytes ≡ max_tcp_msg_buf_len
      → length (pack_topic_to_tcp_msg doubles b m).1.bytes ≡ max_tcp_msg_buf_len
  unfolding pack_topic_to_tcp_msg
  length-packed b m text e l full =
      let head : Text = head_text m.addr (c_string m.topic) in
      let short : length head ≤ 110 =
        length-head_text m.addr (c_string m.topic) (omega (arith, length-c_string m.topic)) in
      let first =
        length-snprintf_at b.bytes 0 max_tcp_msg_buf_len head (omega arith) (omega arith) in
      rw (e, pack_topic_to_tcp_msg)
        (length-snprintf_at (snprintf_at b.bytes 0 max_tcp_msg_buf_len head) (length head % 2 ^ 16)
            (max_tcp_msg_buf_len - length head % 2 ^ 16) text (omega (arith, short))
            (omega (arith, short))
          ∙ first
          ∙ full)
