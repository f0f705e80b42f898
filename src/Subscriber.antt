-- ===== src/Subscriber.antt =====
-- subscriber_utils.c: the commands that a subscriber sends to the server.
-- The client is the one that `init_client` leaves, with no pointer NULL.
pub mod Commands
pub mod Lines
pub mod Setup
pub mod Program
mod Tests
use tcp_client_server.Prelude.{
  ℕ, zero, suc, ◌+◌, ◌-◌, ◌*◌, ◌%◌, ◌^◌, Bool, true, false, ◌||◌, ◌&&◌, List, [], ◌∷◌, ◌++◌, Option,
  none, some, ◌==◌, ltb, leb, if◌then◌else◌, length, Text, c_string,
}
use tcp_client_server.Prelude.Int.{ℤ, pos, negsuc, is_nonpos}
use tcp_client_server.Errors.{Err, client_input_is_null, input_wrong_format}
use tcp_client_server.Os.{Os}
use tcp_client_server.Tcp.{TcpMsg, memory_of, sizeof_tcp_msg, send_tcp_msg}
use tcp_client_server.Server.Printing.{overwrite}

-- The fields of `client_t` that the commands use.
pub record Subscriber : Type 0 where
  pub tcp_socket : ℤ
  pub cmd : List ℕ
  pub send_msg : TcpMsg

-- `WORD_SEPARATOR`: a space or a line feed.
abbrev pub is_separator : ℕ → Bool
is_separator b = b == 32 || b == 10

unfoldable pub skip_separators : Text → Text
skip_separators [] = []
skip_separators (b ∷ bs) = if is_separator b then skip_separators bs else b ∷ bs

-- A word, and what follows the separator behind it.
unfoldable pub word : Text → Text × Text
word [] = ([], [])
word (b ∷ bs) = let (w, rest) = word bs in if is_separator b then ([], bs) else (b ∷ w, rest)

-- `strtok_r` from where the pointer stands, with where it stands after.
unfoldable pub strtok_r : Text → Option Text × Text
strtok_r s = elim (skip_separators s) [
  | [] ↦ (none, [])
  | b ∷ bs ↦ let (w, rest) = word (b ∷ bs) in (some w, rest)
]

-- `atoi` of a text without white space, for numbers in the range of `int`.
unfoldable pub digits_value : ℕ → Text → ℕ
digits_value n [] = n
digits_value n (b ∷ bs) =
    let rest = digits_value (n * 10 + (b - 48)) bs in if leb 48 b && leb b 57 then rest else n

abbrev pub negative : ℕ → ℤ
negative zero = pos 0
negative (suc n) = negsuc n

unfoldable pub atoi : Text → ℤ
atoi [] = pos 0
atoi (b ∷ bs) =
    if b == 45
    then negative (digits_value 0 bs)
    else if b == 43
    then pos (digits_value 0 bs)
    else pos (digits_value 0 (b ∷ bs))

-- The store-and-forward byte, from the third word of the line.
unfoldable pub sf_byte : Option Text → ℕ
sf_byte none = 0
sf_byte (some sf_str) = if is_nonpos (atoi sf_str) then 0 else 1

-- The words one behind the other with their NULs; the length is the offset behind the last.
unfoldable pub unsubscribe_msg : Text → Text → TcpMsg → TcpMsg
unsubscribe_msg cmd topic m =
    let offset = (length cmd + 1) % 2 ^ 16 in
    record {
      len = ((length topic + 1) % 2 ^ 16 + offset) % 2 ^ 16;
      bytes = overwrite (overwrite m.bytes 0 (cmd ++ 0 ∷ [])) offset (topic ++ 0 ∷ []);
    }

unfoldable pub subscribe_msg : Text → Text → ℕ → TcpMsg → TcpMsg
subscribe_msg cmd topic sf m =
    let offset₁ = (length cmd + 1) % 2 ^ 16 in
    let offset₂ = offset₁ + (length topic + 1) % 2 ^ 16 in
    let words = overwrite (overwrite m.bytes 0 (cmd ++ 0 ∷ [])) offset₁ (topic ++ 0 ∷ []) in
    record { len = (1 + offset₂) % 2 ^ 16; bytes = overwrite words offset₂ (sf ∷ []) }

module _ (os : Os) where
  open os use {World}

  abbrev pub send_request : Subscriber → TcpMsg → World → Err × Option Subscriber × World
  send_request c m w =
      let (e, w₁) = send_tcp_msg os c.tcp_socket (some (memory_of m)) sizeof_tcp_msg w in
      (e, some (record c { send_msg = m }), w₁)

  -- The first word is never NULL, since `get_cmd_line` has found the name of the command at the start; for
  -- a line of separators alone the source would fail, here it is refused. That `strtok_r` writes a NUL behind
  -- each word is left out: the next line that is read overwrites the buffer.
  unfoldable pub process_subscribe_cmd : Option Subscriber → World → Err × Option Subscriber × World
  process_subscribe_cmd none w = (client_input_is_null, none, w)
  process_subscribe_cmd (some c) w =
      let (cmd, rest) = strtok_r (c_string c.cmd) in
      let (topic, rest') = strtok_r rest in
      let (sf_str, _) = strtok_r rest' in
      elim cmd [
        | none ↦ (input_wrong_format, some c, w)
        | some cmd' ↦ elim topic [
          | none ↦ (input_wrong_format, some c, w)
          | some topic' ↦ send_request c (subscribe_msg cmd' topic' (sf_byte sf_str) c.send_msg) w
        ]
      ]

  unfoldable pub process_unsubscribe_cmd :
      Option Subscriber → World → Err × Option Subscriber × World
  process_unsubscribe_cmd none w = (client_input_is_null, none, w)
  process_unsubscribe_cmd (some c) w =
      let (cmd, rest) = strtok_r (c_string c.cmd) in
      let (topic, _) = strtok_r rest in
      elim cmd [
        | none ↦ (input_wrong_format, some c, w)
        | some cmd' ↦ elim topic [
          | none ↦ (input_wrong_format, some c, w)
          | some topic' ↦ send_request c (unsubscribe_msg cmd' topic' c.send_msg) w
        ]
      ]
