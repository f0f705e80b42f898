-- ===== src/Server/Handlers.antt =====
-- server_utils.c: the handlers of a request and of a message about a topic.
use tcp_client_server.Prelude.{
  ℕ, zero, suc, ◌+◌, ◌-◌, ◌/◌, ◌%◌, List, [], ◌∷◌, ◌++◌, Option, none, some, Bool, true, false,
  ◌==◌, if◌then◌else◌, take, drop, length, get_elem?, Text, str_eq, c_string,
}
use tcp_client_server.Prelude.Int.{ℤ, eq_ℤ}
use tcp_client_server.Errors.{
  Err, ok, debug_msg, server_unknown_command, server_could_not_add_new_udp,
  clients_vec_client_not_found,
}
use tcp_client_server.Os.{Os, mul_size, realloc_factor}
use tcp_client_server.ClientVec.{Client, ClientVec, MsgPtr, SfOption, sf, no_sf, is_active}
use tcp_client_server.ClientVec.Topics.{
  find_topic, subscribe_client_to_topic, unsubscribe_client_from_topic, add_topic_msg_for_client,
}
use tcp_client_server.Tcp.{TcpMsg, memory_of, sizeof_tcp_msg, send_tcp_msg}
use tcp_client_server.Udp.{Doubles, UdpMsg, int, byte_at, parse_udp_type_from}
use tcp_client_server.Udp.Bytes.{zeros}
use tcp_client_server.Server.{Server, load}
use tcp_client_server.Server.Printing.{pack_topic_to_tcp_msg}

abbrev pub subscribe_word : Text
subscribe_word = 115 ∷ 117 ∷ 98 ∷ 115 ∷ 99 ∷ 114 ∷ 105 ∷ 98 ∷ 101 ∷ []

abbrev pub unsubscribe_word : Text
unsubscribe_word = 117 ∷ 110 ∷ 115 ∷ 117 ∷ 98 ∷ 115 ∷ 99 ∷ 114 ∷ 105 ∷ 98 ∷ 101 ∷ []

abbrev pub sizeof_udp_type : ℕ
sizeof_udp_type = 1576

abbrev pub is_ok : Err → Bool
is_ok ok = true
is_ok _ = false

-- The byte at `data + len - 1`, which is the high byte of `len` itself when `len` is 0.
unfoldable pub last_byte : TcpMsg → ℕ
last_byte m = if m.len == 0 then m.len / 256 % 256 else byte_at m.bytes (m.len - 1)

-- A vector behind a pointer that is not NULL, before a call and after it.
abbrev pub vec_after : ClientVec → Option ClientVec → ClientVec
vec_after v none = v
vec_after v (some v') = v'

-- The option at the index of the topic, if the client has the topic.
unfoldable pub option_for : Text → Client → Option SfOption
option_for topic c = elim (find_topic topic 0 c.topics) [
  | none ↦ none
  | some j ↦ get_elem? c.options j
]

-- How the loop over the queue ends: with all messages sent, with one that could not be sent, or with one
-- that could not be packed; the number is `remaining_msgs` then.
pub data QueueEnd : Type 0 where
  drained : QueueEnd
  broken : ℕ → QueueEnd
  unpacked : Err → ℕ → QueueEnd

-- The queue of the first client on the socket, who is at index `iter`.
unfoldable pub queue_on : ℤ → List Client → Option (List MsgPtr)
queue_on fd [] = none
queue_on fd (c ∷ cs) = if eq_ℤ c.fd fd then some c.ready_msgs else queue_on fd cs

-- `entities[iter].ready_msgs_len = n` for this client.
unfoldable pub cut_queue : ℤ → ℕ → List Client → List Client
cut_queue fd n [] = []
cut_queue fd n (c ∷ cs) =
    if eq_ℤ c.fd fd
    then record c { ready_msgs = take n c.ready_msgs } ∷ cs
    else c ∷ cut_queue fd n cs

-- A queue that could not be sent whole is cut to what is left of it, and then, as any other, to nothing.
unfoldable pub queue_after : ℤ → QueueEnd → List Client → Err × List Client
queue_after fd drained cs = (ok, cut_queue fd 0 cs)
queue_after fd (broken left) cs = (ok, cut_queue fd 0 (cut_queue fd left cs))
queue_after fd (unpacked e left) cs = (e, cut_queue fd left cs)

module _ (os : Os) where
  open os use {World, fprintf_stderr}

  -- `send_tcp_msg`, and `debug_msg` if it fails.
  unfoldable pub send_or_debug : ℤ → TcpMsg → World → Err × World
  send_or_debug fd send_msg w =
      let (e, w₁) = send_tcp_msg os fd (some (memory_of send_msg)) sizeof_tcp_msg w in
      if is_ok e then (e, w₁) else (e, fprintf_stderr (debug_msg e) w₁)

  -- What the loop over the clients does for the client at `iter`, who has the topic under `option`.
  unfoldable pub transmit_to :
      TcpMsg → MsgPtr → ℕ → Client → SfOption → ClientVec → World → Err × ClientVec × World
  transmit_to send_msg ptr iter c no_sf v w =
      if is_active c.status then (ok, v, (send_or_debug c.fd send_msg w).1) else (ok, v, w)
  transmit_to send_msg ptr iter c sf v w =
      if is_active c.status
      then (ok, v, (send_or_debug c.fd send_msg w).1)
      else let (e, v', w₁) = add_topic_msg_for_client os (some v) ptr iter w in
        (e, vec_after v v', w₁)

  -- `left` clients from `iter` on.
  unfoldable pub transmit_loop :
      TcpMsg → Text → MsgPtr → ℕ → ℕ → ClientVec → World → Err × ClientVec × World
  transmit_loop send_msg topic ptr zero iter v w = (ok, v, w)
  transmit_loop send_msg topic ptr (suc left) iter v w = elim (get_elem? v.entities iter) [
    | none ↦ (ok, v, w)
    | some c ↦ elim (option_for topic c) [
      | none ↦ transmit_loop send_msg topic ptr left (suc iter) v w
      | some option ↦
          let (e, v', w₁) = transmit_to send_msg ptr iter c option v w in
          elim (is_ok e) [
            | true ↦ transmit_loop send_msg topic ptr left (suc iter) v' w₁
            | false ↦ (e, v', w₁)
          ]
    ]
  ]

module _ (doubles : Doubles) where
  -- A message of zero bytes.
  abbrev pub cleared : UdpMsg doubles
  cleared = record {
    addr = record { sin_family = 0; sin_port = 0; sin_addr = 0 };
    topic = zeros 51;
    udp_type = 0;
    udp_data = int (ℤ.pos 0);
  }

  -- The message is parsed into the cell behind those in use, which counts as one of them if all went well.
  unfoldable pub store_udp_msg : Server doubles → Err × Server doubles
  store_udp_msg s =
      let (e, m) =
        parse_udp_type_from doubles (some cleared) (some s.udp_addr_client) (some s.buf) in
      if is_ok e
      then elim m [ none ↦ (e, s) | some m' ↦ (e, record s { udp_msgs = s.udp_msgs ++ m' ∷ [] }) ]
      else (e, s)

  -- The message that a pointer in the queue leads to, if there is one.
  abbrev pub queued : Server doubles → List MsgPtr → ℕ → Option (UdpMsg doubles)
  queued s queue i = elim (get_elem? queue i) [ none ↦ none | some p ↦ load doubles s p ]

module _ (doubles : Doubles) (os : Os) where
  open os use {World, realloc}

  unfoldable pub process_server_tcp_msg : Server doubles → ℤ → World → Err × Server doubles × World
  process_server_tcp_msg s client_fd w =
      let cmd = c_string s.recv_msg.bytes in
      let topic = c_string (drop (length cmd + 1) s.recv_msg.bytes) in
      let option = if last_byte s.recv_msg == 0 then no_sf else sf in
      let (e, v, w₁) = subscribe_client_to_topic os (some s.clients) client_fd topic option w in
      let (e', v') = unsubscribe_client_from_topic (some s.clients) client_fd topic in
      if str_eq cmd subscribe_word
      then (e, record s { clients = vec_after s.clients v }, w₁)
      else if str_eq cmd unsubscribe_word
      then (e', record s { clients = vec_after s.clients v' }, w)
      else (server_unknown_command, s, w)

  -- Adds memory for new messages when all cells are taken; `none` if there is no more. The array may move.
  unfoldable pub grow_udp_msgs : Server doubles → World → Option (Server doubles) × World
  grow_udp_msgs s w =
      let (array, w₁) =
        realloc (mul_size (mul_size sizeof_udp_type s.udp_msgs_capacity) realloc_factor) w in
      if length s.udp_msgs == s.udp_msgs_capacity
      then elim array [
        | none ↦ (none, w₁)
        | some base ↦ (
          some (record s {
            udp_msgs_base = base;
            udp_msgs_capacity = mul_size s.udp_msgs_capacity realloc_factor;
          }),
          w₁,
        )
      ]
      else (some s, w)

  unfoldable pub add_server_udp_msg : Server doubles → World → Err × Server doubles × World
  add_server_udp_msg s w =
      let (grown, w₁) = grow_udp_msgs s w in
      elim grown [
        | none ↦ (server_could_not_add_new_udp, s, w₁)
        | some s' ↦ let (e, s₁) = store_udp_msg doubles s' in (e, s₁, w₁)
      ]

  -- The last message is sent to the clients. `none` for a server without messages, which the caller never
  -- has.
  unfoldable pub transmit_topic_to_clients :
      Server doubles → World → Option (Err × Server doubles × World)
  transmit_topic_to_clients s w = elim (get_elem? s.udp_msgs (length s.udp_msgs - 1)) [
    | none ↦ none
    | some m ↦
        let (e, msg) = pack_topic_to_tcp_msg doubles s.send_msg m in
        let ptr : MsgPtr = record { base = s.udp_msgs_base; index = length s.udp_msgs - 1 } in
        let (e', v, w₁) =
          transmit_loop os msg (c_string m.topic) ptr (length s.clients.entities) 0 s.clients w in
        if is_ok e
        then some (e', record s { clients = v; send_msg = msg }, w₁)
        else some (e, record s { send_msg = msg }, w)
  ]

  -- `for (; remaining_msgs > 0; remaining_msgs--)`; `none` if a pointer leads nowhere.
  unfoldable pub send_queue :
      Server doubles → ℤ → List MsgPtr → ℕ → TcpMsg → World → Option (QueueEnd × TcpMsg × World)
  send_queue s fd queue zero send_msg w = some (drained, send_msg, w)
  send_queue s fd queue (suc left) send_msg w = elim (queued doubles s queue left) [
    | none ↦ none
    | some m ↦
        let (e, msg) = pack_topic_to_tcp_msg doubles send_msg m in
        let (e', w₁) = send_or_debug os fd msg w in
        elim (is_ok e) [
          | false ↦ some (unpacked e (suc left), msg, w)
          | true ↦ elim (is_ok e') [
            | true ↦ send_queue s fd queue left msg w₁
            | false ↦ some (broken (suc left), msg, w₁)
          ]
        ]
  ]

  unfoldable pub retransmit_topics_to_client :
      Server doubles → ℤ → World → Option (Err × Server doubles × World)
  retransmit_topics_to_client s client_fd w = elim (queue_on client_fd s.clients.entities) [
    | none ↦ some (clients_vec_client_not_found, s, w)
    | some queue ↦ elim (send_queue s client_fd queue (length queue) s.send_msg w) [
      | none ↦ none
      | some (how, msg, w₁) ↦
          let (e, cs) = queue_after client_fd how s.clients.entities in
          some (e, record s { clients = record s.clients { entities = cs }; send_msg = msg }, w₁)
    ]
  ]
