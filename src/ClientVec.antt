-- ===== src/ClientVec.antt =====
-- client_vec.h and client_vec.c: what the server keeps of its clients, and who is connected.
-- An array with its length is the list of the cells in use; its capacity is a field of its own. A
-- pointer to the vector is an `Option`, with `none` for NULL; a function that writes through it
-- returns the vector that it leaves.
pub mod Topics
pub mod Wellformed
pub mod Lookup
pub mod Removal
pub mod Invariant
pub mod Subscriptions
pub mod Subscribers
pub mod Requests
pub mod Connections
pub mod Quiet
pub mod Connected
mod Tests
use tcp_client_server.Prelude.{
  ℕ, ◌+◌, ◌≡◌, Bool, true, false, List, [], ◌∷◌, ◌++◌, Option, none, some, leb, ◌==◌, if◌then◌else◌,
  length, get_elem?, for_first, Text, str_eq,
}
use tcp_client_server.Prelude.Int.{ℤ, negsuc, eq_ℤ, is_neg}
use tcp_client_server.Errors.{
  Err, ok, clients_vec_input_is_not_null, clients_vec_failed_allocation, clients_vec_input_is_null,
  clients_vec_failed_realloc, clients_vec_failed_register_allocation,
  client_vec_client_already_connected, clients_vec_input_fd_idx_invalid,
  clients_vec_client_already_dead, clients_vec_close_client_not_found,
}
use tcp_client_server.Os.{Os, mul_size, realloc_factor}

-- `client_status_t` and `client_options_t`
pub data Status : Type 0 where
  active dead : Status

pub data SfOption : Type 0 where
  no_sf sf : SfOption

-- A pointer to an element of the server's array of messages: the array's address and the index.
pub record MsgPtr : Type 0 where
  pub base : ℕ
  pub index : ℕ

-- `client_type_t`. `topics_len` and `ready_msgs_len` are the lengths of the lists; the array of
-- options has the length of the array of topics.
pub record Client : Type 0 where
  pub id : Text
  pub status : Status
  pub options : List SfOption
  pub fd : ℤ
  pub topics : List Text
  pub topic_capacity : ℕ
  pub ready_msgs : List MsgPtr
  pub ready_msgs_capacity : ℕ

-- `client_vec_t`. `len` is the length of the list.
pub record ClientVec : Type 0 where
  pub entities : List Client
  pub capacity : ℕ

abbrev pub init_topics_capacity : ℕ
init_topics_capacity = 10

abbrev pub max_id_client_len : ℕ
max_id_client_len = 10

abbrev pub sizeof_clients_vec : ℕ
sizeof_clients_vec = 24

abbrev pub sizeof_client : ℕ
sizeof_client = 80

abbrev pub sizeof_pointer : ℕ
sizeof_pointer = 8

abbrev pub sizeof_option : ℕ
sizeof_option = 4

abbrev pub is_active : Status → Bool
is_active active = true
is_active dead = false

-- The body of the loop of `register_new_client`: a client with the id is connected already, or comes
-- back on the new socket.
unfoldable pub reconnect : Text → ℤ → ℕ → Client → Option (Err × Client)
reconnect client_id client_fd iter c =
    if str_eq c.id client_id
    then if is_active c.status
      then some (client_vec_client_already_connected, c)
      else some (ok, record c { fd = client_fd; status = active })
    else none

-- The source copies the id by `strcpy` into `max_id_client_len` bytes, with no check of its length; here
-- it is copied whole.
unfoldable pub new_client : Text → ℤ → Client
new_client client_id client_fd = record {
  id = client_id;
  status = active;
  options = [];
  fd = client_fd;
  topics = [];
  topic_capacity = init_topics_capacity;
  ready_msgs = [];
  ready_msgs_capacity = init_topics_capacity;
}

-- The body of the loop of `close_active_client`, with the index that it writes through `client_idx`.
unfoldable pub disconnect : ℤ → ℕ → Client → Option ((Err × Option ℕ) × Client)
disconnect client_fd iter c =
    if eq_ℤ c.fd client_fd
    then if is_active c.status
      then some ((ok, some iter), record c { status = dead; fd = negsuc 0 })
      else some ((clients_vec_client_already_dead, none), c)
    else none

unfoldable pub close_active_client : Option ClientVec → ℤ → Err × Option ClientVec × Option ℕ
close_active_client none client_fd = (clients_vec_input_is_null, none, none)
close_active_client (some v) client_fd =
    if is_neg client_fd
    then (clients_vec_input_fd_idx_invalid, some v, none)
    else elim (for_first (disconnect client_fd) 0 v.entities) [
      | none ↦ (clients_vec_close_client_not_found, some v, none)
      | some ((e, client_idx), entities') ↦
          (e, some (record v { entities = entities' }), client_idx)
    ]

-- `""` if there is no such client.
unfoldable pub get_client_id : Option ClientVec → ℕ → Text
get_client_id none client_idx = []
get_client_id (some v) client_idx = elim (get_elem? v.entities client_idx) [
  | none ↦ []
  | some c ↦ c.id
]

-- What it frees is not part of the state: the vector behind the pointer is gone, and the pointer is NULL.
unfoldable pub free_clients_vec : Option (Option ClientVec) → Err × Option (Option ClientVec)
free_clients_vec none = (clients_vec_input_is_null, none)
free_clients_vec (some none) = (clients_vec_input_is_null, some none)
free_clients_vec (some (some v)) = (ok, some none)

module _ (os : Os) where
  open os use {World, malloc, realloc}

  -- If the array cannot be allocated, the structure stays behind the pointer, with a NULL array.
  unfoldable pub create_clients_vec :
      Option (Option ClientVec) → ℕ → World → Err × Option (Option ClientVec) × World
  create_clients_vec none init_clients w = (clients_vec_input_is_not_null, none, w)
  create_clients_vec (some (some v)) init_clients w =
      (clients_vec_input_is_not_null, some (some v), w)
  create_clients_vec (some none) init_clients w =
      let (vec, w₁) = malloc sizeof_clients_vec w in
      let (array, w₂) = malloc (mul_size sizeof_client init_clients) w₁ in
      let empty : ClientVec = record { entities = []; capacity = init_clients } in
      elim vec [
        | none ↦ (clients_vec_failed_allocation, some none, w₁)
        | some _ ↦ elim array [
          | none ↦ (clients_vec_failed_allocation, some (some empty), w₂)
          | some _ ↦ (ok, some (some empty), w₂)
        ]
      ]

  -- Allocations one after the other, up to the first that fails.
  unfoldable pub malloc_all : List ℕ → World → Bool × World
  malloc_all [] w = (true, w)
  malloc_all (size ∷ sizes) w =
      let (p, w₁) = malloc size w in elim p [ none ↦ (false, w₁) | some _ ↦ malloc_all sizes w₁ ]

  -- Adds memory for new clients when all cells are taken; `none` if there is no more.
  unfoldable pub grow_entities : ClientVec → World → Option ClientVec × World
  grow_entities v w =
      let (array, w₁) = realloc (mul_size (mul_size sizeof_client v.capacity) realloc_factor) w in
      if length v.entities == v.capacity
      then elim array [
        | none ↦ (none, w₁)
        | some _ ↦ (some (record v { capacity = mul_size v.capacity realloc_factor }), w₁)
      ]
      else (some v, w)

  -- The id, the topics, the options and the queue of a new client, in this order.
  unfoldable pub add_client : ClientVec → Text → ℤ → World → Err × Option ClientVec × World
  add_client v client_id client_fd w =
      let (done, w₁) =
        malloc_all
          (max_id_client_len
            ∷ mul_size sizeof_pointer init_topics_capacity
            ∷ mul_size sizeof_option init_topics_capacity
            ∷ mul_size sizeof_pointer init_topics_capacity
            ∷ [])
          w in
      if done
      then (
        ok,
        some (record v { entities = v.entities ++ new_client client_id client_fd ∷ [] }),
        w₁,
      )
      else (clients_vec_failed_register_allocation, some v, w₁)

  unfoldable pub register_new_client :
      Option ClientVec → Text → ℤ → World → Err × Option ClientVec × World
  register_new_client none client_id client_fd w = (clients_vec_input_is_null, none, w)
  register_new_client (some v) client_id client_fd w =
      let (grown, w₁) = grow_entities v w in
      elim (for_first (reconnect client_id client_fd) 0 v.entities) [
        | some (e, entities') ↦ (e, some (record v { entities = entities' }), w)
        | none ↦ elim grown [
          | none ↦ (clients_vec_failed_realloc, some v, w₁)
          | some v' ↦ add_client v' client_id client_fd w₁
        ]
      ]
