-- ===== src/ClientVec/Lookup.antt =====
-- The clients by their ids: whom `register_new_client` lets in, and what it changes.
use tcp_client_server.Prelude.{
  ℕ, ◌≡◌, ◌⊎◌, refl, inl, inr, List, [], ◌∷◌, ◌++◌, Option, none, some, if◌then◌else◌, Text, str_eq,
}
use tcp_client_server.Prelude.Int.{ℤ}
use tcp_client_server.Errors.{
  Err, ok, clients_vec_failed_realloc, clients_vec_failed_register_allocation,
  client_vec_client_already_connected,
}
use tcp_client_server.Os.{Os}
use tcp_client_server.ClientVec.{Status, active, dead, Client, ClientVec, new_client}

-- The client with an id.
unfoldable pub by_id : Text → List Client → Option Client
by_id id [] = none
by_id id (c ∷ cs) = if str_eq c.id id then some c else by_id id cs

-- A client that comes back on a socket.
abbrev pub back_on : ℤ → Client → Client
back_on client_fd c = record c { fd = client_fd; status = active }

-- The clients `ys` are `xs` but for the one with the id, who is `c`.
abbrev pub Updates : Text → Client → List Client → List Client → Type 0
Updates id c xs ys = (j : Text) → by_id j ys ≡ (if str_eq id j then some c else by_id j xs)

-- What the search of `register_new_client` comes to.
data Search (id : Text) (fd : ℤ) (xs : List Client) (o : Option (Err × List Client)) : Type 0 where
  unknown : by_id id xs ≡ none → o ≡ none → Search id fd xs o
  connected :
      (c : Client)
      → by_id id xs ≡ some c
      → c.status ≡ active
      → o ≡ some (client_vec_client_already_connected, xs)
      → Search id fd xs o
  returning :
      (c : Client) (ys : List Client)
      → by_id id xs ≡ some c
      → c.status ≡ dead
      → o ≡ some (ok, ys)
      → Updates id (back_on fd c) xs ys
      → Search id fd xs o

pub Status-cases : (s : Status) → (s ≡ active) ⊎ (s ≡ dead)
Status-cases active = inl refl
Status-cases dead = inr refl

module _ (os : Os) where
  open os use {World}

  -- What `register_new_client` may do for an id and a socket.
  pub data Registers (v : ClientVec) (id : Text) (fd : ℤ) (w : World)
      (r : Err × Option ClientVec × World) : Type 0 where
    -- The client with the id is active: it is refused, and nothing changes.
    refused :
        (c : Client)
        → by_id id v.entities ≡ some c
        → c.status ≡ active
        → r ≡ (client_vec_client_already_connected, some v, w)
        → Registers v id fd w r
    -- The client with the id is dead: it is active on the new socket, with all else that it had, and the
    -- other clients are as they were.
    returned :
        (c : Client) (ys : List Client)
        → by_id id v.entities ≡ some c
        → c.status ≡ dead
        → r ≡ (ok, some (record v { entities = ys }), w)
        → Updates id (back_on fd c) v.entities ys
        → Registers v id fd w r
    -- No client has the id: a new one stands behind the others.
    added :
        (capacity : ℕ) (w' : World)
        → by_id id v.entities ≡ none
        → r ≡ (
          ok,
          some (record { entities = v.entities ++ new_client id fd ∷ []; capacity = capacity }),
          w',
        )
        → Registers v id fd w r
    -- No client has the id, and memory ran out: the clients are as they were.
    out_of_memory :
        (capacity : ℕ) (w' : World) (e : Err)
        → by_id id v.entities ≡ none
        → (e ≡ clients_vec_failed_realloc) ⊎ (e ≡ clients_vec_failed_register_allocation)
        → r ≡ (e, some (record { entities = v.entities; capacity = capacity }), w')
        → Registers v id fd w r
