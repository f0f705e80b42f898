-- ===== src/Server/Store.antt =====
-- server_utils.c, `add_server_udp_msg`: the array of messages, and the pointers into it.
use tcp_client_server.Prelude.{
  ℕ, zero, suc, ◌≡◌, ◌≢◌, ◌⊎◌, refl, ap₂, inl, inr, true, false, List, [], ◌∷◌, ◌++◌, Option, none,
  some, arith, ◌==◌, Bool-cases, Option-cases, length, get_elem?, drop, take,
}
use tcp_client_server.Errors.{Err, ok, udp_unknown_data_type, server_could_not_add_new_udp}
use tcp_client_server.Os.{Os, mul_size, realloc_factor}
use tcp_client_server.ClientVec.{MsgPtr}
use tcp_client_server.Udp.{Doubles, UdpData, UdpMsg, parse_data, byte_at, parse_udp_type_from}
use tcp_client_server.Server.{Server, load}
use tcp_client_server.Server.Handlers.{
  is_ok, sizeof_udp_type, grow_udp_msgs, cleared, store_udp_msg, add_server_udp_msg,
}

is_ok_lem : (e : Err) → is_ok e ≡ true → e ≡ ok
is_ok_lem e h = ground arith

module _ (doubles : Doubles) where
  get_elem?-append :
      {m : UdpMsg doubles} (xs ys : List (UdpMsg doubles)) (i : ℕ)
      → get_elem? xs i ≡ some m
      → get_elem? (xs ++ ys) i ≡ some m
  get_elem?-append [] ys i e = cc
  get_elem?-append (x ∷ xs) ys zero e = e
  get_elem?-append (x ∷ xs) ys (suc i) e = get_elem?-append xs ys i e

  -- What storing a message may come to: no memory, data that cannot be parsed, or one more message.
  pub data Stores (os : Os) (s : Server doubles) : Err × Server doubles × os.World → Type 0 where
    no_memory : (w : os.World) → Stores os s (server_could_not_add_new_udp, s, w)
    refused :
        (w : os.World) (e : Err) (base capacity : ℕ)
        → (parse_udp_type_from doubles
            (some (cleared doubles))
            (some s.udp_addr_client)
            (some s.buf)).0
          ≡ e
        → is_ok e ≡ false
        → Stores os s (e, record s { udp_msgs_base = base; udp_msgs_capacity = capacity }, w)
    stored :
        (w : os.World) (m : UdpMsg doubles) (base capacity : ℕ)
        → parse_udp_type_from doubles (some (cleared doubles)) (some s.udp_addr_client) (some s.buf)
          ≡ (ok, some m)
        → Stores os s (
          ok,
          record s {
            udp_msgs = s.udp_msgs ++ m ∷ [];
            udp_msgs_base = base;
            udp_msgs_capacity = capacity;
          },
          w,
        )

  load_inv :
      (s : Server doubles) (p : MsgPtr) (m : UdpMsg doubles)
      → load doubles s p ≡ some m
      → (p.base ≡ s.udp_msgs_base) × (get_elem? s.udp_msgs p.index ≡ some m)
  unfolding load
  load_inv s p m e = elim (Bool-cases (p.base == s.udp_msgs_base)) [
    | inl q ↦ (ground arith, (rw q at e))
    | inr q ↦ let k : none ≡ some m = (rw q at e) in cc
  ]

  -- What becomes of a pointer that led to a message.
  abbrev pub Follows : Server doubles → Server doubles → Type 0
  Follows s s' =
      (p : MsgPtr) (m : UdpMsg doubles)
      → load doubles s p ≡ some m
      → ((s'.udp_msgs_base ≡ s.udp_msgs_base) × (load doubles s' p ≡ some m))
        ⊎ ((s'.udp_msgs_base ≢ s.udp_msgs_base) × (load doubles s' p ≡ none))

  follows :
      (s s' : Server doubles)
      → ((i : ℕ) (m : UdpMsg doubles)
          → get_elem? s.udp_msgs i ≡ some m
          → get_elem? s'.udp_msgs i ≡ some m)
      → Follows s s'
  unfolding load
  follows s s' keep p m e =
      let (here, there) = load_inv s p m e in
      elim (Bool-cases (s'.udp_msgs_base == s.udp_msgs_base)) [
        | inl q ↦
            let same : (p.base == s'.udp_msgs_base) ≡ true = ground arith in
            inl (ground arith, rw (same, load) (keep p.index m there))
        | inr q ↦
            let other : (p.base == s'.udp_msgs_base) ≡ false = ground arith in
            inr (ground arith, rw (other, load) refl)
      ]

module _ (doubles : Doubles) (os : Os) where
  open os use {World}

  parse_some :
      (s : Server doubles)
      → (m : UdpMsg doubles) × ((parse_udp_type_from doubles
            (some (cleared doubles))
            (some s.udp_addr_client)
            (some s.buf)).1
          ≡ some m)
  unfolding parse_udp_type_from
  parse_some s = by_data (parse_data doubles (byte_at s.buf 50) (drop 51 s.buf))
    where
      parsed : UdpMsg doubles
      parsed = record (cleared doubles) {
        addr = s.udp_addr_client;
        topic = take 51 s.buf;
        udp_type = byte_at s.buf 50;
      }

      by_data :
          (o : Option (UdpData doubles))
          → (m : UdpMsg doubles) × ((elim o as (λ _. Err × Option (UdpMsg doubles)) [
            | none ↦ (udp_unknown_data_type, some parsed)
            | some d ↦ (ok, some (record parsed { udp_data = d }))
          ]).1
              ≡ some m)
      by_data none = (parsed, refl)
      by_data (some d) = (record parsed { udp_data = d }, refl)

  grow_udp_msgs_cases :
      (s : Server doubles) (w : World)
      → ((grow_udp_msgs doubles os s w).0 ≡ none)
        ⊎ ((base capacity : ℕ) × ((grow_udp_msgs doubles os s w).0
              ≡ some (record s { udp_msgs_base = base; udp_msgs_capacity = capacity })))
  unfolding grow_udp_msgs
  grow_udp_msgs_cases s w = elim (Bool-cases (length s.udp_msgs == s.udp_msgs_capacity)) [
    | inr room ↦ inr (s.udp_msgs_base, s.udp_msgs_capacity, rw room refl)
    | inl full ↦ elim (Option-cases (os.realloc size w).0) [
      | inl e ↦ inl (rw (full, e) refl)
      | inr (a, e) ↦ inr (a, mul_size s.udp_msgs_capacity realloc_factor, rw (full, e) refl)
    ]
  ]
    where
      size : ℕ
      size = mul_size (mul_size sizeof_udp_type s.udp_msgs_capacity) realloc_factor

  pub add_server_udp_msg-Stores :
      (s : Server doubles) (w : World) → Stores doubles os s (add_server_udp_msg doubles os s w)
  unfolding add_server_udp_msg store_udp_msg
  add_server_udp_msg-Stores s w = elim (grow_udp_msgs_cases s w) [
    | inl e ↦ rw (e, add_server_udp_msg) (no_memory _)
    | inr (base, capacity, e) ↦ rw (e, add_server_udp_msg) (by_parsing base capacity)
  ]
    where
      w₁ : World
      w₁ = (grow_udp_msgs doubles os s w).1

      roomy : ℕ → ℕ → Server doubles
      roomy base capacity = record s { udp_msgs_base = base; udp_msgs_capacity = capacity }

      Parse : Type 0
      Parse = Err × Option (UdpMsg doubles)

      parse : Parse
      parse =
          parse_udp_type_from doubles (some (cleared doubles)) (some s.udp_addr_client) (some s.buf)

      by_parsing :
          (base capacity : ℕ)
          → Stores doubles os s
              (let (e, s₁) = store_udp_msg doubles (roomy base capacity) in (e, s₁, w₁))
      by_parsing base capacity =
          let (m, q) = parse_some s in
          elim (Bool-cases (is_ok parse.0)) [
            | inr bad ↦ rw (bad, store_udp_msg) (refused w₁ parse.0 base capacity refl bad)
            | inl good ↦
                rw (good, q, store_udp_msg, is_ok_lem parse.0 good)
                  (stored w₁ m base capacity (ap₂ (λ e o. (e, o)) (is_ok_lem parse.0 good) q))
          ]

  -- A pointer that led to a message before `add_server_udp_msg` leads to the same message after it if the
  -- array is where it was, and nowhere if `realloc` has moved the array.
  pub add_server_udp_msg-Follows :
      (s : Server doubles) (w : World) → Follows doubles s (add_server_udp_msg doubles os s w).1
  add_server_udp_msg-Follows s w =
      by_end (add_server_udp_msg doubles os s w) (add_server_udp_msg-Stores s w)
    where
      by_end : (r : Err × Server doubles × World) → Stores doubles os s r → Follows doubles s r.1
      by_end r (no_memory w) = follows doubles s s (λ i m e. e)
      by_end r (refused w e base capacity q bad) = follows doubles s _ (λ i m k. k)
      by_end r (stored w m base capacity q) =
          follows doubles s _ (λ i m' k. get_elem?-append doubles s.udp_msgs (m ∷ []) i k)
