-- ===== src/Server/Hearing.antt =====
-- server_utils.c: what a socket gets of a message that is sent to a client.
use tcp_client_server.Prelude.{
  ℕ, ◌<◌, ◌≡◌, refl, sym, ◌∙◌, inl, inr, Bool, true, false, ◌||◌, ◌&&◌, List, [], ◌∷◌, none, some,
  Option, arith, Bool-cases, length, Text,
}
use tcp_client_server.Prelude.Int.{ℤ, is_neg, eq_ℤ, eq_ℤ_iff}
use tcp_client_server.Errors.{Err}
use Prim.Native.String.{String}
use tcp_client_server.Os.{Os}
use tcp_client_server.Os.Laws.{Streams, Separate}
use tcp_client_server.ClientVec.{Client, SfOption, is_active}
use tcp_client_server.ClientVec.Invariant.{sockets}
use tcp_client_server.ClientVec.Invariant.Sockets.{has_socket}
use tcp_client_server.ClientVec.Subscriptions.{subscription}
use tcp_client_server.Tcp.{TcpMsg, memory_of, sizeof_tcp_msg, max_tcp_msg_buf_len, send_tcp_msg}
use tcp_client_server.Tcp.Send.{Sends, send_tcp_msg-Sends}
use tcp_client_server.Tcp.Quiet.{send_tcp_msg_keeps}
use tcp_client_server.Server.Handlers.{is_ok, send_or_debug}

abbrev pub subscribed : Option SfOption → Bool
subscribed none = false
subscribed (some o) = true

-- Whether the socket is that of an active client with the topic.
unfoldable pub listens : ℤ → Text → List Client → Bool
listens g t [] = false
listens g t (c ∷ cs) =
    (is_active c.status && (eq_ℤ c.fd g && subscribed (subscription c t))) || listens g t cs

pub listens-has_socket :
    (g : ℤ) (t : Text) (cs : List Client)
    → has_socket g (sockets cs) ≡ false
    → listens g t cs ≡ false
unfolding listens has_socket
listens-has_socket g t [] h = refl
listens-has_socket g t (c ∷ cs) h = ground (arith, listens-has_socket g t cs)

module _ (os : Os) (streams : Streams os) (separate : Separate os streams) (m : TcpMsg)
    (g : ℤ) where
  open os use {World}
  open streams use {sent}

  -- What a socket gets of the message: nothing, or the whole of it or a proper prefix, once.
  pub data Hears (w w' : World) : Bool → Type 0 where
    silent : sent g w' ≡ sent g w → Hears w w' false
    heard : (e : Err) → Sends os streams g (memory_of m) w (e, w') → Hears w w' true

  unchanged : {w w' : World} → Hears w w' false → sent g w' ≡ sent g w
  unchanged (Hears.silent e) = e

  then_silent : (w w₁ w₂ : World) (b : Bool) → Hears w w₁ b → sent g w₂ ≡ sent g w₁ → Hears w w₂ b
  then_silent w w₁ w₂ _ (Hears.silent e) q = Hears.silent (q ∙ e)
  then_silent w w₁ w₂ _ (Hears.heard e (inl (o, s))) q = Hears.heard e (inl (o, q ∙ s))
  then_silent w w₁ w₂ _ (Hears.heard e (inr (k, o, l, s))) q = Hears.heard e (inr (k, o, l, q ∙ s))

  after_silent : (w w₁ w₂ : World) (b : Bool) → sent g w₁ ≡ sent g w → Hears w₁ w₂ b → Hears w w₂ b
  after_silent w w₁ w₂ _ q (Hears.silent e) = Hears.silent (e ∙ q)
  after_silent w w₁ w₂ _ q (Hears.heard e (inl (o, s))) = Hears.heard e (inl (o, rw q at s))
  after_silent w w₁ w₂ _ q (Hears.heard e (inr (k, o, l, s))) =
      Hears.heard e (inr (k, o, l, rw q at s))

  whole_message :
      (n : ℕ) (w : World)
      → is_neg g ≡ false
      → length (memory_of m) ≡ n
      → 0 < n
      → Sends os streams g (memory_of m) w (send_tcp_msg os g (some (memory_of m)) n w)
  whole_message n w open_fd e some_bytes =
      rw (sym e) (send_tcp_msg-Sends os streams g (memory_of m) w open_fd (omega arith))

  send_tcp_msg-Hears :
      (fd : ℤ) (w : World)
      → is_neg fd ≡ false
      → length m.bytes ≡ max_tcp_msg_buf_len
      → Hears w (send_tcp_msg os fd (some (memory_of m)) sizeof_tcp_msg w).1 (eq_ℤ fd g)
  send_tcp_msg-Hears fd w n l = elim (Bool-cases (eq_ℤ fd g)) [
    | inl q ↦
        let same : fd ≡ g = (eq_ℤ_iff fd g).0 q in
        rw (q, same)
          (Hears.heard _ (whole_message sizeof_tcp_msg w (rw same at n) size (omega arith)))
    | inr q ↦ rw q (
        Hears.silent (
          send_tcp_msg_keeps os (λ u. sent g u ≡ sent g w) fd
            (λ bytes u h. separate.sent-send_other g fd bytes u q ∙ h) (some (memory_of m))
            sizeof_tcp_msg w refl))
  ]
    where
      size : length (memory_of m) ≡ sizeof_tcp_msg
      size = unfold memory_of in omega arith

  pub send_or_debug-Hears :
      (fd : ℤ) (w : World)
      → is_neg fd ≡ false
      → length m.bytes ≡ max_tcp_msg_buf_len
      → Hears w (send_or_debug os fd m w).1 (eq_ℤ fd g)
  unfolding send_or_debug
  send_or_debug-Hears fd w n l =
      let base = send_tcp_msg-Hears fd w n l in
      elim (Bool-cases (is_ok (send_tcp_msg os fd (some (memory_of m)) sizeof_tcp_msg w).0)) [
        | inl k ↦ rw (k, send_or_debug) base
        | inr k ↦
            rw (k, send_or_debug) (then_silent w _ _ (eq_ℤ fd g) base (separate.sent-fprintf g _ _))
      ]

  pub send_or_debug-Sends :
      (w : World)
      → is_neg g ≡ false
      → length m.bytes ≡ max_tcp_msg_buf_len
      → Sends os streams g (memory_of m) w (send_or_debug os g m w)
  unfolding send_or_debug
  send_or_debug-Sends w open_fd l =
      let base = whole_message sizeof_tcp_msg w open_fd (size l) (omega arith) in
      elim (Bool-cases (is_ok (send_tcp_msg os g (some (memory_of m)) sizeof_tcp_msg w).0)) [
        | inl k ↦ rw (k, send_or_debug) base
        | inr k ↦ rw (k, send_or_debug) (printed _ _ _ base)
      ]
    where
      size : length m.bytes ≡ max_tcp_msg_buf_len → length (memory_of m) ≡ sizeof_tcp_msg
      size l = unfold memory_of in omega arith

      printed :
          (text : String) (e : Err) (w₁ : World)
          → Sends os streams g (memory_of m) w (e, w₁)
          → Sends os streams g (memory_of m) w (e, os.fprintf_stderr text w₁)
      printed text e w₁ (inl (q, s)) = inl (q, separate.sent-fprintf g text w₁ ∙ s)
      printed text e w₁ (inr (k, q, l, s)) = inr (k, q, l, separate.sent-fprintf g text w₁ ∙ s)

  pub both :
      (w w₁ w₂ : World) (a b : Bool)
      → Hears w w₁ a
      → Hears w₁ w₂ b
      → (a && b) ≡ false
      → Hears w w₂ (a || b)
  both w w₁ w₂ false b h k e = after_silent w w₁ w₂ b (unchanged h) k
  both w w₁ w₂ true false h k e = then_silent w w₁ w₂ true h (unchanged k)
  both w w₁ w₂ true true h k e = absurd (cc e)
