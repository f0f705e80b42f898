-- ===== src/Tcp/Send.antt =====
-- `send_tcp_msg` puts the whole message on the stream, however the kernel cuts it up.
use mathlib.Core.Logic.{dif_pos, dif_neg}
use mathlib.Core.WellFounded.{Acc}
use native.Mathlib.Bridge.{le_prop}
use tcp_client_server.Prelude.{
  ℕ, zero, suc, ◌+◌, ◌-◌, ◌≤◌, ◌<◌, ◌≡◌, ◌⊎◌, refl, ◌∙◌, ap, inl, inr, false, List, [], ◌∷◌, ◌++◌,
  some, arith, ◌==◌, dec_lt, length, take_all, take, drop, take-append-drop, length-drop,
  length-take, append-nil, append_assoc,
}
use tcp_client_server.Prelude.Int.{ℤ, pos_part, is_neg}
use tcp_client_server.Prelude.Order.{lt_wf}
use tcp_client_server.Errors.{Err, ok, tcp_failed_send_recv}
use tcp_client_server.Os.{Os}
use tcp_client_server.Os.Laws.{Streams}
use tcp_client_server.Tcp.{send_loop, send_tcp_msg}

module _ {ℓ} {A : Type ℓ} where
  empty_of_length : (xs : List A) → length xs ≡ 0 → xs ≡ []
  empty_of_length [] h = refl
  empty_of_length (x ∷ xs) h = absurd (omega arith)

  take-add : (k j : ℕ) (xs : List A) → take k xs ++ take j (drop k xs) ≡ take (k + j) xs
  take-add zero j xs = ap (λ t. take t xs) (omega arith)
  take-add (suc k) zero [] = let e : suc k + zero ≡ suc (k + zero) = omega arith in rw e
  take-add (suc k) (suc j) [] = let e : suc k + suc j ≡ suc (k + suc j) = omega arith in rw e
  take-add (suc k) j (x ∷ xs) =
      let e : suc k + j ≡ suc (k + j) = omega arith in rw e (ap (◌∷◌ x) (take-add k j xs))

module _ (os : Os) (streams : Streams os) where
  open os use {World}
  open streams use {sent, sent-send, send-le}

  -- What sending `bytes` may do: all of them go on the stream and the result is OK, or a proper prefix
  -- does and the result is TCP_FAILED_SEND_RECV.
  abbrev pub Sends : ℤ → List ℕ → World → Err × World → Type 0
  Sends fd bytes w (e, w') =
      ((e ≡ ok) × (sent fd w' ≡ sent fd w ++ bytes))
      ⊎ ((k : ℕ) × (e ≡ tcp_failed_send_recv)
          × (k < length bytes)
          × (sent fd w' ≡ sent fd w ++ take k bytes))

  -- After `k` bytes went out, sending the others makes up the whole.
  after-Sends :
      (fd : ℤ) (bytes : List ℕ) (w w₁ : World) (k : ℕ) (r : Err × World)
      → k ≤ length bytes
      → sent fd w₁ ≡ sent fd w ++ take k bytes
      → Sends fd (drop k bytes) w₁ r
      → Sends fd bytes w r
  after-Sends fd bytes w w₁ k (e, w') h s (inl (o, t)) = inl (
    o,
    t
        ∙ ap (λ x. x ++ drop k bytes) s
        ∙ append_assoc (sent fd w) (take k bytes) (drop k bytes)
        ∙ ap (◌++◌ (sent fd w)) (take-append-drop k bytes),
  )
  after-Sends fd bytes w w₁ k (e, w') h s (inr (j, o, l, t)) = inr (
    k + j,
    o,
    omega (arith, length-drop k bytes),
    t
        ∙ ap (λ x. x ++ take j (drop k bytes)) s
        ∙ append_assoc (sent fd w) (take k bytes) (take j (drop k bytes))
        ∙ ap (◌++◌ (sent fd w)) (take-add k j bytes),
  )

  send_loop-Sends :
      (fd : ℤ) (left : ℕ) (rest : List ℕ) (w : World) (acc : Acc ◌<◌ left)
      → length rest ≡ left
      → Sends fd rest w (send_loop os fd left rest w acc)
  unfolding send_loop
  send_loop-Sends fd left rest w (Acc.intro _ smaller) e = elim (dec_lt 0 left) [
    | yes p ↦ rw (dif_pos _ le_prop p) (elim (dec_lt 0 k) [
      | yes q ↦ rw (dif_pos _ le_prop q) (
          after-Sends fd rest w w₁ k _ k_le went (
            send_loop-Sends fd (left - k) (drop k rest) w₁ (smaller (left - k) _)
              (omega (arith, length-drop k rest))))
      | no nq ↦ rw (dif_neg _ nq) (inr (0, refl, omega arith, went ∙ nothing (omega arith)))
    ])
    | no np ↦ rw (dif_neg _ np) (inl (refl, all_out (omega arith)))
  ]
    where
      k : ℕ
      k = pos_part (os.send fd (take left rest) w).0

      w₁ : World
      w₁ = (os.send fd (take left rest) w).1

      k_le : k ≤ length rest
      k_le = omega (arith, send-le fd (take left rest) w, length-take left rest)

      went : sent fd w₁ ≡ sent fd w ++ take k rest
      went =
          sent-send fd (take left rest) w
          ∙ ap (λ t. sent fd w ++ take k t) (take_all rest left (omega arith))

      nothing : k ≡ 0 → sent fd w ++ take k rest ≡ sent fd w ++ take 0 rest
      nothing z = ap (λ t. sent fd w ++ take t rest) z

      all_out : left ≡ 0 → sent fd w ≡ sent fd w ++ rest
      all_out z = rw (empty_of_length rest (e ∙ z), append-nil)

  -- On a socket that is not negative, and with a buffer that holds exactly the bytes to send, at least
  -- one, `send_tcp_msg` ends, whatever pieces the kernel takes: either it returns OK and the stream of
  -- the socket has grown by just these bytes in order, or it returns TCP_FAILED_SEND_RECV and the stream
  -- has grown by a proper prefix of them.
  pub send_tcp_msg-Sends :
      (fd : ℤ) (buf : List ℕ) (w : World)
      → is_neg fd ≡ false
      → 0 < length buf
      → Sends fd buf w (send_tcp_msg os fd (some buf) (length buf) w)
  unfolding send_tcp_msg
  send_tcp_msg-Sends fd buf w valid_fd some_bytes =
      let not_zero : (length buf == 0) ≡ false = ground arith in
      rw (valid_fd, not_zero)
        (send_loop-Sends fd (length buf) buf w (lt_wf.apply (length buf)) refl)
