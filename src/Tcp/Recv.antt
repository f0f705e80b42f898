-- ===== src/Tcp/Recv.antt =====
-- `recv_tcp_msg` takes one message off the stream, however the kernel cuts it up.
use mathlib.Core.Logic.{dif_pos, dif_neg}
use mathlib.Core.WellFounded.{Acc}
use native.Mathlib.Bridge.{le_prop}
use tcp_client_server.Prelude.{
  ℕ, zero, suc, ◌-◌, ◌≤◌, ◌<◌, ◌≡◌, ◌⊎◌, refl, sym, ◌∙◌, ap, inl, inr, false, List, [], ◌∷◌, ◌++◌,
  Option, some, arith, ◌==◌, dec_lt, length, take, drop, append-nil, append_assoc, length-append,
}
use tcp_client_server.Prelude.Int.{ℤ, pos_part, is_neg}
use tcp_client_server.Prelude.Order.{lt_wf}
use tcp_client_server.Errors.{Err, ok, tcp_failed_send_recv}
use tcp_client_server.Os.{Os}
use tcp_client_server.Os.Laws.{Streams}
use tcp_client_server.Tcp.{
  TcpMsg, max_tcp_msg_buf_len, sizeof_tcp_msg, memory_of, recv_loop, recv_tcp_msg,
}

module _ {ℓ} {A : Type ℓ} where
  drop_all : (n : ℕ) (xs : List A) → length xs ≤ n → drop n xs ≡ []
  drop_all zero [] h = refl
  drop_all (suc n) [] h = refl
  drop_all zero (x ∷ xs) h = absurd (omega arith)
  drop_all (suc n) (x ∷ xs) h = drop_all n xs (omega arith)

  take-append_front : (xs ys : List A) (n : ℕ) → length xs ≡ n → take n (xs ++ ys) ≡ xs
  take-append_front [] ys zero e = refl
  take-append_front [] ys (suc n) e = absurd (omega arith)
  take-append_front (x ∷ xs) ys zero e = absurd (omega arith)
  take-append_front (x ∷ xs) ys (suc n) e = ap (◌∷◌ x) (take-append_front xs ys n (omega arith))

  drop-append_front : (xs ys : List A) (n : ℕ) → length xs ≡ n → drop n (xs ++ ys) ≡ ys
  drop-append_front [] ys zero e = refl
  drop-append_front [] ys (suc n) e = absurd (omega arith)
  drop-append_front (x ∷ xs) ys zero e = absurd (omega arith)
  drop-append_front (x ∷ xs) ys (suc n) e = drop-append_front xs ys n (omega arith)

module _ (os : Os) (streams : Streams os) where
  open os use {World}
  open streams use {incoming, incoming-recv, length-recv, recv-le}

  -- What the loop may do from `left` bytes missing: store that many and answer OK, or fewer and fail.
  abbrev Stores : ℤ → ℕ → List ℕ → World → Err × List ℕ × World → Type 0
  Stores fd left got w (e, got', w') =
      (bytes : List ℕ) × (((e ≡ ok) × (length bytes ≡ left))
        ⊎ ((e ≡ tcp_failed_send_recv) × (length bytes < left)))
      × (got' ≡ got ++ bytes)
      × (incoming fd w ≡ bytes ++ incoming fd w')

  after-Stores :
      (fd : ℤ) (left k : ℕ) (got some_bytes : List ℕ) (w w₁ : World) (r : Err × List ℕ × World)
      → length some_bytes ≡ k
      → k ≤ left
      → incoming fd w ≡ some_bytes ++ incoming fd w₁
      → Stores fd (left - k) (got ++ some_bytes) w₁ r
      → Stores fd left got w r
  after-Stores fd left k got some_bytes w w₁ (e, got', w') len l came (bytes, done, stored, more) =
      (
        some_bytes ++ bytes,
        grind (arith, length-append some_bytes bytes),
        stored ∙ append_assoc got some_bytes bytes,
        came ∙ ap (◌++◌ some_bytes) more ∙ sym (append_assoc some_bytes bytes (incoming fd w')),
      )

  recv_loop-Stores :
      (fd : ℤ) (left : ℕ) (got : List ℕ) (w : World) (acc : Acc ◌<◌ left)
      → Stores fd left got w (recv_loop os fd left got w acc)
  unfolding recv_loop
  recv_loop-Stores fd left got w (Acc.intro _ smaller) = elim (dec_lt 0 left) [
    | yes p ↦ rw (dif_pos _ le_prop p) (elim (dec_lt 0 k) [
      | yes q ↦ rw (dif_pos _ le_prop q) (
          after-Stores fd left k got bytes w w₁ _ (length-recv fd left w) (recv-le fd left w)
            (incoming-recv fd left w)
            (recv_loop-Stores fd (left - k) (got ++ bytes) w₁ (smaller (left - k) _)))
      | no nq ↦ rw (dif_neg _ nq) (
        [],
        inr (refl, p),
        sym (append-nil got),
        incoming-recv fd left w ∙ ap (λ t. t ++ incoming fd w₁) (nothing (omega arith)),
      )
    ])
    | no np ↦ rw (dif_neg _ np) ([], inl (refl, omega arith), sym (append-nil got), refl)
  ]
    where
      k : ℕ
      k = pos_part (os.recv fd left w).0

      bytes : List ℕ
      bytes = (os.recv fd left w).1

      w₁ : World
      w₁ = (os.recv fd left w).2

      nothing : k ≡ 0 → bytes ≡ []
      nothing z = empty_of_length bytes (length-recv fd left w ∙ z)
        where
          empty_of_length : (xs : List ℕ) → length xs ≡ 0 → xs ≡ []
          empty_of_length [] h = refl
          empty_of_length (x ∷ xs) h = absurd (omega arith)

  -- What receiving `n` bytes into a buffer may do. The bytes that were stored over the start of the
  -- buffer are those that were taken off the front of the stream; there are `n` of them and the result
  -- is OK, or there are fewer and the result is TCP_FAILED_SEND_RECV.
  abbrev pub Receives : ℤ → List ℕ → ℕ → World → Err × Option (List ℕ) × World → Type 0
  Receives fd buf n w (e, buf', w') =
      (bytes : List ℕ) × (((e ≡ ok) × (length bytes ≡ n))
        ⊎ ((e ≡ tcp_failed_send_recv) × (length bytes < n)))
      × (buf' ≡ some (bytes ++ drop (length bytes) buf))
      × (incoming fd w ≡ bytes ++ incoming fd w')

  -- On a socket that is not negative and for at least one byte, `recv_tcp_msg` ends, whatever pieces the
  -- kernel gives: either it returns OK and exactly the bytes asked for have gone from the front of the
  -- stream to the start of the buffer, or it returns TCP_FAILED_SEND_RECV and fewer have. The rest of
  -- the buffer is left as it was.
  pub recv_tcp_msg-Receives :
      (fd : ℤ) (buf : List ℕ) (n : ℕ) (w : World)
      → is_neg fd ≡ false
      → 0 < n
      → Receives fd buf n w (recv_tcp_msg os fd (some buf) n w)
  unfolding recv_tcp_msg
  recv_tcp_msg-Receives fd buf n w valid_fd some_bytes =
      let not_zero : (n == 0) ≡ false = ground arith in
      let (bytes, done, stored, came) = recv_loop-Stores fd n [] w (lt_wf.apply n) in
      rw (valid_fd, not_zero) (bytes, done, ap (λ t. some (t ++ drop (length t) buf)) stored, came)

  -- Messages keep their bounds: if the stream of a socket starts with a whole message, and receiving one
  -- message into a buffer of its size returns OK, then the buffer holds just that message and the stream
  -- goes on behind it.
  pub recv_tcp_msg_framed :
      (fd : ℤ) (buf buf' : List ℕ) (m : TcpMsg) (behind : List ℕ) (w w' : World)
      → is_neg fd ≡ false
      → length buf ≡ sizeof_tcp_msg
      → length m.bytes ≡ max_tcp_msg_buf_len
      → incoming fd w ≡ memory_of m ++ behind
      → recv_tcp_msg os fd (some buf) sizeof_tcp_msg w ≡ (ok, some buf', w')
      → (buf' ≡ memory_of m) × (incoming fd w' ≡ behind)
  recv_tcp_msg_framed fd buf buf' m behind w w' valid_fd size whole starts received =
      let outcome : Receives fd buf sizeof_tcp_msg w (ok, some buf', w') =
        rw received at (recv_tcp_msg-Receives fd buf sizeof_tcp_msg w valid_fd (omega arith)) in
      let (bytes, done, stored, came) = outcome in
      elim done [ inl (_, len) ↦ same_split bytes len stored came | inr (failed, _) ↦ cc failed ]
    where
      length-memory_of : length (memory_of m) ≡ sizeof_tcp_msg
      length-memory_of = unfold memory_of in omega arith

      same_split :
          (bytes : List ℕ)
          → length bytes ≡ sizeof_tcp_msg
          → some buf' ≡ some (bytes ++ drop (length bytes) buf)
          → incoming fd w ≡ bytes ++ incoming fd w'
          → (buf' ≡ memory_of m) × (incoming fd w' ≡ behind)
      same_split bytes len stored came =
          let split : bytes ++ incoming fd w' ≡ memory_of m ++ behind = sym came ∙ starts in
          let message : bytes ≡ memory_of m =
            sym (take-append_front bytes (incoming fd w') sizeof_tcp_msg len)
            ∙ ap (take sizeof_tcp_msg) split
            ∙ take-append_front (memory_of m) behind sizeof_tcp_msg length-memory_of in
          let rest : drop (length bytes) buf ≡ [] = drop_all (length bytes) buf (omega arith) in
          (
            cc (stored, message, ap (λ t. bytes ++ t) rest, append-nil bytes),
            sym (drop-append_front bytes (incoming fd w') sizeof_tcp_msg len)
                ∙ ap (drop sizeof_tcp_msg) split
                ∙ drop-append_front (memory_of m) behind sizeof_tcp_msg length-memory_of,
          )
