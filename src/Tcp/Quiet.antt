-- ===== src/Tcp/Quiet.antt =====
-- Sending and receiving keep what their calls of the system keep.
use mathlib.Core.Logic.{dif_pos, dif_neg}
use mathlib.Core.WellFounded.{Acc}
use native.Mathlib.Bridge.{le_prop}
use tcp_client_server.Prelude.{
  ℕ, ◌-◌, ◌<◌, inl, inr, List, [], ◌++◌, Option, none, some, ◌==◌, dec_lt, take, drop, Bool-cases,
}
use tcp_client_server.Prelude.Int.{ℤ, pos_part, is_neg}
use tcp_client_server.Prelude.Order.{lt_wf}
use tcp_client_server.Os.{Os}
use tcp_client_server.Os.Quiet.{Quiet}
use tcp_client_server.Tcp.{send_loop, send_tcp_msg, recv_loop, recv_tcp_msg}

-- Sending on one socket.
module _ (os : Os) (P : os.World → Type 0) (fd : ℤ)
    (keeps : (bytes : List ℕ) (w : os.World) → P w → P (os.send fd bytes w).1) where
  open os use {World}

  send_loop_keeps :
      (left : ℕ) (rest : List ℕ) (w : World) (acc : Acc ◌<◌ left)
      → P w
      → P (send_loop os fd left rest w acc).1
  unfolding send_loop
  send_loop_keeps left rest w (Acc.intro _ smaller) h = elim (dec_lt 0 left) [
    | yes p ↦ rw (dif_pos _ le_prop p) (elim (dec_lt 0 k) [
      | yes q ↦
          rw (dif_pos _ le_prop q)
            (send_loop_keeps (left - k) (drop k rest) w₁ (smaller (left - k) _) h₁)
      | no nq ↦ rw (dif_neg _ nq) h₁
    ])
    | no np ↦ rw (dif_neg _ np) h
  ]
    where
      k : ℕ
      k = pos_part (os.send fd (take left rest) w).0

      w₁ : World
      w₁ = (os.send fd (take left rest) w).1

      h₁ : P w₁
      h₁ = keeps (take left rest) w h

  pub send_tcp_msg_keeps :
      (buf : Option (List ℕ)) (n : ℕ) (w : World) → P w → P (send_tcp_msg os fd buf n w).1
  unfolding send_tcp_msg
  send_tcp_msg_keeps none n w h = elim (Bool-cases (is_neg fd)) [
    | inl e ↦ rw (e, send_tcp_msg) h
    | inr e ↦ rw (e, send_tcp_msg) h
  ]
  send_tcp_msg_keeps (some buf) n w h = elim (Bool-cases (is_neg fd)) [
    | inl e ↦ rw (e, send_tcp_msg) h
    | inr e ↦ elim (Bool-cases (n == 0)) [
      | inl z ↦ rw (e, z, send_tcp_msg) h
      | inr z ↦ rw (e, z, send_tcp_msg) (send_loop_keeps n buf w (lt_wf.apply n) h)
    ]
  ]

module _ (os : Os) (P : os.World → Type 0) (quiet : Quiet os P) where
  open os use {World}

  pub send_tcp_msg-Quiet :
      (fd : ℤ) (buf : Option (List ℕ)) (n : ℕ) (w : World) → P w → P (send_tcp_msg os fd buf n w).1
  send_tcp_msg-Quiet fd = send_tcp_msg_keeps os P fd (quiet.after_send fd)

  recv_loop-Quiet :
      (fd : ℤ) (left : ℕ) (got : List ℕ) (w : World) (acc : Acc ◌<◌ left)
      → P w
      → P (recv_loop os fd left got w acc).2
  unfolding recv_loop
  recv_loop-Quiet fd left got w (Acc.intro _ smaller) h = elim (dec_lt 0 left) [
    | yes p ↦ rw (dif_pos _ le_prop p) (elim (dec_lt 0 k) [
      | yes q ↦ rw (dif_pos _ le_prop q) (
          recv_loop-Quiet fd (left - k) (got ++ (os.recv fd left w).1) w₁ (smaller (left - k) _) h₁)
      | no nq ↦ rw (dif_neg _ nq) h₁
    ])
    | no np ↦ rw (dif_neg _ np) h
  ]
    where
      k : ℕ
      k = pos_part (os.recv fd left w).0

      w₁ : World
      w₁ = (os.recv fd left w).2

      h₁ : P w₁
      h₁ = quiet.after_recv fd left w h

  pub recv_tcp_msg-Quiet :
      (fd : ℤ) (buf : Option (List ℕ)) (n : ℕ) (w : World) → P w → P (recv_tcp_msg os fd buf n w).2
  unfolding recv_tcp_msg
  recv_tcp_msg-Quiet fd none n w h = elim (Bool-cases (is_neg fd)) [
    | inl e ↦ rw (e, recv_tcp_msg) h
    | inr e ↦ rw (e, recv_tcp_msg) h
  ]
  recv_tcp_msg-Quiet fd (some buf) n w h = elim (Bool-cases (is_neg fd)) [
    | inl e ↦ rw (e, recv_tcp_msg) h
    | inr e ↦ elim (Bool-cases (n == 0)) [
      | inl z ↦ rw (e, z, recv_tcp_msg) h
      | inr z ↦ rw (e, z, recv_tcp_msg) (recv_loop-Quiet fd n [] w (lt_wf.apply n) h)
    ]
  ]
