-- ===== src/Os/Post.antt =====
-- A machine on which each socket sends on a stream of its own.
use tcp_client_server.Prelude.{
  ℕ, ◌≡◌, refl, sym, ap, true, false, List, [], ◌∷◌, ◌++◌, some, arith, length, take, take_all,
  if◌then◌else◌,
}
use tcp_client_server.Prelude.Int.{ℤ, pos, eq_ℤ, eq_ℤ_iff}
use tcp_client_server.Os.{Os}
use tcp_client_server.Os.Laws.{Streams, Separate}

-- What was sent on which socket, with the last first.
pub record Post : Type 0 where
  pub sent : List (ℤ × List ℕ)

unfoldable pub sent_on : ℤ → List (ℤ × List ℕ) → List ℕ
sent_on g [] = []
sent_on g ((fd, bytes) ∷ rest) =
    let before = sent_on g rest in if eq_ℤ fd g then before ++ bytes else before

-- `send` takes all bytes, and nothing arrives.
abbrev pub post_os : Os
post_os = record {
  World = Post;
  malloc = λ n w. (some 1, w);
  realloc = λ n w. (some 1, w);
  close = λ fd w. w;
  send = λ fd bytes w. (pos (length bytes), record w { sent = (fd, bytes) ∷ w.sent });
  recv = λ fd n w. (pos 0, [], w);
  fprintf_stderr = λ text w. w;
}

pub sent_on-send :
    (fd : ℤ) (bytes : List ℕ) (w : Post)
    → sent_on fd ((fd, bytes) ∷ w.sent) ≡ sent_on fd w.sent ++ take (length bytes) bytes
unfolding sent_on
sent_on-send fd bytes w =
    let same : eq_ℤ fd fd ≡ true = (eq_ℤ_iff fd fd).1 refl in
    rw same (ap (◌++◌ (sent_on fd w.sent)) (sym (take_all bytes (length bytes) (omega arith))))

unfoldable pub post_streams : Streams post_os
post_streams = record {
  sent = λ g w. sent_on g w.sent;
  incoming = λ fd w. [];
  send-le = λ fd bytes w. omega arith;
  sent-send = sent_on-send;
  length-recv = λ fd n w. refl;
  recv-le = λ fd n w. omega arith;
  incoming-recv = λ fd n w. refl;
}

sent_on-send_other :
    (g fd : ℤ) (bytes : List ℕ) (w : Post)
    → eq_ℤ fd g ≡ false
    → sent_on g ((fd, bytes) ∷ w.sent) ≡ sent_on g w.sent
unfolding sent_on
sent_on-send_other g fd bytes w q = rw q refl

pub post_separate : Separate post_os post_streams
unfolding post_streams
post_separate = record {
  sent-send_other = sent_on-send_other;
  sent-realloc = λ g n w. refl;
  sent-fprintf = λ g text w. refl;
}
