-- ===== src/Os/Laws.antt =====
-- What the program relies on of the calls in `Os`: documented behaviour, as named hypotheses.
use Prim.Native.String.{String}
use tcp_client_server.Prelude.{
  false, some, arith, inl, inr, leb, Bool-cases, ℕ, ◌-◌, ◌^◌, ◌≤◌, ◌<◌, ◌≡◌, List, ◌++◌, none,
  length, take,
}
use tcp_client_server.Prelude.Int.{ℤ, pos_part, eq_ℤ}
use tcp_client_server.Os.{Os}

abbrev pub ptrdiff_max : ℕ
ptrdiff_max = 2 ^ 63 - 1

-- realloc(3): a request for more than PTRDIFF_MAX bytes is an error, and gives NULL.
pub record ReallocLimit (os : Os) : Type 0 where
  pub refuses : (size : ℕ) (w : os.World) → ptrdiff_max < size → (os.realloc size w).0 ≡ none

-- send(2) and recv(2) on a stream socket, with what each direction carries as a stream of bytes:
-- a positive result counts the bytes that were taken from the front of the buffer, or from the
-- front of the stream, and is no more than was asked for.
pub record Streams (os : Os) : Type 0 where
  -- All that was accepted for sending on a socket, and all that is still to be received from one.
  pub sent : ℤ → os.World → List ℕ
  pub incoming : ℤ → os.World → List ℕ
  pub send-le :
      (fd : ℤ) (bytes : List ℕ) (w : os.World) → pos_part (os.send fd bytes w).0 ≤ length bytes
  pub sent-send :
      (fd : ℤ) (bytes : List ℕ) (w : os.World)
      → sent fd (os.send fd bytes w).1 ≡ sent fd w ++ take (pos_part (os.send fd bytes w).0) bytes
  pub length-recv :
      (fd : ℤ) (n : ℕ) (w : os.World) → length (os.recv fd n w).1 ≡ pos_part (os.recv fd n w).0
  pub recv-le : (fd : ℤ) (n : ℕ) (w : os.World) → pos_part (os.recv fd n w).0 ≤ n
  pub incoming-recv :
      (fd : ℤ) (n : ℕ) (w : os.World)
      → incoming fd w ≡ (os.recv fd n w).1 ++ incoming fd (os.recv fd n w).2

-- Each socket has a stream of its own: what is sent on another one, memory and printing do not touch it.
pub record Separate (os : Os) (streams : Streams os) : Type 0 where
  pub sent-send_other :
      (g fd : ℤ) (bytes : List ℕ) (w : os.World)
      → eq_ℤ fd g ≡ false
      → streams.sent g (os.send fd bytes w).1 ≡ streams.sent g w
  pub sent-realloc :
      (g : ℤ) (size : ℕ) (w : os.World) → streams.sent g (os.realloc size w).1 ≡ streams.sent g w
  pub sent-fprintf :
      (g : ℤ) (text : String) (w : os.World)
      → streams.sent g (os.fprintf_stderr text w) ≡ streams.sent g w

module _ (os : Os) (limit : ReallocLimit os) where
  -- A request that is granted is not too large.
  pub size_in_limit :
      (size : ℕ) (w : os.World) {a : ℕ} → (os.realloc size w).0 ≡ some a → size ≤ ptrdiff_max
  size_in_limit size w {a} e = elim (Bool-cases (leb size ptrdiff_max)) [
    | inl l ↦ ground arith
    | inr g ↦ ground (arith, limit.refuses size w)
  ]
