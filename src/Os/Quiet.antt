-- ===== src/Os/Quiet.antt =====
-- Predicates on the state of the system that every call but `close` keeps.
use tcp_client_server.Prelude.{ℕ, List}
use tcp_client_server.Prelude.Int.{ℤ}
use Prim.Native.String.{String}
use tcp_client_server.Os.{Os}

pub record Quiet (os : Os) (P : os.World → Type 0) : Type 0 where
  pub after_malloc : (size : ℕ) (w : os.World) → P w → P (os.malloc size w).1
  pub after_realloc : (size : ℕ) (w : os.World) → P w → P (os.realloc size w).1
  pub after_send : (fd : ℤ) (bytes : List ℕ) (w : os.World) → P w → P (os.send fd bytes w).1
  pub after_recv : (fd : ℤ) (n : ℕ) (w : os.World) → P w → P (os.recv fd n w).2
  pub after_fprintf : (text : String) (w : os.World) → P w → P (os.fprintf_stderr text w)
