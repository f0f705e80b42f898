-- ===== src/Os.antt =====
-- The calls of the C library and the kernel that the program makes, as one record that every
-- component takes. The state of all they act on is a `World`, which the code only hands on.
pub mod Laws
pub mod Quiet
pub mod Script
pub mod Post
pub mod Desk
use Prim.Native.String.{String}
use tcp_client_server.Prelude.{ℕ, ◌*◌, ◌%◌, ◌^◌, List, Option}
use tcp_client_server.Prelude.Int.{ℤ}

pub record Os : Type 1 where
  pub World : Type 0
  -- `malloc` and `realloc` of so many bytes: the address, or `none` for NULL.
  pub malloc : ℕ → World → Option ℕ × World
  pub realloc : ℕ → World → Option ℕ × World
  pub close : ℤ → World → World
  -- `send(fd, buf, len, 0)`, where the list is the memory from `buf` to `buf + len`.
  pub send : ℤ → List ℕ → World → ℤ × World
  -- `recv(fd, buf, len, 0)`, with the bytes that it stores from `buf` on.
  pub recv : ℤ → ℕ → World → ℤ × List ℕ × World
  -- `fprintf(stderr, …)`
  pub fprintf_stderr : String → World → World

-- `size_t` multiplication
abbrev pub mul_size : ℕ → ℕ → ℕ
mul_size a b = a * b % 2 ^ 64

abbrev pub realloc_factor : ℕ
realloc_factor = 2
