-- ===== src/Os/Script.antt =====
-- A machine that answers the calls of `Os` from a script, for running the code on concrete inputs.
use Prim.Native.String.{String}
use tcp_client_server.Prelude.{
  ℕ, ◌+◌, ◌≤◌, ◌<◌, ◌≡◌, refl, Bool, true, false, List, [], ◌∷◌, ◌++◌, Option, none, some, arith,
  ltb, if◌then◌else◌, min, length, take, drop, length-take, take-append-drop, sym,
}
use tcp_client_server.Prelude.Int.{ℤ, pos}
use tcp_client_server.Os.{Os}
use tcp_client_server.Os.Laws.{ptrdiff_max, ReallocLimit, Streams}

-- `refusals` answers the allocations in turn (`true` refuses); behind its end all are granted. A call of
-- `send` or `recv` moves `chunk` bytes at most, to and from one stream each.
pub record Machine : Type 0 where
  pub refusals : List Bool
  pub next_address : ℕ
  pub chunk : ℕ
  pub outgoing : List ℕ
  pub arriving : List ℕ
  pub closed : List ℤ
  pub log : List String

grant : List Bool → Machine → Option ℕ × Machine
grant [] m = (some m.next_address, record m { next_address = m.next_address + 1 })
grant (true ∷ rest) m = (none, record m { refusals = rest })
grant (false ∷ rest) m =
    (some m.next_address, record m { refusals = rest; next_address = m.next_address + 1 })

unfoldable pub allocate : ℕ → Machine → Option ℕ × Machine
unfolding grant
allocate size m = if ltb ptrdiff_max size then (none, m) else grant m.refusals m

abbrev pub moved : Machine → ℕ → ℕ
moved m n = min m.chunk n

abbrev pub received : Machine → ℕ → List ℕ
received m n = take (min m.chunk n) m.arriving

abbrev pub script_os : Os
script_os = record {
  World = Machine;
  malloc = allocate;
  realloc = allocate;
  close = λ fd m. record m { closed = fd ∷ m.closed };
  send = λ fd bytes m. (
    pos (moved m (length bytes)),
    record m { outgoing = m.outgoing ++ take (moved m (length bytes)) bytes },
  );
  recv = λ fd n m. (
    pos (length (received m n)),
    received m n,
    record m { arriving = drop (min m.chunk n) m.arriving },
  );
  fprintf_stderr = λ text m. record m { log = text ∷ m.log };
}

abbrev pub idle_machine : Machine
idle_machine = record {
  refusals = [];
  next_address = 4096;
  chunk = 3;
  outgoing = [];
  arriving = [];
  closed = [];
  log = [];
}

pub script_limit : ReallocLimit script_os
script_limit = record { refuses = refused }
  where
    refused : (size : ℕ) (m : Machine) → ptrdiff_max < size → (allocate size m).0 ≡ none
    refused size m h = unfold allocate in ground arith

pub moved-le : (m : Machine) (bytes : List ℕ) → moved m (length bytes) ≤ length bytes
moved-le m bytes = omega arith

pub received-le : (m : Machine) (n : ℕ) → length (received m n) ≤ n
received-le m n = omega (arith, length-take (min m.chunk n) m.arriving)

unfoldable pub script_streams : Streams script_os
script_streams = record {
  sent = λ fd m. m.outgoing;
  incoming = λ fd m. m.arriving;
  send-le = λ fd bytes m. moved-le m bytes;
  sent-send = λ fd bytes m. refl;
  length-recv = λ fd n m. refl;
  recv-le = λ fd n m. received-le m n;
  incoming-recv = λ fd n m. sym (take-append-drop (min m.chunk n) m.arriving);
}
