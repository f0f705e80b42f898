-- ===== src/Inet.antt =====
-- The calls of the socket interface, `poll` and `fgets` that the two programs make, as one record, and what
-- they are relied on for.
pub mod Polling
pub mod Desk
use tcp_client_server.Prelude.{
  ℕ, ◌+◌, ◌*◌, ◌%◌, ◌/◌, ◌≡◌, Bool, true, false, ◌||◌, ◌&&◌, not, List, [], ◌∷◌, Option, none, some,
  get_elem?, take, Text, ◌==◌, if◌then◌else◌,
}
use mathlib.Core.Option
use tcp_client_server.Prelude.Int.{ℤ, eq_ℤ, is_neg, pos}
use tcp_client_server.Os.{Os}
use tcp_client_server.PollVec.{PollFd, PollVec, contents, poll_vec_add_fd, free_poll_vec}
use tcp_client_server.Udp.{SockAddr}
use tcp_client_server.Server.Events.{Net}
use tcp_client_server.Server.Descriptors.{Descriptors}
use tcp_client_server.Server.Handlers.{is_ok}

pub record Inet (os : Os) : Type 1 where
  -- `socket(AF_INET, type, …)`
  pub socket : ℕ → os.World → ℤ × os.World
  -- `setsockopt` with `TCP_NODELAY`
  pub setsockopt : ℤ → os.World → ℤ × os.World
  pub bind : ℤ → SockAddr → os.World → ℤ × os.World
  pub listen : ℤ → ℕ → os.World → ℤ × os.World
  pub connect : ℤ → SockAddr → os.World → ℤ × os.World
  pub inet_addr : Text → ℕ
  -- The result, and the `revents` of the entries in order.
  pub poll : List PollFd → os.World → ℤ × List ℕ × os.World
  -- `fgets(buf, size, stdin)`, with the bytes that it stores from the start of the buffer.
  pub fgets : ℕ → os.World → Option (List ℕ) × os.World

-- `SOCK_STREAM`, `SOCK_DGRAM`, `AF_INET` and `POLLIN`
abbrev pub sock_stream : ℕ
sock_stream = 1

abbrev pub sock_dgram : ℕ
sock_dgram = 2

abbrev pub af_inet : ℕ
af_inet = 2

abbrev pub pollin : ℕ
pollin = 1

abbrev pub htons : ℕ → ℕ
htons p = p % 256 * 256 + p / 256 % 256

-- The entries with what `poll` reports of them.
unfoldable pub with_revents : List PollFd → List ℕ → List PollFd
with_revents [] events = []
with_revents (p ∷ ps) [] = p ∷ ps
with_revents (p ∷ ps) (e ∷ es) = record p { revents = e } ∷ with_revents ps es

-- `poll(vec->pfds, vec->nfds, -1)` writes to the entries in use.
unfoldable pub poll_fds : (os : Os) → Inet os → PollVec → os.World → ℤ × PollVec × os.World
poll_fds os inet v w =
    let (r, events, w₁) = inet.poll (contents v) w in
    (r, record v { pfds = Option.map (λ ps. with_revents ps (take v.nfds events)) v.pfds }, w₁)

-- `(vec->pfds[i].revents & POLLIN) != 0`
unfoldable pub is_pollin : PollVec → ℕ → Bool
is_pollin v i = elim (get_elem? (contents v) i) [ none ↦ false | some p ↦ p.revents % 2 == 1 ]

abbrev pub stdin_fileno : ℤ
stdin_fileno = pos 0

-- The entry for the standard input is the first, and has something to read.
unfoldable pub stdin_ready : PollVec → Bool
stdin_ready v = elim (get_elem? (contents v) 0) [
  | none ↦ false
  | some p ↦ if eq_ℤ p.fd stdin_fileno then is_pollin v 0 else false
]

-- The vector that a call leaves behind a pointer, if any.
abbrev pub behind {ℓ} : {A : Type ℓ} → Option (Option A) → Option A
behind none = none
behind (some v) = v

-- Adds a descriptor to a poll vector, or frees the vector; `none` is a result of -1.
unfoldable pub add_or_free :
    (os : Os) → ℤ → ℕ → Option PollVec → os.World → Option PollVec × os.World
add_or_free os fd fd_events vec w =
    let (e, vec', w₁) = poll_vec_add_fd os vec fd fd_events w in
    let (_, _, w₂) = free_poll_vec os (some vec') w₁ in if is_ok e then (vec', w₁) else (none, w₂)

-- `strncmp(s, word, strlen(word)) == 0`, for a word without a NUL.
unfoldable pub starts_with : Text → List ℕ → Bool
starts_with [] s = true
starts_with (b ∷ bs) [] = false
starts_with (b ∷ bs) (c ∷ cs) = b == c && starts_with bs cs

-- `socket` gives a descriptor that was not open, or none; the other calls open and close none.
pub record Sockets (os : Os) (net : Net os) (d : Descriptors os net) (inet : Inet os) : Type 0 where
  pub socket_fresh :
      (type : ℕ) (w : os.World)
      → is_neg (inet.socket type w).0 ≡ false
      → d.is_open (inet.socket type w).0 w ≡ false
  pub open-socket :
      (f : ℤ) (type : ℕ) (w : os.World)
      → d.is_open f (inet.socket type w).1
        ≡ (d.is_open f w || (not (is_neg (inet.socket type w).0) && eq_ℤ (inet.socket type w).0 f))
  pub open-setsockopt :
      (f fd : ℤ) (w : os.World) → d.is_open f (inet.setsockopt fd w).1 ≡ d.is_open f w
  pub open-bind :
      (f fd : ℤ) (addr : SockAddr) (w : os.World)
      → d.is_open f (inet.bind fd addr w).1 ≡ d.is_open f w
  pub open-listen :
      (f fd : ℤ) (n : ℕ) (w : os.World) → d.is_open f (inet.listen fd n w).1 ≡ d.is_open f w
  pub open-connect :
      (f fd : ℤ) (addr : SockAddr) (w : os.World)
      → d.is_open f (inet.connect fd addr w).1 ≡ d.is_open f w
  pub open-poll :
      (f : ℤ) (ps : List PollFd) (w : os.World) → d.is_open f (inet.poll ps w).2 ≡ d.is_open f w
  pub open-fgets : (f : ℤ) (n : ℕ) (w : os.World) → d.is_open f (inet.fgets n w).1 ≡ d.is_open f w
