-- ===== src/Http/Network.antt =====
-- The socket calls of source/http_server.c, a parameter like those of the file system.
use localsend3ds.Prelude.{ℕ, ◌≤◌, ◌≡◌, Bool, Option, some, Bytes, length}
use localsend3ds.Platform.{Platform, Reliable}

-- What `accept` gives: a connection with its address, where `inet_ntop` gives one, and whether it
-- was made non-blocking; or nothing.
pub data Accepted (S : Type 0) : Type 0 where
  peer : S → Bool → Option Bytes → Accepted S
  no_peer : Accepted S
  accept_failed : ℕ → Accepted S

-- What `recv` gives: bytes, none of them once the peer has closed; `EAGAIN`; or another error.
pub data Incoming : Type 0 where
  bytes : Bytes → Incoming
  nothing_yet : Incoming
  recv_failed : ℕ → Incoming

-- What `send` gives: the number of bytes taken; `EAGAIN`; or another error.
pub data Outgoing : Type 0 where
  taken : ℕ → Outgoing
  not_yet : Outgoing
  send_failed : ℕ → Outgoing

pub record Network (p : Platform) : Type 1 where
  pub Socket : Type 0
  pub accept : p.World → Accepted Socket × p.World
  pub recv : p.World → Socket → ℕ → Incoming × p.World
  pub send : p.World → Socket → Bytes → Outgoing × p.World
  pub close : p.World → Socket → p.World

abbrev pub FitsIn : ℕ → Incoming → Type 0
FitsIn capacity (bytes s) = length s ≤ capacity
FitsIn capacity nothing_yet = Unit
FitsIn capacity (recv_failed e) = Unit

abbrev pub TakesFrom : Bytes → Outgoing → Type 0
TakesFrom s (taken n) = n ≤ length s
TakesFrom s not_yet = Unit
TakesFrom s (send_failed e) = Unit

-- `recv` gives no more bytes than there is room for, and `send` takes no more than it was given.
pub record Polite (p : Platform) (n : Network p) : Type 0 where
  pub recv_fits : (w : p.World) (s : n.Socket) (k : ℕ) → FitsIn k (n.recv w s k).0
  pub send_takes : (w : p.World) (s : n.Socket) (d : Bytes) → TakesFrom d (n.send w s d).0

-- A call on a socket touches no file.
pub record Orderly (p : Platform) (n : Network p) (r : Reliable p) : Type 0 where
  pub accept_frame :
      (w : p.World) (q c : Bytes) → r.content w q ≡ some c → r.content (n.accept w).1 q ≡ some c
  pub recv_frame :
      (w : p.World) (s : n.Socket) (k : ℕ) (q c : Bytes)
      → r.content w q ≡ some c
      → r.content (n.recv w s k).1 q ≡ some c
  pub send_frame :
      (w : p.World) (s : n.Socket) (d q c : Bytes)
      → r.content w q ≡ some c
      → r.content (n.send w s d).1 q ≡ some c
  pub close_frame :
      (w : p.World) (s : n.Socket) (q c : Bytes)
      → r.content w q ≡ some c
      → r.content (n.close w s) q ≡ some c
