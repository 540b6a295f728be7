-- ===== src/Http/Server/Bounds.antt =====
-- The buffers of the connections, which are arrays of fixed sizes in include/http_server.h.
pub mod Chunks
use localsend3ds.Prelude.{
  ℕ, zero, suc, ◌≤◌, ◌<◌, true, ◌≡◌, refl, List, [], ◌∷◌, All, arith, length, set, length-set,
  get_elem?, ◌∙◌,
}
use localsend3ds.Http.Server.{
  Connection, rx_capacity, tx_capacity, max_connections, no_connection, found,
}
use localsend3ds.Http.Server.Stream.{chunk_line_capacity, in_data}

-- What is received, what is sent and the line of a chunk fit, no more was sent than there is, and
-- bytes are left of a chunk whose data is read.
abbrev pub InBounds : {S : Type 0} → Connection S → Type 0
InBounds c =
    (length c.rx ≤ rx_capacity)
    × (length c.tx ≤ tx_capacity)
    × (c.tx_sent ≤ length c.tx)
    × (length c.chunk_line ≤ chunk_line_capacity)
    × (in_data c.chunk_state ≡ true → 0 < c.chunk_remaining)

-- There are as many connections as slots, and all are in bounds.
abbrev pub Sized : {S : Type 0} → List (Connection S) → Type 0
Sized cs = (length cs ≡ max_connections) × All InBounds cs

pub no_connection-InBounds : (S : Type 0) → InBounds (no_connection {S = S})
no_connection-InBounds S = ((omega arith), (omega arith), (omega arith), (omega arith), (λ h. cc h))

module _ {S : Type 0} where
  pub found-InBounds :
      (cs : List (Connection S)) (i : ℕ) → All InBounds cs → InBounds (found (get_elem? cs i))
  found-InBounds [] i b = no_connection-InBounds S
  found-InBounds (c ∷ cs) zero b = b.0
  found-InBounds (c ∷ cs) (suc i) b = found-InBounds cs i b.1

  set-InBounds :
      (cs : List (Connection S)) (i : ℕ) (c : Connection S)
      → InBounds c
      → All InBounds cs
      → All InBounds (set cs i c)
  set-InBounds [] i c f b = b
  set-InBounds (d ∷ cs) zero c f b = (f, b.1)
  set-InBounds (d ∷ cs) (suc i) c f b = (b.0, set-InBounds cs i c f b.1)

  pub set-Sized :
      (cs : List (Connection S)) (i : ℕ) (c : Connection S)
      → InBounds c
      → Sized cs
      → Sized (set cs i c)
  set-Sized cs i c f s = (length-set cs i c ∙ s.0, set-InBounds cs i c f s.1)
