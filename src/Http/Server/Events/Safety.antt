-- ===== src/Http/Server/Events/Safety.antt =====
-- What holds of the incoming transfer and of the card behind a server.
use localsend3ds.Prelude.{refl, ◌≡◌, some, List, Bytes}
use localsend3ds.Registry.{Registry}
use localsend3ds.Platform.{Platform, Reliable}
use localsend3ds.Transfer.{After}
use localsend3ds.Transfer.Invariant.{Inv, init-Inv, perform-Inv}
use localsend3ds.Transfer.Files.{Spared}
use localsend3ds.Transfer.Spared.{perform-Spared, init-Spared}
use localsend3ds.Http.Network.{Network, Orderly, Polite}
use localsend3ds.Http.Server.Events.{Event, started, run}
use localsend3ds.Http.Server.Events.Steps.{run-Steps, run-Runs}
use localsend3ds.Http.Server.Bounds.{Sized, no_connection-InBounds}
use localsend3ds.Http.Server.Refines.{
  SocketCall, accepting, receiving, sending, closing, Steps, done, called, socket,
}

module _ {p : Platform} {n : Network p} where
  Steps-Inv : {a b : After p} → Steps n a b → Inv a.0 → Inv b.0
  Steps-Inv done v = v
  Steps-Inv (called {b} call s) v = perform-Inv p call b.0 b.1 (Steps-Inv s v)
  Steps-Inv (socket x s) v = Steps-Inv s v

module _ {p : Platform} (n : Network p) where
  -- The invariant of the incoming transfer holds at any time in the life of a server, behind any
  -- calls of the application and any bytes from the network.
  pub run-Inv :
      (directory : Bytes) (registry : Registry) (w : p.World) (es : List Event)
      → Inv (run es (started {n = n} directory registry w)).transfer
  unfolding started
  run-Inv directory registry w es =
      Steps-Inv (run-Steps es (started directory registry w)) (init-Inv p)

  -- On a network that gives no more than there is room for and takes no more than it was given, there
  -- are always four connections; of each, what is received, what is sent and the line of a chunk fit
  -- their buffers, no more of the answer counts as sent than there is of it, and a chunk whose data is
  -- read has bytes left.
  pub run-Sized :
      (o : Polite p n) (directory : Bytes) (registry : Registry) (w : p.World) (es : List Event)
      → Sized (run es (started {n = n} directory registry w)).clients
  unfolding started
  run-Sized o directory registry w es =
      let e = no_connection-InBounds n.Socket in
      (run-Runs es (started directory registry w)).sized o (refl, (e, (e, (e, (e, tt)))))

module _ {p : Platform} {n : Network p} (r : Reliable p) (o : Orderly p n r) (q c : Bytes) where
  open r use {content}

  frame : {w w' : p.World} → SocketCall n w w' → content w q ≡ some c → content w' q ≡ some c
  frame (accepting w) k = o.accept_frame w q c k
  frame (receiving w s m) k = o.recv_frame w s m q c k
  frame (sending w s d) k = o.send_frame w s d q c k
  frame (closing w s) k = o.close_frame w s q c k

  Steps-Spared :
      {a b : After p} → Steps n a b → Inv a.0 → Spared p r q c a.0 a.1 → Spared p r q c b.0 b.1
  Steps-Spared done v s = s
  Steps-Spared (called call t) v s =
      perform-Spared p r q c call (Steps-Inv t v) (Steps-Spared t v s)
  Steps-Spared (socket x t) v s =
      let u = Steps-Spared t v s in
      record { kept = frame x u.kept; not_part = u.not_part; not_open = u.not_open }

  -- A file that is on the card when the server starts stays there with the same content, whatever
  -- calls the application makes and whatever bytes peers send, where the calls of the system touch
  -- no file but those they name and a call on a socket touches none.
  pub run-kept :
      (directory : Bytes) (registry : Registry) (w : p.World) (es : List Event)
      → content w q ≡ some c
      → content (run es (started {n = n} directory registry w)).world q ≡ some c
  unfolding started
  run-kept directory registry w es k =
      (Steps-Spared (run-Steps es (started directory registry w)) (init-Inv p)
        (init-Spared p r q c k)).kept
