-- ===== src/Http/Server/Events/Steps.antt =====
-- The server against the abstract machine of a transfer and a world.
use localsend3ds.Prelude.{List, [], ◌∷◌, refl}
use localsend3ds.Platform.{Platform}
use localsend3ds.Http.Network.{Network}
use localsend3ds.Http.Server.{Server}
use localsend3ds.Http.Server.Events.{
  Event, updating, accepting, rejecting, cancelling, setting_external_transfer_busy,
  setting_quick_save, stopping, set_external_transfer_busy, set_quick_save, respond, run,
}
use localsend3ds.Http.Server.Refines.{Steps, view, Runs, same, stay, ◌then◌}
use localsend3ds.Http.Server.Refines.Approval.{accept-Runs, reject-Runs, cancel-Runs}
use localsend3ds.Http.Server.Refines.Loop.{update-Runs, stop-Runs}

module _ {p : Platform} {n : Network p} where
  respond-Runs : (e : Event) (v : Server p n) → Runs v (respond e v)
  unfolding respond
  respond-Runs (updating identity now) v = update-Runs identity now v
  respond-Runs (accepting now) v = accept-Runs now v
  respond-Runs (rejecting now) v = reject-Runs now v
  respond-Runs (cancelling now) v = cancel-Runs now v
  respond-Runs (setting_external_transfer_busy busy) v =
      same v (set_external_transfer_busy busy v) refl refl
  respond-Runs (setting_quick_save enabled) v = same v (set_quick_save enabled v) refl refl
  respond-Runs stopping v = stop-Runs v

  pub run-Runs : (es : List Event) (v : Server p n) → Runs v (run es v)
  unfolding run
  run-Runs [] v = stay v
  run-Runs (e ∷ es) v = respond-Runs e v then run-Runs es (respond e v)

  -- Whatever calls the application makes on the server and whatever comes in on its sockets, the
  -- transfer and the world change by calls of transfer.h and by calls on sockets, and by nothing
  -- else: the server refines the machine that makes such calls in any order.
  pub run-Steps : (es : List Event) (v : Server p n) → Steps n (view v) (view (run es v))
  run-Steps es v = (run-Runs es v).steps
