-- ===== src/Http/Server/Events.antt =====
-- The calls of http_server.h that the application makes on a server that it started.
pub mod Steps
pub mod Safety
mod Tests
use localsend3ds.Prelude.{
  ℕ, ◌||◌, Bool, true, false, Option, none, some, List, [], ◌∷◌, Bytes, leb, ◌==◌, if◌then◌else◌,
  length,
}
use localsend3ds.Device.{Device}
use localsend3ds.Registry.{Registry}
use localsend3ds.Filesystem.{path_capacity}
use localsend3ds.Platform.{Platform}
use localsend3ds.Transfer.{init}
use localsend3ds.Http.Network.{Network}
use localsend3ds.Http.Server.{Server, no_connection}
use localsend3ds.Http.Server.Approval.{accept_transfer, reject_transfer, cancel_transfer}
use localsend3ds.Http.Server.Loop.{update, stop}

-- A call, with its arguments.
pub data Event : Type 0 where
  updating : Device → ℕ → Event
  accepting : ℕ → Event
  rejecting : ℕ → Event
  cancelling : ℕ → Event
  setting_external_transfer_busy : Bool → Event
  setting_quick_save : Bool → Event
  stopping : Event

module _ {p : Platform} {n : Network p} where
  -- `ls_http_server_set_external_transfer_busy`
  abbrev pub set_external_transfer_busy : Bool → Server p n → Server p n
  set_external_transfer_busy busy v = record v { external_transfer_busy = busy }

  -- `ls_http_server_set_quick_save`
  abbrev pub set_quick_save : Bool → Server p n → Server p n
  set_quick_save enabled v = record v { quick_save = enabled }

  -- What `ls_http_server_start_on_port_at` sets up, where its calls on the listening socket succeed.
  unfoldable pub started : Bytes → Registry → p.World → Server p n
  started directory registry w = record {
    running = true;
    clients = no_connection ∷ no_connection ∷ no_connection ∷ no_connection ∷ [];
    accepted_connections = 0;
    handled_requests = 0;
    rejected_requests = 0;
    last_errno = 0;
    external_transfer_busy = false;
    quick_save = false;
    download_directory = directory;
    transfer = init;
    registry = registry;
    world = w;
  }

  unfoldable pub respond : Event → Server p n → Server p n
  respond (updating identity now) v = update identity now v
  respond (accepting now) v = (accept_transfer now v).1
  respond (rejecting now) v = (reject_transfer now v).1
  respond (cancelling now) v = (cancel_transfer now v).1
  respond (setting_external_transfer_busy busy) v = set_external_transfer_busy busy v
  respond (setting_quick_save enabled) v = set_quick_save enabled v
  respond stopping v = stop v

  unfoldable pub run : List Event → Server p n → Server p n
  unfolding respond
  run [] v = v
  run (e ∷ es) v = run es (respond e v)

-- The test of a download directory, which refuses to start.
unfoldable pub refuses_directory : Bytes → Bool
refuses_directory directory = length directory == 0 || leb path_capacity (length directory)
