-- ===== src/Http/Server.antt =====
-- source/http_server.c and include/http_server.h: the server's state, its responses, and the end of
-- a connection. A handler takes the state to the state behind it; the transfer, the registry that
-- the caller passes in and the world outside are parts of it. Log lines are left out.
pub mod Approval
pub mod Stream
pub mod Routes
pub mod Loop
pub mod Bounds
pub mod Refines
pub mod Events
use localsend3ds.Prelude.{
  ℕ, zero, suc, ◌+◌, ◌%◌, ◌^◌, Bool, true, false, ◌&&◌, ◌||◌, not, Option, none, some, List, [],
  ◌∷◌, ◌++◌, Bytes, ltb, ◌==◌, if◌then◌else◌, length, get_elem?, set, codes, is_empty,
}
use localsend3ds.Device.{Device}
use localsend3ds.Registry.{Registry}
use localsend3ds.Platform.{Platform}
use localsend3ds.Protocol.Write.{decimal}
use localsend3ds.Transfer
use localsend3ds.Transfer.{Transfer, is_busy, After}
use localsend3ds.Http.Text.{crlf}
use localsend3ds.Http.Network.{Network}

-- `LsHttpConnectionMode`
pub data Mode : Type 0 where
  reading_request waiting_for_approval streaming_upload writing_response : Mode

-- `LsHttpUploadEncoding`
pub data UploadEncoding : Type 0 where
  upload_length upload_chunked : UploadEncoding

-- `LsHttpChunkState`
pub data ChunkState : Type 0 where
  chunk_size chunk_data chunk_data_cr chunk_data_lf chunk_trailer : ChunkState

abbrev pub is_reading : Mode → Bool
is_reading reading_request = true
is_reading _ = false

abbrev pub is_waiting : Mode → Bool
is_waiting waiting_for_approval = true
is_waiting _ = false

abbrev pub is_streaming : Mode → Bool
is_streaming streaming_upload = true
is_streaming _ = false

abbrev pub is_writing : Mode → Bool
is_writing writing_response = true
is_writing _ = false

-- `LsHttpConnection`; no socket stands for a negative `fd`.
pub record Connection (S : Type 0) : Type 0 where
  pub fd : Option S
  pub peer_ip : Bytes
  pub rx : Bytes
  pub tx : Bytes
  pub tx_sent : ℕ
  pub last_activity_ms : ℕ
  pub mode : Mode
  pub upload_encoding : UploadEncoding
  pub body_remaining : ℕ
  pub chunk_remaining : ℕ
  pub chunk_state : ChunkState
  pub chunk_line : Bytes
  pub trailer_bytes : ℕ
  pub owns_prepare_session : Bool

abbrev pub rx_capacity : ℕ
rx_capacity = 18436

abbrev pub tx_capacity : ℕ
tx_capacity = 3072

abbrev pub max_header_size : ℕ
max_header_size = 2048

abbrev pub max_metadata_size : ℕ
max_metadata_size = 16384

abbrev pub max_connections : ℕ
max_connections = 4

abbrev pub stream_buffer_size : ℕ
stream_buffer_size = 32768

-- `memset`, and no socket.
abbrev pub no_connection : {S : Type 0} → Connection S
no_connection = record {
  fd = none;
  peer_ip = [];
  rx = [];
  tx = [];
  tx_sent = 0;
  last_activity_ms = 0;
  mode = reading_request;
  upload_encoding = upload_length;
  body_remaining = 0;
  chunk_remaining = 0;
  chunk_state = chunk_size;
  chunk_line = [];
  trailer_bytes = 0;
  owns_prepare_session = false;
}

-- `LsHttpServer` without its buffers, with what the calls reach besides.
pub record Server (p : Platform) (n : Network p) : Type 0 where
  pub running : Bool
  pub clients : List (Connection n.Socket)
  pub accepted_connections : ℕ
  pub handled_requests : ℕ
  pub rejected_requests : ℕ
  pub last_errno : ℕ
  pub external_transfer_busy : Bool
  pub quick_save : Bool
  pub download_directory : Bytes
  pub transfer : Transfer p.File
  pub registry : Registry
  pub world : p.World

-- `unsigned` counts wrap.
abbrev pub count_one : ℕ → ℕ
count_one n = (n + 1) % 2 ^ 32

-- The head of a response.
unfoldable pub response_text : ℕ → Bytes → Bytes → Bytes → Bytes
response_text status reason content_type body =
    codes "HTTP/1.1 "
    ++ (decimal status
        ++ (codes " "
            ++ (reason
                ++ (crlf
                    ++ (codes "Content-Length: "
                        ++ (decimal (length body)
                            ++ (crlf
                                ++ (codes "Content-Type: "
                                    ++ (content_type
                                        ++ (crlf
                                            ++ (codes "Connection: close"
                                                ++ (crlf ++ (crlf ++ body)))))))))))))

abbrev pub plain_text : Bytes
plain_text = codes "text/plain; charset=utf-8"

abbrev pub json_type : Bytes
json_type = codes "application/json; charset=utf-8"

-- The connection of an index; there is none beyond the array.
abbrev pub found : {S : Type 0} → Option (Connection S) → Connection S
found none = no_connection
found (some c) = c

-- `close`, for a connection that has a socket.
unfoldable pub close_fd : {p : Platform} (n : Network p) → Option n.Socket → p.World → p.World
close_fd n none w = w
close_fd n (some s) w = n.close w s

module _ {p : Platform} {n : Network p} where
  abbrev pub client : Server p n → ℕ → Connection n.Socket
  client v i = found (get_elem? v.clients i)

  -- A connection is written back.
  abbrev pub put : ℕ → Connection n.Socket → Server p n → Server p n
  put i c v = record v { clients = set v.clients i c }

  abbrev pub handled : Server p n → Server p n
  handled v = record v { handled_requests = count_one v.handled_requests }

  abbrev pub rejected : Server p n → Server p n
  rejected v = record v { rejected_requests = count_one v.rejected_requests }

  -- The transfer behind a call, with the world.
  abbrev pub after : After p → Server p n → Server p n
  after a v = record v { transfer = a.0; world = a.1 }

  -- `connection_reset`
  unfoldable pub connection_reset : ℕ → Server p n → Server p n
  unfolding close_fd
  connection_reset i v =
      put i no_connection (record v { world = close_fd n (client v i).fd v.world })

  -- `response`. One that does not fit ends the connection.
  unfoldable pub response : ℕ → ℕ → Bytes → Bytes → Bytes → Server p n → Server p n
  response i status reason content_type body v =
      let text = response_text status reason content_type body in
      if ltb tx_capacity (length text)
      then connection_reset i v
      else put i (record (client v i) { tx = text; tx_sent = 0; mode = writing_response }) v

  -- `empty_response`
  unfoldable pub empty_response : ℕ → ℕ → Bytes → Server p n → Server p n
  empty_response i status reason v = response i status reason plain_text [] v

  -- `message_response`
  unfoldable pub message_response : ℕ → ℕ → Bytes → Bytes → Server p n → Server p n
  message_response i status reason message v = response i status reason plain_text message v

  -- `abort_connection`
  unfoldable pub abort_connection : ℕ → Bytes → ℕ → Server p n → Server p n
  abort_connection i reason now v =
      let c = client v i in
      let busy =
        (is_waiting c.mode || is_streaming c.mode || c.owns_prepare_session)
        && is_busy v.transfer.state in
      connection_reset i
        (if busy then after (Transfer.cancel p v.transfer reason now v.world) v else v)
