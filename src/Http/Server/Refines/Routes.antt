-- ===== src/Http/Server/Refines/Routes.antt =====
-- The requests: `handle_metadata_request` and `handle_upload_start`.
use localsend3ds.Prelude.{
  ℕ, arith, Bool, true, false, ◌&&◌, ◌||◌, not, refl, Option, none, some, [], Bytes, ◌==◌,
  if◌then◌else◌, codes, str_eq, is_empty,
}
use localsend3ds.Device.{Device}
use localsend3ds.Registry
use localsend3ds.Platform.{Platform}
use localsend3ds.Protocol.{
  Parsed, ok, fail, session_id_capacity, file_id_capacity, file_token_capacity,
}
use localsend3ds.Protocol.Device.{parse_device}
use localsend3ds.Protocol.Prepare.{parse_prepare_upload}
use localsend3ds.Protocol.Write.{write_info}
use localsend3ds.Transfer
use localsend3ds.Transfer.{PrepareUploadRequest, is_busy}
use localsend3ds.Transfer.Calls.{begin_request_call, begin_stream_call, perform}
use localsend3ds.Http.Network.{Network}
use localsend3ds.Http.Query.{QueryResult, query_missing, query_invalid, query_ok, query_value}
use localsend3ds.Http.Request.{Request, route_path}
use localsend3ds.Http.Server.{
  Server, waiting_for_approval, streaming_upload, upload_length, upload_chunked, chunk_size, client,
  put, after, json_type, max_connections, rejected, message_response,
}
use localsend3ds.Http.Server.Approval.{reset_others}
use localsend3ds.Http.Server.Routes.{
  starts_with, cancel_allowed, begun, prepare_parsed, handle_prepare_upload, handle_remote_cancel,
  start_stream, open_stream, missing_parameters, with_credentials, handle_upload_start, send_info,
  handle_info, register_peer, route, routed, handle_metadata_request,
}
use localsend3ds.Http.Server.Refines.{
  Runs, same, stay, put-Runs, ◌then◌, by_call, if-Runs, response-Runs, empty-Runs, message-Runs,
  rejected-Runs, handled-Runs, cancelled-Runs,
}
use localsend3ds.Http.Server.Refines.Stream.{stream_finish-Runs, stream_data-Runs}
use localsend3ds.Http.Server.Refines.Approval.{accept-Runs, others-Runs}

module _ {p : Platform} {n : Network p} where
  begun-Runs : (i now : ℕ) (quick : Bool) (v : Server p n) → Runs v (begun i now quick v)
  begun-Runs i now true v = accept-Runs now v
  begun-Runs i now false v = stay v

  blocked-Runs :
      (i : ℕ) (v : Server p n)
      → Runs v (
          rejected
            (message_response i 409 (codes "Conflict") (codes "Blocked by another session") v))
  blocked-Runs i v =
      rejected-Runs (message-Runs i 409 (codes "Conflict") (codes "Blocked by another session") v)

  parsed-Runs :
      (i now : ℕ) (x : Parsed PrepareUploadRequest) (v : Server p n)
      → Runs v (prepare_parsed i now x v)
  unfolding prepare_parsed perform
  parsed-Runs i now (fail e) v =
      rejected-Runs (message-Runs i 400 (codes "Bad Request") (codes "Invalid body") v)
  parsed-Runs i now (ok request) v =
      let ip = (client v i).peer_ip in
      let a = Transfer.begin_request p v.transfer request ip now v.world in
      let u = after a.1 v in
      let w =
        put i (record (client u i) { mode = waiting_for_approval; last_activity_ms = now }) u in
      by_call (begin_request_call request ip now) v
      then if-Runs (not a.0) (blocked-Runs i u) (
          put-Runs i (record (client u i) { mode = waiting_for_approval; last_activity_ms = now }) u
            (λ o f. f)
          then begun-Runs i now v.quick_save w)

  prepare-Runs :
      (i : ℕ) (body : Bytes) (now : ℕ) (v : Server p n)
      → Runs v (handle_prepare_upload i body now v)
  unfolding handle_prepare_upload
  prepare-Runs i body now v =
      if-Runs (v.external_transfer_busy || is_busy v.transfer.state) (blocked-Runs i v)
        (parsed-Runs i now (parse_prepare_upload body (some (client v i).peer_ip)) v)

  remote_cancel-Runs :
      (i : ℕ) (request : Request) (now : ℕ) (v : Server p n)
      → Runs v (handle_remote_cancel i request now v)
  unfolding handle_remote_cancel
  remote_cancel-Runs i request now v =
      let allowed =
        is_busy v.transfer.state
        && str_eq v.transfer.sender_ip (client v i).peer_ip
        && cancel_allowed (Transfer.is_waiting v.transfer.state) v.transfer.session_id
            (query_value request.target (codes "sessionId") session_id_capacity) in
      let u = after (Transfer.cancel p v.transfer (codes "Cancelled by sender") now v.world) v in
      let w = reset_others (some i) max_connections u in
      if-Runs allowed
        (cancelled-Runs v (codes "Cancelled by sender") now
          then others-Runs (some i) max_connections u)
        (stay v)
      then handled-Runs (empty-Runs i 200 (codes "OK") (if allowed then w else v))

  start-Runs :
      (i : ℕ) (request : Request) (initial : Bytes) (now : ℕ) (v : Server p n)
      → Runs v (start_stream i request initial now v)
  unfolding start_stream
  start-Runs i request initial now v =
      let c = record (client v i) {
        mode = streaming_upload;
        upload_encoding = (if request.chunked then upload_chunked else upload_length);
        body_remaining = request.content_length;
        chunk_state = chunk_size;
        rx = [];
      } in
      let u = put i c v in
      put-Runs i c v (λ o f. ((omega arith), f.1, f.2, f.3, λ h. cc h))
      then if-Runs (not (is_empty initial)) (stream_data-Runs i initial now u) (
          if-Runs (not request.chunked && request.content_length == 0) (stream_finish-Runs i now u)
            (stay u))

  open-Runs :
      (i : ℕ) (request : Request) (initial : Bytes) (now : ℕ) (v : Server p n)
      → Runs v (open_stream i request initial now v)
  unfolding open_stream perform
  open-Runs i request initial now v =
      let a =
        Transfer.begin_stream p v.transfer request.content_length request.has_content_length now
          v.world in
      let u = after a.1 v in
      by_call (begin_stream_call request.content_length request.has_content_length now) v
      then if-Runs a.0 (start-Runs i request initial now u) (
          rejected-Runs (
            if-Runs request.has_content_length (empty-Runs i 400 (codes "Bad Request") u)
              (empty-Runs i 500 (codes "Internal Server Error") u)))

  missing-Runs : (i : ℕ) (v : Server p n) → Runs v (missing_parameters i v)
  unfolding missing_parameters
  missing-Runs i v =
      rejected-Runs (message-Runs i 400 (codes "Bad Request") (codes "Missing parameters") v)

  credentials-Runs :
      (i : ℕ) (request : Request) (initial : Bytes) (now : ℕ) (a b c : QueryResult) (v : Server p n)
      → Runs v (with_credentials i request initial now a b c v)
  unfolding with_credentials
  credentials-Runs i request initial now (query_ok session) (query_ok file) (query_ok token) v =
      if-Runs (Transfer.validate_upload v.transfer (client v i).peer_ip session file token)
        (open-Runs i request initial now v)
        (rejected-Runs
          (message-Runs i 403 (codes "Forbidden") (codes "Invalid token or IP address") v))
  credentials-Runs i request initial now query_missing b c v = missing-Runs i v
  credentials-Runs i request initial now query_invalid b c v = missing-Runs i v
  credentials-Runs i request initial now (query_ok a) query_missing c v = missing-Runs i v
  credentials-Runs i request initial now (query_ok a) query_invalid c v = missing-Runs i v
  credentials-Runs i request initial now (query_ok a) (query_ok b) query_missing v =
      missing-Runs i v
  credentials-Runs i request initial now (query_ok a) (query_ok b) query_invalid v =
      missing-Runs i v

  pub upload_start-Runs :
      (i : ℕ) (request : Request) (initial : Bytes) (now : ℕ) (v : Server p n)
      → Runs v (handle_upload_start i request initial now v)
  unfolding handle_upload_start
  upload_start-Runs i request initial now v =
      if-Runs (not request.has_content_length && not request.chunked) (missing-Runs i v) (
        credentials-Runs i request initial now
          (query_value request.target (codes "sessionId") session_id_capacity)
          (query_value request.target (codes "fileId") file_id_capacity)
          (query_value request.target (codes "token") file_token_capacity) v)

  info-Runs : (i : ℕ) (o : Option Bytes) (v : Server p n) → Runs v (send_info i o v)
  unfolding send_info
  info-Runs i none v = rejected-Runs (empty-Runs i 500 (codes "Internal Server Error") v)
  info-Runs i (some info) v = handled-Runs (response-Runs i 200 (codes "OK") json_type info v)

  handle_info-Runs :
      (i : ℕ) (identity : Device) (v : Server p n) → Runs v (handle_info i identity v)
  unfolding handle_info
  handle_info-Runs i identity v = info-Runs i (write_info identity 512) v

  peer-Runs :
      (i : ℕ) (identity : Device) (now : ℕ) (x : Parsed Device) (v : Server p n)
      → Runs v (register_peer i identity now x v)
  unfolding register_peer
  peer-Runs i identity now (fail e) v = rejected-Runs (empty-Runs i 400 (codes "Bad Request") v)
  peer-Runs i identity now (ok peer) v =
      let u = record v { registry = (Registry.upsert v.registry peer now).1 } in
      if-Runs (str_eq peer.fingerprint identity.fingerprint)
        (rejected-Runs (empty-Runs i 400 (codes "Bad Request") v))
        (same v u refl refl then handle_info-Runs i identity u)

  route-Runs :
      (i : ℕ) (request : Request) (body : Bytes) (identity : Device) (now : ℕ) (path : Bytes)
      (v : Server p n)
      → Runs v (route i request body identity now path v)
  unfolding route
  route-Runs i request body identity now path v =
      let post = str_eq request.method (codes "POST") in
      if-Runs (post && str_eq path (codes "/api/localsend/v2/register"))
        (peer-Runs i identity now (parse_device body (some (client v i).peer_ip)) v)
        (if-Runs
          (str_eq request.method (codes "GET")
            && (str_eq path (codes "/api/localsend/v2/info")
                || str_eq path (codes "/api/localsend/v1/info")))
          (handle_info-Runs i identity v)
          (if-Runs (post && str_eq path (codes "/api/localsend/v2/prepare-upload"))
            (prepare-Runs i body now v)
            (if-Runs (post && str_eq path (codes "/api/localsend/v2/cancel"))
              (remote_cancel-Runs i request now v)
              (rejected-Runs (
                if-Runs
                  (starts_with (codes "/api/localsend/v2/") path
                    || starts_with (codes "/api/localsend/v1/") path)
                  (empty-Runs i 405 (codes "Method Not Allowed") v)
                  (empty-Runs i 404 (codes "Not Found") v))))))

  routed-Runs :
      (i : ℕ) (request : Request) (body : Bytes) (identity : Device) (now : ℕ) (o : Option Bytes)
      (v : Server p n)
      → Runs v (routed i request body identity now o v)
  unfolding routed
  routed-Runs i request body identity now none v =
      rejected-Runs (empty-Runs i 400 (codes "Bad Request") v)
  routed-Runs i request body identity now (some path) v =
      route-Runs i request body identity now path v

  pub metadata-Runs :
      (i : ℕ) (request : Request) (body : Bytes) (identity : Device) (now : ℕ) (v : Server p n)
      → Runs v (handle_metadata_request i request body identity now v)
  unfolding handle_metadata_request
  metadata-Runs i request body identity now v =
      routed-Runs i request body identity now (route_path request.target) v
