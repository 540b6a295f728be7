-- ===== src/Http/Server/Routes.antt =====
-- The requests of the protocol and their answers.
use localsend3ds.Prelude.{
  ℕ, Bool, true, false, ◌&&◌, ◌||◌, not, Option, none, some, [], Bytes, ◌==◌, if◌then◌else◌, codes,
  str_eq, is_empty,
}
use localsend3ds.Device.{Device}
use localsend3ds.Registry
use localsend3ds.Json.Cursor.{strip_prefix}
use localsend3ds.Platform.{Platform}
use localsend3ds.Protocol.{
  Parsed, ok, fail, session_id_capacity, file_id_capacity, file_token_capacity,
}
use localsend3ds.Protocol.Device.{parse_device}
use localsend3ds.Protocol.Prepare.{parse_prepare_upload}
use localsend3ds.Protocol.Write.{write_info}
use localsend3ds.Transfer
use localsend3ds.Transfer.{PrepareUploadRequest, is_busy}
use localsend3ds.Http.Network.{Network}
use localsend3ds.Http.Query.{QueryResult, query_missing, query_invalid, query_ok, query_value}
use localsend3ds.Http.Request.{Request, route_path}
use localsend3ds.Http.Server.{
  Server, waiting_for_approval, streaming_upload, upload_length, upload_chunked, chunk_size, client,
  put, handled, rejected, after, json_type, max_connections, response, empty_response,
  message_response,
}
use localsend3ds.Http.Server.Approval.{accept_transfer, reset_others}
use localsend3ds.Http.Server.Stream.{process_stream_data, stream_finish}

-- `strncmp` of as many bytes as the first text has.
abbrev pub starts_with : Bytes → Bytes → Bool
starts_with wanted s = elim (strip_prefix wanted s) [ none ↦ false | some rest ↦ true ]

-- Whether the sender may cancel: the session it names, if any, is the one of the transfer.
abbrev pub cancel_allowed : Bool → Bytes → QueryResult → Bool
cancel_allowed waiting session query_invalid = false
cancel_allowed waiting session query_missing = waiting
cancel_allowed waiting session (query_ok id) = str_eq session id

module _ {p : Platform} {n : Network p} where
  abbrev pub begun : ℕ → ℕ → Bool → Server p n → Server p n
  begun i now quick v = if quick then (accept_transfer now v).1 else v

  -- `ls_transfer_begin_request` on a parsed request.
  unfoldable pub prepare_parsed : ℕ → ℕ → Parsed PrepareUploadRequest → Server p n → Server p n
  prepare_parsed i now (fail e) v =
      rejected (message_response i 400 (codes "Bad Request") (codes "Invalid body") v)
  prepare_parsed i now (ok request) v =
      let (accepted, a) =
        Transfer.begin_request p v.transfer request (client v i).peer_ip now v.world in
      let u = after a v in
      if not accepted
      then rejected
          (message_response i 409 (codes "Conflict") (codes "Blocked by another session") u)
      else begun i now v.quick_save
          (put i (record (client u i) { mode = waiting_for_approval; last_activity_ms = now }) u)

  -- `handle_prepare_upload`
  unfoldable pub handle_prepare_upload : ℕ → Bytes → ℕ → Server p n → Server p n
  unfolding prepare_parsed
  handle_prepare_upload i body now v =
      if v.external_transfer_busy || is_busy v.transfer.state
      then rejected
          (message_response i 409 (codes "Conflict") (codes "Blocked by another session") v)
      else prepare_parsed i now (parse_prepare_upload body (some (client v i).peer_ip)) v

  -- `handle_remote_cancel`
  unfoldable pub handle_remote_cancel : ℕ → Request → ℕ → Server p n → Server p n
  handle_remote_cancel i request now v =
      let allowed =
        is_busy v.transfer.state
        && str_eq v.transfer.sender_ip (client v i).peer_ip
        && cancel_allowed (Transfer.is_waiting v.transfer.state) v.transfer.session_id
            (query_value request.target (codes "sessionId") session_id_capacity) in
      let u =
        if allowed
        then reset_others (some i) max_connections
            (after (Transfer.cancel p v.transfer (codes "Cancelled by sender") now v.world) v)
        else v in
      handled (empty_response i 200 (codes "OK") u)

  -- The connection turns into a stream of the body, of which some bytes may be there.
  unfoldable pub start_stream : ℕ → Request → Bytes → ℕ → Server p n → Server p n
  start_stream i request initial now v =
      let c = record (client v i) {
        mode = streaming_upload;
        upload_encoding = (if request.chunked then upload_chunked else upload_length);
        body_remaining = request.content_length;
        chunk_state = chunk_size;
        rx = [];
      } in
      let u = put i c v in
      if not (is_empty initial)
      then process_stream_data i initial now u
      else if not request.chunked && request.content_length == 0
      then stream_finish i now u
      else u

  -- `ls_transfer_begin_stream` for credentials that are right.
  unfoldable pub open_stream : ℕ → Request → Bytes → ℕ → Server p n → Server p n
  unfolding start_stream
  open_stream i request initial now v =
      let (opened, a) =
        Transfer.begin_stream p v.transfer request.content_length request.has_content_length now
          v.world in
      let u = after a v in
      if opened
      then start_stream i request initial now u
      else rejected (
          if request.has_content_length
          then empty_response i 400 (codes "Bad Request") u
          else empty_response i 500 (codes "Internal Server Error") u)

  unfoldable pub missing_parameters : ℕ → Server p n → Server p n
  missing_parameters i v =
      rejected (message_response i 400 (codes "Bad Request") (codes "Missing parameters") v)

  -- The three identifiers that the query gives.
  unfoldable pub with_credentials :
      ℕ → Request → Bytes → ℕ → QueryResult → QueryResult → QueryResult → Server p n → Server p n
  unfolding missing_parameters open_stream
  with_credentials i request initial now (query_ok session) (query_ok file) (query_ok token) v =
      if Transfer.validate_upload v.transfer (client v i).peer_ip session file token
      then open_stream i request initial now v
      else rejected
          (message_response i 403 (codes "Forbidden") (codes "Invalid token or IP address") v)
  with_credentials i request initial now _ _ _ v = missing_parameters i v

  -- `handle_upload_start`
  unfoldable pub handle_upload_start : ℕ → Request → Bytes → ℕ → Server p n → Server p n
  unfolding missing_parameters with_credentials
  handle_upload_start i request initial now v =
      if not request.has_content_length && not request.chunked
      then missing_parameters i v
      else with_credentials i request initial now
          (query_value request.target (codes "sessionId") session_id_capacity)
          (query_value request.target (codes "fileId") file_id_capacity)
          (query_value request.target (codes "token") file_token_capacity) v

  -- The server's own description.
  unfoldable pub send_info : ℕ → Option Bytes → Server p n → Server p n
  send_info i none v = rejected (empty_response i 500 (codes "Internal Server Error") v)
  send_info i (some info) v = handled (response i 200 (codes "OK") json_type info v)

  unfoldable pub handle_info : ℕ → Device → Server p n → Server p n
  unfolding send_info
  handle_info i identity v = send_info i (write_info identity 512) v

  unfoldable pub register_peer : ℕ → Device → ℕ → Parsed Device → Server p n → Server p n
  unfolding handle_info
  register_peer i identity now (fail e) v = rejected (empty_response i 400 (codes "Bad Request") v)
  register_peer i identity now (ok peer) v =
      if str_eq peer.fingerprint identity.fingerprint
      then rejected (empty_response i 400 (codes "Bad Request") v)
      else handle_info i identity (record v { registry = (Registry.upsert v.registry peer now).1 })

  -- The request, by its method and path.
  unfoldable pub route : ℕ → Request → Bytes → Device → ℕ → Bytes → Server p n → Server p n
  unfolding register_peer handle_info handle_prepare_upload handle_remote_cancel
  route i request body identity now path v =
      let post = str_eq request.method (codes "POST") in
      if post && str_eq path (codes "/api/localsend/v2/register")
      then register_peer i identity now (parse_device body (some (client v i).peer_ip)) v
      else if str_eq request.method (codes "GET")
          && (str_eq path (codes "/api/localsend/v2/info")
              || str_eq path (codes "/api/localsend/v1/info"))
      then handle_info i identity v
      else if post && str_eq path (codes "/api/localsend/v2/prepare-upload")
      then handle_prepare_upload i body now v
      else if post && str_eq path (codes "/api/localsend/v2/cancel")
      then handle_remote_cancel i request now v
      else rejected (
          if starts_with (codes "/api/localsend/v2/") path
            || starts_with (codes "/api/localsend/v1/") path
          then empty_response i 405 (codes "Method Not Allowed") v
          else empty_response i 404 (codes "Not Found") v)

  unfoldable pub routed : ℕ → Request → Bytes → Device → ℕ → Option Bytes → Server p n → Server p n
  unfolding route
  routed i request body identity now none v =
      rejected (empty_response i 400 (codes "Bad Request") v)
  routed i request body identity now (some path) v = route i request body identity now path v

  -- `handle_metadata_request`
  unfoldable pub handle_metadata_request :
      ℕ → Request → Bytes → Device → ℕ → Server p n → Server p n
  unfolding routed
  handle_metadata_request i request body identity now v =
      routed i request body identity now (route_path request.target) v
