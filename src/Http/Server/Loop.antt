-- ===== src/Http/Server/Loop.antt =====
-- One pass of the server over its sockets: `ls_http_server_update`.
use localsend3ds.Prelude.{
  ℕ, zero, suc, ◌+◌, ◌-◌, Bool, false, ◌&&◌, ◌||◌, not, Option, none, some, List, [], ◌∷◌, ◌++◌,
  Bytes, ltb, leb, ◌==◌, if◌then◌else◌, length, drop, codes, str_eq, is_empty,
}
use localsend3ds.Device.{Device}
use localsend3ds.Platform.{Platform}
use localsend3ds.Transfer
use localsend3ds.Transfer.{is_busy}
use localsend3ds.Http.Network.{
  Network, peer, no_peer, accept_failed, Incoming, bytes, nothing_yet, recv_failed, Outgoing, taken,
  not_yet, send_failed,
}
use localsend3ds.Http.Request.{Request, split_header, parse_request_headers, route_path}
use localsend3ds.Http.Server.{
  Connection, Server, Mode, is_reading, is_waiting, is_streaming, is_writing, rx_capacity,
  stream_buffer_size, max_header_size, max_metadata_size, max_connections, no_connection, client,
  put, rejected, after, count_one, connection_reset, empty_response, abort_connection,
}
use localsend3ds.Http.Server.Approval.{is_open}
use localsend3ds.Http.Server.Stream.{process_stream_data}
use localsend3ds.Http.Server.Routes.{handle_upload_start, handle_metadata_request}

-- `free_connection`, from an index on.
unfoldable pub free_from : {S : Type 0} → ℕ → List (Connection S) → Option ℕ
free_from i [] = none
free_from i (c ∷ cs) = let rest = free_from (suc i) cs in if is_open c.fd then rest else some i

-- Whether as much time has gone by; a clock that stands before `since` counts for none.
abbrev pub elapsed : ℕ → ℕ → ℕ → Bool
elapsed now since timeout = leb since now && leb timeout (now - since)

abbrev pub upload_session_timeout : ℕ
upload_session_timeout = 120000

-- The time that a connection may be idle.
abbrev pub idle_timeout : Mode → ℕ
idle_timeout mode = if is_waiting mode then 120000 else if is_streaming mode then 30000 else 5000

module _ {p : Platform} {n : Network p} where
  -- A socket that was accepted, for a slot that is free.
  unfoldable pub admit : ℕ → n.Socket → Option Bytes → ℕ → Server p n → Server p n
  admit now socket none i v =
      rejected (put i no_connection (record v { world = n.close v.world socket }))
  admit now socket (some ip) i v =
      put i (record no_connection { fd = some socket; peer_ip = ip; last_activity_ms = now })
        (record v { accepted_connections = count_one v.accepted_connections })

  unfoldable pub place : ℕ → n.Socket → Bool → Option Bytes → Option ℕ → Server p n → Server p n
  unfolding admit
  place now socket nonblocking ip none v = rejected (record v { world = n.close v.world socket })
  place now socket nonblocking ip (some i) v =
      if nonblocking
      then admit now socket ip i v
      else rejected (record v { world = n.close v.world socket })

  -- `accept_connections`, over the rounds left.
  unfoldable pub accept_loop : ℕ → ℕ → Server p n → Server p n
  unfolding place
  accept_loop zero now v = v
  accept_loop (suc rounds) now v =
      let u = record v { world = (n.accept v.world).1 } in
      elim (n.accept v.world).0 [
        | no_peer ↦ u
        | accept_failed errno ↦ record u { last_errno = errno }
        | peer socket nonblocking ip ↦
            accept_loop rounds now (place now socket nonblocking ip (free_from 0 v.clients) u)
      ]

  unfoldable pub accept_connections : ℕ → Server p n → Server p n
  unfolding accept_loop
  accept_connections now v = accept_loop max_connections now v

  unfoldable pub reject_with : ℕ → ℕ → Bytes → Server p n → Server p n
  reject_with i status reason v = rejected (empty_response i status reason v)

  -- A request that is not an upload; `more` is what of its body has not come yet.
  unfoldable pub other_request : ℕ → Request → Bytes → Device → ℕ → Server p n → Server p n
  unfolding reject_with
  other_request i request body identity now v =
      if request.chunked
      then reject_with i 501 (codes "Not Implemented") v
      else if str_eq request.method (codes "POST") && not request.has_content_length
      then reject_with i 411 (codes "Length Required") v
      else if ltb max_metadata_size request.content_length
      then reject_with i 413 (codes "Content Too Large") v
      else if ltb (length body) request.content_length
      then v
      else if not (request.content_length == length body)
      then reject_with i 400 (codes "Bad Request") v
      else handle_metadata_request i request body identity now v

  unfoldable pub with_path :
      ℕ → Request → Bytes → Device → ℕ → Option Bytes → Server p n → Server p n
  unfolding reject_with other_request
  with_path i request body identity now none v = reject_with i 400 (codes "Bad Request") v
  with_path i request body identity now (some path) v =
      if str_eq request.method (codes "POST") && str_eq path (codes "/api/localsend/v2/upload")
      then handle_upload_start i request body now v
      else other_request i request body identity now v

  unfoldable pub with_request : ℕ → Bytes → Device → ℕ → Option Request → Server p n → Server p n
  unfolding reject_with with_path
  with_request i body identity now none v = reject_with i 400 (codes "Bad Request") v
  with_request i body identity now (some request) v =
      with_path i request body identity now (route_path request.target) v

  unfoldable pub with_header : ℕ → Device → ℕ → Option (Bytes × Bytes) → Server p n → Server p n
  unfolding reject_with with_request
  with_header i identity now none v =
      if leb max_header_size (length (client v i).rx)
      then reject_with i 431 (codes "Request Header Fields Too Large") v
      else v
  with_header i identity now (some (header, body)) v =
      if ltb max_header_size (length header)
      then reject_with i 431 (codes "Request Header Fields Too Large") v
      else with_request i body identity now (parse_request_headers header) v

  -- Bytes that came.
  unfoldable pub received : ℕ → Device → ℕ → Bytes → Server p n → Server p n
  unfolding with_header
  received i identity now s v =
      let c = client v i in
      with_header i identity now (split_header (c.rx ++ s))
        (put i (record c { rx = c.rx ++ s; last_activity_ms = now }) v)

  unfoldable pub request_bytes : ℕ → Device → ℕ → Incoming → Server p n → Server p n
  unfolding received
  request_bytes i identity now nothing_yet v = v
  request_bytes i identity now (recv_failed errno) v =
      abort_connection i (codes "Network receive failed") now (record v { last_errno = errno })
  request_bytes i identity now (bytes s) v =
      if is_empty s
      then abort_connection i (codes "Sender disconnected") now v
      else received i identity now s v

  -- `read_request`, on an open socket.
  unfoldable pub read_request : ℕ → n.Socket → Device → ℕ → Server p n → Server p n
  unfolding reject_with request_bytes
  read_request i socket identity now v =
      let room = rx_capacity - length (client v i).rx in
      let (incoming, w) = n.recv v.world socket room in
      if leb rx_capacity (length (client v i).rx)
      then reject_with i 413 (codes "Content Too Large") v
      else request_bytes i identity now incoming (record v { world = w })

  -- The transfer fails and the connection ends.
  unfoldable pub stream_lost : ℕ → Bytes → ℕ → Server p n → Server p n
  stream_lost i message now v =
      rejected (connection_reset i (after (Transfer.fail p v.transfer message now v.world) v))

  unfoldable pub stream_bytes : ℕ → ℕ → Incoming → Server p n → Server p n
  unfolding stream_lost
  stream_bytes i now nothing_yet v = v
  stream_bytes i now (recv_failed errno) v =
      stream_lost i (codes "Network receive failed") now (record v { last_errno = errno })
  stream_bytes i now (bytes s) v =
      if is_empty s
      then stream_lost i (codes "Sender disconnected during upload") now v
      else process_stream_data i s now (put i (record (client v i) { last_activity_ms = now }) v)

  -- `read_stream`
  unfoldable pub read_stream : ℕ → n.Socket → ℕ → Server p n → Server p n
  unfolding stream_bytes
  read_stream i socket now v =
      let (incoming, w) = n.recv v.world socket stream_buffer_size in
      stream_bytes i now incoming (record v { world = w })

  unfoldable pub sent : ℕ → ℕ → Outgoing → Server p n → Server p n
  sent i now not_yet v = v
  sent i now (send_failed errno) v =
      abort_connection i (codes "Could not send session response") now
        (record v { last_errno = errno })
  sent i now (taken count) v =
      let c = record (client v i) {
        tx_sent = (client v i).tx_sent + count;
        last_activity_ms = now;
      } in
      if c.tx_sent == length c.tx
      then connection_reset i (put i (record c { owns_prepare_session = false }) v)
      else put i c v

  -- `write_connection`, on an open socket.
  unfoldable pub write_connection : ℕ → n.Socket → ℕ → Server p n → Server p n
  unfolding sent
  write_connection i socket now v =
      let (outgoing, w) = n.send v.world socket (drop (client v i).tx_sent (client v i).tx) in
      if not (is_writing (client v i).mode) || is_empty (client v i).tx
      then v
      else sent i now outgoing (record v { world = w })

  -- What the mode asks for.
  unfoldable pub read_by_mode : ℕ → n.Socket → Device → ℕ → Server p n → Server p n
  read_by_mode i socket identity now v =
      if is_reading (client v i).mode
      then read_request i socket identity now v
      else if is_streaming (client v i).mode
      then read_stream i socket now v
      else v

  unfoldable pub write_if_open : ℕ → ℕ → Option n.Socket → Server p n → Server p n
  write_if_open i now none v = v
  write_if_open i now (some socket) v =
      if is_writing (client v i).mode then write_connection i socket now v else v

  -- One connection, by its socket.
  unfoldable pub serve : ℕ → Device → ℕ → Option n.Socket → Server p n → Server p n
  unfolding read_by_mode write_if_open
  serve i identity now none v = v
  serve i identity now (some socket) v =
      let read = read_by_mode i socket identity now v in
      if elapsed now (client v i).last_activity_ms (idle_timeout (client v i).mode)
      then rejected (abort_connection i (codes "Network request timed out") now v)
      else write_if_open i now (client read i).fd read

  -- The loop over the connections, of which the first `k` are served.
  unfoldable pub serve_first : ℕ → Device → ℕ → Server p n → Server p n
  unfolding serve
  serve_first zero identity now v = v
  serve_first (suc k) identity now v =
      let u = serve_first k identity now v in serve k identity now (client u k).fd u

  -- An accepted transfer whose upload does not come is given up.
  unfoldable pub expire_session : ℕ → Server p n → Server p n
  expire_session now v =
      if Transfer.is_accepted v.transfer.state
        && elapsed now v.transfer.state_changed_ms upload_session_timeout
      then after
          (Transfer.fail p v.transfer (codes "Accepted upload session timed out") now v.world) v
      else v

  -- `ls_http_server_update`
  unfoldable pub update : Device → ℕ → Server p n → Server p n
  unfolding accept_connections expire_session serve_first
  update identity now v =
      if v.running
      then serve_first max_connections identity now (expire_session now (accept_connections now v))
      else v

  -- All connections are ended, the first `k` here.
  unfoldable pub reset_first : ℕ → Server p n → Server p n
  reset_first zero v = v
  reset_first (suc k) v = connection_reset k (reset_first k v)

  -- `ls_http_server_stop`; the listening socket is left out.
  unfoldable pub stop : Server p n → Server p n
  unfolding reset_first
  stop v =
      let u =
        if is_busy v.transfer.state
        then after (Transfer.cancel p v.transfer (codes "Application/network shutdown") 0 v.world) v
        else v in
      record (reset_first max_connections u) { running = false }
