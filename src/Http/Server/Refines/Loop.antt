-- ===== src/Http/Server/Refines/Loop.antt =====
-- One pass of the server: `ls_http_server_update`, and its stop.
use localsend3ds.Prelude.{
  ℕ, ◌≤◌, arith, length-drop, zero, suc, ◌+◌, Bool, false, ◌&&◌, ◌||◌, not, refl, Option, none,
  some, Bytes, ◌==◌, if◌then◌else◌, length, drop, codes, is_empty,
}
use localsend3ds.Device.{Device}
use localsend3ds.Platform.{Platform}
use localsend3ds.Transfer
use localsend3ds.Transfer.{is_busy}
use localsend3ds.Http.Network.{
  Network, Polite, TakesFrom, Accepted, peer, no_peer, accept_failed, Incoming, bytes, nothing_yet,
  recv_failed, Outgoing, taken, not_yet, send_failed,
}
use localsend3ds.Http.Server.Bounds.{InBounds, no_connection-InBounds}
use localsend3ds.Http.Server.{
  Server, no_connection, is_reading, is_streaming, is_writing, stream_buffer_size, max_connections,
  count_one, client, put, after,
}
use localsend3ds.Http.Server.Loop.{
  free_from, elapsed, idle_timeout, upload_session_timeout, admit, place, accept_loop,
  accept_connections, stream_lost, stream_bytes, read_stream, sent, write_connection, read_by_mode,
  write_if_open, serve, serve_first, expire_session, update, reset_first, stop,
}
use localsend3ds.Http.Server.Refines.{
  accepting, receiving, sending, closing, Runs, same, stay, put-Runs, ◌then◌, by_socket, if-Runs,
  reset-Runs, abort-Runs, rejected-Runs, failed-Runs, cancelled-Runs,
}
use localsend3ds.Http.Server.Refines.Stream.{stream_data-Runs}
use localsend3ds.Http.Server.Refines.Requests.{read_request-Runs}

module _ {p : Platform} {n : Network p} where
  closed-Runs : (v : Server p n) (s : n.Socket) → Runs v (record v { world = n.close v.world s })
  closed-Runs v s = by_socket v (closing v.world s)

  admit-Runs :
      (now : ℕ) (s : n.Socket) (ip : Option Bytes) (i : ℕ) (v : Server p n)
      → Runs v (admit now s ip i v)
  unfolding admit
  admit-Runs now s none i v =
      let u = record v { world = n.close v.world s } in
      closed-Runs v s
      then rejected-Runs (put-Runs i no_connection u (λ o f. no_connection-InBounds n.Socket))
  admit-Runs now s (some ip) i v =
      let u = record v { accepted_connections = count_one v.accepted_connections } in
      same v u refl refl
      then put-Runs i (record no_connection { fd = some s; peer_ip = ip; last_activity_ms = now }) u
          (λ o f. no_connection-InBounds n.Socket)

  place-Runs :
      (now : ℕ) (s : n.Socket) (b : Bool) (ip : Option Bytes) (o : Option ℕ) (v : Server p n)
      → Runs v (place now s b ip o v)
  unfolding place
  place-Runs now s b ip none v = rejected-Runs (closed-Runs v s)
  place-Runs now s b ip (some i) v =
      if-Runs b (admit-Runs now s ip i v) (rejected-Runs (closed-Runs v s))

  accepted-Runs :
      {v u : Server p n} (x : Accepted n.Socket) (f : ℕ → Server p n)
      (g : n.Socket → Bool → Option Bytes → Server p n)
      → Runs v u
      → ((e : ℕ) → Runs v (f e))
      → ((s : n.Socket) (b : Bool) (ip : Option Bytes) → Runs v (g s b ip))
      → Runs v (elim x [ no_peer ↦ u | accept_failed e ↦ f e | peer s b ip ↦ g s b ip ])
  accepted-Runs no_peer f g r off on = r
  accepted-Runs (accept_failed e) f g r off on = off e
  accepted-Runs (peer s b ip) f g r off on = on s b ip

  accept_loop-Runs : (rounds now : ℕ) (v : Server p n) → Runs v (accept_loop rounds now v)
  unfolding accept_loop
  accept_loop-Runs zero now v = stay v
  accept_loop-Runs (suc rounds) now v =
      let u = record v { world = (n.accept v.world).1 } in
      by_socket v (accepting v.world)
      then accepted-Runs (n.accept v.world).0 (λ errno. record u { last_errno = errno })
          (λ s b ip. accept_loop rounds now (place now s b ip (free_from 0 v.clients) u)) (stay u)
          (λ errno. same u (record u { last_errno = errno }) refl refl)
          (λ s b ip.
            place-Runs now s b ip (free_from 0 v.clients) u
            then accept_loop-Runs rounds now (place now s b ip (free_from 0 v.clients) u))

  lost-Runs : (i : ℕ) (m : Bytes) (now : ℕ) (v : Server p n) → Runs v (stream_lost i m now v)
  unfolding stream_lost
  lost-Runs i m now v =
      failed-Runs v m now
      then rejected-Runs (reset-Runs i (after (Transfer.fail p v.transfer m now v.world) v))

  stream_bytes-Runs : (i now : ℕ) (x : Incoming) (v : Server p n) → Runs v (stream_bytes i now x v)
  unfolding stream_bytes
  stream_bytes-Runs i now nothing_yet v = stay v
  stream_bytes-Runs i now (recv_failed errno) v =
      let u = record v { last_errno = errno } in
      same v u refl refl then lost-Runs i (codes "Network receive failed") now u
  stream_bytes-Runs i now (bytes s) v =
      let u = put i (record (client v i) { last_activity_ms = now }) v in
      if-Runs (is_empty s) (lost-Runs i (codes "Sender disconnected during upload") now v) (
        put-Runs i (record (client v i) { last_activity_ms = now }) v (λ o f. f)
        then stream_data-Runs i s now u)

  read_stream-Runs :
      (i : ℕ) (s : n.Socket) (now : ℕ) (v : Server p n) → Runs v (read_stream i s now v)
  unfolding read_stream
  read_stream-Runs i s now v =
      let r = n.recv v.world s stream_buffer_size in
      by_socket v (receiving v.world s stream_buffer_size)
      then stream_bytes-Runs i now r.0 (record v { world = r.1 })

  sent-Runs :
      (i now : ℕ) (x : Outgoing) (v : Server p n)
      → (Polite p n → TakesFrom (drop (client v i).tx_sent (client v i).tx) x)
      → Runs v (sent i now x v)
  unfolding sent
  sent-Runs i now not_yet v most = stay v
  sent-Runs i now (send_failed errno) v most =
      let u = record v { last_errno = errno } in
      same v u refl refl then abort-Runs i (codes "Could not send session response") now u
  sent-Runs i now (taken count) v most =
      let c = record (client v i) {
        tx_sent = (client v i).tx_sent + count;
        last_activity_ms = now;
      } in
      let u = put i (record c { owns_prepare_session = false }) v in
      let fits : Polite p n
          → InBounds (client v i)
          → (client v i).tx_sent + count ≤ length (client v i).tx =
        λ o f. omega (arith, length-drop (client v i).tx_sent (client v i).tx, most o, f.2) in
      if-Runs (c.tx_sent == length c.tx)
        (put-Runs i (record c { owns_prepare_session = false }) v
            (λ o f. (f.0, f.1, fits o f, f.3, f.4))
          then reset-Runs i u)
        (put-Runs i c v (λ o f. (f.0, f.1, fits o f, f.3, f.4)))

  write-Runs :
      (i : ℕ) (s : n.Socket) (now : ℕ) (v : Server p n) → Runs v (write_connection i s now v)
  unfolding write_connection
  write-Runs i s now v =
      let rest = drop (client v i).tx_sent (client v i).tx in
      let r = n.send v.world s rest in
      if-Runs (not (is_writing (client v i).mode) || is_empty (client v i).tx) (stay v) (
        by_socket v (sending v.world s rest)
        then sent-Runs i now r.0 (record v { world = r.1 }) (λ o. o.send_takes v.world s rest))

  read-Runs :
      (i : ℕ) (s : n.Socket) (identity : Device) (now : ℕ) (v : Server p n)
      → Runs v (read_by_mode i s identity now v)
  unfolding read_by_mode
  read-Runs i s identity now v =
      if-Runs (is_reading (client v i).mode) (read_request-Runs i s identity now v)
        (if-Runs (is_streaming (client v i).mode) (read_stream-Runs i s now v) (stay v))

  write_if_open-Runs :
      (i now : ℕ) (o : Option n.Socket) (v : Server p n) → Runs v (write_if_open i now o v)
  unfolding write_if_open
  write_if_open-Runs i now none v = stay v
  write_if_open-Runs i now (some s) v =
      if-Runs (is_writing (client v i).mode) (write-Runs i s now v) (stay v)

  serve-Runs :
      (i : ℕ) (identity : Device) (now : ℕ) (o : Option n.Socket) (v : Server p n)
      → Runs v (serve i identity now o v)
  unfolding serve
  serve-Runs i identity now none v = stay v
  serve-Runs i identity now (some s) v =
      let read = read_by_mode i s identity now v in
      if-Runs (elapsed now (client v i).last_activity_ms (idle_timeout (client v i).mode))
        (rejected-Runs (abort-Runs i (codes "Network request timed out") now v))
        (read-Runs i s identity now v then write_if_open-Runs i now (client read i).fd read)

  serve_first-Runs :
      (k : ℕ) (identity : Device) (now : ℕ) (v : Server p n) → Runs v (serve_first k identity now v)
  unfolding serve_first
  serve_first-Runs zero identity now v = stay v
  serve_first-Runs (suc k) identity now v =
      let u = serve_first k identity now v in
      serve_first-Runs k identity now v then serve-Runs k identity now (client u k).fd u

  expire-Runs : (now : ℕ) (v : Server p n) → Runs v (expire_session now v)
  unfolding expire_session
  expire-Runs now v =
      if-Runs
        (Transfer.is_accepted v.transfer.state
          && elapsed now v.transfer.state_changed_ms upload_session_timeout)
        (failed-Runs v (codes "Accepted upload session timed out") now) (stay v)

  pub update-Runs : (identity : Device) (now : ℕ) (v : Server p n) → Runs v (update identity now v)
  unfolding update accept_connections
  update-Runs identity now v =
      let u = accept_connections now v in
      let w = expire_session now u in
      if-Runs v.running
        (accept_loop-Runs max_connections now v
          then expire-Runs now u
          then serve_first-Runs max_connections identity now w)
        (stay v)

  resets-Runs : (k : ℕ) (v : Server p n) → Runs v (reset_first k v)
  unfolding reset_first
  resets-Runs zero v = stay v
  resets-Runs (suc k) v = resets-Runs k v then reset-Runs k (reset_first k v)

  pub stop-Runs : (v : Server p n) → Runs v (stop v)
  unfolding stop
  stop-Runs v =
      let c =
        after (Transfer.cancel p v.transfer (codes "Application/network shutdown") 0 v.world) v in
      let u = if is_busy v.transfer.state then c else v in
      if-Runs (is_busy v.transfer.state) (cancelled-Runs v (codes "Application/network shutdown") 0)
        (stay v)
      then resets-Runs max_connections u
      then same (reset_first max_connections u)
          (record (reset_first max_connections u) { running = false }) refl refl
