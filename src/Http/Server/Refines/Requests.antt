-- ===== src/Http/Server/Refines/Requests.antt =====
-- A request that is read: `read_request`.
use localsend3ds.Prelude.{
  ℕ, arith, length-append, ◌-◌, ◌&&◌, not, refl, Option, none, some, ◌++◌, Bytes, ltb, leb, ◌==◌,
  if◌then◌else◌, length, codes, str_eq, is_empty,
}
use localsend3ds.Device.{Device}
use localsend3ds.Platform.{Platform}
use localsend3ds.Http.Network.{Network, Polite, FitsIn, Incoming, bytes, nothing_yet, recv_failed}
use localsend3ds.Http.Request.{Request, split_header, parse_request_headers, route_path}
use localsend3ds.Http.Server.{Server, rx_capacity, max_header_size, max_metadata_size, client, put}
use localsend3ds.Http.Server.Loop.{
  reject_with, other_request, with_path, with_request, with_header, received, request_bytes,
  read_request,
}
use localsend3ds.Http.Server.Refines.{
  receiving, Runs, same, stay, put-Runs, ◌then◌, by_socket, if-Runs, empty-Runs, abort-Runs,
  rejected-Runs,
}
use localsend3ds.Http.Server.Refines.Routes.{upload_start-Runs, metadata-Runs}

module _ {p : Platform} {n : Network p} where
  pub reject-Runs :
      (i status : ℕ) (reason : Bytes) (v : Server p n) → Runs v (reject_with i status reason v)
  unfolding reject_with
  reject-Runs i status reason v = rejected-Runs (empty-Runs i status reason v)

  other-Runs :
      (i : ℕ) (request : Request) (body : Bytes) (identity : Device) (now : ℕ) (v : Server p n)
      → Runs v (other_request i request body identity now v)
  unfolding other_request
  other-Runs i request body identity now v =
      if-Runs request.chunked (reject-Runs i 501 (codes "Not Implemented") v) (
        if-Runs (str_eq request.method (codes "POST") && not request.has_content_length)
          (reject-Runs i 411 (codes "Length Required") v)
          (if-Runs (ltb max_metadata_size request.content_length)
            (reject-Runs i 413 (codes "Content Too Large") v)
            (if-Runs (ltb (length body) request.content_length) (stay v) (
              if-Runs (not (request.content_length == length body))
                (reject-Runs i 400 (codes "Bad Request") v)
                (metadata-Runs i request body identity now v)))))

  path-Runs :
      (i : ℕ) (request : Request) (body : Bytes) (identity : Device) (now : ℕ) (o : Option Bytes)
      (v : Server p n)
      → Runs v (with_path i request body identity now o v)
  unfolding with_path
  path-Runs i request body identity now none v = reject-Runs i 400 (codes "Bad Request") v
  path-Runs i request body identity now (some path) v =
      if-Runs
        (str_eq request.method (codes "POST") && str_eq path (codes "/api/localsend/v2/upload"))
        (upload_start-Runs i request body now v) (other-Runs i request body identity now v)

  request-Runs :
      (i : ℕ) (body : Bytes) (identity : Device) (now : ℕ) (o : Option Request) (v : Server p n)
      → Runs v (with_request i body identity now o v)
  unfolding with_request
  request-Runs i body identity now none v = reject-Runs i 400 (codes "Bad Request") v
  request-Runs i body identity now (some request) v =
      path-Runs i request body identity now (route_path request.target) v

  header-Runs :
      (i : ℕ) (identity : Device) (now : ℕ) (o : Option (Bytes × Bytes)) (v : Server p n)
      → Runs v (with_header i identity now o v)
  unfolding with_header
  header-Runs i identity now none v =
      if-Runs (leb max_header_size (length (client v i).rx))
        (reject-Runs i 431 (codes "Request Header Fields Too Large") v) (stay v)
  header-Runs i identity now (some (header, body)) v =
      if-Runs (ltb max_header_size (length header))
        (reject-Runs i 431 (codes "Request Header Fields Too Large") v)
        (request-Runs i body identity now (parse_request_headers header) v)

  request_bytes-Runs :
      (i : ℕ) (identity : Device) (now : ℕ) (x : Incoming) (v : Server p n)
      → (Polite p n → FitsIn (rx_capacity - length (client v i).rx) x)
      → Runs v (request_bytes i identity now x v)
  unfolding request_bytes received
  request_bytes-Runs i identity now nothing_yet v room = stay v
  request_bytes-Runs i identity now (recv_failed errno) v room =
      let u = record v { last_errno = errno } in
      same v u refl refl then abort-Runs i (codes "Network receive failed") now u
  request_bytes-Runs i identity now (bytes s) v room =
      let c = client v i in
      let u = put i (record c { rx = c.rx ++ s; last_activity_ms = now }) v in
      if-Runs (is_empty s) (abort-Runs i (codes "Sender disconnected") now v) (
        put-Runs i (record c { rx = c.rx ++ s; last_activity_ms = now }) v
          (λ o f. (omega (arith, length-append c.rx s, room o, f.0), f.1, f.2, f.3, f.4))
        then header-Runs i identity now (split_header (c.rx ++ s)) u)

  pub read_request-Runs :
      (i : ℕ) (s : n.Socket) (identity : Device) (now : ℕ) (v : Server p n)
      → Runs v (read_request i s identity now v)
  unfolding read_request
  read_request-Runs i s identity now v =
      let room = rx_capacity - length (client v i).rx in
      let r = n.recv v.world s room in
      if-Runs (leb rx_capacity (length (client v i).rx))
        (reject-Runs i 413 (codes "Content Too Large") v)
        (by_socket v (receiving v.world s room)
          then request_bytes-Runs i identity now r.0 (record v { world = r.1 })
              (λ o. o.recv_fits v.world s room))
