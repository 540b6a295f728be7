-- ===== src/Http/Server/Refines.antt =====
-- The server works on the transfer by the calls of transfer.h alone, and on the world besides by
-- calls on sockets, and keeps its connections in bounds: each handler runs some such calls.
pub mod Stream
pub mod Fuel
pub mod Authorised
pub mod Approval
pub mod Routes
pub mod Requests
pub mod Loop
use localsend3ds.Prelude.{
  ℕ, arith, zero, suc, ◌≡◌, refl, Bool, true, false, Option, none, some, List, [], ◌∷◌, Bytes, ltb,
  length, ◌&&◌, ◌||◌, if◌then◌else◌,
}
use localsend3ds.Platform.{Platform}
use localsend3ds.Transfer
use localsend3ds.Transfer.{Transfer, After, is_busy}
use localsend3ds.Transfer.Calls.{Call, cancel_call, fail_call, perform}
use localsend3ds.Http.Network.{Network, Polite}
use localsend3ds.Http.Server.Bounds.{
  InBounds, Sized, no_connection-InBounds, found-InBounds, set-Sized,
}
use localsend3ds.Http.Server.{
  Connection, no_connection, Server, close_fd, put, handled, rejected, after, connection_reset,
  tx_capacity, response_text, writing_response, is_waiting, is_streaming, client, response,
  empty_response, message_response, abort_connection,
}

-- A call on a socket, by the worlds around it.
pub data SocketCall {p : Platform} (n : Network p) : p.World → p.World → Type 0 where
  accepting : (w : p.World) → SocketCall n w (n.accept w).1
  receiving : (w : p.World) (s : n.Socket) (k : ℕ) → SocketCall n w (n.recv w s k).1
  sending : (w : p.World) (s : n.Socket) (d : Bytes) → SocketCall n w (n.send w s d).1
  closing : (w : p.World) (s : n.Socket) → SocketCall n w (n.close w s)

-- The abstract machine: a transfer and the world, changed by calls on either.
pub data Steps {p : Platform} (n : Network p) (a : After p) : After p → Type 0 where
  done : Steps n a a
  called : {b : After p} (call : Call) → Steps n a b → Steps n a (perform p call b.0 b.1)
  socket : {b : After p} {w : p.World} → SocketCall n b.1 w → Steps n a b → Steps n a (b.0, w)

Steps-trans :
    {p : Platform} {n : Network p} {a b c : After p} → Steps n a b → Steps n b c → Steps n a c
Steps-trans r done = r
Steps-trans r (called call s) = called call (Steps-trans r s)
Steps-trans r (socket x s) = socket x (Steps-trans r s)

module _ {p : Platform} {n : Network p} where
  -- What the abstract machine sees of a server.
  abbrev pub view : Server p n → After p
  view v = (v.transfer, v.world)

  -- Such a machine makes the steps from one state to the other, and the buffers of the connections
  -- stay in bounds.
  pub record Runs (v u : Server p n) : Type 0 where
    pub steps : Steps n (view v) (view u)
    pub sized : Polite p n → Sized v.clients → Sized u.clients

  pub same : (v u : Server p n) → view u ≡ view v → u.clients ≡ v.clients → Runs v u
  same v u e f = record { steps = rw e done; sized = λ o s. rw f s }

  pub stay : (v : Server p n) → Runs v v
  stay v = same v v refl refl

  infixl 6 ◌then◌
  pub ◌then◌ : {v u x : Server p n} → Runs v u → Runs u x → Runs v x
  r then s = record { steps = Steps-trans r.steps s.steps; sized = λ o b. s.sized o (r.sized o b) }

  pub by_call :
      (call : Call) (v : Server p n) → Runs v (after (perform p call v.transfer v.world) v)
  by_call call v = record { steps = called call done; sized = λ o s. s }

  pub by_socket :
      (v : Server p n) {w : p.World} → SocketCall n v.world w → Runs v (record v { world = w })
  by_socket v x = record { steps = socket x done; sized = λ o s. s }

  pub client-InBounds : (v : Server p n) (i : ℕ) → Sized v.clients → InBounds (client v i)
  client-InBounds v i s = found-InBounds v.clients i s.1

  -- A connection is written back, in bounds if it was.
  pub put-Runs :
      (i : ℕ) (c : Connection n.Socket) (v : Server p n)
      → (Polite p n → InBounds (client v i) → InBounds c)
      → Runs v (put i c v)
  put-Runs i c v f = record {
    steps = done;
    sized = λ o s. set-Sized v.clients i c (f o (client-InBounds v i s)) s;
  }

  pub if-Runs : {v x y : Server p n} (b : Bool) → Runs v x → Runs v y → Runs v (if b then x else y)
  if-Runs true r s = r
  if-Runs false r s = s

  pub ifs-Runs :
      {v : Server p n} (x y : Bool × Server p n) (b : Bool)
      → Runs v x.1
      → Runs v y.1
      → Runs v (if b then x else y).1
  ifs-Runs x y true r s = r
  ifs-Runs x y false r s = s

  pub cancelled-Runs :
      (v : Server p n) (m : Bytes) (now : ℕ)
      → Runs v (after (Transfer.cancel p v.transfer m now v.world) v)
  unfolding perform
  cancelled-Runs v m now = by_call (cancel_call m now) v

  pub failed-Runs :
      (v : Server p n) (m : Bytes) (now : ℕ)
      → Runs v (after (Transfer.fail p v.transfer m now v.world) v)
  unfolding perform
  failed-Runs v m now = by_call (fail_call m now) v

  close_fd-Steps :
      (t : Transfer p.File) (w : p.World) (o : Option n.Socket) → Steps n (t, w) (t, close_fd n o w)
  unfolding close_fd
  close_fd-Steps t w none = done
  close_fd-Steps t w (some s) = socket (closing w s) done

  pub reset-Runs : (i : ℕ) (v : Server p n) → Runs v (connection_reset i v)
  unfolding connection_reset
  reset-Runs i v = record {
    steps = close_fd-Steps v.transfer v.world (client v i).fd;
    sized = λ o s. set-Sized v.clients i no_connection (no_connection-InBounds n.Socket) s;
  }

  -- A branch may use what the test gave.
  pub decide-Runs :
      {v x y : Server p n} (b : Bool)
      → (b ≡ true → Runs v x)
      → (b ≡ false → Runs v y)
      → Runs v (if b then x else y)
  decide-Runs true r s = r refl
  decide-Runs false r s = s refl

  pub response-Runs :
      (i status : ℕ) (reason content_type body : Bytes) (v : Server p n)
      → Runs v (response i status reason content_type body v)
  unfolding response
  response-Runs i status reason content_type body v =
      let text = response_text status reason content_type body in
      decide-Runs (ltb tx_capacity (length text)) (λ h. reset-Runs i v)
        (λ h.
          put-Runs i (record (client v i) { tx = text; tx_sent = 0; mode = writing_response }) v
            (λ o f. (f.0, (ground arith), (omega arith), f.3, f.4)))

  pub empty-Runs :
      (i status : ℕ) (reason : Bytes) (v : Server p n) → Runs v (empty_response i status reason v)
  unfolding empty_response
  empty-Runs i status reason v = response-Runs i status reason _ [] v

  pub message-Runs :
      (i status : ℕ) (reason message : Bytes) (v : Server p n)
      → Runs v (message_response i status reason message v)
  unfolding message_response
  message-Runs i status reason message v = response-Runs i status reason _ message v

  pub abort-Runs :
      (i : ℕ) (reason : Bytes) (now : ℕ) (v : Server p n) → Runs v (abort_connection i reason now v)
  unfolding abort_connection
  abort-Runs i reason now v =
      let c = client v i in
      if-Runs
        ((is_waiting c.mode || is_streaming c.mode || c.owns_prepare_session)
          && is_busy v.transfer.state)
        (cancelled-Runs v reason now) (stay v)
      then reset-Runs i _

  pub rejected-Runs : {v u : Server p n} → Runs v u → Runs v (rejected u)
  rejected-Runs {v} {u} r = r then same u (rejected u) refl refl

  pub handled-Runs : {v u : Server p n} → Runs v u → Runs v (handled u)
  handled-Runs {v} {u} r = r then same u (handled u) refl refl
