-- ===== src/Transfer/Calls.antt =====
-- A history of the incoming transfer: any calls, in any order, with any answers of the system.
use localsend3ds.Prelude.{ℕ, Bool, true, false, ◌&&◌, if◌then◌else◌, Bytes, List, [], ◌∷◌, ◌++◌}
use localsend3ds.Platform.{Platform}
use localsend3ds.Transfer.{
  Transfer, FinishResult, io_error, PrepareUploadRequest, After, begin_request, accept, reject,
  begin_stream, write, finish, fail, cancel,
}

-- A call of transfer.h that changes the transfer, with its arguments.
pub data Call : Type 0 where
  begin_request_call : PrepareUploadRequest → Bytes → ℕ → Call
  accept_call : Bytes → ℕ → Call
  reject_call : ℕ → Call
  begin_stream_call : ℕ → Bool → ℕ → Call
  write_call : Bytes → ℕ → Call
  finish_call : ℕ → Call
  fail_call : Bytes → ℕ → Call
  cancel_call : Bytes → ℕ → Call

-- The chunks one behind the other.
abbrev pub join : List Bytes → Bytes
join [] = []
join (chunk ∷ chunks) = chunk ++ join chunks

module _ (p : Platform) where
  open p use {World, File}

  unfoldable pub perform : Call → Transfer p.File → p.World → After p
  perform (begin_request_call request ip now) t w = (begin_request p t request ip now w).1
  perform (accept_call directory now) t w = (accept p t directory now w).1
  perform (reject_call now) t w = (reject t now, w)
  perform (begin_stream_call declared has now) t w = (begin_stream p t declared has now w).1
  perform (write_call bytes now) t w = (write p t bytes now w).1
  perform (finish_call now) t w = (finish p t now w).1
  perform (fail_call message now) t w = fail p t message now w
  perform (cancel_call message now) t w = cancel p t message now w

  unfoldable pub history : List Call → Transfer p.File → p.World → After p
  history [] t w = (t, w)
  history (call ∷ calls) t w = let (t', w') = perform call t w in history calls t' w'

  -- The calls of one upload: the stream is begun, each chunk written and the transfer finished, up
  -- to the first failure.
  unfoldable pub receive : List Bytes → Transfer File → ℕ → World → Bool × After p
  receive [] t now w = (true, (t, w))
  receive (chunk ∷ chunks) t now w =
      let (ok, (t', w')) = write p t chunk now w in
      let rest = receive chunks t' now w' in if ok then rest else (false, (t', w'))

  unfoldable pub upload : Transfer File → ℕ → Bool → List Bytes → ℕ → World → FinishResult × After p
  unfolding receive
  upload t declared has chunks now w =
      let (begun, (t1, w1)) = begin_stream p t declared has now w in
      let (received, (t2, w2)) = receive chunks t1 now w1 in
      if begun && received then finish p t2 now w2 else (io_error, (t2, w2))
