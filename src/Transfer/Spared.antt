-- ===== src/Transfer/Spared.antt =====
-- Whole histories of the incoming transfer, and the files that were there before them.
use localsend3ds.Prelude.{◌≡◌, some, List, [], ◌∷◌, Bytes}
use localsend3ds.Platform.{Platform, Reliable}
use localsend3ds.Transfer.{Transfer, init}
use localsend3ds.Transfer.Calls.{
  Call, begin_request_call, accept_call, reject_call, begin_stream_call, write_call, finish_call,
  fail_call, cancel_call, perform, history,
}
use localsend3ds.Transfer.Invariant.{Inv, init-Inv, perform-Inv}
use localsend3ds.Transfer.Files.{
  Spared, fail-Spared, cancel-Spared, begin_request-Spared, reject-Spared, accept-Spared,
  begin_stream-Spared, write-Spared, finish-Spared,
}

module _ (p : Platform) (r : Reliable p) (q c : Bytes) where
  open p use {World, File}
  open r use {content}

  pub perform-Spared :
      (call : Call) {t : Transfer File} {w : World}
      → Inv t
      → Spared p r q c t w
      → Spared p r q c (perform p call t w).0 (perform p call t w).1
  unfolding perform
  perform-Spared (begin_request_call request ip now) v s =
      begin_request-Spared p r q c request ip now s
  perform-Spared (accept_call directory now) v s = accept-Spared p r q c directory now s
  perform-Spared (reject_call now) v s = reject-Spared p r q c now s
  perform-Spared (begin_stream_call declared has now) v s =
      begin_stream-Spared p r q c declared has now s
  perform-Spared (write_call bytes now) v s = write-Spared p r q c bytes now s
  perform-Spared (finish_call now) v s = finish-Spared p r q c now v.streaming s
  perform-Spared (fail_call m now) v s = fail-Spared p r q c m now s
  perform-Spared (cancel_call m now) v s = cancel-Spared p r q c m now s

  histories-Spared :
      (calls : List Call) {t : Transfer File} {w : World}
      → Inv t
      → Spared p r q c t w
      → Spared p r q c (history p calls t w).0 (history p calls t w).1
  unfolding history
  histories-Spared [] v s = s
  histories-Spared (call ∷ calls) {t} {w} v s =
      histories-Spared calls (perform-Inv p call t w v) (perform-Spared call v s)

  pub init-Spared : {w : World} → content w q ≡ some c → Spared p r q c init w
  unfolding init
  init-Spared k = record { kept = k; not_part = λ h. cc; not_open = λ f h. cc }

  -- A file that was there at the start is there, with the same content, after any calls on the
  -- incoming transfer in any order, where the system's calls touch no file but those they name.
  pub history-kept :
      (calls : List Call) (w : World)
      → content w q ≡ some c
      → content (history p calls init w).1 q ≡ some c
  history-kept calls w k = (histories-Spared calls (init-Inv p) (init-Spared k)).kept
