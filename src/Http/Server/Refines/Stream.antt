-- ===== src/Http/Server/Refines/Stream.antt =====
-- The body of an upload: `process_stream_data`.
use localsend3ds.Prelude.{
  ℕ, arith, ◌≡◌, zero, suc, ◌-◌, Bool, true, false, ◌||◌, not, refl, [], ◌∷◌, Bytes, ltb, ◌==◌,
  if◌then◌else◌, length, take, drop, codes,
}
use localsend3ds.Platform.{Platform}
use localsend3ds.Transfer
use localsend3ds.Transfer.{FinishResult, success, size_mismatch, checksum_mismatch, io_error}
use localsend3ds.Transfer.Calls.{write_call, finish_call, perform}
use localsend3ds.Http.Network.{Network}
use localsend3ds.Http.Server.Bounds.Chunks.{framing_byte-InBounds}
use localsend3ds.Http.Server.{
  Server, Connection, UploadEncoding, upload_length, upload_chunked, is_streaming, client, put,
  after, rejected, empty_response,
}
use localsend3ds.Http.Server.Stream.{
  ChunkStep, goes_on, finished, malformed, framing_byte, in_data, consume, finish_result,
  stream_finish, stream_bad_request, write_chunk, chunked_loop, process_chunked_data,
  process_length_data, process_stream_data,
}
use localsend3ds.Http.Server.Refines.{
  Runs, stay, put-Runs, ◌then◌, by_call, if-Runs, ifs-Runs, empty-Runs, message-Runs, rejected-Runs,
  handled-Runs, failed-Runs,
}

module _ {p : Platform} {n : Network p} where
  result-Runs : (i : ℕ) (x : FinishResult) (v : Server p n) → Runs v (finish_result i x v)
  unfolding finish_result
  result-Runs i success v = handled-Runs (empty-Runs i 200 (codes "OK") v)
  result-Runs i checksum_mismatch v =
      rejected-Runs
        (message-Runs i 422 (codes "Unprocessable Entity") (codes "Checksum mismatch") v)
  result-Runs i size_mismatch v = rejected-Runs (empty-Runs i 500 (codes "Internal Server Error") v)
  result-Runs i io_error v = rejected-Runs (empty-Runs i 500 (codes "Internal Server Error") v)

  finished-Runs :
      (v : Server p n) (now : ℕ) → Runs v (after (Transfer.finish p v.transfer now v.world).1 v)
  unfolding perform
  finished-Runs v now = by_call (finish_call now) v

  pub stream_finish-Runs : (i now : ℕ) (v : Server p n) → Runs v (stream_finish i now v)
  unfolding stream_finish
  stream_finish-Runs i now v =
      finished-Runs v now then result-Runs i (Transfer.finish p v.transfer now v.world).0 _

  bad_request-Runs :
      (i : ℕ) (m : Bytes) (now : ℕ) (v : Server p n) → Runs v (stream_bad_request i m now v)
  unfolding stream_bad_request
  bad_request-Runs i m now v =
      failed-Runs v m now
      then rejected-Runs (
          empty-Runs i 400 (codes "Bad Request")
            (after (Transfer.fail p v.transfer m now v.world) v))

  written-Runs :
      (v : Server p n) (s : Bytes) (now : ℕ)
      → Runs v (after (Transfer.write p v.transfer s now v.world).1 v)
  unfolding perform
  written-Runs v s now = by_call (write_call s now) v

  pub write_chunk-Runs :
      (i : ℕ) (s : Bytes) (now : ℕ) (v : Server p n) → Runs v (write_chunk i s now v).1
  unfolding write_chunk
  write_chunk-Runs i s now v =
      let u = after (Transfer.write p v.transfer s now v.world).1 v in
      let on = put i (consume (client u i) (length s)) u in
      let off = rejected (empty_response i 500 (codes "Internal Server Error") u) in
      let good = (Transfer.write p v.transfer s now v.world).0 in
      ifs-Runs (false, stream_bad_request i (codes "Upload exceeded declared file size") now v)
        (if good then (true, on) else (false, off))
        (ltb v.transfer.metadata.size v.transfer.received_bytes
          || ltb (v.transfer.metadata.size - v.transfer.received_bytes) (length s))
        (bad_request-Runs i (codes "Upload exceeded declared file size") now v)
        (written-Runs v s now
          then ifs-Runs (true, on) (false, off) good
              (put-Runs i (consume (client u i) (length s)) u
                (λ o f. (f.0, f.1, f.2, f.3, λ h. ground arith)))
              (rejected-Runs (empty-Runs i 500 (codes "Internal Server Error") u)))

  bool-Runs :
      {v x y : Server p n} (b : Bool)
      → Runs v x
      → Runs v y
      → Runs v (elim b [ false ↦ y | true ↦ x ])
  bool-Runs true r s = r
  bool-Runs false r s = s

  step-Runs :
      {v y : Server p n} (f : Connection n.Socket → Server p n) (g : Bytes → Server p n)
      (x : ChunkStep n.Socket)
      → ((c : Connection n.Socket) → x ≡ goes_on c → Runs v (f c))
      → Runs v y
      → ((m : Bytes) → Runs v (g m))
      → Runs v (elim x [ goes_on c ↦ f c | finished ↦ y | malformed m ↦ g m ])
  step-Runs f g (goes_on c) on end off = on c refl
  step-Runs f g finished on end off = end
  step-Runs f g (malformed m) on end off = off m

  chunked-Runs :
      (fuel i : ℕ) (s : Bytes) (now : ℕ) (v : Server p n) → Runs v (chunked_loop fuel i s now v)
  unfolding chunked_loop
  chunked-Runs zero i s now v = stay v
  chunked-Runs (suc fuel) i [] now v = stay v
  chunked-Runs (suc fuel) i (value ∷ rest) now v =
      let amount = (client v i).chunk_remaining in
      let w = write_chunk i (take amount (value ∷ rest)) now v in
      bool-Runs (is_streaming (client v i).mode)
        (bool-Runs (in_data (client v i).chunk_state)
          (write_chunk-Runs i (take amount (value ∷ rest)) now v
            then if-Runs w.0 (chunked-Runs fuel i (drop amount (value ∷ rest)) now w.1) (stay w.1))
          (step-Runs (λ c. chunked_loop fuel i rest now (put i c v))
            (λ m. stream_bad_request i m now v) (framing_byte (client v i) value rest)
            (λ c e.
              put-Runs i c v (λ o f. framing_byte-InBounds (client v i) value rest e f)
              then chunked-Runs fuel i rest now (put i c v))
            (stream_finish-Runs i now v) (λ m. bad_request-Runs i m now v)))
        (stay v)

  length-Runs :
      (i : ℕ) (s : Bytes) (now : ℕ) (v : Server p n) → Runs v (process_length_data i s now v)
  unfolding process_length_data
  length-Runs i s now v =
      let good = (Transfer.write p v.transfer s now v.world).0 in
      let u = after (Transfer.write p v.transfer s now v.world).1 v in
      let left = (client u i).body_remaining - length s in
      let w = put i (record (client u i) { body_remaining = left }) u in
      if-Runs (ltb (client v i).body_remaining (length s))
        (bad_request-Runs i (codes "Upload body exceeded Content-Length") now v)
        (written-Runs v s now
          then if-Runs (not good)
              (rejected-Runs (empty-Runs i 500 (codes "Internal Server Error") u))
              (put-Runs i (record (client u i) { body_remaining = left }) u (λ o f. f)
                then if-Runs (left == 0) (stream_finish-Runs i now w) (stay w)))

  encoding-Runs :
      {v x y : Server p n} (e : UploadEncoding)
      → Runs v x
      → Runs v y
      → Runs v (elim e [ upload_chunked ↦ x | upload_length ↦ y ])
  encoding-Runs upload_chunked r s = r
  encoding-Runs upload_length r s = s

  pub stream_data-Runs :
      (i : ℕ) (s : Bytes) (now : ℕ) (v : Server p n) → Runs v (process_stream_data i s now v)
  unfolding process_stream_data process_chunked_data
  stream_data-Runs i s now v =
      encoding-Runs (client v i).upload_encoding (chunked-Runs (length s) i s now v)
        (length-Runs i s now v)
