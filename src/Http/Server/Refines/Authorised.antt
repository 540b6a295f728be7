-- ===== src/Http/Server/Refines/Authorised.antt =====
-- Who may upload: `handle_upload_start`.
use localsend3ds.Prelude.{
  ℕ, ◌<◌, ◌≡◌, refl, false, not, ◌&&◌, ◌⊎◌, inl, inr, Bool-cases, Bytes, length, codes, ltb,
}
use localsend3ds.Platform.{Platform}
use localsend3ds.Protocol.{session_id_capacity, file_id_capacity, file_token_capacity}
use localsend3ds.Protocol.Write.{decimal}
use localsend3ds.Transfer.{accepted, validate_upload}
use localsend3ds.Transfer.Credentials.{validate_upload_iff}
use localsend3ds.Http.Network.{Network}
use localsend3ds.Http.Query.{QueryResult, query_missing, query_invalid, query_ok, query_value}
use localsend3ds.Http.Request.{Request}
use localsend3ds.Http.Server.{
  Server, writing_response, client, put, rejected, response_text, plain_text, message_response,
  response, tx_capacity,
}
use localsend3ds.Http.Server.Routes.{missing_parameters, with_credentials, handle_upload_start}

module _ {p : Platform} {n : Network p} where
  -- The transfer was accepted, and the connection and its request carry what it was accepted with.
  pub record Authorised (v : Server p n) (i : ℕ) (q : Request) : Type 0 where
    pub is_accepted : v.transfer.state ≡ accepted
    pub address : v.transfer.sender_ip ≡ (client v i).peer_ip
    pub session :
        query_value q.target (codes "sessionId") session_id_capacity
        ≡ query_ok v.transfer.session_id
    pub file :
        query_value q.target (codes "fileId") file_id_capacity ≡ query_ok v.transfer.metadata.id
    pub token :
        query_value q.target (codes "token") file_token_capacity ≡ query_ok v.transfer.file_token

  -- The server with an error answer queued for a connection, and nothing else changed but the count.
  abbrev pub answered : ℕ → ℕ → Bytes → Bytes → Server p n → Server p n
  answered i status reason message v = rejected (
      put i
        (record (client v i) {
          tx = response_text status reason plain_text message;
          tx_sent = 0;
          mode = writing_response;
        })
        v)

  message_fits :
      (i status : ℕ) (reason message : Bytes) (v : Server p n)
      → ltb tx_capacity (length (response_text status reason plain_text message)) ≡ false
      → rejected (message_response i status reason message v) ≡ answered i status reason message v
  unfolding message_response response
  message_fits i status reason message v h = rw h refl

  missing_lem :
      (i : ℕ) (v : Server p n)
      → missing_parameters i v ≡ answered i 400 (codes "Bad Request") (codes "Missing parameters") v
  unfolding missing_parameters response_text decimal
  missing_lem i v = message_fits i 400 (codes "Bad Request") (codes "Missing parameters") v refl

  forbidden_lem :
      (i : ℕ) (v : Server p n)
      → rejected
          (message_response i 403 (codes "Forbidden") (codes "Invalid token or IP address") v)
        ≡ answered i 403 (codes "Forbidden") (codes "Invalid token or IP address") v
  unfolding response_text decimal
  forbidden_lem i v =
      message_fits i 403 (codes "Forbidden") (codes "Invalid token or IP address") v refl

  -- What an upload request comes to: an answer 400 or 403 and nothing else, or the credentials.
  abbrev pub Judged : Server p n → ℕ → Request → Server p n → Type 0
  Judged v i q u =
      (u ≡ answered i 400 (codes "Bad Request") (codes "Missing parameters") v)
      ⊎ ((u ≡ answered i 403 (codes "Forbidden") (codes "Invalid token or IP address") v)
          ⊎ Authorised v i q)

  checked-Judged :
      (i : ℕ) (q : Request) (initial : Bytes) (now : ℕ) (session file token : Bytes)
      (v : Server p n)
      → length v.transfer.session_id < session_id_capacity
      → length v.transfer.metadata.id < file_id_capacity
      → length v.transfer.file_token < file_token_capacity
      → query_value q.target (codes "sessionId") session_id_capacity ≡ query_ok session
      → query_value q.target (codes "fileId") file_id_capacity ≡ query_ok file
      → query_value q.target (codes "token") file_token_capacity ≡ query_ok token
      → Judged v i q
          (with_credentials i q initial now (query_ok session) (query_ok file) (query_ok token) v)
  unfolding with_credentials
  checked-Judged i q initial now session file token v hs hf ht es ef et =
      elim (Bool-cases (validate_upload v.transfer (client v i).peer_ip session file token)) [
        | inl h ↦
            let (a, b, c, d, e) =
              (validate_upload_iff v.transfer (client v i).peer_ip session file token hs hf ht).0
                h in
            inr (
              inr record {
                is_accepted = a;
                address = b;
                session = rw c es;
                file = rw d ef;
                token = rw e et;
              })
        | inr h ↦ inr (inl (rw h (forbidden_lem i v)))
      ]

  credentials-Judged :
      (i : ℕ) (q : Request) (initial : Bytes) (now : ℕ) (a b c : QueryResult) (v : Server p n)
      → length v.transfer.session_id < session_id_capacity
      → length v.transfer.metadata.id < file_id_capacity
      → length v.transfer.file_token < file_token_capacity
      → query_value q.target (codes "sessionId") session_id_capacity ≡ a
      → query_value q.target (codes "fileId") file_id_capacity ≡ b
      → query_value q.target (codes "token") file_token_capacity ≡ c
      → Judged v i q (with_credentials i q initial now a b c v)
  unfolding with_credentials
  credentials-Judged i q s now (query_ok x) (query_ok y) (query_ok z) v hs hf ht ea eb ec =
      checked-Judged i q s now x y z v hs hf ht ea eb ec
  credentials-Judged i q s now query_missing b c v hs hf ht ea eb ec = inl (missing_lem i v)
  credentials-Judged i q s now query_invalid b c v hs hf ht ea eb ec = inl (missing_lem i v)
  credentials-Judged i q s now (query_ok x) query_missing c v hs hf ht ea eb ec =
      inl (missing_lem i v)
  credentials-Judged i q s now (query_ok x) query_invalid c v hs hf ht ea eb ec =
      inl (missing_lem i v)
  credentials-Judged i q s now (query_ok x) (query_ok y) query_missing v hs hf ht ea eb ec =
      inl (missing_lem i v)
  credentials-Judged i q s now (query_ok x) (query_ok y) query_invalid v hs hf ht ea eb ec =
      inl (missing_lem i v)

  -- Where the stored identifiers fit their buffers, an upload request is answered 400 or 403, with
  -- nothing changed but that connection's answer and the count of rejected requests, unless the
  -- transfer was accepted, from this address, and the query gives its session, file and token.
  pub handle_upload_start-Judged :
      (i : ℕ) (q : Request) (initial : Bytes) (now : ℕ) (v : Server p n)
      → length v.transfer.session_id < session_id_capacity
      → length v.transfer.metadata.id < file_id_capacity
      → length v.transfer.file_token < file_token_capacity
      → Judged v i q (handle_upload_start i q initial now v)
  unfolding handle_upload_start
  handle_upload_start-Judged i q initial now v hs hf ht =
      elim (Bool-cases (not q.has_content_length && not q.chunked)) [
        | inl h ↦ rw h (inl (missing_lem i v))
        | inr h ↦ rw h (
            credentials-Judged i q initial now
              (query_value q.target (codes "sessionId") session_id_capacity)
              (query_value q.target (codes "fileId") file_id_capacity)
              (query_value q.target (codes "token") file_token_capacity) v hs hf ht refl refl refl)
      ]
