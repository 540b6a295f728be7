-- ===== src/Http/Server/Refines/Approval.antt =====
-- The user's decision, and the connections that it ends.
use localsend3ds.Prelude.{
  ℕ, zero, suc, true, false, ◌&&◌, not, Option, none, some, Bytes, if◌then◌else◌, codes,
}
use localsend3ds.Platform.{Platform}
use localsend3ds.Protocol.Write.{write_prepare_upload_response}
use localsend3ds.Transfer
use localsend3ds.Transfer.{is_busy}
use localsend3ds.Transfer.Calls.{accept_call, reject_call, perform}
use localsend3ds.Http.Network.{Network}
use localsend3ds.Http.Server.{Server, max_connections, client, put, after, json_type}
use localsend3ds.Http.Server.Approval.{
  takes_part, is_index, waiting_from, no_session, answer_sender, decided, accept_at,
  accept_transfer, reject_at, reject_transfer, reset_others, cancel_transfer,
}
use localsend3ds.Http.Server.Refines.{
  Runs, stay, put-Runs, ◌then◌, by_call, if-Runs, ifs-Runs, reset-Runs, response-Runs, empty-Runs,
  message-Runs, rejected-Runs, handled-Runs, failed-Runs, cancelled-Runs,
}

module _ {p : Platform} {n : Network p} where
  no_session-Runs : (i now : ℕ) (v : Server p n) → Runs v (no_session i now v).1
  unfolding no_session
  no_session-Runs i now v =
      let failed =
        after (Transfer.fail p v.transfer (codes "Could not create upload session") now v.world)
          v in
      if-Runs (is_busy v.transfer.state)
        (failed-Runs v (codes "Could not create upload session") now) (stay v)
      then rejected-Runs (
          empty-Runs i 500 (codes "Internal Server Error")
            (if is_busy v.transfer.state then failed else v))

  answer_sender-Runs :
      (i now : ℕ) (o : Option Bytes) (v : Server p n) → Runs v (answer_sender i now o v).1
  unfolding answer_sender
  answer_sender-Runs i now none v = no_session-Runs i now v
  answer_sender-Runs i now (some body) v =
      let u = put i (record (client v i) { owns_prepare_session = true }) v in
      put-Runs i (record (client v i) { owns_prepare_session = true }) v (λ o f. f)
      then handled-Runs (response-Runs i 200 (codes "OK") json_type body u)

  decided-Runs : (i now : ℕ) (v : Server p n) → Runs v (decided i now v).1
  unfolding decided perform
  decided-Runs i now v =
      let a = Transfer.accept p v.transfer v.download_directory now v.world in
      let u = after a.1 v in
      let body =
        write_prepare_upload_response u.transfer.session_id u.transfer.metadata.id
          u.transfer.file_token 512 in
      by_call (accept_call v.download_directory now) v
      then ifs-Runs (answer_sender i now body u) (no_session i now u) a.0
          (answer_sender-Runs i now body u) (no_session-Runs i now u)

  accept_at-Runs : (now : ℕ) (o : Option ℕ) (v : Server p n) → Runs v (accept_at now o v).1
  unfolding accept_at
  accept_at-Runs now none v = cancelled-Runs v (codes "Sender disconnected before approval") now
  accept_at-Runs now (some i) v =
      let u = put i (record (client v i) { last_activity_ms = now }) v in
      put-Runs i (record (client v i) { last_activity_ms = now }) v (λ o f. f)
      then decided-Runs i now u

  pub accept-Runs : (now : ℕ) (v : Server p n) → Runs v (accept_transfer now v).1
  unfolding accept_transfer
  accept-Runs now v =
      ifs-Runs (accept_at now (waiting_from 0 v.clients) v) (false, v)
        (Transfer.is_waiting v.transfer.state) (accept_at-Runs now (waiting_from 0 v.clients) v)
        (stay v)

  reject_at-Runs : (now : ℕ) (o : Option ℕ) (v : Server p n) → Runs v (reject_at now o v)
  unfolding reject_at
  reject_at-Runs now none v = stay v
  reject_at-Runs now (some i) v =
      let u = put i (record (client v i) { last_activity_ms = now }) v in
      put-Runs i (record (client v i) { last_activity_ms = now }) v (λ o f. f)
      then handled-Runs (message-Runs i 403 (codes "Forbidden") (codes "Rejected") u)

  pub reject-Runs : (now : ℕ) (v : Server p n) → Runs v (reject_transfer now v).1
  unfolding reject_transfer perform
  reject-Runs now v =
      let u = record v { transfer = Transfer.reject v.transfer now } in
      let o = waiting_from 0 v.clients in
      ifs-Runs (true, reject_at now o u) (false, v) (Transfer.is_waiting v.transfer.state)
        (by_call (reject_call now) v then reject_at-Runs now o u) (stay v)

  pub others-Runs : (o : Option ℕ) (k : ℕ) (v : Server p n) → Runs v (reset_others o k v)
  unfolding reset_others
  others-Runs o zero v = stay v
  others-Runs o (suc k) v =
      let u = reset_others o k v in
      others-Runs o k v
      then if-Runs (takes_part (client u k) && not (is_index k o)) (reset-Runs k u) (stay u)

  pub cancel-Runs : (now : ℕ) (v : Server p n) → Runs v (cancel_transfer now v).1
  unfolding cancel_transfer
  cancel-Runs now v =
      let u = after (Transfer.cancel p v.transfer (codes "Cancelled locally") now v.world) v in
      ifs-Runs (true, reset_others none max_connections u) (false, v) (is_busy v.transfer.state)
        (cancelled-Runs v (codes "Cancelled locally") now then others-Runs none max_connections u)
        (stay v)
