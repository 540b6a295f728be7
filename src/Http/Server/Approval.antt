-- ===== src/Http/Server/Approval.antt =====
-- The user's decision on a prepare request, and a local cancellation.
use localsend3ds.Prelude.{
  ℕ, zero, suc, Bool, true, false, ◌&&◌, ◌||◌, not, ◌==◌, Option, none, some, List, [], ◌∷◌, Bytes,
  if◌then◌else◌, codes,
}
use localsend3ds.Platform.{Platform}
use localsend3ds.Protocol.Write.{write_prepare_upload_response}
use localsend3ds.Transfer
use localsend3ds.Transfer.{is_busy}
use localsend3ds.Http.Network.{Network}
use localsend3ds.Http.Server.{
  Connection, Server, is_waiting, is_streaming, max_connections, client, put, handled, rejected,
  after, json_type, connection_reset, response, empty_response, message_response,
}

abbrev pub is_open : {S : Type 0} → Option S → Bool
is_open none = false
is_open (some s) = true

-- A connection that belongs to the transfer.
abbrev pub takes_part : {S : Type 0} → Connection S → Bool
takes_part c = is_open c.fd && (is_streaming c.mode || is_waiting c.mode || c.owns_prepare_session)

-- `waiting_approval_connection`, from an index on.
unfoldable pub waiting_from : {S : Type 0} → ℕ → List (Connection S) → Option ℕ
waiting_from i [] = none
waiting_from i (c ∷ cs) =
    let rest = waiting_from (suc i) cs in if is_open c.fd && is_waiting c.mode then some i else rest

abbrev pub is_index : ℕ → Option ℕ → Bool
is_index k none = false
is_index k (some i) = k == i

module _ {p : Platform} {n : Network p} where
  -- No session could be made.
  unfoldable pub no_session : ℕ → ℕ → Server p n → Bool × Server p n
  no_session i now v =
      let failed =
        if is_busy v.transfer.state
        then after
            (Transfer.fail p v.transfer (codes "Could not create upload session") now v.world) v
        else v in
      (false, rejected (empty_response i 500 (codes "Internal Server Error") failed))

  -- The session is announced to the sender.
  unfoldable pub answer_sender : ℕ → ℕ → Option Bytes → Server p n → Bool × Server p n
  unfolding no_session
  answer_sender i now none v = no_session i now v
  answer_sender i now (some body) v = (
    true,
    handled (
        response i 200 (codes "OK") json_type body
          (put i (record (client v i) { owns_prepare_session = true }) v)),
  )

  unfoldable pub decided : ℕ → ℕ → Server p n → Bool × Server p n
  unfolding answer_sender no_session
  decided i now v =
      let (ok, a) = Transfer.accept p v.transfer v.download_directory now v.world in
      let u = after a v in
      if ok
      then answer_sender i now
          (write_prepare_upload_response u.transfer.session_id u.transfer.metadata.id
            u.transfer.file_token 512)
          u
      else no_session i now u

  unfoldable pub accept_at : ℕ → Option ℕ → Server p n → Bool × Server p n
  unfolding decided
  accept_at now none v = (
    false,
    after (Transfer.cancel p v.transfer (codes "Sender disconnected before approval") now v.world)
        v,
  )
  accept_at now (some i) v =
      decided i now (put i (record (client v i) { last_activity_ms = now }) v)

  -- `ls_http_server_accept_transfer`
  unfoldable pub accept_transfer : ℕ → Server p n → Bool × Server p n
  unfolding accept_at
  accept_transfer now v =
      if Transfer.is_waiting v.transfer.state
      then accept_at now (waiting_from 0 v.clients) v
      else (false, v)

  unfoldable pub reject_at : ℕ → Option ℕ → Server p n → Server p n
  reject_at now none v = v
  reject_at now (some i) v = handled (
      message_response i 403 (codes "Forbidden") (codes "Rejected")
        (put i (record (client v i) { last_activity_ms = now }) v))

  -- `ls_http_server_reject_transfer`
  unfoldable pub reject_transfer : ℕ → Server p n → Bool × Server p n
  unfolding reject_at
  reject_transfer now v =
      if Transfer.is_waiting v.transfer.state
      then (
        true,
        reject_at now (waiting_from 0 v.clients)
            (record v { transfer = Transfer.reject v.transfer now }),
      )
      else (false, v)

  -- Such connections are ended, from `k` indices on downwards, but for one of a given index.
  unfoldable pub reset_others : Option ℕ → ℕ → Server p n → Server p n
  reset_others spared zero v = v
  reset_others spared (suc k) v =
      let u = reset_others spared k v in
      if takes_part (client u k) && not (is_index k spared) then connection_reset k u else u

  -- `ls_http_server_cancel_transfer`
  unfoldable pub cancel_transfer : ℕ → Server p n → Bool × Server p n
  unfolding reset_others
  cancel_transfer now v =
      if is_busy v.transfer.state
      then (
        true,
        reset_others none max_connections
            (after (Transfer.cancel p v.transfer (codes "Cancelled locally") now v.world) v),
      )
      else (false, v)
