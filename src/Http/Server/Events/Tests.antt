-- ===== src/Http/Server/Events/Tests.antt =====
-- A server over a card in memory, with a network on which every peer sends the same request.
use localsend3ds.Prelude.{
  ℕ, ◌≡◌, refl, ◌≤◌, zero, suc, true, false, none, some, List, [], ◌∷◌, ◌++◌, Bytes, codes, str_eq,
  arith, length, take, if◌then◌else◌,
}
use localsend3ds.Device.{Device, mobile, http}
use localsend3ds.Platform.Card.{Card, card, card-Reliable}
use localsend3ds.Transfer.Invariant.{Inv}
use localsend3ds.Http.Network.{Network, Orderly, Polite, peer, bytes, taken}
use localsend3ds.Http.Server.{
  Server, Connection, no_connection, put, streaming_upload, upload_chunked, chunk_data,
}
use localsend3ds.Http.Server.Events.{Event, updating, accepting, stopping, started, run}
use localsend3ds.Http.Request.{Request}
use localsend3ds.Transfer.{init}
use localsend3ds.Http.Server.Routes.{handle_upload_start}
use localsend3ds.Http.Server.Stream.{process_chunked_data}
use localsend3ds.Http.Server.Refines.Fuel.{Halts, process_chunked_data-Halts}
use localsend3ds.Http.Server.Refines.Authorised.{Judged, handle_upload_start-Judged}
use localsend3ds.Http.Server.Events.Steps.{run-Steps}
use localsend3ds.Http.Server.Events.Safety.{run-Inv, run-kept, run-Sized}
use localsend3ds.Http.Server.Bounds.{Sized, set-Sized}
use localsend3ds.Http.Server.Refines.{Steps, view}

abbrev prepare : Bytes
prepare =
    codes "POST /api/localsend/v2/prepare-upload HTTP/1.1\r\nContent-Length: 225\r\n\r\n"
    ++ codes
        "{\"info\":{\"alias\":\"Phone\",\"version\":\"2.1\",\"deviceModel\":\"P\",\"deviceType\":\"mobile\",\"fingerprint\":\"f\",\"port\":53317,\"protocol\":\"http\",\"download\":false},\"files\":{\"a\":{\"id\":\"a\",\"fileName\":\"a.txt\",\"size\":3,\"fileType\":\"text/plain\"}}}"

abbrev network : Network card
network = record {
  Socket = ℕ;
  accept = λ w. (peer 7 true (some (codes "10.0.0.2")), w);
  recv = λ w s k. (bytes (take k prepare), w);
  send = λ w s d. (taken (length d), w);
  close = λ w s. w;
}

take_fits : (k : ℕ) (s : Bytes) → length (take k s) ≤ k
take_fits zero s = omega arith
take_fits (suc k) [] = omega arith
take_fits (suc k) (x ∷ s) = let further = take_fits k s in omega arith

abbrev network-Orderly : Orderly card network card-Reliable
network-Orderly = record {
  accept_frame = λ w q c k. k;
  recv_frame = λ w s m q c k. k;
  send_frame = λ w s d q c k. k;
  close_frame = λ w s q c k. k;
}

abbrev network-Polite : Polite card network
network-Polite = record {
  recv_fits = λ w s k. take_fits k prepare;
  send_takes = λ w s d. omega arith;
}

abbrev console : Device
console = record {
  alias = codes "Console";
  version = codes "2.1";
  device_model = codes "3DS";
  device_type = mobile;
  fingerprint = codes "g";
  ip_address = [];
  port = 53317;
  protocol = http;
  download = false;
  announce = false;
  last_seen_ms = 0;
}

-- The file that is there before.
abbrev old : Bytes
old = codes "sdmc:/in/a.txt"

abbrev full_card : Card
full_card = (λ q. if str_eq q old then some (codes "old") else none, λ h. [])

abbrev events : List Event
events = updating console 10 ∷ accepting 20 ∷ updating console 30 ∷ stopping ∷ []

abbrev server : Server card network
server = started (codes "sdmc:/in") [] full_card

run-Steps_example : Steps network (view server) (view (run events server))
run-Steps_example = run-Steps events server

run-Inv_example : Inv (run events server).transfer
run-Inv_example = run-Inv network (codes "sdmc:/in") [] full_card events

run-kept_example : (run events server).world.0 old ≡ some (codes "old")
unfolding str_eq
run-kept_example =
    run-kept card-Reliable network-Orderly old (codes "old") (codes "sdmc:/in") [] full_card events
      refl

run-Sized_example : Sized (run events server).clients
run-Sized_example = run-Sized network network-Polite (codes "sdmc:/in") [] full_card events

server-Sized : Sized server.clients
unfolding run
server-Sized = run-Sized network network-Polite (codes "sdmc:/in") [] full_card []

-- The first connection, in the middle of a chunked body.
abbrev in_body : Connection ℕ
in_body = record no_connection {
  fd = some 7;
  mode = streaming_upload;
  upload_encoding = upload_chunked;
  chunk_remaining = 1;
  chunk_state = chunk_data;
}

streaming-Sized : Sized (put 0 in_body server).clients
streaming-Sized =
    set-Sized server.clients 0 in_body
      ((omega arith), (omega arith), (omega arith), (omega arith), (λ h. omega arith)) server-Sized

process_chunked_data-Halts_example :
    Halts 0 5
      (codes "a\r\n")
      (put 0 in_body server)
      (process_chunked_data 0 (codes "a\r\n") 5 (put 0 in_body server))
process_chunked_data-Halts_example =
    process_chunked_data-Halts network-Polite 0 (codes "a\r\n") 5 (put 0 in_body server)
      streaming-Sized

abbrev upload : Request
upload = record {
  method = codes "POST";
  target = codes "/api/localsend/v2/upload?sessionId=s&fileId=f&token=t";
  content_length = 3;
  has_content_length = true;
  chunked = false;
}

handle_upload_start-Judged_example :
    Judged server 0 upload (handle_upload_start 0 upload (codes "abc") 5 server)
unfolding started init
handle_upload_start-Judged_example =
    handle_upload_start-Judged 0 upload (codes "abc") 5 server (omega arith) (omega arith)
      (omega arith)
