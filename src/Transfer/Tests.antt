-- ===== src/Transfer/Tests.antt =====
-- One upload of two chunks to a card in memory, which already holds a file of the same name.
use localsend3ds.Prelude.{
  ◌≡◌, refl, true, false, none, some, List, [], ◌∷◌, Bytes, codes, str_eq, arith, if◌then◌else◌,
  ◌↔◌,
}
use localsend3ds.Device.{Device, mobile, http}
use localsend3ds.Platform.Card.{Card, card, card-Reliable}
use localsend3ds.Sha256
use localsend3ds.Transfer.{
  PrepareUploadRequest, Transfer, accepted, success, init, begin_stream, write, finish,
  compare_loop, constant_time_equal, validate_upload,
}
use localsend3ds.Transfer.Calls.{
  Call, begin_request_call, accept_call, begin_stream_call, write_call, finish_call, history,
  receive, upload, join,
}
use localsend3ds.Transfer.Invariant.{Inv, history-Inv}
use localsend3ds.Transfer.Spared.{history-kept}
use localsend3ds.Transfer.Credentials.{constant_time_equal_lem, validate_upload_iff}
use localsend3ds.Transfer.Received.{Delivered, upload-Delivered}

abbrev phone : Device
phone = record {
  alias = codes "Phone";
  version = codes "2.1";
  device_model = [];
  device_type = mobile;
  fingerprint = codes "f";
  ip_address = [];
  port = 53317;
  protocol = http;
  download = false;
  announce = false;
  last_seen_ms = 0;
}

abbrev request : PrepareUploadRequest
request = record {
  sender = phone;
  file = record {
    id = codes "id";
    file_name = codes "a.txt";
    size = 3;
    file_type = codes "text/plain";
    has_sha256 = true;
    sha256 = codes "ba7816bf8f01cfea414140de5dae2223b00361a396177a9cb410ff61f20015ad";
  };
}

abbrev directory : Bytes
directory = codes "sdmc:/in"

-- The file of that name that is there before.
abbrev old : Bytes
old = codes "sdmc:/in/a.txt"

abbrev full_card : Card
full_card = (λ q. if str_eq q old then some (codes "old") else none, λ h. [])

abbrev calls : List Call
calls =
    begin_request_call request (codes "10.0.0.2") 1
    ∷ accept_call directory 2
    ∷ begin_stream_call 3 true 3
    ∷ write_call (codes "ab") 4
    ∷ write_call (codes "c") 5
    ∷ finish_call 6
    ∷ []

history-Inv_example : Inv (history card calls init full_card).0
history-Inv_example = history-Inv card calls full_card

history-kept_example : (history card calls init full_card).1.0 old ≡ some (codes "old")
unfolding str_eq
history-kept_example = history-kept card card-Reliable old (codes "old") calls full_card refl

constant_time_equal_example :
    constant_time_equal (codes "ab") 65 (codes "abc") ≡ str_eq (codes "ab") (codes "abc")
constant_time_equal_example = constant_time_equal_lem (codes "ab") 65 (codes "abc") (omega arith)

-- A transfer that the user accepted.
abbrev consented : Transfer Bytes
consented = record {
  state = accepted;
  sender = some phone;
  sender_ip = codes "10.0.0.2";
  metadata = request.file;
  safe_file_name = codes "a.txt";
  session_id = codes "s";
  file_token = codes "t";
  final_path = codes "sdmc:/in/a (1).txt";
  part_path = codes "sdmc:/in/a (1).txt.part";
  error = [];
  received_bytes = 0;
  state_changed_ms = 2;
  last_activity_ms = 2;
  file = none;
  owns_part_file = false;
  sha256 = Sha256.init;
}

validate_upload_example :
    (validate_upload consented (codes "10.0.0.2") (codes "s") (codes "id") (codes "t") ≡ true) ↔ (
      (accepted ≡ accepted)
      × (codes "10.0.0.2" ≡ codes "10.0.0.2")
      × (codes "s" ≡ codes "s")
      × (codes "id" ≡ codes "id")
      × (codes "t" ≡ codes "t"))
validate_upload_example =
    validate_upload_iff consented (codes "10.0.0.2") (codes "s") (codes "id") (codes "t")
      (omega arith) (omega arith) (omega arith)

abbrev chunks : List Bytes
chunks = codes "ab" ∷ codes "c" ∷ []

uploaded : (upload card consented 3 true chunks 3 full_card).0 ≡ success
unfolding upload receive begin_stream write finish str_eq constant_time_equal Sha256.init
    Sha256.update Sha256.update_loop Sha256.flush Sha256.finish Sha256.hex Sha256.transform
    compare_loop
uploaded = refl

upload-Delivered_example :
    Delivered card card-Reliable request.file
      (codes "sdmc:/in/a (1).txt")
      (upload card consented 3 true chunks 3 full_card).1
      (join chunks)
upload-Delivered_example =
    upload-Delivered card card-Reliable consented 3 true chunks 3 full_card refl uploaded
