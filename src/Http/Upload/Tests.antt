-- ===== src/Http/Upload/Tests.antt =====
-- An upload request of the sender.
use localsend3ds.Prelude.{refl, arith, Option, none, some, [], Bytes, codes}
use localsend3ds.Http.Query.{query_encode, encode_loop, encoded_byte, is_safe}
use localsend3ds.Http.Upload.{build_upload_request, upload_text, upload_target}
use localsend3ds.Http.Upload.RoundTrip.{ReadsAs, build_upload_request-IsRead}
use localsend3ds.Protocol.Write.{decimal}

abbrev or_empty : Option Bytes → Bytes
or_empty none = []
or_empty (some s) = s

abbrev text : Bytes
text =
    or_empty (build_upload_request (codes "s/1") (codes "f") (codes "t") (codes "10.0.0.2") 53317 3)

build_upload_request-IsRead_example : ReadsAs (codes "s/1") (codes "f") (codes "t") 3 text
unfolding build_upload_request upload_text upload_target query_encode encode_loop encoded_byte
    is_safe decimal
build_upload_request-IsRead_example =
    build_upload_request-IsRead (codes "s/1") (codes "f") (codes "t") (codes "10.0.0.2") 53317 3
      (record { printable = (ground arith); not_empty = refl; fits = omega arith })
      (record { printable = (ground arith); not_empty = refl; fits = omega arith })
      (record { printable = (ground arith); not_empty = refl; fits = omega arith }) (ground arith)
      (omega arith) (omega arith) refl
