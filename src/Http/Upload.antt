-- ===== src/Http/Upload.antt =====
-- The requests that source/outgoing_transfer.c writes with the identifiers of a session, and what the
-- server of source/http_server.c reads in them.
pub mod Head
pub mod RoundTrip
mod Tests
use localsend3ds.Prelude.{
  ℕ, ◌*◌, Option, none, some, ◌++◌, Bytes, leb, if◌then◌else◌, length, codes,
}
use localsend3ds.Protocol.{session_id_capacity, file_id_capacity, file_token_capacity}
use localsend3ds.Protocol.Write.{decimal}
use localsend3ds.Http.Query.{query_encode}

abbrev pub request_capacity : ℕ
request_capacity = 4096

-- The target of an upload, by what its identifiers are written as.
unfoldable pub upload_target : Bytes → Bytes → Bytes → Bytes
upload_target session file token =
    codes "/api/localsend/v2/upload?sessionId="
    ++ (session ++ (codes "&fileId=" ++ (file ++ (codes "&token=" ++ token))))

abbrev pub fitting : Bytes → Option Bytes
fitting s = if leb request_capacity (length s) then none else some s

unfoldable pub upload_text :
    Bytes → ℕ → ℕ → Option Bytes → Option Bytes → Option Bytes → Option Bytes
unfolding upload_target
upload_text ip port size (some session) (some file) (some token) = fitting (
    codes "POST "
    ++ (upload_target session file token
        ++ (codes " HTTP/1.1\r\nHost: "
            ++ (ip
                ++ (codes ":"
                    ++ (decimal port
                        ++ (codes "\r\nContent-Type: application/octet-stream\r\nContent-Length: "
                            ++ (decimal size ++ codes "\r\nConnection: close\r\n\r\n"))))))))
upload_text ip port size _ _ _ = none

-- `build_upload_request`; `none` is the result false.
unfoldable pub build_upload_request : Bytes → Bytes → Bytes → Bytes → ℕ → ℕ → Option Bytes
unfolding upload_text
build_upload_request session_id file_id file_token ip port size =
    upload_text ip port size (query_encode session_id (session_id_capacity * 3))
      (query_encode file_id (file_id_capacity * 3))
      (query_encode file_token (file_token_capacity * 3))
