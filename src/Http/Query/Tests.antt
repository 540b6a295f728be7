-- ===== src/Http/Query/Tests.antt =====
-- Queries and their values.
use localsend3ds.Prelude.{◌≡◌, refl, some, [], ◌∷◌, ◌++◌, codes, arith, str_eq}
use localsend3ds.Json.Cursor.{hex_value}
use localsend3ds.Http.Text.{split_at}
use localsend3ds.Http.Query.{
  percent_decode, query_encode, query_ok, query_value, query_loop, query_behind, parameter,
  parameter_named, parameter_split, next_parameter, decode_loop, encode_loop, decoded_byte,
  encoded_byte, is_safe,
}
use localsend3ds.Http.Query.RoundTrip.{percent_decode-query_encode}
use localsend3ds.Http.Query.Parameters.{Param, IsParam, query_text, query_value-query_text}

decoded : query_value (codes "/u?a=%2Fx&b=1") (codes "a") 9 ≡ query_ok (codes "/x")
unfolding str_eq query_value query_behind query_loop percent_decode decode_loop decoded_byte
    parameter parameter_named parameter_split next_parameter is_safe hex_value split_at
decoded = refl

percent_decode-query_encode_example : percent_decode 9 (codes "a%2Fb") ≡ some (codes "a/b")
unfolding query_encode encode_loop encoded_byte is_safe
percent_decode-query_encode_example =
    percent_decode-query_encode (codes "a/b") 20 9 (ground arith) refl (omega arith)

abbrev session : Param
session = record { name = codes "sessionId"; value = codes "s/1" }

abbrev file : Param
file = record { name = codes "fileId"; value = codes "f" }

session-IsParam : IsParam session
unfolding is_safe
session-IsParam = record {
  safe = (ground arith);
  name_fits = omega arith;
  printable = (ground arith);
}

file-IsParam : IsParam file
unfolding is_safe
file-IsParam = record { safe = (ground arith); name_fits = omega arith; printable = (ground arith) }

query_value-query_text_example :
    query_value (codes "/upload" ++ (b'?' ∷ query_text (session ∷ file ∷ []))) (codes "fileId") 129
    ≡ query_ok (codes "f")
unfolding str_eq
query_value-query_text_example =
    query_value-query_text (codes "/upload") 129 (session ∷ []) file [] (ground arith)
      (session-IsParam, tt) file-IsParam tt (refl, tt) tt (omega arith) refl
