-- ===== src/Http/Response/Tests.antt =====
-- Responses that come in pieces.
use localsend3ds.Prelude.{◌≡◌, refl, arith, [], ◌∷◌, ◌++◌, Bytes, codes}
use localsend3ds.Json.Cursor.{strip_prefix}
use localsend3ds.Http.Text.{find_bytes, here_or}
use localsend3ds.Http.Response.{feed, finish, evaluate, evaluate_header}
use localsend3ds.Http.Response.Bounds.{InBounds}
use localsend3ds.Http.Response.Bounds.Calls.{feeds, finish-InBounds}
use localsend3ds.Http.Response.Chunked.{need_more}
use localsend3ds.Http.Response.Head.{init}
use localsend3ds.Http.Response.Pieces.{feed-append}

abbrev head : Bytes
head = codes "HTTP/1.1 200 OK\r\nContent-Le"

abbrev rest : Bytes
rest = codes "ngth: 3\r\n\r\nabc"

waits : (feed init head).0 ≡ need_more
unfolding feed evaluate evaluate_header find_bytes here_or strip_prefix
waits = refl

feed-append_example : feed (feed init head).1 rest ≡ feed init (head ++ rest)
feed-append_example = feed-append head rest (omega arith) waits

finish-InBounds_example :
    InBounds (feeds (head ∷ rest ∷ []) init) × InBounds (finish (feeds (head ∷ rest ∷ []) init)).1
finish-InBounds_example = finish-InBounds (head ∷ rest ∷ [])
