-- ===== src/Filesystem/Tests.antt =====
-- A name with a character that the card refuses, and a destination that is taken.
use localsend3ds.Prelude.{◌<◌, refl, codes, Bytes, Bool, str_eq}
use localsend3ds.Protocol.Write.{decimal, decimal_digits}
use localsend3ds.Filesystem.{
  sanitize, sanitize_loop, judge, substitute, select_paths, select_loop, candidate, split_extension,
  last_index,
}
use localsend3ds.Filesystem.Names.{IsSafe, sanitize-IsSafe}
use localsend3ds.Filesystem.Paths.{IsFree, select_paths-IsFree}

sanitize-IsSafe_example : IsSafe (codes "a:b.txt") (codes "a_b.txt") × (7 < 256)
unfolding sanitize sanitize_loop judge substitute str_eq
sanitize-IsSafe_example = sanitize-IsSafe (codes "a:b.txt") 256 refl

-- Only `in/a.txt` is there.
abbrev exists : Bytes → Bool
exists q = str_eq q (codes "in/a.txt")

select_paths-IsFree_example :
    IsFree exists
      (codes "in")
      (codes "a.txt")
      512
      0
      (codes "in/a (1).txt")
      (codes "in/a (1).txt.part")
unfolding select_paths select_loop candidate split_extension last_index decimal decimal_digits
    str_eq
select_paths-IsFree_example = select_paths-IsFree exists (codes "in") (codes "a.txt") 512 refl
