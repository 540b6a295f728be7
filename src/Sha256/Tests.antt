-- ===== src/Sha256/Tests.antt =====
-- The digest of "abc" (FIPS 180-4).
use localsend3ds.Prelude.{◌≡◌, refl, codes, ◌++◌, arith}
use localsend3ds.Sha256.Stream.{update-update}
use localsend3ds.Sha256.{init, flush, update, transform, finish, hex}

abc :
    hex (finish (update init (codes "abc")))
    ≡ codes "ba7816bf8f01cfea414140de5dae2223b00361a396177a9cb410ff61f20015ad"
unfolding init update flush transform finish hex
abc = refl

update-update_example :
    update (update init (codes "ab")) (codes "c") ≡ update init (codes "ab" ++ codes "c")
unfolding init
update-update_example = update-update init (codes "ab") (codes "c") (omega arith)
