-- ===== src/Filesystem.antt =====
-- source/filesystem.c: names that are safe on the card, and paths that are free.
pub mod Names
pub mod Paths
mod Tests
use localsend3ds.Prelude.{
  ℕ, zero, suc, ◌+◌, ◌-◌, Bool, true, false, not, ◌&&◌, ◌||◌, Option, none, some, [], ◌∷◌, ◌++◌,
  Bytes, ltb, leb, ◌==◌, if◌then◌else◌, length, take, codes, str_eq, is_empty,
}
use localsend3ds.Utf8.{sequence}
use localsend3ds.Platform.{Platform}
use localsend3ds.Protocol.Write.{decimal}

-- `LsFilenameResult` but for `LS_FILENAME_OK`.
pub data FilenameError : Type 0 where
  empty too_long invalid_utf8 path_escape invalid_character : FilenameError

-- `LS_FILENAME_OK` with the output, or the error.
pub data Sanitized : Type 0 where
  clean : Bytes → Sanitized
  refused : FilenameError → Sanitized

abbrev pub prepend : ℕ → Sanitized → Sanitized
prepend c (clean out) = clean (c ∷ out)
prepend c (refused e) = refused e

-- The bytes that the card's file system does not take become `_`.
unfoldable pub substitute : ℕ → ℕ
substitute c =
    if c == b'<' || c == b'>' || c == b':' || c == b'"' || c == b'|' || c == b'?' || c == b'*'
    then b'_'
    else c

-- How a round of the loop of `ls_filename_sanitize` ends: with an error, or with the byte to write
-- and the number of bytes behind it that are copied.
pub data Verdict : Type 0 where
  stop : FilenameError → Verdict
  copy : ℕ → ℕ → Verdict

copy_sequence : ℕ → Option (ℕ × ℕ) → Verdict
copy_sequence c none = stop invalid_utf8
copy_sequence c (some (count, cp)) = copy c (count - 1)

unfoldable pub judge : ℕ → Bytes → Verdict
unfolding substitute copy_sequence
judge c cs =
    if c == b'/' || c == b'\\'
    then stop path_escape
    else if ltb c 0x20 || c == 0x7f
    then stop invalid_character
    else if ltb c 0x80
    then copy (substitute c) 0
    else copy_sequence c (sequence c cs)

unfoldable pub sanitize_loop : ℕ → Bytes → Sanitized
sanitize_loop skip [] = clean []
sanitize_loop (suc skip) (c ∷ cs) = prepend c (sanitize_loop skip cs)
sanitize_loop zero (c ∷ cs) = elim (judge c cs) [
  | stop e ↦ refused e
  | copy out skip ↦ prepend out (sanitize_loop skip cs)
]

-- `output[length - 1]`
abbrev pub last_byte : Bytes → ℕ
last_byte [] = 0
last_byte (c ∷ []) = c
last_byte (c ∷ d ∷ ds) = last_byte (d ∷ ds)

abbrev pub is_dots : Bytes → Bool
is_dots s = str_eq s (codes ".") || str_eq s (codes "..")

-- The tests behind the loop.
check_output : Sanitized → Sanitized
check_output (refused e) = refused e
check_output (clean out) =
    if last_byte out == b' ' || last_byte out == b'.'
    then refused invalid_character
    else if is_empty out || is_dots out
    then refused empty
    else clean out

-- `ls_filename_sanitize`
unfoldable pub sanitize : Bytes → ℕ → Sanitized
unfolding check_output
sanitize input capacity =
    if capacity == 0 || is_empty input
    then refused empty
    else if leb capacity (length input)
    then refused too_long
    else if is_dots input
    then refused path_escape
    else check_output (sanitize_loop 0 input)

-- The last index of a byte, as `strrchr` finds it.
abbrev pub later : Option ℕ → ℕ → Bool → Option ℕ
later (some k) i b = some k
later none i true = some i
later none i false = none

unfoldable pub last_index : ℕ → ℕ → Bytes → Option ℕ
last_index wanted i [] = none
last_index wanted i (c ∷ cs) = later (last_index wanted (suc i) cs) i (c == wanted)

-- `split_extension`: the length of the stem.
stem_length : Option ℕ → Bytes → ℕ
stem_length none name = length name
stem_length (some zero) name = length name
stem_length (some (suc k)) name = suc k

unfoldable pub split_extension : Bytes → ℕ
unfolding stem_length last_index
split_extension name = stem_length (last_index b'.' 0 name) name

abbrev pub from_index : ℕ → Bytes → Bytes
from_index zero s = s
from_index (suc n) [] = []
from_index (suc n) (c ∷ cs) = from_index n cs

-- The path that is tried after `collision` paths that are taken.
unfoldable pub candidate : Bytes → Bytes → ℕ → Bytes
candidate directory name zero = directory ++ (b'/' ∷ name)
candidate directory name (suc k) =
    directory
    ++ (b'/'
        ∷ (take (split_extension name) name
            ++ (codes " ("
                ++ (decimal (suc k) ++ (b')' ∷ from_index (split_extension name) name)))))

abbrev pub part_of : Bytes → Bytes
part_of final = final ++ codes ".part"

-- The loop of `ls_filesystem_select_paths`, by the rounds that are left. `none` is the result
-- false; the paths are `final_path` and `part_path`, which have one capacity here.
unfoldable pub select_loop : (Bytes → Bool) → Bytes → Bytes → ℕ → ℕ → ℕ → Option (Bytes × Bytes)
select_loop exists directory name capacity zero collision = none
select_loop exists directory name capacity (suc left) collision =
    let rest = select_loop exists directory name capacity left (suc collision) in
    let final = candidate directory name collision in
    if leb capacity (length final)
    then none
    else if leb capacity (length (part_of final))
    then none
    else if not (exists final) && not (exists (part_of final))
    then some (final, part_of final)
    else rest

abbrev pub max_collisions : ℕ
max_collisions = 10000

-- `ls_filesystem_select_paths`
unfoldable pub select_paths : (Bytes → Bool) → Bytes → Bytes → ℕ → Option (Bytes × Bytes)
select_paths exists directory name capacity =
    if is_empty directory || is_empty name
    then none
    else select_loop exists directory name capacity max_collisions 0

abbrev pub path_capacity : ℕ
path_capacity = 512

-- `length > 1 && copy[length - 1] == '/'`: the path without the slashes at its end.
unfoldable pub trim_slashes : ℕ → Bytes → Bytes
trim_slashes zero path = path
trim_slashes (suc fuel) path =
    let shorter = trim_slashes fuel (take (length path - 1) path) in
    if ltb 1 (length path) && last_byte path == b'/' then shorter else path

module _ (p : Platform) where
  open p use {World, mkdir, is_directory}

  unfoldable pub ensure_one_directory : World → Bytes → Bool × World
  ensure_one_directory w path =
      let (made, existed, w') = mkdir w path in (made || existed && is_directory w' path, w')

  -- The loop of `ls_filesystem_ensure_directory`: `before` is `copy[0 .. i)`, and the list is the
  -- rest. A slash behind a colon starts no directory.
  unfoldable pub ensure_loop : World → Bytes → Bytes → Bool × World
  unfolding ensure_one_directory
  ensure_loop w before [] = (true, w)
  ensure_loop w before (c ∷ cs) =
      let go_on = ensure_loop w (before ++ c ∷ []) cs in
      if not (c == b'/') || last_byte before == b':'
      then go_on
      else let (done, w') = ensure_one_directory w before in
        let deeper = ensure_loop w' (before ++ c ∷ []) cs in if done then deeper else (false, w')

  -- The parents, from `copy[1]` on, then the directory itself.
  unfoldable pub ensure_all : World → Bytes → Bool × World
  ensure_all w [] = (false, w)
  ensure_all w (c ∷ cs) =
      let (done, w') = ensure_loop w (c ∷ []) cs in
      if done then ensure_one_directory w' (c ∷ cs) else (false, w')

  -- `ls_filesystem_ensure_directory`
  unfoldable pub ensure_directory : World → Bytes → Bool × World
  unfolding ensure_all ensure_loop
  ensure_directory w path =
      if is_empty path || leb path_capacity (length path)
      then (false, w)
      else ensure_all w (trim_slashes (length path) path)
