-- ===== src/Settings.antt =====
-- source/settings.c: the text of a settings file, what it may say, and what is written. The files
-- themselves are left out: a text stands for a file that is read and closed without an error.
pub mod Alias
pub mod RoundTrip
mod Tests
use localsend3ds.Prelude.{
  ℕ, zero, suc, ◌+◌, ◌-◌, Bool, true, false, ◌&&◌, ◌||◌, not, Option, none, some, [], ◌∷◌, ◌++◌,
  Bytes, ltb, leb, ◌==◌, within, if◌then◌else◌, length, codes, str_eq, is_empty,
}
use localsend3ds.Protocol.Device.{alias_capacity}
use localsend3ds.Utf8.{sequence}
use localsend3ds.Http.Text.{split_at}

-- `LsSettings`
pub record Settings : Type 0 where
  pub alias : Bytes
  pub quick_save : Bool
  pub auto_finish : Bool

-- A byte of the alias: whether it shows something, and how many bytes of its sequence follow it.
abbrev pub wide : Option (ℕ × ℕ) → Option (Bool × ℕ)
wide none = none
wide (some (count, codepoint)) = if within 0x80 0x9f codepoint then none else some (true, count - 1)

unfoldable pub alias_byte : ℕ → Bytes → Option (Bool × ℕ)
alias_byte c rest =
    if ltb c 0x80
    then (if ltb c 0x20 || c == 0x7f then none else some (not (c == b' ') && not (c == 9), 0))
    else wide (sequence c rest)

abbrev pub showing : Bool → Option Bool → Option Bool
showing shows none = none
showing shows (some later) = some (shows || later)

-- The loop of `valid_alias`, over the bytes to pass over: whether something shows, or `none` for a
-- text that is refused.
unfoldable pub alias_loop : ℕ → Bytes → Option Bool
alias_loop skip [] = some false
alias_loop (suc skip) (c ∷ cs) = alias_loop skip cs
alias_loop zero (c ∷ cs) = elim (alias_byte c cs) [
  | none ↦ none
  | some (shows, skip) ↦ showing shows (alias_loop skip cs)
]

abbrev pub holds : Option Bool → Bool
holds none = false
holds (some b) = b

-- `valid_alias`
unfoldable pub valid_alias : Bytes → Bool
unfolding alias_loop
valid_alias alias =
    not (is_empty alias) && ltb (length alias) alias_capacity && holds (alias_loop 0 alias)

-- `ls_settings_defaults`
abbrev pub defaults : Settings
defaults = record { alias = codes "LocalSend 3DS"; quick_save = false; auto_finish = true }

-- `ls_settings_set_alias`; `none` is the result false.
unfoldable pub set_alias : Settings → Bytes → Option Settings
set_alias s alias = if valid_alias alias then some (record s { alias = alias }) else none

unfoldable pub parse_boolean : Bytes → Option Bool
parse_boolean value =
    if str_eq value (codes "0") || str_eq value (codes "false")
    then some false
    else if str_eq value (codes "1") || str_eq value (codes "true")
    then some true
    else none

-- `fgets`: a line with its line break, of at most so many bytes; whether the end of the file was met;
-- and what follows.
unfoldable pub fgets : ℕ → Bytes → Bytes × Bool × Bytes
fgets zero s = ([], false, s)
fgets (suc room) [] = ([], true, [])
fgets (suc room) (c ∷ cs) =
    let (line, eof, rest) = fgets room cs in
    if c == 10 then (c ∷ [], false, cs) else (c ∷ line, eof, rest)

-- A text up to its NUL.
unfoldable pub to_nul : Bytes → Bytes
to_nul [] = []
to_nul (c ∷ cs) = let rest = to_nul cs in if c == 0 then [] else c ∷ rest

-- The line without the line breaks at its end.
unfoldable pub trim_breaks : Bytes → Bytes
trim_breaks [] = []
trim_breaks (c ∷ cs) =
    let rest = trim_breaks cs in if (c == 10 || c == 13) && is_empty rest then [] else c ∷ rest

abbrev pub ends_line : Bytes → Bool
ends_line [] = false
ends_line (c ∷ []) = c == 10
ends_line (c ∷ d ∷ ds) = ends_line (d ∷ ds)

-- The fields that were seen, and the settings so far.
pub record Loading : Type 0 where
  pub version : Bool
  pub device_name : Bool
  pub quick : Bool
  pub finish : Bool
  pub loaded : Settings

unfoldable pub with_alias : Loading → Option Settings → Option Loading
with_alias l none = none
with_alias l (some s) =
    if l.device_name then none else some (record l { device_name = true; loaded = s })

unfoldable pub with_quick : Loading → Option Bool → Option Loading
with_quick l none = none
with_quick l (some b) =
    if l.quick
    then none
    else some (record l { quick = true; loaded = record l.loaded { quick_save = b } })

unfoldable pub with_finish : Loading → Option Bool → Option Loading
with_finish l none = none
with_finish l (some b) =
    if l.finish
    then none
    else some (record l { finish = true; loaded = record l.loaded { auto_finish = b } })

-- A line with a name and a value; `none` is an invalid file.
unfoldable pub field : Loading → Bytes → Bytes → Option Loading
unfolding with_alias with_quick with_finish
field l name value =
    if str_eq name (codes "version")
    then (if str_eq value (codes "1") && not l.version
        then some (record l { version = true })
        else none)
    else if str_eq name (codes "device_name")
    then with_alias l (set_alias l.loaded value)
    else if str_eq name (codes "quick_save")
    then with_quick l (parse_boolean value)
    else if str_eq name (codes "auto_finish")
    then with_finish l (parse_boolean value)
    else some l

abbrev pub split_field : Loading → Option (Bytes × Bytes) → Option Loading
split_field l none = none
split_field l (some (name, value)) = field l name value

abbrev pub starts_comment : Bytes → Bool
starts_comment [] = true
starts_comment (c ∷ cs) = c == b'#'

-- A line that was read.
unfoldable pub line_read : Loading → Bytes → Bool → Option Loading
line_read l line eof =
    let text = to_nul line in
    let trimmed = trim_breaks text in
    if not (is_empty text) && not (ends_line text) && not eof
    then none
    else if starts_comment trimmed
    then some l
    else split_field l (split_at b'=' trimmed)

-- The loop of `load_settings_file`, on fuel: each line takes a byte at least.
unfoldable pub lines_loop : ℕ → Loading → Bytes → Option Loading
lines_loop fuel l [] = some l
lines_loop zero l (c ∷ cs) = none
lines_loop (suc fuel) l (c ∷ cs) =
    let (line, eof, rest) = fgets 255 (c ∷ cs) in
    elim (line_read l line eof) [ none ↦ none | some next ↦ lines_loop fuel next rest ]

abbrev pub all_fields : Option Loading → Option Settings
all_fields none = none
all_fields (some l) =
    if l.version && l.device_name && l.quick && l.finish then some l.loaded else none

abbrev pub nothing_loaded : Loading
nothing_loaded = record {
  version = false;
  device_name = false;
  quick = false;
  finish = false;
  loaded = defaults;
}

-- `load_settings_file` on the text of a file; `none` is `SETTINGS_LOAD_INVALID`.
unfoldable pub load_text : Bytes → Option Settings
unfolding lines_loop
load_text s = all_fields (lines_loop (length s) nothing_loaded s)

abbrev pub digit_of : Bool → Bytes
digit_of true = codes "1"
digit_of false = codes "0"

-- What `ls_settings_save` writes.
unfoldable pub settings_text : Settings → Bytes
settings_text s =
    codes "version=1\n"
    ++ (codes "device_name="
        ++ (s.alias
            ++ (codes "\nquick_save="
                ++ (digit_of s.quick_save
                    ++ (codes "\nauto_finish=" ++ (digit_of s.auto_finish ++ codes "\n"))))))
