-- ===== src/Settings/Tests.antt =====
-- Settings files.
use localsend3ds.Prelude.{◌≡◌, refl, true, false, none, some, [], codes}
use localsend3ds.Settings.{
  Settings, load_text, settings_text, valid_alias, alias_loop, alias_byte, lines_loop,
}
use localsend3ds.Settings.RoundTrip.{load_text-settings_text}

abbrev chosen : Settings
chosen = record { alias = codes "My 3DS"; quick_save = true; auto_finish = false }

empty_file : load_text [] ≡ none
unfolding load_text lines_loop
empty_file = refl

load_text-settings_text_example : load_text (settings_text chosen) ≡ some chosen
unfolding valid_alias alias_loop alias_byte
load_text-settings_text_example = load_text-settings_text chosen refl
