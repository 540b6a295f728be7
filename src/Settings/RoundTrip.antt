-- ===== src/Settings/RoundTrip.antt =====
-- What is written is loaded again.
use localsend3ds.Prelude.{
  ℕ, zero, suc, ◌<◌, ◌≡◌, refl, ap, ◌∙◌, arith, Bool, true, false, ◌&&◌, not, Option, none, some,
  [], ◌∷◌, ◌++◌, Bytes, All, All-append, if◌then◌else◌, length, drop, codes, str_eq, is_empty,
}
use localsend3ds.Http.Text.{split_at}
use localsend3ds.Settings.{
  Settings, valid_alias, set_alias, fgets, to_nul, trim_breaks, ends_line, starts_comment,
  split_field, Loading, line_read, lines_loop, load_text, settings_text, digit_of, parse_boolean,
  field, all_fields, nothing_loaded, with_alias, with_quick, with_finish,
}
use localsend3ds.Settings.Alias.{Inside, valid_alias-Inside}

fgets_line :
    (room : ℕ) (s rest : Bytes)
    → All Inside s
    → length s < room
    → fgets room (s ++ (10 ∷ rest)) ≡ (s ++ (10 ∷ []), false, rest)
unfolding fgets
fgets_line zero s rest a l = absurd (omega arith)
fgets_line (suc room) [] rest a l = refl
fgets_line (suc room) (c ∷ cs) rest a l = rw (a.0.1, fgets_line room cs rest a.1 (omega arith)) refl

to_nul_line : (s : Bytes) → All Inside s → to_nul (s ++ (10 ∷ [])) ≡ s ++ (10 ∷ [])
unfolding to_nul
to_nul_line [] a = refl
to_nul_line (c ∷ cs) a = rw (a.0.0, to_nul_line cs a.1) refl

trim_breaks_line : (s : Bytes) → All Inside s → trim_breaks (s ++ (10 ∷ [])) ≡ s
unfolding trim_breaks
trim_breaks_line [] a = refl
trim_breaks_line (c ∷ cs) a = rw (a.0.1, a.0.2, trim_breaks_line cs a.1) refl

ends_line_lem : (s : Bytes) → ends_line (s ++ (10 ∷ [])) ≡ true
ends_line_lem [] = refl
ends_line_lem (c ∷ []) = refl
ends_line_lem (c ∷ d ∷ ds) = ends_line_lem (d ∷ ds)

never : {A : Type 0} (b : Bool) (x y : A) → (if b && false && true then x else y) ≡ y
never true x y = refl
never false x y = refl

line_read_lem :
    (l : Loading) (s : Bytes)
    → All Inside s
    → starts_comment s ≡ false
    → line_read l (s ++ (10 ∷ [])) false ≡ split_field l (split_at b'=' s)
unfolding line_read
line_read_lem l s a h =
    rw (to_nul_line s a, trim_breaks_line s a, ends_line_lem s, h)
      (never (not (is_empty (s ++ (10 ∷ [])))) none (split_field l (split_at b'=' s)))

goes_on_lem :
    (o : Option Loading) (f : Loading → Option Loading) {next : Loading}
    → o ≡ some next
    → elim o [ none ↦ none | some n ↦ f n ] ≡ f next
goes_on_lem o f e = rw e refl

-- A line of a file, that is no comment.
line_step :
    (fuel : ℕ) (l : Loading) (s rest : Bytes) {next : Loading}
    → All Inside s
    → length s < 255
    → starts_comment s ≡ false
    → split_field l (split_at b'=' s) ≡ some next
    → lines_loop (suc fuel) l (s ++ (10 ∷ rest)) ≡ lines_loop fuel next rest
unfolding lines_loop
line_step fuel l [] rest a b h e = cc h
line_step fuel l (c ∷ cs) rest {next} a b h e =
    let got = fgets 255 ((c ∷ cs) ++ (10 ∷ rest)) in
    let q = fgets_line 255 (c ∷ cs) rest a b in
    goes_on_lem (line_read l got.0 got.1) (λ n. lines_loop fuel n got.2)
      (ap (λ (t : Bytes × Bool × Bytes). line_read l t.0 t.1) q
        ∙ (line_read_lem l (c ∷ cs) a h ∙ e))
    ∙ ap (λ (t : Bytes × Bool × Bytes). lines_loop fuel next t.2) q

digit_field : (b : Bool) → parse_boolean (digit_of b) ≡ some b
unfolding parse_boolean str_eq
digit_field true = refl
digit_field false = refl

digit_of-Inside : (b : Bool) → All Inside (digit_of b)
digit_of-Inside true = ((refl, refl, refl), tt)
digit_of-Inside false = ((refl, refl, refl), tt)

abbrev versioned : Loading
versioned = record nothing_loaded { version = true }

abbrev named : Settings → Loading
named s = record versioned {
  device_name = true;
  loaded = record nothing_loaded.loaded { alias = s.alias };
}

abbrev quickened : Settings → Loading
quickened s = record (named s) {
  quick = true;
  loaded = record (named s).loaded { quick_save = s.quick_save };
}

abbrev whole : Settings → Loading
whole s = record (quickened s) { finish = true; loaded = s }

version_field : split_field nothing_loaded (split_at b'=' (codes "version=1")) ≡ some versioned
unfolding split_at field str_eq
version_field = refl

name_field :
    (s : Settings)
    → valid_alias s.alias ≡ true
    → split_field versioned (split_at b'=' (codes "device_name=" ++ s.alias)) ≡ some (named s)
unfolding split_at field str_eq with_alias set_alias
name_field s h = rw h refl

quick_field :
    (s : Settings)
    → split_field (named s) (split_at b'=' (codes "quick_save=" ++ digit_of s.quick_save))
      ≡ some (quickened s)
unfolding split_at field str_eq with_quick
quick_field s = rw (digit_field s.quick_save) refl

finish_field :
    (s : Settings)
    → split_field (quickened s) (split_at b'=' (codes "auto_finish=" ++ digit_of s.auto_finish))
      ≡ some (whole s)
unfolding split_at field str_eq with_finish
finish_field s = rw (digit_field s.auto_finish) refl

alias_fits : (s : Bytes) → valid_alias s ≡ true → length (codes "device_name=" ++ s) < 255
unfolding valid_alias
alias_fits s h = ground arith

digit_fits : (b : Bool) → length (digit_of b) ≡ 1
digit_fits true = refl
digit_fits false = refl

-- The four lines, with fuel to spare.
four_lines :
    (fuel : ℕ) (s : Settings)
    → valid_alias s.alias ≡ true
    → lines_loop (suc (suc (suc (suc fuel)))) nothing_loaded (settings_text s) ≡ some (whole s)
unfolding settings_text lines_loop
four_lines fuel s h =
    let inside = valid_alias-Inside s.alias h in
    let last = codes "auto_finish=" ++ (digit_of s.auto_finish ++ codes "\n") in
    let third = codes "quick_save=" ++ (digit_of s.quick_save ++ (10 ∷ last)) in
    let second = codes "device_name=" ++ (s.alias ++ (10 ∷ third)) in
    line_step (suc (suc (suc fuel))) nothing_loaded (codes "version=1") second (ground arith)
      (omega arith) refl version_field
    ∙ (line_step (suc (suc fuel)) versioned (codes "device_name=" ++ s.alias) third
          (All-append Inside (codes "device_name=") s.alias (ground arith) inside)
          (alias_fits s.alias h) refl (name_field s h)
        ∙ (line_step (suc fuel) (named s) (codes "quick_save=" ++ digit_of s.quick_save) last
              (All-append Inside (codes "quick_save=") (digit_of s.quick_save) (ground arith)
                (digit_of-Inside s.quick_save))
              (omega (arith, digit_fits s.quick_save)) refl (quick_field s)
            ∙ line_step fuel (quickened s) (codes "auto_finish=" ++ digit_of s.auto_finish) []
                (All-append Inside (codes "auto_finish=") (digit_of s.auto_finish) (ground arith)
                  (digit_of-Inside s.auto_finish))
                (omega (arith, digit_fits s.auto_finish)) refl (finish_field s)))

-- What `ls_settings_save` writes of settings with a valid alias, the loader reads back as the same
-- settings.
pub load_text-settings_text :
    (s : Settings) → valid_alias s.alias ≡ true → load_text (settings_text s) ≡ some s
unfolding load_text settings_text
load_text-settings_text s h = ap all_fields (four_lines (length (drop 4 (settings_text s))) s h)
