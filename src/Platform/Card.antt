-- ===== src/Platform/Card.antt =====
-- A card in memory: a platform that meets the laws, for the examples.
use localsend3ds.Prelude.{
  ℕ, zero, suc, ◌≡◌, ◌≢◌, refl, ◌∙◌, Bool, true, false, Option, none, some, [], ◌∷◌, ◌++◌, Bytes,
  if◌then◌else◌, Bool-cases, inl, inr, str_eq, str_eq_refl, eq_of_str_eq, length,
}
use localsend3ds.Platform.{Platform, Reliable}

abbrev is_some : Option Bytes → Bool
is_some none = false
is_some (some _) = true

-- A table from paths, changed at one of them.
abbrev put {ℓ} : {A : Type ℓ} → Bytes → A → (Bytes → A) → Bytes → A
put f v m q = if str_eq f q then v else m q

pub put_same {ℓ} : {A : Type ℓ} (f : Bytes) (v : A) (m : Bytes → A) → put f v m f ≡ v
put_same f v m = rw (str_eq_refl f) refl

pub put_other {ℓ} :
    {A : Type ℓ} (f : Bytes) (v : A) (m : Bytes → A) (q : Bytes) → f ≢ q → put f v m q ≡ m q
put_other f v m q n = elim (Bool-cases (str_eq f q)) [
  | inl e ↦ absurd (n (eq_of_str_eq f q e))
  | inr e ↦ rw e refl
]

-- The files, and the bytes given to each stream.
abbrev pub Card : Type 0
Card = (Bytes → Option Bytes) × (Bytes → Bytes)

abbrev sevens : ℕ → Bytes
sevens zero = []
sevens (suc n) = 7 ∷ sevens n

-- An exclusive open, over what is at the path and the card with the new file.
abbrev create : Option Bytes → Card → Card → Bool × Card
create none old new = (true, new)
create (some c) old new = (false, old)

abbrev pub card : Platform
card = record {
  World = Card;
  File = Bytes;
  errno = λ w. 0;
  path_exists = λ w q. is_some (w.0 q);
  is_directory = λ w q. true;
  mkdir = λ w q. (false, true, w);
  open_new = λ w q. create (w.0 q) w (put q (some []) w.0, w.1);
  fdopen = λ w q. (some q, (w.0, put q [] w.1));
  fwrite = λ w h d. (length d, (w.0, put h (w.1 h ++ d) w.1));
  fflush = λ w h. (true, w);
  fclose = λ w h. (true, (put h (some (w.1 h)) w.0, w.1));
  close = λ w q. w;
  unlink = λ w q. (put q none w.0, w.1);
  rename = λ w f g. (true, (put g (w.0 f) (put f none w.0), w.1));
  random_bytes = λ w n. (some (sevens n), w);
}

pub create_kept :
    (o : Option Bytes) (w : Card) (q f c : Bytes)
    → w.0 f ≡ o
    → w.0 q ≡ some c
    → (create o w (put f (some []) w.0, w.1)).1.0 q ≡ some c
create_kept (some b) w q f c e k = k
create_kept none w q f c e k = put_other f (some []) w.0 q (λ same. cc (e, k, same)) ∙ k

pub create_absent : (o : Option Bytes) (x y : Card) → (create o x y).0 ≡ true → o ≡ none
create_absent none x y h = refl
create_absent (some c) x y h = cc h

abbrev pub card-Reliable : Reliable card
card-Reliable = record {
  content = λ w q. w.0 q;
  stream = λ w h. w.1 h;
  path_of = λ h. h;
  content_exists = λ w q c k. rw k refl;
  mkdir_frame = λ w q d c k. k;
  open_new_frame = λ w q f c k. create_kept (w.0 f) w q f c refl k;
  open_new_fresh = λ w f. create_absent (w.0 f) w (put f (some []) w.0, w.1);
  fdopen_frame = λ w q f c k. k;
  fdopen_path = λ w f h e. cc e;
  fdopen_empty = λ w f h e. (let same : h ≡ f = cc e in rw same (put_same f [] w.1));
  fwrite_frame = λ w q d c h n k. k;
  fwrite_all = λ w h d e. put_same h (w.1 h ++ d) w.1;
  fflush_frame = λ w q c h n k. k;
  fclose_frame = λ w q c h n k. put_other h (some (w.1 h)) w.0 q n ∙ k;
  fclose_content = λ w h e e'. put_same h (some (w.1 h)) w.0;
  close_frame = λ w q f c k. k;
  unlink_frame = λ w q f c n k. put_other f none w.0 q n ∙ k;
  rename_frame = λ w q f g c nf ng k.
      put_other g (w.0 f) (put f none w.0) q ng ∙ put_other f none w.0 q nf ∙ k;
  rename_moves = λ w f g c e k. put_same g (w.0 f) (put f none w.0) ∙ k;
  random_frame = λ w n q c k. k;
}
