-- ===== src/Platform.antt =====
-- What the program calls of the C library, the system and the console: files, directories and
-- random numbers. All of it is a parameter. `World` is the state outside the program; a call gives
-- the world after it.
pub mod Card
use localsend3ds.Prelude.{
  ℕ, ◌+◌, ◌≡◌, ◌≢◌, Bool, true, false, Option, none, some, [], ◌++◌, Bytes, length,
}

pub record Platform : Type 1 where
  pub World : Type 0
  -- `FILE *`
  pub File : Type 0
  pub errno : World → ℕ
  -- `stat(path) == 0`, and `access(path, F_OK) == 0`
  pub path_exists : World → Bytes → Bool
  -- `stat(path) == 0` and `S_ISDIR`
  pub is_directory : World → Bytes → Bool
  -- `mkdir(path) == 0`; the second result is `errno == EEXIST`
  pub mkdir : World → Bytes → Bool × Bool × World
  -- `open(path, O_WRONLY | O_CREAT | O_EXCL) >= 0`
  pub open_new : World → Bytes → Bool × World
  -- `fdopen` on the descriptor of the file that was just opened at the path
  pub fdopen : World → Bytes → Option File × World
  -- `fwrite(data, 1, length, file)`: the number of bytes written
  pub fwrite : World → File → Bytes → ℕ × World
  -- `fflush(file) == 0`, `fclose(file) == 0`
  pub fflush : World → File → Bool × World
  pub fclose : World → File → Bool × World
  -- `close` on the descriptor of the file that was just opened at the path
  pub close : World → Bytes → World
  pub unlink : World → Bytes → World
  -- `rename(from, to) == 0`
  pub rename : World → Bytes → Bytes → Bool × World
  -- `ls_secure_random_bytes`: bytes, or a failure
  pub random_bytes : World → ℕ → Option Bytes × World

-- What the program relies on: a call touches the files that it names and no other, an exclusive
-- open creates its file, and a stream that was flushed and closed without an error is on the card.
pub record Reliable (p : Platform) : Type 0 where
  -- The content of a file, and the bytes given to a stream.
  pub content : p.World → Bytes → Option Bytes
  pub stream : p.World → p.File → Bytes
  pub path_of : p.File → Bytes
  pub content_exists : (w : p.World) (q c : Bytes) → content w q ≡ some c → p.path_exists w q ≡ true
  pub mkdir_frame :
      (w : p.World) (q d c : Bytes) → content w q ≡ some c → content (p.mkdir w d).2 q ≡ some c
  pub open_new_frame :
      (w : p.World) (q f c : Bytes) → content w q ≡ some c → content (p.open_new w f).1 q ≡ some c
  pub open_new_fresh : (w : p.World) (f : Bytes) → (p.open_new w f).0 ≡ true → content w f ≡ none
  pub fdopen_frame :
      (w : p.World) (q f c : Bytes) → content w q ≡ some c → content (p.fdopen w f).1 q ≡ some c
  pub fdopen_path :
      (w : p.World) (f : Bytes) (h : p.File) → (p.fdopen w f).0 ≡ some h → path_of h ≡ f
  pub fdopen_empty :
      (w : p.World) (f : Bytes) (h : p.File)
      → (p.fdopen w f).0 ≡ some h
      → stream (p.fdopen w f).1 h ≡ []
  pub fwrite_frame :
      (w : p.World) (q d c : Bytes) (h : p.File)
      → path_of h ≢ q
      → content w q ≡ some c
      → content (p.fwrite w h d).1 q ≡ some c
  pub fwrite_all :
      (w : p.World) (h : p.File) (d : Bytes)
      → (p.fwrite w h d).0 ≡ length d
      → stream (p.fwrite w h d).1 h ≡ stream w h ++ d
  pub fflush_frame :
      (w : p.World) (q c : Bytes) (h : p.File)
      → path_of h ≢ q
      → content w q ≡ some c
      → content (p.fflush w h).1 q ≡ some c
  pub fclose_frame :
      (w : p.World) (q c : Bytes) (h : p.File)
      → path_of h ≢ q
      → content w q ≡ some c
      → content (p.fclose w h).1 q ≡ some c
  pub fclose_content :
      (w : p.World) (h : p.File)
      → (p.fflush w h).0 ≡ true
      → (p.fclose (p.fflush w h).1 h).0 ≡ true
      → content (p.fclose (p.fflush w h).1 h).1 (path_of h) ≡ some (stream w h)
  pub close_frame :
      (w : p.World) (q f c : Bytes) → content w q ≡ some c → content (p.close w f) q ≡ some c
  pub unlink_frame :
      (w : p.World) (q f c : Bytes)
      → f ≢ q
      → content w q ≡ some c
      → content (p.unlink w f) q ≡ some c
  pub rename_frame :
      (w : p.World) (q f g c : Bytes)
      → f ≢ q
      → g ≢ q
      → content w q ≡ some c
      → content (p.rename w f g).1 q ≡ some c
  pub rename_moves :
      (w : p.World) (f g c : Bytes)
      → (p.rename w f g).0 ≡ true
      → content w f ≡ some c
      → content (p.rename w f g).1 g ≡ some c
  pub random_frame :
      (w : p.World) (n : ℕ) (q c : Bytes)
      → content w q ≡ some c
      → content (p.random_bytes w n).1 q ≡ some c
