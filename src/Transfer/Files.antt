-- ===== src/Transfer/Files.antt =====
-- No call on the incoming transfer touches a file that it has not made itself.
use localsend3ds.Prelude.{
  ℕ, ◌-◌, ◌≡◌, ◌≢◌, refl, sym, ◌∙◌, Bool, true, false, not, ◌&&◌, ◌||◌, inl, inr, Option, none,
  some, Bytes, ltb, leb, ◌==◌, if◌then◌else◌, Bool-cases, length, codes, is_empty, arith,
}
use localsend3ds.Platform.{Platform, Reliable}
use localsend3ds.Random.{uuid}
use localsend3ds.Filesystem.{
  Sanitized, clean, refused, sanitize, ensure_directory, select_paths, path_capacity,
}
use localsend3ds.Filesystem.Paths.{select_paths-IsFree, ensure_directory-kept}
use localsend3ds.Transfer.{
  set_error, invalidate_credentials, digest_text, constant_time_equal, is_busy, is_waiting,
  is_receiving, is_accepted, ipv4_capacity, filename_capacity, with_token, with_session, with_paths,
  with_directory, with_name, with_stream, no_stream, with_open, write_to, finish_open, close_stream,
  check_sum, publish, open_part, Transfer, PrepareUploadRequest, After, close_and_remove_partial,
  fail, cancel, begin_request, reject, accept, begin_stream, write, finish, close_file, remove_part,
}

module _ (p : Platform) (r : Reliable p) (q c : Bytes) where
  open p use {World, File}
  open r use {content, path_of}

  -- The file `q` is there with content `c`, and it is not the part file of the transfer.
  pub record Spared (t : Transfer File) (w : World) : Type 0 where
    pub kept : content w q ≡ some c
    pub not_part : t.owns_part_file ≡ true → t.part_path ≢ q
    pub not_open : (f : File) → t.file ≡ some f → path_of f ≢ q

  close_file-kept :
      (o : Option File) (w : World)
      → ((f : File) → o ≡ some f → path_of f ≢ q)
      → content w q ≡ some c
      → content (close_file p o w) q ≡ some c
  unfolding close_file
  close_file-kept none w n k = k
  close_file-kept (some f) w n k = r.fclose_frame w q c f (n f refl) k

  remove_part-kept :
      (t : Transfer File) (w : World)
      → (t.owns_part_file ≡ true → t.part_path ≢ q)
      → content w q ≡ some c
      → content (remove_part p t w) q ≡ some c
  unfolding remove_part
  remove_part-kept t w n k = elim (Bool-cases (t.owns_part_file && not (is_empty t.part_path))) [
    | inl b ↦ rw b (r.unlink_frame w q t.part_path c (n (ground arith)) k)
    | inr b ↦ rw b k
  ]

  abbrev pub SparedAfter : After p → Type 0
  SparedAfter a = Spared a.0 a.1

  pub close_and_remove_partial-Spared :
      {t : Transfer File} {w : World} → Spared t w → SparedAfter (close_and_remove_partial p t w)
  unfolding close_and_remove_partial
  close_and_remove_partial-Spared {t} {w} s = record {
    kept =
        remove_part-kept t (close_file p t.file w) s.not_part
          (close_file-kept t.file w s.not_open s.kept);
    not_part = λ h. cc;
    not_open = λ f h. cc;
  }

  -- Only the world and the three fields that name files matter.
  move-Spared :
      {t u : Transfer File} {w : World}
      → u.file ≡ t.file
      → u.owns_part_file ≡ t.owns_part_file
      → u.part_path ≡ t.part_path
      → Spared t w
      → Spared u w
  move-Spared ef eo ep s = record {
    kept = s.kept;
    not_part = λ h. rw ep (s.not_part (sym eo ∙ h));
    not_open = λ f h. s.not_open f (sym ef ∙ h);
  }

  pub fail-Spared :
      {t : Transfer File} {w : World} (message : Bytes) (now : ℕ)
      → Spared t w
      → SparedAfter (fail p t message now w)
  unfolding fail
  fail-Spared message now s = move-Spared refl refl refl (close_and_remove_partial-Spared s)

  pub cancel-Spared :
      {t : Transfer File} {w : World} (message : Bytes) (now : ℕ)
      → Spared t w
      → SparedAfter (cancel p t message now w)
  unfolding cancel
  cancel-Spared {t} message now s = elim (Bool-cases (is_busy t.state)) [
    | inl b ↦ rw b (move-Spared refl refl refl (close_and_remove_partial-Spared s))
    | inr b ↦ rw b s
  ]

  pub begin_request-Spared :
      {t : Transfer File} {w : World} (request : PrepareUploadRequest) (ip : Bytes) (now : ℕ)
      → Spared t w
      → SparedAfter (begin_request p t request ip now w).1
  unfolding begin_request
  begin_request-Spared {t} {w} request ip now s =
      elim (Bool-cases (is_busy t.state || is_empty ip || leb ipv4_capacity (length ip))) [
        | inl b ↦ rw b s
        | inr b ↦ rw b (record {
          kept = (close_and_remove_partial-Spared s).kept;
          not_part = λ h. cc;
          not_open = λ f h. cc;
        })
      ]

  pub reject-Spared :
      {t : Transfer File} {w : World} (now : ℕ) → Spared t w → Spared (reject t now) w
  unfolding reject
  reject-Spared {t} now s = elim (Bool-cases (is_waiting t.state)) [
    | inl b ↦ rw b (move-Spared refl refl refl s)
    | inr b ↦ rw b s
  ]

  -- A path at which nothing exists is not that of the file.
  absent_ne :
      (w : World) (path : Bytes) → content w q ≡ some c → p.path_exists w path ≡ false → path ≢ q
  absent_ne w path k a e = cc (a, r.content_exists w q c k, e)

  with_token-Spared :
      (t : Transfer File) (session : Bytes) (now : ℕ) (o : Option Bytes) {w : World}
      → Spared t w
      → SparedAfter (with_token p t session now (o, w)).1
  unfolding with_token set_error invalidate_credentials
  with_token-Spared t session now none s = move-Spared refl refl refl s
  with_token-Spared t session now (some token) s = move-Spared refl refl refl s

  uuid-Spared : {t : Transfer File} {w : World} → Spared t w → Spared t (uuid p w).1
  unfolding uuid
  uuid-Spared {t} {w} s = record {
    kept = r.random_frame w 16 q c s.kept;
    not_part = s.not_part;
    not_open = s.not_open;
  }

  with_session-Spared :
      (t : Transfer File) (now : ℕ) (o : Option Bytes) {w : World}
      → Spared t w
      → SparedAfter (with_session p t now (o, w)).1
  unfolding with_session set_error invalidate_credentials
  with_session-Spared t now none s = move-Spared refl refl refl s
  with_session-Spared t now (some session) {w} s =
      with_token-Spared t session now (uuid p w).0 (uuid-Spared s)

  with_paths-Spared :
      (t : Transfer File) (now : ℕ) {w : World} (o : Option (Bytes × Bytes))
      → ((final part : Bytes) → o ≡ some (final, part) → p.path_exists w part ≡ false)
      → Spared t w
      → SparedAfter (with_paths p t now w o).1
  unfolding with_paths set_error invalidate_credentials
  with_paths-Spared t now none absent s = move-Spared refl refl refl s
  with_paths-Spared t now {w} (some (final, part)) absent s =
      with_session-Spared (record t { final_path = final; part_path = part }) now (uuid p w).0
        (uuid-Spared (record {
          kept = s.kept;
          not_part = λ h. absent_ne w part s.kept (absent final part refl);
          not_open = s.not_open;
        }))

  with_directory-Spared :
      (t : Transfer File) (directory : Bytes) (now : ℕ) (done : Bool) {w : World}
      → Spared t w
      → SparedAfter (with_directory p t directory now (done, w)).1
  unfolding with_directory set_error invalidate_credentials
  with_directory-Spared t directory now false s = move-Spared refl refl refl s
  with_directory-Spared t directory now true {w} s =
      with_paths-Spared t now
        (select_paths (p.path_exists w) directory t.safe_file_name path_capacity)
        (λ final part e.
          (select_paths-IsFree (p.path_exists w) directory t.safe_file_name path_capacity
            e).part_free)
        s

  with_name-Spared :
      (t : Transfer File) (directory : Bytes) (now : ℕ) {w : World} (n : Sanitized)
      → Spared t w
      → SparedAfter (with_name p t directory now w n).1
  unfolding with_name set_error invalidate_credentials
  with_name-Spared t directory now (refused e) s = move-Spared refl refl refl s
  with_name-Spared t directory now {w} (clean name) s =
      with_directory-Spared (record t { safe_file_name = name }) directory now
        (ensure_directory p w directory).0
        (record {
          kept = ensure_directory-kept p r q c w directory s.kept;
          not_part = s.not_part;
          not_open = s.not_open;
        })

  pub accept-Spared :
      {t : Transfer File} {w : World} (directory : Bytes) (now : ℕ)
      → Spared t w
      → SparedAfter (accept p t directory now w).1
  unfolding accept
  accept-Spared {t} directory now s = elim (Bool-cases (is_waiting t.state)) [
    | inl b ↦
        rw b (with_name-Spared t directory now (sanitize t.metadata.file_name filename_capacity) s)
    | inr b ↦ rw b s
  ]

  no_stream-Spared :
      (t : Transfer File) (now : ℕ) (opened : Bool) {w : World}
      → (opened ≡ true → t.part_path ≢ q)
      → Spared t w
      → SparedAfter (no_stream p t now opened w).1
  unfolding no_stream set_error invalidate_credentials
  no_stream-Spared t now true {w} n s = record {
    kept =
        r.unlink_frame (p.close w t.part_path) q t.part_path c (n refl)
          (r.close_frame w q t.part_path c s.kept);
    not_part = λ h. cc;
    not_open = λ f h. cc;
  }
  no_stream-Spared t now false n s = record {
    kept = s.kept;
    not_part = s.not_part;
    not_open = λ f h. cc;
  }

  with_stream-Spared :
      (t : Transfer File) (now : ℕ) (opened : Bool) (o : Option File) {w : World}
      → (opened ≡ true → t.part_path ≢ q)
      → ((f : File) → o ≡ some f → path_of f ≢ q)
      → Spared t w
      → SparedAfter (with_stream p t now (opened, o, w)).1
  unfolding with_stream
  with_stream-Spared t now opened none n m s = no_stream-Spared t now opened n s
  with_stream-Spared t now opened (some f) n m s = record {
    kept = s.kept;
    not_part = λ h. elim (Bool-cases opened) [ inl o ↦ n o | inr o ↦ s.not_part (rw o at h) ];
    not_open = λ g h. m g h;
  }

  -- Whatever the open and the stream come to, the file is spared.
  open_part-Spared :
      (t : Transfer File) (now : ℕ) {w : World}
      → Spared t w
      → SparedAfter (with_stream p t now (open_part p t w)).1
  open_part-Spared t now {w} s = elim (Bool-cases (p.open_new w t.part_path).0) [
    | inl o ↦
        let other : t.part_path ≢ q = fresh_ne o in
        rw o (
          with_stream-Spared t now true (p.fdopen w' t.part_path).0 (λ h. other)
            (λ f h. λ e. other (sym (r.fdopen_path w' t.part_path f h) ∙ e))
            (record {
              kept = r.fdopen_frame w' q t.part_path c kept';
              not_part = s.not_part;
              not_open = s.not_open;
            }))
    | inr o ↦ rw o (
        with_stream-Spared t now false t.file (λ h. cc) s.not_open
          (record { kept = kept'; not_part = s.not_part; not_open = s.not_open }))
  ]
    where
      w' : World
      w' = (p.open_new w t.part_path).1

      kept' : content w' q ≡ some c
      kept' = r.open_new_frame w q t.part_path c s.kept

      fresh_ne : (p.open_new w t.part_path).0 ≡ true → t.part_path ≢ q
      fresh_ne o e = cc (rw e at (r.open_new_fresh w t.part_path o), s.kept)

  pub begin_stream-Spared :
      {t : Transfer File} {w : World} (declared : ℕ) (has : Bool) (now : ℕ)
      → Spared t w
      → SparedAfter (begin_stream p t declared has now w).1
  unfolding begin_stream
  begin_stream-Spared {t} declared has now s = elim (Bool-cases (is_accepted t.state)) [
    | inr b ↦ rw b s
    | inl b ↦ rw b (elim (Bool-cases (has && not (declared == t.metadata.size))) [
      | inl e ↦ rw e (fail-Spared (codes "Declared upload size does not match metadata") now s)
      | inr e ↦ rw e (open_part-Spared t now s)
    ])
  ]

  after_fwrite :
      {t : Transfer File} {w : World} (f : File) (bytes : Bytes)
      → t.file ≡ some f
      → Spared t w
      → Spared t (if is_empty bytes then (0, w) else p.fwrite w f bytes).1
  after_fwrite {t} {w} f bytes e s = elim (Bool-cases (is_empty bytes)) [
    | inl b ↦ rw b s
    | inr b ↦ rw b (record {
      kept = r.fwrite_frame w q bytes c f (s.not_open f e) s.kept;
      not_part = s.not_part;
      not_open = s.not_open;
    })
  ]

  write_to-Spared :
      {t : Transfer File} {w : World} (f : File) (bytes : Bytes) (now : ℕ)
      → t.file ≡ some f
      → Spared t w
      → SparedAfter (write_to p f t bytes now w).1
  unfolding write_to
  write_to-Spared {t} {w} f bytes now e s =
      let count = (if is_empty bytes then (0, w) else p.fwrite w f bytes).0 in
      elim (Bool-cases (not (count == length bytes))) [
        | inl b ↦ rw b (fail-Spared (codes "SD card write failed") now (after_fwrite f bytes e s))
        | inr b ↦ rw b (move-Spared refl refl refl (after_fwrite f bytes e s))
      ]

  with_open-Spared :
      {t : Transfer File} {w : World} (o : Option File) (bytes : Bytes) (now : ℕ)
      → t.file ≡ o
      → Spared t w
      → SparedAfter (with_open p o t bytes now w).1
  unfolding with_open
  with_open-Spared none bytes now e s = s
  with_open-Spared {t} (some f) bytes now e s =
      elim (Bool-cases (
        ltb t.metadata.size t.received_bytes
        || ltb (t.metadata.size - t.received_bytes) (length bytes))) [
          | inl b ↦ rw b (fail-Spared (codes "Upload exceeded declared file size") now s)
          | inr b ↦ rw b (write_to-Spared f bytes now e s)
        ]

  pub write-Spared :
      {t : Transfer File} {w : World} (bytes : Bytes) (now : ℕ)
      → Spared t w
      → SparedAfter (write p t bytes now w).1
  unfolding write
  write-Spared {t} bytes now s = elim (Bool-cases (is_receiving t.state)) [
    | inl b ↦ rw b (with_open-Spared t.file bytes now refl s)
    | inr b ↦ rw b s
  ]

  publish-Spared :
      {t : Transfer File} {w : World} (now : ℕ)
      → t.owns_part_file ≡ true
      → Spared t w
      → SparedAfter (publish p t now w).1
  unfolding publish invalidate_credentials
  publish-Spared {t} {w} now own s = elim (Bool-cases (p.path_exists w t.final_path)) [
    | inl b ↦ rw b (fail-Spared (codes "Destination file appeared during transfer") now s)
    | inr b ↦
        let moved : Spared t (p.rename w t.part_path t.final_path).1 = record {
          kept =
              r.rename_frame w q t.part_path t.final_path c (s.not_part own)
                (absent_ne w t.final_path s.kept b) s.kept;
          not_part = s.not_part;
          not_open = s.not_open;
        } in
        rw b (elim (Bool-cases (p.rename w t.part_path t.final_path).0) [
          | inl d ↦
              rw d (record { kept = moved.kept; not_part = λ h. cc; not_open = moved.not_open })
          | inr d ↦ rw d (fail-Spared (codes "Cannot finalize partial file") now moved)
        ])
  ]

  check_sum-Spared :
      {t : Transfer File} {w : World} (now : ℕ)
      → t.owns_part_file ≡ true
      → Spared t w
      → SparedAfter (check_sum p t now w).1
  unfolding check_sum
  check_sum-Spared {t} now own s =
      elim (Bool-cases (
        t.metadata.has_sha256
        && not (constant_time_equal t.metadata.sha256 65 (digest_text p t)))) [
          | inl b ↦ rw b (fail-Spared (codes "SHA-256 checksum mismatch") now s)
          | inr b ↦ rw b (publish-Spared now own s)
        ]

  close_stream-Spared :
      {t : Transfer File} {w : World} (f : File) (now : ℕ)
      → t.file ≡ some f
      → t.owns_part_file ≡ true
      → Spared t w
      → SparedAfter (close_stream p f t now w).1
  unfolding close_stream
  close_stream-Spared {t} {w} f now e own s =
      let w1 : World = (p.fflush w f).1 in
      let shut : Spared (record t { file = none }) (p.fclose w1 f).1 = record {
        kept =
            r.fclose_frame w1 q c f (s.not_open f e)
              (r.fflush_frame w q c f (s.not_open f e) s.kept);
        not_part = s.not_part;
        not_open = λ g h. cc;
      } in
      elim (Bool-cases (not (p.fflush w f).0 || not (p.fclose w1 f).0)) [
        | inl b ↦ rw b (fail-Spared (codes "SD card flush/close failed") now shut)
        | inr b ↦ rw b (check_sum-Spared now own shut)
      ]

  finish_open-Spared :
      {t : Transfer File} {w : World} (o : Option File) (now : ℕ)
      → t.file ≡ o
      → t.owns_part_file ≡ true
      → Spared t w
      → SparedAfter (finish_open p o t now w).1
  unfolding finish_open
  finish_open-Spared none now e own s = s
  finish_open-Spared {t} (some f) now e own s =
      elim (Bool-cases (not (t.received_bytes == t.metadata.size))) [
        | inl b ↦ rw b (fail-Spared (codes "Upload ended before declared file size") now s)
        | inr b ↦ rw b (close_stream-Spared f now e own s)
      ]

  pub finish-Spared :
      {t : Transfer File} {w : World} (now : ℕ)
      → (is_receiving t.state ≡ true → t.owns_part_file ≡ true)
      → Spared t w
      → SparedAfter (finish p t now w).1
  unfolding finish
  finish-Spared {t} now own s = elim (Bool-cases (is_receiving t.state)) [
    | inl b ↦ rw b (finish_open-Spared t.file now refl (own b) s)
    | inr b ↦ rw b s
  ]
