-- ===== src/Transfer/Received.antt =====
-- One upload from the opened stream to the final name: what the file holds.
use localsend3ds.Prelude.{
  ℕ, ◌-◌, ◌≡◌, refl, sym, ap, ◌∙◌, Bool, true, false, not, ◌&&◌, ◌||◌, inl, inr, Option, none, some,
  List, [], ◌∷◌, ◌++◌, Bytes, ltb, ◌==◌, if◌then◌else◌, Bool-cases, length, length-append, is_empty,
  arith, append-nil, append_assoc,
}
use localsend3ds.Platform.{Platform, Reliable}
use localsend3ds.Sha256
use localsend3ds.Sha256.{Context}
use localsend3ds.Sha256.Stream.{update-update, HasRoom}
use localsend3ds.Transfer.Calls.{join, receive, upload}
use localsend3ds.Transfer.{
  Transfer, completed, success, After, begin_stream, write, finish, is_receiving, is_accepted,
  with_stream, no_stream, with_open, write_to, finish_open, close_stream, check_sum, publish,
  constant_time_equal, set_error, invalidate_credentials, Metadata, digest_text,
}

init-HasRoom : HasRoom Sha256.init
unfolding Sha256.init
init-HasRoom = omega arith

module _ (p : Platform) (r : Reliable p) where
  open p use {World, File}
  open r use {content, stream, path_of}

  -- The transfer receives `m` into its part file, meant for the path `final`, and `bytes` have come
  -- so far.
  pub record Received (m : Metadata) (final : Bytes) (t : Transfer File) (w : World) (bytes : Bytes)
      : Type 0 where
    pub about : t.metadata ≡ m
    pub meant : t.final_path ≡ final
    pub receives : is_receiving t.state ≡ true
    pub in_part : (f : File) → t.file ≡ some f → path_of f ≡ t.part_path
    pub streamed : (f : File) → t.file ≡ some f → stream w f ≡ bytes
    pub counted : t.received_bytes ≡ length bytes
    pub hashed : t.sha256 ≡ Sha256.update Sha256.init bytes

  with_stream-Received :
      (t : Transfer File) (now : ℕ) (opened : Bool) (o : Option File) (w : World)
      → ((f : File) → o ≡ some f → (path_of f ≡ t.part_path) × (stream w f ≡ []))
      → (with_stream p t now (opened, o, w)).0 ≡ true
      → Received t.metadata t.final_path
          (with_stream p t now (opened, o, w)).1.0
          (with_stream p t now (opened, o, w)).1.1
          []
  unfolding with_stream no_stream set_error invalidate_credentials Sha256.update Sha256.init
  with_stream-Received t now opened none w k h = cc h
  with_stream-Received t now opened (some f) w k h = record {
    about = refl;
    meant = refl;
    receives = refl;
    in_part = λ g h. (k g h).0;
    streamed = λ g h. (k g h).1;
    counted = refl;
    hashed = refl;
  }

  -- A stream that was begun has received nothing.
  pub begin_stream-Received :
      (t : Transfer File) (declared : ℕ) (has : Bool) (now : ℕ) (w : World)
      → t.file ≡ none
      → (begin_stream p t declared has now w).0 ≡ true
      → Received t.metadata t.final_path
          (begin_stream p t declared has now w).1.0
          (begin_stream p t declared has now w).1.1
          []
  unfolding begin_stream
  begin_stream-Received t declared has now w n = elim (Bool-cases (is_accepted t.state)) [
    | inr b ↦ rw b (λ h. cc h)
    | inl b ↦ rw b (elim (Bool-cases (has && not (declared == t.metadata.size))) [
      | inl e ↦ rw e (λ h. cc h)
      | inr e ↦ rw e (elim (Bool-cases (p.open_new w t.part_path).0) [
        | inl o ↦ rw o (
            with_stream-Received t now true (p.fdopen (p.open_new w t.part_path).1 t.part_path).0
              (p.fdopen (p.open_new w t.part_path).1 t.part_path).1
              (λ f h. (
                r.fdopen_path (p.open_new w t.part_path).1 t.part_path f h,
                r.fdopen_empty (p.open_new w t.part_path).1 t.part_path f h,
              )))
        | inr o ↦ rw o (
            with_stream-Received t now false t.file (p.open_new w t.part_path).1 (λ f h. cc (h, n)))
      ])
    ])
  ]

  -- Nothing is written to the stream for an empty chunk.
  after_fwrite :
      (w : World) (f : File) (chunk : Bytes)
      → (if is_empty chunk then (0, w) else p.fwrite w f chunk).0 ≡ length chunk
      → stream (if is_empty chunk then (0, w) else p.fwrite w f chunk).1 f ≡ stream w f ++ chunk
  after_fwrite w f [] h = sym (append-nil (stream w f))
  after_fwrite w f (x ∷ xs) h = r.fwrite_all w f (x ∷ xs) h

  write_to-Received :
      {m : Metadata} {final : Bytes} {t : Transfer File} {w : World} {bytes : Bytes} (f : File)
      → t.file ≡ some f
      → Received m final t w bytes
      → (chunk : Bytes) (now : ℕ) → (write_to p f t chunk now w).0 ≡ true
      → Received m final
          (write_to p f t chunk now w).1.0
          (write_to p f t chunk now w).1.1
          (bytes ++ chunk)
  unfolding write_to
  write_to-Received {m} {final} {t} {w} {bytes} f o v chunk now =
      let count = (if is_empty chunk then (0, w) else p.fwrite w f chunk).0 in
      elim (Bool-cases (not (count == length chunk))) [
        | inl e ↦ rw e (λ h. cc h)
        | inr e ↦ rw e (λ h. record {
          about = v.about;
          meant = v.meant;
          receives = v.receives;
          in_part = v.in_part;
          streamed = λ g k.
              rw⁻¹ (same g k)
                (after_fwrite w f chunk (ground arith) ∙ ap (λ s. s ++ chunk) (v.streamed f o));
          counted = omega (arith, v.counted, length-append bytes chunk);
          hashed =
              ap (λ c. Sha256.update c chunk) v.hashed
              ∙ update-update Sha256.init bytes chunk init-HasRoom;
        })
      ]
    where
      same : (g : File) → t.file ≡ some g → f ≡ g
      same g k = cc (o, k)

  with_open-Received :
      {m : Metadata} {final : Bytes} {t : Transfer File} {w : World} {bytes : Bytes}
      (o : Option File)
      → t.file ≡ o
      → Received m final t w bytes
      → (chunk : Bytes) (now : ℕ) → (with_open p o t chunk now w).0 ≡ true
      → Received m final
          (with_open p o t chunk now w).1.0
          (with_open p o t chunk now w).1.1
          (bytes ++ chunk)
  unfolding with_open
  with_open-Received none e v chunk now = λ h. cc h
  with_open-Received {t} (some f) o v chunk now =
      elim (Bool-cases (
        ltb t.metadata.size t.received_bytes
        || ltb (t.metadata.size - t.received_bytes) (length chunk))) [
          | inl e ↦ rw e (λ h. cc h)
          | inr e ↦ rw e (write_to-Received f o v chunk now)
        ]

  -- A chunk that was written is behind the bytes received before.
  pub write-Received :
      {m : Metadata} {final : Bytes} {t : Transfer File} {w : World} {bytes : Bytes}
      → Received m final t w bytes
      → (chunk : Bytes) (now : ℕ) → (write p t chunk now w).0 ≡ true
      → Received m final (write p t chunk now w).1.0 (write p t chunk now w).1.1 (bytes ++ chunk)
  unfolding write
  write-Received {t} v chunk now = rw v.receives (with_open-Received t.file refl v chunk now)

  -- What a successful upload leaves: the file under its final name.
  pub record Delivered (m : Metadata) (final : Bytes) (a : After p) (bytes : Bytes) : Type 0 where
    pub complete : a.0.state ≡ completed
    pub stored : content a.1 final ≡ some bytes
    pub whole : length bytes ≡ m.size
    pub intact :
        m.has_sha256 ≡ true
        → constant_time_equal m.sha256 65
            (Sha256.hex (Sha256.finish (Sha256.update Sha256.init bytes)))
          ≡ true

  publish-Delivered :
      (t : Transfer File) (now : ℕ) (w : World) (bytes : Bytes)
      → content w t.part_path ≡ some bytes
      → length bytes ≡ t.metadata.size
      → (t.metadata.has_sha256 ≡ true
          → constant_time_equal t.metadata.sha256 65
              (Sha256.hex (Sha256.finish (Sha256.update Sha256.init bytes)))
            ≡ true)
      → (publish p t now w).0 ≡ success
      → Delivered t.metadata t.final_path (publish p t now w).1 bytes
  unfolding publish invalidate_credentials
  publish-Delivered t now w bytes k l i = elim (Bool-cases (p.path_exists w t.final_path)) [
    | inl b ↦ rw b (λ h. cc h)
    | inr b ↦ rw b (elim (Bool-cases (p.rename w t.part_path t.final_path).0) [
      | inr d ↦ rw d (λ h. cc h)
      | inl d ↦ rw d (λ h. record {
        complete = refl;
        stored = r.rename_moves w t.part_path t.final_path bytes d k;
        whole = l;
        intact = i;
      })
    ])
  ]

  check_sum-Delivered :
      (t : Transfer File) (now : ℕ) (w : World) (bytes : Bytes)
      → content w t.part_path ≡ some bytes
      → length bytes ≡ t.metadata.size
      → t.sha256 ≡ Sha256.update Sha256.init bytes
      → (check_sum p t now w).0 ≡ success
      → Delivered t.metadata t.final_path (check_sum p t now w).1 bytes
  unfolding check_sum
  check_sum-Delivered t now w bytes k l e =
      elim (Bool-cases (
        t.metadata.has_sha256
        && not (constant_time_equal t.metadata.sha256 65 (digest_text p t)))) [
          | inl b ↦ rw b (λ h. cc h)
          | inr b ↦ rw b (publish-Delivered t now w bytes k l (λ h. rw⁻¹ e (ground arith)))
        ]

  finish_open-Delivered :
      {m : Metadata} {final : Bytes} {t : Transfer File} {w : World} {bytes : Bytes}
      (o : Option File)
      → t.file ≡ o
      → Received m final t w bytes
      → (now : ℕ) → (finish_open p o t now w).0 ≡ success
      → Delivered t.metadata t.final_path (finish_open p o t now w).1 bytes
  unfolding finish_open close_stream
  finish_open-Delivered none h v now = λ e. cc e
  finish_open-Delivered {t} {w} {bytes} (some f) h v now =
      let w1 : World = (p.fflush w f).1 in
      let w2 : World = (p.fclose w1 f).1 in
      elim (Bool-cases (not (t.received_bytes == t.metadata.size))) [
        | inl b ↦ rw b (λ h. cc h)
        | inr b ↦ rw b (elim (Bool-cases (not (p.fflush w f).0 || not (p.fclose w1 f).0)) [
          | inl e ↦ rw e (λ h. cc h)
          | inr e ↦ rw e (
              check_sum-Delivered (record t { file = none }) now w2 bytes
                (ap (content w2) (sym (v.in_part f h))
                  ∙ r.fclose_content w f (ground arith) (ground arith)
                  ∙ ap some (v.streamed f h))
                (ground (arith, v.counted)) v.hashed)
        ])
      ]

  -- A successful finish publishes what was received.
  pub finish-Delivered :
      {m : Metadata} {final : Bytes} {t : Transfer File} {w : World} {bytes : Bytes}
      → Received m final t w bytes
      → (now : ℕ) → (finish p t now w).0 ≡ success
      → Delivered m final (finish p t now w).1 bytes
  unfolding finish
  finish-Delivered {t} v now =
      rw⁻¹ (v.about, v.meant) (rw v.receives (finish_open-Delivered t.file refl v now))

  receive-Received :
      {m : Metadata} {final : Bytes} (chunks : List Bytes) (t : Transfer File) (w : World)
      (bytes : Bytes) (now : ℕ)
      → Received m final t w bytes
      → (receive p chunks t now w).0 ≡ true
      → Received m final
          (receive p chunks t now w).1.0
          (receive p chunks t now w).1.1
          (bytes ++ join chunks)
  unfolding receive
  receive-Received [] t w bytes now v = λ h. rw (append-nil bytes) v
  receive-Received (chunk ∷ chunks) t w bytes now v = elim (Bool-cases (write p t chunk now w).0) [
    | inr b ↦ rw b (λ h. cc h)
    | inl b ↦
        rw (b, sym (append_assoc bytes chunk (join chunks)))
          (receive-Received chunks (write p t chunk now w).1.0 (write p t chunk now w).1.1
            (bytes ++ chunk) now (write-Received v chunk now b))
  ]

  -- Where no file is open yet and an upload in chunks succeeds, the destination chosen for the
  -- transfer holds exactly the bytes of the chunks, as many as announced, and their SHA-256 passes
  -- the comparison with the announced one where there is one.
  pub upload-Delivered :
      (t : Transfer File) (declared : ℕ) (has : Bool) (chunks : List Bytes) (now : ℕ) (w : World)
      → t.file ≡ none
      → (upload p t declared has chunks now w).0 ≡ success
      → Delivered t.metadata t.final_path (upload p t declared has chunks now w).1 (join chunks)
  unfolding upload
  upload-Delivered t declared has chunks now w n =
      let s = begin_stream p t declared has now w in
      elim (Bool-cases s.0) [
        | inr b ↦ rw b (λ h. cc h)
        | inl b ↦ elim (Bool-cases (receive p chunks s.1.0 now s.1.1).0) [
          | inr d ↦ rw (b, d) (λ h. cc h)
          | inl d ↦
              rw (b, d)
                (finish-Delivered
                  (receive-Received chunks s.1.0 s.1.1 [] now
                    (begin_stream-Received t declared has now w n b) d)
                  now)
        ]
      ]
