-- ===== src/Transfer/Invariant.antt =====
-- What holds of the incoming transfer between two calls.
use localsend3ds.Prelude.{
  ℕ, ◌+◌, ◌-◌, ◌≤◌, ◌≡◌, refl, Bool, true, false, not, ◌&&◌, ◌||◌, inl, inr, Option, none, some,
  List, [], ◌∷◌, Bytes, ltb, ◌==◌, if◌then◌else◌, Bool-cases, length, codes, is_empty, arith,
}
use localsend3ds.Platform.{Platform}
use localsend3ds.Filesystem.{
  Sanitized, clean, refused, sanitize, ensure_directory, select_paths, path_capacity,
}
use localsend3ds.Random.{uuid}
use localsend3ds.Transfer.{
  Transfer, completed, PrepareUploadRequest, close_and_remove_partial, fail, cancel, begin_request,
  reject, accept, begin_stream, write, finish, init, is_waiting, is_receiving, is_accepted,
  filename_capacity, with_token, with_session, with_paths, with_directory, with_name, with_stream,
  no_stream, with_open, write_to, finish_open, close_stream, check_sum, publish,
  constant_time_equal, digest_text, set_error, invalidate_credentials,
}
use localsend3ds.Transfer.Calls.{
  Call, begin_request_call, accept_call, reject_call, begin_stream_call, write_call, finish_call,
  fail_call, cancel_call, perform, history,
}

-- A file is open and owned only while bytes are received, no more bytes are counted than were
-- announced, all of them once the transfer is complete, and credentials are kept only for an
-- accepted transfer.
pub record Inv {F : Type 0} (t : Transfer F) : Type 0 where
  pub streaming : is_receiving t.state ≡ true → t.owns_part_file ≡ true
  pub not_streaming : is_receiving t.state ≡ false → (t.file ≡ none) × (t.owns_part_file ≡ false)
  pub bounded : is_receiving t.state ≡ true → t.received_bytes ≤ t.metadata.size
  pub whole : t.state ≡ completed → t.received_bytes ≡ t.metadata.size
  pub credentials :
      (is_accepted t.state || is_receiving t.state) ≡ false
      → (t.session_id ≡ []) × (t.file_token ≡ [])

module _ (p : Platform) where
  open p use {World, File}

  fail-Inv : (t : Transfer File) (m : Bytes) (now : ℕ) (w : World) → Inv (fail p t m now w).0
  unfolding fail close_and_remove_partial
  fail-Inv t m now w = ground arith

  cancel-Inv :
      (t : Transfer File) (m : Bytes) (now : ℕ) (w : World) → Inv t → Inv (cancel p t m now w).0
  unfolding cancel close_and_remove_partial
  cancel-Inv t m now w v = ground arith

  reject-Inv : (t : Transfer File) (now : ℕ) → Inv t → Inv (reject t now)
  unfolding reject
  reject-Inv t now v = ground arith

  begin_request-Inv :
      (t : Transfer File) (q : PrepareUploadRequest) (ip : Bytes) (now : ℕ) (w : World)
      → Inv t
      → Inv (begin_request p t q ip now w).1.0
  unfolding begin_request
  begin_request-Inv t q ip now w v = ground arith

  -- What holds of a transfer that is not streaming: no file, and the credentials it has are those
  -- of a transfer that waits.
  abbrev Quiet : Transfer File → Type 0
  Quiet t = (t.file ≡ none) × (t.owns_part_file ≡ false) × (t.session_id ≡ []) × (t.file_token ≡ [])

  with_token-Inv :
      (t : Transfer File) (session : Bytes) (now : ℕ) (o : Option Bytes) (w : World)
      → Quiet t
      → Inv (with_token p t session now (o, w)).1.0
  unfolding with_token set_error invalidate_credentials
  with_token-Inv t session now none w h = ground arith
  with_token-Inv t session now (some token) w h = ground arith

  with_session-Inv :
      (t : Transfer File) (now : ℕ) (o : Option Bytes) (w : World)
      → Quiet t
      → Inv (with_session p t now (o, w)).1.0
  unfolding with_session set_error invalidate_credentials
  with_session-Inv t now none w h = ground arith
  with_session-Inv t now (some session) w h =
      with_token-Inv t session now (uuid p w).0 (uuid p w).1 h

  with_paths-Inv :
      (t : Transfer File) (now : ℕ) (w : World) (o : Option (Bytes × Bytes))
      → Quiet t
      → Inv (with_paths p t now w o).1.0
  unfolding with_paths set_error invalidate_credentials
  with_paths-Inv t now w none h = ground arith
  with_paths-Inv t now w (some (final, part)) h =
      with_session-Inv (record t { final_path = final; part_path = part }) now (uuid p w).0
        (uuid p w).1 h

  with_directory-Inv :
      (t : Transfer File) (directory : Bytes) (now : ℕ) (done : Bool) (w : World)
      → Quiet t
      → Inv (with_directory p t directory now (done, w)).1.0
  unfolding with_directory set_error invalidate_credentials
  with_directory-Inv t directory now false w h = ground arith
  with_directory-Inv t directory now true w h =
      with_paths-Inv t now w
        (select_paths (p.path_exists w) directory t.safe_file_name path_capacity) h

  with_name-Inv :
      (t : Transfer File) (directory : Bytes) (now : ℕ) (w : World) (n : Sanitized)
      → Quiet t
      → Inv (with_name p t directory now w n).1.0
  unfolding with_name set_error invalidate_credentials
  with_name-Inv t directory now w (refused e) h = ground arith
  with_name-Inv t directory now w (clean name) h =
      with_directory-Inv (record t { safe_file_name = name }) directory now
        (ensure_directory p w directory).0 (ensure_directory p w directory).1 h

  accept-Inv :
      (t : Transfer File) (directory : Bytes) (now : ℕ) (w : World)
      → Inv t
      → Inv (accept p t directory now w).1.0
  unfolding accept
  accept-Inv t directory now w v = elim (Bool-cases (is_waiting t.state)) [
    | inr b ↦ rw b v
    | inl b ↦ rw b (
        with_name-Inv t directory now w (sanitize t.metadata.file_name filename_capacity)
          (ground arith))
  ]

  with_stream-Inv :
      (t : Transfer File) (now : ℕ) (opened : Bool) (o : Option File) (w : World)
      → (t.file ≡ none) × (t.owns_part_file ≡ false)
      → (opened ≡ false → o ≡ none)
      → Inv (with_stream p t now (opened, o, w)).1.0
  unfolding with_stream no_stream set_error invalidate_credentials
  with_stream-Inv t now opened none w h n = ground arith
  with_stream-Inv t now true (some f) w h n = ground arith
  with_stream-Inv t now false (some f) w h n = cc (n refl)

  begin_stream-Inv :
      (t : Transfer File) (declared : ℕ) (has : Bool) (now : ℕ) (w : World)
      → Inv t
      → Inv (begin_stream p t declared has now w).1.0
  unfolding begin_stream
  begin_stream-Inv t declared has now w v = elim (Bool-cases (is_accepted t.state)) [
    | inr b ↦ rw b v
    | inl b ↦ rw b (elim (Bool-cases (has && not (declared == t.metadata.size))) [
      | inl e ↦ rw e (fail-Inv t (codes "Declared upload size does not match metadata") now w)
      | inr e ↦ rw e (elim (Bool-cases (p.open_new w t.part_path).0) [
        | inl o ↦ rw o (
            with_stream-Inv t now true (p.fdopen (p.open_new w t.part_path).1 t.part_path).0
              (p.fdopen (p.open_new w t.part_path).1 t.part_path).1 (quiet b) (λ h. cc))
        | inr o ↦ rw o (
            with_stream-Inv t now false t.file (p.open_new w t.part_path).1 (quiet b)
              (λ h. (quiet b).0))
      ])
    ])
  ]
    where
      quiet : is_accepted t.state ≡ true → (t.file ≡ none) × (t.owns_part_file ≡ false)
      quiet b = v.not_streaming (ground arith)

  write_to-Inv :
      (f : File) (t : Transfer File) (bytes : Bytes) (now : ℕ) (w : World)
      → Inv t
      → t.received_bytes + length bytes ≤ t.metadata.size
      → is_receiving t.state ≡ true
      → Inv (write_to p f t bytes now w).1.0
  unfolding write_to
  write_to-Inv f t bytes now w v h b =
      let count = (if is_empty bytes then (0, w) else p.fwrite w f bytes).0 in
      let w' = (if is_empty bytes then (0, w) else p.fwrite w f bytes).1 in
      elim (Bool-cases (not (count == length bytes))) [
        | inl e ↦ rw e (fail-Inv t (codes "SD card write failed") now w')
        | inr e ↦ rw e (ground arith)
      ]

  with_open-Inv :
      (o : Option File) (t : Transfer File) (bytes : Bytes) (now : ℕ) (w : World)
      → Inv t
      → is_receiving t.state ≡ true
      → Inv (with_open p o t bytes now w).1.0
  unfolding with_open
  with_open-Inv none t bytes now w v b = v
  with_open-Inv (some f) t bytes now w v b =
      elim (Bool-cases (
        ltb t.metadata.size t.received_bytes
        || ltb (t.metadata.size - t.received_bytes) (length bytes))) [
          | inl x ↦ rw x (fail-Inv t (codes "Upload exceeded declared file size") now w)
          | inr x ↦ rw x (write_to-Inv f t bytes now w v (ground arith) b)
        ]

  write-Inv :
      (t : Transfer File) (bytes : Bytes) (now : ℕ) (w : World)
      → Inv t
      → Inv (write p t bytes now w).1.0
  unfolding write
  write-Inv t bytes now w v = elim (Bool-cases (is_receiving t.state)) [
    | inr b ↦ rw b v
    | inl b ↦ rw b (with_open-Inv t.file t bytes now w v b)
  ]

  publish-Inv :
      (t : Transfer File) (now : ℕ) (w : World)
      → t.file ≡ none
      → t.received_bytes ≡ t.metadata.size
      → Inv (publish p t now w).1.0
  unfolding publish invalidate_credentials
  publish-Inv t now w n h = elim (Bool-cases (p.path_exists w t.final_path)) [
    | inl b ↦ rw b (fail-Inv t (codes "Destination file appeared during transfer") now w)
    | inr b ↦ rw b (elim (Bool-cases (p.rename w t.part_path t.final_path).0) [
      | inl d ↦ rw d (ground arith)
      | inr d ↦ rw d (
          fail-Inv t (codes "Cannot finalize partial file") now
            (p.rename w t.part_path t.final_path).1)
    ])
  ]

  finish_open-Inv :
      (o : Option File) (t : Transfer File) (now : ℕ) (w : World)
      → Inv t
      → Inv (finish_open p o t now w).1.0
  unfolding finish_open close_stream check_sum
  finish_open-Inv none t now w v = v
  finish_open-Inv (some f) t now w v =
      elim (Bool-cases (not (t.received_bytes == t.metadata.size))) [
        | inl b ↦ rw b (fail-Inv t (codes "Upload ended before declared file size") now w)
        | inr b ↦
            let w1 : World = (p.fflush w f).1 in
            let w2 : World = (p.fclose w1 f).1 in
            let shut : Transfer File = record t { file = none } in
            rw b (elim (Bool-cases (not (p.fflush w f).0 || not (p.fclose w1 f).0)) [
              | inl e ↦ rw e (fail-Inv shut (codes "SD card flush/close failed") now w2)
              | inr e ↦
                  rw e
                    (elim (Bool-cases (
                      t.metadata.has_sha256
                      && not (constant_time_equal t.metadata.sha256 65 (digest_text p t)))) [
                        | inl d ↦ rw d (fail-Inv shut (codes "SHA-256 checksum mismatch") now w2)
                        | inr d ↦ rw d (publish-Inv shut now w2 refl (ground arith))
                      ])
            ])
      ]

  finish-Inv : (t : Transfer File) (now : ℕ) (w : World) → Inv t → Inv (finish p t now w).1.0
  unfolding finish
  finish-Inv t now w v = elim (Bool-cases (is_receiving t.state)) [
    | inr b ↦ rw b v
    | inl b ↦ rw b (finish_open-Inv t.file t now w v)
  ]

  pub init-Inv : Inv (init {F = File})
  unfolding init
  init-Inv = ground arith

  -- Each call keeps the invariant, with any arguments and any answers of the system.
  pub perform-Inv :
      (call : Call) (t : Transfer File) (w : World) → Inv t → Inv (perform p call t w).0
  unfolding perform
  perform-Inv (begin_request_call q ip now) t w v = begin_request-Inv t q ip now w v
  perform-Inv (accept_call directory now) t w v = accept-Inv t directory now w v
  perform-Inv (reject_call now) t w v = reject-Inv t now v
  perform-Inv (begin_stream_call declared has now) t w v = begin_stream-Inv t declared has now w v
  perform-Inv (write_call bytes now) t w v = write-Inv t bytes now w v
  perform-Inv (finish_call now) t w v = finish-Inv t now w v
  perform-Inv (fail_call m now) t w v = fail-Inv t m now w
  perform-Inv (cancel_call m now) t w v = cancel-Inv t m now w v

  pub histories-Inv :
      (calls : List Call) (t : Transfer File) (w : World) → Inv t → Inv (history p calls t w).0
  unfolding history
  histories-Inv [] t w v = v
  histories-Inv (call ∷ calls) t w v =
      histories-Inv calls (perform p call t w).0 (perform p call t w).1 (perform-Inv call t w v)

  -- After any calls in any order from the initial transfer, whatever the system answered: the part
  -- file is owned while bytes are received, and outside that state no file is open or owned; while
  -- bytes are received no more are counted than announced, and a completed transfer counted all of
  -- them; and both credentials are empty unless the transfer is accepted or receiving.
  pub history-Inv : (calls : List Call) (w : World) → Inv (history p calls init w).0
  history-Inv calls w = histories-Inv calls init w init-Inv
