-- ===== src/Transfer.antt =====
-- source/transfer.c and include/transfer.h: the life of one incoming file.
pub mod Calls
pub mod Files
pub mod Spared
pub mod Invariant
pub mod Received
pub mod Credentials
mod Tests
use localsend3ds.Prelude.{
  ℕ, zero, suc, ◌+◌, ◌-◌, Bool, true, false, not, ◌&&◌, ◌||◌, Option, none, some, List, [], ◌∷◌,
  ◌++◌, Bytes, ltb, leb, ◌==◌, if◌then◌else◌, length, take, codes, str_eq, is_empty,
}
use localsend3ds.Device.{Device}
use localsend3ds.Platform.{Platform}
use localsend3ds.Random.{uuid}
use localsend3ds.Sha256
use localsend3ds.Sha256.{Context}
use localsend3ds.Filesystem.{
  FilenameError, empty, too_long, invalid_utf8, path_escape, invalid_character, Sanitized, clean,
  refused, sanitize, ensure_directory, select_paths, path_capacity,
}
use localsend3ds.Protocol.Write.{decimal}

-- `LsIncomingFileMetadata`
pub record Metadata : Type 0 where
  pub id : Bytes
  pub file_name : Bytes
  pub size : ℕ
  pub file_type : Bytes
  pub has_sha256 : Bool
  pub sha256 : Bytes

-- `LsPrepareUploadRequest`
pub record PrepareUploadRequest : Type 0 where
  pub sender : Device
  pub file : Metadata

-- `LsTransferState`
pub data TransferState : Type 0 where
  idle waiting_for_user accepted receiving completed rejected cancelled failed : TransferState

-- `LsTransferFinishResult`
pub data FinishResult : Type 0 where
  success size_mismatch checksum_mismatch io_error : FinishResult

-- `LsIncomingTransfer`, over the type of open files.
pub record Transfer (F : Type 0) : Type 0 where
  pub state : TransferState
  pub sender : Option Device
  pub sender_ip : Bytes
  pub metadata : Metadata
  pub safe_file_name : Bytes
  pub session_id : Bytes
  pub file_token : Bytes
  pub final_path : Bytes
  pub part_path : Bytes
  pub error : Bytes
  pub received_bytes : ℕ
  pub state_changed_ms : ℕ
  pub last_activity_ms : ℕ
  pub file : Option F
  pub owns_part_file : Bool
  pub sha256 : Context

abbrev pub filename_capacity : ℕ
filename_capacity = 256

abbrev pub ipv4_capacity : ℕ
ipv4_capacity = 16

-- `error[128]`, cut as `vsnprintf` does.
abbrev error_text : Bytes → Bytes
error_text = take 127

abbrev pub is_waiting : TransferState → Bool
is_waiting waiting_for_user = true
is_waiting _ = false

abbrev pub is_accepted : TransferState → Bool
is_accepted accepted = true
is_accepted _ = false

abbrev pub is_receiving : TransferState → Bool
is_receiving receiving = true
is_receiving _ = false

-- `ls_transfer_is_busy`
abbrev pub is_busy : TransferState → Bool
is_busy s = is_waiting s || is_accepted s || is_receiving s

-- The byte at the front, where a missing one counts as 0.
abbrev front : Bytes → ℕ
front [] = 0
front (c ∷ _) = c

abbrev behind : Bytes → Bytes
behind [] = []
behind (_ ∷ cs) = cs

-- The loop of `constant_time_equal`, over the rounds left. Of `difference` only whether it is 0 is
-- kept: `a ^ b` is 0 just where `a` is `b`, and `|` is 0 just where both sides are.
unfoldable pub compare_loop : ℕ → Bytes → Bytes → Bool → Bool
compare_loop zero left right same = same
compare_loop (suc rounds) left right same =
    compare_loop rounds (behind left) (behind right) (same && front left == front right)

unfoldable pub constant_time_equal : Bytes → ℕ → Bytes → Bool
unfolding compare_loop
constant_time_equal left capacity right =
    compare_loop (capacity - 1) left right (length left == length right)

-- `ls_filename_result_string`
unfoldable pub filename_result_string : FilenameError → Bytes
filename_result_string empty = codes "empty filename"
filename_result_string too_long = codes "filename too long"
filename_result_string invalid_utf8 = codes "invalid UTF-8"
filename_result_string path_escape = codes "path separator or traversal"
filename_result_string invalid_character = codes "invalid filename character"

abbrev pub no_metadata : Metadata
no_metadata = record {
  id = [];
  file_name = [];
  size = 0;
  file_type = [];
  has_sha256 = false;
  sha256 = [];
}

abbrev zero_context : Context
zero_context = record {
  state = record { a = 0; b = 0; c = 0; d = 0; e = 0; f = 0; g = 0; h = 0 };
  bit_count = 0;
  block = [];
}

module _ {F : Type 0} where
  -- `ls_transfer_init`: everything is 0.
  unfoldable pub init : Transfer F
  init = record {
    state = idle;
    sender = none;
    sender_ip = [];
    metadata = no_metadata;
    safe_file_name = [];
    session_id = [];
    file_token = [];
    final_path = [];
    part_path = [];
    error = [];
    received_bytes = 0;
    state_changed_ms = 0;
    last_activity_ms = 0;
    file = none;
    owns_part_file = false;
    sha256 = zero_context;
  }

  unfoldable pub set_error : Bytes → Transfer F → Transfer F
  set_error text t = record t { error = error_text text }

  unfoldable pub invalidate_credentials : Transfer F → Transfer F
  invalidate_credentials t = record t { session_id = []; file_token = [] }

  -- A change of state, with its time.
  abbrev enter : TransferState → ℕ → Transfer F → Transfer F
  enter s now t = record t { state = s; state_changed_ms = now }

  -- `ls_transfer_reject`
  unfoldable pub reject : Transfer F → ℕ → Transfer F
  unfolding set_error invalidate_credentials
  reject t now =
      if is_waiting t.state
      then set_error (codes "Rejected by user") (enter rejected now (invalidate_credentials t))
      else t

  -- `ls_transfer_validate_upload`
  unfoldable pub validate_upload : Transfer F → Bytes → Bytes → Bytes → Bytes → Bool
  validate_upload t sender_ip session_id file_id token =
      is_accepted t.state
      && str_eq t.sender_ip sender_ip
      && constant_time_equal t.session_id 65 session_id
      && constant_time_equal t.metadata.id 129 file_id
      && constant_time_equal t.file_token 65 token

module _ (p : Platform) where
  open p use {
    World, File, errno, path_exists, open_new, fdopen, fwrite, fflush, fclose, close, unlink,
    rename,
  }

  -- The record and the world behind a call.
  abbrev pub After : Type 0
  After = Transfer File × World

  close_file : Option File → World → World
  close_file none w = w
  close_file (some f) w = (fclose w f).1

  remove_part : Transfer File → World → World
  remove_part t w =
      if t.owns_part_file && not (is_empty t.part_path) then unlink w t.part_path else w

  unfoldable pub close_and_remove_partial : Transfer File → World → After
  unfolding close_file remove_part
  close_and_remove_partial t w =
      (record t { file = none; owns_part_file = false }, remove_part t (close_file t.file w))

  -- `ls_transfer_fail`
  unfoldable pub fail : Transfer File → Bytes → ℕ → World → After
  unfolding set_error invalidate_credentials
  fail t message now w =
      let (closed, w') = close_and_remove_partial t w in
      (set_error message (enter failed now (invalidate_credentials closed)), w')

  -- `ls_transfer_cancel`
  unfoldable pub cancel : Transfer File → Bytes → ℕ → World → After
  unfolding set_error invalidate_credentials
  cancel t message now w =
      if is_busy t.state
      then (let (closed, w') = close_and_remove_partial t w in
          (set_error message (enter cancelled now (invalidate_credentials closed)), w'))
      else (t, w)

  -- `ls_transfer_begin_request`
  unfoldable pub begin_request :
      Transfer File → PrepareUploadRequest → Bytes → ℕ → World → Bool × After
  unfolding init
  begin_request t request sender_ip now w =
      if is_busy t.state || is_empty sender_ip || leb ipv4_capacity (length sender_ip)
      then (false, (t, w))
      else let w' = (close_and_remove_partial t w).1 in
        (
          true,
          (
            record init {
              state = waiting_for_user;
              sender = some request.sender;
              sender_ip = sender_ip;
              metadata = request.file;
              state_changed_ms = now;
              last_activity_ms = now;
            },
            w',
          ),
        )

  -- The last part of `ls_transfer_accept`: two identifiers.
  with_token : Transfer File → Bytes → ℕ → Option Bytes × World → Bool × After
  with_token t session now (none, w) = (
    false,
    (
      enter failed now
          (invalidate_credentials (set_error (codes "Secure session generation failed") t)),
      w,
    ),
  )
  with_token t session now (some token, w) = (
    true,
    (
      record t {
        state = accepted;
        session_id = session;
        file_token = token;
        state_changed_ms = now;
        last_activity_ms = now;
        error = [];
      },
      w,
    ),
  )

  with_session : Transfer File → ℕ → Option Bytes × World → Bool × After
  with_session t now (none, w) = (
    false,
    (
      enter failed now
          (invalidate_credentials (set_error (codes "Secure session generation failed") t)),
      w,
    ),
  )
  with_session t now (some session, w) = with_token t session now (uuid p w)

  with_paths : Transfer File → ℕ → World → Option (Bytes × Bytes) → Bool × After
  with_paths t now w none =
      (false, (enter failed now (set_error (codes "Cannot select a safe destination path") t), w))
  with_paths t now w (some (final, part)) =
      with_session (record t { final_path = final; part_path = part }) now (uuid p w)

  with_directory : Transfer File → Bytes → ℕ → Bool × World → Bool × After
  with_directory t directory now (false, w) = (
    false,
    (
      enter failed now (
          set_error
            (codes "Cannot create download directory (errno " ++ decimal (errno w) ++ codes ")") t),
      w,
    ),
  )
  with_directory t directory now (true, w) =
      with_paths t now w (select_paths (path_exists w) directory t.safe_file_name path_capacity)

  with_name : Transfer File → Bytes → ℕ → World → Sanitized → Bool × After
  with_name t directory now w (refused e) = (
    false,
    (enter failed now (set_error (codes "Unsafe filename: " ++ filename_result_string e) t), w),
  )
  with_name t directory now w (clean name) =
      with_directory (record t { safe_file_name = name }) directory now
        (ensure_directory p w directory)

  -- `ls_transfer_accept`. The buffers of a name or path that was refused are left as they were;
  -- nothing but the log reads them.
  unfoldable pub accept : Transfer File → Bytes → ℕ → World → Bool × After
  unfolding with_name with_directory with_paths with_session with_token set_error
      invalidate_credentials
  accept t directory now w =
      if is_waiting t.state
      then with_name t directory now w (sanitize t.metadata.file_name filename_capacity)
      else (false, (t, w))

  -- `open` and `fdopen`: whether the part file was created, and the stream.
  abbrev open_part : Transfer File → World → Bool × Option File × World
  open_part t w =
      let (opened, w') = open_new w t.part_path in
      if opened
      then (let (f, w'') = fdopen w' t.part_path in (true, f, w''))
      else (false, t.file, w')

  -- Without a stream a part file that was created is removed again.
  no_stream : Transfer File → ℕ → Bool → World → Bool × After
  no_stream t now opened w =
      let w' = if opened then unlink (close w t.part_path) t.part_path else w in
      let owner = record t {
        owns_part_file = (if opened then false else t.owns_part_file);
        file = none;
      } in
      (
        false,
        (
          invalidate_credentials (
              enter failed now (
                set_error
                  (codes "Cannot open partial file (errno " ++ decimal (errno w') ++ codes ")")
                  owner)),
          w',
        ),
      )

  with_stream : Transfer File → ℕ → Bool × Option File × World → Bool × After
  with_stream t now (opened, none, w) = no_stream t now opened w
  with_stream t now (opened, some f, w) = (
    true,
    (
      record t {
        state = receiving;
        received_bytes = 0;
        sha256 = Sha256.init;
        state_changed_ms = now;
        last_activity_ms = now;
        file = some f;
        owns_part_file = opened || t.owns_part_file;
      },
      w,
    ),
  )

  -- `ls_transfer_begin_stream`
  unfoldable pub begin_stream : Transfer File → ℕ → Bool → ℕ → World → Bool × After
  unfolding with_stream no_stream set_error invalidate_credentials
  begin_stream t declared_size has_declared_size now w =
      if not (is_accepted t.state)
      then (false, (t, w))
      else if has_declared_size && not (declared_size == t.metadata.size)
      then (false, fail t (codes "Declared upload size does not match metadata") now w)
      else with_stream t now (open_part t w)

  -- The bytes are written, hashed and counted.
  write_to : File → Transfer File → Bytes → ℕ → World → Bool × After
  write_to f t bytes now w =
      let (count, w') = if is_empty bytes then (0, w) else fwrite w f bytes in
      if not (count == length bytes)
      then (false, fail t (codes "SD card write failed") now w')
      else (
        true,
        (
          record t {
            sha256 = Sha256.update t.sha256 bytes;
            received_bytes = t.received_bytes + length bytes;
            last_activity_ms = now;
          },
          w',
        ),
      )

  with_open : Option File → Transfer File → Bytes → ℕ → World → Bool × After
  with_open none t bytes now w = (false, (t, w))
  with_open (some f) t bytes now w =
      if ltb t.metadata.size t.received_bytes
        || ltb (t.metadata.size - t.received_bytes) (length bytes)
      then (false, fail t (codes "Upload exceeded declared file size") now w)
      else write_to f t bytes now w

  -- `ls_transfer_write`
  unfoldable pub write : Transfer File → Bytes → ℕ → World → Bool × After
  unfolding with_open write_to
  write t bytes now w =
      if is_receiving t.state then with_open t.file t bytes now w else (false, (t, w))

  abbrev digest_text : Transfer File → Bytes
  digest_text t = Sha256.hex (Sha256.finish t.sha256)

  -- The end of `ls_transfer_finish`: the part file gets its name.
  publish : Transfer File → ℕ → World → FinishResult × After
  publish t now w =
      if path_exists w t.final_path
      then (io_error, fail t (codes "Destination file appeared during transfer") now w)
      else let (moved, w') = rename w t.part_path t.final_path in
        if not moved then (io_error, fail t (codes "Cannot finalize partial file") now w') else (
          success,
          (
            invalidate_credentials (record t {
              owns_part_file = false;
              state = completed;
              state_changed_ms = now;
              last_activity_ms = now;
            }),
            w',
          ),
        )

  -- `ls_sha256_finish` clears the hash; nothing reads it afterwards.
  check_sum : Transfer File → ℕ → World → FinishResult × After
  check_sum t now w =
      if t.metadata.has_sha256 && not (constant_time_equal t.metadata.sha256 65 (digest_text t))
      then (checksum_mismatch, fail t (codes "SHA-256 checksum mismatch") now w)
      else publish t now w

  close_stream : File → Transfer File → ℕ → World → FinishResult × After
  close_stream f t now w =
      let (flushed, w1) = fflush w f in
      let (closed, w2) = fclose w1 f in
      let shut = record t { file = none } in
      if not flushed || not closed
      then (io_error, fail shut (codes "SD card flush/close failed") now w2)
      else check_sum shut now w2

  finish_open : Option File → Transfer File → ℕ → World → FinishResult × After
  finish_open none t now w = (io_error, (t, w))
  finish_open (some f) t now w =
      if not (t.received_bytes == t.metadata.size)
      then (size_mismatch, fail t (codes "Upload ended before declared file size") now w)
      else close_stream f t now w

  -- `ls_transfer_finish`
  unfoldable pub finish : Transfer File → ℕ → World → FinishResult × After
  unfolding finish_open close_stream check_sum publish invalidate_credentials
  finish t now w = if is_receiving t.state then finish_open t.file t now w else (io_error, (t, w))

-- `ls_transfer_state_string`
unfoldable pub state_string : TransferState → Bytes
state_string idle = codes "idle"
state_string waiting_for_user = codes "waiting for approval"
state_string accepted = codes "accepted"
state_string receiving = codes "receiving"
state_string completed = codes "completed"
state_string rejected = codes "rejected"
state_string cancelled = codes "cancelled"
state_string failed = codes "failed"
