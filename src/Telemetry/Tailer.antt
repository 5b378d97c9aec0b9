-- ===== src/Telemetry/Tailer.antt =====
-- `FileTailer` of crates/agent-telemetry/src/logs.rs. A poll sees one state of the log file. Of a
-- record only the body is kept, as bytes: the lossy decoding to a string, and the timestamp and
-- source that all records of a poll share, are left out.
use cross_xagent.Base.{
  ℕ, zero, suc, ◌+◌, ◌-◌, Bool, false, not, ◌&&◌, ◌||◌, Option, none, some, List, [], ◌∷◌, ◌++◌,
  Bytes, u64_max, le_bytes, le_value, length, take, drop, ltb, leb, ◌==◌, if◌then◌else◌,
}

abbrev pub max_poll_bytes : ℕ
max_poll_bytes = 524288

abbrev pub max_poll_records : ℕ
max_poll_records = 4096

pub record Tailer : Type 0 where
  pub offset : ℕ
  pub signature : ℕ
  pub pending_offset : ℕ
  pub pending_signature : ℕ

-- The file as its metadata and its bytes show it.
pub record LogFile : Type 0 where
  pub signature : ℕ
  pub bytes : Bytes

pub record Checkpoint : Type 0 where
  pub offset : ℕ
  pub signature : ℕ

pub data TailError : Type 0 where
  checkpoint_length offset_overflow : TailError

pub data Result {ℓ} (T : Type ℓ) : Type ℓ where
  failed : TailError → Result T
  ok : T → Result T

-- The bytes of a checkpoint file are there unless the file was not found.
unfoldable pub read_checkpoint : Option Bytes → Result (Option Checkpoint)
read_checkpoint none = ok none
read_checkpoint (some bytes) =
    if length bytes == 24
    then ok
        (some (record { offset = le_value (take 8 bytes); signature = le_value (drop 8 bytes) }))
    else failed checkpoint_length

-- Where a new tailer starts.
unfoldable pub start_of : Option Checkpoint → LogFile → ℕ
start_of (some checkpoint) file =
    if checkpoint.signature == file.signature && leb checkpoint.offset (length file.bytes)
    then checkpoint.offset
    else 0
start_of none file = length file.bytes

abbrev pub tailer_at : ℕ → LogFile → Tailer
tailer_at offset file = record {
  offset = offset;
  signature = file.signature;
  pending_offset = offset;
  pending_signature = file.signature;
}

-- `FileTailer::new`
unfoldable pub open_tailer : Option Bytes → LogFile → Result Tailer
open_tailer stored file = elim (read_checkpoint stored) [
  | failed e ↦ failed e
  | ok checkpoint ↦ ok (tailer_at (start_of checkpoint file) file)
]

abbrev pub push_first : ℕ → List Bytes → List Bytes
push_first byte [] = (byte ∷ []) ∷ []
push_first byte (line ∷ lines) = (byte ∷ line) ∷ lines

-- `bytes.split_inclusive(|byte| *byte == b'\n')`
unfoldable pub split_inclusive : Bytes → List Bytes
split_inclusive [] = []
split_inclusive (byte ∷ bytes) =
    let lines = split_inclusive bytes in
    if byte == 10 then (byte ∷ []) ∷ lines else push_first byte lines

-- `line.last() == Some(&b'\n')`
unfoldable pub is_complete : Bytes → Bool
is_complete [] = false
is_complete (byte ∷ []) = byte == 10
is_complete (byte ∷ next ∷ bytes) = is_complete (next ∷ bytes)

-- `strip_suffix(b"\r")`, or the bytes themselves.
unfoldable pub strip_cr : Bytes → Bytes
strip_cr [] = []
strip_cr (byte ∷ []) = if byte == 13 then [] else byte ∷ []
strip_cr (byte ∷ next ∷ bytes) = byte ∷ strip_cr (next ∷ bytes)

unfoldable pub body_of : Bytes → Bytes
body_of line = strip_cr (if is_complete line then take (length line - 1) line else line)

-- The loop of `poll`, over how many records are still allowed: the bodies, and the bytes consumed.
unfoldable pub poll_lines : Bool → ℕ → ℕ → List Bytes → List Bytes × ℕ
poll_lines window_full zero consumed lines = ([], consumed)
poll_lines window_full (suc allowed) consumed [] = ([], consumed)
poll_lines window_full (suc allowed) consumed (line ∷ lines) =
    let later = poll_lines window_full allowed (consumed + length line) lines in
    if not (is_complete line) && not (window_full && consumed == 0)
    then ([], consumed)
    else (body_of line ∷ later.0, later.1)

unfoldable pub start_offset : Tailer → LogFile → ℕ
start_offset tailer file =
    if not (file.signature == tailer.signature) || ltb (length file.bytes) tailer.offset
    then 0
    else tailer.offset

unfoldable pub poll : Tailer → LogFile → Result (List Bytes × Tailer)
poll tailer file =
    let start = start_offset tailer file in
    let bytes = take max_poll_bytes (drop start file.bytes) in
    let read =
      poll_lines (length bytes == max_poll_bytes) max_poll_records 0 (split_inclusive bytes) in
    if ltb u64_max (start + read.1)
    then failed offset_overflow
    else ok (
      read.0,
      record tailer { pending_offset = start + read.1; pending_signature = file.signature },
    )

-- The checkpoint file that is renamed into place, and the tailer behind it.
unfoldable pub persist_checkpoint : Tailer → Bytes × Tailer
persist_checkpoint tailer = (
  le_bytes 8 tailer.pending_offset ++ le_bytes 16 tailer.pending_signature,
  record tailer { offset = tailer.pending_offset; signature = tailer.pending_signature },
)
