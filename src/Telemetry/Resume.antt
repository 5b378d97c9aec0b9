-- ===== src/Telemetry/Resume.antt =====
-- A checkpoint that `FileTailer` persisted brings a new tailer back to the same place.
use cross_xagent.Base.{
  ◌^◌, ◌≤◌, ◌<◌, ◌≡◌, ◌≢◌, refl, sym, ◌⊎◌, some, ◌++◌, arith, le_bytes, length, length-append,
  length-le_bytes, le_value-le_bytes, take-append, drop-append,
}
use cross_xagent.Telemetry.Tailer.{
  Tailer, LogFile, ok, read_checkpoint, start_of, open_tailer, tailer_at, start_offset,
  persist_checkpoint,
}

-- The file that `persist_checkpoint` writes is read back as the place that was reached, where the
-- offset fits eight bytes and the signature sixteen.
pub read_checkpoint-persist_checkpoint :
    (tailer : Tailer)
    → tailer.pending_offset < 256 ^ 8
    → tailer.pending_signature < 256 ^ 16
    → read_checkpoint (some (persist_checkpoint tailer).0)
      ≡ ok (some (record { offset = tailer.pending_offset; signature = tailer.pending_signature }))
unfolding read_checkpoint persist_checkpoint
read_checkpoint-persist_checkpoint tailer ho hs =
    let a = le_bytes 8 tailer.pending_offset in
    let b = le_bytes 16 tailer.pending_signature in
    let n : length a ≡ 8 = length-le_bytes 8 tailer.pending_offset in
    let long : length (a ++ b) ≡ 24 =
      omega (arith, length-append a b, n, length-le_bytes 16 tailer.pending_signature) in
    rw
      (
        long,
        take-append 8 a b (sym n),
        drop-append 8 a b (sym n),
        le_value-le_bytes 8 tailer.pending_offset ho,
        le_value-le_bytes 16 tailer.pending_signature hs,
      )
      refl

-- A tailer opened from the persisted checkpoint, on a file of the same signature that is no shorter
-- than the offset reached, starts there with nothing skipped or repeated.
pub open_tailer-persist_checkpoint :
    (tailer : Tailer) (file : LogFile)
    → tailer.pending_offset < 256 ^ 8
    → tailer.pending_signature < 256 ^ 16
    → file.signature ≡ tailer.pending_signature
    → tailer.pending_offset ≤ length file.bytes
    → open_tailer (some (persist_checkpoint tailer).0) file
      ≡ ok (tailer_at tailer.pending_offset file)
unfolding open_tailer start_of
open_tailer-persist_checkpoint tailer file ho hs same long =
    rw (open_tailer, read_checkpoint-persist_checkpoint tailer ho hs) (ground (arith, same, long))

-- A file with another signature, or one that is shorter than the offset reached, is read from its
-- top: by a tailer that is running, and by one opened from a checkpoint of that place.
rotation_lem :
    (tailer : Tailer) (file : LogFile)
    → ((file.signature ≢ tailer.signature) ⊎ (length file.bytes < tailer.offset))
    → (start_offset tailer file ≡ 0)
      × (start_of (some (record { offset = tailer.offset; signature = tailer.signature })) file ≡ 0)
unfolding start_offset start_of
rotation_lem tailer file h = ground arith
