-- ===== src/Telemetry/Replacing.antt =====
-- A stop in the middle of `persist_checkpoint` leaves the old checkpoint or the new one.
use cross_xagent.Base.{
  ℕ, zero, suc, ◌^◌, ◌≤◌, ◌<◌, ◌≡◌, refl, sym, ap, ◌∙◌, ◌⊎◌, inl, inr, some, arith, length,
}
use cross_xagent.Telemetry.Tailer.{Tailer, LogFile, ok, tailer_at, open_tailer, persist_checkpoint}
use cross_xagent.Telemetry.Checkpoints.{
  file_signature, CheckpointFiles, apply_write, persist_writes, stopped_after,
}
use cross_xagent.Telemetry.Resume.{open_tailer-persist_checkpoint}

-- A signature tells files apart, and fits the checkpoint.
pub file_signature-injective :
    (dev dev' ino ino' : ℕ)
    → ino < 2 ^ 64
    → ino' < 2 ^ 64
    → file_signature dev ino ≡ file_signature dev' ino'
    → (dev ≡ dev') × (ino ≡ ino')
unfolding file_signature
file_signature-injective dev dev' ino ino' h h' e =
    (omega (arith, h, h', e), omega (arith, h, h', e))

stopped_after-checkpoint :
    (done bytes : ℕ) (tailer : Tailer) (files : CheckpointFiles)
    → let after = stopped_after done bytes (persist_writes tailer) files in
      (after.checkpoint ≡ files.checkpoint)
      ⊎ (after.checkpoint ≡ some (persist_checkpoint tailer).0)
unfolding stopped_after apply_write persist_checkpoint
stopped_after-checkpoint zero bytes tailer files = inl refl
stopped_after-checkpoint (suc zero) bytes tailer files = inl refl
stopped_after-checkpoint (suc (suc zero)) bytes tailer files = inl refl
stopped_after-checkpoint (suc (suc (suc zero))) bytes tailer files = inl refl
stopped_after-checkpoint (suc (suc (suc (suc zero)))) bytes tailer files = inl refl
stopped_after-checkpoint (suc (suc (suc (suc (suc done))))) bytes tailer files = inr refl

-- Where a tailer has persisted a checkpoint, and a later one is stopped anywhere in persisting its
-- own, after any number of whole writes and any part of the next: on the same file, at least as long
-- as both places, a tailer that is opened from what is there starts at the one place or the other.
-- Offsets fit 8 bytes, and the signature 16.
pub open_tailer-stopped :
    (done bytes : ℕ) (old new : Tailer) (files : CheckpointFiles) (file : LogFile)
    → files.checkpoint ≡ some (persist_checkpoint old).0
    → old.pending_offset < 256 ^ 8
    → new.pending_offset < 256 ^ 8
    → file.signature < 256 ^ 16
    → old.pending_signature ≡ file.signature
    → new.pending_signature ≡ file.signature
    → old.pending_offset ≤ length file.bytes
    → new.pending_offset ≤ length file.bytes
    → let after = stopped_after done bytes (persist_writes new) files in
      (open_tailer after.checkpoint file ≡ ok (tailer_at old.pending_offset file))
      ⊎ (open_tailer after.checkpoint file ≡ ok (tailer_at new.pending_offset file))
open_tailer-stopped done bytes old new files file persisted ho hn hs so sn lo ln =
    let opened : (t : Tailer)
        → t.pending_offset < 256 ^ 8
        → t.pending_signature ≡ file.signature
        → t.pending_offset ≤ length file.bytes
        → open_tailer (some (persist_checkpoint t).0) file ≡ ok (tailer_at t.pending_offset file) =
      λ t h s l. open_tailer-persist_checkpoint t file h (omega (arith, hs, s)) (sym s) l in
    elim (stopped_after-checkpoint done bytes new files) [
      | inl same ↦ inl (ap (λ c. open_tailer c file) (same ∙ persisted) ∙ opened old ho so lo)
      | inr replaced ↦ inr (ap (λ c. open_tailer c file) replaced ∙ opened new hn sn ln)
    ]
