-- ===== src/Wal/Passing.antt =====
-- `next` of any log, damaged records and missing files included.
use cross_xagent.Base.{
  ℕ, ◌≡◌, ◌≢◌, refl, sym, ap, ◌⊎◌, inl, inr, Option, none, some, Bool-cases, List, [], ◌∷◌, ◌++◌,
  arith, Bytes, ◌==◌, ==→eq,
}
use cross_xagent.Wal.Disk.{Result, ok, err, Error, Files}
use mathlib.Core.Path.{subst}
use cross_xagent.Wal.Record.{RecordMeta, WalEntry, crc32}
use cross_xagent.Wal.Found.{IsIn, IsUnreadable, read_record-cases}
use cross_xagent.Wal.Ops.{Wal, Step, next_loop, next}

-- The record stands in its file, and its checksum is not that of its payload.
abbrev pub IsCorrupt : Files → RecordMeta → Type 0
IsCorrupt fs m =
    (checksum : ℕ) × (payload : Bytes) × IsIn fs m checksum payload × (crc32 payload ≢ checksum)

abbrev pub AreCorrupt : Files → List RecordMeta → Type 0
AreCorrupt fs [] = Unit
AreCorrupt fs (m ∷ ms) = IsCorrupt fs m × AreCorrupt fs ms

-- The answer at the first record that is not corrupt.
abbrev pub Answers : Files → List RecordMeta → Result (Option WalEntry) → Type 0
Answers fs [] r = r ≡ ok none
Answers fs (m ∷ ms) r =
    ((e : Error) × IsUnreadable fs m e × (r ≡ err e))
    ⊎ ((payload : Bytes) × IsIn fs m (crc32 payload) payload
        × (r ≡ ok (some (record { segment = m.segment; offset = m.offset; payload = payload }))))

record Passes (fs : Files) (ms : List RecordMeta) (r : Result (Option WalEntry) × List RecordMeta)
    : Type 0 where
  skipped : List RecordMeta
  split : ms ≡ skipped ++ r.1
  corrupt : AreCorrupt fs skipped
  answers : Answers fs r.1 r.0

next_loop-Passes : (fs : Files) (ms : List RecordMeta) → Passes fs ms (next_loop fs ms)
unfolding next_loop
next_loop-Passes fs [] = record { skipped = []; split = refl; corrupt = tt; answers = refl }
next_loop-Passes fs (m ∷ ms) = elim (read_record-cases fs m) [
  | inl (e, failed, why) ↦
      rw (failed, next_loop)
        (record { skipped = []; split = refl; corrupt = tt; answers = inl (e, why, refl) })
  | inr (checksum, payload, read, stands) ↦ elim (Bool-cases (crc32 payload == checksum)) [
    | inl same ↦
        let own : IsIn fs m (crc32 payload) payload =
          subst (λ c. IsIn fs m c payload) (sym (==→eq (crc32 payload) checksum same)) stands in
        rw (read, next_loop, same)
          (record { skipped = []; split = refl; corrupt = tt; answers = inr (payload, own, refl) })
    | inr differs ↦
        let rest = next_loop-Passes fs ms in
        rw (read, next_loop, differs)
          (record {
            skipped = m ∷ rest.skipped;
            split = ap (λ l. m ∷ l) rest.split;
            corrupt = ((checksum, payload, stands, ground (arith, differs)), rest.corrupt);
            answers = rest.answers;
          })
  ]
]

-- What `next` made of a log.
pub record Passed (w : Wal) (r : Step (Option WalEntry)) : Type 0 where
  pub skipped : List RecordMeta
  pub rest : List RecordMeta
  pub split : w.records ≡ skipped ++ rest
  pub corrupt : AreCorrupt w.disk.files skipped
  pub answers : Answers w.disk.files rest r.0
  pub log : r.1 ≡ record w { records = rest }

-- On any log `next` takes from the front of the index exactly the records that stand whole in their
-- segment files with a checksum that is not that of their payload, changes nothing else, and answers
-- for the first other record: it is returned with its place where it stands whole in its file with
-- the checksum of its payload, and is an error, and stays, where its file is missing or ends before
-- the record does; nothing is answered where no record is left.
pub next-Passed : (w : Wal) → Passed w (next w)
unfolding next
next-Passed w =
    let p = next_loop-Passes w.disk.files w.records in
    record {
      skipped = p.skipped;
      rest = (next_loop w.disk.files w.records).1;
      split = p.split;
      corrupt = p.corrupt;
      answers = p.answers;
      log = refl;
    }
