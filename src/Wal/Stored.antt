-- ===== src/Wal/Stored.antt =====
-- A WAL directory described by the payloads that its segments hold, and what the scan of
-- `Wal::open` makes of it.
use cross_xagent.Base.{
  ℕ, ◌+◌, ◌<◌, ◌≡◌, refl, ap, ◌∙◌, inl, inr, Bool-cases, some, List, [], ◌∷◌, ◌++◌, arith, Bytes,
  length, length-append, keep, take-append, ltb, ltb→le, if◌then◌else◌, ==-refl,
}
use mathlib.Core.List.{append_assoc, append-nil}
use cross_xagent.Wal.Disk.{Cursor, Files, find_file, write_file, open_segment}
use cross_xagent.Wal.Record.{RecordMeta}
use cross_xagent.Wal.Ops.{scan_segment, scan_segments}
use cross_xagent.Wal.Files.{keys, EndsAt}
use cross_xagent.Wal.Reads.{contents-of_find}
use cross_xagent.Wal.Scanning.{
  encode_all, Fits, metas_from, is_pending, IsTorn, scan_bytes-encode_all,
}

-- A segment: its whole records, and what an interrupted write left behind them.
pub record Segment : Type 0 where
  pub sequence : ℕ
  pub payloads : List Bytes
  pub torn : Bytes

-- The files of these segments, and the files without what is torn.
abbrev pub stored : List Segment → Files
stored [] = []
stored (g ∷ l) = (g.sequence, encode_all g.payloads ++ g.torn) ∷ stored l

abbrev pub repaired : List Segment → Files
repaired [] = []
repaired (g ∷ l) = (g.sequence, encode_all g.payloads) ∷ repaired l

abbrev pub Whole : List Segment → Type 0
Whole [] = Unit
Whole (g ∷ l) = Fits g.payloads × IsTorn g.torn × Whole l

-- The records that a cursor has not passed, and their payloads.
abbrev pub pending_metas : Cursor → List Segment → List RecordMeta
pending_metas c [] = []
pending_metas c (g ∷ l) =
    keep (is_pending c) (metas_from g.sequence 0 g.payloads) ++ pending_metas c l

abbrev pub pending_from : Cursor → ℕ → ℕ → List Bytes → List Bytes
pending_from c s offset [] = []
pending_from c s offset (p ∷ ps) =
    let rest = pending_from c s (offset + (8 + length p)) ps in
    if is_pending c (record { segment = s; offset = offset; payload_len = length p })
    then p ∷ rest
    else rest

abbrev pub pending_payloads : Cursor → List Segment → List Bytes
pending_payloads c [] = []
pending_payloads c (g ∷ l) = pending_from c g.sequence 0 g.payloads ++ pending_payloads c l

-- Every file of a list stands below a sequence number.
abbrev pub AllBelow : ℕ → Files → Type 0
AllBelow s [] = Unit
AllBelow s ((t, b) ∷ fs) = (t < s) × AllBelow s fs

AllBelow-next :
    (s t : ℕ) (b : Bytes) (fs : Files) → AllBelow s fs → s < t → AllBelow t (fs ++ ((s, b) ∷ []))
AllBelow-next s t b [] h lt = (lt, tt)
AllBelow-next s t b ((r, d) ∷ fs) h lt = (omega arith, AllBelow-next s t b fs h.1 lt)

pub find_file-append :
    (s : ℕ) (b : Bytes) (front back : Files)
    → AllBelow s front
    → find_file s (front ++ ((s, b) ∷ back)) ≡ some b
unfolding find_file
find_file-append s b [] back h = rw (==-refl s)
find_file-append s b ((t, d) ∷ front) back h = ground (arith, find_file-append s b front back h.1)

pub write_file-append :
    (s : ℕ) (x b : Bytes) (front back : Files)
    → AllBelow s front
    → write_file s x (front ++ ((s, b) ∷ back)) ≡ front ++ ((s, x) ∷ back)
unfolding write_file
write_file-append s x b [] back h = rw (==-refl s)
write_file-append s x b ((t, d) ∷ front) back h =
    ground (arith, write_file-append s x b front back h.1)

pub open_segment-found :
    (s : ℕ) (b : Bytes) (fs : Files) → find_file s fs ≡ some b → open_segment s fs ≡ fs
unfolding open_segment
open_segment-found s b fs h = rw (open_segment, h)

nil_of_length : (bytes : Bytes) → length bytes ≡ 0 → bytes ≡ []
nil_of_length [] h = refl
nil_of_length (b ∷ bytes) h = absurd (omega arith)

-- The torn tail of one segment is cut off.
scan_segment-stored :
    (c : Cursor) (s : ℕ) (ps : List Bytes) (torn : Bytes) (front back : Files)
    → AllBelow s front
    → Fits ps
    → IsTorn torn
    → scan_segment s c (front ++ ((s, encode_all ps ++ torn) ∷ back))
      ≡ (keep (is_pending c) (metas_from s 0 ps), front ++ ((s, encode_all ps) ∷ back))
unfolding scan_segment
scan_segment-stored c s ps torn front back below fits t =
    let file = encode_all ps ++ torn in
    let found = find_file-append s file front back below in
    rw (contents-of_find s _ file found, scan_bytes-encode_all s c ps torn fits t)
      (elim (Bool-cases (ltb (length (encode_all ps)) (length file))) [
        | inl e ↦
            rw (e, take-append (length (encode_all ps)) (encode_all ps) torn refl)
              (ap (λ fs. (keep (is_pending c) (metas_from s 0 ps), fs))
                (write_file-append s (encode_all ps) file front back below))
        | inr e ↦
            let nil : torn ≡ [] =
              nil_of_length torn
                (omega (arith, ltb→le _ _ e, length-append (encode_all ps) torn)) in
            let same : file ≡ encode_all ps =
              ap (λ b. encode_all ps ++ b) nil ∙ append-nil (encode_all ps) in
            rw (e, open_segment-found s file _ found)
              (ap (λ b. (keep (is_pending c) (metas_from s 0 ps), front ++ ((s, b) ∷ back))) same)
      ])

-- The files in front of a segment stand below it.
abbrev pub StartsBelow : List Segment → Files → Type 0
StartsBelow [] front = Unit
StartsBelow (g ∷ l) front = AllBelow g.sequence front

pub StartsBelow-next :
    (g : Segment) (l : List Segment) (front : Files) (a : ℕ) (b : Bytes)
    → EndsAt (keys (stored (g ∷ l))) a
    → AllBelow g.sequence front
    → StartsBelow l (front ++ ((g.sequence, b) ∷ []))
StartsBelow-next g [] front a b h below = tt
StartsBelow-next g (k ∷ l) front a b h below = AllBelow-next g.sequence k.sequence b front below h.0

EndsAt-rest :
    (g k : Segment) (l : List Segment) (a : ℕ)
    → EndsAt (keys (stored (g ∷ k ∷ l))) a
    → EndsAt (keys (stored (k ∷ l))) a
EndsAt-rest g k l a h = h.1

scan_one :
    (c : Cursor) (g : Segment) (l : List Segment) (front : Files)
    → AllBelow g.sequence front
    → Whole (g ∷ l)
    → scan_segments
        (keys (stored l))
        c
        ((front ++ ((g.sequence, encode_all g.payloads) ∷ [])) ++ stored l)
      ≡ (pending_metas c l, (front ++ ((g.sequence, encode_all g.payloads) ∷ [])) ++ repaired l)
    → scan_segments (keys (stored (g ∷ l))) c (front ++ stored (g ∷ l))
      ≡ (pending_metas c (g ∷ l), front ++ repaired (g ∷ l))
unfolding scan_segments
scan_one c g l front below whole later =
    let one : Files = (g.sequence, encode_all g.payloads) ∷ [] in
    rw (scan_segment-stored c g.sequence g.payloads g.torn front (stored l) below whole.0 whole.1)
      (rw (← append_assoc front one (stored l), later, append_assoc front one (repaired l)) refl)

-- The scan of all segments lists the pending records of each, and leaves the files repaired.
pub scan_segments-stored :
    (c : Cursor) (l : List Segment) (a : ℕ) (front : Files)
    → EndsAt (keys (stored l)) a
    → Whole l
    → StartsBelow l front
    → scan_segments (keys (stored l)) c (front ++ stored l)
      ≡ (pending_metas c l, front ++ repaired l)
unfolding scan_segments
scan_segments-stored c [] a front h whole below = absurd h
scan_segments-stored c (g ∷ []) a front h whole below = scan_one c g [] front below whole refl
scan_segments-stored c (g ∷ k ∷ l) a front h whole below = scan_one c g (k ∷ l) front below whole (
    scan_segments-stored c (k ∷ l) a (front ++ ((g.sequence, encode_all g.payloads) ∷ [])) h.1
      whole.2 (StartsBelow-next g (k ∷ l) front a (encode_all g.payloads) h below))
