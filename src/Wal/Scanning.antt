-- ===== src/Wal/Scanning.antt =====
-- `scan_loop` on a segment that holds whole records and, behind them, a torn one.
use cross_xagent.Base.{
  ℕ, zero, suc, ◌+◌, ◌≤◌, ◌<◌, ◌≡◌, refl, sym, ap, ◌∙◌, ◌⊎◌, inl, inr, Bool-cases, Bool, List, [],
  ◌∷◌, ◌++◌, arith, Bytes, u32_max, le_value, length, length-append, keep, take, ltb, le→ltb,
  lt→ltb, drop-append,
}
use mathlib.Core.List.{append_assoc}
use cross_xagent.Wal.Disk.{Cursor}
use cross_xagent.Wal.Record.{RecordMeta, encode_record, at_or_after, scan_loop, scan_bytes}
use cross_xagent.Wal.Reading.{length-encode_record, length_field}

-- The bytes of a segment that holds these payloads.
abbrev pub encode_all : List Bytes → Bytes
encode_all [] = []
encode_all (p ∷ ps) = encode_record p ++ encode_all ps

-- Every payload's length fits the header.
abbrev pub Fits : List Bytes → Type 0
Fits [] = Unit
Fits (p ∷ ps) = (length p ≤ u32_max) × Fits ps

-- Where the records of these payloads stand, from an offset on.
abbrev pub metas_from : ℕ → ℕ → List Bytes → List RecordMeta
metas_from s offset [] = []
metas_from s offset (p ∷ ps) =
    record { segment = s; offset = offset; payload_len = length p }
    ∷ metas_from s (offset + (8 + length p)) ps

abbrev pub is_pending : Cursor → RecordMeta → Bool
is_pending c m = at_or_after m.segment m.offset c

-- What a write that stopped half-way leaves: less than a header, or less than the header announces.
abbrev pub IsTorn : Bytes → Type 0
IsTorn bytes = (length bytes < 8) ⊎ (length bytes < 8 + le_value (take 4 bytes))

scan_loop-torn :
    (fuel s : ℕ) (c : Cursor) (offset : ℕ) (torn : Bytes)
    → IsTorn torn
    → scan_loop fuel s c offset torn ≡ record { records = []; valid_end = offset }
unfolding scan_loop
scan_loop-torn zero s c offset torn h = refl
scan_loop-torn (suc fuel) s c offset torn (inl short) = rw (lt→ltb (length torn) 8 short)
scan_loop-torn (suc fuel) s c offset torn (inr short) = elim (Bool-cases (ltb (length torn) 8)) [
  | inl e ↦ rw e
  | inr e ↦ rw (e, lt→ltb (length torn) (8 + le_value (take 4 torn)) short)
]

length_enough : (p rest : Bytes) → length (encode_record p ++ rest) ≡ 8 + length p + length rest
length_enough p rest = omega (arith, length-append (encode_record p) rest, length-encode_record p)

-- One round of the loop, at a whole record.
scan_loop-step :
    (fuel s : ℕ) (c : Cursor) (offset : ℕ) (p rest : Bytes)
    → length p ≤ u32_max
    → scan_loop (suc fuel) s c offset (encode_record p ++ rest) ≡ (
        let later = scan_loop fuel s c (offset + (8 + length p)) rest in
        record {
          records =
              keep
                (is_pending c)
                (record { segment = s; offset = offset; payload_len = length p } ∷ [])
              ++ later.records;
          valid_end = later.valid_end;
        })
unfolding scan_loop
scan_loop-step fuel s c offset p rest h =
    rw
      (
        length_field p rest h,
        length_enough p rest,
        drop-append (8 + length p) (encode_record p) rest (sym (length-encode_record p)),
        le→ltb (8 + length p + length rest) 8 (omega arith),
        le→ltb (8 + length p + length rest) (8 + length p) (omega arith),
      )
      (ground arith)

pub keep-append :
    (f : RecordMeta → Bool) (ms ns : List RecordMeta) → keep f (ms ++ ns) ≡ keep f ms ++ keep f ns
keep-append f [] ns = refl
keep-append f (m ∷ ms) ns = elim (Bool-cases (f m)) [
  | inl e ↦ rw e (ap (λ r. m ∷ r) (keep-append f ms ns))
  | inr e ↦ rw e (keep-append f ms ns)
]

-- With enough fuel the loop finds every whole record, and ends where the torn bytes begin.
pub scan_loop-encode_all :
    (ps : List Bytes) (fuel s : ℕ) (c : Cursor) (offset : ℕ) (torn : Bytes)
    → Fits ps
    → IsTorn torn
    → length (encode_all ps ++ torn) < fuel
    → scan_loop fuel s c offset (encode_all ps ++ torn) ≡ record {
      records = keep (is_pending c) (metas_from s offset ps);
      valid_end = offset + length (encode_all ps);
    }
scan_loop-encode_all [] fuel s c offset torn fits h enough =
    rw (scan_loop-torn fuel s c offset torn h)
      (ap (λ e. record { records = []; valid_end = e }) (omega arith))
scan_loop-encode_all (p ∷ ps) zero s c offset torn fits h enough = absurd (omega arith)
scan_loop-encode_all (p ∷ ps) (suc fuel) s c offset torn fits h enough =
    let tail = encode_all ps ++ torn in
    let e = append_assoc (encode_record p) (encode_all ps) torn in
    ap (scan_loop (suc fuel) s c offset) e
    ∙ scan_loop-step fuel s c offset p tail fits.0
    ∙ rw
        (scan_loop-encode_all ps fuel s c (offset + (8 + length p)) torn fits.1 h
          (omega (arith, ap length e, length_enough p tail)))
        (ground (arith, length_enough p (encode_all ps)))

-- On a segment of whole records, with lengths that fit the header, and a torn tail, the scan
-- lists each record that the cursor has not passed, and ends where the torn bytes begin.
pub scan_bytes-encode_all :
    (s : ℕ) (c : Cursor) (ps : List Bytes) (torn : Bytes)
    → Fits ps
    → IsTorn torn
    → scan_bytes s c (encode_all ps ++ torn) ≡ record {
      records = keep (is_pending c) (metas_from s 0 ps);
      valid_end = length (encode_all ps);
    }
unfolding scan_bytes
scan_bytes-encode_all s c ps torn fits h =
    scan_loop-encode_all ps _ s c 0 torn fits h (omega arith)
    ∙ ap (λ n. record { records = keep (is_pending c) (metas_from s 0 ps); valid_end = n })
        (omega arith)
