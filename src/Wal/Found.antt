-- ===== src/Wal/Found.antt =====
-- What stands in a segment file where a record of the index should be, by the parts of the file.
use cross_xagent.Base.{
  ℕ, ◌+◌, ◌-◌, ◌≤◌, ◌<◌, ◌≡◌, refl, sym, ap, ◌∙◌, ◌⊎◌, inl, inr, Option, none, some, Bool-cases,
  ◌++◌, arith, Bytes, le_value, length, length-take, length-drop, take, drop, take-append-drop,
  drop-drop, ltb, ltb→le,
}
use cross_xagent.Wal.Disk.{Error, ok, err, missing_file, short_read, Files, find_file}
use cross_xagent.Wal.Record.{RecordMeta, read_exact, read_at, read_record}

-- At the offset the file has four bytes of a length, four of a checksum, and the payload.
pub record Holds (file : Bytes) (m : RecordMeta) (checksum : ℕ) (payload : Bytes) : Type 0 where
  pub before : Bytes
  pub length_bytes : Bytes
  pub checksum_bytes : Bytes
  pub after : Bytes
  pub parts : file ≡ before ++ ((length_bytes ++ checksum_bytes) ++ (payload ++ after))
  pub at_offset : length before ≡ m.offset
  pub four_of_length : length length_bytes ≡ 4
  pub four_of_checksum : length checksum_bytes ≡ 4
  pub value : le_value checksum_bytes ≡ checksum
  pub as_long : length payload ≡ m.payload_len

abbrev pub IsIn : Files → RecordMeta → ℕ → Bytes → Type 0
IsIn fs m checksum payload =
    (file : Bytes) × (find_file m.segment fs ≡ some file) × Holds file m checksum payload

-- The file is missing, or it ends before the record does.
abbrev pub IsUnreadable : Files → RecordMeta → Error → Type 0
IsUnreadable fs m e =
    ((find_file m.segment fs ≡ none) × (e ≡ missing_file))
    ⊎ ((file : Bytes) × (find_file m.segment fs ≡ some file)
        × (length file < m.offset + (8 + m.payload_len))
        × (e ≡ short_read))

Holds-parts :
    (m : RecordMeta) (file : Bytes)
    → m.offset + 8 + m.payload_len ≤ length file
    → Holds file m
        (le_value (drop 4 (take 8 (drop m.offset file))))
        (take m.payload_len (drop (m.offset + 8) file))
Holds-parts m file long =
    let from = drop m.offset file in
    let body = drop (m.offset + 8) file in
    let bytes : length from ≡ length file - m.offset = length-drop m.offset file in
    let header : length (take 8 from) ≡ 8 = omega (arith, length-take 8 from, bytes) in
    record {
      before = take m.offset file;
      length_bytes = take 4 (take 8 from);
      checksum_bytes = drop 4 (take 8 from);
      after = drop m.payload_len body;
      parts =
          sym (take-append-drop m.offset file)
          ∙ ap (λ l. take m.offset file ++ l)
              (sym (take-append-drop 8 from)
                ∙ ap (λ l. l ++ drop 8 from) (sym (take-append-drop 4 (take 8 from)))
                ∙ ap (λ l. (take 4 (take 8 from) ++ drop 4 (take 8 from)) ++ l)
                    (drop-drop 8 m.offset file ∙ sym (take-append-drop m.payload_len body)));
      at_offset = omega (arith, length-take m.offset file);
      four_of_length = omega (arith, length-take 4 (take 8 from), header);
      four_of_checksum = omega (arith, length-drop 4 (take 8 from), header);
      value = refl;
      as_long = omega (arith, length-take m.payload_len body, length-drop (m.offset + 8) file);
    }

read_at-cases :
    (m : RecordMeta) (file : Bytes)
    → ((length file < m.offset + (8 + m.payload_len)) × (read_at m file ≡ err short_read))
      ⊎ ((checksum : ℕ) × (payload : Bytes) × (read_at m file ≡ ok (checksum, payload))
          × Holds file m checksum payload)
unfolding read_at read_exact
read_at-cases m file = elim (Bool-cases (ltb (length file) (m.offset + 8))) [
  | inl short ↦ inl (ground (arith, short), rw (read_at, read_exact, short) refl)
  | inr header ↦ elim (Bool-cases (ltb (length file) (m.offset + 8 + m.payload_len))) [
    | inl short ↦ inl (ground (arith, short), rw (read_at, read_exact, header, short) refl)
    | inr long ↦ inr (
      le_value (drop 4 (take 8 (drop m.offset file))),
      take m.payload_len (drop (m.offset + 8) file),
      rw (read_at, read_exact, header, long) refl,
      Holds-parts m file (ltb→le _ _ long),
    )
  ]
]

-- A record is read from its place in its file, and cannot be read only for the two reasons.
pub read_record-cases :
    (fs : Files) (m : RecordMeta)
    → ((e : Error) × (read_record fs m ≡ err e) × IsUnreadable fs m e)
      ⊎ ((checksum : ℕ) × (payload : Bytes) × (read_record fs m ≡ ok (checksum, payload))
          × IsIn fs m checksum payload)
unfolding read_record
read_record-cases fs m = at (find_file m.segment fs) refl
  where
    at :
        (found : Option Bytes)
        → find_file m.segment fs ≡ found
        → ((e : Error) × (read_record fs m ≡ err e) × IsUnreadable fs m e)
          ⊎ ((checksum : ℕ) × (payload : Bytes) × (read_record fs m ≡ ok (checksum, payload))
              × IsIn fs m checksum payload)
    at none missing = inl (missing_file, rw (read_record, missing) refl, inl (missing, refl))
    at (some file) found = elim (read_at-cases m file) [
      | inl (short, failed) ↦
          inl (short_read, rw (read_record, found) failed, inr (file, found, short, refl))
      | inr (checksum, payload, read, holds) ↦
          inr (checksum, payload, rw (read_record, found) read, (file, found, holds))
    ]
