-- ===== src/Wal/Reads.antt =====
-- The records of the index beside the payloads that they stand for on disk.
use cross_xagent.Base.{
  ℕ, ◌≡◌, ◌≢◌, refl, sym, ap, ◌∙◌, Option, none, some, Bool-cases, inl, inr, ==→eq, List, [], ◌∷◌,
  ◌++◌, Bytes, length, ◌==◌, ==-refl,
}
use mathlib.Core.List.{append-nil}
use cross_xagent.Wal.Disk.{ok, Files, find_file, write_file, unlink, contents, open_segment}
use cross_xagent.Wal.Record.{RecordMeta, crc32, encode_record, read_at, read_record}
use cross_xagent.Wal.Files.{find_file-write_file, find_file-unlink_ne, find_file-open_segment}
use cross_xagent.Wal.Reading.{read_at-encode_record, read_at-append}

-- The `i`-th record of the index is read back as the `i`-th payload, with a checksum that fits.
abbrev pub Reads : Files → List RecordMeta → List Bytes → Type 0
Reads fs [] [] = Unit
Reads fs [] (p ∷ ps) = ⊥
Reads fs (m ∷ ms) [] = ⊥
Reads fs (m ∷ ms) (p ∷ ps) = (read_record fs m ≡ ok (crc32 p, p)) × Reads fs ms ps

pub Reads-append :
    (fs : Files) (ms ns : List RecordMeta) (ps qs : List Bytes)
    → Reads fs ms ps
    → Reads fs ns qs
    → Reads fs (ms ++ ns) (ps ++ qs)
Reads-append fs [] ns [] qs h k = k
Reads-append fs [] ns (p ∷ ps) qs h k = absurd h
Reads-append fs (m ∷ ms) ns [] qs h k = absurd h
Reads-append fs (m ∷ ms) ns (p ∷ ps) qs h k = (h.0, Reads-append fs ms ns ps qs h.1 k)

-- A successful read found the record's segment file.
pub read_record-find :
    (fs : Files) (m : RecordMeta) (x : ℕ × Bytes)
    → read_record fs m ≡ ok x
    → (file : Bytes) × (find_file m.segment fs ≡ some file) × (read_at m file ≡ ok x)
unfolding read_record
read_record-find fs m x h = go (find_file m.segment fs) refl
  where
    go :
        (found : Option Bytes)
        → find_file m.segment fs ≡ found
        → (file : Bytes) × (find_file m.segment fs ≡ some file) × (read_at m file ≡ ok x)
    go none e = cc (rw (e, read_record) at h)
    go (some file) e = (file, e, rw (e, read_record) at h)

pub read_record-of_find :
    (fs : Files) (m : RecordMeta) (file : Bytes)
    → find_file m.segment fs ≡ some file
    → read_record fs m ≡ read_at m file
unfolding read_record
read_record-of_find fs m file e = rw (e, read_record)

-- A change of the files that only lets them grow keeps what is read.
abbrev pub Grows : Files → Files → Type 0
Grows fs gs =
    (s : ℕ) (file : Bytes)
    → find_file s fs ≡ some file
    → (more : Bytes) × (find_file s gs ≡ some (file ++ more))

pub read_record-Grows :
    (fs gs : Files)
    → Grows fs gs
    → (m : RecordMeta) (crc : ℕ) (p : Bytes) → read_record fs m ≡ ok (crc, p)
    → read_record gs m ≡ ok (crc, p)
read_record-Grows fs gs g m crc p h =
    let (file, e, r) = read_record-find fs m (crc, p) h in
    let (more, e') = g m.segment file e in
    read_record-of_find gs m (file ++ more) e' ∙ read_at-append m file more crc p r

pub Reads-Grows :
    (fs gs : Files)
    → Grows fs gs
    → (ms : List RecordMeta) (ps : List Bytes) → Reads fs ms ps
    → Reads gs ms ps
Reads-Grows fs gs g [] [] h = h
Reads-Grows fs gs g [] (p ∷ ps) h = h
Reads-Grows fs gs g (m ∷ ms) [] h = h
Reads-Grows fs gs g (m ∷ ms) (p ∷ ps) h =
    (read_record-Grows fs gs g m (crc32 p) p h.0, Reads-Grows fs gs g ms ps h.1)

pub Grows-open_segment : (s : ℕ) (fs : Files) → Grows fs (open_segment s fs)
Grows-open_segment s fs t file h =
    ([], find_file-open_segment s t fs h ∙ ap some (sym (append-nil file)))

pub contents-of_find :
    (s : ℕ) (fs : Files) (file : Bytes) → find_file s fs ≡ some file → contents s fs ≡ file
unfolding contents
contents-of_find s fs file h = rw (h, contents)

pub Grows-write_file :
    (s : ℕ) (fs : Files) (more : Bytes) → Grows fs (write_file s (contents s fs ++ more) fs)
Grows-write_file s fs more t file h = elim (Bool-cases (s == t)) [
  | inl same ↦
      let e : find_file s fs ≡ some file = rw (==→eq s t same) h in
      (
        more,
        rw (find_file-write_file, same) (ap (λ b. some (b ++ more)) (contents-of_find s fs file e)),
      )
  | inr other ↦ ([], rw (find_file-write_file, other) (h ∙ ap some (sym (append-nil file))))
]

-- Taking one segment away keeps what the others hold.
pub read_record-unlink :
    (s : ℕ) (fs : Files) (m : RecordMeta)
    → s ≢ m.segment
    → read_record (unlink s fs) m ≡ read_record fs m
unfolding read_record
read_record-unlink s fs m h = rw (find_file-unlink_ne s m.segment fs h, read_record)

-- The record that was just written.
pub read_record-written :
    (s : ℕ) (fs : Files) (p : Bytes)
    → read_record
        (write_file s (contents s fs ++ encode_record p) fs)
        (record { segment = s; offset = length (contents s fs); payload_len = length p })
      ≡ ok (crc32 p, p)
read_record-written s fs p =
    let old = contents s fs in
    read_record-of_find _ _ (old ++ (encode_record p ++ [])) (
      find_file-write_file s s _ fs
      ∙ rw (==-refl s) (ap some (ap (λ r. old ++ r) (sym (append-nil (encode_record p))))))
    ∙ read_at-encode_record s old p []
