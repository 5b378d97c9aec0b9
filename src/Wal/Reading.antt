-- ===== src/Wal/Reading.antt =====
-- What `read_at` gives back: the record that `append` wrote at an offset, whatever follows it.
use cross_xagent.Base.{
  ℕ, ◌+◌, ◌≤◌, ◌≡◌, refl, sym, ap, ◌∙◌, inl, inr, Bool-cases, ◌++◌, arith, Bytes, u32_max, le_bytes,
  le_value, le_value-le_bytes, length-le_bytes, length, length-append, length-drop, take, drop,
  take-append, drop-append, take-append_le, drop-append_le, drop-drop, ltb, le→ltb, ltb→le,
}
use mathlib.Core.List.{append_assoc}
use cross_xagent.Wal.Disk.{ok, >>=-ok}
use cross_xagent.Wal.Record.{RecordMeta, crc32, encode_record, read_exact, read_at, header_bytes}

pub crc32-le : (bytes : Bytes) → crc32 bytes ≤ u32_max
unfolding crc32
crc32-le bytes = omega arith

pub length-encode_record : (p : Bytes) → length (encode_record p) ≡ 8 + length p
unfolding encode_record
length-encode_record p =
    length-append (le_bytes 4 (length p)) (le_bytes 4 (crc32 p) ++ p)
    ∙ omega (
      arith,
      length-append (le_bytes 4 (crc32 p)) p,
      length-le_bytes 4 (length p),
      length-le_bytes 4 (crc32 p),
    )

abbrev header : Bytes → Bytes
header p = le_bytes 4 (length p) ++ le_bytes 4 (crc32 p)

length-header : (p : Bytes) → 8 ≡ length (header p)
length-header p = omega (
  arith,
  length-append (le_bytes 4 (length p)) (le_bytes 4 (crc32 p)),
  length-le_bytes 4 (length p),
  length-le_bytes 4 (crc32 p),
)

-- An encoded record as its header and its payload, with what follows.
record_parts : (p rest : Bytes) → encode_record p ++ rest ≡ header p ++ (p ++ rest)
unfolding encode_record
record_parts p rest = simp append_assoc

take-record : (p rest : Bytes) → take 8 (encode_record p ++ rest) ≡ header p
take-record p rest = rw record_parts (take-append 8 (header p) (p ++ rest) (length-header p))

drop-record : (p rest : Bytes) → drop 8 (encode_record p ++ rest) ≡ p ++ rest
drop-record p rest = rw record_parts (drop-append 8 (header p) (p ++ rest) (length-header p))

-- The length field of an encoded record.
pub length_field :
    (p rest : Bytes) → length p ≤ u32_max → le_value (take 4 (encode_record p ++ rest)) ≡ length p
unfolding encode_record
length_field p rest h =
    let len = le_bytes 4 (length p) in
    ap le_value (
      ap (take 4) (append_assoc len (le_bytes 4 (crc32 p) ++ p) rest)
      ∙ take-append 4 len _ (sym (length-le_bytes 4 (length p))))
    ∙ le_value-le_bytes 4 (length p) (omega arith)

-- The checksum field of a header.
checksum_field : (p : Bytes) → le_value (drop 4 (header p)) ≡ crc32 p
checksum_field p =
    let len = le_bytes 4 (length p) in
    ap le_value (drop-append 4 len _ (sym (length-le_bytes 4 (length p))))
    ∙ le_value-le_bytes 4 (crc32 p) (omega (arith, crc32-le p))

pub read_exact_ok :
    (offset n : ℕ) (file : Bytes)
    → offset + n ≤ length file
    → read_exact offset n file ≡ ok (take n (drop offset file))
unfolding read_exact
read_exact_ok offset n file h = rw (le→ltb (length file) (offset + n) h)

drop-front : (n : ℕ) (front rest : Bytes) → drop (length front + n) (front ++ rest) ≡ drop n rest
drop-front n front rest =
    sym (drop-drop n (length front) (front ++ rest)) ∙ ap (drop n) (drop-append _ front rest refl)

length-file :
    (front p back : Bytes)
    → length (front ++ (encode_record p ++ back)) ≡ length front + (8 + length p) + length back
length-file front p back = omega (
  arith,
  length-append front (encode_record p ++ back),
  length-append (encode_record p) back,
  length-encode_record p,
)

read_header :
    (front p back : Bytes)
    → read_exact (length front) header_bytes (front ++ (encode_record p ++ back)) ≡ ok (header p)
read_header front p back =
    read_exact_ok _ _ _ (omega (arith, length-file front p back))
    ∙ ap (λ bytes. ok (take 8 bytes)) (drop-append _ front _ refl)
    ∙ ap ok (take-record p back)

read_payload :
    (front p back : Bytes)
    → read_exact (length front + header_bytes) (length p) (front ++ (encode_record p ++ back))
      ≡ ok p
read_payload front p back =
    read_exact_ok _ _ _ (omega (arith, length-file front p back))
    ∙ ap (λ bytes. ok (take (length p) bytes)) (drop-front 8 front _ ∙ drop-record p back)
    ∙ ap ok (take-append _ p back refl)

-- A record is read back with its own checksum, wherever it stands in a segment.
pub read_at-encode_record :
    (s : ℕ) (front p back : Bytes)
    → read_at
        (record { segment = s; offset = length front; payload_len = length p })
        (front ++ (encode_record p ++ back))
      ≡ ok (crc32 p, p)
unfolding read_at
read_at-encode_record s front p back =
    rw (read_header front p back, read_payload front p back)
      (ap (λ c. ok (c, p)) (checksum_field p))

read_exact-append :
    (offset n : ℕ) (file more bytes : Bytes)
    → read_exact offset n file ≡ ok bytes
    → read_exact offset n (file ++ more) ≡ ok bytes
read_exact-append offset n file more bytes h = elim (Bool-cases (ltb (length file) (offset + n))) [
  | inl short ↦ unfold read_exact in cc (rw short at h)
  | inr fits ↦
      let long : offset + n ≤ length file = ltb→le _ _ fits in
      read_exact_ok offset n (file ++ more) (omega (arith, length-append file more))
      ∙ ap ok (
          ap (take n) (drop-append_le offset file more (omega arith))
          ∙ take-append_le n (drop offset file) more (omega (arith, length-drop offset file)))
      ∙ sym (read_exact_ok offset n file long)
      ∙ h
]

-- Bytes written behind a record do not change what is read.
pub read_at-append :
    (m : RecordMeta) (file more : Bytes) (crc : ℕ) (payload : Bytes)
    → read_at m file ≡ ok (crc, payload)
    → read_at m (file ++ more) ≡ ok (crc, payload)
unfolding read_at
read_at-append m file more crc payload h =
    let (head, e, h') = >>=-ok (read_exact m.offset header_bytes file) _ h in
    let (body, e', h'') = >>=-ok (read_exact (m.offset + header_bytes) m.payload_len file) _ h' in
    rw
      (
        read_exact-append m.offset header_bytes file more head e,
        read_exact-append (m.offset + header_bytes) m.payload_len file more body e',
      )
      h''
