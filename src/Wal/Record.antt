-- ===== src/Wal/Record.antt =====
-- The records of a segment in crates/crossx-agent/src/wal.rs: a header of the payload's length and
-- checksum, four bytes each, and the payload.
use Prim.Native.Nat.{bit_and, bit_xor}
use cross_xagent.Base.{
  ℕ, zero, suc, ◌+◌, ◌-◌, ◌/◌, ◌%◌, ◌^◌, Bool, ◌&&◌, ◌||◌, none, some, List, [], ◌∷◌, ◌++◌, Bytes,
  u32_max, le_bytes, le_value, length, take, drop, ltb, leb, ◌==◌, if◌then◌else◌,
}
use cross_xagent.Wal.Disk.{
  Result, ok, err, missing_file, short_read, Cursor, Files, find_file, ◌>>=◌,
}

abbrev pub header_bytes : ℕ
header_bytes = 8

abbrev pub segment_max_bytes : ℕ
segment_max_bytes = 4194304

pub record RecordMeta : Type 0 where
  pub segment : ℕ
  pub offset : ℕ
  pub payload_len : ℕ

pub record WalEntry : Type 0 where
  pub segment : ℕ
  pub offset : ℕ
  pub payload : Bytes

-- One bit of the checksum: `(crc >> 1) ^ (0xedb8_8320 & 0_u32.wrapping_sub(crc & 1))`.
crc_bit : ℕ → ℕ
crc_bit crc = bit_xor (crc / 2) (bit_and 0xedb88320 ((2 ^ 32 - bit_and crc 1) % 2 ^ 32))

crc_bits : ℕ → ℕ → ℕ
crc_bits zero crc = crc
crc_bits (suc n) crc = crc_bits n (crc_bit crc)

crc_from : ℕ → Bytes → ℕ
crc_from crc [] = crc
crc_from crc (byte ∷ bytes) = crc_from (crc_bits 8 (bit_xor crc byte)) bytes

unfoldable pub crc32 : Bytes → ℕ
unfolding crc_bit crc_bits crc_from
crc32 bytes = u32_max - crc_from u32_max bytes

-- What `append` writes for one payload.
unfoldable pub encode_record : Bytes → Bytes
encode_record payload = le_bytes 4 (length payload) ++ (le_bytes 4 (crc32 payload) ++ payload)

-- `seek` and `read_exact`
unfoldable pub read_exact : ℕ → ℕ → Bytes → Result Bytes
read_exact offset n file =
    if ltb (length file) (offset + n) then err short_read else ok (take n (drop offset file))

-- The expected checksum and the payload that `next` reads from an open segment.
unfoldable pub read_at : RecordMeta → Bytes → Result (ℕ × Bytes)
read_at m file = do
  header ← read_exact m.offset header_bytes file
  payload ← read_exact (m.offset + header_bytes) m.payload_len file
  ok (le_value (drop 4 header), payload)

unfoldable pub read_record : Files → RecordMeta → Result (ℕ × Bytes)
read_record fs m = elim (find_file m.segment fs) [
  | none ↦ err missing_file
  | some file ↦ read_at m file
]

-- Whether a record at this place is not before the cursor.
unfoldable pub at_or_after : ℕ → ℕ → Cursor → Bool
at_or_after segment offset cursor =
    ltb cursor.segment segment || (segment == cursor.segment && leb cursor.offset offset)

pub record Scan : Type 0 where
  pub records : List RecordMeta
  pub valid_end : ℕ

abbrev push_scan : Bool → RecordMeta → Scan → Scan
push_scan pending m s = record s { records = if pending then m ∷ s.records else s.records }

-- The loop of `scan_segment`; `rest` is the file from `offset` on. Each round takes eight bytes at
-- least, so the length of the file is enough fuel.
unfoldable pub scan_loop : ℕ → ℕ → Cursor → ℕ → Bytes → Scan
scan_loop zero segment cursor offset rest = record { records = []; valid_end = offset }
scan_loop (suc fuel) segment cursor offset rest =
    let payload_len = le_value (take 4 rest) in
    let later =
      scan_loop fuel segment cursor (offset + (header_bytes + payload_len))
        (drop (header_bytes + payload_len) rest) in
    if ltb (length rest) header_bytes
    then record { records = []; valid_end = offset }
    else if ltb (length rest) (header_bytes + payload_len)
    then record { records = []; valid_end = offset }
    else push_scan (at_or_after segment offset cursor)
        (record { segment = segment; offset = offset; payload_len = payload_len }) later

unfoldable pub scan_bytes : ℕ → Cursor → Bytes → Scan
scan_bytes segment cursor file = scan_loop (suc (length file)) segment cursor 0 file
