-- ===== src/Wal/Disk.antt =====
-- The WAL directory of crates/crossx-agent/src/wal.rs: the segment files by sequence number, and
-- the cursor file. File operations fail only where a file is missing or too short.
use cross_xagent.Base.{
  ℕ, ◌+◌, ◌≡◌, refl, Option, none, some, List, [], ◌∷◌, ◌++◌, map, Bytes, u64_max, le_bytes,
  le_value, length, take, drop, ltb, leb, ◌==◌, if◌then◌else◌,
}

pub data Error : Type 0 where
  payload_too_long over_capacity sequence_exhausted total_overflow : Error
  missing_file short_read cursor_length not_head out_of_fuel : Error

-- What a file operation returns.
pub data Result {ℓ} (T : Type ℓ) : Type ℓ where
  err : Error → Result T
  ok : T → Result T

infixl 5 ◌>>=◌
-- `?` in the source: the first error ends the method.
abbrev pub ◌>>=◌ {ℓ κ} : {S : Type ℓ} {T : Type κ} → Result S → (S → Result T) → Result T
err reason >>= next = err reason
ok value >>= next = next value

pub record Cursor : Type 0 where
  pub segment : ℕ
  pub offset : ℕ

abbrev pub Files : Type 0
Files = List (ℕ × Bytes)

pub record Disk : Type 0 where
  pub files : Files
  pub cursor_file : Option Bytes

unfoldable pub find_file : ℕ → Files → Option Bytes
find_file s [] = none
find_file s ((t, bytes) ∷ fs) = if t == s then some bytes else find_file s fs

-- A chain that succeeds got past its first step.
pub >>=-ok {ℓ κ} :
    {S : Type ℓ} {T : Type κ} (step : Result S) (next : S → Result T) {last : T}
    → (step >>= next) ≡ ok last
    → (value : S) × (step ≡ ok value) × (next value ≡ ok last)
>>=-ok (err reason) next h = cc
>>=-ok (ok value) next h = (value, refl, h)

-- Replaces the contents of one file, which is created if it is missing.
unfoldable pub write_file : ℕ → Bytes → Files → Files
write_file s bytes [] = (s, bytes) ∷ []
write_file s bytes ((t, old) ∷ fs) =
    if t == s then (t, bytes) ∷ fs else (t, old) ∷ write_file s bytes fs

unfoldable pub unlink : ℕ → Files → Files
unlink s [] = []
unlink s ((t, bytes) ∷ fs) = if t == s then fs else (t, bytes) ∷ unlink s fs

-- The bytes that an open handle of the segment sees.
unfoldable pub contents : ℕ → Files → Bytes
contents s fs = elim (find_file s fs) [ none ↦ [] | some bytes ↦ bytes ]

unfoldable pub insert_sorted : ℕ → List ℕ → List ℕ
insert_sorted s [] = s ∷ []
insert_sorted s (t ∷ ts) = if leb s t then s ∷ t ∷ ts else t ∷ insert_sorted s ts

unfoldable pub sort_unstable : List ℕ → List ℕ
sort_unstable [] = []
sort_unstable (s ∷ ss) = insert_sorted s (sort_unstable ss)

abbrev pub sequence_of : ℕ × Bytes → ℕ
sequence_of f = f.0

-- `segment_sequences`
unfoldable pub segment_sequences : Files → List ℕ
unfolding sort_unstable insert_sorted
segment_sequences fs = sort_unstable (map sequence_of fs)

-- `open_segment` with `create(true)`: the file is made if it is missing.
unfoldable pub open_segment : ℕ → Files → Files
open_segment s fs = elim (find_file s fs) [ none ↦ write_file s [] fs | some bytes ↦ fs ]

-- `std::fs::remove_file`
unfoldable pub remove_file : ℕ → Files → Result Files
remove_file s fs = elim (find_file s fs) [ none ↦ err missing_file | some bytes ↦ ok (unlink s fs) ]

-- `total_segment_bytes`: the fold with `checked_add`.
unfoldable pub total_from : ℕ → List ℕ → Files → Result ℕ
total_from total [] fs = ok total
total_from total (s ∷ ss) fs = elim (find_file s fs) [
  | none ↦ err missing_file
  | some bytes ↦
      if ltb u64_max (total + length bytes)
      then err total_overflow
      else total_from (total + length bytes) ss fs
]

unfoldable pub total_segment_bytes : List ℕ → Files → Result ℕ
unfolding total_from
total_segment_bytes ss fs = total_from 0 ss fs

-- `persist_cursor`: the rename replaces the whole file.
unfoldable pub persist_cursor : Cursor → Disk → Disk
persist_cursor c d = record d { cursor_file = some (le_bytes 8 c.segment ++ le_bytes 8 c.offset) }

cursor_of_bytes : Bytes → Result (Option Cursor)
cursor_of_bytes bytes =
    if length bytes == 16
    then ok (some (record { segment = le_value (take 8 bytes); offset = le_value (drop 8 bytes) }))
    else err cursor_length

unfoldable pub read_cursor : Disk → Result (Option Cursor)
unfolding cursor_of_bytes
read_cursor d = elim d.cursor_file [ none ↦ ok none | some bytes ↦ cursor_of_bytes bytes ]
