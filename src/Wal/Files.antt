-- ===== src/Wal/Files.antt =====
-- The directory operations of `Disk` on one another: what each leaves under a sequence number, and
-- the ascending list of sequence numbers that ends at the active segment.
use cross_xagent.Base.{
  ℕ, ◌+◌, ◌≤◌, ◌<◌, ◌≡◌, ◌≢◌, refl, none, some, List, [], ◌∷◌, ◌++◌, map, arith, Bytes, length,
  ◌==◌, if◌then◌else◌,
}
use cross_xagent.Wal.Disk.{
  Files, find_file, write_file, unlink, contents, insert_sorted, sort_unstable, segment_sequences,
  open_segment, sequence_of,
}

pub find_file-write_file :
    (s t : ℕ) (bytes : Bytes) (fs : Files)
    → find_file t (write_file s bytes fs) ≡ (if s == t then some bytes else find_file t fs)
unfolding find_file write_file
find_file-write_file s t bytes [] = ground arith
find_file-write_file s t bytes ((r, old) ∷ fs) = ground (arith, find_file-write_file s t bytes fs)

pub find_file-unlink_ne :
    (s t : ℕ) (fs : Files) → s ≢ t → find_file t (unlink s fs) ≡ find_file t fs
unfolding find_file unlink
find_file-unlink_ne s t [] h = refl
find_file-unlink_ne s t ((r, old) ∷ fs) h = ground (arith, find_file-unlink_ne s t fs h)

-- A file that is there stays as it is when any segment is opened.
pub find_file-open_segment :
    (s t : ℕ) (fs : Files) {bytes : Bytes}
    → find_file t fs ≡ some bytes
    → find_file t (open_segment s fs) ≡ some bytes
unfolding open_segment
find_file-open_segment s t fs h = ground (arith, find_file-write_file s t [] fs)

abbrev pub keys : Files → List ℕ
keys = map sequence_of

-- Strictly ascending, and `a` is the last.
abbrev pub EndsAt : List ℕ → ℕ → Type 0
EndsAt [] a = ⊥
EndsAt (s ∷ []) a = s ≡ a
EndsAt (s ∷ t ∷ r) a = (s < t) × EndsAt (t ∷ r) a

pub EndsAt-le : (s : ℕ) (r : List ℕ) (a : ℕ) → EndsAt (s ∷ r) a → s ≤ a
EndsAt-le s [] a h = omega arith
EndsAt-le s (t ∷ r) a h = omega (arith, EndsAt-le t r a h.1)

-- Sorting a list that ascends changes nothing.
sort_ascending : (l : List ℕ) (a : ℕ) → EndsAt l a → sort_unstable l ≡ l
unfolding sort_unstable insert_sorted
sort_ascending [] a h = absurd h
sort_ascending (s ∷ []) a h = refl
sort_ascending (s ∷ t ∷ r) a h = ground (arith, sort_ascending (t ∷ r) a h.1)

pub segment_sequences-keys :
    (fs : Files) (a : ℕ) → EndsAt (keys fs) a → segment_sequences fs ≡ keys fs
unfolding segment_sequences
segment_sequences-keys fs a h = sort_ascending (keys fs) a h

-- Writing a file that is there keeps the list of files.
pub keys-write_file :
    (s : ℕ) (bytes : Bytes) (fs : Files) (old : Bytes)
    → find_file s fs ≡ some old
    → keys (write_file s bytes fs) ≡ keys fs
unfolding find_file write_file
keys-write_file s bytes [] old h = ground arith
keys-write_file s bytes ((t, was) ∷ fs) old h = ground (arith, keys-write_file s bytes fs old)

-- A file that is not there is made behind the others.
pub keys-write_new :
    (s : ℕ) (bytes : Bytes) (fs : Files)
    → find_file s fs ≡ none
    → keys (write_file s bytes fs) ≡ keys fs ++ (s ∷ [])
unfolding find_file write_file
keys-write_new s bytes [] h = refl
keys-write_new s bytes ((t, old) ∷ fs) h = ground (arith, keys-write_new s bytes fs)

-- The first of an ascending list of files is the one that `unlink` takes.
pub unlink_first : (s : ℕ) (bytes : Bytes) (fs : Files) → unlink s ((s, bytes) ∷ fs) ≡ fs
unfolding unlink
unlink_first s bytes fs = ground arith

pub find_above : (s : ℕ) (fs : Files) (a : ℕ) → EndsAt (keys fs) a → a < s → find_file s fs ≡ none
unfolding find_file
find_above s [] a h lt = refl
find_above s ((t, b) ∷ []) a h lt = ground arith
find_above s ((t, b) ∷ (u, c) ∷ fs) a h lt =
    ground (arith, find_above s ((u, c) ∷ fs) a h.1 lt, EndsAt-le u (keys fs) a h.1)

pub find_last :
    (fs : Files) (a : ℕ) → EndsAt (keys fs) a → (bytes : Bytes) × (find_file a fs ≡ some bytes)
unfolding find_file
find_last [] a h = absurd h
find_last ((t, b) ∷ []) a h = (b, ground arith)
find_last ((t, b) ∷ (u, c) ∷ fs) a h =
    let (bytes, e) = find_last ((u, c) ∷ fs) a h.1 in
    (bytes, ground (arith, e, EndsAt-le u (keys fs) a h.1))

pub EndsAt-concat : (l : List ℕ) (a b : ℕ) → EndsAt l a → a < b → EndsAt (l ++ (b ∷ [])) b
EndsAt-concat [] a b h lt = absurd h
EndsAt-concat (s ∷ []) a b h lt = (omega arith, refl)
EndsAt-concat (s ∷ t ∷ r) a b h lt = (h.0, EndsAt-concat (t ∷ r) a b h.1 lt)

pub EndsAt-tail : (s : ℕ) (l : List ℕ) (a : ℕ) → EndsAt (s ∷ l) a → s ≢ a → EndsAt l a
EndsAt-tail s [] a h ne = absurd (ne h)
EndsAt-tail s (t ∷ r) a h ne = h.1

-- The bytes of all segment files.
abbrev pub file_bytes : Files → ℕ
file_bytes [] = 0
file_bytes ((s, b) ∷ fs) = length b + file_bytes fs

-- Writing one file counts its new bytes for its old ones.
pub file_bytes-write_file :
    (s : ℕ) (bytes : Bytes) (fs : Files)
    → file_bytes (write_file s bytes fs) + length (contents s fs) ≡ file_bytes fs + length bytes
unfolding write_file contents find_file
file_bytes-write_file s bytes [] = omega arith
file_bytes-write_file s bytes ((t, old) ∷ fs) = ground (arith, file_bytes-write_file s bytes fs)

pub file_bytes-open_segment : (s : ℕ) (fs : Files) → file_bytes (open_segment s fs) ≡ file_bytes fs
unfolding open_segment contents
file_bytes-open_segment s fs = ground (arith, file_bytes-write_file s [] fs)
