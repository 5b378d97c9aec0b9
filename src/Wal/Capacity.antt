-- ===== src/Wal/Capacity.antt =====
-- `enforce_cap`: the oldest segments go, with their records, until the files fit the cap.
use cross_xagent.Base.{
  ℕ, suc, ◌+◌, ◌≤◌, ◌<◌, ◌≡◌, ◌≢◌, refl, sym, ap, ◌∙◌, false, some, Bool-cases, inl, inr, List, [],
  ◌∷◌, ◌++◌, arith, Bytes, u64_max, length, keep, le→ltb, ◌==◌, ==-refl,
}
use cross_xagent.Wal.Disk.{
  ok, Files, find_file, remove_file, total_from, total_segment_bytes, persist_cursor,
}
use cross_xagent.Wal.Record.{RecordMeta, crc32}
use cross_xagent.Wal.Ops.{Wal, Step, other_segment, evict}
use cross_xagent.Wal.Files.{EndsAt, EndsAt-tail, keys, file_bytes, unlink_first}
use cross_xagent.Wal.Reads.{Reads, read_record-find}
use cross_xagent.Wal.Queue.{
  InOrder, InOrder-weaken, IsValid, Reads-above, find_file-later, contents-later,
}

-- Every file of the second list is found in the first under its own number.
abbrev Found : Files → Files → Type 0
Found gs [] = Unit
Found gs ((s, b) ∷ fs) = (find_file s gs ≡ some b) × Found gs fs

Found-cons :
    (s : ℕ) (b : Bytes) (gs fs : Files) (a : ℕ)
    → EndsAt (s ∷ keys fs) a
    → Found gs fs
    → Found ((s, b) ∷ gs) fs
Found-cons s b gs [] a h k = tt
Found-cons s b gs ((t, d) ∷ []) a h k = (sym (find_file-later s t b gs h.0) ∙ k.0, tt)
Found-cons s b gs ((t, d) ∷ (u, e) ∷ fs) a h k =
    let tail : EndsAt (s ∷ u ∷ keys fs) a = (omega arith, h.1.1) in
    (sym (find_file-later s t b gs h.0) ∙ k.0, Found-cons s b gs ((u, e) ∷ fs) a tail k.1)

Found-self : (fs : Files) (a : ℕ) → EndsAt (keys fs) a → Found fs fs
unfolding find_file
Found-self [] a h = tt
Found-self ((s, b) ∷ []) a h = (rw (==-refl s), tt)
Found-self ((s, b) ∷ (t, d) ∷ fs) a h = (
  rw (==-refl s),
  Found-cons s b ((t, d) ∷ fs) ((t, d) ∷ fs) a h (Found-self ((t, d) ∷ fs) a h.1),
)

total_from_lem :
    (gs fs : Files) (total : ℕ)
    → Found gs fs
    → total + file_bytes fs ≤ u64_max
    → total_from total (keys fs) gs ≡ ok (total + file_bytes fs)
unfolding total_from
total_from_lem gs [] total h le = ap ok (omega arith)
total_from_lem gs ((s, b) ∷ fs) total h le =
    rw (h.0, total_from, le→ltb u64_max (total + length b) (omega arith))
      (total_from_lem gs fs (total + length b) h.1 (omega arith) ∙ ap ok (omega arith))

-- Without overflow the fold is the sum over the files.
pub total_segment_bytes_lem :
    (fs : Files) (a : ℕ)
    → EndsAt (keys fs) a
    → file_bytes fs ≤ u64_max
    → total_segment_bytes (keys fs) fs ≡ ok (file_bytes fs)
unfolding total_segment_bytes
total_segment_bytes_lem fs a h le =
    total_from_lem fs fs 0 (Found-self fs a h) (omega arith) ∙ ap ok (omega arith)

-- The records of the segments behind `s`.
keep-above :
    (s lo : ℕ) (ms : List RecordMeta) (hi : ℕ)
    → s < lo
    → InOrder lo ms hi
    → keep (other_segment s) ms ≡ ms
keep-above s lo [] hi lt h = refl
keep-above s lo (m ∷ ms) hi lt h = ground (arith, keep-above s m.segment ms hi (omega arith) h.2)

-- The oldest payloads may be dropped, and no other: `q` is what was dropped and then `q'`.
pub record Kept (fs : Files) (s : ℕ) (ms : List RecordMeta) (hi : ℕ) (q : List Bytes) : Type 0 where
  pub dropped : List Bytes
  pub queue : List Bytes
  pub split : q ≡ dropped ++ queue
  pub order : InOrder (suc s) (keep (other_segment s) ms) hi
  pub reads : Reads fs (keep (other_segment s) ms) queue

keep_lem :
    (fs : Files) (s lo : ℕ) (ms : List RecordMeta) (hi : ℕ) (q : List Bytes)
    → s ≤ lo
    → InOrder lo ms hi
    → Reads fs ms q
    → Kept fs s ms hi q
keep_lem fs s lo [] hi [] le o h = record {
  dropped = [];
  queue = [];
  split = refl;
  order = tt;
  reads = tt;
}
keep_lem fs s lo [] hi (p ∷ q) le o h = absurd h
keep_lem fs s lo (m ∷ ms) hi [] le o h = absurd h
keep_lem fs s lo (m ∷ ms) hi (p ∷ q) le o h = elim (Bool-cases (m.segment == s)) [
  | inl e ↦
      let k = keep_lem fs s m.segment ms hi q (omega arith) o.2 h.1 in
      record {
        dropped = p ∷ k.dropped;
        queue = k.queue;
        split = ap (λ r. p ∷ r) k.split;
        order = rw e k.order;
        reads = rw e k.reads;
      }
  | inr e ↦
      let same = keep-above s m.segment ms hi (ground arith) o.2 in
      record {
        dropped = [];
        queue = p ∷ q;
        split = refl;
        order = rw (e, same) (ground arith, o.1, o.2);
        reads = rw (e, same) h;
      }
]

-- A readable record lies in a file, so not below the first.
find_file-first :
    (s t : ℕ) (b file : Bytes) (fs : Files) (a : ℕ)
    → EndsAt (s ∷ keys fs) a
    → find_file t ((s, b) ∷ fs) ≡ some file
    → s ≤ t
unfolding find_file
find_file-first s t b file [] a h e = ground arith
find_file-first s t b file ((u, d) ∷ fs) a h e = ground (arith, find_file-first u t d file fs a h.1)

pub InOrder-first :
    (s : ℕ) (b : Bytes) (fs : Files) (a lo : ℕ) (ms : List RecordMeta) (q : List Bytes)
    → EndsAt (s ∷ keys fs) a
    → InOrder lo ms a
    → Reads ((s, b) ∷ fs) ms q
    → InOrder s ms a
InOrder-first s b fs a lo [] q h o r = tt
InOrder-first s b fs a lo (m ∷ ms) [] h o r = absurd r
InOrder-first s b fs a lo (m ∷ ms) (p ∷ q) h o r =
    let (file, e, _) = read_record-find ((s, b) ∷ fs) m (crc32 p, p) r.0 in
    (find_file-first s m.segment b file fs a h e, o.1, o.2)

-- The last record lies in the segment `a`.
abbrev pub LastIn : ℕ → List RecordMeta → Type 0
LastIn a [] = ⊥
LastIn a (m ∷ []) = m.segment ≡ a
LastIn a (m ∷ n ∷ ms) = LastIn a (n ∷ ms)

LastIn-cons : (a : ℕ) (m : RecordMeta) (ms : List RecordMeta) → LastIn a ms → LastIn a (m ∷ ms)
LastIn-cons a m [] h = absurd h
LastIn-cons a m (n ∷ ms) h = h

-- Dropping another segment's records keeps the last.
LastIn-keep :
    (s a : ℕ) (ms : List RecordMeta) → s ≢ a → LastIn a ms → LastIn a (keep (other_segment s) ms)
LastIn-keep s a [] ne h = h
LastIn-keep s a (m ∷ []) ne h = let other : (m.segment == s) ≡ false = ground arith in rw other h
LastIn-keep s a (m ∷ n ∷ ms) ne h =
    let k = LastIn-keep s a (n ∷ ms) ne h in
    elim (Bool-cases (m.segment == s)) [
      | inl e ↦ rw e k
      | inr e ↦ rw e (LastIn-cons a m (keep (other_segment s) (n ∷ ms)) k)
    ]

-- What evicting the oldest segment leaves, when it is not the active one.
pub record Evicted (w : Wal) (fs : Files) (q : List Bytes) (r : Step (Unit {0})) : Type 0 where
  pub dropped : List Bytes
  pub queue : List Bytes
  pub split : q ≡ dropped ++ queue
  pub succeeds : r.0 ≡ ok tt
  pub valid : IsValid r.1 queue
  pub files : r.1.disk.files ≡ fs
  pub same_max : r.1.max_bytes ≡ w.max_bytes
  pub active : r.1.active_segment ≡ w.active_segment
  pub newest : LastIn w.active_segment w.records → LastIn w.active_segment r.1.records

pub remove_first : (s : ℕ) (b : Bytes) (fs : Files) → remove_file s ((s, b) ∷ fs) ≡ ok fs
unfolding remove_file find_file
remove_first s b fs = rw (==-refl s, remove_file) (ap ok (unlink_first s b fs))

pub evict_lem :
    (w : Wal) (s : ℕ) (b : Bytes) (fs : Files) (q : List Bytes)
    → w.disk.files ≡ (s, b) ∷ fs
    → s ≢ w.active_segment
    → IsValid w q
    → Evicted w fs q (evict s w)
unfolding evict persist_cursor
evict_lem w s b fs q e ne v =
    let a = w.active_segment in
    let ends : EndsAt (s ∷ keys fs) a = rw e at v.files in
    let reads : Reads ((s, b) ∷ fs) w.records q = rw e at v.reads in
    let order = InOrder-first s b fs a 0 w.records q ends v.order reads in
    let k = keep_lem ((s, b) ∷ fs) s s w.records a q (omega arith) order reads in
    let removed : remove_file s w.disk.files ≡ ok fs = rw e (remove_first s b fs) in
    rw (removed, evict)
      (record {
        dropped = k.dropped;
        queue = k.queue;
        split = k.split;
        succeeds = refl;
        valid = record {
          files = EndsAt-tail s (keys fs) a ends ne;
          order = InOrder-weaken (suc s) 0 _ a (omega arith) k.order;
          reads =
              Reads-above ((s, b) ∷ fs) fs (suc s) (λ t le. find_file-later s t b fs le)
                (keep (other_segment s) w.records) k.queue a k.order k.reads;
          room = rw (contents-later s a b fs ne) (rw e at v.room);
        };
        files = refl;
        same_max = refl;
        active = refl;
        newest = LastIn-keep s a w.records ne;
      })
