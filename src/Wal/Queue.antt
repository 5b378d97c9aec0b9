-- ===== src/Wal/Queue.antt =====
-- The write-ahead log as a queue of payloads: `IsValid w q` says that `q` is what `w` still has to
-- deliver, and `next` and `ack` are the head and the tail of `q`.
use cross_xagent.Base.{
  ℕ, ◌≤◌, ◌<◌, ◌≡◌, ◌≢◌, refl, ap, ◌∙◌, true, false, not, ◌&&◌, Option, none, some, Bool-cases, inl,
  inr, List, [], ◌∷◌, arith, Bytes, length, head?, ltb, ◌==◌, ==-refl,
}
use cross_xagent.Wal.Disk.{
  Result, ok, err, Cursor, Files, find_file, unlink, contents, remove_file, persist_cursor,
}
use cross_xagent.Wal.Record.{RecordMeta, WalEntry, crc32}
use cross_xagent.Wal.Ops.{
  Wal, next_loop, next, is_head, pop_front, ack, delete_acked, delete_fully_acked_segments,
  next_cursor, advance_cursor,
}
use cross_xagent.Wal.Files.{
  EndsAt, EndsAt-le, EndsAt-tail, keys, segment_sequences-keys, unlink_first,
}
use cross_xagent.Wal.Reads.{Reads, read_record-of_find, read_record-find}

-- The segments of the index, from `lo` up to `hi`.
abbrev pub InOrder : ℕ → List RecordMeta → ℕ → Type 0
InOrder lo [] hi = Unit
InOrder lo (m ∷ ms) hi = (lo ≤ m.segment) × (m.segment ≤ hi) × InOrder m.segment ms hi

pub InOrder-weaken :
    (lo lo' : ℕ) (ms : List RecordMeta) (hi : ℕ) → lo' ≤ lo → InOrder lo ms hi → InOrder lo' ms hi
InOrder-weaken lo lo' [] hi le h = tt
InOrder-weaken lo lo' (m ∷ ms) hi le h = (omega arith, h.1, h.2)

pub record IsValid (w : Wal) (q : List Bytes) : Type 0 where
  pub files : EndsAt (keys w.disk.files) w.active_segment
  pub order : InOrder 0 w.records w.active_segment
  pub reads : Reads w.disk.files w.records q
  pub room : length (contents w.active_segment w.disk.files) ≤ w.max_bytes

abbrev pub payload_of : Result (Option WalEntry) → Result (Option Bytes)
payload_of (err e) = err e
payload_of (ok none) = ok none
payload_of (ok (some e)) = ok (some e.payload)

next_loop_lem :
    (fs : Files) (ms : List RecordMeta) (q : List Bytes)
    → Reads fs ms q
    → ((next_loop fs ms).1 ≡ ms) × (payload_of (next_loop fs ms).0 ≡ ok (head? q))
unfolding next_loop
next_loop_lem fs [] [] h = (refl, refl)
next_loop_lem fs [] (p ∷ q) h = absurd h
next_loop_lem fs (m ∷ ms) [] h = absurd h
next_loop_lem fs (m ∷ ms) (p ∷ q) h = rw (h.0, next_loop, ==-refl (crc32 p)) (refl, refl)

-- On a well-formed log `next` returns the oldest payload, or nothing where none is left, and
-- changes nothing.
pub next_lem :
    (w : Wal) (q : List Bytes)
    → IsValid w q
    → ((next w).1 ≡ w) × (payload_of (next w).0 ≡ ok (head? q))
unfolding next
next_lem w q v =
    let (same, head) = next_loop_lem w.disk.files w.records q v.reads in
    (ap (λ ms. record w { records = ms }) same, head)

-- From a segment that the cursor has not passed on, nothing is deleted.
delete_acked-keep :
    (s : ℕ) (ss : List ℕ) (c : Cursor) (a : ℕ) (fs : Files)
    → EndsAt (s ∷ ss) a
    → c.segment ≤ s
    → delete_acked (s ∷ ss) c a fs ≡ (ok tt, fs)
unfolding delete_acked
delete_acked-keep s [] c a fs h le = ground arith
delete_acked-keep s (t ∷ ss) c a fs h le =
    ground (arith, delete_acked-keep t ss c a fs h.1 (omega arith))

pub delete_acked-stop :
    (s : ℕ) (ss : List ℕ) (c : Cursor) (a : ℕ) (fs : Files)
    → EndsAt (s ∷ ss) a
    → (ltb s c.segment && not (s == a)) ≡ false
    → delete_acked (s ∷ ss) c a fs ≡ (ok tt, fs)
unfolding delete_acked
delete_acked-stop s [] c a fs h e = rw (e, delete_acked)
delete_acked-stop s (t ∷ ss) c a fs h e =
    delete_acked-keep s (t ∷ ss) c a fs h (ground (arith, EndsAt-le t ss a h.1))

-- One deletion, at the first of the files.
pub delete_acked-step :
    (s : ℕ) (ss : List ℕ) (c : Cursor) (a : ℕ) (b : Bytes) (fs : Files)
    → (ltb s c.segment && not (s == a)) ≡ true
    → delete_acked (s ∷ ss) c a ((s, b) ∷ fs) ≡ delete_acked ss c a fs
unfolding delete_acked remove_file find_file unlink
delete_acked-step s ss c a b fs e = rw (e, delete_acked, ==-refl s, unlink_first s b fs)

-- The loop succeeds, keeps the active segment, and keeps every segment from the cursor's on.
record Deleted (c : Cursor) (a : ℕ) (fs : Files) (r : Result (Unit {0}) × Files) : Type 0 where
  succeeds : r.0 ≡ ok tt
  files : EndsAt (keys r.1) a
  keeps : (s : ℕ) → c.segment ≤ s → find_file s r.1 ≡ find_file s fs
  active : contents a r.1 ≡ contents a fs

pub find_file-later :
    (s t : ℕ) (b : Bytes) (fs : Files) → s < t → find_file t fs ≡ find_file t ((s, b) ∷ fs)
unfolding find_file
find_file-later s t b fs h = ground arith

pub contents-later :
    (s t : ℕ) (b : Bytes) (fs : Files) → s ≢ t → contents t fs ≡ contents t ((s, b) ∷ fs)
unfolding contents find_file
contents-later s t b fs h = ground arith

delete_acked_lem :
    (fs : Files) (c : Cursor) (a : ℕ)
    → EndsAt (keys fs) a
    → Deleted c a fs (delete_acked (keys fs) c a fs)
delete_acked_lem [] c a h = absurd h
delete_acked_lem ((s, b) ∷ fs) c a h =
    let later = delete_acked_lem fs c a in
    elim (Bool-cases (ltb s c.segment && not (s == a))) [
      | inl e ↦
          let d = later (EndsAt-tail s (keys fs) a h (ground arith)) in
          rw (delete_acked-step s (keys fs) c a b fs e) (record {
            succeeds = d.succeeds;
            files = d.files;
            keeps = λ t le. d.keeps t le ∙ find_file-later s t b fs (ground arith);
            active = d.active ∙ contents-later s a b fs (ground arith);
          })
      | inr e ↦
          rw (delete_acked-stop s (keys fs) c a ((s, b) ∷ fs) h e)
            (record { succeeds = refl; files = h; keeps = λ t le. refl; active = refl })
    ]

-- Records from `lo` on are read back alike where the files from `lo` on are the same.
pub Reads-above :
    (fs gs : Files) (lo : ℕ)
    → ((s : ℕ) → lo ≤ s → find_file s gs ≡ find_file s fs)
    → (ms : List RecordMeta) (q : List Bytes) (hi : ℕ) → InOrder lo ms hi
    → Reads fs ms q
    → Reads gs ms q
Reads-above fs gs lo same [] [] hi o h = h
Reads-above fs gs lo same [] (p ∷ q) hi o h = h
Reads-above fs gs lo same (m ∷ ms) [] hi o h = h
Reads-above fs gs lo same (m ∷ ms) (p ∷ q) hi o h =
    let (file, e, r) = read_record-find fs m (crc32 p, p) h.0 in
    (
      read_record-of_find gs m file (same m.segment o.0 ∙ e) ∙ r,
      Reads-above fs gs lo same ms q hi (InOrder-weaken m.segment lo ms hi o.0 o.2) h.1,
    )

pub InOrder-pop :
    (lo : ℕ) (ms : List RecordMeta) (hi : ℕ) → InOrder lo ms hi → InOrder lo (pop_front ms) hi
InOrder-pop lo [] hi h = h
InOrder-pop lo (m ∷ ms) hi h = InOrder-weaken m.segment lo ms hi h.0 h.2

pub Reads-pop :
    (fs : Files) (ms : List RecordMeta) (p : Bytes) (q : List Bytes)
    → Reads fs ms (p ∷ q)
    → Reads fs (pop_front ms) q
Reads-pop fs [] p q h = absurd h
Reads-pop fs (m ∷ ms) p q h = h.1

-- The cursor that is taken from the index is not past any of its segments.
pub InOrder-next_cursor :
    (lo : ℕ) (ms : List RecordMeta) (hi : ℕ) (w : Wal)
    → InOrder lo ms hi
    → InOrder (next_cursor ms w).segment ms hi
unfolding next_cursor
InOrder-next_cursor lo [] hi w h = tt
InOrder-next_cursor lo (m ∷ ms) hi w h = (omega arith, h.1, h.2)

delete_lem :
    (w : Wal) (q : List Bytes)
    → EndsAt (keys w.disk.files) w.active_segment
    → InOrder w.cursor.segment w.records w.active_segment
    → Reads w.disk.files w.records q
    → length (contents w.active_segment w.disk.files) ≤ w.max_bytes
    → ((delete_fully_acked_segments w).0 ≡ ok tt) × IsValid (delete_fully_acked_segments w).1 q
unfolding delete_fully_acked_segments
delete_lem w q files order reads room =
    let d = delete_acked_lem w.disk.files w.cursor w.active_segment files in
    rw (segment_sequences-keys w.disk.files w.active_segment files) (
      d.succeeds,
      record {
        files = d.files;
        order = InOrder-weaken w.cursor.segment 0 w.records w.active_segment (omega arith) order;
        reads = Reads-above w.disk.files _ w.cursor.segment d.keeps w.records q _ order reads;
        room = rw d.active room;
      },
    )

-- `ack` of the head entry of a well-formed log succeeds, and leaves a well-formed log of the
-- other payloads.
pub ack_lem :
    (w : Wal) (p : Bytes) (q : List Bytes) (entry : WalEntry)
    → IsValid w (p ∷ q)
    → is_head entry w.records ≡ true
    → ((ack entry w).0 ≡ ok tt) × IsValid (ack entry w).1 q
unfolding ack persist_cursor
ack_lem w p q entry v head =
    let popped = record w { records = pop_front w.records } in
    let order = InOrder-pop 0 w.records w.active_segment v.order in
    rw head (
      delete_lem (advance_cursor popped) q v.files
        (InOrder-next_cursor 0 (pop_front w.records) w.active_segment popped order)
        (Reads-pop w.disk.files w.records p q v.reads) v.room)
