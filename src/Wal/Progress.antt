-- ===== src/Wal/Progress.antt =====
-- The cursor of `Wal` where it is moved on, and the segments that are deleted behind it.
use cross_xagent.Base.{
  ℕ, ◌+◌, ◌≤◌, ◌≡◌, ◌≢◌, refl, sym, ap, ◌∙◌, some, List, [], ◌∷◌, ◌++◌, arith, Bytes, u64_max,
  length, length-append, keep, le_bytes, length-le_bytes, le_value-le_bytes, take-append,
  drop-append,
}
use mathlib.Core.Path.{subst}
use cross_xagent.Wal.Disk.{
  ok, Cursor, Files, Disk, find_file, contents, persist_cursor, read_cursor,
}
use cross_xagent.Wal.Record.{RecordMeta, at_or_after, encode_record}
use cross_xagent.Wal.Ops.{Wal, next_cursor, advance_cursor}
use cross_xagent.Wal.Files.{keys, EndsAt, EndsAt-le, file_bytes}
use cross_xagent.Wal.Reading.{length-encode_record}
use cross_xagent.Wal.Scanning.{encode_all, metas_from, is_pending}
use cross_xagent.Wal.Queue.{contents-later}
use cross_xagent.Wal.Enforce.{contents-only}
use cross_xagent.Wal.Stored.{Segment, stored, repaired}
use cross_xagent.Wal.Torn.{AllFit}
use cross_xagent.Wal.Places.{
  Le, head_place, Ascending, Ascending-Le, keep-suffix, all_metas, pending_metas-keep, end_of,
  next_cursor_lem, end_place, Ascending-all_metas,
}
use cross_xagent.Wal.Durable.{IsStored}

-- What `persist_cursor` writes is what `read_cursor` reads, for a cursor of two u64.
read_cursor-persist_cursor :
    (c : Cursor) (d : Disk)
    → c.segment ≤ u64_max
    → c.offset ≤ u64_max
    → read_cursor (persist_cursor c d) ≡ ok (some c)
unfolding read_cursor persist_cursor
read_cursor-persist_cursor c d hs ho =
    let front = le_bytes 8 c.segment in
    let back = le_bytes 8 c.offset in
    rw
      (
        length-append front back,
        length-le_bytes 8 c.segment,
        length-le_bytes 8 c.offset,
        take-append 8 front back (sym (length-le_bytes 8 c.segment)),
        drop-append 8 front back (sym (length-le_bytes 8 c.segment)),
        le_value-le_bytes 8 c.segment (omega arith),
        le_value-le_bytes 8 c.offset (omega arith),
      )
      refl

-- The end of the active segment of these files.
pub end_place_lem :
    (g : Segment) (l : List Segment) (a : ℕ)
    → EndsAt (keys (stored (g ∷ l))) a
    → end_place g l ≡ record { segment = a; offset = length (contents a (repaired (g ∷ l))) }
end_place_lem g [] a h =
    rw (← h, contents-only g.sequence (encode_all g.payloads))
      (ap (λ o. record { segment = g.sequence; offset = o }) (omega arith))
end_place_lem g (k ∷ l) a h =
    let ne : g.sequence ≢ a = omega (arith, EndsAt-le k.sequence (keys (stored l)) a h.1) in
    end_place_lem k l a h.1
    ∙ ap (λ b. record { segment = a; offset = length b })
        (contents-later g.sequence a (encode_all g.payloads) (repaired (k ∷ l)) ne)

-- No record stands further into its file than all the files are long.
abbrev Offsets : ℕ → List RecordMeta → Type 0
Offsets n [] = Unit
Offsets n (m ∷ ms) = (m.offset ≤ n) × Offsets n ms

Offsets-append :
    (n : ℕ) (ms ns : List RecordMeta) → Offsets n ms → Offsets n ns → Offsets n (ms ++ ns)
Offsets-append n [] ns h k = k
Offsets-append n (m ∷ ms) ns h k = (h.0, Offsets-append n ms ns h.1 k)

Offsets-suffix : (n : ℕ) (ms ns : List RecordMeta) → Offsets n (ms ++ ns) → Offsets n ns
Offsets-suffix n [] ns h = h
Offsets-suffix n (m ∷ ms) ns h = Offsets-suffix n ms ns h.1

Offsets-metas :
    (n s offset : ℕ) (ps : List Bytes)
    → offset + length (encode_all ps) ≤ n
    → Offsets n (metas_from s offset ps)
Offsets-metas n s offset [] le = tt
Offsets-metas n s offset (p ∷ ps) le =
    let len = length-append (encode_record p) (encode_all ps) in
    let head = length-encode_record p in
    (omega arith, Offsets-metas n s (offset + (8 + length p)) ps (omega (arith, len, head)))

Offsets-all : (n : ℕ) (l : List Segment) → file_bytes (repaired l) ≤ n → Offsets n (all_metas l)
Offsets-all n [] le = tt
Offsets-all n (g ∷ l) le =
    Offsets-append n (metas_from g.sequence 0 g.payloads) (all_metas l)
      (Offsets-metas n g.sequence 0 g.payloads (omega arith)) (Offsets-all n l (omega arith))

pub contents-file_bytes : (a : ℕ) (fs : Files) → length (contents a fs) ≤ file_bytes fs
unfolding contents find_file
contents-file_bytes a [] = omega arith
contents-file_bytes a ((s, b) ∷ fs) = ground (arith, contents-file_bytes a fs)

Ascending-drop : (ms ns : List RecordMeta) (e : Cursor) → Ascending (ms ++ ns) e → Ascending ns e
Ascending-drop [] ns e h = h
Ascending-drop (m ∷ ms) ns e h = Ascending-drop ms ns e h.1

Le-segment : (c d : Cursor) → Le c d → c.segment ≤ d.segment
unfolding at_or_after
Le-segment c d h = ground arith

Offsets-head :
    (n : ℕ) (ms : List RecordMeta) (e : Cursor)
    → Offsets n ms
    → e.offset ≤ n
    → (head_place e ms).offset ≤ n
Offsets-head n [] e h le = le
Offsets-head n (m ∷ ms) e h le = h.0

-- Where the index is the end of all records, the log is stored once the cursor has moved on to it.
pub advance_cursor-IsStored :
    (w : Wal) (g : Segment) (l : List Segment) (front : List RecordMeta)
    → w.disk.files ≡ repaired (g ∷ l)
    → EndsAt (keys (stored (g ∷ l))) w.active_segment
    → AllFit (g ∷ l)
    → all_metas (g ∷ l) ≡ front ++ w.records
    → file_bytes w.disk.files ≤ u64_max
    → w.active_segment ≤ u64_max
    → IsStored (advance_cursor w)
      × (read_cursor (advance_cursor w).disk ≡ ok (some (advance_cursor w).cursor))
unfolding advance_cursor persist_cursor
advance_cursor-IsStored w g l front files ends fits split bounded active =
    let e = end_of w in
    let c = next_cursor w.records w in
    let here : c ≡ head_place e w.records = next_cursor_lem w.records w in
    let last : end_place g l ≡ e =
      end_place_lem g l w.active_segment ends
      ∙ ap
          (λ fs. record {
            segment = w.active_segment;
            offset = length (contents w.active_segment fs);
          })
          (sym files) in
    let order : Ascending (front ++ w.records) e =
      subst (λ ms. Ascending ms e) split
        (subst (λ d. Ascending (all_metas (g ∷ l)) d) last
          (Ascending-all_metas g l w.active_segment ends)) in
    let reach : Le c e =
      subst (λ d. Le d e) (sym here)
        (Ascending-Le w.records e (Ascending-drop front w.records e order)) in
    let offsets : Offsets u64_max w.records =
      Offsets-suffix u64_max front w.records
        (subst (Offsets u64_max) split (Offsets-all u64_max (g ∷ l) (rw files at bounded))) in
    let offset : c.offset ≤ u64_max =
      subst (λ d. d.offset ≤ u64_max) (sym here)
        (Offsets-head u64_max w.records e offsets
          (omega (arith, contents-file_bytes w.active_segment w.disk.files))) in
    let read = read_cursor-persist_cursor c w.disk (omega (arith, Le-segment c e reach)) offset in
    let stored : IsStored (advance_cursor w) = record {
      first = g;
      later = l;
      files = files;
      ends = ends;
      fits = fits;
      stored_cursor = some c;
      cursor_file = read;
      cursor = refl;
      records =
          sym (keep-suffix front w.records e order)
          ∙ ap (λ d. keep (is_pending d) (front ++ w.records)) (sym here)
          ∙ ap (keep (is_pending c)) (sym split)
          ∙ sym (pending_metas-keep c (g ∷ l));
      reach = reach;
      bounded = bounded;
      active = active;
    } in
    (stored, read)
