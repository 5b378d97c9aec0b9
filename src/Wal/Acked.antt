-- ===== src/Wal/Acked.antt =====
-- `Wal::ack` on a log that its directory determines.
use cross_xagent.Base.{
  ℕ, ◌+◌, ◌≤◌, ◌<◌, ◌≡◌, ◌≢◌, refl, sym, ap, ◌∙◌, false, not, ◌&&◌, Bool-cases, inl, inr, some,
  List, [], ◌∷◌, ◌++◌, arith, Bytes, length, keep, ltb, ◌==◌,
}
use mathlib.Core.Path.{subst}
use mathlib.Core.List.{append_assoc}
use cross_xagent.Wal.Disk.{
  Result, ok, Cursor, Files, contents, segment_sequences, persist_cursor, read_cursor,
}
use cross_xagent.Wal.Record.{RecordMeta, WalEntry, at_or_after}
use cross_xagent.Wal.Ops.{
  Wal, advance_cursor, delete_acked, delete_fully_acked_segments, pop_front, is_head, ack,
}
use cross_xagent.Wal.Files.{keys, EndsAt, file_bytes, segment_sequences-keys}
use cross_xagent.Wal.Scanning.{encode_all, metas_from, is_pending}
use cross_xagent.Wal.Queue.{contents-later, delete_acked-step, delete_acked-stop}
use cross_xagent.Wal.Stored.{Segment, stored, repaired, pending_metas}
use cross_xagent.Wal.Recovery.{keys-repaired}
use cross_xagent.Wal.Torn.{AllFit}
use cross_xagent.Wal.Places.{
  Le, all_metas, pending_suffix, pending_metas-keep, Ascending-all_metas, end_place,
}
use cross_xagent.Wal.Durable.{IsStored}
use cross_xagent.Wal.Progress.{advance_cursor-IsStored}

-- A cursor in a later segment has passed all of these records.
keep_passed :
    (c : Cursor) (s offset : ℕ) (ps : List Bytes)
    → s < c.segment
    → keep (is_pending c) (metas_from s offset ps) ≡ []
unfolding at_or_after
keep_passed c s offset [] lt = refl
keep_passed c s offset (p ∷ ps) lt = ground (arith, keep_passed c s (offset + (8 + length p)) ps lt)

-- What the loop of `delete_fully_acked_segments` leaves of these segments.
record Trimmed (c : Cursor) (a : ℕ) (g : Segment) (l : List Segment) (r : Result (Unit {0}) × Files)
    : Type 0 where
  first : Segment
  later : List Segment
  files : r ≡ (ok tt, repaired (first ∷ later))
  ends : EndsAt (keys (stored (first ∷ later))) a
  fits : AllFit (first ∷ later)
  pending : pending_metas c (g ∷ l) ≡ pending_metas c (first ∷ later)
  last : contents a (repaired (first ∷ later)) ≡ contents a (repaired (g ∷ l))
  less : file_bytes (repaired (first ∷ later)) ≤ file_bytes (repaired (g ∷ l))

kept :
    (c : Cursor) (a : ℕ) (g : Segment) (l : List Segment)
    → EndsAt (keys (stored (g ∷ l))) a
    → AllFit (g ∷ l)
    → (ltb g.sequence c.segment && not (g.sequence == a)) ≡ false
    → Trimmed c a g l (delete_acked (keys (repaired (g ∷ l))) c a (repaired (g ∷ l)))
kept c a g l ends fits stop = record {
  first = g;
  later = l;
  files =
      delete_acked-stop g.sequence (keys (repaired l)) c a (repaired (g ∷ l))
        (subst (λ ks. EndsAt ks a) (sym (keys-repaired (g ∷ l))) ends) stop;
  ends = ends;
  fits = fits;
  pending = refl;
  last = refl;
  less = omega arith;
}

trim :
    (c : Cursor) (a : ℕ) (g : Segment) (l : List Segment)
    → EndsAt (keys (stored (g ∷ l))) a
    → AllFit (g ∷ l)
    → Trimmed c a g l (delete_acked (keys (repaired (g ∷ l))) c a (repaired (g ∷ l)))
trim c a g [] ends fits = kept c a g [] ends fits (ground arith)
trim c a g (k ∷ l) ends fits =
    let t = trim c a k l ends.1 fits.1 in
    elim (Bool-cases (ltb g.sequence c.segment && not (g.sequence == a))) [
      | inr stop ↦ kept c a g (k ∷ l) ends fits stop
      | inl go ↦
          let lt : g.sequence < c.segment = ground arith in
          let ne : g.sequence ≢ a = ground arith in
          let file = encode_all g.payloads in
          record {
            first = t.first;
            later = t.later;
            files =
                delete_acked-step g.sequence (keys (repaired (k ∷ l))) c a file (repaired (k ∷ l))
                  go
                ∙ t.files;
            ends = t.ends;
            fits = t.fits;
            pending =
                ap (λ ms. ms ++ pending_metas c (k ∷ l)) (keep_passed c g.sequence 0 g.payloads lt)
                ∙ t.pending;
            last = t.last ∙ contents-later g.sequence a file (repaired (k ∷ l)) ne;
            less = omega (arith, t.less);
          }
    ]

delete_fully_acked_segments-IsStored :
    (w : Wal)
    → IsStored w
    → read_cursor w.disk ≡ ok (some w.cursor)
    → IsStored (delete_fully_acked_segments w).1
      × (file_bytes (delete_fully_acked_segments w).1.disk.files ≤ file_bytes w.disk.files)
unfolding delete_fully_acked_segments read_cursor
delete_fully_acked_segments-IsStored w v read =
    let l = v.first ∷ v.later in
    let c = w.cursor in
    let a = w.active_segment in
    let t = trim c a v.first v.later v.ends v.fits in
    let ends = subst (λ ks. EndsAt ks a) (sym (keys-repaired l)) v.ends in
    let left =
      ap (λ fs. (delete_acked (segment_sequences fs) c a fs).1) v.files
      ∙ ap (λ ks. (delete_acked ks c a (repaired l)).1) (segment_sequences-keys (repaired l) a ends)
      ∙ ap (λ r. r.1) t.files in
    let less =
      subst (λ fs. file_bytes fs ≤ file_bytes w.disk.files) (sym left)
        (subst (λ fs. file_bytes (repaired (t.first ∷ t.later)) ≤ file_bytes fs) (sym v.files)
          t.less) in
    let last = ap (contents a) left ∙ t.last ∙ ap (contents a) (sym v.files) in
    (
      record {
        first = t.first;
        later = t.later;
        files = left;
        ends = t.ends;
        fits = t.fits;
        stored_cursor = some c;
        cursor_file = read;
        cursor = refl;
        records = v.records ∙ t.pending;
        reach = subst (λ b. Le c (record { segment = a; offset = length b })) (sym last) v.reach;
        bounded = omega (arith, less, v.bounded);
        active = v.active;
      },
      less,
    )

-- The index of a stored log is the end of all its records.
pub records_suffix :
    (w : Wal) (v : IsStored w)
    → (front : List RecordMeta) × (all_metas (v.first ∷ v.later) ≡ front ++ w.records)
records_suffix w v =
    let l = v.first ∷ v.later in
    let (front, split) =
      pending_suffix w.cursor (all_metas l) (end_place v.first v.later)
        (Ascending-all_metas v.first v.later w.active_segment v.ends) in
    (front, split ∙ ap (λ ms. front ++ ms) (sym (pending_metas-keep w.cursor l) ∙ sym v.records))

pop_suffix :
    (front ms ns : List RecordMeta)
    → ns ≡ front ++ ms
    → (longer : List RecordMeta) × (ns ≡ longer ++ pop_front ms)
pop_suffix front [] ns same = (front, same)
pop_suffix front (m ∷ ms) ns same = (front ++ (m ∷ []), same ∙ sym (append_assoc front (m ∷ []) ms))

-- What `ack` of the head has written before it deletes anything.
abbrev pub acknowledged : Wal → Wal
acknowledged w = advance_cursor (record w { records = pop_front w.records })

-- That log is determined by its directory, and the cursor file holds its cursor.
pub acknowledged-IsStored :
    (w : Wal)
    → IsStored w
    → IsStored (acknowledged w)
      × (read_cursor (acknowledged w).disk ≡ ok (some (acknowledged w).cursor))
acknowledged-IsStored w v =
    let popped = record w { records = pop_front w.records } in
    let (front, split) = records_suffix w v in
    let (longer, split') = pop_suffix front w.records _ split in
    advance_cursor-IsStored popped v.first v.later longer v.files v.ends v.fits split' v.bounded
      v.active

-- `ack` keeps a log that its directory determines one, whether it accepts the entry or not, and does
-- not let its files grow.
pub ack-IsStored :
    (w : Wal) (entry : WalEntry)
    → IsStored w
    → IsStored (ack entry w).1 × (file_bytes (ack entry w).1.disk.files ≤ file_bytes w.disk.files)
unfolding ack persist_cursor
ack-IsStored w entry v = elim (Bool-cases (is_head entry w.records)) [
  | inr other ↦ rw other (v, omega arith)
  | inl head ↦
      let (moved, read) = acknowledged-IsStored w v in
      rw head (delete_fully_acked_segments-IsStored (acknowledged w) moved read)
]
