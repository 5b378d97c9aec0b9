-- ===== src/Wal/Rolled.antt =====
-- A new segment at the end of a log that its directory determines.
use cross_xagent.Base.{
  ℕ, ◌+◌, ◌<◌, ◌≡◌, refl, sym, ap, ◌∙◌, ◌&&◌, Bool-cases, inl, inr, none, List, [], ◌∷◌, ◌++◌,
  arith, Bytes, u64_max, length, keep, ltb, ◌==◌,
}
use mathlib.Core.Path.{subst}
use cross_xagent.Wal.Disk.{
  Cursor, Files, find_file, write_file, contents, open_segment, read_cursor,
}
use cross_xagent.Wal.Record.{segment_max_bytes}
use cross_xagent.Wal.Ops.{Wal, roll, roll_if_full}
use cross_xagent.Wal.Files.{keys, EndsAt, EndsAt-concat, file_bytes-open_segment, find_above}
use cross_xagent.Wal.Scanning.{encode_all, metas_from, is_pending}
use cross_xagent.Wal.Stored.{Segment, stored, repaired, pending_metas}
use cross_xagent.Wal.Recovery.{keys-repaired}
use cross_xagent.Wal.Torn.{AllFit}
use cross_xagent.Wal.Places.{Le-Lt, Lt-segment, end_of}
use cross_xagent.Wal.Durable.{IsStored}

write_file-new :
    (s : ℕ) (b : Bytes) (fs : Files)
    → find_file s fs ≡ none
    → write_file s b fs ≡ fs ++ ((s, b) ∷ [])
unfolding write_file find_file
write_file-new s b [] h = refl
write_file-new s b ((t, d) ∷ fs) h = ground (arith, write_file-new s b fs)

open_segment-new :
    (s : ℕ) (fs : Files) → find_file s fs ≡ none → open_segment s fs ≡ fs ++ ((s, []) ∷ [])
unfolding open_segment
open_segment-new s fs h = rw (h, open_segment) (write_file-new s [] fs h)

-- A segment that was just opened.
abbrev fresh_segment : ℕ → Segment
fresh_segment s = record { sequence = s; payloads = []; torn = [] }

repaired-fresh :
    (l : List Segment) (s : ℕ)
    → repaired (l ++ (fresh_segment s ∷ [])) ≡ repaired l ++ ((s, []) ∷ [])
repaired-fresh [] s = refl
repaired-fresh (g ∷ l) s = ap (λ fs. (g.sequence, encode_all g.payloads) ∷ fs) (repaired-fresh l s)

keys-fresh :
    (l : List Segment) (s : ℕ)
    → keys (stored (l ++ (fresh_segment s ∷ []))) ≡ keys (stored l) ++ (s ∷ [])
keys-fresh [] s = refl
keys-fresh (g ∷ l) s = ap (λ ks. g.sequence ∷ ks) (keys-fresh l s)

fresh-AllFit : (l : List Segment) (s : ℕ) → AllFit l → AllFit (l ++ (fresh_segment s ∷ []))
fresh-AllFit [] s h = (tt, tt)
fresh-AllFit (g ∷ l) s h = (h.0, fresh-AllFit l s h.1)

pending_metas-fresh :
    (c : Cursor) (l : List Segment) (s : ℕ)
    → pending_metas c (l ++ (fresh_segment s ∷ [])) ≡ pending_metas c l
pending_metas-fresh c [] s = refl
pending_metas-fresh c (g ∷ l) s =
    ap (λ ms. keep (is_pending c) (metas_from g.sequence 0 g.payloads) ++ ms)
      (pending_metas-fresh c l s)

-- So does starting a new segment.
pub roll-IsStored : (w : Wal) → IsStored w → IsStored (roll w).1
unfolding roll read_cursor
roll-IsStored w v = elim (Bool-cases (w.active_segment == u64_max)) [
  | inl last ↦ rw last v
  | inr more ↦
      let a = w.active_segment in
      let l = v.first ∷ v.later in
      let ends = subst (λ ks. EndsAt ks a) (sym (keys-repaired l)) v.ends in
      let lt : a < a + 1 = omega arith in
      let none_there = find_above (a + 1) (repaired l) a ends lt in
      rw more (record {
        first = v.first;
        later = v.later ++ (fresh_segment (a + 1) ∷ []);
        files =
            ap (open_segment (a + 1)) v.files
            ∙ open_segment-new (a + 1) (repaired l) none_there
            ∙ sym (repaired-fresh l (a + 1));
        ends =
            subst (λ ks. EndsAt ks (a + 1)) (sym (keys-fresh l (a + 1)))
              (EndsAt-concat (keys (stored l)) a (a + 1) v.ends lt);
        fits = fresh-AllFit l (a + 1) v.fits;
        stored_cursor = v.stored_cursor;
        cursor_file = v.cursor_file;
        cursor = v.cursor;
        records = v.records ∙ sym (pending_metas-fresh w.cursor l (a + 1));
        reach = Le-Lt w.cursor (end_of w) _ v.reach (Lt-segment a (a + 1) _ _ lt);
        bounded = omega (arith, file_bytes-open_segment (a + 1) w.disk.files, v.bounded);
        active = ground (arith, v.active);
      })
]

pub roll_if_full-IsStored : (w : Wal) (n : ℕ) → IsStored w → IsStored (roll_if_full n w).1
unfolding roll_if_full
roll_if_full-IsStored w n v =
    let len = length (contents w.active_segment w.disk.files) in
    elim (Bool-cases (ltb 0 len && ltb segment_max_bytes (len + n))) [
      | inl full ↦ rw full (roll-IsStored w v)
      | inr room ↦ rw room v
    ]
