-- ===== src/Wal/Torn.antt =====
-- What `Wal::open` makes of a directory within the cap whose last segment has something torn at its
-- end.
use cross_xagent.Base.{
  ℕ, zero, suc, ◌+◌, ◌≤◌, ◌<◌, ◌≡◌, ◌≢◌, refl, sym, ap, ◌∙◌, Bool-cases, inl, inr, Option, List, [],
  ◌∷◌, ◌++◌, arith, Bytes, u32_max, u64_max, length, length-take, take, drop, keep, ltb, ltb→le,
  take-append-drop, take-append_le, le_value, ==-refl,
}
use mathlib.Core.Path.{subst}
use mathlib.Core.List.{append_assoc, append-nil}
use cross_xagent.Wal.Disk.{ok, Cursor, Files, Disk, write_file, contents, read_cursor}
use cross_xagent.Wal.Record.{RecordMeta, encode_record}
use cross_xagent.Wal.Ops.{Wal, cursor_or_start, enforce_cap, enforce_loop, open_wal}
use cross_xagent.Wal.Files.{keys, EndsAt, EndsAt-le, file_bytes, segment_sequences-keys}
use cross_xagent.Wal.Reading.{length-encode_record, length_field}
use cross_xagent.Wal.Scanning.{encode_all, Fits, IsTorn, is_pending, metas_from}
use cross_xagent.Wal.Capacity.{total_segment_bytes_lem}
use cross_xagent.Wal.Enforce.{loop-stop, contents-only}
use cross_xagent.Wal.Queue.{contents-later}
use cross_xagent.Wal.Stored.{Segment, stored, repaired, Whole, pending_metas}
use cross_xagent.Wal.Recovery.{recovered, open_wal-recovered, keys-repaired}

loop-within :
    (fuel : ℕ) (w : Wal)
    → EndsAt (keys w.disk.files) w.active_segment
    → file_bytes w.disk.files ≤ w.max_bytes
    → file_bytes w.disk.files ≤ u64_max
    → 0 < fuel
    → enforce_loop fuel (keys w.disk.files) w ≡ (ok tt, w)
loop-within zero w h within small some_fuel = absurd (omega arith)
loop-within (suc fuel) w h within small some_fuel =
    loop-stop fuel (keys w.disk.files) w (file_bytes w.disk.files)
      (total_segment_bytes_lem w.disk.files w.active_segment h (omega arith)) within

-- Within the cap nothing is evicted.
pub enforce_cap-within :
    (w : Wal)
    → EndsAt (keys w.disk.files) w.active_segment
    → file_bytes w.disk.files ≤ w.max_bytes
    → file_bytes w.disk.files ≤ u64_max
    → enforce_cap w ≡ (ok tt, w)
unfolding enforce_cap
enforce_cap-within w h within small =
    rw (segment_sequences-keys w.disk.files w.active_segment h)
      (loop-within _ w h within small (omega arith))

abbrev pub AllFit : List Segment → Type 0
AllFit [] = Unit
AllFit (g ∷ l) = Fits g.payloads × AllFit l

-- The segments, with this left behind the last of them and nothing behind the others.
abbrev tear_first : Bytes → Segment → List Segment → Segment
tear_first torn g [] = record g { torn = torn }
tear_first torn g (k ∷ l) = record g { torn = [] }

abbrev tear_later : Bytes → Segment → List Segment → List Segment
tear_later torn g [] = []
tear_later torn g (k ∷ l) = tear_first torn k l ∷ tear_later torn k l

abbrev tear : Bytes → Segment → List Segment → List Segment
tear torn g l = tear_first torn g l ∷ tear_later torn g l

sequence-tear :
    (torn : Bytes) (g : Segment) (l : List Segment) → (tear_first torn g l).sequence ≡ g.sequence
sequence-tear torn g [] = refl
sequence-tear torn g (k ∷ l) = refl

repaired-tear :
    (torn : Bytes) (g : Segment) (l : List Segment) → repaired (tear torn g l) ≡ repaired (g ∷ l)
repaired-tear torn g [] = refl
repaired-tear torn g (k ∷ l) =
    ap (λ fs. (g.sequence, encode_all g.payloads) ∷ fs) (repaired-tear torn k l)

keys-tear :
    (torn : Bytes) (g : Segment) (l : List Segment)
    → keys (stored (tear torn g l)) ≡ keys (stored (g ∷ l))
keys-tear torn g [] = refl
keys-tear torn g (k ∷ l) = ap (λ ks. g.sequence ∷ ks) (keys-tear torn k l)

pending_metas-tear :
    (torn : Bytes) (c : Cursor) (g : Segment) (l : List Segment)
    → pending_metas c (tear torn g l) ≡ pending_metas c (g ∷ l)
pending_metas-tear torn c g [] = refl
pending_metas-tear torn c g (k ∷ l) =
    ap (λ ms. keep (is_pending c) (metas_from g.sequence 0 g.payloads) ++ ms)
      (pending_metas-tear torn c k l)

tear-Whole :
    (torn : Bytes) (g : Segment) (l : List Segment)
    → AllFit (g ∷ l)
    → IsTorn torn
    → Whole (tear torn g l)
tear-Whole torn g [] fits t = (fits.0, t, tt)
tear-Whole torn g (k ∷ l) fits t = (fits.0, inl (omega arith), tear-Whole torn k l fits.1 t)

-- A write behind the last segment.
abbrev pub extended : Bytes → Segment → List Segment → Files
extended more g [] = (g.sequence, encode_all g.payloads ++ more) ∷ []
extended more g (k ∷ l) = (g.sequence, encode_all g.payloads) ∷ extended more k l

write_file-later :
    (s t : ℕ) (x b : Bytes) (fs : Files)
    → s ≢ t
    → write_file t x ((s, b) ∷ fs) ≡ (s, b) ∷ write_file t x fs
unfolding write_file
write_file-later s t x b fs ne = ground arith

write_file-only : (s : ℕ) (x b : Bytes) → write_file s x ((s, b) ∷ []) ≡ (s, x) ∷ []
unfolding write_file
write_file-only s x b = rw (==-refl s) refl

pub write_file-extended :
    (more : Bytes) (g : Segment) (l : List Segment) (a : ℕ)
    → EndsAt (keys (stored (g ∷ l))) a
    → write_file a (contents a (repaired (g ∷ l)) ++ more) (repaired (g ∷ l)) ≡ extended more g l
write_file-extended more g [] a h =
    rw (← h, contents-only g.sequence (encode_all g.payloads))
      (write_file-only g.sequence (encode_all g.payloads ++ more) (encode_all g.payloads))
write_file-extended more g (k ∷ l) a h =
    let ne : g.sequence ≢ a = omega (arith, EndsAt-le k.sequence (keys (stored l)) a h.1) in
    let file = encode_all g.payloads in
    ap (λ b. write_file a (b ++ more) (repaired (g ∷ k ∷ l)))
      (sym (contents-later g.sequence a file (repaired (k ∷ l)) ne))
    ∙ write_file-later g.sequence a (contents a (repaired (k ∷ l)) ++ more) file (repaired (k ∷ l))
        ne
    ∙ ap (λ fs. (g.sequence, file) ∷ fs) (write_file-extended more k l a h.1)

stored-tear :
    (torn : Bytes) (g : Segment) (l : List Segment) → stored (tear torn g l) ≡ extended torn g l
stored-tear torn g [] = refl
stored-tear torn g (k ∷ l) =
    ap (λ b. (g.sequence, b) ∷ stored (tear torn k l)) (append-nil (encode_all g.payloads))
    ∙ ap (λ fs. (g.sequence, encode_all g.payloads) ∷ fs) (stored-tear torn k l)

abbrev pub with_index : Disk → ℕ → ℕ → Cursor → Files → List RecordMeta → Wal
with_index d max_bytes a c fs ms = record {
  disk = record d { files = fs };
  max_bytes = max_bytes;
  active_segment = a;
  cursor = c;
  records = ms;
}

recovered-tear :
    (d : Disk) (max_bytes a : ℕ) (torn : Bytes) (g : Segment) (l : List Segment)
    (cursor : Option Cursor)
    → recovered d max_bytes a
        (cursor_or_start (tear_first torn g l).sequence cursor)
        (tear torn g l)
      ≡ recovered d max_bytes a (cursor_or_start g.sequence cursor) (g ∷ l)
recovered-tear d max_bytes a torn g l cursor =
    let c = cursor_or_start g.sequence cursor in
    ap (λ s. recovered d max_bytes a (cursor_or_start s cursor) (tear torn g l))
      (sequence-tear torn g l)
    ∙ ap (λ fs. with_index d max_bytes a c fs (pending_metas c (tear torn g l)))
        (repaired-tear torn g l)
    ∙ ap (λ ms. with_index d max_bytes a c (repaired (g ∷ l)) ms) (pending_metas-tear torn c g l)

-- What follows the last segment is cut off, and nothing is evicted where the rest is within the cap.
pub open_wal-torn :
    (d : Disk) (max_bytes a : ℕ) (torn : Bytes) (g : Segment) (l : List Segment)
    (cursor : Option Cursor)
    → d.files ≡ extended torn g l
    → EndsAt (keys (stored (g ∷ l))) a
    → AllFit (g ∷ l)
    → IsTorn torn
    → read_cursor d ≡ ok cursor
    → file_bytes (repaired (g ∷ l)) ≤ max_bytes
    → file_bytes (repaired (g ∷ l)) ≤ u64_max
    → open_wal d max_bytes
      ≡ ok (ok tt, recovered d max_bytes a (cursor_or_start g.sequence cursor) (g ∷ l))
open_wal-torn d max_bytes a torn g l cursor same h fits t read within small =
    let w = recovered d max_bytes a (cursor_or_start g.sequence cursor) (g ∷ l) in
    open_wal-recovered d max_bytes a (tear_first torn g l) (tear_later torn g l) cursor
      (same ∙ sym (stored-tear torn g l)) (subst (λ ks. EndsAt ks a) (sym (keys-tear torn g l)) h)
      (tear-Whole torn g l fits t) read
    ∙ ap (λ r. ok (enforce_cap r)) (recovered-tear d max_bytes a torn g l cursor)
    ∙ ap ok (
        enforce_cap-within w (subst (λ ks. EndsAt ks a) (sym (keys-repaired (g ∷ l))) h) within
          small)

-- Less than the whole of a record is torn.
pub take-IsTorn :
    (n : ℕ) (p : Bytes) → length p ≤ u32_max → n < 8 + length p → IsTorn (take n (encode_record p))
take-IsTorn n p fits less = elim (Bool-cases (ltb n 8)) [
  | inl e ↦
      let lt : n < 8 = ground arith in inl (omega (arith, lt, length-take n (encode_record p)))
  | inr e ↦
      let announced : le_value (take 4 (take n (encode_record p))) ≡ length p =
        ap le_value (
          sym (
            take-append_le 4 (take n (encode_record p)) (drop n (encode_record p) ++ []) (
              omega (arith, ltb→le n 8 e, length-take n (encode_record p), length-encode_record p)))
          ∙ ap (take 4)
              (sym (append_assoc (take n (encode_record p)) (drop n (encode_record p)) []))
          ∙ ap (λ b. take 4 (b ++ [])) (take-append-drop n (encode_record p)))
        ∙ length_field p [] fits in
      inr (omega (arith, announced, length-take n (encode_record p)))
]
