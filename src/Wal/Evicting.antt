-- ===== src/Wal/Evicting.antt =====
-- `enforce_cap` and the whole of `Wal::append` on a log that its directory determines.
use cross_xagent.Base.{
  ℕ, zero, suc, ◌+◌, ◌≤◌, ◌<◌, ◌≡◌, ◌≢◌, refl, sym, ap, ◌∙◌, true, false, Bool-cases, inl, inr,
  List, [], ◌∷◌, ◌++◌, arith, Bytes, u64_max, length, keep, ltb, le→ltb, ltb→le, ◌==◌, ==-refl,
}
use mathlib.Core.Path.{subst}
use cross_xagent.Wal.Disk.{
  ok, Cursor, Files, contents, total_segment_bytes, remove_file, persist_cursor,
}
use cross_xagent.Wal.Record.{RecordMeta}
use cross_xagent.Wal.Ops.{Wal, Step, other_segment, evict, enforce_loop, enforce_cap}
use cross_xagent.Wal.Files.{keys, EndsAt, EndsAt-le, file_bytes, segment_sequences-keys}
use cross_xagent.Wal.Scanning.{encode_all, metas_from, is_pending, keep-append}
use cross_xagent.Wal.Queue.{contents-later}
use cross_xagent.Wal.Capacity.{remove_first, total_segment_bytes_lem}
use cross_xagent.Wal.Enforce.{contents-only, loop-stop, loop-evict}
use cross_xagent.Wal.Stored.{Segment, stored, repaired, pending_metas}
use cross_xagent.Wal.Recovery.{keys-repaired}
use cross_xagent.Wal.Places.{
  all_metas, pending_suffix, pending_metas-keep, Ascending-all_metas, end_place,
}
use cross_xagent.Wal.Torn.{AllFit}
use cross_xagent.Wal.Durable.{IsStored}
use cross_xagent.Wal.Progress.{advance_cursor-IsStored}

-- Dropping a segment's records drops all of its own,
keep_own :
    (c : Cursor) (s offset : ℕ) (ps : List Bytes)
    → keep (other_segment s) (keep (is_pending c) (metas_from s offset ps)) ≡ []
keep_own c s offset [] = refl
keep_own c s offset (p ∷ ps) =
    let m : RecordMeta = record { segment = s; offset = offset; payload_len = length p } in
    let rest = keep_own c s (offset + (8 + length p)) ps in
    elim (Bool-cases (is_pending c m)) [ inl e ↦ rw (e, ==-refl s) rest | inr e ↦ rw e rest ]

-- and none of another's.
keep_foreign :
    (c : Cursor) (s t offset : ℕ) (ps : List Bytes)
    → s ≢ t
    → keep (other_segment s) (keep (is_pending c) (metas_from t offset ps))
      ≡ keep (is_pending c) (metas_from t offset ps)
keep_foreign c s t offset [] ne = refl
keep_foreign c s t offset (p ∷ ps) ne =
    let m : RecordMeta = record { segment = t; offset = offset; payload_len = length p } in
    let rest = keep_foreign c s t (offset + (8 + length p)) ps ne in
    let other : (t == s) ≡ false = ground arith in
    elim (Bool-cases (is_pending c m)) [
      | inl e ↦ rw (e, other) (ap (λ ms. m ∷ ms) rest)
      | inr e ↦ rw e rest
    ]

abbrev Above : ℕ → List Segment → Type 0
Above s [] = Unit
Above s (g ∷ l) = (s < g.sequence) × Above s l

Above-weaken : (s t : ℕ) (l : List Segment) → s ≤ t → Above t l → Above s l
Above-weaken s t [] le h = tt
Above-weaken s t (g ∷ l) le h = (omega arith, Above-weaken s t l le h.1)

EndsAt-Above : (s a : ℕ) (l : List Segment) → EndsAt (s ∷ keys (stored l)) a → Above s l
EndsAt-Above s a [] h = tt
EndsAt-Above s a (g ∷ l) h =
    (h.0, Above-weaken s g.sequence l (omega arith) (EndsAt-Above g.sequence a l h.1))

keep_rest :
    (c : Cursor) (s : ℕ) (l : List Segment)
    → Above s l
    → keep (other_segment s) (pending_metas c l) ≡ pending_metas c l
keep_rest c s [] h = refl
keep_rest c s (g ∷ l) h =
    let ms = keep (is_pending c) (metas_from g.sequence 0 g.payloads) in
    keep-append (other_segment s) ms (pending_metas c l)
    ∙ ap (λ ns. ns ++ keep (other_segment s) (pending_metas c l))
        (keep_foreign c s g.sequence 0 g.payloads (omega arith))
    ∙ ap (λ ns. ms ++ ns) (keep_rest c s l h.1)

pub keep_others :
    (c : Cursor) (g : Segment) (l : List Segment) (a : ℕ)
    → EndsAt (keys (stored (g ∷ l))) a
    → keep (other_segment g.sequence) (pending_metas c (g ∷ l)) ≡ pending_metas c l
keep_others c g l a h =
    keep-append (other_segment g.sequence)
      (keep (is_pending c) (metas_from g.sequence 0 g.payloads)) (pending_metas c l)
    ∙ ap (λ ns. ns ++ keep (other_segment g.sequence) (pending_metas c l))
        (keep_own c g.sequence 0 g.payloads)
    ∙ keep_rest c g.sequence l (EndsAt-Above g.sequence a l h)

-- Evicting a segment that is not the last keeps the log stored.
record Evicts (w : Wal) (fs : Files) (r : Step (Unit {0})) : Type 0 where
  succeeds : r.0 ≡ ok tt
  stored : IsStored r.1
  files : r.1.disk.files ≡ fs
  same_max : r.1.max_bytes ≡ w.max_bytes
  active : r.1.active_segment ≡ w.active_segment

evict-IsStored :
    (w : Wal) (g k : Segment) (l : List Segment)
    → w.disk.files ≡ repaired (g ∷ k ∷ l)
    → EndsAt (keys (stored (g ∷ k ∷ l))) w.active_segment
    → AllFit (g ∷ k ∷ l)
    → w.records ≡ pending_metas w.cursor (g ∷ k ∷ l)
    → file_bytes w.disk.files ≤ u64_max
    → w.active_segment ≤ u64_max
    → Evicts w (repaired (k ∷ l)) (evict g.sequence w)
unfolding evict persist_cursor
evict-IsStored w g k l files ends fits records bounded active =
    let c = w.cursor in
    let a = w.active_segment in
    let rest = k ∷ l in
    let removed : remove_file g.sequence w.disk.files ≡ ok (repaired rest) =
      ap (remove_file g.sequence) files
      ∙ remove_first g.sequence (encode_all g.payloads) (repaired rest) in
    let left = ap (keep (other_segment g.sequence)) records ∙ keep_others c g rest a ends in
    let (front, split) =
      pending_suffix c (all_metas rest) (end_place k l) (Ascending-all_metas k l a ends.1) in
    let split' = split ∙ ap (λ ms. front ++ ms) (sym (pending_metas-keep c rest) ∙ sym left) in
    let small : file_bytes (repaired rest) ≤ u64_max =
      omega (arith, subst (λ fs. file_bytes fs ≤ u64_max) files bounded) in
    rw (removed, evict)
      (record {
        succeeds = refl;
        stored = (advance_cursor-IsStored _ k l front refl ends.1 fits.1 split' small active).0;
        files = refl;
        same_max = refl;
        active = refl;
      })

-- A single file is within the cap where the active segment is.
one_file :
    (w : Wal) (g : Segment)
    → w.disk.files ≡ repaired (g ∷ [])
    → g.sequence ≡ w.active_segment
    → length (contents w.active_segment w.disk.files) ≤ w.max_bytes
    → file_bytes w.disk.files ≤ w.max_bytes
one_file w g files last room =
    let file = encode_all g.payloads in
    let same : contents w.active_segment w.disk.files ≡ file =
      rw (files, ← last) (contents-only g.sequence file) in
    rw files (omega (arith, ap length same))

-- One round of the loop, where the rest of it keeps the log stored.
one_round :
    (fuel : ℕ) (w : Wal) (g : Segment) (l : List Segment)
    → IsStored w
    → w.disk.files ≡ repaired (g ∷ l)
    → EndsAt (keys (stored (g ∷ l))) w.active_segment
    → AllFit (g ∷ l)
    → w.records ≡ pending_metas w.cursor (g ∷ l)
    → file_bytes w.disk.files ≤ u64_max
    → length (contents w.active_segment w.disk.files) ≤ w.max_bytes
    → ((w' : Wal)
        → IsStored w'
        → length (contents w'.active_segment w'.disk.files) ≤ w'.max_bytes
        → IsStored (enforce_loop fuel (keys w'.disk.files) w').1)
    → IsStored (enforce_loop (suc fuel) (keys w.disk.files) w).1
one_round fuel w g l v files ends fits records bounded room next =
    let a = w.active_segment in
    let total : total_segment_bytes (keys w.disk.files) w.disk.files
        ≡ ok (file_bytes w.disk.files) =
      total_segment_bytes_lem w.disk.files a
        (subst (λ fs. EndsAt (keys fs) a) (sym files)
          (subst (λ ks. EndsAt ks a) (sym (keys-repaired (g ∷ l))) ends))
        bounded in
    elim (Bool-cases (ltb w.max_bytes (file_bytes w.disk.files))) [
      | inr within ↦
          rw
            (loop-stop fuel (keys w.disk.files) w (file_bytes w.disk.files) total
              (ltb→le _ _ within))
            v
      | inl over ↦ evicting l files ends fits records total over
    ]
  where
    evicting :
        (l : List Segment)
        → w.disk.files ≡ repaired (g ∷ l)
        → EndsAt (keys (stored (g ∷ l))) w.active_segment
        → AllFit (g ∷ l)
        → w.records ≡ pending_metas w.cursor (g ∷ l)
        → total_segment_bytes (keys w.disk.files) w.disk.files ≡ ok (file_bytes w.disk.files)
        → ltb w.max_bytes (file_bytes w.disk.files) ≡ true
        → IsStored (enforce_loop (suc fuel) (keys w.disk.files) w).1
    evicting [] files ends fits records total over =
        let small = one_file w g files ends room in
        let fits_in = le→ltb w.max_bytes (file_bytes w.disk.files) small in cc
    evicting (k ∷ l) files ends fits records total over =
        let rest = k ∷ l in
        let x = evict-IsStored w g k l files ends fits records bounded v.active in
        let ne : g.sequence ≢ w.active_segment =
          omega (arith, EndsAt-le k.sequence (keys (stored l)) w.active_segment ends.1) in
        let total' : total_segment_bytes (g.sequence ∷ keys (repaired rest)) w.disk.files
            ≡ ok (file_bytes w.disk.files) =
          ap (λ fs. total_segment_bytes (keys fs) w.disk.files) (sym files) ∙ total in
        let w' = (evict g.sequence w).1 in
        let same =
          ap (contents w'.active_segment) x.files
          ∙ ap (λ s. contents s (repaired rest)) x.active
          ∙ contents-later g.sequence w.active_segment (encode_all g.payloads) (repaired rest) ne
          ∙ ap (contents w.active_segment) (sym files) in
        let room' : length (contents w'.active_segment w'.disk.files) ≤ w'.max_bytes =
          omega (arith, ap length same, x.same_max, room) in
        subst (λ r. IsStored r.1)
          (sym (
            ap (λ fs. enforce_loop (suc fuel) (keys fs) w) files
            ∙ loop-evict fuel g.sequence (keys (repaired rest)) w (file_bytes w.disk.files) total'
                over ne x.succeeds
            ∙ ap (λ fs. enforce_loop fuel (keys fs) (evict g.sequence w).1) (sym x.files)))
          (next (evict g.sequence w).1 x.stored room')

loop-IsStored :
    (fuel : ℕ) (w : Wal)
    → IsStored w
    → length (contents w.active_segment w.disk.files) ≤ w.max_bytes
    → IsStored (enforce_loop fuel (keys w.disk.files) w).1
unfolding enforce_loop
loop-IsStored zero w v room = v
loop-IsStored (suc fuel) w v room =
    one_round fuel w v.first v.later v v.files v.ends v.fits v.records v.bounded room
      (λ w' v' room'. loop-IsStored fuel w' v' room')

-- Enforcing the cap keeps the log stored where the active segment is within it.
pub enforce_cap-IsStored :
    (w : Wal)
    → IsStored w
    → length (contents w.active_segment w.disk.files) ≤ w.max_bytes
    → IsStored (enforce_cap w).1
unfolding enforce_cap
enforce_cap-IsStored w v room =
    let a = w.active_segment in
    let ends = subst (λ ks. EndsAt ks a) (sym (keys-repaired (v.first ∷ v.later))) v.ends in
    rw (segment_sequences-keys w.disk.files a (subst (λ fs. EndsAt (keys fs) a) (sym v.files) ends))
      (loop-IsStored _ w v room)
