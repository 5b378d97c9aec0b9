-- ===== src/Wal/Enforce.antt =====
-- The loop of `enforce_cap` and the whole of `append`: which payloads are kept.
use cross_xagent.Base.{
  ℕ, zero, suc, ◌≤◌, ◌<◌, ◌≡◌, ◌≢◌, refl, sym, ap, ◌∙◌, true, false, Bool-cases, inl, inr, ◌⊎◌,
  List, [], ◌∷◌, ◌++◌, arith, Bytes, u64_max, length, ltb, ltb→lt, ltb→le, le→ltb, ◌==◌, ==-refl,
}
use mathlib.Core.List.{append_assoc}
use cross_xagent.Wal.Disk.{ok, err, Files, find_file, total_segment_bytes, contents}
use cross_xagent.Wal.Ops.{Wal, Step, bind_step, roll_if_active, evict, enforce_loop, enforce_cap}
use cross_xagent.Wal.Files.{file_bytes, EndsAt, EndsAt-le, keys, segment_sequences-keys}
use cross_xagent.Wal.Queue.{IsValid}
use cross_xagent.Wal.Capacity.{total_segment_bytes_lem, Evicted, evict_lem, LastIn}

pub bind_step_ok :
    {A B : Type 0} (r : Step A) (f : A → Wal → Step B) (a : A)
    → r.0 ≡ ok a
    → bind_step r f ≡ f a r.1
bind_step_ok (ok b, w) f a e = cc (ok-injective b a e)
  where
    ok-injective : {A : Type 0} (b a : A) → ok b ≡ ok a → b ≡ a
    ok-injective b a e = cc
bind_step_ok (err x, w) f a e = cc

pub loop-stop :
    (fuel : ℕ) (segments : List ℕ) (w : Wal) (total : ℕ)
    → total_segment_bytes segments w.disk.files ≡ ok total
    → total ≤ w.max_bytes
    → enforce_loop (suc fuel) segments w ≡ (ok tt, w)
unfolding enforce_loop
loop-stop fuel segments w total e le = rw (e, enforce_loop, le→ltb w.max_bytes total le)

pub loop-evict :
    (fuel s : ℕ) (rest : List ℕ) (w : Wal) (total : ℕ)
    → total_segment_bytes (s ∷ rest) w.disk.files ≡ ok total
    → ltb w.max_bytes total ≡ true
    → s ≢ w.active_segment
    → (evict s w).0 ≡ ok tt
    → enforce_loop (suc fuel) (s ∷ rest) w ≡ enforce_loop fuel rest (evict s w).1
unfolding enforce_loop roll_if_active
loop-evict fuel s rest w total e over ne done =
    rw (e, enforce_loop, over)
      (rw (not_active, roll_if_active) (bind_step_ok (evict s w) _ tt done))
  where
    not_active : (s == w.active_segment) ≡ false
    not_active = ground arith

-- What the loop leaves: the newest payloads, in files that fit the cap.
pub record Enforced (w : Wal) (q : List Bytes) (r : Step (Unit {0})) : Type 0 where
  pub dropped : List Bytes
  pub queue : List Bytes
  pub split : q ≡ dropped ++ queue
  pub succeeds : r.0 ≡ ok tt
  pub valid : IsValid r.1 queue
  pub fits : file_bytes r.1.disk.files ≤ w.max_bytes
  pub same_max : r.1.max_bytes ≡ w.max_bytes
  pub active : r.1.active_segment ≡ w.active_segment
  pub spared :
      ((dropped ≡ []) × (file_bytes r.1.disk.files ≡ file_bytes w.disk.files))
      ⊎ (w.max_bytes < file_bytes w.disk.files)
  pub newest : LastIn w.active_segment w.records → LastIn r.1.active_segment r.1.records

stopped :
    (fuel : ℕ) (w : Wal) (fs : Files) (q : List Bytes)
    → w.disk.files ≡ fs
    → IsValid w q
    → file_bytes fs ≤ u64_max
    → file_bytes fs ≤ w.max_bytes
    → Enforced w q (enforce_loop (suc fuel) (keys fs) w)
stopped fuel w fs q e v small le =
    let total : total_segment_bytes (keys fs) w.disk.files ≡ ok (file_bytes fs) =
      rw e (total_segment_bytes_lem fs w.active_segment (rw e at v.files) small) in
    rw (loop-stop fuel (keys fs) w (file_bytes fs) total le) (record {
      dropped = [];
      queue = q;
      split = refl;
      succeeds = refl;
      valid = v;
      fits = rw e le;
      same_max = refl;
      active = refl;
      spared = inl (refl, refl);
      newest = λ h. h;
    })

pub contents-only : (s : ℕ) (b : Bytes) → contents s ((s, b) ∷ []) ≡ b
unfolding contents find_file
contents-only s b = rw (==-refl s, contents)

-- A single file is the active one, which fits the cap.
only_active :
    (w : Wal) (s : ℕ) (b : Bytes) (q : List Bytes)
    → w.disk.files ≡ (s, b) ∷ []
    → IsValid w q
    → length b ≤ w.max_bytes
only_active w s b q e v =
    let last : s ≡ w.active_segment = rw e at v.files in
    let same : contents w.active_segment w.disk.files ≡ b = rw (e, ← last) (contents-only s b) in
    rw same at v.room

-- One eviction, and then the rest of the loop.
then_rest :
    (w : Wal) (s : ℕ) (fs : Files) (q : List Bytes) (x : Evicted w fs q (evict s w))
    (r : Step (Unit {0}))
    → w.max_bytes < file_bytes w.disk.files
    → Enforced (evict s w).1 x.queue r
    → Enforced w q r
then_rest w s fs q x r over t = record {
  dropped = x.dropped ++ t.dropped;
  queue = t.queue;
  split =
      x.split ∙ ap (λ l. x.dropped ++ l) t.split ∙ sym (append_assoc x.dropped t.dropped t.queue);
  succeeds = t.succeeds;
  valid = t.valid;
  fits = omega (arith, t.fits, x.same_max);
  same_max = t.same_max ∙ x.same_max;
  active = t.active ∙ x.active;
  spared = inr over;
  newest = λ h. t.newest (rw x.active (x.newest h));
}

-- The loop keeps a suffix of the queue, never evicts the active segment, and ends within the cap;
-- one round more than there are segments is enough.
enforce_loop_lem :
    (fuel : ℕ) (w : Wal) (fs : Files) (q : List Bytes)
    → w.disk.files ≡ fs
    → IsValid w q
    → length (keys fs) < fuel
    → file_bytes fs ≤ u64_max
    → Enforced w q (enforce_loop fuel (keys fs) w)
enforce_loop_lem zero w fs q e v enough small = absurd (omega arith)
enforce_loop_lem (suc fuel) w [] q e v enough small = absurd (rw e at v.files)
enforce_loop_lem (suc fuel) w ((s, b) ∷ []) q e v enough small =
    stopped fuel w ((s, b) ∷ []) q e v small (omega (arith, only_active w s b q e v))
enforce_loop_lem (suc fuel) w ((s, b) ∷ (t, d) ∷ fs) q e v enough small =
    let rest : Files = (t, d) ∷ fs in
    let ends : EndsAt (s ∷ keys rest) w.active_segment = rw e at v.files in
    let ne : s ≢ w.active_segment = omega (arith, EndsAt-le t (keys fs) w.active_segment ends.1) in
    let x = evict_lem w s b rest q e ne v in
    let total : total_segment_bytes (keys ((s, b) ∷ rest)) w.disk.files
        ≡ ok (file_bytes ((s, b) ∷ rest)) =
      rw e (total_segment_bytes_lem ((s, b) ∷ rest) w.active_segment ends small) in
    elim (Bool-cases (ltb w.max_bytes (file_bytes ((s, b) ∷ rest)))) [
      | inl over ↦
          rw (loop-evict fuel s (keys rest) w (file_bytes ((s, b) ∷ rest)) total over ne x.succeeds)
            (then_rest w s rest q x _ (rw e (ltb→lt _ _ over)) (
              enforce_loop_lem fuel (evict s w).1 rest x.queue x.files x.valid (omega arith)
                (omega arith)))
      | inr fits ↦ stopped fuel w ((s, b) ∷ rest) q e v small (ltb→le _ _ fits)
    ]

-- On a well-formed log whose files together fit a u64, `enforce_cap` ends and succeeds, drops
-- payloads from the front only, keeps the log well formed, and leaves files that fit the cap.
pub enforce_cap_lem :
    (w : Wal) (q : List Bytes)
    → IsValid w q
    → file_bytes w.disk.files ≤ u64_max
    → Enforced w q (enforce_cap w)
unfolding enforce_cap
enforce_cap_lem w q v small =
    rw (segment_sequences-keys w.disk.files w.active_segment v.files)
      (enforce_loop_lem _ w w.disk.files q refl v (omega arith) small)
