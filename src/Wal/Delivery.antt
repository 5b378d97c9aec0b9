-- ===== src/Wal/Delivery.antt =====
-- The whole of `append`: the new payload is the newest of the queue, older ones may be dropped, and
-- the files fit the cap. Below one full segment the cap does not protect the new payload.
use cross_xagent.Base.{
  ℕ, ◌+◌, ◌≤◌, ◌<◌, ◌≡◌, ◌≢◌, refl, sym, ap, ◌⊎◌, inl, inr, ◌∙◌, List, [], ◌∷◌, ◌++◌, arith, Bytes,
  u32_max, u64_max, length, le→ltb,
}
use mathlib.Core.Path.{subst}
use cross_xagent.Wal.Disk.{ok, Files, contents}
use cross_xagent.Wal.Record.{RecordMeta, header_bytes, segment_max_bytes}
use cross_xagent.Wal.Ops.{Wal, Step, roll_if_full, write_record, enforce_cap, append}
use cross_xagent.Wal.Files.{file_bytes}
use cross_xagent.Wal.Reads.{Reads}
use cross_xagent.Wal.Queue.{IsValid}
use cross_xagent.Wal.Append.{roll_if_full_lem, write_record_lem, write_record-bytes}
use cross_xagent.Wal.Capacity.{LastIn}
use cross_xagent.Wal.Enforce.{bind_step_ok, Enforced, enforce_cap_lem}

-- A suffix of `q ++ [p]` that is not empty ends with `p`.
record Newest (q : List Bytes) (p : Bytes) (q' : List Bytes) : Type 0 where
  older : List Bytes
  same : q' ≡ older ++ (p ∷ [])
  dropped : List Bytes
  split : q ≡ dropped ++ older

cons-injective : (x y : Bytes) (xs ys : List Bytes) → x ∷ xs ≡ y ∷ ys → (x ≡ y) × (xs ≡ ys)
cons-injective x y xs ys e = (cc, cc)

Newest-of_suffix :
    (q : List Bytes) (p : Bytes) (dropped q' : List Bytes)
    → q ++ (p ∷ []) ≡ dropped ++ q'
    → q' ≢ []
    → Newest q p q'
Newest-of_suffix q p [] q' e ne = record { older = q; same = sym e; dropped = []; split = refl }
Newest-of_suffix [] p (x ∷ []) q' e ne = absurd (ne (sym (cons-injective p x [] q' e).1))
Newest-of_suffix [] p (x ∷ y ∷ dropped) q' e ne = cc
Newest-of_suffix (x ∷ q) p (y ∷ dropped) q' e ne =
    let (xy, tails) = cons-injective x y (q ++ (p ∷ [])) (dropped ++ q') e in
    let n = Newest-of_suffix q p dropped q' tails ne in
    record {
      older = n.older;
      same = n.same;
      dropped = y ∷ n.dropped;
      split = rw xy (ap (λ l. y ∷ l) n.split);
    }

LastIn-nonempty :
    (fs : Files) (a : ℕ) (ms : List RecordMeta) (q : List Bytes)
    → LastIn a ms
    → Reads fs ms q
    → q ≢ []
LastIn-nonempty fs a [] q h r = absurd h
LastIn-nonempty fs a (m ∷ ms) [] h r = absurd r
LastIn-nonempty fs a (m ∷ ms) (p ∷ q) h r = λ e. cc

LastIn-concat :
    (a : ℕ) (ms : List RecordMeta) (m : RecordMeta) → m.segment ≡ a → LastIn a (ms ++ (m ∷ []))
LastIn-concat a [] m e = e
LastIn-concat a (n ∷ []) m e = e
LastIn-concat a (n ∷ k ∷ ms) m e = LastIn-concat a (k ∷ ms) m e

-- A log that can take one more payload: it fits the header and the cap, the cap holds a full segment,
-- a sequence number is left, and the sizes stay within a u64.
pub record HasRoom (payload : Bytes) (wal : Wal) : Type 0 where
  pub short : length payload ≤ u32_max
  pub fits : header_bytes + length payload ≤ wal.max_bytes
  pub full_segment : segment_max_bytes ≤ wal.max_bytes
  pub sequences : wal.active_segment < u64_max
  pub total : file_bytes wal.disk.files + (header_bytes + length payload) ≤ u64_max

-- What a successful `append` of `p` to `w` leaves of the queue `q`.
pub record Appended (w : Wal) (q : List Bytes) (p : Bytes) (r : Step (Unit {0})) : Type 0 where
  pub dropped : List Bytes
  pub older : List Bytes
  pub split : q ≡ dropped ++ older
  pub succeeds : r.0 ≡ ok tt
  pub valid : IsValid r.1 (older ++ (p ∷ []))
  pub fits : file_bytes r.1.disk.files ≤ w.max_bytes
  pub same_max : r.1.max_bytes ≡ w.max_bytes
  pub active : r.1.active_segment ≤ w.active_segment + 1
  pub spared :
      ((dropped ≡ [])
        × (file_bytes r.1.disk.files ≡ file_bytes w.disk.files + (header_bytes + length p)))
      ⊎ (w.max_bytes < file_bytes w.disk.files + (header_bytes + length p))

-- The log before `append`, the one that `write_record` leaves, and the result.
module _ (w w' : Wal) (q : List Bytes) (p : Bytes) (r : Step (Unit {0}))
    (same : w'.max_bytes ≡ w.max_bytes) (active : w'.active_segment ≤ w.active_segment + 1)
    (bytes : file_bytes w'.disk.files ≡ file_bytes w.disk.files + (header_bytes + length p))
    (last : LastIn w'.active_segment w'.records) (e : Enforced w' (q ++ (p ∷ [])) r) where
  Appended-spared :
      e.dropped ≡ [] → file_bytes r.1.disk.files ≡ file_bytes w'.disk.files → Appended w q p r
  Appended-spared nil stays = record {
    dropped = [];
    older = q;
    split = refl;
    succeeds = e.succeeds;
    valid = subst (λ l. IsValid r.1 l) (sym (e.split ∙ ap (λ l. l ++ e.queue) nil)) e.valid;
    fits = omega (arith, same, e.fits);
    same_max = e.same_max ∙ same;
    active = omega (arith, active, e.active);
    spared = inl (refl, stays ∙ bytes);
  }

  Appended-evicted : w'.max_bytes < file_bytes w'.disk.files → Appended w q p r
  Appended-evicted over =
      let ne =
        LastIn-nonempty r.1.disk.files r.1.active_segment r.1.records e.queue (e.newest last)
          e.valid.reads in
      let n = Newest-of_suffix q p e.dropped e.queue e.split ne in
      record {
        dropped = n.dropped;
        older = n.older;
        split = n.split;
        succeeds = e.succeeds;
        valid = rw n.same at e.valid;
        fits = omega (arith, same, e.fits);
        same_max = e.same_max ∙ same;
        active = omega (arith, active, e.active);
        spared = inr (omega (arith, over, same, bytes));
      }

  Enforced-Appended : Appended w q p r
  Enforced-Appended = elim e.spared [
    | inl (nil, stays) ↦ Appended-spared nil stays
    | inr over ↦ Appended-evicted over
  ]

after_prepare :
    (w w' : Wal) (q : List Bytes) (p : Bytes)
    → IsValid w' q
    → w'.max_bytes ≡ w.max_bytes
    → w'.active_segment ≤ w.active_segment + 1
    → file_bytes w'.disk.files ≡ file_bytes w.disk.files
    → length (contents w'.active_segment w'.disk.files) + (8 + length p) ≤ w.max_bytes
    → file_bytes w'.disk.files + (8 + length p) ≤ u64_max
    → Appended w q p (enforce_cap (write_record p w'))
unfolding write_record
after_prepare w w' q p v same active bytes room small =
    let v' = write_record_lem w' q p v (omega arith) in
    Enforced-Appended w (write_record p w') q p (enforce_cap (write_record p w')) same active
      (write_record-bytes w' p ∙ ap (λ n. n + (8 + length p)) bytes)
      (LastIn-concat w'.active_segment w'.records _ refl)
      (enforce_cap_lem (write_record p w') (q ++ (p ∷ [])) v'
        (omega (arith, write_record-bytes w' p)))

-- On a well-formed log, with a cap that holds a full segment, a sequence number left and sizes
-- within a u64, `append` of a payload that fits the header and the cap succeeds; the payload
-- becomes the newest of the queue, payloads are dropped from the front only and only where the files
-- would not fit the cap, the log stays well formed and its files fit the cap.
pub append_lem :
    (w : Wal) (q : List Bytes) (p : Bytes)
    → IsValid w q
    → length p ≤ u32_max
    → header_bytes + length p ≤ w.max_bytes
    → segment_max_bytes ≤ w.max_bytes
    → w.active_segment < u64_max
    → file_bytes w.disk.files + (header_bytes + length p) ≤ u64_max
    → Appended w q p (append p w)
unfolding append
append_lem w q p v short fits big room small =
    let r = roll_if_full_lem w q (header_bytes + length p) v room big fits in
    rw
      (
        le→ltb u32_max (length p) short,
        le→ltb w.max_bytes (8 + length p) fits,
        bind_step_ok (roll_if_full (8 + length p) w) (λ _ w'. enforce_cap (write_record p w')) tt
            r.succeeds,
      )
      (after_prepare w (roll_if_full (8 + length p) w).1 q p r.valid r.same_max r.active
        r.same_bytes r.fits (omega (arith, r.same_bytes)))

-- The same, with the conditions together.
pub append-HasRoom :
    (w : Wal) (q : List Bytes) (p : Bytes) → IsValid w q → HasRoom p w → Appended w q p (append p w)
append-HasRoom w q p v c = append_lem w q p v c.short c.fits c.full_segment c.sequences c.total
