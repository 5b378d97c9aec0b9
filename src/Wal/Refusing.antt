-- ===== src/Wal/Refusing.antt =====
-- The errors of `append`: on a well-formed log it fails only for the size of the payload.
use cross_xagent.Base.{
  ◌+◌, ◌≤◌, ◌<◌, ◌≡◌, refl, sym, ap, ◌↔◌, ◌⊎◌, inl, inr, Bool-cases, List, arith, Bytes, u32_max,
  u64_max, length, ltb, ltb→lt, ltb→le,
}
use cross_xagent.Wal.Disk.{Result, Error, err, payload_too_long, over_capacity}
use cross_xagent.Wal.Record.{header_bytes, segment_max_bytes}
use cross_xagent.Wal.Ops.{Wal, append}
use cross_xagent.Wal.Files.{file_bytes}
use cross_xagent.Wal.Queue.{IsValid}
use cross_xagent.Wal.Delivery.{append_lem}

-- The length field of a record cannot hold the length, or it can and the record exceeds the cap.
abbrev pub IsRefused : Wal → Bytes → Error → Type 0
IsRefused w p e =
    ((u32_max < length p) × (e ≡ payload_too_long))
    ⊎ ((length p ≤ u32_max) × (w.max_bytes < header_bytes + length p) × (e ≡ over_capacity))

err-injective : {T : Type 0} (d e : Error) {r : Result T} → r ≡ err d → r ≡ err e → d ≡ e
err-injective d e {r} h k = cc

append-of_refused : (w : Wal) (p : Bytes) (e : Error) → IsRefused w p e → append p w ≡ (err e, w)
unfolding append
append-of_refused w p e (inl (long, same)) = rw same (ground (arith, long))
append-of_refused w p e (inr (short, over, same)) = rw same (ground (arith, short, over))

IsRefused-of_error :
    (w : Wal) (q : List Bytes) (p : Bytes) (e : Error)
    → IsValid w q
    → segment_max_bytes ≤ w.max_bytes
    → w.active_segment < u64_max
    → file_bytes w.disk.files + (header_bytes + length p) ≤ u64_max
    → (append p w).0 ≡ err e
    → IsRefused w p e
IsRefused-of_error w q p e v big sequences small failed =
    elim (Bool-cases (ltb u32_max (length p))) [
      | inl long ↦
          let refused = append-of_refused w p payload_too_long (inl (ltb→lt _ _ long, refl)) in
          let same = err-injective payload_too_long e (ap (λ r. r.0) refused) failed in
          inl (ltb→lt _ _ long, sym same)
      | inr short ↦ elim (Bool-cases (ltb w.max_bytes (header_bytes + length p))) [
        | inl over ↦
            let fits = ltb→le _ _ short in
            let exceeds = ltb→lt _ _ over in
            let refused = append-of_refused w p over_capacity (inr (fits, exceeds, refl)) in
            let same = err-injective over_capacity e (ap (λ r. r.0) refused) failed in
            inr (fits, exceeds, sym same)
        | inr within ↦
            let a = append_lem w q p v (ltb→le _ _ short) (ltb→le _ _ within) big sequences small in
            absurd (cc (a.succeeds, failed))
      ]
    ]

-- On a well-formed log whose cap holds a full segment, with a sequence number left and sizes within a
-- u64, `append` fails with an error exactly where it refuses the payload with that error, and then
-- leaves the log as it is: the payload is too long where its length exceeds a u32, and over the
-- capacity where its length does not and its record exceeds the cap.
pub append-IsRefused :
    (w : Wal) (q : List Bytes) (p : Bytes) (e : Error)
    → IsValid w q
    → segment_max_bytes ≤ w.max_bytes
    → w.active_segment < u64_max
    → file_bytes w.disk.files + (header_bytes + length p) ≤ u64_max
    → (((append p w).0 ≡ err e) ↔ IsRefused w p e)
      × (((append p w).0 ≡ err e) ↔ (append p w ≡ (err e, w)))
append-IsRefused w q p e v big sequences small =
    let refused = IsRefused-of_error w q p e v big sequences small in
    (
      (refused, λ r. ap (λ s. s.0) (append-of_refused w p e r)),
      (λ failed. append-of_refused w p e (refused failed), λ same. ap (λ s. s.0) same),
    )
