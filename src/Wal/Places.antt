-- ===== src/Wal/Places.antt =====
-- The order of places in the log, and the records that a cursor at one of them leaves pending.
use cross_xagent.Base.{
  ℕ, ◌+◌, ◌<◌, ◌≡◌, refl, sym, ap, ◌∙◌, true, false, Bool-cases, inl, inr, List, [], ◌∷◌, ◌++◌,
  arith, Bytes, length, length-append, keep,
}
use mathlib.Core.Path.{subst}
use cross_xagent.Wal.Files.{keys, EndsAt}
use cross_xagent.Wal.Reading.{length-encode_record}
use cross_xagent.Wal.Disk.{Cursor, contents}
use cross_xagent.Wal.Record.{RecordMeta, encode_record, at_or_after}
use cross_xagent.Wal.Ops.{Wal, next_cursor}
use cross_xagent.Wal.Scanning.{encode_all, metas_from, is_pending, keep-append}
use cross_xagent.Wal.Stored.{Segment, stored, pending_metas}

-- `Le c d`: a cursor `c` has not passed the place `d`. `Lt c d`: it has, when it stands at `d`.
abbrev pub Le : Cursor → Cursor → Type 0
Le c d = at_or_after d.segment d.offset c ≡ true

abbrev pub Lt : Cursor → Cursor → Type 0
Lt c d = at_or_after c.segment c.offset d ≡ false

pub Le-refl : (c : Cursor) → Le c c
unfolding at_or_after
Le-refl c = ground arith

pub Lt→Le : (c d : Cursor) → Lt c d → Le c d
unfolding at_or_after
Lt→Le c d h = ground arith

pub Le-Lt : (b c d : Cursor) → Le b c → Lt c d → Le b d
unfolding at_or_after
Le-Lt b c d h k = ground arith

pub Lt-trans : (b c d : Cursor) → Lt b c → Lt c d → Lt b d
unfolding at_or_after
Lt-trans b c d h k = ground arith

pub Lt-Le : (b c d : Cursor) → Lt b c → Le c d → Lt b d
unfolding at_or_after
Lt-Le b c d h k = ground arith

abbrev pub place : RecordMeta → Cursor
place m = record { segment = m.segment; offset = m.offset }

-- The place of the first of some records, or a given one.
abbrev pub head_place : Cursor → List RecordMeta → Cursor
head_place e [] = e
head_place e (m ∷ ms) = place m

-- Records in order, all before `e`.
abbrev pub Ascending : List RecordMeta → Cursor → Type 0
Ascending [] e = Unit
Ascending (m ∷ ms) e = Lt (place m) (head_place e ms) × Ascending ms e

pub Ascending-Le : (ms : List RecordMeta) (e : Cursor) → Ascending ms e → Le (head_place e ms) e
Ascending-Le [] e h = Le-refl e
Ascending-Le (m ∷ []) e h = Lt→Le (place m) e h.0
Ascending-Le (m ∷ n ∷ ms) e h =
    Lt→Le (place m) e (Lt-Le (place m) (place n) e h.0 (Ascending-Le (n ∷ ms) e h.1))

-- Behind a pending record all are.
keep_later :
    (c : Cursor) (ms : List RecordMeta) (e : Cursor)
    → Le c (head_place e ms)
    → Ascending ms e
    → keep (is_pending c) ms ≡ ms
keep_later c [] e le h = refl
keep_later c (m ∷ []) e le h = rw le refl
keep_later c (m ∷ n ∷ ms) e le h =
    rw le (ap (λ ns. m ∷ ns) (keep_later c (n ∷ ms) e (Le-Lt c (place m) (place n) le h.0) h.1))

-- The records in front of a suffix come before its first.
Ascending-suffix :
    (x : RecordMeta) (front back : List RecordMeta) (e : Cursor)
    → Ascending (x ∷ (front ++ back)) e
    → Lt (place x) (head_place e back)
Ascending-suffix x [] back e h = h.0
Ascending-suffix x (y ∷ front) back e h =
    Lt-trans (place x) (place y) (head_place e back) h.0 (Ascending-suffix y front back e h.1)

-- A cursor at the first record of a suffix leaves just the suffix pending.
pub keep-suffix :
    (front back : List RecordMeta) (e : Cursor)
    → Ascending (front ++ back) e
    → keep (is_pending (head_place e back)) (front ++ back) ≡ back
keep-suffix [] [] e h = refl
keep-suffix [] (m ∷ back) e h = keep_later (place m) (m ∷ back) e (Le-refl (place m)) h
keep-suffix (x ∷ front) back e h =
    rw (Ascending-suffix x front back e h) (keep-suffix front back e h.1)

-- What is pending is a suffix.
pub pending_suffix :
    (c : Cursor) (ms : List RecordMeta) (e : Cursor)
    → Ascending ms e
    → (front : List RecordMeta) × (ms ≡ front ++ keep (is_pending c) ms)
pending_suffix c [] e h = ([], refl)
pending_suffix c (m ∷ ms) e h = elim (Bool-cases (is_pending c m)) [
  | inl kept ↦ ([], sym (keep_later c (m ∷ ms) e kept h))
  | inr passed ↦
      let (front, same) = pending_suffix c ms e h.1 in
      (m ∷ front, rw passed (ap (λ ns. m ∷ ns) same))
]

-- All records of some segments.
abbrev pub all_metas : List Segment → List RecordMeta
all_metas [] = []
all_metas (g ∷ l) = metas_from g.sequence 0 g.payloads ++ all_metas l

pub pending_metas-keep :
    (c : Cursor) (l : List Segment) → pending_metas c l ≡ keep (is_pending c) (all_metas l)
pending_metas-keep c [] = refl
pending_metas-keep c (g ∷ l) =
    ap (λ ms. keep (is_pending c) (metas_from g.sequence 0 g.payloads) ++ ms)
      (pending_metas-keep c l)
    ∙ sym (keep-append (is_pending c) (metas_from g.sequence 0 g.payloads) (all_metas l))

-- The end of the active segment.
abbrev pub end_of : Wal → Cursor
end_of w = record {
  segment = w.active_segment;
  offset = length (contents w.active_segment w.disk.files);
}

pub next_cursor_lem : (ms : List RecordMeta) (w : Wal) → next_cursor ms w ≡ head_place (end_of w) ms
unfolding next_cursor
next_cursor_lem [] w = refl
next_cursor_lem (m ∷ ms) w = refl

pub Lt-offset :
    (s i j : ℕ)
    → i < j
    → Lt (record { segment = s; offset = i }) (record { segment = s; offset = j })
unfolding at_or_after
Lt-offset s i j h = ground arith

pub Lt-segment :
    (s t i j : ℕ)
    → s < t
    → Lt (record { segment = s; offset = i }) (record { segment = t; offset = j })
unfolding at_or_after
Lt-segment s t i j h = ground arith

-- The end of a segment's records, from an offset on.
abbrev pub after : ℕ → ℕ → List Bytes → Cursor
after s offset ps = record { segment = s; offset = offset + length (encode_all ps) }

pub after-record :
    (s offset : ℕ) (p : Bytes) (ps : List Bytes)
    → after s offset (p ∷ ps) ≡ after s (offset + (8 + length p)) ps
after-record s offset p ps =
    ap (λ o. record { segment = s; offset = o })
      (omega (arith, length-append (encode_record p) (encode_all ps), length-encode_record p))

Le-metas :
    (s offset : ℕ) (ps : List Bytes) (ms : List RecordMeta) (e : Cursor)
    → Le (after s offset ps) (head_place e ms)
    → Le (record { segment = s; offset = offset }) (head_place e (metas_from s offset ps ++ ms))
Le-metas s offset [] ms e le =
    subst (λ o. Le (record { segment = s; offset = o }) (head_place e ms)) (omega arith) le
Le-metas s offset (p ∷ ps) ms e le = Le-refl (record { segment = s; offset = offset })

-- The records of one segment, in front of others that start at its end or later.
pub Ascending-segment :
    (s offset : ℕ) (ps : List Bytes) (ms : List RecordMeta) (e : Cursor)
    → Le (after s offset ps) (head_place e ms)
    → Ascending ms e
    → Ascending (metas_from s offset ps ++ ms) e
Ascending-segment s offset [] ms e le h = h
Ascending-segment s offset (p ∷ ps) ms e le h =
    let next = offset + (8 + length p) in
    let le' = subst (λ c. Le c (head_place e ms)) (after-record s offset p ps) le in
    (
      Lt-Le (record { segment = s; offset = offset }) (record { segment = s; offset = next }) _
          (Lt-offset s offset next (omega arith)) (Le-metas s next ps ms e le'),
      Ascending-segment s next ps ms e le' h,
    )

-- The records of all segments, before the end of the last.
abbrev pub end_place : Segment → List Segment → Cursor
end_place g [] = after g.sequence 0 g.payloads
end_place g (k ∷ l) = end_place k l

below_metas :
    (lo offset : ℕ) (g : Segment) (ms : List RecordMeta) (e : Cursor)
    → lo < g.sequence
    → Le (after g.sequence 0 g.payloads) (head_place e ms)
    → Le
        (record { segment = lo; offset = offset })
        (head_place e (metas_from g.sequence 0 g.payloads ++ ms))
below_metas lo offset g ms e lt le =
    let start : Cursor = record { segment = g.sequence; offset = 0 } in
    Lt→Le (record { segment = lo; offset = offset }) _
      (Lt-Le (record { segment = lo; offset = offset }) start _
        (Lt-segment lo g.sequence offset 0 lt) (Le-metas g.sequence 0 g.payloads ms e le))

later_place :
    (lo : ℕ) (g : Segment) (l : List Segment) (a offset : ℕ)
    → EndsAt (keys (stored (g ∷ l))) a
    → lo < g.sequence
    → Le (record { segment = lo; offset = offset }) (head_place (end_place g l) (all_metas (g ∷ l)))
later_place lo g [] a offset h lt =
    below_metas lo offset g [] (end_place g []) lt (Le-refl (end_place g []))
later_place lo g (k ∷ l) a offset h lt =
    below_metas lo offset g (all_metas (k ∷ l)) (end_place k l) lt
      (later_place g.sequence k l a (0 + length (encode_all g.payloads)) h.1 h.0)

pub Ascending-all_metas :
    (g : Segment) (l : List Segment) (a : ℕ)
    → EndsAt (keys (stored (g ∷ l))) a
    → Ascending (all_metas (g ∷ l)) (end_place g l)
Ascending-all_metas g [] a h = Ascending-segment g.sequence 0 g.payloads [] _ (Le-refl _) tt
Ascending-all_metas g (k ∷ l) a h =
    Ascending-segment g.sequence 0 g.payloads (all_metas (k ∷ l)) (end_place k l)
      (later_place g.sequence k l a _ h.1 h.0) (Ascending-all_metas k l a h.1)
