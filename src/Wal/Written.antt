-- ===== src/Wal/Written.antt =====
-- A record at the end of a log that its directory determines.
use cross_xagent.Base.{
  ℕ, ◌+◌, ◌≤◌, ◌<◌, ◌≡◌, refl, sym, ap, ◌∙◌, List, [], ◌∷◌, ◌++◌, arith, Bytes, u32_max, u64_max,
  length, length-append, keep,
}
use mathlib.Core.Path.{subst}
use mathlib.Core.List.{append_assoc, append-nil}
use cross_xagent.Wal.Disk.{Cursor, write_file, contents, read_cursor}
use cross_xagent.Wal.Record.{RecordMeta, encode_record}
use cross_xagent.Wal.Ops.{Wal, cursor_or_start, write_record}
use cross_xagent.Wal.Files.{keys, EndsAt, file_bytes}
use cross_xagent.Wal.Scanning.{encode_all, Fits, metas_from, is_pending, keep-append}
use cross_xagent.Wal.Append.{write_record-bytes, contents-write_file}
use cross_xagent.Wal.Reading.{length-encode_record}
use cross_xagent.Wal.Stored.{Segment, stored, repaired, pending_metas}
use cross_xagent.Wal.Torn.{AllFit, extended, write_file-extended}
use cross_xagent.Wal.Places.{Le, Le-Lt, Lt-offset, end_of, end_place, after, after-record}
use cross_xagent.Wal.Progress.{end_place_lem}
use cross_xagent.Wal.Durable.{IsStored}

-- The segments, with one more payload in the last.
abbrev push_first : Bytes → Segment → List Segment → Segment
push_first p g [] = record g { payloads = g.payloads ++ (p ∷ []) }
push_first p g (k ∷ l) = g

abbrev push_later : Bytes → Segment → List Segment → List Segment
push_later p g [] = []
push_later p g (k ∷ l) = push_first p k l ∷ push_later p k l

abbrev push : Bytes → Segment → List Segment → List Segment
push p g l = push_first p g l ∷ push_later p g l

encode_all-concat :
    (ps : List Bytes) (p : Bytes) → encode_all (ps ++ (p ∷ [])) ≡ encode_all ps ++ encode_record p
encode_all-concat [] p = append-nil (encode_record p)
encode_all-concat (r ∷ ps) p =
    ap (λ b. encode_record r ++ b) (encode_all-concat ps p)
    ∙ sym (append_assoc (encode_record r) (encode_all ps) (encode_record p))

repaired-push :
    (p : Bytes) (g : Segment) (l : List Segment)
    → repaired (push p g l) ≡ extended (encode_record p) g l
repaired-push p g [] = ap (λ b. (g.sequence, b) ∷ []) (encode_all-concat g.payloads p)
repaired-push p g (k ∷ l) =
    ap (λ fs. (g.sequence, encode_all g.payloads) ∷ fs) (repaired-push p k l)

keys-push :
    (p : Bytes) (g : Segment) (l : List Segment)
    → keys (stored (push p g l)) ≡ keys (stored (g ∷ l))
keys-push p g [] = refl
keys-push p g (k ∷ l) = ap (λ ks. g.sequence ∷ ks) (keys-push p k l)

sequence-push :
    (p : Bytes) (g : Segment) (l : List Segment) → (push_first p g l).sequence ≡ g.sequence
sequence-push p g [] = refl
sequence-push p g (k ∷ l) = refl

Fits-concat : (ps : List Bytes) (p : Bytes) → Fits ps → length p ≤ u32_max → Fits (ps ++ (p ∷ []))
Fits-concat [] p h le = (le, tt)
Fits-concat (r ∷ ps) p h le = (h.0, Fits-concat ps p h.1 le)

push-AllFit :
    (p : Bytes) (g : Segment) (l : List Segment)
    → AllFit (g ∷ l)
    → length p ≤ u32_max
    → AllFit (push p g l)
push-AllFit p g [] h le = (Fits-concat g.payloads p h.0 le, tt)
push-AllFit p g (k ∷ l) h le = (h.0, push-AllFit p k l h.1 le)

-- The record of a payload at a place.
abbrev meta_at : Cursor → Bytes → RecordMeta
meta_at c p = record { segment = c.segment; offset = c.offset; payload_len = length p }

metas_from-concat :
    (s offset : ℕ) (ps : List Bytes) (p : Bytes)
    → metas_from s offset (ps ++ (p ∷ []))
      ≡ metas_from s offset ps ++ (meta_at (after s offset ps) p ∷ [])
metas_from-concat s offset [] p =
    ap (λ o. meta_at (record { segment = s; offset = o }) p ∷ []) (omega arith)
metas_from-concat s offset (r ∷ ps) p =
    ap (λ ms. meta_at (record { segment = s; offset = offset }) r ∷ ms)
      (metas_from-concat s (offset + (8 + length r)) ps p
        ∙ ap (λ c. metas_from s (offset + (8 + length r)) ps ++ (meta_at c p ∷ []))
            (sym (after-record s offset r ps)))

pending_metas-push :
    (c : Cursor) (p : Bytes) (g : Segment) (l : List Segment)
    → Le c (end_place g l)
    → pending_metas c (push p g l) ≡ pending_metas c (g ∷ l) ++ (meta_at (end_place g l) p ∷ [])
pending_metas-push c p g [] le =
    let ms = metas_from g.sequence 0 g.payloads in
    let m = meta_at (end_place g []) p in
    let here : keep (is_pending c) (m ∷ []) ≡ m ∷ [] = rw le refl in
    append-nil (keep (is_pending c) (metas_from g.sequence 0 (g.payloads ++ (p ∷ []))))
    ∙ ap (keep (is_pending c)) (metas_from-concat g.sequence 0 g.payloads p)
    ∙ keep-append (is_pending c) ms (m ∷ [])
    ∙ ap (λ ns. keep (is_pending c) ms ++ ns) here
    ∙ ap (λ ns. ns ++ (m ∷ [])) (sym (append-nil (keep (is_pending c) ms)))
pending_metas-push c p g (k ∷ l) le =
    let ms = keep (is_pending c) (metas_from g.sequence 0 g.payloads) in
    ap (λ ns. ms ++ ns) (pending_metas-push c p k l le)
    ∙ sym (append_assoc ms (pending_metas c (k ∷ l)) (meta_at (end_place k l) p ∷ []))

pub end_place-IsStored : (w : Wal) (v : IsStored w) → end_place v.first v.later ≡ end_of w
end_place-IsStored w v =
    end_place_lem v.first v.later w.active_segment v.ends
    ∙ ap
        (λ fs. record {
          segment = w.active_segment;
          offset = length (contents w.active_segment fs);
        })
        (sym v.files)

-- Writing a record keeps the log stored.
pub write_record-IsStored :
    (w : Wal) (p : Bytes)
    → IsStored w
    → length p ≤ u32_max
    → file_bytes w.disk.files + (8 + length p) ≤ u64_max
    → IsStored (write_record p w)
unfolding write_record read_cursor
write_record-IsStored w p v short small =
    let a = w.active_segment in
    let old = contents a w.disk.files in
    let l = v.first ∷ v.later in
    let here = end_place-IsStored w v in
    let written = contents-write_file a (old ++ encode_record p) w.disk.files in
    let grown : length old < length (old ++ encode_record p) =
      omega (arith, length-append old (encode_record p), length-encode_record p) in
    record {
      first = push_first p v.first v.later;
      later = push_later p v.first v.later;
      files =
          ap (λ fs. write_file a (contents a fs ++ encode_record p) fs) v.files
          ∙ write_file-extended (encode_record p) v.first v.later a v.ends
          ∙ sym (repaired-push p v.first v.later);
      ends = subst (λ ks. EndsAt ks a) (sym (keys-push p v.first v.later)) v.ends;
      fits = push-AllFit p v.first v.later v.fits short;
      stored_cursor = v.stored_cursor;
      cursor_file = v.cursor_file;
      cursor =
          v.cursor
          ∙ ap (λ s. cursor_or_start s v.stored_cursor) (sym (sequence-push p v.first v.later));
      records =
          ap (λ ms. ms ++ (meta_at (end_of w) p ∷ [])) v.records
          ∙ ap (λ e. pending_metas w.cursor l ++ (meta_at e p ∷ [])) (sym here)
          ∙ sym (
              pending_metas-push w.cursor p v.first v.later
                (subst (Le w.cursor) (sym here) v.reach));
      reach =
          subst (λ b. Le w.cursor (record { segment = a; offset = length b })) (sym written)
            (Le-Lt w.cursor (end_of w)
              (record { segment = a; offset = length (old ++ encode_record p) }) v.reach
              (Lt-offset a (length old) (length (old ++ encode_record p)) grown));
      bounded = omega (arith, write_record-bytes w p);
      active = v.active;
    }
