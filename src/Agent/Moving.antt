-- ===== src/Agent/Moving.antt =====
-- The parts of a tick of a file source, and what they keep of the pieces that were accepted.
use cross_xagent.Base.{
  ℕ, ◌+◌, ◌^◌, ◌≤◌, ◌<◌, ◌≡◌, refl, sym, ap, ◌∙◌, Bool, true, false, inl, inr, ◌⊎◌, Option, none,
  some, List, [], ◌∷◌, ◌++◌, map, arith, Bytes, length, length-append, drop, drop-append, drop-drop,
}
use mathlib.Core.Path.{subst}
use mathlib.Core.List.{Sublistᴰ, append_assoc, map-append}
use cross_xagent.Telemetry.Tailer.{
  Tailer, LogFile, ok, open_tailer, tailer_at, body_of, persist_checkpoint,
}
use cross_xagent.Telemetry.Lines.{concat}
use cross_xagent.Telemetry.Resume.{open_tailer-persist_checkpoint}
use cross_xagent.Agent.Sources.{Tick, FileSource, opened, deliver}
use cross_xagent.Agent.Following.{
  concat-append, collecting, State, checkpoint_at, AtPlace, IsServed, Sublist-widen, Sublist-append,
}

-- The checkpoint of a place brings a new tailer there.
open_tailer-checkpoint_at :
    (file : LogFile) (offset : ℕ)
    → offset < 256 ^ 8
    → file.signature < 256 ^ 16
    → offset ≤ length file.bytes
    → open_tailer (some (checkpoint_at offset file.signature)) file ≡ ok (tailer_at offset file)
unfolding persist_checkpoint
open_tailer-checkpoint_at file offset ho hs long =
    open_tailer-persist_checkpoint (tailer_at offset file) file ho hs refl long

pub opened-AtPlace :
    (tick : Tick) (file : LogFile) (offset : ℕ) (source : FileSource)
    → (tick.at_open ≡ none) ⊎ (tick.at_open ≡ some file)
    → offset < 256 ^ 8
    → file.signature < 256 ^ 16
    → offset ≤ length file.bytes
    → AtPlace offset file.signature source.tailer
    → AtPlace offset file.signature
        (opened tick (some (checkpoint_at offset file.signature)) source).tailer
unfolding opened
opened-AtPlace tick file offset source seen ho hs long at = go source.tailer refl at
  where
    go :
        (t : Option Tailer)
        → source.tailer ≡ t
        → AtPlace offset file.signature t
        → AtPlace offset file.signature
            (opened tick (some (checkpoint_at offset file.signature)) source).tailer
    go (some t) e at = rw (e, opened) (rw e at)
    go none e at = elim seen [
      | inl absent ↦ rw (e, absent, opened) (rw e tt)
      | inr present ↦
          rw (e, present, opened)
            (rw (open_tailer-checkpoint_at file offset ho hs long) (refl, refl))
    ]

-- The tailer behind a poll that took some bytes.
abbrev taken_by : Tailer → LogFile → List Bytes → Tailer
taken_by tailer file raw = record tailer {
  pending_offset = tailer.offset + length (concat raw);
  pending_signature = file.signature;
}

abbrev delivered : Bool → Bool → List Bytes → Tailer → FileSource → State → State
delivered verdict writable bodies tailer source s =
    let r = deliver (collecting verdict) writable bodies tailer source s.checkpoint s.history in
    record { file = s.file; source = r.0; checkpoint = r.1; history = r.2 }

-- What follows the place that was reached.
rest_lem :
    (base : ℕ) (s : State) (v : IsServed base s)
    → drop (base + length (concat v.raw)) s.file.bytes ≡ v.rest
rest_lem base s v =
    sym (drop-drop (length (concat v.raw)) base s.file.bytes)
    ∙ ap (drop (length (concat v.raw))) v.split
    ∙ drop-append (length (concat v.raw)) (concat v.raw) v.rest refl

-- A batch that was refused, or whose checkpoint could not be written, may come again.
again :
    (base : ℕ) (s : State) (v : IsServed base s) (source : FileSource) (more : List Bytes)
    → AtPlace (base + length (concat v.raw)) s.file.signature source.tailer
    → IsServed base (record s { source = source; history = s.history ++ more })
again base s v source more at = record {
  raw = v.raw;
  rest = v.rest;
  split = v.split;
  long = v.long;
  checkpoint = v.checkpoint;
  tailer = at;
  accepted = Sublist-widen more v.accepted;
}

pub moved :
    (base : ℕ) (s : State) (source : FileSource)
    → (v : IsServed base s) → AtPlace (base + length (concat v.raw)) s.file.signature source.tailer
    → IsServed base (record s { source = source })
moved base s source v at = record {
  raw = v.raw;
  rest = v.rest;
  split = v.split;
  long = v.long;
  checkpoint = v.checkpoint;
  tailer = at;
  accepted = v.accepted;
}

pub delivered-IsServed :
    (base : ℕ) (s : State) (v : IsServed base s) (verdict writable : Bool) (raw : List Bytes)
    (rest : Bytes) (tailer : Tailer) (source : FileSource)
    → tailer.offset ≡ base + length (concat v.raw)
    → tailer.signature ≡ s.file.signature
    → drop tailer.offset s.file.bytes ≡ concat raw ++ rest
    → IsServed base
        (delivered verdict writable (map body_of raw) (taken_by tailer s.file raw) source s)
unfolding deliver persist_checkpoint
delivered-IsServed base s v verdict writable [] rest tailer source place same split =
    moved base s _ v (place, same)
delivered-IsServed base s v false writable (line ∷ raw) rest tailer source place same split =
    moved base s _ v (place, same)
delivered-IsServed base s v true false (line ∷ raw) rest tailer source place same split =
    again base s v _ (map body_of (line ∷ raw)) (place, same)
delivered-IsServed base s v true true (line ∷ raw) rest tailer source place same split =
    let more = line ∷ raw in
    let bytes = concat-append v.raw more in
    let here : tailer.offset + length (concat more) ≡ base + length (concat (v.raw ++ more)) =
      omega (arith, ap length bytes, length-append (concat v.raw) (concat more), place) in
    record {
      raw = v.raw ++ more;
      rest = rest;
      split =
          v.split
          ∙ ap (λ b. concat v.raw ++ b)
              (sym (rest_lem base s v) ∙ ap (λ n. drop n s.file.bytes) (sym place) ∙ split)
          ∙ sym (append_assoc (concat v.raw) (concat more) rest)
          ∙ ap (λ b. b ++ rest) (sym bytes);
      long = v.long;
      checkpoint = ap (λ n. some (checkpoint_at n s.file.signature)) here;
      tailer = (here, refl);
      accepted =
          subst (λ l. Sublistᴰ l (s.history ++ map body_of more))
            (sym (map-append body_of v.raw more)) (Sublist-append (map body_of more) v.accepted);
    }
