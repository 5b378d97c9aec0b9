-- ===== src/Agent/Following.antt =====
-- A log file that grows while its source is polled, restarted, refused and cut off from its checkpoint.
use cross_xagent.Base.{
  ℕ, ◌+◌, ◌≤◌, ◌≡◌, refl, sym, ap, ◌∙◌, Bool, Option, none, some, List, [], ◌∷◌, ◌++◌, map, arith,
  Bytes, u64_max, length, length-append, length-drop, le_bytes, take, drop, take-append-drop,
  le→ltb, ◌==◌, if◌then◌else◌,
}
use mathlib.Core.List.{Sublistᴰ, append_assoc}
use cross_xagent.Telemetry.Tailer.{
  Tailer, LogFile, ok, start_offset, split_inclusive, body_of, poll, max_poll_bytes,
  max_poll_records,
}
use cross_xagent.Telemetry.Lines.{concat, concat-split_inclusive, poll_lines_lem}
use cross_xagent.Agent.Sources.{Tick, FileSource, new_file_source, poll_into}

pub concat-append : (xs ys : List Bytes) → concat (xs ++ ys) ≡ concat xs ++ concat ys
concat-append [] ys = refl
concat-append (x ∷ xs) ys =
    ap (λ b. x ++ b) (concat-append xs ys) ∙ sym (append_assoc x (concat xs) (concat ys))

-- One poll of a file that is still the tailer's: whole pieces of what follows its offset.
pub record Piece (tailer : Tailer) (file : LogFile) : Type 0 where
  pub raw : List Bytes
  pub rest : Bytes
  pub split : drop tailer.offset file.bytes ≡ concat raw ++ rest
  pub polled :
      poll tailer file
      ≡ ok (
        map body_of raw,
        record tailer {
          pending_offset = tailer.offset + length (concat raw);
          pending_signature = file.signature;
        },
      )

start_offset-same :
    (tailer : Tailer) (file : LogFile)
    → file.signature ≡ tailer.signature
    → tailer.offset ≤ length file.bytes
    → start_offset tailer file ≡ tailer.offset
unfolding start_offset
start_offset-same tailer file same long = ground arith

pub poll_lem :
    (tailer : Tailer) (file : LogFile)
    → file.signature ≡ tailer.signature
    → tailer.offset ≤ length file.bytes
    → length file.bytes ≤ u64_max
    → Piece tailer file
unfolding poll
poll_lem tailer file same long small =
    let behind = drop tailer.offset file.bytes in
    let window = take max_poll_bytes behind in
    let p =
      poll_lines_lem (length window == max_poll_bytes) max_poll_records 0
        (split_inclusive window) in
    let later = drop max_poll_bytes behind in
    let split : behind ≡ concat p.taken ++ (concat p.left ++ later) =
      sym (take-append-drop max_poll_bytes behind)
      ∙ ap (λ b. b ++ later)
          (sym (concat-split_inclusive window) ∙ ap concat p.split ∙ concat-append p.taken p.left)
      ∙ append_assoc (concat p.taken) (concat p.left) later in
    let plain : 0 + length (concat p.taken) ≡ length (concat p.taken) = omega arith in
    let within : tailer.offset + length (concat p.taken) ≤ u64_max = omega (
      arith,
      ap length split,
      length-append (concat p.taken) (concat p.left ++ later),
      length-drop tailer.offset file.bytes,
    ) in
    record {
      raw = p.taken;
      rest = concat p.left ++ later;
      split = split;
      polled =
          rw
            (
              start_offset-same tailer file same long,
              p.bytes,
              p.bodies,
              le→ltb u64_max (tailer.offset + (0 + length (concat p.taken))) (omega arith),
            )
            (ap
              (λ n. ok (
                map body_of p.taken,
                record tailer {
                  pending_offset = tailer.offset + n;
                  pending_signature = file.signature;
                },
              ))
              plain);
    }

-- An exporter that keeps what it accepts, for a verdict on the next batch.
abbrev pub collecting : Bool → List Bytes → List Bytes → Bool × List Bytes
collecting verdict bodies history = (verdict, if verdict then history ++ bodies else history)

-- The file, its source with the checkpoint file, and what the exporter has accepted so far.
pub record State : Type 0 where
  pub file : LogFile
  pub source : FileSource
  pub checkpoint : Option Bytes
  pub history : List Bytes

-- What may happen: the file grows, the agent restarts, and a tick, at which the file can be there or
-- not when it is opened and when it is polled, the batch accepted or not, and the checkpoint written
-- or not.
pub data Event : Type 0 where
  grows : Bytes → Event
  restarts : Event
  ticks : Bool → Bool → Bool → Bool → Event

abbrev pub shown : Bool → LogFile → Option LogFile
shown present file = if present then some file else none

abbrev pub tick_of : Bool → Bool → Bool → LogFile → Tick
tick_of at_open at_poll writable file = record {
  at_open = shown at_open file;
  at_poll = shown at_poll file;
  writable = writable;
}

abbrev pub step : Event → State → State
step (grows more) s = record s { file = record s.file { bytes = s.file.bytes ++ more } }
step restarts s = record s { source = new_file_source }
step (ticks at_open at_poll verdict writable) s =
    let r =
      poll_into (collecting verdict) (tick_of at_open at_poll writable s.file) s.source s.checkpoint
        s.history in
    record { file = s.file; source = r.0; checkpoint = r.1; history = r.2 }

abbrev pub steps : List Event → State → State
steps [] s = s
steps (event ∷ events) s = steps events (step event s)

-- The checkpoint file of a place.
abbrev pub checkpoint_at : ℕ → ℕ → Bytes
checkpoint_at offset signature = le_bytes 8 offset ++ le_bytes 16 signature

-- A source has no tailer, or one that starts at a place.
abbrev pub AtPlace : ℕ → ℕ → Option Tailer → Type 0
AtPlace offset signature none = Unit
AtPlace offset signature (some tailer) = (tailer.offset ≡ offset) × (tailer.signature ≡ signature)

-- From `base` on, the file has been accepted up to the checkpoint, piece by piece and in order.
pub record IsServed (base : ℕ) (s : State) : Type 0 where
  pub raw : List Bytes
  pub rest : Bytes
  pub split : drop base s.file.bytes ≡ concat raw ++ rest
  pub long : base ≤ length s.file.bytes
  pub checkpoint : s.checkpoint ≡ some (checkpoint_at (base + length (concat raw)) s.file.signature)
  pub tailer : AtPlace (base + length (concat raw)) s.file.signature s.source.tailer
  pub accepted : Sublistᴰ (map body_of raw) s.history

pub Sublist-widen : {xs ys : List Bytes} (zs : List Bytes) → Sublistᴰ xs ys → Sublistᴰ xs (ys ++ zs)
Sublist-widen [] Sublistᴰ.slnil = Sublistᴰ.slnil
Sublist-widen (z ∷ zs) Sublistᴰ.slnil = Sublistᴰ.cons (Sublist-widen zs Sublistᴰ.slnil)
Sublist-widen zs (Sublistᴰ.cons d) = Sublistᴰ.cons (Sublist-widen zs d)
Sublist-widen zs (Sublistᴰ.cons-cons e d) = Sublistᴰ.cons-cons e (Sublist-widen zs d)

pub Sublist-self : (xs : List Bytes) → Sublistᴰ xs xs
Sublist-self [] = Sublistᴰ.slnil
Sublist-self (x ∷ xs) = Sublistᴰ.cons-cons refl (Sublist-self xs)

pub Sublist-append :
    {xs ys : List Bytes} (zs : List Bytes) → Sublistᴰ xs ys → Sublistᴰ (xs ++ zs) (ys ++ zs)
Sublist-append zs Sublistᴰ.slnil = Sublist-self zs
Sublist-append zs (Sublistᴰ.cons d) = Sublistᴰ.cons (Sublist-append zs d)
Sublist-append zs (Sublistᴰ.cons-cons e d) = Sublistᴰ.cons-cons e (Sublist-append zs d)

pub Sublist-none : (ys : List Bytes) → Sublistᴰ [] ys
Sublist-none [] = Sublistᴰ.slnil
Sublist-none (y ∷ ys) = Sublistᴰ.cons (Sublist-none ys)
