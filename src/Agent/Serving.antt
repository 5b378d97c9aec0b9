-- ===== src/Agent/Serving.antt =====
-- Whatever a log file and its source go through, what the checkpoint has passed was accepted.
use cross_xagent.Base.{
  ℕ, ◌+◌, ◌^◌, ◌≤◌, ◌<◌, ◌≡◌, refl, sym, ap, ◌∙◌, Bool, true, false, inl, inr, ◌⊎◌, Option, none,
  some, List, [], ◌∷◌, ◌++◌, arith, u64_max, length, length-append, length-drop, drop,
  drop-append_le,
}
use mathlib.Core.Path.{subst}
use mathlib.Core.List.{append_assoc}
use cross_xagent.Telemetry.Tailer.{Tailer}
use cross_xagent.Telemetry.Lines.{concat}
use cross_xagent.Agent.Sources.{new_file_source, opened, poll_into}
use cross_xagent.Agent.Following.{
  poll_lem, State, Event, grows, restarts, ticks, shown, tick_of, step, steps, checkpoint_at,
  AtPlace, IsServed, Sublist-none,
}
use cross_xagent.Agent.Moving.{opened-AtPlace, moved, delivered-IsServed}

-- The poll and the delivery of a tick, behind the opening of the tailer.
polled-IsServed :
    (base : ℕ) (s : State) (v : IsServed base s) (at_open at_poll verdict writable : Bool)
    (t : Option Tailer)
    → length s.file.bytes ≤ u64_max
    → (opened (tick_of at_open at_poll writable s.file) s.checkpoint s.source).tailer ≡ t
    → AtPlace (base + length (concat v.raw)) s.file.signature t
    → IsServed base (step (ticks at_open at_poll verdict writable) s)
unfolding poll_into
polled-IsServed base s v at_open at_poll verdict writable none small e at =
    rw (e, poll_into) (moved base s _ v (rw e tt))
polled-IsServed base s v at_open false verdict writable (some t) small e at =
    rw (e, poll_into) (moved base s _ v tt)
polled-IsServed base s v at_open true verdict writable (some t) small e at =
    let reach : t.offset ≤ length s.file.bytes = omega (
      arith,
      at.0,
      ap length v.split,
      length-append (concat v.raw) v.rest,
      length-drop base s.file.bytes,
      v.long,
    ) in
    let p = poll_lem t s.file (sym at.1) reach small in
    rw (e, poll_into)
      (rw p.polled
        (delivered-IsServed base s v verdict writable p.raw p.rest t _ at.0 at.1 p.split))

tick-IsServed :
    (base : ℕ) (s : State) (at_open at_poll verdict writable : Bool)
    → length s.file.bytes ≤ u64_max
    → s.file.signature < 256 ^ 16
    → IsServed base s
    → IsServed base (step (ticks at_open at_poll verdict writable) s)
tick-IsServed base s at_open at_poll verdict writable small hs v =
    let tick = tick_of at_open at_poll writable s.file in
    let offset = base + length (concat v.raw) in
    let reach : offset ≤ length s.file.bytes = omega (
      arith,
      ap length v.split,
      length-append (concat v.raw) v.rest,
      length-drop base s.file.bytes,
      v.long,
    ) in
    let seen = elim at_open as (λ b. (shown b s.file ≡ none) ⊎ (shown b s.file ≡ some s.file)) [
      | false ↦ inl refl
      | true ↦ inr refl
    ] in
    let at =
      opened-AtPlace tick s.file offset s.source seen (omega (arith, reach)) hs reach v.tailer in
    polled-IsServed base s v at_open at_poll verdict writable _ small refl (
      subst (λ c. AtPlace offset s.file.signature (opened tick c s.source).tailer)
        (sym v.checkpoint) at)

step-IsServed :
    (base : ℕ) (event : Event) (s : State)
    → length s.file.bytes ≤ u64_max
    → s.file.signature < 256 ^ 16
    → IsServed base s
    → IsServed base (step event s)
step-IsServed base (grows more) s small hs v = record {
  raw = v.raw;
  rest = v.rest ++ more;
  split =
      drop-append_le base s.file.bytes more v.long
      ∙ ap (λ b. b ++ more) v.split
      ∙ append_assoc (concat v.raw) v.rest more;
  long = omega (arith, length-append s.file.bytes more, v.long);
  checkpoint = v.checkpoint;
  tailer = v.tailer;
  accepted = v.accepted;
}
step-IsServed base restarts s small hs v = moved base s new_file_source v tt
step-IsServed base (ticks at_open at_poll verdict writable) s small hs v =
    tick-IsServed base s at_open at_poll verdict writable small hs v

steps_grow :
    (events : List Event) (s : State) → length s.file.bytes ≤ length (steps events s).file.bytes
steps_grow [] s = omega arith
steps_grow (grows more ∷ events) s =
    omega (arith, length-append s.file.bytes more, steps_grow events (step (grows more) s))
steps_grow (restarts ∷ events) s = steps_grow events (step restarts s)
steps_grow (ticks at_open at_poll verdict writable ∷ events) s =
    steps_grow events (step (ticks at_open at_poll verdict writable) s)

signature-step : (event : Event) (s : State) → (step event s).file.signature ≡ s.file.signature
signature-step (grows more) s = refl
signature-step restarts s = refl
signature-step (ticks at_open at_poll verdict writable) s = refl

run-IsServed :
    (base : ℕ) (events : List Event) (s : State)
    → length (steps events s).file.bytes ≤ u64_max
    → s.file.signature < 256 ^ 16
    → IsServed base s
    → IsServed base (steps events s)
run-IsServed base [] s small hs v = v
run-IsServed base (event ∷ events) s small hs v =
    let now : length s.file.bytes ≤ u64_max = omega (arith, small, steps_grow (event ∷ events) s) in
    run-IsServed base events (step event s) small (rw (signature-step event s) hs)
      (step-IsServed base event s now hs v)

-- From a checkpoint inside its file, and through any sequence of growth, restarts of the agent, and
-- ticks at which the file may be missing, the batch refused or the checkpoint not written: all bytes
-- from there to the present checkpoint are pieces whose bodies were accepted in their order, where
-- the file fits a u64 and its signature a u128.
pub steps-IsServed :
    (base : ℕ) (events : List Event) (s : State)
    → s.checkpoint ≡ some (checkpoint_at base s.file.signature)
    → s.source ≡ new_file_source
    → base ≤ length s.file.bytes
    → length (steps events s).file.bytes ≤ u64_max
    → s.file.signature < 256 ^ 16
    → IsServed base (steps events s)
steps-IsServed base events s checkpoint fresh long small hs =
    let none_yet : base ≡ base + 0 = omega arith in
    run-IsServed base events s small hs (record {
      raw = [];
      rest = drop base s.file.bytes;
      split = refl;
      long = long;
      checkpoint = checkpoint ∙ ap (λ n. some (checkpoint_at n s.file.signature)) none_yet;
      tailer = rw fresh tt;
      accepted = Sublist-none s.history;
    })
