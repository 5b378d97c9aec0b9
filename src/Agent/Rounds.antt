-- ===== src/Agent/Rounds.antt =====
-- Rounds of the loop of `run_logs_loop` over two exporters that accept the same batches.
use cross_xagent.Base.{
  ◌≡◌, refl, ap, ◌∙◌, Bool, Bool-cases, Option-cases, inl, inr, Option, List, [], ◌∷◌, Bytes,
}
use cross_xagent.Agent.Journald.{next_record, ensure_running}
use cross_xagent.Agent.Sources.{poll_file_sources}
use cross_xagent.Agent.Loop.{LoopEvent, tick, lines, LogSources, beside, journal_record, loop_event}
use cross_xagent.Agent.Agreeing.{poll_file_sources-agree, poll_file_sources-back}

-- The same sources over another exporter.
abbrev pub over_exporter : {A B : Type 0} → LogSources B → A → LogSources A
over_exporter sources a = record {
  journald = sources.journald;
  cursor = sources.cursor;
  files = sources.files;
  exporter = a;
}

module _ {Sample S : Type 0} (parse : Bytes → Option Sample) (cursor_of : Bytes → Option Bytes)
    (export_sample : Sample → S → Bool × S) (export_bodies : List Bytes → S → Bool × S) where
  -- The rounds of `run_logs_loop`.
  unfoldable pub run_rounds : List LoopEvent → LogSources S → LogSources S
  run_rounds [] sources = sources
  run_rounds (event ∷ events) sources =
      run_rounds events (loop_event parse cursor_of export_sample export_bodies event sources)

module _ {Sample A B : Type 0} (parse : Bytes → Option Sample) (cursor_of : Bytes → Option Bytes)
    (sample_a : Sample → A → Bool × A) (bodies_a : List Bytes → A → Bool × A)
    (sample_b : Sample → B → Bool × B) (bodies_b : List Bytes → B → Bool × B) (R : A → B → Type 0)
    (P : B → Type 0) (sample_back : (s : Sample) (b : B) → P (sample_b s b).1 → P b)
    (bodies_back : (bodies : List Bytes) (b : B) → P (bodies_b bodies b).1 → P b)
    (sample_agree : (s : Sample) (a : A) (b : B)
      → R a b
      → P (sample_b s b).1
      → ((sample_a s a).0 ≡ (sample_b s b).0) × R (sample_a s a).1 (sample_b s b).1)
    (bodies_agree : (bodies : List Bytes) (a : A) (b : B)
      → R a b
      → P (bodies_b bodies b).1
      → ((bodies_a bodies a).0 ≡ (bodies_b bodies b).0)
        × R (bodies_a bodies a).1 (bodies_b bodies b).1) where
  -- The one state is the other over an exporter that is related to its own.
  abbrev Agreed : LogSources A → LogSources B → Type 0
  Agreed x y = (a : A) × (x ≡ over_exporter y a) × R a y.exporter

  journal_record-back :
      (ls : List Bytes) (written : Bool) (y : LogSources B)
      → P (journal_record parse cursor_of sample_b ls written y).exporter
      → P y.exporter
  unfolding journal_record
  journal_record-back ls written y h =
      elim (Option-cases (next_record parse cursor_of ls y.journald).0) [
        | inl e ↦ rw (journal_record, e) at h
        | inr (s, e) ↦ elim (Bool-cases (sample_b s y.exporter).0) [
          | inl f ↦ sample_back s y.exporter (rw (journal_record, e, f) at h)
          | inr f ↦ sample_back s y.exporter (rw (journal_record, e, f) at h)
        ]
      ]

  journal_record-agree :
      (ls : List Bytes) (written : Bool) (y : LogSources B) (a : A)
      → R a y.exporter
      → P (journal_record parse cursor_of sample_b ls written y).exporter
      → Agreed
          (journal_record parse cursor_of sample_a ls written (over_exporter y a))
          (journal_record parse cursor_of sample_b ls written y)
  unfolding journal_record
  journal_record-agree ls written y a r h =
      elim (Option-cases (next_record parse cursor_of ls y.journald).0) [
        | inl e ↦ rw (journal_record, e) (a, refl, r)
        | inr (s, e) ↦ elim (Bool-cases (sample_b s y.exporter).0) [
          | inl f ↦
              let (same, r') = sample_agree s a y.exporter r (rw (journal_record, e, f) at h) in
              rw (journal_record, e, f, same ∙ f) ((sample_a s a).1, refl, r')
          | inr f ↦
              let (same, r') = sample_agree s a y.exporter r (rw (journal_record, e, f) at h) in
              rw (journal_record, e, f, same ∙ f) ((sample_a s a).1, refl, r')
        ]
      ]

  loop_event-back :
      (event : LoopEvent) (y : LogSources B)
      → P (loop_event parse cursor_of sample_b bodies_b event y).exporter
      → P y.exporter
  unfolding loop_event
  loop_event-back (tick available ticks) y h =
      poll_file_sources-back bodies_a bodies_b R P bodies_back bodies_agree (beside ticks y.files)
        y.exporter h
  loop_event-back (lines ls written) y h = journal_record-back ls written y h

  loop_event-agree :
      (event : LoopEvent) (y : LogSources B) (a : A)
      → R a y.exporter
      → P (loop_event parse cursor_of sample_b bodies_b event y).exporter
      → Agreed
          (loop_event parse cursor_of sample_a bodies_a event (over_exporter y a))
          (loop_event parse cursor_of sample_b bodies_b event y)
  unfolding loop_event
  loop_event-agree (lines ls written) y a r h = journal_record-agree ls written y a r h
  loop_event-agree (tick available ticks) y a r h =
      let shown = beside ticks y.files in
      let (files, r') =
        poll_file_sources-agree bodies_a bodies_b R P bodies_back bodies_agree shown a y.exporter r
          h in
      let a' = (poll_file_sources bodies_a shown a).1 in
      (
        a',
        ap
            (λ fs. record (over_exporter y a') {
              journald = ensure_running available y.cursor y.journald;
              files = fs;
            })
            files,
        r',
      )

  run_rounds-back :
      (events : List LoopEvent) (y : LogSources B)
      → P (run_rounds parse cursor_of sample_b bodies_b events y).exporter
      → P y.exporter
  unfolding run_rounds
  run_rounds-back [] y h = h
  run_rounds-back (event ∷ events) y h =
      loop_event-back event y
        (run_rounds-back events (loop_event parse cursor_of sample_b bodies_b event y) h)

  -- Over any rounds the one state stays the other over a related exporter.
  pub run_rounds-agree :
      (events : List LoopEvent) (y : LogSources B) (a : A)
      → R a y.exporter
      → P (run_rounds parse cursor_of sample_b bodies_b events y).exporter
      → Agreed
          (run_rounds parse cursor_of sample_a bodies_a events (over_exporter y a))
          (run_rounds parse cursor_of sample_b bodies_b events y)
  unfolding run_rounds
  run_rounds-agree [] y a r h = (a, refl, r)
  run_rounds-agree (event ∷ events) y a r h =
      let y' = loop_event parse cursor_of sample_b bodies_b event y in
      let (a', same, r') = loop_event-agree event y a r (run_rounds-back events y' h) in
      let (a'', same', r'') = run_rounds-agree events y' a' r' h in
      (a'', ap (run_rounds parse cursor_of sample_a bodies_a events) same ∙ same', r'')
