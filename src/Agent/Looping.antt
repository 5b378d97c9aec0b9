-- ===== src/Agent/Looping.antt =====
-- The stored cursor of the journal over the rounds of the logs loop.
use cross_xagent.Base.{
  ◌≡◌, refl, ap, Bool, true, Bool-cases, Option-cases, ◌⊎◌, inl, inr, Option, none, some, List, [],
  ◌∷◌, ◌++◌, Bytes,
}
use cross_xagent.Agent.Journald.{Follower, next_line, next_record, persist_follower, persist_source}
use cross_xagent.Agent.Loop.{LoopEvent, tick, lines, LogSources, journal_record, loop_event}

module _ {Sample : Type 0} (parse : Bytes → Option Sample) (cursor_of : Bytes → Option Bytes) where
  -- The first of the lines that is a record.
  record FirstRecord (ls : List Bytes) (follower : Follower) (r : Option Sample × Follower)
      : Type 0 where
    front : List Bytes
    line : Bytes
    back : List Bytes
    sample : Sample
    split : ls ≡ front ++ (line ∷ back)
    parsed : parse line ≡ some sample
    result : r ≡ (
      some sample,
      record follower { pending_cursor = cursor_of line; produced_any_record = true },
    )

  next_line_lem :
      (ls : List Bytes) (follower : Follower)
      → (next_line parse cursor_of ls follower ≡ (none, follower))
        ⊎ FirstRecord ls follower (next_line parse cursor_of ls follower)
  unfolding next_line
  next_line_lem [] follower = inl refl
  next_line_lem (line ∷ ls) follower = elim (Option-cases (parse line)) [
    | inr (sample, e) ↦ inr (record {
      front = [];
      line = line;
      back = ls;
      sample = sample;
      split = refl;
      parsed = e;
      result = rw (e, next_line) refl;
    })
    | inl e ↦ elim (next_line_lem ls follower) [
      | inl same ↦ inl (rw (e, next_line) same)
      | inr r ↦ inr (record {
        front = line ∷ r.front;
        line = r.line;
        back = r.back;
        sample = r.sample;
        split = ap (λ l. line ∷ l) r.split;
        parsed = r.parsed;
        result = rw (e, next_line) r.result;
      })
    ]
  ]

  module _ {S : Type 0} (export_sample : Sample → S → Bool × S) where
    -- The stored cursor moved to a line of these, whose record the exporter accepted.
    pub record Advanced (ls : List Bytes) (sources sources' : LogSources S) : Type 0 where
      pub front : List Bytes
      pub line : Bytes
      pub back : List Bytes
      pub sample : Sample
      pub cursor : Bytes
      pub split : ls ≡ front ++ (line ∷ back)
      pub parsed : parse line ≡ some sample
      pub accepted : (export_sample sample sources.exporter).0 ≡ true
      pub from_line : cursor_of line ≡ some cursor
      pub stored : sources'.cursor ≡ some cursor

    journal_record_lem :
        (ls : List Bytes) (written : Bool) (sources : LogSources S)
        → (let r = journal_record parse cursor_of export_sample ls written sources in
            (r.cursor ≡ sources.cursor) ⊎ Advanced ls sources r)
    unfolding journal_record next_record persist_source persist_follower
    journal_record_lem ls written sources = elim (Option-cases sources.journald.follower) [
      | inl e ↦ inl (rw (e, journal_record) refl)
      | inr (follower, e) ↦ elim (next_line_lem ls follower) [
        | inl same ↦ inl (rw (e, same, journal_record) refl)
        | inr r ↦ elim (Bool-cases (export_sample r.sample sources.exporter).0) [
          | inr refused ↦ inl (rw (e, r.result, refused, journal_record) refl)
          | inl accepted ↦
              let follower' = record follower {
                pending_cursor = cursor_of r.line;
                produced_any_record = true;
              } in
              let read : next_record parse cursor_of ls sources.journald
                  ≡ (some r.sample, record sources.journald { follower = some follower' }) =
                rw (e, r.result, next_record) (rw r.result refl) in
              elim (Option-cases (cursor_of r.line)) [
                | inl c ↦ inl (rw (read, accepted, journal_record) (rw (read, c) refl))
                | inr (cursor, c) ↦ elim (Bool-cases written) [
                  | inr lost ↦ inl (rw (read, accepted, journal_record) (rw (read, c, lost) refl))
                  | inl kept ↦ inr (record {
                    front = r.front;
                    line = r.line;
                    back = r.back;
                    sample = r.sample;
                    cursor = cursor;
                    split = r.split;
                    parsed = r.parsed;
                    accepted = accepted;
                    from_line = c;
                    stored = rw (read, accepted, journal_record) (rw (read, c, kept) refl);
                  })
                ]
              ]
        ]
      ]
    ]

    -- What a round of the loop may do to the stored cursor.
    abbrev pub CursorKept : LoopEvent → LogSources S → LogSources S → Type 0
    CursorKept (tick available ticks) sources sources' = sources'.cursor ≡ sources.cursor
    CursorKept (lines ls written) sources sources' =
        (sources'.cursor ≡ sources.cursor) ⊎ Advanced ls sources sources'

    -- A tick keeps the stored cursor of the journal. Lines of journalctl keep it too, or move it to
    -- the cursor of one of them, whose record the exporter has accepted.
    pub loop_event-CursorKept :
        (export_bodies : List Bytes → S → Bool × S) (event : LoopEvent) (sources : LogSources S)
        → CursorKept event sources
            (loop_event parse cursor_of export_sample export_bodies event sources)
    unfolding loop_event
    loop_event-CursorKept export_bodies (tick available ticks) sources = refl
    loop_event-CursorKept export_bodies (lines ls written) sources =
        journal_record_lem ls written sources
