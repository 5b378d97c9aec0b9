-- ===== src/Agent/Loop.antt =====
-- `run_logs_loop`, `run_logs_once` with `poll_files`, and `run_once` of crates/crossx-agent/src, over
-- an exporter that is a parameter.
use cross_xagent.Base.{Bool, true, false, Option, none, some, List, [], ◌∷◌, Bytes, if◌then◌else◌}
use cross_xagent.Telemetry.Tailer.{
  Tailer, LogFile, failed, ok, open_tailer, poll, persist_checkpoint,
}
use cross_xagent.Agent.Journald.{JournaldSource, ensure_running, next_record, persist_source}
use cross_xagent.Agent.Sources.{Tick, FileSource, poll_file_sources}

-- What a round of the loop of `run_logs_loop` waits for: the ticker, with whether journalctl can be
-- spawned and with what the file system shows each source, or lines of journalctl up to a record or
-- its end, with whether the cursor can be written.
pub data LoopEvent : Type 0 where
  tick : Bool → List Tick → LoopEvent
  lines : List Bytes → Bool → LoopEvent

pub record LogSources (S : Type 0) : Type 0 where
  pub journald : JournaldSource
  pub cursor : Option Bytes
  pub files : List (FileSource × Option Bytes)
  pub exporter : S

-- Each source beside what it is shown; the ticks are as many as the sources.
abbrev pub beside :
    List Tick → List (FileSource × Option Bytes) → List (Tick × FileSource × Option Bytes)
beside [] files = []
beside (t ∷ ticks) [] = []
beside (t ∷ ticks) (f ∷ files) = (t, f.0, f.1) ∷ beside ticks files

module _ {Sample S : Type 0} (parse : Bytes → Option Sample) (cursor_of : Bytes → Option Bytes)
    (export_sample : Sample → S → Bool × S) where
  -- A record of the journal: its cursor is stored once the exporter has accepted it.
  unfoldable pub journal_record : List Bytes → Bool → LogSources S → LogSources S
  journal_record ls written sources =
      let (sample, journald) = next_record parse cursor_of ls sources.journald in
      elim sample [
        | none ↦ record sources { journald = journald }
        | some s ↦
            let (accepted, exporter) = export_sample s sources.exporter in
            if accepted
            then (let (cursor, journald') = persist_source written journald sources.cursor in
                record sources { journald = journald'; cursor = cursor; exporter = exporter })
            else record sources { journald = journald; exporter = exporter }
      ]

  unfoldable pub loop_event : (List Bytes → S → Bool × S) → LoopEvent → LogSources S → LogSources S
  unfolding journal_record
  loop_event export_bodies (tick available ticks) sources =
      let (files, exporter) =
        poll_file_sources export_bodies (beside ticks sources.files) sources.exporter in
      record sources {
        journald = ensure_running available sources.cursor sources.journald;
        files = files;
        exporter = exporter;
      }
  loop_event export_bodies (lines ls written) sources = journal_record ls written sources

-- A tailer of `run_logs_once`, with the file at its poll and whether its checkpoint can be written.
pub record OneShot : Type 0 where
  pub tailer : Tailer
  pub file : Option LogFile
  pub writable : Bool
  pub checkpoint : Option Bytes

module _ {S : Type 0} (export_records : List Bytes → S → Bool × S) where
  -- What one round of `poll_files` does to a tailer's checkpoint, and whether it goes on.
  unfoldable pub poll_one : OneShot → S → Bool × Option Bytes × S
  poll_one shot s = elim shot.file [
    | none ↦ (false, shot.checkpoint, s)
    | some file ↦ elim (poll shot.tailer file) [
      | failed e ↦ (false, shot.checkpoint, s)
      | ok (bodies, tailer) ↦ elim bodies [
        | [] ↦ (true, shot.checkpoint, s)
        | body ∷ rest ↦
            let (accepted, s') = export_records (body ∷ rest) s in
            if accepted
            then (if shot.writable
                then (true, some (persist_checkpoint tailer).0, s')
                else (false, shot.checkpoint, s'))
            else (false, shot.checkpoint, s')
      ]
    ]
  ]

  -- `poll_files`: the first failure ends it; the checkpoints that it leaves.
  unfoldable pub poll_files : List OneShot → S → Bool × List (Option Bytes) × S
  poll_files [] s = (true, [], s)
  poll_files (shot ∷ shots) s =
      let (served, checkpoint, s1) = poll_one shot s in
      let (done, later, s2) = poll_files shots s1 in
      if served then (done, checkpoint ∷ later, s2) else (false, checkpoint ∷ kept shots, s1)
    where
      kept : List OneShot → List (Option Bytes)
      kept [] = []
      kept (k ∷ ks) = k.checkpoint ∷ kept ks

-- A file of `run_logs_once`: what its tailer is opened on, and what its poll finds.
pub record OneShotFile : Type 0 where
  pub at_open : Option LogFile
  pub at_poll : Option LogFile
  pub writable : Bool
  pub checkpoint : Option Bytes

-- One tailer of `open_file_tailers`.
abbrev pub open_one : OneShotFile → Option OneShot
open_one shot = elim shot.at_open [
  | none ↦ none
  | some file ↦ elim (open_tailer shot.checkpoint file) [
    | failed e ↦ none
    | ok tailer ↦ some (record {
      tailer = tailer;
      file = shot.at_poll;
      writable = shot.writable;
      checkpoint = shot.checkpoint;
    })
  ]
]

-- `open_file_tailers`: the first that cannot be opened is an error.
unfoldable pub open_file_tailers : List OneShotFile → Option (List OneShot)
open_file_tailers [] = some []
open_file_tailers (shot ∷ shots) =
    let rest = open_file_tailers shots in
    elim (open_one shot) [
      | none ↦ none
      | some opened ↦ elim rest [ none ↦ none | some later ↦ some (opened ∷ later) ]
    ]

abbrev pub checkpoints_of : List OneShotFile → List (Option Bytes)
checkpoints_of [] = []
checkpoints_of (shot ∷ shots) = shot.checkpoint ∷ checkpoints_of shots

-- `run_logs_once`; the exporter is opened after the tailers.
unfoldable pub run_logs_once :
    {S : Type 0}
    → (List Bytes → S → Bool × S)
    → Bool
    → Option S
    → List OneShotFile
    → Bool × List (Option Bytes) × Option S
run_logs_once export_records false exporter shots = (true, checkpoints_of shots, exporter)
run_logs_once export_records true exporter shots = elim (open_file_tailers shots) [
  | none ↦ (false, checkpoints_of shots, exporter)
  | some tailers ↦ elim exporter [
    | none ↦ (false, checkpoints_of shots, none)
    | some s ↦
        let (done, checkpoints, s') = poll_files export_records tailers s in
        (done, checkpoints, some s')
  ]
]

-- `run_once`: both parts run, and the first error of the two is the result.
unfoldable pub run_once :
    {E W : Type 0} → (W → Option E × W) → (W → Option E × W) → W → Option E × W
run_once metrics logs w =
    let (metrics_result, w1) = metrics w in
    let (logs_result, w2) = logs w1 in
    elim metrics_result [ some e ↦ (some e, w2) | none ↦ (logs_result, w2) ]
