-- ===== src/Agent/Sources.antt =====
-- `FileSource` and `poll_files` of crates/crossx-agent/src/logs.rs. The exporter is a parameter over
-- its state, which says whether it accepted a batch; a tick brings what the file system shows.
use cross_xagent.Base.{Bool, true, false, Option, none, some, List, [], ◌∷◌, Bytes, if◌then◌else◌}
use cross_xagent.Telemetry.Tailer.{
  Tailer, LogFile, failed, ok, open_tailer, poll, persist_checkpoint,
}

-- The file when the tailer is opened and when it is polled, and whether a checkpoint can be written.
pub record Tick : Type 0 where
  pub at_open : Option LogFile
  pub at_poll : Option LogFile
  pub writable : Bool

pub record FileSource : Type 0 where
  pub tailer : Option Tailer
  pub unavailable_logged : Bool

abbrev pub new_file_source : FileSource
new_file_source = record { tailer = none; unavailable_logged = false }

abbrev pub warn_unavailable : FileSource → FileSource
warn_unavailable source = record source { unavailable_logged = true }

-- The start of `poll_into`: a tailer is opened where there is none.
unfoldable pub opened : Tick → Option Bytes → FileSource → FileSource
opened tick checkpoint source = elim source.tailer [
  | some tailer ↦ source
  | none ↦ elim tick.at_open [
    | none ↦ warn_unavailable source
    | some file ↦ elim (open_tailer checkpoint file) [
      | failed e ↦ warn_unavailable source
      | ok tailer ↦ record { tailer = some tailer; unavailable_logged = false }
    ]
  ]
]

module _ {S : Type 0} (export_records : List Bytes → S → Bool × S) where
  -- From `export_records` on: the checkpoint moves only behind a batch that was accepted.
  unfoldable pub deliver :
      Bool → List Bytes → Tailer → FileSource → Option Bytes → S → FileSource × Option Bytes × S
  deliver writable [] tailer source checkpoint s =
      (record source { tailer = some tailer }, checkpoint, s)
  deliver writable (body ∷ bodies) tailer source checkpoint s =
      let (accepted, s') = export_records (body ∷ bodies) s in
      if accepted
      then (if writable
          then (
            record source { tailer = some (persist_checkpoint tailer).1 },
            some (persist_checkpoint tailer).0,
            s',
          )
          else (record source { tailer = some tailer }, checkpoint, s'))
      else (record source { tailer = some tailer }, checkpoint, s')

  unfoldable pub poll_into : Tick → FileSource → Option Bytes → S → FileSource × Option Bytes × S
  poll_into tick source checkpoint s =
      let source' = opened tick checkpoint source in
      let gone = warn_unavailable (record source' { tailer = none }) in
      elim source'.tailer [
        | none ↦ (source', checkpoint, s)
        | some tailer ↦ elim tick.at_poll [
          | none ↦ (gone, checkpoint, s)
          | some file ↦ elim (poll tailer file) [
            | failed e ↦ (gone, checkpoint, s)
            | ok (bodies, tailer') ↦ deliver tick.writable bodies tailer' source' checkpoint s
          ]
        ]
      ]

  -- `poll_file_sources`, each source beside its tick and its checkpoint file.
  unfoldable pub poll_file_sources :
      List (Tick × FileSource × Option Bytes) → S → List (FileSource × Option Bytes) × S
  poll_file_sources [] s = ([], s)
  poll_file_sources ((tick, source, checkpoint) ∷ rest) s =
      let (source', checkpoint', s1) = poll_into tick source checkpoint s in
      let (later, s2) = poll_file_sources rest s1 in ((source', checkpoint') ∷ later, s2)
