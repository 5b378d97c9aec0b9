-- ===== src/Agent/Journald.antt =====
-- `JournaldFollower` and `JournaldSource` of crates/crossx-agent/src/logs.rs. The journalctl process
-- is a parameter: whether it could be spawned, and the lines that it prints before it ends. Whether a
-- cursor is passed to it is kept, the argument itself is not.
use cross_xagent.Base.{
  Bool, true, false, not, ◌&&◌, ◌||◌, Option, none, some, List, [], ◌∷◌, Bytes, if◌then◌else◌,
}

pub record Follower : Type 0 where
  pub pending_cursor : Option Bytes
  pub spawned_with_cursor : Bool
  pub produced_any_record : Bool

pub record JournaldSource : Type 0 where
  pub enabled : Bool
  pub follower : Option Follower
  pub skip_cursor : Bool
  pub unavailable_logged : Bool

abbrev pub new_source : Bool → JournaldSource
new_source enabled = record {
  enabled = enabled;
  follower = none;
  skip_cursor = false;
  unavailable_logged = false;
}

abbrev pub is_some {ℓ} : {A : Type ℓ} → Option A → Bool
is_some none = false
is_some (some a) = true

-- The follower that `spawn` makes, from the checkpoint file.
unfoldable pub spawn : Option Bytes → Bool → Follower
spawn stored use_cursor = record {
  pending_cursor = none;
  spawned_with_cursor = use_cursor && is_some stored;
  produced_any_record = false;
}

unfoldable pub journald_should_skip_cursor_on_restart : Bool → Bool → Bool
journald_should_skip_cursor_on_restart spawned_with_cursor produced_any_record =
    spawned_with_cursor && not produced_any_record

-- `available` says whether `spawn` succeeds.
unfoldable pub ensure_running : Bool → Option Bytes → JournaldSource → JournaldSource
ensure_running available stored source =
    if not source.enabled || is_some source.follower
    then source
    else if available
    then record source {
      follower = some (spawn stored (not source.skip_cursor));
      unavailable_logged = false;
    }
    else record source { unavailable_logged = true }

module _ {Sample : Type 0} (parse : Bytes → Option Sample) (cursor_of : Bytes → Option Bytes) where
  -- The loop of `next` over the lines that come: lines that are no record are passed over.
  unfoldable pub next_line : List Bytes → Follower → Option Sample × Follower
  next_line [] follower = (none, follower)
  next_line (line ∷ lines) follower = elim (parse line) [
    | none ↦ next_line lines follower
    | some sample ↦ (
      some sample,
      record follower { pending_cursor = cursor_of line; produced_any_record = true },
    )
  ]

unfoldable pub on_follower_exit : JournaldSource → JournaldSource
on_follower_exit source = elim source.follower [
  | none ↦ source
  | some follower ↦ record source {
    follower = none;
    skip_cursor =
        journald_should_skip_cursor_on_restart follower.spawned_with_cursor
          follower.produced_any_record;
  }
]

module _ {Sample : Type 0} (parse : Bytes → Option Sample) (cursor_of : Bytes → Option Bytes) where
  -- `next_record` with the lines up to a record, or up to the end of the process.
  unfoldable pub next_record : List Bytes → JournaldSource → Option Sample × JournaldSource
  next_record lines source = elim source.follower [
    | none ↦ (none, source)
    | some follower ↦
        let (sample, follower') = next_line parse cursor_of lines follower in
        let source' = record source { follower = some follower' } in
        elim sample [ none ↦ (none, on_follower_exit source') | some s ↦ (some s, source') ]
  ]

-- The cursor is taken from the follower whether or not the file can be written.
unfoldable pub persist_follower : Bool → Follower → Option Bytes → Option Bytes × Follower
persist_follower written follower stored = elim follower.pending_cursor [
  | none ↦ (stored, follower)
  | some cursor ↦
      (if written then some cursor else stored, record follower { pending_cursor = none })
]

unfoldable pub persist_source : Bool → JournaldSource → Option Bytes → Option Bytes × JournaldSource
persist_source written source stored = elim source.follower [
  | none ↦ (stored, source)
  | some follower ↦
      let (stored', follower') = persist_follower written follower stored in
      (stored', record source { follower = some follower' })
]
