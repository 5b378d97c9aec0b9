-- ===== src/Agent/Tasks.antt =====
-- `run_forever` of crates/crossx-agent/src/main.rs: the tasks that run beside one another, in the
-- order in which they end.
use cross_xagent.Base.{
  ◌≡◌, refl, Bool, true, false, inl, inr, Bool-cases, List, [], ◌∷◌, if◌then◌else◌,
}

-- A task ends: with success or with an error. The telemetry slot is there only with the relay.
pub data TaskEvent : Type 0 where
  metrics_ended relay_ended logs_ended : Bool → TaskEvent

-- The tasks of `try_join!` that still run.
pub record Joined : Type 0 where
  pub metrics : Bool
  pub relay : Bool
  pub logs : Bool

pub data TaskState : Type 0 where
  joined : Joined → TaskState
  failed : TaskState

-- `try_join!` ends at the first error; the block around the logs loop turns its error into success.
unfoldable pub on_task : TaskEvent → Joined → TaskState
on_task (metrics_ended fine) tasks =
    if tasks.metrics
    then (if fine then joined (record tasks { metrics = false }) else failed)
    else joined tasks
on_task (relay_ended fine) tasks =
    if tasks.relay
    then (if fine then joined (record tasks { relay = false }) else failed)
    else joined tasks
on_task (logs_ended fine) tasks = joined (record tasks { logs = false })

abbrev after_task : (Joined → TaskState) → TaskState → TaskState
after_task k (joined tasks) = k tasks
after_task k failed = failed

unfoldable pub run_tasks : List TaskEvent → Joined → TaskState
unfolding on_task
run_tasks [] tasks = joined tasks
run_tasks (event ∷ events) tasks = after_task (run_tasks events) (on_task event tasks)

-- The relay task is one of them where the relay is enabled.
unfoldable pub run_forever : Bool → List TaskEvent → TaskState
run_forever relay_enabled events =
    run_tasks events (record { metrics = true; relay = relay_enabled; logs = true })

abbrev pub without_logs : List TaskEvent → List TaskEvent
without_logs [] = []
without_logs (metrics_ended fine ∷ events) = metrics_ended fine ∷ without_logs events
without_logs (relay_ended fine ∷ events) = relay_ended fine ∷ without_logs events
without_logs (logs_ended fine ∷ events) = without_logs events

-- What runs besides the logs.
abbrev pub apart_from_logs : TaskState → TaskState
apart_from_logs (joined tasks) = joined (record tasks { logs = true })
apart_from_logs failed = failed

run_tasks-logs :
    (events : List TaskEvent) (tasks : Joined)
    → apart_from_logs (run_tasks events tasks)
      ≡ run_tasks (without_logs events) (record tasks { logs = true })
unfolding run_tasks on_task
run_tasks-logs [] tasks = refl
run_tasks-logs (logs_ended fine ∷ events) tasks =
    run_tasks-logs events (record tasks { logs = false })
run_tasks-logs (metrics_ended fine ∷ events) tasks = elim (Bool-cases tasks.metrics) [
  | inr done ↦
      rw (run_tasks, on_task, done) (run_tasks-logs events (record tasks { metrics = false }))
  | inl runs ↦ elim (Bool-cases fine) [
    | inr fails ↦ rw (run_tasks, on_task, runs, fails) refl
    | inl ends ↦
        rw (run_tasks, on_task, runs, ends)
          (run_tasks-logs events (record tasks { metrics = false }))
  ]
]
run_tasks-logs (relay_ended fine ∷ events) tasks = elim (Bool-cases tasks.relay) [
  | inr done ↦
      rw (run_tasks, on_task, done) (run_tasks-logs events (record tasks { relay = false }))
  | inl runs ↦ elim (Bool-cases fine) [
    | inr fails ↦ rw (run_tasks, on_task, runs, fails) refl
    | inl ends ↦
        rw (run_tasks, on_task, runs, ends) (run_tasks-logs events (record tasks { relay = false }))
  ]
]

-- Whatever becomes of the logs task, the metrics and the relay go on and end as they would without
-- it: only their own errors end the agent.
pub run_forever-logs :
    (relay_enabled : Bool) (events : List TaskEvent)
    → apart_from_logs (run_forever relay_enabled events)
      ≡ run_forever relay_enabled (without_logs events)
unfolding run_forever
run_forever-logs relay_enabled events =
    run_tasks-logs events (record { metrics = true; relay = relay_enabled; logs = true })
