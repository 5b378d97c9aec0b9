-- ===== src/Agent/Retry.antt =====
-- `export_with_retry` of crates/crossx-agent/src/export.rs: one attempt, and one more after each delay.
-- The collector, the clock and the timer are parameters over a state of the world. The copy of it in
-- logs.rs is in `LogsRetry`, which shows that it is this loop.
use cross_xagent.Base.{ℕ, ◌+◌, ◌%◌, Bool, true, false, List, [], ◌∷◌}

-- How one connect and export under the attempt's timeout ends.
pub data Attempt : Type 0 where
  accepted failed timed_out : Attempt

-- `try_export` under the timeout, `tokio::time::sleep` of milliseconds, and the clock's nanoseconds.
pub record Collector (Request World : Type 0) : Type 0 where
  pub try_export : Request → World → Attempt × World
  pub sleep : ℕ → World → World
  pub subsec_nanos : World → ℕ

abbrev pub retry_delays : List ℕ
retry_delays = 500 ∷ 2000 ∷ 8000 ∷ []

abbrev pub jitter : ℕ → ℕ
jitter nanos = nanos % 250

module _ {Request World : Type 0} (collector : Collector Request World) where
  -- The rounds after a failed attempt.
  unfoldable pub try_again : List ℕ → Request → World → Bool × World
  try_again [] request w = (false, w)
  try_again (delay ∷ delays) request w =
      let rested = collector.sleep (delay + jitter (collector.subsec_nanos w)) w in
      let (attempt, w') = collector.try_export request rested in
      elim attempt [
        | accepted ↦ (true, w')
        | failed ↦ try_again delays request w'
        | timed_out ↦ try_again delays request w'
      ]

  -- True where an attempt was accepted.
  unfoldable pub export_with_retry : Request → World → Bool × World
  unfolding try_again
  export_with_retry request w =
      let (attempt, w') = collector.try_export request w in
      elim attempt [
        | accepted ↦ (true, w')
        | failed ↦ try_again retry_delays request w'
        | timed_out ↦ try_again retry_delays request w'
      ]
