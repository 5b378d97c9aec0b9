-- ===== src/Telemetry/Warmup.antt =====
-- `HostSampler::new` of crates/agent-telemetry/src/sampler.rs: the first reading of the processors is
-- taken, and the rest of the shortest interval between two of them is waited for. sysinfo, the clock,
-- in nanoseconds, and the timer are parameters.
use cross_xagent.Base.{
  ℕ, ◌+◌, ◌-◌, ◌≤◌, arith, Bool-cases, inl, inr, ltb, ltb→lt, ltb→le, if◌then◌else◌,
}

pub record Host (System Networks Disks World : Type 0) : Type 0 where
  pub new_system : System
  pub refresh_cpu_usage : System → World → System × World
  pub refresh_memory : System → World → System × World
  pub new_networks : World → Networks × World
  pub new_disks : World → Disks × World
  pub now : World → ℕ
  pub sleep : ℕ → World → World
  pub minimum_cpu_update_interval : ℕ

pub record HostSampler (System Networks Disks : Type 0) : Type 0 where
  pub system : System
  pub networks : Networks
  pub disks : Disks

module _ {System Networks Disks World : Type 0} (host : Host System Networks Disks World) where
  -- `checked_sub`, and the sleep where something remains.
  unfoldable pub wait_out : ℕ → ℕ → World → World
  wait_out interval elapsed w =
      if ltb interval elapsed then w else host.sleep (interval - elapsed) w

  unfoldable pub new_sampler : World → HostSampler System Networks Disks × World
  new_sampler w =
      let (system1, w1) = host.refresh_cpu_usage host.new_system w in
      let (system2, w2) = host.refresh_memory system1 w1 in
      let (networks, w3) = host.new_networks w2 in
      let (disks, w4) = host.new_disks w3 in
      (
        record { system = system2; networks = networks; disks = disks },
        wait_out host.minimum_cpu_update_interval (host.now w4 - host.now w) w4,
      )

  -- Where the clock does not go backwards while the host is read, and a sleep takes at least its time,
  -- the sampler is handed over no earlier than one shortest interval after the start of the call. The
  -- interval counts from before the first reading of the processors.
  pub new_sampler-warmed :
      (w : World)
      → ((s : System) (v : World) → host.now v ≤ host.now (host.refresh_cpu_usage s v).1)
      → ((s : System) (v : World) → host.now v ≤ host.now (host.refresh_memory s v).1)
      → ((v : World) → host.now v ≤ host.now (host.new_networks v).1)
      → ((v : World) → host.now v ≤ host.now (host.new_disks v).1)
      → ((d : ℕ) (v : World) → host.now v + d ≤ host.now (host.sleep d v))
      → host.now w + host.minimum_cpu_update_interval ≤ host.now (new_sampler w).1
  unfolding new_sampler wait_out
  new_sampler-warmed w cpu memory networks disks sleeps =
      let r1 = host.refresh_cpu_usage host.new_system w in
      let r2 = host.refresh_memory r1.0 r1.1 in
      let w3 = (host.new_networks r2.1).1 in
      let w4 = (host.new_disks w3).1 in
      let interval = host.minimum_cpu_update_interval in
      let elapsed = host.now w4 - host.now w in
      let later : host.now w ≤ host.now w4 =
        omega (arith, cpu host.new_system w, memory r1.0 r1.1, networks r2.1, disks w3) in
      elim (Bool-cases (ltb interval elapsed)) [
        | inl e ↦ rw (wait_out, e) (omega (arith, later, ltb→lt interval elapsed e))
        | inr e ↦
            rw (wait_out, e)
              (omega (arith, later, ltb→le interval elapsed e, sleeps (interval - elapsed) w4))
      ]
