-- ===== src/Telemetry/Sampler.antt =====
-- crates/agent-telemetry/src/sampler.rs on a Unix host: one tick of metrics from the readings of
-- sysinfo, which are a parameter, as are the operations on f64.
use cross_xagent.Base.{
  ℕ, ◌+◌, Bool, false, ◌&&◌, ◌||◌, Option, none, some, List, [], ◌∷◌, ◌++◌, Bytes, u64_max, ltb,
  leb, beq_bytes, map, if◌then◌else◌,
}
use cross_xagent.Relay.Auth.{ascii}
use cross_xagent.Relay.Cert.{starts_with}

pub record Float (F : Type 0) : Type 0 where
  pub of_u64 : ℕ → F
  pub div : F → F → F
  pub sub : F → F → F
  pub one : F
  pub hundred : F

pub data SampleKind : Type 0 where
  gauge cumulative_sum : SampleKind

pub record MetricSample (F : Type 0) : Type 0 where
  pub name : Bytes
  pub value : F
  pub attrs : List (Bytes × Bytes)
  pub kind : SampleKind

-- One interface: for each of its addresses whether it is a loopback address, and its counters.
pub record Interface : Type 0 where
  pub name : Bytes
  pub loopback_addresses : List Bool
  pub total_received : ℕ
  pub total_transmitted : ℕ

pub record DiskSpace : Type 0 where
  pub total_space : ℕ
  pub available_space : ℕ

-- What sysinfo shows after the refreshes of one tick.
pub record Readings (F : Type 0) : Type 0 where
  pub global_cpu_usage : F
  pub total_memory : ℕ
  pub used_memory : ℕ
  pub networks : List Interface
  pub disks : List DiskSpace
  pub load_one : F

abbrev pub any : List Bool → Bool
any [] = false
any (b ∷ bs) = b || any bs

abbrev to_ascii_lowercase : ℕ → ℕ
to_ascii_lowercase c = if leb b'A' c && leb c b'Z' then c + 32 else c

-- `str::contains`
unfoldable pub contains : Bytes → Bytes → Bool
contains [] pattern_bytes = starts_with [] pattern_bytes
contains (c ∷ s) pattern_bytes = starts_with (c ∷ s) pattern_bytes || contains s pattern_bytes

unfoldable pub is_loopback : Interface → Bool
is_loopback interface =
    any interface.loopback_addresses
    || (beq_bytes interface.name (ascii "lo")
        || contains (map to_ascii_lowercase interface.name) (ascii "loopback"))

abbrev pub saturating_add : ℕ → ℕ → ℕ
saturating_add a b = if ltb u64_max (a + b) then u64_max else a + b

-- The loop of `network_totals`, from the totals so far.
unfoldable pub totals_from : ℕ × ℕ → List Interface → ℕ × ℕ
totals_from totals [] = totals
totals_from totals (interface ∷ rest) =
    totals_from
      (if is_loopback interface then totals else (
        saturating_add totals.0 interface.total_received,
        saturating_add totals.1 interface.total_transmitted,
      ))
      rest

unfoldable pub network_totals : List Interface → ℕ × ℕ
network_totals interfaces = totals_from (0, 0) interfaces

-- `max_by_key`: the last one of the greatest.
unfoldable pub largest_from : DiskSpace → List DiskSpace → DiskSpace
largest_from best [] = best
largest_from best (disk ∷ disks) =
    largest_from (if leb best.total_space disk.total_space then disk else best) disks

abbrev pub largest : List DiskSpace → Option DiskSpace
largest [] = none
largest (disk ∷ disks) = some (largest_from disk disks)

module _ {F : Type 0} (float : Float F) where
  abbrev ratio : ℕ → ℕ → F
  ratio a b = float.div (float.of_u64 a) (float.of_u64 b)

  unfoldable pub largest_disk_utilization : List DiskSpace → Option F
  unfolding largest_from
  largest_disk_utilization disks = elim (largest disks) [
    | none ↦ none
    | some disk ↦
        if ltb 0 disk.total_space
        then some (float.sub float.one (ratio disk.available_space disk.total_space))
        else none
  ]

  abbrev metric : Bytes → F → SampleKind → MetricSample F
  metric name value kind = record { name = name; value = value; attrs = []; kind = kind }

  abbrev metric_of : Bytes → F → Bytes × Bytes → SampleKind → MetricSample F
  metric_of name value attr kind = record {
    name = name;
    value = value;
    attrs = attr ∷ [];
    kind = kind;
  }

  abbrev memory_utilization : Readings F → List (MetricSample F)
  memory_utilization r =
      if ltb 0 r.total_memory
      then metric (ascii "system.memory.utilization") (ratio r.used_memory r.total_memory) gauge
        ∷ []
      else []

  abbrev filesystem_utilization : Option F → List (MetricSample F)
  filesystem_utilization none = []
  filesystem_utilization (some utilization) =
      metric (ascii "system.filesystem.utilization") utilization gauge ∷ []

  unfoldable pub sample : Readings F → List (MetricSample F)
  sample r =
      let (received, transmitted) = network_totals r.networks in
      (metric (ascii "system.cpu.utilization") (float.div r.global_cpu_usage float.hundred) gauge
        ∷ [])
      ++ (memory_utilization r
          ++ ((metric_of (ascii "system.memory.usage") (float.of_u64 r.used_memory)
                  (ascii "state", ascii "used") gauge
                ∷ metric_of (ascii "system.network.io") (float.of_u64 received)
                    (ascii "direction", ascii "receive") cumulative_sum
                ∷ metric_of (ascii "system.network.io") (float.of_u64 transmitted)
                    (ascii "direction", ascii "transmit") cumulative_sum
                ∷ [])
              ++ (filesystem_utilization (largest_disk_utilization r.disks)
                  ++ (metric (ascii "system.cpu.load_average.1m") r.load_one gauge ∷ []))))
