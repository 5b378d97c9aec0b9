-- ===== src/Telemetry/Counters.antt =====
-- The network counters of the sampler: the saturating totals, and that they never go backwards.
use cross_xagent.Base.{
  ℕ, ◌+◌, ◌≤◌, ◌≡◌, refl, ◌∙◌, Bool-cases, inl, inr, List, [], ◌∷◌, ◌++◌, arith, u64_max, ltb,
  if◌then◌else◌,
}
use cross_xagent.Telemetry.Sampler.{
  Interface, is_loopback, saturating_add, totals_from, network_totals,
}

-- What an interface adds to the plain sums.
abbrev pub received_by : Interface → ℕ
received_by i = if is_loopback i then 0 else i.total_received

abbrev pub transmitted_by : Interface → ℕ
transmitted_by i = if is_loopback i then 0 else i.total_transmitted

abbrev pub sum_of : (Interface → ℕ) → List Interface → ℕ
sum_of f [] = 0
sum_of f (i ∷ is) = f i + sum_of f is

abbrev pub capped : ℕ → ℕ
capped n = if ltb u64_max n then u64_max else n

totals_from_lem :
    (a b : ℕ) (is : List Interface)
    → (a ≤ u64_max)
    → (b ≤ u64_max)
    → totals_from (a, b) is
      ≡ (capped (a + sum_of received_by is), capped (b + sum_of transmitted_by is))
unfolding totals_from
totals_from_lem a b [] ha hb = ground arith
totals_from_lem a b (i ∷ is) ha hb = elim (Bool-cases (is_loopback i)) [
  | inl e ↦ rw e (totals_from_lem a b is ha hb ∙ ground arith)
  | inr e ↦ rw e (
      totals_from_lem (saturating_add a i.total_received) (saturating_add b i.total_transmitted) is
        (ground arith) (ground arith)
      ∙ ground arith)
]

-- The totals are the sums over the interfaces that are no loopback, capped at the greatest u64.
pub network_totals_lem :
    (is : List Interface)
    → network_totals is ≡ (capped (sum_of received_by is), capped (sum_of transmitted_by is))
unfolding network_totals
network_totals_lem is = totals_from_lem 0 0 is (omega arith) (omega arith) ∙ ground arith

-- A later listing of the interfaces, in any order: each one of the earlier listing is still there,
-- of the same kind and with counters that have not gone down, and others may have come.
pub data Continues : List Interface → List Interface → Type 0 where
  start : (later : List Interface) → Continues [] later
  keep_on :
      (i j : Interface) (is front back later : List Interface)
      → is_loopback i ≡ is_loopback j
      → i.total_received ≤ j.total_received
      → i.total_transmitted ≤ j.total_transmitted
      → Continues is (front ++ back)
      → later ≡ front ++ (j ∷ back)
      → Continues (i ∷ is) later

sum_of-middle :
    (f : Interface → ℕ) (front back : List Interface) (j : Interface)
    → sum_of f (front ++ (j ∷ back)) ≡ f j + sum_of f (front ++ back)
sum_of-middle f [] back j = refl
sum_of-middle f (i ∷ front) back j = omega (arith, sum_of-middle f front back j)

sums_grow :
    {is js : List Interface}
    → Continues is js
    → (sum_of received_by is ≤ sum_of received_by js)
      × (sum_of transmitted_by is ≤ sum_of transmitted_by js)
sums_grow (start later) = (omega arith, omega arith)
sums_grow (keep_on i j is front back later same r t rest e) =
    let (sr, st) = sums_grow rest in
    rw e (
      rw (sum_of-middle received_by front back j, sum_of-middle transmitted_by front back j)
        (ground arith, ground arith))

-- Where every interface is still listed, is a loopback interface exactly where it was one before, and
-- has counters that have not gone down, the totals do not go down either.
pub network_totals-Continues :
    (is js : List Interface)
    → Continues is js
    → ((network_totals is).0 ≤ (network_totals js).0)
      × ((network_totals is).1 ≤ (network_totals js).1)
network_totals-Continues is js c =
    let (r, t) = sums_grow c in
    rw (network_totals_lem is, network_totals_lem js) (ground arith, ground arith)
