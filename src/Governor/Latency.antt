-- ===== src/Governor/Latency.antt =====
-- src/infrastructure/governor: `LatencyGovernor` with the types of its ports. Durations and instants
-- are nanoseconds. What the source computes in `f64` is a function of the configuration: the ranks of
-- the percentiles, the comparisons of the ratio of the p95 to its target, and the share of the memory.
use edgelord.Common.{
  ℕ, suc, ◌+◌, ◌-◌, ◌*◌, ◌/◌, Bool, true, false, List, [], ◌∷◌, ◌++◌, Option, none, some, length,
  is_empty, get_elem?, ltb, leb, nat_beq, not, if◌then◌else◌,
}

pub data ScalingRecommendation : Type 0 where
  expand : (suggested_count : ℕ) → ScalingRecommendation
  hold : ScalingRecommendation
  contract : (suggested_count : ℕ) → ScalingRecommendation

unfoldable pub is_expand : ScalingRecommendation → Bool
is_expand (expand n) = true
is_expand hold = false
is_expand (contract n) = false

unfoldable pub is_contract : ScalingRecommendation → Bool
is_contract (expand n) = false
is_contract hold = false
is_contract (contract n) = true

unfoldable pub suggested_count : ScalingRecommendation → Option ℕ
suggested_count (expand n) = some n
suggested_count (contract n) = some n
suggested_count hold = none

pub record ResourceBudget : Type 0 where
  pub max_memory_bytes : ℕ
  pub worker_threads : ℕ
  -- `(bytes as f64 * memory_target) as u64`.
  pub memory_target : ℕ → ℕ

abbrev pub bytes_per_subscription : ℕ
bytes_per_subscription = 10 * 1024

unfoldable pub estimate_max_subscriptions : ResourceBudget → ℕ
estimate_max_subscriptions b = b.memory_target b.max_memory_bytes / bytes_per_subscription

pub record LatencyTargets : Type 0 where
  pub target_p50 : ℕ
  pub target_p95 : ℕ
  pub target_p99 : ℕ
  pub max_p99 : ℕ

pub record ScalingConfig : Type 0 where
  pub check_interval : ℕ
  -- The ratio of the two is below `expand_threshold - hysteresis`.
  pub is_below_expand : (p95 target : ℕ) → Bool
  -- The ratio of the two is above `contract_threshold`.
  pub is_above_contract : (p95 target : ℕ) → Bool
  pub expand_step : ℕ
  pub contract_step : ℕ
  pub cooldown : ℕ

pub record GovernorConfig : Type 0 where
  pub enabled : Bool
  pub latency : LatencyTargets
  pub scaling : ScalingConfig

pub record LatencyMetrics : Type 0 where
  pub p50 : ℕ
  pub p95 : ℕ
  pub p99 : ℕ
  pub sample_count : ℕ

-- `((len as f64 - 1.0) * p).round()` for the three percentiles.
pub record Ranks : Type 0 where
  pub at_50 : ℕ → ℕ
  pub at_95 : ℕ → ℕ
  pub at_99 : ℕ → ℕ

pub record LatencyGovernor (F : Type 0) : Type 0 where
  pub config : GovernorConfig
  pub samples : List ℕ
  pub throughput : List F
  pub last_scaled : Option ℕ
  pub budget : ResourceBudget
  pub max_samples : ℕ

abbrev pub max_samples_kept : ℕ
max_samples_kept = 1000

unfoldable pub new : {F : Type 0} → ResourceBudget → GovernorConfig → LatencyGovernor F
new default_budget config = record {
  config = config;
  samples = [];
  throughput = [];
  last_scaled = none;
  budget = default_budget;
  max_samples = max_samples_kept;
}

-- `while len > max { pop_front }`.
unfoldable pub trim {ℓ} : {A : Type ℓ} → ℕ → List A → List A
trim limit [] = []
trim limit (x ∷ xs) =
    let rest = trim limit xs in if ltb limit (suc (length xs)) then rest else x ∷ xs

-- `slice::sort` on durations.
unfoldable pub insert_sorted : ℕ → List ℕ → List ℕ
insert_sorted a [] = a ∷ []
insert_sorted a (b ∷ bs) = let rest = insert_sorted a bs in if leb a b then a ∷ b ∷ bs else b ∷ rest

unfoldable pub sort : List ℕ → List ℕ
sort [] = []
sort (a ∷ rest) = insert_sorted a (sort rest)

-- The element at an index, for an index in range.
abbrev pub at_or : ℕ → Option ℕ → ℕ
at_or d none = d
at_or d (some v) = v

unfoldable pub percentile : (rank : ℕ → ℕ) → List ℕ → ℕ
percentile rank samples =
    let last = length samples - 1 in
    let index = if leb (rank (length samples)) last then rank (length samples) else last in
    if is_empty samples then 0 else at_or 0 (get_elem? samples index)

module _ {F : Type 0} where
  unfoldable pub record_latency : ℕ → LatencyGovernor F → LatencyGovernor F
  record_latency latency g = record g { samples = trim g.max_samples (g.samples ++ (latency ∷ [])) }

  unfoldable pub record_throughput : F → LatencyGovernor F → LatencyGovernor F
  record_throughput messages_per_sec g = record g {
    throughput = trim g.max_samples (g.throughput ++ (messages_per_sec ∷ []));
  }

  unfoldable pub in_cooldown : ℕ → LatencyGovernor F → Bool
  in_cooldown now g = elim g.last_scaled [
    | none ↦ false
    | some instant ↦ ltb (now - instant) g.config.scaling.cooldown
  ]

  unfoldable pub notify_scaled : ℕ → LatencyGovernor F → LatencyGovernor F
  notify_scaled now g = record g { last_scaled = some now }

  unfoldable pub set_resource_budget : ResourceBudget → LatencyGovernor F → LatencyGovernor F
  set_resource_budget budget g = record g { budget = budget }

  unfoldable pub latency_metrics : Ranks → LatencyGovernor F → LatencyMetrics
  latency_metrics ranks g =
      let sorted = sort g.samples in
      if is_empty g.samples
      then record { p50 = 0; p95 = 0; p99 = 0; sample_count = 0 }
      else record {
        p50 = percentile ranks.at_50 sorted;
        p95 = percentile ranks.at_95 sorted;
        p99 = percentile ranks.at_99 sorted;
        sample_count = length g.samples;
      }

  unfoldable pub recommendation : Ranks → ℕ → LatencyGovernor F → ScalingRecommendation
  recommendation ranks now g =
      let metrics = latency_metrics ranks g in
      let scaling = g.config.scaling in
      let target = g.config.latency.target_p95 in
      let subscriptions = estimate_max_subscriptions g.budget in
      if not g.config.enabled
      then hold
      else if in_cooldown now g
      then hold
      else if nat_beq metrics.sample_count 0
      then hold
      else if ltb g.config.latency.max_p99 metrics.p99
      then contract (subscriptions - scaling.contract_step)
      else if scaling.is_above_contract metrics.p95 target
      then contract (subscriptions - scaling.contract_step)
      else if scaling.is_below_expand metrics.p95 target
      then expand (subscriptions + scaling.expand_step)
      else hold
