-- ===== src/Skew.antt =====
-- src/producer/skew_analysis.py: the scenarios, the partition of a key, and the figures of a scenario.
pub mod Counts
pub mod Figures
pub mod Volume
pub mod Publishing
pub mod Client
pub mod Due
pub mod Retries
pub mod Waiting
pub mod Report
pub mod Main
pub mod Simulated
pub mod HotKey
use Prim.Native.String.{◌++◌ as ◌<>◌}
use streaming_fpuna_proyecto.Base.{
  ℕ, zero, suc, ◌+◌, ◌-◌, ◌*◌, ◌%◌, String, Bool, true, false, not, ◌||◌, ◌&&◌, Option, none, some,
  List, [], ◌∷◌, map, length, contains, ltb, leb, if◌then◌else◌,
}
use streaming_fpuna_proyecto.Base.Int.{ℤ, pos, pos_part, ltb_ℤ, leb_ℤ}
use streaming_fpuna_proyecto.Base.Text.{is_blank}
use streaming_fpuna_proyecto.Base.Decimal.{decimal}
use streaming_fpuna_proyecto.Python.{value_error, Result, ok, raise, throw, raise_if, ◌>>=◌, ◌>>◌}
use streaming_fpuna_proyecto.Python.Codec.{Utf8}

pub record SkewRecord : Type 0 where
  pub sequence : ℕ
  pub customer_id : String

pub record SkewScenario : Type 0 where
  pub name : String
  pub records : List SkewRecord

pub record PartitionSummary : Type 0 where
  pub partition : ℕ
  pub event_count : ℕ
  pub unique_key_count : ℕ

-- the two quotients of floats as a numerator and a denominator
pub record ScenarioSummary : Type 0 where
  pub name : String
  pub total_events : ℕ
  pub unique_keys : ℕ
  pub partitions : List PartitionSummary
  pub max_partition : ℕ
  pub max_partition_share : ℕ × ℕ
  pub max_to_mean_ratio : ℕ × ℕ

abbrev pub hot_customer_id : String
hot_customer_id = "cust-hot-001"

-- a `float` share by what the code asks of it: `0 < share < 1`, and `round(total * share)`
pub record Share : Type 0 where
  pub in_range : Bool
  pub round_of : ℤ → ℤ

-- `f"{n:03d}"`
unfoldable pub three_digits : ℕ → String
three_digits n =
    if ltb n 10 then "00" <> decimal n else if ltb n 100 then "0" <> decimal n else decimal n

-- the records with the numbers from `index` on
unfoldable pub balanced_records : ℕ → ℕ → List SkewRecord
balanced_records index zero = []
balanced_records index (suc left) =
    record { sequence = index; customer_id = "cust-balanced-" <> three_digits index }
    ∷ balanced_records (suc index) left

abbrev pub hot_record : ℕ → ℕ → SkewRecord
hot_record hot_event_count index =
    if ltb index hot_event_count
    then record { sequence = index; customer_id = hot_customer_id }
    else record {
      sequence = index;
      customer_id = "cust-cold-" <> three_digits (index - hot_event_count);
    }

unfoldable pub hot_records : ℕ → ℕ → ℕ → List SkewRecord
hot_records hot_event_count index zero = []
hot_records hot_event_count index (suc left) =
    hot_record hot_event_count index ∷ hot_records hot_event_count (suc index) left

-- from the test of `hot_event_count` on
unfoldable pub scenarios_of : ℤ → ℤ → Result (SkewScenario × SkewScenario)
scenarios_of total_events hot_event_count = do
  raise_if (leb_ℤ hot_event_count (pos 0) || leb_ℤ total_events hot_event_count) value_error
      "hot_key_share must leave at least one cold-key event"
  ok (
    record { name = "balanced"; records = balanced_records 0 (pos_part total_events) },
    record {
      name = "hot_key";
      records = hot_records (pos_part hot_event_count) 0 (pos_part total_events);
    },
  )

unfoldable pub build_reference_scenarios : ℤ → Share → Result (SkewScenario × SkewScenario)
build_reference_scenarios total_events share = do
  raise_if (leb_ℤ total_events (pos 0)) value_error "total_events must be positive"
  raise_if (not share.in_range) value_error "hot_key_share must be greater than 0 and lower than 1"
  scenarios_of total_events (share.round_of total_events)

module _ (utf8 : Utf8) (crc32 : utf8.Bytes → ℕ) where
  unfoldable pub partition_for_key : String → ℤ → Result ℕ
  partition_for_key customer_id partition_count = do
    raise_if (is_blank customer_id) value_error "customer_id must be non-empty"
    raise_if (leb_ℤ partition_count (pos 0)) value_error "partition_count must be positive"
    ok (crc32 (utf8.encode customer_id) % pos_part partition_count)

  unfoldable pub simulated : List SkewRecord → ℤ → Result (List ℤ)
  simulated [] partition_count = ok []
  simulated (r ∷ records) partition_count = do
    partition ← partition_for_key r.customer_id partition_count
    rest ← simulated records partition_count
    ok (pos partition ∷ rest)

  -- the simulated partitions, or those that were observed
  unfoldable pub assign : List SkewRecord → ℤ → Option (List ℤ) → Result (List ℤ)
  assign records partition_count none = simulated records partition_count
  assign records partition_count (some observed) = ok observed

abbrev pub same : ℕ → ℕ → Bool
same m n = leb m n && leb n m

-- `any(partition < 0 or partition >= partition_count for ...)`
unfoldable pub any_outside : ℤ → List ℤ → Bool
any_outside partition_count [] = false
any_outside partition_count (p ∷ ps) =
    (ltb_ℤ p (pos 0) || leb_ℤ partition_count p) || any_outside partition_count ps

-- `Counter(assignments)[partition]`
unfoldable pub count_of : ℕ → List ℕ → ℕ
count_of partition [] = 0
count_of partition (p ∷ ps) =
    let rest = count_of partition ps in if same p partition then suc rest else rest

abbrev pub add_key : String → List String → List String
add_key key keys = if contains keys key then keys else key ∷ keys

-- `unique_keys[partition]`, a set
unfoldable pub keys_in : ℕ → List SkewRecord → List ℕ → List String
keys_in partition (r ∷ records) (p ∷ ps) =
    let rest = keys_in partition records ps in
    if same p partition then add_key r.customer_id rest else rest
keys_in partition _ _ = []

unfoldable pub all_keys : List SkewRecord → List String
all_keys [] = []
all_keys (r ∷ records) = add_key r.customer_id (all_keys records)

abbrev pub partition_summary : List SkewRecord → List ℕ → ℕ → PartitionSummary
partition_summary records assignments partition = record {
  partition = partition;
  event_count = count_of partition assignments;
  unique_key_count = length (keys_in partition records assignments);
}

-- the summaries of `left` partitions from `partition` on
unfoldable pub partition_summaries : List SkewRecord → List ℕ → ℕ → ℕ → List PartitionSummary
partition_summaries records assignments partition zero = []
partition_summaries records assignments partition (suc left) =
    partition_summary records assignments partition
    ∷ partition_summaries records assignments (suc partition) left

-- `max(..., key=lambda item: (item.event_count, -item.partition))`, from the best one so far
abbrev pub busier : PartitionSummary → PartitionSummary → PartitionSummary
busier best item =
    if ltb best.event_count item.event_count
      || same item.event_count best.event_count && ltb item.partition best.partition
    then item
    else best

unfoldable pub busiest : PartitionSummary → List PartitionSummary → PartitionSummary
busiest best [] = best
busiest best (item ∷ items) = busiest (busier best item) items

abbrev pub scenario_summary :
    SkewScenario → ℕ → List PartitionSummary → PartitionSummary → ScenarioSummary
scenario_summary scenario partition_count summaries top = record {
  name = scenario.name;
  total_events = length scenario.records;
  unique_keys = length (all_keys scenario.records);
  partitions = summaries;
  max_partition = top.partition;
  max_partition_share = (top.event_count, length scenario.records);
  max_to_mean_ratio = (top.event_count * partition_count, length scenario.records);
}

-- from `busiest = ...` on
unfoldable pub summary_of : SkewScenario → ℕ → List PartitionSummary → Result ScenarioSummary
summary_of scenario partition_count [] = throw value_error "max() iterable argument is empty"
summary_of scenario partition_count (first ∷ items) =
    ok (scenario_summary scenario partition_count (first ∷ items) (busiest first items))

module _ (utf8 : Utf8) (crc32 : utf8.Bytes → ℕ) where
  unfoldable pub summarize_scenario : SkewScenario → ℤ → Option (List ℤ) → Result ScenarioSummary
  summarize_scenario scenario partition_count observed_partitions = do
    raise_if (leb_ℤ partition_count (pos 0)) value_error "partition_count must be positive"
    raise_if (same (length scenario.records) 0) value_error
        "scenario must contain at least one record"
    assignments ← assign utf8 crc32 scenario.records partition_count observed_partitions
    raise_if (not (same (length assignments) (length scenario.records))) value_error
        "observed_partitions must match the number of scenario records"
    raise_if (any_outside partition_count assignments) value_error
        "observed partition is outside the configured range"
    summary_of scenario (pos_part partition_count) (
        partition_summaries scenario.records (map pos_part assignments) 0
          (pos_part partition_count))
