-- ===== src/Skew/Client.antt =====
-- src/producer/skew_analysis.py: `publish_scenarios`, with the loop that hands records to the client again
-- and again while its queue is full.
use Prim.Native.Char.{code}
use Prim.Native.String.{◌++◌ as ◌<>◌}
use streaming_fpuna_proyecto.Base.{
  ℕ, zero, suc, ◌+◌, ◌*◌, String, Option, none, some, List, [], ◌∷◌, ◌++◌, map, set, leb,
  if◌then◌else◌,
}
use streaming_fpuna_proyecto.Base.Int.{ℤ, pos_part, neg_part, sub_ℕ}
use streaming_fpuna_proyecto.Base.Text.{same_code}
use streaming_fpuna_proyecto.Base.Dict
use streaming_fpuna_proyecto.Base.Dict.{Dict}
use streaming_fpuna_proyecto.Python.{
  attribute_error, overflow_error, Exception, Result, ok, raise, throw, ◌>>=◌,
}
use streaming_fpuna_proyecto.Python.Running.{and_then}
use streaming_fpuna_proyecto.Python.Value.{Value, text, get_item}
use streaming_fpuna_proyecto.Python.Codec.{DateTime, Utf8, Json, Iso8601}
use streaming_fpuna_proyecto.Contract.{datetime_range}
use streaming_fpuna_proyecto.Contract.Events.{encode_transaction_event}
use streaming_fpuna_proyecto.Ingestion.{epoch}
use streaming_fpuna_proyecto.Producer.{Sent, milliseconds}
use streaming_fpuna_proyecto.Skew.{SkewRecord, SkewScenario}
use streaming_fpuna_proyecto.Skew.Publishing.{event_for_record, complete}

-- `s.replace("Z", "+00:00")`
unfoldable pub replace_z : String → String
replace_z String.[] = ""
replace_z (String.◌∷◌ c s) =
    let rest = replace_z s in
    if same_code (code c) b'Z' then "+00:00" <> rest else String.◌∷◌ c rest

abbrev pub written_time : Value → Result String
written_time (text s) = ok s
written_time _ = throw attribute_error "object has no attribute 'replace'"

-- `timestamp()` in microseconds; a naive time stands in the zone of the host
abbrev pub posix_time : (ℕ → ℤ) → DateTime → ℤ
posix_time zone d = since_epoch d.local (elim d.utcoffset [ none ↦ zone d.local | some o ↦ o ])
  where
    since_epoch : ℕ → ℤ → ℤ
    since_epoch local offset = sub_ℕ (local + neg_part offset) (epoch + pos_part offset)

-- how a call of `producer.produce` ends: `buffer_full` is `BufferError`
pub data Attempt : Type 0 where
  taken : Attempt
  buffer_full : Attempt
  refused : Exception → Attempt

-- what a callback is told of a record: an error, or the partition
pub data Delivery : Type 0 where
  failed : String → Delivery
  delivered : String → ℕ → ℤ → Delivery

-- a client: the answer of its n-th call of `produce`, what the callbacks are told by the end of `flush`,
-- and the messages that are left then
pub record Client (utf8 : Utf8) : Type 0 where
  pub produce : ℕ → Sent utf8 → Attempt
  pub deliveries : List Delivery
  pub remaining : ℕ

-- `base_time + timedelta(hours=scenario_number)`
unfoldable pub hours_later : ℕ → ℕ → Result ℕ
hours_later base scenario_number =
    let instant = base + scenario_number * 3_600_000_000 in
    if leb datetime_range instant
    then throw overflow_error "date value out of range"
    else ok instant

abbrev pub Observed : Type 0
Observed = Dict (List (Option ℤ))

-- `[None] * len(scenario.records)` for each scenario, in their order
unfoldable pub observe_from : Observed → List SkewScenario → Observed
observe_from observed [] = observed
observe_from observed (scenario ∷ scenarios) =
    observe_from (Dict.insert scenario.name (map (λ r. none) scenario.records) observed) scenarios

abbrev pub nothing_observed : List SkewScenario → Observed
nothing_observed scenarios = observe_from [] scenarios

-- `observed[scenario_name][record_index] = message.partition()`
unfoldable pub note : Observed → List Delivery → Observed
note observed [] = observed
note observed (failed error ∷ deliveries) = note observed deliveries
note observed (delivered name index partition ∷ deliveries) =
    note
      (elim (Dict.lookup name observed) [
        | none ↦ observed
        | some assignments ↦ Dict.insert name (set assignments index (some partition)) observed
      ])
      deliveries

unfoldable pub errors_of : List Delivery → List String
errors_of [] = []
errors_of (failed error ∷ deliveries) = error ∷ errors_of deliveries
errors_of (delivered _ _ _ ∷ deliveries) = errors_of deliveries

module _ (utf8 : Utf8) (json : Json) (iso : Iso8601) (zone : ℕ → ℤ) where
  -- the arguments of `producer.produce` for a record
  unfoldable pub sent_for : String → ℕ → SkewRecord → Result (Sent utf8)
  sent_for scenario_name base r = do
    event ← event_for_record iso scenario_name r base
    value ← encode_transaction_event iso utf8 json event
    event_time ← get_item event "event_time"
    written ← written_time event_time
    time ← iso.fromisoformat (replace_z written)
    ok (record {
      key = utf8.encode r.customer_id;
      value = value;
      timestamp_ms = milliseconds (posix_time zone time);
    })

  -- `while True`, on fuel: the number of the next call, and the record once the client took it
  unfoldable pub produce_until :
      Client utf8 → ℕ → ℕ → Sent utf8 → Option (Result (ℕ × List (Sent utf8)))
  produce_until client zero call sent = none
  produce_until client (suc fuel) call sent = elim (client.produce call sent) [
    | taken ↦ some (ok (suc call, sent ∷ []))
    | buffer_full ↦ produce_until client fuel (suc call) sent
    | refused e ↦ some (raise e)
  ]

  -- the inner loop: the number of the next call, and what the client took
  unfoldable pub publish_records :
      Client utf8 → ℕ → String → ℕ → ℕ → List SkewRecord → Option (Result (ℕ × List (Sent utf8)))
  publish_records client fuel scenario_name base call [] = some (ok (call, []))
  publish_records client fuel scenario_name base call (r ∷ records) =
      and_then (some (sent_for scenario_name base r)) λ sent.
        and_then (produce_until client fuel call sent) λ (next, accepted).
          and_then (publish_records client fuel scenario_name base next records)
            λ (last, rest). some (ok (last, accepted ++ rest))

  -- the outer loop
  unfoldable pub publish_from :
      Client utf8 → ℕ → ℕ → ℕ → ℕ → List SkewScenario → Option (Result (ℕ × List (Sent utf8)))
  publish_from client fuel base scenario_number call [] = some (ok (call, []))
  publish_from client fuel base scenario_number call (scenario ∷ scenarios) =
      and_then (some (hours_later base scenario_number)) λ scenario_base.
        and_then (publish_records client fuel scenario.name scenario_base call scenario.records)
          λ (next, sent).
            and_then (publish_from client fuel base (suc scenario_number) next scenarios)
              λ (last, rest). some (ok (last, sent ++ rest))

  -- `publish_scenarios`, for a base time in UTC
  unfoldable pub publish_scenarios :
      Client utf8 → ℕ → ℕ → List SkewScenario → Option (Result (Dict (List ℤ)))
  publish_scenarios client fuel base scenarios =
      and_then (publish_from client fuel base 0 0 scenarios) λ handed_over. some (
        complete (errors_of client.deliveries) client.remaining
          (note (nothing_observed scenarios) client.deliveries))
