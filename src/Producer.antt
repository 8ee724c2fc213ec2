-- ===== src/Producer.antt =====
-- src/producer/synthetic_producer.py: the demo scenario, and its publication.
pub mod Scenario
pub mod Millis
pub mod Publish
pub mod Handed
pub mod Cycles
use Prim.Native.String.{◌++◌ as ◌<>◌}
use streaming_fpuna_proyecto.Base.{
  ℕ, ◌+◌, ◌-◌, ◌*◌, ◌/◌, ◌%◌, String, Option, none, some, List, [], ◌∷◌, ◌++◌, leb, if◌then◌else◌,
}
use streaming_fpuna_proyecto.Base.Int.{ℤ, pos, negsuc}
use streaming_fpuna_proyecto.Base.Decimal.{decimal}
use streaming_fpuna_proyecto.Python.{
  value_error, overflow_error, runtime_error, Result, ok, raise, throw, ◌>>=◌, ◌>>◌,
}
use streaming_fpuna_proyecto.Python.Value.{Fields, get_item}
use streaming_fpuna_proyecto.Python.Codec.{DateTime, Utf8, Json, Iso8601}
use streaming_fpuna_proyecto.Contract.{datetime_range, astimezone_utc, parse_event_time}
use streaming_fpuna_proyecto.Contract.Events.{
  Draft, join, build_transaction_event, encode_transaction_event, transaction_kafka_key,
}
use streaming_fpuna_proyecto.Ingestion.{timestamp}

pub record ScenarioEvent : Type 0 where
  pub label : String
  pub event : Fields

-- `base_time.astimezone(UTC).replace(microsecond=0)`, after the test of its offset
unfoldable pub base_instant : DateTime → Result ℕ
base_instant base_time = elim base_time.utcoffset [
  | none ↦ throw value_error "base_time must include timezone information"
  | some offset ↦ do
    instant ← astimezone_utc base_time.local offset
    ok (instant - instant % 1_000_000)
]

-- `base_time + timedelta(seconds=seconds)`
unfoldable pub later : ℕ → ℕ → Result DateTime
later base seconds =
    let instant = base + seconds * 1_000_000 in
    if leb datetime_range instant
    then throw overflow_error "date value out of range"
    else ok (record { local = instant; utcoffset = some (pos 0) })

-- the arguments of `make_event`
pub record EventPlan : Type 0 where
  pub name : String
  pub customer_id : String
  pub seconds : ℕ
  pub amount : ℕ
  pub transaction_type : String
  pub channel : String

abbrev pub plan_draft : EventPlan → String → DateTime → Draft
plan_draft p run_token event_time = record {
  event_id = "evt-" <> (p.name <> ("-" <> run_token));
  customer_id = p.customer_id;
  event_time = event_time;
  amount = pos p.amount;
  transaction_type = p.transaction_type;
  channel = p.channel;
  currency = "PYG";
}

abbrev pub velocity_plan : String → ℕ → ℕ → String → EventPlan
velocity_plan name seconds amount channel = record {
  name = name;
  customer_id = "cust-velocity-001";
  seconds = seconds;
  amount = amount;
  transaction_type = "transfer";
  channel = channel;
}

abbrev pub normal_plan : EventPlan
normal_plan = record {
  name = "normal-001";
  customer_id = "cust-normal-001";
  seconds = 5;
  amount = 350_000;
  transaction_type = "card_purchase";
  channel = "web";
}

module _ (iso : Iso8601) where
  unfoldable pub make_event : ℕ → String → EventPlan → Result Fields
  make_event base run_token p = do
    event_time ← later base p.seconds
    build_transaction_event iso (plan_draft p run_token event_time)

  -- from `velocity_2 = ...` on
  unfoldable pub demo_events : ℕ → String → Result (List ScenarioEvent)
  demo_events base run_token = do
    velocity_2 ← make_event base run_token (velocity_plan "velocity-002" 20 2_500_000 "mobile")
    normal ← make_event base run_token normal_plan
    velocity_1 ← make_event base run_token (velocity_plan "velocity-001" 0 2_500_000 "mobile")
    velocity_4 ← make_event base run_token (velocity_plan "velocity-004" 50 2_500_000 "api")
    velocity_3 ← make_event base run_token (velocity_plan "velocity-003" 40 2_500_000 "atm")
    velocity_5 ← make_event base run_token (velocity_plan "velocity-005" 120 100_000 "branch")
    late ← make_event base run_token (velocity_plan "velocity-late-001" 10 500_000 "api")
    ok (
        record { label = "normal"; event = normal }
        ∷ record { label = "velocity-1"; event = velocity_1 }
        ∷ record { label = "velocity-2"; event = velocity_2 }
        ∷ record { label = "out-of-order-newer-first"; event = velocity_4 }
        ∷ record { label = "out-of-order-older-after"; event = velocity_3 }
        ∷ record { label = "intentional-duplicate"; event = velocity_2 }
        ∷ record { label = "advance-event-time"; event = velocity_5 }
        ∷ record { label = "late-candidate"; event = late }
        ∷ [])

  -- `strftime` writes an instant in UTC by the format `%Y%m%dT%H%M%SZ`
  unfoldable pub build_demo_scenario : (ℕ → String) → DateTime → Result (List ScenarioEvent)
  build_demo_scenario strftime base_time = do
    base ← base_instant base_time
    demo_events base (strftime base)

-- what `producer.produce` is given
pub record Sent (utf8 : Utf8) : Type 0 where
  pub key : utf8.Bytes
  pub value : utf8.Bytes
  pub timestamp_ms : ℤ

-- a producer: whether it takes a record, the errors that its callbacks report by the end of `flush`, and
-- the messages that are left then
pub record Broker (utf8 : Utf8) : Type 0 where
  pub produce : Sent utf8 → Result (Unit {0})
  pub delivery_errors : List String
  pub remaining : ℕ

-- `int(seconds * 1_000)` of an instant in microseconds: towards zero
abbrev pub milliseconds : ℤ → ℤ
milliseconds (pos micros) = pos (micros / 1000)
milliseconds (negsuc n) = negsuc_or_zero ((n + 1) / 1000)
  where
    negsuc_or_zero : ℕ → ℤ
    negsuc_or_zero m = if leb m 0 then pos 0 else negsuc (m - 1)

module _ (utf8 : Utf8) (json : Json) (iso : Iso8601) where
  -- the key, the value and the timestamp of an event
  unfoldable pub sent_of : Fields → Result (Sent utf8)
  sent_of event = do
    key ← transaction_kafka_key utf8 event
    value ← encode_transaction_event iso utf8 json event
    event_time ← get_item event "event_time"
    instant ← parse_event_time iso event_time
    ok (record { key = key; value = value; timestamp_ms = milliseconds (timestamp instant) })

  -- what the producer has then been handed; without one, a dry run only prints
  abbrev pub produce_to : Option (Broker utf8) → Sent utf8 → Result (List (Sent utf8))
  produce_to none sent = ok []
  produce_to (some broker) sent = do broker.produce sent; ok (sent ∷ [])

  -- the records that the loop hands over, if nothing raises an exception
  unfoldable pub publish_events :
      Option (Broker utf8) → List ScenarioEvent → Result (List (Sent utf8))
  publish_events producer [] = ok []
  publish_events producer (item ∷ items) = do
    sent ← sent_of item.event
    handed ← produce_to producer sent
    rest ← publish_events producer items
    ok (handed ++ rest)

  abbrev pub flush_errors : Option (Broker utf8) → List String
  flush_errors none = []
  flush_errors (some broker) =
      broker.delivery_errors
      ++ (if leb broker.remaining 0
          then []
          else (decimal broker.remaining <> " message(s) were not delivered before timeout") ∷ [])

  abbrev pub raise_delivery_errors : List String → Result (Unit {0})
  raise_delivery_errors [] = ok tt
  raise_delivery_errors (e ∷ es) = throw runtime_error (join (e ∷ es))

  unfoldable pub publish_scenario :
      Option (Broker utf8) → List ScenarioEvent → Result (List (Sent utf8))
  publish_scenario producer scenario = do
    sent ← publish_events producer scenario
    raise_delivery_errors (flush_errors producer)
    ok sent
