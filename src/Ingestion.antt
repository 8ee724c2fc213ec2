-- ===== src/Ingestion.antt =====
-- src/pipeline/validation.py: decoding, validating and timestamping one Kafka record.
pub mod Reading
pub mod Accept
pub mod Crash
pub mod Published
use Prim.Native.String.{◌++◌ as ◌<>◌}
use streaming_fpuna_proyecto.Base.{
  ℕ, suc, ◌+◌, ◌*◌, String, Bool, true, false, not, ◌&&◌, Option, none, some, List, [], ◌∷◌, ◌++◌,
  if◌then◌else◌, ◌==◌, String-discrete,
}
use streaming_fpuna_proyecto.Base.Int.{ℤ, sub_ℕ}
use streaming_fpuna_proyecto.Base.Text.{is_blank}
use streaming_fpuna_proyecto.Base.Decimal.{decimal}
use streaming_fpuna_proyecto.Python.{
  runtime_error, Exception, Result, ok, raise, throw, error_if, ◌>>=◌,
}
use streaming_fpuna_proyecto.Python.Value.{
  Value, null, text, array, object, Items, nil, cons, Fields, end, field, get, get_item,
}
use streaming_fpuna_proyecto.Python.Codec.{Utf8, Json, Iso8601, parsed, malformed, failed}
use streaming_fpuna_proyecto.Contract.{parse_event_time, validate_transaction_event}

-- an object that KafkaIO hands over: `None`, bytes, or anything else by its `repr`
pub data Raw (utf8 : Utf8) : Type 0 where
  absent : Raw utf8
  bytes : utf8.Bytes → Raw utf8
  other : String → Raw utf8

-- a pair of key and value, or an object that is no such pair
pub data KafkaRecord (utf8 : Utf8) : Type 0 where
  pair : Raw utf8 → Raw utf8 → KafkaRecord utf8
  not_pair : Raw utf8 → KafkaRecord utf8

-- what `process` yields: an event with its timestamp in microseconds since the epoch, or a record for
-- the output of invalid events
pub data Emission : Type 0 where
  timestamped : Fields → ℤ → Emission
  invalid : Fields → Emission

-- the two counters of `ParseAndValidateKafkaRecord`
pub record Counters : Type 0 where
  pub valid_records : ℕ
  pub invalid_records : ℕ

abbrev pub texts : List String → Items
texts [] = nil
texts (s ∷ ss) = cons (text s) (texts ss)

abbrev pub text_or_null : Option String → Value
text_or_null none = null
text_or_null (some s) = text s

-- `event_id if isinstance(event_id, str) else None`, of a mapping
abbrev pub text_only : Value → Value
text_only (text s) = text s
text_only _ = null

-- `event.get("event_id") if isinstance(event, Mapping) else None`
abbrev pub event_id_of : Value → Value
event_id_of (object event) = get event "event_id"
event_id_of _ = null

-- microseconds from 0001-01-01 to 1970-01-01: 719162 days
abbrev pub epoch : ℕ
epoch = 719162 * 86400000000

-- `instant.timestamp()`, exactly
abbrev pub timestamp : ℕ → ℤ
timestamp instant = sub_ℕ instant epoch

module _ (utf8 : Utf8) where
  unfoldable pub diagnostic_text : Raw utf8 → Option String
  diagnostic_text absent = none
  diagnostic_text (bytes b) = some (utf8.decode_replace b)
  diagnostic_text (other repr) = some repr

  unfoldable pub build_invalid_record : Raw utf8 → Raw utf8 → Value → List String → Fields
  unfolding diagnostic_text
  build_invalid_record raw_key raw_value event errors =
      field "error_stage" (text "ingestion_validation") (
        field "errors" (array (texts errors)) (
          field "event_id" (text_only (event_id_of event)) (
            field "kafka_key" (text_or_null (diagnostic_text raw_key))
              (field "raw_value" (text_or_null (diagnostic_text raw_value)) end))))

  -- the checks on `raw_key`: the errors, and the decoded key
  unfoldable pub read_key : Raw utf8 → List String × Option String
  read_key absent = ("Kafka key must not be null" ∷ [], none)
  read_key (other _) = ("Kafka key must be UTF-8 bytes" ∷ [], none)
  read_key (bytes b) = elim (utf8.decode b) [
    | none ↦ ("Kafka key must contain valid UTF-8" ∷ [], none)
    | some key ↦ (error_if (is_blank key) "Kafka key must be a non-empty string", some key)
  ]

  -- the checks on `raw_value`
  unfoldable pub read_value : Raw utf8 → List String × Option String
  read_value (bytes b) = elim (utf8.decode b) [
    | none ↦ ("Kafka value must contain valid UTF-8" ∷ [], none)
    | some s ↦ ([], some s)
  ]
  read_value _ = ("Kafka value must be UTF-8 bytes" ∷ [], none)

-- the last check: `customer_id` against the key, where both are there
unfoldable pub key_errors : Option String → Value → List String
key_errors (some key) (object event) = elim (get event "customer_id") [
  | text customer_id ↦
      error_if (not (is_blank customer_id) && not (customer_id == key))
        "Kafka key must match customer_id"
  | _ ↦ []
]
key_errors _ _ = []

module _ (json : Json) where
  -- `json.loads` of the decoded value: the errors, and the event if it was parsed
  unfoldable pub load_event : Option String → Result (List String × Option Value)
  load_event none = ok ([], none)
  load_event (some s) = elim (json.loads s) [
    | parsed v ↦ ok ([], some v)
    | malformed msg lineno colno ↦ ok (
      ("Kafka value must be valid JSON: "
            <> (msg <> (" at line " <> (decimal lineno <> (" column " <> decimal colno)))))
          ∷ [],
      none,
    )
    | failed e ↦ raise e
  ]

module _ (iso : Iso8601) where
  -- the block under `if json_parsed`
  unfoldable pub event_errors : Option String → Option Value → Result (List String)
  event_errors kafka_key none = ok []
  event_errors kafka_key (some event) = do
    errors ← validate_transaction_event iso event
    ok (errors ++ key_errors kafka_key event)

  -- from `event_timestamp = ...` on
  unfoldable pub emit_valid : Value → Result Emission
  emit_valid (object event) = do
    event_time ← get_item event "event_time"
    instant ← parse_event_time iso event_time
    ok (timestamped event (timestamp instant))
  emit_valid _ = throw runtime_error "validated event must be a mapping"

module _ (utf8 : Utf8) (iso : Iso8601) where
  -- from `if errors:` on
  unfoldable pub emit : Raw utf8 → Raw utf8 → Value → List String → Result Emission
  emit raw_key raw_value event [] = emit_valid iso event
  emit raw_key raw_value event (e ∷ es) =
      ok (invalid (build_invalid_record utf8 raw_key raw_value event (e ∷ es)))

-- the counter that goes with the emission
unfoldable pub count : Counters → Emission → Counters
count c (timestamped _ _) = record c { valid_records = c.valid_records + 1 }
count c (invalid _) = record c { invalid_records = c.invalid_records + 1 }

module _ (utf8 : Utf8) (json : Json) (iso : Iso8601) where
  unfoldable pub process_record : KafkaRecord utf8 → Result Emission
  process_record (not_pair record') = ok (
      invalid (
        build_invalid_record utf8 absent record' null
          ("Kafka record must be a key-value tuple" ∷ [])))
  process_record (pair raw_key raw_value) = do
    let key = read_key utf8 raw_key
    let value = read_value utf8 raw_value
    loaded ← load_event json value.1
    errors ← event_errors iso key.1 loaded.1
    emit utf8 iso raw_key raw_value (elim loaded.1 [ none ↦ null | some v ↦ v ])
        (key.0 ++ (value.0 ++ (loaded.0 ++ errors)))

  -- `process`, with the counters; a call that raises leaves them as they are
  unfoldable pub process : Counters → KafkaRecord utf8 → Result Emission × Counters
  process c r = elim (process_record r) [
    | ok emission ↦ (ok emission, count c emission)
    | raise e ↦ (raise e, c)
  ]
