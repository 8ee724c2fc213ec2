-- ===== src/Pipeline.antt =====
-- src/pipeline/streaming_pipeline.py: the configuration, and the records that go out to Kafka.
pub mod Config
pub mod Kafka
pub mod Main
pub mod Parsed
pub mod Handover
pub mod OneWindow
pub mod Transactions
pub mod Records
pub mod Emitted
pub mod Alerted
use Prim.Native.String.{◌++◌ as ◌<>◌}
use streaming_fpuna_proyecto.Base.{
  ℕ, String, Bool, true, false, not, Option, none, some, List, [], ◌∷◌, if◌then◌else◌,
}
use streaming_fpuna_proyecto.Base.Int.{pos}
use streaming_fpuna_proyecto.Base.Text.{is_blank}
use streaming_fpuna_proyecto.Python.{
  type_error, value_error, Result, ok, raise, throw, raise_if, ◌>>=◌, ◌>>◌,
}
use streaming_fpuna_proyecto.Python.Value.{
  Value, null, boolean, text, object, Fields, get, is_hashable, is_member, positive_int,
}
use streaming_fpuna_proyecto.Python.Codec.{Utf8, Json}
use streaming_fpuna_proyecto.Contract.{is_filled_text}
use streaming_fpuna_proyecto.Aggregation.{WindowPolicy, default_policy}

abbrev pub supported_kafka_environment_types : List String
supported_kafka_environment_types = "DOCKER" ∷ "EXTERNAL" ∷ "PROCESS" ∷ []

unfoldable pub require_non_empty_text : String → Value → Result (Unit {0})
require_non_empty_text name value =
    raise_if (not (is_filled_text value)) value_error (name <> " must be a non-empty string")

-- what a caller may pass for each field
pub record PipelineConfig : Type 0 where
  pub bootstrap_servers : Value
  pub input_topic : Value
  pub alert_topic : Value
  pub invalid_topic : Value
  pub consumer_group : Value
  pub max_num_records : Value
  pub kafka_environment_type : Value
  pub kafka_environment_config : Value
  pub directrunner_smoke_mode : Value

-- the test against `SUPPORTED_KAFKA_ENVIRONMENT_TYPES`, a set
unfoldable pub check_environment_type : Value → Result (Unit {0})
check_environment_type value =
    if is_hashable value
    then raise_if (not (is_member supported_kafka_environment_types value)) value_error
        "kafka_environment_type must be one of: DOCKER, EXTERNAL, PROCESS"
    else throw type_error "unhashable type"

unfoldable pub check_smoke_mode : Value → Result (Unit {0})
check_smoke_mode (boolean _) = ok tt
check_smoke_mode _ = throw type_error "directrunner_smoke_mode must be a boolean"

abbrev check_positive : Option ℕ → Result (Unit {0})
check_positive (some n) = ok tt
check_positive none = throw value_error "max_num_records must be a positive integer"

unfoldable pub check_max_num_records : Value → Result (Unit {0})
check_max_num_records null = ok tt
check_max_num_records value = check_positive (positive_int value)

-- `PipelineConfig.__post_init__`
unfoldable pub post_init : PipelineConfig → Result (Unit {0})
post_init c = do
  require_non_empty_text "bootstrap_servers" c.bootstrap_servers
  require_non_empty_text "input_topic" c.input_topic
  require_non_empty_text "alert_topic" c.alert_topic
  require_non_empty_text "invalid_topic" c.invalid_topic
  require_non_empty_text "consumer_group" c.consumer_group
  require_non_empty_text "kafka_environment_config" c.kafka_environment_config
  check_environment_type c.kafka_environment_type
  check_smoke_mode c.directrunner_smoke_mode
  check_max_num_records c.max_num_records

-- `not value`, of a flag that `post_init` accepts
abbrev pub negated : Value → Value
negated (boolean b) = boolean (not b)
negated value = value

-- the arguments that `build_kafka_pipeline` gives to `WindowVelocityEvents`
unfoldable pub window_policy : PipelineConfig → WindowPolicy
window_policy c = record default_policy {
  enable_processing_time_early_firings = negated c.directrunner_smoke_mode;
}

module _ (utf8 : Utf8) (json : Json) where
  unfoldable pub json_bytes : Fields → utf8.Bytes
  json_bytes value = utf8.encode (json.dumps (object value))

  -- the key is a text after the first check
  abbrev encoded_alert : Value → Value → Result (utf8.Bytes × utf8.Bytes)
  encoded_alert (text key) (object alert) = ok (utf8.encode key, json_bytes alert)
  encoded_alert key alert = throw type_error "alert must be a mapping"

  unfoldable pub alert_to_kafka_record : Value × Value → Result (utf8.Bytes × utf8.Bytes)
  alert_to_kafka_record (key, alert) = do
    require_non_empty_text "alert key" key
    encoded_alert key alert

  module _ (sha256 : utf8.Bytes → String) where
    -- the branches on `event_id`; `sha256` is the hexadecimal digest
    unfoldable pub invalid_key : Value → utf8.Bytes → String
    invalid_key (text event_id) value =
        if is_blank event_id then "invalid|sha256:" <> sha256 value else "invalid|" <> event_id
    invalid_key _ value = "invalid|sha256:" <> sha256 value

    unfoldable pub invalid_to_kafka_record : Value → Result (utf8.Bytes × utf8.Bytes)
    invalid_to_kafka_record (object record') =
        let value = json_bytes record' in
        ok (utf8.encode (invalid_key (get record' "event_id") value), value)
    invalid_to_kafka_record _ = throw type_error "invalid record must be a mapping"
