-- ===== src/Tests/Pipeline.antt =====
-- The configuration of src/pipeline/streaming_pipeline.py, and an alert on its way to the consumer.
use streaming_fpuna_proyecto.Base.{
  String, ◌≡◌, refl, ◌↔◌, some, true, false, [], ◌∷◌, String-discrete, contains,
}
use streaming_fpuna_proyecto.Base.Int.{pos, floor_div}
use streaming_fpuna_proyecto.Base.Text.{is_blank, replace_utc}
use streaming_fpuna_proyecto.Base.Decimal.{decimal_ℤ}
use streaming_fpuna_proyecto.Python.{ok}
use streaming_fpuna_proyecto.Python.Value.{
  null, boolean, integer, text, object, Fields, end, field, get, get_item,
}
use streaming_fpuna_proyecto.Contract.{is_filled_text}
use streaming_fpuna_proyecto.Dedup.{Window}
use streaming_fpuna_proyecto.Alerts.{
  Pane, early, default_rule, require_non_negative_int, velocity_alert_key, build_velocity_alert,
  alert_fields, alert_of_totals, alert_if_triggered, make_alert, iso_utc, keyed, process_aggregate,
  millis,
}
use streaming_fpuna_proyecto.Materializer.{validated_candidate}
use streaming_fpuna_proyecto.Pipeline.{
  PipelineConfig, require_non_empty_text, check_environment_type, check_smoke_mode,
  check_max_num_records, post_init, alert_to_kafka_record,
}
use streaming_fpuna_proyecto.Pipeline.Config.{IsConfig, post_init-ok_iff}
use streaming_fpuna_proyecto.Pipeline.Handover.{emitted-accepted}
use streaming_fpuna_proyecto.Tests.Samples.{utf8, json, iso}

abbrev config : PipelineConfig
config = record {
  bootstrap_servers = text "localhost:9092";
  input_topic = text "bank.transactions.raw";
  alert_topic = text "risk.alerts.velocity";
  invalid_topic = text "bank.transactions.invalid";
  consumer_group = text "velocity-beam-v1";
  max_num_records = null;
  kafka_environment_type = text "PROCESS";
  kafka_environment_config = text "{}";
  directrunner_smoke_mode = boolean false;
}

config-ok : post_init config ≡ ok tt
unfolding post_init require_non_empty_text check_environment_type check_smoke_mode
    check_max_num_records is_filled_text is_blank contains String-discrete
config-ok = refl

post_init-ok_iff_example : (post_init config ≡ ok tt) ↔ IsConfig config
post_init-ok_iff_example = post_init-ok_iff config

config-IsConfig : IsConfig config
config-IsConfig = (post_init-ok_iff config).0 config-ok

abbrev window : Window
window = record { start = pos 0; finish = pos 60000000 }

abbrev pane : Pane
pane = record {
  timing = early;
  index = pos 0;
  nonspeculative_index = pos 0;
  is_first = true;
  is_last = false;
}

abbrev aggregate : Fields
aggregate =
    field "transaction_count" (integer (pos 4)) (field "total_amount" (integer (pos 400)) end)

abbrev alert : Fields
alert =
    alert_fields "velocity|C-1|0|60000" "C-1" "2026-01-01T00:00:00.000Z" "2026-01-01T00:00:00.000Z"
      4 400 default_rule ("transaction_count" ∷ []) pane

emitted :
    process_aggregate iso default_rule ("C-1", aggregate) window pane
    ≡ ok (some (text "velocity|C-1|0|60000", alert))
unfolding process_aggregate build_velocity_alert alert_of_totals alert_if_triggered make_alert
    iso_utc velocity_alert_key keyed get get_item String-discrete is_blank decimal_ℤ replace_utc
    require_non_negative_int floor_div
emitted = refl

emitted-accepted_example :
    (key : String) × (text "velocity|C-1|0|60000" ≡ text key)
    × (velocity_alert_key "C-1" (millis window.start) (millis window.finish) ≡ ok key)
    × (alert_to_kafka_record utf8 json (text "velocity|C-1|0|60000", object alert)
        ≡ ok (utf8.encode key, utf8.encode (json.dumps (object alert))))
    × (validated_candidate key (object alert) ≡ ok (alert, 0))
emitted-accepted_example =
    emitted-accepted utf8 json iso default_rule "C-1" aggregate window pane 0
      (text "velocity|C-1|0|60000") alert refl emitted
