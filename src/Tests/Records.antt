-- ===== src/Tests/Records.antt =====
-- Records of the input topic: an event that is delivered twice, a value that is no JSON, and an object
-- that is no pair.
use streaming_fpuna_proyecto.Base.{
  false, ◌+◌, String, Bool, ◌≡◌, refl, ◌↔◌, true, List, [], ◌∷◌, length, All, contains,
  String-discrete,
}
use streaming_fpuna_proyecto.Base.Text.{is_blank, ends_with_z, drop_last}
use streaming_fpuna_proyecto.Base.Int.{ℤ, pos}
use streaming_fpuna_proyecto.Python.{ok}
use streaming_fpuna_proyecto.Python.Value.{Value, Fields, get, get_item}
use streaming_fpuna_proyecto.Contract.{
  parse_event_time, parse_event_text, aware_to_utc, astimezone_utc, event_time_errors,
  is_filled_text, id_errors, amount_errors, membership_errors, payload_errors, section_errors,
  event_errors, validate_transaction_event,
}
use streaming_fpuna_proyecto.Ingestion
use streaming_fpuna_proyecto.Ingestion.{
  Raw, KafkaRecord, absent, bytes, pair, not_pair, Emission, timestamped, invalid, read_key,
  read_value, key_errors, load_event, emit_valid, emit, build_invalid_record, diagnostic_text,
  process_record,
}
use streaming_fpuna_proyecto.Ingestion.Crash.{process-raise_iff}
use streaming_fpuna_proyecto.Aggregation.Keyed.{Entry}
use streaming_fpuna_proyecto.Pipeline.Transactions.{Transaction, Tallied}
use streaming_fpuna_proyecto.Pipeline.Records.{ingest, IsHarmless, Carried, stamped, inside}
use streaming_fpuna_proyecto.Pipeline.Emitted.{Revised}
use streaming_fpuna_proyecto.Pipeline.Alerted.{records_alerts, records_alerts-each}
use streaming_fpuna_proyecto.Alerts.{Pane, early, default_rule}
use streaming_fpuna_proyecto.Tests.Samples.{utf8, json, iso, event}
use streaming_fpuna_proyecto.Tests.Customers.{grouping, window}

IsHarmless-of_emission :
    (raw_key raw_value : Raw utf8) (emission : Emission)
    → process_record utf8 json iso (pair raw_key raw_value) ≡ ok emission
    → IsHarmless utf8 json iso (pair raw_key raw_value)
IsHarmless-of_emission raw_key raw_value emission emitted poison =
    let (e, raised) = (process-raise_iff json iso utf8 raw_key raw_value).1 poison in cc

event_emitted :
    process_record utf8 json iso (pair (bytes "C-1") (bytes "event"))
    ≡ ok (timestamped event (pos 1767225600000000))
unfolding process_record read_key read_value load_event Ingestion.event_errors key_errors emit
    emit_valid validate_transaction_event event_errors get get_item is_blank contains
    String-discrete parse_event_time parse_event_text aware_to_utc astimezone_utc event_time_errors
    is_filled_text id_errors amount_errors membership_errors payload_errors section_errors
    ends_with_z drop_last
event_emitted = refl

garbage_emitted :
    (r : Fields) × (process_record utf8 json iso (pair (bytes "C-1") (bytes "?")) ≡ ok (invalid r))
unfolding process_record read_key read_value load_event Ingestion.event_errors key_errors emit
    is_blank String-discrete
garbage_emitted = (_, refl)

abbrev records : List (KafkaRecord utf8)
records =
    pair (bytes "C-1") (bytes "event")
    ∷ pair (bytes "C-1") (bytes "?")
    ∷ not_pair absent
    ∷ pair (bytes "C-1") (bytes "event")
    ∷ []

records-IsHarmless : All (IsHarmless utf8 json iso) records
records-IsHarmless =
    let event_harmless =
      IsHarmless-of_emission (bytes "C-1") (bytes "event")
        (timestamped event (pos 1767225600000000)) event_emitted in
    let (r, emitted) = garbage_emitted in
    (
      event_harmless,
      (
        IsHarmless-of_emission (bytes "C-1") (bytes "?") (invalid r) emitted,
        (tt, (event_harmless, tt)),
      ),
    )

abbrev all_assigned : ℤ → Bool
all_assigned t = true

abbrev pane_of : String → Pane
pane_of customer_id = record {
  timing = early;
  index = pos 0;
  nonspeculative_index = pos 0;
  is_first = true;
  is_last = false;
}

records_alerts-each_example :
    (ts : List (Transaction iso)) × (invalid_records : List Fields) × (entries : List Entry)
    × Carried utf8 json iso records ts
    × (ingest utf8 json iso records ≡ ok (stamped utf8 json iso ts, invalid_records))
    × (length ts + length invalid_records ≡ 4)
    × Tallied iso (inside utf8 json iso all_assigned ts) entries
    × ((outs : List (Value × Fields))
        → (records_alerts utf8 json iso all_assigned grouping 30 window pane_of records ≡ ok outs)
          ↔ Revised iso window pane_of default_rule entries outs)
records_alerts-each_example =
    records_alerts-each utf8 json iso all_assigned grouping 30 window pane_of records
      records-IsHarmless
