-- ===== src/Tests/SkewMain.antt =====
-- `main` of src/producer/skew_analysis.py in both modes, with a client whose queue is full at first.
use Prim.Native.String.{◌++◌ as ◌<>◌}
use streaming_fpuna_proyecto.Base.{
  ℕ, ◌+◌, ◌≢◌, String, false, ◌≡◌, refl, ◌↔◌, some, List, [], ◌∷◌, leb, if◌then◌else◌,
  String-discrete, contains, arith,
}
use streaming_fpuna_proyecto.Base.Int.{ℤ, pos}
use streaming_fpuna_proyecto.Base.Dict
use streaming_fpuna_proyecto.Base.Decimal.{decimal, decimal_ℤ}
use streaming_fpuna_proyecto.Base.Text.{is_blank, ends_with_z, drop_last, replace_utc}
use streaming_fpuna_proyecto.Python.{ok, argument_type_error, throw}
use streaming_fpuna_proyecto.Python.Running.{Ends}
use streaming_fpuna_proyecto.Python.Value.{get, get_item}
use streaming_fpuna_proyecto.Contract.{
  format_event_time, parse_event_time, parse_event_text, aware_to_utc, astimezone_utc,
  event_time_errors, is_filled_text, id_errors, amount_errors, membership_errors, payload_errors,
  section_errors, event_errors, validate_transaction_event,
}
use streaming_fpuna_proyecto.Contract.Events.{
  build_transaction_event, raise_errors, encode_transaction_event,
}
use streaming_fpuna_proyecto.Skew.{
  SkewScenario, partition_for_key, simulated, three_digits, balanced_records, hot_records,
  scenarios_of, build_reference_scenarios, assign, any_outside, count_of, keys_in, all_keys,
  partition_summaries, busiest, summary_of, summarize_scenario,
}
use streaming_fpuna_proyecto.Skew.Publishing.{
  four_digits, event_time_of, event_for_record, complete, completed_from, all_reported,
}
use streaming_fpuna_proyecto.Skew.Client.{
  Client, taken, buffer_full, delivered, replace_z, hours_later, observe_from, note, errors_of,
  sent_for, produce_until, publish_records, publish_from, publish_scenarios,
}
use streaming_fpuna_proyecto.Skew.Retries.{IsPatient}
use streaming_fpuna_proyecto.Skew.Waiting.{AllTaken, Fails, due_from, publish_from-Ends}
use streaming_fpuna_proyecto.Skew.Report.{
  Formats, positive_int, join_lines, summary_lines, last_lines, render_report,
}
use streaming_fpuna_proyecto.Skew.Main.{Options, observe, summarize, report, main}
use streaming_fpuna_proyecto.Skew.Simulated.{IsSimulation, simulate-ok_iff}
use streaming_fpuna_proyecto.Tests.Samples.{new_year, utf8, json, iso}
use streaming_fpuna_proyecto.Tests.Skew.{crc32, share, skew_record}

-- the first call finds the queue full
abbrev client : Client utf8
client = record {
  produce = λ call sent. if leb call 0 then buffer_full else taken;
  deliveries = delivered "hot_key" 0 (pos 1) ∷ [];
  remaining = 0;
}

abbrev zone : ℕ → ℤ
zone local = pos 0

client-IsPatient : IsPatient utf8 client 1
client-IsPatient call sent = (1, omega arith, taken_then call)
  where
    taken_then :
        (call : ℕ)
        → client.produce (call + 1) (record { key = ""; value = ""; timestamp_ms = pos 0 })
          ≢ buffer_full
    taken_then call = ground arith

abbrev one_record : List SkewScenario
one_record = record { name = "hot_key"; records = skew_record ∷ [] } ∷ []

publish_from-Ends_example :
    Ends
      (AllTaken utf8 json iso zone client new_year 0 0 one_record)
      (Fails utf8 json iso zone client (due_from utf8 json iso zone new_year 0 one_record))
      (publish_from utf8 json iso zone client 2 new_year 0 0 one_record)
publish_from-Ends_example =
    publish_from-Ends utf8 json iso zone client 1 client-IsPatient new_year 0 0 one_record

published :
    publish_scenarios utf8 json iso zone client 2 new_year one_record
    ≡ some (ok (("hot_key", pos 1 ∷ []) ∷ []))
unfolding publish_scenarios publish_from publish_records produce_until sent_for hours_later
    observe_from note errors_of complete completed_from all_reported Dict.insert Dict.lookup
    replace_z event_for_record event_time_of four_digits decimal build_transaction_event
    raise_errors format_event_time validate_transaction_event event_errors get get_item is_blank
    contains String-discrete parse_event_time parse_event_text aware_to_utc astimezone_utc
    event_time_errors is_filled_text id_errors amount_errors membership_errors payload_errors
    section_errors ends_with_z drop_last replace_utc encode_transaction_event
published = refl

abbrev formats : Formats
formats = record {
  percent = λ n d. decimal_ℤ n <> ("/" <> decimal d);
  two_digits = λ (n, d). decimal n <> ("/" <> decimal d);
  points = λ (n, d) (m, e). "delta";
}

abbrev args : Options
args = record {
  publishes = false;
  partitions = pos 2;
  events = pos 3;
  share = share;
  share_text = "0.67";
  base_time = "2026-08-15T12:00:00Z";
}

simulate-ok_iff_example :
    ((text : String) × (main utf8 crc32 json iso zone formats client 0 args ≡ some (ok text)))
    ↔ IsSimulation args
simulate-ok_iff_example = simulate-ok_iff utf8 crc32 json iso zone formats client 0 args refl

abbrev printed_report : String
printed_report =
    "SKEW_ANALYSIS_START mode=simulate partitions=2 events_per_scenario=3 hot_key_share=0.67\n"
    <> ("SCENARIO name=balanced total_events=3 unique_keys=3\n"
        <> ("PARTITION scenario=balanced id=0 events=0 unique_keys=0 share=0/3\n"
            <> ("PARTITION scenario=balanced id=1 events=3 unique_keys=3 share=3/3\n"
                <> ("SUMMARY scenario=balanced max_partition=1 max_share=3/3 max_to_mean=6/3\n"
                    <> ("SCENARIO name=hot_key total_events=3 unique_keys=2\n"
                        <> ("PARTITION scenario=hot_key id=0 events=0 unique_keys=0 share=0/3\n"
                            <> ("PARTITION scenario=hot_key id=1 events=3 unique_keys=2 share=3/3\n"
                                <> ("SUMMARY scenario=hot_key max_partition=1 max_share=3/3 max_to_mean=6/3\n"
                                    <> ("HOT_KEY key=cust-hot-001 events=2 partition=1 share=2/3\n"
                                        <> ("COMPARISON max_share_delta_pp=delta\n"
                                            <> ("CONCLUSION more_partitions_distribute_distinct_keys_but_do_not_split_one_hot_key\n"
                                                <> "SKEW_ANALYSIS_EXIT_CODE=0")))))))))))

simulation_printed : main utf8 crc32 json iso zone formats client 0 args ≡ some (ok printed_report)
unfolding main observe report summarize render_report join_lines summary_lines last_lines
    summarize_scenario build_reference_scenarios scenarios_of balanced_records hot_records
    three_digits decimal decimal_ℤ assign simulated partition_for_key any_outside count_of keys_in
    all_keys partition_summaries busiest summary_of contains String-discrete is_blank
simulation_printed = refl

no_partitions_refused :
    positive_int (ok (pos 0)) ≡ throw argument_type_error "must be a positive integer"
unfolding positive_int
no_partitions_refused = refl
