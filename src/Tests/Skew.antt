-- ===== src/Tests/Skew.antt =====
-- Small scenarios of src/producer/skew_analysis.py.
use streaming_fpuna_proyecto.Base.{
  ℕ, ◌≤◌, String, ◌≡◌, refl, Option, none, some, true, List, [], ◌∷◌, length, String-discrete,
  contains,
}
use streaming_fpuna_proyecto.Base.Int.{ℤ, pos, pos_part}
use streaming_fpuna_proyecto.Base.Decimal.{decimal}
use streaming_fpuna_proyecto.Python.{ok}
use streaming_fpuna_proyecto.Skew.{
  SkewRecord, SkewScenario, ScenarioSummary, Share, three_digits, balanced_records, hot_records,
  scenarios_of, build_reference_scenarios, assign, any_outside, count_of, keys_in, all_keys,
  partition_summaries, busiest, summary_of, summarize_scenario,
}
use streaming_fpuna_proyecto.Skew.Figures.{AreFigures, summarize-AreFigures}
use streaming_fpuna_proyecto.Skew.HotKey.{hot_key_undivided}
use streaming_fpuna_proyecto.Base.{map, ◌↔◌, ◌+◌, ◌*◌, ◌<◌}
use streaming_fpuna_proyecto.Base.Decimal.{read}
use streaming_fpuna_proyecto.Contract.{datetime_range}
use streaming_fpuna_proyecto.Base.Text.{is_blank, ends_with_z, drop_last, replace_utc}
use streaming_fpuna_proyecto.Python.Value.{Fields, get}
use streaming_fpuna_proyecto.Contract.{
  format_event_time, parse_event_time, parse_event_text, aware_to_utc, astimezone_utc,
  event_time_errors, is_filled_text, id_errors, amount_errors, membership_errors, payload_errors,
  section_errors, event_errors, validate_transaction_event,
}
use streaming_fpuna_proyecto.Contract.Spec.{IsTransaction}
use streaming_fpuna_proyecto.Contract.Events.{build_transaction_event, raise_errors, draft_event}
use streaming_fpuna_proyecto.Skew.Publishing.{
  four_digits, event_time_of, record_draft, event_for_record, complete, reported, complete-ok_iff,
  skew_fields, event_for_record-ok_iff,
}
use streaming_fpuna_proyecto.Tests.Samples.{new_year, utc_new_year, utf8, iso}

abbrev pub crc32 : String → ℕ
crc32 s = 7

abbrev scenario : SkewScenario
scenario = record {
  name = "three";
  records =
      record { sequence = 0; customer_id = "a" }
      ∷ record { sequence = 1; customer_id = "b" }
      ∷ record { sequence = 2; customer_id = "a" }
      ∷ [];
}

abbrev summary : ScenarioSummary
summary = record {
  name = "three";
  total_events = 3;
  unique_keys = 2;
  partitions =
      record { partition = 0; event_count = 1; unique_key_count = 1 }
      ∷ record { partition = 1; event_count = 2; unique_key_count = 1 }
      ∷ [];
  max_partition = 1;
  max_partition_share = (2, 3);
  max_to_mean_ratio = (4, 3);
}

abbrev observed : Option (List ℤ)
observed = some (pos 1 ∷ pos 0 ∷ pos 1 ∷ [])

summarized : summarize_scenario utf8 crc32 scenario (pos 2) observed ≡ ok summary
unfolding summarize_scenario assign any_outside count_of keys_in all_keys partition_summaries
    busiest summary_of contains String-discrete
summarized = refl

summarize-AreFigures_example : AreFigures scenario (pos_part (pos 2)) summary
summarize-AreFigures_example =
    summarize-AreFigures utf8 crc32 scenario (pos 2) observed summary summarized

abbrev pub share : Share
share = record { in_range = true; round_of = λ total. pos 2 }

abbrev pub balanced : SkewScenario
balanced = record {
  name = "balanced";
  records =
      record { sequence = 0; customer_id = "cust-balanced-000" }
      ∷ record { sequence = 1; customer_id = "cust-balanced-001" }
      ∷ record { sequence = 2; customer_id = "cust-balanced-002" }
      ∷ [];
}

abbrev pub hot : SkewScenario
hot = record {
  name = "hot_key";
  records =
      record { sequence = 0; customer_id = "cust-hot-001" }
      ∷ record { sequence = 1; customer_id = "cust-hot-001" }
      ∷ record { sequence = 2; customer_id = "cust-cold-000" }
      ∷ [];
}

pub scenarios : build_reference_scenarios (pos 3) share ≡ ok (balanced, hot)
unfolding build_reference_scenarios scenarios_of balanced_records hot_records three_digits decimal
scenarios = refl

hot_key_undivided_example :
    (length balanced.records ≡ pos_part (pos 3))
    × (length hot.records ≡ pos_part (pos 3))
    × (s : ScenarioSummary) × (summarize_scenario utf8 crc32 balanced (pos 2) none ≡ ok s)
    × (t : ScenarioSummary) × (summarize_scenario utf8 crc32 hot (pos 2) none ≡ ok t)
    × (pos_part (share.round_of (pos 3)) ≤ t.max_partition_share.0)
hot_key_undivided_example = hot_key_undivided utf8 crc32 (pos 3) share balanced hot 1 scenarios

abbrev no_errors : List String
no_errors = []

abbrev none_left : ℕ
none_left = 0

abbrev reports : List (String × List (Option ℤ))
reports = ("hot_key", some (pos 1) ∷ some (pos 1) ∷ []) ∷ []

abbrev partitions : List (String × List ℤ)
partitions = ("hot_key", pos 1 ∷ pos 1 ∷ []) ∷ []

complete-ok_iff_example :
    (complete no_errors none_left reports ≡ ok partitions)
    ↔ ((no_errors ≡ []) × (none_left ≡ 0) × (reports ≡ map reported partitions))
complete-ok_iff_example = complete-ok_iff no_errors none_left reports partitions

abbrev pub skew_record : SkewRecord
skew_record = record { sequence = 0; customer_id = "C-1" }

abbrev skew_event : Fields
skew_event =
    draft_event (record_draft "hot_key" skew_record utc_new_year) "2026-01-01T00:00:00.000Z"

skew_event_built : event_for_record iso "hot_key" skew_record new_year ≡ ok skew_event
unfolding event_for_record event_time_of four_digits decimal build_transaction_event raise_errors
    format_event_time validate_transaction_event event_errors get is_blank contains String-discrete
    parse_event_time parse_event_text aware_to_utc astimezone_utc event_time_errors is_filled_text
    id_errors amount_errors membership_errors payload_errors section_errors ends_with_z drop_last
    replace_utc
skew_event_built = refl

event_for_record-ok_iff_example :
    (event_for_record iso "hot_key" skew_record new_year ≡ ok skew_event) ↔ (
      (new_year + skew_record.sequence * 1000 < datetime_range)
      × (skew_event
          ≡ skew_fields iso "hot_key" skew_record (new_year + skew_record.sequence * 1000))
      × (read (four_digits skew_record.sequence) 0 ≡ skew_record.sequence)
      × IsTransaction iso skew_event)
event_for_record-ok_iff_example =
    event_for_record-ok_iff iso "hot_key" skew_record new_year skew_event
