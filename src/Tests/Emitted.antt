-- ===== src/Tests/Emitted.antt =====
-- The counts and totals of two customers, of which one fires.
use streaming_fpuna_proyecto.Base.{
  ◌<◌, String, ◌≡◌, refl, ◌↔◌, List, [], ◌∷◌, true, false, String-discrete,
}
use streaming_fpuna_proyecto.Base.Int.{pos, pos_part, floor_div}
use streaming_fpuna_proyecto.Base.Text.{is_blank, replace_utc}
use streaming_fpuna_proyecto.Base.Decimal.{decimal_ℤ}
use streaming_fpuna_proyecto.Python.{ok}
use streaming_fpuna_proyecto.Python.Value.{Value, text, Fields, get, get_item}
use streaming_fpuna_proyecto.Dedup.{Window}
use streaming_fpuna_proyecto.Aggregation.{extract_output}
use streaming_fpuna_proyecto.Aggregation.Keyed.{Entry, aggregates_of}
use streaming_fpuna_proyecto.Alerts
use streaming_fpuna_proyecto.Alerts.{
  Pane, early, default_rule, alert_fields, require_non_negative_int, velocity_alert_key, iso_utc,
  make_alert, alert_if_triggered, alert_of_totals, build_velocity_alert, keyed, process_aggregate,
}
use streaming_fpuna_proyecto.Alerts.Revisions.{revise, create_velocity_alerts}
use streaming_fpuna_proyecto.Pipeline.Emitted.{Revised, rule_of, create-ok_iff}
use streaming_fpuna_proyecto.Tests.Samples.{iso}

abbrev window : Window
window = record { start = pos 0; finish = pos 60000000 }

abbrev pane_of : String → Pane
pane_of customer_id = record {
  timing = early;
  index = pos 0;
  nonspeculative_index = pos 0;
  is_first = true;
  is_last = false;
}

abbrev entries : List Entry
entries = ("C-1", (4, 400)) ∷ ("C-2", (1, 100)) ∷ []

abbrev alert : Fields
alert =
    alert_fields "velocity|C-1|0|60000" "C-1" "2026-01-01T00:00:00.000Z" "2026-01-01T00:00:00.000Z"
      4 400 default_rule ("transaction_count" ∷ []) (pane_of "C-1")

abbrev emitted : List (Value × Fields)
emitted = (text "velocity|C-1|0|60000", alert) ∷ []

-- only the first customer has as many as four transactions
creates :
    create_velocity_alerts iso window pane_of (pos 4) (pos 10000000) (aggregates_of entries)
    ≡ ok emitted
unfolding create_velocity_alerts revise Alerts.init extract_output process_aggregate
    build_velocity_alert alert_of_totals alert_if_triggered make_alert iso_utc velocity_alert_key
    keyed get get_item String-discrete is_blank decimal_ℤ replace_utc require_non_negative_int
    floor_div
creates = refl

create-ok_iff_example :
    (create_velocity_alerts iso window pane_of (pos 4) (pos 10000000) (aggregates_of entries)
      ≡ ok emitted)
    ↔ ((0 < pos_part (pos 4))
        × (0 < pos_part (pos 10000000))
        × Revised iso window pane_of (rule_of (pos 4) (pos 10000000)) entries emitted)
create-ok_iff_example = create-ok_iff iso window pane_of (pos 4) (pos 10000000) entries emitted
