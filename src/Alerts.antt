-- ===== src/Alerts.antt =====
-- src/pipeline/alerts.py: the velocity alert of a customer and a window, and its stable key.
pub mod Key
pub mod Build
pub mod Revisions
use Prim.Native.String.{◌++◌ as ◌<>◌}
use streaming_fpuna_proyecto.Base.{
  ℕ, zero, suc, ◌+◌, ◌-◌, ◌*◌, String, Bool, true, false, ◌||◌, ◌&&◌, Option, none, some, List, [],
  ◌∷◌, ◌++◌, if◌then◌else◌, ltb, leb,
}
use streaming_fpuna_proyecto.Base.Int.{ℤ, pos, negsuc, pos_part, neg_part, leb_ℤ, floor_div}
use streaming_fpuna_proyecto.Base.Text.{is_blank, replace_utc}
use streaming_fpuna_proyecto.Base.Decimal.{decimal_ℤ}
use streaming_fpuna_proyecto.Python.{
  type_error, value_error, Result, ok, raise, throw, raise_if, error_if, ◌>>=◌, ◌>>◌,
}
use streaming_fpuna_proyecto.Python.Value.{
  Value, boolean, integer, floating, text, array, object, Fields, end, field, get, get_item,
}
use streaming_fpuna_proyecto.Python.Codec.{Iso8601}
use streaming_fpuna_proyecto.Contract.{datetime_range}
use streaming_fpuna_proyecto.Ingestion.{texts, epoch}
use streaming_fpuna_proyecto.Dedup.{Window}

abbrev pub transaction_count_threshold : ℤ
transaction_count_threshold = pos 4

abbrev pub total_amount_threshold : ℤ
total_amount_threshold = pos 10_000_000

-- `PaneInfoTiming`, and the names that `_PANE_TIMING_NAMES` gives
pub data PaneTiming : Type 0 where
  early on_time late unknown : PaneTiming

abbrev pub timing_name : PaneTiming → String
timing_name early = "EARLY"
timing_name on_time = "ON_TIME"
timing_name late = "LATE"
timing_name unknown = "UNKNOWN"

pub record Pane : Type 0 where
  pub timing : PaneTiming
  pub index : ℤ
  pub nonspeculative_index : ℤ
  pub is_first : Bool
  pub is_last : Bool

abbrev pub non_negative_message : String → String
non_negative_message name = name <> " must be a non-negative integer"

-- the last test of `_require_non_negative_int`
abbrev check_sign : String → ℤ → Result ℕ
check_sign name (pos n) = ok n
check_sign name (negsuc n) = throw type_error (non_negative_message name)

unfoldable pub require_non_negative_int : String → Value → Result ℕ
require_non_negative_int name (integer n) = check_sign name n
require_non_negative_int name (floating f) = elim f.whole [
  | some n ↦ check_sign name n
  | none ↦ throw type_error (non_negative_message name)
]
require_non_negative_int name _ = throw type_error (non_negative_message name)

-- `_iso_utc`: the instant of the milliseconds, if a `datetime` can hold it
unfoldable pub iso_utc : Iso8601 → ℤ → Result String
iso_utc iso millis =
    let shifted = epoch + pos_part millis * 1000 in
    let instant = shifted - neg_part millis * 1000 in
    if ltb shifted (neg_part millis * 1000) || leb datetime_range instant
    then throw value_error "year is out of range"
    else ok (replace_utc (iso.isoformat instant))

unfoldable pub velocity_alert_key : String → ℤ → ℤ → Result String
velocity_alert_key customer_id start finish = do
  raise_if (is_blank customer_id) type_error "customer_id must be a non-empty string"
  raise_if (leb_ℤ finish start) value_error "window end must be greater than window start"
  ok ("velocity|" <> (customer_id <> ("|" <> (decimal_ℤ start <> ("|" <> decimal_ℤ finish)))))

-- the thresholds of a rule
pub record Rule : Type 0 where
  pub count_threshold : ℤ
  pub amount_threshold : ℤ

abbrev pub default_rule : Rule
default_rule = record {
  count_threshold = transaction_count_threshold;
  amount_threshold = total_amount_threshold;
}

-- the two `append`s to `triggered_conditions`
abbrev pub triggered_conditions : Rule → ℕ → ℕ → List String
triggered_conditions rule count total =
    error_if (leb_ℤ rule.count_threshold (pos count)) "transaction_count"
    ++ error_if (leb_ℤ rule.amount_threshold (pos total)) "total_amount"

-- the dictionary that `build_velocity_alert` returns
abbrev pub alert_fields :
    String → String → String → String → ℕ → ℕ → Rule → List String → Pane → Fields
alert_fields alert_id customer_id start finish count total rule conditions pane =
    field "schema_version" (text "1.0") (
      field "alert_id" (text alert_id) (
        field "idempotency_key" (text alert_id) (
          field "alert_type" (text "velocity") (
            field "rule_version" (text "velocity-v1") (
              field "customer_id" (text customer_id) (
                field "window_start" (text start) (
                  field "window_end" (text finish) (
                    field "transaction_count" (integer (pos count)) (
                      field "total_amount" (integer (pos total)) (
                        field "currency" (text "PYG") (
                          field "thresholds"
                            (object (
                              field "transaction_count" (integer rule.count_threshold)
                                (field "total_amount" (integer rule.amount_threshold) end)))
                            (field "triggered_conditions" (array (texts conditions)) (
                              field "revision" (integer pane.index) (
                                field "pane_timing" (text (timing_name pane.timing)) (
                                  field "pane_nonspeculative_index"
                                    (integer pane.nonspeculative_index)
                                    (field "pane_is_first" (boolean pane.is_first) (
                                      field "pane_is_last" (boolean pane.is_last) (
                                        field "accumulation_mode" (text "ACCUMULATING")
                                          end))))))))))))))))))

module _ (iso : Iso8601) (rule : Rule) where
  -- from `alert_id = ...` on
  unfoldable pub make_alert : String → ℕ → ℕ → List String → ℤ → ℤ → Pane → Result (Option Fields)
  make_alert customer_id count total conditions start finish pane = do
    alert_id ← velocity_alert_key customer_id start finish
    window_start ← iso_utc iso start
    window_end ← iso_utc iso finish
    ok (
        some (
          alert_fields alert_id customer_id window_start window_end count total rule conditions
            pane))

  -- `if not triggered_conditions: return None`, and what follows
  unfoldable pub alert_if_triggered :
      String → ℕ → ℕ → List String → ℤ → ℤ → Pane → Result (Option Fields)
  alert_if_triggered customer_id count total [] start finish pane = ok none
  alert_if_triggered customer_id count total (c ∷ cs) start finish pane =
      make_alert customer_id count total (c ∷ cs) start finish pane

  -- from the test of the neutral state on
  unfoldable pub alert_of_totals : String → ℕ → ℕ → ℤ → ℤ → Pane → Result (Option Fields)
  alert_of_totals customer_id zero zero start finish pane = ok none
  alert_of_totals customer_id (suc count) (suc total) start finish pane =
      alert_if_triggered customer_id (suc count) (suc total)
        (triggered_conditions rule (suc count) (suc total)) start finish pane
  alert_of_totals customer_id _ _ start finish pane =
      throw value_error
        "aggregate must contain positive count and amount or the neutral state (0, 0)"

  unfoldable pub build_velocity_alert : String → Fields → ℤ → ℤ → Pane → Result (Option Fields)
  build_velocity_alert customer_id aggregate start finish pane = do
    transaction_count ←
        require_non_negative_int "transaction_count" (get aggregate "transaction_count")
    total_amount ← require_non_negative_int "total_amount" (get aggregate "total_amount")
    alert_of_totals customer_id transaction_count total_amount start finish pane

-- `BuildVelocityAlert(...)` and `CreateVelocityAlerts(...)`
unfoldable pub init : ℤ → ℤ → Result Rule
init count_threshold amount_threshold = do
  raise_if (leb_ℤ count_threshold (pos 0)) value_error
      "transaction_count_threshold must be positive"
  raise_if (leb_ℤ amount_threshold (pos 0)) value_error "total_amount_threshold must be positive"
  ok (record { count_threshold = count_threshold; amount_threshold = amount_threshold })

pub record Counters : Type 0 where
  pub alerts_emitted : ℕ
  pub below_threshold : ℕ

abbrev pub millis : ℤ → ℤ
millis micros = floor_div micros 1000

module _ (iso : Iso8601) (rule : Rule) where
  -- the branches after the call: nothing below the thresholds, and else the alert under its key
  unfoldable pub keyed : Option Fields → Result (Option (Value × Fields))
  keyed none = ok none
  keyed (some alert) = do key ← get_item alert "idempotency_key"; ok (some (key, alert))

  unfoldable pub process_aggregate :
      String × Fields → Window → Pane → Result (Option (Value × Fields))
  process_aggregate (customer_id, aggregate) window pane = do
    alert ←
        build_velocity_alert iso rule customer_id aggregate (millis window.start)
          (millis window.finish) pane
    keyed alert

  -- `process`, with its counters
  unfoldable pub process :
      Counters → String × Fields → Window → Pane → Result (Option (Value × Fields)) × Counters
  process c element window pane = elim (process_aggregate element window pane) [
    | ok none ↦ (ok none, record c { below_threshold = c.below_threshold + 1 })
    | ok (some out) ↦ (ok (some out), record c { alerts_emitted = c.alerts_emitted + 1 })
    | raise e ↦ (raise e, c)
  ]
