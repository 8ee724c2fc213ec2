-- ===== src/Aggregation.antt =====
-- src/pipeline/aggregation.py: the window policy, and the count and total for each customer and window.
pub mod Merge
pub mod Amount
pub mod Keyed
use streaming_fpuna_proyecto.Base.{
  ℕ, ◌+◌, ◌*◌, String, Bool, true, false, ◌||◌, Option, none, some, List, [], ◌∷◌, if◌then◌else◌,
}
use streaming_fpuna_proyecto.Base.Int.{ℤ, pos, ltb_ℤ, leb_ℤ}
use streaming_fpuna_proyecto.Base.Text.{is_blank}
use streaming_fpuna_proyecto.Python.{
  type_error, value_error, Result, ok, raise, throw, raise_if, ◌>>=◌, ◌>>◌,
}
use streaming_fpuna_proyecto.Python.Value.{
  Value, integer, boolean, text, object, Fields, end, field, get, positive_int,
}

-- the amount that the last two tests accept
unfoldable pub checked_amount : Value → Result ℕ
checked_amount value = elim (positive_int value) [
  | some amount ↦ ok amount
  | none ↦ throw type_error "validated amount must be a positive integer"
]

-- from `payload = event.get("payload")` on
unfoldable pub payload_amount : Value → Result ℕ
payload_amount (object payload) = checked_amount (get payload "amount")
payload_amount _ = throw type_error "validated payload must be a mapping"

unfoldable pub amount_by_customer : String × Fields → Result (String × ℕ)
amount_by_customer (customer_id, event) = do
  raise_if (is_blank customer_id) type_error "validated customer_id must be a non-empty string"
  amount ← payload_amount (get event "payload")
  ok (customer_id, amount)

-- `VelocityAccumulator`: a count and a total. The amounts are those that `amount_by_customer` accepts.
abbrev pub Accumulator : Type 0
Accumulator = ℕ × ℕ

unfoldable pub create_accumulator : Accumulator
create_accumulator = (0, 0)

unfoldable pub add_input : Accumulator → ℕ → Accumulator
add_input (transaction_count, total_amount) amount = (transaction_count + 1, total_amount + amount)

-- the loop of `merge_accumulators`, from the two sums so far
unfoldable pub merge_from : ℕ → ℕ → List Accumulator → Accumulator
merge_from transaction_count total_amount [] = (transaction_count, total_amount)
merge_from transaction_count total_amount ((partial_count, partial_total) ∷ rest) =
    merge_from (transaction_count + partial_count) (total_amount + partial_total) rest

unfoldable pub merge_accumulators : List Accumulator → Accumulator
unfolding merge_from
merge_accumulators = merge_from 0 0

unfoldable pub extract_output : Accumulator → Fields
extract_output (transaction_count, total_amount) =
    field "transaction_count" (integer (pos transaction_count))
      (field "total_amount" (integer (pos total_amount)) end)

-- the arguments of `WindowVelocityEvents`
pub record WindowPolicy : Type 0 where
  pub window_size_seconds : ℤ
  pub window_period_seconds : ℤ
  pub allowed_lateness_seconds : ℤ
  pub early_firing_delay_seconds : ℤ
  pub enable_processing_time_early_firings : Value

abbrev pub default_policy : WindowPolicy
default_policy = record {
  window_size_seconds = pos 60;
  window_period_seconds = pos 10;
  allowed_lateness_seconds = pos 30;
  early_firing_delay_seconds = pos 10;
  enable_processing_time_early_firings = boolean true;
}

-- the trigger of `expand`: early firings by processing time or none, and one late firing an element
pub data Trigger : Type 0 where
  after_watermark : Option ℤ → ℕ → Trigger

-- what `expand` hands to `beam.WindowInto`, always with `AccumulationMode.ACCUMULATING`
pub record Windowing : Type 0 where
  pub size : ℤ
  pub period : ℤ
  pub trigger : Trigger
  pub allowed_lateness : ℤ

-- the `if` of `expand`
abbrev pub trigger_of : Bool → ℤ → Trigger
trigger_of true delay = after_watermark (some delay) 1
trigger_of false delay = after_watermark none 1

abbrev pub firing_flag : Value → Result Bool
firing_flag (boolean b) = ok b
firing_flag _ = throw type_error "enable_processing_time_early_firings must be a boolean"

-- the constructor's checks, then `expand`
unfoldable pub window_velocity_events : WindowPolicy → Result Windowing
window_velocity_events p = do
  raise_if (leb_ℤ p.window_size_seconds (pos 0)) value_error "window_size_seconds must be positive"
  raise_if (leb_ℤ p.window_period_seconds (pos 0)) value_error
      "window_period_seconds must be positive"
  raise_if (ltb_ℤ p.window_size_seconds p.window_period_seconds) value_error
      "window_period_seconds must not exceed window_size_seconds"
  raise_if (ltb_ℤ p.allowed_lateness_seconds (pos 0)) value_error
      "allowed_lateness_seconds must not be negative"
  raise_if (leb_ℤ p.early_firing_delay_seconds (pos 0)) value_error
      "early_firing_delay_seconds must be positive"
  enabled ← firing_flag p.enable_processing_time_early_firings
  ok (record {
    size = p.window_size_seconds;
    period = p.window_period_seconds;
    trigger = trigger_of enabled p.early_firing_delay_seconds;
    allowed_lateness = p.allowed_lateness_seconds;
  })
