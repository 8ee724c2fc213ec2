-- ===== src/Aggregation/Amount.antt =====
-- The steps of src/pipeline/ that read an event which the validator accepted.
use streaming_fpuna_proyecto.Base.{
  if◌then◌else◌, none, some, true, false, suc, String, ◌≡◌, refl, sym, ◌∙◌, ap, ◌↔◌, ◌⊎◌, inl, inr,
  Bool, arith, ◌<◌, ◌≤◌,
}
use streaming_fpuna_proyecto.Base.Int.{ℤ, pos_part, neg_part}
use streaming_fpuna_proyecto.Python.{Exception, ok, ok-injective, raise}
use streaming_fpuna_proyecto.Python.Value.{
  Value, boolean, text, Fields, get, get_item, get_item_of_get,
}
use streaming_fpuna_proyecto.Python.Codec.{Iso8601}
use streaming_fpuna_proyecto.Contract.Spec.{IsTransaction}
use streaming_fpuna_proyecto.Dedup.{key_by_customer_id, event_id_of}
use streaming_fpuna_proyecto.Aggregation.{
  amount_by_customer, payload_amount, checked_amount, WindowPolicy, Windowing, after_watermark,
  window_velocity_events, trigger_of, firing_flag,
}

pub get_item-text :
    (event : Fields) (name s : String) → get event name ≡ text s → get_item event name ≡ ok (text s)
get_item-text event name s e = get_item_of_get event name (λ missing. cc) ∙ ap ok e

module _ (iso : Iso8601) (event : Fields) (t : IsTransaction iso event) where
  -- A transaction of the contract passes every later step that reads it: it is keyed by its customer,
  -- it has a text for its identifier, and its amount is the positive one of its payload, under any
  -- customer that is not blank.
  pub transaction_reads :
      (key_by_customer_id event ≡ ok (t.customer_id.content, event))
      × (event_id_of event ≡ ok t.event_id.content)
      × (amount_by_customer (t.customer_id.content, event)
          ≡ ok (t.customer_id.content, suc t.payload_valid.amount.below))
  unfolding key_by_customer_id event_id_of amount_by_customer payload_amount checked_amount
  transaction_reads = (
    rw (get_item-text event "customer_id" _ t.customer_id.is_content) refl,
    rw (get_item-text event "event_id" _ t.event_id.is_content) refl,
    rw (t.customer_id.filled, t.is_payload) (rw (t.payload_valid.amount.is_amount) refl),
  )

-- the policies that the constructor accepts
pub record IsPolicy (p : WindowPolicy) : Type 0 where
  pub period_positive : 0 < pos_part p.window_period_seconds
  pub period_fits : pos_part p.window_period_seconds ≤ pos_part p.window_size_seconds
  pub lateness : neg_part p.allowed_lateness_seconds ≡ 0
  pub delay_positive : 0 < pos_part p.early_firing_delay_seconds
  pub enabled : Bool
  pub is_flag : p.enable_processing_time_early_firings ≡ boolean enabled

-- what an accepted policy hands to Beam: one late firing for every element, and early firings after the
-- delay exactly if they are enabled
abbrev pub windowing : WindowPolicy → Bool → Windowing
windowing p enabled = record {
  size = p.window_size_seconds;
  period = p.window_period_seconds;
  trigger =
      if enabled
      then after_watermark (some p.early_firing_delay_seconds) 1
      else after_watermark none 1;
  allowed_lateness = p.allowed_lateness_seconds;
}

flag-cases :
    (v : Value) → ((b : Bool) × (v ≡ boolean b)) ⊎ ((e : Exception) × (firing_flag v ≡ raise e))
flag-cases (boolean b) = inl (b, refl)
flag-cases _ = inr (_, refl)

IsPolicy-of_ok : (p : WindowPolicy) {w : Windowing} → window_velocity_events p ≡ ok w → IsPolicy p
unfolding window_velocity_events
IsPolicy-of_ok p h = elim (flag-cases p.enable_processing_time_early_firings) [
  | inl (b, e) ↦ record {
    period_positive = ground arith;
    period_fits = ground arith;
    lateness = ground arith;
    delay_positive = ground arith;
    enabled = b;
    is_flag = e;
  }
  | inr (x, e) ↦ absurd (ground arith)
]

trigger_of-eq :
    (enabled : Bool) (delay : ℤ)
    → trigger_of enabled delay
      ≡ (if enabled then after_watermark (some delay) 1 else after_watermark none 1)
trigger_of-eq true delay = refl
trigger_of-eq false delay = refl

ok_of_IsPolicy :
    (p : WindowPolicy) (v : IsPolicy p) → window_velocity_events p ≡ ok (windowing p v.enabled)
unfolding window_velocity_events
ok_of_IsPolicy p v =
    rw v.is_flag (ground (arith, trigger_of-eq v.enabled p.early_firing_delay_seconds))

-- A window policy is accepted exactly when the period is positive and at most the size, the lateness
-- is not negative, the delay is positive and the flag is a Boolean. What is handed to Beam then has
-- the same size, period and lateness, fires late for every element, and early exactly if the flag says so.
pub IsPolicy-ok_iff :
    (p : WindowPolicy) (w : Windowing)
    → (window_velocity_events p ≡ ok w) ↔ ((v : IsPolicy p) × (w ≡ windowing p v.enabled))
IsPolicy-ok_iff p w = (
  λ h. let v = IsPolicy-of_ok p h in (v, ok-injective (sym h ∙ ok_of_IsPolicy p v)),
  λ (v, e). ok_of_IsPolicy p v ∙ ap ok (sym e),
)
