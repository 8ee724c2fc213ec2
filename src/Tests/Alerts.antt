-- ===== src/Tests/Alerts.antt =====
-- The alerts of src/pipeline/alerts.py on sample aggregates.
use streaming_fpuna_proyecto.Base.{
  ℕ, String, ◌≡◌, refl, ◌↔◌, some, true, false, [], ◌∷◌, String-discrete,
}
use streaming_fpuna_proyecto.Base.Int.{pos}
use streaming_fpuna_proyecto.Base.Text.{is_blank}
use streaming_fpuna_proyecto.Base.Decimal.{decimal_ℤ}
use streaming_fpuna_proyecto.Python.{ok}
use streaming_fpuna_proyecto.Python.Value.{integer, Fields, end, field, get}
use streaming_fpuna_proyecto.Alerts.{
  Pane, early, default_rule, require_non_negative_int, velocity_alert_key, build_velocity_alert,
  alert_fields,
}
use streaming_fpuna_proyecto.Alerts.Build.{IsAlert, build-some_iff}
use streaming_fpuna_proyecto.Alerts.Key.{velocity_alert_key-injective}
use streaming_fpuna_proyecto.Tests.Samples.{iso}

abbrev pane : Pane
pane = record {
  timing = early;
  index = pos 0;
  nonspeculative_index = pos 0;
  is_first = true;
  is_last = false;
}

abbrev aggregate : ℕ → ℕ → Fields
aggregate count total =
    field "transaction_count" (integer (pos count)) (field "total_amount" (integer (pos total)) end)

abbrev alert : Fields
alert =
    alert_fields "velocity|C-1|0|60000" "C-1" "1970" "1970" 4 400 default_rule
      ("transaction_count" ∷ []) pane

count_is :
    (count total : ℕ)
    → require_non_negative_int "transaction_count" (get (aggregate count total) "transaction_count")
      ≡ ok count
unfolding require_non_negative_int get String-discrete
count_is count total = refl

total_is :
    (count total : ℕ)
    → require_non_negative_int "total_amount" (get (aggregate count total) "total_amount")
      ≡ ok total
unfolding require_non_negative_int get String-discrete
total_is count total = refl

build-some_iff_example :
    (build_velocity_alert iso default_rule "C-1" (aggregate 4 400) (pos 0) (pos 60000) pane
      ≡ ok (some alert))
    ↔ IsAlert iso default_rule "C-1" 4 400 (pos 0) (pos 60000) pane alert
build-some_iff_example =
    build-some_iff iso default_rule "C-1" (pos 0) (pos 60000) pane (aggregate 4 400) 4 400 alert
      (count_is 4 400) (total_is 4 400)

abbrev customer : String
customer = "C-1"

key_of_window : velocity_alert_key "C-1" (pos 0) (pos 60000) ≡ ok "velocity|C-1|0|60000"
unfolding velocity_alert_key is_blank decimal_ℤ
key_of_window = refl

velocity_alert_key-injective_example :
    (customer ≡ customer) × (pos 0 ≡ pos 0) × (pos 60000 ≡ pos 60000)
velocity_alert_key-injective_example =
    velocity_alert_key-injective customer customer (pos 0) (pos 60000) (pos 0) (pos 60000)
      key_of_window key_of_window
