-- ===== src/Tests/OneWindow.antt =====
-- Two events of one customer and one window, delivered twice.
use mathlib.Core.List.{Perm}
use mathlib.Core.List.Perm
use streaming_fpuna_proyecto.Base.{
  ◌≡◌, refl, ◌↔◌, some, true, false, List, [], ◌∷◌, ◌++◌, map, length, contains, String-discrete,
}
use streaming_fpuna_proyecto.Base.Int.{pos}
use streaming_fpuna_proyecto.Python.{ok}
use streaming_fpuna_proyecto.Python.Value.{text, Fields, get, get_item}
use streaming_fpuna_proyecto.Dedup.{Window, fresh_state, event_id_of, accept, process, run}
use streaming_fpuna_proyecto.Dedup.Fresh.{Identified, events}
use streaming_fpuna_proyecto.Aggregation.{payload_amount, checked_amount}
use streaming_fpuna_proyecto.Aggregation.Merge.{Plan, bundle, merge, nil, cons, amounts_of, sum}
use streaming_fpuna_proyecto.Alerts.{Pane, early, default_rule, alert_fields}
use streaming_fpuna_proyecto.Alerts.Build.{IsAlert}
use streaming_fpuna_proyecto.Pipeline.OneWindow.{
  amount_of, alert_of, alert_of_amounts_iff, redelivered-alert,
}
use streaming_fpuna_proyecto.Tests.Samples.{iso, event, other_event}

abbrev window : Window
window = record { start = pos 0; finish = pos 60000000 }

abbrev pane : Pane
pane = record {
  timing = early;
  index = pos 0;
  nonspeculative_index = pos 0;
  is_first = true;
  is_last = false;
}

id_of_event : get_item event "event_id" ≡ ok (text "e-1")
unfolding get_item String-discrete
id_of_event = refl

id_of_other : get_item other_event "event_id" ≡ ok (text "e-2")
unfolding get_item String-discrete
id_of_other = refl

abbrev arrivals : List Identified
arrivals =
    record { id = "e-1"; event = event; has_id = id_of_event }
    ∷ record { id = "e-2"; event = other_event; has_id = id_of_other }
    ∷ []

abbrev yielded : List Fields
yielded = event ∷ other_event ∷ []

delivered_once : (run 30 window (events arrivals) fresh_state).0 ≡ ok yielded
unfolding run process accept event_id_of get_item contains String-discrete
delivered_once = refl

delivered_twice : (run 30 window (events (arrivals ++ arrivals)) fresh_state).0 ≡ ok yielded
unfolding run process accept event_id_of get_item contains String-discrete
delivered_twice = refl

abbrev one_bundle : Plan
one_bundle = bundle (2500000 ∷ 2500000 ∷ [])

abbrev two_bundles : Plan
two_bundles = merge (cons (bundle (2500000 ∷ [])) (cons (bundle (2500000 ∷ [])) nil))

one_bundle-Perm : Perm (amounts_of one_bundle) (map amount_of yielded)
unfolding amounts_of payload_amount checked_amount get String-discrete
one_bundle-Perm = Perm.refl _

two_bundles-Perm : Perm (amounts_of two_bundles) (map amount_of yielded)
unfolding amounts_of payload_amount checked_amount get String-discrete
two_bundles-Perm = Perm.refl _

abbrev alert : Fields
alert =
    alert_fields "velocity|C-1|0|60000" "C-1" "2026-01-01T00:00:00.000Z" "2026-01-01T00:00:00.000Z"
      2 5000000 default_rule [] pane

alert_of_amounts_iff_example :
    (alert_of iso default_rule "C-1" (pos 0) (pos 60000) pane two_bundles ≡ ok (some alert))
    ↔ IsAlert iso default_rule "C-1"
        (length (map amount_of yielded))
        (sum (map amount_of yielded))
        (pos 0)
        (pos 60000)
        pane
        alert
alert_of_amounts_iff_example =
    alert_of_amounts_iff iso default_rule "C-1" (pos 0) (pos 60000) pane (map amount_of yielded)
      two_bundles alert two_bundles-Perm

redelivered-alert_example :
    alert_of iso default_rule "C-1" (pos 0) (pos 60000) pane one_bundle
    ≡ alert_of iso default_rule "C-1" (pos 0) (pos 60000) pane two_bundles
redelivered-alert_example =
    redelivered-alert iso default_rule "C-1" (pos 0) (pos 60000) pane 30 window arrivals arrivals
      fresh_state yielded yielded one_bundle two_bundles (λ i m. m) delivered_twice delivered_once
      one_bundle-Perm two_bundles-Perm
