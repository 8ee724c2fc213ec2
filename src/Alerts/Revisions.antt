-- ===== src/Alerts/Revisions.antt =====
-- `CreateVelocityAlerts` of src/pipeline/alerts.py: the aggregates of a window, in a pane for each.
use streaming_fpuna_proyecto.Base.{String, Option, none, some, List, [], ◌∷◌}
use streaming_fpuna_proyecto.Base.Int.{ℤ}
use streaming_fpuna_proyecto.Python.{Result, ok, ◌>>=◌}
use streaming_fpuna_proyecto.Python.Value.{Value, Fields}
use streaming_fpuna_proyecto.Python.Codec.{Iso8601}
use streaming_fpuna_proyecto.Dedup.{Window}
use streaming_fpuna_proyecto.Alerts
use streaming_fpuna_proyecto.Alerts.{Rule, Pane, process_aggregate}

-- what a `yield`, or none, adds to the output
abbrev pub yield_to : {A : Type 0} → Option A → List A → List A
yield_to none outs = outs
yield_to (some out) outs = out ∷ outs

module _ (iso : Iso8601) (window : Window) (pane_of : String → Pane) where
  -- `beam.ParDo(BuildVelocityAlert(...))`
  unfoldable pub revise : Rule → List (String × Fields) → Result (List (Value × Fields))
  revise rule [] = ok []
  revise rule ((customer_id, aggregate) ∷ aggregates) = do
    out ← process_aggregate iso rule (customer_id, aggregate) window (pane_of customer_id)
    outs ← revise rule aggregates
    ok (yield_to out outs)

  -- the constructor, then `expand`, which constructs the step with the same thresholds
  unfoldable pub create_velocity_alerts :
      ℤ → ℤ → List (String × Fields) → Result (List (Value × Fields))
  create_velocity_alerts count_threshold amount_threshold aggregates = do
    own ← Alerts.init count_threshold amount_threshold
    rule ← Alerts.init own.count_threshold own.amount_threshold
    revise rule aggregates
