-- ===== src/Pipeline/OneWindow.antt =====
-- src/pipeline/ for one customer and one window: from the events that arrive to the alert.
use mathlib.Core.List.{Mem, Perm}
use mathlib.Core.List.Perm
use streaming_fpuna_proyecto.Base.{
  ℕ, String, ◌≡◌, refl, sym, ap, ◌∙◌, ◌↔◌, subst, Option, some, List, ◌++◌, map, length,
  String-discrete,
}
use streaming_fpuna_proyecto.Base.Int.{ℤ}
use streaming_fpuna_proyecto.Python.{Result, ok, raise, ok-injective}
use streaming_fpuna_proyecto.Python.Value.{Fields, get}
use streaming_fpuna_proyecto.Python.Codec.{Iso8601}
use streaming_fpuna_proyecto.Dedup.{Window, State, run}
use streaming_fpuna_proyecto.Dedup.Fresh.{Identified, ids, events}
use streaming_fpuna_proyecto.Dedup.Run.{run-redelivered}
use streaming_fpuna_proyecto.Aggregation.{payload_amount, extract_output}
use streaming_fpuna_proyecto.Aggregation.Merge.{
  Plan, carry_out, amounts_of, sum, totals, totals-perm, carry_out-totals, carry_out_perm,
}
use streaming_fpuna_proyecto.Alerts.{Rule, Pane, require_non_negative_int, build_velocity_alert}
use streaming_fpuna_proyecto.Alerts.Build.{IsAlert, build-some_iff}

-- the amount that the aggregation reads of an event, and 0 where it raises
abbrev pub or_zero : Result ℕ → ℕ
or_zero (ok amount) = amount
or_zero (raise e) = 0

abbrev pub amount_of : Fields → ℕ
amount_of event = or_zero (payload_amount (get event "payload"))

pub extract_output-fields :
    (count total : ℕ)
    → (require_non_negative_int "transaction_count"
          (get (extract_output (count, total)) "transaction_count")
        ≡ ok count)
      × (require_non_negative_int "total_amount"
            (get (extract_output (count, total)) "total_amount")
          ≡ ok total)
unfolding extract_output require_non_negative_int get String-discrete
extract_output-fields count total = (refl, refl)

module _ (iso : Iso8601) (rule : Rule) (customer_id : String) (start finish : ℤ) (pane : Pane) where
  -- the alert for what a plan of the runner puts out
  abbrev pub alert_of : Plan → Result (Option Fields)
  alert_of plan =
      build_velocity_alert iso rule customer_id (extract_output (carry_out plan)) start finish pane

  -- However a runner bundles the amounts of a window, and in whatever order, an alert is returned exactly
  -- when it is the alert of their number and their sum.
  pub alert_of_amounts_iff :
      (amounts : List ℕ) (plan : Plan) (alert : Fields)
      → Perm (amounts_of plan) amounts
      → (alert_of plan ≡ ok (some alert))
        ↔ IsAlert iso rule customer_id (length amounts) (sum amounts) start finish pane alert
  alert_of_amounts_iff amounts plan alert same =
      let is_totals : carry_out plan ≡ totals amounts = carry_out-totals plan ∙ totals-perm same in
      let (is_count, is_total) = extract_output-fields (length amounts) (sum amounts) in
      rw is_totals (
        build-some_iff iso rule customer_id start finish pane _ (length amounts) (sum amounts) alert
          is_count is_total)

  -- Events that are delivered again after all of them arrived do not change the outcome for the window:
  -- plans over the amounts of what deduplication yields, with and without the second delivery, in any
  -- order and any bundles, lead to the same alert, the same silence or the same exception.
  pub redelivered-alert :
      (lateness : ℕ) (window : Window) (xs ys : List Identified) (s : State)
      (out out' : List Fields) (p q : Plan)
      → ((i : String) → Mem i (ids ys) → Mem i (ids xs))
      → (run lateness window (events (xs ++ ys)) s).0 ≡ ok out'
      → (run lateness window (events xs) s).0 ≡ ok out
      → Perm (amounts_of p) (map amount_of out')
      → Perm (amounts_of q) (map amount_of out)
      → alert_of p ≡ alert_of q
  redelivered-alert lateness window xs ys s out out' p q again twice once ps qs =
      let same : out' ≡ out =
        ok-injective (sym twice ∙ (run-redelivered lateness window xs ys s again ∙ once)) in
      let all : Perm (amounts_of p) (amounts_of q) =
        Perm.trans (subst (λ l. Perm (amounts_of p) (map amount_of l)) same ps) (Perm.symm qs) in
      ap (λ aggregate. build_velocity_alert iso rule customer_id aggregate start finish pane)
        (carry_out_perm p q all)
