-- ===== src/Pipeline/Emitted.antt =====
-- The alerts that src/pipeline/alerts.py emits for the counts and totals of a window, in their order.
use streaming_fpuna_proyecto.Base.{
  ℕ, String, ◌≡◌, refl, sym, ap, ◌∙◌, ◌↔◌, inl, inr, Option, none, some, Option-cases, List, [],
  ◌∷◌, arith, ◌<◌, ◌⊎◌, subst,
}
use streaming_fpuna_proyecto.Base.Int.{ℤ, pos, pos_part, leb_ℤ}
use streaming_fpuna_proyecto.Python.{Result, ok, >>=-eq-ok, ok-injective, raise_if-ok, >>-eq-ok}
use streaming_fpuna_proyecto.Python.Value.{Value, text, Fields, get_item}
use streaming_fpuna_proyecto.Python.Codec.{Iso8601}
use streaming_fpuna_proyecto.Dedup.{Window}
use streaming_fpuna_proyecto.Aggregation.{extract_output}
use streaming_fpuna_proyecto.Aggregation.Keyed.{Entry, aggregates_of}
use streaming_fpuna_proyecto.Alerts
use streaming_fpuna_proyecto.Alerts.{
  Rule, Pane, triggered_conditions, build_velocity_alert, keyed, process_aggregate, millis,
}
use streaming_fpuna_proyecto.Alerts.Build.{IsAlert, IsQuiet, build-some_iff, build-none_iff}
use streaming_fpuna_proyecto.Alerts.Revisions.{yield_to, revise, create_velocity_alerts}
use streaming_fpuna_proyecto.Pipeline.OneWindow.{extract_output-fields}
use streaming_fpuna_proyecto.Pipeline.Handover.{alert_key_field}

abbrev pub rule_of : ℤ → ℤ → Rule
rule_of count_threshold amount_threshold = record {
  count_threshold = count_threshold;
  amount_threshold = amount_threshold;
}

module _ (iso : Iso8601) (window : Window) (pane_of : String → Pane) where
  abbrev AlertFor : Rule → String → ℕ → ℕ → Fields → Type 0
  AlertFor rule c count total alert =
      IsAlert iso rule c count total (millis window.start) (millis window.finish) (pane_of c) alert

  -- the alerts that a rule makes of the entries, in their order
  pub data Revised (rule : Rule) : List Entry → List (Value × Fields) → Type 0 where
    none_left : Revised rule [] []
    quiet :
        {c : String} {count total : ℕ} {entries : List Entry} {outs : List (Value × Fields)}
        → IsQuiet rule count total
        → Revised rule entries outs
        → Revised rule ((c, (count, total)) ∷ entries) outs
    fired :
        {c : String} {count total : ℕ} {alert : Fields} {entries : List Entry}
        {outs : List (Value × Fields)} (a : AlertFor rule c count total alert)
        → Revised rule entries outs
        → Revised rule ((c, (count, total)) ∷ entries) ((text a.key, alert) ∷ outs)

  module _ (rule : Rule) (c : String) (count total : ℕ) where
    abbrev built : Result (Option Fields)
    built =
        build_velocity_alert iso rule c (extract_output (count, total)) (millis window.start)
          (millis window.finish) (pane_of c)

    abbrev step : Result (Option (Value × Fields))
    step = process_aggregate iso rule (c, extract_output (count, total)) window (pane_of c)

    built-IsQuiet : (built ≡ ok none) ↔ IsQuiet rule count total
    built-IsQuiet =
        let (is_count, is_total) = extract_output-fields count total in
        build-none_iff iso rule c (millis window.start) (millis window.finish) (pane_of c) _ count
          total is_count is_total

    built-fired : (alert : Fields) → (built ≡ ok (some alert)) ↔ AlertFor rule c count total alert
    built-fired alert =
        let (is_count, is_total) = extract_output-fields count total in
        build-some_iff iso rule c (millis window.start) (millis window.finish) (pane_of c) _ count
          total alert is_count is_total

    key_of_alert :
        (alert : Fields) (a : AlertFor rule c count total alert)
        → get_item alert "idempotency_key" ≡ ok (text a.key)
    key_of_alert alert a =
        let (_, item, _) =
          alert_key_field a.key c a.window_start a.window_end count total rule
            (triggered_conditions rule count total) (pane_of c) in
        ap (λ f. get_item f "idempotency_key") a.is_alert ∙ item

    step-quiet : IsQuiet rule count total → step ≡ ok none
    unfolding process_aggregate keyed
    step-quiet q = rw (built-IsQuiet.1 q) refl

    step-fired :
        (alert : Fields) (a : AlertFor rule c count total alert)
        → step ≡ ok (some (text a.key, alert))
    unfolding process_aggregate keyed
    step-fired alert a = rw ((built-fired alert).1 a) (rw (key_of_alert alert a) refl)

    -- what the step returned
    step-cases :
        (out : Option (Value × Fields))
        → step ≡ ok out
        → ((out ≡ none) × IsQuiet rule count total)
          ⊎ ((alert : Fields) × (a : AlertFor rule c count total alert) × (out
                ≡ some (text a.key, alert)))
    unfolding process_aggregate
    step-cases out h =
        let (made, is_made, kept) = >>=-eq-ok built h in
        elim (Option-cases made) [
          | inl nothing ↦
              let q = built-IsQuiet.0 (is_made ∙ ap ok nothing) in
              inl (ok-injective (sym h ∙ step-quiet q), q)
          | inr (alert, something) ↦
              let a = (built-fired alert).0 (is_made ∙ ap ok something) in
              inr (alert, a, ok-injective (sym h ∙ step-fired alert a))
        ]

  Revised-of_ok :
      (rule : Rule) (entries : List Entry) (outs : List (Value × Fields))
      → revise iso window pane_of rule (aggregates_of entries) ≡ ok outs
      → Revised rule entries outs
  unfolding revise
  Revised-of_ok rule [] outs h = subst (Revised rule []) (ok-injective h) none_left
  Revised-of_ok rule ((c, (count, total)) ∷ entries) outs h =
      let (out, is_out, h₁) = >>=-eq-ok (step rule c count total) h in
      let (rest, is_rest, last) =
        >>=-eq-ok (revise iso window pane_of rule (aggregates_of entries)) h₁ in
      let later = Revised-of_ok rule entries rest is_rest in
      let same : yield_to out rest ≡ outs = ok-injective last in
      elim (step-cases rule c count total out is_out) [
        | inl (nothing, q) ↦
            subst (Revised rule ((c, (count, total)) ∷ entries))
              (ap (λ o. yield_to o rest) (sym nothing) ∙ same) (quiet q later)
        | inr (alert, a, something) ↦
            subst (Revised rule ((c, (count, total)) ∷ entries))
              (ap (λ o. yield_to o rest) (sym something) ∙ same) (fired a later)
      ]

  ok_of_Revised :
      (rule : Rule) (entries : List Entry) (outs : List (Value × Fields))
      → Revised rule entries outs
      → revise iso window pane_of rule (aggregates_of entries) ≡ ok outs
  unfolding revise
  ok_of_Revised rule _ _ none_left = refl
  ok_of_Revised rule _ _ (quiet {c} {count} {total} {entries} {outs} q later) =
      rw (step-quiet rule c count total q) (rw (ok_of_Revised rule entries outs later) refl)
  ok_of_Revised rule _ _ (fired {c} {count} {total} {alert} {entries} {outs} a later) =
      rw (step-fired rule c count total alert a) (rw (ok_of_Revised rule entries outs later) refl)

  init-positive :
      (count_threshold amount_threshold : ℤ) (rule : Rule)
      → Alerts.init count_threshold amount_threshold ≡ ok rule
      → (0 < pos_part count_threshold)
        × (0 < pos_part amount_threshold)
        × (rule ≡ rule_of count_threshold amount_threshold)
  unfolding Alerts.init
  init-positive count_threshold amount_threshold rule h =
      let (first, h₁) = >>-eq-ok _ h in
      let (second, last) = >>-eq-ok _ h₁ in
      let count_test = raise_if-ok (leb_ℤ count_threshold (pos 0)) _ _ first in
      let amount_test = raise_if-ok (leb_ℤ amount_threshold (pos 0)) _ _ second in
      (ground arith, ground arith, sym (ok-injective last))

  init-ok :
      (count_threshold amount_threshold : ℤ)
      → 0 < pos_part count_threshold
      → 0 < pos_part amount_threshold
      → Alerts.init count_threshold amount_threshold ≡ ok (rule_of count_threshold amount_threshold)
  unfolding Alerts.init
  init-ok count_threshold amount_threshold c a = ground arith

  -- `CreateVelocityAlerts` returns for the aggregates of some counts and totals exactly when its two
  -- thresholds are positive, and each customer's count and total are quiet, and nothing is put out for
  -- them, or fire, and the alert that they make is put out under its stable key; in the order of the
  -- aggregates.
  pub create-ok_iff :
      (count_threshold amount_threshold : ℤ) (entries : List Entry) (outs : List (Value × Fields))
      → (create_velocity_alerts iso window pane_of count_threshold amount_threshold
            (aggregates_of entries)
          ≡ ok outs)
        ↔ ((0 < pos_part count_threshold)
            × (0 < pos_part amount_threshold)
            × Revised (rule_of count_threshold amount_threshold) entries outs)
  unfolding create_velocity_alerts
  create-ok_iff count_threshold amount_threshold entries outs = (
    λ h.
        let (own, is_own, h₁) = >>=-eq-ok (Alerts.init count_threshold amount_threshold) h in
        let (rule, is_rule, h₂) =
          >>=-eq-ok (Alerts.init own.count_threshold own.amount_threshold) h₁ in
        let (c, a, own_is) = init-positive _ _ own is_own in
        let (_, _, rule_is) = init-positive _ _ rule is_rule in
        (
          c,
          a,
          subst (λ r. Revised r entries outs)
              (rule_is ∙ ap (λ r. rule_of r.count_threshold r.amount_threshold) own_is)
              (Revised-of_ok rule entries outs h₂),
        ),
    λ (c, a, r).
        rw (init-ok count_threshold amount_threshold c a)
          (rw (init-ok count_threshold amount_threshold c a) (ok_of_Revised _ entries outs r)),
  )
