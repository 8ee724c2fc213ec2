-- ===== src/Alerts/Build.antt =====
-- When src/pipeline/alerts.py emits an alert, and what the alert holds.
use streaming_fpuna_proyecto.Base.{
  ℕ, zero, suc, ◌+◌, ◌≤◌, ◌<◌, String, ◌≡◌, refl, sym, ap, ◌∙◌, ◌↔◌, ◌⊎◌, inl, inr, true, false,
  none, some, List, [], ◌∷◌, arith, Bool-cases,
}
use streaming_fpuna_proyecto.Base.Int.{ℤ, pos, pos_part, neg_part, leb_ℤ}
use streaming_fpuna_proyecto.Python.{ok, >>=-eq-ok, error_if}
use streaming_fpuna_proyecto.Python.Value.{Fields, get}
use streaming_fpuna_proyecto.Python.Codec.{Iso8601}
use streaming_fpuna_proyecto.Alerts.{
  Rule, Pane, triggered_conditions, alert_fields, require_non_negative_int, iso_utc,
  velocity_alert_key, make_alert, alert_if_triggered, alert_of_totals, build_velocity_alert,
}

-- the threshold is at most the number
abbrev pub Reaches : ℤ → ℕ → Type 0
Reaches threshold n = pos_part threshold ≤ n + neg_part threshold

Reaches-cases :
    (threshold : ℤ) (n : ℕ)
    → ((leb_ℤ threshold (pos n) ≡ true) × Reaches threshold n)
      ⊎ ((leb_ℤ threshold (pos n) ≡ false) × (¬ Reaches threshold n))
Reaches-cases threshold n = elim (Bool-cases (leb_ℤ threshold (pos n))) [
  | inl e ↦ inl (e, ground arith)
  | inr e ↦ inr (e, ground arith)
]

-- the counts that make an alert: both positive, and one of them at its threshold
pub record Fires (rule : Rule) (count total : ℕ) : Type 0 where
  pub count_positive : 0 < count
  pub total_positive : 0 < total
  pub reached : Reaches rule.count_threshold count ⊎ Reaches rule.amount_threshold total

-- the counts that make none: the neutral state, or both positive and below the thresholds
abbrev pub IsQuiet : Rule → ℕ → ℕ → Type 0
IsQuiet rule count total =
    ((count ≡ 0) × (total ≡ 0))
    ⊎ ((0 < count)
        × (0 < total)
        × (¬ Reaches rule.count_threshold count)
        × (¬ Reaches rule.amount_threshold total))

-- the alert that the counts make, under its key and with the texts of its window
pub record IsAlert (iso : Iso8601) (rule : Rule) (customer_id : String) (count total : ℕ)
    (start finish : ℤ) (pane : Pane) (alert : Fields) : Type 0 where
  pub fires : Fires rule count total
  pub key : String
  pub window_start : String
  pub window_end : String
  pub is_key : velocity_alert_key customer_id start finish ≡ ok key
  pub is_start : iso_utc iso start ≡ ok window_start
  pub is_end : iso_utc iso finish ≡ ok window_end
  pub is_alert :
      alert
      ≡ alert_fields key customer_id window_start window_end count total rule
          (triggered_conditions rule count total)
          pane

triggered-cases :
    (rule : Rule) (count total : ℕ)
    → ((c : String) × (cs : List String) × (triggered_conditions rule count total ≡ c ∷ cs)
        × (Reaches rule.count_threshold count ⊎ Reaches rule.amount_threshold total))
      ⊎ ((triggered_conditions rule count total ≡ [])
          × (¬ Reaches rule.count_threshold count)
          × (¬ Reaches rule.amount_threshold total))
triggered-cases rule count total = elim (Reaches-cases rule.count_threshold count) [
  | inl (e, r) ↦
      let rest = error_if (leb_ℤ rule.amount_threshold (pos total)) "total_amount" in
      inl ("transaction_count", rest, rw e refl, inl r)
  | inr (e, low) ↦ elim (Reaches-cases rule.amount_threshold total) [
    | inl (f, r) ↦ inl ("total_amount", [], rw (e, f) refl, inr r)
    | inr (f, low') ↦ inr (rw (e, f) refl, low, low')
  ]
]

module _ (iso : Iso8601) (rule : Rule) (customer_id : String) (start finish : ℤ) (pane : Pane) where
  make_alert-parts :
      (count total : ℕ) (conditions : List String) {alert : Fields}
      → make_alert iso rule customer_id count total conditions start finish pane ≡ ok (some alert)
      → (key : String) × (window_start : String) × (window_end : String) × (velocity_alert_key
            customer_id start finish
          ≡ ok key)
        × (iso_utc iso start ≡ ok window_start)
        × (iso_utc iso finish ≡ ok window_end)
        × (alert
            ≡ alert_fields key customer_id window_start window_end count total rule conditions pane)
  unfolding make_alert
  make_alert-parts count total conditions h =
      let (key, is_key, h₁) = >>=-eq-ok (velocity_alert_key customer_id start finish) h in
      let (window_start, is_start, h₂) = >>=-eq-ok (iso_utc iso start) h₁ in
      let (window_end, is_end, h₃) = >>=-eq-ok (iso_utc iso finish) h₂ in
      (key, window_start, window_end, is_key, is_start, is_end, cc)

  make_alert-ne-none :
      (count total : ℕ) (conditions : List String)
      → make_alert iso rule customer_id count total conditions start finish pane ≡ ok none
      → ⊥
  unfolding make_alert
  make_alert-ne-none count total conditions h =
      let (_, _, h₁) = >>=-eq-ok (velocity_alert_key customer_id start finish) h in
      let (_, _, h₂) = >>=-eq-ok (iso_utc iso start) h₁ in
      let (_, _, h₃) = >>=-eq-ok (iso_utc iso finish) h₂ in cc

  make_alert-ok :
      (count total : ℕ) (conditions : List String) (key window_start window_end : String)
      → velocity_alert_key customer_id start finish ≡ ok key
      → iso_utc iso start ≡ ok window_start
      → iso_utc iso finish ≡ ok window_end
      → make_alert iso rule customer_id count total conditions start finish pane
        ≡ ok (
            some (
              alert_fields key customer_id window_start window_end count total rule conditions
                pane))
  unfolding make_alert
  make_alert-ok count total conditions key window_start window_end k s f = rw (k, s, f) refl

  IsAlert-some :
      (count total : ℕ) {alert : Fields}
      → alert_of_totals iso rule customer_id count total start finish pane ≡ ok (some alert)
      → IsAlert iso rule customer_id count total start finish pane alert
  unfolding alert_of_totals alert_if_triggered
  IsAlert-some zero zero h = cc
  IsAlert-some zero (suc t) h = cc
  IsAlert-some (suc n) zero h = cc
  IsAlert-some (suc n) (suc t) h = elim (triggered-cases rule (suc n) (suc t)) [
    | inr (no_condition, _, _) ↦ absurd (ground (arith, no_condition))
    | inl (c, cs, conditions, reached) ↦
        let (key, window_start, window_end, is_key, is_start, is_end, is_alert) =
          make_alert-parts (suc n) (suc t) (c ∷ cs) (rw conditions at h) in
        record {
          fires = record {
            count_positive = omega arith;
            total_positive = omega arith;
            reached = reached;
          };
          key = key;
          window_start = window_start;
          window_end = window_end;
          is_key = is_key;
          is_start = is_start;
          is_end = is_end;
          is_alert = rw conditions is_alert;
        }
  ]

  alert-of_IsAlert :
      (count total : ℕ) {alert : Fields}
      → IsAlert iso rule customer_id count total start finish pane alert
      → alert_of_totals iso rule customer_id count total start finish pane ≡ ok (some alert)
  unfolding alert_of_totals alert_if_triggered
  alert-of_IsAlert zero total a = absurd (omega arith)
  alert-of_IsAlert (suc n) zero a = absurd (omega arith)
  alert-of_IsAlert (suc n) (suc t) a = elim (triggered-cases rule (suc n) (suc t)) [
    | inr (_, low, low') ↦ absurd (ground arith)
    | inl (c, cs, conditions, _) ↦
        rw (conditions, alert_if_triggered)
          (make_alert-ok (suc n) (suc t) (c ∷ cs) a.key a.window_start a.window_end a.is_key
              a.is_start a.is_end
            ∙ ap (λ x. ok (some x)) (sym (rw conditions at a.is_alert)))
  ]

  alert-none :
      (count total : ℕ)
      → (alert_of_totals iso rule customer_id count total start finish pane ≡ ok none)
        ↔ IsQuiet rule count total
  unfolding alert_of_totals alert_if_triggered
  alert-none zero zero = (λ h. inl (refl, refl), λ q. refl)
  alert-none zero (suc t) = (λ h. absurd (cc), λ q. absurd (ground arith))
  alert-none (suc n) zero = (λ h. absurd (cc), λ q. absurd (ground arith))
  alert-none (suc n) (suc t) = elim (triggered-cases rule (suc n) (suc t)) [
    | inr (no_condition, low, low') ↦ (
      λ h. inr (omega arith, omega arith, low, low'),
      λ q. rw (no_condition, alert_if_triggered) refl,
    )
    | inl (c, cs, conditions, reached) ↦ (
      λ h. absurd (make_alert-ne-none (suc n) (suc t) (c ∷ cs) (rw conditions at h)),
      λ q. absurd (ground arith),
    )
  ]

  -- For an aggregate whose count and total are whole numbers and not negative, an alert is returned
  -- exactly when both are positive, one of them is at least at its threshold, the customer and the window
  -- have a key, and both bounds of the window can be written as dates. It is the alert of those counts:
  -- under that key, with exactly the conditions that hold.
  pub build-some_iff :
      (aggregate : Fields) (count total : ℕ) (alert : Fields)
      → require_non_negative_int "transaction_count" (get aggregate "transaction_count") ≡ ok count
      → require_non_negative_int "total_amount" (get aggregate "total_amount") ≡ ok total
      → (build_velocity_alert iso rule customer_id aggregate start finish pane ≡ ok (some alert))
        ↔ IsAlert iso rule customer_id count total start finish pane alert
  unfolding build_velocity_alert
  build-some_iff aggregate count total alert c t =
      rw (c, t) (IsAlert-some count total, alert-of_IsAlert count total)

  -- For an aggregate whose count and total are whole numbers and not negative, no alert and no error
  -- comes out exactly when both are zero, or both are positive and below their thresholds.
  pub build-none_iff :
      (aggregate : Fields) (count total : ℕ)
      → require_non_negative_int "transaction_count" (get aggregate "transaction_count") ≡ ok count
      → require_non_negative_int "total_amount" (get aggregate "total_amount") ≡ ok total
      → (build_velocity_alert iso rule customer_id aggregate start finish pane ≡ ok none)
        ↔ IsQuiet rule count total
  unfolding build_velocity_alert
  build-none_iff aggregate count total c t = rw (c, t) (alert-none count total)
