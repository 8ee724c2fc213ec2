-- ===== src/Pipeline/Handover.antt =====
-- From src/pipeline/alerts.py over src/pipeline/streaming_pipeline.py to the consumer of
-- src/materializer/alert_consumer.py: the alerts that one emits and the other reads.
use streaming_fpuna_proyecto.Base.{
  ℕ, String, ◌≡◌, refl, sym, ap, ◌∙◌, false, Option, none, some, List, String-discrete, ==_self,
}
use streaming_fpuna_proyecto.Base.Int.{ℤ, pos}
use streaming_fpuna_proyecto.Base.Text.{is_blank}
use streaming_fpuna_proyecto.Python.{ok, >>=-eq-ok, ok-injective}
use streaming_fpuna_proyecto.Python.Value.{Value, text, integer, object, Fields, get, get_item}
use streaming_fpuna_proyecto.Python.Codec.{Utf8, Json, Iso8601}
use streaming_fpuna_proyecto.Contract.{is_filled_text}
use streaming_fpuna_proyecto.Dedup.{Window}
use streaming_fpuna_proyecto.Alerts.{
  Rule, Pane, alert_fields, triggered_conditions, require_non_negative_int, velocity_alert_key,
  build_velocity_alert, keyed, process_aggregate, millis,
}
use streaming_fpuna_proyecto.Alerts.Build.{IsAlert, build-some_iff}
use streaming_fpuna_proyecto.Alerts.Key.{is_blank-key}
use streaming_fpuna_proyecto.Materializer.{validated_candidate, validated_revision}
use streaming_fpuna_proyecto.Pipeline.{require_non_empty_text, alert_to_kafka_record, json_bytes}

-- the fields that the consumer and the encoder read
pub alert_key_field :
    (key customer_id start finish : String) (count total : ℕ) (rule : Rule)
    (conditions : List String) (pane : Pane)
    → let alert = alert_fields key customer_id start finish count total rule conditions pane in
      (get alert "idempotency_key" ≡ text key)
      × (get_item alert "idempotency_key" ≡ ok (text key))
      × (get alert "revision" ≡ integer pane.index)
unfolding get get_item String-discrete
alert_key_field key customer_id start finish count total rule conditions pane = (refl, refl, refl)

module _ (iso : Iso8601) (rule : Rule) where
  pub keyed-some :
      (built : Option Fields) {key_value : Value} {alert : Fields}
      → keyed iso rule built ≡ ok (some (key_value, alert))
      → (built ≡ some alert) × (get_item alert "idempotency_key" ≡ ok key_value)
  unfolding keyed
  keyed-some none h = cc
  keyed-some (some a) {key_value} {alert} h =
      let (v, got, e) = >>=-eq-ok (get_item a "idempotency_key") h in
      let same_key : v ≡ key_value = cc in
      let same : a ≡ alert = cc in (ap some same, rw (sym same, sym same_key) got)

  IsAlert-of_built :
      (customer_id : String) (aggregate : Fields) (start finish : ℤ) (pane : Pane) {alert : Fields}
      → build_velocity_alert iso rule customer_id aggregate start finish pane ≡ ok (some alert)
      → (count : ℕ) × (total : ℕ) × IsAlert iso rule customer_id count total start finish pane alert
  unfolding build_velocity_alert
  IsAlert-of_built customer_id aggregate start finish pane {alert} h =
      let (count, is_count, h₁) = >>=-eq-ok (require_non_negative_int "transaction_count" _) h in
      let (total, is_total, h₂) = >>=-eq-ok (require_non_negative_int "total_amount" _) h₁ in
      (
        count,
        total,
        (build-some_iff iso rule customer_id start finish pane aggregate count total alert is_count
              is_total).0
            h,
      )

module _ (utf8 : Utf8) (json : Json) (iso : Iso8601) (rule : Rule) where
  encode-ok :
      (key : String) (alert : Fields)
      → is_blank key ≡ false
      → alert_to_kafka_record utf8 json (text key, object alert)
        ≡ ok (utf8.encode key, utf8.encode (json.dumps (object alert)))
  unfolding alert_to_kafka_record require_non_empty_text is_filled_text json_bytes
  encode-ok key alert filled = rw filled refl

  candidate-ok :
      (key : String) (alert : Fields) (revision : ℕ)
      → is_blank key ≡ false
      → get alert "idempotency_key" ≡ text key
      → get alert "revision" ≡ integer (pos revision)
      → validated_candidate key (object alert) ≡ ok (alert, revision)
  unfolding validated_candidate validated_revision
  candidate-ok key alert revision filled is_key is_revision =
      rw (filled, is_key, is_revision) (rw (==_self key) refl)

  -- An alert that the step emits for a pane with a number stands under the key of its customer and its
  -- window. It is encoded under that key without an exception, and the consumer accepts it under that
  -- key, with the number of the pane as its revision.
  pub emitted-accepted :
      (customer_id : String) (aggregate : Fields) (window : Window) (pane : Pane) (revision : ℕ)
      (key_value : Value) (alert : Fields)
      → pane.index ≡ pos revision
      → process_aggregate iso rule (customer_id, aggregate) window pane
        ≡ ok (some (key_value, alert))
      → (key : String) × (key_value ≡ text key)
        × (velocity_alert_key customer_id (millis window.start) (millis window.finish) ≡ ok key)
        × (alert_to_kafka_record utf8 json (key_value, object alert)
            ≡ ok (utf8.encode key, utf8.encode (json.dumps (object alert))))
        × (validated_candidate key (object alert) ≡ ok (alert, revision))
  unfolding process_aggregate
  emitted-accepted customer_id aggregate window pane revision key_value alert numbered h =
      let (built, is_built, kept) =
        >>=-eq-ok
          (build_velocity_alert iso rule customer_id aggregate (millis window.start)
            (millis window.finish) pane)
          h in
      let (is_some, got) = keyed-some iso rule built kept in
      let (count, total, a) =
        IsAlert-of_built iso rule customer_id aggregate _ _ pane (is_built ∙ ap ok is_some) in
      let (is_key, item, is_revision) =
        alert_key_field a.key customer_id a.window_start a.window_end count total rule
          (triggered_conditions rule count total) pane in
      let filled = is_blank-key customer_id _ _ a.is_key in
      let same : key_value ≡ text a.key =
        ok-injective (sym got ∙ ap (λ f. get_item f "idempotency_key") a.is_alert ∙ item) in
      (
        a.key,
        same,
        a.is_key,
        rw same (encode-ok a.key alert filled),
        candidate-ok a.key alert revision filled
            (ap (λ f. get f "idempotency_key") a.is_alert ∙ is_key)
            (ap (λ f. get f "revision") a.is_alert ∙ is_revision ∙ ap integer numbered),
      )
