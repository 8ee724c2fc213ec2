-- ===== src/Producer/Publish.antt =====
-- The publication of a scenario by src/producer/synthetic_producer.py.
use streaming_fpuna_proyecto.Base.{
  String, ◌≡◌, refl, sym, ap, ◌∙◌, ◌↔◌, subst, some, List, [], ◌∷◌, ◌++◌, map, All, arith,
  append-eq-nil,
}
use streaming_fpuna_proyecto.Python.{ok, >>=-eq-ok, >>-eq-ok, ok-injective}
use streaming_fpuna_proyecto.Python.Value.{object, get_item_of_get}
use streaming_fpuna_proyecto.Python.Codec.{Utf8, Json, Iso8601}
use streaming_fpuna_proyecto.Contract.Spec.{parses, IsTransaction}
use streaming_fpuna_proyecto.Contract.Events.{encode-ok_iff, key_of_transaction}
use streaming_fpuna_proyecto.Base.Int.{sub_ℕ}
use streaming_fpuna_proyecto.Ingestion.{epoch, timestamp}
use streaming_fpuna_proyecto.Producer.Millis.{IsMillis, milliseconds-IsMillis}
use streaming_fpuna_proyecto.Ingestion.Reading.{time-ne-null}
use streaming_fpuna_proyecto.Producer.{
  ScenarioEvent, Sent, Broker, milliseconds, sent_of, produce_to, publish_events, flush_errors,
  raise_delivery_errors, publish_scenario,
}

module _ (utf8 : Utf8) (json : Json) (iso : Iso8601) where
  -- an item whose event is a transaction of the contract
  pub record Publishable : Type 0 where
    pub item : ScenarioEvent
    pub transaction : IsTransaction iso item.event

  abbrev pub items : List Publishable → List ScenarioEvent
  items = map (λ x. x.item)

  -- what is due to be sent for an item
  abbrev pub due : Publishable → Sent utf8
  due x = record {
    key = utf8.encode x.transaction.customer_id.content;
    value = utf8.encode (json.dumps (object x.item.event));
    timestamp_ms = milliseconds (timestamp x.transaction.instant);
  }

  abbrev pub all_due : List Publishable → List (Sent utf8)
  all_due = map due

  abbrev pub Takes : Broker utf8 → List (Sent utf8) → Type 0
  Takes broker = All (λ s. broker.produce s ≡ ok tt)

  -- the timestamps are those of the instants, from the epoch
  abbrev pub AreTimed : List Publishable → List (Sent utf8) → Type 0
  AreTimed [] [] = Unit
  AreTimed (x ∷ xs) (s ∷ sent) =
      IsMillis (sub_ℕ x.transaction.instant epoch) s.timestamp_ms × AreTimed xs sent
  AreTimed _ _ = ⊥

  all_due-AreTimed : (xs : List Publishable) → AreTimed xs (all_due xs)
  all_due-AreTimed [] = tt
  all_due-AreTimed (x ∷ xs) =
      (milliseconds-IsMillis (timestamp x.transaction.instant), all_due-AreTimed xs)

  sent_of-due : (x : Publishable) → sent_of utf8 json iso x.item.event ≡ ok (due x)
  unfolding sent_of
  sent_of-due x =
      let event = x.item.event in
      let t = x.transaction in
      let encoded = (encode-ok_iff iso utf8 json event _).1 (t, refl) in
      let found = get_item_of_get event "event_time" (time-ne-null iso _ _ (parses iso event t)) in
      rw (key_of_transaction iso utf8 json event t)
        (rw encoded (rw found (rw (parses iso event t) refl)))

  publish_events-due :
      (broker : Broker utf8) (xs : List Publishable)
      → Takes broker (all_due xs)
      → publish_events utf8 json iso (some broker) (items xs) ≡ ok (all_due xs)
  unfolding publish_events
  publish_events-due broker [] h = refl
  publish_events-due broker (x ∷ xs) (taken, h) =
      rw (sent_of-due x) (rw taken (rw (publish_events-due broker xs h) refl))

  publish_events-taken :
      (broker : Broker utf8) (xs : List Publishable) (sent : List (Sent utf8))
      → publish_events utf8 json iso (some broker) (items xs) ≡ ok sent
      → (all_due xs ≡ sent) × Takes broker (all_due xs)
  unfolding publish_events
  publish_events-taken broker [] sent h = (ok-injective h, tt)
  publish_events-taken broker (x ∷ xs) sent h =
      let (r, is_r, h₁) = >>=-eq-ok (sent_of utf8 json iso x.item.event) h in
      let same_r : r ≡ due x = ok-injective (sym is_r ∙ sent_of-due x) in
      let (handed, is_handed, h₂) = >>=-eq-ok (produce_to utf8 json iso (some broker) r) h₁ in
      let (taken, one) = >>-eq-ok (broker.produce r) is_handed in
      let (rest, is_rest, h₃) =
        >>=-eq-ok (publish_events utf8 json iso (some broker) (items xs)) h₂ in
      let (same_rest, all_taken) = publish_events-taken broker xs rest is_rest in
      (
        rw (same_rest, sym same_r) (ap (λ l. l ++ rest) (ok-injective one) ∙ ok-injective h₃),
        (subst (λ s. broker.produce s ≡ ok tt) same_r taken, all_taken),
      )

  raise-ok : (es : List String) → raise_delivery_errors utf8 json iso es ≡ ok tt → es ≡ []
  raise-ok [] h = refl
  raise-ok (e ∷ es) h = cc

  flush-nil :
      (broker : Broker utf8)
      → flush_errors utf8 json iso (some broker) ≡ []
      → (broker.delivery_errors ≡ []) × (broker.remaining ≡ 0)
  flush-nil broker h =
      let (no_errors, none_left) = append-eq-nil _ _ h in (no_errors, ground (arith, none_left))

  -- The publication of events that are transactions of the contract returns exactly when the producer
  -- takes every record, no delivery reports an error, and none is left after the flush. It has then
  -- handed over one record for each event, in order: the customer as the key, the JSON text as the
  -- value, and the whole milliseconds from the epoch to the instant of the event as the timestamp.
  pub publish-ok_iff :
      (broker : Broker utf8) (xs : List Publishable) (sent : List (Sent utf8))
      → (publish_scenario utf8 json iso (some broker) (items xs) ≡ ok sent) ↔ (
          (all_due xs ≡ sent)
          × AreTimed xs sent
          × Takes broker (all_due xs)
          × (broker.delivery_errors ≡ [])
          × (broker.remaining ≡ 0))
  unfolding publish_scenario
  publish-ok_iff broker xs sent = (
    λ h.
        let (sent', is_sent, h₁) =
          >>=-eq-ok (publish_events utf8 json iso (some broker) (items xs)) h in
        let (quiet, h₂) =
          >>-eq-ok (raise_delivery_errors utf8 json iso (flush_errors utf8 json iso (some broker)))
            h₁ in
        let (same, taken) = publish_events-taken broker xs sent' is_sent in
        let (no_errors, none_left) = flush-nil broker (raise-ok _ quiet) in
        (
          same ∙ ok-injective h₂,
          subst (AreTimed xs) (same ∙ ok-injective h₂) (all_due-AreTimed xs),
          taken,
          no_errors,
          none_left,
        ),
    λ (same, _, taken, no_errors, none_left).
        rw (publish_events-due broker xs taken) (rw (no_errors, none_left) (ap ok same)),
  )
