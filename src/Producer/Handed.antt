-- ===== src/Producer/Handed.antt =====
-- What src/producer/synthetic_producer.py hands over of a demo scenario, in a dry run and else.
use streaming_fpuna_proyecto.Base.{
  ℕ, String, ◌≡◌, refl, sym, ap, ◌∙◌, subst, Option, none, some, List, [], ◌∷◌,
}
use streaming_fpuna_proyecto.Python.{ok, >>=-eq-ok, ok-injective}
use streaming_fpuna_proyecto.Python.Codec.{Utf8, Json, Iso8601}
use streaming_fpuna_proyecto.Producer.Scenario.{Row, AreMade}
use streaming_fpuna_proyecto.Producer.Publish.{
  Publishable, items, all_due, AreTimed, Takes, publish-ok_iff,
}
use streaming_fpuna_proyecto.Producer.{
  ScenarioEvent, Sent, Broker, sent_of, publish_events, publish_scenario,
}

module _ (utf8 : Utf8) (json : Json) (iso : Iso8601) where
  -- what a cycle hands over of a scenario, if it returns: nothing in a dry run, else what is due for each
  -- event, which the producer takes, delivers without an error and does not keep
  abbrev pub HandedOver : Option (Broker utf8) → List ScenarioEvent → List (Sent utf8) → Type 0
  HandedOver none scenario sent = sent ≡ []
  HandedOver (some broker) scenario sent =
      (xs : List (Publishable utf8 json iso)) × (items utf8 json iso xs ≡ scenario)
      × (all_due utf8 json iso xs ≡ sent)
      × AreTimed utf8 json iso xs sent
      × Takes utf8 json iso broker sent
      × (broker.delivery_errors ≡ [])
      × (broker.remaining ≡ 0)

  pub made_publishable :
      (base : ℕ) (run_token : String) (rows : List Row) (scenario : List ScenarioEvent)
      → AreMade iso base run_token rows scenario
      → (xs : List (Publishable utf8 json iso)) × (items utf8 json iso xs ≡ scenario)
  made_publishable base run_token [] [] made = ([], refl)
  made_publishable base run_token [] (item ∷ scenario) made = absurd made
  made_publishable base run_token (row ∷ rows) [] made = absurd made
  made_publishable base run_token (row ∷ rows) (item ∷ scenario) (m, made) =
      let (xs, same) = made_publishable base run_token rows scenario made in
      (record { item = item; transaction = m.transaction } ∷ xs, ap (λ l. item ∷ l) same)

  dry_run-nil :
      (scenario : List ScenarioEvent) (sent : List (Sent utf8))
      → publish_events utf8 json iso none scenario ≡ ok sent
      → sent ≡ []
  unfolding publish_events
  dry_run-nil [] sent h = sym (ok-injective h)
  dry_run-nil (item ∷ scenario) sent h =
      let (s, _, h₁) = >>=-eq-ok (sent_of utf8 json iso item.event) h in
      let (rest, is_rest, h₂) = >>=-eq-ok (publish_events utf8 json iso none scenario) h₁ in
      sym (ok-injective h₂) ∙ dry_run-nil scenario rest is_rest

  pub publish-HandedOver :
      (p : Option (Broker utf8)) (xs : List (Publishable utf8 json iso)) (sent : List (Sent utf8))
      → publish_scenario utf8 json iso p (items utf8 json iso xs) ≡ ok sent
      → HandedOver p (items utf8 json iso xs) sent
  unfolding publish_scenario
  publish-HandedOver none xs sent h =
      let (s, is_sent, h₁) =
        >>=-eq-ok (publish_events utf8 json iso none (items utf8 json iso xs)) h in
      sym (ok-injective h₁) ∙ dry_run-nil (items utf8 json iso xs) s is_sent
  publish-HandedOver (some broker) xs sent h =
      let (same, timed, taken, quiet, flushed) =
        (publish-ok_iff utf8 json iso broker xs sent).0 h in
      (xs, refl, same, timed, subst (Takes utf8 json iso broker) same taken, quiet, flushed)
