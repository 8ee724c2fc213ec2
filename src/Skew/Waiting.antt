-- ===== src/Skew/Waiting.antt =====
-- The loops of publish_scenarios in src/producer/skew_analysis.py over the scenarios and their records.
use streaming_fpuna_proyecto.Base.{
  ℕ, suc, ◌+◌, ◌*◌, ◌<◌, String, ◌≡◌, refl, subst, inl, inr, ◌⊎◌, some, List, [], ◌∷◌, ◌++◌, arith,
}
use streaming_fpuna_proyecto.Base.Int.{ℤ}
use streaming_fpuna_proyecto.Python.{Exception, Result, ok, raise, ◌>>=◌}
use streaming_fpuna_proyecto.Python.Running.{Ends, Ends-and_then, Ends-some}
use streaming_fpuna_proyecto.Python.Codec.{Utf8, Json, Iso8601}
use streaming_fpuna_proyecto.Contract.{datetime_range}
use streaming_fpuna_proyecto.Producer.{Sent}
use streaming_fpuna_proyecto.Skew.{SkewRecord, SkewScenario}
use streaming_fpuna_proyecto.Skew.Client.{
  Client, hours_later, sent_for, produce_until, publish_records, publish_from,
}
use streaming_fpuna_proyecto.Skew.Due.{AreSent, AllSent, sent_for-IsSent}
use streaming_fpuna_proyecto.Skew.Retries.{
  IsPatient, Refuses, AreTaken, TakesOne, AreTaken-append, produce_until-Ends,
}

hours_later-eq :
    (base scenario_number start : ℕ)
    → hours_later base scenario_number ≡ ok start
    → (base + scenario_number * 3_600_000_000 < datetime_range)
      × (start ≡ base + scenario_number * 3_600_000_000)
unfolding hours_later
hours_later-eq base scenario_number start h = ground arith

module _ (utf8 : Utf8) (json : Json) (iso : Iso8601) (zone : ℕ → ℤ) where
  -- what is due to be sent for the records of a scenario, and of all of them
  unfoldable pub due_records : String → ℕ → List SkewRecord → Result (List (Sent utf8))
  due_records scenario_name base [] = ok []
  due_records scenario_name base (r ∷ records) = do
    sent ← sent_for utf8 json iso zone scenario_name base r
    rest ← due_records scenario_name base records
    ok (sent ∷ rest)

  unfoldable pub due_from : ℕ → ℕ → List SkewScenario → Result (List (Sent utf8))
  due_from base scenario_number [] = ok []
  due_from base scenario_number (scenario ∷ scenarios) = do
    scenario_base ← hours_later base scenario_number
    sent ← due_records scenario.name scenario_base scenario.records
    rest ← due_from base (suc scenario_number) scenarios
    ok (sent ++ rest)

  module _ (client : Client utf8) where
    abbrev pub Fails : Result (List (Sent utf8)) → Exception → Type 0
    Fails due e = (due ≡ raise e) ⊎ Refuses utf8 client e

    -- the client took what is due for the records of a scenario, and for all scenarios
    abbrev ScenarioTaken : String → ℕ → ℕ → List SkewRecord → ℕ × List (Sent utf8) → Type 0
    ScenarioTaken scenario_name base call records answer =
        (due_records scenario_name base records ≡ ok answer.1)
        × AreSent utf8 json iso zone scenario_name base records answer.1
        × AreTaken utf8 client call answer.1 answer.0

    abbrev pub AllTaken : ℕ → ℕ → ℕ → List SkewScenario → ℕ × List (Sent utf8) → Type 0
    AllTaken base scenario_number call scenarios answer =
        (due_from base scenario_number scenarios ≡ ok answer.1)
        × AllSent utf8 json iso zone base scenario_number scenarios answer.1
        × AreTaken utf8 client call answer.1 answer.0

    Fails-later :
        (due due' : Result (List (Sent utf8))) (e : Exception)
        → (due ≡ raise e → due' ≡ raise e)
        → Fails due e
        → Fails due' e
    Fails-later due due' e step (inl h) = inl (step h)
    Fails-later due due' e step (inr h) = inr h

  module _ (client : Client utf8) (patience : ℕ) (patient : IsPatient utf8 client patience) where
    publish_records-Ends :
        (scenario_name : String) (base call : ℕ) (records : List SkewRecord)
        → Ends
            (ScenarioTaken client scenario_name base call records)
            (Fails client (due_records scenario_name base records))
            (publish_records utf8 json iso zone client
              (suc patience)
              scenario_name
              base
              call
              records)
    unfolding publish_records due_records
    publish_records-Ends scenario_name base call [] = (refl, tt, refl)
    publish_records-Ends scenario_name base call (r ∷ records) =
        let done = ScenarioTaken client scenario_name base call (r ∷ records) in
        let due = due_records scenario_name base (r ∷ records) in
        let later = due_records scenario_name base records in
        Ends-and_then (λ sent. sent_for utf8 json iso zone scenario_name base r ≡ ok sent)
          (λ e. sent_for utf8 json iso zone scenario_name base r ≡ raise e) done (Fails client due)
          (some (sent_for utf8 json iso zone scenario_name base r)) _
          (Ends-some (sent_for utf8 json iso zone scenario_name base r))
          (λ e raised. inl (rw raised refl))
          λ sent is_sent.
            let (k, near, room) = patient call sent in
            Ends-and_then (TakesOne utf8 client call sent) (Refuses utf8 client) done
              (Fails client due) (produce_until utf8 json iso zone client (suc patience) call sent)
              _
              (produce_until-Ends utf8 json iso zone client (suc patience) k call sent room
                (omega arith))
              (λ e raised. inr raised)
              λ (next, accepted) (one, took).
                Ends-and_then (ScenarioTaken client scenario_name base next records)
                  (Fails client later) done (Fails client due)
                  (publish_records utf8 json iso zone client (suc patience) scenario_name base next
                    records)
                  (λ answer. some (ok (answer.0, accepted ++ answer.1)))
                  (publish_records-Ends scenario_name base next records)
                  (λ e. Fails-later client later due e (λ h. rw is_sent (rw h refl)))
                  λ (last, rest) (is_rest, all, took_rest). rw one (
                    rw is_sent (rw is_rest refl),
                    (sent_for-IsSent utf8 json iso zone scenario_name base r sent is_sent, all),
                    AreTaken-append utf8 client call (sent ∷ []) rest next last took took_rest,
                  )

    -- If the queue of the client is never full for more than a number of calls in a row, that many rounds and
    -- one more are enough for each record: the loops of publish_scenarios over scenarios and records come to
    -- an end. If they return, the client took one record for each record of the scenarios, in order: the
    -- calls are one for each of them that takes it, after those that find the queue full. The key is the
    -- customer, the value the JSON text of the record's transfer, a transaction of the contract, in a scenario
    -- that starts one hour after the one before, and the timestamp the whole milliseconds, from the epoch, of
    -- what its time reads as. If they raise an exception, then so does computing what is due, or some call of
    -- the client.
    pub publish_from-Ends :
        (base scenario_number call : ℕ) (scenarios : List SkewScenario)
        → Ends
            (AllTaken client base scenario_number call scenarios)
            (Fails client (due_from base scenario_number scenarios))
            (publish_from utf8 json iso zone client
              (suc patience)
              base
              scenario_number
              call
              scenarios)
    unfolding publish_from due_from
    publish_from-Ends base scenario_number call [] = (refl, refl, refl)
    publish_from-Ends base scenario_number call (scenario ∷ scenarios) =
        let done = AllTaken client base scenario_number call (scenario ∷ scenarios) in
        let due = due_from base scenario_number (scenario ∷ scenarios) in
        let later = due_from base (suc scenario_number) scenarios in
        Ends-and_then (λ start. hours_later base scenario_number ≡ ok start)
          (λ e. hours_later base scenario_number ≡ raise e) done (Fails client due)
          (some (hours_later base scenario_number)) _ (Ends-some (hours_later base scenario_number))
          (λ e raised. inl (rw raised refl))
          λ start is_start.
            let here = due_records scenario.name start scenario.records in
            let (below, same) = hours_later-eq base scenario_number start is_start in
            Ends-and_then (ScenarioTaken client scenario.name start call scenario.records)
              (Fails client here) done (Fails client due)
              (publish_records utf8 json iso zone client (suc patience) scenario.name start call
                scenario.records)
              _ (publish_records-Ends scenario.name start call scenario.records)
              (λ e. Fails-later client here due e (λ h. rw is_start (rw h refl)))
              λ (next, sent) (is_sent, mine, took).
                Ends-and_then (AllTaken client base (suc scenario_number) next scenarios)
                  (Fails client later) done (Fails client due)
                  (publish_from utf8 json iso zone client (suc patience) base (suc scenario_number)
                    next scenarios)
                  (λ answer. some (ok (answer.0, sent ++ answer.1)))
                  (publish_from-Ends base (suc scenario_number) next scenarios)
                  (λ e. Fails-later client later due e (λ h. rw is_start (rw is_sent (rw h refl))))
                  λ (last, rest) (is_rest, all, took_rest). (
                    rw is_start (rw is_sent (rw is_rest refl)),
                    (
                      below,
                      sent,
                      rest,
                      refl,
                      subst (λ b. AreSent utf8 json iso zone scenario.name b scenario.records sent)
                          same mine,
                      all,
                    ),
                    AreTaken-append utf8 client call sent rest next last took took_rest,
                  )
