-- ===== src/Pipeline/Records.antt =====
-- src/pipeline/ from the records of the input topic to the aggregates of a window: ingestion, and what
-- follows for the events that Beam assigns to the window.
use streaming_fpuna_proyecto.Base.{
  ℕ, ◌+◌, String, ◌≡◌, refl, ap, ◌∙◌, inl, inr, Bool, List, [], ◌∷◌, map, length, All,
  if◌then◌else◌, Bool-cases, arith,
}
use streaming_fpuna_proyecto.Base.Int.{ℤ}
use streaming_fpuna_proyecto.Base.Dict.{Dict}
use streaming_fpuna_proyecto.Python.{Result, ok, ◌>>=◌}
use streaming_fpuna_proyecto.Python.Value.{Fields}
use streaming_fpuna_proyecto.Python.Codec.{Utf8, Json, Iso8601}
use streaming_fpuna_proyecto.Dedup.{Window}
use streaming_fpuna_proyecto.Ingestion.{
  Raw, KafkaRecord, pair, not_pair, Emission, timestamped, invalid, timestamp, process_record,
}
use streaming_fpuna_proyecto.Ingestion.Reading.{Decodes}
use streaming_fpuna_proyecto.Ingestion.Accept.{Carries, accepted_iff}
use streaming_fpuna_proyecto.Ingestion.Crash.{IsPoison, process-cases}
use streaming_fpuna_proyecto.Aggregation.Keyed.{Grouping, Entry, aggregates_of}
use streaming_fpuna_proyecto.Pipeline.Transactions.{
  Transaction, events_of, Tallied, window_aggregates, window_aggregates-each,
}

-- the two outputs of the step: valid events with their timestamps, and invalid ones
abbrev pub Outputs : Type 0
Outputs = List (Fields × ℤ) × List Fields

abbrev routed : Emission → Outputs → Outputs
routed (timestamped event t) (valid, refused) = ((event, t) ∷ valid, refused)
routed (invalid record') (valid, refused) = (valid, record' ∷ refused)

module _ (utf8 : Utf8) (json : Json) (iso : Iso8601) where
  -- `beam.ParDo(ParseAndValidateKafkaRecord()).with_outputs(...)`
  unfoldable pub ingest : List (KafkaRecord utf8) → Result Outputs
  ingest [] = ok ([], [])
  ingest (r ∷ records) = do
    emission ← process_record utf8 json iso r
    outputs ← ingest records
    ok (routed emission outputs)

-- the events that Beam assigns to a window, by their timestamps
abbrev events_in : (ℤ → Bool) → List (Fields × ℤ) → List Fields
events_in assigned [] = []
events_in assigned ((event, t) ∷ rest) =
    let others = events_in assigned rest in if assigned t then event ∷ others else others

module _ (utf8 : Utf8) (json : Json) (iso : Iso8601) where
  unfoldable pub records_aggregates :
      (ℤ → Bool) → Grouping → ℕ → Window → List (KafkaRecord utf8) → Result (Dict Fields)
  records_aggregates assigned grouping lateness window records = do
    outputs ← ingest utf8 json iso records
    window_aggregates grouping lateness window (events_in assigned outputs.0) []

  -- a record that does not end the step by an exception
  abbrev pub IsHarmless : KafkaRecord utf8 → Type 0
  IsHarmless (pair raw_key raw_value) =
      ¬ ((s : String) × Decodes utf8 raw_value s × IsPoison json iso s)
  IsHarmless (not_pair raw) = Unit

  -- the transactions that the records carry, in their order
  pub data Carried : List (KafkaRecord utf8) → List (Transaction iso) → Type 0 where
    none_left : Carried [] []
    kept :
        {raw_key raw_value : Raw utf8} {event : Fields} {records : List (KafkaRecord utf8)}
        {ts : List (Transaction iso)} (c : Carries utf8 json iso raw_key raw_value event)
        → Carried records ts
        → Carried
            (pair raw_key raw_value ∷ records)
            (record { event = event; valid = c.transaction } ∷ ts)
    refused :
        {raw_key raw_value : Raw utf8} {records : List (KafkaRecord utf8)}
        {ts : List (Transaction iso)}
        → ((event : Fields) → ¬ Carries utf8 json iso raw_key raw_value event)
        → Carried records ts
        → Carried (pair raw_key raw_value ∷ records) ts
    unpaired :
        {raw : Raw utf8} {records : List (KafkaRecord utf8)} {ts : List (Transaction iso)}
        → Carried records ts
        → Carried (not_pair raw ∷ records) ts

  abbrev pub stamped : List (Transaction iso) → List (Fields × ℤ)
  stamped = map (λ t. (t.event, timestamp t.valid.instant))

  -- those that Beam assigns to the window
  abbrev pub inside : (ℤ → Bool) → List (Transaction iso) → List (Transaction iso)
  inside assigned [] = []
  inside assigned (t ∷ ts) =
      let others = inside assigned ts in
      if assigned (timestamp t.valid.instant) then t ∷ others else others

  events_in-stamped :
      (assigned : ℤ → Bool) (ts : List (Transaction iso))
      → events_in assigned (stamped ts) ≡ events_of iso (inside assigned ts)
  events_in-stamped assigned [] = refl
  events_in-stamped assigned (t ∷ ts) = elim (Bool-cases (assigned (timestamp t.valid.instant))) [
    | inl e ↦ rw e (ap (◌∷◌ t.event) (events_in-stamped assigned ts))
    | inr e ↦ rw e (events_in-stamped assigned ts)
  ]

  -- ingestion of the records, apart from the code
  abbrev pub Ingested : List (KafkaRecord utf8) → Type 0
  Ingested records =
      (ts : List (Transaction iso)) × (invalid_records : List Fields) × Carried records ts
      × (ingest utf8 json iso records ≡ ok (stamped ts, invalid_records))
      × (length ts + length invalid_records ≡ length records)

  Ingested-pair :
      (raw_key raw_value : Raw utf8) (records : List (KafkaRecord utf8)) (emission : Emission)
      → process_record utf8 json iso (pair raw_key raw_value) ≡ ok emission
      → Ingested records
      → Ingested (pair raw_key raw_value ∷ records)
  unfolding ingest
  Ingested-pair raw_key raw_value records (timestamped event t) h (ts, bad, carried, rest, count) =
      let (c, at) = (accepted_iff utf8 json iso raw_key raw_value event t).0 h in
      (
        record { event = event; valid = c.transaction } ∷ ts,
        bad,
        kept c carried,
        rw h (rw rest (rw at refl)),
        omega (arith, count),
      )
  Ingested-pair raw_key raw_value records (invalid r) h (ts, bad, carried, rest, count) = (
    ts,
    r ∷ bad,
    refused
        (λ event c.
          let accepted =
            (accepted_iff utf8 json iso raw_key raw_value event (timestamp c.transaction.instant)).1
              (c, refl) in
          cc)
        carried,
    rw h (rw rest refl),
    omega (arith, count),
  )

  unpaired-emits :
      (raw : Raw utf8)
      → (r : Fields) × (process_record utf8 json iso (not_pair raw) ≡ ok (invalid r))
  unfolding process_record
  unpaired-emits raw = (_, refl)

  ingest-Carried : (records : List (KafkaRecord utf8)) → All IsHarmless records → Ingested records
  unfolding ingest
  ingest-Carried [] h = ([], [], none_left, refl, refl)
  ingest-Carried (not_pair raw ∷ records) (_, h) =
      let (r, emitted) = unpaired-emits raw in
      let (ts, bad, carried, rest, count) = ingest-Carried records h in
      (ts, r ∷ bad, unpaired carried, rw emitted (rw rest refl), omega (arith, count))
  ingest-Carried (pair raw_key raw_value ∷ records) (harmless, h) =
      elim (process-cases json iso utf8 raw_key raw_value) [
        | inl poison ↦ absurd (harmless poison)
        | inr (emission, emitted) ↦
            Ingested-pair raw_key raw_value records emission emitted (ingest-Carried records h)
      ]

  -- From records none of which ends ingestion by an exception, the pipeline computes the aggregates of a
  -- window without one. The valid events are the transactions that the records carry, in their order,
  -- and every other record is put out as invalid, once. Of the transactions that Beam assigns to the
  -- window, the entry of a customer is the number and the sum of the amounts of some of that
  -- customer's, in their order, which have each of their identifiers exactly once. A customer without
  -- transactions in the window has no entry, and none has two.
  pub records_aggregates-each :
      (assigned : ℤ → Bool) (grouping : Grouping) (lateness : ℕ) (window : Window)
      (records : List (KafkaRecord utf8))
      → All IsHarmless records
      → (ts : List (Transaction iso)) × (invalid_records : List Fields) × (entries : List Entry)
        × Carried records ts
        × (ingest utf8 json iso records ≡ ok (stamped ts, invalid_records))
        × (length ts + length invalid_records ≡ length records)
        × (records_aggregates assigned grouping lateness window records
            ≡ ok (aggregates_of entries))
        × Tallied iso (inside assigned ts) entries
  unfolding records_aggregates
  records_aggregates-each assigned grouping lateness window records h =
      let (ts, bad, carried, ingested, count) = ingest-Carried records h in
      let (entries, is_aggregates, each) =
        window_aggregates-each iso grouping lateness window (inside assigned ts) in
      (
        ts,
        bad,
        entries,
        carried,
        ingested,
        count,
        rw ingested (
            ap (λ events. window_aggregates grouping lateness window events [])
              (events_in-stamped assigned ts)
            ∙ is_aggregates),
        each,
      )
