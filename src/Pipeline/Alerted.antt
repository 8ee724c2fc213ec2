-- ===== src/Pipeline/Alerted.antt =====
-- src/pipeline/ from the records of the input topic to the alerts of a window.
use streaming_fpuna_proyecto.Base.{ℕ, ◌+◌, String, ◌≡◌, ◌↔◌, Bool, List, length, All, arith}
use streaming_fpuna_proyecto.Base.Int.{ℤ}
use streaming_fpuna_proyecto.Python.{Result, ok, ◌>>=◌}
use streaming_fpuna_proyecto.Python.Value.{Value, Fields}
use streaming_fpuna_proyecto.Python.Codec.{Utf8, Json, Iso8601}
use streaming_fpuna_proyecto.Dedup.{Window}
use streaming_fpuna_proyecto.Ingestion.{KafkaRecord}
use streaming_fpuna_proyecto.Aggregation.Keyed.{Grouping, Entry}
use streaming_fpuna_proyecto.Alerts.{
  Pane, transaction_count_threshold, total_amount_threshold, default_rule,
}
use streaming_fpuna_proyecto.Alerts.Revisions.{create_velocity_alerts}
use streaming_fpuna_proyecto.Pipeline.Transactions.{Transaction, Tallied}
use streaming_fpuna_proyecto.Pipeline.Records.{
  ingest, records_aggregates, IsHarmless, Carried, stamped, inside, records_aggregates-each,
}
use streaming_fpuna_proyecto.Pipeline.Emitted.{Revised, create-ok_iff}

module _ (utf8 : Utf8) (json : Json) (iso : Iso8601) (assigned : ℤ → Bool) (grouping : Grouping)
    (lateness : ℕ) (window : Window) (pane_of : String → Pane) where
  -- the transforms of `build_kafka_pipeline` from the source to the encoding of the alerts
  unfoldable pub records_alerts : List (KafkaRecord utf8) → Result (List (Value × Fields))
  records_alerts records = do
    aggregates ← records_aggregates utf8 json iso assigned grouping lateness window records
    create_velocity_alerts iso window pane_of transaction_count_threshold total_amount_threshold
        aggregates

  -- Records none of which ends ingestion by an exception are sorted into the transactions that they
  -- carry, in their order, and one invalid record for each of the others. Of the transactions that Beam
  -- assigns to the window, every customer's are counted and added up in one entry, those that repeat an
  -- identifier left out; a customer without any has no entry. The pipeline then puts out alerts for the
  -- window exactly when they are the alerts of the default thresholds for the entries, in their order: none
  -- for a customer whose count and total stay below them, and else one under its stable key.
  pub records_alerts-each :
      (records : List (KafkaRecord utf8))
      → All (IsHarmless utf8 json iso) records
      → (ts : List (Transaction iso)) × (invalid_records : List Fields) × (entries : List Entry)
        × Carried utf8 json iso records ts
        × (ingest utf8 json iso records ≡ ok (stamped utf8 json iso ts, invalid_records))
        × (length ts + length invalid_records ≡ length records)
        × Tallied iso (inside utf8 json iso assigned ts) entries
        × ((outs : List (Value × Fields))
            → (records_alerts records ≡ ok outs)
              ↔ Revised iso window pane_of default_rule entries outs)
  unfolding records_alerts
  records_alerts-each records h =
      let (ts, bad, entries, carried, ingested, count, is_aggregates, tallied) =
        records_aggregates-each utf8 json iso assigned grouping lateness window records h in
      (
        ts,
        bad,
        entries,
        carried,
        ingested,
        count,
        tallied,
        λ outs.
            let (to, from) =
              create-ok_iff iso window pane_of transaction_count_threshold total_amount_threshold
                entries outs in
            rw is_aggregates
              (λ made. (to made).2, λ revised. from (ground arith, ground arith, revised)),
      )
