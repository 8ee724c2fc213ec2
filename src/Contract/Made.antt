-- ===== src/Contract/Made.antt =====
-- The events that the producers of src/producer/ have src/common/event_contract.py build, field by field.
use streaming_fpuna_proyecto.Base.{ℕ, ◌<◌, String, ◌≡◌, refl, sym, ap, ◌∙◌, ◌↔◌, some, arith}
use streaming_fpuna_proyecto.Base.Int.{pos}
use streaming_fpuna_proyecto.Base.Text.{replace_utc}
use streaming_fpuna_proyecto.Python.{ok, >>=-eq-ok, ok-injective}
use streaming_fpuna_proyecto.Python.Value.{integer, text, object, Fields, end, field}
use streaming_fpuna_proyecto.Python.Codec.{DateTime, Iso8601}
use streaming_fpuna_proyecto.Contract.{
  datetime_range, astimezone_utc, aware_to_utc, format_event_time,
}
use streaming_fpuna_proyecto.Contract.Spec.{IsTransaction}
use streaming_fpuna_proyecto.Contract.Events.{Draft, build_transaction_event, build-ok_iff}

-- a transaction in guaranies, under its names of the contract
abbrev pub transaction_fields : String → String → String → ℕ → String → String → Fields
transaction_fields event_id customer_id event_time amount transaction_type channel =
    field "schema_version" (text "1.0") (
      field "event_id" (text event_id) (
        field "customer_id" (text customer_id) (
          field "event_time" (text event_time) (
            field "payload"
              (object (
                field "amount" (integer (pos amount)) (
                  field "currency" (text "PYG") (
                    field "transaction_type" (text transaction_type)
                      (field "channel" (text channel) end)))))
              end))))

abbrev pub utc : ℕ → DateTime
utc instant = record { local = instant; utcoffset = some (pos 0) }

module _ (iso : Iso8601) where
  -- the text of an instant in UTC
  abbrev pub written : ℕ → String
  written instant = replace_utc (iso.isoformat instant)

  aware-utc : (instant : ℕ) → instant < datetime_range → aware_to_utc (utc instant) ≡ ok instant
  unfolding aware_to_utc astimezone_utc
  aware-utc instant below = ground arith

  aware-utc→ :
      (instant i : ℕ)
      → aware_to_utc (utc instant) ≡ ok i
      → (i ≡ instant) × (instant < datetime_range)
  unfolding aware_to_utc astimezone_utc
  aware-utc→ instant i h = ground arith

  format-utc :
      (instant : ℕ)
      → instant < datetime_range
      → format_event_time iso (utc instant) ≡ ok (written instant)
  unfolding format_event_time
  format-utc instant below = rw (aware-utc instant below) refl

  format-utc→ :
      (instant : ℕ) (time : String)
      → format_event_time iso (utc instant) ≡ ok time
      → (time ≡ written instant) × (instant < datetime_range)
  unfolding format_event_time
  format-utc→ instant time h =
      let (i, is_i, last) = >>=-eq-ok (aware_to_utc (utc instant)) h in
      let (same, below) = aware-utc→ instant i is_i in
      (sym (ok-injective last) ∙ ap written same, below)

  abbrev draft : String → String → ℕ → ℕ → String → String → Draft
  draft event_id customer_id instant amount transaction_type channel = record {
    event_id = event_id;
    customer_id = customer_id;
    event_time = utc instant;
    amount = pos amount;
    transaction_type = transaction_type;
    channel = channel;
    currency = "PYG";
  }

  pub build_utc-ok_iff :
      (event_id customer_id : String) (instant amount : ℕ) (transaction_type channel : String)
      (event : Fields)
      → (build_transaction_event iso
            (draft event_id customer_id instant amount transaction_type channel)
          ≡ ok event)
        ↔ ((instant < datetime_range)
            × (event
                ≡ transaction_fields event_id customer_id
                    (written instant)
                    amount
                    transaction_type
                    channel)
            × IsTransaction iso event)
  build_utc-ok_iff event_id customer_id instant amount transaction_type channel event =
      let d = draft event_id customer_id instant amount transaction_type channel in
      let fields = λ (time : String).
        transaction_fields event_id customer_id time amount transaction_type channel in
      (
        λ h.
            let (time, formatted, same, transaction) = (build-ok_iff iso d event).0 h in
            let (is_written, below) = format-utc→ instant time formatted in
            (below, same ∙ ap fields is_written, transaction),
        λ (below, same, transaction).
            (build-ok_iff iso d event).1
              (written instant, format-utc instant below, same, transaction),
      )
