-- ===== src/Contract/Events.antt =====
-- src/common/event_contract.py: building, encoding and keying an event, over the validator.
use Prim.Native.String.{◌++◌ as ◌<>◌}
use mathlib.Core.Path.{subst}
use streaming_fpuna_proyecto.Base.{String, ◌≡◌, ◌↔◌, refl, sym, ap, List, [], ◌∷◌, if◌then◌else◌}
use streaming_fpuna_proyecto.Base.Int.{ℤ}
use streaming_fpuna_proyecto.Base.Text.{is_blank}
use streaming_fpuna_proyecto.Python.{
  value_error, Result, ok, raise, throw, ◌>>=◌, ◌>>◌, >>=-eq-ok, ok-injective,
}
use streaming_fpuna_proyecto.Python.Value.{Value, integer, text, object, Fields, end, field, get}
use streaming_fpuna_proyecto.Python.Codec.{DateTime, Utf8, Json, Iso8601}
use streaming_fpuna_proyecto.Contract.{
  schema_version, format_event_time, validate_transaction_event,
}
use streaming_fpuna_proyecto.Contract.Spec.{IsTransaction, validate-ok_iff}

-- `"; ".join(errors)`
unfoldable pub join : List String → String
join [] = ""
join (e ∷ []) = e
join (e ∷ f ∷ es) = e <> ("; " <> join (f ∷ es))

-- `if errors: raise ValueError("; ".join(errors))`
unfoldable pub raise_errors : List String → Result (Unit {0})
unfolding join
raise_errors [] = ok tt
raise_errors (e ∷ es) = throw value_error (join (e ∷ es))

-- the arguments of `build_transaction_event`
pub record Draft : Type 0 where
  pub event_id : String
  pub customer_id : String
  pub event_time : DateTime
  pub amount : ℤ
  pub transaction_type : String
  pub channel : String
  pub currency : String

abbrev pub draft_event : Draft → String → Fields
draft_event d event_time = field "schema_version" (text schema_version) (
    field "event_id" (text d.event_id) (
      field "customer_id" (text d.customer_id) (
        field "event_time" (text event_time) (
          field "payload"
            (object (
              field "amount" (integer d.amount) (
                field "currency" (text d.currency) (
                  field "transaction_type" (text d.transaction_type)
                    (field "channel" (text d.channel) end)))))
            end))))

module _ (iso : Iso8601) where
  unfoldable pub build_transaction_event : Draft → Result Fields
  build_transaction_event d = do
    event_time ← format_event_time iso d.event_time
    let event = draft_event d event_time
    errors ← validate_transaction_event iso (object event)
    raise_errors errors
    ok event

  module _ (utf8 : Utf8) (json : Json) where
    unfoldable pub encode_transaction_event : Fields → Result utf8.Bytes
    encode_transaction_event event = do
      errors ← validate_transaction_event iso (object event)
      raise_errors errors
      ok (utf8.encode (json.dumps (object event)))

-- the text of a field that `is_filled_text` accepts
unfoldable pub filled_text : Value → Result String
unfolding is_blank
filled_text (text s) =
    if is_blank s then throw value_error "customer_id must be a non-empty string" else ok s
filled_text _ = throw value_error "customer_id must be a non-empty string"

module _ (utf8 : Utf8) where
  unfoldable pub transaction_kafka_key : Fields → Result utf8.Bytes
  transaction_kafka_key event = do
    customer_id ← filled_text (get event "customer_id")
    ok (utf8.encode customer_id)

raise_errors-ok : (es : List String) → raise_errors es ≡ ok tt → es ≡ []
unfolding raise_errors
raise_errors-ok [] h = refl
raise_errors-ok (e ∷ es) h = cc

guarded-ok {ℓ} :
    {A : Type ℓ} (m : Result (List String)) (a : A) {b : A}
    → (m >>= λ es. raise_errors es >> ok a) ≡ ok b
    → (m ≡ ok []) × (a ≡ b)
unfolding raise_errors
guarded-ok (ok []) a h = (refl, ok-injective h)
guarded-ok (ok (e ∷ es)) a h = cc
guarded-ok (raise e) a h = cc

module _ (iso : Iso8601) where
  build-ok :
      (d : Draft) {event : Fields}
      → build_transaction_event iso d ≡ ok event
      → (time : String) × (format_event_time iso d.event_time ≡ ok time)
        × (event ≡ draft_event d time)
        × IsTransaction iso event
  unfolding build_transaction_event
  build-ok d h =
      let (time, formatted, h₁) = >>=-eq-ok (format_event_time iso d.event_time) h in
      let (valid, same) =
        guarded-ok (validate_transaction_event iso (object (draft_event d time)))
          (draft_event d time) h₁ in
      (time, formatted, sym same, subst (IsTransaction iso) same ((validate-ok_iff iso _).0 valid))

  build_of_transaction :
      (d : Draft) {event : Fields} (time : String)
      → format_event_time iso d.event_time ≡ ok time
      → event ≡ draft_event d time
      → IsTransaction iso event
      → build_transaction_event iso d ≡ ok event
  unfolding build_transaction_event raise_errors
  build_of_transaction d time formatted same t = rw formatted (
      rw ((validate-ok_iff iso (draft_event d time)).1 (subst (IsTransaction iso) same t))
        (ap ok (sym same)))

  -- The builder returns an event exactly when the event time is formatted, the event is the one that
  -- holds that text and the arguments under the names of the contract, and it is a transaction of the
  -- contract.
  pub build-ok_iff :
      (d : Draft) (event : Fields)
      → (build_transaction_event iso d ≡ ok event) ↔ (
          (time : String) × (format_event_time iso d.event_time ≡ ok time)
          × (event ≡ draft_event d time)
          × IsTransaction iso event)
  build-ok_iff d event =
      (build-ok d, λ (time, formatted, same, t). build_of_transaction d time formatted same t)

  module _ (utf8 : Utf8) (json : Json) where
    -- An event is encoded exactly when it is a transaction of the contract, and the bytes are those of
    -- its JSON text.
    pub encode-ok_iff :
        (event : Fields) (bytes : utf8.Bytes)
        → (encode_transaction_event iso utf8 json event ≡ ok bytes)
          ↔ (IsTransaction iso event × (utf8.encode (json.dumps (object event)) ≡ bytes))
    unfolding encode_transaction_event raise_errors
    encode-ok_iff event bytes = (
      λ h.
          let (valid, same) =
            guarded-ok (validate_transaction_event iso (object event))
              (utf8.encode (json.dumps (object event))) h in
          ((validate-ok_iff iso event).0 valid, same),
      λ (t, same). rw ((validate-ok_iff iso event).1 t) (ap ok same),
    )

    -- A transaction of the contract has a Kafka key, the bytes of its customer.
    pub key_of_transaction :
        (event : Fields) (t : IsTransaction iso event)
        → transaction_kafka_key utf8 event ≡ ok (utf8.encode t.customer_id.content)
    unfolding transaction_kafka_key filled_text
    key_of_transaction event t = rw (t.customer_id.is_content, t.customer_id.filled) refl
