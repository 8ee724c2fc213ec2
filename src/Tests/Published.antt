-- ===== src/Tests/Published.antt =====
-- An event of src/common/event_contract.py, written with its keys sorted and read back by ingestion.
use streaming_fpuna_proyecto.Base.{
  String, ◌≡◌, refl, sym, ap, ◌∙◌, subst, arith, false, ◌==◌, String-discrete,
}
use streaming_fpuna_proyecto.Base.Int.{pos}
use streaming_fpuna_proyecto.Python.{ok}
use streaming_fpuna_proyecto.Python.Value.{Value, text, integer, object, Fields, end, field, get}
use streaming_fpuna_proyecto.Python.Codec.{Json, parsed}
use streaming_fpuna_proyecto.Contract.Spec.{IsTransaction}
use streaming_fpuna_proyecto.Contract.Events.{
  encode_transaction_event, transaction_kafka_key, encode-ok_iff,
}
use streaming_fpuna_proyecto.Ingestion.{bytes, pair, timestamped, timestamp, process_record}
use streaming_fpuna_proyecto.Ingestion.Published.{SameScalars, SameFields, published-accepted}
use streaming_fpuna_proyecto.Tests.Samples.{utf8, iso, event, payload}
use streaming_fpuna_proyecto.Tests.Contract.{event-IsTransaction}

abbrev sorted_payload : Fields
sorted_payload = field "amount" (integer (pos 2500000)) (
    field "channel" (text "mobile")
      (field "currency" (text "PYG") (field "transaction_type" (text "transfer") end)))

abbrev sorted_event : Fields
sorted_event = field "customer_id" (text "C-1") (
    field "event_id" (text "e-1") (
      field "event_time" (text "2026-01-01T00:00:00.000Z")
        (field "payload" (object sorted_payload) (field "schema_version" (text "1.0") end))))

abbrev sorting_json : Json
sorting_json = record { loads = λ s. parsed (object sorted_event); dumps = λ value. "{...}" }

differ : (s t : String) → (s == t) ≡ false → ¬ (s ≡ t)
differ s t h = ground arith

names_differ :
    (("channel" == "currency") ≡ false)
    × (("channel" == "transaction_type") ≡ false)
    × (("schema_version" == "customer_id") ≡ false)
    × (("schema_version" == "event_id") ≡ false)
    × (("schema_version" == "event_time") ≡ false)
    × (("event_id" == "customer_id") ≡ false)
unfolding String-discrete
names_differ = (refl, refl, refl, refl, refl, refl)

sorted_payload-get : (name : String) → get sorted_payload name ≡ get payload name
unfolding get
sorted_payload-get name =
    let (a, b, _, _, _, _) = names_differ in ground (arith, differ _ _ a, differ _ _ b)

sorted_event-get : (name : String) → ¬ ("payload" ≡ name) → get sorted_event name ≡ get event name
unfolding get
sorted_event-get name other =
    let (_, _, c, d, e, f) = names_differ in
    ground (arith, differ _ _ c, differ _ _ d, differ _ _ e, differ _ _ f)

sorted_event-payload : get sorted_event "payload" ≡ object sorted_payload
unfolding get String-discrete
sorted_event-payload = refl

event-payload : get event "payload" ≡ object payload
unfolding get String-discrete
event-payload = refl

payload-SameScalars : SameScalars payload sorted_payload
payload-SameScalars = record {
  texts = λ name s h. sorted_payload-get name ∙ h;
  integers = λ name n h. sorted_payload-get name ∙ h;
}

-- a field with a value that is no object
kept :
    (name : String) (v : Value)
    → ¬ (object payload ≡ v)
    → get event name ≡ v
    → get sorted_event name ≡ v
kept name v scalar h = elim (String-discrete "payload" name) [
  | yes here ↦ absurd (scalar (sym event-payload ∙ ap (get event) here ∙ h))
  | no other ↦ sorted_event-get name other ∙ h
]

abbrev fields_of : Value → Fields
fields_of (object fields) = fields
fields_of v = end

kept_object :
    (name : String) (inner : Fields)
    → get event name ≡ object inner
    → (inner' : Fields) × (get sorted_event name ≡ object inner') × SameScalars inner inner'
kept_object name inner h = elim (String-discrete "payload" name) [
  | yes here ↦
      let same : payload ≡ inner = ap fields_of (sym event-payload ∙ ap (get event) here ∙ h) in
      (
        sorted_payload,
        ap (get sorted_event) (sym here) ∙ sorted_event-payload,
        subst (λ f. SameScalars f sorted_payload) same payload-SameScalars,
      )
  | no other ↦
      (inner, sorted_event-get name other ∙ h, record { texts = λ n s e. e; integers = λ n k e. e })
]

event-SameFields : SameFields event sorted_event
event-SameFields = record {
  scalars = record {
    texts = λ name s h. kept name (text s) (λ e. cc) h;
    integers = λ name n h. kept name (integer n) (λ e. cc) h;
  };
  objects = kept_object;
}

event_encodes : encode_transaction_event iso utf8 sorting_json event ≡ ok "{...}"
event_encodes = (encode-ok_iff iso utf8 sorting_json event "{...}").1 (event-IsTransaction, refl)

published-accepted_example :
    (key : String) × (t : IsTransaction iso event) × (transaction_kafka_key utf8 event ≡ ok key)
    × (process_record utf8 sorting_json iso (pair (bytes key) (bytes "{...}"))
        ≡ ok (timestamped sorted_event (timestamp t.instant)))
published-accepted_example =
    published-accepted iso utf8 sorting_json event sorted_event "{...}" (λ s. refl) refl
      event-SameFields event_encodes
