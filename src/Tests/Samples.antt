-- ===== src/Tests/Samples.antt =====
-- Sample codecs and events for the tests: a UTF-8 whose bytes are the text, and texts with known values.
use streaming_fpuna_proyecto.Base.{ℕ, ◌*◌, String, some, ◌==◌, if◌then◌else◌}
use streaming_fpuna_proyecto.Base.Int.{pos}
use streaming_fpuna_proyecto.Python.{value_error, Result, ok, throw}
use streaming_fpuna_proyecto.Python.Value.{
  Value, integer, text, array, object, nil, Fields, end, field,
}
use streaming_fpuna_proyecto.Python.Codec.{DateTime, Utf8, Json, Iso8601, Loaded, parsed, malformed}
use streaming_fpuna_proyecto.Contract.Events.{Draft}

-- the first instant of 2026
abbrev pub new_year : ℕ
new_year = 739616 * 86400000000

abbrev pub utc_new_year : DateTime
utc_new_year = record { local = new_year; utcoffset = some (pos 0) }

abbrev pub utf8 : Utf8
utf8 = record { Bytes = String; encode = λ s. s; decode = λ b. some b; decode_replace = λ b. b }

abbrev fromisoformat : String → Result DateTime
fromisoformat s =
    if s == "2026-01-01T00:00:00.000+00:00"
    then ok utc_new_year
    else throw value_error "Invalid isoformat string"

abbrev pub iso : Iso8601
iso = record {
  fromisoformat = fromisoformat;
  isoformat = λ instant. "2026-01-01T00:00:00.000+00:00";
}

abbrev payload_of : Value → Fields
payload_of transaction_type = field "amount" (integer (pos 2500000)) (
    field "currency" (text "PYG")
      (field "transaction_type" transaction_type (field "channel" (text "mobile") end)))

abbrev pub payload : Fields
payload = payload_of (text "transfer")

abbrev event_of : String → String → Value → Fields
event_of event_id customer_id transaction_type = field "schema_version" (text "1.0") (
    field "event_id" (text event_id) (
      field "customer_id" (text customer_id) (
        field "event_time" (text "2026-01-01T00:00:00.000Z")
          (field "payload" (object (payload_of transaction_type)) end))))

abbrev pub event : Fields
event = event_of "e-1" "C-1" (text "transfer")

abbrev pub other_event : Fields
other_event = event_of "e-2" "C-1" (text "transfer")

abbrev pub event_elsewhere : Fields
event_elsewhere = event_of "e-4" "C-2" (text "transfer")

-- a list stands where the transaction type is due
abbrev pub poison : Fields
poison = event_of "e-3" "C-1" (array nil)

abbrev pub draft : Draft
draft = record {
  event_id = "e-1";
  customer_id = "C-1";
  event_time = utc_new_year;
  amount = pos 2500000;
  transaction_type = "transfer";
  channel = "mobile";
  currency = "PYG";
}

-- an alert as the consumer reads it
abbrev pub alert_of : ℕ → Fields
alert_of revision =
    field "idempotency_key" (text "velocity|C-1|0|60000")
      (field "revision" (integer (pos revision)) end)

abbrev loads : String → Loaded
loads s =
    if s == "event"
    then parsed (object event)
    else if s == "poison"
    then parsed (object poison)
    else if s == "alert 0"
    then parsed (object (alert_of 0))
    else if s == "alert 1"
    then parsed (object (alert_of 1))
    else malformed "Expecting value" 1 1

abbrev dumps : Value → String
dumps value = "{}"

abbrev pub json : Json
json = record { loads = loads; dumps = dumps }
