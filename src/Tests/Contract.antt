-- ===== src/Tests/Contract.antt =====
-- The contract of src/common/event_contract.py on the sample events.
use streaming_fpuna_proyecto.Base.{String, ◌≡◌, refl, ◌↔◌, ◌⊎◌, [], String-discrete}
use streaming_fpuna_proyecto.Base.Text.{is_blank, ends_with_z, drop_last}
use streaming_fpuna_proyecto.Base.{contains}
use streaming_fpuna_proyecto.Python.{Exception, ok, raise}
use streaming_fpuna_proyecto.Python.Value.{object, get}
use streaming_fpuna_proyecto.Contract.{
  format_event_time, parse_event_time, parse_event_text, aware_to_utc, astimezone_utc,
  event_time_errors, is_filled_text, id_errors, amount_errors, membership_errors, payload_errors,
  section_errors, event_errors, validate_transaction_event,
}
use streaming_fpuna_proyecto.Contract.Spec.{IsTransaction, validate-ok_iff}
use streaming_fpuna_proyecto.Contract.Crash.{IsUncaught, HasUnhashable, validate-raise_iff}
use streaming_fpuna_proyecto.Contract.Events.{
  build_transaction_event, encode_transaction_event, draft_event, build-ok_iff, encode-ok_iff,
}
use streaming_fpuna_proyecto.Tests.Samples.{utf8, iso, json, event, poison, draft}

pub event_validates : validate_transaction_event iso (object event) ≡ ok []
unfolding validate_transaction_event event_errors get is_blank contains String-discrete
    parse_event_time parse_event_text aware_to_utc astimezone_utc event_time_errors is_filled_text
    id_errors amount_errors membership_errors payload_errors section_errors ends_with_z drop_last
event_validates = refl

pub event-IsTransaction : IsTransaction iso event
event-IsTransaction = (validate-ok_iff iso event).0 event_validates

validate-ok_iff_example :
    (validate_transaction_event iso (object event) ≡ ok []) ↔ IsTransaction iso event
validate-ok_iff_example = validate-ok_iff iso event

validate-raise_iff_example :
    ((e : Exception) × (validate_transaction_event iso (object poison) ≡ raise e))
    ↔ (IsUncaught iso (get poison "event_time") ⊎ HasUnhashable (get poison "payload"))
validate-raise_iff_example = validate-raise_iff iso poison

build-ok_iff_example : (build_transaction_event iso draft ≡ ok event) ↔ (
    (time : String) × (format_event_time iso draft.event_time ≡ ok time)
    × (event ≡ draft_event draft time)
    × IsTransaction iso event)
build-ok_iff_example = build-ok_iff iso draft event

encode-ok_iff_example :
    (encode_transaction_event iso utf8 json event ≡ ok "{}")
    ↔ (IsTransaction iso event × (utf8.encode (json.dumps (object event)) ≡ "{}"))
encode-ok_iff_example = encode-ok_iff iso utf8 json event "{}"
