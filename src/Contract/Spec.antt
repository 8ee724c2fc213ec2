-- ===== src/Contract/Spec.antt =====
-- What an event of the contract of src/common/event_contract.py is, apart from the code that checks it.
use mathlib.Core.List.{Mem}
use streaming_fpuna_proyecto.Base.{
  ℕ, suc, String, ◌≡◌, refl, ◌↔◌, Bool, true, false, not, List, [], arith, contains_iff,
  append-eq-nil, ==_self, Bool-cases, inl, inr, ◌∙◌, ap,
}
use streaming_fpuna_proyecto.Base.Int.{pos}
use streaming_fpuna_proyecto.Base.Text.{is_blank}
use streaming_fpuna_proyecto.Python.{ok, both-eq-ok, error_if}
use streaming_fpuna_proyecto.Python.Value.{
  Value, null, boolean, integer, floating, text, array, object, Fields, get, is_text,
}
use streaming_fpuna_proyecto.Python.Codec.{Iso8601}
use streaming_fpuna_proyecto.Contract.Instant.{IsInstant, parse_event_time-ok_iff}
use streaming_fpuna_proyecto.Contract.{
  schema_version, allowed_transaction_types, allowed_channels, parse_event_time, event_time_errors,
  is_filled_text, id_errors, amount_errors, membership_errors, payload_errors, section_errors,
  event_errors, validate_transaction_event,
}

-- a text with more than white space
pub record IsFilled (v : Value) : Type 0 where
  pub content : String
  pub is_content : v ≡ text content
  pub filled : is_blank content ≡ false

pub record IsAmount (v : Value) : Type 0 where
  pub below : ℕ
  pub is_amount : v ≡ integer (pos (suc below))

pub record IsOneOf (names : List String) (v : Value) : Type 0 where
  pub name : String
  pub is_name : v ≡ text name
  pub listed : Mem name names

pub record IsPayload (p : Fields) : Type 0 where
  pub amount : IsAmount (get p "amount")
  pub currency : get p "currency" ≡ text "PYG"
  pub transaction_type : IsOneOf allowed_transaction_types (get p "transaction_type")
  pub channel : IsOneOf allowed_channels (get p "channel")

pub record IsTransaction (iso : Iso8601) (event : Fields) : Type 0 where
  pub version : get event "schema_version" ≡ text schema_version
  pub event_id : IsFilled (get event "event_id")
  pub customer_id : IsFilled (get event "customer_id")
  pub instant : ℕ
  pub event_time : IsInstant iso (get event "event_time") instant
  pub payload : Fields
  pub is_payload : get event "payload" ≡ object payload
  pub payload_valid : IsPayload payload

error_if-eq-nil : (b : Bool) (m : String) → error_if (not b) m ≡ [] → b ≡ true
error_if-eq-nil true m h = refl
error_if-eq-nil false m h = cc

is_text-eq : (v : Value) (s : String) → is_text v s ≡ true → v ≡ text s
is_text-eq (text t) s h = ground arith
is_text-eq null s h = cc
is_text-eq (boolean _) s h = cc
is_text-eq (integer _) s h = cc
is_text-eq (floating _) s h = cc
is_text-eq (array _) s h = cc
is_text-eq (object _) s h = cc

IsFilled-of_errors : (name : String) (v : Value) → id_errors name v ≡ [] → IsFilled v
unfolding id_errors is_filled_text
IsFilled-of_errors name (text t) h = record {
  content = t;
  is_content = refl;
  filled = elim (Bool-cases (is_blank t)) [ inl e ↦ absurd (ground arith) | inr e ↦ e ];
}
IsFilled-of_errors name v h = cc

IsAmount-of_errors : (v : Value) → amount_errors v ≡ [] → IsAmount v
unfolding amount_errors
IsAmount-of_errors (integer (pos (suc n))) h = record { below = n; is_amount = refl }
IsAmount-of_errors v h = cc

IsOneOf-of_errors :
    (names : List String) (m : String) (v : Value)
    → membership_errors names m v ≡ ok []
    → IsOneOf names v
unfolding membership_errors
IsOneOf-of_errors names m (text t) h = record {
  name = t;
  is_name = refl;
  listed = (contains_iff names t).0 (ground arith);
}
IsOneOf-of_errors names m v h = cc

amount_errors-eq-nil : (v : Value) → IsAmount v → amount_errors v ≡ []
unfolding amount_errors
amount_errors-eq-nil v a = rw a.is_amount refl

is_text_of_eq : (s : String) {v : Value} → v ≡ text s → is_text v s ≡ true
is_text_of_eq s e = rw e (==_self s)

id_errors-eq-nil : (name : String) (v : Value) → IsFilled v → id_errors name v ≡ []
unfolding id_errors is_filled_text
id_errors-eq-nil name v a = rw (a.is_content, a.filled) refl

membership_errors-eq-nil :
    (names : List String) (m : String) (v : Value)
    → IsOneOf names v
    → membership_errors names m v ≡ ok []
unfolding membership_errors
membership_errors-eq-nil names m v a = rw (a.is_name, (contains_iff names a.name).1 a.listed) refl

IsPayload-of_errors : (p : Fields) → payload_errors p ≡ ok [] → IsPayload p
unfolding payload_errors
IsPayload-of_errors p h =
    let (tx, ch, tx_ok, ch_ok, empty) = both-eq-ok _ _ _ h in
    let (amount, rest) = append-eq-nil _ _ empty in
    let (currency, rest') = append-eq-nil _ _ rest in
    let (tx_nil, ch_nil) = append-eq-nil tx ch rest' in
    record {
      amount = IsAmount-of_errors _ amount;
      currency = is_text-eq _ _ (error_if-eq-nil _ _ currency);
      transaction_type = IsOneOf-of_errors _ _ _ (tx_ok ∙ ap ok tx_nil);
      channel = IsOneOf-of_errors _ _ _ (ch_ok ∙ ap ok ch_nil);
    }

payload_errors-eq-nil : (p : Fields) → IsPayload p → payload_errors p ≡ ok []
unfolding payload_errors
payload_errors-eq-nil p a =
    rw
      (
        is_text_of_eq "PYG" a.currency,
        amount_errors-eq-nil _ a.amount,
        membership_errors-eq-nil _ _ _ a.transaction_type,
        membership_errors-eq-nil _ _ _ a.channel,
      )
      refl

instant_of_errors :
    (iso : Iso8601) (v : Value)
    → event_time_errors iso v ≡ ok []
    → (t : ℕ) × (parse_event_time iso v ≡ ok t)
unfolding event_time_errors
instant_of_errors iso v h = ground arith

event_time_errors-eq-nil :
    (iso : Iso8601) (v : Value) (t : ℕ)
    → parse_event_time iso v ≡ ok t
    → event_time_errors iso v ≡ ok []
unfolding event_time_errors
event_time_errors-eq-nil iso v t h = ground arith

section_errors-eq-nil : (p : Fields) → IsPayload p → section_errors (object p) ≡ ok []
unfolding section_errors
section_errors-eq-nil p a = payload_errors-eq-nil p a

IsPayload-of_section :
    (v : Value) → section_errors v ≡ ok [] → (p : Fields) × (v ≡ object p) × IsPayload p
unfolding section_errors
IsPayload-of_section (object p) h = (p, refl, IsPayload-of_errors p h)
IsPayload-of_section null h = cc
IsPayload-of_section (boolean _) h = cc
IsPayload-of_section (integer _) h = cc
IsPayload-of_section (floating _) h = cc
IsPayload-of_section (text _) h = cc
IsPayload-of_section (array _) h = cc

module _ (iso : Iso8601) where
  IsTransaction-of_errors :
      (event : Fields) → event_errors iso event ≡ ok [] → IsTransaction iso event
  unfolding event_errors
  IsTransaction-of_errors event h =
      let (time, sect, time_ok, sect_ok, empty) =
        both-eq-ok (event_time_errors iso (get event "event_time"))
          (section_errors (get event "payload")) _ h in
      let (version, rest) = append-eq-nil _ _ empty in
      let (event_id, rest₁) = append-eq-nil _ _ rest in
      let (customer_id, rest₂) = append-eq-nil _ _ rest₁ in
      let (time_nil, sect_nil) = append-eq-nil time sect rest₂ in
      let (instant, is_instant) =
        instant_of_errors iso (get event "event_time") (time_ok ∙ ap ok time_nil) in
      let (payload, is_object, valid) =
        IsPayload-of_section (get event "payload") (sect_ok ∙ ap ok sect_nil) in
      record {
        version = is_text-eq _ _ (error_if-eq-nil _ "schema_version must be '1.0'" version);
        event_id = IsFilled-of_errors "event_id" _ event_id;
        customer_id = IsFilled-of_errors "customer_id" _ customer_id;
        instant = instant;
        event_time = (parse_event_time-ok_iff iso _ instant).0 is_instant;
        payload = payload;
        is_payload = is_object;
        payload_valid = valid;
      }

  pub parses :
      (event : Fields) (t : IsTransaction iso event)
      → parse_event_time iso (get event "event_time") ≡ ok t.instant
  parses event t = (parse_event_time-ok_iff iso (get event "event_time") t.instant).1 t.event_time

  event_errors-eq-nil : (event : Fields) → IsTransaction iso event → event_errors iso event ≡ ok []
  unfolding event_errors
  event_errors-eq-nil event a =
      rw
        (
          is_text_of_eq schema_version a.version,
          event_time_errors-eq-nil iso _ _ (parses event a),
          a.is_payload,
          section_errors-eq-nil _ a.payload_valid,
          id_errors-eq-nil _ _ a.event_id,
          id_errors-eq-nil _ _ a.customer_id,
        )
        refl

  -- The validator reports no error for a JSON object exactly when the object is a transaction of the
  -- contract: its version is "1.0", its two identifiers are texts with more than white space, its event
  -- time is a text that fromisoformat reads, a last "Z" as "+00:00", as a time with an offset, whose
  -- instant in UTC a datetime holds, and its payload has a positive integer amount in PYG, a listed
  -- transaction type and a listed channel.
  pub validate-ok_iff :
      (event : Fields)
      → (validate_transaction_event iso (object event) ≡ ok []) ↔ IsTransaction iso event
  unfolding validate_transaction_event
  validate-ok_iff event = (IsTransaction-of_errors event, event_errors-eq-nil event)

  -- The validator reports no error for no value but a JSON object.
  pub valid-object :
      (v : Value) → validate_transaction_event iso v ≡ ok [] → (event : Fields) × (v ≡ object event)
  unfolding validate_transaction_event
  valid-object (object event) h = (event, refl)
  valid-object null h = cc
  valid-object (boolean _) h = cc
  valid-object (integer _) h = cc
  valid-object (floating _) h = cc
  valid-object (text _) h = cc
  valid-object (array _) h = cc
