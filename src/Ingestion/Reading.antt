-- ===== src/Ingestion/Reading.antt =====
-- What src/pipeline/validation.py reads of a record, and when it reads it without an error.
use streaming_fpuna_proyecto.Base.{
  ℕ, String, ◌≡◌, refl, ◌∙◌, ap, ◌≢◌, ◌⊎◌, inl, inr, false, Option, none, some, List, [], ◌∷◌,
  arith, append-eq-nil, Option-cases,
}
use streaming_fpuna_proyecto.Base.Int.{ℤ}
use streaming_fpuna_proyecto.Base.Text.{is_blank}
use streaming_fpuna_proyecto.Python.{ok, >>=-eq-ok, ok-injective}
use streaming_fpuna_proyecto.Python.Value.{Value, null, text, object, Fields, get, get_item_of_get}
use streaming_fpuna_proyecto.Python.Codec.{Utf8, Json, Iso8601, parsed}
use streaming_fpuna_proyecto.Contract.{parse_event_time, validate_transaction_event}
use streaming_fpuna_proyecto.Contract.Spec.{parses, IsTransaction, validate-ok_iff}
use streaming_fpuna_proyecto.Ingestion.{
  Raw, absent, bytes, other, timestamped, timestamp, read_key, read_value, key_errors, load_event,
  event_errors, emit_valid, emit,
}

module _ (utf8 : Utf8) where
  -- bytes that decode to the text
  pub record Decodes (raw : Raw utf8) (s : String) : Type 0 where
    pub content : utf8.Bytes
    pub is_bytes : raw ≡ bytes content
    pub decoded : utf8.decode content ≡ some s

  pub read_key-nil :
      (raw : Raw utf8)
      → (read_key utf8 raw).0 ≡ []
      → (key : String) × Decodes raw key × ((read_key utf8 raw).1 ≡ some key)
  unfolding read_key
  read_key-nil (bytes b) h = elim (Option-cases (utf8.decode b)) [
    | inl bad ↦ absurd (ground arith)
    | inr (key, good) ↦ (key, record { content = b; is_bytes = refl; decoded = good }, ground arith)
  ]
  read_key-nil absent h = cc
  read_key-nil (other _) h = cc

  pub read_value-nil :
      (raw : Raw utf8)
      → (read_value utf8 raw).0 ≡ []
      → (s : String) × Decodes raw s × ((read_value utf8 raw).1 ≡ some s)
  unfolding read_value
  read_value-nil (bytes b) h = elim (Option-cases (utf8.decode b)) [
    | inl bad ↦ absurd (ground arith)
    | inr (s, good) ↦ (s, record { content = b; is_bytes = refl; decoded = good }, ground arith)
  ]
  read_value-nil absent h = cc
  read_value-nil (other _) h = cc

  pub read_value-cases :
      (raw : Raw utf8)
      → ((s : String) × Decodes raw s × ((read_value utf8 raw).1 ≡ some s))
        ⊎ ((read_value utf8 raw).1 ≡ none)
  unfolding read_value
  read_value-cases (bytes b) = elim (Option-cases (utf8.decode b)) [
    | inl bad ↦ inr (ground arith)
    | inr (s, good) ↦ inl (s, record { content = b; is_bytes = refl; decoded = good }, ground arith)
  ]
  read_value-cases absent = inr refl
  read_value-cases (other _) = inr refl

  pub read_key-Decodes :
      (raw : Raw utf8) (key : String)
      → Decodes raw key
      → is_blank key ≡ false
      → read_key utf8 raw ≡ ([], some key)
  unfolding read_key
  read_key-Decodes raw key d filled = rw (d.is_bytes, read_key) (rw (d.decoded) (rw filled refl))

  pub read_value-Decodes :
      (raw : Raw utf8) (s : String) → Decodes raw s → read_value utf8 raw ≡ ([], some s)
  unfolding read_value
  read_value-Decodes raw s d = rw (d.is_bytes, read_value) (rw (d.decoded) refl)

pub key_errors-nil :
    (key customer_id : String) (event : Fields)
    → get event "customer_id" ≡ text customer_id
    → is_blank customer_id ≡ false
    → key_errors (some key) (object event) ≡ []
    → customer_id ≡ key
unfolding key_errors
key_errors-nil key customer_id event e filled h = ground arith

key_errors-same :
    (key : String) (event : Fields)
    → get event "customer_id" ≡ text key
    → key_errors (some key) (object event) ≡ []
unfolding key_errors
key_errors-same key event e = ground arith

pub load_event-nil :
    (json : Json) (s : String) {x : List String × Option Value}
    → load_event json (some s) ≡ ok x
    → x.0 ≡ []
    → (v : Value) × (json.loads s ≡ parsed v) × (x.1 ≡ some v)
unfolding load_event
load_event-nil json s h e = ground arith

pub load_event-parsed :
    (json : Json) (s : String) {v : Value}
    → json.loads s ≡ parsed v
    → load_event json (some s) ≡ ok ([], some v)
unfolding load_event
load_event-parsed json s e = rw (e, load_event) refl

pub event_errors-nil :
    (iso : Iso8601) (key : String) (v : Value)
    → event_errors iso (some key) (some v) ≡ ok []
    → (validate_transaction_event iso v ≡ ok []) × (key_errors (some key) v ≡ [])
unfolding event_errors
event_errors-nil iso key v h =
    let (es, valid, joined) = >>=-eq-ok (validate_transaction_event iso v) h in
    let (none_here, none_there) = append-eq-nil es _ (ok-injective joined) in
    (valid ∙ ap ok none_here, none_there)

pub event_errors-ok :
    (iso : Iso8601) (key : String) (event : Fields)
    → IsTransaction iso event
    → get event "customer_id" ≡ text key
    → event_errors iso (some key) (some (object event)) ≡ ok []
unfolding event_errors
event_errors-ok iso key event t e =
    rw ((validate-ok_iff iso event).1 t) (rw (key_errors-same key event e) refl)

module _ (utf8 : Utf8) (iso : Iso8601) where
  pub emit-timestamped :
      (raw_key raw_value : Raw utf8) (v : Value) (es : List String) {event : Fields} {t : ℤ}
      → emit utf8 iso raw_key raw_value v es ≡ ok (timestamped event t)
      → (es ≡ []) × (emit_valid iso v ≡ ok (timestamped event t))
  unfolding emit
  emit-timestamped raw_key raw_value v [] h = (refl, h)
  emit-timestamped raw_key raw_value v (e ∷ es) h = cc

pub time-ne-null : (iso : Iso8601) (v : Value) (t : ℕ) → parse_event_time iso v ≡ ok t → v ≢ null
unfolding parse_event_time
time-ne-null iso null t h e = cc
time-ne-null iso (text _) t h e = cc
time-ne-null iso _ t h e = cc

pub emit_valid-ok :
    (iso : Iso8601) (event : Fields) (t : IsTransaction iso event)
    → emit_valid iso (object event) ≡ ok (timestamped event (timestamp t.instant))
unfolding emit_valid
emit_valid-ok iso event t =
    rw
      (
        get_item_of_get event "event_time" (time-ne-null iso _ _ (parses iso event t)),
        parses iso event t,
      )
      refl
