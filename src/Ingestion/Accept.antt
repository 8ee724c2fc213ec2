-- ===== src/Ingestion/Accept.antt =====
-- Which records the step of src/pipeline/validation.py accepts.
use streaming_fpuna_proyecto.Base.{
  String, ◌≡◌, refl, sym, ◌∙◌, ap, subst, ◌↔◌, false, Option, some, List, [], ◌++◌, append-eq-nil,
}
use streaming_fpuna_proyecto.Base.Int.{ℤ}
use streaming_fpuna_proyecto.Base.Text.{is_blank}
use streaming_fpuna_proyecto.Python.{ok, >>=-eq-ok, ok-injective}
use streaming_fpuna_proyecto.Python.Value.{Value, text, object, Fields}
use streaming_fpuna_proyecto.Python.Codec.{Utf8, Json, Iso8601, parsed}
use streaming_fpuna_proyecto.Contract.{validate_transaction_event}
use streaming_fpuna_proyecto.Contract.Spec.{IsTransaction, validate-ok_iff, valid-object}
use streaming_fpuna_proyecto.Ingestion.{
  Raw, pair, Emission, timestamped, invalid, timestamp, read_key, read_value, key_errors,
  load_event, event_errors, emit_valid, emit, process_record,
}
use streaming_fpuna_proyecto.Ingestion.Reading.{
  Decodes, read_key-nil, read_value-nil, read_key-Decodes, read_value-Decodes, emit-timestamped,
  key_errors-nil, load_event-nil, load_event-parsed, event_errors-nil, event_errors-ok,
  emit_valid-ok,
}

module _ (utf8 : Utf8) (json : Json) (iso : Iso8601) where
  -- a record that carries a transaction of the contract under the key of its customer
  pub record Carries (raw_key raw_value : Raw utf8) (event : Fields) : Type 0 where
    pub key : String
    pub value : String
    pub key_decodes : Decodes utf8 raw_key key
    pub value_decodes : Decodes utf8 raw_value value
    pub loads : json.loads value ≡ parsed (object event)
    pub transaction : IsTransaction iso event
    pub same_customer : transaction.customer_id.content ≡ key

  -- what the emission of a pair says of it
  abbrev pub Explained : Raw utf8 → Raw utf8 → Emission → Type 0
  Explained raw_key raw_value (timestamped event t) =
      (c : Carries raw_key raw_value event) × (t ≡ timestamp c.transaction.instant)
  Explained raw_key raw_value (invalid _) = Unit

  -- an event that was loaded from bytes, that reports no error and whose key is that of its customer
  Explained-of_parts :
      (raw_key raw_value : Raw utf8) (key value : String) (v : Value)
      → Decodes utf8 raw_key key
      → Decodes utf8 raw_value value
      → json.loads value ≡ parsed v
      → validate_transaction_event iso v ≡ ok []
      → key_errors (some key) v ≡ []
      → (e : Emission) × (emit_valid iso v ≡ ok e) × Explained raw_key raw_value e
  Explained-of_parts raw_key raw_value key value v key_dec value_dec loads valid same =
      let (event, is_object) = valid-object iso v valid in
      let tr = (validate-ok_iff iso event).0 (rw is_object at valid) in
      let id = tr.customer_id in
      (
        timestamped event (timestamp tr.instant),
        rw is_object (emit_valid-ok iso event tr),
        (
          record {
            key = key;
            value = value;
            key_decodes = key_dec;
            value_decodes = value_dec;
            loads = loads ∙ ap parsed is_object;
            transaction = tr;
            same_customer =
                key_errors-nil key id.content event id.is_content id.filled (rw is_object at same);
          },
          refl,
        ),
      )

  -- all the errors that `process` collects, for the two parts of a record
  abbrev pub all_errors :
      Raw utf8 → Raw utf8 → List String × Option Value → List String → List String
  all_errors raw_key raw_value loaded errors =
      (read_key utf8 raw_key).0 ++ ((read_value utf8 raw_value).0 ++ (loaded.0 ++ errors))

  pub Explained-of_no_error :
      (raw_key raw_value : Raw utf8) (loaded : List String × Option Value) (errors : List String)
      → load_event json (read_value utf8 raw_value).1 ≡ ok loaded
      → event_errors iso (read_key utf8 raw_key).1 loaded.1 ≡ ok errors
      → all_errors raw_key raw_value loaded errors ≡ []
      → (v : Value) × (loaded.1 ≡ some v)
        × (e : Emission) × (emit_valid iso v ≡ ok e)
        × Explained raw_key raw_value e
  Explained-of_no_error raw_key raw_value loaded errors l_ok e_ok nothing =
      let (key_nil, rest) = append-eq-nil (read_key utf8 raw_key).0 _ nothing in
      let (value_nil, rest') = append-eq-nil (read_value utf8 raw_value).0 _ rest in
      let (loaded_nil, errors_nil) = append-eq-nil loaded.0 errors rest' in
      let (key, key_dec, key_is) = read_key-nil utf8 raw_key key_nil in
      let (value, value_dec, value_is) = read_value-nil utf8 raw_value value_nil in
      let (v, loads, v_is) = load_event-nil json value (rw value_is at l_ok) loaded_nil in
      let checked : event_errors iso (some key) (some v) ≡ ok [] =
        rw (key_is, v_is) at (e_ok ∙ ap ok errors_nil) in
      let (valid, same) = event_errors-nil iso key v checked in
      let (e, emitted, explained) =
        Explained-of_parts raw_key raw_value key value v key_dec value_dec loads valid same in
      (v, v_is, e, emitted, explained)

  accepted-Explained :
      (raw_key raw_value : Raw utf8) {event : Fields} {t : ℤ}
      → process_record utf8 json iso (pair raw_key raw_value) ≡ ok (timestamped event t)
      → Explained raw_key raw_value (timestamped event t)
  unfolding process_record
  accepted-Explained raw_key raw_value h =
      let (loaded, l_ok, h₁) = >>=-eq-ok (load_event json (read_value utf8 raw_value).1) h in
      let (errors, e_ok, h₂) = >>=-eq-ok (event_errors iso (read_key utf8 raw_key).1 loaded.1) h₁ in
      let (nothing, emitted) = emit-timestamped utf8 iso raw_key raw_value _ _ h₂ in
      let (v, v_is, e, e_emitted, explained) =
        Explained-of_no_error raw_key raw_value loaded errors l_ok e_ok nothing in
      subst (Explained raw_key raw_value) (ok-injective (sym e_emitted ∙ (rw v_is at emitted)))
        explained

  Carries-accepted :
      (raw_key raw_value : Raw utf8) (event : Fields) (c : Carries raw_key raw_value event)
      → process_record utf8 json iso (pair raw_key raw_value)
        ≡ ok (timestamped event (timestamp c.transaction.instant))
  unfolding process_record emit
  Carries-accepted raw_key raw_value event c =
      let id = c.transaction.customer_id in
      let filled : is_blank c.key ≡ false = rw (← c.same_customer) id.filled in
      rw
        (
          read_key-Decodes utf8 raw_key c.key c.key_decodes filled,
          read_value-Decodes utf8 raw_value c.value c.value_decodes,
          load_event-parsed json c.value c.loads,
          event_errors-Carries,
        )
        (emit_valid-ok iso event c.transaction)
    where
      event_errors-Carries : event_errors iso (some c.key) (some (object event)) ≡ ok []
      event_errors-Carries =
          event_errors-ok iso c.key event c.transaction
            (c.transaction.customer_id.is_content ∙ ap text c.same_customer)

  -- A pair of key and value is accepted as an event with a timestamp exactly when both are bytes in
  -- UTF-8, the value is the JSON text of the event, the event is a transaction of the contract, its
  -- customer is the decoded key, and the timestamp is that of the instant which its event time names.
  pub accepted_iff :
      (raw_key raw_value : Raw utf8) (event : Fields) (t : ℤ)
      → (process_record utf8 json iso (pair raw_key raw_value) ≡ ok (timestamped event t))
        ↔ ((c : Carries raw_key raw_value event) × (t ≡ timestamp c.transaction.instant))
  accepted_iff raw_key raw_value event t = (
    accepted-Explained raw_key raw_value,
    λ (c, e).
        Carries-accepted raw_key raw_value event c ∙ ap (λ u. ok (timestamped event u)) (sym e),
  )
