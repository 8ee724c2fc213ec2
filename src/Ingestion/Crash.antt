-- ===== src/Ingestion/Crash.antt =====
-- Which records end the step of src/pipeline/validation.py by an exception.
use streaming_fpuna_proyecto.Base.{
  ℕ, String, ◌≡◌, refl, ◌∙◌, ap, ◌↔◌, ◌⊎◌, inl, inr, Option, none, some, List, [], ◌∷◌, ◌++◌,
}
use streaming_fpuna_proyecto.Python.{Exception, ok, raise}
use streaming_fpuna_proyecto.Python.Value.{
  Value, null, boolean, integer, floating, text, array, object, Fields, get,
}
use streaming_fpuna_proyecto.Python.Codec.{Utf8, Json, Iso8601, Loaded, parsed, malformed, failed}
use streaming_fpuna_proyecto.Contract.{validate_transaction_event}
use streaming_fpuna_proyecto.Contract.Crash.{
  IsUncaught, HasUnhashable, event_errors-cases, event_errors-raise,
}
use streaming_fpuna_proyecto.Ingestion.{
  Raw, pair, Emission, read_key, read_value, key_errors, load_event, event_errors, emit,
  process_record,
}
use streaming_fpuna_proyecto.Ingestion.Reading.{Decodes, read_value-Decodes, read_value-cases}
use streaming_fpuna_proyecto.Ingestion.Accept.{all_errors, Explained-of_no_error}

module _ (json : Json) (iso : Iso8601) where
  -- a text that `json.loads` or the validator cannot deal with
  pub data IsPoison (s : String) : Type 0 where
    unloadable : (e : Exception) → json.loads s ≡ failed e → IsPoison s
    unchecked :
        (event : Fields)
        → json.loads s ≡ parsed (object event)
        → IsUncaught iso (get event "event_time") ⊎ HasUnhashable (get event "payload")
        → IsPoison s

  -- a text is poison, or its event and the errors of the event are read for any key
  Read : Option String → Option String → Type 0
  Read key o =
      (loaded : List String × Option Value) × (errors : List String) × (load_event json o
        ≡ ok loaded)
      × (event_errors iso key loaded.1 ≡ ok errors)

  validate-cases :
      (v : Value)
      → ((event : Fields) × (v ≡ object event)
          × (IsUncaught iso (get event "event_time") ⊎ HasUnhashable (get event "payload")))
        ⊎ ((es : List String) × (validate_transaction_event iso v ≡ ok es))
  unfolding validate_transaction_event
  validate-cases (object event) = elim (event_errors-cases iso event) [
    | inl crash ↦ inl (event, refl, crash)
    | inr returned ↦ inr returned
  ]
  validate-cases null = inr (_, refl)
  validate-cases (boolean _) = inr (_, refl)
  validate-cases (integer _) = inr (_, refl)
  validate-cases (floating _) = inr (_, refl)
  validate-cases (text _) = inr (_, refl)
  validate-cases (array _) = inr (_, refl)

  Read-parsed :
      (key : Option String) (s : String) (v : Value)
      → json.loads s ≡ parsed v
      → IsPoison s ⊎ Read key (some s)
  unfolding Read load_event event_errors
  Read-parsed key s v e = elim (validate-cases v) [
    | inl (event, is_object, crash) ↦ inl (unchecked event (e ∙ ap parsed is_object) crash)
    | inr (es, valid) ↦
        inr (([], some v), es ++ key_errors key v, rw (e, load_event) refl, rw valid refl)
  ]

  load_event-malformed :
      (s : String) {m : String} {l c : ℕ}
      → json.loads s ≡ malformed m l c
      → (es : List String) × (load_event json (some s) ≡ ok (es, none))
  unfolding load_event
  load_event-malformed s e = rw (e, load_event) (_, refl)

  Read-cases : (key : Option String) (s : String) → IsPoison s ⊎ Read key (some s)
  unfolding Read load_event event_errors
  Read-cases key s = go (json.loads s) refl
    where
      go : (l : Loaded) → json.loads s ≡ l → IsPoison s ⊎ Read key (some s)
      go (parsed v) e = Read-parsed key s v e
      go (malformed m l c) e =
          let (es, l_ok) = load_event-malformed s e in inr ((es, none), [], l_ok, refl)
      go (failed x) e = inl (unloadable x e)

  -- a text that is poison raises whatever the key is
  IsPoison-raise :
      (key : Option String) (s : String)
      → IsPoison s
      → ((e : Exception) × (load_event json (some s) ≡ raise e))
        ⊎ ((e : Exception) × (v : Value) × (load_event json (some s) ≡ ok ([], some v))
            × (event_errors iso key (some v) ≡ raise e))
  unfolding load_event event_errors validate_transaction_event
  IsPoison-raise key s (unloadable e refused) = inl (e, rw (refused, load_event) refl)
  IsPoison-raise key s (unchecked event loads crash) =
      let (e, raised) = event_errors-raise iso event crash in
      inr (e, object event, rw (loads, load_event) refl, rw raised refl)

  module _ (utf8 : Utf8) (raw_key raw_value : Raw utf8) where
    emit_of_errors :
        (loaded : List String × Option Value) (errors : List String)
        → load_event json (read_value utf8 raw_value).1 ≡ ok loaded
        → event_errors iso (read_key utf8 raw_key).1 loaded.1 ≡ ok errors
        → (es : List String) → all_errors utf8 json iso raw_key raw_value loaded errors ≡ es
        → (e : Emission) × (emit utf8 iso raw_key raw_value
              (elim loaded.1 [ none ↦ null | some v ↦ v ])
              es
            ≡ ok e)
    unfolding emit
    emit_of_errors loaded errors l_ok e_ok [] nothing =
        let (v, v_is, e, emitted, _) =
          Explained-of_no_error utf8 json iso raw_key raw_value loaded errors l_ok e_ok nothing in
        (e, rw v_is emitted)
    emit_of_errors loaded errors l_ok e_ok (x ∷ xs) some_error = (_, refl)

    process-returns :
        Read (read_key utf8 raw_key).1 (read_value utf8 raw_value).1
        → (e : Emission) × (process_record utf8 json iso (pair raw_key raw_value) ≡ ok e)
    unfolding process_record Read
    process-returns (loaded, errors, l_ok, e_ok) =
        rw (l_ok, e_ok) (emit_of_errors loaded errors l_ok e_ok _ refl)

    process-raise :
        (s : String)
        → Decodes utf8 raw_value s
        → IsPoison s
        → (e : Exception) × (process_record utf8 json iso (pair raw_key raw_value) ≡ raise e)
    unfolding process_record
    process-raise s d poison =
        rw (read_value-Decodes utf8 raw_value s d)
          (elim (IsPoison-raise (read_key utf8 raw_key).1 s poison) [
            | inl (e, l) ↦ (e, rw l refl)
            | inr (e, v, l, raised) ↦ (e, rw (l, raised) refl)
          ])

    -- a value that decodes to no text is read as no event at all
    value-cases :
        ((s : String) × Decodes utf8 raw_value s × ((read_value utf8 raw_value).1 ≡ some s))
        ⊎ ((read_value utf8 raw_value).1 ≡ none)
    value-cases = read_value-cases utf8 raw_value

    pub process-cases :
        ((s : String) × Decodes utf8 raw_value s × IsPoison s)
        ⊎ ((e : Emission) × (process_record utf8 json iso (pair raw_key raw_value) ≡ ok e))
    unfolding Read load_event event_errors
    process-cases = elim value-cases [
      | inr no_text ↦ inr (process-returns (rw no_text (([], none), [], refl, refl)))
      | inl (s, d, is_s) ↦ elim (Read-cases (read_key utf8 raw_key).1 s) [
        | inl poison ↦ inl (s, d, poison)
        | inr read ↦ inr (process-returns (rw is_s read))
      ]
    ]

    -- On a pair the step ends by an exception, instead of accepting the record or putting it out as invalid,
    -- exactly when the value is UTF-8 for a text that `json.loads` refuses by another exception than
    -- JSONDecodeError, or that holds an object on which the validator raises. The key does not matter.
    pub process-raise_iff :
        ((e : Exception) × (process_record utf8 json iso (pair raw_key raw_value) ≡ raise e))
        ↔ ((s : String) × Decodes utf8 raw_value s × IsPoison s)
    process-raise_iff = (
      λ (e, h). elim process-cases [ inl poison ↦ poison | inr (x, r) ↦ absurd (cc) ],
      λ (s, d, poison). process-raise s d poison,
    )
