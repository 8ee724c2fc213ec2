-- ===== src/Contract/Crash.antt =====
-- The exceptions that leave the validator of src/common/event_contract.py.
use streaming_fpuna_proyecto.Base.{
  ℕ, String, ◌≡◌, refl, ◌↔◌, ◌⊎◌, inl, inr, true, false, List, [], ◌∷◌, arith, Bool-cases,
}
use streaming_fpuna_proyecto.Python.{
  type_error, Exception, Result, ok, raise, is_type_or_value_error,
}
use streaming_fpuna_proyecto.Python.Value.{Value, object, Fields, get, is_hashable}
use streaming_fpuna_proyecto.Python.Codec.{Iso8601}
use streaming_fpuna_proyecto.Contract.{
  parse_event_time, event_time_errors, membership_errors, payload_errors, section_errors,
  event_errors, validate_transaction_event,
}

abbrev unhashable : Exception
unhashable = record { class = type_error; message = "unhashable type" }

-- a payload with a list or an object where a name is due
pub record HasUnhashable (v : Value) : Type 0 where
  pub payload : Fields
  pub is_payload : v ≡ object payload
  pub container :
      (is_hashable (get payload "transaction_type") ≡ false)
      ⊎ (is_hashable (get payload "channel") ≡ false)

-- an event time that the parser refuses by an exception that the `try` block does not name
pub record IsUncaught (iso : Iso8601) (v : Value) : Type 0 where
  pub exception : Exception
  pub raised : parse_event_time iso v ≡ raise exception
  pub not_named : is_type_or_value_error exception.class ≡ false

abbrev Raises {ℓ} : {A : Type ℓ} → Result A → Type ℓ
Raises m = (e : Exception) × (m ≡ raise e)

payload_errors-raise :
    (p : Fields)
    → (is_hashable (get p "transaction_type") ≡ false) ⊎ (is_hashable (get p "channel") ≡ false)
    → payload_errors p ≡ raise unhashable
unfolding payload_errors membership_errors
payload_errors-raise p h = ground arith

payload_errors-returns :
    (p : Fields)
    → is_hashable (get p "transaction_type") ≡ true
    → is_hashable (get p "channel") ≡ true
    → (es : List String) × (payload_errors p ≡ ok es)
unfolding payload_errors membership_errors
payload_errors-returns p h k = rw (h, k) (_, refl)

section_errors-raise : (v : Value) → HasUnhashable v → section_errors v ≡ raise unhashable
unfolding section_errors
section_errors-raise v u = rw u.is_payload (payload_errors-raise u.payload u.container)

-- the section is read to its end, or holds a container where a name is due
section_errors-cases :
    (v : Value) → HasUnhashable v ⊎ ((es : List String) × (section_errors v ≡ ok es))
unfolding section_errors
section_errors-cases (object p) = elim (Bool-cases (is_hashable (get p "transaction_type"))) [
  | inr no_type ↦ inl (record { payload = p; is_payload = refl; container = inl no_type })
  | inl type_ok ↦ elim (Bool-cases (is_hashable (get p "channel"))) [
    | inr no_channel ↦ inl (record { payload = p; is_payload = refl; container = inr no_channel })
    | inl channel_ok ↦ inr (payload_errors-returns p type_ok channel_ok)
  ]
]
section_errors-cases _ = inr (_, refl)

module _ (iso : Iso8601) where
  time_errors-cases :
      (v : Value) → IsUncaught iso v ⊎ ((es : List String) × (event_time_errors iso v ≡ ok es))
  unfolding event_time_errors
  time_errors-cases v = go (parse_event_time iso v) refl
    where
      go :
          (r : Result ℕ)
          → parse_event_time iso v ≡ r
          → IsUncaught iso v ⊎ ((es : List String) × (event_time_errors iso v ≡ ok es))
      go (ok t) e = inr ([], ground arith)
      go (raise x) e = elim (Bool-cases (is_type_or_value_error x.class)) [
        | inl named ↦ inr (x.message ∷ [], ground arith)
        | inr other ↦ inl (record { exception = x; raised = e; not_named = other })
      ]

  time_errors-raise :
      (v : Value) (u : IsUncaught iso v) → event_time_errors iso v ≡ raise u.exception
  unfolding event_time_errors
  time_errors-raise v u = ground (arith, u.raised, u.not_named)

  event_errors-returns :
      (event : Fields) {ts ps : List String}
      → event_time_errors iso (get event "event_time") ≡ ok ts
      → section_errors (get event "payload") ≡ ok ps
      → (es : List String) × (event_errors iso event ≡ ok es)
  unfolding event_errors
  event_errors-returns event t p = rw (t, p) (_, refl)

  pub event_errors-cases :
      (event : Fields)
      → (IsUncaught iso (get event "event_time") ⊎ HasUnhashable (get event "payload"))
        ⊎ ((es : List String) × (event_errors iso event ≡ ok es))
  event_errors-cases event = elim (time_errors-cases (get event "event_time")) [
    | inl uncaught ↦ inl (inl uncaught)
    | inr (ts, t) ↦ elim (section_errors-cases (get event "payload")) [
      | inl container ↦ inl (inr container)
      | inr (ps, p) ↦ inr (event_errors-returns event t p)
    ]
  ]

  pub event_errors-raise :
      (event : Fields)
      → IsUncaught iso (get event "event_time") ⊎ HasUnhashable (get event "payload")
      → (e : Exception) × (event_errors iso event ≡ raise e)
  unfolding event_errors
  event_errors-raise event (inl u) = (u.exception, rw (time_errors-raise _ u) refl)
  event_errors-raise event (inr u) = elim (time_errors-cases (get event "event_time")) [
    | inl t ↦ (t.exception, rw (time_errors-raise _ t) refl)
    | inr (ts, t) ↦ (unhashable, rw (t, section_errors-raise _ u) refl)
  ]

  -- The validator lets an exception out, instead of reporting errors, exactly when the event time is
  -- refused by an exception that is neither a TypeError nor a ValueError, or the payload is an object
  -- whose transaction type or channel is a list or an object.
  pub validate-raise_iff :
      (event : Fields)
      → ((e : Exception) × (validate_transaction_event iso (object event) ≡ raise e))
        ↔ (IsUncaught iso (get event "event_time") ⊎ HasUnhashable (get event "payload"))
  unfolding validate_transaction_event
  validate-raise_iff event = (
    λ (e, h). elim (event_errors-cases event) [ inl crash ↦ crash | inr (es, r) ↦ absurd (cc) ],
    event_errors-raise event,
  )
