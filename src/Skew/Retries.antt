-- ===== src/Skew/Retries.antt =====
-- The loop `while True` of publish_scenarios in src/producer/skew_analysis.py ends when the queue has room.
use streaming_fpuna_proyecto.Base.{
  ℕ, zero, suc, ◌+◌, ◌-◌, ◌≤◌, ◌<◌, ◌≡◌, ◌≢◌, refl, ap, ◌∙◌, subst, inl, inr, Bool-cases, leb, some,
  List, [], ◌∷◌, ◌++◌, arith,
}
use streaming_fpuna_proyecto.Base.Int.{ℤ}
use streaming_fpuna_proyecto.Python.{Exception, ok, raise}
use streaming_fpuna_proyecto.Python.Running.{Ends, Ends-map}
use streaming_fpuna_proyecto.Python.Codec.{Utf8, Json, Iso8601}
use streaming_fpuna_proyecto.Producer.{Sent}
use streaming_fpuna_proyecto.Skew.Client.{
  Attempt, taken, buffer_full, refused, Client, produce_until,
}

-- the queue is never full for more than `patience` calls in a row
abbrev pub IsPatient : (utf8 : Utf8) → Client utf8 → ℕ → Type 0
IsPatient utf8 client patience =
    (call : ℕ) (sent : Sent utf8)
    → (k : ℕ) × (k ≤ patience) × (client.produce (call + k) sent ≢ buffer_full)

module _ (utf8 : Utf8) (client : Client utf8) where
  -- the first of some calls finds the queue full: the next one is still within reach
  next_room :
      (k call : ℕ) (sent : Sent utf8)
      → client.produce (call + k) sent ≢ buffer_full
      → client.produce call sent ≡ buffer_full
      → (0 < k) × (client.produce (suc call + (k - 1)) sent ≢ buffer_full)
  next_room zero call sent room full =
      let same : call + 0 ≡ call = omega arith in
      absurd (room (ap (λ c. client.produce c sent) same ∙ full))
  next_room (suc k) call sent room full =
      let same : call + suc k ≡ suc call + (suc k - 1) = omega arith in
      (omega arith, subst (λ c. client.produce c sent ≢ buffer_full) same room)

  -- some call of `produce` raised the exception
  abbrev pub Refuses : Exception → Type 0
  Refuses e = (call : ℕ) × (sent : Sent utf8) × (client.produce call sent ≡ refused e)

  -- the records that the client took, in order, and the next call: between one and the next, the only calls
  -- are those of the next record that find the queue full
  abbrev pub AreTaken : ℕ → List (Sent utf8) → ℕ → Type 0
  AreTaken first [] next = next ≡ first
  AreTaken first (sent ∷ rest) next =
      (call : ℕ) × (first ≤ call)
      × (client.produce call sent ≡ taken)
      × ((c : ℕ) → first ≤ c → c < call → client.produce c sent ≡ buffer_full)
      × AreTaken (suc call) rest next

  pub AreTaken-append :
      (first : ℕ) (xs ys : List (Sent utf8)) (middle next : ℕ)
      → AreTaken first xs middle
      → AreTaken middle ys next
      → AreTaken first (xs ++ ys) next
  AreTaken-append first [] ys middle next same h = subst (λ m. AreTaken m ys next) same h
  AreTaken-append first (x ∷ xs) ys middle next (call, below, took, full, later) h =
      (call, below, took, full, AreTaken-append (suc call) xs ys middle next later h)

  -- the record is taken, and nothing else
  abbrev pub TakesOne : ℕ → Sent utf8 → ℕ × List (Sent utf8) → Type 0
  TakesOne first sent answer = (answer.1 ≡ sent ∷ []) × AreTaken first (sent ∷ []) answer.0

  TakesOne-later :
      (call : ℕ) (sent : Sent utf8) (answer : ℕ × List (Sent utf8))
      → client.produce call sent ≡ buffer_full
      → TakesOne (suc call) sent answer
      → TakesOne call sent answer
  TakesOne-later call sent answer full (same, (last, below, took, between, next)) =
      (same, (last, omega (arith, below), took, full_between, next))
    where
      full_between : (c : ℕ) → call ≤ c → c < last → client.produce c sent ≡ buffer_full
      full_between c from to = elim (Bool-cases (leb c call)) [
        | inl e ↦
            let here : call ≡ c = ground (arith, e, from) in
            subst (λ m. client.produce m sent ≡ buffer_full) here full
        | inr e ↦ between c (ground (arith, e)) to
      ]

module _ (utf8 : Utf8) (json : Json) (iso : Iso8601) (zone : ℕ → ℤ) (client : Client utf8) where
  pub produce_until-Ends :
      (fuel k call : ℕ) (sent : Sent utf8)
      → client.produce (call + k) sent ≢ buffer_full
      → k < fuel
      → Ends
          (TakesOne utf8 client call sent)
          (Refuses utf8 client)
          (produce_until utf8 json iso zone client fuel call sent)
  unfolding produce_until
  produce_until-Ends zero k call sent room enough = absurd (omega arith)
  produce_until-Ends (suc fuel) k call sent room enough =
      answered (client.produce call sent)
        (λ full.
          let (positive, later) = next_room utf8 client k call sent room full in
          produce_until-Ends fuel (k - 1) (suc call) sent later (omega arith))
        refl
    where
      answered :
          (a : Attempt)
          → (client.produce call sent ≡ buffer_full
              → Ends
                  (TakesOne utf8 client (suc call) sent)
                  (Refuses utf8 client)
                  (produce_until utf8 json iso zone client fuel (suc call) sent))
          → client.produce call sent ≡ a
          → Ends (TakesOne utf8 client call sent) (Refuses utf8 client) (elim a [
            | taken ↦ some (ok (suc call, sent ∷ []))
            | buffer_full ↦ produce_until utf8 json iso zone client fuel (suc call) sent
            | refused e ↦ some (raise e)
          ])
      answered taken again e =
          (refl, (call, omega arith, e, (λ c from to. absurd (omega (arith, from, to))), refl))
      answered (refused x) again e = (call, sent, e)
      answered buffer_full again e =
          Ends-map (TakesOne utf8 client (suc call) sent) (TakesOne utf8 client call sent)
            (Refuses utf8 client) (produce_until utf8 json iso zone client fuel (suc call) sent)
            (λ answer h. TakesOne-later utf8 client call sent answer e h) (again e)
