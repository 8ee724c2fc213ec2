-- ===== src/Materializer/View.antt =====
-- What a reader of src/materializer/alert_consumer.py sees of each key, and the dictionary in memory against it.
use streaming_fpuna_proyecto.Base.{
  ℕ, String, ◌≡◌, refl, inl, inr, Bool, true, false, Option, none, some, List, [], ◌∷◌, ◌++◌, map,
  arith, ltb, if◌then◌else◌, ◌==◌, Bool-cases, related_at_key,
}
use streaming_fpuna_proyecto.Base.Dict
use streaming_fpuna_proyecto.Base.Dict.{Dict, lookup-insert, lookup-nil}
use streaming_fpuna_proyecto.Python.{ok}
use streaming_fpuna_proyecto.Python.Value.{Value, object, Fields}
use streaming_fpuna_proyecto.Materializer.{
  validated_revision, validated_candidate, replaces, keep_latest, materialize_from,
  materialize_latest_alerts,
}

-- a record that `_validated_candidate` accepts
pub record Candidate : Type 0 where
  pub key : String
  pub alert : Fields
  pub revision : ℕ
  pub accepted : validated_candidate key (object alert) ≡ ok (alert, revision)

-- what a reader sees of each key: a revision and an alert
abbrev pub View {ℓ} : Type ℓ → Type ℓ
View A = String → Option (ℕ × A)

-- the highest revision wins, and the first of those that tie
abbrev pub newer {ℓ} : {A : Type ℓ} → Option (ℕ × A) → ℕ → A → Option (ℕ × A)
newer none revision alert = some (revision, alert)
newer (some (current, old)) revision alert =
    if ltb current revision then some (revision, alert) else some (current, old)

abbrev pub observe : View Fields → Candidate → View Fields
observe view c key = if c.key == key then newer (view key) c.revision c.alert else view key

unfoldable pub observe_all : View Fields → List Candidate → View Fields
observe_all view [] = view
observe_all view (c ∷ cs) = observe_all (observe view c) cs

pub observe_all-append :
    (view : View Fields) (cs : List Candidate) (c : Candidate)
    → observe_all view (cs ++ (c ∷ [])) ≡ observe (observe_all view cs) c
unfolding observe_all
observe_all-append view [] c = refl
observe_all-append view (d ∷ cs) c = observe_all-append (observe view d) cs c

abbrev pub empty_view : View Fields
empty_view key = none

-- what is stored for a key, against what a reader sees of it
abbrev pub Holds : Option (ℕ × Fields) → Option Fields → Type 0
Holds none stored = stored ≡ none
Holds (some (revision, alert)) stored =
    (stored ≡ some alert) × (validated_revision alert ≡ ok revision)

abbrev pub Represents : View Fields → Dict Fields → Type 0
Represents view latest = (k : String) → Holds (view k) (Dict.lookup k latest)

revision_of_accepted : (c : Candidate) → validated_revision c.alert ≡ ok c.revision
unfolding validated_candidate
revision_of_accepted c = ground (arith, c.accepted)

Holds-newer :
    (c : Candidate) (seen : Option (ℕ × Fields)) (stored : Option Fields)
    → Holds seen stored
    → (b : Bool) × (replaces stored c.revision ≡ ok b)
      × Holds (newer seen c.revision c.alert) (if b then some c.alert else stored)
unfolding replaces
Holds-newer c none stored h = (true, rw h refl, (refl, revision_of_accepted c))
Holds-newer c (some (r, a)) stored (is_a, is_r) = (
  ltb r c.revision,
  rw is_a (rw is_r refl),
  elim (Bool-cases (ltb r c.revision)) [
    | inl later ↦ rw later (refl, revision_of_accepted c)
    | inr not_later ↦ rw not_later (is_a, is_r)
  ],
)

pub lookup-insert_if :
    {V : Type 0} (j k : String) (b : Bool) (v : V) (d : Dict V)
    → Dict.lookup j (if b then Dict.insert k v d else d)
      ≡ (if k == j then (if b then some v else Dict.lookup j d) else Dict.lookup j d)
lookup-insert_if j k true v d = lookup-insert j k v d
lookup-insert_if j k false v d = ground arith

keep_latest-Represents :
    (view : View Fields) (latest : Dict Fields) (c : Candidate)
    → Represents view latest
    → (latest' : Dict Fields) × (keep_latest latest c.key (object c.alert) ≡ ok latest')
      × Represents (observe view c) latest'
unfolding keep_latest
keep_latest-Represents view latest c h =
    let (b, replaced, held) = Holds-newer c (view c.key) (Dict.lookup c.key latest) (h c.key) in
    (
      if b then Dict.insert c.key c.alert latest else latest,
      rw c.accepted (rw replaced refl),
      λ k. rw (lookup-insert_if k c.key b c.alert latest) (
          related_at_key Holds c.key view (λ j. newer (view j) c.revision c.alert)
            (λ j. Dict.lookup j latest) (λ j. if b then some c.alert else Dict.lookup j latest) h
            held k),
    )

abbrev pub records : List Candidate → List (String × Value)
records = map (λ c. (c.key, object c.alert))

materialize_from-Represents :
    (view : View Fields) (latest : Dict Fields) (cs : List Candidate)
    → Represents view latest
    → (latest' : Dict Fields) × (materialize_from latest (records cs) ≡ ok latest')
      × Represents (observe_all view cs) latest'
unfolding materialize_from observe_all
materialize_from-Represents view latest [] h = (latest, refl, h)
materialize_from-Represents view latest (c ∷ cs) h =
    let (latest', kept, h') = keep_latest-Represents view latest c h in
    let (final, rest, h'') = materialize_from-Represents (observe view c) latest' cs h' in
    (final, rw kept rest, h'')

pub materialize-Represents :
    (cs : List Candidate)
    → (latest : Dict Fields) × (materialize_latest_alerts (records cs) ≡ ok latest)
      × Represents (observe_all empty_view cs) latest
unfolding materialize_latest_alerts
materialize-Represents cs = materialize_from-Represents empty_view [] cs (λ k. lookup-nil k)
