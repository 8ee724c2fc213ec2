-- ===== src/Materializer/Best.antt =====
-- The view of src/materializer/alert_consumer.py, told by the records alone.
use streaming_fpuna_proyecto.Base.{
  ℕ, ◌≤◌, ◌<◌, String, ◌≡◌, ◌≢◌, refl, ap, subst, inl, inr, true, false, Option, none, some, List,
  [], ◌∷◌, ◌++◌, arith, ltb, if◌then◌else◌, ◌==◌, eq_of_==, Bool-cases, All,
}
use streaming_fpuna_proyecto.Base.Dict
use streaming_fpuna_proyecto.Base.Dict.{Dict}
use streaming_fpuna_proyecto.Python.{ok}
use streaming_fpuna_proyecto.Python.Value.{Fields}
use streaming_fpuna_proyecto.Materializer.{materialize_latest_alerts}
use streaming_fpuna_proyecto.Materializer.View.{
  Candidate, View, newer, observe, observe_all, empty_view, Holds, records, materialize-Represents,
}

-- the records of the key have a revision below, or at most, the number
abbrev pub AllBelow : String → ℕ → List Candidate → Type 0
AllBelow k r = All (λ d. d.key ≡ k → d.revision < r)

abbrev pub AllAtMost : String → ℕ → List Candidate → Type 0
AllAtMost k r = All (λ d. d.key ≡ k → d.revision ≤ r)

-- the record that a reader of the key should see: no later revision is there, and none as high before it
pub record IsBest (k : String) (cs : List Candidate) (best : Candidate) : Type 0 where
  pub before : List Candidate
  pub after : List Candidate
  pub split : cs ≡ before ++ (best ∷ after)
  pub same_key : best.key ≡ k
  pub below : AllBelow k best.revision before
  pub at_most : AllAtMost k best.revision after

abbrev pub Covers : Option (ℕ × Fields) → Candidate → Type 0
Covers none d = ⊥
Covers (some (r, _)) d = d.revision ≤ r

abbrev pub IsBelow : Option (ℕ × Fields) → ℕ → Type 0
IsBelow none n = Unit
IsBelow (some (r, _)) n = r < n

-- what was seen stays, or the best of the records takes its place
pub data Outcome (k : String) (seen result : Option (ℕ × Fields)) (cs : List Candidate)
    : Type 0 where
  kept : result ≡ seen → All (λ d. d.key ≡ k → Covers seen d) cs → Outcome k seen result cs
  replaced :
      (best : Candidate)
      → IsBest k cs best
      → IsBelow seen best.revision
      → result ≡ some (best.revision, best.alert)
      → Outcome k seen result cs

-- one more record in front, which the best one beats
IsBest-cons :
    {k : String} {cs : List Candidate} {best : Candidate} (d : Candidate)
    → (d.key ≡ k → d.revision < best.revision)
    → IsBest k cs best
    → IsBest k (d ∷ cs) best
IsBest-cons d lower b = record {
  before = d ∷ b.before;
  after = b.after;
  split = ap (◌∷◌ d) b.split;
  same_key = b.same_key;
  below = (lower, b.below);
  at_most = b.at_most;
}

IsBest-here :
    (k : String) (cs : List Candidate) (d : Candidate)
    → d.key ≡ k
    → AllAtMost k d.revision cs
    → IsBest k (d ∷ cs) d
IsBest-here k cs d same rest = record {
  before = [];
  after = cs;
  split = refl;
  same_key = same;
  below = tt;
  at_most = rest;
}

-- a record of another key changes nothing
Outcome-other :
    (k : String) (seen result : Option (ℕ × Fields)) (d : Candidate) (cs : List Candidate)
    → d.key ≢ k
    → Outcome k seen result cs
    → Outcome k seen result (d ∷ cs)
Outcome-other k seen result d cs differ (kept e all) = kept e (λ same. absurd (differ same), all)
Outcome-other k seen result d cs differ (replaced best b under e) =
    replaced best (IsBest-cons d (λ same. absurd (differ same)) b) under e

-- a record that takes the place of what was seen
Outcome-newer :
    (k : String) (seen result : Option (ℕ × Fields)) (d : Candidate) (cs : List Candidate)
    → d.key ≡ k
    → IsBelow seen d.revision
    → Outcome k (some (d.revision, d.alert)) result cs
    → Outcome k seen result (d ∷ cs)
Outcome-newer k seen result d cs same under (kept e all) =
    replaced d (IsBest-here k cs d same all) under e
Outcome-newer k seen result d cs same under (replaced best b higher e) =
    replaced best (IsBest-cons d (λ _. higher) b) (IsBelow-trans seen under higher) e
  where
    IsBelow-trans : (o : Option (ℕ × Fields)) {m n : ℕ} → IsBelow o m → m < n → IsBelow o n
    IsBelow-trans none h l = tt
    IsBelow-trans (some x) h l = omega arith

-- a record that what was seen covers
Outcome-older :
    (k : String) (r : ℕ) (a : Fields) (result : Option (ℕ × Fields)) (d : Candidate)
    (cs : List Candidate)
    → d.revision ≤ r
    → Outcome k (some (r, a)) result cs
    → Outcome k (some (r, a)) result (d ∷ cs)
Outcome-older k r a result d cs low (kept e all) = kept e (λ _. low, all)
Outcome-older k r a result d cs low (replaced best b higher e) =
    replaced best (IsBest-cons d (λ _. omega arith) b) higher e

Outcome-same :
    (k : String) (seen result : Option (ℕ × Fields)) (d : Candidate) (cs : List Candidate)
    → d.key ≡ k
    → Outcome k (newer seen d.revision d.alert) result cs
    → Outcome k seen result (d ∷ cs)
Outcome-same k none result d cs same o = Outcome-newer k none result d cs same tt o
Outcome-same k (some (r, a)) result d cs same o = elim (Bool-cases (ltb r d.revision)) [
  | inl later ↦ Outcome-newer k (some (r, a)) result d cs same (ground arith) (rw later at o)
  | inr not_later ↦ Outcome-older k r a result d cs (ground arith) (rw not_later at o)
]

pub observe_all-Outcome :
    (cs : List Candidate) (view : View Fields) (k : String)
    → Outcome k (view k) (observe_all view cs k) cs
unfolding observe_all
observe_all-Outcome [] view k = kept refl tt
observe_all-Outcome (d ∷ cs) view k =
    let rest = observe_all-Outcome cs (observe view d) k in
    elim (Bool-cases (d.key == k)) [
      | inl e ↦ Outcome-same k (view k) _ d cs (eq_of_== d.key k e) (at_same e rest)
      | inr e ↦ Outcome-other k (view k) _ d cs (λ same. ground arith) (at_other e rest)
    ]
  where
    at_same :
        (d.key == k) ≡ true
        → Outcome k (observe view d k) (observe_all (observe view d) cs k) cs
        → Outcome k (newer (view k) d.revision d.alert) (observe_all (observe view d) cs k) cs
    at_same e o =
        subst
          (λ b.
            Outcome k (if b then newer (view k) d.revision d.alert else view k)
              (observe_all (observe view d) cs k) cs)
          e o

    at_other :
        (d.key == k) ≡ false
        → Outcome k (observe view d k) (observe_all (observe view d) cs k) cs
        → Outcome k (view k) (observe_all (observe view d) cs k) cs
    at_other e o =
        subst
          (λ b.
            Outcome k (if b then newer (view k) d.revision d.alert else view k)
              (observe_all (observe view d) cs k) cs)
          e o

-- what a dictionary that represents a view holds for a key
abbrev pub IsLatest : String → List Candidate → Option Fields → Type 0
IsLatest k cs none = All (λ d. d.key ≢ k) cs
IsLatest k cs (some a) = (best : Candidate) × IsBest k cs best × (a ≡ best.alert)

IsLatest-of_Outcome :
    (k : String) (cs : List Candidate) (seen : Option (ℕ × Fields)) (stored : Option Fields)
    → Holds seen stored
    → Outcome k none seen cs
    → IsLatest k cs stored
IsLatest-of_Outcome k cs seen stored h (kept e all) =
    let nothing : stored ≡ none = rw e at h in rw nothing all
IsLatest-of_Outcome k cs seen stored h (replaced best b _ e) =
    let held : Holds (some (best.revision, best.alert)) stored = rw e at h in
    rw held.0 (best, b, refl)

-- Over records that each carry an alert under its own key with a revision, the loop in memory raises
-- nothing, and the dictionary that it returns holds for every key the alert of the best record: no
-- record of that key has a higher revision, and none before it one as high. A key that no record has
-- is not in the dictionary.
pub materialize-IsLatest :
    (cs : List Candidate)
    → (latest : Dict Fields) × (materialize_latest_alerts (records cs) ≡ ok latest)
      × ((k : String) → IsLatest k cs (Dict.lookup k latest))
materialize-IsLatest cs =
    let (latest, returned, represents) = materialize-Represents cs in
    (
      latest,
      returned,
      λ k. IsLatest-of_Outcome k cs _ _ (represents k) (observe_all-Outcome cs empty_view k),
    )
