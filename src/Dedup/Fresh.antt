-- ===== src/Dedup/Fresh.antt =====
-- The events with a new identifier, apart from the code of src/pipeline/deduplication.py.
use mathlib.Core.HLevel.{⊥_prop}
use mathlib.Core.List.{
  Mem, Mem-prop, Nodup, Nodup-nil, Nodup-cons, Sublist, nil-sublist, not-mem-nil, mem-cons,
  mem-cons_self, mem-cons_of_mem,
}
use mathlib.Core.List.Sublist
use mathlib.Core.Logic.{◌∨₁◌, ∨₁_prop}
use mathlib.Core.Logic.Or
use streaming_fpuna_proyecto.Base.{
  String, ◌≡◌, refl, ap, ◌↔◌, inl, inr, false, List, [], ◌∷◌, ◌++◌, map, contains, contains_iff,
  if◌then◌else◌, Bool-cases, String-discrete,
}
use streaming_fpuna_proyecto.Python.{ok}
use streaming_fpuna_proyecto.Python.Value.{text, Fields, get_item}

-- an event that has a text for its `event_id`
pub record Identified : Type 0 where
  pub id : String
  pub event : Fields
  pub has_id : get_item event "event_id" ≡ ok (text id)

abbrev pub ids : List Identified → List String
ids = map (λ x. x.id)

abbrev pub events : List Identified → List Fields
events = map (λ x. x.event)

-- the events that a run yields, from the identifiers seen before
unfoldable pub fresh : List String → List Identified → List Identified
fresh seen [] = []
fresh seen (x ∷ xs) =
    let rest = fresh (x.id ∷ seen) xs in
    let same = fresh seen xs in if contains seen x.id then same else x ∷ rest

unfoldable pub seen_after : List String → List Identified → List String
seen_after seen [] = seen
seen_after seen (x ∷ xs) = seen_after (if contains seen x.id then seen else x.id ∷ seen) xs

not-Mem_of_test : (seen : List String) (i : String) → contains seen i ≡ false → ¬ Mem i seen
not-Mem_of_test seen i h m = cc ((contains_iff seen i).1 m)

Mem-tail : {i j : String} {xs : List String} → ¬ (i ≡ j) → Mem i (j ∷ xs) → Mem i xs
Mem-tail differs m = Or.elim Mem-prop (mem-cons.0 m) (λ e. absurd (differs e)) (λ k. k)

pub fresh-Mem→ :
    (xs : List Identified) (seen : List String) (i : String)
    → Mem i (ids (fresh seen xs))
    → Mem i (ids xs) × (¬ Mem i seen)
unfolding fresh
fresh-Mem→ [] seen i m = absurd (not-mem-nil m)
fresh-Mem→ (x ∷ xs) seen i m = elim (Bool-cases (contains seen x.id)) [
  | inl old ↦
      let (there, new) = fresh-Mem→ xs seen i (rw old at m) in (mem-cons_of_mem x.id there, new)
  | inr new ↦
      let m' : Mem i (x.id ∷ ids (fresh (x.id ∷ seen) xs)) = rw new at m in
      Or.elim (hlevel (Mem-prop, ⊥_prop)) (mem-cons.0 m')
        (λ here. (rw here mem-cons_self, rw here (not-Mem_of_test seen x.id new)))
        (λ there.
          let (later, unseen) = fresh-Mem→ xs (x.id ∷ seen) i there in
          (mem-cons_of_mem x.id later, λ k. unseen (mem-cons_of_mem x.id k)))
]

pub fresh-Mem← :
    (xs : List Identified) (seen : List String) (i : String)
    → Mem i (ids xs)
    → ¬ Mem i seen
    → Mem i (ids (fresh seen xs))
unfolding fresh
fresh-Mem← [] seen i m unseen = absurd (not-mem-nil m)
fresh-Mem← (x ∷ xs) seen i m unseen = elim (String-discrete i x.id) [
  | yes e ↦ elim (Bool-cases (contains seen x.id)) [
    | inl old ↦ absurd (unseen (rw e ((contains_iff seen x.id).0 old)))
    | inr new ↦ rw (new, e) mem-cons_self
  ]
  | no differs ↦
      let later : Mem i (ids xs) = Mem-tail differs m in
      elim (Bool-cases (contains seen x.id)) [
        | inl old ↦ rw old (fresh-Mem← xs seen i later unseen)
        | inr new ↦ rw new (
            mem-cons_of_mem x.id
              (fresh-Mem← xs (x.id ∷ seen) i later (λ k. unseen (Mem-tail differs k))))
      ]
]

pub fresh-Nodup : (xs : List Identified) (seen : List String) → Nodup (ids (fresh seen xs))
unfolding fresh
fresh-Nodup [] seen = Nodup-nil
fresh-Nodup (x ∷ xs) seen = elim (Bool-cases (contains seen x.id)) [
  | inl old ↦ rw old (fresh-Nodup xs seen)
  | inr new ↦ rw new (
      Nodup-cons.1
        (λ m. (fresh-Mem→ xs (x.id ∷ seen) x.id m).1 mem-cons_self, fresh-Nodup xs (x.id ∷ seen)))
]

pub fresh-Sublist : (xs : List Identified) (seen : List String) → Sublist (fresh seen xs) xs
unfolding fresh
fresh-Sublist [] seen = nil-sublist []
fresh-Sublist (x ∷ xs) seen = elim (Bool-cases (contains seen x.id)) [
  | inl old ↦ rw old (Sublist.cons x (fresh-Sublist xs seen))
  | inr new ↦ rw new (Sublist.cons-cons x (fresh-Sublist xs (x.id ∷ seen)))
]

-- what a run leaves of the set, in the order of insertion
pub seen_after-Mem :
    (xs : List Identified) (seen : List String) (i : String)
    → Mem i (seen_after seen xs) ↔ (Mem i (ids xs) ∨₁ Mem i seen)
unfolding seen_after
seen_after-Mem [] seen i = (Or.inr, λ d. Or.elim Mem-prop d (λ m. absurd (not-mem-nil m)) (λ m. m))
seen_after-Mem (x ∷ xs) seen i = elim (Bool-cases (contains seen x.id)) [
  | inl old ↦
      let (to, from) = seen_after-Mem xs seen i in
      rw old (
        λ m. Or.elim ∨₁_prop (to m) (λ a. Or.inl (mem-cons_of_mem x.id a)) Or.inr,
        λ d. from (
            Or.elim ∨₁_prop d
              (λ a.
                Or.elim ∨₁_prop (mem-cons.0 a) (λ e. Or.inr (rw e ((contains_iff seen x.id).0 old)))
                  Or.inl)
              Or.inr),
      )
  | inr new ↦
      let (to, from) = seen_after-Mem xs (x.id ∷ seen) i in
      rw new (
        λ m.
            Or.elim ∨₁_prop (to m) (λ a. Or.inl (mem-cons_of_mem x.id a))
              (λ k. Or.elim ∨₁_prop (mem-cons.0 k) (λ e. Or.inl (rw e mem-cons_self)) Or.inr),
        λ d. from (
            Or.elim ∨₁_prop d
              (λ a. Or.elim ∨₁_prop (mem-cons.0 a) (λ e. Or.inr (rw e mem-cons_self)) Or.inl)
              (λ k. Or.inr (mem-cons_of_mem x.id k))),
      )
]

pub fresh-append :
    (xs ys : List Identified) (seen : List String)
    → fresh seen (xs ++ ys) ≡ fresh seen xs ++ fresh (seen_after seen xs) ys
unfolding fresh seen_after
fresh-append [] ys seen = refl
fresh-append (x ∷ xs) ys seen = elim (Bool-cases (contains seen x.id)) [
  | inl old ↦ rw old (fresh-append xs ys seen)
  | inr new ↦ rw new (ap (◌∷◌ x) (fresh-append xs ys (x.id ∷ seen)))
]

pub fresh_of_seen :
    (ys : List Identified) (seen : List String)
    → ((i : String) → Mem i (ids ys) → Mem i seen)
    → fresh seen ys ≡ []
unfolding fresh
fresh_of_seen [] seen h = refl
fresh_of_seen (y ∷ ys) seen h =
    rw ((contains_iff seen y.id).1 (h y.id mem-cons_self))
      (fresh_of_seen ys seen (λ i m. h i (mem-cons_of_mem y.id m)))
