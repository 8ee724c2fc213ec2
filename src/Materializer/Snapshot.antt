-- ===== src/Materializer/Snapshot.antt =====
-- `SQLiteAlertStore.snapshot` of src/materializer/alert_consumer.py: the rows in order, and what they hold.
use Prim.Native.Nat.{Ordering, compare as compare_ℕ}
use Prim.Native.Char.{code}
use Prim.Native.String.{compare, then}
use Prim.Native.String.compare.{cons-cons, nil-cons}
use streaming_fpuna_proyecto.Base.{
  ℕ, String, ◌≡◌, ◌≢◌, refl, sym, ap, ◌∙◌, inl, inr, Option, none, some, [], ◌∷◌, All, ◌==◌,
  eq_of_==, ==_self, if◌then◌else◌, Bool-cases, arith,
}
use streaming_fpuna_proyecto.Base.Dict
use streaming_fpuna_proyecto.Base.Dict.{Dict, IsDict}
use streaming_fpuna_proyecto.Python.{ok}
use streaming_fpuna_proyecto.Python.Value.{Value}
use streaming_fpuna_proyecto.Python.Codec.{Json}
use streaming_fpuna_proyecto.Materializer.{
  Row, Table, load, load_rows, insert_row, order_by_key, snapshot,
}

lt-not-gt : Ordering.lt ≢ Ordering.gt
lt-not-gt h = cc

eq-not-gt : Ordering.eq ≢ Ordering.gt
eq-not-gt h = cc

some-not-none : {A : Type 0} (a : A) → some a ≡ none → ⊥
some-not-none a h = cc

-- inserting among rows of other keys
lookup-insert_row :
    (k j : String) (row : Row) (rows : Table)
    → Dict.lookup j rows ≡ none
    → Dict.lookup k (insert_row (j, row) rows) ≡ (if j == k then some row else Dict.lookup k rows)
unfolding Dict.lookup insert_row
lookup-insert_row k j row [] h = refl
lookup-insert_row k j row ((j', row') ∷ rows) h =
    let rest = lookup-insert_row k j row rows in in_order (compare j j') rest
  where
    in_order :
        (o : Ordering)
        → (Dict.lookup j rows ≡ none
            → Dict.lookup k (insert_row (j, row) rows)
              ≡ (if j == k then some row else Dict.lookup k rows))
        → Dict.lookup k (elim o [
          | Ordering.gt ↦ (j', row') ∷ insert_row (j, row) rows
          | _ ↦ (j, row) ∷ (j', row') ∷ rows
        ])
          ≡ (if j == k then some row else Dict.lookup k ((j', row') ∷ rows))
    in_order Ordering.lt rest = refl
    in_order Ordering.eq rest = refl
    in_order Ordering.gt rest = ground (arith, h, rest)

pub lookup-order_by_key :
    (k : String) (table : Table)
    → IsDict table
    → Dict.lookup k (order_by_key table) ≡ Dict.lookup k table
unfolding Dict.lookup order_by_key
lookup-order_by_key k [] h = refl
lookup-order_by_key k ((j, row) ∷ table) (fresh, h) =
    lookup-insert_row k j row (order_by_key table) (lookup-order_by_key j table h ∙ fresh)
    ∙ ap (λ found. if j == k then some row else found) (lookup-order_by_key k table h)

-- a key that is found after another row
lookup-later :
    (k j : String) (row row' : Row) (table : Table)
    → Dict.lookup k table ≡ none
    → Dict.lookup j table ≡ some row'
    → Dict.lookup j ((k, row) ∷ table) ≡ some row'
unfolding Dict.lookup
lookup-later k j row row' table fresh found = elim (Bool-cases (k == j)) [
  | inl e ↦ absurd (
      some-not-none row' (sym found ∙ ap (λ i. Dict.lookup i table) (sym (eq_of_== k j e)) ∙ fresh))
  | inr e ↦ rw e found
]

-- a predicate of the rows, whatever their order
module _ (P : Row → Type 0) where
  abbrev AllRows : Table → Type 0
  AllRows = All (λ (entry : String × Row). P entry.1)

  AllRows-insert_row :
      (k : String) (row : Row) (rows : Table)
      → P row
      → AllRows rows
      → AllRows (insert_row (k, row) rows)
  unfolding insert_row
  AllRows-insert_row k row [] p ps = (p, tt)
  AllRows-insert_row k row ((k', row') ∷ rows) p (p', ps) =
      in_order (compare k k') (AllRows-insert_row k row rows p ps)
    where
      in_order :
          (o : Ordering)
          → AllRows (insert_row (k, row) rows)
          → AllRows (elim o [
            | Ordering.gt ↦ (k', row') ∷ insert_row (k, row) rows
            | _ ↦ (k, row) ∷ (k', row') ∷ rows
          ])
      in_order Ordering.lt rest = (p, (p', ps))
      in_order Ordering.eq rest = (p, (p', ps))
      in_order Ordering.gt rest = (p', rest)

  AllRows-order_by_key : (table : Table) → AllRows table → AllRows (order_by_key table)
  unfolding order_by_key
  AllRows-order_by_key [] h = tt
  AllRows-order_by_key ((k, row) ∷ table) (p, ps) =
      AllRows-insert_row k row (order_by_key table) p (AllRows-order_by_key table ps)

  -- what holds of every row that a key finds holds of all rows
  AllRows-of_lookup :
      (table : Table)
      → IsDict table
      → ((k : String) (row : Row) → Dict.lookup k table ≡ some row → P row)
      → AllRows table
  AllRows-of_lookup [] h found = tt
  AllRows-of_lookup ((k, row) ∷ table) (fresh, h) found = (
    found k row (unfold Dict.lookup in rw (==_self k) refl),
    AllRows-of_lookup table h
        (λ j row' is_row. found j row' (lookup-later k j row row' table fresh is_row)),
  )

-- keys in order, each no greater than the next
module _ {V : Type 0} where
  abbrev pub IsBefore : String → Dict V → Type 0
  IsBefore k [] = Unit
  IsBefore k ((j, v) ∷ d) = compare k j ≢ Ordering.gt

  abbrev pub IsAscending : Dict V → Type 0
  IsAscending [] = Unit
  IsAscending ((k, v) ∷ d) = IsBefore k d × IsAscending d

then_asym :
    (a b : ℕ) (x y : Ordering)
    → (x ≡ Ordering.gt → y ≢ Ordering.gt)
    → (then) (compare_ℕ a b) x ≡ Ordering.gt
    → (then) (compare_ℕ b a) y ≢ Ordering.gt
then_asym a b x y ih h = ground (arith, ih)

compare_asym : (s t : String) → compare s t ≡ Ordering.gt → compare t s ≢ Ordering.gt
compare_asym String.[] String.[] h = absurd (eq-not-gt h)
compare_asym String.[] (String.◌∷◌ d t) h = absurd (lt-not-gt (sym (nil-cons d t) ∙ h))
compare_asym (String.◌∷◌ c s) String.[] h = λ g. lt-not-gt (sym (nil-cons c s) ∙ g)
compare_asym (String.◌∷◌ c s) (String.◌∷◌ d t) h = rw (cons-cons d c t s) (
    then_asym (code c) (code d) (compare s t) (compare t s) (compare_asym s t)
      (rw (cons-cons c d s t) at h))

IsBefore-insert_row :
    (k j : String) (row : Row) (rows : Table)
    → compare j k ≢ Ordering.gt
    → IsBefore j rows
    → IsBefore j (insert_row (k, row) rows)
unfolding insert_row
IsBefore-insert_row k j row [] first rest = first
IsBefore-insert_row k j row ((k', row') ∷ rows) first rest = in_order (compare k k')
  where
    in_order :
        (o : Ordering)
        → IsBefore j (elim o [
          | Ordering.gt ↦ (k', row') ∷ insert_row (k, row) rows
          | _ ↦ (k, row) ∷ (k', row') ∷ rows
        ])
    in_order Ordering.lt = first
    in_order Ordering.eq = first
    in_order Ordering.gt = rest

IsAscending-insert_row :
    (k : String) (row : Row) (rows : Table)
    → IsAscending rows
    → IsAscending (insert_row (k, row) rows)
unfolding insert_row
IsAscending-insert_row k row [] h = (tt, tt)
IsAscending-insert_row k row ((k', row') ∷ rows) (first, h) =
    in_order (compare k k') refl (IsAscending-insert_row k row rows h)
  where
    in_order :
        (o : Ordering)
        → compare k k' ≡ o
        → IsAscending (insert_row (k, row) rows)
        → IsAscending (elim o [
          | Ordering.gt ↦ (k', row') ∷ insert_row (k, row) rows
          | _ ↦ (k, row) ∷ (k', row') ∷ rows
        ])
    in_order Ordering.lt e rest = (λ g. lt-not-gt (sym e ∙ g), (first, h))
    in_order Ordering.eq e rest = (λ g. eq-not-gt (sym e ∙ g), (first, h))
    in_order Ordering.gt e rest =
        (IsBefore-insert_row k k' row rows (compare_asym k k' e) first, rest)

pub IsAscending-order_by_key : (table : Table) → IsAscending (order_by_key table)
unfolding order_by_key
IsAscending-order_by_key [] = tt
IsAscending-order_by_key ((k, row) ∷ table) =
    IsAscending-insert_row k row (order_by_key table) (IsAscending-order_by_key table)

module _ (json : Json) where
  -- the text of a row can be read
  abbrev pub Loads : Row → Type 0
  Loads row = (alert : Value) × (load json row.alert_json ≡ ok alert)

  -- what the snapshot shows of a key, against its row
  abbrev pub IsShown : Option Row → Option Value → Type 0
  IsShown none shown = shown ≡ none
  IsShown (some row) shown =
      (alert : Value) × (load json row.alert_json ≡ ok alert) × (shown ≡ some alert)

  load_rows-IsShown :
      (rows : Table)
      → IsAscending rows
      → All (λ (entry : String × Row). Loads entry.1) rows
      → (shown : Dict Value) × (load_rows json rows ≡ ok shown)
        × IsAscending shown
        × ((j : String) → IsBefore j rows → IsBefore j shown)
        × ((k : String) → IsShown (Dict.lookup k rows) (Dict.lookup k shown))
  unfolding load_rows Dict.lookup
  load_rows-IsShown [] up h = ([], refl, tt, λ j before. before, λ k. refl)
  load_rows-IsShown ((key, row) ∷ rows) (first, up) ((alert, loaded), h) =
      let (shown, returned, up', before, is_shown) = load_rows-IsShown rows up h in
      (
        (key, alert) ∷ shown,
        rw loaded (rw returned refl),
        (before key first, up'),
        λ j before_key. before_key,
        λ k. elim (Bool-cases (key == k)) [
          | inl e ↦ rw e (alert, loaded, refl)
          | inr e ↦ rw e (is_shown k)
        ],
      )

  -- A table without repeated keys whose texts can be read has a snapshot: its keys are in order, and it
  -- shows for each key what the text in its row reads back as.
  pub snapshot-IsShown :
      (table : Table)
      → IsDict table
      → ((k : String) (row : Row) → Dict.lookup k table ≡ some row → Loads row)
      → (shown : Dict Value) × (snapshot json table ≡ ok shown)
        × IsAscending shown
        × ((k : String) → IsShown (Dict.lookup k table) (Dict.lookup k shown))
  unfolding snapshot
  snapshot-IsShown table h readable =
      let (shown, returned, up, _, is_shown) =
        load_rows-IsShown (order_by_key table) (IsAscending-order_by_key table)
          (AllRows-order_by_key Loads table (AllRows-of_lookup Loads table h readable)) in
      (shown, returned, up, λ k. rw (sym (lookup-order_by_key k table h)) (is_shown k))
