-- ===== src/Materializer/Stored.antt =====
-- The table of src/materializer/alert_consumer.py against the view, and a record stored twice.
use streaming_fpuna_proyecto.Base.{
  ℕ, ◌<◌, String, ◌≡◌, refl, subst, inl, inr, Bool, true, false, Option, none, some, arith, ltb,
  leb, if◌then◌else◌, ◌==◌, Bool-cases, related_at_key,
}
use streaming_fpuna_proyecto.Base.Dict
use streaming_fpuna_proyecto.Base.Dict.{Dict, lookup-insert, lookup-nil}
use streaming_fpuna_proyecto.Python.{ok}
use streaming_fpuna_proyecto.Python.Value.{object, Fields}
use streaming_fpuna_proyecto.Python.Codec.{Json}
use streaming_fpuna_proyecto.Materializer.{Row, Table, sqlite_limit, insert_or_update, upsert}
use streaming_fpuna_proyecto.Materializer.View.{Candidate, View, newer, observe, lookup-insert_if}

module _ (json : Json) where
  abbrev pub row_of : ℕ → Fields → Row
  row_of revision alert = record { revision = revision; alert_json = json.dumps (object alert) }

  -- the row of a key, against what a reader sees of it
  abbrev pub IsRow : Option (ℕ × Fields) → Option Row → Type 0
  IsRow none row = row ≡ none
  IsRow (some (revision, alert)) row = row ≡ some (row_of revision alert)

  abbrev pub Stores : View Fields → Table → Type 0
  Stores view table = (k : String) → IsRow (view k) (Dict.lookup k table)

  -- whether the candidate changes the view
  abbrev pub is_newer : Option (ℕ × Fields) → ℕ → Bool
  is_newer none revision = true
  is_newer (some (current, _)) revision = ltb current revision

  insert_or_update-eq :
      (seen : Option (ℕ × Fields)) (key : String) (row : Row) (table : Table)
      → IsRow seen (Dict.lookup key table)
      → insert_or_update key row table ≡ (
        if is_newer seen row.revision then Dict.insert key row table else table,
        is_newer seen row.revision,
      )
  unfolding insert_or_update
  insert_or_update-eq none key row table h = rw (h, insert_or_update) refl
  insert_or_update-eq (some (r, a)) key row table h = rw (h, insert_or_update) (ground arith)

  IsRow-newer :
      (seen : Option (ℕ × Fields)) (stored : Option Row) (c : Candidate)
      → IsRow seen stored
      → IsRow
          (newer seen c.revision c.alert)
          (if is_newer seen c.revision then some (row_of c.revision c.alert) else stored)
  IsRow-newer none stored c h = refl
  IsRow-newer (some (r, a)) stored c h = elim (Bool-cases (ltb r c.revision)) [
    | inl later ↦ rw later refl
    | inr not_later ↦ rw not_later h
  ]

  -- An upsert of an accepted candidate whose revision SQLite can hold raises nothing. The table then
  -- stores the view in which the highest revision wins, and the answer says whether the revision was
  -- higher than the one that was there, if there was one.
  pub upsert-Stores :
      (view : View Fields) (table : Table) (c : Candidate)
      → c.revision < sqlite_limit
      → Stores view table
      → ((upsert json c.key (object c.alert) table).0 ≡ ok (is_newer (view c.key) c.revision))
        × Stores (observe view c) (upsert json c.key (object c.alert) table).1
  unfolding upsert
  upsert-Stores view table c fits h =
      let small : leb sqlite_limit c.revision ≡ false = ground arith in
      let row = row_of c.revision c.alert in
      let same = insert_or_update-eq (view c.key) c.key row table (h c.key) in
      rw (c.accepted, upsert)
        (rw small (
          rw same (
            refl,
            λ k. rw (lookup-insert_if k c.key (is_newer (view c.key) c.revision) row table) (
                related_at_key IsRow c.key view (λ j. newer (view j) c.revision c.alert)
                  (λ j. Dict.lookup j table)
                  (λ j. if is_newer (view c.key) c.revision then some row else Dict.lookup j table)
                  h (IsRow-newer (view c.key) _ c (h c.key)) k),
          )))

  newer-twice :
      (seen : Option (ℕ × Fields)) (r : ℕ) (a : Fields)
      → newer (newer seen r a) r a ≡ newer seen r a
  newer-twice none r a = ground arith
  newer-twice (some (r', a')) r a = elim (Bool-cases (ltb r' r)) [
    | inl later ↦ rw later (ground arith)
    | inr not_later ↦ rw not_later (ground arith)
  ]

  -- a replay of the record that was observed last changes nothing
  pub observe-twice :
      (view : View Fields) (c : Candidate) (k : String)
      → observe (observe view c) c k ≡ observe view c k
  observe-twice view c k = elim (Bool-cases (c.key == k)) [
    | inl e ↦ rw e (newer-twice (view k) c.revision c.alert)
    | inr e ↦ rw e refl
  ]

  pub Stores-replay :
      (view : View Fields) (c : Candidate) (table : Table)
      → Stores (observe (observe view c) c) table
      → Stores (observe view c) table
  Stores-replay view c table h k =
      subst (λ seen. IsRow seen (Dict.lookup k table)) (observe-twice view c k) (h k)
