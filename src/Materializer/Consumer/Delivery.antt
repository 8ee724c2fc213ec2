-- ===== src/Materializer/Consumer/Delivery.antt =====
-- Runs of the consumer of src/materializer/alert_consumer.py, crashes and redeliveries included.
use streaming_fpuna_proyecto.Base.{
  ℕ, ◌<◌, ◌≡◌, refl, sym, ap, subst, ◌∙◌, Bool, Option, List, [], ◌∷◌, ◌++◌, map, ◌⊎◌, inl, inr,
}
use mathlib.Core.List.{map-append}
use streaming_fpuna_proyecto.Python.{Result, ok, raise}
use streaming_fpuna_proyecto.Python.Value.{object, Fields}
use streaming_fpuna_proyecto.Python.Codec.{Utf8, Json}
use streaming_fpuna_proyecto.Materializer.{Table, sqlite_limit, upsert}
use streaming_fpuna_proyecto.Materializer.View.{
  Candidate, View, observe, observe_all, observe_all-append, empty_view,
}
use streaming_fpuna_proyecto.Materializer.Stored.{Stores, is_newer, upsert-Stores, Stores-replay}
use streaming_fpuna_proyecto.Materializer.Consumer.{
  Message, Poll, record_of, Session, decode_message, handle, consume, commit_message, after_commit,
}

module _ (utf8 : Utf8) (json : Json) where
  -- a message that the consumer can decode, accept and store
  pub record Published : Type 0 where
    pub message : Message utf8
    pub candidate : Candidate
    pub decodes : decode_message utf8 json message ≡ ok (candidate.key, candidate.alert)
    pub fits : candidate.revision < sqlite_limit

  abbrev pub candidates : List Published → List Candidate
  candidates = map (λ p. p.candidate)

  abbrev pub messages : List Published → List (Message utf8)
  messages = map (λ p. p.message)

  -- the records that the polls return are the first ones of the rest of the log, in order
  unfoldable pub Delivers : List (Poll utf8) → List Published → Type 0
  Delivers [] rest = Unit
  Delivers (record_of m ∷ polls) [] = ⊥
  Delivers (record_of m ∷ polls) (p ∷ rest) = (m ≡ p.message) × Delivers polls rest
  Delivers (_ ∷ polls) rest = Delivers polls rest

  -- the log from the committed position on
  unfoldable pub remaining : List (Message utf8) → List Published → List Published
  remaining [] log = log
  remaining (_ ∷ committed) [] = []
  remaining (_ ∷ committed) (_ ∷ log) = remaining committed log

  -- a new process: the broker's and the database's state stay, the counters start again
  abbrev pub restart : Session utf8 → Session utf8
  restart s = record {
    committed = s.committed;
    table = s.table;
    messages_read = 0;
    materialized_updates = 0;
  }

  abbrev pub new_group : Session utf8
  new_group = record { committed = []; table = []; messages_read = 0; materialized_updates = 0 }

  -- The states that runs of the consumer reach over a log. A run starts at the committed position; its
  -- polls may end anywhere, and each commit may fail.
  pub data Reachable (log : List Published) : Session utf8 → Type 0 where
    started : Reachable log new_group
    ran :
        (s : Session utf8) (commit : Message utf8 → Result (Unit {0})) (max_messages : Option ℕ)
        (polls : List (Poll utf8))
        → Reachable log s
        → Delivers polls (remaining s.committed log)
        → Reachable log (consume utf8 json commit max_messages polls (restart s)).1

  abbrev pub view_of : List Published → View Fields
  view_of done = observe_all empty_view (candidates done)

  -- the first record of the rest is stored already
  abbrev pub IsAhead : List Published → List Published → Table → Type 0
  IsAhead done [] table = ⊥
  IsAhead done (p ∷ later) table = Stores json (observe (view_of done) p.candidate) table

  abbrev pub IsBetween : List Published → List Published → List (Message utf8) → Table → Type 0
  IsBetween done rest committed table =
      (committed ≡ messages done) × (Stores json (view_of done) table ⊎ IsAhead done rest table)

  -- a position of the log: what was committed, and what is left
  pub record IsAt (log : List Published) (s : Session utf8) : Type 0 where
    pub done : List Published
    pub rest : List Published
    pub split : log ≡ done ++ rest
    pub between : IsBetween done rest s.committed s.table

  pub remaining-append :
      (done rest : List Published) → remaining (messages done) (done ++ rest) ≡ rest
  unfolding remaining
  remaining-append [] rest = refl
  remaining-append (p ∷ done) rest = remaining-append done rest

  -- storing the record that comes next, whether or not a crash has left it there
  upsert_next :
      (done rest : List Published) (p : Published) (table : Table)
      → (Stores json (view_of done) table ⊎ IsAhead done (p ∷ rest) table)
      → (applied : Bool) × ((upsert json p.candidate.key (object p.candidate.alert) table).0
          ≡ ok applied)
        × Stores json
            (observe (view_of done) p.candidate)
            (upsert json p.candidate.key (object p.candidate.alert) table).1
  upsert_next done rest p table (inl level) =
      let (answer, stored) = upsert-Stores json (view_of done) table p.candidate p.fits level in
      (is_newer json (view_of done p.candidate.key) p.candidate.revision, answer, stored)
  upsert_next done rest p table (inr ahead) =
      let view = observe (view_of done) p.candidate in
      let (answer, stored) = upsert-Stores json view table p.candidate p.fits ahead in
      (
        is_newer json (view p.candidate.key) p.candidate.revision,
        answer,
        Stores-replay json (view_of done) p.candidate _ stored,
      )

  -- a record that was stored and committed is done
  IsBetween-committed :
      (done rest : List Published) (p : Published) (table : Table)
      → Stores json (observe (view_of done) p.candidate) table
      → IsBetween (done ++ (p ∷ [])) rest (messages done ++ (p.message ∷ [])) table
  IsBetween-committed done rest p table stored = (
    sym (map-append (λ q. q.message) done (p ∷ [])),
    inl (
        rw
          (
            map-append (λ q. q.candidate) done (p ∷ []),
            observe_all-append empty_view (candidates done) p.candidate,
          )
          stored),
  )

  -- the outcomes of one record: the commit failed and it is stored, or it is done
  abbrev pub Handled :
      List Published → List Published → Published → Result (Unit {0}) → Session utf8 → Type 0
  Handled done rest p (raise e) s = IsBetween done (p ∷ rest) s.committed s.table
  Handled done rest p (ok _) s = IsBetween (done ++ (p ∷ [])) rest s.committed s.table

  commit-Handled :
      (commit : Message utf8 → Result (Unit {0})) (done rest : List Published) (p : Published)
      (applied : Bool) (s : Session utf8)
      → s.committed ≡ messages done
      → Stores json (observe (view_of done) p.candidate) s.table
      → Handled done rest p
          (commit_message utf8 json commit p.message applied s).0
          (commit_message utf8 json commit p.message applied s).1
  commit-Handled commit done rest p applied s position stored = of_outcome (commit p.message)
    where
      of_outcome :
          (outcome : Result (Unit {0}))
          → Handled done rest p
              (after_commit utf8 p.message applied s outcome).0
              (after_commit utf8 p.message applied s outcome).1
      of_outcome (raise e) = (position, inr stored)
      of_outcome (ok _) = rw position (IsBetween-committed done rest p s.table stored)

  handle-eq :
      (commit : Message utf8 → Result (Unit {0})) (p : Published) (s : Session utf8)
      (applied : Bool)
      → (upsert json p.candidate.key (object p.candidate.alert) s.table).0 ≡ ok applied
      → handle utf8 json commit p.message s
        ≡ commit_message utf8 json commit p.message applied (record s {
          table = (upsert json p.candidate.key (object p.candidate.alert) s.table).1;
        })
  unfolding handle
  handle-eq commit p s applied answer = rw (p.decodes, handle) (rw answer refl)

  pub handle-Handled :
      (commit : Message utf8 → Result (Unit {0})) (done rest : List Published) (p : Published)
      (s : Session utf8)
      → IsBetween done (p ∷ rest) s.committed s.table
      → Handled done rest p
          (handle utf8 json commit p.message s).0
          (handle utf8 json commit p.message s).1
  handle-Handled commit done rest p s (position, progress) =
      let (applied, answer, stored) = upsert_next done rest p s.table progress in
      subst (λ r. Handled done rest p r.0 r.1) (sym (handle-eq commit p s applied answer))
        (commit-Handled commit done rest p applied _ position stored)

  -- the commit succeeds
  pub handle-committed :
      (commit : Message utf8 → Result (Unit {0})) (done rest : List Published) (p : Published)
      (s : Session utf8)
      → commit p.message ≡ ok tt
      → IsBetween done (p ∷ rest) s.committed s.table
      → (s' : Session utf8) × (handle utf8 json commit p.message s ≡ (ok tt, s'))
        × IsBetween (done ++ (p ∷ [])) rest s'.committed s'.table
  handle-committed commit done rest p s succeeds (position, progress) =
      let (applied, answer, stored) = upsert_next done rest p s.table progress in
      let s1 : Session utf8 = record s {
        table = (upsert json p.candidate.key (object p.candidate.alert) s.table).1;
      } in
      (
        (after_commit utf8 p.message applied s1 (ok tt)).1,
        handle-eq commit p s applied answer ∙ ap (after_commit utf8 p.message applied s1) succeeds,
        rw position (IsBetween-committed done rest p _ stored),
      )
