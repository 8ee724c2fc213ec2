-- ===== src/Materializer/Consumer/Shown.antt =====
-- The end of a run of src/materializer/alert_consumer.py: the snapshot that `main` prints.
use streaming_fpuna_proyecto.Base.{
  ℕ, String, ◌≡◌, ◌≢◌, refl, sym, ◌∙◌, subst, Bool, true, false, inl, inr, Option, none, some, List,
  [], ◌∷◌, ◌++◌, length, All, ltb, leb, if◌then◌else◌, Bool-cases, Option-cases,
}
use streaming_fpuna_proyecto.Base.Dict
use streaming_fpuna_proyecto.Base.Dict.{Dict, IsDict, insert-IsDict}
use streaming_fpuna_proyecto.Python.{Result, ok, Result-cases, ok-injective}
use streaming_fpuna_proyecto.Python.Value.{Value, object, Fields}
use streaming_fpuna_proyecto.Python.Codec.{Utf8, Json, parsed}
use streaming_fpuna_proyecto.Materializer.{
  Row, Table, snapshot, sqlite_limit, validated_candidate, insert_or_update, upsert, load,
}
use streaming_fpuna_proyecto.Materializer.View.{Candidate}
use streaming_fpuna_proyecto.Materializer.Best.{IsBest}
use streaming_fpuna_proyecto.Materializer.Snapshot.{IsAscending, IsShown, Loads, snapshot-IsShown}
use streaming_fpuna_proyecto.Materializer.Consumer.{
  Message, Poll, no_message, Session, Next, stop, go_on, go_on_with, wants_more, poll_once, consume,
  Options, check_args, Report, main,
}
use streaming_fpuna_proyecto.Materializer.Consumer.Rule.{consume-keeps}
use streaming_fpuna_proyecto.Materializer.Consumer.Delivery.{
  Published, candidates, remaining, restart, Reachable, started, ran,
}
use streaming_fpuna_proyecto.Materializer.Consumer.Runs.{IsLatestRow}
use streaming_fpuna_proyecto.Materializer.Consumer.CatchUp.{polls_of, consume-IsLatestRow}

if-IsDict :
    (b : Bool) (key : String) (row : Row) (table : Table)
    → IsDict table
    → IsDict (if◌then◌else◌ {A = Table × Bool} b (Dict.insert key row table, true) (table, false)).0
if-IsDict true key row table h = insert-IsDict key row table h
if-IsDict false key row table h = h

insert_or_update-IsDict :
    (key : String) (excluded : Row) (table : Table)
    → IsDict table
    → IsDict (insert_or_update key excluded table).0
unfolding insert_or_update
insert_or_update-IsDict key excluded table h = elim (Option-cases (Dict.lookup key table)) [
  | inl e ↦ rw (e, insert_or_update) (insert-IsDict key excluded table h)
  | inr (row, e) ↦
      rw (e, insert_or_update) (if-IsDict (ltb row.revision excluded.revision) key excluded table h)
]

module _ (json : Json) where
  upsert-IsDict :
      (key : String) (alert : Value) (table : Table)
      → IsDict table
      → IsDict (upsert json key alert table).1
  unfolding upsert
  upsert-IsDict key alert table h = elim (Result-cases (validated_candidate key alert)) [
    | inl (e, refused) ↦ rw (refused, upsert) h
    | inr ((candidate, revision), accepted) ↦ elim (Bool-cases (leb sqlite_limit revision)) [
      | inl large ↦ rw (accepted, upsert) (rw large h)
      | inr fits ↦ rw (accepted, upsert) (rw fits (insert_or_update-IsDict key _ table h))
    ]
  ]

  consumed-IsDict :
      (utf8 : Utf8) (commit : Message utf8 → Result (Unit {0})) (limit : Option ℕ)
      (polls : List (Poll utf8)) (s : Session utf8)
      → IsDict s.table
      → IsDict (consume utf8 json commit limit polls s).1.table
  consumed-IsDict utf8 commit limit =
      consume-keeps utf8 json commit limit (λ s. IsDict s.table)
        (λ key alert s h. upsert-IsDict key (object alert) s.table h)
        (λ message applied s more h. h)

  -- no key of the table stands twice, whatever runs reach it
  Reachable-IsDict :
      (utf8 : Utf8) (log : List (Published utf8 json)) (s : Session utf8)
      → Reachable utf8 json log s
      → IsDict s.table
  Reachable-IsDict utf8 log s started = tt
  Reachable-IsDict utf8 log s (ran s0 commit limit polls before d) =
      consumed-IsDict utf8 commit limit polls (restart utf8 json s0)
        (Reachable-IsDict utf8 log s0 before)

module _ (utf8 : Utf8) (json : Json) (commit : Message utf8 → Result (Unit {0})) where
  after_poll :
      (limit : Option ℕ) (polls : List (Poll utf8))
      → ((s : Session utf8)
          → consume utf8 json commit limit (polls ++ (no_message ∷ [])) s
            ≡ consume utf8 json commit limit polls s)
      → (next : Next utf8)
      → go_on_with utf8 (consume utf8 json commit limit (polls ++ (no_message ∷ []))) next
        ≡ go_on_with utf8 (consume utf8 json commit limit polls) next
  after_poll limit polls again (stop answer s) = refl
  after_poll limit polls again (go_on s) = again s

  -- a poll that times out ends the loop where it is
  consume-no_message :
      (limit : Option ℕ) (polls : List (Poll utf8)) (s : Session utf8)
      → consume utf8 json commit limit (polls ++ (no_message ∷ [])) s
        ≡ consume utf8 json commit limit polls s
  unfolding consume poll_once
  consume-no_message limit [] s = elim (Bool-cases (wants_more utf8 limit s)) [
    | inl more ↦ rw (more, consume) refl
    | inr enough ↦ rw (enough, consume) refl
  ]
  consume-no_message limit (poll ∷ polls) s = elim (Bool-cases (wants_more utf8 limit s)) [
    | inl more ↦
        rw (more, consume)
          (after_poll limit polls (consume-no_message limit polls)
            (poll_once utf8 json commit poll s))
    | inr enough ↦ rw (enough, consume) refl
  ]

module _ (utf8 : Utf8) (json : Json) (commit : Message utf8 → Result (Unit {0})) where
  abbrev reported : Session utf8 → Dict Value → Report
  reported s shown = record {
    snapshot = shown;
    materialized_keys = length shown;
    messages_read = s.messages_read;
    materialized_updates = s.materialized_updates;
  }

  -- a loop that ends without an exception, and a table that can be read
  main-reports :
      (args : Options) (polls : List (Poll utf8)) (s s' : Session utf8) (shown : Dict Value)
      → check_args args ≡ ok none
      → consume utf8 json commit none polls s ≡ (ok tt, s')
      → snapshot json s'.table ≡ ok shown
      → main utf8 json commit args polls s ≡ (ok (reported s' shown), s')
  unfolding main
  main-reports args polls s s' shown unlimited ran_to returned =
      rw (unlimited, main)
        (rw (consume-no_message utf8 json commit none polls s, ran_to) (rw returned refl))

All-middle :
    {A : Type 0} (P : A → Type 0) (before : List A) (a : A) (after : List A)
    → All P (before ++ (a ∷ after))
    → P a
All-middle P [] a after (p, _) = p
All-middle P (b ∷ before) a after (_, ps) = All-middle P before a after ps

module _ (utf8 : Utf8) (json : Json) (read_back : Fields → Value) where
  -- the alert that the snapshot shows for a key, or none if no record has the key
  abbrev pub IsLatestShown : String → List Candidate → Option Value → Type 0
  IsLatestShown k cs none = All (λ d. d.key ≢ k) cs
  IsLatestShown k cs (some shown) =
      (best : Candidate) × IsBest k cs best × (shown ≡ read_back best.alert)

  -- the text that is stored for an alert reads back as that alert
  abbrev pub ReadsBack : Candidate → Type 0
  ReadsBack c = json.loads (json.dumps (object c.alert)) ≡ parsed (read_back c.alert)

  loaded_best :
      (k : String) (cs : List Candidate) (best : Candidate)
      → All ReadsBack cs
      → IsBest k cs best
      → load json (json.dumps (object best.alert)) ≡ ok (read_back best.alert)
  loaded_best k cs best reads b =
      let read : ReadsBack best =
        All-middle ReadsBack b.before best b.after (subst (All ReadsBack) b.split reads) in
      rw (read, load) refl

  row_readable :
      (k : String) (cs : List Candidate) (row : Row)
      → All ReadsBack cs
      → IsLatestRow utf8 json k cs (some row)
      → Loads json row
  row_readable k cs row reads (best, b, is_row) =
      (read_back best.alert, rw is_row (loaded_best k cs best reads b))

  shown_of :
      (k : String) (cs : List Candidate) (row : Option Row) (shown : Option Value)
      → All ReadsBack cs
      → IsLatestRow utf8 json k cs row
      → IsShown json row shown
      → IsLatestShown k cs shown
  shown_of k cs none shown reads absent e = rw e absent
  shown_of k cs (some row) shown reads (best, b, is_row) (alert, loaded, e) =
      let same : load json (json.dumps (object best.alert)) ≡ ok alert = rw is_row at loaded in
      rw e (best, b, ok-injective (sym same ∙ loaded_best k cs best reads b))

  -- Over a log of messages that the consumer can decode, accept and store, whose stored texts read back as
  -- their alerts, and in whatever state earlier runs left the broker and the table, a run without a limit
  -- whose polls bring the rest of the log before one times out, and whose commits succeed, prints a
  -- snapshot. Its keys are in order, it shows for every key the alert of the best record of the log and
  -- nothing for other keys, and the number of keys that is printed is theirs.
  pub main-IsLatestShown :
      (log : List (Published utf8 json)) (s : Session utf8)
      (commit : Message utf8 → Result (Unit {0})) (args : Options)
      → Reachable utf8 json log s
      → ((m : Message utf8) → commit m ≡ ok tt)
      → check_args args ≡ ok none
      → All ReadsBack (candidates utf8 json log)
      → (report : Report) × (s' : Session utf8) × (main utf8 json commit args
            (polls_of utf8 json (remaining utf8 json s.committed log))
            (restart utf8 json s)
          ≡ (ok report, s'))
        × IsAscending report.snapshot
        × ((k : String)
            → IsLatestShown k (candidates utf8 json log) (Dict.lookup k report.snapshot))
        × (report.materialized_keys ≡ length report.snapshot)
  main-IsLatestShown log s commit args h succeeds unlimited reads =
      let polls = polls_of utf8 json (remaining utf8 json s.committed log) in
      let cs = candidates utf8 json log in
      let (s', ran_to, _, latest) = consume-IsLatestRow utf8 json log s commit h succeeds in
      let distinct : IsDict s'.table =
        subst (λ (r : Result (Unit {0}) × Session utf8). IsDict r.1.table) ran_to
          (consumed-IsDict json utf8 commit none polls (restart utf8 json s)
            (Reachable-IsDict json utf8 log s h)) in
      let (shown, returned, up, is_shown) =
        snapshot-IsShown json s'.table distinct
          (λ k row found. row_readable k cs row reads (rw found at (latest k))) in
      (
        reported utf8 json commit s' shown,
        s',
        main-reports utf8 json commit args polls (restart utf8 json s) s' shown unlimited ran_to
            returned,
        up,
        λ k.
            shown_of k cs (Dict.lookup k s'.table) (Dict.lookup k shown) reads (latest k)
              (is_shown k),
        refl,
      )
