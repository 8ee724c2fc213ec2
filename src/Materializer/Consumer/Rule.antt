-- ===== src/Materializer/Consumer/Rule.antt =====
-- What the loop of `main` in src/materializer/alert_consumer.py keeps: a rule for all its runs.
use streaming_fpuna_proyecto.Base.{
  ℕ, String, ◌≡◌, refl, Bool, true, inl, inr, Option, none, some, List, [], ◌∷◌, Bool-cases,
}
use streaming_fpuna_proyecto.Python.{Result, ok, raise, Result-cases}
use streaming_fpuna_proyecto.Python.Value.{object, Fields}
use streaming_fpuna_proyecto.Python.Codec.{Utf8, Json}
use streaming_fpuna_proyecto.Materializer.{Table, upsert}
use streaming_fpuna_proyecto.Materializer.Consumer.{
  Message, Poll, no_message, partition_eof, broken, record_of, Session, next_of, go_on_with,
  decode_message, wants_more, after_commit, handle, poll_once, consume,
}

abbrev pub with_table : {utf8 : Utf8} → Session utf8 → Table → Session utf8
with_table s table = record s { table = table }

-- `Kept` holds where the loop starts; an upsert keeps it, and so does a commit below the limit
module _ (utf8 : Utf8) (json : Json) (commit : Message utf8 → Result (Unit {0})) (limit : Option ℕ)
    (Kept : Session utf8 → Type 0)
    (upsert_keeps : (key : String) (alert : Fields) (s : Session utf8)
      → Kept s
      → Kept (with_table s (upsert json key (object alert) s.table).1))
    (commit_keeps : (message : Message utf8) (applied : Bool) (s : Session utf8)
      → wants_more utf8 limit s ≡ true
      → Kept s
      → Kept (after_commit utf8 message applied s (ok tt)).1) where
  wants_more-with_table :
      (l : Option ℕ) (s : Session utf8) (table : Table)
      → wants_more utf8 l s ≡ true
      → wants_more utf8 l (with_table s table) ≡ true
  wants_more-with_table none s table h = refl
  wants_more-with_table (some max_messages) s table h = h

  outcome-keeps :
      (message : Message utf8) (applied : Bool) (s : Session utf8) (outcome : Result (Unit {0}))
      → wants_more utf8 limit s ≡ true
      → Kept s
      → Kept (after_commit utf8 message applied s outcome).1
  outcome-keeps message applied s (raise e) more kept = kept
  outcome-keeps message applied s (ok done) more kept = commit_keeps message applied s more kept

  handle-keeps :
      (message : Message utf8) (s : Session utf8)
      → wants_more utf8 limit s ≡ true
      → Kept s
      → Kept (handle utf8 json commit message s).1
  unfolding handle
  handle-keeps message s more kept = elim (Result-cases (decode_message utf8 json message)) [
    | inl (e, failed) ↦ rw (failed, handle) kept
    | inr ((key, alert), decoded) ↦
        let kept' = upsert_keeps key alert s kept in
        elim (Result-cases (upsert json key (object alert) s.table).0) [
          | inl (e, failed) ↦ rw (decoded, handle) (rw failed kept')
          | inr (applied, stored) ↦
              rw (decoded, handle)
                (rw stored (
                  outcome-keeps message applied _ (commit message)
                    (wants_more-with_table limit s _ more) kept'))
        ]
  ]

  next-keeps :
      (answer : Result (Unit {0})) (s : Session utf8)
      (after : Session utf8 → Result (Unit {0}) × Session utf8)
      → Kept s
      → ((s' : Session utf8) → Kept s' → Kept (after s').1)
      → Kept (go_on_with utf8 after (next_of utf8 answer s)).1
  next-keeps (raise e) s after kept again = kept
  next-keeps (ok done) s after kept again = again s kept

  poll_once-keeps :
      (poll : Poll utf8) (s : Session utf8)
      (after : Session utf8 → Result (Unit {0}) × Session utf8)
      → wants_more utf8 limit s ≡ true
      → Kept s
      → ((s' : Session utf8) → Kept s' → Kept (after s').1)
      → Kept (go_on_with utf8 after (poll_once utf8 json commit poll s)).1
  unfolding poll_once
  poll_once-keeps no_message s after more kept again = kept
  poll_once-keeps partition_eof s after more kept again = again s kept
  poll_once-keeps (broken e) s after more kept again = kept
  poll_once-keeps (record_of message) s after more kept again =
      next-keeps (handle utf8 json commit message s).0 _ after (handle-keeps message s more kept)
        again

  pub consume-keeps :
      (polls : List (Poll utf8)) (s : Session utf8)
      → Kept s
      → Kept (consume utf8 json commit limit polls s).1
  unfolding consume
  consume-keeps [] s kept = kept
  consume-keeps (poll ∷ polls) s kept = elim (Bool-cases (wants_more utf8 limit s)) [
    | inl more ↦
        rw (more, consume)
          (poll_once-keeps poll s (consume utf8 json commit limit polls) more kept
            (λ s' kept'. consume-keeps polls s' kept'))
    | inr enough ↦ rw (enough, consume) kept
  ]
