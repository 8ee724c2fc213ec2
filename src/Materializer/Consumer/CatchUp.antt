-- ===== src/Materializer/Consumer/CatchUp.antt =====
-- A run of src/materializer/alert_consumer.py that nothing interrupts.
use streaming_fpuna_proyecto.Base.{
  String, ◌≡◌, refl, sym, ap, ◌∙◌, none, List, [], ◌∷◌, ◌++◌, map, ◌⊎◌, inl, inr,
}
use mathlib.Core.List.{append_assoc, append-nil}
use streaming_fpuna_proyecto.Base.Dict
use streaming_fpuna_proyecto.Base.Dict.{lookup-nil}
use streaming_fpuna_proyecto.Python.{Result, ok}
use streaming_fpuna_proyecto.Python.Codec.{Utf8, Json}
use streaming_fpuna_proyecto.Materializer.Consumer.{
  Message, Poll, record_of, Session, consume, poll_once,
}
use streaming_fpuna_proyecto.Materializer.Consumer.Runs.{
  reachable-IsAt, IsLatestRow, Stores-IsLatestRow,
}
use streaming_fpuna_proyecto.Materializer.Consumer.Delivery.{
  handle-committed, Published, candidates, messages, remaining, restart, Reachable, IsBetween,
  remaining-append,
}

module _ (utf8 : Utf8) (json : Json) where
  abbrev pub polls_of : List (Published utf8 json) → List (Poll utf8)
  polls_of = map (λ p. record_of p.message)

  -- polls that bring all of the rest, with commits that succeed
  consume-rest :
      (commit : Message utf8 → Result (Unit {0}))
      → ((m : Message utf8) → commit m ≡ ok tt)
      → (done rest : List (Published utf8 json)) (s : Session utf8)
      → IsBetween utf8 json done rest s.committed s.table
      → ((consume utf8 json commit none (polls_of rest) s).0 ≡ ok tt)
        × IsBetween utf8 json
            (done ++ rest)
            []
            (consume utf8 json commit none (polls_of rest) s).1.committed
            (consume utf8 json commit none (polls_of rest) s).1.table
  unfolding consume poll_once
  consume-rest commit succeeds done [] s h = (refl, rw (append-nil done) h)
  consume-rest commit succeeds done (p ∷ rest) s h =
      let (s', returned, h') =
        handle-committed utf8 json commit done rest p s (succeeds p.message) h in
      let (again, between) = consume-rest commit succeeds (done ++ (p ∷ [])) rest s' h' in
      rw (returned, sym (append_assoc done (p ∷ []) rest)) (again, between)

  -- Over a log of messages that the consumer can decode, accept and store, in whatever state earlier runs
  -- left the broker and the table, a run without a limit whose polls bring the rest of the log and whose
  -- commits succeed raises nothing and commits the whole log. The table then has for every key the row
  -- of the best record of the log.
  pub consume-IsLatestRow :
      (log : List (Published utf8 json)) (s : Session utf8)
      (commit : Message utf8 → Result (Unit {0}))
      → Reachable utf8 json log s
      → ((m : Message utf8) → commit m ≡ ok tt)
      → (s' : Session utf8) × (consume utf8 json commit none
            (polls_of (remaining utf8 json s.committed log))
            (restart utf8 json s)
          ≡ (ok tt, s'))
        × (s'.committed ≡ messages utf8 json log)
        × ((k : String)
            → IsLatestRow utf8 json k (candidates utf8 json log) (Dict.lookup k s'.table))
  consume-IsLatestRow log s commit h succeeds =
      let at = reachable-IsAt utf8 json log s h in
      let left : remaining utf8 json s.committed log ≡ at.rest =
        rw (at.between.0, at.split) (remaining-append utf8 json at.done at.rest) in
      let (returned, (position, progress)) =
        consume-rest commit succeeds at.done at.rest (restart utf8 json s) at.between in
      let s' = (consume utf8 json commit none (polls_of at.rest) (restart utf8 json s)).1 in
      (
        s',
        ap (λ rest. consume utf8 json commit none (polls_of rest) (restart utf8 json s)) left
            ∙ ap (λ answer. (answer, s')) returned,
        rw at.split position,
        rw at.split (Stores-IsLatestRow utf8 json _ s'.table (settled progress)),
      )
    where
      settled : {A : Type 0} → (A ⊎ ⊥) → A
      settled (inl a) = a
      settled (inr nothing) = absurd nothing
