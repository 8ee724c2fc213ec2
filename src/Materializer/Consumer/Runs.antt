-- ===== src/Materializer/Consumer/Runs.antt =====
-- The loop of src/materializer/alert_consumer.py over one partition: where it can leave the log.
use streaming_fpuna_proyecto.Base.{
  ℕ, String, ◌≡◌, refl, sym, subst, Option, none, some, List, [], ◌∷◌, ◌++◌, ◌⊎◌, inl, inr,
  Bool-cases, All, ◌≢◌,
}
use mathlib.Core.List.{map-append, append_assoc}
use streaming_fpuna_proyecto.Base.Dict
use streaming_fpuna_proyecto.Base.Dict.{lookup-nil}
use streaming_fpuna_proyecto.Python.{Result, ok, raise}
use streaming_fpuna_proyecto.Python.Value.{Fields}
use streaming_fpuna_proyecto.Python.Codec.{Utf8, Json}
use streaming_fpuna_proyecto.Materializer.{Table, Row}
use streaming_fpuna_proyecto.Materializer.View.{
  Candidate, observe_all, observe_all-append, empty_view,
}
use streaming_fpuna_proyecto.Materializer.Best.{
  IsBest, Outcome, observe_all-Outcome, kept, replaced,
}
use streaming_fpuna_proyecto.Materializer.Stored.{Stores, IsRow, row_of}
use streaming_fpuna_proyecto.Materializer.Consumer.{
  Message, Poll, no_message, partition_eof, broken, record_of, Session, consume, poll_once,
  wants_more, Next, stop, go_on, next_of, go_on_with,
}
use streaming_fpuna_proyecto.Materializer.Consumer.Delivery.{
  Published, candidates, messages, Delivers, restart, Reachable, started, ran, view_of, IsBetween,
  IsAt, IsAhead, remaining-append, Handled, handle-Handled,
}

module _ (utf8 : Utf8) (json : Json) where
  -- where the body of the loop leaves the log
  abbrev Advanced : List (Published utf8 json) → List (Poll utf8) → Next utf8 → Type 0
  Advanced log polls (stop answer s) = IsAt utf8 json log s
  Advanced log polls (go_on s) = (at : IsAt utf8 json log s) × Delivers utf8 json polls at.rest

  abbrev stay :
      (done rest : List (Published utf8 json)) (s : Session utf8)
      → IsBetween utf8 json done rest s.committed s.table
      → IsAt utf8 json (done ++ rest) s
  stay done rest s h = record { done = done; rest = rest; split = refl; between = h }

  next-Advanced :
      (done rest : List (Published utf8 json)) (p : Published utf8 json) (polls : List (Poll utf8))
      (answer : Result (Unit {0})) (s : Session utf8)
      → Handled utf8 json done rest p answer s
      → Delivers utf8 json polls rest
      → Advanced (done ++ (p ∷ rest)) polls (next_of utf8 answer s)
  next-Advanced done rest p polls (raise e) s h d = stay done (p ∷ rest) s h
  next-Advanced done rest p polls (ok _) s h d = (
    record {
      done = done ++ (p ∷ []);
      rest = rest;
      split = sym (append_assoc done (p ∷ []) rest);
      between = h;
    },
    d,
  )

  poll_once-Advanced :
      (commit : Message utf8 → Result (Unit {0})) (done rest : List (Published utf8 json))
      (poll : Poll utf8) (polls : List (Poll utf8)) (s : Session utf8)
      → IsBetween utf8 json done rest s.committed s.table
      → Delivers utf8 json (poll ∷ polls) rest
      → Advanced (done ++ rest) polls (poll_once utf8 json commit poll s)
  unfolding poll_once Delivers
  poll_once-Advanced commit done rest no_message polls s h d = stay done rest s h
  poll_once-Advanced commit done rest partition_eof polls s h d = (stay done rest s h, d)
  poll_once-Advanced commit done rest (broken e) polls s h d = stay done rest s h
  poll_once-Advanced commit done [] (record_of m) polls s h d = absurd d
  poll_once-Advanced commit done (p ∷ rest) (record_of m) polls s h (same, d) =
      rw same
        (next-Advanced done rest p polls _ _ (handle-Handled utf8 json commit done rest p s h) d)

  -- the loop goes from one position of the log to another
  consume-IsAt :
      (commit : Message utf8 → Result (Unit {0})) (max_messages : Option ℕ)
      (polls : List (Poll utf8)) (log : List (Published utf8 json)) (s : Session utf8)
      (at : IsAt utf8 json log s)
      → Delivers utf8 json polls at.rest
      → IsAt utf8 json log (consume utf8 json commit max_messages polls s).1
  unfolding consume
  consume-IsAt commit max_messages [] log s at d = at
  consume-IsAt commit max_messages (poll ∷ polls) log s at d =
      elim (Bool-cases (wants_more utf8 max_messages s)) [
        | inl more ↦
            rw (more, consume)
              (after_poll (λ s' at'. consume-IsAt commit max_messages polls log s' at')
                (poll_once utf8 json commit poll s)
                (rw at.split (poll_once-Advanced commit at.done at.rest poll polls s at.between d)))
        | inr enough ↦ rw (enough, consume) at
      ]
    where
      after_poll :
          ((s' : Session utf8) (at' : IsAt utf8 json log s')
            → Delivers utf8 json polls at'.rest
            → IsAt utf8 json log (consume utf8 json commit max_messages polls s').1)
          → (next : Next utf8) → Advanced log polls next
          → IsAt utf8 json log
              (go_on_with utf8 (consume utf8 json commit max_messages polls) next).1
      after_poll again (stop answer s') h = h
      after_poll again (go_on s') (at', d') = again s' at' d'

  pub reachable-IsAt :
      (log : List (Published utf8 json)) (s : Session utf8)
      → Reachable utf8 json log s
      → IsAt utf8 json log s
  unfolding observe_all
  reachable-IsAt log s started = record {
    done = [];
    rest = log;
    split = refl;
    between = (refl, inl (λ k. lookup-nil {V = Row} k));
  }
  reachable-IsAt log s (ran s0 commit max_messages polls before d) =
      let at = reachable-IsAt log s0 before in
      let at' : IsAt utf8 json log (restart utf8 json s0) = record {
        done = at.done;
        rest = at.rest;
        split = at.split;
        between = at.between;
      } in
      consume-IsAt commit max_messages polls log (restart utf8 json s0) at' (
        subst (Delivers utf8 json polls)
          (rw (at.between.0, at.split) (remaining-append utf8 json at.done at.rest)) d)

  -- the row of the key is of the best of the records, or there is neither
  abbrev pub IsLatestRow : String → List Candidate → Option Row → Type 0
  IsLatestRow k cs none = All (λ d. d.key ≢ k) cs
  IsLatestRow k cs (some row) =
      (best : Candidate) × IsBest k cs best × (row ≡ row_of json best.revision best.alert)

  IsLatestRow-of_Outcome :
      (k : String) (cs : List Candidate) (seen : Option (ℕ × Fields)) (row : Option Row)
      → IsRow json seen row
      → Outcome k none seen cs
      → IsLatestRow k cs row
  IsLatestRow-of_Outcome k cs seen row h (kept e all) =
      let nothing : row ≡ none = rw e at h in rw nothing all
  IsLatestRow-of_Outcome k cs seen row h (replaced best b _ e) =
      let held : IsRow json (some (best.revision, best.alert)) row = rw e at h in
      rw held (best, b, refl)

  pub Stores-IsLatestRow :
      (cs : List Candidate) (table : Table)
      → Stores json (observe_all empty_view cs) table
      → (k : String) → IsLatestRow k cs (Dict.lookup k table)
  Stores-IsLatestRow cs table h k =
      IsLatestRow-of_Outcome k cs _ _ (h k) (observe_all-Outcome cs empty_view k)

  -- The committed messages are the first ones of the log. The table has for every key the row of the
  -- best record of those that are committed, or of these and the next one.
  abbrev pub IsMaterialized : List (Published utf8 json) → Session utf8 → Type 0
  IsMaterialized log s =
      (seen : List (Published utf8 json)) × (done : List (Published utf8 json)) × (rest : List
        (Published utf8 json))
      × (log ≡ done ++ rest)
      × (s.committed ≡ messages utf8 json done)
      × ((seen ≡ done)
          ⊎ ((p : Published utf8 json) × (later : List (Published utf8 json)) × (rest ≡ p ∷ later)
              × (seen ≡ done ++ (p ∷ []))))
      × ((k : String) → IsLatestRow k (candidates utf8 json seen) (Dict.lookup k s.table))

  -- Over a log of messages that the consumer can decode, accept and store, any sequence of its runs,
  -- each starting at the committed position and ending anywhere, with commits that may fail, leaves the
  -- broker at a position of the log: the committed messages are the first ones of the log. The table has
  -- for every key the row of the best record, of those that are committed or of these and the next one.
  pub Reachable-IsLatestRow :
      (log : List (Published utf8 json)) (s : Session utf8)
      → Reachable utf8 json log s
      → IsMaterialized log s
  Reachable-IsLatestRow log s h =
      let at = reachable-IsAt log s h in
      of_progress at.done at.rest at.split at.between.0 at.between.1
    where
      of_progress :
          (done rest : List (Published utf8 json))
          → log ≡ done ++ rest
          → s.committed ≡ messages utf8 json done
          → (Stores json (view_of utf8 json done) s.table ⊎ IsAhead utf8 json done rest s.table)
          → IsMaterialized log s
      of_progress done rest split position (inl level) =
          (done, done, rest, split, position, inl refl, Stores-IsLatestRow _ s.table level)
      of_progress done [] split position (inr ahead) = absurd ahead
      of_progress done (p ∷ later) split position (inr ahead) = (
        done ++ (p ∷ []),
        done,
        p ∷ later,
        split,
        position,
        inr (p, later, refl, refl),
        Stores-IsLatestRow _ s.table (
            rw
              (
                map-append (λ q. q.candidate) done (p ∷ []),
                observe_all-append empty_view (candidates utf8 json done) p.candidate,
              )
              ahead),
      )
