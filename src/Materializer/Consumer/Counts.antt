-- ===== src/Materializer/Consumer/Counts.antt =====
-- The limit and the counters of `main` in src/materializer/alert_consumer.py.
use streaming_fpuna_proyecto.Base.{
  ℕ, ◌+◌, ◌≤◌, ◌≡◌, Bool, true, false, Option, none, some, List, [], ◌∷◌, length, length-append,
  arith,
}
use streaming_fpuna_proyecto.Python.{Result, ok}
use streaming_fpuna_proyecto.Python.Codec.{Utf8, Json}
use streaming_fpuna_proyecto.Materializer.Consumer.{
  Message, Poll, Session, wants_more, after_commit, consume,
}
use streaming_fpuna_proyecto.Materializer.Consumer.Rule.{consume-keeps}
use streaming_fpuna_proyecto.Materializer.Consumer.Delivery.{restart}

abbrev pub IsWithin : Option ℕ → ℕ → Type 0
IsWithin none n = Unit
IsWithin (some max_messages) n = n ≤ max_messages

module _ (utf8 : Utf8) where
  -- the counters of a run, against what was committed before it
  pub record IsCounted (limit : Option ℕ) (before : ℕ) (s : Session utf8) : Type 0 where
    pub within : IsWithin limit s.messages_read
    pub commits : length s.committed ≡ before + s.messages_read
    pub updates : s.materialized_updates ≤ s.messages_read

  IsWithin-next :
      (limit : Option ℕ) (s : Session utf8)
      → wants_more utf8 limit s ≡ true
      → IsWithin limit (s.messages_read + 1)
  IsWithin-next none s h = tt
  IsWithin-next (some max_messages) s h = ground arith

  committed-IsCounted :
      (limit : Option ℕ) (before : ℕ) (message : Message utf8) (applied : Bool) (s : Session utf8)
      → wants_more utf8 limit s ≡ true
      → IsCounted limit before s
      → IsCounted limit before (after_commit utf8 message applied s (ok tt)).1
  committed-IsCounted limit before message applied s more c = record {
    within = IsWithin-next limit s more;
    commits = omega (arith, length-append s.committed (message ∷ []), c.commits);
    updates = counted applied;
  }
    where
      counted :
          (applied : Bool)
          → (after_commit utf8 message applied s (ok tt)).1.materialized_updates
            ≤ s.messages_read + 1
      counted true = omega (arith, c.updates)
      counted false = omega (arith, c.updates)

  zero-IsWithin : (limit : Option ℕ) → IsWithin limit 0
  zero-IsWithin none = tt
  zero-IsWithin (some max_messages) = omega arith

-- Whatever the polls bring and the commits come to, a run of the loop reads no more messages than its limit,
-- if it has one; it has committed one message for each that it counts as read, after those that were committed
-- before, and counts no more updates than messages read.
pub consume-IsCounted :
    (utf8 : Utf8) (json : Json) (commit : Message utf8 → Result (Unit {0})) (limit : Option ℕ)
    (polls : List (Poll utf8)) (s : Session utf8)
    → IsCounted utf8 limit
        (length s.committed)
        (consume utf8 json commit limit polls (restart utf8 json s)).1
consume-IsCounted utf8 json commit limit polls s =
    consume-keeps utf8 json commit limit (IsCounted utf8 limit (length s.committed))
      (λ key alert s' c. record { within = c.within; commits = c.commits; updates = c.updates })
      (committed-IsCounted utf8 limit (length s.committed)) polls (restart utf8 json s)
      (record { within = zero-IsWithin utf8 limit; commits = omega arith; updates = omega arith })
