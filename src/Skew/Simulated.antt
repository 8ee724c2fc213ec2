-- ===== src/Skew/Simulated.antt =====
-- `main` of src/producer/skew_analysis.py in the mode `simulate`: when it prints a report.
use mathlib.Core.Option.{some-injective}
use streaming_fpuna_proyecto.Base.{
  ℕ, zero, suc, ◌%◌, String, inl, inr, String-discrete, Bool, true, false, ◌||◌, ◌≡◌, refl, sym, ap,
  ◌∙◌, ◌↔◌, none, some, arith, true_of_not-false,
}
use streaming_fpuna_proyecto.Base.Int.{ℤ, pos, negsuc, pos_part, ltb_ℤ, leb_ℤ}
use streaming_fpuna_proyecto.Base.Text.{is_blank}
use streaming_fpuna_proyecto.Python.{
  Result, ok, Result-cases, raise_if-ok, ◌>>=◌, >>=-eq-ok, >>-eq-ok,
}
use streaming_fpuna_proyecto.Python.Codec.{Utf8, Json, Iso8601}
use streaming_fpuna_proyecto.Skew.{
  SkewScenario, ScenarioSummary, hot_customer_id, partition_for_key, build_reference_scenarios,
  scenarios_of, balanced_records, hot_records, summarize_scenario,
}
use streaming_fpuna_proyecto.Skew.HotKey.{hot_key_undivided}
use streaming_fpuna_proyecto.Skew.Client.{Client}
use streaming_fpuna_proyecto.Skew.Report.{Formats, render_report}
use streaming_fpuna_proyecto.Skew.Main.{Options, observe, summarize, report, main}

-- what the options of a simulation have to be
pub record IsSimulation (args : Options) : Type 0 where
  pub some_events : ltb_ℤ (pos 0) args.events ≡ true
  pub share_in_range : args.share.in_range ≡ true
  pub some_hot : ltb_ℤ (pos 0) (args.share.round_of args.events) ≡ true
  pub some_cold : ltb_ℤ (args.share.round_of args.events) args.events ≡ true
  pub some_partitions : ltb_ℤ (pos 0) args.partitions ≡ true

not-leb : (a b : ℤ) → leb_ℤ a b ≡ false → ltb_ℤ b a ≡ true
not-leb a b h = ground (arith, h)

not-ltb : (a b : ℤ) → ltb_ℤ b a ≡ true → leb_ℤ a b ≡ false
not-ltb a b h = ground (arith, h)

or-false : (a b : Bool) → (a || b) ≡ false → (a ≡ false) × (b ≡ false)
or-false a b h = (ground (arith, h), ground (arith, h))

positive : (a : ℤ) → ltb_ℤ (pos 0) a ≡ true → (n : ℕ) × (a ≡ pos (suc n))
positive (pos zero) h = cc
positive (pos (suc n)) h = (n, refl)
positive (negsuc n) h = absurd (ground (arith, h))

build-ok :
    (args : Options) (built : SkewScenario × SkewScenario)
    → build_reference_scenarios args.events args.share ≡ ok built
    → (ltb_ℤ (pos 0) args.events ≡ true)
      × (args.share.in_range ≡ true)
      × (ltb_ℤ (pos 0) (args.share.round_of args.events) ≡ true)
      × (ltb_ℤ (args.share.round_of args.events) args.events ≡ true)
unfolding build_reference_scenarios scenarios_of
build-ok args built h =
    let (is_positive, h₁) = >>-eq-ok _ h in
    let (in_range, h₂) = >>-eq-ok _ h₁ in
    let (cold_left, h₃) = >>-eq-ok _ h₂ in
    let hot = args.share.round_of args.events in
    let neither = raise_if-ok (leb_ℤ hot (pos 0) || leb_ℤ args.events hot) _ _ cold_left in
    (
      not-leb args.events (pos 0) (raise_if-ok _ _ _ is_positive),
      true_of_not-false args.share.in_range (raise_if-ok _ _ _ in_range),
      not-leb hot (pos 0) (or-false _ _ neither).0,
      not-leb args.events hot (or-false _ _ neither).1,
    )

ok-build :
    (args : Options)
    → IsSimulation args
    → (balanced : SkewScenario) × (hot : SkewScenario) × (build_reference_scenarios args.events
          args.share
        ≡ ok (balanced, hot))
unfolding build_reference_scenarios scenarios_of
ok-build args v =
    let no_event : leb_ℤ args.events (pos 0) ≡ false = not-ltb args.events (pos 0) v.some_events in
    let no_hot : leb_ℤ (args.share.round_of args.events) (pos 0) ≡ false =
      not-ltb (args.share.round_of args.events) (pos 0) v.some_hot in
    let no_cold : leb_ℤ args.events (args.share.round_of args.events) ≡ false =
      not-ltb args.events (args.share.round_of args.events) v.some_cold in
    (
      record { name = "balanced"; records = balanced_records 0 (pos_part args.events) },
      record {
        name = "hot_key";
        records = hot_records (pos_part (args.share.round_of args.events)) 0 (pos_part args.events);
      },
      rw (no_event, v.share_in_range) (rw (no_hot, no_cold) refl),
    )

hot_partition :
    (utf8 : Utf8) (crc32 : utf8.Bytes → ℕ) (n : ℕ)
    → (p : ℕ) × (partition_for_key utf8 crc32 hot_customer_id (pos (suc n)) ≡ ok p)
unfolding partition_for_key is_blank String-discrete
hot_partition utf8 crc32 n =
    let some_partition : leb_ℤ (pos (suc n)) (pos 0) ≡ false = ground arith in
    (crc32 (utf8.encode hot_customer_id) % suc n, rw some_partition refl)

-- what follows a call that returned
returns_after :
    {A B : Type 0} (call : Result A) (next : A → Result B) (a : A)
    → call ≡ ok a
    → (b : B) × (next a ≡ ok b)
    → (b : B) × ((call >>= next) ≡ ok b)
returns_after call next a returned (b, e) = (b, rw returned e)

module _ (utf8 : Utf8) (crc32 : utf8.Bytes → ℕ) (json : Json) (iso : Iso8601) (zone : ℕ → ℤ)
    (formats : Formats) (client : Client utf8) (fuel : ℕ) where
  main-simulated :
      (args : Options)
      → args.publishes ≡ false
      → main utf8 crc32 json iso zone formats client fuel args
        ≡ some (
            build_reference_scenarios args.events args.share >>= λ (balanced, hot).
            report utf8 crc32 json iso zone formats args none balanced hot)
  unfolding main observe
  main-simulated args simulates =
      elim (Result-cases (build_reference_scenarios args.events args.share)) [
        | inl (e, raised) ↦ rw (raised, main) refl
        | inr ((balanced, hot), built) ↦ rw (built, main) (rw simulates refl)
      ]

  summarize-partitions :
      (args : Options) (scenario : SkewScenario) (s : ScenarioSummary)
      → summarize utf8 crc32 json iso zone args none scenario ≡ ok s
      → ltb_ℤ (pos 0) args.partitions ≡ true
  unfolding summarize summarize_scenario
  summarize-partitions args scenario s h =
      let (is_positive, _) = >>-eq-ok _ h in
      not-leb args.partitions (pos 0) (raise_if-ok (leb_ℤ args.partitions (pos 0)) _ _ is_positive)

  report-partitions :
      (args : Options) (balanced hot : SkewScenario) (text : String)
      → report utf8 crc32 json iso zone formats args none balanced hot ≡ ok text
      → ltb_ℤ (pos 0) args.partitions ≡ true
  unfolding report
  report-partitions args balanced hot text h =
      let (first, is_first, _) =
        >>=-eq-ok (summarize utf8 crc32 json iso zone args none balanced) h in
      summarize-partitions args balanced first is_first

  ok-report :
      (args : Options) (balanced hot : SkewScenario)
      → IsSimulation args
      → build_reference_scenarios args.events args.share ≡ ok (balanced, hot)
      → (text : String) × (report utf8 crc32 json iso zone formats args none balanced hot ≡ ok text)
  unfolding report summarize render_report
  ok-report args balanced hot v built =
      let (n, some_partitions) = positive args.partitions v.some_partitions in
      let (_, _, first, is_first, second, is_second, _) =
        hot_key_undivided utf8 crc32 args.events args.share balanced hot n built in
      let (p, is_p) = hot_partition utf8 crc32 n in
      let at_partitions : (scenario : SkewScenario) (t : ScenarioSummary)
          → summarize_scenario utf8 crc32 scenario (pos (suc n)) none ≡ ok t
          → summarize_scenario utf8 crc32 scenario args.partitions none ≡ ok t =
        λ scenario t e.
          ap (λ k. summarize_scenario utf8 crc32 scenario k none) some_partitions ∙ e in
      returns_after _ _ first (at_partitions balanced first is_first) (
        returns_after _ _ second (at_partitions hot second is_second) (
          returns_after _ _ p
            (ap (partition_for_key utf8 crc32 hot_customer_id) some_partitions ∙ is_p) (_, refl)))

  -- In the mode `simulate`, `main` prints a report exactly when the number of events and that of partitions
  -- are positive, the share is in its range, and rounding leaves at least one event to the hot key and
  -- one to the others. The client is not called, and no fuel is needed.
  pub simulate-ok_iff :
      (args : Options)
      → args.publishes ≡ false
      → ((text : String) × (main utf8 crc32 json iso zone formats client fuel args
            ≡ some (ok text)))
        ↔ IsSimulation args
  simulate-ok_iff args simulates = (
    λ (text, printed).
        let returned = some-injective _ _ (sym (main-simulated args simulates) ∙ printed) in
        let ((balanced, hot), built, h) =
          >>=-eq-ok (build_reference_scenarios args.events args.share) returned in
        let (some_events, in_range, some_hot, some_cold) = build-ok args (balanced, hot) built in
        record {
          some_events = some_events;
          share_in_range = in_range;
          some_hot = some_hot;
          some_cold = some_cold;
          some_partitions = report-partitions args balanced hot text h;
        },
    λ v.
        let (balanced, hot, built) = ok-build args v in
        let (text, reported) = ok-report args balanced hot v built in
        (text, main-simulated args simulates ∙ ap some (rw built reported)),
  )
