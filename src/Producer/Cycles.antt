-- ===== src/Producer/Cycles.antt =====
-- src/producer/synthetic_producer.py: the checks of the options, and the cycles of `main`.
use streaming_fpuna_proyecto.Base.{
  ℕ, zero, suc, ◌+◌, ◌-◌, ◌%◌, ◌≤◌, ◌<◌, String, Bool, true, false, ◌≡◌, ap, ◌∙◌, subst, inl, inr,
  Option, none, some, List, [], ◌∷◌, length, ltb, leb, ◌==◌, if◌then◌else◌, Bool-cases, arith,
}
use streaming_fpuna_proyecto.Base.Int.{ℤ, pos, negsuc, ltb_ℤ}
use streaming_fpuna_proyecto.Python.{
  is_interrupt, exit_status, overflow_error, Exception, Result, ok, raise, throw, raise_if, ◌>>=◌,
  ◌>>◌, >>=-eq-ok,
}
use streaming_fpuna_proyecto.Python.Running.{and_then, Ends, Ends-and_then, Ends-of_call}
use streaming_fpuna_proyecto.Python.Value.{text}
use streaming_fpuna_proyecto.Python.Codec.{DateTime, Utf8, Json, Iso8601}
use streaming_fpuna_proyecto.Contract.{datetime_range, parse_event_time}
use streaming_fpuna_proyecto.Contract.Made.{utc}
use streaming_fpuna_proyecto.Producer.Scenario.{
  demo_rows, IsBase, AreMade, build_demo_scenario-AreMade,
}
use streaming_fpuna_proyecto.Producer.Handed.{HandedOver, made_publishable, publish-HandedOver}
use streaming_fpuna_proyecto.Producer.{
  ScenarioEvent, build_demo_scenario, Sent, Broker, publish_scenario,
}

-- a `float` spacing by what the code asks of it: `spacing <= 0`, and `timedelta(seconds=n * spacing)` in
-- microseconds
pub record Spacing : Type 0 where
  pub not_positive : Bool
  pub times : ℕ → Result ℕ

-- what `parse_args` reads of the command line
pub record Options : Type 0 where
  pub base_time : Option String
  pub interval_negative : Bool
  pub cycles : ℤ
  pub spacing : Spacing

-- the checks at the end of `parse_args`; `parser.error` leaves by `SystemExit(2)`
unfoldable pub check_args : Options → Result (Unit {0})
check_args args = do
  raise_if args.interval_negative (exit_status (pos 2)) "--interval-seconds must be non-negative"
  raise_if (ltb_ℤ args.cycles (pos 0)) (exit_status (pos 2)) "--cycles must be non-negative"
  raise_if args.spacing.not_positive (exit_status (pos 2))
      "--cycle-spacing-seconds must be positive"

module _ (iso : Iso8601) (now : ℕ) where
  -- the time that is given, or the current second
  abbrev pub base_of : Option String → Result ℕ
  base_of none = ok (now - now % 1_000_000)
  base_of (some s) = if s == "" then ok (now - now % 1_000_000) else parse_event_time iso (text s)

-- `base_time + timedelta(seconds=(cycle - 1) * spacing)`, after `cycle - 1` whole cycles
unfoldable pub cycle_base : Spacing → ℕ → ℕ → Result DateTime
cycle_base spacing base done = do
  delta ← spacing.times done
  if leb datetime_range (base + delta)
      then throw overflow_error "date value out of range"
      else ok (record { local = base + delta; utcoffset = some (pos 0) })

-- `cycles == 0 or cycle < cycles`
abbrev pub wants_cycle : ℤ → ℕ → Bool
wants_cycle (pos zero) done = true
wants_cycle (pos (suc n)) done = ltb done (suc n)
wants_cycle (negsuc n) done = false

-- `except KeyboardInterrupt`
abbrev pub catch_interrupt : {A : Type 0} → A → Option (Result A) → Option (Result A)
catch_interrupt stopped none = none
catch_interrupt stopped (some (ok a)) = some (ok a)
catch_interrupt stopped (some (raise e)) =
    if is_interrupt e.class then some (ok stopped) else some (raise e)

module _ (utf8 : Utf8) (json : Json) (iso : Iso8601) (strftime : ℕ → String)
    (producer : ℕ → Option (Broker utf8)) where
  -- one cycle, after `done` of them
  unfoldable pub run_cycle : Spacing → ℕ → ℕ → Result (List (Sent utf8))
  run_cycle spacing base done = do
    base_time ← cycle_base spacing base done
    scenario ← build_demo_scenario iso strftime base_time
    publish_scenario utf8 json iso (producer done) scenario

  -- the `while` loop, on fuel: what was handed over in each cycle
  unfoldable pub run_cycles : ℕ → Options → ℕ → ℕ → Option (Result (List (List (Sent utf8))))
  run_cycles zero args base done = none
  run_cycles (suc fuel) args base done = elim (wants_cycle args.cycles done) [
    | false ↦ some (ok [])
    | true ↦
        and_then (some (run_cycle args.spacing base done))
          λ sent. and_then (run_cycles fuel args base (suc done)) λ rest. some (ok (sent ∷ rest))
  ]

  -- `main`: an interrupt by the user ends it in good order
  unfoldable pub main : ℕ → ℕ → Options → Option (Result ℤ)
  main fuel now args = and_then (some (check_args args)) λ checked.
      and_then (some (base_of iso now args.base_time)) λ base.
        and_then (catch_interrupt [] (run_cycles fuel args base 0)) λ cycles. some (ok (pos 0))

cycle_base-eq :
    (spacing : Spacing) (base done : ℕ) (time : DateTime)
    → cycle_base spacing base done ≡ ok time
    → (delta : ℕ) × (spacing.times done ≡ ok delta)
      × (base + delta < datetime_range)
      × (time ≡ utc (base + delta))
unfolding cycle_base
cycle_base-eq spacing base done time h =
    let (delta, is_delta, h₁) = >>=-eq-ok (spacing.times done) h in
    (delta, is_delta, ground (arith, h₁), ground (arith, h₁))

module _ (utf8 : Utf8) (json : Json) (iso : Iso8601) (strftime : ℕ → String)
    (producer : ℕ → Option (Broker utf8)) where
  -- a cycle after `done` of them: at so many spacings after the base time, the eight events of the demo
  abbrev pub IsCycle : Spacing → ℕ → ℕ → List (Sent utf8) → Type 0
  IsCycle spacing base done sent =
      (delta : ℕ) × (spacing.times done ≡ ok delta)
      × (base + delta < datetime_range)
      × (start : ℕ) × IsBase (utc (base + delta)) start
      × (scenario : List ScenarioEvent) × AreMade iso start (strftime start) demo_rows scenario
      × HandedOver utf8 json iso (producer done) scenario sent

  run_cycle-IsCycle :
      (spacing : Spacing) (base done : ℕ) (sent : List (Sent utf8))
      → run_cycle utf8 json iso strftime producer spacing base done ≡ ok sent
      → IsCycle spacing base done sent
  unfolding run_cycle
  run_cycle-IsCycle spacing base done sent h =
      let (time, is_time, h₁) = >>=-eq-ok (cycle_base spacing base done) h in
      let (scenario, built, published) = >>=-eq-ok (build_demo_scenario iso strftime time) h₁ in
      let (delta, is_delta, below, same) = cycle_base-eq spacing base done time is_time in
      let (start, is_base, made) = build_demo_scenario-AreMade iso strftime time scenario built in
      let (xs, all) =
        made_publishable utf8 json iso start (strftime start) demo_rows scenario made in
      (
        delta,
        is_delta,
        below,
        start,
        subst (λ t. IsBase t start) same is_base,
        scenario,
        made,
        subst (λ l. HandedOver utf8 json iso (producer done) l sent) all
            (publish-HandedOver utf8 json iso (producer done) xs sent
              (ap (publish_scenario utf8 json iso (producer done)) all ∙ published)),
      )

  -- the cycles from one on
  abbrev pub AreCycles : Spacing → ℕ → ℕ → List (List (Sent utf8)) → Type 0
  AreCycles spacing base done [] = Unit
  AreCycles spacing base done (sent ∷ cycles) =
      IsCycle spacing base done sent × AreCycles spacing base (suc done) cycles

  abbrev pub HasCycles : Spacing → ℕ → ℕ → ℕ → List (List (Sent utf8)) → Type 0
  HasCycles spacing base n done cycles =
      (length cycles + done ≡ n) × AreCycles spacing base done cycles

  abbrev pub CycleRaises : Spacing → ℕ → Exception → Type 0
  CycleRaises spacing base e =
      (done : ℕ) × (run_cycle utf8 json iso strftime producer spacing base done ≡ raise e)

  -- With a positive number of cycles, the loop of `main` ends on a fuel that is greater than that number. If
  -- it returns, it has run as many cycles as were asked for, less those that were done before. Each cycle
  -- has built the eight events of the demo for a base time that is later by one spacing for each cycle
  -- before it. In a dry run it has handed over nothing, else exactly the records that are due for the
  -- eight events, in order: the producer took all of them, no delivery reported an error and none is left.
  -- If the loop raises an exception, then one of the cycles raised it.
  pub run_cycles-Ends :
      (args : Options) (base n fuel done : ℕ)
      → args.cycles ≡ pos (suc n)
      → done ≤ suc n
      → suc n < fuel + done
      → Ends
          (HasCycles args.spacing base (suc n) done)
          (CycleRaises args.spacing base)
          (run_cycles utf8 json iso strftime producer fuel args base done)
  unfolding run_cycles
  run_cycles-Ends args base n zero done asked below enough = absurd (omega arith)
  run_cycles-Ends args base n (suc fuel) done asked below enough =
      let raises = CycleRaises args.spacing base in
      let has = HasCycles args.spacing base (suc n) in
      let is_cycle = IsCycle args.spacing base done in
      elim (Bool-cases (ltb done (suc n))) [
        | inl more ↦
            rw (asked, run_cycles)
              (rw more (
                Ends-and_then is_cycle raises (has done) raises
                  (some (run_cycle utf8 json iso strftime producer args.spacing base done)) _
                  (Ends-of_call is_cycle raises _ (run_cycle-IsCycle args.spacing base done)
                    (λ e raised. (done, raised)))
                  (λ e raised. raised)
                  λ sent first.
                    Ends-and_then (has (suc done)) raises (has done) raises
                      (run_cycles utf8 json iso strftime producer fuel args base (suc done))
                      (λ rest. some (ok (sent ∷ rest)))
                      (run_cycles-Ends args base n fuel (suc done) asked (ground (arith, more))
                        (omega arith))
                      (λ e raised. raised)
                      (λ rest (count, all). (omega (arith, count), (first, all)))))
        | inr over ↦ rw (asked, run_cycles) (rw over (ground (arith, over), tt))
      ]
