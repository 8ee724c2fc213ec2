-- ===== src/Skew/HotKey.antt =====
-- The reference scenarios of src/producer/skew_analysis.py: their volume, and the partition of the hot key.
use streaming_fpuna_proyecto.Base.{
  ℕ, zero, suc, ◌+◌, ◌%◌, ◌≤◌, ◌<◌, String, ◌≡◌, refl, sym, ap, ◌∙◌, subst, Bool, true, false, ◌||◌,
  none, List, [], ◌∷◌, map, length, arith,
}
use streaming_fpuna_proyecto.Base.Int.{ℤ, pos, negsuc, pos_part, leb_ℤ}
use streaming_fpuna_proyecto.Base.Text.{is_blank}
use streaming_fpuna_proyecto.Python.{ok, >>=-eq-ok, >>-eq-ok, ok-injective, raise_if-ok}
use streaming_fpuna_proyecto.Python.Codec.{Utf8}
use streaming_fpuna_proyecto.Skew.{
  SkewRecord, SkewScenario, ScenarioSummary, Share, hot_customer_id, balanced_records, hot_records,
  build_reference_scenarios, scenarios_of, partition_for_key, simulated, assign, same, any_outside,
  count_of, partition_summary, partition_summaries, summary_of, summarize_scenario,
  scenario_summary, busiest,
}
use streaming_fpuna_proyecto.Skew.Counts.{Beats}
use streaming_fpuna_proyecto.Skew.Figures.{Beats-Checked, Checked-of_summary}
use streaming_fpuna_proyecto.Skew.Volume.{
  key_count, key_count-step, All-at, AreFilled, balanced-AreFilled, hot-AreFilled,
  length-balanced_records, length-hot_records, key_count-hot,
}

mod_lt : (a m : ℕ) → a % suc m < suc m
mod_lt a m = omega arith

module _ (utf8 : Utf8) (crc32 : utf8.Bytes → ℕ) where
  -- the partition of a key among `suc n`
  abbrev slot : String → ℕ → ℕ
  slot key n = crc32 (utf8.encode key) % suc n

  partition_for_key-ok :
      (key : String) (n : ℕ)
      → is_blank key ≡ false
      → partition_for_key utf8 crc32 key (pos (suc n)) ≡ ok (slot key n)
  unfolding partition_for_key
  partition_for_key-ok key n filled = rw filled (ground arith)

  partition_for_key-slot :
      (key : String) (n p : ℕ)
      → partition_for_key utf8 crc32 key (pos (suc n)) ≡ ok p
      → p ≡ slot key n
  unfolding partition_for_key
  partition_for_key-slot key n p h =
      let (_, h₁) = >>-eq-ok _ h in let (_, h₂) = >>-eq-ok _ h₁ in sym (ok-injective h₂)

  -- the records of a key are all in its partition
  key_count-simulated :
      (key : String) (n : ℕ) (records : List SkewRecord) (zs : List ℤ)
      → simulated utf8 crc32 records (pos (suc n)) ≡ ok zs
      → key_count key records ≤ count_of (slot key n) (map pos_part zs)
  unfolding simulated key_count count_of
  key_count-simulated key n [] zs h = omega arith
  key_count-simulated key n (r ∷ records) zs h =
      let (p, is_p, h₁) = >>=-eq-ok (partition_for_key utf8 crc32 r.customer_id (pos (suc n))) h in
      let (rest, is_rest, h₂) = >>=-eq-ok (simulated utf8 crc32 records (pos (suc n))) h₁ in
      let ih = key_count-simulated key n records rest is_rest in
      let is_slot = partition_for_key-slot r.customer_id n p is_p in
      rw (sym (ok-injective h₂)) (
        key_count-step key r records p (slot key n) (map pos_part rest)
          (λ e. is_slot ∙ ap (λ k. slot k n) e) ih)

  -- keys that are not blank are all assigned, to partitions that exist
  simulated-ok :
      (records : List SkewRecord) (n : ℕ)
      → AreFilled records
      → (zs : List ℤ) × (simulated utf8 crc32 records (pos (suc n)) ≡ ok zs)
        × (length zs ≡ length records)
        × (any_outside (pos (suc n)) zs ≡ false)
  unfolding simulated any_outside
  simulated-ok [] n h = ([], refl, refl, refl)
  simulated-ok (r ∷ records) n (filled, h) =
      let (zs, returned, same_length, within) = simulated-ok records n h in
      (
        pos (slot r.customer_id n) ∷ zs,
        rw (partition_for_key-ok r.customer_id n filled) (rw returned refl),
        ap suc same_length,
        ground arith,
      )

  simulated-summary :
      (scenario : SkewScenario) (n m : ℕ)
      → length scenario.records ≡ suc m
      → AreFilled scenario.records
      → (s : ScenarioSummary) × (summarize_scenario utf8 crc32 scenario (pos (suc n)) none ≡ ok s)
  unfolding summarize_scenario assign summary_of partition_summaries
  simulated-summary scenario n m some_records h =
      let (zs, returned, same_length, within) = simulated-ok scenario.records n h in
      let positive : leb_ℤ (pos (suc n)) (pos 0) ≡ false = ground arith in
      let filled : same (length scenario.records) 0 ≡ false = ground arith in
      let matched : same (length zs) (length scenario.records) ≡ true = ground arith in
      let xs = map pos_part zs in
      (
        scenario_summary scenario (suc n) (partition_summaries scenario.records xs 0 (suc n)) (
            busiest (partition_summary scenario.records xs 0)
              (partition_summaries scenario.records xs 1 n)),
        rw (positive, filled) (rw returned (rw (matched, within) refl)),
      )

  -- the busiest partition has at least the records of any one key
  key_count-top :
      (key : String) (scenario : SkewScenario) (n : ℕ) (s : ScenarioSummary)
      → summarize_scenario utf8 crc32 scenario (pos (suc n)) none ≡ ok s
      → key_count key scenario.records ≤ s.max_partition_share.0
  unfolding assign
  key_count-top key scenario n s h =
      let (m, zs, e, assigned, c) = Checked-of_summary utf8 crc32 scenario (pos (suc n)) none h in
      let assigned_m = subst (λ z. simulated utf8 crc32 scenario.records z ≡ ok zs) e assigned in
      let low = key_count-simulated key m scenario.records zs assigned_m in
      let exists : slot key m < 0 + suc m = omega (arith, mod_lt (crc32 (utf8.encode key)) m) in
      let high =
        All-at (Beats c.top) scenario.records (map pos_part zs) 0 (suc m) (slot key m)
          (Beats-Checked scenario m s zs c) (omega arith) exists in
      rw c.is_summary (omega (arith, low, high.0))

pos_part-positive : (z : ℤ) → leb_ℤ z (pos 0) ≡ false → (m : ℕ) × (pos_part z ≡ suc m)
pos_part-positive (pos zero) h = absurd (ground arith)
pos_part-positive (pos (suc m)) h = (m, refl)
pos_part-positive (negsuc m) h = absurd (ground arith)

pos_part-le : (z y : ℤ) → leb_ℤ z (pos 0) ≡ false → leb_ℤ z y ≡ false → pos_part y ≤ pos_part z
pos_part-le z (pos y) h k = ground arith
pos_part-le z (negsuc y) h k = ground arith

events-many : (h n : ℕ) → h ≤ n → h ≤ key_count hot_customer_id (hot_records h 0 n)
events-many h n le = omega (arith, key_count-hot h 0 n (omega arith))

-- what the two scenarios are, where they are built
built :
    (total : ℤ) (share : Share) {balanced hot : SkewScenario}
    → build_reference_scenarios total share ≡ ok (balanced, hot)
    → (leb_ℤ total (pos 0) ≡ false)
      × (leb_ℤ total (share.round_of total) ≡ false)
      × (record { name = "balanced"; records = balanced_records 0 (pos_part total) } ≡ balanced)
      × (record {
        name = "hot_key";
        records = hot_records (pos_part (share.round_of total)) 0 (pos_part total);
      }
          ≡ hot)
unfolding build_reference_scenarios scenarios_of
built total share h =
    let (positive, h₁) = >>-eq-ok _ h in
    let (in_range, h₂) = >>-eq-ok _ h₁ in
    let (cold_left, h₃) = >>-eq-ok _ h₂ in
    let is_built = ok-injective h₃ in
    (
      raise_if-ok _ _ _ positive,
      not_or _ _ (raise_if-ok _ _ _ cold_left),
      ap (λ p. p.0) is_built,
      ap (λ p. p.1) is_built,
    )
  where
    not_or : (a b : Bool) → (a || b) ≡ false → b ≡ false
    not_or a b e = ground arith

-- Of the two reference scenarios, where they are built: both have as many records as was asked for. For
-- every positive number of partitions both are summarized without an exception, and the busiest
-- partition of the scenario with the hot key has at least the events of the hot key.
pub hot_key_undivided :
    (utf8 : Utf8) (crc32 : utf8.Bytes → ℕ) (total : ℤ) (share : Share) (balanced hot : SkewScenario)
    (n : ℕ)
    → build_reference_scenarios total share ≡ ok (balanced, hot)
    → (length balanced.records ≡ pos_part total)
      × (length hot.records ≡ pos_part total)
      × (s : ScenarioSummary) × (summarize_scenario utf8 crc32 balanced (pos (suc n)) none ≡ ok s)
      × (t : ScenarioSummary) × (summarize_scenario utf8 crc32 hot (pos (suc n)) none ≡ ok t)
      × (pos_part (share.round_of total) ≤ t.max_partition_share.0)
hot_key_undivided utf8 crc32 total share balanced hot n h =
    let (positive, cold_left, is_balanced, is_hot) = built total share h in
    let (m, some_events) = pos_part-positive total positive in
    let all_balanced : length balanced.records ≡ pos_part total =
      ap (λ b. length b.records) (sym is_balanced) ∙ length-balanced_records 0 (pos_part total) in
    let h_events = pos_part (share.round_of total) in
    let all_hot : length hot.records ≡ pos_part total =
      ap (λ b. length b.records) (sym is_hot) ∙ length-hot_records h_events 0 (pos_part total) in
    let (s, s_returned) =
      simulated-summary utf8 crc32 balanced n m (all_balanced ∙ some_events)
        (subst (λ b. AreFilled b.records) is_balanced (balanced-AreFilled 0 (pos_part total))) in
    let (t, t_returned) =
      simulated-summary utf8 crc32 hot n m (all_hot ∙ some_events)
        (subst (λ b. AreFilled b.records) is_hot (hot-AreFilled h_events 0 (pos_part total))) in
    let many : h_events ≤ key_count hot_customer_id hot.records =
      subst (λ b. h_events ≤ key_count hot_customer_id b.records) is_hot
        (events-many h_events (pos_part total) (pos_part-le total _ positive cold_left)) in
    let top = key_count-top utf8 crc32 hot_customer_id hot n t t_returned in
    (all_balanced, all_hot, s, s_returned, t, t_returned, omega (arith, many, top))
