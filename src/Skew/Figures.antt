-- ===== src/Skew/Figures.antt =====
-- The figures of src/producer/skew_analysis.py: what the counts of the partitions add up to.
use mathlib.Core.List.{Mem}
use streaming_fpuna_proyecto.Base.{
  ℕ, zero, suc, ◌*◌, ◌≤◌, ◌<◌, ◌≡◌, refl, sym, ap, ◌∙◌, subst, false, Option, List, [], ◌∷◌, map,
  length, All, arith, not,
}
use streaming_fpuna_proyecto.Base.Int.{ℤ, pos, negsuc, pos_part, leb_ℤ}
use streaming_fpuna_proyecto.Python.{ok, >>=-eq-ok, >>-eq-ok, ok-injective, raise_if-ok}
use streaming_fpuna_proyecto.Python.Codec.{Utf8}
use streaming_fpuna_proyecto.Skew.{
  SkewScenario, PartitionSummary, ScenarioSummary, assign, same, any_outside, partition_summary,
  partition_summaries, busiest, scenario_summary, summary_of, summarize_scenario,
}
use streaming_fpuna_proyecto.Skew.Counts.{
  sum_of, Beats, inside-All, sum-inside, Beats-busiest, Mem-busiest, sum-bound, counts-at_most,
  length-partition_summaries,
}

length-map-pos_part : (zs : List ℤ) → length (map pos_part zs) ≡ length zs
length-map-pos_part [] = refl
length-map-pos_part (z ∷ zs) = ap suc (length-map-pos_part zs)

All-below :
    (n : ℕ) (zs : List ℤ) → any_outside (pos n) zs ≡ false → All (λ x. x < n) (map pos_part zs)
unfolding any_outside
All-below n [] h = tt
All-below n (pos m ∷ zs) h = (ground arith, All-below n zs (ground arith))
All-below n (negsuc m ∷ zs) h = absurd (ground arith)

same-eq : (m n : ℕ) → not (same m n) ≡ false → m ≡ n
same-eq m n h = ground arith

not_positive : (m : ℕ) → leb_ℤ (negsuc m) (pos 0) ≡ false → ⊥
not_positive m h = ground arith

-- what the figures of a scenario are about: the assignments that were checked
pub record Checked (scenario : SkewScenario) (n : ℕ) (s : ScenarioSummary) (zs : List ℤ)
    : Type 0 where
  pub below : All (λ x. x < suc n) (map pos_part zs)
  pub same_length : length zs ≡ length scenario.records
  pub top : PartitionSummary
  pub is_top :
      top
      ≡ busiest
          (partition_summary scenario.records (map pos_part zs) 0)
          (partition_summaries scenario.records (map pos_part zs) 1 n)
  pub is_summary :
      s
      ≡ scenario_summary scenario
          (suc n)
          (partition_summaries scenario.records (map pos_part zs) 0 (suc n))
          top

module _ (utf8 : Utf8) (crc32 : utf8.Bytes → ℕ) where
  -- what a call that returned has checked
  pub Checked-of_summary :
      (scenario : SkewScenario) (z : ℤ) (observed : Option (List ℤ)) {s : ScenarioSummary}
      → summarize_scenario utf8 crc32 scenario z observed ≡ ok s
      → (n : ℕ) × (zs : List ℤ) × (z ≡ pos (suc n))
        × (assign utf8 crc32 scenario.records z observed ≡ ok zs)
        × Checked scenario n s zs
  unfolding summarize_scenario summary_of partition_summaries
  Checked-of_summary scenario (pos zero) observed h = cc
  Checked-of_summary scenario (negsuc m) observed h =
      let (positive, _) = >>-eq-ok _ h in absurd (not_positive m (raise_if-ok _ _ _ positive))
  Checked-of_summary scenario (pos (suc n)) observed {s} h =
      let (positive, h₁) = >>-eq-ok _ h in
      let (filled, h₂) = >>-eq-ok _ h₁ in
      let (zs, assigned, h₃) =
        >>=-eq-ok (assign utf8 crc32 scenario.records (pos (suc n)) observed) h₂ in
      let (matched, h₄) = >>-eq-ok _ h₃ in
      let (within, h₅) = >>-eq-ok _ h₄ in
      (
        n,
        zs,
        refl,
        assigned,
        record {
          below = All-below (suc n) zs (raise_if-ok _ _ _ within);
          same_length = same-eq _ _ (raise_if-ok _ _ _ matched);
          top =
              busiest (partition_summary scenario.records (map pos_part zs) 0)
                (partition_summaries scenario.records (map pos_part zs) 1 n);
          is_top = refl;
          is_summary = sym (ok-injective h₅);
        },
      )

-- the figures of a scenario, told by the counts of its partitions
pub record AreFigures (scenario : SkewScenario) (partition_count : ℕ) (s : ScenarioSummary)
    : Type 0 where
  pub total : s.total_events ≡ length scenario.records
  pub adds_up : sum_of s.partitions ≡ length scenario.records
  pub partitions_listed : length s.partitions ≡ partition_count
  pub top : PartitionSummary
  pub is_listed : Mem top s.partitions
  pub beats : All (Beats top) s.partitions
  pub max_partition : s.max_partition ≡ top.partition
  pub share : s.max_partition_share ≡ (top.event_count, length scenario.records)
  pub ratio : s.max_to_mean_ratio ≡ (top.event_count * partition_count, length scenario.records)
  pub at_least_mean : length scenario.records ≤ top.event_count * partition_count

pub Beats-Checked :
    (scenario : SkewScenario) (n : ℕ) (s : ScenarioSummary) (zs : List ℤ)
    (c : Checked scenario n s zs)
    → All (Beats c.top) (partition_summaries scenario.records (map pos_part zs) 0 (suc n))
unfolding partition_summaries
Beats-Checked scenario n s zs c =
    let xs = map pos_part zs in
    subst (λ t. All (Beats t) (partition_summaries scenario.records xs 0 (suc n))) (sym c.is_top)
      (Beats-busiest (partition_summary scenario.records xs 0)
        (partition_summaries scenario.records xs 1 n))

pub AreFigures-of_Checked :
    (scenario : SkewScenario) (n : ℕ) (s : ScenarioSummary) (zs : List ℤ)
    → Checked scenario n s zs
    → AreFigures scenario (suc n) s
unfolding partition_summaries
AreFigures-of_Checked scenario n s zs c =
    let xs = map pos_part zs in
    let summaries = partition_summaries scenario.records xs 0 (suc n) in
    let first = partition_summary scenario.records xs 0 in
    let items = partition_summaries scenario.records xs 1 n in
    let beats = Beats-Checked scenario n s zs c in
    let adds_up : sum_of summaries ≡ length scenario.records =
      sum-inside scenario.records xs 0 (suc n)
      ∙ (inside-All (suc n) xs c.below ∙ (length-map-pos_part zs ∙ c.same_length)) in
    let bound = sum-bound c.top.event_count summaries (counts-at_most c.top summaries beats) in
    let listed = length-partition_summaries scenario.records xs 0 (suc n) in
    subst (AreFigures scenario (suc n)) (sym c.is_summary) (record {
      total = refl;
      adds_up = adds_up;
      partitions_listed = listed;
      top = c.top;
      is_listed = subst (λ t. Mem t summaries) (sym c.is_top) (Mem-busiest first items);
      beats = beats;
      max_partition = refl;
      share = refl;
      ratio = refl;
      at_least_mean =
          rw (sym adds_up) (subst (λ m. sum_of summaries ≤ c.top.event_count * m) listed bound);
    })

module _ (utf8 : Utf8) (crc32 : utf8.Bytes → ℕ) where
  -- Of a summary that is returned, for simulated or observed partitions: the events of its partitions add
  -- up to the records of the scenario, and there is one summary for each partition. The maximum is that of
  -- a partition in the list; none has more events, and none with as many has a lower number. The share is
  -- that partition's events by all records, the ratio the same times the number of partitions, and it is
  -- at least one.
  pub summarize-AreFigures :
      (scenario : SkewScenario) (partition_count : ℤ) (observed : Option (List ℤ))
      (s : ScenarioSummary)
      → summarize_scenario utf8 crc32 scenario partition_count observed ≡ ok s
      → AreFigures scenario (pos_part partition_count) s
  summarize-AreFigures scenario partition_count observed s h =
      let (n, zs, e, _, c) = Checked-of_summary utf8 crc32 scenario partition_count observed h in
      subst (λ z. AreFigures scenario (pos_part z) s) (sym e)
        (AreFigures-of_Checked scenario n s zs c)
