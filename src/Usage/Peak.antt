-- ===== src/Usage/Peak.antt =====
-- No instant has more matching runs in progress than the saved maximum says.
use cloudigrade.Prelude.{
  ℕ, ◌+◌, ◌≤◌, ◌<◌, ◌≡◌, refl, Bool, ◌&&◌, Option, List, [], ◌∷◌, arith, if◌then◌else◌, Text, inl,
  inr, Bool-cases, leb, All,
}
use cloudigrade.Orm.{IsSortedBy}
use cloudigrade.Models.{Syspurpose, ConcurrentKey}
use cloudigrade.Usage.Tally.{Entry, Results, record_results, result_keys}
use cloudigrade.Usage.Entries.{
  entry_at, count_entries, entry_at-record_keys, weight, IsCounted, count_entries-starts,
  count_entries-ends,
}
use cloudigrade.Usage.Calculate.{OnOff, maximum_counts_from}

module _ (k : ConcurrentKey) where
  abbrev pub weight_of : OnOff → ℕ
  weight_of x = weight k x.syspurpose x.architecture

  -- The weights of the starts, and of the ends, by the instant `t`.
  abbrev pub starts_by : ℕ → List OnOff → ℕ
  starts_by t [] = 0
  starts_by t (x ∷ xs) = (if x.is_start && leb x.time t then weight_of x else 0) + starts_by t xs

  abbrev pub ends_by : ℕ → List OnOff → ℕ
  ends_by t [] = 0
  ends_by t (x ∷ xs) =
      (if x.is_start then 0 else if leb x.time t then weight_of x else 0) + ends_by t xs

  entry_at-record_results :
      (s : Bool) (p : Option Syspurpose) (a : Option Text) (results : Results)
      → entry_at k (record_results results s p a)
        ≡ count_entries (weight k p a) s (entry_at k results)
  unfolding record_results weight
  entry_at-record_results s p a results = entry_at-record_keys k (result_keys p a) s results

  none_by :
      (t n : ℕ) (xs : List OnOff)
      → All (λ x. n ≤ x.time) xs
      → t < n
      → (starts_by t xs ≡ 0) × (ends_by t xs ≡ 0)
  none_by t n [] h lt = (refl, refl)
  none_by t n (x ∷ xs) h lt = ground (arith, none_by t n xs h.1)

  abbrev pub final : Results → List OnOff → Entry
  final results xs = entry_at k (maximum_counts_from results xs)

  IsCounted-step :
      (x : OnOff) (results : Results) (a b : ℕ)
      → IsCounted (entry_at k results) a b
      → IsCounted
          (entry_at k (record_results results x.is_start x.syspurpose x.architecture))
          (if x.is_start then weight_of x + a else a)
          (if x.is_start then b else weight_of x + b)
        × ((entry_at k results).max_count
            ≤ (entry_at k
                (record_results results x.is_start x.syspurpose x.architecture)).max_count)
  IsCounted-step x results a b h =
      rw (entry_at-record_results x.is_start x.syspurpose x.architecture results)
        (elim (Bool-cases x.is_start) [
          | inl e ↦ rw e (
              let (c, m, _, _) = count_entries-starts (weight_of x) (entry_at k results) a b h in
              (c, m))
          | inr e ↦ rw e (
              let (c, m) = count_entries-ends (weight_of x) (entry_at k results) a b h in
              (c, omega arith))
        ])

  -- From a counted entry on: the maximum only grows, and stays above the count at every instant.
  pub final-bound :
      (t : ℕ) (xs : List OnOff) (results : Results) (a b : ℕ)
      → IsSortedBy (λ x. x.time) xs
      → IsCounted (entry_at k results) a b
      → ((entry_at k results).max_count ≤ (final results xs).max_count)
        × (a + starts_by t xs ≤ b + ends_by t xs + (final results xs).max_count)
  unfolding maximum_counts_from
  final-bound t [] results a b s h = omega arith
  final-bound t (x ∷ xs) results a b s h =
      let (h', grows) = IsCounted-step x results a b h in
      let ih =
        final-bound t xs (record_results results x.is_start x.syspurpose x.architecture)
          (if x.is_start then weight_of x + a else a) (if x.is_start then b else weight_of x + b)
          s.1 h' in
      ground (arith, ih, grows, none_by t x.time xs s.0)
