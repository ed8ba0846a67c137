-- ===== src/Runs/Chronology.antt =====
-- The runs of an instance follow one another in time.
use cloudigrade.Prelude.{ℕ, ◌≤◌, ◌≡◌, Option, none, some, List, [], ◌∷◌, arith, All}
use cloudigrade.Orm.{IsSortedBy}
use cloudigrade.Models.{InstanceEvent}
use cloudigrade.Runs.Scan.{DenormalizedRun, idle, runs_from}

-- Each run begins at `n` or later and no earlier than the one before it has ended, none ends before
-- it begins, and only the last may be unfinished.
abbrev pub IsChronological : ℕ → List DenormalizedRun → Type 0
IsChronological n [] = Unit
IsChronological n (r ∷ rs) = (n ≤ r.start_time) × (elim r.end_time [
  | none ↦ rs ≡ []
  | some end ↦ (r.start_time ≤ end) × IsChronological end rs
])

module _ (make : ℕ → Option ℕ → DenormalizedRun)
    (starts : (s : ℕ) (d : Option ℕ) → (make s d).start_time ≡ s)
    (ends : (s : ℕ) (d : Option ℕ) → (make s d).end_time ≡ d) where
  mutual
    unfolding runs_from

    runs_from_open-IsChronological :
        (es : List InstanceEvent) (n s : ℕ)
        → IsSortedBy (λ e. e.occurred_at) es
        → All (λ e. s ≤ e.occurred_at) es
        → n ≤ s
        → IsChronological n (runs_from make (record { start_run = some s; end_run = none }) es)
    runs_from_open-IsChronological [] n s h a le = ground (arith, starts s none, ends s none)
    runs_from_open-IsChronological (e ∷ es) n s h a le = ground (
      arith,
      starts s (some e.occurred_at),
      ends s (some e.occurred_at),
      runs_from_open-IsChronological es n s h.1 a.1 le,
      runs_from_closed-IsChronological es e.occurred_at none h.1 h.0,
    )

    runs_from_closed-IsChronological :
        (es : List InstanceEvent) (n : ℕ) (d : Option ℕ)
        → IsSortedBy (λ e. e.occurred_at) es
        → All (λ e. n ≤ e.occurred_at) es
        → IsChronological n (runs_from make (record { start_run = none; end_run = d }) es)
    runs_from_closed-IsChronological [] n d h a = tt
    runs_from_closed-IsChronological (e ∷ es) n d h a = ground (
      arith,
      runs_from_open-IsChronological es n e.occurred_at h.1 h.0 a.0,
      runs_from_closed-IsChronological es n d h.1 a.1,
      runs_from_closed-IsChronological es n (some e.occurred_at) h.1 a.1,
    )

-- For events in the order of their times, none before `n`: the runs follow one another.
pub runs_from-IsChronological :
    (make : ℕ → Option ℕ → DenormalizedRun)
    → ((s : ℕ) (d : Option ℕ) → (make s d).start_time ≡ s)
    → ((s : ℕ) (d : Option ℕ) → (make s d).end_time ≡ d)
    → (es : List InstanceEvent) (n : ℕ) → IsSortedBy (λ e. e.occurred_at) es
    → All (λ e. n ≤ e.occurred_at) es
    → IsChronological n (runs_from make idle es)
runs_from-IsChronological make starts ends es n h a =
    runs_from_closed-IsChronological make starts ends es n none h a
