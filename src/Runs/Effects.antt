-- ===== src/Runs/Effects.antt =====
-- What the database steps of `recalculate_runs` do to the periods that the saved runs cover.
use cloudigrade.Prelude.{
  ℕ, ◌≡◌, refl, ◌∙◌, Bool, true, ◌&&◌, ◌||◌, Option, none, some, List, [], ◌∷◌, arith, All, any,
  inl, inr, Option-cases, any-append, ◌==◌, length,
}
use cloudigrade.Orm.{Orm}
use cloudigrade.Models.{InstanceEvent, Run, Db}
use cloudigrade.Runs.Scan.{
  DenormalizedRun, Cursor, runs_from, prepend, advance, complete, unfinished,
}
use cloudigrade.Runs.Coverage.{period_covers, covers}
use cloudigrade.Runs.Single.{IsMaker}
use cloudigrade.Runs.Recalculate.{
  run_matches, zip_matches, runs_match_denormalized_runs, save_new_run, save_new_runs,
}

abbrev pub run_covers : ℕ → ℕ → Run → Bool
run_covers i t r = r.instance_id == i && period_covers t r.start_time r.end_time

-- Some saved run of the instance covers the instant.
abbrev pub covers_instance : ℕ → List Run → ℕ → Bool
covers_instance i runs t = any (run_covers i t) runs

abbrev pub denormalized_covers : ℕ → ℕ → DenormalizedRun → Bool
denormalized_covers i t d = d.instance_id == i && period_covers t d.start_time d.end_time

run_matches-covers :
    (i t : ℕ) (r : Run) (d : DenormalizedRun)
    → run_matches r d ≡ true
    → run_covers i t r ≡ denormalized_covers i t d
unfolding run_matches
run_matches-covers i t r d h = ground arith

zip_matches-covers :
    (i t : ℕ) (rs : List Run) (ds : List DenormalizedRun)
    → length ds ≡ length rs
    → zip_matches rs ds ≡ true
    → covers_instance i rs t ≡ any (denormalized_covers i t) ds
zip_matches-covers i t [] [] e h = refl
zip_matches-covers i t [] (d ∷ ds) e h = absurd (omega arith)
zip_matches-covers i t (r ∷ rs) [] e h = absurd (omega arith)
zip_matches-covers i t (r ∷ rs) (d ∷ ds) e h =
    ground (arith, run_matches-covers i t r d, zip_matches-covers i t rs ds)

-- Runs that match cover what the denormalized runs cover.
pub runs_match-covers :
    (i t : ℕ) (rs : List Run) (ds : List DenormalizedRun)
    → runs_match_denormalized_runs rs ds ≡ true
    → covers_instance i rs t ≡ any (denormalized_covers i t) ds
unfolding runs_match_denormalized_runs
runs_match-covers i t rs ds h = zip_matches-covers i t rs ds (ground arith) (ground arith)

module _ (orm : Orm) (now : ℕ) where
  save_new_run-covers :
      (i t : ℕ) (d : DenormalizedRun) (db : Db)
      → covers_instance i (save_new_run orm now d db).1.runs t
        ≡ covers_instance i db.runs t || denormalized_covers i t d
  unfolding save_new_run
  save_new_run-covers i t d db = any-append (run_covers i t) db.runs _ ∙ ground arith

  -- The saved runs cover what the table and the denormalized runs cover.
  pub save_new_runs-covers :
      (i t : ℕ) (ds : List DenormalizedRun) (db : Db)
      → covers_instance i (save_new_runs orm now ds db).1.runs t
        ≡ covers_instance i db.runs t || any (denormalized_covers i t) ds
  unfolding save_new_runs
  save_new_runs-covers i t [] db = ground arith
  save_new_runs-covers i t (d ∷ ds) db = ground (
    arith,
    save_new_run-covers i t d db,
    save_new_runs-covers i t ds (save_new_run orm now d db).1,
  )

abbrev OfOne : ℕ → List DenormalizedRun → Type 0
OfOne i ds = All (λ d. d.instance_id ≡ i) ds

OfOne-prepend :
    (i : ℕ) (rs ds : List DenormalizedRun) → OfOne i rs → OfOne i ds → OfOne i (prepend rs ds)
OfOne-prepend i [] ds h k = k
OfOne-prepend i (r ∷ rs) ds h k = (h.0, OfOne-prepend i rs ds h.1 k)

module _ (i : ℕ) (make : ℕ → Option ℕ → DenormalizedRun) (maker : IsMaker i make) where
  complete-OfOne : (c : Cursor) → OfOne i (complete make c).0
  unfolding complete
  complete-OfOne c = elim (Option-cases c.start_run) [
    | inl e ↦ ground arith
    | inr (s, e) ↦ elim (Option-cases c.end_run) [
      | inl f ↦ ground arith
      | inr (t, f) ↦ ground (arith, maker.instance s (some t))
    ]
  ]

  unfinished-OfOne : (c : Cursor) → OfOne i (unfinished make c)
  unfolding unfinished
  unfinished-OfOne c = elim (Option-cases c.start_run) [
    | inl e ↦ ground arith
    | inr (s, e) ↦ ground (arith, maker.instance s none)
  ]

  runs_from-OfOne : (c : Cursor) (es : List InstanceEvent) → OfOne i (runs_from make c es)
  unfolding runs_from
  runs_from-OfOne c [] = unfinished-OfOne c
  runs_from-OfOne c (e ∷ es) =
      let c' = advance e.event_type e.occurred_at c in
      OfOne-prepend i _ _ (complete-OfOne c') (runs_from-OfOne (complete make c').1 es)

  OfOne-covers :
      (t : ℕ) (ds : List DenormalizedRun)
      → OfOne i ds
      → any (denormalized_covers i t) ds ≡ covers ds t
  OfOne-covers t [] h = refl
  OfOne-covers t (d ∷ ds) h = ground (arith, OfOne-covers t ds h.1)

  -- All the runs are of the one instance, so they cover for it what they cover.
  pub runs_from-covers_instance :
      (c : Cursor) (es : List InstanceEvent) (t : ℕ)
      → any (denormalized_covers i t) (runs_from make c es) ≡ covers (runs_from make c es) t
  runs_from-covers_instance c es t = OfOne-covers t (runs_from make c es) (runs_from-OfOne c es)
