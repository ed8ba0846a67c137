-- ===== src/Runs/Relevant.antt =====
-- The queries of `recalculate_runs` (cloudigrade/api/util.py): which time it goes back to, and what
-- the events from then on tell.
use cloudigrade.Prelude.{
  ℕ, ◌≤◌, ◌≡◌, refl, ◌∙◌, ap, Bool, true, false, ◌&&◌, ◌||◌, not, none, some, List, [], ◌∷◌, arith,
  any, select, ◌==◌, inl, inr, Option-cases, leb, fun_ext, In, any-witness, In-select, select-In,
  first,
}
use cloudigrade.Orm.{Orm, IsSortedBy}
use cloudigrade.Orm.Laws.{any-order_by, first-order_by-le, first-order_by-any}
use cloudigrade.Models.{InstanceEvent, Run, Db, is_power_on, is_power_off}
use cloudigrade.Runs.Sorting.{OfInstance}
use cloudigrade.Runs.Coverage.{powered_on, has_clash}
use cloudigrade.Runs.History.{powered_on-order_by, has_clash-order_by, has_clash-select}
use cloudigrade.Runs.Recalculate.{is_affected, affected_runs, earliest_time, relevant_events}

-- The power events of the instance.
abbrev pub is_power_of : ℕ → InstanceEvent → Bool
is_power_of i e = e.instance_id == i && (is_power_on e || is_power_off e)

abbrev pub power_events : Db → ℕ → List InstanceEvent
power_events db i = select (is_power_of i) db.events

-- An affected run begins at the time of a recorded power event.
abbrev pub IsRecorded : Db → InstanceEvent → Type 0
IsRecorded db event =
    (r : Run)
    → In r db.runs
    → is_affected event r ≡ true
    → any (λ e. is_power_of event.instance_id e && e.occurred_at == r.start_time) db.events ≡ true

module _ (orm : Orm) (db : Db) (event : InstanceEvent) where
  abbrev pub i : ℕ
  i = event.instance_id

  abbrev pub from : ℕ
  from = earliest_time orm db event

  abbrev pub affected : List Run
  affected = select (is_affected event) db.runs

  abbrev pub is_recent : InstanceEvent → Bool
  is_recent e = is_power_of i e && leb from e.occurred_at

  pub relevant_events-eq :
      relevant_events orm db event ≡ orm.order_by (λ e. e.occurred_at) (select is_recent db.events)
  unfolding relevant_events
  relevant_events-eq =
      ap (λ p. orm.order_by (λ e. e.occurred_at) (select p db.events)) (fun_ext λ e. ground arith)

  all-OfInstance :
      (es : List InstanceEvent) → any (λ e. not (e.instance_id == i)) es ≡ false → OfInstance i es
  all-OfInstance [] h = tt
  all-OfInstance (e ∷ es) h = (ground arith, all-OfInstance es (ground arith))

  no_foreign :
      (es : List InstanceEvent) → any (λ e. not (e.instance_id == i)) (select is_recent es) ≡ false
  no_foreign [] = refl
  no_foreign (e ∷ es) = ground (arith, no_foreign es)

  pub relevant-OfInstance : OfInstance i (relevant_events orm db event)
  relevant-OfInstance = rw relevant_events-eq (
      all-OfInstance _ (
        any-order_by orm (λ e. e.occurred_at) (λ e. not (e.instance_id == i))
          (select is_recent db.events)
        ∙ no_foreign db.events))

  pub relevant-IsSortedBy : IsSortedBy (λ e. e.occurred_at) (relevant_events orm db event)
  relevant-IsSortedBy =
      rw relevant_events-eq
        (orm.order_by-IsSortedBy (λ e. e.occurred_at) (select is_recent db.events))

  pub relevant-clear :
      has_clash (power_events db i) ≡ false → has_clash (relevant_events orm db event) ≡ false
  relevant-clear h = rw relevant_events-eq (
      has_clash-order_by orm (select is_recent db.events)
      ∙ has_clash-select is_recent (is_power_of i) db.events (λ e. λ k. ground arith) h)

  pub relevant-powered_on :
      (t : ℕ)
      → powered_on (relevant_events orm db event) t ≡ powered_on (select is_recent db.events) t
  relevant-powered_on t =
      rw relevant_events-eq (powered_on-order_by orm (select is_recent db.events) t)

  pub earliest_time-none : first (affected_runs orm db event) ≡ none → from ≡ event.occurred_at
  unfolding earliest_time
  earliest_time-none e = rw (e, earliest_time)

  earliest_time-some : (y : Run) → first (affected_runs orm db event) ≡ some y → from ≡ y.start_time
  unfolding earliest_time
  earliest_time-some y e = rw (e, earliest_time)

  pub earliest_time-le : (r : Run) → In r db.runs → is_affected event r ≡ true → from ≤ r.start_time
  unfolding affected_runs
  earliest_time-le r m a =
      let (y, e, le) =
        first-order_by-le orm (λ (r : Run). r.start_time) affected r
          (In-select (is_affected event) r db.runs m a) in
      rw (earliest_time-some y e) le

  pub earliest_time-recorded :
      any (λ e. is_power_of i e && e.occurred_at == event.occurred_at) db.events ≡ true
      → IsRecorded db event
      → any (λ e. is_power_of i e && e.occurred_at == from) db.events ≡ true
  unfolding affected_runs
  earliest_time-recorded stored recorded =
      elim (Option-cases (first (affected_runs orm db event))) [
        | inl e ↦ rw (earliest_time-none e) stored
        | inr (y, e) ↦
            let found =
              first-order_by-any orm (λ (r : Run). r.start_time) affected y
                (λ r. r.start_time == y.start_time) e (ground arith) in
            let (r, mr, same) =
              any-witness (λ (r : Run). r.start_time == y.start_time) affected found in
            let (lr, ar) = select-In (is_affected event) r db.runs mr in
            let same' : r.start_time ≡ y.start_time = ground arith in
            rw (earliest_time-some y e, ← same') (recorded r lr ar)
      ]
