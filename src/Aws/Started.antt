-- ===== src/Aws/Started.antt =====
-- What `save_instance_events` (cloudigrade/api/clouds/aws/util.py) leaves of an instance that AWS tells of
-- as running.
use cloudigrade.Prelude.{
  ℕ, ◌≡◌, ◌∙◌, sym, Bool, true, false, ◌&&◌, Option, some, [], ◌∷◌, arith, any, any-append,
  any-select, any-witness, any-refute, any-intro, any-false, select, select-In, In-select,
  In-append_right, In, here, leb, ltb, ◌==◌, inl, inr, Bool-cases, Option-cases, Text, bind-some,
  some-inj, ◌>>=◌,
}
use mathlib.Core.Path.{subst}
use cloudigrade.Orm.{Orm}
use cloudigrade.Orm.Laws.{
  first-order_by_desc-any, first-order_by_desc-select, first-order_by_desc-le,
}
use cloudigrade.Models.{power_on, Instance, InstanceEvent, Db, is_power_on, is_power_off}
use cloudigrade.Runs.Coverage.{powered_on, keeps_on, clash, has_clash}
use cloudigrade.Runs.Relevant.{is_power_of, power_events}
use cloudigrade.Accounts.PowerOff.{off_at}
use cloudigrade.Aws.Tables.{AwsInstance, AwsDb, instance_of}
use cloudigrade.Aws.Instances.{InstanceData}
use cloudigrade.Aws.Events.{new_event, add_event, latest_event, save_power_on, save_current_event}

-- A power_on of the instance by `now`, with no power_off from then until `now`.
on-powered_on :
    (j now : ℕ) (x : InstanceEvent) (db : Db)
    → In x db.events
    → (x.instance_id == j && (is_power_on x && leb x.occurred_at now)) ≡ true
    → any
        (λ f.
          f.instance_id == j
          && (is_power_off f && (leb x.occurred_at f.occurred_at && leb f.occurred_at now)))
        db.events
      ≡ false
    → powered_on (power_events db j) now ≡ true
on-powered_on j now x db m on no_off =
    let none_off : any
          (λ f. is_power_off f && leb x.occurred_at f.occurred_at && leb f.occurred_at now)
          (power_events db j)
        ≡ false =
      any-refute _ (power_events db j) (λ f mf k.
        let (stored, power) = select-In (is_power_of j) f db.events mf in
        let other =
          any-false
            (λ f.
              f.instance_id == j
              && (is_power_off f && (leb x.occurred_at f.occurred_at && leb f.occurred_at now)))
            f db.events no_off stored in
        ground arith) in
    any-intro (keeps_on (power_events db j) now) x (power_events db j)
      (In-select (is_power_of j) x db.events m (ground arith)) (ground arith)

module _ (orm : Orm) (now : ℕ) (i : Instance) (w : AwsDb)
    (consistent : has_clash (power_events w.db i.id) ≡ false)
    (no_off_now : any (off_at i.id now) w.db.events ≡ false) where
  abbrev by_now : InstanceEvent → Bool
  by_now e = e.instance_id == i.id && leb e.occurred_at now

  kept-powered_on :
      (y : InstanceEvent)
      → latest_event orm now i.id w.db.events ≡ some y
      → is_power_on y ≡ true
      → powered_on (power_events w.db i.id) now ≡ true
  unfolding latest_event
  kept-powered_on y h on =
      let passes = first-order_by_desc-select orm (λ e. e.occurred_at) by_now w.db.events y h in
      let latest =
        first-order_by_desc-le orm (λ e. e.occurred_at) (select by_now w.db.events) y h in
      let found : any (λ e. by_now e && (is_power_on e && e.occurred_at == y.occurred_at))
            w.db.events
          ≡ true =
        sym (any-select (λ e. is_power_on e && e.occurred_at == y.occurred_at) by_now w.db.events)
        ∙ first-order_by_desc-any orm (λ e. e.occurred_at) (select by_now w.db.events) y
            (λ e. is_power_on e && e.occurred_at == y.occurred_at) h (ground arith) in
      let (z, m, k) =
        any-witness (λ e. by_now e && (is_power_on e && e.occurred_at == y.occurred_at)) w.db.events
          found in
      on-powered_on i.id now z w.db m (ground arith) (
        any-refute _ w.db.events (λ f mf off.
          let early =
            any-false (λ e. ltb y.occurred_at e.occurred_at) f (select by_now w.db.events) latest
              (In-select by_now f w.db.events mf (ground arith)) in
          let no_clash =
            any-false (λ e. any (clash e) (power_events w.db i.id)) z (power_events w.db i.id)
              consistent (In-select (is_power_of i.id) z w.db.events m (ground arith)) in
          let apart =
            any-false (clash z) f (power_events w.db i.id) no_clash
              (In-select (is_power_of i.id) f w.db.events mf (ground arith)) in
          ground arith))

  added-powered_on :
      (t : Option Text)
      → powered_on (power_events (add_event orm now i.id power_on now t w).db i.id) now ≡ true
  added-powered_on t =
      let x = new_event orm now i.id power_on now t w.db.events in
      let off_now : InstanceEvent → Bool = λ (f : InstanceEvent).
        f.instance_id == i.id
        && (is_power_off f && (leb now f.occurred_at && leb f.occurred_at now)) in
      let no_off : any off_now w.db.events ≡ false = any-refute off_now w.db.events (λ f mf k.
        let other = any-false (off_at i.id now) f w.db.events no_off_now mf in ground arith) in
      on-powered_on i.id now x (add_event orm now i.id power_on now t w).db
        (In-append_right x w.db.events (x ∷ []) here) (ground arith)
        (any-append off_now w.db.events (x ∷ []) ∙ ground (arith, no_off))

  -- After `save_instance_events` without events, an instance whose power events do not contradict one
  -- another, and that was not powered off at this very time, is powered on now.
  pub save_current_event-powered_on :
      (a : AwsInstance) (d : InstanceData) (w' : AwsDb)
      → instance_of a w.db ≡ some i
      → save_current_event orm now a d w ≡ some w'
      → powered_on (power_events w'.db i.id) now ≡ true
  unfolding save_current_event save_power_on
  save_current_event-powered_on a d w' found h =
      let made : save_power_on orm now d w i ≡ some w' = rw found at h in
      let added : (d.instance_type >>= λ t. some (add_event orm now i.id power_on now (some t) w))
            ≡ some w'
          → powered_on (power_events w'.db i.id) now ≡ true =
        (λ k.
          let (t, _, k') = bind-some d.instance_type _ k in
          subst (λ (v : AwsDb). powered_on (power_events v.db i.id) now ≡ true) (some-inj k')
            (added-powered_on (some t))) in
      elim (Option-cases (latest_event orm now i.id w.db.events)) [
        | inl e ↦ added (rw (e, save_power_on) at made)
        | inr (y, e) ↦ elim (Bool-cases (is_power_on y)) [
          | inl on ↦
              subst (λ (v : AwsDb). powered_on (power_events v.db i.id) now ≡ true)
                (some-inj (rw (e, on, save_power_on) at made)) (kept-powered_on y e on)
          | inr off ↦ added (rw (e, off, save_power_on) at made)
        ]
      ]
