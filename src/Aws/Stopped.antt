-- ===== src/Aws/Stopped.antt =====
-- What `create_missing_power_off_aws_instance_events` (cloudigrade/api/clouds/aws/util.py) leaves of an
-- account's instances that AWS does not tell of as running.
use cloudigrade.Prelude.{
  ℕ, ◌≤◌, ◌≡◌, refl, ◌∙◌, sym, Bool, true, false, ◌&&◌, none, some, List, [], ◌∷◌, arith, any,
  any-append, any-select_keeps, any-witness, any-refute, any-intro, any-false, select, select-In,
  In-select, In, here, there, leb, ltb, ◌==◌, ◌⊎◌, inl, inr, Bool-cases, Option-cases, Text,
  find-passes, find-holds,
}
use cloudigrade.Orm.{Orm}
use cloudigrade.Orm.Laws.{
  first-order_by_desc-any, first-order_by_desc-select, first-order_by_desc-none,
  first-order_by_desc-le,
}
use cloudigrade.Models.{power_off, Instance, InstanceEvent, Db, is_power_on, is_power_off}
use cloudigrade.Runs.Coverage.{powered_on, keeps_on}
use cloudigrade.Runs.Relevant.{is_power_of, power_events}
use cloudigrade.Accounts.PowerOff.{off_at}
use cloudigrade.Aws.Tables.{AwsInstance, AwsDb, instance_of}
use cloudigrade.Aws.Instances.{InstanceData, has_instance_id}
use cloudigrade.Aws.Events.{is_power_event, add_event}
use cloudigrade.Aws.Missing.{
  is_of_account, is_running_id, last_power_event, still_running_instance, still_running_instances,
  add_power_offs, create_missing_power_off_aws_instance_events,
}

abbrev on_of : ℕ → InstanceEvent → Bool
on_of j e = e.instance_id == j && is_power_on e

-- A power_on of the instance later than `n`.
abbrev pub is_later_on : ℕ → ℕ → InstanceEvent → Bool
is_later_on j n e = e.instance_id == j && (is_power_on e && ltb n e.occurred_at)

-- A power event of the instance later than `n`.
abbrev pub is_later_power : ℕ → ℕ → InstanceEvent → Bool
is_later_power j n e = e.instance_id == j && (is_power_event e && ltb n e.occurred_at)

later_power-none :
    (j n : ℕ) (events : List InstanceEvent)
    → any (is_later_power j n) events ≡ false
    → any (is_later_on j n) events ≡ false
later_power-none j n [] h = refl
later_power-none j n (e ∷ es) h = ground (arith, later_power-none j n es)

-- No power_on of the instance, or a power_off by `time` which is not followed by any power_on.
abbrev IsStopped : ℕ → ℕ → List InstanceEvent → Type 0
IsStopped j time events =
    (any (on_of j) events ≡ false)
    ⊎ ((n : ℕ) × (any (off_at j n) events ≡ true)
        × (any (is_later_on j n) events ≡ false)
        × n ≤ time)

IsStopped-powered_on :
    (j time t : ℕ) (db : Db)
    → IsStopped j time db.events
    → time ≤ t
    → powered_on (power_events db j) t ≡ false
IsStopped-powered_on j time t db past le = elim (Bool-cases (powered_on (power_events db j) t)) [
  | inr e ↦ e
  | inl e ↦
      let (x, m, on) = any-witness (keeps_on (power_events db j) t) (power_events db j) e in
      let (stored, power) = select-In (is_power_of j) x db.events m in
      elim past [
        | inl nothing ↦
            let other = any-false (on_of j) x db.events nothing stored in absurd (ground arith)
        | inr (n, found, last, early) ↦
            let (y, my, off) = any-witness (off_at j n) db.events found in
            let order = any-false (is_later_on j n) x db.events last stored in
            let ends =
              any-intro
                (λ f. is_power_off f && leb x.occurred_at f.occurred_at && leb f.occurred_at t) y
                (power_events db j) (In-select (is_power_of j) y db.events my (ground arith))
                (ground arith) in
            absurd (ground arith)
      ]
]

module _ (orm : Orm) (now : ℕ) where
  -- A power_off that is added leaves the power_ons as they are.
  add_event-later :
      (i j n : ℕ) (w : AwsDb)
      → any (is_later_on j n) (add_event orm now i power_off now none w).db.events
        ≡ any (is_later_on j n) w.db.events
  add_event-later i j n w = any-append (is_later_on j n) w.db.events _ ∙ ground arith

  add_event-keeps :
      (i j : ℕ) (w : AwsDb)
      → IsStopped j now w.db.events
      → IsStopped j now (add_event orm now i power_off now none w).db.events
  add_event-keeps i j w past = elim past [
    | inl nothing ↦ inl (any-append (on_of j) w.db.events _ ∙ ground arith)
    | inr (n, found, last, le) ↦ inr (
      n,
      any-append (off_at j n) w.db.events _ ∙ ground arith,
      add_event-later i j n w ∙ last,
      le,
    )
  ]

  add_power_offs-keeps :
      (j : ℕ) (is : List Instance) (w : AwsDb)
      → IsStopped j now w.db.events
      → IsStopped j now (add_power_offs orm now is w).db.events
  unfolding add_power_offs
  add_power_offs-keeps j [] w past = past
  add_power_offs-keeps j (i ∷ is) w past =
      add_power_offs-keeps j is (add_event orm now i.id power_off now none w)
        (add_event-keeps i.id j w past)

  add_power_offs-IsStopped :
      (i : Instance) (is : List Instance) (w : AwsDb)
      → In i is
      → any (is_later_on i.id now) w.db.events ≡ false
      → IsStopped i.id now (add_power_offs orm now is w).db.events
  unfolding add_power_offs
  add_power_offs-IsStopped i [] w m h = elim m [ ]
  add_power_offs-IsStopped i (_ ∷ is) w here h =
      add_power_offs-keeps i.id is (add_event orm now i.id power_off now none w) (
        inr (
          now,
          any-append (off_at i.id now) w.db.events _ ∙ ground arith,
          add_event-later i.id i.id now w ∙ h,
          omega arith,
        ))
  add_power_offs-IsStopped i (k ∷ is) w (there m) h =
      add_power_offs-IsStopped i is (add_event orm now k.id power_off now none w) m
        (add_event-later k.id i.id now w ∙ h)

  module _ (j : ℕ) (events : List InstanceEvent)
      (on_time : any (is_later_power j now) events ≡ false) where
    abbrev of_instance : InstanceEvent → Bool
    of_instance e = e.instance_id == j && is_power_event e

    no_later_on :
        (n : ℕ)
        → any (λ e. ltb n e.occurred_at) (select of_instance events) ≡ false
        → any (is_later_on j n) events ≡ false
    no_later_on n h = any-refute (is_later_on j n) events (λ x m k.
        let other =
          any-false (λ e. ltb n e.occurred_at) x (select of_instance events) h
            (In-select of_instance x events m (ground arith)) in
        ground arith)

    no_power-IsStopped : last_power_event orm now j events ≡ none → IsStopped j now events
    unfolding last_power_event
    no_power-IsStopped h = inl (
        sym (any-select_keeps (on_of j) of_instance events (λ e k. ground arith))
        ∙ first-order_by_desc-none orm (λ e. e.occurred_at) (select of_instance events) (on_of j) h)

    off-IsStopped :
        (y : InstanceEvent)
        → last_power_event orm now j events ≡ some y
        → is_power_on y ≡ false
        → IsStopped j now events
    unfolding last_power_event
    off-IsStopped y h off =
        let power = first-order_by_desc-select orm (λ e. e.occurred_at) of_instance events y h in
        let found : any (off_at j y.occurred_at) events ≡ true =
          sym (any-select_keeps (off_at j y.occurred_at) of_instance events (λ e k. ground arith))
          ∙ first-order_by_desc-any orm (λ e. e.occurred_at) (select of_instance events) y
              (off_at j y.occurred_at) h (ground arith) in
        let (z, m, k) = any-witness (off_at j y.occurred_at) events found in
        let on = any-false (is_later_power j now) z events on_time m in
        inr (
          y.occurred_at,
          found,
          no_later_on y.occurred_at
              (first-order_by_desc-le orm (λ e. e.occurred_at) (select of_instance events) y h),
          ground arith,
        )

-- An instance of the account that does not run is among those that are powered off, or is off by now.
still_running_or-IsStopped :
    (orm : Orm) (now account_id : ℕ) (regions : List (Text × List InstanceData))
    (events : List InstanceEvent) (db : Db) (rows : List AwsInstance) (a : AwsInstance)
    (i : Instance)
    → In a rows
    → instance_of a db ≡ some i
    → is_of_account account_id db a ≡ true
    → is_running_id a.ec2_instance_id regions ≡ false
    → any (is_later_power i.id now) events ≡ false
    → In i (still_running_instances orm now account_id regions events db rows)
      ⊎ IsStopped i.id now events
unfolding still_running_instances
still_running_or-IsStopped orm now account_id regions events db [] a i m found owned stopped h =
    elim m [ ]
still_running_or-IsStopped orm now account_id regions events db (_ ∷ rows) a i here found owned
      stopped h =
    elim (Option-cases (last_power_event orm now i.id events)) [
      | inl e ↦ inr (no_power-IsStopped orm now i.id events h e)
      | inr (y, e) ↦ elim (Bool-cases (is_power_on y)) [
        | inl on ↦
            let listed : still_running_instance orm now account_id regions events db a ≡ some i =
              rw (owned, stopped, found, e, on, still_running_instance) refl in
            inl (rw (listed, still_running_instances) here)
        | inr off ↦ inr (off-IsStopped orm now i.id events h y e off)
      ]
    ]
still_running_or-IsStopped orm now account_id regions events db (b ∷ rows) a i (there m) found owned
      stopped h =
    elim (still_running_or-IsStopped orm now account_id regions events db rows a i m found owned
      stopped h) [
        | inr past ↦ inr past
        | inl listed ↦
            inl
              (elim (Option-cases (still_running_instance orm now account_id regions events db b)) [
                | inl e ↦ rw (e, still_running_instances) listed
                | inr (k, e) ↦ rw (e, still_running_instances) (there listed)
              ])
      ]

-- After the missing power_offs are created, a known instance of the account that AWS does not tell of as
-- running, and that has no power event later than now, is not powered on from now on.
pub create_missing_power_off_aws_instance_events-powered_on :
    (orm : Orm) (now t account_id : ℕ) (regions : List (Text × List InstanceData)) (w : AwsDb)
    (a : AwsInstance) (i : Instance)
    → In a w.aws_instances
    → instance_of a w.db ≡ some i
    → i.cloud_account_id ≡ account_id
    → is_running_id a.ec2_instance_id regions ≡ false
    → any (is_later_power i.id now) w.db.events ≡ false
    → now ≤ t
    → powered_on
        (power_events
          (create_missing_power_off_aws_instance_events orm now account_id regions w).db
          i.id)
        t
      ≡ false
unfolding create_missing_power_off_aws_instance_events
create_missing_power_off_aws_instance_events-powered_on orm now t account_id regions w a i m found
      same stopped h le =
    let w' = create_missing_power_off_aws_instance_events orm now account_id regions w in
    let off = still_running_instances orm now account_id regions w.db.events w.db w.aws_instances in
    let owned : is_of_account account_id w.db a ≡ true =
      find-passes (has_instance_id a.instance_id)
        (λ (k : Instance). k.id == a.instance_id && k.cloud_account_id == account_id) w.db.instances
        found
        (let held = find-holds (has_instance_id a.instance_id) w.db.instances found in
          ground arith) in
    let no_later : any (is_later_on i.id now) w.db.events ≡ false =
      later_power-none i.id now w.db.events h in
    IsStopped-powered_on i.id now t w'.db
      (elim (still_running_or-IsStopped orm now account_id regions w.db.events w.db w.aws_instances
        a i m found owned stopped h) [
          | inl listed ↦ add_power_offs-IsStopped orm now i off w listed no_later
          | inr past ↦ add_power_offs-keeps orm now i.id off w past
        ])
      le
