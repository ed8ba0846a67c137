-- ===== src/Accounts/PowerOff.antt =====
-- What `_power_off_instances` (cloudigrade/api/models.py) leaves of an account's instances.
use cloudigrade.Prelude.{
  ℕ, ◌≤◌, ◌≡◌, refl, ◌∙◌, sym, Bool, true, false, ◌&&◌, some, List, [], ◌∷◌, ◌++◌, arith, any,
  any-append, any-select, any-witness, any-intro, any-false, select, select-In, In-select, In, here,
  there, leb, ltb, ◌==◌, first, ◌⊎◌, inl, inr, Bool-cases, Option-cases,
}
use cloudigrade.Orm.{Orm}
use cloudigrade.Orm.Laws.{any-order_by_desc, first-order_by_desc-none, first-order_by_desc-le}
use cloudigrade.Models.{Instance, InstanceEvent, Db, is_power_off}
use cloudigrade.Runs.Coverage.{powered_on, keeps_on}
use cloudigrade.Runs.Relevant.{is_power_of, power_events}
use cloudigrade.Accounts.Account.{
  last_event, power_off_event, power_off_instance, power_off_each, power_off_instances,
}

abbrev of : ℕ → InstanceEvent → Bool
of j e = e.instance_id == j

-- A power_off of the instance at `n`.
abbrev pub off_at : ℕ → ℕ → InstanceEvent → Bool
off_at j n e = of j e && (is_power_off e && e.occurred_at == n)

-- The instance has an event later than `n`.
abbrev pub has_later : ℕ → ℕ → List InstanceEvent → Bool
has_later j n events = any (λ e. of j e && ltb n e.occurred_at) events

-- No event of the instance, or a power_off by `time` which is not followed by any event.
abbrev IsOff : ℕ → ℕ → List InstanceEvent → Type 0
IsOff j time events =
    (any (of j) events ≡ false)
    ⊎ ((n : ℕ) × (any (off_at j n) events ≡ true) × (has_later j n events ≡ false) × n ≤ time)

-- The head of a list passes some test that the list's rows then pass as well.
pub first-any :
    (p : InstanceEvent → Bool) (es : List InstanceEvent) (y : InstanceEvent)
    → first es ≡ some y
    → p y ≡ true
    → any p es ≡ true
first-any p [] y h k = absurd (cc)
first-any p (e ∷ es) y h k = ground arith

any-select-same :
    (p : InstanceEvent → Bool) (es : List InstanceEvent) → any p (select p es) ≡ any p es
any-select-same p [] = refl
any-select-same p (e ∷ es) = ground (arith, any-select-same p es)

module _ (orm : Orm) (time : ℕ) where
  off_by :
      (j n : ℕ) (events : List InstanceEvent)
      → has_later j time events ≡ false
      → any (off_at j n) events ≡ true
      → n ≤ time
  off_by j n events h found =
      let (e, m, k) = any-witness (off_at j n) events found in
      let early = any-false (λ e. of j e && ltb time e.occurred_at) e events h m in ground arith

  last-off :
      (j : ℕ) (events : List InstanceEvent) (y : InstanceEvent)
      → last_event orm j events ≡ some y
      → is_power_off y ≡ true
      → any (off_at j y.occurred_at) events ≡ true
  unfolding last_event
  last-off j events y e off =
      let found =
        sym (
          any-order_by_desc orm (λ e. e.occurred_at)
            (λ e. is_power_off e && e.occurred_at == y.occurred_at) (select (of j) events))
        ∙ first-any (λ e. is_power_off e && e.occurred_at == y.occurred_at) _ y e (ground arith) in
      sym (any-select (λ e. is_power_off e && e.occurred_at == y.occurred_at) (of j) events) ∙ found

  power_off_instance-later :
      (i j : ℕ) (events : List InstanceEvent)
      → has_later j time events ≡ false
      → has_later j time (power_off_instance orm time i events) ≡ false
  unfolding power_off_instance
  power_off_instance-later i j events h = elim (Option-cases (last_event orm i events)) [
    | inl e ↦ rw (e, power_off_instance) h
    | inr (y, e) ↦ elim (Bool-cases (is_power_off y)) [
      | inl f ↦ rw (e, f, power_off_instance) h
      | inr f ↦
          rw (e, f, power_off_instance)
            (any-append (λ e. of j e && ltb time e.occurred_at) events _ ∙ ground arith)
    ]
  ]

  append-IsOff :
      (i j : ℕ) (y : InstanceEvent) (events : List InstanceEvent)
      → has_later j time events ≡ false
      → IsOff j time events ⊎ (i ≡ j)
      → IsOff j time (events ++ power_off_event orm time i y events ∷ [])
  append-IsOff i j y events h past =
      let new : List InstanceEvent = power_off_event orm time i y events ∷ [] in
      elim (Bool-cases (i == j)) [
        | inl same ↦ inr (
          time,
          any-append (off_at j time) events new ∙ ground arith,
          any-append (λ e. of j e && ltb time e.occurred_at) events new ∙ ground arith,
          omega arith,
        )
        | inr other ↦ elim past [
          | inr same ↦ absurd (ground arith)
          | inl (inl nothing) ↦ inl (any-append (of j) events new ∙ ground arith)
          | inl (inr (n, found, last, le)) ↦ inr (
            n,
            any-append (off_at j n) events new ∙ ground arith,
            any-append (λ e. of j e && ltb n e.occurred_at) events new ∙ ground arith,
            le,
          )
        ]
      ]

  power_off_instance-keeps :
      (i j : ℕ) (events : List InstanceEvent)
      → has_later j time events ≡ false
      → IsOff j time events
      → IsOff j time (power_off_instance orm time i events)
  unfolding power_off_instance
  power_off_instance-keeps i j events h past = elim (Option-cases (last_event orm i events)) [
    | inl e ↦ rw (e, power_off_instance) past
    | inr (y, e) ↦ elim (Bool-cases (is_power_off y)) [
      | inl f ↦ rw (e, f, power_off_instance) past
      | inr f ↦ rw (e, f, power_off_instance) (append-IsOff i j y events h (inl past))
    ]
  ]

  power_off_instance-IsOff :
      (j : ℕ) (events : List InstanceEvent)
      → has_later j time events ≡ false
      → IsOff j time (power_off_instance orm time j events)
  unfolding power_off_instance last_event
  power_off_instance-IsOff j events h = elim (Option-cases (last_event orm j events)) [
    | inl e ↦
        rw (e, power_off_instance)
          (inl (
            sym (any-select-same (of j) events)
            ∙ first-order_by_desc-none orm (λ e. e.occurred_at) (select (of j) events) (of j) e))
    | inr (y, e) ↦ elim (Bool-cases (is_power_off y)) [
      | inl f ↦
          let none_later =
            sym (any-select (λ e. ltb y.occurred_at e.occurred_at) (of j) events)
            ∙ first-order_by_desc-le orm (λ e. e.occurred_at) (select (of j) events) y e in
          let found = last-off j events y e f in
          rw (e, f, power_off_instance)
            (inr (y.occurred_at, found, none_later, off_by j y.occurred_at events h found))
      | inr f ↦ rw (e, f, power_off_instance) (append-IsOff j j y events h (inr refl))
    ]
  ]

  power_off_each-keeps :
      (j : ℕ) (is : List Instance) (events : List InstanceEvent)
      → has_later j time events ≡ false
      → IsOff j time events
      → IsOff j time (power_off_each orm time is events)
  unfolding power_off_each
  power_off_each-keeps j [] events h past = past
  power_off_each-keeps j (i ∷ is) events h past =
      power_off_each-keeps j is (power_off_instance orm time i.id events)
        (power_off_instance-later i.id j events h) (power_off_instance-keeps i.id j events h past)

  power_off_each-IsOff :
      (i : Instance) (is : List Instance) (events : List InstanceEvent)
      → In i is
      → has_later i.id time events ≡ false
      → IsOff i.id time (power_off_each orm time is events)
  unfolding power_off_each
  power_off_each-IsOff i [] events m h = elim m [ ]
  power_off_each-IsOff i (_ ∷ is) events here h =
      power_off_each-keeps i.id is (power_off_instance orm time i.id events)
        (power_off_instance-later i.id i.id events h) (power_off_instance-IsOff i.id events h)
  power_off_each-IsOff i (k ∷ is) events (there m) h =
      power_off_each-IsOff i is (power_off_instance orm time k.id events) m
        (power_off_instance-later k.id i.id events h)

-- An instance whose last event is a power_off is not powered on from then on.
IsOff-powered_on :
    (j time t : ℕ) (db : Db)
    → IsOff j time db.events
    → time ≤ t
    → powered_on (power_events db j) t ≡ false
IsOff-powered_on j time t db past le = elim (Bool-cases (powered_on (power_events db j) t)) [
  | inr e ↦ e
  | inl e ↦
      let (x, m, on) = any-witness (keeps_on (power_events db j) t) (power_events db j) e in
      let (stored, power) = select-In (is_power_of j) x db.events m in
      elim past [
        | inl nothing ↦
            let other = any-false (of j) x db.events nothing stored in absurd (ground arith)
        | inr (n, found, last, early) ↦
            let (y, my, off) = any-witness (off_at j n) db.events found in
            let order = any-false (λ e. of j e && ltb n e.occurred_at) x db.events last stored in
            let ends =
              any-intro
                (λ f. is_power_off f && leb x.occurred_at f.occurred_at && leb f.occurred_at t) y
                (power_events db j) (In-select (is_power_of j) y db.events my (ground arith))
                (ground arith) in
            absurd (ground arith)
      ]
]

-- After the instances of an account are powered off, an instance of the account that has no event later
-- than the time of the power-off is not powered on at that time nor at any later one.
pub power_off_instances-powered_on :
    (orm : Orm) (time t account_id : ℕ) (db : Db) (i : Instance)
    → In i db.instances
    → i.cloud_account_id ≡ account_id
    → has_later i.id time db.events ≡ false
    → time ≤ t
    → powered_on (power_events (power_off_instances orm time account_id db) i.id) t ≡ false
unfolding power_off_instances
power_off_instances-powered_on orm time t account_id db i m same h le =
    let of_account : Instance → Bool = λ (k : Instance). k.cloud_account_id == account_id in
    IsOff-powered_on i.id time t (power_off_instances orm time account_id db)
      (power_off_each-IsOff orm time i (select of_account db.instances) db.events
        (In-select of_account i db.instances m (ground arith)) h)
      le
