-- ===== src/Accounts/Account.antt =====
-- `CloudAccount.enable`, `disable` and `_power_off_instances` (cloudigrade/api/models.py). The object in
-- memory and its row are two things: an operation takes the object and gives its state afterwards.
use cloudigrade.Prelude.{
  ℕ, Bool, true, false, ◌&&◌, not, Option, none, some, List, [], ◌∷◌, ◌++◌, map, first, select,
  ◌==◌, if◌then◌else◌,
}
use cloudigrade.Orm.{Orm}
use cloudigrade.Models.{power_off, CloudAccount, Instance, InstanceEvent, Db, is_power_off}
use cloudigrade.Accounts.World.{World, notify, roll_back, save_account}
use cloudigrade.Accounts.Clouds.{Clouds, enable_content, disable_content}

module _ (orm : Orm) where
  unfoldable pub last_event : ℕ → List InstanceEvent → Option InstanceEvent
  last_event instance_id events =
      first
        (orm.order_by_desc (λ e. e.occurred_at) (select (λ e. e.instance_id == instance_id) events))

  -- The event that `InstanceEvent.objects.create` inserts; its cloud-specific row has no values.
  abbrev pub power_off_event : ℕ → ℕ → InstanceEvent → List InstanceEvent → InstanceEvent
  power_off_event time instance_id last events = record {
    id = orm.next_id (map (λ (e : InstanceEvent). e.id) events);
    instance_id = instance_id;
    event_type = power_off;
    occurred_at = time;
    created_at = time;
    updated_at = time;
    cloud_type = last.cloud_type;
    instance_type = none;
  }

  -- The body of the loop, for one instance.
  unfoldable pub power_off_instance : ℕ → ℕ → List InstanceEvent → List InstanceEvent
  unfolding last_event
  power_off_instance time instance_id events = elim (last_event instance_id events) [
    | none ↦ events
    | some last ↦
        if is_power_off last
        then events
        else events ++ power_off_event time instance_id last events ∷ []
  ]

  unfoldable pub power_off_each : ℕ → List Instance → List InstanceEvent → List InstanceEvent
  unfolding power_off_instance
  power_off_each time [] events = events
  power_off_each time (i ∷ is) events = power_off_each time is (power_off_instance time i.id events)

  unfoldable pub power_off_instances : ℕ → ℕ → Db → Db
  unfolding power_off_each
  power_off_instances time account_id db = record db {
    events =
        power_off_each time
          (select (λ (i : Instance). i.cloud_account_id == account_id) db.instances) db.events;
  }

  -- `disable(power_off_instances, notify_sources)`, at the time `now`.
  unfoldable pub disable : Bool → Bool → ℕ → CloudAccount → World → CloudAccount × World
  unfolding save_account power_off_instances disable_content
  disable powers_off notifies now account w =
      let disabled : CloudAccount = record account { is_enabled = false } in
      let saved : World =
        if account.is_enabled then record w { db = save_account disabled w.db } else w in
      let stopped : World =
        if powers_off
        then record saved { db = power_off_instances now account.id saved.db }
        else saved in
      let finished : World = disable_content disabled stopped in
      (
        disabled,
        if notifies && not account.is_synthetic
            then notify
                (record {
                  application_id = account.platform_application_id;
                  is_available = false;
                  error_code = none;
                })
                finished
            else finished,
      )

  -- The transaction of `enable`: whether the cloud-specific half succeeded, and the object.
  unfoldable pub attempt : Clouds → ℕ → CloudAccount → World → Bool × CloudAccount × World
  unfolding save_account enable_content
  attempt clouds now account w =
      let account' : CloudAccount =
        if account.is_enabled
        then account
        else record account { is_enabled = true; enabled_at = some now } in
      let saved : World =
        if account.is_enabled then w else record w { db = save_account account' w.db } in
      let (enabled_successfully, content_enabled) = enable_content clouds account' saved in
      (
        enabled_successfully,
        account',
        if enabled_successfully then content_enabled else roll_back w content_enabled,
      )

  -- What `enable` does after the transaction.
  unfoldable pub conclude :
      Bool → ℕ → Bool → Bool → CloudAccount → World → Bool × CloudAccount × World
  unfolding disable
  conclude disable_upon_failure now previously_enabled enabled_successfully account w =
      let (disabled, afterwards) = disable true false now account w in
      if enabled_successfully && not account.is_synthetic
      then (
        true,
        account,
        notify
            (record {
              application_id = account.platform_application_id;
              is_available = true;
              error_code = none;
            })
            w,
      )
      else if disable_upon_failure && not previously_enabled
      then (enabled_successfully, disabled, afterwards)
      else (enabled_successfully, account, w)

  -- `enable(disable_upon_failure)`: the account is enabled at the time `now`, and disabled again, if it
  -- is, at the time `later`. The result is what it returns, the object and the world afterwards.
  unfoldable pub enable : Clouds → Bool → ℕ → ℕ → CloudAccount → World → Bool × CloudAccount × World
  unfolding attempt conclude
  enable clouds disable_upon_failure now later account w =
      let (enabled_successfully, account', committed) = attempt clouds now account w in
      conclude disable_upon_failure later account.is_enabled enabled_successfully account' committed
