-- ===== src/Accounts/Tests.antt =====
-- The theorems about accounts at concrete inputs.
use cloudigrade.Prelude.{
  ℕ, ◌≡◌, refl, Bool, ◌||◌, true, false, ◌&&◌, not, none, some, [], ◌∷◌, arith, any, find, ◌==◌,
  here,
}
use cloudigrade.Orm.Insertion.{insertion_orm}
use cloudigrade.Models.{
  aws, power_on, User, CloudAccount, Instance, InstanceEvent, MachineImage, ConcurrentUsage, Db,
  empty_db,
}
use cloudigrade.Runs.Coverage.{powered_on}
use cloudigrade.Runs.Relevant.{power_events}
use cloudigrade.Accounts.World.{delete_cloudtrail, World, has_account_id}
use cloudigrade.Accounts.Clouds.{Clouds, client_error, deletes_cloudtrail}
use cloudigrade.Accounts.Account.{power_off_instances, disable, enable}
use cloudigrade.Accounts.PowerOff.{power_off_instances-powered_on}
use cloudigrade.Accounts.Enabling.{
  disable-deletes_cloudtrail, enable-find, enable-disables_synthetic,
}
use cloudigrade.Accounts.Users.{
  has_user_id, has_account, is_old, delete_inactive_users, delete_inactive_users-any,
}
use cloudigrade.Accounts.Removal.{
  is_in, belongs, is_run_of, counts_run_of, uses_image, delete_cloud_account_related_objects,
}
use cloudigrade.Accounts.Removal.{delete_cloud_account}
use cloudigrade.Accounts.Departure.{has_other, delete_cloud_account-leaves}
use cloudigrade.Accounts.Removed.{delete_cloud_account_related_objects-clears}

abbrev account : Bool → Bool → CloudAccount
account is_enabled is_synthetic = record {
  id = 1;
  user_id = 5;
  is_enabled = is_enabled;
  enabled_at = none;
  platform_authentication_id = 6;
  platform_application_id = 4;
  platform_application_is_paused = false;
  is_synthetic = is_synthetic;
  created_at = 0;
  content_object = some aws;
}

abbrev instance_seven : Instance
instance_seven = record { id = 7; cloud_account_id = 1; machine_image_id = none }

-- The account, its instance that was powered on at 10, and its user.
abbrev account_db : CloudAccount → Db
account_db a = record empty_db {
  users = record { id = 5; is_superuser = false; is_permanent = false; date_joined = 0 } ∷ [];
  cloud_accounts = a ∷ [];
  instances = instance_seven ∷ [];
  events =
      record {
        id = 1;
        instance_id = 7;
        event_type = power_on;
        occurred_at = 10;
        created_at = 10;
        updated_at = 10;
        cloud_type = aws;
        instance_type = none;
      }
      ∷ [];
}

abbrev world : CloudAccount → World
world a = record { db = account_db a; on_commit = []; notices = [] }

-- AWS denies every access.
abbrev denying : Clouds
denying = record { aws_answer = λ i. client_error; is_available_subscription = λ i. false }

power_off_instances-powered_on_example :
    powered_on
      (power_events (power_off_instances insertion_orm 20 1 (account_db (account true false))) 7)
      25
    ≡ false
power_off_instances-powered_on_example =
    power_off_instances-powered_on insertion_orm 20 25 1 (account_db (account true false))
      instance_seven here refl refl (omega arith)

disable-deletes_cloudtrail_example :
    let w' =
      (disable insertion_orm true true 20 (account true false) (world (account true false))).1 in
    (w'.on_commit ≡ delete_cloudtrail 1 ∷ []) × (deletes_cloudtrail 1 w'.db ≡ true)
disable-deletes_cloudtrail_example =
    disable-deletes_cloudtrail insertion_orm true true 20 (account true false)
      (world (account true false)) refl refl refl

enable-find_example :
    let (ok, a', w') =
      enable insertion_orm denying true 20 21 (account false false) (world (account false false)) in
    (a' ≡ record (account false false) { is_enabled = ok; enabled_at = some 20 })
    × (find (has_account_id 1) w'.db.cloud_accounts ≡ some a')
enable-find_example =
    enable-find insertion_orm denying 20 21 (account false false) (world (account false false)) refl
      refl

enable-disables_synthetic_example :
    let (ok, a', w') =
      enable insertion_orm denying true 20 21 (account false true) (world (account false true)) in
    (ok ≡ true)
    × (find (has_account_id 1) w'.db.cloud_accounts
        ≡ some (record (account false true) { is_enabled = false; enabled_at = some 20 }))
enable-disables_synthetic_example =
    enable-disables_synthetic insertion_orm denying 20 21 (account false true)
      (world (account false true)) refl refl refl

delete_inactive_users-any_example :
    any (has_user_id 5) (delete_inactive_users 90 30 (account_db (account true false))).users
    ≡ any (has_user_id 5) (account_db (account true false)).users
      && not (
          any
            (λ u.
              is_old 60 u
              && (has_user_id 5 u
                  && (not u.is_permanent
                      && not (has_account (account_db (account true false)) u.id))))
            (account_db (account true false)).users)
delete_inactive_users-any_example =
    delete_inactive_users-any 90 30 5 (account_db (account true false))

-- The account's instance has a run, and a usage counts it.
abbrev usage_db : Db
usage_db = record (account_db (account true false)) {
  runs =
      record {
        id = 2;
        start_time = 10;
        end_time = none;
        machineimage_id = none;
        instance_id = 7;
        instance_type = none;
        memory = none;
        vcpu = none;
        created_at = 10;
        updated_at = 10;
      }
      ∷ [];
  usages =
      record {
        id = 9;
        date = 0;
        user_id = 5;
        maximum_counts = [];
        potentially_related_runs = 2 ∷ [];
        updated_at = 10;
      }
      ∷ [];
}

usage_db_counts : any (counts_run_of usage_db 1) usage_db.usages ≡ true
usage_db_counts = refl

delete_cloud_account_related_objects-clears_example :
    let db = usage_db in
    let after = delete_cloud_account_related_objects 1 db in
    (any (is_run_of db.instances 1) after.runs ≡ false)
    × (any (λ (e : InstanceEvent). belongs db.instances 1 e.instance_id) after.events ≡ false)
    × (any (is_in 1) after.instances ≡ false)
    × (any (counts_run_of db 1) after.usages ≡ false)
    × ((j : ℕ)
        → any (λ (u : ConcurrentUsage). u.id == j && counts_run_of db 1 u) db.usages
            && any (λ (u : ConcurrentUsage). u.id == j) after.usages
          ≡ false)
    × ((i : ℕ)
        → uses_image (λ k. not (is_in 1 k)) i db.instances
            && any (λ (m : MachineImage). m.id == i) after.machine_images
          ≡ uses_image (λ k. not (is_in 1 k)) i db.instances
            && any (λ (m : MachineImage). m.id == i) db.machine_images)
    × ((p : InstanceEvent → Bool)
        → any (λ e. not (belongs db.instances 1 e.instance_id) && p e) after.events
          ≡ any (λ e. not (belongs db.instances 1 e.instance_id) && p e) db.events)
delete_cloud_account_related_objects-clears_example =
    delete_cloud_account_related_objects-clears 1 usage_db

abbrev owner : User
owner = record { id = 5; is_superuser = false; is_permanent = false; date_joined = 0 }

delete_cloud_account-leaves_example :
    let w = world (account true false) in
    let after = (delete_cloud_account insertion_orm 20 1 w).db in
    (any (has_account_id 1) after.cloud_accounts ≡ false)
    × (any (has_user_id 5) after.users ≡ has_other 5 1 w.db.cloud_accounts || owner.is_permanent)
delete_cloud_account-leaves_example =
    delete_cloud_account-leaves insertion_orm 20 1 (world (account true false)) (account true false)
      owner refl refl
