-- ===== src/Accounts/Removal.antt =====
-- The deletion of cloud accounts: `_delete_cloud_accounts`, `_delete_cloud_account_related_objects` and
-- what it calls (cloudigrade/api/tasks/maintenance.py), and the signals around the deletion of an
-- account's row (cloudigrade/api/models.py).
use cloudigrade.Prelude.{
  ℕ, Bool, true, false, ◌&&◌, not, none, some, List, [], ◌∷◌, map, any, find, select, ◌==◌,
  if◌then◌else◌, option_eq,
}
use cloudigrade.Orm.{Orm}
use cloudigrade.Models.{
  MachineImage, CloudAccount, Instance, InstanceEvent, Run, ConcurrentUsage, Db,
}
use cloudigrade.Runs.Recalculate.{is_related, delete_runs}
use cloudigrade.Accounts.World.{World, has_account_id}
use cloudigrade.Accounts.Account.{disable}
use cloudigrade.Accounts.Users.{delete_user_row, has_user_id}

-- `cloud_account=cloud_account` of an instance, and through the instance of a run and an event.
abbrev pub is_in : ℕ → Instance → Bool
is_in account_id i = i.cloud_account_id == account_id

abbrev pub belongs : List Instance → ℕ → ℕ → Bool
belongs instances account_id instance_id =
    any (λ i. i.id == instance_id && is_in account_id i) instances

abbrev pub is_run_of : List Instance → ℕ → Run → Bool
is_run_of instances account_id r = belongs instances account_id r.instance_id

-- The usage counts a run of the account.
abbrev pub counts_run_of : Db → ℕ → ConcurrentUsage → Bool
counts_run_of db account_id u =
    any (λ r. is_run_of db.instances account_id r && is_related r.id u) db.runs

-- The rows of the through table that are left to a usage.
abbrev pub drop_runs : Db → ℕ → ConcurrentUsage → ConcurrentUsage
drop_runs db account_id u = record u {
  potentially_related_runs =
      select (λ i. not (any (λ r. r.id == i && is_run_of db.instances account_id r) db.runs))
        u.potentially_related_runs;
}

-- The ids of the usages are fetched before the through table's rows are deleted.
unfoldable pub delete_runs_and_concurrent_usage : ℕ → Db → Db
delete_runs_and_concurrent_usage account_id db =
    let concurrent_usage_ids : List ℕ =
      map (λ (u : ConcurrentUsage). u.id) (select (counts_run_of db account_id) db.usages) in
    record db {
      usages =
          select (λ (u : ConcurrentUsage). not (any (λ i. i == u.id) concurrent_usage_ids))
            (map (drop_runs db account_id) db.usages);
      runs = select (λ r. not (is_run_of db.instances account_id r)) db.runs;
    }

-- The events, with the cloud-specific rows that are part of them.
unfoldable pub delete_events : ℕ → Db → Db
delete_events account_id db = record db {
  events =
      select (λ (e : InstanceEvent). not (belongs db.instances account_id e.instance_id)) db.events;
}

-- Some instance that passes the test uses the image.
abbrev pub uses_image : (Instance → Bool) → ℕ → List Instance → Bool
uses_image p image_id instances =
    any (λ i. p i && option_eq ◌==◌ i.machine_image_id (some image_id)) instances

-- The images of the account's instances that no instance of another account uses.
abbrev pub is_unused : ℕ → List Instance → MachineImage → Bool
is_unused account_id instances image =
    uses_image (is_in account_id) image.id instances
    && not (uses_image (λ i. not (is_in account_id i)) image.id instances)

-- `MachineImage.objects.filter(...).delete()`, which also deletes the runs of the images.
unfoldable pub delete_images : (MachineImage → Bool) → Db → Db
unfolding delete_runs
delete_images p db =
    record (delete_runs
      (λ r. any (λ m. p m && option_eq ◌==◌ r.machineimage_id (some m.id)) db.machine_images) db) {
        machine_images = select (λ m. not (p m)) db.machine_images;
      }

unfoldable pub delete_instance_and_images : ℕ → Db → Db
unfolding delete_images
delete_instance_and_images account_id db =
    delete_images (is_unused account_id db.instances)
      (record db { instances = select (λ i. not (is_in account_id i)) db.instances })

unfoldable pub delete_cloud_account_related_objects : ℕ → Db → Db
unfolding delete_runs_and_concurrent_usage delete_events delete_instance_and_images
delete_cloud_account_related_objects account_id db =
    delete_instance_and_images account_id
      (delete_events account_id (delete_runs_and_concurrent_usage account_id db))

-- The signal after the deletion: the user goes with the last account.
unfoldable pub account_post_delete : CloudAccount → Db → Db
unfolding delete_user_row
account_post_delete account db =
    if any (λ (a : CloudAccount). a.user_id == account.user_id && not (a.id == account.id))
      db.cloud_accounts
    then db
    else (elim (find (has_user_id account.user_id) db.users) [
      | none ↦ db
      | some user ↦ (delete_user_row user db).1
    ])

-- `CloudAccount.objects.filter(id=...).delete()`, once its instances are gone: the signal before the
-- deletion disables the account, then the row goes, then the signal after it.
unfoldable pub delete_account_row : Orm → ℕ → CloudAccount → World → World
unfolding disable account_post_delete
delete_account_row orm now account w =
    let w' = (disable orm false true now account w).1 in
    record w' {
      db = account_post_delete account (record w'.db {
        cloud_accounts = select (λ a. not (has_account_id account.id a)) w'.db.cloud_accounts;
      });
    }

-- The body of the loop; an account that is no longer there is passed over.
unfoldable pub delete_cloud_account : Orm → ℕ → ℕ → World → World
unfolding delete_cloud_account_related_objects delete_account_row
delete_cloud_account orm now account_id w =
    elim (find (has_account_id account_id) w.db.cloud_accounts) [
      | none ↦ w
      | some account ↦
          delete_account_row orm now account
            (record w { db = delete_cloud_account_related_objects account.id w.db })
    ]

unfoldable pub delete_cloud_accounts : Orm → ℕ → List ℕ → World → World
unfolding delete_cloud_account
delete_cloud_accounts orm now [] w = w
delete_cloud_accounts orm now (i ∷ is) w =
    delete_cloud_accounts orm now is (delete_cloud_account orm now i w)
