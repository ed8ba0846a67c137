-- ===== src/Accounts/Departure.antt =====
-- What `_delete_cloud_accounts` (cloudigrade/api/tasks/maintenance.py) leaves of an account and its user.
use cloudigrade.Prelude.{
  ℕ, ◌≡◌, refl, ap, ==_iff, ◌∙◌, Bool, true, false, ◌&&◌, ◌||◌, not, some, List, [], ◌∷◌, arith,
  any, find, any-append, any-select_keeps, any-reject, find-holds, find-exists, select, ◌==◌,
}
use mathlib.Core.Path.{subst}
use cloudigrade.Orm.{Orm}
use cloudigrade.Models.{User, CloudAccount, Db}
use cloudigrade.Runs.Recalculate.{delete_runs}
use cloudigrade.Accounts.World.{World, has_account_id, replace_account, save_account}
use cloudigrade.Accounts.Account.{disable}
use cloudigrade.Accounts.Enabling.{disable_content-db}
use cloudigrade.Accounts.Users.{has_user_id, delete_user_row}
use cloudigrade.Accounts.Removal.{
  delete_runs_and_concurrent_usage, delete_events, delete_instance_and_images, delete_images,
  delete_cloud_account_related_objects, account_post_delete, delete_account_row,
  delete_cloud_account,
}

-- The user owns an account other than the one with the id.
abbrev pub has_other : ℕ → ℕ → List CloudAccount → Bool
has_other user_id account_id accounts =
    any (λ (a : CloudAccount). a.user_id == user_id && not (a.id == account_id)) accounts

has_other-replace_account :
    (u : ℕ) (a : CloudAccount) (rows : List CloudAccount)
    → has_other u a.id (replace_account a rows) ≡ has_other u a.id rows
has_other-replace_account u a [] = refl
has_other-replace_account u a (r ∷ rows) = ground (arith, has_other-replace_account u a rows)

has_other-save_account :
    (u : ℕ) (a : CloudAccount) (db : Db)
    → has_other u a.id (save_account a db).cloud_accounts ≡ has_other u a.id db.cloud_accounts
unfolding save_account
has_other-save_account u a db =
    let appended =
      any-append (λ (x : CloudAccount). x.user_id == u && not (x.id == a.id)) db.cloud_accounts
        (a ∷ []) in
    ground (arith, has_other-replace_account u a db.cloud_accounts, appended)

module _ (orm : Orm) (now : ℕ) (a : CloudAccount) (w : World) where
  abbrev disabled_db : Db
  disabled_db = (disable orm false true now a w).1.db

  users-disable : disabled_db.users ≡ w.db.users
  unfolding disable save_account
  users-disable =
      let disabled : CloudAccount = record a { is_enabled = false } in
      ground (
        arith,
        disable_content-db disabled w,
        disable_content-db disabled (record w { db = save_account disabled w.db }),
      )

  has_other-disable :
      (u : ℕ) → has_other u a.id disabled_db.cloud_accounts ≡ has_other u a.id w.db.cloud_accounts
  unfolding disable
  has_other-disable u =
      let disabled : CloudAccount = record a { is_enabled = false } in
      ground (
        arith,
        has_other-save_account u disabled w.db,
        disable_content-db disabled w,
        disable_content-db disabled (record w { db = save_account disabled w.db }),
      )

any-reject_user :
    (i k : ℕ) (us : List User)
    → k ≡ i
    → any (has_user_id i) (select (λ u. not (has_user_id k u)) us) ≡ false
any-reject_user i k us same = rw same (any-reject (has_user_id i) us)

post_delete-users :
    (a : CloudAccount) (db : Db) (user : User)
    → find (has_user_id a.user_id) db.users ≡ some user
    → any (has_user_id a.user_id) (account_post_delete a db).users
      ≡ has_other a.user_id a.id db.cloud_accounts || user.is_permanent
unfolding account_post_delete delete_user_row
post_delete-users a db user h =
    let known = find-exists (has_user_id a.user_id) db.users h in
    let owner = find-holds (has_user_id a.user_id) db.users h in
    let same : user.id ≡ a.user_id = ground arith in
    ground (arith, h, known, any-reject_user a.user_id user.id db.users same)

post_delete-accounts :
    (a : CloudAccount) (db : Db) → (account_post_delete a db).cloud_accounts ≡ db.cloud_accounts
unfolding account_post_delete delete_user_row
post_delete-accounts a db = ground arith

related-users :
    (i : ℕ) (db : Db)
    → let after = delete_cloud_account_related_objects i db in
      (after.users ≡ db.users) × (after.cloud_accounts ≡ db.cloud_accounts)
unfolding delete_cloud_account_related_objects delete_runs_and_concurrent_usage delete_events
    delete_instance_and_images delete_images delete_runs
related-users i db = (refl, refl)

delete_account_row-leaves :
    (orm : Orm) (now : ℕ) (a : CloudAccount) (w : World) (user : User)
    → find (has_user_id a.user_id) w.db.users ≡ some user
    → let after = (delete_account_row orm now a w).db in
      (any (has_account_id a.id) after.cloud_accounts ≡ false)
      × (any (has_user_id a.user_id) after.users
          ≡ has_other a.user_id a.id w.db.cloud_accounts || user.is_permanent)
unfolding delete_account_row
delete_account_row-leaves orm now a w user h =
    let disabled : Db = disabled_db orm now a w in
    let rows : List CloudAccount =
      select (λ x. not (has_account_id a.id x)) disabled.cloud_accounts in
    let others =
      any-select_keeps (λ (x : CloudAccount). x.user_id == a.user_id && not (x.id == a.id))
        (λ x. not (has_account_id a.id x)) disabled.cloud_accounts (λ x e. ground arith) in
    let left =
      post_delete-users a (record disabled { cloud_accounts = rows }) user
        (rw (users-disable orm now a w) h) in
    (
      rw (post_delete-accounts a (record disabled { cloud_accounts = rows }))
          (any-reject (has_account_id a.id) disabled.cloud_accounts),
      left ∙ rw (others, has_other-disable orm now a w a.user_id) refl,
    )

delete_cloud_account-found :
    (orm : Orm) (now account_id : ℕ) (w : World) (a : CloudAccount)
    → find (has_account_id account_id) w.db.cloud_accounts ≡ some a
    → delete_cloud_account orm now account_id w
      ≡ delete_account_row orm now a
          (record w { db = delete_cloud_account_related_objects a.id w.db })
unfolding delete_cloud_account
delete_cloud_account-found orm now account_id w a h = rw (h, delete_cloud_account) refl

-- After a stored account is deleted its row is gone, and where the user of the account is stored, the
-- user is there afterwards exactly when the user owns another account or is permanent.
pub delete_cloud_account-leaves :
    (orm : Orm) (now account_id : ℕ) (w : World) (a : CloudAccount) (user : User)
    → find (has_account_id account_id) w.db.cloud_accounts ≡ some a
    → find (has_user_id a.user_id) w.db.users ≡ some user
    → let after = (delete_cloud_account orm now account_id w).db in
      (any (has_account_id account_id) after.cloud_accounts ≡ false)
      × (any (has_user_id a.user_id) after.users
          ≡ has_other a.user_id account_id w.db.cloud_accounts || user.is_permanent)
delete_cloud_account-leaves orm now account_id w a user stored h =
    let same : a.id ≡ account_id =
      (==_iff a.id account_id).0
        (find-holds (has_account_id account_id) w.db.cloud_accounts stored) in
    let (users, accounts) = related-users a.id w.db in
    let (gone, left) =
      delete_account_row-leaves orm now a
        (record w { db = delete_cloud_account_related_objects a.id w.db }) user (rw users h) in
    let kept = left ∙ ap (λ rows. has_other a.user_id a.id rows || user.is_permanent) accounts in
    let after : Db =
      (delete_account_row orm now a
        (record w { db = delete_cloud_account_related_objects a.id w.db })).db in
    rw (delete_cloud_account-found orm now account_id w a stored) (
      subst (λ i. any (has_account_id i) after.cloud_accounts ≡ false) same gone,
      kept ∙ ap (λ i. has_other a.user_id i w.db.cloud_accounts || user.is_permanent) same,
    )
