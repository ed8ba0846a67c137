-- ===== src/Accounts/Enabling.antt =====
-- What `CloudAccount.enable` and `disable` (cloudigrade/api/models.py) leave in the account's row.
use cloudigrade.Prelude.{
  ℕ, ◌≡◌, refl, ◌∙◌, ap, Bool, true, false, some, List, [], ◌∷◌, ◌++◌, arith, any, find, inl, inr,
  Bool-cases,
}
use cloudigrade.Orm.{Orm}
use cloudigrade.Models.{aws, CloudAccount, Db}
use cloudigrade.Accounts.World.{
  delete_cloudtrail, World, has_account_id, replace_account, save_account,
}
use cloudigrade.Accounts.Clouds.{
  Clouds, verify_permissions, enable_aws, enable_azure, enable_content, disable_aws,
  disable_content, deletes_cloudtrail,
}
use cloudigrade.Accounts.Account.{power_off_instances, disable, attempt, conclude, enable}

find-replace_account :
    (a : CloudAccount) (rows : List CloudAccount)
    → any (has_account_id a.id) rows ≡ true
    → find (has_account_id a.id) (replace_account a rows) ≡ some a
find-replace_account a [] h = absurd (cc)
find-replace_account a (r ∷ rows) h = ground (arith, find-replace_account a rows)

find-append_account :
    (a : CloudAccount) (rows : List CloudAccount)
    → any (has_account_id a.id) rows ≡ false
    → find (has_account_id a.id) (rows ++ a ∷ []) ≡ some a
find-append_account a [] h = ground arith
find-append_account a (r ∷ rows) h = ground (arith, find-append_account a rows)

-- What was saved is what is read.
pub find-save_account :
    (a : CloudAccount) (db : Db)
    → find (has_account_id a.id) (save_account a db).cloud_accounts ≡ some a
unfolding save_account
find-save_account a db = elim (Bool-cases (any (has_account_id a.id) db.cloud_accounts)) [
  | inl e ↦ rw e (find-replace_account a db.cloud_accounts e)
  | inr e ↦ rw e (find-append_account a db.cloud_accounts e)
]

verify_permissions-db :
    (clouds : Clouds) (i : ℕ) (w : World) → (verify_permissions clouds i w).1.db ≡ w.db
unfolding verify_permissions
verify_permissions-db clouds i w = ground arith

enable_aws-db : (clouds : Clouds) (i : ℕ) (w : World) → (enable_aws clouds i w).1.db ≡ w.db
unfolding enable_aws
enable_aws-db clouds i w = ground (arith, verify_permissions-db clouds i w)

enable_content-db :
    (clouds : Clouds) (a : CloudAccount) (w : World) → (enable_content clouds a w).1.db ≡ w.db
unfolding enable_content enable_azure
enable_content-db clouds a w = ground (arith, enable_aws-db clouds a.id w)

pub disable_content-db : (a : CloudAccount) (w : World) → (disable_content a w).db ≡ w.db
unfolding disable_content disable_aws
disable_content-db a w = ground arith

module _ (orm : Orm) (powers_off notifies : Bool) (now : ℕ) (a : CloudAccount) (w : World) where
  -- Disabling an object that is enabled saves it as disabled.
  pub disable-find :
      a.is_enabled ≡ true
      → find (has_account_id a.id) (disable orm powers_off notifies now a w).1.db.cloud_accounts
        ≡ some (record a { is_enabled = false })
  unfolding disable power_off_instances
  disable-find h =
      let disabled : CloudAccount = record a { is_enabled = false } in
      let saved = find-save_account disabled w.db in
      ground (
        arith,
        saved,
        h,
        disable_content-db disabled (record w { db = save_account disabled w.db }),
        disable_content-db disabled
            (record w { db = power_off_instances orm now a.id (save_account disabled w.db) }),
      )

  disable_content-on_commit :
      (d : CloudAccount) (w' : World)
      → d.content_object ≡ some aws
      → find (has_account_id d.id) w'.db.cloud_accounts ≡ some d
      → d.is_synthetic ≡ false
      → (disable_content d w').on_commit ≡ w'.on_commit ++ delete_cloudtrail d.id ∷ []
  unfolding disable_content disable_aws
  disable_content-on_commit d w' cloud row real = ground (arith, cloud, row, real)

  disable-on_commit :
      a.is_enabled ≡ true
      → a.is_synthetic ≡ false
      → a.content_object ≡ some aws
      → (disable orm powers_off notifies now a w).1.on_commit
        ≡ w.on_commit ++ delete_cloudtrail a.id ∷ []
  unfolding disable power_off_instances
  disable-on_commit h real cloud =
      let disabled : CloudAccount = record a { is_enabled = false } in
      let saved = find-save_account disabled w.db in
      let queued =
        disable_content-on_commit disabled (record w { db = save_account disabled w.db }) cloud
          saved real in
      let queued_off =
        disable_content-on_commit disabled
          (record w { db = power_off_instances orm now a.id (save_account disabled w.db) }) cloud
          saved real in
      ground (arith, h, queued, queued_off)

  -- Disabling an AWS account that is enabled and not synthetic adds one callback for the commit, and in
  -- the tables that it leaves this callback asks AWS to delete the account's trail.
  pub disable-deletes_cloudtrail :
      a.is_enabled ≡ true
      → a.is_synthetic ≡ false
      → a.content_object ≡ some aws
      → let w' = (disable orm powers_off notifies now a w).1 in
        (w'.on_commit ≡ w.on_commit ++ delete_cloudtrail a.id ∷ [])
        × (deletes_cloudtrail a.id w'.db ≡ true)
  unfolding deletes_cloudtrail
  disable-deletes_cloudtrail h real cloud =
      (disable-on_commit h real cloud, rw (disable-find h, deletes_cloudtrail) refl)

module _ (orm : Orm) (clouds : Clouds) (now : ℕ) (a : CloudAccount) (w : World)
    (h : a.is_enabled ≡ false) where
  abbrev enabled : CloudAccount
  enabled = record a { is_enabled = true; enabled_at = some now }

  attempt-account : (attempt orm clouds now a w).1 ≡ enabled
  unfolding attempt
  attempt-account = ground (arith, h)

  -- A success leaves the row enabled.
  attempt-find :
      (attempt orm clouds now a w).0 ≡ true
      → find (has_account_id a.id) (attempt orm clouds now a w).2.db.cloud_accounts ≡ some enabled
  unfolding attempt
  attempt-find e =
      let saved : World = record w { db = save_account enabled w.db } in
      ground (arith, h, e, find-save_account enabled w.db, enable_content-db clouds enabled saved)

module _ (orm : Orm) (later : ℕ) (a : CloudAccount) (w : World) (h : a.is_enabled ≡ true) where
  conclude-find :
      (ok : Bool)
      → a.is_synthetic ≡ false
      → (ok ≡ true → find (has_account_id a.id) w.db.cloud_accounts ≡ some a)
      → let (result, a', w') = conclude orm true later false ok a w in
        (a' ≡ record a { is_enabled = result })
        × (find (has_account_id a.id) w'.db.cloud_accounts ≡ some a')
  unfolding conclude
  conclude-find true real stored = (ground (arith, h, real), ground (arith, real, stored refl))
  conclude-find false real stored = (refl, disable-find orm true false later a w h)

-- A synthetic AWS account passes the transaction without a question to AWS.
attempt-synthetic :
    (orm : Orm) (clouds : Clouds) (now : ℕ) (a : CloudAccount) (w : World)
    → a.is_enabled ≡ false
    → a.is_synthetic ≡ true
    → a.content_object ≡ some aws
    → (attempt orm clouds now a w).0 ≡ true
unfolding attempt enable_content enable_aws
attempt-synthetic orm clouds now a w h synthetic cloud =
    let saved = find-save_account (record a { is_enabled = true; enabled_at = some now }) w.db in
    ground (arith, h, synthetic, cloud, saved)

conclude-synthetic :
    (orm : Orm) (later : ℕ) (a : CloudAccount) (w : World) (ok : Bool)
    → ok ≡ true
    → a.is_enabled ≡ true
    → a.is_synthetic ≡ true
    → let (result, a', w') = conclude orm true later false ok a w in
      (result ≡ true)
      × (find (has_account_id a.id) w'.db.cloud_accounts ≡ some (record a { is_enabled = false }))
unfolding conclude
conclude-synthetic orm later a w true same h synthetic =
    let row = disable-find orm true false later a w h in
    (ground (arith, synthetic), ground (arith, synthetic, row))
conclude-synthetic orm later a w false same h synthetic = absurd (cc)

enable-attempt :
    (orm : Orm) (clouds : Clouds) (now later : ℕ) (a : CloudAccount) (w : World)
    (h : a.is_enabled ≡ false)
    → enable orm clouds true now later a w ≡ (
        let (ok, _, committed) = attempt orm clouds now a w in
        conclude orm true later false ok (enabled orm clouds now a w h) committed)
unfolding enable
enable-attempt orm clouds now later a w h =
    let t : Bool × CloudAccount × World = attempt orm clouds now a w in
    ap (λ b. conclude orm true later b t.0 t.1 t.2) h
    ∙ ap (λ x. conclude orm true later false t.0 x t.2) (attempt-account orm clouds now a w h)

-- Enabling an object that is not enabled and not synthetic, and that is to be disabled upon failure: the
-- object's row afterwards is the object, enabled exactly when true is returned. In either case it keeps
-- the time of the attempt as the time at which it was enabled.
pub enable-find :
    (orm : Orm) (clouds : Clouds) (now later : ℕ) (a : CloudAccount) (w : World)
    → a.is_enabled ≡ false
    → a.is_synthetic ≡ false
    → let (ok, a', w') = enable orm clouds true now later a w in
      (a' ≡ record a { is_enabled = ok; enabled_at = some now })
      × (find (has_account_id a.id) w'.db.cloud_accounts ≡ some a')
enable-find orm clouds now later a w h real =
    let committed : World = (attempt orm clouds now a w).2 in
    rw (enable-attempt orm clouds now later a w h) (
      conclude-find orm later (enabled orm clouds now a w h) committed refl
        (attempt orm clouds now a w).0 real (attempt-find orm clouds now a w h))

-- Enabling a synthetic AWS account that is not enabled, and that is to be disabled upon
-- failure: true is returned, and the account's row is not enabled.
pub enable-disables_synthetic :
    (orm : Orm) (clouds : Clouds) (now later : ℕ) (a : CloudAccount) (w : World)
    → a.is_enabled ≡ false
    → a.is_synthetic ≡ true
    → a.content_object ≡ some aws
    → let (ok, a', w') = enable orm clouds true now later a w in
      (ok ≡ true)
      × (find (has_account_id a.id) w'.db.cloud_accounts
          ≡ some (record a { is_enabled = false; enabled_at = some now }))
enable-disables_synthetic orm clouds now later a w h synthetic cloud =
    rw (enable-attempt orm clouds now later a w h) (
      conclude-synthetic orm later (enabled orm clouds now a w h) (attempt orm clouds now a w).2
        (attempt orm clouds now a w).0 (attempt-synthetic orm clouds now a w h synthetic cloud) refl
        synthetic)
