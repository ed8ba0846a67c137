-- ===== src/Accounts/Users.antt =====
-- `User.delete` (cloudigrade/api/models.py), `_delete_user` and `delete_inactive_users`
-- (cloudigrade/api/tasks/maintenance.py).
use cloudigrade.Prelude.{
  ℕ, ◌≡◌, refl, ap, ◌∙◌, Bool, false, ◌&&◌, not, List, [], ◌∷◌, arith, any, select, ltb, ◌==◌,
  if◌then◌else◌, any-select, ◌-◌,
}
use cloudigrade.Models.{User, CloudAccount, ConcurrentUsage, Db}

abbrev pub has_user_id : ℕ → User → Bool
has_user_id i u = u.id == i

-- `CloudAccount.objects.filter(user_id=...).exists()`
abbrev pub has_account : Db → ℕ → Bool
has_account db user_id = any (λ (a : CloudAccount). a.user_id == user_id) db.cloud_accounts

-- `User.delete()` without force: whether it deletes anything. The user's usages go with the user; its
-- callers see to it that no account is left.
unfoldable pub delete_user_row : User → Db → Bool × Db
delete_user_row user db = if user.is_permanent then (false, db) else (
  any (has_user_id user.id) db.users,
  record db {
    users = select (λ u. not (has_user_id user.id u)) db.users;
    usages = select (λ (c : ConcurrentUsage). not (c.user_id == user.id)) db.usages;
  },
)

unfoldable pub delete_user : User → Db → Bool × Db
unfolding delete_user_row
delete_user user db = if has_account db user.id then (false, db) else delete_user_row user db

-- The loop over the users that the query gave.
unfoldable pub delete_users : List User → Db → Db
unfolding delete_user
delete_users [] db = db
delete_users (user ∷ users) db = delete_users users (delete_user user db).1

-- Not a superuser, and joined before the oldest date that is allowed.
abbrev pub is_old : ℕ → User → Bool
is_old oldest_allowed_date_joined u =
    not u.is_superuser && ltb u.date_joined oldest_allowed_date_joined

unfoldable pub delete_inactive_users : ℕ → ℕ → Db → Db
unfolding delete_users
delete_inactive_users now min_age db = delete_users (select (is_old (now - min_age)) db.users) db

delete_user-account :
    (user : User) (db : Db) → (delete_user user db).1.cloud_accounts ≡ db.cloud_accounts
unfolding delete_user
delete_user-account user db = ground arith

any-select-not :
    (i k : ℕ) (users : List User)
    → any (has_user_id i) (select (λ u. not (has_user_id k u)) users)
      ≡ any (has_user_id i) users && not (k == i)
any-select-not i k [] = refl
any-select-not i k (u ∷ us) = ground (arith, any-select-not i k us)

-- A user that the loop can delete.
abbrev is_deletable : Db → User → Bool
is_deletable db u = not u.is_permanent && not (has_account db u.id)

delete_user-any :
    (i : ℕ) (user : User) (db : Db)
    → any (has_user_id i) (delete_user user db).1.users
      ≡ any (has_user_id i) db.users && not (has_user_id i user && is_deletable db user)
unfolding delete_user delete_user_row
delete_user-any i user db = ground (arith, any-select-not i user.id db.users)

delete_users-any :
    (i : ℕ) (users : List User) (db : Db)
    → any (has_user_id i) (delete_users users db).users
      ≡ any (has_user_id i) db.users && not (any (λ u. has_user_id i u && is_deletable db u) users)
unfolding delete_users
delete_users-any i [] db = ground arith
delete_users-any i (u ∷ us) db =
    let rest = delete_users-any i us (delete_user u db).1 in
    let same = delete_user-account u db in
    let one = delete_user-any i u db in rest ∙ rw (same, one) (ground arith)

-- An id has a user after the task exactly when it had one before, and no user of the id is at once not a
-- superuser, joined earlier than the minimum age before now, not permanent, and without cloud account.
pub delete_inactive_users-any :
    (now min_age i : ℕ) (db : Db)
    → any (has_user_id i) (delete_inactive_users now min_age db).users
      ≡ any (has_user_id i) db.users
        && not (
            any
              (λ u.
                is_old (now - min_age) u
                && (has_user_id i u && (not u.is_permanent && not (has_account db u.id))))
              db.users)
unfolding delete_inactive_users
delete_inactive_users-any now min_age i db =
    delete_users-any i (select (is_old (now - min_age)) db.users) db
    ∙ ap (λ b. any (has_user_id i) db.users && not b)
        (any-select (λ u. has_user_id i u && is_deletable db u) (is_old (now - min_age)) db.users)
