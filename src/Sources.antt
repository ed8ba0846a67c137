-- ===== src/Sources.antt =====
-- The messages of the sources service that pause and unpause an application and delete its accounts
-- (cloudigrade/api/tasks/sources.py). The value `none` is an exception, which rolls the transaction back.
pub mod Pausing
mod Tests
use cloudigrade.Prelude.{
  ℕ, Bool, true, false, ◌&&◌, ◌||◌, Option, none, some, List, [], ◌∷◌, select, map, not, Text,
  is_none, ◌==◌, if◌then◌else◌,
}
use cloudigrade.Orm.{Orm}
use cloudigrade.Models.{CloudAccount, Db}
use cloudigrade.Accounts.World.{World, save_account}
use cloudigrade.Accounts.Clouds.{Clouds}
use cloudigrade.Accounts.Account.{disable, enable}
use cloudigrade.Accounts.Removal.{delete_cloud_accounts}
use cloudigrade.Cloudtrail.Extract.{is_truthy}

-- What `extract_ids_from_kafka_message` gives: `application_id` is the `id` of the message, whatever it
-- names.
pub record MessageIds : Type 0 where
  pub account_number : Option Text
  pub org_id : Option Text
  pub application_id : Option ℕ

abbrev pub is_application : ℕ → CloudAccount → Bool
is_application application_id a = a.platform_application_id == application_id

-- The application that the message is about, unless its details are incorrect.
abbrev pub application_of : MessageIds → Option ℕ
application_of ids =
    if is_none ids.account_number && is_none ids.org_id then none else ids.application_id

-- `CloudAccount.objects.get(platform_application_id=...)` and what is done with the account: more than one
-- is an exception, and where there is none nothing is done.
unfoldable pub with_account : ℕ → World → (CloudAccount → World) → Option World
with_account application_id w act =
    elim (select (is_application application_id) w.db.cloud_accounts) [
      | [] ↦ some w
      | a ∷ rest ↦ elim rest [ [] ↦ some (act a) | _ ∷ _ ↦ none ]
    ]

abbrev pub save_paused : Bool → CloudAccount → World → World
save_paused is_paused a w = record w {
  db = save_account (record a { platform_application_is_paused = is_paused }) w.db;
}

module _ (orm : Orm) where
  unfoldable pub pause_from_sources_kafka_message : MessageIds → ℕ → World → Option World
  unfolding with_account disable
  pause_from_sources_kafka_message ids now w = elim (application_of ids) [
    | none ↦ some w
    | some application_id ↦ with_account application_id w (λ a.
        (disable orm true false now (record a { platform_application_is_paused = true })
          (save_paused true a w)).1)
  ]

  -- The times are those of the enabling and of the disabling that may follow.
  unfoldable pub unpause_from_sources_kafka_message :
      Clouds → MessageIds → ℕ → ℕ → World → Option World
  unfolding with_account enable
  unpause_from_sources_kafka_message clouds ids now later w = elim (application_of ids) [
    | none ↦ some w
    | some application_id ↦ with_account application_id w (λ a.
        (enable orm clouds true now later (record a { platform_application_is_paused = false })
          (save_paused false a w)).2)
  ]

  -- The ids of the authentication and the application are those in the body of the message; its
  -- `platform_id` is `application_id` of the extracted ids.
  unfoldable pub delete_from_sources_kafka_message :
      MessageIds → (authentication_id application_id now : ℕ) → World → World
  unfolding delete_cloud_accounts
  delete_from_sources_kafka_message ids authentication_id application_id now w =
      if not (is_truthy ids.account_number) && not (is_truthy ids.org_id)
        || is_none ids.application_id
      then w
      else delete_cloud_accounts orm now
          (map (λ (a : CloudAccount). a.id)
            (select
              (λ (a : CloudAccount).
                a.platform_application_id == application_id
                && a.platform_authentication_id == authentication_id)
              w.db.cloud_accounts))
          w
