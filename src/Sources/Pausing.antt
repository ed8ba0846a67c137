-- ===== src/Sources/Pausing.antt =====
-- What a pause of an application leaves of its account (cloudigrade/api/tasks/sources.py).
use cloudigrade.Prelude.{
  ℕ, ◌≡◌, refl, ap, ◌∙◌, true, false, some, [], ◌∷◌, arith, select, find, inl, inr, Bool-cases,
}
use cloudigrade.Orm.{Orm}
use cloudigrade.Models.{CloudAccount}
use cloudigrade.Accounts.World.{World, has_account_id}
use cloudigrade.Accounts.Clouds.{disable_aws, disable_content}
use cloudigrade.Accounts.Account.{power_off_instances, disable}
use cloudigrade.Accounts.Enabling.{find-save_account, disable_content-db, disable-find}
use cloudigrade.Sources.{
  MessageIds, is_application, application_of, with_account, save_paused,
  pause_from_sources_kafka_message,
}

disable_content-notices : (a : CloudAccount) (w : World) → (disable_content a w).notices ≡ w.notices
unfolding disable_content disable_aws
disable_content-notices a w = ground arith

module _ (orm : Orm) (now : ℕ) (a : CloudAccount) (w : World) where
  disable-notices : (disable orm true false now a w).1.notices ≡ w.notices
  unfolding disable
  disable-notices = ground (arith, disable_content-notices (record a { is_enabled = false }))

  -- An object that is not enabled is not saved by the disabling.
  disable-keeps :
      a.is_enabled ≡ false
      → (disable orm true false now a w).1.db.cloud_accounts ≡ w.db.cloud_accounts
  unfolding disable power_off_instances
  disable-keeps h = ground (
    arith,
    h,
    disable_content-db (record a { is_enabled = false })
        (record w { db = power_off_instances orm now a.id w.db }),
  )

-- Where one account has the application of a message with correct details, a pause leaves its row paused
-- and not enabled, and no message to sources is sent.
pub pause_from_sources_kafka_message-find :
    (orm : Orm) (ids : MessageIds) (application_id now : ℕ) (a : CloudAccount) (w : World)
    → application_of ids ≡ some application_id
    → select (is_application application_id) w.db.cloud_accounts ≡ a ∷ []
    → (w' : World) × (pause_from_sources_kafka_message orm ids now w ≡ some w')
      × (find (has_account_id a.id) w'.db.cloud_accounts
          ≡ some (record a { platform_application_is_paused = true; is_enabled = false }))
      × (w'.notices ≡ w.notices)
unfolding pause_from_sources_kafka_message with_account
pause_from_sources_kafka_message-find orm ids application_id now a w h only =
    let paused : CloudAccount = record a { platform_application_is_paused = true } in
    let saved = save_paused true a w in
    (
      (disable orm true false now paused saved).1,
      rw (h, pause_from_sources_kafka_message, only, with_account) refl,
      elim (Bool-cases a.is_enabled) [
        | inl e ↦ disable-find orm true false now paused saved e
        | inr e ↦ rw (disable-keeps orm now paused saved e) (
            find-save_account paused w.db
            ∙ ap (λ b. some (record a { platform_application_is_paused = true; is_enabled = b })) e)
      ],
      disable-notices orm now paused saved,
    )
