-- ===== src/Sources/Tests.antt =====
-- The theorem about a pause at a concrete input.
use cloudigrade.Prelude.{◌≡◌, refl, true, false, none, some, [], ◌∷◌, codes, find}
use cloudigrade.Orm.Insertion.{insertion_orm}
use cloudigrade.Models.{aws, CloudAccount, empty_db}
use cloudigrade.Accounts.World.{World, has_account_id}
use cloudigrade.Sources.{MessageIds, pause_from_sources_kafka_message}
use cloudigrade.Sources.Pausing.{pause_from_sources_kafka_message-find}

abbrev account : CloudAccount
account = record {
  id = 1;
  user_id = 5;
  is_enabled = true;
  enabled_at = some 10;
  platform_authentication_id = 6;
  platform_application_id = 4;
  platform_application_is_paused = false;
  is_synthetic = false;
  created_at = 0;
  content_object = some aws;
}

abbrev world : World
world = record {
  db = record empty_db { cloud_accounts = account ∷ [] };
  on_commit = [];
  notices = [];
}

abbrev ids : MessageIds
ids = record { account_number = some (codes "1"); org_id = none; application_id = some 4 }

pause_from_sources_kafka_message-find_example :
    (w' : World) × (pause_from_sources_kafka_message insertion_orm ids 20 world ≡ some w')
    × (find (has_account_id 1) w'.db.cloud_accounts
        ≡ some (record account { platform_application_is_paused = true; is_enabled = false }))
    × (w'.notices ≡ [])
pause_from_sources_kafka_message-find_example =
    pause_from_sources_kafka_message-find insertion_orm ids 4 20 account world refl refl
