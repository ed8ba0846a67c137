-- ===== src/Usage/Tests.antt =====
-- Usage on concrete databases, and the theorems about usage at inputs that meet their hypotheses.
use cloudigrade.Prelude.{
  ℕ, ◌≤◌, ◌≡◌, refl, true, false, ◌&&◌, Option, none, some, List, [], ◌∷◌, arith, count, any, find,
  ◌*◌, ◌==◌, leb,
}
use cloudigrade.Prelude.Int.{◌+ℤ◌}
use cloudigrade.Orm.Insertion.{insertion_orm}
use cloudigrade.Models.{
  aws, User, ConcurrentUsage, microseconds_per_day, MachineImage, pending, Run, ConcurrentKey, Db,
  empty_db,
}
use cloudigrade.Models.Images.{syspurpose}
use cloudigrade.Runs.Coverage.{period_covers}
use cloudigrade.Usage.Tally.{any_text}
use cloudigrade.Usage.Calculate.{
  calculated_counts, calculate_max_concurrent_usage, get_max_concurrent_usage, is_usage_of,
}
use cloudigrade.Usage.Dates.{
  DateUser, is_pair, touches, get_users_dates_from_runs, add_dates, get_users_dates_from_runs-exact,
}
use cloudigrade.Usage.Refresh.{
  first_day, AllSettled, recalculate_concurrent_usage_for_user_id,
  recalculate_concurrent_usage_for_user_id_on_date, recalculate_concurrent_usage_for_user_id-exact,
  recalculate_concurrent_usage_for_user_id_on_date-settles,
}
use cloudigrade.Usage.Calculate.{get_runs_for_user_id_on_date, user_of_run}
use cloudigrade.Usage.Concurrency.{
  is_counted, instances_count, calculated_counts-bound, calculate_then_get,
}

abbrev rhel_image : MachineImage
rhel_image = record {
  id = 3;
  inspection_json = none;
  is_encrypted = false;
  status = pending;
  rhel_detected_by_tag = true;
  openshift_detected = false;
  architecture = none;
  content_object = none;
}

abbrev run : ℕ → ℕ → Option ℕ → Run
run id start end = record {
  id = id;
  start_time = start;
  end_time = end;
  machineimage_id = some 3;
  instance_id = 7;
  instance_type = none;
  memory = none;
  vcpu = none;
  created_at = start;
  updated_at = start;
}

abbrev usage_db : List Run → Db
usage_db runs = record empty_db {
  users = record { id = 5; is_superuser = false; is_permanent = false; date_joined = 0 } ∷ [];
  machine_images = rhel_image ∷ [];
  runs = runs;
}

abbrev any_key : ConcurrentKey
any_key = record {
  role = any_text;
  sla = any_text;
  arch = any_text;
  usage = any_text;
  service_type = any_text;
}

abbrev two_runs : List Run
two_runs = run 1 10 (some 40) ∷ run 2 20 none ∷ []

two_at_once : instances_count any_key (calculated_counts (usage_db two_runs) two_runs) ≡ 2
unfolding instances_count calculated_counts ◌+ℤ◌ syspurpose
two_at_once = refl

-- Two runs of which one ends when the other starts: the count depends on which row comes first.
abbrev in_turn : List Run
in_turn = run 1 10 (some 20) ∷ run 2 20 none ∷ []

abbrev in_turn_reversed : List Run
in_turn_reversed = run 2 20 none ∷ run 1 10 (some 20) ∷ []

in_turn_counts :
    (instances_count any_key (calculated_counts (usage_db in_turn) in_turn) ≡ 1)
    × (instances_count any_key (calculated_counts (usage_db in_turn_reversed) in_turn_reversed) ≡ 2)
unfolding instances_count calculated_counts ◌+ℤ◌ syspurpose
in_turn_counts = (refl, refl)

calculated_counts-bound_example :
    count
      (λ r. is_counted (usage_db two_runs) any_key r && period_covers 30 r.start_time r.end_time)
      two_runs
    ≤ instances_count any_key (calculated_counts (usage_db two_runs) two_runs)
calculated_counts-bound_example =
    calculated_counts-bound (usage_db two_runs) two_runs any_key 30 (omega arith)

calculate_then_get_example :
    let (usage, db') = calculate_max_concurrent_usage insertion_orm 9 0 5 (usage_db two_runs) in
    (get_max_concurrent_usage db' 3 0 5 ≡ some usage) × (count (is_usage_of 5 0) db'.usages ≡ 1)
calculate_then_get_example =
    calculate_then_get insertion_orm 9 0 5 (usage_db two_runs) refl 3 (omega arith)

abbrev user : User
user = record { id = 5; is_superuser = false; is_permanent = false; date_joined = 0 }

-- Instance 7 belongs to an account of user 5.
abbrev owned_db : List Run → Db
owned_db runs = record (usage_db runs) {
  cloud_accounts =
      record {
        id = 1;
        user_id = 5;
        is_enabled = true;
        enabled_at = some 0;
        platform_authentication_id = 6;
        platform_application_id = 1;
        platform_application_is_paused = false;
        is_synthetic = false;
        created_at = 0;
        content_object = some aws;
      }
      ∷ [];
  instances = record { id = 7; cloud_account_id = 1; machine_image_id = some 3 } ∷ [];
}

abbrev long_run : Run
long_run = run 1 10 (some (2 * microseconds_per_day))

abbrev three_days : List DateUser
three_days = (0, 5) ∷ (1, 5) ∷ (2, 5) ∷ []

long_run-dates :
    get_users_dates_from_runs 9 (owned_db (long_run ∷ [])) (long_run ∷ []) ≡ some three_days
unfolding get_users_dates_from_runs user_of_run add_dates
long_run-dates = refl

get_users_dates_from_runs-exact_example :
    any (is_pair 1 5) three_days ≡ any (touches 9 (owned_db (long_run ∷ [])) 1 5) (long_run ∷ [])
get_users_dates_from_runs-exact_example =
    get_users_dates_from_runs-exact 9 (owned_db (long_run ∷ [])) (long_run ∷ []) three_days 1 5
      long_run-dates

recalculate_concurrent_usage_for_user_id-exact_example :
    (days : List ℕ) × (recalculate_concurrent_usage_for_user_id 3 2 5 none (owned_db [])
      ≡ some days)
    × ((d : ℕ) → any (λ x. x == d) days ≡ leb (first_day 3 2 none user) d && leb d 3)
recalculate_concurrent_usage_for_user_id-exact_example =
    recalculate_concurrent_usage_for_user_id-exact 3 2 5 none (owned_db []) user refl

recalculate_concurrent_usage_for_user_id_on_date-settles_example :
    (u : ConcurrentUsage) × (find
        (is_usage_of 5 0)
        (recalculate_concurrent_usage_for_user_id_on_date insertion_orm 9 5 0
          (owned_db two_runs)).usages
      ≡ some u)
    × AllSettled (get_runs_for_user_id_on_date (owned_db two_runs) 5 0) u
recalculate_concurrent_usage_for_user_id_on_date-settles_example =
    recalculate_concurrent_usage_for_user_id_on_date-settles insertion_orm 9 5 0 (owned_db two_runs)
      refl
