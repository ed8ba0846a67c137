-- ===== src/Runs/Tests.antt =====
-- Runs on concrete databases, and the theorems about runs at inputs that meet their hypotheses.
use cloudigrade.Prelude.{
  ℕ, ◌≤◌, ◌≡◌, ◌≢◌, refl, true, false, Option, none, some, List, [], ◌∷◌, arith, text_le, leb, here,
  there,
}
use cloudigrade.Orm.Insertion.{insertion_orm, sort_up, sort_down, after_all}
use cloudigrade.Models.{aws, EventType, power_on, power_off, InstanceEvent, Run, Db, empty_db}
use cloudigrade.Runs.Scan.{DenormalizedRun, runs_from}
use cloudigrade.Runs.Sorting.{DateTimes}
use cloudigrade.Runs.Denormalize.{denormalize_runs, make_run, machine_image, type_definition}
use cloudigrade.Runs.Coverage.{covers, powered_on}
use cloudigrade.Runs.Chronology.{IsChronological}
use cloudigrade.Runs.Single.{denormalize_runs-covers, denormalize_runs-IsChronological}
use cloudigrade.Runs.Relevant.{power_events, IsRecorded}
use cloudigrade.Runs.Effects.{covers_instance}
use cloudigrade.Runs.Recalculate.{is_affected, earliest_time, recalculate_runs}
use cloudigrade.Runs.Problematic.{oldest_power_off, fix_problematic_run}
use cloudigrade.Runs.Fixing.{fix_problematic_run-covers}
use cloudigrade.Runs.Recent.{recalculate_runs_for_instance_id, oldest_relevant_event, latest_run}
use cloudigrade.Runs.Fresh.{recalculate_runs_for_instance_id-covers}
use cloudigrade.Runs.Repair.{recalculate_runs-covers, recalculate_runs-backdated}

str_order : (s t : ℕ) → text_le (s ∷ []) (t ∷ []) ≡ leb s t
str_order s t = ground arith

-- A rendering of times with one sign each.
abbrev one_sign : DateTimes
one_sign = record { str_datetime = λ t. t ∷ []; str_datetime_order = str_order }

abbrev event : ℕ → EventType → ℕ → InstanceEvent
event id kind at = record {
  id = id;
  instance_id = 7;
  event_type = kind;
  occurred_at = at;
  created_at = at;
  updated_at = at;
  cloud_type = aws;
  instance_type = none;
}

abbrev run : ℕ → ℕ → Option ℕ → Run
run id start end = record {
  id = id;
  start_time = start;
  end_time = end;
  machineimage_id = none;
  instance_id = 7;
  instance_type = none;
  memory = none;
  vcpu = none;
  created_at = start;
  updated_at = start;
}

abbrev with_rows : List InstanceEvent → List Run → Db
with_rows events runs = record empty_db {
  instances = record { id = 7; cloud_account_id = 1; machine_image_id = none } ∷ [];
  events = events;
  runs = runs;
}

-- Events on, off, on, with the run of the first two saved.
abbrev first_on : InstanceEvent
first_on = event 1 power_on 10

abbrev first_off : InstanceEvent
first_off = event 2 power_off 20

abbrev second_on : InstanceEvent
second_on = event 3 power_on 30

abbrev early_on : InstanceEvent
early_on = event 4 power_on 5

abbrev history : List InstanceEvent
history = first_on ∷ first_off ∷ second_on ∷ []

-- The off event has come late: the saved run has no end.
abbrev open_db : Db
open_db = with_rows (first_on ∷ first_off ∷ []) (run 1 10 none ∷ [])

abbrev backdated_db : Db
backdated_db = with_rows (first_on ∷ early_on ∷ []) (run 1 10 none ∷ [])

denormalize_history :
    denormalize_runs insertion_orm one_sign (with_rows history []) history
    ≡ some (make_run 7 none none none 10 (some 20) ∷ make_run 7 none none none 30 none ∷ [])
unfolding denormalize_runs make_run sort_down runs_from machine_image type_definition
denormalize_history = refl

open_run_is_closed :
    (recalculate_runs insertion_orm one_sign 99 first_off open_db).1.runs
    ≡ record (run 1 10 (some 20)) { created_at = 99; updated_at = 99 } ∷ []
unfolding recalculate_runs sort_up sort_down after_all make_run runs_from machine_image
    type_definition
open_run_is_closed = refl

-- The events as they were recorded: the last one came first.
abbrev recorded : List InstanceEvent
recorded = second_on ∷ first_on ∷ first_off ∷ []

denormalize_runs-covers_example :
    (runs : List DenormalizedRun) × (denormalize_runs insertion_orm one_sign
        (with_rows recorded [])
        recorded
      ≡ some runs)
    × ((t : ℕ) → covers runs t ≡ powered_on recorded t)
denormalize_runs-covers_example =
    denormalize_runs-covers insertion_orm one_sign (with_rows recorded []) 7 recorded refl
      (omega arith) refl

denormalize_runs-IsChronological_example :
    (runs : List DenormalizedRun) × (denormalize_runs insertion_orm one_sign
        (with_rows recorded [])
        recorded
      ≡ some runs)
    × IsChronological 0 runs
denormalize_runs-IsChronological_example =
    denormalize_runs-IsChronological insertion_orm one_sign (with_rows recorded []) 7 recorded refl
      (omega arith)

open_db-IsRecorded : IsRecorded open_db first_off
unfolding is_affected
open_db-IsRecorded r here a = refl
open_db-IsRecorded r (there m) a = elim m [ ]

open_db-before :
    (t : ℕ)
    → leb 20 t ≡ false
    → covers_instance 7 open_db.runs t ≡ powered_on (power_events open_db 7) t
open_db-before t h = ground arith

open_db-reaches : earliest_time insertion_orm open_db first_off ≤ 20
unfolding earliest_time sort_up
open_db-reaches = omega arith

recalculate_runs-covers_example :
    ((recalculate_runs insertion_orm one_sign 99 first_off open_db).0 ≢ none)
    × ((t : ℕ)
        → covers_instance 7 (recalculate_runs insertion_orm one_sign 99 first_off open_db).1.runs t
          ≡ powered_on (power_events open_db 7) t)
recalculate_runs-covers_example =
    recalculate_runs-covers insertion_orm one_sign 99 first_off open_db refl (there here) refl refl
      open_db-IsRecorded open_db-reaches (λ t lt. open_db-before t (ground arith))

backdated_late : 6 ≤ earliest_time insertion_orm backdated_db early_on
unfolding earliest_time sort_up
backdated_late = omega arith

recalculate_runs-backdated_example :
    (covers_instance 7 (recalculate_runs insertion_orm one_sign 99 early_on backdated_db).1.runs 5
      ≡ false)
    × (powered_on (power_events backdated_db 7) 5 ≡ true)
recalculate_runs-backdated_example =
    recalculate_runs-backdated insertion_orm one_sign 99 early_on backdated_db refl (there here)
      refl refl backdated_late refl

open_db-oldest : oldest_power_off insertion_orm open_db (run 1 10 none) ≡ some first_off
unfolding oldest_power_off sort_up
open_db-oldest = refl

fix_problematic_run-covers_example :
    (db' : Db) × (fix_problematic_run insertion_orm one_sign 99 1 open_db ≡ some db')
    × ((t : ℕ) → covers_instance 7 db'.runs t ≡ powered_on (power_events open_db 7) t)
fix_problematic_run-covers_example =
    fix_problematic_run-covers insertion_orm one_sign 99 1 open_db (run 1 10 none) first_off refl
      refl open_db-oldest refl refl open_db-IsRecorded (λ t lt. open_db-before t (ground arith))

-- The instance has no run yet.
abbrev fresh_db : Db
fresh_db = with_rows history []

fresh_db-oldest : oldest_relevant_event insertion_orm 7 fresh_db ≡ some first_on
unfolding oldest_relevant_event latest_run sort_up sort_down
fresh_db-oldest = refl

recalculate_runs_for_instance_id-covers_example :
    ((recalculate_runs_for_instance_id insertion_orm one_sign 99 7 fresh_db).0 ≢ none)
    × ((t : ℕ)
        → covers_instance 7
            (recalculate_runs_for_instance_id insertion_orm one_sign 99 7 fresh_db).1.runs
            t
          ≡ powered_on (power_events fresh_db 7) t)
recalculate_runs_for_instance_id-covers_example =
    recalculate_runs_for_instance_id-covers insertion_orm one_sign 99 7 fresh_db first_on refl refl
      fresh_db-oldest refl refl
