-- ===== src/Usage/Calculate.antt =====
-- `get_runs_for_user_id_on_date`, `calculate_max_concurrent_usage` and `get_max_concurrent_usage`
-- (cloudigrade/api/util.py).
use cloudigrade.Prelude.{
  ℕ, ◌+◌, ◌*◌, Bool, true, false, ◌&&◌, not, Option, none, some, List, [], ◌∷◌, ◌++◌, map, leb, ltb,
  ◌==◌, if◌then◌else◌, Text, find, select, any,
}
use cloudigrade.Orm.{Orm}
use cloudigrade.Models.{
  Syspurpose, MachineImage, User, CloudAccount, Instance, Run, MaximumCount, ConcurrentUsage, Db,
  microseconds_per_day,
}
use cloudigrade.Models.Images.{rhel, syspurpose}
use cloudigrade.Usage.Tally.{Results, record_results}

-- `run.instance.cloud_account.user.id`, along the foreign keys.
unfoldable pub user_of_run : Db → Run → Option ℕ
user_of_run db r = elim (find (λ (i : Instance). i.id == r.instance_id) db.instances) [
  | none ↦ none
  | some i ↦ elim (find (λ (a : CloudAccount). a.id == i.cloud_account_id) db.cloud_accounts) [
    | none ↦ none
    | some a ↦ some a.user_id
  ]
]

-- The run overlaps the date: it started before the date's end, and has no end or ended at the date's
-- start or later.
unfoldable pub overlaps_date : ℕ → Run → Bool
overlaps_date date r =
    let start_time = date * microseconds_per_day in
    let end_time = start_time + microseconds_per_day in
    ltb r.start_time end_time && (elim r.end_time [ none ↦ true | some end ↦ leb start_time end ])

abbrev pub is_user : Option ℕ → ℕ → Bool
is_user none u = false
is_user (some v) u = v == u

unfoldable pub get_runs_for_user_id_on_date : Db → ℕ → ℕ → List Run
unfolding user_of_run overlaps_date
get_runs_for_user_id_on_date db user_id date =
    select (λ r. is_user (user_of_run db r) user_id && overlaps_date date r) db.runs

-- A row of `rhel_on_offs`; its other six parts are never read.
pub record OnOff : Type 0 where
  pub time : ℕ
  pub is_start : Bool
  pub syspurpose : Option Syspurpose
  pub architecture : Option Text

-- `run.machineimage`
unfoldable pub image_of_run : Db → Run → Option MachineImage
image_of_run db r = elim r.machineimage_id [
  | none ↦ none
  | some id ↦ find (λ (m : MachineImage). m.id == id) db.machine_images
]

abbrev pub on_offs_of : Run → MachineImage → List OnOff
on_offs_of r image =
    record {
      time = r.start_time;
      is_start = true;
      syspurpose = syspurpose image;
      architecture = image.architecture;
    }
    ∷ (elim r.end_time [
      | none ↦ []
      | some end ↦
          record {
            time = end;
            is_start = false;
            syspurpose = syspurpose image;
            architecture = image.architecture;
          }
          ∷ []
    ])

-- The body of the loop over the runs; `continue` for a run with no image or no RHEL.
unfoldable pub run_on_offs : Db → Run → List OnOff
unfolding image_of_run rhel
run_on_offs db r = elim (image_of_run db r) [
  | none ↦ []
  | some image ↦ if rhel image then on_offs_of r image else []
]

unfoldable pub rhel_on_offs : Db → List Run → List OnOff
unfolding run_on_offs
rhel_on_offs db [] = []
rhel_on_offs db (r ∷ rs) = run_on_offs db r ++ rhel_on_offs db rs

-- `sorted(rhel_on_offs, key=lambda r: r[0])`, which is stable.
unfoldable pub insert_on_off : OnOff → List OnOff → List OnOff
insert_on_off x [] = x ∷ []
insert_on_off x (y ∷ ys) = if leb x.time y.time then x ∷ y ∷ ys else y ∷ insert_on_off x ys

unfoldable pub sorted_on_offs : List OnOff → List OnOff
unfolding insert_on_off
sorted_on_offs [] = []
sorted_on_offs (x ∷ xs) = insert_on_off x (sorted_on_offs xs)

unfoldable pub maximum_counts_from : Results → List OnOff → Results
unfolding record_results
maximum_counts_from results [] = results
maximum_counts_from results (x ∷ xs) =
    maximum_counts_from (record_results results x.is_start x.syspurpose x.architecture) xs

abbrev pub simplified : Results → List MaximumCount
simplified [] = []
simplified ((k, e) ∷ results) =
    record { key = k; instances_count = e.max_count } ∷ simplified results

abbrev pub is_usage_of : ℕ → ℕ → ConcurrentUsage → Bool
is_usage_of user_id date u = u.date == date && u.user_id == user_id

-- What is calculated from the user's runs on the date.
unfoldable pub calculated_counts : Db → List Run → List MaximumCount
unfolding rhel_on_offs sorted_on_offs maximum_counts_from
calculated_counts db runs =
    simplified (maximum_counts_from [] (sorted_on_offs (rhel_on_offs db runs)))

module _ (orm : Orm) where
  -- The usage that comes back, and the database: for an unknown user, a stub that is not saved.
  unfoldable pub calculate_max_concurrent_usage : ℕ → ℕ → ℕ → Db → ConcurrentUsage × Db
  unfolding get_runs_for_user_id_on_date calculated_counts
  calculate_max_concurrent_usage now date user_id db =
      let runs = get_runs_for_user_id_on_date db user_id date in
      let kept = select (λ u. not (is_usage_of user_id date u)) db.usages in
      let usage : ConcurrentUsage = record {
        id = orm.next_id (map (λ (u : ConcurrentUsage). u.id) kept);
        date = date;
        user_id = user_id;
        maximum_counts = calculated_counts db runs;
        potentially_related_runs = map (λ (r : Run). r.id) runs;
        updated_at = now;
      } in
      if any (λ (u : User). u.id == user_id) db.users
      then (usage, record db { usages = kept ++ usage ∷ [] })
      else (
        record {
          id = 0;
          date = date;
          user_id = user_id;
          maximum_counts = [];
          potentially_related_runs = [];
          updated_at = now;
        },
        db,
      )

-- `none` is None: for a future date, and where nothing was calculated.
unfoldable pub get_max_concurrent_usage : Db → ℕ → ℕ → ℕ → Option ConcurrentUsage
get_max_concurrent_usage db today date user_id =
    if ltb today date then none else find (is_usage_of user_id date) db.usages
