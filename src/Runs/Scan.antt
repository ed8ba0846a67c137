-- ===== src/Runs/Scan.antt =====
-- The loop of `denormalize_runs` (cloudigrade/api/util.py) over the events of one instance.
use cloudigrade.Prelude.{ℕ, Bool, Option, none, some, List, [], ◌∷◌, Text}
use cloudigrade.Models.{EventType, power_on, power_off, attribute_change, InstanceEvent}

pub record DenormalizedRun : Type 0 where
  pub start_time : ℕ
  pub end_time : Option ℕ
  pub image_id : Option ℕ
  pub instance_id : ℕ
  pub instance_memory : Option ℕ
  pub instance_type : Option Text
  pub instance_vcpu : Option ℕ
  pub is_cloud_access : Bool
  pub is_encrypted : Bool
  pub is_marketplace : Bool
  pub openshift : Bool
  pub openshift_detected : Bool
  pub rhel : Bool
  pub rhel_detected : Bool

-- The local variables `start_run` and `end_run`.
pub record Cursor : Type 0 where
  pub start_run : Option ℕ
  pub end_run : Option ℕ

abbrev pub idle : Cursor
idle = record { start_run = none; end_run = none }

-- The branches on the event's type.
unfoldable pub advance : EventType → ℕ → Cursor → Cursor
advance power_on at c = elim c.start_run [
  | none ↦ record { start_run = some at; end_run = none }
  | some _ ↦ c
]
advance power_off at c = record c { end_run = some at }
advance attribute_change at c = c

-- `if start_run and end_run`: the completed run, and both variables cleared.
unfoldable pub complete : (ℕ → Option ℕ → DenormalizedRun) → Cursor → List DenormalizedRun × Cursor
complete make c = elim c.start_run [
  | none ↦ ([], c)
  | some s ↦ elim c.end_run [ none ↦ ([], c) | some t ↦ (make s (some t) ∷ [], idle) ]
]

-- `if start_run and not end_run`, after the loop.
unfoldable pub unfinished : (ℕ → Option ℕ → DenormalizedRun) → Cursor → List DenormalizedRun
unfinished make c = elim c.start_run [
  | none ↦ []
  | some s ↦ elim c.end_run [ none ↦ make s none ∷ [] | some _ ↦ [] ]
]

abbrev pub prepend : List DenormalizedRun → List DenormalizedRun → List DenormalizedRun
prepend [] rest = rest
prepend (r ∷ rs) rest = r ∷ prepend rs rest

-- `make` fills in what is the same for every run of the instance.
unfoldable pub runs_from :
    (ℕ → Option ℕ → DenormalizedRun) → Cursor → List InstanceEvent → List DenormalizedRun
unfolding advance complete unfinished
runs_from make c [] = unfinished make c
runs_from make c (e ∷ es) =
    let (done, c') = complete make (advance e.event_type e.occurred_at c) in
    prepend done (runs_from make c' es)
