-- ===== src/Aws/Attempts.antt =====
-- How often the inspection of an image is started, over any sequence of operations on images
-- (cloudigrade/api/clouds/aws/util.py, cloudigrade/api/clouds/aws/tasks/inspection.py).
use cloudigrade.Prelude.{
  ℕ, ◌+◌, ◌≤◌, ◌≡◌, refl, Bool, Option, none, some, List, [], ◌∷◌, ◌++◌, arith, count, ◌==◌, Text,
  inl, inr, Bool-cases, Option-cases, ◌∙◌,
}
use cloudigrade.Models.{Inspection, MachineImage}
use cloudigrade.Aws.Tables.{AwsDb}
use cloudigrade.Aws.Images.{ImageNames}
use cloudigrade.Aws.Inspections.{
  get_aws_machine_image, attempts, begin_inspection, start_image_inspection,
  update_aws_image_status_inspected, update_aws_image_status_error,
  persist_aws_inspection_cluster_results, LaunchAnswer, launch_inspection_instance,
}

count-append : (p : ℕ → Bool) (xs ys : List ℕ) → count p (xs ++ ys) ≡ count p xs + count p ys
count-append p [] ys = omega arith
count-append p (x ∷ xs) ys = omega (arith, count-append p xs ys)

module _ (max_allowed i : ℕ) where
  begin_inspection-attempts :
      (m : MachineImage) (w : AwsDb)
      → attempts i w ≤ max_allowed + 1
      → attempts i (begin_inspection max_allowed m w).1 ≤ max_allowed + 1
  unfolding begin_inspection
  begin_inspection-attempts m w h =
      let added = count-append (λ j. j == i) w.inspection_starts (m.id ∷ []) in
      elim (Bool-cases (m.id == i)) [
        | inl e ↦ let same : m.id ≡ i = ground arith in rw same (ground (arith, rw same at added))
        | inr e ↦ ground (arith, added, e)
      ]

-- One operation on images.
pub data ImageStep (max_allowed : ℕ) (names : ImageNames) : AwsDb → AwsDb → Type 0 where
  start :
      (w : AwsDb) (ami_id : Text)
      → ImageStep max_allowed names w (start_image_inspection max_allowed ami_id w).1
  inspected_step :
      (w : AwsDb) (ami_id : Text) (marketplace : Option Bool) (json : Option Inspection)
      → ImageStep max_allowed names w
          (update_aws_image_status_inspected names ami_id marketplace json w).1
  error_step :
      (w : AwsDb) (ami_id : Text) (is_encrypted : Option Bool)
      → ImageStep max_allowed names w (update_aws_image_status_error ami_id is_encrypted w).1
  persist :
      (w : AwsDb) (images : List (Text × Inspection))
      → ImageStep max_allowed names w (persist_aws_inspection_cluster_results names images w)
  launch :
      (w w' : AwsDb) (answer : LaunchAnswer) (ami_id : Text)
      → launch_inspection_instance names answer ami_id w ≡ some w'
      → ImageStep max_allowed names w w'

-- Any number of operations.
pub data ImageReach (max_allowed : ℕ) (names : ImageNames) (v : AwsDb) : AwsDb → Type 0 where
  done : ImageReach max_allowed names v v
  more :
      {w w' : AwsDb}
      → ImageReach max_allowed names v w
      → ImageStep max_allowed names w w'
      → ImageReach max_allowed names v w'

inspected-starts :
    (names : ImageNames) (ami_id : Text) (marketplace : Option Bool) (json : Option Inspection)
    (w : AwsDb)
    → (update_aws_image_status_inspected names ami_id marketplace json w).1.inspection_starts
      ≡ w.inspection_starts
unfolding update_aws_image_status_inspected
inspected-starts names ami_id none json w = ground arith
inspected-starts names ami_id (some b) json w = ground arith

error-starts :
    (ami_id : Text) (is_encrypted : Option Bool) (w : AwsDb)
    → (update_aws_image_status_error ami_id is_encrypted w).1.inspection_starts
      ≡ w.inspection_starts
unfolding update_aws_image_status_error
error-starts ami_id is_encrypted w = ground arith

persist-starts :
    (names : ImageNames) (images : List (Text × Inspection)) (w : AwsDb)
    → (persist_aws_inspection_cluster_results names images w).inspection_starts
      ≡ w.inspection_starts
unfolding persist_aws_inspection_cluster_results
persist-starts names [] w = refl
persist-starts names ((ami_id, json) ∷ images) w =
    persist-starts names images
      (update_aws_image_status_inspected names ami_id none (some json) w).1
    ∙ inspected-starts names ami_id none (some json) w

launch-starts :
    (names : ImageNames) (answer : LaunchAnswer) (ami_id : Text) (w w' : AwsDb)
    → launch_inspection_instance names answer ami_id w ≡ some w'
    → w'.inspection_starts ≡ w.inspection_starts
unfolding launch_inspection_instance
launch-starts names LaunchAnswer.snapshot_not_ready ami_id w w' h = absurd (cc)
launch-starts names LaunchAnswer.launched ami_id w w' h = ground arith
launch-starts names LaunchAnswer.marketplace_only ami_id w w' h = ground arith
launch-starts names LaunchAnswer.launch_failed ami_id w w' h = ground arith

start-attempts :
    (max_allowed i : ℕ) (ami_id : Text) (w : AwsDb)
    → attempts i w ≤ max_allowed + 1
    → attempts i (start_image_inspection max_allowed ami_id w).1 ≤ max_allowed + 1
unfolding start_image_inspection
start-attempts max_allowed i ami_id w h = elim (Option-cases (get_aws_machine_image ami_id w)) [
  | inl e ↦ rw (e, start_image_inspection) h
  | inr (found, e) ↦
      rw (e, start_image_inspection) (begin_inspection-attempts max_allowed i found.1 w h)
]

ImageStep-attempts :
    (max_allowed i : ℕ) (names : ImageNames) {w w' : AwsDb}
    → ImageStep max_allowed names w w'
    → attempts i w ≤ max_allowed + 1
    → attempts i w' ≤ max_allowed + 1
ImageStep-attempts max_allowed i names (start w ami_id) h = start-attempts max_allowed i ami_id w h
ImageStep-attempts max_allowed i names (inspected_step w ami_id marketplace json) h =
    rw (inspected-starts names ami_id marketplace json w) h
ImageStep-attempts max_allowed i names (error_step w ami_id is_encrypted) h =
    rw (error-starts ami_id is_encrypted w) h
ImageStep-attempts max_allowed i names (persist w images) h = rw (persist-starts names images w) h
ImageStep-attempts max_allowed i names (launch w w' answer ami_id made) h =
    rw (launch-starts names answer ami_id w w' made) h

-- Over any sequence of operations on images that begins with no inspection started, the inspection of an
-- image is started at most once more than the setting allows.
pub ImageReach-attempts :
    (max_allowed i : ℕ) (names : ImageNames) (v : AwsDb) {w : AwsDb}
    → v.inspection_starts ≡ []
    → ImageReach max_allowed names v w
    → attempts i w ≤ max_allowed + 1
ImageReach-attempts max_allowed i names v h done = rw h (omega arith)
ImageReach-attempts max_allowed i names v h (more r st) =
    ImageStep-attempts max_allowed i names st (ImageReach-attempts max_allowed i names v h r)
