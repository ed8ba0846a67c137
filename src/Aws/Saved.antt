-- ===== src/Aws/Saved.antt =====
-- What saving an image does to the usages that depend on it, and where an inspection leaves an image
-- (cloudigrade/api/models.py, cloudigrade/api/clouds/aws/util.py).
use cloudigrade.Prelude.{
  ℕ, ◌≡◌, refl, ◌∙◌, Bool, true, false, ◌||◌, ◌&&◌, not, ◌+◌, count, none, some, List, [], ◌∷◌,
  ◌++◌, arith, any, find, map, Text, ◌==◌, if◌then◌else◌, ltb, any-reject, find-holds, find-exists,
  sym, ap, bind-some, some-inj,
}
use mathlib.Core.Path.{subst}
use cloudigrade.Models.{preparing, inspected, error, Inspection, ImageStatus, MachineImage, Db}
use cloudigrade.Models.Images.{is_marketplace, is_cloud_access}
use cloudigrade.Aws.Tables.{AwsMachineImage, AwsDb, has_ami_id, image_of}
use cloudigrade.Aws.Images.{ImageNames, has_image_id, counts_image_run, save_image}
use cloudigrade.Aws.Inspections.{
  get_aws_machine_image, with_image, attempts, begin_inspection, start_image_inspection,
  update_aws_image_status_inspected,
}

-- After an image is saved no usage counts a run of it.
pub save_image-clears :
    (m : MachineImage) (db : Db)
    → any (counts_image_run (save_image m db) m.id) (save_image m db).usages ≡ false
unfolding save_image
save_image-clears m db = any-reject (counts_image_run db m.id) db.usages

find-replace_image :
    (m : MachineImage) (rows : List MachineImage)
    → any (has_image_id m.id) rows ≡ true
    → find (has_image_id m.id) (map (λ (n : MachineImage). if n.id == m.id then m else n) rows)
      ≡ some m
find-replace_image m [] h = absurd (cc)
find-replace_image m (r ∷ rows) h = ground (arith, find-replace_image m rows)

any-replace_image :
    (i : ℕ) (m : MachineImage) (rows : List MachineImage)
    → any (has_image_id i) (map (λ (n : MachineImage). if n.id == m.id then m else n) rows)
      ≡ any (has_image_id i) rows
any-replace_image i m [] = refl
any-replace_image i m (r ∷ rows) = ground (arith, any-replace_image i m rows)

-- A saved image is read back.
pub save_image-find :
    (m : MachineImage) (db : Db)
    → any (has_image_id m.id) db.machine_images ≡ true
    → find (has_image_id m.id) (save_image m db).machine_images ≡ some m
unfolding save_image
save_image-find m db h = find-replace_image m db.machine_images h

save_image-any :
    (i : ℕ) (m : MachineImage) (db : Db)
    → any (has_image_id i) (save_image m db).machine_images ≡ any (has_image_id i) db.machine_images
unfolding save_image
save_image-any i m db = any-replace_image i m db.machine_images

-- The image that is found is stored under its id.
found_stored :
    (ami_id : Text) (w : AwsDb) (a : AwsMachineImage) (m : MachineImage)
    → get_aws_machine_image ami_id w ≡ some (a, m)
    → any (has_image_id m.id) w.db.machine_images ≡ true
unfolding get_aws_machine_image
found_stored ami_id w a m h =
    let (b, _, k) = bind-some (find (has_ami_id ami_id) w.aws_machine_images) _ h in
    let (n, f, k') = bind-some (image_of b w.db) _ k in
    let same : n ≡ m = ap (λ (p : AwsMachineImage × MachineImage). p.1) (some-inj k') in
    let held = find-holds (has_image_id b.machine_image_id) w.db.machine_images f in
    let there = find-exists (has_image_id b.machine_image_id) w.db.machine_images f in
    let alike : n.id ≡ b.machine_image_id = ground arith in
    rw (← same) (subst (λ i. any (has_image_id i) w.db.machine_images ≡ true) (sym alike) there)

-- The inspection of the image was started more often than the setting allows.
abbrev pub exceeds : ℕ → MachineImage → AwsDb → Bool
exceeds max_allowed m w = ltb max_allowed (attempts m.id w)

-- The image's kind tells what it holds, without an inspection.
abbrev pub is_special : MachineImage → Bool
is_special m = is_marketplace m || is_cloud_access m

-- The status that an image gets: an error only for too many attempts at an image that is not tagged.
abbrev pub expected_status : ℕ → MachineImage → AwsDb → ImageStatus
expected_status max_allowed m w =
    if exceeds max_allowed m w && not m.rhel_detected_by_tag
    then error
    else if m.rhel_detected_by_tag || is_special m
    then inspected
    else preparing

abbrev pub IsSettled : ImageStatus → Bool → ℕ → MachineImage → AwsDb → Bool × AwsDb → Type 0
IsSettled status copies tries m w (queued, w') =
    (find (has_image_id m.id) w'.db.machine_images ≡ some (record m { status = status }))
    × (queued ≡ copies)
    × (attempts m.id w' ≡ attempts m.id w + tries)
    × (any (counts_image_run w'.db m.id) w'.db.usages ≡ false)

count-snoc : (i : ℕ) (is : List ℕ) → count (λ k. k == i) (is ++ i ∷ []) ≡ count (λ k. k == i) is + 1
count-snoc i [] = ground arith
count-snoc i (k ∷ is) = ground (arith, count-snoc i is)

module _ (m : MachineImage) (w : AwsDb)
    (stored : any (has_image_id m.id) w.db.machine_images ≡ true) where
  abbrev prepared : AwsDb
  prepared = with_image (record m { status = preparing }) w

  abbrev started : AwsDb
  started = record prepared { inspection_starts = prepared.inspection_starts ++ m.id ∷ [] }

  queued-IsSettled : IsSettled preparing true 1 m w (true, started)
  queued-IsSettled = (
    save_image-find (record m { status = preparing }) w.db stored,
    refl,
    count-snoc m.id w.inspection_starts,
    save_image-clears (record m { status = preparing }) w.db,
  )

  saved-IsSettled :
      (status : ImageStatus) (tries : ℕ) (v : AwsDb)
      → v.db ≡ prepared.db
      → attempts m.id v ≡ attempts m.id w + tries
      → IsSettled status false tries m w (false, with_image (record m { status = status }) v)
  saved-IsSettled status tries v same counted = (
    save_image-find (record m { status = status }) v.db
        (rw same (save_image-any m.id (record m { status = preparing }) w.db ∙ stored)),
    refl,
    counted,
    save_image-clears (record m { status = status }) v.db,
  )

  choose-IsSettled :
      (tagged exceeded special : Bool)
      → IsSettled
          (if exceeded && not tagged
            then error
            else if tagged || special
            then inspected
            else preparing)
          (not (tagged || exceeded || special))
          (if tagged || exceeded then 0 else 1)
          m
          w
          (if tagged
            then (false, with_image (record m { status = inspected }) prepared)
            else if exceeded
            then (false, with_image (record m { status = error }) prepared)
            else if special
            then (false, with_image (record m { status = inspected }) started)
            else (true, started))
  choose-IsSettled true true special = saved-IsSettled inspected 0 prepared refl (omega arith)
  choose-IsSettled true false special = saved-IsSettled inspected 0 prepared refl (omega arith)
  choose-IsSettled false true special = saved-IsSettled error 0 prepared refl (omega arith)
  choose-IsSettled false false true =
      saved-IsSettled inspected 1 started refl (count-snoc m.id w.inspection_starts)
  choose-IsSettled false false false = queued-IsSettled

-- Where an inspection that is started leaves a known image. The stored image is in error where it is not
-- tagged and was started more often than allowed; else it is inspected where it is tagged or is a
-- marketplace or cloud access image; else it is being prepared. A copy of its snapshot is queued in the
-- last case only. An attempt is counted unless the image is tagged or was started too often. No usage
-- counts a run of the image.
pub start_image_inspection-settles :
    (max_allowed : ℕ) (ami_id : Text) (w : AwsDb) (a : AwsMachineImage) (m : MachineImage)
    → get_aws_machine_image ami_id w ≡ some (a, m)
    → let (queued, w') = start_image_inspection max_allowed ami_id w in
      (find (has_image_id m.id) w'.db.machine_images
        ≡ some (record m { status = expected_status max_allowed m w }))
      × (queued ≡ not (m.rhel_detected_by_tag || exceeds max_allowed m w || is_special m))
      × (attempts m.id w'
          ≡ attempts m.id w + (if m.rhel_detected_by_tag || exceeds max_allowed m w then 0 else 1))
      × (any (counts_image_run w'.db m.id) w'.db.usages ≡ false)
unfolding start_image_inspection begin_inspection
start_image_inspection-settles max_allowed ami_id w a m h =
    rw (h, start_image_inspection)
      (choose-IsSettled m w (found_stored ami_id w a m h) m.rhel_detected_by_tag
        (exceeds max_allowed m w) (is_special m))

-- After an image's inspection is reported, the image is inspected with the reported results, and no
-- usage counts a run of it.
pub update_aws_image_status_inspected-saves :
    (names : ImageNames) (ami_id : Text) (json : Inspection) (w : AwsDb) (a : AwsMachineImage)
    (m : MachineImage)
    → get_aws_machine_image ami_id w ≡ some (a, m)
    → let (ok, w') = update_aws_image_status_inspected names ami_id none (some json) w in
      (ok ≡ true)
      × (find (has_image_id m.id) w'.db.machine_images
          ≡ some (record m { status = inspected; inspection_json = some json }))
      × (any (counts_image_run w'.db m.id) w'.db.usages ≡ false)
unfolding update_aws_image_status_inspected
update_aws_image_status_inspected-saves names ami_id json w a m h =
    let image : MachineImage = record m { status = inspected; inspection_json = some json } in
    rw (h, update_aws_image_status_inspected)
      (refl, save_image-find image w.db (found_stored ami_id w a m h), save_image-clears image w.db)
