-- ===== src/Cloudtrail/Stale.antt =====
-- What a change of the RHEL tag does to the usages that depend on the image
-- (cloudigrade/api/clouds/aws/tasks/cloudtrail.py).
use cloudigrade.Prelude.{
  ◌≡◌, refl, ◌∙◌, Bool, true, false, some, List, [], ◌∷◌, map, arith, find, if◌then◌else◌, inl, inr,
  Bool-cases,
}
use cloudigrade.Models.{MachineImage}
use cloudigrade.Aws.Tables.{AwsDb}
use cloudigrade.Aws.Images.{has_image_id}
use cloudigrade.Cloudtrail.Tags.{TagChanges, is_image_of, update_images_with_rhel_tag_changes}

find-map :
    (p : MachineImage → Bool) (f : MachineImage → MachineImage) (rows : List MachineImage)
    (m : MachineImage)
    → ((x : MachineImage) → p (f x) ≡ p x)
    → find p rows ≡ some m
    → find p (map f rows) ≡ some (f m)
find-map p f [] m same h = absurd (cc)
find-map p f (r ∷ rows) m same h = elim (Bool-cases (p r)) [
  | inl e ↦ ground (arith, same r, e)
  | inr e ↦ ground (arith, same r, e, find-map p f rows m same)
]

-- An image that is tagged and not untagged is detected by its tag afterwards, but the usages stay as they
-- were, those that counted its runs without it included.
pub update_images_with_rhel_tag_changes-keeps_usages :
    (c : TagChanges) (w : AwsDb) (m : MachineImage)
    → find (has_image_id m.id) w.db.machine_images ≡ some m
    → is_image_of c.tagged_ami_ids w m ≡ true
    → is_image_of c.untagged_ami_ids w m ≡ false
    → let w' = update_images_with_rhel_tag_changes c w in
      (find (has_image_id m.id) w'.db.machine_images
        ≡ some (record m { rhel_detected_by_tag = true }))
      × (w'.db.usages ≡ w.db.usages)
unfolding update_images_with_rhel_tag_changes
update_images_with_rhel_tag_changes-keeps_usages c w m found tagged untagged =
    let tag : MachineImage → MachineImage = λ (x : MachineImage).
      if is_image_of c.tagged_ami_ids w x then record x { rhel_detected_by_tag = true } else x in
    let untag : MachineImage → MachineImage = λ (x : MachineImage).
      if is_image_of c.untagged_ami_ids w x then record x { rhel_detected_by_tag = false } else x in
    let first = find-map (has_image_id m.id) tag w.db.machine_images m (λ x. ground arith) found in
    let second =
      find-map (has_image_id m.id) untag (map tag w.db.machine_images) (tag m) (λ x. ground arith)
        first in
    (second ∙ rw (tagged, untagged) refl, refl)
