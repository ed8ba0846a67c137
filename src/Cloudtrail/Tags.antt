-- ===== src/Cloudtrail/Tags.antt =====
-- `_extract_ami_ids_by_tag_change` and the updates of the images by it
-- (cloudigrade/api/clouds/aws/tasks/cloudtrail.py).
use cloudigrade.Prelude.{
  Bool, true, false, ◌&&◌, ◌||◌, List, [], ◌∷◌, map, any, select, Text, text_eq, text_le,
  is_in_texts, if◌then◌else◌, ◌==◌,
}
use cloudigrade.Models.{MachineImage}
use cloudigrade.Aws.Tables.{AwsDb, AwsMachineImage}
use cloudigrade.Cloudtrail.Records.{CloudTrailImageTagEvent}

abbrev pub TagEvent : Type 0
TagEvent = CloudTrailImageTagEvent

-- A group of `itertools.groupby`: consecutive events of one image.
pub record Group : Type 0 where
  pub ec2_ami_id : Text
  pub events : List TagEvent

abbrev pub join_group : TagEvent → List Group → List Group
join_group e [] = record { ec2_ami_id = e.ec2_ami_id; events = e ∷ [] } ∷ []
join_group e (g ∷ gs) =
    if text_eq e.ec2_ami_id g.ec2_ami_id
    then record { ec2_ami_id = e.ec2_ami_id; events = e ∷ g.events } ∷ gs
    else record { ec2_ami_id = e.ec2_ami_id; events = e ∷ [] } ∷ g ∷ gs

unfoldable pub groupby : List TagEvent → List Group
groupby [] = []
groupby (e ∷ es) = join_group e (groupby es)

-- `sorted` by the text of the time, stable.
unfoldable pub insert_by_time : TagEvent → List TagEvent → List TagEvent
insert_by_time e [] = e ∷ []
insert_by_time e (f ∷ fs) =
    if text_le e.occurred_at f.occurred_at then e ∷ f ∷ fs else f ∷ insert_by_time e fs

unfoldable pub sorted_by_time : List TagEvent → List TagEvent
unfolding insert_by_time
sorted_by_time [] = []
sorted_by_time (e ∷ es) = insert_by_time e (sorted_by_time es)

abbrev pub reversed : List TagEvent → List TagEvent → List TagEvent
reversed [] acc = acc
reversed (e ∷ es) acc = reversed es (e ∷ acc)

-- The two sets.
pub record TagChanges : Type 0 where
  pub tagged_ami_ids : List Text
  pub untagged_ami_ids : List Text

abbrev pub is_decided : Text → TagChanges → Bool
is_decided i c = is_in_texts i c.tagged_ami_ids || is_in_texts i c.untagged_ami_ids

-- The body of the inner loop.
unfoldable pub decide : Text → TagEvent → TagChanges → TagChanges
decide i e c =
    if is_decided i c
    then c
    else if e.is_present
    then record c { tagged_ami_ids = i ∷ c.tagged_ami_ids }
    else record c { untagged_ami_ids = i ∷ c.untagged_ami_ids }

unfoldable pub decide_all : Text → List TagEvent → TagChanges → TagChanges
unfolding decide
decide_all i [] c = c
decide_all i (e ∷ es) c = decide_all i es (decide i e c)

unfoldable pub decide_groups : Text → List Group → TagChanges → TagChanges
unfolding decide_all sorted_by_time
decide_groups tag [] c = c
decide_groups tag (g ∷ gs) c = decide_groups tag gs (
    decide_all g.ec2_ami_id
      (reversed (sorted_by_time (select (λ e. text_eq e.tag tag) g.events)) []) c)

unfoldable pub extract_ami_ids_by_tag_change : List TagEvent → Text → TagChanges
unfolding groupby decide_groups
extract_ami_ids_by_tag_change events tag =
    decide_groups tag (groupby events) (record { tagged_ami_ids = []; untagged_ami_ids = [] })

-- The image row of one of the AMIs.
abbrev pub is_image_of : List Text → AwsDb → MachineImage → Bool
is_image_of ids w m =
    any (λ (a : AwsMachineImage). a.machine_image_id == m.id && is_in_texts a.ec2_ami_id ids)
      w.aws_machine_images

abbrev pub update_images : (MachineImage → Bool) → (MachineImage → MachineImage) → AwsDb → AwsDb
update_images p f w = record w {
  db = record w.db { machine_images = map (λ m. if p m then f m else m) w.db.machine_images };
}

-- An empty list of ids updates nothing.
unfoldable pub update_images_with_openshift_tag_changes : TagChanges → AwsDb → AwsDb
update_images_with_openshift_tag_changes c w =
    let tagged =
      update_images (is_image_of c.tagged_ami_ids w) (λ m. record m { openshift_detected = true })
        w in
    update_images (is_image_of c.untagged_ami_ids w) (λ m. record m { openshift_detected = false })
      tagged

unfoldable pub update_images_with_rhel_tag_changes : TagChanges → AwsDb → AwsDb
update_images_with_rhel_tag_changes c w =
    let tagged =
      update_images (is_image_of c.tagged_ami_ids w) (λ m. record m { rhel_detected_by_tag = true })
        w in
    update_images (is_image_of c.untagged_ami_ids w)
      (λ m. record m { rhel_detected_by_tag = false }) tagged
