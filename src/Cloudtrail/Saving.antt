-- ===== src/Cloudtrail/Saving.antt =====
-- `_save_cloudtrail_activity` and its parts (cloudigrade/api/clouds/aws/tasks/cloudtrail.py). The value
-- `none` is an exception, which rolls the transaction back.
use cloudigrade.Prelude.{
  ℕ, Bool, true, false, ◌&&◌, ◌||◌, not, Option, none, some, List, [], ◌∷◌, ◌++◌, map, any, select,
  find, Text, text_eq, is_in_texts, is_some, leb, if◌then◌else◌, ◌>>=◌,
}
use cloudigrade.Orm.{Orm}
use cloudigrade.Models.{ImageStatus, inspected, CloudAccount, MachineImage}
use cloudigrade.Aws.Tables.{
  AwsCloudAccount, AwsInstance, AwsMachineImage, AwsDb, has_aws_account_id, account_of, image_of,
}
use cloudigrade.Aws.Images.{ImageNames, NewImage, save_new_aws_machine_image, create_stub}
use cloudigrade.Aws.Instances.{InstanceData, save_instance}
use cloudigrade.Aws.Events.{EventInfo, is_windows, save_instance_events}
use cloudigrade.Cloudtrail.Records.{
  Dates, CloudTrailInstanceEvent, CloudTrailImageTagEvent, openshift_tag, rhel_tag,
}
use cloudigrade.Cloudtrail.Loading.{DescribedImage, lookup, add_text, is_known_image}
use cloudigrade.Cloudtrail.Tags.{
  TagChanges, extract_ami_ids_by_tag_change, update_images_with_openshift_tag_changes,
  update_images_with_rhel_tag_changes,
}

-- What is described of images: the id, the region and the rest.
abbrev pub Images : Type 0
Images = List (Text × (Text × DescribedImage))

-- `windows_ami_ids` of `_find_ec2_ami_image_ids`; its other two results are only logged.
unfoldable pub find_windows_ami_ids : ImageNames → Images → List Text
find_windows_ami_ids names [] = []
find_windows_ami_ids names ((i, (region, im)) ∷ images) =
    let rest = find_windows_ami_ids names images in
    if is_windows names im.platform then i ∷ rest else rest

-- The ids that are there, as a set.
unfoldable pub known_texts : List (Option Text) → List Text
known_texts [] = []
known_texts (none ∷ ts) = known_texts ts
known_texts (some t ∷ ts) = add_text t (known_texts ts)

unfoldable pub seen_ami_ids :
    List (Text × InstanceData)
    → List CloudTrailImageTagEvent
    → List CloudTrailInstanceEvent
    → List Text
unfolding known_texts
seen_ami_ids described_instances tags events = known_texts (
    map (λ (d : Text × InstanceData). d.1.image_id) described_instances
    ++ (map (λ (t : CloudTrailImageTagEvent). some t.ec2_ami_id) tags
        ++ map (λ (e : CloudTrailInstanceEvent). e.ec2_ami_id) events))

-- `_find_unavailable_ami_ids`
unfoldable pub find_unavailable_ami_ids :
    AwsDb
    → List (Text × InstanceData)
    → Images
    → List CloudTrailImageTagEvent
    → List CloudTrailInstanceEvent
    → List Text
unfolding seen_ami_ids
find_unavailable_ami_ids w described_instances images tags events =
    select (λ i. not (is_some (lookup i images)) && not (is_known_image w i))
      (seen_ami_ids described_instances tags events)

-- Consecutive events of one instance, region and account; `head` is `events[0]`.
pub record EventGroup : Type 0 where
  pub head : CloudTrailInstanceEvent
  pub events : List CloudTrailInstanceEvent

abbrev pub is_alike : CloudTrailInstanceEvent → CloudTrailInstanceEvent → Bool
is_alike e f =
    text_eq e.ec2_instance_id f.ec2_instance_id
    && text_eq e.region f.region
    && text_eq e.aws_account_id f.aws_account_id

abbrev pub join_event : CloudTrailInstanceEvent → List EventGroup → List EventGroup
join_event e [] = record { head = e; events = e ∷ [] } ∷ []
join_event e (g ∷ gs) =
    if is_alike e g.head
    then record { head = e; events = e ∷ g.events } ∷ gs
    else record { head = e; events = e ∷ [] } ∷ g ∷ gs

unfoldable pub event_groups : List CloudTrailInstanceEvent → List EventGroup
event_groups [] = []
event_groups (e ∷ events) = join_event e (event_groups events)

-- The events that did not occur before the account was created. The AwsInstance from which a missing type
-- is taken has none.
unfoldable pub build_events_info_for_saving :
    Dates → CloudAccount → List CloudTrailInstanceEvent → Option (List EventInfo)
build_events_info_for_saving dates account [] = some []
build_events_info_for_saving dates account (e ∷ events) =
    dates.parse e.occurred_at >>= λ (time : ℕ).
    build_events_info_for_saving dates account events >>= λ (rest : List EventInfo).
    let info : EventInfo = record {
      event_type = e.event_type;
      occurred_at = e.occurred_at;
      instance_type = e.instance_type;
    } in
    some (if leb account.created_at time then info ∷ rest else rest)

-- The description of a group's instance, or what its first event tells.
abbrev pub group_data : List (Text × InstanceData) → EventGroup → InstanceData
group_data described g = elim (lookup g.head.ec2_instance_id described) [
  | some d ↦ d
  | none ↦ record {
    instance_id = g.head.ec2_instance_id;
    image_id = g.head.ec2_ami_id;
    instance_type = none;
    state_code = none;
    platform = none;
  }
]

-- Every account of the events is there.
unfoldable pub has_accounts : AwsDb → List Text → Bool
has_accounts w [] = true
has_accounts w (i ∷ ids) =
    is_some (
      find (has_aws_account_id i) w.aws_cloud_accounts >>= λ (a : AwsCloudAccount).
      account_of a w.db)
    && has_accounts w ids

-- The tag changes of the two tags, and the ids of Windows images.
pub record Detected : Type 0 where
  pub ocp : TagChanges
  pub rhel : TagChanges
  pub windows_ami_ids : List Text

abbrev pub has_changes : TagChanges → Bool
has_changes c = any (λ _. true) c.tagged_ami_ids || any (λ _. true) c.untagged_ami_ids

abbrev pub described_image : Detected → Text → Text → DescribedImage → NewImage
described_image found i region im = record {
  ami_id = i;
  name = some im.name;
  owner_aws_account_id = some im.owner_id;
  rhel_detected_by_tag = is_in_texts i found.rhel.tagged_ami_ids;
  openshift_detected = is_in_texts i found.ocp.tagged_ami_ids;
  windows_detected = is_in_texts i found.windows_ami_ids;
  region = region;
  architecture = im.architecture;
  product_code_types = im.product_code_types;
}

unfoldable pub create_stubs : Orm → ImageNames → List Text → AwsDb → AwsDb
unfolding create_stub
create_stubs orm names [] w = w
create_stubs orm names (i ∷ ids) w = create_stubs orm names ids (create_stub orm names i none w)

unfoldable pub detected : ImageNames → List CloudTrailImageTagEvent → Images → Detected
unfolding find_windows_ami_ids extract_ami_ids_by_tag_change
detected names tags images = record {
  ocp = extract_ami_ids_by_tag_change tags openshift_tag;
  rhel = extract_ami_ids_by_tag_change tags rhel_tag;
  windows_ami_ids = find_windows_ami_ids names images;
}

-- `items_to_process` is not 0.
abbrev pub has_items : Images → List Text → Detected → List CloudTrailInstanceEvent → Bool
has_items images unavailable found events =
    any (λ _. true) images
    || any (λ _. true) unavailable
    || has_changes found.ocp
    || has_changes found.rhel
    || any (λ _. true) events

abbrev pub account_ids : List CloudTrailInstanceEvent → List CloudTrailImageTagEvent → List Text
account_ids events tags =
    map (λ (e : CloudTrailInstanceEvent). e.aws_account_id) events
    ++ map (λ (t : CloudTrailImageTagEvent). t.aws_account_id) tags

module _ (orm : Orm) (names : ImageNames) (dates : Dates) (now : ℕ)
    -- whether the status of an inspected image, as it is read, is the very object `image.INSPECTED`
    (is_inspected_object : Bool) where
  abbrev pub is_inspected_status : ImageStatus → Bool
  is_inspected_status s = elim s [ inspected ↦ is_inspected_object | _ ↦ false ]

  -- The new images, and the tables.
  unfoldable pub save_images :
      Detected → Images → AwsDb → Option (List (Text × AwsMachineImage) × AwsDb)
  unfolding save_new_aws_machine_image
  save_images found [] w = some ([], w)
  save_images found ((i, (region, im)) ∷ images) w =
      save_new_aws_machine_image orm names (described_image found i region im) w
      >>= λ (saved : AwsMachineImage × Bool × AwsDb).
          image_of saved.0 saved.2.db >>= λ (m : MachineImage).
          save_images found images saved.2 >>= λ (rest : List (Text × AwsMachineImage) × AwsDb).
          some (
            if saved.1 && not (is_inspected_status m.status) then (i, saved.0) ∷ rest.0 else rest.0,
            rest.1,
          )

  unfoldable pub save_group : List (Text × InstanceData) → EventGroup → AwsDb → Option AwsDb
  unfolding build_events_info_for_saving save_instance save_instance_events
  save_group described g w =
      let d = group_data described g in
      find (has_aws_account_id g.head.aws_account_id) w.aws_cloud_accounts
      >>= λ (a : AwsCloudAccount). account_of a w.db >>= λ (account : CloudAccount).
          save_instance orm names account.id d g.head.region w >>= λ (saved : AwsInstance × AwsDb).
          build_events_info_for_saving dates account g.events >>= λ (infos : List EventInfo).
          save_instance_events orm now dates saved.0 d infos saved.1

  unfoldable pub save_groups : List (Text × InstanceData) → List EventGroup → AwsDb → Option AwsDb
  unfolding save_group
  save_groups described [] w = some w
  save_groups described (g ∷ gs) w =
      save_group described g w >>= λ (w' : AwsDb). save_groups described gs w'

  -- What is saved where there is something to process.
  unfoldable pub save_all :
      Detected
      → List CloudTrailInstanceEvent
      → List (Text × InstanceData)
      → Images
      → List Text
      → AwsDb
      → Option (List (Text × AwsMachineImage) × AwsDb)
  unfolding save_images create_stubs save_groups event_groups
      update_images_with_openshift_tag_changes update_images_with_rhel_tag_changes
  save_all found events described_instances images unavailable w =
      save_images found images w >>= λ (saved : List (Text × AwsMachineImage) × AwsDb).
      let stubs = create_stubs orm names unavailable saved.1 in
      let tagged =
        update_images_with_rhel_tag_changes found.rhel
          (update_images_with_openshift_tag_changes found.ocp stubs) in
      save_groups described_instances (event_groups events) tagged >>= λ (w' : AwsDb).
      some (saved.0, w')

  unfoldable pub save_cloudtrail_activity :
      List CloudTrailInstanceEvent
      → List CloudTrailImageTagEvent
      → List (Text × InstanceData)
      → Images
      → AwsDb
      → Option (List (Text × AwsMachineImage) × AwsDb)
  unfolding has_accounts detected find_unavailable_ami_ids save_all
  save_cloudtrail_activity events tags described_instances images w =
      let unavailable = find_unavailable_ami_ids w described_instances images tags events in
      if has_accounts w (account_ids events tags)
      then (if has_items images unavailable (detected names tags images) events
          then save_all (detected names tags images) events described_instances images unavailable w
          else some ([], w))
      else none
