-- ===== src/Aws/Describe.antt =====
-- The first describe of an account's instances: `create_new_machine_images` and `generate_aws_ami_messages`
-- (cloudigrade/api/clouds/aws/util.py), and `initial_aws_describe_instances`
-- (cloudigrade/api/clouds/aws/tasks/onboarding.py). The value `none` is an exception.
use cloudigrade.Prelude.{
  ℕ, Bool, ◌&&◌, ◌||◌, not, Option, none, some, List, [], ◌∷◌, ◌++◌, any, select, find, Text,
  text_eq, is_in_texts, ◌==◌, if◌then◌else◌, ◌>>=◌,
}
use cloudigrade.Orm.{Orm}
use cloudigrade.Models.{CloudAccount}
use cloudigrade.Aws.Tables.{AwsCloudAccount, AwsMachineImage, AwsDb, has_ami_id, account_of}
use cloudigrade.Aws.Images.{ImageNames, NewImage, save_new_aws_machine_image}
use cloudigrade.Aws.Instances.{InstanceData}
use cloudigrade.Aws.Events.{is_windows, create_initial_aws_instance_events}
use cloudigrade.Aws.Missing.{create_missing_power_off_aws_instance_events}
use cloudigrade.Aws.Inspections.{start_image_inspection}
use cloudigrade.Cloudtrail.Records.{openshift_tag, rhel_tag}

-- The described instances of each region.
abbrev pub Regions : Type 0
Regions = List (Text × List InstanceData)

-- What AWS tells of an image.
pub record FoundImage : Type 0 where
  pub image_id : Text
  pub owner_id : ℕ
  pub name : Text
  pub architecture : Option Text
  pub tag_keys : List Text
  pub product_code_types : List Text

-- The image ids of a region's instances, as a set: each instance must have one.
unfoldable pub ami_ids_of : List InstanceData → Option (List Text)
ami_ids_of [] = some []
ami_ids_of (d ∷ ds) = d.image_id >>= λ (i : Text).
    ami_ids_of ds >>= λ (rest : List Text). some (if is_in_texts i rest then rest else i ∷ rest)

-- The images of Windows instances; an instance that is one must have an image id.
unfoldable pub windows_ids_of : ImageNames → List InstanceData → Option (List Text)
windows_ids_of names [] = some []
windows_ids_of names (d ∷ ds) =
    let rest = windows_ids_of names ds in
    if is_windows names d.platform
    then (d.image_id >>= λ (i : Text). rest >>= λ (ids : List Text). some (i ∷ ids))
    else rest

-- Which images are described, by their regions, and which are Windows images. `describe` is
-- `describe_images` with the session.
unfoldable pub describe_new_images :
    ImageNames
    → (List Text → Text → Option (List FoundImage))
    → AwsDb
    → Regions
    → Option (List (Text × List FoundImage) × List Text)
unfolding ami_ids_of windows_ids_of
describe_new_images names describe w [] = some ([], [])
describe_new_images names describe w ((region, ds) ∷ regions) =
    ami_ids_of ds >>= λ (ami_ids : List Text).
    let new_ids = select (λ i. not (any (has_ami_id i) w.aws_machine_images)) ami_ids in
    (elim new_ids [
      | [] ↦ some []
      | i ∷ is ↦
          describe (i ∷ is) region >>= λ (found : List FoundImage). some ((region, found) ∷ [])
    ])
    >>= λ (here : List (Text × List FoundImage)).
        windows_ids_of names ds >>= λ (windows : List Text).
        describe_new_images names describe w regions
        >>= λ (rest : List (Text × List FoundImage) × List Text).
            some (here ++ rest.0, windows ++ rest.1)

-- The arguments of `save_new_aws_machine_image` for a described image.
abbrev pub found_image : List Text → Text → FoundImage → NewImage
found_image windows region f = record {
  ami_id = f.image_id;
  name = some f.name;
  owner_aws_account_id = some f.owner_id;
  rhel_detected_by_tag = is_in_texts rhel_tag f.tag_keys;
  openshift_detected = is_in_texts openshift_tag f.tag_keys;
  windows_detected = is_in_texts f.image_id windows;
  region = region;
  architecture = f.architecture;
  product_code_types = f.product_code_types;
}

-- A message for the inspection of an image: its region and its id.
abbrev pub AmiMessage : Type 0
AmiMessage = Text × Text

abbrev pub message_eq : AmiMessage → AmiMessage → Bool
message_eq (r, i) (s, j) = text_eq r s && text_eq i j

unfoldable pub add_message : AmiMessage → List AmiMessage → List AmiMessage
add_message m ms = if any (message_eq m) ms then ms else m ∷ ms

unfoldable pub messages_of_region :
    ImageNames → List Text → Text → List InstanceData → List AmiMessage → Option (List AmiMessage)
unfolding add_message
messages_of_region names ids region [] ms = some ms
messages_of_region names ids region (d ∷ ds) ms = d.image_id >>= λ (i : Text).
    messages_of_region names ids region ds (
      if is_in_texts i ids && not (is_windows names d.platform)
      then add_message (region, i) ms
      else ms)

-- A set of messages, in some order.
unfoldable pub messages_from :
    ImageNames → List Text → Regions → List AmiMessage → Option (List AmiMessage)
unfolding messages_of_region
messages_from names ids [] ms = some ms
messages_from names ids ((region, ds) ∷ regions) ms =
    messages_of_region names ids region ds ms >>= λ (ms' : List AmiMessage).
    messages_from names ids regions ms'

unfoldable pub generate_aws_ami_messages :
    ImageNames → Regions → List Text → Option (List AmiMessage)
unfolding messages_from
generate_aws_ami_messages names regions ids = messages_from names ids regions []

unfoldable pub start_inspections_of : ℕ → List AmiMessage → AwsDb → AwsDb
unfolding start_image_inspection
start_inspections_of max_allowed [] w = w
start_inspections_of max_allowed ((region, i) ∷ ms) w =
    start_inspections_of max_allowed ms (start_image_inspection max_allowed i w).1

module _ (orm : Orm) (names : ImageNames) where
  unfoldable pub save_region_images :
      List Text → Text → List FoundImage → AwsDb → Option (List Text × AwsDb)
  unfolding save_new_aws_machine_image
  save_region_images windows region [] w = some ([], w)
  save_region_images windows region (f ∷ fs) w =
      save_new_aws_machine_image orm names (found_image windows region f) w
      >>= λ (saved : AwsMachineImage × Bool × AwsDb).
          save_region_images windows region fs saved.2 >>= λ (rest : List Text × AwsDb).
          some (if saved.1 then f.image_id ∷ rest.0 else rest.0, rest.1)

  unfoldable pub save_found_images :
      List Text → List (Text × List FoundImage) → AwsDb → Option (List Text × AwsDb)
  unfolding save_region_images
  save_found_images windows [] w = some ([], w)
  save_found_images windows ((region, fs) ∷ regions) w =
      save_region_images windows region fs w >>= λ (saved : List Text × AwsDb).
      save_found_images windows regions saved.1 >>= λ (rest : List Text × AwsDb).
      some (saved.0 ++ rest.0, rest.1)

  -- The ids of the new images, and the tables.
  unfoldable pub create_new_machine_images :
      (List Text → Text → Option (List FoundImage)) → Regions → AwsDb → Option (List Text × AwsDb)
  unfolding describe_new_images save_found_images
  create_new_machine_images describe regions w =
      describe_new_images names describe w regions
      >>= λ (found : List (Text × List FoundImage) × List Text). save_found_images found.1 found.0 w

  -- What is done under the lock and after it, with the tables as they are then.
  unfoldable pub save_described :
      (List Text → Text → Option (List FoundImage)) → ℕ → ℕ → ℕ → Regions → AwsDb → Option AwsDb
  unfolding create_missing_power_off_aws_instance_events create_new_machine_images
      create_initial_aws_instance_events generate_aws_ami_messages start_inspections_of
  save_described describe max_allowed now account_id regions w =
      create_new_machine_images describe regions
        (create_missing_power_off_aws_instance_events orm now account_id regions w)
      >>= λ (made : List Text × AwsDb).
          create_initial_aws_instance_events orm now names account_id regions made.1
          >>= λ (w' : AwsDb).
              generate_aws_ami_messages names regions made.0 >>= λ (ms : List AmiMessage).
              some (start_inspections_of max_allowed ms w')

  abbrev pub has_pk : ℕ → AwsCloudAccount → Bool
  has_pk pk a = a.id == pk

  -- `described` is what the describe of all regions gives, and `later` are the tables when it is done: the
  -- account may be gone by then.
  unfoldable pub initial_aws_describe_instances :
      (List Text → Text → Option (List FoundImage))
      → Option Regions
      → ℕ
      → ℕ
      → ℕ
      → AwsDb
      → AwsDb
      → Option AwsDb
  unfolding save_described
  initial_aws_describe_instances describe described max_allowed now pk w later =
      elim (find (has_pk pk) w.aws_cloud_accounts) [
        | none ↦ some later
        | some a ↦ account_of a w.db >>= λ (c : CloudAccount).
            if not c.is_enabled || c.platform_application_is_paused
            then some later
            else (described >>= λ (regions : Regions).
                if any (has_pk pk) later.aws_cloud_accounts
                then save_described describe max_allowed now c.id regions later
                else some later)
      ]
