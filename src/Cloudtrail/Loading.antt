-- ===== src/Cloudtrail/Loading.antt =====
-- The events that are kept, and what AWS is asked for before anything is saved:
-- `_drop_events_for_paused_accounts`, `_load_missing_instance_data` and `_load_missing_ami_data`
-- (cloudigrade/api/clouds/aws/tasks/cloudtrail.py). The value `none` is an exception.
use cloudigrade.Prelude.{
  ℕ, Bool, false, ◌&&◌, ◌||◌, not, Option, none, some, List, [], ◌∷◌, map, any, select, find, Text,
  text_eq, is_in_texts, is_some, ◌==◌, if◌then◌else◌, ◌>>=◌,
}
use cloudigrade.Models.{CloudAccount, Instance, InstanceEvent}
use cloudigrade.Aws.Tables.{
  AwsCloudAccount, AwsInstance, AwsDb, has_aws_account_id, account_of, has_ami_id,
}
use cloudigrade.Aws.Instances.{InstanceData}
use cloudigrade.Cloudtrail.Records.{CloudTrailInstanceEvent, CloudTrailImageTagEvent}

-- Whether the account is there and not paused.
unfoldable pub is_okay_account : AwsDb → Text → Option Bool
is_okay_account w aws_account_id =
    elim (find (has_aws_account_id aws_account_id) w.aws_cloud_accounts) [
      | none ↦ some false
      | some a ↦
          account_of a w.db >>= λ (c : CloudAccount). some (not c.platform_application_is_paused)
    ]

unfoldable pub okay_aws_account_ids : AwsDb → List Text → Option (List Text)
unfolding is_okay_account
okay_aws_account_ids w [] = some []
okay_aws_account_ids w (i ∷ ids) = is_okay_account w i >>= λ (okay : Bool).
    okay_aws_account_ids w ids >>= λ (rest : List Text). some (if okay then i ∷ rest else rest)

-- `account_id` is the attribute `aws_account_id` of an event.
unfoldable pub drop_events_for_paused_accounts :
    {A : Type 0} → (A → Text) → AwsDb → List A → Option (List A)
unfolding okay_aws_account_ids
drop_events_for_paused_accounts account_id w events =
    okay_aws_account_ids w (map account_id events) >>= λ (okay : List Text).
    some (select (λ e. is_in_texts (account_id e) okay) events)

-- What AWS tells of an image: `product_code_types` are the types of its product codes.
pub record DescribedImage : Type 0 where
  pub owner_id : ℕ
  pub name : Text
  pub architecture : Option Text
  pub product_code_types : List Text
  pub platform : Option Text

-- `describe_instances` and `describe_images` with a session for an ARN, ids and a region.
pub record Describing : Type 0 where
  pub describe_instances : Text → List Text → Text → Option (List (Text × InstanceData))
  pub describe_images : Text → List Text → Text → Option (List (Text × DescribedImage))

-- Adding to a set of texts.
abbrev pub add_text : Text → List Text → List Text
add_text t ts = if is_in_texts t ts then ts else t ∷ ts

-- `_instance_event_is_complete`
abbrev pub instance_event_is_complete : CloudTrailInstanceEvent → Bool
instance_event_is_complete e = is_some e.instance_type && is_some e.ec2_ami_id

-- The stored instance has an image and an event with a type.
abbrev pub is_described : AwsDb → Text → Bool
is_described w ec2_instance_id =
    any
      (λ (a : AwsInstance).
        text_eq a.ec2_instance_id ec2_instance_id
        && any (λ (i : Instance). i.id == a.instance_id && is_some i.machine_image_id)
            w.db.instances)
      w.aws_instances
    && any
        (λ (a : AwsInstance).
          text_eq a.ec2_instance_id ec2_instance_id
          && any (λ (e : InstanceEvent). e.instance_id == a.instance_id && is_some e.instance_type)
              w.db.events)
        w.aws_instances

unfoldable pub defined_ec2_instance_ids :
    AwsDb → List CloudTrailInstanceEvent → List Text → List Text
defined_ec2_instance_ids w [] defined = defined
defined_ec2_instance_ids w (e ∷ events) defined = defined_ec2_instance_ids w events (
    if instance_event_is_complete e
      || is_in_texts e.ec2_instance_id defined
      || is_described w e.ec2_instance_id
    then add_text e.ec2_instance_id defined
    else defined)

-- Consecutive events of one account and region.
pub record Source : Type 0 where
  pub aws_account_id : Text
  pub region : Text
  pub ids : List Text

-- One more event or image, before the groups of the later ones.
abbrev pub join_source : Text → Text → Text → List Source → List Source
join_source account region i [] =
    record { aws_account_id = account; region = region; ids = i ∷ [] } ∷ []
join_source account region i (s ∷ sources) =
    if text_eq account s.aws_account_id && text_eq region s.region
    then record { aws_account_id = account; region = region; ids = add_text i s.ids } ∷ sources
    else record { aws_account_id = account; region = region; ids = i ∷ [] } ∷ s ∷ sources

unfoldable pub sources_of : List CloudTrailInstanceEvent → List Source
sources_of [] = []
sources_of (e ∷ events) =
    join_source e.aws_account_id e.region e.ec2_instance_id (sources_of events)

-- A dict of what is described, in the order in which its keys were put.
abbrev pub put : {A : Type 0} → Text × A → List (Text × A) → List (Text × A)
put e [] = e ∷ []
put e (f ∷ rest) = if text_eq f.0 e.0 then e ∷ rest else f ∷ put e rest

abbrev pub put_all : {A : Type 0} → List (Text × A) → List (Text × A) → List (Text × A)
put_all [] dict = dict
put_all (e ∷ es) dict = put_all es (put e dict)

abbrev pub lookup : {A : Type 0} → Text → List (Text × A) → Option A
lookup i [] = none
lookup i ((j, a) ∷ rest) = if text_eq j i then some a else lookup i rest

unfoldable pub describe_sources :
    Describing
    → AwsDb
    → List Text
    → List Source
    → List (Text × InstanceData)
    → Option (List (Text × InstanceData))
describe_sources aws w defined [] described = some described
describe_sources aws w defined (s ∷ sources) described =
    let missing = select (λ i. not (is_in_texts i defined)) s.ids in
    (elim missing [
      | [] ↦ some described
      | m ∷ ms ↦
          find (has_aws_account_id s.aws_account_id) w.aws_cloud_accounts
          >>= λ (a : AwsCloudAccount).
              aws.describe_instances a.account_arn (m ∷ ms) s.region >>= λ found.
              some (put_all found described)
    ])
    >>= λ described'. describe_sources aws w defined sources described'

-- The image id of an event that has none, from the description of its instance.
abbrev pub fill_image_id :
    List (Text × InstanceData) → CloudTrailInstanceEvent → Option CloudTrailInstanceEvent
fill_image_id described e =
    if is_some e.ec2_ami_id then some e else (elim (lookup e.ec2_instance_id described) [
      | none ↦ some e
      | some d ↦ d.image_id >>= λ i. some (record e { ec2_ami_id = some i })
    ])

unfoldable pub fill_image_ids :
    List (Text × InstanceData)
    → List CloudTrailInstanceEvent
    → Option (List CloudTrailInstanceEvent)
fill_image_ids described [] = some []
fill_image_ids described (e ∷ events) =
    fill_image_id described e >>= λ (e' : CloudTrailInstanceEvent).
    fill_image_ids described events >>= λ events'. some (e' ∷ events')

-- The descriptions, and the events with the image ids that were missing.
unfoldable pub load_missing_instance_data :
    Describing
    → AwsDb
    → List CloudTrailInstanceEvent
    → Option (List (Text × InstanceData) × List CloudTrailInstanceEvent)
unfolding defined_ec2_instance_ids sources_of describe_sources fill_image_ids
load_missing_instance_data aws w events =
    describe_sources aws w (defined_ec2_instance_ids w events []) (sources_of events) []
    >>= λ described. fill_image_ids described events >>= λ events'. some (described, events')

-- The account, region and image id of each event that has one.
unfoldable pub image_keys :
    List CloudTrailInstanceEvent → List CloudTrailImageTagEvent → List (Text × Text × Text)
image_keys [] [] = []
image_keys [] (t ∷ tags) = (t.aws_account_id, t.region, t.ec2_ami_id) ∷ image_keys [] tags
image_keys (e ∷ events) tags =
    let rest = image_keys events tags in
    elim e.ec2_ami_id [ none ↦ rest | some i ↦ (e.aws_account_id, e.region, i) ∷ rest ]

abbrev pub is_known_image : AwsDb → Text → Bool
is_known_image w i = any (has_ami_id i) w.aws_machine_images

-- The groups of the keys of new images; a set comes in any order, here that of the events.
unfoldable pub image_sources : AwsDb → List (Text × Text × Text) → List Source
image_sources w [] = []
image_sources w ((account, region, i) ∷ keys) =
    let rest = image_sources w keys in
    if is_known_image w i then rest else join_source account region i rest

-- The descriptions with the region in which each was found.
unfoldable pub describe_image_sources :
    Describing
    → AwsDb
    → List Source
    → List (Text × (Text × DescribedImage))
    → Option (List (Text × (Text × DescribedImage)))
describe_image_sources aws w [] described = some described
describe_image_sources aws w (s ∷ sources) described =
    find (has_aws_account_id s.aws_account_id) w.aws_cloud_accounts >>= λ (a : AwsCloudAccount).
    aws.describe_images a.account_arn s.ids s.region >>= λ (found : List (Text × DescribedImage)).
    describe_image_sources aws w sources
      (put_all (map (λ (f : Text × DescribedImage). (f.0, (s.region, f.1))) found) described)

unfoldable pub load_missing_ami_data :
    Describing
    → AwsDb
    → List CloudTrailInstanceEvent
    → List CloudTrailImageTagEvent
    → Option (List (Text × (Text × DescribedImage)))
unfolding image_keys image_sources describe_image_sources
load_missing_ami_data aws w events tags =
    describe_image_sources aws w (image_sources w (image_keys events tags)) []
