-- ===== src/Cloudtrail/Extract.antt =====
-- The events of a CloudTrail record (cloudigrade/api/clouds/aws/cloudtrail.py). The value `none` is an
-- exception.
use cloudigrade.Prelude.{
  Bool, true, false, ◌&&◌, ◌||◌, not, Option, none, some, List, [], ◌∷◌, ◌++◌, map, Text, codes,
  text_eq, option_eq, starts_with, is_in_texts, any, find, leb, if◌then◌else◌, ◌>>=◌, is_some,
}
use cloudigrade.Models.{EventType, power_on, power_off, attribute_change, CloudAccount}
use cloudigrade.Aws.Tables.{AwsDb, has_aws_account_id, account_of}
use cloudigrade.Cloudtrail.Records.{
  Field, absent, null, object, InstanceItem, InstanceTypeField, no_type, plain_type, value_type,
  RequestParameters, Record, Dates, CloudTrailInstanceEvent, CloudTrailImageTagEvent, openshift_tag,
  rhel_tag,
}

-- The keys and values of `ec2_instance_event_map`.
abbrev pub event_type_of : Text → Option EventType
event_type_of name =
    if is_in_texts name (codes "RunInstances" ∷ codes "StartInstance" ∷ codes "StartInstances" ∷ [])
    then some power_on
    else if is_in_texts name (
        codes "StopInstances"
        ∷ codes "TerminateInstances"
        ∷ codes "TerminateInstanceInAutoScalingGroup"
        ∷ [])
    then some power_off
    else if text_eq name (codes "ModifyInstanceAttribute")
    then some attribute_change
    else none

abbrev pub create_tag : Text
create_tag = codes "CreateTags"

abbrev pub delete_tag : Text
delete_tag = codes "DeleteTags"

-- A text that is there and not empty.
abbrev pub is_truthy : Option Text → Bool
is_truthy none = false
is_truthy (some []) = false
is_truthy (some (c ∷ t)) = true

-- `is_known` tells the events that are valid.
unfoldable pub is_valid_event : (Text → Bool) → Record → Bool
is_valid_event is_known r =
    option_eq text_eq r.event_source (some (codes "ec2.amazonaws.com"))
    && not (is_truthy r.error_code)
    && (elim r.event_name [ none ↦ false | some name ↦ is_known name ])

unfoldable pub extract_time_account_region : Record → Option (Text × Text × Text)
extract_time_account_region r = r.event_time >>= λ occurred_at.
    r.account_id >>= λ account_id. r.aws_region >>= λ region. some (occurred_at, account_id, region)

-- The account is there, enabled and not paused, and the event did not occur before it was enabled.
abbrev pub is_relevant_account : Dates → Text → CloudAccount → Option Bool
is_relevant_account dates occurred_at c =
    if not c.is_enabled
    then some false
    else if c.platform_application_is_paused
    then some false
    else (elim c.enabled_at [
      | none ↦ some true
      | some enabled_at ↦ elim (dates.parse occurred_at) [
        | none ↦ none
        | some time ↦ some (leb enabled_at time)
      ]
    ])

unfoldable pub is_relevant_event : Dates → AwsDb → Text → Text → Option Bool
is_relevant_event dates w occurred_at aws_account_id =
    elim (find (has_aws_account_id aws_account_id) w.aws_cloud_accounts) [
      | none ↦ some false
      | some a ↦ elim (account_of a w.db) [
        | none ↦ none
        | some c ↦ is_relevant_account dates occurred_at c
      ]
    ]

-- `record.get(key, {})`, of which something is then asked.
abbrev pub or_empty : {A : Type 0} → A → Field A → Option A
or_empty empty absent = some empty
or_empty empty null = none
or_empty empty (object a) = some a

abbrev pub no_parameters : RequestParameters
no_parameters = record {
  instance_type = no_type;
  instance_id = none;
  resource_ids = [];
  tag_keys = [];
}

abbrev pub type_text : InstanceTypeField → Option Text
type_text no_type = none
type_text (plain_type t) = some t
type_text (value_type t) = t

-- A tuple of the set of instances: an instance id, an AMI id and a subnet id.
abbrev pub Found : Type 0
Found = Text × Option Text × Option Text

abbrev pub found_eq : Found → Found → Bool
found_eq (i, a, s) (j, b, t) = text_eq i j && option_eq text_eq a b && option_eq text_eq s t

-- Adding to a set; a set is a list without repetitions, in some order.
unfoldable pub add_found : Found → List Found → List Found
add_found f set = if any (found_eq f) set then set else f ∷ set

unfoldable pub found_instances : List InstanceItem → List Found
unfolding add_found
found_instances [] = []
found_instances (item ∷ items) = elim item.instance_id [
  | none ↦ found_instances items
  | some i ↦ add_found (i, item.image_id, item.subnet_id) (found_instances items)
]

-- The instance that the request names. The test whether it is among those found takes each triple for a
-- pair, and so raises an exception where there is any.
unfoldable pub add_requested : Option Text → List Found → Option (List Found)
add_requested none found = some found
add_requested (some i) [] = some ((i, none, none) ∷ [])
add_requested (some i) (f ∷ found) = none

-- The names of events that must tell the instance's type.
abbrev pub tells_type : Text → Bool
tells_type name = is_in_texts name (codes "ModifyInstanceAttribute" ∷ codes "RunInstances" ∷ [])

-- What is read from the request and the response of a relevant event.
unfoldable pub events_of :
    Record → Text → EventType → Text × Text × Text → Option (List CloudTrailInstanceEvent)
unfolding found_instances add_requested
events_of r name event_type (occurred_at, aws_account_id, region) =
    or_empty no_parameters r.request_parameters >>= λ parameters.
    if tells_type name && not (is_some (type_text parameters.instance_type))
    then some []
    else (or_empty [] r.response_elements >>= λ items.
        add_requested parameters.instance_id (found_instances items) >>= λ found. some (
          map
            (λ (f : Found). record {
              occurred_at = occurred_at;
              aws_account_id = aws_account_id;
              region = region;
              ec2_instance_id = f.0;
              event_type = event_type;
              instance_type = type_text parameters.instance_type;
              ec2_ami_id = f.1;
              subnet_id = f.2;
            })
            found))

unfoldable pub extract_ec2_instance_events :
    Dates → AwsDb → Record → Option (List CloudTrailInstanceEvent)
unfolding is_valid_event extract_time_account_region is_relevant_event events_of
extract_ec2_instance_events dates w r =
    if is_valid_event (λ name. is_some (event_type_of name)) r
    then (extract_time_account_region r >>= λ (at : Text × Text × Text).
        is_relevant_event dates w at.0 at.1 >>= λ relevant.
        if relevant
        then (r.event_name >>= λ name.
            event_type_of name >>= λ event_type. events_of r name event_type at)
        else some [])
    else some []

abbrev pub is_tag : Text → Bool
is_tag key = text_eq key openshift_tag || text_eq key rhel_tag

-- The set of the resources that are images.
unfoldable pub image_ids : List (Option Text) → List Text
image_ids [] = []
image_ids (none ∷ ids) = image_ids ids
image_ids (some i ∷ ids) =
    let rest = image_ids ids in
    if starts_with (codes "ami-") i && not (is_in_texts i rest) then i ∷ rest else rest

unfoldable pub tags_of : List (Option Text) → List Text
tags_of [] = []
tags_of (none ∷ keys) = tags_of keys
tags_of (some key ∷ keys) = let rest = tags_of keys in if is_tag key then key ∷ rest else rest

abbrev pub tag_event : Text × Text × Text → Bool → Text → Text → CloudTrailImageTagEvent
tag_event (occurred_at, aws_account_id, region) is_present ami_id tag = record {
  occurred_at = occurred_at;
  aws_account_id = aws_account_id;
  region = region;
  ec2_ami_id = ami_id;
  tag = tag;
  is_present = is_present;
}

-- `itertools.product`
unfoldable pub tag_events :
    Text × Text × Text → Bool → List Text → List Text → List CloudTrailImageTagEvent
tag_events at is_present [] tags = []
tag_events at is_present (i ∷ ids) tags =
    map (tag_event at is_present i) tags ++ tag_events at is_present ids tags

unfoldable pub extract_ami_tag_events :
    Dates → AwsDb → Record → Option (List CloudTrailImageTagEvent)
unfolding is_valid_event extract_time_account_region is_relevant_event image_ids tags_of tag_events
extract_ami_tag_events dates w r =
    if is_valid_event (λ name. is_in_texts name (create_tag ∷ delete_tag ∷ [])) r
    then (extract_time_account_region r >>= λ (at : Text × Text × Text).
        is_relevant_event dates w at.0 at.1 >>= λ relevant.
        if relevant
        then (or_empty no_parameters r.request_parameters >>= λ parameters. some (
            tag_events at (option_eq text_eq r.event_name (some create_tag))
              (image_ids parameters.resource_ids) (tags_of parameters.tag_keys)))
        else some [])
    else some []
