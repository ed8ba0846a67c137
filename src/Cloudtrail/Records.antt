-- ===== src/Cloudtrail/Records.antt =====
-- A record of a CloudTrail log file, as far as cloudigrade/api/clouds/aws/cloudtrail.py reads it, and the
-- events that are made of it. A key may be absent, or its value may be null.
use cloudigrade.Prelude.{ℕ, Bool, Option, List, Text, codes}
use cloudigrade.Models.{EventType}

-- A key that holds an object.
pub data Field (A : Type 0) : Type 0 where
  absent null : Field A
  object : A → Field A

-- An item of `responseElements.instancesSet.items`: `none` for a key that is absent.
pub record InstanceItem : Type 0 where
  pub instance_id : Option Text
  pub image_id : Option Text
  pub subnet_id : Option Text

-- `instanceType` is a text, or an object with the text as its "value".
pub data InstanceTypeField : Type 0 where
  no_type : InstanceTypeField
  plain_type : Text → InstanceTypeField
  value_type : Option Text → InstanceTypeField

-- The items of `resourcesSet` by their `resourceId`, and those of `tagSet` by their `key`.
pub record RequestParameters : Type 0 where
  pub instance_type : InstanceTypeField
  pub instance_id : Option Text
  pub resource_ids : List (Option Text)
  pub tag_keys : List (Option Text)

pub record Record : Type 0 where
  pub event_source : Option Text
  pub error_code : Option Text
  pub event_name : Option Text
  pub event_time : Option Text
  pub account_id : Option Text
  pub aws_region : Option Text
  pub request_parameters : Field RequestParameters
  pub response_elements : Field (List InstanceItem)

-- The reading of a time, by `dateutil.parser.parse` and by Django for a column: `none` for a text that is
-- no time. Both read the times of CloudTrail.
pub record Dates : Type 0 where
  pub parse : Text → Option ℕ

pub record CloudTrailInstanceEvent : Type 0 where
  pub occurred_at : Text
  pub aws_account_id : Text
  pub region : Text
  pub ec2_instance_id : Text
  pub event_type : EventType
  pub instance_type : Option Text
  pub ec2_ami_id : Option Text
  pub subnet_id : Option Text

pub record CloudTrailImageTagEvent : Type 0 where
  pub occurred_at : Text
  pub aws_account_id : Text
  pub region : Text
  pub ec2_ami_id : Text
  pub tag : Text
  pub is_present : Bool  -- `exists`

abbrev pub openshift_tag : Text
openshift_tag = codes "cloudigrade-ocp-present"

abbrev pub rhel_tag : Text
rhel_tag = codes "cloudigrade-rhel-present"
