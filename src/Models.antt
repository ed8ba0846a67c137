-- ===== src/Models.antt =====
-- The rows of cloudigrade/api/models.py, and the database as its tables. Times are microseconds
-- since the epoch, in UTC; a date is its number of days. A generic relation's cloud-specific row
-- (AwsInstanceEvent, AzureInstanceEvent and the like) is part of the row that refers to it.
pub mod Images
use cloudigrade.Prelude.{
  ℕ, ◌+◌, ◌/◌, ◌*◌, Bool, true, false, Option, none, some, List, [], ◌∷◌, map, Text, any, select,
  find, ◌==◌,
}

pub data CloudType : Type 0 where
  aws azure : CloudType

-- InstanceEvent.TYPE
pub data EventType : Type 0 where
  power_on power_off attribute_change : EventType

-- MachineImage.STATUS_CHOICES
pub data ImageStatus : Type 0 where
  pending preparing inspecting inspected error unavailable : ImageStatus

-- The `syspurpose` dict that an inspection reports: a key may be absent.
pub record Syspurpose : Type 0 where
  pub role : Option Text
  pub service_level_agreement : Option Text
  pub usage : Option Text
  pub service_type : Option Text

-- What `json.loads(inspection_json)` gives: a key may be absent.
pub record Inspection : Type 0 where
  pub rhel_version : Option Text
  pub rhel_enabled_repos_found : Option Bool
  pub rhel_product_certs_found : Option Bool
  pub rhel_release_files_found : Option Bool
  pub rhel_signed_packages_found : Option Bool
  pub syspurpose : Option Syspurpose

-- AwsMachineImage or AzureMachineImage, as far as MachineImage asks.
pub record ImageContent : Type 0 where
  pub is_cloud_access : Bool
  pub is_marketplace : Bool

pub record MachineImage : Type 0 where
  pub id : ℕ
  pub inspection_json : Option Inspection
  pub is_encrypted : Bool
  pub status : ImageStatus
  pub rhel_detected_by_tag : Bool
  pub openshift_detected : Bool
  pub architecture : Option Text
  pub content_object : Option ImageContent

pub record User : Type 0 where
  pub id : ℕ
  pub is_superuser : Bool
  pub is_permanent : Bool
  pub date_joined : ℕ

-- `content_object` is None when the cloud-specific account is missing.
pub record CloudAccount : Type 0 where
  pub id : ℕ
  pub user_id : ℕ
  pub is_enabled : Bool
  pub enabled_at : Option ℕ
  pub platform_authentication_id : ℕ
  pub platform_application_id : ℕ
  pub platform_application_is_paused : Bool
  pub is_synthetic : Bool
  pub created_at : ℕ
  pub content_object : Option CloudType

pub record Instance : Type 0 where
  pub id : ℕ
  pub cloud_account_id : ℕ
  pub machine_image_id : Option ℕ

pub record InstanceEvent : Type 0 where
  pub id : ℕ
  pub instance_id : ℕ
  pub event_type : EventType
  pub occurred_at : ℕ
  pub created_at : ℕ
  pub updated_at : ℕ
  pub cloud_type : CloudType
  pub instance_type : Option Text

pub record Run : Type 0 where
  pub id : ℕ
  pub start_time : ℕ
  pub end_time : Option ℕ
  pub machineimage_id : Option ℕ
  pub instance_id : ℕ
  pub instance_type : Option Text
  pub memory : Option ℕ
  pub vcpu : Option ℕ
  pub created_at : ℕ
  pub updated_at : ℕ

-- The key under which usage is counted; `ANY` is the text "_ANY".
pub record ConcurrentKey : Type 0 where
  pub role : Text
  pub sla : Text
  pub arch : Text
  pub usage : Text
  pub service_type : Text

pub record MaximumCount : Type 0 where
  pub key : ConcurrentKey
  pub instances_count : ℕ

pub record ConcurrentUsage : Type 0 where
  pub id : ℕ
  pub date : ℕ
  pub user_id : ℕ
  pub maximum_counts : List MaximumCount
  pub potentially_related_runs : List ℕ
  pub updated_at : ℕ

-- `vcpu` is a decimal with two places: it is kept in hundredths.
pub record InstanceDefinition : Type 0 where
  pub instance_type : Text
  pub cloud_type : CloudType
  pub memory_mib : ℕ
  pub vcpu_hundredths : ℕ

pub record Db : Type 0 where
  pub users : List User
  pub cloud_accounts : List CloudAccount
  pub machine_images : List MachineImage
  pub instances : List Instance
  pub events : List InstanceEvent
  pub runs : List Run
  pub usages : List ConcurrentUsage
  pub definitions : List InstanceDefinition

abbrev pub empty_db : Db
empty_db = record {
  users = [];
  cloud_accounts = [];
  machine_images = [];
  instances = [];
  events = [];
  runs = [];
  usages = [];
  definitions = [];
}

abbrev pub cloud_type_eq : CloudType → CloudType → Bool
cloud_type_eq aws aws = true
cloud_type_eq azure azure = true
cloud_type_eq _ _ = false

abbrev pub is_power_on : InstanceEvent → Bool
is_power_on e = elim e.event_type [ power_on ↦ true | _ ↦ false ]

abbrev pub is_power_off : InstanceEvent → Bool
is_power_off e = elim e.event_type [ power_off ↦ true | _ ↦ false ]

abbrev pub microseconds_per_hour : ℕ
microseconds_per_hour = 3600000000

abbrev pub microseconds_per_day : ℕ
microseconds_per_day = 86400000000

-- `datetime.date()`
abbrev pub date_of : ℕ → ℕ
date_of t = t / microseconds_per_day
