-- ===== src/Cloudtrail/Process.antt =====
-- `_process_cloudtrail_message`, `_parse_aws_account_id` and the loop of `analyze_log`
-- (cloudigrade/api/clouds/aws/tasks/cloudtrail.py). What is read of the bucket is part of the message, and
-- the value `none` is an exception.
use cloudigrade.Prelude.{
  ℕ, Bool, true, false, ◌&&◌, not, Option, none, some, List, [], ◌∷◌, ◌++◌, any, Text, codes, ◌==◌,
  if◌then◌else◌, ◌>>=◌,
}
use cloudigrade.Orm.{Orm}
use cloudigrade.Models.{ImageStatus, pending}
use cloudigrade.Aws.Tables.{AwsMachineImage, AwsDb, has_aws_account_id, image_of}
use cloudigrade.Aws.Images.{ImageNames}
use cloudigrade.Aws.Instances.{InstanceData}
use cloudigrade.Aws.Inspections.{start_image_inspection}
use cloudigrade.Cloudtrail.Records.{Record, Dates, CloudTrailInstanceEvent, CloudTrailImageTagEvent}
use cloudigrade.Cloudtrail.Extract.{extract_ec2_instance_events, extract_ami_tag_events}
use cloudigrade.Cloudtrail.Loading.{
  Describing, drop_events_for_paused_accounts, load_missing_instance_data, load_missing_ami_data,
}
use cloudigrade.Cloudtrail.Saving.{Images, save_cloudtrail_activity}

-- What `load_json_from_s3` gives: an exception, nothing, or the records of a log.
pub data Content : Type 0 where
  read_error no_content : Content
  records : List Record → Content

-- An object of the bucket that a message names.
pub record LogFile : Type 0 where
  pub key : Text
  pub content : Content

-- No line ends in the text, except at its end: what `.*$` matches.
abbrev pub is_line : Text → Bool
is_line [] = true
is_line (c ∷ []) = true
is_line (c ∷ d ∷ t) = not (c == 10) && is_line (d ∷ t)

-- What stands before the first "/" and what stands after it.
abbrev pub split_slash : Text → Option (Text × Text)
split_slash [] = none
split_slash (c ∷ t) =
    if c == 47
    then some ([], t)
    else (elim (split_slash t) [ none ↦ none | some (before, after) ↦ some (c ∷ before, after) ])

abbrev pub drop_prefix : Text → Text → Option Text
drop_prefix [] t = some t
drop_prefix (a ∷ prefix) [] = none
drop_prefix (a ∷ prefix) (b ∷ t) = if a == b then drop_prefix prefix t else none

-- The group of the regular expression `^AWSLogs/(?P<aws_account_id>[^/]+)/.*$`.
unfoldable pub key_account : Text → Option Text
key_account key = drop_prefix (codes "AWSLogs/") key >>= λ (t : Text).
    split_slash t >>= λ (parts : Text × Text). elim parts.0 [
      | [] ↦ none
      | c ∷ id ↦ if is_line parts.1 then some (c ∷ id) else none
    ]

-- `_parse_aws_account_id`
unfoldable pub parse_aws_account_id : AwsDb → Text → Option Text × Bool
unfolding key_account
parse_aws_account_id w key = elim (key_account key) [
  | none ↦ (none, false)
  | some id ↦ (some id, any (has_aws_account_id id) w.aws_cloud_accounts)
]

-- The records of the logs, or `none` inside for the return at a log that is empty or cannot be read.
unfoldable pub read_logs : AwsDb → List LogFile → Option (Option (List Record))
unfolding parse_aws_account_id
read_logs w [] = some (some [])
read_logs w (f ∷ files) =
    let rest = read_logs w files in
    if (parse_aws_account_id w f.key).1
    then (elim f.content [
      | read_error ↦ none
      | no_content ↦ some none
      | records rs ↦ rest >>= λ (later : Option (List Record)).
          some (later >>= λ (rs' : List Record). some (rs ++ rs'))
    ])
    else rest

unfoldable pub extract_events :
    Dates
    → AwsDb
    → List Record
    → Option (List CloudTrailInstanceEvent × List CloudTrailImageTagEvent)
unfolding extract_ec2_instance_events extract_ami_tag_events
extract_events dates w [] = some ([], [])
extract_events dates w (r ∷ rs) =
    extract_ec2_instance_events dates w r >>= λ (events : List CloudTrailInstanceEvent).
    extract_ami_tag_events dates w r >>= λ (tags : List CloudTrailImageTagEvent).
    extract_events dates w rs
    >>= λ (rest : List CloudTrailInstanceEvent × List CloudTrailImageTagEvent).
        some (events ++ rest.0, tags ++ rest.1)

abbrev pub is_pending : ImageStatus → Bool
is_pending s = elim s [ pending ↦ true | _ ↦ false ]

-- The inspections of the new images that are pending; false where an image is missing.
unfoldable pub start_inspections : ℕ → List (Text × AwsMachineImage) → AwsDb → Bool × AwsDb
unfolding start_image_inspection
start_inspections max_allowed [] w = (true, w)
start_inspections max_allowed ((ami_id, a) ∷ images) w = elim (image_of a w.db) [
  | none ↦ (false, w)
  | some m ↦
      start_inspections max_allowed images
        (if is_pending m.status then (start_image_inspection max_allowed ami_id w).1 else w)
]

-- A message: `files` is `none` where its body cannot be read.
pub record Message : Type 0 where
  pub message_id : Text
  pub files : Option (List LogFile)

abbrev pub Analyzed : Type 0
Analyzed = List Message × List Message × AwsDb

module _ (orm : Orm) (names : ImageNames) (dates : Dates) (aws : Describing) (max_allowed now : ℕ)
    (is_inspected_object : Bool) where
  -- The saving, whose failure is caught and leaves the tables as they were.
  unfoldable pub save_loaded :
      List CloudTrailInstanceEvent
      → List CloudTrailImageTagEvent
      → List (Text × InstanceData)
      → Images
      → AwsDb
      → Bool × AwsDb
  unfolding save_cloudtrail_activity start_inspections
  save_loaded events tags described_instances described_amis w =
      elim (save_cloudtrail_activity orm names dates now is_inspected_object events tags
        described_instances described_amis w) [
          | none ↦ (false, w)
          | some (new_images, w') ↦ start_inspections max_allowed new_images w'
        ]

  unfoldable pub process_records : List Record → AwsDb → Option (Bool × AwsDb)
  unfolding extract_events drop_events_for_paused_accounts load_missing_instance_data
      load_missing_ami_data save_loaded
  process_records rs w =
      extract_events dates w rs
      >>= λ (found : List CloudTrailInstanceEvent × List CloudTrailImageTagEvent).
          drop_events_for_paused_accounts (λ (e : CloudTrailInstanceEvent). e.aws_account_id) w
            found.0
          >>= λ (events : List CloudTrailInstanceEvent).
              drop_events_for_paused_accounts (λ (t : CloudTrailImageTagEvent). t.aws_account_id) w
                found.1
              >>= λ (tags : List CloudTrailImageTagEvent).
                  load_missing_instance_data aws w events
                  >>= λ (loaded : List (Text × InstanceData) × List CloudTrailInstanceEvent).
                      load_missing_ami_data aws w loaded.1 tags >>= λ (described_amis : Images).
                      some (save_loaded loaded.1 tags loaded.0 described_amis w)

  unfoldable pub process_cloudtrail_message : List LogFile → AwsDb → Option (Bool × AwsDb)
  unfolding read_logs process_records
  process_cloudtrail_message files w = read_logs w files >>= λ (logs : Option (List Record)).
      elim logs [ none ↦ some (true, w) | some rs ↦ process_records rs w ]

  -- Whether the message was processed, and the tables; an exception is caught.
  unfoldable pub analyze_message : Message → AwsDb → Bool × AwsDb
  unfolding process_cloudtrail_message
  analyze_message m w =
      elim (m.files >>= λ (files : List LogFile). process_cloudtrail_message files w) [
        | none ↦ (false, w)
        | some result ↦ result
      ]

  -- The messages that succeed, which are deleted from the queue, those that fail, and the tables.
  unfoldable pub analyze_log : List Message → AwsDb → Analyzed
  unfolding analyze_message
  analyze_log [] w = ([], [], w)
  analyze_log (m ∷ messages) w =
      let done = analyze_message m w in
      let rest = analyze_log messages done.1 in
      if done.0 then (m ∷ rest.0, rest.1, rest.2) else (rest.0, m ∷ rest.1, rest.2)
