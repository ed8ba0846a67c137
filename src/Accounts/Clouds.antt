-- ===== src/Accounts/Clouds.antt =====
-- The cloud-specific halves of enabling and disabling (cloudigrade/api/clouds/aws/models.py,
-- cloudigrade/api/clouds/azure/models.py) and `verify_permissions`
-- (cloudigrade/api/clouds/aws/util.py).
use cloudigrade.Prelude.{ℕ, Bool, true, false, none, some, find, if◌then◌else◌}
use cloudigrade.Models.{aws, azure, CloudAccount, Db}
use cloudigrade.Accounts.World.{
  initial_aws_describe_instances, initial_azure_vm_discovery, delete_cloudtrail, Notice, World,
  later_task, notify, has_account_id,
}

-- How the calls to AWS end: the permissions are there and CloudTrail is configured, a policy action
-- failed, or one of the exceptions was raised.
pub data AwsAnswer : Type 0 where
  configured failed_actions client_error too_many_trails unexpected : AwsAnswer

-- The clouds' answers about an account. A list of subscriptions that could not be had has no
-- subscription.
pub record Clouds : Type 0 where
  pub aws_answer : ℕ → AwsAnswer
  pub is_available_subscription : ℕ → Bool

abbrev pub error_notice : CloudAccount → ℕ → Notice
error_notice a code = record {
  application_id = a.platform_application_id;
  is_available = false;
  error_code = some code;
}

unfoldable pub verify_permissions : Clouds → ℕ → World → Bool × World
verify_permissions clouds account_id w =
    elim (find (has_account_id account_id) w.db.cloud_accounts) [
      | none ↦ (false, w)
      | some a ↦ if a.is_synthetic then (true, w) else (elim (clouds.aws_answer account_id) [
        | configured ↦ (true, w)
        | failed_actions ↦ (false, notify (error_notice a 3003) w)
        | client_error ↦ (false, notify (error_notice a 3002) w)
        | too_many_trails ↦ (false, notify (error_notice a 3001) w)
        | unexpected ↦ (false, notify (error_notice a 3000) w)
      ])
    ]

-- `AwsCloudAccount.enable`: true for a return, false for an exception.
unfoldable pub enable_aws : Clouds → ℕ → World → Bool × World
unfolding verify_permissions
enable_aws clouds account_id w = elim (find (has_account_id account_id) w.db.cloud_accounts) [
  | none ↦ (false, w)
  | some a ↦
      if a.is_synthetic
      then (true, w)
      else (let (verified, w') = verify_permissions clouds account_id w in
          if verified
          then (
            true,
            if a.platform_application_is_paused
                then w'
                else later_task (initial_aws_describe_instances account_id) w',
          )
          else (false, w'))
]

-- `AzureCloudAccount.enable`, in the same form.
unfoldable pub enable_azure : Clouds → ℕ → World → Bool × World
enable_azure clouds account_id w =
    if clouds.is_available_subscription account_id
    then (elim (find (has_account_id account_id) w.db.cloud_accounts) [
      | none ↦ (false, w)
      | some a ↦ (
        true,
        if a.platform_application_is_paused
            then w
            else later_task (initial_azure_vm_discovery account_id) w,
      )
    ])
    else (false, w)

-- `self.content_object.enable()`: a missing object has no such method, which is an exception too.
unfoldable pub enable_content : Clouds → CloudAccount → World → Bool × World
unfolding enable_aws enable_azure
enable_content clouds account w = elim account.content_object [
  | none ↦ (false, w)
  | some cloud ↦ elim cloud [
    | aws ↦ enable_aws clouds account.id w
    | azure ↦ enable_azure clouds account.id w
  ]
]

-- `AwsCloudAccount.disable`: an account that is not there counts as one that is not synthetic.
unfoldable pub disable_aws : ℕ → World → World
disable_aws account_id w = elim (find (has_account_id account_id) w.db.cloud_accounts) [
  | none ↦ later_task (delete_cloudtrail account_id) w
  | some a ↦ if a.is_synthetic then w else later_task (delete_cloudtrail account_id) w
]

-- `AzureCloudAccount.disable` does nothing.
unfoldable pub disable_content : CloudAccount → World → World
unfolding disable_aws
disable_content account w = elim account.content_object [
  | none ↦ w
  | some cloud ↦ elim cloud [ aws ↦ disable_aws account.id w | azure ↦ w ]
]

-- `_delete_cloudtrail`, which runs at the commit: whether AWS is asked to delete the trail.
unfoldable pub deletes_cloudtrail : ℕ → Db → Bool
deletes_cloudtrail account_id db = elim (find (has_account_id account_id) db.cloud_accounts) [
  | none ↦ true
  | some a ↦ if a.is_enabled then false else true
]
