-- ===== src/Aws/Tables.antt =====
-- The rows of cloudigrade/api/clouds/aws/models.py. A generic relation is kept as the id of the row that
-- refers to the AWS row, as `machine_image.get()` and `instance.get()` follow it.
use cloudigrade.Prelude.{ℕ, Bool, ◌&&◌, Option, List, find, Text, text_eq, ◌==◌}
use cloudigrade.Models.{CloudAccount, Instance, MachineImage, Db}

-- The numbers of AWS accounts are kept as the texts of their digits.
pub record AwsCloudAccount : Type 0 where
  pub id : ℕ
  pub aws_account_id : Text
  pub account_arn : Text
  pub cloud_account_id : ℕ

pub record AwsInstance : Type 0 where
  pub ec2_instance_id : Text
  pub region : Text
  pub instance_id : ℕ

-- AwsMachineImage.PLATFORM_CHOICES
pub data Platform : Type 0 where
  none_platform windows : Platform

pub record AwsMachineImage : Type 0 where
  pub ec2_ami_id : Text
  pub platform : Platform
  pub owner_aws_account_id : Option ℕ
  pub region : Option Text
  pub aws_marketplace_image : Bool
  pub machine_image_id : ℕ
  -- the column `name` of its MachineImage
  pub name : Option Text

pub record AwsDb : Type 0 where
  pub db : Db
  pub aws_cloud_accounts : List AwsCloudAccount
  pub aws_instances : List AwsInstance
  pub aws_machine_images : List AwsMachineImage
  -- MachineImageInspectionStart, by its image
  pub inspection_starts : List ℕ

abbrev pub has_aws_account_id : Text → AwsCloudAccount → Bool
has_aws_account_id t a = text_eq a.aws_account_id t

-- `AwsCloudAccount.objects.get(aws_account_id=...)`, then `.cloud_account.get()`.
abbrev pub account_of : AwsCloudAccount → Db → Option CloudAccount
account_of a db = find (λ (c : CloudAccount). c.id == a.cloud_account_id) db.cloud_accounts

abbrev pub has_ec2_id : Text → Text → AwsInstance → Bool
has_ec2_id ec2_instance_id region i =
    text_eq i.ec2_instance_id ec2_instance_id && text_eq i.region region

abbrev pub has_ami_id : Text → AwsMachineImage → Bool
has_ami_id t i = text_eq i.ec2_ami_id t

-- `awsinstance.instance.get()`
abbrev pub instance_of : AwsInstance → Db → Option Instance
instance_of a db = find (λ (i : Instance). i.id == a.instance_id) db.instances

-- `awsmachineimage.machine_image.get()`
abbrev pub image_of : AwsMachineImage → Db → Option MachineImage
image_of a db = find (λ (i : MachineImage). i.id == a.machine_image_id) db.machine_images
