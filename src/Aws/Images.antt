-- ===== src/Aws/Images.antt =====
-- Images: `MachineImage.save` (cloudigrade/api/models.py), the properties of AwsMachineImage
-- (cloudigrade/api/clouds/aws/models.py), and how images are created
-- (cloudigrade/api/clouds/aws/util.py).
use cloudigrade.Prelude.{
  ℕ, Bool, true, false, ◌&&◌, ◌||◌, not, Option, none, some, List, [], ◌∷◌, ◌++◌, map, any, select,
  find, Text, codes, text_eq, contains, is_in_texts, ◌==◌, option_eq, if◌then◌else◌,
}
use cloudigrade.Orm.{Orm}
use cloudigrade.Models.{
  ImageStatus, pending, inspected, unavailable, ImageContent, MachineImage, Run, ConcurrentUsage,
  Db,
}
use cloudigrade.Runs.Recalculate.{is_related}
use cloudigrade.Aws.Tables.{none_platform, windows, AwsMachineImage, AwsDb, has_ami_id, image_of}

-- Python's `str.lower`, and the accounts of the settings that own Red Hat's images.
pub record ImageNames : Type 0 where
  pub lower : Text → Text
  pub rhel_images_aws_accounts : List ℕ

-- The name has the token, and a Red Hat account owns the image.
abbrev pub is_named : ImageNames → Text → AwsMachineImage → Bool
is_named names token a = elim a.name [
  | none ↦ false
  | some name ↦ contains (names.lower token) (names.lower name) && (elim a.owner_aws_account_id [
    | none ↦ false
    | some owner ↦ any (λ i. i == owner) names.rhel_images_aws_accounts
  ])
]

-- The properties `is_cloud_access` and `is_marketplace` of an AwsMachineImage.
unfoldable pub aws_content : ImageNames → AwsMachineImage → ImageContent
aws_content names a = record {
  is_cloud_access = is_named names (codes "-Access2") a;
  is_marketplace = a.aws_marketplace_image || is_named names (codes "-hourly2") a;
}

abbrev pub has_image_id : ℕ → MachineImage → Bool
has_image_id i m = m.id == i

-- The usage counts a run of the image.
abbrev pub counts_image_run : Db → ℕ → ConcurrentUsage → Bool
counts_image_run db image_id u =
    any (λ (r : Run). option_eq ◌==◌ r.machineimage_id (some image_id) && is_related r.id u) db.runs

-- `MachineImage.save` of a row that is there: the usages that count its runs are deleted.
unfoldable pub save_image : MachineImage → Db → Db
save_image image db = record db {
  usages = select (λ u. not (counts_image_run db image.id u)) db.usages;
  machine_images =
      map (λ (m : MachineImage). if m.id == image.id then image else m) db.machine_images;
}

abbrev pub new_image_id : Orm → Db → ℕ
new_image_id orm db = orm.next_id (map (λ (m : MachineImage). m.id) db.machine_images)

-- `MachineImage.objects.create` of a row with a new id, which no run has.
abbrev pub add_image : MachineImage → Db → Db
add_image image db = record db { machine_images = db.machine_images ++ image ∷ [] }

-- The values of a stub.
abbrev pub stub_image : ℕ → ImageContent → MachineImage
stub_image id content = record {
  id = id;
  inspection_json = none;
  is_encrypted = false;
  status = unavailable;
  rhel_detected_by_tag = false;
  openshift_detected = false;
  architecture = none;
  content_object = some content;
}

-- The arguments of `save_new_aws_machine_image`.
pub record NewImage : Type 0 where
  pub ami_id : Text
  pub name : Option Text
  pub owner_aws_account_id : Option ℕ
  pub rhel_detected_by_tag : Bool
  pub openshift_detected : Bool
  pub windows_detected : Bool
  pub region : Text
  pub architecture : Option Text
  pub product_code_types : List Text

abbrev pub is_marketplace_code : NewImage → Bool
is_marketplace_code new = is_in_texts (codes "marketplace") new.product_code_types

abbrev pub new_status : NewImage → ImageStatus
new_status new = if new.windows_detected || is_marketplace_code new then inspected else pending

module _ (orm : Orm) (names : ImageNames) where
  abbrev pub new_aws_image : NewImage → ℕ → AwsMachineImage
  new_aws_image new id = record {
    ec2_ami_id = new.ami_id;
    platform = if new.windows_detected then windows else none_platform;
    owner_aws_account_id = new.owner_aws_account_id;
    region = some new.region;
    aws_marketplace_image = is_marketplace_code new;
    machine_image_id = id;
    name = new.name;
  }

  abbrev pub new_machine_image : NewImage → ℕ → MachineImage
  new_machine_image new id = record {
    id = id;
    inspection_json = none;
    is_encrypted = false;
    status = new_status new;
    rhel_detected_by_tag = new.rhel_detected_by_tag;
    openshift_detected = new.openshift_detected;
    architecture = new.architecture;
    content_object = some (aws_content names (new_aws_image new id));
  }

  -- The image, whether it is new, and the tables; `none` where the image's MachineImage is missing.
  unfoldable pub save_new_aws_machine_image :
      NewImage → AwsDb → Option (AwsMachineImage × Bool × AwsDb)
  unfolding aws_content
  save_new_aws_machine_image new w = elim (find (has_ami_id new.ami_id) w.aws_machine_images) [
    | some a ↦ elim (image_of a w.db) [ none ↦ none | some m ↦ some (a, false, w) ]
    | none ↦
        let id = new_image_id orm w.db in
        some (
          new_aws_image new id,
          true,
          record w {
            db = add_image (new_machine_image new id) w.db;
            aws_machine_images = w.aws_machine_images ++ new_aws_image new id ∷ [];
          },
        )
  ]

  abbrev pub stub_aws_image : Text → Option Text → ℕ → AwsMachineImage
  stub_aws_image ami_id region id = record {
    ec2_ami_id = ami_id;
    platform = none_platform;
    owner_aws_account_id = none;
    region = region;
    aws_marketplace_image = false;
    machine_image_id = id;
    name = none;
  }

  -- A new AwsMachineImage with its UNAVAILABLE stub.
  unfoldable pub create_stub : Text → Option Text → AwsDb → AwsDb
  unfolding aws_content
  create_stub ami_id region w =
      let id = new_image_id orm w.db in
      let a = stub_aws_image ami_id region id in
      record w {
        db = add_image (stub_image id (aws_content names a)) w.db;
        aws_machine_images = w.aws_machine_images ++ a ∷ [];
      }

  -- The stub of an AwsMachineImage that has lost its MachineImage.
  unfoldable pub restore_stub : AwsMachineImage → AwsDb → AwsDb
  unfolding aws_content
  restore_stub a w =
      let id = new_image_id orm w.db in
      record w {
        db = add_image (stub_image id (aws_content names (record a { name = none }))) w.db;
        aws_machine_images =
            map
              (λ (b : AwsMachineImage).
                if text_eq b.ec2_ami_id a.ec2_ami_id
                then record b { machine_image_id = id; name = none }
                else b)
              w.aws_machine_images;
      }
