-- ===== src/Aws/Instances.antt =====
-- `save_instance` (cloudigrade/api/clouds/aws/util.py). The value `none` is an exception.
use cloudigrade.Prelude.{
  ℕ, Bool, Option, none, some, [], ◌∷◌, ◌++◌, map, any, find, Text, text_eq, ◌==◌, if◌then◌else◌,
  ◌>>=◌,
}
use cloudigrade.Orm.{Orm}
use cloudigrade.Models.{Instance, Db}
use cloudigrade.Aws.Tables.{AwsInstance, AwsDb, has_ec2_id, has_ami_id, instance_of, image_of}
use cloudigrade.Aws.Images.{ImageNames, new_image_id, create_stub, restore_stub}

-- What AWS tells of an instance: a key may be absent. `state_code` is `State.Code`.
pub record InstanceData : Type 0 where
  pub instance_id : Text
  pub image_id : Option Text
  pub instance_type : Option Text
  pub state_code : Option ℕ
  pub platform : Option Text

abbrev pub has_instance_id : ℕ → Instance → Bool
has_instance_id i k = k.id == i

abbrev pub new_instance_id : Orm → Db → ℕ
new_instance_id orm db = orm.next_id (map (λ (i : Instance). i.id) db.instances)

module _ (orm : Orm) where
  -- A new AwsInstance with its Instance. The EC2 id is unique, so where it is known in another region the
  -- INSERT fails.
  unfoldable pub create_instance : ℕ → Text → Text → AwsDb → Option (AwsInstance × AwsDb)
  create_instance account_id ec2_instance_id region w =
      if any (λ (b : AwsInstance). text_eq b.ec2_instance_id ec2_instance_id) w.aws_instances
      then none
      else let id = new_instance_id orm w.db in
        let a : AwsInstance = record {
          ec2_instance_id = ec2_instance_id;
          region = region;
          instance_id = id;
        } in
        let i : Instance = record {
          id = id;
          cloud_account_id = account_id;
          machine_image_id = none;
        } in
        some (
          a,
          record w {
            db = record w.db { instances = w.db.instances ++ i ∷ [] };
            aws_instances = w.aws_instances ++ a ∷ [];
          },
        )

  unfoldable pub get_or_create_instance : ℕ → Text → Text → AwsDb → Option (AwsInstance × AwsDb)
  unfolding create_instance
  get_or_create_instance account_id ec2_instance_id region w =
      elim (find (has_ec2_id ec2_instance_id region) w.aws_instances) [
        | some a ↦ elim (instance_of a w.db) [ none ↦ none | some _ ↦ some (a, w) ]
        | none ↦ create_instance account_id ec2_instance_id region w
      ]

  -- The id of the image's MachineImage, with a stub where the image or its MachineImage is missing.
  unfoldable pub get_or_create_image : ImageNames → Text → Text → AwsDb → ℕ × AwsDb
  unfolding create_stub restore_stub
  get_or_create_image names ami_id region w = elim (find (has_ami_id ami_id) w.aws_machine_images) [
    | none ↦ (new_image_id orm w.db, create_stub orm names ami_id (some region) w)
    | some a ↦ elim (image_of a w.db) [
      | some m ↦ (m.id, w)
      | none ↦ (new_image_id orm w.db, restore_stub orm names a w)
    ]
  ]

  abbrev pub set_machine_image : ℕ → ℕ → AwsDb → AwsDb
  set_machine_image instance_id image_id w = record w {
    db = record w.db {
      instances =
          map
            (λ (i : Instance).
              if i.id == instance_id then record i { machine_image_id = some image_id } else i)
            w.db.instances;
    };
  }

  -- The link from the instance to its image.
  unfoldable pub link_image :
      ImageNames → Text → Option Text → AwsInstance × AwsDb → AwsInstance × AwsDb
  unfolding get_or_create_image
  link_image names region none (a, w) = (a, w)
  link_image names region (some ami_id) (a, w) =
      let (image_id, w') = get_or_create_image names ami_id region w in
      (a, set_machine_image a.instance_id image_id w')

  unfoldable pub save_instance :
      ImageNames → ℕ → InstanceData → Text → AwsDb → Option (AwsInstance × AwsDb)
  unfolding get_or_create_instance link_image
  save_instance names account_id d region w =
      get_or_create_instance account_id d.instance_id region w >>= λ (found : AwsInstance × AwsDb).
      some (link_image names region d.image_id found)
