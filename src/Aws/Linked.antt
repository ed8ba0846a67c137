-- ===== src/Aws/Linked.antt =====
-- What `save_instance` (cloudigrade/api/clouds/aws/util.py) leaves in the tables.
use cloudigrade.Prelude.{
  ℕ, ◌≡◌, refl, ◌∙◌, Bool, true, ◌&&◌, none, some, List, [], ◌∷◌, map, any, find, arith, Text,
  text_eq, text_eq_refl, option_eq, ◌==◌, if◌then◌else◌, inl, inr, Bool-cases, Option-cases,
  bind-some, some-inj, find-holds, find-exists, find-passes, text_eq_iff, any-append,
}
use mathlib.Core.Path.{subst}
use cloudigrade.Orm.{Orm}
use cloudigrade.Models.{Instance}
use cloudigrade.Aws.Tables.{
  AwsInstance, AwsMachineImage, AwsDb, has_ec2_id, has_ami_id, instance_of, image_of,
}
use cloudigrade.Aws.Images.{ImageNames, has_image_id, new_image_id, create_stub, restore_stub}
use cloudigrade.Aws.Instances.{
  InstanceData, has_instance_id, new_instance_id, create_instance, get_or_create_instance,
  get_or_create_image, link_image, save_instance,
}

-- The AMI's row refers to the image, which is stored.
abbrev pub is_image_row : Text → ℕ → AwsMachineImage → Bool
is_image_row ami_id image_id a = has_ami_id ami_id a && a.machine_image_id == image_id

abbrev pub IsImageOf : Text → ℕ → AwsDb → Type 0
IsImageOf ami_id image_id w =
    (any (is_image_row ami_id image_id) w.aws_machine_images ≡ true)
    × (any (has_image_id image_id) w.db.machine_images ≡ true)

-- The instance is stored with the image.
abbrev pub is_linked : ℕ → ℕ → Instance → Bool
is_linked instance_id image_id i =
    i.id == instance_id && option_eq ◌==◌ i.machine_image_id (some image_id)

any-relinked :
    (ami_id : Text) (id : ℕ) (rows : List AwsMachineImage)
    → any (has_ami_id ami_id) rows ≡ true
    → any (is_image_row ami_id id) (
        map
          (λ (b : AwsMachineImage).
            if text_eq b.ec2_ami_id ami_id
            then record b { machine_image_id = id; name = none }
            else b)
          rows)
      ≡ true
any-relinked ami_id id [] h = absurd (cc)
any-relinked ami_id id (r ∷ rows) h = ground (arith, any-relinked ami_id id rows)

any-set_machine_image :
    (j id : ℕ) (rows : List Instance)
    → any (has_instance_id j) rows ≡ true
    → any (is_linked j id) (
        map
          (λ (i : Instance). if i.id == j then record i { machine_image_id = some id } else i)
          rows)
      ≡ true
any-set_machine_image j id [] h = absurd (cc)
any-set_machine_image j id (r ∷ rows) h = ground (arith, any-set_machine_image j id rows)

-- The AwsInstance and its Instance are stored.
abbrev pub IsInstanceOf : Text → Text → AwsInstance × AwsDb → Type 0
IsInstanceOf ec2 region (a, w) =
    (any (has_ec2_id ec2 region) w.aws_instances ≡ true)
    × (has_ec2_id ec2 region a ≡ true)
    × (any (has_instance_id a.instance_id) w.db.instances ≡ true)

-- The AwsInstance is stored, and its stored Instance has the stored image of the AMI.
abbrev pub IsLinkedInstance : Text → Text → Text → AwsInstance × AwsDb → Type 0
IsLinkedInstance ec2 region ami_id (a, w) =
    (any (has_ec2_id ec2 region) w.aws_instances ≡ true)
    × (has_ec2_id ec2 region a ≡ true)
    × ((image_id : ℕ) × IsImageOf ami_id image_id w
        × (any (is_linked a.instance_id image_id) w.db.instances ≡ true))

module _ (orm : Orm) where
  create_instance-IsInstanceOf :
      (account_id : ℕ) (ec2 region : Text) (w : AwsDb) (made : AwsInstance × AwsDb)
      → create_instance orm account_id ec2 region w ≡ some made
      → IsInstanceOf ec2 region made
  unfolding create_instance
  create_instance-IsInstanceOf account_id ec2 region w made h =
      elim (Bool-cases (any (λ (b : AwsInstance). text_eq b.ec2_instance_id ec2) w.aws_instances)) [
        | inl e ↦ absurd (cc (rw (e, create_instance) at h))
        | inr e ↦
            let id = new_instance_id orm w.db in
            let a : AwsInstance = record {
              ec2_instance_id = ec2;
              region = region;
              instance_id = id;
            } in
            let i : Instance = record {
              id = id;
              cloud_account_id = account_id;
              machine_image_id = none;
            } in
            subst (IsInstanceOf ec2 region) (some-inj (rw (e, create_instance) at h)) (
              any-append (has_ec2_id ec2 region) w.aws_instances (a ∷ [])
                  ∙ ground (arith, text_eq_refl ec2, text_eq_refl region),
              ground (arith, text_eq_refl ec2, text_eq_refl region),
              any-append (has_instance_id id) w.db.instances (i ∷ []) ∙ ground arith,
            )
      ]

  get_or_create_instance-IsInstanceOf :
      (account_id : ℕ) (ec2 region : Text) (w : AwsDb) (made : AwsInstance × AwsDb)
      → get_or_create_instance orm account_id ec2 region w ≡ some made
      → IsInstanceOf ec2 region made
  unfolding get_or_create_instance
  get_or_create_instance-IsInstanceOf account_id ec2 region w made h =
      elim (Option-cases (find (has_ec2_id ec2 region) w.aws_instances)) [
        | inl e ↦
            create_instance-IsInstanceOf account_id ec2 region w made
              (rw (e, get_or_create_instance) at h)
        | inr (a, e) ↦ elim (Option-cases (instance_of a w.db)) [
          | inl f ↦ absurd (cc (rw (e, f, get_or_create_instance) at h))
          | inr (i, f) ↦
              subst (IsInstanceOf ec2 region) (some-inj (rw (e, f, get_or_create_instance) at h)) (
                find-exists (has_ec2_id ec2 region) w.aws_instances e,
                find-holds (has_ec2_id ec2 region) w.aws_instances e,
                find-exists (has_instance_id a.instance_id) w.db.instances f,
              )
        ]
      ]

  get_or_create_image-IsImageOf :
      (names : ImageNames) (ami_id region : Text) (w : AwsDb)
      → let (image_id, w') = get_or_create_image orm names ami_id region w in
        IsImageOf ami_id image_id w'
        × (w'.db.instances ≡ w.db.instances)
        × (w'.aws_instances ≡ w.aws_instances)
  unfolding get_or_create_image create_stub restore_stub
  get_or_create_image-IsImageOf names ami_id region w =
      let id = new_image_id orm w.db in
      elim (Option-cases (find (has_ami_id ami_id) w.aws_machine_images)) [
        | inl e ↦
            rw (e, get_or_create_image)
              (
                (
                  any-append (is_image_row ami_id id) w.aws_machine_images _
                      ∙ ground (arith, text_eq_refl ami_id),
                  any-append (has_image_id id) w.db.machine_images _ ∙ ground arith,
                ),
                refl,
                refl,
              )
        | inr (a, e) ↦
            let same : a.ec2_ami_id ≡ ami_id =
              (text_eq_iff a.ec2_ami_id ami_id).0
                (find-holds (has_ami_id ami_id) w.aws_machine_images e) in
            elim (Option-cases (image_of a w.db)) [
              | inl f ↦
                  rw (e, f, get_or_create_image)
                    (
                      (
                        rw same (
                            any-relinked ami_id id w.aws_machine_images
                              (find-exists (has_ami_id ami_id) w.aws_machine_images e)),
                        any-append (has_image_id id) w.db.machine_images _ ∙ ground arith,
                      ),
                      refl,
                      refl,
                    )
              | inr (m, f) ↦
                  rw (e, f, get_or_create_image)
                    (
                      (
                        find-passes (has_ami_id ami_id) (is_image_row ami_id m.id)
                            w.aws_machine_images e
                            (let held =
                                find-holds (has_image_id a.machine_image_id) w.db.machine_images
                                  f in
                              let found = find-holds (has_ami_id ami_id) w.aws_machine_images e in
                              ground arith),
                        find-passes (has_image_id a.machine_image_id) (has_image_id m.id)
                            w.db.machine_images f (ground arith),
                      ),
                      refl,
                      refl,
                    )
            ]
      ]

  -- After an instance of a known AMI id is saved, its AwsInstance and Instance are stored, and the Instance
  -- has the stored image of the AMI.
  pub save_instance-links :
      (names : ImageNames) (account_id : ℕ) (d : InstanceData) (region ami_id : Text) (w w' : AwsDb)
      (a : AwsInstance)
      → d.image_id ≡ some ami_id
      → save_instance orm names account_id d region w ≡ some (a, w')
      → IsLinkedInstance d.instance_id region ami_id (a, w')
  unfolding save_instance link_image
  save_instance-links names account_id d region ami_id w w' a has_image h =
      let ((b, v), made, linked) =
        bind-some (get_or_create_instance orm account_id d.instance_id region w) _ h in
      let (stored, of_id, has_row) =
        get_or_create_instance-IsInstanceOf account_id d.instance_id region w (b, v) made in
      let image_id = (get_or_create_image orm names ami_id region v).0 in
      let u = (get_or_create_image orm names ami_id region v).1 in
      let (is_image, same_instances, same_aws) =
        get_or_create_image-IsImageOf names ami_id region v in
      let result : link_image orm names region (some ami_id) (b, v) ≡ (a, w') =
        rw has_image at (some-inj linked) in
      subst (IsLinkedInstance d.instance_id region ami_id) result (
        rw same_aws stored,
        of_id,
        (
          image_id,
          is_image,
          any-set_machine_image b.instance_id image_id u.db.instances (rw same_instances has_row),
        ),
      )
