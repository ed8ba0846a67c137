-- ===== src/Cloudtrail/Stored.antt =====
-- The images that are stored after `_save_cloudtrail_activity`
-- (cloudigrade/api/clouds/aws/tasks/cloudtrail.py).
use cloudigrade.Prelude.{
  ℕ, ◌≡◌, refl, ◌∙◌, Bool, true, false, ◌||◌, Option, none, some, List, [], ◌∷◌, map, arith, any,
  find, Text, text_eq, text_eq_sym, is_in_texts, is_some, if◌then◌else◌, inl, inr, Bool-cases,
  Option-cases, bind-some, some-inj, find-exists, any-append, text_eq_iff,
}
use cloudigrade.Orm.{Orm}
use cloudigrade.Aws.Tables.{
  AwsInstance, AwsMachineImage, AwsDb, has_ec2_id, has_ami_id, has_aws_account_id, instance_of,
  account_of, image_of,
}
use cloudigrade.Aws.Images.{
  ImageNames, NewImage, new_image_id, save_new_aws_machine_image, create_stub, restore_stub,
}
use cloudigrade.Aws.Instances.{
  InstanceData, create_instance, get_or_create_instance, get_or_create_image, link_image,
  save_instance,
}
use cloudigrade.Aws.Events.{EventInfo, save_info, save_infos, sorted_infos, save_instance_events}
use cloudigrade.Cloudtrail.Records.{Dates}
use cloudigrade.Cloudtrail.Loading.{lookup, is_known_image}
use cloudigrade.Cloudtrail.Saving.{
  Images, Detected, EventGroup, described_image, group_data, build_events_info_for_saving,
  save_images, create_stubs, save_group, save_groups,
}

any-relinked_id :
    (i t : Text) (id : ℕ) (rows : List AwsMachineImage)
    → any (has_ami_id i) (
        map
          (λ (b : AwsMachineImage).
            if text_eq b.ec2_ami_id t then record b { machine_image_id = id; name = none } else b)
          rows)
      ≡ any (has_ami_id i) rows
any-relinked_id i t id [] = refl
any-relinked_id i t id (r ∷ rows) = ground (arith, any-relinked_id i t id rows)

module _ (orm : Orm) (names : ImageNames) (i : Text) where
  save_new_aws_machine_image-known :
      (new : NewImage) (w : AwsDb) (saved : AwsMachineImage × Bool × AwsDb)
      → save_new_aws_machine_image orm names new w ≡ some saved
      → is_known_image saved.2 i ≡ (is_known_image w i || text_eq new.ami_id i)
  unfolding save_new_aws_machine_image
  save_new_aws_machine_image-known new w saved h =
      elim (Option-cases (find (has_ami_id new.ami_id) w.aws_machine_images)) [
        | inl e ↦
            rw (← (some-inj (rw (e, save_new_aws_machine_image) at h)))
              (any-append (has_ami_id i) w.aws_machine_images _ ∙ ground arith)
        | inr (a, e) ↦ elim (Option-cases (image_of a w.db)) [
          | inl f ↦ absurd (cc (rw (e, f, save_new_aws_machine_image) at h))
          | inr (m, f) ↦ rw (← (some-inj (rw (e, f, save_new_aws_machine_image) at h))) (
              known_already i new.ami_id w
                (find-exists (has_ami_id new.ami_id) w.aws_machine_images e))
        ]
      ]
    where
      known_already :
          (i j : Text) (w : AwsDb)
          → is_known_image w j ≡ true
          → is_known_image w i ≡ (is_known_image w i || text_eq j i)
      known_already i j w k = elim (Bool-cases (text_eq j i)) [
        | inl e ↦ let same : j ≡ i = (text_eq_iff j i).0 e in rw (e, rw same at k) refl
        | inr e ↦ ground (arith, e)
      ]

  pub create_stubs-known :
      (ids : List Text) (w : AwsDb)
      → is_known_image (create_stubs orm names ids w) i ≡ (is_known_image w i || is_in_texts i ids)
  unfolding create_stubs create_stub
  create_stubs-known [] w = ground arith
  create_stubs-known (j ∷ ids) w =
      create_stubs-known ids (create_stub orm names j none w)
      ∙ rw (any-append (has_ami_id i) w.aws_machine_images _, text_eq_sym i j) (ground arith)

  get_or_create_image-keeps :
      (t region : Text) (w : AwsDb)
      → is_known_image w i ≡ true
      → is_known_image (get_or_create_image orm names t region w).1 i ≡ true
  unfolding get_or_create_image create_stub restore_stub
  get_or_create_image-keeps t region w h =
      elim (Option-cases (find (has_ami_id t) w.aws_machine_images)) [
        | inl e ↦
            rw (e, get_or_create_image)
              (any-append (has_ami_id i) w.aws_machine_images _ ∙ ground arith)
        | inr (a, e) ↦ elim (Option-cases (image_of a w.db)) [
          | inl f ↦
              rw (e, f, get_or_create_image)
                (any-relinked_id i a.ec2_ami_id (new_image_id orm w.db) w.aws_machine_images ∙ h)
          | inr (m, f) ↦ rw (e, f, get_or_create_image) h
        ]
      ]

  link_image-keeps :
      (region : Text) (t : Option Text) (found : AwsInstance × AwsDb)
      → is_known_image found.1 i ≡ true
      → is_known_image (link_image orm names region t found).1 i ≡ true
  unfolding link_image
  link_image-keeps region none (a, w) h = h
  link_image-keeps region (some t) (a, w) h = get_or_create_image-keeps t region w h

  get_or_create_instance-images :
      (account_id : ℕ) (ec2 region : Text) (w : AwsDb) (found : AwsInstance × AwsDb)
      → get_or_create_instance orm account_id ec2 region w ≡ some found
      → found.1.aws_machine_images ≡ w.aws_machine_images
  unfolding get_or_create_instance create_instance
  get_or_create_instance-images account_id ec2 region w found h =
      elim (Option-cases (find (has_ec2_id ec2 region) w.aws_instances)) [
        | inl e ↦
            elim (Bool-cases
              (any (λ (b : AwsInstance). text_eq b.ec2_instance_id ec2) w.aws_instances)) [
                | inl f ↦
                    absurd (cc (rw (f, create_instance) at (rw (e, get_or_create_instance) at h)))
                | inr f ↦
                    rw
                      (← (
                        some-inj
                          (rw (f, create_instance) at (rw (e, get_or_create_instance) at h))))
                      refl
              ]
        | inr (a, e) ↦ elim (Option-cases (instance_of a w.db)) [
          | inl f ↦ absurd (cc (rw (e, f, get_or_create_instance) at h))
          | inr (m, f) ↦ rw (← (some-inj (rw (e, f, get_or_create_instance) at h))) refl
        ]
      ]

  save_instance-keeps :
      (account_id : ℕ) (d : InstanceData) (region : Text) (w : AwsDb) (saved : AwsInstance × AwsDb)
      → save_instance orm names account_id d region w ≡ some saved
      → is_known_image w i ≡ true
      → is_known_image saved.1 i ≡ true
  unfolding save_instance
  save_instance-keeps account_id d region w saved h k =
      let (found, made, linked) =
        bind-some (get_or_create_instance orm account_id d.instance_id region w) _ h in
      rw (← (some-inj linked)) (
        link_image-keeps region d.image_id found
          (rw (get_or_create_instance-images account_id d.instance_id region w found made) k))

save_infos-images :
    (orm : Orm) (now : ℕ) (dates : Dates) (a : AwsInstance) (d : InstanceData) (es : List EventInfo)
    (s s' : Bool × AwsDb)
    → save_infos orm now dates a d es s ≡ some s'
    → s'.1.aws_machine_images ≡ s.1.aws_machine_images
unfolding save_infos save_info
save_infos-images orm now dates a d [] s s' h = rw (← (some-inj h)) refl
save_infos-images orm now dates a d (e ∷ es) (have, w) s' h =
    let (t, made, rest) = bind-some (save_info orm now dates a d e (have, w)) _ h in
    let (time, _, k) = bind-some (dates.parse e.occurred_at) _ made in
    let (j, _, k') = bind-some (instance_of a w.db) _ k in
    save_infos-images orm now dates a d es t s' rest ∙ rw (← (some-inj k')) refl

module _ (orm : Orm) (names : ImageNames) (dates : Dates) (now : ℕ) (is_inspected_object : Bool)
    (i : Text) where
  pub save_images-known :
      (found : Detected) (images : Images) (w : AwsDb)
      (saved : List (Text × AwsMachineImage) × AwsDb)
      → save_images orm names dates now is_inspected_object found images w ≡ some saved
      → is_known_image saved.1 i ≡ (is_known_image w i || is_some (lookup i images))
  unfolding save_images
  save_images-known found [] w saved h = rw (← (some-inj h)) (ground arith)
  save_images-known found ((j, (region, im)) ∷ images) w saved h =
      let (one, made, k) =
        bind-some (save_new_aws_machine_image orm names (described_image found j region im) w) _
          h in
      let (m, _, k') = bind-some (image_of one.0 one.2.db) _ k in
      let (rest, later, k'') =
        bind-some (save_images orm names dates now is_inspected_object found images one.2) _ k' in
      let first =
        save_new_aws_machine_image-known orm names i (described_image found j region im) w one
          made in
      let others = save_images-known found images one.2 rest later in
      rw (← (some-inj k'')) (others ∙ ground (arith, first))

  save_group-keeps :
      (described : List (Text × InstanceData)) (g : EventGroup) (w w' : AwsDb)
      → save_group orm names dates now is_inspected_object described g w ≡ some w'
      → is_known_image w i ≡ true
      → is_known_image w' i ≡ true
  unfolding save_group save_instance_events
  save_group-keeps described g w w' h k =
      let d = group_data described g in
      let (a, _, h1) =
        bind-some (find (has_aws_account_id g.head.aws_account_id) w.aws_cloud_accounts) _ h in
      let (account, _, h2) = bind-some (account_of a w.db) _ h1 in
      let (saved, made, h3) =
        bind-some (save_instance orm names account.id d g.head.region w) _ h2 in
      let (infos, _, h4) = bind-some (build_events_info_for_saving dates account g.events) _ h3 in
      let (s, recorded, h5) =
        bind-some (save_infos orm now dates saved.0 d (sorted_infos infos) (false, saved.1)) _ h4 in
      let kept = save_instance-keeps orm names i account.id d g.head.region w saved made k in
      let same =
        save_infos-images orm now dates saved.0 d (sorted_infos infos) (false, saved.1) s
          recorded in
      rw (← (some-inj h5)) (rw same kept)

  pub save_groups-keeps :
      (described : List (Text × InstanceData)) (gs : List EventGroup) (w w' : AwsDb)
      → save_groups orm names dates now is_inspected_object described gs w ≡ some w'
      → is_known_image w i ≡ true
      → is_known_image w' i ≡ true
  unfolding save_groups
  save_groups-keeps described [] w w' h k = rw (← (some-inj h)) k
  save_groups-keeps described (g ∷ gs) w w' h k =
      let (v, made, rest) =
        bind-some (save_group orm names dates now is_inspected_object described g w) _ h in
      save_groups-keeps described gs v w' rest (save_group-keeps described g w v made k)
