-- ===== src/Cloudtrail/Known.antt =====
-- Every image that CloudTrail's events refer to is stored after `_save_cloudtrail_activity`
-- (cloudigrade/api/clouds/aws/tasks/cloudtrail.py).
use cloudigrade.Prelude.{
  ℕ, ◌≡◌, refl, ◌∙◌, Bool, true, false, ◌&&◌, ◌||◌, not, Option, none, some, List, [], ◌∷◌, ◌++◌,
  map, arith, any, any-append, select, Text, text_eq, text_eq_iff, text_eq_sym, option_eq,
  is_in_texts, is_some, inl, inr, Bool-cases, bind-some, some-inj,
}
use cloudigrade.Orm.{Orm}
use cloudigrade.Aws.Tables.{AwsMachineImage, AwsDb}
use cloudigrade.Aws.Images.{ImageNames}
use cloudigrade.Aws.Instances.{InstanceData}
use cloudigrade.Cloudtrail.Records.{Dates, CloudTrailInstanceEvent, CloudTrailImageTagEvent}
use cloudigrade.Cloudtrail.Loading.{lookup, add_text, is_known_image}
use cloudigrade.Cloudtrail.Tags.{
  update_images_with_openshift_tag_changes, update_images_with_rhel_tag_changes,
}
use cloudigrade.Cloudtrail.Saving.{
  Images, Detected, has_accounts, has_items, account_ids, detected, event_groups, known_texts,
  seen_ami_ids, find_unavailable_ami_ids, save_images, create_stubs, save_groups, save_all,
  save_cloudtrail_activity,
}
use cloudigrade.Cloudtrail.Stored.{create_stubs-known, save_images-known, save_groups-keeps}

abbrev pub is_text : Text → Option Text → Bool
is_text i t = option_eq text_eq t (some i)

is_in_texts-add_text :
    (i t : Text) (ts : List Text)
    → is_in_texts i (add_text t ts) ≡ (text_eq t i || is_in_texts i ts)
is_in_texts-add_text i t ts = elim (Bool-cases (text_eq t i)) [
  | inl e ↦ let same : t ≡ i = (text_eq_iff t i).0 e in rw same (ground (arith, text_eq_sym i i))
  | inr e ↦ ground (arith, text_eq_sym i t)
]

is_in_texts-known_texts :
    (i : Text) (ts : List (Option Text)) → is_in_texts i (known_texts ts) ≡ any (is_text i) ts
unfolding known_texts
is_in_texts-known_texts i [] = refl
is_in_texts-known_texts i (none ∷ ts) = is_in_texts-known_texts i ts
is_in_texts-known_texts i (some t ∷ ts) =
    is_in_texts-add_text i t (known_texts ts) ∙ ground (arith, is_in_texts-known_texts i ts)

is_in_texts-select :
    (i : Text) (p : Text → Bool) (ts : List Text)
    → is_in_texts i (select p ts) ≡ (is_in_texts i ts && p i)
is_in_texts-select i p [] = refl
is_in_texts-select i p (t ∷ ts) = elim (Bool-cases (text_eq i t)) [
  | inl e ↦
      let same : i ≡ t = (text_eq_iff i t).0 e in ground (arith, is_in_texts-select i p ts, same)
  | inr e ↦ ground (arith, is_in_texts-select i p ts, e)
]

any-map_option :
    {A : Type 0} (p : Option Text → Bool) (f : A → Option Text) (xs : List A)
    → any p (map f xs) ≡ any (λ x. p (f x)) xs
any-map_option p f [] = refl
any-map_option p f (x ∷ xs) = ground (arith, any-map_option p f xs)

-- The image is one of a described instance, of a tag event or of an instance event.
abbrev pub is_referred :
    Text
    → List (Text × InstanceData)
    → List CloudTrailImageTagEvent
    → List CloudTrailInstanceEvent
    → Bool
is_referred i described tags events =
    any (λ (d : Text × InstanceData). is_text i d.1.image_id) described
    || (any (λ (t : CloudTrailImageTagEvent). text_eq t.ec2_ami_id i) tags
        || any (λ (e : CloudTrailInstanceEvent). is_text i e.ec2_ami_id) events)

is_in_texts-seen_ami_ids :
    (i : Text) (described : List (Text × InstanceData)) (tags : List CloudTrailImageTagEvent)
    (events : List CloudTrailInstanceEvent)
    → is_in_texts i (seen_ami_ids described tags events) ≡ is_referred i described tags events
unfolding seen_ami_ids
is_in_texts-seen_ami_ids i described tags events =
    is_in_texts-known_texts i (
      map (λ (d : Text × InstanceData). d.1.image_id) described
      ++ (map (λ (t : CloudTrailImageTagEvent). some t.ec2_ami_id) tags
          ++ map (λ (e : CloudTrailInstanceEvent). e.ec2_ami_id) events))
    ∙ any-append (is_text i) (map (λ (d : Text × InstanceData). d.1.image_id) described) (
        map (λ (t : CloudTrailImageTagEvent). some t.ec2_ami_id) tags
        ++ map (λ (e : CloudTrailInstanceEvent). e.ec2_ami_id) events)
    ∙ ground (
      arith,
      any-map_option (is_text i) (λ (d : Text × InstanceData). d.1.image_id) described,
      any-append (is_text i) (map (λ (t : CloudTrailImageTagEvent). some t.ec2_ami_id) tags)
          (map (λ (e : CloudTrailInstanceEvent). e.ec2_ami_id) events),
      any-map_option (is_text i) (λ (t : CloudTrailImageTagEvent). some t.ec2_ami_id) tags,
      any-map_option (is_text i) (λ (e : CloudTrailInstanceEvent). e.ec2_ami_id) events,
    )

-- The unavailable images are those that are referred to, not described and not stored.
pub find_unavailable_ami_ids-exact :
    (i : Text) (w : AwsDb) (described : List (Text × InstanceData)) (images : Images)
    (tags : List CloudTrailImageTagEvent) (events : List CloudTrailInstanceEvent)
    → is_in_texts i (find_unavailable_ami_ids w described images tags events) ≡ (
        is_referred i described tags events
        && (not (is_some (lookup i images)) && not (is_known_image w i)))
unfolding find_unavailable_ami_ids
find_unavailable_ami_ids-exact i w described images tags events =
    is_in_texts-select i _ (seen_ami_ids described tags events)
    ∙ rw (is_in_texts-seen_ami_ids i described tags events) refl

any_text-none : (i : Text) (ts : List Text) → any (λ _. true) ts ≡ false → is_in_texts i ts ≡ false
any_text-none i [] h = refl
any_text-none i (t ∷ ts) h = absurd (cc)

any_image-none :
    (i : Text) (images : Images)
    → any (λ _. true) images ≡ false
    → is_some (lookup i images) ≡ false
any_image-none i [] h = refl
any_image-none i (t ∷ ts) h = absurd (cc)

module _ (orm : Orm) (names : ImageNames) (dates : Dates) (now : ℕ) (is_inspected_object : Bool)
    (i : Text) where
  save_all-known :
      (found : Detected) (events : List CloudTrailInstanceEvent)
      (described : List (Text × InstanceData)) (images : Images) (unavailable : List Text)
      (w : AwsDb) (saved : List (Text × AwsMachineImage) × AwsDb)
      → save_all orm names dates now is_inspected_object found events described images unavailable w
        ≡ some saved
      → (is_known_image w i || (is_some (lookup i images) || is_in_texts i unavailable)) ≡ true
      → is_known_image saved.1 i ≡ true
  unfolding save_all update_images_with_openshift_tag_changes update_images_with_rhel_tag_changes
  save_all-known found events described images unavailable w saved h k =
      let (v, made, h1) =
        bind-some (save_images orm names dates now is_inspected_object found images w) _ h in
      let stubs = create_stubs orm names unavailable v.1 in
      let tagged =
        update_images_with_rhel_tag_changes found.rhel
          (update_images_with_openshift_tag_changes found.ocp stubs) in
      let (w', kept, h2) =
        bind-some
          (save_groups orm names dates now is_inspected_object described (event_groups events)
            tagged)
          _ h1 in
      let there : is_known_image tagged i ≡ true =
        create_stubs-known orm names i unavailable v.1
        ∙ ground (
          arith,
          save_images-known orm names dates now is_inspected_object i found images w v made,
        ) in
      rw (← (some-inj h2)) (
        save_groups-keeps orm names dates now is_inspected_object i described (event_groups events)
          tagged w' kept there)

  -- After the activity is saved, every image to which a described instance, a tag event or an instance
  -- event refers is stored: it was before, or it is new, or it is a stub.
  pub save_cloudtrail_activity-known :
      (events : List CloudTrailInstanceEvent) (tags : List CloudTrailImageTagEvent)
      (described : List (Text × InstanceData)) (images : Images) (w : AwsDb)
      (saved : List (Text × AwsMachineImage) × AwsDb)
      → save_cloudtrail_activity orm names dates now is_inspected_object events tags described
          images w
        ≡ some saved
      → is_referred i described tags events ≡ true
      → is_known_image saved.1 i ≡ true
  unfolding save_cloudtrail_activity
  save_cloudtrail_activity-known events tags described images w saved h k =
      let found = detected names tags images in
      let unavailable = find_unavailable_ami_ids w described images tags events in
      let missing = find_unavailable_ami_ids-exact i w described images tags events in
      elim (Bool-cases (has_accounts w (account_ids events tags))) [
        | inr e ↦ absurd (cc (rw (e, save_cloudtrail_activity) at h))
        | inl e ↦ elim (Bool-cases (has_items images unavailable found events)) [
          | inl f ↦
              save_all-known found events described images unavailable w saved
                (rw (e, f, save_cloudtrail_activity) at h) (ground (arith, missing))
          | inr f ↦
              let no_image = any_image-none i images (ground arith) in
              let no_stub = any_text-none i unavailable (ground arith) in
              rw (← (some-inj (rw (e, f, save_cloudtrail_activity) at h))) (ground (arith, missing))
        ]
      ]
