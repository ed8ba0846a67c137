-- ===== src/Cloudtrail/Interleaved.antt =====
-- Changes of an image's tag between which another image's change stands
-- (`_extract_ami_ids_by_tag_change`, cloudigrade/api/clouds/aws/tasks/cloudtrail.py).
use cloudigrade.Prelude.{
  ◌≡◌, refl, ◌∙◌, true, false, not, some, List, [], ◌∷◌, Text, text_eq, text_eq_refl, text_eq_sym,
  is_in_texts, Bool-cases, inl, inr,
}
use cloudigrade.Cloudtrail.Tags.{
  TagEvent, Group, join_group, groupby, sorted_by_time, extract_ami_ids_by_tag_change,
}
use cloudigrade.Cloudtrail.Changes.{has_tag, last_change, first_change, extract-Says}

-- The first group is of the first event's image.
groupby_head :
    (x : TagEvent) (es : List TagEvent)
    → (g : Group) × (gs : List Group) × (groupby (x ∷ es) ≡ g ∷ gs) × (g.ec2_ami_id ≡ x.ec2_ami_id)
unfolding groupby
groupby_head x es = join_head x (groupby es)
  where
    join_head :
        (x : TagEvent) (gs : List Group)
        → (h : Group) × (hs : List Group) × (join_group x gs ≡ h ∷ hs)
          × (h.ec2_ami_id ≡ x.ec2_ami_id)
    join_head x [] = (record { ec2_ami_id = x.ec2_ami_id; events = x ∷ [] }, [], refl, refl)
    join_head x (g ∷ gs) = elim (Bool-cases (text_eq x.ec2_ami_id g.ec2_ami_id)) [
      | inl e ↦ (record { ec2_ami_id = x.ec2_ami_id; events = x ∷ g.events }, gs, rw e refl, refl)
      | inr e ↦ (record { ec2_ami_id = x.ec2_ami_id; events = x ∷ [] }, g ∷ gs, rw e refl, refl)
    ]

last_change_single :
    (tag : Text) (e : TagEvent) → has_tag tag e ≡ true → last_change tag (e ∷ []) ≡ some e
unfolding last_change sorted_by_time
last_change_single tag e h = rw h refl

module _ (tag : Text) (e x : TagEvent) (es : List TagEvent) (tagged : has_tag tag e ≡ true)
    (other : text_eq x.ec2_ami_id e.ec2_ami_id ≡ false) where
  interleaved-first : first_change tag e.ec2_ami_id (groupby (e ∷ x ∷ es)) ≡ some e
  unfolding first_change groupby
  interleaved-first =
      let (g, gs, made, same) = groupby_head x es in
      let apart : text_eq e.ec2_ami_id g.ec2_ami_id ≡ false =
        rw same (text_eq_sym e.ec2_ami_id x.ec2_ami_id ∙ other) in
      rw
        (
          made,
          groupby,
          apart,
          text_eq_refl e.ec2_ami_id,
          first_change,
          last_change_single tag e tagged,
        )
        refl

  -- Where the first event is a change of the tag of an image and the second is of another image, the
  -- first one decides for its image, whatever later events there are.
  pub extract_ami_ids_by_tag_change_interleaved :
      let c = extract_ami_ids_by_tag_change (e ∷ x ∷ es) tag in
      (is_in_texts e.ec2_ami_id c.tagged_ami_ids ≡ e.is_present)
      × (is_in_texts e.ec2_ami_id c.untagged_ami_ids ≡ not e.is_present)
  extract_ami_ids_by_tag_change_interleaved =
      rw interleaved-first at (extract-Says tag e.ec2_ami_id (e ∷ x ∷ es))
