-- ===== src/Cloudtrail/Changes.antt =====
-- Which change of a tag counts for an image (`_extract_ami_ids_by_tag_change`,
-- cloudigrade/api/clouds/aws/tasks/cloudtrail.py).
use cloudigrade.Prelude.{
  ◌≡◌, refl, ◌∙◌, Bool, true, false, ◌&&◌, ◌||◌, not, Option, none, some, List, [], ◌∷◌, arith,
  first, select, Text, text_eq, text_eq_iff, text_eq_refl, text_eq_sym, is_in_texts, if◌then◌else◌,
  inl, inr, Bool-cases, Option-cases,
}
use cloudigrade.Cloudtrail.Tags.{
  TagEvent, Group, groupby, reversed, sorted_by_time, TagChanges, is_decided, decide, decide_all,
  decide_groups, extract_ami_ids_by_tag_change,
}

abbrev pub has_tag : Text → TagEvent → Bool
has_tag tag e = text_eq e.tag tag

-- The last of the events with the tag, in the order of time.
unfoldable pub last_change : Text → List TagEvent → Option TagEvent
last_change tag es = first (reversed (sorted_by_time (select (has_tag tag) es)) [])

abbrev pub or_else : Option TagEvent → Option TagEvent → Option TagEvent
or_else none b = b
or_else (some a) b = some a

-- The last change of the first group of the image that has one.
unfoldable pub first_change : Text → Text → List Group → Option TagEvent
unfolding last_change
first_change tag i [] = none
first_change tag i (g ∷ gs) =
    if text_eq g.ec2_ami_id i
    then or_else (last_change tag g.events) (first_change tag i gs)
    else first_change tag i gs

abbrev pub is_creation : Option TagEvent → Bool
is_creation none = false
is_creation (some e) = e.is_present

abbrev pub is_deletion : Option TagEvent → Bool
is_deletion none = false
is_deletion (some e) = not e.is_present

-- What the sets say of the image: `create` and `delete`.
abbrev pub Says : Text → TagChanges → Bool → Bool → Type 0
Says i c create delete =
    (is_in_texts i c.tagged_ami_ids ≡ create) × (is_in_texts i c.untagged_ami_ids ≡ delete)

-- An image that is decided stays as it is.
decide_all_decided :
    (i : Text) (es : List TagEvent) (c : TagChanges) → is_decided i c ≡ true → decide_all i es c ≡ c
unfolding decide_all
decide_all_decided i [] c h = refl
decide_all_decided i (e ∷ es) c h = rw h (decide_all_decided i es c h)

decide-Says :
    (i : Text) (e : TagEvent) (c : TagChanges)
    → is_decided i c ≡ false
    → Says i (decide i e c) e.is_present (not e.is_present)
unfolding decide
decide-Says i e c h = (ground (arith, text_eq_refl i), ground (arith, text_eq_refl i))

decide_other :
    (i j : Text) (e : TagEvent) (c : TagChanges)
    → text_eq i j ≡ false
    → Says j (decide i e c) (is_in_texts j c.tagged_ami_ids) (is_in_texts j c.untagged_ami_ids)
unfolding decide
decide_other i j e c h =
    let different : text_eq j i ≡ false = text_eq_sym j i ∙ h in (ground arith, ground arith)

decide_all-Says :
    (i : Text) (es : List TagEvent) (c : TagChanges)
    → is_decided i c ≡ false
    → Says i (decide_all i es c) (is_creation (first es)) (is_deletion (first es))
unfolding decide_all
decide_all-Says i [] c h = ground arith
decide_all-Says i (e ∷ es) c h =
    let said = decide-Says i e c h in
    rw (decide_all_decided i es (decide i e c) (ground arith)) said

decide_all_other :
    (i j : Text) (es : List TagEvent) (c : TagChanges)
    → text_eq i j ≡ false
    → Says j (decide_all i es c) (is_in_texts j c.tagged_ami_ids) (is_in_texts j c.untagged_ami_ids)
unfolding decide_all
decide_all_other i j [] c h = (refl, refl)
decide_all_other i j (e ∷ es) c h =
    let one = decide_other i j e c h in
    let rest = decide_all_other i j es (decide i e c) h in (rest.0 ∙ one.0, rest.1 ∙ one.1)

abbrev changes_in : Text → Group → List TagEvent
changes_in tag g = reversed (sorted_by_time (select (has_tag tag) g.events)) []

decide_groups_decided :
    (tag i : Text) (gs : List Group) (c : TagChanges) (create delete : Bool)
    → Says i c create delete
    → (create || delete) ≡ true
    → Says i (decide_groups tag gs c) create delete
unfolding decide_groups
decide_groups_decided tag i [] c create delete said h = said
decide_groups_decided tag i (g ∷ gs) c create delete said h =
    decide_groups_decided tag i gs (decide_all g.ec2_ami_id (changes_in tag g) c) create delete
      (elim (Bool-cases (text_eq g.ec2_ami_id i)) [
        | inl e ↦
            let same : g.ec2_ami_id ≡ i = (text_eq_iff g.ec2_ami_id i).0 e in
            rw (same, decide_all_decided i (changes_in tag g) c (ground arith)) said
        | inr e ↦
            let kept = decide_all_other g.ec2_ami_id i (changes_in tag g) c e in
            (kept.0 ∙ said.0, kept.1 ∙ said.1)
      ])
      h

decide_groups-Says :
    (tag i : Text) (gs : List Group) (c : TagChanges)
    → Says i c false false
    → Says i
        (decide_groups tag gs c)
        (is_creation (first_change tag i gs))
        (is_deletion (first_change tag i gs))
unfolding decide_groups first_change
decide_groups-Says tag i [] c said = said
decide_groups-Says tag i (g ∷ gs) c said = elim (Bool-cases (text_eq g.ec2_ami_id i)) [
  | inr e ↦
      let kept = decide_all_other g.ec2_ami_id i (changes_in tag g) c e in
      rw (e, first_change)
        (decide_groups-Says tag i gs (decide_all g.ec2_ami_id (changes_in tag g) c)
          (kept.0 ∙ said.0, kept.1 ∙ said.1))
  | inl e ↦
      let same : g.ec2_ami_id ≡ i = (text_eq_iff g.ec2_ami_id i).0 e in
      let made = decide_all-Says i (changes_in tag g) c (ground arith) in
      elim (Option-cases (last_change tag g.events)) [
        | inl f ↦
            rw (e, f, first_change)
              (decide_groups-Says tag i gs (decide_all g.ec2_ami_id (changes_in tag g) c)
                (rw same (rw f at made)))
        | inr (x, f) ↦
            rw (e, f, first_change)
              (decide_groups_decided tag i gs (decide_all g.ec2_ami_id (changes_in tag g) c)
                x.is_present (not x.is_present) (rw same (rw f at made)) (ground arith))
      ]
]

-- What the whole function says of an image.
pub extract-Says :
    (tag i : Text) (es : List TagEvent)
    → Says i
        (extract_ami_ids_by_tag_change es tag)
        (is_creation (first_change tag i (groupby es)))
        (is_deletion (first_change tag i (groupby es)))
unfolding extract_ami_ids_by_tag_change
extract-Says tag i es =
    decide_groups-Says tag i (groupby es) (record { tagged_ami_ids = []; untagged_ami_ids = [] })
      (refl, refl)

creation_or_deletion : (o : Option TagEvent) → (is_creation o && is_deletion o) ≡ false
creation_or_deletion none = refl
creation_or_deletion (some e) = ground arith

-- No image is at once among the tagged and among the untagged.
pub extract_ami_ids_by_tag_change-disjoint :
    (tag i : Text) (es : List TagEvent)
    → let c = extract_ami_ids_by_tag_change es tag in
      (is_in_texts i c.tagged_ami_ids && is_in_texts i c.untagged_ami_ids) ≡ false
extract_ami_ids_by_tag_change-disjoint tag i es =
    let said = extract-Says tag i es in
    rw (said.0, said.1) (creation_or_deletion (first_change tag i (groupby es)))
