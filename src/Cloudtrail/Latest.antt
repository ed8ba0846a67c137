-- ===== src/Cloudtrail/Latest.antt =====
-- The latest change of an image's tag is the one that counts, where the image's events stand together
-- (`_extract_ami_ids_by_tag_change`, cloudigrade/api/clouds/aws/tasks/cloudtrail.py).
use cloudigrade.Prelude.{
  ◌≡◌, refl, sym, ap, ◌∙◌, Bool, true, false, ◌&&◌, ◌||◌, not, Option, none, some, List, [], ◌∷◌,
  arith, any, any-select, first, select, Text, text_eq, text_eq_iff, text_le, text_le_refl,
  text_le_total, text_le_trans, if◌then◌else◌, inl, inr, ◌⊎◌, Bool-cases, In, here, select-In,
  any-intro, any-false, is_in_texts,
}
use cloudigrade.Cloudtrail.Tags.{
  TagEvent, Group, join_group, groupby, reversed, insert_by_time, sorted_by_time,
  extract_ami_ids_by_tag_change,
}
use cloudigrade.Cloudtrail.Changes.{has_tag, last_change, or_else, first_change, extract-Says}

abbrev last : List TagEvent → Option TagEvent
last [] = none
last (x ∷ []) = some x
last (x ∷ y ∷ ys) = last (y ∷ ys)

first-reversed :
    (e : TagEvent) (es acc : List TagEvent) → first (reversed (e ∷ es) acc) ≡ last (e ∷ es)
first-reversed e [] acc = refl
first-reversed e (f ∷ fs) acc = first-reversed f fs (e ∷ acc)

last-cons : (f y : TagEvent) (l : List TagEvent) → last l ≡ some y → last (f ∷ l) ≡ some y
last-cons f y [] h = absurd (cc)
last-cons f y (x ∷ l) h = h

-- What no row passes, the last one does not.
last-any :
    (p : TagEvent → Bool) (l : List TagEvent) (y : TagEvent)
    → last l ≡ some y
    → any p l ≡ false
    → p y ≡ false
last-any p [] y h k = absurd (cc)
last-any p (x ∷ []) y h k = ground arith
last-any p (x ∷ z ∷ l) y h k = last-any p (z ∷ l) y h (ground arith)

any-insert_by_time :
    (p : TagEvent → Bool) (e : TagEvent) (l : List TagEvent)
    → any p (insert_by_time e l) ≡ p e || any p l
unfolding insert_by_time
any-insert_by_time p e [] = refl
any-insert_by_time p e (f ∷ l) = ground (arith, any-insert_by_time p e l)

any-sorted_by_time : (p : TagEvent → Bool) (l : List TagEvent) → any p (sorted_by_time l) ≡ any p l
unfolding sorted_by_time
any-sorted_by_time p [] = refl
any-sorted_by_time p (e ∷ l) =
    any-insert_by_time p e (sorted_by_time l) ∙ ground (arith, any-sorted_by_time p l)

abbrev is_later : TagEvent → TagEvent → Bool
is_later y x = not (text_le x.occurred_at y.occurred_at)

-- The last event of the list, which no event of it is later than.
abbrev IsLast : List TagEvent → TagEvent → Type 0
IsLast l y = (last l ≡ some y) × (any (is_later y) l ≡ false)

insert_by_time-IsLast :
    (e : TagEvent) (l : List TagEvent)
    → (l ≡ []) ⊎ ((y : TagEvent) × IsLast l y)
    → (z : TagEvent) × IsLast (insert_by_time e l) z
unfolding insert_by_time
insert_by_time-IsLast e [] h = (e, (refl, ground (arith, text_le_refl e.occurred_at)))
insert_by_time-IsLast e (f ∷ l) (inl h) = absurd (cc)
insert_by_time-IsLast e (f ∷ []) (inr (y, (h, k))) =
    elim (Bool-cases (text_le e.occurred_at f.occurred_at)) [
      | inl c ↦ (f, (rw c refl, rw c (ground (arith, text_le_refl f.occurred_at))))
      | inr c ↦ (
        e,
        (
          rw c refl,
          rw c (
              ground
                (arith, text_le_refl e.occurred_at, text_le_total e.occurred_at f.occurred_at)),
        ),
      )
    ]
insert_by_time-IsLast e (f ∷ g ∷ l) (inr (y, (h, k))) =
    elim (Bool-cases (text_le e.occurred_at f.occurred_at)) [
      | inl c ↦ (
        y,
        (rw c h, rw c (ground (arith, k, text_le_trans e.occurred_at f.occurred_at y.occurred_at))),
      )
      | inr c ↦
          let (z, (m, n)) = insert_by_time-IsLast e (g ∷ l) (inr (y, (h, ground (arith, k)))) in
          let split = any-insert_by_time (is_later z) e (g ∷ l) in
          let below = last-any (is_later z) (g ∷ l) y h (ground arith) in
          (
            z,
            (
              rw c (last-cons f z (insert_by_time e (g ∷ l)) m),
              rw c (ground (arith, k, n, text_le_trans f.occurred_at y.occurred_at z.occurred_at)),
            ),
          )
    ]

sorted_by_time-IsLast :
    (e : TagEvent) (l : List TagEvent) → (z : TagEvent) × IsLast (sorted_by_time (e ∷ l)) z
unfolding sorted_by_time
sorted_by_time-IsLast e [] = insert_by_time-IsLast e [] (inl refl)
sorted_by_time-IsLast e (f ∷ l) =
    insert_by_time-IsLast e (sorted_by_time (f ∷ l)) (inr (sorted_by_time-IsLast f l))

-- The image's group is one, so its last change is what counts.
first_change-select :
    (tag i : Text) (gs : List Group)
    → first_change tag i gs ≡ first_change tag i (select (λ g. text_eq g.ec2_ami_id i) gs)
unfolding first_change
first_change-select tag i [] = refl
first_change-select tag i (g ∷ gs) = elim (Bool-cases (text_eq g.ec2_ami_id i)) [
  | inl e ↦
      rw (e, first_change)
        (rw (e, first_change)
          (ap (or_else (last_change tag g.events)) (first_change-select tag i gs)))
  | inr e ↦ rw (e, first_change) (first_change-select tag i gs)
]

module _ (p : TagEvent → Bool) (i : Text) where
  abbrev in_group : Group → Bool
  in_group g = text_eq g.ec2_ami_id i && any p g.events

  any-join_group :
      (e : TagEvent) (gs : List Group)
      → any in_group (join_group e gs) ≡ text_eq e.ec2_ami_id i && p e || any in_group gs
  any-join_group e [] = ground arith
  any-join_group e (g ∷ gs) = elim (Bool-cases (text_eq e.ec2_ami_id g.ec2_ami_id)) [
    | inl c ↦
        let same : e.ec2_ami_id ≡ g.ec2_ami_id = (text_eq_iff e.ec2_ami_id g.ec2_ami_id).0 c in
        let alike : text_eq e.ec2_ami_id i ≡ text_eq g.ec2_ami_id i = ap (λ t. text_eq t i) same in
        rw c (ground (arith, alike))
    | inr c ↦ rw c (ground arith)
  ]

  any-groupby :
      (es : List TagEvent) → any in_group (groupby es) ≡ any (λ e. text_eq e.ec2_ami_id i && p e) es
  unfolding groupby
  any-groupby [] = refl
  any-groupby (e ∷ es) = any-join_group e (groupby es) ∙ ground (arith, any-groupby es)

or_else-none : (o : Option TagEvent) → or_else o none ≡ o
or_else-none none = refl
or_else-none (some e) = refl

first-last : (l : List TagEvent) (z : TagEvent) → last l ≡ some z → first (reversed l []) ≡ some z
first-last [] z h = absurd (cc)
first-last (e ∷ l) z h = first-reversed e l [] ∙ h

sorted-IsLast :
    (p : TagEvent → Bool) (l : List TagEvent)
    → any p l ≡ true
    → (z : TagEvent) × IsLast (sorted_by_time l) z
sorted-IsLast p [] h = absurd (cc)
sorted-IsLast p (e ∷ l) h = sorted_by_time-IsLast e l

-- The image has one group of consecutive events.
abbrev pub IsTogether : Text → List TagEvent → Group → Type 0
IsTogether i es g = select (λ (h : Group). text_eq h.ec2_ami_id i) (groupby es) ≡ g ∷ []

module _ (tag i : Text) (es : List TagEvent) (g : Group) (together : IsTogether i es g) where
  group_of : text_eq g.ec2_ami_id i ≡ true
  group_of = (select-In (λ (h : Group). text_eq h.ec2_ami_id i) g (groupby es) (rw together here)).1

  any-group : (p : TagEvent → Bool) → any p g.events ≡ any (λ e. text_eq e.ec2_ami_id i && p e) es
  any-group p =
      let held : any (λ (h : Group). any p h.events) (g ∷ []) ≡ any p g.events = ground arith in
      sym held
      ∙ ap (any (λ (h : Group). any p h.events)) (sym together)
      ∙ any-select (λ (h : Group). any p h.events) (λ h. text_eq h.ec2_ami_id i) (groupby es)
      ∙ any-groupby p i es

  one_change : first_change tag i (groupby es) ≡ last_change tag g.events
  unfolding first_change
  one_change =
      first_change-select tag i (groupby es)
      ∙ rw (together, first_change, group_of) (or_else-none (last_change tag g.events))

  -- The last change of the group, in the words of the whole list.
  last_of_group :
      (e : TagEvent)
      → In e es
      → e.ec2_ami_id ≡ i
      → has_tag tag e ≡ true
      → (z : TagEvent) × (last_change tag g.events ≡ some z)
        × ((q : TagEvent → Bool)
            → any (λ f. text_eq f.ec2_ami_id i && (has_tag tag f && q f)) es ≡ false
            → q z ≡ false)
        × (text_le e.occurred_at z.occurred_at ≡ true)
  unfolding last_change
  last_of_group e m same tagged =
      let known : text_eq e.ec2_ami_id i ≡ true = (text_eq_iff e.ec2_ami_id i).1 same in
      let some_change =
        any-select (λ f. true) (has_tag tag) g.events
        ∙ any-group (λ f. has_tag tag f && true)
        ∙ any-intro (λ f. text_eq f.ec2_ami_id i && (has_tag tag f && true)) e es m
            (ground arith) in
      let (z, (h, k)) = sorted-IsLast (λ f. true) (select (has_tag tag) g.events) some_change in
      let held : (q : TagEvent → Bool)
          → any q (sorted_by_time (select (has_tag tag) g.events))
            ≡ any (λ f. text_eq f.ec2_ami_id i && (has_tag tag f && q f)) es =
        λ q.
          any-sorted_by_time q (select (has_tag tag) g.events)
          ∙ any-select q (has_tag tag) g.events
          ∙ any-group (λ f. has_tag tag f && q f) in
      let late =
        any-false (λ f. text_eq f.ec2_ami_id i && (has_tag tag f && is_later z f)) e es
          (sym (held (is_later z)) ∙ k) m in
      (
        z,
        first-last (sorted_by_time (select (has_tag tag) g.events)) z h,
        λ q none_q.
            last-any q (sorted_by_time (select (has_tag tag) g.events)) z h (held q ∙ none_q),
        ground arith,
      )

-- The later events of the image that change the tag the other way.
abbrev pub is_undone : Text → Text → TagEvent → TagEvent → Bool
is_undone tag i e f =
    text_eq f.ec2_ami_id i
    && (has_tag tag f
        && (text_le e.occurred_at f.occurred_at
            && not (if e.is_present then f.is_present else not f.is_present)))

-- Where the events of an image stand together, and no event of the image at the time of one of them or
-- later changes the tag the other way, that event decides: the image is among the tagged exactly when the
-- event creates the tag, and among the untagged exactly when it deletes it.
pub extract_ami_ids_by_tag_change-latest :
    (tag i : Text) (es : List TagEvent) (g : Group) (e : TagEvent)
    → IsTogether i es g
    → In e es
    → e.ec2_ami_id ≡ i
    → has_tag tag e ≡ true
    → any (is_undone tag i e) es ≡ false
    → let c = extract_ami_ids_by_tag_change es tag in
      (is_in_texts i c.tagged_ami_ids ≡ e.is_present)
      × (is_in_texts i c.untagged_ami_ids ≡ not e.is_present)
extract_ami_ids_by_tag_change-latest tag i es g e together m same tagged last_one =
    let (z, change, passes, late) = last_of_group tag i es g together e m same tagged in
    let agrees =
      passes
        (λ f.
          text_le e.occurred_at f.occurred_at
          && not (if e.is_present then f.is_present else not f.is_present))
        last_one in
    let alike : z.is_present ≡ e.is_present = ground arith in
    let said = extract-Says tag i es in
    let counts = one_change tag i es g together ∙ change in
    let final = rw counts at said in (final.0 ∙ alike, final.1 ∙ ap not alike)
