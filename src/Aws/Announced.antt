-- ===== src/Aws/Announced.antt =====
-- Which messages `generate_aws_ami_messages` (cloudigrade/api/clouds/aws/util.py) makes.
use cloudigrade.Prelude.{
  ◌≤◌, ◌≡◌, refl, ◌∙◌, Bool, true, false, ◌&&◌, ◌||◌, not, some, List, [], ◌∷◌, arith, any, count,
  Text, text_eq, text_eq_iff, text_eq_refl, text_eq_sym, ap, option_eq, is_in_texts, if◌then◌else◌,
  inl, inr, Bool-cases, bind-some, some-inj,
}
use cloudigrade.Aws.Images.{ImageNames}
use cloudigrade.Aws.Instances.{InstanceData}
use cloudigrade.Aws.Events.{is_windows}
use cloudigrade.Aws.Describe.{
  Regions, AmiMessage, message_eq, add_message, messages_of_region, messages_from,
  generate_aws_ami_messages,
}

-- The instance has the image and is no Windows instance.
abbrev pub is_announced_by : ImageNames → Text → InstanceData → Bool
is_announced_by names i d =
    option_eq text_eq d.image_id (some i) && not (is_windows names d.platform)

-- The image is one of the ids, and an instance of the region has it that is no Windows instance.
abbrev pub is_announced_in : ImageNames → List Text → AmiMessage → Text × List InstanceData → Bool
is_announced_in names ids (r, i) (region, ds) =
    text_eq r region && (is_in_texts i ids && any (is_announced_by names i) ds)

message_eq-eq : (m n : AmiMessage) → message_eq m n ≡ true → m ≡ n
message_eq-eq (r, i) (s, j) h =
    let same_region : r ≡ s = (text_eq_iff r s).0 (ground arith) in
    let same_id : i ≡ j = (text_eq_iff i j).0 (ground arith) in rw (same_region, same_id) refl

any-add_message :
    (m n : AmiMessage) (ms : List AmiMessage)
    → any (message_eq m) (add_message n ms) ≡ (message_eq m n || any (message_eq m) ms)
unfolding add_message
any-add_message m n ms = elim (Bool-cases (message_eq m n)) [
  | inl e ↦ rw (message_eq-eq m n e) (added n ms)
  | inr e ↦ elim (Bool-cases (any (message_eq n) ms)) [
    | inl f ↦ rw (f, e) refl
    | inr f ↦ rw (f, e) refl
  ]
]
  where
    added :
        (n : AmiMessage) (ms : List AmiMessage)
        → any (message_eq n) (if any (message_eq n) ms then ms else n ∷ ms)
          ≡ (message_eq n n || any (message_eq n) ms)
    added n ms = ground (arith, text_eq_refl n.0, text_eq_refl n.1)

count-none : (p : AmiMessage → Bool) (ms : List AmiMessage) → any p ms ≡ false → count p ms ≡ 0
count-none p [] h = refl
count-none p (m ∷ ms) h = ground (arith, count-none p ms)

count-add_message :
    (m n : AmiMessage) (ms : List AmiMessage)
    → count (message_eq m) ms ≤ 1
    → count (message_eq m) (add_message n ms) ≤ 1
unfolding add_message
count-add_message m n ms h = elim (Bool-cases (any (message_eq n) ms)) [
  | inl f ↦ rw (f, add_message) h
  | inr f ↦ elim (Bool-cases (message_eq m n)) [
    | inl e ↦
        let same : m ≡ n = message_eq-eq m n e in
        let nothing : count (message_eq m) ms ≡ 0 = count-none (message_eq m) ms (rw same f) in
        rw (f, add_message, e, nothing) (omega arith)
    | inr e ↦ rw (f, add_message, e) (omega (arith, h))
  ]
]

module _ (names : ImageNames) (ids : List Text) (m : AmiMessage) where
  messages_of_region-exact :
      (region : Text) (ds : List InstanceData) (ms out : List AmiMessage)
      → messages_of_region names ids region ds ms ≡ some out
      → any (message_eq m) out ≡ (any (message_eq m) ms || is_announced_in names ids m (region, ds))
  unfolding messages_of_region
  messages_of_region-exact region [] ms out h = rw (← (some-inj h)) (ground arith)
  messages_of_region-exact region (d ∷ ds) ms out h =
      let (i, has_image, rest) = bind-some d.image_id _ h in
      let alike : text_eq m.1 i ≡ true → is_in_texts m.1 ids ≡ is_in_texts i ids =
        (λ e. ap (λ t. is_in_texts t ids) ((text_eq_iff m.1 i).0 e)) in
      let own : is_announced_by names m.1 d ≡ (text_eq m.1 i && not (is_windows names d.platform)) =
        ap (λ o. option_eq text_eq o (some m.1) && not (is_windows names d.platform)) has_image
        ∙ ground (arith, text_eq_sym i m.1) in
      elim (Bool-cases (is_in_texts i ids && not (is_windows names d.platform))) [
        | inl e ↦
            messages_of_region-exact region ds (add_message (region, i) ms) out (rw e at rest)
            ∙ ground (arith, any-add_message m (region, i) ms, own, alike, e)
        | inr e ↦
            messages_of_region-exact region ds ms out (rw e at rest) ∙ ground (arith, own, alike, e)
      ]

  messages_of_region-count :
      (region : Text) (ds : List InstanceData) (ms out : List AmiMessage)
      → messages_of_region names ids region ds ms ≡ some out
      → count (message_eq m) ms ≤ 1
      → count (message_eq m) out ≤ 1
  unfolding messages_of_region
  messages_of_region-count region [] ms out h k = rw (← (some-inj h)) k
  messages_of_region-count region (d ∷ ds) ms out h k =
      let (i, _, rest) = bind-some d.image_id _ h in
      elim (Bool-cases (is_in_texts i ids && not (is_windows names d.platform))) [
        | inl e ↦
            messages_of_region-count region ds (add_message (region, i) ms) out (rw e at rest)
              (count-add_message m (region, i) ms k)
        | inr e ↦ messages_of_region-count region ds ms out (rw e at rest) k
      ]

  messages_from-exact :
      (regions : Regions) (ms out : List AmiMessage)
      → messages_from names ids regions ms ≡ some out
      → any (message_eq m) out
        ≡ (any (message_eq m) ms || any (is_announced_in names ids m) regions)
  unfolding messages_from
  messages_from-exact [] ms out h = rw (← (some-inj h)) (ground arith)
  messages_from-exact ((region, ds) ∷ regions) ms out h =
      let (ms', made, rest) = bind-some (messages_of_region names ids region ds ms) _ h in
      messages_from-exact regions ms' out rest
      ∙ ground (arith, messages_of_region-exact region ds ms ms' made)

  messages_from-count :
      (regions : Regions) (ms out : List AmiMessage)
      → messages_from names ids regions ms ≡ some out
      → count (message_eq m) ms ≤ 1
      → count (message_eq m) out ≤ 1
  unfolding messages_from
  messages_from-count [] ms out h k = rw (← (some-inj h)) k
  messages_from-count ((region, ds) ∷ regions) ms out h k =
      let (ms', made, rest) = bind-some (messages_of_region names ids region ds ms) _ h in
      messages_from-count regions ms' out rest (messages_of_region-count region ds ms ms' made k)

  -- The messages are the set of the regions and image ids such that the image is one of the given ones and
  -- an instance of the region has it that is no Windows instance: a message is there exactly when it is
  -- in that set, and at most once.
  pub generate_aws_ami_messages-exact :
      (regions : Regions) (out : List AmiMessage)
      → generate_aws_ami_messages names regions ids ≡ some out
      → (any (message_eq m) out ≡ any (is_announced_in names ids m) regions)
        × (count (message_eq m) out ≤ 1)
  unfolding generate_aws_ami_messages
  generate_aws_ami_messages-exact regions out h =
      (messages_from-exact regions [] out h, messages_from-count regions [] out h (omega arith))
