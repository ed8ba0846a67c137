-- ===== src/Cloudtrail/Paused.antt =====
-- Which events `_drop_events_for_paused_accounts` keeps
-- (cloudigrade/api/clouds/aws/tasks/cloudtrail.py).
use cloudigrade.Prelude.{
  ◌≡◌, refl, ◌∙◌, ap, Bool, true, false, ◌&&◌, Option, none, some, List, [], ◌∷◌, map, arith, any,
  Text, text_eq, text_eq_iff, text_eq_refl, is_in_texts, inl, inr, Bool-cases, bind-some, some-inj,
  any-select, any-congr, All, In, here, there,
}
use cloudigrade.Aws.Tables.{AwsDb}
use cloudigrade.Cloudtrail.Loading.{
  is_okay_account, okay_aws_account_ids, drop_events_for_paused_accounts,
}

-- The account is known and not paused.
abbrev pub is_running_account : AwsDb → Text → Bool
is_running_account w i = elim (is_okay_account w i) [ none ↦ false | some okay ↦ okay ]

is_running_account-okay :
    (w : AwsDb) (i : Text) (b : Bool) → is_okay_account w i ≡ some b → is_running_account w i ≡ b
is_running_account-okay w i b e =
    ap (λ (o : Option Bool). elim o [ none ↦ false | some okay ↦ okay ]) e

is_in_texts-okay :
    (w : AwsDb) (ids okay : List Text) (i : Text)
    → okay_aws_account_ids w ids ≡ some okay
    → is_in_texts i okay ≡ (is_in_texts i ids && is_running_account w i)
unfolding okay_aws_account_ids
is_in_texts-okay w [] okay i h = rw (← (some-inj h)) refl
is_in_texts-okay w (j ∷ ids) okay i h =
    let (b, e, k) = bind-some (is_okay_account w j) _ h in
    let (rest, made, k') = bind-some (okay_aws_account_ids w ids) _ k in
    let others = is_in_texts-okay w ids rest i made in
    rw (← (some-inj k')) (elim (Bool-cases (text_eq i j)) [
      | inl f ↦
          let same : i ≡ j = (text_eq_iff i j).0 f in
          let okay_i : is_running_account w i ≡ b = is_running_account-okay w i b (rw same e) in
          ground (arith, others, f, okay_i)
      | inr f ↦ ground (arith, others, f)
    ])

module _ {A : Type 0} (account_id : A → Text) (w : AwsDb) where
  is_in_texts-map :
      (e : A) (events : List A)
      → In e events
      → is_in_texts (account_id e) (map account_id events) ≡ true
  is_in_texts-map e [] m = elim m [ ]
  is_in_texts-map e (_ ∷ events) here = ground (arith, text_eq_refl (account_id e))
  is_in_texts-map e (f ∷ events) (there m) = ground (arith, is_in_texts-map e events m)

  All-kept :
      (p : A → Bool) (events rest : List A) (okay : List Text)
      → okay_aws_account_ids w (map account_id events) ≡ some okay
      → ((e : A) → In e rest → In e events)
      → All
          (λ e.
            (is_in_texts (account_id e) okay && p e) ≡ (is_running_account w (account_id e) && p e))
          rest
  All-kept p events [] okay h within = tt
  All-kept p events (e ∷ rest) okay h within = (
    ground (
      arith,
      is_in_texts-okay w (map account_id events) okay (account_id e) h,
      is_in_texts-map e events (within e here),
    ),
    All-kept p events rest okay h (λ f m. within f (there m)),
  )

  -- Of the given events exactly those of accounts that are known and not paused are kept: this for any
  -- test of an event.
  pub drop_events_for_paused_accounts-exact :
      (p : A → Bool) (events kept : List A)
      → drop_events_for_paused_accounts account_id w events ≡ some kept
      → any p kept ≡ any (λ e. is_running_account w (account_id e) && p e) events
  unfolding drop_events_for_paused_accounts
  drop_events_for_paused_accounts-exact p events kept h =
      let (okay, made, k) = bind-some (okay_aws_account_ids w (map account_id events)) _ h in
      rw (← (some-inj k)) (
        any-select p (λ e. is_in_texts (account_id e) okay) events
        ∙ any-congr (λ e. is_in_texts (account_id e) okay && p e)
            (λ e. is_running_account w (account_id e) && p e) events
            (All-kept p events events okay made (λ e m. m)))
