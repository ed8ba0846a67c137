-- ===== src/Cloudtrail/Relevance.antt =====
-- Which accounts the extracted instance events (cloudigrade/api/clouds/aws/cloudtrail.py) belong to.
use cloudigrade.Prelude.{
  ℕ, ◌≤◌, ◌≡◌, refl, sym, bind-some, some-inj, Bool, true, false, ◌&&◌, not, none, some, List, [],
  ◌∷◌, map, Text, arith, find, inl, inr, Bool-cases, Option-cases, ◌⊎◌, In, here, there, is_some,
}
use cloudigrade.Models.{EventType, CloudAccount}
use cloudigrade.Aws.Tables.{AwsCloudAccount, AwsDb, has_aws_account_id, account_of}
use cloudigrade.Cloudtrail.Records.{Record, Dates, CloudTrailInstanceEvent}
use cloudigrade.Cloudtrail.Extract.{
  Found, is_truthy, event_type_of, is_valid_event, extract_time_account_region, is_relevant_event,
  is_relevant_account, events_of, or_empty, no_parameters, tells_type, type_text, found_instances,
  add_requested, extract_ec2_instance_events,
}

-- The account has no time at which it was enabled, or the time of the event is not before it.
abbrev pub IsLater : Dates → Text → CloudAccount → Type 0
IsLater dates occurred_at c =
    (c.enabled_at ≡ none)
    ⊎ ((enabled_at : ℕ) × (time : ℕ) × (c.enabled_at ≡ some enabled_at)
        × (dates.parse occurred_at ≡ some time)
        × (enabled_at ≤ time))

-- The account that has the id is known, enabled and not paused, and it was not enabled after the time.
pub record IsWatched (dates : Dates) (w : AwsDb) (aws_account_id occurred_at : Text) : Type 0 where
  pub aws_account : AwsCloudAccount
  pub account : CloudAccount
  pub has_id : find (has_aws_account_id aws_account_id) w.aws_cloud_accounts ≡ some aws_account
  pub is_linked : account_of aws_account w.db ≡ some account
  pub is_enabled : account.is_enabled ≡ true
  pub is_running : account.platform_application_is_paused ≡ false
  pub is_later : IsLater dates occurred_at account

relevant-later :
    (dates : Dates) (occurred_at : Text) (c : CloudAccount)
    → is_relevant_account dates occurred_at c ≡ some true
    → (c.is_enabled ≡ true)
      × (c.platform_application_is_paused ≡ false)
      × IsLater dates occurred_at c
relevant-later dates occurred_at c h = (
  ground arith,
  ground arith,
  elim (Option-cases c.enabled_at) [
    | inl e ↦ inl e
    | inr (enabled_at, e) ↦ elim (Option-cases (dates.parse occurred_at)) [
      | inl f ↦ absurd (ground (arith, h, e, f))
      | inr (time, f) ↦ inr (enabled_at, time, e, f, ground (arith, h, e, f))
    ]
  ],
)

relevant-IsWatched :
    (dates : Dates) (w : AwsDb) (occurred_at aws_account_id : Text)
    → is_relevant_event dates w occurred_at aws_account_id ≡ some true
    → IsWatched dates w aws_account_id occurred_at
unfolding is_relevant_event
relevant-IsWatched dates w occurred_at aws_account_id h =
    elim (Option-cases (find (has_aws_account_id aws_account_id) w.aws_cloud_accounts)) [
      | inl e ↦ absurd (cc (rw (e, is_relevant_event) at h))
      | inr (a, e) ↦ elim (Option-cases (account_of a w.db)) [
        | inl f ↦ absurd (cc (rw (e, f, is_relevant_event) at h))
        | inr (c, f) ↦
            let facts = relevant-later dates occurred_at c (rw (e, f, is_relevant_event) at h) in
            record {
              aws_account = a;
              account = c;
              has_id = e;
              is_linked = f;
              is_enabled = facts.0;
              is_running = facts.1;
              is_later = facts.2;
            }
      ]
    ]

-- The time and the account that every event of a record shares.
abbrev IsAt : Text × Text × Text → EventType → CloudTrailInstanceEvent → Type 0
IsAt at event_type e =
    (e.occurred_at ≡ at.0) × (e.aws_account_id ≡ at.1) × (e.event_type ≡ event_type)

map-IsAt :
    (at : Text × Text × Text) (event_type : EventType) (make : Found → CloudTrailInstanceEvent)
    → ((f : Found) → IsAt at event_type (make f))
    → (fs : List Found) (e : CloudTrailInstanceEvent) → In e (map make fs)
    → IsAt at event_type e
map-IsAt at event_type make h [] e m = elim m [ ]
map-IsAt at event_type make h (f ∷ fs) e here = h f
map-IsAt at event_type make h (f ∷ fs) e (there m) = map-IsAt at event_type make h fs e m

events_of-IsAt :
    (r : Record) (name : Text) (event_type : EventType) (at : Text × Text × Text)
    (es : List CloudTrailInstanceEvent) (e : CloudTrailInstanceEvent)
    → events_of r name event_type at ≡ some es
    → In e es
    → IsAt at event_type e
unfolding events_of
events_of-IsAt r name event_type at es e h m =
    let (p, _, k) = bind-some (or_empty no_parameters r.request_parameters) _ h in
    elim (Bool-cases (tells_type name && not (is_some (type_text p.instance_type)))) [
      | inl f ↦ let nothing : es ≡ [] = sym (some-inj (rw f at k)) in elim (rw nothing at m) [ ]
      | inr f ↦
          let (items, _, k') = bind-some (or_empty [] r.response_elements) _ (rw f at k) in
          let (found, _, k'') =
            bind-some (add_requested p.instance_id (found_instances items)) _ k' in
          map-IsAt at event_type _ (λ f. (refl, refl, refl)) found e (rw (← (some-inj k'')) at m)
    ]

valid-no_error :
    (p : Text → Bool) (r : Record) → is_valid_event p r ≡ true → is_truthy r.error_code ≡ false
unfolding is_valid_event
valid-no_error p r h = ground arith

-- Each event that is extracted from a record belongs to an account that is known, enabled and not paused,
-- it did not occur before the account was enabled, the record has no error, and the type of the event is
-- the one of the record's name.
pub extract_ec2_instance_events-IsWatched :
    (dates : Dates) (w : AwsDb) (r : Record) (es : List CloudTrailInstanceEvent)
    (e : CloudTrailInstanceEvent)
    → extract_ec2_instance_events dates w r ≡ some es
    → In e es
    → IsWatched dates w e.aws_account_id e.occurred_at
      × (is_truthy r.error_code ≡ false)
      × ((name : Text) × (r.event_name ≡ some name) × (event_type_of name ≡ some e.event_type))
unfolding extract_ec2_instance_events
extract_ec2_instance_events-IsWatched dates w r es e h m =
    elim (Bool-cases (is_valid_event (λ name. is_some (event_type_of name)) r)) [
      | inr f ↦
          let nothing : es ≡ [] = sym (some-inj (rw (f, extract_ec2_instance_events) at h)) in
          elim (rw nothing at m) [ ]
      | inl f ↦
          let (at, _, k) =
            bind-some (extract_time_account_region r) _
              (rw (f, extract_ec2_instance_events) at h) in
          let (relevant, g, k') = bind-some (is_relevant_event dates w at.0 at.1) _ k in
          elim (Bool-cases relevant) [
            | inr s ↦
                let nothing : es ≡ [] = sym (some-inj (rw s at k')) in elim (rw nothing at m) [ ]
            | inl s ↦
                let (name, named, k'') = bind-some r.event_name _ (rw s at k') in
                let (event_type, typed, made) = bind-some (event_type_of name) _ k'' in
                let facts = events_of-IsAt r name event_type at es e made m in
                let watched = relevant-IsWatched dates w at.0 at.1 (rw s at g) in
                (
                  rw (facts.0, facts.1) watched,
                  valid-no_error (λ name. is_some (event_type_of name)) r f,
                  (name, named, rw (facts.2) typed),
                )
          ]
    ]
