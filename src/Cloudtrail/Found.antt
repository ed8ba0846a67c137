-- ===== src/Cloudtrail/Found.antt =====
-- Which instances a relevant record tells of (cloudigrade/api/clouds/aws/cloudtrail.py).
use cloudigrade.Prelude.{
  ◌≡◌, refl, ◌∙◌, Bool, true, false, ◌&&◌, ◌||◌, not, Option, none, some, List, [], ◌∷◌, map, Text,
  arith, any, text_eq, text_eq_iff, inl, inr, Bool-cases, Option-cases, is_some, ◌>>=◌,
}
use cloudigrade.Models.{EventType}
use cloudigrade.Aws.Tables.{AwsDb}
use cloudigrade.Cloudtrail.Records.{
  object, InstanceItem, RequestParameters, Record, Dates, CloudTrailInstanceEvent,
}
use cloudigrade.Cloudtrail.Extract.{
  Found, found_eq, event_type_of, is_valid_event, extract_time_account_region, is_relevant_event,
  events_of, tells_type, type_text, add_found, found_instances, add_requested,
  extract_ec2_instance_events,
}

-- The item, the triple and the event are of the instance with the id.
abbrev pub item_of : Text → InstanceItem → Bool
item_of i item = elim item.instance_id [ none ↦ false | some j ↦ text_eq j i ]

abbrev found_of : Text → Found → Bool
found_of i f = text_eq f.0 i

abbrev pub event_of : Text → CloudTrailInstanceEvent → Bool
event_of i e = text_eq e.ec2_instance_id i

found_eq-of : (i : Text) (f g : Found) → found_eq f g ≡ true → found_of i f ≡ found_of i g
found_eq-of i f g h = let same : f.0 ≡ g.0 = (text_eq_iff f.0 g.0).0 (ground arith) in rw same refl

any-found_of :
    (i : Text) (f : Found) (set : List Found)
    → any (found_eq f) set ≡ true
    → found_of i f ≡ true
    → any (found_of i) set ≡ true
any-found_of i f [] h k = absurd (cc)
any-found_of i f (g ∷ set) h k = elim (Bool-cases (found_eq f g)) [
  | inl e ↦ ground (arith, found_eq-of i f g e)
  | inr e ↦ ground (arith, any-found_of i f set)
]

any-add_found :
    (i : Text) (f : Found) (set : List Found)
    → any (found_of i) (add_found f set) ≡ found_of i f || any (found_of i) set
unfolding add_found
any-add_found i f set = ground (arith, any-found_of i f set)

any-found_instances :
    (i : Text) (items : List InstanceItem)
    → any (found_of i) (found_instances items) ≡ any (item_of i) items
unfolding found_instances
any-found_instances i [] = refl
any-found_instances i (item ∷ items) = elim (Option-cases item.instance_id) [
  | inl e ↦ rw (e, found_instances) (any-found_instances i items)
  | inr (j, e) ↦
      rw (e, found_instances)
        (any-add_found i (j, item.image_id, item.subnet_id) (found_instances items)
          ∙ ground (arith, any-found_instances i items))
]

any-map_event :
    (i : Text) (make : Found → CloudTrailInstanceEvent)
    → ((f : Found) → (make f).ec2_instance_id ≡ f.0)
    → (fs : List Found) → any (event_of i) (map make fs) ≡ any (found_of i) fs
any-map_event i make h [] = refl
any-map_event i make h (f ∷ fs) = rw (h f, any-map_event i make h fs) refl

-- The record is valid, of an event type, and relevant, and its request and response are there; where the
-- event must tell a type, it does.
pub record IsReadable (dates : Dates) (w : AwsDb) (r : Record) : Type 0 where
  pub at : Text × Text × Text
  pub name : Text
  pub event_type : EventType
  pub parameters : RequestParameters
  pub items : List InstanceItem
  pub is_valid : is_valid_event (λ name. is_some (event_type_of name)) r ≡ true
  pub has_at : extract_time_account_region r ≡ some at
  pub is_relevant : is_relevant_event dates w at.0 at.1 ≡ some true
  pub has_name : r.event_name ≡ some name
  pub has_type : event_type_of name ≡ some event_type
  pub has_parameters : r.request_parameters ≡ object parameters
  pub has_items : r.response_elements ≡ object items
  pub is_told : (tells_type name && not (is_some (type_text parameters.instance_type))) ≡ false

module _ (dates : Dates) (w : AwsDb) (r : Record) (h : IsReadable dates w r) where
  abbrev requested : Option (List Found)
  requested = add_requested h.parameters.instance_id (found_instances h.items)

  extract-readable : extract_ec2_instance_events dates w r ≡ events_of r h.name h.event_type h.at
  unfolding extract_ec2_instance_events
  extract-readable =
      rw (h.is_valid, extract_ec2_instance_events, h.has_at, h.is_relevant, h.has_name, h.has_type)
        refl

  abbrev event_for : Found → CloudTrailInstanceEvent
  event_for f = record {
    occurred_at = h.at.0;
    aws_account_id = h.at.1;
    region = h.at.2;
    ec2_instance_id = f.0;
    event_type = h.event_type;
    instance_type = type_text h.parameters.instance_type;
    ec2_ami_id = f.1;
    subnet_id = f.2;
  }

  extract-requested :
      extract_ec2_instance_events dates w r ≡ (requested >>= λ found. some (map event_for found))
  unfolding events_of
  extract-requested =
      extract-readable ∙ rw (h.has_parameters, events_of, h.is_told, h.has_items) refl

  -- Where the request names no instance there is an event of an instance exactly when an item of the
  -- response has the instance's id.
  pub extract_ec2_instance_events-exact :
      h.parameters.instance_id ≡ none
      → (es : List CloudTrailInstanceEvent) × (extract_ec2_instance_events dates w r ≡ some es)
        × ((i : Text) → any (event_of i) es ≡ any (item_of i) h.items)
  unfolding add_requested
  extract_ec2_instance_events-exact k = (
    map event_for (found_instances h.items),
    extract-requested ∙ rw (k, add_requested) refl,
    λ i.
        any-map_event i event_for (λ f. refl) (found_instances h.items)
        ∙ any-found_instances i h.items,
  )

  add_requested_nonempty :
      (j i : Text) (fs : List Found) → any (found_of i) fs ≡ true → add_requested (some j) fs ≡ none
  unfolding add_requested
  add_requested_nonempty j i [] k = absurd (cc)
  add_requested_nonempty j i (f ∷ fs) k = refl

  -- Where the request names an instance and an item of the response has an id as well, the extraction
  -- ends with an exception.
  pub extract_ec2_instance_events_raises :
      (j i : Text)
      → h.parameters.instance_id ≡ some j
      → any (item_of i) h.items ≡ true
      → extract_ec2_instance_events dates w r ≡ none
  extract_ec2_instance_events_raises j i k m =
      extract-requested
      ∙ rw
          (
            k,
            add_requested_nonempty j i (found_instances h.items)
                (any-found_instances i h.items ∙ m),
          )
          refl
