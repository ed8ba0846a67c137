-- ===== src/Aws/Recorded.antt =====
-- What `save_instance_events` with events (cloudigrade/api/clouds/aws/util.py) records.
use cloudigrade.Prelude.{
  ℕ, ◌≡◌, refl, ◌∙◌, Bool, false, ◌&&◌, ◌||◌, none, some, List, [], ◌∷◌, arith, any, any-append,
  ◌==◌, bind-some, some-inj,
}
use mathlib.Core.Path.{subst}
use cloudigrade.Orm.{Orm}
use cloudigrade.Models.{EventType, Instance, InstanceEvent}
use cloudigrade.Aws.Tables.{AwsInstance, AwsDb, instance_of}
use cloudigrade.Aws.Instances.{InstanceData}
use cloudigrade.Aws.Events.{
  EventInfo, insert_info, sorted_infos, save_info, save_infos, save_instance_events,
}
use cloudigrade.Cloudtrail.Records.{Dates}

any-insert_info :
    (p : EventInfo → Bool) (e : EventInfo) (es : List EventInfo)
    → any p (insert_info e es) ≡ p e || any p es
unfolding insert_info
any-insert_info p e [] = refl
any-insert_info p e (f ∷ es) = ground (arith, any-insert_info p e es)

any-sorted_infos : (p : EventInfo → Bool) (es : List EventInfo) → any p (sorted_infos es) ≡ any p es
unfolding sorted_infos
any-sorted_infos p [] = refl
any-sorted_infos p (e ∷ es) =
    any-insert_info p e (sorted_infos es) ∙ ground (arith, any-sorted_infos p es)

module _ (orm : Orm) (now : ℕ) (dates : Dates) (a : AwsInstance) (d : InstanceData) (i : Instance)
    (q : EventType → ℕ → Bool) where
  -- The stored event is of the instance and passes; the given one has a time and passes.
  abbrev pub is_stored : InstanceEvent → Bool
  is_stored e = e.instance_id == i.id && q e.event_type e.occurred_at

  abbrev pub is_given : EventInfo → Bool
  is_given e = elim (dates.parse e.occurred_at) [ none ↦ false | some time ↦ q e.event_type time ]

  save_info-any :
      (e : EventInfo) (have : Bool) (w : AwsDb) (s' : Bool × AwsDb)
      → instance_of a w.db ≡ some i
      → save_info orm now dates a d e (have, w) ≡ some s'
      → (any is_stored s'.1.db.events ≡ any is_stored w.db.events || is_given e)
        × (s'.1.db.instances ≡ w.db.instances)
  unfolding save_info
  save_info-any e have w s' found h =
      let (time, timed, k) = bind-some (dates.parse e.occurred_at) _ h in
      let made = some-inj (rw found at k) in
      subst
        (λ (s : Bool × AwsDb).
          (any is_stored s.1.db.events ≡ any is_stored w.db.events || is_given e)
          × (s.1.db.instances ≡ w.db.instances))
        made (any-append is_stored w.db.events _ ∙ ground (arith, timed), refl)

  save_infos-any :
      (es : List EventInfo) (have : Bool) (w : AwsDb) (s' : Bool × AwsDb)
      → instance_of a w.db ≡ some i
      → save_infos orm now dates a d es (have, w) ≡ some s'
      → any is_stored s'.1.db.events ≡ any is_stored w.db.events || any is_given es
  unfolding save_infos
  save_infos-any [] have w s' found h = let same = some-inj h in rw (← same) (ground arith)
  save_infos-any (e ∷ es) have w s' found h =
      let ((have', v), made, k) = bind-some (save_info orm now dates a d e (have, w)) _ h in
      let (one, kept) = save_info-any e have w (have', v) found made in
      let rest = save_infos-any es have' v s' (rw kept found) k in rest ∙ rw one (ground arith)

  -- After events are saved, an event of the instance is stored exactly when it was before or is given:
  -- this for any test of an event's type and time. No given event is lost and none is made up.
  pub save_instance_events-any :
      (es : List EventInfo) (w w' : AwsDb)
      → instance_of a w.db ≡ some i
      → save_instance_events orm now dates a d es w ≡ some w'
      → any is_stored w'.db.events ≡ any is_stored w.db.events || any is_given es
  unfolding save_instance_events
  save_instance_events-any es w w' found h =
      let ((have, v), made, k) =
        bind-some (save_infos orm now dates a d (sorted_infos es) (false, w)) _ h in
      let rest = save_infos-any (sorted_infos es) false w (have, v) found made in
      rw (← (some-inj k)) (rest ∙ rw (any-sorted_infos is_given es) refl)
