-- ===== src/Runs/Sorted.antt =====
-- What `sorted` makes of the events of one instance in `denormalize_runs` (cloudigrade/api/util.py).
use cloudigrade.Prelude.{
  ℕ, ◌≤◌, ◌≡◌, refl, ◌∙◌, ap, Bool, ◌&&◌, ◌||◌, not, List, [], ◌∷◌, arith, All, any, leb, text_le,
  inl, inr, Bool-cases, fun_ext,
}
use cloudigrade.Orm.{IsSortedBy}
use cloudigrade.Models.{InstanceEvent, is_power_on, is_power_off}
use cloudigrade.Runs.Sorting.{
  DateTimes, OfInstance, sort_key, insert_event, sorted_events, sort_key-order,
}
use cloudigrade.Runs.Coverage.{powered_on, keeps_on, has_clash, clash}

abbrev at : InstanceEvent → ℕ
at e = e.occurred_at

abbrev From : ℕ → List InstanceEvent → Type 0
From n es = All (λ e. n ≤ at e) es

From-le : (m n : ℕ) (es : List InstanceEvent) → m ≤ n → From n es → From m es
From-le m n [] le h = tt
From-le m n (e ∷ es) le h = (omega arith, From-le m n es le h.1)

module _ (times : DateTimes) where
  abbrev goes_first : InstanceEvent → InstanceEvent → Bool
  goes_first e f = text_le (sort_key times e) (sort_key times f)

  insert_event-All :
      (P : InstanceEvent → Type 0) (e : InstanceEvent) (fs : List InstanceEvent)
      → P e
      → All P fs
      → All P (insert_event times e fs)
  unfolding insert_event
  insert_event-All P e [] h k = (h, tt)
  insert_event-All P e (f ∷ fs) h k = elim (Bool-cases (goes_first e f)) [
    | inl first ↦ rw (first) (h, k)
    | inr later ↦ rw (later) (k.0, insert_event-All P e fs h k.1)
  ]

  insert_event-any :
      (p : InstanceEvent → Bool) (e : InstanceEvent) (fs : List InstanceEvent)
      → any p (insert_event times e fs) ≡ p e || any p fs
  unfolding insert_event
  insert_event-any p e [] = refl
  insert_event-any p e (f ∷ fs) = elim (Bool-cases (goes_first e f)) [
    | inl first ↦ rw (first) refl
    | inr later ↦ rw (later) (ground (arith, insert_event-any p e fs))
  ]

  insert_event-IsSortedBy :
      (i : ℕ) (e : InstanceEvent) (fs : List InstanceEvent)
      → OfInstance i (e ∷ fs)
      → IsSortedBy at fs
      → IsSortedBy at (insert_event times e fs)
  unfolding insert_event
  insert_event-IsSortedBy i e [] of sorted = (tt, tt)
  insert_event-IsSortedBy i e (f ∷ fs) of sorted =
      let order = sort_key-order times e f (ground arith) in
      elim (Bool-cases (goes_first e f)) [
        | inl first ↦
            let le : at e ≤ at f = ground (arith, order) in
            rw (first) ((le, From-le (at e) (at f) fs le sorted.0), sorted)
        | inr later ↦
            let le : at f ≤ at e = ground (arith, order) in
            rw (later) (
              insert_event-All (λ g. at f ≤ at g) e fs le sorted.0,
              insert_event-IsSortedBy i e fs (of.0, of.1.1) sorted.1,
            )
      ]

  pub sorted_events-OfInstance :
      (i : ℕ) (es : List InstanceEvent) → OfInstance i es → OfInstance i (sorted_events times es)
  unfolding sorted_events
  sorted_events-OfInstance i [] of = tt
  sorted_events-OfInstance i (e ∷ es) of =
      insert_event-All (λ f. f.instance_id ≡ i) e (sorted_events times es) of.0
        (sorted_events-OfInstance i es of.1)

  -- The events of one instance come out in the order of their times, whatever order they are given in.
  pub sorted_events-sorts :
      (i : ℕ) (es : List InstanceEvent)
      → OfInstance i es
      → IsSortedBy (λ e. e.occurred_at) (sorted_events times es)
  unfolding sorted_events
  sorted_events-sorts i [] of = tt
  sorted_events-sorts i (e ∷ es) of =
      insert_event-IsSortedBy i e (sorted_events times es)
        (of.0, sorted_events-OfInstance i es of.1) (sorted_events-sorts i es of.1)

  sorted_events-any :
      (p : InstanceEvent → Bool) (es : List InstanceEvent)
      → any p (sorted_events times es) ≡ any p es
  unfolding sorted_events
  sorted_events-any p [] = refl
  sorted_events-any p (e ∷ es) =
      insert_event-any p e (sorted_events times es) ∙ ap (λ b. p e || b) (sorted_events-any p es)

  abbrev ends_between : ℕ → ℕ → InstanceEvent → Bool
  ends_between s t f = is_power_off f && leb s (at f) && leb (at f) t

  pub powered_on-sorted_events :
      (es : List InstanceEvent) (t : ℕ) → powered_on (sorted_events times es) t ≡ powered_on es t
  powered_on-sorted_events es t =
      sorted_events-any (keeps_on (sorted_events times es) t) es
      ∙ ap (λ p. any p es)
          (fun_ext λ e.
            ap (λ b. is_power_on e && leb (at e) t && not b)
              (sorted_events-any (ends_between (at e) t) es))

  pub has_clash-sorted_events :
      (es : List InstanceEvent) → has_clash (sorted_events times es) ≡ has_clash es
  has_clash-sorted_events es =
      sorted_events-any (λ e. any (clash e) (sorted_events times es)) es
      ∙ ap (λ p. any p es) (fun_ext λ e. sorted_events-any (clash e) es)
