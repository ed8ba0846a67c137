-- ===== src/Runs/Sorting.antt =====
-- `sorted` and `itertools.groupby` as `denormalize_runs` (cloudigrade/api/util.py) uses them.
use cloudigrade.Prelude.{
  ℕ, zero, suc, ◌+◌, ◌/◌, ◌%◌, ◌≡◌, refl, List, [], ◌∷◌, ◌++◌, arith, All, leb, le→leb, ◌≤◌, ◌∙◌,
  ◌==◌, if◌then◌else◌, Text, text_le,
}
use cloudigrade.Orm.{IsSortedBy}
use cloudigrade.Models.{InstanceEvent}

-- `str` of a datetime in UTC, which keeps the order of the times.
pub record DateTimes : Type 0 where
  pub str_datetime : ℕ → Text
  pub str_datetime_order : (s t : ℕ) → text_le (str_datetime s) (str_datetime t) ≡ leb s t

-- `str` of an int that is not negative; a number has fewer digits than its successor's value.
abbrev digits_from : ℕ → ℕ → Text → Text
digits_from zero n acc = acc
digits_from (suc fuel) n acc =
    let shorter = digits_from fuel (n / 10) ((b'0' + n % 10) ∷ acc) in
    if n / 10 == 0 then (b'0' + n % 10) ∷ acc else shorter

unfoldable pub str_int : ℕ → Text
str_int n = digits_from (suc n) n []

module _ (times : DateTimes) where
  -- The key `f"{e.instance_id}_{e.occurred_at}"`.
  unfoldable pub sort_key : InstanceEvent → Text
  unfolding str_int
  sort_key e = str_int e.instance_id ++ b'_' ∷ times.str_datetime e.occurred_at

  -- `sorted` is stable: a row goes in front of those that tie and came later.
  unfoldable pub insert_event : InstanceEvent → List InstanceEvent → List InstanceEvent
  unfolding sort_key
  insert_event e [] = e ∷ []
  insert_event e (f ∷ fs) =
      if text_le (sort_key e) (sort_key f) then e ∷ f ∷ fs else f ∷ insert_event e fs

  unfoldable pub sorted_events : List InstanceEvent → List InstanceEvent
  unfolding insert_event
  sorted_events [] = []
  sorted_events (e ∷ es) = insert_event e (sorted_events es)

-- A group of consecutive events of one instance; it has at least one.
pub record Group : Type 0 where
  pub instance_id : ℕ
  pub head : InstanceEvent
  pub tail : List InstanceEvent

abbrev pub join_group : InstanceEvent → List Group → List Group
join_group e [] = record { instance_id = e.instance_id; head = e; tail = [] } ∷ []
join_group e (g ∷ gs) =
    if e.instance_id == g.instance_id
    then record { instance_id = e.instance_id; head = e; tail = g.head ∷ g.tail } ∷ gs
    else record { instance_id = e.instance_id; head = e; tail = [] } ∷ g ∷ gs

unfoldable pub groupby : List InstanceEvent → List Group
groupby [] = []
groupby (e ∷ es) = join_group e (groupby es)

text_le-prefix : (p s t : Text) → text_le (p ++ s) (p ++ t) ≡ text_le s t
text_le-prefix [] s t = refl
text_le-prefix (a ∷ p) s t = ground (arith, text_le-prefix p s t)

-- Every event is of the instance.
abbrev pub OfInstance : ℕ → List InstanceEvent → Type 0
OfInstance i es = All (λ e. e.instance_id ≡ i) es

module _ (times : DateTimes) where
  pub sort_key-order :
      (e f : InstanceEvent)
      → e.instance_id ≡ f.instance_id
      → text_le (sort_key times e) (sort_key times f) ≡ leb e.occurred_at f.occurred_at
  unfolding sort_key
  sort_key-order e f h = simp h (
      text_le-prefix (str_int f.instance_id) (b'_' ∷ times.str_datetime e.occurred_at)
        (b'_' ∷ times.str_datetime f.occurred_at)
      ∙ times.str_datetime_order e.occurred_at f.occurred_at)

  insert_event-front :
      (e f : InstanceEvent) (fs : List InstanceEvent)
      → e.instance_id ≡ f.instance_id
      → e.occurred_at ≤ f.occurred_at
      → insert_event times e (f ∷ fs) ≡ e ∷ f ∷ fs
  unfolding insert_event
  insert_event-front e f fs h le = rw (sort_key-order e f h, le→leb _ _ le)

  -- The events of one instance that are in the order of their times stay as they are.
  pub sorted_events-IsSortedBy :
      (i : ℕ) (es : List InstanceEvent)
      → OfInstance i es
      → IsSortedBy (λ e. e.occurred_at) es
      → sorted_events times es ≡ es
  unfolding sorted_events
  sorted_events-IsSortedBy i [] h s = refl
  sorted_events-IsSortedBy i (e ∷ []) h s = refl
  sorted_events-IsSortedBy i (e ∷ f ∷ fs) h s =
      rw (sorted_events-IsSortedBy i (f ∷ fs) h.1 s.1)
        (insert_event-front e f fs (ground arith) s.0.0)

-- The events of one instance are one group.
pub groupby-OfInstance :
    (i : ℕ) (e : InstanceEvent) (es : List InstanceEvent)
    → OfInstance i (e ∷ es)
    → groupby (e ∷ es) ≡ record { instance_id = i; head = e; tail = es } ∷ []
unfolding groupby
groupby-OfInstance i e [] h = ground arith
groupby-OfInstance i e (f ∷ fs) h = ground (arith, groupby-OfInstance i f fs h.1)
