-- ===== src/Runs/Coverage.antt =====
-- The runs of an instance cover an instant exactly when its events say that it was powered on.
use cloudigrade.Prelude.{
  ℕ, ◌≤◌, ◌<◌, ◌≡◌, refl, Bool, true, false, ◌&&◌, ◌||◌, not, Option, none, some, List, [], ◌∷◌,
  arith, All, any, leb, ltb, if◌then◌else◌, ◌==◌, All-of-not-any, ◌∙◌, any-congr,
}
use cloudigrade.Orm.{IsSortedBy}
use cloudigrade.Models.{InstanceEvent, is_power_on, is_power_off}
use cloudigrade.Runs.Scan.{DenormalizedRun, Cursor, idle, runs_from}

-- The instant `t` lies in the period from `start` to before `end`.
abbrev pub period_covers : ℕ → ℕ → Option ℕ → Bool
period_covers t start none = leb start t
period_covers t start (some end) = leb start t && ltb t end

abbrev pub covers : List DenormalizedRun → ℕ → Bool
covers runs t = any (λ r. period_covers t r.start_time r.end_time) runs

-- `e` is a power_on at or before `t`, and no event of `events` is a power_off from then until `t`.
abbrev pub keeps_on : List InstanceEvent → ℕ → InstanceEvent → Bool
keeps_on events t e =
    is_power_on e
    && leb e.occurred_at t
    && not
        (any (λ f. is_power_off f && leb e.occurred_at f.occurred_at && leb f.occurred_at t) events)

-- Some power_on at or before `t` has no power_off from then until `t`.
abbrev pub powered_on : List InstanceEvent → ℕ → Bool
powered_on events t = any (keeps_on events t) events

-- One of the two is a power_on and the other a power_off, at the same instant.
abbrev pub clash : InstanceEvent → InstanceEvent → Bool
clash e f =
    e.occurred_at == f.occurred_at
    && (is_power_on e && is_power_off f || is_power_off e && is_power_on f)

-- The state at `t` by replay of the events in order.
replay : Bool → List InstanceEvent → ℕ → Bool
replay on [] t = on
replay on (e ∷ es) t =
    replay (if leb e.occurred_at t then is_power_on e || on && not (is_power_off e) else on) es t

abbrev at : InstanceEvent → ℕ
at e = e.occurred_at

replay_before :
    (on : Bool) (es : List InstanceEvent) (n t : ℕ)
    → All (λ e. n ≤ at e) es
    → t < n
    → replay on es t ≡ on
unfolding replay
replay_before on [] n t h lt = refl
replay_before on (e ∷ es) n t h lt = ground (arith, replay_before on es n t h.1 lt)

module _ (make : ℕ → Option ℕ → DenormalizedRun)
    (starts : (s : ℕ) (d : Option ℕ) → (make s d).start_time ≡ s)
    (ends : (s : ℕ) (d : Option ℕ) → (make s d).end_time ≡ d) where
  abbrev open_cursor : ℕ → Cursor
  open_cursor s = record { start_run = some s; end_run = none }

  abbrev closed_cursor : Option ℕ → Cursor
  closed_cursor d = record { start_run = none; end_run = d }

  mutual
    unfolding runs_from replay

    covers-runs_from_open :
        (es : List InstanceEvent) (s t : ℕ)
        → IsSortedBy at es
        → All (λ e. s ≤ at e) es
        → covers (runs_from make (open_cursor s) es) t ≡ leb s t && replay true es t
    covers-runs_from_open [] s t h a = ground (arith, starts s none, ends s none)
    covers-runs_from_open (e ∷ es) s t h a = ground (
      arith,
      starts s (some (at e)),
      ends s (some (at e)),
      covers-runs_from_open es s t h.1 a.1,
      covers-runs_from_closed es none t h.1,
      replay_before true es (at e) t h.0,
      replay_before false es (at e) t h.0,
    )

    covers-runs_from_closed :
        (es : List InstanceEvent) (d : Option ℕ) (t : ℕ)
        → IsSortedBy at es
        → covers (runs_from make (closed_cursor d) es) t ≡ replay false es t
    covers-runs_from_closed [] d t h = refl
    covers-runs_from_closed (e ∷ es) d t h = ground (
      arith,
      covers-runs_from_open es (at e) t h.1 h.0,
      covers-runs_from_closed es d t h.1,
      covers-runs_from_closed es (some (at e)) t h.1,
      replay_before true es (at e) t h.0,
      replay_before false es (at e) t h.0,
    )

-- No event in the list clashes with a later one.
abbrev IsConsistent : List InstanceEvent → Type 0
IsConsistent [] = Unit
IsConsistent (e ∷ es) = All (λ f. clash e f ≡ false) es × IsConsistent es

-- An earlier event that does not clash ends no later period.
keeps_on-cons :
    (e : InstanceEvent) (events later : List InstanceEvent) (t : ℕ)
    → All (λ g. at e ≤ at g) later
    → All (λ g. clash e g ≡ false) later
    → All (λ g. keeps_on (e ∷ events) t g ≡ keeps_on events t g) later
keeps_on-cons e events [] t h k = tt
keeps_on-cons e events (g ∷ gs) t h k = (ground arith, keeps_on-cons e events gs t h.1 k.1)

no_power_off_before :
    (es : List InstanceEvent) (n t : ℕ)
    → All (λ e. n ≤ at e) es
    → any (λ f. is_power_off f && leb n (at f) && leb (at f) t) es
      ≡ any (λ f. is_power_off f && leb (at f) t) es
no_power_off_before [] n t h = refl
no_power_off_before (e ∷ es) n t h = ground (arith, no_power_off_before es n t h.1)

nothing_before :
    (es events : List InstanceEvent) (n t : ℕ)
    → All (λ e. n ≤ at e) es
    → t < n
    → (any (λ f. is_power_off f && leb (at f) t) es ≡ false) × (any (keeps_on events t) es ≡ false)
nothing_before [] events n t h lt = (refl, refl)
nothing_before (e ∷ es) events n t h lt = (
  ground (arith, nothing_before es events n t h.1),
  ground (arith, nothing_before es events n t h.1),
)

replay-eq :
    (on : Bool) (es : List InstanceEvent) (t : ℕ)
    → IsSortedBy at es
    → IsConsistent es
    → replay on es t ≡ on && not (any (λ f. is_power_off f && leb (at f) t) es) || powered_on es t
unfolding replay
replay-eq on [] t h k = ground arith
replay-eq on (e ∷ es) t h k = ground (
  arith,
  replay-eq true es t h.1 k.1,
  replay-eq false es t h.1 k.1,
  any-congr (keeps_on (e ∷ es) t) (keeps_on es t) es (keeps_on-cons e es es t h.0 k.0),
  no_power_off_before es (at e) t h.0,
  nothing_before es es (at e) t h.0,
)

-- Two of the events clash.
abbrev pub has_clash : List InstanceEvent → Bool
has_clash events = any (λ e. any (clash e) events) events

clash_free_tail :
    (e : InstanceEvent) (es fs : List InstanceEvent)
    → any (λ g. any (clash g) (e ∷ es)) fs ≡ false
    → any (λ g. any (clash g) es) fs ≡ false
clash_free_tail e es [] h = refl
clash_free_tail e es (f ∷ fs) h = ground (arith, clash_free_tail e es fs)

has_clash-IsConsistent : (es : List InstanceEvent) → has_clash es ≡ false → IsConsistent es
has_clash-IsConsistent [] h = tt
has_clash-IsConsistent (e ∷ es) h = (
  All-of-not-any (clash e) es (ground arith),
  has_clash-IsConsistent es (clash_free_tail e es es (ground arith)),
)

-- For events in the order of their times, of which no power_on and power_off fall on one instant,
-- an instant lies in one of the runs exactly when the instance was powered on then.
pub covers-runs_from :
    (make : ℕ → Option ℕ → DenormalizedRun)
    → ((s : ℕ) (d : Option ℕ) → (make s d).start_time ≡ s)
    → ((s : ℕ) (d : Option ℕ) → (make s d).end_time ≡ d)
    → (es : List InstanceEvent) (t : ℕ) → IsSortedBy at es
    → has_clash es ≡ false
    → covers (runs_from make idle es) t ≡ powered_on es t
covers-runs_from make starts ends es t h k =
    covers-runs_from_closed make starts ends es none t h
    ∙ replay-eq false es t h (has_clash-IsConsistent es k)
