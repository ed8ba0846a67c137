-- ===== src/Usage/Dates.antt =====
-- `get_users_dates_from_runs` and `calculate_max_concurrent_usage_from_runs` (cloudigrade/api/util.py).
use cloudigrade.Prelude.{
  ℕ, zero, suc, ◌+◌, ◌-◌, ◌≡◌, ◌∙◌, Bool, true, ◌&&◌, ◌||◌, Option, none, some, List, [], ◌∷◌, ◌++◌,
  arith, if◌then◌else◌, any, any-append, leb, ltb, ◌==◌, inl, inr, Bool-cases, Option-cases,
}
use mathlib.Core.Path.{subst₂}
use cloudigrade.Orm.{Orm}
use cloudigrade.Models.{Run, ConcurrentUsage, Db, date_of}
use cloudigrade.Usage.Calculate.{user_of_run, is_user, calculate_max_concurrent_usage}

abbrev pub DateUser : Type 0
DateUser = ℕ × ℕ

abbrev pub is_pair : ℕ → ℕ → DateUser → Bool
is_pair date user_id p = p.0 == date && p.1 == user_id

-- `set.add`
abbrev pub add_pair : DateUser → List DateUser → List DateUser
add_pair p set = if any (is_pair p.0 p.1) set then set else set ++ p ∷ []

-- The dates of `range(delta_days)`, counted from `date`.
unfoldable pub add_dates : ℕ → ℕ → ℕ → List DateUser → List DateUser
add_dates zero date user_id set = set
add_dates (suc n) date user_id set = add_dates n (date + 1) user_id (add_pair (date, user_id) set)

-- The date of a run's end, or today.
abbrev pub end_date : ℕ → Run → ℕ
end_date today r = elim r.end_time [ none ↦ today | some end ↦ date_of end ]

unfoldable pub users_dates_from : ℕ → Db → List Run → List DateUser → Option (List DateUser)
unfolding user_of_run add_dates
users_dates_from today db [] set = some set
users_dates_from today db (r ∷ rs) set = elim (user_of_run db r) [
  | none ↦ none
  | some user_id ↦
      users_dates_from today db rs
        (add_dates (end_date today r + 1 - date_of r.start_time) (date_of r.start_time) user_id set)
]

-- `none` is the exception for a broken foreign key.
unfoldable pub get_users_dates_from_runs : ℕ → Db → List Run → Option (List DateUser)
unfolding users_dates_from
get_users_dates_from_runs today db runs = users_dates_from today db runs []

-- The calculations for all pairs, in the order in which the set gives them.
unfoldable pub calculate_all : Orm → ℕ → List DateUser → Db → List ConcurrentUsage × Db
unfolding calculate_max_concurrent_usage
calculate_all orm now [] db = ([], db)
calculate_all orm now ((date, user_id) ∷ pairs) db =
    let (usage, db') = calculate_max_concurrent_usage orm now date user_id db in
    let (usages, db'') = calculate_all orm now pairs db' in (usage ∷ usages, db'')

unfoldable pub calculate_max_concurrent_usage_from_runs :
    Orm → ℕ → ℕ → List Run → Db → Option (List ConcurrentUsage) × Db
unfolding get_users_dates_from_runs calculate_all
calculate_max_concurrent_usage_from_runs orm now today runs db =
    elim (get_users_dates_from_runs today db runs) [
      | none ↦ (none, db)
      | some pairs ↦ let (usages, db') = calculate_all orm now pairs db in (some usages, db')
    ]

-- The run touches the date for the user.
abbrev pub touches : ℕ → Db → ℕ → ℕ → Run → Bool
touches today db date user_id r =
    is_user (user_of_run db r) user_id
    && leb (date_of r.start_time) date
    && leb date (end_date today r)

module _ (date user_id : ℕ) where
  any-add_pair :
      (p : DateUser) (set : List DateUser)
      → any (is_pair date user_id) (add_pair p set)
        ≡ any (is_pair date user_id) set || is_pair date user_id p
  any-add_pair p set = elim (Bool-cases (any (is_pair p.0 p.1) set)) [
    | inr e ↦ rw e (any-append (is_pair date user_id) set (p ∷ []) ∙ ground arith)
    | inl e ↦ rw e (elim (Bool-cases (is_pair date user_id p)) [
      | inr f ↦ ground arith
      | inl f ↦
          let d : p.0 ≡ date = ground arith in
          let u : p.1 ≡ user_id = ground arith in
          let found : any (is_pair date user_id) set ≡ true =
            subst₂ (λ a b. any (is_pair a b) set ≡ true) d u e in
          ground arith
    ])
  ]

  any-add_dates :
      (n d u : ℕ) (set : List DateUser)
      → any (is_pair date user_id) (add_dates n d u set)
        ≡ any (is_pair date user_id) set || u == user_id && leb d date && ltb date (d + n)
  unfolding add_dates
  any-add_dates zero d u set = ground arith
  any-add_dates (suc n) d u set =
      ground (arith, any-add_pair (d, u) set, any-add_dates n (d + 1) u (add_pair (d, u) set))

  any-users_dates_from :
      (today : ℕ) (db : Db) (runs : List Run) (set pairs : List DateUser)
      → users_dates_from today db runs set ≡ some pairs
      → any (is_pair date user_id) pairs
        ≡ any (is_pair date user_id) set || any (touches today db date user_id) runs
  unfolding users_dates_from
  any-users_dates_from today db [] set pairs h = ground arith
  any-users_dates_from today db (r ∷ rs) set pairs h = elim (Option-cases (user_of_run db r)) [
    | inl e ↦ cc (rw (e, users_dates_from) at h)
    | inr (u, e) ↦
        let n : ℕ = end_date today r + 1 - date_of r.start_time in
        ground (
          arith,
          e,
          any-add_dates n (date_of r.start_time) u set,
          any-users_dates_from today db rs (add_dates n (date_of r.start_time) u set) pairs,
        )
  ]

-- Where the foreign keys hold: a date and user are in the set exactly when a run of the user started
-- on the date or before and ended on the date or later, a run with no end ending today.
pub get_users_dates_from_runs-exact :
    (today : ℕ) (db : Db) (runs : List Run) (pairs : List DateUser) (date user_id : ℕ)
    → get_users_dates_from_runs today db runs ≡ some pairs
    → any (is_pair date user_id) pairs ≡ any (touches today db date user_id) runs
unfolding get_users_dates_from_runs
get_users_dates_from_runs-exact today db runs pairs date user_id h =
    any-users_dates_from date user_id today db runs [] pairs h
