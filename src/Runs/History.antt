-- ===== src/Runs/History.antt =====
-- `powered_on` under the database's order and under the filter on time that `recalculate_runs` uses.
use cloudigrade.Prelude.{
  ℕ, ◌≤◌, ◌<◌, ◌≡◌, refl, ◌∙◌, ap, inl, inr, Bool, true, false, ◌&&◌, ◌||◌, not, List, [], ◌∷◌,
  arith, any, select, leb, ◌==◌, fun_ext, In, any-intro, any-witness, any-false, In-select,
  select-In, bool_ext, Bool-cases,
}
use cloudigrade.Orm.{Orm}
use cloudigrade.Orm.Laws.{any-order_by}
use cloudigrade.Models.{InstanceEvent, is_power_on, is_power_off}
use cloudigrade.Runs.Coverage.{powered_on, keeps_on, has_clash, clash}

abbrev at : InstanceEvent → ℕ
at e = e.occurred_at

abbrev ends_between : ℕ → ℕ → InstanceEvent → Bool
ends_between s t f = is_power_off f && leb s (at f) && leb (at f) t

module _ (orm : Orm) where
  pub powered_on-order_by :
      (es : List InstanceEvent) (t : ℕ)
      → powered_on (orm.order_by (λ e. e.occurred_at) es) t ≡ powered_on es t
  powered_on-order_by es t =
      any-order_by orm at (keeps_on (orm.order_by at es) t) es
      ∙ ap (λ p. any p es)
          (fun_ext λ e.
            ap (λ b. is_power_on e && leb (at e) t && not b)
              (any-order_by orm at (ends_between (at e) t) es))

  pub has_clash-order_by :
      (es : List InstanceEvent) → has_clash (orm.order_by (λ e. e.occurred_at) es) ≡ has_clash es
  has_clash-order_by es =
      any-order_by orm at (λ e. any (clash e) (orm.order_by at es)) es
      ∙ ap (λ p. any p es) (fun_ext λ e. any-order_by orm at (clash e) es)

-- A selection of the selected rows has no more clashes.
pub has_clash-select :
    (p q : InstanceEvent → Bool) (es : List InstanceEvent)
    → ((e : InstanceEvent) → p e ≡ true → q e ≡ true)
    → has_clash (select q es) ≡ false
    → has_clash (select p es) ≡ false
has_clash-select p q es sub h = elim (Bool-cases (has_clash (select p es))) [
  | inr e ↦ e
  | inl e ↦
      let (x, mx, ex) = any-witness (λ e. any (clash e) (select p es)) (select p es) e in
      let (y, my, ey) = any-witness (clash x) (select p es) ex in
      let (lx, px) = select-In p x es mx in
      let (ly, py) = select-In p y es my in
      let found = any-intro (clash x) y (select q es) (In-select q y es ly (sub y py)) ey in
      cc (
        h,
        any-intro (λ e. any (clash e) (select q es)) x (select q es)
            (In-select q x es lx (sub x px)) found,
      )
]

no_end_later :
    (a b t : ℕ) (es : List InstanceEvent)
    → a ≤ b
    → any (ends_between a t) es ≡ false
    → any (ends_between b t) es ≡ false
no_end_later a b t [] le h = refl
no_end_later a b t (e ∷ es) le h = ground (arith, no_end_later a b t es le)

-- The rows of `q` from `from` on decide as much as all rows of `q`, if one of them is at `from`.
module _ (q : InstanceEvent → Bool) (from t : ℕ) (es : List InstanceEvent) where
  abbrev recent : InstanceEvent → Bool
  recent e = q e && leb from (at e)

  no_end_recent :
      (s : ℕ)
      → from ≤ s
      → any (ends_between s t) (select recent es) ≡ any (ends_between s t) (select q es)
  no_end_recent s le =
      bool_ext _ _
        (λ h.
          let (f, mf, ef) = any-witness (ends_between s t) (select recent es) h in
          let (lf, pf) = select-In recent f es mf in
          any-intro (ends_between s t) f (select q es) (In-select q f es lf (ground arith)) ef)
        (λ h.
          let (f, mf, ef) = any-witness (ends_between s t) (select q es) h in
          let (lf, pf) = select-In q f es mf in
          any-intro (ends_between s t) f (select recent es)
            (In-select recent f es lf (ground arith)) ef)

  recent_keeps : powered_on (select recent es) t ≡ true → powered_on (select q es) t ≡ true
  recent_keeps h =
      let (e, me, ee) = any-witness (keeps_on (select recent es) t) (select recent es) h in
      let (le, pe) = select-In recent e es me in
      any-intro (keeps_on (select q es) t) e (select q es) (In-select q e es le (ground arith))
        (ground (arith, no_end_recent (at e)))

  -- The row at `from` that is no power_off takes over from an earlier power_on.
  module _ (x : InstanceEvent) (x_in : In x es) (qx : q x ≡ true) (x_at : at x ≡ from)
      (le : from ≤ t) (kind : is_power_on x || is_power_off x ≡ true) where
    taken_over :
        (e : InstanceEvent)
        → keeps_on (select q es) t e ≡ true
        → at e < from
        → keeps_on (select recent es) t x ≡ true
    taken_over e k lt =
        let later =
          any-false (ends_between (at e) t) x (select q es) (ground arith)
            (In-select q x es x_in qx) in
        ground (arith, no_end_recent (at x), no_end_later (at e) (at x) t (select q es))

    pub keeps_recent : powered_on (select q es) t ≡ true → powered_on (select recent es) t ≡ true
    keeps_recent h =
        let (e, me, ee) = any-witness (keeps_on (select q es) t) (select q es) h in
        let (le', pe) = select-In q e es me in
        elim (Bool-cases (leb from (at e))) [
          | inl late ↦
              any-intro (keeps_on (select recent es) t) e (select recent es)
                (In-select recent e es le' (ground arith)) (ground (arith, no_end_recent (at e)))
          | inr early ↦
              any-intro (keeps_on (select recent es) t) x (select recent es)
                (In-select recent x es x_in (ground arith)) (taken_over e ee (ground arith))
        ]

-- Once a power event of `q` stands at `from`, the rows of `q` from then on tell the state later.
pub powered_on-recent :
    (q : InstanceEvent → Bool) (from t : ℕ) (es : List InstanceEvent)
    → ((e : InstanceEvent) → q e ≡ true → is_power_on e || is_power_off e ≡ true)
    → any (λ e. q e && at e == from) es ≡ true
    → from ≤ t
    → powered_on (select (λ e. q e && leb from e.occurred_at) es) t ≡ powered_on (select q es) t
powered_on-recent q from t es power h le =
    let (x, mx, ex) = any-witness (λ e. q e && at e == from) es h in
    bool_ext _ _ (recent_keeps q from t es)
      (keeps_recent q from t es x mx (ground arith) (ground arith) le (power x (ground arith)))

-- No row before `from` is left, so nothing runs before it.
pub powered_on-before :
    (q : InstanceEvent → Bool) (from t : ℕ) (es : List InstanceEvent)
    → t < from
    → powered_on (select (λ e. q e && leb from e.occurred_at) es) t ≡ false
powered_on-before q from t es lt =
    elim (Bool-cases (powered_on (select (λ e. q e && leb from (at e)) es) t)) [
      | inr e ↦ e
      | inl h ↦
          let (x, mx, ex) =
            any-witness (keeps_on (select (λ e. q e && leb from (at e)) es) t)
              (select (λ e. q e && leb from (at e)) es) h in
          let (_, qx) = select-In (λ e. q e && leb from (at e)) x es mx in ground arith
    ]

-- At its own instant a power_on counts, when no power_off falls on it.
pub powered_on_at :
    (x : InstanceEvent) (q : InstanceEvent → Bool) (es : List InstanceEvent)
    → In x es
    → is_power_on x ≡ true
    → q x ≡ true
    → has_clash (select q es) ≡ false
    → powered_on (select q es) x.occurred_at ≡ true
powered_on_at x q es m on qx clear =
    any-intro (keeps_on (select q es) (at x)) x (select q es) (In-select q x es m qx)
      (elim (Bool-cases (any (ends_between (at x) (at x)) (select q es))) [
        | inr e ↦ ground arith
        | inl e ↦
            let (f, mf, ef) = any-witness (ends_between (at x) (at x)) (select q es) e in
            let apart =
              any-false (clash x) f (select q es)
                (any-false (λ e. any (clash e) (select q es)) x (select q es) clear
                  (In-select q x es m qx))
                mf in
            ground arith
      ])
