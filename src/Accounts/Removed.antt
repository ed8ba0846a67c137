-- ===== src/Accounts/Removed.antt =====
-- What the deletion of an account's related objects (cloudigrade/api/tasks/maintenance.py) leaves.
use cloudigrade.Prelude.{
  ℕ, ◌≡◌, refl, ◌∙◌, sym, Bool, true, false, ◌&&◌, not, arith, any, any-select, any-select_none,
  any-reject, any-kept, any-select_keeps, any-never, any-map_never, any-witness, any-intro, ◌==◌,
  inl, inr, Bool-cases, List, [], ◌∷◌, map, select,
}
use mathlib.Core.Path.{subst}
use cloudigrade.Models.{MachineImage, InstanceEvent, Run, ConcurrentUsage, Db}
use cloudigrade.Runs.Recalculate.{is_related, delete_runs}
use cloudigrade.Accounts.Removal.{
  is_in, belongs, is_run_of, counts_run_of, drop_runs, delete_runs_and_concurrent_usage,
  delete_events, uses_image, is_unused, delete_images, delete_instance_and_images,
  delete_cloud_account_related_objects,
}

usage_id_listed :
    (p : ConcurrentUsage → Bool) (j : ℕ) (us : List ConcurrentUsage)
    → any (λ u. u.id == j && p u) us ≡ true
    → any (λ i. i == j) (map (λ (u : ConcurrentUsage). u.id) (select p us)) ≡ true
usage_id_listed p j [] h = absurd (cc)
usage_id_listed p j (u ∷ us) h = elim (Bool-cases (u.id == j && p u)) [
  | inl e ↦ ground arith
  | inr e ↦ ground (arith, usage_id_listed p j us (ground arith))
]

module _ (account_id : ℕ) (db : Db) where
  -- The account has a run with the id.
  abbrev has_run_id : ℕ → Bool
  has_run_id i = any (λ (x : Run). x.id == i && is_run_of db.instances account_id x) db.runs

  -- A run of the account is not among what is left to a usage.
  related-drop_runs :
      (r : ℕ) (u : ConcurrentUsage)
      → has_run_id r ≡ true
      → is_related r (drop_runs db account_id u) ≡ false
  related-drop_runs r u h =
      any-select (λ i. i == r) (λ i. not (has_run_id i)) u.potentially_related_runs
      ∙ any-never (λ i. not (has_run_id i) && i == r) u.potentially_related_runs
          (λ i. elim (Bool-cases (i == r)) [
            | inr e ↦ ground arith
            | inl e ↦
                let same : i ≡ r = ground arith in
                let gone : has_run_id i ≡ true = subst (λ k. has_run_id k ≡ true) (sym same) h in
                ground arith
          ])

  counts_run_of-drop_runs :
      (u : ConcurrentUsage) → counts_run_of db account_id (drop_runs db account_id u) ≡ false
  counts_run_of-drop_runs u =
      elim (Bool-cases (counts_run_of db account_id (drop_runs db account_id u))) [
        | inr e ↦ e
        | inl e ↦
            let (r, m, k) =
              any-witness
                (λ r.
                  is_run_of db.instances account_id r
                  && is_related r.id (drop_runs db account_id u))
                db.runs e in
            let known =
              any-intro (λ (x : Run). x.id == r.id && is_run_of db.instances account_id x) r db.runs
                m (ground arith) in
            let free = related-drop_runs r.id u known in absurd (ground arith)
      ]

  abbrev after : Db
  after = delete_cloud_account_related_objects account_id db

  -- No run of the account is left.
  removed_runs : any (is_run_of db.instances account_id) after.runs ≡ false
  unfolding delete_cloud_account_related_objects delete_runs_and_concurrent_usage delete_events
      delete_instance_and_images delete_images delete_runs
  removed_runs =
      any-select_none (is_run_of db.instances account_id) _ _
        (any-reject (is_run_of db.instances account_id) db.runs)

  removed_events :
      any (λ (e : InstanceEvent). belongs db.instances account_id e.instance_id) after.events
      ≡ false
  unfolding delete_cloud_account_related_objects delete_runs_and_concurrent_usage delete_events
      delete_instance_and_images delete_images delete_runs
  removed_events =
      any-reject (λ (e : InstanceEvent). belongs db.instances account_id e.instance_id) db.events

  removed_instances : any (is_in account_id) after.instances ≡ false
  unfolding delete_cloud_account_related_objects delete_runs_and_concurrent_usage delete_events
      delete_instance_and_images delete_images delete_runs
  removed_instances = any-reject (is_in account_id) db.instances

  removed_usages : any (counts_run_of db account_id) after.usages ≡ false
  unfolding delete_cloud_account_related_objects delete_runs_and_concurrent_usage delete_events
      delete_instance_and_images delete_images delete_runs
  removed_usages = any-select_none (counts_run_of db account_id) _ _ (
      any-select_none (counts_run_of db account_id) _ _ (
        any-map_never (counts_run_of db account_id) (drop_runs db account_id) db.usages
          counts_run_of-drop_runs))

  -- The ids of the usages are those of before the rows of the through table went.
  removed_usage_ids :
      (j : ℕ)
      → any (λ (u : ConcurrentUsage). u.id == j && counts_run_of db account_id u) db.usages ≡ true
      → any (λ (u : ConcurrentUsage). u.id == j) after.usages ≡ false
  unfolding delete_cloud_account_related_objects delete_runs_and_concurrent_usage delete_events
      delete_instance_and_images delete_images delete_runs
  removed_usage_ids j h = any-select_none (λ (u : ConcurrentUsage). u.id == j) _ _ unlisted
    where
      ids : List ℕ
      ids = map (λ (u : ConcurrentUsage). u.id) (select (counts_run_of db account_id) db.usages)

      rest : List ConcurrentUsage
      rest = map (drop_runs db account_id) db.usages

      is_unlisted : ConcurrentUsage → Bool
      is_unlisted u = not (any (λ i. i == u.id) ids)

      unlisted : any (λ (u : ConcurrentUsage). u.id == j) (select is_unlisted rest) ≡ false
      unlisted =
          any-select (λ (u : ConcurrentUsage). u.id == j) is_unlisted rest
          ∙ any-never (λ u. is_unlisted u && u.id == j) rest
              (λ u. elim (Bool-cases (u.id == j)) [
                | inr e ↦ ground arith
                | inl e ↦
                    let same : u.id ≡ j = ground arith in
                    let listed : any (λ i. i == u.id) ids ≡ true =
                      rw same (usage_id_listed (counts_run_of db account_id) j db.usages h) in
                    ground arith
              ])

  no_usage_id :
      (j : ℕ)
      → any (λ (u : ConcurrentUsage). u.id == j && counts_run_of db account_id u) db.usages
          && any (λ (u : ConcurrentUsage). u.id == j) after.usages
        ≡ false
  no_usage_id j =
      elim (Bool-cases
        (any (λ (u : ConcurrentUsage). u.id == j && counts_run_of db account_id u) db.usages)) [
          | inl e ↦ rw (e) (removed_usage_ids j e)
          | inr e ↦ rw (e) refl
        ]

  -- An image that an instance of another account uses is kept.
  kept_images :
      (i : ℕ)
      → uses_image (λ k. not (is_in account_id k)) i db.instances ≡ true
      → any (λ (m : MachineImage). m.id == i) after.machine_images
        ≡ any (λ (m : MachineImage). m.id == i) db.machine_images
  unfolding delete_cloud_account_related_objects delete_runs_and_concurrent_usage delete_events
      delete_instance_and_images delete_images delete_runs
  kept_images i used =
      any-select_keeps (λ (m : MachineImage). m.id == i)
        (λ m. not (is_unused account_id db.instances m)) db.machine_images
        (λ m e.
          let same : m.id ≡ i = ground arith in
          let busy : uses_image (λ k. not (is_in account_id k)) m.id db.instances ≡ true =
            subst (λ k. uses_image (λ x. not (is_in account_id x)) k db.instances ≡ true) (sym same)
              used in
          ground arith)

  kept_used_images :
      (i : ℕ)
      → uses_image (λ k. not (is_in account_id k)) i db.instances
          && any (λ (m : MachineImage). m.id == i) after.machine_images
        ≡ uses_image (λ k. not (is_in account_id k)) i db.instances
          && any (λ (m : MachineImage). m.id == i) db.machine_images
  kept_used_images i =
      elim (Bool-cases (uses_image (λ k. not (is_in account_id k)) i db.instances)) [
        | inl e ↦ rw (e) (kept_images i e)
        | inr e ↦ rw (e) refl
      ]

  kept_events :
      (p : InstanceEvent → Bool)
      → any (λ e. not (belongs db.instances account_id e.instance_id) && p e) after.events
        ≡ any (λ e. not (belongs db.instances account_id e.instance_id) && p e) db.events
  unfolding delete_cloud_account_related_objects delete_runs_and_concurrent_usage delete_events
      delete_instance_and_images delete_images delete_runs
  kept_events p = any-kept p (λ e. not (belongs db.instances account_id e.instance_id)) db.events

-- After the related objects of an account are deleted, no run, event or instance of the account is left,
-- no usage is left with the id of one that counted a run of the account before, and no usage that is left
-- counts one; an image that an instance of another account uses is there as before, and so are the events
-- of the other accounts' instances.
pub delete_cloud_account_related_objects-clears :
    (account_id : ℕ) (db : Db)
    → let after = delete_cloud_account_related_objects account_id db in
      (any (is_run_of db.instances account_id) after.runs ≡ false)
      × (any (λ (e : InstanceEvent). belongs db.instances account_id e.instance_id) after.events
          ≡ false)
      × (any (is_in account_id) after.instances ≡ false)
      × (any (counts_run_of db account_id) after.usages ≡ false)
      × ((j : ℕ)
          → any (λ (u : ConcurrentUsage). u.id == j && counts_run_of db account_id u) db.usages
              && any (λ (u : ConcurrentUsage). u.id == j) after.usages
            ≡ false)
      × ((i : ℕ)
          → uses_image (λ k. not (is_in account_id k)) i db.instances
              && any (λ (m : MachineImage). m.id == i) after.machine_images
            ≡ uses_image (λ k. not (is_in account_id k)) i db.instances
              && any (λ (m : MachineImage). m.id == i) db.machine_images)
      × ((p : InstanceEvent → Bool)
          → any (λ e. not (belongs db.instances account_id e.instance_id) && p e) after.events
            ≡ any (λ e. not (belongs db.instances account_id e.instance_id) && p e) db.events)
delete_cloud_account_related_objects-clears account_id db = (
  removed_runs account_id db,
  removed_events account_id db,
  removed_instances account_id db,
  removed_usages account_id db,
  no_usage_id account_id db,
  kept_used_images account_id db,
  kept_events account_id db,
)
