-- ===== src/Usage/Entries.antt =====
-- What recording does to the entry of one key.
use cloudigrade.Prelude.{
  ℕ, zero, suc, ◌+◌, ◌≤◌, ◌≡◌, ◌↔◌, refl, Bool, true, false, Option, List, [], ◌∷◌, arith, max,
  if◌then◌else◌, Text, text_eq_iff, count, inl, inr, Bool-cases,
}
use native.Mathlib.Nat.{zero-add}
use cloudigrade.Prelude.Int.{◌+ℤ◌, pos_part, neg_part}
use cloudigrade.Models.{Syspurpose, ConcurrentKey}
use cloudigrade.Usage.Tally.{
  key_eq, Entry, new_entry, Results, count_entry, record_concurrency_count, record_keys,
  result_keys,
}

pub key_eq_iff : (a b : ConcurrentKey) → (key_eq a b ≡ true) ↔ (a ≡ b)
key_eq_iff a b = ground (
  arith,
  text_eq_iff a.role b.role,
  text_eq_iff a.sla b.sla,
  text_eq_iff a.arch b.arch,
  text_eq_iff a.usage b.usage,
  text_eq_iff a.service_type b.service_type,
)

-- The entry of a key, or a new one.
abbrev pub entry_at : ConcurrentKey → Results → Entry
entry_at k [] = new_entry
entry_at k ((j, e) ∷ results) = if key_eq j k then e else entry_at k results

entry_at-record :
    (k key : ConcurrentKey) (s : Bool) (results : Results)
    → entry_at k (record_concurrency_count results key s)
      ≡ (if key_eq key k then count_entry s (entry_at k results) else entry_at k results)
unfolding record_concurrency_count
entry_at-record k key s [] = refl
entry_at-record k key s ((j, e) ∷ results) =
    ground
      (arith, key_eq_iff j key, key_eq_iff j k, key_eq_iff key k, entry_at-record k key s results)

-- One entry counted several times.
pub count_entries : ℕ → Bool → Entry → Entry
count_entries zero s e = e
count_entries (suc n) s e = count_entries n s (count_entry s e)

one-add : (n : ℕ) → 1 + n ≡ suc n
one-add n = omega arith

pub entry_at-record_keys :
    (k : ConcurrentKey) (keys : List ConcurrentKey) (s : Bool) (results : Results)
    → entry_at k (record_keys results keys s)
      ≡ count_entries (count (λ j. key_eq j k) keys) s (entry_at k results)
unfolding record_keys count_entries
entry_at-record_keys k [] s results = refl
entry_at-record_keys k (j ∷ keys) s results = elim (Bool-cases (key_eq j k)) [
  | inl e ↦
      rw
        (
          e,
          entry_at-record_keys k keys s (record_concurrency_count results j s),
          entry_at-record k j s results,
          e,
        )
        (rw one-add)
  | inr e ↦
      rw
        (
          e,
          entry_at-record_keys k keys s (record_concurrency_count results j s),
          entry_at-record k j s results,
          e,
        )
        (rw zero-add)
]

-- How many of the keys of a record are `k`.
unfoldable pub weight : ConcurrentKey → Option Syspurpose → Option Text → ℕ
weight k syspurpose arch = count (λ j. key_eq j k) (result_keys syspurpose arch)

-- The count so far is the number of starts less the number of ends, and no more than the maximum.
pub record IsCounted (e : Entry) (starts ends : ℕ) : Type 0 where
  pub balance : pos_part e.current_count + ends ≡ neg_part e.current_count + starts
  pub bounded : pos_part e.current_count ≤ e.max_count

count_entry-start :
    (e : Entry) (a b : ℕ)
    → IsCounted e a b
    → IsCounted (count_entry true e) (suc a) b
      × ((count_entry true e).max_count
          ≡ max e.max_count (pos_part (count_entry true e).current_count))
      × (pos_part e.current_count ≤ pos_part (count_entry true e).current_count)
unfolding count_entry ◌+ℤ◌
count_entry-start e a b h = ground arith

count_entry-end :
    (e : Entry) (a b : ℕ)
    → IsCounted e a b
    → IsCounted (count_entry false e) a (suc b) × ((count_entry false e).max_count ≡ e.max_count)
unfolding count_entry ◌+ℤ◌
count_entry-end e a b h = ground arith

pub count_entries-starts :
    (n : ℕ) (e : Entry) (a b : ℕ)
    → IsCounted e a b
    → IsCounted (count_entries n true e) (n + a) b
      × (e.max_count ≤ (count_entries n true e).max_count)
      × ((count_entries n true e).max_count
          ≤ max e.max_count (pos_part (count_entries n true e).current_count))
      × (pos_part e.current_count ≤ pos_part (count_entries n true e).current_count)
unfolding count_entries
count_entries-starts zero e a b h = ground arith
count_entries-starts (suc n) e a b h =
    let (h', m, le) = count_entry-start e a b h in
    ground (arith, m, le, count_entries-starts n (count_entry true e) (suc a) b h')

pub count_entries-ends :
    (n : ℕ) (e : Entry) (a b : ℕ)
    → IsCounted e a b
    → IsCounted (count_entries n false e) a (n + b)
      × ((count_entries n false e).max_count ≡ e.max_count)
unfolding count_entries
count_entries-ends zero e a b h = ground arith
count_entries-ends (suc n) e a b h =
    let (h', m) = count_entry-end e a b h in
    ground (arith, m, count_entries-ends n (count_entry false e) a (suc b) h')
