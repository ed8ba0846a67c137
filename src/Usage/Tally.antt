-- ===== src/Usage/Tally.antt =====
-- `_record_results` and `_record_concurrency_count` (cloudigrade/api/util.py).
use cloudigrade.Prelude.{
  ℕ, Bool, ◌&&◌, Option, none, some, List, [], ◌∷◌, ◌++◌, max, if◌then◌else◌, Text, codes, take,
  text_eq,
}
use cloudigrade.Prelude.Int.{ℤ, pos, negsuc, ◌+ℤ◌, pos_part}
use cloudigrade.Models.{Syspurpose, ConcurrentKey}

-- The constant ANY.
abbrev pub any_text : Text
any_text = codes "_ANY"

abbrev pub key_eq : ConcurrentKey → ConcurrentKey → Bool
key_eq a b =
    text_eq a.role b.role
    && text_eq a.sla b.sla
    && text_eq a.arch b.arch
    && text_eq a.usage b.usage
    && text_eq a.service_type b.service_type

-- The dict under a key; `max_count` begins at 0 and only grows, so it is natural.
pub record Entry : Type 0 where
  pub current_count : ℤ
  pub max_count : ℕ

abbrev pub new_entry : Entry
new_entry = record { current_count = pos 0; max_count = 0 }

abbrev pub Results : Type 0
Results = List (ConcurrentKey × Entry)

-- `entry["current_count"] += 1 if is_start else -1`, and the maximum of the two counts.
unfoldable pub count_entry : Bool → Entry → Entry
count_entry is_start e =
    let current = e.current_count +ℤ (if is_start then pos 1 else negsuc 0) in
    record { current_count = current; max_count = max (pos_part current) e.max_count }

-- `setdefault` appends a new entry for a key that is not there.
unfoldable pub record_concurrency_count : Results → ConcurrentKey → Bool → Results
unfolding count_entry
record_concurrency_count [] key is_start = (key, count_entry is_start new_entry) ∷ []
record_concurrency_count ((k, e) ∷ results) key is_start =
    if key_eq k key
    then (k, count_entry is_start e) ∷ results
    else (k, e) ∷ record_concurrency_count results key is_start

-- `value.get(field, "")[:64]`
abbrev pub field_or_empty : Option Text → Text
field_or_empty none = []
field_or_empty (some t) = take 64 t

abbrev pub purpose_field : (Syspurpose → Option Text) → Option Syspurpose → Text
purpose_field field none = []
purpose_field field (some s) = field_or_empty (field s)

abbrev pub for_each {ℓ κ} : {A : Type ℓ} {B : Type κ} → List A → (A → List B) → List B
for_each [] f = []
for_each (t ∷ ts) f = f t ++ for_each ts f

-- The keys of the two nested loops, in their order: three products of role and architecture, and
-- under each `itertools.product(slas, usages, service_types)`.
unfoldable pub result_keys : Option Syspurpose → Option Text → List ConcurrentKey
result_keys syspurpose arch =
    let arch_text : Text = elim arch [ none ↦ [] | some a ↦ a ] in
    let role = purpose_field (λ s. s.role) syspurpose in
    let sla = purpose_field (λ s. s.service_level_agreement) syspurpose in
    let usage = purpose_field (λ s. s.usage) syspurpose in
    let service_type = purpose_field (λ s. s.service_type) syspurpose in
    let products : List (Text × Text) =
      (any_text, any_text) ∷ (any_text, arch_text) ∷ (role, any_text) ∷ [] in
    for_each products λ product. for_each (any_text ∷ sla ∷ []) λ s.
      for_each (any_text ∷ usage ∷ []) λ u. for_each (any_text ∷ service_type ∷ []) λ t.
        record { role = product.0; sla = s; arch = product.1; usage = u; service_type = t } ∷ []

unfoldable pub record_keys : Results → List ConcurrentKey → Bool → Results
unfolding record_concurrency_count
record_keys results [] is_start = results
record_keys results (k ∷ ks) is_start =
    record_keys (record_concurrency_count results k is_start) ks is_start

unfoldable pub record_results : Results → Bool → Option Syspurpose → Option Text → Results
unfolding record_keys result_keys
record_results results is_start syspurpose arch =
    record_keys results (result_keys syspurpose arch) is_start
