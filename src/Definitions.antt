-- ===== src/Definitions.antt =====
-- `save_instance_type_definitions` (cloudigrade/api/util.py).
mod Tests
use cloudigrade.Runs.Denormalize.{type_definition}
use cloudigrade.Prelude.{
  find-any, ℕ, ◌≡◌, refl, ◌∙◌, Bool, true, false, ◌&&◌, ◌||◌, Option, none, some, List, [], ◌∷◌,
  ◌++◌, arith, if◌then◌else◌, Text, text_eq, text_eq_refl, text_eq_iff, find, any, any-append, inl,
  inr, Option-cases, Bool-cases, In, here, there,
}
use cloudigrade.Models.{CloudType, aws, azure, cloud_type_eq, InstanceDefinition, Db}

-- The attributes of a definition under its name; a vCPU count is in hundredths.
pub record Attributes : Type 0 where
  pub memory : ℕ
  pub vcpu_hundredths : ℕ

abbrev pub names : Text → CloudType → InstanceDefinition → Bool
names name cloud_type d = text_eq d.instance_type name && cloud_type_eq d.cloud_type cloud_type

-- `get_or_create`: a row that is there stays as it is.
unfoldable pub get_or_create :
    Text → CloudType → Attributes → List InstanceDefinition → List InstanceDefinition
get_or_create name cloud_type attributes ds =
    if any (names name cloud_type) ds
    then ds
    else ds
      ++ record {
        instance_type = name;
        cloud_type = cloud_type;
        memory_mib = attributes.memory;
        vcpu_hundredths = attributes.vcpu_hundredths;
      }
        ∷ []

unfoldable pub save_definitions :
    List (Text × Attributes) → CloudType → List InstanceDefinition → List InstanceDefinition
unfolding get_or_create
save_definitions [] cloud_type ds = ds
save_definitions ((name, attributes) ∷ rest) cloud_type ds =
    save_definitions rest cloud_type (get_or_create name cloud_type attributes ds)

-- The loop over the items of the dict.
unfoldable pub save_instance_type_definitions : List (Text × Attributes) → CloudType → Db → Db
unfolding save_definitions
save_instance_type_definitions definitions cloud_type db = record db {
  definitions = save_definitions definitions cloud_type db.definitions;
}

cloud_type_eq_refl : (c : CloudType) → cloud_type_eq c c ≡ true
cloud_type_eq_refl aws = refl
cloud_type_eq_refl azure = refl

find-keeps :
    (p : InstanceDefinition → Bool) (ds es : List InstanceDefinition) {d : InstanceDefinition}
    → find p ds ≡ some d
    → find p (ds ++ es) ≡ some d
find-keeps p [] es h = cc
find-keeps p (x ∷ ds) es h = elim (Bool-cases (p x)) [
  | inl e ↦ rw e (rw e at h)
  | inr e ↦ rw e (find-keeps p ds es (rw e at h))
]

get_or_create-keeps :
    (p : InstanceDefinition → Bool) (name : Text) (c : CloudType) (a : Attributes)
    (ds : List InstanceDefinition) {d : InstanceDefinition}
    → find p ds ≡ some d
    → find p (get_or_create name c a ds) ≡ some d
unfolding get_or_create
get_or_create-keeps p name c a ds h = elim (Bool-cases (any (names name c) ds)) [
  | inl e ↦ rw e h
  | inr e ↦ rw e (find-keeps p ds _ h)
]

save_definitions-keeps :
    (p : InstanceDefinition → Bool) (defs : List (Text × Attributes)) (c : CloudType)
    (ds : List InstanceDefinition) {d : InstanceDefinition}
    → find p ds ≡ some d
    → find p (save_definitions defs c ds) ≡ some d
unfolding save_definitions
save_definitions-keeps p [] c ds h = h
save_definitions-keeps p ((name, a) ∷ rest) c ds h =
    save_definitions-keeps p rest c (get_or_create name c a ds)
      (get_or_create-keeps p name c a ds h)

get_or_create-found :
    (name : Text) (c : CloudType) (a : Attributes) (ds : List InstanceDefinition)
    → (d : InstanceDefinition) × (find (names name c) (get_or_create name c a ds) ≡ some d)
unfolding get_or_create
get_or_create-found name c a ds = elim (Bool-cases (any (names name c) ds)) [
  | inl e ↦ rw e (find-any (names name c) ds e)
  | inr e ↦ rw e (
      find-any (names name c) (ds ++ _ ∷ [])
        (any-append (names name c) ds _ ∙ ground (arith, text_eq_refl name, cloud_type_eq_refl c)))
]

save_definitions-found :
    (defs : List (Text × Attributes)) (c : CloudType) (ds : List InstanceDefinition) (name : Text)
    (a : Attributes)
    → In (name, a) defs
    → (d : InstanceDefinition) × (find (names name c) (save_definitions defs c ds) ≡ some d)
unfolding save_definitions
save_definitions-found [] c ds name a m = elim m [ ]
save_definitions-found (_ ∷ rest) c ds name a here =
    let (d, e) = get_or_create-found name c a ds in
    (d, save_definitions-keeps (names name c) rest c (get_or_create name c a ds) e)
save_definitions-found ((n, b) ∷ rest) c ds name a (there m) =
    save_definitions-found rest c (get_or_create n c b ds) name a m

-- Saving definitions leaves every definition that was there as it was, under any name and cloud, and
-- afterwards each of the given names has a definition for the given cloud.
pub save_instance_type_definitions-keeps :
    (defs : List (Text × Attributes)) (c : CloudType) (db : Db)
    → ((name : Text) (cloud : CloudType) (d : InstanceDefinition)
        → type_definition db (some name) cloud ≡ some d
        → type_definition (save_instance_type_definitions defs c db) (some name) cloud ≡ some d)
      × ((name : Text) (a : Attributes)
          → In (name, a) defs
          → (d : InstanceDefinition) × (type_definition
                (save_instance_type_definitions defs c db)
                (some name)
                c
              ≡ some d))
unfolding save_instance_type_definitions type_definition
save_instance_type_definitions-keeps defs c db = (
  λ name cloud d h. save_definitions-keeps (names name cloud) defs c db.definitions h,
  λ name a m. save_definitions-found defs c db.definitions name a m,
)
