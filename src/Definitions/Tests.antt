-- ===== src/Definitions/Tests.antt =====
-- Saving definitions on a concrete table.
use cloudigrade.Prelude.{◌≡◌, some, List, [], ◌∷◌, Text, In, codes}
use cloudigrade.Models.{CloudType, aws, InstanceDefinition, empty_db}
use cloudigrade.Runs.Denormalize.{type_definition}
use cloudigrade.Definitions.{
  Attributes, save_instance_type_definitions, save_instance_type_definitions-keeps,
}

abbrev small : List (Text × Attributes)
small = (codes "t2.nano", record { memory = 512; vcpu_hundredths = 100 }) ∷ []

save_instance_type_definitions-keeps_example :
    ((name : Text) (cloud : CloudType) (d : InstanceDefinition)
      → type_definition empty_db (some name) cloud ≡ some d
      → type_definition (save_instance_type_definitions small aws empty_db) (some name) cloud
        ≡ some d)
    × ((name : Text) (a : Attributes)
        → In (name, a) small
        → (d : InstanceDefinition) × (type_definition
              (save_instance_type_definitions small aws empty_db)
              (some name)
              aws
            ≡ some d))
save_instance_type_definitions-keeps_example =
    save_instance_type_definitions-keeps small aws empty_db
