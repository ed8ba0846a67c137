-- ===== src/Models/Images.antt =====
-- The properties of MachineImage (cloudigrade/api/models.py) that are read off the inspection, the
-- tag and the cloud-specific image.
use cloudigrade.Prelude.{Bool, false, ◌||◌, Option, none, some, Text}
use cloudigrade.Models.{MachineImage, Inspection, Syspurpose}

-- `image_json.get(key, False)`
abbrev pub or_false : Option Bool → Bool
or_false none = false
or_false (some b) = b

-- The common shape of the properties: False without an inspection.
abbrev pub found : (Inspection → Option Bool) → MachineImage → Bool
found field image = elim image.inspection_json [ none ↦ false | some json ↦ or_false (field json) ]

unfoldable pub rhel_enabled_repos_found : MachineImage → Bool
rhel_enabled_repos_found = found (λ json. json.rhel_enabled_repos_found)

unfoldable pub rhel_product_certs_found : MachineImage → Bool
rhel_product_certs_found = found (λ json. json.rhel_product_certs_found)

unfoldable pub rhel_release_files_found : MachineImage → Bool
rhel_release_files_found = found (λ json. json.rhel_release_files_found)

unfoldable pub rhel_signed_packages_found : MachineImage → Bool
rhel_signed_packages_found = found (λ json. json.rhel_signed_packages_found)

unfoldable pub rhel_version : MachineImage → Option Text
rhel_version image = elim image.inspection_json [ none ↦ none | some json ↦ json.rhel_version ]

unfoldable pub syspurpose : MachineImage → Option Syspurpose
syspurpose image = elim image.inspection_json [ none ↦ none | some json ↦ json.syspurpose ]

-- `getattr(self.content_object, "is_cloud_access", False)`
unfoldable pub is_cloud_access : MachineImage → Bool
is_cloud_access image = elim image.content_object [
  | none ↦ false
  | some content ↦ content.is_cloud_access
]

unfoldable pub is_marketplace : MachineImage → Bool
is_marketplace image = elim image.content_object [
  | none ↦ false
  | some content ↦ content.is_marketplace
]

unfoldable pub rhel_detected : MachineImage → Bool
unfolding is_cloud_access rhel_enabled_repos_found rhel_product_certs_found rhel_release_files_found
    rhel_signed_packages_found
rhel_detected image =
    image.rhel_detected_by_tag
    || is_cloud_access image
    || rhel_enabled_repos_found image
    || rhel_product_certs_found image
    || rhel_release_files_found image
    || rhel_signed_packages_found image

unfoldable pub rhel : MachineImage → Bool
unfolding rhel_detected
rhel image = rhel_detected image

unfoldable pub openshift : MachineImage → Bool
openshift image = image.openshift_detected
