-- ===== src/Tests/RegistryTests.antt =====
-- Locations.
use oci_tool.Prelude.{◌≡◌, refl, none, some, arith, codes, text_beq}
use oci_tool.Prelude.Strings.{find, substr, substr_n}
use oci_tool.Registry.Location.{split_location, domain_of}
use oci_tool.Registry.Location.Laws.{split_location-full, split_location-no_path}

quay :
    split_location (codes "https://quay.io/v2/x")
    ≡ some (codes "https", codes "quay.io", codes "/v2/x")
unfolding split_location codes find substr substr_n
quay = refl

hub : domain_of (codes "//docker.io/library") ≡ some (codes "registry-1.docker.io")
unfolding domain_of codes text_beq find substr substr_n
hub = refl

split_location-full_example :
    split_location (codes "https://quay.io/v2/x")
    ≡ some (codes "https", codes "quay.io", codes "/v2/x")
unfolding codes
split_location-full_example =
    split_location-full (codes "https") (codes "quay.io") (codes "v2/x") (omega arith) (omega arith)
      (omega arith) (omega arith)

split_location-no_path_example : split_location (codes "https://quay.io") ≡ none
unfolding codes
split_location-no_path_example =
    split_location-no_path (codes "https") (codes "quay.io") (omega arith) (omega arith)
      (omega arith) (omega arith) (omega arith)
