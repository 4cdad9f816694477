-- ===== src/Tests/SchemaTests.antt =====
-- Manifests through the JSON library of trees.
use oci_tool.Prelude.{◌≡◌, refl, none, some, [], ◌∷◌, arith, codes}
use oci_tool.Json.Tree.{tree_json, tree_json-IsLawful}
use oci_tool.Schema2.{
  Platform, ManifestEntry, ManifestList, Layer, ImageManifest, new_manifest_list,
}
use oci_tool.Schema2.Json.{
  manifest_list_from_json, manifest_list_to_json, image_from_json, image_to_json,
}
use oci_tool.Schema2.Json.RoundTrip.{
  kept_entry, manifest_list_from_json-manifest_list_to_json, image_from_json-image_to_json,
  image_from_json-image_to_json_urls,
}

abbrev arm : Platform
arm = record {
  architecture = codes "arm";
  os = codes "linux";
  os_version = [];
  os_features = codes "f" ∷ [];
  variant = codes "v7";
  features = [];
}

abbrev entry : ManifestEntry
entry = record { media_type = codes "m"; size = 3; digest = codes "d"; platform = arm }

abbrev two_arch : ManifestList
two_arch = record {
  schema_version = 2;
  media_type = codes "m";
  manifests = entry ∷ entry ∷ [];
  name = codes "n";
  origin_domain = codes "o";
  requested_target = codes "t";
  raw_str = codes "r";
}

manifest_list_from_json-manifest_list_to_json_example :
    manifest_list_from_json tree_json (manifest_list_to_json tree_json two_arch) new_manifest_list
    ≡ some (record new_manifest_list {
      schema_version = 2;
      raw_str = codes "r";
      manifests = kept_entry entry ∷ kept_entry entry ∷ [];
    })
manifest_list_from_json-manifest_list_to_json_example =
    manifest_list_from_json-manifest_list_to_json tree_json tree_json-IsLawful two_arch
      new_manifest_list (omega arith)

abbrev layer : Layer
layer = record { media_type = codes "l"; size = 4096; digest = codes "d"; urls = [] }

abbrev image : ImageManifest
image = record {
  name = codes "n";
  origin_domain = codes "o";
  requested_target = codes "t";
  requested_digest = codes "q";
  raw_str = codes "r";
  schema_version = 2;
  media_type = codes "m";
  config = record { media_type = codes "c"; size = 2; digest = codes "e" };
  layers = layer ∷ [];
}

image_from_json-image_to_json_example :
    image_from_json tree_json (image_to_json tree_json image) image ≡ some image
image_from_json-image_to_json_example =
    image_from_json-image_to_json tree_json tree_json-IsLawful image image (omega arith) (refl, tt)

abbrev foreign : ImageManifest
foreign = record image { layers = record layer { urls = codes "u" ∷ [] } ∷ [] }

image_from_json-image_to_json_urls_example :
    image_from_json tree_json (image_to_json tree_json foreign) image ≡ none
unfolding codes
image_from_json-image_to_json_urls_example =
    image_from_json-image_to_json_urls tree_json tree_json-IsLawful foreign image (λ a. cc)
