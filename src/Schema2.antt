-- ===== src/Schema2.antt =====
-- The manifests of schema 2: include/OCI/Schema2.hpp and the comparisons of
-- src/lib/OCI/Schema2.cpp. `size` is a std::uintmax_t, `schema_version` a std::uint16_t.
pub mod Json
use oci_tool.Prelude.{ℕ, Bool, true, false, not, ◌&&◌, List, [], ◌∷◌, Text, text_eq, ◌==◌, codes}

pub record Platform : Type 0 where
  pub architecture : Text
  pub os : Text
  pub os_version : Text
  pub os_features : List Text
  pub variant : Text
  pub features : List Text

-- `ManifestList::Manifest`
pub record ManifestEntry : Type 0 where
  pub media_type : Text
  pub size : ℕ
  pub digest : Text
  pub platform : Platform

pub record ManifestList : Type 0 where
  pub schema_version : ℕ
  pub media_type : Text
  pub manifests : List ManifestEntry
  pub name : Text
  pub origin_domain : Text
  pub requested_target : Text
  pub raw_str : Text

pub record Layer : Type 0 where
  pub media_type : Text
  pub size : ℕ
  pub digest : Text
  pub urls : List Text

pub record Config : Type 0 where
  pub media_type : Text
  pub size : ℕ
  pub digest : Text

pub record ImageManifest : Type 0 where
  pub name : Text
  pub origin_domain : Text
  pub requested_target : Text
  pub requested_digest : Text
  pub raw_str : Text
  pub schema_version : ℕ
  pub media_type : Text
  pub config : Config
  pub layers : List Layer

-- The default-constructed objects.
unfoldable pub new_platform : Platform
new_platform = record {
  architecture = [];
  os = [];
  os_version = [];
  os_features = [];
  variant = [];
  features = [];
}

unfoldable pub new_entry : ManifestEntry
unfolding new_platform
new_entry = record { media_type = []; size = 0; digest = []; platform = new_platform }

unfoldable pub new_manifest_list : ManifestList
new_manifest_list = record {
  schema_version = 0;
  media_type = codes "application/vnd.docker.distribution.manifest.list.v2+json";
  manifests = [];
  name = [];
  origin_domain = [];
  requested_target = [];
  raw_str = [];
}

unfoldable pub new_layer : Layer
new_layer = record { media_type = []; size = 0; digest = []; urls = [] }

unfoldable pub new_image_manifest : ImageManifest
new_image_manifest = record {
  name = [];
  origin_domain = [];
  requested_target = [];
  requested_digest = [];
  raw_str = [];
  schema_version = 0;
  media_type = codes "application/vnd.docker.distribution.manifest.v2+json";
  config = record { media_type = []; size = 0; digest = [] };
  layers = [];
}

-- `operator==` of layers: by digest alone.
unfoldable pub layer_eq : Layer → Layer → Bool
layer_eq a b = a.digest == b.digest

-- std::vector's `operator==`, over the one of its elements.
layers_eq : List Layer → List Layer → Bool
unfolding layer_eq
layers_eq [] [] = true
layers_eq (a ∷ as') (b ∷ bs) = layer_eq a b && layers_eq as' bs
layers_eq _ _ = false

unfoldable pub image_manifest_eq : ImageManifest → ImageManifest → Bool
unfolding layers_eq
image_manifest_eq a b = layers_eq a.layers b.layers && a.config.digest == b.config.digest

unfoldable pub image_manifest_ne : ImageManifest → ImageManifest → Bool
unfolding image_manifest_eq
image_manifest_ne a b = not (image_manifest_eq a b)

unfoldable pub manifest_list_eq : ManifestList → ManifestList → Bool
manifest_list_eq a b = a.raw_str == b.raw_str

unfoldable pub manifest_list_ne : ManifestList → ManifestList → Bool
unfolding manifest_list_eq
manifest_list_ne a b = not (manifest_list_eq a b)
