-- ===== src/Schema1.antt =====
-- The manifest of schema 1, include/OCI/Schema1.hpp.
pub mod Json
use oci_tool.Prelude.{List, [], Text}

-- `Schema1::ImageManifest`
pub record LegacyManifest : Type 0 where
  pub name : Text
  pub tag : Text
  pub architecture : Text
  pub fs_layers : List (Text × Text)
  pub history : List (Text × Text)
  pub schema_version : Text
  pub raw_str : Text
  pub origin_domain : Text
  pub requested_target : Text

unfoldable pub new_legacy : LegacyManifest
new_legacy = record {
  name = [];
  tag = [];
  architecture = [];
  fs_layers = [];
  history = [];
  schema_version = [];
  raw_str = [];
  origin_domain = [];
  requested_target = [];
}
