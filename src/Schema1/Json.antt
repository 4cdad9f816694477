-- ===== src/Schema1/Json.antt =====
-- `from_json` and `to_json` of a manifest of schema 1, src/lib/OCI/Schema1.cpp. `none` is a thrown
-- exception.
pub mod Lost
use oci_tool.Prelude.{
  ℕ, ◌≡◌, refl, ap, ◌∙◌, Bool, true, false, Option, none, some, List, [], ◌∷◌, ◌++◌, Text, text_eq,
  codes, ◌==◌, if◌then◌else◌, map,
}
use oci_tool.Prelude.Options.{◌>>=◌, map_option}
use oci_tool.Json.{JsonLib, IsLawful, at_text, update}
use oci_tool.Schema1.{LegacyManifest}

module _ (J : JsonLib) where
  open J use {Json, Obj, find, set, empty, text, items, get_object, get_text, elements, pairs}

  layer_of : Json → Option (Text × Text)
  layer_of j = do
    o ← get_object j
    digest ← at_text J o (codes "blobSum")
    some (codes "blobSum", digest)

  pair_of : Text × Json → Option (Text × Text)
  pair_of (key, j) = get_text j >>= λ t. some (key, t)

  append_layers : List (Text × Text) → Json → Option (List (Text × Text))
  unfolding layer_of
  append_layers old j = map_option layer_of (elements j) >>= λ new. some (old ++ new)

  append_history : List (Text × Text) → List Json → Option (List (Text × Text))
  unfolding pair_of
  append_history old [] = some old
  append_history old (j ∷ js) =
      map_option pair_of (pairs j) >>= λ new. append_history (old ++ new) js

  -- What is read when an exception leaves is lost with the object, which its callers drop.
  unfoldable pub legacy_from_json : Obj → LegacyManifest → Option LegacyManifest
  unfolding append_layers append_history
  legacy_from_json o im = do
    architecture ← at_text J o (codes "architecture")
    name ← at_text J o (codes "name")
    tag ← at_text J o (codes "tag")
    layers ← update J (append_layers im.fs_layers) im.fs_layers (find o (codes "fsLayers"))
    history ←
        update J (λ j. append_history im.history (elements j)) im.history (find o (codes "history"))
    raw ← update J get_text im.raw_str (find o (codes "raw_str"))
    some (record im {
      architecture = architecture;
      name = name;
      tag = tag;
      fs_layers = layers;
      history = history;
      raw_str = raw;
    })

  -- A std::pair becomes an array of two.
  pair_to_json : Text × Text → Json
  pair_to_json (k, v) = items (text k ∷ text v ∷ [])

  unfoldable pub legacy_to_json : LegacyManifest → Obj
  unfolding pair_to_json
  legacy_to_json im =
      let o1 = set empty (codes "schemaVersion") (text im.schema_version) in
      let o2 = set o1 (codes "architecture") (text im.architecture) in
      let o3 = set o2 (codes "name") (text im.name) in
      let o4 = set o3 (codes "fsLayers") (items (map pair_to_json im.fs_layers)) in
      let o5 = set o4 (codes "history") (items (map pair_to_json im.history)) in
      set o5 (codes "raw_str") (text im.raw_str)
