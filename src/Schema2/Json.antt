-- ===== src/Schema2/Json.antt =====
-- `from_json` and `to_json` of src/lib/OCI/Schema2.cpp. A `from_json` is given the object that it
-- fills, and returns it filled, or `none` where a json exception is thrown.
pub mod RoundTrip
use oci_tool.Prelude.{
  ℕ, ◌%◌, ◌^◌, ◌≡◌, Bool, true, false, not, Option, none, some, List, [], ◌∷◌, map, Text, text_eq,
  codes, ◌==◌, if◌then◌else◌,
}
use oci_tool.Prelude.Options.{◌>>=◌, map_option}
use oci_tool.Json.{JsonLib, at_text, at_num, at_object, update}
use oci_tool.Schema2.{
  Platform, ManifestEntry, ManifestList, Layer, Config, ImageManifest, new_platform, new_entry,
  new_layer,
}

abbrev u16 : ℕ → ℕ
u16 n = n % 2 ^ 16

module _ (J : JsonLib) where
  open J use {
    Json, Obj, empty, find, set, object, text, num, items, get_object, get_text, get_num, get_items,
  }

  unfoldable pub get_texts : Json → Option (List Text)
  get_texts j = get_items j >>= map_option get_text

  texts : List Text → Json
  texts ts = items (map text ts)

  -- `platform`, inside `from_json( j, ManifestList::Manifest & )`
  unfoldable pub platform_from_json : Obj → Platform → Option Platform
  unfolding get_texts
  platform_from_json o p = do
    architecture ← at_text J o (codes "architecture")
    os ← at_text J o (codes "os")
    os_version ← update J get_text p.os_version (find o (codes "os.version"))
    os_features ← update J get_texts p.os_features (find o (codes "os.features"))
    variant ← update J get_text p.variant (find o (codes "variant"))
    features ← update J get_texts p.features (find o (codes "features"))
    some (record {
      architecture = architecture;
      os = os;
      os_version = os_version;
      os_features = os_features;
      variant = variant;
      features = features;
    })

  unfoldable pub entry_from_json : Obj → ManifestEntry → Option ManifestEntry
  unfolding platform_from_json
  entry_from_json o e = do
    media_type ← at_text J o (codes "mediaType")
    size ← at_num J o (codes "size")
    digest ← at_text J o (codes "digest")
    po ← at_object J o (codes "platform")
    platform ← platform_from_json po e.platform
    some (record { media_type = media_type; size = size; digest = digest; platform = platform })

  -- `j[ k ] = v` under a test
  abbrev set_if : Bool → Obj → Text → Json → Obj
  set_if b o k v = if b then set o k v else o

  unfoldable pub platform_to_json : Platform → Obj
  unfolding texts
  platform_to_json p =
      let o1 = set empty (codes "architecture") (text p.architecture) in
      let o2 = set o1 (codes "os") (text p.os) in
      let o3 = set_if (not (p.os_version == [])) o2 (codes "os.version") (text p.os_version) in
      let o4 = set_if (not (p.os_version == [])) o3 (codes "os.features") (texts p.os_features) in
      let o5 = set_if (not (p.variant == [])) o4 (codes "variant") (text p.variant) in
      elim p.features [ [] ↦ o5 | t ∷ ts ↦ set o5 (codes "features") (texts (t ∷ ts)) ]

  unfoldable pub entry_to_json : ManifestEntry → Obj
  unfolding platform_to_json
  entry_to_json e =
      let o1 = set empty (codes "mediaType") (text e.media_type) in
      let o2 = set o1 (codes "size") (num e.size) in
      let o3 = set o2 (codes "digest") (text e.digest) in
      set o3 (codes "platform") (object (platform_to_json e.platform))

  unfoldable pub get_entry : Json → Option ManifestEntry
  unfolding entry_from_json new_entry
  get_entry j = get_object j >>= λ o. entry_from_json o new_entry

  unfoldable pub manifest_list_from_json : Obj → ManifestList → Option ManifestList
  unfolding get_entry
  manifest_list_from_json o ml = do
    version ← at_num J o (codes "schemaVersion")
    raw ← update J get_text ml.raw_str (find o (codes "raw_str"))
    entries ←
        update J (λ j. get_items j >>= map_option get_entry) ml.manifests
          (find o (codes "manifests"))
    some (record ml { schema_version = u16 version; raw_str = raw; manifests = entries })

  unfoldable pub manifest_list_to_json : ManifestList → Obj
  unfolding entry_to_json
  manifest_list_to_json ml =
      let o1 = set empty (codes "schemaVersion") (num ml.schema_version) in
      let o2 = set o1 (codes "mediaType") (text ml.media_type) in
      let o3 =
        set o2 (codes "manifests") (items (map (λ e. object (entry_to_json e)) ml.manifests)) in
      set o3 (codes "raw_str") (text ml.raw_str)

  unfoldable pub layer_from_json : Obj → Layer → Option Layer
  layer_from_json o l = do
    media_type ← at_text J o (codes "mediaType")
    size ← at_num J o (codes "size")
    digest ← at_text J o (codes "digest")
    digest' ← update J get_text digest (find o (codes "urls"))
    some (record l { media_type = media_type; size = size; digest = digest' })

  unfoldable pub layer_to_json : Layer → Obj
  unfolding texts
  layer_to_json l =
      let o1 = set empty (codes "mediaType") (text l.media_type) in
      let o2 = set o1 (codes "size") (num l.size) in
      let o3 = set o2 (codes "digest") (text l.digest) in
      elim l.urls [ [] ↦ o3 | t ∷ ts ↦ set o3 (codes "urls") (texts (t ∷ ts)) ]

  unfoldable pub get_layer : Json → Option Layer
  unfolding layer_from_json new_layer
  get_layer j = get_object j >>= λ o. layer_from_json o new_layer

  unfoldable pub get_config : Json → Option Config
  get_config j = do
    o ← get_object j
    media_type ← at_text J o (codes "mediaType")
    size ← at_num J o (codes "size")
    digest ← at_text J o (codes "digest")
    some (record { media_type = media_type; size = size; digest = digest })

  unfoldable pub fill_image : Obj → ℕ → ImageManifest → Option ImageManifest
  unfolding get_config get_layer
  fill_image o version im = do
    media_type ← update J get_text im.media_type (find o (codes "mediaType"))
    config ← update J get_config im.config (find o (codes "config"))
    layers ←
        update J (λ j. get_items j >>= map_option get_layer) im.layers (find o (codes "layers"))
    raw ← update J get_text im.raw_str (find o (codes "raw_str"))
    some (record im {
      schema_version = u16 version;
      media_type = media_type;
      config = config;
      layers = layers;
      raw_str = raw;
    })

  -- Without a version nothing is read.
  abbrev with_version : Obj → ImageManifest → Option Json → Option ImageManifest
  with_version o im none = some im
  with_version o im (some j) = get_num j >>= λ version. fill_image o version im

  unfoldable pub image_from_json : Obj → ImageManifest → Option ImageManifest
  unfolding fill_image
  image_from_json o im = with_version o im (find o (codes "schemaVersion"))

  unfoldable pub config_to_json : Config → Obj
  config_to_json c =
      let o1 = set empty (codes "mediaType") (text c.media_type) in
      let o2 = set o1 (codes "size") (num c.size) in set o2 (codes "digest") (text c.digest)

  unfoldable pub image_to_json : ImageManifest → Obj
  unfolding config_to_json layer_to_json
  image_to_json im =
      let o1 = set empty (codes "schemaVersion") (num im.schema_version) in
      let o2 = set o1 (codes "mediaType") (text im.media_type) in
      let o3 = set o2 (codes "config") (object (config_to_json im.config)) in
      let o4 = set o3 (codes "layers") (items (map (λ l. object (layer_to_json l)) im.layers)) in
      set o4 (codes "raw_str") (text im.raw_str)
