-- ===== src/Schema2/Json/RoundTrip.antt =====
-- What survives a manifest that is written as JSON and read again.
use oci_tool.Prelude.{
  ◌<◌, ◌^◌, ◌≡◌, refl, ◌≢◌, none, some, List, [], ◌∷◌, map, Text, text_eq, text_beq, codes, ◌==◌,
  if◌then◌else◌, All,
}
use oci_tool.Prelude.Options.{map_option}
use native.Mathlib.Nat.{mod-eq_of_lt}
use oci_tool.Json.{JsonLib, IsLawful}
use oci_tool.Schema2.{
  Platform, ManifestEntry, ManifestList, Layer, Config, ImageManifest, new_platform,
}
use oci_tool.Schema2.Json.{
  get_texts, texts, platform_from_json, platform_to_json, entry_to_json, get_entry,
  manifest_list_from_json, manifest_list_to_json, layer_to_json, get_layer, get_config,
  config_to_json, image_from_json, image_to_json,
}

-- What is left of a platform, and of an entry, that was written and read.
abbrev pub kept_platform : Platform → Platform
kept_platform p = record p { os_features = if p.os_version == [] then [] else p.os_features }

abbrev pub kept_entry : ManifestEntry → ManifestEntry
kept_entry e = record e { platform = kept_platform e.platform }

module _ (J : JsonLib) (L : IsLawful J) where
  map_option-get_text : (ts : List Text) → map_option J.get_text (map J.text ts) ≡ some ts
  map_option-get_text [] = refl
  map_option-get_text (t ∷ ts) = simp (L.get_text-text, map_option-get_text ts)

  get_texts-texts : (ts : List Text) → get_texts J (texts J ts) ≡ some ts
  unfolding get_texts texts
  get_texts-texts ts = simp (L.get_items-items, map_option-get_text)

  of_parts :
      (a o v : Text) (feats : List Text) (r : Text) (f : List Text)
      → let p : Platform = record {
        architecture = a;
        os = o;
        os_version = v;
        os_features = feats;
        variant = r;
        features = f;
      } in
        platform_from_json J (platform_to_json J p) new_platform ≡ some (kept_platform p)
  unfolding platform_from_json platform_to_json new_platform codes text_beq
  of_parts a o [] feats [] [] = simp (L.find-set, L.find-empty, L.get_text-text, get_texts-texts)
  of_parts a o [] feats [] (f ∷ fs) =
      simp (L.find-set, L.find-empty, L.get_text-text, get_texts-texts)
  of_parts a o [] feats (r ∷ rs) [] =
      simp (L.find-set, L.find-empty, L.get_text-text, get_texts-texts)
  of_parts a o [] feats (r ∷ rs) (f ∷ fs) =
      simp (L.find-set, L.find-empty, L.get_text-text, get_texts-texts)
  of_parts a o (v ∷ vs) feats [] [] =
      simp (L.find-set, L.find-empty, L.get_text-text, get_texts-texts)
  of_parts a o (v ∷ vs) feats [] (f ∷ fs) =
      simp (L.find-set, L.find-empty, L.get_text-text, get_texts-texts)
  of_parts a o (v ∷ vs) feats (r ∷ rs) [] =
      simp (L.find-set, L.find-empty, L.get_text-text, get_texts-texts)
  of_parts a o (v ∷ vs) feats (r ∷ rs) (f ∷ fs) =
      simp (L.find-set, L.find-empty, L.get_text-text, get_texts-texts)

  -- A platform that is written by `to_json` and read by `from_json` into a new one is as it was,
  -- but for its os features, which are lost if it has no os version.
  pub platform_from_json-platform_to_json :
      (p : Platform)
      → platform_from_json J (platform_to_json J p) new_platform ≡ some (kept_platform p)
  platform_from_json-platform_to_json p =
      of_parts p.architecture p.os p.os_version p.os_features p.variant p.features

  get_entry-entry_to_json :
      (e : ManifestEntry) → get_entry J (J.object (entry_to_json J e)) ≡ some (kept_entry e)
  unfolding get_entry entry_to_json codes text_beq
  get_entry-entry_to_json e = simp (
    L.get_object-object, L.find-set, L.find-empty, L.get_text-text, L.get_num-num,
    platform_from_json-platform_to_json,
  )

  pub map_option-get_entry :
      (es : List ManifestEntry)
      → map_option (get_entry J) (map (λ e. J.object (entry_to_json J e)) es)
        ≡ some (map kept_entry es)
  map_option-get_entry [] = refl
  map_option-get_entry (e ∷ es) = simp (get_entry-entry_to_json, map_option-get_entry es)

  -- A manifest list with a version below 2^16, written by `to_json` and read by `from_json` into
  -- any object, gives that object with the version and raw text of the one that was written, and
  -- its entries, each without the os features of a platform that has no os version.
  pub manifest_list_from_json-manifest_list_to_json :
      (ml old : ManifestList)
      → ml.schema_version < 2 ^ 16
      → manifest_list_from_json J (manifest_list_to_json J ml) old
        ≡ some (record old {
          schema_version = ml.schema_version;
          raw_str = ml.raw_str;
          manifests = map kept_entry ml.manifests;
        })
  unfolding manifest_list_from_json manifest_list_to_json codes text_beq
  manifest_list_from_json-manifest_list_to_json ml old h = simp (
    L.find-set,
    L.find-empty,
    L.get_text-text,
    L.get_num-num,
    L.get_items-items,
    map_option-get_entry,
    mod-eq_of_lt h,
  )

  get_layer-layer_to_json :
      (l : Layer) → l.urls ≡ [] → get_layer J (J.object (layer_to_json J l)) ≡ some l
  unfolding get_layer layer_to_json codes text_beq
  get_layer-layer_to_json l e =
      rw e (simp (L.get_object-object, L.find-set, L.find-empty, L.get_text-text, L.get_num-num))

  -- A layer that names its own addresses cannot be read back: `urls` is read into the digest.
  get_layer-layer_to_json_urls :
      (l : Layer) → l.urls ≢ [] → get_layer J (J.object (layer_to_json J l)) ≡ none
  get_layer-layer_to_json_urls l ne = of_urls l.urls refl
    where
      of_urls : (us : List Text) → l.urls ≡ us → get_layer J (J.object (layer_to_json J l)) ≡ none
      of_urls [] e = absurd (ne e)
      of_urls (u ∷ us) e =
          unfold get_layer layer_to_json codes text_beq in
          rw (e, layer_to_json)
            (simp (
              L.get_object-object, L.find-set, L.find-empty, L.get_text-text, L.get_num-num,
              L.get_text-items,
            ))

  pub map_option-get_layer :
      (ls : List Layer)
      → All (λ l. l.urls ≡ []) ls
      → map_option (get_layer J) (map (λ l. J.object (layer_to_json J l)) ls) ≡ some ls
  map_option-get_layer [] a = refl
  map_option-get_layer (l ∷ ls) (e, a) =
      simp (get_layer-layer_to_json l e, map_option-get_layer ls a)

  map_option-get_layer_urls :
      (ls : List Layer)
      → ¬ All (λ l. l.urls ≡ []) ls
      → map_option (get_layer J) (map (λ l. J.object (layer_to_json J l)) ls) ≡ none
  map_option-get_layer_urls [] n = absurd (n tt)
  map_option-get_layer_urls (l ∷ ls) n =
      on_urls l.urls refl (λ none_of. map_option-get_layer_urls ls none_of)
    where
      on_urls :
          (us : List Text)
          → l.urls ≡ us
          → (¬ All (λ l'. l'.urls ≡ []) ls
              → map_option (get_layer J) (map (λ l'. J.object (layer_to_json J l')) ls) ≡ none)
          → map_option (get_layer J) (map (λ l'. J.object (layer_to_json J l')) (l ∷ ls)) ≡ none
      on_urls [] e later = simp (get_layer-layer_to_json l e, later (λ a. n (e, a)))
      on_urls (u ∷ us) e later = simp (get_layer-layer_to_json_urls l (λ q. cc))

  pub get_config-config_to_json :
      (c : Config) → get_config J (J.object (config_to_json J c)) ≡ some c
  unfolding get_config config_to_json codes text_beq
  get_config-config_to_json c =
      simp (L.get_object-object, L.find-set, L.find-empty, L.get_text-text, L.get_num-num)

  -- An image manifest with a version below 2^16 and no layer that names addresses, written by
  -- `to_json` and read by `from_json` into any object, gives that object with the version, media
  -- type, config, layers and raw text of the one that was written.
  pub image_from_json-image_to_json :
      (im old : ImageManifest)
      → im.schema_version < 2 ^ 16
      → All (λ l. l.urls ≡ []) im.layers
      → image_from_json J (image_to_json J im) old
        ≡ some (record old {
          schema_version = im.schema_version;
          media_type = im.media_type;
          config = im.config;
          layers = im.layers;
          raw_str = im.raw_str;
        })
  unfolding image_from_json image_to_json codes text_beq
  image_from_json-image_to_json im old h a = simp (
    L.find-set,
    L.find-empty,
    L.get_text-text,
    L.get_num-num,
    L.get_items-items,
    get_config-config_to_json,
    map_option-get_layer im.layers a,
    mod-eq_of_lt h,
  )

  -- If some layer of an image manifest names addresses, `from_json` throws a json exception on
  -- what `to_json` wrote, whatever object it fills.
  pub image_from_json-image_to_json_urls :
      (im old : ImageManifest)
      → ¬ All (λ l. l.urls ≡ []) im.layers
      → image_from_json J (image_to_json J im) old ≡ none
  unfolding image_from_json image_to_json codes text_beq
  image_from_json-image_to_json_urls im old n = simp (
    L.find-set,
    L.find-empty,
    L.get_text-text,
    L.get_num-num,
    L.get_items-items,
    get_config-config_to_json,
    map_option-get_layer_urls im.layers n,
  )
