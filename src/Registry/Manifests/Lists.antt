-- ===== src/Registry/Manifests/Lists.antt =====
-- `fetchManifest` of manifest lists and of manifests of schema 1, src/lib/OCI/Registry/Client.cpp.
use oci_tool.Prelude.{
  ℕ, [], text_eq, codes, ◌==◌, if◌then◌else◌, Exec, Outcome, returns, throws, parse_error, pure,
  get, ◌>>=◌,
}
use oci_tool.Json.{JsonLib}
use oci_tool.Schema1.{LegacyManifest}
use oci_tool.Schema1.Json.{legacy_from_json}
use oci_tool.Schema2.{ManifestList}
use oci_tool.Schema2.Json.{manifest_list_from_json}
use oci_tool.Registry.Net.{Net}
use oci_tool.Registry.Auth.{Client, parse_json}
use oci_tool.Registry.Manifests.{fetch_text, or_json_error, origin_of}

module _ (J : JsonLib) (N : Net J) where
  abbrev Calls : Type 0 → Type 0
  Calls A = Exec (Client J N) A

  -- What the parsed body gives; an empty one leaves the list as it is.
  fill_list : ManifestList → ManifestList → J.Json → Calls ManifestList
  unfolding origin_of
  fill_list ml asked j = if J.is_empty j then pure ml else (do
    o ← or_json_error J N (J.get_object j)
    new ← or_json_error J N (manifest_list_from_json J o ml)
    c ← get
    pure (record new {
      name = if new.name == [] then asked.name else new.name;
      origin_domain = origin_of J N asked.origin_domain c;
      requested_target = asked.requested_target;
    }))

  -- `fetchManifest( ml, request )`, which gives back what it leaves in `ml`.
  unfoldable pub fetch_list : ℕ → ManifestList → ManifestList → Calls ManifestList
  unfolding fill_list
  fetch_list fuel ml asked = do
    body ← fetch_text J N 2 fuel ml.media_type asked.name asked.requested_target
    (if body == []
        then pure (record ml { raw_str = body })
        else parse_json J N body >>= fill_list (record ml { raw_str = body }) asked)

  fill_legacy : LegacyManifest → LegacyManifest → J.Json → Calls LegacyManifest
  fill_legacy im asked j = do
    o ← or_json_error J N (J.get_object j)
    new ← or_json_error J N (legacy_from_json J o im)
    pure (record new {
      name = if new.name == [] then asked.name else new.name;
      origin_domain = asked.origin_domain;
    })

  -- A parse_error is logged; `im` keeps what it had by then.
  or_kept : {A : Type 0} → A → Outcome A → Outcome A
  or_kept im (throws parse_error) = returns im
  or_kept im o = o

  kept_on_parse_error : {A : Type 0} → A → Calls A → Calls A
  unfolding or_kept
  kept_on_parse_error im m c = (or_kept im (m c).0, (m c).1)

  unfoldable pub fetch_legacy : ℕ → LegacyManifest → LegacyManifest → Calls LegacyManifest
  unfolding fill_legacy kept_on_parse_error
  fetch_legacy fuel im asked = kept_on_parse_error im (do
    body ←
        fetch_text J N 2 fuel (codes "application/vnd.docker.distribution.manifest.v1+json")
          asked.name asked.requested_target
    kept_on_parse_error (record im { raw_str = body })
        (parse_json J N body >>= fill_legacy (record im { raw_str = body }) asked))

  -- For a SignedImageManifest, whose `from_json` only logs; its signature is never set.
  unfoldable pub fetch_signed : ℕ → LegacyManifest → LegacyManifest → Calls LegacyManifest
  fetch_signed fuel sim asked = do
    body ←
        fetch_text J N 2 fuel (codes "application/vnd.docker.distribution.manifest.v1+prettyjws")
          asked.name asked.requested_target
    j ← parse_json J N body
    pure (record sim {
      raw_str = body;
      name = if sim.name == [] then asked.name else sim.name;
      origin_domain = asked.origin_domain;
    })
