-- ===== src/Copy/Lists.antt =====
-- `Copy::execute` of a tag, of a manifest list, and of a manifest of schema 1, src/lib/OCI/Copy.cpp, where
-- each task of the thread manager runs where it is started.
pub mod Errors
pub mod Kept
use oci_tool.Prelude.{
  ℕ, Bool, true, false, not, ◌&&◌, List, [], ◌∷◌, Text, text_eq, codes, ◌==◌, nat_eq, if◌then◌else◌,
  Exec, Outcome, returns, throws, diverges, pure, ◌>>=◌, ◌>>◌,
}
use oci_tool.BaseClient.{BaseClient}
use oci_tool.Schema1.{LegacyManifest, new_legacy}
use oci_tool.Schema2.{
  ManifestEntry, ManifestList, ImageManifest, new_image_manifest, new_manifest_list,
  manifest_list_ne,
}
use oci_tool.Copy.{Copier, Calls, with_source, with_destination, catch_runtime}
use oci_tool.Copy.Images.{copy_image}

-- `manifests.empty()`
abbrev is_empty {ℓ} : {A : Type ℓ} → List A → Bool
is_empty [] = true
is_empty (x ∷ xs) = false

-- What is asked of the source for an entry of a list, and for a tag.
abbrev image_request : ManifestList → ManifestEntry → ImageManifest
image_request ml e = record new_image_manifest {
  name = ml.name;
  requested_target = ml.requested_target;
  requested_digest = e.digest;
}

abbrev list_request : Text → Text → ManifestList
list_request rsrc target = record new_manifest_list { name = rsrc; requested_target = target }

abbrev legacy_request : Text → Text → LegacyManifest
legacy_request rsrc target = record new_legacy { name = rsrc; requested_target = target }

module _ (src dest : BaseClient) where
  copy_entry : ℕ → ManifestList → ManifestEntry → Calls src dest (Unit {0})
  copy_entry n ml e = do
    im ← with_source src dest (src.fetch_image new_image_manifest (image_request ml e))
    done ← copy_image src dest n im e.digest
    pure tt

  copy_entries : ℕ → ManifestList → List ManifestEntry → Calls src dest (Unit {0})
  unfolding copy_entry
  copy_entries n ml [] = pure tt
  copy_entries n ml (e ∷ es) = copy_entry n ml e >> copy_entries n ml es

  copy_new_list : ℕ → ManifestList → Calls src dest (Unit {0})
  unfolding copy_entries
  copy_new_list n ml = do
    copy_entries n ml ml.manifests
    done ← with_destination src dest (dest.put_list ml ml.requested_target)
    pure tt

  copy_list_from : ℕ → ManifestList → ManifestList → Calls src dest (Unit {0})
  unfolding copy_new_list
  copy_list_from n ml old =
      if manifest_list_ne ml old && not (is_empty ml.manifests) then copy_new_list n ml else pure tt

  -- `execute( manifest_list )`
  unfoldable pub copy_list : ℕ → ManifestList → Calls src dest (Unit {0})
  unfolding copy_list_from
  copy_list n ml =
      catch_runtime src dest tt
        (with_destination src dest (dest.fetch_list new_manifest_list ml) >>= copy_list_from n ml)

  -- `execute( Schema1::ImageManifest )`: blobs that are missing are logged.
  copy_legacy : LegacyManifest → List (Text × Text) → Calls src dest (Unit {0})
  copy_legacy im [] = pure tt
  copy_legacy im ((kind, sha) ∷ ls) = do
    there ←
        (if kind == codes "blobSum"
          then with_destination src dest (dest.has_legacy_blob im sha)
          else pure true)
    copy_legacy im ls

  copy_version : ℕ → Text → Text → ManifestList → Calls src dest (Unit {0})
  unfolding copy_legacy
  copy_version n rsrc target ml =
      if ml.schema_version == 1
      then (do
        im ← with_source src dest (src.fetch_legacy new_legacy (legacy_request rsrc target))
        copy_legacy im im.fs_layers)
      else if ml.schema_version == 2 && not (is_empty ml.manifests)
      then copy_list n ml
      else pure tt

  -- `execute( rsrc, target )`
  unfoldable pub copy_tag : ℕ → Text → Text → Calls src dest (Unit {0})
  unfolding copy_version
  copy_tag n rsrc target = catch_runtime src dest tt (
      with_source src dest (src.fetch_list new_manifest_list (list_request rsrc target))
      >>= copy_version n rsrc target)
