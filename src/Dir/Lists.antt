-- ===== src/Dir/Lists.antt =====
-- `fetchManifest` and `putManifest` of a manifest list, src/lib/OCI/Extensions/Dir.cpp.
pub mod Complete
pub mod Files
pub mod RoundTrip
use oci_tool.Prelude.{
  ℕ, ◌≡◌, Bool, true, false, not, ◌&&◌, ◌||◌, Option, none, some, List, [], ◌∷◌, ◌++◌, map, Text,
  text_eq, nat_eq, codes, ◌==◌, if◌then◌else◌, all, any, Exec, Outcome, returns, throws, diverges,
  json_error, filesystem_error, throw, pure, get, modify, ◌>>=◌, ◌>>◌,
}
use oci_tool.Prelude.Dict.{Dict, lookup}
use oci_tool.Json.{JsonLib}
use oci_tool.Json.Stream.{Stream}
use oci_tool.Filesystem.{
  Disk, Node, contents, exists, is_directory, is_dir_node, write_file, remove_file, remove_all,
}
use oci_tool.Filesystem.Paths.{join, parent_path, filename}
use oci_tool.Schema2.{ManifestEntry, ManifestList, new_manifest_list, manifest_list_ne}
use oci_tool.Schema2.Json.{manifest_list_from_json, manifest_list_to_json}
use oci_tool.Dir.{Dir, Host, set_disk}
use oci_tool.Dir.Manifests.{tag_dir_to_read, tag_dir, image_file, or_json_error, text_at}

unfoldable pub list_file : Text → Text
list_file tag = join tag (codes "ManifestList.json")

unfoldable pub version_file : Text → Text
version_file tag = join tag (codes "Version")

-- The directories that an iterator finds in `dir`.
unfoldable pub children : Text → Dict Node → List Text
children dir [] = []
children dir ((q, n) ∷ nodes) =
    let rest = children dir nodes in
    if is_dir_node (some n) && parent_path q == dir then q ∷ rest else rest

-- A directory whose name is no digest of the list goes.
unfoldable pub prune : ManifestList → List Text → Disk → Disk
prune ml [] d = d
prune ml (q ∷ qs) d = prune ml qs (
    if any (λ e. e.digest == filename q) ml.manifests || not (exists d q)
    then d
    else remove_all q d)

unfoldable pub prune_tag : ManifestList → Text → Exec Host (Unit {0})
unfolding children prune
prune_tag ml tag h =
    if exists h.disk tag
    then (if is_directory h.disk tag
        then pure tt (set_disk (prune ml (children tag h.disk.nodes) h.disk) h)
        else throw filesystem_error h)
    else pure tt h

-- Has every image of the list its manifest in the tree?
unfoldable pub has_images : ManifestList → Text → Disk → Bool
has_images ml tag d = all (λ e. exists d (image_file tag e.digest)) ml.manifests

unfoldable pub tag_of : ManifestList → Host → Text
unfolding tag_dir
tag_of ml h = tag_dir h.dir ml.origin_domain ml.name ml.requested_target

module _ (J : JsonLib) (S : Stream J) where
  abbrev Calls : Type 0 → Type 0
  Calls A = Exec Host A

  with_version : ManifestList → Option Node → ManifestList
  with_version ml none = ml
  with_version ml (some n) = record ml { schema_version = S.read_number (contents (some n)) }

  list_from_file : J.Obj → ManifestList → Calls ManifestList
  list_from_file o ml = do
    new ← or_json_error J S (manifest_list_from_json J o ml)
    origin ← text_at J S o (codes "originDomain")
    target ← text_at J S o (codes "requestedTarget")
    name ← text_at J S o (codes "name")
    pure (record new { origin_domain = origin; requested_target = target; name = name })

  -- A file that does not parse is logged, and leaves `ml` with its version alone.
  read_list : ManifestList → Option J.Json → Calls ManifestList
  unfolding list_from_file
  read_list ml none = pure ml
  read_list ml (some j) = or_json_error J S (J.get_object j) >>= λ o. list_from_file o ml

  fetch_from : Text → ManifestList → Calls ManifestList
  unfolding read_list
  fetch_from tag ml h =
      if ml.schema_version == 2 && exists h.disk (list_file tag)
      then read_list ml (S.read (contents (lookup (list_file tag) h.disk.nodes))) h
      else pure ml h

  -- `fetchManifest( ml, request )`, which gives back what it leaves in `ml`.
  unfoldable pub fetch_list : ManifestList → ManifestList → Calls ManifestList
  unfolding with_version fetch_from
  fetch_list ml asked h =
      let tag = tag_dir_to_read h.dir asked.origin_domain asked.name asked.requested_target in
      fetch_from tag (with_version ml (lookup (version_file tag) h.disk.nodes)) h

  -- An old list that differs goes.
  drop_changed : ManifestList → Text → ManifestList → Calls (Unit {0})
  drop_changed ml tag other h =
      if manifest_list_ne ml other && exists h.disk (list_file tag)
      then pure tt (set_disk (remove_file (list_file tag) h.disk) h)
      else pure tt h

  drop_old : ManifestList → Text → Calls (Unit {0})
  unfolding drop_changed
  drop_old ml tag h =
      if exists h.disk (list_file tag)
      then (fetch_list new_manifest_list ml >>= drop_changed ml tag) h
      else pure tt h

  list_for_file : ManifestList → J.Obj
  list_for_file ml =
      let o1 =
        J.set (manifest_list_to_json J ml) (codes "originDomain") (J.text ml.origin_domain) in
      let o2 = J.set o1 (codes "requestedTarget") (J.text ml.requested_target) in
      J.set o2 (codes "name") (J.text ml.name)

  -- Both files are opened before the list is written.
  write_list : ManifestList → Text → Disk → Disk
  unfolding list_for_file
  write_list ml tag d =
      write_file (version_file tag) (S.print_number ml.schema_version)
        (write_file (list_file tag) (S.print (list_for_file ml)) d)

  write_if_complete : ManifestList → Text → Calls Bool
  unfolding write_list
  write_if_complete ml tag h =
      if has_images ml tag h.disk && not (exists h.disk (list_file tag))
      then (returns true, set_disk (write_list ml tag h.disk) h)
      else pure false h

  unfoldable pub put_list : ManifestList → Calls Bool
  unfolding drop_old write_if_complete tag_of
  put_list ml h =
      (do prune_tag ml (tag_of ml h); drop_old ml (tag_of ml h); write_if_complete ml (tag_of ml h))
        h
