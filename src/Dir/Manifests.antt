-- ===== src/Dir/Manifests.antt =====
-- `fetchManifest` and `putManifest` of src/lib/OCI/Extensions/Dir.cpp, for schema 2.
pub mod Absolute
pub mod Image
pub mod Same
use oci_tool.Prelude.{
  ℕ, ◌≡◌, Bool, true, false, not, ◌&&◌, ◌||◌, Option, none, some, List, [], ◌∷◌, ◌++◌, Text,
  text_eq, nat_eq, codes, ◌==◌, if◌then◌else◌, all, any, Exec, Outcome, returns, throws, diverges,
  json_error, throw, pure, get, modify, ◌>>=◌, ◌>>◌,
}
use oci_tool.Prelude.Dict.{Dict, lookup}
use oci_tool.Json.{JsonLib}
use oci_tool.Json.Stream.{Stream}
use oci_tool.Filesystem.{
  Disk, Node, directory, file, contents, exists, is_directory, write_file, remove_file, remove_all,
}
use oci_tool.Filesystem.Paths.{join, parent_path, filename}
use oci_tool.Schema2.{
  ManifestEntry, ManifestList, ImageManifest, Layer, new_manifest_list, manifest_list_ne,
}
use oci_tool.Schema2.Json.{
  manifest_list_from_json, manifest_list_to_json, image_from_json, image_to_json,
}
use oci_tool.Dir.{Dir, Host, set_disk}
use oci_tool.Dir.Blobs.{has_blob}

-- The directory of a tag: to read from, below the domain or in the directory that was named; and to
-- write to, always below the domain.
unfoldable pub tag_dir_to_read : Dir → Text → Text → Text → Text
tag_dir_to_read d origin name target =
    if d.tree_root == d.directory
    then join (join d.tree_root origin) (name ++ codes ":" ++ target)
    else join d.directory (name ++ codes ":" ++ target)

unfoldable pub tag_dir : Dir → Text → Text → Text → Text
tag_dir d origin name target = join (join d.tree_root origin) (name ++ codes ":" ++ target)

unfoldable pub image_file : Text → Text → Text
image_file tag target = join (join tag target) (codes "ImageManifest.json")

unfoldable pub image_file_to_read : Dir → ImageManifest → Text
unfolding image_file tag_dir_to_read
image_file_to_read d asked =
    image_file (tag_dir_to_read d asked.origin_domain asked.name asked.requested_target)
      asked.requested_digest

-- Are the blobs of the layers and of the config in the tree?
unfoldable pub has_parts : ImageManifest → Host → Bool
has_parts im h = all (λ l. has_blob l.digest h) im.layers && has_blob im.config.digest h

unfoldable pub image_path : Dir → ImageManifest → Text → Text
unfolding image_file tag_dir
image_path d im target = image_file (tag_dir d im.origin_domain im.name im.requested_target) target

module _ (J : JsonLib) (S : Stream J) where
  abbrev Calls : Type 0 → Type 0
  Calls A = Exec Host A

  abbrev pub or_json_error : {A : Type 0} → Option A → Calls A
  or_json_error none = throw json_error
  or_json_error (some a) = pure a

  abbrev pub text_of : Option J.Json → Calls Text
  text_of none = throw json_error
  text_of (some j) = or_json_error (J.get_text j)

  -- `j[ k ].get_to( x )`
  abbrev pub text_at : J.Obj → Text → Calls Text
  text_at o k = text_of (J.find o k)

  image_from_file : J.Obj → ImageManifest → Calls ImageManifest
  image_from_file o im = do
    new ← or_json_error (image_from_json J o im)
    origin ← text_at o (codes "originDomain")
    target ← text_at o (codes "requestedTarget")
    requested ← text_at o (codes "requestedDigest")
    name ← text_at o (codes "name")
    pure (record new {
      origin_domain = origin;
      requested_target = target;
      requested_digest = requested;
      name = name;
    })

  -- A file that does not parse is logged, and leaves `im` as it was.
  read_image : ImageManifest → Option J.Json → Calls ImageManifest
  unfolding image_from_file
  read_image im none = pure im
  read_image im (some j) = or_json_error (J.get_object j) >>= λ o. image_from_file o im

  -- `fetchManifest( im, request )`, which gives back what it leaves in `im`.
  unfoldable pub fetch_image : ImageManifest → ImageManifest → Calls ImageManifest
  unfolding image_file_to_read read_image
  fetch_image im asked h =
      if exists h.disk (image_file_to_read h.dir asked)
      then read_image im (S.read (contents (lookup (image_file_to_read h.dir asked) h.disk.nodes)))
          h
      else pure im h

  pub image_for_file : ImageManifest → J.Obj
  image_for_file im =
      let o1 = J.set (image_to_json J im) (codes "originDomain") (J.text im.origin_domain) in
      let o2 = J.set o1 (codes "requestedTarget") (J.text im.requested_target) in
      let o3 = J.set o2 (codes "requestedDigest") (J.text im.requested_digest) in
      J.set o3 (codes "name") (J.text im.name)

  unfoldable pub put_image : ImageManifest → Text → Calls Bool
  unfolding image_for_file has_parts image_path
  put_image im target h =
      if not (has_parts im h) || exists h.disk (image_path h.dir im target) then pure false h else (
        returns true,
        set_disk (write_file (image_path h.dir im target) (S.print (image_for_file im)) h.disk) h,
      )
