-- ===== src/Dir/Lists/RoundTrip.antt =====
-- A manifest list, put into a tree and fetched from it.
use native.Mathlib.Nat.{mod-eq_of_lt}
use oci_tool.Prelude.{
  ℕ, ◌<◌, ◌^◌, ◌≡◌, refl, sym, ◌≢◌, ◌∙◌, true, false, some, List, [], ◌∷◌, map, Text, text_eq,
  text_beq, codes, ◌==◌, all, any, All, returns, ◌>>=◌, arith,
}
use oci_tool.Prelude.Dict.{lookup}
use oci_tool.Json.{JsonLib, IsLawful}
use oci_tool.Json.Stream.{Stream, IsFaithful}
use oci_tool.Filesystem.{Disk, file, exists, is_directory, write_file}
use oci_tool.Filesystem.Laws.{
  write_file-other, write_file-free, write_file-is_directory, write_file-full,
}
use oci_tool.Filesystem.Paths.{join-injective, parent_path, filename}
use oci_tool.Schema2.{ManifestList, ManifestEntry}
use oci_tool.Schema2.Json.{manifest_list_from_json, manifest_list_to_json}
use oci_tool.Schema2.Json.RoundTrip.{kept_entry, map_option-get_entry}
use oci_tool.Dir.{Host, set_disk}
use oci_tool.Dir.Manifests.{tag_dir_to_read, image_file}
use oci_tool.Dir.Lists.{
  list_file, version_file, children, prune, prune_tag, has_images, with_version, list_from_file,
  read_list, fetch_from, fetch_list, drop_old, list_for_file, write_list, write_if_complete, tag_of,
  put_list,
}
use oci_tool.Dir.Lists.Complete.{HasImages}

list_file-ne-version_file : (tag : Text) → version_file tag ≢ list_file tag
unfolding list_file version_file codes
list_file-ne-version_file tag e = cc (
    join-injective tag (codes "Version") (codes "ManifestList.json") (λ q. cc, omega arith)
      (λ q. cc, omega arith) e)

-- Nothing is pruned where each directory is named after a digest of the list.
prune-named :
    (ml : ManifestList) (qs : List Text) (d : Disk)
    → All (λ q. any (λ e. e.digest == filename q) ml.manifests ≡ true) qs
    → prune ml qs d ≡ d
unfolding prune
prune-named ml [] d named = refl
prune-named ml (q ∷ qs) d (n, named) = rw n (prune-named ml qs d named)

all_images_back :
    (d : Disk) (tag : Text) (es : List ManifestEntry)
    → All (λ e. exists d (image_file tag e.digest) ≡ true) es
    → all (λ e. exists d (image_file tag e.digest)) es ≡ true
all_images_back d tag [] a = refl
all_images_back d tag (e ∷ es) a = ground (arith, all_images_back d tag es a.1)

-- A tag's directory, ready for a list that is not there.
pub record IsOpen (ml : ManifestList) (tag : Text) (d : Disk) : Type 0 where
  pub made : is_directory d tag ≡ true
  pub named :
      All (λ q. any (λ e. e.digest == filename q) ml.manifests ≡ true) (children tag d.nodes)
  pub images : HasImages ml tag d
  pub room :
      (is_directory d (parent_path (list_file tag)) ≡ true)
      × (is_directory d (parent_path (version_file tag)) ≡ true)
  pub free : (exists d (list_file tag) ≡ false) × (exists d (version_file tag) ≡ false)
  pub space : d.full ≡ false

write_file-absent :
    (p q : Text) (t : List ℕ) (d : Disk)
    → p ≢ q
    → exists d q ≡ false
    → exists (write_file p t d) q ≡ false
unfolding exists
write_file-absent p q t d ne e = rw (write_file-other p q t d ne) e

dir_exists : (p : Text) (d : Disk) → is_directory d p ≡ true → exists d p ≡ true
unfolding is_directory exists
dir_exists p d e = ground arith

module _ (J : JsonLib) (S : Stream J) (L : IsLawful J) (F : IsFaithful J S) where
  put_list-IsOpen :
      (ml : ManifestList) (h : Host)
      → IsOpen ml (tag_of ml h) h.disk
      → put_list J S ml h ≡ (returns true, set_disk (write_list J S ml (tag_of ml h) h.disk) h)
  unfolding put_list prune_tag drop_old write_if_complete has_images
  put_list-IsOpen ml h o = simp (
    dir_exists (tag_of ml h) h.disk o.made,
    o.made,
    prune-named ml (children (tag_of ml h) h.disk.nodes) h.disk o.named,
    o.free.0,
    all_images_back h.disk (tag_of ml h) ml.manifests o.images,
  )

  list_from_file-list_for_file :
      (ml old : ManifestList) (h : Host)
      → ml.schema_version < 2 ^ 16
      → read_list J S old (S.read (S.print (list_for_file J S ml))) h ≡ (
        returns
            (record ml { media_type = old.media_type; manifests = map kept_entry ml.manifests }),
        h,
      )
  unfolding read_list list_from_file list_for_file manifest_list_from_json manifest_list_to_json
      codes text_beq
  list_from_file-list_for_file ml old h v = simp (
    F.read-print,
    L.get_object-object,
    L.find-set,
    L.find-empty,
    L.get_text-text,
    L.get_num-num,
    L.get_items-items,
    map_option-get_entry J L,
    mod-eq_of_lt v,
  )

  written_list :
      (ml : ManifestList) (tag : Text) (d : Disk)
      → IsOpen ml tag d
      → lookup (list_file tag) (write_list J S ml tag d).nodes
        ≡ some (file (S.print (list_for_file J S ml)))
  unfolding write_list
  written_list ml tag d o =
      write_file-other (version_file tag) (list_file tag) _ _ (list_file-ne-version_file tag)
      ∙ write_file-free (list_file tag) _ d o.free.0 o.room.0 o.space

  written_version :
      (ml : ManifestList) (tag : Text) (d : Disk)
      → IsOpen ml tag d
      → lookup (version_file tag) (write_list J S ml tag d).nodes
        ≡ some (file (S.print_number ml.schema_version))
  unfolding write_list
  written_version ml tag d o =
      write_file-free (version_file tag) _ _
        (write_file-absent (list_file tag) (version_file tag) _ d
          (λ e. list_file-ne-version_file tag (sym e)) o.free.1)
        (write_file-is_directory (list_file tag) _ _ d o.room.1)
        (write_file-full (list_file tag) _ d ∙ o.space)

  -- A manifest list of version 2 is put into a tag directory whose directories are all named by
  -- the list, that has the manifest of each image, no list and no version file yet, on a disk with
  -- room; then a fetch that asks for that tag gives the list back, with the media type of the
  -- object it fills, and its entries without the os features of a platform that has no os version.
  pub fetch_list-put_list :
      (ml old asked : ManifestList) (h : Host)
      → ml.schema_version ≡ 2
      → IsOpen ml (tag_of ml h) h.disk
      → tag_dir_to_read h.dir asked.origin_domain asked.name asked.requested_target ≡ tag_of ml h
      → ((put_list J S ml >>= λ ok. fetch_list J S old asked) h).0
        ≡ returns
            (record ml { media_type = old.media_type; manifests = map kept_entry ml.manifests })
  unfolding fetch_list fetch_from with_version exists
  fetch_list-put_list ml old asked h v o same = simp (
    put_list-IsOpen ml h o,
    same,
    written_version ml (tag_of ml h) h.disk o,
    version_read,
    written_list ml (tag_of ml h) h.disk o,
    list_from_file-list_for_file ml _ _ (omega arith),
  )
    where
      version_read : S.read_number (S.print_number ml.schema_version) ≡ 2
      version_read = F.read_number-print_number ml.schema_version (omega arith) ∙ v
