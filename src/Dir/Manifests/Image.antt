-- ===== src/Dir/Manifests/Image.antt =====
-- The manifest of an image, put into a tree and fetched from it.
use native.Mathlib.Nat.{mod-eq_of_lt}
use oci_tool.Prelude.{
  ◌<◌, ◌^◌, ◌≡◌, refl, true, false, some, List, [], ◌∷◌, Text, text_eq, text_beq, codes, all, All,
  returns, ◌>>=◌, arith,
}
use oci_tool.Json.{JsonLib, IsLawful}
use oci_tool.Json.Stream.{Stream, IsFaithful}
use oci_tool.Filesystem.{exists, is_directory}
use oci_tool.Filesystem.Laws.{write_file-shut, write_file-free}
use oci_tool.Filesystem.Paths.{parent_path}
use oci_tool.Schema2.{ImageManifest, Layer}
use oci_tool.Schema2.Json.{image_from_json, image_to_json}
use oci_tool.Schema2.Json.RoundTrip.{map_option-get_layer, get_config-config_to_json}
use oci_tool.Dir.{Host}
use oci_tool.Dir.Blobs.{has_blob}
use oci_tool.Dir.Manifests.{
  image_from_file, read_image, image_file_to_read, fetch_image, image_for_file, has_parts,
  image_path, put_image,
}

-- A manifest may be written: its parts are in the tree and its file is not.
abbrev pub HasParts : ImageManifest → Host → Type 0
HasParts im h =
    All (λ l. has_blob l.digest h ≡ true) im.layers × (has_blob im.config.digest h ≡ true)

all_layers :
    (h : Host) (ls : List Layer)
    → all (λ l. has_blob l.digest h) ls ≡ true
    → All (λ l. has_blob l.digest h ≡ true) ls
all_layers h [] e = tt
all_layers h (l ∷ ls) e = (ground arith, all_layers h ls (ground arith))

all_layers_back :
    (h : Host) (ls : List Layer)
    → All (λ l. has_blob l.digest h ≡ true) ls
    → all (λ l. has_blob l.digest h) ls ≡ true
all_layers_back h [] a = refl
all_layers_back h (l ∷ ls) a = ground (arith, all_layers_back h ls a.1)

has_parts-HasParts : (im : ImageManifest) (h : Host) → has_parts im h ≡ true → HasParts im h
unfolding has_parts
has_parts-HasParts im h e = (all_layers h im.layers (ground arith), ground arith)

pub HasParts-has_parts : (im : ImageManifest) (h : Host) → HasParts im h → has_parts im h ≡ true
unfolding has_parts
HasParts-has_parts im h p = ground (arith, all_layers_back h im.layers p.0)

module _ (J : JsonLib) (S : Stream J) where
  -- Whenever `Dir::putManifest` of an image manifest returns true, the tree had the blob of each
  -- layer and of the config, and no file for the manifest.
  pub put_image-HasParts :
      (im : ImageManifest) (target : Text) (h : Host)
      → (put_image J S im target h).0 ≡ returns true
      → HasParts im h × (exists h.disk (image_path h.dir im target) ≡ false)
  unfolding put_image
  put_image-HasParts im target h e = (has_parts-HasParts im h (ground arith), ground arith)

  -- If the blobs of an image are in the tree, but neither the file of its manifest nor the
  -- directory that the file would stand in, then `Dir::putManifest` returns true and changes
  -- nothing.
  pub put_image-lost :
      (im : ImageManifest) (target : Text) (h : Host)
      → HasParts im h
      → exists h.disk (image_path h.dir im target) ≡ false
      → is_directory h.disk (parent_path (image_path h.dir im target)) ≡ false
      → put_image J S im target h ≡ (returns true, h)
  unfolding put_image
  put_image-lost im target h parts absent shut =
      rw (HasParts-has_parts im h parts, absent, write_file-shut _ _ h.disk absent shut) refl

  module _ (L : IsLawful J) (F : IsFaithful J S) where
    image_from_json-image_for_file :
        (im old : ImageManifest)
        → im.schema_version < 2 ^ 16
        → All (λ l. l.urls ≡ []) im.layers
        → image_from_json J (image_for_file J S im) old
          ≡ some (record old {
            schema_version = im.schema_version;
            media_type = im.media_type;
            config = im.config;
            layers = im.layers;
            raw_str = im.raw_str;
          })
    unfolding image_for_file image_from_json image_to_json codes text_beq
    image_from_json-image_for_file im old h a = simp (
      L.find-set,
      L.find-empty,
      L.get_text-text,
      L.get_num-num,
      L.get_items-items,
      get_config-config_to_json J L,
      map_option-get_layer J L im.layers a,
      mod-eq_of_lt h,
    )

    read_image-print :
        (im old : ImageManifest) (h : Host)
        → im.schema_version < 2 ^ 16
        → All (λ l. l.urls ≡ []) im.layers
        → read_image J S old (S.read (S.print (image_for_file J S im))) h ≡ (returns im, h)
    unfolding read_image image_from_file image_for_file codes text_beq
    read_image-print im old h v a = simp (
      F.read-print,
      L.get_object-object,
      image_from_json-image_for_file im old v a,
      L.find-set,
      L.get_text-text,
    )

    -- An image manifest with a version below 2^16, with no layer that names addresses, whose blobs
    -- are all in the tree, is put into the tree where its directory is there, its file is not, and
    -- the disk has room; then a fetch that asks for that place gives it back as it was, whatever
    -- object it fills.
    pub fetch_image-put_image :
        (im old asked : ImageManifest) (h : Host)
        → im.schema_version < 2 ^ 16
        → All (λ l. l.urls ≡ []) im.layers
        → HasParts im h
        → exists h.disk (image_path h.dir im asked.requested_digest) ≡ false
        → is_directory h.disk (parent_path (image_path h.dir im asked.requested_digest)) ≡ true
        → h.disk.full ≡ false
        → image_file_to_read h.dir asked ≡ image_path h.dir im asked.requested_digest
        → ((put_image J S im asked.requested_digest >>= λ ok. fetch_image J S old asked) h).0
          ≡ returns im
    unfolding put_image fetch_image exists
    fetch_image-put_image im old asked h v a parts absent room space same = simp (
      HasParts-has_parts im h parts,
      absent,
      same,
      write_file-free (image_path h.dir im asked.requested_digest) (S.print (image_for_file J S im))
          h.disk absent room space,
      read_image-print im old _ v a,
    )
