-- ===== src/Dir/Manifests/Absolute.antt =====
-- Where `putManifest` of src/lib/OCI/Extensions/Dir.cpp writes, where the digest of an image is a path.
use oci_tool.Prelude.{◌≡◌, refl, ap, true, false, some, Text, codes, returns}
use oci_tool.Prelude.Dict.{lookup}
use oci_tool.Json.{JsonLib}
use oci_tool.Json.Stream.{Stream}
use oci_tool.Filesystem.{file, exists, is_directory}
use oci_tool.Filesystem.Laws.{write_file-free}
use oci_tool.Filesystem.Paths.{join, parent_path, is_absolute}
use oci_tool.Schema2.{ImageManifest}
use oci_tool.Dir.{Dir, Host}
use oci_tool.Dir.Manifests.{image_file, image_path, image_for_file, put_image}
use oci_tool.Dir.Manifests.Image.{HasParts, HasParts-has_parts}

join-absolute : (p t : Text) → is_absolute t ≡ true → join p t ≡ t
unfolding join
join-absolute p t abs = rw abs refl

module _ (J : JsonLib) (S : Stream J) where
  image_path-absolute :
      (d : Dir) (im : ImageManifest) (target : Text)
      → is_absolute target ≡ true
      → image_path d im target ≡ join target (codes "ImageManifest.json")
  unfolding image_path image_file
  image_path-absolute d im target abs =
      ap (λ p. join p (codes "ImageManifest.json")) (join-absolute _ target abs)

  -- Take an image whose blobs are in the tree, and whose digest begins with a slash. If the path
  -- that the digest spells is a directory of the disk that has no `ImageManifest.json`, and the
  -- disk has room, then `Dir::putManifest` returns true and has written the manifest into that
  -- directory, whatever the root of the tree.
  pub put_image-absolute :
      (im : ImageManifest) (target : Text) (h : Host)
      → is_absolute target ≡ true
      → HasParts im h
      → exists h.disk (join target (codes "ImageManifest.json")) ≡ false
      → is_directory h.disk (parent_path (join target (codes "ImageManifest.json"))) ≡ true
      → h.disk.full ≡ false
      → ((put_image J S im target h).0 ≡ returns true)
        × (lookup
              (join target (codes "ImageManifest.json"))
              (put_image J S im target h).1.disk.nodes
            ≡ some (file (S.print (image_for_file J S im))))
  unfolding put_image
  put_image-absolute im target h abs parts absent there room =
      rw (HasParts-has_parts im h parts, image_path-absolute h.dir im target abs, absent)
        (refl, write_file-free _ _ h.disk absent there room)
