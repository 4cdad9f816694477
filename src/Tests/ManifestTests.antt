-- ===== src/Tests/ManifestTests.antt =====
-- A tree under /t with the blob "c", and the directory of one tag.
use oci_tool.Prelude.{
  ◌≡◌, refl, some, true, false, [], ◌∷◌, arith, codes, text_beq, returns, ◌>>=◌, map,
}
use oci_tool.Prelude.Dict.{Dict, lookup}
use oci_tool.Json.Tree.{tree_json, tree_json-IsLawful}
use oci_tool.Json.Codec.{tree_stream, tree_stream-IsFaithful}
use oci_tool.Filesystem.{Node, directory, file, exists, is_directory}
use oci_tool.Filesystem.Paths.{join, stem, parent_path, filename}
use oci_tool.Schema2.{ImageManifest, ManifestList, new_image_manifest, new_manifest_list, new_entry}
use oci_tool.Schema2.Json.RoundTrip.{kept_entry}
use oci_tool.Dir.{Dir, Host}
use oci_tool.Dir.Blobs.{has_blob}
use oci_tool.Dir.Manifests.{
  image_for_file, put_image, fetch_image, image_path, image_file, image_file_to_read, tag_dir,
  tag_dir_to_read,
}
use oci_tool.Dir.Manifests.Absolute.{put_image-absolute}
use oci_tool.Dir.Manifests.Image.{put_image-lost, fetch_image-put_image}
use oci_tool.Dir.Lists.{
  put_list, fetch_list, tag_of, children, list_file, version_file, prune_tag, prune, has_images,
}
use oci_tool.Dir.Lists.Complete.{HasImages, put_list-HasImages}
use oci_tool.Dir.Lists.RoundTrip.{IsOpen, fetch_list-put_list}

abbrev image : ImageManifest
image = record new_image_manifest {
  name = codes "n";
  origin_domain = codes "o";
  requested_target = codes "t";
  requested_digest = codes "d";
  schema_version = 2;
  config = record { media_type = []; size = 1; digest = codes "c" };
}

abbrev tree : Dir
tree = record {
  bytes_written = 0;
  directory = codes "/t";
  tree_root = codes "/t";
  blobs_dir = codes "/t/blobs";
  temp_dir = codes "/t/temp";
  temp_file = [];
}

abbrev host : Dict Node → Host
host nodes = record { dir = tree; disk = record { nodes = nodes; full = false; draws = [] } }

abbrev blob : Dict Node
blob = (codes "/t/blobs/c", file (b'c' ∷ [])) ∷ []

abbrev made : Dict Node
made = (codes "/t/o/n:t/d", directory) ∷ blob

fetch_image-put_image_example :
    ((put_image tree_json tree_stream image (codes "d") >>= λ ok.
    fetch_image tree_json tree_stream new_image_manifest image)
      (host made)).0
    ≡ returns image
unfolding new_image_manifest has_blob exists is_directory parent_path join stem codes lookup
    image_path image_file tag_dir tag_dir_to_read image_file_to_read text_beq
fetch_image-put_image_example =
    fetch_image-put_image tree_json tree_stream tree_json-IsLawful tree_stream-IsFaithful image
      new_image_manifest image (host made) (omega arith) tt (tt, refl) refl refl refl refl

-- A second tag of an image whose blobs are there: its directory is not.
put_image-lost_example :
    put_image tree_json tree_stream image (codes "d") (host blob) ≡ (returns true, host blob)
unfolding new_image_manifest has_blob exists is_directory parent_path join stem codes lookup
    image_path image_file tag_dir tag_dir_to_read image_file_to_read text_beq
put_image-lost_example =
    put_image-lost tree_json tree_stream image (codes "d") (host blob) (tt, refl) refl refl

-- A directory outside of the tree.
abbrev elsewhere : Dict Node
elsewhere = (codes "/e", directory) ∷ blob

put_image-absolute_example :
    ((put_image tree_json tree_stream image (codes "/e") (host elsewhere)).0 ≡ returns true)
    × (lookup
          (join (codes "/e") (codes "ImageManifest.json"))
          (put_image tree_json tree_stream image (codes "/e") (host elsewhere)).1.disk.nodes
        ≡ some (file (tree_stream.print (image_for_file tree_json tree_stream image))))
unfolding new_image_manifest has_blob exists is_directory parent_path join stem codes lookup
    text_beq
put_image-absolute_example =
    put_image-absolute tree_json tree_stream image (codes "/e") (host elsewhere) refl (tt, refl)
      refl refl refl

abbrev index : ManifestList
index = record new_manifest_list {
  name = codes "n";
  origin_domain = codes "o";
  requested_target = codes "t";
  schema_version = 2;
  manifests = record new_entry { digest = codes "d" } ∷ [];
}

abbrev tagged : Dict Node
tagged =
    (codes "/t/o/n:t", directory)
    ∷ (codes "/t/o/n:t/d", directory)
    ∷ (codes "/t/o/n:t/d/ImageManifest.json", file [])
    ∷ []

index-IsOpen : IsOpen index (tag_of index (host tagged)) (host tagged).disk
unfolding new_image_manifest has_blob exists is_directory parent_path join stem codes lookup
    image_path image_file tag_dir tag_dir_to_read image_file_to_read text_beq children filename
    tag_of list_file version_file new_entry
index-IsOpen = record {
  made = refl;
  named = (refl, tt);
  images = (refl, tt);
  room = (refl, refl);
  free = (refl, refl);
  space = refl;
}

fetch_list-put_list_example :
    ((put_list tree_json tree_stream index >>= λ ok.
    fetch_list tree_json tree_stream new_manifest_list index)
      (host tagged)).0
    ≡ returns (record index {
      media_type = new_manifest_list.media_type;
      manifests = map kept_entry index.manifests;
    })
unfolding new_image_manifest has_blob exists is_directory parent_path join stem codes lookup
    image_path image_file tag_dir tag_dir_to_read image_file_to_read text_beq tag_of
fetch_list-put_list_example =
    fetch_list-put_list tree_json tree_stream tree_json-IsLawful tree_stream-IsFaithful index
      new_manifest_list index (host tagged) refl index-IsOpen refl

put_list-HasImages_example :
    HasImages index
      (tag_of index (host tagged))
      (put_list tree_json tree_stream index (host tagged)).1.disk
unfolding put_list prune_tag prune children has_images new_manifest_list new_entry filename
    list_file version_file exists is_directory parent_path join stem codes lookup image_file tag_of
    tag_dir text_beq
put_list-HasImages_example = put_list-HasImages tree_json tree_stream index (host tagged) refl
