-- ===== src/Tests/TreeTests.antt =====
-- An image that is copied from a tree under /s to a tree under /t. A digest of a test has a letter for each
-- byte.
use oci_tool.Prelude.{
  ℕ, ◌+◌, ◌%◌, ◌≡◌, ◌≢◌, refl, inl, true, false, none, sym, List, [], ◌∷◌, arith, codes, text_beq,
  Text, returns, replicate, map, All, All-append,
}
use oci_tool.Prelude.Dict.{Dict, lookup, insert, erase}
use oci_tool.Json.Tree.{tree_json}
use oci_tool.Json.Codec.{tree_stream}
use oci_tool.Filesystem.{
  Node, directory, file, exists, is_directory, create_directories, append_file, copy_file,
  remove_file, write_file, can_write,
}
use oci_tool.Filesystem.Paths.{join, stem, parent_path, ancestors, IsName, IsName-relative}
use oci_tool.BaseClient.{BaseClient}
use oci_tool.Schema2.{
  ImageManifest, Layer, new_image_manifest, new_layer, image_manifest_ne, image_manifest_eq,
  layer_eq,
}
use oci_tool.Dir.{address, gen_uuid, validate_file}
use oci_tool.Dir.Blobs.{fetch_blob, image_dir, make_image_dir, put_blob, has_blob, read_loop}
use oci_tool.Dir.Manifests.{
  put_image, fetch_image, image_path, image_file, image_file_to_read, tag_dir, tag_dir_to_read,
  has_parts,
}
use oci_tool.Dir.Lifecycle.{rooted, copy_of, destroy}
use oci_tool.Dir.Listing.{Site}
use oci_tool.Dir.AsClient.{dir_client}
use oci_tool.Dir.AsClient.Tree.{Mine, IsAddressed}
use oci_tool.Dir.AsClient.Store.{HasBlobs, HasNames, copy_image-HasBlobs}
use oci_tool.Dir.AsClient.Source.{dir_client-IsHonest}
use oci_tool.Copy.{Copier}
use oci_tool.Copy.Layers.{release}
use oci_tool.Copy.Images.{copy_image, copy_manifest, copy_parts, layers_loop, download}

abbrev pub hex : List ℕ → Text
hex b = map (λ x. b'a' + x % 16) b

hex_lacks : (b : List ℕ) → All (λ c. c ≢ b'/') (hex b)
hex_lacks [] = tt
hex_lacks (x ∷ b) = (omega arith, hex_lacks b)

pub address-IsName : (b : List ℕ) → IsName (address hex b)
unfolding codes
address-IsName b = (
  λ e. ground (arith, e),
  All-append (λ c. c ≢ b'/') (codes "sha256:") (hex b) (omega arith) (hex_lacks b),
)

abbrev pub trees : BaseClient
trees = dir_client hex tree_json tree_stream

abbrev pub layer : Layer
layer = record new_layer { digest = codes "sha256:bcde"; size = 4 }

abbrev pub image : ImageManifest
image = record new_image_manifest {
  name = codes "n";
  origin_domain = codes "o";
  requested_target = codes "t";
  schema_version = 2;
  config = record { media_type = []; size = 4; digest = codes "sha256:bcde" };
  layers = layer ∷ [];
}

abbrev pub site : Dict Node → Site
site nodes = record {
  disk = record { nodes = nodes; full = false; draws = replicate 48 1 ∷ [] };
  maps = [];
  known = [];
}

abbrev pub copier : Copier trees trees
copier = record {
  source = rooted (codes "/s") (codes "/s");
  destination = rooted (codes "/t") (codes "/t");
  from = site ((codes "/s/blobs/sha256:bcde", file (codes "abcd")) ∷ []);
  to =
      site (
        (codes "/t", directory)
        ∷ (codes "/t/blobs", directory)
        ∷ (codes "/t/temp", directory)
        ∷ []);
  working = [];
}

copied : (copy_image trees trees 3 image (codes "x") copier).0 ≡ returns true
unfolding copy_image copy_manifest copy_parts layers_loop fetch_image exists lookup text_beq codes
    join stem new_image_manifest copy_of image_manifest_ne has_blob fetch_blob put_blob
    make_image_dir image_dir create_directories ancestors download release read_loop image_file
    image_file_to_read tag_dir_to_read gen_uuid validate_file parent_path append_file can_write
    copy_file is_directory remove_file erase insert new_layer put_image has_parts image_path
    write_file tag_dir destroy image_manifest_eq layer_eq
copied = refl

pub mine : Mine (codes "/t") copier.destination
unfolding codes
mine = record { in_root = refl; blobs = refl; temp = refl; named = inl refl }

nothing :
    (n : Text)
    → IsName n
    → lookup (join (join (codes "/t") (codes "blobs")) n) copier.to.disk.nodes ≡ none
unfolding codes join stem lookup text_beq
nothing n k = rw (IsName-relative n k) refl

pub is_name : IsName (codes "sha256:bcde")
unfolding codes
is_name = (λ e. ground (arith, e), omega arith)

pub empty : IsAddressed (codes "/t") hex copier.to
unfolding codes join stem lookup text_beq
empty = record {
  space = refl;
  drawn = (refl, tt);
  addressed = λ r n b k e. absurd (cc (sym (nothing n k.0), e));
}

pub names : HasNames (codes "/t") hex tree_json tree_stream image (codes "x")
unfolding codes new_layer new_image_manifest
names = ((is_name, tt), is_name)

copy_image-HasBlobs_example :
    HasBlobs
      (codes "/t")
      hex
      tree_json
      tree_stream
      image
      (codes "x")
      (copy_image trees trees 3 image (codes "x") copier).1.to
copy_image-HasBlobs_example =
    copy_image-HasBlobs (codes "/t") hex tree_json tree_stream image (codes "x") trees
      (dir_client-IsHonest hex tree_json tree_stream) address-IsName names 3 copier mine empty
      copied
