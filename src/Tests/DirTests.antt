-- ===== src/Tests/DirTests.antt =====
-- A tree under /t with one image; the source tree under /s has the blob "abcd".
use oci_tool.Prelude.{
  ℕ, ◌≡◌, refl, Bool, true, false, List, [], ◌∷◌, ◌++◌, arith, codes, text_beq, Text, Exec, text_eq,
  returns, flatten, ◌>>=◌,
}
use oci_tool.Prelude.{replicate}
use oci_tool.Prelude.Dict.{lookup, insert}
use oci_tool.Filesystem.{Disk, directory, file, exists, is_directory, create_directories}
use oci_tool.Filesystem.Paths.{join, stem, parent_path, ancestors}
use oci_tool.Schema2.{ImageManifest, new_image_manifest}
use oci_tool.Dir.{Dir, Host, gen_uuid}
use oci_tool.Dir.Blobs.{buffer_size, fetch_blob, image_dir, make_image_dir, put_blob}
use oci_tool.Dir.Blobs.Parts.{deliver, IsReady, Uploaded}
use oci_tool.Dir.Blobs.Upload.{put_blob-deliver}
use oci_tool.Dir.Blobs.Fetch.{pieces, read_end, fetch_blob-pieces}
use oci_tool.Dir.Blobs.Transfer.{ending, transfer}

abbrev hex : List ℕ → Text
hex b = b

abbrev image : ImageManifest
image = record new_image_manifest {
  name = codes "n";
  origin_domain = codes "o";
  requested_target = codes "t";
}

abbrev draw : List ℕ
draw = replicate 48 1

abbrev tree : Dir
tree = record {
  bytes_written = 0;
  directory = codes "/t";
  tree_root = codes "/t";
  blobs_dir = codes "/t/blobs";
  temp_dir = codes "/t/temp";
  temp_file = [];
}

abbrev host : Host
host = record {
  dir = tree;
  disk = record {
    nodes =
        (codes "/t", directory) ∷ (codes "/t/blobs", directory) ∷ (codes "/t/temp", directory) ∷ [];
    full = false;
    draws = draw ∷ [];
  };
}

abbrev digest : Text
digest = codes "sha256:abcd"

made : Host
unfolding make_image_dir image_dir exists create_directories ancestors join stem codes lookup insert
    text_beq
made = (make_image_dir (image_dir tree image (codes "x")) host).1

ready : IsReady image (codes "x") digest (join (codes "/t/temp") (gen_uuid draw)) made
unfolding made gen_uuid is_directory parent_path
ready = record {
  configured = (refl, refl);
  image = refl;
  absent = refl;
  room = refl;
  idle = (refl, refl);
  free = refl;
  temp_named = refl;
  temp_apart = refl;
  writable = refl;
  space = refl;
}

made-lem : make_image_dir (image_dir tree image (codes "x")) host ≡ (returns tt, made)
unfolding made
made-lem = refl

put_blob-deliver_example :
    (h' : Host) × (deliver
        (put_blob hex image (codes "x") digest 4)
        (codes "ab" ∷ codes "cd" ∷ [])
        host
      ≡ (returns true, h'))
    × Uploaded image
        (codes "x")
        digest
        (join (codes "/t/temp") (gen_uuid draw))
        (codes "abcd")
        made
        h'
unfolding made codes flatten
put_blob-deliver_example =
    put_blob-deliver image (codes "x") digest hex 4 draw (codes "ab") [] (codes "cd" ∷ []) host made
      made-lem refl refl ready (omega arith) (omega arith) refl refl

-- The source tree.
abbrev source : Dir
source = record tree { tree_root = codes "/s"; directory = codes "/s" }

abbrev source_disk : Disk
source_disk = record {
  nodes = (codes "/s/blobs/sha256:abcd", file (codes "abcd")) ∷ [];
  full = false;
  draws = [];
}

transfer_example :
    (h' : Host) × (fetch_blob source source_disk digest
        (put_blob hex image (codes "x") digest 4)
        host
      ≡ (ending 4, h'))
    × Uploaded image
        (codes "x")
        digest
        (join (codes "/t/temp") (gen_uuid draw))
        (codes "abcd")
        made
        h'
unfolding made codes
transfer_example =
    transfer hex image (codes "x") digest source source_disk (codes "abcd") draw [] host made refl
      (omega arith) (omega arith) refl made-lem refl refl ready

abbrev collect : List ℕ → Exec (List ℕ) Bool
collect part all = (returns true, all ++ part)

fetch_blob-pieces_example :
    (flatten (pieces buffer_size (codes "abcd")) ≡ codes "abcd")
    × (fetch_blob source source_disk digest collect []
        ≡ (deliver collect (pieces buffer_size (codes "abcd")) >>= read_end buffer_size 4) [])
unfolding codes lookup text_beq join stem
fetch_blob-pieces_example =
    fetch_blob-pieces source source_disk digest (codes "abcd") collect [] refl
