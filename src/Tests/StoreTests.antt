-- ===== src/Tests/StoreTests.antt =====
-- A source with one image, synchronized into a tree.
use oci_tool.Prelude.{inl, refl, [], ◌∷◌, codes, pure}
use oci_tool.Json.Tree.{tree_json}
use oci_tool.Json.Codec.{tree_stream}
use oci_tool.BaseClient.{BaseClient}
use oci_tool.Schema2.{ManifestList, new_manifest_list, new_entry}
use oci_tool.Dir.AsClient.Source.{dir_client-IsHonest}
use oci_tool.Dir.AsClient.Synced.{sync-IsAddressed}
use oci_tool.Dir.AsClient.Tree.{IsAddressed}
use oci_tool.Dir.{Host}
use oci_tool.Dir.Blobs.{put_blob}
use oci_tool.Dir.Blobs.Sound.{IsSound}
use oci_tool.Dir.Blobs.Integrity.{put_blob-IsSound}
use oci_tool.Filesystem.Paths.{join, stem}
use oci_tool.Copy.{Copier}
use oci_tool.Sync.{sync_client, sync_file}
use oci_tool.Tests.TreeTests.{hex, image, trees, copier, address-IsName, mine, empty, is_name}

abbrev listing : ManifestList
listing = record new_manifest_list {
  name = codes "n";
  origin_domain = codes "o";
  requested_target = codes "t";
  schema_version = 2;
  raw_str = codes "l";
  manifests = record new_entry { digest = codes "x" } ∷ [];
}

-- The tree under /s, which says that it has this list with this image, whatever it is asked.
abbrev shop : BaseClient
shop = record trees {
  catalog = pure (codes "n" ∷ []);
  tag_list = λ rsrc. pure (record { name = rsrc; tags = codes "t" ∷ [] });
  fetch_list = λ ml asked. pure listing;
  fetch_image = λ im asked. pure image;
}

abbrev selling : Copier shop trees
selling = record {
  source = copier.source;
  destination = copier.destination;
  from = copier.from;
  to = copier.to;
  working = [];
}

sync-IsAddressed_example :
    IsAddressed (codes "/t") hex (sync_client shop trees 3 selling).1.to
    × IsAddressed
        (codes "/t")
        hex
        (sync_file shop trees (λ s. codes "o" ∷ []) (λ d. pure (codes "n" ∷ [])) 3 selling).1.to
sync-IsAddressed_example =
    sync-IsAddressed (codes "/t") hex tree_json tree_stream shop 3 selling (λ s. codes "o" ∷ [])
      (λ d. pure (codes "n" ∷ [])) (dir_client-IsHonest hex tree_json tree_stream) address-IsName
      mine empty

-- The only part of a blob that the tree lacks.
abbrev landing : Host
landing = record { dir = copier.destination; disk = copier.to.disk }

landing-IsSound : IsSound hex landing
unfolding codes join stem
landing-IsSound = record {
  space = refl;
  blobs = refl;
  temp = refl;
  named = inl refl;
  drawn = empty.drawn;
  addressed = empty.addressed;
}

put_blob-IsSound_example :
    IsSound hex (put_blob hex image (codes "x") (codes "sha256:bcde") 4 (codes "abcd") landing).1
put_blob-IsSound_example =
    put_blob-IsSound hex image (codes "x") (codes "sha256:bcde") 4 (codes "abcd") landing is_name
      landing-IsSound
