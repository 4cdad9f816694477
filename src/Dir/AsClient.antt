-- ===== src/Dir/AsClient.antt =====
-- A directory tree as a `Base::Client`, src/lib/OCI/Extensions/Dir.cpp: a client is its members, the world
-- is the disk with the static maps.
pub mod Tree
pub mod Store
pub mod Missing
pub mod Source
pub mod Synced
use oci_tool.Prelude.{ℕ, Bool, true, false, List, Text, Exec, Outcome, returns, pure}
use oci_tool.Json.{JsonLib}
use oci_tool.Json.Stream.{Stream}
use oci_tool.Filesystem.{exists}
use oci_tool.BaseClient.{BaseClient}
use oci_tool.Schema1.{LegacyManifest}
use oci_tool.Dir.{Dir, Host}
use oci_tool.Dir.Blobs.{has_blob, put_blob, fetch_blob}
use oci_tool.Dir.Manifests.{tag_dir_to_read, fetch_image, put_image}
use oci_tool.Dir.Lists.{fetch_list, put_list}
use oci_tool.Dir.Lifecycle.{copy_of, destroy}
use oci_tool.Dir.Listing.{Site, tag_list, catalog}

-- A method of a client on its disk.
abbrev pub on_host : {A : Type 0} → Exec Host A → Exec (Dir × Site) A
on_host m x =
    let (o, h) = m (record { dir = x.0; disk = x.1.disk }) in
    (o, (h.dir, record (x.1) { disk = h.disk }))

abbrev on_site : {A : Type 0} → (Dir → Exec Site A) → Exec (Dir × Site) A
on_site m x = let (o, s) = m x.0 x.1 in (o, (x.0, s))

-- `hasBlob( Schema1::ImageManifest )` asks for the directory of the tag.
unfoldable pub has_legacy_blob : LegacyManifest → Text → Exec Host Bool
has_legacy_blob im sha h =
    pure (exists h.disk (tag_dir_to_read h.dir im.origin_domain im.name im.requested_target)) h

module _ (sha256_hex : List ℕ → Text) (J : JsonLib) (S : Stream J) where
  -- A manifest of schema 1 is not fetched: the one that is given stays as it is.
  abbrev pub dir_client : BaseClient
  dir_client = record {
    Obj = Dir;
    World = Site;
    copy = λ d. pure (copy_of d);
    destroy = λ d s. record s { disk = destroy d s.disk };
    catalog = on_site catalog;
    tag_list = λ rsrc. on_site (λ d. tag_list d rsrc);
    fetch_list = λ ml asked. on_host (fetch_list J S ml asked);
    fetch_image = λ im asked. on_host (fetch_image J S im asked);
    fetch_legacy = λ im asked. pure im;
    fetch_blob = λ name sha call_back x.
        let (o, s) = fetch_blob x.0.0 x.0.1.disk sha call_back x.1 in (o, (x.0, s));
    has_blob = λ im target sha. on_host (λ h. pure (has_blob sha h) h);
    has_legacy_blob = λ im sha. on_host (has_legacy_blob im sha);
    put_blob = λ im target sha size part. on_host (put_blob sha256_hex im target sha size part);
    put_list = λ ml target. on_host (put_list J S ml);
    put_image = λ im target. on_host (put_image J S im target);
  }
