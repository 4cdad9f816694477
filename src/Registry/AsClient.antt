-- ===== src/Registry/AsClient.antt =====
-- A registry as a `Base::Client`, src/lib/OCI/Registry/Client.cpp: its world is that of the network. The
-- fuel is for `auth`, the rounds for the loops of uploads and of `putManifest`.
use oci_tool.Prelude.{ℕ, List, [], Text, Exec, returns, pure}
use oci_tool.Json.{JsonLib}
use oci_tool.BaseClient.{BaseClient}
use oci_tool.Copy.Images.Kept.{IsHonest}
use oci_tool.Registry.Net.{Net}
use oci_tool.Registry.Auth.{Client}
use oci_tool.Registry.Lifecycle.{copy_of}
use oci_tool.Registry.Queries.{has_blob, has_legacy_blob}
use oci_tool.Registry.Manifests.{fetch_image, put_image, put_list}
use oci_tool.Registry.Manifests.Lists.{fetch_list, fetch_legacy}
use oci_tool.Registry.Blobs.{put_blob_part}
use oci_tool.Registry.Fetch.{fetch_blob}
use oci_tool.Registry.Fetch.Told.{IsTelling, fetch_blob-tells}
use oci_tool.Registry.Listing.{tag_list}

module _ (J : JsonLib) (N : Net J) where
  -- A method on the network as the other clients leave it.
  abbrev pub on_network : {A : Type 0} → Exec (Client J N) A → Exec (Client J N × N.World) A
  on_network m (c, w) = let (o, c') = m (record c { world = w }) in (o, (c', c'.world))

  module _ (sha256_hex : List ℕ → Text) (rounds fuel : ℕ) where
    abbrev pub registry_client : BaseClient
    registry_client = record {
      Obj = Client J N;
      World = N.World;
      copy = λ c w. (returns (copy_of J N (record c { world = w })), w);
      destroy = λ c w. w;
      catalog = pure [];
      tag_list = λ rsrc. on_network (tag_list J N fuel rsrc);
      fetch_list = λ ml asked. on_network (fetch_list J N fuel ml asked);
      fetch_image = λ im asked. on_network (fetch_image J N fuel im asked);
      fetch_legacy = λ im asked. on_network (fetch_legacy J N fuel im asked);
      fetch_blob = λ name sha call_back ((c, w), s).
          let (o, x) = fetch_blob J N fuel name sha call_back (record c { world = w }, s) in
          (o, ((x.0, x.0.world), x.1));
      has_blob = λ im target sha. on_network (has_blob J N fuel im sha);
      has_legacy_blob = λ im sha. on_network (has_legacy_blob J N fuel im sha);
      put_blob = λ im target sha size part.
          on_network
            (put_blob_part J N rounds fuel (record { name = im.name; blob_sha = sha }) size part);
      put_list = λ ml target. on_network (put_list J N fuel ml target);
      put_image = λ im target. on_network (put_image J N sha256_hex rounds fuel im target);
    }

    pub registry_client-IsHonest : IsTelling J N → IsHonest registry_client
    registry_client-IsHonest tells T P call_back name sha x keeps p =
        fetch_blob-tells J N tells P call_back keeps fuel name sha
          (record (x.0.0) { world = x.0.1 }, x.1) p
