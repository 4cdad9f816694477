-- ===== src/BaseClient.antt =====
-- `OCI::Base::Client`, include/OCI/Base/Client.hpp: what Copy and Sync call of a registry, a directory
-- tree, or a file of domains. A method changes its object, and the world that all copies share. A
-- method that fills its first argument gives back what it leaves there.
use oci_tool.Prelude.{ℕ, Bool, List, Text, Exec}
use oci_tool.Registry.Listing.{Tags}
use oci_tool.Schema2.{ImageManifest, ManifestList}
use oci_tool.Schema1.{LegacyManifest}

pub record BaseClient : Type 1 where
  pub Obj : Type 0
  pub World : Type 0
  -- the copy that an object makes of itself, and the destructor
  pub copy : Obj → Exec World Obj
  pub destroy : Obj → World → World
  pub catalog : Exec (Obj × World) (List Text)
  pub tag_list : Text → Exec (Obj × World) Tags
  pub fetch_list : ManifestList → ManifestList → Exec (Obj × World) ManifestList
  pub fetch_image : ImageManifest → ImageManifest → Exec (Obj × World) ImageManifest
  pub fetch_legacy : LegacyManifest → LegacyManifest → Exec (Obj × World) LegacyManifest
  -- name, digest and callback, which works on a state of its own
  pub fetch_blob :
      {S : Type 0} → Text → Text → (List ℕ → Exec S Bool) → Exec ((Obj × World) × S) Bool
  pub has_blob : ImageManifest → Text → Text → Exec (Obj × World) Bool
  pub has_legacy_blob : LegacyManifest → Text → Exec (Obj × World) Bool
  pub put_blob : ImageManifest → Text → Text → ℕ → List ℕ → Exec (Obj × World) Bool
  pub put_list : ManifestList → Text → Exec (Obj × World) Bool
  pub put_image : ImageManifest → Text → Exec (Obj × World) Bool
