-- ===== src/Dir/AsClient/Synced.antt =====
-- A directory tree as the destination of a synchronization: its blobs stay addressed by their contents.
use oci_tool.Prelude.{
  Bool, All, ◌∙◌, ℕ, ◌≢◌, sym, subst, false, List, [], ◌∷◌, Text, codes, arith, Exec,
}
use oci_tool.Json.{JsonLib}
use oci_tool.Json.Stream.{Stream}
use oci_tool.Filesystem.Paths.{join, IsName}
use oci_tool.BaseClient.{BaseClient}
use oci_tool.Schema2.{ManifestEntry, ManifestList, new_manifest_list}
use oci_tool.Dir.{Dir, Host, address}
use oci_tool.Dir.Blobs.Sound.{IsDigest}
use oci_tool.Dir.Lists.{list_file, version_file, tag_of, put_list, fetch_list}
use oci_tool.Dir.Lists.Files.{Spared, put_list-Spared, fetch_list_same}
use oci_tool.Dir.Listing.{Site}
use oci_tool.Dir.AsClient.{dir_client, on_host, has_legacy_blob}
use oci_tool.Dir.AsClient.Store.{dir_client-IsKept, copy_of-Mine, returned}
use oci_tool.Dir.AsClient.Tree.{
  Mine, IsAddressed, IsAddressedIf, host, join-ne_blob, destroy-IsAddressed,
}
use oci_tool.Copy.{Copier}
use oci_tool.Copy.Images.Kept.{IsHonest}
use oci_tool.Copy.Lists.Kept.{IsGiving, IsKeeper}
use oci_tool.Sync.{sync_client, sync_file}
use oci_tool.Sync.Kept.{sync_client-Still, sync_file-Still}

module _ (root : Text) where
  file_apart :
      (sha256_hex : List ℕ → Text) (full : Bool) (ml : ManifestList) (h : Host) (n : Text)
      → IsDigest n
      → (list_file (tag_of ml h) ≢ join (join root (codes "blobs")) n)
        × (version_file (tag_of ml h) ≢ join (join root (codes "blobs")) n)
  unfolding list_file version_file codes
  file_apart sha256_hex full ml h n k = (
    join-ne_blob root sha256_hex full (tag_of ml h) (codes "ManifestList.json") n
        ((λ e. absurd (cc e)), omega arith) (λ x e. ground (arith, e)) k,
    join-ne_blob root sha256_hex full (tag_of ml h) (codes "Version") n
        ((λ e. absurd (cc e)), omega arith) (λ x e. ground (arith, e)) k,
  )

  module _ (sha256_hex : List ℕ → Text) (full : Bool) (J : JsonLib) (S : Stream J) where
    -- A change that spares the files keeps the blobs addressed.
    spared-IsAddressed :
        (ml : ManifestList) (h : Host) (s : Site) (k : Host)
        → Mine root h.dir
        → IsAddressedIf root sha256_hex full (record s { disk = h.disk })
        → Spared (tag_of ml h) h k
        → Mine root k.dir × IsAddressedIf root sha256_hex full (record s { disk = k.disk })
    spared-IsAddressed ml h s k m a (dir, spared) = (
      subst (Mine root) (sym dir) m,
      record {
        drawn = rw spared.draws a.drawn;
        space = spared.full ∙ a.space;
        addressed = λ r n b name e.
            let (apart, apart') = file_apart sha256_hex full ml h n name in
            a.addressed r n b name (spared.files _ b apart apart' e);
      },
    )

    put_list-IsAddressed :
        (ml : ManifestList) (d : Dir) (s : Site)
        → Mine root d
        → IsAddressedIf root sha256_hex full s
        → Mine root (on_host (put_list J S ml) (d, s)).1.0
          × IsAddressedIf root sha256_hex full (on_host (put_list J S ml) (d, s)).1.1
    put_list-IsAddressed ml d s m a =
        let h = host root (d, s) in
        spared-IsAddressed ml h s (put_list J S ml h).1 m a (put_list-Spared J S ml h)

    fetch_list-IsAddressed :
        (ml : ManifestList) (d : Dir) (s : Site)
        → Mine root d
        → IsAddressedIf root sha256_hex full s
        → Mine root (on_host (fetch_list J S new_manifest_list ml) (d, s)).1.0
          × IsAddressedIf root sha256_hex full
              (on_host (fetch_list J S new_manifest_list ml) (d, s)).1.1
    fetch_list-IsAddressed ml d s m a =
        subst
          (λ h. Mine root h.dir × IsAddressedIf root sha256_hex full (record s { disk = h.disk }))
          (sym (fetch_list_same J S new_manifest_list ml (host root (d, s)))) (m, a)

    module _ (src : BaseClient) (hex : (b : List ℕ) → IsName (address sha256_hex b)) where
      -- A tree under all calls of a synchronization.
      dir_client-IsKeeper :
          IsKeeper src
            (dir_client sha256_hex J S)
            (Mine root)
            (IsAddressedIf root sha256_hex full)
            (λ im target. Unit {0})
            (λ ml. Unit {0})
            (λ t. Unit {0})
      unfolding has_legacy_blob
      dir_client-IsKeeper = record {
        copied = λ d s m a. (a, λ c e. subst (Mine root) (returned e) (copy_of-Mine root d m));
        destroyed = λ d s m a. destroy-IsAddressed root sha256_hex full d s a;
        images = λ im target _. dir_client-IsKept root sha256_hex J S im target src full hex;
        fetched_list = λ ml (d, s) (m, a). fetch_list-IsAddressed ml d s m a;
        put_list = λ ml (d, s) placed (m, a). put_list-IsAddressed ml d s m a;
        asked_legacy = λ im sha (d, s) (m, a). (m, a);
      }

      -- Any list has digests that are apt.
      All-apt : (es : List ManifestEntry) → All (λ e. Unit {0}) es
      All-apt [] = tt
      All-apt (e ∷ es) = (tt, All-apt es)

      any-IsGiving :
          IsHonest src → IsGiving src (λ im target. Unit {0}) (λ ml. Unit {0}) (λ t. Unit {0})
      any-IsGiving H = record {
        honest = H;
        image = λ ml e x im apt at. tt;
        list = λ rsrc target x ml at. (tt, All-apt ml.manifests);
      }

      synced :
          (H : IsHonest src) (n : ℕ) (c : Copier src (dir_client sha256_hex J S))
          (domains : src.Obj → List Text)
          (catalog_of : Text → Exec (src.Obj × src.World) (List Text))
          → Mine root c.destination
          → IsAddressedIf root sha256_hex full c.to
          → IsAddressedIf root sha256_hex full
              (sync_client src (dir_client sha256_hex J S) n c).1.to
            × IsAddressedIf root sha256_hex full
                (sync_file src (dir_client sha256_hex J S) domains catalog_of n c).1.to
      synced H n c domains catalog_of m a =
          let to = dir_client sha256_hex J S in
          let safe = IsAddressedIf root sha256_hex full in
          (
            (sync_client-Still src to (Mine root) safe _ _ _ (any-IsGiving H) dir_client-IsKeeper n
                c (m, a)).1,
            (sync_file-Still src to (Mine root) safe _ _ _ (any-IsGiving H) dir_client-IsKeeper n
                domains catalog_of c (m, a)).1,
          )

-- Take a directory tree on a disk with room, with draws of full length, in which each file among
-- the blobs with a digest for its name is named after the SHA-256 of its contents, a client of it
-- whose temporary file is unset or named in its temporary directory, and any source whose
-- `fetchBlob` does to what its callback changes only what the callback does. If the addresses of
-- blobs are file names, then after `Sync::execute` of the source into the tree, and of a file of
-- domains, its tasks run one behind the other, whatever the source sends, whatever the outcome,
-- and however many rounds are allowed, each file among the blobs with a digest for its name is
-- still named after its contents.
pub sync-IsAddressed :
    (root : Text) (sha256_hex : List ℕ → Text) (J : JsonLib) (S : Stream J) (src : BaseClient)
    (n : ℕ) (c : Copier src (dir_client sha256_hex J S)) (domains : src.Obj → List Text)
    (catalog_of : Text → Exec (src.Obj × src.World) (List Text))
    → IsHonest src
    → ((b : List ℕ) → IsName (address sha256_hex b))
    → Mine root c.destination
    → IsAddressed root sha256_hex c.to
    → IsAddressed root sha256_hex (sync_client src (dir_client sha256_hex J S) n c).1.to
      × IsAddressed root sha256_hex
          (sync_file src (dir_client sha256_hex J S) domains catalog_of n c).1.to
sync-IsAddressed root sha256_hex J S src n c domains catalog_of H hex m a =
    synced root sha256_hex false J S src hex H n c domains catalog_of m a
