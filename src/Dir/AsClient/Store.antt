-- ===== src/Dir/AsClient/Store.antt =====
-- A directory tree as the store that a copy fills.
use oci_tool.Prelude.{
  Bool, ℕ, ◌≡◌, ◌≢◌, refl, sym, ap, subst, ◌∙◌, ◌==◌, inl, inr, true, List, [], ◌∷◌, Text, text_eq,
  codes, All, Outcome, returns, Bool-cases, not, ◌&&◌, ◌||◌,
}
use oci_tool.Json.{JsonLib}
use oci_tool.Json.Stream.{Stream}
use oci_tool.Filesystem.{Disk, exists}
use oci_tool.Filesystem.Laws.{remove_file-exists, write_file-exists}
use oci_tool.Filesystem.Paths.{join, IsName}
use oci_tool.BaseClient.{BaseClient}
use oci_tool.Schema2.{ImageManifest, Layer}
use oci_tool.Dir.{Dir, address}
use oci_tool.Dir.Blobs.{has_blob}
use oci_tool.Dir.Blobs.Sound.{blob-ne_temp, join-ne-nil}
use oci_tool.Dir.Manifests.{has_parts, put_image, image_path}
use oci_tool.Dir.Manifests.Image.{HasParts, put_image-HasParts}
use oci_tool.Dir.Lifecycle.{copy_of, destroy}
use oci_tool.Dir.Listing.{Site}
use oci_tool.Dir.AsClient.{dir_client, on_host}
use oci_tool.Copy.Images.Kept.{IsHonest, IsKept}
use oci_tool.Copy.Images.Stored.{IsStore, copy_image-Parts_of}
use oci_tool.Copy.{Copier}
use oci_tool.Copy.Images.{copy_image}
use oci_tool.Dir.AsClient.Tree.{
  Mine, IsAddressedIf, host, destroy-IsAddressed, put_image-IsAddressed, put_blob-IsAddressed,
  fetch-IsAddressed,
}

pub copy_of-Mine : (root : Text) (d : Dir) → Mine root d → Mine root (copy_of d)
unfolding copy_of
copy_of-Mine root d m = record {
  in_root = m.in_root;
  blobs = m.blobs;
  temp = m.temp;
  named = inl refl;
}

pub returned : {d c : Dir} → ◌≡◌ {A = Outcome Dir} (returns d) (returns c) → d ≡ c
returned e = cc e

module _ (root : Text) (sha256_hex : List ℕ → Text) (J : JsonLib) (S : Stream J)
    (im : ImageManifest) (target : Text) where
  -- The blobs of the image, in the tree.
  abbrev blob_at : Text → Text
  blob_at n = join (join root (codes "blobs")) n

  abbrev OnDisk : Disk → Type 0
  OnDisk d =
      All (λ l. exists d (blob_at l.digest) ≡ true) im.layers
      × (exists d (blob_at im.config.digest) ≡ true)

  abbrev pub HasBlobs : Site → Type 0
  HasBlobs s = OnDisk s.disk

  abbrev pub HasNames : Type 0
  HasNames = All (λ l. IsName l.digest) im.layers × IsName im.config.digest

  keep_blobs :
      (s s' : Disk)
      → ((n : Text) → IsName n → exists s (blob_at n) ≡ true → exists s' (blob_at n) ≡ true)
      → HasNames
      → OnDisk s
      → OnDisk s'
  keep_blobs s s' keep (ns, n) (hs, h) = (each im.layers ns hs, keep im.config.digest n h)
    where
      each :
          (ls : List Layer)
          → All (λ l. IsName l.digest) ls
          → All (λ l. exists s (blob_at l.digest) ≡ true) ls
          → All (λ l. exists s' (blob_at l.digest) ≡ true) ls
      each [] ns hs = tt
      each (l ∷ ls) (n, ns) (h, hs) = (keep l.digest n h, each ls ns hs)

  temp_file_apart :
      (d : Dir) (n : Text)
      → Mine root d
      → IsName n
      → d.temp_file ≢ join (join root (codes "blobs")) n
  temp_file_apart d n m k e = elim m.named [
    | inl unset ↦ join-ne-nil (join root (codes "blobs")) n k (sym e ∙ unset)
    | inr (u, ku, at) ↦ blob-ne_temp root n u k ku (sym e ∙ at ∙ ap (λ t. join t u) m.temp)
  ]

  destroy-HasBlobs :
      (d : Dir) (s : Site)
      → Mine root d
      → HasNames
      → HasBlobs s
      → HasBlobs (record s { disk = destroy d s.disk })
  unfolding destroy
  destroy-HasBlobs d s m names =
      elim (Bool-cases (not (d.temp_file == []) && exists s.disk d.temp_file)) [
        | inl left ↦ rw left (
            keep_blobs s.disk _
              (λ n k e. remove_file-exists d.temp_file _ s.disk (temp_file_apart d n m k) e) names)
        | inr nothing ↦ rw nothing (λ h. h)
      ]

  parts_there : (d : Dir) (s : Site) → Mine root d → HasParts im (host root (d, s)) → HasBlobs s
  unfolding has_blob
  parts_there d s m h =
      subst
        (λ b.
          All (λ l. exists s.disk (join b l.digest) ≡ true) im.layers
          × (exists s.disk (join b im.config.digest) ≡ true))
        m.blobs h

  put_image_exists :
      (d : Dir) (s : Site) (q : Text)
      → exists s.disk q ≡ true
      → exists (on_host (put_image J S im target) (d, s)).1.1.disk q ≡ true
  unfolding put_image
  put_image_exists d s q e =
      elim (Bool-cases
        (not (has_parts im (host root (d, s))) || exists s.disk (image_path d im target))) [
          | inl refused ↦ rw refused e
          | inr free ↦ rw free (write_file-exists (image_path d im target) q _ s.disk e)
        ]

  put_image-HasBlobs :
      (d : Dir) (s : Site)
      → Mine root d
      → HasNames
      → (on_host (put_image J S im target) (d, s)).0 ≡ returns true
      → HasBlobs (on_host (put_image J S im target) (d, s)).1.1
  put_image-HasBlobs d s m names e =
      keep_blobs s.disk _ (λ n k there. put_image_exists d s _ there) names
        (parts_there d s m (put_image-HasParts J S im target (host root (d, s)) e).0)

  -- A tree keeps its blobs addressed by their contents.
  pub dir_client-IsKept :
      (src : BaseClient) (full : Bool)
      → ((b : List ℕ) → IsName (address sha256_hex b))
      → IsKept src
          (dir_client sha256_hex J S)
          (Mine root)
          (IsAddressedIf root sha256_hex full)
          im
          target
  dir_client-IsKept src full hex = record {
    copied = λ d s m a. (a, λ c e. subst (Mine root) (returned e) (copy_of-Mine root d m));
    destroyed = λ d s m a. destroy-IsAddressed root sha256_hex full d s a;
    fetched = λ (d, s) (m, a). fetch-IsAddressed root sha256_hex full J S im target d s m a;
    asked = λ sha (d, s) (m, a). (m, a);
    written = λ sha size part (d, s) (m, a).
        put_blob-IsAddressed root sha256_hex full J S im target d s sha size part hex m a;
    put = λ (d, s) (m, a). put_image-IsAddressed root sha256_hex full J S im target d s m a;
  }

  -- A tree is a store.
  dir_client-IsStore :
      (src : BaseClient) (full : Bool)
      → ((b : List ℕ) → IsName (address sha256_hex b))
      → HasNames
      → IsStore src
          (dir_client sha256_hex J S)
          (Mine root)
          (IsAddressedIf root sha256_hex full)
          HasBlobs
          im
          target
  dir_client-IsStore src full hex names = record {
    kept = dir_client-IsKept src full hex;
    complete = λ (d, s) (m, a) e. put_image-HasBlobs d s m names e;
    lasting = λ d s m a h. destroy-HasBlobs d s m names h;
  }

  module _ (src : BaseClient) (H : IsHonest src)
      (hex : (b : List ℕ) → IsName (address sha256_hex b)) (names : HasNames) where
    -- Take a directory tree in which, unless the disk is full, each file among the blobs with a
    -- digest for its name is named after the SHA-256 of its contents, with the draws of its disk
    -- of full length, a client of it whose temporary file is unset or named in its temporary
    -- directory, and a source whose `fetchBlob` does to what its callback changes only what the
    -- callback does. If the digests of the image and the addresses of blobs are file names, then
    -- whenever `Copy::execute` of the image into the tree returns true, the tree has the blob of
    -- each layer and of the config.
    pub copy_image-HasBlobs :
        (n : ℕ) (c : Copier src (dir_client sha256_hex J S))
        → Mine root c.destination
        → IsAddressedIf root sha256_hex c.to.disk.full c.to
        → (copy_image src (dir_client sha256_hex J S) n im target c).0 ≡ returns true
        → HasBlobs (copy_image src (dir_client sha256_hex J S) n im target c).1.to
    copy_image-HasBlobs n c m a e =
        copy_image-Parts_of src (dir_client sha256_hex J S) (Mine root)
          (IsAddressedIf root sha256_hex c.to.disk.full) HasBlobs im target H
          (dir_client-IsStore src c.to.disk.full hex names) n c (m, a) e
