-- ===== src/Dir/AsClient/Tree.antt =====
-- A directory tree as the destination of a copy: its blobs stay addressed by their contents.
use oci_tool.Prelude.{
  arith, Bool, false, ℕ, ◌≡◌, ◌≢◌, sym, ap, subst, ◌∙◌, ◌==◌, ◌⊎◌, inl, inr, some, List, [], Text,
  text_eq, codes, length, All, Bool-cases, not, ◌&&◌, ◌++◌, ◌||◌,
}
use oci_tool.Prelude.Dict.{lookup}
use oci_tool.Json.{JsonLib}
use oci_tool.Json.Stream.{Stream}
use oci_tool.Filesystem.{file, exists, write_file}
use oci_tool.Filesystem.Laws.{
  remove_file-full, write_file-full, remove_file-draws, remove_file-files, write_file-draws,
  write_file-other,
}
use oci_tool.Filesystem.Paths.{join, IsName, filename, filename-join}
use oci_tool.Schema2.{ImageManifest, new_image_manifest}
use oci_tool.Dir.{Dir, Host, address}
use oci_tool.Dir.Blobs.{put_blob}
use oci_tool.Dir.Blobs.Sound.{IsSoundIf, IsDigest}
use oci_tool.Dir.Blobs.Integrity.{put_blob_keeps}
use oci_tool.Dir.Blobs.Roots.{put_blob-In}
use oci_tool.Dir.Manifests.Same.{fetch_image_same}
use oci_tool.Dir.Manifests.{tag_dir, image_file, has_parts, put_image, fetch_image, image_path}
use oci_tool.Dir.Lifecycle.{destroy}
use oci_tool.Dir.Listing.{Site}
use oci_tool.Dir.AsClient.{on_host}

module _ (root : Text) where
  -- A client of the tree under `root`.
  pub record Mine (d : Dir) : Type 0 where
    pub in_root : d.tree_root ≡ root
    pub blobs : d.blobs_dir ≡ join root (codes "blobs")
    pub temp : d.temp_dir ≡ join root (codes "temp")
    pub named : (d.temp_file ≡ []) ⊎ ((u : Text) × IsName u × (d.temp_file ≡ join d.temp_dir u))

  -- The tree: unless the disk is full, each file among its blobs that is named by a digest is named
  -- after its contents.
  pub record IsAddressedIf (sha256_hex : List ℕ → Text) (full : Bool) (s : Site) : Type 0 where
    pub space : s.disk.full ≡ full
    pub drawn : All (λ u. length u ≡ 48) s.disk.draws
    pub addressed :
        full ≡ false
        → (n : Text) (b : List ℕ) → IsDigest n
        → lookup (join (join root (codes "blobs")) n) s.disk.nodes ≡ some (file b)
        → n ≡ address sha256_hex b

  -- The same on a disk with room.
  abbrev pub IsAddressed : (List ℕ → Text) → Site → Type 0
  IsAddressed sha256_hex s = IsAddressedIf sha256_hex false s

  abbrev pub host : Dir × Site → Host
  host (d, s) = record { dir = d; disk = s.disk }

  module _ (sha256_hex : List ℕ → Text) (full : Bool) where
    abbrev Addressed : Site → Type 0
    Addressed s = IsAddressedIf sha256_hex full s

    to_sound : (d : Dir) (s : Site) → Mine d → Addressed s → IsSoundIf sha256_hex full (host (d, s))
    to_sound d s m a = record {
      space = a.space;
      blobs = m.blobs ∙ ap (λ r. join r (codes "blobs")) (sym m.in_root);
      temp = m.temp ∙ ap (λ r. join r (codes "temp")) (sym m.in_root);
      named = m.named;
      drawn = a.drawn;
      addressed = λ r n b k e.
          a.addressed r n b k (ap (λ p. lookup (join p n) s.disk.nodes) (sym m.blobs) ∙ e);
    }

    from_sound :
        (h : Host) (s : Site)
        → h.tree_root ≡ root
        → IsSoundIf sha256_hex full h
        → Mine h.dir × Addressed (record s { disk = h.disk })
    from_sound h s r v =
        let blobs = v.blobs ∙ ap (λ r. join r (codes "blobs")) r in
        (
          record {
            in_root = r;
            blobs = blobs;
            temp = v.temp ∙ ap (λ r. join r (codes "temp")) r;
            named = v.named;
          },
          record {
            space = v.space;
            drawn = v.drawn;
            addressed = λ r n b k e.
                v.addressed r n b k (ap (λ p. lookup (join p n) h.disk.nodes) blobs ∙ e);
          },
        )

    pub destroy-IsAddressed :
        (d : Dir) (s : Site) → Addressed s → Addressed (record s { disk = destroy d s.disk })
    unfolding destroy
    destroy-IsAddressed d s a =
        elim (Bool-cases (not (d.temp_file == []) && exists s.disk d.temp_file)) [
          | inl left ↦ rw left (record {
            space = remove_file-full d.temp_file s.disk ∙ a.space;
            drawn = rw (remove_file-draws d.temp_file s.disk) a.drawn;
            addressed =
                λ r n b k e. a.addressed r n b k (remove_file-files d.temp_file _ b s.disk e);
          })
          | inr nothing ↦ rw nothing a
        ]

    -- A file whose name is no digest is none of the blobs, wherever it is.
    pub join-ne_blob :
        (p s n : Text)
        → IsName s
        → ((x : Text) → s ≢ codes "sha256:" ++ x)
        → IsDigest n
        → join p s ≢ join (join root (codes "blobs")) n
    join-ne_blob p s n k other (k', x, at) e =
        other x (sym (filename-join p s k) ∙ ap filename e ∙ filename-join _ n k' ∙ at)

    image-ne_blob :
        (d : Dir) (im : ImageManifest) (target n : Text)
        → IsDigest n
        → image_path d im target ≢ join (join root (codes "blobs")) n
    unfolding image_path image_file codes
    image-ne_blob d im target n =
        join-ne_blob (join (tag_dir d im.origin_domain im.name im.requested_target) target)
          (codes "ImageManifest.json") n ((λ e. absurd (cc e)), omega arith)
          (λ x e. ground (arith, e))

    module _ (J : JsonLib) (S : Stream J) (im : ImageManifest) (target : Text) where
      write-IsAddressed :
          (p t : Text) (s : Site)
          → ((n : Text) → IsDigest n → p ≢ join (join root (codes "blobs")) n)
          → Addressed s
          → Addressed (record s { disk = write_file p t s.disk })
      write-IsAddressed p t s out a = record {
        space = write_file-full p t s.disk ∙ a.space;
        drawn = rw (write_file-draws p t s.disk) a.drawn;
        addressed =
            λ r n b k e. a.addressed r n b k (sym (write_file-other p _ t s.disk (out n k)) ∙ e);
      }

      pub put_image-IsAddressed :
          (d : Dir) (s : Site)
          → Mine d
          → Addressed s
          → Mine (on_host (put_image J S im target) (d, s)).1.0
            × Addressed (on_host (put_image J S im target) (d, s)).1.1
      unfolding put_image
      put_image-IsAddressed d s m a =
          elim (Bool-cases
            (not (has_parts im (host (d, s))) || exists s.disk (image_path d im target))) [
              | inl refused ↦ rw refused (m, a)
              | inr free ↦ rw free (
                m,
                write-IsAddressed (image_path d im target) _ s
                    (λ n k. image-ne_blob d im target n k) a,
              )
            ]

      pub put_blob-IsAddressed :
          (d : Dir) (s : Site) (sha : Text) (size : ℕ) (part : List ℕ)
          → ((b : List ℕ) → IsName (address sha256_hex b))
          → Mine d
          → Addressed s
          → Mine (on_host (put_blob sha256_hex im target sha size part) (d, s)).1.0
            × Addressed (on_host (put_blob sha256_hex im target sha size part) (d, s)).1.1
      put_blob-IsAddressed d s sha size part hex m a =
          from_sound (put_blob sha256_hex im target sha size part (host (d, s))).1 s
            (put_blob-In root sha256_hex im target sha size part (host (d, s)) m.in_root)
            (put_blob_keeps im target sha size part (host (d, s))
              (λ b e. subst IsName (sym e) (hex b)) (to_sound d s m a))

      pub fetch-IsAddressed :
          (d : Dir) (s : Site)
          → Mine d
          → Addressed s
          → Mine (on_host (fetch_image J S new_image_manifest im) (d, s)).1.0
            × Addressed (on_host (fetch_image J S new_image_manifest im) (d, s)).1.1
      fetch-IsAddressed d s m a =
          subst (λ h. Mine h.dir × Addressed (record s { disk = h.disk }))
            (sym (fetch_image_same J S new_image_manifest im (host (d, s)))) (m, a)
