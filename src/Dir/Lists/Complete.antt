-- ===== src/Dir/Lists/Complete.antt =====
-- A manifest list in a tree has its images there.
use oci_tool.Prelude.{
  ◌≡◌, true, not, ◌&&◌, List, [], ◌∷◌, Text, all, All, returns, bind-result, Bool-cases, inl, inr,
  arith,
}
use oci_tool.Json.{JsonLib}
use oci_tool.Json.Stream.{Stream}
use oci_tool.Filesystem.{Disk, exists}
use oci_tool.Filesystem.Laws.{write_file-exists}
use oci_tool.Schema2.{ManifestEntry, ManifestList}
use oci_tool.Dir.{Host}
use oci_tool.Dir.Manifests.{image_file}
use oci_tool.Dir.Lists.{
  list_file, prune_tag, has_images, drop_old, write_list, write_if_complete, tag_of, put_list,
}

-- The manifest of each image of the list is a file of the tag.
abbrev pub HasImages : ManifestList → Text → Disk → Type 0
HasImages ml tag d = All (λ e. exists d (image_file tag e.digest) ≡ true) ml.manifests

all_images :
    (d d' : Disk) (tag : Text) (es : List ManifestEntry)
    → ((q : Text) → exists d q ≡ true → exists d' q ≡ true)
    → all (λ e. exists d (image_file tag e.digest)) es ≡ true
    → All (λ e. exists d' (image_file tag e.digest) ≡ true) es
all_images d d' tag [] keeps h = tt
all_images d d' tag (e ∷ es) keeps h =
    (keeps (image_file tag e.digest) (ground arith), all_images d d' tag es keeps (ground arith))

module _ (J : JsonLib) (S : Stream J) where
  write_list-exists :
      (ml : ManifestList) (tag q : Text) (d : Disk)
      → exists d q ≡ true
      → exists (write_list J S ml tag d) q ≡ true
  unfolding write_list
  write_list-exists ml tag q d e =
      write_file-exists _ q _ _ (write_file-exists (list_file tag) q _ d e)

  write_if_complete-HasImages :
      (ml : ManifestList) (tag : Text) (h : Host)
      → (write_if_complete J S ml tag h).0 ≡ returns true
      → HasImages ml tag (write_if_complete J S ml tag h).1.disk
  unfolding write_if_complete has_images
  write_if_complete-HasImages ml tag h e =
      elim (Bool-cases (has_images ml tag h.disk && not (exists h.disk (list_file tag)))) [
        | inl go ↦ rw go (
            all_images h.disk (write_list J S ml tag h.disk) tag ml.manifests
              (λ q. write_list-exists ml tag q h.disk) (ground arith))
        | inr stop ↦ absurd (ground arith)
      ]

  -- Whenever `Dir::putManifest` of a manifest list returns true, the tree it leaves has the
  -- manifest file of each image of the list under the tag.
  pub put_list-HasImages :
      (ml : ManifestList) (h : Host)
      → (put_list J S ml h).0 ≡ returns true
      → HasImages ml (tag_of ml h) (put_list J S ml h).1.disk
  unfolding put_list
  put_list-HasImages ml h e =
      bind-result (λ k. HasImages ml (tag_of ml h) k.disk) (prune_tag ml (tag_of ml h)) _ h true e
        λ _ e'.
          bind-result (λ k. HasImages ml (tag_of ml h) k.disk) (drop_old J S ml (tag_of ml h)) _ _
            true e' λ _ last. write_if_complete-HasImages ml (tag_of ml h) _ last
