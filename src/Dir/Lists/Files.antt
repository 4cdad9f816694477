-- ===== src/Dir/Lists/Files.antt =====
-- Which files `putManifest` and `fetchManifest` of a manifest list, src/lib/OCI/Extensions/Dir.cpp, leave
-- as they are.
use oci_tool.Prelude.{
  ℕ, ◌≡◌, ◌≢◌, refl, sym, subst, ◌∙◌, ◌==◌, not, ◌&&◌, ◌||◌, any, Option, none, some, List, [], ◌∷◌,
  Text, text_eq, codes, bind-keeps, ◌>>=◌, pure, Bool-cases, inl, inr, arith,
}
use oci_tool.Prelude.Dict.{lookup}
use oci_tool.Json.{JsonLib}
use oci_tool.Json.Stream.{Stream}
use oci_tool.Filesystem.{Disk, file, contents, exists, is_directory, remove_all}
use oci_tool.Filesystem.Laws.{
  remove_all-files, remove_all-draws, remove_all-full, remove_file-full, write_file-full,
  remove_file-files, remove_file-draws, write_file-other, write_file-draws,
}
use oci_tool.Filesystem.Paths.{filename}
use oci_tool.Schema2.{ManifestList, new_manifest_list, manifest_list_ne}
use oci_tool.Schema2.Json.{manifest_list_from_json}
use oci_tool.Dir.{Host}
use oci_tool.Dir.Manifests.{or_json_error, text_at}
use oci_tool.Dir.Manifests.Same.{text_at-then}
use oci_tool.Dir.Lists.{
  list_file, version_file, children, prune, prune_tag, has_images, tag_of, list_from_file,
  read_list, fetch_from, fetch_list, drop_changed, drop_old, write_list, write_if_complete,
  put_list,
}

-- No file but the two of the tag is made or changed, and no draw is used up.
pub record IsSpared (tag : Text) (d e : Disk) : Type 0 where
  pub draws : e.draws ≡ d.draws
  pub full : e.full ≡ d.full
  pub files :
      (q : Text) (b : List ℕ)
      → list_file tag ≢ q
      → version_file tag ≢ q
      → lookup q e.nodes ≡ some (file b)
      → lookup q d.nodes ≡ some (file b)

unchanged : (tag : Text) (d : Disk) → IsSpared tag d d
unchanged tag d = record { draws = refl; full = refl; files = λ q b l v e. e }

IsSpared-next : {tag : Text} {d e f : Disk} → IsSpared tag d e → IsSpared tag e f → IsSpared tag d f
IsSpared-next m n = record {
  draws = n.draws ∙ m.draws;
  full = n.full ∙ m.full;
  files = λ q b l v e. m.files q b l v (n.files q b l v e);
}

prune-IsSpared :
    (tag : Text) (ml : ManifestList) (qs : List Text) (d : Disk) → IsSpared tag d (prune ml qs d)
unfolding prune
prune-IsSpared tag ml [] d = unchanged tag d
prune-IsSpared tag ml (q ∷ qs) d =
    elim (Bool-cases (any (λ e. e.digest == filename q) ml.manifests || not (exists d q))) [
      | inl stays ↦ rw stays (prune-IsSpared tag ml qs d)
      | inr goes ↦ rw goes (
          IsSpared-next
            (record {
              draws = remove_all-draws q d;
              full = remove_all-full q d;
              files = λ r b l v e. remove_all-files q r b d e;
            })
            (prune-IsSpared tag ml qs (remove_all q d)))
    ]

-- The host of the same client, on a disk that has its files still.
abbrev pub Spared : Text → Host → Host → Type 0
Spared tag h k = (k.dir ≡ h.dir) × IsSpared tag h.disk k.disk

prune_tag-Spared : (ml : ManifestList) (tag : Text) (h : Host) → Spared tag h (prune_tag ml tag h).1
unfolding prune_tag
prune_tag-Spared ml tag h = elim (Bool-cases (exists h.disk tag)) [
  | inr new ↦ rw new (refl, unchanged tag h.disk)
  | inl old ↦ elim (Bool-cases (is_directory h.disk tag)) [
    | inr bad ↦ rw (old, bad) (refl, unchanged tag h.disk)
    | inl dir ↦ rw (old, dir) (refl, prune-IsSpared tag ml (children tag h.disk.nodes) h.disk)
  ]
]

module _ (J : JsonLib) (S : Stream J) where
  list_from_file_same :
      (o : J.Obj) (ml : ManifestList) (h : Host) → (list_from_file J S o ml h).1 ≡ h
  unfolding list_from_file
  list_from_file_same o ml h = by_list (manifest_list_from_json J o ml)
    where
      by_list :
          (new : Option ManifestList)
          → ((do
            n ← or_json_error J S new
            origin ← text_at J S o (codes "originDomain")
            target ← text_at J S o (codes "requestedTarget")
            name ← text_at J S o (codes "name")
            pure (record n { origin_domain = origin; requested_target = target; name = name }))
              h).1
            ≡ h
      by_list none = refl
      by_list (some n) = text_at-then J S o (codes "originDomain") _ h λ origin.
          text_at-then J S o (codes "requestedTarget") _ h
            λ target. text_at-then J S o (codes "name") _ h λ name. refl

  read_list_same : (ml : ManifestList) (o : Option J.Json) (h : Host) → (read_list J S ml o h).1 ≡ h
  unfolding read_list
  read_list_same ml none h = refl
  read_list_same ml (some j) h = by_object (J.get_object j)
    where
      by_object :
          (o : Option J.Obj) → ((or_json_error J S o >>= λ o. list_from_file J S o ml) h).1 ≡ h
      by_object none = refl
      by_object (some o) = list_from_file_same o ml h

  fetch_from_same : (tag : Text) (ml : ManifestList) (h : Host) → (fetch_from J S tag ml h).1 ≡ h
  unfolding fetch_from
  fetch_from_same tag ml h =
      ground (arith, read_list_same ml (S.read (contents (lookup (list_file tag) h.disk.nodes))) h)

  -- Fetching a manifest list changes nothing.
  pub fetch_list_same : (ml asked : ManifestList) (h : Host) → (fetch_list J S ml asked h).1 ≡ h
  unfolding fetch_list
  fetch_list_same ml asked h = fetch_from_same _ _ h

  drop_changed-Spared :
      (ml : ManifestList) (tag : Text) (other : ManifestList) (h : Host)
      → Spared tag h (drop_changed J S ml tag other h).1
  unfolding drop_changed
  drop_changed-Spared ml tag other h =
      elim (Bool-cases (manifest_list_ne ml other && exists h.disk (list_file tag))) [
        | inl goes ↦ rw goes (
          refl,
          record {
            draws = remove_file-draws (list_file tag) h.disk;
            full = remove_file-full (list_file tag) h.disk;
            files = λ q b l v e. remove_file-files (list_file tag) q b h.disk e;
          },
        )
        | inr stays ↦ rw stays (refl, unchanged tag h.disk)
      ]

  drop_old-Spared :
      (ml : ManifestList) (tag : Text) (h : Host) → Spared tag h (drop_old J S ml tag h).1
  unfolding drop_old
  drop_old-Spared ml tag h = elim (Bool-cases (exists h.disk (list_file tag))) [
    | inr new ↦ rw new (refl, unchanged tag h.disk)
    | inl old ↦
        let same = fetch_list_same new_manifest_list ml h in
        rw old (
          bind-keeps (Spared tag h) (fetch_list J S new_manifest_list ml) (drop_changed J S ml tag)
            h (subst (Spared tag h) (sym same) (refl, unchanged tag h.disk))
            λ other.
              subst (λ k. Spared tag h (drop_changed J S ml tag other k).1) (sym same)
                (drop_changed-Spared ml tag other h))
  ]

  write_if_complete-Spared :
      (ml : ManifestList) (tag : Text) (h : Host) → Spared tag h (write_if_complete J S ml tag h).1
  unfolding write_if_complete write_list
  write_if_complete-Spared ml tag h =
      elim (Bool-cases (has_images ml tag h.disk && not (exists h.disk (list_file tag)))) [
        | inr stop ↦ rw stop (refl, unchanged tag h.disk)
        | inl go ↦ rw go (
          refl,
          record {
            full =
                write_file-full (version_file tag) _ _ ∙ write_file-full (list_file tag) _ h.disk;
            draws =
                write_file-draws (version_file tag) _ _ ∙ write_file-draws (list_file tag) _ h.disk;
            files = λ q b l v e.
                sym (write_file-other (list_file tag) q _ h.disk l)
                ∙ sym (write_file-other (version_file tag) q _ _ v)
                ∙ e;
          },
        )
      ]

  Spared-then : {tag : Text} {h k j : Host} → Spared tag h k → Spared tag k j → Spared tag h j
  Spared-then (d, m) (d', m') = (d' ∙ d, IsSpared-next m m')

  pub put_list-Spared :
      (ml : ManifestList) (h : Host) → Spared (tag_of ml h) h (put_list J S ml h).1
  unfolding put_list
  put_list-Spared ml h =
      let tag = tag_of ml h in
      let pruned = prune_tag-Spared ml tag h in
      bind-keeps (Spared tag h) (prune_tag ml tag) _ h pruned λ _.
        let dropped = Spared-then pruned (drop_old-Spared ml tag _) in
        bind-keeps (Spared tag h) (drop_old J S ml tag) _ (prune_tag ml tag h).1 dropped
          λ _. Spared-then dropped (write_if_complete-Spared ml tag _)
