-- ===== src/Copy/Lists/Kept.antt =====
-- An invariant of the destination through the copy of a tag and of a manifest list.
use oci_tool.Prelude.{
  All, ℕ, ◌≡◌, Bool, not, ◌&&◌, List, [], ◌∷◌, Text, text_eq, codes, ◌==◌, nat_eq, Exec, returns,
  Bool-cases, inl, inr, bind-keeps, bind-after, bind-value, pure, ◌>>=◌,
}
use oci_tool.BaseClient.{BaseClient}
use oci_tool.Schema1.{LegacyManifest, new_legacy}
use oci_tool.Schema2.{
  ManifestEntry, ManifestList, ImageManifest, new_image_manifest, new_manifest_list,
  manifest_list_ne,
}
use oci_tool.Copy.{
  Copier, Calls, copy_source, copy_destination, with_source, with_destination, on_source,
  on_destination,
}
use oci_tool.Copy.Images.{copy_image}
use oci_tool.Copy.Images.Kept.{IsHonest, IsKept, Both, Kept}
use oci_tool.Copy.Images.Stored.{IsStore, copy_image-Kept}
use oci_tool.Copy.Lists.{
  is_empty, image_request, list_request, legacy_request, copy_entry, copy_entries, copy_new_list,
  copy_list_from, copy_list, copy_legacy, copy_version, copy_tag,
}

module _ (src : BaseClient) (Good : ImageManifest → Text → Type 0)
    (GoodList : ManifestList → Type 0) (Apt : Text → Type 0) where
  -- A list that is good, with digests that are apt.
  abbrev pub Fit : ManifestList → Type 0
  Fit ml = GoodList ml × All (λ e. Apt e.digest) ml.manifests

  -- A source that gives out good manifests, and whose downloads do only what the callback does.
  pub record IsGiving : Type 1 where
    pub honest : IsHonest src
    pub image :
        (ml : ManifestList) (e : ManifestEntry) (x : src.Obj × src.World) (im : ImageManifest)
        → Apt e.digest
        → (src.fetch_image new_image_manifest (image_request ml e) x).0 ≡ returns im
        → Good im e.digest
    pub list :
        (rsrc target : Text) (x : src.Obj × src.World) (ml : ManifestList)
        → (src.fetch_list new_manifest_list (list_request rsrc target) x).0 ≡ returns ml
        → Fit ml

module _ (src dest : BaseClient) (Mine : dest.Obj → Type 0) (Safe : dest.World → Type 0)
    (Good : ImageManifest → Text → Type 0) (GoodList : ManifestList → Type 0)
    (Apt : Text → Type 0) where
  -- What a store keeps under the calls of the copy of a tag, for the manifests that are good.
  pub record IsKeeper : Type 0 where
    pub copied :
        (d : dest.Obj) (v : dest.World)
        → Mine d
        → Safe v
        → Safe (dest.copy d v).1 × ((c : dest.Obj) → (dest.copy d v).0 ≡ returns c → Mine c)
    pub destroyed : (d : dest.Obj) (v : dest.World) → Mine d → Safe v → Safe (dest.destroy d v)
    pub images :
        (im : ImageManifest) (target : Text) → Good im target → IsKept src dest Mine Safe im target
    pub fetched_list :
        (ml : ManifestList) (x : dest.Obj × dest.World)
        → Both src dest Mine Safe x
        → Both src dest Mine Safe (dest.fetch_list new_manifest_list ml x).1
    pub put_list :
        (ml : ManifestList) (x : dest.Obj × dest.World)
        → GoodList ml
        → Both src dest Mine Safe x
        → Both src dest Mine Safe (dest.put_list ml ml.requested_target x).1
    pub asked_legacy :
        (im : LegacyManifest) (sha : Text) (x : dest.Obj × dest.World)
        → Both src dest Mine Safe x
        → Both src dest Mine Safe (dest.has_legacy_blob im sha x).1

  module _ (G : IsGiving src Good GoodList Apt) (K : IsKeeper) where
    abbrev Still : Copier src dest → Type 0
    Still c = Kept src dest Mine Safe c

    asked-Still :
        {A : Type 0} (m : Exec (src.Obj × src.World) A) (c : Copier src dest)
        → Still c
        → Still (with_source src dest m c).1
    asked-Still m c k = bind-keeps Still (copy_source src dest) _ c k λ s. k

    -- Nothing of the destination changes while the source is asked, and what the source returns is
    -- what its method returns for some of its states.
    pub with_source-Still :
        {A B : Type 0} (Q : A → Type 0) (m : Exec (src.Obj × src.World) A)
        (f : A → Calls src dest B) (c : Copier src dest)
        → Still c
        → ((x : src.Obj × src.World) (a : A) → (m x).0 ≡ returns a → Q a)
        → ((a : A) (c : Copier src dest) → Q a → Still c → Still (f a c).1)
        → Still ((with_source src dest m >>= f) c).1
    with_source-Still Q m f c k told next =
        let asked = asked-Still m c k in
        bind-after Still (with_source src dest m) f c asked λ a at.
          next a _
            (bind-value Q (copy_source src dest) (on_source src dest m) c (λ s b e. told _ b e) a
              at)
            asked

    with_destination-Still :
        {A : Type 0} (m : Exec (dest.Obj × dest.World) A) (c : Copier src dest)
        → ((x : dest.Obj × dest.World)
            → Both src dest Mine Safe x
            → Both src dest Mine Safe (m x).1)
        → Still c
        → Still (with_destination src dest m c).1
    with_destination-Still m c keeps (mine, safe) =
        let (safe', made) = K.copied c.destination c.to mine safe in
        bind-after Still (copy_destination src dest) (on_destination src dest m) c (mine, safe')
          λ d at.
            let (still, after) = keeps (d, _) (made d at, safe') in
            (mine, K.destroyed _ _ still after)

    as_store :
        (im : ImageManifest) (target : Text)
        → Good im target
        → IsStore src dest Mine Safe (λ v. Unit {0}) im target
    as_store im target good = record {
      kept = K.images im target good;
      complete = λ x b e. tt;
      lasting = λ d v m s t. tt;
    }

    copy_entry-Still :
        (n : ℕ) (ml : ManifestList) (e : ManifestEntry) (c : Copier src dest)
        → Apt e.digest
        → Still c
        → Still (copy_entry src dest n ml e c).1
    unfolding copy_entry
    copy_entry-Still n ml e c apt k =
        with_source-Still (λ im. Good im e.digest)
          (src.fetch_image new_image_manifest (image_request ml e))
          (λ im. copy_image src dest n im e.digest >>= done) c k
          (λ x im at. G.image ml e x im apt at)
          λ im c' good k'.
            let copied =
              copy_image-Kept src dest Mine Safe (λ v. Unit {0}) im e.digest G.honest
                (as_store im e.digest good) n c' k' in
            bind-keeps Still (copy_image src dest n im e.digest) done c' copied λ _. copied
      where
        done : Bool → Calls src dest (Unit {0})
        done b = pure tt

    copy_entries-Still :
        (n : ℕ) (ml : ManifestList) (es : List ManifestEntry) (c : Copier src dest)
        → All (λ e. Apt e.digest) es
        → Still c
        → Still (copy_entries src dest n ml es c).1
    unfolding copy_entries
    copy_entries-Still n ml [] c fit k = k
    copy_entries-Still n ml (e ∷ es) c (apt, fit) k =
        let k' = copy_entry-Still n ml e c apt k in
        bind-keeps Still (copy_entry src dest n ml e) _ c k'
          λ _. copy_entries-Still n ml es _ fit k'

    copy_new_list-Still :
        (n : ℕ) (ml : ManifestList) (c : Copier src dest)
        → Fit src Good GoodList Apt ml
        → Still c
        → Still (copy_new_list src dest n ml c).1
    unfolding copy_new_list
    copy_new_list-Still n ml c (good, fit) k =
        let k' = copy_entries-Still n ml ml.manifests c fit k in
        bind-keeps Still (copy_entries src dest n ml ml.manifests) _ c k' λ _.
          let put =
            with_destination-Still (dest.put_list ml ml.requested_target) _
              (λ x b. K.put_list ml x good b) k' in
          bind-keeps Still (with_destination src dest (dest.put_list ml ml.requested_target)) _ _
            put λ _. put

    copy_list_from-Still :
        (n : ℕ) (ml old : ManifestList) (c : Copier src dest)
        → Fit src Good GoodList Apt ml
        → Still c
        → Still (copy_list_from src dest n ml old c).1
    unfolding copy_list_from
    copy_list_from-Still n ml old c good k =
        elim (Bool-cases (manifest_list_ne ml old && not (is_empty ml.manifests))) [
          | inl differs ↦ rw differs (copy_new_list-Still n ml c good k)
          | inr same ↦ rw same k
        ]

    copy_list-Still :
        (n : ℕ) (ml : ManifestList) (c : Copier src dest)
        → Fit src Good GoodList Apt ml
        → Still c
        → Still (copy_list src dest n ml c).1
    unfolding copy_list
    copy_list-Still n ml c good k =
        let k' =
          with_destination-Still (dest.fetch_list new_manifest_list ml) c (K.fetched_list ml) k in
        bind-keeps Still (with_destination src dest (dest.fetch_list new_manifest_list ml)) _ c k'
          λ old. copy_list_from-Still n ml old _ good k'

    copy_legacy-Still :
        (im : LegacyManifest) (ls : List (Text × Text)) (c : Copier src dest)
        → Still c
        → Still (copy_legacy src dest im ls c).1
    unfolding copy_legacy
    copy_legacy-Still im [] c k = k
    copy_legacy-Still im ((kind, sha) ∷ ls) c k = elim (Bool-cases (kind == codes "blobSum")) [
      | inl sum ↦
          let k' =
            with_destination-Still (dest.has_legacy_blob im sha) c (K.asked_legacy im sha) k in
          rw sum (
            bind-keeps Still (with_destination src dest (dest.has_legacy_blob im sha)) _ c k'
              λ there. copy_legacy-Still im ls _ k')
      | inr other ↦ rw other (copy_legacy-Still im ls c k)
    ]

    copy_version-Still :
        (n : ℕ) (rsrc target : Text) (ml : ManifestList) (c : Copier src dest)
        → Fit src Good GoodList Apt ml
        → Still c
        → Still (copy_version src dest n rsrc target ml c).1
    unfolding copy_version
    copy_version-Still n rsrc target ml c good k = elim (Bool-cases (ml.schema_version == 1)) [
      | inl one ↦ rw one (
          with_source-Still (λ im. Unit {0})
            (src.fetch_legacy new_legacy (legacy_request rsrc target))
            (λ im. copy_legacy src dest im im.fs_layers) c k (λ x im at. tt)
            λ im c' _ k'. copy_legacy-Still im im.fs_layers c' k')
      | inr newer ↦ elim (Bool-cases (ml.schema_version == 2 && not (is_empty ml.manifests))) [
        | inl two ↦ rw (newer, two) (copy_list-Still n ml c good k)
        | inr neither ↦ rw (newer, neither) k
      ]
    ]

    pub copy_tag-Still :
        (n : ℕ) (rsrc target : Text) (c : Copier src dest)
        → Still c
        → Still (copy_tag src dest n rsrc target c).1
    unfolding copy_tag
    copy_tag-Still n rsrc target c k =
        with_source-Still (Fit src Good GoodList Apt)
          (src.fetch_list new_manifest_list (list_request rsrc target))
          (copy_version src dest n rsrc target) c k (λ x ml at. G.list rsrc target x ml at)
          λ ml c' good k'. copy_version-Still n rsrc target ml c' good k'
