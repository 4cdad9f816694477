-- ===== src/Copy/Images/Kept.antt =====
-- An invariant of the destination through the copy of an image.
use oci_tool.Prelude.{
  ℕ, zero, suc, ◌≡◌, Bool, true, false, Option, none, some, List, [], ◌∷◌, ◌++◌, Text, text_eq, ltb,
  length, if◌then◌else◌, Exec, returns, Bool-cases, inl, inr, arith, bind-keeps, bind-after, ◌>>◌,
  pure,
}
use oci_tool.BaseClient.{BaseClient}
use oci_tool.Schema2.{ImageManifest, Layer, new_image_manifest, image_manifest_ne}
use oci_tool.Copy.{Copier, Run, Runs, inside, run, copy_source, copy_destination}
use oci_tool.Copy.Layers.{mem}
use oci_tool.Copy.Images.{
  claim_layer, take_layer, find_free, transfer_blob, fetch_layer, download, next_round, one_round,
  layers_loop, copy_config, copy_parts, swallow, has, after_layer,
}

-- A source whose downloads change what the callback works on by calls of the callback alone.
abbrev pub IsHonest : BaseClient → Type 1
IsHonest src =
    (S : Type 0) (P : S → Type 0) (call_back : List ℕ → Exec S Bool) (name sha : Text)
    (x : (src.Obj × src.World) × S)
    → ((part : List ℕ) (s : S) → P s → P (call_back part s).1)
    → P x.1
    → P (src.fetch_blob name sha call_back x).1.1

module _ (src dest : BaseClient) (Mine : dest.Obj → Type 0) (Safe : dest.World → Type 0) where
  -- The clients are those of one store, and its world is as it should be.
  abbrev pub Both : dest.Obj × dest.World → Type 0
  Both (d, v) = Mine d × Safe v

  -- What a store keeps under the calls that the copy of `im` makes.
  pub record IsKept (im : ImageManifest) (target : Text) : Type 0 where
    pub copied :
        (d : dest.Obj) (v : dest.World)
        → Mine d
        → Safe v
        → Safe (dest.copy d v).1 × ((c : dest.Obj) → (dest.copy d v).0 ≡ returns c → Mine c)
    pub destroyed : (d : dest.Obj) (v : dest.World) → Mine d → Safe v → Safe (dest.destroy d v)
    pub fetched :
        (x : dest.Obj × dest.World) → Both x → Both (dest.fetch_image new_image_manifest im x).1
    pub asked :
        (sha : Text) (x : dest.Obj × dest.World) → Both x → Both (dest.has_blob im target sha x).1
    pub written :
        (sha : Text) (size : ℕ) (part : List ℕ) (x : dest.Obj × dest.World)
        → Both x
        → Both (dest.put_blob im target sha size part x).1
    pub put : (x : dest.Obj × dest.World) → Both x → Both (dest.put_image im target x).1

  abbrev pub Kept : Copier src dest → Type 0
  Kept c = Mine c.destination × Safe c.to

  abbrev pub Held : Run src dest → Type 0
  Held r = Mine r.destination × Kept r.copier

  module _ (im : ImageManifest) (target : Text) (H : IsHonest src) (K : IsKept im target) where
    has-Held : (sha : Text) (r : Run src dest) → Held r → Held (has src dest im target sha r).1
    has-Held sha r (m, (c, s)) =
        let (m', s') = K.asked sha (r.destination, r.copier.to) (m, s) in (m', (c, s'))

    take_layer-Held :
        (l : Layer) (r : Run src dest) → Held r → Held (take_layer src dest im target l r).1
    unfolding take_layer claim_layer
    take_layer-Held l r h =
        bind-keeps Held (has src dest im target l.digest) _ r (has-Held l.digest r h)
          λ there. ground (arith, has-Held l.digest r h)

    find_free-Held :
        (ls : List Layer) (r : Run src dest) → Held r → Held (find_free src dest im target ls r).1
    unfolding find_free
    find_free-Held [] r h = h
    find_free-Held (l ∷ ls) r h = elim (Bool-cases (mem l.digest r.copier.working)) [
      | inl busy ↦
          let rest = find_free-Held ls r h in
          rw busy (
            bind-keeps Held (find_free src dest im target ls) (λ found. pure (after_layer l found))
              r rest λ _. rest)
      | inr free ↦
          let taken = take_layer-Held l r h in
          rw free (
            bind-keeps Held (take_layer src dest im target l) (λ _. pure (some ([], l, ls))) r taken
              λ _. taken)
    ]

    transfer_blob-Held :
        (sha : Text) (size : ℕ) (r : Run src dest)
        → Held r
        → Held (transfer_blob src dest im target sha size r).1
    unfolding transfer_blob
    transfer_blob-Held sha size r (m, (c, s)) =
        let (m', s') =
          H (dest.Obj × dest.World) Both (dest.put_blob im target sha size) im.name sha
            ((r.source, r.copier.from), (r.destination, r.copier.to))
            (λ part x b. K.written sha size part x b) (m, s) in
        (m', (c, s'))

    pub run-Kept :
        {A : Type 0} (m : Runs src dest A) (s : src.Obj) (d : dest.Obj) (c : Copier src dest)
        → ((r : Run src dest) → Held r → Held (m r).1)
        → Mine d
        → Kept c
        → Kept (run src dest m s d c).1
    run-Kept m s d c body mine (c0, safe) =
        let (m', (c', s')) =
          body (record { source = s; destination = d; copier = c }) (mine, (c0, safe)) in
        (c', K.destroyed _ _ m' s')

    pub copy_destination-Kept :
        (c : Copier src dest)
        → Kept c
        → Kept (copy_destination src dest c).1
          × ((d : dest.Obj) → (copy_destination src dest c).0 ≡ returns d → Mine d)
    copy_destination-Kept c (m, s) =
        let (s', made) = K.copied c.destination c.to m s in ((m, s'), made)

    fetch_layer-Kept :
        (l : Layer) (c : Copier src dest) → Kept c → Kept (fetch_layer src dest im target l c).1
    unfolding fetch_layer
    fetch_layer-Kept l c k = elim (Bool-cases (ltb (length l.digest) 10)) [
      | inl short ↦ rw short k
      | inr long ↦
          let (k', made) = copy_destination-Kept c k in
          rw long (
            bind-after Kept (copy_destination src dest) _ c k' λ d at.
              bind-keeps Kept (copy_source src dest) _ _ k' λ s.
                run-Kept (swallow src dest (transfer_blob src dest im target l.digest l.size)) s d
                  (copy_source src dest (copy_destination src dest c).1).1
                  (λ r h. transfer_blob-Held l.digest l.size r h) (made d at) k')
    ]

    download-Held :
        (l : Layer) (r : Run src dest)
        → Held r
        → Held (inside src dest (download src dest im target l) r).1
    unfolding download
    download-Held l r (m, k) = (m, fetch_layer-Kept l r.copier k)

    next_round-Held :
        (again : List Layer → Runs src dest (Unit {0})) (ls : List Layer)
        (found : Option (List Layer × Layer × List Layer)) (r : Run src dest)
        → ((ks : List Layer) (r : Run src dest) → Held r → Held (again ks r).1)
        → Held r
        → Held (next_round src dest im target again ls found r).1
    unfolding next_round
    next_round-Held again ls none r keeps h = keeps ls r h
    next_round-Held again ls (some (before, l, after)) r keeps h =
        let h' = has-Held l.digest r h in
        bind-keeps Held (has src dest im target l.digest) _ r h' λ there. by_answer there _ h'
      where
        by_answer :
            (there : Bool) (r : Run src dest)
            → Held r
            → Held
                ((if there
                    then again (before ++ after)
                    else (inside src dest (download src dest im target l) >> again ls))
                  r).1
        by_answer true r h = keeps (before ++ after) r h
        by_answer false r h =
            let h' = download-Held l r h in
            bind-keeps Held (inside src dest (download src dest im target l)) (λ _. again ls) r h'
              λ _. keeps ls _ h'

    layers_loop-Held :
        (n : ℕ) (ls : List Layer) (r : Run src dest)
        → Held r
        → Held (layers_loop src dest n im target ls r).1
    unfolding layers_loop one_round
    layers_loop-Held zero ls r h = h
    layers_loop-Held (suc n) [] r h = h
    layers_loop-Held (suc n) (l ∷ ls) r h =
        let h' = find_free-Held (l ∷ ls) r h in
        bind-keeps Held (find_free src dest im target (l ∷ ls)) _ r h' λ found.
          next_round-Held (layers_loop src dest n im target) (l ∷ ls) found _
            (λ ks r h. layers_loop-Held n ks r h) h'

    copy_config-Held : (r : Run src dest) → Held r → Held (copy_config src dest im target r).1
    unfolding copy_config
    copy_config-Held r h =
        let h' = has-Held im.config.digest r h in
        bind-keeps Held (has src dest im target im.config.digest) _ r h'
          λ there. by_answer there _ h'
      where
        by_answer :
            (there : Bool) (r : Run src dest)
            → Held r
            → Held
                ((if there
                    then pure tt
                    else (transfer_blob src dest im target im.config.digest im.config.size
                        >> pure tt))
                  r).1
        by_answer true r h = h
        by_answer false r h =
            let h' = transfer_blob-Held im.config.digest im.config.size r h in
            bind-keeps Held (transfer_blob src dest im target im.config.digest im.config.size)
              (λ _. pure tt) r h' λ _. h'

    pub copy_parts-Held :
        (n : ℕ) (old : ImageManifest) (r : Run src dest)
        → Held r
        → Held (copy_parts src dest n im target old r).1
    unfolding copy_parts
    copy_parts-Held n old r h = elim (Bool-cases (image_manifest_ne im old)) [
      | inr same ↦ rw same h
      | inl differs ↦
          let h' = layers_loop-Held n im.layers r h in
          rw differs (
            bind-keeps Held (layers_loop src dest n im target im.layers)
              (λ _. copy_config src dest im target) r h' λ _. copy_config-Held _ h')
    ]
