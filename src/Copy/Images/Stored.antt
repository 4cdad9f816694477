-- ===== src/Copy/Images/Stored.antt =====
-- A store through the copy of an image: it stays as it should be, and has the parts at the end.
use oci_tool.Prelude.{
  ℕ, ◌≡◌, Bool, true, false, Text, Outcome, returns, bind-keeps, bind-after, bind-returned,
  bind-result,
}
use oci_tool.BaseClient.{BaseClient}
use oci_tool.Schema2.{ImageManifest, new_image_manifest}
use oci_tool.Copy.{Copier, Run, ask, run, copy_source, copy_destination, catch_runtime}
use oci_tool.Copy.Images.{copy_parts, copy_manifest, copy_image}
use oci_tool.Copy.Images.Complete.{caught-true}
use oci_tool.Copy.Images.Kept.{
  IsHonest, IsKept, Both, Kept, Held, run-Kept, copy_destination-Kept, copy_parts-Held,
}

module _ (src dest : BaseClient) (Mine : dest.Obj → Type 0) (Safe Parts : dest.World → Type 0)
    (im : ImageManifest) (target : Text) where
  -- Where a store says that it has put the manifest, it has the parts, and keeps them when a client
  -- of it is gone.
  pub record IsStore : Type 0 where
    pub kept : IsKept src dest Mine Safe im target
    pub complete :
        (x : dest.Obj × dest.World)
        → Both src dest Mine Safe x
        → (dest.put_image im target x).0 ≡ returns true
        → Parts (dest.put_image im target x).1.1
    pub lasting :
        (d : dest.Obj) (v : dest.World) → Mine d → Safe v → Parts v → Parts (dest.destroy d v)

  module _ (H : IsHonest src) (K : IsStore) where
    abbrev Whole : Run src dest → Type 0
    Whole r = Held src dest Mine Safe r × Parts r.copier.to

    asked-Held :
        (r : Run src dest)
        → Held src dest Mine Safe r
        → Held src dest Mine Safe (ask src dest (dest.fetch_image new_image_manifest im) r).1
    asked-Held r (m, (c, s)) =
        let (m', s') = K.kept.fetched (r.destination, r.copier.to) (m, s) in (m', (c, s'))

    put-Held :
        (r : Run src dest)
        → Held src dest Mine Safe r
        → Held src dest Mine Safe (ask src dest (dest.put_image im target) r).1
    put-Held r (m, (c, s)) =
        let (m', s') = K.kept.put (r.destination, r.copier.to) (m, s) in (m', (c, s'))

    copy_manifest-Held :
        (n : ℕ) (r : Run src dest)
        → Held src dest Mine Safe r
        → Held src dest Mine Safe (copy_manifest src dest n im target r).1
    unfolding copy_manifest
    copy_manifest-Held n r h =
        let asked = asked-Held r h in
        let r1 = (ask src dest (dest.fetch_image new_image_manifest im) r).1 in
        bind-keeps (Held src dest Mine Safe) (ask src dest (dest.fetch_image new_image_manifest im))
          _ r asked
          λ old.
            let copied = copy_parts-Held src dest Mine Safe im target H K.kept n old r1 asked in
            bind-keeps (Held src dest Mine Safe) (copy_parts src dest n im target old) _ r1 copied
              λ _. put-Held (copy_parts src dest n im target old r1).1 copied

    copy_manifest-Parts :
        (n : ℕ) (r : Run src dest)
        → Held src dest Mine Safe r
        → (copy_manifest src dest n im target r).0 ≡ returns true
        → Parts (copy_manifest src dest n im target r).1.copier.to
    unfolding copy_manifest
    copy_manifest-Parts n r h e =
        let asked = asked-Held r h in
        bind-result (λ (r : Run src dest). Parts r.copier.to)
          (ask src dest (dest.fetch_image new_image_manifest im)) _ r true e
          λ old e1.
            let (m, (c, s)) = copy_parts-Held src dest Mine Safe im target H K.kept n old _ asked in
            bind-result (λ (r : Run src dest). Parts r.copier.to)
              (copy_parts src dest n im target old) _ _ true e1 λ _ e2. K.complete _ (m, s) e2

    abbrev tried : ℕ → src.Obj → dest.Obj → Copier src dest → Outcome Bool × Copier src dest
    tried n s d c =
        run src dest (catch_runtime src dest false (copy_manifest src dest n im target)) s d c

    tried-Parts :
        (n : ℕ) (s : src.Obj) (d : dest.Obj) (c : Copier src dest)
        → Mine d
        → Kept src dest Mine Safe c
        → (tried n s d c).0 ≡ returns true
        → Parts (tried n s d c).1.to
    tried-Parts n s d c mine k e =
        let r : Run src dest = record { source = s; destination = d; copier = c } in
        let (m, (c', safe)) = copy_manifest-Held n r (mine, k) in
        K.lasting _ _ m safe (
          copy_manifest-Parts n r (mine, k)
            (caught-true src dest (copy_manifest src dest n im target r).0 e))

    pub copy_image-Kept :
        (n : ℕ) (c : Copier src dest)
        → Kept src dest Mine Safe c
        → Kept src dest Mine Safe (copy_image src dest n im target c).1
    unfolding copy_image
    copy_image-Kept n c k = bind-keeps (Kept src dest Mine Safe) (copy_source src dest) _ c k λ s.
        let (k', made) =
          copy_destination-Kept src dest Mine Safe im target H K.kept (copy_source src dest c).1
            k in
        bind-after (Kept src dest Mine Safe) (copy_destination src dest) _
          (copy_source src dest c).1 k'
          λ d at.
            run-Kept src dest Mine Safe im target H K.kept
              (catch_runtime src dest false (copy_manifest src dest n im target)) s d
              (copy_destination src dest (copy_source src dest c).1).1
              (λ r h. copy_manifest-Held n r h) (made d at) k'

    pub copy_image-Parts_of :
        (n : ℕ) (c : Copier src dest)
        → Kept src dest Mine Safe c
        → (copy_image src dest n im target c).0 ≡ returns true
        → Parts (copy_image src dest n im target c).1.to
    unfolding copy_image
    copy_image-Parts_of n c k e =
        bind-result (λ (c : Copier src dest). Parts c.to) (copy_source src dest) _ c true e
          λ s e1.
            let (k', made) =
              copy_destination-Kept src dest Mine Safe im target H K.kept (copy_source src dest c).1
                k in
            bind-returned (λ (c : Copier src dest). Parts c.to) (copy_destination src dest) _
              (copy_source src dest c).1 true e1
              λ d at e2.
                tried-Parts n s d (copy_destination src dest (copy_source src dest c).1).1
                  (made d at) k' e2
