-- ===== src/Copy/Images/Complete.antt =====
-- What is in the destination when the copy of an image has succeeded.
use oci_tool.Prelude.{
  ℕ, ◌≡◌, Bool, true, false, Text, Outcome, returns, throws, diverges, bind-result, arith,
}
use oci_tool.BaseClient.{BaseClient}
use oci_tool.Schema2.{ImageManifest, new_image_manifest}
use oci_tool.Copy.{Copier, Run, ask, run, copy_source, copy_destination, catch_runtime, caught}
use oci_tool.Copy.Images.{copy_parts, copy_manifest, copy_image}

module _ (src dest : BaseClient) where
  -- Where a client says that it has put a manifest, its world has the parts, and still has them when
  -- the client is gone.
  pub record IsCareful (Parts : ImageManifest → dest.World → Type 0) : Type 0 where
    pub put :
        (im : ImageManifest) (target : Text) (d : dest.Obj) (v : dest.World)
        → (dest.put_image im target (d, v)).0 ≡ returns true
        → Parts im (dest.put_image im target (d, v)).1.1
    pub kept :
        (im : ImageManifest) (d : dest.Obj) (v : dest.World)
        → Parts im v
        → Parts im (dest.destroy d v)

  pub caught-true : (o : Outcome Bool) → caught src dest false o ≡ returns true → o ≡ returns true
  caught-true (returns b) h = h
  caught-true (throws x) h = absurd (ground (arith, h))
  caught-true diverges h = h

  module _ (Parts : ImageManifest → dest.World → Type 0) (P : IsCareful Parts) where
    copy_manifest-Parts :
        (n : ℕ) (im : ImageManifest) (target : Text) (r : Run src dest)
        → (copy_manifest src dest n im target r).0 ≡ returns true
        → Parts im (copy_manifest src dest n im target r).1.copier.to
    unfolding copy_manifest
    copy_manifest-Parts n im target r e =
        bind-result (λ (r : Run src dest). Parts im r.copier.to)
          (ask src dest (dest.fetch_image new_image_manifest im)) _ r true e
          λ old e1.
            bind-result (λ (r : Run src dest). Parts im r.copier.to)
              (copy_parts src dest n im target old) _ _ true e1 λ _ e2. P.put im target _ _ e2

    abbrev tried :
        ℕ
        → ImageManifest
        → Text
        → src.Obj
        → dest.Obj
        → Copier src dest
        → Outcome Bool × Copier src dest
    tried n im target s d c =
        run src dest (catch_runtime src dest false (copy_manifest src dest n im target)) s d c

    run-Parts :
        (n : ℕ) (im : ImageManifest) (target : Text) (s : src.Obj) (d : dest.Obj)
        (c : Copier src dest)
        → (tried n im target s d c).0 ≡ returns true
        → Parts im (tried n im target s d c).1.to
    run-Parts n im target s d c e =
        P.kept im _ _ (copy_manifest-Parts n im target _ (caught-true _ e))

    -- The copy of an image that succeeds, into a careful destination.
    pub copy_image-Parts :
        (n : ℕ) (im : ImageManifest) (target : Text) (c : Copier src dest)
        → (copy_image src dest n im target c).0 ≡ returns true
        → Parts im (copy_image src dest n im target c).1.to
    unfolding copy_image
    copy_image-Parts n im target c e =
        bind-result (λ (c : Copier src dest). Parts im c.to) (copy_source src dest) _ c true e
          λ s e1.
            bind-result (λ (c : Copier src dest). Parts im c.to) (copy_destination src dest) _ _
              true e1 λ d e2. run-Parts n im target s d _ e2
