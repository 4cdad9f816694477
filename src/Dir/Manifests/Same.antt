-- ===== src/Dir/Manifests/Same.antt =====
-- Fetching the manifest of an image changes nothing.
use oci_tool.Prelude.{
  ◌≡◌, refl, sym, subst, Option, none, some, Text, codes, Exec, bind-keeps, ◌>>=◌, pure, arith,
}
use oci_tool.Prelude.Dict.{lookup}
use oci_tool.Json.{JsonLib}
use oci_tool.Json.Stream.{Stream}
use oci_tool.Filesystem.{contents}
use oci_tool.Schema2.{ImageManifest}
use oci_tool.Schema2.Json.{image_from_json}
use oci_tool.Dir.{Host}
use oci_tool.Dir.Manifests.{
  or_json_error, text_of, text_at, image_from_file, read_image, fetch_image, image_file_to_read,
}

module _ (J : JsonLib) (S : Stream J) where
  or_json_error_same : {A : Type 0} (o : Option A) (h : Host) → (or_json_error J S o h).1 ≡ h
  or_json_error_same none h = refl
  or_json_error_same (some a) h = refl

  text_of_same : (o : Option J.Json) (h : Host) → (text_of J S o h).1 ≡ h
  text_of_same none h = refl
  text_of_same (some j) h = or_json_error_same (J.get_text j) h

  -- A further field is read from the same host.
  pub text_at-then :
      {A : Type 0} (o : J.Obj) (k : Text) (f : Text → Exec Host A) (h : Host)
      → ((t : Text) → (f t h).1 ≡ h)
      → ((text_at J S o k >>= f) h).1 ≡ h
  text_at-then o k f h next =
      bind-keeps (λ x. x ≡ h) (text_at J S o k) f h (text_of_same (J.find o k) h)
        λ t. subst (λ x. (f t x).1 ≡ h) (sym (text_of_same (J.find o k) h)) (next t)

  image_from_file_same :
      (o : J.Obj) (im : ImageManifest) (h : Host) → (image_from_file J S o im h).1 ≡ h
  unfolding image_from_file
  image_from_file_same o im h = by_image (image_from_json J o im)
    where
      by_image :
          (new : Option ImageManifest)
          → ((do
            n ← or_json_error J S new
            origin ← text_at J S o (codes "originDomain")
            target ← text_at J S o (codes "requestedTarget")
            requested ← text_at J S o (codes "requestedDigest")
            name ← text_at J S o (codes "name")
            pure (record n {
              origin_domain = origin;
              requested_target = target;
              requested_digest = requested;
              name = name;
            }))
              h).1
            ≡ h
      by_image none = refl
      by_image (some n) = text_at-then o (codes "originDomain") _ h λ origin.
          text_at-then o (codes "requestedTarget") _ h λ target.
            text_at-then o (codes "requestedDigest") _ h
              λ requested. text_at-then o (codes "name") _ h λ name. refl

  read_image_same :
      (im : ImageManifest) (o : Option J.Json) (h : Host) → (read_image J S im o h).1 ≡ h
  unfolding read_image
  read_image_same im none h = refl
  read_image_same im (some j) h = by_object (J.get_object j)
    where
      by_object :
          (o : Option J.Obj) → ((or_json_error J S o >>= λ o. image_from_file J S o im) h).1 ≡ h
      by_object none = refl
      by_object (some o) = image_from_file_same o im h

  pub fetch_image_same : (im asked : ImageManifest) (h : Host) → (fetch_image J S im asked h).1 ≡ h
  unfolding fetch_image
  fetch_image_same im asked h = ground (
    arith,
    read_image_same im (S.read (contents (lookup (image_file_to_read h.dir asked) h.disk.nodes))) h,
  )
