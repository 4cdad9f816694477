-- ===== src/Tests/SyncTests.antt =====
-- A source that has every blob, in one piece, one tag "t" for each repository, and the same manifest list
-- for each tag; and a destination that remembers the digests it was given.
use oci_tool.Prelude.{
  ℕ, ◌≡◌, refl, Bool, true, false, List, [], ◌∷◌, Text, text_eq, text_beq, codes, Exec, json_error,
  returns, throws, pure, throw, ◌>>=◌, all, ◌&&◌,
}
use oci_tool.BaseClient.{BaseClient}
use oci_tool.Schema2.{ImageManifest, Layer, new_image_manifest, new_layer, image_manifest_ne}
use oci_tool.Copy.{Copier}
use oci_tool.Copy.Layers.{mem, release}
use oci_tool.Copy.Images.{layers_loop, copy_image, copy_manifest, copy_parts}
use oci_tool.Copy.Lists.{copy_tag}
use oci_tool.Sync.{sync_tags}

abbrev hand_out : {S : Type 0} → List (List ℕ) → (List ℕ → Exec S Bool) → Exec S Bool
hand_out [] call_back s = pure true s
hand_out (p ∷ ps) call_back s = (call_back p >>= λ ok. hand_out ps call_back) s

-- Each download hands out the pieces.
abbrev offering : List (List ℕ) → BaseClient
offering pieces = record {
  Obj = Unit {0};
  World = Unit {0};
  copy = λ s. pure s;
  destroy = λ s w. w;
  catalog = pure (codes "r" ∷ []);
  tag_list = λ r. pure (record { name = r; tags = codes "t" ∷ [] });
  fetch_list = λ ml asked. throw json_error;
  fetch_image = λ im asked. pure im;
  fetch_legacy = λ im asked. pure im;
  fetch_blob =
      λ name sha call_back (w, s). let (o, s') = hand_out pieces call_back s in (o, (w, s'));
  has_blob = λ im t sha. pure true;
  has_legacy_blob = λ im sha. pure true;
  put_blob = λ im t sha size part. pure false;
  put_list = λ ml t. pure false;
  put_image = λ im t. pure false;
}

abbrev all_parts : ImageManifest → List Text → Bool
all_parts im v = all (λ l. mem l.digest v) im.layers && mem im.config.digest v

abbrev remembering : BaseClient
remembering = record {
  Obj = Unit {0};
  World = List Text;
  copy = λ s. pure s;
  destroy = λ s w. w;
  catalog = pure [];
  tag_list = λ r. pure (record { name = r; tags = [] });
  fetch_list = λ ml asked. pure ml;
  fetch_image = λ im asked. pure im;
  fetch_legacy = λ im asked. pure im;
  fetch_blob = λ name sha call_back. pure true;
  has_blob = λ im t sha (d, v). pure (mem sha v) (d, v);
  has_legacy_blob = λ im sha. pure true;
  put_blob = λ im t sha size part (d, v). (returns true, (d, sha ∷ v));
  put_list = λ ml t. pure true;
  put_image = λ im t (d, v). pure (all_parts im v) (d, v);
}

abbrev piece : BaseClient
piece = offering ((1 ∷ []) ∷ [])

abbrev layer : Layer
layer = record new_layer { digest = codes "sha256:abcd" }

abbrev image : ImageManifest
image = record new_image_manifest { layers = layer ∷ layer ∷ []; schema_version = 2 }

abbrev copier : Copier piece remembering
copier = record { source = tt; destination = tt; from = tt; to = []; working = [] }

copied : (copy_image piece remembering 5 image (codes "t") copier).0 ≡ returns true
unfolding copy_image copy_manifest copy_parts layers_loop codes new_image_manifest new_layer
    image_manifest_ne release text_beq
copied = refl

escapes : (copy_tag piece remembering 5 (codes "r") (codes "t") copier).0 ≡ throws json_error
unfolding copy_tag
escapes = refl

tag_escapes :
    (sync_tags piece remembering 5 (codes "r") (codes "t" ∷ []) copier).0 ≡ throws json_error
unfolding sync_tags copy_tag
tag_escapes = refl
