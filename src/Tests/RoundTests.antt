-- ===== src/Tests/RoundTests.antt =====
-- The loop over layers between two trees.
use oci_tool.Prelude.{
  ◌≡◌, ◌≢◌, ◌⊎◌, ◌∙◌, refl, sym, subst, Outcome, returns, throws, Bool, inl, inr, true, [], ◌∷◌,
  Text, codes, text_beq, diverges, arith,
}
use oci_tool.Prelude.Dict.{lookup, insert, erase}
use oci_tool.Json.Tree.{tree_json}
use oci_tool.Json.Codec.{tree_stream}
use oci_tool.Filesystem.{
  file, directory, exists, is_directory, create_directories, append_file, copy_file, remove_file,
  can_write,
}
use oci_tool.Filesystem.Paths.{join, stem, parent_path, ancestors}
use oci_tool.Schema2.{new_image_manifest, new_layer}
use oci_tool.Dir.{Dir, gen_uuid, validate_file}
use oci_tool.Dir.Blobs.{fetch_blob, image_dir, make_image_dir, put_blob, has_blob, read_loop}
use oci_tool.Dir.Lifecycle.{copy_of, destroy}
use oci_tool.Dir.Listing.{Site}
use oci_tool.Dir.AsClient.Missing.{
  has_at, dir_client-IsPlain, Same, missing-Fails, layers_loop-missing,
}
use oci_tool.Copy.Images.{layers_loop}
use oci_tool.Copy.Images.Rounds.{
  calm, loaded, Delivers, Ends, layers_loop-Ends, source_after, dest_after, layers_loop-diverges,
}
use oci_tool.Tests.TreeTests.{hex, image, layer, site, trees, copier}

-- Two trees that have no blob, and a loop that has the members for its local copies.
layers_loop-missing_example :
    (layers_loop trees trees 9 image (codes "x") (layer ∷ []) (
      calm trees trees copier.source copier.destination copier.source copier.destination
        (site [])
        copier.to)).0
    ≡ diverges
unfolding codes new_layer has_blob exists lookup join stem text_beq
layers_loop-missing_example =
    layers_loop-missing hex tree_json tree_stream image (codes "x") copier.source copier.source
      copier.destination copier.destination (site []) copier.to 9 layer [] refl refl refl

layers_loop-diverges_example :
    (layers_loop trees trees 9 image (codes "x") (layer ∷ []) (
      calm trees trees copier.source copier.destination copier.source copier.destination
        (site [])
        copier.to)).0
    ≡ diverges
unfolding codes new_layer has_blob exists lookup join stem text_beq
layers_loop-diverges_example =
    layers_loop-diverges trees trees copy_of copy_of (has_at hex tree_json tree_stream) image
      (codes "x") (dir_client-IsPlain hex tree_json tree_stream image (codes "x")) copier.source
      copier.source copier.destination copier.destination
      (Same hex tree_json tree_stream image (codes "x") copier.source copier.source
        copier.destination copier.destination (site []) copier.to)
      9 layer [] (site []) copier.to
      (missing-Fails hex tree_json tree_stream image (codes "x") copier.source copier.source
        copier.destination copier.destination (site []) copier.to layer refl refl)
      (refl, refl) refl

abbrev d : Dir
d = copier.destination

abbrev arrived : Site → Site → Site
arrived w v =
    dest_after trees trees copy_of copy_of (has_at hex tree_json tree_stream) image (codes "x")
      (dir_client-IsPlain hex tree_json tree_stream image (codes "x")) copier.source copier.source d
      d layer w v

-- The tree under /t when it has the blob.
abbrev filled : Site
filled = record (copier.to) {
  disk = record (copier.to.disk) {
    nodes =
        (codes "/t", directory)
        ∷ (codes "/t/blobs", directory)
        ∷ (codes "/t/temp", directory)
        ∷ (codes "/t/o", directory)
        ∷ (codes "/t/o/n:t", directory)
        ∷ (codes "/t/o/n:t/x", directory)
        ∷ (codes "/t/blobs/sha256:bcde", file (codes "abcd"))
        ∷ [];
    draws = [];
  };
}

arrives_first : arrived copier.from copier.to ≡ filled
unfolding exists lookup text_beq codes join stem new_image_manifest copy_of has_blob fetch_blob
    put_blob make_image_dir image_dir create_directories ancestors read_loop gen_uuid validate_file
    parent_path append_file can_write copy_file is_directory remove_file erase insert new_layer
    destroy
arrives_first = refl

arrives_again : arrived copier.from filled ≡ filled
unfolding exists lookup text_beq codes join stem new_image_manifest copy_of has_blob fetch_blob
    put_blob make_image_dir image_dir create_directories ancestors read_loop gen_uuid validate_file
    parent_path append_file can_write copy_file is_directory remove_file erase insert new_layer
    destroy
arrives_again = refl

stays :
    (sha : Text)
    → has_at hex tree_json tree_stream d copier.to sha ≡ true
    → has_at hex tree_json tree_stream d filled sha ≡ true
unfolding exists lookup has_blob
stays sha h = ground (arith, h)

abbrev left : Site → Site → Site
left w v =
    source_after trees trees copy_of copy_of (has_at hex tree_json tree_stream) image (codes "x")
      (dir_client-IsPlain hex tree_json tree_stream image (codes "x")) copier.source copier.source d
      d layer w v

left_first : left copier.from copier.to ≡ copier.from
unfolding exists lookup text_beq codes join stem new_image_manifest copy_of has_blob fetch_blob
    put_blob make_image_dir image_dir create_directories ancestors read_loop gen_uuid validate_file
    parent_path append_file can_write copy_file is_directory remove_file erase insert new_layer
    destroy
left_first = refl

left_again : left copier.from filled ≡ copier.from
unfolding exists lookup text_beq codes join stem new_image_manifest copy_of has_blob fetch_blob
    put_blob make_image_dir image_dir create_directories ancestors read_loop gen_uuid validate_file
    parent_path append_file can_write copy_file is_directory remove_file erase insert new_layer
    destroy
left_again = refl

abbrev result : Site → Site → Outcome Bool
result w v =
    (loaded trees trees copy_of copy_of (has_at hex tree_json tree_stream) image (codes "x")
      (dir_client-IsPlain hex tree_json tree_stream image (codes "x")) copier.source copier.source d
      d layer w v).0

result_first : result copier.from copier.to ≡ returns true
unfolding exists lookup text_beq codes join stem new_image_manifest copy_of has_blob fetch_blob
    put_blob make_image_dir image_dir create_directories ancestors read_loop gen_uuid validate_file
    parent_path append_file can_write copy_file is_directory remove_file erase insert new_layer
    destroy
result_first = refl

result_again : result copier.from filled ≡ returns true
unfolding exists lookup text_beq codes join stem new_image_manifest copy_of has_blob fetch_blob
    put_blob make_image_dir image_dir create_directories ancestors read_loop gen_uuid validate_file
    parent_path append_file can_write copy_file is_directory remove_file erase insert new_layer
    destroy
result_again = refl

abbrev Worlds : Site → Site → Type 0
Worlds w v = (w ≡ copier.from) × ((v ≡ copier.to) ⊎ (v ≡ filled))

on_worlds :
    (Q : Site → Site → Type 0)
    → Q copier.from copier.to
    → Q copier.from filled
    → (w v : Site) → Worlds w v
    → Q w v
on_worlds Q a b w v (e, inl f) = subst (λ x. Q x v) (sym e) (subst (λ y. Q copier.from y) (sym f) a)
on_worlds Q a b w v (e, inr f) = subst (λ x. Q x v) (sym e) (subst (λ y. Q copier.from y) (sym f) b)

there : has_at hex tree_json tree_stream d filled layer.digest ≡ true
unfolding exists lookup has_blob text_beq codes join stem new_layer
there = refl

unfoldable Ended : Outcome Bool → Type 0
Ended (returns b) = Unit
Ended (throws e) = Unit
Ended diverges = ⊥

returns-ends : (o : Outcome Bool) → o ≡ returns true → o ≢ diverges
unfolding Ended
returns-ends o e h = subst Ended (sym e ∙ h) tt

-- The first download brings the layer, a second one finds it there.
delivered :
    Delivers trees trees copy_of copy_of
      (has_at hex tree_json tree_stream)
      image
      (codes "x")
      (dir_client-IsPlain hex tree_json tree_stream image (codes "x"))
      copier.source
      copier.source
      d
      d
      Worlds
      layer
delivered = record {
  ends =
      on_worlds (λ w v. result w v ≢ diverges)
        (returns-ends (result copier.from copier.to) result_first)
        (returns-ends (result copier.from filled) result_again);
  holds =
      on_worlds (λ w v. Worlds (left w v) (arrived w v)) (left_first, inr arrives_first)
        (left_again, inr arrives_again);
  arrives =
      on_worlds (λ w v. has_at hex tree_json tree_stream d (arrived w v) layer.digest ≡ true)
        (subst (λ v. has_at hex tree_json tree_stream d v layer.digest ≡ true) (sym arrives_first)
          there)
        (subst (λ v. has_at hex tree_json tree_stream d v layer.digest ≡ true) (sym arrives_again)
          there);
  stays = λ w v sha h.
      on_worlds
        (λ w v.
          has_at hex tree_json tree_stream d v sha ≡ true
          → has_at hex tree_json tree_stream d (arrived w v) sha ≡ true)
        (λ had.
          subst (λ v. has_at hex tree_json tree_stream d v sha ≡ true) (sym arrives_first)
            (stays sha had))
        (λ had.
          subst (λ v. has_at hex tree_json tree_stream d v sha ≡ true) (sym arrives_again) had)
        w v h;
}

layers_loop-Ends_example :
    Ends trees trees copy_of copy_of
      (has_at hex tree_json tree_stream)
      image
      (codes "x")
      (dir_client-IsPlain hex tree_json tree_stream image (codes "x"))
      copier.source
      copier.source
      d
      d
      Worlds
      (layer ∷ [])
      copier.to
      (layers_loop trees trees 3 image
        (codes "x")
        (layer ∷ [])
        (calm trees trees copier.source d copier.source d copier.from copier.to))
unfolding codes new_layer
layers_loop-Ends_example =
    layers_loop-Ends trees trees copy_of copy_of (has_at hex tree_json tree_stream) image
      (codes "x") (dir_client-IsPlain hex tree_json tree_stream image (codes "x")) copier.source
      copier.source d d Worlds 3 (layer ∷ []) copier.from copier.to (delivered, tt) (refl, inl refl)
      (refl, tt) (omega arith)
