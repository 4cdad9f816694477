-- ===== src/Dir/AsClient/Missing.antt =====
-- The copy of an image between two directory trees, the first of which lacks a layer.
use oci_tool.Prelude.{
  ℕ, text_beq, sym, subst, ◌≢◌, Exec, ◌≡◌, refl, ap, ◌∙◌, Bool, true, false, none, List, ◌∷◌, Text,
  codes, length, ltb, returns, diverges,
}
use oci_tool.Prelude.Dict.{lookup}
use oci_tool.Json.{JsonLib}
use oci_tool.Json.Stream.{Stream}
use oci_tool.Filesystem.Paths.{join}
use oci_tool.Schema2.{ImageManifest, Layer}
use oci_tool.Dir.{Dir}
use oci_tool.Dir.Blobs.{has_blob, fetch_blob}
use oci_tool.Dir.Lifecycle.{copy_of, destroy}
use oci_tool.Dir.Listing.{Site}
use oci_tool.Dir.AsClient.{dir_client}
use oci_tool.Copy.Images.{layers_loop}
use oci_tool.Copy.Images.Rounds.{IsPlain, Fails, fetching, calm, layers_loop-diverges}

module _ (sha256_hex : List ℕ → Text) (J : JsonLib) (S : Stream J) where
  abbrev pub has_at : Dir → Site → Text → Bool
  has_at d v sha = has_blob sha (record { dir = d; disk = v.disk })

  -- Copies and questions of a tree change nothing.
  pub dir_client-IsPlain :
      (im : ImageManifest) (target : Text)
      → IsPlain
          (dir_client sha256_hex J S)
          (dir_client sha256_hex J S)
          copy_of
          copy_of
          has_at
          im
          target
  dir_client-IsPlain im target = record {
    source_copy = λ s w. refl;
    dest_copy = λ d v. refl;
    answers = λ sha d v. refl;
  }

  -- A download of a blob that is not there ends without a part.
  fetch_missing :
      {T : Type 0} (s0 : Dir) (x : Site) (sha : Text) (call_back : List ℕ → Exec T Bool) (y : T)
      → lookup (join (join s0.tree_root (codes "blobs")) sha) x.disk.nodes ≡ none
      → fetch_blob (copy_of s0) x.disk sha call_back y ≡ (returns true, y)
  unfolding fetch_blob copy_of
  fetch_missing s0 x sha call_back y gone = rw (gone, fetch_blob) refl

  module _ (im : ImageManifest) (target : Text) (s s0 d d0 : Dir) (w v : Site) where
    abbrev pub Same : Site → Site → Type 0
    Same x y = (x ≡ w) × (y ≡ v)

    absent :
        (l : Layer) (x : Site)
        → x ≡ w
        → lookup (join (join s0.tree_root (codes "blobs")) l.digest) w.disk.nodes ≡ none
        → lookup (join (join s0.tree_root (codes "blobs")) l.digest) x.disk.nodes ≡ none
    absent l x e gone =
        ap (λ (z : Site). lookup (join (join s0.tree_root (codes "blobs")) l.digest) z.disk.nodes) e
        ∙ gone

    nothing_loaded :
        (l : Layer) (x y : Site)
        → x ≡ w
        → lookup (join (join s0.tree_root (codes "blobs")) l.digest) w.disk.nodes ≡ none
        → fetching
            (dir_client sha256_hex J S)
            (dir_client sha256_hex J S)
            im
            target
            l
            ((copy_of s0, x), (copy_of d0, y))
          ≡ (returns true, ((copy_of s0, x), (copy_of d0, y)))
    nothing_loaded l x y e gone =
        ap (λ r. (r.0, ((copy_of s0, x), r.1)))
          (fetch_missing s0 x l.digest
            ((dir_client sha256_hex J S).put_blob im target l.digest l.size) (copy_of d0, y)
            (absent l x e gone))

    pub missing-Fails :
        (l : Layer)
        → has_at d v l.digest ≡ false
        → lookup (join (join s0.tree_root (codes "blobs")) l.digest) w.disk.nodes ≡ none
        → Fails
            (dir_client sha256_hex J S)
            (dir_client sha256_hex J S)
            copy_of
            copy_of
            has_at
            im
            target
            (dir_client-IsPlain im target)
            s
            s0
            d
            d0
            Same
            l
    unfolding destroy copy_of text_beq
    missing-Fails l lacks gone = record {
      lacks = λ x y (e, e'). ap (λ z. has_at d z l.digest) e' ∙ lacks;
      ends = λ x y (e, e').
          subst (λ r. r.0 ≢ diverges) (sym (nothing_loaded l x y e gone)) (λ k. absurd (cc k));
      holds = λ x y (e, e').
          subst
            (λ r.
              Same ((dir_client sha256_hex J S).destroy r.1.0.0 r.1.0.1)
                ((dir_client sha256_hex J S).destroy r.1.1.0 r.1.1.1))
            (sym (nothing_loaded l x y e gone)) (e, e');
    }

    -- Take a layer with a digest of ten characters or more, whose blob neither of two directory
    -- trees has. With downloads that run where they are started, and nobody at work, no number of
    -- rounds is enough for the loop over layers of `Copy::execute` from the one into the other:
    -- the download ends at once, without a part, and is started again.
    pub layers_loop-missing :
        (n : ℕ) (l : Layer) (ls : List Layer)
        → has_at d v l.digest ≡ false
        → lookup (join (join s0.tree_root (codes "blobs")) l.digest) w.disk.nodes ≡ none
        → ltb (length l.digest) 10 ≡ false
        → (layers_loop
            (dir_client sha256_hex J S)
            (dir_client sha256_hex J S)
            n
            im
            target
            (l ∷ ls)
            (calm (dir_client sha256_hex J S) (dir_client sha256_hex J S) s d s0 d0 w v)).0
          ≡ diverges
    layers_loop-missing n l ls lacks gone long =
        layers_loop-diverges (dir_client sha256_hex J S) (dir_client sha256_hex J S) copy_of copy_of
          has_at im target (dir_client-IsPlain im target) s s0 d d0 Same n l ls w v
          (missing-Fails l lacks gone) (refl, refl) long
