-- ===== src/Copy/Images/Rounds.antt =====
-- How many rounds the loop over layers takes, with a source that delivers and with one that does not.
use oci_tool.Prelude.{
  ℕ, zero, suc, ◌*◌, ◌<◌, ◌≡◌, ◌≢◌, refl, sym, ap, subst, ◌∙◌, Bool, true, false, List, [], ◌∷◌,
  Text, text_eq, text_beq_iff, length, ltb, All, Outcome, returns, throws, diverges, Bool-cases,
  inl, inr, arith,
}
use oci_tool.BaseClient.{BaseClient}
use oci_tool.Schema2.{ImageManifest, Layer}
use oci_tool.Copy.{Run}
use oci_tool.Copy.Layers.{release}
use oci_tool.Copy.Images.{
  take_layer, find_free, transfer_blob, fetch_layer, download, next_round, one_round, layers_loop,
  claim_layer, swallowed,
}

release_self : (d : Text) → release d (d ∷ []) ≡ []
unfolding release
release_self d = ground (arith, text_beq_iff d d)

module _ (src dest : BaseClient) where
  -- Copies can be made without a change of the world, and `hasBlob` only looks.
  pub record IsPlain (cs : src.Obj → src.Obj) (cd : dest.Obj → dest.Obj)
      (has : dest.Obj → dest.World → Text → Bool) (im : ImageManifest) (target : Text)
      : Type 0 where
    pub source_copy : (s : src.Obj) (w : src.World) → src.copy s w ≡ (returns (cs s), w)
    pub dest_copy : (d : dest.Obj) (v : dest.World) → dest.copy d v ≡ (returns (cd d), v)
    pub answers :
        (sha : Text) (d : dest.Obj) (v : dest.World)
        → dest.has_blob im target sha (d, v) ≡ (returns (has d v sha), (d, v))

  swallowed-ends : (o : Outcome Bool) → o ≢ diverges → swallowed src dest o ≡ returns tt
  swallowed-ends (returns b) h = refl
  swallowed-ends (throws e) h = refl
  swallowed-ends diverges h = absurd (h refl)

  -- A run in which nobody works on a digest.
  abbrev pub calm : src.Obj → dest.Obj → src.Obj → dest.Obj → src.World → dest.World → Run src dest
  calm s d s0 d0 w v = record {
    source = s;
    destination = d;
    copier = record { source = s0; destination = d0; from = w; to = v; working = [] };
  }

  abbrev pub fetching :
      ImageManifest
      → Text
      → Layer
      → (src.Obj × src.World) × (dest.Obj × dest.World)
      → Outcome Bool × ((src.Obj × src.World) × (dest.Obj × dest.World))
  fetching im target l = src.fetch_blob im.name l.digest (dest.put_blob im target l.digest l.size)

  module _ (cs : src.Obj → src.Obj) (cd : dest.Obj → dest.Obj)
      (has : dest.Obj → dest.World → Text → Bool) (im : ImageManifest) (target : Text)
      (P : IsPlain cs cd has im target) (s s0 : src.Obj) (d d0 : dest.Obj) where
    -- A download with copies of the members, and the worlds when the copies are gone.
    abbrev pub loaded :
        Layer
        → src.World
        → dest.World
        → Outcome Bool × ((src.Obj × src.World) × (dest.Obj × dest.World))
    loaded l w v = fetching im target l ((cs s0, w), (cd d0, v))

    abbrev pub source_after : Layer → src.World → dest.World → src.World
    source_after l w v = src.destroy (loaded l w v).1.0.0 (loaded l w v).1.0.1

    abbrev pub dest_after : Layer → src.World → dest.World → dest.World
    dest_after l w v = dest.destroy (loaded l w v).1.1.0 (loaded l w v).1.1.1

    layers_loop_present :
        (n : ℕ) (l : Layer) (ls : List Layer) (w : src.World) (v : dest.World)
        → has d v l.digest ≡ true
        → layers_loop src dest (suc n) im target (l ∷ ls) (calm s d s0 d0 w v)
          ≡ layers_loop src dest n im target ls (calm s d s0 d0 w v)
    unfolding layers_loop one_round find_free take_layer next_round
    layers_loop_present n l ls w v there = simp (P.answers, there)

    layers_loop_absent :
        (n : ℕ) (l : Layer) (ls : List Layer) (w : src.World) (v : dest.World)
        → has d v l.digest ≡ false
        → ltb (length l.digest) 10 ≡ false
        → (loaded l w v).0 ≢ diverges
        → layers_loop src dest (suc n) im target (l ∷ ls) (calm s d s0 d0 w v)
          ≡ layers_loop src dest n im target
              (l ∷ ls)
              (calm s d s0 d0 (source_after l w v) (dest_after l w v))
    unfolding layers_loop one_round find_free take_layer next_round claim_layer download fetch_layer
        transfer_blob
    layers_loop_absent n l ls w v lacks long ends =
        simp
          (P.answers, lacks, long, P.source_copy, P.dest_copy, release_self, swallowed-ends _ ends)

    module _ (W : src.World → dest.World → Type 0) where
      -- In the worlds of W the download of `l` ends in W again, the destination has the blob then,
      -- and what it had it keeps.
      pub record Delivers (l : Layer) : Type 0 where
        pub ends : (w : src.World) (v : dest.World) → W w v → (loaded l w v).0 ≢ diverges
        pub holds :
            (w : src.World) (v : dest.World) → W w v → W (source_after l w v) (dest_after l w v)
        pub arrives :
            (w : src.World) (v : dest.World) → W w v → has d (dest_after l w v) l.digest ≡ true
        pub stays :
            (w : src.World) (v : dest.World) (sha : Text)
            → W w v
            → has d v sha ≡ true
            → has d (dest_after l w v) sha ≡ true

      -- How the loop over layers should end, in a world of the destination that has what it had.
      abbrev pub Ends : List Layer → dest.World → Outcome (Unit {0}) × Run src dest → Type 0
      Ends ls v x =
          (x.0 ≡ returns tt)
          × All (λ l. has d x.1.copier.to l.digest ≡ true) ls
          × ((sha : Text) → has d v sha ≡ true → has d x.1.copier.to sha ≡ true)

      Ends-cons :
          (l : Layer) (ls : List Layer) (v v' : dest.World) (x : Outcome (Unit {0}) × Run src dest)
          → has d v' l.digest ≡ true
          → ((sha : Text) → has d v sha ≡ true → has d v' sha ≡ true)
          → Ends ls v' x
          → Ends (l ∷ ls) v x
      Ends-cons l ls v v' x here keeps (o, rest, kept) =
          (o, (kept l.digest here, rest), λ sha h. kept sha (keeps sha h))

      -- With downloads that run where they are started, clients that can be copied without a
      -- change of the world, a `hasBlob` that only looks, digests of ten characters or more, and
      -- nobody at work: if there is a set of worlds in which the download of each layer ends in
      -- the set again, the destination has the layer then, and keeps what it had, then more than
      -- two rounds for each layer are enough for the loop over layers. It then returns, the
      -- destination has each layer, and has still what it had.
      pub layers_loop-Ends :
          (n : ℕ) (ls : List Layer) (w : src.World) (v : dest.World)
          → All Delivers ls
          → W w v
          → All (λ l. ltb (length l.digest) 10 ≡ false) ls
          → 2 * length ls < n
          → Ends ls v (layers_loop src dest n im target ls (calm s d s0 d0 w v))
      unfolding layers_loop one_round
      layers_loop-Ends zero ls w v D h long room = absurd (omega arith)
      layers_loop-Ends (suc n) [] w v D h long room = (refl, tt, λ sha h. h)
      layers_loop-Ends (suc zero) (l ∷ ls) w v D h long room = absurd (omega arith)
      layers_loop-Ends (suc (suc n)) (l ∷ ls) w v (D, Ds) h (long, longs) room =
          elim (Bool-cases (has d v l.digest)) [
            | inl there ↦
                subst (Ends (l ∷ ls) v) (sym (layers_loop_present (suc n) l ls w v there)) (
                  Ends-cons l ls v v
                    (layers_loop src dest (suc n) im target ls (calm s d s0 d0 w v)) there
                    (λ sha h. h) (layers_loop-Ends (suc n) ls w v Ds h longs (omega arith)))
            | inr lacks ↦
                let w' = source_after l w v in
                let v' = dest_after l w v in
                let here = D.arrives w v h in
                subst (Ends (l ∷ ls) v)
                  (sym (
                    layers_loop_absent (suc n) l ls w v lacks long (D.ends w v h)
                    ∙ layers_loop_present n l ls w' v' here))
                  (Ends-cons l ls v v' (layers_loop src dest n im target ls (calm s d s0 d0 w' v'))
                    here (λ sha had. D.stays w v sha h had)
                    (layers_loop-Ends n ls w' v' Ds (D.holds w v h) longs (omega arith)))
          ]

      -- In the worlds of W the destination lacks `l`, and its download ends in W again.
      pub record Fails (l : Layer) : Type 0 where
        pub lacks : (w : src.World) (v : dest.World) → W w v → has d v l.digest ≡ false
        pub ends : (w : src.World) (v : dest.World) → W w v → (loaded l w v).0 ≢ diverges
        pub holds :
            (w : src.World) (v : dest.World) → W w v → W (source_after l w v) (dest_after l w v)

      -- With downloads that run where they are started, clients that can be copied without a
      -- change of the world, a `hasBlob` that only looks, a first layer with a digest of ten
      -- characters or more, and nobody at work: if there is a set of worlds in which the
      -- destination lacks that layer, and its download ends in the set again, then no number of
      -- rounds is enough for the loop over layers.
      pub layers_loop-diverges :
          (n : ℕ) (l : Layer) (ls : List Layer) (w : src.World) (v : dest.World)
          → Fails l
          → W w v
          → ltb (length l.digest) 10 ≡ false
          → (layers_loop src dest n im target (l ∷ ls) (calm s d s0 d0 w v)).0 ≡ diverges
      unfolding layers_loop
      layers_loop-diverges zero l ls w v F h long = refl
      layers_loop-diverges (suc n) l ls w v F h long =
          ap (λ o. o.0) (layers_loop_absent n l ls w v (F.lacks w v h) long (F.ends w v h))
          ∙ layers_loop-diverges n l ls (source_after l w v) (dest_after l w v) F (F.holds w v h)
              long
