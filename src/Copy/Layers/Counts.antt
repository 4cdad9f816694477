-- ===== src/Copy/Layers/Counts.antt =====
-- How often a digest stands among the working digests, the downloads and the claims.
use oci_tool.Prelude.{
  ℕ, ◌+◌, ◌<◌, ◌≡◌, refl, false, not, List, [], ◌∷◌, ◌++◌, Text, text_eq, text_beq_iff, ◌==◌,
  if◌then◌else◌, arith,
}
use oci_tool.Copy.Layers.{mem, Phase, seeking, scanning, chosen, Loop, claim, release}

abbrev pub occurs : Text → Text → ℕ
occurs a d = if d == a then 1 else 0

abbrev pub count : Text → List Text → ℕ
count a [] = 0
count a (x ∷ xs) = occurs a x + count a xs

abbrev pub claimed_by : Text → Phase → ℕ
claimed_by a (chosen c before d after) = if c then occurs a d else 0
claimed_by a seeking = 0
claimed_by a (scanning before after) = 0

abbrev pub claims : Text → List Loop → ℕ
claims a [] = 0
claims a (l ∷ ls) = claimed_by a l.phase + claims a ls

pub count-append : (a : Text) (xs ys : List Text) → count a (xs ++ ys) ≡ count a xs + count a ys
count-append a [] ys = omega arith
count-append a (x ∷ xs) ys = omega (arith, count-append a xs ys)

pub claims-append : (a : Text) (ls ks : List Loop) → claims a (ls ++ ks) ≡ claims a ls + claims a ks
claims-append a [] ks = omega arith
claims-append a (l ∷ ls) ks = omega (arith, claims-append a ls ks)

pub count-middle :
    (a d : Text) (xs ys : List Text) → count a (xs ++ d ∷ ys) ≡ occurs a d + count a (xs ++ ys)
count-middle a d xs ys = omega (arith, count-append a xs (d ∷ ys), count-append a xs ys)

pub count_free : (d : Text) (xs : List Text) → mem d xs ≡ false → count d xs ≡ 0
count_free d [] e = refl
count_free d (x ∷ xs) e = ground (arith, count_free d xs)

pub count-release :
    (a d : Text) (xs : List Text)
    → 0 < count d xs
    → count a (release d xs) + occurs a d ≡ count a xs
unfolding release
count-release a d [] h = absurd (omega arith)
count-release a d (x ∷ xs) h =
    ground (arith, count-release a d xs, text_beq_iff x d, text_beq_iff x a, text_beq_iff d a)

pub count-claim :
    (a d : Text) (blobs working : List Text)
    → count a (claim blobs d working)
      ≡ count a working + claimed_by a (chosen (not (mem d blobs)) [] d [])
unfolding claim
count-claim a d blobs working = ground (arith, count-append a working (d ∷ []))
