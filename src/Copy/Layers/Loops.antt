-- ===== src/Copy/Layers/Loops.antt =====
-- What the loops over layers keep, each by itself: src/lib/OCI/Copy.cpp.
use oci_tool.Prelude.{
  ◌≡◌, sym, ap, Bool, true, not, ◌||◌, List, [], ◌∷◌, ◌++◌, map, Text, text_eq, text_beq_iff, ◌==◌,
  All, arith, subst,
}
use oci_tool.Copy.Layers.{mem, Phase, seeking, scanning, chosen, Loop, waiting}
use oci_tool.Copy.Layers.Counts.{claimed_by, claims}

-- What was chosen is there, and was claimed exactly if the destination lacks it.
abbrev pub PhaseOk : List Text → List Text → Phase → Type 0
PhaseOk blobs layers seeking = Unit
PhaseOk blobs layers (scanning before after) = layers ≡ before ++ after
PhaseOk blobs layers (chosen claimed before d after) =
    (layers ≡ before ++ d ∷ after) × (claimed ≡ not (mem d blobs))

-- A wanted layer is left, or the destination has it.
abbrev pub LoopOk : List Text → Loop → Type 0
LoopOk blobs l =
    All (λ x. (mem x l.layers || mem x blobs) ≡ true) l.wanted × PhaseOk blobs l.layers l.phase

pub All-middle : {A : Type 0} (P : A → Type 0) (p q : List A) (l : A) → All P (p ++ l ∷ q) → P l
All-middle P [] q l h = h.0
All-middle P (x ∷ p) q l h = All-middle P p q l h.1

pub All-replace :
    {A : Type 0} (P : A → Type 0) (p q : List A) (l k : A)
    → All P (p ++ l ∷ q)
    → P k
    → All P (p ++ k ∷ q)
All-replace P [] q l k h new = (new, h.1)
All-replace P (x ∷ p) q l k h new = (h.0, All-replace P p q l k h.1 new)

pub All-imp :
    {A : Type 0} (P Q : A → Type 0) (xs : List A) → ((x : A) → P x → Q x) → All P xs → All Q xs
All-imp P Q [] f h = tt
All-imp P Q (x ∷ xs) f h = (f x h.0, All-imp P Q xs f h.1)

All-mem_self : (xs : List Text) → All (λ x. mem x xs ≡ true) xs
All-mem_self [] = tt
All-mem_self (x ∷ xs) =
    (ground (arith, text_beq_iff x x), All-imp _ _ xs (λ y m. ground (arith, m)) (All-mem_self xs))

-- Without the layer in the middle, only its digest can be missing.
mem-middle :
    (x d : Text) (before after : List Text)
    → mem x (before ++ d ∷ after) ≡ true
    → (mem x (before ++ after) || d == x) ≡ true
mem-middle x d [] after e = ground arith
mem-middle x d (b ∷ before) after e = ground (arith, mem-middle x d before after)

mem-eq : (d x : Text) (bs : List Text) → (d == x) ≡ true → mem x bs ≡ mem d bs
mem-eq d x bs e = ap (λ y. mem y bs) (sym ((text_beq_iff d x).0 e))

pub map-waiting-LoopOk :
    (blobs : List Text) (images : List (List Text)) → All (LoopOk blobs) (map waiting images)
map-waiting-LoopOk blobs [] = tt
map-waiting-LoopOk blobs (ls ∷ images) = (
  (All-imp _ _ ls (λ x m. ground (arith, m)) (All-mem_self ls), tt),
  map-waiting-LoopOk blobs images,
)

-- The chosen layer of a loop.
pub chosen_ok :
    (blobs : List Text) (l : Loop) (claimed : Bool) (before after : List Text) (d : Text)
    → LoopOk blobs l
    → l.phase ≡ chosen claimed before d after
    → (l.layers ≡ before ++ d ∷ after) × (claimed ≡ not (mem d blobs))
chosen_ok blobs l claimed before after d ok at = subst (PhaseOk blobs l.layers) at ok.1

pub drop_wanted :
    (blobs before after wanted : List Text) (d : Text) (ls : List Text)
    → ls ≡ before ++ d ∷ after
    → mem d blobs ≡ true
    → All (λ x. (mem x ls || mem x blobs) ≡ true) wanted
    → All (λ x. (mem x (before ++ after) || mem x blobs) ≡ true) wanted
drop_wanted blobs before after wanted d ls e there =
    All-imp _ _ wanted
      λ x m. ground (arith, m, mem-middle x d before after, mem-eq d x blobs, ap (mem x) e)

-- A blob is delivered that no loop has claimed.
pub deliver_loops :
    (d : Text) (blobs : List Text) (ls : List Loop)
    → claims d ls ≡ 0
    → All (LoopOk blobs) ls
    → All (LoopOk (d ∷ blobs)) ls
deliver_loops d blobs [] unclaimed ok = tt
deliver_loops d blobs (l ∷ ls) unclaimed (ok, oks) = (
  (
    All-imp _ _ l.wanted (λ x m. ground (arith, m)) ok.0,
    deliver_phase l.layers l.phase (omega arith) ok.1,
  ),
  deliver_loops d blobs ls (omega arith) oks,
)
  where
    deliver_phase :
        (layers : List Text) (ph : Phase)
        → claimed_by d ph ≡ 0
        → PhaseOk blobs layers ph
        → PhaseOk (d ∷ blobs) layers ph
    deliver_phase layers seeking free ok = tt
    deliver_phase layers (scanning before after) free ok = ok
    deliver_phase layers (chosen c before x after) free ok =
        (ok.0, ground (arith, ok.1, text_beq_iff d x, text_beq_iff x d))
