-- ===== src/Copy/Layers/Single.antt =====
-- A digest is downloaded once at a time, and a loop that ends has all its layers.
use oci_tool.Prelude.{
  append_assoc, sym, ◌+◌, ◌≤◌, ◌<◌, ◌≡◌, refl, ap, Bool, true, false, not, List, [], ◌∷◌, ◌++◌, map,
  Text, text_eq, text_beq_iff, if◌then◌else◌, All, arith, ◌∙◌, subst,
}
use oci_tool.Copy.Layers.{
  scan, pass_over, give_up, scanning, Phase, mem, seeking, chosen, Loop, Copying, claim, waiting,
  start, Step, pick, drop, spawn, deliver, finish, Reach, here, next,
}
use oci_tool.Copy.Layers.Counts.{
  occurs, count, claimed_by, claims, claims-append, count-middle, count_free, count-release,
  count-claim,
}
use oci_tool.Copy.Layers.Loops.{
  PhaseOk, LoopOk, All-middle, All-replace, All-imp, map-waiting-LoopOk, chosen_ok, drop_wanted,
  deliver_loops,
}

pub record Inv (s : Copying) : Type 0 where
  pub counted : (a : Text) → count a s.working ≡ count a s.jobs + claims a s.loops
  pub single : (a : Text) → count a s.working ≤ 1
  pub loops_ok : All (LoopOk s.blobs) s.loops

claims-replace :
    (a : Text) (p q : List Loop) (l k : Loop)
    → claims a (p ++ k ∷ q) + claimed_by a l.phase ≡ claims a (p ++ l ∷ q) + claimed_by a k.phase
claims-replace a p q l k = omega (arith, claims-append a p (k ∷ q), claims-append a p (l ∷ q))

claims-waiting : (a : Text) (images : List (List Text)) → claims a (map waiting images) ≡ 0
claims-waiting a [] = refl
claims-waiting a (ls ∷ images) = omega (arith, claims-waiting a images)

start-Inv : (blobs : List Text) (images : List (List Text)) → Inv (start blobs images)
start-Inv blobs images = record {
  counted = λ a. omega (arith, claims-waiting a images);
  single = λ a. omega arith;
  loops_ok = map-waiting-LoopOk blobs images;
}

pick_single :
    (a d : Text) (blobs working : List Text)
    → mem d working ≡ false
    → count a working ≤ 1
    → count a (claim blobs d working) ≤ 1
pick_single a d blobs working free h =
    ground (arith, count-claim a d blobs working, count_free d working free, text_beq_iff d a)

claimed_by_kept :
    (a : Text) (l : Loop) (claimed : Bool) (before after : List Text) (d : Text) (blobs : List Text)
    → l.phase ≡ chosen claimed before d after
    → claimed ≡ not (mem d blobs)
    → claimed_by a l.phase ≡ (if mem d blobs then 0 else occurs a d)
claimed_by_kept a l claimed before after d blobs at honest =
    ap (claimed_by a) at ∙ ground (arith, honest)

occurs_self : (d : Text) → occurs d d ≡ 1
occurs_self d = ground (arith, text_beq_iff d d)

split-count :
    (a d : Text) (xs before after : List Text)
    → xs ≡ before ++ d ∷ after
    → count a xs ≡ occurs a d + count a (before ++ after)
split-count a d xs before after e = ap (count a) e ∙ count-middle a d before after

-- A download's digest is among the working ones, and no loop has claimed it.
job_working :
    (s : Copying) (before after : List Text) (d : Text)
    → s.jobs ≡ before ++ d ∷ after
    → Inv s
    → (0 < count d s.working) × (claims d s.loops ≡ 0)
job_working s before after d e v =
    omega (arith, v.counted d, v.single d, split-count d d s.jobs before after e, occurs_self d)

-- A loop that goes on in its search.
moved-Inv :
    (s : Copying) (p q : List Loop) (l : Loop) (ph : Phase)
    → s.loops ≡ p ++ l ∷ q
    → ((a : Text) → claimed_by a l.phase ≡ 0)
    → ((a : Text) → claimed_by a ph ≡ 0)
    → (PhaseOk s.blobs l.layers l.phase → PhaseOk s.blobs l.layers ph)
    → Inv s
    → Inv (record s { loops = p ++ record l { phase = ph } ∷ q })
moved-Inv s p q l ph e free free' goes v =
    let oks = subst (All (LoopOk s.blobs)) e v.loops_ok in
    let ok = All-middle (LoopOk s.blobs) p q l oks in
    record {
      counted = λ a. omega (
        arith,
        v.counted a,
        claims-replace a p q l (record l { phase = ph }),
        ap (claims a) e,
        free a,
        free' a,
      );
      single = v.single;
      loops_ok = All-replace (LoopOk s.blobs) p q l (record l { phase = ph }) oks (ok.0, goes ok.1);
    }

-- The layers of a loop that searches.
scanned :
    (blobs : List Text) (l : Loop) (before after : List Text)
    → l.phase ≡ scanning before after
    → PhaseOk blobs l.layers l.phase
    → l.layers ≡ before ++ after
scanned blobs l before after at ok = subst (PhaseOk blobs l.layers) at ok

Step-Inv : {s t : Copying} → Step s t → Inv s → Inv t
Step-Inv (scan s p q l e at) v =
    moved-Inv s p q l (scanning [] l.layers) e (λ a. ap (claimed_by a) at) (λ a. refl) (λ ok. refl)
      v
Step-Inv (pass_over s p q l before after d e at busy) v =
    moved-Inv s p q l (scanning (before ++ d ∷ []) after) e (λ a. ap (claimed_by a) at) (λ a. refl)
      (λ ok. scanned s.blobs l before (d ∷ after) at ok ∙ sym (append_assoc before (d ∷ []) after))
      v
Step-Inv (give_up s p q l before e at) v =
    moved-Inv s p q l seeking e (λ a. ap (claimed_by a) at) (λ a. refl) (λ ok. tt) v
Step-Inv (pick s p q l before after d e at free) v =
    let k : Loop = record l { phase = chosen (not (mem d s.blobs)) before d after } in
    let oks = subst (All (LoopOk s.blobs)) e v.loops_ok in
    let ok = All-middle (LoopOk s.blobs) p q l oks in
    let split = scanned s.blobs l before (d ∷ after) at ok.1 in
    record {
      counted = λ a. omega (
        arith,
        v.counted a,
        count-claim a d s.blobs s.working,
        claims-replace a p q l k,
        ap (claims a) e,
        ap (claimed_by a) at,
      );
      single = λ a. pick_single a d s.blobs s.working free (v.single a);
      loops_ok = All-replace (LoopOk s.blobs) p q l k oks (ok.0, (split, refl));
    }
Step-Inv (drop s p q l claimed before after d e at there) v =
    let k : Loop = record l { phase = seeking; layers = before ++ after } in
    let oks = subst (All (LoopOk s.blobs)) e v.loops_ok in
    let ok = All-middle (LoopOk s.blobs) p q l oks in
    let (split, honest) = chosen_ok s.blobs l claimed before after d ok at in
    record {
      counted = λ a. ground (
        arith,
        v.counted a,
        claims-replace a p q l k,
        ap (claims a) e,
        there,
        claimed_by_kept a l claimed before after d s.blobs at honest,
      );
      single = v.single;
      loops_ok =
          All-replace (LoopOk s.blobs) p q l k oks
            (drop_wanted s.blobs before after l.wanted d l.layers split there ok.0, tt);
    }
Step-Inv (spawn s p q l claimed before after d e at lacks) v =
    let k : Loop = record l { phase = seeking } in
    let oks = subst (All (LoopOk s.blobs)) e v.loops_ok in
    let ok = All-middle (LoopOk s.blobs) p q l oks in
    let (split, honest) = chosen_ok s.blobs l claimed before after d ok at in
    record {
      counted = λ a. ground (
        arith,
        v.counted a,
        claims-replace a p q l k,
        ap (claims a) e,
        lacks,
        claimed_by_kept a l claimed before after d s.blobs at honest,
      );
      single = v.single;
      loops_ok = All-replace (LoopOk s.blobs) p q l k oks (ok.0, tt);
    }
Step-Inv (deliver s before after d e) v = record {
  counted = v.counted;
  single = v.single;
  loops_ok = deliver_loops d s.blobs s.loops (job_working s before after d e v).1 v.loops_ok;
}
Step-Inv (finish s before after d e) v = record {
  counted = λ a. omega (
    arith,
    v.counted a,
    split-count a d s.jobs before after e,
    count-release a d s.working (job_working s before after d e v).0,
  );
  single = λ a.
      omega (arith, v.single a, count-release a d s.working (job_working s before after d e v).0);
  loops_ok = v.loops_ok;
}

pub Copying-Inv :
    {blobs : List Text} {images : List (List Text)} {s : Copying} → Reach blobs images s → Inv s
Copying-Inv {blobs} {images} here = start-Inv blobs images
Copying-Inv (next r st) = Step-Inv st (Copying-Inv r)

-- In every state of the loops over layers that is reached from the start, however loops and
-- downloads interleave: a digest stands among the working digests as often as it is downloaded or
-- claimed by a loop, and at most once.
pub Reach-single :
    {blobs : List Text} {images : List (List Text)} {s : Copying}
    → Reach blobs images s
    → (d : Text) → (count d s.working ≡ count d s.jobs + claims d s.loops) × (count d s.working ≤ 1)
Reach-single r d = ((Copying-Inv r).counted d, (Copying-Inv r).single d)

-- In every state that is reached from the start, the destination has each layer of an image whose
-- loop has no layer left.
pub Reach-complete :
    {blobs : List Text} {images : List (List Text)} {s : Copying}
    → Reach blobs images s
    → (p q : List Loop) (l : Loop) → s.loops ≡ p ++ l ∷ q
    → l.layers ≡ []
    → All (λ x. mem x s.blobs ≡ true) l.wanted
Reach-complete {s = s} r p q l e done =
    All-imp _ _ l.wanted (λ x m. ground (arith, m, ap (mem x) done))
      (All-middle (LoopOk s.blobs) p q l
        (subst (All (LoopOk s.blobs)) e (Copying-Inv r).loops_ok)).0
