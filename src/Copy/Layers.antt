-- ===== src/Copy/Layers.antt =====
-- The layers of images in `Copy::execute( Schema2::ImageManifest )`, src/lib/OCI/Copy.cpp: a loop for each
-- image, and the downloads that the loops start, in any order, a step for each access to what they
-- share. Any download that was started may run, and end: whether a worker takes it from the queue is
-- a matter of Threads/Waiting. Blobs are only added.
pub mod Counts
pub mod Loops
pub mod Single
use oci_tool.Prelude.{
  ℕ, ◌+◌, ◌≡◌, Bool, true, false, not, ◌&&◌, Option, none, some, List, [], ◌∷◌, ◌++◌, Text, text_eq,
  ◌==◌, if◌then◌else◌, any, map,
}

abbrev pub mem : Text → List Text → Bool
mem d xs = any (λ x. x == d) xs

-- Where a loop is: in front of its search; in it, with the layers that are behind and before it; or
-- with a layer that it has chosen: whether its digest was added to the working digests, and the layers in front
-- of the chosen one, the digest, and the layers behind it.
pub data Phase : Type 0 where
  seeking : Phase
  scanning : List Text → List Text → Phase
  chosen : Bool → List Text → Text → List Text → Phase

-- `layers` are those that are left of `wanted`.
pub record Loop : Type 0 where
  pub wanted : List Text
  pub layers : List Text
  pub phase : Phase

pub record Copying : Type 0 where
  pub blobs : List Text
  pub working : List Text
  pub jobs : List Text
  pub loops : List Loop

-- The predicate of `find_if` also claims a layer that the destination lacks.
unfoldable pub claim : List Text → Text → List Text → List Text
claim blobs d working = if mem d blobs then working else working ++ d ∷ []

-- `working_digests_->erase( std::find( … ) )`
unfoldable pub release : Text → List Text → List Text
release d [] = []
release d (x ∷ xs) = if x == d then xs else x ∷ release d xs

-- The images at the start of their loops.
abbrev pub waiting : List Text → Loop
waiting ls = record { wanted = ls; layers = ls; phase = seeking }

pub data Step : Copying → Copying → Type 0 where
  -- `std::find_if`, which takes the lock of the working digests for each layer: it begins, passes over
  -- a layer that somebody works on, finds one that nobody works on, or ends without one
  scan :
      (s : Copying) (p q : List Loop) (l : Loop)
      → s.loops ≡ p ++ l ∷ q
      → l.phase ≡ seeking
      → Step s (record s { loops = p ++ record l { phase = scanning [] l.layers } ∷ q })
  pass_over :
      (s : Copying) (p q : List Loop) (l : Loop) (before after : List Text) (d : Text)
      → s.loops ≡ p ++ l ∷ q
      → l.phase ≡ scanning before (d ∷ after)
      → mem d s.working ≡ true
      → Step s
          (record s { loops = p ++ record l { phase = scanning (before ++ d ∷ []) after } ∷ q })
  pick :
      (s : Copying) (p q : List Loop) (l : Loop) (before after : List Text) (d : Text)
      → s.loops ≡ p ++ l ∷ q
      → l.phase ≡ scanning before (d ∷ after)
      → mem d s.working ≡ false
      → Step s (record s {
        working = claim s.blobs d s.working;
        loops = p ++ record l { phase = chosen (not (mem d s.blobs)) before d after } ∷ q;
      })
  give_up :
      (s : Copying) (p q : List Loop) (l : Loop) (before : List Text)
      → s.loops ≡ p ++ l ∷ q
      → l.phase ≡ scanning before []
      → Step s (record s { loops = p ++ record l { phase = seeking } ∷ q })
  -- the destination has it: the layer is erased
  drop :
      (s : Copying) (p q : List Loop) (l : Loop) (claimed : Bool) (before after : List Text)
      (d : Text)
      → s.loops ≡ p ++ l ∷ q
      → l.phase ≡ chosen claimed before d after
      → mem d s.blobs ≡ true
      → Step s
          (record s { loops = p ++ record l { phase = seeking; layers = before ++ after } ∷ q })
  -- the destination lacks it: a download is handed to the thread manager
  spawn :
      (s : Copying) (p q : List Loop) (l : Loop) (claimed : Bool) (before after : List Text)
      (d : Text)
      → s.loops ≡ p ++ l ∷ q
      → l.phase ≡ chosen claimed before d after
      → mem d s.blobs ≡ false
      → Step s (record s { jobs = d ∷ s.jobs; loops = p ++ record l { phase = seeking } ∷ q })
  -- a download has put its last part
  deliver :
      (s : Copying) (before after : List Text) (d : Text)
      → s.jobs ≡ before ++ d ∷ after
      → Step s (record s { blobs = d ∷ s.blobs })
  -- a download ends, with its blob delivered or not
  finish :
      (s : Copying) (before after : List Text) (d : Text)
      → s.jobs ≡ before ++ d ∷ after
      → Step s (record s { jobs = before ++ after; working = release d s.working })

-- Nobody works, and every loop is at its start.
abbrev pub start : List Text → List (List Text) → Copying
start blobs images = record { blobs = blobs; working = []; jobs = []; loops = map waiting images }

pub data Reach (blobs : List Text) (images : List (List Text)) : Copying → Type 0 where
  here : Reach blobs images (start blobs images)
  next : {s t : Copying} → Reach blobs images s → Step s t → Reach blobs images t
