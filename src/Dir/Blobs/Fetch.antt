-- ===== src/Dir/Blobs/Fetch.antt =====
-- What `fetchBlob` of src/lib/OCI/Extensions/Dir.cpp hands to its callback.
use oci_tool.Prelude.{
  ℕ, zero, suc, ◌-◌, ◌%◌, ◌<◌, ◌≤◌, ◌≡◌, refl, sym, ap, ◌∙◌, ◌==◌, Bool, true, false, some, List,
  [], ◌∷◌, ◌++◌, ◌&&◌, Text, codes, length, leb, take, drop, flatten, All, Exec, Outcome, returns,
  throws, diverges, runtime_error, throw, continue_with, ◌>>=◌, pure, arith, if◌then◌else◌, nat_eq,
  Bool-cases, fun_ext, inl, inr, length-eq-zero, length-drop, length-take, take-append-drop,
}
use oci_tool.Prelude.Dict.{lookup}
use oci_tool.Filesystem.{Disk, file}
use oci_tool.Filesystem.Paths.{join}
use oci_tool.Dir.{Dir}
use oci_tool.Dir.Blobs.{buffer_size, read_loop, fetch_blob}
use native.Mathlib.Nat.{mod-eq_of_lt, mod-eq-sub-mod}
use oci_tool.Dir.Blobs.Parts.{deliver}

module _ (size : ℕ) where
  pieces_from : ℕ → List ℕ → List (List ℕ)
  pieces_from zero rest = []
  pieces_from (suc fuel) [] = []
  pieces_from (suc fuel) (x ∷ rest) =
      let more = pieces_from fuel (drop size (x ∷ rest)) in take size (x ∷ rest) ∷ more

  -- The contents cut at the multiples of the buffer's size.
  unfoldable pub pieces : List ℕ → List (List ℕ)
  unfolding pieces_from
  pieces b = pieces_from (suc (length b)) b

  -- How the loop ends when all of `n` bytes were accepted, or when a part was refused.
  unfoldable pub read_end : {S : Type 0} → ℕ → Bool → Exec S Bool
  read_end n true s =
      if n % size == 0 then throw (runtime_error (codes "read failed")) s else pure true s
  read_end n false s = pure false s

  module _ (positive : 0 < size) where
    flatten-pieces_from :
        (fuel : ℕ) (rest : List ℕ) → length rest < fuel → flatten (pieces_from fuel rest) ≡ rest
    unfolding pieces_from flatten
    flatten-pieces_from zero rest h = absurd (omega arith)
    flatten-pieces_from (suc fuel) [] h = refl
    flatten-pieces_from (suc fuel) (x ∷ rest) h =
        ap (◌++◌ (take size (x ∷ rest))) (
          flatten-pieces_from fuel (drop size (x ∷ rest))
            (omega (arith, length-drop size (x ∷ rest))))
        ∙ take-append-drop size (x ∷ rest)

    -- The pieces are the contents.
    pub flatten-pieces : (b : List ℕ) → flatten (pieces b) ≡ b
    unfolding pieces
    flatten-pieces b = flatten-pieces_from (suc (length b)) b (omega arith)

    pieces_from-filled :
        (fuel : ℕ) (rest : List ℕ) → All (λ p. 0 < length p) (pieces_from fuel rest)
    unfolding pieces_from
    pieces_from-filled zero rest = tt
    pieces_from-filled (suc fuel) [] = tt
    pieces_from-filled (suc fuel) (x ∷ rest) =
        (omega (arith, length-take size (x ∷ rest)), pieces_from-filled fuel (drop size (x ∷ rest)))

    pub pieces-filled : (b : List ℕ) → All (λ p. 0 < length p) (pieces b)
    unfolding pieces
    pieces-filled b = pieces_from-filled (suc (length b)) b

    read_end-drop :
        {S : Type 0} (n : ℕ) (b : Bool) (s : S)
        → size ≤ n
        → read_end (n - size) b s ≡ read_end n b s
    unfolding read_end
    read_end-drop n true s h = ground (arith, mod-eq-sub-mod h)
    read_end-drop n false s h = refl

    read_end-short :
        {S : Type 0} (n : ℕ) (s : S) → 0 < n → n < size → read_end n true s ≡ pure true s
    unfolding read_end
    read_end-short n s h k = ground (arith, mod-eq_of_lt k)

    module _ {S : Type 0} (call_back : List ℕ → Exec S Bool) where
      read_loop_step :
          (rest : List ℕ) (more deliveries : Exec S Bool) (o : Outcome Bool) (s : S)
          → 0 < length rest
          → ((s' : S) → more s' ≡ (deliveries >>= read_end (length rest - size)) s')
          → (length rest < size → (s' : S) → deliveries s' ≡ pure true s')
          → continue_with o s
              (λ accepted. if accepted && leb size (length rest) then more else pure accepted)
            ≡ continue_with
                (continue_with o s (λ accepted. if accepted then deliveries else pure false)).0
                (continue_with o s (λ accepted. if accepted then deliveries else pure false)).1
                (read_end (length rest))
      unfolding read_end
      read_loop_step rest more deliveries (returns true) s some_left ih short =
          elim (Bool-cases (leb size (length rest))) [
            | inl filled ↦ rw filled (
                ih s
                ∙ ap (λ (f : Bool → Exec S Bool). (deliveries >>= f) s)
                    (fun_ext λ b. fun_ext λ s'. read_end-drop (length rest) b s' (ground arith)))
            | inr ended ↦
                let little : length rest < size = ground arith in
                rw (ended, short little s) (sym (read_end-short (length rest) s some_left little))
          ]
      read_loop_step rest more deliveries (returns false) s some_left ih short = refl
      read_loop_step rest more deliveries (throws e) s some_left ih short = refl
      read_loop_step rest more deliveries diverges s some_left ih short = refl

      read_end-nil : (s : S) → read_end 0 true s ≡ throw (runtime_error (codes "read failed")) s
      unfolding read_end
      read_end-nil s = ground (arith, mod-eq_of_lt positive)

      deliver-pieces_from_nil :
          (fuel : ℕ) (s : S) → deliver call_back (pieces_from fuel []) s ≡ pure true s
      unfolding deliver pieces_from
      deliver-pieces_from_nil zero s = refl
      deliver-pieces_from_nil (suc fuel) s = refl

      drop-nil : (rest : List ℕ) → length rest < size → drop size rest ≡ []
      drop-nil rest h = length-eq-zero (drop size rest) (omega (arith, length-drop size rest))

      read_loop-pieces_from :
          (fuel : ℕ) (rest : List ℕ) (s : S)
          → length rest < fuel
          → read_loop size fuel rest call_back s
            ≡ (deliver call_back (pieces_from fuel rest) >>= read_end (length rest)) s
      unfolding read_loop deliver pieces_from
      read_loop-pieces_from zero rest s h = absurd (omega arith)
      read_loop-pieces_from (suc fuel) [] s h = sym (read_end-nil s)
      read_loop-pieces_from (suc fuel) (x ∷ rest) s h =
          read_loop_step (x ∷ rest) _ _ (call_back (take size (x ∷ rest)) s).0 _ (omega arith)
            (λ s'.
              read_loop-pieces_from fuel (drop size (x ∷ rest)) s'
                (omega (arith, length-drop size (x ∷ rest)))
              ∙ ap
                  (λ (n : ℕ).
                    (deliver call_back (pieces_from fuel (drop size (x ∷ rest))) >>= read_end n) s')
                  (length-drop size (x ∷ rest)))
            (λ little s'. rw (drop-nil (x ∷ rest) little) (deliver-pieces_from_nil fuel s'))

      pub read_loop-pieces :
          (b : List ℕ) (s : S)
          → read_loop size (suc (length b)) b call_back s
            ≡ (deliver call_back (pieces b) >>= read_end (length b)) s
      unfolding pieces
      read_loop-pieces b s = read_loop-pieces_from (suc (length b)) b s (omega arith)

-- `Dir::fetchBlob` on a blob that is a file hands its bytes to any callback in consecutive pieces
-- of the buffer's size, until one is refused or throws, and always ends: with what the callback
-- threw, with false after a refusal, with true when all was accepted, or with a runtime_error when
-- all was accepted and the size is a multiple of 4096, zero included.
pub fetch_blob-pieces :
    {S : Type 0} (d : Dir) (disk : Disk) (sha : Text) (b : List ℕ)
    (call_back : List ℕ → Exec S Bool) (s : S)
    → lookup (join (join d.tree_root (codes "blobs")) sha) disk.nodes ≡ some (file b)
    → (flatten (pieces buffer_size b) ≡ b)
      × (fetch_blob d disk sha call_back s
          ≡ (deliver call_back (pieces buffer_size b) >>= read_end buffer_size (length b)) s)
unfolding fetch_blob
fetch_blob-pieces d disk sha b call_back s there = (
  flatten-pieces buffer_size (omega arith) b,
  rw (there, fetch_blob) (read_loop-pieces buffer_size (omega arith) call_back b s),
)
