-- ===== src/Threads/Waiting/Progress.antt =====
-- Tasks that wait for their own tasks alone, on the workers of include/gobha/SimpleThreadManager.hpp.
use oci_tool.Prelude.{
  ℕ, zero, suc, ◌<◌, ◌≡◌, ◌≢◌, ◌⊎◌, refl, false, none, some, List, [], ◌∷◌, ◌++◌, nat_eq, inl, inr,
  Option-cases, arith,
}
use oci_tool.Threads.{take_task}
use oci_tool.Threads.Waiting.Family.{sum-zero}
use oci_tool.Threads.Waiting.{
  Task, Place, free, held, running, Pool, children, Works, push, take, begin, finish, Reach,
}
use oci_tool.Threads.Waiting.Counts.{waits, waiting, Inv}
use oci_tool.Threads.Waiting.Invariant.{Reach-Inv}

-- A task has been handed in, and not begun.
abbrev pub Pending : Pool → Type 0
Pending s = s.fg ++ (s.bg ++ s.posting) ≢ []

module _ (n : ℕ) where
  List-cases : (xs : List Task) → (xs ≡ []) ⊎ ((x : Task) × (rest : List Task) × (xs ≡ x ∷ rest))
  List-cases [] = inl refl
  List-cases (x ∷ rest) = inr (x, rest, refl)

  none_to_take : (fg bg : List Task) → take_task Task fg bg ≡ none → (fg ≡ []) × (bg ≡ [])
  unfolding take_task
  none_to_take [] [] e = (refl, refl)
  none_to_take [] (b ∷ bg) e = absurd (cc e)
  none_to_take (f ∷ fg) bg e = absurd (cc e)

  none_of_its : (k : ℕ) (t : Task) → waits k (running t none) ≡ 0 → k ≡ 0
  none_of_its zero t e = refl
  none_of_its (suc k) t e = absurd (omega (arith, e))

  -- A worker without a task, and what it can take, or what somebody pushes.
  feed : (s : Pool) (i : ℕ) → i < n → s.at i ≡ free → Pending s → (t : Pool) × Works n s t
  unfolding take_task
  feed s i lt at pending = elim (List-cases s.posting) [
    | inr (t, rest, e) ↦ (_, push s t [] rest e)
    | inl none_posting ↦ elim (Option-cases (take_task Task s.fg s.bg)) [
      | inr ((t, fg, bg), e) ↦ (_, take s i t fg bg lt at e)
      | inl none_there ↦
          let (no_fg, no_bg) = none_to_take s.fg s.bg none_there in
          absurd (pending (rw (no_fg, no_bg, none_posting) refl))
    ]
  ]

  go :
      (s : Pool) (i : ℕ) (p : Place)
      → i < n
      → s.at i ≡ p
      → Inv n s
      → waits (children i n s) p ≡ 0
      → Pending s
      → (t : Pool) × Works n s t
  go s i free lt at v ready pending = feed s i lt at pending
  go s i (held t) lt at v ready pending = (_, begin s i t lt at)
  go s i (running t none) lt at v ready pending = (_, finish s i t lt at (none_of_its _ t ready))
  go s i (running t (some d)) lt at v ready pending = absurd (v.selfish i d t at)

  -- If tasks wait only for the tasks that they have handed to `execute` themselves, then in every
  -- state that is reached with one worker or more, and has a task that was handed in and not
  -- begun, a worker, or a caller that has yet to push, can make a step: waiting for `thread_count`
  -- never blocks all workers.
  pub Reach-works : {s : Pool} → 0 < n → Reach n false s → Pending s → (t : Pool) × Works n s t
  Reach-works {s} some_worker r pending =
      let v = Reach-Inv n some_worker r in
      let (i, lt, ready) = sum-zero n (waiting n s) v.unblocked in
      go s i (s.at i) lt refl v ready pending
