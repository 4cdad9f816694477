-- ===== src/Threads/Waiting/Deadlock.antt =====
-- Tasks that wait for the downloads of others, lib/OCI/Copy.cpp, on the workers of
-- include/gobha/SimpleThreadManager.hpp.
use oci_tool.Prelude.{
  ℕ, zero, suc, ◌-◌, ◌<◌, ◌≤◌, ◌≡◌, ◌⊎◌, refl, sym, ap, subst, fun_ext, true, none, some, [], ◌∷◌,
  nat_eq, ◌==◌, ltb, if◌then◌else◌, inl, inr, Bool-cases, arith,
}
use oci_tool.Threads.{take_task}
use oci_tool.Threads.Conservation.{total}
use oci_tool.Threads.Waiting.Family.{update}
use oci_tool.Threads.Waiting.{
  Task, Place, free, held, running, Pool, is, children, loading, Works, push, take, begin, works,
  background, post, want, Reach, here, next,
}
use oci_tool.Threads.Waiting.Stuck.{Stuck, Later, Stuck-works, Stuck-Later}

module _ (n d : ℕ) where
  -- A task of a repository, and the download of a layer that the first worker hands in.
  abbrev repo : Task
  repo = record { parent = none; digest = none }

  abbrev pub layer : Task
  layer = record { parent = some 0; digest = some d }

  -- The first k workers have taken a repository.
  abbrev taken : ℕ → ℕ → Place
  taken k j = if ltb j k then held repo else free

  -- The first waits for its layer, the next ones for the same.
  abbrev stuck : ℕ → ℕ → Place
  stuck k j =
      if j == 0
      then running repo none
      else if ltb j k
      then running repo (some d)
      else if ltb j n
      then held repo
      else free

  taken-next : (k : ℕ) → update (taken k) k (held repo) ≡ taken (suc k)
  taken-next k = fun_ext λ j. ground arith

  stuck-first : update (taken n) 0 (running repo none) ≡ stuck 1
  stuck-first = fun_ext λ j. ground arith

  stuck-next :
      (k : ℕ)
      → 0 < k
      → update (update (stuck k) k (running repo none)) k (running repo (some d)) ≡ stuck (suc k)
  stuck-next k h = fun_ext λ j. ground (arith, h)

  abbrev at_start : ℕ → Pool
  at_start k = record { idle = n; fg = []; bg = []; posting = []; at = taken k }

  abbrev at_end : ℕ → Pool
  at_end k = record { idle = n - k; fg = layer ∷ []; bg = []; posting = []; at = stuck k }

  taken-Reach : (k : ℕ) → k ≤ n → Reach n true (at_start k)
  unfolding take_task
  taken-Reach zero h =
      subst (λ (f : ℕ → Place). Reach n true (record (at_start 0) { at = f }))
        (fun_ext λ j. ground arith) here
  taken-Reach (suc k) h =
      let more = next (taken-Reach k (omega arith)) (background (at_start k) repo refl) in
      let its_turn : taken k k ≡ free = ground arith in
      subst (λ (f : ℕ → Place). Reach n true (record (at_start 0) { at = f })) (taken-next k)
        (next more (
          works (
            take (record (at_start k) { bg = repo ∷ [] }) k repo [] [] (omega arith) its_turn
              refl)))

  -- The first begins, and hands in the download of its layer while the others count as idle.
  first-Reach : 1 < n → Reach n true (at_end 1)
  first-Reach h =
      let its_turn : taken n 0 ≡ held repo = ground (arith, h) in
      let begun =
        subst (λ (f : ℕ → Place). Reach n true (record (at_start 0) { idle = n - 1; at = f }))
          stuck-first
          (next (taken-Reach n (omega arith))
            (works (begin (at_start n) 0 repo (omega arith) its_turn))) in
      let posted = next begun (
        post (record (at_start 0) { idle = n - 1; at = stuck 1 }) 0 repo layer (omega arith) refl
          refl (omega arith)) in
      next posted (
        works (
          push (record (at_start 0) { idle = n - 1; at = stuck 1; posting = layer ∷ [] }) layer []
            [] refl))

  loaded : (s : Pool) → s.fg ≡ layer ∷ [] → 0 < loading d n s
  loaded s e =
      let self : is d (some d) ≡ 1 = ground arith in
      omega (arith, self, ap (total (λ t. is d t.digest)) e)

  stuck-Reach : (k : ℕ) → 1 < n → suc k ≤ n → Reach n true (at_end (suc k))
  stuck-Reach zero h1 h2 = first-Reach h1
  stuck-Reach (suc k) h1 h2 =
      let its_turn : stuck (suc k) (suc k) ≡ held repo = ground (arith, h2) in
      let begun =
        next (stuck-Reach k h1 (omega arith))
          (works (begin (at_end (suc k)) (suc k) repo (omega arith) its_turn)) in
      let runs_now : update (stuck (suc k)) (suc k) (running repo none) (suc k)
          ≡ running repo none =
        ground arith in
      let s : Pool = record (at_end (suc k)) {
        idle = n - suc k - 1;
        at = update (stuck (suc k)) (suc k) (running repo none);
      } in
      let waits = next begun (want s (suc k) repo d refl (omega arith) runs_now (loaded s refl)) in
      subst
        (λ (m : ℕ). Reach n true (record (at_end (suc k)) { idle = m; at = stuck (suc (suc k)) }))
        (omega arith)
        (subst
          (λ (f : ℕ → Place).
            Reach n true (record (at_end (suc k)) { idle = n - suc k - 1; at = f }))
          (stuck-next (suc k) (omega arith)) waits)

  -- What a worker does at the end.
  stuck-cases :
      (i : ℕ)
      → ((i ≡ 0) × (stuck n i ≡ running repo none))
        ⊎ (stuck n i ≡ running repo (some d))
        ⊎ ((n ≤ i) × (stuck n i ≡ free))
  stuck-cases i = elim (Bool-cases (i == 0)) [
    | inl first ↦ inl (ground (arith, first), rw first refl)
    | inr other ↦ elim (Bool-cases (ltb i n)) [
      | inl below ↦ inr (inl (rw (other, below) refl))
      | inr past ↦ inr (inr (ground (arith, past), rw (other, past) refl))
    ]
  ]

  at_end-Stuck : 1 < n → Stuck n (at_end n)
  at_end-Stuck h = record {
    nothing_posted = refl;
    all_busy = omega arith;
    waiting = λ i lt. elim (stuck-cases i) [
      | inl (first, e) ↦ (repo, none, e)
      | inr (inl e) ↦ (repo, some d, e)
      | inr (inr (past, e)) ↦ absurd (omega (arith, past, lt))
    ];
    own = λ i t lt at. elim (stuck-cases i) [
      | inl (first, e) ↦ subst (λ (x : ℕ). 0 < children x n (at_end n)) (sym first) (omega arith)
      | inr (inl e) ↦ absurd (cc (e, at))
      | inr (inr (past, e)) ↦ absurd (cc (e, at))
    ];
    shared = λ i d' t at. elim (stuck-cases i) [
      | inl (first, e) ↦ absurd (cc (e, at))
      | inr (inl e) ↦
          let same_blob : d ≡ d' = cc (e, at) in
          subst (λ (x : ℕ). 0 < loading x n (at_end n)) same_blob (loaded (at_end n) refl)
      | inr (inr (past, e)) ↦ absurd (cc (e, at))
    ];
  }

  -- For two workers or more, where a task may wait for a blob that another one downloads, there is
  -- a reachable state in which the download of a layer stands in the queue, and no worker, and no
  -- caller that has yet to push, can make a step, whatever is submitted afterwards.
  pub deadlock :
      1 < n
      → (s : Pool) × Reach n true s
        × (s.fg ≡ layer ∷ [])
        × ((t u : Pool) → Later n s t → ¬ Works n t u)
  deadlock h = (
    at_end n,
    subst (λ (k : ℕ). Reach n true (at_end k)) (omega arith) (stuck-Reach (n - 1) h (omega arith)),
    refl,
    λ t u later. Stuck-works n (Stuck-Later n (at_end-Stuck h) later),
  )
