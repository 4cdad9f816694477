-- ===== src/Threads/Shutdown.antt =====
-- The destructor of gobha::SimpleThreadManager, include/gobha/SimpleThreadManager.hpp, once `run_thr_` is
-- false.
use oci_tool.Prelude.{
  ℕ, zero, suc, ◌+◌, ◌-◌, ◌*◌, ◌<◌, ◌≡◌, ◌≢◌, ◌⊎◌, inl, inr, refl, ap, subst, Option-cases,
  Bool-cases, ltb, true, false, List, [], ◌∷◌, ◌++◌, length, nat_eq, arith,
}
use oci_tool.Threads.{
  Manager, start, take_task, idle_test, queue_test, Step, background, post, push, inline, look,
  leave, take, miss, begin, finish, check, retry, pass, close, Reach, next,
}
use oci_tool.Threads.Conservation.{Inv, Reach-Inv, split-length, early, early-Reach}

module _ {A : Type 0} where
  -- How far the workers are from their end, and the callers from their push.
  abbrev pub left : Manager A → ℕ
  left m = m.testing + 2 * length m.running + 3 * length m.held + 4 * m.looking + length m.posting

  -- A step of a closed manager submits a task, or brings its end nearer.
  Step-left :
      {m t : Manager A}
      → Step A m t
      → m.going ≡ false
      → (left t < left m) ⊎ ((f : A) × (t.submitted ≡ f ∷ m.submitted))
  Step-left (background m f) closed = inr (f, refl)
  Step-left (post m f idle) closed = inr (f, refl)
  Step-left (inline m f busy) closed = inr (f, refl)
  Step-left (push m f before after e) closed =
      inl (omega (arith, split-length m.posting before after f e))
  Step-left (look m there going) closed = absurd (cc (going, closed))
  Step-left (leave m there going) closed = inl (omega arith)
  Step-left (take m f fg bg there e) closed = inl (omega arith)
  Step-left (miss m there e) closed = inl (omega arith)
  Step-left (begin m f before after e) closed =
      inl (omega (arith, split-length m.held before after f e))
  Step-left (finish m f before after e) closed =
      inl (omega (arith, split-length m.running before after f e))
  Step-left (check m going e) closed = absurd (cc (going, closed))
  Step-left (retry m going e) closed = absurd (cc (going, closed))
  Step-left (pass m going e q) closed = absurd (cc (going, closed))
  Step-left (close m going e) closed = absurd (cc (going, closed))

  -- A step that submits nothing and brings the end nearer.
  abbrev pub Nearer : Manager A → Type 0
  Nearer m = (t : Manager A) × Step A m t × (left t < left m) × (t.submitted ≡ m.submitted)

  List-cases : (xs : List A) → (xs ≡ []) ⊎ ((x : A) × (rest : List A) × (xs ≡ [] ++ x ∷ rest))
  List-cases [] = inl refl
  List-cases (x ∷ rest) = inr (x, rest, refl)

  idle_step : (m : Manager A) → 0 < m.looking → Nearer m
  idle_step m there = elim (Option-cases (take_task A m.fg m.bg)) [
    | inl none_there ↦ (_, miss m there none_there, omega arith, refl)
    | inr ((f, fg, bg), e) ↦ (_, take m f fg bg there e, omega arith, refl)
  ]

  step_on : {n : ℕ} (m : Manager A) → Inv n m → m.going ≡ false → m.gone ≢ n → Nearer m
  step_on m v closed some_left = elim (List-cases m.running) [
    | inr (f, rest, e) ↦
        (_, finish m f [] rest e, omega (arith, split-length m.running [] rest f e), refl)
    | inl no_running ↦ elim (List-cases m.held) [
      | inr (f, rest, e) ↦
          (_, begin m f [] rest e, omega (arith, split-length m.held [] rest f e), refl)
      | inl no_held ↦ elim (Bool-cases (ltb 0 m.looking)) [
        | inl there ↦ idle_step m (ground (arith, there))
        | inr none_there ↦
            let nobody : m.looking ≡ 0 = ground (arith, none_there) in
            let some_test : 0 < m.testing =
              omega (arith, v.staffed, nobody, ap length no_running, ap length no_held) in
            (_, leave m some_test closed, omega arith, refl)
      ]
    ]
  ]

  -- In a reachable state of the thread manager after its destructor has set `run_thr_`, every step
  -- submits a task or brings the workers nearer to their end, by a measure; and as long as not all
  -- workers are gone, some step submits nothing and brings it nearer.
  pub closed-ends :
      {n : ℕ} {m : Manager A}
      → Reach A n m
      → m.going ≡ false
      → ((t : Manager A)
          → Step A m t
          → (left t < left m) ⊎ ((f : A) × (t.submitted ≡ f ∷ m.submitted)))
        × (m.gone ≢ n → Nearer m)
  closed-ends {m = m} r closed = (λ t st. Step-left st closed, step_on m (Reach-Inv r) closed)

  -- The workers of a closed manager leave one by one.
  all_leave :
      {n : ℕ} (k : ℕ) (m : Manager A)
      → Reach A n m
      → m.going ≡ false
      → m.testing ≡ k
      → Reach A n (record m { testing = 0; gone = m.gone + k })
  all_leave {n} zero m r closed e =
      subst (λ (x : ℕ). Reach A n (record m { testing = x; gone = m.gone + 0 })) e
        (subst (λ (y : ℕ). Reach A n (record m { gone = y })) (omega arith) r)
  all_leave {n} (suc k) m r closed e =
      let one =
        all_leave k (record m { testing = m.testing - 1; gone = m.gone + 1 })
          (next r (leave m (omega arith) closed)) closed (omega arith) in
      subst (λ (y : ℕ). Reach A n (record m { testing = 0; gone = y })) (omega arith) one

  abbrev ran : ℕ → A → Manager A
  ran n f = record (start A n) {
    testing = n - 1;
    submitted = f ∷ [];
    checked = true;
    waited = true;
    going = false;
  }

  -- The manager is closed with a task that a worker holds; the task submits another one.
  ran-Reach :
      (n : ℕ) (f g : A)
      → 0 < n
      → Reach A n (record (ran n f) {
        idle = (n - 1) + 1;
        bg = g ∷ [];
        done = f ∷ [];
        submitted = g ∷ f ∷ [];
        testing = (n - 1) + 1;
      })
  unfolding idle_test queue_test
  ran-Reach n f g h =
      let held = early-Reach n f h in
      let checked = next held (check (early n f) refl (ground arith)) in
      let waited = next checked (pass (record (early n f) { checked = true }) refl refl refl) in
      let closed =
        next waited (close (record (early n f) { checked = true; waited = true }) refl refl) in
      let begun = next closed (
        begin (record (early n f) { checked = true; waited = true; going = false }) f [] [] refl) in
      let more = next begun (background (record (ran n f) { idle = n - 1; running = f ∷ [] }) g) in
      next more (
        finish
          (record (ran n f) { idle = n - 1; running = f ∷ []; bg = g ∷ []; submitted = g ∷ f ∷ [] })
          f [] [] refl)

  -- For any positive number of workers and any two tasks there is a reachable state in which all
  -- workers are gone, the first task is done, and the second, which was submitted after the first,
  -- is left in the background queue.
  pub closed-lost :
      (n : ℕ) (f g : A)
      → 0 < n
      → (m : Manager A) × Reach A n m
        × (m.gone ≡ n)
        × (m.submitted ≡ g ∷ f ∷ [])
        × (m.done ≡ f ∷ [])
        × (m.bg ≡ g ∷ [])
  closed-lost n f g h =
      (_, all_leave ((n - 1) + 1) _ (ran-Reach n f g h) refl refl, omega arith, refl, refl, refl)
