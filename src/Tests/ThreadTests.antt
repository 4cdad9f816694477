-- ===== src/Tests/ThreadTests.antt =====
-- One worker, one task.
use oci_tool.Prelude.{ℕ, ◌<◌, ◌≡◌, ◌≢◌, ◌⊎◌, refl, true, false, [], ◌∷◌, arith}
use oci_tool.Threads.{
  Manager, start, take_task, idle_test, queue_test, wait_test, check, Reach, here, next, background,
  look, take, pass, close, Step,
}
use oci_tool.Threads.Shutdown.{left, Nearer, closed-ends, closed-lost}
use oci_tool.Threads.Conservation.{Inv, Reach-Inv, wait_test-early}

abbrev taken : Manager ℕ
taken = record (start ℕ 1) { held = 7 ∷ []; submitted = 7 ∷ []; testing = 0 }

abbrev given : Manager ℕ
given = record (start ℕ 1) { bg = 7 ∷ []; submitted = 7 ∷ [] }

taken-Reach : Reach ℕ 1 taken
unfolding take_task
taken-Reach =
    next (next (next here (background (start ℕ 1) 7)) (look given (omega arith) refl))
      (take (record given { testing = 0; looking = 1 }) 7 [] [] (omega arith) refl)

Reach-Inv_example : Inv 1 taken
Reach-Inv_example = Reach-Inv taken-Reach

wait_test-early_example :
    (m : Manager ℕ) × Reach ℕ 3 m
    × (wait_test ℕ m m ≡ true)
    × (m.submitted ≡ 9 ∷ [])
    × (m.held ≡ 9 ∷ [])
    × (m.done ≡ [])
wait_test-early_example = wait_test-early 3 9 (omega arith)

-- A manager that was closed without any task.
abbrev closed : Manager ℕ
closed = record (start ℕ 1) { checked = true; waited = true; going = false }

closed-Reach : Reach ℕ 1 closed
unfolding idle_test queue_test
closed-Reach =
    next
      (next (next here (check (start ℕ 1) refl refl))
        (pass (record (start ℕ 1) { checked = true }) refl refl refl))
      (close (record (start ℕ 1) { checked = true; waited = true }) refl refl)

closed-ends_example :
    ((t : Manager ℕ)
      → Step ℕ closed t
      → (left t < left closed) ⊎ ((f : ℕ) × (t.submitted ≡ f ∷ closed.submitted)))
    × (closed.gone ≢ 1 → Nearer closed)
closed-ends_example = closed-ends closed-Reach refl

closed-lost_example :
    (m : Manager ℕ) × Reach ℕ 2 m
    × (m.gone ≡ 2)
    × (m.submitted ≡ 9 ∷ 7 ∷ [])
    × (m.done ≡ 7 ∷ [])
    × (m.bg ≡ 9 ∷ [])
closed-lost_example = closed-lost 2 7 9 (omega arith)
