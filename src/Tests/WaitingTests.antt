-- ===== src/Tests/WaitingTests.antt =====
-- Two workers with tasks that wait.
use oci_tool.Prelude.{◌≡◌, refl, true, none, [], ◌∷◌, arith}
use oci_tool.Threads.Waiting.{Task, Pool, begun, Works, Reach, here, next, background}
use oci_tool.Threads.Waiting.Progress.{Pending, Reach-works}
use oci_tool.Threads.Waiting.Stuck.{Later}
use oci_tool.Threads.Waiting.Deadlock.{layer, deadlock}

abbrev task : Task
task = record { parent = none; digest = none }

abbrev given : Pool
given = record (begun 2) { bg = task ∷ [] }

given-Pending : Pending given
given-Pending e = absurd (cc e)

Reach-works_example : (t : Pool) × Works 2 given t
Reach-works_example =
    Reach-works 2 (omega arith) (next here (background (begun 2) task refl)) given-Pending

deadlock_example :
    (s : Pool) × Reach 2 true s
    × (s.fg ≡ layer 2 5 ∷ [])
    × ((t u : Pool) → Later 2 s t → ¬ Works 2 t u)
deadlock_example = deadlock 2 5 (omega arith)
