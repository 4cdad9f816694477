-- ===== src/Threads/Waiting/Counts.antt =====
-- What the steps of include/gobha/SimpleThreadManager.hpp do to the tasks that are not done.
use oci_tool.Prelude.{ℕ, zero, suc, ◌+◌, ◌<◌, ◌≤◌, ◌≡◌, ◌≢◌, ap, none, some, [], ◌∷◌, nat_eq, arith}
use oci_tool.Threads.Conservation.{total-append, take_task-total, split-total}
use oci_tool.Threads.Waiting.Family.{sum, sum-update}
use oci_tool.Threads.Waiting.{
  Task, Place, free, held, running, Pool, place_weight, weigh, children, Works, push, take, begin,
  go_on, finish,
}

-- No worker step makes the weight of what is not done larger.
pub Works-weigh : (w : Task → ℕ) (n : ℕ) {s t : Pool} → Works n s t → weigh w n t ≤ weigh w n s
Works-weigh w n (push s t before after e) =
    omega (arith, split-total w s.posting before after t e, total-append w s.fg (t ∷ []))
Works-weigh w n (take s i t fg bg lt at e) = omega (
  arith,
  take_task-total w s.fg s.bg e,
  sum-update (place_weight w) s.at i (held t) n lt,
  ap (place_weight w) at,
)
Works-weigh w n (begin s i t lt at) =
    omega (arith, sum-update (place_weight w) s.at i (running t none) n lt, ap (place_weight w) at)
Works-weigh w n (go_on s i t d lt at done) =
    omega (arith, sum-update (place_weight w) s.at i (running t none) n lt, ap (place_weight w) at)
Works-weigh w n (finish s i t lt at done) =
    omega (arith, sum-update (place_weight w) s.at i free n lt, ap (place_weight w) at)

abbrev pub runs : Place → ℕ
runs free = 0
runs (held t) = 0
runs (running t o) = 1

pub runs-le : (p : Place) → runs p ≤ 1
runs-le free = omega arith
runs-le (held t) = omega arith
runs-le (running t o) = omega arith

-- A running worker that waits for tasks of its own.
abbrev pub waits : ℕ → Place → ℕ
waits zero p = 0
waits (suc k) p = runs p

abbrev pub waiting : ℕ → Pool → ℕ → ℕ
waiting n s j = waits (children j n s) (s.at j)

pub waits-le : (k k' : ℕ) (p : Place) → k ≤ k' → waits k p ≤ waits k' p
waits-le zero k' p h = omega arith
waits-le (suc k) zero p h = absurd (omega arith)
waits-le (suc k) (suc k') p h = omega arith

pub waits-le_runs : (k : ℕ) (p : Place) → waits k p ≤ runs p
waits-le_runs zero p = omega arith
waits-le_runs (suc k) p = omega arith

-- The counter is right, some worker does not wait for its own tasks, nobody waits for the tasks of
-- others, and nobody has tasks who does not run.
pub record Inv (n : ℕ) (s : Pool) : Type 0 where
  pub counted : s.idle + sum n (λ j. runs (s.at j)) ≡ n
  pub unblocked : sum n (waiting n s) < n
  pub selfish : (i d : ℕ) (t : Task) → s.at i ≢ running t (some d)
  pub quiet : (i : ℕ) → runs (s.at i) ≡ 0 → children i n s ≡ 0
