-- ===== src/Threads.antt =====
-- gobha::SimpleThreadManager, include/gobha/SimpleThreadManager.hpp: its queues and counters, and
-- what its workers and its callers do, a step for each access to what they share. A task is any
-- value. A time-out of the condition variable only makes a worker look again.
pub mod Conservation
pub mod Shutdown
pub mod Waiting
use oci_tool.Prelude.{
  ℕ, ◌+◌, ◌-◌, ◌<◌, ◌≡◌, Bool, true, false, ◌&&◌, Option, none, some, List, [], ◌∷◌, ◌++◌, length,
  nat_eq, ◌==◌,
}

module _ (A : Type 0) where
  -- `limit` is `thread_limit_`. A worker that has taken a task holds it until it has counted itself
  -- busy (`idle_--`), and then runs it until it counts itself idle again (`idle_++`). A caller of
  -- `execute` that has seen an idle worker is posting. `submitted` is what callers have handed in.
  -- `going` is `run_thr_`, `checked` says that `wait` has found all workers idle, and `waited` that the
  -- destructor has returned from it. Of the
  -- workers without a task some are about to test `run_thr_`, some look for a task, and some are
  -- gone.
  pub record Manager : Type 0 where
    pub limit : ℕ
    pub idle : ℕ
    pub fg : List A
    pub bg : List A
    pub posting : List A
    pub held : List A
    pub running : List A
    pub done : List A
    pub submitted : List A
    pub going : Bool
    pub checked : Bool
    pub waited : Bool
    pub testing : ℕ
    pub looking : ℕ
    pub gone : ℕ

  abbrev pub start : ℕ → Manager
  start n = record {
    limit = n;
    idle = n;
    fg = [];
    bg = [];
    posting = [];
    held = [];
    running = [];
    done = [];
    submitted = [];
    going = true;
    checked = false;
    waited = false;
    testing = n;
    looking = 0;
    gone = 0;
  }

  -- What a worker takes under the lock: the first foreground task, else the first background task.
  -- The queues that are left stand behind it.
  unfoldable pub take_task : List A → List A → Option (A × List A × List A)
  take_task (f ∷ fg) bg = some (f, fg, bg)
  take_task [] (b ∷ bg) = some (b, [], bg)
  take_task [] [] = none

  -- The two tests by which `wait` ends: of the counter, before `wait_for` gives the lock away, and of
  -- the queues, in the state in which it was notified.
  unfoldable pub idle_test : Manager → Bool
  idle_test m = m.idle == m.limit

  unfoldable pub queue_test : Manager → Bool
  queue_test m = length m.bg == 0 && length m.fg == 0

  unfoldable pub wait_test : Manager → Manager → Bool
  unfolding idle_test queue_test
  wait_test before after = idle_test before && queue_test after

  pub data Step : Manager → Manager → Type 0 where
    -- `background( f )`
    background :
        (m : Manager) (f : A)
        → Step m (record m { bg = m.bg ++ f ∷ []; submitted = f ∷ m.submitted })
    -- `execute( f )` with `idle_ > 0`, and its push under the lock
    post :
        (m : Manager) (f : A)
        → 0 < m.idle
        → Step m (record m { posting = f ∷ m.posting; submitted = f ∷ m.submitted })
    push :
        (m : Manager) (f : A) (before after : List A)
        → m.posting ≡ before ++ f ∷ after
        → Step m (record m { posting = before ++ after; fg = m.fg ++ f ∷ [] })
    -- `execute( f )` with no idle worker: the caller runs it
    inline :
        (m : Manager) (f : A)
        → m.idle ≡ 0
        → Step m (record m { done = f ∷ m.done; submitted = f ∷ m.submitted })
    -- `while ( run_thr_ )`
    look :
        (m : Manager)
        → 0 < m.testing
        → m.going ≡ true
        → Step m (record m { testing = m.testing - 1; looking = m.looking + 1 })
    leave :
        (m : Manager)
        → 0 < m.testing
        → m.going ≡ false
        → Step m (record m { testing = m.testing - 1; gone = m.gone + 1 })
    -- a worker takes a task, or finds none before the time-out
    take :
        (m : Manager) (f : A) (fg bg : List A)
        → 0 < m.looking
        → take_task m.fg m.bg ≡ some (f, fg, bg)
        → Step m (record m { fg = fg; bg = bg; held = f ∷ m.held; looking = m.looking - 1 })
    miss :
        (m : Manager)
        → 0 < m.looking
        → take_task m.fg m.bg ≡ none
        → Step m (record m { looking = m.looking - 1; testing = m.testing + 1 })
    -- `idle_--`
    begin :
        (m : Manager) (f : A) (before after : List A)
        → m.held ≡ before ++ f ∷ after
        → Step m (record m { held = before ++ after; running = f ∷ m.running; idle = m.idle - 1 })
    -- `func()` has returned, `idle_++`
    finish :
        (m : Manager) (f : A) (before after : List A)
        → m.running ≡ before ++ f ∷ after
        → Step m (record m {
          running = before ++ after;
          done = f ∷ m.done;
          idle = m.idle + 1;
          testing = m.testing + 1;
        })
    -- the destructor: in `wait` the test of the counter, and, after any steps of others, the end or
    -- another round; then `run_thr_ = false`
    check :
        (m : Manager) → m.going ≡ true → idle_test m ≡ true → Step m (record m { checked = true })
    retry :
        (m : Manager) → m.going ≡ true → m.checked ≡ true → Step m (record m { checked = false })
    pass :
        (m : Manager)
        → m.going ≡ true
        → m.checked ≡ true
        → queue_test m ≡ true
        → Step m (record m { waited = true })
    close : (m : Manager) → m.going ≡ true → m.waited ≡ true → Step m (record m { going = false })

  pub data Reach (n : ℕ) : Manager → Type 0 where
    here : Reach n (start n)
    next : {s t : Manager} → Reach n s → Step s t → Reach n t
