-- ===== src/Threads/Waiting.antt =====
-- Tasks that wait for tasks on the workers of gobha::SimpleThreadManager, include/gobha/SimpleThreadManager.hpp,
-- as lib/OCI/Sync.cpp and lib/OCI/Copy.cpp start them: a task ends when the tasks that it has handed to
-- `execute` are done, which it counts in `thread_count`, or finds among the working digests if they download
-- its layers. Where no worker is idle they run inside it, and are no tasks of their own.
-- Which tasks one hands in, and in which order, is left open: a superset of what the program does.
pub mod Family
pub mod Counts
pub mod Invariant
pub mod Progress
pub mod Stuck
pub mod Deadlock
use oci_tool.Prelude.{
  ℕ, ◌+◌, ◌-◌, ◌<◌, ◌≡◌, Bool, true, false, Option, none, some, List, [], ◌∷◌, ◌++◌, nat_eq, ◌==◌,
  if◌then◌else◌,
}
use oci_tool.Threads.{take_task}
use oci_tool.Threads.Conservation.{total}
use oci_tool.Threads.Waiting.Family.{update, sum}

-- `parent` is the worker whose task waits for this one, `digest` the blob that it downloads.
pub record Task : Type 0 where
  pub parent : Option ℕ
  pub digest : Option ℕ

-- What a worker does. A running task may wait until a blob is no longer among the working digests.
pub data Place : Type 0 where
  free : Place
  held : Task → Place
  running : Task → Option ℕ → Place

pub record Pool : Type 0 where
  pub idle : ℕ
  pub fg : List Task
  pub bg : List Task
  pub posting : List Task
  pub at : ℕ → Place

abbrev pub begun : ℕ → Pool
begun n = record { idle = n; fg = []; bg = []; posting = []; at = λ i. free }

abbrev pub is : ℕ → Option ℕ → ℕ
is i none = 0
is i (some j) = if i == j then 1 else 0

abbrev pub place_weight : (Task → ℕ) → Place → ℕ
place_weight w free = 0
place_weight w (held t) = w t
place_weight w (running t want) = w t

-- The tasks that are not done, each with its weight.
abbrev pub weigh : (Task → ℕ) → ℕ → Pool → ℕ
weigh w n s = total w s.fg + total w s.bg + total w s.posting + sum n (λ j. place_weight w (s.at j))

-- The tasks that a worker waits for, and those that download a blob.
abbrev pub children : ℕ → ℕ → Pool → ℕ
children i = weigh (λ t. is i t.parent)

abbrev pub loading : ℕ → ℕ → Pool → ℕ
loading d = weigh (λ t. is d t.digest)

module _ (n : ℕ) where
  -- The steps of callers that are about to push, and of workers.
  pub data Works : Pool → Pool → Type 0 where
    push :
        (s : Pool) (t : Task) (before after : List Task)
        → s.posting ≡ before ++ t ∷ after
        → Works s (record s { posting = before ++ after; fg = s.fg ++ t ∷ [] })
    take :
        (s : Pool) (i : ℕ) (t : Task) (fg bg : List Task)
        → i < n
        → s.at i ≡ free
        → take_task Task s.fg s.bg ≡ some (t, fg, bg)
        → Works s (record s { fg = fg; bg = bg; at = update s.at i (held t) })
    begin :
        (s : Pool) (i : ℕ) (t : Task)
        → i < n
        → s.at i ≡ held t
        → Works s (record s { at = update s.at i (running t none); idle = s.idle - 1 })
    go_on :
        (s : Pool) (i : ℕ) (t : Task) (d : ℕ)
        → i < n
        → s.at i ≡ running t (some d)
        → loading d n s ≡ 0
        → Works s (record s { at = update s.at i (running t none) })
    finish :
        (s : Pool) (i : ℕ) (t : Task)
        → i < n
        → s.at i ≡ running t none
        → children i n s ≡ 0
        → Works s (record s { at = update s.at i free; idle = s.idle + 1 })

  -- `sharing` says whether a task waits for a blob that another one downloads.
  pub data Step (sharing : Bool) : Pool → Pool → Type 0 where
    works : {s t : Pool} → Works s t → Step sharing s t
    background :
        (s : Pool) (t : Task) → t.parent ≡ none → Step sharing s (record s { bg = s.bg ++ t ∷ [] })
    -- `execute` with `idle_ > 0`, of a running task, and of a caller that is no worker
    post :
        (s : Pool) (i : ℕ) (p t : Task)
        → i < n
        → s.at i ≡ running p none
        → t.parent ≡ some i
        → 0 < s.idle
        → Step sharing s (record s { posting = t ∷ s.posting })
    call :
        (s : Pool) (t : Task)
        → t.parent ≡ none
        → 0 < s.idle
        → Step sharing s (record s { posting = t ∷ s.posting })
    -- a layer is among the working digests, which another task downloads
    want :
        (s : Pool) (i : ℕ) (t : Task) (d : ℕ)
        → sharing ≡ true
        → i < n
        → s.at i ≡ running t none
        → 0 < loading d n s
        → Step sharing s (record s { at = update s.at i (running t (some d)) })

  pub data Reach (sharing : Bool) : Pool → Type 0 where
    here : Reach sharing (begun n)
    next : {s t : Pool} → Reach sharing s → Step sharing s t → Reach sharing t
