-- ===== src/Threads/Conservation.antt =====
-- No task is lost or run twice, the idle counter is right, and `wait` may end early.
use oci_tool.Prelude.{
  ℕ, suc, ◌+◌, ◌-◌, ◌<◌, ◌≤◌, ◌≡◌, refl, ap, ◌∙◌, true, some, List, [], ◌∷◌, ◌++◌, length,
  length-append, nat_eq, arith,
}
use oci_tool.Threads.{
  Manager, start, take_task, wait_test, Step, background, post, push, inline, look, leave, take,
  miss, begin, finish, check, retry, pass, close, Reach, here, next,
}

module _ {A : Type 0} where
  -- The weights of the tasks in a list, added up.
  abbrev pub total : (A → ℕ) → List A → ℕ
  total w [] = 0
  total w (x ∷ xs) = w x + total w xs

  pub total-append : (w : A → ℕ) (xs ys : List A) → total w (xs ++ ys) ≡ total w xs + total w ys
  total-append w [] ys = omega arith
  total-append w (x ∷ xs) ys = omega (arith, total-append w xs ys)

  -- A task stands in one place of the manager.
  abbrev pub placed : (A → ℕ) → Manager A → ℕ
  placed w m =
      total w m.fg
      + total w m.bg
      + total w m.posting
      + total w m.held
      + total w m.running
      + total w m.done

  pub record Inv (n : ℕ) (m : Manager A) : Type 0 where
    pub limit : m.limit ≡ n
    pub counted : m.idle + length m.running ≡ n
    pub manned : length m.held + length m.running ≤ n
    pub staffed : m.testing + m.looking + length m.held + length m.running + m.gone ≡ n
    pub conserved : (w : A → ℕ) → total w m.submitted ≡ placed w m

  pub take_task-total :
      (w : A → ℕ) (fg bg : List A) {f : A} {fg' bg' : List A}
      → take_task A fg bg ≡ some (f, fg', bg')
      → total w fg + total w bg ≡ w f + total w fg' + total w bg'
  unfolding take_task
  take_task-total w (x ∷ fg) bg e = ground arith
  take_task-total w [] (b ∷ bg) e = ground arith
  take_task-total w [] [] e = cc

  pub split-total :
      (w : A → ℕ) (xs before after : List A) (f : A)
      → xs ≡ before ++ f ∷ after
      → total w xs ≡ w f + total w (before ++ after)
  split-total w xs before after f e =
      ap (total w) e ∙ omega (arith, total-append w before (f ∷ after), total-append w before after)

  pub split-length :
      (xs before after : List A) (f : A)
      → xs ≡ before ++ f ∷ after
      → length xs ≡ suc (length (before ++ after))
  split-length xs before after f e =
      ap length e ∙ omega (arith, length-append before (f ∷ after), length-append before after)

  Step-Inv : {n : ℕ} {s t : Manager A} → Step A s t → Inv n s → Inv n t
  Step-Inv (background m f) v = record {
    limit = v.limit;
    counted = v.counted;
    manned = v.manned;
    staffed = v.staffed;
    conserved = λ w. omega (arith, v.conserved w, total-append w m.bg (f ∷ []));
  }
  Step-Inv (post m f idle) v = record {
    limit = v.limit;
    counted = v.counted;
    manned = v.manned;
    staffed = v.staffed;
    conserved = λ w. omega (arith, v.conserved w);
  }
  Step-Inv (push m f before after e) v = record {
    limit = v.limit;
    counted = v.counted;
    manned = v.manned;
    staffed = v.staffed;
    conserved = λ w. omega (
      arith,
      v.conserved w,
      split-total w m.posting before after f e,
      total-append w m.fg (f ∷ []),
    );
  }
  Step-Inv (inline m f busy) v = record {
    limit = v.limit;
    counted = v.counted;
    manned = v.manned;
    staffed = v.staffed;
    conserved = λ w. omega (arith, v.conserved w);
  }
  Step-Inv (take m f fg bg room e) v = record {
    limit = v.limit;
    counted = v.counted;
    manned = omega (arith, v.staffed);
    staffed = omega (arith, v.staffed);
    conserved = λ w. omega (arith, v.conserved w, take_task-total w m.fg m.bg e);
  }
  Step-Inv (look m some_left going) v = record {
    limit = v.limit;
    counted = v.counted;
    manned = v.manned;
    staffed = omega (arith, v.staffed);
    conserved = v.conserved;
  }
  Step-Inv (leave m some_left closed) v = record {
    limit = v.limit;
    counted = v.counted;
    manned = v.manned;
    staffed = omega (arith, v.staffed);
    conserved = v.conserved;
  }
  Step-Inv (miss m some_left none_there) v = record {
    limit = v.limit;
    counted = v.counted;
    manned = v.manned;
    staffed = omega (arith, v.staffed);
    conserved = v.conserved;
  }
  Step-Inv (check m going e) v = record {
    limit = v.limit;
    counted = v.counted;
    manned = v.manned;
    staffed = v.staffed;
    conserved = v.conserved;
  }
  Step-Inv (retry m going e) v = record {
    limit = v.limit;
    counted = v.counted;
    manned = v.manned;
    staffed = v.staffed;
    conserved = v.conserved;
  }
  Step-Inv (pass m going e q) v = record {
    limit = v.limit;
    counted = v.counted;
    manned = v.manned;
    staffed = v.staffed;
    conserved = v.conserved;
  }
  Step-Inv (close m going e) v = record {
    limit = v.limit;
    counted = v.counted;
    manned = v.manned;
    staffed = v.staffed;
    conserved = v.conserved;
  }
  Step-Inv (begin m f before after e) v = record {
    limit = v.limit;
    counted = omega (arith, v.counted, v.manned, split-length m.held before after f e);
    manned = omega (arith, v.manned, split-length m.held before after f e);
    staffed = omega (arith, v.staffed, split-length m.held before after f e);
    conserved = λ w. omega (arith, v.conserved w, split-total w m.held before after f e);
  }
  Step-Inv (finish m f before after e) v = record {
    limit = v.limit;
    counted = omega (arith, v.counted, split-length m.running before after f e);
    manned = omega (arith, v.manned, split-length m.running before after f e);
    staffed = omega (arith, v.staffed, split-length m.running before after f e);
    conserved = λ w. omega (arith, v.conserved w, split-total w m.running before after f e);
  }

  -- In every state of the thread manager that is reached from the start with n workers, however
  -- callers and workers interleave: the idle counter and the number of running tasks add up to n,
  -- workers have at most n tasks, and for every weighing of the tasks those submitted weigh as
  -- much as those queued, posted, held, running and done together.
  pub Reach-Inv : {n : ℕ} {m : Manager A} → Reach A n m → Inv n m
  Reach-Inv here = record {
    limit = refl;
    counted = omega arith;
    manned = omega arith;
    staffed = omega arith;
    conserved = λ w. refl;
  }
  Reach-Inv (next r st) = Step-Inv st (Reach-Inv r)

  -- One task is in the background queue.
  abbrev given : ℕ → A → Manager A
  given n f = record (start A n) { bg = f ∷ []; submitted = f ∷ [] }

  -- A worker has taken it.
  abbrev pub early : ℕ → A → Manager A
  early n f = record (start A n) { held = f ∷ []; submitted = f ∷ []; testing = n - 1 }

  pub early-Reach : (n : ℕ) (f : A) → 0 < n → Reach A n (early n f)
  unfolding take_task
  early-Reach n f h =
      next (next (next here (background (start A n) f)) (look (given n f) h refl))
        (take (record (given n f) { testing = n - 1; looking = 1 }) f [] [] (omega arith) refl)

  pub early-waits : (n : ℕ) (f : A) → wait_test A (early n f) (early n f) ≡ true
  unfolding wait_test
  early-waits n f = ground arith

  -- For any positive number of workers and any task there is a reachable state in which both tests
  -- of `wait` succeed while the only submitted task is held by a worker and has not begun.
  pub wait_test-early :
      (n : ℕ) (f : A)
      → 0 < n
      → (m : Manager A) × Reach A n m
        × (wait_test A m m ≡ true)
        × (m.submitted ≡ f ∷ [])
        × (m.held ≡ f ∷ [])
        × (m.done ≡ [])
  wait_test-early n f h = (early n f, early-Reach n f h, early-waits n f, refl, refl, refl)
