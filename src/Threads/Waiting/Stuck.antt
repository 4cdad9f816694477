-- ===== src/Threads/Waiting/Stuck.antt =====
-- States that the workers of include/gobha/SimpleThreadManager.hpp never leave.
use oci_tool.Prelude.{
  ℕ, ◌<◌, ◌≡◌, ◌≢◌, sym, ap, subst, ◌∙◌, true, Option, none, some, List, [], ◌∷◌, ◌++◌, nat_eq, inl,
  inr, arith,
}
use oci_tool.Threads.Conservation.{total-append}
use oci_tool.Threads.Waiting.Family.{update, update-cases, sum-update}
use oci_tool.Threads.Waiting.{
  Task, running, Pool, is, place_weight, weigh, children, loading, Works, push, take, begin, go_on,
  finish, Step, works, background, post, call, want,
}

module _ (n : ℕ) where
  -- Every worker runs a task, and waits for one that has not begun.
  pub record Stuck (s : Pool) : Type 0 where
    pub nothing_posted : s.posting ≡ []
    pub all_busy : s.idle ≡ 0
    pub waiting : (i : ℕ) → i < n → (t : Task) × (o : Option ℕ) × (s.at i ≡ running t o)
    pub own : (i : ℕ) (t : Task) → i < n → s.at i ≡ running t none → 0 < children i n s
    pub shared : (i d : ℕ) (t : Task) → s.at i ≡ running t (some d) → 0 < loading d n s

  no_push :
      (s : Pool) (t : Task) (before after : List Task)
      → s.posting ≡ []
      → s.posting ≢ before ++ t ∷ after
  no_push s t [] after none_there e = absurd (cc (none_there, e))
  no_push s t (b ∷ before) after none_there e = absurd (cc (none_there, e))

  pub Stuck-works : {s t : Pool} → Stuck s → ¬ Works n s t
  Stuck-works v (push s t before after e) = absurd (no_push s t before after v.nothing_posted e)
  Stuck-works v (take s i t fg bg lt at e) =
      let (t', o, at') = v.waiting i lt in absurd (cc (at, at'))
  Stuck-works v (begin s i t lt at) = let (t', o, at') = v.waiting i lt in absurd (cc (at, at'))
  Stuck-works v (go_on s i t d lt at done) = absurd (omega (arith, done, v.shared i d t at))
  Stuck-works v (finish s i t lt at done) = absurd (omega (arith, done, v.own i t lt at))

  Stuck-Step : {s t : Pool} → Stuck s → Step n true s t → Stuck t
  Stuck-Step v (works w) = absurd (Stuck-works v w)
  Stuck-Step v (background s t e) = record {
    nothing_posted = v.nothing_posted;
    all_busy = v.all_busy;
    waiting = v.waiting;
    own = λ i p lt at.
        omega (arith, v.own i p lt at, total-append (λ t. is i t.parent) s.bg (t ∷ []));
    shared = λ i d p at.
        omega (arith, v.shared i d p at, total-append (λ t. is d t.digest) s.bg (t ∷ []));
  }
  Stuck-Step v (post s i p t lt at e idle) = absurd (omega (arith, idle, v.all_busy))
  Stuck-Step v (call s t e idle) = absurd (omega (arith, idle, v.all_busy))
  Stuck-Step v (want s i t d share lt at there) = record {
    nothing_posted = v.nothing_posted;
    all_busy = v.all_busy;
    waiting = λ j lt'. elim (update-cases s.at i (running t (some d)) j) [
      | inl (same, e) ↦ (t, some d, e)
      | inr e ↦ let (t', o, at') = v.waiting j lt' in (t', o, e ∙ at')
    ];
    own = λ j p lt' at'. elim (update-cases s.at i (running t (some d)) j) [
      | inl (same, e) ↦ absurd (cc (e, at'))
      | inr e ↦ omega (arith, v.own j p lt' (sym e ∙ at'), heavy (λ t. is j t.parent))
    ];
    shared = λ j d' p at'. elim (update-cases s.at i (running t (some d)) j) [
      | inl (same, e) ↦
          let same_blob : d ≡ d' = cc (e, at') in
          subst (λ (x : ℕ). 0 < loading x n (record s { at = update s.at i (running t (some d)) }))
            same_blob (omega (arith, there, heavy (λ t. is d t.digest)))
      | inr e ↦ omega (arith, v.shared j d' p (sym e ∙ at'), heavy (λ t. is d' t.digest))
    ];
  }
    where
      heavy :
          (w : Task → ℕ)
          → weigh w n (record s { at = update s.at i (running t (some d)) }) ≡ weigh w n s
      heavy w = omega (
        arith,
        sum-update (place_weight w) s.at i (running t (some d)) n lt,
        ap (place_weight w) at,
      )

  -- What can become of a pool.
  pub data Later (s : Pool) : Pool → Type 0 where
    now : Later s s
    after : {t u : Pool} → Later s t → Step n true t u → Later s u

  pub Stuck-Later : {s t : Pool} → Stuck s → Later s t → Stuck t
  Stuck-Later v now = v
  Stuck-Later v (after l st) = Stuck-Step (Stuck-Later v l) st
