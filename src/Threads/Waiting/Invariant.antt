-- ===== src/Threads/Waiting/Invariant.antt =====
-- What the workers of include/gobha/SimpleThreadManager.hpp keep under tasks that wait for their own tasks
-- alone.
use oci_tool.Prelude.{
  ℕ, ◌+◌, ◌-◌, ◌<◌, ◌≤◌, ◌≡◌, ◌≢◌, refl, sym, ap, subst, ◌∙◌, false, none, some, List, [], ◌∷◌,
  ◌++◌, nat_eq, ◌==◌, inl, inr, Bool-cases, arith,
}
use oci_tool.Threads.Conservation.{total-append}
use oci_tool.Threads.Waiting.Family.{
  update, update-cases, sum, sum-update, sum-le, sum-le_count, sum-zeros,
}
use oci_tool.Threads.Waiting.{
  Task, Place, free, held, running, Pool, begun, is, place_weight, children, Works, push, take,
  begin, go_on, finish, Step, works, background, post, call, want, Reach, here, next,
}
use oci_tool.Threads.Waiting.Counts.{
  Works-weigh, runs, waits, waiting, waits-le, waits-le_runs, runs-le, Inv,
}

module _ (n : ℕ) where
  -- A worker that has changed its place.
  moved-waits :
      (f : ℕ → Place) (i : ℕ) (p : Place) (j k k' : ℕ)
      → k ≤ k'
      → (i ≡ j → waits k p ≡ 0)
      → waits k (update f i p j) ≤ waits k' (f j)
  moved-waits f i p j k k' h last = elim (update-cases f i p j) [
    | inl (same, e) ↦ rw e (omega (arith, last same))
    | inr e ↦ rw e (waits-le k k' (f j) h)
  ]

  moved-selfish :
      (f : ℕ → Place) (i : ℕ) (p : Place)
      → ((d : ℕ) (t : Task) → p ≢ running t (some d))
      → ((j d : ℕ) (t : Task) → f j ≢ running t (some d))
      → (j d : ℕ) (t : Task) → update f i p j ≢ running t (some d)
  moved-selfish f i p new old j d t = elim (update-cases f i p j) [
    | inl (same, e) ↦ rw e (new d t)
    | inr e ↦ rw e (old j d t)
  ]

  no_weight : {a b : ℕ} → a ≤ b → b ≡ 0 → a ≡ 0
  no_weight h e = omega (arith, h, e)

  abbrev with_place : Pool → ℕ → List Task → List Task → ℕ → Place → Pool
  with_place s idle fg bg i p = record s { idle = idle; fg = fg; bg = bg; at = update s.at i p }

  -- A step of one worker keeps the invariant, if the worker waits for nothing in its new place.
  moved-Inv :
      {s : Pool} (idle : ℕ) (fg bg : List Task) (i : ℕ) (p : Place)
      → Works n s (with_place s idle fg bg i p)
      → Inv n s
      → idle + sum n (λ j. runs (update s.at i p j)) ≡ n
      → ((d : ℕ) (t : Task) → p ≢ running t (some d))
      → waits (children i n (with_place s idle fg bg i p)) p ≡ 0
      → (runs p ≡ 0 → children i n (with_place s idle fg bg i p) ≡ 0)
      → Inv n (with_place s idle fg bg i p)
  moved-Inv {s} idle fg bg i p st v counted selfish ready none_of_its = record {
    counted = counted;
    unblocked = omega (
      arith,
      v.unblocked,
      sum-le n _ (waiting n s) λ j. moved-waits s.at i p j _ _ (fewer j) (ready_at j),
    );
    selfish = moved-selfish s.at i p selfish v.selfish;
    quiet = λ j still. elim (update-cases s.at i p j) [
      | inl (same, e) ↦ subst (λ k. children k n t ≡ 0) same (none_of_its (sym (ap runs e) ∙ still))
      | inr e ↦ no_weight (fewer j) (v.quiet j (sym (ap runs e) ∙ still))
    ];
  }
    where
      t : Pool
      t = with_place s idle fg bg i p

      fewer : (j : ℕ) → children j n t ≤ children j n s
      fewer j = Works-weigh (λ t. is j t.parent) n st

      ready_at : (j : ℕ) → i ≡ j → waits (children j n t) p ≡ 0
      ready_at j same = subst (λ k. waits (children k n t) p ≡ 0) same ready

  Works-Inv : {s t : Pool} → Works n s t → Inv n s → Inv n t
  Works-Inv (push s t before after e) v =
      let st = push s t before after e in
      record {
        counted = v.counted;
        unblocked = omega (
          arith,
          v.unblocked,
          sum-le n _ (waiting n s)
              (λ j. waits-le _ _ (s.at j) (Works-weigh (λ t. is j t.parent) n st)),
        );
        selfish = v.selfish;
        quiet = λ j still. no_weight (Works-weigh (λ t. is j t.parent) n st) (v.quiet j still);
      }
  Works-Inv (take s i t fg bg lt at e) v =
      let st = take s i t fg bg lt at e in
      moved-Inv s.idle fg bg i (held t) st v
        (omega (arith, v.counted, sum-update runs s.at i (held t) n lt, ap runs at))
        (λ d t' e'. absurd (cc e'))
        (omega
          (arith, waits-le_runs (children i n (with_place s s.idle fg bg i (held t))) (held t)))
        (λ still. no_weight (Works-weigh (λ t. is i t.parent) n st) (v.quiet i (ap runs at)))
  Works-Inv (begin s i t lt at) v =
      let st = begin s i t lt at in
      let none_yet = no_weight (Works-weigh (λ t. is i t.parent) n st) (v.quiet i (ap runs at)) in
      moved-Inv (s.idle - 1) s.fg s.bg i (running t none) st v
        (omega (
          arith,
          v.counted,
          sum-update runs s.at i (running t none) n lt,
          ap runs at,
          sum-le_count n (λ j. runs (update s.at i (running t none) j)) (λ j. runs-le _),
        ))
        (λ d t' e'. absurd (cc e')) (ap (λ k. waits k (running t none)) none_yet)
        (λ still. none_yet)
  Works-Inv (go_on s i t d lt at done) v = absurd (v.selfish i d t at)
  Works-Inv (finish s i t lt at done) v =
      let st = finish s i t lt at done in
      let none_left = no_weight (Works-weigh (λ t. is i t.parent) n st) done in
      moved-Inv (s.idle + 1) s.fg s.bg i free st v
        (omega (arith, v.counted, sum-update runs s.at i free n lt, ap runs at))
        (λ d t' e'. absurd (cc e'))
        (omega
          (arith, waits-le_runs (children i n (with_place s (s.idle + 1) s.fg s.bg i free)) free))
        (λ still. none_left)

  -- A task that nobody of the workers waits for.
  unclaimed : (j : ℕ) (t : Task) → t.parent ≡ none → is j t.parent ≡ 0
  unclaimed j t e = ap (is j) e

  -- A step that only hands in a task for which no worker waits.
  handed-Inv :
      {s : Pool} (bg posting : List Task)
      → ((j : ℕ) → children j n (record s { bg = bg; posting = posting }) ≡ children j n s)
      → Inv n s
      → Inv n (record s { bg = bg; posting = posting })
  handed-Inv {s} bg posting same v = record {
    counted = v.counted;
    unblocked = omega (
      arith,
      v.unblocked,
      sum-le n (waiting n (record s { bg = bg; posting = posting })) (waiting n s) λ j.
          waits-le (children j n (record s { bg = bg; posting = posting })) (children j n s)
            (s.at j) (omega (arith, same j)),
    );
    selfish = v.selfish;
    quiet = λ j still. same j ∙ v.quiet j still;
  }

  Step-Inv : {s t : Pool} → Step n false s t → Inv n s → Inv n t
  Step-Inv (works w) v = Works-Inv w v
  Step-Inv (background s t e) v =
      handed-Inv (s.bg ++ t ∷ []) s.posting
        (λ j. omega (arith, total-append (λ t. is j t.parent) s.bg (t ∷ []), unclaimed j t e)) v
  Step-Inv (call s t e idle) v =
      handed-Inv s.bg (t ∷ s.posting) (λ j. omega (arith, unclaimed j t e)) v
  Step-Inv (post s i p t lt at e idle) v = record {
    counted = v.counted;
    unblocked = omega (
      arith,
      v.counted,
      sum-le n (waiting n (record s { posting = t ∷ s.posting })) (λ j. runs (s.at j))
          (λ j. waits-le_runs _ (s.at j)),
    );
    selfish = v.selfish;
    quiet = λ j still. omega (arith, v.quiet j still, not_its j still);
  }
    where
      not_its : (j : ℕ) → runs (s.at j) ≡ 0 → is j t.parent ≡ 0
      not_its j still = elim (Bool-cases (j == i)) [
        | inl same ↦
            let its : j ≡ i = ground (arith, same) in
            absurd (omega (arith, still, ap (λ k. runs (s.at k)) its, ap runs at))
        | inr other ↦ rw e (rw other refl)
      ]
  Step-Inv (want s i t d share lt at there) v = absurd (cc share)

  pub Reach-Inv : {s : Pool} → 0 < n → Reach n false s → Inv n s
  Reach-Inv some_worker here = record {
    counted = omega (arith, sum-zeros n (λ j. runs free) (λ j. refl));
    unblocked = omega (arith, some_worker, sum-zeros n (waiting n (begun n)) (λ j. no_wait j));
    selfish = λ i d t e. absurd (cc e);
    quiet = λ j still. nothing j;
  }
    where
      nothing : (j : ℕ) → children j n (begun n) ≡ 0
      nothing j =
          omega (arith, sum-zeros n (λ k. place_weight (λ t. is j t.parent) free) (λ k. refl))

      no_wait : (j : ℕ) → waiting n (begun n) j ≡ 0
      no_wait j = ap (λ k. waits k free) (nothing j)
  Reach-Inv some_worker (next r st) = Step-Inv st (Reach-Inv some_worker r)
