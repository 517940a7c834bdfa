-- ===== src/Definitions/Cycle/Round.antt =====
-- One round of the `while` loop keeps the invariant, so the loop ends with an empty stack.
use mathlib.Core.WellFounded.{Acc}
use automation_platform.Base.{
  ℕ, zero, suc, ◌+◌, ◌≡◌, ◌≤◌, refl, Bool, true, false, ◌||◌, ◌&&◌, some, List, [], ◌∷◌, String,
  arith, ltb, leb, ◌==◌, if◌then◌else◌, inl, inr, sym, ap, ◌∙◌, subst, Bool-cases,
}
use automation_platform.Errors.{ok, ◌>>=◌}
use automation_platform.Table.{In}
use automation_platform.Texts.{
  same, same_refl, same-cases, has_text, occurrences, TextDict, get_text, text_item, Distinct,
  occurrences_present,
}
use automation_platform.Definitions.Cycle.{CreateTaskDefinition, process_ready, release_children}
use automation_platform.Definitions.Cycle.Release.{release_children_lem, item_of_get}
use automation_platform.Definitions.Cycle.Children.{task_keys, tally, tally_unique, tally_absent}
use automation_platform.Definitions.Cycle.Loop.{
  Inv, DependsOn, unprocessed, missing, unprocessed-cons, missing-cons, processed_of_zero,
  task_of_key,
}

-- The stack after a round: `c` says that the task was popped, `d` that it was processed before.
listed_step :
    (c d : Bool) (u u' o r r' : ℕ)
    → (if c then 1 else 0) + r ≡ (if d then 0 else if u == 0 then 1 else 0)
    → (d ≡ true → u ≡ 0)
    → r' ≡ r + (if ltb 0 u && leb u o then 1 else 0)
    → u' + o ≡ u
    → r' ≡ (if c || d then 0 else if u' == 0 then 1 else 0)
listed_step c d u u' o r r' l f p b = ground arith

finished_step :
    (c d : Bool) (u u' o r : ℕ)
    → (if c then 1 else 0) + r ≡ (if d then 0 else if u == 0 then 1 else 0)
    → (d ≡ true → u ≡ 0)
    → u' + o ≡ u
    → (c || d) ≡ true
    → u' ≡ 0
finished_step c d u u' o r l f b h = ground arith

module _ (ts : List CreateTaskDefinition) (distinct : Distinct (task_keys ts))
    (children : TextDict (List String))
    (kids_of : (q : String)
      → has_text q (task_keys ts) ≡ true
      → (kids : List String) × (get_text q children ≡ some kids)
        × ((j : String) → occurrences j kids ≡ tally j q ts)) where
  -- The key on top of the stack is not processed, and all that its task depends on is.
  top :
      (done : List String) (counts : TextDict ℕ) (k : String) (ready : List String) (p : ℕ)
      → Inv ts done counts (k ∷ ready) p
      → (t : CreateTaskDefinition) → In t ts
      → t.key ≡ k
      → (has_text k done ≡ false) × (unprocessed done t.dependencies ≡ 0)
  top done counts k ready p inv t i e =
      let l = inv.listed t i in
      let s : same t.key k ≡ true = subst (λ x. same t.key x ≡ true) e (same_refl t.key) in
      let n : has_text t.key done ≡ false = ground arith in
      (subst (λ x. has_text x done ≡ false) e n, ground arith)

  accessible :
      (done : List String) (counts : TextDict ℕ) (k : String) (ready : List String) (p : ℕ)
      → Inv ts done counts (k ∷ ready) p
      → Acc (DependsOn ts) k
  accessible done counts k ready p inv = Acc.intro k (λ d dep. inv.sound d (
      processed_of_zero done dep.task.dependencies
        (top done counts k ready p inv dep.task dep.among dep.named).1 d dep.listed))

  kid_is_known :
      (k : String) (kids : List String)
      → ((j : String) → occurrences j kids ≡ tally j k ts)
      → (j : String) → has_text j kids ≡ true
      → has_text j (task_keys ts) ≡ true
  kid_is_known k kids occ j h = elim (Bool-cases (has_text j (task_keys ts))) [
    | inl t ↦ t
    | inr f ↦
        let a = occurrences_present j kids h in
        let b = occ j in let c = tally_absent j k ts f in absurd (omega arith)
  ]

  round :
      (done : List String) (counts : TextDict ℕ) (k : String) (ready : List String) (p : ℕ)
      → Inv ts done counts (k ∷ ready) p
      → (kids : List String) × (counts' : TextDict ℕ) × (ready' : List String) × (text_item k
            children
          ≡ ok kids)
        × (release_children kids counts ready ≡ ok (counts', ready'))
        × Inv ts (k ∷ done) counts' ready' (p + 1)
  round done counts k ready p inv =
      let r = same_refl k in
      let key = inv.known k (ground arith) in
      let (t, i, e) = task_of_key ts k key in
      let (fresh, none_left) = top done counts k ready p inv t i e in
      let (kids, hk, occ) = kids_of k key in
      let (counts', ready', eq, rel, sub) = release_children_lem kids counts ready (λ j h.
        let (u, iu, eu) = task_of_key ts j (kid_is_known k kids occ j h) in
        (
          unprocessed done u.dependencies,
          subst (λ x. get_text x counts ≡ some (unprocessed done u.dependencies)) eu
              (inv.counted u iu),
        )) in
      let released = λ (u : CreateTaskDefinition) (iu : In u ts).
        rel u.key (unprocessed done u.dependencies) (inv.counted u iu) in
      let n =
        λ (u : CreateTaskDefinition) (iu : In u ts). occ u.key ∙ tally_unique k u ts distinct iu in
      (
        kids,
        counts',
        ready',
        item_of_get k children kids hk,
        eq,
        record {
          counted = λ u iu.
              let a = n u iu in
              let b = unprocessed-cons k done u.dependencies fresh in
              (released u iu).counter ∙ ap (λ x. some x) (omega arith);
          listed = λ u iu.
              listed_step (same u.key k) (has_text u.key done) (unprocessed done u.dependencies)
                (unprocessed (k ∷ done) u.dependencies) (occurrences u.key kids)
                (occurrences u.key ready) (occurrences u.key ready') (inv.listed u iu)
                (inv.finished u iu) (released u iu).pushed
                (let a = n u iu in
                  let b = unprocessed-cons k done u.dependencies fresh in omega arith);
          known = λ j h. elim (Bool-cases (has_text j ready)) [
            | inl a ↦ inv.known j (ground arith)
            | inr a ↦ kid_is_known k kids occ j (ground (arith, sub j h))
          ];
          finished = λ u iu h.
              finished_step (same u.key k) (has_text u.key done) (unprocessed done u.dependencies)
                (unprocessed (k ∷ done) u.dependencies) (occurrences k u.dependencies)
                (occurrences u.key ready) (inv.listed u iu) (inv.finished u iu)
                (unprocessed-cons k done u.dependencies fresh) h;
          sound = λ j h. elim (same-cases j k) [
            | inl (e, _) ↦ subst (Acc (DependsOn ts)) (sym e) (accessible done counts k ready p inv)
            | inr (_, f) ↦ inv.sound j (rw f at h)
          ];
          total =
              let m = missing-cons k done ts distinct fresh key in let t = inv.total in omega arith;
        },
      )

  -- With as much fuel as tasks are missing, the loop ends with an empty stack.
  pub process_ready_lem :
      (fuel : ℕ) (done : List String) (counts : TextDict ℕ) (ready : List String) (p : ℕ)
      → missing done ts ≤ fuel
      → Inv ts done counts ready p
      → (p' : ℕ) × (done' : List String) × (counts' : TextDict ℕ) × (process_ready fuel children
            counts ready p
          ≡ ok p')
        × Inv ts done' counts' [] p'
  unfolding process_ready
  process_ready_lem fuel done counts [] p le inv = (p, done, counts, refl, inv)
  process_ready_lem zero done counts (k ∷ ready) p le inv =
      let r = same_refl k in
      let key = inv.known k (ground arith) in
      let (t, i, e) = task_of_key ts k key in
      let m = missing-cons k done ts distinct (top done counts k ready p inv t i e).0 key in
      absurd (omega arith)
  process_ready_lem (suc fuel) done counts (k ∷ ready) p le inv =
      let r = same_refl k in
      let key = inv.known k (ground arith) in
      let (t, i, e) = task_of_key ts k key in
      let m = missing-cons k done ts distinct (top done counts k ready p inv t i e).0 key in
      let (kids, counts', ready', hk, hr, inv') = round done counts k ready p inv in
      let (p', done', last, eq, end) =
        process_ready_lem fuel (k ∷ done) counts' ready' (p + 1) (omega arith) inv' in
      (
        p',
        done',
        last,
        ap
              (λ m. m >>= λ kids. release_children kids counts ready >>= λ next.
                process_ready fuel children next.0 next.1 (p + 1))
              hk
            ∙ ap (λ m. m >>= λ next. process_ready fuel children next.0 next.1 (p + 1)) hr
            ∙ eq,
        end,
      )
