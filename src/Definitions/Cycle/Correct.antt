-- ===== src/Definitions/Cycle/Correct.antt =====
-- `_has_dependency_cycle` answers whether some chain of dependencies does not end.
use mathlib.Core.WellFounded.{Acc}
use automation_platform.Base.{
  ℕ, ◌≡◌, ◌↔◌, refl, Bool, true, false, not, List, [], ◌∷◌, String, arith, ◌==◌, inl, inr, sym, ap,
  ◌∙◌, subst, length,
}
use automation_platform.Errors.{ok, ◌>>=◌}
use automation_platform.Table.{In}
use automation_platform.Texts.{has_text, Distinct, TextDict}
use automation_platform.Definitions.Cycle.{
  CreateTaskDefinition, has_dependency_cycle, dependency_counts, push_ready, process_ready,
}
use automation_platform.Definitions.Cycle.Children.{task_keys, Known, children_lem}
use automation_platform.Definitions.Cycle.Loop.{
  Inv, DependsOn, unprocessed, missing, unprocessed_zero, task_of_key,
}
use automation_platform.Definitions.Cycle.Round.{process_ready_lem}
use automation_platform.Definitions.Cycle.Initial.{Inv-initial, missing-nil}

-- Every chain of dependencies from every task ends: no cycle is among the tasks.
abbrev pub Acyclic : List CreateTaskDefinition → Type 0
Acyclic ts = (t : CreateTaskDefinition) → In t ts → Acc (DependsOn ts) t.key

missing_zero :
    (done : List String) (ts : List CreateTaskDefinition)
    → missing done ts ≡ 0
    → (t : CreateTaskDefinition) → In t ts
    → has_text t.key done ≡ true
missing_zero done [] z t i = absurd i
missing_zero done (x ∷ ts) z t (inl e) =
    subst (λ y. has_text y.key done ≡ true) (sym e) (ground arith)
missing_zero done (x ∷ ts) z t (inr i) = missing_zero done ts (ground arith) t i

zero_missing :
    (done : List String) (ts : List CreateTaskDefinition)
    → ((t : CreateTaskDefinition) → In t ts → has_text t.key done ≡ true)
    → missing done ts ≡ 0
zero_missing done [] h = refl
zero_missing done (t ∷ ts) h =
    let a = h t (inl refl) in let ih = zero_missing done ts (λ u i. h u (inr i)) in ground arith

Known-In :
    (all ts : List CreateTaskDefinition)
    → Known all ts
    → (t : CreateTaskDefinition) → In t ts
    → (d : String) → has_text d t.dependencies ≡ true
    → has_text d (task_keys all) ≡ true
Known-In all [] known t i d h = absurd i
Known-In all (x ∷ ts) (k, known) t (inl e) d h =
    k d (subst (λ y. has_text d y.dependencies ≡ true) e h)
Known-In all (x ∷ ts) (k, known) t (inr i) d h = Known-In all ts known t i d h

module _ (ts : List CreateTaskDefinition) (known : Known ts ts) where
  -- With an empty stack, all tasks whose chains end are processed.
  processed_of_Acc :
      (done : List String) (counts : TextDict ℕ) (p : ℕ)
      → Inv ts done counts [] p
      → (k : String) → Acc (DependsOn ts) k
      → (t : CreateTaskDefinition) → In t ts
      → t.key ≡ k
      → has_text t.key done ≡ true
  processed_of_Acc done counts p inv k (Acc.intro _ smaller) t i e =
      let z : unprocessed done t.dependencies ≡ 0 = unprocessed_zero done t.dependencies (λ d h.
        let (u, iu, eu) = task_of_key ts d (Known-In ts ts known t i d h) in
        subst (λ x. has_text x done ≡ true) eu
          (processed_of_Acc done counts p inv d
            (smaller d (record { task = t; among = i; named = e; listed = h })) u iu eu)) in
      let l = inv.listed t i in ground arith

-- For tasks with distinct keys that depend on each other only, the check raises nothing, and it
-- finds no cycle exactly if every chain of dependencies from every task ends.
pub has_dependency_cycle_lem :
    (ts : List CreateTaskDefinition)
    → Distinct (task_keys ts)
    → Known ts ts
    → (cycle : Bool) × (has_dependency_cycle ts ≡ ok cycle) × ((cycle ≡ false) ↔ Acyclic ts)
unfolding has_dependency_cycle
has_dependency_cycle_lem ts distinct known =
    let (children, hc, kids) = children_lem ts known in
    let counts = dependency_counts ts [] in
    let (p, done, last, hp, inv) =
      process_ready_lem ts distinct children kids (length ts) [] counts (push_ready counts []) 0
        (omega (arith, missing-nil ts)) (Inv-initial ts distinct) in
    let n = inv.total in
    (
      not (p == length ts),
      ap
            (λ m. m >>= λ children.
              process_ready (length ts) children counts (push_ready counts []) 0 >>= λ p.
              ok (not (p == length ts)))
            hc
          ∙ ap (λ m. m >>= λ p. ok (not (p == length ts))) hp,
      (
        λ h t i. inv.sound t.key (missing_zero done ts (ground arith) t i),
        λ acyclic.
            let z =
              zero_missing done ts
                (λ t i. processed_of_Acc ts known done last p inv t.key (acyclic t i) t i refl) in
            ground arith,
      ),
    )
