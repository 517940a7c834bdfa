-- ===== src/Definitions/Cycle/Loop.antt =====
-- The `while` loop of Kahn's algorithm, with the keys that it has processed as a ghost list.
use mathlib.Core.Bool.{false≢true}
use mathlib.Core.WellFounded.{Acc}
use automation_platform.Base.{
  ℕ, ◌+◌, ◌≡◌, refl, true, false, some, List, [], ◌∷◌, String, arith, ◌==◌, if◌then◌else◌, inl, inr,
  sym, ◌∙◌, subst, length,
}
use automation_platform.Table.{In}
use automation_platform.Texts.{
  same, same_refl, same-cases, same_sym, has_text, occurrences, TextDict, get_text, Distinct,
}
use automation_platform.Definitions.Cycle.{CreateTaskDefinition}
use automation_platform.Definitions.Cycle.Children.{task_keys}

-- How many of the dependencies, with repetitions, are not processed.
abbrev pub unprocessed : List String → List String → ℕ
unprocessed done [] = 0
unprocessed done (d ∷ ds) = (if has_text d done then 0 else 1) + unprocessed done ds

-- How many of the tasks are not processed.
abbrev pub missing : List String → List CreateTaskDefinition → ℕ
missing done [] = 0
missing done (t ∷ ts) = (if has_text t.key done then 0 else 1) + missing done ts

-- The task with the key `k` depends on the key `d`.
pub record DependsOn (ts : List CreateTaskDefinition) (d k : String) : Type 0 where
  pub task : CreateTaskDefinition
  pub among : In task ts
  pub named : task.key ≡ k
  pub listed : has_text d task.dependencies ≡ true

pub unprocessed-cons :
    (k : String) (done ds : List String)
    → has_text k done ≡ false
    → unprocessed (k ∷ done) ds + occurrences k ds ≡ unprocessed done ds
unprocessed-cons k done [] h = omega arith
unprocessed-cons k done (d ∷ ds) h =
    let ih = unprocessed-cons k done ds h in
    let y = same_sym d k in
    elim (same-cases k d) [
      | inl (e, t) ↦
          let q : has_text d done ≡ false = subst (λ x. has_text x done ≡ false) e h in ground arith
      | inr (_, f) ↦ ground arith
    ]

missing_same :
    (k : String) (done : List String) (ts : List CreateTaskDefinition)
    → has_text k (task_keys ts) ≡ false
    → missing (k ∷ done) ts ≡ missing done ts
missing_same k done [] h = refl
missing_same k done (t ∷ ts) h = let y = same_sym t.key k in ground (arith, missing_same k done ts)

pub missing-cons :
    (k : String) (done : List String) (ts : List CreateTaskDefinition)
    → Distinct (task_keys ts)
    → has_text k done ≡ false
    → has_text k (task_keys ts) ≡ true
    → missing (k ∷ done) ts + 1 ≡ missing done ts
missing-cons k done [] u n h = absurd (false≢true h)
missing-cons k done (t ∷ ts) (x, u) n h =
    let y = same_sym t.key k in
    elim (same-cases k t.key) [
      | inl (e, b) ↦
          let q : has_text t.key done ≡ false = subst (λ x. has_text x done ≡ false) e n in
          let z =
            missing_same k done ts (subst (λ x. has_text x (task_keys ts) ≡ false) (sym e) x) in
          let c : same t.key k ≡ true = y ∙ b in rw (c, q) (omega arith)
      | inr (_, f) ↦
          let i : has_text k (task_keys ts) ≡ true = rw f at h in
          let ih = missing-cons k done ts u n i in
          let c : same t.key k ≡ false = y ∙ f in rw c (omega arith)
    ]

pub unprocessed_zero :
    (done ds : List String)
    → ((d : String) → has_text d ds ≡ true → has_text d done ≡ true)
    → unprocessed done ds ≡ 0
unprocessed_zero done [] h = refl
unprocessed_zero done (d ∷ ds) h =
    let r = same_refl d in
    let i = h d (ground arith) in
    let ih = unprocessed_zero done ds (λ x y. h x (ground arith)) in rw i (omega (arith, ih))

pub processed_of_zero :
    (done ds : List String)
    → unprocessed done ds ≡ 0
    → (d : String) → has_text d ds ≡ true
    → has_text d done ≡ true
processed_of_zero done [] z d h = absurd (false≢true h)
processed_of_zero done (x ∷ ds) z d h = elim (same-cases d x) [
  | inl (e, t) ↦ subst (λ y. has_text y done ≡ true) (sym e) (ground arith)
  | inr (_, f) ↦ processed_of_zero done ds (ground arith) d (rw f at h)
]

pub task_of_key :
    (ts : List CreateTaskDefinition) (k : String)
    → has_text k (task_keys ts) ≡ true
    → (t : CreateTaskDefinition) × In t ts × (t.key ≡ k)
task_of_key [] k h = absurd (false≢true h)
task_of_key (t ∷ ts) k h = elim (same-cases k t.key) [
  | inl (e, _) ↦ (t, inl refl, sym e)
  | inr (_, f) ↦ let (u, i, e) = task_of_key ts k (rw f at h) in (u, inr i, e)
]

pub record Inv (ts : List CreateTaskDefinition) (done : List String) (counts : TextDict ℕ)
    (ready : List String) (processed : ℕ) : Type 0 where
  pub counted :
      (t : CreateTaskDefinition)
      → In t ts
      → get_text t.key counts ≡ some (unprocessed done t.dependencies)
  -- on the stack, once each: the tasks that are not processed and wait for none
  pub listed :
      (t : CreateTaskDefinition)
      → In t ts
      → occurrences t.key ready
        ≡ (if has_text t.key done then 0 else if unprocessed done t.dependencies == 0 then 1 else 0)
  pub known : (k : String) → has_text k ready ≡ true → has_text k (task_keys ts) ≡ true
  pub finished :
      (t : CreateTaskDefinition)
      → In t ts
      → has_text t.key done ≡ true
      → unprocessed done t.dependencies ≡ 0
  pub sound : (k : String) → has_text k done ≡ true → Acc (DependsOn ts) k
  pub total : processed + missing done ts ≡ length ts
