-- ===== src/Catalog/Fitting.antt =====
-- The tasks of a new workflow definition, each listed after those that it depends on, can be saved.
use automation_platform.Base.{
  ◌≡◌, refl, Bool, true, false, ◌&&◌, ◌||◌, List, [], ◌∷◌, ◌++◌, map, any, String, contains, arith,
  ◌==◌, inl, inr, ◌∙◌, subst, Bool-cases,
}
use automation_platform.Domain.{Uuid, TaskDefinition}
use automation_platform.Texts.{same, same_refl, same-cases, has_text, Distinct}
use automation_platform.Catalog.{
  TaskDefinitionRow, DependencyRow, task_to_model, dependency_to_model, dependencies_to_models,
  clashes, equal_dependency,
}
use automation_platform.Catalog.Order.{ids_of, AllFit}
use automation_platform.Catalog.Saving.{stored, stored-append, from_task, Insertable, Fits}

-- No identifier occurs twice.
abbrev pub Once : List Uuid → Type 0
Once [] = Unit
Once (k ∷ ks) = (contains k ks ≡ false) × Once ks

-- Each task depends on tasks that are listed before it, on each of them once.
abbrev pub Ordered : List Uuid → List TaskDefinition → Type 0
Ordered seen [] = Unit
Ordered seen (t ∷ ts) =
    ((k : Uuid) → contains k t.dependencies ≡ true → contains k seen ≡ true)
    × Once t.dependencies
    × Ordered (t.id ∷ seen) ts

abbrev pub names_of : List TaskDefinition → List String
names_of = map (λ t. t.key)

-- The workflow has a row with the key.
abbrev taken : Uuid → String → List TaskDefinitionRow → Bool
taken w k rows = any (λ (r : TaskDefinitionRow). r.workflow_definition_id == w && same r.key k) rows

pub any-append :
    {A : Type 0} (p : A → Bool) (xs ys : List A) → any p (xs ++ ys) ≡ (any p xs || any p ys)
any-append p [] ys = refl
any-append p (x ∷ xs) ys = ground (arith, any-append p xs ys)

no_clash :
    (w : Uuid) (t : TaskDefinition) (rows : List TaskDefinitionRow)
    → taken w t.key rows ≡ false
    → any (clashes (task_to_model w t)) rows ≡ false
no_clash w t [] h = refl
no_clash w t (x ∷ rows) h = let ih = no_clash w t rows (ground arith) in ground arith

new_dependency :
    (i k : Uuid) (deps : List DependencyRow)
    → from_task i deps ≡ false
    → any (equal_dependency (dependency_to_model i k)) deps ≡ false
new_dependency i k [] h = refl
new_dependency i k (d ∷ deps) h = let ih = new_dependency i k deps (ground arith) in ground arith

dependencies-Insertable :
    (i : Uuid) (ks : List Uuid) (rows : List TaskDefinitionRow) (deps : List DependencyRow)
    → stored i rows ≡ true
    → ((k : Uuid) → contains k ks ≡ true → stored k rows ≡ true)
    → ((k : Uuid)
        → contains k ks ≡ true
        → any (equal_dependency (dependency_to_model i k)) deps ≡ false)
    → Once ks
    → Insertable (map (dependency_to_model i) ks) rows deps
dependencies-Insertable i [] rows deps a b n o = tt
dependencies-Insertable i (k ∷ ks) rows deps a b n (o, os) = (
  n k (ground arith),
  a,
  b k (ground arith),
  dependencies-Insertable i ks rows (deps ++ dependency_to_model i k ∷ []) a
      (λ j h. b j (ground arith))
      (λ j h.
        let m = n j (ground arith) in
        let e : (k == j) ≡ false = elim (Bool-cases (k == j)) [
          | inl q ↦
              let eq : k ≡ j = ground arith in
              let c : contains j ks ≡ false = subst (λ x. contains x ks ≡ false) eq o in cc
          | inr q ↦ q
        ] in
        any-append (equal_dependency (dependency_to_model i j)) deps (dependency_to_model i k ∷ [])
        ∙ ground arith)
      os,
)

from_other :
    (i j : Uuid) (ks : List Uuid)
    → (i == j) ≡ false
    → from_task j (map (dependency_to_model i) ks) ≡ false
from_other i j [] h = refl
from_other i j (k ∷ ks) h = ground (arith, from_other i j ks h)

pub other_id :
    (i j : Uuid) (ks : List Uuid) → contains i ks ≡ false → contains j ks ≡ true → (i == j) ≡ false
other_id i j ks n h = elim (Bool-cases (i == j)) [
  | inl q ↦
      let eq : i ≡ j = ground arith in
      let c : contains j ks ≡ false = subst (λ x. contains x ks ≡ false) eq n in cc
  | inr q ↦ q
]

other_text :
    (a b : String) (ks : List String)
    → has_text a ks ≡ false
    → has_text b ks ≡ true
    → same a b ≡ false
other_text a b ks n h = elim (same-cases a b) [
  | inl (e, t) ↦ let c : has_text b ks ≡ false = subst (λ x. has_text x ks ≡ false) e n in cc
  | inr (_, f) ↦ f
]

stored_kept :
    (k : Uuid) (rows more : List TaskDefinitionRow)
    → stored k rows ≡ true
    → stored k (rows ++ more) ≡ true
stored_kept k rows more h = stored-append k rows more ∙ ground arith

pub Ordered-Fits :
    (w : Uuid) (seen : List Uuid) (ts : List TaskDefinition) (pending : List DependencyRow)
    (rows : List TaskDefinitionRow) (deps : List DependencyRow)
    → Insertable pending rows deps
    → ((i : Uuid) → contains i (ids_of ts) ≡ true → stored i rows ≡ false)
    → ((k : String) → has_text k (names_of ts) ≡ true → taken w k rows ≡ false)
    → ((i : Uuid) → contains i (ids_of ts) ≡ true → from_task i (deps ++ pending) ≡ false)
    → ((k : Uuid) → contains k seen ≡ true → stored k rows ≡ true)
    → Once (ids_of ts)
    → Distinct (names_of ts)
    → Ordered seen ts
    → AllFit ts
    → Fits w ts pending rows deps
Ordered-Fits w seen [] pending rows deps ins new free clean known once names ordered fit = ins
Ordered-Fits w seen (t ∷ ts) pending rows deps ins new free clean known (o, once) (n, names)
      (before, single, ordered) fit =
    let r = task_to_model w t in
    let s = same_refl t.key in
    let grown = λ (i : Uuid). stored-append i rows (r ∷ []) in
    let own : stored t.id (rows ++ r ∷ []) ≡ true = grown t.id ∙ ground arith in
    let fresh = clean t.id (ground arith) in
    (
      ins,
      new t.id (ground arith),
      fit t (inl refl),
      no_clash w t rows (free t.key (ground arith)),
      fresh,
      Ordered-Fits w (t.id ∷ seen) ts (dependencies_to_models t) (rows ++ r ∷ []) (deps ++ pending)
          (dependencies-Insertable t.id t.dependencies (rows ++ r ∷ []) (deps ++ pending) own
            (λ k h. stored_kept k rows (r ∷ []) (known k (before k h)))
            (λ k h. new_dependency t.id k (deps ++ pending) fresh) single)
          (λ i h.
            let a = new i (ground arith) in
            let d = other_id t.id i (ids_of ts) o h in grown i ∙ ground arith)
          (λ k h.
            let a = free k (ground arith) in
            let d = other_text t.key k (names_of ts) n h in
            any-append (λ (x : TaskDefinitionRow). x.workflow_definition_id == w && same x.key k)
              rows (r ∷ [])
            ∙ ground arith)
          (λ i h.
            let a = clean i (ground arith) in
            let d = from_other t.id i t.dependencies (other_id t.id i (ids_of ts) o h) in
            any-append (λ (x : DependencyRow). x.task_definition_id == i) (deps ++ pending)
              (dependencies_to_models t)
            ∙ ground arith)
          (λ k h. elim (Bool-cases (k == t.id)) [
            | inl q ↦
                let e : t.id ≡ k = ground arith in
                subst (λ x. stored x (rows ++ r ∷ []) ≡ true) e own
            | inr q ↦ stored_kept k rows (r ∷ []) (known k (ground arith))
          ])
          once names ordered (λ x i. fit x (inr i)),
    )
