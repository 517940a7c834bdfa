-- ===== src/Launch/Grounding.antt =====
-- A started execution waits for itself only: behind each of its tasks, every chain of parents ends.
use mathlib.Core.Bool.{false≢true}
use automation_platform.Base.{
  ℕ, ◌≡◌, refl, true, none, some, List, [], ◌∷◌, ◌++◌, map, arith, sym, ap, ◌∙◌, inl, inr, ◌⊎◌,
  ◌==◌, subst, contains, Bool-cases,
}
use automation_platform.Domain.{Uuid, Time, WorkflowDefinition, TaskDefinition, TaskExecution}
use automation_platform.Errors.{ok}
use automation_platform.Table.{
  In, In-append, In-find, find-ne-none-In, find_of_In, key-find, UniqueKeys,
}
use automation_platform.Executions.{TaskRow, Store, task, task_key}
use automation_platform.Executions.Liveness.{Grounded}
use automation_platform.Launch.{prepare_start, new_ids, items, task_to_model}
use automation_platform.Launch.Lookup.{Dict, lookup, item}
use automation_platform.Launch.Ids.{lookup-item}
use automation_platform.Launch.Rows.{Executes, Executions, cons_lem}
use automation_platform.Launch.Storage.{create_lem}
use automation_platform.Launch.Start.{
  launched_workflow, prepare_start_lem, prepare_start-UniqueKeys,
}

-- The key is that of a listed task definition, as are its dependencies over any number of steps, and
-- every chain of dependencies ends.
pub data Rooted (ts : List TaskDefinition) : Uuid → Type 0 where
  rooted :
      (k : Uuid) (t : TaskDefinition)
      → In t ts
      → t.id ≡ k
      → ((d : Uuid) → contains d t.dependencies ≡ true → Rooted ts d)
      → Rooted ts k

In-models :
    (e : TaskExecution) (es : List TaskExecution)
    → In e es
    → In (task_to_model e) (map task_to_model es)
In-models e [] i = i
In-models e (x ∷ es) (inl q) = inl (ap task_to_model q)
In-models e (x ∷ es) (inr i) = inr (In-models e es i)

In-map_models :
    (r : TaskRow) (es : List TaskExecution)
    → In r (map task_to_model es)
    → (e : TaskExecution) × In e es × (r ≡ task_to_model e)
In-map_models r [] i = absurd i
In-map_models r (x ∷ es) (inl q) = (x, inl refl, q)
In-map_models r (x ∷ es) (inr i) = let (e, j, q) = In-map_models r es i in (e, inr j, q)

In-append_cases : (r : TaskRow) (xs ys : List TaskRow) → In r (xs ++ ys) → In r xs ⊎ In r ys
In-append_cases r [] ys i = inr i
In-append_cases r (x ∷ xs) ys (inl e) = inl (inl e)
In-append_cases r (x ∷ xs) ys (inr i) = elim (In-append_cases r xs ys i) [
  | inl j ↦ inl (inr j)
  | inr j ↦ inr j
]

module _ (w : Uuid) (ids : Dict Uuid) (kids : Dict (List Uuid)) where
  execution_of :
      (ts : List TaskDefinition) (es : List TaskExecution)
      → Executions w ids kids ts es
      → (t : TaskDefinition) → In t ts
      → (e : TaskExecution) × In e es × Executes w ids kids t e
  execution_of [] es x t i = absurd i
  execution_of (_ ∷ _) [] x t i = absurd x
  execution_of (y ∷ ts) (e ∷ es) (x, rest) t (inl q) =
      (e, inl refl, subst (λ u. Executes w ids kids u e) (sym q) x)
  execution_of (y ∷ ts) (e ∷ es) (x, rest) t (inr i) =
      let (u, j, q) = execution_of ts es rest t i in (u, inr j, q)

  definition_of :
      (ts : List TaskDefinition) (es : List TaskExecution)
      → Executions w ids kids ts es
      → (e : TaskExecution) → In e es
      → (t : TaskDefinition) × In t ts × Executes w ids kids t e
  definition_of [] [] x e i = absurd i
  definition_of [] (_ ∷ _) x e i = absurd x
  definition_of (_ ∷ _) [] x e i = absurd i
  definition_of (t ∷ ts) (y ∷ es) (x, rest) e (inl q) =
      (t, inl refl, subst (Executes w ids kids t) (sym q) x)
  definition_of (t ∷ ts) (y ∷ es) (x, rest) e (inr i) =
      let (u, j, q) = definition_of ts es rest e i in (u, inr j, q)

  contains-items :
      (ks vs : List Uuid) (v : Uuid)
      → items ks ids ≡ ok vs
      → contains v vs ≡ true
      → (k : Uuid) × (contains k ks ≡ true) × (lookup k ids ≡ some v)
  unfolding items
  contains-items [] vs v e c = let q : [] ≡ vs = cc in absurd (false≢true (rw (sym q) at c))
  contains-items (k ∷ ks) us v e c =
      let (x, vs, hx, hvs, eq) = cons_lem (item k ids) (items ks ids) us e in
      let c' : contains v (x ∷ vs) ≡ true = subst (λ l. contains v l ≡ true) eq c in
      elim (Bool-cases (v == x)) [
        | inl t ↦ (k, ground arith, lookup-item k ids x hx ∙ ground arith)
        | inr f ↦ let (j, m, l) = contains-items ks vs v hvs (ground arith) in (j, ground arith, l)
      ]

  module _ (s s' : Store) (ts : List TaskDefinition) (es : List TaskExecution)
      (x : Executions w ids kids ts es) (ht : s'.tasks ≡ s.tasks ++ map task_to_model es)
      (u : UniqueKeys task_key s'.tasks) where
    -- The execution of a definition is behind all that it waits for.
    Rooted-Grounded : (k : Uuid) → Rooted ts k → (i : Uuid) → lookup k ids ≡ some i → Grounded s' i
    Rooted-Grounded k (Rooted.rooted _ t m named deps) i h =
        let (e, j, ex) = execution_of ts es x t m in
        let own : some e.id ≡ some i =
          sym (lookup-item t.id ids e.id ex.own) ∙ ap (λ a. lookup a ids) named ∙ h in
        let found : task e.id s' ≡ some (task_to_model e) =
          find_of_In task_key (task_to_model e) s'.tasks u (
            subst (In (task_to_model e)) (sym ht)
              (In-append (task_to_model e) s.tasks (map task_to_model es) (In-models e es j))) in
        let same : e.id ≡ i = ground arith in
        Grounded.grounded i (task_to_model e)
          (subst (λ a. task a s' ≡ some (task_to_model e)) same found)
          (λ p c.
            let (d, cd, hd) = contains-items t.dependencies e.parent_task_ids p ex.parents c in
            Rooted-Grounded d (deps d cd) p hd)

    new-Grounded :
        ((t : TaskDefinition) → In t ts → Rooted ts t.id)
        → (i : Uuid) (r : TaskRow) → task i s ≡ none
        → task i s' ≡ some r
        → Grounded s' i
    new-Grounded ends i r n h =
        let key = key-find task_key i s'.tasks r h in
        elim (In-append_cases r s.tasks (map task_to_model es)
          (subst (In r) ht (In-find task_key i s'.tasks r h))) [
            | inl old ↦
                absurd (
                  find-ne-none-In task_key r s.tasks (subst (λ a. task a s ≡ none) (sym key) n) old)
            | inr new ↦
                let (e, j, q) = In-map_models r es new in
                let (t, m, ex) = definition_of ts es x e j in
                Rooted-Grounded t.id (ends t m) i (
                  lookup-item t.id ids e.id ex.own
                  ∙ ap (λ a. some a) (sym (ap (λ (y : TaskRow). y.id) q) ∙ key))
          ]

-- Where every chain of dependencies ends in the definition, every chain of parents from a task that a
-- start adds ends, and all tasks on it have rows.
pub prepare_start-Grounded :
    (w : Uuid) (fresh : ℕ → Uuid) (now : Time) (definition : WorkflowDefinition) (s s' : Store)
    (roots : List Uuid) (j : Uuid)
    → prepare_start w fresh now (some definition) s ≡ ok (s', roots, j)
    → UniqueKeys task_key s.tasks
    → ((t : TaskDefinition)
        → In t definition.task_definitions
        → Rooted definition.task_definitions t.id)
    → (i : Uuid) (r : TaskRow) → task i s ≡ none
    → task i s' ≡ some r
    → Grounded s' i
prepare_start-Grounded w fresh now definition s s' roots j h u ends =
    let ids = new_ids fresh 0 definition.task_definitions [] in
    let (kids, es, hk, x, er, hc, en, hi) =
      prepare_start_lem w fresh now definition s s' roots j h in
    let (free, keys, hw, ht) = create_lem (launched_workflow w now definition es) s s' hc in
    new-Grounded w ids kids s s' definition.task_definitions es x ht
      (prepare_start-UniqueKeys w fresh now definition s s' roots j h u) ends
