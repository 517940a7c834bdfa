-- ===== src/Catalog/Deletion.antt =====
-- A workflow definition with a dependency cannot be deleted.
use mathlib.Core.Bool.{false≢true}
use automation_platform.Base.{
  ◌≡◌, refl, true, ◌&&◌, ◌||◌, Option, none, some, List, [], ◌∷◌, map, any, filter_by, contains,
  arith, ◌==◌, inl, inr, sym, ap, ◌∙◌, subst, Bool-cases,
}
use automation_platform.Domain.{Uuid, TaskDefinition, WorkflowDefinition}
use automation_platform.Errors.{ok, raised, integrity_error}
use automation_platform.Table.{find, In, key-find}
use automation_platform.Executions.{WorkflowRow}
use automation_platform.Catalog.{
  Catalog, DefinitionRow, TaskDefinitionRow, DependencyRow, row_key, task_to_domain,
  workflow_to_domain, trigger_to_domain, dependency_lookup, load, delete, delete_found,
  delete_tasks, mentions,
}
use automation_platform.Triggers.{TriggerRow}

-- A dependency that is looked up is a row.
lookup-any :
    (i k : Uuid) (rows : List DependencyRow)
    → contains k (
        map
          (λ (r : DependencyRow). r.depends_on_task_definition_id)
          (filter_by (λ (r : DependencyRow). r.task_definition_id == i) rows))
      ≡ true
    → any
        (λ (d : DependencyRow). d.task_definition_id == i || d.depends_on_task_definition_id == i)
        rows
      ≡ true
lookup-any i k [] h = absurd (false≢true h)
lookup-any i k (r ∷ rows) h = elim (Bool-cases (r.task_definition_id == i)) [
  | inl t ↦ rw t refl
  | inr f ↦ rw f (let ih = lookup-any i k rows (rw f at h) in ground arith)
]

mentions_of_loaded :
    (c : Catalog) (w k : Uuid) (t : TaskDefinition) (rows : List TaskDefinitionRow)
    → In t (
        map
          (λ (r : TaskDefinitionRow). task_to_domain r (dependency_lookup r.id c))
          (filter_by (λ (r : TaskDefinitionRow). r.workflow_definition_id == w) rows))
    → contains k t.dependencies ≡ true
    → any
        (λ (r : TaskDefinitionRow).
          r.workflow_definition_id == w
          && any
              (λ (d : DependencyRow).
                d.task_definition_id == r.id || d.depends_on_task_definition_id == r.id)
              c.dependencies)
        rows
      ≡ true
mentions_of_loaded c w k t [] i h = absurd i
mentions_of_loaded c w k t (r ∷ rows) i h = elim (Bool-cases (r.workflow_definition_id == w)) [
  | inr f ↦ rw f (mentions_of_loaded c w k t rows (rw f at i) h)
  | inl b ↦ elim (rw b at i) [
    | inl e ↦
        let l =
          lookup-any r.id k c.dependencies (subst (λ x. contains k x.dependencies ≡ true) e h) in
        rw (b, l) refl
    | inr j ↦ let ih = mentions_of_loaded c w k t rows j h in rw b (ground arith)
  ]
]

-- The tasks of a loaded definition.
abbrev loaded_tasks : Catalog → Uuid → List TaskDefinition
loaded_tasks c w =
    map (λ (r : TaskDefinitionRow). task_to_domain r (dependency_lookup r.id c))
      (filter_by (λ (r : TaskDefinitionRow). r.workflow_definition_id == w) c.tasks)

load_row :
    (i : Uuid) (c : Catalog) (w : WorkflowDefinition)
    → load i c ≡ some w
    → (r : DefinitionRow) × (find row_key i c.definitions ≡ some r)
      × (w.task_definitions ≡ loaded_tasks c i)
unfolding load
load_row i c w l = go (find row_key i c.definitions) refl l
  where
    go :
        (o : Option DefinitionRow)
        → find row_key i c.definitions ≡ o
        → (elim o [
          | none ↦ none
          | some r ↦ some (
              workflow_to_domain r (loaded_tasks c r.id) (
                map trigger_to_domain
                  (filter_by (λ (t : TriggerRow). t.workflow_definition_id == r.id) c.triggers)))
        ])
          ≡ some w
        → (r : DefinitionRow) × (find row_key i c.definitions ≡ some r)
          × (w.task_definitions ≡ loaded_tasks c i)
    go none e q = cc
    go (some r) e q =
        let same : loaded_tasks c r.id ≡ w.task_definitions = tasks_of r q in
        (r, e, sym same ∙ ap (loaded_tasks c) (key-find row_key i c.definitions r e))
      where
        tasks_of :
            (r : DefinitionRow)
            → some (
                workflow_to_domain r (loaded_tasks c r.id) (
                  map trigger_to_domain
                    (filter_by (λ (t : TriggerRow). t.workflow_definition_id == r.id) c.triggers)))
              ≡ some w
            → loaded_tasks c r.id ≡ w.task_definitions
        tasks_of r q =
            let e : workflow_to_domain r (loaded_tasks c r.id) (
                  map trigger_to_domain
                    (filter_by (λ (t : TriggerRow). t.workflow_definition_id == r.id) c.triggers))
                ≡ w =
              cc in
            ap (λ x. x.task_definitions) e

delete_found_mentioned :
    (i : Uuid) (executions : List WorkflowRow) (c : Catalog)
    → mentions (λ r. r.workflow_definition_id == i) c ≡ true
    → delete_found i executions c ≡ raised integrity_error
unfolding delete_found delete_tasks
delete_found_mentioned i executions c m = rw m refl

-- A workflow definition that loads with a task that depends on another cannot be deleted, whether it
-- was ever started or not: its dependency rows stay, and their foreign keys refuse the deletion.
pub delete_with_dependency_raises :
    (i : Uuid) (executions : List WorkflowRow) (c : Catalog) (w : WorkflowDefinition)
    (t : TaskDefinition) (k : Uuid)
    → load i c ≡ some w
    → In t w.task_definitions
    → contains k t.dependencies ≡ true
    → delete i executions c ≡ raised integrity_error
unfolding delete
delete_with_dependency_raises i executions c w t k l m h =
    let (r, found, tasks) = load_row i c w l in
    let m' : mentions (λ r. r.workflow_definition_id == i) c ≡ true =
      mentions_of_loaded c i k t c.tasks (subst (In t) tasks m) h in
    ap (λ o. elim o [ none ↦ ok c | some _ ↦ delete_found i executions c ]) found
    ∙ delete_found_mentioned i executions c m'
