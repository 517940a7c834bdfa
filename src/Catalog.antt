-- ===== src/Catalog.antt =====
-- The workflow definition repository: src/automation_platform/persistence/workflow_definitions
-- (repository.py, model.py, _mapper.py), with the constraints of its tables. The session flushes
-- what was merged before each merge and before each statement that it executes.
pub mod Mapper
pub mod Order
pub mod Deletion
pub mod Saving
pub mod Fitting
pub mod RoundTrip
pub mod Saved
use automation_platform.Base.{
  ℕ, Bool, true, false, not, ◌&&◌, ◌||◌, Option, none, some, List, [], ◌∷◌, ◌++◌, String, map, any,
  contains, filter_by, ◌==◌, if◌then◌else◌,
}
use automation_platform.Domain.{Uuid, Fields, TaskDefinition, TriggerDefinition, WorkflowDefinition}
use automation_platform.Errors.{
  Result, ok, raised, integrity_error, data_error, ◌>>=◌, ◌>>◌, raise_if,
}
use automation_platform.Table.{find, delete_where, fits_integer}
use automation_platform.Texts.{same}
use automation_platform.Triggers.{TriggerRow, trigger_key}
use automation_platform.Executions.{WorkflowRow}
pub use Mapper.{
  DefinitionRow, TaskDefinitionRow, DependencyRow, Catalog, row_key, task_row_key,
  workflow_to_model, workflow_to_domain, task_to_model, task_to_domain, trigger_to_model,
  trigger_to_domain, dependency_to_model, dependencies_to_models,
}

-- What a merged row does at its flush: an UPDATE of the row with its key, or an INSERT.
abbrev pub upsert : {A : Type 0} → (A → ℕ) → A → List A → List A
upsert key r [] = r ∷ []
upsert key r (x ∷ xs) = if key r == key x then r ∷ xs else x ∷ upsert key r xs

-- The unique constraint on workflow and key.
abbrev pub clashes : TaskDefinitionRow → TaskDefinitionRow → Bool
clashes r x =
    x.workflow_definition_id == r.workflow_definition_id && (same x.key r.key && not (x.id == r.id))

-- The flush of a merged task: the range of the column `max_tries` and the unique constraint are
-- checked.
pub flush_task : TaskDefinitionRow → Catalog → Result Catalog
flush_task r c =
    if not (fits_integer r.max_tries)
    then raised data_error
    else if any (clashes r) c.tasks
    then raised integrity_error
    else ok (record c { tasks = upsert task_row_key r c.tasks })

abbrev pub has_task : Uuid → Catalog → Bool
has_task i c = any (λ (r : TaskDefinitionRow). r.id == i) c.tasks

abbrev pub equal_dependency : DependencyRow → DependencyRow → Bool
equal_dependency r x =
    x.task_definition_id == r.task_definition_id
    && x.depends_on_task_definition_id == r.depends_on_task_definition_id

-- The merge and the flush of a dependency. One that is there stays as it is; for the INSERT of
-- another, the two foreign keys are checked.
pub flush_dependency : DependencyRow → Catalog → Result Catalog
flush_dependency r c =
    if any (equal_dependency r) c.dependencies
    then ok c
    else if not (has_task r.task_definition_id c && has_task r.depends_on_task_definition_id c)
    then raised integrity_error
    else ok (record c { dependencies = c.dependencies ++ r ∷ [] })

pub flush_dependencies : List DependencyRow → Catalog → Result Catalog
unfolding flush_dependency
flush_dependencies [] c = ok c
flush_dependencies (r ∷ rs) c = flush_dependency r c >>= flush_dependencies rs

-- The autoflushes around the merge of a task: what was merged before is written by the merge, and the
-- task itself by the DELETE that follows.
pub flush : TaskDefinitionRow → List DependencyRow → Catalog → Result Catalog
unfolding flush_task flush_dependencies
flush r pending c = flush_dependencies pending c >>= flush_task r

abbrev pub delete_dependencies : Uuid → Catalog → Catalog
delete_dependencies i c = record c {
  dependencies = delete_where (λ (r : DependencyRow). r.task_definition_id == i) c.dependencies;
}

-- A row of the workflow that is not among the current ids.
abbrev pub is_stale_task : Uuid → List Uuid → TaskDefinitionRow → Bool
is_stale_task w ids r = r.workflow_definition_id == w && not (contains r.id ids)

abbrev pub is_stale_trigger : Uuid → List Uuid → TriggerRow → Bool
is_stale_trigger w ids r = r.workflow_definition_id == w && not (contains r.id ids)

-- A dependency refers to one of the rows.
abbrev pub mentions : (TaskDefinitionRow → Bool) → Catalog → Bool
mentions p c =
    any
      (λ (r : TaskDefinitionRow).
        p r
        && any
            (λ (d : DependencyRow).
              d.task_definition_id == r.id || d.depends_on_task_definition_id == r.id)
            c.dependencies)
      c.tasks

-- DELETE FROM task_definitions: the foreign keys of the dependencies are checked.
pub delete_tasks : (TaskDefinitionRow → Bool) → Catalog → Result Catalog
delete_tasks p c =
    if mentions p c
    then raised integrity_error
    else ok (record c { tasks = delete_where p c.tasks })

-- The loop of `_synchronize_tasks`, with the dependencies that are merged and not flushed; they are
-- flushed at the latest before the next DELETE, that of `_synchronize_triggers`.
pub synchronize_each : Uuid → List TaskDefinition → List DependencyRow → Catalog → Result Catalog
unfolding flush flush_dependencies
synchronize_each w [] pending c = flush_dependencies pending c
synchronize_each w (t ∷ ts) pending c = flush (task_to_model w t) pending c >>= λ c'.
    synchronize_each w ts (dependencies_to_models t) (delete_dependencies t.id c')

-- `_synchronize_tasks`
pub synchronize_tasks : WorkflowDefinition → Catalog → Result Catalog
unfolding synchronize_each delete_tasks
synchronize_tasks w c =
    delete_tasks (is_stale_task w.id (map (λ t. t.id) w.task_definitions)) c
    >>= synchronize_each w.id w.task_definitions []

pub merge_triggers : Uuid → List TriggerDefinition → List TriggerRow → List TriggerRow
merge_triggers w [] rows = rows
merge_triggers w (t ∷ ts) rows =
    merge_triggers w ts (upsert trigger_key (trigger_to_model w t) rows)

-- `_synchronize_triggers`, with the flush that follows in the service
pub synchronize_triggers : WorkflowDefinition → Catalog → Catalog
unfolding merge_triggers
synchronize_triggers w c = record c {
  triggers =
      merge_triggers w.id w.trigger_definitions
        (delete_where (is_stale_trigger w.id (map (λ t. t.id) w.trigger_definitions)) c.triggers);
}

-- `WorkflowDefinitionRepository.save`
unfoldable pub save : WorkflowDefinition → Catalog → Result Catalog
unfolding synchronize_tasks synchronize_triggers
save w c =
    synchronize_tasks w
      (record c { definitions = upsert row_key (workflow_to_model w) c.definitions })
    >>= λ c'. ok (synchronize_triggers w c')

-- `_load_dependency_lookup`, at one task: `lookup.get(i, [])`
abbrev pub dependency_lookup : Uuid → Catalog → List Uuid
dependency_lookup i c =
    map (λ (r : DependencyRow). r.depends_on_task_definition_id)
      (filter_by (λ (r : DependencyRow). r.task_definition_id == i) c.dependencies)

-- `WorkflowDefinitionRepository.load`
unfoldable pub load : Uuid → Catalog → Option WorkflowDefinition
load i c = elim (find row_key i c.definitions) [
  | none ↦ none
  | some r ↦ some (
      workflow_to_domain r
        (map (λ (t : TaskDefinitionRow). task_to_domain t (dependency_lookup t.id c))
          (filter_by (λ (t : TaskDefinitionRow). t.workflow_definition_id == r.id) c.tasks))
        (map trigger_to_domain
          (filter_by (λ (t : TriggerRow). t.workflow_definition_id == r.id) c.triggers)))
]

-- `session.delete` of a workflow definition, at the flush: its tasks and triggers go with it, and the
-- foreign keys of the dependencies and of the workflow executions are checked.
pub delete_found : Uuid → List WorkflowRow → Catalog → Result Catalog
unfolding delete_tasks
delete_found i executions c = delete_tasks (λ r. r.workflow_definition_id == i) c >>= λ c'.
    if any (λ (x : WorkflowRow). x.workflow_definition_id == i) executions
    then raised integrity_error
    else ok (record c' {
      definitions = delete_where (λ (r : DefinitionRow). r.id == i) c'.definitions;
      triggers = delete_where (λ (r : TriggerRow). r.workflow_definition_id == i) c'.triggers;
    })

-- `WorkflowDefinitionRepository.delete`
unfoldable pub delete : Uuid → List WorkflowRow → Catalog → Result Catalog
unfolding delete_found
delete i executions c = elim (find row_key i c.definitions) [
  | none ↦ ok c
  | some _ ↦ delete_found i executions c
]
