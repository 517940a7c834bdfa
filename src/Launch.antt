-- ===== src/Launch.antt =====
-- The workflow start service: src/automation_platform/application/workflow_start/services.py, with
-- `WorkflowExecutionRepository.create` and the mapper it uses. The values of `uuid4()` are
-- arguments: one for the workflow execution, and one for each task in turn.
pub mod Lookup
pub mod Rows
pub mod Storage
pub mod Start
pub mod Ids
pub mod Children
pub mod Total
pub mod Tables
pub mod Success
pub mod RoundTrip
pub mod Safety
pub mod Grounding
use automation_platform.Base.{
  ◌&&◌, ℕ, zero, suc, Bool, true, false, not, Option, none, some, List, [], ◌∷◌, ◌++◌, map, length,
  if◌then◌else◌, ◌==◌,
}
use automation_platform.Domain.{
  Uuid, Time, TaskStatus, WorkflowStatus, TaskDefinition, WorkflowDefinition, TaskExecution,
  WorkflowExecution, TaskOutput, Fields,
}
use automation_platform.Errors.{
  data_error, Result, ok, raised, integrity_error, workflow_definition_not_found,
  workflow_definition_disabled, key_error, ◌>>=◌, ◌>>◌, raise_if,
}
use automation_platform.Executions.{TaskRow, WorkflowRow, Store, task, workflow, task_key}
use automation_platform.Table.{fits_integer, find}
use automation_platform.Queue.{Queue, enqueue}
use Lookup.{Dict, item, set_item, lookup}

-- `{task_definition.id: uuid4() for …}`
pub new_ids : (ℕ → Uuid) → ℕ → List TaskDefinition → Dict Uuid → Dict Uuid
new_ids fresh n [] d = d
new_ids fresh n (t ∷ ts) d = new_ids fresh (suc n) ts (set_item t.id (fresh n) d)

-- `{task_definition.id: [] for …}`
pub no_children : List TaskDefinition → Dict (List Uuid) → Dict (List Uuid)
no_children [] d = d
no_children (t ∷ ts) d = no_children ts (set_item t.id [] d)

-- `children[parent_id].append(task_execution_id)` for each parent
pub append_child : Uuid → List Uuid → Dict (List Uuid) → Result (Dict (List Uuid))
append_child child [] d = ok d
append_child child (p ∷ ps) d =
    item p d >>= λ kids. append_child child ps (set_item p (kids ++ child ∷ []) d)

-- The outer loop of `_create_child_task_lookup`.
pub append_children : Dict Uuid → List TaskDefinition → Dict (List Uuid) → Result (Dict (List Uuid))
unfolding append_child
append_children ids [] d = ok d
append_children ids (t ∷ ts) d =
    item t.id ids >>= λ child. append_child child t.dependencies d >>= append_children ids ts

unfoldable pub create_child_task_lookup :
    List TaskDefinition → Dict Uuid → Result (Dict (List Uuid))
unfolding no_children append_children
create_child_task_lookup ts ids = append_children ids ts (no_children ts [])

-- `[task_execution_ids[parent_id] for parent_id in …]`
pub items : List Uuid → Dict Uuid → Result (List Uuid)
items [] ids = ok []
items (k ∷ ks) ids = item k ids >>= λ v. items ks ids >>= λ vs. ok (v ∷ vs)

-- The `TaskExecution` that `_create_workflow_execution` builds.
abbrev pub new_execution : Uuid → TaskDefinition → Uuid → List Uuid → List Uuid → TaskExecution
new_execution w t i parents children = record {
  id = i;
  workflow_execution_id = w;
  task_definition_id = t.id;
  key = t.key;
  plugin_type = t.plugin_type;
  configuration = t.configuration;
  status = TaskStatus.pending;
  remaining_dependencies = length t.dependencies;
  remaining_tries = t.max_tries;
  parent_task_ids = parents;
  child_task_ids = children;
  output = none;
  error_message = none;
  started_at = none;
  completed_at = none;
}

-- The loop over the task definitions: the executions, and the ids of the root tasks.
pub new_executions :
    Uuid
    → Dict Uuid
    → Dict (List Uuid)
    → List TaskDefinition
    → Result (List TaskExecution × List Uuid)
unfolding items
new_executions w ids kids [] = ok ([], [])
new_executions w ids kids (t ∷ ts) = do
  i ← item t.id ids
  parents ← items t.dependencies ids
  children ← item t.id kids
  rest ← new_executions w ids kids ts
  ok (
    new_execution w t i parents children ∷ rest.0,
    (if length t.dependencies == 0 then i ∷ rest.1 else rest.1),
  )

-- `_create_workflow_execution`, at the time `now` of the default of `created_at`
unfoldable pub create_workflow_execution :
    Uuid → (ℕ → Uuid) → Time → WorkflowDefinition → Result (WorkflowExecution × List Uuid)
unfolding create_child_task_lookup new_ids new_executions
create_workflow_execution w fresh now definition = do
  let ids = new_ids fresh 0 definition.task_definitions []
  kids ← create_child_task_lookup definition.task_definitions ids
  built ← new_executions w ids kids definition.task_definitions
  ok (
    record {
      id = w;
      workflow_definition_id = definition.id;
      status = WorkflowStatus.running;
      task_executions = built.0;
      created_at = now;
      started_at = none;
      completed_at = none;
    },
    built.1,
  )

abbrev pub output_values : Option TaskOutput → Option Fields
output_values none = none
output_values (some output) = some output.values

-- `WorkflowExecutionMapper.task_to_model`
abbrev pub task_to_model : TaskExecution → TaskRow
task_to_model t = record {
  id = t.id;
  workflow_execution_id = t.workflow_execution_id;
  task_definition_id = t.task_definition_id;
  key = t.key;
  plugin_type = t.plugin_type;
  configuration = t.configuration;
  status = t.status;
  remaining_dependencies = t.remaining_dependencies;
  parent_task_ids = t.parent_task_ids;
  child_task_ids = t.child_task_ids;
  remaining_tries = t.remaining_tries;
  output = output_values t.output;
  error_message = t.error_message;
  started_at = t.started_at;
  completed_at = t.completed_at;
}

-- `WorkflowExecutionMapper.workflow_to_model`, without the rows of the tasks
abbrev pub workflow_to_model : WorkflowExecution → WorkflowRow
workflow_to_model w = record {
  id = w.id;
  workflow_definition_id = w.workflow_definition_id;
  status = w.status;
  created_at = w.created_at;
  started_at = w.started_at;
  completed_at = w.completed_at;
}

-- The columns of 32 bits.
abbrev pub fits_columns : TaskRow → Bool
fits_columns r = fits_integer r.remaining_dependencies && fits_integer r.remaining_tries

-- INSERT of each row: the range of its numbers and the primary key constraint are checked.
pub insert_tasks : List TaskRow → List TaskRow → Result (List TaskRow)
insert_tasks [] ts = ok ts
insert_tasks (r ∷ rows) ts =
    let rest = insert_tasks rows (ts ++ r ∷ []) in
    if not (fits_columns r)
    then raised data_error
    else elim (find task_key r.id ts) [ none ↦ rest | some _ ↦ raised integrity_error ]

-- `WorkflowExecutionRepository.create`
unfoldable pub create : WorkflowExecution → Store → Result Store
unfolding insert_tasks
create w s = elim (workflow w.id s) [
  | some _ ↦ raised integrity_error
  | none ↦ insert_tasks (map task_to_model w.task_executions) s.tasks >>= λ tasks.
      ok (record { workflows = s.workflows ++ workflow_to_model w ∷ []; tasks = tasks })
]

-- `start_and_commit` up to its commit, given the definition that `load` returned: the tables to
-- commit, the root tasks to enqueue after the commit, and the id to return.
unfoldable pub prepare_start :
    Uuid → (ℕ → Uuid) → Time → Option WorkflowDefinition → Store → Result (Store × List Uuid × Uuid)
unfolding create_workflow_execution create
prepare_start w fresh now none s = raised workflow_definition_not_found
prepare_start w fresh now (some definition) s = do
  raise_if (not definition.enabled) workflow_definition_disabled
  built ← create_workflow_execution w fresh now definition
  s' ← create built.0 s
  ok (s', built.1, built.0.id)
