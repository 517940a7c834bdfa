-- ===== src/Executions/Loading.antt =====
-- Reading and deleting whole workflow executions: `load`, `delete` and the to-domain half of the mapper
-- of src/automation_platform/persistence/workflow_executions, and the query service
-- src/automation_platform/application/workflow_execution_query/services.py.
use automation_platform.Base.{Option, none, some, List, map, filter_by, ◌==◌}
use automation_platform.Domain.{Uuid, Fields, TaskOutput, TaskExecution, WorkflowExecution}
use automation_platform.Errors.{Result, ok, raised, workflow_execution_not_found}
use automation_platform.Table.{delete_where}
use automation_platform.Executions.{TaskRow, WorkflowRow, Store, workflow}

-- `WorkflowExecutionMapper.output_to_domain`
abbrev pub output_to_domain : Option Fields → Option TaskOutput
output_to_domain none = none
output_to_domain (some values) = some (record { values = values })

-- `WorkflowExecutionMapper.task_to_domain`
abbrev pub task_to_domain : TaskRow → TaskExecution
task_to_domain r = record {
  id = r.id;
  workflow_execution_id = r.workflow_execution_id;
  task_definition_id = r.task_definition_id;
  key = r.key;
  plugin_type = r.plugin_type;
  configuration = r.configuration;
  status = r.status;
  remaining_dependencies = r.remaining_dependencies;
  remaining_tries = r.remaining_tries;
  parent_task_ids = r.parent_task_ids;
  child_task_ids = r.child_task_ids;
  output = output_to_domain r.output;
  error_message = r.error_message;
  started_at = r.started_at;
  completed_at = r.completed_at;
}

-- `WorkflowExecutionMapper.workflow_to_domain`
abbrev pub workflow_to_domain : WorkflowRow → List TaskExecution → WorkflowExecution
workflow_to_domain r tasks = record {
  id = r.id;
  workflow_definition_id = r.workflow_definition_id;
  status = r.status;
  task_executions = tasks;
  created_at = r.created_at;
  started_at = r.started_at;
  completed_at = r.completed_at;
}

-- `WorkflowExecutionRepository.load`
unfoldable pub load : Uuid → Store → Option WorkflowExecution
load i s = elim (workflow i s) [
  | none ↦ none
  | some r ↦ some (
      workflow_to_domain r
        (map task_to_domain (filter_by (λ (t : TaskRow). t.workflow_execution_id == r.id) s.tasks)))
]

-- `WorkflowExecutionRepository.delete`: the tasks go with their workflow.
unfoldable pub delete : Uuid → Store → Store
delete i s = elim (workflow i s) [
  | none ↦ s
  | some _ ↦ record {
    workflows = delete_where (λ (r : WorkflowRow). r.id == i) s.workflows;
    tasks = delete_where (λ (t : TaskRow). t.workflow_execution_id == i) s.tasks;
  }
]

-- `WorkflowExecutionQueryService.get`
unfoldable pub get_execution : Uuid → Store → Result WorkflowExecution
unfolding load
get_execution i s = elim (load i s) [ none ↦ raised workflow_execution_not_found | some w ↦ ok w ]
