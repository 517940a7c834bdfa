-- ===== src/Executions/Rows.antt =====
-- The rows of the execution tables, and the requests and results of the repository's operations:
-- src/automation_platform/persistence/workflow_executions (model.py, operations.py).
use automation_platform.Base.{ℕ, Bool, true, false, Option, List, String}
use automation_platform.Domain.{Uuid, Time, Fields, TaskStatus, WorkflowStatus, TaskOutput}
use automation_platform.Table.{find}

-- `TaskExecutionModel`
pub record TaskRow : Type 0 where
  pub id : Uuid
  pub workflow_execution_id : Uuid
  pub task_definition_id : Uuid
  pub key : String
  pub plugin_type : String
  pub configuration : Fields
  pub status : TaskStatus
  pub remaining_dependencies : ℕ
  pub parent_task_ids : List Uuid
  pub child_task_ids : List Uuid
  pub remaining_tries : ℕ
  pub output : Option Fields
  pub error_message : Option String
  pub started_at : Option Time
  pub completed_at : Option Time

-- `WorkflowExecutionModel`; its tasks stand in the other table
pub record WorkflowRow : Type 0 where
  pub id : Uuid
  pub workflow_definition_id : Uuid
  pub status : WorkflowStatus
  pub created_at : Time
  pub started_at : Option Time
  pub completed_at : Option Time

pub record Store : Type 0 where
  pub workflows : List WorkflowRow
  pub tasks : List TaskRow

abbrev pub task_key : TaskRow → ℕ
task_key r = r.id

abbrev pub workflow_key : WorkflowRow → ℕ
workflow_key r = r.id

abbrev pub task : Uuid → Store → Option TaskRow
task i s = find task_key i s.tasks

abbrev pub workflow : Uuid → Store → Option WorkflowRow
workflow i s = find workflow_key i s.workflows

abbrev pub is_pending : TaskStatus → Bool
is_pending TaskStatus.pending = true
is_pending _ = false

abbrev pub is_running : TaskStatus → Bool
is_running TaskStatus.running = true
is_running _ = false

abbrev pub is_completed : TaskStatus → Bool
is_completed TaskStatus.completed = true
is_completed _ = false

-- `status.in_((PENDING, RUNNING))`
abbrev pub is_active : TaskStatus → Bool
is_active TaskStatus.pending = true
is_active TaskStatus.running = true
is_active _ = false

abbrev pub is_running_workflow : WorkflowStatus → Bool
is_running_workflow WorkflowStatus.running = true
is_running_workflow _ = false

pub record CompleteTaskExecutionRequest : Type 0 where
  pub task_execution_id : Uuid
  pub output : TaskOutput
  pub completed_at : Time

pub record RetryTaskExecutionRequest : Type 0 where
  pub task_execution_id : Uuid
  pub error_message : Option String
  pub completed_at : Time

pub record StartTaskExecutionResult : Type 0 where
  pub plugin_type : String
  pub configuration : Fields
  pub parent_outputs : List (String × TaskOutput)

pub record CompleteTaskExecutionResult : Type 0 where
  pub runnable_task_execution_ids : List Uuid
  pub workflow_completed : Bool

pub record RetryTaskExecutionResult : Type 0 where
  pub should_retry : Bool
  pub workflow_failed : Bool
