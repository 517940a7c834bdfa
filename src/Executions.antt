-- ===== src/Executions.antt =====
-- The workflow execution repository: src/automation_platform/persistence/workflow_executions
-- (repository.py, model.py, operations.py). The two tables are the state. Each method runs inside
-- the transaction of its caller, so it is a function on the tables.
pub mod Rows
pub mod Effects
pub mod Invariant
pub mod Outputs
pub mod Start
pub mod Complete
pub mod Completion
pub mod Retry
pub mod Retrying
pub mod Progress
pub mod Offers
pub mod Liveness
pub mod Loading
use automation_platform.Texts.{TextDict, set_text}
use automation_platform.Base.{
  ℕ, ◌-◌, Bool, true, false, not, ◌&&◌, ◌||◌, Option, none, some, List, [], ◌∷◌, ◌++◌, map, String,
  leb, ltb, ◌==◌, if◌then◌else◌, filter_by, any, contains, is_empty,
}
use automation_platform.Domain.{
  Uuid, Time, Fields, TaskStatus, WorkflowStatus, TaskOutput, TaskExecution, WorkflowExecution,
}
use automation_platform.Errors.{Result, ok, raised, missing_parent_output, integrity_error}
use automation_platform.Table.{find, update_where, delete_where, rowcount, one_or_none}
pub use Rows.{
  TaskRow, WorkflowRow, Store, task_key, workflow_key, task, workflow, is_pending, is_running,
  is_completed, is_active, is_running_workflow, CompleteTaskExecutionRequest,
  RetryTaskExecutionRequest, StartTaskExecutionResult, CompleteTaskExecutionResult,
  RetryTaskExecutionResult,
}

unfoldable pub find_workflow_execution : Uuid → Store → Option Uuid
find_workflow_execution i s = elim (one_or_none (filter_by (λ (r : TaskRow). r.id == i) s.tasks)) [
  | none ↦ none
  | some r ↦ some r.workflow_execution_id
]

unfoldable pub find_runnable_ids : Store → List Uuid
find_runnable_ids s =
    map task_key (filter_by (λ r. is_pending r.status && r.remaining_dependencies == 0) s.tasks)

-- The loop of `_load_parent_outputs` over the rows, with the dict so far.
pub collect_outputs : List TaskRow → TextDict TaskOutput → Result (TextDict TaskOutput)
collect_outputs [] outputs = ok outputs
collect_outputs (r ∷ rows) outputs = elim r.output [
  | none ↦ raised missing_parent_output
  | some values ↦ collect_outputs rows (set_text r.key (record { values = values }) outputs)
]

-- `_load_parent_outputs`
pub load_parent_outputs : List Uuid → List TaskRow → Result (TextDict TaskOutput)
unfolding collect_outputs
load_parent_outputs ids tasks =
    if is_empty ids then ok [] else collect_outputs (filter_by (λ r. contains r.id ids) tasks) []

abbrev pub started : Time → TaskRow → TaskRow
started now r = record r { status = TaskStatus.running; started_at = some now }

-- What `start_task` returns for the running row that it selects.
abbrev pub started_result : List TaskRow → TaskRow → Result (Option StartTaskExecutionResult)
started_result tasks r = elim (load_parent_outputs r.parent_task_ids tasks) [
  | raised e ↦ raised e
  | ok outputs ↦ ok (
      some (record {
        plugin_type = r.plugin_type;
        configuration = r.configuration;
        parent_outputs = outputs;
      }))
]

-- The first statement of `start_task`.
abbrev pub mark_started : Uuid → Time → Store → Store
mark_started i now s = record s {
  tasks = update_where (λ r. r.id == i && is_pending r.status) (started now) s.tasks;
}

unfoldable pub start_task : Uuid → Time → Store → Result (Option StartTaskExecutionResult) × Store
unfolding load_parent_outputs
start_task i now s =
    let s' = mark_started i now s in
    (
      elim (one_or_none (filter_by (λ r. r.id == i && is_running r.status) s'.tasks)) [
        | none ↦ ok none
        | some r ↦ started_result s'.tasks r
      ],
      s',
    )

abbrev pub completed : CompleteTaskExecutionRequest → TaskRow → TaskRow
completed request r = record r {
  status = TaskStatus.completed;
  output = some request.output.values;
  completed_at = some request.completed_at;
}

-- `_complete_task`: the row that it completed, for its `RETURNING` columns, and the tables.
pub complete_running : CompleteTaskExecutionRequest → Store → Option TaskRow × Store
complete_running request s =
    let p = λ (r : TaskRow). r.id == request.task_execution_id && is_running r.status in
    (
      one_or_none (filter_by p s.tasks),
      record s { tasks = update_where p (completed request) s.tasks },
    )

abbrev pub waits : Uuid → TaskRow → Bool
waits child r = r.id == child && (is_pending r.status && ltb 0 r.remaining_dependencies)

abbrev pub decremented : TaskRow → TaskRow
decremented r = record r { remaining_dependencies = r.remaining_dependencies - 1 }

-- The value that the decrement of one child returns, if it touched a row, is 0.
abbrev pub is_released : Option TaskRow → Bool
is_released none = false
is_released (some r) = r.remaining_dependencies - 1 == 0

-- `_update_child_dependencies`, with the ids that became runnable in order
pub update_child_dependencies : List Uuid → List TaskRow → List Uuid × List TaskRow
update_child_dependencies [] tasks = ([], tasks)
update_child_dependencies (child ∷ children) tasks =
    let touched = one_or_none (filter_by (waits child) tasks) in
    let (runnable, tasks') =
      update_child_dependencies children (update_where (waits child) decremented tasks) in
    (if is_released touched then child ∷ runnable else runnable, tasks')

-- `_complete_workflow_if_finished`
pub complete_workflow_if_finished : Uuid → Time → Store → Bool × Store
complete_workflow_if_finished w now s =
    let unfinished =
      any (λ (r : TaskRow). r.workflow_execution_id == w && not (is_completed r.status)) s.tasks in
    let p = λ (r : WorkflowRow). r.id == w && (is_running_workflow r.status && not unfinished) in
    (
      rowcount p s.workflows == 1,
      record s {
        workflows =
            update_where p
              (λ r. record r { status = WorkflowStatus.completed; completed_at = some now })
              s.workflows;
      },
    )

unfoldable pub complete_task :
    CompleteTaskExecutionRequest → Store → CompleteTaskExecutionResult × Store
unfolding complete_running update_child_dependencies complete_workflow_if_finished
complete_task request s =
    let (row, s₁) = complete_running request s in
    elim row [
      | none ↦ (record { runnable_task_execution_ids = []; workflow_completed = false }, s₁)
      | some r ↦
          let (runnable, tasks) = update_child_dependencies r.child_task_ids s₁.tasks in
          let (done, s₂) =
            complete_workflow_if_finished r.workflow_execution_id request.completed_at
              (record s₁ { tasks = tasks }) in
          (record { runnable_task_execution_ids = runnable; workflow_completed = done }, s₂)
    ]

-- The new values of `_retry_task`'s UPDATE; both CASEs test the number of tries before it.
abbrev pub retried : RetryTaskExecutionRequest → TaskRow → TaskRow
retried request r = record r {
  remaining_tries = r.remaining_tries - 1;
  status = if ltb 1 r.remaining_tries then TaskStatus.running else TaskStatus.failed;
  error_message = request.error_message;
  completed_at = if ltb 1 r.remaining_tries then none else some request.completed_at;
}

abbrev pub may_retry : Uuid → TaskRow → Bool
may_retry i r = r.id == i && (is_running r.status && ltb 0 r.remaining_tries)

-- `_retry_task`: the row as it was before, and the tables.
pub consume_try : RetryTaskExecutionRequest → Store → Option TaskRow × Store
consume_try request s = (
  one_or_none (filter_by (may_retry request.task_execution_id) s.tasks),
  record s { tasks = update_where (may_retry request.task_execution_id) (retried request) s.tasks },
)

abbrev pub cancelled : Time → TaskRow → TaskRow
cancelled now r = record r { status = TaskStatus.cancelled; completed_at = some now }

-- `_fail_workflow`
pub fail_workflow : Uuid → Time → Store → Bool × Store
fail_workflow w now s =
    let p = λ (r : WorkflowRow). r.id == w && is_running_workflow r.status in
    let failed =
      update_where p (λ r. record r { status = WorkflowStatus.failed; completed_at = some now })
        s.workflows in
    if rowcount p s.workflows == 1
    then (
      true,
      record {
        workflows = failed;
        tasks =
            update_where (λ r. r.workflow_execution_id == w && is_active r.status) (cancelled now)
              s.tasks;
      },
    )
    else (false, record s { workflows = failed })

unfoldable pub retry_task : RetryTaskExecutionRequest → Store → RetryTaskExecutionResult × Store
unfolding consume_try fail_workflow
retry_task request s =
    let (row, s₁) = consume_try request s in
    elim row [
      | none ↦ (record { should_retry = false; workflow_failed = false }, s₁)
      | some r ↦
          let again = ltb 0 (r.remaining_tries - 1) in
          let (failed, s₂) = fail_workflow r.workflow_execution_id request.completed_at s₁ in
          if again
          then (record { should_retry = true; workflow_failed = false }, s₁)
          else (record { should_retry = false; workflow_failed = failed }, s₂)
    ]
