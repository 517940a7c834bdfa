-- ===== src/Processing.antt =====
-- The task processing service: src/automation_platform/application/task_processing. A `with
-- uow_factory()` block is a transaction: it keeps its changes if it commits, and drops them if it
-- raises or returns without a commit. The plugin runs between two transactions.
pub mod Safety
use automation_platform.Base.{
  Bool, true, false, Option, none, some, List, [], ◌∷◌, String, if◌then◌else◌,
}
use automation_platform.Domain.{Uuid, Time, TaskContext, TaskOutput, TaskResult}
use automation_platform.Errors.{Result, ok, raised, ◌>>=◌}
use automation_platform.Plugins as Plugins
use automation_platform.Plugins.{TaskPlugin}
use automation_platform.Executions.{
  Store, start_task, complete_task, retry_task, StartTaskExecutionResult,
}

pub record ProcessTaskResult : Type 0 where
  pub enqueue_task_ids : List Uuid
  pub should_retry : Bool

-- `_start_task`: it commits only what it can process.
unfoldable pub start_phase : Uuid → Time → Store → Result (Option StartTaskExecutionResult) × Store
start_phase i now s =
    let (result, s') = start_task i now s in
    elim result [
      | raised e ↦ (raised e, s)
      | ok none ↦ (ok none, s)
      | ok (some start) ↦ (ok (some start), s')
    ]

-- The plugin's part of `process`: no transaction is open.
unfoldable pub execute_plugin : List TaskPlugin → StartTaskExecutionResult → Result TaskResult
execute_plugin registry start = do
  plugin ← Plugins.get (λ (p : TaskPlugin). p.plugin_type) start.plugin_type registry
  plugin.execute (record { configuration = start.configuration; inputs = start.parent_outputs })

-- `_complete_task`
unfoldable pub complete_phase : Uuid → TaskOutput → Time → Store → ProcessTaskResult × Store
complete_phase i output now s =
    let (result, s') =
      complete_task (record { task_execution_id = i; output = output; completed_at = now }) s in
    (record { enqueue_task_ids = result.runnable_task_execution_ids; should_retry = false }, s')

-- `_retry_task`
unfoldable pub retry_phase : Uuid → Option String → Time → Store → ProcessTaskResult × Store
retry_phase i message now s =
    let (result, s') =
      retry_task (record { task_execution_id = i; error_message = message; completed_at = now })
        s in
    (record { enqueue_task_ids = []; should_retry = result.should_retry }, s')

-- The last transaction of `process`, chosen by the plugin's result.
unfoldable pub finish_phase : Uuid → TaskResult → Time → Store → ProcessTaskResult × Store
unfolding complete_phase retry_phase
finish_phase i result now s =
    if result.succeeded
    then complete_phase i result.output now s
    else retry_phase i result.message now s

-- `process` after its first transaction, by what that returned.
pub process_started :
    List TaskPlugin
    → Uuid
    → Time
    → Store
    → Result (Option StartTaskExecutionResult)
    → Result ProcessTaskResult × Store
unfolding execute_plugin finish_phase
process_started registry i later s (raised e) = (raised e, s)
process_started registry i later s (ok none) =
    (ok (record { enqueue_task_ids = []; should_retry = false }), s)
process_started registry i later s (ok (some start)) = elim (execute_plugin registry start) [
  | raised e ↦ (raised e, s)
  | ok result ↦ let (answer, s') = finish_phase i result later s in (ok answer, s')
]

-- `process`, with nothing else running between its transactions
unfoldable pub process :
    List TaskPlugin → Uuid → Time → Time → Store → Result ProcessTaskResult × Store
unfolding start_phase process_started
process registry i now later s =
    let (started, s') = start_phase i now s in process_started registry i later s' started
