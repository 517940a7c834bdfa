-- ===== src/Examples/Executions.antt =====
-- The theorems about the execution tables at the sample workflow.
use automation_platform.Executions.Liveness.{Grounded, Above, is_stopped, waiting_task_has_cause}
use automation_platform.Base.{
  ◌<◌, ◌≡◌, ◌↔◌, refl, true, false, ◌==◌, ◌&&◌, none, some, [], ◌∷◌, arith, contains, count,
  if◌then◌else◌, subst, ◌⊎◌,
}
use automation_platform.Domain.{Uuid, TaskStatus, WorkflowStatus, TaskOutput, end}
use automation_platform.Errors.{ok}
use automation_platform.Executions.{
  TaskRow, WorkflowRow, task, workflow, is_active, start_task, find_runnable_ids, complete_task,
  retry_task, cancelled, CompleteTaskExecutionRequest, RetryTaskExecutionRequest,
}
use automation_platform.Executions.Invariant.{Sound, done, unmet}
use automation_platform.Executions.Start.{start_task_ready}
use automation_platform.Executions.Outputs.{HoldsOutputs}
use automation_platform.Texts.{TextDict}
use automation_platform.Executions.Completion.{
  complete_task-Sound, complete_task_releases, complete_task_finishes_workflow,
}
use automation_platform.Executions.Retrying.{
  retry_task-Sound, retry_task_again, retry_task_exhausted,
}
use automation_platform.Executions.Progress.{Progress, complete_task-Progress}
use automation_platform.Examples.Sample.{
  first_task, second_task, sample_workflow, sample, store_with, store_with-Sound, sample-Sound,
}

abbrev completion : CompleteTaskExecutionRequest
completion = record { task_execution_id = 1; output = record { values = end }; completed_at = 9 }

abbrev failure : RetryTaskExecutionRequest
failure = record { task_execution_id = 1; error_message = some "boom"; completed_at = 9 }

complete_task_run :
    (complete_task completion sample).0
    ≡ record { runnable_task_execution_ids = 2 ∷ []; workflow_completed = false }
unfolding complete_task
complete_task_run = refl

complete_task-Sound_example : Sound (complete_task completion sample).1
complete_task-Sound_example = complete_task-Sound completion sample sample-Sound

complete_task_releases_example :
    (contains 2 (complete_task completion sample).0.runnable_task_execution_ids ≡ true) ↔ (
      (second_task.status ≡ TaskStatus.pending)
      × (0 < count 1 second_task.parent_task_ids)
      × (unmet (done (complete_task completion sample).1) second_task.parent_task_ids ≡ 0))
complete_task_releases_example =
    complete_task_releases completion sample first_task sample-Sound refl refl 2 second_task refl

complete_task_finishes_workflow_example :
    ((complete_task completion sample).0.workflow_completed ≡ true) ↔ (
      (sample_workflow.status ≡ WorkflowStatus.running)
      × ((i : Uuid) (r : TaskRow)
          → task i (complete_task completion sample).1 ≡ some r
          → r.workflow_execution_id ≡ 100
          → r.status ≡ TaskStatus.completed))
complete_task_finishes_workflow_example =
    complete_task_finishes_workflow completion sample first_task sample-Sound refl refl
      sample_workflow refl

retry_task-Sound_example : Sound (retry_task failure sample).1
retry_task-Sound_example = retry_task-Sound failure sample sample-Sound

retry_task_again_example :
    ((retry_task failure sample).0 ≡ record { should_retry = true; workflow_failed = false })
    × ((retry_task failure sample).1.workflows ≡ sample.workflows)
    × ((j : Uuid)
        → task j (retry_task failure sample).1 ≡ (
            if j == 1
            then some (record first_task {
              remaining_tries = 1;
              error_message = some "boom";
              completed_at = none;
            })
            else task j sample))
retry_task_again_example =
    retry_task_again failure sample first_task sample-Sound refl refl (omega arith)

retry_task_exhausted_example :
    ((retry_task failure (store_with 1)).0
      ≡ record { should_retry = false; workflow_failed = true })
    × ((j : Uuid) (r : TaskRow)
        → task j (store_with 1) ≡ some r
        → task j (retry_task failure (store_with 1)).1
          ≡ some (
              if j == 1
              then record first_task {
                remaining_tries = 0;
                status = TaskStatus.failed;
                error_message = some "boom";
                completed_at = some 9;
              }
              else if r.workflow_execution_id == 100 && is_active r.status
              then cancelled 9 r
              else r))
    × ((k : Uuid) (y : WorkflowRow)
        → workflow k (store_with 1) ≡ some y
        → workflow k (retry_task failure (store_with 1)).1
          ≡ some (
              if k == 100
              then record y { status = WorkflowStatus.failed; completed_at = some 9 }
              else y))
retry_task_exhausted_example =
    retry_task_exhausted failure (store_with 1) (record first_task { remaining_tries = 1 })
      (store_with-Sound 1 (omega arith)) refl refl sample_workflow refl refl refl

-- The first task is completed, and the second waits for no other one.
released :
    task 2 (complete_task completion sample).1
    ≡ some (record second_task { remaining_dependencies = 0 })
unfolding complete_task
released = refl

parent_done : unmet (done (complete_task completion sample).1) second_task.parent_task_ids ≡ 0
unfolding complete_task
parent_done = refl

start_task_ready_example :
    (outputs : TextDict TaskOutput) × HoldsOutputs
      (complete_task completion sample).1
      second_task.parent_task_ids
      outputs
    × ((start_task 2 10 (complete_task completion sample).1).0
        ≡ ok (
            some (record {
              plugin_type = "collect_inputs";
              configuration = end;
              parent_outputs = outputs;
            })))
start_task_ready_example =
    start_task_ready 2 10 (complete_task completion sample).1
      (record second_task { remaining_dependencies = 0 })
      (complete_task-Sound completion sample sample-Sound) released parent_done refl

complete_task-Progress_example : Progress sample (complete_task completion sample).1
complete_task-Progress_example = complete_task-Progress completion sample sample-Sound

sample-Grounded : Grounded sample 2
sample-Grounded = Grounded.grounded 2 second_task refl (λ p c.
    let e : 1 ≡ p = ground arith in
    subst (Grounded sample) e (Grounded.grounded 1 first_task refl (λ q d. cc)))

waiting_task_has_cause_example :
    (j : Uuid) × (x : TaskRow) × Above sample j 2
    × (task j sample ≡ some x)
    × ((contains j (find_runnable_ids sample) ≡ true) ⊎ (is_stopped x.status ≡ true))
waiting_task_has_cause_example =
    waiting_task_has_cause sample 2 second_task sample-Sound sample-Grounded refl refl
