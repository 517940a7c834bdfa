-- ===== src/Executions/Completion.antt =====
-- `complete_task` as a whole: what it answers, and that it keeps the invariant.
use automation_platform.Base.{
  ap, sym, ◌∙◌, ◌<◌, ◌≡◌, ◌↔◌, refl, Bool, true, false, ◌&&◌, none, some, [], arith, ◌==◌,
  if◌then◌else◌, contains, count, Option-cases, inl, inr, filter_by, Bool-cases,
}
use automation_platform.Domain.{Uuid, TaskStatus, WorkflowStatus}
use automation_platform.Table.{
  find, find-update, find_of_In, any-true-In, update-UniqueKeys, patch, accept, of_option,
  filter_by_key, update_where_none, UniqueKeys,
}
use automation_platform.Executions.{
  TaskRow, WorkflowRow, Store, task_key, task, workflow, is_running, completed,
  update_child_dependencies, complete_workflow_if_finished, complete_task,
  CompleteTaskExecutionRequest, CompleteTaskExecutionResult,
}
use automation_platform.Executions.Effects.{contains-update_child_dependencies}
use automation_platform.Executions.Invariant.{Sound, done, is_done, unmet, unmet_same}
use automation_platform.Executions.Complete.{
  marked, after, after-Sound, fewer, complete_workflow-Sound, complete_workflow_answer, unfinished,
  all_finished,
}

module _ (request : CompleteTaskExecutionRequest) (s : Store) where
  abbrev it : TaskRow → Bool
  it r = r.id == request.task_execution_id && is_running r.status

  running_row :
      UniqueKeys task_key s.tasks
      → filter_by it s.tasks
        ≡ of_option (accept (λ r. is_running r.status) (task request.task_execution_id s))
  running_row u =
      filter_by_key task_key request.task_execution_id (λ r. is_running r.status) s.tasks u

  -- A task that is not running, because another worker has already ended it or because it does not
  -- exist, is left alone: no child is released and no row changes.
  pub complete_task_refused :
      UniqueKeys task_key s.tasks
      → accept (λ r. is_running r.status) (task request.task_execution_id s) ≡ none
      → complete_task request s
        ≡ (record { runnable_task_execution_ids = []; workflow_completed = false }, s)
  unfolding complete_task
  complete_task_refused u n =
      let nothing : filter_by it s.tasks ≡ [] = running_row u ∙ ap of_option n in
      ground (arith, nothing, update_where_none it (completed request) s.tasks nothing)

  module _ (t : TaskRow) (v : Sound s) (h : task request.task_execution_id s ≡ some t)
      (running : t.status ≡ TaskStatus.running) where
    abbrev pub released : Store
    released = after request s t v h running

    pub complete_task_running : complete_task request s ≡ (
      record {
        runnable_task_execution_ids =
            (update_child_dependencies t.child_task_ids (marked request s t v h running)).0;
        workflow_completed =
            (complete_workflow_if_finished t.workflow_execution_id request.completed_at released).0;
      },
      (complete_workflow_if_finished t.workflow_execution_id request.completed_at released).1,
    )
    unfolding complete_task
    complete_task_running = ground (arith, running_row v.unique, h, running)

    -- The workflow's row is all that the last statement touches.
    pub same_tasks : (complete_task request s).1.tasks ≡ released.tasks
    unfolding complete_workflow_if_finished
    same_tasks = ap (λ (r : CompleteTaskExecutionResult × Store). r.1.tasks) complete_task_running

    same_done : (p : Uuid) → done (complete_task request s).1 p ≡ done released p
    same_done p = ap (λ ts. is_done (find task_key p ts)) same_tasks

    marked_row :
        (j : Uuid) (r : TaskRow)
        → task j s ≡ some r
        → find task_key j (marked request s t v h running)
          ≡ some (if it r then completed request r else r)
    marked_row j r e =
        find-update task_key it (completed request) (λ _. refl) j s.tasks
        ∙ ap (patch it (completed request)) e

    -- Exactly the pending children that have no unmet parent left after this completion become
    -- runnable.
    pub complete_task_releases :
        (j : Uuid) (r : TaskRow)
        → task j s ≡ some r
        → (contains j (complete_task request s).0.runnable_task_execution_ids ≡ true) ↔ (
            (r.status ≡ TaskStatus.pending)
            × (0 < count request.task_execution_id r.parent_task_ids)
            × (unmet (done (complete_task request s).1) r.parent_task_ids ≡ 0))
    complete_task_releases j r e =
        let listed =
          contains-update_child_dependencies j t.child_task_ids (marked request s t v h running)
            (update-UniqueKeys task_key it (completed request) (λ _. refl) s.tasks v.unique) in
        let less = fewer request s t v h running r in
        let left =
          unmet_same (done released) (done (complete_task request s).1) same_done
            r.parent_task_ids in
        let link = v.linked request.task_execution_id j t r h e in
        let row = marked_row j r e in
        (
          λ c.
              ground (arith, complete_task_running, listed, less, left, link, row, v.counted j r e),
          λ c.
              ground (arith, complete_task_running, listed, less, left, link, row, v.counted j r e),
        )

    -- The answer reports the workflow as completed exactly when it was running and every task of it
    -- is completed now.
    pub complete_task_finishes_workflow :
        (x : WorkflowRow)
        → workflow t.workflow_execution_id s ≡ some x
        → ((complete_task request s).0.workflow_completed ≡ true) ↔ (
            (x.status ≡ WorkflowStatus.running)
            × ((i : Uuid) (r : TaskRow)
                → task i (complete_task request s).1 ≡ some r
                → r.workflow_execution_id ≡ t.workflow_execution_id
                → r.status ≡ TaskStatus.completed))
    complete_task_finishes_workflow x e =
        let v' = after-Sound request s t v h running in
        let answer =
          complete_workflow_answer t.workflow_execution_id request.completed_at released v' x e in
        let whole =
          ap (λ (r : CompleteTaskExecutionResult × Store). r.0.workflow_completed)
            complete_task_running in
        (
          λ c. (
            ground (arith, answer, whole),
            λ i r hr own.
                all_finished t.workflow_execution_id request.completed_at released v' i r
                  (ap (find task_key i) (sym same_tasks) ∙ hr) (ground (arith, answer, whole)) own,
          ),
          λ c.
              elim (Bool-cases
                (unfinished t.workflow_execution_id request.completed_at released v')) [
                  | inr f ↦ ground (arith, answer, whole, c.0)
                  | inl u ↦
                      let (r, i, bad) = any-true-In _ released.tasks u in
                      let hr = find_of_In task_key r released.tasks v'.unique i in
                      ground (arith, bad, c.1 r.id r (ap (find task_key r.id) same_tasks ∙ hr))
                ],
        )

-- Whatever task is named, completing it keeps the invariant.
pub complete_task-Sound :
    (request : CompleteTaskExecutionRequest) (s : Store)
    → Sound s
    → Sound (complete_task request s).1
complete_task-Sound request s v = elim (Option-cases (task request.task_execution_id s)) [
  | inl n ↦ rw (complete_task_refused request s v.unique (ground arith)) v
  | inr (t, h) ↦ elim (Bool-cases (is_running t.status)) [
    | inr idle ↦ rw (complete_task_refused request s v.unique (ground arith)) v
    | inl busy ↦
        let running : t.status ≡ TaskStatus.running = ground arith in
        rw (complete_task_running request s t v h running) (
          complete_workflow-Sound t.workflow_execution_id request.completed_at
            (after request s t v h running) (after-Sound request s t v h running))
  ]
]
