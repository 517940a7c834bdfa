-- ===== src/Executions/Retrying.antt =====
-- `retry_task` as a whole: what it answers, and that it keeps the invariant.
use automation_platform.Base.{
  ap, sym, subst, ◌∙◌, ◌-◌, ◌<◌, ◌≡◌, Bool, true, false, ◌&&◌, none, some, [], arith, ◌==◌, ltb,
  if◌then◌else◌, Option-cases, inl, inr, filter_by, Bool-cases,
}
use automation_platform.Domain.{Uuid, TaskStatus, WorkflowStatus}
use automation_platform.Table.{
  accept, of_option, filter_by_key, update_where_none, UniqueKeys, key-find,
}
use automation_platform.Executions.{
  TaskRow, WorkflowRow, Store, task_key, workflow_key, task, workflow, is_running, is_active,
  retried, fail_workflow, cancelled, retry_task, RetryTaskExecutionRequest,
}
use automation_platform.Executions.Invariant.{Sound}
use automation_platform.Executions.Retry.{
  tried, after, after-Sound, retry_rows, cancel_rows, fail_workflow_lem, failing_row,
  fail_workflow-Sound,
}

module _ (request : RetryTaskExecutionRequest) (s : Store) where
  abbrev pub can_retry : TaskRow → Bool
  can_retry r = is_running r.status && ltb 0 r.remaining_tries

  pub tried_row :
      UniqueKeys task_key s.tasks
      → filter_by (tried request s) s.tasks
        ≡ of_option (accept can_retry (task request.task_execution_id s))
  tried_row u = filter_by_key task_key request.task_execution_id can_retry s.tasks u

  -- A task that is not running, or has no try left, is left alone.
  pub retry_task_refused :
      UniqueKeys task_key s.tasks
      → accept can_retry (task request.task_execution_id s) ≡ none
      → retry_task request s ≡ (record { should_retry = false; workflow_failed = false }, s)
  unfolding retry_task
  retry_task_refused u n =
      let nothing : filter_by (tried request s) s.tasks ≡ [] = tried_row u ∙ ap of_option n in
      ground (arith, nothing, update_where_none (tried request s) (retried request) s.tasks nothing)

  module _ (t : TaskRow) (v : Sound s) (h : task request.task_execution_id s ≡ some t)
      (running : t.status ≡ TaskStatus.running) where
    -- With another try left the answer is to retry: the task stays running with one try less and
    -- the error message, and no other row changes.
    pub retry_task_again :
        1 < t.remaining_tries
        → ((retry_task request s).0 ≡ record { should_retry = true; workflow_failed = false })
          × ((retry_task request s).1.workflows ≡ s.workflows)
          × ((j : Uuid)
              → task j (retry_task request s).1 ≡ (
                  if j == request.task_execution_id
                  then some (record t {
                    remaining_tries = t.remaining_tries - 1;
                    error_message = request.error_message;
                    completed_at = none;
                  })
                  else task j s))
    unfolding retry_task
    retry_task_again more =
        let row = tried_row v.unique in
        (
          ground (arith, row, h),
          ground (arith, row, h),
          λ j. elim (Option-cases (task j s)) [
            | inl n ↦ ground (arith, row, h, retry_rows request s j)
            | inr (r, e) ↦
                ground (arith, row, h, retry_rows request s j, key-find task_key j s.tasks r e)
          ],
        )

    retry_task_last :
        t.remaining_tries ≡ 1
        → let (f, s') =
            fail_workflow t.workflow_execution_id request.completed_at (after request s) in
          retry_task request s ≡ (record { should_retry = false; workflow_failed = f }, s')
    unfolding retry_task
    retry_task_last last = ground (arith, tried_row v.unique, h)

    -- The last try fails the running workflow: the answer says so, the row of the workflow is failed
    -- and no other workflow changes, the task itself is failed, every other pending or running task of
    -- the workflow is cancelled, and no task of another workflow changes.
    pub retry_task_exhausted :
        (x : WorkflowRow)
        → t.remaining_tries ≡ 1
        → workflow t.workflow_execution_id s ≡ some x
        → x.status ≡ WorkflowStatus.running
        → ((retry_task request s).0 ≡ record { should_retry = false; workflow_failed = true })
          × ((j : Uuid) (r : TaskRow)
              → task j s ≡ some r
              → task j (retry_task request s).1
                ≡ some (
                    if j == request.task_execution_id
                    then record t {
                      remaining_tries = 0;
                      status = TaskStatus.failed;
                      error_message = request.error_message;
                      completed_at = some request.completed_at;
                    }
                    else if r.workflow_execution_id == t.workflow_execution_id && is_active r.status
                    then cancelled request.completed_at r
                    else r))
          × ((k : Uuid) (y : WorkflowRow)
              → workflow k s ≡ some y
              → workflow k (retry_task request s).1
                ≡ some (
                    if k == t.workflow_execution_id
                    then record y {
                      status = WorkflowStatus.failed;
                      completed_at = some request.completed_at;
                    }
                    else y))
    retry_task_exhausted x last hw busy =
        let w = t.workflow_execution_id in
        let now = request.completed_at in
        let fails = fail_workflow_lem w now (after request s) (after-Sound request s v) in
        let whole = retry_task_last last in
        (
          ground (arith, whole, fails, hw),
          λ j r e. ground (
            arith,
            whole,
            fails,
            hw,
            h,
            e,
            cancel_rows w now (after request s) j,
            retry_rows request s j,
            key-find task_key j s.tasks r e,
          ),
          λ k y e.
              let same = key-find workflow_key k s.workflows y e in
              let row = failing_row w now (after request s) k in
              let only : (k == w) ≡ true → y ≡ x = λ b. let q : k ≡ w = ground arith in cc in
              ground (arith, whole, fails, hw, row, e, same, only),
        )

  -- Whatever task is named, retrying it keeps the invariant.
  pub retry_task-Sound : Sound s → Sound (retry_task request s).1
  unfolding retry_task
  retry_task-Sound v = elim (Option-cases (accept can_retry (task request.task_execution_id s))) [
    | inl n ↦ rw (retry_task_refused v.unique n) v
    | inr (r, e) ↦
        let w = r.workflow_execution_id in
        let next =
          fail_workflow-Sound w request.completed_at (after request s) (after-Sound request s v) in
        elim (Bool-cases (ltb 0 (r.remaining_tries - 1))) [
          | inl again ↦
              let eq : (retry_task request s).1 ≡ after request s =
                ground (arith, tried_row v.unique, e) in
              subst Sound (sym eq) (after-Sound request s v)
          | inr last ↦
              let eq : (retry_task request s).1
                  ≡ (fail_workflow w request.completed_at (after request s)).1 =
                ground (arith, tried_row v.unique, e) in
              subst Sound (sym eq) next
        ]
  ]
