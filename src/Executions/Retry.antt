-- ===== src/Executions/Retry.antt =====
-- `retry_task`: one try is consumed, and the last one fails the task and its workflow.
use automation_platform.Base.{
  ap, ◌∙◌, ◌≡◌, refl, Bool, true, false, ◌&&◌, none, some, [], arith, ◌==◌, if◌then◌else◌,
  Option-cases, inl, inr, filter_by,
}
use automation_platform.Domain.{Uuid, Time, TaskStatus, WorkflowStatus}
use automation_platform.Table.{
  find-update, patch, update-UniqueKeys, accept, of_option, filter_by_key, update_where,
  update_where_none, key-find,
}
use automation_platform.Executions.{
  TaskRow, WorkflowRow, Store, task_key, workflow_key, task, workflow, is_active,
  is_running_workflow, retried, may_retry, cancelled, fail_workflow, RetryTaskExecutionRequest,
}
use automation_platform.Executions.Effects.{on_row}
use automation_platform.Executions.Invariant.{Sound, Static, done, unmet_same, old_row, linked_kept}
use automation_platform.Executions.Start.{patch-on_row}

module _ (request : RetryTaskExecutionRequest) (s : Store) where
  abbrev pub tried : TaskRow → Bool
  tried r = may_retry request.task_execution_id r

  abbrev pub after : Store
  after = record s { tasks = update_where tried (retried request) s.tasks }

  abbrev pub retry_row : TaskRow → TaskRow
  retry_row r = if tried r then retried request r else r

  pub retry_rows : (j : Uuid) → task j after ≡ on_row retry_row (task j s)
  retry_rows j =
      find-update task_key tried (retried request) (λ _. refl) j s.tasks
      ∙ patch-on_row tried (retried request) (task j s)

  pub retry-Static : Static retry_row
  retry-Static = record {
    parents = λ r. ground arith;
    children = λ r. ground arith;
    owner = λ r. ground arith;
  }

  retry-done : (p : Uuid) → done after p ≡ done s p
  retry-done p = elim (Option-cases (task p s)) [
    | inl n ↦ ground (arith, retry_rows p)
    | inr (r, h) ↦ ground (arith, retry_rows p)
  ]

  pub after-Sound : Sound s → Sound after
  after-Sound v = record {
    unique = update-UniqueKeys task_key tried (retried request) (λ _. refl) s.tasks v.unique;
    unique_workflows = v.unique_workflows;
    linked = linked_kept s after retry_row retry_rows retry-Static v;
    counted = λ j r' h p.
        let (r, h₀, e) = old_row s after retry_row retry_rows j r' h in
        ground (
          arith,
          e,
          v.counted j r h₀,
          unmet_same (done s) (done after) retry-done r.parent_task_ids,
        );
    begun = λ j r' h p.
        let (r, h₀, e) = old_row s after retry_row retry_rows j r' h in
        ground
          (arith, e, v.begun j r h₀, unmet_same (done s) (done after) retry-done r.parent_task_ids);
    stored = λ j r' h p.
        let (r, h₀, e) = old_row s after retry_row retry_rows j r' h in
        ground (arith, e, v.stored j r h₀);
    tries = λ j r' h p.
        let (r, h₀, e) = old_row s after retry_row retry_rows j r' h in
        ground (arith, e, v.tries j r h₀);
    settled = λ j w r' x h hw p.
        let (r, h₀, e) = old_row s after retry_row retry_rows j r' h in
        ground (arith, e, v.settled j w r x h₀ hw);
  }

module _ (w : Uuid) (now : Time) (s : Store) where
  abbrev pub of_workflow : TaskRow → Bool
  of_workflow r = r.workflow_execution_id == w && is_active r.status

  abbrev pub is_it : WorkflowRow → Bool
  is_it r = r.id == w && is_running_workflow r.status

  abbrev pub failing : WorkflowRow → WorkflowRow
  failing r = record r { status = WorkflowStatus.failed; completed_at = some now }

  -- The tables after a workflow has failed.
  abbrev pub failed : Store
  failed = record {
    workflows = update_where is_it failing s.workflows;
    tasks = update_where of_workflow (cancelled now) s.tasks;
  }

  abbrev pub cancel_row : TaskRow → TaskRow
  cancel_row r = if of_workflow r then cancelled now r else r

  pub cancel_rows : (j : Uuid) → task j failed ≡ on_row cancel_row (task j s)
  cancel_rows j =
      find-update task_key of_workflow (cancelled now) (λ _. refl) j s.tasks
      ∙ patch-on_row of_workflow (cancelled now) (task j s)

  pub failing_row : (i : Uuid) → workflow i failed ≡ patch is_it failing (workflow i s)
  failing_row i = find-update workflow_key is_it failing (λ _. refl) i s.workflows

  pub cancel-Static : Static cancel_row
  cancel-Static = record {
    parents = λ r. ground arith;
    children = λ r. ground arith;
    owner = λ r. ground arith;
  }

  cancel-done : (p : Uuid) → done failed p ≡ done s p
  cancel-done p = elim (Option-cases (task p s)) [
    | inl n ↦ ground (arith, cancel_rows p)
    | inr (r, h) ↦ ground (arith, cancel_rows p)
  ]

  settled_after :
      (v : Sound s) (j u : Uuid) (r r' : TaskRow) (x' : WorkflowRow)
      → task j s ≡ some r
      → r' ≡ cancel_row r
      → workflow u failed ≡ some x'
      → r'.workflow_execution_id ≡ u
      → (x'.status ≡ WorkflowStatus.completed → r'.status ≡ TaskStatus.completed)
        × (x'.status ≡ WorkflowStatus.failed → is_active r'.status ≡ false)
  settled_after v j u r r' x' h e hw p = elim (Option-cases (workflow u s)) [
    | inl n ↦ ground (arith, failing_row u)
    | inr (x, hx) ↦
        ground
          (arith, failing_row u, v.settled j u r x h hx, key-find workflow_key u s.workflows x hx)
  ]

  failed-Sound : Sound s → Sound failed
  failed-Sound v = record {
    unique = update-UniqueKeys task_key of_workflow (cancelled now) (λ _. refl) s.tasks v.unique;
    unique_workflows =
        update-UniqueKeys workflow_key is_it failing (λ _. refl) s.workflows v.unique_workflows;
    linked = linked_kept s failed cancel_row cancel_rows cancel-Static v;
    counted = λ j r' h p.
        let (r, h₀, e) = old_row s failed cancel_row cancel_rows j r' h in
        ground (
          arith,
          e,
          v.counted j r h₀,
          unmet_same (done s) (done failed) cancel-done r.parent_task_ids,
        );
    begun = λ j r' h p.
        let (r, h₀, e) = old_row s failed cancel_row cancel_rows j r' h in
        ground (
          arith,
          e,
          v.begun j r h₀,
          unmet_same (done s) (done failed) cancel-done r.parent_task_ids,
        );
    stored = λ j r' h p.
        let (r, h₀, e) = old_row s failed cancel_row cancel_rows j r' h in
        ground (arith, e, v.stored j r h₀);
    tries = λ j r' h p.
        let (r, h₀, e) = old_row s failed cancel_row cancel_rows j r' h in
        ground (arith, e, v.tries j r h₀);
    settled = λ j u r' x' h hw p.
        let (r, h₀, e) = old_row s failed cancel_row cancel_rows j r' h in
        settled_after v j u r r' x' h₀ e hw p;
  }

  -- What `_fail_workflow` does, by the state of the workflow's row.
  pub fail_workflow_lem :
      (v : Sound s)
      → fail_workflow w now s ≡ (elim (accept (λ r. is_running_workflow r.status) (workflow w s)) [
        | none ↦ (false, s)
        | some _ ↦ (true, failed)
      ])
  unfolding fail_workflow
  fail_workflow_lem v =
      let rows =
        filter_by_key workflow_key w (λ r. is_running_workflow r.status) s.workflows
          v.unique_workflows in
      elim (Option-cases (accept (λ r. is_running_workflow r.status) (workflow w s))) [
        | inl n ↦
            let nothing : filter_by is_it s.workflows ≡ [] = rows ∙ ap of_option n in
            ground (arith, n, nothing, update_where_none is_it failing s.workflows nothing)
        | inr (x, e) ↦ ground (arith, rows, e)
      ]

  pub fail_workflow-Sound : Sound s → Sound (fail_workflow w now s).1
  fail_workflow-Sound v =
      elim (Option-cases (accept (λ r. is_running_workflow r.status) (workflow w s))) [
        | inl n ↦ rw (fail_workflow_lem v) (rw n v)
        | inr (x, e) ↦ rw (fail_workflow_lem v) (rw e (failed-Sound v))
      ]
