-- ===== src/Executions/Complete.antt =====
-- `complete_task`: the transition of the task, its children and its workflow.
use automation_platform.Base.{
  ap, ◌∙◌, ◌+◌, ◌≡◌, refl, Bool, true, false, ◌&&◌, not, Option, none, some, List, arith, ◌==◌,
  if◌then◌else◌, count, Option-cases, inl, inr, any,
}
use automation_platform.Domain.{Uuid, Time, TaskStatus, WorkflowStatus}
use automation_platform.Table.{
  In-find, any-false-In, find-update, patch, filter_by_key, update-UniqueKeys, update_where,
  UniqueKeys, key-find,
}
use automation_platform.Executions.{
  TaskRow, WorkflowRow, Store, task_key, workflow_key, task, workflow, is_running, is_active,
  is_completed, is_running_workflow, completed, update_child_dependencies,
  complete_workflow_if_finished, CompleteTaskExecutionRequest,
}
use automation_platform.Executions.Effects.{
  on_row, lowered, find-update_child_dependencies, update_child_dependencies-UniqueKeys,
}
use automation_platform.Executions.Invariant.{
  Sound, Static, done, unmet, unmet_less, old_row, linked_kept,
}

module _ (request : CompleteTaskExecutionRequest) (s : Store) (t : TaskRow) (v : Sound s)
    (h : task request.task_execution_id s ≡ some t) (running : t.status ≡ TaskStatus.running) where
  abbrev pub is_it : TaskRow → Bool
  is_it r = r.id == request.task_execution_id && is_running r.status

  abbrev pub marked : List TaskRow
  marked = update_where is_it (completed request) s.tasks

  -- The tables after the task and its children, before the workflow.
  abbrev pub after : Store
  after = record s { tasks = (update_child_dependencies t.child_task_ids marked).1 }

  abbrev pub complete_row : TaskRow → TaskRow
  complete_row r =
      lowered (count r.id t.child_task_ids) (
        if r.id == request.task_execution_id && is_running r.status then completed request r else r)

  pub complete_rows : (j : Uuid) → task j after ≡ on_row complete_row (task j s)
  complete_rows j =
      let mark = find-update task_key is_it (completed request) (λ _. refl) j s.tasks in
      let lower = find-update_child_dependencies j t.child_task_ids marked in
      elim (Option-cases (task j s)) [
        | inl n ↦ ground (arith, mark, lower)
        | inr (r, e) ↦
            let k = key-find task_key j s.tasks r e in
            lower ∙ ap (on_row (lowered (count j t.child_task_ids))) mark ∙ rw (e, ← k) refl
      ]

  pub complete-Static : Static complete_row
  complete-Static = record {
    parents = λ r. ground arith;
    children = λ r. ground arith;
    owner = λ r. ground arith;
  }

  -- The completed task is done now, and no other task has changed in that.
  pub complete-done :
      (p : Uuid) → done after p ≡ (if p == request.task_execution_id then true else done s p)
  complete-done p = elim (Option-cases (task p s)) [
    | inl n ↦ ground (arith, complete_rows p, h)
    | inr (r, e) ↦ ground (arith, complete_rows p, h, key-find task_key p s.tasks r e)
  ]

  not_done : done s request.task_execution_id ≡ false
  not_done = ground arith

  pub fewer :
      (r : TaskRow)
      → unmet (done after) r.parent_task_ids + count request.task_execution_id r.parent_task_ids
        ≡ unmet (done s) r.parent_task_ids
  fewer r =
      unmet_less request.task_execution_id (done s) (done after) not_done complete-done
        r.parent_task_ids

  pub after-UniqueKeys : UniqueKeys task_key after.tasks
  after-UniqueKeys =
      update_child_dependencies-UniqueKeys t.child_task_ids marked
        (update-UniqueKeys task_key is_it (completed request) (λ _. refl) s.tasks v.unique)

  pub after-Sound : Sound after
  after-Sound = record {
    unique = after-UniqueKeys;
    unique_workflows = v.unique_workflows;
    linked = linked_kept s after complete_row complete_rows complete-Static v;
    counted = λ j r' h' p.
        let (r, h₀, e) = old_row s after complete_row complete_rows j r' h' in
        ground (
          arith,
          e,
          fewer r,
          v.counted j r h₀,
          key-find task_key j s.tasks r h₀,
          v.linked request.task_execution_id j t r h h₀,
        );
    begun = λ j r' h' p.
        let (r, h₀, e) = old_row s after complete_row complete_rows j r' h' in
        ground (arith, e, fewer r, v.begun j r h₀);
    stored = λ j r' h' p.
        let (r, h₀, e) = old_row s after complete_row complete_rows j r' h' in
        ground (arith, e, v.stored j r h₀);
    tries = λ j r' h' p.
        let (r, h₀, e) = old_row s after complete_row complete_rows j r' h' in
        ground (arith, e, v.tries j r h₀);
    settled = λ j w r' x h' hw p.
        let (r, h₀, e) = old_row s after complete_row complete_rows j r' h' in
        ground (arith, e, v.settled j w r x h₀ hw);
  }

module _ (w : Uuid) (now : Time) (s : Store) (v : Sound s) where
  abbrev pub unfinished : Bool
  unfinished =
      any (λ (r : TaskRow). r.workflow_execution_id == w && not (is_completed r.status)) s.tasks

  abbrev pub is_finished : WorkflowRow → Bool
  is_finished r = r.id == w && (is_running_workflow r.status && not unfinished)

  abbrev pub finished : WorkflowRow → WorkflowRow
  finished r = record r { status = WorkflowStatus.completed; completed_at = some now }

  pub all_finished :
      (i : Uuid) (r : TaskRow)
      → task i s ≡ some r
      → unfinished ≡ false
      → r.workflow_execution_id ≡ w
      → r.status ≡ TaskStatus.completed
  all_finished i r h u e =
      let p = λ (r : TaskRow). r.workflow_execution_id == w && not (is_completed r.status) in
      let n = any-false-In p r s.tasks u (In-find task_key i s.tasks r h) in ground arith

  finished_row :
      (i : Uuid)
      → workflow i (complete_workflow_if_finished w now s).1
        ≡ patch is_finished finished (workflow i s)
  unfolding complete_workflow_if_finished
  finished_row i = find-update workflow_key is_finished finished (λ _. refl) i s.workflows

  -- A workflow ends only with every task of it completed.
  pub complete_workflow-Sound : Sound (complete_workflow_if_finished w now s).1
  unfolding complete_workflow_if_finished
  complete_workflow-Sound = record {
    unique = v.unique;
    unique_workflows =
        update-UniqueKeys workflow_key is_finished finished (λ _. refl) s.workflows
          v.unique_workflows;
    linked = v.linked;
    counted = v.counted;
    begun = v.begun;
    stored = v.stored;
    tries = v.tries;
    settled = λ i u r x' h hw p. settle i u r x' h hw p (workflow u s) refl;
  }
    where
      settle :
          (i u : Uuid) (r : TaskRow) (x' : WorkflowRow)
          → task i s ≡ some r
          → workflow u (complete_workflow_if_finished w now s).1 ≡ some x'
          → r.workflow_execution_id ≡ u
          → (o : Option WorkflowRow) → workflow u s ≡ o
          → (x'.status ≡ WorkflowStatus.completed → r.status ≡ TaskStatus.completed)
            × (x'.status ≡ WorkflowStatus.failed → is_active r.status ≡ false)
      settle i u r x' h hw p none e = ground (arith, finished_row u)
      settle i u r x' h hw p (some x) e =
          let k = key-find workflow_key u s.workflows x e in
          ground (arith, finished_row u, v.settled i u r x h e, all_finished i r h)

  -- The answer says whether the workflow was running and every task of it is completed.
  pub complete_workflow_answer :
      (x : WorkflowRow)
      → workflow w s ≡ some x
      → (complete_workflow_if_finished w now s).0 ≡ (is_running_workflow x.status && not unfinished)
  unfolding complete_workflow_if_finished
  complete_workflow_answer x e = ground (
    arith,
    filter_by_key workflow_key w (λ r. is_running_workflow r.status && not unfinished) s.workflows
        v.unique_workflows,
    e,
  )
