-- ===== src/Executions/Progress.antt =====
-- What no operation of the repository undoes: completed tasks stay completed, tasks and their
-- parents stay, so a task that is ready stays ready.
use automation_platform.Base.{
  ap, sym, subst, ◌∙◌, ◌-◌, ◌≡◌, refl, Bool, true, some, List, [], ◌∷◌, arith, ltb, Option-cases,
  inl, inr, Bool-cases,
}
use automation_platform.Domain.{Uuid, Time, TaskStatus}
use automation_platform.Table.{find, accept}
use automation_platform.Executions.{
  TaskRow, Store, task_key, task, is_running, is_completed, is_running_workflow, mark_started,
  workflow, complete_task, retry_task, fail_workflow, CompleteTaskExecutionRequest,
  RetryTaskExecutionRequest,
}
use automation_platform.Executions.Effects.{on_row}
use automation_platform.Executions.Invariant.{Sound, Static, done, is_done, unmet}
use automation_platform.Executions.Start.{start_row, start_rows, start-Static}
use automation_platform.Executions.Complete.{
  complete_row, complete_rows, complete-Static, after as completed_store,
}
use automation_platform.Executions.Completion.{complete_task_refused, same_tasks}
use automation_platform.Executions.Retry.{
  after, retry_row, retry_rows, retry-Static, failed, cancel_row, cancel_rows, cancel-Static,
  fail_workflow_lem, after-Sound,
}
use automation_platform.Executions.Retrying.{retry_task_refused, can_retry, tried_row}

-- The task is there and all its parents are completed.
abbrev pub Ready : Store → Uuid → Type 0
Ready s i = (r : TaskRow) × (task i s ≡ some r) × (unmet (done s) r.parent_task_ids ≡ 0)

pub record Progress (s s' : Store) : Type 0 where
  pub kept :
      (i : Uuid) (r : TaskRow)
      → task i s ≡ some r
      → (r' : TaskRow) × (task i s' ≡ some r') × (r'.parent_task_ids ≡ r.parent_task_ids)
  pub done_kept : (p : Uuid) → done s p ≡ true → done s' p ≡ true

pub Progress-refl : (s : Store) → Progress s s
Progress-refl s = record { kept = λ i r h. (r, h, refl); done_kept = λ p h. h }

pub Progress-trans : (s t u : Store) → Progress s t → Progress t u → Progress s u
Progress-trans s t u a b = record {
  kept = λ i r h.
      let (r', h', e) = a.kept i r h in let (x, hx, ex) = b.kept i r' h' in (x, hx, ex ∙ e);
  done_kept = λ p h. b.done_kept p (a.done_kept p h);
}

unmet_zero_mono :
    (d d' : Uuid → Bool)
    → ((p : Uuid) → d p ≡ true → d' p ≡ true)
    → (ps : List Uuid) → unmet d ps ≡ 0
    → unmet d' ps ≡ 0
unmet_zero_mono d d' mono [] h = refl
unmet_zero_mono d d' mono (p ∷ ps) h = ground (arith, mono p, unmet_zero_mono d d' mono ps)

pub Ready-Progress : (s s' : Store) (i : Uuid) → Progress s s' → Ready s i → Ready s' i
Ready-Progress s s' i pr (r, h, z) =
    let (r', h', e) = pr.kept i r h in
    (r', h', rw e (unmet_zero_mono (done s) (done s') pr.done_kept r.parent_task_ids z))

pub rows-Progress :
    (s s' : Store) (f : TaskRow → TaskRow)
    → ((j : Uuid) → task j s' ≡ on_row f (task j s))
    → Static f
    → ((r : TaskRow) → is_completed r.status ≡ true → is_completed (f r).status ≡ true)
    → Progress s s'
rows-Progress s s' f rows st keeps = record {
  kept = λ i r h. (f r, ground (arith, rows i, h), st.parents r);
  done_kept = λ p h. elim (Option-cases (task p s)) [
    | inl n ↦ ground arith
    | inr (r, e) ↦ ground (arith, rows p, keeps r)
  ];
}

tasks-Progress : (s s' : Store) → s'.tasks ≡ s.tasks → Progress s s'
tasks-Progress s s' e = record {
  kept = λ i r h. (r, ap (find task_key i) e ∙ h, refl);
  done_kept = λ p h. ap (λ ts. is_done (find task_key p ts)) e ∙ h;
}

pub mark_started-Progress : (i : Uuid) (now : Time) (s : Store) → Progress s (mark_started i now s)
mark_started-Progress i now s =
    rows-Progress s (mark_started i now s) (start_row i now s) (start_rows i now s)
      (start-Static i now s) (λ r h. ground arith)

-- A completion undoes nothing: every task keeps its row and its parents, and every task that was
-- completed stays completed.
pub complete_task-Progress :
    (request : CompleteTaskExecutionRequest) (s : Store)
    → Sound s
    → Progress s (complete_task request s).1
complete_task-Progress request s v = elim (Option-cases (task request.task_execution_id s)) [
  | inl n ↦ rw (complete_task_refused request s v.unique (ground arith)) (Progress-refl s)
  | inr (t, h) ↦ elim (Bool-cases (is_running t.status)) [
    | inr idle ↦ rw (complete_task_refused request s v.unique (ground arith)) (Progress-refl s)
    | inl busy ↦
        let running : t.status ≡ TaskStatus.running = ground arith in
        Progress-trans s (completed_store request s t v h running) (complete_task request s).1
          (rows-Progress s (completed_store request s t v h running)
            (complete_row request s t v h running) (complete_rows request s t v h running)
            (complete-Static request s t v h running) (λ r c. ground arith))
          (tasks-Progress _ _ (same_tasks request s t v h running))
  ]
]

fail_workflow-Progress :
    (w : Uuid) (now : Time) (s : Store) → Sound s → Progress s (fail_workflow w now s).1
fail_workflow-Progress w now s v =
    elim (Option-cases (accept (λ r. is_running_workflow r.status) (workflow w s))) [
      | inl n ↦ rw (fail_workflow_lem w now s v) (rw n (Progress-refl s))
      | inr (x, e) ↦ rw (fail_workflow_lem w now s v) (
          rw e (
            rows-Progress s (failed w now s) (cancel_row w now s) (cancel_rows w now s)
              (cancel-Static w now s) (λ r c. ground arith)))
    ]

pub retry_task-Progress :
    (request : RetryTaskExecutionRequest) (s : Store)
    → Sound s
    → Progress s (retry_task request s).1
unfolding retry_task
retry_task-Progress request s v =
    let first : Progress s (after request s) =
      rows-Progress s (after request s) (retry_row request s) (retry_rows request s)
        (retry-Static request s) (λ r c. ground arith) in
    elim (Option-cases (accept (can_retry request s) (task request.task_execution_id s))) [
      | inl n ↦ rw (retry_task_refused request s v.unique n) (Progress-refl s)
      | inr (r, e) ↦
          let w = r.workflow_execution_id in
          let now = request.completed_at in
          elim (Bool-cases (ltb 0 (r.remaining_tries - 1))) [
            | inl again ↦
                let eq : (retry_task request s).1 ≡ after request s =
                  ground (arith, tried_row request s v.unique, e) in
                subst (Progress s) (sym eq) first
            | inr last ↦
                let eq : (retry_task request s).1 ≡ (fail_workflow w now (after request s)).1 =
                  ground (arith, tried_row request s v.unique, e) in
                subst (Progress s) (sym eq) (
                  Progress-trans s (after request s) (fail_workflow w now (after request s)).1 first
                    (fail_workflow-Progress w now (after request s) (after-Sound request s v)))
          ]
    ]
