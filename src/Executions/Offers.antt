-- ===== src/Executions/Offers.antt =====
-- The ids that the repository names as runnable are those of ready tasks.
use mathlib.Core.Bool.{false≢true}
use automation_platform.Base.{
  ap, sym, ◌∙◌, ◌≡◌, refl, true, ◌&&◌, none, some, List, [], ◌∷◌, map, arith, ◌==◌, contains,
  filter_by, Option-cases, Bool-cases, inl, inr,
}
use automation_platform.Domain.{Uuid, TaskStatus}
use automation_platform.Table.{
  In, In-filter_by, find, find_of_In, find-update, patch, update-UniqueKeys,
}
use automation_platform.Executions.{
  TaskRow, Store, task_key, task, is_pending, is_running, find_runnable_ids, complete_task,
  completed, CompleteTaskExecutionRequest,
}
use automation_platform.Executions.Effects.{contains-update_child_dependencies}
use automation_platform.Executions.Invariant.{Sound}
use automation_platform.Executions.Complete.{is_it, marked}
use automation_platform.Executions.Completion.{
  complete_task_refused, complete_task_running, complete_task_releases,
}
use automation_platform.Executions.Progress.{Ready, complete_task-Progress}

contains-map :
    (i : Uuid) (rows : List TaskRow)
    → contains i (map task_key rows) ≡ true
    → (r : TaskRow) × In r rows × (r.id ≡ i)
contains-map i [] h = absurd (false≢true h)
contains-map i (x ∷ rows) h = elim (Bool-cases (i == x.id)) [
  | inl e ↦ (x, inl refl, ground arith)
  | inr e ↦ let (r, j, k) = contains-map i rows (ground arith) in (r, inr j, k)
]

-- What the reconciler reads is ready.
pub find_runnable_ids-Ready :
    (s : Store) (i : Uuid) → Sound s → contains i (find_runnable_ids s) ≡ true → Ready s i
unfolding find_runnable_ids
find_runnable_ids-Ready s i v h =
    let p = λ (r : TaskRow). is_pending r.status && r.remaining_dependencies == 0 in
    let (r, j, k) = contains-map i (filter_by p s.tasks) h in
    let (m, t) = In-filter_by p r s.tasks j in
    let hr = find_of_In task_key r s.tasks v.unique m in
    (
      r,
      ap (λ (x : Uuid). find task_key x s.tasks) (sym k) ∙ hr,
      ground (arith, v.counted r.id r hr),
    )

module _ (request : CompleteTaskExecutionRequest) (s : Store) (t : TaskRow) (v : Sound s)
    (h : task request.task_execution_id s ≡ some t) (running : t.status ≡ TaskStatus.running) where
  -- A child that is reported has a row.
  released_row :
      (j : Uuid)
      → contains j (complete_task request s).0.runnable_task_execution_ids ≡ true
      → (r : TaskRow) × (task j s ≡ some r)
  released_row j c = elim (Option-cases (task j s)) [
    | inr (r, e) ↦ (r, e)
    | inl n ↦
        let it = is_it request s t v h running in
        let listed =
          contains-update_child_dependencies j t.child_task_ids (marked request s t v h running)
            (update-UniqueKeys task_key it (completed request) (λ _. refl) s.tasks v.unique) in
        let gone : find task_key j (marked request s t v h running) ≡ none =
          find-update task_key it (completed request) (λ _. refl) j s.tasks
          ∙ ap (patch it (completed request)) n in
        ground (arith, complete_task_running request s t v h running, listed, gone)
  ]

  released-Ready :
      (j : Uuid)
      → contains j (complete_task request s).0.runnable_task_execution_ids ≡ true
      → Ready (complete_task request s).1 j
  released-Ready j c =
      let (r, e) = released_row j c in
      let (_, _, z) = (complete_task_releases request s t v h running j r e).0 c in
      let (r', e', same) = (complete_task-Progress request s v).kept j r e in (r', e', rw same z)

-- What a completed task hands on is ready.
pub complete_task-Ready :
    (request : CompleteTaskExecutionRequest) (s : Store) (j : Uuid)
    → Sound s
    → contains j (complete_task request s).0.runnable_task_execution_ids ≡ true
    → Ready (complete_task request s).1 j
complete_task-Ready request s j v c = elim (Option-cases (task request.task_execution_id s)) [
  | inl n ↦ ground (arith, complete_task_refused request s v.unique (ground arith))
  | inr (t, h) ↦ elim (Bool-cases (is_running t.status)) [
    | inr idle ↦ ground (arith, complete_task_refused request s v.unique (ground arith))
    | inl busy ↦ released-Ready request s t v h (ground arith) j c
  ]
]
