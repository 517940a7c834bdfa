-- ===== src/Executions/Invariant.antt =====
-- The invariant of the execution tables: dependency counters, tries, outputs and statuses agree.
use automation_platform.Base.{
  ap, sym, ◌∙◌, ℕ, ◌+◌, ◌<◌, ◌≡◌, ◌≢◌, refl, Bool, true, false, Option, none, some, List, [], ◌∷◌,
  arith, ◌==◌, if◌then◌else◌, count,
}
use automation_platform.Domain.{Uuid, TaskStatus, WorkflowStatus}
use automation_platform.Table.{UniqueKeys}
use automation_platform.Executions.{
  TaskRow, WorkflowRow, Store, task_key, workflow_key, task, workflow, is_completed, is_active,
}
use automation_platform.Executions.Effects.{on_row}

abbrev pub is_done : Option TaskRow → Bool
is_done none = false
is_done (some r) = is_completed r.status

-- The task is there and completed.
abbrev pub done : Store → Uuid → Bool
done s i = is_done (task i s)

-- How many of the parents, with repetitions, are not completed.
abbrev pub unmet : (Uuid → Bool) → List Uuid → ℕ
unmet d [] = 0
unmet d (p ∷ ps) = (if d p then 0 else 1) + unmet d ps

-- The task was taken up by a worker, and was not cancelled since.
abbrev pub has_begun : TaskStatus → Bool
has_begun TaskStatus.running = true
has_begun TaskStatus.completed = true
has_begun TaskStatus.failed = true
has_begun _ = false

pub record Sound (s : Store) : Type 0 where
  pub unique : UniqueKeys task_key s.tasks
  pub unique_workflows : UniqueKeys workflow_key s.workflows
  -- parents and children mirror each other, repetitions included
  pub linked :
      (i j : Uuid) (p c : TaskRow)
      → task i s ≡ some p
      → task j s ≡ some c
      → count j p.child_task_ids ≡ count i c.parent_task_ids
  -- the counter of a waiting task is the number of its parents that are not completed
  pub counted :
      (i : Uuid) (r : TaskRow)
      → task i s ≡ some r
      → r.status ≡ TaskStatus.pending
      → r.remaining_dependencies ≡ unmet (done s) r.parent_task_ids
  -- no task begins before all its parents are completed
  pub begun :
      (i : Uuid) (r : TaskRow)
      → task i s ≡ some r
      → has_begun r.status ≡ true
      → unmet (done s) r.parent_task_ids ≡ 0
  pub stored :
      (i : Uuid) (r : TaskRow)
      → task i s ≡ some r
      → r.status ≡ TaskStatus.completed
      → r.output ≢ none
  pub tries :
      (i : Uuid) (r : TaskRow)
      → task i s ≡ some r
      → is_active r.status ≡ true
      → 0 < r.remaining_tries
  pub settled :
      (i w : Uuid) (r : TaskRow) (x : WorkflowRow)
      → task i s ≡ some r
      → workflow w s ≡ some x
      → r.workflow_execution_id ≡ w
      → (x.status ≡ WorkflowStatus.completed → r.status ≡ TaskStatus.completed)
        × (x.status ≡ WorkflowStatus.failed → is_active r.status ≡ false)

-- The counts depend on which tasks are done, and on nothing else.
pub unmet_same :
    (d d' : Uuid → Bool) → ((p : Uuid) → d' p ≡ d p) → (ps : List Uuid) → unmet d' ps ≡ unmet d ps
unmet_same d d' same [] = refl
unmet_same d d' same (p ∷ ps) = ground (arith, same p, unmet_same d d' same ps)

-- One more task is done: the count falls by as often as the task is a parent.
pub unmet_less :
    (t : Uuid) (d d' : Uuid → Bool)
    → d t ≡ false
    → ((p : Uuid) → d' p ≡ (if p == t then true else d p))
    → (ps : List Uuid) → unmet d' ps + count t ps ≡ unmet d ps
unmet_less t d d' h step [] = omega arith
unmet_less t d d' h step (p ∷ ps) = ground (arith, step p, h, unmet_less t d d' h step ps)

-- A row of the new table comes from a row of the old one.
pub on_row-some :
    (f : TaskRow → TaskRow) (o : Option TaskRow) (r' : TaskRow)
    → on_row f o ≡ some r'
    → (r : TaskRow) × (o ≡ some r) × (r' ≡ f r)
on_row-some f none r' h = ground arith
on_row-some f (some r) r' h = (r, refl, ground arith)

-- The fields that no operation changes.
pub record Static (f : TaskRow → TaskRow) : Type 0 where
  pub parents : (r : TaskRow) → (f r).parent_task_ids ≡ r.parent_task_ids
  pub children : (r : TaskRow) → (f r).child_task_ids ≡ r.child_task_ids
  pub owner : (r : TaskRow) → (f r).workflow_execution_id ≡ r.workflow_execution_id

module _ (s s' : Store) (f : TaskRow → TaskRow)
    (rows : (j : Uuid) → task j s' ≡ on_row f (task j s)) where
  -- A row of the new table is the image of the old row.
  pub old_row :
      (j : Uuid) (r' : TaskRow)
      → task j s' ≡ some r'
      → (r : TaskRow) × (task j s ≡ some r) × (r' ≡ f r)
  old_row j r' h = on_row-some f (task j s) r' (sym (rows j) ∙ h)

  pub linked_kept :
      Static f
      → Sound s
      → (i j : Uuid) (p c : TaskRow) → task i s' ≡ some p
      → task j s' ≡ some c
      → count j p.child_task_ids ≡ count i c.parent_task_ids
  linked_kept st v i j p c hp hc =
      let (p₀, hp₀, ep) = old_row i p hp in
      let (c₀, hc₀, ec) = old_row j c hc in
      ap (λ (r : TaskRow). count j r.child_task_ids) ep
      ∙ ap (count j) (st.children p₀)
      ∙ v.linked i j p₀ c₀ hp₀ hc₀
      ∙ sym (ap (count i) (st.parents c₀))
      ∙ sym (ap (λ (r : TaskRow). count i r.parent_task_ids) ec)
