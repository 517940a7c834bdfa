-- ===== src/Executions/Liveness.antt =====
-- No task waits without a cause: behind every pending task stands a task that the reconciler offers, or
-- one that is running, has failed or was cancelled.
use automation_platform.Base.{
  ◌<◌, ◌≡◌, ◌⊎◌, refl, Bool, true, false, ◌&&◌, some, List, [], ◌∷◌, arith, ◌==◌, contains, inl,
  inr, ap, subst, Bool-cases, map, filter_by,
}
use automation_platform.Domain.{Uuid, TaskStatus}
use automation_platform.Table.{In, In-find, In-filter_by_of, key-find}
use automation_platform.Executions.{
  TaskRow, Store, task_key, task, is_pending, is_completed, find_runnable_ids,
}
use automation_platform.Executions.Invariant.{Sound, done, unmet}
use automation_platform.Executions.Progress.{Progress}

-- The task and all tasks that it waits for, over any number of steps, have rows, and every chain of
-- parents ends.
pub data Grounded (s : Store) : Uuid → Type 0 where
  grounded :
      (i : Uuid) (r : TaskRow)
      → task i s ≡ some r
      → ((p : Uuid) → contains p r.parent_task_ids ≡ true → Grounded s p)
      → Grounded s i

-- `j` is the task `i`, or a task that it waits for, over any number of steps.
pub data Above (s : Store) (j : Uuid) : Uuid → Type 0 where
  here : Above s j j
  above :
      (i p : Uuid) (r : TaskRow)
      → task i s ≡ some r
      → contains p r.parent_task_ids ≡ true
      → Above s j p
      → Above s j i

-- No later transaction takes this away.
pub Grounded-Progress : (s s' : Store) (i : Uuid) → Progress s s' → Grounded s i → Grounded s' i
Grounded-Progress s s' i pr (Grounded.grounded _ r h parents) =
    let (r', h', e) = pr.kept i r h in
    Grounded.grounded i r' h'
      (λ p c. Grounded-Progress s s' p pr (parents p (subst (λ ps. contains p ps ≡ true) e c)))

-- Some parent is not completed.
unmet_parent :
    (d : Uuid → Bool) (ps : List Uuid)
    → 0 < unmet d ps
    → (p : Uuid) × (contains p ps ≡ true) × (d p ≡ false)
unmet_parent d [] h = absurd (omega arith)
unmet_parent d (p ∷ ps) h = elim (Bool-cases (d p)) [
  | inl t ↦ let (q, c, f) = unmet_parent d ps (ground arith) in (q, ground arith, f)
  | inr f ↦ (p, ground arith, f)
]

contains-map_of :
    (r : TaskRow) (rows : List TaskRow) → In r rows → contains r.id (map task_key rows) ≡ true
contains-map_of r [] i = absurd i
contains-map_of r (x ∷ rows) (inl e) = let q = ap task_key e in ground arith
contains-map_of r (x ∷ rows) (inr i) = ground (arith, contains-map_of r rows i)

-- A pending task without remaining dependencies is offered.
pub offered :
    (s : Store) (i : Uuid) (r : TaskRow)
    → task i s ≡ some r
    → is_pending r.status ≡ true
    → r.remaining_dependencies ≡ 0
    → contains i (find_runnable_ids s) ≡ true
unfolding find_runnable_ids
offered s i r h p z =
    let m =
      In-filter_by_of (λ (r : TaskRow). is_pending r.status && r.remaining_dependencies == 0) r
        s.tasks (In-find task_key i s.tasks r h) (ground arith) in
    subst
      (λ k.
        contains k (
          map task_key (
            filter_by (λ (r : TaskRow). is_pending r.status && r.remaining_dependencies == 0)
              s.tasks))
        ≡ true)
      (key-find task_key i s.tasks r h) (contains-map_of r _ m)

-- The task has left the queue of waiting tasks without being completed: it is running, has failed or
-- was cancelled.
abbrev pub is_stopped : TaskStatus → Bool
is_stopped TaskStatus.pending = false
is_stopped TaskStatus.completed = false
is_stopped _ = true

-- A status is one of three kinds.
kinds : (t : TaskStatus) → is_completed t ≡ false → (t ≡ TaskStatus.pending) ⊎ (is_stopped t ≡ true)
kinds TaskStatus.pending h = inl refl
kinds TaskStatus.running h = inr refl
kinds TaskStatus.completed h = cc
kinds TaskStatus.failed h = inr refl
kinds TaskStatus.cancelled h = inr refl

-- The task `i`, or one that it waits for, is offered or has stopped to wait.
abbrev pub Cause : Store → Uuid → Type 0
Cause s i =
    (j : Uuid) × (x : TaskRow) × Above s j i
    × (task j s ≡ some x)
    × ((contains j (find_runnable_ids s) ≡ true) ⊎ (is_stopped x.status ≡ true))

Grounded-Cause : (s : Store) (i : Uuid) → Sound s → Grounded s i → done s i ≡ false → Cause s i
Grounded-Cause s i v (Grounded.grounded _ r h parents) n = elim (kinds r.status (rw h at n)) [
  | inr stopped ↦ (i, r, Above.here, h, inr stopped)
  | inl p ↦
      let counter = v.counted i r h p in
      elim (Bool-cases (r.remaining_dependencies == 0)) [
        | inl z ↦ (i, r, Above.here, h, inl (offered s i r h (ap is_pending p) (ground arith)))
        | inr pos ↦
            let (q, c, f) = unmet_parent (done s) r.parent_task_ids (ground arith) in
            let (j, x, up, hx, cause) = Grounded-Cause s q v (parents q c) f in
            (j, x, Above.above i q r h c up, hx, cause)
      ]
]

-- Behind every task that is not completed stands a cause: the task itself, or one that it waits for
-- over some chain of parents, is offered by the reconciler, or is running, has failed or was
-- cancelled. The chains of parents from the task end, and each task on them has a row.
pub waiting_task_has_cause :
    (s : Store) (i : Uuid) (r : TaskRow)
    → Sound s
    → Grounded s i
    → task i s ≡ some r
    → is_completed r.status ≡ false
    → (j : Uuid) × (x : TaskRow) × Above s j i
      × (task j s ≡ some x)
      × ((contains j (find_runnable_ids s) ≡ true) ⊎ (is_stopped x.status ≡ true))
waiting_task_has_cause s i r v g h n = Grounded-Cause s i v g (rw h n)
