-- ===== src/Launch/Storage.antt =====
-- `WorkflowExecutionRepository.create`: the rows of the execution go to the end of the tables, which
-- keep their primary keys.
use mathlib.Core.List.{append_assoc, append-nil}
use automation_platform.Base.{
  ℕ, ◌≡◌, refl, Option, none, some, subst, List, [], ◌∷◌, ◌++◌, map, arith, sym, ◌∙◌, inl, inr,
  Option-cases, Bool-cases,
}
use automation_platform.Domain.{WorkflowExecution}
use automation_platform.Errors.{Result, ok, raised, data_error, integrity_error, ◌>>=◌}
use automation_platform.Table.{find, UniqueKeys, append-UniqueKeys}
use automation_platform.Executions.{TaskRow, WorkflowRow, Store, workflow, task_key}
use automation_platform.Launch.{
  fits_columns, insert_tasks, create, task_to_model, workflow_to_model,
}

-- All primary keys of the new rows are free, in the table and among the rows before.
abbrev pub Free : List TaskRow → List TaskRow → Type 0
Free [] ts = Unit
Free (r ∷ rows) ts = (find task_key r.id ts ≡ none) × Free rows (ts ++ r ∷ [])

pub insert_tasks_lem :
    (rows ts ts' : List TaskRow) → insert_tasks rows ts ≡ ok ts' → (ts' ≡ ts ++ rows) × Free rows ts
unfolding insert_tasks
insert_tasks_lem [] ts ts' h = let same : ts' ≡ ts = cc in (same ∙ sym (append-nil ts), tt)
insert_tasks_lem (r ∷ rows) ts ts' h = elim (Bool-cases (fits_columns r)) [
  | inr n ↦ let bad : raised data_error ≡ ok ts' = rw (n, insert_tasks) at h in cc
  | inl fit ↦ elim (Option-cases (find task_key r.id ts)) [
    | inl e ↦
        let (eq, f) = insert_tasks_lem rows (ts ++ r ∷ []) ts' (rw (fit, e, insert_tasks) at h) in
        (eq ∙ append_assoc ts (r ∷ []) rows, (e, f))
    | inr (x, e) ↦ let bad : raised integrity_error ≡ ok ts' = rw (fit, e, insert_tasks) at h in cc
  ]
]

pub append-Free-UniqueKeys :
    (rows ts : List TaskRow)
    → UniqueKeys task_key ts
    → Free rows ts
    → UniqueKeys task_key (ts ++ rows)
append-Free-UniqueKeys [] ts u f = rw (append-nil ts) u
append-Free-UniqueKeys (r ∷ rows) ts u (e, f) =
    subst (UniqueKeys task_key) (append_assoc ts (r ∷ []) rows)
      (append-Free-UniqueKeys rows (ts ++ r ∷ []) (append-UniqueKeys task_key ts r u e) f)

-- A row of the longer table stands in the old one or among the new ones.
pub find-append_rows :
    (k : ℕ) (ts rows : List TaskRow)
    → find task_key k (ts ++ rows)
      ≡ (elim (find task_key k ts) [ none ↦ find task_key k rows | some r ↦ some r ])
find-append_rows k [] rows = refl
find-append_rows k (x ∷ ts) rows = ground (arith, find-append_rows k ts rows)

pub create_lem :
    (w : WorkflowExecution) (s s' : Store)
    → create w s ≡ ok s'
    → (workflow w.id s ≡ none)
      × Free (map task_to_model w.task_executions) s.tasks
      × (s'.workflows ≡ s.workflows ++ workflow_to_model w ∷ [])
      × (s'.tasks ≡ s.tasks ++ map task_to_model w.task_executions)
unfolding create
create_lem w s s' h = go (workflow w.id s) refl h
  where
    inner :
        (o : Result (List TaskRow))
        → (o >>= λ tasks.
            ok (record { workflows = s.workflows ++ workflow_to_model w ∷ []; tasks = tasks }))
          ≡ ok s'
        → (ts : List TaskRow) × (o ≡ ok ts)
          × (s'.workflows ≡ s.workflows ++ workflow_to_model w ∷ [])
          × (s'.tasks ≡ ts)
    inner (ok ts) h = (ts, refl, ground arith, ground arith)
    inner (raised e) h = cc

    go :
        (o : Option WorkflowRow)
        → workflow w.id s ≡ o
        → (elim o [
          | some _ ↦ raised integrity_error
          | none ↦ insert_tasks (map task_to_model w.task_executions) s.tasks >>= λ tasks.
              ok (record { workflows = s.workflows ++ workflow_to_model w ∷ []; tasks = tasks })
        ])
          ≡ ok s'
        → (workflow w.id s ≡ none)
          × Free (map task_to_model w.task_executions) s.tasks
          × (s'.workflows ≡ s.workflows ++ workflow_to_model w ∷ [])
          × (s'.tasks ≡ s.tasks ++ map task_to_model w.task_executions)
    go (some r) e h = cc
    go none e h =
        let (ts, hi, hw, ht) =
          inner (insert_tasks (map task_to_model w.task_executions) s.tasks) h in
        let (eq, free) = insert_tasks_lem (map task_to_model w.task_executions) s.tasks ts hi in
        (e, free, hw, ht ∙ eq)
