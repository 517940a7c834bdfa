-- ===== src/Launch/RoundTrip.antt =====
-- A workflow execution that is created can be read back and deleted.
use automation_platform.Base.{
  ◌≡◌, refl, Bool, true, false, Option, none, some, List, [], ◌∷◌, ◌++◌, map, any, filter_by, arith,
  ◌==◌, ap, ◌∙◌, ==_refl,
}
use automation_platform.Domain.{Uuid, TaskExecution, WorkflowExecution, TaskOutput}
use automation_platform.Errors.{ok, raised, workflow_execution_not_found}
use automation_platform.Table.{find, find-append, delete_where}
use automation_platform.Executions.{TaskRow, WorkflowRow, Store, workflow, workflow_key}
use automation_platform.Executions.Loading.{
  load, delete, get_execution, task_to_domain, workflow_to_domain, output_to_domain,
}
use automation_platform.Launch.{create, task_to_model, workflow_to_model, output_values}
use automation_platform.Launch.Storage.{create_lem}

-- All tasks of the execution say that they belong to it.
abbrev pub AllOwned : Uuid → List TaskExecution → Type 0
AllOwned w [] = Unit
AllOwned w (t ∷ ts) = (t.workflow_execution_id ≡ w) × AllOwned w ts

abbrev pub owns : Uuid → List TaskRow → Bool
owns w rows = any (λ (t : TaskRow). t.workflow_execution_id == w) rows

task_back : (t : TaskExecution) → task_to_domain (task_to_model t) ≡ t
task_back t = ap (λ o. record t { output = o }) (go t.output)
  where
    go : (o : Option TaskOutput) → output_to_domain (output_values o) ≡ o
    go none = refl
    go (some x) = refl

owned_rows :
    (w : Uuid) (rows : List TaskRow) (ts : List TaskExecution)
    → owns w rows ≡ false
    → AllOwned w ts
    → map task_to_domain
        (filter_by (λ (t : TaskRow). t.workflow_execution_id == w) (rows ++ map task_to_model ts))
      ≡ ts
owned_rows w [] [] n o = refl
owned_rows w [] (t ∷ ts) n (e, o) =
    let q : (t.workflow_execution_id == w) ≡ true = ground arith in
    rw q (
      ap
        (λ x.
          x
          ∷ map task_to_domain
              (filter_by (λ (t : TaskRow). t.workflow_execution_id == w) (map task_to_model ts)))
        (task_back t)
      ∙ ap (λ l. t ∷ l) (owned_rows w [] ts refl o))
owned_rows w (x ∷ rows) ts n o =
    let q : (x.workflow_execution_id == w) ≡ false = ground arith in
    rw q (owned_rows w rows ts (ground arith) o)

deleted_rows :
    (w : Uuid) (rows : List TaskRow) (ts : List TaskExecution)
    → owns w rows ≡ false
    → AllOwned w ts
    → delete_where (λ (t : TaskRow). t.workflow_execution_id == w) (rows ++ map task_to_model ts)
      ≡ rows
deleted_rows w [] [] n o = refl
deleted_rows w [] (t ∷ ts) n (e, o) =
    let q : (t.workflow_execution_id == w) ≡ true = ground arith in
    rw q (deleted_rows w [] ts refl o)
deleted_rows w (x ∷ rows) ts n o =
    let q : (x.workflow_execution_id == w) ≡ false = ground arith in
    rw q (ap (λ l. x ∷ l) (deleted_rows w rows ts (ground arith) o))

deleted_workflow :
    (ws : List WorkflowRow) (r : WorkflowRow)
    → find workflow_key r.id ws ≡ none
    → delete_where (λ (x : WorkflowRow). x.id == r.id) (ws ++ r ∷ []) ≡ ws
deleted_workflow [] r h = let q = ==_refl r.id in rw q refl
deleted_workflow (x ∷ ws) r h =
    let q : (x.id == r.id) ≡ false = ground arith in
    rw q (ap (λ l. x ∷ l) (deleted_workflow ws r (ground arith)))

load_found :
    (i : Uuid) (s : Store) (r : WorkflowRow)
    → workflow i s ≡ some r
    → load i s
      ≡ some (
          workflow_to_domain r (
            map task_to_domain
              (filter_by (λ (t : TaskRow). t.workflow_execution_id == r.id) s.tasks)))
unfolding load
load_found i s r h =
    ap
      (λ o. elim o [
        | none ↦ none
        | some r ↦ some (
            workflow_to_domain r (
              map task_to_domain
                (filter_by (λ (t : TaskRow). t.workflow_execution_id == r.id) s.tasks)))
      ])
      h

loaded_deleted :
    (i : Uuid) (s : Store) (r : WorkflowRow)
    → workflow i s ≡ some r
    → delete i s ≡ record {
      workflows = delete_where (λ (r : WorkflowRow). r.id == i) s.workflows;
      tasks = delete_where (λ (t : TaskRow). t.workflow_execution_id == i) s.tasks;
    }
unfolding delete
loaded_deleted i s r h =
    ap
      (λ o. elim o [
        | none ↦ s
        | some _ ↦ record {
          workflows = delete_where (λ (r : WorkflowRow). r.id == i) s.workflows;
          tasks = delete_where (λ (t : TaskRow). t.workflow_execution_id == i) s.tasks;
        }
      ])
      h

found_last :
    (k : Uuid) (ws : List WorkflowRow) (r : WorkflowRow)
    → r.id ≡ k
    → find workflow_key k ws ≡ none
    → find workflow_key k (ws ++ r ∷ []) ≡ some r
found_last k ws r e h = ground (arith, find-append workflow_key k ws r)

-- What `create` stores is what `load` and the query service return, and `delete` takes away nothing
-- else: after it the tables are as they were before the creation. All tasks of the execution name it
-- as their owner, and no other task did.
pub create_then_load :
    (w : WorkflowExecution) (s s' : Store)
    → create w s ≡ ok s'
    → AllOwned w.id w.task_executions
    → owns w.id s.tasks ≡ false
    → (load w.id s' ≡ some w) × (get_execution w.id s' ≡ ok w) × (delete w.id s' ≡ s)
unfolding get_execution
create_then_load w s s' h o n =
    let (free, _, hw, ht) = create_lem w s s' h in
    let found : workflow w.id s' ≡ some (workflow_to_model w) =
      ap (find workflow_key w.id) hw
      ∙ found_last w.id s.workflows (workflow_to_model w) refl free in
    let loaded : load w.id s' ≡ some w =
      load_found w.id s' (workflow_to_model w) found
      ∙ ap
          (λ rows. some (
            workflow_to_domain (workflow_to_model w) (
              map task_to_domain
                (filter_by (λ (t : TaskRow). t.workflow_execution_id == w.id) rows))))
          ht
      ∙ ap (λ ts. some (workflow_to_domain (workflow_to_model w) ts))
          (owned_rows w.id s.tasks w.task_executions n o) in
    (
      loaded,
      ap (λ o. elim o [ none ↦ raised workflow_execution_not_found | some w ↦ ok w ]) loaded,
      loaded_deleted w.id s' (workflow_to_model w) found
          ∙ ap
              (λ ws. record {
                workflows = delete_where (λ (r : WorkflowRow). r.id == w.id) ws;
                tasks = delete_where (λ (t : TaskRow). t.workflow_execution_id == w.id) s'.tasks;
              })
              hw
          ∙ ap
              (λ rows. record {
                workflows =
                    delete_where (λ (r : WorkflowRow). r.id == w.id)
                      (s.workflows ++ workflow_to_model w ∷ []);
                tasks = delete_where (λ (t : TaskRow). t.workflow_execution_id == w.id) rows;
              })
              ht
          ∙ ap
              (λ ws. record {
                workflows = ws;
                tasks =
                    delete_where (λ (t : TaskRow). t.workflow_execution_id == w.id)
                      (s.tasks ++ map task_to_model w.task_executions);
              })
              (deleted_workflow s.workflows (workflow_to_model w) free)
          ∙ ap (λ rows. record { workflows = s.workflows; tasks = rows })
              (deleted_rows w.id s.tasks w.task_executions n o),
    )
