-- ===== src/Launch/Start.antt =====
-- `start_and_commit` up to its commit: what it adds to the tables, and what it enqueues after.
use mathlib.Core.Bool.{false≢true}
use automation_platform.Base.{
  ℕ, ◌≡◌, refl, Bool, true, false, not, none, some, List, [], ◌∷◌, ◌++◌, map, arith, sym, ap, subst,
  ◌&&◌, Bool-cases, ◌∙◌, inl, inr, ◌==◌, contains, length,
}
use automation_platform.Domain.{
  Uuid, Time, WorkflowDefinition, WorkflowExecution, TaskDefinition, TaskExecution, WorkflowStatus,
}
use automation_platform.Errors.{
  Result, ok, raised, ◌>>=◌, ◌>>◌, raise_if, workflow_definition_disabled,
}
use automation_platform.Table.{In, In-append, find_of_In, UniqueKeys}
use automation_platform.Executions.{Store, task, task_key}
use automation_platform.Executions.Invariant.{done, unmet}
use automation_platform.Executions.Progress.{Ready}
use automation_platform.Launch.{
  prepare_start, create_workflow_execution, create_child_task_lookup, new_ids, new_executions,
  create, task_to_model, workflow_to_model,
}
use automation_platform.Launch.Lookup.{Dict}
use automation_platform.Launch.Rows.{
  Executions, root_ids, is_root, new_executions_lem, AllLaunched, Executions-AllLaunched,
}
use automation_platform.Launch.Storage.{create_lem, append-Free-UniqueKeys}

-- The row of the new workflow execution.
abbrev pub launched_workflow :
    Uuid → Time → WorkflowDefinition → List TaskExecution → WorkflowExecution
launched_workflow w now definition es = record {
  id = w;
  workflow_definition_id = definition.id;
  status = WorkflowStatus.running;
  task_executions = es;
  created_at = now;
  started_at = none;
  completed_at = none;
}

abbrev pub build :
    Uuid
    → Time
    → WorkflowDefinition
    → Result (List TaskExecution × List Uuid)
    → Result (WorkflowExecution × List Uuid)
build w now definition o = o >>= λ built. ok (launched_workflow w now definition built.0, built.1)

built_lem :
    (w : Uuid) (now : Time) (definition : WorkflowDefinition) (m : Result (Dict (List Uuid)))
    (f : Dict (List Uuid) → Result (List TaskExecution × List Uuid)) (x : WorkflowExecution)
    (roots : List Uuid)
    → (m >>= λ kids. build w now definition (f kids)) ≡ ok (x, roots)
    → (kids : Dict (List Uuid)) × (es : List TaskExecution) × (m ≡ ok kids)
      × (f kids ≡ ok (es, roots))
      × (x ≡ launched_workflow w now definition es)
built_lem w now definition (raised e) f x roots h = cc
built_lem w now definition (ok kids) f x roots h =
    let (es, a, b, c) = inner (f kids) h in (kids, es, a, b, c)
  where
    inner :
        (o : Result (List TaskExecution × List Uuid))
        → build w now definition o ≡ ok (x, roots)
        → (es : List TaskExecution) × (ok kids ≡ ok kids)
          × (o ≡ ok (es, roots))
          × (x ≡ launched_workflow w now definition es)
    inner (raised e) h = cc
    inner (ok (es, r)) h = let er : r ≡ roots = cc in (es, refl, ap (λ r. ok (es, r)) er, cc)

pub create_workflow_execution_lem :
    (w : Uuid) (fresh : ℕ → Uuid) (now : Time) (definition : WorkflowDefinition)
    (x : WorkflowExecution) (roots : List Uuid)
    → create_workflow_execution w fresh now definition ≡ ok (x, roots)
    → let ids = new_ids fresh 0 definition.task_definitions [] in
      (kids : Dict (List Uuid)) × (es : List TaskExecution) × (create_child_task_lookup
          definition.task_definitions ids
        ≡ ok kids)
      × Executions w ids kids definition.task_definitions es
      × (roots ≡ root_ids es)
      × (x ≡ launched_workflow w now definition es)
unfolding create_workflow_execution
create_workflow_execution_lem w fresh now definition x roots h =
    let ids = new_ids fresh 0 definition.task_definitions [] in
    let (kids, es, hk, he, hx) =
      built_lem w now definition (create_child_task_lookup definition.task_definitions ids)
        (λ kids. new_executions w ids kids definition.task_definitions) x roots h in
    let (ex, er) = new_executions_lem w ids kids definition.task_definitions es roots he in
    (kids, es, hk, ex, er, hx)

abbrev pub outcome : WorkflowExecution × List Uuid → Store → Store × List Uuid × Uuid
outcome built t = (t, built.1, built.0.id)

-- The steps of a start that succeeds.
steps_lem :
    (w : Uuid) (definition : WorkflowDefinition) (s s' : Store) (i : Uuid) (roots : List Uuid)
    (b : Bool) (m : Result (WorkflowExecution × List Uuid))
    → (raise_if (not b) workflow_definition_disabled
        >> (m >>= λ built. create built.0 s >>= λ t. ok (outcome built t)))
      ≡ ok (s', roots, i)
    → (b ≡ true) × (x : WorkflowExecution) × (m ≡ ok (x, roots)) × (create x s ≡ ok s') × (x.id ≡ i)
steps_lem w definition s s' i roots false m h = cc
steps_lem w definition s s' i roots true (raised e) h = cc
steps_lem w definition s s' i roots true (ok (x, r)) h =
    let (a, b, c) = last (create x s) h in (refl, x, ap (λ r. ok (x, r)) b, a, c)
  where
    last :
        (o : Result Store)
        → (o >>= λ t. ok (outcome (x, r) t)) ≡ ok (s', roots, i)
        → (o ≡ ok s') × (r ≡ roots) × (x.id ≡ i)
    last (raised e) h = cc
    last (ok t) h = (cc, cc, cc)

pub prepare_start_lem :
    (w : Uuid) (fresh : ℕ → Uuid) (now : Time) (definition : WorkflowDefinition) (s s' : Store)
    (roots : List Uuid) (i : Uuid)
    → prepare_start w fresh now (some definition) s ≡ ok (s', roots, i)
    → let ids = new_ids fresh 0 definition.task_definitions [] in
      (kids : Dict (List Uuid)) × (es : List TaskExecution) × (create_child_task_lookup
          definition.task_definitions ids
        ≡ ok kids)
      × Executions w ids kids definition.task_definitions es
      × (roots ≡ root_ids es)
      × (create (launched_workflow w now definition es) s ≡ ok s')
      × (definition.enabled ≡ true)
      × (i ≡ w)
unfolding prepare_start
prepare_start_lem w fresh now definition s s' roots i h =
    let (en, x, hx, hc, hi) =
      steps_lem w definition s s' i roots definition.enabled
        (create_workflow_execution w fresh now definition) h in
    let (kids, es, hk, ex, er, e) =
      create_workflow_execution_lem w fresh now definition x roots hx in
    (kids, es, hk, ex, er, (rw e at hc), en, sym hi ∙ ap (λ x. x.id) e)

-- A start that succeeds adds one running workflow execution, and one pending task for each task
-- definition in their order, each with as many parents as its definition has dependencies and with
-- its counter at that number; it enqueues the tasks whose counter is 0, and returns the id of the
-- workflow execution. The definition was enabled.
pub start_adds_executions :
    (w : Uuid) (fresh : ℕ → Uuid) (now : Time) (definition : WorkflowDefinition) (s s' : Store)
    (roots : List Uuid) (i : Uuid)
    → prepare_start w fresh now (some definition) s ≡ ok (s', roots, i)
    → (es : List TaskExecution) × (s'.workflows
        ≡ s.workflows ++ workflow_to_model (launched_workflow w now definition es) ∷ [])
      × (s'.tasks ≡ s.tasks ++ map task_to_model es)
      × AllLaunched w definition.task_definitions es
      × (roots ≡ root_ids es)
      × (i ≡ w)
      × (definition.enabled ≡ true)
start_adds_executions w fresh now definition s s' roots i h =
    let ids = new_ids fresh 0 definition.task_definitions [] in
    let (kids, es, hk, ex, er, hc, en, hi) =
      prepare_start_lem w fresh now definition s s' roots i h in
    let (free, keys, hw, ht) = create_lem (launched_workflow w now definition es) s s' hc in
    (es, hw, ht, Executions-AllLaunched w ids kids definition.task_definitions es ex, er, hi, en)

-- The tables keep their primary keys.
pub prepare_start-UniqueKeys :
    (w : Uuid) (fresh : ℕ → Uuid) (now : Time) (definition : WorkflowDefinition) (s s' : Store)
    (roots : List Uuid) (i : Uuid)
    → prepare_start w fresh now (some definition) s ≡ ok (s', roots, i)
    → UniqueKeys task_key s.tasks
    → UniqueKeys task_key s'.tasks
prepare_start-UniqueKeys w fresh now definition s s' roots i h u =
    let (kids, es, hk, ex, er, hc, en, hi) =
      prepare_start_lem w fresh now definition s s' roots i h in
    let (free, keys, hw, ht) = create_lem (launched_workflow w now definition es) s s' hc in
    rw ht (append-Free-UniqueKeys (map task_to_model es) s.tasks u keys)

length-zero : (xs : List Uuid) → length xs ≡ 0 → xs ≡ []
length-zero [] h = refl
length-zero (x ∷ xs) h = ground arith

-- The row of a root task among the new ones.
root_row :
    (w : Uuid) (ts : List TaskDefinition) (es : List TaskExecution) (k : Uuid)
    → AllLaunched w ts es
    → contains k (root_ids es) ≡ true
    → (e : TaskExecution) × In (task_to_model e) (map task_to_model es)
      × (e.id ≡ k)
      × (e.parent_task_ids ≡ [])
root_row w [] [] k a h = absurd (false≢true h)
root_row w [] (e ∷ es) k a h = absurd a
root_row w (t ∷ ts) [] k a h = absurd a
root_row w (t ∷ ts) (e ∷ es) k (a, rest) h = elim (Bool-cases (is_root e && (k == e.id))) [
  | inl q ↦ (
    e,
    inl refl,
    (ground arith),
    length-zero e.parent_task_ids (ground (arith, a.parents, a.counter)),
  )
  | inr q ↦ let (x, i, eq, z) = root_row w ts es k rest (ground arith) in (x, inr i, eq, z)
]

-- Every task that a start enqueues is ready: it is stored, and all its parents are completed, since
-- it has none. The primary keys of the tasks were unique before.
pub start-Ready :
    (w : Uuid) (fresh : ℕ → Uuid) (now : Time) (definition : WorkflowDefinition) (s s' : Store)
    (roots : List Uuid) (i : Uuid)
    → prepare_start w fresh now (some definition) s ≡ ok (s', roots, i)
    → UniqueKeys task_key s.tasks
    → (k : Uuid) → contains k roots ≡ true
    → Ready s' k
start-Ready w fresh now definition s s' roots i h u k hk =
    let (es, hw, ht, a, er, hi, en) = start_adds_executions w fresh now definition s s' roots i h in
    let (e, row, eq, z) =
      root_row w definition.task_definitions es k a (subst (λ z. contains k z ≡ true) er hk) in
    let unique = prepare_start-UniqueKeys w fresh now definition s s' roots i h u in
    let stored =
      subst (In (task_to_model e)) (sym ht)
        (In-append (task_to_model e) s.tasks (map task_to_model es) row) in
    (
      task_to_model e,
      subst (λ j. task j s' ≡ some (task_to_model e)) eq
          (find_of_In task_key (task_to_model e) s'.tasks unique stored),
      ap (unmet (done s')) z,
    )
