-- ===== src/Launch/Success.antt =====
-- A start of an enabled and valid definition succeeds.
use mathlib.Core.List.{append_assoc, append-nil}
use automation_platform.Base.{
  ℕ, ◌≡◌, refl, true, not, none, some, List, [], ◌∷◌, ◌++◌, map, arith, sym, ap, ◌∙◌, inl, inr,
  subst, Option-cases, Bool-cases, ◌==◌,
}
use automation_platform.Domain.{
  Uuid, Time, TaskDefinition, WorkflowDefinition, TaskExecution, WorkflowExecution,
}
use automation_platform.Errors.{
  ok, raised, integrity_error, workflow_definition_disabled, raise_if, ◌>>=◌, ◌>>◌,
}
use automation_platform.Table.{
  fits_integer, find, find-append, find-ne-none-In, find_of_In, key-find, In, UniqueKeys,
}
use automation_platform.Executions.{TaskRow, Store, task, workflow, task_key}
use automation_platform.Launch.{
  prepare_start, create_workflow_execution, create_child_task_lookup, new_ids, new_executions,
  fits_columns, insert_tasks, create, task_to_model, workflow_to_model,
}
use automation_platform.Launch.Lookup.{Dict, lookup}
use automation_platform.Launch.Rows.{Executions, new_executions_lem}
use automation_platform.Launch.Storage.{Free}
use automation_platform.Launch.Start.{launched_workflow, outcome, build}
use automation_platform.Launch.Ids.{Separates, lookup-item, new_ids_lem}
use automation_platform.Launch.Children.{definition_key}
use automation_platform.Launch.Tables.{FitColumns, AreFresh, Added, Added-find}
use automation_platform.Launch.Total.{
  Closed, definition_ids, HasAll, has-new_ids, create_child_task_lookup_total, new_executions_total,
}

insert_tasks_total :
    (rows ts : List TaskRow)
    → ((r : TaskRow) → In r rows → fits_columns r ≡ true)
    → Free rows ts
    → insert_tasks rows ts ≡ ok (ts ++ rows)
unfolding insert_tasks
insert_tasks_total [] ts fit f = ap ok (sym (append-nil ts))
insert_tasks_total (r ∷ rows) ts fit (e, f) =
    rw (fit r (inl refl), e) (insert_tasks_total rows (ts ++ r ∷ []) (λ x i. fit x (inr i)) f)
    ∙ ap ok (append_assoc ts (r ∷ []) rows)

-- New keys, all different, are free.
Free-UniqueKeys :
    (rows ts : List TaskRow)
    → ((r : TaskRow) → In r rows → find task_key r.id ts ≡ none)
    → UniqueKeys task_key rows
    → Free rows ts
Free-UniqueKeys [] ts h u = tt
Free-UniqueKeys (r ∷ rows) ts h (u, us) =
    (h r (inl refl), Free-UniqueKeys rows (ts ++ r ∷ []) later us)
  where
    later : (x : TaskRow) → In x rows → find task_key x.id (ts ++ r ∷ []) ≡ none
    later x i = elim (Bool-cases (x.id == r.id)) [
      | inl b ↦
          let e : r.id ≡ x.id = ground arith in
          absurd (find-ne-none-In task_key x rows (subst (λ k. find task_key k rows ≡ none) e u) i)
      | inr b ↦ ground (arith, find-append task_key x.id ts r, h x (inr i))
    ]

module _ (w : Uuid) (ids : Dict Uuid) (kids : Dict (List Uuid)) (sep : Separates ids) where
  -- Executions of different tasks have different ids.
  rows-UniqueKeys :
      (ts : List TaskDefinition) (es : List TaskExecution)
      → UniqueKeys definition_key ts
      → Executions w ids kids ts es
      → UniqueKeys task_key (map task_to_model es)
  rows-UniqueKeys [] [] u x = tt
  rows-UniqueKeys [] (e ∷ es) u x = absurd x
  rows-UniqueKeys (t ∷ ts) [] u x = absurd x
  rows-UniqueKeys (t ∷ ts) (e ∷ es) (u, us) (x, rest) = (
    elim (Option-cases (find task_key e.id (map task_to_model es))) [
      | inl n ↦ n
      | inr (r, h) ↦
          let a : Added w ids kids ts r = Added-find w ids kids ts ts es e.id r (λ t i. i) rest h in
          let same : r.id ≡ e.id = key-find task_key e.id (map task_to_model es) r h in
          let eq : t.id ≡ a.definition.id =
            sep t.id a.definition.id e.id (lookup-item t.id ids e.id x.own)
              (lookup-item a.definition.id ids e.id (a.own ∙ ap ok same)) in
          absurd (
            find-ne-none-In definition_key a.definition ts
              (subst (λ k. find definition_key k ts ≡ none) eq u) a.among)
    ],
    rows-UniqueKeys ts es us rest,
  )

  -- The rows of definitions with such numbers fit into their columns.
  rows-AllFit :
      (ts : List TaskDefinition) (es : List TaskExecution)
      → UniqueKeys definition_key ts
      → FitColumns ts
      → Executions w ids kids ts es
      → (r : TaskRow) → In r (map task_to_model es)
      → fits_columns r ≡ true
  rows-AllFit ts es u fits x r i =
      let unique = rows-UniqueKeys ts es u x in
      let a =
        Added-find w ids kids ts ts es r.id r (λ t i. i) x
          (find_of_In task_key r (map task_to_model es) unique i) in
      let (n, m) = fits a.definition a.among in
      let n' : fits_integer r.remaining_dependencies ≡ true = ap fits_integer a.counter ∙ n in
      let m' : fits_integer r.remaining_tries ≡ true = ap fits_integer a.tries ∙ m in
      rw (n', m') refl

  rows-Free :
      (s : Store) (ts : List TaskDefinition) (es : List TaskExecution)
      → ((a i : Uuid) → lookup a ids ≡ some i → task i s ≡ none)
      → UniqueKeys definition_key ts
      → Executions w ids kids ts es
      → Free (map task_to_model es) s.tasks
  rows-Free s ts es absent u x =
      let unique = rows-UniqueKeys ts es u x in
      Free-UniqueKeys (map task_to_model es) s.tasks
        (λ r i.
          let a =
            Added-find w ids kids ts ts es r.id r (λ t i. i) x
              (find_of_In task_key r (map task_to_model es) unique i) in
          absent a.definition.id r.id (lookup-item a.definition.id ids r.id a.own))
        unique

abbrev extended : WorkflowExecution → Store → List TaskRow → Store
extended w s tasks = record { workflows = s.workflows ++ workflow_to_model w ∷ []; tasks = tasks }

create_total :
    (w : WorkflowExecution) (s : Store)
    → workflow w.id s ≡ none
    → ((r : TaskRow) → In r (map task_to_model w.task_executions) → fits_columns r ≡ true)
    → Free (map task_to_model w.task_executions) s.tasks
    → (s' : Store) × (create w s ≡ ok s')
unfolding create
create_total w s n fit f = (
  extended w s (s.tasks ++ map task_to_model w.task_executions),
  ap
        (λ o. elim o [
          | some _ ↦ raised integrity_error
          | none ↦ insert_tasks (map task_to_model w.task_executions) s.tasks >>= λ tasks.
              ok (extended w s tasks)
        ])
        n
      ∙ ap (λ m. m >>= λ tasks. ok (extended w s tasks))
          (insert_tasks_total (map task_to_model w.task_executions) s.tasks fit f),
)

-- The two lookups and the loop of `_create_workflow_execution`, when none of them raises.
create_workflow_execution_total :
    (w : Uuid) (fresh : ℕ → Uuid) (now : Time) (definition : WorkflowDefinition)
    (kids : Dict (List Uuid)) (r : List TaskExecution × List Uuid)
    → create_child_task_lookup definition.task_definitions
        (new_ids fresh 0 definition.task_definitions [])
      ≡ ok kids
    → new_executions w
        (new_ids fresh 0 definition.task_definitions [])
        kids
        definition.task_definitions
      ≡ ok r
    → create_workflow_execution w fresh now definition
      ≡ ok (launched_workflow w now definition r.0, r.1)
unfolding create_workflow_execution
create_workflow_execution_total w fresh now definition kids r hk hr =
    let ids = new_ids fresh 0 definition.task_definitions [] in
    ap
      (λ m. m >>= λ kids.
        build w now definition (new_executions w ids kids definition.task_definitions))
      hk
    ∙ ap (build w now definition) hr

-- The same for `start_and_commit`.
prepare_start_total :
    (w : Uuid) (fresh : ℕ → Uuid) (now : Time) (definition : WorkflowDefinition) (s s' : Store)
    (x : WorkflowExecution) (roots : List Uuid)
    → definition.enabled ≡ true
    → create_workflow_execution w fresh now definition ≡ ok (x, roots)
    → create x s ≡ ok s'
    → prepare_start w fresh now (some definition) s ≡ ok (s', roots, x.id)
unfolding prepare_start
prepare_start_total w fresh now definition s s' x roots en hx hc =
    ap
      (λ b.
        raise_if (not b) workflow_definition_disabled
        >> (create_workflow_execution w fresh now definition >>= λ built.
            create built.0 s >>= λ t. ok (outcome built t)))
      en
    ∙ ap (λ m. m >>= λ built. create built.0 s >>= λ t. ok (outcome built t)) hx
    ∙ ap (λ m. m >>= λ t. ok (outcome (x, roots) t)) hc

-- A start of an enabled definition succeeds if its task definitions have distinct ids and depend
-- on each other only, their numbers fit into columns of 32 bits, the id of the workflow execution is
-- not taken, and the values of `uuid4()`
-- are distinct and new to the tables.
pub prepare_start_succeeds :
    (w : Uuid) (fresh : ℕ → Uuid) (now : Time) (definition : WorkflowDefinition) (s : Store)
    → definition.enabled ≡ true
    → UniqueKeys definition_key definition.task_definitions
    → Closed definition.task_definitions definition.task_definitions
    → FitColumns definition.task_definitions
    → workflow w s ≡ none
    → AreFresh fresh s
    → (s' : Store) × (roots : List Uuid) × (prepare_start w fresh now (some definition) s
        ≡ ok (s', roots, w))
prepare_start_succeeds w fresh now definition s en u c fits free f =
    let ts = definition.task_definitions in
    let ids = new_ids fresh 0 ts [] in
    let all : HasAll (definition_ids ts) ids = λ k h. has-new_ids fresh 0 ts [] k ∙ rw h refl in
    let (kids, hk, allk) = create_child_task_lookup_total ids ts all c in
    let (r, hr) = new_executions_total w ids kids ts ts all allk c in
    let (x, er) = new_executions_lem w ids kids ts r.0 r.1 hr in
    let (sep, vals) = new_ids_lem fresh f.distinct 0 ts [] (λ a i e. cc) (λ a b i e e'. cc) in
    let absent : (a i : Uuid) → lookup a ids ≡ some i → task i s ≡ none =
      λ a i e. let (m, eq) = vals a i e in rw eq (f.absent m) in
    let (s', hc) =
      create_total (launched_workflow w now definition r.0) s free
        (rows-AllFit w ids kids sep ts r.0 u fits x)
        (rows-Free w ids kids sep s ts r.0 absent u x) in
    (
      s',
      r.1,
      prepare_start_total w fresh now definition s s' (launched_workflow w now definition r.0) r.1
          en (create_workflow_execution_total w fresh now definition kids r hk hr) hc,
    )
