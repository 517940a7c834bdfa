-- ===== src/Launch/Safety.antt =====
-- A started execution keeps the invariant of the execution tables.
use mathlib.Core.Bool.{false≢true}
use automation_platform.Base.{
  ℕ, ◌<◌, ◌≡◌, ◌≢◌, refl, true, false, Option, none, some, List, [], ◌∷◌, ◌++◌, map, arith, sym, ap,
  ◌∙◌, inl, inr, ◌⊎◌, ◌==◌, if◌then◌else◌, subst,
}
use automation_platform.Domain.{
  Uuid, Time, TaskStatus, WorkflowStatus, WorkflowDefinition, TaskDefinition, TaskExecution,
}
use automation_platform.Errors.{ok}
use automation_platform.Table.{find, find-append, append-UniqueKeys, UniqueKeys}
use automation_platform.Executions.{
  TaskRow, WorkflowRow, Store, task, workflow, task_key, workflow_key, is_active,
}
use automation_platform.Executions.Invariant.{Sound, done, is_done, unmet, unmet_same, has_begun}
use automation_platform.Executions.Progress.{Progress}
use automation_platform.Launch.Lookup.{Dict}
use automation_platform.Launch.{prepare_start, new_ids, workflow_to_model, task_to_model}
use automation_platform.Launch.Storage.{create_lem, find-append_rows}
use automation_platform.Launch.Start.{
  start_adds_executions, launched_workflow, prepare_start_lem, prepare_start-UniqueKeys,
}
use automation_platform.Launch.Ids.{new_ids_lem}
use automation_platform.Launch.Tables.{
  AreFresh, IsExecutable, Launching, Added, row_cases, done_same, linked, counted,
}

-- A new workflow row stands behind the old ones.
workflow_cases :
    (k : Uuid) (ws : List WorkflowRow) (new x : WorkflowRow)
    → find workflow_key k (ws ++ new ∷ []) ≡ some x
    → (find workflow_key k ws ≡ some x) ⊎ (x ≡ new)
workflow_cases k ws new x h =
    go (find workflow_key k ws) refl (sym (find-append workflow_key k ws new) ∙ h)
  where
    go :
        (o : Option WorkflowRow)
        → find workflow_key k ws ≡ o
        → (elim o [ none ↦ if k == workflow_key new then some new else none | some r ↦ some r ])
          ≡ some x
        → (find workflow_key k ws ≡ some x) ⊎ (x ≡ new)
    go (some r) e h = inl (e ∙ h)
    go none e h = inr (ground arith)

module _ (s s' : Store) (w : Uuid) (ids : Dict Uuid) (kids : Dict (List Uuid))
    (ts : List TaskDefinition) (es : List TaskExecution) (l : Launching s s' w ids kids ts es)
    (v : Sound s) where
  -- A property of a row that holds of the old rows and of the new ones.
  every :
      (P : TaskRow → Type 0)
      → ((k : Uuid) (r : TaskRow) → task k s ≡ some r → P r)
      → ((r : TaskRow) → Added w ids kids ts r → P r)
      → (k : Uuid) (r : TaskRow) → task k s' ≡ some r
      → P r
  every P old new k r h = elim (row_cases s s' w ids kids ts es l k r h) [
    | inl o ↦ old k r o
    | inr (a, _) ↦ new r a
  ]

  same_unmet : (ps : List Uuid) → unmet (done s') ps ≡ unmet (done s) ps
  same_unmet = unmet_same (done s) (done s') (done_same s s' w ids kids ts es l)

  kept :
      (new : WorkflowRow)
      → new.id ≡ w
      → new.status ≡ WorkflowStatus.running
      → workflow w s ≡ none
      → s'.workflows ≡ s.workflows ++ new ∷ []
      → UniqueKeys task_key s'.tasks
      → Sound s'
  kept new named running free hw u = record {
    unique = u;
    unique_workflows =
        rw hw (append-UniqueKeys workflow_key s.workflows new v.unique_workflows (rw named free));
    linked = linked s s' w ids kids ts es l v.linked;
    counted =
        every
          (λ r.
            r.status ≡ TaskStatus.pending
            → r.remaining_dependencies ≡ unmet (done s') r.parent_task_ids)
          (λ k r h p. v.counted k r h p ∙ sym (same_unmet r.parent_task_ids))
          (λ r a p. counted s s' w ids kids ts es l r a);
    begun =
        every (λ r. has_begun r.status ≡ true → unmet (done s') r.parent_task_ids ≡ 0)
          (λ k r h p. same_unmet r.parent_task_ids ∙ v.begun k r h p)
          (λ r a p. let b : has_begun r.status ≡ false = ap has_begun a.waiting in cc);
    stored =
        every (λ r. r.status ≡ TaskStatus.completed → r.output ≢ none) v.stored
          (λ r a p. let b = a.waiting in cc);
    tries =
        every (λ r. is_active r.status ≡ true → 0 < r.remaining_tries) v.tries
          (λ r a p. rw a.tries (l.executable.tries a.definition a.among));
    settled = λ i k r x h hx o. elim (workflow_cases k s.workflows new x (rw hw at hx)) [
      | inl ox ↦ elim (row_cases s s' w ids kids ts es l i r h) [
        | inl old ↦ v.settled i k r x old ox o
        | inr (a, _) ↦
            let same : w ≡ k = sym a.owner ∙ o in
            let gone : workflow k s ≡ none = subst (λ j. workflow j s ≡ none) same free in cc
      ]
      | inr e ↦
          let run : x.status ≡ WorkflowStatus.running = ap (λ y. y.status) e ∙ running in
          (λ c. cc, λ c. cc)
    ];
  }

append-Progress : (s s' : Store) (new : List TaskRow) → s'.tasks ≡ s.tasks ++ new → Progress s s'
append-Progress s s' new ht = record {
  kept = λ i r h. (r, same i r h, refl);
  done_kept = λ p d. one p (task p s) refl d;
}
  where
    same : (i : Uuid) (r : TaskRow) → task i s ≡ some r → task i s' ≡ some r
    same i r h = rw ht (ground (arith, find-append_rows i s.tasks new))

    one : (p : Uuid) (o : Option TaskRow) → task p s ≡ o → is_done o ≡ true → done s' p ≡ true
    one p none e d = absurd (false≢true d)
    one p (some r) e d = ap is_done (same p r e) ∙ d

-- A start that succeeds keeps the invariant of the tables. The values of `uuid4()` are distinct and
-- new to the tables, the task definitions have distinct ids, and each allows at least one try.
pub prepare_start-Sound :
    (w : Uuid) (fresh : ℕ → Uuid) (now : Time) (definition : WorkflowDefinition) (s s' : Store)
    (roots : List Uuid) (i : Uuid)
    → prepare_start w fresh now (some definition) s ≡ ok (s', roots, i)
    → Sound s
    → AreFresh fresh s
    → IsExecutable definition.task_definitions
    → Sound s'
prepare_start-Sound w fresh now definition s s' roots i h v f ex =
    let ts = definition.task_definitions in
    let ids = new_ids fresh 0 ts [] in
    let (kids, es, hk, x, er, hc, en, hi) =
      prepare_start_lem w fresh now definition s s' roots i h in
    let (free, keys, hw, ht) = create_lem (launched_workflow w now definition es) s s' hc in
    let (sep, vals) = new_ids_lem fresh f.distinct 0 ts [] (λ a i e. cc) (λ a b i e e'. cc) in
    let l : Launching s s' w ids kids ts es = record {
      executions = x;
      executable = ex;
      children = hk;
      separates = sep;
      tasks = ht;
      absent = λ a i e. let (m, eq) = vals a i e in rw eq (f.absent m);
      no_parent = λ a i j r e h. let (m, eq) = vals a i e in rw eq (f.no_parent m j r h);
      no_child = λ a i j r e h. let (m, eq) = vals a i e in rw eq (f.no_child m j r h);
    } in
    kept s s' w ids kids ts es l v (workflow_to_model (launched_workflow w now definition es)) refl
      refl free hw (prepare_start-UniqueKeys w fresh now definition s s' roots i h v.unique)

-- The start loses no task and no completed task.
pub prepare_start-Progress :
    (w : Uuid) (fresh : ℕ → Uuid) (now : Time) (definition : WorkflowDefinition) (s s' : Store)
    (roots : List Uuid) (i : Uuid)
    → prepare_start w fresh now (some definition) s ≡ ok (s', roots, i)
    → Progress s s'
prepare_start-Progress w fresh now definition s s' roots i h =
    let (es, hw, ht, a, er, hi, en) = start_adds_executions w fresh now definition s s' roots i h in
    append-Progress s s' (map task_to_model es) ht
