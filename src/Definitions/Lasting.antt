-- ===== src/Definitions/Lasting.antt =====
-- The tasks of a validated workflow definition never wait without a cause.
use mathlib.Core.WellFounded.{Acc}
use automation_platform.Base.{
  ℕ, ◌≡◌, refl, false, some, none, List, [], ◌∷◌, arith, sym, ap, ◌∙◌, inl, inr, subst, String,
}
use automation_platform.Domain.{Uuid, Time, TaskDefinition, WorkflowDefinition}
use automation_platform.Errors.{ok}
use automation_platform.Table.{In}
use automation_platform.Texts.{TextDict, get_text}
use automation_platform.Plugins.{TaskPlugin}
use automation_platform.Executions.{Store, TaskRow, task, is_completed}
use automation_platform.Executions.Invariant.{Sound}
use automation_platform.Executions.Progress.{Progress}
use automation_platform.Executions.Liveness.{Cause, Grounded-Progress, waiting_task_has_cause}
use automation_platform.Launch.{prepare_start}
use automation_platform.Launch.Tables.{IsExecutable}
use automation_platform.Launch.Grounding.{Rooted, prepare_start-Grounded}
use automation_platform.Definitions.{validate_tasks, create_task_definitions, task_ids}
use automation_platform.Definitions.Cycle.{CreateTaskDefinition}
use automation_platform.Definitions.Cycle.Loop.{DependsOn, task_of_key}
use automation_platform.Definitions.Validation.{IsValidDefinition, validate_tasks_iff}
use automation_platform.Definitions.Creation.{
  Resolves, AllResolve, task_of_definition, create_task_definitions-AllResolve,
  create_task_definitions_lem,
}

pub definition_for :
    (ids : TextDict Uuid) (ts : List CreateTaskDefinition) (ds : List TaskDefinition)
    → AllResolve ids ts ds
    → (t : CreateTaskDefinition) → In t ts
    → (d : TaskDefinition) × In d ds × Resolves ids t d
definition_for ids [] [] a t i = absurd i
definition_for ids [] (_ ∷ _) a t i = absurd a
definition_for ids (_ ∷ _) [] a t i = absurd a
definition_for ids (x ∷ ts) (d ∷ ds) (r, a) t (inl e) =
    (d, inl refl, subst (λ y. Resolves ids y d) (sym e) r)
definition_for ids (x ∷ ts) (d ∷ ds) (r, a) t (inr i) =
    let (y, j, q) = definition_for ids ts ds a t i in (y, inr j, q)

module _ (registry : List TaskPlugin) (ids : TextDict Uuid) (ts : List CreateTaskDefinition)
    (ds : List TaskDefinition) (all : AllResolve ids ts ds)
    (v : IsValidDefinition registry ts) where
  -- Chains of dependencies end among the definitions as they do among the tasks.
  Acc-Rooted :
      (k : String)
      → Acc (DependsOn ts) k
      → (t : CreateTaskDefinition) → In t ts
      → t.key ≡ k
      → (d : TaskDefinition) → In d ds
      → Resolves ids t d
      → Rooted ds d.id
  Acc-Rooted k (Acc.intro _ smaller) t i named d m r = Rooted.rooted d.id d m refl (λ x c.
      let (n, listed, own) = r.dependencies x c in
      let (u, iu, eu) = task_of_key ts n ((v.each t i).known n listed) in
      let (du, mu, ru) = definition_for ids ts ds all u iu in
      let same : some du.id ≡ some x = sym ru.own ∙ ap (λ a. get_text a ids) eu ∙ own in
      let same_id : du.id ≡ x = ground arith in
      subst (Rooted ds) same_id (
        Acc-Rooted n (smaller n (record { task = t; among = i; named = named; listed = listed })) u
          iu eu du mu ru))

  each-Rooted : (d : TaskDefinition) → In d ds → Rooted ds d.id
  each-Rooted d m =
      let (t, i, r) = task_of_definition ids ts ds all d m in
      Acc-Rooted t.key (v.acyclic t i) t i refl d m r

-- The definitions made of validated tasks can be started.
pub validated-IsExecutable :
    (registry : List TaskPlugin) (ids : ℕ → Uuid) (tasks : List CreateTaskDefinition)
    (definition : WorkflowDefinition)
    → ((m n : ℕ) → ids m ≡ ids n → m ≡ n)
    → validate_tasks registry tasks ≡ ok tt
    → create_task_definitions ids tasks ≡ ok definition.task_definitions
    → IsExecutable definition.task_definitions
validated-IsExecutable registry ids tasks definition distinct h made =
    let (ds, e, able, _) =
      create_task_definitions_lem registry ids tasks distinct
        ((validate_tasks_iff registry tasks).0 h) in
    let same : ds ≡ definition.task_definitions = ground arith in subst IsExecutable same able

-- No task of a validated definition gets stuck. The tasks pass the validation, the workflow definition
-- holds the definitions made of them, and a start of it adds the task `i`. Then at any later time, in
-- sound tables that no task was lost from, if the task is not completed, it or one that it waits for
-- is offered by the reconciler, or is running, has failed or was cancelled.
pub validated-Cause :
    (registry : List TaskPlugin) (ids : ℕ → Uuid) (tasks : List CreateTaskDefinition)
    (definition : WorkflowDefinition) (w : Uuid) (fresh : ℕ → Uuid) (now : Time)
    (s s' later : Store) (roots : List Uuid) (j i : Uuid) (r x : TaskRow)
    → validate_tasks registry tasks ≡ ok tt
    → create_task_definitions ids tasks ≡ ok definition.task_definitions
    → prepare_start w fresh now (some definition) s ≡ ok (s', roots, j)
    → Sound s
    → task i s ≡ none
    → task i s' ≡ some r
    → Progress s' later
    → Sound later
    → task i later ≡ some x
    → is_completed x.status ≡ false
    → Cause later i
validated-Cause registry ids tasks definition w fresh now s s' later roots j i r x h made starts v
      free new progress sound found waits =
    let valid = (validate_tasks_iff registry tasks).0 h in
    let (ds, e, all) = create_task_definitions-AllResolve registry ids tasks valid in
    let same : ds ≡ definition.task_definitions = ground arith in
    let ends =
      subst (λ ds. (d : TaskDefinition) → In d ds → Rooted ds d.id) same
        (each-Rooted registry (task_ids ids 0 tasks []) tasks ds all valid) in
    let g =
      prepare_start-Grounded w fresh now definition s s' roots j starts v.unique ends i r free
        new in
    waiting_task_has_cause later i x sound (Grounded-Progress s' later i progress g) found waits
