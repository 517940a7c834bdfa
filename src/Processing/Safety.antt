-- ===== src/Processing/Safety.antt =====
-- What a whole `process` does to a task that is ready.
use automation_platform.Base.{
  ap, sym, ◌∙◌, subst, ◌≡◌, refl, Option, none, some, List, arith, ◌⊎◌, inl, inr, Bool-cases,
}
use automation_platform.Domain.{Uuid, Time, TaskResult}
use automation_platform.Errors.{Error, Result, ok, raised, Result-cases}
use automation_platform.Plugins.{TaskPlugin}
use automation_platform.Executions.{
  Store, TaskRow, is_active, mark_started, start_task, StartTaskExecutionResult,
  CompleteTaskExecutionRequest, RetryTaskExecutionRequest,
}
use automation_platform.Executions.Invariant.{Sound, done, unmet}
use automation_platform.Executions.Start.{
  IsReady, mark_started-Sound, start_task_ready, start_task_refused,
}
use automation_platform.Executions.Completion.{complete_task-Sound}
use automation_platform.Executions.Retrying.{retry_task-Sound}
use automation_platform.Executions.Progress.{Ready, Progress, Progress-refl, mark_started-Progress}
use automation_platform.Processing.{
  start_phase, execute_plugin, finish_phase, process, process_started, ProcessTaskResult,
}

pub Ready-IsReady : (s : Store) (i : Uuid) → Ready s i → IsReady s i
Ready-IsReady s i (r, h, z) x hx =
    let e : x ≡ r = cc in ap (λ (c : TaskRow). unmet (done s) c.parent_task_ids) e ∙ z

-- The first transaction on a ready task: it takes the task up, or it changes nothing; either way
-- it does not raise.
pub start_phase-Ready :
    (i : Uuid) (now : Time) (s : Store)
    → Sound s
    → Ready s i
    → ((x : Option StartTaskExecutionResult) × ((start_phase i now s).0 ≡ ok x))
      × (((start_phase i now s).1 ≡ mark_started i now s) ⊎ ((start_phase i now s).1 ≡ s))
unfolding start_phase start_task
start_phase-Ready i now s v (r, h, z) = elim (Bool-cases (is_active r.status)) [
  | inl a ↦
      let (outputs, _, e) = start_task_ready i now s r v h z a in
      (
        (
          some (record {
            plugin_type = r.plugin_type;
            configuration = r.configuration;
            parent_outputs = outputs;
          }),
          ground (arith, e),
        ),
        inl (ground (arith, e)),
      )
  | inr a ↦
      let e = start_task_refused i now s v.unique (ground arith) in
      ((none, ground (arith, e)), inr (ground (arith, e)))
]

pub start_phase-Sound :
    (i : Uuid) (now : Time) (s : Store) → Sound s → Ready s i → Sound (start_phase i now s).1
start_phase-Sound i now s v ready = elim ((start_phase-Ready i now s v ready).1) [
  | inl e ↦ subst Sound (sym e) (mark_started-Sound i now s (Ready-IsReady s i ready) v)
  | inr e ↦ subst Sound (sym e) v
]

pub start_phase-Progress :
    (i : Uuid) (now : Time) (s : Store) → Sound s → Ready s i → Progress s (start_phase i now s).1
start_phase-Progress i now s v ready = elim ((start_phase-Ready i now s v ready).1) [
  | inl e ↦ subst (Progress s) (sym e) (mark_started-Progress i now s)
  | inr e ↦ subst (Progress s) (sym e) (Progress-refl s)
]

pub finish_phase-Sound :
    (i : Uuid) (result : TaskResult) (now : Time) (s : Store)
    → Sound s
    → Sound (finish_phase i result now s).1
unfolding finish_phase
finish_phase-Sound i result now s v = elim (Bool-cases result.succeeded) [
  | inl t ↦
      let request : CompleteTaskExecutionRequest = record {
        task_execution_id = i;
        output = result.output;
        completed_at = now;
      } in
      rw t (complete_task-Sound request s v)
  | inr t ↦
      let request : RetryTaskExecutionRequest = record {
        task_execution_id = i;
        error_message = result.message;
        completed_at = now;
      } in
      rw t (retry_task-Sound request s v)
]

-- The rest of `process` keeps the invariant, and raises only what the plugin raises.
process_started_safe :
    (registry : List TaskPlugin) (i : Uuid) (later : Time) (s : Store)
    (x : Option StartTaskExecutionResult)
    → Sound s
    → Sound (process_started registry i later s (ok x)).1
      × ((e : Error)
          → (process_started registry i later s (ok x)).0 ≡ raised e
          → (start : StartTaskExecutionResult) × (x ≡ some start)
            × (execute_plugin registry start ≡ raised e))
unfolding process_started
process_started_safe registry i later s none v = (v, λ e h. ground arith)
process_started_safe registry i later s (some start) v =
    elim (Result-cases (execute_plugin registry start)) [
      | inl (e, p) ↦ (subst Sound (ground (arith, p)) v, λ e' h. (start, refl, ground (arith, p)))
      | inr (result, p) ↦ (
        subst Sound (ground (arith, p)) (finish_phase-Sound i result later s v),
        λ e' h. ground (arith, p),
      )
    ]

process_lem :
    (registry : List TaskPlugin) (i : Uuid) (now later : Time) (s : Store)
    (x : Option StartTaskExecutionResult)
    → (start_phase i now s).0 ≡ ok x
    → process registry i now later s
      ≡ process_started registry i later (start_phase i now s).1 (ok x)
unfolding process
process_lem registry i now later s x e =
    ap (process_started registry i later (start_phase i now s).1) e

-- Processing a task whose parents are completed keeps the tables sound, and raises only what its
-- plugin raises: on the registry's lookup or in its own code, never for a missing parent output.
pub process_safe :
    (registry : List TaskPlugin) (i : Uuid) (now later : Time) (s : Store)
    → Sound s
    → Ready s i
    → Sound (process registry i now later s).1
      × ((e : Error)
          → (process registry i now later s).0 ≡ raised e
          → (start : StartTaskExecutionResult) × ((start_phase i now s).0 ≡ ok (some start))
            × (execute_plugin registry start ≡ raised e))
process_safe registry i now later s v ready =
    let ((x, e), _) = start_phase-Ready i now s v ready in
    let s' = (start_phase i now s).1 in
    let (sound, errors) =
      process_started_safe registry i later s' x (start_phase-Sound i now s v ready) in
    let whole = process_lem registry i now later s x e in
    (
      subst (λ (r : Result ProcessTaskResult × Store). Sound r.1) (sym whole) sound,
      λ err h.
          let (start, some_start, failed) =
            errors err (ap (λ (r : Result ProcessTaskResult × Store). r.0) (sym whole) ∙ h) in
          (start, e ∙ ap ok some_start, failed),
    )
