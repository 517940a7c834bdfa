-- ===== src/Workflows.antt =====
-- `WorkflowStartService.start` of src/automation_platform/application/workflow_start/services.py, on
-- what the repository of workflow definitions loads, with the queue that it enqueues to; and the way
-- of a request through the services of definitions and of starts.
use automation_platform.Base.{
  ℕ, ◌≡◌, refl, true, some, none, List, [], arith, ap, ◌∙◌, subst, contains,
}
use automation_platform.Domain.{Uuid, Time, TaskDefinition, TriggerDefinition}
use automation_platform.Errors.{Result, ok, ◌>>=◌}
use automation_platform.Table.{UniqueKeys}
use automation_platform.Plugins.{TaskPlugin, TriggerPlugin}
use automation_platform.Queue.{Queue, enqueue}
use automation_platform.Executions.{Store, workflow, task_key}
use automation_platform.Executions.Progress.{Ready}
use automation_platform.Launch.{prepare_start}
use automation_platform.Launch.Start.{start-Ready}
use automation_platform.Launch.Tables.{AreFresh}
use automation_platform.Triggers.{TriggerState}
use automation_platform.Catalog.{Catalog, load}
use automation_platform.Catalog.RoundTrip.{IsNew}
use automation_platform.Definitions.{
  CreateWorkflowDefinition, validate_tasks, create_task_definitions, create_trigger_definitions,
}
use automation_platform.Definitions.Creation.{FitTasks, validated_definition_starts}
use automation_platform.Definitions.Service.{create_definition, initialize_triggers, Draws}
use automation_platform.Definitions.Stored.{Listed}
use automation_platform.Definitions.Requests.{requested, create_definition_stores}

-- `start`: the root tasks are enqueued at the time `queued`, after the commit.
unfoldable pub start_workflow :
    Uuid → Uuid → (ℕ → Uuid) → Time → Time → Catalog → Store × Queue → Result (Uuid × Store × Queue)
start_workflow i w fresh now queued catalog (s, q) =
    prepare_start w fresh now (load i catalog) s >>= λ r. ok (r.2, r.0, enqueue r.1 queued q)

-- A request that passes the validation, has numbers that fit into columns of 32 bits, lists each
-- task after those that it depends on, and has triggers that are accepted and initialized, becomes
-- a workflow definition that is stored and that, if it is enabled, starts under the id that
-- `create` returned: the start returns the id of the new workflow execution, and what it enqueues
-- are tasks whose parents are all completed. The values of `uuid4()` are distinct and new to the
-- tables.
pub created_definition_starts :
    (task_registry : List TaskPlugin) (trigger_registry : List TriggerPlugin) (draws : Draws)
    (request : CreateWorkflowDefinition) (c : Catalog) (states states' : List TriggerState)
    (tasks : List TaskDefinition) (triggers : List (TriggerDefinition × TriggerPlugin)) (w : Uuid)
    (fresh : ℕ → Uuid) (now queued : Time) (s : Store) (q : Queue)
    → ((m n : ℕ) → draws.task_ids m ≡ draws.task_ids n → m ≡ n)
    → ((m n : ℕ) → draws.trigger_ids m ≡ draws.trigger_ids n → m ≡ n)
    → validate_tasks task_registry request.tasks ≡ ok tt
    → FitTasks request.tasks
    → Listed [] request.tasks
    → create_task_definitions draws.task_ids request.tasks ≡ ok tasks
    → create_trigger_definitions trigger_registry draws.trigger_ids 0 request.triggers ≡ ok triggers
    → initialize_triggers draws.clock 0 triggers states ≡ ok states'
    → IsNew (requested draws request tasks triggers) c
    → request.enabled ≡ true
    → workflow w s ≡ none
    → AreFresh fresh s
    → UniqueKeys task_key s.tasks
    → (c' : Catalog) × (s' : Store) × (roots : List Uuid) × (create_definition task_registry
          trigger_registry draws request
          (c, states)
        ≡ ok (draws.id, c', states'))
      × (start_workflow draws.id w fresh now queued c' (s, q) ≡ ok (w, s', enqueue roots queued q))
      × ((i : Uuid) → contains i roots ≡ true → Ready s' i)
unfolding start_workflow
created_definition_starts tr gr draws request c states states' tasks triggers w fresh now queued s q
      dt dg h fits listed ht hg hi new enabled free unused unique =
    let (c', created, loaded, _, _) =
      create_definition_stores tr gr draws request c states states' tasks triggers dt dg h fits
        listed ht hg hi new in
    let (ds, s', roots, made, _, starts) =
      validated_definition_starts tr draws.task_ids request.tasks
        (λ ds. requested draws request ds triggers) w fresh now s dt h fits (λ ds. refl)
        (λ ds. enabled) free unused in
    let same : ds ≡ tasks = ground arith in
    let starts' =
      subst
        (λ ds.
          prepare_start w fresh now (some (requested draws request ds triggers)) s
          ≡ ok (s', roots, w))
        same starts in
    (
      c',
      s',
      roots,
      created,
      ap (λ d. prepare_start w fresh now d s >>= λ r. ok (r.2, r.0, enqueue r.1 queued q)) loaded
          ∙ ap (λ m. m >>= λ r. ok (r.2, r.0, enqueue r.1 queued q)) starts',
      λ i m.
          start-Ready w fresh now (requested draws request tasks triggers) s s' roots w starts'
            unique i m,
    )
