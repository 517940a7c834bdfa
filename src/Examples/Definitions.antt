-- ===== src/Examples/Definitions.antt =====
-- The theorems about workflow definitions that are requested, at a list of two tasks, where the first
-- depends on the second.
use automation_platform.Base.{
  ℕ, ◌+◌, ◌≡◌, ◌≢◌, ◌↔◌, refl, Bool, true, false, some, List, [], ◌∷◌, arith, String, map, ◌++◌,
}
use automation_platform.Domain.{TaskExecution, Uuid, end, TaskDefinition, WorkflowDefinition}
use automation_platform.Errors.{ok, raised, invalid_workflow_definition, out_of_fuel}
use automation_platform.Texts.{same}
use automation_platform.Plugins as Plugins
use automation_platform.Plugins.{TaskPlugin}
use automation_platform.Plugins.Tasks.{collect_inputs, produce_value}
use automation_platform.Executions.{Store, find_runnable_ids}
use automation_platform.Launch.{
  prepare_start, create_workflow_execution, create, new_execution, task_to_model, workflow_to_model,
}
use automation_platform.Launch.Start.{launched_workflow}
use automation_platform.System.{Platform, Reach, Step}
use automation_platform.Executions.Liveness.{Cause}
use automation_platform.System.Lasting.{launched-Cause}
use automation_platform.Definitions.{validate_tasks, create_task_definitions}
use automation_platform.Definitions.Cycle.{CreateTaskDefinition, has_dependency_cycle}
use automation_platform.Definitions.Cycle.Correct.{Acyclic, has_dependency_cycle_lem}
use automation_platform.Definitions.Cycle.Ends.{has_dependency_cycle_ends}
use automation_platform.Definitions.Validation.{IsValidDefinition, validate_tasks_iff}
use automation_platform.Examples.Sample.{sample, platform, platform-Safe}
use automation_platform.Examples.Launch.{fresh, fresh-AreFresh}

abbrev requested : String → List String → CreateTaskDefinition
requested k deps = record {
  plugin_type = "collect_inputs";
  key = k;
  configuration = end;
  dependencies = deps;
  max_tries = 3;
}

abbrev chain : List CreateTaskDefinition
chain = requested "report" ("load" ∷ []) ∷ requested "load" [] ∷ []

abbrev loop : List CreateTaskDefinition
loop = requested "report" ("load" ∷ []) ∷ requested "load" ("report" ∷ []) ∷ []

abbrev registry : List TaskPlugin
registry = collect_inputs ∷ produce_value ∷ []

loop_found : has_dependency_cycle loop ≡ ok true
unfolding has_dependency_cycle same
loop_found = refl

chain_passes : validate_tasks registry chain ≡ ok tt
unfolding validate_tasks has_dependency_cycle same collect_inputs produce_value Plugins.contains
    Plugins.get
chain_passes = refl

loop_refused : validate_tasks registry loop ≡ raised invalid_workflow_definition
unfolding validate_tasks has_dependency_cycle same collect_inputs produce_value Plugins.contains
    Plugins.get
loop_refused = refl

reports_differ : same "report" "load" ≡ false
unfolding same
reports_differ = refl

has_dependency_cycle_lem_example :
    (cycle : Bool) × (has_dependency_cycle chain ≡ ok cycle) × ((cycle ≡ false) ↔ Acyclic chain)
has_dependency_cycle_lem_example =
    has_dependency_cycle_lem chain (rw reports_differ refl, (refl, tt))
      (λ d h. ground arith, (λ d h. ground arith, tt))

has_dependency_cycle_ends_example : has_dependency_cycle loop ≢ raised out_of_fuel
has_dependency_cycle_ends_example = has_dependency_cycle_ends loop

validate_tasks_iff_example :
    (validate_tasks registry chain ≡ ok tt) ↔ IsValidDefinition registry chain
validate_tasks_iff_example = validate_tasks_iff registry chain

abbrev definition_of : List TaskDefinition → WorkflowDefinition
definition_of ds = record {
  id = 30;
  name = "report";
  description = "";
  task_definitions = ds;
  trigger_definitions = [];
  enabled = true;
}

abbrev task_id : ℕ → Uuid
task_id n = 700 + n

abbrev made_task : Uuid → String → List Uuid → TaskDefinition
made_task i k deps = record {
  id = i;
  plugin_type = "collect_inputs";
  key = k;
  configuration = end;
  dependencies = deps;
  max_tries = 3;
}

abbrev made_tasks : List TaskDefinition
made_tasks = made_task 700 "report" (701 ∷ []) ∷ made_task 701 "load" [] ∷ []

chain_made : create_task_definitions task_id chain ≡ ok made_tasks
unfolding create_task_definitions same
chain_made = refl

abbrev executions : List TaskExecution
executions =
    new_execution 500 (made_task 700 "report" (701 ∷ [])) 600 (601 ∷ []) []
    ∷ new_execution 500 (made_task 701 "load" []) 601 [] (600 ∷ [])
    ∷ []

abbrev after : Store
after = record {
  workflows =
      sample.workflows
      ++ workflow_to_model (launched_workflow 500 40 (definition_of made_tasks) executions) ∷ [];
  tasks = sample.tasks ++ map task_to_model executions;
}

chain_starts :
    prepare_start 500 fresh 40 (some (definition_of made_tasks)) sample ≡ ok (after, 601 ∷ [], 500)
unfolding prepare_start create_workflow_execution create
chain_starts = refl

-- The start, and then a look of the reconciler at the runnable tasks.
abbrev started : Platform
started = record platform { store = after; offered = 601 ∷ platform.offered }

abbrev later : Platform
later = record started { offered = find_runnable_ids started.store ++ started.offered }

-- The report waits, and what it waits for is offered.
launched-Cause_example : Cause after 600
launched-Cause_example =
    launched-Cause 30 registry task_id chain (definition_of made_tasks) platform later 500 fresh 40
      after (601 ∷ []) 500 600
      (task_to_model (new_execution 500 (made_task 700 "report" (701 ∷ [])) 600 (601 ∷ []) []))
      (task_to_model (new_execution 500 (made_task 700 "report" (701 ∷ [])) 600 (601 ∷ []) []))
      (λ m n e. omega arith) chain_passes chain_made platform-Safe fresh-AreFresh chain_starts refl
      refl (Reach.next Reach.here (Step.discover started)) refl refl
