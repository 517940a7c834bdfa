-- ===== src/Examples/Requests.antt =====
-- The creation of a workflow definition of two tasks and an interval trigger.
use automation_platform.Base.{
  ◌+◌, ◌≡◌, refl, true, some, String, List, [], ◌∷◌, inl, inr, arith, contains,
}
use automation_platform.Domain.{Uuid, end, field, integer, TaskDefinition, TriggerDefinition}
use automation_platform.Errors.{ok}
use automation_platform.Texts.{same}
use automation_platform.Plugins as Plugins
use automation_platform.Plugins.{TaskPlugin, TriggerPlugin}
use automation_platform.Plugins.Tasks.{collect_inputs}
use automation_platform.Plugins.Interval.{interval}
use automation_platform.Triggers.{TriggerState, initialize_trigger, create}
use automation_platform.Catalog.{Catalog, load}
use automation_platform.Definitions.{
  CreateWorkflowDefinition, validate_tasks, create_task_definitions, create_trigger_definitions,
}
use automation_platform.Definitions.Cycle.{CreateTaskDefinition, has_dependency_cycle}
use automation_platform.Definitions.Creation.{FitTasks}
use automation_platform.Definitions.Described.{AllAsked, TriggersAsked}
use automation_platform.Definitions.Service.{create_definition, initialize_triggers, Draws}
use automation_platform.Definitions.Requests.{requested, create_definition_stores}
use automation_platform.Executions.{Store}
use automation_platform.Executions.Progress.{Ready}
use automation_platform.Queue.{enqueue}
use automation_platform.Workflows.{start_workflow, created_definition_starts}
use automation_platform.Examples.Triggers.{no_floats}
use automation_platform.Examples.Catalog.{catalog}
use automation_platform.Examples.Launch.{fresh, fresh-AreFresh}
use automation_platform.Examples.Sample.{sample, sample_queue, sample-Sound}

abbrev task : String → List String → CreateTaskDefinition
task k deps = record {
  plugin_type = "collect_inputs";
  key = k;
  configuration = end;
  dependencies = deps;
  max_tries = 3;
}

abbrev request : CreateWorkflowDefinition
request = record {
  name = "report";
  description = "";
  tasks = task "load" [] ∷ task "report" ("load" ∷ []) ∷ [];
  triggers =
      record {
        plugin_type = "interval";
        configuration = field "interval_seconds" (integer 60) end;
        enabled = true;
      }
      ∷ [];
  enabled = true;
}

abbrev draws : Draws
draws = record { id = 30; task_ids = λ n. 700 + n; trigger_ids = λ n. 800 + n; clock = λ n. 40 + n }

abbrev task_definition : Uuid → String → List Uuid → TaskDefinition
task_definition i k deps = record {
  id = i;
  plugin_type = "collect_inputs";
  key = k;
  configuration = end;
  dependencies = deps;
  max_tries = 3;
}

abbrev task_definitions : List TaskDefinition
task_definitions = task_definition 700 "load" [] ∷ task_definition 701 "report" (700 ∷ []) ∷ []

abbrev triggers : List (TriggerDefinition × TriggerPlugin)
triggers =
    (
      record {
        id = 800;
        plugin_type = "interval";
        configuration = field "interval_seconds" (integer 60) end;
        enabled = true;
      },
      interval no_floats,
    )
    ∷ []

abbrev states : List TriggerState
states = record { trigger_definition_id = 800; next_run_at = 60000040 } ∷ []

tasks_pass : validate_tasks (collect_inputs ∷ []) request.tasks ≡ ok tt
unfolding validate_tasks has_dependency_cycle same collect_inputs Plugins.contains Plugins.get
tasks_pass = refl

tasks-FitTasks : FitTasks request.tasks
tasks-FitTasks t i = elim i [
  | inl e ↦ rw e (refl, refl)
  | inr j ↦ elim j [ inl e ↦ rw e (refl, refl) | inr k ↦ absurd k ]
]

tasks_made : create_task_definitions draws.task_ids request.tasks ≡ ok task_definitions
unfolding create_task_definitions same
tasks_made = refl

triggers_made :
    create_trigger_definitions (interval no_floats ∷ []) draws.trigger_ids 0 request.triggers
    ≡ ok triggers
unfolding create_trigger_definitions Plugins.contains Plugins.get interval
triggers_made = refl

triggers_initialized : initialize_triggers draws.clock 0 triggers [] ≡ ok states
unfolding initialize_triggers initialize_trigger create interval
triggers_initialized = refl

create_definition_stores_example :
    (c' : Catalog) × (create_definition
        (collect_inputs ∷ [])
        (interval no_floats ∷ [])
        draws
        request
        (catalog, [])
      ≡ ok (30, c', states))
    × (load 30 c' ≡ some (requested draws request task_definitions triggers))
    × AllAsked task_definitions request.tasks task_definitions
    × TriggersAsked request.triggers triggers
create_definition_stores_example =
    create_definition_stores (collect_inputs ∷ []) (interval no_floats ∷ []) draws request catalog
      [] states task_definitions triggers (λ m n e. omega arith) (λ m n e. omega arith) tasks_pass
      tasks-FitTasks (λ k h. ground arith, (λ k h. ground arith, tt)) tasks_made triggers_made
      triggers_initialized (record { tasks = refl; dependencies = refl; triggers = refl })

created_definition_starts_example :
    (c' : Catalog) × (s' : Store) × (roots : List Uuid) × (create_definition
        (collect_inputs ∷ [])
        (interval no_floats ∷ [])
        draws
        request
        (catalog, [])
      ≡ ok (30, c', states))
    × (start_workflow 30 500 fresh 40 41 c' (sample, sample_queue)
        ≡ ok (500, s', enqueue roots 41 sample_queue))
    × ((i : Uuid) → contains i roots ≡ true → Ready s' i)
created_definition_starts_example =
    created_definition_starts (collect_inputs ∷ []) (interval no_floats ∷ []) draws request catalog
      [] states task_definitions triggers 500 fresh 40 41 sample sample_queue (λ m n e. omega arith)
      (λ m n e. omega arith) tasks_pass tasks-FitTasks
      (λ k h. ground arith, (λ k h. ground arith, tt)) tasks_made triggers_made triggers_initialized
      (record { tasks = refl; dependencies = refl; triggers = refl }) refl refl fresh-AreFresh
      sample-Sound.unique
