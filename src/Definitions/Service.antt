-- ===== src/Definitions/Service.antt =====
-- The transactions of `WorkflowDefinitionService`: `create` and `delete`, over the tables of workflow
-- definitions and of trigger states. What raises is rolled back: the tables stay as they were.
use automation_platform.Base.{ℕ, suc, List, [], ◌∷◌, map}
use automation_platform.Domain.{Uuid, Time, WorkflowDefinition, TriggerDefinition}
use automation_platform.Errors.{Result, ok, ◌>>=◌, ◌>>◌}
use automation_platform.Plugins.{TaskPlugin, TriggerPlugin}
use automation_platform.Triggers.{TriggerState, initialize_trigger}
use automation_platform.Executions.{WorkflowRow}
use automation_platform.Catalog as Catalog
use automation_platform.Catalog.{Catalog, save}
use automation_platform.Definitions.{
  CreateWorkflowDefinition, validate_tasks, create_task_definitions, create_trigger_definitions,
}

-- `for trigger_definition, trigger_plugin in resolved_triggers: initialize(…)`, at the times that the
-- clock shows in turn
unfoldable pub initialize_triggers :
    (ℕ → Time)
    → ℕ
    → List (TriggerDefinition × TriggerPlugin)
    → List TriggerState
    → Result (List TriggerState)
initialize_triggers clock n [] states = ok states
initialize_triggers clock n ((t, p) ∷ ts) states =
    initialize_trigger p t (clock n) states >>= initialize_triggers clock (suc n) ts

-- The values that `create` draws: the id of the workflow definition, those of its tasks and of its
-- triggers, and the times.
pub record Draws : Type 0 where
  pub id : Uuid
  pub task_ids : ℕ → Uuid
  pub trigger_ids : ℕ → Uuid
  pub clock : ℕ → Time

-- `WorkflowDefinitionService.create`: the tables to commit, and the id of the definition.
unfoldable pub create_definition :
    List TaskPlugin
    → List TriggerPlugin
    → Draws
    → CreateWorkflowDefinition
    → Catalog × List TriggerState
    → Result (Uuid × Catalog × List TriggerState)
unfolding initialize_triggers
create_definition task_registry trigger_registry draws request (catalog, states) = do
  validate_tasks task_registry request.tasks
  task_definitions ← create_task_definitions draws.task_ids request.tasks
  triggers ← create_trigger_definitions trigger_registry draws.trigger_ids 0 request.triggers
  let definition : WorkflowDefinition = record {
    id = draws.id;
    name = request.name;
    description = request.description;
    task_definitions = task_definitions;
    trigger_definitions = map (λ (t : TriggerDefinition × TriggerPlugin). t.0) triggers;
    enabled = request.enabled;
  }
  catalog' ← save definition catalog
  states' ← initialize_triggers draws.clock 0 triggers states
  ok (definition.id, catalog', states')

-- `WorkflowDefinitionService.delete`, over the workflow executions that refer to definitions
unfoldable pub delete_definition : Uuid → List WorkflowRow → Catalog → Result Catalog
delete_definition i executions catalog = Catalog.delete i executions catalog
