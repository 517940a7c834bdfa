-- ===== src/Definitions.antt =====
-- The workflow definition service: src/automation_platform/application/workflow_definitions
-- (services.py, models.py). `max_tries` is a natural: a number below 1 is refused, whatever it is.
pub mod Cycle
pub mod Validation
pub mod Ids
pub mod Creation
pub mod Lasting
pub mod Service
pub mod Described
pub mod Stored
pub mod Requests
use automation_platform.Base.{
  ℕ, suc, Bool, true, false, not, Option, none, some, List, [], ◌∷◌, String, map, length, is_empty,
  ltb, ◌==◌, if◌then◌else◌,
}
use automation_platform.Domain.{Uuid, Fields, TaskDefinition, TriggerDefinition}
use automation_platform.Errors.{
  Result, ok, raised, invalid_plugin_configuration, invalid_workflow_definition, ◌>>=◌, ◌>>◌,
  raise_if, Error,
}
use automation_platform.Texts.{has_text, text_set, TextDict, text_item, set_text}
use automation_platform.Plugins as Plugins
use automation_platform.Plugins.{TaskPlugin, TriggerPlugin}
use Cycle.{CreateTaskDefinition, has_dependency_cycle}

pub record CreateTriggerDefinition : Type 0 where
  pub plugin_type : String
  pub configuration : Fields
  pub enabled : Bool

pub record CreateWorkflowDefinition : Type 0 where
  pub name : String
  pub description : String
  pub tasks : List CreateTaskDefinition
  pub triggers : List CreateTriggerDefinition
  pub enabled : Bool

-- `except InvalidPluginConfigurationError: raise InvalidWorkflowDefinitionError`
abbrev pub invalid_configuration : {A : Type 0} → Result A → Result A
invalid_configuration (raised invalid_plugin_configuration) = raised invalid_workflow_definition
invalid_configuration r = r

abbrev pub task_type : TaskPlugin → String
task_type p = p.plugin_type

abbrev pub trigger_type : TriggerPlugin → String
trigger_type p = p.plugin_type

-- `for dependency in task.dependencies: if dependency not in seen_keys: raise …`
pub check_dependencies : List String → List String → Result (Unit {0})
check_dependencies seen [] = ok tt
check_dependencies seen (d ∷ ds) =
    raise_if (not (has_text d seen)) invalid_workflow_definition >> check_dependencies seen ds

-- The body of the loop of `_validate_tasks`.
pub check_task : List TaskPlugin → List String → CreateTaskDefinition → Result (Unit {0})
unfolding check_dependencies
check_task registry seen t = do
  raise_if (ltb t.max_tries 1) invalid_workflow_definition
  raise_if (not (Plugins.contains task_type t.plugin_type registry)) invalid_workflow_definition
  invalid_configuration (
      Plugins.get task_type t.plugin_type registry >>= λ p.
      p.validate_configuration t.configuration)
  raise_if (has_text t.key t.dependencies) invalid_workflow_definition
  raise_if (not (length t.dependencies == length (text_set t.dependencies)))
      invalid_workflow_definition
  check_dependencies seen t.dependencies

pub check_tasks : List TaskPlugin → List String → List CreateTaskDefinition → Result (Unit {0})
unfolding check_task
check_tasks registry seen [] = ok tt
check_tasks registry seen (t ∷ ts) = check_task registry seen t >> check_tasks registry seen ts

abbrev pub keys : List CreateTaskDefinition → List String
keys = map (λ t. t.key)

-- `_validate_tasks`
unfoldable pub validate_tasks : List TaskPlugin → List CreateTaskDefinition → Result (Unit {0})
unfolding check_tasks
validate_tasks registry tasks = do
  raise_if (is_empty tasks) invalid_workflow_definition
  raise_if (not (length (text_set (keys tasks)) == length tasks)) invalid_workflow_definition
  check_tasks registry (text_set (keys tasks)) tasks
  cycle ← has_dependency_cycle tasks
  raise_if cycle invalid_workflow_definition

-- `{task.key: uuid4() for task in tasks}`
pub task_ids : (ℕ → Uuid) → ℕ → List CreateTaskDefinition → TextDict Uuid → TextDict Uuid
task_ids fresh n [] d = d
task_ids fresh n (t ∷ ts) d = task_ids fresh (suc n) ts (set_text t.key (fresh n) d)

-- `[task_ids[dependency] for dependency in task.dependencies]`
pub text_items : List String → TextDict Uuid → Result (List Uuid)
text_items [] ids = ok []
text_items (k ∷ ks) ids = text_item k ids >>= λ v. text_items ks ids >>= λ vs. ok (v ∷ vs)

abbrev pub resolved : CreateTaskDefinition → Uuid → List Uuid → TaskDefinition
resolved t i dependencies = record {
  id = i;
  plugin_type = t.plugin_type;
  key = t.key;
  configuration = t.configuration;
  dependencies = dependencies;
  max_tries = t.max_tries;
}

pub resolve_tasks : TextDict Uuid → List CreateTaskDefinition → Result (List TaskDefinition)
unfolding text_items
resolve_tasks ids [] = ok []
resolve_tasks ids (t ∷ ts) = do
  i ← text_item t.key ids
  dependencies ← text_items t.dependencies ids
  rest ← resolve_tasks ids ts
  ok (resolved t i dependencies ∷ rest)

-- `_create_task_definitions`, with the values of `uuid4()` in turn
unfoldable pub create_task_definitions :
    (ℕ → Uuid) → List CreateTaskDefinition → Result (List TaskDefinition)
unfolding task_ids resolve_tasks
create_task_definitions fresh tasks = resolve_tasks (task_ids fresh 0 tasks []) tasks

-- `_create_trigger_definitions`, from the value of `uuid4()` at `n` on
unfoldable pub create_trigger_definitions :
    List TriggerPlugin
    → (ℕ → Uuid)
    → ℕ
    → List CreateTriggerDefinition
    → Result (List (TriggerDefinition × TriggerPlugin))
create_trigger_definitions registry fresh n [] = ok []
create_trigger_definitions registry fresh n (t ∷ ts) = do
  raise_if (not (Plugins.contains trigger_type t.plugin_type registry)) invalid_workflow_definition
  plugin ← invalid_configuration (
      Plugins.get trigger_type t.plugin_type registry >>= λ p.
      p.validate_configuration t.configuration >>= λ _. ok p)
  rest ← create_trigger_definitions registry fresh (suc n) ts
  ok (
      (
        record {
          id = fresh n;
          plugin_type = t.plugin_type;
          configuration = t.configuration;
          enabled = t.enabled;
        },
        plugin,
      )
      ∷ rest)
