-- ===== src/Catalog/Mapper.antt =====
-- The rows of the tables of workflow definitions and the mapper between them and the domain:
-- src/automation_platform/persistence/workflow_definitions (model.py, _mapper.py).
use automation_platform.Base.{ℕ, Bool, List, String, map}
use automation_platform.Domain.{Uuid, Fields, TaskDefinition, TriggerDefinition, WorkflowDefinition}
use automation_platform.Triggers.{TriggerRow}

-- `WorkflowDefinitionModel`
pub record DefinitionRow : Type 0 where
  pub id : Uuid
  pub name : String
  pub description : String
  pub enabled : Bool

-- `TaskDefinitionModel`
pub record TaskDefinitionRow : Type 0 where
  pub id : Uuid
  pub workflow_definition_id : Uuid
  pub key : String
  pub plugin_type : String
  pub configuration : Fields
  pub max_tries : ℕ

-- `TaskDefinitionDependencyModel`
pub record DependencyRow : Type 0 where
  pub task_definition_id : Uuid
  pub depends_on_task_definition_id : Uuid

pub record Catalog : Type 0 where
  pub definitions : List DefinitionRow
  pub tasks : List TaskDefinitionRow
  pub dependencies : List DependencyRow
  pub triggers : List TriggerRow

abbrev pub row_key : DefinitionRow → ℕ
row_key r = r.id

abbrev pub task_row_key : TaskDefinitionRow → ℕ
task_row_key r = r.id

-- `WorkflowDefinitionMapper.workflow_to_model`
abbrev pub workflow_to_model : WorkflowDefinition → DefinitionRow
workflow_to_model w = record {
  id = w.id;
  name = w.name;
  description = w.description;
  enabled = w.enabled;
}

-- `WorkflowDefinitionMapper.workflow_to_domain`
abbrev pub workflow_to_domain :
    DefinitionRow → List TaskDefinition → List TriggerDefinition → WorkflowDefinition
workflow_to_domain r tasks triggers = record {
  id = r.id;
  name = r.name;
  description = r.description;
  task_definitions = tasks;
  trigger_definitions = triggers;
  enabled = r.enabled;
}

-- `WorkflowDefinitionMapper.task_to_model`
abbrev pub task_to_model : Uuid → TaskDefinition → TaskDefinitionRow
task_to_model w t = record {
  id = t.id;
  workflow_definition_id = w;
  key = t.key;
  plugin_type = t.plugin_type;
  configuration = t.configuration;
  max_tries = t.max_tries;
}

-- `WorkflowDefinitionMapper.task_to_domain`
abbrev pub task_to_domain : TaskDefinitionRow → List Uuid → TaskDefinition
task_to_domain r dependency_ids = record {
  id = r.id;
  plugin_type = r.plugin_type;
  key = r.key;
  configuration = r.configuration;
  dependencies = dependency_ids;
  max_tries = r.max_tries;
}

-- `WorkflowDefinitionMapper.trigger_to_model`
abbrev pub trigger_to_model : Uuid → TriggerDefinition → TriggerRow
trigger_to_model w t = record {
  id = t.id;
  workflow_definition_id = w;
  plugin_type = t.plugin_type;
  configuration = t.configuration;
  enabled = t.enabled;
}

-- `WorkflowDefinitionMapper.trigger_to_domain`
abbrev pub trigger_to_domain : TriggerRow → TriggerDefinition
trigger_to_domain r = record {
  id = r.id;
  plugin_type = r.plugin_type;
  configuration = r.configuration;
  enabled = r.enabled;
}

-- `WorkflowDefinitionMapper.dependency_to_model`
abbrev pub dependency_to_model : Uuid → Uuid → DependencyRow
dependency_to_model i d = record { task_definition_id = i; depends_on_task_definition_id = d }

-- `WorkflowDefinitionMapper.dependencies_to_models`
abbrev pub dependencies_to_models : TaskDefinition → List DependencyRow
dependencies_to_models t = map (dependency_to_model t.id) t.dependencies
