-- ===== src/Domain.antt =====
-- The domain model: src/automation_platform/domain. Identifiers (UUID) are only compared, and
-- times are only compared and shifted, so both are naturals; a time counts microseconds.
use automation_platform.Base.{ℕ, Bool, Option, List, String}

abbrev pub Uuid : Type 0
Uuid = ℕ

abbrev pub Time : Type 0
Time = ℕ

-- A JSON value; `Fields` is a JSON object, the `dict[str, Any]` of the source.
mutual
  pub data Value : Type 0 where
    null : Value
    bool : Bool → Value
    integer : ℕ → Value
    -- -(n + 1)
    negative : ℕ → Value
    -- a number with a fraction, by its text
    float : String → Value
    text : String → Value
    array : Items → Value
    object : Fields → Value

  pub data Items : Type 0 where
    nil : Items
    cons : Value → Items → Items

  pub data Fields : Type 0 where
    end : Fields
    field : String → Value → Fields → Fields

pub data WorkflowStatus : Type 0 where
  running completed failed cancelled : WorkflowStatus

pub data TaskStatus : Type 0 where
  pending running completed failed cancelled : TaskStatus

pub record TaskOutput : Type 0 where
  pub values : Fields

pub record TaskContext : Type 0 where
  pub configuration : Fields
  pub inputs : List (String × TaskOutput)

pub record TaskResult : Type 0 where
  pub succeeded : Bool
  pub output : TaskOutput
  pub message : Option String

pub record TaskDefinition : Type 0 where
  pub id : Uuid
  pub plugin_type : String
  pub key : String
  pub configuration : Fields
  pub dependencies : List Uuid
  pub max_tries : ℕ

pub record TriggerDefinition : Type 0 where
  pub id : Uuid
  pub plugin_type : String
  pub configuration : Fields
  pub enabled : Bool

pub record WorkflowDefinition : Type 0 where
  pub id : Uuid
  pub name : String
  pub description : String
  pub task_definitions : List TaskDefinition
  pub trigger_definitions : List TriggerDefinition
  pub enabled : Bool

pub record TaskExecution : Type 0 where
  pub id : Uuid
  pub workflow_execution_id : Uuid
  pub task_definition_id : Uuid
  pub key : String
  pub plugin_type : String
  pub configuration : Fields
  pub status : TaskStatus
  pub remaining_dependencies : ℕ
  pub remaining_tries : ℕ
  pub parent_task_ids : List Uuid
  pub child_task_ids : List Uuid
  pub output : Option TaskOutput
  pub error_message : Option String
  pub started_at : Option Time
  pub completed_at : Option Time

pub record WorkflowExecution : Type 0 where
  pub id : Uuid
  pub workflow_definition_id : Uuid
  pub status : WorkflowStatus
  pub task_executions : List TaskExecution
  pub created_at : Time
  pub started_at : Option Time
  pub completed_at : Option Time
