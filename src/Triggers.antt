-- ===== src/Triggers.antt =====
-- Chronological triggers: src/automation_platform/application/chronological_triggers/service.py and
-- trigger_initialization/service.py, over src/automation_platform/persistence/chronological_triggers.
-- The scheduler of src/automation_platform/runtime/scheduler/scheduler.py is the list of the
-- rounds of its loop.
pub mod Due
pub mod Blocking
use automation_platform.Base.{
  ℕ, Bool, true, false, not, ◌&&◌, ◌||◌, Option, none, some, List, [], ◌∷◌, ◌++◌, String, leb, ltb,
  ◌==◌, if◌then◌else◌, filter_by,
}
use automation_platform.Domain.{Uuid, Time, Fields, TriggerDefinition, WorkflowDefinition}
use automation_platform.Errors.{
  Result, ok, raised, integrity_error, missing_trigger_state, other_error, ◌>>=◌,
}
use automation_platform.Table.{find, update_where, delete_where}
use automation_platform.Plugins as Plugins
use automation_platform.Plugins.{TriggerPlugin}
use automation_platform.Executions.{Store}
use automation_platform.Queue.{Queue, enqueue}
use automation_platform.Launch.{prepare_start}

-- `TriggerDefinitionModel`
pub record TriggerRow : Type 0 where
  pub id : Uuid
  pub workflow_definition_id : Uuid
  pub plugin_type : String
  pub configuration : Fields
  pub enabled : Bool

-- `ChronologicalTriggerStateModel`
pub record TriggerState : Type 0 where
  pub trigger_definition_id : Uuid
  pub next_run_at : Time

pub record DueChronologicalTrigger : Type 0 where
  pub trigger_definition_id : Uuid
  pub workflow_definition_id : Uuid
  pub plugin_type : String
  pub configuration : Fields
  pub next_run_at : Time

-- The database as this service sees it: what `workflow_definitions.load` gives for each id, the
-- trigger tables and the execution tables.
pub record Database : Type 0 where
  pub definitions : List WorkflowDefinition
  pub triggers : List TriggerRow
  pub states : List TriggerState
  pub store : Store

abbrev pub definition_key : WorkflowDefinition → ℕ
definition_key d = d.id

abbrev pub trigger_key : TriggerRow → ℕ
trigger_key t = t.id

abbrev pub state_key : TriggerState → ℕ
state_key s = s.trigger_definition_id

-- `ChronologicalTriggerRepository.create`, at the flush
unfoldable pub create : Uuid → Time → List TriggerState → Result (List TriggerState)
create i next states = elim (find state_key i states) [
  | some _ ↦ raised integrity_error
  | none ↦ ok (states ++ record { trigger_definition_id = i; next_run_at = next } ∷ [])
]

-- `ChronologicalTriggerRepository.delete`
unfoldable pub delete : Uuid → List TriggerState → List TriggerState
delete i states = delete_where (λ s. s.trigger_definition_id == i) states

-- `ChronologicalTriggerRepository.update_next_run`
unfoldable pub update_next_run : Uuid → Time → List TriggerState → Result (List TriggerState)
update_next_run i next states = elim (find state_key i states) [
  | none ↦ raised missing_trigger_state
  | some _ ↦ ok (
      update_where (λ s. s.trigger_definition_id == i) (λ s. record s { next_run_at = next })
        states)
]

-- A row of the join, with its trigger definition.
abbrev pub Joined : Type 0
Joined = TriggerState × TriggerRow

abbrev pub joined : List TriggerRow → List TriggerState → List Joined
joined triggers [] = []
joined triggers (s ∷ states) = elim (find trigger_key s.trigger_definition_id triggers) [
  | none ↦ joined triggers states
  | some t ↦ (s, t) ∷ joined triggers states
]

-- The WHERE clause of `get_next_due`, and SKIP LOCKED.
abbrev pub is_due : (Uuid → Bool) → Time → Joined → Bool
is_due locked now (s, t) =
    leb s.next_run_at now && t.enabled && not (locked s.trigger_definition_id)

-- ORDER BY next_run_at, trigger_definition_id
abbrev pub is_before : TriggerState → TriggerState → Bool
is_before a b =
    ltb a.next_run_at b.next_run_at
    || a.next_run_at == b.next_run_at && leb a.trigger_definition_id b.trigger_definition_id

abbrev pub first_due : List Joined → Option Joined
first_due [] = none
first_due (x ∷ xs) = elim (first_due xs) [
  | none ↦ some x
  | some y ↦ if is_before x.0 y.0 then some x else some y
]

unfoldable pub get_next_due : (Uuid → Bool) → Time → Database → Option DueChronologicalTrigger
get_next_due locked now db =
    elim (first_due (filter_by (is_due locked now) (joined db.triggers db.states))) [
      | none ↦ none
      | some (s, t) ↦ some (record {
        trigger_definition_id = s.trigger_definition_id;
        workflow_definition_id = t.workflow_definition_id;
        plugin_type = t.plugin_type;
        configuration = t.configuration;
        next_run_at = s.next_run_at;
      })
    ]

abbrev pub load_definition : Uuid → Database → Option WorkflowDefinition
load_definition i db = find definition_key i db.definitions

-- The call of a plugin's `next_occurrence`; a class without one raises AttributeError.
abbrev pub call_next_occurrence : TriggerPlugin → Fields → Time → Result (Option Time)
call_next_occurrence plugin configuration after = elim plugin.next_occurrence [
  | none ↦ raised other_error
  | some next ↦ next configuration after
]

-- `ChronologicalTriggerService.initialize`
unfoldable pub initialize :
    (Fields → Time → Result (Option Time))
    → TriggerDefinition
    → Time
    → List TriggerState
    → Result (List TriggerState)
initialize next definition now states = next definition.configuration now >>= λ run. elim run [
  | none ↦ ok states
  | some at ↦ create definition.id at states
]

-- `TriggerInitializationService.initialize`: a plugin of no known mechanism has no state.
unfoldable pub initialize_trigger :
    TriggerPlugin → TriggerDefinition → Time → List TriggerState → Result (List TriggerState)
unfolding initialize
initialize_trigger plugin definition now states = elim plugin.next_occurrence [
  | none ↦ ok states
  | some next ↦ initialize next definition now states
]

-- The values that a call of `process_next_due` draws from its environment.
pub record Occasion : Type 0 where
  pub locked : Uuid → Bool
  pub now : Time
  pub execution_id : Uuid
  pub fresh : ℕ → Uuid
  pub enqueued_at : Time

-- The state after the next occurrence of a trigger was calculated.
pub advance : Uuid → Option Time → List TriggerState → Result (List TriggerState)
unfolding delete update_next_run
advance i none states = ok (delete i states)
advance i (some next) states = update_next_run i next states

-- The transaction for a due trigger: the tables to commit, and the root tasks to enqueue.
unfoldable pub process_due :
    List TriggerPlugin
    → Occasion
    → DueChronologicalTrigger
    → Database
    → Result (Database × List Uuid)
unfolding advance
process_due registry o due db = do
  plugin ← Plugins.get (λ (p : TriggerPlugin). p.plugin_type) due.plugin_type registry
  next ← call_next_occurrence plugin due.configuration due.next_run_at
  states ← advance due.trigger_definition_id next db.states
  started ←
      prepare_start o.execution_id o.fresh o.now (load_definition due.workflow_definition_id db)
        db.store
  ok (record db { states = states; store = started.0 }, started.1)

-- `process_next_due`: what is raised rolls the transaction back, and nothing is enqueued.
unfoldable pub process_next_due :
    List TriggerPlugin → Occasion → Database × Queue → Result Bool × Database × Queue
unfolding get_next_due process_due
process_next_due registry o (db, q) = elim (get_next_due o.locked o.now db) [
  | none ↦ (ok false, db, q)
  | some due ↦ elim (process_due registry o due db) [
    | raised e ↦ (raised e, db, q)
    | ok (db', roots) ↦ (ok true, db', enqueue roots o.enqueued_at q)
  ]
]

-- `Scheduler.run`, for the rounds until the stop event is set. What a round raises is logged.
unfoldable pub run_scheduler :
    List TriggerPlugin → List Occasion → Database × Queue → Database × Queue
unfolding process_next_due
run_scheduler registry [] state = state
run_scheduler registry (o ∷ os) state =
    let (_, db, q) = process_next_due registry o state in run_scheduler registry os (db, q)
