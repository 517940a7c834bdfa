-- ===== src/Examples/Triggers.antt =====
-- The theorems about triggers at two due triggers, the first for a disabled workflow definition.
use automation_platform.Base.{
  ◌<◌, ◌≤◌, ◌≡◌, inl, refl, Bool, true, false, none, some, [], ◌∷◌, arith, ◌==◌, if◌then◌else◌, ◌+◌,
  ◌*◌, ℕ,
}
use automation_platform.Domain.{
  Uuid, Time, Fields, end, field, integer, WorkflowDefinition, WorkflowStatus, TaskStatus,
}
use automation_platform.Errors.{ok, raised, overflow_error, other_error}
use automation_platform.Table.{In, find}
use automation_platform.Plugins.{get, get_field}
use automation_platform.Launch.{prepare_start, create_workflow_execution, create}
use automation_platform.Plugins.Interval.{
  FloatShift, latest, interval, validate_configuration, next_occurrence, next_occurrence_later,
}
use automation_platform.Triggers.{
  TriggerRow, TriggerState, DueChronologicalTrigger, Database, Occasion, get_next_due, process_due,
  run_scheduler, state_key, trigger_key, is_before,
}
use automation_platform.Triggers.Due.{get_next_due_first}
use automation_platform.Triggers.Blocking.{
  IsFirst, disabled_definition_blocks_scheduler, interval_trigger_advances,
}

-- No trigger of the tests has a float.
abbrev pub no_floats : FloatShift
no_floats after x = raised other_error

abbrev every_minute : Fields
every_minute = field "interval_seconds" (integer 60) end

abbrev definition : Uuid → Bool → WorkflowDefinition
definition i enabled = record {
  id = i;
  name = "report";
  description = "";
  task_definitions =
      record {
        id = 1;
        plugin_type = "fail";
        key = "only";
        configuration = end;
        dependencies = [];
        max_tries = 1;
      }
      ∷ [];
  trigger_definitions = [];
  enabled = enabled;
}

abbrev trigger : Uuid → Uuid → TriggerRow
trigger i w = record {
  id = i;
  workflow_definition_id = w;
  plugin_type = "interval";
  configuration = every_minute;
  enabled = true;
}

abbrev state : Uuid → Time → TriggerState
state i t = record { trigger_definition_id = i; next_run_at = t }

-- The workflow of the earlier trigger is enabled or not.
abbrev database : Bool → Database
database enabled = record {
  definitions = definition 10 enabled ∷ definition 20 true ∷ [];
  triggers = trigger 1 10 ∷ trigger 2 20 ∷ [];
  states = state 1 5 ∷ state 2 6 ∷ [];
  store = record { workflows = []; tasks = [] };
}

abbrev occasion : Occasion
occasion = record {
  locked = λ _. false;
  now = 100;
  execution_id = 500;
  fresh = λ n. 600 + n;
  enqueued_at = 101;
}

abbrev due : DueChronologicalTrigger
due = record {
  trigger_definition_id = 1;
  workflow_definition_id = 10;
  plugin_type = "interval";
  configuration = every_minute;
  next_run_at = 5;
}

database-IsFirst : IsFirst (database false) (state 1 5) (trigger 1 10)
database-IsFirst = record {
  present = inl refl;
  defined = refl;
  enabled = refl;
  before = λ s t i k e. ground arith;
}

disabled_definition_blocks_scheduler_example :
    run_scheduler (interval no_floats ∷ []) (occasion ∷ occasion ∷ []) (database false, [])
    ≡ (database false, [])
disabled_definition_blocks_scheduler_example =
    disabled_definition_blocks_scheduler (interval no_floats ∷ []) (occasion ∷ occasion ∷ [])
      (database false) [] (state 1 5) (trigger 1 10) database-IsFirst refl
      ((omega arith, refl), ((omega arith, refl), tt))

due_first : get_next_due (λ _. false) 100 (database true) ≡ some due
unfolding get_next_due
due_first = refl

get_next_due_first_example :
    (s : TriggerState) × (t : TriggerRow) × In s (database true).states
    × (find trigger_key s.trigger_definition_id (database true).triggers ≡ some t)
    × (1 ≡ s.trigger_definition_id)
    × (5 ≡ s.next_run_at)
    × (10 ≡ t.workflow_definition_id)
    × (s.next_run_at ≤ 100)
    × (t.enabled ≡ true)
    × (false ≡ false)
    × ((s' : TriggerState) (t' : TriggerRow)
        → In s' (database true).states
        → find trigger_key s'.trigger_definition_id (database true).triggers ≡ some t'
        → s'.next_run_at ≤ 100
        → t'.enabled ≡ true
        → false ≡ false
        → is_before s s' ≡ true)
get_next_due_first_example = get_next_due_first (λ _. false) 100 (database true) due due_first

next_occurrence_later_example :
    (n : ℕ) × (get_field "interval_seconds" every_minute ≡ some (integer n))
    × (5 < 5 + n * 1000000)
    × (5 + n * 1000000 ≤ latest
        → next_occurrence no_floats every_minute 5 ≡ ok (some (5 + n * 1000000)))
    × (latest < 5 + n * 1000000 → next_occurrence no_floats every_minute 5 ≡ raised overflow_error)
unfolding validate_configuration
next_occurrence_later_example = next_occurrence_later no_floats every_minute 5 refl

-- A million million seconds pass the validation.
long_interval :
    validate_configuration (field "interval_seconds" (integer 1000000000000) end) ≡ ok tt
unfolding validate_configuration
long_interval = refl

long_interval_raises :
    next_occurrence no_floats (field "interval_seconds" (integer 1000000000000) end) 5
    ≡ raised overflow_error
unfolding next_occurrence
long_interval_raises = refl

-- The tables after the due trigger was processed.
abbrev processed : Database
processed = record (database true) {
  states = state 1 60000005 ∷ state 2 6 ∷ [];
  store = record {
    workflows =
        record {
          id = 500;
          workflow_definition_id = 10;
          status = WorkflowStatus.running;
          created_at = 100;
          started_at = none;
          completed_at = none;
        }
        ∷ [];
    tasks =
        record {
          id = 600;
          workflow_execution_id = 500;
          task_definition_id = 1;
          key = "only";
          plugin_type = "fail";
          configuration = end;
          status = TaskStatus.pending;
          remaining_dependencies = 0;
          parent_task_ids = [];
          child_task_ids = [];
          remaining_tries = 1;
          output = none;
          error_message = none;
          started_at = none;
          completed_at = none;
        }
        ∷ [];
  };
}

processed_run :
    process_due (interval no_floats ∷ []) occasion due (database true) ≡ ok (processed, 600 ∷ [])
unfolding process_due interval get prepare_start create_workflow_execution create
processed_run = refl

interval_trigger_advances_example :
    (later : Time) × (5 < later)
    × ((j : Uuid) (x : TriggerState)
        → find state_key j (database true).states ≡ some x
        → find state_key j processed.states
          ≡ some (if j == 1 then record x { next_run_at = later } else x))
unfolding get interval validate_configuration
interval_trigger_advances_example =
    interval_trigger_advances no_floats (interval no_floats ∷ []) occasion due (database true)
      processed (600 ∷ []) refl refl processed_run
