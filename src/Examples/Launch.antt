-- ===== src/Examples/Launch.antt =====
-- The theorems about starts at a workflow of two tasks, beside the sample execution.
use automation_platform.Base.{
  ℕ, ◌+◌, ◌≡◌, refl, true, none, some, List, [], ◌∷◌, ◌++◌, map, arith, inl, inr,
}
use automation_platform.Domain.{
  Uuid, end, TaskDefinition, WorkflowDefinition, TaskExecution, TaskStatus, WorkflowExecution,
}
use automation_platform.Errors.{ok}
use automation_platform.Executions.{Store}
use automation_platform.Executions.Invariant.{Sound}
use automation_platform.Launch.{
  prepare_start, create_workflow_execution, create, task_to_model, workflow_to_model,
}
use automation_platform.Launch.RoundTrip.{create_then_load}
use automation_platform.Executions.Loading.{load, delete, get_execution}
use automation_platform.Launch.Rows.{AllLaunched, root_ids}
use automation_platform.Launch.Start.{launched_workflow, start_adds_executions}
use automation_platform.Launch.Tables.{AreFresh, IsExecutable}
use automation_platform.Launch.Safety.{prepare_start-Sound}
use automation_platform.Examples.Sample.{sample, sample-Sound}

abbrev task_definition : Uuid → List Uuid → TaskDefinition
task_definition i deps = record {
  id = i;
  plugin_type = "collect_inputs";
  key = "task";
  configuration = end;
  dependencies = deps;
  max_tries = 3;
}

-- The second task depends on the first.
abbrev two_tasks : WorkflowDefinition
two_tasks = record {
  id = 30;
  name = "two tasks";
  description = "";
  task_definitions = task_definition 32 (31 ∷ []) ∷ task_definition 31 [] ∷ [];
  trigger_definitions = [];
  enabled = true;
}

abbrev new_id : Uuid
new_id = 500

abbrev pub fresh : ℕ → Uuid
fresh n = 600 + n

abbrev execution : Uuid → TaskDefinition → ℕ → List Uuid → List Uuid → TaskExecution
execution i t n parents children = record {
  id = i;
  workflow_execution_id = 500;
  task_definition_id = t.id;
  key = t.key;
  plugin_type = t.plugin_type;
  configuration = t.configuration;
  status = TaskStatus.pending;
  remaining_dependencies = n;
  remaining_tries = 3;
  parent_task_ids = parents;
  child_task_ids = children;
  output = none;
  error_message = none;
  started_at = none;
  completed_at = none;
}

abbrev executions : List TaskExecution
executions =
    execution 600 (task_definition 32 (31 ∷ [])) 1 (601 ∷ []) []
    ∷ execution 601 (task_definition 31 []) 0 [] (600 ∷ [])
    ∷ []

abbrev store_after : Store
store_after = record {
  workflows =
      sample.workflows ++ workflow_to_model (launched_workflow 500 40 two_tasks executions) ∷ [];
  tasks = sample.tasks ++ map task_to_model executions;
}

starts : prepare_start 500 fresh 40 (some two_tasks) sample ≡ ok (store_after, 601 ∷ [], 500)
unfolding prepare_start create_workflow_execution create
starts = refl

pub fresh-AreFresh : AreFresh fresh sample
fresh-AreFresh = record {
  distinct = λ m n e. omega arith;
  absent = λ m. ground arith;
  no_parent = λ m i r h. ground arith;
  no_child = λ m i r h. ground arith;
}

two_tasks-IsExecutable : IsExecutable two_tasks.task_definitions
two_tasks-IsExecutable = record {
  unique = (refl, (refl, tt));
  tries = λ t i. elim i [
    | inl e ↦ rw e (omega arith)
    | inr j ↦ elim j [ inl e ↦ rw e (omega arith) | inr k ↦ absurd k ]
  ];
}

start_adds_executions_example :
    (es : List TaskExecution) × (store_after.workflows
      ≡ sample.workflows ++ workflow_to_model (launched_workflow 500 40 two_tasks es) ∷ [])
    × (store_after.tasks ≡ sample.tasks ++ map task_to_model es)
    × AllLaunched 500 two_tasks.task_definitions es
    × (601 ∷ [] ≡ root_ids es)
    × (new_id ≡ new_id)
    × (two_tasks.enabled ≡ true)
start_adds_executions_example =
    start_adds_executions 500 fresh 40 two_tasks sample store_after (601 ∷ []) 500 starts

prepare_start-Sound_example : Sound store_after
prepare_start-Sound_example =
    prepare_start-Sound 500 fresh 40 two_tasks sample store_after (601 ∷ []) 500 starts sample-Sound
      fresh-AreFresh two_tasks-IsExecutable

abbrev launched : WorkflowExecution
launched = launched_workflow 500 40 two_tasks executions

created : create launched sample ≡ ok store_after
unfolding create
created = refl

create_then_load_example :
    (load 500 store_after ≡ some launched)
    × (get_execution 500 store_after ≡ ok launched)
    × (delete 500 store_after ≡ sample)
create_then_load_example =
    create_then_load launched sample store_after created (refl, (refl, tt)) refl
