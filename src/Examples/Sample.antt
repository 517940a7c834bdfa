-- ===== src/Examples/Sample.antt =====
-- The tables and the queue that the tests use.
use mathlib.Core.Bool.{false≢true}
use automation_platform.Base.{ℕ, ◌<◌, refl, none, some, [], ◌∷◌, arith, inr}
use automation_platform.Domain.{TaskStatus, WorkflowStatus, end, field, text}
use automation_platform.Executions.{TaskRow, WorkflowRow, Store}
use automation_platform.Executions.Invariant.{Sound}
use automation_platform.Executions.Progress.{Ready}
use automation_platform.Queue.{Queue, QueueEntry, Claim}
use automation_platform.Queue.Validity.{IsValid}
use automation_platform.System.{Platform}
use automation_platform.System.Safety.{Safe}

abbrev pub first_task : TaskRow
first_task = record {
  id = 1;
  workflow_execution_id = 100;
  task_definition_id = 11;
  key = "first";
  plugin_type = "produce_value";
  configuration = field "value" (text "x") end;
  status = TaskStatus.running;
  remaining_dependencies = 0;
  parent_task_ids = [];
  child_task_ids = 2 ∷ [];
  remaining_tries = 2;
  output = none;
  error_message = none;
  started_at = some 5;
  completed_at = none;
}

abbrev pub second_task : TaskRow
second_task = record {
  id = 2;
  workflow_execution_id = 100;
  task_definition_id = 12;
  key = "second";
  plugin_type = "collect_inputs";
  configuration = end;
  status = TaskStatus.pending;
  remaining_dependencies = 1;
  parent_task_ids = 1 ∷ [];
  child_task_ids = [];
  remaining_tries = 1;
  output = none;
  error_message = none;
  started_at = none;
  completed_at = none;
}

abbrev pub sample_workflow : WorkflowRow
sample_workflow = record {
  id = 100;
  workflow_definition_id = 10;
  status = WorkflowStatus.running;
  created_at = 4;
  started_at = none;
  completed_at = none;
}

-- The first task has `n` tries left.
abbrev pub store_with : ℕ → Store
store_with n = record {
  workflows = sample_workflow ∷ [];
  tasks = record first_task { remaining_tries = n } ∷ second_task ∷ [];
}

abbrev pub sample : Store
sample = store_with 2

-- Worker 7 holds the first task.
abbrev pub first_entry : QueueEntry
first_entry = record {
  task_execution_id = 1;
  claim_token = some 50;
  claimed_by = some 7;
  queued_at = 3;
  claimed_at = some 5;
  last_heartbeat = some 5;
}

abbrev pub sample_queue : Queue
sample_queue = first_entry ∷ []

abbrev pub first_claim : Claim
first_claim = record { task_execution_id = 1; claim_token = 50 }

abbrev pub lost_claim : Claim
lost_claim = record { task_execution_id = 1; claim_token = 49 }

pub sample_queue-IsValid : IsValid sample_queue
sample_queue-IsValid = record {
  unique = (refl, tt);
  consistent = (inr (λ e. cc, λ e. cc, λ e. cc, λ e. cc), tt);
}

pub store_with-Sound : (n : ℕ) → 0 < n → Sound (store_with n)
store_with-Sound n pos = record {
  unique = (refl, (refl, tt));
  unique_workflows = (refl, tt);
  linked = λ i j p c hp hc. ground arith;
  counted = λ i r h p. ground arith;
  begun = λ i r h p. ground arith;
  stored = λ i r h p. ground arith;
  tries = λ i r h p. ground arith;
  settled = λ i w r x h hw p. ground arith;
}

pub sample-Sound : Sound sample
sample-Sound = store_with-Sound 2 (omega arith)

pub sample-Ready : Ready sample 1
sample-Ready = (first_task, refl, refl)

abbrev pub platform : Platform
platform = record { store = sample; queue = sample_queue; claimed = 1 ∷ []; offered = [] }

pub platform-Safe : Safe platform
platform-Safe = record {
  sound = sample-Sound;
  valid = sample_queue-IsValid;
  queued = λ i h. (first_task, ground arith, refl);
  claims = λ i h. (first_task, ground arith, refl);
  offers = λ i h. absurd (false≢true h);
}
