-- ===== src/Examples/Runtime.antt =====
-- The theorems about the processes of the platform at the sample state.
use automation_platform.Base.{
  ◌≡◌, ◌≢◌, inl, refl, true, false, Option, none, some, List, [], ◌∷◌, ◌++◌,
}
use automation_platform.Domain.{Uuid, TaskResult, end}
use automation_platform.Errors.{Error, ok, raised}
use automation_platform.Executions.{StartTaskExecutionResult, Store}
use automation_platform.Executions.Invariant.{Sound}
use automation_platform.Plugins.{TaskPlugin}
use automation_platform.Plugins.Tasks.{collect_inputs, fail, produce_value}
use automation_platform.Processing.{start_phase, execute_plugin, finish_phase, process}
use automation_platform.Processing.Safety.{process_safe}
use automation_platform.Worker.{Schedule, process_claim}
use automation_platform.Worker.Stale.{stale_worker_harmless}
use automation_platform.Reconciler.{reconcile, reconcile_repairs}
use automation_platform.Queue.{QueueEntry, entry}
use automation_platform.System.{Platform, Reach, here, next, end_task}
use automation_platform.System.Safety.{Safe, Reach-Safe, claimed_task_starts}
use automation_platform.Examples.Sample.{
  sample, sample-Sound, sample-Ready, sample_queue, sample_queue-IsValid, lost_claim, second_task,
  platform, platform-Safe,
}

abbrev registry : List TaskPlugin
registry = collect_inputs ∷ fail ∷ produce_value ∷ []

abbrev success : TaskResult
success = record { succeeded = true; output = record { values = end }; message = none }

-- The worker ends the first task, and its successor is offered.
abbrev ended : Platform
ended = record platform {
  store = (finish_phase 1 success 9 sample).1;
  offered = (finish_phase 1 success 9 sample).0.enqueue_task_ids ++ [];
}

ended-Reach : Reach 30 platform ended
ended-Reach = next here (end_task platform 1 success 9 refl)

Reach-Safe_example : Safe ended
Reach-Safe_example = Reach-Safe 30 platform-Safe ended-Reach

claimed_task_starts_example :
    (x : Option StartTaskExecutionResult) × ((start_phase 1 12 ended.store).0 ≡ ok x)
claimed_task_starts_example = claimed_task_starts 30 1 12 platform-Safe ended-Reach refl

process_safe_example :
    Sound (process registry 1 6 9 sample).1
    × ((e : Error)
        → (process registry 1 6 9 sample).0 ≡ raised e
        → (start : StartTaskExecutionResult) × ((start_phase 1 6 sample).0 ≡ ok (some start))
          × (execute_plugin registry start ≡ raised e))
process_safe_example = process_safe registry 1 6 9 sample sample-Sound sample-Ready

abbrev times : Schedule
times = record {
  started = 6;
  ended = 9;
  ticks = record { now = 7; raises = false } ∷ [];
  settled = 10;
}

stale_worker_harmless_example :
    (process_claim registry times lost_claim (sample, sample_queue)).1 ≡ sample_queue
stale_worker_harmless_example =
    stale_worker_harmless registry times lost_claim sample sample_queue sample_queue-IsValid.unique
      refl

-- The second task has become runnable, and is not in the queue.
abbrev released : Store
released = record sample { tasks = record second_task { remaining_dependencies = 0 } ∷ [] }

reconcile_repairs_example :
    (entry 2 (reconcile 20 released sample_queue) ≢ none)
    × ((j : Uuid) (e : QueueEntry)
        → entry j sample_queue ≡ some e
        → entry j (reconcile 20 released sample_queue) ≡ some e)
reconcile_repairs_example =
    reconcile_repairs 20 released sample_queue (record second_task { remaining_dependencies = 0 })
      (inl refl) refl refl
