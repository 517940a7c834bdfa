-- ===== src/System.antt =====
-- The platform as a whole: any number of workers, reconcilers and starts of workflows over one
-- database and one queue.
-- Every transaction of theirs is one step, and the steps of different processes interleave freely.
-- `claimed` and `offered` record which task ids have ever been handed to a worker by a claim, and
-- which have ever been named to a process as runnable; what a process remembers is among these.
pub mod Moves
pub mod Safety
pub mod Lasting
use automation_platform.Base.{ℕ, ◌≡◌, Bool, true, Option, none, some, List, ◌∷◌, ◌++◌, contains}
use automation_platform.Domain.{Uuid, Time, TaskResult, WorkflowDefinition}
use automation_platform.Errors.{ok}
use automation_platform.Launch.{prepare_start}
use automation_platform.Launch.Tables.{AreFresh, IsExecutable}
use automation_platform.Executions.{Store, find_runnable_ids}
use automation_platform.Queue.{Queue, Claim, enqueue, claim, heartbeat, release, finish}
use automation_platform.Processing.{start_phase, finish_phase}

pub record Platform : Type 0 where
  pub store : Store
  pub queue : Queue
  pub claimed : List Uuid
  pub offered : List Uuid

abbrev pub claimed_ids : Option Claim → List Uuid → List Uuid
claimed_ids none ids = ids
claimed_ids (some c) ids = c.task_execution_id ∷ ids

-- All of the ids were offered.
abbrev pub Offered : List Uuid → Platform → Type 0
Offered ids p = (i : Uuid) → contains i ids ≡ true → contains i p.offered ≡ true

pub data Step (lease_timeout : ℕ) : Platform → Platform → Type 0 where
  -- a reconciler reads the runnable tasks
  discover :
      (p : Platform)
      → Step lease_timeout p (record p { offered = find_runnable_ids p.store ++ p.offered })
  -- a reconciler enqueues what it has read
  offer :
      (p : Platform) (ids : List Uuid) (now : Time)
      → Offered ids p
      → Step lease_timeout p (record p { queue = enqueue ids now p.queue })
  -- a worker asks for work
  take :
      (p : Platform) (locked : Uuid → Bool) (now : Time) (token worker : Uuid)
      → Step lease_timeout p (record p {
        queue = (claim locked lease_timeout now token worker p.queue).1;
        claimed = claimed_ids (claim locked lease_timeout now token worker p.queue).0 p.claimed;
      })
  -- the heartbeat thread, or the main thread, of a worker on a claim, however stale
  beat :
      (p : Platform) (now : Time) (c : Claim)
      → Step lease_timeout p (record p { queue = (heartbeat now c p.queue).1 })
  give_back :
      (p : Platform) (c : Claim) → Step lease_timeout p (record p { queue = release c p.queue })
  conclude :
      (p : Platform) (now : Time) (c : Claim) (ids : List Uuid)
      → Offered ids p
      → Step lease_timeout p (record p { queue = finish now c ids p.queue })
  -- the first and the last transaction of `process`, by a worker that once claimed the task
  begin :
      (p : Platform) (i : Uuid) (now : Time)
      → contains i p.claimed ≡ true
      → Step lease_timeout p (record p { store = (start_phase i now p.store).1 })
  end_task :
      (p : Platform) (i : Uuid) (result : TaskResult) (now : Time)
      → contains i p.claimed ≡ true
      → Step lease_timeout p (record p {
        store = (finish_phase i result now p.store).1;
        offered = (finish_phase i result now p.store).0.enqueue_task_ids ++ p.offered;
      })
  -- a workflow is started, by hand or by a trigger
  launch :
      (p : Platform) (w : Uuid) (fresh : ℕ → Uuid) (now : Time) (definition : WorkflowDefinition)
      (store : Store) (roots : List Uuid) (i : Uuid)
      → AreFresh fresh p.store
      → IsExecutable definition.task_definitions
      → prepare_start w fresh now (some definition) p.store ≡ ok (store, roots, i)
      → Step lease_timeout p (record p { store = store; offered = roots ++ p.offered })

pub data Reach (lease_timeout : ℕ) (p : Platform) : Platform → Type 0 where
  here : Reach lease_timeout p p
  next :
      {q r : Platform} → Reach lease_timeout p q → Step lease_timeout q r → Reach lease_timeout p r
