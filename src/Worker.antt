-- ===== src/Worker.antt =====
-- The worker: src/automation_platform/runtime/worker/worker.py. The heartbeat thread is the list
-- of its wake-ups until it is stopped, each with the time and with whether the queue's call
-- raised; the main loop is the list of its rounds until the stop event is set.
pub mod Stale
use automation_platform.Base.{ℕ, Bool, true, false, none, some, List, [], ◌∷◌, if◌then◌else◌}
use automation_platform.Domain.{Uuid, Time}
use automation_platform.Errors.{Result, ok, raised}
use automation_platform.Plugins.{TaskPlugin}
use automation_platform.Executions.{Store}
use automation_platform.Queue.{Queue, Claim, claim, heartbeat, release, finish}
use automation_platform.Processing.{ProcessTaskResult, process}

pub record Tick : Type 0 where
  pub now : Time
  pub raises : Bool

-- `_heartbeat`: whether it set `claim_untrusted_event`, and the queue.
unfoldable pub heartbeat_loop : List Tick → Claim → Queue → Bool × Queue
heartbeat_loop [] c q = (false, q)
heartbeat_loop (tick ∷ ticks) c q =
    let (lease_owned, q') = heartbeat tick.now c q in
    let rest = heartbeat_loop ticks c q' in
    if tick.raises then (true, q) else (if lease_owned then rest else (true, q'))

-- The end of `_process_claim`, after the heartbeat thread has joined.
unfoldable pub settle : Time → Claim → Bool → Result ProcessTaskResult → Queue → Queue
settle now c untrusted (raised e) q = q
settle now c untrusted (ok result) q =
    if untrusted
    then q
    else (if result.should_retry then release c q else finish now c result.enqueue_task_ids q)

-- The times at which the parts of one `_process_claim` run.
pub record Schedule : Type 0 where
  pub started : Time
  pub ended : Time
  pub ticks : List Tick
  pub settled : Time

-- `_process_claim`
unfoldable pub process_claim : List TaskPlugin → Schedule → Claim → Store × Queue → Store × Queue
unfolding heartbeat_loop settle
process_claim registry times c (s, q) =
    let (outcome, s') = process registry c.task_execution_id times.started times.ended s in
    let (untrusted, q') = heartbeat_loop times.ticks c q in
    (s', settle times.settled c untrusted outcome q')

-- A round of the loop of `run`: the arguments of its `claim`, and the times of the work.
pub record Round : Type 0 where
  pub locked : Uuid → Bool
  pub now : Time
  pub token : Uuid
  pub times : Schedule

-- `run`, for the rounds until the stop event is set
unfoldable pub run : List TaskPlugin → ℕ → Uuid → List Round → Store × Queue → Store × Queue
unfolding process_claim
run registry lease_timeout worker [] (s, q) = (s, q)
run registry lease_timeout worker (round ∷ rounds) (s, q) =
    let (claimed, q') = claim round.locked lease_timeout round.now round.token worker q in
    run registry lease_timeout worker rounds
      (elim claimed [ none ↦ (s, q') | some c ↦ process_claim registry round.times c (s, q') ])
