-- ===== src/Worker/Stale.antt =====
-- A worker that has lost its claim.
use automation_platform.Base.{ap, ◌∙◌, ◌≡◌, refl, Bool, List, [], ◌∷◌, arith}
use automation_platform.Domain.{Time}
use automation_platform.Errors.{Result, ok, raised}
use automation_platform.Plugins.{TaskPlugin}
use automation_platform.Executions.{Store}
use automation_platform.Processing.{ProcessTaskResult, process}
use automation_platform.Table.{UniqueKeys}
use automation_platform.Queue.{Queue, Claim, entry_key}
use automation_platform.Queue.Lease.{IsStale, stale_claim_no_effect}
use automation_platform.Worker.{Tick, Schedule, heartbeat_loop, settle, process_claim}

heartbeat_loop_stale :
    (ticks : List Tick) (c : Claim) (q : Queue)
    → UniqueKeys entry_key q
    → IsStale c q
    → (heartbeat_loop ticks c q).1 ≡ q
unfolding heartbeat_loop
heartbeat_loop_stale [] c q u stale = refl
heartbeat_loop_stale (tick ∷ ticks) c q u stale = ground (
  arith,
  (stale_claim_no_effect c q u tick.now [] stale).0,
  heartbeat_loop_stale ticks c q u stale,
)

settle_stale :
    (now : Time) (c : Claim) (untrusted : Bool) (outcome : Result ProcessTaskResult) (q : Queue)
    → UniqueKeys entry_key q
    → IsStale c q
    → settle now c untrusted outcome q ≡ q
unfolding settle
settle_stale now c untrusted (raised e) q u stale = refl
settle_stale now c untrusted (ok result) q u stale =
    ground (arith, stale_claim_no_effect c q u now result.enqueue_task_ids stale)

-- A worker whose claim was lost before it began leaves the queue exactly as it is, whatever its
-- heartbeats, the plugin and the outcome of the processing are.
pub stale_worker_harmless :
    (registry : List TaskPlugin) (times : Schedule) (c : Claim) (s : Store) (q : Queue)
    → UniqueKeys entry_key q
    → IsStale c q
    → (process_claim registry times c (s, q)).1 ≡ q
unfolding process_claim
stale_worker_harmless registry times c s q u stale =
    let same = heartbeat_loop_stale times.ticks c q u stale in
    let outcome = (process registry c.task_execution_id times.started times.ended s).0 in
    let untrusted = (heartbeat_loop times.ticks c q).0 in
    ap (settle times.settled c untrusted outcome) same
    ∙ settle_stale times.settled c untrusted outcome q u stale
