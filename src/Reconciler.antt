-- ===== src/Reconciler.antt =====
-- The reconciler: src/automation_platform/runtime/reconciler/reconciler.py.
use automation_platform.Base.{
  ◌≡◌, ◌≢◌, true, ◌&&◌, none, some, List, [], ◌∷◌, map, arith, ◌==◌, if◌then◌else◌, contains,
  filter_by, is_empty, inl, inr,
}
use automation_platform.Domain.{Uuid, Time, TaskStatus}
use automation_platform.Table.{In, In-filter_by_of}
use automation_platform.Executions.{Store, TaskRow, task_key, is_pending, find_runnable_ids}
use automation_platform.Queue.{Queue, QueueEntry, entry, enqueue}
use automation_platform.Queue.Enqueue.{entry-enqueue}

-- `_reconcile`: the query in its own transaction, then the enqueue.
unfoldable pub reconcile : Time → Store → Queue → Queue
reconcile now s q = let ids = find_runnable_ids s in if is_empty ids then q else enqueue ids now q

contains-map :
    (r : TaskRow) (rows : List TaskRow) → In r rows → contains r.id (map task_key rows) ≡ true
contains-map r [] i = absurd i
contains-map r (x ∷ rows) (inl e) = ground arith
contains-map r (x ∷ rows) (inr i) = ground (arith, contains-map r rows i)

-- After a cycle every pending task without unmet dependencies is in the queue, and no entry that
-- was there before has changed.
pub reconcile_repairs :
    (now : Time) (s : Store) (q : Queue) (r : TaskRow)
    → In r s.tasks
    → r.status ≡ TaskStatus.pending
    → r.remaining_dependencies ≡ 0
    → (entry r.id (reconcile now s q) ≢ none)
      × ((j : Uuid) (e : QueueEntry) → entry j q ≡ some e → entry j (reconcile now s q) ≡ some e)
unfolding reconcile find_runnable_ids
reconcile_repairs now s q r i p z =
    let runnable =
      filter_by (λ (r : TaskRow). is_pending r.status && r.remaining_dependencies == 0) s.tasks in
    let listed = contains-map r runnable (In-filter_by_of _ r s.tasks i (ground arith)) in
    (
      ground (arith, listed, entry-enqueue r.id (map task_key runnable) now q),
      λ j e h. ground (arith, h, entry-enqueue j (map task_key runnable) now q),
    )
