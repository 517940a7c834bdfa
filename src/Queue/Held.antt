-- ===== src/Queue/Held.antt =====
-- What the holder of a lease does to the queue.
use automation_platform.Base.{
  ◌≡◌, refl, true, none, some, List, arith, ◌==◌, if◌then◌else◌, Option-cases, inl, inr, contains,
}
use automation_platform.Domain.{Uuid, Time}
use automation_platform.Table.{
  find-update, key-find, find-delete_ne, find-delete_self, delete_where, UniqueKeys, update_where,
}
use automation_platform.Queue.{
  QueueEntry, Queue, Claim, entry, entry_key, has_token, is_held, unclaimed, heartbeat, release,
  finish,
}
use automation_platform.Queue.Enqueue.{or_new, entry-insert_queue_entries}
use automation_platform.Queue.Lease.{Holds, held_rows}

module _ (c : Claim) (q : Queue) (e : QueueEntry) (u : UniqueKeys entry_key q)
    (h : Holds c q e) where
  entry-update_held :
      (f : QueueEntry → QueueEntry)
      → ((r : QueueEntry) → (f r).task_execution_id ≡ r.task_execution_id)
      → (j : Uuid)
      → entry j (update_where (is_held c) f q)
        ≡ (if j == c.task_execution_id then some (f e) else entry j q)
  entry-update_held f same j =
      let row = find-update entry_key (is_held c) f same j q in
      elim (Option-cases (entry j q)) [
        | inl n ↦ ground (arith, row, h.0, h.1)
        | inr (r, s) ↦ ground (arith, row, h.0, h.1, key-find entry_key j q r s)
      ]

  -- The holder of a lease renews it: `heartbeat` answers true and sets the time of that row alone.
  pub heartbeat_renews :
      (now : Time) (j : Uuid)
      → ((heartbeat now c q).0 ≡ true)
        × (entry j (heartbeat now c q).1 ≡ (
            if j == c.task_execution_id
            then some (record e { last_heartbeat = some now })
            else entry j q))
  unfolding heartbeat
  heartbeat_renews now j = (
    ground (arith, held_rows c q u, h.0, h.1),
    entry-update_held (λ r. record r { last_heartbeat = some now }) (λ _. refl) j,
  )

  -- A release makes the row free again, at its place in the order, and no other row changes.
  pub release_frees :
      (j : Uuid)
      → entry j (release c q) ≡ (if j == c.task_execution_id then some (unclaimed e) else entry j q)
  unfolding release
  release_frees j = entry-update_held unclaimed (λ _. refl) j

  entry-delete_held :
      (j : Uuid)
      → entry j (delete_where (is_held c) q)
        ≡ (if j == c.task_execution_id then none else entry j q)
  entry-delete_held j = ground (
    arith,
    h.0,
    h.1,
    find-delete_self entry_key c.task_execution_id (has_token c.claim_token) q e u h.0,
    find-delete_ne entry_key j c.task_execution_id (has_token c.claim_token) q,
  )

  -- A finish by the holder removes the task and adds a free row for each runnable task that has
  -- none left, in one step.
  pub finish_replaces :
      (now : Time) (runnable : List Uuid) (j : Uuid)
      → let kept = if j == c.task_execution_id then none else entry j q in
        entry j (finish now c runnable q)
        ≡ (if contains j runnable then or_new j now kept else kept)
  unfolding finish
  finish_replaces now runnable j = ground (
    arith,
    held_rows c q u,
    h.0,
    h.1,
    entry-insert_queue_entries j runnable now (delete_where (is_held c) q),
    entry-delete_held j,
  )
