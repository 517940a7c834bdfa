-- ===== src/Queue.antt =====
-- The PostgreSQL execution queue: src/automation_platform/execution_queue/postgres/queue.py, its
-- row model and the claims of execution_queue/claims.py. Each method is one transaction, so it is
-- a function on the table. `now`, the fresh token of `uuid4()` and the rows that other
-- transactions hold locked are arguments.
pub mod Enqueue
pub mod Lease
pub mod Held
pub mod Validity
pub mod History
use automation_platform.Base.{
  ℕ, ◌+◌, Bool, true, false, not, ◌&&◌, ◌||◌, Option, none, some, List, [], ◌∷◌, ◌++◌, leb, ◌==◌,
  if◌then◌else◌, filter_by,
}
use automation_platform.Domain.{Uuid, Time}
use automation_platform.Table.{find, update_where, delete_where, rowcount}

-- `QueueEntryModel`
pub record QueueEntry : Type 0 where
  pub task_execution_id : Uuid
  pub claim_token : Option Uuid
  pub claimed_by : Option Uuid
  pub queued_at : Time
  pub claimed_at : Option Time
  pub last_heartbeat : Option Time

pub record Claim : Type 0 where
  pub task_execution_id : Uuid
  pub claim_token : Uuid

abbrev pub Queue : Type 0
Queue = List QueueEntry

abbrev pub entry_key : QueueEntry → ℕ
entry_key e = e.task_execution_id

abbrev pub entry : Uuid → Queue → Option QueueEntry
entry = find entry_key

-- The row that an enqueue inserts.
abbrev pub new_entry : Uuid → Time → QueueEntry
new_entry task_id now = record {
  task_execution_id = task_id;
  claim_token = none;
  claimed_by = none;
  queued_at = now;
  claimed_at = none;
  last_heartbeat = none;
}

-- INSERT … ON CONFLICT DO NOTHING, for one row
abbrev pub insert_entry : Uuid → Time → Queue → Queue
insert_entry task_id now q = elim (entry task_id q) [
  | none ↦ q ++ new_entry task_id now ∷ []
  | some _ ↦ q
]

-- `_insert_queue_entries`
unfoldable pub insert_queue_entries : List Uuid → Time → Queue → Queue
insert_queue_entries [] now q = q
insert_queue_entries (task_id ∷ ids) now q =
    insert_queue_entries ids now (insert_entry task_id now q)

unfoldable pub enqueue : List Uuid → Time → Queue → Queue
unfolding insert_queue_entries
enqueue ids now q = insert_queue_entries ids now q

abbrev pub is_none : Option ℕ → Bool
is_none none = true
is_none (some _) = false

-- `last_heartbeat <= now - lease_timeout`, which is unknown, and so not true, at NULL
abbrev pub expired : ℕ → Time → Option Time → Bool
expired lease_timeout now none = false
expired lease_timeout now (some beat) = leb (beat + lease_timeout) now

abbrev pub is_available : ℕ → Time → QueueEntry → Bool
is_available lease_timeout now e =
    is_none e.claimed_by || expired lease_timeout now e.last_heartbeat

-- ORDER BY queued_at LIMIT 1
abbrev pub earliest : List QueueEntry → Option QueueEntry
earliest [] = none
earliest (x ∷ xs) = elim (earliest xs) [
  | none ↦ some x
  | some y ↦ if leb x.queued_at y.queued_at then some x else some y
]

-- The rows that `claim` may take: WHERE … FOR UPDATE SKIP LOCKED.
abbrev pub claimable : (Uuid → Bool) → ℕ → Time → Queue → List QueueEntry
claimable locked lease_timeout now =
    filter_by (λ e. is_available lease_timeout now e && not (locked e.task_execution_id))

abbrev pub leased : Time → Uuid → Uuid → QueueEntry → QueueEntry
leased now token worker e = record e {
  claim_token = some token;
  claimed_by = some worker;
  claimed_at = some now;
  last_heartbeat = some now;
}

unfoldable pub claim : (Uuid → Bool) → ℕ → Time → Uuid → Uuid → Queue → Option Claim × Queue
claim locked lease_timeout now token worker q =
    elim (earliest (claimable locked lease_timeout now q)) [
      | none ↦ (none, q)
      | some e ↦ (
        some (record { task_execution_id = e.task_execution_id; claim_token = token }),
        update_where (λ r. r.task_execution_id == e.task_execution_id) (leased now token worker) q,
      )
    ]

abbrev pub has_token : Uuid → QueueEntry → Bool
has_token token e = elim e.claim_token [ none ↦ false | some t ↦ t == token ]

-- The WHERE clause that `heartbeat`, `release` and `finish` share.
abbrev pub is_held : Claim → QueueEntry → Bool
is_held c e = e.task_execution_id == c.task_execution_id && has_token c.claim_token e

unfoldable pub heartbeat : Time → Claim → Queue → Bool × Queue
heartbeat now c q = (
  rowcount (is_held c) q == 1,
  update_where (is_held c) (λ e. record e { last_heartbeat = some now }) q,
)

abbrev pub unclaimed : QueueEntry → QueueEntry
unclaimed e = record e {
  claim_token = none;
  claimed_by = none;
  claimed_at = none;
  last_heartbeat = none;
}

unfoldable pub release : Claim → Queue → Queue
release c q = update_where (is_held c) unclaimed q

unfoldable pub finish : Time → Claim → List Uuid → Queue → Queue
unfolding insert_queue_entries
finish now c runnable q =
    let rest = delete_where (is_held c) q in
    if rowcount (is_held c) q == 1 then insert_queue_entries runnable now rest else rest
