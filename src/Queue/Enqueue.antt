-- ===== src/Queue/Enqueue.antt =====
-- What an enqueue does to each row of the queue.
use automation_platform.Base.{
  ◌≡◌, refl, Option, none, some, List, [], ◌∷◌, arith, ◌==◌, if◌then◌else◌, contains, ◌≢◌, true, ap,
  ◌∙◌,
}
use automation_platform.Domain.{Uuid, Time}
use automation_platform.Table.{find-append, UniqueKeys, append-UniqueKeys}
use automation_platform.Queue.{
  QueueEntry, Queue, entry, entry_key, new_entry, insert_entry, insert_queue_entries, enqueue,
}

-- The row of `j` after a row for `j` was offered, if `wanted`.
abbrev pub or_new : Uuid → Time → Option QueueEntry → Option QueueEntry
or_new j now none = some (new_entry j now)
or_new j now (some e) = some e

pub entry-insert_entry :
    (j i : Uuid) (now : Time) (q : Queue)
    → entry j (insert_entry i now q) ≡ (if j == i then or_new j now (entry j q) else entry j q)
entry-insert_entry j i now q = ground (arith, find-append entry_key j q (new_entry i now))

pub insert_entry-UniqueKeys :
    (i : Uuid) (now : Time) (q : Queue)
    → UniqueKeys entry_key q
    → UniqueKeys entry_key (insert_entry i now q)
insert_entry-UniqueKeys i now q u =
    ground (arith, append-UniqueKeys entry_key q (new_entry i now) u)

pub insert_queue_entries-UniqueKeys :
    (ids : List Uuid) (now : Time) (q : Queue)
    → UniqueKeys entry_key q
    → UniqueKeys entry_key (insert_queue_entries ids now q)
unfolding insert_queue_entries
insert_queue_entries-UniqueKeys [] now q u = u
insert_queue_entries-UniqueKeys (i ∷ ids) now q u =
    insert_queue_entries-UniqueKeys ids now (insert_entry i now q)
      (insert_entry-UniqueKeys i now q u)

pub entry-insert_queue_entries :
    (j : Uuid) (ids : List Uuid) (now : Time) (q : Queue)
    → entry j (insert_queue_entries ids now q)
      ≡ (if contains j ids then or_new j now (entry j q) else entry j q)
unfolding insert_queue_entries
entry-insert_queue_entries j [] now q = refl
entry-insert_queue_entries j (i ∷ ids) now q = ground (
  arith,
  entry-insert_queue_entries j ids now (insert_entry i now q),
  entry-insert_entry j i now q,
)

-- An enqueue adds a free row for each of its tasks that has none, and leaves all other rows alone.
pub entry-enqueue :
    (j : Uuid) (ids : List Uuid) (now : Time) (q : Queue)
    → entry j (enqueue ids now q) ≡ (if contains j ids then or_new j now (entry j q) else entry j q)
unfolding enqueue
entry-enqueue j ids now q = entry-insert_queue_entries j ids now q

-- Each of the tasks has a row.
abbrev pub HasEntries : List Uuid → Queue → Type 0
HasEntries [] q = Unit
HasEntries (i ∷ ids) q = (entry i q ≢ none) × HasEntries ids q

insert_entry_present :
    (i : Uuid) (now : Time) (q : Queue) → entry i q ≢ none → insert_entry i now q ≡ q
insert_entry_present i now q h = ground arith

insert_queue_entries_present :
    (ids : List Uuid) (now : Time) (q : Queue)
    → HasEntries ids q
    → insert_queue_entries ids now q ≡ q
unfolding insert_queue_entries
insert_queue_entries_present [] now q h = refl
insert_queue_entries_present (i ∷ ids) now q h =
    ap (insert_queue_entries ids now) (insert_entry_present i now q h.0)
    ∙ insert_queue_entries_present ids now q h.1

insert_queue_entries-HasEntries :
    (ids all : List Uuid) (now : Time) (q : Queue)
    → ((i : Uuid) → contains i ids ≡ true → contains i all ≡ true)
    → HasEntries ids (insert_queue_entries all now q)
insert_queue_entries-HasEntries [] all now q sub = tt
insert_queue_entries-HasEntries (i ∷ ids) all now q sub = (
  ground (arith, sub i, entry-insert_queue_entries i all now q),
  insert_queue_entries-HasEntries ids all now q (λ j h. sub j (ground arith)),
)

-- Enqueueing the same tasks again, at any time, changes nothing.
pub enqueue_idempotent :
    (ids : List Uuid) (now later : Time) (q : Queue)
    → enqueue ids later (enqueue ids now q) ≡ enqueue ids now q
unfolding enqueue
enqueue_idempotent ids now later q =
    insert_queue_entries_present ids later (insert_queue_entries ids now q)
      (insert_queue_entries-HasEntries ids ids now q (λ _ h. h))
