-- ===== src/Examples/Queue.antt =====
-- The theorems about the queue at the sample queue.
use automation_platform.Base.{
  ◌≡◌, refl, Bool, false, ◌==◌, some, List, [], ◌∷◌, arith, if◌then◌else◌,
}
use automation_platform.Domain.{Uuid}
use automation_platform.Queue.{
  QueueEntry, Claim, entry, new_entry, enqueue, claim, heartbeat, release, finish, leased,
}
use automation_platform.Queue.Enqueue.{entry-enqueue, enqueue_idempotent}
use automation_platform.Queue.Lease.{
  Chosen, claim_takes_earliest, live_lease-claim, stale_claim_no_effect,
}
use automation_platform.Queue.Held.{finish_replaces}
use automation_platform.Queue.Validity.{IsValid, operations-IsValid}
use automation_platform.Queue.History.{
  Event, release_call, enqueue_call, run, reclaimed_claim_is_dead,
}
use automation_platform.Examples.Sample.{
  sample_queue, sample_queue-IsValid, first_entry, first_claim, lost_claim,
}

-- No row is locked.
abbrev unlocked : Uuid → Bool
unlocked _ = false

abbrev new_claim : Claim
new_claim = record { task_execution_id = 1; claim_token = 51 }

-- At time 40 the lease of 30 has run out.
claim_expired : (claim unlocked 30 40 51 8 sample_queue).0 ≡ some new_claim
unfolding claim
claim_expired = refl

claim_takes_earliest_example :
    (e : QueueEntry) × Chosen unlocked 30 40 sample_queue e
    × (new_claim ≡ record { task_execution_id = e.task_execution_id; claim_token = 51 })
    × ((j : Uuid)
        → entry j (claim unlocked 30 40 51 8 sample_queue).1
          ≡ (if j == e.task_execution_id then some (leased 40 51 8 e) else entry j sample_queue))
claim_takes_earliest_example =
    claim_takes_earliest unlocked 30 40 51 8 sample_queue new_claim sample_queue-IsValid.unique
      claim_expired

live_lease-claim_example : entry 1 (claim unlocked 30 20 51 8 sample_queue).1 ≡ some first_entry
live_lease-claim_example =
    live_lease-claim unlocked 30 20 51 8 sample_queue 1 7 5 first_entry sample_queue-IsValid.unique
      refl refl refl (omega arith)

stale_claim_no_effect_example :
    (heartbeat 20 lost_claim sample_queue ≡ (false, sample_queue))
    × (release lost_claim sample_queue ≡ sample_queue)
    × (finish 20 lost_claim (2 ∷ []) sample_queue ≡ sample_queue)
stale_claim_no_effect_example =
    stale_claim_no_effect lost_claim sample_queue sample_queue-IsValid.unique 20 (2 ∷ []) refl

finish_replaces_example :
    entry 2 (finish 20 first_claim (2 ∷ []) sample_queue) ≡ some (new_entry 2 20)
finish_replaces_example =
    finish_replaces first_claim sample_queue first_entry sample_queue-IsValid.unique (refl, refl) 20
      (2 ∷ []) 2

operations-IsValid_example :
    IsValid (enqueue (2 ∷ []) 9 sample_queue)
    × IsValid (claim unlocked 30 9 51 8 sample_queue).1
    × IsValid (heartbeat 9 first_claim sample_queue).1
    × IsValid (release first_claim sample_queue)
    × IsValid (finish 9 first_claim (2 ∷ []) sample_queue)
operations-IsValid_example =
    operations-IsValid sample_queue (2 ∷ []) 9 unlocked 30 51 8 first_claim sample_queue-IsValid

abbrev later_events : List Event
later_events =
    record { now = 41; fresh = 60; call = release_call first_claim }
    ∷ record { now = 42; fresh = 61; call = enqueue_call (1 ∷ 2 ∷ []) }
    ∷ []

reclaimed_claim_is_dead_example :
    let after = run 30 later_events (claim unlocked 30 40 51 8 sample_queue).1 in
    (heartbeat 50 first_claim after ≡ (false, after))
    × (release first_claim after ≡ after)
    × (finish 50 first_claim (2 ∷ []) after ≡ after)
reclaimed_claim_is_dead_example =
    reclaimed_claim_is_dead unlocked 30 40 50 51 8 (2 ∷ []) first_claim new_claim later_events
      sample_queue sample_queue-IsValid claim_expired refl (λ e. absurd (omega arith))
      (λ e. absurd (omega arith), (λ e. absurd (omega arith), tt))

entry-enqueue_example : entry 2 (enqueue (2 ∷ []) 9 sample_queue) ≡ some (new_entry 2 9)
entry-enqueue_example = entry-enqueue 2 (2 ∷ []) 9 sample_queue

enqueue_idempotent_example :
    enqueue (2 ∷ []) 10 (enqueue (2 ∷ []) 9 sample_queue) ≡ enqueue (2 ∷ []) 9 sample_queue
enqueue_idempotent_example = enqueue_idempotent (2 ∷ []) 9 10 sample_queue
