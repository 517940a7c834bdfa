-- ===== src/System/Moves.antt =====
-- What one step of the queue, or one final transaction of a task, does to the ids in play.
use automation_platform.Base.{
  ℕ, ◌≡◌, ◌≢◌, ◌⊎◌, refl, Bool, true, ◌||◌, none, List, [], ◌∷◌, ◌++◌, arith, contains,
  Option-cases, Bool-cases, inl, inr,
}
use automation_platform.Domain.{Uuid, Time, TaskResult}
use automation_platform.Executions.{CompleteTaskExecutionRequest, complete_task, Store}
use automation_platform.Executions.Invariant.{Sound}
use automation_platform.Executions.Progress.{
  Ready, Progress, complete_task-Progress, retry_task-Progress,
}
use automation_platform.Executions.Offers.{complete_task-Ready}
use automation_platform.Queue.{Queue, Claim, entry, enqueue, claim, heartbeat, release, finish}
use automation_platform.Queue.Enqueue.{entry-enqueue}
use automation_platform.Queue.Lease.{claim_takes_earliest, claim_nothing, stale_claim_no_effect}
use automation_platform.Queue.Held.{heartbeat_renews, release_frees, finish_replaces}
use automation_platform.Queue.Validity.{IsValid}
use automation_platform.Queue.History.{claim_state}
use automation_platform.Processing.{finish_phase}

pub contains-append :
    (i : Uuid) (xs ys : List Uuid) → contains i (xs ++ ys) ≡ (contains i xs || contains i ys)
contains-append i [] ys = refl
contains-append i (x ∷ xs) ys = ground (arith, contains-append i xs ys)

-- No new id comes into the queue but those that were offered.
abbrev pub NoNew : List Uuid → Queue → Queue → Type 0
NoNew ids q q' = (i : Uuid) → entry i q' ≢ none → (entry i q ≢ none) ⊎ (contains i ids ≡ true)

pub enqueue-NoNew : (ids : List Uuid) (now : Time) (q : Queue) → NoNew ids q (enqueue ids now q)
enqueue-NoNew ids now q i h = elim (Bool-cases (contains i ids)) [
  | inl t ↦ inr t
  | inr t ↦ inl (ground (arith, entry-enqueue i ids now q))
]

pub claim-NoNew :
    (locked : Uuid → Bool) (lease_timeout : ℕ) (now : Time) (token worker : Uuid) (q : Queue)
    → IsValid q
    → NoNew [] q (claim locked lease_timeout now token worker q).1
claim-NoNew locked t now token worker q v i h =
    elim (Option-cases (claim locked t now token worker q).0) [
      | inl n ↦ inl (ground (arith, (claim_nothing locked t now token worker q n).0))
      | inr (c, s) ↦
          let (e, chosen, _, after) =
            claim_takes_earliest locked t now token worker q c v.unique s in
          inl (ground (arith, after i, chosen.present))
    ]

pub heartbeat-NoNew :
    (now : Time) (c : Claim) (q : Queue) → IsValid q → NoNew [] q (heartbeat now c q).1
heartbeat-NoNew now c q v i h = elim (claim_state c q) [
  | inl gone ↦ inl (ground (arith, (stale_claim_no_effect c q v.unique now [] gone).0))
  | inr (e, held) ↦ inl (ground (arith, (heartbeat_renews c q e v.unique held now i).1, held.0))
]

pub release-NoNew : (c : Claim) (q : Queue) → IsValid q → NoNew [] q (release c q)
release-NoNew c q v i h = elim (claim_state c q) [
  | inl gone ↦ inl (ground (arith, (stale_claim_no_effect c q v.unique 0 [] gone).1))
  | inr (e, held) ↦ inl (ground (arith, release_frees c q e v.unique held i, held.0))
]

pub finish-NoNew :
    (now : Time) (c : Claim) (ids : List Uuid) (q : Queue)
    → IsValid q
    → NoNew ids q (finish now c ids q)
finish-NoNew now c ids q v i h = elim (claim_state c q) [
  | inl gone ↦ inl (ground (arith, (stale_claim_no_effect c q v.unique now ids gone).2))
  | inr (e, held) ↦ elim (Bool-cases (contains i ids)) [
    | inl t ↦ inr t
    | inr t ↦ inl (ground (arith, finish_replaces c q e v.unique held now ids i))
  ]
]

pub finish_phase-Progress :
    (i : Uuid) (result : TaskResult) (now : Time) (s : Store)
    → Sound s
    → Progress s (finish_phase i result now s).1
unfolding finish_phase
finish_phase-Progress i result now s v = elim (Bool-cases result.succeeded) [
  | inl t ↦ rw t (
      complete_task-Progress
        (record { task_execution_id = i; output = result.output; completed_at = now }) s v)
  | inr t ↦ rw t (
      retry_task-Progress
        (record { task_execution_id = i; error_message = result.message; completed_at = now }) s v)
]

pub finish_phase-Ready :
    (i : Uuid) (result : TaskResult) (now : Time) (s : Store) (j : Uuid)
    → Sound s
    → contains j (finish_phase i result now s).0.enqueue_task_ids ≡ true
    → Ready (finish_phase i result now s).1 j
unfolding finish_phase
finish_phase-Ready i result now s j v c = elim (Bool-cases result.succeeded) [
  | inl t ↦
      let request : CompleteTaskExecutionRequest = record {
        task_execution_id = i;
        output = result.output;
        completed_at = now;
      } in
      let listed : contains j (complete_task request s).0.runnable_task_execution_ids ≡ true =
        ground arith in
      rw t (complete_task-Ready request s j v listed)
  | inr t ↦ ground arith
]
