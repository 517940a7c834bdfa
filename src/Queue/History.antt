-- ===== src/Queue/History.antt =====
-- The queue over time: any sequence of the calls that workers, schedulers and reconcilers make.
use native.Mathlib.Decide.{ℕ_discrete}
use automation_platform.Base.{
  ℕ, ◌≡◌, ◌≢◌, ◌⊎◌, Bool, false, some, List, [], ◌∷◌, arith, Option-cases, inl, inr,
}
use automation_platform.Domain.{Uuid, Time}
use automation_platform.Queue.{
  QueueEntry, Queue, Claim, entry, enqueue, claim, heartbeat, release, finish,
}
use automation_platform.Queue.Enqueue.{entry-enqueue}
use automation_platform.Queue.Lease.{
  IsStale, Holds, claim_takes_earliest, claim_nothing, stale_claim_no_effect,
}
use automation_platform.Queue.Held.{heartbeat_renews, release_frees, finish_replaces}
use automation_platform.Queue.Validity.{IsValid, operations-IsValid}

-- A call of the queue.
pub data Call : Type 0 where
  enqueue_call : List Uuid → Call
  claim_call : (Uuid → Bool) → Uuid → Call
  heartbeat_call release_call : Claim → Call
  finish_call : Claim → List Uuid → Call

-- A call, the time at which it runs and the value that `uuid4()` would give it.
pub record Event : Type 0 where
  pub now : Time
  pub fresh : Uuid
  pub call : Call

dispatch : ℕ → Time → Uuid → Call → Queue → Queue
dispatch lease_timeout now fresh (enqueue_call ids) q = enqueue ids now q
dispatch lease_timeout now fresh (claim_call locked worker) q =
    (claim locked lease_timeout now fresh worker q).1
dispatch lease_timeout now fresh (heartbeat_call c) q = (heartbeat now c q).1
dispatch lease_timeout now fresh (release_call c) q = release c q
dispatch lease_timeout now fresh (finish_call c ids) q = finish now c ids q

unfoldable pub step : ℕ → Event → Queue → Queue
unfolding dispatch
step lease_timeout e q = dispatch lease_timeout e.now e.fresh e.call q

unfoldable pub run : ℕ → List Event → Queue → Queue
run lease_timeout [] q = q
run lease_timeout (e ∷ es) q = run lease_timeout es (step lease_timeout e q)

-- No event of the history is given the token.
abbrev pub NeverReissued : Uuid → List Event → Type 0
NeverReissued token [] = Unit
NeverReissued token (e ∷ es) = (e.fresh ≢ token) × NeverReissued token es

pub claim_state : (c : Claim) (q : Queue) → IsStale c q ⊎ ((e : QueueEntry) × Holds c q e)
claim_state c q = elim (Option-cases (entry c.task_execution_id q)) [
  | inl n ↦ inl (ground arith)
  | inr (e, s) ↦ elim (Option-cases e.claim_token) [
    | inl n ↦ inl (ground arith)
    | inr (t, p) ↦ state e t s p
  ]
]
  where
    state :
        (e : QueueEntry) (t : Uuid)
        → entry c.task_execution_id q ≡ some e
        → e.claim_token ≡ some t
        → IsStale c q ⊎ ((e : QueueEntry) × Holds c q e)
    state e t s p = elim (ℕ_discrete t c.claim_token) [
      | yes m ↦ inr (e, (s, ground arith))
      | no m ↦ inl (ground arith)
    ]

-- Stands where a call has no claim.
abbrev pub no_claim : Claim
no_claim = record { task_execution_id = 0; claim_token = 0 }

dispatch-IsValid :
    (lease_timeout : ℕ) (now : Time) (fresh : Uuid) (x : Call) (q : Queue)
    → IsValid q
    → IsValid (dispatch lease_timeout now fresh x q)
unfolding dispatch
dispatch-IsValid t now fresh (enqueue_call ids) q v =
    (operations-IsValid q ids now (λ _. false) t fresh fresh no_claim v).0
dispatch-IsValid t now fresh (claim_call locked worker) q v =
    (operations-IsValid q [] now locked t fresh worker no_claim v).1
dispatch-IsValid t now fresh (heartbeat_call c) q v =
    (operations-IsValid q [] now (λ _. false) t fresh fresh c v).2
dispatch-IsValid t now fresh (release_call c) q v =
    (operations-IsValid q [] now (λ _. false) t fresh fresh c v).3
dispatch-IsValid t now fresh (finish_call c ids) q v =
    (operations-IsValid q ids now (λ _. false) t fresh fresh c v).4

-- A call that is given another token leaves a stale claim stale.
dispatch-IsStale :
    (lease_timeout : ℕ) (now : Time) (fresh : Uuid) (x : Call) (c : Claim) (q : Queue)
    → IsValid q
    → fresh ≢ c.claim_token
    → IsStale c q
    → IsStale c (dispatch lease_timeout now fresh x q)
unfolding dispatch
dispatch-IsStale t now fresh (enqueue_call ids) c q v ne s =
    ground (arith, entry-enqueue c.task_execution_id ids now q, s)
dispatch-IsStale t now fresh (claim_call locked worker) c q v ne s =
    elim (Option-cases (claim locked t now fresh worker q).0) [
      | inl n ↦ rw ((claim_nothing locked t now fresh worker q n).0) s
      | inr (d, p) ↦
          let (e, _, _, after) = claim_takes_earliest locked t now fresh worker q d v.unique p in
          ground (arith, after c.task_execution_id, s)
    ]
dispatch-IsStale t now fresh (heartbeat_call d) c q v ne s = elim (claim_state d q) [
  | inl gone ↦ ground (arith, (stale_claim_no_effect d q v.unique now [] gone).0, s)
  | inr (e, h) ↦
      ground (arith, (heartbeat_renews d q e v.unique h now c.task_execution_id).1, s, h.0)
]
dispatch-IsStale t now fresh (release_call d) c q v ne s = elim (claim_state d q) [
  | inl gone ↦ rw ((stale_claim_no_effect d q v.unique now [] gone).1) s
  | inr (e, h) ↦ ground (arith, release_frees d q e v.unique h c.task_execution_id, s)
]
dispatch-IsStale t now fresh (finish_call d ids) c q v ne s = elim (claim_state d q) [
  | inl gone ↦ rw ((stale_claim_no_effect d q v.unique now ids gone).2) s
  | inr (e, h) ↦ ground (arith, finish_replaces d q e v.unique h now ids c.task_execution_id, s)
]

-- Every history keeps the queue valid.
pub run-IsValid :
    (lease_timeout : ℕ) (es : List Event) (q : Queue) → IsValid q → IsValid (run lease_timeout es q)
unfolding run step
run-IsValid t [] q v = v
run-IsValid t (e ∷ es) q v =
    run-IsValid t es (dispatch t e.now e.fresh e.call q)
      (dispatch-IsValid t e.now e.fresh e.call q v)

run-IsStale :
    (lease_timeout : ℕ) (es : List Event) (c : Claim) (q : Queue)
    → IsValid q
    → NeverReissued c.claim_token es
    → IsStale c q
    → IsStale c (run lease_timeout es q)
unfolding run step
run-IsStale t [] c q v f s = s
run-IsStale t (e ∷ es) c q v f s =
    run-IsStale t es c (dispatch t e.now e.fresh e.call q)
      (dispatch-IsValid t e.now e.fresh e.call q v) f.1
      (dispatch-IsStale t e.now e.fresh e.call c q v f.0 s)

-- Once another worker has reclaimed the task, the old claim is dead for good: after any further
-- calls, as long as its token is not issued again, its heartbeat is refused and its release and
-- finish change nothing.
pub reclaimed_claim_is_dead :
    (locked : Uuid → Bool) (lease_timeout : ℕ) (now later : Time) (token worker : Uuid)
    (runnable : List Uuid) (old new : Claim) (es : List Event) (q : Queue)
    → IsValid q
    → (claim locked lease_timeout now token worker q).0 ≡ some new
    → old.task_execution_id ≡ new.task_execution_id
    → token ≢ old.claim_token
    → NeverReissued old.claim_token es
    → let after = run lease_timeout es (claim locked lease_timeout now token worker q).1 in
      (heartbeat later old after ≡ (false, after))
      × (release old after ≡ after)
      × (finish later old runnable after ≡ after)
reclaimed_claim_is_dead locked t now later token worker runnable old new es q v taken same ne f =
    let q' = (claim locked t now token worker q).1 in
    let (e, _, is_new, after) =
      claim_takes_earliest locked t now token worker q new v.unique taken in
    let v' : IsValid q' = (operations-IsValid q [] now locked t token worker old v).1 in
    let stale : IsStale old q' = ground (arith, after old.task_execution_id, same, is_new) in
    stale_claim_no_effect old (run t es q') (run-IsValid t es q' v').unique later runnable
      (run-IsStale t es old q' v' f stale)
