-- ===== src/System/Safety.antt =====
-- No interleaving starts a task before all its parents are completed.
use mathlib.Core.Bool.{false≢true}
use automation_platform.Base.{
  ℕ, ◌≡◌, ◌≢◌, ◌⊎◌, Bool, true, false, Option, none, List, [], arith, contains, Option-cases,
  Bool-cases, inl, inr,
}
use automation_platform.Domain.{Uuid, Time}
use automation_platform.Errors.{ok}
use automation_platform.Executions.{find_runnable_ids, StartTaskExecutionResult}
use automation_platform.Executions.Invariant.{Sound}
use automation_platform.Executions.Progress.{Ready, Ready-Progress}
use automation_platform.Executions.Offers.{find_runnable_ids-Ready}
use automation_platform.Queue.{Queue, entry, enqueue, claim, heartbeat, release, finish}
use automation_platform.Queue.Lease.{claim_takes_earliest}
use automation_platform.Queue.Validity.{IsValid, operations-IsValid}
use automation_platform.Queue.History.{no_claim}
use automation_platform.Processing.{start_phase, finish_phase}
use automation_platform.Processing.Safety.{
  start_phase-Sound, start_phase-Progress, start_phase-Ready, finish_phase-Sound,
}
use automation_platform.System.Moves.{
  contains-append, NoNew, enqueue-NoNew, claim-NoNew, heartbeat-NoNew, release-NoNew, finish-NoNew,
  finish_phase-Progress, finish_phase-Ready,
}
use automation_platform.Launch.Start.{start-Ready}
use automation_platform.Launch.Safety.{prepare_start-Sound, prepare_start-Progress}
use automation_platform.System.{
  Platform, claimed_ids, Offered, Step, discover, offer, take, beat, give_back, conclude, begin,
  end_task, launch, Reach, here, next,
}

pub record Safe (p : Platform) : Type 0 where
  pub sound : Sound p.store
  pub valid : IsValid p.queue
  pub queued : (i : Uuid) → entry i p.queue ≢ none → Ready p.store i
  pub claims : (i : Uuid) → contains i p.claimed ≡ true → Ready p.store i
  pub offers : (i : Uuid) → contains i p.offered ≡ true → Ready p.store i

-- A step of the queue alone.
queue_step :
    (p : Platform) (q : Queue) (ids : List Uuid)
    → Safe p
    → IsValid q
    → NoNew ids p.queue q
    → Offered ids p
    → Safe (record p { queue = q })
queue_step p q ids safe v new known = record {
  sound = safe.sound;
  valid = v;
  queued =
      λ i h. elim (new i h) [ inl old ↦ safe.queued i old | inr c ↦ safe.offers i (known i c) ];
  claims = safe.claims;
  offers = safe.offers;
}

nil-Offered : (p : Platform) → Offered [] p
nil-Offered p i h = absurd (false≢true h)

claimed_was_queued :
    (locked : Uuid → Bool) (lease_timeout : ℕ) (now : Time) (token worker : Uuid) (q : Queue)
    (ids : List Uuid) (i : Uuid)
    → IsValid q
    → contains i (claimed_ids (claim locked lease_timeout now token worker q).0 ids) ≡ true
    → (entry i q ≢ none) ⊎ (contains i ids ≡ true)
claimed_was_queued locked t now token worker q ids i v h =
    elim (Option-cases (claim locked t now token worker q).0) [
      | inl n ↦ inr (ground arith)
      | inr (c, s) ↦
          let (e, chosen, same, _) =
            claim_takes_earliest locked t now token worker q c v.unique s in
          ground (arith, same, chosen.present)
    ]

-- Every step of every process keeps the platform safe.
pub Step-Safe : (lease_timeout : ℕ) {p q : Platform} → Step lease_timeout p q → Safe p → Safe q
Step-Safe t (discover p) safe = record {
  sound = safe.sound;
  valid = safe.valid;
  queued = safe.queued;
  claims = safe.claims;
  offers = λ i h. elim (Bool-cases (contains i (find_runnable_ids p.store))) [
    | inl c ↦ find_runnable_ids-Ready p.store i safe.sound c
    | inr c ↦
        safe.offers i (ground (arith, contains-append i (find_runnable_ids p.store) p.offered))
  ];
}
Step-Safe t (offer p ids now known) safe =
    queue_step p (enqueue ids now p.queue) ids safe
      (operations-IsValid p.queue ids now (λ _. false) t 0 0 no_claim safe.valid).0
      (enqueue-NoNew ids now p.queue) known
Step-Safe t (take p locked now token worker) safe =
    let q' = (claim locked t now token worker p.queue).1 in
    let moved =
      queue_step p q' [] safe
        (operations-IsValid p.queue [] now locked t token worker no_claim safe.valid).1
        (claim-NoNew locked t now token worker p.queue safe.valid) (nil-Offered p) in
    record {
      sound = safe.sound;
      valid = moved.valid;
      queued = moved.queued;
      claims = λ i h.
          elim (claimed_was_queued locked t now token worker p.queue p.claimed i safe.valid h) [
            | inl e ↦ safe.queued i e
            | inr c ↦ safe.claims i c
          ];
      offers = safe.offers;
    }
Step-Safe t (beat p now c) safe =
    queue_step p (heartbeat now c p.queue).1 [] safe
      (operations-IsValid p.queue [] now (λ _. false) t 0 0 c safe.valid).2
      (heartbeat-NoNew now c p.queue safe.valid) (nil-Offered p)
Step-Safe t (give_back p c) safe =
    queue_step p (release c p.queue) [] safe
      (operations-IsValid p.queue [] 0 (λ _. false) t 0 0 c safe.valid).3
      (release-NoNew c p.queue safe.valid) (nil-Offered p)
Step-Safe t (conclude p now c ids known) safe =
    queue_step p (finish now c ids p.queue) ids safe
      (operations-IsValid p.queue ids now (λ _. false) t 0 0 c safe.valid).4
      (finish-NoNew now c ids p.queue safe.valid) known
Step-Safe t (begin p i now mine) safe =
    let s' = (start_phase i now p.store).1 in
    let on = start_phase-Progress i now p.store safe.sound (safe.claims i mine) in
    record {
      sound = start_phase-Sound i now p.store safe.sound (safe.claims i mine);
      valid = safe.valid;
      queued = λ j h. Ready-Progress p.store s' j on (safe.queued j h);
      claims = λ j h. Ready-Progress p.store s' j on (safe.claims j h);
      offers = λ j h. Ready-Progress p.store s' j on (safe.offers j h);
    }
Step-Safe t (end_task p i result now mine) safe =
    let s' = (finish_phase i result now p.store).1 in
    let ids = (finish_phase i result now p.store).0.enqueue_task_ids in
    let on = finish_phase-Progress i result now p.store safe.sound in
    record {
      sound = finish_phase-Sound i result now p.store safe.sound;
      valid = safe.valid;
      queued = λ j h. Ready-Progress p.store s' j on (safe.queued j h);
      claims = λ j h. Ready-Progress p.store s' j on (safe.claims j h);
      offers = λ j h. elim (Bool-cases (contains j ids)) [
        | inl c ↦ finish_phase-Ready i result now p.store j safe.sound c
        | inr c ↦
            Ready-Progress p.store s' j on
              (safe.offers j (ground (arith, contains-append j ids p.offered)))
      ];
    }
Step-Safe t (launch p w fresh now definition store roots i new able started) safe =
    let on = prepare_start-Progress w fresh now definition p.store store roots i started in
    record {
      sound =
          prepare_start-Sound w fresh now definition p.store store roots i started safe.sound new
            able;
      valid = safe.valid;
      queued = λ j h. Ready-Progress p.store store j on (safe.queued j h);
      claims = λ j h. Ready-Progress p.store store j on (safe.claims j h);
      offers = λ j h. elim (Bool-cases (contains j roots)) [
        | inl c ↦
            start-Ready w fresh now definition p.store store roots i started safe.sound.unique j c
        | inr c ↦
            Ready-Progress p.store store j on
              (safe.offers j (ground (arith, contains-append j roots p.offered)))
      ];
    }

-- In every state that the platform reaches, in any interleaving, the tables are sound, every
-- queued task is ready, and so is every task that a worker was handed or that was offered.
pub Reach-Safe : (lease_timeout : ℕ) {p q : Platform} → Safe p → Reach lease_timeout p q → Safe q
Reach-Safe t safe here = safe
Reach-Safe t safe (next r st) = Step-Safe t st (Reach-Safe t safe r)

-- A worker that was ever handed a task can, at any later time and whatever the other processes
-- did in between, run its first transaction without an error for a missing parent output.
pub claimed_task_starts :
    (lease_timeout : ℕ) {p q : Platform} (i : Uuid) (now : Time)
    → Safe p
    → Reach lease_timeout p q
    → contains i q.claimed ≡ true
    → (x : Option StartTaskExecutionResult) × ((start_phase i now q.store).0 ≡ ok x)
claimed_task_starts t {q} i now safe r mine =
    let now_safe = Reach-Safe t safe r in
    (start_phase-Ready i now q.store now_safe.sound (now_safe.claims i mine)).0
