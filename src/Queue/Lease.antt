-- ===== src/Queue/Lease.antt =====
-- What `claim`, `heartbeat`, `release` and `finish` do to the rows of the queue.
use automation_platform.Base.{
  ◌≤◌, ◌<◌, ◌+◌, ℕ, ◌≡◌, refl, Bool, true, false, not, ◌&&◌, ◌∙◌, ap, none, some, List, [], ◌∷◌,
  arith, ◌==◌, if◌then◌else◌, Option-cases, Bool-cases, inl, inr, filter_by,
}
use automation_platform.Domain.{Uuid, Time}
use automation_platform.Table.{
  In, In-filter_by, In-filter_by_of, accept, find-update, key-find, find_of_In, filter_by_key,
  update_where_none, delete_where_none, UniqueKeys, of_option, update_where,
}
use automation_platform.Queue.{
  QueueEntry, Queue, Claim, entry, entry_key, earliest, claimable, is_available, leased, has_token,
  is_held, unclaimed, claim, heartbeat, release, finish,
}

earliest-In : (xs : List QueueEntry) (e : QueueEntry) → earliest xs ≡ some e → In e xs
earliest-In [] e h = cc
earliest-In (x ∷ xs) e h = elim (Option-cases (earliest xs)) [
  | inl n ↦ ground arith
  | inr (y, s) ↦ ground (arith, earliest-In xs y s)
]

earliest-none : (xs : List QueueEntry) (x : QueueEntry) → earliest xs ≡ none → ¬ In x xs
earliest-none [] x h i = i
earliest-none (y ∷ xs) x h i = ground arith

earliest-le :
    (xs : List QueueEntry) (e x : QueueEntry)
    → earliest xs ≡ some e
    → In x xs
    → e.queued_at ≤ x.queued_at
earliest-le [] e x h i = absurd i
earliest-le (y ∷ xs) e x h i = elim (Option-cases (earliest xs)) [
  | inl n ↦ ground (arith, earliest-none xs x n)
  | inr (z, s) ↦ ground (arith, earliest-le xs z x s)
]

-- The choice that `claim` makes: a row that nobody holds alive and no transaction has locked,
-- queued no later than any other such row.
pub record Chosen (locked : Uuid → Bool) (lease_timeout : ℕ) (now : Time) (q : Queue)
    (e : QueueEntry) : Type 0 where
  pub present : entry e.task_execution_id q ≡ some e
  pub available : is_available lease_timeout now e ≡ true
  pub unlocked : locked e.task_execution_id ≡ false
  pub first :
      (x : QueueEntry)
      → In x q
      → is_available lease_timeout now x ≡ true
      → locked x.task_execution_id ≡ false
      → e.queued_at ≤ x.queued_at

module _ (locked : Uuid → Bool) (lease_timeout : ℕ) (now : Time) (token worker : Uuid)
    (q : Queue) where
  earliest-Chosen :
      (e : QueueEntry)
      → UniqueKeys entry_key q
      → earliest (claimable locked lease_timeout now q) ≡ some e
      → Chosen locked lease_timeout now q e
  earliest-Chosen e u h =
      let p =
        λ (r : QueueEntry). is_available lease_timeout now r && not (locked r.task_execution_id) in
      let (i, t) = In-filter_by p e q (earliest-In (filter_by p q) e h) in
      record {
        present = find_of_In entry_key e q u i;
        available = ground arith;
        unlocked = ground arith;
        first =
            λ x j a l. earliest-le (filter_by p q) e x h (In-filter_by_of p x q j (ground arith));
      }

  pub claim-some :
      (c : Claim)
      → UniqueKeys entry_key q
      → (claim locked lease_timeout now token worker q).0 ≡ some c
      → (e : QueueEntry) × Chosen locked lease_timeout now q e
        × (c ≡ record { task_execution_id = e.task_execution_id; claim_token = token })
        × ((claim locked lease_timeout now token worker q).1
            ≡ update_where
                (λ r. r.task_execution_id == e.task_execution_id)
                (leased now token worker)
                q)
  unfolding claim
  claim-some c u h = elim (Option-cases (earliest (claimable locked lease_timeout now q))) [
    | inl n ↦ ground arith
    | inr (e, s) ↦ (e, earliest-Chosen e u s, ground arith, ground arith)
  ]

  -- The table after a successful claim, row by row.
  entry-leased :
      (j : Uuid) (e : QueueEntry)
      → entry e.task_execution_id q ≡ some e
      → entry j (
          update_where
            (λ r. r.task_execution_id == e.task_execution_id)
            (leased now token worker)
            q)
        ≡ (if j == e.task_execution_id then some (leased now token worker e) else entry j q)
  entry-leased j e h =
      let p : QueueEntry → Bool = λ r. r.task_execution_id == e.task_execution_id in
      let row = find-update entry_key p (leased now token worker) (λ _. refl) j q in
      elim (Option-cases (entry j q)) [
        | inl n ↦ ground (arith, row)
        | inr (r, s) ↦ ground (arith, row, key-find entry_key j q r s)
      ]

  -- A claim takes a row that nobody holds alive and no other transaction has locked, the one
  -- queued first of these. The row gets the new token, the worker and both times; every other
  -- row stays as it is.
  pub claim_takes_earliest :
      (c : Claim)
      → UniqueKeys entry_key q
      → (claim locked lease_timeout now token worker q).0 ≡ some c
      → (e : QueueEntry) × Chosen locked lease_timeout now q e
        × (c ≡ record { task_execution_id = e.task_execution_id; claim_token = token })
        × ((j : Uuid)
            → entry j (claim locked lease_timeout now token worker q).1
              ≡ (if j == e.task_execution_id then some (leased now token worker e) else entry j q))
  claim_takes_earliest c u h =
      let (e, chosen, same, after) = claim-some c u h in
      (e, chosen, same, λ j. rw after (entry-leased j e chosen.present))

  -- A claim that finds nothing changes nothing, and every row that nobody holds alive is locked.
  pub claim_nothing :
      (claim locked lease_timeout now token worker q).0 ≡ none
      → ((claim locked lease_timeout now token worker q).1 ≡ q)
        × ((x : QueueEntry)
            → In x q
            → is_available lease_timeout now x ≡ true
            → locked x.task_execution_id ≡ true)
  unfolding claim
  claim_nothing h = elim (Option-cases (earliest (claimable locked lease_timeout now q))) [
    | inl n ↦ (
      ground arith,
      λ x i a. elim (Bool-cases (locked x.task_execution_id)) [
        | inl l ↦ l
        | inr l ↦ absurd (earliest-none _ x n (In-filter_by_of _ x q i (ground arith)))
      ],
    )
    | inr (e, s) ↦ ground arith
  ]

  -- A lease whose last heartbeat is younger than the timeout survives every claim.
  pub live_lease-claim :
      (j w : Uuid) (b : Time) (e : QueueEntry)
      → UniqueKeys entry_key q
      → entry j q ≡ some e
      → e.claimed_by ≡ some w
      → e.last_heartbeat ≡ some b
      → now < b + lease_timeout
      → entry j (claim locked lease_timeout now token worker q).1 ≡ some e
  live_lease-claim j w b e u h by beat young =
      elim (Option-cases (claim locked lease_timeout now token worker q).0) [
        | inl n ↦ rw ((claim_nothing n).0) h
        | inr (c, s) ↦
            let (x, chosen, _, after) = claim_takes_earliest c u s in
            ground (arith, after j, chosen.present, chosen.available)
      ]

-- The claim is not, or no longer, the one that the row records.
abbrev pub IsStale : Claim → Queue → Type 0
IsStale c q = accept (has_token c.claim_token) (entry c.task_execution_id q) ≡ none

-- The row of a claim that is still owned.
abbrev pub Holds : Claim → Queue → QueueEntry → Type 0
Holds c q e = (entry c.task_execution_id q ≡ some e) × (e.claim_token ≡ some c.claim_token)

module _ (c : Claim) (q : Queue) (u : UniqueKeys entry_key q) where
  pub held_rows :
      filter_by (is_held c) q
      ≡ of_option (accept (has_token c.claim_token) (entry c.task_execution_id q))
  held_rows = filter_by_key entry_key c.task_execution_id (has_token c.claim_token) q u

  -- A worker that has lost its lease learns so from `heartbeat`, and neither that nor `release`
  -- nor `finish` changes the queue: `finish` does not enqueue its runnable tasks either.
  pub stale_claim_no_effect :
      (now : Time) (runnable : List Uuid)
      → IsStale c q
      → (heartbeat now c q ≡ (false, q)) × (release c q ≡ q) × (finish now c runnable q ≡ q)
  unfolding heartbeat release finish
  stale_claim_no_effect now runnable stale =
      let nothing : filter_by (is_held c) q ≡ [] = held_rows ∙ ap of_option stale in
      (
        ground (
          arith,
          nothing,
          update_where_none (is_held c) (λ e. record e { last_heartbeat = some now }) q nothing,
        ),
        update_where_none (is_held c) unclaimed q nothing,
        ground (arith, nothing, delete_where_none (is_held c) q nothing),
      )
