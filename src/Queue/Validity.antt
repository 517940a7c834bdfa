-- ===== src/Queue/Validity.antt =====
-- The invariant of the queue: one row for each task, and leases that are wholly there or wholly
-- absent.
use automation_platform.Base.{
  ◌≡◌, ◌≢◌, ◌⊎◌, refl, Bool, true, Option, none, some, List, [], ◌∷◌, ◌++◌, arith, ◌==◌,
  Option-cases, Bool-cases, inl, inr, ℕ,
}
use automation_platform.Domain.{Uuid, Time}
use automation_platform.Table.{
  delete_where, rowcount, UniqueKeys, update_where, update-UniqueKeys, delete_where-UniqueKeys,
}
use automation_platform.Queue.{
  QueueEntry, Queue, Claim, entry, entry_key, new_entry, insert_entry, is_held, leased, enqueue,
  claim, heartbeat, release, finish, insert_queue_entries, earliest, claimable,
}
use automation_platform.Queue.Enqueue.{insert_queue_entries-UniqueKeys}

-- The four lease columns are all NULL, or all set.
abbrev pub IsLeaseConsistent : QueueEntry → Type 0
IsLeaseConsistent e =
    ((e.claim_token ≡ none)
      × (e.claimed_by ≡ none)
      × (e.claimed_at ≡ none)
      × (e.last_heartbeat ≡ none))
    ⊎ ((e.claim_token ≢ none)
        × (e.claimed_by ≢ none)
        × (e.claimed_at ≢ none)
        × (e.last_heartbeat ≢ none))

abbrev pub All : (QueueEntry → Type 0) → Queue → Type 0
All P [] = Unit
All P (e ∷ q) = P e × All P q

pub record IsValid (q : Queue) : Type 0 where
  pub unique : UniqueKeys entry_key q
  pub consistent : All IsLeaseConsistent q

All-update :
    (p : QueueEntry → Bool) (f : QueueEntry → QueueEntry) (q : Queue)
    → ((e : QueueEntry) → p e ≡ true → IsLeaseConsistent e → IsLeaseConsistent (f e))
    → All IsLeaseConsistent q
    → All IsLeaseConsistent (update_where p f q)
All-update p f [] keep a = tt
All-update p f (e ∷ q) keep a = (
  elim (Bool-cases (p e)) [ inl t ↦ rw t (keep e t a.0) | inr t ↦ rw t a.0 ],
  All-update p f q keep a.1,
)

All-delete :
    (p : QueueEntry → Bool) (q : Queue)
    → All IsLeaseConsistent q
    → All IsLeaseConsistent (delete_where p q)
All-delete p [] a = tt
All-delete p (e ∷ q) a = elim (Bool-cases (p e)) [
  | inl t ↦ rw t (All-delete p q a.1)
  | inr t ↦ rw t (a.0, All-delete p q a.1)
]

All-append :
    (q : Queue) (e : QueueEntry)
    → All IsLeaseConsistent q
    → IsLeaseConsistent e
    → All IsLeaseConsistent (q ++ e ∷ [])
All-append [] e a h = (h, tt)
All-append (x ∷ q) e a h = (a.0, All-append q e a.1 h)

All-insert_queue_entries :
    (ids : List Uuid) (now : Time) (q : Queue)
    → All IsLeaseConsistent q
    → All IsLeaseConsistent (insert_queue_entries ids now q)
unfolding insert_queue_entries
All-insert_queue_entries [] now q a = a
All-insert_queue_entries (i ∷ ids) now q a =
    All-insert_queue_entries ids now (insert_entry i now q) (one (entry i q))
  where
    one :
        (o : Option QueueEntry)
        → All IsLeaseConsistent (elim o [ none ↦ q ++ new_entry i now ∷ [] | some _ ↦ q ])
    one none = All-append q (new_entry i now) a (inl (refl, refl, refl, refl))
    one (some _) = a

module _ (q : Queue) (v : IsValid q) where
  update-IsValid :
      (p : QueueEntry → Bool) (f : QueueEntry → QueueEntry)
      → ((e : QueueEntry) → (f e).task_execution_id ≡ e.task_execution_id)
      → ((e : QueueEntry) → p e ≡ true → IsLeaseConsistent e → IsLeaseConsistent (f e))
      → IsValid (update_where p f q)
  update-IsValid p f same keep = record {
    unique = update-UniqueKeys entry_key p f same q v.unique;
    consistent = All-update p f q keep v.consistent;
  }

  delete-IsValid : (p : QueueEntry → Bool) → IsValid (delete_where p q)
  delete-IsValid p = record {
    unique = delete_where-UniqueKeys entry_key p q v.unique;
    consistent = All-delete p q v.consistent;
  }

  insert-IsValid : (ids : List Uuid) (now : Time) → IsValid (insert_queue_entries ids now q)
  insert-IsValid ids now = record {
    unique = insert_queue_entries-UniqueKeys ids now q v.unique;
    consistent = All-insert_queue_entries ids now q v.consistent;
  }

beat-IsLeaseConsistent :
    (now : Time) (c : Claim) (e : QueueEntry)
    → is_held c e ≡ true
    → IsLeaseConsistent e
    → IsLeaseConsistent (record e { last_heartbeat = some now })
beat-IsLeaseConsistent now c e held h = ground arith

leased-IsLeaseConsistent :
    (now : Time) (token worker : Uuid) (e : QueueEntry)
    → IsLeaseConsistent (leased now token worker e)
leased-IsLeaseConsistent now token worker e = inr (λ n. cc, λ n. cc, λ n. cc, λ n. cc)

-- Every operation of the queue, with any arguments, keeps one row for each task and every lease
-- whole: a token, a holder and both times, or none of the four.
pub operations-IsValid :
    (q : Queue) (ids : List Uuid) (now : Time) (locked : Uuid → Bool) (lease_timeout : ℕ)
    (token worker : Uuid) (c : Claim)
    → IsValid q
    → IsValid (enqueue ids now q)
      × IsValid (claim locked lease_timeout now token worker q).1
      × IsValid (heartbeat now c q).1
      × IsValid (release c q)
      × IsValid (finish now c ids q)
unfolding enqueue claim heartbeat release finish
operations-IsValid q ids now locked lease_timeout token worker c v = (
  insert-IsValid q v ids now,
  elim (Option-cases (earliest (claimable locked lease_timeout now q))) [
    | inl n ↦ rw (n, claim) v
    | inr (e, s) ↦
        rw (s, claim)
          (update-IsValid q v _ _ (λ _. refl)
            (λ r _ _. leased-IsLeaseConsistent now token worker r))
  ],
  update-IsValid q v _ _ (λ _. refl) (beat-IsLeaseConsistent now c),
  update-IsValid q v _ _ (λ _. refl) (λ _ _ _. inl (refl, refl, refl, refl)),
  elim (Bool-cases (rowcount (is_held c) q == 1)) [
    | inl t ↦
        rw t (insert-IsValid (delete_where (is_held c) q) (delete-IsValid q v (is_held c)) ids now)
    | inr t ↦ rw t (delete-IsValid q v (is_held c))
  ],
)
