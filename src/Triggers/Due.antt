-- ===== src/Triggers/Due.antt =====
-- Which trigger is due, and what processing it does.
use automation_platform.Base.{
  ◌≤◌, ◌≡◌, ◌≢◌, Bool, true, false, none, some, List, [], ◌∷◌, arith, filter_by, Option-cases, inl,
  inr,
}
use automation_platform.Domain.{Uuid, Time}
use automation_platform.Table.{In, In-filter_by, In-filter_by_of, find}
use automation_platform.Triggers.{
  TriggerRow, TriggerState, DueChronologicalTrigger, Database, Joined, trigger_key, joined, is_due,
  is_before, first_due, get_next_due,
}

first_due-In : (xs : List Joined) (x : Joined) → first_due xs ≡ some x → In x xs
first_due-In [] x h = ground arith
first_due-In (y ∷ xs) x h = elim (Option-cases (first_due xs)) [
  | inl n ↦ ground arith
  | inr (z, s) ↦ ground (arith, first_due-In xs z s)
]

first_due-none : (xs : List Joined) (x : Joined) → first_due xs ≡ none → ¬ In x xs
first_due-none [] x h i = i
first_due-none (y ∷ xs) x h i = ground arith

first_due-before :
    (xs : List Joined) (x y : Joined) → first_due xs ≡ some x → In y xs → is_before x.0 y.0 ≡ true
first_due-before [] x y h i = absurd i
first_due-before (z ∷ xs) x y h i = elim (Option-cases (first_due xs)) [
  | inl n ↦ ground (arith, first_due-none xs y n)
  | inr (u, s) ↦ ground (arith, first_due-before xs u y s)
]

In-joined :
    (triggers : List TriggerRow) (states : List TriggerState) (s : TriggerState) (t : TriggerRow)
    → In (s, t) (joined triggers states)
    → In s states × (find trigger_key s.trigger_definition_id triggers ≡ some t)
In-joined triggers [] s t i = absurd i
In-joined triggers (x ∷ states) s t i =
    elim (Option-cases (find trigger_key x.trigger_definition_id triggers)) [
      | inl n ↦ ground (arith, In-joined triggers states s t)
      | inr (u, e) ↦ ground (arith, In-joined triggers states s t)
    ]

joined-In :
    (triggers : List TriggerRow) (states : List TriggerState) (s : TriggerState) (t : TriggerRow)
    → In s states
    → find trigger_key s.trigger_definition_id triggers ≡ some t
    → In (s, t) (joined triggers states)
joined-In triggers [] s t i h = absurd i
joined-In triggers (x ∷ states) s t (inl e) h = ground arith
joined-In triggers (x ∷ states) s t (inr i) h =
    elim (Option-cases (find trigger_key x.trigger_definition_id triggers)) [
      | inl n ↦ ground (arith, joined-In triggers states s t i h)
      | inr (u, e) ↦ ground (arith, joined-In triggers states s t i h)
    ]

-- The trigger that is chosen has scheduling state that is due, an enabled definition and no lock,
-- and comes first in the order of time and then of id among all of which that holds.
pub get_next_due_first :
    (locked : Uuid → Bool) (now : Time) (db : Database) (due : DueChronologicalTrigger)
    → get_next_due locked now db ≡ some due
    → (s : TriggerState) × (t : TriggerRow) × In s db.states
      × (find trigger_key s.trigger_definition_id db.triggers ≡ some t)
      × (due.trigger_definition_id ≡ s.trigger_definition_id)
      × (due.next_run_at ≡ s.next_run_at)
      × (due.workflow_definition_id ≡ t.workflow_definition_id)
      × (s.next_run_at ≤ now)
      × (t.enabled ≡ true)
      × (locked s.trigger_definition_id ≡ false)
      × ((s' : TriggerState) (t' : TriggerRow)
          → In s' db.states
          → find trigger_key s'.trigger_definition_id db.triggers ≡ some t'
          → s'.next_run_at ≤ now
          → t'.enabled ≡ true
          → locked s'.trigger_definition_id ≡ false
          → is_before s s' ≡ true)
unfolding get_next_due
get_next_due_first locked now db due h =
    let rows = filter_by (is_due locked now) (joined db.triggers db.states) in
    elim (Option-cases (first_due rows)) [
      | inl n ↦ ground arith
      | inr ((s, t), e) ↦
          let (i, ok_row) =
            In-filter_by (is_due locked now) (s, t) (joined db.triggers db.states)
              (first_due-In rows (s, t) e) in
          let (m, k) = In-joined db.triggers db.states s t i in
          (
            s,
            t,
            m,
            k,
            ground arith,
            ground arith,
            ground arith,
            ground arith,
            ground arith,
            ground arith,
            λ s' t' m' k' d en l.
                first_due-before rows (s, t) (s', t') e
                  (In-filter_by_of (is_due locked now) (s', t') (joined db.triggers db.states)
                    (joined-In db.triggers db.states s' t' m' k') (ground arith)),
          )
    ]

-- With an enabled trigger that is due and not locked, some trigger is chosen.
pub get_next_due-ne-none :
    (locked : Uuid → Bool) (now : Time) (db : Database) (s : TriggerState) (t : TriggerRow)
    → In s db.states
    → find trigger_key s.trigger_definition_id db.triggers ≡ some t
    → s.next_run_at ≤ now
    → t.enabled ≡ true
    → locked s.trigger_definition_id ≡ false
    → get_next_due locked now db ≢ none
unfolding get_next_due
get_next_due-ne-none locked now db s t i k d en l =
    let rows = filter_by (is_due locked now) (joined db.triggers db.states) in
    elim (Option-cases (first_due rows)) [
      | inl n ↦ absurd (
          first_due-none rows (s, t) n
            (In-filter_by_of (is_due locked now) (s, t) (joined db.triggers db.states)
              (joined-In db.triggers db.states s t i k) (ground arith)))
      | inr ((s', t'), e) ↦ ground arith
    ]
