-- ===== src/Triggers/Blocking.antt =====
-- What a due trigger does to the triggers behind it.
use automation_platform.Base.{
  ap, ◌∙◌, ◌<◌, ◌≤◌, ◌≡◌, refl, true, false, Option, none, some, List, [], ◌∷◌, arith, ◌==◌,
  if◌then◌else◌, Option-cases, inl, inr, ◌≢◌, ◌+◌, ◌*◌, Bool-cases, ltb, ◌⊎◌, ℕ,
}
use automation_platform.Domain.{Uuid, Time, WorkflowDefinition}
use automation_platform.Errors.{
  ok, raised, overflow_error, Error, Result-cases, workflow_definition_disabled,
  workflow_definition_not_found,
}
use automation_platform.Table.{In, find, find-update, key-find}
use automation_platform.Plugins as Plugins
use automation_platform.Plugins.{TriggerPlugin}
use automation_platform.Plugins.Interval.{
  FloatShift, latest, interval, validate_configuration, next_occurrence_later,
}
use automation_platform.Launch.{prepare_start}
use automation_platform.Queue.{Queue}
use automation_platform.Triggers.{
  TriggerRow, TriggerState, DueChronologicalTrigger, Database, trigger_key, state_key, is_before,
  load_definition, get_next_due, call_next_occurrence, advance, update_next_run, Occasion,
  process_due, process_next_due, run_scheduler,
}
use automation_platform.Triggers.Due.{get_next_due_first, get_next_due-ne-none}

-- A definition that cannot be started: it is missing or disabled.
abbrev pub CannotStart : Option WorkflowDefinition → Type 0
CannotStart none = Unit
CannotStart (some d) = d.enabled ≡ false

prepare_start_raises :
    (o : Occasion) (d : Option WorkflowDefinition) (db : Database)
    → CannotStart d
    → (e : Error) × (prepare_start o.execution_id o.fresh o.now d db.store ≡ raised e)
unfolding prepare_start
prepare_start_raises o none db c = (workflow_definition_not_found, refl)
prepare_start_raises o (some d) db c = (workflow_definition_disabled, ground arith)

process_due_raises :
    (registry : List TriggerPlugin) (o : Occasion) (due : DueChronologicalTrigger) (db : Database)
    → CannotStart (load_definition due.workflow_definition_id db)
    → (e : Error) × (process_due registry o due db ≡ raised e)
unfolding process_due
process_due_raises registry o due db c =
    let (e, p) = prepare_start_raises o (load_definition due.workflow_definition_id db) db c in
    elim (Result-cases
      (Plugins.get (λ (p : TriggerPlugin). p.plugin_type) due.plugin_type registry)) [
        | inl (e₁, p₁) ↦ (e₁, ground (arith, p₁))
        | inr (plugin, p₁) ↦
            elim (Result-cases (call_next_occurrence plugin due.configuration due.next_run_at)) [
              | inl (e₂, p₂) ↦ (e₂, rw (p₁, p₂))
              | inr (next, p₂) ↦
                  elim (Result-cases (advance due.trigger_definition_id next db.states)) [
                    | inl (e₃, p₃) ↦ (e₃, rw (p₁, p₂, p₃))
                    | inr (states, p₃) ↦ (e, rw (p₁, p₂, p₃, p))
                  ]
            ]
      ]

-- The trigger comes before every other enabled one, due or not.
pub record IsFirst (db : Database) (s : TriggerState) (t : TriggerRow) : Type 0 where
  pub present : In s db.states
  pub defined : find trigger_key s.trigger_definition_id db.triggers ≡ some t
  pub enabled : t.enabled ≡ true
  pub before :
      (s' : TriggerState) (t' : TriggerRow)
      → In s' db.states
      → find trigger_key s'.trigger_definition_id db.triggers ≡ some t'
      → t'.enabled ≡ true
      → is_before s s' ≡ true

-- Every round comes when the trigger is due, and no other transaction holds its row.
abbrev pub Sees : TriggerState → List Occasion → Type 0
Sees s [] = Unit
Sees s (o ∷ os) = ((s.next_run_at ≤ o.now) × (o.locked s.trigger_definition_id ≡ false)) × Sees s os

is_before_antisym :
    (a b : TriggerState)
    → is_before a b ≡ true
    → is_before b a ≡ true
    → a.trigger_definition_id ≡ b.trigger_definition_id
is_before_antisym a b h k = ground arith

first_is_chosen :
    (o : Occasion) (db : Database) (s : TriggerState) (t : TriggerRow)
    → IsFirst db s t
    → s.next_run_at ≤ o.now
    → o.locked s.trigger_definition_id ≡ false
    → (due : DueChronologicalTrigger) × (get_next_due o.locked o.now db ≡ some due)
      × (due.workflow_definition_id ≡ t.workflow_definition_id)
first_is_chosen o db s t f d l = elim (Option-cases (get_next_due o.locked o.now db)) [
  | inl n ↦ absurd (get_next_due-ne-none o.locked o.now db s t f.present f.defined d f.enabled l n)
  | inr (due, e) ↦
      let (s', t', m, k, _, _, w, _, en, _, first) = get_next_due_first o.locked o.now db due e in
      let id =
        is_before_antisym s s' (f.before s' t' m k en)
          (first s t f.present f.defined d f.enabled l) in
      let row : t' ≡ t = cc (k, f.defined, id) in
      (due, e, w ∙ ap (λ (x : TriggerRow). x.workflow_definition_id) row)
]

-- A round on a trigger whose workflow definition cannot be started raises and changes nothing.
process_next_due_blocked :
    (registry : List TriggerPlugin) (o : Occasion) (db : Database) (q : Queue) (s : TriggerState)
    (t : TriggerRow)
    → IsFirst db s t
    → CannotStart (load_definition t.workflow_definition_id db)
    → s.next_run_at ≤ o.now
    → o.locked s.trigger_definition_id ≡ false
    → (e : Error) × (process_next_due registry o (db, q) ≡ (raised e, db, q))
unfolding process_next_due
process_next_due_blocked registry o db q s t f c d l =
    let (due, chosen, w) = first_is_chosen o db s t f d l in
    let (e, p) = process_due_raises registry o due db (rw w c) in (e, ground (arith, chosen, p))

-- While the first trigger belongs to a disabled or missing workflow definition, the scheduler makes
-- no progress at all: after any number of rounds the database and the queue are as before, so no
-- trigger behind it, however long due, ever starts its workflow.
pub disabled_definition_blocks_scheduler :
    (registry : List TriggerPlugin) (os : List Occasion) (db : Database) (q : Queue)
    (s : TriggerState) (t : TriggerRow)
    → IsFirst db s t
    → CannotStart (load_definition t.workflow_definition_id db)
    → Sees s os
    → run_scheduler registry os (db, q) ≡ (db, q)
unfolding run_scheduler
disabled_definition_blocks_scheduler registry [] db q s t f c sees = refl
disabled_definition_blocks_scheduler registry (o ∷ os) db q s t f c sees =
    let (e, p) = process_next_due_blocked registry o db q s t f c sees.0.0 sees.0.1 in
    rw p (disabled_definition_blocks_scheduler registry os db q s t f c sees.1)

-- What a transaction that goes through has done to the scheduling states.
process_due_states :
    (registry : List TriggerPlugin) (o : Occasion) (due : DueChronologicalTrigger)
    (db after : Database) (roots : List Uuid) (plugin : TriggerPlugin) (next : Option Time)
    → Plugins.get (λ (p : TriggerPlugin). p.plugin_type) due.plugin_type registry ≡ ok plugin
    → call_next_occurrence plugin due.configuration due.next_run_at ≡ ok next
    → process_due registry o due db ≡ ok (after, roots)
    → advance due.trigger_definition_id next db.states ≡ ok after.states
unfolding process_due
process_due_states registry o due db after roots plugin next registered called done =
    let d = load_definition due.workflow_definition_id db in
    let opened = rw (registered, called) at done in
    elim (Result-cases (advance due.trigger_definition_id next db.states)) [
      | inl (e, p) ↦ ground (arith, rw p at opened)
      | inr (states, p) ↦
          elim (Result-cases (prepare_start o.execution_id o.fresh o.now d db.store)) [
            | inl (e, p') ↦ ground (arith, rw (p, p') at opened)
            | inr (started, p') ↦ ground (arith, p, rw (p, p') at opened)
          ]
    ]

update_next_run_rows :
    (i : Uuid) (next : Time) (states after : List TriggerState)
    → update_next_run i next states ≡ ok after
    → (j : Uuid) (x : TriggerState) → find state_key j states ≡ some x
    → find state_key j after ≡ some (if j == i then record x { next_run_at = next } else x)
unfolding update_next_run
update_next_run_rows i next states after h j x e =
    let row =
      find-update state_key (λ s. s.trigger_definition_id == i)
        (λ s. record s { next_run_at = next }) (λ _. refl) j states in
    ground (arith, row, key-find state_key j states x e)

le_or_lt : (m n : ℕ) → (m ≤ n) ⊎ (n < m)
le_or_lt m n = elim (Bool-cases (ltb n m)) [
  | inl t ↦ inr (ground arith)
  | inr f ↦ inl (ground arith)
]

-- A call that raises undoes the transaction.
process_due_called :
    (registry : List TriggerPlugin) (o : Occasion) (due : DueChronologicalTrigger)
    (db after : Database) (roots : List Uuid) (plugin : TriggerPlugin) (e : Error)
    → Plugins.get (λ (p : TriggerPlugin). p.plugin_type) due.plugin_type registry ≡ ok plugin
    → call_next_occurrence plugin due.configuration due.next_run_at ≡ raised e
    → process_due registry o due db ≢ ok (after, roots)
unfolding process_due
process_due_called registry o due db after roots plugin e registered called done =
    let opened = rw (registered, called) at done in cc

-- A due interval trigger whose configuration is valid and whose workflow starts is moved to a
-- strictly later time, and no other scheduling state changes.
pub interval_trigger_advances :
    (float_shift : FloatShift) (registry : List TriggerPlugin) (o : Occasion)
    (due : DueChronologicalTrigger) (db after : Database) (roots : List Uuid)
    → Plugins.get (λ (p : TriggerPlugin). p.plugin_type) due.plugin_type registry
      ≡ ok (interval float_shift)
    → validate_configuration due.configuration ≡ ok tt
    → process_due registry o due db ≡ ok (after, roots)
    → (later : Time) × (due.next_run_at < later)
      × ((j : Uuid) (x : TriggerState)
          → find state_key j db.states ≡ some x
          → find state_key j after.states
            ≡ some (if j == due.trigger_definition_id then record x { next_run_at = later } else x))
unfolding interval advance
interval_trigger_advances float_shift registry o due db after roots registered valid done =
    let (n, _, lt, fits, overflows) =
      next_occurrence_later float_shift due.configuration due.next_run_at valid in
    let later = due.next_run_at + n * 1000000 in
    let within : later ≤ latest = elim (le_or_lt later latest) [
      | inl l ↦ l
      | inr l ↦ absurd (
          process_due_called registry o due db after roots (interval float_shift) overflow_error
            registered (overflows l) done)
    ] in
    (
      later,
      lt,
      update_next_run_rows due.trigger_definition_id later db.states after.states (
          process_due_states registry o due db after roots (interval float_shift) (some later)
            registered (fits within) done),
    )
