-- ===== src/Executions/Start.antt =====
-- `start_task`: it keeps the invariant, and a task whose parents are completed gets their outputs.
use automation_platform.Base.{
  ap, sym, ◌∙◌, ◌≡◌, ◌≢◌, refl, Bool, true, ◌&&◌, Option, none, some, List, [], ◌∷◌, arith, ◌==◌,
  if◌then◌else◌, contains, Option-cases, inl, inr, filter_by, Bool-cases, is_empty,
}
use automation_platform.Domain.{Uuid, Time, TaskOutput}
use automation_platform.Errors.{ok}
use automation_platform.Table.{
  In, In-filter_by, accept, of_option, update_where_none, find_of_In, find-update, patch,
  filter_by_key, update-UniqueKeys, UniqueKeys, key-find,
}
use automation_platform.Executions.{
  TaskRow, Store, task_key, task, is_pending, is_running, is_active, started, mark_started,
  start_task, load_parent_outputs, collect_outputs,
}
use automation_platform.Texts.{TextDict, get_text, set_text}
use automation_platform.Executions.Outputs.{HoldsOutputs, load_parent_outputs-HoldsOutputs}
use automation_platform.Executions.Effects.{on_row}
use automation_platform.Executions.Invariant.{
  Sound, Static, done, unmet, unmet_same, old_row, linked_kept,
}

pub patch-on_row :
    (p : TaskRow → Bool) (f : TaskRow → TaskRow) (o : Option TaskRow)
    → patch p f o ≡ on_row (λ r. if p r then f r else r) o
patch-on_row p f none = refl
patch-on_row p f (some r) = refl

-- All parents of the task, if it is there, are completed.
abbrev pub IsReady : Store → Uuid → Type 0
IsReady s i = (r : TaskRow) → task i s ≡ some r → unmet (done s) r.parent_task_ids ≡ 0

module _ (i : Uuid) (now : Time) (s : Store) where
  abbrev pub start_row : TaskRow → TaskRow
  start_row r = if r.id == i && is_pending r.status then started now r else r

  abbrev pub after : Store
  after = mark_started i now s

  pub start_rows : (j : Uuid) → task j after ≡ on_row start_row (task j s)
  start_rows j =
      find-update task_key (λ r. r.id == i && is_pending r.status) (started now) (λ _. refl) j
        s.tasks
      ∙ patch-on_row _ (started now) (task j s)

  pub start-Static : Static start_row
  start-Static = record {
    parents = λ r. ground arith;
    children = λ r. ground arith;
    owner = λ r. ground arith;
  }

  start-done : (p : Uuid) → done after p ≡ done s p
  start-done p = elim (Option-cases (task p s)) [
    | inl n ↦ ground (arith, start_rows p)
    | inr (r, h) ↦ ground (arith, start_rows p)
  ]

  -- Only the counter test of `claim`'s clients guards a start, so the invariant asks for it here.
  pub mark_started-Sound : IsReady s i → Sound s → Sound after
  mark_started-Sound ready v = record {
    unique =
        update-UniqueKeys task_key (λ r. r.id == i && is_pending r.status) (started now) (λ _. refl)
          s.tasks v.unique;
    unique_workflows = v.unique_workflows;
    linked = linked_kept s after start_row start_rows start-Static v;
    counted = λ j r' h p.
        let (r, h₀, e) = old_row s after start_row start_rows j r' h in
        ground (
          arith,
          e,
          v.counted j r h₀,
          unmet_same (done s) (done after) start-done r.parent_task_ids,
        );
    begun = λ j r' h p.
        let (r, h₀, e) = old_row s after start_row start_rows j r' h in
        ground (
          arith,
          e,
          v.begun j r h₀,
          ready r,
          key-find task_key j s.tasks r h₀,
          unmet_same (done s) (done after) start-done r.parent_task_ids,
        );
    stored = λ j r' h p.
        let (r, h₀, e) = old_row s after start_row start_rows j r' h in
        ground (arith, e, v.stored j r h₀);
    tries = λ j r' h p.
        let (r, h₀, e) = old_row s after start_row start_rows j r' h in
        ground (arith, e, v.tries j r h₀);
    settled = λ j w r' x h hw p.
        let (r, h₀, e) = old_row s after start_row start_rows j r' h in
        ground (arith, e, v.settled j w r x h₀ hw);
  }

unmet_zero :
    (d : Uuid → Bool) (p : Uuid) (ps : List Uuid)
    → unmet d ps ≡ 0
    → contains p ps ≡ true
    → d p ≡ true
unmet_zero d p [] h c = cc
unmet_zero d p (x ∷ ps) h c = elim (Bool-cases (p == x)) [
  | inl e ↦ ground arith
  | inr e ↦ ground (arith, unmet_zero d p ps)
]

collect_outputs_total :
    (rows : List TaskRow) (outputs : TextDict TaskOutput)
    → ((r : TaskRow) → In r rows → r.output ≢ none)
    → (all : TextDict TaskOutput) × (collect_outputs rows outputs ≡ ok all)
unfolding collect_outputs
collect_outputs_total [] outputs h = (outputs, refl)
collect_outputs_total (r ∷ rows) outputs h = elim (Option-cases r.output) [
  | inl n ↦ absurd (h r (inl refl) n)
  | inr (values, e) ↦
      let (all, done) =
        collect_outputs_total rows (set_text r.key (record { values = values }) outputs)
          (λ x i. h x (inr i)) in
      (all, ground (arith, done))
]

-- No parent of a ready task lacks its output.
pub load_parent_outputs_total :
    (s : Store) (ids : List Uuid)
    → Sound s
    → unmet (done s) ids ≡ 0
    → (all : TextDict TaskOutput) × (load_parent_outputs ids s.tasks ≡ ok all)
unfolding load_parent_outputs
load_parent_outputs_total s ids v z =
    let (all, e) = collect_outputs_total (filter_by (λ r. contains r.id ids) s.tasks) [] present in
    elim (Bool-cases (is_empty ids)) [ inl t ↦ ([], rw t) | inr t ↦ (all, rw t e) ]
  where
    present : (r : TaskRow) → In r (filter_by (λ r. contains r.id ids) s.tasks) → r.output ≢ none
    present r i =
        let (j, c) = In-filter_by (λ (r : TaskRow). contains r.id ids) r s.tasks i in
        let h = find_of_In task_key r s.tasks v.unique j in
        ground (arith, v.stored r.id r h, unmet_zero (done s) r.id ids z c)

selected :
    (i : Uuid) (now : Time) (s : Store)
    → UniqueKeys task_key s.tasks
    → filter_by (λ r. r.id == i && is_running r.status) (mark_started i now s).tasks
      ≡ of_option (accept (λ r. is_running r.status) (on_row (start_row i now s) (task i s)))
selected i now s u =
    filter_by_key task_key i (λ r. is_running r.status) (mark_started i now s).tasks
      (update-UniqueKeys task_key (λ r. r.id == i && is_pending r.status) (started now) (λ _. refl)
        s.tasks u)
    ∙ ap (λ o. of_option (accept (λ (r : TaskRow). is_running r.status) o)) (start_rows i now s i)

-- The start of a task leaves the keys and the outputs as they are.
start-HoldsOutputs :
    (i : Uuid) (now : Time) (s : Store) (ids : List Uuid) (outputs : TextDict TaskOutput)
    → HoldsOutputs (mark_started i now s) ids outputs
    → HoldsOutputs s ids outputs
start-HoldsOutputs i now s ids outputs h = record {
  from_parent = λ k o g.
      let (p, q', c, e, named, out) = h.from_parent k o g in
      let (q, e₀, eq) =
        old_row s (mark_started i now s) (start_row i now s) (start_rows i now s) p q' e in
      (p, q, c, e₀, ground (arith, eq, named), ground (arith, eq, out));
  of_each = λ p q c e.
      let key : (start_row i now s q).key ≡ q.key = ground arith in
      let (o, g) =
        h.of_each p (start_row i now s q) c
          (start_rows i now s p ∙ ap (on_row (start_row i now s)) e) in
      (o, ap (λ k. get_text k outputs) (sym key) ∙ g);
}

-- A pending or running task whose parents are all completed starts: the answer carries its plugin,
-- its configuration and the outputs of its parents by their keys, and no missing output is raised.
-- Under each key that the outputs have stands the stored output of a parent with this key, and they
-- have the key of each parent.
pub start_task_ready :
    (i : Uuid) (now : Time) (s : Store) (r : TaskRow)
    → Sound s
    → task i s ≡ some r
    → unmet (done s) r.parent_task_ids ≡ 0
    → is_active r.status ≡ true
    → (outputs : TextDict TaskOutput) × HoldsOutputs s r.parent_task_ids outputs
      × ((start_task i now s).0
          ≡ ok (
              some (record {
                plugin_type = r.plugin_type;
                configuration = r.configuration;
                parent_outputs = outputs;
              })))
unfolding start_task
start_task_ready i now s r v h z a =
    let ready : IsReady s i =
      λ x hx. let e : x ≡ r = cc in ap (λ (c : TaskRow). unmet (done s) c.parent_task_ids) e ∙ z in
    let v' = mark_started-Sound i now s ready v in
    let (outputs, e) = load_parent_outputs_total (mark_started i now s) r.parent_task_ids v' (
      unmet_same (done s) (done (mark_started i now s)) (start-done i now s) r.parent_task_ids
      ∙ z) in
    (
      outputs,
      start-HoldsOutputs i now s r.parent_task_ids outputs (
          load_parent_outputs-HoldsOutputs (mark_started i now s) r.parent_task_ids outputs
            v'.unique e),
      ground (arith, selected i now s v.unique, key-find task_key i s.tasks r h, e),
    )

-- A task that is terminal or missing is not processed, and nothing changes.
pub start_task_refused :
    (i : Uuid) (now : Time) (s : Store)
    → UniqueKeys task_key s.tasks
    → accept (λ r. is_active r.status) (task i s) ≡ none
    → start_task i now s ≡ (ok none, s)
unfolding start_task
start_task_refused i now s u h = ground (arith, selected i now s u, same, no_row (task i s) h)
  where
    no_row :
        (o : Option TaskRow)
        → accept (λ r. is_active r.status) o ≡ none
        → (accept (λ r. is_pending r.status) o ≡ none)
          × (accept (λ r. is_running r.status) (on_row (start_row i now s) o) ≡ none)
    no_row none h = (refl, refl)
    no_row (some r) h = (ground arith, ground arith)

    same : mark_started i now s ≡ s
    same =
        ap (λ (ts : List TaskRow). record s { tasks = ts })
          (update_where_none _ (started now) s.tasks (
            filter_by_key task_key i (λ r. is_pending r.status) s.tasks u
            ∙ ap of_option (no_row (task i s) h).0))
