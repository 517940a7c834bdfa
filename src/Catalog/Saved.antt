-- ===== src/Catalog/Saved.antt =====
-- A new workflow definition is saved, and loads as it was.
use mathlib.Core.Bool.{false≢true}
use mathlib.Core.List.{append-nil}
use automation_platform.Base.{
  ◌≡◌, refl, Bool, true, false, ◌&&◌, ◌||◌, none, some, List, [], ◌++◌, map, any, filter_by,
  contains, arith, ◌==◌, inl, inr, ap, ◌∙◌, subst, Bool-cases,
}
use automation_platform.Domain.{Uuid, TaskDefinition, WorkflowDefinition}
use automation_platform.Errors.{ok, ◌>>=◌}
use automation_platform.Table.{In, delete_where}
use automation_platform.Texts.{same}
use automation_platform.Triggers.{TriggerRow}
use automation_platform.Catalog.{
  Catalog, TaskDefinitionRow, DependencyRow, row_key, workflow_to_model, workflow_to_domain,
  task_to_model, task_to_domain, trigger_to_model, trigger_to_domain, upsert, is_stale_task,
  is_stale_trigger, mentions, delete_tasks, synchronize_each, synchronize_tasks, merge_triggers,
  synchronize_triggers, save, dependency_lookup, load,
}
use automation_platform.Catalog.Order.{ids_of}
use automation_platform.Catalog.Saving.{all_dependencies, from_task, synchronize_each_lem, Fits}
use automation_platform.Catalog.Fitting.{Ordered-Fits}
use automation_platform.Catalog.RoundTrip.{
  trigger_ids, IsStorable, IsNew, contains-ids, any_weaker, filter_by_none, filter_by-append,
  delete_where-false, find-upsert, targets-dependencies, lookup_own, back, owned, owned_triggers,
  triggers_back, merge_triggers_lem,
}

delete_tasks_none :
    (p : TaskDefinitionRow → Bool) (c : Catalog) → any p c.tasks ≡ false → delete_tasks p c ≡ ok c
unfolding delete_tasks
delete_tasks_none p c h =
    let m : mentions p c ≡ false =
      any_weaker p
        (λ r.
          p r
          && any
              (λ (d : DependencyRow).
                d.task_definition_id == r.id || d.depends_on_task_definition_id == r.id)
              c.dependencies)
        c.tasks (λ r n. rw n refl) h in
    rw m (ap (λ t. ok (record c { tasks = t })) (delete_where-false p c.tasks h))

-- The tables after the save.
abbrev saved : WorkflowDefinition → Catalog → Catalog
saved w c = record {
  definitions = upsert row_key (workflow_to_model w) c.definitions;
  tasks = c.tasks ++ map (task_to_model w.id) w.task_definitions;
  dependencies = c.dependencies ++ all_dependencies w.task_definitions;
  triggers = c.triggers ++ map (trigger_to_model w.id) w.trigger_definitions;
}

-- A row whose id is not among some ids has none of them.
not_among :
    (a i : Uuid) (ids : List Uuid)
    → contains i ids ≡ true
    → contains a ids ≡ false
    → (a == i) ≡ false
not_among a i ids h n = elim (Bool-cases (a == i)) [
  | inl q ↦
      let e : i ≡ a = ground arith in
      let m : contains a ids ≡ true = subst (λ x. contains x ids ≡ true) e h in cc
  | inr q ↦ q
]

module _ (w : WorkflowDefinition) (c : Catalog) (storable : IsStorable w) (new : IsNew w c) where
  fits : Fits w.id w.task_definitions [] c.tasks c.dependencies
  fits =
      Ordered-Fits w.id [] w.task_definitions [] c.tasks c.dependencies tt
        (λ i h.
          any_weaker
            (λ (r : TaskDefinitionRow).
              r.workflow_definition_id == w.id || contains r.id (ids_of w.task_definitions))
            (λ r. r.id == i) c.tasks
            (λ r n. not_among r.id i (ids_of w.task_definitions) h (ground arith)) new.tasks)
        (λ k h.
          any_weaker
            (λ (r : TaskDefinitionRow).
              r.workflow_definition_id == w.id || contains r.id (ids_of w.task_definitions))
            (λ r. r.workflow_definition_id == w.id && same r.key k) c.tasks (λ r n. ground arith)
            new.tasks)
        (λ i h.
          ap (from_task i) (append-nil c.dependencies)
          ∙ any_weaker
              (λ (d : DependencyRow). contains d.task_definition_id (ids_of w.task_definitions))
              (λ d. d.task_definition_id == i) c.dependencies
              (λ d n. not_among d.task_definition_id i (ids_of w.task_definitions) h n)
              new.dependencies)
        (λ k h. absurd (false≢true h)) storable.ids storable.names storable.ordered storable.fits

  triggers_saved :
      merge_triggers w.id w.trigger_definitions
        (delete_where (is_stale_trigger w.id (map (λ t. t.id) w.trigger_definitions)) c.triggers)
      ≡ c.triggers ++ map (trigger_to_model w.id) w.trigger_definitions
  triggers_saved =
      ap (merge_triggers w.id w.trigger_definitions) (
        delete_where-false (is_stale_trigger w.id (map (λ t. t.id) w.trigger_definitions))
          c.triggers
          (any_weaker
            (λ (r : TriggerRow).
              r.workflow_definition_id == w.id || contains r.id (trigger_ids w.trigger_definitions))
            (is_stale_trigger w.id (map (λ t. t.id) w.trigger_definitions)) c.triggers
            (λ r n. ground arith) new.triggers))
      ∙ merge_triggers_lem w.id w.trigger_definitions c.triggers
          (λ i h.
            any_weaker
              (λ (r : TriggerRow).
                r.workflow_definition_id == w.id
                || contains r.id (trigger_ids w.trigger_definitions))
              (λ r. r.id == i) c.triggers
              (λ r n. not_among r.id i (trigger_ids w.trigger_definitions) h (ground arith))
              new.triggers)
          storable.triggers

  save_lem : save w c ≡ ok (saved w c)
  unfolding save synchronize_tasks synchronize_triggers
  save_lem =
      let c0 = record c { definitions = upsert row_key (workflow_to_model w) c.definitions } in
      let stale = is_stale_task w.id (map (λ t. t.id) w.task_definitions) in
      ap
        (λ m. (m >>= synchronize_each w.id w.task_definitions []) >>= λ c'.
          ok (synchronize_triggers w c'))
        (delete_tasks_none stale c0 (
          any_weaker
            (λ (r : TaskDefinitionRow).
              r.workflow_definition_id == w.id || contains r.id (ids_of w.task_definitions))
            stale c.tasks (λ r n. ground arith) new.tasks))
      ∙ ap (λ m. m >>= λ c'. ok (synchronize_triggers w c'))
          (synchronize_each_lem w.id w.task_definitions [] c0 fits)
      ∙ ap (λ t. ok (record (saved w c) { triggers = t })) triggers_saved

  own_tasks :
      filter_by (λ (r : TaskDefinitionRow). r.workflow_definition_id == w.id) (saved w c).tasks
      ≡ map (task_to_model w.id) w.task_definitions
  own_tasks =
      filter_by-append (λ (r : TaskDefinitionRow). r.workflow_definition_id == w.id) c.tasks
        (map (task_to_model w.id) w.task_definitions)
      ∙ ap
          (λ l.
            l
            ++ filter_by (λ (r : TaskDefinitionRow). r.workflow_definition_id == w.id)
                (map (task_to_model w.id) w.task_definitions))
          (filter_by_none (λ (r : TaskDefinitionRow). r.workflow_definition_id == w.id) c.tasks
            (any_weaker
              (λ (r : TaskDefinitionRow).
                r.workflow_definition_id == w.id || contains r.id (ids_of w.task_definitions))
              (λ r. r.workflow_definition_id == w.id) c.tasks (λ r n. ground arith) new.tasks))
      ∙ owned w.id w.task_definitions

  own_triggers :
      filter_by (λ (r : TriggerRow). r.workflow_definition_id == w.id) (saved w c).triggers
      ≡ map (trigger_to_model w.id) w.trigger_definitions
  own_triggers =
      filter_by-append (λ (r : TriggerRow). r.workflow_definition_id == w.id) c.triggers
        (map (trigger_to_model w.id) w.trigger_definitions)
      ∙ ap
          (λ l.
            l
            ++ filter_by (λ (r : TriggerRow). r.workflow_definition_id == w.id)
                (map (trigger_to_model w.id) w.trigger_definitions))
          (filter_by_none (λ (r : TriggerRow). r.workflow_definition_id == w.id) c.triggers
            (any_weaker
              (λ (r : TriggerRow).
                r.workflow_definition_id == w.id
                || contains r.id (trigger_ids w.trigger_definitions))
              (λ r. r.workflow_definition_id == w.id) c.triggers (λ r n. ground arith)
              new.triggers))
      ∙ owned_triggers w.id w.trigger_definitions

  looked_up :
      (t : TaskDefinition)
      → In t w.task_definitions
      → dependency_lookup t.id (saved w c) ≡ t.dependencies
  looked_up t i =
      let old : filter_by (λ (d : DependencyRow). d.task_definition_id == t.id) c.dependencies
          ≡ [] =
        filter_by_none (λ (d : DependencyRow). d.task_definition_id == t.id) c.dependencies
          (any_weaker
            (λ (d : DependencyRow). contains d.task_definition_id (ids_of w.task_definitions))
            (λ d. d.task_definition_id == t.id) c.dependencies
            (λ d n.
              not_among d.task_definition_id t.id (ids_of w.task_definitions)
                (contains-ids t w.task_definitions i) n)
            new.dependencies) in
      ap (map (λ (d : DependencyRow). d.depends_on_task_definition_id)) (
        filter_by-append (λ (d : DependencyRow). d.task_definition_id == t.id) c.dependencies
          (all_dependencies w.task_definitions)
        ∙ ap
            (λ l.
              l
              ++ filter_by (λ (d : DependencyRow). d.task_definition_id == t.id)
                  (all_dependencies w.task_definitions))
            old
        ∙ lookup_own t w.task_definitions storable.ids i)
      ∙ targets-dependencies t.id t.dependencies

  load_lem : load w.id (saved w c) ≡ some w
  unfolding load
  load_lem =
      ap
        (λ o. elim o [
          | none ↦ none
          | some r ↦ some (
              workflow_to_domain r
                (map
                  (λ (t : TaskDefinitionRow). task_to_domain t (dependency_lookup t.id (saved w c)))
                  (filter_by (λ (t : TaskDefinitionRow). t.workflow_definition_id == r.id)
                    (saved w c).tasks))
                (map trigger_to_domain (
                  filter_by (λ (t : TriggerRow). t.workflow_definition_id == r.id)
                    (saved w c).triggers)))
        ])
        (find-upsert row_key (workflow_to_model w) c.definitions)
      ∙ ap
          (λ ts. some (
            workflow_to_domain (workflow_to_model w) ts (
              map trigger_to_domain (
                filter_by (λ (t : TriggerRow). t.workflow_definition_id == w.id)
                  (saved w c).triggers))))
          (ap
              (map
                (λ (t : TaskDefinitionRow). task_to_domain t (dependency_lookup t.id (saved w c))))
              own_tasks
            ∙ back w.id (saved w c) w.task_definitions looked_up)
      ∙ ap (λ ts. some (workflow_to_domain (workflow_to_model w) w.task_definitions ts))
          (ap (map trigger_to_domain) own_triggers ∙ triggers_back w.id w.trigger_definitions)

-- A new workflow definition in which each task is listed after those that it depends on, and whose
-- numbers of tries fit into their column of 32 bits, is saved, and
-- it is loaded as it was: every field, the tasks with their dependencies and the triggers, in order.
pub save_then_load :
    (w : WorkflowDefinition) (c : Catalog)
    → IsStorable w
    → IsNew w c
    → (c' : Catalog) × (save w c ≡ ok c') × (load w.id c' ≡ some w)
save_then_load w c storable new = (saved w c, save_lem w c storable new, load_lem w c storable new)
