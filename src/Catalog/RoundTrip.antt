-- ===== src/Catalog/RoundTrip.antt =====
-- What is saved is loaded again.
use mathlib.Core.List.{append_assoc, append-nil}
use automation_platform.Base.{
  ℕ, ◌≡◌, refl, Bool, true, false, ◌||◌, some, List, [], ◌∷◌, ◌++◌, map, any, filter_by, contains,
  arith, ◌==◌, if◌then◌else◌, inl, inr, sym, ap, ◌∙◌, subst, Bool-cases, ==_refl,
}
use automation_platform.Domain.{Uuid, TaskDefinition, TriggerDefinition, WorkflowDefinition}
use automation_platform.Table.{find, In, delete_where}
use automation_platform.Texts.{Distinct}
use automation_platform.Triggers.{TriggerRow, trigger_key}
use automation_platform.Catalog.{
  Catalog, TaskDefinitionRow, DependencyRow, task_to_model, task_to_domain, trigger_to_model,
  trigger_to_domain, dependency_to_model, dependencies_to_models, upsert, merge_triggers,
  dependency_lookup,
}
use automation_platform.Catalog.Order.{AllFit, ids_of}
use automation_platform.Catalog.Saving.{all_dependencies}
use automation_platform.Catalog.Fitting.{Once, Ordered, names_of, other_id, any-append}

abbrev pub trigger_ids : List TriggerDefinition → List Uuid
trigger_ids = map (λ t. t.id)

-- The definition can be stored: ids and keys are distinct, and each task is listed after those that it
-- depends on, and the numbers of tries fit into their column.
pub record IsStorable (w : WorkflowDefinition) : Type 0 where
  pub ids : Once (ids_of w.task_definitions)
  pub names : Distinct (names_of w.task_definitions)
  pub ordered : Ordered [] w.task_definitions
  pub triggers : Once (trigger_ids w.trigger_definitions)
  pub fits : AllFit w.task_definitions

-- No row has, or refers to, an id of the definition, its tasks or its triggers.
pub record IsNew (w : WorkflowDefinition) (c : Catalog) : Type 0 where
  pub tasks :
      any
        (λ (r : TaskDefinitionRow).
          r.workflow_definition_id == w.id || contains r.id (ids_of w.task_definitions))
        c.tasks
      ≡ false
  pub dependencies :
      any
        (λ (d : DependencyRow). contains d.task_definition_id (ids_of w.task_definitions))
        c.dependencies
      ≡ false
  pub triggers :
      any
        (λ (r : TriggerRow).
          r.workflow_definition_id == w.id || contains r.id (trigger_ids w.trigger_definitions))
        c.triggers
      ≡ false

module _ {A : Type 0} where
  -- A weaker test fails too.
  pub any_weaker :
      (p q : A → Bool) (xs : List A)
      → ((x : A) → p x ≡ false → q x ≡ false)
      → any p xs ≡ false
      → any q xs ≡ false
  any_weaker p q [] h e = refl
  any_weaker p q (x ∷ xs) h e =
      let a = h x (ground arith) in let b = any_weaker p q xs h (ground arith) in ground arith

  pub filter_by_none : (p : A → Bool) (xs : List A) → any p xs ≡ false → filter_by p xs ≡ []
  filter_by_none p [] h = refl
  filter_by_none p (x ∷ xs) h = ground (arith, filter_by_none p xs)

  pub filter_by-append :
      (p : A → Bool) (xs ys : List A) → filter_by p (xs ++ ys) ≡ filter_by p xs ++ filter_by p ys
  filter_by-append p [] ys = refl
  filter_by-append p (x ∷ xs) ys = elim (Bool-cases (p x)) [
    | inl t ↦ rw t (ap (λ l. x ∷ l) (filter_by-append p xs ys))
    | inr f ↦ rw f (filter_by-append p xs ys)
  ]

  pub delete_where-false : (p : A → Bool) (xs : List A) → any p xs ≡ false → delete_where p xs ≡ xs
  delete_where-false p [] h = refl
  delete_where-false p (x ∷ xs) h =
      let n : p x ≡ false = ground arith in
      rw n (ap (λ l. x ∷ l) (delete_where-false p xs (ground arith)))

  pub find-upsert :
      (key : A → ℕ) (r : A) (xs : List A) → find key (key r) (upsert key r xs) ≡ some r
  find-upsert key r [] = ground arith
  find-upsert key r (x ∷ xs) = ground (arith, find-upsert key r xs)

-- The dependencies that are looked up are those of the task.
filter-dependencies :
    (i j : Uuid) (ks : List Uuid)
    → filter_by (λ (d : DependencyRow). d.task_definition_id == i) (map (dependency_to_model j) ks)
      ≡ (if j == i then map (dependency_to_model j) ks else [])
filter-dependencies i j [] = ground arith
filter-dependencies i j (k ∷ ks) = ground (arith, filter-dependencies i j ks)

own_dependencies :
    (i j : Uuid) (ks : List Uuid)
    → (j == i) ≡ true
    → filter_by (λ (d : DependencyRow). d.task_definition_id == i) (map (dependency_to_model j) ks)
      ≡ map (dependency_to_model j) ks
own_dependencies i j ks h =
    filter-dependencies i j ks ∙ ap (λ b. if b then map (dependency_to_model j) ks else []) h

other_dependencies :
    (i j : Uuid) (ks : List Uuid)
    → (j == i) ≡ false
    → filter_by (λ (d : DependencyRow). d.task_definition_id == i) (map (dependency_to_model j) ks)
      ≡ []
other_dependencies i j ks h =
    filter-dependencies i j ks ∙ ap (λ b. if b then map (dependency_to_model j) ks else []) h

pub targets-dependencies :
    (i : Uuid) (ks : List Uuid)
    → map (λ (d : DependencyRow). d.depends_on_task_definition_id) (map (dependency_to_model i) ks)
      ≡ ks
targets-dependencies i [] = refl
targets-dependencies i (k ∷ ks) = ap (λ l. k ∷ l) (targets-dependencies i ks)

lookup_absent :
    (i : Uuid) (ts : List TaskDefinition)
    → contains i (ids_of ts) ≡ false
    → filter_by (λ (d : DependencyRow). d.task_definition_id == i) (all_dependencies ts) ≡ []
lookup_absent i [] h = refl
lookup_absent i (t ∷ ts) h =
    let n : (t.id == i) ≡ false = ground arith in
    filter_by-append (λ (d : DependencyRow). d.task_definition_id == i) (dependencies_to_models t)
      (all_dependencies ts)
    ∙ ap
        (λ l.
          l ++ filter_by (λ (d : DependencyRow). d.task_definition_id == i) (all_dependencies ts))
        (other_dependencies i t.id t.dependencies n)
    ∙ lookup_absent i ts (ground arith)

pub contains-ids :
    (t : TaskDefinition) (ts : List TaskDefinition) → In t ts → contains t.id (ids_of ts) ≡ true
contains-ids t [] i = absurd i
contains-ids t (x ∷ ts) (inl e) = let q = ap (λ y. y.id) e in ground arith
contains-ids t (x ∷ ts) (inr i) = ground (arith, contains-ids t ts i)

pub lookup_own :
    (t : TaskDefinition) (ts : List TaskDefinition)
    → Once (ids_of ts)
    → In t ts
    → filter_by (λ (d : DependencyRow). d.task_definition_id == t.id) (all_dependencies ts)
      ≡ dependencies_to_models t
lookup_own t [] o i = absurd i
lookup_own t (x ∷ ts) (n, o) (inl e) =
    let q : (x.id == t.id) ≡ true = let y = ap (λ y. y.id) e in ground arith in
    filter_by-append (λ (d : DependencyRow). d.task_definition_id == t.id)
      (dependencies_to_models x) (all_dependencies ts)
    ∙ ap
        (λ l.
          l
          ++ filter_by (λ (d : DependencyRow). d.task_definition_id == t.id) (all_dependencies ts))
        (own_dependencies t.id x.id x.dependencies q)
    ∙ ap (λ l. dependencies_to_models x ++ l)
        (lookup_absent t.id ts (subst (λ y. contains y.id (ids_of ts) ≡ false) (sym e) n))
    ∙ append-nil (dependencies_to_models x)
    ∙ ap dependencies_to_models (sym e)
lookup_own t (x ∷ ts) (n, o) (inr i) =
    let q : (x.id == t.id) ≡ false = other_id x.id t.id (ids_of ts) n (contains-ids t ts i) in
    filter_by-append (λ (d : DependencyRow). d.task_definition_id == t.id)
      (dependencies_to_models x) (all_dependencies ts)
    ∙ ap
        (λ l.
          l
          ++ filter_by (λ (d : DependencyRow). d.task_definition_id == t.id) (all_dependencies ts))
        (other_dependencies t.id x.id x.dependencies q)
    ∙ lookup_own t ts o i

-- The rows of the tasks, mapped back.
pub back :
    (w : Uuid) (c : Catalog) (ts : List TaskDefinition)
    → ((t : TaskDefinition) → In t ts → dependency_lookup t.id c ≡ t.dependencies)
    → map
        (λ (r : TaskDefinitionRow). task_to_domain r (dependency_lookup r.id c))
        (map (task_to_model w) ts)
      ≡ ts
back w c [] h = refl
back w c (t ∷ ts) h =
    ap
      (λ d.
        task_to_domain (task_to_model w t) d
        ∷ map (λ (r : TaskDefinitionRow). task_to_domain r (dependency_lookup r.id c))
            (map (task_to_model w) ts))
      (h t (inl refl))
    ∙ ap (λ l. t ∷ l) (back w c ts (λ u i. h u (inr i)))

pub owned :
    (w : Uuid) (ts : List TaskDefinition)
    → filter_by
        (λ (r : TaskDefinitionRow). r.workflow_definition_id == w)
        (map (task_to_model w) ts)
      ≡ map (task_to_model w) ts
owned w [] = refl
owned w (t ∷ ts) = let q = ==_refl w in rw q (ap (λ l. task_to_model w t ∷ l) (owned w ts))

pub owned_triggers :
    (w : Uuid) (ts : List TriggerDefinition)
    → filter_by (λ (r : TriggerRow). r.workflow_definition_id == w) (map (trigger_to_model w) ts)
      ≡ map (trigger_to_model w) ts
owned_triggers w [] = refl
owned_triggers w (t ∷ ts) =
    let q = ==_refl w in rw q (ap (λ l. trigger_to_model w t ∷ l) (owned_triggers w ts))

pub triggers_back :
    (w : Uuid) (ts : List TriggerDefinition)
    → map trigger_to_domain (map (trigger_to_model w) ts) ≡ ts
triggers_back w [] = refl
triggers_back w (t ∷ ts) = ap (λ l. t ∷ l) (triggers_back w ts)

upsert_trigger :
    (r : TriggerRow) (rows : List TriggerRow)
    → any (λ (x : TriggerRow). x.id == r.id) rows ≡ false
    → upsert trigger_key r rows ≡ rows ++ r ∷ []
upsert_trigger r [] h = refl
upsert_trigger r (x ∷ rows) h =
    let n : (r.id == x.id) ≡ false = ground arith in
    rw n (ap (λ l. x ∷ l) (upsert_trigger r rows (ground arith)))

pub merge_triggers_lem :
    (w : Uuid) (ts : List TriggerDefinition) (rows : List TriggerRow)
    → ((i : Uuid)
        → contains i (trigger_ids ts) ≡ true
        → any (λ (x : TriggerRow). x.id == i) rows ≡ false)
    → Once (trigger_ids ts)
    → merge_triggers w ts rows ≡ rows ++ map (trigger_to_model w) ts
unfolding merge_triggers
merge_triggers_lem w [] rows h o = sym (append-nil rows)
merge_triggers_lem w (t ∷ ts) rows h (n, o) =
    let r = trigger_to_model w t in
    ap (merge_triggers w ts) (upsert_trigger r rows (h t.id (ground arith)))
    ∙ merge_triggers_lem w ts (rows ++ r ∷ [])
        (λ i e.
          let a = h i (ground arith) in
          let d = other_id t.id i (trigger_ids ts) n e in
          any-append (λ (x : TriggerRow). x.id == i) rows (r ∷ []) ∙ ground arith)
        o
    ∙ append_assoc rows (r ∷ []) (map (trigger_to_model w) ts)
