-- ===== src/Catalog/Order.antt =====
-- A dependency on a task that is listed later cannot be saved.
use mathlib.Core.Bool.{false≢true}
use automation_platform.Base.{
  ◌≡◌, refl, Bool, true, false, not, ◌&&◌, ◌||◌, List, [], ◌∷◌, ◌++◌, map, any, contains, arith,
  ◌==◌, inl, inr, ◌⊎◌, ap, ◌∙◌, subst, Bool-cases,
}
use automation_platform.Domain.{Uuid, TaskDefinition, WorkflowDefinition}
use automation_platform.Errors.{Result, ok, raised, integrity_error, ◌>>=◌}
use automation_platform.Table.{delete_where, fits_integer, In}
use automation_platform.Catalog.{
  Catalog, TaskDefinitionRow, DependencyRow, task_row_key, task_to_model, dependency_to_model,
  dependencies_to_models, workflow_to_model, row_key, upsert, clashes, flush_task, has_task,
  equal_dependency, flush_dependency, flush_dependencies, flush, delete_dependencies, is_stale_task,
  mentions, delete_tasks, synchronize_each, synchronize_tasks, synchronize_triggers, save,
}

-- The ids of the listed tasks.
abbrev pub ids_of : List TaskDefinition → List Uuid
ids_of = map (λ t. t.id)

-- The numbers of tries fit into their column.
abbrev pub AllFit : List TaskDefinition → Type 0
AllFit ts = (t : TaskDefinition) → In t ts → fits_integer t.max_tries ≡ true

pub has_task-upsert :
    (i : Uuid) (r : TaskDefinitionRow) (rows : List TaskDefinitionRow)
    → any (λ (x : TaskDefinitionRow). x.id == i) (upsert task_row_key r rows)
      ≡ ((i == r.id) || any (λ (x : TaskDefinitionRow). x.id == i) rows)
has_task-upsert i r [] = ground arith
has_task-upsert i r (x ∷ rows) = ground (arith, has_task-upsert i r rows)

flush_task_cases :
    (r : TaskDefinitionRow) (c : Catalog)
    → fits_integer r.max_tries ≡ true
    → (flush_task r c ≡ raised integrity_error)
      ⊎ ((c' : Catalog) × (flush_task r c ≡ ok c')
          × ((i : Uuid) → has_task i c' ≡ ((i == r.id) || has_task i c)))
unfolding flush_task
flush_task_cases r c fit = elim (Bool-cases (any (clashes r) c.tasks)) [
  | inl t ↦ inl (rw (fit, t) refl)
  | inr f ↦ inr (
    record c { tasks = upsert task_row_key r c.tasks },
    rw (fit, f) refl,
    λ i. has_task-upsert i r c.tasks,
  )
]

-- The foreign keys of a dependency.
abbrev unresolved : DependencyRow → Catalog → Bool
unresolved r c = not (has_task r.task_definition_id c && has_task r.depends_on_task_definition_id c)

flush_dependencies_cases :
    (rs : List DependencyRow) (c : Catalog)
    → (flush_dependencies rs c ≡ raised integrity_error)
      ⊎ ((c' : Catalog) × (flush_dependencies rs c ≡ ok c') × (c'.tasks ≡ c.tasks))
unfolding flush_dependencies flush_dependency
flush_dependencies_cases [] c = inr (c, refl, refl)
flush_dependencies_cases (r ∷ rs) c = elim (Bool-cases (any (equal_dependency r) c.dependencies)) [
  | inl t ↦ rw t (flush_dependencies_cases rs c)
  | inr f ↦ elim (Bool-cases (unresolved r c)) [
    | inl t ↦ inl (rw (f, t) refl)
    | inr g ↦
        rw (f, g)
          (flush_dependencies_cases rs (record c { dependencies = c.dependencies ++ r ∷ [] }))
  ]
]

flush_cases :
    (r : TaskDefinitionRow) (pending : List DependencyRow) (c : Catalog)
    → fits_integer r.max_tries ≡ true
    → (flush r pending c ≡ raised integrity_error)
      ⊎ ((c' : Catalog) × (flush r pending c ≡ ok c')
          × ((i : Uuid) → has_task i c' ≡ ((i == r.id) || has_task i c)))
unfolding flush
flush_cases r pending c fit = elim (flush_dependencies_cases pending c) [
  | inl e ↦ inl (ap (λ m. m >>= flush_task r) e)
  | inr (c1, e1, s) ↦ elim (flush_task_cases r c1 fit) [
    | inl e ↦ inl (ap (λ m. m >>= flush_task r) e1 ∙ e)
    | inr (c2, e2, h2) ↦ inr (
      c2,
      ap (λ m. m >>= flush_task r) e1 ∙ e2,
      λ i. h2 i ∙ ap (λ rows. (i == r.id) || any (λ (x : TaskDefinitionRow). x.id == i) rows) s,
    )
  ]
]

any-snoc :
    {A : Type 0} (p : A → Bool) (xs : List A) (x : A) → any p (xs ++ x ∷ []) ≡ (any p xs || p x)
any-snoc p [] x = ground arith
any-snoc p (y ∷ xs) x = ground (arith, any-snoc p xs x)

-- A dependency on a task that is not there is refused, if it is not there already.
flush_dependencies_missing :
    (t k : Uuid) (ks : List Uuid) (c : Catalog)
    → has_task k c ≡ false
    → any (equal_dependency (dependency_to_model t k)) c.dependencies ≡ false
    → contains k ks ≡ true
    → flush_dependencies (map (dependency_to_model t) ks) c ≡ raised integrity_error
unfolding flush_dependencies flush_dependency
flush_dependencies_missing t k [] c n d h = absurd (false≢true h)
flush_dependencies_missing t k (x ∷ ks) c n d h = elim (Bool-cases (k == x)) [
  | inl q ↦
      let e : k ≡ x = ground arith in
      let d' : any (equal_dependency (dependency_to_model t x)) c.dependencies ≡ false =
        subst (λ y. any (equal_dependency (dependency_to_model t y)) c.dependencies ≡ false) e d in
      let n' : has_task x c ≡ false = subst (λ y. has_task y c ≡ false) e n in
      let u : unresolved (dependency_to_model t x) c ≡ true = ground arith in rw (d', u) refl
  | inr ne ↦
      let more = flush_dependencies_missing t k ks in
      elim (Bool-cases (any (equal_dependency (dependency_to_model t x)) c.dependencies)) [
        | inl b ↦ rw b (more c n d (rw ne at h))
        | inr b ↦ elim (Bool-cases (unresolved (dependency_to_model t x) c)) [
          | inl u ↦ rw (b, u) refl
          | inr u ↦
              let other : (x == k) ≡ false = ground arith in
              rw (b, u)
                (more (record c { dependencies = c.dependencies ++ dependency_to_model t x ∷ [] }) n
                  (any-snoc (equal_dependency (dependency_to_model t k)) c.dependencies
                      (dependency_to_model t x)
                    ∙ ground arith)
                  (rw ne at h))
        ]
      ]
]

-- After the DELETE of its dependencies, a task has none.
none_left :
    (t k : Uuid) (deps : List DependencyRow)
    → any
        (equal_dependency (dependency_to_model t k))
        (delete_where (λ (r : DependencyRow). r.task_definition_id == t) deps)
      ≡ false
none_left t k [] = refl
none_left t k (d ∷ deps) = ground (arith, none_left t k deps)

-- The next merge, or the end of the loop, writes the pending dependencies.
synchronize_each_missing :
    (w : Uuid) (ts : List TaskDefinition) (t k : Uuid) (ks : List Uuid) (c : Catalog)
    → has_task k c ≡ false
    → any (equal_dependency (dependency_to_model t k)) c.dependencies ≡ false
    → contains k ks ≡ true
    → synchronize_each w ts (map (dependency_to_model t) ks) c ≡ raised integrity_error
unfolding synchronize_each flush
synchronize_each_missing w [] t k ks c n d h = flush_dependencies_missing t k ks c n d h
synchronize_each_missing w (u ∷ ts) t k ks c n d h =
    ap
      (λ m. (m >>= flush_task (task_to_model w u)) >>= λ c'.
        synchronize_each w ts (dependencies_to_models u) (delete_dependencies u.id c'))
      (flush_dependencies_missing t k ks c n d h)

synchronize_each_late :
    (w : Uuid) (before : List TaskDefinition) (t : TaskDefinition) (after : List TaskDefinition)
    (k : Uuid) (pending : List DependencyRow) (c : Catalog)
    → AllFit (before ++ t ∷ after)
    → contains k t.dependencies ≡ true
    → has_task k c ≡ false
    → contains k (ids_of (before ++ t ∷ [])) ≡ false
    → synchronize_each w (before ++ t ∷ after) pending c ≡ raised integrity_error
unfolding synchronize_each
synchronize_each_late w [] t after k pending c fit dep n new =
    let next = λ (m : Result Catalog). m >>= λ c'.
    synchronize_each w after (dependencies_to_models t) (delete_dependencies t.id c') in
    elim (flush_cases (task_to_model w t) pending c (fit t (inl refl))) [
      | inl e ↦ ap next e
      | inr (c1, e1, h1) ↦
          ap next e1
          ∙ synchronize_each_missing w after t.id k t.dependencies (delete_dependencies t.id c1)
              (h1 k ∙ ground arith) (none_left t.id k c1.dependencies) dep
    ]
synchronize_each_late w (x ∷ before) t after k pending c fit dep n new =
    let next = λ (m : Result Catalog). m >>= λ c'.
    synchronize_each w (before ++ t ∷ after) (dependencies_to_models x)
      (delete_dependencies x.id c') in
    elim (flush_cases (task_to_model w x) pending c (fit x (inl refl))) [
      | inl e ↦ ap next e
      | inr (c1, e1, h1) ↦
          ap next e1
          ∙ synchronize_each_late w before t after k (dependencies_to_models x)
              (delete_dependencies x.id c1) (λ y i. fit y (inr i)) dep (h1 k ∙ ground arith)
              (ground arith)
    ]

any-delete_where :
    (i : Uuid) (p : TaskDefinitionRow → Bool) (rows : List TaskDefinitionRow)
    → any (λ (x : TaskDefinitionRow). x.id == i) rows ≡ false
    → any (λ (x : TaskDefinitionRow). x.id == i) (delete_where p rows) ≡ false
any-delete_where i p [] h = refl
any-delete_where i p (x ∷ rows) h = ground (arith, any-delete_where i p rows)

delete_tasks_cases :
    (p : TaskDefinitionRow → Bool) (k : Uuid) (c : Catalog)
    → has_task k c ≡ false
    → (delete_tasks p c ≡ raised integrity_error)
      ⊎ ((c' : Catalog) × (delete_tasks p c ≡ ok c') × (has_task k c' ≡ false))
unfolding delete_tasks
delete_tasks_cases p k c n = elim (Bool-cases (mentions p c)) [
  | inl t ↦ inl (rw t refl)
  | inr f ↦
      inr (record c { tasks = delete_where p c.tasks }, rw f refl, any-delete_where k p c.tasks n)
]

-- A new workflow definition in which a task depends on a task that is listed after it, or nowhere,
-- cannot be saved: the dependency is written by the merge of the next task, or at the end, while the
-- task that it refers to is not there. The numbers of tries fit into their column.
pub late_dependency_raises :
    (w : WorkflowDefinition) (c : Catalog) (before : List TaskDefinition) (t : TaskDefinition)
    (after : List TaskDefinition) (k : Uuid)
    → AllFit w.task_definitions
    → w.task_definitions ≡ before ++ t ∷ after
    → contains k t.dependencies ≡ true
    → has_task k c ≡ false
    → contains k (ids_of (before ++ t ∷ [])) ≡ false
    → save w c ≡ raised integrity_error
unfolding save synchronize_tasks
late_dependency_raises w c before t after k fit e dep n new =
    let c0 = record c { definitions = upsert row_key (workflow_to_model w) c.definitions } in
    let stale = is_stale_task w.id (map (λ t. t.id) w.task_definitions) in
    let each = synchronize_each w.id w.task_definitions [] in
    let finish = λ (m : Result Catalog). m >>= λ c'. ok (synchronize_triggers w c') in
    elim (delete_tasks_cases stale k c0 n) [
      | inl r ↦ ap (λ m. finish (m >>= each)) r
      | inr (c1, r, m) ↦
          ap (λ m. finish (m >>= each)) r
          ∙ ap (λ ts. finish (synchronize_each w.id ts [] c1)) e
          ∙ ap finish
              (synchronize_each_late w.id before t after k [] c1 (subst AllFit e fit) dep m new)
    ]
