-- ===== src/Catalog/Saving.antt =====
-- Saving the tasks of a new workflow definition: what the statements leave in the tables.
use mathlib.Core.List.{append_assoc, append-nil}
use automation_platform.Base.{
  ◌≡◌, refl, Bool, true, false, ◌||◌, List, [], ◌∷◌, ◌++◌, map, any, arith, ◌==◌, sym, ap, ◌∙◌,
}
use automation_platform.Domain.{Uuid, TaskDefinition}
use automation_platform.Errors.{ok, ◌>>=◌}
use automation_platform.Table.{delete_where, fits_integer}
use automation_platform.Catalog.{
  Catalog, TaskDefinitionRow, DependencyRow, task_row_key, task_to_model, dependencies_to_models,
  upsert, clashes, flush_task, equal_dependency, flush_dependency, flush_dependencies, flush,
  delete_dependencies, synchronize_each,
}

-- The dependency rows of the tasks, in their order.
abbrev pub all_dependencies : List TaskDefinition → List DependencyRow
all_dependencies [] = []
all_dependencies (t ∷ ts) = dependencies_to_models t ++ all_dependencies ts

abbrev pub stored : Uuid → List TaskDefinitionRow → Bool
stored i rows = any (λ (r : TaskDefinitionRow). r.id == i) rows

abbrev pub from_task : Uuid → List DependencyRow → Bool
from_task i rows = any (λ (d : DependencyRow). d.task_definition_id == i) rows

-- The pending dependencies are new, and the tasks that they refer to are there.
abbrev pub Insertable : List DependencyRow → List TaskDefinitionRow → List DependencyRow → Type 0
Insertable [] rows deps = Unit
Insertable (r ∷ rs) rows deps =
    (any (equal_dependency r) deps ≡ false)
    × (stored r.task_definition_id rows ≡ true)
    × (stored r.depends_on_task_definition_id rows ≡ true)
    × Insertable rs rows (deps ++ r ∷ [])

-- Each statement of the loop finds what it needs.
abbrev pub Fits :
    Uuid
    → List TaskDefinition
    → List DependencyRow
    → List TaskDefinitionRow
    → List DependencyRow
    → Type 0
Fits w [] pending rows deps = Insertable pending rows deps
Fits w (t ∷ ts) pending rows deps =
    Insertable pending rows deps
    × (stored t.id rows ≡ false)
    × (fits_integer t.max_tries ≡ true)
    × (any (clashes (task_to_model w t)) rows ≡ false)
    × (from_task t.id (deps ++ pending) ≡ false)
    × Fits w ts (dependencies_to_models t) (rows ++ task_to_model w t ∷ []) (deps ++ pending)

pub upsert_new :
    (r : TaskDefinitionRow) (rows : List TaskDefinitionRow)
    → stored r.id rows ≡ false
    → upsert task_row_key r rows ≡ rows ++ r ∷ []
upsert_new r [] h = refl
upsert_new r (x ∷ rows) h =
    let n : (r.id == x.id) ≡ false = ground arith in
    rw n (ap (λ l. x ∷ l) (upsert_new r rows (ground arith)))

pub stored-append :
    (i : Uuid) (rows more : List TaskDefinitionRow)
    → stored i (rows ++ more) ≡ (stored i rows || stored i more)
stored-append i [] more = refl
stored-append i (x ∷ rows) more = ground (arith, stored-append i rows more)

flush_dependencies_lem :
    (rs : List DependencyRow) (c : Catalog)
    → Insertable rs c.tasks c.dependencies
    → flush_dependencies rs c ≡ ok (record c { dependencies = c.dependencies ++ rs })
unfolding flush_dependencies flush_dependency
flush_dependencies_lem [] c h =
    ap (λ d. ok (record c { dependencies = d })) (sym (append-nil c.dependencies))
flush_dependencies_lem (r ∷ rs) c (n, a, b, h) =
    rw (n, a, b)
      (flush_dependencies_lem rs (record c { dependencies = c.dependencies ++ r ∷ [] }) h
        ∙ ap (λ d. ok (record c { dependencies = d })) (append_assoc c.dependencies (r ∷ []) rs))

flush_task_lem :
    (r : TaskDefinitionRow) (c : Catalog)
    → stored r.id c.tasks ≡ false
    → fits_integer r.max_tries ≡ true
    → any (clashes r) c.tasks ≡ false
    → flush_task r c ≡ ok (record c { tasks = c.tasks ++ r ∷ [] })
unfolding flush_task
flush_task_lem r c n m u =
    rw (m, u) (ap (λ rows. ok (record c { tasks = rows })) (upsert_new r c.tasks n))

flush_lem :
    (r : TaskDefinitionRow) (pending : List DependencyRow) (c : Catalog)
    → Insertable pending c.tasks c.dependencies
    → stored r.id c.tasks ≡ false
    → fits_integer r.max_tries ≡ true
    → any (clashes r) c.tasks ≡ false
    → flush r pending c
      ≡ ok (record c { tasks = c.tasks ++ r ∷ []; dependencies = c.dependencies ++ pending })
unfolding flush
flush_lem r pending c h n m u =
    ap (λ m. m >>= flush_task r) (flush_dependencies_lem pending c h)
    ∙ flush_task_lem r (record c { dependencies = c.dependencies ++ pending }) n m u

delete_none :
    (i : Uuid) (deps : List DependencyRow)
    → from_task i deps ≡ false
    → delete_where (λ (r : DependencyRow). r.task_definition_id == i) deps ≡ deps
delete_none i [] h = refl
delete_none i (d ∷ deps) h =
    let n : (d.task_definition_id == i) ≡ false = ground arith in
    rw n (ap (λ l. d ∷ l) (delete_none i deps (ground arith)))

pub synchronize_each_lem :
    (w : Uuid) (ts : List TaskDefinition) (pending : List DependencyRow) (c : Catalog)
    → Fits w ts pending c.tasks c.dependencies
    → synchronize_each w ts pending c
      ≡ ok (record c {
        tasks = c.tasks ++ map (task_to_model w) ts;
        dependencies = c.dependencies ++ (pending ++ all_dependencies ts);
      })
unfolding synchronize_each
synchronize_each_lem w [] pending c h =
    flush_dependencies_lem pending c h
    ∙ ap (λ d. ok (record c { dependencies = d }))
        (ap (λ p. c.dependencies ++ p) (sym (append-nil pending)))
    ∙ ap (λ t. ok (record c { tasks = t; dependencies = c.dependencies ++ (pending ++ []) }))
        (sym (append-nil c.tasks))
synchronize_each_lem w (t ∷ ts) pending c (h, n, m, u, f, rest) =
    let r = task_to_model w t in
    let c1 = record c { tasks = c.tasks ++ r ∷ []; dependencies = c.dependencies ++ pending } in
    ap
      (λ m.
        m >>= λ c'. synchronize_each w ts (dependencies_to_models t) (delete_dependencies t.id c'))
      (flush_lem r pending c h n m u)
    ∙ ap (λ d. synchronize_each w ts (dependencies_to_models t) (record c1 { dependencies = d }))
        (delete_none t.id (c.dependencies ++ pending) f)
    ∙ synchronize_each_lem w ts (dependencies_to_models t) c1 rest
    ∙ ap
        (λ l. ok (record c {
          tasks = l;
          dependencies =
              (c.dependencies ++ pending) ++ (dependencies_to_models t ++ all_dependencies ts);
        }))
        (append_assoc c.tasks (r ∷ []) (map (task_to_model w) ts))
    ∙ ap
        (λ l. ok (record c { tasks = c.tasks ++ (r ∷ map (task_to_model w) ts); dependencies = l }))
        (append_assoc c.dependencies pending (dependencies_to_models t ++ all_dependencies ts))
