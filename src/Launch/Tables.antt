-- ===== src/Launch/Tables.antt =====
-- The rows of a started execution beside the rows that were there.
use automation_platform.Base.{
  true, ℕ, ◌<◌, ◌≡◌, ◌≢◌, refl, false, Option, none, some, List, [], ◌∷◌, ◌++◌, map, arith, sym, ap,
  ◌∙◌, inl, inr, ◌⊎◌, ◌==◌, Bool-cases, count, subst, length,
}
use automation_platform.Domain.{Uuid, TaskStatus, TaskDefinition, TaskExecution}
use automation_platform.Errors.{ok}
use automation_platform.Table.{fits_integer, find, key-find, In, UniqueKeys}
use automation_platform.Executions.{TaskRow, Store, task, task_key, is_completed}
use automation_platform.Executions.Invariant.{done, is_done, unmet}
use automation_platform.Launch.{create_child_task_lookup, items, task_to_model}
use automation_platform.Launch.Lookup.{Dict, lookup, item}
use automation_platform.Launch.Rows.{Executes, Executions}
use automation_platform.Launch.Storage.{find-append_rows}
use automation_platform.Launch.Ids.{
  Separates, lookup-item, count-items, count-items_other, unmet-items,
}
use automation_platform.Launch.Children.{
  definition_key, create_child_task_lookup_lem, create_child_task_lookup_other,
}

-- The values of `uuid4()` are distinct, and no row of the tables mentions them.
pub record AreFresh (fresh : ℕ → Uuid) (s : Store) : Type 0 where
  pub distinct : (m n : ℕ) → fresh m ≡ fresh n → m ≡ n
  pub absent : (m : ℕ) → task (fresh m) s ≡ none
  pub no_parent :
      (m : ℕ) (i : Uuid) (r : TaskRow) → task i s ≡ some r → count (fresh m) r.parent_task_ids ≡ 0
  pub no_child :
      (m : ℕ) (i : Uuid) (r : TaskRow) → task i s ≡ some r → count (fresh m) r.child_task_ids ≡ 0

-- The tasks of the definition have distinct identifiers, and each may be tried.
pub record IsExecutable (ts : List TaskDefinition) : Type 0 where
  pub unique : UniqueKeys definition_key ts
  pub tries : (t : TaskDefinition) → In t ts → 0 < t.max_tries

-- The numbers of dependencies and of tries fit into the columns of the executions.
abbrev pub FitColumns : List TaskDefinition → Type 0
FitColumns ts =
    (t : TaskDefinition)
    → In t ts
    → (fits_integer (length t.dependencies) ≡ true) × (fits_integer t.max_tries ≡ true)

-- `r` is the row of one of the new executions, that of `t`.
pub record Added (w : Uuid) (ids : Dict Uuid) (kids : Dict (List Uuid)) (ts : List TaskDefinition)
    (r : TaskRow) : Type 0 where
  pub definition : TaskDefinition
  pub among : In definition ts
  pub own : item definition.id ids ≡ ok r.id
  pub parents : items definition.dependencies ids ≡ ok r.parent_task_ids
  pub children : item definition.id kids ≡ ok r.child_task_ids
  pub waiting : r.status ≡ TaskStatus.pending
  pub counter : r.remaining_dependencies ≡ length definition.dependencies
  pub tries : r.remaining_tries ≡ definition.max_tries
  pub owner : r.workflow_execution_id ≡ w

Executes-Added :
    (w : Uuid) (ids : Dict Uuid) (kids : Dict (List Uuid)) (ts : List TaskDefinition)
    (t : TaskDefinition) (e : TaskExecution)
    → In t ts
    → Executes w ids kids t e
    → Added w ids kids ts (task_to_model e)
Executes-Added w ids kids ts t e i x = record {
  definition = t;
  among = i;
  own = x.own;
  parents = x.parents;
  children = x.children;
  waiting = ap (λ y. y.status) x.rest;
  counter = ap (λ y. y.remaining_dependencies) x.rest;
  tries = ap (λ y. y.remaining_tries) x.rest;
  owner = ap (λ y. y.workflow_execution_id) x.rest;
}

pub Added-find :
    (w : Uuid) (ids : Dict Uuid) (kids : Dict (List Uuid)) (all ts : List TaskDefinition)
    (es : List TaskExecution) (k : Uuid) (r : TaskRow)
    → ((t : TaskDefinition) → In t ts → In t all)
    → Executions w ids kids ts es
    → find task_key k (map task_to_model es) ≡ some r
    → Added w ids kids all r
Added-find w ids kids all [] [] k r sub x h = cc
Added-find w ids kids all [] (e ∷ es) k r sub x h = absurd x
Added-find w ids kids all (t ∷ ts) [] k r sub x h = absurd x
Added-find w ids kids all (t ∷ ts) (e ∷ es) k r sub (x, rest) h = elim (Bool-cases (k == e.id)) [
  | inl b ↦
      let eq : task_to_model e ≡ r = ground arith in
      subst (Added w ids kids all) eq (Executes-Added w ids kids all t e (sub t (inl refl)) x)
  | inr b ↦ Added-find w ids kids all ts es k r (λ t i. sub t (inr i)) rest (ground arith)
]

-- A start on the tables `s` that leaves the tables `s'`.
pub record Launching (s s' : Store) (w : Uuid) (ids : Dict Uuid) (kids : Dict (List Uuid))
    (ts : List TaskDefinition) (es : List TaskExecution) : Type 0 where
  pub executions : Executions w ids kids ts es
  pub executable : IsExecutable ts
  pub children : create_child_task_lookup ts ids ≡ ok kids
  pub separates : Separates ids
  pub tasks : s'.tasks ≡ s.tasks ++ map task_to_model es
  pub absent : (a i : Uuid) → lookup a ids ≡ some i → task i s ≡ none
  pub no_parent :
      (a i j : Uuid) (r : TaskRow)
      → lookup a ids ≡ some i
      → task j s ≡ some r
      → count i r.parent_task_ids ≡ 0
  pub no_child :
      (a i j : Uuid) (r : TaskRow)
      → lookup a ids ≡ some i
      → task j s ≡ some r
      → count i r.child_task_ids ≡ 0

module _ (s s' : Store) (w : Uuid) (ids : Dict Uuid) (kids : Dict (List Uuid))
    (ts : List TaskDefinition) (es : List TaskExecution) (l : Launching s s' w ids kids ts es) where
  rows :
      (k : Uuid)
      → task k s'
        ≡ (elim (task k s) [ none ↦ find task_key k (map task_to_model es) | some r ↦ some r ])
  rows k = rw l.tasks (find-append_rows k s.tasks (map task_to_model es))

  pub row_cases :
      (k : Uuid) (r : TaskRow)
      → task k s' ≡ some r
      → (task k s ≡ some r) ⊎ (Added w ids kids ts r × (r.id ≡ k))
  row_cases k r h = go (task k s) refl (sym (rows k) ∙ h)
    where
      go :
          (o : Option TaskRow)
          → task k s ≡ o
          → (elim o [ none ↦ find task_key k (map task_to_model es) | some r ↦ some r ]) ≡ some r
          → (task k s ≡ some r) ⊎ (Added w ids kids ts r × (r.id ≡ k))
      go (some x) e h = inl (e ∙ h)
      go none e h = inr (
        Added-find w ids kids ts ts es k r (λ t i. i) l.executions h,
        key-find task_key k (map task_to_model es) r h,
      )

  pub done_same : (p : Uuid) → done s' p ≡ done s p
  done_same p = ap is_done (rows p) ∙ go (task p s)
    where
      new_row :
          (o : Option TaskRow) → find task_key p (map task_to_model es) ≡ o → is_done o ≡ false
      new_row none e = refl
      new_row (some r) e =
          ap is_completed (Added-find w ids kids ts ts es p r (λ t i. i) l.executions e).waiting

      go :
          (o : Option TaskRow)
          → is_done (elim o [ none ↦ find task_key p (map task_to_model es) | some r ↦ some r ])
            ≡ is_done o
      go (some r) = refl
      go none = new_row (find task_key p (map task_to_model es)) refl

  -- A row of the tables before is no new one.
  old_is_other : (j : Uuid) (r : TaskRow) → task j s ≡ some r → (a : Uuid) → lookup a ids ≢ some j
  old_is_other j r h a e = let n = l.absent a j e in cc

  pub linked :
      ((i j : Uuid) (p c : TaskRow)
        → task i s ≡ some p
        → task j s ≡ some c
        → count j p.child_task_ids ≡ count i c.parent_task_ids)
      → (i j : Uuid) (p c : TaskRow) → task i s' ≡ some p
      → task j s' ≡ some c
      → count j p.child_task_ids ≡ count i c.parent_task_ids
  linked old i j p c hp hc = elim (row_cases i p hp) [
    | inl op ↦ elim (row_cases j c hc) [
      | inl oc ↦ old i j p c op oc
      | inr (a, e) ↦
          l.no_child a.definition.id j i p (lookup-item _ ids j (a.own ∙ ap ok e)) op
          ∙ sym (count-items_other ids i (old_is_other i p op) _ c.parent_task_ids a.parents)
    ]
    | inr (b, f) ↦ elim (row_cases j c hc) [
      | inl oc ↦
          create_child_task_lookup_other ids ts kids _ j p.child_task_ids (old_is_other j c oc)
            l.children b.children
          ∙ sym (l.no_parent b.definition.id i j c (lookup-item _ ids i (b.own ∙ ap ok f)) oc)
      | inr (a, e) ↦
          create_child_task_lookup_lem ids l.separates ts kids b.definition.id j p.child_task_ids
            a.definition l.executable.unique l.children b.children a.among (a.own ∙ ap ok e)
          ∙ sym (
              count-items ids l.separates b.definition.id i (lookup-item _ ids i (b.own ∙ ap ok f))
                _ c.parent_task_ids a.parents)
    ]
  ]

  -- No parent of a new task is completed.
  pub counted :
      (r : TaskRow)
      → Added w ids kids ts r
      → r.remaining_dependencies ≡ unmet (done s') r.parent_task_ids
  counted r a =
      a.counter
      ∙ sym (
          unmet-items ids (done s') (λ k i e. done_same i ∙ ap is_done (l.absent k i e)) _
            r.parent_task_ids a.parents)
