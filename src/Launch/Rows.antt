-- ===== src/Launch/Rows.antt =====
-- The executions that `_create_workflow_execution` builds, one for each task definition in turn, and
-- the root tasks that it returns with them.
use automation_platform.Base.{
  suc, ◌≡◌, refl, Bool, none, List, [], ◌∷◌, map, length, filter_by, ◌==◌, if◌then◌else◌, ap, ◌∙◌,
  arith,
}
use automation_platform.Domain.{Uuid, TaskStatus, TaskDefinition, TaskExecution}
use automation_platform.Errors.{Result, ok, raised, ◌>>=◌}
use automation_platform.Launch.{new_executions, new_execution, items}
use automation_platform.Launch.Lookup.{Dict, item}

-- `e` is the execution of `t`: its identifier and those of its parents and children are looked up.
pub record Executes (w : Uuid) (ids : Dict Uuid) (kids : Dict (List Uuid)) (t : TaskDefinition)
    (e : TaskExecution) : Type 0 where
  pub own : item t.id ids ≡ ok e.id
  pub parents : items t.dependencies ids ≡ ok e.parent_task_ids
  pub children : item t.id kids ≡ ok e.child_task_ids
  pub rest : e ≡ new_execution w t e.id e.parent_task_ids e.child_task_ids

-- The executions of a list of task definitions, in their order.
abbrev pub Executions :
    Uuid → Dict Uuid → Dict (List Uuid) → List TaskDefinition → List TaskExecution → Type 0
Executions w ids kids [] [] = Unit
Executions w ids kids [] (_ ∷ _) = ⊥
Executions w ids kids (_ ∷ _) [] = ⊥
Executions w ids kids (t ∷ ts) (e ∷ es) = Executes w ids kids t e × Executions w ids kids ts es

-- The execution waits for no other task.
abbrev pub is_root : TaskExecution → Bool
is_root e = e.remaining_dependencies == 0

abbrev pub root_ids : List TaskExecution → List Uuid
root_ids es = map (λ e. e.id) (filter_by is_root es)

-- One round of the loop, before the others.
abbrev pub next_round :
    Uuid
    → TaskDefinition
    → Uuid
    → List Uuid
    → List Uuid
    → List TaskExecution × List Uuid
    → List TaskExecution × List Uuid
next_round w t i ps cs r =
    (new_execution w t i ps cs ∷ r.0, (if length t.dependencies == 0 then i ∷ r.1 else r.1))

-- What one round of the loop went through.
round_lem :
    (w : Uuid) (t : TaskDefinition) (own : Result Uuid) (parents children : Result (List Uuid))
    (others : Result (List TaskExecution × List Uuid)) (es : List TaskExecution) (roots : List Uuid)
    → (own >>= λ i.
        parents >>= λ ps. children >>= λ cs. others >>= λ r. ok (next_round w t i ps cs r))
      ≡ ok (es, roots)
    → (i : Uuid) × (ps : List Uuid) × (cs : List Uuid) × (r : List TaskExecution × List Uuid) × (own
        ≡ ok i)
      × (parents ≡ ok ps)
      × (children ≡ ok cs)
      × (others ≡ ok r)
      × (es ≡ new_execution w t i ps cs ∷ r.0)
      × (roots ≡ (if length t.dependencies == 0 then i ∷ r.1 else r.1))
round_lem w t (ok i) (ok ps) (ok cs) (ok r) es roots h =
    (i, ps, cs, r, refl, refl, refl, refl, cc, cc)
round_lem w t (raised e) b c d es roots h = cc
round_lem w t (ok i) (raised e) c d es roots h = cc
round_lem w t (ok i) (ok ps) (raised e) d es roots h = cc
round_lem w t (ok i) (ok ps) (ok cs) (raised e) es roots h = cc

-- A round whose lookups succeed goes through.
pub chain_ok :
    (w : Uuid) (t : TaskDefinition) (own : Result Uuid) (parents children : Result (List Uuid))
    (others : Result (List TaskExecution × List Uuid)) (i : Uuid) (ps cs : List Uuid)
    (r : List TaskExecution × List Uuid)
    → own ≡ ok i
    → parents ≡ ok ps
    → children ≡ ok cs
    → others ≡ ok r
    → (own >>= λ i.
        parents >>= λ ps. children >>= λ cs. others >>= λ r. ok (next_round w t i ps cs r))
      ≡ ok (next_round w t i ps cs r)
chain_ok w t own parents children others i ps cs r e e1 e2 e3 = rw (e, e1, e2, e3) refl

pub new_executions_lem :
    (w : Uuid) (ids : Dict Uuid) (kids : Dict (List Uuid)) (ts : List TaskDefinition)
    (es : List TaskExecution) (roots : List Uuid)
    → new_executions w ids kids ts ≡ ok (es, roots)
    → Executions w ids kids ts es × (roots ≡ root_ids es)
unfolding new_executions
new_executions_lem w ids kids [] [] roots h = (tt, cc)
new_executions_lem w ids kids [] (e ∷ es) roots h = cc
new_executions_lem w ids kids (t ∷ ts) es roots h =
    let (i, ps, cs, r, hi, hp, hc, hr, ee, er) =
      round_lem w t (item t.id ids) (items t.dependencies ids) (item t.id kids)
        (new_executions w ids kids ts) es roots h in
    let (ih, eq) = new_executions_lem w ids kids ts r.0 r.1 hr in
    rw ee
      ((record { own = hi; parents = hp; children = hc; rest = refl }, ih), er ∙ ground (arith, eq))

-- What an execution says of its task definition, the identifiers apart.
pub record Launched (w : Uuid) (t : TaskDefinition) (e : TaskExecution) : Type 0 where
  pub owner : e.workflow_execution_id ≡ w
  pub definition : e.task_definition_id ≡ t.id
  pub named : e.key ≡ t.key
  pub plugin : e.plugin_type ≡ t.plugin_type
  pub configured : e.configuration ≡ t.configuration
  pub waiting : e.status ≡ TaskStatus.pending
  pub parents : length e.parent_task_ids ≡ length t.dependencies
  pub counter : e.remaining_dependencies ≡ length t.dependencies
  pub tries : e.remaining_tries ≡ t.max_tries
  pub empty : e.output ≡ none

abbrev pub AllLaunched : Uuid → List TaskDefinition → List TaskExecution → Type 0
AllLaunched w [] [] = Unit
AllLaunched w [] (_ ∷ _) = ⊥
AllLaunched w (_ ∷ _) [] = ⊥
AllLaunched w (t ∷ ts) (e ∷ es) = Launched w t e × AllLaunched w ts es

-- What a round of the comprehension went through.
pub cons_lem :
    {A : Type 0} (a : Result A) (b : Result (List A)) (us : List A)
    → (a >>= λ v. b >>= λ vs. ok (v ∷ vs)) ≡ ok us
    → (v : A) × (vs : List A) × (a ≡ ok v) × (b ≡ ok vs) × (us ≡ v ∷ vs)
cons_lem (ok v) (ok vs) us h = (v, vs, refl, refl, cc)
cons_lem (ok v) (raised e) us h = cc
cons_lem (raised e) b us h = cc

length-items :
    (ks : List Uuid) (ids : Dict Uuid) (vs : List Uuid)
    → items ks ids ≡ ok vs
    → length vs ≡ length ks
unfolding items
length-items [] ids vs h = ground arith
length-items (k ∷ ks) ids us h =
    let (v, vs, hv, hvs, e) = cons_lem (item k ids) (items ks ids) us h in
    rw e (ap suc (length-items ks ids vs hvs))

Executes-Launched :
    (w : Uuid) (ids : Dict Uuid) (kids : Dict (List Uuid)) (t : TaskDefinition) (e : TaskExecution)
    → Executes w ids kids t e
    → Launched w t e
Executes-Launched w ids kids t e x = record {
  owner = ap (λ e. e.workflow_execution_id) x.rest;
  definition = ap (λ e. e.task_definition_id) x.rest;
  named = ap (λ e. e.key) x.rest;
  plugin = ap (λ e. e.plugin_type) x.rest;
  configured = ap (λ e. e.configuration) x.rest;
  waiting = ap (λ e. e.status) x.rest;
  parents = length-items t.dependencies ids e.parent_task_ids x.parents;
  counter = ap (λ e. e.remaining_dependencies) x.rest;
  tries = ap (λ e. e.remaining_tries) x.rest;
  empty = ap (λ e. e.output) x.rest;
}

pub Executions-AllLaunched :
    (w : Uuid) (ids : Dict Uuid) (kids : Dict (List Uuid)) (ts : List TaskDefinition)
    (es : List TaskExecution)
    → Executions w ids kids ts es
    → AllLaunched w ts es
Executions-AllLaunched w ids kids [] [] x = tt
Executions-AllLaunched w ids kids [] (e ∷ es) x = absurd x
Executions-AllLaunched w ids kids (t ∷ ts) [] x = absurd x
Executions-AllLaunched w ids kids (t ∷ ts) (e ∷ es) (x, xs) =
    (Executes-Launched w ids kids t e x, Executions-AllLaunched w ids kids ts es xs)
