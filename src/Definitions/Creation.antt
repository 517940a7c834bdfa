-- ===== src/Definitions/Creation.antt =====
-- `_create_task_definitions` on validated tasks: what it makes can be started.
use automation_platform.Base.{
  ℕ, suc, length, ◌≡◌, refl, true, false, none, some, List, [], ◌∷◌, String, arith, sym, ap, ◌∙◌,
  inl, inr, subst, Option-cases, contains,
}
use automation_platform.Domain.{Uuid, Time, TaskDefinition, WorkflowDefinition}
use automation_platform.Errors.{ok, ◌>>=◌}
use automation_platform.Table.{fits_integer, find, key-find, In, In-find, UniqueKeys}
use automation_platform.Texts.{text_item, has_text, TextDict, get_text, Distinct}
use automation_platform.Plugins.{TaskPlugin}
use automation_platform.Executions.{Store, workflow}
use automation_platform.Launch.{prepare_start}
use automation_platform.Launch.Children.{definition_key}
use automation_platform.Launch.Rows.{cons_lem}
use automation_platform.Launch.Tables.{FitColumns, AreFresh, IsExecutable}
use automation_platform.Launch.Total.{Closed, definition_ids}
use automation_platform.Launch.Success.{prepare_start_succeeds}
use automation_platform.Definitions.{
  validate_tasks, create_task_definitions, resolve_tasks, resolved, task_ids, text_items, keys,
}
use automation_platform.Definitions.Cycle.{CreateTaskDefinition}
use automation_platform.Definitions.Cycle.Release.{item_of_get}
use automation_platform.Definitions.Cycle.Loop.{task_of_key}
use automation_platform.Definitions.Cycle.Children.{has_text-task_keys}
use automation_platform.Definitions.Validation.{IsValidDefinition, validate_tasks_iff}
use automation_platform.Definitions.Ids.{
  Separates, task_ids-Separates, task_ids_total, text_items_lem,
}

-- `d` is the definition of `t`, with the ids of its key and of its dependencies.
pub record Resolves (ids : TextDict Uuid) (t : CreateTaskDefinition) (d : TaskDefinition)
    : Type 0 where
  pub own : get_text t.key ids ≡ some d.id
  pub rest : d ≡ resolved t d.id d.dependencies
  pub exact : text_items t.dependencies ids ≡ ok d.dependencies
  pub dependencies :
      (v : Uuid)
      → contains v d.dependencies ≡ true
      → (k : String) × (has_text k t.dependencies ≡ true) × (get_text k ids ≡ some v)

abbrev pub AllResolve : TextDict Uuid → List CreateTaskDefinition → List TaskDefinition → Type 0
AllResolve ids [] [] = Unit
AllResolve ids [] (_ ∷ _) = ⊥
AllResolve ids (_ ∷ _) [] = ⊥
AllResolve ids (t ∷ ts) (d ∷ ds) = Resolves ids t d × AllResolve ids ts ds

resolve_tasks_lem :
    (ids : TextDict Uuid) (ts : List CreateTaskDefinition)
    → ((t : CreateTaskDefinition)
        → In t ts
        → ((i : Uuid) × (get_text t.key ids ≡ some i))
          × ((k : String)
              → has_text k t.dependencies ≡ true
              → (i : Uuid) × (get_text k ids ≡ some i)))
    → (ds : List TaskDefinition) × (resolve_tasks ids ts ≡ ok ds) × AllResolve ids ts ds
unfolding resolve_tasks
resolve_tasks_lem ids [] h = ([], refl, tt)
resolve_tasks_lem ids (t ∷ ts) h =
    let ((i, hi), deps) = h t (inl refl) in
    let (vs, hvs, from) = text_items_lem ids t.dependencies deps in
    let (ds, hds, all) = resolve_tasks_lem ids ts (λ u j. h u (inr j)) in
    (
      resolved t i vs ∷ ds,
      ap
            (λ m. m >>= λ i. text_items t.dependencies ids >>= λ vs.
              resolve_tasks ids ts >>= λ rest. ok (resolved t i vs ∷ rest))
            (item_of_get t.key ids i hi)
          ∙ ap (λ m. m >>= λ vs. resolve_tasks ids ts >>= λ rest. ok (resolved t i vs ∷ rest)) hvs
          ∙ ap (λ m. m >>= λ rest. ok (resolved t i vs ∷ rest)) hds,
      (record { own = hi; rest = refl; exact = hvs; dependencies = from }, all),
    )

pub task_of_definition :
    (ids : TextDict Uuid) (ts : List CreateTaskDefinition) (ds : List TaskDefinition)
    → AllResolve ids ts ds
    → (d : TaskDefinition) → In d ds
    → (t : CreateTaskDefinition) × In t ts × Resolves ids t d
task_of_definition ids [] [] a d i = absurd i
task_of_definition ids [] (_ ∷ _) a d i = absurd a
task_of_definition ids (_ ∷ _) [] a d i = absurd i
task_of_definition ids (t ∷ ts) (x ∷ ds) (r, a) d (inl e) =
    (t, inl refl, subst (Resolves ids t) (sym e) r)
task_of_definition ids (t ∷ ts) (x ∷ ds) (r, a) d (inr i) =
    let (u, j, q) = task_of_definition ids ts ds a d i in (u, inr j, q)

definition_of_task :
    (ids : TextDict Uuid) (ts : List CreateTaskDefinition) (ds : List TaskDefinition)
    → AllResolve ids ts ds
    → (t : CreateTaskDefinition) → In t ts
    → (i : Uuid) → get_text t.key ids ≡ some i
    → contains i (definition_ids ds) ≡ true
definition_of_task ids [] ds a t j i h = absurd j
definition_of_task ids (_ ∷ _) [] a t j i h = absurd a
definition_of_task ids (x ∷ ts) (d ∷ ds) (r, a) t (inl e) i h =
    let q : some i ≡ some d.id = sym h ∙ ap (λ y. get_text y.key ids) e ∙ r.own in ground arith
definition_of_task ids (x ∷ ts) (d ∷ ds) (r, a) t (inr j) i h =
    let ih = definition_of_task ids ts ds a t j i h in ground arith

definitions-UniqueKeys :
    (ids : TextDict Uuid)
    → Separates ids
    → (ts : List CreateTaskDefinition) (ds : List TaskDefinition) → Distinct (keys ts)
    → AllResolve ids ts ds
    → UniqueKeys definition_key ds
definitions-UniqueKeys ids sep [] [] u a = tt
definitions-UniqueKeys ids sep [] (_ ∷ _) u a = absurd a
definitions-UniqueKeys ids sep (_ ∷ _) [] u a = absurd a
definitions-UniqueKeys ids sep (t ∷ ts) (d ∷ ds) (n, u) (r, a) = (
  elim (Option-cases (find definition_key d.id ds)) [
    | inl e ↦ e
    | inr (x, h) ↦
        let (y, i, q) = task_of_definition ids ts ds a x (In-find definition_key d.id ds x h) in
        let e : y.key ≡ t.key =
          sep y.key t.key d.id (q.own ∙ ap (λ z. some z) (key-find definition_key d.id ds x h))
            r.own in
        let m = has_text-task_keys y ts i in
        let bad : has_text y.key (keys ts) ≡ false =
          subst (λ k. has_text k (keys ts) ≡ false) (sym e) n in
        cc
  ],
  definitions-UniqueKeys ids sep ts ds u a,
)

each-Closed :
    (all ds : List TaskDefinition)
    → ((d : TaskDefinition)
        → In d ds
        → (contains d.id (definition_ids all) ≡ true)
          × ((k : Uuid)
              → contains k d.dependencies ≡ true
              → contains k (definition_ids all) ≡ true))
    → Closed all ds
each-Closed all [] h = tt
each-Closed all (d ∷ ds) h =
    let (a, b) = h d (inl refl) in (a, b, each-Closed all ds (λ x i. h x (inr i)))

-- The definitions resolve the tasks, one by one.
pub create_task_definitions-AllResolve :
    (registry : List TaskPlugin) (fresh : ℕ → Uuid) (ts : List CreateTaskDefinition)
    → IsValidDefinition registry ts
    → (ds : List TaskDefinition) × (create_task_definitions fresh ts ≡ ok ds)
      × AllResolve (task_ids fresh 0 ts []) ts ds
unfolding create_task_definitions
create_task_definitions-AllResolve registry fresh ts v =
    resolve_tasks_lem (task_ids fresh 0 ts []) ts (λ t i. (
      task_ids_total fresh 0 ts [] t.key (inl (has_text-task_keys t ts i)),
      λ k h. task_ids_total fresh 0 ts [] k (inl ((v.each t i).known k h)),
    ))

pub create_task_definitions_lem :
    (registry : List TaskPlugin) (fresh : ℕ → Uuid) (ts : List CreateTaskDefinition)
    → ((m n : ℕ) → fresh m ≡ fresh n → m ≡ n)
    → IsValidDefinition registry ts
    → (ds : List TaskDefinition) × (create_task_definitions fresh ts ≡ ok ds)
      × IsExecutable ds
      × Closed ds ds
create_task_definitions_lem registry fresh ts distinct v =
    let ids = task_ids fresh 0 ts [] in
    let sep = task_ids-Separates fresh distinct 0 ts [] (λ a i e. cc) (λ a b i e e'. cc) in
    let (ds, e, all) = create_task_definitions-AllResolve registry fresh ts v in
    (
      ds,
      e,
      record {
        unique = definitions-UniqueKeys ids sep ts ds v.distinct all;
        tries = λ d i.
            let (t, j, r) = task_of_definition ids ts ds all d i in
            let m = ap (λ x. x.max_tries) r.rest in let l = (v.each t j).tries in omega arith;
      },
      each-Closed ds ds (λ d i.
          let (t, j, r) = task_of_definition ids ts ds all d i in
          (
            definition_of_task ids ts ds all t j d.id r.own,
            λ k h.
                let (n, listed, own) = r.dependencies k h in
                let (u, iu, eu) = task_of_key ts n ((v.each t j).known n listed) in
                definition_of_task ids ts ds all u iu k (ap (λ x. get_text x ids) eu ∙ own),
          )),
    )

-- The numbers of dependencies and of tries fit into columns of 32 bits.
abbrev pub FitTasks : List CreateTaskDefinition → Type 0
FitTasks ts =
    (t : CreateTaskDefinition)
    → In t ts
    → (fits_integer (length t.dependencies) ≡ true) × (fits_integer t.max_tries ≡ true)

length-text_items :
    (ids : TextDict Uuid) (ks : List String) (vs : List Uuid)
    → text_items ks ids ≡ ok vs
    → length vs ≡ length ks
unfolding text_items
length-text_items ids [] vs e = let q : [] ≡ vs = cc in sym (ap length q)
length-text_items ids (k ∷ ks) us e =
    let (v, vs, hv, hvs, eq) = cons_lem (text_item k ids) (text_items ks ids) us e in
    ap length eq ∙ ap suc (length-text_items ids ks vs hvs)

-- So do those of the definitions that are made of them.
pub definitions-FitColumns :
    (ids : TextDict Uuid) (ts : List CreateTaskDefinition) (ds : List TaskDefinition)
    → AllResolve ids ts ds
    → FitTasks ts
    → FitColumns ds
definitions-FitColumns ids ts ds all fits d m =
    let (t, i, r) = task_of_definition ids ts ds all d m in
    let (n, k) = fits t i in
    (
      ap fits_integer (length-text_items ids t.dependencies d.dependencies r.exact) ∙ n,
      ap fits_integer (ap (λ (y : TaskDefinition). y.max_tries) r.rest) ∙ k,
    )

pub validated_definition_starts :
    (registry : List TaskPlugin) (ids : ℕ → Uuid) (tasks : List CreateTaskDefinition)
    (definition : List TaskDefinition → WorkflowDefinition) (w : Uuid) (fresh : ℕ → Uuid)
    (now : Time) (s : Store)
    → ((m n : ℕ) → ids m ≡ ids n → m ≡ n)
    → validate_tasks registry tasks ≡ ok tt
    → FitTasks tasks
    → ((ds : List TaskDefinition) → (definition ds).task_definitions ≡ ds)
    → ((ds : List TaskDefinition) → (definition ds).enabled ≡ true)
    → workflow w s ≡ none
    → AreFresh fresh s
    → (ds : List TaskDefinition) × (s' : Store) × (roots : List Uuid) × (create_task_definitions ids
          tasks
        ≡ ok ds)
      × IsExecutable ds
      × (prepare_start w fresh now (some (definition ds)) s ≡ ok (s', roots, w))
validated_definition_starts registry ids tasks definition w fresh now s distinct h fits holds
      enabled free new =
    let valid = (validate_tasks_iff registry tasks).0 h in
    let (ds, e, able, closed) = create_task_definitions_lem registry ids tasks distinct valid in
    let (ds', e', all) = create_task_definitions-AllResolve registry ids tasks valid in
    let same : ds' ≡ ds = ground arith in
    let fit : FitColumns ds =
      subst FitColumns same (definitions-FitColumns (task_ids ids 0 tasks []) tasks ds' all fits) in
    let (s', roots, starts) =
      prepare_start_succeeds w fresh now (definition ds) s (enabled ds)
        (subst (UniqueKeys definition_key) (sym (holds ds)) able.unique)
        (subst (λ x. Closed x x) (sym (holds ds)) closed) (subst FitColumns (sym (holds ds)) fit)
        free new in
    (ds, s', roots, e, able, starts)
