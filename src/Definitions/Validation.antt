-- ===== src/Definitions/Validation.antt =====
-- `_validate_tasks` accepts exactly the valid lists of tasks.
use mathlib.Core.Bool.{false≢true}
use automation_platform.Base.{
  suc, ◌≡◌, ◌≤◌, ◌↔◌, refl, Bool, true, false, not, Option, none, some, List, [], ◌∷◌, String,
  length, is_empty, ltb, arith, ◌==◌, inl, inr, sym, ap, ◌∙◌, subst,
}
use automation_platform.Errors.{
  Result, ok, raised, Error, invalid_workflow_definition, ◌>>=◌, ◌>>◌, raise_if, bind_lem,
  unknown_plugin_type,
}
use automation_platform.Table.{In}
use automation_platform.Texts.{
  same_refl, same-cases, has_text, text_set, Distinct, has_text-text_set, text_set-Distinct,
}
use automation_platform.Plugins as Plugins
use automation_platform.Plugins.{TaskPlugin}
use automation_platform.Definitions.{
  validate_tasks, check_tasks, check_task, check_dependencies, invalid_configuration, task_type,
  keys,
}
use automation_platform.Definitions.Cycle.{CreateTaskDefinition, has_dependency_cycle}
use automation_platform.Definitions.Cycle.Children.{Known}
use automation_platform.Definitions.Cycle.Correct.{Acyclic, has_dependency_cycle_lem}

pub record IsValidTask (registry : List TaskPlugin) (seen : List String) (t : CreateTaskDefinition)
    : Type 0 where
  pub tries : 1 ≤ t.max_tries
  pub plugin : TaskPlugin
  pub found : Plugins.get task_type t.plugin_type registry ≡ ok plugin
  pub configured : plugin.validate_configuration t.configuration ≡ ok tt
  pub no_self : has_text t.key t.dependencies ≡ false
  pub distinct : Distinct t.dependencies
  pub known : (d : String) → has_text d t.dependencies ≡ true → has_text d seen ≡ true

pub record IsValidDefinition (registry : List TaskPlugin) (tasks : List CreateTaskDefinition)
    : Type 0 where
  pub some_task : is_empty tasks ≡ false
  pub distinct : Distinct (keys tasks)
  pub each : (t : CreateTaskDefinition) → In t tasks → IsValidTask registry (keys tasks) t
  pub acyclic : Acyclic tasks

-- A chain of checks passes exactly if each of them does.
raise_if_iff :
    {A : Type 0} (b : Bool) (e : Error) (m : Result A) (x : A)
    → ((raise_if b e >> m) ≡ ok x) ↔ ((b ≡ false) × (m ≡ ok x))
raise_if_iff false e m x = (λ h. (refl, h), λ h. h.1)
raise_if_iff true e m x = (λ h. cc, λ h. cc)

then_iff :
    {A : Type 0} (m : Result (Unit {0})) (k : Result A) (x : A)
    → ((m >> k) ≡ ok x) ↔ ((m ≡ ok tt) × (k ≡ ok x))
then_iff (ok tt) k x = (λ h. (refl, h), λ h. h.1)
then_iff (raised e) k x = (λ h. cc, λ h. cc)

check_dependencies_iff :
    (seen ds : List String)
    → (check_dependencies seen ds ≡ ok tt)
      ↔ ((d : String) → has_text d ds ≡ true → has_text d seen ≡ true)
unfolding check_dependencies
check_dependencies_iff seen [] = (λ h d i. absurd (false≢true i), λ h. refl)
check_dependencies_iff seen (x ∷ ds) =
    let (to, from) = check_dependencies_iff seen ds in
    let (open_it, close_it) =
      raise_if_iff (not (has_text x seen)) invalid_workflow_definition (check_dependencies seen ds)
        tt in
    (
      λ h d i.
          let (a, b) = open_it h in
          elim (same-cases d x) [
            | inl (e, _) ↦ subst (λ y. has_text y seen ≡ true) (sym e) (ground arith)
            | inr (_, f) ↦ to b d (rw f at i)
          ],
      λ h.
          let r = same_refl x in
          let a = h x (ground arith) in close_it (ground arith, from (λ d i. h d (ground arith))),
    )

invalid_configuration_iff :
    {A : Type 0} (m : Result A) (x : A) → (invalid_configuration m ≡ ok x) ↔ (m ≡ ok x)
invalid_configuration_iff (ok y) x = (λ h. h, λ h. h)
invalid_configuration_iff (raised e) x = (ground arith, λ h. cc)

contains_of_get :
    (name : String) (registry : List TaskPlugin) (p : TaskPlugin)
    → Plugins.get task_type name registry ≡ ok p
    → Plugins.contains task_type name registry ≡ true
unfolding Plugins.get Plugins.contains
contains_of_get name registry p h = go (Plugins.registered task_type name registry) h
  where
    go :
        (o : Option TaskPlugin)
        → (elim o [ none ↦ raised unknown_plugin_type | some p ↦ ok p ]) ≡ ok p
        → (elim o [ none ↦ false | some _ ↦ true ]) ≡ true
    go none q = cc
    go (some x) q = refl

check_task_iff :
    (registry : List TaskPlugin) (seen : List String) (t : CreateTaskDefinition)
    → (check_task registry seen t ≡ ok tt) ↔ IsValidTask registry seen t
unfolding check_task
check_task_iff registry seen t =
    let bad = invalid_workflow_definition in
    let test = Plugins.get task_type t.plugin_type registry >>= λ p.
    p.validate_configuration t.configuration in
    let m5 = check_dependencies seen t.dependencies in
    let m4 = raise_if (not (length t.dependencies == length (text_set t.dependencies))) bad >> m5 in
    let m3 = raise_if (has_text t.key t.dependencies) bad >> m4 in
    let m2 = invalid_configuration test >> m3 in
    let m1 = raise_if (not (Plugins.contains task_type t.plugin_type registry)) bad >> m2 in
    let d = text_set-Distinct t.dependencies in
    (
      λ h.
          let (a, h1) = (raise_if_iff (ltb t.max_tries 1) bad m1 tt).0 h in
          let (b, h2) =
            (raise_if_iff (not (Plugins.contains task_type t.plugin_type registry)) bad m2 tt).0
              h1 in
          let (c, h3) = (then_iff (invalid_configuration test) m3 tt).0 h2 in
          let (s, h4) = (raise_if_iff (has_text t.key t.dependencies) bad m4 tt).0 h3 in
          let (u, h5) =
            (raise_if_iff (not (length t.dependencies == length (text_set t.dependencies))) bad m5
                tt).0
              h4 in
          let (p, found, fine) =
            bind_lem (Plugins.get task_type t.plugin_type registry)
              (λ p. p.validate_configuration t.configuration) tt
              ((invalid_configuration_iff test tt).0 c) in
          record {
            tries = ground arith;
            plugin = p;
            found = found;
            configured = fine;
            no_self = s;
            distinct = d.0 (ground arith);
            known = (check_dependencies_iff seen t.dependencies).0 h5;
          },
      λ v.
          let e = d.1 v.distinct in
          let i = contains_of_get t.plugin_type registry v.plugin v.found in
          let runs : test ≡ ok tt =
            ap (λ m. m >>= λ p. p.validate_configuration t.configuration) v.found ∙ v.configured in
          let h5 = (check_dependencies_iff seen t.dependencies).1 v.known in
          let h4 =
            (raise_if_iff (not (length t.dependencies == length (text_set t.dependencies))) bad m5
                tt).1
              (ground arith, h5) in
          let h3 = (raise_if_iff (has_text t.key t.dependencies) bad m4 tt).1 (v.no_self, h4) in
          let h2 =
            (then_iff (invalid_configuration test) m3 tt).1
              ((invalid_configuration_iff test tt).1 runs, h3) in
          let h1 =
            (raise_if_iff (not (Plugins.contains task_type t.plugin_type registry)) bad m2 tt).1
              (ground arith, h2) in
          let w = v.tries in (raise_if_iff (ltb t.max_tries 1) bad m1 tt).1 (ground arith, h1),
    )

check_tasks_iff :
    (registry : List TaskPlugin) (seen : List String) (ts : List CreateTaskDefinition)
    → (check_tasks registry seen ts ≡ ok tt)
      ↔ ((t : CreateTaskDefinition) → In t ts → IsValidTask registry seen t)
unfolding check_tasks
check_tasks_iff registry seen [] = (λ h t i. absurd i, λ h. refl)
check_tasks_iff registry seen (x ∷ ts) =
    let (to, from) = check_tasks_iff registry seen ts in
    let one = check_task_iff registry seen x in
    let both = then_iff (check_task registry seen x) (check_tasks registry seen ts) tt in
    (
      λ h t i. elim i [
        | inl e ↦ subst (IsValidTask registry seen) (sym e) (one.0 (both.0 h).0)
        | inr j ↦ to (both.0 h).1 t j
      ],
      λ h. both.1 (one.1 (h x (inl refl)), from (λ t i. h t (inr i))),
    )

weaker :
    (registry : List TaskPlugin) (seen seen' : List String) (t : CreateTaskDefinition)
    → ((d : String) → has_text d seen ≡ true → has_text d seen' ≡ true)
    → IsValidTask registry seen t
    → IsValidTask registry seen' t
weaker registry seen seen' t h v = record {
  tries = v.tries;
  plugin = v.plugin;
  found = v.found;
  configured = v.configured;
  no_self = v.no_self;
  distinct = v.distinct;
  known = λ d i. h d (v.known d i);
}

pub each-Known :
    (all ts : List CreateTaskDefinition)
    → ((t : CreateTaskDefinition)
        → In t ts
        → (d : String) → has_text d t.dependencies ≡ true
        → has_text d (keys all) ≡ true)
    → Known all ts
each-Known all [] h = tt
each-Known all (t ∷ ts) h = (h t (inl refl), each-Known all ts (λ u i. h u (inr i)))

length-keys : (ts : List CreateTaskDefinition) → length (keys ts) ≡ length ts
length-keys [] = refl
length-keys (t ∷ ts) = ap suc (length-keys ts)

-- `_validate_tasks` accepts exactly the lists of tasks that have a task, have distinct keys, have only
-- tasks with at least one try, a registered plugin that accepts the configuration, and distinct
-- dependencies on other tasks of the list, and in which every chain of dependencies ends.
pub validate_tasks_iff :
    (registry : List TaskPlugin) (tasks : List CreateTaskDefinition)
    → (validate_tasks registry tasks ≡ ok tt) ↔ IsValidDefinition registry tasks
unfolding validate_tasks
validate_tasks_iff registry tasks =
    let bad = invalid_workflow_definition in
    let seen = text_set (keys tasks) in
    let l = length-keys tasks in
    let m3 = has_dependency_cycle tasks >>= λ c. raise_if c bad in
    let m2 = check_tasks registry seen tasks >> m3 in
    let m1 = raise_if (not (length seen == length tasks)) bad >> m2 in
    let to_keys =
      λ (d : String) (i : has_text d seen ≡ true). sym (has_text-text_set d (keys tasks)) ∙ i in
    let to_seen =
      λ (d : String) (i : has_text d (keys tasks) ≡ true). has_text-text_set d (keys tasks) ∙ i in
    let each = check_tasks_iff registry seen tasks in
    let uniq = text_set-Distinct (keys tasks) in
    (
      λ h.
          let (a, h1) = (raise_if_iff (is_empty tasks) bad m1 tt).0 h in
          let (b, h2) = (raise_if_iff (not (length seen == length tasks)) bad m2 tt).0 h1 in
          let (c, h3) = (then_iff (check_tasks registry seen tasks) m3 tt).0 h2 in
          let distinct : Distinct (keys tasks) = uniq.0 (ground arith) in
          let valid = λ (t : CreateTaskDefinition) (i : In t tasks).
            weaker registry seen (keys tasks) t to_keys (each.0 c t i) in
          let (cycle, e, answer) =
            has_dependency_cycle_lem tasks distinct
              (each-Known tasks tasks (λ t i. (valid t i).known)) in
          let (cycle', e', none_found) =
            bind_lem (has_dependency_cycle tasks) (λ c. raise_if c bad) tt h3 in
          let same_answer : ok cycle ≡ ok cycle' = sym e ∙ e' in
          record {
            some_task = a;
            distinct = distinct;
            each = valid;
            acyclic = answer.0 (ground arith);
          },
      λ v.
          let (cycle, e, answer) =
            has_dependency_cycle_lem tasks v.distinct
              (each-Known tasks tasks (λ t i. (v.each t i).known)) in
          let f = answer.1 v.acyclic in
          let u = uniq.1 v.distinct in
          let h3 : m3 ≡ ok tt =
            ap (λ m. m >>= λ c. raise_if c bad) e ∙ ap (λ c. raise_if c bad) f in
          let c = each.1 (λ t i. weaker registry (keys tasks) seen t to_seen (v.each t i)) in
          let h2 = (then_iff (check_tasks registry seen tasks) m3 tt).1 (c, h3) in
          let h1 =
            (raise_if_iff (not (length seen == length tasks)) bad m2 tt).1 (ground arith, h2) in
          (raise_if_iff (is_empty tasks) bad m1 tt).1 (v.some_task, h1),
    )
