-- ===== src/Definitions/Requests.antt =====
-- `WorkflowDefinitionService.create` stores what was requested, under the identifiers that it draws.
use mathlib.Core.Bool.{false≢true}
use automation_platform.Base.{
  ℕ, suc, ◌≤◌, ◌≡◌, true, not, some, List, [], ◌∷◌, arith, sym, ◌∙◌, inl, inr, subst, contains, map,
  ◌==◌, Bool-cases, refl,
}
use automation_platform.Domain.{Uuid, TaskDefinition, TriggerDefinition, WorkflowDefinition}
use automation_platform.Errors.{ok, ◌>>=◌, bind_lem, raise_if, invalid_workflow_definition}
use automation_platform.Texts.{Distinct}
use automation_platform.Plugins as Plugins
use automation_platform.Plugins.{TaskPlugin, TriggerPlugin}
use automation_platform.Triggers.{TriggerState}
use automation_platform.Table.{UniqueKeys}
use automation_platform.Launch.Children.{definition_key}
use automation_platform.Catalog.{Catalog, load}
use automation_platform.Catalog.Fitting.{Once}
use automation_platform.Catalog.RoundTrip.{trigger_ids, IsStorable, IsNew}
use automation_platform.Catalog.Saved.{save_then_load}
use automation_platform.Definitions.{
  CreateWorkflowDefinition, CreateTriggerDefinition, validate_tasks, create_task_definitions,
  create_trigger_definitions, task_ids, trigger_type, invalid_configuration,
}
use automation_platform.Definitions.Ids.{task_ids-Separates}
use automation_platform.Definitions.Validation.{validate_tasks_iff}
use automation_platform.Definitions.Creation.{
  FitTasks, definitions-FitColumns, AllResolve, create_task_definitions-AllResolve,
  create_task_definitions_lem,
}
use automation_platform.Definitions.Described.{
  AllAsked, TriggersAsked, definitions-AllAsked, create_trigger_definitions-TriggersAsked,
}
use automation_platform.Definitions.Service.{create_definition, initialize_triggers, Draws}
use automation_platform.Definitions.Stored.{Listed, UniqueKeys-Once, same_names, Listed-Ordered}

abbrev pub trigger_definitions : List (TriggerDefinition × TriggerPlugin) → List TriggerDefinition
trigger_definitions = map (λ (t : TriggerDefinition × TriggerPlugin). t.0)

-- The workflow definition that a request asks for, with its tasks and triggers made.
abbrev pub requested :
    Draws
    → CreateWorkflowDefinition
    → List TaskDefinition
    → List (TriggerDefinition × TriggerPlugin)
    → WorkflowDefinition
requested draws request tasks triggers = record {
  id = draws.id;
  name = request.name;
  description = request.description;
  task_definitions = tasks;
  trigger_definitions = trigger_definitions triggers;
  enabled = request.enabled;
}

-- The triggers have values of `fresh` from `n` on as their identifiers, each once.
abbrev Drawn : (ℕ → Uuid) → ℕ → List (TriggerDefinition × TriggerPlugin) → Type 0
Drawn fresh n triggers =
    ((v : Uuid)
      → contains v (trigger_ids (trigger_definitions triggers)) ≡ true
      → (m : ℕ) × n ≤ m × (v ≡ fresh m))
    × Once (trigger_ids (trigger_definitions triggers))

module _ (registry : List TriggerPlugin) (fresh : ℕ → Uuid)
    (distinct : (m n : ℕ) → fresh m ≡ fresh n → m ≡ n) where
  Drawn-cons :
      (n : ℕ) (t : TriggerDefinition) (p : TriggerPlugin)
      (rest : List (TriggerDefinition × TriggerPlugin))
      → t.id ≡ fresh n
      → Drawn fresh (suc n) rest
      → Drawn fresh n ((t, p) ∷ rest)
  Drawn-cons n t p rest e (from, once) = (
    λ v c. elim (Bool-cases (v == t.id)) [
      | inl b ↦ (n, omega arith, ground arith)
      | inr b ↦ let (m, l, q) = from v (ground arith) in (m, omega arith, q)
    ],
    (
      elim (Bool-cases (contains t.id (trigger_ids (trigger_definitions rest)))) [
        | inr f ↦ f
        | inl c ↦
            let (m, l, q) = from t.id c in
            let same : n ≡ m = distinct n m (sym e ∙ q) in absurd (omega arith)
      ],
      once,
    ),
  )

  create_trigger_definitions-Drawn :
      (n : ℕ) (ts : List CreateTriggerDefinition) (rs : List (TriggerDefinition × TriggerPlugin))
      → create_trigger_definitions registry fresh n ts ≡ ok rs
      → Drawn fresh n rs
  unfolding create_trigger_definitions
  create_trigger_definitions-Drawn n [] rs h =
      let q : [] ≡ rs = cc in subst (Drawn fresh n) q (λ v c. absurd (false≢true c), tt)
  create_trigger_definitions-Drawn n (t ∷ ts) rs h =
      let (_, _, h1) =
        bind_lem
          (raise_if (not (Plugins.contains trigger_type t.plugin_type registry))
            invalid_workflow_definition)
          _ rs h in
      let (plugin, _, h2) =
        bind_lem
          (invalid_configuration (
            Plugins.get trigger_type t.plugin_type registry >>= λ p.
            p.validate_configuration t.configuration >>= λ _. ok p))
          _ rs h1 in
      let (rest, hr, h3) =
        bind_lem (create_trigger_definitions registry fresh (suc n) ts) _ rs h2 in
      let made : TriggerDefinition = record {
        id = fresh n;
        plugin_type = t.plugin_type;
        configuration = t.configuration;
        enabled = t.enabled;
      } in
      let q : (made, plugin) ∷ rest ≡ rs = cc in
      subst (Drawn fresh n) q
        (Drawn-cons n made plugin rest refl (create_trigger_definitions-Drawn (suc n) ts rest hr))

-- What was validated, with distinct identifiers, can be stored.
requested-IsStorable :
    (task_registry : List TaskPlugin) (trigger_registry : List TriggerPlugin) (draws : Draws)
    (request : CreateWorkflowDefinition) (tasks : List TaskDefinition)
    (triggers : List (TriggerDefinition × TriggerPlugin))
    → ((m n : ℕ) → draws.task_ids m ≡ draws.task_ids n → m ≡ n)
    → ((m n : ℕ) → draws.trigger_ids m ≡ draws.trigger_ids n → m ≡ n)
    → validate_tasks task_registry request.tasks ≡ ok tt
    → FitTasks request.tasks
    → Listed [] request.tasks
    → create_task_definitions draws.task_ids request.tasks ≡ ok tasks
    → create_trigger_definitions trigger_registry draws.trigger_ids 0 request.triggers ≡ ok triggers
    → IsStorable (requested draws request tasks triggers)
requested-IsStorable tr gr draws request tasks triggers dt dg h fits listed ht hg =
    let valid = (validate_tasks_iff tr request.tasks).0 h in
    let sep =
      task_ids-Separates draws.task_ids dt 0 request.tasks [] (λ a i e. cc) (λ a b i e e'. cc) in
    let (ts, e, all) = create_task_definitions-AllResolve tr draws.task_ids request.tasks valid in
    let (us, f, able, _) = create_task_definitions_lem tr draws.task_ids request.tasks dt valid in
    let same : ts ≡ tasks = ground arith in
    let same' : us ≡ tasks = ground arith in
    let all' =
      subst (AllResolve (task_ids draws.task_ids 0 request.tasks []) request.tasks) same all in
    let fit =
      definitions-FitColumns (task_ids draws.task_ids 0 request.tasks []) request.tasks tasks all'
        fits in
    record {
      ids = UniqueKeys-Once tasks (subst (UniqueKeys definition_key) same' able.unique);
      names = subst Distinct (same_names _ request.tasks tasks all') valid.distinct;
      ordered =
          Listed-Ordered _ sep [] [] request.tasks tasks all' (λ t i. (valid.each t i).distinct)
            (λ k i c. absurd (false≢true c)) listed;
      fits = λ t i. (fit t i).1;
      triggers =
          (create_trigger_definitions-Drawn gr draws.trigger_ids dg 0 request.triggers triggers
            hg).1;
    }

-- A request that passes the validation, has numbers that fit into columns of 32 bits, lists each task
-- after those that it depends on, and has triggers that are accepted and initialized, is stored with
-- new identifiers: `create` raises nothing, returns the id of the definition, and the repository loads
-- under this id a definition with the name, the description and the flag of the request. Its tasks, in
-- order, have the keys, plugins, configurations and tries of the request, and depend on the tasks with
-- the keys that the request names; its triggers, in order, have the plugins, configurations and flags
-- of the request.
pub create_definition_stores :
    (task_registry : List TaskPlugin) (trigger_registry : List TriggerPlugin) (draws : Draws)
    (request : CreateWorkflowDefinition) (c : Catalog) (states states' : List TriggerState)
    (tasks : List TaskDefinition) (triggers : List (TriggerDefinition × TriggerPlugin))
    → ((m n : ℕ) → draws.task_ids m ≡ draws.task_ids n → m ≡ n)
    → ((m n : ℕ) → draws.trigger_ids m ≡ draws.trigger_ids n → m ≡ n)
    → validate_tasks task_registry request.tasks ≡ ok tt
    → FitTasks request.tasks
    → Listed [] request.tasks
    → create_task_definitions draws.task_ids request.tasks ≡ ok tasks
    → create_trigger_definitions trigger_registry draws.trigger_ids 0 request.triggers ≡ ok triggers
    → initialize_triggers draws.clock 0 triggers states ≡ ok states'
    → IsNew (requested draws request tasks triggers) c
    → (c' : Catalog) × (create_definition task_registry trigger_registry draws request (c, states)
        ≡ ok (draws.id, c', states'))
      × (load draws.id c' ≡ some (requested draws request tasks triggers))
      × AllAsked tasks request.tasks tasks
      × TriggersAsked request.triggers triggers
unfolding create_definition
create_definition_stores tr gr draws request c states states' tasks triggers dt dg h fits listed ht
      hg hi new =
    let w = requested draws request tasks triggers in
    let (c', saved, loaded) =
      save_then_load w c
        (requested-IsStorable tr gr draws request tasks triggers dt dg h fits listed ht hg) new in
    let valid = (validate_tasks_iff tr request.tasks).0 h in
    let ids = task_ids draws.task_ids 0 request.tasks [] in
    let (ts, e, all) = create_task_definitions-AllResolve tr draws.task_ids request.tasks valid in
    let same : ts ≡ tasks = ground arith in
    (
      c',
      rw (h, ht, hg, saved, hi) refl,
      loaded,
      subst (λ ds. AllAsked ds request.tasks ds) same
          (definitions-AllAsked tr ids request.tasks ts all valid),
      create_trigger_definitions-TriggersAsked gr draws.trigger_ids 0 request.triggers triggers hg,
    )
