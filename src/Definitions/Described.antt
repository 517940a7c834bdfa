-- ===== src/Definitions/Described.antt =====
-- What the definitions that `create` makes have to do with the request, in its own words.
use automation_platform.Base.{
  ℕ, suc, ◌≡◌, refl, true, not, some, List, [], ◌∷◌, String, arith, sym, ap, ◌∙◌, inl, inr, subst,
}
use automation_platform.Domain.{Uuid, TaskDefinition, TriggerDefinition}
use automation_platform.Errors.{ok, ◌>>=◌, bind_lem, raise_if, invalid_workflow_definition}
use automation_platform.Table.{In}
use automation_platform.Texts.{TextDict, get_text, has_text, text_item, get_of_item, same_refl}
use automation_platform.Plugins as Plugins
use automation_platform.Plugins.{TaskPlugin, TriggerPlugin}
use automation_platform.Launch.Rows.{cons_lem}
use automation_platform.Definitions.{
  CreateTriggerDefinition, text_items, create_trigger_definitions, trigger_type,
  invalid_configuration,
}
use automation_platform.Definitions.Cycle.{CreateTaskDefinition}
use automation_platform.Definitions.Cycle.Loop.{task_of_key}
use automation_platform.Definitions.Validation.{IsValidDefinition}
use automation_platform.Definitions.Creation.{AllResolve}
use automation_platform.Definitions.Lasting.{definition_for}

-- The identifiers are those of the definitions with these keys, one by one.
abbrev pub Named : List TaskDefinition → List String → List Uuid → Type 0
Named all [] [] = Unit
Named all [] (_ ∷ _) = ⊥
Named all (_ ∷ _) [] = ⊥
Named all (k ∷ ks) (i ∷ is) =
    ((d : TaskDefinition) × In d all × (d.key ≡ k) × (d.id ≡ i)) × Named all ks is

-- `d`, one of the definitions `all`, is what the request `t` asks for.
pub record IsAsked (all : List TaskDefinition) (t : CreateTaskDefinition) (d : TaskDefinition)
    : Type 0 where
  pub key : d.key ≡ t.key
  pub plugin : d.plugin_type ≡ t.plugin_type
  pub configured : d.configuration ≡ t.configuration
  pub tries : d.max_tries ≡ t.max_tries
  pub dependencies : Named all t.dependencies d.dependencies

abbrev pub AllAsked : List TaskDefinition → List CreateTaskDefinition → List TaskDefinition → Type 0
AllAsked all [] [] = Unit
AllAsked all [] (_ ∷ _) = ⊥
AllAsked all (_ ∷ _) [] = ⊥
AllAsked all (t ∷ ts) (d ∷ ds) = IsAsked all t d × AllAsked all ts ds

-- The triggers are those of the request, in its order.
abbrev pub TriggersAsked :
    List CreateTriggerDefinition → List (TriggerDefinition × TriggerPlugin) → Type 0
TriggersAsked [] [] = Unit
TriggersAsked [] (_ ∷ _) = ⊥
TriggersAsked (_ ∷ _) [] = ⊥
TriggersAsked (t ∷ ts) ((d, p) ∷ ds) =
    (d.plugin_type ≡ t.plugin_type)
    × (d.configuration ≡ t.configuration)
    × (d.enabled ≡ t.enabled)
    × TriggersAsked ts ds

module _ (registry : List TaskPlugin) (ids : TextDict Uuid) (ts : List CreateTaskDefinition)
    (ds : List TaskDefinition) (all : AllResolve ids ts ds)
    (v : IsValidDefinition registry ts) where
  text_items-Named :
      (ks : List String) (is : List Uuid)
      → text_items ks ids ≡ ok is
      → ((k : String) → has_text k ks ≡ true → (u : CreateTaskDefinition) × In u ts × (u.key ≡ k))
      → Named ds ks is
  unfolding text_items
  text_items-Named [] is e known = let q : [] ≡ is = cc in subst (Named ds []) q tt
  text_items-Named (k ∷ ks) us e known =
      let r = same_refl k in
      let (x, is, hx, his, eq) = cons_lem (text_item k ids) (text_items ks ids) us e in
      let (u, i, named) = known k (ground arith) in
      let (d, m, res) = definition_for ids ts ds all u i in
      let key : d.key ≡ k = ap (λ (y : TaskDefinition). y.key) res.rest ∙ named in
      let own : some d.id ≡ some x =
        sym res.own ∙ ap (λ y. get_text y ids) named ∙ get_of_item k ids x hx in
      let id : d.id ≡ x = ground arith in
      subst (Named ds (k ∷ ks)) (sym eq)
        ((d, m, key, id), text_items-Named ks is his (λ j h. known j (ground arith)))

  resolved-AllAsked :
      (us : List CreateTaskDefinition) (es : List TaskDefinition)
      → ((t : CreateTaskDefinition) → In t us → In t ts)
      → AllResolve ids us es
      → AllAsked ds us es
  resolved-AllAsked [] [] sub a = tt
  resolved-AllAsked [] (_ ∷ _) sub a = absurd a
  resolved-AllAsked (_ ∷ _) [] sub a = absurd a
  resolved-AllAsked (t ∷ us) (d ∷ es) sub (r, a) = (
    record {
      key = ap (λ (y : TaskDefinition). y.key) r.rest;
      plugin = ap (λ (y : TaskDefinition). y.plugin_type) r.rest;
      configured = ap (λ (y : TaskDefinition). y.configuration) r.rest;
      tries = ap (λ (y : TaskDefinition). y.max_tries) r.rest;
      dependencies =
          text_items-Named t.dependencies d.dependencies r.exact
            (λ k h. task_of_key ts k ((v.each t (sub t (inl refl))).known k h));
    },
    resolved-AllAsked us es (λ x i. sub x (inr i)) a,
  )

  -- The definitions are what was asked for.
  pub definitions-AllAsked : AllAsked ds ts ds
  definitions-AllAsked = resolved-AllAsked ts ds (λ t i. i) all

-- The triggers that are made are what was asked for.
pub create_trigger_definitions-TriggersAsked :
    (registry : List TriggerPlugin) (fresh : ℕ → Uuid) (n : ℕ) (ts : List CreateTriggerDefinition)
    (rs : List (TriggerDefinition × TriggerPlugin))
    → create_trigger_definitions registry fresh n ts ≡ ok rs
    → TriggersAsked ts rs
unfolding create_trigger_definitions
create_trigger_definitions-TriggersAsked registry fresh n [] rs h =
    let q : [] ≡ rs = cc in subst (TriggersAsked []) q tt
create_trigger_definitions-TriggersAsked registry fresh n (t ∷ ts) rs h =
    let (_, _, h1) =
      bind_lem
        (raise_if (not (Plugins.contains trigger_type t.plugin_type registry))
          invalid_workflow_definition)
        _ rs h in
    let (plugin, _, h2) =
      bind_lem
        (invalid_configuration (
          Plugins.get trigger_type t.plugin_type registry >>= λ p.
          p.validate_configuration t.configuration >>= λ _. ok p))
        _ rs h1 in
    let (rest, hr, h3) = bind_lem (create_trigger_definitions registry fresh (suc n) ts) _ rs h2 in
    let made : TriggerDefinition = record {
      id = fresh n;
      plugin_type = t.plugin_type;
      configuration = t.configuration;
      enabled = t.enabled;
    } in
    let q : (made, plugin) ∷ rest ≡ rs = cc in
    subst (TriggersAsked (t ∷ ts)) q
      (refl, refl, refl, create_trigger_definitions-TriggersAsked registry fresh (suc n) ts rest hr)
