-- ===== src/Errors.antt =====
-- What the platform's methods raise, and the results of methods that may raise.
use automation_platform.Base.{◌≡◌, refl, ◌⊎◌, inl, inr, Bool, if◌then◌else◌}

pub data Error : Type 0 where
  -- RuntimeError of `_load_parent_outputs`
  missing_parent_output : Error
  -- a primary key is taken: SQLAlchemy's IntegrityError
  integrity_error : Error
  -- KeyError of `PluginRegistry.get`
  unknown_plugin_type : Error
  -- InvalidPluginConfigurationError
  invalid_plugin_configuration : Error
  -- InvalidWorkflowDefinitionError
  invalid_workflow_definition : Error
  workflow_definition_not_found workflow_definition_disabled workflow_execution_not_found : Error
  -- ValueError of `update_next_run`
  missing_trigger_state : Error
  -- ValueError of the configuration loader and of `PluginRegistry._register`
  value_error : Error
  -- OverflowError of `datetime` and `timedelta`
  overflow_error : Error
  -- a number does not fit its column: SQLAlchemy's DataError
  data_error : Error
  -- KeyError of a dict
  key_error : Error
  -- no exception of the source: a loop of the model came to the end of its fuel
  out_of_fuel : Error
  -- whatever a plugin or the database raises
  other_error : Error

pub data Result {ℓ} (A : Type ℓ) : Type ℓ where
  ok : A → Result A
  raised : Error → Result A

infixl 5 ◌>>=◌ ◌>>◌
abbrev pub ◌>>=◌ {ℓ κ} : {A : Type ℓ} {B : Type κ} → Result A → (A → Result B) → Result B
ok a >>= f = f a
raised e >>= f = raised e

abbrev pub ◌>>◌ {ℓ} : {B : Type ℓ} → Result (Unit {0}) → Result B → Result B
m >> k = m >>= λ _. k

-- `if c: raise e`
abbrev pub raise_if : Bool → Error → Result (Unit {0})
raise_if c e = if c then raised e else ok tt

pub Result-cases {ℓ} :
    {A : Type ℓ} (r : Result A) → ((e : Error) × (r ≡ raised e)) ⊎ ((a : A) × (r ≡ ok a))
Result-cases (raised e) = inl (e, refl)
Result-cases (ok a) = inr (a, refl)

-- A bind that succeeds.
pub bind_lem :
    {A B : Type 0} (m : Result A) (f : A → Result B) (b : B)
    → (m >>= f) ≡ ok b
    → (a : A) × (m ≡ ok a) × (f a ≡ ok b)
bind_lem (ok a) f b h = (a, refl, h)
bind_lem (raised e) f b h = cc
