-- ===== src/Plugins.antt =====
-- The plugin layer: src/automation_platform/plugins. A plugin class is a record of its methods; a
-- registry is the dict that `PluginRegistry` fills from the classes that discovery yields.
pub mod Tasks
pub mod Interval
use text.Mathlib.Text.{◌==◌ as str_eq}
use automation_platform.Base.{
  Bool, true, false, not, Option, none, some, List, [], ◌∷◌, ◌++◌, String, if◌then◌else◌,
}
use automation_platform.Domain.{Time, Fields, end, field, Value, TaskContext, TaskResult}
use automation_platform.Errors.{
  Result, ok, raised, unknown_plugin_type, value_error, invalid_plugin_configuration, ◌>>=◌,
}

-- `Task`, with the methods of the base class `Plugin`
pub record TaskPlugin : Type 0 where
  pub plugin_type : String
  pub validate_configuration : Fields → Result (Unit {0})
  pub execute : TaskContext → Result TaskResult

-- `Trigger`. `next_occurrence` is there if the class is a `ChronologicalTrigger`.
pub record TriggerPlugin : Type 0 where
  pub plugin_type : String
  pub validate_configuration : Fields → Result (Unit {0})
  pub next_occurrence : Option (Fields → Time → Result (Option Time))

-- `configuration.get(key)`
abbrev pub get_field : String → Fields → Option Value
get_field key end = none
get_field key (field k v fs) = if str_eq k key then some v else get_field key fs

-- Some key differs from the one that is allowed: `configuration.keys() - {key}`.
abbrev pub has_other_keys : String → Fields → Bool
has_other_keys key end = false
has_other_keys key (field k v fs) = if str_eq k key then has_other_keys key fs else true

abbrev pub is_end : Fields → Bool
is_end end = true
is_end (field _ _ _) = false

module _ {P : Type 0} (plugin_type : P → String) where
  abbrev pub registered : String → List P → Option P
  registered name [] = none
  registered name (p ∷ ps) = if str_eq (plugin_type p) name then some p else registered name ps

  -- `PluginRegistry.get`
  unfoldable pub get : String → List P → Result P
  get name registry = elim (registered name registry) [
    | none ↦ raised unknown_plugin_type
    | some p ↦ ok p
  ]

  -- `PluginRegistry.contains`
  unfoldable pub contains : String → List P → Bool
  contains name registry = elim (registered name registry) [ none ↦ false | some _ ↦ true ]

  -- `PluginRegistry._register`; `is_blank s` says that `s.strip()` is empty
  unfoldable pub register : (String → Bool) → P → List P → Result (List P)
  register is_blank p registry =
      if is_blank (plugin_type p)
      then raised value_error
      else elim (registered (plugin_type p) registry) [
        | some _ ↦ raised value_error
        | none ↦ ok (registry ++ p ∷ [])
      ]

  -- `PluginRegistry.__init__`, over the classes that discovery yields
  unfoldable pub register_all : (String → Bool) → List P → List P → Result (List P)
  register_all is_blank [] registry = ok registry
  register_all is_blank (p ∷ ps) registry =
      register is_blank p registry >>= register_all is_blank ps
