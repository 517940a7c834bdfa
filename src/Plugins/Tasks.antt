-- ===== src/Plugins/Tasks.antt =====
-- The task plugins of src/automation_platform/plugins/tasks/implementations.
use automation_platform.Base.{
  Bool, true, false, Option, none, some, List, [], ◌∷◌, String, if◌then◌else◌,
}
use automation_platform.Domain.{Fields, end, field, Value, null, text, object, TaskOutput}
use automation_platform.Errors.{ok, raised, invalid_plugin_configuration, raise_if, ◌>>◌}
use automation_platform.Plugins.{TaskPlugin, get_field, has_other_keys, is_end}

-- `{task_key: output.values for …}`
pub collected : List (String × TaskOutput) → Fields
collected [] = end
collected ((key, output) ∷ inputs) = field key (object output.values) (collected inputs)

-- `CollectInputsTask`
unfoldable pub collect_inputs : TaskPlugin
unfolding collected
collect_inputs = record {
  plugin_type = "collect_inputs";
  validate_configuration =
      λ configuration. if is_end configuration then ok tt else raised invalid_plugin_configuration;
  execute = λ context. ok (record {
    succeeded = true;
    output = record { values = collected context.inputs };
    message = none;
  });
}

abbrev is_text : Option Value → Bool
is_text none = true
is_text (some (text _)) = true
is_text (some _) = false

-- The message of a configuration that passed `validate_configuration`.
abbrev fail_message : Option Value → String
fail_message (some (text message)) = message
fail_message _ = "Task configured to fail."

-- `FailTask`
unfoldable pub fail : TaskPlugin
fail = record {
  plugin_type = "fail";
  validate_configuration = λ configuration.
      raise_if (has_other_keys "message" configuration) invalid_plugin_configuration
      >> (if is_text (get_field "message" configuration)
          then ok tt
          else raised invalid_plugin_configuration);
  execute = λ context. ok (record {
    succeeded = false;
    output = record { values = end };
    message = some (fail_message (get_field "message" context.configuration));
  });
}

abbrev or_null : Option Value → Value
or_null none = null
or_null (some v) = v

-- `ProduceValueTask`
unfoldable pub produce_value : TaskPlugin
produce_value = record {
  plugin_type = "produce_value";
  validate_configuration = λ configuration. elim (get_field "value" configuration) [
    | none ↦ raised invalid_plugin_configuration
    | some _ ↦ raise_if (has_other_keys "value" configuration) invalid_plugin_configuration
  ];
  execute = λ context. ok (record {
    succeeded = true;
    output = record {
      values = field "value" (or_null (get_field "value" context.configuration)) end;
    };
    message = none;
  });
}
