-- ===== src/Examples/Catalog.antt =====
-- The theorems about the storage of workflow definitions, at a definition with two tasks and a trigger
-- beside the rows of another definition.
use automation_platform.Base.{
  ℕ, ◌≡◌, refl, false, some, String, List, [], ◌∷◌, true, inl, inr, arith,
}
use automation_platform.Domain.{Uuid, end, TaskDefinition, TriggerDefinition, WorkflowDefinition}
use automation_platform.Errors.{ok, raised, integrity_error, data_error}
use automation_platform.Texts.{same}
use automation_platform.Catalog.{Catalog, save, load, delete}
use automation_platform.Catalog.Order.{AllFit, late_dependency_raises}
use automation_platform.Catalog.Deletion.{delete_with_dependency_raises}
use automation_platform.Catalog.RoundTrip.{IsStorable, IsNew}
use automation_platform.Catalog.Saved.{save_then_load}

abbrev task_definition : Uuid → String → List Uuid → TaskDefinition
task_definition i k deps = record {
  id = i;
  plugin_type = "collect_inputs";
  key = k;
  configuration = end;
  dependencies = deps;
  max_tries = 3;
}

abbrev each_minute : TriggerDefinition
each_minute = record { id = 35; plugin_type = "interval"; configuration = end; enabled = true }

abbrev definition : List TaskDefinition → WorkflowDefinition
definition ts = record {
  id = 30;
  name = "report";
  description = "";
  task_definitions = ts;
  trigger_definitions = each_minute ∷ [];
  enabled = true;
}

abbrev load_first : WorkflowDefinition
load_first = definition (task_definition 31 "load" [] ∷ task_definition 32 "report" (31 ∷ []) ∷ [])

-- The report is listed first, and what it depends on later.
abbrev load_last : WorkflowDefinition
load_last = definition (
    task_definition 32 "report" (31 ∷ [])
    ∷ task_definition 33 "check" []
    ∷ task_definition 31 "load" []
    ∷ [])

-- Another definition, of one task.
abbrev pub catalog : Catalog
catalog = record {
  definitions = record { id = 20; name = "other"; description = ""; enabled = true } ∷ [];
  tasks =
      record {
        id = 21;
        workflow_definition_id = 20;
        key = "load";
        plugin_type = "produce_value";
        configuration = end;
        max_tries = 1;
      }
      ∷ [];
  dependencies = [];
  triggers = [];
}

abbrev catalog_after : Catalog
catalog_after = record {
  definitions =
      record { id = 20; name = "other"; description = ""; enabled = true }
      ∷ record { id = 30; name = "report"; description = ""; enabled = true }
      ∷ [];
  tasks =
      record {
        id = 31;
        workflow_definition_id = 30;
        key = "load";
        plugin_type = "collect_inputs";
        configuration = end;
        max_tries = 3;
      }
      ∷ record {
        id = 32;
        workflow_definition_id = 30;
        key = "report";
        plugin_type = "collect_inputs";
        configuration = end;
        max_tries = 3;
      }
      ∷ [];
  dependencies = record { task_definition_id = 32; depends_on_task_definition_id = 31 } ∷ [];
  triggers =
      record {
        id = 35;
        workflow_definition_id = 30;
        plugin_type = "interval";
        configuration = end;
        enabled = true;
      }
      ∷ [];
}

load_after : load 30 catalog_after ≡ some load_first
unfolding load
load_after = refl

keys_differ : same "load" "report" ≡ false
unfolding same
keys_differ = refl

load_first-AllFit : AllFit load_first.task_definitions
load_first-AllFit t i = elim i [
  | inl e ↦ rw e refl
  | inr j ↦ elim j [ inl e ↦ rw e refl | inr k ↦ absurd k ]
]

load_last-AllFit : AllFit load_last.task_definitions
load_last-AllFit t i = elim i [
  | inl e ↦ rw e refl
  | inr j ↦ elim j [ inl e ↦ rw e refl | inr k ↦ elim k [ inl e ↦ rw e refl | inr l ↦ absurd l ] ]
]

load_first-IsStorable : IsStorable load_first
load_first-IsStorable = record {
  ids = (refl, (refl, tt));
  names = (rw keys_differ refl, (refl, tt));
  ordered = (λ k h. ground arith, tt, (λ k h. ground arith, (refl, tt), tt));
  triggers = (refl, tt);
  fits = load_first-AllFit;
}

load_first-IsNew : IsNew load_first catalog
load_first-IsNew = record { tasks = refl; dependencies = refl; triggers = refl }

save_then_load_example :
    (c' : Catalog) × (save load_first catalog ≡ ok c') × (load 30 c' ≡ some load_first)
save_then_load_example = save_then_load load_first catalog load_first-IsStorable load_first-IsNew

late_dependency_raises_example : save load_last catalog ≡ raised integrity_error
late_dependency_raises_example =
    late_dependency_raises load_last catalog [] (task_definition 32 "report" (31 ∷ []))
      (task_definition 33 "check" [] ∷ task_definition 31 "load" [] ∷ []) 31 load_last-AllFit refl
      refl refl refl

delete_with_dependency_raises_example : delete 30 [] catalog_after ≡ raised integrity_error
delete_with_dependency_raises_example =
    delete_with_dependency_raises 30 [] catalog_after load_first
      (task_definition 32 "report" (31 ∷ [])) 31 load_after (inr (inl refl)) refl

abbrev with_tries : ℕ → WorkflowDefinition
with_tries n = definition (record (task_definition 31 "load" []) { max_tries = n } ∷ [])

-- The first number of tries that does not fit into its column.
too_many_tries : save (with_tries 2147483648) catalog ≡ raised data_error
unfolding save
too_many_tries = refl
