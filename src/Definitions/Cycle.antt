-- ===== src/Definitions/Cycle.antt =====
-- `WorkflowDefinitionService._has_dependency_cycle`: Kahn's algorithm on the keys of the tasks. The
-- stack `ready` stands with its last element, the next to pop, in front. A counter below 1 never
-- comes to 0 by a decrement, so naturals serve: a decrement leads to 0 exactly from 1.
pub mod Release
pub mod Children
pub mod Loop
pub mod Round
pub mod Initial
pub mod Correct
pub mod Ends
use automation_platform.Base.{
  ℕ, zero, suc, ◌+◌, ◌-◌, Bool, not, Option, none, some, List, [], ◌∷◌, ◌++◌, String, length, ◌==◌,
  if◌then◌else◌,
}
use automation_platform.Domain.{Fields}
use automation_platform.Errors.{Result, ok, raised, key_error, out_of_fuel, ◌>>=◌}
use automation_platform.Texts.{TextDict, text_item, get_text, set_text}

pub record CreateTaskDefinition : Type 0 where
  pub plugin_type : String
  pub key : String
  pub configuration : Fields
  pub dependencies : List String
  pub max_tries : ℕ

-- `{task.key: len(task.dependencies) for task in tasks}`
pub dependency_counts : List CreateTaskDefinition → TextDict ℕ → TextDict ℕ
dependency_counts [] d = d
dependency_counts (t ∷ ts) d = dependency_counts ts (set_text t.key (length t.dependencies) d)

-- `{task.key: [] for task in tasks}`
pub empty_children : List CreateTaskDefinition → TextDict (List String) → TextDict (List String)
empty_children [] d = d
empty_children (t ∷ ts) d = empty_children ts (set_text t.key [] d)

-- `for dependency in task.dependencies: children[dependency].append(task.key)`
pub append_key : String → List String → TextDict (List String) → Result (TextDict (List String))
append_key k [] d = ok d
append_key k (p ∷ ps) d = text_item p d >>= λ kids. append_key k ps (set_text p (kids ++ k ∷ []) d)

pub append_keys :
    List CreateTaskDefinition → TextDict (List String) → Result (TextDict (List String))
unfolding append_key
append_keys [] d = ok d
append_keys (t ∷ ts) d = append_key t.key t.dependencies d >>= append_keys ts

-- The keys with a counter of 0, pushed in the order of the dict.
pub push_ready : TextDict ℕ → List String → List String
push_ready [] ready = ready
push_ready ((k, n) ∷ d) ready = push_ready d (if n == 0 then k ∷ ready else ready)

-- The inner loop: each child loses a dependency, and is pushed when it has none left.
pub release_children : List String → TextDict ℕ → List String → Result (TextDict ℕ × List String)
release_children [] counts ready = ok (counts, ready)
release_children (k ∷ ks) counts ready = text_item k counts >>= λ n.
    release_children ks (set_text k (n - 1) counts) (if n == 1 then k ∷ ready else ready)

-- The `while` loop, with the number of keys processed.
pub process_ready : ℕ → TextDict (List String) → TextDict ℕ → List String → ℕ → Result ℕ
unfolding release_children
process_ready fuel children counts [] processed = ok processed
process_ready zero children counts (k ∷ ready) processed = raised out_of_fuel
process_ready (suc fuel) children counts (k ∷ ready) processed = text_item k children >>= λ kids.
    release_children kids counts ready >>= λ next.
    process_ready fuel children next.0 next.1 (processed + 1)

-- Each key is pushed at most once, so the number of keys is enough fuel.
unfoldable pub has_dependency_cycle : List CreateTaskDefinition → Result Bool
unfolding dependency_counts empty_children append_keys push_ready process_ready
has_dependency_cycle tasks = do
  let counts = dependency_counts tasks []
  children ← append_keys tasks (empty_children tasks [])
  processed ← process_ready (length tasks) children counts (push_ready counts []) 0
  ok (not (processed == length tasks))
