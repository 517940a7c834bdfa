-- ===== src/Definitions/Cycle/Ends.antt =====
-- The `while` loop ends for all tasks, whatever their keys and dependencies are: each round takes a
-- key from the stack, and a key is pushed only as its counter comes to 0.
use automation_platform.Base.{
  ℕ, zero, suc, ◌+◌, ◌-◌, ◌≡◌, ◌≢◌, ◌≤◌, refl, Option, none, some, List, [], ◌∷◌, ◌++◌, String,
  arith, ◌==◌, if◌then◌else◌, inl, inr, sym, ap, Bool-cases, length,
}
use automation_platform.Errors.{Result, ok, raised, key_error, out_of_fuel, ◌>>=◌, bind_lem}
use automation_platform.Texts.{get_of_item, same, TextDict, get_text, text_item, set_text}
use automation_platform.Definitions.Cycle.{
  CreateTaskDefinition, has_dependency_cycle, dependency_counts, empty_children, append_key,
  append_keys, push_ready, release_children, process_ready,
}

-- The counters that are not 0.
abbrev positives : TextDict ℕ → ℕ
positives [] = 0
positives ((k, n) ∷ d) = (if n == 0 then 0 else 1) + positives d

-- The chain ends by itself.
abbrev Ends : {A : Type 0} → Result A → Type 0
Ends m = m ≢ raised out_of_fuel

bind-Ends :
    {A B : Type 0} (m : Result A) (f : A → Result B)
    → Ends m
    → ((a : A) → m ≡ ok a → Ends (f a))
    → Ends (m >>= f)
bind-Ends (ok a) f h k = k a refl
bind-Ends (raised e) f h k = λ q. h (cc)

text_item-Ends : {A : Type 0} (k : String) (d : TextDict A) → Ends (text_item k d)
text_item-Ends {A} k d = go (get_text k d)
  where
    go : (o : Option A) → Ends (elim o [ none ↦ raised key_error | some v ↦ ok v ])
    go none q = cc
    go (some v) q = cc

positives-set_text :
    (k : String) (n : ℕ) (d : TextDict ℕ)
    → get_text k d ≡ some n
    → positives (set_text k (n - 1) d) + (if n == 1 then 1 else 0) ≡ positives d
positives-set_text k n [] h = cc
positives-set_text k n ((j, m) ∷ d) h = elim (Bool-cases (same k j)) [
  | inl t ↦ let e : m ≡ n = ground arith in rw t (ground arith)
  | inr f ↦ rw f (ground (arith, positives-set_text k n d))
]

release_children-Ends :
    (ks : List String) (counts : TextDict ℕ) (ready : List String)
    → Ends (release_children ks counts ready)
unfolding release_children
release_children-Ends [] counts ready = λ q. cc
release_children-Ends (k ∷ ks) counts ready =
    bind-Ends (text_item k counts) _ (text_item-Ends k counts) (λ n e.
      release_children-Ends ks (set_text k (n - 1) counts) (if n == 1 then k ∷ ready else ready))

-- A key comes onto the stack only as its counter comes to 0.
release_children_work :
    (ks : List String) (counts : TextDict ℕ) (ready : List String) (next : TextDict ℕ × List String)
    → release_children ks counts ready ≡ ok next
    → positives next.0 + length next.1 ≡ positives counts + length ready
unfolding release_children
release_children_work [] counts ready next h =
    let e : (counts, ready) ≡ next = cc in ap (λ x. positives x.0 + length x.1) (sym e)
release_children_work (k ∷ ks) counts ready next h =
    let (n, hn, hr) =
      bind_lem (text_item k counts)
        (λ n. release_children ks (set_text k (n - 1) counts) (if n == 1 then k ∷ ready else ready))
        next h in
    let p = positives-set_text k n counts (get_of_item k counts n hn) in
    let ih =
      release_children_work ks (set_text k (n - 1) counts) (if n == 1 then k ∷ ready else ready)
        next hr in
    ground arith

process_ready-Ends :
    (fuel : ℕ) (children : TextDict (List String)) (counts : TextDict ℕ) (ready : List String)
    (p : ℕ)
    → positives counts + length ready ≤ fuel
    → Ends (process_ready fuel children counts ready p)
unfolding process_ready
process_ready-Ends fuel children counts [] p h = λ q. cc
process_ready-Ends zero children counts (k ∷ ready) p h = absurd (omega arith)
process_ready-Ends (suc fuel) children counts (k ∷ ready) p h =
    bind-Ends (text_item k children) _ (text_item-Ends k children) (λ kids e.
      bind-Ends (release_children kids counts ready) _ (release_children-Ends kids counts ready)
        (λ next r.
          let w = release_children_work kids counts ready next r in
          process_ready-Ends fuel children next.0 next.1 (p + 1) (omega arith)))

append_key-Ends :
    (k : String) (ps : List String) (d : TextDict (List String)) → Ends (append_key k ps d)
unfolding append_key
append_key-Ends k [] d = λ q. cc
append_key-Ends k (p ∷ ps) d =
    bind-Ends (text_item p d) _ (text_item-Ends p d)
      (λ kids e. append_key-Ends k ps (set_text p (kids ++ k ∷ []) d))

append_keys-Ends :
    (ts : List CreateTaskDefinition) (d : TextDict (List String)) → Ends (append_keys ts d)
unfolding append_keys
append_keys-Ends [] d = λ q. cc
append_keys-Ends (t ∷ ts) d =
    bind-Ends (append_key t.key t.dependencies d) _ (append_key-Ends t.key t.dependencies d)
      (λ e q. append_keys-Ends ts e)

length-set_text : (k : String) (n : ℕ) (d : TextDict ℕ) → length (set_text k n d) ≤ length d + 1
length-set_text k n [] = omega arith
length-set_text k n ((j, m) ∷ d) = ground (arith, length-set_text k n d)

length-dependency_counts :
    (ts : List CreateTaskDefinition) (d : TextDict ℕ)
    → length (dependency_counts ts d) ≤ length ts + length d
unfolding dependency_counts
length-dependency_counts [] d = omega arith
length-dependency_counts (t ∷ ts) d = omega (
  arith,
  length-dependency_counts ts (set_text t.key (length t.dependencies) d),
  length-set_text t.key (length t.dependencies) d,
)

push_ready_work :
    (d : TextDict ℕ) (ready : List String)
    → positives d + length (push_ready d ready) ≡ length d + length ready
unfolding push_ready
push_ready_work [] ready = omega arith
push_ready_work ((k, n) ∷ d) ready =
    ground (arith, push_ready_work d (if n == 0 then k ∷ ready else ready))

-- The cycle check ends for any list of tasks, also with repeated keys and unknown dependencies: as
-- many rounds as there are tasks are enough.
pub has_dependency_cycle_ends :
    (ts : List CreateTaskDefinition) → has_dependency_cycle ts ≢ raised out_of_fuel
unfolding has_dependency_cycle
has_dependency_cycle_ends ts =
    let counts = dependency_counts ts [] in
    bind-Ends (append_keys ts (empty_children ts [])) _ (append_keys-Ends ts (empty_children ts []))
      (λ children e.
        bind-Ends (process_ready (length ts) children counts (push_ready counts []) 0) _
          (process_ready-Ends (length ts) children counts (push_ready counts []) 0
            (omega (arith, push_ready_work counts [], length-dependency_counts ts [])))
          (λ p q r. cc))
