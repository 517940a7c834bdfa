-- ===== src/Definitions/Cycle/Initial.antt =====
-- The counters and the stack before the first round.
use mathlib.Core.Bool.{false≢true}
use automation_platform.Base.{
  ℕ, ◌+◌, ◌≡◌, refl, false, ◌||◌, Option, none, some, List, [], ◌∷◌, String, map, arith, ◌==◌,
  if◌then◌else◌, inl, inr, sym, ap, ◌∙◌, subst, Bool-cases, length,
}
use automation_platform.Table.{In}
use automation_platform.Texts.{
  same, same_refl, same-cases, same_sym, has_text, occurrences, TextDict, get_text, set_text,
  get_text-set_text, Distinct, occurrences_present,
}
use automation_platform.Definitions.Cycle.{CreateTaskDefinition, dependency_counts, push_ready}
use automation_platform.Definitions.Cycle.Children.{task_keys}
use automation_platform.Definitions.Cycle.Loop.{Inv, unprocessed, missing}

abbrev dict_keys : TextDict ℕ → List String
dict_keys = map (λ e. e.0)

has_text-set_text :
    (j k : String) (n : ℕ) (d : TextDict ℕ)
    → has_text j (dict_keys (set_text k n d)) ≡ (same j k || has_text j (dict_keys d))
has_text-set_text j k n [] = refl
has_text-set_text j k n ((i, m) ∷ d) = elim (same-cases k i) [
  | inl (e, t) ↦ let q = ap (same j) e in rw t (ground arith)
  | inr (_, f) ↦ rw f (ground (arith, has_text-set_text j k n d))
]

set_text-Distinct :
    (k : String) (n : ℕ) (d : TextDict ℕ)
    → Distinct (dict_keys d)
    → Distinct (dict_keys (set_text k n d))
set_text-Distinct k n [] u = (refl, tt)
set_text-Distinct k n ((i, m) ∷ d) (x, u) = elim (same-cases k i) [
  | inl (e, t) ↦ rw t (x, u)
  | inr (_, f) ↦
      rw f (has_text-set_text i k n d ∙ rw (same_sym i k ∙ f) x, set_text-Distinct k n d u)
]

dependency_counts-Distinct :
    (ts : List CreateTaskDefinition) (d : TextDict ℕ)
    → Distinct (dict_keys d)
    → Distinct (dict_keys (dependency_counts ts d))
unfolding dependency_counts
dependency_counts-Distinct [] d u = u
dependency_counts-Distinct (t ∷ ts) d u =
    dependency_counts-Distinct ts (set_text t.key (length t.dependencies) d)
      (set_text-Distinct t.key (length t.dependencies) d u)

dependency_counts_other :
    (k : String) (ts : List CreateTaskDefinition) (d : TextDict ℕ)
    → has_text k (task_keys ts) ≡ false
    → get_text k (dependency_counts ts d) ≡ get_text k d
unfolding dependency_counts
dependency_counts_other k [] d h = refl
dependency_counts_other k (t ∷ ts) d h =
    dependency_counts_other k ts (set_text t.key (length t.dependencies) d) (ground arith)
    ∙ ground (arith, get_text-set_text k t.key (length t.dependencies) d)

dependency_counts_lem :
    (t : CreateTaskDefinition) (ts : List CreateTaskDefinition) (d : TextDict ℕ)
    → Distinct (task_keys ts)
    → In t ts
    → get_text t.key (dependency_counts ts d) ≡ some (length t.dependencies)
unfolding dependency_counts
dependency_counts_lem t [] d u i = absurd i
dependency_counts_lem t (x ∷ ts) d (n, u) (inl e) =
    subst
      (λ y.
        get_text y.key (dependency_counts ts (set_text x.key (length x.dependencies) d))
        ≡ some (length y.dependencies))
      (sym e)
      (dependency_counts_other x.key ts (set_text x.key (length x.dependencies) d) n
        ∙ get_text-set_text x.key x.key (length x.dependencies) d
        ∙ rw (same_refl x.key) refl)
dependency_counts_lem t (x ∷ ts) d (n, u) (inr i) =
    dependency_counts_lem t ts (set_text x.key (length x.dependencies) d) u i

abbrev is_zero : Option ℕ → ℕ
is_zero none = 0
is_zero (some n) = if n == 0 then 1 else 0

get_text_absent :
    (k : String) (d : TextDict ℕ) → has_text k (dict_keys d) ≡ false → get_text k d ≡ none
get_text_absent k [] h = refl
get_text_absent k ((i, m) ∷ d) h = ground (arith, get_text_absent k d)

occurrences-push_ready :
    (k : String) (d : TextDict ℕ) (ready : List String)
    → Distinct (dict_keys d)
    → occurrences k (push_ready d ready) ≡ occurrences k ready + is_zero (get_text k d)
unfolding push_ready
occurrences-push_ready k [] ready u = omega arith
occurrences-push_ready k ((i, n) ∷ d) ready (x, u) =
    occurrences-push_ready k d (if n == 0 then i ∷ ready else ready) u ∙ elim (same-cases k i) [
      | inl (e, t) ↦
          let a : get_text k d ≡ none =
            get_text_absent k d (subst (λ y. has_text y (dict_keys d) ≡ false) (sym e) x) in
          rw (t, a) (ground arith)
      | inr (_, f) ↦ rw f (ground arith)
    ]

unprocessed-nil : (ds : List String) → unprocessed [] ds ≡ length ds
unprocessed-nil [] = refl
unprocessed-nil (d ∷ ds) = omega (arith, unprocessed-nil ds)

pub missing-nil : (ts : List CreateTaskDefinition) → missing [] ts ≡ length ts
missing-nil [] = refl
missing-nil (t ∷ ts) = omega (arith, missing-nil ts)

pub Inv-initial :
    (ts : List CreateTaskDefinition)
    → Distinct (task_keys ts)
    → Inv ts [] (dependency_counts ts []) (push_ready (dependency_counts ts []) []) 0
Inv-initial ts u =
    let counts = dependency_counts ts [] in
    let distinct = dependency_counts-Distinct ts [] tt in
    record {
      counted = λ t i.
          dependency_counts_lem t ts [] u i
          ∙ ap (λ x. some x) (sym (unprocessed-nil t.dependencies));
      listed = λ t i.
          let a = occurrences-push_ready t.key counts [] distinct in
          let b = ap is_zero (dependency_counts_lem t ts [] u i) in
          let c = unprocessed-nil t.dependencies in rw c (ground arith);
      known = λ k h. elim (Bool-cases (has_text k (task_keys ts))) [
        | inl t ↦ t
        | inr f ↦
            let a = occurrences-push_ready k counts [] distinct in
            let b = ap is_zero (dependency_counts_other k ts [] f) in
            let c = occurrences_present k (push_ready counts []) h in absurd (omega arith)
      ];
      finished = λ t i h. absurd (false≢true h);
      sound = λ k h. absurd (false≢true h);
      total = omega (arith, missing-nil ts);
    }
