-- ===== src/Launch/Total.antt =====
-- A start of a valid definition raises nothing: the dicts have the keys that are looked up.
use automation_platform.Base.{
  ℕ, suc, ◌≡◌, refl, Bool, true, false, Option, none, some, List, [], ◌∷◌, ◌++◌, map, arith, sym,
  ap, ◌∙◌, inl, inr, ◌==◌, ◌||◌, Bool-cases, contains,
}
use mathlib.Core.Bool.{false≢true}
use automation_platform.Domain.{Uuid, TaskDefinition, TaskExecution}
use automation_platform.Errors.{ok, raised, key_error, ◌>>=◌}
use automation_platform.Launch.{
  new_ids, no_children, append_child, append_children, create_child_task_lookup, items,
  new_executions,
}
use automation_platform.Launch.Lookup.{Dict, lookup, item, set_item, lookup-set_item}
use automation_platform.Launch.Rows.{next_round, chain_ok}
use automation_platform.Launch.Children.{definition_key}

-- `k in d`
abbrev pub has : {A : Type 0} → ℕ → Dict A → Bool
has k d = elim (lookup k d) [ none ↦ false | some _ ↦ true ]

has-set_item :
    {A : Type 0} (k j : ℕ) (v : A) (d : Dict A) → has k (set_item j v d) ≡ (k == j || has k d)
has-set_item k j v d = ground (arith, lookup-set_item k j v d)

item-has : {A : Type 0} (k : ℕ) (d : Dict A) → has k d ≡ true → (v : A) × (item k d ≡ ok v)
item-has {A = A} k d h = go (lookup k d) h
  where
    go :
        (o : Option A)
        → (elim o [ none ↦ false | some _ ↦ true ]) ≡ true
        → (v : A) × ((elim o [ none ↦ raised key_error | some v ↦ ok v ]) ≡ ok v)
    go none h = absurd (false≢true h)
    go (some v) h = (v, refl)

-- All of the keys are in the dict.
abbrev pub HasAll : {A : Type 0} → List ℕ → Dict A → Type 0
HasAll ks d = (k : ℕ) → contains k ks ≡ true → has k d ≡ true

abbrev pub definition_ids : List TaskDefinition → List Uuid
definition_ids = map definition_key

pub has-new_ids :
    (fresh : ℕ → Uuid) (n : ℕ) (ts : List TaskDefinition) (d : Dict Uuid) (k : Uuid)
    → has k (new_ids fresh n ts d) ≡ (contains k (definition_ids ts) || has k d)
unfolding new_ids
has-new_ids fresh n [] d k = refl
has-new_ids fresh n (t ∷ ts) d k = ground (
  arith,
  has-new_ids fresh (suc n) ts (set_item t.id (fresh n) d) k,
  has-set_item k t.id (fresh n) d,
)

has-no_children :
    (ts : List TaskDefinition) (d : Dict (List Uuid)) (k : Uuid)
    → has k (no_children ts d) ≡ (contains k (definition_ids ts) || has k d)
unfolding no_children
has-no_children [] d k = refl
has-no_children (t ∷ ts) d k =
    ground (arith, has-no_children ts (set_item t.id [] d) k, has-set_item k t.id [] d)

items_total :
    (ks : List Uuid) (ids : Dict Uuid) → HasAll ks ids → (vs : List Uuid) × (items ks ids ≡ ok vs)
unfolding items
items_total [] ids h = ([], refl)
items_total (k ∷ ks) ids h =
    let (v, hv) = item-has k ids (h k (ground arith)) in
    let (vs, hvs) = items_total ks ids (λ j e. h j (ground arith)) in
    (
      v ∷ vs,
      ap (λ m. m >>= λ v. items ks ids >>= λ vs. ok (v ∷ vs)) hv
          ∙ ap (λ m. m >>= λ vs. ok (v ∷ vs)) hvs,
    )

append_child_total :
    (c : Uuid) (ps : List Uuid) (d : Dict (List Uuid))
    → HasAll ps d
    → (d' : Dict (List Uuid)) × (append_child c ps d ≡ ok d') × ((k : ℕ) → has k d' ≡ has k d)
unfolding append_child
append_child_total c [] d h = (d, refl, λ k. refl)
append_child_total c (p ∷ ps) d h =
    let hp : has p d ≡ true = h p (ground arith) in
    let (kids, hk) = item-has p d hp in
    let e = set_item p (kids ++ c ∷ []) d in
    let same : (k : ℕ) → has k e ≡ has k d = λ k. elim (Bool-cases (k == p)) [
      | inl b ↦
          let q : k ≡ p = ground arith in has-set_item k p (kids ++ c ∷ []) d ∙ rw (b, q) (sym hp)
      | inr b ↦ ground (arith, has-set_item k p (kids ++ c ∷ []) d)
    ] in
    let (d', hd, keep) = append_child_total c ps e (λ k i. same k ∙ h k (ground arith)) in
    (
      d',
      ap (λ m. m >>= λ kids. append_child c ps (set_item p (kids ++ c ∷ []) d)) hk ∙ hd,
      λ k. keep k ∙ same k,
    )

-- Each definition is among `all`, and so are its dependencies.
abbrev pub Closed : List TaskDefinition → List TaskDefinition → Type 0
Closed all [] = Unit
Closed all (t ∷ ts) =
    (contains t.id (definition_ids all) ≡ true)
    × ((k : Uuid) → contains k t.dependencies ≡ true → contains k (definition_ids all) ≡ true)
    × Closed all ts

append_children_total :
    (ids : Dict Uuid) (all ts : List TaskDefinition) (d : Dict (List Uuid))
    → HasAll (definition_ids all) ids
    → HasAll (definition_ids all) d
    → Closed all ts
    → (d' : Dict (List Uuid)) × (append_children ids ts d ≡ ok d') × ((k : ℕ) → has k d' ≡ has k d)
unfolding append_children
append_children_total ids all [] d hi hd c = (d, refl, λ k. refl)
append_children_total ids all (t ∷ ts) d hi hd (own, deps, rest) =
    let (i, e) = item-has t.id ids (hi t.id own) in
    let (d1, e1, k1) = append_child_total i t.dependencies d (λ k h. hd k (deps k h)) in
    let (d2, e2, k2) = append_children_total ids all ts d1 hi (λ k h. k1 k ∙ hd k h) rest in
    (
      d2,
      ap (λ m. m >>= λ c. append_child c t.dependencies d >>= append_children ids ts) e
          ∙ ap (λ m. m >>= append_children ids ts) e1
          ∙ e2,
      λ k. k2 k ∙ k1 k,
    )

pub new_executions_total :
    (w : Uuid) (ids : Dict Uuid) (kids : Dict (List Uuid)) (all ts : List TaskDefinition)
    → HasAll (definition_ids all) ids
    → HasAll (definition_ids all) kids
    → Closed all ts
    → (r : List TaskExecution × List Uuid) × (new_executions w ids kids ts ≡ ok r)
unfolding new_executions
new_executions_total w ids kids all [] hi hk c = (([], []), refl)
new_executions_total w ids kids all (t ∷ ts) hi hk (own, deps, rest) =
    let (i, ei) = item-has t.id ids (hi t.id own) in
    let (ps, ep) = items_total t.dependencies ids (λ k h. hi k (deps k h)) in
    let (cs, ec) = item-has t.id kids (hk t.id own) in
    let (r, er) = new_executions_total w ids kids all ts hi hk rest in
    (next_round w t i ps cs r, chain_ok w t _ _ _ _ i ps cs r ei ep ec er)

pub create_child_task_lookup_total :
    (ids : Dict Uuid) (ts : List TaskDefinition)
    → HasAll (definition_ids ts) ids
    → Closed ts ts
    → (kids : Dict (List Uuid)) × (create_child_task_lookup ts ids ≡ ok kids)
      × HasAll (definition_ids ts) kids
unfolding create_child_task_lookup
create_child_task_lookup_total ids ts hi c =
    let all : HasAll (definition_ids ts) (no_children ts []) =
      λ k h. has-no_children ts [] k ∙ rw h refl in
    let (kids, e, keep) = append_children_total ids ts ts (no_children ts []) hi all c in
    (kids, e, λ k h. keep k ∙ all k h)
