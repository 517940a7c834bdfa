-- ===== src/Launch/Ids.antt =====
-- The identifiers of a new execution: a dict from task definitions to values of `uuid4()`.
use automation_platform.Base.{
  ℕ, suc, ◌<◌, ◌≡◌, ◌≢◌, length, Bool, false, Option, none, some, List, [], ◌∷◌, arith, sym, ap,
  ◌∙◌, ◌⊎◌, inl, inr, subst, ◌==◌, Bool-cases, count,
}
use automation_platform.Domain.{Uuid, TaskDefinition}
use automation_platform.Executions.Invariant.{unmet}
use automation_platform.Errors.{ok, raised, key_error}
use automation_platform.Launch.{new_ids, items}
use automation_platform.Launch.Lookup.{Dict, lookup, item, set_item, lookup-set_item}
use automation_platform.Launch.Rows.{cons_lem}

-- Different keys have different values.
abbrev pub Separates : Dict Uuid → Type 0
Separates d = (a b i : Uuid) → lookup a d ≡ some i → lookup b d ≡ some i → a ≡ b

-- All values are among the first `n`.
abbrev pub Numbered : (ℕ → Uuid) → ℕ → Dict Uuid → Type 0
Numbered fresh n d = (a i : Uuid) → lookup a d ≡ some i → (m : ℕ) × m < n × (i ≡ fresh m)

pub lookup-item : {A : Type 0} (k : ℕ) (d : Dict A) (v : A) → item k d ≡ ok v → lookup k d ≡ some v
lookup-item {A = A} k d v h = go (lookup k d) h
  where
    go : (o : Option A) → (elim o [ none ↦ raised key_error | some v ↦ ok v ]) ≡ ok v → o ≡ some v
    go none h = cc
    go (some x) h = cc

lookup-set_item_cases :
    (a k v i : Uuid) (d : Dict Uuid)
    → lookup a (set_item k v d) ≡ some i
    → ((a ≡ k) × (i ≡ v)) ⊎ (lookup a d ≡ some i)
lookup-set_item_cases a k v i d h = elim (Bool-cases (a == k)) [
  | inl t ↦ inl (ground arith, ground (arith, lookup-set_item a k v d))
  | inr f ↦ inr (ground (arith, lookup-set_item a k v d))
]

module _ (fresh : ℕ → Uuid) (distinct : (m n : ℕ) → fresh m ≡ fresh n → m ≡ n) where
  set_item-Numbered :
      (n : ℕ) (k : Uuid) (d : Dict Uuid)
      → Numbered fresh n d
      → Numbered fresh (suc n) (set_item k (fresh n) d)
  set_item-Numbered n k d h a i e = elim (lookup-set_item_cases a k (fresh n) i d e) [
    | inl (_, eq) ↦ (n, omega arith, eq)
    | inr old ↦ let (m, lt, eq) = h a i old in (m, omega arith, eq)
  ]

  -- The next value is not in the dict.
  next_is_new :
      (n : ℕ) (d : Dict Uuid)
      → Numbered fresh n d
      → (b i : Uuid) → i ≡ fresh n
      → lookup b d ≡ some i
      → ⊥
  next_is_new n d h b i e l =
      let (m, lt, eq) = h b i l in let same : m ≡ n = distinct m n (sym eq ∙ e) in omega arith

  set_item-Separates :
      (n : ℕ) (k : Uuid) (d : Dict Uuid)
      → Numbered fresh n d
      → Separates d
      → Separates (set_item k (fresh n) d)
  set_item-Separates n k d h s a b i ea eb = elim (lookup-set_item_cases a k (fresh n) i d ea) [
    | inl (ka, ia) ↦ elim (lookup-set_item_cases b k (fresh n) i d eb) [
      | inl (kb, ib) ↦ ka ∙ sym kb
      | inr old ↦ absurd (next_is_new n d h b i ia old)
    ]
    | inr olda ↦ elim (lookup-set_item_cases b k (fresh n) i d eb) [
      | inl (kb, ib) ↦ absurd (next_is_new n d h a i ib olda)
      | inr oldb ↦ s a b i olda oldb
    ]
  ]

  pub new_ids_lem :
      (n : ℕ) (ts : List TaskDefinition) (d : Dict Uuid)
      → Numbered fresh n d
      → Separates d
      → Separates (new_ids fresh n ts d)
        × ((a i : Uuid) → lookup a (new_ids fresh n ts d) ≡ some i → (m : ℕ) × (i ≡ fresh m))
  unfolding new_ids
  new_ids_lem n [] d h s = (s, λ a i e. let (m, lt, eq) = h a i e in (m, eq))
  new_ids_lem n (t ∷ ts) d h s =
      new_ids_lem (suc n) ts (set_item t.id (fresh n) d) (set_item-Numbered n t.id d h)
        (set_item-Separates n t.id d h s)

-- Values are equal where their keys are.
pub same_test :
    (ids : Dict Uuid)
    → Separates ids
    → (a i k v : Uuid) → lookup a ids ≡ some i
    → lookup k ids ≡ some v
    → (i == v) ≡ (a == k)
same_test ids s a i k v h hk = elim (Bool-cases (a == k)) [
  | inl t ↦
      let e : a ≡ k = ground arith in
      let l : lookup k ids ≡ some i = subst (λ x. lookup x ids ≡ some i) e h in
      let eq : some i ≡ some v = sym l ∙ hk in ground arith
  | inr f ↦ elim (Bool-cases (i == v)) [
    | inl t ↦
        let e : i ≡ v = ground arith in
        let l : lookup k ids ≡ some i = hk ∙ ap (λ x. some x) (sym e) in
        let eq : a ≡ k = s a k i h l in ground arith
    | inr g ↦ g ∙ sym f
  ]
]

-- A task is as often a parent of an execution as its definition is a dependency.
pub count-items :
    (ids : Dict Uuid)
    → Separates ids
    → (a i : Uuid) → lookup a ids ≡ some i
    → (ks vs : List Uuid) → items ks ids ≡ ok vs
    → count i vs ≡ count a ks
unfolding items
count-items ids s a i h [] vs e = ground arith
count-items ids s a i h (k ∷ ks) us e =
    let (v, vs, hv, hvs, eq) = cons_lem (item k ids) (items ks ids) us e in
    let hk = lookup-item k ids v hv in
    let ih = count-items ids s a i h ks vs hvs in
    let same = same_test ids s a i k v h hk in rw eq (ground (arith, same, ih))

-- A task that is not of this execution is no parent.
pub count-items_other :
    (ids : Dict Uuid) (i : Uuid)
    → ((a : Uuid) → lookup a ids ≢ some i)
    → (ks vs : List Uuid) → items ks ids ≡ ok vs
    → count i vs ≡ 0
unfolding items
count-items_other ids i ne [] vs e = ground arith
count-items_other ids i ne (k ∷ ks) us e =
    let (v, vs, hv, hvs, eq) = cons_lem (item k ids) (items ks ids) us e in
    let ih = count-items_other ids i ne ks vs hvs in
    let n : (i == v) ≡ false = elim (Bool-cases (i == v)) [
      | inl b ↦
          let same : v ≡ i = ground arith in
          absurd (ne k (lookup-item k ids v hv ∙ ap (λ x. some x) same))
      | inr b ↦ b
    ] in
    rw eq (ground arith)

-- If no task of this execution is done, all parents are to be waited for.
pub unmet-items :
    (ids : Dict Uuid) (d : Uuid → Bool)
    → ((a i : Uuid) → lookup a ids ≡ some i → d i ≡ false)
    → (ks vs : List Uuid) → items ks ids ≡ ok vs
    → unmet d vs ≡ length ks
unfolding items
unmet-items ids d nd [] vs e = ground arith
unmet-items ids d nd (k ∷ ks) us e =
    let (v, vs, hv, hvs, eq) = cons_lem (item k ids) (items ks ids) us e in
    let ih = unmet-items ids d nd ks vs hvs in
    let n = nd k v (lookup-item k ids v hv) in rw eq (ground arith)
