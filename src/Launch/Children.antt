-- ===== src/Launch/Children.antt =====
-- `_create_child_task_lookup`: a task has a child as often as the child's definition depends on it.
use automation_platform.Base.{
  ℕ, ◌+◌, ◌≡◌, ◌≢◌, refl, true, false, Option, none, some, List, [], ◌∷◌, ◌++◌, arith, sym, ap, ◌∙◌,
  inl, inr, ◌==◌, if◌then◌else◌, Bool-cases, count, subst,
}
use automation_platform.Domain.{Uuid, TaskDefinition}
use automation_platform.Errors.{ok, ◌>>=◌, bind_lem}
use automation_platform.Table.{find, find-ne-none-In, In, UniqueKeys}
use automation_platform.Launch.{
  create_child_task_lookup, no_children, append_child, append_children,
}
use automation_platform.Launch.Lookup.{Dict, lookup, item, set_item, lookup-set_item}
use automation_platform.Launch.Ids.{Separates, lookup-item, same_test}

abbrev pub definition_key : TaskDefinition → ℕ
definition_key t = t.id

abbrev share : Option Uuid → Uuid → ℕ → ℕ
share none j n = 0
share (some c) j n = if j == c then n else 0

-- How often the executed tasks `ts` give the key `q` the child `j`.
abbrev tally : Dict Uuid → Uuid → Uuid → List TaskDefinition → ℕ
tally ids j q [] = 0
tally ids j q (t ∷ ts) = share (lookup t.id ids) j (count q t.dependencies) + tally ids j q ts

count-snoc :
    (j c : Uuid) (xs : List Uuid) → count j (xs ++ c ∷ []) ≡ count j xs + (if j == c then 1 else 0)
count-snoc j c [] = omega arith
count-snoc j c (x ∷ xs) = ground (arith, count-snoc j c xs)

append_child_lem :
    (c j q : Uuid) (ps : List Uuid) (d d' : Dict (List Uuid)) (ys : List Uuid)
    → append_child c ps d ≡ ok d'
    → lookup q d' ≡ some ys
    → (xs : List Uuid) × (lookup q d ≡ some xs)
      × (count j ys ≡ count j xs + (if j == c then count q ps else 0))
unfolding append_child
append_child_lem c j q [] d d' ys h l = let same : d ≡ d' = cc in (ys, rw same l, ground arith)
append_child_lem c j q (p ∷ ps) d d' ys h l =
    let (kids, hi, hk) =
      bind_lem (item p d) (λ kids. append_child c ps (set_item p (kids ++ c ∷ []) d)) d' h in
    let (zs, lz, ez) = append_child_lem c j q ps (set_item p (kids ++ c ∷ []) d) d' ys hk l in
    let lk = lookup-item p d kids hi in
    elim (Bool-cases (q == p)) [
      | inl t ↦
          let e : p ≡ q = ground arith in
          let eq : zs ≡ kids ++ c ∷ [] = ground (arith, lookup-set_item q p (kids ++ c ∷ []) d) in
          let n : count j zs ≡ count j kids + (if j == c then 1 else 0) =
            ap (count j) eq ∙ count-snoc j c kids in
          (kids, subst (λ x. lookup x d ≡ some kids) e lk, ground arith)
      | inr f ↦ (zs, ground (arith, lookup-set_item q p (kids ++ c ∷ []) d), ground arith)
    ]

append_children_lem :
    (ids : Dict Uuid) (j q : Uuid) (ts : List TaskDefinition) (d d' : Dict (List Uuid))
    (ys : List Uuid)
    → append_children ids ts d ≡ ok d'
    → lookup q d' ≡ some ys
    → (xs : List Uuid) × (lookup q d ≡ some xs) × (count j ys ≡ count j xs + tally ids j q ts)
unfolding append_children
append_children_lem ids j q [] d d' ys h l = let same : d ≡ d' = cc in (ys, rw same l, ground arith)
append_children_lem ids j q (t ∷ ts) d d' ys h l =
    let (c, hc, h1) =
      bind_lem (item t.id ids) (λ c. append_child c t.dependencies d >>= append_children ids ts) d'
        h in
    let (e, he, h2) = bind_lem (append_child c t.dependencies d) (append_children ids ts) d' h1 in
    let (zs, lz, ez) = append_children_lem ids j q ts e d' ys h2 l in
    let (xs, lx, ex) = append_child_lem c j q t.dependencies d e zs he lz in
    let lc = lookup-item t.id ids c hc in (xs, lx, rw lc (ground arith))

no_children_lem :
    (q : Uuid) (ts : List TaskDefinition) (d : Dict (List Uuid)) (xs : List Uuid)
    → ((ys : List Uuid) → lookup q d ≡ some ys → ys ≡ [])
    → lookup q (no_children ts d) ≡ some xs
    → xs ≡ []
unfolding no_children
no_children_lem q [] d xs h l = h xs l
no_children_lem q (t ∷ ts) d xs h l =
    no_children_lem q ts (set_item t.id [] d) xs
      (λ ys e. elim (Bool-cases (q == t.id)) [
        | inl b ↦ (ground (arith, lookup-set_item q t.id [] d))
        | inr b ↦ h ys (ground (arith, lookup-set_item q t.id [] d))
      ])
      l

share-lookup :
    (ids : Dict Uuid)
    → Separates ids
    → (a k j n : ℕ) → lookup a ids ≡ some j
    → share (lookup k ids) j n ≡ (if a == k then n else 0)
share-lookup ids s a k j n h = go (lookup k ids) refl
  where
    go : (o : Option Uuid) → lookup k ids ≡ o → share o j n ≡ (if a == k then n else 0)
    go (some c) e = let t = same_test ids s a j k c h e in ground arith
    go none e = elim (Bool-cases (a == k)) [
      | inl t ↦
          let eq : a ≡ k = ground arith in
          let bad : some j ≡ none = sym h ∙ ap (λ x. lookup x ids) eq ∙ e in cc
      | inr f ↦ rw f refl
    ]

tally_absent :
    (ids : Dict Uuid)
    → Separates ids
    → (a j q : Uuid) → lookup a ids ≡ some j
    → (ts : List TaskDefinition) → find definition_key a ts ≡ none
    → tally ids j q ts ≡ 0
tally_absent ids s a j q h [] f = refl
tally_absent ids s a j q h (t ∷ ts) f =
    let f' : find definition_key a ts ≡ none = ground arith in
    let ne : (a == t.id) ≡ false = ground arith in
    let n = share-lookup ids s a t.id j (count q t.dependencies) h in
    let ih = tally_absent ids s a j q h ts f' in ground arith

different :
    (t x : TaskDefinition) (ts : List TaskDefinition)
    → find definition_key x.id ts ≡ none
    → In t ts
    → (t.id == x.id) ≡ false
different t x ts f i = elim (Bool-cases (t.id == x.id)) [
  | inl b ↦
      let e : x.id ≡ t.id = ground arith in
      absurd
        (find-ne-none-In definition_key t ts (subst (λ k. find definition_key k ts ≡ none) e f) i)
  | inr b ↦ b
]

tally_unique :
    (ids : Dict Uuid)
    → Separates ids
    → (j q : Uuid) (ts : List TaskDefinition) (t : TaskDefinition) → UniqueKeys definition_key ts
    → In t ts
    → lookup t.id ids ≡ some j
    → tally ids j q ts ≡ count q t.dependencies
tally_unique ids s j q [] t u i h = absurd i
tally_unique ids s j q (x ∷ ts) t u (inl e) h =
    let n = share-lookup ids s t.id x.id j (count q x.dependencies) h in
    let f : find definition_key t.id ts ≡ none =
      subst (λ y. find definition_key y.id ts ≡ none) (sym e) u.0 in
    let z = tally_absent ids s t.id j q h ts f in
    let eq = ap (λ y. count q y.dependencies) e in
    let same : (t.id == x.id) ≡ true = rw e (ground arith) in ground arith
tally_unique ids s j q (x ∷ ts) t u (inr i) h =
    let n = share-lookup ids s t.id x.id j (count q x.dependencies) h in
    let ih = tally_unique ids s j q ts t u.1 i h in
    let ne : (t.id == x.id) ≡ false = different t x ts u.0 i in ground arith

children_tally :
    (ids : Dict Uuid) (ts : List TaskDefinition) (kids : Dict (List Uuid)) (q j : Uuid)
    (children : List Uuid)
    → create_child_task_lookup ts ids ≡ ok kids
    → item q kids ≡ ok children
    → count j children ≡ tally ids j q ts
unfolding create_child_task_lookup
children_tally ids ts kids q j children h hq =
    let (xs, lx, ex) =
      append_children_lem ids j q ts (no_children ts []) kids children h
        (lookup-item q kids children hq) in
    let e : xs ≡ [] = no_children_lem q ts [] xs (λ ys e. cc) lx in
    let z : count j xs ≡ 0 = ap (count j) e in ex ∙ ground arith

-- `t` is a child of `q` as often as it depends on `q`.
pub create_child_task_lookup_lem :
    (ids : Dict Uuid)
    → Separates ids
    → (ts : List TaskDefinition) (kids : Dict (List Uuid)) (q j : Uuid) (children : List Uuid)
      (t : TaskDefinition)
    → UniqueKeys definition_key ts
    → create_child_task_lookup ts ids ≡ ok kids
    → item q kids ≡ ok children
    → In t ts
    → item t.id ids ≡ ok j
    → count j children ≡ count q t.dependencies
create_child_task_lookup_lem ids s ts kids q j children t u h hq i hj =
    children_tally ids ts kids q j children h hq
    ∙ tally_unique ids s j q ts t u i (lookup-item t.id ids j hj)

tally_other :
    (ids : Dict Uuid) (j q : Uuid)
    → ((a : Uuid) → lookup a ids ≢ some j)
    → (ts : List TaskDefinition) → tally ids j q ts ≡ 0
tally_other ids j q ne [] = refl
tally_other ids j q ne (t ∷ ts) =
    let z : share (lookup t.id ids) j (count q t.dependencies) ≡ 0 = go (lookup t.id ids) refl in
    let ih = tally_other ids j q ne ts in omega arith
  where
    go : (o : Option Uuid) → lookup t.id ids ≡ o → share o j (count q t.dependencies) ≡ 0
    go none e = refl
    go (some c) e = elim (Bool-cases (j == c)) [
      | inl b ↦ let same : c ≡ j = ground arith in absurd (ne t.id (e ∙ ap (λ x. some x) same))
      | inr b ↦ rw b refl
    ]

-- A task that is not of this execution is no child.
pub create_child_task_lookup_other :
    (ids : Dict Uuid) (ts : List TaskDefinition) (kids : Dict (List Uuid)) (q j : Uuid)
    (children : List Uuid)
    → ((a : Uuid) → lookup a ids ≢ some j)
    → create_child_task_lookup ts ids ≡ ok kids
    → item q kids ≡ ok children
    → count j children ≡ 0
create_child_task_lookup_other ids ts kids q j children ne h hq =
    children_tally ids ts kids q j children h hq ∙ tally_other ids j q ne ts
