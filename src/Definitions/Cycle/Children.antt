-- ===== src/Definitions/Cycle/Children.antt =====
-- The children of a key: each task as often as the key is among its dependencies.
use mathlib.Core.Bool.{false≢true}
use automation_platform.Base.{
  ℕ, ◌+◌, ◌≡◌, refl, true, false, some, List, [], ◌∷◌, ◌++◌, String, ◌⊎◌, arith, if◌then◌else◌, inl,
  inr, sym, ap, ◌∙◌, subst, Bool-cases, map,
}
use automation_platform.Errors.{ok, ◌>>=◌}
use automation_platform.Table.{In}
use automation_platform.Texts.{
  same, same_refl, eq_of_same, has_text, occurrences, TextDict, get_text, set_text,
  get_text-set_text, Distinct,
}
use automation_platform.Definitions.Cycle.{
  CreateTaskDefinition, empty_children, append_key, append_keys,
}
use automation_platform.Definitions.Cycle.Release.{item_of_get}

abbrev pub task_keys : List CreateTaskDefinition → List String
task_keys = map (λ t. t.key)

-- Every dependency of the tasks `ts` is the key of one of the tasks `all`.
abbrev pub Known : List CreateTaskDefinition → List CreateTaskDefinition → Type 0
Known all [] = Unit
Known all (t ∷ ts) =
    ((d : String) → has_text d t.dependencies ≡ true → has_text d (task_keys all) ≡ true)
    × Known all ts

-- How often the tasks `ts` give the key `q` the child `j`.
abbrev pub tally : String → String → List CreateTaskDefinition → ℕ
tally j q [] = 0
tally j q (t ∷ ts) = (if same j t.key then occurrences q t.dependencies else 0) + tally j q ts

abbrev Keys : {A : Type 0} → List String → TextDict A → Type 0
Keys {A} ks d = (k : String) → has_text k ks ≡ true → (v : A) × (get_text k d ≡ some v)

occurrences-snoc :
    (j k : String) (xs : List String)
    → occurrences j (xs ++ k ∷ []) ≡ occurrences j xs + (if same j k then 1 else 0)
occurrences-snoc j k [] = omega arith
occurrences-snoc j k (x ∷ xs) = ground (arith, occurrences-snoc j k xs)

-- The children of each key in the dict before, and in the dict after.
abbrev Grows : TextDict (List String) → TextDict (List String) → (String → String → ℕ) → Type 0
Grows d d' more =
    (q : String) (xs : List String)
    → get_text q d ≡ some xs
    → (ys : List String) × (get_text q d' ≡ some ys)
      × ((j : String) → occurrences j ys ≡ occurrences j xs + more j q)

Keys-set_text :
    {A : Type 0} (ks : List String) (p : String) (v : A) (d : TextDict A)
    → Keys ks d
    → Keys ks (set_text p v d)
Keys-set_text ks p v d h j i = elim (Bool-cases (same j p)) [
  | inl t ↦ (v, ground (arith, get_text-set_text j p v d))
  | inr f ↦ let (w, e) = h j i in (w, ground (arith, get_text-set_text j p v d))
]

Grows-append :
    (k p : String) (d : TextDict (List String)) (kids : List String)
    → get_text p d ≡ some kids
    → Grows d
        (set_text p (kids ++ k ∷ []) d)
        (λ j q. if same q p then (if same j k then 1 else 0) else 0)
Grows-append k p d kids hp q xs hx = elim (Bool-cases (same q p)) [
  | inl t ↦
      let e : some kids ≡ some xs = sym hp ∙ ap (λ x. get_text x d) (sym (eq_of_same q p t)) ∙ hx in
      let eq : kids ≡ xs = cc in
      (
        kids ++ k ∷ [],
        ground (arith, get_text-set_text q p (kids ++ k ∷ []) d),
        λ j. occurrences-snoc j k kids ∙ rw (t, eq) refl,
      )
  | inr f ↦ (xs, ground (arith, get_text-set_text q p (kids ++ k ∷ []) d), λ j. rw f (ground arith))
]

append_key_lem :
    (k : String) (ps : List String) (d : TextDict (List String))
    → Keys ps d
    → (d' : TextDict (List String)) × (append_key k ps d ≡ ok d')
      × Grows d d' (λ j q. if same j k then occurrences q ps else 0)
unfolding append_key
append_key_lem k [] d h = (d, refl, λ q xs e. (xs, e, λ j. ground arith))
append_key_lem k (p ∷ ps) d h =
    let (kids, hp) = h p (let r = same_refl p in ground arith) in
    let e = set_text p (kids ++ k ∷ []) d in
    let keep : Keys ps e = Keys-set_text ps p (kids ++ k ∷ []) d (λ j i. h j (ground arith)) in
    let (d', eq, grow) = append_key_lem k ps e keep in
    (
      d',
      ap (λ m. m >>= λ kids. append_key k ps (set_text p (kids ++ k ∷ []) d))
            (item_of_get p d kids hp)
          ∙ eq,
      λ q xs hx.
          let (zs, hz, ez) = Grows-append k p d kids hp q xs hx in
          let (ys, hy, ey) = grow q zs hz in
          (ys, hy, λ j. let a = ez j in let b = ey j in ground arith),
    )

-- Keys that are there stay there as the dict grows.
Keys-Grows :
    (ks : List String) (d d' : TextDict (List String)) (more : String → String → ℕ)
    → Grows d d' more
    → Keys ks d
    → Keys ks d'
Keys-Grows ks d d' more g h j i = let (xs, e) = h j i in let (ys, hy, _) = g j xs e in (ys, hy)

append_keys_lem :
    (all ts : List CreateTaskDefinition) (d : TextDict (List String))
    → Known all ts
    → Keys (task_keys all) d
    → (d' : TextDict (List String)) × (append_keys ts d ≡ ok d') × Grows d d' (λ j q. tally j q ts)
unfolding append_keys
append_keys_lem all [] d known h = (d, refl, λ q xs e. (xs, e, λ j. ground arith))
append_keys_lem all (t ∷ ts) d (deps, known) h =
    let (d1, e1, g1) = append_key_lem t.key t.dependencies d (λ k i. h k (deps k i)) in
    let (d2, e2, g2) = append_keys_lem all ts d1 known (
      Keys-Grows (task_keys all) d d1
        (λ j q. if same j t.key then occurrences q t.dependencies else 0) g1 h) in
    (
      d2,
      ap (λ m. m >>= append_keys ts) e1 ∙ e2,
      λ q xs hx.
          let (zs, hz, ez) = g1 q xs hx in
          let (ys, hy, ey) = g2 q zs hz in
          (ys, hy, λ j. let a = ez j in let b = ey j in omega arith),
    )

get_text-empty_children :
    (ts : List CreateTaskDefinition) (d : TextDict (List String)) (k : String)
    → ((has_text k (task_keys ts) ≡ true) ⊎ (get_text k d ≡ some []))
    → get_text k (empty_children ts d) ≡ some []
unfolding empty_children
get_text-empty_children [] d k (inl h) = absurd (false≢true h)
get_text-empty_children [] d k (inr h) = h
get_text-empty_children (t ∷ ts) d k h = get_text-empty_children ts (set_text t.key [] d) k (next h)
  where
    next :
        ((has_text k (task_keys (t ∷ ts)) ≡ true) ⊎ (get_text k d ≡ some []))
        → (has_text k (task_keys ts) ≡ true) ⊎ (get_text k (set_text t.key [] d) ≡ some [])
    next h = elim (Bool-cases (same k t.key)) [
      | inl b ↦ inr (ground (arith, get_text-set_text k t.key [] d))
      | inr b ↦ elim h [
        | inl i ↦ inl (ground arith)
        | inr e ↦ inr (ground (arith, get_text-set_text k t.key [] d))
      ]
    ]

pub tally_absent :
    (j q : String) (ts : List CreateTaskDefinition)
    → has_text j (task_keys ts) ≡ false
    → tally j q ts ≡ 0
tally_absent j q [] h = refl
tally_absent j q (t ∷ ts) h = ground (arith, tally_absent j q ts)

-- The key of a listed task is among the keys.
pub has_text-task_keys :
    (t : CreateTaskDefinition) (ts : List CreateTaskDefinition)
    → In t ts
    → has_text t.key (task_keys ts) ≡ true
has_text-task_keys t [] i = absurd i
has_text-task_keys t (x ∷ ts) (inl e) = rw e (let r = same_refl x.key in ground arith)
has_text-task_keys t (x ∷ ts) (inr i) = ground (arith, has_text-task_keys t ts i)

pub tally_unique :
    (q : String) (t : CreateTaskDefinition) (ts : List CreateTaskDefinition)
    → Distinct (task_keys ts)
    → In t ts
    → tally t.key q ts ≡ occurrences q t.dependencies
tally_unique q t [] u i = absurd i
tally_unique q t (x ∷ ts) (n, u) (inl e) =
    let k = ap (λ y. y.key) e in
    let z = tally_absent t.key q ts (subst (λ k. has_text k (task_keys ts) ≡ false) (sym k) n) in
    let r : same t.key x.key ≡ true = subst (λ k. same t.key k ≡ true) k (same_refl t.key) in
    let d = ap (λ y. occurrences q y.dependencies) e in rw r (omega arith)
tally_unique q t (x ∷ ts) (n, u) (inr i) =
    let ih = tally_unique q t ts u i in
    let h = has_text-task_keys t ts i in
    elim (Bool-cases (same t.key x.key)) [
      | inl b ↦
          let bad : has_text t.key (task_keys ts) ≡ false =
            subst (λ k. has_text k (task_keys ts) ≡ false) (sym (eq_of_same t.key x.key b)) n in
          cc
      | inr b ↦ ground arith
    ]

-- The dict of children: under each key, how often each key is there, as `tally` says.
pub children_lem :
    (ts : List CreateTaskDefinition)
    → Known ts ts
    → (children : TextDict (List String)) × (append_keys ts (empty_children ts []) ≡ ok children)
      × ((q : String)
          → has_text q (task_keys ts) ≡ true
          → (kids : List String) × (get_text q children ≡ some kids)
            × ((j : String) → occurrences j kids ≡ tally j q ts))
children_lem ts known =
    let start : (q : String)
        → has_text q (task_keys ts) ≡ true
        → get_text q (empty_children ts []) ≡ some [] =
      λ q i. get_text-empty_children ts [] q (inl i) in
    let (children, e, grow) =
      append_keys_lem ts ts (empty_children ts []) known (λ q i. ([], start q i)) in
    (
      children,
      e,
      λ q i.
          let (kids, hk, n) = grow q [] (start q i) in (kids, hk, λ j. let m = n j in omega arith),
    )
