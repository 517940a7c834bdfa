-- ===== src/Definitions/Ids.antt =====
-- The identifiers of new task definitions: a dict from keys to values of `uuid4()`.
use automation_platform.Base.{
  ℕ, suc, ◌<◌, ◌≡◌, ◌⊎◌, refl, true, some, List, [], ◌∷◌, String, arith, sym, ap, ◌∙◌, inl, inr,
  Bool-cases, contains, ◌==◌,
}
use mathlib.Core.Bool.{false≢true}
use automation_platform.Domain.{Uuid}
use automation_platform.Errors.{ok, ◌>>=◌}
use automation_platform.Texts.{
  same, same_refl, eq_of_same, has_text, TextDict, get_text, set_text, get_text-set_text,
}
use automation_platform.Definitions.{task_ids, text_items, keys}
use automation_platform.Definitions.Cycle.{CreateTaskDefinition}
use automation_platform.Definitions.Cycle.Release.{item_of_get}

-- Different keys have different values.
abbrev pub Separates : TextDict Uuid → Type 0
Separates d = (a b : String) (i : Uuid) → get_text a d ≡ some i → get_text b d ≡ some i → a ≡ b

-- All values are among the first `n`.
abbrev Numbered : (ℕ → Uuid) → ℕ → TextDict Uuid → Type 0
Numbered fresh n d =
    (a : String) (i : Uuid) → get_text a d ≡ some i → (m : ℕ) × m < n × (i ≡ fresh m)

write_cases :
    (a k : String) (v i : Uuid) (d : TextDict Uuid)
    → get_text a (set_text k v d) ≡ some i
    → ((a ≡ k) × (i ≡ v)) ⊎ (get_text a d ≡ some i)
write_cases a k v i d h = elim (Bool-cases (same a k)) [
  | inl t ↦ inl (eq_of_same a k t, ground (arith, get_text-set_text a k v d))
  | inr f ↦ inr (ground (arith, get_text-set_text a k v d))
]

module _ (fresh : ℕ → Uuid) (distinct : (m n : ℕ) → fresh m ≡ fresh n → m ≡ n) where
  set_text-Numbered :
      (n : ℕ) (k : String) (d : TextDict Uuid)
      → Numbered fresh n d
      → Numbered fresh (suc n) (set_text k (fresh n) d)
  set_text-Numbered n k d h a i e = elim (write_cases a k (fresh n) i d e) [
    | inl (_, eq) ↦ (n, omega arith, eq)
    | inr old ↦ let (m, lt, eq) = h a i old in (m, omega arith, eq)
  ]

  next_is_new :
      (n : ℕ) (d : TextDict Uuid)
      → Numbered fresh n d
      → (b : String) (i : Uuid) → i ≡ fresh n
      → get_text b d ≡ some i
      → ⊥
  next_is_new n d h b i e l =
      let (m, lt, eq) = h b i l in let q : m ≡ n = distinct m n (sym eq ∙ e) in omega arith

  set_text-Separates :
      (n : ℕ) (k : String) (d : TextDict Uuid)
      → Numbered fresh n d
      → Separates d
      → Separates (set_text k (fresh n) d)
  set_text-Separates n k d h s a b i ea eb = elim (write_cases a k (fresh n) i d ea) [
    | inl (ka, ia) ↦ elim (write_cases b k (fresh n) i d eb) [
      | inl (kb, ib) ↦ ka ∙ sym kb
      | inr old ↦ absurd (next_is_new n d h b i ia old)
    ]
    | inr olda ↦ elim (write_cases b k (fresh n) i d eb) [
      | inl (kb, ib) ↦ absurd (next_is_new n d h a i ib olda)
      | inr oldb ↦ s a b i olda oldb
    ]
  ]

  pub task_ids-Separates :
      (n : ℕ) (ts : List CreateTaskDefinition) (d : TextDict Uuid)
      → Numbered fresh n d
      → Separates d
      → Separates (task_ids fresh n ts d)
  unfolding task_ids
  task_ids-Separates n [] d h s = s
  task_ids-Separates n (t ∷ ts) d h s =
      task_ids-Separates (suc n) ts (set_text t.key (fresh n) d) (set_text-Numbered n t.key d h)
        (set_text-Separates n t.key d h s)

-- Every key of the tasks has an identifier.
pub task_ids_total :
    (fresh : ℕ → Uuid) (n : ℕ) (ts : List CreateTaskDefinition) (d : TextDict Uuid) (k : String)
    → ((has_text k (keys ts) ≡ true) ⊎ ((i : Uuid) × (get_text k d ≡ some i)))
    → (i : Uuid) × (get_text k (task_ids fresh n ts d) ≡ some i)
unfolding task_ids
task_ids_total fresh n [] d k (inl h) = absurd (false≢true h)
task_ids_total fresh n [] d k (inr h) = h
task_ids_total fresh n (t ∷ ts) d k h =
    task_ids_total fresh (suc n) ts (set_text t.key (fresh n) d) k
      (elim (Bool-cases (same k t.key)) [
        | inl b ↦ inr (fresh n, ground (arith, get_text-set_text k t.key (fresh n) d))
        | inr b ↦ elim h [
          | inl i ↦ inl (rw b at i)
          | inr (i, e) ↦ inr (i, ground (arith, get_text-set_text k t.key (fresh n) d))
        ]
      ])

-- The ids of known keys, each of which is the id of one of the keys.
pub text_items_lem :
    (ids : TextDict Uuid) (ks : List String)
    → ((k : String) → has_text k ks ≡ true → (i : Uuid) × (get_text k ids ≡ some i))
    → (vs : List Uuid) × (text_items ks ids ≡ ok vs)
      × ((v : Uuid)
          → contains v vs ≡ true
          → (k : String) × (has_text k ks ≡ true) × (get_text k ids ≡ some v))
unfolding text_items
text_items_lem ids [] h = ([], refl, λ v i. absurd (false≢true i))
text_items_lem ids (k ∷ ks) h =
    let r = same_refl k in
    let (v, hv) = h k (ground arith) in
    let (vs, hvs, from) = text_items_lem ids ks (λ j i. h j (ground arith)) in
    (
      v ∷ vs,
      ap (λ m. m >>= λ v. text_items ks ids >>= λ vs. ok (v ∷ vs)) (item_of_get k ids v hv)
          ∙ ap (λ m. m >>= λ vs. ok (v ∷ vs)) hvs,
      λ u i. elim (Bool-cases (u == v)) [
        | inl b ↦ (k, ground arith, hv ∙ ap (λ x. some x) (ground arith))
        | inr b ↦ let (j, hj, e) = from u (ground arith) in (j, ground arith, e)
      ],
    )
