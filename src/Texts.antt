-- ===== src/Texts.antt =====
-- Texts as keys: equality as a test, sets of texts, and a dict with texts as keys in insertion order.
use text.Mathlib.Text.{◌==◌ as str_eq}
use mathlib.Core.Bool.{false≢true}
use text.Mathlib.TextEquality.{eq_iff}
use automation_platform.Base.{
  ℕ, ◌+◌, ◌≡◌, ◌≢◌, ◌<◌, ◌≤◌, ◌↔◌, ◌⊎◌, inl, inr, refl, Bool, true, false, ◌||◌, Option, none, some,
  List, [], ◌∷◌, String, if◌then◌else◌, Bool-cases, arith, sym, ap, ◌∙◌, subst, length,
}
use automation_platform.Errors.{Result, ok, raised, key_error}

unfoldable pub same : String → String → Bool
same a b = str_eq a b

pub same-cases : (a b : String) → ((a ≡ b) × (same a b ≡ true)) ⊎ ((a ≢ b) × (same a b ≡ false))
unfolding same
same-cases a b = elim (Bool-cases (str_eq a b)) [
  | inl t ↦ inl ((eq_iff a b).0 t, t)
  | inr f ↦ inr (λ e. let t = (eq_iff a b).1 e in cc, f)
]

pub same_refl : (a : String) → same a a ≡ true
unfolding same
same_refl a = (eq_iff a a).1 refl

pub eq_of_same : (a b : String) → same a b ≡ true → a ≡ b
unfolding same
eq_of_same a b h = (eq_iff a b).0 h

pub same_ne : (a b : String) → a ≢ b → same a b ≡ false
same_ne a b n = elim (same-cases a b) [ inl (e, t) ↦ absurd (n e) | inr (m, f) ↦ f ]

pub same_sym : (a b : String) → same a b ≡ same b a
same_sym a b = elim (same-cases a b) [
  | inl (e, t) ↦ rw e refl
  | inr (n, f) ↦ f ∙ sym (same_ne b a (λ e. n (sym e)))
]

-- `k in xs`
abbrev pub has_text : String → List String → Bool
has_text k [] = false
has_text k (x ∷ xs) = same k x || has_text k xs

-- How often a text is in a list.
abbrev pub occurrences : String → List String → ℕ
occurrences k [] = 0
occurrences k (x ∷ xs) = (if same k x then 1 else 0) + occurrences k xs

-- `set(xs)`, of which only the size and the members are used
abbrev pub text_set : List String → List String
text_set [] = []
text_set (x ∷ xs) = let rest = text_set xs in if has_text x rest then rest else x ∷ rest

abbrev pub TextDict : Type 0 → Type 0
TextDict V = List (String × V)

module _ {V : Type 0} where
  abbrev pub get_text : String → TextDict V → Option V
  get_text k [] = none
  get_text k ((j, v) ∷ d) = if same k j then some v else get_text k d

  -- `d[k]`
  abbrev pub text_item : String → TextDict V → Result V
  text_item k d = elim (get_text k d) [ none ↦ raised key_error | some v ↦ ok v ]

  -- `d[k] = v`
  abbrev pub set_text : String → V → TextDict V → TextDict V
  set_text k v [] = (k, v) ∷ []
  set_text k v ((j, w) ∷ d) = if same k j then (j, v) ∷ d else (j, w) ∷ set_text k v d

  pub get_text-set_text :
      (k j : String) (v : V) (d : TextDict V)
      → get_text k (set_text j v d) ≡ (if same k j then some v else get_text k d)
  get_text-set_text k j v [] = refl
  get_text-set_text k j v ((i, w) ∷ d) = elim (same-cases j i) [
    | inl (e, t) ↦ let q = ap (same k) e in ground arith
    | inr (n, f) ↦ elim (same-cases k i) [
      | inl (e, t) ↦ let q : same k j ≡ false = rw (e, same_sym i j) f in rw (f, t, q) refl
      | inr (_, g) ↦ let ih = get_text-set_text k j v d in rw (f, g) ih
    ]
  ]

pub get_of_item :
    {A : Type 0} (k : String) (d : TextDict A) (v : A)
    → text_item k d ≡ ok v
    → get_text k d ≡ some v
get_of_item {A} k d v h = go (get_text k d) h
  where
    go : (o : Option A) → (elim o [ none ↦ raised key_error | some v ↦ ok v ]) ≡ ok v → o ≡ some v
    go none q = cc
    go (some w) q = cc

-- No text occurs twice.
abbrev pub Distinct : List String → Type 0
Distinct [] = Unit
Distinct (x ∷ xs) = (has_text x xs ≡ false) × Distinct xs

pub occurrences_absent :
    (k : String) (xs : List String) → has_text k xs ≡ false → occurrences k xs ≡ 0
occurrences_absent k [] h = refl
occurrences_absent k (x ∷ xs) h = ground (arith, occurrences_absent k xs)

pub occurrences_present :
    (k : String) (xs : List String) → has_text k xs ≡ true → 0 < occurrences k xs
occurrences_present k [] h = absurd (false≢true h)
occurrences_present k (x ∷ xs) h = ground (arith, occurrences_present k xs)

pub has_text-text_set : (k : String) (xs : List String) → has_text k (text_set xs) ≡ has_text k xs
has_text-text_set k [] = refl
has_text-text_set k (x ∷ xs) =
    let ih = has_text-text_set k xs in
    let ihx = has_text-text_set x xs in
    elim (Bool-cases (has_text x (text_set xs))) [
      | inl t ↦ elim (same-cases k x) [
        | inl (e, s) ↦
            let q : has_text k (text_set xs) ≡ true =
              subst (λ y. has_text y (text_set xs) ≡ true) (sym e) t in
            rw (t, s) q
        | inr (_, f) ↦ rw (t, f) ih
      ]
      | inr n ↦ rw n (ground arith)
    ]

length-text_set : (xs : List String) → length (text_set xs) ≤ length xs
length-text_set [] = omega arith
length-text_set (x ∷ xs) = ground (arith, length-text_set xs)

-- A list has as many members as its set exactly if no text occurs twice.
pub text_set-Distinct : (xs : List String) → (length (text_set xs) ≡ length xs) ↔ Distinct xs
text_set-Distinct [] = (λ _. tt, λ _. refl)
text_set-Distinct (x ∷ xs) =
    let (to, from) = text_set-Distinct xs in
    let le = length-text_set xs in
    let s = has_text-text_set x xs in
    (λ h. (ground arith, to (ground arith)), λ (n, u). let e = from u in rw (s ∙ n) (omega arith))
