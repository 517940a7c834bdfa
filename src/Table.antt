-- ===== src/Table.antt =====
-- A database table as a list of rows with a numeric primary key, and the statements that the
-- repositories issue: SELECT, UPDATE and DELETE with a WHERE clause. A statement whose WHERE
-- names the primary key addresses the row that `find` gives.
use mathlib.Core.Bool.{false≢true}
use automation_platform.Base.{
  ltb, ℕ, ◌≡◌, ◌≢◌, refl, Bool, true, false, Option, none, some, List, [], ◌∷◌, ◌++◌, map, arith,
  ◌==◌, if◌then◌else◌, ◌⊎◌, inl, inr, any, not, filter_by, length, ◌&&◌, Bool-cases,
}

-- An Integer column of PostgreSQL has 32 bits.
abbrev pub fits_integer : ℕ → Bool
fits_integer n = ltb n 2147483648

module _ {A : Type 0} where
  -- `c` is a row of the table.
  abbrev pub In : A → List A → Type 0
  In c [] = ⊥
  In c (x ∷ xs) = (c ≡ x) ⊎ In c xs

  -- UPDATE t SET f WHERE p
  abbrev pub update_where : (A → Bool) → (A → A) → List A → List A
  update_where p f = map (λ r. if p r then f r else r)

  -- The same update, on the row that a key finds.
  abbrev pub patch : (A → Bool) → (A → A) → Option A → Option A
  patch p f none = none
  patch p f (some r) = some (if p r then f r else r)

  -- UPDATE or SELECT of at most one row, and the row count of the statement
  abbrev pub accept : (A → Bool) → Option A → Option A
  accept p none = none
  accept p (some r) = if p r then some r else none

  -- DELETE FROM t WHERE p
  abbrev pub delete_where : (A → Bool) → List A → List A
  delete_where p = filter_by (λ r. not (p r))

  -- The rows that a statement touches, and the `rowcount` that it reports.
  abbrev pub rowcount : (A → Bool) → List A → ℕ
  rowcount p ts = length (filter_by p ts)

  -- `one_or_none` of a result that the primary key limits to one row
  abbrev pub one_or_none : List A → Option A
  one_or_none [] = none
  one_or_none (x ∷ _) = some x

  abbrev pub of_option : Option A → List A
  of_option none = []
  of_option (some r) = r ∷ []

  pub In-filter_by :
      (p : A → Bool) (c : A) (ts : List A) → In c (filter_by p ts) → In c ts × (p c ≡ true)
  In-filter_by p c [] i = absurd i
  In-filter_by p c (x ∷ ts) i = elim (Bool-cases (p x)) [
    | inl t ↦ elim (rw t at i) [
      | inl e ↦ (inl e, rw e t)
      | inr j ↦ (inr (In-filter_by p c ts j).0, (In-filter_by p c ts j).1)
    ]
    | inr f ↦ let (j, t) = In-filter_by p c ts (rw f at i) in (inr j, t)
  ]

  pub In-filter_by_of :
      (p : A → Bool) (c : A) (ts : List A) → In c ts → p c ≡ true → In c (filter_by p ts)
  In-filter_by_of p c [] i t = absurd i
  In-filter_by_of p c (x ∷ ts) (inl e) t = let t' : p x ≡ true = rw e at t in rw t' (inl e)
  In-filter_by_of p c (x ∷ ts) (inr i) t = elim (Bool-cases (p x)) [
    | inl u ↦ rw u (inr (In-filter_by_of p c ts i t))
    | inr u ↦ rw u (In-filter_by_of p c ts i t)
  ]

  pub In-append : (c : A) (xs ys : List A) → In c ys → In c (xs ++ ys)
  In-append c [] ys i = i
  In-append c (x ∷ xs) ys i = inr (In-append c xs ys i)

  -- A statement that touches no row changes nothing.
  pub update_where_none :
      (p : A → Bool) (f : A → A) (ts : List A) → filter_by p ts ≡ [] → update_where p f ts ≡ ts
  update_where_none p f [] h = refl
  update_where_none p f (x ∷ ts) h = ground (arith, update_where_none p f ts)

  pub delete_where_none :
      (p : A → Bool) (ts : List A) → filter_by p ts ≡ [] → delete_where p ts ≡ ts
  delete_where_none p [] h = refl
  delete_where_none p (x ∷ ts) h = ground (arith, delete_where_none p ts)

  pub any-true-In :
      (p : A → Bool) (ts : List A) → any p ts ≡ true → (c : A) × In c ts × (p c ≡ true)
  any-true-In p [] h = absurd (false≢true h)
  any-true-In p (x ∷ ts) h = elim (Bool-cases (p x)) [
    | inl t ↦ (x, inl refl, t)
    | inr f ↦ let (c, i, t) = any-true-In p ts (ground arith) in (c, inr i, t)
  ]

  pub any-false-In : (p : A → Bool) (c : A) (ts : List A) → any p ts ≡ false → In c ts → p c ≡ false
  any-false-In p c [] h i = absurd i
  any-false-In p c (x ∷ ts) h (inl e) = ground arith
  any-false-In p c (x ∷ ts) h (inr i) = ground (arith, any-false-In p c ts)

module _ {A : Type 0} (key : A → ℕ) where
  abbrev pub find : ℕ → List A → Option A
  find k [] = none
  find k (x ∷ xs) = if k == key x then some x else find k xs

  -- The primary key constraint.
  abbrev pub UniqueKeys : List A → Type 0
  UniqueKeys [] = Unit
  UniqueKeys (x ∷ xs) = (find (key x) xs ≡ none) × UniqueKeys xs

  -- A row inserted at the end is found if no row above it has its key.
  pub find-append :
      (k : ℕ) (ts : List A) (c : A)
      → find k (ts ++ c ∷ [])
        ≡ (elim (find k ts) [ none ↦ if k == key c then some c else none | some r ↦ some r ])
  find-append k [] c = refl
  find-append k (x ∷ ts) c = ground (arith, find-append k ts c)

  pub key-find : (k : ℕ) (ts : List A) (r : A) → find k ts ≡ some r → key r ≡ k
  key-find k [] r h = cc
  key-find k (x ∷ ts) r h = ground (arith, key-find k ts r)

  pub In-find : (k : ℕ) (ts : List A) (r : A) → find k ts ≡ some r → In r ts
  In-find k [] r h = cc
  In-find k (x ∷ ts) r h = ground (arith, In-find k ts r)

  pub find-ne-none-In : (c : A) (ts : List A) → find (key c) ts ≡ none → ¬ In c ts
  find-ne-none-In c [] h i = i
  find-ne-none-In c (x ∷ ts) h (inl e) = ground arith
  find-ne-none-In c (x ∷ ts) h (inr i) = ground (arith, find-ne-none-In c ts)

  pub find_of_In : (c : A) (ts : List A) → UniqueKeys ts → In c ts → find (key c) ts ≡ some c
  find_of_In c [] u i = absurd i
  find_of_In c (x ∷ ts) u (inl e) = ground arith
  find_of_In c (x ∷ ts) u (inr i) = ground (arith, find_of_In c ts u.1 i, find-ne-none-In c ts)

  pub filter_by_absent :
      (k : ℕ) (g : A → Bool) (ts : List A)
      → find k ts ≡ none
      → filter_by (λ r. key r == k && g r) ts ≡ []
  filter_by_absent k g [] h = refl
  filter_by_absent k g (x ∷ ts) h = ground (arith, filter_by_absent k g ts)

  -- Under the primary key constraint a WHERE clause that names the key selects the row of `find`.
  pub filter_by_key :
      (k : ℕ) (g : A → Bool) (ts : List A)
      → UniqueKeys ts
      → filter_by (λ r. key r == k && g r) ts ≡ of_option (accept g (find k ts))
  filter_by_key k g [] u = refl
  filter_by_key k g (x ∷ ts) u = elim (Bool-cases (k == key x)) [
    | inl e ↦ ground (arith, filter_by_absent k g ts)
    | inr e ↦ ground (arith, filter_by_key k g ts u.1)
  ]

  pub find-delete_none :
      (k : ℕ) (p : A → Bool) (ts : List A) → find k ts ≡ none → find k (delete_where p ts) ≡ none
  find-delete_none k p [] h = refl
  find-delete_none k p (x ∷ ts) h = ground (arith, find-delete_none k p ts)

  pub delete_where-UniqueKeys :
      (p : A → Bool) (ts : List A) → UniqueKeys ts → UniqueKeys (delete_where p ts)
  delete_where-UniqueKeys p [] u = tt
  delete_where-UniqueKeys p (x ∷ ts) u =
      ground (arith, find-delete_none (key x) p ts, delete_where-UniqueKeys p ts u.1)

  pub append-UniqueKeys :
      (ts : List A) (c : A) → UniqueKeys ts → find (key c) ts ≡ none → UniqueKeys (ts ++ c ∷ [])
  append-UniqueKeys [] c u h = (refl, tt)
  append-UniqueKeys (x ∷ ts) c u h =
      ground (arith, append-UniqueKeys ts c u.1, find-append (key x) ts c)

  pub find-delete_ne :
      (j k : ℕ) (g : A → Bool) (ts : List A)
      → j ≢ k
      → find j (delete_where (λ r. key r == k && g r) ts) ≡ find j ts
  find-delete_ne j k g [] ne = refl
  find-delete_ne j k g (x ∷ ts) ne = ground (arith, find-delete_ne j k g ts ne)

  pub find-delete_self :
      (k : ℕ) (g : A → Bool) (ts : List A) (r : A)
      → UniqueKeys ts
      → find k ts ≡ some r
      → g r ≡ true
      → find k (delete_where (λ r'. key r' == k && g r') ts) ≡ none
  find-delete_self k g [] r u h t = cc
  find-delete_self k g (x ∷ ts) r u h t =
      ground
        (arith, find-delete_self k g ts r u.1, find-delete_none k (λ r'. key r' == k && g r') ts)

  -- An update that keeps the keys changes each row on its own.
  module _ (p : A → Bool) (f : A → A) (same : (r : A) → key (f r) ≡ key r) where
    pub find-update : (k : ℕ) (ts : List A) → find k (update_where p f ts) ≡ patch p f (find k ts)
    find-update k [] = refl
    find-update k (x ∷ ts) = ground (arith, same x, find-update k ts)

    pub update-UniqueKeys : (ts : List A) → UniqueKeys ts → UniqueKeys (update_where p f ts)
    update-UniqueKeys [] u = tt
    update-UniqueKeys (x ∷ ts) u =
        ground (arith, same x, find-update (key x) ts, update-UniqueKeys ts u.1)
