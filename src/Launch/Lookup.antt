-- ===== src/Launch/Lookup.antt =====
-- A dict with identifiers as keys, in insertion order.
use automation_platform.Base.{
  ℕ, ◌≡◌, refl, Option, none, some, List, [], ◌∷◌, arith, ◌==◌, if◌then◌else◌,
}
use automation_platform.Errors.{Result, ok, raised, key_error}

abbrev pub Dict : Type 0 → Type 0
Dict V = List (ℕ × V)

module _ {V : Type 0} where
  abbrev pub lookup : ℕ → Dict V → Option V
  lookup k [] = none
  lookup k ((j, v) ∷ d) = if k == j then some v else lookup k d

  -- `d[k]`
  abbrev pub item : ℕ → Dict V → Result V
  item k d = elim (lookup k d) [ none ↦ raised key_error | some v ↦ ok v ]

  -- `d[k] = v`
  abbrev pub set_item : ℕ → V → Dict V → Dict V
  set_item k v [] = (k, v) ∷ []
  set_item k v ((j, w) ∷ d) = if k == j then (j, v) ∷ d else (j, w) ∷ set_item k v d

  pub lookup-set_item :
      (k j : ℕ) (v : V) (d : Dict V)
      → lookup k (set_item j v d) ≡ (if k == j then some v else lookup k d)
  lookup-set_item k j v [] = refl
  lookup-set_item k j v ((i, w) ∷ d) = ground (arith, lookup-set_item k j v d)
