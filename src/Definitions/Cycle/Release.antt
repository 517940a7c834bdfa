-- ===== src/Definitions/Cycle/Release.antt =====
-- The inner loop of Kahn's algorithm, key by key.
use automation_platform.Base.{
  ℕ, ◌+◌, ◌-◌, ◌≡◌, refl, true, ◌&&◌, ◌||◌, none, some, List, [], ◌∷◌, String, arith, ltb, leb,
  ◌==◌, if◌then◌else◌, inl, inr, sym, ap, ◌∙◌, Bool-cases,
}
use automation_platform.Errors.{ok, raised, key_error, ◌>>=◌}
use automation_platform.Texts.{
  same, same_refl, eq_of_same, has_text, occurrences, TextDict, get_text, text_item, set_text,
  get_text-set_text,
}
use automation_platform.Definitions.Cycle.{release_children}

pub item_of_get :
    {A : Type 0} (k : String) (d : TextDict A) (v : A)
    → get_text k d ≡ some v
    → text_item k d ≡ ok v
item_of_get k d v h = ap (λ o. elim o [ none ↦ raised key_error | some v ↦ ok v ]) h

-- What the inner loop does to the counter of `j`, whose value was `n`, and to the stack.
pub record Released (ks : List String) (j : String) (n : ℕ) (counts' : TextDict ℕ)
    (ready ready' : List String) : Type 0 where
  pub counter : get_text j counts' ≡ some (n - occurrences j ks)
  pub pushed :
      occurrences j ready'
      ≡ occurrences j ready + (if ltb 0 n && leb n (occurrences j ks) then 1 else 0)

-- A counter that is there is there after the write.
still :
    (k : String) (n : ℕ) (counts : TextDict ℕ) (j : String)
    → ((m : ℕ) × (get_text j counts ≡ some m))
    → (m : ℕ) × (get_text j (set_text k (n - 1) counts) ≡ some m)
still k n counts j (m, h) = elim (Bool-cases (same j k)) [
  | inl t ↦ (n - 1, ground (arith, get_text-set_text j k (n - 1) counts))
  | inr f ↦ (m, ground (arith, get_text-set_text j k (n - 1) counts))
]

step :
    (k : String) (ks : List String) (n : ℕ) (counts : TextDict ℕ) (ready : List String) (j : String)
    (m : ℕ) (counts' : TextDict ℕ) (ready' : List String)
    → get_text k counts ≡ some n
    → get_text j counts ≡ some m
    → ((l : ℕ)
        → get_text j (set_text k (n - 1) counts) ≡ some l
        → Released ks j l counts' (if n == 1 then k ∷ ready else ready) ready')
    → Released (k ∷ ks) j m counts' ready ready'
step k ks n counts ready j m counts' ready' hn hm rel = elim (Bool-cases (same j k)) [
  | inl t ↦
      let eq : m ≡ n = equal (eq_of_same j k t) in
      let r = rel (n - 1) (ground (arith, get_text-set_text j k (n - 1) counts)) in
      record {
        counter = r.counter ∙ ap (λ x. some x) (ground arith);
        pushed = r.pushed ∙ ground arith;
      }
  | inr f ↦
      let r = rel m (ground (arith, get_text-set_text j k (n - 1) counts)) in
      record {
        counter = r.counter ∙ ap (λ x. some x) (ground arith);
        pushed = r.pushed ∙ ground arith;
      }
]
  where
    equal : j ≡ k → m ≡ n
    equal e = let q : some m ≡ some n = sym hm ∙ ap (λ x. get_text x counts) e ∙ hn in ground arith

pub release_children_lem :
    (ks : List String) (counts : TextDict ℕ) (ready : List String)
    → ((k : String) → has_text k ks ≡ true → (n : ℕ) × (get_text k counts ≡ some n))
    → (counts' : TextDict ℕ) × (ready' : List String) × (release_children ks counts ready
        ≡ ok (counts', ready'))
      × ((j : String) (n : ℕ) → get_text j counts ≡ some n → Released ks j n counts' ready ready')
      × ((j : String) → has_text j ready' ≡ true → (has_text j ready || has_text j ks) ≡ true)
unfolding release_children
release_children_lem [] counts ready h = (
  counts,
  ready,
  refl,
  λ j n e. record { counter = e ∙ ap (λ x. some x) (omega arith); pushed = ground arith },
  λ j e. ground arith,
)
release_children_lem (k ∷ ks) counts ready h =
    let (n, hn) = h k (let r = same_refl k in ground arith) in
    let c = set_text k (n - 1) counts in
    let r = if n == 1 then k ∷ ready else ready in
    let (c', r', e, rel, sub) =
      release_children_lem ks c r (λ j i. still k n counts j (h j (ground arith))) in
    (
      c',
      r',
      (ap
            (λ m. m >>= λ n.
              release_children ks (set_text k (n - 1) counts) (if n == 1 then k ∷ ready else ready))
            (item_of_get k counts n hn)
          ∙ e),
      λ j m hm. step k ks n counts ready j m c' r' hn hm (rel j),
      λ j i. ground (arith, sub j i),
    )
