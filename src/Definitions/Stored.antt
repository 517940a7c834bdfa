-- ===== src/Definitions/Stored.antt =====
-- `WorkflowDefinitionService.create` stores what was requested.
use mathlib.Core.Bool.{false≢true}
use automation_platform.Base.{
  ◌≡◌, refl, true, false, some, none, List, [], ◌∷◌, arith, sym, ap, ◌∙◌, inl, inr, subst, contains,
  String, ◌==◌, Bool-cases,
}
use automation_platform.Domain.{Uuid, TaskDefinition}
use automation_platform.Errors.{ok}
use automation_platform.Table.{In, find, UniqueKeys}
use automation_platform.Texts.{
  TextDict, get_text, has_text, text_item, get_of_item, Distinct, same_refl, same-cases,
}
use automation_platform.Launch.Children.{definition_key}
use automation_platform.Launch.Rows.{cons_lem}
use automation_platform.Catalog.Order.{ids_of}
use automation_platform.Catalog.Fitting.{Once, Ordered, names_of}
use automation_platform.Definitions.{text_items, keys}
use automation_platform.Definitions.Cycle.{CreateTaskDefinition}
use automation_platform.Definitions.Ids.{Separates}
use automation_platform.Definitions.Creation.{AllResolve}

-- Each task is listed after those that it depends on.
abbrev pub Listed : List String → List CreateTaskDefinition → Type 0
Listed seen [] = Unit
Listed seen (t ∷ ts) =
    ((d : String) → has_text d t.dependencies ≡ true → has_text d seen ≡ true)
    × Listed (t.key ∷ seen) ts

contains-text_items :
    (ids : TextDict Uuid) (ks : List String) (vs : List Uuid) (v : Uuid)
    → text_items ks ids ≡ ok vs
    → contains v vs ≡ true
    → (k : String) × (has_text k ks ≡ true) × (get_text k ids ≡ some v)
unfolding text_items
contains-text_items ids [] vs v e c = let q : [] ≡ vs = cc in absurd (false≢true (rw (sym q) at c))
contains-text_items ids (k ∷ ks) us v e c =
    let r = same_refl k in
    let (x, vs, hx, hvs, eq) = cons_lem (text_item k ids) (text_items ks ids) us e in
    let c' : contains v (x ∷ vs) ≡ true = subst (λ l. contains v l ≡ true) eq c in
    elim (Bool-cases (v == x)) [
      | inl t ↦ (k, ground arith, get_of_item k ids x hx ∙ ground arith)
      | inr f ↦
          let (j, m, l) = contains-text_items ids ks vs v hvs (ground arith) in (j, ground arith, l)
    ]

-- Distinct keys have distinct identifiers.
pub text_items-Once :
    (ids : TextDict Uuid)
    → Separates ids
    → (ks : List String) (vs : List Uuid) → text_items ks ids ≡ ok vs
    → Distinct ks
    → Once vs
unfolding text_items
text_items-Once ids sep [] vs e d = let q : [] ≡ vs = cc in subst Once q tt
text_items-Once ids sep (k ∷ ks) us e (n, d) =
    let (x, vs, hx, hvs, eq) = cons_lem (text_item k ids) (text_items ks ids) us e in
    subst Once (sym eq) (
      elim (Bool-cases (contains x vs)) [
        | inr f ↦ f
        | inl t ↦
            let (j, m, l) = contains-text_items ids ks vs x hvs t in
            let q = sep j k x l (get_of_item k ids x hx) in
            let m' : has_text k ks ≡ true = subst (λ y. has_text y ks ≡ true) q m in cc
      ],
      text_items-Once ids sep ks vs hvs d,
    )

absent_ids :
    (k : Uuid) (ds : List TaskDefinition)
    → find definition_key k ds ≡ none
    → contains k (ids_of ds) ≡ false
absent_ids k [] h = refl
absent_ids k (d ∷ ds) h = ground (arith, absent_ids k ds)

pub UniqueKeys-Once : (ds : List TaskDefinition) → UniqueKeys definition_key ds → Once (ids_of ds)
UniqueKeys-Once [] u = tt
UniqueKeys-Once (d ∷ ds) (n, u) = (absent_ids d.id ds n, UniqueKeys-Once ds u)

-- The definitions have the keys of the tasks.
pub same_names :
    (ids : TextDict Uuid) (ts : List CreateTaskDefinition) (ds : List TaskDefinition)
    → AllResolve ids ts ds
    → keys ts ≡ names_of ds
same_names ids [] [] a = refl
same_names ids [] (_ ∷ _) a = absurd a
same_names ids (_ ∷ _) [] a = absurd a
same_names ids (t ∷ ts) (d ∷ ds) (r, a) =
    ap (λ k. k ∷ keys ts) (sym (ap (λ (x : TaskDefinition). x.key) r.rest))
    ∙ ap (λ ks. d.key ∷ ks) (same_names ids ts ds a)

-- The order of the tasks is that of the definitions.
pub Listed-Ordered :
    (ids : TextDict Uuid)
    → Separates ids
    → (seen : List String) (before : List Uuid) (ts : List CreateTaskDefinition)
      (ds : List TaskDefinition)
    → AllResolve ids ts ds
    → ((t : CreateTaskDefinition) → In t ts → Distinct t.dependencies)
    → ((k : String) (i : Uuid)
        → has_text k seen ≡ true
        → get_text k ids ≡ some i
        → contains i before ≡ true)
    → Listed seen ts
    → Ordered before ds
Listed-Ordered ids sep seen before [] [] a each known l = tt
Listed-Ordered ids sep seen before [] (_ ∷ _) a each known l = absurd a
Listed-Ordered ids sep seen before (_ ∷ _) [] a each known l = absurd a
Listed-Ordered ids sep seen before (t ∷ ts) (d ∷ ds) (r, a) each known (here, l) = (
  λ k c. let (n, m, e) = r.dependencies k c in known n k (here n m) e,
  text_items-Once ids sep t.dependencies d.dependencies r.exact (each t (inl refl)),
  Listed-Ordered ids sep (t.key ∷ seen) (d.id ∷ before) ts ds a (λ x i. each x (inr i))
      (λ k i h e. elim (same-cases k t.key) [
        | inl (q, _) ↦
            let same : some i ≡ some d.id = sym e ∙ ap (λ y. get_text y ids) q ∙ r.own in
            ground arith
        | inr (_, f) ↦ let old = known k i (rw f at h) e in ground arith
      ])
      l,
)
