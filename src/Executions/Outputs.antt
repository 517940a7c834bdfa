-- ===== src/Executions/Outputs.antt =====
-- `_load_parent_outputs`: which outputs it returns, and under which keys.
use mathlib.Core.Bool.{false≢true}
use automation_platform.Base.{
  ◌≡◌, refl, true, some, none, List, [], ◌∷◌, String, ap, sym, ◌∙◌, ◌⊎◌, inl, inr, subst, contains,
  Option-cases, filter_by,
}
use automation_platform.Domain.{Uuid, TaskOutput}
use automation_platform.Errors.{ok, raised, missing_parent_output}
use automation_platform.Table.{
  In, In-filter_by, In-filter_by_of, In-find, find_of_In, key-find, UniqueKeys,
}
use automation_platform.Texts.{
  TextDict, get_text, set_text, get_text-set_text, same_refl, same-cases,
}
use automation_platform.Executions.{
  TaskRow, Store, task, task_key, load_parent_outputs, collect_outputs,
}

-- The dict holds the outputs of the tasks `ids`: under each key that it has, the output of one of
-- them with this key, and something under the key of each of them.
pub record HoldsOutputs (s : Store) (ids : List Uuid) (outputs : TextDict TaskOutput) : Type 0 where
  pub from_parent :
      (k : String) (o : TaskOutput)
      → get_text k outputs ≡ some o
      → (p : Uuid) × (q : TaskRow) × (contains p ids ≡ true)
        × (task p s ≡ some q)
        × (q.key ≡ k)
        × (q.output ≡ some o.values)
  pub of_each :
      (p : Uuid) (q : TaskRow)
      → contains p ids ≡ true
      → task p s ≡ some q
      → (o : TaskOutput) × (get_text q.key outputs ≡ some o)

-- What one row does to the dict.
collect_row :
    (r : TaskRow) (rows : List TaskRow) (outputs all : TextDict TaskOutput)
    → collect_outputs (r ∷ rows) outputs ≡ ok all
    → (o : TaskOutput) × (r.output ≡ some o.values)
      × (collect_outputs rows (set_text r.key o outputs) ≡ ok all)
unfolding collect_outputs
collect_row r rows outputs all h = elim (Option-cases r.output) [
  | inl n ↦ let bad : raised missing_parent_output ≡ ok all = rw n at h in cc
  | inr (values, e) ↦ (record { values = values }, e, rw (e, collect_outputs) at h)
]

collect_from :
    (rows : List TaskRow) (outputs all : TextDict TaskOutput)
    → collect_outputs rows outputs ≡ ok all
    → (k : String) (o : TaskOutput) → get_text k all ≡ some o
    → (get_text k outputs ≡ some o)
      ⊎ ((q : TaskRow) × In q rows × (q.key ≡ k) × (q.output ≡ some o.values))
unfolding collect_outputs
collect_from [] outputs all h k o g = inl (let q : outputs ≡ all = cc in ap (get_text k) q ∙ g)
collect_from (r ∷ rows) outputs all h k o g =
    let (v, e, rest) = collect_row r rows outputs all h in
    elim (collect_from rows (set_text r.key v outputs) all rest k o g) [
      | inr (q, i, named, out) ↦ inr (q, inr i, named, out)
      | inl old ↦
          let w = sym (get_text-set_text k r.key v outputs) ∙ old in
          elim (same-cases k r.key) [
            | inl (n, t) ↦
                let eq : some v ≡ some o = rw t at w in
                let values : some v.values ≡ some o.values = cc in
                inr (r, inl refl, sym n, e ∙ values)
            | inr (_, f) ↦ inl (rw f at w)
          ]
    ]

collect_keeps :
    (rows : List TaskRow) (outputs all : TextDict TaskOutput)
    → collect_outputs rows outputs ≡ ok all
    → (k : String) (v : TaskOutput) → get_text k outputs ≡ some v
    → (o : TaskOutput) × (get_text k all ≡ some o)
unfolding collect_outputs
collect_keeps [] outputs all h k v g = (v, let q : all ≡ outputs = cc in ap (get_text k) q ∙ g)
collect_keeps (r ∷ rows) outputs all h k v g =
    let (u, e, rest) = collect_row r rows outputs all h in
    elim (same-cases k r.key) [
      | inl (_, t) ↦
          collect_keeps rows (set_text r.key u outputs) all rest k u
            (get_text-set_text k r.key u outputs ∙ rw t refl)
      | inr (_, f) ↦
          collect_keeps rows (set_text r.key u outputs) all rest k v
            (get_text-set_text k r.key u outputs ∙ rw f g)
    ]

collect_each :
    (rows : List TaskRow) (outputs all : TextDict TaskOutput)
    → collect_outputs rows outputs ≡ ok all
    → (q : TaskRow) → In q rows
    → (o : TaskOutput) × (get_text q.key all ≡ some o)
collect_each [] outputs all h q i = absurd i
collect_each (r ∷ rows) outputs all h q i =
    let (u, e, rest) = collect_row r rows outputs all h in
    elim i [
      | inl eq ↦
          let s = same_refl r.key in
          let (o, g) =
            collect_keeps rows (set_text r.key u outputs) all rest r.key u
              (get_text-set_text r.key r.key u outputs ∙ rw s refl) in
          (o, ap (λ (x : TaskRow). get_text x.key all) eq ∙ g)
      | inr j ↦ collect_each rows (set_text r.key u outputs) all rest q j
    ]

pub load_parent_outputs-HoldsOutputs :
    (s : Store) (ids : List Uuid) (outputs : TextDict TaskOutput)
    → UniqueKeys task_key s.tasks
    → load_parent_outputs ids s.tasks ≡ ok outputs
    → HoldsOutputs s ids outputs
unfolding load_parent_outputs
load_parent_outputs-HoldsOutputs s [] outputs u h =
    let q : outputs ≡ [] = cc in
    record {
      from_parent = λ k o g. let n : none ≡ some o = sym (ap (get_text k) q) ∙ g in cc;
      of_each = λ p r c e. absurd (false≢true c);
    }
load_parent_outputs-HoldsOutputs s (i ∷ ids) outputs u h =
    let p = λ (r : TaskRow). contains r.id (i ∷ ids) in
    record {
      from_parent = λ k o g. elim (collect_from (filter_by p s.tasks) [] outputs h k o g) [
        | inl old ↦ cc
        | inr (q, j, named, out) ↦
            let (m, c) = In-filter_by p q s.tasks j in
            (q.id, q, c, find_of_In task_key q s.tasks u m, named, out)
      ];
      of_each = λ k q c e.
          let same : q.id ≡ k = key-find task_key k s.tasks q e in
          collect_each (filter_by p s.tasks) [] outputs h q (
            In-filter_by_of p q s.tasks (In-find task_key k s.tasks q e)
              (subst (λ x. contains x (i ∷ ids) ≡ true) (sym same) c));
    }
