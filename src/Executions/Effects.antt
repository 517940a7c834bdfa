-- ===== src/Executions/Effects.antt =====
-- What each statement of the repository does to a row that a key finds.
use mathlib.Core.Path.{ap₂}
use native.Mathlib.Decide.{ℕ_discrete}
use automation_platform.Base.{
  ap, ◌∙◌, ◌||◌, ==_refl, ==_ne, ℕ, ◌-◌, ◌+◌, ◌≡◌, refl, Bool, false, ◌&&◌, Option, none, some,
  List, [], ◌∷◌, arith, leb, ltb, ◌==◌, if◌then◌else◌, contains, count, Option-cases, inl, inr,
  filter_by,
}
use automation_platform.Domain.{Uuid}
use automation_platform.Table.{
  find, find-update, key-find, filter_by_key, accept, of_option, one_or_none, UniqueKeys,
  update-UniqueKeys, update_where,
}
use automation_platform.Executions.{
  TaskRow, task_key, is_pending, waits, decremented, update_child_dependencies, is_released,
}

-- An update of each row on its own.
abbrev pub on_row : (TaskRow → TaskRow) → Option TaskRow → Option TaskRow
on_row f none = none
on_row f (some r) = some (f r)

-- A child whose dependencies were decremented `k` times: only a pending one is touched.
abbrev pub lowered : ℕ → TaskRow → TaskRow
lowered k r =
    if is_pending r.status
    then record r { remaining_dependencies = r.remaining_dependencies - k }
    else r

abbrev pub is_lowered_to_zero : ℕ → Option TaskRow → Bool
is_lowered_to_zero k none = false
is_lowered_to_zero k (some r) =
    is_pending r.status && (ltb 0 r.remaining_dependencies && leb r.remaining_dependencies k)

lower_once :
    (j child : Uuid) (ts : List TaskRow)
    → find task_key j (update_where (waits child) decremented ts)
      ≡ on_row (lowered (if j == child then 1 else 0)) (find task_key j ts)
lower_once j child ts = elim (Option-cases (find task_key j ts)) [
  | inl n ↦ ground (arith, find-update task_key (waits child) decremented (λ _. refl) j ts)
  | inr (r, s) ↦ ground (
    arith,
    find-update task_key (waits child) decremented (λ _. refl) j ts,
    key-find task_key j ts r s,
  )
]

-- Every row after the loop over the children.
pub find-update_child_dependencies :
    (j : Uuid) (ids : List Uuid) (ts : List TaskRow)
    → find task_key j (update_child_dependencies ids ts).1
      ≡ on_row (lowered (count j ids)) (find task_key j ts)
unfolding update_child_dependencies
find-update_child_dependencies j [] ts = elim (Option-cases (find task_key j ts)) [
  | inl n ↦ rw n refl
  | inr (r, s) ↦ ground arith
]
find-update_child_dependencies j (i ∷ ids) ts = elim (Option-cases (find task_key j ts)) [
  | inl n ↦ ground (
    arith,
    find-update_child_dependencies j ids (update_where (waits i) decremented ts),
    lower_once j i ts,
  )
  | inr (r, s) ↦ ground (
    arith,
    find-update_child_dependencies j ids (update_where (waits i) decremented ts),
    lower_once j i ts,
  )
]

pub update_child_dependencies-UniqueKeys :
    (ids : List Uuid) (ts : List TaskRow)
    → UniqueKeys task_key ts
    → UniqueKeys task_key (update_child_dependencies ids ts).1
unfolding update_child_dependencies
update_child_dependencies-UniqueKeys [] ts u = u
update_child_dependencies-UniqueKeys (i ∷ ids) ts u =
    update_child_dependencies-UniqueKeys ids (update_where (waits i) decremented ts)
      (update-UniqueKeys task_key (waits i) decremented (λ _. refl) ts u)

touched_row :
    (i : Uuid) (ts : List TaskRow)
    → UniqueKeys task_key ts
    → filter_by (waits i) ts
      ≡ of_option
          (accept (λ r. is_pending r.status && ltb 0 r.remaining_dependencies) (find task_key i ts))
touched_row i ts u =
    filter_by_key task_key i (λ r. is_pending r.status && ltb 0 r.remaining_dependencies) ts u

-- The test of one decrement, on the row before it.
abbrev is_last : Option TaskRow → Bool
is_last o = is_released (accept (λ r. is_pending r.status && ltb 0 r.remaining_dependencies) o)

is_last_test :
    (i : Uuid) (ts : List TaskRow)
    → UniqueKeys task_key ts
    → is_released (one_or_none (filter_by (waits i) ts)) ≡ is_last (find task_key i ts)
is_last_test i ts u = elim (Option-cases (find task_key i ts)) [
  | inl n ↦ ground (arith, touched_row i ts u)
  | inr (r, s) ↦ ground (arith, touched_row i ts u)
]

contains-cons_if :
    (j i : Uuid) (b : Bool) (xs : List Uuid)
    → contains j (if b then i ∷ xs else xs) ≡ ((j == i) && b || contains j xs)
contains-cons_if j i b xs = ground arith

-- One decrement more: the child reaches 0 now or later.
zero-lowered :
    (k : ℕ) (o : Option TaskRow)
    → (is_last o || is_lowered_to_zero k (on_row (lowered 1) o)) ≡ is_lowered_to_zero (1 + k) o
zero-lowered k none = refl
zero-lowered k (some r) = ground arith

zero-lowered_none :
    (k : ℕ) (o : Option TaskRow)
    → is_lowered_to_zero k (on_row (lowered 0) o) ≡ is_lowered_to_zero k o
zero-lowered_none k none = refl
zero-lowered_none k (some r) = ground arith

zero-lowered_head :
    (j i : Uuid) (k : ℕ) (ts : List TaskRow)
    → ((j == i) && is_last (find task_key i ts)
        || is_lowered_to_zero k (on_row (lowered (if j == i then 1 else 0)) (find task_key j ts)))
      ≡ is_lowered_to_zero ((if j == i then 1 else 0) + k) (find task_key j ts)
zero-lowered_head j i k ts = elim (ℕ_discrete j i) [
  | yes e ↦ rw e (rw (==_refl i) (zero-lowered k (find task_key i ts)))
  | no ne ↦ rw (==_ne j i ne) (
      zero-lowered_none k (find task_key j ts)
      ∙ ap (λ n. is_lowered_to_zero n (find task_key j ts)) (omega arith))
]

-- The children that the loop reports as runnable.
pub contains-update_child_dependencies :
    (j : Uuid) (ids : List Uuid) (ts : List TaskRow)
    → UniqueKeys task_key ts
    → contains j (update_child_dependencies ids ts).0
      ≡ is_lowered_to_zero (count j ids) (find task_key j ts)
unfolding update_child_dependencies
contains-update_child_dependencies j [] ts u = elim (Option-cases (find task_key j ts)) [
  | inl n ↦ ground arith
  | inr (r, s) ↦ ground arith
]
contains-update_child_dependencies j (i ∷ ids) ts u =
    let ts' = update_where (waits i) decremented ts in
    let rest =
      contains-update_child_dependencies j ids ts'
        (update-UniqueKeys task_key (waits i) decremented (λ _. refl) ts u) in
    contains-cons_if j i (is_released (one_or_none (filter_by (waits i) ts)))
      (update_child_dependencies ids ts').0
    ∙ ap₂ (λ b c. (j == i) && b || c) (is_last_test i ts u)
        (rest ∙ ap (is_lowered_to_zero (count j ids)) (lower_once j i ts))
    ∙ zero-lowered_head j i (count j ids) ts
