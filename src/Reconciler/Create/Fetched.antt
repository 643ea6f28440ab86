-- ===== src/Reconciler/Create/Fetched.antt =====
-- The tasks that were fetched are those that the steps use.
use tekton_task_group.Base.{
  ℕ, zero, suc, ◌+◌, ◌<◌, ◌≡◌, sym, ap, ◌∙◌, List, [], ◌∷◌, none, some, get_elem?, ok, >>=-eq-ok,
  ok_inj, Option-cases, inl, inr, arith, some_inj,
}
use tekton_task_group.Upstream.{Types, TaskSpec}
use tekton_task_group.Upstream.Run.{RunTypes, Run}
use tekton_task_group.Api.{Step, Uses, TaskGroupSpec}
use tekton_task_group.Resolve.Task.{UsedTasks}
use tekton_task_group.Reconciler.Env.{Env}
use tekton_task_group.Reconciler.Create.{fetch_task, set_at, fetch_from, fetch_uses_task_spec}

set_at_lt :
    {T : Types} (i j : ℕ) (spec : TaskSpec T) (used : UsedTasks T)
    → j < i
    → set_at i spec used j ≡ used j
unfolding set_at
set_at_lt i j spec used lt = ground arith

set_at_self :
    {T : Types} (i : ℕ) (spec : TaskSpec T) (used : UsedTasks T) → set_at i spec used i ≡ some spec
unfolding set_at
set_at_self i spec used = ground arith

module _ {T : Types} {R : RunTypes} (E : Env T R) (w : E.cluster.World) (run : Run R) where
  -- Positions before `i` keep what was fetched for them.
  fetch_from_before :
      (steps : List (Step T)) (i j : ℕ) (used out : UsedTasks T)
      → fetch_from E w run i steps used ≡ ok out
      → j < i
      → out j ≡ used j
  unfolding fetch_from set_at
  fetch_from_before [] i j used out h lt = ap (λ f. f j) (sym (ok_inj h))
  fetch_from_before (s ∷ steps) i j used out h lt = elim (Option-cases s.uses) [
    | inl e ↦ fetch_from_before steps (suc i) j used out (rw (fetch_from, e) at h) (omega arith)
    | inr (u, e) ↦
        let (spec, f, k) = >>=-eq-ok (fetch_task E w run u.task_ref) _ (rw (fetch_from, e) at h) in
        fetch_from_before steps (suc i) j (set_at i spec used) out k (omega arith)
        ∙ set_at_lt i j spec used lt
  ]

  fetch_from_at :
      (steps : List (Step T)) (i n : ℕ) (used out : UsedTasks T) (s : Step T) (uses : Uses T)
      → fetch_from E w run i steps used ≡ ok out
      → get_elem? steps n ≡ some s
      → s.uses ≡ some uses
      → (spec : TaskSpec T) × (out (i + n) ≡ some spec)
        × (fetch_task E w run uses.task_ref ≡ ok spec)
  unfolding fetch_from
  fetch_from_at [] i n used out s uses h at has = cc
  fetch_from_at (t ∷ steps) i zero used out s uses h at has =
      let e : t.uses ≡ some uses = ap (λ x. x.uses) (some_inj at) ∙ has in
      let (spec, f, k) = >>=-eq-ok (fetch_task E w run uses.task_ref) _ (rw (fetch_from, e) at h) in
      (
        spec,
        ap out (omega arith)
            ∙ fetch_from_before steps (suc i) i (set_at i spec used) out k (omega arith)
            ∙ set_at_self i spec used,
        f,
      )
  fetch_from_at (t ∷ steps) i (suc n) used out s uses h at has = elim (Option-cases t.uses) [
    | inl e ↦
        shifted steps n out
          (fetch_from_at steps (suc i) n used out s uses (rw (fetch_from, e) at h) at has)
    | inr (u, e) ↦
        let (spec, f, k) = >>=-eq-ok (fetch_task E w run u.task_ref) _ (rw (fetch_from, e) at h) in
        shifted steps n out (fetch_from_at steps (suc i) n (set_at i spec used) out s uses k at has)
  ]
    where
      shifted :
          (steps : List (Step T)) (n : ℕ) (out : UsedTasks T)
          → (spec : TaskSpec T) × (out (suc i + n) ≡ some spec)
            × (fetch_task E w run uses.task_ref ≡ ok spec)
          → (spec : TaskSpec T) × (out (i + suc n) ≡ some spec)
            × (fetch_task E w run uses.task_ref ≡ ok spec)
      shifted steps n out (spec, at, f) = (spec, ap out (omega arith) ∙ at, f)

  -- Where the fetching returns no error, each step that uses a task has the task that its
  -- reference leads to at its position. So the resolution never misses one.
  pub fetch_uses_task_spec_at :
      (spec : TaskGroupSpec T) (out : UsedTasks T) (n : ℕ) (s : Step T) (uses : Uses T)
      → fetch_uses_task_spec E w run spec ≡ ok out
      → get_elem? spec.steps n ≡ some s
      → s.uses ≡ some uses
      → (task : TaskSpec T) × (out n ≡ some task) × (fetch_task E w run uses.task_ref ≡ ok task)
  unfolding fetch_uses_task_spec
  fetch_uses_task_spec_at spec out n s uses h at has =
      let (task, e, f) = fetch_from_at spec.steps 0 n (λ _. none) out s uses h at has in
      (task, ap out (omega arith) ∙ e, f)
